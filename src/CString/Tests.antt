-- ===== src/CString/Tests.antt =====
-- Runs of `atoi` at concrete inputs.
use osc_final_lab.Common.{◌≡◌, refl, none, some, [], ◌∷◌, pos, negsuc}
use osc_final_lab.CString.{atoi, to_u16}

port_number : atoi (b'5' ∷ b'6' ∷ b'7' ∷ b'8' ∷ []) ≡ some (pos 5678)
unfolding atoi
port_number = refl

signed_number : atoi (32 ∷ b'-' ∷ b'4' ∷ b'2' ∷ b'x' ∷ []) ≡ some (negsuc 41)
unfolding atoi
signed_number = refl

not_a_number : atoi (b'a' ∷ []) ≡ some (pos 0)
unfolding atoi
not_a_number = refl

too_long : atoi (b'9' ∷ b'9' ∷ b'9' ∷ b'9' ∷ b'9' ∷ b'9' ∷ b'9' ∷ b'9' ∷ b'9' ∷ b'9' ∷ []) ≡ none
unfolding atoi
too_long = refl

wraps : to_u16 (negsuc 0) ≡ 65535
wraps = refl
