-- ===== src/Sbuffer/Memory.antt =====
-- sbuffer.c: the structs, the memory they live in, and the reads and writes. An access through NULL
-- or through an address that holds nothing faults.
use osc_final_lab.Common.{
  ◌≡◌, ◌≢◌, refl, ==_of_eq, ==_of_ne, ℕ, Bool, Option, none, some, ◌==◌, if◌then◌else◌, ok, fault,
  Cmd, ◌>>◌,
}
use osc_final_lab.Config.{SensorData}

abbrev pub Ptr : Type 0
Ptr = ℕ

abbrev pub null : Ptr
null = 0

-- `struct sbuffer_node`
pub record SbufferNode (V : Type 0) : Type 0 where
  pub next : Ptr
  pub is_processed : Bool
  pub content : SensorData V

-- `struct sbuffer`
pub record Sbuffer : Type 0 where
  pub head : Ptr
  pub tail : Ptr

-- The nodes, the buffers, and the global `condition`. The mutex is implicit: a command is what one
-- thread does between taking it and giving it up.
pub record Mem (V : Type 0) : Type 0 where
  pub nodes : Ptr → Option (SbufferNode V)
  pub buffers : Ptr → Option Sbuffer
  pub condition : ℕ

abbrev pub update {ℓ} : {A : Type ℓ} → (Ptr → A) → Ptr → A → Ptr → A
update h p c a = if a == p then c else h a

pub update-here {ℓ} : {A : Type ℓ} (h : Ptr → A) (p : Ptr) (c : A) → update h p c p ≡ c
update-here h p c = rw (==_of_eq p p refl) refl

pub update-away {ℓ} : {A : Type ℓ} (h : Ptr → A) (p a : Ptr) (c : A) → a ≢ p → update h p c a ≡ h a
update-away h p a c ne = rw (==_of_ne a p ne) refl

module _ {V : Type 0} where
  -- what stands at `p`
  found : {A : Type 0} → Ptr → Option A → Cmd (Mem V) A
  found p none m = fault
  found p (some x) m = if p == null then fault else ok x m

  unfoldable pub load_node : Ptr → Cmd (Mem V) (SbufferNode V)
  unfolding found
  load_node p m = found p (m.nodes p) m

  unfoldable pub load_buffer : Ptr → Cmd (Mem V) Sbuffer
  unfolding found
  load_buffer p m = found p (m.buffers p) m

  unfoldable pub store_node : Ptr → SbufferNode V → Cmd (Mem V) (Unit {0})
  store_node p n m = ok tt (record m { nodes = update m.nodes p (some n) })

  unfoldable pub store_buffer : Ptr → Sbuffer → Cmd (Mem V) (Unit {0})
  store_buffer p b m = ok tt (record m { buffers = update m.buffers p (some b) })

  unfoldable pub free_node : Ptr → Cmd (Mem V) (Unit {0})
  free_node p = do load_node p; λ m. ok tt (record m { nodes = update m.nodes p none })

  unfoldable pub free_buffer : Ptr → Cmd (Mem V) (Unit {0})
  free_buffer p = do load_buffer p; λ m. ok tt (record m { buffers = update m.buffers p none })

  abbrev pub get_condition : Cmd (Mem V) ℕ
  get_condition m = ok m.condition m

  abbrev pub set_condition : ℕ → Cmd (Mem V) (Unit {0})
  set_condition c m = ok tt (record m { condition = c })
