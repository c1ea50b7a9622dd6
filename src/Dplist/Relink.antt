-- ===== src/Dplist/Relink.antt =====
-- lib/dplist.c: the pointer writes of an insertion and of a removal turn one chain into another.
use osc_final_lab.Common.{
  ==_of_ne, length, ◌<◌, ℕ, zero, suc, ◌≡◌, ◌≢◌, refl, false, ◌||◌, Option, some, [], ◌∷◌, ◌++◌,
  arith, ◌==◌,
}
use osc_final_lab.Dplist.Spec.{insert_at, remove_at}
use osc_final_lab.Dplist.Memory.{Ptr, null, Node}
use osc_final_lab.Dplist.Locate.{ne_of_has, Located-apart, ref_at, locate}
use osc_final_lab.Common.{sym, ◌∙◌}
use osc_final_lab.Dplist.Chain.{off_head, off_tail, first, has, Cells, Chain, Chain-frame}

pub has-insert_at :
    (a : Ptr) (i : ℕ) (p e : Ptr) (cs : Cells)
    → has a (insert_at i (p, e) cs) ≡ ((a == p) || has a cs)
unfolding insert_at
has-insert_at a zero p e cs = refl
has-insert_at a (suc i) p e [] = refl
has-insert_at a (suc i) p e ((q, f) ∷ cs) = ground (arith, has-insert_at a i p e cs)

pub off-insert_at :
    (a : Ptr) (i : ℕ) (p e : Ptr) (cs : Cells)
    → a ≢ p
    → has a cs ≡ false
    → has a (insert_at i (p, e) cs) ≡ false
off-insert_at a i p e cs ne out = has-insert_at a i p e cs ∙ ground arith

pub has-append :
    (a : Ptr) (cs : Cells) (p e : Ptr) → has a (cs ++ (p, e) ∷ []) ≡ (has a cs || (a == p))
has-append a [] p e = ground arith
has-append a ((q, f) ∷ cs) p e = ground (arith, has-append a cs p e)

pub not-has-remove_at :
    (a : Ptr) (i : ℕ) (cs : Cells) → has a cs ≡ false → has a (remove_at i cs) ≡ false
unfolding remove_at
not-has-remove_at a i [] out = refl
not-has-remove_at a i (c ∷ []) out = refl
not-has-remove_at a zero (c ∷ d ∷ cs) out = ground arith
not-has-remove_at a (suc i) (c ∷ d ∷ cs) out = ground (arith, not-has-remove_at a i (d ∷ cs))

-- `g` is `h` with the node `fresh` linked in between the nodes at `left` and `right`.
pub record Spliced (h g : Ptr → Option Node) (fresh e left right : Ptr) (nl nr : Node)
    : Type 0 where
  pub fresh_ne_null : fresh ≢ null
  pub left_was : h left ≡ some nl
  pub right_was : h right ≡ some nr
  pub back : nr.prev ≡ left
  pub new : g fresh ≡ some (record { prev = left; next = right; element = e })
  pub left_is : g left ≡ some (record nl { next = fresh })
  pub right_is : g right ≡ some (record nr { prev = fresh })
  pub same : (a : Ptr) → a ≢ fresh → a ≢ left → a ≢ right → g a ≡ h a

module _ {h g : Ptr → Option Node} {fresh e left right : Ptr} {nl nr : Node}
    (s : Spliced h g fresh e left right nl nr) where
  splice_here :
      (pb b eb p f : Ptr) (cs : Cells)
      → b ≢ null
      → h b ≡ some (record { prev = pb; next = p; element = eb })
      → has b ((p, f) ∷ cs) ≡ false
      → Chain h b ((p, f) ∷ cs)
      → has fresh ((p, f) ∷ cs) ≡ false
      → fresh ≢ b
      → right ≡ p
      → Chain g b ((fresh, e) ∷ (p, f) ∷ cs)
        × (g b ≡ some (record { prev = pb; next = fresh; element = eb }))
  splice_here pb b eb p f cs bne hb bout (ne, out, at, rest) fout fb here =
      let l : left ≡ b = ground (arith, s.back, s.right_was) in
      (
        (
          s.fresh_ne_null,
          fout,
          ground (arith, s.new),
          (
            ne,
            out,
            ground (arith, s.right_is, s.right_was),
            Chain-frame h g p cs (λ a i. s.same a (ground arith) (ground arith) (ground arith))
                rest,
          ),
        ),
        ground (arith, s.left_is, s.left_was),
      )

  -- Linked in before the node at `i`, behind a node `b`.
  pub Chain-insert_at :
      (i : ℕ) (pb b eb : Ptr) (cs : Cells)
      → b ≢ null
      → h b ≡ some (record { prev = pb; next = first cs; element = eb })
      → has b cs ≡ false
      → Chain h b cs
      → has fresh cs ≡ false
      → fresh ≢ b
      → i < length cs
      → right ≡ ref_at i cs
      → Chain g b (insert_at i (fresh, e) cs)
        × (g b
            ≡ some (record { prev = pb; next = first (insert_at i (fresh, e) cs); element = eb }))
  unfolding insert_at ref_at
  Chain-insert_at i pb b eb [] bne hb bout c fout fb inside here = absurd (omega arith)
  Chain-insert_at zero pb b eb ((p, f) ∷ []) bne hb bout c fout fb inside here =
      splice_here pb b eb p f [] bne hb bout c fout fb here
  Chain-insert_at zero pb b eb ((p, f) ∷ d ∷ cs) bne hb bout c fout fb inside here =
      splice_here pb b eb p f (d ∷ cs) bne hb bout c fout fb here
  Chain-insert_at (suc i) pb b eb ((p, f) ∷ []) bne hb bout c fout fb inside here =
      absurd (omega arith)
  Chain-insert_at (suc i) pb b eb ((p, f) ∷ (q, k) ∷ cs) bne hb bout (ne, out, at, rest) fout fb
        inside here =
      let (tail, head) =
        Chain-insert_at i b p f ((q, k) ∷ cs) ne at out rest (off_tail fresh p f ((q, k) ∷ cs) fout)
          (off_head fresh p f ((q, k) ∷ cs) fout) (omega arith) here in
      let l = locate h p (q, k) cs i rest out in
      let (off_right, off_left) =
        Located-apart l b (off_tail b p f ((q, k) ∷ cs) bout) (off_head b p f ((q, k) ∷ cs) bout) in
      let left_node : left ≡ l.node.prev = ground (arith, s.back, s.right_was, l.holds) in
      (
        (
          ne,
          off-insert_at p i fresh e ((q, k) ∷ cs)
              (λ x. off_head fresh p f ((q, k) ∷ cs) fout (sym x)) out,
          head,
          tail,
        ),
        s.same b (λ x. fb (sym x)) (λ x. off_left (x ∙ left_node)) (λ x. off_right (x ∙ here)) ∙ hb,
      )

-- `g` is `h` with the node `fresh` linked in behind the last node.
pub record Extended (h g : Ptr → Option Node) (fresh e last : Ptr) (nl : Node) : Type 0 where
  pub fresh_ne_null : fresh ≢ null
  pub last_was : h last ≡ some nl
  pub new : g fresh ≡ some (record { prev = last; next = null; element = e })
  pub last_is : g last ≡ some (record nl { next = fresh })
  pub same : (a : Ptr) → a ≢ fresh → a ≢ last → g a ≡ h a

module _ {h g : Ptr → Option Node} {fresh e last : Ptr} {nl : Node}
    (s : Extended h g fresh e last nl) where
  pub Chain-append :
      (b p f : Ptr) (cs : Cells)
      → Chain h b ((p, f) ∷ cs)
      → has fresh ((p, f) ∷ cs) ≡ false
      → last ≡ ref_at (length cs) ((p, f) ∷ cs)
      → Chain g b (((p, f) ∷ cs) ++ (fresh, e) ∷ [])
  unfolding ref_at
  Chain-append b p f [] (ne, out, at, rest) fout here = (
    ne,
    ground (arith, off_head fresh p f [] fout),
    ground (arith, s.last_is, s.last_was),
    (s.fresh_ne_null, refl, ground (arith, s.new), tt),
  )
  Chain-append b p f ((q, k) ∷ cs) (ne, out, at, rest) fout here =
      let l = locate h p (q, k) cs (length cs) rest out in
      let apart : p ≢ fresh = λ x. off_head fresh p f ((q, k) ∷ cs) fout (sym x) in
      (
        ne,
        has-append p ((q, k) ∷ cs) fresh e ∙ ground (arith, ==_of_ne p fresh apart),
        s.same p apart (λ x. ne_of_has ((q, k) ∷ cs) l.on_chain out (x ∙ here)) ∙ at,
        Chain-append p q k cs rest (off_tail fresh p f ((q, k) ∷ cs) fout) here,
      )
