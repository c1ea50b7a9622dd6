-- ===== src/Dplist/Unlink.antt =====
-- lib/dplist.c: the pointer writes of `dpl_remove_at_index` take a node out of a chain.
use osc_final_lab.Common.{ℕ, zero, suc, ◌≡◌, ◌≢◌, refl, ◌∙◌, false, Option, some, [], ◌∷◌, arith}
use osc_final_lab.Dplist.Spec.{remove_at}
use osc_final_lab.Dplist.Memory.{Ptr, null, Node}
use osc_final_lab.Dplist.Chain.{
  off_cons, has, off_head, off_cons, off_tail, Cells, first, Chain, Chain-frame,
}
use osc_final_lab.Dplist.Locate.{Located-next, ref_at, locate, Located-apart, ne_of_has}

pub not-has-remove_at :
    (a : Ptr) (i : ℕ) (cs : Cells) → has a cs ≡ false → has a (remove_at i cs) ≡ false
unfolding remove_at
not-has-remove_at a i [] out = refl
not-has-remove_at a i (c ∷ []) out = refl
not-has-remove_at a zero ((p, e) ∷ d ∷ cs) out = off_tail a p e (d ∷ cs) out
not-has-remove_at a (suc i) ((p, e) ∷ d ∷ cs) out =
    off_cons a p e (remove_at i (d ∷ cs)) (off_head a p e (d ∷ cs) out)
      (not-has-remove_at a i (d ∷ cs) (off_tail a p e (d ∷ cs) out))

-- `g` is `h` without the node `n` at `gone`, its neighbours linked to each other.
pub record Unlinked (h g : Ptr → Option Node) (gone : Ptr) (n : Node) : Type 0 where
  pub gone_was : h gone ≡ some n
  pub prev_is :
      (nl : Node)
      → n.prev ≢ null
      → h n.prev ≡ some nl
      → g n.prev ≡ some (record nl { next = n.next })
  pub next_is :
      (nr : Node)
      → n.next ≢ null
      → h n.next ≡ some nr
      → g n.next ≡ some (record nr { prev = n.prev })
  pub same : (a : Ptr) → a ≢ gone → a ≢ n.prev → a ≢ n.next → g a ≡ h a

module _ {h g : Ptr → Option Node} {gone : Ptr} {n : Node} (s : Unlinked h g gone n) where
  -- The first node goes: the rest stands behind what stood before it.
  pub Chain-tail :
      (b p f : Ptr) (cs : Cells)
      → Chain h b ((p, f) ∷ cs)
      → has b ((p, f) ∷ cs) ≡ false
      → gone ≡ p
      → Chain g b cs
  Chain-tail b p f [] c bout here = tt
  Chain-tail b p f ((q, k) ∷ cs) (ne, out, at, (qne, qout, qat, rest)) bout here =
      let is : n ≡ record { prev = b; next = q; element = f } = ground (arith, s.gone_was) in
      (
        qne,
        qout,
        ground (arith, s.next_is (record { prev = p; next = first cs; element = k })),
        Chain-frame h g q cs
            (λ a i.
              s.same a (ground (arith, ne_of_has cs i))
                (ground (arith, off_tail b p f ((q, k) ∷ cs) bout)) (ground arith))
            rest,
      )

  -- Any node goes, behind a node `b`.
  pub Chain-remove_at :
      (i : ℕ) (pb b eb : Ptr) (c : Ptr × Ptr) (cs : Cells)
      → b ≢ null
      → h b ≡ some (record { prev = pb; next = c.0; element = eb })
      → has b (c ∷ cs) ≡ false
      → Chain h b (c ∷ cs)
      → gone ≡ ref_at i (c ∷ cs)
      → Chain g b (remove_at i (c ∷ cs))
        × (g b ≡ some (record { prev = pb; next = first (remove_at i (c ∷ cs)); element = eb }))
  unfolding remove_at ref_at
  Chain-remove_at i pb b eb (p, f) [] bne hb bout c here =
      (tt, ground (arith, s.gone_was, s.prev_is (record { prev = pb; next = p; element = eb })))
  Chain-remove_at zero pb b eb (p, f) ((q, k) ∷ cs) bne hb bout c here = (
    Chain-tail b p f ((q, k) ∷ cs) c bout here,
    ground (arith, s.gone_was, s.prev_is (record { prev = pb; next = p; element = eb })),
  )
  Chain-remove_at (suc i) pb b eb (p, f) ((q, k) ∷ cs) bne hb bout (ne, out, at, rest) here =
      let (tail, head) = Chain-remove_at i b p f (q, k) cs ne at out rest here in
      let l = locate h p (q, k) cs i rest out in
      let (off_gone, off_prev) =
        Located-apart l b (off_tail b p f ((q, k) ∷ cs) bout) (off_head b p f ((q, k) ∷ cs) bout) in
      let off_next = Located-next l b (off_tail b p f ((q, k) ∷ cs) bout) bne in
      let is : n ≡ l.node = ground (arith, s.gone_was, l.holds) in
      (
        (ne, not-has-remove_at p i ((q, k) ∷ cs) out, head, tail),
        s.same b (λ x. off_gone (x ∙ here)) (λ x. off_prev (ground arith))
              (λ x. off_next (ground arith))
            ∙ hb,
      )
