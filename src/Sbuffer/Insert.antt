-- ===== src/Sbuffer/Insert.antt =====
-- sbuffer.c: `sbuffer_insert`, `sbuffer_init` and `sbuffer_free`.
use osc_final_lab.Common.{
  Returns-ok, ◌≡◌, ◌≢◌, refl, sym, ◌∙◌, ap, Bool, true, false, Option, none, some, [], ◌∷◌, ◌++◌,
  ◌==◌, ◌⊎◌, arith, ==_of_ne, ==_of_eq, Bool-cases, inl, inr, ok, Returns, returns,
}
use mathlib.Core.Path.{subst}
use osc_final_lab.Config.{SensorData}
use osc_final_lab.Sbuffer.Memory.{
  Ptr, null, SbufferNode, Sbuffer, Mem, update, update-here, update-away, store_node, store_buffer,
}
use osc_final_lab.Sbuffer.Queue.{Queue, queue, insert}
use osc_final_lab.Sbuffer.Chain.{
  Cells, first, last, has, off_head, off_tail, ne_of_has, last_holds, off_of_none, items_of, Chain,
  Held, Represents,
}
use osc_final_lab.Sbuffer.Refine.{load_buffer-ok, load_node-ok}
use osc_final_lab.Sbuffer.Remove.{queue_of}
use osc_final_lab.Sbuffer.{sbuffer_init, sbuffer_insert}

nonfailing : true ≡ false → ⊥
nonfailing e = cc

module _ {V : Type 0} where
  items_of-append :
      (cs : Cells V) (p : Ptr) (x : SensorData V) (b : Bool)
      → items_of (cs ++ (p, x, b) ∷ []) ≡ items_of cs ++ (x, b) ∷ []
  items_of-append [] p x b = refl
  items_of-append ((q, y, d) ∷ cs) p x b = ap ((y, d) ∷◌) (items_of-append cs p x b)

  last-append :
      (cs : Cells V) (p : Ptr) (x : SensorData V) (b : Bool) → last (cs ++ (p, x, b) ∷ []) ≡ p
  last-append [] p x b = refl
  last-append (c ∷ []) p x b = refl
  last-append (c ∷ d ∷ cs) p x b = last-append (d ∷ cs) p x b

  first-append :
      (c : Ptr × SensorData V × Bool) (cs ds : Cells V) → first ((c ∷ cs) ++ ds) ≡ first (c ∷ cs)
  first-append c cs ds = refl

  has-append :
      (a : Ptr) (cs : Cells V) (p : Ptr) (x : SensorData V) (b : Bool)
      → a ≢ p
      → has a cs ≡ false
      → has a (cs ++ (p, x, b) ∷ []) ≡ false
  has-append a [] p x b ne out = ground arith
  has-append a ((q, y, d) ∷ cs) p x b ne out = ground (arith, has-append a cs p x b)

  -- `g` is `h` with the node `fresh` behind the last one.
  Chain-append :
      (h g : Ptr → Option (SbufferNode V)) (fresh : Ptr) (x : SensorData V)
      (c : Ptr × SensorData V × Bool) (cs : Cells V) (n : SbufferNode V)
      → Chain h (c ∷ cs)
      → fresh ≢ null
      → has fresh (c ∷ cs) ≡ false
      → h (last (c ∷ cs)) ≡ some n
      → g fresh ≡ some (record { next = null; is_processed = false; content = x })
      → g (last (c ∷ cs)) ≡ some (record n { next = fresh })
      → ((a : Ptr) → a ≢ fresh → a ≢ last (c ∷ cs) → g a ≡ h a)
      → Chain g ((c ∷ cs) ++ (fresh, x, false) ∷ [])
  Chain-append h g fresh x (p, y, b) [] n (ne, out, at, rest) fne off was new is same =
      (ne, ground arith, ground arith, (fne, refl, new, tt))
  Chain-append h g fresh x (p, y, b) (d ∷ cs) n (ne, out, at, rest) fne off was new is same =
      let p_old : p ≢ fresh = λ e. off_head fresh p y b (d ∷ cs) off (sym e) in
      let (n', lne, on, holds) = last_holds h d cs rest in
      (
        ne,
        has-append p (d ∷ cs) fresh x false p_old out,
        same p p_old (ne_of_has (d ∷ cs) on out) ∙ at,
        Chain-append h g fresh x d cs n rest fne (off_tail fresh p y b (d ∷ cs) off) was new is
            same,
      )

  buffer_after :
      (h : Ptr → Option Sbuffer) (buffer l fresh : Ptr) (c : Ptr × SensorData V × Bool)
      (cs : Cells V)
      → l ≡ fresh
      → update h buffer (some (record { head = first (c ∷ cs); tail = fresh })) buffer
        ≡ some (record { head = first (c ∷ cs); tail = l })
  buffer_after h buffer l fresh c cs same = rw (==_of_eq buffer buffer refl, same) refl

  -- What an insertion leaves: success, and the reading at the end of the queue.
  abbrev pub Inserted : Ptr → SensorData V → Queue V → Bool → Mem V → Type 0
  Inserted buffer x q ok_ g = (ok_ ≡ true) × Represents buffer g (insert x q.items q.condition)

  insert-Held :
      (buffer fresh : Ptr) (x : SensorData V) (m : Mem V) (cells : Cells V)
      → Held buffer m cells
      → fresh ≢ null
      → has fresh cells ≡ false
      → Returns
          (Inserted buffer x (queue (items_of cells) m.condition))
          (sbuffer_insert fresh buffer x m)
  unfolding sbuffer_insert store_node store_buffer insert
  insert-Held buffer fresh x m [] held fne off =
      let new : SbufferNode V = record { next = null; is_processed = false; content = x } in
      let m1 : Mem V = record m { nodes = update m.nodes fresh (some new) } in
      rw
        (
          ==_of_ne buffer null held.not_null,
          ==_of_ne fresh null fne,
          load_buffer-ok m1 buffer held.not_null held.buffer_at,
        )
        (returns (
          refl,
          record {
            cells = (fresh, x, false) ∷ [];
            held = record {
              not_null = held.not_null;
              buffer_at = ground arith;
              chain = (fne, refl, ground arith, tt);
            };
            items = refl;
            condition = refl;
          },
        ))
  insert-Held buffer fresh x m (c ∷ cs) held fne off =
      let (n, lne, on, holds) = last_holds m.nodes c cs held.chain in
      let apart : last (c ∷ cs) ≢ fresh = λ e. ne_of_has (c ∷ cs) on off (sym e) in
      let new : SbufferNode V = record { next = null; is_processed = false; content = x } in
      let m1 : Mem V = record m { nodes = update m.nodes fresh (some new) } in
      let still : m1.nodes (last (c ∷ cs)) ≡ some n =
        update-away m.nodes fresh (last (c ∷ cs)) _ apart ∙ holds in
      let m2 : Mem V = record m1 {
        nodes = update m1.nodes (last (c ∷ cs)) (some (record n { next = fresh }));
      } in
      rw
        (
          ==_of_ne buffer null held.not_null,
          ==_of_ne fresh null fne,
          load_buffer-ok m1 buffer held.not_null held.buffer_at,
          ==_of_ne (last (c ∷ cs)) null lne,
          load_node-ok m1 (last (c ∷ cs)) lne still,
        )
        (returns (
          refl,
          record {
            cells = (c ∷ cs) ++ (fresh, x, false) ∷ [];
            held = record {
              not_null = held.not_null;
              buffer_at =
                  buffer_after m.buffers buffer (last ((c ∷ cs) ++ (fresh, x, false) ∷ [])) fresh c
                    cs (last-append (c ∷ cs) fresh x false);
              chain =
                  Chain-append m.nodes m2.nodes fresh x c cs n held.chain fne off holds
                    (update-away m1.nodes (last (c ∷ cs)) fresh _ (λ e. apart (sym e))
                      ∙ update-here m.nodes fresh _)
                    (update-here m1.nodes (last (c ∷ cs)) _)
                    (λ a af al.
                      update-away m1.nodes (last (c ∷ cs)) a _ al
                      ∙ update-away m.nodes fresh a _ af);
            };
            items = sym (items_of-append (c ∷ cs) fresh x false);
            condition = refl;
          },
        ))

  -- If the nodes in memory represent a queue and `malloc` returns a free address,
  -- `sbuffer_insert` succeeds, and the memory then represents the queue with the reading at its
  -- end, not yet processed, and with `condition` 1 if it was empty.
  pub sbuffer_insert-insert :
      (buffer fresh : Ptr) (x : SensorData V) (m : Mem V) (q : Queue V)
      → Represents buffer m q
      → fresh ≢ null
      → m.nodes fresh ≡ none
      → Returns (Inserted buffer x q) (sbuffer_insert fresh buffer x m)
  sbuffer_insert-insert buffer fresh x m q r fne unused =
      subst (λ p. Returns (Inserted buffer x p) (sbuffer_insert fresh buffer x m))
        (sym (queue_of r))
        (insert-Held buffer fresh x m r.cells r.held fne
          (off_of_none m.nodes fresh r.cells unused r.held.chain))

  -- If the buffer is NULL or `malloc` returns NULL, `sbuffer_insert` fails and changes nothing.
  pub sbuffer_insert-failure :
      (buffer fresh : Ptr) (x : SensorData V) (m : Mem V)
      → (buffer ≡ null) ⊎ (fresh ≡ null)
      → sbuffer_insert fresh buffer x m ≡ ok false m
  unfolding sbuffer_insert
  sbuffer_insert-failure buffer fresh x m (inl e) = rw (==_of_eq buffer null e) refl
  sbuffer_insert-failure buffer fresh x m (inr e) = elim (Bool-cases (buffer == null)) [
    | inl n ↦ rw n refl
    | inr n ↦ rw (n, ==_of_eq fresh null e) refl
  ]

  -- If `malloc` returns an address, `sbuffer_init` succeeds and leaves that address in `*buffer`,
  -- where the memory then represents an empty queue, with `condition` as it was.
  pub sbuffer_init-empty :
      (fresh : Ptr) (m : Mem V)
      → fresh ≢ null
      → Returns
          (λ r g. (r ≡ (true, fresh)) × Represents fresh g (queue [] m.condition))
          (sbuffer_init fresh m)
  unfolding sbuffer_init store_buffer
  sbuffer_init-empty fresh m fne = rw (==_of_ne fresh null fne) (
      returns (
        refl,
        record {
          cells = [];
          held = record { not_null = fne; buffer_at = update-here m.buffers fresh _; chain = tt };
          items = refl;
          condition = refl;
        },
      ))

  -- A buffer that `sbuffer_init` reports is empty.
  pub sbuffer_init-queue :
      (fresh buffer : Ptr) (m g : Mem V)
      → sbuffer_init fresh m ≡ ok (true, buffer) g
      → Represents buffer g (queue [] m.condition)
  unfolding sbuffer_init
  sbuffer_init-queue fresh buffer m g e = elim (Bool-cases (fresh == null)) [
    | inl absent ↦
        let failed : Returns (λ r _. r.0 ≡ false) (sbuffer_init fresh m) =
          rw absent (returns refl) in
        absurd (nonfailing (Returns-ok failed e))
    | inr given ↦
        let (same, represents) = Returns-ok (sbuffer_init-empty fresh m (λ n. ground arith)) e in
        rw (ap (λ r. r.1) same) represents
  ]
