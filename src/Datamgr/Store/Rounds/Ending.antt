-- ===== src/Datamgr/Store/Rounds/Ending.antt =====
-- datamgr.c: the calls of `datamgr_init` after its loop, and the memory that is then allocated.
use osc_final_lab.Common.{
  ◌≡◌, ◌≢◌, refl, ap, ◌∙◌, Bool, true, false, Option, none, some, List, map, arith, if◌then◌else◌,
  Returns, returns, Returns-bind, Returns-mono, ok, ◌>>=◌, ◌>>◌, pure, Bool-cases, inl, inr,
}
use native.Mathlib.Decide.{ℕ_discrete}
use osc_final_lab.Config.{SensorData}
use osc_final_lab.Dplist.Memory.{Ptr, null, Mem, update}
use osc_final_lab.Dplist.Chain.{has, Cells}
use osc_final_lab.Datamgr.{Values, Maps, Message, peek_loop}
use osc_final_lab.Datamgr.Store.{MapStore, Machine, close_datamgr}
use osc_final_lab.Datamgr.Store.Owned.{owns_map, owns_list, owns_node, owns_data}
use osc_final_lab.Datamgr.Store.Freeing.{release-some}
use osc_final_lab.Datamgr.Store.Clearing.{close_datamgr-Cleared}
use osc_final_lab.Datamgr.Store.Rounds.{Round, free_point, peek_points}
use osc_final_lab.Datamgr.Store.Rounds.Following.{
  result_of, Represents-other, Roomy, Ready, peek_points-peek_loop,
}

-- Nothing is allocated.
pub record AllFree {V : Type 0} (m : Mem (MapStore V)) : Type 0 where
  pub nodes : (a : Ptr) → m.nodes a ≡ none
  pub lists : (a : Ptr) → m.lists a ≡ none
  pub maps : (a : Ptr) → m.elems.maps a ≡ none
  pub inner_lists : (a : Ptr) → m.elems.inner.lists a ≡ none
  pub inner_nodes : (a : Ptr) → m.elems.inner.nodes a ≡ none
  pub data_blocks : (a : Ptr) → m.elems.inner.elems a ≡ none

none_of_cleared :
    {A : Type 0} (b : Bool) {o o' : Option A}
    → o' ≡ (if b then none else o)
    → (b ≡ false → o ≡ none)
    → o' ≡ none
none_of_cleared true same off = same
none_of_cleared false same off = same ∙ off refl

module _ {V : Type 0} (machine : Machine V) where
  free_point-some :
      (m : Mem (MapStore V)) (p : Ptr) {x : SensorData V}
      → p ≢ null
      → m.elems.inner.elems p ≡ some x
      → free_point p m
        ≡ ok tt (record m {
          elems = record m.elems {
            inner = record m.elems.inner { elems = update m.elems.inner.elems p none };
          };
        })
  unfolding free_point
  free_point-some m p ne at = rw (free_point, release-some m.elems.inner.elems p ne at)

  module _ (values : Values V) (list data_ptr : Ptr) (cs : Cells) where
    -- With an open map file the rest of `datamgr_init` leaves nothing allocated.
    abbrev pub Closes : Mem (MapStore V) → Type 0
    Closes m = Returns (λ r g. (r ≡ null) × AllFree g) (close_datamgr true list m)

    free_point-Closes :
        (ms : Maps V) (m : Mem (MapStore V))
        → Ready machine values list data_ptr cs ms m
        → Returns (λ r g. Closes g) (free_point data_ptr m)
    free_point-Closes ms m ready =
        let xs = ready.sensors in
        let tight = ready.tight in
        let rep =
          Represents-other machine m list cs xs ms data_ptr none ready.represents
            ready.is_point.apart in
        let m' : Mem (MapStore V) = record m {
          elems = record m.elems {
            inner = record m.elems.inner { elems = update m.elems.inner.elems data_ptr none };
          };
        } in
        rw
          (free_point-some m data_ptr {x = ready.old_point} ready.is_point.not_null
            ready.is_point.holds_it)
          (returns (
            Returns-mono
              (close_datamgr-Cleared machine m' list rep.head cs xs rep.is_list rep.fits
                rep.elements rep.owned).0
              λ r g (is_null, gone, freed, outside, other, cleared). (
                is_null,
                record {
                  nodes = λ a. elim (Bool-cases (has a cs)) [
                    | inl on ↦ freed a on
                    | inr off ↦ outside a off ∙ tight.nodes a off
                  ];
                  lists = λ a. elim (ℕ_discrete a list) [
                    | yes here ↦ rw here gone
                    | no ne ↦ other a ne ∙ tight.lists a ne
                  ];
                  maps = λ a. none_of_cleared (owns_map a xs) (cleared.maps a) (tight.maps a);
                  inner_lists =
                      λ a. none_of_cleared (owns_list a xs) (cleared.lists a) (tight.inner_lists a);
                  inner_nodes =
                      λ a. none_of_cleared (owns_node a xs) (cleared.nodes a) (tight.inner_nodes a);
                  data_blocks = λ a. none_of_cleared (owns_data a xs) (cleared.data_blocks a) λ off.
                      elim (ℕ_discrete a data_ptr) [
                        | yes here ↦ ground arith
                        | no other ↦ ground (arith, tight.data_blocks a off other)
                      ];
                },
              )))

    -- If the nodes and blocks represent the sensors `ms`, there is a block for `*data_ptr`, nothing
    -- else is allocated, and `malloc` returns addresses of free blocks in each round, then the loop of
    -- `datamgr_init` and the `free` after it do not fault, whatever `sbuffer_peek` returns: the
    -- messages are those of `peek_loop` on the abstract lists, and with an open map file the calls
    -- that follow leave no block, node or list allocated.
    pub peek_points-Closes :
        {B : Type 0} (result : List (Message V) → B) (rounds : List (Round V)) (ms : Maps V)
        (m : Mem (MapStore V))
        → Ready machine values list data_ptr cs ms m
        → Roomy machine values list data_ptr rounds m
        → Returns
            (λ b g. (b ≡ result (peek_loop values (map result_of rounds) ms).1) × Closes g)
            ((do
              log ← peek_points values list data_ptr rounds
              free_point data_ptr
              pure (result log))
              m)
    peek_points-Closes result rounds ms m ready roomy =
        Returns-bind (peek_points-peek_loop machine values list data_ptr cs rounds ms m ready roomy)
          λ log g (same, ready').
            Returns-bind (free_point-Closes (peek_loop values (map result_of rounds) ms).0 g ready')
              λ r h closes. returns (ap result same, closes)
