-- ===== src/Sbuffer/Queue.antt =====
-- sbuffer.h: what the shared buffer is, without its nodes: the readings in order, each with the flag
-- that says whether the data manager has seen it, and the value of `condition`. `none` is a fault.
use osc_final_lab.Common.{
  ℕ, Bool, true, false, Option, none, some, List, [], ◌∷◌, ◌++◌, ◌==◌, if◌then◌else◌,
}
use osc_final_lab.Config.{SensorData}
use osc_final_lab.Sbuffer.{Stand, start, wait_filled, wait_turn, ending, returned, success, no_data}

abbrev pub Items : Type 0 → Type 0
Items V = List (SensorData V × Bool)

pub record Queue (V : Type 0) : Type 0 where
  pub items : Items V
  pub condition : ℕ

abbrev pub queue : {V : Type 0} → Items V → ℕ → Queue V
queue xs c = record { items = xs; condition = c }

-- What a step of a call yields.
abbrev pub Outcome : Type 0 → Type 0
Outcome V = Option (Stand V × Queue V)

module _ {V : Type 0} where
  unfoldable pub take_front : Items V → ℕ → Outcome V
  take_front [] c = none
  take_front ((x, b) ∷ xs) c =
      if x.id == 0
      then some (ending 2, queue ((x, b) ∷ xs) c)
      else some (returned (success x), queue xs c)

  unfoldable pub check_front : Items V → ℕ → Outcome V
  check_front [] c = none
  check_front ((x, true) ∷ xs) c = take_front ((x, true) ∷ xs) c
  check_front ((x, false) ∷ xs) c =
      if x.id == 0
      then some (ending 1, queue ((x, false) ∷ xs) c)
      else some (wait_turn, queue ((x, false) ∷ xs) 1)

  unfoldable pub remove_start : Items V → ℕ → Outcome V
  remove_start [] c = some (wait_filled, queue [] 0)
  remove_start (x ∷ xs) c = check_front (x ∷ xs) c

  -- one step of a removal
  unfoldable pub remove : Stand V → Queue V → Outcome V
  remove start q = remove_start q.items q.condition
  remove wait_filled q =
      if q.condition == 0 then some (wait_filled, q) else check_front q.items q.condition
  remove wait_turn q =
      if q.condition == 1 then some (wait_turn, q) else take_front q.items q.condition
  remove (ending c) q = some (returned no_data, queue q.items c)
  remove (returned r) q = some (returned r, q)

  unfoldable pub mark_front : Items V → ℕ → Outcome V
  mark_front [] c = none
  mark_front ((x, b) ∷ xs) c =
      if x.id == 0
      then some (ending 2, queue ((x, b) ∷ xs) c)
      else some (returned (success x), queue ((x, true) ∷ xs) 2)

  unfoldable pub look_front : Items V → ℕ → Outcome V
  look_front [] c = none
  look_front ((x, false) ∷ xs) c = mark_front ((x, false) ∷ xs) c
  look_front ((x, true) ∷ xs) c =
      if x.id == 0
      then some (ending 2, queue ((x, true) ∷ xs) c)
      else some (wait_turn, queue ((x, true) ∷ xs) 2)

  unfoldable pub peek_start : Items V → ℕ → Outcome V
  peek_start [] c = some (wait_filled, queue [] 0)
  peek_start (x ∷ xs) c = look_front (x ∷ xs) c

  -- one step of a peek
  unfoldable pub peek : Stand V → Queue V → Outcome V
  peek start q = peek_start q.items q.condition
  peek wait_filled q =
      if q.condition == 0 then some (wait_filled, q) else look_front q.items q.condition
  peek wait_turn q =
      if q.condition == 2 then some (wait_turn, q) else mark_front q.items q.condition
  peek (ending c) q = some (returned no_data, queue q.items c)
  peek (returned r) q = some (returned r, q)

  -- An insertion goes to the end, and wakes those that wait for a first reading.
  unfoldable pub insert : SensorData V → Items V → ℕ → Queue V
  insert x [] c = queue ((x, false) ∷ []) 1
  insert x (y ∷ ys) c = queue ((y ∷ ys) ++ (x, false) ∷ []) c
