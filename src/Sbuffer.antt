-- ===== src/Sbuffer.antt =====
-- sbuffer.c: the shared buffer. `sbuffer_remove` and `sbuffer_peek` wait on a condition variable in
-- the middle, so each is a step function over the places where it can stand: a step is what the
-- code does under the mutex up to the next wait or to the return. A thread that waits may run at
-- any time: it reads `condition` again, as after any wake-up, and goes on waiting or goes on.
pub mod Memory
pub mod Queue
pub mod Chain
pub mod Refine
pub mod Remove
pub mod Peek
pub mod Insert
pub mod Free
pub mod System
mod Tests
use osc_final_lab.Common.{
  ℕ, zero, suc, Bool, true, false, ◌&&◌, not, Option, none, some, ◌==◌, if◌then◌else◌, Cmd, pure,
  stop, ◌>>=◌, ◌>>◌,
}
use osc_final_lab.Config.{SensorData}
use osc_final_lab.Sbuffer.Memory.{
  Ptr, null, SbufferNode, Sbuffer, Mem, load_node, load_buffer, store_node, store_buffer, free_node,
  free_buffer, get_condition, set_condition,
}

-- `SBUFFER_FAILURE`, `SBUFFER_SUCCESS` with the data that is copied out, `SBUFFER_NO_DATA`
pub data Status (V : Type 0) : Type 0 where
  failure : Status V
  success : SensorData V → Status V
  no_data : Status V

-- Where a call of `sbuffer_remove` or `sbuffer_peek` stands.
pub data Stand (V : Type 0) : Type 0 where
  start : Stand V
  -- in `while (condition == 0)`, the buffer was empty
  wait_filled : Stand V
  -- in the second wait: for a processed head in `sbuffer_remove`, an unprocessed one in `sbuffer_peek`
  wait_turn : Stand V
  -- past the unlock, before the write of `condition` and the return of `SBUFFER_NO_DATA`
  ending : (next_condition : ℕ) → Stand V
  returned : Status V → Stand V

module _ {V : Type 0} where
  -- `sbuffer_init`; `fresh` is what `malloc` returns. The result is the status and `*buffer`.
  pub sbuffer_init : (fresh : Ptr) → Cmd (Mem V) (Bool × Ptr)
  sbuffer_init fresh =
      if fresh == null
      then pure (false, null)
      else do store_buffer fresh (record { head = null; tail = null }); pure (true, fresh)

  -- The `while` of `sbuffer_free`; with no fuel left it faults.
  pub free_nodes : (fuel : ℕ) → Ptr → Cmd (Mem V) (Unit {0})
  free_nodes zero buffer = stop
  free_nodes (suc fuel) buffer = do
    b ← load_buffer buffer
    if b.head == null then pure tt else do
      n ← load_node b.head
      store_buffer buffer (record b { head = n.next })
      free_node b.head
      free_nodes fuel buffer

  -- `sbuffer_free` of a `*buffer`; the result is the status and what `*buffer` becomes
  pub sbuffer_free : (fuel : ℕ) → Ptr → Cmd (Mem V) (Bool × Ptr)
  unfolding free_nodes
  sbuffer_free fuel buffer =
      if buffer == null
      then pure (false, null)
      else do free_nodes fuel buffer; free_buffer buffer; pure (true, null)

  -- `sbuffer_remove` from the second end-of-stream test on
  pub remove_take : Ptr → Cmd (Mem V) (Stand V)
  remove_take buffer = do
    b ← load_buffer buffer
    h ← load_node b.head
    if h.content.id == 0 then pure (ending 2) else do
      (if b.head == b.tail
          then store_buffer buffer (record { head = null; tail = null })
          else store_buffer buffer (record b { head = h.next }))
      free_node b.head
      pure (returned (success h.content))

  -- `sbuffer_remove` from the first end-of-stream test on
  pub remove_check : Ptr → Cmd (Mem V) (Stand V)
  remove_check buffer = do
    b ← load_buffer buffer
    h ← load_node b.head
    if h.content.id == 0 && not h.is_processed
        then pure (ending 1)
        else if h.is_processed
        then remove_take buffer
        else (do set_condition 1; pure wait_turn)

  -- one step of `sbuffer_remove`
  pub sbuffer_remove : Ptr → Stand V → Cmd (Mem V) (Stand V)
  sbuffer_remove buffer start = if buffer == null then pure (returned failure) else do
    b ← load_buffer buffer
    if b.head == null then (do set_condition 0; pure wait_filled) else remove_check buffer
  sbuffer_remove buffer wait_filled = do
    c ← get_condition
    if c == 0 then pure wait_filled else remove_check buffer
  sbuffer_remove buffer wait_turn = do
    c ← get_condition
    if c == 1 then pure wait_turn else remove_take buffer
  sbuffer_remove buffer (ending c) = do set_condition c; pure (returned no_data)
  sbuffer_remove buffer (returned r) = pure (returned r)

  -- `sbuffer_peek` from the second end-of-stream test on
  pub peek_take : Ptr → Cmd (Mem V) (Stand V)
  peek_take buffer = do
    b ← load_buffer buffer
    h ← load_node b.head
    if h.content.id == 0 then pure (ending 2) else do
      store_node b.head (record h { is_processed = true })
      set_condition 2
      pure (returned (success h.content))

  -- `sbuffer_peek` from the first end-of-stream test on
  pub peek_check : Ptr → Cmd (Mem V) (Stand V)
  peek_check buffer = do
    b ← load_buffer buffer
    h ← load_node b.head
    if h.content.id == 0
        then pure (ending 2)
        else if h.is_processed
        then (do set_condition 2; pure wait_turn)
        else peek_take buffer

  -- one step of `sbuffer_peek`
  pub sbuffer_peek : Ptr → Stand V → Cmd (Mem V) (Stand V)
  sbuffer_peek buffer start = if buffer == null then pure (returned failure) else do
    b ← load_buffer buffer
    if b.head == null then (do set_condition 0; pure wait_filled) else peek_check buffer
  sbuffer_peek buffer wait_filled = do
    c ← get_condition
    if c == 0 then pure wait_filled else peek_check buffer
  sbuffer_peek buffer wait_turn = do
    c ← get_condition
    if c == 2 then pure wait_turn else peek_take buffer
  sbuffer_peek buffer (ending c) = do set_condition c; pure (returned no_data)
  sbuffer_peek buffer (returned r) = pure (returned r)

  -- `sbuffer_insert`, with `fresh` from `malloc`
  pub sbuffer_insert : (fresh : Ptr) → Ptr → SensorData V → Cmd (Mem V) Bool
  sbuffer_insert fresh buffer x =
      if buffer == null then pure false else if fresh == null then pure false else do
        store_node fresh (record { next = null; is_processed = false; content = x })
        b ← load_buffer buffer
        (if b.tail == null
            then (do store_buffer buffer (record { head = fresh; tail = fresh }); set_condition 1)
            else (do
              last ← load_node b.tail
              store_node b.tail (record last { next = fresh })
              store_buffer buffer (record b { tail = fresh })))
        pure true
