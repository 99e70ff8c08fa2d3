-- ===== src/Hw/CircBuf/Queue.antt =====
-- A queue of at most `fifo_len` bytes, oldest first: what the circular buffers of
-- src/hw/16C750.c stand for.
use ce.Base.{
  ℕ, u8, Bool, true, false, ◌==◌, if◌then◌else◌, List, [], ◌∷◌, ◌++◌, length, Option, none, some,
}
use ce.Hw.CircBuf.{fifo_len, CircBuf, circ_buf_push, circ_buf_pop}

unfoldable pub enqueue : List ℕ → ℕ → Bool × List ℕ
enqueue q c = if length q == fifo_len then (true, q) else (false, q ++ u8 c ∷ [])

unfoldable pub dequeue : List ℕ → Bool × Option ℕ × List ℕ
dequeue [] = (true, none, [])
dequeue (c ∷ q) = (false, some c, q)

-- Calls by a client, with what each returns.
pub data Op : Type 0 where
  push : ℕ → Op
  pop : Op

unfoldable pub run_queue : List ℕ → List Op → List (Bool × Option ℕ)
run_queue q [] = []
run_queue q (push c ∷ ops) = let (e, q') = enqueue q c in (e, none) ∷ run_queue q' ops
run_queue q (pop ∷ ops) = let (e, c, q') = dequeue q in (e, c) ∷ run_queue q' ops

unfoldable pub run_circ_buf : CircBuf → List Op → List (Bool × Option ℕ)
run_circ_buf b [] = []
run_circ_buf b (push c ∷ ops) = let (e, b') = circ_buf_push b c in (e, none) ∷ run_circ_buf b' ops
run_circ_buf b (pop ∷ ops) = let (e, c, b') = circ_buf_pop b in (e, c) ∷ run_circ_buf b' ops
