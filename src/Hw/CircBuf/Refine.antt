-- ===== src/Hw/CircBuf/Refine.antt =====
-- A valid circular buffer behaves as the queue of the bytes that it holds.
use ce.Base.{
  ℕ, zero, suc, ◌+◌, ◌-◌, ◌%◌, ◌≤◌, ◌<◌, ◌≡◌, ◌≢◌, refl, u8, List, [], ◌∷◌, ◌++◌, length, arith,
}
use ce.Cpu.Memory.{update}
use ce.Hw.CircBuf.{CircBuf, circ_buf_push, circ_buf_pop, init_circ_buf}
use ce.Hw.CircBuf.Queue.{enqueue, dequeue, Op, push, pop, run_queue, run_circ_buf}

pub record CircBufOk (b : CircBuf) : Type 0 where
  pub read_in : b.read < 64
  pub count_in : b.count ≤ 64
  pub write_at : b.write ≡ (b.read + b.count) % 64

-- The `n` bytes from index `h` on, going round at the end.
abbrev pub window : (ℕ → ℕ) → ℕ → ℕ → List ℕ
window f h zero = []
window f h (suc n) = f h ∷ window f ((h + 1) % 64) n

abbrev pub contents : CircBuf → List ℕ
contents b = window b.bytes b.read b.count

length-window : (f : ℕ → ℕ) (h n : ℕ) → length (window f h n) ≡ n
length-window f h zero = refl
length-window f h (suc n) = omega (arith, length-window f ((h + 1) % 64) n)

pub length-contents : (b : CircBuf) → length (contents b) ≡ b.count
length-contents b = length-window b.bytes b.read b.count

-- A write behind a window extends it.
window-update :
    (f : ℕ → ℕ) (h n i v : ℕ)
    → h < 64
    → n < 64
    → i ≡ (h + n) % 64
    → window (update f i v) h (suc n) ≡ window f h n ++ v ∷ []
unfolding update
window-update f h zero i v a b e = ground arith
window-update f h (suc n) i v a b e =
    ground (arith, window-update f ((h + 1) % 64) n i v (omega arith) (omega arith) (omega arith))

pub circ_buf_push-CircBufOk : (b : CircBuf) (c : ℕ) → CircBufOk b → CircBufOk (circ_buf_push b c).1
unfolding circ_buf_push
circ_buf_push-CircBufOk b c v = ground arith

pub circ_buf_pop-CircBufOk : (b : CircBuf) → CircBufOk b → CircBufOk (circ_buf_pop b).2
unfolding circ_buf_pop
circ_buf_pop-CircBufOk b v = ground arith

pub init_circ_buf-CircBufOk : (b : CircBuf) → CircBufOk (init_circ_buf b)
unfolding init_circ_buf
init_circ_buf-CircBufOk b = ground arith

-- A push returns the status of `enqueue` and leaves the buffer holding its queue.
pub push_refines :
    (b : CircBuf) (c : ℕ)
    → CircBufOk b
    → let r = circ_buf_push b c in
      let q = enqueue (contents b) c in (r.0 ≡ q.0) × (contents r.1 ≡ q.1)
unfolding circ_buf_push enqueue
push_refines b c v =
    ground
      (arith, length-contents b, window-update b.bytes b.read b.count b.write (u8 c) (omega arith))

window-ne_zero :
    (f : ℕ → ℕ) (h n : ℕ) → n ≢ 0 → window f h n ≡ f h ∷ window f ((h + 1) % 64) (n - 1)
window-ne_zero f h zero ne = absurd (ne refl)
window-ne_zero f h (suc n) ne = ground arith

-- A pop returns the status and the byte of `dequeue` and leaves the buffer holding the rest.
pub pop_refines :
    (b : CircBuf)
    → CircBufOk b
    → let r = circ_buf_pop b in
      let q = dequeue (contents b) in (r.0 ≡ q.0) × (r.1 ≡ q.1) × (contents r.2 ≡ q.2)
unfolding circ_buf_pop dequeue
pop_refines b v = ground (arith, window-ne_zero b.bytes b.read b.count)

-- No sequence of pushes and pops tells a valid circular buffer from the queue of its contents: each
-- call fails exactly when the queue's does, and each pop gives the same byte.
pub run_refines :
    (ops : List Op) (b : CircBuf) → CircBufOk b → run_circ_buf b ops ≡ run_queue (contents b) ops
unfolding run_circ_buf run_queue
run_refines [] b v = refl
run_refines (push c ∷ ops) b v = rw (
  run_refines ops (circ_buf_push b c).1 (circ_buf_push-CircBufOk b c v),
  (push_refines b c v).0,
  (push_refines b c v).1,
)
run_refines (pop ∷ ops) b v =
    let p = pop_refines b v in
    rw (run_refines ops (circ_buf_pop b).2 (circ_buf_pop-CircBufOk b v), p.0, p.1, p.2)

window-head : (f : ℕ → ℕ) (h n c : ℕ) (q : List ℕ) → window f h n ≡ c ∷ q → (f h ≡ c) × (n ≢ 0)
window-head f h zero c q e = ground arith
window-head f h (suc n) c q e = ground arith

pub contents-head :
    (b : CircBuf) (c : ℕ) (q : List ℕ) → contents b ≡ c ∷ q → (b.bytes b.read ≡ c) × (b.count ≢ 0)
contents-head b c q e = window-head b.bytes b.read b.count c q e
