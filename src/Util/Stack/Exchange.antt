-- ===== src/Util/Stack/Exchange.antt =====
-- __stack_swap and __stack_rot of src/util/stack.c take steps of the specification.
use ce.Base.{
  ℕ, zero, suc, ◌+◌, ◌-◌, ◌^◌, ◌<◌, ◌≡◌, u64, refl, Bool, false, ltb, ◌==◌, none, List, ◌∷◌, arith,
}
use ce.Cpu.Memory.{update}
use ce.Util.Stack.{Stack, Platform, stack_swap, stack_rot}
use ce.Util.Stack.Table.{ArrayOk, items, top_first, top_first-update}
use ce.Util.Stack.Spec.{
  Call, swap, rot, Step, swapped, not_swapped, rotated, not_rotated, call_stack,
}
use ce.Util.Stack.Takes.{Takes, stack_of}

swapped_table {ℓ} :
    {A : Type ℓ} (t : ℕ → A) (n : ℕ)
    → top_first (update (update t (suc n) (t n)) n (t (suc n))) (suc (suc n))
      ≡ t n ∷ t (suc n) ∷ top_first t n
unfolding update
swapped_table t n =
    let t' = update t (suc n) (t n) in
    let a = top_first-update t' n n (t (suc n)) (omega arith) in
    let b = top_first-update t n (suc n) (t n) (omega arith) in ground arith

-- The result of a call whose value is known.
by_result {ℓ} :
    {A : Type ℓ} (q : List A) (k : Call A) (d d' : Bool × Stack A)
    → d ≡ d'
    → Takes false q k (d'.0, none, d'.1)
    → Takes false q k (d.0, none, d.1)
by_result q k d d' e h = rw e h

swap-run {ℓ} :
    {A : Type ℓ} (n size m : ℕ) (b : Bool) (t : ℕ → A)
    → suc (suc n) < 2 ^ 63
    → stack_swap (stack_of (suc (suc n)) size m b t)
      ≡ (false, stack_of (suc (suc n)) size m b (update (update t (suc n) (t n)) n (t (suc n))))
unfolding stack_swap
swap-run n size m b t h =
    let top : u64 (suc (suc n) + 2 ^ 64 - 1) ≡ suc n = omega arith in
    let second : u64 (suc (suc n) + 2 ^ 64 - 2) ≡ n = omega arith in
    let z : ltb (suc (suc n)) 2 ≡ false = ground arith in rw (z, top, second) refl

pub swap-Takes {ℓ} :
    {A : Type ℓ} (c : Platform A) (s : Stack A)
    → ArrayOk s
    → Takes false (items s) swap (call_stack c s swap)
unfolding call_stack stack_swap
swap-Takes {A = A} c s v =
    go s.number_of_items_in_table s.array_size s.min_array_size s.allow_shrink s.table v
  where
    go :
        (n size m : ℕ) (b : Bool) (t : ℕ → A)
        → ArrayOk (stack_of n size m b t)
        → Takes false
            (top_first t n)
            swap
            (let (e, r) = stack_swap (stack_of n size m b t) in (e, none, r))
    go zero size m b t v = (v, not_swapped _ (omega arith))
    go (suc zero) size m b t v = (v, not_swapped _ (omega arith))
    go (suc (suc n)) size m b t v =
        let q = top_first t (suc (suc n)) in
        let st : Step false q swap (false, none)
            (top_first (update (update t (suc n) (t n)) n (t (suc n))) (suc (suc n))) =
          rw (swapped_table t n) (swapped (t (suc n)) (t n) (top_first t n)) in
        by_result q swap (stack_swap (stack_of (suc (suc n)) size m b t)) _
          (swap-run n size m b t (omega (arith, v.in_array, v.size_fits))) (ground (arith, v), st)

rotated_table {ℓ} :
    {A : Type ℓ} (t : ℕ → A) (n : ℕ)
    → let t1 = update t (suc (suc n)) (t n) in
      let t2 = update t1 n (t1 (suc n)) in
      top_first (update t2 (suc n) (t (suc (suc n)))) (suc (suc (suc n)))
      ≡ t n ∷ t (suc (suc n)) ∷ t (suc n) ∷ top_first t n
unfolding update
rotated_table t n =
    let t1 = update t (suc (suc n)) (t n) in
    let t2 = update t1 n (t1 (suc n)) in
    let a = top_first-update t2 n (suc n) (t (suc (suc n))) (omega arith) in
    let b = top_first-update t1 n n (t1 (suc n)) (omega arith) in
    let c = top_first-update t n (suc (suc n)) (t n) (omega arith) in ground arith

rot-run {ℓ} :
    {A : Type ℓ} (n size m : ℕ) (b : Bool) (t : ℕ → A)
    → suc (suc (suc n)) < 2 ^ 63
    → let t1 = update t (suc (suc n)) (t n) in
      let t2 = update t1 n (t1 (suc n)) in
      stack_rot (stack_of (suc (suc (suc n))) size m b t)
      ≡ (false, stack_of (suc (suc (suc n))) size m b (update t2 (suc n) (t (suc (suc n)))))
unfolding stack_rot
rot-run n size m b t h =
    let top : u64 (suc (suc (suc n)) + 2 ^ 64 - 1) ≡ suc (suc n) = omega arith in
    let second : u64 (suc (suc (suc n)) + 2 ^ 64 - 2) ≡ suc n = omega arith in
    let third : u64 (suc (suc (suc n)) + 2 ^ 64 - 3) ≡ n = omega arith in
    let z : ltb (suc (suc (suc n))) 2 ≡ false = ground arith in rw (z, top, second, third) refl

pub rot-Takes {ℓ} :
    {A : Type ℓ} (c : Platform A) (s : Stack A)
    → ArrayOk s
    → (s.number_of_items_in_table == 2) ≡ false
    → Takes false (items s) rot (call_stack c s rot)
unfolding call_stack stack_rot
rot-Takes {A = A} c s v e =
    go s.number_of_items_in_table s.array_size s.min_array_size s.allow_shrink s.table v e
  where
    go :
        (n size m : ℕ) (b : Bool) (t : ℕ → A)
        → ArrayOk (stack_of n size m b t)
        → (n == 2) ≡ false
        → Takes false
            (top_first t n)
            rot
            (let (e, r) = stack_rot (stack_of n size m b t) in (e, none, r))
    go zero size m b t v e = (v, not_rotated _ (omega arith))
    go (suc zero) size m b t v e = (v, not_rotated _ (omega arith))
    go (suc (suc zero)) size m b t v e = absurd (ground (arith, e))
    go (suc (suc (suc n))) size m b t v e =
        let q = top_first t (suc (suc (suc n))) in
        let t1 = update t (suc (suc n)) (t n) in
        let t2 = update t1 n (t1 (suc n)) in
        let st : Step false q rot (false, none)
            (top_first (update t2 (suc n) (t (suc (suc n)))) (suc (suc (suc n)))) =
          rw (rotated_table t n) (rotated (t (suc (suc n))) (t (suc n)) (t n) (top_first t n)) in
        by_result q rot (stack_rot (stack_of (suc (suc (suc n))) size m b t)) _
          (rot-run n size m b t (omega (arith, v.in_array, v.size_fits))) (ground (arith, v), st)
