-- ===== src/Util/Stack/Refine.antt =====
-- A valid stack of src/util/stack.c takes the steps of its specification.
use ce.Base.{
  ℕ, zero, suc, ◌+◌, ◌-◌, ◌^◌, ◌<◌, ◌≡◌, u64, Bool, true, false, inl, inr, ◌==◌, if◌then◌else◌,
  List, Option, none, some, [], ◌∷◌, sym, ap, ◌∙◌, arith,
}
use ce.Cpu.Memory.{update}
use ce.Util.Stack.{
  Stack, Platform, put_at, stack_double, stack_half, stack_push, stack_pop, stack_drop,
  stack_is_empty, stack_dup, stack_peek, stack_clear, resized,
}
use ce.Util.Stack.Table.{PlatformOk, ArrayOk, items, top_first, top_first-update}
use ce.Util.Stack.Resize.{
  Room, stack_double-Room, stack_double-status, stack_half-Kept, stack_half-status,
}
use ce.Util.Stack.Spec.{
  Call, push, pop, drop, swap, rot, Step, pushed, not_pushed, popped, not_popped, dropped,
  not_dropped, call_stack, peek, dup, clear, peeked, not_peeked, dup_pushed, dup_not_pushed,
  not_duped, cleared, not_cleared, is_none, one_more, one_less, not_doubled, not_halved, refused,
  stays_inside,
}
use ce.Util.Stack.Takes.{Takes, stack_of}
use ce.Util.Stack.Exchange.{swap-Takes, rot-Takes}

put_on_top {ℓ} :
    {A : Type ℓ} (t : ℕ → A) (n m : ℕ) (x : A)
    → m ≡ n + 1
    → n < 2 ^ 63
    → top_first (update t (u64 (m + 2 ^ 64 - 1)) x) m ≡ x ∷ top_first t n
unfolding update
put_on_top t n m x e h =
    let i : u64 (m + 2 ^ 64 - 1) ≡ n = omega arith in
    rw (i, e) (ground (arith, top_first-update t n n x (omega arith)))

-- The stack that is left when a grown array `d` gets its element.
abbrev placed {ℓ} : {A : Type ℓ} → A → Bool × Stack A → Bool × Stack A
placed x d = if◌then◌else◌ {A = Bool × Stack _} d.0 (true, one_less d.1) (false, put_at 1 x d.1)

-- A push that is refused memory exactly if `m`.
push-Takes {ℓ} :
    {A : Type ℓ} (c : Platform A) (s : Stack A) (x : A)
    → PlatformOk c
    → ArrayOk s
    → Takes (refused c s (push x)) (items s) (push x) (call_stack c s (push x))
unfolding call_stack stack_push update
push-Takes c s x ok v =
    go (not_doubled c (one_more s)) (stack_double c (one_more s))
      (stack_double-status c (one_more s)) (stack_double-Room c s ok v)
  where
    go :
        (m : Bool) (d : Bool × Stack _)
        → d.0 ≡ m
        → Room s d
        → Takes m (items s) (push x) ((placed x d).0, none, (placed x d).1)
    go m d h (inl e) =
        let same : s.number_of_items_in_table + 1 - 1 ≡ s.number_of_items_in_table = omega arith in
        let failed : m ≡ true = sym h ∙ ap (λ (p : Bool × Stack _). p.0) e in
        rw (failed, e, same) (v, not_pushed x (items s))
    go m d h (inr (e, w, n, t)) =
        let p =
          put_on_top d.1.table s.number_of_items_in_table d.1.number_of_items_in_table x n
            (omega (arith, v.in_array, v.size_fits)) in
        let given : m ≡ false = sym h ∙ e in
        rw (given, e, p, t) (ground (arith, w), pushed x (items s))

pop-Takes {ℓ} :
    {A : Type ℓ} (c : Platform A) (s : Stack A)
    → PlatformOk c
    → ArrayOk s
    → Takes (refused c s pop) (items s) pop (call_stack c s pop)
unfolding call_stack stack_pop stack_is_empty
pop-Takes c s ok v =
    go s.number_of_items_in_table s.array_size s.min_array_size s.allow_shrink s.table v
  where
    go :
        (n size m : ℕ) (b : Bool) (t : ℕ → _)
        → ArrayOk (stack_of n size m b t)
        → Takes
            (refused c (stack_of n size m b t) pop)
            (top_first t n)
            pop
            (stack_pop c (stack_of n size m b t))
    go zero size m b t v = (v, not_popped)
    go (suc n) size m b t v =
        let k = stack_half-Kept c (stack_of n size m b t) ok (ground (arith, v)) in
        let i : u64 (suc n + 2 ^ 64 - 1) ≡ n = omega (arith, v.in_array, v.size_fits) in
        let h = stack_half c (stack_of n size m b t) in
        let z : (suc n == 0) ≡ false = ground arith in
        let f = stack_half-status c (stack_of n size m b t) in
        let st : Step (not_halved c (stack_of n size m b t)) (top_first t (suc n)) pop
            (h.0, some (t (u64 (suc n + 2 ^ 64 - 1)))) (items h.1) =
          rw (sym f, i, k.2) (popped h.0 (t n) (top_first t n)) in
        let y : suc n - 1 ≡ n = omega arith in rw (z, y) (k.0, st)

drop-Takes {ℓ} :
    {A : Type ℓ} (c : Platform A) (s : Stack A)
    → PlatformOk c
    → ArrayOk s
    → Takes (refused c s drop) (items s) drop (call_stack c s drop)
unfolding call_stack stack_drop stack_is_empty
drop-Takes c s ok v =
    go s.number_of_items_in_table s.array_size s.min_array_size s.allow_shrink s.table v
  where
    go :
        (n size m : ℕ) (b : Bool) (t : ℕ → _)
        → ArrayOk (stack_of n size m b t)
        → Takes
            (refused c (stack_of n size m b t) drop)
            (top_first t n)
            drop
            (let (e, r) = stack_drop c (stack_of n size m b t) in (e, none, r))
    go zero size m b t v = (v, not_dropped)
    go (suc n) size m b t v =
        let k = stack_half-Kept c (stack_of n size m b t) ok (ground (arith, v)) in
        let h = stack_half c (stack_of n size m b t) in
        let z : (suc n == 0) ≡ false = ground arith in
        let f = stack_half-status c (stack_of n size m b t) in
        let st : Step (not_halved c (stack_of n size m b t)) (top_first t (suc n)) drop (h.0, none)
            (items h.1) =
          rw (sym f, k.2) (dropped h.0 (t n) (top_first t n)) in
        let y : suc n - 1 ≡ n = omega arith in rw (z, y) (k.0, st)

peek-Takes {ℓ} :
    {A : Type ℓ} (c : Platform A) (s : Stack A)
    → ArrayOk s
    → Takes false (items s) peek (call_stack c s peek)
unfolding call_stack stack_peek stack_is_empty
peek-Takes {A = A} c s v =
    go s.number_of_items_in_table s.array_size s.min_array_size s.allow_shrink s.table v
  where
    go :
        (n size m : ℕ) (b : Bool) (t : ℕ → A)
        → ArrayOk (stack_of n size m b t)
        → Takes false
            (top_first t n)
            peek
            (let (e, x) = stack_peek (stack_of n size m b t) in (e, x, stack_of n size m b t))
    go zero size m b t v = (v, not_peeked)
    go (suc n) size m b t v =
        let i : u64 (suc n + 2 ^ 64 - 1) ≡ n = omega (arith, v.in_array, v.size_fits) in
        let z : (suc n == 0) ≡ false = ground arith in rw (z, i) (v, peeked (t n) (top_first t n))

clear-Takes {ℓ} :
    {A : Type ℓ} (c : Platform A) (s : Stack A)
    → PlatformOk c
    → ArrayOk s
    → Takes (refused c s clear) (items s) clear (call_stack c s clear)
unfolding call_stack stack_clear
clear-Takes c s ok v = go (c.realloc s.array_size s.min_array_size s.table)
  where
    go :
        (o : Option (ℕ → _))
        → Takes (is_none o) (items s) clear (
            let d = resized o s.min_array_size s in
            (d.0, none, if d.0 then d.1 else record d.1 { number_of_items_in_table = 0 }))
    go none = (v, not_cleared (items s))
    go (some t) = (ground (arith, v), cleared (items s))

-- A dup fails on a stack with elements and changes nothing; on an empty one it pushes what the
-- uninitialised local holds.
stack_dup_lem {ℓ} :
    {A : Type ℓ} (c : Platform A) (noise : A) (s : Stack A)
    → stack_dup c noise s ≡ (if stack_is_empty s then stack_push c s noise else (true, s))
unfolding stack_dup stack_peek
stack_dup_lem c noise s = ground arith

-- On no elements a dup is a push.
dup_step {ℓ} :
    {A : Type ℓ} {m : Bool} {x : A} {r : Bool × Option A} {q : List A}
    → Step m [] (push x) r q
    → Step m [] (dup x) r q
dup_step (pushed x _) = dup_pushed x
dup_step (not_pushed x _) = dup_not_pushed x

dup-Takes {ℓ} :
    {A : Type ℓ} (c : Platform A) (s : Stack A) (x : A)
    → PlatformOk c
    → ArrayOk s
    → Takes (refused c s (dup x)) (items s) (dup x) (call_stack c s (dup x))
unfolding call_stack stack_is_empty
dup-Takes {A = A} c s x ok v =
    go s.number_of_items_in_table s.array_size s.min_array_size s.allow_shrink s.table v
  where
    go :
        (n size m : ℕ) (b : Bool) (t : ℕ → A)
        → ArrayOk (stack_of n size m b t)
        → Takes
            (refused c (stack_of n size m b t) (dup x))
            (top_first t n)
            (dup x)
            (let (e, r) = stack_dup c x (stack_of n size m b t) in (e, none, r))
    go zero size m b t v =
        let p = push-Takes c (stack_of zero size m b t) x ok v in
        rw (stack_dup_lem c x (stack_of zero size m b t)) (p.0, dup_step p.1)
    go (suc n) size m b t v =
        let z : (suc n == 0) ≡ false = ground arith in
        rw (stack_dup_lem c x (stack_of (suc n) size m b t), z)
          (v, not_duped x (t n) (top_first t n))

-- Every call on a valid stack leaves a valid stack, and with its status and the element it gives it
-- is a step of the specification on the list of the elements: a push and a clear fail exactly if
-- `realloc` refuses the array that they ask for, and so does a pop or a drop that finds an element,
-- which it removes all the same. The call is a push, pop, drop, swap, rot, peek, dup or clear, and
-- not a rot of two elements.
pub call_stack_refines {ℓ} :
    {A : Type ℓ} (c : Platform A) (s : Stack A) (k : Call A)
    → PlatformOk c
    → ArrayOk s
    → stays_inside s k ≡ true
    → let r = call_stack c s k in
      ArrayOk r.2 × Step (refused c s k) (items s) k (r.0, r.1) (items r.2)
call_stack_refines c s (push x) ok v i = push-Takes c s x ok v
call_stack_refines c s pop ok v i = pop-Takes c s ok v
call_stack_refines c s drop ok v i = drop-Takes c s ok v
call_stack_refines c s swap ok v i = swap-Takes c s v
call_stack_refines c s rot ok v i = rot-Takes c s v (ground (arith, i))
call_stack_refines c s peek ok v i = peek-Takes c s v
call_stack_refines c s (dup x) ok v i = dup-Takes c s x ok v
call_stack_refines c s clear ok v i = clear-Takes c s ok v
