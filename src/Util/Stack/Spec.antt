-- ===== src/Util/Stack/Spec.antt =====
-- What a stack of src/util/stack.c promises: the calls as steps on a list, whose first element is
-- the top.
use ce.Base.{
  ◌+◌, ◌-◌, ◌*◌, ◌/◌, ◌<◌, u64, Bool, true, false, ◌&&◌, not, ltb, ◌==◌, Option, none, some, List,
  [], ◌∷◌, length,
}
use ce.Util.Stack.{
  Stack, Platform, load_below, load_above, stack_push, stack_pop, stack_drop, stack_swap, stack_rot,
  stack_peek, stack_dup, stack_clear,
}

-- A dup has the value that its local holds if nothing is written to it.
pub data Call {ℓ} (A : Type ℓ) : Type ℓ where
  push : A → Call A
  pop : Call A
  drop : Call A
  swap : Call A
  rot : Call A
  peek : Call A
  dup : A → Call A
  clear : Call A

-- The status and the element that the call writes, if any. The first index tells whether memory was
-- refused: then nothing is pushed or cleared, while a pop or a drop has removed its element all the
-- same. A dup of an element is never made, and on no elements it pushes.
pub data Step {ℓ} {A : Type ℓ} : Bool → List A → Call A → Bool × Option A → List A → Type ℓ where
  pushed : (x : A) (q : List A) → Step false q (push x) (false, none) (x ∷ q)
  not_pushed : (x : A) (q : List A) → Step true q (push x) (true, none) q
  popped : (e : Bool) (x : A) (q : List A) → Step e (x ∷ q) pop (e, some x) q
  not_popped : Step false [] pop (true, none) []
  dropped : (e : Bool) (x : A) (q : List A) → Step e (x ∷ q) drop (e, none) q
  not_dropped : Step false [] drop (true, none) []
  swapped : (x y : A) (q : List A) → Step false (x ∷ y ∷ q) swap (false, none) (y ∷ x ∷ q)
  not_swapped : (q : List A) → length q < 2 → Step false q swap (true, none) q
  rotated : (x y z : A) (q : List A) → Step false (x ∷ y ∷ z ∷ q) rot (false, none) (z ∷ x ∷ y ∷ q)
  not_rotated : (q : List A) → length q < 2 → Step false q rot (true, none) q
  peeked : (x : A) (q : List A) → Step false (x ∷ q) peek (false, some x) (x ∷ q)
  not_peeked : Step false [] peek (true, none) []
  dup_pushed : (x : A) → Step false [] (dup x) (false, none) (x ∷ [])
  dup_not_pushed : (x : A) → Step true [] (dup x) (true, none) []
  not_duped : (x y : A) (q : List A) → Step false (y ∷ q) (dup x) (true, none) (y ∷ q)
  cleared : (q : List A) → Step false q clear (false, none) []
  not_cleared : (q : List A) → Step true q clear (true, none) q

-- The call of the implementation.
unfoldable pub call_stack {ℓ} :
    {A : Type ℓ} → Platform A → Stack A → Call A → Bool × Option A × Stack A
call_stack c s (push x) = let (e, r) = stack_push c s x in (e, none, r)
call_stack c s pop = stack_pop c s
call_stack c s drop = let (e, r) = stack_drop c s in (e, none, r)
call_stack c s swap = let (e, r) = stack_swap s in (e, none, r)
call_stack c s rot = let (e, r) = stack_rot s in (e, none, r)
call_stack c s peek = let (e, x) = stack_peek s in (e, x, s)
call_stack c s (dup x) = let (e, r) = stack_dup c x s in (e, none, r)
call_stack c s clear = let (e, r) = stack_clear c s in (e, none, r)

abbrev pub is_none {ℓ} : {A : Type ℓ} → Option A → Bool
is_none none = true
is_none (some x) = false

abbrev pub one_more {ℓ} : {A : Type ℓ} → Stack A → Stack A
one_more s = record s { number_of_items_in_table = s.number_of_items_in_table + 1 }

abbrev pub one_less {ℓ} : {A : Type ℓ} → Stack A → Stack A
one_less s = record s { number_of_items_in_table = s.number_of_items_in_table - 1 }

-- The array is too full for the elements, and the one of twice the size is not given.
abbrev pub not_doubled {ℓ} : {A : Type ℓ} → Platform A → Stack A → Bool
not_doubled c s =
    not (load_below c s) && is_none (c.realloc s.array_size (u64 (s.array_size * 2)) s.table)

-- The array may shrink and has few elements, and the one of half the size is not given.
abbrev pub not_halved {ℓ} : {A : Type ℓ} → Platform A → Stack A → Bool
not_halved c s =
    s.allow_shrink
    && not (ltb s.array_size (u64 (2 * s.min_array_size)))
    && not (load_above c s)
    && is_none (c.realloc s.array_size (s.array_size / 2) s.table)

-- Whether the call asks for memory that it is not given.
abbrev pub refused {ℓ} : {A : Type ℓ} → Platform A → Stack A → Call A → Bool
refused c s (push x) = not_doubled c (one_more s)
refused c s pop = not (s.number_of_items_in_table == 0) && not_halved c (one_less s)
refused c s drop = not (s.number_of_items_in_table == 0) && not_halved c (one_less s)
refused c s (dup x) = s.number_of_items_in_table == 0 && not_doubled c (one_more s)
refused c s clear = is_none (c.realloc s.array_size s.min_array_size s.table)
refused c s _ = false

-- A rot of two elements reads and writes outside of the array.
abbrev pub stays_inside {ℓ} : {A : Type ℓ} → Stack A → Call A → Bool
stays_inside s rot = not (s.number_of_items_in_table == 2)
stays_inside s _ = true
