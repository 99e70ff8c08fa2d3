-- ===== src/Util/Stack.antt =====
-- src/util/stack.c: a stack in an array that grows and shrinks. Pointers are not NULL, and sizes
-- count elements, so that `element_size` is left out; a function that returns true has failed.
pub mod Spec
pub mod Table
pub mod Resize
pub mod Takes
pub mod Exchange
pub mod Refine
use ce.Base.{
  ℕ, ◌+◌, ◌-◌, ◌*◌, ◌/◌, ◌%◌, ◌^◌, ◌<◌, ◌≤◌, ◌≡◌, u64, Bool, true, false, ◌||◌, ◌&&◌, not, ltb, leb,
  ◌==◌, if◌then◌else◌, Option, none, some,
}
use ce.Cpu.Memory.{update}

-- `_stack_t` less its field `current_load_factor`, which nothing reads.
pub record Stack {ℓ} (A : Type ℓ) : Type ℓ where
  pub number_of_items_in_table : ℕ
  pub array_size : ℕ
  pub min_array_size : ℕ
  pub allow_shrink : Bool
  pub table : ℕ → A

-- The C implementation: `realloc` to a size, and the tests on the float quotient of two sizes,
-- below 0.8 and above 0.4.
pub record Platform {ℓ} (A : Type ℓ) : Type ℓ where
  pub realloc : ℕ → ℕ → (ℕ → A) → Option (ℕ → A)
  pub below : ℕ → ℕ → Bool
  pub above : ℕ → ℕ → Bool

-- `_stack_get_load_factor` compared with the two limits.
abbrev pub load_below {ℓ} : {A : Type ℓ} → Platform A → Stack A → Bool
load_below c s = c.below s.number_of_items_in_table s.array_size

abbrev pub load_above {ℓ} : {A : Type ℓ} → Platform A → Stack A → Bool
load_above c s = c.above s.number_of_items_in_table s.array_size

-- The stack with the array that `realloc` gave, or as it was.
abbrev pub resized {ℓ} : {A : Type ℓ} → Option (ℕ → A) → ℕ → Stack A → Bool × Stack A
resized none size s = (true, s)
resized (some t) size s = (false, record s { table = t; array_size = size })

unfoldable pub stack_double {ℓ} : {A : Type ℓ} → Platform A → Stack A → Bool × Stack A
stack_double c s =
    if load_below c s
    then (false, s)
    else (let size = u64 (s.array_size * 2) in resized (c.realloc s.array_size size s.table) size s)

unfoldable pub stack_half {ℓ} : {A : Type ℓ} → Platform A → Stack A → Bool × Stack A
stack_half c s =
    if not s.allow_shrink || ltb s.array_size (u64 (2 * s.min_array_size)) || load_above c s
    then (false, s)
    else (let size = s.array_size / 2 in resized (c.realloc s.array_size size s.table) size s)

-- The arrays that the two calls of `malloc` give; the first for the struct itself.
unfoldable pub stack_init {ℓ} : {A : Type ℓ} → Bool → Option (ℕ → A) → ℕ → Bool → Option (Stack A)
stack_init false given size shrink = none
stack_init true none size shrink = none
stack_init true (some t) size shrink = some record {
  number_of_items_in_table = 0;
  array_size = size;
  min_array_size = size;
  allow_shrink = shrink;
  table = t;
}

unfoldable pub stack_clear {ℓ} : {A : Type ℓ} → Platform A → Stack A → Bool × Stack A
stack_clear c s =
    let (e, r) = resized (c.realloc s.array_size s.min_array_size s.table) s.min_array_size s in
    (e, if e then r else record r { number_of_items_in_table = 0 })

unfoldable pub stack_is_empty {ℓ} : {A : Type ℓ} → Stack A → Bool
stack_is_empty s = s.number_of_items_in_table == 0

unfoldable pub stack_get_num_elements {ℓ} : {A : Type ℓ} → Stack A → ℕ
stack_get_num_elements s = s.number_of_items_in_table

-- `number_of_items_in_table - k`, a `size_t`, and the element there.
abbrev pub from_top {ℓ} : {A : Type ℓ} → Stack A → ℕ → ℕ
from_top s k = u64 (s.number_of_items_in_table + 2 ^ 64 - k)

abbrev pub element_at {ℓ} : {A : Type ℓ} → Stack A → ℕ → A
element_at s k = s.table (from_top s k)

abbrev pub put_at {ℓ} : {A : Type ℓ} → ℕ → A → Stack A → Stack A
put_at k x s = record s { table = update s.table (from_top s k) x }

-- The option is what is written to `*element`.
unfoldable pub stack_peek {ℓ} : {A : Type ℓ} → Stack A → Bool × Option A
unfolding stack_is_empty
stack_peek s = if stack_is_empty s then (true, none) else (false, some (element_at s 1))

unfoldable pub stack_peeki {ℓ} : {A : Type ℓ} → Stack A → ℕ → Bool × Option A
unfolding stack_is_empty
stack_peeki s index =
    if stack_is_empty s || not (index == 0) && ltb (from_top s 1) index
    then (true, none)
    else (false, some (s.table (u64 (s.number_of_items_in_table + 2 ^ 64 - 1 + 2 ^ 64 - index))))

unfoldable pub stack_drop {ℓ} : {A : Type ℓ} → Platform A → Stack A → Bool × Stack A
unfolding stack_is_empty stack_half
stack_drop c s =
    if stack_is_empty s
    then (true, s)
    else stack_half c (record s { number_of_items_in_table = s.number_of_items_in_table - 1 })

unfoldable pub stack_pop {ℓ} : {A : Type ℓ} → Platform A → Stack A → Bool × Option A × Stack A
unfolding stack_is_empty stack_half
stack_pop c s =
    if stack_is_empty s
    then (true, none, s)
    else (let (e, r) =
          stack_half c (record s { number_of_items_in_table = s.number_of_items_in_table - 1 }) in
        (e, some (element_at s 1), r))

unfoldable pub stack_push {ℓ} : {A : Type ℓ} → Platform A → Stack A → A → Bool × Stack A
unfolding stack_double
stack_push c s x =
    let (e, r) =
      stack_double c (record s { number_of_items_in_table = s.number_of_items_in_table + 1 }) in
    if e
    then (true, record r { number_of_items_in_table = r.number_of_items_in_table - 1 })
    else (false, put_at 1 x r)

-- `noise` is what the local `element` holds if nothing is written to it.
unfoldable pub stack_dup {ℓ} : {A : Type ℓ} → Platform A → A → Stack A → Bool × Stack A
unfolding stack_peek stack_push
stack_dup c noise s =
    let (e, x) = stack_peek s in
    if not e then (true, s) else stack_push c s (elim x [ none ↦ noise | some y ↦ y ])

unfoldable pub stack_swap {ℓ} : {A : Type ℓ} → Stack A → Bool × Stack A
stack_swap s =
    if ltb s.number_of_items_in_table 2
    then (true, s)
    else (let top = element_at s 1 in
        let s1 = put_at 1 (element_at s 2) s in (false, put_at 2 top s1))

unfoldable pub stack_rot {ℓ} : {A : Type ℓ} → Stack A → Bool × Stack A
stack_rot s =
    if ltb s.number_of_items_in_table 2
    then (true, s)
    else (let top = element_at s 1 in
        let s1 = put_at 1 (element_at s 3) s in
        let s2 = put_at 3 (element_at s1 2) s1 in (false, put_at 2 top s2))
