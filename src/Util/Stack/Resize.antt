-- ===== src/Util/Stack/Resize.antt =====
-- The calls of src/util/stack.c that may grow or shrink the array of a stack.
use ce.Base.{
  ℕ, ◌+◌, ◌*◌, ◌/◌, ◌<◌, ◌≤◌, ◌≡◌, u64, refl, Bool, true, false, Bool-cases, Option, none, some,
  ◌⊎◌, inl, inr, ltb, not, ◌||◌, ◌&&◌, if◌then◌else◌, arith,
}
use ce.Util.Stack.{Stack, Platform, load_below, load_above, resized, stack_double, stack_half}
use ce.Util.Stack.Spec.{is_none, one_more, not_doubled, not_halved}
use ce.Util.Stack.Table.{
  PlatformOk, ArrayOk, items, top_first, Resized, failed, done, resized-Resized,
}

-- A call that resizes the array fails if it asks for memory that it is not given.
resized-status {ℓ} :
    {A : Type ℓ} (o : Option (ℕ → A)) (size : ℕ) (s : Stack A) → (resized o size s).0 ≡ is_none o
resized-status none size s = refl
resized-status (some t) size s = refl

pub stack_double-status {ℓ} :
    {A : Type ℓ} (c : Platform A) (s : Stack A) → (stack_double c s).0 ≡ not_doubled c s
unfolding stack_double
stack_double-status c s = elim (Bool-cases (load_below c s)) [
  | inl e ↦ simp e refl
  | inr e ↦ simp e (resized-status _ _ _)
]

pub stack_half-status {ℓ} :
    {A : Type ℓ} (c : Platform A) (s : Stack A) → (stack_half c s).0 ≡ not_halved c s
unfolding stack_half
stack_half-status c s =
    go s.allow_shrink (ltb s.array_size (u64 (2 * s.min_array_size))) (load_above c s)
      (c.realloc s.array_size (s.array_size / 2) s.table)
  where
    go :
        (b1 b2 b3 : Bool) (o : Option (ℕ → _))
        → (if not b1 || b2 || b3 then (false, s) else resized o (s.array_size / 2) s).0
          ≡ (b1 && not b2 && not b3 && is_none o)
    go false b2 b3 o = refl
    go true true b3 o = refl
    go true false true o = refl
    go true false false o = resized-status o (s.array_size / 2) s

-- A call that may grow the array makes room for one element more, or fails and changes nothing.
abbrev pub Room {ℓ} : {A : Type ℓ} → Stack A → Bool × Stack A → Type ℓ
Room s d =
    (d ≡ (true, one_more s))
    ⊎ ((d.0 ≡ false)
        × ArrayOk d.1
        × (d.1.number_of_items_in_table ≡ s.number_of_items_in_table + 1)
        × (top_first d.1.table s.number_of_items_in_table ≡ items s))

pub stack_double-Room {ℓ} :
    {A : Type ℓ} (c : Platform A) (s : Stack A)
    → PlatformOk c
    → ArrayOk s
    → Room s (stack_double c (one_more s))
unfolding stack_double
stack_double-Room c s ok v =
    let size = u64 (s.array_size * 2) in
    go (load_below c (one_more s)) (ok.below_free _ _)
      (resized (c.realloc s.array_size size s.table) size (one_more s))
      (resized-Resized c (one_more s) size ok)
  where
    go :
        (b : Bool)
        → (b ≡ true → s.number_of_items_in_table + 1 < s.array_size)
        → (d : Bool × Stack _) → Resized (one_more s) (u64 (s.array_size * 2)) d
        → Room s (if b then (false, one_more s) else d)
    go true f d h = let g = f refl in inr (refl, ground arith, refl, refl)
    go false f d (failed e) = inl e
    go false f d (done t e l k) =
        let a = k s.number_of_items_in_table (omega arith) (omega arith) in
        rw e (inr (refl, ground arith, refl, a))

-- A call that may shrink the array keeps what is left in it.
abbrev pub Kept {ℓ} : {A : Type ℓ} → Stack A → Bool × Stack A → Type ℓ
Kept r d =
    ArrayOk d.1
    × (d.1.number_of_items_in_table ≡ r.number_of_items_in_table)
    × (items d.1 ≡ items r)

pub stack_half-Kept {ℓ} :
    {A : Type ℓ} (c : Platform A) (r : Stack A) → PlatformOk c → ArrayOk r → Kept r (stack_half c r)
unfolding stack_half
stack_half-Kept c r ok v =
    let size = r.array_size / 2 in
    go (not r.allow_shrink) (ltb r.array_size (u64 (2 * r.min_array_size))) (load_above c r)
      (λ e. omega (arith, v.min_below, v.size_fits, ltb_false _ _ e)) (ok.above_half _ _)
      (resized (c.realloc r.array_size size r.table) size r) (resized-Resized c r size ok)
  where
    ltb_false : (a b : ℕ) → ltb a b ≡ false → b ≤ a
    ltb_false a b e = ground arith

    go :
        (b1 b2 b3 : Bool)
        → (b2 ≡ false → 2 * r.min_array_size ≤ r.array_size)
        → (b3 ≡ false → 2 * r.number_of_items_in_table ≤ r.array_size)
        → (d : Bool × Stack _) → Resized r (r.array_size / 2) d
        → Kept r (if b1 || b2 || b3 then (false, r) else d)
    go true b2 b3 f g d h = (v, refl, refl)
    go false true b3 f g d h = (v, refl, refl)
    go false false true f g d h = (v, refl, refl)
    go false false false f g d (failed e) = rw e (v, refl, refl)
    go false false false f g d (done t e l k) =
        let f' = f refl in
        let g' = g refl in
        let a = k r.number_of_items_in_table (omega arith) (omega arith) in
        rw e (ground arith, refl, a)
