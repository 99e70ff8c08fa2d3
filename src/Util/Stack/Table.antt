-- ===== src/Util/Stack/Table.antt =====
-- The list of the elements of a stack of src/util/stack.c, and how its array is resized.
use ce.Base.{
  ℕ, zero, suc, ◌*◌, ◌^◌, ◌<◌, ◌≤◌, ◌≡◌, refl, Bool, true, false, Option, none, some, List, [], ◌∷◌,
  arith,
}
use ce.Cpu.Memory.{update}
use ce.Util.Stack.{Stack, Platform, resized}

-- What the development relies on: `realloc` keeps the elements that fit in both arrays, and no array
-- is larger than an object may be; a quotient below 0.8 is below 1, and one that is not above
-- 0.4 is at most a half.
pub record PlatformOk {ℓ} {A : Type ℓ} (c : Platform A) : Type ℓ where
  pub keeps :
      (old new : ℕ) (t t' : ℕ → A)
      → c.realloc old new t ≡ some t'
      → (i : ℕ) → i < old
      → i < new
      → t' i ≡ t i
  pub fits : (old new : ℕ) (t t' : ℕ → A) → c.realloc old new t ≡ some t' → new < 2 ^ 63
  pub below_free : (n size : ℕ) → c.below n size ≡ true → n < size
  pub above_half : (n size : ℕ) → c.above n size ≡ false → 2 * n ≤ size

-- The elements are in the array, which is never smaller than at first.
pub record ArrayOk {ℓ} {A : Type ℓ} (s : Stack A) : Type 0 where
  pub in_array : s.number_of_items_in_table ≤ s.array_size
  pub size_fits : s.array_size < 2 ^ 63
  pub min_positive : 1 ≤ s.min_array_size
  pub min_below : s.min_array_size ≤ s.array_size

-- The first `n` elements of an array, the last one first.
abbrev pub top_first {ℓ} : {A : Type ℓ} → (ℕ → A) → ℕ → List A
top_first t zero = []
top_first t (suc n) = t n ∷ top_first t n

abbrev pub items {ℓ} : {A : Type ℓ} → Stack A → List A
items s = top_first s.table s.number_of_items_in_table

pub top_first-update {ℓ} :
    {A : Type ℓ} (t : ℕ → A) (n i : ℕ) (x : A) → n ≤ i → top_first (update t i x) n ≡ top_first t n
unfolding update
top_first-update t zero i x h = refl
top_first-update t (suc n) i x h = ground (arith, top_first-update t n i x (omega arith))

top_first-agree {ℓ} :
    {A : Type ℓ} (t t' : ℕ → A) (n : ℕ)
    → ((i : ℕ) → i < n → t' i ≡ t i)
    → top_first t' n ≡ top_first t n
top_first-agree t t' zero h = refl
top_first-agree t t' (suc n) h =
    ground (arith, h n (omega arith), top_first-agree t t' n (λ i l. h i (omega arith)))

-- A resize fails and changes nothing, or gives an array of the size with the same elements.
pub data Resized {ℓ} {A : Type ℓ} (s : Stack A) (size : ℕ) (d : Bool × Stack A) : Type ℓ where
  failed : d ≡ (true, s) → Resized s size d
  done :
      (t : ℕ → A)
      → d ≡ (false, record s { table = t; array_size = size })
      → size < 2 ^ 63
      → ((m : ℕ) → m ≤ s.array_size → m ≤ size → top_first t m ≡ top_first s.table m)
      → Resized s size d

pub resized-Resized {ℓ} :
    {A : Type ℓ} (c : Platform A) (s : Stack A) (size : ℕ)
    → PlatformOk c
    → Resized s size (resized (c.realloc s.array_size size s.table) size s)
resized-Resized c s size ok = go (c.realloc s.array_size size s.table) refl
  where
    go :
        (o : Option (ℕ → _))
        → c.realloc s.array_size size s.table ≡ o
        → Resized s size (resized o size s)
    go none e = failed refl
    go (some t) e = done t refl (ok.fits s.array_size size s.table t e) (λ m l l'.
        top_first-agree s.table t m
          (λ i h. ok.keeps s.array_size size s.table t e i (omega arith) (omega arith)))
