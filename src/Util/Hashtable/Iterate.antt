-- ===== src/Util/Hashtable/Iterate.antt =====
-- The iterator of src/util/hashtable.c gives every entry of a table once, slot by slot.
use ce.Base.{
  ℕ, zero, suc, ◌+◌, ◌-◌, ◌≤◌, ◌<◌, ◌≡◌, ◌≢◌, ◌⊎◌, inl, inr, true, false, Option, some, List, [],
  ◌∷◌, ◌++◌, length, refl, ap, sym, ◌∙◌, arith,
}
use ce.Util.Hashtable.{
  Entry, Table, Iterator, ht_create_iterator, ht_iterator_has_next, ht_iterator_next, next_within,
}
use ce.Util.Hashtable.Slots.{total, TableOk}

-- The entries in `n` slots from slot `i` on.
abbrev pub slots_from : {A : Type 0} → (ℕ → List (Entry A)) → ℕ → ℕ → List (Entry A)
slots_from f i zero = []
slots_from f i (suc n) = f i ++ slots_from f (i + 1) n

-- The entries that an iterator has still to give.
abbrev pub remaining : {A : Type 0} → Iterator A → List (Entry A)
remaining itr =
    itr.current_node
    ++ slots_from itr.iterator_table (itr.current_table_index + 1)
        (itr.table_size - (itr.current_table_index + 1))

pub record IteratorOk {A : Type 0} (itr : Iterator A) : Type 0 where
  pub in_table : itr.current_table_index < itr.table_size
  pub to_find : itr.found_elements + length (remaining itr) ≡ itr.total_elements

-- The iterator at its end, or one entry further on.
pub data Advanced {A : Type 0} (itr : Iterator A) (o : Option (Entry A × Iterator A)) : Type 0 where
  advanced :
      (e : Entry A) (itr' : Iterator A)
      → o ≡ some (e, itr')
      → remaining itr ≡ e ∷ remaining itr'
      → IteratorOk itr'
      → Advanced itr o

length-ne_nil : {A : Type 0} (xs : List A) → xs ≢ [] → 1 ≤ length xs
length-ne_nil [] ne = absurd (ne refl)
length-ne_nil (x ∷ xs) ne = ground arith

abbrev iterator_of :
    {A : Type 0} → (i f n s : ℕ) → List (Entry A) → (ℕ → List (Entry A)) → Iterator A
iterator_of i f n s c slots = record {
  current_table_index = i;
  found_elements = f;
  total_elements = n;
  table_size = s;
  current_node = c;
  iterator_table = slots;
}

-- At the end of a list the entries of the next slot follow.
next_slot :
    {A : Type 0} (i f n s : ℕ) (slots : ℕ → List (Entry A))
    → i + 1 < s
    → remaining (iterator_of i f n s [] slots)
      ≡ remaining (iterator_of (i + 1) f n s (slots (i + 1)) slots)
next_slot i f n s slots l = let e : s - (i + 1) ≡ suc (s - (i + 1 + 1)) = omega arith in rw e refl

no_slot :
    {A : Type 0} (i f n s : ℕ) (slots : ℕ → List (Entry A))
    → s ≤ i + 1
    → remaining (iterator_of i f n s [] slots) ≡ []
no_slot i f n s slots l = let e : s - (i + 1) ≡ 0 = omega arith in rw e refl

pub has_next-remaining :
    {A : Type 0} (itr : Iterator A)
    → IteratorOk itr
    → remaining itr ≢ []
    → ht_iterator_has_next itr ≡ true
unfolding ht_iterator_has_next
has_next-remaining itr ok ne = ground (arith, length-ne_nil (remaining itr) ne)

pub no_next-remaining :
    {A : Type 0} (itr : Iterator A)
    → IteratorOk itr
    → remaining itr ≡ []
    → ht_iterator_has_next itr ≡ false
unfolding ht_iterator_has_next
no_next-remaining itr ok e = let l = ap length e in ground arith

abbrev Split : ℕ → ℕ → Type 0
Split a b = (a < b) ⊎ (b ≤ a)

split : (a b : ℕ) → Split a b
split a b = ground arith

next_within-Advanced :
    {A : Type 0} (fuel i f n s : ℕ) (c : List (Entry A)) (slots : ℕ → List (Entry A))
    → IteratorOk (iterator_of i f n s c slots)
    → remaining (iterator_of i f n s c slots) ≢ []
    → s < fuel + i
    → Advanced (iterator_of i f n s c slots) (next_within fuel (iterator_of i f n s c slots))
unfolding next_within
next_within-Advanced zero i f n s c slots ok ne l = absurd (omega (arith, ok.in_table))
next_within-Advanced (suc fuel) i f n s (e ∷ c) slots ok ne l =
    let h = has_next-remaining (iterator_of i f n s (e ∷ c) slots) ok ne in
    advanced e (iterator_of i (f + 1) n s c slots) (rw h refl) refl
      (record { in_table = ok.in_table; to_find = omega (arith, ok.to_find) })
next_within-Advanced {A = A} (suc fuel) i f n s [] slots ok ne l = elim (split (i + 1) s) [
  | inl m ↦ later m (
      next_within-Advanced fuel (i + 1) f n s (slots (i + 1)) slots (moved m)
        (λ z. ne (next_slot i f n s slots m ∙ z)) (omega arith))
  | inr g ↦ absurd (ne (no_slot i f n s slots g))
]
  where
    moved : i + 1 < s → IteratorOk (iterator_of (i + 1) f n s (slots (i + 1)) slots)
    moved m =
        let z = ap length (next_slot i f n s slots m) in
        record { in_table = m; to_find = omega (arith, ok.to_find, z) }

    later :
        i + 1 < s
        → Advanced
            (iterator_of (i + 1) f n s (slots (i + 1)) slots)
            (next_within fuel (iterator_of (i + 1) f n s (slots (i + 1)) slots))
        → Advanced
            (iterator_of i f n s [] slots)
            (next_within (suc fuel) (iterator_of i f n s [] slots))
    later m (advanced e itr' q r k) =
        let h = has_next-remaining (iterator_of i f n s [] slots) ok ne in
        advanced e itr' (rw h q) (next_slot i f n s slots m ∙ r) k

pub next-Advanced :
    {A : Type 0} (itr : Iterator A)
    → IteratorOk itr
    → remaining itr ≢ []
    → Advanced itr (ht_iterator_next itr)
unfolding ht_iterator_next
next-Advanced itr ok ne =
    next_within-Advanced (suc (itr.table_size - itr.current_table_index)) itr.current_table_index
      itr.found_elements itr.total_elements itr.table_size itr.current_node itr.iterator_table ok ne
      (omega arith)

length-append : {A : Type 0} (p q : List A) → length (p ++ q) ≡ length p + length q
length-append [] q = ground arith
length-append (x ∷ p) q = omega (arith, length-append p q)

total-slots_from :
    {A : Type 0} (f : ℕ → List (Entry A)) (i n : ℕ)
    → total f i + length (slots_from f i n) ≡ total f (i + n)
total-slots_from f i zero =
    let e : i + 0 ≡ i = omega arith in omega (arith, ap (λ (x : ℕ). total f x) e)
total-slots_from f i (suc n) =
    let e : i + suc n ≡ i + 1 + n = omega arith in
    let one : i + 1 ≡ suc i = omega arith in
    omega (
      arith,
      ap (λ (x : ℕ). total f x) e,
      ap (λ (x : ℕ). total f x) one,
      total-slots_from f (i + 1) n,
      length-append (f i) (slots_from f (i + 1) n),
    )

pub remaining-create_iterator :
    {A : Type 0} (t : Table A)
    → TableOk t
    → remaining (ht_create_iterator t) ≡ slots_from t.table 0 t.array_size
unfolding ht_create_iterator
remaining-create_iterator t ok =
    let e : t.array_size ≡ suc (t.array_size - 1) = omega (arith, ok.positive) in
    sym (ap (λ (x : ℕ). slots_from t.table 0 x) e)

zero_add : (n : ℕ) → 0 + n ≡ n
zero_add n = omega arith

pub create_iterator-IteratorOk :
    {A : Type 0} (t : Table A) → TableOk t → IteratorOk (ht_create_iterator t)
unfolding ht_create_iterator
create_iterator-IteratorOk t ok = record {
  in_table = ok.positive;
  to_find = omega (
    arith,
    ap length (remaining-create_iterator t ok),
    total-slots_from t.table 0 t.array_size,
    ok.counted,
    ap (λ (x : ℕ). total t.table x) (zero_add t.array_size),
  );
}
