-- ===== src/Util/Hashtable/Absorb.antt =====
-- What a key maps to after the entries of a table of src/util/hashtable.c were put in one by one.
use ce.Base.{
  ℕ, zero, suc, ◌+◌, ◌%◌, ◌≤◌, ◌<◌, ◌≡◌, ◌≢◌, inl, inr, ◌==◌, if◌then◌else◌, Option, none, some,
  List, [], ◌∷◌, ◌++◌, refl, ap, sym, ◌∙◌, arith,
}
use ce.Util.Hashtable.{Entry, Table, ht_create_iterator}
use ce.Util.Hashtable.Calls.{find, ht_get}
use ce.Util.Hashtable.Chains.{Ascending, InSlot, find-Above, same}
use ce.Util.Hashtable.Slots.{TableOk, index-lt}
use ce.Util.Hashtable.Iterate.{slots_from, remaining, remaining-create_iterator}

-- What the key maps to after the entries of a list were put in one after the other.
abbrev pub absorb : {A : Type 0} → ℕ → List (Entry A) → Option A → Option A
absorb k [] d = d
absorb k (e ∷ q) d = absorb k q (if k == e.key then some e.value else d)

abbrev or_else : {A : Type 0} → Option A → Option A → Option A
or_else none d = d
or_else (some v) d = some v

absorb-append :
    {A : Type 0} (k : ℕ) (p q : List (Entry A)) (d : Option A)
    → absorb k (p ++ q) d ≡ absorb k q (absorb k p d)
absorb-append k [] q d = refl
absorb-append k (e ∷ p) q d = absorb-append k p q (if k == e.key then some e.value else d)

absorb-find :
    {A : Type 0} (k : ℕ) (c : List (Entry A)) (d : Option A)
    → Ascending c
    → absorb k c d ≡ or_else (find k c) d
unfolding find
absorb-find k [] d h = refl
absorb-find k (e ∷ c) d h =
    ground (arith, absorb-find k c d h.1, absorb-find k c (some e.value) h.1, find-Above k e.key c)

find-InSlot :
    {A : Type 0} (k size i : ℕ) (c : List (Entry A))
    → InSlot size i c
    → k % size ≢ i
    → find k c ≡ none
unfolding find
find-InSlot k size i [] h ne = refl
find-InSlot k size i (e ∷ c) h ne = elim (same e.key k) [
  | inl q ↦ absurd (ne (ap (λ (x : ℕ). x % size) (sym q) ∙ h.0))
  | inr d ↦ ground (arith, find-InSlot k size i c h.1 ne)
]

one_slot :
    {A : Type 0} (t : Table A) (k i : ℕ) (q : List (Entry A)) (d : Option A)
    → TableOk t
    → i < t.array_size
    → absorb k (t.table i ++ q) d ≡ absorb k q (or_else (find k (t.table i)) d)
one_slot t k i q d ok l =
    absorb-append k (t.table i) q d
    ∙ ap (λ x. absorb k q x) (absorb-find k (t.table i) d (ok.ascending i l))

-- A slot that is not the key's adds nothing.
other_slot :
    {A : Type 0} (t : Table A) (k i : ℕ) (q : List (Entry A)) (d : Option A)
    → TableOk t
    → i < t.array_size
    → k % t.array_size ≢ i
    → absorb k (t.table i ++ q) d ≡ absorb k q d
other_slot t k i q d ok l ne =
    one_slot t k i q d ok l
    ∙ ap (λ x. absorb k q (or_else x d))
        (find-InSlot k t.array_size i (t.table i) (ok.in_slot i l) ne)

slots_behind :
    {A : Type 0} (t : Table A) (k i n : ℕ) (d : Option A)
    → TableOk t
    → i + n ≤ t.array_size
    → k % t.array_size < i
    → absorb k (slots_from t.table i n) d ≡ d
slots_behind t k i zero d ok l g = refl
slots_behind t k i (suc n) d ok l g =
    other_slot t k i (slots_from t.table (i + 1) n) d ok (omega arith) (λ e. omega arith)
    ∙ slots_behind t k (i + 1) n d ok (omega arith) (omega arith)

slots_around :
    {A : Type 0} (t : Table A) (k i n : ℕ) (d : Option A)
    → TableOk t
    → i + n ≤ t.array_size
    → i ≤ k % t.array_size
    → k % t.array_size < i + n
    → absorb k (slots_from t.table i n) d ≡ or_else (ht_get t k) d
unfolding ht_get
slots_around t k i zero d ok l g h = absurd (omega arith)
slots_around t k i (suc n) d ok l g h = elim (same (k % t.array_size) i) [
  | inl e ↦
      one_slot t k i (slots_from t.table (i + 1) n) d ok (omega arith)
      ∙ slots_behind t k (i + 1) n (or_else (find k (t.table i)) d) ok (omega arith) (omega arith)
      ∙ ap (λ (x : ℕ). or_else (find k (t.table x)) d) (sym e)
  | inr ne ↦
      other_slot t k i (slots_from t.table (i + 1) n) d ok (omega arith) ne
      ∙ slots_around t k (i + 1) n d ok (omega arith) (omega arith) (omega arith)
]

-- A table is the list of its entries, put into an empty one.
pub absorb-remaining :
    {A : Type 0} (t : Table A) (k : ℕ)
    → TableOk t
    → absorb k (remaining (ht_create_iterator t)) none ≡ ht_get t k
absorb-remaining {A = A} t k ok =
    ap (λ x. absorb k x none) (remaining-create_iterator t ok)
    ∙ slots_around t k 0 t.array_size none ok (omega arith) (omega arith)
        (omega (arith, index-lt t k ok))
    ∙ or_else-none (ht_get t k)
  where
    or_else-none : (o : Option A) → or_else o none ≡ o
    or_else-none none = refl
    or_else-none (some v) = refl
