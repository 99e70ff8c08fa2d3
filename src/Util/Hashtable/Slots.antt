-- ===== src/Util/Hashtable/Slots.antt =====
-- The invariant of a hash table of src/util/hashtable.c, and one entry stored without a resize.
use ce.Base.{
  ℕ, zero, suc, ◌+◌, ◌-◌, ◌%◌, ◌≤◌, ◌<◌, ◌≡◌, inl, inr, true, false, ◌==◌, if◌then◌else◌, Option,
  none, some, List, length, refl, ap, arith,
}
use native.Mathlib.Nat.{mod-lt}
use ce.Cpu.Memory.{update}
use ce.Util.Hashtable.{Entry, Table, ht_compute_index, place_item, put_in_slot, is_empty_list}
use ce.Util.Hashtable.Calls.{find, ht_get, without_node}
use ce.Util.Hashtable.Chains.{Ascending, InSlot, place_item-PlacedOk, Same, same}
use ce.Util.Hashtable.Taken.{TakenOk}

-- The entries in the first `n` slots.
abbrev pub total : {A : Type 0} → (ℕ → List (Entry A)) → ℕ → ℕ
total f zero = 0
total f (suc n) = total f n + length (f n)

pub record TableOk {A : Type 0} (t : Table A) : Type 0 where
  pub positive : 1 ≤ t.array_size
  pub ascending : (i : ℕ) → i < t.array_size → Ascending (t.table i)
  pub in_slot : (i : ℕ) → i < t.array_size → InSlot t.array_size i (t.table i)
  pub counted : t.number_of_items_in_table ≡ total t.table t.array_size

total-untouched :
    {A : Type 0} (f : ℕ → List (Entry A)) (c : List (Entry A)) (n i : ℕ)
    → n ≤ i
    → total (update f i c) n ≡ total f n
unfolding update
total-untouched f c zero i l = refl
total-untouched f c (suc n) i l = ground (arith, total-untouched f c n i)

pub total-update :
    {A : Type 0} (f : ℕ → List (Entry A)) (c : List (Entry A)) (n i : ℕ)
    → i < n
    → total (update f i c) n + length (f i) ≡ total f n + length c
unfolding update
total-update f c zero i l = absurd (omega arith)
total-update f c (suc n) i l = ground (arith, total-update f c n i, total-untouched f c n i)

total-ge : {A : Type 0} (f : ℕ → List (Entry A)) (n i : ℕ) → i < n → length (f i) ≤ total f n
total-ge f zero i l = absurd (omega arith)
total-ge f (suc n) i l = ground (arith, total-ge f n i)

-- A table with another list in one of its slots.
abbrev pub with_list : {A : Type 0} → Table A → ℕ → List (Entry A) → ℕ → ℕ → Table A
with_list t i c slots n = record t {
  table = update t.table i c;
  number_of_slots_used = slots;
  number_of_items_in_table = n;
}

pub with_list-TableOk :
    {A : Type 0} (t : Table A) (i : ℕ) (c : List (Entry A)) (slots n : ℕ)
    → TableOk t
    → i < t.array_size
    → Ascending c
    → InSlot t.array_size i c
    → n + length (t.table i) ≡ t.number_of_items_in_table + length c
    → TableOk (with_list t i c slots n)
unfolding update
with_list-TableOk t i c slots n ok l a s e = record {
  positive = ok.positive;
  ascending = λ j m. ground (arith, ok.ascending j m);
  in_slot = λ j m. ground (arith, ok.in_slot j m);
  counted = omega (arith, ok.counted, total-update t.table c t.array_size i l);
}

pub index-lt : {A : Type 0} (t : Table A) (k : ℕ) → TableOk t → ht_compute_index t k < t.array_size
index-lt t k ok = mod-lt k ok.positive

-- A lookup after the list of the slot of `key` was changed for this key alone.
pub changed :
    {A : Type 0} (f : ℕ → List (Entry A)) (size key : ℕ) (c : List (Entry A)) (w : Option A)
    → ((k : ℕ) → find k c ≡ (if k == key then w else find k (f (key % size))))
    → (k : ℕ)
    → find k (if k % size == key % size then c else f (k % size))
      ≡ (if k == key then w else find k (f (k % size)))
changed f size key c w h k = go (same k key) (same (k % size) (key % size))
  where
    go :
        Same k key
        → Same (k % size) (key % size)
        → find k (if k % size == key % size then c else f (k % size))
          ≡ (if k == key then w else find k (f (k % size)))
    go (inl e) (inr d) = absurd (d (ap (λ (x : ℕ). x % size) e))
    go (inl e) (inl d) =
        let z : (k % size == key % size) ≡ true = ground arith in
        let y : (k == key) ≡ true = ground arith in let g = h k in rw (z, y) (ground arith)
    go (inr e) (inl d) =
        let z : (k % size == key % size) ≡ true = ground arith in
        let y : (k == key) ≡ false = ground arith in let g = h k in rw (z, y, d) (ground arith)
    go (inr e) (inr d) =
        let z : (k % size == key % size) ≡ false = ground arith in
        let y : (k == key) ≡ false = ground arith in rw (z, y) refl

pub without_node-TableOk :
    {A : Type 0} (t : Table A) (key : ℕ) (v : A) (rest : List (Entry A))
    → TableOk t
    → TakenOk key (t.table (ht_compute_index t key)) v rest
    → let t' = without_node t (ht_compute_index t key) rest in
      TableOk t'
      × ((k : ℕ) → ht_get t' k ≡ (if k == key then none else ht_get t k))
      × (t'.number_of_items_in_table + 1 ≡ t.number_of_items_in_table)
unfolding without_node ht_get update
without_node-TableOk t key v rest ok k =
    let i = ht_compute_index t key in
    let l = index-lt t key ok in
    let some_left : 1 ≤ t.number_of_items_in_table =
      omega (arith, k.count, ok.counted, total-ge t.table t.array_size i l) in
    let a =
      with_list-TableOk t i rest
        (if is_empty_list rest then t.number_of_slots_used - 1 else t.number_of_slots_used)
        (t.number_of_items_in_table - 1) ok l k.order (k.slot t.array_size i (ok.in_slot i l))
        (omega (arith, k.count)) in
    (a, λ j. changed t.table t.array_size key rest none k.left j, omega arith)

pub put_in_slot-TableOk :
    {A : Type 0} (t : Table A) (item : Entry A)
    → TableOk t
    → let t' = put_in_slot t item in
      TableOk t'
      × ((k : ℕ) → ht_get t' k ≡ (if k == item.key then some item.value else ht_get t k))
      × (t'.number_of_items_in_table ≤ t.number_of_items_in_table + 1)
      × (t'.array_size ≡ t.array_size)
unfolding put_in_slot ht_get update
put_in_slot-TableOk t item ok =
    let i = ht_compute_index t item.key in
    let l = index-lt t item.key ok in
    let p = place_item-PlacedOk item (t.table i) (ok.ascending i l) in
    let a =
      with_list-TableOk t i (place_item item (t.table i)).chain
        (if is_empty_list (t.table i) then t.number_of_slots_used + 1 else t.number_of_slots_used)
        (if (place_item item (t.table i)).added
          then t.number_of_items_in_table + 1
          else t.number_of_items_in_table)
        ok l p.order (p.slot t.array_size i (ok.in_slot i l) refl) (ground (arith, p.count)) in
    (
      a,
      λ k.
          changed t.table t.array_size item.key (place_item item (t.table i)).chain
            (some item.value) p.found k,
      ground arith,
      refl,
    )
