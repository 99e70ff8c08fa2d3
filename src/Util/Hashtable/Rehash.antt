-- ===== src/Util/Hashtable/Rehash.antt =====
-- A resize of a hash table of src/util/hashtable.c keeps what every key maps to.
use ce.Base.{
  ℕ, zero, suc, ◌≤◌, ◌<◌, ◌≡◌, ◌≢◌, Bool, true, ◌==◌, if◌then◌else◌, Option, none, some, List, [],
  ◌∷◌, length, refl, ap, sym, ◌∙◌, arith,
}
use ce.Util.Hashtable.{
  Entry, Table, Iterator, no_slots, ht_create_iterator, ht_iterator_has_next, ht_iterator_next,
}
use ce.Util.Hashtable.Calls.{find, ht_get, rehash, resize}
use ce.Util.Hashtable.Slots.{total, TableOk}
use ce.Util.Hashtable.Iterate.{
  remaining, IteratorOk, Advanced, advanced, next-Advanced, has_next-remaining, no_next-remaining,
  create_iterator-IteratorOk,
}
use ce.Util.Hashtable.Absorb.{absorb, absorb-remaining}

-- A table `t'` with one entry put into `t`.
pub record Stored {A : Type 0} (t : Table A) (item : Entry A) (o : Option (Table A)) : Type 0 where
  pub table : Table A
  pub is_some : o ≡ some table
  pub table_ok : TableOk table
  pub gets : (k : ℕ) → ht_get table k ≡ (if k == item.key then some item.value else ht_get t k)

-- A function that stores an entry wherever `Room t n` says that `n` more may come.
pub record PutOk {A : Type 0} (put : Table A → Entry A → Option (Table A))
    (Room : Table A → ℕ → Type 0) : Type 0 where
  pub puts :
      (t : Table A) (item : Entry A) (n : ℕ)
      → TableOk t
      → Room t (suc n)
      → (s : Stored t item (put t item)) × Room s.table n

pub record Rehashed {A : Type 0} (t : Table A) (q : List (Entry A)) (Room : Table A → ℕ → Type 0)
    (o : Option (Table A)) : Type 0 where
  pub table : Table A
  pub is_some : o ≡ some table
  pub table_ok : TableOk table
  pub room : Room table 0
  pub gets : (k : ℕ) → ht_get table k ≡ absorb k q (ht_get t k)

-- The loop's body, for what the iterator says and gives.
abbrev rehash_step :
    {A : Type 0}
    → (Table A → Entry A → Option (Table A))
    → ℕ
    → Table A
    → Bool
    → Option (Entry A × Iterator A)
    → Option (Table A)
rehash_step put fuel t b o =
    if b
    then elim o [
      | none ↦ none
      | some p ↦ elim (put t p.0) [ none ↦ none | some t' ↦ rehash put fuel p.1 t' ]
    ]
    else some t

after_entry :
    {A : Type 0} (put : Table A → Entry A → Option (Table A)) (Room : Table A → ℕ → Type 0)
    (fuel : ℕ) (t : Table A) (e : Entry A) (itr : Iterator A) (s : Stored t e (put t e))
    → Rehashed s.table (remaining itr) Room (rehash put fuel itr s.table)
    → Rehashed t (e ∷ remaining itr) Room (rehash_step put fuel t true (some (e, itr)))
after_entry put Room fuel t e itr s r = record {
  table = r.table;
  is_some = rw s.is_some r.is_some;
  table_ok = r.table_ok;
  room = r.room;
  gets = λ k. r.gets k ∙ ap (λ x. absorb k (remaining itr) x) (s.gets k);
}

pub rehash-Rehashed :
    {A : Type 0} (put : Table A → Entry A → Option (Table A)) (Room : Table A → ℕ → Type 0)
    (fuel n : ℕ) (itr : Iterator A) (t : Table A)
    → PutOk put Room
    → IteratorOk itr
    → TableOk t
    → length (remaining itr) ≡ n
    → Room t n
    → n < fuel
    → Rehashed t (remaining itr) Room (rehash put fuel itr t)
unfolding rehash
rehash-Rehashed put Room zero n itr t p io to e r l = absurd (omega arith)
rehash-Rehashed {A = A} put Room (suc fuel) zero itr t p io to e r l =
    let z : remaining itr ≡ [] = length-zero (remaining itr) e in
    let h = no_next-remaining itr io z in
    rw (h, z) (record { table = t; is_some = refl; table_ok = to; room = r; gets = λ k. refl })
  where
    length-zero : (q : List (Entry A)) → length q ≡ 0 → q ≡ []
    length-zero [] e = refl
    length-zero (x ∷ q) e = absurd (omega arith)
rehash-Rehashed {A = A} put Room (suc fuel) (suc n) itr t p io to e r l =
    let ne : remaining itr ≢ [] = λ z. omega (arith, ap length z) in
    let h = has_next-remaining itr io ne in
    go (ht_iterator_has_next itr) h (ht_iterator_next itr) (next-Advanced itr io ne)
      (λ itr' t' io' to' e' r'.
        rehash-Rehashed put Room fuel n itr' t' p io' to' e' r' (omega arith))
  where
    go :
        (b : Bool)
        → b ≡ true
        → (o : Option (Entry A × Iterator A)) → Advanced itr o
        → ((itr' : Iterator A) (t' : Table A)
            → IteratorOk itr'
            → TableOk t'
            → length (remaining itr') ≡ n
            → Room t' n
            → Rehashed t' (remaining itr') Room (rehash put fuel itr' t'))
        → Rehashed t (remaining itr) Room (rehash_step put fuel t b o)
    go b y o (advanced d itr' q z io') later =
        let s = p.puts t d n to r in
        let m = ap length z in
        rw (y, q, z)
          (after_entry put Room fuel t d itr' s.0
            (later itr' s.0.table io' s.0.table_ok (omega arith) s.1))

abbrev pub empty_table : (A : Type 0) → ℕ → Table A
empty_table A size = record {
  number_of_items_in_table = 0;
  number_of_slots_used = 0;
  array_size = size;
  table = no_slots;
}

pub empty_table-TableOk : {A : Type 0} (size : ℕ) → 1 ≤ size → TableOk (empty_table A size)
empty_table-TableOk {A = A} size l = record {
  positive = l;
  ascending = λ i m. tt;
  in_slot = λ i m. tt;
  counted = sym (none size);
}
  where
    none : (n : ℕ) → total (no_slots {A = A}) n ≡ 0
    none zero = refl
    none (suc n) = omega (arith, none n)

empty_table-get : {A : Type 0} (size k : ℕ) → ht_get (empty_table A size) k ≡ none
unfolding ht_get find
empty_table-get size k = refl

created :
    {A : Type 0} (t : Table A)
    → IteratorOk (ht_create_iterator t)
    → length (remaining (ht_create_iterator t)) ≡ t.number_of_items_in_table
unfolding ht_create_iterator
created t io = omega (arith, io.to_find)

-- A resize gives a valid table in which every key maps to what it mapped to.
pub record Resized {A : Type 0} (t : Table A) (Room : Table A → ℕ → Type 0) (o : Option (Table A))
    : Type 0 where
  pub table : Table A
  pub is_some : o ≡ some table
  pub table_ok : TableOk table
  pub room : Room table 0
  pub gets : (k : ℕ) → ht_get table k ≡ ht_get t k

pub resize-Resized :
    {A : Type 0} (put : Table A → Entry A → Option (Table A)) (Room : Table A → ℕ → Type 0)
    (t : Table A) (size : ℕ)
    → PutOk put Room
    → TableOk t
    → 1 ≤ size
    → Room (empty_table A size) t.number_of_items_in_table
    → Resized t Room (resize put t size)
unfolding resize
resize-Resized {A = A} put Room t size p ok l r =
    let itr = ht_create_iterator t in
    let io = create_iterator-IteratorOk t ok in
    let h =
      rehash-Rehashed put Room (suc t.number_of_items_in_table) t.number_of_items_in_table itr
        (empty_table A size) p io (empty_table-TableOk size l) (created t io) r (omega arith) in
    record {
      table = h.table;
      is_some = h.is_some;
      table_ok = h.table_ok;
      room = h.room;
      gets = λ k.
          h.gets k
          ∙ ap (λ x. absorb k (remaining itr) x) (empty_table-get size k)
          ∙ absorb-remaining t k ok;
    }
