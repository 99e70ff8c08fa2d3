-- ===== src/Util/Hashtable/Refine.antt =====
-- A hash table of src/util/hashtable.c is a map from keys to values, however it is resized.
use ce.Base.{
  ℕ, ◌-◌, ◌*◌, ◌/◌, ◌≤◌, ◌≡◌, Bool, true, false, leb, ◌==◌, if◌then◌else◌, Option, none, some, List,
  refl, ap, ◌∙◌, inl, inr, arith,
}
use ce.Util.Hashtable.{Entry, Table, LoadTests, ht_compute_index, ht_initial_size}
use ce.Util.Hashtable.Calls.{
  ht_get, resize, ht_put_nia, ht_put, ht_half_table, ht_remove, take_out, without_node,
}
use ce.Util.Hashtable.Chains.{Same, same}
use ce.Util.Hashtable.Taken.{take_out-Taken, Taken, missing, taken, TakenOk}
use ce.Util.Hashtable.Slots.{TableOk, index-lt, without_node-TableOk}
use ce.Util.Hashtable.Rehash.{Resized, resize-Resized}
use ce.Util.Hashtable.Load.{LoadOk, IsLight, put-PutOk}

-- __ht_put into a valid table succeeds; the table stays valid and light, the key maps to the value,
-- and every other key to what it mapped to.
pub ht_put-get :
    {A : Type 0} (c : LoadTests) (t : Table A) (key : ℕ) (v : A)
    → LoadOk c
    → TableOk t
    → IsLight c t
    → (t' : Table A) × (ht_put c true t key v ≡ some (false, t'))
      × TableOk t'
      × IsLight c t'
      × ((k : ℕ) → ht_get t' k ≡ (if k == key then some v else ht_get t k))
unfolding ht_put
ht_put-get c t key v ok to r =
    let item : Entry _ = record { key = key; value = v } in
    let s = (put-PutOk c ok).puts t item 0 to r in
    (s.0.table, rw (s.0.is_some) refl, s.0.table_ok, s.1, s.0.gets)

same_table :
    {A : Type 0} (c : LoadTests) (t : Table A)
    → TableOk t
    → IsLight c t
    → Resized t (λ r n. IsLight c r) (some t)
same_table c t to r = record {
  table = t;
  is_some = refl;
  table_ok = to;
  room = r;
  gets = λ k. refl;
}

half-Resized :
    {A : Type 0} (c : LoadTests) (t : Table A)
    → LoadOk c
    → TableOk t
    → IsLight c t
    → Resized t (λ r n. IsLight c r) (ht_half_table c t)
unfolding ht_half_table
half-Resized c t ok to r = go (leb (2 * ht_initial_size) t.array_size) (λ e. ground arith)
  where
    go :
        (b : Bool)
        → (b ≡ true → 16 ≤ t.array_size)
        → Resized t
            (λ r' n. IsLight c r')
            (if b then resize (ht_put_nia c 2) t (t.array_size / 2) else some t)
    go false h = same_table c t to r
    go true h =
        let l = h refl in
        resize-Resized (ht_put_nia c 2) (λ r' n. IsLight c r') t (t.array_size / 2) (put-PutOk c ok)
          to (omega arith) (ok.room 0 (t.array_size / 2) (omega arith))

-- The end of __ht_remove, for the result of a shrink.
abbrev removed : {A : Type 0} → A → Option (Table A) → Option (Option A × Table A)
removed v o = elim o [ none ↦ none | some t'' ↦ some (some v, t'') ]

-- The rest of __ht_remove, for what the search found.
abbrev after_search :
    {A : Type 0}
    → LoadTests
    → Table A
    → ℕ
    → Option (A × List (Entry A))
    → Option (Option A × Table A)
after_search c t key o = elim o [
  | none ↦ some (none, t)
  | some p ↦
      (let t' = without_node t (ht_compute_index t key) p.1 in
        removed p.0 (
          if c.underloaded t'.number_of_slots_used t'.array_size
          then ht_half_table c t'
          else some t'))
]

-- A table after a remove, with what the call returned.
pub record Removed {A : Type 0} (c : LoadTests) (t : Table A) (key : ℕ)
    (o : Option (Option A × Table A)) : Type 0 where
  pub table : Table A
  pub is_some : o ≡ some (ht_get t key, table)
  pub table_ok : TableOk table
  pub light : IsLight c table
  pub gets : (k : ℕ) → ht_get table k ≡ (if k == key then none else ht_get t k)

after_search-missing :
    {A : Type 0} (c : LoadTests) (t : Table A) (key : ℕ)
    → TableOk t
    → IsLight c t
    → ht_get t key ≡ none
    → Removed c t key (some (none, t))
after_search-missing c t key to r e = record {
  table = t;
  is_some = rw e refl;
  table_ok = to;
  light = r;
  gets = λ k. go k (same k key);
}
  where
    go : (k : ℕ) → Same k key → ht_get t k ≡ (if k == key then none else ht_get t k)
    go k (inl q) =
        let z : (k == key) ≡ true = ground arith in rw z (ap (λ (x : ℕ). ht_get t x) q ∙ e)
    go k (inr ne) = let z : (k == key) ≡ false = ground arith in rw z refl

shrunk-Removed :
    {A : Type 0} (c : LoadTests) (t t' : Table A) (key : ℕ) (v : A) (o : Option (Table A))
    → ht_get t key ≡ some v
    → ((k : ℕ) → ht_get t' k ≡ (if k == key then none else ht_get t k))
    → Resized t' (λ r n. IsLight c r) o
    → Removed c t key (removed v o)
shrunk-Removed c t t' key v o e g d = record {
  table = d.table;
  is_some = rw (d.is_some, e) refl;
  table_ok = d.table_ok;
  light = d.room;
  gets = λ k. d.gets k ∙ g k;
}

without_node-IsLight :
    {A : Type 0} (c : LoadTests) (t : Table A) (i : ℕ) (rest : List (Entry A))
    → LoadOk c
    → IsLight c t
    → IsLight c (without_node t i rest)
unfolding without_node
without_node-IsLight c t i rest ok r =
    ok.fewer (t.number_of_items_in_table - 1) t.number_of_items_in_table t.array_size (omega arith)
      r

after_search-taken :
    {A : Type 0} (c : LoadTests) (t : Table A) (key : ℕ) (v : A) (rest : List (Entry A))
    → LoadOk c
    → TableOk t
    → IsLight c t
    → ht_get t key ≡ some v
    → TakenOk key (t.table (ht_compute_index t key)) v rest
    → Removed c t key (after_search c t key (some (v, rest)))
after_search-taken {A = A} c t key v rest ok to r e k =
    let t' = without_node t (ht_compute_index t key) rest in
    let w = without_node-TableOk t key v rest to k in
    let l = without_node-IsLight c t (ht_compute_index t key) rest ok r in
    shrunk-Removed c t t' key v
      (if c.underloaded t'.number_of_slots_used t'.array_size then ht_half_table c t' else some t')
      e w.1
      (either (c.underloaded t'.number_of_slots_used t'.array_size) (half-Resized c t' ok w.0 l)
        (same_table c t' w.0 l))
  where
    either :
        (b : Bool)
        → {o o' : Option (Table A)} {t' : Table A} → Resized t' (λ r' n. IsLight c r') o
        → Resized t' (λ r' n. IsLight c r') o'
        → Resized t' (λ r' n. IsLight c r') (if b then o else o')
    either true x y = x
    either false x y = y

ht_remove-Removed :
    {A : Type 0} (c : LoadTests) (t : Table A) (key : ℕ)
    → LoadOk c
    → TableOk t
    → IsLight c t
    → Removed c t key (ht_remove c t key)
unfolding ht_remove ht_get
ht_remove-Removed {A = A} c t key ok to r =
    let i = ht_compute_index t key in
    go (take_out key (t.table i))
      (take_out-Taken key (t.table i) (to.ascending i (index-lt t key to)))
  where
    go :
        (o : Option (A × List (Entry A)))
        → Taken key (t.table (ht_compute_index t key)) o
        → Removed c t key (after_search c t key o)
    go o (missing e f) = rw e (after_search-missing c t key to r f)
    go o (taken v rest e k) = rw e (after_search-taken c t key v rest ok to r k.value k)

-- __ht_remove gives what the key mapped to; the table stays valid and light, the key maps to nothing
-- any more, and every other key to what it mapped to.
pub ht_remove-get :
    {A : Type 0} (c : LoadTests) (t : Table A) (key : ℕ)
    → LoadOk c
    → TableOk t
    → IsLight c t
    → (t' : Table A) × (ht_remove c t key ≡ some (ht_get t key, t'))
      × TableOk t'
      × IsLight c t'
      × ((k : ℕ) → ht_get t' k ≡ (if k == key then none else ht_get t k))
ht_remove-get c t key ok to r =
    let h = ht_remove-Removed c t key ok to r in (h.table, h.is_some, h.table_ok, h.light, h.gets)
