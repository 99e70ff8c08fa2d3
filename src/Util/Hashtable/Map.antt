-- ===== src/Util/Hashtable/Map.antt =====
-- No sequence of calls tells a hash table of src/util/hashtable.c from a function from keys to values.
use ce.Base.{
  ℕ, ◌%◌, ◌≤◌, ◌≡◌, ◌==◌, if◌then◌else◌, Bool, true, false, Option, none, some, List, [], ◌∷◌, ◌++◌,
  length, refl, ap, ◌∙◌, fun_ext, arith,
}
use ce.Util.Hashtable.{Table, LoadTests}
use ce.Util.Hashtable.Calls.{ht_put, ht_get, ht_remove, ht_contains_key, find}
use ce.Util.Hashtable.Hash.{ht_hash_string, ht_sput, ht_sget, hash_string-suffix}
use ce.Util.Hashtable.Taken.{contains-find}
use ce.Util.Hashtable.Slots.{TableOk}
use ce.Util.Hashtable.Refine.{ht_put-get, ht_remove-get}
use ce.Util.Hashtable.Load.{LoadOk, IsLight}

pub data Op (A : Type 0) : Type 0 where
  put : ℕ → A → Op A
  get : ℕ → Op A
  remove : ℕ → Op A
  contains_key : ℕ → Op A

-- What a call returns: a status or a truth value, or a value or NULL.
pub data Answer (A : Type 0) : Type 0 where
  flag : Bool → Answer A
  value : Option A → Answer A

abbrev pub is_some : {A : Type 0} → Option A → Bool
is_some none = false
is_some (some _) = true

abbrev pub map_put : {A : Type 0} → ℕ → Option A → (ℕ → Option A) → ℕ → Option A
map_put key v m k = if k == key then v else m k

unfoldable pub run_map : {A : Type 0} → (ℕ → Option A) → List (Op A) → List (Answer A)
run_map m [] = []
run_map m (put k v ∷ ops) = flag false ∷ run_map (map_put k (some v) m) ops
run_map m (get k ∷ ops) = value (m k) ∷ run_map m ops
run_map m (remove k ∷ ops) = value (m k) ∷ run_map (map_put k none m) ops
run_map m (contains_key k ∷ ops) = flag (is_some (m k)) ∷ run_map m ops

abbrev and_then : {A : Type 0} → Answer A → Option (List (Answer A)) → Option (List (Answer A))
and_then a none = none
and_then a (some l) = some (a ∷ l)

unfoldable pub run_table :
    {A : Type 0} → LoadTests → Table A → List (Op A) → Option (List (Answer A))
run_table c t [] = some []
run_table c t (put k v ∷ ops) = elim (ht_put c true t k v) [
  | none ↦ none
  | some r ↦ and_then (flag r.0) (run_table c r.1 ops)
]
run_table c t (get k ∷ ops) = and_then (value (ht_get t k)) (run_table c t ops)
run_table c t (remove k ∷ ops) = elim (ht_remove c t k) [
  | none ↦ none
  | some r ↦ and_then (value r.0) (run_table c r.1 ops)
]
run_table c t (contains_key k ∷ ops) = and_then (flag (ht_contains_key t k)) (run_table c t ops)

-- __ht_contains_key tells whether __ht_get finds a value.
pub contains_key-get :
    {A : Type 0} (t : Table A) (k : ℕ) → ht_contains_key t k ≡ is_some (ht_get t k)
unfolding ht_contains_key ht_get
contains_key-get {A = A} t k =
    contains-find k (t.table (k % t.array_size)) ∙ go (find k (t.table (k % t.array_size)))
  where
    go : (o : Option A) → elim o [ none ↦ false | some _ ↦ true ] ≡ is_some o
    go none = refl
    go (some v) = refl

after_put :
    {A : Type 0} (c : LoadTests) (t : Table A) (k : ℕ) (v : A) (ops : List (Op A)) (t' : Table A)
    → ht_put c true t k v ≡ some (false, t')
    → run_table c t (put k v ∷ ops) ≡ and_then (flag false) (run_table c t' ops)
unfolding run_table
after_put {A = A} c t k v ops t' e =
    ap
      (λ (o : Option (Bool × Table A)). elim o [
        | none ↦ none
        | some r ↦ and_then (flag r.0) (run_table c r.1 ops)
      ])
      e

after_remove :
    {A : Type 0} (c : LoadTests) (t : Table A) (k : ℕ) (ops : List (Op A)) (v : Option A)
    (t' : Table A)
    → ht_remove c t k ≡ some (v, t')
    → run_table c t (remove k ∷ ops) ≡ and_then (value v) (run_table c t' ops)
unfolding run_table
after_remove {A = A} c t k ops v t' e =
    ap
      (λ (o : Option (Option A × Table A)). elim o [
        | none ↦ none
        | some r ↦ and_then (value r.0) (run_table c r.1 ops)
      ])
      e

-- A sequence of puts, gets, removes and searches on a valid table ends, and returns what a function
-- from keys to values returns, the map of the table at first.
pub run_table-run_map :
    {A : Type 0} (c : LoadTests) (ops : List (Op A)) (t : Table A)
    → LoadOk c
    → TableOk t
    → IsLight c t
    → run_table c t ops ≡ some (run_map (ht_get t) ops)
unfolding run_table run_map
run_table-run_map c [] t ok to r = refl
run_table-run_map c (put k v ∷ ops) t ok to r =
    let p = ht_put-get c t k v ok to r in
    let m = fun_ext p.4 in
    after_put c t k v ops p.0 p.1
    ∙ ap (λ x. and_then (flag false) x) (run_table-run_map c ops p.0 ok p.2 p.3)
    ∙ ap (λ x. some (flag false ∷ run_map x ops)) m
run_table-run_map c (get k ∷ ops) t ok to r = rw (run_table-run_map c ops t ok to r) refl
run_table-run_map c (remove k ∷ ops) t ok to r =
    let p = ht_remove-get c t k ok to r in
    let m = fun_ext p.4 in
    after_remove c t k ops (ht_get t k) p.0 p.1
    ∙ ap (λ x. and_then (value (ht_get t k)) x) (run_table-run_map c ops p.0 ok p.2 p.3)
    ∙ ap (λ x. some (value (ht_get t k) ∷ run_map x ops)) m
run_table-run_map c (contains_key k ∷ ops) t ok to r =
    rw (contains_key-get t k, run_table-run_map c ops t ok to r) refl

-- A value stored under a string is found under every other string with the same last 11 characters.
pub sget-same_suffix :
    {A : Type 0} (c : LoadTests) (t : Table A) (p p' q : List ℕ) (v : A)
    → LoadOk c
    → TableOk t
    → IsLight c t
    → 11 ≤ length q
    → (t' : Table A) × (ht_sput c true t (p ++ q) v ≡ some (false, t'))
      × (ht_sget t' (p' ++ q) ≡ some v)
unfolding ht_sput ht_sget
sget-same_suffix c t p p' q v ok to r l =
    let h = ht_put-get c t (ht_hash_string (p ++ q)) v ok to r in
    let e = hash_string-suffix p p' q l in
    let g = h.4 (ht_hash_string (p' ++ q)) in
    let z : (ht_hash_string (p' ++ q) == ht_hash_string (p ++ q)) ≡ true = ground arith in
    (h.0, h.1, g ∙ rw z refl)
