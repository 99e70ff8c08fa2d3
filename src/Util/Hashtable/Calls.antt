-- ===== src/Util/Hashtable/Calls.antt =====
-- src/util/hashtable.c: the functions on a table, the two resizes included.
use ce.Base.{
  ℕ, zero, suc, ◌-◌, ◌*◌, ◌/◌, Bool, true, false, not, leb, ◌==◌, if◌then◌else◌, Option, none, some,
  List, [], ◌∷◌,
}
use ce.Cpu.Memory.{update}
use ce.Util.Hashtable.{
  ht_initial_size, ht_compute_index, no_slots, is_empty_list, put_in_slot, ht_create_iterator,
  ht_iterator_has_next, ht_iterator_next, Entry, Table, Iterator, LoadTests,
}

-- The loop of a resize: every node of the iterator is put into the table. A `none` stands for a
-- dereference of NULL, or for no fuel.
unfoldable pub rehash {ℓ} :
    {A : Type ℓ}
    → (Table A → Entry A → Option (Table A))
    → ℕ
    → Iterator A
    → Table A
    → Option (Table A)
unfolding ht_iterator_has_next ht_iterator_next
rehash put zero itr t = none
rehash put (suc fuel) itr t =
    if ht_iterator_has_next itr
    then elim (ht_iterator_next itr) [
      | none ↦ none
      | some p ↦ elim (put t p.0) [ none ↦ none | some t' ↦ rehash put fuel p.1 t' ]
    ]
    else some t

-- The body of a resize: the nodes of the old array go into a new one.
unfoldable pub resize {ℓ} :
    {A : Type ℓ} → (Table A → Entry A → Option (Table A)) → Table A → ℕ → Option (Table A)
unfolding rehash ht_create_iterator
resize put t size =
    let itr = ht_create_iterator t in
    rehash put (suc itr.total_elements) itr record {
      number_of_items_in_table = 0;
      number_of_slots_used = 0;
      array_size = size;
      table = no_slots;
    }

-- __ht_put_nia and _ht_double_table call each other; `depth` bounds how deep.
unfoldable pub ht_put_nia {ℓ} : {A : Type ℓ} → LoadTests → ℕ → Table A → Entry A → Option (Table A)
unfolding put_in_slot resize
ht_put_nia c zero t item = none
ht_put_nia c (suc depth) t item =
    let t' = put_in_slot t item in
    elim (c.overloaded t'.number_of_items_in_table t'.array_size) [
      | true ↦ resize (ht_put_nia c depth) t' (t'.array_size * 2)
      | false ↦ some t'
    ]

-- The depth is 2: a put may double the array once, and a put of a resize never does.
unfoldable pub ht_put {ℓ} :
    {A : Type ℓ} → LoadTests → Bool → Table A → ℕ → A → Option (Bool × Table A)
unfolding ht_put_nia
ht_put c got_item t key value =
    if not got_item
    then some (true, t)
    else elim (ht_put_nia c 2 t record { key = key; value = value }) [
      | none ↦ none
      | some t' ↦ some (false, t')
    ]

-- The value of the first node with the key.
unfoldable pub find {ℓ} : {A : Type ℓ} → ℕ → List (Entry A) → Option A
find key [] = none
find key (node ∷ rest) =
    let later = find key rest in if node.key == key then some node.value else later

unfoldable pub ht_get {ℓ} : {A : Type ℓ} → Table A → ℕ → Option A
unfolding find
ht_get t key = find key (t.table (ht_compute_index t key))

unfoldable pub contains {ℓ} : {A : Type ℓ} → ℕ → List (Entry A) → Bool
contains key [] = false
contains key (node ∷ rest) =
    let later = contains key rest in if node.key == key then true else later

unfoldable pub ht_contains_key {ℓ} : {A : Type ℓ} → Table A → ℕ → Bool
unfolding contains
ht_contains_key t key = contains key (t.table (ht_compute_index t key))

unfoldable pub take_out {ℓ} : {A : Type ℓ} → ℕ → List (Entry A) → Option (A × List (Entry A))
take_out key [] = none
take_out key (node ∷ rest) =
    let later = take_out key rest in
    if node.key == key
    then some (node.value, rest)
    else elim later [ none ↦ none | some p ↦ some (p.0, node ∷ p.1) ]

unfoldable pub ht_half_table {ℓ} : {A : Type ℓ} → LoadTests → Table A → Option (Table A)
unfolding ht_put_nia resize
ht_half_table c t =
    if leb (2 * ht_initial_size) t.array_size
    then resize (ht_put_nia c 2) t (t.array_size / 2)
    else some t

-- The table without a node, its list being `rest` now.
unfoldable pub without_node {ℓ} : {A : Type ℓ} → Table A → ℕ → List (Entry A) → Table A
without_node t pointer rest = record t {
  table = update t.table pointer rest;
  number_of_slots_used =
      if is_empty_list rest then t.number_of_slots_used - 1 else t.number_of_slots_used;
  number_of_items_in_table = t.number_of_items_in_table - 1;
}

unfoldable pub ht_remove {ℓ} : {A : Type ℓ} → LoadTests → Table A → ℕ → Option (Option A × Table A)
unfolding take_out without_node ht_half_table
ht_remove c t key =
    let pointer = ht_compute_index t key in
    elim (take_out key (t.table pointer)) [
      | none ↦ some (none, t)
      | some p ↦
          (let t' = without_node t pointer p.1 in
            elim (if c.underloaded t'.number_of_slots_used t'.array_size
              then ht_half_table c t'
              else some t') [ none ↦ none | some t'' ↦ some (some p.0, t'') ])
    ]

-- The new array is not filled: `noise` is what lies in it.
unfoldable pub ht_clear {ℓ} : {A : Type ℓ} → (ℕ → List (Entry A)) → Table A → Table A
ht_clear noise t = record t { array_size = ht_initial_size; table = noise }

unfoldable pub ht_is_empty {ℓ} : {A : Type ℓ} → Table A → Bool
ht_is_empty t = t.number_of_items_in_table == 0

unfoldable pub ht_get_num_elements {ℓ} : {A : Type ℓ} → Table A → ℕ
ht_get_num_elements t = t.number_of_items_in_table
