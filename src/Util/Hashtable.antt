-- ===== src/Util/Hashtable.antt =====
-- src/util/hashtable.c: a hash table with collision lists, in an array that is doubled and halved.
-- Pointers are not NULL, and `malloc` succeeds where the code does not test it. Counters are numbers
-- without a bound: each entry and each slot is an object in memory.
pub mod Calls
pub mod Hash
pub mod Chains
pub mod Taken
pub mod Slots
pub mod Iterate
pub mod Absorb
pub mod Rehash
pub mod Load
pub mod Refine
pub mod Map
use ce.Base.{
  ℕ, zero, suc, ◌+◌, ◌-◌, ◌*◌, ◌/◌, ◌%◌, ◌^◌, ◌≡◌, u64, Bool, true, false, ◌||◌, ◌&&◌, not, ltb,
  leb, ◌==◌, if◌then◌else◌, Option, none, some, List, [], ◌∷◌,
}
use ce.Cpu.Memory.{update}

-- HT_INITIAL_SIZE
abbrev pub ht_initial_size : ℕ
ht_initial_size = 8

-- `ht_entry_t`; its field `next` is the rest of the list that holds the entry.
pub record Entry {ℓ} (A : Type ℓ) : Type ℓ where
  pub key : ℕ
  pub value : A

-- `ht_t` less its field `current_load_factor`, which is only read where it has just been computed.
pub record Table {ℓ} (A : Type ℓ) : Type ℓ where
  pub number_of_items_in_table : ℕ
  pub number_of_slots_used : ℕ
  pub array_size : ℕ
  pub table : ℕ → List (Entry A)

-- `ht_itr_t`. Its `current_node` is the list from that node on.
pub record Iterator {ℓ} (A : Type ℓ) : Type ℓ where
  pub current_table_index : ℕ
  pub found_elements : ℕ
  pub total_elements : ℕ
  pub table_size : ℕ
  pub current_node : List (Entry A)
  pub iterator_table : ℕ → List (Entry A)

-- The two tests on a load factor in `float`: above 1.2 when an entry was added, and below 0.5 when one
-- was removed.
pub record LoadTests : Type 0 where
  pub overloaded : ℕ → ℕ → Bool
  pub underloaded : ℕ → ℕ → Bool

abbrev pub ht_compute_index {ℓ} : {A : Type ℓ} → Table A → ℕ → ℕ
ht_compute_index t key = key % t.array_size

abbrev pub no_slots {ℓ} : {A : Type ℓ} → ℕ → List (Entry A)
no_slots i = []

-- The struct and the array, if `malloc` gave both.
unfoldable pub ht_init {ℓ} : {A : Type ℓ} → Bool → Bool → Option (Table A)
ht_init got_struct got_array =
    if got_struct && got_array
    then some record {
      number_of_items_in_table = 0;
      number_of_slots_used = 0;
      array_size = ht_initial_size;
      table = no_slots;
    }
    else none

-- The list of a slot with an entry put in, whether the entry became the head of the whole list, and
-- whether it was added and not only its value stored.
pub record Placed {ℓ} (A : Type ℓ) : Type ℓ where
  pub chain : List (Entry A)
  pub at_head : Bool
  pub added : Bool

abbrev pub behind {ℓ} : {A : Type ℓ} → Entry A → Placed A → Placed A
behind node p = if p.at_head then p else record p { chain = node ∷ p.chain }

-- The loop of __ht_put_nia over the nodes of a list.
unfoldable pub place_item {ℓ} : {A : Type ℓ} → Entry A → List (Entry A) → Placed A
place_item item [] = record { chain = item ∷ []; at_head = false; added = true }
place_item item (node ∷ []) =
    if ltb node.key item.key
    then record { chain = node ∷ item ∷ []; at_head = false; added = true }
    else if ltb item.key node.key
    then record { chain = item ∷ node ∷ []; at_head = true; added = true }
    else record { chain = record node { value = item.value } ∷ []; at_head = false; added = false }
place_item item (node ∷ next ∷ rest) =
    let later = place_item item (next ∷ rest) in
    if ltb item.key next.key && ltb node.key item.key
    then record { chain = node ∷ item ∷ next ∷ rest; at_head = false; added = true }
    else if ltb item.key node.key
    then record { chain = item ∷ node ∷ next ∷ rest; at_head = true; added = true }
    else if item.key == node.key
    then record {
      chain = record node { value = item.value } ∷ next ∷ rest;
      at_head = false;
      added = false;
    }
    else behind node later

abbrev pub is_empty_list {ℓ} : {A : Type ℓ} → List A → Bool
is_empty_list [] = true
is_empty_list (_ ∷ _) = false

-- __ht_put_nia up to the test of the load factor.
unfoldable pub put_in_slot {ℓ} : {A : Type ℓ} → Table A → Entry A → Table A
unfolding place_item
put_in_slot t item =
    let pointer = ht_compute_index t item.key in
    let p = place_item item (t.table pointer) in
    record t {
      table = update t.table pointer p.chain;
      number_of_slots_used =
          if is_empty_list (t.table pointer)
          then t.number_of_slots_used + 1
          else t.number_of_slots_used;
      number_of_items_in_table =
          if p.added then t.number_of_items_in_table + 1 else t.number_of_items_in_table;
    }

unfoldable pub ht_create_iterator {ℓ} : {A : Type ℓ} → Table A → Iterator A
ht_create_iterator t = record {
  current_table_index = 0;
  found_elements = 0;
  total_elements = t.number_of_items_in_table;
  table_size = t.array_size;
  current_node = t.table 0;
  iterator_table = t.table;
}

-- A node with a next one.
abbrev pub has_two {ℓ} : {A : Type ℓ} → List A → Bool
has_two [] = false
has_two (_ ∷ []) = false
has_two (_ ∷ _ ∷ _) = true

unfoldable pub ht_iterator_has_next {ℓ} : {A : Type ℓ} → Iterator A → Bool
ht_iterator_has_next itr =
    ltb itr.found_elements itr.total_elements
    && (ltb itr.current_table_index itr.table_size || has_two itr.current_node)

-- The recursion goes to the next slot, at most as often as there are slots left.
unfoldable pub next_within {ℓ} : {A : Type ℓ} → ℕ → Iterator A → Option (Entry A × Iterator A)
unfolding ht_iterator_has_next
next_within zero itr = none
next_within (suc fuel) itr =
    let i = itr.current_table_index + 1 in
    let later =
      next_within fuel
        (record itr { current_table_index = i; current_node = itr.iterator_table i }) in
    if ht_iterator_has_next itr
    then elim itr.current_node [
      | [] ↦ later
      | node ∷ rest ↦
          some (node, record itr { current_node = rest; found_elements = itr.found_elements + 1 })
    ]
    else none

unfoldable pub ht_iterator_next {ℓ} : {A : Type ℓ} → Iterator A → Option (Entry A × Iterator A)
unfolding next_within
ht_iterator_next itr = next_within (suc (itr.table_size - itr.current_table_index)) itr
