-- ===== src/Util/Hashtable/Chains.antt =====
-- The collision lists of src/util/hashtable.c: ascending keys, and what the loops over a list do.
use ce.Base.{
  ℕ, ◌+◌, ◌%◌, ◌≤◌, ◌<◌, ◌≡◌, true, false, ◌==◌, ◌≢◌, ◌⊎◌, inl, inr, if◌then◌else◌, none, some,
  List, [], ◌∷◌, length, refl, arith,
}
use ce.Util.Hashtable.{Entry, Placed, behind, place_item}
use ce.Util.Hashtable.Calls.{find}

-- Every key is above `k`; the keys ascend; every key belongs to the slot `i` of `size`.
abbrev pub Above : {A : Type 0} → ℕ → List (Entry A) → Type 0
Above k [] = Unit
Above k (node ∷ rest) = (k < node.key) × Above k rest

abbrev pub Ascending : {A : Type 0} → List (Entry A) → Type 0
Ascending [] = Unit
Ascending (node ∷ rest) = Above node.key rest × Ascending rest

abbrev pub InSlot : {A : Type 0} → ℕ → ℕ → List (Entry A) → Type 0
InSlot size i [] = Unit
InSlot size i (node ∷ rest) = (node.key % size ≡ i) × InSlot size i rest

Above-le : {A : Type 0} (j k : ℕ) (c : List (Entry A)) → j ≤ k → Above k c → Above j c
Above-le j k [] l h = tt
Above-le j k (node ∷ rest) l h = (omega (arith, h.0), Above-le j k rest l h.1)

pub find-Above : {A : Type 0} (j k : ℕ) (c : List (Entry A)) → j ≤ k → Above k c → find j c ≡ none
unfolding find
find-Above j k [] l h = refl
find-Above j k (node ∷ rest) l h = ground (arith, find-Above j k rest)

-- What a placed entry does to an ascending list.
pub record PlacedOk {A : Type 0} (item : Entry A) (c : List (Entry A)) (p : Placed A) : Type 0 where
  pub order : Ascending p.chain
  pub bound : (k : ℕ) → Above k c → k < item.key → Above k p.chain
  pub slot : (size i : ℕ) → InSlot size i c → item.key % size ≡ i → InSlot size i p.chain
  pub found : (k : ℕ) → find k p.chain ≡ (if k == item.key then some item.value else find k c)
  pub count : length p.chain ≡ (if p.added then length c + 1 else length c)

place_item-head :
    {A : Type 0} (item node : Entry A) (rest : List (Entry A))
    → Ascending (node ∷ rest)
    → node.key ≤ item.key
    → (place_item item (node ∷ rest)).at_head ≡ false
unfolding place_item
place_item-head item node [] h l = ground arith
place_item-head item node (next ∷ rest) h l = ground (arith, place_item-head item next rest)

behind-PlacedOk :
    {A : Type 0} (item node : Entry A) (c : List (Entry A)) (p : Placed A)
    → node.key < item.key
    → Ascending (node ∷ c)
    → p.at_head ≡ false
    → PlacedOk item c p
    → PlacedOk item (node ∷ c) (behind node p)
unfolding find
behind-PlacedOk item node c p l h e o =
    let b = o.bound node.key h.0 l in
    record {
      order = ground (arith, o.order);
      bound = λ k a g. ground (arith, o.bound k a.1 g);
      slot = λ size i a g. ground (arith, o.slot size i a.1 g);
      found = λ k. ground (arith, o.found k);
      count = ground (arith, o.count);
    }

between-PlacedOk :
    {A : Type 0} (item node next : Entry A) (rest : List (Entry A))
    → Ascending (node ∷ next ∷ rest)
    → node.key < item.key
    → item.key < next.key
    → PlacedOk item
        (node ∷ next ∷ rest)
        (record { chain = node ∷ item ∷ next ∷ rest; at_head = false; added = true })
unfolding find
between-PlacedOk item node next rest h l g = record {
  order = ground (arith, Above-le item.key next.key rest);
  bound = λ k x y. ground arith;
  slot = λ size i x y. ground arith;
  found = λ k. ground arith;
  count = ground arith;
}

before-PlacedOk :
    {A : Type 0} (item node : Entry A) (c : List (Entry A))
    → Ascending (node ∷ c)
    → item.key < node.key
    → PlacedOk item (node ∷ c) (record { chain = item ∷ node ∷ c; at_head = true; added = true })
unfolding find
before-PlacedOk item node c h l = record {
  order = ground (arith, Above-le item.key node.key c);
  bound = λ k x y. ground arith;
  slot = λ size i x y. ground arith;
  found = λ k. ground arith;
  count = ground arith;
}

same-PlacedOk :
    {A : Type 0} (item node : Entry A) (c : List (Entry A))
    → Ascending (node ∷ c)
    → item.key ≡ node.key
    → PlacedOk item
        (node ∷ c)
        (record { chain = record node { value = item.value } ∷ c; at_head = false; added = false })
unfolding find
same-PlacedOk item node c h l = record {
  order = ground arith;
  bound = λ k x y. ground arith;
  slot = λ size i x y. ground arith;
  found = λ k. ground arith;
  count = ground arith;
}

abbrev Order : ℕ → ℕ → Type 0
Order a b = (a < b) ⊎ (a ≡ b) ⊎ (b < a)

order : (a b : ℕ) → Order a b
order a b = ground arith

-- The loop of __ht_put_nia keeps a list ascending, and stores the value under the key alone.
pub place_item-PlacedOk :
    {A : Type 0} (item : Entry A) (c : List (Entry A))
    → Ascending c
    → PlacedOk item c (place_item item c)
unfolding place_item find
place_item-PlacedOk item [] h = record {
  order = ground arith;
  bound = ground arith;
  slot = ground arith;
  found = ground arith;
  count = ground arith;
}
place_item-PlacedOk item (node ∷ []) h = record {
  order = ground arith;
  bound = ground arith;
  slot = ground arith;
  found = ground arith;
  count = ground arith;
}
place_item-PlacedOk {A = A} item (node ∷ next ∷ rest) h =
    go (place_item-PlacedOk item (next ∷ rest) h.1) (order item.key node.key)
      (order item.key next.key)
  where
    go :
        PlacedOk item (next ∷ rest) (place_item item (next ∷ rest))
        → Order item.key node.key
        → Order item.key next.key
        → PlacedOk item (node ∷ next ∷ rest) (place_item item (node ∷ next ∷ rest))
    go later (inl l) _ =
        let e : place_item item (node ∷ next ∷ rest)
            ≡ record { chain = item ∷ node ∷ next ∷ rest; at_head = true; added = true } =
          ground arith in
        rw e (before-PlacedOk item node (next ∷ rest) h l)
    go later (inr (inl l)) _ =
        let e : place_item item (node ∷ next ∷ rest) ≡ record {
          chain = record node { value = item.value } ∷ next ∷ rest;
          at_head = false;
          added = false;
        } =
          ground arith in
        rw e (same-PlacedOk item node (next ∷ rest) h l)
    go later (inr (inr l)) (inl g) =
        let e : place_item item (node ∷ next ∷ rest)
            ≡ record { chain = node ∷ item ∷ next ∷ rest; at_head = false; added = true } =
          ground arith in
        rw e (between-PlacedOk item node next rest h l g)
    go later (inr (inr l)) (inr g) =
        let e : place_item item (node ∷ next ∷ rest) ≡ behind node (place_item item (next ∷ rest)) =
          ground arith in
        rw e (
          behind-PlacedOk item node (next ∷ rest) (place_item item (next ∷ rest)) l h
            (place_item-head item next rest h.1 (ground arith)) later)

abbrev pub Same : ℕ → ℕ → Type 0
Same a b = (a ≡ b) ⊎ (a ≢ b)

pub same : (a b : ℕ) → Same a b
same a b = ground arith
