-- ===== src/Util/Hashtable/Taken.antt =====
-- The searches in a collision list of src/util/hashtable.c, and the removal of a node.
use ce.Base.{
  ℕ, ◌+◌, ◌≡◌, true, false, ◌==◌, ◌≢◌, inl, inr, if◌then◌else◌, Option, none, some, List, [], ◌∷◌,
  length, refl, arith,
}
use ce.Util.Hashtable.{Entry}
use ce.Util.Hashtable.Calls.{find, contains, take_out}
use ce.Util.Hashtable.Chains.{Above, Ascending, InSlot, find-Above, Same, same}

pub contains-find :
    {A : Type 0} (k : ℕ) (c : List (Entry A))
    → contains k c ≡ elim (find k c) [ none ↦ false | some _ ↦ true ]
unfolding contains find
contains-find k [] = refl
contains-find k (node ∷ rest) = ground (arith, contains-find k rest)

-- What is left of an ascending list without the node of a key.
pub record TakenOk {A : Type 0} (key : ℕ) (c : List (Entry A)) (v : A) (rest : List (Entry A))
    : Type 0 where
  pub order : Ascending rest
  pub bound : (k : ℕ) → Above k c → Above k rest
  pub slot : (size i : ℕ) → InSlot size i c → InSlot size i rest
  pub value : find key c ≡ some v
  pub left : (k : ℕ) → find k rest ≡ (if k == key then none else find k c)
  pub count : length c ≡ length rest + 1

-- A search for a key to remove finds no node, or takes the node out.
pub data Taken {A : Type 0} (key : ℕ) (c : List (Entry A)) (o : Option (A × List (Entry A)))
    : Type 0 where
  missing : o ≡ none → find key c ≡ none → Taken key c o
  taken :
      (v : A) (rest : List (Entry A)) → o ≡ some (v, rest) → TakenOk key c v rest → Taken key c o

head-TakenOk :
    {A : Type 0} (node : Entry A) (c : List (Entry A))
    → Ascending (node ∷ c)
    → TakenOk node.key (node ∷ c) node.value c
unfolding find
head-TakenOk node c h = record {
  order = h.1;
  bound = λ k x. x.1;
  slot = λ size i x. x.1;
  value = ground arith;
  left = λ k. ground (arith, find-Above k node.key c);
  count = ground arith;
}

behind-TakenOk :
    {A : Type 0} (key : ℕ) (node : Entry A) (c rest : List (Entry A)) (v : A)
    → Ascending (node ∷ c)
    → node.key ≢ key
    → TakenOk key c v rest
    → TakenOk key (node ∷ c) v (node ∷ rest)
unfolding find
behind-TakenOk key node c rest v h ne o = record {
  order = (o.bound node.key h.0, o.order);
  bound = λ k x. (x.0, o.bound k x.1);
  slot = λ size i x. (x.0, o.slot size i x.1);
  value = ground (arith, o.value);
  left = λ k. ground (arith, o.left k);
  count = ground (arith, o.count);
}

pub take_out-Taken :
    {A : Type 0} (key : ℕ) (c : List (Entry A)) → Ascending c → Taken key c (take_out key c)
unfolding take_out find
take_out-Taken key [] h = missing refl refl
take_out-Taken {A = A} key (node ∷ rest) h =
    go (same node.key key) (take_out key rest) (take_out-Taken key rest h.1)
  where
    result : Option (A × List (Entry A)) → Option (A × List (Entry A))
    result o =
        if node.key == key
        then some (node.value, rest)
        else elim o [ none ↦ none | some p ↦ some (p.0, node ∷ p.1) ]

    go :
        Same node.key key
        → (o : Option (A × List (Entry A))) → Taken key rest o
        → Taken key (node ∷ rest) (result o)
    go (inl e) o t =
        let z : (node.key == key) ≡ true = ground arith in
        taken node.value rest (rw z refl) (rw (← e) (head-TakenOk node rest h))
    go (inr ne) o (missing e f) =
        let z : (node.key == key) ≡ false = ground arith in
        missing (rw (z, e) refl) (rw (z, f) refl)
    go (inr ne) o (taken v r e k) =
        let z : (node.key == key) ≡ false = ground arith in
        taken v (node ∷ r) (rw (z, e) refl) (behind-TakenOk key node rest r v h ne k)
