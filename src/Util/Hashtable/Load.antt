-- ===== src/Util/Hashtable/Load.antt =====
-- The load of a hash table of src/util/hashtable.c: a put doubles the array at most once.
use ce.Base.{
  ℕ, suc, ◌+◌, ◌*◌, ◌≤◌, ◌<◌, ◌≡◌, true, false, some, refl, ◌∙◌, Bool-cases, inl, inr, arith,
}
use ce.Util.Hashtable.{Entry, Table, LoadTests, put_in_slot}
use ce.Util.Hashtable.Calls.{resize, ht_put_nia}
use ce.Util.Hashtable.Slots.{TableOk, put_in_slot-TableOk}
use ce.Util.Hashtable.Rehash.{Stored, PutOk, resize-Resized}

-- What the development relies on of the test above 1.2: it fails up to one entry for each slot, where
-- it fails there are fewer than two for each slot, and fewer entries do not make it succeed.
pub record LoadOk (c : LoadTests) : Type 0 where
  pub room : (n size : ℕ) → n ≤ size → c.overloaded n size ≡ false
  pub light : (n size : ℕ) → 1 ≤ size → c.overloaded n size ≡ false → n < 2 * size
  pub fewer : (m n size : ℕ) → m ≤ n → c.overloaded n size ≡ false → c.overloaded m size ≡ false

-- The table is not overloaded, as every call leaves it.
abbrev pub IsLight : {A : Type 0} → LoadTests → Table A → Type 0
IsLight c t = c.overloaded t.number_of_items_in_table t.array_size ≡ false

-- While a doubled array is filled, an entry for each slot has room.
abbrev pub RoomFor : {A : Type 0} → Table A → ℕ → Type 0
RoomFor t n = t.number_of_items_in_table + n ≤ t.array_size

put_fits :
    {A : Type 0} (c : LoadTests) (depth : ℕ) (t : Table A) (item : Entry A)
    → IsLight c (put_in_slot t item)
    → ht_put_nia c (suc depth) t item ≡ some (put_in_slot t item)
unfolding ht_put_nia
put_fits c depth t item z = rw (z, ht_put_nia) refl

put_doubles :
    {A : Type 0} (c : LoadTests) (depth : ℕ) (t : Table A) (item : Entry A)
    → let t' = put_in_slot t item in
      c.overloaded t'.number_of_items_in_table t'.array_size ≡ true
      → ht_put_nia c (suc depth) t item ≡ resize (ht_put_nia c depth) t' (t'.array_size * 2)
unfolding ht_put_nia
put_doubles c depth t item z = rw (z, ht_put_nia) refl

pub put_once-PutOk :
    {A : Type 0} (c : LoadTests) (depth : ℕ)
    → LoadOk c
    → PutOk {A = A} (ht_put_nia c (suc depth)) RoomFor
put_once-PutOk c depth ok = record {
  puts = λ t item n to r.
      let p = put_in_slot-TableOk t item to in
      let t' = put_in_slot t item in
      let z = ok.room t'.number_of_items_in_table t'.array_size (omega (arith, p.2, p.3)) in
      (
        record { table = t'; is_some = put_fits c depth t item z; table_ok = p.0; gets = p.1 },
        omega (arith, p.2, p.3),
      );
}

-- A put keeps the table light: the array is doubled at most once.
pub put-PutOk :
    {A : Type 0} (c : LoadTests) → LoadOk c → PutOk {A = A} (ht_put_nia c 2) (λ t n. IsLight c t)
put-PutOk {A = A} c ok = record { puts = λ t item n to r. put t item to r }
  where
    put :
        (t : Table A) (item : Entry A)
        → TableOk t
        → IsLight c t
        → (s : Stored t item (ht_put_nia c 2 t item)) × IsLight c s.table
    put t item to r =
        let p = put_in_slot-TableOk t item to in
        let t' = put_in_slot t item in
        elim (Bool-cases (c.overloaded t'.number_of_items_in_table t'.array_size)) [
          | inr z ↦ (
            record { table = t'; is_some = put_fits c 1 t item z; table_ok = p.0; gets = p.1 },
            z,
          )
          | inl z ↦
              (let g = ok.light t.number_of_items_in_table t.array_size to.positive r in
                let d =
                  resize-Resized (ht_put_nia c 1) RoomFor t' (t'.array_size * 2)
                    (put_once-PutOk c 0 ok) p.0 (omega (arith, p.3, to.positive))
                    (omega (arith, p.2, p.3)) in
                (
                  record {
                    table = d.table;
                    is_some = put_doubles c 1 t item z ∙ d.is_some;
                    table_ok = d.table_ok;
                    gets = λ k. d.gets k ∙ p.1 k;
                  },
                  ok.room d.table.number_of_items_in_table d.table.array_size
                      (omega (arith, d.room)),
                ))
        ]
