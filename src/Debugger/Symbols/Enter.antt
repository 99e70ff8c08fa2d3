-- ===== src/Debugger/Symbols/Enter.antt =====
-- The symbol tables of src/debugger/symbols.c: the first symbol of each key stays.
use ce.Base.{
  ℕ, ◌≡◌, Bool, true, false, not, ◌==◌, if◌then◌else◌, Option, none, some, List, refl, ap, sym, ◌∙◌,
  arith, inl, inr,
}
use ce.Util.Hashtable.{Table, LoadTests}
use ce.Util.Hashtable.Calls.{ht_put, ht_get, ht_contains_key}
use ce.Util.Hashtable.Hash.{ht_hash_string, ht_sput, ht_sget, ht_contains_skey}
use ce.Util.Hashtable.Slots.{TableOk}
use ce.Util.Hashtable.Chains.{Same, same}
use ce.Util.Hashtable.Refine.{ht_put-get}
use ce.Util.Hashtable.Load.{LoadOk, IsLight}
use ce.Util.Hashtable.Map.{contains_key-get, is_some}
use ce.Debugger.Symbols.{Symbol, SymbolTable, enter, st_resolve_by_ident, st_resolve_by_addr}

-- Both tables are valid.
pub record SymbolsOk (t : LoadTests) (st : SymbolTable) : Type 0 where
  pub ident_ok : TableOk st.by_ident
  pub addr_ok : TableOk st.by_addr
  pub ident_light : IsLight t st.by_ident
  pub addr_light : IsLight t st.by_addr

-- A key keeps what it has.
abbrev pub or_new : Option Symbol → Option Symbol → Option Symbol
or_new none new = new
or_new (some s) new = some s

-- A table with `sym` under `key`, unless there was a symbol.
record Kept (t : LoadTests) (old : Table Symbol) (key : ℕ) (sym : Symbol)
    (o : Option (Bool × Table Symbol)) : Type 0 where
  table : Table Symbol
  flag : Bool
  is_some : o ≡ some (flag, table)
  table_ok : TableOk table
  light : IsLight t table
  gets :
      (k : ℕ)
      → ht_get table k ≡ (if k == key then or_new (ht_get old k) (some sym) else ht_get old k)

-- A value under `key` and what it becomes, at every key.
at_key :
    (f : ℕ → Option Symbol) (key : ℕ) (old new : Option Symbol)
    → f key ≡ old
    → (k : ℕ)
    → (if k == key then or_new old new else f k) ≡ (if k == key then or_new (f k) new else f k)
at_key f key old new e k = go (same k key)
  where
    go :
        Same k key
        → (if k == key then or_new old new else f k) ≡ (if k == key then or_new (f k) new else f k)
    go (inl q) = ap (λ x. if k == key then or_new x new else f k) (sym (ap f q ∙ e))
    go (inr ne) = let z : (k == key) ≡ false = ground arith in rw z refl

already :
    (f : ℕ → Option Symbol) (key : ℕ) (s : Symbol) (new : Option Symbol)
    → f key ≡ some s
    → (k : ℕ) → f k ≡ (if k == key then or_new (f k) new else f k)
already f key s new e k = go (same k key)
  where
    go : Same k key → f k ≡ (if k == key then or_new (f k) new else f k)
    go (inl q) =
        let z : (k == key) ≡ true = ground arith in
        let g : f k ≡ some s = ap f q ∙ e in rw (z, g) refl
    go (inr ne) = let z : (k == key) ≡ false = ground arith in rw z refl

put_new-Kept :
    (t : LoadTests) (old : Table Symbol) (key : ℕ) (sym : Symbol)
    → LoadOk t
    → TableOk old
    → IsLight t old
    → Kept t old key sym
        (if not (ht_contains_key old key) then ht_put t true old key sym else some (false, old))
put_new-Kept t old key new ok to r = go (ht_get old key) refl
  where
    go :
        (o : Option Symbol)
        → ht_get old key ≡ o
        → Kept t old key new
            (if not (ht_contains_key old key) then ht_put t true old key new else some (false, old))
    go none e =
        let c : ht_contains_key old key ≡ false = contains_key-get old key ∙ ap is_some e in
        let p = ht_put-get t old key new ok to r in
        rw c (record {
          table = p.0;
          flag = false;
          is_some = p.1;
          table_ok = p.2;
          light = p.3;
          gets = λ k. p.4 k ∙ at_key (λ (x : ℕ). ht_get old x) key none (some new) e k;
        })
    go (some s) e =
        let c : ht_contains_key old key ≡ true = contains_key-get old key ∙ ap is_some e in
        rw c (record {
          table = old;
          flag = false;
          is_some = refl;
          table_ok = to;
          light = r;
          gets = already (λ (x : ℕ). ht_get old x) key s (some new) e;
        })

enter-some :
    (t : LoadTests) (st : SymbolTable) (sym : Symbol) (f g : Bool) (i a : Table Symbol)
    → (if not (ht_contains_key st.by_addr sym.addr)
        then ht_put t true st.by_addr sym.addr sym
        else some (false, st.by_addr))
      ≡ some (f, a)
    → (if not (ht_contains_skey st.by_ident sym.ident)
        then ht_sput t true st.by_ident sym.ident sym
        else some (false, st.by_ident))
      ≡ some (g, i)
    → enter t sym st ≡ some (record { by_ident = i; by_addr = a })
unfolding enter
enter-some t st sym f g i a p q = rw (enter, p, q) refl

-- The first symbol of an address or a name stays: after `enter` the two tables are valid, the address of
-- the symbol resolves to the symbol if it resolved to none before, and so does each name with the
-- hash of its name; every other address and name resolves to what it did.
pub enter-resolves :
    (t : LoadTests) (st : SymbolTable) (sym : Symbol)
    → LoadOk t
    → SymbolsOk t st
    → (st' : SymbolTable) × (enter t sym st ≡ some st')
      × SymbolsOk t st'
      × ((a : ℕ)
          → st_resolve_by_addr st' a ≡ (
              if a == sym.addr
              then or_new (st_resolve_by_addr st a) (some sym)
              else st_resolve_by_addr st a))
      × ((s : List ℕ)
          → st_resolve_by_ident st' s ≡ (
              if ht_hash_string s == ht_hash_string sym.ident
              then or_new (st_resolve_by_ident st s) (some sym)
              else st_resolve_by_ident st s))
unfolding st_resolve_by_ident st_resolve_by_addr ht_sput ht_sget ht_contains_skey
enter-resolves t st sym ok so =
    let a = put_new-Kept t st.by_addr sym.addr sym ok so.addr_ok so.addr_light in
    let i =
      put_new-Kept t st.by_ident (ht_hash_string sym.ident) sym ok so.ident_ok so.ident_light in
    (
      record { by_ident = i.table; by_addr = a.table },
      enter-some t st sym a.flag i.flag i.table a.table a.is_some i.is_some,
      record {
        ident_ok = i.table_ok;
        addr_ok = a.table_ok;
        ident_light = i.light;
        addr_light = a.light;
      },
      a.gets,
      λ s. i.gets (ht_hash_string s),
    )
