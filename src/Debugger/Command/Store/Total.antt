-- ===== src/Debugger/Command/Store/Total.antt =====
-- The loop over a line of values ends (src/debugger/debugger.c, the end of command_execute).
use ce.Base.{
  ℕ, zero, suc, ◌+◌, ◌<◌, ◌≤◌, ◌≡◌, refl, Bool, false, some, List, [], ◌∷◌, length, arith,
}
use ce.Debugger.Symbols.{SymbolTable}
use ce.Debugger.Command.{Session, Outcome}
use ce.Debugger.Command.Store.{
  Line, Round, stop, go, store_word, skip_space, word_end, store_words, cmd_store,
}

length-skip_space : (s : List ℕ) → length (skip_space s) ≤ length s
length-skip_space [] = omega arith
length-skip_space (c ∷ s) = ground (arith, length-skip_space s)

length-word_end : (s : List ℕ) → length (word_end s).0 + length (word_end s).1 ≡ length s
length-word_end [] = omega arith
length-word_end (c ∷ s) = ground (arith, length-word_end s)

-- What a round leaves is shorter.
abbrev Shorter : ℕ → Round → Type 0
Shorter n (stop b l) = Unit
Shorter n (go s l) = length s < n

store_word-Shorter :
    (st : SymbolTable) (tok next : List ℕ) (l : Line)
    → Shorter (length tok + length next) (store_word st tok next l)
unfolding store_word
store_word-Shorter st [] [] l = ground arith
store_word-Shorter st [] (d ∷ next) l = ground arith
store_word-Shorter st (c ∷ tok) [] l = ground arith
store_word-Shorter st (c ∷ tok) (d ∷ next) l = ground arith

store_words-ends :
    (st : SymbolTable) (fuel : ℕ) (s : List ℕ) (l : Line)
    → length s < fuel
    → (r : Bool × Line) × (store_words st fuel s l ≡ some r)
unfolding store_words
store_words-ends st zero s l h = absurd (omega arith)
store_words-ends st (suc fuel) [] l h = ((false, l), refl)
store_words-ends st (suc fuel) (c ∷ s) l h =
    let (tok, next) = word_end (skip_space (c ∷ s)) in
    after (store_word st tok next l) (store_word-Shorter st tok next l)
      (omega (arith, length-word_end (skip_space (c ∷ s)), length-skip_space (c ∷ s)))
      (store_words-ends st fuel)
  where
    after :
        {n : ℕ} (r : Round)
        → Shorter n r
        → n < suc fuel
        → ((s' : List ℕ) (l' : Line)
            → length s' < fuel
            → (q : Bool × Line) × (store_words st fuel s' l' ≡ some q))
        → (q : Bool × Line) × ((elim r [
          | stop b l' ↦ some (b, l')
          | go s' l' ↦ store_words st fuel s' l'
        ])
            ≡ some q)
    after (stop b l') k m ih = ((b, l'), refl)
    after (go s' l') k m ih = ih s' l' (omega arith)

-- Every line that is no named command ends, with an outcome.
pub cmd_store-ends : (line : List ℕ) (s : Session) → (o : Outcome) × (cmd_store line s ≡ some o)
unfolding cmd_store
cmd_store-ends line s =
    let l : Line = record { machine = s.machine; addr = s.addr; found_store_delim = false } in
    let (r, e) = store_words-ends s.symbol_table (length line + 1) line l (omega arith) in
    rw (e, cmd_store) (_, refl)
