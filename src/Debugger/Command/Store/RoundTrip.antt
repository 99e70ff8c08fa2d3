-- ===== src/Debugger/Command/Store/RoundTrip.antt =====
-- Lines `address: value …` (src/debugger/debugger.c, the end of command_execute).
use ce.Base.{
  ℕ, zero, suc, ◌+◌, ◌<◌, ◌≡◌, u32, refl, true, false, some, List, [], ◌∷◌, ◌++◌, length, arith,
  ◌∙◌, ap,
}
use ce.Cpu.State.{Machine}
use ce.Cpu.Memory.{set_mem_byte}
use ce.Debugger.Symbols.{SymbolTable}
use ce.Debugger.Parse.{is_addr_do_parse}
use ce.Debugger.Command.{Session, done}
use ce.Debugger.Command.Store.{
  Line, go, store_word, skip_space, word_end, ends_word, store_words, cmd_store, colon,
}

-- A word: not empty, with no space and no colon.
abbrev pub IsPlain : List ℕ → Type 0
IsPlain [] = Unit
IsPlain (c ∷ w) = (ends_word c ≡ false) × IsPlain w

abbrev pub IsWord : List ℕ → Type 0
IsWord [] = ⊥
IsWord (c ∷ w) = (ends_word c ≡ false) × IsPlain w

-- Words with a space before each, and what they stand for.
abbrev pub spaced : List (List ℕ) → List ℕ
spaced [] = []
spaced (w ∷ ws) = 0x20 ∷ (w ++ spaced ws)

abbrev pub StandFor : SymbolTable → List (List ℕ) → List ℕ → Type 0
StandFor st [] [] = Unit
StandFor st (w ∷ ws) (v ∷ vs) = IsWord w × (is_addr_do_parse w st ≡ some v) × StandFor st ws vs
StandFor st _ _ = ⊥

-- The values at the addresses from `a` on, as the processor would write them.
unfoldable pub write_all : ℕ → List ℕ → Machine → Machine
write_all a [] m = m
write_all a (v ∷ vs) m = write_all (u32 (a + 1)) vs (set_mem_byte a v true m).1

abbrev Ends : List ℕ → Type 0
Ends [] = Unit
Ends (c ∷ s) = ends_word c ≡ true

word_end-append : (w s : List ℕ) → IsPlain w → Ends s → word_end (w ++ s) ≡ (w, s)
word_end-append [] [] p e = refl
word_end-append [] (c ∷ s) p e = rw e
word_end-append (c ∷ w) s p e = rw (word_end-append w s p.1 e, p.0)

skip_space-word : (w s : List ℕ) → IsWord w → skip_space (w ++ s) ≡ w ++ s
skip_space-word [] s p = absurd p
skip_space-word (c ∷ w) s p = ground (arith, p.0)

Ends-spaced : (ws : List (List ℕ)) → Ends (spaced ws)
Ends-spaced [] = tt
Ends-spaced (w ∷ ws) = refl

length-append : (w s : List ℕ) → length (w ++ s) ≡ length w + length s
length-append [] s = omega arith
length-append (c ∷ w) s = omega (arith, length-append w s)

-- A word behind the colon.
value_round :
    (st : SymbolTable) (w next : List ℕ) (v a : ℕ) (m : Machine)
    → IsWord w
    → is_addr_do_parse w st ≡ some v
    → store_word st w next (record { machine = m; addr = a; found_store_delim = true })
      ≡ go next (record {
        machine = (set_mem_byte a v true m).1;
        addr = u32 (a + 1);
        found_store_delim = true;
      })
unfolding store_word
value_round st [] next v a m p e = absurd p
value_round st (c ∷ w) next v a m p e = rw e

-- The word in front of the colon, and the colon.
address_round :
    (st : SymbolTable) (w next : List ℕ) (v a : ℕ) (m : Machine)
    → IsWord w
    → is_addr_do_parse w st ≡ some v
    → store_word st w (colon ∷ next) (record { machine = m; addr = a; found_store_delim = false })
      ≡ go (colon ∷ next) (record { machine = m; addr = v; found_store_delim = false })
unfolding store_word
address_round st [] next v a m p e = absurd p
address_round st (c ∷ w) next v a m p e = rw e

colon_round :
    (st : SymbolTable) (next : List ℕ) (l : Line)
    → l.found_store_delim ≡ false
    → store_word st [] (colon ∷ next) l ≡ go next (record l { found_store_delim = true })
unfolding store_word
colon_round st next l e = rw e

next_round :
    (st : SymbolTable) (fuel c : ℕ) (s tok next s' : List ℕ) (l l' : Line)
    → word_end (skip_space (c ∷ s)) ≡ (tok, next)
    → store_word st tok next l ≡ go s' l'
    → store_words st (suc fuel) (c ∷ s) l ≡ store_words st fuel s' l'
unfolding store_words
next_round st fuel c s tok next s' l l' e g = rw (e, store_words) (rw g)

found_word : (w s : List ℕ) → IsWord w → Ends s → word_end (skip_space (w ++ s)) ≡ (w, s)
found_word [] s p e = absurd p
found_word (c ∷ w) s p e = rw (skip_space-word (c ∷ w) s p) (word_end-append (c ∷ w) s p e)

store_values :
    (st : SymbolTable) (fuel a : ℕ) (ws : List (List ℕ)) (vs : List ℕ) (m : Machine)
    → StandFor st ws vs
    → length (spaced ws) < fuel
    → (a' : ℕ) × (store_words st fuel
          (spaced ws)
          (record { machine = m; addr = a; found_store_delim = true })
        ≡ some (false, record { machine = write_all a vs m; addr = a'; found_store_delim = true }))
unfolding write_all
store_values st zero a ws vs m h l = absurd (omega arith)
store_values st (suc fuel) a [] [] m h l = (a, unfold store_words in refl)
store_values st (suc fuel) a [] (v ∷ vs) m h l = absurd h
store_values st (suc fuel) a (w ∷ ws) [] m h l = absurd h
store_values st (suc fuel) a (w ∷ ws) (v ∷ vs) m h l =
    let (a', e) =
      store_values st fuel (u32 (a + 1)) ws vs (set_mem_byte a v true m).1 h.2
        (omega (arith, length-append w (spaced ws))) in
    let l0 : Line = record { machine = m; addr = a; found_store_delim = true } in
    let l1 : Line = record {
      machine = (set_mem_byte a v true m).1;
      addr = u32 (a + 1);
      found_store_delim = true;
    } in
    (
      a',
      next_round st fuel 0x20 (w ++ spaced ws) w (spaced ws) (spaced ws) l0 l1
            (found_word w (spaced ws) h.0 (Ends-spaced ws))
            (value_round st w (spaced ws) v a m h.0 h.1)
          ∙ e,
    )

store_line :
    (st : SymbolTable) (c : ℕ) (w : List ℕ) (ws : List (List ℕ)) (a b : ℕ) (vs : List ℕ)
    (m : Machine)
    → IsWord (c ∷ w)
    → is_addr_do_parse (c ∷ w) st ≡ some a
    → StandFor st ws vs
    → (a' : ℕ) × (store_words st
          (length (c ∷ w ++ colon ∷ spaced ws) + 1)
          (c ∷ (w ++ colon ∷ spaced ws))
          (record { machine = m; addr = b; found_store_delim = false })
        ≡ some (false, record { machine = write_all a vs m; addr = a'; found_store_delim = true }))
store_line st c w ws a b vs m p e h =
    let text = spaced ws in
    let n = length (w ++ colon ∷ text) in
    let fuel : length (c ∷ w ++ colon ∷ text) + 1 ≡ suc (suc n) = omega arith in
    let l0 : Line = record { machine = m; addr = b; found_store_delim = false } in
    let l1 : Line = record { machine = m; addr = a; found_store_delim = false } in
    let l2 : Line = record { machine = m; addr = a; found_store_delim = true } in
    let (a', q) = store_values st n a ws vs m h (omega (arith, length-append w (colon ∷ text))) in
    (
      a',
      ap (λ k. store_words st k (c ∷ (w ++ colon ∷ text)) l0) fuel
          ∙ next_round st (suc n) c (w ++ colon ∷ text) (c ∷ w) (colon ∷ text) (colon ∷ text) l0 l1
              (found_word (c ∷ w) (colon ∷ text) p refl) (address_round st (c ∷ w) text a b m p e)
          ∙ next_round st n colon text [] (colon ∷ text) text l1 l2 refl
              (colon_round st text l1 refl)
          ∙ q,
    )

-- A line `address:` and values, as words with a space before each of the values, writes each value
-- at its address from the first on, as the processor would write it, and reports CMD_OK; the words
-- are read by is_addr_do_parse. It changes nothing else but the retained address.
pub cmd_store-writes :
    (s : Session) (w : List ℕ) (ws : List (List ℕ)) (a : ℕ) (vs : List ℕ)
    → IsWord w
    → is_addr_do_parse w s.symbol_table ≡ some a
    → StandFor s.symbol_table ws vs
    → (a' : ℕ) × (cmd_store (w ++ colon ∷ spaced ws) s
        ≡ some (done (record s { machine = write_all a vs s.machine; addr = a' })))
unfolding cmd_store
cmd_store-writes s [] ws a vs p e h = absurd p
cmd_store-writes s (c ∷ w) ws a vs p e h =
    let (a', q) = store_line s.symbol_table c w ws a s.addr vs s.machine p e h in
    (a', rw (q, cmd_store))
