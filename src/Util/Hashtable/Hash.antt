-- ===== src/Util/Hashtable/Hash.antt =====
-- src/util/hashtable.c: __ht_hash_string, and the functions whose key is a string.
use ce.Base.{
  ℕ, zero, suc, ◌+◌, ◌-◌, ◌*◌, ◌%◌, ◌^◌, ◌≤◌, ◌<◌, ◌≡◌, u64, ltb, if◌then◌else◌, Bool, Option, List,
  [], ◌∷◌, ◌++◌, length, refl, sym, ap, ◌∙◌, arith,
}
use ce.Util.Hashtable.{Table, LoadTests}
use ce.Util.Hashtable.Calls.{ht_put, ht_get, ht_remove, ht_contains_key}

-- A `char`, from -128 to 127, as an `unsigned long`.
abbrev pub char_value : ℕ → ℕ
char_value b = if ltb (b % 2 ^ 8) 128 then b % 2 ^ 8 else 2 ^ 64 - 2 ^ 8 + b % 2 ^ 8

-- `hash += c + (hash << 6) + (hash << 16) - hash`
abbrev pub hash_step : ℕ → ℕ → ℕ
hash_step hash b = u64 (hash + char_value b + hash * 2 ^ 6 + hash * 2 ^ 16 + 2 ^ 64 - hash)

unfoldable pub hash_from : ℕ → List ℕ → ℕ
hash_from hash [] = hash
hash_from hash (b ∷ string) = hash_from (hash_step hash b) string

unfoldable pub ht_hash_string : List ℕ → ℕ
unfolding hash_from
ht_hash_string string = hash_from 0 string

unfoldable pub ht_sput {ℓ} :
    {A : Type ℓ} → LoadTests → Bool → Table A → List ℕ → A → Option (Bool × Table A)
unfolding ht_put ht_hash_string
ht_sput c got_item t key value = ht_put c got_item t (ht_hash_string key) value

unfoldable pub ht_sget {ℓ} : {A : Type ℓ} → Table A → List ℕ → Option A
unfolding ht_get ht_hash_string
ht_sget t key = ht_get t (ht_hash_string key)

unfoldable pub ht_sremove {ℓ} :
    {A : Type ℓ} → LoadTests → Table A → List ℕ → Option (Option A × Table A)
unfolding ht_remove ht_hash_string
ht_sremove c t key = ht_remove c t (ht_hash_string key)

unfoldable pub ht_contains_skey {ℓ} : {A : Type ℓ} → Table A → List ℕ → Bool
unfolding ht_contains_key ht_hash_string
ht_contains_skey t key = ht_contains_key t (ht_hash_string key)

-- After `n` characters two hashes agree below `low n`, whatever they were before.
abbrev low : ℕ → ℕ
low zero = 1
low (suc zero) = 2 ^ 6
low (suc (suc zero)) = 2 ^ 12
low (suc (suc (suc zero))) = 2 ^ 18
low (suc (suc (suc (suc zero)))) = 2 ^ 24
low (suc (suc (suc (suc (suc zero))))) = 2 ^ 30
low (suc (suc (suc (suc (suc (suc zero)))))) = 2 ^ 36
low (suc (suc (suc (suc (suc (suc (suc zero))))))) = 2 ^ 42
low (suc (suc (suc (suc (suc (suc (suc (suc zero)))))))) = 2 ^ 48
low (suc (suc (suc (suc (suc (suc (suc (suc (suc zero))))))))) = 2 ^ 54
low (suc (suc (suc (suc (suc (suc (suc (suc (suc (suc zero)))))))))) = 2 ^ 60
low _ = 2 ^ 64

mix-low :
    (n h h' c : ℕ)
    → h % low n ≡ h' % low n
    → let mix = λ (x : ℕ). u64 (x + c + x * 2 ^ 6 + x * 2 ^ 16 + 2 ^ 64 - x) in
      mix h % low (suc n) ≡ mix h' % low (suc n)
mix-low zero h h' c e = omega arith
mix-low (suc zero) h h' c e = omega arith
mix-low (suc (suc zero)) h h' c e = omega arith
mix-low (suc (suc (suc zero))) h h' c e = omega arith
mix-low (suc (suc (suc (suc zero)))) h h' c e = omega arith
mix-low (suc (suc (suc (suc (suc zero))))) h h' c e = omega arith
mix-low (suc (suc (suc (suc (suc (suc zero)))))) h h' c e = omega arith
mix-low (suc (suc (suc (suc (suc (suc (suc zero))))))) h h' c e = omega arith
mix-low (suc (suc (suc (suc (suc (suc (suc (suc zero)))))))) h h' c e = omega arith
mix-low (suc (suc (suc (suc (suc (suc (suc (suc (suc zero))))))))) h h' c e = omega arith
mix-low (suc (suc (suc (suc (suc (suc (suc (suc (suc (suc zero)))))))))) h h' c e = omega arith
mix-low (suc (suc (suc (suc (suc (suc (suc (suc (suc (suc (suc n))))))))))) h h' c e = omega arith

hash_from-low :
    (string : List ℕ) (n h h' : ℕ)
    → h % low n ≡ h' % low n
    → hash_from h string % low (n + length string) ≡ hash_from h' string % low (n + length string)
unfolding hash_from
hash_from-low [] n h h' e = let z : n + 0 ≡ n = omega arith in rw z e
hash_from-low (b ∷ string) n h h' e =
    let rest =
      hash_from-low string (suc n) (hash_step h b) (hash_step h' b)
        (mix-low n h h' (char_value b) e) in
    let z : n + suc (length string) ≡ suc n + length string = omega arith in rw z rest

hash_from-lt : (string : List ℕ) (h : ℕ) → h < 2 ^ 64 → hash_from h string < 2 ^ 64
unfolding hash_from
hash_from-lt [] h l = l
hash_from-lt (b ∷ string) h l = hash_from-lt string (hash_step h b) (omega arith)

hash_from-append : (p q : List ℕ) (h : ℕ) → hash_from h (p ++ q) ≡ hash_from (hash_from h p) q
unfolding hash_from
hash_from-append [] q h = refl
hash_from-append (b ∷ p) q h = hash_from-append p q (hash_step h b)

low_all : (n : ℕ) → 11 ≤ n → low n ≡ 2 ^ 64
low_all n l =
    let e : n ≡ (suc (suc (suc (suc (suc (suc (suc (suc (suc (suc (suc (n - 11)))))))))))) =
      omega arith in
    rw e refl

-- Two strings with the same last 11 characters have the same hash.
pub hash_string-suffix :
    (p p' q : List ℕ) → 11 ≤ length q → ht_hash_string (p ++ q) ≡ ht_hash_string (p' ++ q)
unfolding ht_hash_string
hash_string-suffix p p' q l =
    let e = hash_from-low q 0 (hash_from 0 p) (hash_from 0 p') (omega arith) in
    let a = hash_from-lt q (hash_from 0 p) (hash_from-lt p 0 (omega arith)) in
    let b = hash_from-lt q (hash_from 0 p') (hash_from-lt p' 0 (omega arith)) in
    let z : low (0 + length q) ≡ 2 ^ 64 = low_all (0 + length q) (omega arith) in
    let e' : hash_from (hash_from 0 p) q % 2 ^ 64 ≡ hash_from (hash_from 0 p') q % 2 ^ 64 =
      ap (λ (m : ℕ). hash_from (hash_from 0 p) q % m) (sym z)
      ∙ e
      ∙ ap (λ (m : ℕ). hash_from (hash_from 0 p') q % m) z in
    rw (hash_from-append p q 0, hash_from-append p' q 0) (omega arith)
