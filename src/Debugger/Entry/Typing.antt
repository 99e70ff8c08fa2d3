-- ===== src/Debugger/Entry/Typing.antt =====
-- What is typed into the command line (src/debugger/debugger.c, command_entry).
use ce.Base.{
  ℕ, zero, suc, ◌+◌, ◌-◌, ◌^◌, ◌<◌, ◌≤◌, ◌≡◌, ◌≢◌, refl, u64, Bool, true, false, Option, none, some,
  List, [], ◌∷◌, ◌++◌, length, arith, ap, sym, ◌∙◌,
}
use ce.Cpu.Memory.{update}
use ce.Util.Stack.{Platform, stack_peeki}
use ce.Debugger.Entry.{
  CmdData, c_string, copy_in, load_line, recall, remember, forward, backward, command_entry,
  type_keys, typed, is_backspace, key_cr, key_ctrl_n, key_ctrl_p,
}

-- The line stays in its array: the index, and what lies behind the array.
abbrev Within : CmdData → CmdData → Type 0
Within d d' = (d'.cmdbuf_index ≤ 59) × ((a : ℕ) → 60 ≤ a → d'.cmdbuf a ≡ d.cmdbuf a)

c_string-zero : (buf : ℕ → ℕ) (i n k : ℕ) → k < n → buf (i + k) ≡ 0 → length (c_string buf i n) ≤ k
unfolding c_string
c_string-zero buf i zero k l e = absurd (omega arith)
c_string-zero buf i (suc n) zero l e = ground arith
c_string-zero buf i (suc n) (suc k) l e = ground (arith, c_string-zero buf (i + 1) n k)

load_line-Within : (s : List ℕ) (d : CmdData) → Within d (load_line s d)
unfolding load_line
load_line-Within s d = (
  omega (arith, c_string-zero (copy_in s d.cmdbuf) 0 60 59 (omega arith) refl),
  λ a l. ground arith,
)

recall-Within : (index : ℕ) (d : CmdData) → d.cmdbuf_index ≤ 59 → Within d (recall index d).1
unfolding recall
recall-Within index d h = recalled (stack_peeki d.stack index).0 (stack_peeki d.stack index).1
  where
    recalled :
        (b : Bool) (o : Option (List ℕ))
        → Within d (
            let r : Bool × CmdData = elim o [ none ↦ (true, d) | some s ↦ (b, load_line s d) ] in
            r.1)
    recalled b none = (h, λ a l. refl)
    recalled b (some s) = load_line-Within s d

remember-Within :
    (p : Platform (List ℕ)) (d : CmdData) → d.cmdbuf_index ≤ 59 → Within d (remember p d)
unfolding remember
remember-Within p d h = ground arith

forward-Within : (d : CmdData) → d.cmdbuf_index ≤ 59 → Within d (forward d)
unfolding forward
forward-Within d h =
    let i = d.stack_index - 1 in
    let w = recall-Within (u64 (i + 2 ^ 64 - 1)) (record d { stack_index = i }) h in
    (ground (arith, w.0), λ a l. ground (arith, w.1 a l))

backward-Within : (d : CmdData) → d.cmdbuf_index ≤ 59 → Within d (backward d)
unfolding backward
backward-Within d h =
    let i = u64 (d.stack_index + 1) in
    let w = recall-Within (u64 (i + 2 ^ 64 - 1)) (record d { stack_index = i }) h in
    (ground (arith, w.0), λ a l. ground (arith, w.1 a l))

-- No key, whatever its code and whatever the history holds, takes the line out of its array: the
-- index stays at most 59, and nothing behind the 60 characters of the array is written.
pub command_entry-Within :
    (p : Platform (List ℕ)) (c : ℕ) (d : CmdData)
    → d.cmdbuf_index ≤ 59
    → let d' = (command_entry p c d).1 in
      (d'.cmdbuf_index ≤ 59) × ((a : ℕ) → 60 ≤ a → d'.cmdbuf a ≡ d.cmdbuf a)
unfolding command_entry update
command_entry-Within p c d h =
    let e = record d { cmdbuf = update d.cmdbuf d.cmdbuf_index 0; stack_index = 0 } in
    let r = remember-Within p e h in
    let f = forward-Within d h in
    let b = backward-Within d h in
    (ground (arith, r.0, f.0, b.0), λ a l. ground (arith, r.1 a l, f.1 a l, b.1 a l))

-- Keys that are added to the line.
abbrev pub Plain : List ℕ → Type 0
Plain [] = Unit
Plain (c ∷ cs) =
    (0 < c)
    × (c < 256)
    × (c ≢ key_cr)
    × (c ≢ key_ctrl_n)
    × (c ≢ key_ctrl_p)
    × (is_backspace c ≡ false)
    × Plain cs

remember-keeps :
    (p : Platform (List ℕ)) (d : CmdData)
    → ((remember p d).cmdbuf ≡ d.cmdbuf) × ((remember p d).cmdbuf_index ≡ d.cmdbuf_index)
unfolding remember
remember-keeps p d = ground arith

abbrev Reads : ℕ → ℕ → List ℕ → CmdData → Bool × CmdData → Type 0
Reads k n cs d r =
    (r.0 ≡ true)
    × (c_string r.1.cmdbuf k n ≡ cs)
    × (r.1.cmdbuf_index ≡ k + length cs)
    × ((i : ℕ) → i < k → r.1.cmdbuf i ≡ d.cmdbuf i)

enter-Reads :
    (p : Platform (List ℕ)) (d : CmdData) (n : ℕ)
    → Reads d.cmdbuf_index (suc n) [] d (type_keys p (key_cr ∷ []) d)
unfolding type_keys command_entry c_string update
enter-Reads p d n =
    let e : CmdData = record d { cmdbuf = update d.cmdbuf d.cmdbuf_index 0; stack_index = 0 } in
    let r = remember-keeps p e in
    let at : (i : ℕ) → (remember p e).cmdbuf i ≡ e.cmdbuf i = λ i. ap (λ (f : ℕ → ℕ). f i) r.0 in
    (refl, ground (arith, at d.cmdbuf_index), r.1 ∙ omega arith, λ i l. at i ∙ ground arith)

type_keys-cons :
    (p : Platform (List ℕ)) (c : ℕ) (cs rest : List ℕ) (d : CmdData)
    → Plain (c ∷ cs)
    → d.cmdbuf_index < 59
    → type_keys p (c ∷ rest) d
      ≡ type_keys p rest (record d {
        cmdbuf = update d.cmdbuf d.cmdbuf_index c;
        cmdbuf_index = d.cmdbuf_index + 1;
      })
unfolding type_keys
type_keys-cons p c cs rest d h l =
    let d1 : CmdData = record d {
      cmdbuf = update d.cmdbuf d.cmdbuf_index c;
      cmdbuf_index = d.cmdbuf_index + 1;
    } in
    let e : command_entry p c d ≡ (false, d1) = unfold command_entry in ground arith in rw e

key-Reads :
    (c : ℕ) (cs : List ℕ) (d : CmdData) (n : ℕ) (r : Bool × CmdData)
    → 0 < c
    → let d1 : CmdData = record d {
      cmdbuf = update d.cmdbuf d.cmdbuf_index c;
      cmdbuf_index = d.cmdbuf_index + 1;
    } in
      Reads (d.cmdbuf_index + 1) n cs d1 r → Reads d.cmdbuf_index (suc n) (c ∷ cs) d r
unfolding c_string update
key-Reads c cs d n r h s =
    let here : r.1.cmdbuf d.cmdbuf_index ≡ c = s.3 d.cmdbuf_index (omega arith) ∙ ground arith in
    (s.0, ground (arith, s.1), s.2 ∙ omega arith, λ i l. s.3 i (omega arith) ∙ ground arith)

type_keys-Reads :
    (p : Platform (List ℕ)) (cs : List ℕ) (d : CmdData) (n : ℕ)
    → Plain cs
    → d.cmdbuf_index + length cs ≤ 59
    → d.cmdbuf_index + n ≡ 60
    → Reads d.cmdbuf_index n cs d (type_keys p (cs ++ key_cr ∷ []) d)
type_keys-Reads p cs d zero h l e = absurd (omega arith)
type_keys-Reads p [] d (suc n) h l e = enter-Reads p d n
type_keys-Reads p (c ∷ cs) d (suc n) h l e =
    let d1 : CmdData = record d {
      cmdbuf = update d.cmdbuf d.cmdbuf_index c;
      cmdbuf_index = d.cmdbuf_index + 1;
    } in
    rw (type_keys-cons p c cs (cs ++ key_cr ∷ []) d h (omega arith)) (
      key-Reads c cs d n (type_keys p (cs ++ key_cr ∷ []) d1) h.0
        (type_keys-Reads p cs d1 n h.6 (omega arith) (omega arith)))

type_keys-waits :
    (p : Platform (List ℕ)) (cs : List ℕ) (d : CmdData)
    → Plain cs
    → d.cmdbuf_index + length cs ≤ 59
    → (type_keys p cs d).0 ≡ false
type_keys-waits p [] d h l = unfold type_keys in refl
type_keys-waits p (c ∷ cs) d h l =
    let d1 : CmdData = record d {
      cmdbuf = update d.cmdbuf d.cmdbuf_index c;
      cmdbuf_index = d.cmdbuf_index + 1;
    } in
    rw (type_keys-cons p c cs cs d h (omega arith)) (type_keys-waits p cs d1 h.6 (omega arith))

-- At most 59 plain keys on an empty line and Enter: only the Enter runs the command, and the command
-- that is run is what was typed, with its length as the index.
pub typed-type_keys :
    (p : Platform (List ℕ)) (cs : List ℕ) (d : CmdData)
    → d.cmdbuf_index ≡ 0
    → Plain cs
    → length cs ≤ 59
    → ((type_keys p cs d).0 ≡ false)
      × (let (run, d') = type_keys p (cs ++ key_cr ∷ []) d in
          (run ≡ true) × (typed d' ≡ cs) × (d'.cmdbuf_index ≡ length cs))
typed-type_keys p cs d e h l =
    let r = type_keys-Reads p cs d 60 h (omega arith) (omega arith) in
    let d' = (type_keys p (cs ++ key_cr ∷ []) d).1 in
    (
      type_keys-waits p cs d h (omega arith),
      (r.0, ap (λ (k : ℕ). c_string d'.cmdbuf k 60) (sym e) ∙ r.1, r.2 ∙ omega arith),
    )
