-- ===== src/Debugger/Entry.antt =====
-- src/debugger/debugger.c: command_entry and command_clear, the line in which a command is typed and
-- the history of the commands. What they draw is left out, and `malloc` gives memory.
pub mod Typing
use ce.Base.{
  ℕ, zero, suc, ◌+◌, ◌-◌, ◌^◌, u8, u64, Bool, true, false, not, ◌&&◌, ◌||◌, ltb, ◌==◌,
  if◌then◌else◌, Option, none, some, List, [], ◌∷◌, length,
}
use ce.Cpu.Memory.{update}
use ce.Util.Stack.{Stack, Platform, stack_push, stack_peek, stack_peeki}
use ce.Debugger.Parse.{isspace, str_eq}

-- CMD_BUF_LEN, and the keys.
abbrev pub cmd_buf_len : ℕ
cmd_buf_len = 60

abbrev pub key_cr : ℕ
key_cr = 10

abbrev pub key_ctrl_n : ℕ
key_ctrl_n = 14

abbrev pub key_ctrl_p : ℕ
key_ctrl_p = 16

-- KEY_BACKSPACE of ncurses, KEY_CTRL_H and KEY_DELETE.
abbrev pub is_backspace : ℕ → Bool
is_backspace c = c == 0x107 || c == 8 || c == 127

-- `cmd_t` less its window.
pub record CmdData : Type 0 where
  pub cmdbuf : ℕ → ℕ
  pub cmdbuf_index : ℕ
  pub stack_index : ℕ
  pub stack : Stack (List ℕ)

-- The string in an array from a place on, within `n` characters.
unfoldable pub c_string : (ℕ → ℕ) → ℕ → ℕ → List ℕ
c_string buf i zero = []
c_string buf i (suc n) =
    let rest = c_string buf (i + 1) n in if buf i == 0 then [] else buf i ∷ rest

abbrev pub typed : CmdData → List ℕ
typed d = c_string d.cmdbuf 0 cmd_buf_len

abbrev pub is_blank : List ℕ → Bool
is_blank [] = true
is_blank (c ∷ s) = let rest = is_blank s in if isspace c then rest else false

abbrev pub char_at : List ℕ → ℕ → ℕ
char_at [] i = 0
char_at (c ∷ s) zero = c
char_at (c ∷ s) (suc i) = char_at s i

-- `strncpy(cmdbuf, cmd, CMD_BUF_LEN); cmdbuf[CMD_BUF_LEN - 1] = '\0';`
abbrev pub copy_in : List ℕ → (ℕ → ℕ) → ℕ → ℕ
copy_in cmd buf i = if ltb i 59 then char_at cmd i else if i == 59 then 0 else buf i

-- A command of the history becomes the line.
unfoldable pub load_line : List ℕ → CmdData → CmdData
load_line s d =
    let buf = copy_in s d.cmdbuf in
    record d { cmdbuf = buf; cmdbuf_index = length (c_string buf 0 cmd_buf_len) }

-- The command at an index of the history, as the line; whether there was none.
unfoldable pub recall : ℕ → CmdData → Bool × CmdData
unfolding stack_peeki
recall index d =
    let (failed, cmd) = stack_peeki d.stack index in
    elim cmd [ none ↦ (true, d) | some s ↦ (failed, load_line s d) ]

abbrev pub is_last : List ℕ → Option (List ℕ) → Bool
is_last s none = false
is_last s (some cmd) = str_eq s cmd

-- A command is added to the history unless it is blank or the last one again.
unfoldable pub remember : Platform (List ℕ) → CmdData → CmdData
unfolding stack_peek
remember p d =
    let (failed, last) = stack_peek d.stack in
    if not failed && is_last (typed d) last || is_blank (typed d)
    then d
    else record d { stack = (stack_push p d.stack (typed d)).1 }

unfoldable pub forward : CmdData → CmdData
forward d =
    if d.stack_index == 0
    then d
    else (let i = d.stack_index - 1 in
        let r = (recall (u64 (i + 2 ^ 64 - 1)) (record d { stack_index = i })).1 in
        if r.stack_index == 0 then record r { cmdbuf_index = 0 } else r)

unfoldable pub backward : CmdData → CmdData
backward d =
    let i = u64 (d.stack_index + 1) in
    let (failed, r) = recall (u64 (i + 2 ^ 64 - 1)) (record d { stack_index = i }) in
    if failed then record r { stack_index = u64 (i + 2 ^ 64 - 1) } else r

-- A key; the result tells whether the line is to be executed.
unfoldable pub command_entry : Platform (List ℕ) → ℕ → CmdData → Bool × CmdData
command_entry p c d =
    if c == key_cr
    then (
      true,
      remember p (record d { cmdbuf = update d.cmdbuf d.cmdbuf_index 0; stack_index = 0 }),
    )
    else if is_backspace c
    then (
      false,
      if ltb 0 d.cmdbuf_index
          then record d {
            cmdbuf = update d.cmdbuf d.cmdbuf_index 0;
            cmdbuf_index = d.cmdbuf_index - 1;
          }
          else d,
    )
    else if c == key_ctrl_n
    then (false, forward d)
    else if c == key_ctrl_p
    then (false, backward d)
    else if ltb d.cmdbuf_index 59
    then (
      false,
      record d {
        cmdbuf = update d.cmdbuf d.cmdbuf_index (u8 c);
        cmdbuf_index = d.cmdbuf_index + 1;
      },
    )
    else (false, d)

-- The first place of the buffer is not cleared.
unfoldable pub command_clear : CmdData → CmdData
command_clear d = record d {
  cmdbuf = λ i. if i == 0 then d.cmdbuf 0 else if ltb i cmd_buf_len then 0 else d.cmdbuf i;
  cmdbuf_index = 0;
  stack_index = 0;
}

-- The keys one after another, until a command is to be executed.
unfoldable pub type_keys : Platform (List ℕ) → List ℕ → CmdData → Bool × CmdData
type_keys p [] d = (false, d)
type_keys p (c ∷ cs) d =
    let (run, d') = command_entry p c d in
    let rest = type_keys p cs d' in if run then (true, d') else rest
