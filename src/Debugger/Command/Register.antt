-- ===== src/Debugger/Command/Register.antt =====
-- src/debugger/debugger.c, command_execute: `cpu <register> <value>`.
pub mod Undo
use ce.Base.{
  ℕ, ◌^◌, u8, u16, u32, Bool, true, ltb, ◌==◌, not, if◌then◌else◌, Option, none, some, List,
}
use ce.Cpu.State.{Cpu, Machine}
use ce.Cpu.Registers.{cpu_set_sp}
use ce.Debugger.Parse.{codes, str_eq}
use ce.Debugger.Load.{CmdErr}

-- The processor after the assignment, or the error.
pub data Assigned : Type 0 where
  assigned : Machine → Assigned
  refused : CmdErr → Assigned

-- `if (val > limit) … cpu->… = val;`
abbrev pub assign : ℕ → ℕ → (Cpu → Cpu) → Machine → Assigned
assign limit val f m =
    if ltb limit val then refused CmdErr.val_overflow else assigned (record m { cpu = f m.cpu })

-- A value of a one-bit field.
abbrev flag : ℕ → Bool
flag val = not (val == 0)

-- The flags of `P`.
unfoldable pub set_flag : List ℕ → ℕ → Machine → Assigned
set_flag tok val m =
    if str_eq tok (codes "p.n")
    then assign 1 val (λ r. record r { p_n = flag val }) m
    else if str_eq tok (codes "p.v")
    then assign 1 val (λ r. record r { p_v = flag val }) m
    else if str_eq tok (codes "p.m")
    then assign 1 val (λ r. record r { p_m = flag val }) m
    else if str_eq tok (codes "p.x")
    then assign 1 val (λ r. record r { p_xb = flag val }) m
    else if str_eq tok (codes "p.d")
    then assign 1 val (λ r. record r { p_d = flag val }) m
    else if str_eq tok (codes "p.i")
    then assign 1 val (λ r. record r { p_i = flag val }) m
    else if str_eq tok (codes "p.z")
    then assign 1 val (λ r. record r { p_z = flag val }) m
    else if str_eq tok (codes "p.c")
    then assign 1 val (λ r. record r { p_c = flag val }) m
    else if str_eq tok (codes "p.e")
    then assign 1 val (λ r. record r { p_e = flag val }) m
    else if str_eq tok (codes "rst")
    then assign 1 val (λ r. record r { p_rst = flag val }) m
    else if str_eq tok (codes "irq")
    then assign 1 val (λ r. record r { p_irq = flag val }) m
    else if str_eq tok (codes "nmi")
    then assign 1 val (λ r. record r { p_nmi = flag val }) m
    else if str_eq tok (codes "stp")
    then assign 1 val (λ r. record r { p_stp = flag val }) m
    else if str_eq tok (codes "crash")
    then assign 1 val (λ r. record r { p_crash = flag val }) m
    else if str_eq tok (codes "cycles")
    then assign 0x80000000 val (λ r. record r { cycles = val }) m
    else refused CmdErr.unknown_arg

-- The registers, and `p`, which is given to _cpu_set_sp.
unfoldable pub set_register : List ℕ → ℕ → Machine → Assigned
set_register tok val m =
    if ltb 0xffffff val
    then refused CmdErr.val_overflow
    else if str_eq tok (codes "c")
    then assign 0xffff val (λ r. record r { c = u16 val }) m
    else if str_eq tok (codes "x")
    then assign 0xffff val (λ r. record r { x = u16 val }) m
    else if str_eq tok (codes "y")
    then assign 0xffff val (λ r. record r { y = u16 val }) m
    else if str_eq tok (codes "sp")
    then assign 0xffff val (λ r. record r { sp = u16 val }) m
    else if str_eq tok (codes "dbr")
    then assign 0xff val (λ r. record r { dbr = u8 val }) m
    else if str_eq tok (codes "pbr")
    then assign 0xff val (λ r. record r { pbr = u8 val }) m
    else if str_eq tok (codes "pc")
    then assign 0xffff val (λ r. record r { pc = u16 val }) m
    else if str_eq tok (codes "d")
    then assign 0xffff val (λ r. record r { d = u16 val }) m
    else if str_eq tok (codes "p")
    then (if ltb 0xff val then refused CmdErr.val_overflow else assigned (cpu_set_sp (u8 val) m).1)
    else set_flag tok val m
