-- ===== src/Debugger/Command/Register/Undo.antt =====
-- What `cpu <register> <value>` of src/debugger/debugger.c promises: every register it names but `p`
-- can be set to the values that it can hold, and set back.
use ce.Base.{ℕ, ◌≡◌, of_bool, true, false, List}
use ce.Cpu.State.{Cpu, Machine}
use ce.Debugger.Parse.{codes}
use ce.Debugger.Command.Register.{Assigned, assigned, refused, set_register}

-- The registers, the flags and the counter that the command can set.
pub data Target : Type 0 where
  reg_c reg_x reg_y reg_sp reg_dbr reg_pbr reg_pc reg_d : Target
  reg_p_n reg_p_v reg_p_m reg_p_xb reg_p_d reg_p_i reg_p_z reg_p_c : Target
  reg_p_e reg_p_rst reg_p_irq reg_p_nmi reg_p_stp reg_p_crash reg_cycles : Target

-- What the command calls them.
abbrev pub name : Target → List ℕ
name reg_c = codes "c"
name reg_x = codes "x"
name reg_y = codes "y"
name reg_sp = codes "sp"
name reg_dbr = codes "dbr"
name reg_pbr = codes "pbr"
name reg_pc = codes "pc"
name reg_d = codes "d"
name reg_p_n = codes "p.n"
name reg_p_v = codes "p.v"
name reg_p_m = codes "p.m"
name reg_p_xb = codes "p.x"
name reg_p_d = codes "p.d"
name reg_p_i = codes "p.i"
name reg_p_z = codes "p.z"
name reg_p_c = codes "p.c"
name reg_p_e = codes "p.e"
name reg_p_rst = codes "rst"
name reg_p_irq = codes "irq"
name reg_p_nmi = codes "nmi"
name reg_p_stp = codes "stp"
name reg_p_crash = codes "crash"
name reg_cycles = codes "cycles"

-- How many bits of a value they take; the command takes no value of more than 24.
abbrev pub width : Target → ℕ
width reg_c = 16
width reg_x = 16
width reg_y = 16
width reg_sp = 16
width reg_dbr = 8
width reg_pbr = 8
width reg_pc = 16
width reg_d = 16
width reg_p_n = 1
width reg_p_v = 1
width reg_p_m = 1
width reg_p_xb = 1
width reg_p_d = 1
width reg_p_i = 1
width reg_p_z = 1
width reg_p_c = 1
width reg_p_e = 1
width reg_p_rst = 1
width reg_p_irq = 1
width reg_p_nmi = 1
width reg_p_stp = 1
width reg_p_crash = 1
width reg_cycles = 24

abbrev pub read : Target → Cpu → ℕ
read reg_c r = r.c
read reg_x r = r.x
read reg_y r = r.y
read reg_sp r = r.sp
read reg_dbr r = r.dbr
read reg_pbr r = r.pbr
read reg_pc r = r.pc
read reg_d r = r.d
read reg_p_n r = of_bool r.p_n
read reg_p_v r = of_bool r.p_v
read reg_p_m r = of_bool r.p_m
read reg_p_xb r = of_bool r.p_xb
read reg_p_d r = of_bool r.p_d
read reg_p_i r = of_bool r.p_i
read reg_p_z r = of_bool r.p_z
read reg_p_c r = of_bool r.p_c
read reg_p_e r = of_bool r.p_e
read reg_p_rst r = of_bool r.p_rst
read reg_p_irq r = of_bool r.p_irq
read reg_p_nmi r = of_bool r.p_nmi
read reg_p_stp r = of_bool r.p_stp
read reg_p_crash r = of_bool r.p_crash
read reg_cycles r = r.cycles

-- The assignment took place, the register reads as `val`, and setting it back to what it was gives
-- the machine as it was.
abbrev pub SetTo : Target → ℕ → Machine → Assigned → Type 0
SetTo t val m (assigned m') =
    (read t m'.cpu ≡ val) × (set_register (name t) (read t m.cpu) m' ≡ assigned m)
SetTo t val m (refused e) = true ≡ false
