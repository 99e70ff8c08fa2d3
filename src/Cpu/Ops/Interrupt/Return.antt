-- ===== src/Cpu/Ops/Interrupt/Return.antt =====
-- RTI undoes an interrupt (src/cpu/65816-ops.c and src/cpu/65816.c).
use ce.Base.{ℕ, Bool, ◌+◌, ◌*◌, ◌/◌, ◌%◌, ◌^◌, ◌<◌, ◌≡◌, false, u8, bit, arith}
use ce.Cpu.State.{Cpu, Machine, enable}
use ce.Cpu.Memory.{update, get_mem_byte}
use ce.Cpu.Registers.{cpu_get_sr, cpu_set_sr, cpu_get_effective_pc}
use ce.Cpu.Registers.Status.{of_bool-le, of_bool-bit}
use ce.Cpu.Stack.{stack_push_byte, stack_push24, stack_pop_byte, stack_pop24}
use ce.Cpu.Ops.Interrupt.{enter_handler, load_vector}
use ce.Cpu.Ops.Jump.{i_rti, rti_return_long, narrow_index}
use ce.Cpu.Valid.{IsValid}

get_sr-lt : (r : Cpu) → cpu_get_sr r < 2 ^ 8
unfolding cpu_get_sr
get_sr-lt r = omega (arith, of_bool-le)

-- What an entry in native mode leaves.
enter_handler-native :
    (f : ℕ → ℕ) (emu native : ℕ) (s : Machine)
    → IsValid s.cpu
    → s.cpu.p_e ≡ false
    → let t = (enter_handler f emu native s).1 in
      (t.cpu.sp ≡ (s.cpu.sp + 0xfffc) % 2 ^ 16)
      × (u8 (t.mem.val ((s.cpu.sp + 0xfffd) % 2 ^ 16)) ≡ cpu_get_sr s.cpu)
      × (u8 (t.mem.val ((s.cpu.sp + 0xfffe) % 2 ^ 16)) ≡ s.cpu.pc % 2 ^ 8)
      × (u8 (t.mem.val ((s.cpu.sp + 0xfffe) % 2 ^ 16 + 1)) ≡ s.cpu.pc / 2 ^ 8)
      × (u8 (t.mem.val s.cpu.sp) ≡ s.cpu.pbr)
      × (t.cpu.p_e ≡ false)
unfolding enter_handler load_vector stack_push_byte stack_push24 update get_mem_byte
    cpu_get_effective_pc
enter_handler-native f emu native s v e = let l = get_sr-lt s.cpu in ground arith

-- The status register after a byte is loaded into it.
HasStatus : Cpu → ℕ → Type 0
HasStatus r v =
    (r.p_c ≡ bit v 0)
    × (r.p_z ≡ bit v 1)
    × (r.p_i ≡ bit v 2)
    × (r.p_d ≡ bit v 3)
    × (r.p_xb ≡ bit v 4)
    × (r.p_m ≡ bit v 5)
    × (r.p_v ≡ bit v 6)
    × (r.p_n ≡ bit v 7)

get_sr-HasStatus : (r : Cpu) (v : ℕ) → v < 2 ^ 8 → HasStatus r v → cpu_get_sr r ≡ v
unfolding cpu_get_sr HasStatus
get_sr-HasStatus r v h e =
    rw
      (
        e.0,
        e.1,
        e.2,
        e.3,
        e.4,
        e.5,
        e.6,
        e.7,
        of_bool-bit v 0,
        of_bool-bit v 1,
        of_bool-bit v 2,
        of_bool-bit v 3,
        of_bool-bit v 4,
        of_bool-bit v 5,
        of_bool-bit v 6,
        of_bool-bit v 7,
      )
      (omega arith)

rti-HasStatus :
    (t : Machine)
    → t.cpu.p_e ≡ false
    → HasStatus (i_rti t).1.cpu (stack_pop_byte enable t.cpu.setacc t).0
unfolding HasStatus i_rti rti_return_long narrow_index stack_pop24 cpu_set_sr
rti-HasStatus t e = ground arith

-- What RTI reads in native mode.
rti-native :
    (t : Machine)
    → t.cpu.sp < 2 ^ 16
    → t.cpu.p_e ≡ false
    → let r = (i_rti t).1.cpu in
      (r.sp ≡ (t.cpu.sp + 4) % 2 ^ 16)
      × (r.pc
          ≡ u8 (t.mem.val ((t.cpu.sp + 2) % 2 ^ 16))
            + u8 (t.mem.val ((t.cpu.sp + 2) % 2 ^ 16 + 1)) * 2 ^ 8)
      × (r.pbr ≡ u8 (t.mem.val ((t.cpu.sp + 4) % 2 ^ 16)))
unfolding i_rti rti_return_long narrow_index stack_pop_byte stack_pop24 cpu_set_sr
rti-native t h e = ground arith

pop_byte-native :
    (acc : Bool) (t : Machine)
    → t.cpu.p_e ≡ false
    → t.cpu.sp < 2 ^ 16
    → (stack_pop_byte enable acc t).0 ≡ u8 (t.mem.val ((t.cpu.sp + 1) % 2 ^ 16))
unfolding stack_pop_byte
pop_byte-native acc t e h = ground arith

-- In native mode RTI undoes the entry that BRK, COP, NMI and IRQ share, wherever the stack pointer
-- wraps: the program counter, the program bank, the stack pointer and the status register are as
-- before the entry.
pub rti-enter_handler :
    (f : ℕ → ℕ) (emu native : ℕ) (s : Machine)
    → IsValid s.cpu
    → s.cpu.p_e ≡ false
    → let r = (i_rti (enter_handler f emu native s).1).1.cpu in
      (r.pc ≡ s.cpu.pc)
      × (r.pbr ≡ s.cpu.pbr)
      × (r.sp ≡ s.cpu.sp)
      × (cpu_get_sr r ≡ cpu_get_sr s.cpu)
rti-enter_handler f emu native s v e =
    let t = (enter_handler f emu native s).1 in
    let a = enter_handler-native f emu native s v e in
    let b = rti-native t (omega arith) a.5 in
    let l = get_sr-lt s.cpu in
    let p : (t.cpu.sp + 1) % 2 ^ 16 ≡ (s.cpu.sp + 0xfffd) % 2 ^ 16 = omega arith in
    let q : (t.cpu.sp + 2) % 2 ^ 16 ≡ (s.cpu.sp + 0xfffe) % 2 ^ 16 = omega arith in
    let m : (t.cpu.sp + 4) % 2 ^ 16 ≡ s.cpu.sp = omega arith in
    let n = pop_byte-native t.cpu.setacc t a.5 (omega arith) in
    let g =
      get_sr-HasStatus (i_rti t).1.cpu (stack_pop_byte enable t.cpu.setacc t).0 (ground arith)
        (rti-HasStatus t a.5) in
    (ground arith, ground arith, ground arith, ground arith)
