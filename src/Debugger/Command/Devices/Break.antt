-- ===== src/Debugger/Command/Devices/Break.antt =====
-- The break points (src/debugger/debugger.c, the command `break` and the key F1).
use ce.Base.{ℕ, ◌≡◌, refl, not, arith, some, List, ◌∷◌, ◌==◌, if◌then◌else◌}
use ce.Cpu.State.{Memory}
use ce.Cpu.Memory.{update}
use ce.Cpu.Memory.Arrays.{test_mem_flags, set_mem_flags, reset_mem_flags}
use ce.Debugger.Parse.{is_addr_do_parse}
use ce.Debugger.Load.{CmdErr}
use ce.Debugger.Command.{Session, done}
use ce.Debugger.Command.Devices.{toggle_break, cmd_break}

toggle_break-flags :
    (addr : ℕ) (mem : Memory) (a : ℕ)
    → let m = toggle_break addr mem in
      (m.acc_b a ≡ (if a == addr then not (mem.acc_b addr) else mem.acc_b a))
      × (m.acc_r a ≡ mem.acc_r a)
      × (m.acc_w a ≡ mem.acc_w a)
      × (m.val a ≡ mem.val a)
unfolding toggle_break test_mem_flags set_mem_flags reset_mem_flags update
toggle_break-flags addr mem a = ground arith

cmd_break-resolved :
    (t : List ℕ) (ts : List (List ℕ)) (s : Session) (addr : ℕ)
    → is_addr_do_parse t s.symbol_table ≡ some addr
    → cmd_break (t ∷ ts) s
      ≡ done (record s { machine = record s.machine { mem = toggle_break addr s.machine.mem } })
unfolding cmd_break
cmd_break-resolved t ts s addr e = rw (e, cmd_break)

-- The command `break` flips the break point of its address and no other, and leaves all other flags
-- and all bytes as they are; given twice it leaves every flag and every byte as it was.
cmd_break-twice :
    (t : List ℕ) (ts : List (List ℕ)) (s : Session) (addr a : ℕ)
    → is_addr_do_parse t s.symbol_table ≡ some addr
    → let one = cmd_break (t ∷ ts) s in
      let two = cmd_break (t ∷ ts) one.session in
      let mem = s.machine.mem in
      let m1 = one.session.machine.mem in
      let m2 = two.session.machine.mem in
      (one.status ≡ CmdErr.ok)
      × (two.status ≡ CmdErr.ok)
      × (m1.acc_b a ≡ (if a == addr then not (mem.acc_b addr) else mem.acc_b a))
      × ((m1.acc_r a ≡ mem.acc_r a) × (m1.acc_w a ≡ mem.acc_w a) × (m1.val a ≡ mem.val a))
      × (m2.acc_b a ≡ mem.acc_b a)
      × ((m2.acc_r a ≡ mem.acc_r a) × (m2.acc_w a ≡ mem.acc_w a) × (m2.val a ≡ mem.val a))
cmd_break-twice t ts s addr a e =
    let m = s.machine.mem in
    let f = toggle_break-flags addr m a in
    let h = toggle_break-flags addr m addr in
    let g = toggle_break-flags addr (toggle_break addr m) a in
    let s' = record s { machine = record s.machine { mem = toggle_break addr m } } in
    rw (cmd_break-resolved t ts s addr e) (
      rw (cmd_break-resolved t ts s' addr e)
        (refl, refl, f.0, (f.1, f.2, f.3), ground arith, ground arith))
