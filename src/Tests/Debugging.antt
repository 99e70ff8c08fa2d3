-- ===== src/Tests/Debugging.antt =====
-- The theorems on the debugger at inputs that meet their hypotheses.
use ce.Base.{
  ℕ, ◌+◌, ◌-◌, ◌≤◌, ◌≡◌, ◌<◌, ◌↔◌, ◌⊎◌, u8, bit, not, true, false, refl, some, none, [], ◌∷◌, ◌++◌,
  length, arith,
}
use ce.Cpu.State.{Memory, ErrorCode}
use ce.Cpu.Memory.{byte_at}
use ce.Cpu.Step.Halt.{run}
use ce.Cpu.Text.{tostr_cpu, fromstr_cpu}
use ce.Cpu.Text.RoundTrip.{fromstr_cpu-tostr_cpu}
use ce.Cpu.Text.Size.{tostr_cpu-overflows}
use ce.Hw.Uart.Step.{irq_active, reg_addr}
use ce.Debugger.Parse.{codes}
use ce.Debugger.Load.{CmdErr, basic_bin_block, llvm_mos_sim, buffer, load_file_mem}
use ce.Debugger.Load.Sections.{place_all, load_file_mem-encode}
use ce.Debugger.Load.Bounds.{load_sections-bounds, load_basic-overflows}
use ce.Debugger.Command.{done, set_cpu}
use ce.Debugger.Command.Named.{cmd_load}
use ce.Debugger.Command.SaveLoad.{cmd_load-cmd_save}
use ce.Debugger.Command.Store.{cmd_store, colon}
use ce.Debugger.Command.Store.RoundTrip.{spaced, write_all, cmd_store-writes}
use ce.Debugger.Entry.{command_entry, type_keys, typed, key_cr}
use ce.Debugger.Entry.Typing.{command_entry-Within, typed-type_keys}
use ce.Debugger.History.{update_cpu_hist}
use ce.Debugger.History.Recent.{Follows, update_cpu_hist-Follows}
use ce.Debugger.Loop.Serial.{round-Served}
use ce.Debugger.Loop.Running.{rounds, Rests, rounds-stop}
use ce.Tests.Machines.{boot, boot-IsValid, native, boot_mem}
use ce.Tests.Containers.{one_byte_in}
use ce.Tests.Sessions.{
  given, world_with, saves_boot, two_sections, sections_file, short_file, block_file, world,
  strings, empty_line, full_line, session, in_reset, rotated, rotated-HistOk, running,
  in_reset-Passes, in_reset-breaks, reads_1000, irq_set-Plain, served_ui, served_ui-round,
  served_ui-enabled,
}

rounds-stop_example :
    Rests world strings one_byte_in
      (run 2 in_reset)
      (rounds world strings one_byte_in 5 (running in_reset false))
rounds-stop_example =
    rounds-stop world strings one_byte_in 1 5 (running in_reset false) (omega arith) refl refl
      in_reset-Passes in_reset-breaks

load_file_mem-encode_example :
    load_file_mem sections_file 0x8000 llvm_mos_sim boot_mem
    ≡ some (CmdErr.ok, place_all two_sections boot_mem)
load_file_mem-encode_example =
    load_file_mem-encode sections_file 0x8000 two_sections boot_mem refl refl refl (λ n. refl)
      (omega arith)

load_sections-bounds_example :
    (e : CmdErr) × (m : Memory) × (load_file_mem short_file 0 llvm_mos_sim boot_mem ≡ some (e, m))
    × ((e ≡ CmdErr.ok) ⊎ ((e ≡ CmdErr.file_corrupt) ⊎ (e ≡ CmdErr.out_of_mem)))
    × ((a : ℕ) → 0x1fffe ≤ a → m.val a ≡ boot_mem.val a)
load_sections-bounds_example = load_sections-bounds short_file 0 boot_mem refl refl

load_basic-overflows_example :
    (m : Memory) × (load_file_mem block_file 0xfffffe basic_bin_block boot_mem
      ≡ some (CmdErr.ok, m))
    × (m.val 0x1000000 ≡ u8 (buffer block_file.bytes (0x1000000 - 0xfffffe)))
load_basic-overflows_example =
    load_basic-overflows block_file 0xfffffe boot_mem refl refl (λ n. refl) refl (omega arith)
      (omega arith) (omega arith)

fromstr_cpu-tostr_cpu_example : fromstr_cpu (λ _. 1) (tostr_cpu boot.cpu) native.cpu ≡ (
  ErrorCode.ok,
  record boot.cpu { setacc = native.cpu.setacc; cop_vect_enable = native.cpu.cop_vect_enable },
)
fromstr_cpu-tostr_cpu_example = fromstr_cpu-tostr_cpu (λ _. 1) boot.cpu native.cpu boot-IsValid

cmd_load-cmd_save_example :
    cmd_load
      (world_with (tostr_cpu boot.cpu))
      (codes "cpu" ∷ codes "saved" ∷ [])
      (session in_reset false)
    ≡ some (
        done (
          set_cpu
            (λ r. record boot.cpu { setacc = r.setacc; cop_vect_enable = r.cop_vect_enable })
            (session in_reset false)))
cmd_load-cmd_save_example =
    cmd_load-cmd_save world (world_with (tostr_cpu boot.cpu)) (codes "saved") (codes "saved")
      (tostr_cpu boot.cpu) [] [] (session boot false) (session in_reset false) given boot-IsValid
      (omega arith) saves_boot refl

tostr_cpu-overflows_example : (160 < length (tostr_cpu boot.cpu) + 1) ↔ (100000 ≤ boot.cpu.cycles)
tostr_cpu-overflows_example = tostr_cpu-overflows boot.cpu boot-IsValid

cmd_store-writes_example :
    (a' : ℕ) × (cmd_store (codes "1000" ++ colon ∷ spaced (codes "1000" ∷ [])) (session boot false)
      ≡ some (
          done (record (session boot false) {
            machine = write_all 0x1000 (0x1000 ∷ []) boot;
            addr = a';
          })))
cmd_store-writes_example =
    cmd_store-writes (session boot false) (codes "1000") (codes "1000" ∷ []) 0x1000 (0x1000 ∷ [])
      (refl, (refl, (refl, (refl, tt)))) reads_1000
      ((refl, (refl, (refl, (refl, tt)))), reads_1000, tt)

command_entry-Within_example :
    let d' = (command_entry strings 0x61 full_line).1 in
    (d'.cmdbuf_index ≤ 59) × ((a : ℕ) → 60 ≤ a → d'.cmdbuf a ≡ full_line.cmdbuf a)
command_entry-Within_example = command_entry-Within strings 0x61 full_line (omega arith)

typed-type_keys_example :
    ((type_keys strings (codes "irq set") empty_line).0 ≡ false)
    × (let (run, d') = type_keys strings (codes "irq set" ++ key_cr ∷ []) empty_line in
        (run ≡ true) × (typed d' ≡ codes "irq set") × (d'.cmdbuf_index ≡ length (codes "irq set")))
typed-type_keys_example =
    typed-type_keys strings (codes "irq set") empty_line refl irq_set-Plain (omega arith)

update_cpu_hist-Follows_example : Follows false rotated boot (update_cpu_hist rotated boot false)
update_cpu_hist-Follows_example =
    update_cpu_hist-Follows rotated boot false rotated-HistOk refl refl (λ e. omega arith)

round-Served_example :
    let s = served_ui.session in
    (s.machine.cpu.p_irq ≡ irq_active s.uart)
    × (bit (byte_at s.machine.mem (reg_addr s.uart 2)) 0 ≡ not s.machine.cpu.p_irq)
round-Served_example =
    round-Served world strings none one_byte_in (running in_reset true) served_ui served_ui-round
      served_ui-enabled
