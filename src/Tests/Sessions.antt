-- ===== src/Tests/Sessions.antt =====
-- Concrete files, sessions and states of the event loop for the tests.
use ce.Base.{
  ℕ, zero, suc, ◌*◌, ◌<◌, ◌≡◌, ◌==◌, ltb, if◌then◌else◌, Bool, true, false, refl, ap, ◌∙◌, some,
  none, List, [], ◌∷◌, arith,
}
use ce.Cpu.State.{Memory, Machine}
use ce.Cpu.Step.{step_cpu, run_instruction, dispatch, handle_interrupts}
use ce.Cpu.Step.Halt.{run}
use ce.Cpu.Decode.{decode}
use ce.Cpu.Memory.{get_mem_byte, get_mem_word}
use ce.Cpu.Memory.Arrays.{test_mem_flags}
use ce.Cpu.Registers.{cpu_get_effective_pc, cpu_update_pc}
use ce.Cpu.Execute.{execute, plain_op}
use ce.Cpu.Ops.Transfer.{i_nop}
use ce.Util.Stack.{Platform}
use ce.Debugger.Parse.{is_addr_do_parse, codes, scan, strtoul}
use ce.Debugger.Load.{File}
use ce.Debugger.Load.Sections.{Section, encode_all}
use ce.Debugger.Command.{Session, text}
use ce.Debugger.Command.Named.{World, cmd_save}
use ce.Debugger.Command.SaveLoad.{written}
use ce.Cpu.Text.{tostr_cpu}
use ce.Debugger.Entry.{CmdData}
use ce.Debugger.History.{Hist, HistEntry}
use ce.Debugger.History.Recent.{HistOk}
use ce.Debugger.Symbols.{st_resolve_by_ident}
use ce.Util.Hashtable.Calls.{ht_get}
use ce.Util.Hashtable.Hash.{ht_sget, ht_hash_string}
use ce.Debugger.Entry.Typing.{Plain}
use ce.Debugger.Loop.{round, keep_key, check_status, serve_uart, check_break, run_mode}
use ce.Debugger.Loop.Serial.{keeps_session, served-enabled}
use ce.Debugger.Watch.{watch_init}
use ce.Debugger.Keys.{Ui}
use ce.Debugger.Loop.Running.{at_break, Passes}
use ce.Tests.Machines.{boot_cpu, boot}
use ce.Tests.Containers.{exact_loads, ascii, no_symbols, uart_connected, one_byte_in}

abbrev pub given : ℕ → Bool
given n = true

abbrev pub two_sections : List Section
two_sections =
    record { base = 0x1000; content = 1 ∷ 2 ∷ [] } ∷ record { base = 0x1001; content = 3 ∷ [] } ∷ []

abbrev file_of : List ℕ → ℕ → File
file_of bytes size = record {
  stat_error = none;
  size = size;
  opens = true;
  bytes = bytes;
  malloc = given;
}

abbrev pub sections_file : File
sections_file = file_of (encode_all two_sections) 11

-- A section that ends too early.
abbrev pub short_file : File
short_file = file_of (0 ∷ 0x10 ∷ 5 ∷ 0 ∷ 1 ∷ []) 5

abbrev pub block_file : File
block_file = file_of (7 ∷ 8 ∷ 9 ∷ []) 3

abbrev pub world : World
world = record {
  file = λ _. sections_file;
  creates = λ _. true;
  buffer_given = true;
  write_fails = false;
  symbol_file = λ _. none;
  port_calls = record {
    socket = some 3;
    bind_fails = false;
    listen_fails = false;
    setsockopt_fails = false;
    errno = 0;
  };
  locals = λ _. 0;
  ctype = ascii;
  loads = exact_loads;
}

-- An allocator that always gives memory.
abbrev pub strings : Platform (List ℕ)
strings = record {
  realloc = λ old new t. some t;
  below = λ n size. ltb (5 * n) (4 * size);
  above = λ n size. ltb (2 * size) (5 * n);
}

abbrev pub empty_line : CmdData
empty_line = record {
  cmdbuf = λ _. 0;
  cmdbuf_index = 0;
  stack_index = 0;
  stack = record {
    number_of_items_in_table = 0;
    array_size = 100;
    min_array_size = 100;
    allow_shrink = false;
    table = λ _. [];
  };
}

-- The line is full.
abbrev pub full_line : CmdData
full_line = record empty_line { cmdbuf = λ i. if ltb i 59 then 0x61 else 0; cmdbuf_index = 59 }

-- A reset leads to a NOP at 0x1000, with a break point behind it.
abbrev pub nop_mem : Memory
nop_mem = record {
  val = λ a. if a == 0x1000 then 0xea else if a == 0xfffd then 0x10 else 0;
  acc_r = λ _. false;
  acc_w = λ _. false;
  acc_b = λ a. a == 0x1001;
}

abbrev pub in_reset : Machine
in_reset = record { cpu = record boot_cpu { pc = 0; p_rst = true }; mem = nop_mem }

abbrev pub session : Machine → Bool → Session
session m enabled = record {
  watch1 = watch_init false false true;
  watch2 = watch_init true true false;
  machine = m;
  symbol_table = no_symbols;
  uart = record uart_connected { enabled = enabled };
  invert_mouse_scroll = false;
  addr = 0;
}

abbrev zero_entry : HistEntry
zero_entry = record { cpu = boot_cpu; opcode = 0; operand1 = 0; operand2 = 0; operand3 = 0 }

-- Thirty-nine entries, and forty with the oldest one at 7.
abbrev pub filling : Hist
filling = record { entry_count = 39; entry_start = 0; entries = λ _. zero_entry }

abbrev pub rotated : Hist
rotated = record { entry_count = 40; entry_start = 7; entries = λ _. zero_entry }

pub rotated-HistOk : HistOk rotated
rotated-HistOk = ground arith

abbrev pub running : Machine → Bool → Ui
running m enabled = record {
  session = session m enabled;
  cmd_data = empty_line;
  inst_hist = filling;
  in_run_mode = true;
  run_mode_step_count = 9462;
  prev_c = none;
  cmd_exit = false;
  win_msg = false;
}

pub in_reset-Passes : (j : ℕ) → j < 1 → Passes (run (suc j) in_reset)
unfolding run step_cpu get_mem_word test_mem_flags cpu_get_effective_pc
in_reset-Passes zero l = (refl, refl)
in_reset-Passes (suc j) l = absurd (omega arith)

pub in_reset-breaks : at_break (run 2 in_reset) ≡ true
unfolding run step_cpu run_instruction dispatch decode get_mem_byte get_mem_word
    cpu_get_effective_pc execute plain_op i_nop cpu_update_pc handle_interrupts test_mem_flags
in_reset-breaks = refl

pub irq_set-Plain : Plain (codes "irq set")
irq_set-Plain = ground arith

pub reads_1000 : is_addr_do_parse (codes "1000") no_symbols ≡ some 0x1000
unfolding is_addr_do_parse st_resolve_by_ident ht_sget ht_get ht_hash_string scan strtoul
reads_1000 = refl

-- The state after a round in which the UART takes a byte.
abbrev pub served_ui : Ui
served_ui =
    keep_key none
      (check_status none (serve_uart one_byte_in (check_break (run_mode (running in_reset true)))))

pub served_ui-round : round world strings none one_byte_in (running in_reset true) ≡ some served_ui
unfolding round
served_ui-round = refl

pub served_ui-enabled : served_ui.session.uart.enabled ≡ true
served_ui-enabled =
    let v = serve_uart one_byte_in (check_break (run_mode (running in_reset true))) in
    ap (λ (s : Session). s.uart.enabled) (keeps_session none v)
    ∙ served-enabled one_byte_in (running in_reset true)

-- Every file holds `t`.
abbrev pub world_with : List ℕ → World
world_with t = record world { file = λ _. written given t }

pub saves_boot :
    (cmd_save world (codes "cpu" ∷ codes "saved" ∷ []) (session boot false)).saved
    ≡ some (text (tostr_cpu boot.cpu))
unfolding cmd_save
saves_boot = refl
