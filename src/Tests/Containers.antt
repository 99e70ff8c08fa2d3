-- ===== src/Tests/Containers.antt =====
-- Concrete buffers, stacks and tables for the tests.
use ce.Base.{
  ℕ, Bool, ◌+◌, ◌*◌, ◌==◌, ap, sym, ◌^◌, ◌≡◌, refl, ltb, leb, ◌&&◌, ◌||◌, true, false, none, some,
  Option, List, [], ◌∷◌, if◌then◌else◌, arith,
}
use ce.Cpu.State.{Memory, dpx, immd}
use ce.Cpu.Instr.{Instr, memory, bit, adc, direct_page_indexed_x, immediate}
use ce.Cpu.Decode.{decode}
use ce.Cpu.Memory.{byte_at}
use ce.Cpu.Registers.{cpu_get_effective_pc}
use ce.Tests.Machines.{boot}
use ce.Hw.CircBuf.{CircBuf}
use ce.Hw.CircBuf.Queue.{Op}
use ce.Hw.CircBuf.Refine.{CircBufOk}
use ce.Hw.Uart.{Uart, Socket, ReadResult}
use ce.Hw.Uart.Step.{Pass}
use ce.Hw.Uart.Receive.{UartOk}
use ce.Util.Stack.{Stack, Platform}
use ce.Util.Stack.Table.{PlatformOk, ArrayOk}
use ce.Util.Stack.Spec.{Call}
use ce.Util.Hashtable.{Table, LoadTests, no_slots}
use ce.Util.Hashtable.Slots.{TableOk}
use ce.Util.Hashtable.Rehash.{empty_table, empty_table-TableOk}
use ce.Util.Hashtable.Load.{LoadOk}
use ce.Util.Hashtable.Map
use ce.Debugger.Symbols.{Ctype, SymbolTable, Symbol, Loader, before_value, ok}
use ce.Debugger.Symbols.Values.{CtypeOk}
use ce.Debugger.Symbols.Enter.{SymbolsOk}

-- Three bytes, round the end of the array.
abbrev pub fifo : CircBuf
fifo = record { read = 62; write = 1; count = 3; bytes = λ i. i }

pub fifo-CircBufOk : CircBufOk fifo
fifo-CircBufOk = ground arith

abbrev pub fifo_ops : List Op
fifo_ops = Op.push 7 ∷ Op.pop ∷ Op.pop ∷ []

abbrev pub uart_connected : Uart
uart_connected = record {
  enabled = true;
  addr = 0x100;
  regs = λ _. 0;
  sock_fd = some 3;
  data_socket = some 4;
  rx_buf = fifo;
  tx_buf = record { read = 0; write = 0; count = 0; bytes = λ i. i };
  tx_empty_edge = true;
}

pub uart_connected-UartOk : UartOk uart_connected
uart_connected-UartOk = ground arith

-- The processor has read RBR and written FCR.
abbrev pub uart_mem : Memory
uart_mem = record {
  val = λ _. 0;
  acc_r = λ a. if a == 0x100 then true else false;
  acc_w = λ a. if a == 0x102 then true else false;
  acc_b = λ _. false;
}

abbrev pub one_byte_in : Socket
one_byte_in = record { accepted = none; incoming = ReadResult.got 0x41; send_fails = false }

abbrev pub uart_pass : Pass
uart_pass = record {
  uart = uart_connected;
  mem = uart_mem;
  irq = false;
  sock_closed = false;
  sent = [];
}

-- Exact quotients, and an allocator that keeps the array and refuses what is too large.
abbrev pub exact : Platform ℕ
exact = record {
  realloc = λ old new t. if ltb new (2 ^ 63) then some t else none;
  below = λ n size. ltb (5 * n) (4 * size);
  above = λ n size. ltb (2 * size) (5 * n);
}

granted :
    (b : Bool) (t t' : ℕ → ℕ)
    → (if b then some t else none) ≡ some t'
    → (i : ℕ) → (b ≡ true) × (t i ≡ t' i)
granted true t t' e i = (refl, ap (λ (o : Option (ℕ → ℕ)). elim o [ none ↦ t i | some f ↦ f i ]) e)
granted false t t' e i = absurd (none-some e)
  where
    none-some : ¬ (none ≡ some t')
    none-some q = ground arith

pub exact-PlatformOk : PlatformOk exact
exact-PlatformOk = record {
  keeps = λ old new t t' e i l m. sym (granted (ltb new (2 ^ 63)) t t' e i).1;
  fits = λ old new t t' e. (let g = (granted (ltb new (2 ^ 63)) t t' e 0).0 in ground arith);
  below_free = λ n size e. ground arith;
  above_half = λ n size e. ground arith;
}

abbrev pub two_items : Stack ℕ
two_items = record {
  number_of_items_in_table = 2;
  array_size = 4;
  min_array_size = 2;
  allow_shrink = true;
  table = λ i. i + 10;
}

pub two_items-ArrayOk : ArrayOk two_items
two_items-ArrayOk = ground arith

abbrev pub pop_call : Call ℕ
pop_call = Call.pop

abbrev pub exact_loads : LoadTests
exact_loads = record {
  overloaded = λ n size. ltb (6 * size) (5 * n);
  underloaded = λ n size. ltb (2 * n) size;
}

pub exact_loads-LoadOk : LoadOk exact_loads
exact_loads-LoadOk = record {
  room = λ n size l. ground arith;
  light = λ n size l e. ground arith;
  fewer = λ m n size l e. ground arith;
}

abbrev pub start_table : Table ℕ
start_table = record {
  number_of_items_in_table = 0;
  number_of_slots_used = 0;
  array_size = 8;
  table = no_slots;
}

pub start_table-TableOk : TableOk start_table
start_table-TableOk = empty_table-TableOk 8 (omega arith)

abbrev pub map_ops : List (Map.Op ℕ)
map_ops =
    Map.Op.put 3 30
    ∷ Map.Op.put 11 40
    ∷ Map.Op.get 11
    ∷ Map.Op.remove 3
    ∷ Map.Op.contains_key 3
    ∷ []

-- Eleven characters.
abbrev pub long_name : List ℕ
long_name = 97 ∷ 98 ∷ 99 ∷ 100 ∷ 101 ∷ 102 ∷ 103 ∷ 104 ∷ 105 ∷ 106 ∷ 107 ∷ []

abbrev between : ℕ → ℕ → ℕ → Bool
between a b c = leb a c && leb c b

-- ASCII in the C locale.
abbrev pub ascii : Ctype
ascii = record {
  isspace = λ c. c == 0x20 || between 0x09 0x0d c;
  isdigit = λ c. between 0x30 0x39 c;
  isxdigit = λ c. between 0x30 0x39 c || between 0x41 0x46 c || between 0x61 0x66 c;
  isalnum = λ c. between 0x30 0x39 c || between 0x41 0x5a c || between 0x61 0x7a c;
}

pub ascii-CtypeOk : CtypeOk ascii
ascii-CtypeOk = record {
  digit_range = λ c e. ground arith;
  digit_xdigit = λ c e. ground arith;
  digit_space = λ c e. ground arith;
  dollar_space = refl;
  newline_digit = refl;
  newline_xdigit = refl;
}

abbrev pub no_symbols : SymbolTable
no_symbols = record { by_ident = empty_table Symbol 8; by_addr = empty_table Symbol 8 }

pub no_symbols-SymbolsOk : SymbolsOk exact_loads no_symbols
no_symbols-SymbolsOk = record {
  ident_ok = empty_table-TableOk 8 (omega arith);
  addr_ok = empty_table-TableOk 8 (omega arith);
  ident_light = refl;
  addr_light = refl;
}

abbrev pub one_symbol : Symbol
one_symbol = record { ident = 97 ∷ 98 ∷ []; addr = 0x1f }

abbrev pub at_value : Loader
at_value = record {
  st = no_symbols;
  phase = before_value;
  ident = 97 ∷ 98 ∷ [];
  addr = 0;
  linenum = 1;
  done = false;
  err = ok;
}

abbrev pub bit_dpx : Instr
bit_dpx = memory bit 2 4 dpx direct_page_indexed_x

pub decode_34 : decode 0x34 ≡ some bit_dpx
unfolding decode
decode_34 = refl

pub boot-decode :
    decode (byte_at boot.mem (cpu_get_effective_pc boot.cpu)) ≡ some (memory adc 2 2 immd immediate)
unfolding decode cpu_get_effective_pc
boot-decode = refl
