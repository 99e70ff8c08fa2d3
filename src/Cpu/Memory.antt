-- ===== src/Cpu/Memory.antt =====
-- src/cpu/65816-util.c: reads and writes of the system memory, and the access flags.
-- A cell is a uint8_t, so what is read is below 2 ^ 8 whatever `val` holds.
pub mod Arrays
pub mod RoundTrip
use ce.Base.{ℕ, ◌+◌, ◌*◌, ◌/◌, ◌%◌, ◌^◌, u8, u32, Bool, true, ◌==◌, if◌then◌else◌}
use ce.Cpu.State.{Memory}
use ce.Cpu.Monad.{M, Act, ◌>>=◌, ◌>>◌, return}

-- `a[i] = v` on an array.
unfoldable pub update {ℓ} : {A : Type ℓ} → (ℕ → A) → ℕ → A → ℕ → A
update f i v j = if j == i then v else f j

unfoldable pub addr_add_val_page_wrap : ℕ → ℕ → ℕ
addr_add_val_page_wrap addr offset = addr / 2 ^ 8 % 2 ^ 16 * 2 ^ 8 + u32 (addr + offset) % 2 ^ 8

unfoldable pub addr_add_val_bank_wrap : ℕ → ℕ → ℕ
addr_add_val_bank_wrap addr offset = addr / 2 ^ 16 % 2 ^ 8 * 2 ^ 16 + u32 (addr + offset) % 2 ^ 16

-- The byte at an address.
abbrev pub byte_at : Memory → ℕ → ℕ
byte_at mem addr = u8 (mem.val addr)

abbrev pub set_r : Bool → ℕ → Memory → Memory
set_r setacc addr mem = record mem {
  acc_r = if setacc then update mem.acc_r addr true else mem.acc_r;
}

abbrev pub set_w : Bool → ℕ → Memory → Memory
set_w setacc addr mem = record mem {
  acc_w = if setacc then update mem.acc_w addr true else mem.acc_w;
}

abbrev pub store : ℕ → ℕ → Memory → Memory
store addr v mem = record mem { val = update mem.val addr (u8 v) }

unfoldable pub get_mem_byte : ℕ → Bool → M ℕ
get_mem_byte addr setacc s = (byte_at s.mem addr, record s { mem = set_r setacc addr s.mem })

-- `(addr + 1) & 0x00ffffff`
abbrev pub next_addr : ℕ → ℕ
next_addr addr = u32 (addr + 1) % 2 ^ 24

unfoldable pub get_mem_word : ℕ → Bool → M ℕ
get_mem_word addr setacc s = (
  byte_at s.mem addr + byte_at s.mem (next_addr addr) * 2 ^ 8,
  record s { mem = set_r setacc (next_addr addr) (set_r setacc addr s.mem) },
)

unfoldable pub get_mem_word_page_wrap : ℕ → Bool → M ℕ
unfolding get_mem_byte addr_add_val_page_wrap
get_mem_word_page_wrap addr setacc = do
  val ← get_mem_byte addr setacc
  hi ← get_mem_byte (addr_add_val_page_wrap addr 1) setacc
  return (val + hi * 2 ^ 8)

unfoldable pub get_mem_word_bank_wrap : ℕ → Bool → M ℕ
unfolding get_mem_byte addr_add_val_bank_wrap
get_mem_word_bank_wrap addr setacc = do
  val ← get_mem_byte addr setacc
  hi ← get_mem_byte (addr_add_val_bank_wrap addr 1) setacc
  return (val + hi * 2 ^ 8)

unfoldable pub get_mem_long_bank_wrap : ℕ → Bool → M ℕ
unfolding get_mem_byte addr_add_val_bank_wrap
get_mem_long_bank_wrap addr setacc = do
  val ← get_mem_byte addr setacc
  hi ← get_mem_byte (addr_add_val_bank_wrap addr 1) setacc
  bank ← get_mem_byte (addr_add_val_bank_wrap addr 2) setacc
  return (val + hi * 2 ^ 8 + bank * 2 ^ 16)

unfoldable pub set_mem_byte : ℕ → ℕ → Bool → Act
set_mem_byte addr v setacc s = (tt, record s { mem = store addr v (set_w setacc addr s.mem) })

unfoldable pub set_mem_word : ℕ → ℕ → Bool → Act
set_mem_word addr v setacc s = (
  tt,
  record s {
    mem =
        store (next_addr addr) (v / 2 ^ 8)
          (store addr (v % 2 ^ 8) (set_w setacc (next_addr addr) (set_w setacc addr s.mem)));
  },
)

unfoldable pub set_mem_word_bank_wrap : ℕ → ℕ → Bool → Act
unfolding set_mem_byte addr_add_val_bank_wrap
set_mem_word_bank_wrap addr v setacc = do
  set_mem_byte addr v setacc
  set_mem_byte (addr_add_val_bank_wrap addr 1) (v / 2 ^ 8) setacc
