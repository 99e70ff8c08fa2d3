-- ===== src/Hw/Uart.antt =====
-- src/hw/16C750.c: the UART. The socket calls are a parameter: what they return in one call of
-- step_16c750 is a value of `Socket`.
pub mod Step
pub mod Receive
pub mod Parts
pub mod Received
pub mod Interrupt
pub mod Port
pub mod Enabled
use ce.Base.{ℕ, ◌+◌, u32, Bool, true, false, Option, none, List}
use ce.Cpu.State.{Memory}
use ce.Cpu.Memory.{update, byte_at, store}
use ce.Hw.CircBuf.{CircBuf, init_circ_buf}

-- `tl16c750_t` less its socket address and timeout. A descriptor below 0 is `none`.
pub record Uart : Type 0 where
  pub enabled : Bool
  pub addr : ℕ
  pub regs : ℕ → ℕ
  pub sock_fd : Option ℕ
  pub data_socket : Option ℕ
  pub rx_buf : CircBuf
  pub tx_buf : CircBuf
  pub tx_empty_edge : Bool

-- What `read` of one byte gives: the byte, nothing yet (EAGAIN, EWOULDBLOCK), the end of the
-- stream, or another error.
pub data ReadResult : Type 0 where
  got : ℕ → ReadResult
  again : ReadResult
  finished : ReadResult
  failed : ReadResult

pub record Socket : Type 0 where
  pub accepted : Option ℕ
  pub incoming : ReadResult
  pub send_fails : Bool

-- The indices into `regs`, `TL_…`.
abbrev pub tl_ier : ℕ
tl_ier = 2

abbrev pub tl_iir : ℕ
tl_iir = 3

abbrev pub tl_fcr : ℕ
tl_fcr = 4

abbrev pub tl_lcr : ℕ
tl_lcr = 5

abbrev pub tl_mcr : ℕ
tl_mcr = 6

abbrev pub tl_lsr : ℕ
tl_lsr = 7

abbrev pub tl_msr : ℕ
tl_msr = 8

abbrev pub tl_dll : ℕ
tl_dll = 10

abbrev pub tl_dlm : ℕ
tl_dlm = 11

abbrev pub set_reg : ℕ → ℕ → Uart → Uart
set_reg i v uart = record uart { regs = update uart.regs i v }

unfoldable pub reset_16c750 : Uart → Uart
unfolding init_circ_buf update
reset_16c750 uart =
    let u = set_reg tl_ier 0 (
      set_reg tl_iir 1 (
        set_reg tl_fcr 0
          (set_reg tl_lcr 0 (set_reg tl_mcr 0 (set_reg tl_lsr 0x60 (set_reg tl_msr 0 uart)))))) in
    record u { rx_buf = init_circ_buf u.rx_buf; tx_buf = init_circ_buf u.tx_buf }

unfoldable pub init_16c750 : Uart → Uart
unfolding reset_16c750
init_16c750 uart = record (reset_16c750 uart) { sock_fd = none; data_socket = none }
