-- ===== src/Hw/CircBuf.antt =====
-- src/hw/16C750.c: the circular buffers of the UART. A function that returns true has failed.
pub mod Queue
pub mod Refine
use ce.Base.{ℕ, ◌+◌, ◌-◌, u8, Bool, true, false, ◌==◌, if◌then◌else◌, Option, none, some}
use ce.Cpu.Memory.{update}

-- UART_FIFO_LEN
abbrev pub fifo_len : ℕ
fifo_len = 64

-- `tl_circ_buf_t`; `bytes` is its array `data`.
pub record CircBuf : Type 0 where
  pub read : ℕ
  pub write : ℕ
  pub count : ℕ
  pub bytes : ℕ → ℕ

unfoldable pub init_circ_buf : CircBuf → CircBuf
init_circ_buf buf = record buf { read = 0; write = 0; count = 0 }

unfoldable pub circ_buf_is_full : CircBuf → Bool
circ_buf_is_full buf = buf.count == fifo_len

unfoldable pub circ_buf_is_empty : CircBuf → Bool
circ_buf_is_empty buf = buf.count == 0

-- An index of the array, one on.
abbrev pub next_index : ℕ → ℕ
next_index i = if i + 1 == fifo_len then 0 else i + 1

unfoldable pub circ_buf_push : CircBuf → ℕ → Bool × CircBuf
unfolding circ_buf_is_full
circ_buf_push buf c = if circ_buf_is_full buf then (true, buf) else (
  false,
  record buf {
    bytes = update buf.bytes buf.write (u8 c);
    write = next_index buf.write;
    count = buf.count + 1;
  },
)

-- The option is what is written to `*c`.
unfoldable pub circ_buf_pop : CircBuf → Bool × Option ℕ × CircBuf
unfolding circ_buf_is_empty
circ_buf_pop buf = if circ_buf_is_empty buf then (true, none, buf) else (
  false,
  some (buf.bytes buf.read),
  record buf { read = next_index buf.read; count = buf.count - 1 },
)

unfoldable pub circ_buf_peek : CircBuf → Bool × Option ℕ
unfolding circ_buf_is_empty
circ_buf_peek buf =
    if circ_buf_is_empty buf then (true, none) else (false, some (buf.bytes buf.read))

-- The byte before the next one to be read.
unfoldable pub circ_buf_peek_prev : CircBuf → Bool × ℕ
circ_buf_peek_prev buf = (false, buf.bytes (if buf.read == 0 then fifo_len - 1 else buf.read - 1))
