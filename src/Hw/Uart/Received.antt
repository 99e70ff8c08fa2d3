-- ===== src/Hw/Uart/Received.antt =====
-- What one call of step_16c750 (src/hw/16C750.c) does to the bytes that wait in the receiver.
use ce.Base.{ℕ, ◌≡◌, bit, ◌||◌, if◌then◌else◌, List, ◌∷◌, u8, arith}
use ce.Cpu.State.{Memory}
use ce.Cpu.Memory.{update, byte_at}
use ce.Cpu.Memory.Arrays.{reset_mem_flags}
use ce.Hw.CircBuf.{circ_buf_peek}
use ce.Hw.CircBuf.Queue.{dequeue}
use ce.Hw.CircBuf.Refine.{contents, contents-head}
use ce.Hw.Uart.{Uart, Socket}
use ce.Hw.Uart.Step.{
  Pass, is_open, connected, reg_addr, first_pass, accept_connection, receive_byte, copy_registers,
  data_registers, check_rbr, show_rbr, shown_byte, check_fcr, step_16c750,
}
use ce.Hw.Uart.Parts.{
  check_rbr-without_read, without_read, after_data, after_fcr, after_copy-after_data,
  check_fcr-after_fcr, status-keeps,
}
use ce.Hw.Uart.Receive.{UartOk, with_byte, receive-with_byte}

-- The bytes that wait after a step: what the socket gave is added, unless the buffer is full; with
-- DLAB clear, a byte written to THR is added under loopback, and a read of RBR takes the oldest
-- byte off; a write of FCR with FIFOEN or RXFRST empties the queue.
unfoldable pub waiting : Socket → Uart → Memory → List ℕ
unfolding after_fcr after_data
waiting sock uart mem =
    let linked = connected uart || is_open sock.accepted in
    let q =
      if linked then with_byte sock.incoming (contents uart.rx_buf) else contents uart.rx_buf in
    let lcr = byte_at mem (reg_addr uart 3) in
    let mcr = byte_at mem (reg_addr uart 4) in
    after_fcr (mem.acc_w (reg_addr uart 2)) (byte_at mem (reg_addr uart 2)) (
      after_data (bit lcr 7) (mem.acc_w (reg_addr uart 0)) (bit mcr 4) (mem.acc_r (reg_addr uart 0))
        (byte_at mem (reg_addr uart 0)) q)

-- The receive buffer of the UART after a call of step_16c750 holds the queue that `waiting` gives
-- from the queue before, the socket and the processor's accesses; both buffers stay valid and the
-- transmit buffer stays empty.
pub step_16c750-waiting :
    (sock : Socket) (uart : Uart) (mem : Memory)
    → UartOk uart
    → let u = (step_16c750 sock uart mem).uart in
      (contents u.rx_buf ≡ waiting sock uart mem) × UartOk u
unfolding step_16c750 waiting
step_16c750-waiting sock uart mem ok =
    let p = receive_byte sock (accept_connection sock (first_pass uart mem)) in
    let a = receive-with_byte sock uart mem ok in
    let d = after_copy-after_data sock p a.0 in
    let f = check_fcr-after_fcr (data_registers sock (copy_registers p)) d.0 in
    let s = status-keeps (check_fcr (data_registers sock (copy_registers p))) in grind arith

-- With bytes waiting, the part of the step that serves RBR shows the oldest one, and only then takes
-- it off the queue if the processor read the register: after such a read the register still holds
-- the byte that was read, not the next one.
pub check_rbr-shown :
    (p : Pass) (c : ℕ) (q : List ℕ)
    → UartOk p.uart
    → contents p.uart.rx_buf ≡ c ∷ q
    → let r = check_rbr (show_rbr p) in
      (byte_at r.mem (reg_addr p.uart 0) ≡ u8 c)
      × (contents r.uart.rx_buf ≡ (if p.mem.acc_r (reg_addr p.uart 0) then q else c ∷ q))
unfolding check_rbr show_rbr shown_byte circ_buf_peek reset_mem_flags update dequeue without_read
check_rbr-shown p c q ok e =
    ground (arith, contents-head p.uart.rx_buf c q e, check_rbr-without_read (show_rbr p))
