-- ===== src/Hw/Uart/Parts.antt =====
-- The parts of step_16c750 (src/hw/16C750.c), and what each does to the bytes that wait in the
-- receiver.
use ce.Base.{ℕ, ◌<◌, ◌≡◌, bit, Bool, true, ◌&&◌, ◌||◌, if◌then◌else◌, List, [], arith}
use ce.Cpu.State.{Memory}
use ce.Cpu.Memory.{update, byte_at}
use ce.Cpu.Memory.Arrays.{reset_mem_flags}
use ce.Hw.CircBuf.{init_circ_buf, circ_buf_is_full}
use ce.Hw.CircBuf.Queue.{enqueue, dequeue}
use ce.Hw.CircBuf.Refine.{
  contents, push_refines, pop_refines, circ_buf_push-CircBufOk, circ_buf_pop-CircBufOk,
  length-contents,
}
use ce.Hw.Uart.{Uart, Socket, tl_lcr, tl_mcr}
use ce.Hw.Uart.Step.{
  Pass, clear_written, reg_addr, copy_registers, divisor_latch, transmit_byte, check_thr, show_rbr,
  check_rbr, data_registers, reset_fifos, check_fcr, update_lsr, update_iir, update_msr,
  close_socket,
}
use ce.Hw.Uart.Receive.{UartOk}

-- What the later parts of the step read: flags and bytes of the addresses at the offsets 0 and 2.
record SameInputs (m m' : Memory) (a b : ℕ) : Type 0 where
  same_w : m'.acc_w b ≡ m.acc_w b
  same_val : m'.val b ≡ m.val b
  start_r : m'.acc_r a ≡ m.acc_r a

copy_registers-keeps :
    (p : Pass)
    → let q = copy_registers p in
      (q.uart.rx_buf ≡ p.uart.rx_buf)
      × (q.uart.tx_buf ≡ p.uart.tx_buf)
      × (q.uart.addr ≡ p.uart.addr)
      × (q.mem.val ≡ p.mem.val)
      × (q.mem.acc_w (reg_addr p.uart 0) ≡ p.mem.acc_w (reg_addr p.uart 0))
      × (q.mem.acc_w (reg_addr p.uart 2) ≡ p.mem.acc_w (reg_addr p.uart 2))
      × (q.mem.acc_r (reg_addr p.uart 0) ≡ p.mem.acc_r (reg_addr p.uart 0))
      × (q.uart.regs tl_lcr ≡ byte_at p.mem (reg_addr p.uart 3))
      × (q.uart.regs tl_mcr ≡ byte_at p.mem (reg_addr p.uart 4))
unfolding copy_registers reset_mem_flags update
copy_registers-keeps p = ground arith

-- The queue after a byte that the processor may have written to THR, with loopback or without.
unfoldable pub with_loop : Bool → Bool → ℕ → List ℕ → List ℕ
with_loop written loop c q = if written && loop then (enqueue q c).1 else q

-- The queue after a read of RBR, if there was one.
unfoldable pub without_read : Bool → List ℕ → List ℕ
without_read was q = if was then (dequeue q).2 else q

transmit_byte-with_loop :
    (sock : Socket) (p : Pass)
    → UartOk p.uart
    → let q = transmit_byte sock p in
      UartOk q.uart
      × (contents q.uart.rx_buf
          ≡ with_loop true
              (bit (p.uart.regs tl_mcr) 4)
              (byte_at p.mem (reg_addr p.uart 0))
              (contents p.uart.rx_buf))
      × (q.uart.addr ≡ p.uart.addr)
      × (q.mem ≡ p.mem)
unfolding transmit_byte with_loop enqueue circ_buf_is_full
transmit_byte-with_loop sock p ok =
    let c = byte_at p.mem (reg_addr p.uart 0) in
    ground (
      arith,
      push_refines p.uart.rx_buf c,
      circ_buf_push-CircBufOk p.uart.rx_buf c,
      length-contents p.uart.rx_buf,
    )

check_thr-with_loop :
    (sock : Socket) (p : Pass)
    → UartOk p.uart
    → let q = check_thr sock p in
      UartOk q.uart
      × (contents q.uart.rx_buf
          ≡ with_loop
              (p.mem.acc_w (reg_addr p.uart 0))
              (bit (p.uart.regs tl_mcr) 4)
              (byte_at p.mem (reg_addr p.uart 0))
              (contents p.uart.rx_buf))
      × (q.uart.addr ≡ p.uart.addr)
      × SameInputs p.mem q.mem (reg_addr p.uart 0) (reg_addr p.uart 2)
unfolding check_thr reset_mem_flags update with_loop
check_thr-with_loop sock p ok = ground (arith, transmit_byte-with_loop sock (clear_written 0 p))

show_rbr-keeps :
    (p : Pass)
    → let q = show_rbr p in
      (q.uart ≡ p.uart) × SameInputs p.mem q.mem (reg_addr p.uart 0) (reg_addr p.uart 2)
unfolding show_rbr update
show_rbr-keeps p = ground arith

pub check_rbr-without_read :
    (p : Pass)
    → UartOk p.uart
    → let q = check_rbr p in
      UartOk q.uart
      × (contents q.uart.rx_buf
          ≡ without_read (p.mem.acc_r (reg_addr p.uart 0)) (contents p.uart.rx_buf))
      × (q.uart.addr ≡ p.uart.addr)
      × (q.mem.acc_w (reg_addr p.uart 2) ≡ p.mem.acc_w (reg_addr p.uart 2))
      × (q.mem.val ≡ p.mem.val)
unfolding check_rbr reset_mem_flags update without_read
check_rbr-without_read p ok =
    ground (arith, pop_refines p.uart.rx_buf, circ_buf_pop-CircBufOk p.uart.rx_buf)

divisor_latch-keeps :
    (i offset : ℕ) (p : Pass)
    → offset < 2
    → let q = divisor_latch i offset p in
      (q.uart.rx_buf ≡ p.uart.rx_buf)
      × (q.uart.tx_buf ≡ p.uart.tx_buf)
      × (q.uart.addr ≡ p.uart.addr)
      × (q.mem.acc_w (reg_addr p.uart 2) ≡ p.mem.acc_w (reg_addr p.uart 2))
      × (q.mem.val (reg_addr p.uart 2) ≡ p.mem.val (reg_addr p.uart 2))
unfolding divisor_latch reset_mem_flags update
divisor_latch-keeps i offset p h = ground arith

-- What the registers at the offsets 0 and 1 do with the queue, by DLAB.
unfoldable pub after_data : Bool → Bool → Bool → Bool → ℕ → List ℕ → List ℕ
unfolding with_loop without_read
after_data dlab written loop was_read c q =
    if dlab then q else without_read was_read (with_loop written loop c q)

data_registers-after_data :
    (sock : Socket) (p : Pass)
    → UartOk p.uart
    → let q = data_registers sock p in
      UartOk q.uart
      × (contents q.uart.rx_buf
          ≡ after_data
              (bit (p.uart.regs tl_lcr) 7)
              (p.mem.acc_w (reg_addr p.uart 0))
              (bit (p.uart.regs tl_mcr) 4)
              (p.mem.acc_r (reg_addr p.uart 0))
              (byte_at p.mem (reg_addr p.uart 0))
              (contents p.uart.rx_buf))
      × (q.uart.addr ≡ p.uart.addr)
      × (q.mem.acc_w (reg_addr p.uart 2) ≡ p.mem.acc_w (reg_addr p.uart 2))
      × (q.mem.val (reg_addr p.uart 2) ≡ p.mem.val (reg_addr p.uart 2))
unfolding data_registers after_data
data_registers-after_data sock p ok =
    let a = check_thr-with_loop sock p ok in
    let b = show_rbr-keeps (check_thr sock p) in
    let d = divisor_latch-keeps 10 0 p (omega arith) in
    ground (
      arith,
      check_rbr-without_read (show_rbr (check_thr sock p)),
      divisor_latch-keeps 11 1 (divisor_latch 10 0 p),
    )

-- The queue after a write of FCR, if there was one.
unfoldable pub after_fcr : Bool → ℕ → List ℕ → List ℕ
after_fcr written fcr q = if written && (bit fcr 0 || bit fcr 1) then [] else q

pub check_fcr-after_fcr :
    (p : Pass)
    → UartOk p.uart
    → let q = check_fcr p in
      UartOk q.uart
      × (contents q.uart.rx_buf
          ≡ after_fcr
              (p.mem.acc_w (reg_addr p.uart 2))
              (byte_at p.mem (reg_addr p.uart 2))
              (contents p.uart.rx_buf))
unfolding check_fcr reset_fifos reset_mem_flags update after_fcr init_circ_buf
check_fcr-after_fcr p ok = ground arith

pub status-keeps :
    (p : Pass)
    → let q = close_socket (update_msr (update_iir (update_lsr p))) in
      (q.uart.rx_buf ≡ p.uart.rx_buf) × (q.uart.tx_buf ≡ p.uart.tx_buf)
unfolding close_socket update_msr update_iir update_lsr
status-keeps p = ground arith

pub same_buffers-UartOk :
    (u v : Uart) → v.rx_buf ≡ u.rx_buf → v.tx_buf ≡ u.tx_buf → UartOk u → UartOk v
same_buffers-UartOk u v e e' ok = ground arith

pub after_copy-after_data :
    (sock : Socket) (p : Pass)
    → UartOk p.uart
    → let q = data_registers sock (copy_registers p) in
      UartOk q.uart
      × (contents q.uart.rx_buf
          ≡ after_data
              (bit (byte_at p.mem (reg_addr p.uart 3)) 7)
              (p.mem.acc_w (reg_addr p.uart 0))
              (bit (byte_at p.mem (reg_addr p.uart 4)) 4)
              (p.mem.acc_r (reg_addr p.uart 0))
              (byte_at p.mem (reg_addr p.uart 0))
              (contents p.uart.rx_buf))
      × (q.uart.addr ≡ p.uart.addr)
      × (q.mem.acc_w (reg_addr p.uart 2) ≡ p.mem.acc_w (reg_addr p.uart 2))
      × (q.mem.val (reg_addr p.uart 2) ≡ p.mem.val (reg_addr p.uart 2))
after_copy-after_data sock p ok =
    let b = copy_registers-keeps p in
    let d =
      data_registers-after_data sock (copy_registers p)
        (same_buffers-UartOk p.uart (copy_registers p).uart b.0 b.1 ok) in
    grind arith
