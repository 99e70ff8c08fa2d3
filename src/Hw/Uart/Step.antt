-- ===== src/Hw/Uart/Step.antt =====
-- src/hw/16C750.c: step_16c750, a part of its body at a time.
use ce.Base.{
  Option, ℕ, ◌+◌, ◌/◌, ◌%◌, ◌^◌, u32, bit, bit_and, bit_or, Bool, true, false, ◌&&◌, ◌||◌, not,
  ◌==◌, leb, if◌then◌else◌, none, some, List, [], ◌∷◌, ◌++◌,
}
use ce.Cpu.State.{Memory}
use ce.Cpu.Memory.{byte_at, store}
use ce.Cpu.Memory.Arrays.{reset_mem_flags}
use ce.Hw.CircBuf.{
  CircBuf, init_circ_buf, circ_buf_is_full, circ_buf_is_empty, circ_buf_push, circ_buf_pop,
  circ_buf_peek, circ_buf_peek_prev,
}
use ce.Hw.Uart.{
  Uart, Socket, ReadResult, got, again, finished, failed, set_reg, tl_ier, tl_iir, tl_fcr, tl_lcr,
  tl_mcr, tl_lsr, tl_msr, tl_dll, tl_dlm,
}

-- The UART, the memory, the locals `irq` and `sock_closed`, and the bytes sent.
pub record Pass : Type 0 where
  pub uart : Uart
  pub mem : Memory
  pub irq : Bool
  pub sock_closed : Bool
  pub sent : List ℕ

abbrev pub is_open : Option ℕ → Bool
is_open none = false
is_open (some _) = true

abbrev pub connected : Uart → Bool
connected uart = is_open uart.data_socket

-- `uart->addr + offset`.
abbrev pub reg_addr : Uart → ℕ → ℕ
reg_addr uart offset = u32 (uart.addr + offset)

-- `_get_mem_byte(mem, uart->addr + offset, false)` and `_set_mem_byte`.
abbrev pub peek : Pass → ℕ → ℕ
peek p offset = byte_at p.mem (reg_addr p.uart offset)

abbrev pub poke : ℕ → ℕ → Pass → Pass
poke offset v p = record p { mem = store (reg_addr p.uart offset) v p.mem }

abbrev pub keep_reg : ℕ → ℕ → Pass → Pass
keep_reg i v p = record p { uart = set_reg i v p.uart }

-- The flag R or W of the address, and the memory after its reset.
abbrev pub was_read : Pass → ℕ → Bool
was_read p offset = p.mem.acc_r (reg_addr p.uart offset)

abbrev pub was_written : Pass → ℕ → Bool
was_written p offset = p.mem.acc_w (reg_addr p.uart offset)

abbrev pub clear_read : ℕ → Pass → Pass
clear_read offset p = record p { mem = reset_mem_flags (reg_addr p.uart offset) 0x01 p.mem }

abbrev pub clear_written : ℕ → Pass → Pass
clear_written offset p = record p { mem = reset_mem_flags (reg_addr p.uart offset) 0x02 p.mem }

unfoldable pub accept_connection : Socket → Pass → Pass
accept_connection sock p =
    if connected p.uart
    then p
    else record p { uart = record p.uart { data_socket = sock.accepted } }

-- What `read` gave: a byte for the buffer, an error, or nothing to do.
unfoldable pub take_byte : ReadResult → Pass → Pass
take_byte (got c) p = record p {
  uart = record p.uart { rx_buf = (circ_buf_push p.uart.rx_buf c).1 };
}
take_byte failed p = record p { sock_closed = true }
take_byte again p = p
take_byte finished p = p

-- A byte is read only if there is room for it.
unfoldable pub receive_byte : Socket → Pass → Pass
unfolding take_byte
receive_byte sock p =
    if connected p.uart && not (circ_buf_is_full p.uart.rx_buf)
    then take_byte sock.incoming p
    else p

-- IER, LCR, MCR, and the transmitter's edge.
unfoldable pub copy_registers : Pass → Pass
copy_registers p0 =
    let p1 = keep_reg tl_ier (peek p0 1) p0 in
    let p2 = keep_reg tl_lcr (peek p1 3) p1 in
    let p3 = keep_reg tl_mcr (peek p2 4) p2 in
    let p4 = clear_read 2 p3 in
    if was_read p3 2 then record p4 { uart = record p4.uart { tx_empty_edge = false } } else p4

-- One divisor latch: stored if the processor wrote it, else shown.
unfoldable pub divisor_latch : ℕ → ℕ → Pass → Pass
divisor_latch i offset p =
    let q = clear_written offset p in
    if was_written p offset then keep_reg i (peek q offset) q else poke offset (q.uart.regs i) q

-- A byte written to THR: looped back, or sent.
unfoldable pub transmit_byte : Socket → Pass → Pass
transmit_byte sock p0 =
    let p = record p0 { uart = record p0.uart { tx_empty_edge = false } } in
    let q =
      if bit (p.uart.regs tl_mcr) 4
      then (if circ_buf_is_full p.uart.rx_buf then p else record p {
        uart = record p.uart { rx_buf = (circ_buf_push p.uart.rx_buf (peek p 0)).1 };
      })
      else if connected p.uart && not p.sock_closed
      then record p {
        sock_closed = sock.send_fails;
        sent = if sock.send_fails then p.sent else p.sent ++ peek p 0 ∷ [];
      }
      else p in
    if circ_buf_is_empty q.uart.tx_buf
    then record q { uart = record q.uart { tx_empty_edge = true } }
    else q

-- THR.
unfoldable pub check_thr : Socket → Pass → Pass
check_thr sock p = let q = clear_written 0 p in if was_written p 0 then transmit_byte sock q else q

-- What RBR shows: the oldest byte, or the one read last.
unfoldable pub shown_byte : CircBuf → ℕ
shown_byte b =
    if circ_buf_is_empty b
    then (circ_buf_peek_prev b).1
    else elim (circ_buf_peek b).1 [ none ↦ 0 | some c ↦ c ]

unfoldable pub show_rbr : Pass → Pass
show_rbr p = poke 0 (shown_byte p.uart.rx_buf) p

-- A read of RBR takes the byte off the buffer.
unfoldable pub check_rbr : Pass → Pass
check_rbr p =
    let q = clear_read 0 p in
    if was_read p 0
    then record q { uart = record q.uart { rx_buf = (circ_buf_pop q.uart.rx_buf).2 } }
    else q

unfoldable pub data_registers : Socket → Pass → Pass
data_registers sock p =
    if bit (p.uart.regs tl_lcr) 7
    then divisor_latch tl_dlm 1 (divisor_latch tl_dll 0 p)
    else check_rbr (show_rbr (check_thr sock p))

-- FCR: its bits FIFOEN, RXFRST and TXFRST.
unfoldable pub reset_fifos : ℕ → Uart → Uart
reset_fifos fcr uart =
    if bit fcr 0
    then record uart { rx_buf = init_circ_buf uart.rx_buf; tx_buf = init_circ_buf uart.tx_buf }
    else if bit fcr 1
    then record uart { rx_buf = init_circ_buf uart.rx_buf }
    else if bit fcr 2
    then record uart { tx_buf = init_circ_buf uart.tx_buf }
    else uart

unfoldable pub check_fcr : Pass → Pass
check_fcr p =
    let q = clear_written 2 p in
    if was_written p 2
    then (let r = keep_reg tl_fcr (peek q 2) q in
        record r { uart = reset_fifos (r.uart.regs tl_fcr) r.uart })
    else q

-- LSR: DR by the receiver, THRE and TEMT by the transmitter, the errors clear.
unfoldable pub line_status : Uart → ℕ
line_status uart =
    let dr =
      if circ_buf_is_empty uart.rx_buf
      then bit_and (uart.regs tl_lsr) 0xfe
      else bit_or (uart.regs tl_lsr) 0x01 in
    let thre = if circ_buf_is_empty uart.tx_buf then bit_or dr 0x60 else bit_and dr 0x9f in
    bit_and thre 0x61

unfoldable pub update_lsr : Pass → Pass
update_lsr p = let v = line_status p.uart in poke 5 v (keep_reg tl_lsr v p)

-- `trigger_levels`, by the bit 64FEN and the two trigger bits.
unfoldable pub trigger_level : Bool → ℕ → ℕ
trigger_level false level =
    if level == 0 then 1 else if level == 1 then 4 else if level == 2 then 8 else 14
trigger_level true level =
    if level == 0 then 1 else if level == 1 then 16 else if level == 2 then 32 else 56

unfoldable pub data_ready : Uart → Bool
data_ready uart =
    let fcr = uart.regs tl_fcr in
    not (bit fcr 0) && not (circ_buf_is_empty uart.rx_buf)
    || bit fcr 0 && leb (trigger_level (bit fcr 5) (fcr / 2 ^ 6 % 2 ^ 2)) uart.rx_buf.count

-- Whether an interrupt is active.
unfoldable pub irq_active : Uart → Bool
irq_active uart =
    if data_ready uart
    then bit (uart.regs tl_ier) 0
    else if uart.tx_empty_edge
    then bit (uart.regs tl_ier) 1
    else false

-- The bits 1 and 2 of IIR.
unfoldable pub interrupt_id : Uart → ℕ
interrupt_id uart =
    let iir = uart.regs tl_iir in
    if data_ready uart
    then bit_or (bit_and iir 0xfb) 0x04
    else if uart.tx_empty_edge
    then bit_or (bit_and iir 0xfd) 0x02
    else bit_and iir 0xf9

-- The bits 5 to 7 of IIR.
unfoldable pub fifo_mode : ℕ → ℕ → ℕ
fifo_mode fcr iir =
    if bit fcr 0
    then (let v = bit_or iir 0xc0 in if bit fcr 5 then bit_or v 0x20 else bit_and v 0xdf)
    else bit_and iir 0x1f

unfoldable pub update_iir : Pass → Pass
update_iir p =
    let active = irq_active p.uart in
    let v = fifo_mode (p.uart.regs tl_fcr) (interrupt_id p.uart) in
    let iir = if active then bit_and v 0xfe else bit_or v 0x01 in
    poke 2 iir (keep_reg tl_iir iir (record p { irq = active }))

unfoldable pub update_msr : Pass → Pass
update_msr p =
    let msr = p.uart.regs tl_msr in
    let v = if connected p.uart then bit_or msr 0x80 else bit_and msr 0x7f in
    poke 6 v (keep_reg tl_msr v p)

unfoldable pub close_socket : Pass → Pass
close_socket p =
    if p.sock_closed then record p { uart = record p.uart { data_socket = none } } else p

unfoldable pub first_pass : Uart → Memory → Pass
first_pass uart mem = record { uart = uart; mem = mem; irq = false; sock_closed = false; sent = [] }

unfoldable pub step_16c750 : Socket → Uart → Memory → Pass
step_16c750 sock uart mem =
    let p1 = copy_registers (receive_byte sock (accept_connection sock (first_pass uart mem))) in
    let p2 = check_fcr (data_registers sock p1) in
    close_socket (update_msr (update_iir (update_lsr p2)))
