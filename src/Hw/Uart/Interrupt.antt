-- ===== src/Hw/Uart/Interrupt.antt =====
-- The status registers that step_16c750 (src/hw/16C750.c) shows to the processor, and its result.
use ce.Base.{
  ℕ, Option, none, ◌≡◌, u8, bit, bit_and, bit_or, Bool, true, false, ◌&&◌, ◌||◌, not, if◌then◌else◌,
  refl, ap, ◌∙◌, arith,
}
use ce.Base.Bits.{bit-bit_and, bit-bit_or, bit_and-low_byte}
use ce.Cpu.State.{Memory}
use ce.Cpu.Memory.{update, byte_at}
use ce.Hw.CircBuf.{circ_buf_is_empty}
use ce.Hw.Uart.{Uart, Socket, set_reg, tl_iir, tl_fcr, tl_lsr, tl_msr}
use ce.Hw.Uart.Step.{
  Pass, connected, reg_addr, first_pass, accept_connection, receive_byte, copy_registers,
  data_registers, check_fcr, line_status, update_lsr, data_ready, irq_active, interrupt_id,
  fifo_mode, update_iir, update_msr, close_socket, step_16c750,
}

bit-u8 : (x k : ℕ) → bit 0xff k ≡ true → bit (u8 (u8 x)) k ≡ bit x k
bit-u8 x k e =
    let f : u8 (u8 x) ≡ bit_and x 0xff = omega (arith, bit_and-low_byte x) in
    ap (λ (t : ℕ). bit t k) f ∙ grind (arith, bit-bit_and k x 0xff)

-- A bit that is cleared or set by a test, and one that both masks keep.
cleared_or_set :
    (b : Bool) (k x clear set : ℕ)
    → bit clear k ≡ false
    → bit set k ≡ true
    → bit (if b then bit_and x clear else bit_or x set) k ≡ not b
cleared_or_set true k x clear set e f = bit-bit_and k x clear ∙ grind arith
cleared_or_set false k x clear set e f = bit-bit_or k x set ∙ grind arith

untouched :
    (b : Bool) (k x clear set : ℕ)
    → bit clear k ≡ true
    → bit set k ≡ false
    → bit (if b then bit_and x clear else bit_or x set) k ≡ bit x k
untouched true k x clear set e f = bit-bit_and k x clear ∙ grind arith
untouched false k x clear set e f = bit-bit_or k x set ∙ grind arith

masked : (k x m : ℕ) → bit m k ≡ true → bit (bit_and x m) k ≡ bit x k
masked k x m e = bit-bit_and k x m ∙ grind arith

set_or_cleared :
    (b : Bool) (k x clear set : ℕ)
    → bit clear k ≡ false
    → bit set k ≡ true
    → bit (if b then bit_or x set else bit_and x clear) k ≡ b
set_or_cleared true k x clear set e f = bit-bit_or k x set ∙ grind arith
set_or_cleared false k x clear set e f = bit-bit_and k x clear ∙ grind arith

still :
    (b : Bool) (k x clear set : ℕ)
    → bit clear k ≡ true
    → bit set k ≡ false
    → bit (if b then bit_or x set else bit_and x clear) k ≡ bit x k
still true k x clear set e f = bit-bit_or k x set ∙ grind arith
still false k x clear set e f = bit-bit_and k x clear ∙ grind arith

-- The bits of LSR.
line_status-bits :
    (u : Uart)
    → (bit (line_status u) 0 ≡ not (circ_buf_is_empty u.rx_buf))
      × (bit (line_status u) 5 ≡ circ_buf_is_empty u.tx_buf)
      × (bit (line_status u) 6 ≡ circ_buf_is_empty u.tx_buf)
unfolding line_status
line_status-bits u =
    let er = circ_buf_is_empty u.rx_buf in
    let et = circ_buf_is_empty u.tx_buf in
    let l = u.regs tl_lsr in
    let d = if er then bit_and l 0xfe else bit_or l 0x01 in
    let t = if et then bit_or d 0x60 else bit_and d 0x9f in
    (
      masked 0 t 0x61 refl
          ∙ still et 0 d 0x9f 0x60 refl refl
          ∙ cleared_or_set er 0 l 0xfe 0x01 refl refl,
      masked 5 t 0x61 refl ∙ set_or_cleared et 5 d 0x9f 0x60 refl refl,
      masked 6 t 0x61 refl ∙ set_or_cleared et 6 d 0x9f 0x60 refl refl,
    )

-- What update_lsr and update_iir leave to the parts after them.
update_lsr-keeps :
    (p : Pass)
    → let q = update_lsr p in
      (q.mem.val (reg_addr p.uart 5) ≡ u8 (line_status p.uart))
      × (q.uart.rx_buf ≡ p.uart.rx_buf)
      × (q.uart.tx_buf ≡ p.uart.tx_buf)
      × (q.uart.addr ≡ p.uart.addr)
unfolding update_lsr update
update_lsr-keeps p = ground arith

update-same : (f : ℕ → ℕ) (a v : ℕ) → update f a v a ≡ v
unfolding update
update-same f a v = ground arith

unfoldable iir_value : Uart → ℕ
iir_value u =
    let v = fifo_mode (u.regs tl_fcr) (interrupt_id u) in
    if irq_active u then bit_and v 0xfe else bit_or v 0x01

irq_active-set_iir : (v : ℕ) (u : Uart) → irq_active (set_reg tl_iir v u) ≡ irq_active u
unfolding irq_active data_ready update
irq_active-set_iir v u = refl

irq_active-set_msr : (v : ℕ) (u : Uart) → irq_active (set_reg tl_msr v u) ≡ irq_active u
unfolding irq_active data_ready update
irq_active-set_msr v u = refl

irq_active-data_socket :
    (s : Option ℕ) (u : Uart) → irq_active (record u { data_socket = s }) ≡ irq_active u
unfolding irq_active data_ready
irq_active-data_socket s u = refl

update_iir-keeps :
    (p : Pass)
    → let q = update_iir p in
      (q.irq ≡ irq_active p.uart)
      × (irq_active q.uart ≡ irq_active p.uart)
      × (q.mem.val (reg_addr p.uart 2) ≡ u8 (iir_value p.uart))
      × (q.mem.val (reg_addr p.uart 5) ≡ p.mem.val (reg_addr p.uart 5))
      × (q.uart.rx_buf ≡ p.uart.rx_buf)
      × (q.uart.tx_buf ≡ p.uart.tx_buf)
      × (q.uart.addr ≡ p.uart.addr)
unfolding update_iir update iir_value
update_iir-keeps p =
    let e = irq_active-set_iir (iir_value p.uart) p.uart in
    let a = reg_addr p.uart 2 in
    (refl, e, update-same p.mem.val a (u8 (iir_value p.uart)), ground arith, refl, refl, refl)

iir_value-bit : (u : Uart) → bit (iir_value u) 0 ≡ not (irq_active u)
unfolding iir_value
iir_value-bit u =
    cleared_or_set (irq_active u) 0 (fifo_mode (u.regs tl_fcr) (interrupt_id u)) 0xfe 0x01 refl refl

update_msr-keeps :
    (p : Pass)
    → let q = update_msr p in
      (q.irq ≡ p.irq)
      × (irq_active q.uart ≡ irq_active p.uart)
      × (q.mem.val (reg_addr p.uart 2) ≡ p.mem.val (reg_addr p.uart 2))
      × (q.mem.val (reg_addr p.uart 5) ≡ p.mem.val (reg_addr p.uart 5))
      × (q.uart.rx_buf ≡ p.uart.rx_buf)
      × (q.uart.tx_buf ≡ p.uart.tx_buf)
      × (q.uart.addr ≡ p.uart.addr)
unfolding update_msr update
update_msr-keeps p =
    let msr = p.uart.regs tl_msr in
    let v = if connected p.uart then bit_or msr 0x80 else bit_and msr 0x7f in
    (refl, irq_active-set_msr v p.uart, ground arith, ground arith, refl, refl, refl)

close_socket-keeps :
    (p : Pass)
    → let q = close_socket p in
      (q.irq ≡ p.irq)
      × (irq_active q.uart ≡ irq_active p.uart)
      × (q.mem ≡ p.mem)
      × (q.uart.rx_buf ≡ p.uart.rx_buf)
      × (q.uart.tx_buf ≡ p.uart.tx_buf)
      × (q.uart.addr ≡ p.uart.addr)
unfolding close_socket
close_socket-keeps p = ground (arith, irq_active-data_socket none p.uart)

status-bits :
    (p : Pass)
    → let q = close_socket (update_msr (update_iir (update_lsr p))) in
      let iir = byte_at q.mem (reg_addr q.uart 2) in
      let lsr = byte_at q.mem (reg_addr q.uart 5) in
      (q.irq ≡ irq_active q.uart)
      × (bit iir 0 ≡ not q.irq)
      × (bit lsr 0 ≡ not (circ_buf_is_empty q.uart.rx_buf))
      × (bit lsr 5 ≡ circ_buf_is_empty q.uart.tx_buf)
      × (bit lsr 6 ≡ circ_buf_is_empty q.uart.tx_buf)
status-bits p =
    let l = update_lsr-keeps p in
    let i = update_iir-keeps (update_lsr p) in
    let m = update_msr-keeps (update_iir (update_lsr p)) in
    let c = close_socket-keeps (update_msr (update_iir (update_lsr p))) in
    let b = line_status-bits p.uart in
    let v = iir_value-bit (update_lsr p).uart in
    let w = bit-u8 (iir_value (update_lsr p).uart) 0 refl in
    let b0 = bit-u8 (line_status p.uart) 0 refl in
    let b5 = bit-u8 (line_status p.uart) 5 refl in
    let b6 = bit-u8 (line_status p.uart) 6 refl in grind arith

-- After a call of step_16c750 its result is the interrupt condition of the UART that it leaves,
-- bit 0 of the byte at IIR is set exactly when there is no interrupt, bit 0 of the byte at LSR is set
-- exactly when a received byte waits, and its bits 5 and 6 are set exactly when the transmit
-- buffer is empty.
pub step_16c750-status :
    (sock : Socket) (uart : Uart) (mem : Memory)
    → let q = step_16c750 sock uart mem in
      let iir = byte_at q.mem (reg_addr q.uart 2) in
      let lsr = byte_at q.mem (reg_addr q.uart 5) in
      (q.irq ≡ irq_active q.uart)
      × (bit iir 0 ≡ not q.irq)
      × (bit lsr 0 ≡ not (circ_buf_is_empty q.uart.rx_buf))
      × (bit lsr 5 ≡ circ_buf_is_empty q.uart.tx_buf)
      × (bit lsr 6 ≡ circ_buf_is_empty q.uart.tx_buf)
unfolding step_16c750
step_16c750-status sock uart mem =
    let p = copy_registers (receive_byte sock (accept_connection sock (first_pass uart mem))) in
    status-bits (check_fcr (data_registers sock p))

-- The bits that name the source of an interrupt: bit 2 is set by received data and otherwise, if
-- the transmitter became empty, keeps its old value; bit 1 keeps its old value under received data,
-- and otherwise tells whether the transmitter became empty.
pub interrupt_id-bits :
    (u : Uart)
    → let old = u.regs tl_iir in
      (bit (interrupt_id u) 2 ≡ data_ready u || u.tx_empty_edge && bit old 2)
      × (bit (interrupt_id u) 1 ≡ (if data_ready u then bit old 1 else u.tx_empty_edge))
unfolding interrupt_id
interrupt_id-bits u =
    let old = u.regs tl_iir in
    ground (
      arith,
      bit-bit_or 2 (bit_and old 0xfb) 0x04,
      bit-bit_or 1 (bit_and old 0xfb) 0x04,
      bit-bit_or 2 (bit_and old 0xfd) 0x02,
      bit-bit_or 1 (bit_and old 0xfd) 0x02,
      bit-bit_and 1 old 0xfb,
      bit-bit_and 2 old 0xfd,
      bit-bit_and 2 old 0xf9,
      bit-bit_and 1 old 0xf9,
    )
