-- ===== src/Hw/Uart/Enabled.antt =====
-- step_16c750 leaves the UART enabled or not as it is (src/hw/16C750.c).
use ce.Base.{◌≡◌, Bool, arith, ◌∙◌, Bool-cases, inl, inr, bit, ℕ}
use ce.Cpu.State.{Memory}
use ce.Hw.Uart.{Uart, Socket, tl_lcr, tl_dll, tl_dlm}
use ce.Hw.Uart.Step.{
  Pass, clear_written, accept_connection, take_byte, receive_byte, copy_registers, divisor_latch,
  transmit_byte, check_thr, show_rbr, check_rbr, data_registers, reset_fifos, check_fcr, update_lsr,
  update_iir, update_msr, close_socket, first_pass, step_16c750,
}

abbrev enabled : Pass → Bool
enabled p = p.uart.enabled

accept_connection-enabled :
    (sock : Socket) (p : Pass) → enabled (accept_connection sock p) ≡ enabled p
unfolding accept_connection
accept_connection-enabled sock p = ground arith

receive_byte-enabled : (sock : Socket) (p : Pass) → enabled (receive_byte sock p) ≡ enabled p
unfolding receive_byte take_byte
receive_byte-enabled sock p = ground arith

copy_registers-enabled : (p : Pass) → enabled (copy_registers p) ≡ enabled p
unfolding copy_registers
copy_registers-enabled p = ground arith

transmit_byte-enabled : (sock : Socket) (p : Pass) → enabled (transmit_byte sock p) ≡ enabled p
unfolding transmit_byte
transmit_byte-enabled sock p = ground arith

check_thr-enabled : (sock : Socket) (p : Pass) → enabled (check_thr sock p) ≡ enabled p
unfolding check_thr
check_thr-enabled sock p = ground (arith, transmit_byte-enabled sock (clear_written 0 p))

check_rbr-enabled : (p : Pass) → enabled (check_rbr p) ≡ enabled p
unfolding check_rbr show_rbr
check_rbr-enabled p = ground arith

divisor_latch-enabled : (i k : ℕ) (p : Pass) → enabled (divisor_latch i k p) ≡ enabled p
unfolding divisor_latch
divisor_latch-enabled i k p = ground arith

data_registers-enabled : (sock : Socket) (p : Pass) → enabled (data_registers sock p) ≡ enabled p
unfolding data_registers show_rbr
data_registers-enabled sock p = elim (Bool-cases (bit (p.uart.regs tl_lcr) 7)) [
  | inl e ↦
      simp e (
        divisor_latch-enabled tl_dlm 1 (divisor_latch tl_dll 0 p)
        ∙ divisor_latch-enabled tl_dll 0 p)
  | inr e ↦ simp e (check_rbr-enabled (show_rbr (check_thr sock p)) ∙ check_thr-enabled sock p)
]

check_fcr-enabled : (p : Pass) → enabled (check_fcr p) ≡ enabled p
unfolding check_fcr reset_fifos
check_fcr-enabled p = ground arith

update_lsr-enabled : (p : Pass) → enabled (update_lsr p) ≡ enabled p
unfolding update_lsr
update_lsr-enabled p = ground arith

update_iir-enabled : (p : Pass) → enabled (update_iir p) ≡ enabled p
unfolding update_iir
update_iir-enabled p = ground arith

update_msr-enabled : (p : Pass) → enabled (update_msr p) ≡ enabled p
unfolding update_msr
update_msr-enabled p = ground arith

close_socket-enabled : (p : Pass) → enabled (close_socket p) ≡ enabled p
unfolding close_socket
close_socket-enabled p = ground arith

pub step_16c750-enabled :
    (sock : Socket) (uart : Uart) (mem : Memory)
    → (step_16c750 sock uart mem).uart.enabled ≡ uart.enabled
unfolding step_16c750 first_pass
step_16c750-enabled sock uart mem =
    let p0 = first_pass uart mem in
    let p1 = accept_connection sock p0 in
    let p2 = receive_byte sock p1 in
    let p3 = copy_registers p2 in
    let p4 = data_registers sock p3 in
    let p5 = check_fcr p4 in
    let p6 = update_lsr p5 in
    let p7 = update_iir p6 in
    close_socket-enabled (update_msr p7)
    ∙ update_msr-enabled p7
    ∙ update_iir-enabled p6
    ∙ update_lsr-enabled p5
    ∙ check_fcr-enabled p4
    ∙ data_registers-enabled sock p3
    ∙ copy_registers-enabled p2
    ∙ receive_byte-enabled sock p1
    ∙ accept_connection-enabled sock p0
