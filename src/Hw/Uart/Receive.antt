-- ===== src/Hw/Uart/Receive.antt =====
-- The receiver of step_16c750 (src/hw/16C750.c): what `read` gave, put on the queue.
use ce.Base.{ℕ, ◌≡◌, ◌||◌, if◌then◌else◌, List, length, refl, arith}
use ce.Cpu.State.{Memory}
use ce.Hw.CircBuf.{circ_buf_is_full}
use ce.Hw.CircBuf.Queue.{enqueue}
use ce.Hw.CircBuf.Refine.{
  CircBufOk, contents, push_refines, circ_buf_push-CircBufOk, length-contents,
}
use ce.Hw.Uart.{Uart, Socket, ReadResult, got, again, finished, failed}
use ce.Hw.Uart.Step.{
  Pass, is_open, connected, take_byte, first_pass, accept_connection, receive_byte,
}

-- The buffers are valid, and the transmitter's is empty, as it is never filled.
pub record UartOk (u : Uart) : Type 0 where
  pub rx_ok : CircBufOk u.rx_buf
  pub tx_empty : u.tx_buf.count ≡ 0

-- The queue after what `read` gave.
unfoldable pub with_byte : ReadResult → List ℕ → List ℕ
with_byte (got c) q = (enqueue q c).1
with_byte again q = q
with_byte finished q = q
with_byte failed q = q

take_byte-with_byte :
    (r : ReadResult) (p : Pass)
    → UartOk p.uart
    → let p' = take_byte r p in
      UartOk p'.uart
      × (contents p'.uart.rx_buf ≡ with_byte r (contents p.uart.rx_buf))
      × (p'.uart.addr ≡ p.uart.addr)
      × (p'.mem ≡ p.mem)
unfolding take_byte with_byte
take_byte-with_byte (got c) p ok =
    ground (arith, push_refines p.uart.rx_buf c, circ_buf_push-CircBufOk p.uart.rx_buf c)
take_byte-with_byte again p ok = ground arith
take_byte-with_byte finished p ok = ground arith
take_byte-with_byte failed p ok = ground arith

with_byte-full : (r : ReadResult) (q : List ℕ) → length q ≡ 64 → with_byte r q ≡ q
unfolding with_byte enqueue
with_byte-full (got c) q e = ground arith
with_byte-full again q e = refl
with_byte-full finished q e = refl
with_byte-full failed q e = refl

pub receive-with_byte :
    (sock : Socket) (uart : Uart) (mem : Memory)
    → UartOk uart
    → let p = receive_byte sock (accept_connection sock (first_pass uart mem)) in
      UartOk p.uart
      × (contents p.uart.rx_buf ≡ (
          if connected uart || is_open sock.accepted
          then with_byte sock.incoming (contents uart.rx_buf)
          else contents uart.rx_buf))
      × (p.uart.addr ≡ uart.addr)
      × (p.mem ≡ mem)
unfolding receive_byte accept_connection first_pass circ_buf_is_full
receive-with_byte sock uart mem ok =
    let p = accept_connection sock (first_pass uart mem) in
    ground (
      arith,
      take_byte-with_byte sock.incoming p,
      with_byte-full sock.incoming (contents uart.rx_buf),
      length-contents uart.rx_buf,
    )
