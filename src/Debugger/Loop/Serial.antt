-- ===== src/Debugger/Loop/Serial.antt =====
-- The UART in the event loop (src/debugger/debugger.c, main): its interrupt is the processor's IRQ.
use ce.Base.{
  ℕ, ◌≡◌, true, not, bit, of_bool, ap, ◌∙◌, Option, some, none, refl, arith, List, Bool-cases, inl,
  inr,
}
use ce.Cpu.Memory.{byte_at}
use ce.Hw.Uart.{Socket, Uart}
use ce.Hw.Uart.Enabled.{step_16c750-enabled}
use ce.Hw.Uart.Step.{irq_active, reg_addr}
use ce.Hw.Uart.Interrupt.{step_16c750-status}
use ce.Util.Stack.{Platform}
use ce.Debugger.Keys.{Ui}
use ce.Debugger.Command.{Session}
use ce.Debugger.Command.Named.{World}
use ce.Debugger.Loop.{run_mode, check_break, serve_uart, check_status, keep_key, press, round}

-- If the UART is enabled, IRQ is its interrupt, and bit 0 of IIR tells the program so.
abbrev pub Served : Session → Type 0
Served s =
    s.uart.enabled ≡ true
    → (s.machine.cpu.p_irq ≡ irq_active s.uart)
      × (bit (byte_at s.machine.mem (reg_addr s.uart 2)) 0 ≡ not s.machine.cpu.p_irq)

serve_uart-Served : (sock : Socket) (ui : Ui) → Served (serve_uart sock ui).session
unfolding serve_uart
serve_uart-Served sock ui = elim (Bool-cases ui.session.uart.enabled) [
  | inl e ↦
      simp e
        (λ h. let q = step_16c750-status sock ui.session.uart ui.session.machine.mem in (q.0, q.1))
  | inr e ↦ simp e (λ h. absurd (omega (arith, ap of_bool e, ap of_bool h)))
]

serve_uart-enabled :
    (sock : Socket) (ui : Ui) → (serve_uart sock ui).session.uart.enabled ≡ ui.session.uart.enabled
unfolding serve_uart
serve_uart-enabled sock ui = elim (Bool-cases ui.session.uart.enabled) [
  | inl e ↦ simp e (step_16c750-enabled sock ui.session.uart ui.session.machine.mem ∙ e)
  | inr e ↦ simp e refl
]

check_break-uart : (ui : Ui) → (check_break ui).session.uart ≡ ui.session.uart
unfolding check_break
check_break-uart ui = ground arith

run_mode-uart : (ui : Ui) → (run_mode ui).session.uart ≡ ui.session.uart
unfolding run_mode
run_mode-uart ui = ground arith

-- Behind the key, a round leaves the UART enabled or not as it is.
pub served-enabled :
    (sock : Socket) (ui : Ui)
    → (serve_uart sock (check_break (run_mode ui))).session.uart.enabled ≡ ui.session.uart.enabled
served-enabled sock ui =
    serve_uart-enabled sock (check_break (run_mode ui))
    ∙ ap (λ (u : Uart). u.enabled) (check_break-uart (run_mode ui) ∙ run_mode-uart ui)

pub keeps_session : (c : Option ℕ) (ui : Ui) → (keep_key c (check_status c ui)).session ≡ ui.session
unfolding check_status
keeps_session none ui = ground arith
keeps_session (some c) ui = ground arith

-- After every round of the event loop in which the UART is enabled, whatever the key, the command
-- and the socket, the IRQ line of the processor is the interrupt condition of the UART, and bit 0 of
-- the byte at IIR tells whether the line is low.
pub round-Served :
    (w : World) (p : Platform (List ℕ)) (c : Option ℕ) (sock : Socket) (ui ui' : Ui)
    → round w p c sock ui ≡ some ui'
    → ui'.session.uart.enabled ≡ true
    → let s = ui'.session in
      (s.machine.cpu.p_irq ≡ irq_active s.uart)
      × (bit (byte_at s.machine.mem (reg_addr s.uart 2)) 0 ≡ not s.machine.cpu.p_irq)
unfolding round
round-Served w p c sock ui ui' e = served (press w p c ui) e
  where
    served :
        (o : Option Ui)
        → (elim o [
          | none ↦ none
          | some u ↦ some (keep_key c (check_status c (serve_uart sock (check_break (run_mode u)))))
        ])
          ≡ some ui'
        → Served ui'.session
    served none q = absurd (ground (arith, q))
    served (some u) q =
        let v = serve_uart sock (check_break (run_mode u)) in
        let same : ui'.session ≡ v.session = ground (arith, q, keeps_session c v) in
        rw same (serve_uart-Served sock (check_break (run_mode u)))
