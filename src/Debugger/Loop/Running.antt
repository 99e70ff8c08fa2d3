-- ===== src/Debugger/Loop/Running.antt =====
-- The run mode of the event loop (src/debugger/debugger.c, main).
use mathlib.Core.Path.{subst}
use ce.Base.{ℕ, zero, suc, ◌<◌, ◌≡◌, Bool, true, false, ◌||◌, Option, some, none, arith, sym}
use ce.Cpu.State.{Machine}
use ce.Cpu.Memory.Arrays.{test_mem_flags}
use ce.Cpu.Registers.{cpu_get_effective_pc}
use ce.Cpu.Step.{step_cpu}
use ce.Cpu.Step.Halt.{run}
use ce.Hw.Uart.{Socket}
use ce.Util.Stack.{Platform}
use ce.Debugger.Keys.{Ui, machine_of}
use ce.Debugger.Command.Named.{World}
use ce.Debugger.Loop.{run_mode, check_break, serve_uart, check_status, round}
use mathlib.Core.List.{List}

-- The next instruction has a break point.
abbrev pub at_break : Machine → Bool
at_break m = (test_mem_flags m.mem (cpu_get_effective_pc m.cpu)).b

-- The loop goes on running behind this machine.
abbrev pub Passes : Machine → Type 0
Passes m = (at_break m ≡ false) × ((m.cpu.p_crash || m.cpu.p_rst) ≡ false)

-- A round without a key, with the UART off.
abbrev AfterRound : Machine → Bool → Option Ui → Type 0
AfterRound m running none = ⊥
AfterRound m running (some ui) =
    (machine_of ui ≡ m) × (ui.in_run_mode ≡ running) × (ui.session.uart.enabled ≡ false)

module _ (w : World) (p : Platform (List ℕ)) (sock : Socket) where
  -- Rounds without a key.
  unfoldable pub rounds : ℕ → Ui → Option Ui
  rounds zero ui = some ui
  rounds (suc n) ui = elim (round w p none sock ui) [ none ↦ none | some ui' ↦ rounds n ui' ]

  round_runs :
      (ui : Ui)
      → ui.in_run_mode ≡ true
      → ui.session.uart.enabled ≡ false
      → Passes (step_cpu (machine_of ui)).1
      → AfterRound (step_cpu (machine_of ui)).1 true (round w p none sock ui)
  unfolding round run_mode check_break serve_uart check_status
  round_runs ui r u h = ground arith

  round_stops :
      (ui : Ui)
      → ui.in_run_mode ≡ true
      → ui.session.uart.enabled ≡ false
      → at_break (step_cpu (machine_of ui)).1 ≡ true
      → AfterRound (step_cpu (machine_of ui)).1 false (round w p none sock ui)
  unfolding round run_mode check_break serve_uart check_status
  round_stops ui r u h = ground arith

  round_rests :
      (ui : Ui)
      → ui.in_run_mode ≡ false
      → ui.session.uart.enabled ≡ false
      → AfterRound (machine_of ui) false (round w p none sock ui)
  unfolding round run_mode check_break serve_uart check_status
  round_rests ui r u = ground arith

  -- What `n` rounds leave: the machine, and the run mode off.
  abbrev pub Rests : Machine → Option Ui → Type 0
  Rests m none = ⊥
  Rests m (some ui) = (machine_of ui ≡ m) × (ui.in_run_mode ≡ false)

  rounds-rest :
      (n : ℕ) (m : Machine) (o : Option Ui)
      → AfterRound m false o
      → Rests m (elim o [ none ↦ none | some ui ↦ rounds n ui ])
  unfolding rounds
  rounds-rest n m none h = absurd h
  rounds-rest zero m (some ui) h = (h.0, h.1)
  rounds-rest (suc n) m (some ui) h =
      rounds-rest n m (round w p none sock ui)
        (subst (λ x. AfterRound x false (round w p none sock ui)) h.0 (round_rests ui h.1 h.2))

  -- In run mode, with the UART off and no key pressed, the loop stops the machine at the first break
  -- point: if the first `n` calls of stepCPU end neither at a break point nor in a crash or a reset,
  -- and the next one ends at a break point, then after `n + 1` rounds and any number of further ones
  -- the machine is the one after these `n + 1` calls, and the run mode is off.
  pub rounds-stop :
      (n t : ℕ) (ui : Ui)
      → n < t
      → ui.in_run_mode ≡ true
      → ui.session.uart.enabled ≡ false
      → ((j : ℕ) → j < n → Passes (run (suc j) (machine_of ui)))
      → at_break (run (suc n) (machine_of ui)) ≡ true
      → Rests (run (suc n) (machine_of ui)) (rounds t ui)
  unfolding rounds run
  rounds-stop n zero ui l r u h b = absurd (omega arith)
  rounds-stop zero (suc t) ui l r u h b =
      rounds-rest t (step_cpu (machine_of ui)).1 (round w p none sock ui) (round_stops ui r u b)
  rounds-stop (suc n) (suc t) ui l r u h b =
      go (round w p none sock ui) (round_runs ui r u (h zero (omega arith))) (rounds-stop n t)
    where
      go :
          (o : Option Ui)
          → AfterRound (step_cpu (machine_of ui)).1 true o
          → ((v : Ui)
              → n < t
              → v.in_run_mode ≡ true
              → v.session.uart.enabled ≡ false
              → ((j : ℕ) → j < n → Passes (run (suc j) (machine_of v)))
              → at_break (run (suc n) (machine_of v)) ≡ true
              → Rests (run (suc n) (machine_of v)) (rounds t v))
          → Rests (run (suc (suc n)) (machine_of ui)) (elim o [ none ↦ none | some v ↦ rounds t v ])
      go none k ih = absurd k
      go (some v) k ih =
          subst (λ x. Rests (run (suc n) x) (rounds t v)) k.0
            (ih v (omega arith) k.1 k.2
              (λ j s. subst (λ x. Passes (run (suc j) x)) (sym k.0) (h (suc j) (omega arith)))
              (subst (λ x. at_break (run (suc n) x) ≡ true) (sym k.0) b))
