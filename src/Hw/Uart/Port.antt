-- ===== src/Hw/Uart/Port.antt =====
-- src/hw/16C750.c: init_port_16c750 and stop_16c750. What the socket calls give is a parameter; the
-- address and the options of the socket are left out.
use ce.Base.{ℕ, Bool, false, ◌==◌, if◌then◌else◌, Option, none, some, List, [], ◌∷◌, ◌++◌}
use ce.Hw.Uart.{Uart}

-- The descriptor that `socket` gives, which of the calls fail, and errno after a failure.
pub record PortCalls : Type 0 where
  pub socket : Option ℕ
  pub bind_fails : Bool
  pub listen_fails : Bool
  pub setsockopt_fails : Bool
  pub errno : ℕ

-- `if (fd >= 0) close(fd);`, as the list of what is closed.
abbrev pub close_fd : Option ℕ → List ℕ
close_fd none = []
close_fd (some fd) = fd ∷ []

-- The descriptors that are closed; their fields are left as they are.
unfoldable pub stop_16c750 : Uart → List ℕ
stop_16c750 uart = close_fd uart.data_socket ++ close_fd uart.sock_fd

-- The return value, the UART, and the descriptors that are closed.
unfoldable pub init_port_16c750 : PortCalls → Uart → ℕ → ℕ × Uart × List ℕ
init_port_16c750 calls uart port =
    let closed = stop_16c750 uart in
    let opened = record uart { sock_fd = calls.socket } in
    if port == 0 then (0, uart, closed) else elim calls.socket [
      | none ↦ (calls.errno, opened, closed)
      | some fd ↦
          if calls.bind_fails
          then (calls.errno, opened, closed)
          else if calls.listen_fails
          then (calls.errno, opened, closed)
          else if calls.setsockopt_fails
          then (calls.errno, opened, closed)
          else (
            0,
            record opened { data_socket = none; enabled = false; tx_empty_edge = false },
            closed,
          )
    ]
