-- ===== src/UartBridge.antt =====
-- bridge-ip/uart_sim_1.0/hdl/dpi-uart.c, the DPI side of the UART. What it prints is not modelled.
use Prim.Native.String.{String}
use qemu_hdl_sim.Base.{
  ℕ, Bool, Option, none, some, ℤ, pos, ◌+ℤ◌, zeroes, load, store, Frame, leb, Exec, ret, stop,
  aborts, undefined, guard, perform, ◌>>◌,
}
use qemu_hdl_sim.Protocol.Endpoint.{Opened, Channel, serial_rx, serial_tx, sender, receiver}

pub data Effect : Type 0 where
  opened : Channel → Opened → Effect
  poller_made : Effect
  sent : Channel → Frame → Effect
  destroyed : Channel → Effect

-- The sockets that the UART bridge opens: `uart_rx` and `uart_tx`.
unfoldable pub open_sockets : ℤ → Exec Effect (Unit {0})
open_sockets port = do
  perform (opened serial_rx (receiver (port +ℤ pos 8)))
  perform (opened serial_tx (sender (port +ℤ pos 9)))

module _ (atoi : String → ℤ) where
  -- `C_setup_uart_connection`
  unfoldable pub setup_uart_connection : Option String → Bool → Bool → Exec Effect (Unit {0})
  unfolding open_sockets
  setup_uart_connection none made poller_ok = stop undefined
  setup_uart_connection (some port_str) made poller_ok = do
    open_sockets (atoi port_str)
    guard made aborts
    guard poller_ok aborts
    perform poller_made

-- `C_teardown_uart_connection`
unfoldable pub teardown_uart_connection : Exec Effect (Unit {0})
teardown_uart_connection = do perform (destroyed serial_rx); perform (destroyed serial_tx)

-- `C_uart_poll`: `data_available`, for what `zpoller_wait` finds.
unfoldable pub uart_poll {ℓ} : {A : Type ℓ} → Option A → ℕ
uart_poll none = 1
uart_poll (some sock) = 0

-- `C_uart_rx`: the character, left as it is where nothing has arrived. It reads an `unsigned int`
-- from the frame.
unfoldable pub uart_rx : Option (Option Frame) → ℕ → Exec Effect ℕ
uart_rx none c = ret c
uart_rx (some none) c = stop undefined
uart_rx (some (some f)) c = do guard (leb 4 f.size) undefined; ret (load 4 0 f.bytes)

-- `C_uart_tx`
unfoldable pub uart_tx : ℕ → Exec Effect (Unit {0})
uart_tx c = perform (sent serial_tx (record { size = 1; bytes = store 1 0 c zeroes }))
