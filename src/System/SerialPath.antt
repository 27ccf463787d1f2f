-- ===== src/System/SerialPath.antt =====
-- Characters between QEMU's serial back end and the HDL's UART, both ways.
use qemu_hdl_sim.Base.{
  ℕ, ◌/◌, ◌%◌, ◌^◌, ◌∙◌, ◌≤◌, ◌≡◌, refl, arith, false, Option, some, List, [], ◌∷◌, ◌++◌, Bytes,
  store, Frame, leb, effects, result, returns, halts, undefined, ap,
}
use qemu_hdl_sim.Device.Serial.{
  Effect, char_written, forwarded, serial_can_rx, serial_rx, serial_tx, write_char,
}
use qemu_hdl_sim.UartBridge

-- The frames that a sequence of calls of `C_uart_tx` sends.
abbrev pub frames_of : List UartBridge.Effect → List (Option Frame)
frames_of [] = []
frames_of (UartBridge.sent c f ∷ es) = some f ∷ frames_of es
frames_of (_ ∷ es) = frames_of es

-- The frames of a text that the HDL writes.
pub transmitted : List ℕ → List (Option Frame)
transmitted [] = []
transmitted (c ∷ cs) = frames_of (effects (UartBridge.uart_tx c)) ++ transmitted cs

abbrev pub all_written : List ℕ → List Effect
all_written [] = []
all_written (c ∷ cs) = char_written (c % 256) ∷ all_written cs

-- Whatever characters the HDL passes to `C_uart_tx`, `serial_tx` on the frames returns after
-- writing each of them, as a byte, in their order.
pub uart_tx-serial_tx :
    (cs : List ℕ)
    → (effects (serial_tx (transmitted cs)) ≡ all_written cs)
      × (result (serial_tx (transmitted cs)) ≡ returns tt)
unfolding transmitted serial_tx write_char UartBridge.uart_tx store
uart_tx-serial_tx [] = (refl, refl)
uart_tx-serial_tx (c ∷ cs) =
    let rest = uart_tx-serial_tx cs in
    let byte : c / 256 ^ 0 % 256 ≡ c % 256 = omega arith in
    (
      ap (λ (x : ℕ). char_written x ∷ effects (serial_tx (transmitted cs))) byte
          ∙ ap (◌∷◌ (char_written (c % 256))) rest.0,
      rest.1,
    )

-- A character of QEMU's back end does not reach the HDL as it should: `serial_rx` sends one frame
-- of at most `serial_can_rx` bytes, and `C_uart_rx` reads past the end of every such frame.
pub serial_rx-uart_rx :
    (buf : Bytes) (size c : ℕ)
    → size ≤ serial_can_rx
    → (f : Frame) × (effects (serial_rx buf size) ≡ forwarded f ∷ [])
      × (result (UartBridge.uart_rx (some (some f)) c) ≡ halts undefined)
unfolding serial_can_rx serial_rx UartBridge.uart_rx
serial_rx-uart_rx buf size c h =
    let short : leb 4 size ≡ false = ground arith in
    (record { size = size; bytes = buf }, refl, rw short refl)
