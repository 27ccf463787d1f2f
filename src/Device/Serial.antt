-- ===== src/Device/Serial.antt =====
-- The serial side of accelerator_pcie.c. `serial_read` returns 0 and `serial_write`,
-- `serial_event` and `acc_pcie_reset` do nothing but log.
use qemu_hdl_sim.Base.{
  ℕ, Option, none, some, List, [], ◌∷◌, Bytes, Frame, ltb, Exec, ret, stop, undefined, guard,
  perform, ◌>>◌,
}

-- A byte written by `qemu_chr_fe_write`, and a frame sent on `serial_rx`.
pub data Effect : Type 0 where
  char_written : ℕ → Effect
  forwarded : Frame → Effect

-- `serial_read`
unfoldable pub serial_read : ℕ → ℕ → ℕ
serial_read addr size = 0

-- `serial_can_rx`: how many bytes QEMU may hand to `serial_rx` at once.
unfoldable pub serial_can_rx : ℕ
serial_can_rx = 1

-- `serial_rx`
unfoldable pub serial_rx : Bytes → ℕ → Exec Effect (Unit {0})
serial_rx buf size = perform (forwarded (record { size = size; bytes = buf }))

-- One round of the loop of `serial_tx`: the first byte of the frame is written. A frame that is
-- missing or empty has no first byte.
unfoldable pub write_char : Option Frame → Exec Effect (Unit {0})
write_char none = stop undefined
write_char (some f) = do guard (ltb 0 f.size) undefined; perform (char_written (f.bytes 0))

-- `serial_tx`: all frames that are waiting, in order.
unfoldable pub serial_tx : List (Option Frame) → Exec Effect (Unit {0})
unfolding write_char
serial_tx [] = ret tt
serial_tx (f ∷ rest) = do write_char f; serial_tx rest
