-- ===== src/Pcie/Request.antt =====
-- The functions of dpi-pcie.c that the HDL calls to send: requests to the host on `hdl_req`, and
-- answers to QEMU on `qemu_resp`. Their ACCData stands on the stack and is not cleared, so what it
-- holds before is an argument, `acc`. An `int` that the HDL passes is an AXI field, not negative.
-- `send_ok` says whether `zframe_send` succeeds.
pub mod Gather
use qemu_hdl_sim.Base.{
  ℕ, zero, suc, ◌+◌, ◌-◌, ◌*◌, ◌/◌, ◌%◌, ◌^◌, Bool, true, Bytes, load, store, copy, Frame, ltb, leb,
  not, ◌==◌, ◌&&◌, if◌then◌else◌, Exec, ret, stop, emit, aborts, undefined, guard, perform, ◌>>=◌,
  ◌>>◌,
}
use qemu_hdl_sim.Protocol.{read, write, intr, op_code, buff_size}
use qemu_hdl_sim.Protocol.AccData
use qemu_hdl_sim.Protocol.Endpoint.{Channel, hdl_req, qemu_resp}
use qemu_hdl_sim.Pcie.Setup.{Bridge}

pub data Effect : Type 0 where
  sent : Channel → Frame → Effect

-- `zframe_new(&acc, sizeof(ACCData))` and `zframe_send`, whose failure an `assert` catches.
unfoldable pub send_acc : Channel → Bool → Bytes → Exec Effect (Unit {0})
send_acc c send_ok acc = do
  guard send_ok aborts
  perform (sent c (record { size = AccData.size; bytes = acc }))

-- `(len + 1) * (1 << width)` in `int`, whose overflow is undefined, as a `uint32_t`.
abbrev pub size_fits : ℕ → ℕ → Bool
size_fits width len = ltb width 31 && ltb ((len + 1) * 2 ^ width) (2 ^ 31)

abbrev pub transfer_size : ℕ → ℕ → ℕ
transfer_size width len = (len + 1) * 2 ^ width

-- `C_req_read`
unfoldable pub req_read : ℕ → ℕ → ℕ → ℕ → Bytes → Bool → Exec Effect (Unit {0})
unfolding send_acc
req_read addr width len id acc send_ok = do
  guard (size_fits width len) undefined
  send_acc hdl_req send_ok (
      AccData.set_id id (
        AccData.set_op (op_code read)
          (AccData.set_address addr (AccData.set_data_size (transfer_size width len) acc))))

-- `C_req_interrupt`
unfoldable pub req_interrupt : ℕ → Bytes → Bool → Exec Effect (Unit {0})
unfolding send_acc
req_interrupt vector acc send_ok =
    send_acc hdl_req send_ok (AccData.set_vector vector (AccData.set_op (op_code intr) acc))

-- `C_resp_write`
unfoldable pub resp_write : Bytes → Bool → Exec Effect (Unit {0})
unfolding send_acc
resp_write acc send_ok = send_acc qemu_resp send_ok acc

-- The loops of `C_req_write`: the ACCData, the number `k` of bytes in it, and the strobes, which
-- are shifted out.
pub record Gathered : Type 0 where
  pub acc : Bytes
  pub k : ℕ
  pub strb : ℕ → ℕ

-- The byte of a strobed lane goes into the data buffer.
abbrev pub has_room : ℕ → Gathered → Bool
has_room i g = if g.strb i % 2 == 1 then ltb g.k buff_size else true

module _ (bridge : Bridge) where
  -- `C_resp_read`
  unfoldable pub resp_read : ℕ → Bytes → Bytes → Bool → Exec Effect (Unit {0})
  unfolding send_acc
  resp_read addr bus_data acc send_ok = do
    guard (not (bridge.busw == 0)) undefined
    let align = addr % bridge.busw % 2 ^ 32
    guard (leb align buff_size) undefined
    send_acc qemu_resp send_ok (copy acc AccData.data_offset bus_data align (buff_size - align))

  module _ (bus_data : Bytes) where
    -- One round of the inner loop, for lane `j` of beat `i`.
    unfoldable pub gather_lane : ℕ → ℕ → Gathered → Gathered
    gather_lane i j g =
        let strb : ℕ → ℕ = λ n. if n == i then g.strb n / 2 else g.strb n in
        if g.strb i % 2 == 1
        then record {
          acc = store 1 (AccData.data_offset + g.k) (bus_data (i * bridge.busw + j)) g.acc;
          k = g.k + 1;
          strb = strb;
        }
        else record g { strb = strb }

    -- The bytes from lane `j` of beat `i` on, `left` of them. A lane past the arrays that the HDL
    -- passes, and a byte past the data buffer, are undefined.
    unfoldable pub gather_beat : ℕ → ℕ → ℕ → Gathered → Exec Effect Gathered
    unfolding gather_lane
    gather_beat zero i j g = ret g
    gather_beat (suc left) i j g =
        let rest = gather_beat left i (j + 1) (gather_lane i j g) in
        if ltb (i * bridge.busw + j) buff_size && has_room i g then rest else stop undefined

    -- The beats from `i` on, `left` of them.
    unfoldable pub gather_beats : ℕ → ℕ → Gathered → Exec Effect Gathered
    unfolding gather_beat
    gather_beats zero i g = ret g
    gather_beats (suc left) i g = do
      g' ← gather_beat bridge.busw i 0 g
      gather_beats left (i + 1) g'

  -- `C_req_write`. It returns the strobes that it leaves in the HDL's array.
  unfoldable pub req_write : ℕ → ℕ → ℕ → Bytes → (ℕ → ℕ) → Bytes → Bool → Exec Effect (ℕ → ℕ)
  unfolding gather_beats send_acc
  req_write addr width len bus_data strb acc send_ok = do
    guard (size_fits width len) undefined
    let acc' =
        AccData.set_op (op_code write)
          (AccData.set_address addr (AccData.set_data_size (transfer_size width len) acc))
    g ← gather_beats bus_data (len + 1) 0 (record { acc = acc'; k = 0; strb = strb })
    send_acc hdl_req send_ok g.acc
    ret g.strb
