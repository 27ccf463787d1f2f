-- ===== src/Tests/Host.antt =====
-- The HDL side's accesses to a host whose memory is RAM, on a bus of 8 bytes.
use qemu_hdl_sim.Base.{
  ℕ, ◌+◌, ◌-◌, ◌%◌, ◌≡◌, refl, arith, inr, true, some, [], ◌∷◌, Bytes, zeroes, load, store, Frame,
  within, if◌then◌else◌, effects, result, returns, halts, exits,
}
use qemu_hdl_sim.Protocol.AccData
use qemu_hdl_sim.Protocol.Endpoint.{hdl_req}
use qemu_hdl_sim.Device.Host.{HostMemory, answered, notified, answer, handle_hdl_request}
use qemu_hdl_sim.Device.Host.Serve.{
  asked_by, AllServable, handle_hdl_request-drains, handle_hdl_request-exits,
}
use qemu_hdl_sim.Device.Host.Ram.{IsRam, answer_lem}
use qemu_hdl_sim.Pcie.Poll.{Signals, hdl_ready, poll}
use qemu_hdl_sim.Pcie.Request.{sent, req_read, req_write, req_interrupt}
use qemu_hdl_sim.Pcie.Request.Gather.Write.{IsWrite, req_write-IsWrite}
use qemu_hdl_sim.System.HostPath.{arrived, req_read-poll, req_write-handled, req_interrupt-handled}
use qemu_hdl_sim.Tests.Mmio.{bridge, signals, lanes}

abbrev ram : HostMemory
ram = record {
  Memory = Bytes;
  fetch = λ m a n i. m (a + i);
  put = λ m a n b i. if within a n i then b (i - a) else m i;
}

ram-IsRam : IsRam ram
ram-IsRam = record { fetch_put = λ m a n b a' n' i h. refl }

abbrev memory : Bytes
memory i = i % 256

-- Lanes 1 and 4 are strobed.
abbrev strobes : ℕ → ℕ
strobes i = 18

req_read-poll_example :
    (f g : Frame) × (t : Signals) × (effects (req_read 4098 2 0 7 zeroes true)
      ≡ sent hdl_req f ∷ [])
    × (effects (handle_hdl_request ram memory (arrived f ∷ [])) ≡ answered g ∷ [])
    × (result (poll bridge (hdl_ready (some g)) signals) ≡ returns t)
    × (t.v_data 5 ≡ 5)
req_read-poll_example =
    let (f, g, t, out, served, kept, run, ty, data_) =
      req_read-poll ram memory bridge 4098 2 0 7 zeroes signals (omega arith) (omega arith)
        (omega arith) refl (omega arith) in
    (f, g, t, out, served, run, data_ 3 (omega arith))

req_write-handled_example :
    (f : Frame) × (m : Bytes) × (effects (req_write bridge 4096 3 0 lanes strobes zeroes true)
      ≡ sent hdl_req f ∷ [])
    × (result (handle_hdl_request ram memory (arrived f ∷ [])) ≡ returns m)
    × (m 4097 ≡ 14)
req_write-handled_example =
    req_write-handled ram memory bridge 4096 3 0 lanes strobes zeroes 1 14 ram-IsRam (omega arith)
      refl (omega arith) (omega arith) (omega arith) refl

req_interrupt-handled_example :
    (f : Frame) × (effects (req_interrupt 3 lanes true) ≡ sent hdl_req f ∷ [])
    × (effects (handle_hdl_request ram memory (arrived f ∷ [])) ≡ notified 3 ∷ [])
    × (result (handle_hdl_request ram memory (arrived f ∷ [])) ≡ returns memory)
req_interrupt-handled_example = req_interrupt-handled ram memory 3 lanes (omega arith)

req_write-IsWrite_example :
    (f : Frame) × (effects (req_write bridge 4096 3 0 lanes strobes zeroes true)
      ≡ sent hdl_req f ∷ [])
    × IsWrite 4096 8 (11 ∷ 14 ∷ []) zeroes f
req_write-IsWrite_example =
    req_write-IsWrite bridge 4096 3 0 lanes strobes zeroes (omega arith) refl (omega arith)

-- A read of two bytes, and an interrupt.
abbrev fetching : Frame
fetching = record {
  size = 4128;
  bytes = AccData.set_op 1 (AccData.set_address 7 (AccData.set_data_size 2 zeroes));
}

abbrev ringing : Frame
ringing = record { size = 4128; bytes = AccData.set_vector 5 (AccData.set_op 3 zeroes) }

abbrev servable : AllServable (arrived fetching ∷ arrived ringing ∷ []) (fetching ∷ ringing ∷ [])
unfolding load store zeroes
servable = (
  record { present = refl; whole = omega arith; fits = omega arith; can_send = refl },
  (record { present = refl; whole = omega arith; fits = omega arith; can_send = refl }, tt),
)

handle_hdl_request-drains_example :
    (effects (handle_hdl_request ram memory (arrived fetching ∷ arrived ringing ∷ []))
      ≡ answered (answer ram memory fetching) ∷ notified 5 ∷ [])
    × (result (handle_hdl_request ram memory (arrived fetching ∷ arrived ringing ∷ []))
        ≡ returns memory)
unfolding asked_by load store zeroes
handle_hdl_request-drains_example =
    handle_hdl_request-drains ram memory (arrived fetching ∷ arrived ringing ∷ [])
      (fetching ∷ ringing ∷ []) servable

handle_hdl_request-exits_example :
    let as_ =
      arrived fetching ∷ arrived ringing ∷ arrived (record { size = 16; bytes = zeroes }) ∷ [] in
    (effects (handle_hdl_request ram memory as_)
      ≡ answered (answer ram memory fetching) ∷ notified 5 ∷ [])
    × (result (handle_hdl_request ram memory as_) ≡ halts (exits 1))
unfolding asked_by load store zeroes
handle_hdl_request-exits_example =
    handle_hdl_request-exits ram memory (arrived fetching ∷ arrived ringing ∷ [])
      (fetching ∷ ringing ∷ []) (arrived (record { size = 16; bytes = zeroes })) [] servable
      (inr (record { size = 16; bytes = zeroes }, refl, omega arith))

answer_lem_example :
    (AccData.address (answer ram memory fetching).bytes ≡ 7)
    × (AccData.data_at (answer ram memory fetching).bytes 1 ≡ 8)
unfolding load store zeroes
answer_lem_example =
    let (size, id, n, at, op, bar, vector, data_, behind) =
      answer_lem ram memory fetching (omega arith) in
    (at, data_ 1 (omega arith))
