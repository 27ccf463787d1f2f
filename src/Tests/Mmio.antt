-- ===== src/Tests/Mmio.antt =====
-- Accesses of the guest to BAR 1, on a bus of 8 bytes, at 4102 and so on lane 6.
use qemu_hdl_sim.Base.{
  ℕ, ◌+◌, ◌*◌, ◌^◌, ◌≤◌, ◌<◌, ◌≡◌, ◌≢◌, refl, arith, inl, inr, true, Option, none, some, [], ◌∷◌,
  Bytes, zeroes, load, store, Frame, effects, result, returns,
}
use qemu_hdl_sim.Protocol.{nothing, write, read, op_code}
use qemu_hdl_sim.Protocol.AccData
use qemu_hdl_sim.Protocol.AccConf
use qemu_hdl_sim.Protocol.Endpoint.{qemu_resp}
use qemu_hdl_sim.Device.Mmio.{mmio_write, mmio_read}
use qemu_hdl_sim.Device.Mmio.Laws.{
  IsRequest, mmio_write-IsRequest, mmio_read-IsRequest, mmio_read_value,
}
use qemu_hdl_sim.Device.Mmio.Ids.{reads, writes, call, requests, requests-ids-ne}
use qemu_hdl_sim.Pcie.Setup.{Bridge}
use qemu_hdl_sim.Pcie.Poll.{Signals, qemu_ready, poll}
use qemu_hdl_sim.Pcie.Poll.Strobe.{bit}
use qemu_hdl_sim.Pcie.Request.{sent, resp_read}
use qemu_hdl_sim.System.MmioWrite.{poll-mmio_write}
use qemu_hdl_sim.System.MmioRead.{mmio_read-resp_read}

abbrev pub bridge : Bridge
bridge = record { busw = 8; conf = AccConf.set_bar_offset 1 4096 zeroes }

abbrev pub signals : Signals
signals = record {
  req_type = nothing;
  v_addr = 0;
  v_len = 0;
  v_size = 0;
  v_strb = 0;
  v_data = zeroes;
}

abbrev no_answer : Frame → Option Frame
no_answer f = none

-- The bytes of the lanes.
abbrev pub lanes : Bytes
lanes i = i + 10

poll-mmio_write_example :
    (t : Signals) × (result
        (poll bridge (qemu_ready (some (mmio_write 1 0 6 43981 2 (λ f. some f)).request)) signals)
      ≡ returns t)
    × (t.v_addr ≡ 4102)
    × (bit t.v_strb 6 ≡ 1)
    × (bit t.v_strb 8 ≡ 0)
    × (t.v_data 7 ≡ 171)
unfolding load store
poll-mmio_write_example =
    let (t, run, seen, strb, data_) =
      poll-mmio_write bridge 1 6 2 (omega arith) (omega arith) (omega arith) 0 43981 signals
        (omega arith) (omega arith) in
    (t, run, seen.v_addr, strb 6 (omega arith), strb 8 (omega arith), data_ 1 (omega arith))

mmio_read-resp_read_example :
    (t : Signals) × (g : Frame) × (result
        (poll bridge (qemu_ready (some (mmio_read 1 0 6 2 no_answer).request)) signals)
      ≡ returns t)
    × (effects (resp_read bridge t.v_addr lanes zeroes true) ≡ sent qemu_resp g ∷ [])
    × ((mmio_read 1 0 6 2 (λ f. some g)).value ≡ 16 + 256 * 17)
unfolding load store
mmio_read-resp_read_example =
    let (t, g, run, seen, out, value) =
      mmio_read-resp_read bridge 1 6 2 (omega arith) (omega arith) (omega arith) 0 signals lanes
        zeroes (omega arith) (inr (inl refl)) in
    (t, g, run, out, value)

mmio_write-IsRequest_example :
    let f = (mmio_write 1 41 6 43981 2 no_answer).request in
    IsRequest 1 42 6 (op_code write) 2 f
    × (load 8 AccData.data_offset f.bytes ≡ 43981)
    × ((i : ℕ) → 8 ≤ i → i < 4096 → AccData.data_at f.bytes i ≡ 0)
mmio_write-IsRequest_example =
    mmio_write-IsRequest 1 41 6 2 (omega arith) (omega arith) (omega arith) 43981 no_answer

mmio_read-IsRequest_example :
    let f = (mmio_read 1 41 6 2 no_answer).request in
    IsRequest 1 42 6 (op_code read) 2 f × ((i : ℕ) → i < 4096 → AccData.data_at f.bytes i ≡ 0)
mmio_read-IsRequest_example =
    mmio_read-IsRequest 1 41 6 2 (omega arith) (omega arith) (omega arith) no_answer

mmio_read_value_example :
    ((mmio_read 1 41 6 2 (λ f. none)).value ≡ 0)
    × ((mmio_read 1 41 6 2 (λ f. some (record { size = 4; bytes = zeroes }))).value ≡ 0)
    × ((mmio_read 1 41 6 2 (λ f. some (record { size = 4128; bytes = zeroes }))).value < 256 ^ 2)
unfolding zeroes
mmio_read_value_example =
    mmio_read_value 1 41 6 2 (record { size = 4; bytes = zeroes })
      (record { size = 4128; bytes = zeroes }) (omega arith) (λ i. omega arith)

-- The counter wraps between the two.
requests-ids-ne_example :
    AccData.id (mmio_read 1 18446744073709551615 6 2 no_answer).request.bytes
    ≢ AccData.id (mmio_write 1 0 6 43981 2 no_answer).request.bytes
unfolding call requests mmio_read mmio_write
requests-ids-ne_example =
    requests-ids-ne (reads 1 6 2 ∷ writes 1 6 2 43981 ∷ []) 18446744073709551615 0 1 no_answer
      (omega arith) (omega arith) refl refl
