-- ===== src/System/HostPath.antt =====
-- The accesses of the HDL side to the host: from `C_req_read`, `C_req_write` and
-- `C_req_interrupt` through `handle_hdl_request`, and back to `C_poll`.
use native.Mathlib.Nat.{mod-lt}
use qemu_hdl_sim.Base.{
  ℕ, ◌+◌, ◌-◌, ◌*◌, ◌%◌, ◌^◌, ◌≤◌, ◌<◌, ◌≡◌, refl, sym, ◌∙◌, ap, arith, true, false, some, [], ◌∷◌,
  Bytes, load, store, copy, Frame, within, leb, ◌==◌, effects, result, returns, get_elem?,
}
use qemu_hdl_sim.Base.Memory.Laws.{copy_inside, load-store_self}
use qemu_hdl_sim.Protocol.{s_rd, op_code, read, write, intr, buff_size}
use qemu_hdl_sim.Protocol.AccData
use qemu_hdl_sim.Protocol.Endpoint.{hdl_req}
use qemu_hdl_sim.Device.Host.{
  HostMemory, Arrival, answered, notified, payload, answer, dispatch, serve, handle_hdl_request,
}
use qemu_hdl_sim.Device.Host.Serve.{IsServable, asked_by, handle_hdl_request-drains}
use qemu_hdl_sim.Device.Host.Ram.{IsRam, answer_lem}
use qemu_hdl_sim.Pcie.Setup.{Bridge}
use qemu_hdl_sim.Pcie.Poll.{Signals, hdl_ready, align_offset, take_response, poll}
use qemu_hdl_sim.Pcie.Request.{
  sent, send_acc, size_fits, transfer_size, req_read, req_write, req_interrupt,
}
use qemu_hdl_sim.Pcie.Request.Gather.Write.{strobed, req_write-IsWrite}

-- A frame that has arrived at the device, and whose answer can be sent.
abbrev pub arrived : Frame → Arrival
arrived f = record { frame = some f; send_ok = true }

module _ (addr width len id : ℕ) (acc : Bytes) where
  abbrev read_frame : Frame
  read_frame = record {
    size = AccData.size;
    bytes = AccData.set_id id (
        AccData.set_op (op_code read)
          (AccData.set_address addr (AccData.set_data_size (transfer_size width len) acc)));
  }

  req_read-sent :
      size_fits width len ≡ true
      → effects (req_read addr width len id acc true) ≡ sent hdl_req read_frame ∷ []
  unfolding req_read send_acc
  req_read-sent fits = rw fits refl

  read_fields :
      (AccData.op read_frame.bytes ≡ op_code read)
      × (AccData.address read_frame.bytes ≡ addr % 2 ^ 64)
      × (AccData.data_size read_frame.bytes ≡ transfer_size width len % 2 ^ 32)
  unfolding load store
  read_fields =
      (refl, load-store_self 8 8 addr acc, load-store_self 4 4 (transfer_size width len) acc)

module _ (host : HostMemory) (m : host.Memory) where
  serve_read :
      (f : Frame)
      → f.size ≡ AccData.size
      → AccData.op f.bytes ≡ op_code read
      → AccData.data_size f.bytes ≤ buff_size
      → (effects (handle_hdl_request host m (arrived f ∷ [])) ≡ answered (answer host m f) ∷ [])
        × (result (handle_hdl_request host m (arrived f ∷ [])) ≡ returns m)
  unfolding asked_by
  serve_read f whole op fits =
      let v : IsServable (arrived f) f = record {
        present = refl;
        whole = omega arith;
        fits = omega arith;
        can_send = refl;
      } in
      let e = handle_hdl_request-drains host m (arrived f ∷ []) (f ∷ []) (v, tt) in
      (e.0 ∙ rw op refl, e.1 ∙ rw op refl)

  serve_write :
      (f : Frame)
      → f.size ≡ AccData.size
      → AccData.op f.bytes ≡ op_code write
      → AccData.data_size f.bytes ≤ buff_size
      → result (handle_hdl_request host m (arrived f ∷ []))
        ≡ returns
            (host.put m (AccData.address f.bytes) (AccData.data_size f.bytes) (payload f.bytes))
  unfolding asked_by
  serve_write f whole op fits =
      let v : IsServable (arrived f) f = record {
        present = refl;
        whole = omega arith;
        fits = omega arith;
        can_send = refl;
      } in
      (handle_hdl_request-drains host m (arrived f ∷ []) (f ∷ []) (v, tt)).1 ∙ rw op refl

  -- `C_poll` puts the data of an answer on the lanes from that of its address on.
  poll-answer :
      (bridge : Bridge) (s : Signals) (g : Frame)
      → 0 < bridge.busw
      → bridge.busw ≤ 2 ^ 32
      → g.size ≡ AccData.size
      → AccData.address g.bytes % bridge.busw + AccData.data_size g.bytes ≤ buff_size
      → (t : Signals) × (result (poll bridge (hdl_ready (some g)) s) ≡ returns t)
        × (t.req_type ≡ s_rd)
        × ((i : ℕ)
            → i < AccData.data_size g.bytes
            → t.v_data (AccData.address g.bytes % bridge.busw + i) ≡ AccData.data_at g.bytes i)
  unfolding poll take_response align_offset
  poll-answer bridge s g pos narrow whole fits =
      let addr = AccData.address g.bytes in
      let long : leb AccData.size g.size ≡ true = rw whole refl in
      let some_bus : (bridge.busw == 0) ≡ false = ground arith in
      let same : addr % bridge.busw % 2 ^ 32 ≡ addr % bridge.busw =
        omega (arith, mod-lt addr pos) in
      let inside : leb (addr % bridge.busw + AccData.data_size g.bytes) buff_size ≡ true =
        ground arith in
      (
        record s {
          req_type = s_rd;
          v_data =
              copy s.v_data (addr % bridge.busw) g.bytes AccData.data_offset
                (AccData.data_size g.bytes);
        },
        rw (long, some_bus, same, inside) refl,
        refl,
        λ i h. copy_inside s.v_data (addr % bridge.busw) g.bytes 21 (AccData.data_size g.bytes) i h,
      )

  -- A read of the HDL side gets the host's bytes: `C_req_read` sends one frame, for that frame
  -- `handle_hdl_request` returns with the memory as it was and has sent one answer, and for that
  -- answer `C_poll` announces read data that have the memory's bytes on the lanes from that of the
  -- address on. The burst fits the data buffer together with the lanes before the address. The bus
  -- has 1 to 2 ^ 32 bytes, the address is in the range of its field, the size of the burst does
  -- not overflow an `int`, and both sends succeed.
  pub req_read-poll :
      (bridge : Bridge) (addr width len id : ℕ) (acc : Bytes) (s : Signals)
      → 0 < bridge.busw
      → bridge.busw ≤ 2 ^ 32
      → addr < 2 ^ 64
      → size_fits width len ≡ true
      → addr % bridge.busw + transfer_size width len ≤ buff_size
      → (f g : Frame) × (t : Signals) × (effects (req_read addr width len id acc true)
          ≡ sent hdl_req f ∷ [])
        × (effects (handle_hdl_request host m (arrived f ∷ [])) ≡ answered g ∷ [])
        × (result (handle_hdl_request host m (arrived f ∷ [])) ≡ returns m)
        × (result (poll bridge (hdl_ready (some g)) s) ≡ returns t)
        × (t.req_type ≡ s_rd)
        × ((i : ℕ)
            → i < transfer_size width len
            → t.v_data (addr % bridge.busw + i) ≡ host.fetch m addr (transfer_size width len) i)
  req_read-poll bridge addr width len id acc s pos narrow word fits room =
      let n = transfer_size width len in
      let f = read_frame addr width len id acc in
      let (op, at, size) = read_fields addr width len id acc in
      let at' : AccData.address f.bytes ≡ addr = omega (arith, at) in
      let size' : AccData.data_size f.bytes ≡ n = omega (arith, size) in
      let g = answer host m f in
      let (g_size, g_id, g_n, g_at, g_op, g_bar, g_vector, data_, behind) =
        answer_lem host m f (omega arith) in
      let here : AccData.address g.bytes ≡ addr = g_at ∙ at' in
      let all : AccData.data_size g.bytes ≡ n = g_n ∙ size' in
      let fits' : AccData.address g.bytes % bridge.busw + AccData.data_size g.bytes ≤ buff_size =
        rw (here, all) room in
      let served = serve_read f refl op (omega arith) in
      let (t, run, ty, lanes) = poll-answer bridge s g pos narrow g_size fits' in
      (
        f,
        g,
        t,
        req_read-sent addr width len id acc fits,
        served.0,
        served.1,
        run,
        ty,
        λ i h.
            ap (λ (a : ℕ). t.v_data (a % bridge.busw + i)) (sym here)
            ∙ lanes i (omega arith)
            ∙ data_ i (omega arith)
            ∙ ap (λ (a : ℕ). host.fetch m a (AccData.data_size f.bytes) i) at'
            ∙ ap (λ (k : ℕ). host.fetch m addr k i) size',
      )

  -- A write of the HDL side reaches the host's memory: where the lanes of the burst fit the HDL's
  -- arrays of BUFF_SIZE bytes, `C_req_write` sends one frame, and for that frame
  -- `handle_hdl_request` returns with a memory in which the strobed bytes stand from the address
  -- on, in the order of their lanes. The memory is RAM, the burst fits the data buffer, and the
  -- byte asked for is the strobed one at index `i`, below the size of the burst. The address is in
  -- the range of its field, the size does not overflow an `int`, and the send succeeds.
  pub req_write-handled :
      (bridge : Bridge) (addr width len : ℕ) (bus_data : Bytes) (strb : ℕ → ℕ) (acc : Bytes)
      (i x : ℕ)
      → IsRam host
      → addr < 2 ^ 64
      → size_fits width len ≡ true
      → (len + 1) * bridge.busw ≤ buff_size
      → transfer_size width len ≤ buff_size
      → i < transfer_size width len
      → get_elem? (strobed bridge addr width len bus_data strb acc) i ≡ some x
      → (f : Frame) × (m' : host.Memory) × (effects
            (req_write bridge addr width len bus_data strb acc true)
          ≡ sent hdl_req f ∷ [])
        × (result (handle_hdl_request host m (arrived f ∷ [])) ≡ returns m')
        × (host.fetch m' addr (transfer_size width len) i ≡ x % 256)
  req_write-handled bridge addr width len bus_data strb acc i x ram word fits lanes room low there =
      let n = transfer_size width len in
      let (f, out, w) = req_write-IsWrite bridge addr width len bus_data strb acc word fits lanes in
      let run = serve_write f w.whole w.op (omega (arith, w.data_size)) in
      let m' = host.put m (AccData.address f.bytes) (AccData.data_size f.bytes) (payload f.bytes) in
      let covered : within (AccData.address f.bytes) (AccData.data_size f.bytes) (addr + i) ≡ true =
        rw (w.address, w.data_size) (ground arith) in
      let index : addr + i - AccData.address f.bytes ≡ i = omega (arith, w.address) in
      (
        f,
        m',
        out,
        run,
        ram.fetch_put m (AccData.address f.bytes) (AccData.data_size f.bytes) (payload f.bytes) addr
              n i low
            ∙ rw (covered, index) (w.gathered i x there),
      )

  -- An interrupt of the HDL side reaches the guest: for the frame that `C_req_interrupt` sends,
  -- `handle_hdl_request` notifies exactly the vector, once, and leaves the memory as it was,
  -- whatever the stack held in the frame's other fields. The vector fits 32 bits, and the send
  -- succeeds.
  pub req_interrupt-handled :
      (vector : ℕ) (acc : Bytes)
      → vector < 2 ^ 32
      → (f : Frame) × (effects (req_interrupt vector acc true) ≡ sent hdl_req f ∷ [])
        × (effects (handle_hdl_request host m (arrived f ∷ [])) ≡ notified vector ∷ [])
        × (result (handle_hdl_request host m (arrived f ∷ [])) ≡ returns m)
  unfolding req_interrupt send_acc handle_hdl_request serve dispatch load store
  req_interrupt-handled vector acc word =
      let same : load 4 4120 (store 4 4120 vector acc) ≡ vector =
        omega (arith, load-store_self 4 4120 vector acc) in
      (
        record {
          size = AccData.size;
          bytes = AccData.set_vector vector (AccData.set_op (op_code intr) acc);
        },
        refl,
        ap (λ (v : ℕ). notified v ∷ []) same,
        refl,
      )
