-- ===== src/Pcie/Request/Gather/Write.antt =====
-- The request that `C_req_write` sends.
use qemu_hdl_sim.Base.{
  ℕ, zero, suc, ◌+◌, ◌-◌, ◌*◌, ◌/◌, ◌%◌, ◌^◌, ◌≤◌, ◌<◌, ◌≡◌, ◌⊎◌, inl, inr, refl, ap, ◌∙◌, arith,
  true, some, List, [], ◌∷◌, Bytes, load, store, Frame, length, get_elem?, effects,
}
use qemu_hdl_sim.Base.Memory.Laws.{store_outside, load_ext, load-store_self}
use qemu_hdl_sim.Protocol.{buff_size, write, op_code}
use qemu_hdl_sim.Protocol.AccData
use qemu_hdl_sim.Protocol.Endpoint.{hdl_req}
use qemu_hdl_sim.Pcie.Setup.{Bridge}
use qemu_hdl_sim.Pcie.Request.{sent, size_fits, transfer_size, req_write}
use qemu_hdl_sim.Pcie.Request.Gather.{chosen_beats, put_list, gather_beats_lem}

put_list_outside :
    (xs : List ℕ) (at : ℕ) (b : Bytes) (i : ℕ)
    → (i < at) ⊎ (at + length xs ≤ i)
    → put_list at xs b i ≡ b i
put_list_outside [] at b i h = refl
put_list_outside (x ∷ xs) at b i h =
    put_list_outside xs (at + 1) (store 1 at x b) i (ground arith)
    ∙ store_outside 1 at x b i (ground arith)

store_byte : (at x : ℕ) (b : Bytes) → store 1 at x b at ≡ x % 256
unfolding store
store_byte at x b =
    let e : at - at ≡ 0 = omega arith in ground (arith, ap (λ (t : ℕ). x / 256 ^ t % 256) e)

put_list_inside :
    (xs : List ℕ) (at : ℕ) (b : Bytes) (n x : ℕ)
    → get_elem? xs n ≡ some x
    → put_list at xs b (at + n) ≡ x % 256
put_list_inside [] at b n x e = ground arith
put_list_inside (y ∷ xs) at b zero x e =
    let p : at + 0 ≡ at = omega arith in
    rw p (
      put_list_outside xs (at + 1) (store 1 at y b) at (inl (omega arith))
      ∙ store_byte at y b
      ∙ ground arith)
put_list_inside (y ∷ xs) at b (suc n) x e =
    let p : at + suc n ≡ at + 1 + n = omega arith in
    rw p (put_list_inside xs (at + 1) (store 1 at y b) n x e)

-- The frame that a write of the host sends: the strobed bytes, and behind them what `acc` held.
pub record IsWrite (addr size : ℕ) (xs : List ℕ) (acc : Bytes) (f : Frame) : Type 0 where
  pub whole : f.size ≡ AccData.size
  pub op : AccData.op f.bytes ≡ op_code write
  pub address : AccData.address f.bytes ≡ addr
  pub data_size : AccData.data_size f.bytes ≡ size
  pub gathered : (n x : ℕ) → get_elem? xs n ≡ some x → AccData.data_at f.bytes n ≡ x % 256
  pub untouched :
      (n : ℕ) → length xs ≤ n → n < buff_size → AccData.data_at f.bytes n ≡ AccData.data_at acc n

module _ (bridge : Bridge) (addr width len : ℕ) (bus_data : Bytes) (strb : ℕ → ℕ)
    (acc : Bytes) where
  header : Bytes
  header =
      AccData.set_op (op_code write)
        (AccData.set_address addr (AccData.set_data_size (transfer_size width len) acc))

  abbrev pub strobed : List ℕ
  strobed = chosen_beats bridge.busw bus_data strb 0 (len + 1)

  kept : (w at : ℕ) → at + w ≤ 21 → load w at (put_list 21 strobed header) ≡ load w at header
  kept w at h =
      load_ext w at _ header (λ i p q. put_list_outside strobed 21 header i (inl (omega arith)))

  header_fields :
      (AccData.op header ≡ op_code write)
      × (AccData.address header ≡ addr % 2 ^ 64)
      × (AccData.data_size header ≡ transfer_size width len % 2 ^ 32)
  unfolding header load store
  header_fields =
      (refl, load-store_self 8 8 addr acc, load-store_self 4 4 (transfer_size width len) acc)

  header_data : (n : ℕ) → n < buff_size → AccData.data_at header n ≡ AccData.data_at acc n
  unfolding header store
  header_data n h = ground arith

  -- Where the lanes of the burst fit the HDL's arrays of BUFF_SIZE bytes, `C_req_write` sends one
  -- frame: a write to the address, of the burst's size, whose data are the strobed bytes in the
  -- order of their lanes. The rest of the data buffer is what the stack held before. The address
  -- is in the range of its field, the size does not overflow an `int`, and the send succeeds.
  pub req_write-IsWrite :
      addr < 2 ^ 64
      → size_fits width len ≡ true
      → (len + 1) * bridge.busw ≤ buff_size
      → (f : Frame) × (effects (req_write bridge addr width len bus_data strb acc true)
          ≡ sent hdl_req f ∷ [])
        × IsWrite addr (transfer_size width len) strobed acc f
  unfolding req_write header
  req_write-IsWrite word fits lanes =
      let (t, e) =
        gather_beats_lem bridge bus_data (len + 1) 0 (record { acc = header; k = 0; strb = strb })
          (omega arith) (omega arith) in
      (record { size = AccData.size; bytes = put_list 21 strobed header }, rw (fits, e), made)
    where
      made :
          IsWrite addr
            (transfer_size width len)
            strobed
            acc
            (record { size = AccData.size; bytes = put_list 21 strobed header })
      made = record {
        whole = refl;
        op = kept 4 16 (omega arith) ∙ header_fields.0;
        address = kept 8 8 (omega arith) ∙ header_fields.1 ∙ omega arith;
        data_size = kept 4 4 (omega arith) ∙ header_fields.2 ∙ ground arith;
        gathered = λ n x h. put_list_inside strobed 21 header n x h;
        untouched = λ n p q.
            put_list_outside strobed 21 header (21 + n) (inr (omega arith)) ∙ header_data n q;
      }
