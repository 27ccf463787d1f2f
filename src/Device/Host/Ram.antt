-- ===== src/Device/Host/Ram.antt =====
-- What a read of host memory answers, over a memory that keeps what is written to it.
use qemu_hdl_sim.Base.{
  ℕ, ◌+◌, ◌-◌, ◌≤◌, ◌<◌, ◌≡◌, refl, arith, inl, inr, Bytes, Frame, within, if◌then◌else◌, ◌∙◌, ap,
}
use qemu_hdl_sim.Base.Memory.Laws.{load-copy_apart, copy_inside, copy_outside}
use qemu_hdl_sim.Protocol.AccData
use qemu_hdl_sim.Device.Host.{HostMemory, answer}

-- The documented behaviour of QEMU's physical memory where it is RAM: a fetch sees the bytes of
-- the last write that covers them.
pub record IsRam (host : HostMemory) : Type 0 where
  pub fetch_put :
      (m : host.Memory) (a n : ℕ) (b : Bytes) (a' n' i : ℕ)
      → i < n'
      → host.fetch (host.put m a n b) a' n' i
        ≡ (if within a n (a' + i) then b (a' + i - a) else host.fetch m a' n' i)

module _ (host : HostMemory) where
  -- The answer to a read within the data buffer has the request's own id, size, address, op, BAR
  -- and vector, the memory's bytes at its address in the first `data_size` bytes of its data, and
  -- the request's bytes behind them.
  pub answer_lem :
      (m : host.Memory) (f : Frame)
      → AccData.data_size f.bytes ≤ 4096
      → let g = answer host m f in
        (g.size ≡ f.size)
        × (AccData.id g.bytes ≡ AccData.id f.bytes)
        × (AccData.data_size g.bytes ≡ AccData.data_size f.bytes)
        × (AccData.address g.bytes ≡ AccData.address f.bytes)
        × (AccData.op g.bytes ≡ AccData.op f.bytes)
        × (AccData.bar_num g.bytes ≡ AccData.bar_num f.bytes)
        × (AccData.vector g.bytes ≡ AccData.vector f.bytes)
        × ((i : ℕ)
            → i < AccData.data_size f.bytes
            → AccData.data_at g.bytes i
              ≡ host.fetch m (AccData.address f.bytes) (AccData.data_size f.bytes) i)
        × ((i : ℕ)
            → AccData.data_size f.bytes ≤ i
            → AccData.data_at g.bytes i ≡ AccData.data_at f.bytes i)
  unfolding answer
  answer_lem m f h =
      let n = AccData.data_size f.bytes in
      let from = host.fetch m (AccData.address f.bytes) n in
      (
        refl,
        load-copy_apart 4 0 f.bytes 21 from 0 n (inl (omega arith)),
        load-copy_apart 4 4 f.bytes 21 from 0 n (inl (omega arith)),
        load-copy_apart 8 8 f.bytes 21 from 0 n (inl (omega arith)),
        load-copy_apart 4 16 f.bytes 21 from 0 n (inl (omega arith)),
        load-copy_apart 1 20 f.bytes 21 from 0 n (inl (omega arith)),
        load-copy_apart 4 4120 f.bytes 21 from 0 n (inr (omega arith)),
        λ i p. copy_inside f.bytes 21 from 0 n i p ∙ ap from (omega arith),
        λ i p. copy_outside f.bytes 21 from 0 n (21 + i) (inr (omega arith)),
      )
