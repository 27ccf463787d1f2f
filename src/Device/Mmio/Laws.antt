-- ===== src/Device/Mmio/Laws.antt =====
-- The requests that the BAR callbacks send, and what a read makes of an answer.
use qemu_hdl_sim.Base.{
  ℕ, zero, suc, ◌+◌, ◌%◌, ◌^◌, ◌≤◌, ◌<◌, ◌≡◌, refl, arith, Option, none, some, Bytes, zeroes, load,
  store, Frame,
}
use native.Mathlib.Nat.{pow-succ', one-le-pow}
use qemu_hdl_sim.Base.Memory.Laws.{load-store_self}
use qemu_hdl_sim.Protocol.{write, read, op_code}
use qemu_hdl_sim.Protocol.AccData
use qemu_hdl_sim.Device.Mmio.{data_of_size, read_value, mmio_write, mmio_read}

-- The fields of a request as the HDL side reads them.
pub record IsRequest (num id addr op size : ℕ) (f : Frame) : Type 0 where
  pub whole : f.size ≡ AccData.size
  pub id_field : AccData.id f.bytes ≡ id
  pub bar_field : AccData.bar_num f.bytes ≡ num
  pub address_field : AccData.address f.bytes ≡ addr
  pub op_field : AccData.op f.bytes ≡ op
  pub size_field : AccData.data_size f.bytes ≡ size
  pub vector_field : AccData.vector f.bytes ≡ 0

-- Bytes are below 256.
abbrev pub IsBytes : Bytes → Type 0
IsBytes b = (i : ℕ) → b i < 256

module _ (num counter addr size : ℕ) (bar : num < 6) (word : addr < 2 ^ 64)
    (small : size < 2 ^ 32) where
  -- `mmio_write` sends one ACCData: a write to the BAR's number and the address, with the next
  -- transaction id cut to 32 bits and the size of the access, in its data the eight bytes of the
  -- value, and 0 everywhere behind them. Number, address and size are in the ranges of their fields.
  pub mmio_write-IsRequest :
      (val : ℕ) (answer : Frame → Option Frame)
      → let f = (mmio_write num counter addr val size answer).request in
        IsRequest num ((counter + 1) % 2 ^ 32) addr (op_code write) size f
        × (load 8 AccData.data_offset f.bytes ≡ val % 2 ^ 64)
        × ((i : ℕ) → 8 ≤ i → i < 4096 → AccData.data_at f.bytes i ≡ 0)
  unfolding mmio_write load store zeroes
  mmio_write-IsRequest val answer = (
    record {
      whole = refl;
      id_field = omega (arith, load-store_self 4 0 ((counter + 1) % 2 ^ 32) zeroes);
      bar_field = omega (arith, load-store_self 1 20 num zeroes);
      address_field = omega (arith, load-store_self 8 8 addr zeroes);
      op_field = refl;
      size_field = omega (arith, load-store_self 4 4 size zeroes);
      vector_field = refl;
    },
    omega (arith, load-store_self 8 21 val zeroes),
    λ i p q. ground arith,
  )

  -- `mmio_read` sends one ACCData: a read of the BAR's number and the address, with the next
  -- transaction id cut to 32 bits and the size of the access, and with no data. Number, address and
  -- size are in the ranges of their fields.
  pub mmio_read-IsRequest :
      (answer : Frame → Option Frame)
      → let f = (mmio_read num counter addr size answer).request in
        IsRequest num ((counter + 1) % 2 ^ 32) addr (op_code read) size f
        × ((i : ℕ) → i < 4096 → AccData.data_at f.bytes i ≡ 0)
  unfolding mmio_read load store zeroes
  mmio_read-IsRequest answer = (
    record {
      whole = refl;
      id_field = omega (arith, load-store_self 4 0 ((counter + 1) % 2 ^ 32) zeroes);
      bar_field = omega (arith, load-store_self 1 20 num zeroes);
      address_field = omega (arith, load-store_self 8 8 addr zeroes);
      op_field = refl;
      size_field = omega (arith, load-store_self 4 4 size zeroes);
      vector_field = refl;
    },
    λ i q. ground arith,
  )

load-lt : (w at : ℕ) (b : Bytes) → IsBytes b → load w at b < 256 ^ w
unfolding load
load-lt zero at b h = omega arith
load-lt (suc w) at b h = rw (pow-succ' 256 w) (omega (arith, h at, load-lt w (suc at) b h))

data_of_size-lt : (size : ℕ) (b : Bytes) → IsBytes b → data_of_size size b < 256 ^ size
unfolding data_of_size
data_of_size-lt size b h = ground (
  arith,
  one-le-pow size 256,
  load-lt 1 21 b h,
  load-lt 2 21 b h,
  load-lt 4 21 b h,
  load-lt 8 21 b h,
)

read_value-lt : (size : ℕ) (f : Frame) → IsBytes f.bytes → read_value size (some f) < 256 ^ size
unfolding read_value data_of_size
read_value-lt size f h = ground (arith, one-le-pow size 256, data_of_size-lt size f.bytes h)

-- A read that gets no answer, or one shorter than an ACCData, returns 0. With any other answer, the
-- value fits the size that the guest asked for.
pub mmio_read_value :
    (num counter addr size : ℕ) (short full : Frame)
    → short.size < AccData.size
    → IsBytes full.bytes
    → ((mmio_read num counter addr size (λ f. none)).value ≡ 0)
      × ((mmio_read num counter addr size (λ f. some short)).value ≡ 0)
      × ((mmio_read num counter addr size (λ f. some full)).value < 256 ^ size)
unfolding mmio_read
mmio_read_value num counter addr size short full cut bytes =
    (unfold read_value in refl, unfold read_value in ground arith, read_value-lt size full bytes)
