-- ===== src/Device/Mmio.antt =====
-- The callbacks of the BARs: MMIO_WRITE_BAR and MMIO_READ_BAR, whose parameter `_num` is an
-- argument here, and the transaction counter. The answer that `acc_zframe_recv_logged` returns
-- is a function of the frame that was sent. Frames are always created: `zframe_new` fails for
-- want of memory only.
pub mod Laws
pub mod Ids
use qemu_hdl_sim.Base.{
  ℕ, ◌+◌, ◌%◌, ◌^◌, Option, none, some, Bytes, zeroes, load, store, Frame, ltb, ◌==◌, if◌then◌else◌,
}
use qemu_hdl_sim.Protocol.{AccOp, read, write, op_code}
use qemu_hdl_sim.Protocol.AccData

-- `acc_next_txid`: `qatomic_fetch_add(&acc_global_txid, 1) + 1`. The first part is the value
-- returned, the second the counter left.
unfoldable pub next_txid : ℕ → ℕ × ℕ
next_txid counter = ((counter + 1) % 2 ^ 64, (counter + 1) % 2 ^ 64)

-- What a callback did: the frame it sent on `qemu_req`, the counter it left, and what it returned.
pub record Access (A : Type 0) : Type 0 where
  pub request : Frame
  pub counter : ℕ
  pub value : A

-- The `switch` on the size of a read.
unfoldable pub data_of_size : ℕ → Bytes → ℕ
data_of_size size b =
    if size == 1
    then load 1 AccData.data_offset b
    else if size == 2
    then load 2 AccData.data_offset b
    else if size == 4
    then load 4 AccData.data_offset b
    else if size == 8
    then load 8 AccData.data_offset b
    else 0

-- What a read returns for an answer: 0 if there is none or if it is shorter than an ACCData.
unfoldable pub read_value : ℕ → Option Frame → ℕ
read_value size none = 0
read_value size (some f) = if ltb f.size AccData.size then 0 else data_of_size size f.bytes

module _ (num : ℕ) (counter addr : ℕ) where
  -- The request of a write of `val`, `size` bytes long.
  unfoldable pub write_request : ℕ → ℕ → Bytes
  unfolding next_txid
  write_request val size =
      let txid = (next_txid counter).0 in
      AccData.set_data_size size (
        AccData.set_op (op_code write) (
          store 8 AccData.data_offset val (
            AccData.set_address addr
              (AccData.set_bar_num num (AccData.set_id (txid % 2 ^ 32) zeroes)))))

  -- `mmio_write_bar##_num`. A failed send and a missing answer are logged and ignored.
  unfoldable pub mmio_write : ℕ → ℕ → (Frame → Option Frame) → Access (Unit {0})
  unfolding write_request
  mmio_write val size answer = record {
    request = record { size = AccData.size; bytes = write_request val size };
    counter = (next_txid counter).1;
    value = tt;
  }

  unfoldable pub read_request : ℕ → Bytes
  unfolding next_txid
  read_request size =
      let txid = (next_txid counter).0 in
      AccData.set_data_size size (
        AccData.set_op (op_code read) (
          AccData.set_address addr
            (AccData.set_bar_num num (AccData.set_id (txid % 2 ^ 32) zeroes))))

  -- `mmio_read_bar##_num`
  unfoldable pub mmio_read : ℕ → (Frame → Option Frame) → Access ℕ
  unfolding read_request read_value
  mmio_read size answer =
      let request : Frame = record { size = AccData.size; bytes = read_request size } in
      record {
        request = request;
        counter = (next_txid counter).1;
        value = read_value size (answer request);
      }
