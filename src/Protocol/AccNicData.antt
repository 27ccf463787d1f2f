-- ===== src/Protocol/AccNicData.antt =====
-- ACCNICData: last at 0, size at 4, id at 8, data from 12 up to 4108.
use qemu_hdl_sim.Base.{ℕ, ◌+◌, Bytes, load, store}

-- sizeof(ACCNICData)
abbrev pub struct_size : ℕ
struct_size = 4108

-- offsetof(ACCNICData, data)
abbrev pub data_offset : ℕ
data_offset = 12

abbrev pub size : Bytes → ℕ
size b = load 4 4 b

abbrev pub id : Bytes → ℕ
id b = load 4 8 b

abbrev pub data_at : Bytes → ℕ → ℕ
data_at b i = b (data_offset + i)

abbrev pub set_size : ℕ → Bytes → Bytes
set_size v b = store 4 4 v b

abbrev pub set_id : ℕ → Bytes → Bytes
set_id v b = store 4 8 v b
