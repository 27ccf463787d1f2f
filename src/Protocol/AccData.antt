-- ===== src/Protocol/AccData.antt =====
-- ACCData: id at 0, data_size at 4, address at 8, op at 16, bar_num at 20, data from 21 up to
-- 4117, three bytes of padding, vector at 4120, and four more bytes of padding.
use qemu_hdl_sim.Base.{ℕ, ◌+◌, Bytes, load, store}

-- sizeof(ACCData)
abbrev pub size : ℕ
size = 4128

-- offsetof(ACCData, data)
abbrev pub data_offset : ℕ
data_offset = 21

abbrev pub id : Bytes → ℕ
id b = load 4 0 b

abbrev pub data_size : Bytes → ℕ
data_size b = load 4 4 b

abbrev pub address : Bytes → ℕ
address b = load 8 8 b

abbrev pub op : Bytes → ℕ
op b = load 4 16 b

abbrev pub bar_num : Bytes → ℕ
bar_num b = load 1 20 b

abbrev pub data_at : Bytes → ℕ → ℕ
data_at b i = b (data_offset + i)

abbrev pub vector : Bytes → ℕ
vector b = load 4 4120 b

abbrev pub set_id : ℕ → Bytes → Bytes
set_id v b = store 4 0 v b

abbrev pub set_data_size : ℕ → Bytes → Bytes
set_data_size v b = store 4 4 v b

abbrev pub set_address : ℕ → Bytes → Bytes
set_address v b = store 8 8 v b

abbrev pub set_op : ℕ → Bytes → Bytes
set_op v b = store 4 16 v b

abbrev pub set_bar_num : ℕ → Bytes → Bytes
set_bar_num v b = store 1 20 v b

abbrev pub set_vector : ℕ → Bytes → Bytes
set_vector v b = store 4 4120 v b
