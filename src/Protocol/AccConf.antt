-- ===== src/Protocol/AccConf.antt =====
-- ACCConf: six BARConf of 24 bytes (is_valid at 0, size at 8, offset at 16), then is_64 at 144,
-- prefetch at 145, device_id at 146, vendor_id at 148, msix_vec_num at 150, msix_table_bar at
-- 152, msix_table_offset at 160, msix_pba_bar at 168, msix_pba_offset at 176.
use qemu_hdl_sim.Base.{ℕ, ◌+◌, ◌*◌, Bytes, load, store}

-- sizeof(ACCConf)
abbrev pub size : ℕ
size = 184

abbrev pub bar_is_valid : ℕ → Bytes → ℕ
bar_is_valid n b = load 1 (24 * n) b

abbrev pub bar_size : ℕ → Bytes → ℕ
bar_size n b = load 8 (24 * n + 8) b

abbrev pub bar_offset : ℕ → Bytes → ℕ
bar_offset n b = load 8 (24 * n + 16) b

abbrev pub is_64 : Bytes → ℕ
is_64 b = load 1 144 b

abbrev pub prefetch : Bytes → ℕ
prefetch b = load 1 145 b

abbrev pub device_id : Bytes → ℕ
device_id b = load 2 146 b

abbrev pub vendor_id : Bytes → ℕ
vendor_id b = load 2 148 b

abbrev pub msix_vec_num : Bytes → ℕ
msix_vec_num b = load 2 150 b

abbrev pub msix_table_bar : Bytes → ℕ
msix_table_bar b = load 2 152 b

abbrev pub msix_table_offset : Bytes → ℕ
msix_table_offset b = load 8 160 b

abbrev pub msix_pba_bar : Bytes → ℕ
msix_pba_bar b = load 2 168 b

abbrev pub msix_pba_offset : Bytes → ℕ
msix_pba_offset b = load 8 176 b

abbrev pub set_bar_is_valid : ℕ → ℕ → Bytes → Bytes
set_bar_is_valid n v b = store 1 (24 * n) v b

abbrev pub set_bar_size : ℕ → ℕ → Bytes → Bytes
set_bar_size n v b = store 8 (24 * n + 8) v b

abbrev pub set_bar_offset : ℕ → ℕ → Bytes → Bytes
set_bar_offset n v b = store 8 (24 * n + 16) v b

abbrev pub set_is_64 : ℕ → Bytes → Bytes
set_is_64 v b = store 1 144 v b

abbrev pub set_prefetch : ℕ → Bytes → Bytes
set_prefetch v b = store 1 145 v b

abbrev pub set_device_id : ℕ → Bytes → Bytes
set_device_id v b = store 2 146 v b

abbrev pub set_vendor_id : ℕ → Bytes → Bytes
set_vendor_id v b = store 2 148 v b

abbrev pub set_msix_vec_num : ℕ → Bytes → Bytes
set_msix_vec_num v b = store 2 150 v b

abbrev pub set_msix_table_bar : ℕ → Bytes → Bytes
set_msix_table_bar v b = store 2 152 v b

abbrev pub set_msix_table_offset : ℕ → Bytes → Bytes
set_msix_table_offset v b = store 8 160 v b

abbrev pub set_msix_pba_bar : ℕ → Bytes → Bytes
set_msix_pba_bar v b = store 2 168 v b

abbrev pub set_msix_pba_offset : ℕ → Bytes → Bytes
set_msix_pba_offset v b = store 8 176 v b
