-- ===== src/Pcie/Setup.antt =====
-- `C_setup_pcie_connection` and `C_teardown_pcie_connection`. What they print is not
-- modelled, but for a shift that is undefined.
pub mod Fields
use Prim.Native.String.{String}
use qemu_hdl_sim.Base.{
  ℕ, zero, suc, ◌+◌, ◌%◌, ◌^◌, ◌/◌, Bool, true, false, Option, none, some, List, ℤ, pos, negsuc,
  ◌+ℤ◌, Bytes, load, store, ltb, ◌==◌, if◌then◌else◌, Exec, ret, stop, emit, aborts, undefined,
  guard, perform, ◌>>=◌, ◌>>◌,
}
use qemu_hdl_sim.Protocol.AccConf
use qemu_hdl_sim.Protocol.Endpoint.{
  Opened, Channel, init_req, init_resp, qemu_req, qemu_resp, hdl_req, hdl_resp, sender, receiver,
}

-- What the HDL passes: the bus width in bytes, the identity, the attribute bits, the BARs by
-- number (a size is the exponent of 2), and MSI-X.
pub record Parameters : Type 0 where
  pub busw : ℕ
  pub vendorid : ℕ
  pub deviceid : ℕ
  pub attributes : ℕ
  pub valid_bars : ℕ → ℕ
  pub bar_size : ℕ → ℕ
  pub bar_offset : ℕ → ℕ
  pub msix_vec_num : ℕ
  pub msix_table_bar : ℕ
  pub msix_table_offset : ℕ
  pub msix_pba_bar : ℕ
  pub msix_pba_offset : ℕ

-- The globals that the other functions use: BUSW and `conf`.
pub record Bridge : Type 0 where
  pub busw : ℕ
  pub conf : Bytes

pub data Effect : Type 0 where
  opened : Channel → Opened → Effect
  poller_made : Effect
  destroyed : Channel → Effect

-- A `char` as a `bool`.
abbrev pub to_bool : ℕ → ℕ
to_bool c = if c == 0 then 0 else 1

-- The fields of one BAR.
unfoldable pub set_bar : Parameters → ℕ → Bytes → Bytes
set_bar p i b = AccConf.set_bar_offset i (p.bar_offset i) (
    AccConf.set_bar_size i (2 ^ p.bar_size i)
      (AccConf.set_bar_is_valid i (to_bool (p.valid_bars i)) b))

-- The loop over the BARs, from `i` on with `left` rounds left. `1ULL << n` is defined below 64.
unfoldable pub set_bars : Parameters → ℕ → ℕ → Bytes → Exec Effect Bytes
unfolding set_bar
set_bars p zero i b = ret b
set_bars p (suc left) i b =
    let rest = set_bars p left (i + 1) (set_bar p i b) in
    if ltb (p.bar_size i) 64 then rest else stop undefined

-- The fields that are set before the BARs: bit 0 of the attributes is `is_64`, bit 1 `prefetch`.
unfoldable pub set_identity : Parameters → Bytes → Bytes
set_identity p b = AccConf.set_prefetch (p.attributes / 2 % 2) (
    AccConf.set_is_64 (p.attributes % 2)
      (AccConf.set_vendor_id p.vendorid (AccConf.set_device_id p.deviceid b)))

unfoldable pub set_msix : Parameters → Bytes → Bytes
set_msix p b = AccConf.set_msix_pba_offset p.msix_pba_offset (
    AccConf.set_msix_pba_bar p.msix_pba_bar (
      AccConf.set_msix_table_offset p.msix_table_offset
        (AccConf.set_msix_table_bar p.msix_table_bar (AccConf.set_msix_vec_num p.msix_vec_num b))))

-- The fields of `conf`, all of which are set before anything is printed.
unfoldable pub set_conf : Parameters → Bytes → Exec Effect Bytes
unfolding set_bars set_identity set_msix
set_conf p conf = do b ← set_bars p 6 0 (set_identity p conf); ret (set_msix p b)

-- The loop that prints the BARs, from `i` on with `left` rounds left. It shifts the `int` 1 by the
-- size of a valid BAR, which is undefined from 31 on.
unfoldable pub print_bars : Bytes → ℕ → ℕ → Exec Effect (Unit {0})
print_bars conf zero i = ret tt
print_bars conf (suc left) i =
    let rest = print_bars conf left (i + 1) in
    if AccConf.bar_is_valid i conf == 0
    then rest
    else if ltb (AccConf.bar_size i conf) 31
    then rest
    else stop undefined

-- The sockets that the bridge opens.
unfoldable pub open_sockets : ℤ → Exec Effect (Unit {0})
open_sockets port = do
  perform (opened init_req (receiver (port +ℤ negsuc 0)))
  perform (opened init_resp (sender (port +ℤ pos 10)))
  perform (opened qemu_req (receiver port))
  perform (opened qemu_resp (sender (port +ℤ pos 1)))
  perform (opened hdl_req (sender (port +ℤ pos 2)))
  perform (opened hdl_resp (receiver (port +ℤ pos 3)))

module _ (atoi : String → ℤ) where
  -- `C_setup_pcie_connection`. `conf` is what the static holds before, `port_str` the variable
  -- NPU_COSIM_PORT (`atoi` of NULL is undefined), and `poller_ok` the success of `zpoller_new`.
  unfoldable pub setup_pcie_connection :
      Parameters → Bytes → Option String → Bool → Exec Effect Bridge
  unfolding set_conf print_bars open_sockets
  setup_pcie_connection p conf none poller_ok = stop undefined
  setup_pcie_connection p conf (some port_str) poller_ok = do
    b ← set_conf p conf
    print_bars b 6 0
    open_sockets (atoi port_str)
    guard poller_ok aborts
    perform poller_made
    ret (record { busw = p.busw; conf = b })

-- `C_teardown_pcie_connection`
unfoldable pub teardown_pcie_connection : Exec Effect (Unit {0})
teardown_pcie_connection = do
  perform (destroyed qemu_req)
  perform (destroyed qemu_resp)
  perform (destroyed hdl_req)
  perform (destroyed hdl_resp)
  perform (destroyed init_req)
  perform (destroyed init_resp)
