-- ===== src/System/Init.antt =====
-- The start-up exchange: the device gets the configuration that the HDL was set up with.
use qemu_hdl_sim.Base.{
  ℕ, ◌+◌, ◌*◌, ◌≤◌, ◌≡◌, refl, sym, ◌∙◌, ap, arith, true, some, [], ◌∷◌, ℤ, Bytes, load, copy,
  Frame, effects, result, returns,
}
use qemu_hdl_sim.Base.Memory.Laws.{load_ext, copy_inside}
use qemu_hdl_sim.Protocol.AccConf
use qemu_hdl_sim.Device.Lifecycle.{Class, class_init_at}
use qemu_hdl_sim.Pcie.Setup.{Parameters, Bridge}
use qemu_hdl_sim.Pcie.Setup.Fields.{IsConfigured}
use qemu_hdl_sim.Pcie.Poll.{Signals, conf_sent, init_ready, poll}

module _ (storage conf : Bytes) where
  abbrev received : Bytes
  received = copy storage 0 conf 0 AccConf.size

  same_load : (w at : ℕ) → at + w ≤ AccConf.size → load w at received ≡ load w at conf
  same_load w at h = load_ext w at received conf λ i p q.
      let e : 0 + i ≡ i = omega arith in
      ap received (sym e) ∙ copy_inside storage 0 conf 0 AccConf.size i (omega arith) ∙ ap conf e

  received-IsConfigured : (p : Parameters) → IsConfigured p conf → IsConfigured p received
  received-IsConfigured p c = record {
    bar_is_valid = λ i h. same_load 1 (24 * i) (omega arith) ∙ c.bar_is_valid i h;
    bar_size = λ i h. same_load 8 (24 * i + 8) (omega arith) ∙ c.bar_size i h;
    bar_offset = λ i h. same_load 8 (24 * i + 16) (omega arith) ∙ c.bar_offset i h;
    is_64 = same_load 1 144 (omega arith) ∙ c.is_64;
    prefetch = same_load 1 145 (omega arith) ∙ c.prefetch;
    device_id = same_load 2 146 (omega arith) ∙ c.device_id;
    vendor_id = same_load 2 148 (omega arith) ∙ c.vendor_id;
    msix_vec_num = same_load 2 150 (omega arith) ∙ c.msix_vec_num;
    msix_table_bar = same_load 2 152 (omega arith) ∙ c.msix_table_bar;
    msix_table_offset = same_load 8 160 (omega arith) ∙ c.msix_table_offset;
    msix_pba_bar = same_load 2 168 (omega arith) ∙ c.msix_pba_bar;
    msix_pba_offset = same_load 8 176 (omega arith) ∙ c.msix_pba_offset;
  }

-- When the bridge's configuration has the parameters in its fields, `C_poll` answers the start-up
-- request with one frame, and from that frame `acc_pcie_class_init` returns a class whose
-- configuration has the same parameters and whose vendor and device are the HDL's. The request of
-- the device can be sent.
pub class_init-IsConfigured :
    (p : Parameters) (bridge : Bridge) (s : Signals) (port : ℤ) (counter : ℕ) (storage : Bytes)
    → IsConfigured p bridge.conf
    → (f : Frame) × (k : Class) × (effects (poll bridge init_ready s) ≡ conf_sent f ∷ [])
      × (result (class_init_at port counter storage true (some f)) ≡ returns k)
      × IsConfigured p k.hdlconf
      × (k.vendor_id ≡ p.vendorid)
      × (k.device_id ≡ p.deviceid)
unfolding poll class_init_at
class_init-IsConfigured p bridge s port counter storage c =
    let made = received-IsConfigured storage bridge.conf p c in
    (
      record { size = AccConf.size; bytes = bridge.conf },
      record {
        hdlconf = received storage bridge.conf;
        counter = _;
        vendor_id = _;
        device_id = _;
        revision = _;
      },
      refl,
      refl,
      made,
      made.vendor_id,
      made.device_id,
    )
