-- ===== src/Device/Lifecycle/Start.antt =====
-- When `acc_pcie_class_init` gives up.
use Prim.Native.String.{String}
use qemu_hdl_sim.Base.{
  ℕ, ◌<◌, ◌≡◌, refl, arith, true, false, Option, none, some, ℤ, Bytes, Frame, ltb, result, halts,
  exits, returns, ◌⊎◌, inl, inr, Bool-cases, ◌≤◌,
}
use qemu_hdl_sim.Protocol.AccConf
use qemu_hdl_sim.Device.Log.{is_empty}
use qemu_hdl_sim.Device.Lifecycle.{Class, configure, class_init_at, class_init}

-- No port, or no reply with a whole configuration.
pub data IsRefused (port_str : Option String) (reply : Option Frame) : Type 0 where
  unset : port_str ≡ none → IsRefused port_str reply
  empty : (s : String) → port_str ≡ some s → is_empty s ≡ true → IsRefused port_str reply
  unanswered : reply ≡ none → IsRefused port_str reply
  short : (f : Frame) → reply ≡ some f → f.size < AccConf.size → IsRefused port_str reply

-- A port, and a reply with a whole configuration.
pub data IsAnswered (port_str : Option String) (reply : Option Frame) : Type 0 where
  answered :
      (s : String) (f : Frame)
      → port_str ≡ some s
      → is_empty s ≡ false
      → reply ≡ some f
      → AccConf.size ≤ f.size
      → IsAnswered port_str reply

module _ (atoi : String → ℤ) (counter : ℕ) (storage : Bytes) where
  -- When its request can be sent, `acc_pcie_class_init` has two ends: it exits with status 1 where
  -- the port is unset or empty or the reply is missing or shorter than an ACCConf, and it returns a
  -- class where there is a port and a whole reply.
  pub class_init_lem :
      (port_str : Option String) (reply : Option Frame)
      → (IsRefused port_str reply
          × (result (class_init atoi port_str counter storage true reply) ≡ halts (exits 1)))
        ⊎ (IsAnswered port_str reply
            × (k : Class) × (result (class_init atoi port_str counter storage true reply)
                ≡ returns k))
  unfolding class_init class_init_at configure
  class_init_lem none reply = inl (unset refl, refl)
  class_init_lem (some s) none = elim (Bool-cases (is_empty s)) [
    | inl e ↦ inl (empty s refl e, rw e refl)
    | inr e ↦ inl (unanswered refl, rw e refl)
  ]
  class_init_lem (some s) (some f) = elim (Bool-cases (is_empty s)) [
    | inl e ↦ inl (empty s refl e, rw e refl)
    | inr e ↦ elim (Bool-cases (ltb f.size AccConf.size)) [
      | inl cut ↦ inl (short f refl (ground arith), rw (e, cut) refl)
      | inr whole ↦
          let long : AccConf.size ≤ f.size = ground arith in
          rw (e, whole) (inr (answered s f refl e refl long, _, refl))
    ]
  ]
