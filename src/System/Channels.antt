-- ===== src/System/Channels.antt =====
-- The sockets of the device meet those of the bridges.
use qemu_hdl_sim.Base.{
  ◌≡◌, refl, ◌⊎◌, inl, inr, true, Option, none, some, List, [], ◌∷◌, ◌++◌, ℤ, zeroes, ◌==◌,
  if◌then◌else◌, effects,
}
use qemu_hdl_sim.Protocol.Endpoint.{
  binds, connects, push, pull, Opened, Channel, index, init_req, init_resp, qemu_req, qemu_resp,
  hdl_req, hdl_resp, nic_req, nic_resp, serial_rx, serial_tx, sender, receiver,
}
use qemu_hdl_sim.Device.Lifecycle
use qemu_hdl_sim.Pcie.Setup
use qemu_hdl_sim.NicBridge
use qemu_hdl_sim.UartBridge

-- The end of a channel among those that were opened.
abbrev pub find_end : Channel → List (Channel × Opened) → Option Opened
find_end c [] = none
find_end c ((d, o) ∷ rest) = if index c == index d then some o else find_end c rest

abbrev device_ends : List Lifecycle.Effect → List (Channel × Opened)
device_ends [] = []
device_ends (Lifecycle.opened c o ∷ es) = (c, o) ∷ device_ends es
device_ends (_ ∷ es) = device_ends es

abbrev pcie_ends : List Setup.Effect → List (Channel × Opened)
pcie_ends [] = []
pcie_ends (Setup.opened c o ∷ es) = (c, o) ∷ pcie_ends es
pcie_ends (_ ∷ es) = pcie_ends es

abbrev nic_ends : List NicBridge.Effect → List (Channel × Opened)
nic_ends [] = []
nic_ends (NicBridge.opened c o ∷ es) = (c, o) ∷ nic_ends es
nic_ends (_ ∷ es) = nic_ends es

abbrev uart_ends : List UartBridge.Effect → List (Channel × Opened)
uart_ends [] = []
uart_ends (UartBridge.opened c o ∷ es) = (c, o) ∷ uart_ends es
uart_ends (_ ∷ es) = uart_ends es

-- The ends that `acc_pcie_class_init` and `acc_pcie_realize` open, and those of the three bridges.
pub qemu_side : ℤ → List (Channel × Opened)
unfolding Lifecycle.class_init_at Lifecycle.open_sockets
qemu_side port =
    device_ends (effects (Lifecycle.class_init_at port 0 zeroes true none))
    ++ device_ends (effects (Lifecycle.open_sockets port))

pub hdl_side : ℤ → List (Channel × Opened)
unfolding Setup.open_sockets NicBridge.open_sockets UartBridge.open_sockets
hdl_side port =
    pcie_ends (effects (Setup.open_sockets port))
    ++ (nic_ends (effects (NicBridge.open_sockets port))
        ++ uart_ends (effects (UartBridge.open_sockets port)))

-- Two ends at one port: one binds and pushes, the other connects and pulls.
pub data Mates (a b : Opened) : Type 0 where
  mates :
      a.endpoint.port ≡ b.endpoint.port
      → a.direction ≡ push
      → a.endpoint.mode ≡ binds
      → b.direction ≡ pull
      → b.endpoint.mode ≡ connects
      → Mates a b

-- Every channel has an end on the QEMU side and one on the HDL side, and at every base port the two
-- meet: they are at the same port, one of them binds and pushes, and the other connects and pulls.
pub channels_mate :
    (port : ℤ) (c : Channel)
    → (a b : Opened) × (find_end c (qemu_side port) ≡ some a)
      × (find_end c (hdl_side port) ≡ some b)
      × (Mates a b ⊎ Mates b a)
unfolding qemu_side hdl_side
channels_mate port init_req =
    (sender _, receiver _, refl, refl, inl (mates refl refl refl refl refl))
channels_mate port init_resp =
    (receiver _, sender _, refl, refl, inr (mates refl refl refl refl refl))
channels_mate port qemu_req =
    (sender _, receiver _, refl, refl, inl (mates refl refl refl refl refl))
channels_mate port qemu_resp =
    (receiver _, sender _, refl, refl, inr (mates refl refl refl refl refl))
channels_mate port hdl_req =
    (receiver _, sender _, refl, refl, inr (mates refl refl refl refl refl))
channels_mate port hdl_resp =
    (sender _, receiver _, refl, refl, inl (mates refl refl refl refl refl))
channels_mate port nic_req =
    (sender _, receiver _, refl, refl, inl (mates refl refl refl refl refl))
channels_mate port nic_resp =
    (receiver _, sender _, refl, refl, inr (mates refl refl refl refl refl))
channels_mate port serial_rx =
    (sender _, receiver _, refl, refl, inl (mates refl refl refl refl refl))
channels_mate port serial_tx =
    (receiver _, sender _, refl, refl, inr (mates refl refl refl refl refl))
