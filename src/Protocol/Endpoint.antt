-- ===== src/Protocol/Endpoint.antt =====
-- The socket endpoints: SOCK_BASE is TCP_MODE, "%stcp://127.0.0.1:%d", with SEND_SOCK "@" for the
-- side that binds and RECV_SOCK ">" for the side that connects. A port is a C `int`, whose
-- overflow is not modelled: `port + 10` stays in range for every TCP port.
use qemu_hdl_sim.Base.{ℕ, ℤ}

-- SEND_SOCK and RECV_SOCK
pub data Mode : Type 0 where
  binds connects : Mode

-- `sprintf(buffer, SOCK_BASE, mode, port)`
pub record Endpoint : Type 0 where
  pub mode : Mode
  pub port : ℤ

-- `zsock_new_push` and `zsock_new_pull`
pub data Direction : Type 0 where
  push pull : Direction

-- What one side opens: a socket of a direction at an endpoint.
pub record Opened : Type 0 where
  pub direction : Direction
  pub endpoint : Endpoint

-- The ten channels, by the names that accelerator_pcie.c gives its ends; the two of the start-up
-- exchange are `initsock` and `initsock2`.
pub data Channel : Type 0 where
  init_req init_resp qemu_req qemu_resp hdl_req hdl_resp : Channel
  nic_req nic_resp serial_rx serial_tx : Channel

-- `zsock_new_push` at "@" and `zsock_new_pull` at ">": every use of them in the program.
abbrev pub sender : ℤ → Opened
sender p = record { direction = push; endpoint = record { mode = binds; port = p } }

abbrev pub receiver : ℤ → Opened
receiver p = record { direction = pull; endpoint = record { mode = connects; port = p } }

-- A number for each channel, by which they are compared.
abbrev pub index : Channel → ℕ
index init_req = 0
index init_resp = 1
index qemu_req = 2
index qemu_resp = 3
index hdl_req = 4
index hdl_resp = 5
index nic_req = 6
index nic_resp = 7
index serial_rx = 8
index serial_tx = 9
