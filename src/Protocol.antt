-- ===== src/Protocol.antt =====
-- acc.h: the operations, the structures that the frames carry, and the sockets. A structure is
-- its bytes; the children give each field's offset on x86-64.
pub mod AccData
pub mod AccNicData
pub mod AccConf
pub mod Endpoint
use qemu_hdl_sim.Base.{ℕ, Option, none, some, ◌==◌, if◌then◌else◌}

-- BUFF_SIZE
abbrev pub buff_size : ℕ
buff_size = 4096

-- ACCOperations
pub data AccOp : Type 0 where
  noop read write intr init : AccOp

abbrev pub op_code : AccOp → ℕ
op_code noop = 0
op_code read = 1
op_code write = 2
op_code intr = 3
op_code init = 4

-- The cases of a `switch` on an op; `none` is its default.
abbrev pub op_of_code : ℕ → Option AccOp
op_of_code c =
    if c == 0
    then some noop
    else if c == 1
    then some read
    else if c == 2
    then some write
    else if c == 3
    then some intr
    else if c == 4
    then some init
    else none

-- QEMUOperations, with the NOOP that `C_poll` may answer instead.
pub data QemuOp : Type 0 where
  nothing m_rd m_wr s_rd : QemuOp
