-- ===== src/Base/Memory.antt =====
-- The bytes of a C object, by offset, and the frames that the sockets carry. Integers are
-- little-endian, as on the x86-64 hosts that both programs run on.
pub mod Laws
use Prim.Native.Nat.{ℕ, zero, suc, ◌+◌, ◌-◌, ◌*◌, ◌/◌, ◌%◌, ◌^◌, ◌≤◌, ◌<◌}
use mathlib.Core.Bool.{Bool, ◌&&◌}
use qemu_hdl_sim.Base.Tests.{ltb, leb, if◌then◌else◌}

abbrev pub Bytes : Type 0
Bytes = ℕ → ℕ

-- `memset(&object, 0, size)`
unfoldable pub zeroes : Bytes
zeroes i = 0

-- Is `i` one of the `n` offsets from `start` on?
abbrev pub within : ℕ → ℕ → ℕ → Bool
within start n i = leb start i && ltb i (start + n)

-- Writes an integer of `w` bytes at an offset; what does not fit in them is cut off.
unfoldable pub store : ℕ → ℕ → ℕ → Bytes → Bytes
store w at v b i = if within at w i then v / 256 ^ (i - at) % 256 else b i

-- Reads an integer of `w` bytes at an offset.
unfoldable pub load : ℕ → ℕ → Bytes → ℕ
load zero at b = 0
load (suc w) at b = b at + 256 * load w (suc at) b

-- `memcpy(target + to, source + from, n)`
unfoldable pub copy : Bytes → ℕ → Bytes → ℕ → ℕ → Bytes
copy target to source from n i = if within to n i then source (from + (i - to)) else target i

pub record Frame : Type 0 where
  pub size : ℕ
  pub bytes : Bytes
