-- ===== src/Base/Signed.antt =====
-- Signed integers, and the signed 32-bit fields of Python's `struct` (format `i`).
use Prim.Native.Nat.{ℕ, zero, suc, ◌-◌, ◌^◌}
use mathlib.Core.Bool.{Bool, true, false}
use mathlib.Core.Option.{Option, none, some}
use ps2_servers.Base.Tests.{ltb, if◌then◌else◌}

-- `negsuc n` is -(n + 1).
pub data ℤ : Type 0 where
  pos : ℕ → ℤ
  negsuc : ℕ → ℤ

-- `-n`
abbrev pub neg : ℕ → ℤ
neg zero = pos zero
neg (suc n) = negsuc n

abbrev pub is_negative : ℤ → Bool
is_negative (pos n) = false
is_negative (negsuc n) = true

-- Four bytes' worth of unsigned integer, read as a signed one.
abbrev pub signed32 : ℕ → ℤ
signed32 n = if ltb n (2 ^ 31) then pos n else negsuc (2 ^ 32 - 1 - n)

-- The unsigned integer whose bytes `struct.pack("<i", …)` lays out; it refuses what does not fit.
abbrev pub unsigned32 : ℤ → Option ℕ
unsigned32 (pos n) = if ltb n (2 ^ 31) then some n else none
unsigned32 (negsuc n) = if ltb n (2 ^ 31) then some (2 ^ 32 - 1 - n) else none
