-- ===== src/Bytes.antt =====
-- Byte strings as lists of numbers, and the little-endian integer fields of Python's `struct`,
-- which every wire format and file header of the servers is read and written with.
pub mod Fields
pub mod Struct
use ps2_servers.Base.{
  ℕ, zero, suc, ◌+◌, ◌*◌, ◌/◌, ◌%◌, ◌^◌, ◌≤◌, ◌<◌, List, [], ◌∷◌, ◌++◌, Option, none, some, length,
  take, drop, leb, if◌then◌else◌, replicate, ◌-◌,
}

abbrev pub Bytes : Type 0
Bytes = List ℕ

abbrev pub IsByte : ℕ → Type 0
IsByte b = b < 256

-- The `w` bytes of `v`, lowest first, as `struct.pack("<…", v)` lays them out for a `v` in range.
abbrev pub le : ℕ → ℕ → Bytes
le zero v = []
le (suc w) v = v % 256 ∷ le w (v / 256)

abbrev pub from_le : Bytes → ℕ
from_le [] = 0
from_le (b ∷ bs) = b + 256 * from_le bs

-- `struct.unpack_from` of one field: the `w` bytes at `off`, or `struct.error` past the end.
abbrev pub field : ℕ → ℕ → Bytes → Option ℕ
field off w bytes =
    if leb (off + w) (length bytes) then some (from_le (take w (drop off bytes))) else none

-- `bytes.ljust(n, b"\0")`
abbrev pub ljust : ℕ → Bytes → Bytes
ljust n bytes = bytes ++ replicate (n - length bytes) 0
