-- ===== src/Compressed/Files.antt =====
-- Reading the compressed file itself, as `seek` and `read` of a Python buffered binary file do it.
-- The file is its bytes; it does not change while it is open.
use ps2_servers.Base.{ℕ, zero, suc, ◌-◌, ◌^◌, List, [], ◌∷◌, take, drop, leb, if◌then◌else◌}
use ps2_servers.Base.Signed.{ℤ, pos, negsuc}
use ps2_servers.Bytes.{Bytes, from_le}
use ps2_servers.Exec.{Outcome, ok, raise, value_error, overflow_error}

-- `a - b`
abbrev pub difference : ℕ → ℕ → ℤ
difference a b = if leb b a then pos (a - b) else negsuc (b - a - 1)

-- `file.seek(offset); file.read(size)`: an offset is below 2^63, `read(-1)` reads up to the end, and
-- another negative size is refused.
unfoldable pub read_at : Bytes → ℕ → ℤ → Outcome Bytes
read_at file offset size = if leb (2 ^ 63) offset then raise value_error else elim size [
  | pos n ↦ if leb (2 ^ 63) n then raise overflow_error else ok (take n (drop offset file))
  | negsuc zero ↦ ok (drop offset file)
  | negsuc (suc n) ↦ raise value_error
]

-- The unsigned field of `w` bytes at `off`, in bytes that are long enough.
abbrev pub number : ℕ → ℕ → Bytes → ℕ
number w off bytes = from_le (take w (drop off bytes))

-- `struct.unpack(f'<{n}I', bytes)`
abbrev pub numbers : ℕ → Bytes → List ℕ
numbers zero bytes = []
numbers (suc n) bytes = number 4 0 bytes ∷ numbers n (drop 4 bytes)
