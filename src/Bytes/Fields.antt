-- ===== src/Bytes/Fields.antt =====
-- Fields read back what was written, and writing is a bijection on byte strings of the width.
use native.Mathlib.Nat.{pow-suc}
use mathlib.Core.Path.{ap₂}
use ps2_servers.Base.{
  ℕ, zero, suc, ◌+◌, ◌*◌, ◌/◌, ◌%◌, ◌^◌, ◌≤◌, ◌<◌, ◌≡◌, refl, ap, ◌∙◌, [], ◌∷◌, ◌++◌, some, length,
  length-append, take, drop, take_left, drop_left, All, arith,
}
use ps2_servers.Bytes.{Bytes, IsByte, le, from_le, field}

pub length-le : (w v : ℕ) → length (le w v) ≡ w
length-le zero v = refl
length-le (suc w) v = ap suc (length-le w (v / 256))

pub le-IsByte : (w v : ℕ) → All IsByte (le w v)
le-IsByte zero v = tt
le-IsByte (suc w) v = (omega arith, le-IsByte w (v / 256))

pub from_le-le : (w v : ℕ) → v < 256 ^ w → from_le (le w v) ≡ v
from_le-le zero v h = omega arith
from_le-le (suc w) v h = omega (arith, from_le-le w (v / 256) (omega (arith, pow-suc 256 w)))

pub from_le-lt : (bs : Bytes) → All IsByte bs → from_le bs < 256 ^ length bs
from_le-lt [] h = omega arith
from_le-lt (b ∷ bs) (hb, h) = omega (arith, from_le-lt bs h, pow-suc 256 (length bs))

pub le-from_le : (bs : Bytes) → All IsByte bs → le (length bs) (from_le bs) ≡ bs
le-from_le [] h = refl
le-from_le (b ∷ bs) (hb, h) = ap₂ ◌∷◌ low (ap (le (length bs)) high ∙ le-from_le bs h)
  where
    low : (b + 256 * from_le bs) % 256 ≡ b
    low = omega arith

    high : (b + 256 * from_le bs) / 256 ≡ from_le bs
    high = omega arith

-- A field that lies inside the bytes is read.
pub field_inside :
    (off w : ℕ) (bytes : Bytes)
    → off + w ≤ length bytes
    → field off w bytes ≡ some (from_le (take w (drop off bytes)))
field_inside off w bytes h = ground arith

-- A field written behind a prefix of `off` bytes is read back, whatever follows it.
pub field-le :
    (off w v : ℕ) (pre post : Bytes)
    → length pre ≡ off
    → v < 256 ^ w
    → field off w (pre ++ (le w v ++ post)) ≡ some v
field-le off w v pre post hp hv = rw (drop_left off pre (le w v ++ post) hp) (
    rw (take_left w (le w v) post (length-le w v)) (
      rw (from_le-le w v hv) (
        ground
          (arith, length-append pre (le w v ++ post), length-append (le w v) post, length-le w v))))
