-- ===== src/Compressed/Blocks/Bounds.antt =====
-- What decoding a block gives under `strict`: no fewer bytes than the image has of the block, no
-- more than a block, from inside the file.
use ps2_servers.Base.{ℕ, ◌+◌, ◌-◌, ◌≤◌, ◌<◌, ◌≡◌, Bool, true, false, Option, length, take, drop}
use ps2_servers.Base.Signed.{ℤ}
use ps2_servers.Bytes.{Bytes}
use ps2_servers.Exec.{Outcome, ok, raise}
use ps2_servers.Compressed.Index.{Index}
use ps2_servers.Compressed.Blocks.{entry, is_stored, place, end_of, expected, unpacked}

-- The length of a block that is handed on.
abbrev pub IsBlockOf : Index → ℕ → Bytes → Type 0
IsBlockOf x idx block = (expected x idx ≤ length block) × (length block ≤ x.block_size)

-- What holds of a value that is returned.
abbrev Gives : (Bytes → Type 0) → Outcome Bytes → Type 0
Gives P (ok block) = P block
Gives P (raise e) = Unit

module _ (inflate : ℤ → Bytes → ℕ → Option (Bytes × Bool))
    (lz4_block : Bytes → ℕ → Option Bytes) where
  -- What is made of the bytes of a block that stands at `start` of the file: a stored one is those
  -- that the image has of it, any other is what the codec makes of all the bytes up to the next block.
  abbrev pub made_of : Bool → Index → Bytes → ℕ → ℕ → Bool → Outcome Bytes
  made_of lz4 x file idx start true = ok (take (expected x idx) (drop start file))
  made_of lz4 x file idx start false =
      unpacked inflate lz4_block lz4 x idx (take (end_of x idx - start) (drop start file))

  -- Where a block is taken from.
  abbrev pub IsTaken : Bool → Index → Bytes → ℕ → Bytes → Type 0
  IsTaken lz4 x file idx block =
      (raw : ℕ) × (entry x.block_offsets idx ≡ ok raw)
      × (made_of lz4 x file idx (place x.align raw) (is_stored raw) ≡ ok block)
      × (x.table_end ≤ place x.align raw)
      × (place x.align raw < end_of x idx)
      × (end_of x idx ≤ x.physical_size)
      × (end_of x idx ≤ place x.align raw + x.block_size + 65536)
