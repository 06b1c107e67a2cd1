-- ===== src/Compressed/Zso.antt =====
-- zso.py: the ZSO format of OPL and the ZISO format of PCSX2, which is laid out as a CSO is.
pub mod Retry
use ps2_servers.Base.{
  ℕ, zero, suc, ◌+◌, ◌-◌, ◌*◌, ◌/◌, ◌%◌, ◌^◌, Bool, true, false, not, ◌&&◌, ◌||◌, List, [], ◌∷◌,
  ◌++◌, Option, none, some, length, get_elem?, take, drop, ltb, leb, ◌==◌, if◌then◌else◌,
}
use ps2_servers.Base.Signed.{ℤ, pos}
use ps2_servers.Bytes.{Bytes, from_le}
use ps2_servers.Exec.{Outcome, ok, raise, value_error}
use ps2_servers.Exec.Results.{◌>>=◌, ◌>>◌, refuse}
use ps2_servers.Compressed.Files.{read_at, difference, number, numbers}
use ps2_servers.Compressed.Index.{Index, indexed_header, zso_magic}
use ps2_servers.Compressed.Blocks.{entry, is_stored, place, indexed_block}

-- b"ZISO", read as a number.
abbrev pub ziso_magic : ℕ
ziso_magic = from_le (90 ∷ 73 ∷ 83 ∷ 79 ∷ [])

unfoldable pub served_header : Bool → Bytes → Bytes → Outcome Index
served_header ziso header file = do
  let size = number 8 8 header
  let block = number 4 16 header
  refuse (block == 0) value_error
  let num_blocks = (size + block - 1) / block
  let count = if ziso then num_blocks + 1 else num_blocks
  table ← read_at file (number 4 4 header) (pos (count * 4))
  refuse (ltb (length table) (count * 4)) value_error
  ok (record {
    uncompressed_size = size;
    block_size = block;
    num_blocks = num_blocks;
    align = if ziso then number 1 21 header else 0;
    block_offsets = numbers count table;
    table_end = 0;
    physical_size = length file;
  })

-- Whether it is a ZISO, and the index.
unfoldable pub parse_header : Bool → Bytes → Outcome (Bool × Index)
parse_header strict file = do
  header ← read_at file 0 (pos 24)
  refuse (ltb (length header) 24) value_error
  let magic = number 4 0 header
  let ziso = magic == ziso_magic
  refuse (not ziso && not (magic == zso_magic)) value_error
  x ← if strict then indexed_header true header file else served_header ziso header file
  ok (ziso, x)

module _ (inflate : ℤ → Bytes → ℕ → Option (Bytes × Bool))
    (lz4_block : Bytes → ℕ → Option Bytes) where
  -- The loop that drops a byte at the end after each failure, from the first `n` bytes on.
  unfoldable pub retry : ℕ → Bytes → ℕ → Outcome Bytes
  retry block_size compressed zero = raise value_error
  retry block_size compressed (suc n) =
      let next = retry block_size compressed n in
      elim (lz4_block (take (suc n) compressed) block_size) [ some block ↦ ok block | none ↦ next ]

  -- The bytes of a block in the file, and the size of `read`.
  unfoldable pub extent : Bool → Index → ℕ → Outcome (ℕ × ℤ)
  extent ziso x idx = do
    raw ← entry x.block_offsets idx
    let offset = place x.align raw
    end ←
        if ziso || ltb (idx + 1) x.num_blocks
        then (entry x.block_offsets (idx + 1) >>= (λ next_raw. ok (place x.align next_raw)))
        else ok x.physical_size
    ok (offset, difference end offset)

  unfoldable pub served_block : Bool → Index → Bytes → ℕ → Outcome Bytes
  served_block ziso x file idx = do
    refuse (leb x.num_blocks idx) value_error
    raw ← entry x.block_offsets idx
    (offset, read_size) ← extent ziso x idx
    bytes ← read_at file offset read_size
    if is_stored raw then ok bytes else retry x.block_size bytes (length bytes)

  unfoldable pub decompress_block : Bool → Bool → Index → Bytes → ℕ → Outcome Bytes
  decompress_block strict ziso x file idx =
      if strict
      then indexed_block inflate lz4_block true x file idx
      else served_block ziso x file idx
