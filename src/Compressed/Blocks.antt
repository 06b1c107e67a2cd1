-- ===== src/Compressed/Blocks.antt =====
-- `indexed_block` of limits.py: a block under `strict`. zlib and lz4 are parameters: `inflate` gives
-- the bytes and `eof`, or zlib.error, of a decoder with the window, the input and the limit;
-- `lz4_block` gives the bytes, or LZ4BlockError, with the input and the size.
pub mod Bounds
use ps2_servers.Base.{
  ℕ, zero, suc, ◌+◌, ◌-◌, ◌*◌, ◌/◌, ◌%◌, ◌^◌, min, bit_and, Bool, true, false, not, ◌&&◌, ◌||◌,
  List, [], ◌∷◌, ◌++◌, Option, none, some, length, get_elem?, get_or, take, drop, ltb, leb, ◌==◌,
  if◌then◌else◌,
}
use ps2_servers.Base.Signed.{ℤ, pos, negsuc, neg}
use ps2_servers.Bytes.{Bytes}
use ps2_servers.Exec.{Outcome, ok, raise, value_error, inspection_limit, index_error}
use ps2_servers.Exec.Results.{◌>>=◌, ◌>>◌, refuse}
use ps2_servers.Compressed.Files.{read_at}
use ps2_servers.Compressed.Index.{Index}

-- `block_offsets[i]`
abbrev pub entry : List ℕ → ℕ → Outcome ℕ
entry offsets i = elim (get_elem? offsets i) [ none ↦ raise index_error | some raw ↦ ok raw ]

-- `raw & 0x80000000`
abbrev pub is_stored : ℕ → Bool
is_stored raw = not (bit_and raw (2 ^ 31) == 0)

-- `(raw & 0x7fffffff) << align`
abbrev pub place : ℕ → ℕ → ℕ
place align raw = bit_and raw (2 ^ 31 - 1) * 2 ^ align

-- Where a block's bytes end in the file.
abbrev pub end_of : Index → ℕ → ℕ
end_of x idx =
    if ltb (idx + 1) (length x.block_offsets)
    then place x.align (get_or x.block_offsets (idx + 1) 0)
    else x.physical_size

abbrev pub expected : Index → ℕ → ℕ
expected x idx = min x.block_size (x.uncompressed_size - idx * x.block_size)

-- `expected <= len(result) <= reader.block_size`
abbrev pub fits : Index → ℕ → Bytes → Bool
fits x idx result = leb (expected x idx) (length result) && leb (length result) x.block_size

module _ (inflate : ℤ → Bytes → ℕ → Option (Bytes × Bool))
    (lz4_block : Bytes → ℕ → Option Bytes) where
  -- The attempts that are left, from `padding` bytes less on.
  unfoldable pub unpad : Index → ℕ → Bytes → ℕ → ℕ → Outcome Bytes
  unpad x idx compressed padding zero = raise value_error
  unpad x idx compressed padding (suc attempts) =
      let next = unpad x idx compressed (padding + 1) attempts in
      elim (lz4_block (take (length compressed - padding) compressed) x.block_size) [
        | none ↦ next
        | some result ↦ if fits x idx result then ok result else next
      ]

  -- The loop over the windows.
  unfoldable pub windows : Index → ℕ → Bytes → List ℤ → Outcome Bytes
  windows x idx compressed [] = raise value_error
  windows x idx compressed (window ∷ rest) =
      let next = windows x idx compressed rest in
      elim (inflate window compressed (x.block_size + 1)) [
        | none ↦ next
        | some (result, eof) ↦ if eof && fits x idx result then ok result else next
      ]

  abbrev pub max_wbits : ℕ
  max_wbits = 15

  unfoldable pub unpacked : Bool → Index → ℕ → Bytes → Outcome Bytes
  unpacked lz4 x idx compressed =
      if lz4
      then unpad x idx compressed 0 (min (2 ^ x.align - 1) (length compressed - 1) + 1)
      else windows x idx compressed (neg max_wbits ∷ pos max_wbits ∷ [])

  unfoldable pub indexed_block : Bool → Index → Bytes → ℕ → Outcome Bytes
  indexed_block lz4 x file idx = do
    refuse (leb x.num_blocks idx) value_error
    raw ← entry x.block_offsets idx
    let start = place x.align raw
    let end = end_of x idx
    refuse (not (leb x.table_end start && ltb start end && leb end x.physical_size)) value_error
    refuse (ltb (x.block_size + 65536) (end - start)) inspection_limit
    let wanted = if is_stored raw then expected x idx else end - start
    refuse (ltb (end - start) wanted) value_error
    bytes ← read_at file start (pos wanted)
    refuse (not (length bytes == wanted)) value_error
    if is_stored raw then ok bytes else unpacked lz4 x idx bytes
