-- ===== src/Compressed/Cso.antt =====
-- cso.py: the CSO format. The header is parsed and a block decoded one way for serving and another
-- under `strict`.
use ps2_servers.Base.{
  ℕ, ◌+◌, ◌-◌, ◌*◌, ◌/◌, Bool, false, not, Option, none, some, length, ltb, leb, ◌==◌,
  if◌then◌else◌,
}
use ps2_servers.Base.Signed.{ℤ, pos}
use ps2_servers.Bytes.{Bytes, ljust}
use ps2_servers.Exec.{Outcome, ok, raise, value_error}
use ps2_servers.Exec.Results.{◌>>=◌, ◌>>◌, refuse}
use ps2_servers.Compressed.Files.{read_at, difference, number, numbers}
use ps2_servers.Compressed.Index.{Index, indexed_header}
use ps2_servers.Compressed.Blocks.{entry, is_stored, place, indexed_block}

-- "CISO"
abbrev pub cso_magic : ℕ
cso_magic = 1330858307

-- The header of a served image, and its offset table, which has an entry more than there are blocks.
unfoldable pub served_header : Bytes → Bytes → Outcome Index
served_header header file = do
  let size = number 8 8 header
  let block = number 4 16 header
  refuse (block == 0) value_error
  let num_blocks = (size + block - 1) / block
  table ← read_at file 24 (pos ((num_blocks + 1) * 4))
  refuse (ltb (length table) ((num_blocks + 1) * 4)) value_error
  ok (record {
    uncompressed_size = size;
    block_size = block;
    num_blocks = num_blocks;
    align = number 1 21 header;
    block_offsets = numbers (num_blocks + 1) table;
    table_end = 0;
    physical_size = length file;
  })

unfoldable pub parse_header : Bool → Bytes → Outcome Index
parse_header strict file = do
  header ← read_at file 0 (pos 24)
  refuse (ltb (length header) 24) value_error
  refuse (not (number 4 0 header == cso_magic)) value_error
  if strict then indexed_header false header file else served_header header file

-- `inflate` is a decoder with a window, `decompress` that of `zlib.decompress`; `none` is zlib.error.
module _ (inflate : ℤ → Bytes → ℕ → Option (Bytes × Bool)) (lz4_block : Bytes → ℕ → Option Bytes)
    (raw_deflate decompress : Bytes → Option Bytes) where
  unfoldable pub inflated : Bytes → Outcome Bytes
  inflated bytes = elim (raw_deflate bytes) [
    | some block ↦ ok block
    | none ↦ elim (decompress bytes) [ some block ↦ ok block | none ↦ raise value_error ]
  ]

  unfoldable pub served_block : Index → Bytes → ℕ → Outcome Bytes
  served_block x file idx = do
    refuse (leb x.num_blocks idx) value_error
    raw ← entry x.block_offsets idx
    next_raw ← entry x.block_offsets (idx + 1)
    let offset = place x.align raw
    let read_size =
        if is_stored raw then pos x.block_size else difference (place x.align next_raw) offset
    bytes ← read_at file offset read_size
    block ← if is_stored raw then ok bytes else inflated bytes
    ok (ljust x.block_size block)

  unfoldable pub decompress_block : Bool → Index → Bytes → ℕ → Outcome Bytes
  decompress_block strict x file idx =
      if strict then indexed_block inflate lz4_block false x file idx else served_block x file idx
