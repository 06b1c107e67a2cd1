-- ===== src/Compressed/Index.antt =====
-- What `_parse_header` leaves behind, and the reader that is made of it. `limits.py` holds the
-- checks that are made under `strict`.
use ps2_servers.Base.{
  ℕ, zero, suc, ◌+◌, ◌-◌, ◌*◌, ◌/◌, ◌%◌, ◌^◌, min, bit_and, Bool, true, false, not, ◌&&◌, ◌||◌,
  List, [], ◌∷◌, ◌++◌, Option, none, some, length, get_elem?, take, drop, ltb, leb, ◌==◌,
  if◌then◌else◌, replicate,
}
pub mod Bounds
use ps2_servers.Base.Signed.{ℤ, pos}
use ps2_servers.Bytes.{Bytes, from_le}
use ps2_servers.Exec.{Outcome, ok, raise, value_error, inspection_limit, index_error}
use ps2_servers.Exec.Results.{◌>>=◌, ◌>>◌, refuse}
use ps2_servers.Compressed.Files.{read_at, number, numbers}
use ps2_servers.Compressed.Reader.{Reader}

pub record Index : Type 0 where
  pub uncompressed_size : ℕ
  pub block_size : ℕ
  pub num_blocks : ℕ
  pub align : ℕ
  pub block_offsets : List ℕ
  pub table_end : ℕ
  pub physical_size : ℕ

-- The constants of limits.py.
abbrev pub max_disc : ℕ
max_disc = 16 * 1024 ^ 3

abbrev pub max_block : ℕ
max_block = 16 * 1024 ^ 2

abbrev pub max_table : ℕ
max_table = 32 * 1024 ^ 2

-- `n not in range(low, high + 1)`
abbrev pub outside : ℕ → ℕ → ℕ → Bool
outside low high n = ltb n low || ltb high n

-- `__init__`, once the header is parsed.
unfoldable pub open_reader : Option ℕ → Bool → Index → Reader
open_reader cache_size strict x = record {
  position = 0;
  uncompressed_size = x.uncompressed_size;
  block_size = x.block_size;
  num_blocks = x.num_blocks;
  cache = [];
  cache_size =
      if strict then 2 else elim cache_size [ none ↦ 32 | some zero ↦ 32 | some (suc n) ↦ suc n ];
  strict = strict;
  decoded = 0;
}

-- b"ZSO\0", read as a number.
abbrev pub zso_magic : ℕ
zso_magic = from_le (90 ∷ 83 ∷ 79 ∷ 0 ∷ [])

-- `indexed_header`, with the header of 24 bytes.
unfoldable pub indexed_header : Bool → Bytes → Bytes → Outcome Index
indexed_header zso header file = do
  let original = number 4 0 header == zso_magic
  let size = number 8 8 header
  let block = number 4 16 header
  let version = number 1 20 header
  let align = number 1 21 header
  refuse (outside (17 * 2048) max_disc size || outside 2048 max_block block) inspection_limit
  refuse (not (block % 2048 == 0) || not (version == 1)) inspection_limit
  refuse (ltb 6 align) inspection_limit
  refuse (not zso && not (number 4 4 header == 0 || number 4 4 header == 24)) inspection_limit
  let header_size = if zso then number 4 4 header else 24
  refuse (outside 24 (1024 ^ 2) header_size) value_error
  let num_blocks = (size + block - 1) / block
  let count = num_blocks + (if original then 0 else 1)
  refuse (ltb max_table (count * 4)) inspection_limit
  let table_end = header_size + count * 4
  refuse (ltb (length file) table_end) value_error
  table ← read_at file header_size (pos (count * 4))
  refuse (not (length table == count * 4)) value_error
  ok (record {
    uncompressed_size = size;
    block_size = block;
    num_blocks = num_blocks;
    align = if original then 0 else align;
    block_offsets = numbers count table;
    table_end = table_end;
    physical_size = length file;
  })
