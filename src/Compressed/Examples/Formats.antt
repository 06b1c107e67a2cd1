-- ===== src/Compressed/Examples/Formats.antt =====
-- Small CSO and ZSO files.
use ps2_servers.Base.{
  ℕ, zero, suc, ◌<◌, ◌≡◌, inl, refl, arith, Bool, true, false, [], ◌∷◌, ◌++◌, Option, none, some,
  map, take, min, ◌^◌, ◌+◌,
}
use ps2_servers.Base.Signed.{ℤ, pos, negsuc}
use ps2_servers.Bytes.{Bytes, le}
use ps2_servers.Exec.{Outcome, ok}
use ps2_servers.Exec.Results.{◌>>=◌, ◌>>◌, refuse}
use ps2_servers.Compressed.Reader.{Reader, read}
use ps2_servers.Compressed.Reader.Stretch.{content}
use ps2_servers.Compressed.Reader.Session.{reads, seeks, answers, plain_answers}
use ps2_servers.Compressed.Reader.Strict.{IsReadOf}
use ps2_servers.Compressed.Files.{read_at}
use ps2_servers.Compressed.Index.{Index, max_disc, open_reader, indexed_header}
use ps2_servers.Compressed.Index.Bounds.{IsIndexed, indexed_header-IsIndexed}
use ps2_servers.Compressed.Inspect.{IsPaid, inspection_ends}
use ps2_servers.Compressed.Cso.{
  parse_header, served_header, served_block, decompress_block, inflated,
}
use ps2_servers.Compressed.Serve.{cso-plain}

-- A zlib and an lz4 for these files: both know one text.
abbrev inflate : ℤ → Bytes → ℕ → Option (Bytes × Bool)
inflate (pos w) bytes limit = none
inflate (negsuc w) bytes limit = some (5 ∷ 5 ∷ 5 ∷ 5 ∷ [], true)

abbrev lz4_block : Bytes → ℕ → Option Bytes
lz4_block [] size = none
lz4_block (a ∷ []) size = none
lz4_block (a ∷ b ∷ []) size = some (a ∷ a ∷ b ∷ b ∷ [])
lz4_block (a ∷ b ∷ c ∷ bytes) size = none

abbrev raw_deflate : Bytes → Option Bytes
raw_deflate bytes = none

abbrev zlib_decompress : Bytes → Option Bytes
zlib_decompress bytes = some (7 ∷ 7 ∷ [])

-- A header with `version` 1 and no alignment.
abbrev cso_header : ℕ → ℕ → Bytes
cso_header size block =
    (67 ∷ 73 ∷ 83 ∷ 79 ∷ []) ++ (le 4 0 ++ (le 8 size ++ (le 4 block ++ (1 ∷ 0 ∷ 0 ∷ 0 ∷ []))))

-- Two blocks of six bytes: one stored, one deflated.
abbrev cso_file : Bytes
cso_file =
    cso_header 6 4
    ++ (le 4 (2 ^ 31 + 36) ++ (le 4 40 ++ (le 4 43 ++ (1 ∷ 2 ∷ 3 ∷ 4 ∷ 0 ∷ 0 ∷ 0 ∷ []))))

abbrev cso_index : Index
cso_index = record {
  uncompressed_size = 6;
  block_size = 4;
  num_blocks = 2;
  align = 0;
  block_offsets = (2 ^ 31 + 36) ∷ 40 ∷ 43 ∷ [];
  table_end = 0;
  physical_size = 43;
}

cso_file_parsed : parse_header false cso_file ≡ ok cso_index
unfolding parse_header served_header read_at ◌>>=◌ ◌>>◌ refuse
cso_file_parsed = refl

abbrev cso_blocks : ℕ → Bytes
cso_blocks zero = 1 ∷ 2 ∷ 3 ∷ 4 ∷ []
cso_blocks (suc idx) = 7 ∷ 7 ∷ 0 ∷ 0 ∷ []

cso_file_decodes :
    (idx : ℕ)
    → idx < 2
    → decompress_block inflate lz4_block raw_deflate zlib_decompress false cso_index cso_file idx
      ≡ ok (cso_blocks idx)
unfolding decompress_block served_block read_at ◌>>=◌ ◌>>◌ refuse inflated
cso_file_decodes zero h = refl
cso_file_decodes (suc zero) h = refl
cso_file_decodes (suc (suc idx)) h = absurd (omega arith)

cso-plain_example :
    answers
      (decompress_block inflate lz4_block raw_deflate zlib_decompress false cso_index cso_file)
      (λ r. false)
      7
      (reads (pos 5) ∷ seeks (pos 3) 0 ∷ reads (pos 9) ∷ [])
      (open_reader (some 1) false cso_index)
    ≡ some (
        map ok (
          plain_answers
            (content cso_blocks 4)
            6
            (reads (pos 5) ∷ seeks (pos 3) 0 ∷ reads (pos 9) ∷ [])
            0))
cso-plain_example =
    cso-plain inflate lz4_block raw_deflate zlib_decompress cso_file cso_index cso_blocks (some 1)
      (λ r. false) 7 (reads (pos 5) ∷ seeks (pos 3) 0 ∷ reads (pos 9) ∷ []) cso_file_parsed
      cso_file_decodes (omega arith)

-- A file that is all header: one block of seventeen sectors.
abbrev sectors_file : Bytes
sectors_file = cso_header 34816 65536 ++ (le 4 (2 ^ 31 + 32) ++ le 4 34848)

abbrev sectors_index : Index
sectors_index = record {
  uncompressed_size = 34816;
  block_size = 65536;
  num_blocks = 1;
  align = 0;
  block_offsets = (2 ^ 31 + 32) ∷ 34848 ∷ [];
  table_end = 32;
  physical_size = 32;
}

sectors_file_parsed : parse_header true sectors_file ≡ ok sectors_index
unfolding parse_header indexed_header read_at ◌>>=◌ ◌>>◌ refuse
sectors_file_parsed = refl

sectors_header : indexed_header false (take 24 sectors_file) sectors_file ≡ ok sectors_index
unfolding indexed_header read_at ◌>>=◌ ◌>>◌ refuse
sectors_header = refl

indexed_header-IsIndexed_example : IsIndexed sectors_file sectors_index
indexed_header-IsIndexed_example =
    indexed_header-IsIndexed false (take 24 sectors_file) sectors_file sectors_index sectors_header

inspection_ends_example :
    (end : Outcome Bytes × Reader) × (read
        (decompress_block inflate lz4_block raw_deflate zlib_decompress true sectors_index
          sectors_file)
        (λ r. false)
        (suc max_disc)
        (pos 100)
        (open_reader none true sectors_index)
      ≡ some end)
    × IsReadOf (min 100 34816) (open_reader none true sectors_index) end
    × IsPaid end
inspection_ends_example =
    inspection_ends sectors_file none sectors_index
      (decompress_block inflate lz4_block raw_deflate zlib_decompress true sectors_index
        sectors_file)
      (λ r. false) 100 (inl sectors_file_parsed)

-- A block of three bytes of the image, deflated.
abbrev strict_index : Index
strict_index = record cso_index {
  uncompressed_size = 3;
  num_blocks = 1;
  block_offsets = 36 ∷ 40 ∷ [];
  table_end = 32;
}
