-- ===== src/Compressed/Serve.antt =====
-- A CSO image as it is served: `_parse_header`, `_decompress_block` and the reader together.
use ps2_servers.Base.{
  ℕ, zero, suc, ◌+◌, ◌-◌, ◌/◌, ◌≤◌, ◌<◌, ◌≡◌, refl, ◌∙◌, ap, arith, Bool, false, List, Option, none,
  some, length, length-append, length-replicate, map, replicate,
}
use mathlib.Core.Path.{subst}
use ps2_servers.Base.Signed.{ℤ}
use ps2_servers.Bytes.{Bytes, ljust}
use ps2_servers.Exec.{ok}
use ps2_servers.Exec.Results.{refuse-ok, >>=-ok, ok-injective}
use ps2_servers.Compressed.Reader.{Reader}
use ps2_servers.Compressed.Reader.Plain.{IsServed}
use ps2_servers.Compressed.Reader.Stretch.{content}
use ps2_servers.Compressed.Reader.Session.{Call, answers, plain_answers, answers-plain}
use ps2_servers.Compressed.Index.{Index, open_reader}
use ps2_servers.Compressed.Cso.{parse_header, served_header, served_block, decompress_block}

-- What the reader needs of an index.
record IsConsistent (x : Index) : Type 0 where
  some_bytes : 0 < x.block_size
  count : x.num_blocks ≡ (x.uncompressed_size + x.block_size - 1) / x.block_size

served_header-IsConsistent :
    (header file : Bytes) (x : Index) → served_header header file ≡ ok x → IsConsistent x
unfolding served_header
served_header-IsConsistent header file x h =
    let (some_bytes, h1) = refuse-ok _ _ _ x h in
    let (table, _, h2) = >>=-ok _ _ x h1 in
    let (_, h3) = refuse-ok _ _ _ x h2 in
    subst IsConsistent (ok-injective h3)
      (record { some_bytes = ground (arith, some_bytes); count = refl })

parse_header-IsConsistent :
    (file : Bytes) (x : Index) → parse_header false file ≡ ok x → IsConsistent x
unfolding parse_header
parse_header-IsConsistent file x h =
    let (header, _, h1) = >>=-ok _ _ x h in
    let (_, h2) = refuse-ok _ _ _ x h1 in
    let (_, h3) = refuse-ok _ _ _ x h2 in served_header-IsConsistent header file x h3

length-ljust : (n : ℕ) (bytes : Bytes) → n ≤ length (ljust n bytes)
length-ljust n bytes = omega (
  arith,
  length-append bytes (replicate (n - length bytes) 0),
  length-replicate {A = ℕ} (n - length bytes) 0,
)

opened-IsServed :
    (block : ℕ → Bytes) (cache_size : Option ℕ) (x : Index)
    → IsConsistent x
    → IsServed block (open_reader cache_size false x)
unfolding open_reader
opened-IsServed block cache_size x h =
    let same : x.uncompressed_size + x.block_size - 1 ≡ x.uncompressed_size + (x.block_size - 1) =
      omega (arith, h.some_bytes) in
    record {
      lax = refl;
      some_bytes = h.some_bytes;
      count = h.count ∙ ap (λ n. n / x.block_size) same;
      inside = omega arith;
      caching = record { decoded = tt; bounded = omega arith; room = some_room cache_size };
    }
  where
    some_room : (n : Option ℕ) → 0 < elim n [ none ↦ 32 | some zero ↦ 32 | some (suc m) ↦ suc m ]
    some_room none = omega arith
    some_room (some zero) = omega arith
    some_room (some (suc n)) = omega arith

module _ (inflate : ℤ → Bytes → ℕ → Option (Bytes × Bool)) (lz4_block : Bytes → ℕ → Option Bytes)
    (raw_deflate decompress : Bytes → Option Bytes) where
  served_block-long :
      (x : Index) (file : Bytes) (idx : ℕ) (block : Bytes)
      → served_block inflate lz4_block raw_deflate decompress x file idx ≡ ok block
      → x.block_size ≤ length block
  unfolding served_block
  served_block-long x file idx block h =
      let (_, h1) = refuse-ok _ _ _ block h in
      let (raw, _, h2) = >>=-ok _ _ block h1 in
      let (next_raw, _, h3) = >>=-ok _ _ block h2 in
      let (bytes, _, h4) = >>=-ok _ _ block h3 in
      let (unpacked, _, h5) = >>=-ok _ _ block h4 in
      subst (λ b. x.block_size ≤ length b) (ok-injective h5) (length-ljust x.block_size unpacked)

  -- A CSO file that is opened for serving, each of whose blocks decodes: any sequence of `read` and
  -- `seek` calls is answered as by the plain file of the blocks' bytes, with any cache size asked
  -- for. A block that decodes short is padded, so the reads always end.
  pub cso-plain :
      (file : Bytes) (x : Index) (block : ℕ → Bytes) (cache_size : Option ℕ)
      (cancelled : Reader → Bool) (fuel : ℕ) (calls : List Call)
      → parse_header false file ≡ ok x
      → ((idx : ℕ)
          → idx < x.num_blocks
          → decompress_block inflate lz4_block raw_deflate decompress false x file idx
            ≡ ok (block idx))
      → x.uncompressed_size < fuel
      → answers
          (decompress_block inflate lz4_block raw_deflate decompress false x file)
          cancelled
          fuel
          calls
          (open_reader cache_size false x)
        ≡ some (map ok (plain_answers (content block x.block_size) x.uncompressed_size calls 0))
  unfolding open_reader decompress_block
  cso-plain file x block cache_size cancelled fuel calls parsed decodes enough =
      answers-plain block (decompress_block inflate lz4_block raw_deflate decompress false x file)
        cancelled fuel calls (open_reader cache_size false x)
        (opened-IsServed block cache_size x (parse_header-IsConsistent file x parsed))
        (λ idx h.
          let e = decodes idx h in (e, omega (arith, served_block-long x file idx (block idx) e)))
        enough
