-- ===== src/Compressed/Inspect.antt =====
-- Inspection of an untrusted image: `_parse_header` under `strict`, then `read`.
use mathlib.Core.Path.{subst}
use native.Mathlib.Decide.{dec_lt}
use ps2_servers.Compressed.Reader.Counted.{IsBefore, read-IsCountedRead}
use ps2_servers.Base.{
  ℕ, suc, ◌+◌, ◌-◌, ◌/◌, ◌≤◌, min, ◌≡◌, ◌⊎◌, inl, inr, refl, sym, ◌∙◌, ap, arith, Bool, true, false,
  [], length, Option, some,
}
use ps2_servers.Base.Signed.{pos}
use ps2_servers.Bytes.{Bytes}
use ps2_servers.Exec.{Outcome, ok, raise}
use ps2_servers.Exec.Results.{refuse-ok, >>=-ok, ok-injective}
use ps2_servers.Compressed.Reader.{Reader, read}
use ps2_servers.Compressed.Reader.Inspected.{IsInspected}
use ps2_servers.Compressed.Reader.Strict.{IsReadOf, read-strict_ends}
use ps2_servers.Compressed.Index.{Index, max_disc, open_reader}
use ps2_servers.Compressed.Index.Bounds.{IsIndexed, indexed_header-IsIndexed}
use ps2_servers.Compressed.Cso
use ps2_servers.Compressed.Zso

opened-IsInspected :
    (file : Bytes) (cache_size : Option ℕ) (x : Index)
    → IsIndexed file x
    → IsInspected (open_reader cache_size true x)
unfolding open_reader
opened-IsInspected file cache_size x h =
    let same : x.uncompressed_size + x.block_size - 1 ≡ x.uncompressed_size + (x.block_size - 1) =
      omega (arith, h.block_low) in
    record {
      checking = refl;
      some_bytes = omega (arith, h.block_low);
      count = h.count ∙ ap (λ n. n / x.block_size) same;
      inside = omega arith;
      long = tt;
      bounded = omega arith;
      room = omega arith;
      budget = omega arith;
    }

cso_header-IsIndexed :
    (file : Bytes) (x : Index) → Cso.parse_header true file ≡ ok x → IsIndexed file x
unfolding Cso.parse_header
cso_header-IsIndexed file x h =
    let (header, _, h1) = >>=-ok _ _ x h in
    let (_, h2) = refuse-ok _ _ _ x h1 in
    let (_, h3) = refuse-ok _ _ _ x h2 in indexed_header-IsIndexed false header file x h3

zso_header-IsIndexed :
    (file : Bytes) (ziso : Bool) (x : Index)
    → Zso.parse_header true file ≡ ok (ziso, x)
    → IsIndexed file x
unfolding Zso.parse_header
zso_header-IsIndexed file ziso x h =
    let (header, _, h1) = >>=-ok _ _ (ziso, x) h in
    let (_, h2) = refuse-ok _ _ _ (ziso, x) h1 in
    let (_, h3) = refuse-ok _ _ _ (ziso, x) h2 in
    let (y, h4, h5) = >>=-ok _ _ (ziso, x) h3 in
    subst (IsIndexed file) (ap (λ p. p.1) (ok-injective h5))
      (indexed_header-IsIndexed true header file y h4)

-- `x` is what one of the two header parsers makes of the file under `strict`.
abbrev pub IsParsed : Bytes → Index → Type 0
IsParsed file x =
    (Cso.parse_header true file ≡ ok x)
    ⊎ ((ziso : Bool) × (Zso.parse_header true file ≡ ok (ziso, x)))

pub IsParsed-IsIndexed : (file : Bytes) (x : Index) → IsParsed file x → IsIndexed file x
IsParsed-IsIndexed file x (inl h) = cso_header-IsIndexed file x h
IsParsed-IsIndexed file x (inr (ziso, h)) = zso_header-IsIndexed file ziso x h

-- The bytes that a first read gives were all counted.
abbrev pub IsPaid : Outcome Bytes × Reader → Type 0
IsPaid (raise e, s) = Unit
IsPaid (ok bytes, s) = length bytes ≤ s.decoded

-- A reader of which nothing was read yet.
opened-IsPaid :
    (decompress : ℕ → Outcome Bytes) (cancelled : Reader → Bool) (fuel n : ℕ) (r : Reader)
    → IsInspected r
    → r.position ≡ 0
    → r.decoded ≡ 0
    → r.cache ≡ []
    → (end : Outcome Bytes × Reader) → read decompress cancelled fuel (pos n) r ≡ some end
    → IsReadOf (min n (r.uncompressed_size - r.position)) r end
    → IsPaid end
opened-IsPaid decompress cancelled fuel n r h start none_yet empty (raise e, s) ends is_read = tt
opened-IsPaid decompress cancelled fuel n r h start none_yet empty (ok bytes, s) ends is_read =
    let size = min n (r.uncompressed_size - r.position) in
    elim (dec_lt 0 size) [
      | no nothing ↦ omega (arith, is_read.0, nothing)
      | yes some_bytes ↦
          let counted =
            read-IsCountedRead decompress cancelled fuel n r h
              (subst (IsBefore (r.position / r.block_size)) (sym empty) tt) some_bytes (ok bytes, s)
              ends in
          omega (arith, is_read.0, counted)
    ]

-- A reader that is opened under `strict` on any file whose header is accepted, CSO or ZSO: a first
-- read of `n` bytes returns, whatever the blocks decode to and whenever it is cancelled, with a fuel
-- that is the same for every file. Where it gives bytes, they are as many as the image has of those
-- asked for, the counter `decoded` is at least their number and at most `max_decode`, and the cache
-- is not larger than its size.
pub inspection_ends :
    (file : Bytes) (cache_size : Option ℕ) (x : Index) (decompress : ℕ → Outcome Bytes)
    (cancelled : Reader → Bool) (n : ℕ)
    → IsParsed file x
    → (end : Outcome Bytes × Reader) × (read decompress cancelled
          (suc max_disc)
          (pos n)
          (open_reader cache_size true x)
        ≡ some end)
      × IsReadOf (min n x.uncompressed_size) (open_reader cache_size true x) end
      × IsPaid end
unfolding open_reader
inspection_ends file cache_size x decompress cancelled n parsed =
    let h = IsParsed-IsIndexed file x parsed in
    let r = open_reader cache_size true x in
    let h' = opened-IsInspected file cache_size x h in
    let (end, ends, is_read) =
      read-strict_ends decompress cancelled (suc max_disc) n r h' (omega (arith, h.size_high)) in
    let whole : x.uncompressed_size - 0 ≡ x.uncompressed_size = omega arith in
    (
      end,
      ends,
      subst (λ size. IsReadOf (min n size) r end) whole is_read,
      opened-IsPaid decompress cancelled (suc max_disc) n r h' refl refl refl end ends is_read,
    )
