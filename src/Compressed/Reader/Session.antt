-- ===== src/Compressed/Reader/Session.antt =====
-- A session with a reader: any sequence of `read` and `seek` calls, against a plain file with the
-- image's bytes and a position, which knows no blocks and no cache.
use ps2_servers.Base.{
  ℕ, zero, suc, ◌+◌, ◌-◌, ◌<◌, ◌≤◌, min, ◌≡◌, refl, ◌∙◌, ap, arith, Bool, false, List, [], ◌∷◌,
  Option, none, some, map, ◌==◌,
}
use ps2_servers.Base.Signed.{ℤ, pos, negsuc}
use ps2_servers.Bytes.{Bytes}
use ps2_servers.Exec.{Outcome, ok, raise}
use ps2_servers.Compressed.Reader.{Reader, shift, seek, read}
use ps2_servers.Compressed.Reader.Plain.{IsImage, IsServed, read_lem}
use ps2_servers.Compressed.Reader.Stretch.{stretch, content}
use ps2_servers.Compressed.Reader.Cache.{IsCache}

pub data Call : Type 0 where
  reads : ℤ → Call
  seeks : ℤ → ℕ → Call

pub data Answer : Type 0 where
  bytes : Bytes → Answer
  at_position : ℕ → Answer

abbrev pub answer {ℓ ℓ'} : {A : Type ℓ} {B : Type ℓ'} → (A → B) → Outcome A → Outcome B
answer f (ok a) = ok (f a)
answer f (raise e) = raise e

-- Where a `seek` aims, before it is clamped from above.
abbrev pub target : ℕ → ℤ → ℕ → ℕ → ℕ
target size offset zero p = shift 0 offset
target size offset (suc zero) p = shift p offset
target size offset (suc (suc zero)) p = shift size offset
target size offset (suc (suc (suc whence))) p = p

-- The plain file: an image of `size` bytes, and the position.
module _ (image : ℕ → ℕ) (size : ℕ) where
  abbrev pub plain : Call → ℕ → Answer × ℕ
  plain (reads (negsuc n)) p = (bytes [], p)
  plain (reads (pos n)) p = (bytes (stretch image p (min n (size - p))), p + min n (size - p))
  plain (seeks offset whence) p =
      (at_position (min (target size offset whence p) size), min (target size offset whence p) size)

  abbrev pub plain_answers : List Call → ℕ → List Answer
  plain_answers [] p = []
  plain_answers (call ∷ calls) p = (plain call p).0 ∷ plain_answers calls (plain call p).1

abbrev prepend : Outcome Answer → Option (List (Outcome Answer)) → Option (List (Outcome Answer))
prepend outcome none = none
prepend outcome (some rest) = some (outcome ∷ rest)

module _ (decompress : ℕ → Outcome Bytes) (cancelled : Reader → Bool) where
  abbrev pub perform : ℕ → Call → Reader → Option (Outcome Answer × Reader)
  perform fuel (reads n) r = elim (read decompress cancelled fuel n r) [
    | none ↦ none
    | some (outcome, s) ↦ some (answer bytes outcome, s)
  ]
  perform fuel (seeks offset whence) r =
      let (outcome, s) = seek offset whence r in some (answer at_position outcome, s)

  -- What the calls give, one after the other.
  abbrev pub answers : ℕ → List Call → Reader → Option (List (Outcome Answer))
  answers fuel [] r = some []
  answers fuel (call ∷ calls) r = elim (perform fuel call r) [
    | none ↦ none
    | some (outcome, s) ↦ prepend outcome (answers fuel calls s)
  ]

module _ (block : ℕ → Bytes) (decompress : ℕ → Outcome Bytes) (cancelled : Reader → Bool) where
  abbrev moved : Reader → List (ℕ × Bytes) → ℕ → Reader
  moved r cache p = record r { cache = cache; position = p }

  moved-IsServed :
      (r : Reader) (cache : List (ℕ × Bytes)) (p : ℕ)
      → IsServed block r
      → IsCache block (moved r cache p)
      → p ≤ r.uncompressed_size
      → IsServed block (moved r cache p)
  moved-IsServed r cache p served caching inside = record {
    lax = served.lax;
    some_bytes = served.some_bytes;
    count = served.count;
    inside = inside;
    caching = caching;
  }

  seek_lem :
      (offset : ℤ) (whence : ℕ) (r : Reader)
      → let p = min (target r.uncompressed_size offset whence r.position) r.uncompressed_size in
        seek offset whence r ≡ (ok p, moved r r.cache p)
  unfolding seek
  seek_lem offset zero r = refl
  seek_lem offset (suc zero) r = refl
  seek_lem offset (suc (suc zero)) r = refl
  seek_lem offset (suc (suc (suc whence))) r =
      let a : (suc (suc (suc whence)) == 0) ≡ false = ground arith in
      let b : (suc (suc (suc whence)) == 1) ≡ false = ground arith in
      let c : (suc (suc (suc whence)) == 2) ≡ false = ground arith in rw a (rw b (rw c refl))

  -- One call, and what it leaves.
  perform_lem :
      (fuel : ℕ) (call : Call) (r : Reader)
      → IsServed block r
      → IsImage block decompress cancelled r
      → r.uncompressed_size < fuel
      → let after = plain (content block r.block_size) r.uncompressed_size call r.position in
        (cache : List (ℕ × Bytes)) × (perform decompress cancelled fuel call r
          ≡ some (ok after.0, moved r cache after.1))
        × IsServed block (moved r cache after.1)
  unfolding read
  perform_lem fuel (reads (negsuc n)) r served image enough = (r.cache, refl, served)
  perform_lem fuel (reads (pos n)) r served image enough =
      let (cache, e, caching) = read_lem block decompress cancelled fuel n r served image enough in
      let p = r.position + min n (r.uncompressed_size - r.position) in
      (
        cache,
        ap
            (λ (x : Option (Outcome Bytes × Reader)). elim x [
              | none ↦ none
              | some (outcome, s) ↦ some (answer bytes outcome, s)
            ])
            e,
        moved-IsServed r cache p served caching (omega (arith, served.inside)),
      )
  perform_lem fuel (seeks offset whence) r served image enough =
      let p = min (target r.uncompressed_size offset whence r.position) r.uncompressed_size in
      let caching = served.caching in
      (
        r.cache,
        ap (λ (x : Outcome ℕ × Reader). some (answer at_position x.0, x.1))
            (seek_lem offset whence r),
        moved-IsServed r r.cache p served
            (record { decoded = caching.decoded; bounded = caching.bounded; room = caching.room })
            (omega arith),
      )

  -- A reader whose cache is a correct one for blocks that decode, and whose header agrees with
  -- itself, answers any sequence of `read` and `seek` calls as the plain file of the image does:
  -- with fuel above the image's size no call fails or runs on, and neither the blocks nor what the
  -- cache held can be told from the answers.
  pub answers-plain :
      (fuel : ℕ) (calls : List Call) (r : Reader)
      → IsServed block r
      → IsImage block decompress cancelled r
      → r.uncompressed_size < fuel
      → answers decompress cancelled fuel calls r
        ≡ some (
            map ok
              (plain_answers (content block r.block_size) r.uncompressed_size calls r.position))
  answers-plain fuel [] r served image enough = refl
  answers-plain fuel (call ∷ calls) r served image enough =
      let (cache, e, later) = perform_lem fuel call r served image enough in
      let after = plain (content block r.block_size) r.uncompressed_size call r.position in
      let rest = answers-plain fuel calls (moved r cache after.1) later image enough in
      ap
        (λ (x : Option (Outcome Answer × Reader)). elim x [
          | none ↦ none
          | some (outcome, s) ↦ prepend outcome (answers decompress cancelled fuel calls s)
        ])
        e
      ∙ ap (prepend (ok after.0)) rest
