-- ===== src/Compressed/Reader/Plain.antt =====
-- A served image is read as if it were decoded as a whole: `read` returns the bytes of the image
-- that are asked for, and what the cache holds does not matter.
use native.Mathlib.Nat.{mod-add-div', mod-lt}
use ps2_servers.Base.{
  ℕ, zero, suc, ◌+◌, ◌-◌, ◌/◌, ◌%◌, ◌≤◌, ◌<◌, min, ◌≡◌, refl, ◌∙◌, ap, arith, ◌==◌, if◌then◌else◌,
  Bool, false, List, [], ◌++◌, some, length, length-append, append-nil,
}
use ps2_servers.Base.Signed.{pos}
use ps2_servers.Bytes.{Bytes}
use ps2_servers.Exec.{Outcome, ok}
use ps2_servers.Compressed.Reader.{Reader, available, expected_length, round, rounds, read}
use ps2_servers.Compressed.Reader.Cache.{IsCache, get_block_lem}
use ps2_servers.Compressed.Reader.Loop.{rounds_done, rounds_more}
use ps2_servers.Compressed.Reader.Geometry.{block-lt, available_lem}
use ps2_servers.Compressed.Reader.Stretch.{
  stretch, length-stretch, stretch_on, stretch-slice, content, same_block,
}

-- A reader of the serving code, `strict` being off: its header agrees with itself.
pub record IsServed (block : ℕ → Bytes) (r : Reader) : Type 0 where
  pub lax : r.strict ≡ false
  pub some_bytes : 0 < r.block_size
  pub count : r.num_blocks ≡ (r.uncompressed_size + (r.block_size - 1)) / r.block_size
  pub inside : r.position ≤ r.uncompressed_size
  pub caching : IsCache block r

module _ (block : ℕ → Bytes) (decompress : ℕ → Outcome Bytes) (cancelled : Reader → Bool) where
  -- Every block of the image decodes, to no fewer bytes than lie inside the image.
  abbrev pub IsImage : Reader → Type 0
  IsImage r =
      (idx : ℕ)
      → idx < r.num_blocks
      → (decompress idx ≡ ok (block idx)) × (expected_length r idx ≤ length (block idx))

  round_lem :
      (wanted : ℕ) (r : Reader)
      → IsServed block r
      → IsImage r
      → 0 < wanted
      → r.position + wanted ≤ r.uncompressed_size
      → (k : ℕ) × (cache : List (ℕ × Bytes)) × (0 < k)
        × (k ≤ wanted)
        × (round decompress cancelled wanted r ≡ (
          ok (stretch (content block r.block_size) r.position k),
          record r { cache = cache; position = r.position + k },
        ))
        × IsCache block (record r { cache = cache; position = r.position + k })
  unfolding round
  round_lem wanted r served image some_wanted fits =
      let bs = r.block_size in
      let idx = r.position / bs in
      let offset = r.position % bs in
      let inside =
        block-lt r.uncompressed_size bs r.num_blocks served.some_bytes served.count r.position
          (omega arith) in
      let (decodes, long) = image idx inside in
      let (cache, e, caching) =
        get_block_lem block decompress cancelled idx r served.caching served.lax decodes in
      let room = available_lem r idx offset served.some_bytes served.count inside in
      let split = mod-add-div' r.position bs in
      let low = mod-lt r.position served.some_bytes in
      let k = min wanted (available r idx offset) in
      let slice =
        stretch-slice (content block bs) k r.position offset (block idx)
          (omega (arith, long, room, split, low))
          (λ i hi.
            let (q, m) = same_block bs r.position i (omega (arith, room, low, hi)) in
            rw (q, m) refl) in
      (
        k,
        cache,
        omega (arith, room, split, low),
        omega arith,
        rw e (ap (λ x. (ok x, record r { cache = cache; position = r.position + k })) slice),
        record { decoded = caching.decoded; bounded = caching.bounded; room = caching.room },
      )

  moved-IsCache :
      (r : Reader) (cache : List (ℕ × Bytes)) (p q : ℕ)
      → IsCache block (record r { cache = cache; position = p })
      → IsCache block (record r { cache = cache; position = q })
  moved-IsCache r cache p q h = record { decoded = h.decoded; bounded = h.bounded; room = h.room }

  -- The loop, with more fuel than there are bytes to read.
  rounds_lem :
      (fuel n size : ℕ) (result : Bytes) (r : Reader)
      → IsServed block r
      → IsImage r
      → size ≡ length result + n
      → n < fuel
      → r.position + n ≤ r.uncompressed_size
      → (cache : List (ℕ × Bytes)) × (rounds decompress cancelled fuel size result r
          ≡ some (
            ok (result ++ stretch (content block r.block_size) r.position n),
            record r { cache = cache; position = r.position + n },
          ))
        × IsCache block (record r { cache = cache; position = r.position + n })
  rounds_lem zero n size result r served image total enough fits = absurd (omega arith)
  rounds_lem (suc fuel) zero size result r served image total enough fits =
      let still : r.position + 0 ≡ r.position = omega arith in
      (
        r.cache,
        rounds_done decompress cancelled fuel size result r (omega (arith, total))
            ∙ rw (still, append-nil result) refl,
        moved-IsCache r r.cache r.position (r.position + 0) served.caching,
      )
  rounds_lem (suc fuel) (suc n) size result r served image total enough fits =
      let (k, cache, some_read, at_most, e, caching) =
        round_lem (suc n) r served image (omega arith) fits in
      let more = stretch (content block r.block_size) r.position k in
      let s = record r { cache = cache; position = r.position + k } in
      let left : size - length result ≡ suc n = omega (arith, total) in
      let (cache', e', caching') =
        rounds_lem fuel (suc n - k) size (result ++ more) s
          (record {
            lax = served.lax;
            some_bytes = served.some_bytes;
            count = served.count;
            inside = omega (arith, fits, at_most);
            caching = caching;
          })
          image
          (omega (
            arith,
            total,
            at_most,
            length-append result more,
            length-stretch (content block r.block_size) r.position k,
          ))
          (omega (arith, enough, some_read)) (omega (arith, fits, at_most)) in
      let onward : r.position + k + (suc n - k) ≡ r.position + suc n = omega (arith, at_most) in
      (
        cache',
        rounds_more decompress cancelled fuel size result more r s (omega (arith, total))
              (ap (λ w. round decompress cancelled w r) left ∙ e)
            ∙ e'
            ∙ rw (onward) (
                ap
                  (λ bytes.
                    some (ok bytes, record r { cache = cache'; position = r.position + suc n }))
                  (stretch_on (content block r.block_size) r.position k (suc n) result at_most)),
        moved-IsCache r cache' (r.position + k + (suc n - k)) (r.position + suc n) caching',
      )

  from_nothing :
      (fuel size : ℕ) (r : Reader)
      → IsServed block r
      → IsImage r
      → r.position + size ≤ r.uncompressed_size
      → size < fuel
      → (cache : List (ℕ × Bytes)) × ((if size == 0
            then some (ok [], r)
            else rounds decompress cancelled fuel size [] r)
          ≡ some (
            ok (stretch (content block r.block_size) r.position size),
            record r { cache = cache; position = r.position + size },
          ))
        × IsCache block (record r { cache = cache; position = r.position + size })
  from_nothing fuel zero r served image fits enough =
      let still : r.position + 0 ≡ r.position = omega arith in
      (r.cache, rw still refl, moved-IsCache r r.cache r.position (r.position + 0) served.caching)
  from_nothing fuel (suc size) r served image fits enough =
      let some_bytes : (suc size == 0) ≡ false = ground arith in
      rw some_bytes
        (rounds_lem fuel (suc size) (suc size) [] r served image (omega arith) enough fits)

  -- `read` gives the bytes of the image from the position on, as many as are asked for and left,
  -- and moves on by as many. Only the cache changes beside the position.
  pub read_lem :
      (fuel n : ℕ) (r : Reader)
      → IsServed block r
      → IsImage r
      → r.uncompressed_size < fuel
      → (cache : List (ℕ × Bytes)) × (read decompress cancelled fuel (pos n) r
          ≡ some (
            ok (
                stretch
                  (content block r.block_size)
                  r.position
                  (min n (r.uncompressed_size - r.position))),
            record r {
              cache = cache;
              position = r.position + min n (r.uncompressed_size - r.position);
            },
          ))
        × IsCache block (record r {
          cache = cache;
          position = r.position + min n (r.uncompressed_size - r.position);
        })
  unfolding read
  read_lem fuel n r served image enough =
      from_nothing fuel (min n (r.uncompressed_size - r.position)) r served image
        (omega (arith, served.inside)) (omega (arith, enough))
