-- ===== src/Compressed/Reader/Stuck.antt =====
-- A read that never ends: the last block decodes to fewer bytes than the image has of it.
use native.Mathlib.Nat.{div-eq_of_lt-le, suc-mul, mod-eq-sub-div-mul}
use ps2_servers.Base.{
  ℕ, zero, suc, ◌+◌, ◌-◌, ◌*◌, ◌/◌, ◌%◌, ◌≤◌, ◌<◌, min, ◌≡◌, refl, ◌∙◌, ap, arith, ◌==◌, Bool,
  false, List, [], ◌++◌, none, length, take, drop, length-take, length-drop, length-append,
}
use ps2_servers.Base.Signed.{pos}
use ps2_servers.Bytes.{Bytes}
use ps2_servers.Exec.{Outcome, ok}
use ps2_servers.Compressed.Reader.{Reader, available, round, rounds, read}
use ps2_servers.Compressed.Reader.Cache.{IsCache, get_block_lem}
use ps2_servers.Compressed.Reader.Loop.{rounds_more, rounds-none}

-- An image that ends inside its last block, which decodes.
pub record EndsInBlock (block : ℕ → Bytes) (decompress : ℕ → Outcome Bytes) (last : ℕ) (r : Reader)
    : Type 0 where
  pub lax : r.strict ≡ false
  pub some_bytes : 0 < r.block_size
  pub low : last * r.block_size < r.uncompressed_size
  pub high : r.uncompressed_size < last * r.block_size + r.block_size
  pub count : r.num_blocks ≡ suc last
  pub caching : IsCache block r
  pub decodes : decompress last ≡ ok (block last)

module _ (block : ℕ → Bytes) (decompress : ℕ → Outcome Bytes) (cancelled : Reader → Bool)
    (last : ℕ) where
  -- Where a position in the last block lies.
  block_of :
      (r : Reader)
      → EndsInBlock block decompress last r
      → last * r.block_size ≤ r.position
      → r.position ≤ r.uncompressed_size
      → (r.position / r.block_size ≡ last)
        × (r.position % r.block_size ≡ r.position - last * r.block_size)
  block_of r h low inside =
      let q : r.position / r.block_size ≡ last =
        div-eq_of_lt-le r.block_size low
          (omega (arith, h.high, inside, suc-mul last r.block_size)) in
      (q, mod-eq-sub-div-mul r.position r.block_size ∙ ap (λ k. r.position - k * r.block_size) q)

  available_last :
      (r : Reader)
      → EndsInBlock block decompress last r
      → last * r.block_size ≤ r.position
      → available r last (r.position - last * r.block_size) ≡ r.uncompressed_size - r.position
  unfolding available
  available_last r h low =
      let q : r.uncompressed_size / r.block_size ≡ last =
        div-eq_of_lt-le r.block_size (omega (arith, h.low))
          (omega (arith, h.high, suc-mul last r.block_size)) in
      let e : r.uncompressed_size % r.block_size ≡ r.uncompressed_size - last * r.block_size =
        mod-eq-sub-div-mul r.uncompressed_size r.block_size
        ∙ ap (λ k. r.uncompressed_size - k * r.block_size) q in
      ground (arith, e, h.count, h.low, low)

  -- A round takes what the block has of the rest of the image, and counts all that it has not.
  round_short :
      (wanted : ℕ) (r : Reader)
      → EndsInBlock block decompress last r
      → last * r.block_size ≤ r.position
      → r.position ≤ r.uncompressed_size
      → let k = min wanted (r.uncompressed_size - r.position) in
        (cache : List (ℕ × Bytes)) × (round decompress cancelled wanted r ≡ (
          ok (take k (drop (r.position - last * r.block_size) (block last))),
          record r { cache = cache; position = r.position + k },
        ))
        × EndsInBlock block decompress last (record r { cache = cache; position = r.position + k })
  unfolding round
  round_short wanted r h low inside =
      let (idx, offset) = block_of r h low inside in
      let (cache, e, caching) =
        get_block_lem block decompress cancelled last r h.caching h.lax h.decodes in
      (
        cache,
        rw (idx, offset, available_last r h low) (rw e refl),
        record {
          lax = h.lax;
          some_bytes = h.some_bytes;
          low = h.low;
          high = h.high;
          count = h.count;
          caching = record {
            decoded = caching.decoded;
            bounded = caching.bounded;
            room = caching.room;
          };
          decodes = h.decodes;
        },
      )

  -- At the image's end there is nothing to add, however much is missing.
  rounds_stuck :
      (fuel size : ℕ) (result : Bytes) (r : Reader)
      → EndsInBlock block decompress last r
      → r.position ≡ r.uncompressed_size
      → length result < size
      → rounds decompress cancelled fuel size result r ≡ none
  rounds_stuck zero size result r h at_end short = rounds-none decompress cancelled size result r
  rounds_stuck (suc fuel) size result r h at_end short =
      let (cache, e, h') =
        round_short (size - length result) r h (omega (arith, at_end, h.low))
          (omega (arith, at_end)) in
      let k = min (size - length result) (r.uncompressed_size - r.position) in
      let more = take k (drop (r.position - last * r.block_size) (block last)) in
      rounds_more decompress cancelled fuel size result more r
        (record r { cache = cache; position = r.position + k }) short e
      ∙ rounds_stuck fuel size (result ++ more)
          (record r { cache = cache; position = r.position + k }) h' (omega (arith, at_end))
          (omega (
            arith,
            at_end,
            short,
            length-append result more,
            length-take k (drop (r.position - last * r.block_size) (block last)),
          ))

  to_the_end :
      (fuel size : ℕ) (r : Reader)
      → EndsInBlock block decompress last r
      → last * r.block_size ≤ r.position
      → r.position < r.uncompressed_size
      → size ≡ r.uncompressed_size - r.position
      → length (block last) + last * r.block_size < r.uncompressed_size
      → rounds decompress cancelled fuel size [] r ≡ none
  to_the_end zero size r h low inside whole short = rounds-none decompress cancelled size [] r
  to_the_end (suc fuel) size r h low inside whole short =
      let (cache, e, h') = round_short (size - 0) r h low (omega (arith, inside)) in
      let k = min (size - 0) (r.uncompressed_size - r.position) in
      let rest = drop (r.position - last * r.block_size) (block last) in
      let s = record r { cache = cache; position = r.position + k } in
      rounds_more decompress cancelled fuel size [] (take k rest) r s (omega (arith, whole, inside))
        e
      ∙ rounds_stuck fuel size (take k rest) s h' (omega (arith, whole, inside)) (
          omega (
            arith,
            whole,
            inside,
            low,
            short,
            length-take k rest,
            length-drop (r.position - last * r.block_size) (block last),
          ))

  -- A read of an image that is not inspected (`strict` is false), whose size is no multiple of the
  -- block size, whose number of blocks agrees with it and whose cache holds what decoding gives: from
  -- inside the last, partial block up to the image's end or beyond, where that block decodes, but to
  -- fewer bytes than the image has of it, no fuel is enough, the loop runs on for ever.
  pub read-stuck :
      (fuel n : ℕ) (r : Reader)
      → EndsInBlock block decompress last r
      → last * r.block_size ≤ r.position
      → r.position < r.uncompressed_size
      → r.uncompressed_size ≤ r.position + n
      → length (block last) + last * r.block_size < r.uncompressed_size
      → read decompress cancelled fuel (pos n) r ≡ none
  unfolding read
  read-stuck fuel n r h low inside wanted short =
      let size : min n (r.uncompressed_size - r.position) ≡ r.uncompressed_size - r.position =
        omega (arith, wanted) in
      let some_wanted : (r.uncompressed_size - r.position == 0) ≡ false = ground (arith, inside) in
      rw (size, some_wanted)
        (to_the_end fuel (r.uncompressed_size - r.position) r h low inside refl short)
