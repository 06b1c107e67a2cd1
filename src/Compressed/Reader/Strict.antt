-- ===== src/Compressed/Reader/Strict.antt =====
-- A reader under `strict`, as images are inspected with it: the decoding is any function, the
-- checks of `_get_block` alone keep a read from running on and from decoding without end.
use native.Mathlib.Nat.{mod-add-div', mod-lt}
use mathlib.Core.Path.{subst}
use ps2_servers.Compressed.Reader.Loop.{rounds_done, rounds_more, rounds_stop}
use ps2_servers.Base.{
  ℕ, zero, suc, ◌+◌, ◌-◌, ◌/◌, ◌%◌, ◌≤◌, ◌<◌, min, ◌≡◌, refl, sym, ◌∙◌, ap, arith, ◌==◌, Bool,
  ==_iff, if-cases, [], ◌++◌, Option, some, length, take, drop, length-take, length-drop,
  length-append,
}
use ps2_servers.Base.Signed.{pos}
use ps2_servers.Bytes.{Bytes}
use ps2_servers.Exec.{Outcome, proceed, ok, raise}
use ps2_servers.Compressed.Reader.{
  Reader, expected_length, get_block, available, round, rounds, read,
}
use ps2_servers.Compressed.Reader.Geometry.{block-lt, available_lem}
use ps2_servers.Compressed.Reader.Inspected.{IsInspected, IsFine, get_block_strict}

-- What a round may leave: it raises, or it added some of the bytes that were wanted.
abbrev pub IsProgress : ℕ → Reader → Outcome Bytes × Reader → Type 0
IsProgress wanted r (raise e, s) = Unit
IsProgress wanted r (ok more, s) =
    (0 < length more)
    × (length more ≤ wanted)
    × (s.position ≡ r.position + length more)
    × (s.uncompressed_size ≡ r.uncompressed_size)
    × IsInspected s

-- The end of a read of `size` bytes.
abbrev pub IsReadOf : ℕ → Reader → Outcome Bytes × Reader → Type 0
IsReadOf size r (raise e, s) = Unit
IsReadOf size r (ok bytes, s) =
    (length bytes ≡ size) × (s.uncompressed_size ≡ r.uncompressed_size) × IsInspected s

took :
    (wanted idx offset k : ℕ) (r : Reader) (x : Outcome Bytes × Reader)
    → IsInspected r
    → IsFine idx r x
    → 0 < k
    → k ≤ wanted
    → r.position + wanted ≤ r.uncompressed_size
    → offset + k ≤ expected_length r idx
    → IsProgress wanted r (
        proceed x
          (λ block s. (ok (take k (drop offset block)), record s { position = s.position + k })))
took wanted idx offset k r (raise e, s) h fine some_bytes at_most fits short = tt
took wanted idx offset k r (ok block, s) h (cache, decoded, e, within, long, all_long, bounded)
      some_bytes at_most fits short =
    let t = record r { cache = cache; decoded = decoded } in
    let whole : length (take k (drop offset block)) ≡ k =
      omega (arith, length-take k (drop offset block), length-drop offset block, short, long) in
    subst
      (λ s.
        IsProgress wanted r
          (ok (take k (drop offset block)), record s { position = s.position + k }))
      (sym e)
      (rw whole (
        some_bytes,
        at_most,
        refl,
        refl,
        record {
          checking = h.checking;
          some_bytes = h.some_bytes;
          count = h.count;
          inside = omega (arith, fits, at_most);
          long = all_long;
          bounded = bounded;
          room = h.room;
          budget = within;
        },
      ))

same_read :
    (size : ℕ) (r s : Reader) (end : Outcome Bytes × Reader)
    → s.uncompressed_size ≡ r.uncompressed_size
    → IsReadOf size s end
    → IsReadOf size r end
same_read size r s (raise e, t) same h = tt
same_read size r s (ok bytes, t) same (whole, size_t, h) = (whole, size_t ∙ same, h)

module _ (decompress : ℕ → Outcome Bytes) (cancelled : Reader → Bool) where
  pub round_strict :
      (wanted : ℕ) (r : Reader)
      → IsInspected r
      → 0 < wanted
      → r.position + wanted ≤ r.uncompressed_size
      → IsProgress wanted r (round decompress cancelled wanted r)
  unfolding round
  round_strict wanted r h some_wanted fits =
      let bs = r.block_size in
      let idx = r.position / bs in
      let offset = r.position % bs in
      let inside =
        block-lt r.uncompressed_size bs r.num_blocks h.some_bytes h.count r.position
          (omega arith) in
      let room = available_lem r idx offset h.some_bytes h.count inside in
      let split = mod-add-div' r.position bs in
      let low = mod-lt r.position h.some_bytes in
      took wanted idx offset (min wanted (available r idx offset)) r
        (get_block decompress cancelled idx r) h (get_block_strict decompress cancelled idx r h)
        (omega (arith, room, split, low)) (omega arith) fits (omega (arith, room, split, low))

  -- The loop ends with this fuel, as a read of `size` bytes.
  abbrev Ends : ℕ → ℕ → Bytes → Reader → Type 0
  Ends fuel size result r =
      (end : Outcome Bytes × Reader) × (rounds decompress cancelled fuel size result r ≡ some end)
      × IsReadOf size r end

  -- Both ends of a round, given that the loop ends after it.
  next_strict :
      (fuel n size : ℕ) (result : Bytes) (r : Reader) (x : Outcome Bytes × Reader)
      → size ≡ length result + suc n
      → r.position + suc n ≤ r.uncompressed_size
      → round decompress cancelled (size - length result) r ≡ x
      → IsProgress (suc n) r x
      → ((m : ℕ) (more : Bytes) (s : Reader)
          → IsInspected s
          → size ≡ length more + m
          → m ≤ n
          → s.position + m ≤ s.uncompressed_size
          → Ends fuel size more s)
      → Ends (suc fuel) size result r
  next_strict fuel n size result r (raise fault, s) total fits e progress again = (
    (raise fault, s),
    rounds_stop decompress cancelled fuel size result r s fault (omega (arith, total)) e,
    tt,
  )
  next_strict fuel n size result r (ok more, s) total fits e
        (some_bytes, at_most, moved, same_size, h) again =
      let (end, ends, is_read) =
        again (suc n - length more) (result ++ more) s h
          (omega (arith, total, at_most, length-append result more)) (omega (arith, some_bytes))
          (omega (arith, moved, same_size, fits, at_most)) in
      (
        end,
        rounds_more decompress cancelled fuel size result more r s (omega (arith, total)) e ∙ ends,
        same_read size r s end same_size is_read,
      )

  rounds_strict :
      (fuel n size : ℕ) (result : Bytes) (r : Reader)
      → IsInspected r
      → size ≡ length result + n
      → n < fuel
      → r.position + n ≤ r.uncompressed_size
      → Ends fuel size result r
  rounds_strict zero n size result r h total enough fits = absurd (omega arith)
  rounds_strict (suc fuel) zero size result r h total enough fits = (
    (ok result, r),
    rounds_done decompress cancelled fuel size result r (omega (arith, total)),
    (omega (arith, total), refl, h),
  )
  rounds_strict (suc fuel) (suc n) size result r h total enough fits =
      let left : size - length result ≡ suc n = omega (arith, total) in
      next_strict fuel n size result r (round decompress cancelled (suc n) r) total fits
        (ap (λ w. round decompress cancelled w r) left)
        (round_strict (suc n) r h (omega arith) fits)
        (λ m more s h' total' small fits'.
          rounds_strict fuel m size more s h' total' (omega (arith, small, enough)) fits')

  -- `read` of a reader under `strict`, whatever a block decodes to and whenever it is cancelled:
  -- with fuel above the image's size it returns. Where it gives bytes, they are as many as were asked
  -- for and left in the image, and the reader is again one that can be read on in this way: its
  -- position is inside the image, its blocks are no shorter than their parts of the image, the cache
  -- is not larger than its size, and its counter `decoded` is not above `max_decode`.
  pub read-strict_ends :
      (fuel n : ℕ) (r : Reader)
      → IsInspected r
      → r.uncompressed_size < fuel
      → (end : Outcome Bytes × Reader) × (read decompress cancelled fuel (pos n) r ≡ some end)
        × IsReadOf (min n (r.uncompressed_size - r.position)) r end
  unfolding read
  read-strict_ends fuel n r h enough =
      let size = min n (r.uncompressed_size - r.position) in
      if-cases {A = Option (Outcome Bytes × Reader)}
        (λ x. (end : Outcome Bytes × Reader) × (x ≡ some end) × IsReadOf size r end) (size == 0)
        (λ nothing. ((ok [], r), refl, (omega (arith, (==_iff size 0).0 nothing), refl, h)))
        (λ _.
          rounds_strict fuel size size [] r h (omega arith) (omega (arith, enough))
            (omega (arith, h.inside)))
