-- ===== src/Compressed/Reader/Loop.antt =====
-- The rounds of `read`'s loop, one at a time.
use ps2_servers.Base.{
  ℕ, suc, ◌-◌, ◌≤◌, ◌<◌, ◌≡◌, refl, ap, Bool, ◌++◌, none, some, length, lt→ltb, le→ltb,
}
use ps2_servers.Bytes.{Bytes}
use ps2_servers.Exec.{Fault, Outcome, ok, raise}
use ps2_servers.Compressed.Reader.{Reader, round, rounds}

module _ (decompress : ℕ → Outcome Bytes) (cancelled : Reader → Bool) where
  pub rounds-none :
      (size : ℕ) (result : Bytes) (r : Reader) → rounds decompress cancelled 0 size result r ≡ none
  unfolding rounds
  rounds-none size result r = refl

  pub rounds_done :
      (fuel size : ℕ) (result : Bytes) (r : Reader)
      → size ≤ length result
      → rounds decompress cancelled (suc fuel) size result r ≡ some (ok result, r)
  unfolding rounds
  rounds_done fuel size result r h = rw (rounds, le→ltb (length result) size h) refl

  pub rounds_more :
      (fuel size : ℕ) (result more : Bytes) (r s : Reader)
      → length result < size
      → round decompress cancelled (size - length result) r ≡ (ok more, s)
      → rounds decompress cancelled (suc fuel) size result r
        ≡ rounds decompress cancelled fuel size (result ++ more) s
  unfolding rounds
  rounds_more fuel size result more r s h e =
      rw (rounds, lt→ltb (length result) size h)
        (ap
          (λ (x : Outcome Bytes × Reader). elim x.0 [
            | raise fault ↦ some (raise fault, x.1)
            | ok new ↦ rounds decompress cancelled fuel size (result ++ new) x.1
          ])
          e)

  pub rounds_stop :
      (fuel size : ℕ) (result : Bytes) (r s : Reader) (fault : Fault)
      → length result < size
      → round decompress cancelled (size - length result) r ≡ (raise fault, s)
      → rounds decompress cancelled (suc fuel) size result r ≡ some (raise fault, s)
  unfolding rounds
  rounds_stop fuel size result r s fault h e =
      rw (rounds, lt→ltb (length result) size h)
        (ap
          (λ (x : Outcome Bytes × Reader). elim x.0 [
            | raise fault ↦ some (raise fault, x.1)
            | ok new ↦ rounds decompress cancelled fuel size (result ++ new) x.1
          ])
          e)
