-- ===== src/Compressed/Reader/Counted.antt =====
-- A reader under `strict` that reads on counts every block that it decodes.
use native.Mathlib.Nat.{mod-add-div', mod-lt, suc-mul, div-eq_of_lt-le}
use ps2_servers.Base.{
  ℕ, zero, suc, ◌+◌, ◌-◌, ◌*◌, ◌/◌, ◌%◌, ◌≤◌, ◌<◌, min, ◌≡◌, refl, sym, ◌∙◌, ap, arith, ◌==◌, Bool,
  true, false, ◌&&◌, if-cases, List, [], ◌∷◌, ◌++◌, none, some, ◌⊎◌, inl, inr, All, length, take,
  drop, length-append, ltb, leb,
}
use ps2_servers.Base.Signed.{pos}
use ps2_servers.Bytes.{Bytes}
use ps2_servers.Exec.{Outcome, proceed, ok, raise}
use ps2_servers.Compressed.Reader.{
  Reader, max_decode, cached, expected_length, remember, accept_block, decode, load_block,
  get_block, available, round, rounds, read,
}
use ps2_servers.Compressed.Reader.Cache.{remembered-All}
use ps2_servers.Compressed.Reader.Geometry.{block-lt, available_lem}
use ps2_servers.Compressed.Reader.Loop.{rounds-none, rounds_done, rounds_more, rounds_stop}
use ps2_servers.Compressed.Reader.Inspected.{IsInspected, charge_strict, check_length_strict}
use ps2_servers.Compressed.Reader.Strict.{IsProgress, round_strict}
use native.Mathlib.Decide.{dec_le}
use mathlib.Core.Path.{subst}
use mathlib.Core.Option.{some-injective, none-ne-some}

-- Every cached block comes before block `idx`.
abbrev pub IsBefore : ℕ → List (ℕ × Bytes) → Type 0
IsBefore idx = All (λ (entry : ℕ × Bytes). entry.0 < idx)

cached-IsBefore :
    (idx : ℕ) (cache : List (ℕ × Bytes)) → IsBefore idx cache → cached idx cache ≡ none
unfolding cached
cached-IsBefore idx [] h = refl
cached-IsBefore idx ((i, block) ∷ cache) (here, h) =
    ground (arith, here, cached-IsBefore idx cache h)

later-IsBefore :
    (idx : ℕ) (cache : List (ℕ × Bytes)) → IsBefore idx cache → IsBefore (suc idx) cache
later-IsBefore idx [] h = tt
later-IsBefore idx (entry ∷ cache) (here, h) = (omega arith, later-IsBefore idx cache h)

-- What a block that is not in the cache leaves: the counter is a block's size higher.
abbrev IsCounted : ℕ → Reader → Outcome Bytes × Reader → Type 0
IsCounted idx r (raise e, s) = Unit
IsCounted idx r (ok block, s) =
    (s.decoded ≡ r.decoded + r.block_size)
    × (s.block_size ≡ r.block_size)
    × (s.position ≡ r.position)
    × IsBefore (suc idx) s.cache

accept_block-IsCounted :
    (idx : ℕ) (block : Bytes) (r : Reader)
    → r.strict ≡ true
    → IsBefore idx r.cache
    → IsCounted idx r (accept_block idx block (record r { decoded = r.decoded + r.block_size }))
unfolding accept_block remember
accept_block-IsCounted idx block r checking before =
    let s = record r { decoded = r.decoded + r.block_size } in
    rw (check_length_strict idx block s checking) (
      if-cases {A = Outcome (Unit {0}) × Reader}
        (λ x.
          IsCounted idx r
            (proceed {A = Unit {0}} {B = Bytes} x (λ _ t. (ok block, remember idx block t))))
        (leb (expected_length r idx) (length block) && leb (length block) r.block_size)
        (λ _. (
          refl,
          refl,
          refl,
          remembered-All (λ entry. entry.0 < suc idx) r.cache_size idx r.cache block
              (later-IsBefore idx r.cache before) (omega arith),
        ))
        (λ _. tt))

module _ (decompress : ℕ → Outcome Bytes) (cancelled : Reader → Bool) where
  load_block-IsCounted :
      (idx : ℕ) (r : Reader)
      → r.strict ≡ true
      → IsBefore idx r.cache
      → IsCounted idx r (load_block decompress cancelled idx r)
  unfolding load_block decode
  load_block-IsCounted idx r checking before = rw (charge_strict r checking) (
      if-cases {A = Outcome (Unit {0}) × Reader}
        (λ x.
          IsCounted idx r
            (proceed {A = Unit {0}} {B = Bytes} x (λ _. decode decompress cancelled idx)))
        (ltb max_decode (r.decoded + r.block_size)) (λ _. tt) (λ _. decoding (decompress idx)))
    where
      decoding :
          (o : Outcome Bytes)
          → IsCounted idx r
              (proceed (o, record r { decoded = r.decoded + r.block_size }) (accept_block idx))
      decoding (raise fault) = tt
      decoding (ok block) = accept_block-IsCounted idx block r checking before

  get_block-IsCounted :
      (idx : ℕ) (r : Reader)
      → r.strict ≡ true
      → IsBefore idx r.cache
      → IsCounted idx r (get_block decompress cancelled idx r)
  unfolding get_block
  get_block-IsCounted idx r checking before =
      if-cases (IsCounted idx r) (r.strict && cancelled r) (λ _. tt)
        (λ _. rw (cached-IsBefore idx r.cache before) (load_block-IsCounted idx r checking before))

-- What a round leaves: either it was the last one, or it read to the end of its block.
abbrev IsNext : ℕ → Reader → Outcome Bytes × Reader → Type 0
IsNext wanted r (raise e, s) = Unit
IsNext wanted r (ok more, s) =
    let idx = r.position / r.block_size in
    (s.decoded ≡ r.decoded + r.block_size)
    × (s.block_size ≡ r.block_size)
    × (s.position ≤ suc idx * r.block_size)
    × ((s.position ≡ r.position + wanted)
        ⊎ ((s.position ≡ suc idx * r.block_size) × IsBefore (suc idx) s.cache))

took-IsNext :
    (wanted offset k : ℕ) (r : Reader) (x : Outcome Bytes × Reader)
    → let end = suc (r.position / r.block_size) * r.block_size in
      r.position + k ≤ end
      → (r.position + k ≡ r.position + wanted) ⊎ (r.position + k ≡ end)
      → IsCounted (r.position / r.block_size) r x
      → IsNext wanted r (
          proceed x
            (λ block s. (ok (take k (drop offset block)), record s { position = s.position + k })))
took-IsNext wanted offset k r (raise e, s) inside cut counted = tt
took-IsNext wanted offset k r (ok block, s) inside cut (more, same, here, before) =
    let at : s.position + k ≡ r.position + k = ap (λ p. p + k) here in
    (more, same, omega (arith, at, inside), ends cut)
  where
    ends :
        (r.position + k ≡ r.position + wanted)
          ⊎ (r.position + k ≡ suc (r.position / r.block_size) * r.block_size)
        → (s.position + k ≡ r.position + wanted)
          ⊎ ((s.position + k ≡ suc (r.position / r.block_size) * r.block_size)
              × IsBefore (suc (r.position / r.block_size)) s.cache)
    ends (inl e) = inl (ap (λ p. p + k) here ∙ e)
    ends (inr e) = inr (ap (λ p. p + k) here ∙ e, before)

-- The end of a read of `size` bytes, with what its blocks were counted.
abbrev pub IsCountedRead : ℕ → Reader → Outcome Bytes × Reader → Type 0
IsCountedRead size r (raise e, s) = Unit
IsCountedRead size r (ok bytes, s) = r.position % r.block_size + size + r.decoded ≤ s.decoded

module _ (decompress : ℕ → Outcome Bytes) (cancelled : Reader → Bool) where
  round-IsNext :
      (wanted : ℕ) (r : Reader)
      → IsInspected r
      → 0 < wanted
      → r.position + wanted ≤ r.uncompressed_size
      → IsBefore (r.position / r.block_size) r.cache
      → IsNext wanted r (round decompress cancelled wanted r)
  unfolding round
  round-IsNext wanted r h some_wanted fits before =
      let bs = r.block_size in
      let idx = r.position / bs in
      let offset = r.position % bs in
      let inside =
        block-lt r.uncompressed_size bs r.num_blocks h.some_bytes h.count r.position
          (omega arith) in
      let room = available_lem r idx offset h.some_bytes h.count inside in
      let split = mod-add-div' r.position bs in
      let low = mod-lt r.position h.some_bytes in
      took-IsNext wanted offset (min wanted (available r idx offset)) r
        (get_block decompress cancelled idx r) (omega (arith, room, split, low, suc-mul idx bs))
        (elim (dec_le wanted (available r idx offset)) [
          | yes whole ↦ inl (omega (arith, whole))
          | no cut ↦ inr (omega (arith, cut, fits, room, split, low, suc-mul idx bs))
        ])
        (get_block-IsCounted decompress cancelled idx r h.checking before)

  -- What the loop gives from a reader on.
  abbrev Counts : ℕ → ℕ → Bytes → Reader → ℕ → Type 0
  Counts fuel size result r n =
      (end : Outcome Bytes × Reader)
      → rounds decompress cancelled fuel size result r ≡ some end
      → IsCountedRead n r end

  at_end :
      (fuel size : ℕ) (result : Bytes) (s : Reader) (end : Outcome Bytes × Reader)
      → size ≤ length result
      → rounds decompress cancelled fuel size result s ≡ some end
      → (ok result, s) ≡ end
  at_end zero size result s end h e =
      absurd (none-ne-some _ (sym (rounds-none decompress cancelled size result s) ∙ e))
  at_end (suc fuel) size result s end h e =
      some-injective _ _ (sym (rounds_done decompress cancelled fuel size result s h) ∙ e)

  last-Counts :
      (fuel size m : ℕ) (result : Bytes) (r s : Reader)
      → size ≤ length result
      → r.position % r.block_size + suc m + r.decoded ≤ s.decoded
      → (end : Outcome Bytes × Reader) → rounds decompress cancelled fuel size result s ≡ some end
      → IsCountedRead (suc m) r end
  last-Counts fuel size m result r s whole counted end e =
      subst (IsCountedRead (suc m) r) (at_end fuel size result s end whole e) counted

  carried :
      (n m : ℕ) (r s : Reader) (end : Outcome Bytes × Reader)
      → r.position % r.block_size + n + r.decoded ≤ m + s.decoded
      → IsCountedRead m s end
      → IsCountedRead n r end
  carried n m r s (raise fault, t) h counted = tt
  carried n m r s (ok bytes, t) h counted = omega (arith, h, counted)

  -- A round that is not the last, or is, with the rest of the loop.
  next-Counts :
      (fuel m size : ℕ) (result : Bytes) (r : Reader) (x : Outcome Bytes × Reader)
      → IsInspected r
      → size ≡ length result + suc m
      → r.position + suc m ≤ r.uncompressed_size
      → round decompress cancelled (size - length result) r ≡ x
      → IsProgress (suc m) r x
      → IsNext (suc m) r x
      → ((k : ℕ) (more : Bytes) (s : Reader)
          → IsInspected s
          → IsBefore (s.position / s.block_size) s.cache
          → size ≡ length more + suc k
          → s.position + suc k ≤ s.uncompressed_size
          → Counts fuel size more s (suc k))
      → Counts (suc fuel) size result r (suc m)
  next-Counts fuel m size result r (raise fault, s) h total fits e progress next again end ends =
      subst (IsCountedRead (suc m) r)
        (some-injective _ _ (
          sym (rounds_stop decompress cancelled fuel size result r s fault (omega (arith, total)) e)
          ∙ ends))
        tt
  next-Counts fuel m size result r (ok more, s) h total fits e
        (some_bytes, at_most, moved, same_size, h') (counted, same, inside, cut) again end ends =
      let bs = r.block_size in
      let idx = r.position / bs in
      let split = mod-add-div' r.position bs in
      let long = length-append result more in
      let left =
        sym (rounds_more decompress cancelled fuel size result more r s (omega (arith, total)) e)
        ∙ ends in
      elim (dec_le (suc m) (length more)) [
        | yes whole ↦
            last-Counts fuel size m (result ++ more) r s (omega (arith, total, whole, long))
              (omega (arith, counted, inside, moved, at_most, whole, split, suc-mul idx bs)) end
              left
        | no further ↦
            let k = m - length more in
            let (at, before) = not_last further cut in
            let here : s.position / s.block_size ≡ suc idx =
              ap (λ b. s.position / b) same
              ∙ div-eq_of_lt-le bs (omega (arith, at))
                  (omega (arith, at, h.some_bytes, suc-mul (suc idx) bs)) in
            carried (suc m) (suc k) r s end
              (omega (arith, counted, moved, at, split, further, suc-mul idx bs))
              (again k (result ++ more) s h' (subst (λ i. IsBefore i s.cache) (sym here) before)
                (omega (arith, total, further, long))
                (omega (arith, moved, same_size, fits, further)) end left)
      ]
    where
      not_last :
          (suc m ≤ length more → ⊥)
          → (s.position ≡ r.position + suc m)
            ⊎ ((s.position ≡ suc (r.position / r.block_size) * r.block_size)
                × IsBefore (suc (r.position / r.block_size)) s.cache)
          → (s.position ≡ suc (r.position / r.block_size) * r.block_size)
            × IsBefore (suc (r.position / r.block_size)) s.cache
      not_last further (inl last) = absurd (further (omega (arith, moved, last)))
      not_last further (inr both) = both

  rounds-Counts :
      (fuel m size : ℕ) (result : Bytes) (r : Reader)
      → IsInspected r
      → IsBefore (r.position / r.block_size) r.cache
      → size ≡ length result + suc m
      → r.position + suc m ≤ r.uncompressed_size
      → Counts fuel size result r (suc m)
  rounds-Counts zero m size result r h before total fits end ends =
      absurd (none-ne-some _ (sym (rounds-none decompress cancelled size result r) ∙ ends))
  rounds-Counts (suc fuel) m size result r h before total fits end ends =
      let left : size - length result ≡ suc m = omega (arith, total) in
      next-Counts fuel m size result r (round decompress cancelled (suc m) r) h total fits
        (ap (λ w. round decompress cancelled w r) left)
        (round_strict decompress cancelled (suc m) r h (omega arith) fits)
        (round-IsNext (suc m) r h (omega arith) fits before)
        (λ k more s h' before' total' fits'.
          rounds-Counts fuel k size more s h' before' total' fits')
        end ends

  -- A read that is not empty counts its blocks from the start of the first one on, where none of
  -- them is in the cache yet.
  pub read-IsCountedRead :
      (fuel n : ℕ) (r : Reader)
      → IsInspected r
      → IsBefore (r.position / r.block_size) r.cache
      → 0 < min n (r.uncompressed_size - r.position)
      → (end : Outcome Bytes × Reader) → read decompress cancelled fuel (pos n) r ≡ some end
      → IsCountedRead (min n (r.uncompressed_size - r.position)) r end
  unfolding read
  read-IsCountedRead fuel n r h before some_bytes end ends =
      let size = min n (r.uncompressed_size - r.position) in
      let wanted : (size == 0) ≡ false = ground (arith, some_bytes) in
      let k : suc (size - 1) ≡ size = omega (arith, some_bytes) in
      subst (λ m. IsCountedRead m r end) k
        (rounds-Counts fuel (size - 1) size [] r h before (omega (arith, k))
          (omega (arith, k, h.inside)) end (rw wanted at ends))
