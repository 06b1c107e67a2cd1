-- ===== src/Compressed/Reader/Inspected.antt =====
-- A reader under `strict`, and what `_get_block` may leave of it: its checks hold whatever a block
-- decodes to.
use ps2_servers.Base.{
  ℕ, ◌+◌, ◌-◌, ◌/◌, ◌≤◌, ◌<◌, ◌≡◌, refl, arith, if◌then◌else◌, Bool, if-cases, ltb→le, Option-cases,
  inl, inr, true, ◌&&◌, List, [], ◌∷◌, ◌++◌, length, All, ltb, leb,
}
use ps2_servers.Bytes.{Bytes}
use ps2_servers.Exec.{Outcome, proceed, ok, raise, inspection_limit, value_error}
use ps2_servers.Compressed.Reader.{
  accept_block, decode, Reader, max_decode, cached, without, evict, expected_length, charge,
  check_length, remember, load_block, get_block,
}
use ps2_servers.Compressed.Reader.Cache.{
  renewed-All, remembered-All, cached-All, length-renewed, length-remembered,
}

-- A cached block is no shorter than its part of the image.
abbrev pub IsLong : Reader → ℕ × Bytes → Type 0
IsLong r entry = expected_length r entry.0 ≤ length entry.1

pub record IsInspected (r : Reader) : Type 0 where
  pub checking : r.strict ≡ true
  pub some_bytes : 0 < r.block_size
  pub count : r.num_blocks ≡ (r.uncompressed_size + (r.block_size - 1)) / r.block_size
  pub inside : r.position ≤ r.uncompressed_size
  pub long : All (IsLong r) r.cache
  pub bounded : length r.cache ≤ r.cache_size
  pub room : 0 < r.cache_size
  pub budget : r.decoded ≤ max_decode

-- What `_get_block` may leave: it raises, or its block is long enough, the budget is kept, and the
-- cache is one of an inspected reader.
abbrev pub IsFine : ℕ → Reader → Outcome Bytes × Reader → Type 0
IsFine idx r (raise e, s) = Unit
IsFine idx r (ok block, s) =
    (cache : List (ℕ × Bytes)) × (decoded : ℕ) × (s ≡ record r { cache = cache; decoded = decoded })
    × (decoded ≤ max_decode)
    × (expected_length r idx ≤ length block)
    × All (IsLong r) cache
    × (length cache ≤ r.cache_size)

pub charge_strict :
    (r : Reader)
    → r.strict ≡ true
    → charge r ≡ (
        let spent = record r { decoded = r.decoded + r.block_size } in
        if ltb max_decode spent.decoded then (raise inspection_limit, spent) else (ok tt, spent))
unfolding charge
charge_strict r checking = rw checking refl

pub check_length_strict :
    (idx : ℕ) (block : Bytes) (r : Reader)
    → r.strict ≡ true
    → check_length idx block r ≡ (
        if leb (expected_length r idx) (length block) && leb (length block) r.block_size
        then (ok tt, r)
        else (raise value_error, r))
unfolding check_length
check_length_strict idx block r checking = rw checking refl

accept_block-IsFine :
    (idx : ℕ) (block : Bytes) (r : Reader) (decoded : ℕ)
    → IsInspected r
    → decoded ≤ max_decode
    → IsFine idx r (accept_block idx block (record r { decoded = decoded }))
unfolding accept_block remember
accept_block-IsFine idx block r decoded h within =
    let s = record r { decoded = decoded } in
    rw (check_length_strict idx block s h.checking) (
      if-cases {A = Outcome (Unit {0}) × Reader}
        (λ x.
          IsFine idx r
            (proceed {A = Unit {0}} {B = Bytes} x (λ _ t. (ok block, remember idx block t))))
        (leb (expected_length r idx) (length block) && leb (length block) r.block_size)
        (λ fits.
          let long : expected_length r idx ≤ length block = ground (arith, fits) in
          (
            evict r.cache_size r.cache ++ ((idx, block) ∷ []),
            decoded,
            refl,
            within,
            long,
            remembered-All (IsLong r) r.cache_size idx r.cache block h.long long,
            length-remembered r.cache_size idx r.cache block h.room,
          ))
        (λ _. tt))

module _ (decompress : ℕ → Outcome Bytes) (cancelled : Reader → Bool) where
  decode-IsFine :
      (idx : ℕ) (r : Reader) (decoded : ℕ)
      → IsInspected r
      → decoded ≤ max_decode
      → IsFine idx r (decode decompress cancelled idx (record r { decoded = decoded }))
  unfolding decode
  decode-IsFine idx r decoded h within =
      elim (decompress idx)
        as (λ o. IsFine idx r (proceed (o, record r { decoded = decoded }) (accept_block idx))) [
          | raise fault ↦ tt
          | ok block ↦ accept_block-IsFine idx block r decoded h within
        ]

  load_block-IsFine :
      (idx : ℕ) (r : Reader) → IsInspected r → IsFine idx r (load_block decompress cancelled idx r)
  unfolding load_block
  load_block-IsFine idx r h = rw (charge_strict r h.checking) (
      if-cases {A = Outcome (Unit {0}) × Reader}
        (λ x.
          IsFine idx r
            (proceed {A = Unit {0}} {B = Bytes} x (λ _. decode decompress cancelled idx)))
        (ltb max_decode (r.decoded + r.block_size)) (λ _. tt)
        (λ within.
          decode-IsFine idx r (r.decoded + r.block_size) h
            (ltb→le max_decode (r.decoded + r.block_size) within)))

  pub get_block_strict :
      (idx : ℕ) (r : Reader) → IsInspected r → IsFine idx r (get_block decompress cancelled idx r)
  unfolding get_block
  get_block_strict idx r h =
      if-cases (IsFine idx r) (r.strict && cancelled r) (λ _. tt)
        (λ _. elim (Option-cases (cached idx r.cache)) [
          | inl miss ↦ rw miss (load_block-IsFine idx r h)
          | inr (block, hit) ↦ rw hit (
              let long = cached-All (IsLong r) idx r.cache block h.long hit in
              (
                without idx r.cache ++ ((idx, block) ∷ []),
                r.decoded,
                refl,
                h.budget,
                long,
                renewed-All (IsLong r) idx r.cache block h.long long,
                omega (arith, h.bounded, length-renewed idx r.cache block hit),
              ))
        ])
