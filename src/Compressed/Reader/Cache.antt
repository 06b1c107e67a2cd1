-- ===== src/Compressed/Reader/Cache.antt =====
-- The block cache: it holds what decoding gives, and never more blocks than its size.
use mathlib.Core.Path.{ap₂, subst}
use ps2_servers.Base.{
  ℕ, suc, ◌≤◌, ◌<◌, Bool, false, ◌≡◌, refl, ap, ◌∙◌, List, [], ◌∷◌, ◌++◌, none, some, length,
  length-append, All, Option-cases, inl, inr, Bool-cases, if-cases, ==_iff, ◌==◌, leb, arith,
}
use ps2_servers.Bytes.{Bytes}
use ps2_servers.Exec.{Outcome, ok}
use ps2_servers.Compressed.Reader.{
  Reader, cached, without, evict, charge, check_length, remember, accept_block, decode, load_block,
  get_block,
}

pub All-append {ℓ κ} :
    {A : Type ℓ} (P : A → Type κ) (xs ys : List A) → All P xs → All P ys → All P (xs ++ ys)
All-append P [] ys h k = k
All-append P (x ∷ xs) ys (h, hs) k = (h, All-append P xs ys hs k)

-- One eviction makes room for one block.
pub length-evict :
    (size : ℕ) (cache : List (ℕ × Bytes)) → 0 < size → length (evict size cache) < size
unfolding evict
length-evict size [] h = omega arith
length-evict size (entry ∷ cache) h = ground (arith, length-evict size cache h)

length-without :
    (idx : ℕ) (cache : List (ℕ × Bytes)) (block : Bytes)
    → cached idx cache ≡ some block
    → suc (length (without idx cache)) ≡ length cache
unfolding cached without
length-without idx [] block h = ground arith
length-without idx ((i, b) ∷ cache) block h = ground (arith, length-without idx cache block)

-- What holds of every entry.
module _ (P : ℕ × Bytes → Type 0) where
  pub cached-All :
      (idx : ℕ) (cache : List (ℕ × Bytes)) (b : Bytes)
      → All P cache
      → cached idx cache ≡ some b
      → P (idx, b)
  unfolding cached
  cached-All idx [] b every h = ground arith
  cached-All idx ((i, found) ∷ cache) b (here, rest) h = elim (Bool-cases (i == idx)) [
    | inl same ↦
        let e = (==_iff i idx).0 same in
        let f = rw same at h in
        subst (λ (x : ℕ × Bytes). P x)
          (ap₂ (λ j c. (j, c)) e (ap (λ o. elim o [ none ↦ b | some c ↦ c ]) f)) here
    | inr other ↦ cached-All idx cache b rest (rw other at h)
  ]

  pub without-All : (idx : ℕ) (cache : List (ℕ × Bytes)) → All P cache → All P (without idx cache)
  unfolding without
  without-All idx [] h = tt
  without-All idx ((i, b) ∷ cache) (here, rest) =
      if-cases (All P) (i == idx) (λ _. rest) (λ _. (here, without-All idx cache rest))

  pub evict-All : (size : ℕ) (cache : List (ℕ × Bytes)) → All P cache → All P (evict size cache)
  unfolding evict
  evict-All size [] h = tt
  evict-All size (entry ∷ cache) (here, rest) =
      if-cases (All P) (leb size (suc (length cache))) (λ _. evict-All size cache rest)
        (λ _. (here, rest))

  pub renewed-All :
      (idx : ℕ) (cache : List (ℕ × Bytes)) (b : Bytes)
      → All P cache
      → P (idx, b)
      → All P (without idx cache ++ ((idx, b) ∷ []))
  renewed-All idx cache b every new =
      All-append P (without idx cache) ((idx, b) ∷ []) (without-All idx cache every) (new, tt)

  pub remembered-All :
      (size idx : ℕ) (cache : List (ℕ × Bytes)) (b : Bytes)
      → All P cache
      → P (idx, b)
      → All P (evict size cache ++ ((idx, b) ∷ []))
  remembered-All size idx cache b every new =
      All-append P (evict size cache) ((idx, b) ∷ []) (evict-All size cache every) (new, tt)

-- Neither way of putting a block into the cache makes it larger than its size.
pub length-renewed :
    (idx : ℕ) (cache : List (ℕ × Bytes)) (b : Bytes)
    → cached idx cache ≡ some b
    → length (without idx cache ++ ((idx, b) ∷ [])) ≡ length cache
length-renewed idx cache b hit =
    omega (arith, length-append (without idx cache) ((idx, b) ∷ []), length-without idx cache b hit)

pub length-remembered :
    (size idx : ℕ) (cache : List (ℕ × Bytes)) (b : Bytes)
    → 0 < size
    → length (evict size cache ++ ((idx, b) ∷ [])) ≤ size
length-remembered size idx cache b room =
    omega
      (arith, room, length-append (evict size cache) ((idx, b) ∷ []), length-evict size cache room)

module _ (block : ℕ → Bytes) where
  abbrev pub IsDecoded : ℕ × Bytes → Type 0
  IsDecoded entry = entry.1 ≡ block entry.0

  -- The cache of a reader: true, and within its size.
  pub record IsCache (r : Reader) : Type 0 where
    pub decoded : All IsDecoded r.cache
    pub bounded : length r.cache ≤ r.cache_size
    pub room : 0 < r.cache_size

  charge_lax : (r : Reader) → r.strict ≡ false → charge r ≡ (ok tt, r)
  unfolding charge
  charge_lax r lax = rw lax refl

  check_length_lax :
      (idx : ℕ) (b : Bytes) (r : Reader) → r.strict ≡ false → check_length idx b r ≡ (ok tt, r)
  unfolding check_length
  check_length_lax idx b r lax = rw lax refl

  module _ (decompress : ℕ → Outcome Bytes) (cancelled : Reader → Bool) where
    load_lax :
        (idx : ℕ) (r : Reader)
        → r.strict ≡ false
        → decompress idx ≡ ok (block idx)
        → load_block decompress cancelled idx r ≡ (ok (block idx), remember idx (block idx) r)
    unfolding load_block decode accept_block
    load_lax idx r lax e =
        rw (charge_lax r lax) (rw e (rw (check_length_lax idx (block idx) r lax) refl))

    -- `get_block` without its first test.
    get_block_lax :
        (idx : ℕ) (r : Reader)
        → r.strict ≡ false
        → get_block decompress cancelled idx r ≡ elim (cached idx r.cache) [
          | some b ↦ (ok b, record r { cache = without idx r.cache ++ ((idx, b) ∷ []) })
          | none ↦ load_block decompress cancelled idx r
        ]
    unfolding get_block
    get_block_lax idx r lax = rw lax refl

    -- A block of an image that is served comes out as it is decoded, from the cache or not. Only the
    -- cache changes, and it stays one.
    pub get_block_lem :
        (idx : ℕ) (r : Reader)
        → IsCache r
        → r.strict ≡ false
        → decompress idx ≡ ok (block idx)
        → (cache : List (ℕ × Bytes)) × (get_block decompress cancelled idx r
            ≡ (ok (block idx), record r { cache = cache }))
          × IsCache (record r { cache = cache })
    unfolding remember
    get_block_lem idx r h lax e = elim (Option-cases (cached idx r.cache)) [
      | inl miss ↦ (
        evict r.cache_size r.cache ++ ((idx, block idx) ∷ []),
        get_block_lax idx r lax ∙ rw (miss) (load_lax idx r lax e),
        record {
          decoded = remembered-All IsDecoded r.cache_size idx r.cache (block idx) h.decoded refl;
          bounded = length-remembered r.cache_size idx r.cache (block idx) h.room;
          room = h.room;
        },
      )
      | inr (b, hit) ↦
          let known = cached-All IsDecoded idx r.cache b h.decoded hit in
          (
            without idx r.cache ++ ((idx, b) ∷ []),
            get_block_lax idx r lax
                ∙ rw hit (
                    ap (λ x. (ok x, record r { cache = without idx r.cache ++ ((idx, b) ∷ []) }))
                      known),
            record {
              decoded = renewed-All IsDecoded idx r.cache b h.decoded known;
              bounded = omega (arith, h.bounded, length-renewed idx r.cache b hit);
              room = h.room;
            },
          )
    ]
