-- ===== src/Compressed/Zso/Retry.antt =====
-- The padding at the end of a block: the loop finds the longest part of it that decodes.
use native.Mathlib.Decide.{ℕ_discrete}
use ps2_servers.Base.{
  ℕ, zero, suc, ◌≤◌, ◌<◌, ◌≡◌, refl, ◌∙◌, ap, arith, Bool, Option, none, some, Option-cases, inl,
  inr, take, ◌⊎◌,
}
use ps2_servers.Base.Signed.{ℤ}
use ps2_servers.Bytes.{Bytes}
use ps2_servers.Exec.{ok, raise, value_error}
use ps2_servers.Compressed.Zso.{retry}

module _ (inflate : ℤ → Bytes → ℕ → Option (Bytes × Bool))
    (lz4_block : Bytes → ℕ → Option Bytes) where
  -- No part of more than `m` and at most `n` bytes decodes.
  abbrev pub NoneAbove : ℕ → Bytes → ℕ → ℕ → Type 0
  NoneAbove block_size bytes m n =
      (j : ℕ) → m < j → j ≤ n → lz4_block (take j bytes) block_size ≡ none

  one_more :
      (block_size : ℕ) (bytes : Bytes) (m n : ℕ)
      → lz4_block (take (suc n) bytes) block_size ≡ none
      → NoneAbove block_size bytes m n
      → NoneAbove block_size bytes m (suc n)
  one_more block_size bytes m n failed above j low high = elim (ℕ_discrete j (suc n)) [
    | yes last ↦ rw last failed
    | no other ↦ above j low (omega arith)
  ]

  -- A round of the loop.
  retry_step :
      (block_size : ℕ) (bytes : Bytes) (n : ℕ) (o : Option Bytes)
      → lz4_block (take (suc n) bytes) block_size ≡ o
      → retry inflate lz4_block block_size bytes (suc n)
        ≡ elim o [ some block ↦ ok block | none ↦ retry inflate lz4_block block_size bytes n ]
  unfolding retry
  retry_step block_size bytes n o e =
      ap (λ o. elim o [ some block ↦ ok block | none ↦ retry inflate lz4_block block_size bytes n ])
        e

  -- The retry loop gives what the longest non-empty part, from the start on, decodes to, or raises
  -- ValueError where no part decodes.
  pub retry-longest :
      (block_size : ℕ) (bytes : Bytes) (n : ℕ)
      → ((m : ℕ) × (block : Bytes) × (0 < m)
          × (m ≤ n)
          × (lz4_block (take m bytes) block_size ≡ some block)
          × NoneAbove block_size bytes m n
          × (retry inflate lz4_block block_size bytes n ≡ ok block))
        ⊎ (NoneAbove block_size bytes 0 n
            × (retry inflate lz4_block block_size bytes n ≡ raise value_error))
  unfolding retry
  retry-longest block_size bytes zero = inr ((λ j h k. absurd (omega arith)), refl)
  retry-longest block_size bytes (suc n) =
      elim (Option-cases (lz4_block (take (suc n) bytes) block_size)) [
        | inr (block, found) ↦ inl (
          suc n,
          block,
          omega arith,
          omega arith,
          found,
          (λ j h k. absurd (omega arith)),
          retry_step block_size bytes n (some block) found,
        )
        | inl failed ↦ elim (retry-longest block_size bytes n) [
          | inl (m, block, some_bytes, at_most, found, above, e) ↦ inl (
            m,
            block,
            some_bytes,
            omega arith,
            found,
            one_more block_size bytes m n failed above,
            retry_step block_size bytes n none failed ∙ e,
          )
          | inr (above, e) ↦ inr (
            one_more block_size bytes 0 n failed above,
            retry_step block_size bytes n none failed ∙ e,
          )
        ]
      ]
