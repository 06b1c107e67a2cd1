-- ===== src/Compressed/Reader/Geometry.antt =====
-- Where the blocks of an image lie, and what a round of `read` may take of one.
use native.Mathlib.Nat.{
  mod-add-div', le-div_iff_mul-le, div-lt_iff_lt-mul, div-eq_of_lt-le, mod-eq-sub-div-mul, suc-mul,
}
use native.Mathlib.Decide.{dec_lt, ℕ_discrete}
use ps2_servers.Base.{
  ℕ, suc, ◌+◌, ◌-◌, ◌*◌, ◌/◌, ◌%◌, ◌≤◌, ◌<◌, ◌≡◌, ◌∙◌, ap, arith, ◌==◌, ==_iff, if◌then◌else◌,
}
use ps2_servers.Compressed.Reader.{Reader, available, expected_length}

module _ (size bs nb : ℕ) (some_bytes : 0 < bs) (count : nb ≡ (size + (bs - 1)) / bs) where
  -- A position inside the image lies in one of its blocks.
  pub block-lt : (p : ℕ) → p < size → p / bs < nb
  block-lt p h =
      rw count
        ((le-div_iff_mul-le some_bytes).1 (omega (arith, mod-add-div' p bs, suc-mul (p / bs) bs)))

  pub last_block : (idx : ℕ) → suc idx ≡ nb → (idx * bs < size) × (size ≤ idx * bs + bs)
  last_block idx e =
      let low : suc idx * bs ≤ size + (bs - 1) =
        (le-div_iff_mul-le some_bytes).0 (omega (arith, e, count)) in
      let high : size + (bs - 1) < suc (suc idx) * bs =
        (div-lt_iff_lt-mul some_bytes).0 (omega (arith, e, count)) in
      (
        omega (arith, low, suc-mul idx bs),
        omega (arith, high, suc-mul (suc idx) bs, suc-mul idx bs),
      )

  pub full_block : (idx : ℕ) → suc idx < nb → idx * bs + bs < size
  full_block idx h =
      let low : suc (suc idx) * bs ≤ size + (bs - 1) =
        (le-div_iff_mul-le some_bytes).0 (omega (arith, h, count)) in
      omega (arith, low, suc-mul (suc idx) bs, suc-mul idx bs)

-- The rest of a block's last part, where the block is one that `size` ends in.
part :
    (size bs idx : ℕ)
    → 0 < bs
    → idx * bs < size
    → size ≤ idx * bs + bs
    → (if size % bs == 0 then bs else size % bs) ≡ size - idx * bs
part size bs idx some_bytes low high = elim (dec_lt (size - idx * bs) bs) [
  | yes partial ↦
      let q : size / bs ≡ idx =
        div-eq_of_lt-le bs (omega (arith, low)) (omega (arith, partial, low, suc-mul idx bs)) in
      let e : size % bs ≡ size - idx * bs =
        mod-eq-sub-div-mul size bs ∙ ap (λ k. size - k * bs) q in
      ground arith
  | no full ↦
      let q : size / bs ≡ suc idx =
        div-eq_of_lt-le bs (omega (arith, full, high, suc-mul idx bs))
          (omega (arith, high, some_bytes, suc-mul idx bs, suc-mul (suc idx) bs)) in
      let e : size % bs ≡ size - suc idx * bs =
        mod-eq-sub-div-mul size bs ∙ ap (λ k. size - k * bs) q in
      let zero_rest : size % bs ≡ 0 = omega (arith, e, full, high, suc-mul idx bs) in
      rw zero_rest (omega (arith, full, high))
]

-- A round may take the bytes of the block that lie inside the image.
pub available_lem :
    (r : Reader) (idx offset : ℕ)
    → 0 < r.block_size
    → r.num_blocks ≡ (r.uncompressed_size + (r.block_size - 1)) / r.block_size
    → idx < r.num_blocks
    → available r idx offset ≡ expected_length r idx - offset
unfolding available
available_lem r idx offset some_bytes count inside =
    let size = r.uncompressed_size in
    let bs = r.block_size in
    elim (ℕ_discrete (suc idx) r.num_blocks) [
      | yes last ↦
          let bounds = last_block size bs r.num_blocks some_bytes count idx last in
          let e = part size bs idx some_bytes bounds.0 bounds.1 in
          rw ((==_iff (suc idx) r.num_blocks).1 last) (rw e (omega (arith, bounds.0, bounds.1)))
      | no more ↦
          let room = full_block size bs r.num_blocks some_bytes count idx (omega arith) in
          ground (arith, room)
    ]
