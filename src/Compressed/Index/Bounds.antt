-- ===== src/Compressed/Index/Bounds.antt =====
-- An index that `indexed_header` accepts is within the limits, and fits the file.
use mathlib.Core.Path.{subst}
use ps2_servers.Base.{
  ℕ, zero, suc, ◌+◌, ◌-◌, ◌*◌, ◌/◌, ◌%◌, ◌≤◌, ◌≡◌, refl, sym, ap, arith, Bool, true, false, not,
  ◌||◌, ◌==◌, length, drop, true≢false, ltb→le, if-cases, ==_iff, if◌then◌else◌,
}
use ps2_servers.Bytes.{Bytes}
use ps2_servers.Exec.{ok}
use ps2_servers.Exec.Results.{refuse-ok, >>=-ok, ok-injective}
use ps2_servers.Compressed.Files.{number, numbers}
use ps2_servers.Compressed.Index.{
  Index, indexed_header, max_disc, max_block, max_table, outside, zso_magic,
}

pub record IsIndexed (file : Bytes) (x : Index) : Type 0 where
  pub size_low : 17 * 2048 ≤ x.uncompressed_size
  pub size_high : x.uncompressed_size ≤ max_disc
  pub block_low : 2048 ≤ x.block_size
  pub block_high : x.block_size ≤ max_block
  pub sectors : x.block_size % 2048 ≡ 0
  pub small_align : x.align ≤ 6
  pub count : x.num_blocks ≡ (x.uncompressed_size + x.block_size - 1) / x.block_size
  pub table : length x.block_offsets * 4 ≤ max_table
  pub entries : x.num_blocks ≤ length x.block_offsets
  pub table_end : length x.block_offsets * 4 ≤ x.table_end
  pub physical : x.table_end ≤ length file

pub inside : (low high n : ℕ) → outside low high n ≡ false → (low ≤ n) × (n ≤ high)
inside low high n h = ground arith

pub neither : (a b : Bool) → (a || b) ≡ false → (a ≡ false) × (b ≡ false)
neither true b h = absurd (true≢false h)
neither false b h = (refl, h)

pub not-false : (a : Bool) → not a ≡ false → a ≡ true
not-false true h = refl
not-false false h = sym h

length-numbers : (n : ℕ) (bytes : Bytes) → length (numbers n bytes) ≡ n
length-numbers zero bytes = refl
length-numbers (suc n) bytes = ap suc (length-numbers n (drop 4 bytes))

-- An index that `indexed_header` accepts is within the limits of limits.py: the disc, the block, the
-- alignment and the table; the block count is that of the sizes, and the table lies in the file.
pub indexed_header-IsIndexed :
    (zso : Bool) (header file : Bytes) (x : Index)
    → indexed_header zso header file ≡ ok x
    → IsIndexed file x
unfolding indexed_header
indexed_header-IsIndexed zso header file x h =
    let (sizes, h1) = refuse-ok _ _ _ x h in
    let (shape, h2) = refuse-ok _ _ _ x h1 in
    let (align, h3) = refuse-ok _ _ _ x h2 in
    let (cso, h4) = refuse-ok _ _ _ x h3 in
    let (location, h5) = refuse-ok _ _ _ x h4 in
    let (table, h6) = refuse-ok _ _ _ x h5 in
    let (within, h7) = refuse-ok _ _ _ x h6 in
    let (bytes, e, h8) = >>=-ok _ _ x h7 in
    let (whole, h9) = refuse-ok _ _ _ x h8 in
    let (size_ok, block_ok) = neither _ _ sizes in
    let (sectors, _) = neither _ _ shape in
    let (size_low, size_high) = inside _ _ _ size_ok in
    let (block_low, block_high) = inside _ _ _ block_ok in
    let original = number 4 0 header == zso_magic in
    let size = number 8 8 header in
    let block = number 4 16 header in
    let num_blocks = (size + block - 1) / block in
    let count = num_blocks + (if original then 0 else 1) in
    let same = length-numbers count bytes in
    subst (IsIndexed file) (ok-injective h9) (record {
      size_low = size_low;
      size_high = size_high;
      block_low = block_low;
      block_high = block_high;
      sectors = (==_iff (block % 2048) 0).0 (not-false _ sectors);
      small_align = if-cases (λ n. n ≤ 6) original (λ _. omega arith) (λ _. ltb→le _ _ align);
      count = refl;
      table = omega (arith, same, ltb→le _ _ table);
      entries = omega (arith, same);
      table_end = omega (arith, same);
      physical = ltb→le _ _ within;
    })
