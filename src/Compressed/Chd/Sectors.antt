-- ===== src/Compressed/Chd/Sectors.antt =====
-- Every sector gives its 2048 bytes, so every hunk of a CD image gives a whole block.
use mathlib.Core.Path.{subst}
use ps2_servers.Base.{
  ℕ, zero, suc, ◌+◌, ◌-◌, ◌*◌, ◌≡◌, ◌≤◌, arith, true, Option, some, none, length, length-append,
  length-take, length-drop, length-replicate, replicate, take, drop, ltb, if-cases, ltb→le, ltb→lt,
  if◌then◌else◌,
}
use ps2_servers.Bytes.{Bytes, ljust}
use ps2_servers.Exec.{Outcome, ok, raise, io_error}
use ps2_servers.Exec.Results.{ok-injective, raise≢ok}
use ps2_servers.Compressed.Chd.{
  user_data, user_offset, extract_user_data, cd_frame_size, sectors, decompress_block,
}

length-ljust_short : (n : ℕ) (bytes : Bytes) → length bytes ≤ n → length (ljust n bytes) ≡ n
length-ljust_short n bytes h = omega (
  arith,
  h,
  length-append bytes (replicate (n - length bytes) 0),
  length-replicate {A = ℕ} (n - length bytes) 0,
)

length-extract_user_data : (sector : Bytes) → length (extract_user_data sector) ≡ user_data
unfolding extract_user_data
length-extract_user_data sector =
    let offset = user_offset sector in
    if-cases (λ (bytes : Bytes). length bytes ≡ user_data) (ltb (length sector) user_data)
      (λ short. length-ljust_short user_data sector (omega (arith, ltb→lt _ _ short)))
      (λ _.
        if-cases (λ (bytes : Bytes). length bytes ≡ user_data)
          (ltb (length sector) (offset + user_data))
          (λ short.
            length-ljust_short user_data (drop offset sector)
              (omega (arith, ltb→lt _ _ short, length-drop offset sector)))
          (λ long. omega (
            arith,
            ltb→le _ _ long,
            length-take user_data (drop offset sector),
            length-drop offset sector,
          )))

length-sectors : (n : ℕ) (raw : Bytes) → length (sectors n raw) ≡ n * user_data
unfolding sectors
length-sectors zero raw = omega arith
length-sectors (suc n) raw = omega (
  arith,
  length-append (extract_user_data (take 2352 raw)) (sectors n (drop cd_frame_size raw)),
  length-extract_user_data (take 2352 raw),
  length-sectors n (drop cd_frame_size raw),
)

-- A hunk of a CD image that libchdr reads, whatever it is, gives 2048 bytes for each of its frames:
-- the block is whole, as the reader needs it to be.
pub decompress_block-whole :
    (chd_read : ℕ → Option Bytes) (frames_per_hunk idx : ℕ) (block : Bytes)
    → decompress_block chd_read true frames_per_hunk idx ≡ ok block
    → length block ≡ frames_per_hunk * user_data
unfolding decompress_block
decompress_block-whole chd_read frames_per_hunk idx block h = go (chd_read idx) h
  where
    decoded : Option Bytes → Outcome Bytes
    decoded o = elim o [
      | none ↦ raise io_error
      | some raw ↦ ok (if true then sectors frames_per_hunk raw else raw)
    ]

    go : (o : Option Bytes) → decoded o ≡ ok block → length block ≡ frames_per_hunk * user_data
    go none e = absurd (raise≢ok e)
    go (some raw) e =
        subst (λ (b : Bytes). length b ≡ frames_per_hunk * user_data) (ok-injective e)
          (length-sectors frames_per_hunk raw)
