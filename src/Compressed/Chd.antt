-- ===== src/Compressed/Chd.antt =====
-- chd.py: the sectors of a CD image in a CHD, as the 2048 bytes of user data of each. `chd_read` of
-- libchdr is a parameter: the bytes of a hunk, or none for an error.
pub mod Sectors
use ps2_servers.Base.{
  ℕ, zero, suc, ◌+◌, ◌-◌, ◌*◌, ◌≤◌, ◌≡◌, Bool, true, false, ◌&&◌, List, [], ◌∷◌, ◌++◌, Option, none,
  some, length, take, drop, get_or, ltb, leb, ◌==◌, if◌then◌else◌,
}
use ps2_servers.Bytes.{Bytes, ljust}
use ps2_servers.Exec.{Outcome, ok, raise, io_error}

abbrev pub user_data : ℕ
user_data = 2048

abbrev pub cd_frame_size : ℕ
cd_frame_size = 2448

abbrev pub cd_sync : Bytes
cd_sync = 0 ∷ 255 ∷ 255 ∷ 255 ∷ 255 ∷ 255 ∷ 255 ∷ 255 ∷ 255 ∷ 255 ∷ 255 ∷ 0 ∷ []

abbrev pub same_bytes : Bytes → Bytes → Bool
same_bytes [] [] = true
same_bytes [] (b ∷ ys) = false
same_bytes (a ∷ xs) [] = false
same_bytes (a ∷ xs) (b ∷ ys) = a == b && same_bytes xs ys

-- Where the user data starts: behind the header of its mode, or at once without a sync pattern.
unfoldable pub user_offset : Bytes → ℕ
user_offset sector =
    if leb 16 (length sector) && same_bytes (take 12 sector) cd_sync
    then (if get_or sector 15 0 == 2 then 24 else 16)
    else 0

unfoldable pub extract_user_data : Bytes → Bytes
extract_user_data sector =
    let offset = user_offset sector in
    if ltb (length sector) user_data
    then ljust user_data sector
    else if ltb (length sector) (offset + user_data)
    then ljust user_data (drop offset sector)
    else take user_data (drop offset sector)

-- The user data of so many frames.
unfoldable pub sectors : ℕ → Bytes → Bytes
sectors zero raw = []
sectors (suc n) raw = extract_user_data (take 2352 raw) ++ sectors n (drop cd_frame_size raw)

-- `_decompress_block`; `cd` is `_is_cd_format`.
unfoldable pub decompress_block : (ℕ → Option Bytes) → Bool → ℕ → ℕ → Outcome Bytes
decompress_block chd_read cd frames_per_hunk idx = elim (chd_read idx) [
  | none ↦ raise io_error
  | some raw ↦ ok (if cd then sectors frames_per_hunk raw else raw)
]
