-- ===== src/Compressed/Examples/Sectors.antt =====
-- A hunk of one frame.
use ps2_servers.Base.{ℕ, ◌≡◌, refl, true, [], ◌∷◌, Option, some}
use ps2_servers.Bytes.{Bytes}
use ps2_servers.Exec.{ok}
use ps2_servers.Compressed.Chd.{sectors, decompress_block}

-- libchdr, for an image whose hunks are short.
abbrev short_hunk : ℕ → Option Bytes
short_hunk idx = some (1 ∷ 2 ∷ 3 ∷ [])

decoded : decompress_block short_hunk true 2 0 ≡ ok (sectors 2 (1 ∷ 2 ∷ 3 ∷ []))
unfolding decompress_block
decoded = refl
