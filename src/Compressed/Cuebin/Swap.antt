-- ===== src/Compressed/Cuebin/Swap.antt =====
-- Swapping the bytes of an audio sector twice gives the sector again.
use ps2_servers.Base.{suc, ◌≡◌, refl, ap, ◌∙◌, [], ◌∷◌, length}
use mathlib.Core.Path.{subst}
use ps2_servers.Bytes.{Bytes}
use ps2_servers.Exec.{ok}
use ps2_servers.Exec.Results.{◌>>=◌, >>=-ok, ok->>=, ok-injective, raise≢ok}
use ps2_servers.Compressed.Cuebin.{swap_audio_bytes}

-- An audio sector that is swapped keeps its length, and swapped once more it is what it was.
pub swap-swap :
    (sector swapped : Bytes)
    → swap_audio_bytes sector ≡ ok swapped
    → (length swapped ≡ length sector) × (swap_audio_bytes swapped ≡ ok sector)
unfolding swap_audio_bytes
swap-swap [] swapped e =
    let h = ok-injective e in
    subst (λ bytes. (length bytes ≡ 0) × (swap_audio_bytes bytes ≡ ok [])) h (refl, refl)
swap-swap (a ∷ []) swapped e = absurd (raise≢ok e)
swap-swap (a ∷ b ∷ sector) swapped e =
    let (rest, swapped_rest, h) = >>=-ok _ _ swapped e in
    let (same, again) = swap-swap sector rest swapped_rest in
    subst
      (λ bytes.
        (length bytes ≡ suc (suc (length sector))) × (swap_audio_bytes bytes ≡ ok (a ∷ b ∷ sector)))
      (ok-injective h)
      (
        ap (λ n. suc (suc n)) same,
        ap (λ m. m >>= (λ bytes. ok (a ∷ b ∷ bytes))) again
            ∙ ok->>= sector (λ bytes. ok (a ∷ b ∷ bytes)),
      )
