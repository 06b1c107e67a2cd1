-- ===== src/Exec/Steps.antt =====
-- `do` blocks of methods, which stay shut: what they ensure is put together step by step.
use ps2_servers.Base.{◌≡◌, refl}
use ps2_servers.Exec.{Exec, Outcome, ok, raise, proceed}
use ps2_servers.Exec.Results.{raise≢ok}
use ps2_servers.Exec.Keeps.{Ensures}

infixl 5 ◌>>=◌ ◌>>◌
unfoldable pub ◌>>=◌ : {S A B : Type 0} → Exec S A → (A → Exec S B) → Exec S B
◌>>=◌ m f s = proceed (m s) f

unfoldable pub ◌>>◌ : {S A B : Type 0} → Exec S A → Exec S B → Exec S B
◌>>◌ m k s = proceed (m s) (λ a. k)

module _ {S : Type 0} (P : S → Type 0) where
  proceed-Ensures :
      {A B : Type 0} (Q : A → Type 0) (R : B → Type 0) (r : Outcome A × S) (f : A → Exec S B)
      → P r.1 × ((a : A) → r.0 ≡ ok a → Q a)
      → ((a : A) → Q a → Ensures P (f a) R)
      → P (proceed r f).1 × ((b : B) → (proceed r f).0 ≡ ok b → R b)
  proceed-Ensures Q R (ok a, t) f (kept, holds) hf = hf a (holds a refl) t kept
  proceed-Ensures Q R (raise e, t) f (kept, holds) hf = (kept, λ b e. absurd (raise≢ok e))

  -- A step and what follows it.
  pub >>=-Ensures :
      {A B : Type 0} {m : Exec S A} {f : A → Exec S B} {Q : A → Type 0} {R : B → Type 0}
      → Ensures P m Q
      → ((a : A) → Q a → Ensures P (f a) R)
      → Ensures P (m >>= f) R
  unfolding ◌>>=◌
  >>=-Ensures {m} {f} {Q} {R} hm hf s h = proceed-Ensures Q R (m s) f (hm s h) hf

  pub >>-Ensures :
      {A B : Type 0} {m : Exec S A} {k : Exec S B} {Q : A → Type 0} {R : B → Type 0}
      → Ensures P m Q
      → ((a : A) → Q a → Ensures P k R)
      → Ensures P (m >> k) R
  unfolding ◌>>◌
  >>-Ensures {m} {k} {Q} {R} hm hk s h = proceed-Ensures Q R (m s) (λ a. k) (hm s h) hk
