-- ===== src/Exec/Keeps.antt =====
-- Invariants of the methods in `Exec`: what holds before a call holds after it, raised or not.
use mathlib.Core.Path.{subst}
use ps2_servers.Base.{Bool, true, false, Option, none, some, ◌≡◌, refl, ap}
use ps2_servers.Exec.{
  Exec, Outcome, ok, raise, Fault, pure, throw, lift, guard, modify, gets, demand, proceed, ◌>>=◌,
}
use ps2_servers.Exec.Results.{raise≢ok, ok-injective}

abbrev pub Keeps : {S A : Type 0} → (S → Type 0) → Exec S A → Type 0
Keeps {S} P m = (s : S) → P s → P (m s).1

module _ {S : Type 0} (P : S → Type 0) where
  pub proceed-Keeps :
      {A B : Type 0} (r : Outcome A × S) (f : A → Exec S B)
      → P r.1
      → ((a : A) → Keeps P (f a))
      → P (proceed r f).1
  proceed-Keeps (ok a, s) f h k = k a s h
  proceed-Keeps (raise e, s) f h k = h

  pub demand-Keeps : {A : Type 0} (e : Fault) (o : Option A) → Keeps P (demand e o)
  demand-Keeps e none s h = h
  demand-Keeps e (some a) s h = h

  pub >>=-Keeps :
      {A B : Type 0} (m : Exec S A) (f : A → Exec S B)
      → Keeps P m
      → ((a : A) → Keeps P (f a))
      → Keeps P (m >>= f)
  >>=-Keeps m f km kf s h = proceed-Keeps (m s) f (km s h) kf

  -- The value that a `demand` hands on is the option's.
  pub demand->>=-Keeps :
      {A B : Type 0} (e : Fault) (o : Option A) (f : A → Exec S B)
      → ((a : A) → o ≡ some a → Keeps P (f a))
      → Keeps P (demand e o >>= f)
  demand->>=-Keeps e none f k s h = h
  demand->>=-Keeps e (some a) f k s h = k a refl s h

-- A method that keeps an invariant, and of whose values a predicate holds when it does not raise.
abbrev pub Ensures : {S A : Type 0} → (S → Type 0) → Exec S A → (A → Type 0) → Type 0
Ensures {S} {A} P m Q = (s : S) → P s → P (m s).1 × ((a : A) → (m s).0 ≡ ok a → Q a)

module _ {S : Type 0} (P : S → Type 0) where
  pub lift-Ensures : {A : Type 0} (o : Outcome A) → Ensures P (lift o) (λ a. o ≡ ok a)
  lift-Ensures o s h = (h, λ a e. e)

  pub demand-Ensures :
      {A : Type 0} (e : Fault) (o : Option A) → Ensures P (demand e o) (λ a. o ≡ some a)
  demand-Ensures e none s h = (h, λ a e. absurd (raise≢ok e))
  demand-Ensures e (some a) s h = (h, λ b e. ap some (ok-injective e))

  pub guard-Ensures : (b : Bool) (e : Fault) → Ensures P (guard b e) (λ u. b ≡ false)
  guard-Ensures true e s h = (h, λ a e. absurd (raise≢ok e))
  guard-Ensures false e s h = (h, λ a e. refl)

  pub pure-Ensures : {A : Type 0} (a : A) (Q : A → Type 0) → Q a → Ensures P (pure a) Q
  pure-Ensures a Q holds s h = (h, λ b e. subst Q (ok-injective e) holds)

  pub throw-Ensures : {A : Type 0} (e : Fault) (Q : A → Type 0) → Ensures P (throw {A = A} e) Q
  throw-Ensures e Q s h = (h, λ b e. absurd (raise≢ok e))

  pub modify-Ensures :
      (f : S → S) → ((s : S) → P s → P (f s)) → Ensures P (modify f) (λ u. Unit {0})
  modify-Ensures f kept s h = (kept s h, λ a e. tt)

  pub gets-Ensures :
      {A : Type 0} (f : S → A) (Q : A → Type 0) → ((s : S) → P s → Q (f s)) → Ensures P (gets f) Q
  gets-Ensures f Q holds s h = (h, λ a e. subst Q (ok-injective e) (holds s h))
