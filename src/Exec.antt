-- ===== src/Exec.antt =====
-- Python methods that mutate an object and may raise. What a method wrote before it raised stays
-- written, so the state comes back beside the exception too.
pub mod Keeps
pub mod Results
pub mod Steps
use ps2_servers.Base.{ℕ, Bool, true, false, Option, none, some}

-- The exceptions that the modelled code raises or catches. `os_error` carries its errno; an
-- InspectionLimit is a ValueError, an InterruptedError and an `io_error` are OSErrors without errno. A PathError and an
-- Smb2Error carry their NT status.
pub data Fault : Type 0 where
  struct_error : Fault
  index_error : Fault
  value_error : Fault
  os_error : ℕ → Fault
  inspection_limit : Fault
  interrupted_error : Fault
  io_error : Fault
  overflow_error : Fault
  type_error : Fault
  path_error : ℕ → Fault
  smb2_error : ℕ → Fault

pub data Outcome {ℓ} (A : Type ℓ) : Type ℓ where
  ok : A → Outcome A
  raise : Fault → Outcome A

abbrev pub Exec : Type 0 → Type 0 → Type 0
Exec S A = S → Outcome A × S

module _ {S A : Type 0} where
  abbrev pub pure : A → Exec S A
  pure a s = (ok a, s)

  abbrev pub throw : Fault → Exec S A
  throw e s = (raise e, s)

  -- A value or an exception that no state has a part in.
  abbrev pub lift : Outcome A → Exec S A
  lift o s = (o, s)

  -- The value of an option, or the exception of the operation that had none.
  abbrev pub demand : Fault → Option A → Exec S A
  demand e none s = (raise e, s)
  demand e (some a) s = (ok a, s)

abbrev pub modify : {S : Type 0} → (S → S) → Exec S (Unit {0})
modify f s = (ok tt, f s)

module _ {S A B : Type 0} where
  abbrev pub proceed : Outcome A × S → (A → Exec S B) → Outcome B × S
  proceed (ok a, s) f = f a s
  proceed (raise e, s) f = (raise e, s)

  infixl 5 ◌>>=◌ ◌>>◌
  abbrev pub ◌>>=◌ : Exec S A → (A → Exec S B) → Exec S B
  ◌>>=◌ m f s = proceed (m s) f

  abbrev pub ◌>>◌ : Exec S A → Exec S B → Exec S B
  ◌>>◌ m k s = proceed (m s) (λ _. k)

-- `if …: raise`
abbrev pub guard : {S : Type 0} → Bool → Fault → Exec S (Unit {0})
guard true e s = (raise e, s)
guard false e s = (ok tt, s)

-- A field of the state, or something computed from it.
abbrev pub gets : {S A : Type 0} → (S → A) → Exec S A
gets f s = (ok (f s), s)
