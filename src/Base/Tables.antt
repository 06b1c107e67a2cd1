-- ===== src/Base/Tables.antt =====
-- Python dicts with integer keys, as lists of pairs in the order of insertion.
use Prim.Native.Nat.{ℕ}
use mathlib.Core.Path.{◌≡◌, ap, subst}
use mathlib.Core.Bool.{true, false, true≢false}
use mathlib.Core.List.{List, [], ◌∷◌}
use mathlib.Core.Option.{Option, none, some}
use ps2_servers.Base.{◌==◌, if◌then◌else◌, if-cases, All}

module _ {A : Type 0} where
  -- `table.get(key)`
  abbrev pub lookup : ℕ → List (ℕ × A) → Option A
  lookup key [] = none
  lookup key ((k, a) ∷ table) = if k == key then some a else lookup key table

  -- `table[key] = a`
  abbrev pub put : ℕ → A → List (ℕ × A) → List (ℕ × A)
  put key a [] = (key, a) ∷ []
  put key a ((k, b) ∷ table) =
      let rest = put key a table in if k == key then (k, a) ∷ table else (k, b) ∷ rest

  -- `table.pop(key, None)`
  abbrev pub remove : ℕ → List (ℕ × A) → List (ℕ × A)
  remove key [] = []
  remove key ((k, b) ∷ table) =
      let rest = remove key table in if k == key then table else (k, b) ∷ rest

  -- What holds of every value.
  abbrev pub Values : (A → Type 0) → List (ℕ × A) → Type 0
  Values P table = All (λ (entry : ℕ × A). P entry.1) table

  pub lookup-Values :
      (P : A → Type 0) (key : ℕ) (table : List (ℕ × A)) (a : A)
      → Values P table
      → lookup key table ≡ some a
      → P a
  lookup-Values P key [] a h e = absurd (none_some e)
    where
      none_some : {B : Type 0} → none ≡ some a → B
      none_some e = absurd (true≢false (ap (λ o. elim o [ none ↦ true | some x ↦ false ]) e))
  lookup-Values P key ((k, b) ∷ table) a (first, others) e =
      if-cases (λ (o : Option A). (o ≡ some a) → P a) (k == key)
        (λ same found. subst P (ap (λ o. elim o [ none ↦ b | some x ↦ x ]) found) first)
        (λ other found. lookup-Values P key table a others found) e

  pub put-Values :
      (P : A → Type 0) (key : ℕ) (a : A) (table : List (ℕ × A))
      → P a
      → Values P table
      → Values P (put key a table)
  put-Values P key a [] ha h = (ha, tt)
  put-Values P key a ((k, b) ∷ table) ha (first, others) =
      if-cases (Values P) (k == key) (λ same. (ha, others))
        (λ other. (first, put-Values P key a table ha others))

  pub remove-Values :
      (P : A → Type 0) (key : ℕ) (table : List (ℕ × A))
      → Values P table
      → Values P (remove key table)
  remove-Values P key [] h = tt
  remove-Values P key ((k, b) ∷ table) (first, others) =
      if-cases (Values P) (k == key) (λ same. others)
        (λ other. (first, remove-Values P key table others))
