-- ===== src/Smb2/Wire/Dialects.antt =====
-- The dialect that is agreed on.
use mathlib.Core.Path.{subst}
use ps2_servers.Base.{
  ℕ, ◌≤◌, ◌<◌, ◌≡◌, ◌≢◌, refl, sym, ap, ◌∙◌, max, Bool, true, false, true≢false, ◌&&◌, both, List,
  [], ◌∷◌, Option, none, some, leb, leb→le, le→leb, if-cases, arith, ◌⊎◌, inl, inr,
}
use ps2_servers.Smb2.Wire.{is_spoken, usable, greatest, pick_dialect, dialect_311}

-- A number occurs in a list.
abbrev pub IsAmong : ℕ → List ℕ → Type 0
IsAmong d [] = ⊥
IsAmong d (e ∷ rest) = (d ≡ e) ⊎ IsAmong d rest

-- What both sides can speak.
abbrev pub IsUsable : List ℕ → ℕ → ℕ → Type 0
IsUsable offered ceiling d = IsAmong d offered × (d ≤ ceiling) × (is_spoken d ≡ true)

usable-IsUsable :
    (offered : List ℕ) (ceiling d : ℕ)
    → IsAmong d (usable offered ceiling)
    → IsUsable offered ceiling d
usable-IsUsable [] ceiling d h = absurd h
usable-IsUsable (e ∷ offered) ceiling d among =
    if-cases (λ (k : List ℕ). IsAmong d k → IsUsable (e ∷ offered) ceiling d)
      (leb e ceiling && is_spoken e)
      (λ counts h. elim h [
        | inl same ↦
            let (low, spoken) = both (leb e ceiling) (is_spoken e) counts in
            (
              inl same,
              subst (λ k. k ≤ ceiling) (sym same) (leb→le e ceiling low),
              ap is_spoken same ∙ spoken,
            )
        | inr later ↦
            let (there, low, spoken) = usable-IsUsable offered ceiling d later in
            (inr there, low, spoken)
      ])
      (λ skipped h.
        let (there, low, spoken) = usable-IsUsable offered ceiling d h in (inr there, low, spoken))
      among

usable_all :
    (offered : List ℕ) (ceiling d : ℕ)
    → IsUsable offered ceiling d
    → IsAmong d (usable offered ceiling)
usable_all [] ceiling d (h, low, spoken) = absurd h
usable_all (e ∷ offered) ceiling d (among, low, spoken) =
    if-cases (λ (k : List ℕ). IsAmong d k) (leb e ceiling && is_spoken e)
      (λ counts. elim among [
        | inl same ↦ inl same
        | inr later ↦ inr (usable_all offered ceiling d (later, low, spoken))
      ])
      (λ skipped. elim among [
        | inl same ↦ absurd (true≢false (sym (both_hold same) ∙ skipped))
        | inr later ↦ usable_all offered ceiling d (later, low, spoken)
      ])
  where
    both_hold : d ≡ e → (leb e ceiling && is_spoken e) ≡ true
    both_hold same =
        rw (le→leb e ceiling (subst (λ k. k ≤ ceiling) same low), sym (ap is_spoken same) ∙ spoken)
          refl

greatest-IsAmong : (d : ℕ) (rest : List ℕ) → IsAmong (greatest d rest) (d ∷ rest)
greatest-IsAmong d [] = inl refl
greatest-IsAmong d (e ∷ rest) = elim (greatest-IsAmong (max d e) rest) [
  | inl is_max ↦ of_two is_max
  | inr later ↦ inr (inr later)
]
  where
    of_two : greatest (max d e) rest ≡ max d e → IsAmong (greatest (max d e) rest) (d ∷ e ∷ rest)
    of_two is_max =
        if-cases (λ (b : Bool). IsAmong (greatest (max d e) rest) (d ∷ e ∷ rest)) (leb d e)
          {x = true} {y = false} (λ less. inr (inl (omega (arith, is_max, leb→le d e less))))
          (λ more. inl (omega (arith, is_max, more_than more)))
      where
        more_than : leb d e ≡ false → e < d
        more_than h = ground arith

greatest-le : (d : ℕ) (rest : List ℕ) (e : ℕ) → IsAmong e (d ∷ rest) → e ≤ greatest d rest
greatest-le d [] e (inl same) = omega arith
greatest-le d [] e (inr h) = absurd h
greatest-le d (f ∷ rest) e (inl same) =
    omega (arith, greatest-le (max d f) rest (max d f) (inl refl))
greatest-le d (f ∷ rest) e (inr (inl same)) =
    omega (arith, greatest-le (max d f) rest (max d f) (inl refl))
greatest-le d (f ∷ rest) e (inr (inr later)) = greatest-le (max d f) rest e (inr later)

-- The answer to an offer: none when there is no dialect that both sides can speak, else one that
-- is, and no such one is higher.
abbrev pub IsBest : List ℕ → ℕ → Option ℕ → Type 0
IsBest offered ceiling none = (d : ℕ) → IsUsable offered ceiling d → ⊥
IsBest offered ceiling (some best) =
    IsUsable offered ceiling best × ((d : ℕ) → IsUsable offered ceiling d → d ≤ best)

-- The dialect picked is the highest of those offered that are not above the ceiling and are 2.0.2,
-- 2.1, 3.0 or 3.0.2; none is picked only when there is none. So 3.1.1 never is.
pub pick_dialect-IsBest :
    (offered : List ℕ) (ceiling : ℕ)
    → IsBest offered ceiling (pick_dialect offered ceiling)
      × (pick_dialect offered ceiling ≢ some dialect_311)
unfolding pick_dialect
pick_dialect-IsBest offered ceiling = (best, λ e. never e)
  where
    chosen :
        (list : List ℕ)
        → ((d : ℕ) → IsAmong d list → IsUsable offered ceiling d)
        → ((d : ℕ) → IsUsable offered ceiling d → IsAmong d list)
        → IsBest offered ceiling (elim list [ [] ↦ none | d ∷ rest ↦ some (greatest d rest) ])
    chosen [] sound complete = complete
    chosen (d ∷ rest) sound complete = (
      sound (greatest d rest) (greatest-IsAmong d rest),
      λ e h. greatest-le d rest e (complete e h),
    )

    best : IsBest offered ceiling (pick_dialect offered ceiling)
    best =
        chosen (usable offered ceiling) (usable-IsUsable offered ceiling)
          (usable_all offered ceiling)

    never : pick_dialect offered ceiling ≢ some dialect_311
    never e =
        let (there, low, spoken) = (subst (IsBest offered ceiling) e best).0 in
        true≢false (sym spoken)
