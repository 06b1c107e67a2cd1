-- ===== src/Exec/Results.antt =====
-- `do` blocks of code that changes no state: a value or an exception.
use ps2_servers.Base.{Bool, true, false, true≢false, ◌≡◌, refl, sym, ap}
use ps2_servers.Exec.{Fault, Outcome, ok, raise}

infixl 5 ◌>>=◌ ◌>>◌
unfoldable pub ◌>>=◌ : {A B : Type 0} → Outcome A → (A → Outcome B) → Outcome B
ok a >>= f = f a
raise e >>= f = raise e

unfoldable pub ◌>>◌ : {A B : Type 0} → Outcome A → Outcome B → Outcome B
ok a >> m = m
raise e >> m = raise e

-- `if …: raise`
unfoldable pub refuse : Bool → Fault → Outcome (Unit {0})
refuse true e = raise e
refuse false e = ok tt

abbrev returned : {A : Type 0} → Outcome A → Bool
returned (ok a) = true
returned (raise e) = false

pub raise≢ok : {A : Type 0} {e : Fault} {a : A} → raise e ≡ ok a → ⊥
raise≢ok h = true≢false (sym (ap returned h))

pub ok-injective : {A : Type 0} {a b : A} → ok a ≡ ok b → a ≡ b
ok-injective {a} h = ap (λ o. elim o [ ok c ↦ c | raise e ↦ a ]) h

-- A block that returned passed each of its steps.
pub refuse-ok :
    {B : Type 0} (c : Bool) (e : Fault) (m : Outcome B) (b : B)
    → (refuse c e >> m) ≡ ok b
    → (c ≡ false) × (m ≡ ok b)
unfolding refuse ◌>>◌
refuse-ok true e m b h = absurd (raise≢ok h)
refuse-ok false e m b h = (refl, h)

pub >>=-ok :
    {A B : Type 0} (m : Outcome A) (f : A → Outcome B) (b : B)
    → (m >>= f) ≡ ok b
    → (a : A) × (m ≡ ok a) × (f a ≡ ok b)
unfolding ◌>>=◌
>>=-ok (ok a) f b h = (a, refl, h)
>>=-ok (raise e) f b h = absurd (raise≢ok h)

pub ok->>= : {A B : Type 0} (a : A) (f : A → Outcome B) → (ok a >>= f) ≡ f a
unfolding ◌>>=◌
ok->>= a f = refl
