-- ===== src/Smb2/Listing/Chain.antt =====
-- What a client reads of a listing: the entries that fit, each of them once and in order.
use mathlib.Core.Path.{subst, ap₂}
use ps2_servers.Base.{
  ℕ, zero, suc, ◌+◌, ◌^◌, ◌≤◌, ◌<◌, ◌≡◌, refl, sym, ap, ◌∙◌, Bool, false, ◌&&◌, ◌⊎◌, inl, inr, List,
  [], ◌∷◌, ◌++◌, append_assoc, append-nil, Option, none, some, map, length, length-append,
  length-drop, take, drop, take_left, drop_left, All, ltb, ◌==◌, if◌then◌else◌, if-cases, arith,
}
use ps2_servers.Bytes.{Bytes, le}
use ps2_servers.Bytes.Fields.{length-le}
use ps2_servers.Bytes.Struct.{read_le, read_le-head}
use ps2_servers.Exec.{Outcome, ok, raise}
use ps2_servers.Exec.Results.{ok-injective, raise≢ok}
use ps2_servers.Smb2.Listing.{chained, fill}
use ps2_servers.Base.Texts.{Text}

-- A client's walk along a chain: each record but its first four bytes, which are the distance to
-- the next one, or 0 in the last.
abbrev pub walk : ℕ → Bytes → List Bytes
walk zero bytes = []
walk (suc n) bytes =
    let next = read_le 0 4 bytes in
    if next == 0 then drop 4 bytes ∷ [] else drop 4 (take next bytes) ∷ walk n (drop next bytes)

abbrev pub IsEntry : Bytes → Type 0
IsEntry entry = (4 ≤ length entry) × (length entry < 256 ^ 4)

headed : Bytes → Bytes
headed entry = le 4 (length entry) ++ drop 4 entry

length-headed : (entry : Bytes) → 4 ≤ length entry → length (headed entry) ≡ length entry
unfolding headed
length-headed entry h =
    length-append (le 4 (length entry)) (drop 4 entry)
    ∙ omega (arith, length-le 4 (length entry), length-drop 4 entry)

-- A client that walks along the chain of records, for as long as a distance to a next one is given,
-- finds every record that was put into it, in order, and stops there, however many more steps it is
-- ready to take; each record has its four bytes in front and fits into 32 bits.
pub walk-chained :
    (entry : Bytes) (entries : List Bytes) (steps : ℕ)
    → All IsEntry (entry ∷ entries)
    → length (entry ∷ entries) ≤ steps
    → walk steps (chained (entry ∷ entries)) ≡ map (λ (e : Bytes). drop 4 e) (entry ∷ entries)
unfolding headed
walk-chained entry [] zero h many = absurd (omega arith)
walk-chained entry [] (suc steps) h many = refl
walk-chained entry (next ∷ entries) zero h many = absurd (omega arith)
walk-chained entry (next ∷ entries) (suc steps) ((long, small), others) many =
    ap
      (λ (n : ℕ).
        if n == 0
        then drop 4 (headed entry ++ tail) ∷ []
        else drop 4 (take n (headed entry ++ tail)) ∷ walk steps (drop n (headed entry ++ tail)))
      first
    ∙ ap
        (λ (b : Bool).
          if b
          then drop 4 (headed entry ++ tail) ∷ []
          else drop 4 (take (length entry) (headed entry ++ tail))
            ∷ walk steps (drop (length entry) (headed entry ++ tail)))
        positive
    ∙ ap₂ ◌∷◌
        (ap (drop 4) (take_left (length entry) (headed entry) tail (length-headed entry long)))
        (ap (walk steps) (drop_left (length entry) (headed entry) tail (length-headed entry long))
          ∙ walk-chained next entries steps others (omega arith))
  where
    tail : Bytes
    tail = chained (next ∷ entries)

    first : read_le 0 4 (headed entry ++ tail) ≡ length entry
    first =
        ap (read_le 0 4) (append_assoc (le 4 (length entry)) (drop 4 entry) tail)
        ∙ read_le-head 4 (length entry) (drop 4 entry ++ tail) small

    positive : (length entry == 0) ≡ false
    positive = ground arith

-- The records of names, without those that are passed over.
abbrev pub Records : (Text → Outcome (Option Bytes)) → List Text → List Bytes → Type 0
Records one [] entries = entries ≡ []
Records one (n ∷ names) entries =
    ((one n ≡ ok none) × Records one names entries)
    ⊎ ((entry : Bytes) × (rest : List Bytes) × (one n ≡ ok (some entry))
        × (entries ≡ entry ∷ rest)
        × Records one names rest)

abbrev pub total_length : List Bytes → ℕ
total_length [] = 0
total_length (e ∷ entries) = length e + total_length entries

-- What the loop leaves, from a cursor on and with records already taken.
abbrev pub IsFilled :
    (Text → Outcome (Option Bytes)) → ℕ → List Text → ℕ → List Bytes → List Bytes → ℕ → Type 0
IsFilled one out_len names cursor before entries end =
    (passed : ℕ) × (new : List Bytes) × (end ≡ cursor + passed)
    × (passed ≤ length names)
    × (entries ≡ before ++ new)
    × Records one (take passed names) new
    × ((length entries ≡ 0) → (passed ≡ length names))
    × ((total_length entries ≤ out_len) ⊎ (length entries ≤ 1))

total_length-append :
    (xs : List Bytes) (x : Bytes) → total_length (xs ++ (x ∷ [])) ≡ total_length xs + length x
total_length-append [] x = omega arith
total_length-append (y ∷ xs) x = omega (arith, total_length-append xs x)

module _ (one : Text → Outcome (Option Bytes)) (out_len : ℕ) (single : Bool) where
  abbrev Bounded : List Bytes → Type 0
  Bounded entries = (total_length entries ≤ out_len) ⊎ (length entries ≤ 1)

  abbrev Rest : List Text → Type 0
  Rest names =
      (cursor total : ℕ) (before entries : List Bytes) (end : ℕ)
      → total ≡ total_length before
      → Bounded before
      → fill one out_len single names cursor total before ≡ (ok entries, end)
      → IsFilled one out_len names cursor before entries end

  still-Bounded :
      (before : List Bytes) (padded : Bytes)
      → (ltb out_len (total_length before + length padded) && ltb 0 (length before)) ≡ false
      → Bounded (before ++ (padded ∷ []))
  still-Bounded [] padded h = inr (omega arith)
  still-Bounded (b ∷ before) padded h =
      inl (omega (arith, total_length-append (b ∷ before) padded, fits))
    where
      fits : total_length (b ∷ before) + length padded ≤ out_len
      fits = ground arith

  take_entry :
      (n : Text) (names : List Text) (padded : Bytes)
      → Rest names
      → one n ≡ ok (some padded)
      → (cursor total : ℕ) (before entries : List Bytes) (end : ℕ) → total ≡ total_length before
      → Bounded before
      → (if ltb out_len (total + length padded) && ltb 0 (length before)
          then (ok before, cursor)
          else if single
          then (ok (before ++ (padded ∷ [])), suc cursor)
          else fill one out_len single names
              (suc cursor)
              (total + length padded)
              (before ++ (padded ∷ [])))
        ≡ (ok entries, end)
      → IsFilled one out_len (n ∷ names) cursor before entries end
  take_entry n names padded rest found cursor total before entries end sum bounded =
      if-cases
        (λ (r : Outcome (List Bytes) × ℕ).
          (r ≡ (ok entries, end)) → IsFilled one out_len (n ∷ names) cursor before entries end)
        (ltb out_len (total + length padded) && ltb 0 (length before))
        (λ full e.
          let same : before ≡ entries = ok-injective (ap (λ r. r.0) e) in
          let at : cursor ≡ end = ap (λ r. r.1) e in
          (
            0,
            [],
            omega arith,
            omega arith,
            sym same ∙ sym (append-nil before),
            refl,
            (λ nothing. absurd (ground (arith, full, nothing, ap length same))),
            subst Bounded same bounded,
          ))
        (λ room.
          if-cases
            (λ (r : Outcome (List Bytes) × ℕ).
              (r ≡ (ok entries, end)) → IsFilled one out_len (n ∷ names) cursor before entries end)
            single
            (λ alone e.
              let same : before ++ (padded ∷ []) ≡ entries = ok-injective (ap (λ r. r.0) e) in
              let at : suc cursor ≡ end = ap (λ r. r.1) e in
              (
                1,
                padded ∷ [],
                omega arith,
                omega arith,
                sym same,
                inr (padded, [], found, refl, refl),
                (λ nothing.
                    absurd
                      (omega (arith, nothing, ap length same, length-append before (padded ∷ [])))),
                subst Bounded same (still-Bounded before padded (with_sum room)),
              ))
            (λ many e.
              let (k, new, at, most, same, kept, all_gone, bound) =
                rest (suc cursor) (total + length padded) (before ++ (padded ∷ [])) entries end
                  (omega (arith, sum, total_length-append before padded))
                  (still-Bounded before padded (with_sum room)) e in
              (
                suc k,
                padded ∷ new,
                omega arith,
                omega arith,
                same ∙ append_assoc before (padded ∷ []) new,
                inr (padded, new, found, refl, kept),
                (λ nothing. omega (arith, all_gone nothing)),
                bound,
              )))
    where
      with_sum :
          (ltb out_len (total + length padded) && ltb 0 (length before)) ≡ false
          → (ltb out_len (total_length before + length padded) && ltb 0 (length before)) ≡ false
      with_sum h = ap (λ t. ltb out_len (t + length padded) && ltb 0 (length before)) (sym sum) ∙ h

  on_answer :
      (n : Text) (names : List Text) (o : Outcome (Option Bytes))
      → Rest names
      → one n ≡ o
      → (cursor total : ℕ) (before entries : List Bytes) (end : ℕ) → total ≡ total_length before
      → Bounded before
      → (elim o [
        | raise e ↦ (raise e, cursor)
        | ok found ↦ elim found [
          | none ↦ fill one out_len single names (suc cursor) total before
          | some padded ↦
              if ltb out_len (total + length padded) && ltb 0 (length before)
              then (ok before, cursor)
              else if single
              then (ok (before ++ (padded ∷ [])), suc cursor)
              else fill one out_len single names
                  (suc cursor)
                  (total + length padded)
                  (before ++ (padded ∷ []))
        ]
      ])
        ≡ (ok entries, end)
      → IsFilled one out_len (n ∷ names) cursor before entries end
  on_answer n names (raise x) rest answered cursor total before entries end sum bounded e =
      absurd (raise≢ok (ap (λ r. r.0) e))
  on_answer n names (ok none) rest answered cursor total before entries end sum bounded e =
      let (k, new, at, most, same, kept, all_gone, bound) =
        rest (suc cursor) total before entries end sum bounded e in
      (
        suc k,
        new,
        omega arith,
        omega arith,
        same,
        inl (answered, kept),
        (λ nothing. omega (arith, all_gone nothing)),
        bound,
      )
  on_answer n names (ok (some padded)) rest answered cursor total before entries end sum bounded e =
      take_entry n names padded rest answered cursor total before entries end sum bounded e

  fill-Rest : (names : List Text) → Rest names
  fill-Rest [] cursor total before entries end sum bounded e =
      let same : before ≡ entries = ok-injective (ap (λ r. r.0) e) in
      let at : cursor ≡ end = ap (λ r. r.1) e in
      (
        0,
        [],
        omega arith,
        omega arith,
        sym same ∙ sym (append-nil before),
        refl,
        (λ _. refl),
        subst Bounded same bounded,
      )
  fill-Rest (n ∷ names) cursor total before entries end sum bounded e =
      on_answer n names (one n) (fill-Rest names) refl cursor total before entries end sum bounded e

  -- A call that answers takes the records of the next names in order, up to the name where the
  -- cursor is left, passing over those that are gone and no other. Together they are no longer than
  -- the client's buffer, or they are one record, and there is none only where every name that was
  -- left is gone.
  pub fill-IsFilled :
      (names : List Text) (cursor : ℕ) (entries : List Bytes) (end : ℕ)
      → fill one out_len single names cursor 0 [] ≡ (ok entries, end)
      → IsFilled one out_len names cursor [] entries end
  fill-IsFilled names cursor entries end e =
      fill-Rest names cursor 0 [] entries end refl (inl (omega arith)) e
