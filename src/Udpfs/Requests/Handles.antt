-- ===== src/Udpfs/Requests/Handles.antt =====
-- The handle table: which handles are open after an open or a close, and that no number is used
-- twice.
use native.Mathlib.Decide.{ℕ_discrete}
use mathlib.Core.Path.{subst}
use ps2_servers.Base.{
  ℕ, suc, ◌+◌, ◌≤◌, ◌<◌, ◌≡◌, ◌≢◌, ◌⊎◌, inl, inr, refl, sym, ◌∙◌, ap, arith, Bool, false, List, [],
  ◌∷◌, ◌++◌, Option, none, some, length, length-append, All, ◌==◌, ==_refl, if◌then◌else◌,
  Bool-cases, leb, Option-cases, if-cases, leb→le,
}
use ps2_servers.Base.Signed.{pos, neg}
use ps2_servers.Udpfs.Session.{Config, FileHandle, Session, get}
use ps2_servers.Udpfs.Requests.{ReadFiles, alloc_handle, forget, free_handle, max_handles, emfile}

unequal : (a b : ℕ) → a ≢ b → (a == b) ≡ false
unequal a b h = ground (arith, h)

abbrev Handles : Type 0 → Type 0
Handles O = List (ℕ × FileHandle O)

module _ {O : Type 0} where
  abbrev NoRepeat : Handles O → Type 0
  NoRepeat [] = Unit
  NoRepeat ((key, fh) ∷ handles) = (get (pos key) handles ≡ none) × NoRepeat handles

  abbrev Below : ℕ → Handles O → Type 0
  Below n = All (λ entry. entry.0 < n)

  get-here :
      (key : ℕ) (fh : FileHandle O) (rest : Handles O) → get (pos key) ((key, fh) ∷ rest) ≡ some fh
  get-here key fh rest = ap (λ b. if b then some fh else get (pos key) rest) (==_refl key)

  get-past :
      (k key : ℕ) (fh : FileHandle O) (rest : Handles O)
      → k ≢ key
      → get (pos key) ((k, fh) ∷ rest) ≡ get (pos key) rest
  get-past k key fh rest other =
      ap (λ b. if b then some fh else get (pos key) rest) (unequal k key other)

  get-Below :
      (n key : ℕ) (handles : Handles O) → Below n handles → n ≤ key → get (pos key) handles ≡ none
  get-Below n key [] h large = refl
  get-Below n key ((k, fh) ∷ handles) (low, h) large =
      get-past k key fh handles (λ e. omega (arith, e, low, large))
      ∙ get-Below n key handles h large

  -- A handle behind the others.
  get-behind :
      (key n : ℕ) (fh : FileHandle O) (handles : Handles O)
      → n ≢ key
      → get (pos key) (handles ++ ((n, fh) ∷ [])) ≡ get (pos key) handles
  get-behind key n fh [] other = get-past n key fh [] other
  get-behind key n fh ((k, g) ∷ handles) other = elim (ℕ_discrete k key) [
    | yes same ↦ rw same (get-here key g (handles ++ ((n, fh) ∷ [])) ∙ sym (get-here key g handles))
    | no past ↦
        get-past k key g (handles ++ ((n, fh) ∷ [])) past
        ∙ get-behind key n fh handles other
        ∙ sym (get-past k key g handles past)
  ]

  get-last :
      (n : ℕ) (fh : FileHandle O) (handles : Handles O)
      → Below n handles
      → get (pos n) (handles ++ ((n, fh) ∷ [])) ≡ some fh
  get-last n fh [] h = get-here n fh []
  get-last n fh ((k, g) ∷ handles) (low, h) =
      get-past k n g (handles ++ ((n, fh) ∷ [])) (λ e. omega (arith, e, low))
      ∙ get-last n fh handles h

  NoRepeat-behind :
      (n : ℕ) (fh : FileHandle O) (handles : Handles O)
      → Below n handles
      → NoRepeat handles
      → NoRepeat (handles ++ ((n, fh) ∷ []))
  NoRepeat-behind n fh [] h once = (refl, tt)
  NoRepeat-behind n fh ((k, g) ∷ handles) (low, h) (new, once) = (
    get-behind k n fh handles (λ e. omega (arith, e, low)) ∙ new,
    NoRepeat-behind n fh handles h once,
  )

  Below-behind :
      (n : ℕ) (fh : FileHandle O) (handles : Handles O)
      → Below n handles
      → Below (n + 1) (handles ++ ((n, fh) ∷ []))
  Below-behind n fh [] h = (omega arith, tt)
  Below-behind n fh (entry ∷ handles) (low, h) = (omega arith, Below-behind n fh handles h)

  forget-here :
      (n : ℕ) (fh : FileHandle O) (handles : Handles O) → forget n ((n, fh) ∷ handles) ≡ handles
  unfolding forget
  forget-here n fh handles = ap (λ b. if b then handles else (n, fh) ∷ forget n handles) (==_refl n)

  forget-past :
      (k n : ℕ) (fh : FileHandle O) (handles : Handles O)
      → k ≢ n
      → forget n ((k, fh) ∷ handles) ≡ (k, fh) ∷ forget n handles
  unfolding forget
  forget-past k n fh handles other =
      ap (λ b. if b then handles else (k, fh) ∷ forget n handles) (unequal k n other)

  -- A handle that is forgotten, and the others.
  get-forgotten :
      (n : ℕ) (handles : Handles O) → NoRepeat handles → get (pos n) (forget n handles) ≡ none
  unfolding forget
  get-forgotten n [] once = refl
  get-forgotten n ((k, g) ∷ handles) (new, once) = elim (ℕ_discrete k n) [
    | yes same ↦
        ap (λ m. get (pos n) (forget m ((k, g) ∷ handles))) (sym same)
        ∙ ap (get (pos n)) (forget-here k g handles)
        ∙ ap (λ m. get (pos m) handles) (sym same)
        ∙ new
    | no past ↦
        ap (get (pos n)) (forget-past k n g handles past)
        ∙ get-past k n g (forget n handles) past
        ∙ get-forgotten n handles once
  ]

  get-kept :
      (key n : ℕ) (handles : Handles O)
      → n ≢ key
      → get (pos key) (forget n handles) ≡ get (pos key) handles
  unfolding forget
  get-kept key n [] other = refl
  get-kept key n ((k, g) ∷ handles) other = elim (ℕ_discrete k n) [
    | yes same ↦
        ap (λ m. get (pos key) (forget m ((k, g) ∷ handles))) (sym same)
        ∙ ap (get (pos key)) (forget-here k g handles)
        ∙ sym (get-past k key g handles (λ e. other (sym same ∙ e)))
    | no past ↦ ap (get (pos key)) (forget-past k n g handles past) ∙ (elim (ℕ_discrete k key) [
      | yes found ↦ rw found (get-here key g (forget n handles) ∙ sym (get-here key g handles))
      | no further ↦
          get-past k key g (forget n handles) further
          ∙ get-kept key n handles other
          ∙ sym (get-past k key g handles further)
    ])
  ]

  NoRepeat-forget : (n : ℕ) (handles : Handles O) → NoRepeat handles → NoRepeat (forget n handles)
  unfolding forget
  NoRepeat-forget n [] once = tt
  NoRepeat-forget n ((k, g) ∷ handles) (new, once) = elim (ℕ_discrete k n) [
    | yes same ↦
        subst NoRepeat
          (sym (ap (λ m. forget m ((k, g) ∷ handles)) (sym same) ∙ forget-here k g handles)) once
    | no past ↦
        subst NoRepeat (sym (forget-past k n g handles past))
          (get-kept k n handles (λ e. past (sym e)) ∙ new, NoRepeat-forget n handles once)
  ]

  Below-forget : (m n : ℕ) (handles : Handles O) → Below m handles → Below m (forget n handles)
  unfolding forget
  Below-forget m n [] h = tt
  Below-forget m n ((k, g) ∷ handles) (low, h) =
      if-cases (Below m) (k == n) (λ _. h) (λ _. (low, Below-forget m n handles h))

  length-forget : (n : ℕ) (handles : Handles O) → length (forget n handles) ≤ length handles
  unfolding forget
  length-forget n [] = omega arith
  length-forget n ((k, g) ∷ handles) = ground (arith, length-forget n handles)

-- The handle table of a session.
pub record IsTable {O W : Type 0} (s : Session O W) : Type 0 where
  pub below : Below s.next_handle s.handles
  pub once : NoRepeat s.handles
  pub bounded : length s.handles ≤ max_handles

module _ {O W : Type 0} where
  -- Opening in a good table: with `max_handles` open it answers EMFILE and changes nothing.
  -- Otherwise the handle was not open, it is the new object's, every other handle is as it was, and
  -- the table stays good.
  pub alloc_handle_lem :
      (obj : O) (is_dir : Bool) (s : Session O W)
      → IsTable s
      → ((max_handles ≤ length s.handles) × (alloc_handle obj is_dir s ≡ (neg emfile, s)))
        ⊎ ((t : Session O W) × (alloc_handle obj is_dir s ≡ (pos s.next_handle, t))
            × (get (pos s.next_handle) s.handles ≡ none)
            × (get (pos s.next_handle) t.handles ≡ some (record { obj = obj; is_dir = is_dir }))
            × ((key : ℕ) → s.next_handle ≢ key → get (pos key) t.handles ≡ get (pos key) s.handles)
            × IsTable t)
  unfolding alloc_handle
  alloc_handle_lem obj is_dir s h =
      let fh : FileHandle O = record { obj = obj; is_dir = is_dir } in
      let n = s.next_handle in
      elim (Bool-cases (leb max_handles (length s.handles))) [
        | inl full ↦ inl (leb→le _ _ full, rw full refl)
        | inr room ↦ inr (
          record s { next_handle = n + 1; handles = s.handles ++ ((n, fh) ∷ []) },
          rw room refl,
          get-Below n n s.handles h.below (omega arith),
          get-last n fh s.handles h.below,
          (λ key other. get-behind key n fh s.handles other),
          record {
            below = Below-behind n fh s.handles h.below;
            once = NoRepeat-behind n fh s.handles h.below h.once;
            bounded =
                let low : length s.handles < max_handles = ground (arith, room) in
                omega (arith, low, length-append s.handles ((n, fh) ∷ []));
          },
        )
      ]

  -- `t` is the session `s` without the handle `n`.
  abbrev pub IsFreed : ℕ → Session O W → Session O W → Type 0
  IsFreed n s t =
      (get (pos n) t.handles ≡ none)
      × ((key : ℕ) → n ≢ key → get (pos key) t.handles ≡ get (pos key) s.handles)
      × (t.next_handle ≡ s.next_handle)
      × IsTable t

  forgotten-IsFreed :
      (n : ℕ) (world : W) (s : Session O W)
      → IsTable s
      → IsFreed n s (record s { world = world; handles = forget n s.handles })
  forgotten-IsFreed n world s h = (
    get-forgotten n s.handles h.once,
    (λ key other. get-kept key n s.handles other),
    refl,
    record {
      below = Below-forget s.next_handle n s.handles h.below;
      once = NoRepeat-forget n s.handles h.once;
      bounded = omega (arith, h.bounded, length-forget n s.handles);
    },
  )

  -- Closing a handle of a good table that is not the block device's, open or not, whatever the
  -- file's `close` does: the handle is not open afterwards, every other one is as it was, no number
  -- is freed for another use, and the table stays good.
  pub free_handle_lem :
      (files : ReadFiles O W) (config : Config O) (n : ℕ) (s : Session O W)
      → IsTable s
      → IsFreed (suc n) s (free_handle files config (pos (suc n)) s)
  unfolding free_handle
  free_handle_lem files config n s h = elim (Option-cases (get (pos (suc n)) s.handles)) [
    | inl missing ↦
        subst (IsFreed (suc n) s) (sym (ap (freed n s) missing))
          (missing, (λ key other. refl), refl, h)
    | inr (fh, found) ↦
        subst (IsFreed (suc n) s) (sym (ap (freed n s) found))
          (forgotten-IsFreed (suc n) (closed fh) s h)
  ]
    where
      closed : FileHandle O → W
      closed fh = if fh.is_dir then s.world else (files.close fh.obj s.world).1

      freed : ℕ → Session O W → Option (FileHandle O) → Session O W
      freed n s o = elim o [
        | none ↦ s
        | some fh ↦ record s { world = closed fh; handles = forget (suc n) s.handles }
      ]
