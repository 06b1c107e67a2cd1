-- ===== src/Compressed/Cuebin/Tiles.antt =====
-- The spans of a layout lie one behind the other without a hole, and inside the CHD.
use native.Mathlib.Nat.{mod-add-div'}
use mathlib.Core.Path.{subst}
use ps2_servers.Base.{
  ℕ, zero, suc, ◌+◌, ◌-◌, ◌*◌, ◌/◌, ◌%◌, ◌≤◌, ◌<◌, ◌≡◌, refl, sym, ◌∙◌, ap, arith, Bool, List, [],
  ◌∷◌, ◌++◌, Option, none, some, get_elem?, ltb, ltb→le, lt→ltb, le→leb, lt→leb, if◌then◌else◌, All,
}
use native.Mathlib.Decide.{dec_lt}
use ps2_servers.Exec.{ok}
use ps2_servers.Exec.Results.{refuse-ok, >>=-ok, ok-injective}
use ps2_servers.Compressed.Reader.Cache.{All-append}
use ps2_servers.Compressed.Cuebin.{
  Track, Span, Layout, append_span, placed, place_track, place_tracks, no_tracks, layout,
  bisect_right, span_at, locate, gap_before, is_audio, cd_frame_bytes,
}

-- From one frame to another the spans are one behind the other, none of them empty.
abbrev Tiles : ℕ → List Span → ℕ → Type 0
Tiles from [] to = from ≡ to
Tiles from (span ∷ spans) to =
    (span.start ≡ from) × (0 < span.frames) × Tiles (from + span.frames) spans to

Tiles-append :
    (from mid to : ℕ) (xs ys : List Span)
    → Tiles from xs mid
    → Tiles mid ys to
    → Tiles from (xs ++ ys) to
Tiles-append from mid to [] ys h k = subst (λ n. Tiles n ys to) (sym h) k
Tiles-append from mid to (x ∷ xs) ys (start, some_frames, h) k =
    (start, some_frames, Tiles-append (from + x.frames) mid to xs ys h k)

-- The frames of a span that are in the CHD are among its frames.
abbrev pub IsWithin : ℕ → Span → Type 0
IsWithin total span = elim span.physical [
  | none ↦ Unit {0}
  | some first ↦ first + span.frames ≤ total
]

record IsLaid (total : ℕ) (l : Layout) : Type 0 where
  tiles : Tiles 0 l.spans l.virtual_frame
  within : All (IsWithin total) l.spans

append_span-IsLaid :
    (total n : ℕ) (physical : Option ℕ) (audio : Bool) (l : Layout)
    → IsLaid total l
    → IsWithin total
        (record { start = l.virtual_frame; frames = n; physical = physical; audio = audio })
    → IsLaid total (append_span n physical audio l)
unfolding append_span
append_span-IsLaid total zero physical audio l h within = h
append_span-IsLaid total (suc n) physical audio l h within =
    let span : Span = record {
      start = l.virtual_frame;
      frames = suc n;
      physical = physical;
      audio = audio;
    } in
    record {
      tiles =
          Tiles-append 0 l.virtual_frame (l.virtual_frame + suc n) l.spans (span ∷ []) h.tiles
            (refl, omega arith, refl);
      within = All-append (IsWithin total) l.spans (span ∷ []) h.within (within, tt);
    }

same_frames :
    (n : ℕ) (physical : Option ℕ) (audio : Bool) (l : Layout)
    → (append_span n physical audio l).physical_frame ≡ l.physical_frame
unfolding append_span
same_frames zero physical audio l = refl
same_frames (suc n) physical audio l = refl

placed-IsLaid :
    (total : ℕ) (t : Track) (l : Layout)
    → IsLaid total l
    → l.physical_frame + t.frames ≤ total
    → IsLaid total (placed t l)
unfolding placed
placed-IsLaid total t l h fits =
    let audio = is_audio t.kind in
    let before = append_span (gap_before t) none audio l in
    let body = append_span t.frames (some l.physical_frame) audio before in
    let laid =
      append_span-IsLaid total t.frames (some l.physical_frame) audio before
        (append_span-IsLaid total (gap_before t) none audio l h tt) fits in
    append_span-IsLaid total t.postgap none audio _
      (record { tiles = laid.tiles; within = laid.within }) tt

place_track-IsLaid :
    (total : ℕ) (t : Track) (l m : Layout)
    → IsLaid total l
    → place_track total t l ≡ ok m
    → IsLaid total m
unfolding place_track
place_track-IsLaid total t l m h e =
    let (_, e1) = refuse-ok _ _ _ m e in
    let (_, e2) = refuse-ok _ _ _ m e1 in
    let (_, e3) = refuse-ok _ _ _ m e2 in
    let (_, e4) = refuse-ok _ _ _ m e3 in
    let (_, e5) = refuse-ok _ _ _ m e4 in
    let (inside, e6) = refuse-ok _ _ _ m e5 in
    subst (IsLaid total) (ok-injective e6) (placed-IsLaid total t l h (ltb→le _ _ inside))

place_tracks-IsLaid :
    (total : ℕ) (tracks : List Track) (l m : Layout)
    → IsLaid total l
    → place_tracks total tracks l ≡ ok m
    → IsLaid total m
unfolding place_tracks
place_tracks-IsLaid total [] l m h e = subst (IsLaid total) (ok-injective e) h
place_tracks-IsLaid total (t ∷ tracks) l m h e =
    let (k, placed_ok, rest) = >>=-ok _ _ m e in
    place_tracks-IsLaid total tracks k m (place_track-IsLaid total t l k h placed_ok) rest

layout-IsLaid :
    (logical_bytes : ℕ) (tracks : List Track) (l : Layout)
    → layout logical_bytes tracks ≡ ok l
    → IsLaid (logical_bytes / cd_frame_bytes) l
unfolding layout
layout-IsLaid logical_bytes tracks l e =
    let (_, e1) = refuse-ok _ _ _ l e in
    let (k, placed_ok, e2) = >>=-ok _ _ l e1 in
    let (_, e3) = refuse-ok _ _ _ l e2 in
    subst (IsLaid (logical_bytes / cd_frame_bytes)) (ok-injective e3) (
      place_tracks-IsLaid (logical_bytes / cd_frame_bytes) tracks no_tracks k
        (record { tiles = refl; within = tt }) placed_ok)

-- Before the first span.
bisect-before :
    (from to frame : ℕ) (spans : List Span)
    → Tiles from spans to
    → frame < from
    → bisect_right spans frame ≡ 0
unfolding bisect_right
bisect-before from to frame [] h low = refl
bisect-before from to frame (span ∷ spans) (start, some_frames, h) low =
    rw (lt→leb span.start frame (omega (arith, start, low))) refl

bisect-within :
    (span : Span) (spans : List Span) (frame : ℕ)
    → span.start ≤ frame
    → bisect_right (span ∷ spans) frame ≡ suc (bisect_right spans frame)
unfolding bisect_right
bisect-within span spans frame h =
    ap (λ b. if b then suc (bisect_right spans frame) else 0) (le→leb span.start frame h)

-- The span that the search comes to.
abbrev Found : ℕ → (Span → Type 0) → List Span → Type 0
Found frame P spans =
    (i : ℕ) × (span : Span) × (bisect_right spans frame ≡ suc i)
    × (get_elem? spans i ≡ some span)
    × (span.start ≤ frame)
    × (frame < span.start + span.frames)
    × P span

search_lem :
    (P : Span → Type 0) (from to frame : ℕ) (spans : List Span)
    → Tiles from spans to
    → All P spans
    → from ≤ frame
    → frame < to
    → Found frame P spans
unfolding bisect_right
search_lem P from to frame [] h every low high = absurd (omega (arith, h))
search_lem P from to frame (span ∷ spans) (start, some_frames, h) (here, every) low high =
    elim (dec_lt frame (from + span.frames)) [
      | yes in_this ↦ (
        0,
        span,
        bisect-within span spans frame (omega (arith, start))
            ∙ ap suc (bisect-before (from + span.frames) to frame spans h in_this),
        refl,
        omega (arith, start),
        omega (arith, start),
        here,
      )
      | no further ↦
          let (i, found, e, at_i, started, ends, good) =
            search_lem P (from + span.frames) to frame spans h every (omega arith) high in
          (
            suc i,
            found,
            bisect-within span spans frame (omega (arith, start)) ∙ ap suc e,
            at_i,
            started,
            ends,
            good,
          )
    ]

span_at-Found :
    (P : Span → Type 0) (frame : ℕ) (spans : List Span)
    → ((i : ℕ) × (span : Span) × (bisect_right spans frame ≡ suc i)
        × (get_elem? spans i ≡ some span)
        × (span.start ≤ frame)
        × (frame < span.start + span.frames)
        × P span)
    → (span : Span) × (span_at spans frame ≡ some span)
      × (span.start ≤ frame)
      × (frame < span.start + span.frames)
      × P span
unfolding span_at
span_at-Found P frame spans (i, span, e, at_i, started, ends, good) = (
  span,
  ap (λ n. elim n [ zero ↦ none | suc j ↦ picked (get_elem? spans j) ]) e
      ∙ ap picked at_i
      ∙ ap (λ b. if b then some span else none) (lt→ltb frame (span.start + span.frames) ends),
  started,
  ends,
  good,
)
  where
    picked : Option Span → Option Span
    picked o = elim o [
      | none ↦ none
      | some span ↦ if ltb frame (span.start + span.frames) then some span else none
    ]

-- What is read of a frame is silence, or a frame of a CHD with so many frames.
abbrev pub IsLocated : ℕ → ℕ → Span → ℕ → Type 0
IsLocated total frames_per_hunk span frame = elim (locate frames_per_hunk span frame) [
  | none ↦ Unit {0}
  | some (hunk, frame_in_hunk) ↦ hunk * frames_per_hunk + frame_in_hunk < total
]

within-IsLocated :
    (total frames_per_hunk frame : ℕ) (span : Span)
    → span.start ≤ frame
    → frame < span.start + span.frames
    → IsWithin total span
    → IsLocated total frames_per_hunk span frame
unfolding locate
within-IsLocated total frames_per_hunk frame span started ends within = go span.physical within
  where
    found : Option ℕ → Option (ℕ × ℕ)
    found o = elim o [
      | none ↦ none
      | some first ↦
          let physical_frame = first + frame - span.start in
          some (physical_frame / frames_per_hunk, physical_frame % frames_per_hunk)
    ]

    inside : Option (ℕ × ℕ) → Type 0
    inside o = elim o [
      | none ↦ Unit {0}
      | some (hunk, frame_in_hunk) ↦ hunk * frames_per_hunk + frame_in_hunk < total
    ]

    fits : Option ℕ → Type 0
    fits o = elim o [ none ↦ Unit {0} | some first ↦ first + span.frames ≤ total ]

    go : (o : Option ℕ) → fits o → inside (found o)
    go none h = tt
    go (some first) h =
        omega (arith, h, started, ends, mod-add-div' (first + frame - span.start) frames_per_hunk)

-- In the layout of any track table that is accepted, every frame of the virtual BIN has its span:
-- `span_at` finds one that contains the frame, so no read comes to a hole, and where the span is not
-- silence, the hunk and the frame in it that are read lie inside the CHD.
pub layout-covered :
    (logical_bytes frames_per_hunk : ℕ) (tracks : List Track) (l : Layout) (frame : ℕ)
    → layout logical_bytes tracks ≡ ok l
    → frame < l.virtual_frame
    → (span : Span) × (span_at l.spans frame ≡ some span)
      × (span.start ≤ frame)
      × (frame < span.start + span.frames)
      × IsLocated (logical_bytes / cd_frame_bytes) frames_per_hunk span frame
layout-covered logical_bytes frames_per_hunk tracks l frame e inside =
    let total = logical_bytes / cd_frame_bytes in
    let laid = layout-IsLaid logical_bytes tracks l e in
    let (span, found, started, ends, within) = span_at-Found (IsWithin total) frame l.spans (
      search_lem (IsWithin total) 0 l.virtual_frame frame l.spans laid.tiles laid.within
        (omega arith) inside) in
    (
      span,
      found,
      started,
      ends,
      within-IsLocated total frames_per_hunk frame span started ends within,
    )
