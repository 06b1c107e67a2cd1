-- ===== src/Compressed/Cuebin.antt =====
-- chd_cuebin.py: the layout of a CD image's tracks in the virtual BIN file, and the bytes of audio
-- sectors. The text of the CUE sheet, the metadata of the CHD and libchdr are left out. ChdCueError
-- is a ValueError.
pub mod Tiles
pub mod Swap
mod Examples
use ps2_servers.Base.{
  ℕ, zero, suc, ◌+◌, ◌-◌, ◌*◌, ◌/◌, ◌%◌, ◌^◌, Bool, true, false, not, ◌&&◌, ◌||◌, List, [], ◌∷◌,
  ◌++◌, Option, none, some, length, get_elem?, ltb, leb, ◌==◌, if◌then◌else◌,
}
use ps2_servers.Bytes.{Bytes}
use ps2_servers.Exec.{Outcome, ok, raise, value_error}
use ps2_servers.Exec.Results.{◌>>=◌, ◌>>◌, refuse}

abbrev pub cd_frame_bytes : ℕ
cd_frame_bytes = 2448

abbrev pub cd_sector_bytes : ℕ
cd_sector_bytes = 2352

abbrev pub padding_frames : ℕ
padding_frames = 4

-- "MODE1_RAW", "MODE2_RAW", "AUDIO", and any other text.
pub data TrackKind : Type 0 where
  mode1_raw : TrackKind
  mode2_raw : TrackKind
  audio_track : TrackKind
  other_kind : List ℕ → TrackKind

abbrev pub is_raw : TrackKind → Bool
is_raw (other_kind text) = false
is_raw kind = true

abbrev pub is_audio : TrackKind → Bool
is_audio audio_track = true
is_audio kind = false

-- A track as `_parse_track` makes it: no count is negative. `pregap_kind` is a text, as its code
-- points.
pub record Track : Type 0 where
  pub number : ℕ
  pub kind : TrackKind
  pub frames : ℕ
  pub pregap : ℕ
  pub pregap_kind : List ℕ
  pub postgap : ℕ

-- `stored_pregap`: the text starts with "V".
abbrev pub stored_pregap : Track → Bool
stored_pregap t = elim t.pregap_kind [ [] ↦ false | c ∷ text ↦ c == 86 ]

abbrev pub is_ascii : List ℕ → Bool
is_ascii [] = true
is_ascii (c ∷ text) = ltb c 128 && is_ascii text

-- `physical` is `physical_start`, none for -1: the frames of a gap that are not in the CHD.
pub record Span : Type 0 where
  pub start : ℕ
  pub frames : ℕ
  pub physical : Option ℕ
  pub audio : Bool

-- `index0` is none for -1.
pub record TrackIndex : Type 0 where
  pub track : Track
  pub index0 : Option ℕ
  pub index1 : ℕ

-- The variables of `layout`; at its end they are the Layout.
pub record Layout : Type 0 where
  pub spans : List Span
  pub indexes : List TrackIndex
  pub virtual_frame : ℕ
  pub physical_frame : ℕ

-- The span of so many frames behind the others, unless there are none.
unfoldable pub append_span : ℕ → Option ℕ → Bool → Layout → Layout
append_span zero physical audio l = l
append_span (suc n) physical audio l = record l {
  spans =
      l.spans
      ++ (record { start = l.virtual_frame; frames = suc n; physical = physical; audio = audio }
          ∷ []);
  virtual_frame = l.virtual_frame + suc n;
}

-- The frames of silence in front of a track.
abbrev pub gap_before : Track → ℕ
gap_before t = if stored_pregap t then 0 else t.pregap

-- Where INDEX 00 and INDEX 01 are, for a track that starts at a frame.
abbrev pub index_of : Track → ℕ → TrackIndex
index_of t frame = record {
  track = t;
  index0 = if t.pregap == 0 then none else some frame;
  index1 = frame + t.pregap;
}

-- The track, its gaps and its indexes; the CHD pads tracks to four frames.
unfoldable pub placed : Track → Layout → Layout
placed t l =
    let audio = is_audio t.kind in
    let before = append_span (gap_before t) none audio l in
    let body = append_span t.frames (some l.physical_frame) audio before in
    append_span t.postgap none audio (record body {
      indexes = l.indexes ++ (index_of t l.virtual_frame ∷ []);
      physical_frame =
          l.physical_frame
          + t.frames
          + (padding_frames - t.frames % padding_frames) % padding_frames;
    })

-- A round of the loop of `layout`, for a CHD of so many frames.
unfoldable pub place_track : ℕ → Track → Layout → Outcome Layout
place_track total_frames t l = do
  refuse (not (is_raw t.kind)) value_error
  refuse (t.frames == 0) value_error
  refuse (ltb t.frames t.pregap) value_error
  refuse (not (is_ascii t.pregap_kind)) value_error
  refuse (not (t.pregap == 0) && stored_pregap t && leb t.frames t.pregap) value_error
  refuse (ltb total_frames (l.physical_frame + t.frames)) value_error
  ok (placed t l)

unfoldable pub place_tracks : ℕ → List Track → Layout → Outcome Layout
place_tracks total_frames [] l = ok l
place_tracks total_frames (t ∷ tracks) l =
    place_track total_frames t l >>= place_tracks total_frames tracks

abbrev pub no_tracks : Layout
no_tracks = record { spans = []; indexes = []; virtual_frame = 0; physical_frame = 0 }

unfoldable pub layout : ℕ → List Track → Outcome Layout
layout logical_bytes tracks = do
  refuse (logical_bytes == 0 || not (logical_bytes % cd_frame_bytes == 0)) value_error
  l ← place_tracks (logical_bytes / cd_frame_bytes) tracks no_tracks
  refuse (leb (2 ^ 63) (l.virtual_frame * cd_sector_bytes)) value_error
  ok l

-- `bisect.bisect_right(self._starts, frame)`: how many spans start at or before the frame. The
-- starts are in order.
unfoldable pub bisect_right : List Span → ℕ → ℕ
bisect_right [] frame = 0
bisect_right (span ∷ spans) frame =
    let rest = bisect_right spans frame in if leb span.start frame then suc rest else 0

unfoldable pub span_at : List Span → ℕ → Option Span
span_at spans frame = elim (bisect_right spans frame) [
  | zero ↦ none
  | suc i ↦ elim (get_elem? spans i) [
    | none ↦ none
    | some span ↦ if ltb frame (span.start + span.frames) then some span else none
  ]
]

-- Where `ChdBinFile.read` finds a frame: the hunk and the frame in it; none is silence.
unfoldable pub locate : ℕ → Span → ℕ → Option (ℕ × ℕ)
locate frames_per_hunk span frame = elim span.physical [
  | none ↦ none
  | some first ↦
      let physical_frame = first + frame - span.start in
      some (physical_frame / frames_per_hunk, physical_frame % frames_per_hunk)
]

-- `_swap_audio_bytes`; the slices of an odd number of bytes do not fit each other.
unfoldable pub swap_audio_bytes : Bytes → Outcome Bytes
swap_audio_bytes [] = ok []
swap_audio_bytes (a ∷ []) = raise value_error
swap_audio_bytes (a ∷ b ∷ sector) = swap_audio_bytes sector >>= (λ rest. ok (b ∷ a ∷ rest))
