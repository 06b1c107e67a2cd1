-- ===== src/Compressed/Cuebin/Examples.antt =====
-- A data track and an audio track.
use ps2_servers.Base.{◌+◌, ◌≤◌, ◌<◌, ◌≡◌, refl, arith, true, false, [], ◌∷◌, some, none}
use ps2_servers.Exec.{ok}
use ps2_servers.Exec.Results.{◌>>=◌, ◌>>◌, refuse}
use ps2_servers.Compressed.Cuebin.{
  Track, Span, Layout, mode1_raw, audio_track, index_of, layout, place_tracks, place_track, placed,
  append_span, span_at, swap_audio_bytes,
}
use ps2_servers.Compressed.Cuebin.Tiles.{IsLocated, layout-covered}

abbrev game : Track
game = record {
  number = 1;
  kind = mode1_raw;
  frames = 10;
  pregap = 0;
  pregap_kind = [];
  postgap = 0;
}

abbrev music : Track
music = record {
  number = 2;
  kind = audio_track;
  frames = 6;
  pregap = 2;
  pregap_kind = [];
  postgap = 1;
}

abbrev disc : Layout
disc = record {
  spans =
      record { start = 0; frames = 10; physical = some 0; audio = false }
      ∷ record { start = 10; frames = 2; physical = none; audio = true }
      ∷ record { start = 12; frames = 6; physical = some 12; audio = true }
      ∷ record { start = 18; frames = 1; physical = none; audio = true }
      ∷ [];
  indexes = index_of game 0 ∷ index_of music 10 ∷ [];
  virtual_frame = 19;
  physical_frame = 20;
}

disc-layout : layout 48960 (game ∷ music ∷ []) ≡ ok disc
unfolding layout place_tracks place_track placed append_span ◌>>=◌ ◌>>◌ refuse
disc-layout = refl

layout-covered_example :
    (span : Span) × (span_at disc.spans 13 ≡ some span)
    × (span.start ≤ 13)
    × (13 < span.start + span.frames)
    × IsLocated 20 8 span 13
layout-covered_example =
    layout-covered 48960 8 (game ∷ music ∷ []) disc 13 disc-layout (omega arith)

swapped : swap_audio_bytes (1 ∷ 2 ∷ 3 ∷ 4 ∷ []) ≡ ok (2 ∷ 1 ∷ 4 ∷ 3 ∷ [])
unfolding swap_audio_bytes ◌>>=◌
swapped = refl
