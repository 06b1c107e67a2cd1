-- ===== src/Smb2/Examples/Wire.antt =====
-- Messages, headers and listings at concrete bytes.
use ps2_servers.Base.{
  ℕ, ◌≡◌, ◌≢◌, refl, arith, false, ◌⊎◌, List, [], ◌∷◌, ◌++◌, Option, none, some, length, map,
  concat, drop, replicate,
}
use ps2_servers.Base.Texts.{Text}
use ps2_servers.Bytes.{Bytes, le}
use ps2_servers.Bytes.Struct.{pack}
use ps2_servers.Exec.{Outcome, ok}
use ps2_servers.Smb2.Listing.{chained}
use ps2_servers.Smb2.Listing.Chain.{IsFilled, fill-IsFilled, walk, walk-chained}
use ps2_servers.Smb2.State.{request_buffer}
use ps2_servers.Smb2.State.Buffers.{IsPart, request_buffer-IsPart}
use ps2_servers.Smb2.Wire.{
  parse_header, pack_header, header_size, smb2_magic, send_msg, recv_msg, pick_dialect, dialect_311,
}
use ps2_servers.Smb2.Wire.Dialects.{IsBest, pick_dialect-IsBest}
use ps2_servers.Smb2.Wire.Framing.{recv_msg-send_msg}
use ps2_servers.Smb2.Wire.RoundTrip.{replying, parse_header-pack_header}
use ps2_servers.Smb2.Examples.{list_differs}

recv_msg-send_msg_example :
    (left : List Bytes) × (recv_msg ((0 ∷ 0 ∷ []) ∷ (0 ∷ 2 ∷ 8 ∷ []) ∷ (9 ∷ 7 ∷ []) ∷ [])
      ≡ (some (8 ∷ 9 ∷ []), left))
    × (concat left ≡ 7 ∷ [])
unfolding send_msg
recv_msg-send_msg_example =
    recv_msg-send_msg (8 ∷ 9 ∷ []) (0 ∷ 0 ∷ 0 ∷ 2 ∷ 8 ∷ 9 ∷ []) (7 ∷ [])
      ((0 ∷ 0 ∷ []) ∷ (0 ∷ 2 ∷ 8 ∷ []) ∷ (9 ∷ 7 ∷ []) ∷ []) refl list_differs
      (list_differs, (list_differs, (list_differs, tt))) refl

pick_dialect-IsBest_example :
    IsBest (785 ∷ 514 ∷ 768 ∷ []) 770 (pick_dialect (785 ∷ 514 ∷ 768 ∷ []) 770)
    × (pick_dialect (785 ∷ 514 ∷ 768 ∷ []) 770 ≢ some dialect_311)
pick_dialect-IsBest_example = pick_dialect-IsBest (785 ∷ 514 ∷ 768 ∷ []) 770

-- The header of a reply to a CREATE.
abbrev answer_header : Bytes
answer_header =
    smb2_magic
    ++ (le 2 64
        ++ (le 2 0
            ++ (le 4 0
                ++ (le 2 5
                    ++ (le 2 1
                        ++ (le 4 1
                            ++ (le 4 0
                                ++ (le 8 5 ++ (le 4 0 ++ (le 4 1 ++ (le 8 9 ++ le 16 0)))))))))))

parse_header-pack_header_example :
    (length answer_header ≡ header_size)
    × (parse_header (answer_header ++ (1 ∷ [])) ≡ some (replying 5 0 5 1 9 1 0 0))
unfolding pack_header pack parse_header
parse_header-pack_header_example =
    parse_header-pack_header 5 0 5 1 9 1 0 0 answer_header (1 ∷ []) refl

abbrev entry_a : Bytes
entry_a = replicate 4 0 ++ (97 ∷ 97 ∷ 97 ∷ 97 ∷ [])

abbrev entry_b : Bytes
entry_b = replicate 4 0 ++ (98 ∷ 98 ∷ 98 ∷ 98 ∷ [])

walk-chained_example :
    walk 5 (chained (entry_a ∷ entry_b ∷ []))
    ≡ map (λ (e : Bytes). drop 4 e) (entry_a ∷ entry_b ∷ [])
walk-chained_example =
    walk-chained entry_a (entry_b ∷ []) 5
      ((omega arith, omega arith), ((omega arith, omega arith), tt)) (omega arith)

-- The first name is gone, the second has a record, the third one that does not fit.
abbrev recorded : Text → Outcome (Option Bytes)
recorded [] = ok none
recorded (c ∷ []) = ok (some entry_a)
recorded (c ∷ d ∷ name) = ok (some entry_b)

fill-IsFilled_example :
    IsFilled recorded 12 ([] ∷ (1 ∷ []) ∷ (1 ∷ 2 ∷ []) ∷ []) 5 [] (entry_a ∷ []) 7
fill-IsFilled_example =
    fill-IsFilled recorded 12 false ([] ∷ (1 ∷ []) ∷ (1 ∷ 2 ∷ []) ∷ []) 5 (entry_a ∷ []) 7 refl

request_buffer-IsPart_example :
    (◌≡◌ {A = ℕ} 2 0 × ◌≡◌ {A = Bytes} (8 ∷ 9 ∷ []) [])
    ⊎ IsPart (1 ∷ 8 ∷ 9 ∷ []) 65 2 65 (8 ∷ 9 ∷ [])
unfolding request_buffer
request_buffer-IsPart_example = request_buffer-IsPart (1 ∷ 8 ∷ 9 ∷ []) 65 2 65 (8 ∷ 9 ∷ []) refl
