-- ===== src/Udpfs/Link/Send.antt =====
-- `_send_raw_data`, `_send_raw_data_with_header` and `_wait_for_final_ack` of
-- udpfs_server/udpfs_server.py, over the events that reach the session meanwhile.
pub mod Window
pub mod Ends
pub mod Silent
use ps2_servers.Base.{
  ℕ, zero, suc, ◌+◌, ◌-◌, min, Bool, true, false, ◌&&◌, List, [], ◌∷◌, ◌++◌, Option, none, some,
  length, take, drop, leb, ◌==◌, if◌then◌else◌,
}
use ps2_servers.Bytes.{Bytes}
use ps2_servers.Udpfs.Link.{
  Link, seq_sub, in_flight, send_window, send_data_packet, optimal_chunk_size, max_data_payload,
}
use ps2_servers.Udpfs.Link.Wait.{Event, Waited, wait_for_window_ack, wait_for_ack, repeat_window}

abbrev pub max_window_retries : ℕ
max_window_retries = 200

-- After a wait of `_wait_for_final_ack`: its result, or none for another attempt.
unfoldable pub confirmed : Bool → Link → Option Bool
confirmed true l = some (l.tx_seq_nr_acked == seq_sub l.tx_seq_nr 1 && length l.tx_buffer == 0)
confirmed false l = if length l.tx_buffer == 0 then some false else none

-- The attempts that are left of `_wait_for_final_ack`.
unfoldable pub final_attempts : ℕ → List Event → Link → Waited
final_attempts zero events l = (some false, (events, l))
final_attempts (suc attempts) events l =
    let waited = wait_for_ack (seq_sub l.tx_seq_nr 1) events l in
    elim waited.0 [
      | none ↦ waited
      | some result ↦ elim (confirmed result waited.1.1) [
        | some answer ↦ (some answer, waited.1)
        | none ↦ final_attempts attempts waited.1.0 (repeat_window waited.1.1)
      ]
    ]

abbrev pub wait_for_final_ack : List Event → Link → Waited
wait_for_final_ack = final_attempts (max_window_retries + 1)

-- A transfer: the bytes not yet sent, `window_retries`, the events to come, and the session.
pub record Transfer : Type 0 where
  pub rest : Bytes
  pub window_retries : ℕ
  pub events : List Event
  pub link : Link

-- What a round of the `while` loop comes to: the end of the transfer, or the next round. A
-- transfer that was given up ends in `false`, as one that was not confirmed does.
pub data Turn : Type 0 where
  done : Waited → Turn
  again : Transfer → Turn

-- After `_wait_for_window_ack` in the loop.
unfoldable pub after_wait : Transfer → Waited → Turn
after_wait t (none, left) = done (none, left)
after_wait t (some true, left) = done (some false, left)
after_wait t (some false, (events, l)) =
    if l.tx_seq_nr_acked == t.link.tx_seq_nr_acked
    then (if leb max_window_retries (t.window_retries + 1)
        then done (some false, (events, l))
        else again (record {
          rest = t.rest;
          window_retries = t.window_retries + 1;
          events = events;
          link = l;
        }))
    else again (record { rest = t.rest; window_retries = 0; events = events; link = l })

unfoldable pub turn : ℕ → Transfer → Turn
turn max_chunk t =
    if length t.rest == 0
    then done (wait_for_final_ack t.events t.link)
    else if leb send_window (in_flight t.link)
    then after_wait t (wait_for_window_ack t.events t.link)
    else again (record {
      rest = drop max_chunk t.rest;
      window_retries = 0;
      events = t.events;
      link = send_data_packet (take max_chunk t.rest) (leb (length t.rest) max_chunk) 0 t.link;
    })

-- The loop, `none` when the fuel is used up.
unfoldable pub turns : ℕ → ℕ → Transfer → Option Waited
turns zero max_chunk t = none
turns (suc fuel) max_chunk t = elim (turn max_chunk t) [
  | done waited ↦ some waited
  | again next ↦ turns fuel max_chunk next
]

-- Where the two senders enter the loop. Both start with an empty buffer; the one with a header
-- sends its first packet whatever is in flight.
unfoldable pub raw_data : Bytes → List Event → Link → Transfer
raw_data data_bytes events l = record {
  rest = data_bytes;
  window_retries = 0;
  events = events;
  link = record l { tx_buffer = []; tx_start_seq = l.tx_seq_nr };
}

abbrev pub first_chunk_size : Bytes → Bytes → ℕ
first_chunk_size header data_bytes =
    min (min (optimal_chunk_size (length data_bytes)) (max_data_payload - length header))
      (length data_bytes)

unfoldable pub raw_data_with_header : Bytes → Bytes → List Event → Link → Transfer
raw_data_with_header header data_bytes events l =
    let size = first_chunk_size header data_bytes in
    record {
      rest = drop size data_bytes;
      window_retries = 0;
      events = events;
      link =
          send_data_packet (header ++ take size data_bytes) (leb (length data_bytes) size)
            (length header) (record l { tx_buffer = []; tx_start_seq = l.tx_seq_nr });
    }

-- With a round for every byte and every event, and one more, the loop comes to its end.
abbrev pub enough : Transfer → ℕ
enough t = suc (length t.rest + length t.events)

unfoldable pub send_raw_data : Bytes → List Event → Link → Option Waited
send_raw_data data_bytes events l =
    let t = raw_data data_bytes events l in
    turns (enough t) (optimal_chunk_size (length data_bytes)) t

unfoldable pub send_raw_data_with_header : Bytes → Bytes → List Event → Link → Option Waited
send_raw_data_with_header header data_bytes events l =
    let t = raw_data_with_header header data_bytes events l in
    turns (enough t) (optimal_chunk_size (length data_bytes)) t
