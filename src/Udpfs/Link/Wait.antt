-- ===== src/Udpfs/Link/Wait.antt =====
-- The waits for acknowledgements of udpfs_server/udpfs_server.py, over what reaches the worker of
-- the session: `_wait_for_window_ack` and `_wait_for_ack`. An event is what `_queue_get` comes back
-- with, and the clock then: a packet, the exception `queue.Empty`, or the end of the session. When
-- a time-out happens is left to the events, so the deadlines do not appear. A packet that is put
-- back stands in front of the events again: `pushback` never holds more than that one.
use ps2_servers.Base.{
  ℕ, ◌+◌, ◌*◌, Bool, true, false, not, ◌&&◌, List, [], ◌∷◌, Option, none, some, length, take, drop,
  ltb, ◌==◌, if◌then◌else◌, bit_and,
}
use ps2_servers.Bytes.{Bytes}
use ps2_servers.Udpfs.Wire.{
  discovery, data_packet, flag_ack, Header, unpack_head, DataHeader, unpack_data,
}
use ps2_servers.Udpfs.Link.{
  Link, seq_sub, send_ack, retransmit_from, is_resent_request, acknowledge_tx,
}

pub data Event : Type 0 where
  arrived : ℕ → Bytes → Event
  timed_out : ℕ → Event
  closing : ℕ → Event

-- What a round of a wait comes to: the next round, a return, or a return with the packet put back.
pub data Round : Type 0 where
  go_on : Round
  leave : Bool → Round
  put_back : Bool → Round

abbrev pub payload_size : DataHeader → ℕ
payload_size d = d.hdr_word_count * 4 + d.data_byte_count

abbrev pub has_ack : DataHeader → Bool
has_ack d = not (bit_and d.flags flag_ack == 0)

-- A DATA packet in `_wait_for_window_ack`.
unfoldable pub window_data : Header → DataHeader → Link → Round × Link
window_data h d l =
    if is_resent_request h.seq_nr (payload_size d) l
    then (go_on, send_ack true l)
    else if has_ack d
    then (let moved = acknowledge_tx d.seq_nr_ack l in
        if ltb 0 (payload_size d)
        then (put_back true, moved.1)
        else if not (moved.1.tx_seq_nr_acked == l.tx_seq_nr_acked)
        then (leave false, moved.1)
        else (go_on, moved.1))
    else if payload_size d == 0
    then (let moved = acknowledge_tx (seq_sub d.seq_nr_ack 1) l in
        let resent = retransmit_from d.seq_nr_ack moved.1 in
        if moved.0 && d.seq_nr_ack == resent.tx_seq_nr
        then (leave false, resent)
        else (go_on, resent))
    else (put_back true, l)

-- A DATA packet in `_wait_for_ack`; `fin_seq` is the number of the last packet.
unfoldable pub final_data : ℕ → Header → DataHeader → Link → Round × Link
final_data fin_seq h d l =
    if is_resent_request h.seq_nr (payload_size d) l
    then (go_on, send_ack true l)
    else if has_ack d
    then (let moved = acknowledge_tx d.seq_nr_ack l in
        if moved.0 && d.seq_nr_ack == fin_seq
        then (
          if ltb 0 (payload_size d) then put_back true else leave true,
          record moved.1 { tx_buffer = [] },
        )
        else if ltb 0 (payload_size d)
        then (put_back true, moved.1)
        else (go_on, moved.1))
    else if payload_size d == 0
    then (go_on, retransmit_from d.seq_nr_ack (acknowledge_tx (seq_sub d.seq_nr_ack 1) l).1)
    else (put_back true, l)

-- A packet in either wait: `on_data` is what a DATA packet does, `moved_on` the result when the
-- console starts over with a DISCOVERY.
unfoldable pub on_packet :
    (Header → DataHeader → Link → Round × Link) → Bool → Bytes → Link → Round × Link
on_packet on_data moved_on packet l =
    if ltb (length packet) 6 then (go_on, l) else elim (unpack_head packet) [
      | none ↦ (go_on, l)
      | some h ↦
          if h.packet_type == discovery
          then (put_back moved_on, record l { tx_buffer = [] })
          else if not (h.packet_type == data_packet)
          then (go_on, l)
          else elim (unpack_data (take 4 (drop 2 packet))) [
            | none ↦ (go_on, l)
            | some d ↦ on_data h d l
          ]
    ]

-- The end of a round: the result, the events that are left, and the session.
abbrev pub Waited : Type 0
Waited = Option Bool × (List Event × Link)

abbrev pub finish : Event → List Event → Round × Link → Waited → Waited
finish event events (go_on, l) rest = rest
finish event events (leave result, l) rest = (some result, (events, l))
finish event events (put_back result, l) rest = (some result, (event ∷ events, l))

-- `_retransmit_from(addr, self.tx_buffer[0][0])`, if there is anything to repeat.
unfoldable pub repeat_window : Link → Link
repeat_window l = elim l.tx_buffer [ [] ↦ l | packet ∷ rest ↦ retransmit_from packet.0 l ]

-- The result is `none` while no event ends the wait.
unfoldable pub wait_for_window_ack : List Event → Link → Waited
wait_for_window_ack [] l = (none, ([], l))
wait_for_window_ack (timed_out now ∷ events) l =
    (some false, (events, repeat_window (record l { now = now })))
wait_for_window_ack (closing now ∷ events) l = (some false, (events, record l { now = now }))
wait_for_window_ack (arrived now packet ∷ events) l =
    let round = on_packet window_data true packet (record l { now = now }) in
    let rest = wait_for_window_ack events round.1 in finish (arrived now packet) events round rest

unfoldable pub wait_for_ack : ℕ → List Event → Link → Waited
wait_for_ack fin_seq [] l = (none, ([], l))
wait_for_ack fin_seq (timed_out now ∷ events) l = (some false, (events, record l { now = now }))
wait_for_ack fin_seq (closing now ∷ events) l = (some false, (events, record l { now = now }))
wait_for_ack fin_seq (arrived now packet ∷ events) l =
    let round = on_packet (final_data fin_seq) false packet (record l { now = now }) in
    let rest = wait_for_ack fin_seq events round.1 in finish (arrived now packet) events round rest
