-- ===== src/Udpfs/Link/Send/Ends.antt =====
-- Every transfer comes to its end.
use ps2_servers.Base.{
  ℕ, zero, suc, ◌+◌, ◌≤◌, ◌<◌, true, false, ◌≡◌, refl, sym, List, [], ◌∷◌, Option, none, some,
  length, length-drop, take, drop, ltb, leb, ◌==◌, not, ◌&&◌, true≢false, if◌then◌else◌, if-cases,
  arith,
}
use ps2_servers.Bytes.{Bytes}
use ps2_servers.Udpfs.Wire.{discovery, data_packet, Header, unpack_head, DataHeader, unpack_data}
use ps2_servers.Udpfs.Link.{
  Link, seq_sub, acknowledge_tx, retransmit_from, is_resent_request, in_flight, send_window,
  optimal_chunk_size, better_chunk,
}
use ps2_servers.Udpfs.Link.Wait.{
  Event, arrived, timed_out, closing, Round, go_on, leave, put_back, on_packet, window_data,
  payload_size, has_ack, Waited, finish, wait_for_window_ack,
}
use ps2_servers.Udpfs.Link.Send.{
  Transfer, Turn, done, again, after_wait, turn, turns, raw_data, send_raw_data,
  raw_data_with_header, send_raw_data_with_header,
}

-- A wait that returns false has used up an event.
Shorter : ℕ → Waited → Type 0
Shorter n (none, left) = Unit
Shorter n (some true, left) = Unit
Shorter n (some false, (events, l)) = length events < n

-- The rounds of a window wait put a packet back only to return true.
Rounds : Round → Type 0
Rounds (put_back result) = result ≡ true
Rounds round = Unit

Ruled : Round × Link → Type 0
Ruled r = Rounds r.0

window_data-Ruled : (h : Header) (d : DataHeader) (l : Link) → Ruled (window_data h d l)
unfolding window_data Ruled Rounds
window_data-Ruled h d l =
    if-cases Ruled (is_resent_request h.seq_nr (payload_size d) l) (λ _. tt)
      (λ _.
        if-cases Ruled (has_ack d)
          (λ _.
            if-cases Ruled (ltb 0 (payload_size d)) (λ _. refl)
              (λ _.
                if-cases Ruled
                  (not ((acknowledge_tx d.seq_nr_ack l).1.tx_seq_nr_acked == l.tx_seq_nr_acked))
                  (λ _. tt) (λ _. tt)))
          (λ _.
            if-cases Ruled (payload_size d == 0)
              (λ _.
                if-cases Ruled
                  ((acknowledge_tx (seq_sub d.seq_nr_ack 1) l).0
                    && d.seq_nr_ack
                      == (retransmit_from d.seq_nr_ack
                          (acknowledge_tx (seq_sub d.seq_nr_ack 1) l).1).tx_seq_nr)
                  (λ _. tt) (λ _. tt))
              (λ _. refl)))

on_packet-Ruled : (packet : Bytes) (l : Link) → Ruled (on_packet window_data true packet l)
unfolding on_packet Ruled Rounds
on_packet-Ruled packet l =
    if-cases Ruled (ltb (length packet) 6) (λ _. tt) (λ _. go (unpack_head packet))
  where
    with_data :
        (h : Header) (o : Option DataHeader)
        → Ruled (elim o [ none ↦ (go_on, l) | some d ↦ window_data h d l ])
    with_data h none = tt
    with_data h (some d) = window_data-Ruled h d l

    go :
        (o : Option Header)
        → Ruled (elim o [
          | none ↦ (go_on, l)
          | some h ↦
              if h.packet_type == discovery
              then (put_back true, record l { tx_buffer = [] })
              else if not (h.packet_type == data_packet)
              then (go_on, l)
              else elim (unpack_data (take 4 (drop 2 packet))) [
                | none ↦ (go_on, l)
                | some d ↦ window_data h d l
              ]
        ])
    go none = tt
    go (some h) =
        if-cases Ruled (h.packet_type == discovery) (λ _. refl)
          (λ _.
            if-cases Ruled (not (h.packet_type == data_packet)) (λ _. tt)
              (λ _. with_data h (unpack_data (take 4 (drop 2 packet)))))

Shorter-suc : (n : ℕ) (waited : Waited) → Shorter n waited → Shorter (suc n) waited
unfolding Shorter
Shorter-suc n (none, left) h = tt
Shorter-suc n (some true, left) h = tt
Shorter-suc n (some false, (events, l)) h = omega arith

finish-Shorter :
    (event : Event) (events : List Event) (round : Round × Link) (rest : Waited)
    → Ruled round
    → Shorter (length events) rest
    → Shorter (suc (length events)) (finish event events round rest)
unfolding Ruled Rounds Shorter
finish-Shorter event events (go_on, l) rest ruled h = Shorter-suc (length events) rest h
finish-Shorter event events (leave true, l) rest ruled h = tt
finish-Shorter event events (leave false, l) rest ruled h = omega arith
finish-Shorter event events (put_back true, l) rest ruled h = tt
finish-Shorter event events (put_back false, l) rest ruled h = absurd (true≢false (sym ruled))

wait_for_window_ack-Shorter :
    (events : List Event) (l : Link) → Shorter (length events) (wait_for_window_ack events l)
unfolding wait_for_window_ack Shorter
wait_for_window_ack-Shorter [] l = tt
wait_for_window_ack-Shorter (timed_out now ∷ events) l = omega arith
wait_for_window_ack-Shorter (closing now ∷ events) l = omega arith
wait_for_window_ack-Shorter (arrived now packet ∷ events) l =
    finish-Shorter (arrived now packet) events _ _ (on_packet-Ruled packet (record l { now = now }))
      (wait_for_window_ack-Shorter events _)

-- The next round has fewer bytes and events left.
Fewer : ℕ → Turn → Type 0
Fewer n (done waited) = Unit
Fewer n (again t) = length t.rest + length t.events < n

after_wait-Fewer :
    (t : Transfer) (waited : Waited)
    → Shorter (length t.events) waited
    → Fewer (length t.rest + length t.events) (after_wait t waited)
unfolding after_wait Shorter Fewer
after_wait-Fewer t (none, left) h = tt
after_wait-Fewer t (some true, left) h = tt
after_wait-Fewer t (some false, (events, l)) h =
    if-cases (Fewer (length t.rest + length t.events)) (l.tx_seq_nr_acked == t.link.tx_seq_nr_acked)
      (λ _.
        if-cases (Fewer (length t.rest + length t.events)) (leb 200 (t.window_retries + 1))
          (λ _. tt) (λ _. omega arith))
      (λ _. omega arith)

turn-Fewer :
    (max_chunk : ℕ) (t : Transfer)
    → 0 < max_chunk
    → Fewer (length t.rest + length t.events) (turn max_chunk t)
unfolding turn Fewer
turn-Fewer max_chunk t some_bytes =
    let n = length t.rest + length t.events in
    if-cases (Fewer n) (length t.rest == 0) (λ _. tt)
      (λ left.
        if-cases (Fewer n) (leb send_window (in_flight t.link))
          (λ _.
            after_wait-Fewer t (wait_for_window_ack t.events t.link)
              (wait_for_window_ack-Shorter t.events t.link))
          (λ _. ground (arith, left, length-drop max_chunk t.rest)))

next_ends :
    (fuel max_chunk n : ℕ) (next : Turn)
    → Fewer n next
    → n ≤ fuel
    → ((u : Transfer)
        → length u.rest + length u.events < fuel
        → (waited : Waited) × (turns fuel max_chunk u ≡ some waited))
    → (waited : Waited) × ((elim next [
      | done result ↦ some result
      | again u ↦ turns fuel max_chunk u
    ])
        ≡ some waited)
unfolding Fewer
next_ends fuel max_chunk n (done result) k h ends = (result, refl)
next_ends fuel max_chunk n (again u) k h ends = ends u (omega arith)

turns-end :
    (fuel max_chunk : ℕ) (t : Transfer)
    → 0 < max_chunk
    → length t.rest + length t.events < fuel
    → (waited : Waited) × (turns fuel max_chunk t ≡ some waited)
unfolding turns
turns-end zero max_chunk t some_bytes h = absurd (omega arith)
turns-end (suc fuel) max_chunk t some_bytes h =
    next_ends fuel max_chunk (length t.rest + length t.events) (turn max_chunk t)
      (turn-Fewer max_chunk t some_bytes) (omega arith)
      (λ u k. turns-end fuel max_chunk u some_bytes k)

pub some_chunk : (total : ℕ) → 0 < optimal_chunk_size total
unfolding optimal_chunk_size better_chunk
some_chunk total = ground arith

-- A transfer, with a header or without one, ends after at most a round for every byte to send and
-- every event to come, whatever the events are: the fuel of the model is never used up.
pub send_raw_data-ends :
    (header data_bytes : Bytes) (events : List Event) (l : Link)
    → ((waited : Waited) × (send_raw_data data_bytes events l ≡ some waited))
      × ((waited : Waited) × (send_raw_data_with_header header data_bytes events l ≡ some waited))
unfolding send_raw_data send_raw_data_with_header
send_raw_data-ends header data_bytes events l = (
  turns-end _ (optimal_chunk_size (length data_bytes)) (raw_data data_bytes events l)
      (some_chunk (length data_bytes)) (omega arith),
  turns-end _ (optimal_chunk_size (length data_bytes))
      (raw_data_with_header header data_bytes events l) (some_chunk (length data_bytes))
      (omega arith),
)
