-- ===== src/Udpfs/Link.antt =====
-- The UDPRDMA transport of one session in udpfs_server/udpfs_server.py: sequence numbers, the
-- packets kept for retransmission, and the sends that advance them. `sent` collects what goes out
-- to the session's peer, oldest first; every send is taken to succeed.
-- `now` is the reading of the monotonic clock in milliseconds, as of the last event of the session.
pub mod Window
pub mod ChunkSize
pub mod Wait
pub mod Progress
pub mod Send
pub mod Receive
use ps2_servers.Base.{
  ℕ, zero, suc, ◌+◌, ◌-◌, ◌*◌, ◌/◌, ◌%◌, ◌^◌, min, Bool, true, false, not, ◌&&◌, ◌||◌, List, [],
  ◌∷◌, ◌++◌, Option, none, some, length, take, drop, ltb, leb, ◌==◌, if◌then◌else◌, bit_and,
}
use ps2_servers.Bytes.{Bytes, ljust}
use ps2_servers.Udpfs.Wire.{
  data_packet, flag_ack, flag_fin, Header, pack_head, DataHeader, pack_data,
}

abbrev pub max_data_payload : ℕ
max_data_payload = 1408

abbrev pub send_window : ℕ
send_window = 8

-- `(a - b) & 0xFFF`, where Python's difference may be negative.
abbrev pub seq_sub : ℕ → ℕ → ℕ
seq_sub a b = (a + (4096 - b % 4096)) % 4096

-- `(a + 1) & 0xFFF`
abbrev pub seq_next : ℕ → ℕ
seq_next a = (a + 1) % 4096

-- The transport fields of `Session`.
pub record Link : Type 0 where
  pub tx_seq_nr : ℕ
  pub tx_buffer : List (ℕ × Bytes)
  pub tx_start_seq : ℕ
  pub tx_seq_nr_acked : ℕ
  pub rx_seq_nr_expected : ℕ
  pub last_retx : Option (ℕ × ℕ)
  pub now : ℕ
  pub sent : List Bytes

abbrev pub emit : Bytes → Link → Link
emit packet l = record l { sent = l.sent ++ (packet ∷ []) }

unfoldable pub send_ack : Bool → Link → Link
send_ack is_ack l =
    emit
      (pack_head (record { packet_type = data_packet; seq_nr = l.tx_seq_nr })
        ++ pack_data (record {
          seq_nr_ack = if is_ack then seq_sub l.rx_seq_nr_expected 1 else l.rx_seq_nr_expected;
          flags = if is_ack then flag_ack else 0;
          hdr_word_count = 0;
          data_byte_count = 0;
        }))
      l

-- `(n + 3) & ~3`
abbrev pub pad4 : ℕ → ℕ
pad4 n = (n + 3) / 4 * 4

unfoldable pub send_data : Bytes → Link → Link
send_data payload l =
    let padded_size = pad4 (length payload) in
    let packet =
      pack_head (record { packet_type = data_packet; seq_nr = l.tx_seq_nr })
      ++ (pack_data (record {
        seq_nr_ack = seq_sub l.rx_seq_nr_expected 1;
        flags = flag_fin;
        hdr_word_count = 0;
        data_byte_count = padded_size;
      })
          ++ ljust padded_size payload) in
    record l {
      tx_buffer = (l.tx_seq_nr, packet) ∷ [];
      sent = l.sent ++ (packet ∷ []);
      tx_seq_nr = seq_next l.tx_seq_nr;
    }

-- The packet of `_send_data_packet`.
unfoldable pub data_packet_bytes : Bytes → Bool → ℕ → Link → Bytes
data_packet_bytes payload fin hdr_size l =
    let padded_data_size = pad4 (length payload - hdr_size) in
    pack_head (record { packet_type = data_packet; seq_nr = l.tx_seq_nr })
    ++ (pack_data (record {
      seq_nr_ack = seq_sub l.rx_seq_nr_expected 1;
      flags = if fin then flag_fin else 0;
      hdr_word_count = hdr_size / 4;
      data_byte_count = padded_data_size;
    })
        ++ (take hdr_size payload ++ ljust padded_data_size (drop hdr_size payload)))

unfoldable pub send_data_packet : Bytes → Bool → ℕ → Link → Link
send_data_packet payload fin hdr_size l =
    let packet = data_packet_bytes payload fin hdr_size l in
    record l {
      tx_buffer = l.tx_buffer ++ ((l.tx_seq_nr, packet) ∷ []);
      sent = l.sent ++ (packet ∷ []);
      tx_seq_nr = seq_next l.tx_seq_nr;
    }

-- The buffered packets from `from_seq` on.
unfoldable pub to_retransmit : ℕ → List (ℕ × Bytes) → List Bytes
to_retransmit from_seq [] = []
to_retransmit from_seq ((seq, packet) ∷ buffer) =
    let rest = to_retransmit from_seq buffer in
    if ltb (seq_sub seq from_seq) 2048 then packet ∷ rest else rest

-- `last[0] == from_seq and now - last[1] < 0.05`
abbrev pub just_resent : Option (ℕ × ℕ) → ℕ → ℕ → Bool
just_resent none from_seq now = false
just_resent (some (seq, at)) from_seq now = seq == from_seq && ltb now (at + 50)

unfoldable pub retransmit_from : ℕ → Link → Link
retransmit_from from_seq l = if just_resent l.last_retx from_seq l.now then l else record l {
  last_retx = some (from_seq, l.now);
  sent = l.sent ++ to_retransmit from_seq l.tx_buffer;
}

-- `math.ceil(total_bytes / max_chunk)`
abbrev pub ceil_div : ℕ → ℕ → ℕ
ceil_div a b = (a + (b - 1)) / b

-- One round of the loop of `_optimal_chunk_size`: the best packets, chunk and alignment so far.
unfoldable pub better_chunk : ℕ → ℕ × ℕ → ℕ × ℕ × ℕ → ℕ × ℕ × ℕ
better_chunk total (max_chunk, alignment) (best_packets, best_chunk, best_align) =
    let packets = ceil_div total max_chunk in
    if ltb packets best_packets || (packets == best_packets && ltb best_align alignment)
    then (packets, max_chunk, alignment)
    else (best_packets, best_chunk, best_align)

unfoldable pub optimal_chunk_size : ℕ → ℕ
unfolding better_chunk
optimal_chunk_size total =
    let first = better_chunk total (1024, 512) (ceil_div total 1408, 1408, 128) in
    let second = better_chunk total (1280, 256) first in (better_chunk total (1408, 128) second).1

unfoldable pub is_resent_request : ℕ → ℕ → Link → Bool
is_resent_request seq_nr payload_size l =
    ltb 0 payload_size && seq_nr == seq_sub l.rx_seq_nr_expected 1

-- `[(seq, packet) for … if ((seq - acknowledged - 1) & 0xFFF) < 2048]`
unfoldable pub unacked : ℕ → List (ℕ × Bytes) → List (ℕ × Bytes)
unacked acknowledged [] = []
unacked acknowledged ((seq, packet) ∷ buffer) =
    let rest = unacked acknowledged buffer in
    if ltb (seq_sub seq (acknowledged + 1)) 2048 then (seq, packet) ∷ rest else rest

unfoldable pub acknowledge_tx : ℕ → Link → Bool × Link
acknowledge_tx acknowledged l =
    let advance = seq_sub acknowledged l.tx_seq_nr_acked in
    let sent = seq_sub l.tx_seq_nr (l.tx_seq_nr_acked + 1) in
    if leb 2048 advance || leb 2048 sent || ltb sent advance then (false, l) else (
      true,
      record l { tx_seq_nr_acked = acknowledged; tx_buffer = unacked acknowledged l.tx_buffer },
    )

unfoldable pub in_flight : Link → ℕ
in_flight l = seq_sub l.tx_seq_nr (l.tx_seq_nr_acked + 1)
