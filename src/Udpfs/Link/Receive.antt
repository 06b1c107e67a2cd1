-- ===== src/Udpfs/Link/Receive.antt =====
-- `_handle_data` of udpfs_server/udpfs_server.py up to the request's own handler: which DATA
-- packets are requests to serve, and what the others do to the transport.
pub mod Once
use ps2_servers.Base.{
  ℕ, ◌+◌, ◌*◌, Bool, true, false, not, List, [], Option, none, some, length, take, drop, ltb, ◌==◌,
  if◌then◌else◌,
}
use ps2_servers.Bytes.{Bytes}
use ps2_servers.Udpfs.Wire.{data_packet, Header, unpack_head, DataHeader, unpack_data}
use ps2_servers.Udpfs.Link.{Link, seq_sub, seq_next, send_ack, retransmit_from, acknowledge_tx}
use ps2_servers.Udpfs.Link.Wait.{payload_size, has_ack, repeat_window}

-- `if data_hdr.flags & DataFlags.ACK: self._acknowledge_tx(…)`
unfoldable pub take_ack : DataHeader → Link → Link
take_ack d l = if has_ack d then (acknowledge_tx d.seq_nr_ack l).1 else l

-- A packet without payload: an ACK, which was taken, or a NACK.
unfoldable pub take_nack : DataHeader → Link → Link
take_nack d l =
    if has_ack d
    then l
    else retransmit_from d.seq_nr_ack (acknowledge_tx (seq_sub d.seq_nr_ack 1) l).1

-- The request is next: it is acknowledged at once.
unfoldable pub accept : Link → Link
accept l = send_ack true (record l { rx_seq_nr_expected = seq_next l.rx_seq_nr_expected })

-- The peer is taken to have started over.
unfoldable pub restart : Link → Link
restart l = record l {
  tx_seq_nr = 0;
  tx_buffer = [];
  tx_start_seq = 0;
  tx_seq_nr_acked = 0;
  rx_seq_nr_expected = 0;
}

-- The payload that is left for the handlers: a packet that was cut off behind its headers is taken,
-- but there is nothing to serve in it.
abbrev pub handed : Bytes → Option Bytes
handed payload = if length payload == 0 then none else some payload

-- A packet with payload, by its sequence number: the request for the handlers, or none.
unfoldable pub in_order : ℕ → Bytes → Link → Option Bytes × Link
in_order seq_nr payload l =
    if seq_nr == l.rx_seq_nr_expected
    then (handed payload, accept l)
    else if seq_nr == seq_sub l.rx_seq_nr_expected 1
    then (none, repeat_window (send_ack true l))
    else if seq_nr == 0
    then (handed payload, accept (restart l))
    else (none, send_ack false l)

unfoldable pub receive_data : Header → DataHeader → Bytes → Link → Option Bytes × Link
receive_data h d payload l =
    if payload_size d == 0
    then (none, take_nack d (take_ack d l))
    else in_order h.seq_nr payload (take_ack d l)

unfoldable pub receive : Bytes → Link → Option Bytes × Link
receive packet l = if ltb (length packet) 6 then (none, l) else elim (unpack_head packet) [
  | none ↦ (none, l)
  | some h ↦
      if not (h.packet_type == data_packet)
      then (none, l)
      else elim (unpack_data (take 4 (drop 2 packet))) [
        | none ↦ (none, l)
        | some d ↦ receive_data h d (take (payload_size d) (drop 6 packet)) l
      ]
]
