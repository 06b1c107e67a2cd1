-- ===== src/Lib.antt =====
-- Verification of the PS2 Servers: programs that serve game files to a PlayStation 2 over the
-- network. The Python servers are modelled, part by part, from their sources.
--
-- Parts. The UDPBD server (udpbd_server/udpbd_server.py) offers one disk image, raw drive or virtual
-- disk as a block device: a datagram is a request for information, for sectors to read, or for
-- sectors to write, whose data follows in further datagrams. The UDPFS server
-- (udpfs_server/udpfs_server.py) offers files and a block device over UDPRDMA, a transport with
-- sequence numbers, cumulative acknowledgements and retransmission, with one worker thread and one
-- session of state for each console. The SMB2 server (smb2_server/) offers directories as shares to
-- SMB clients: each TCP connection has a thread and a state of its own, and a message is one request
-- or a chain of them. The launcher starts these and the other servers.
--
-- Files.
--   Base, Bytes, Exec: names and lemmas shared by all parts; byte strings and the integer fields of
--     `struct`; methods that change an object and may raise, with the rules that carry invariants.
--   Udpbd/Wire: pack_header, unpack_header, header_cmd, pack_block_type, unpack_block_type.
--   Udpbd/Blocks: _set_block_shift and _set_block_shift_for_sectors.
--   Udpbd/Device: BlockDevice over an image file, and Device, the interface that the server uses it
--     by. A raw drive and the virtual exFAT disk have the same methods and stand behind the interface.
--   Udpbd/Server: UdpbdServer, its four handlers, and one turn of run with what it catches.
--     Server/Confine, Server/Reads and Server/Writes hold what is proved of it, Server/ImageLaws that
--     the image file has the laws that Confine asks of a device.
--   Udpfs/Wire: Header, DiscHeader and DataHeader.
--   Udpfs/Link: the transport fields of Session and the methods on them (_send_ack, _send_data,
--     _send_data_packet, _retransmit_from, _optimal_chunk_size, _is_resent_request, _acknowledge_tx,
--     _in_flight). Link/Window is about acknowledgements, Link/ChunkSize about the size of packets.
--   Udpfs/Link/Wait, Udpfs/Link/Send: _wait_for_window_ack and _wait_for_ack, then
--     _wait_for_final_ack, _send_raw_data and _send_raw_data_with_header, over the sequence of packets
--     and time-outs that reach the session. Link/Progress, Send/Window, Send/Ends
--     and Send/Silent are about them.
--   Udpfs/Link/Receive: _handle_data, up to the call of a request's handler; what it writes down for
--     the detection of stalls (rx_streaming, last_request, stall_reported) is left out.
--   Udpfs/Session, Udpfs/Writes: the handles and the write fields of Session; _reset_write,
--     _handle_write_req, _handle_write_data, _complete_write, _handle_bwrite_req, _complete_bwrite.
--     The children of Writes are named for what they prove.
--   Udpfs/Requests: _handle_close, _handle_read, _handle_bread, _handle_lseek, bd_read, their replies,
--     and _alloc_handle and _free_handle. A handler comes to a reply or raises; the reply is what it
--     sends last. The children are named for what they prove.
--   Compressed/Reader: CompressedFileWrapper of udpfs_server/compressed_iso/base.py, its cache, seek
--     and read; the decoding of a block is a parameter there. Reader/Cache, Geometry, Loop, Stretch,
--     Plain and Inspected hold lemmas, Reader/Session compares it with a plain file, Reader/Strict and
--     Reader/Stuck say when a read returns, Reader/Counted what it counts as decoded.
--   Compressed/Files, Compressed/Index, Compressed/Blocks: reads of the compressed file, and
--     indexed_header and indexed_block of limits.py, which are used for inspection.
--   Compressed/Cso, Compressed/Zso: the headers and blocks of cso.py and zso.py.
--   Compressed/Cuebin: TrackTable.layout and Layout.span_at of chd_cuebin.py, where ChdBinFile.read
--     finds a frame, and _swap_audio_bytes.
--   Compressed/Chd: _extract_user_data and _decompress_block of chd.py.
--   Compressed/Inspect, Compressed/Serve: a format together with the reader.
--   Smb2/Paths: Share.resolve, _inside and relative of smb2_paths.py. Paths/Clean is about the names
--     that pass, Paths/Confine and Paths/RoundTrip about resolve and relative.
--   Smb2/Wire, Smb2/Entries, Smb2/Statuses: smb2_wire.py, its framing and header, and the records
--     that describe files; the children of Wire are named for what they prove.
--   Smb2/State: Connection, Handle, and what the handlers share (add_handle, handle_from, _tree,
--     _writable, request_buffer). State/Buffers is about request_buffer.
--   Smb2/Create, Smb2/Files, Smb2/Listing, Smb2/Info, Smb2/Trees, Smb2/Ioctl: the handlers h_*.
--     Listing/Chain is about what a client reads of a listing.
--   Smb2/Credits, Smb2/Dispatch, Smb2/Compound: _grant_credits; _HANDLERS, _dispatch and
--     _signature_check; _dispatch_all and _serve_client. Dispatch/Signing is about signatures.
--   Smb2/Lawful: the invariant of a connection, which every handler keeps; Lawful/Serve puts the
--     handlers together.
--   Udpbd/Examples, Udpfs/Examples, Smb2/Examples and Compressed/Examples: runs at concrete inputs.
--
-- State and errors. A handler is a function from the object's fields to an outcome (a value or an
-- exception) and the fields afterwards, so what it wrote before it raised stays. What goes out
-- through a socket is collected in `sent`, oldest first, and every send is taken to succeed. Log
-- lines and statistics are left out. File objects and operating system calls are parameters
-- (Udpfs/Session's Files), except UDPBD's image file, which is the list of its bytes. The disk of the
-- SMB2 server answers from the changes that a connection made to it, which are collected.
--
-- Numbers. Sequence numbers are reduced modulo 4096 where the source masks them with 0xFFF, header
-- fields to their width where it masks them. `struct.pack` of a value that does not fit raises, and
-- so it does here. Times are whole milliseconds.
--
-- Fuel. The loop of `_handle_read` runs on the number of blocks left, and each round sends one block
-- or more, which is why that is enough. The loop of the UDPFS senders runs on a round for every byte
-- and every event, which Send/Ends proves to be enough. The loop of CompressedFileWrapper.read runs on
-- more rounds than the image has bytes: Reader/Plain and Reader/Strict prove that enough for the images
-- they are about, and Reader/Stuck gives those for which nothing is. The cutting of an SMB2 message into
-- requests runs on a round for each byte, and each request is a byte at least. All other recursion is on lists.
--
-- Not modelled. UDPFS: OPEN and the directory requests, discovery, the session table and path
-- resolution. zlib and lz4, which are parameters of the block readers, and what memory a claimed
-- size takes; libchdr is a parameter too. SMB2: SESSION_SETUP with NTLM, the signing algorithms and
-- the calls of the srvsvc pipe, which are parameters of Dispatch, and the answer to an SMB1
-- NEGOTIATE. CHD headers and metadata, the CUE sheet, the HTTP and SMB1 servers, the router status
-- and the launcher. The Go implementation under native/ps2servers-edge is a program of its own.
-- Threads, sockets and the desktop interface belong to their libraries.
pub mod Base
pub mod Bytes
pub mod Compressed
pub mod Exec
pub mod Smb2
pub mod Udpbd
pub mod Udpfs
