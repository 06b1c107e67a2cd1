-- ===== src/Udpbd/Examples.antt =====
-- The theorems about the UDPBD server at concrete inputs, and runs of its functions.
use ps2_servers.Base.{
  ◌*◌, ◌≤◌, ◌<◌, ◌≡◌, refl, some, false, true, List, [], ◌∷◌, ◌++◌, map, length, take, replicate,
  arith, inl, inr, ◌%◌, All,
}
use ps2_servers.Bytes.{Bytes}
use ps2_servers.Exec.{ok}
use ps2_servers.Udpbd.Wire.{pack_header, unpack_header, header_cmd}
use ps2_servers.Udpbd.Wire.RoundTrip.{unpack_header-pack_header}
use ps2_servers.Udpbd.Blocks.{shift_for_sectors, ceil_div, sizing_of}
use ps2_servers.Udpbd.Blocks.Fewest.{shift_for_sectors_fewest, packets_with, IsConsistent}
use ps2_servers.Udpbd.Device.{BlockDevice, image_device, overwrite, seek, read}
use ps2_servers.Udpbd.Device.Image.{byte_at, bytes_from}
use ps2_servers.Udpbd.Server.{Addr, start, serve, serve_one, recv_buflen, write_done}
use ps2_servers.Udpbd.Server.Confine.{serve_confined, Spares}
use ps2_servers.Udpbd.Server.ImageLaws.{image_confined}
use ps2_servers.Udpbd.Server.Reads.{serve_one-read, read_request, payloads, Numbered}
use ps2_servers.Udpbd.Server.Writes.{serve-write, write_request, Chunk, IsChunk, chunk_arrivals}

abbrev console : Addr
console = (192, 1024)

abbrev small_image : BlockDevice
small_image = record { content = 5 ∷ 6 ∷ 7 ∷ 8 ∷ []; pos = 0; size = 4; read_only = false }

-- A CMD_WRITE of sector 1, and a CMD_WRITE_RDMA of one 4-byte block under another command id.
abbrev traffic : List (Addr × Bytes)
traffic =
    (console, 0x04 ∷ 0 ∷ 1 ∷ 0 ∷ 0 ∷ 0 ∷ 1 ∷ 0 ∷ [])
    ∷ (console, 0x25 ∷ 1 ∷ 0x10 ∷ 0 ∷ 0 ∷ 0 ∷ 9 ∷ 9 ∷ 9 ∷ 9 ∷ [])
    ∷ []

traffic-Spares : All (λ (a : Addr × Bytes). Spares 3 (take recv_buflen a.1)) traffic
unfolding header_cmd
traffic-Spares = (λ sector count cmd nr nc. inl (ground arith), (λ sector count cmd nr nc. cc, tt))

serve_confined_example :
    byte_at (serve image_device traffic (start small_image)).1.dev.content 3 ≡ 8
unfolding seek read
serve_confined_example =
    serve_confined image_device image_confined 3 (start small_image) traffic refl traffic-Spares

shift_for_sectors_fewest_example :
    (packets_with (shift_for_sectors 5) 5 ≡ ceil_div (5 * 512) 1440)
    × (packets_with (shift_for_sectors 5) 5 ≤ packets_with 7 5)
    × (shift_for_sectors 5 < 7 → packets_with (shift_for_sectors 5) 5 < packets_with 7 5)
shift_for_sectors_fewest_example = shift_for_sectors_fewest 5 7 (omega arith) (omega arith)

five_sectors : shift_for_sectors 5 ≡ 6
unfolding shift_for_sectors
five_sectors = refl

unpack_header-pack_header_example :
    (unpack_header (pack_header 0x22 9 300 ++ (1 ∷ [])) ≡ some (2, 1, 44))
    × (header_cmd (pack_header 0x22 9 300 ++ (1 ∷ [])) ≡ some 2)
unpack_header-pack_header_example = unpack_header-pack_header 0x22 9 300 (1 ∷ [])

start-IsConsistent : IsConsistent (start small_image).sizing
unfolding sizing_of
start-IsConsistent = record { known = inr (inl refl); fields = refl }

-- A read of sector 0: four bytes of the image, and zeros behind its end.
serve_one-read_example :
    let out = serve_one image_device console (read_request 1 0 0 1) (start small_image) in
    (out.0 ≡ ok tt)
    × (out.1.dev.content ≡ 5 ∷ 6 ∷ 7 ∷ 8 ∷ [])
    × (out.1.write_left ≡ 0)
    × (packets : List Bytes) × (out.1.sent ≡ [] ++ map (λ p. (console, p)) packets)
    × (length packets ≡ ceil_div (1 * 512) 1440)
    × Numbered (1 % 8) 1 packets
    × (payloads packets ≡ bytes_from (5 ∷ 6 ∷ 7 ∷ 8 ∷ []) (0 * 512) (1 * 512))
serve_one-read_example =
    serve_one-read console 1 0 0 1 (start small_image) start-IsConsistent (omega arith)
      (omega arith)

-- A whole sector in one packet.
abbrev sector_chunk : Chunk
sector_chunk = record { cmdpkt = 1; shift = 7; blocks = 1; bytes = replicate 512 170 }

sector_chunk-IsChunk : IsChunk sector_chunk
sector_chunk-IsChunk = record {
  shift = omega arith;
  blocks = omega arith;
  size = refl;
  some_byte = omega arith;
  fits = omega arith;
}

serve-write_example :
    let out =
      serve image_device
        ((console, write_request 1 0 0 1) ∷ chunk_arrivals console 1 (sector_chunk ∷ []))
        (start small_image) in
    (out.0 ≡ ok tt)
    × (out.1.dev.content ≡ overwrite (5 ∷ 6 ∷ 7 ∷ 8 ∷ []) 0 (replicate 512 170))
    × (out.1.write_left ≡ 0)
    × (out.1.sent ≡ (console, write_done 1 true) ∷ [])
serve-write_example =
    serve-write console 1 0 0 1 sector_chunk [] (start small_image) (omega arith) (omega arith)
      (sector_chunk-IsChunk, tt) refl
