-- ===== src/Udpbd/Device.antt =====
-- The block device behind the UDPBD server: what the server asks of one, and the image file of
-- udpbd_server/udpbd_server.py (`BlockDevice`). The file is a byte string with a position, as an
-- unbuffered Python file on a regular file behaves; opening it is not modelled.
pub mod Image
use ps2_servers.Base.{
  ℕ, ◌+◌, ◌-◌, ◌*◌, ◌/◌, Bool, true, false, List, [], ◌∷◌, ◌++◌, length, take, drop, if◌then◌else◌,
}
use ps2_servers.Bytes.{Bytes, ljust}
use ps2_servers.Exec.{Exec, ok, pure}
use ps2_servers.Udpbd.Wire.{sector_size}

-- What `UdpbdServer` calls. `seek` takes the sector count too, which only a raw device looks at;
-- `flush` is the call that `hasattr` guards, and does nothing on a device without it.
pub record Device (D : Type 0) : Type 0 where
  pub is_raw : D → Bool
  pub is_read_only : D → Bool
  pub sectors : D → ℕ
  pub seek : ℕ → ℕ → Exec D (Unit {0})
  pub read : ℕ → Exec D Bytes
  pub write : Bytes → Exec D (Unit {0})
  pub flush : Exec D (Unit {0})

-- `size` is taken when the image is opened, and does not follow later writes.
pub record BlockDevice : Type 0 where
  pub content : Bytes
  pub pos : ℕ
  pub size : ℕ
  pub read_only : Bool

-- What a file holds after `bytes` are written at `pos`; a gap past the end is filled with zeros.
abbrev pub overwrite : Bytes → ℕ → Bytes → Bytes
overwrite content pos [] = content
overwrite content pos (b ∷ bytes) =
    ljust pos (take pos content) ++ ((b ∷ bytes) ++ drop (pos + length (b ∷ bytes)) content)

unfoldable pub sector_count : BlockDevice → ℕ
sector_count d = d.size / sector_size

unfoldable pub seek : ℕ → Exec BlockDevice (Unit {0})
seek sector d = (ok tt, record d { pos = sector * sector_size })

unfoldable pub read : ℕ → Exec BlockDevice Bytes
read size d =
    let got = take size (drop d.pos d.content) in
    (ok (ljust size got), record d { pos = d.pos + length got })

unfoldable pub write : Bytes → Exec BlockDevice (Unit {0})
write bytes d =
    if d.read_only
    then (ok tt, d)
    else (ok tt, record d { content = overwrite d.content d.pos bytes; pos = d.pos + length bytes })

abbrev pub image_device : Device BlockDevice
image_device = record {
  is_raw = λ d. false;
  is_read_only = λ d. d.read_only;
  sectors = sector_count;
  seek = λ sector count. seek sector;
  read = read;
  write = write;
  flush = pure tt;
}
