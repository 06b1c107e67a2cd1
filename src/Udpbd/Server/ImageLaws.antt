-- ===== src/Udpbd/Server/ImageLaws.antt =====
-- An image file is a device of the kind that the safety of the traffic is proved over.
use ps2_servers.Base.{ℕ, ◌+◌, ◌≤◌, ◌<◌, ◌≡◌, refl, ◌⊎◌, length, arith, Bool-cases, inl, inr}
use ps2_servers.Bytes.{Bytes}
use ps2_servers.Exec.{ok}
use ps2_servers.Udpbd.Device.{BlockDevice, image_device, seek, read, write}
use ps2_servers.Udpbd.Device.Image.{byte_at, overwrite_outside}
use ps2_servers.Udpbd.Server.Confine.{Confined}

pub write_outside :
    (bytes : Bytes) (d : BlockDevice) (i : ℕ)
    → (i < d.pos) ⊎ (d.pos + length bytes ≤ i)
    → byte_at (write bytes d).1.content i ≡ byte_at d.content i
unfolding write
write_outside bytes d i away = elim (Bool-cases d.read_only) [
  | inl e ↦ rw e
  | inr e ↦ rw e (overwrite_outside d.content d.pos bytes i away)
]

pub write_moves :
    (bytes : Bytes) (d : BlockDevice)
    → (d.pos ≤ (write bytes d).1.pos) × ((write bytes d).1.pos ≤ d.pos + length bytes)
unfolding write
write_moves bytes d = ground arith

pub write_ok : (bytes : Bytes) (d : BlockDevice) → (write bytes d).0 ≡ ok tt
unfolding write
write_ok bytes d = ground arith

abbrev pub image_confined : Confined image_device
unfolding seek read
image_confined = record {
  image = λ d. byte_at d.content;
  position = λ d. d.pos;
  image-seek = λ n c d i. refl;
  position-seek = λ n c d h. refl;
  image-read = λ n d i. refl;
  image-flush = λ d i. refl;
  position-flush = λ d. refl;
  image-write = write_outside;
  position-write = write_moves;
  write-OnlyOs = λ bytes d. rw (write_ok bytes d) tt;
  flush-OnlyOs = λ d. tt;
}
