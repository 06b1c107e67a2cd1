-- ===== src/Udpfs/Requests/Replies.antt =====
-- Sending a reply to a console that has fallen silent comes to its end.
use ps2_servers.Base.{Bool, ◌≡◌, ◌⊎◌, List, Option, some}
use ps2_servers.Bytes.{Bytes}
use ps2_servers.Exec.{Fault, Outcome, ok, raise}
use ps2_servers.Udpfs.Link.{Link}
use ps2_servers.Udpfs.Link.Wait.{Event, Waited}

-- The packing failed, or the reply was sent with a result; it does not wait any more.
abbrev pub IsOver : Option (Outcome Waited) → Type 0
IsOver o =
    ((e : Fault) × (o ≡ some (raise e)))
    ⊎ ((result : Bool) × (left : List Event × Link) × (o ≡ some (ok (some result, left))))
