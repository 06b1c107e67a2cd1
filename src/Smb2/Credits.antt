-- ===== src/Smb2/Credits.antt =====
-- smb2_server/smb2_server.py: _grant_credits.
use ps2_servers.Base.{ℕ, ◌+◌, ◌-◌, min, max, List, [], ◌∷◌, ◌==◌, if◌then◌else◌}
use ps2_servers.Smb2.Wire.{Header}

abbrev pub credit_limit : ℕ
credit_limit = 512

abbrev pub cmd_negotiate : ℕ
cmd_negotiate = 0

-- What a request spends of the credits that a client holds; a NEGOTIATE spends none.
abbrev pub spent : Header → ℕ → ℕ
spent hdr credits =
    if hdr.command == cmd_negotiate then credits else credits - max 1 hdr.credit_charge

-- The grant, and the credits that the client then holds.
unfoldable pub grant_credits : Header → ℕ → ℕ × ℕ
grant_credits hdr credits =
    let left = spent hdr credits in
    let grant = max 1 (min (max 1 hdr.credits) (credit_limit - left)) in (grant, left + grant)

-- What a client and the server count over a sequence of requests: the client takes off what each
-- request costs and adds what the reply's header grants; the server keeps its own `credits`.
abbrev pub counts : List Header → ℕ → ℕ → ℕ × ℕ
counts [] client server = (client, server)
counts (hdr ∷ requests) client server =
    let granted = grant_credits hdr server in
    counts requests (spent hdr client + granted.0) granted.1
