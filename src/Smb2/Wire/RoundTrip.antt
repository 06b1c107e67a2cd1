-- ===== src/Smb2/Wire/RoundTrip.antt =====
-- A header is read back as it was packed.
use ps2_servers.Base.{
  ℕ, ◌≤◌, ◌≡◌, refl, ap, bit_or, ◌++◌, some, length, length-append, le→ltb, arith,
}
use ps2_servers.Base.Texts.{same_text}
use ps2_servers.Bytes.{Bytes}
use ps2_servers.Bytes.Struct.{pack-Reads, length-pack}
use ps2_servers.Exec.{ok}
use ps2_servers.Smb2.Wire.{
  Header, header_size, parse_header, pack_header, flag_server_to_redir, smb2_magic,
}

-- The header that a reply with these arguments has: no credit charge, no signature yet, and the
-- bit of a reply among the flags.
abbrev pub replying : ℕ → ℕ → ℕ → ℕ → ℕ → ℕ → ℕ → ℕ → Header
replying command status message_id tree_id session_id credits flags next_command = record {
  credit_charge = 0;
  status = status;
  command = command;
  credits = credits;
  flags = bit_or flags flag_server_to_redir;
  next_command = next_command;
  message_id = message_id;
  tree_id = tree_id;
  session_id = session_id;
  signature = 0;
}

-- A header that could be packed is 64 bytes, and with any body behind it parses to its arguments,
-- the reply bit added to the flags.
pub parse_header-pack_header :
    (command status message_id tree_id session_id credits flags next_command : ℕ) (out body : Bytes)
    → pack_header command status message_id tree_id session_id credits flags next_command ≡ ok out
    → (length out ≡ header_size)
      × (parse_header (out ++ body)
          ≡ some (replying command status message_id tree_id session_id credits flags next_command))
unfolding pack_header parse_header
parse_header-pack_header command status message_id tree_id session_id credits flags next_command out
      body h =
    let (
      magic,
      (
        ignored,
        (charge, (st, (cmd, (cred, (fl, (next, (mid, (res, (tree, (sess, (sig, done))))))))))),
      ),
    ) =
      pack-Reads _ out body h in
    let size : length out ≡ header_size = length-pack _ out h in
    let long : header_size ≤ length (out ++ body) = omega (arith, size, length-append out body) in
    (
      size,
      rw (le→ltb (length (out ++ body)) header_size long, ap (λ b. same_text b smb2_magic) magic)
          (rw (charge, st, cmd, cred, fl, next, mid, tree, sess, sig) refl),
    )
