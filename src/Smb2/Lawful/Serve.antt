-- ===== src/Smb2/Lawful/Serve.antt =====
-- Whatever messages a client sends, the connection changes only what lies in the shares, and
-- nothing on a read-only server.
use mathlib.Core.Path.{subst}
use ps2_servers.Base.{
  ℕ, ◌≡◌, refl, sym, ◌∙◌, true, ◌&&◌, List, [], ◌∷◌, Option, none, some, All, if-cases,
  option-cases, ◌==◌, length,
}
use ps2_servers.Base.Tables.{Values}
use ps2_servers.Bytes.{Bytes}
use ps2_servers.Exec.{Outcome, ok, raise}
use ps2_servers.Smb2.Compound.{
  Request, Previous, requests_of, checked_reply, reply_to, effective, serve_one, serve_each,
  dispatch_all, and_then, serve_client, has_failed,
}
use ps2_servers.Smb2.Create.{has_bits}
use ps2_servers.Smb2.Dispatch.{
  Host, handler, dispatch, run_handler, caught, signature_check, flag_related,
}
use ps2_servers.Smb2.Lawful.{ChangeLawful, HandleLawful, TreeLawful, Lawful, Good}
use ps2_servers.Smb2.Lawful.Create.{h_create-Lawful}
use ps2_servers.Smb2.Lawful.Files.{h_close-Lawful, h_flush-Lawful, h_read-Lawful, h_write-Lawful}
use ps2_servers.Smb2.Lawful.Info.{h_query_directory-Lawful, h_query_info-Lawful, h_set_info-Lawful}
use ps2_servers.Smb2.Lawful.Trees.{
  h_negotiate-Lawful, h_logoff-Lawful, h_tree_connect-Lawful, h_tree_disconnect-Lawful,
  h_echo-Lawful, h_cancel-Lawful, h_ioctl-Lawful,
}
use ps2_servers.Smb2.State.{Connection, new_connection, Server, Reply, Handler}
use ps2_servers.Smb2.Wire.{Header}

-- The authentication leaves the trees, the handles and the disk alone.
abbrev pub SetsUpOnly : Host → Type 0
SetsUpOnly host =
    (hdr : Header) (body : Bytes) (conn : Connection)
    → ((host.session_setup hdr body conn).1.trees ≡ conn.trees)
      × ((host.session_setup hdr body conn).1.handles ≡ conn.handles)
      × ((host.session_setup hdr body conn).1.history ≡ conn.history)

module _ (host : Host) (srv : Server) (sets_up : SetsUpOnly host) where
  L : Connection → Type 0
  L = Lawful srv []

  session_setup-Lawful : (hdr : Header) (body : Bytes) → Good srv [] (host.session_setup hdr body)
  session_setup-Lawful hdr body s hs =
      let (trees, handles, history) = sets_up hdr body s in
      (
        record {
          trees = subst (Values (TreeLawful srv [])) (sym trees) hs.trees;
          handles = subst (Values (HandleLawful srv [])) (sym handles) hs.handles;
          changes = subst (All (ChangeLawful srv [])) (sym history) hs.changes;
          untouched = λ on. history ∙ hs.untouched on;
        },
        λ a e. tt,
      )

  -- What a handler, if there is one, does.
  Handled : Option Handler → Type 0
  Handled none = Unit {0}
  Handled (some h) = Good srv [] h

  handler-Lawful : (hdr : Header) (body : Bytes) → Handled (handler host srv hdr body)
  unfolding Handled handler
  handler-Lawful hdr body =
      if-cases Handled (hdr.command == 0) (λ h. h_negotiate-Lawful srv [] host.now body)
        (λ n0.
          if-cases Handled (hdr.command == 1) (λ h. session_setup-Lawful hdr body)
            (λ n1.
              if-cases Handled (hdr.command == 2) (λ h. h_logoff-Lawful srv [])
                (λ n2.
                  if-cases Handled (hdr.command == 3)
                    (λ h. h_tree_connect-Lawful srv [] host.decode host.casefold body)
                    (λ n3.
                      if-cases Handled (hdr.command == 4) (λ h. h_tree_disconnect-Lawful srv [] hdr)
                        (λ n4.
                          if-cases Handled (hdr.command == 5)
                            (λ h. h_create-Lawful host.disk host.decode srv [] host.lower hdr body)
                            (λ n5.
                              if-cases Handled (hdr.command == 6)
                                (λ h. h_close-Lawful host.disk srv [] hdr body)
                                (λ n6.
                                  if-cases Handled (hdr.command == 7)
                                    (λ h. h_flush-Lawful host.disk srv [] hdr body)
                                    (λ n7.
                                      if-cases Handled (hdr.command == 8)
                                        (λ h. h_read-Lawful host.disk srv [] hdr body)
                                        (λ n8.
                                          if-cases Handled (hdr.command == 9)
                                            (λ h.
                                              h_write-Lawful host.disk srv host.transact [] hdr
                                                body)
                                            (λ n9.
                                              if-cases Handled (hdr.command == 14)
                                                (λ h.
                                                  h_query_directory-Lawful host.disk host.decode
                                                    host.encode host.fnmatch srv [] hdr body)
                                                (λ n14.
                                                  if-cases Handled (hdr.command == 16)
                                                    (λ h.
                                                      h_query_info-Lawful host.disk host.usage
                                                        host.encode srv [] hdr body)
                                                    (λ n16.
                                                      if-cases Handled (hdr.command == 17)
                                                        (λ h.
                                                          h_set_info-Lawful host.disk host.decode
                                                            srv [] hdr body)
                                                        (λ n17.
                                                          if-cases Handled (hdr.command == 13)
                                                            (λ h. h_echo-Lawful srv [])
                                                            (λ n13.
                                                            if-cases Handled (hdr.command == 11)
                                                            (λ h.
                                                            h_ioctl-Lawful srv host.transact [] hdr
                                                            body)
                                                            (λ n11.
                                                            if-cases Handled (hdr.command == 12)
                                                            (λ h. h_cancel-Lawful srv [])
                                                            (λ n12. tt))))))))))))))))

  caught-Lawful : (r : Outcome Reply × Connection) → L r.1 → L (caught r).1
  caught-Lawful (ok reply, conn) h = h
  caught-Lawful (raise e, conn) h = h

  run_handler-Lawful :
      (o : Option Handler) → Handled o → (conn : Connection) → L conn → L (run_handler o conn).1
  unfolding Handled L
  run_handler-Lawful none h conn hs = hs
  run_handler-Lawful (some handle) h conn hs = caught-Lawful (handle conn) (h conn hs).0

  dispatch-Lawful :
      (hdr : Header) (body : Bytes) (conn : Connection)
      → L conn
      → L (dispatch host srv hdr body conn).1
  unfolding dispatch
  dispatch-Lawful hdr body conn hs =
      run_handler-Lawful (handler host srv hdr body) (handler-Lawful hdr body) conn hs

  checked_reply-Lawful :
      (hdr : Header) (request : Request) (conn : Connection)
      → L conn
      → L (checked_reply host srv hdr request conn).1
  unfolding checked_reply
  checked_reply-Lawful hdr request conn hs =
      option-cases (λ (r : Reply × Connection). L r.1)
        (signature_check host srv conn hdr request.asked_bytes)
        (dispatch-Lawful hdr request.asked_body conn hs) (λ status. hs)

  reply_to-Lawful :
      (previous : Previous) (hdr : Header) (request : Request) (conn : Connection)
      → L conn
      → L (reply_to host srv previous hdr request conn).1
  unfolding reply_to
  reply_to-Lawful none hdr request conn hs = checked_reply-Lawful hdr request conn hs
  reply_to-Lawful (some (before, status)) hdr request conn hs =
      if-cases (λ (r : Reply × Connection). L r.1)
        (has_bits hdr.flags (flag_related host srv) && has_failed status) (λ failed. hs)
        (λ alone. checked_reply-Lawful hdr request conn hs)

  -- Fields that the invariant is not about.
  credited :
      (conn : Connection) (credits : ℕ) (opened : Option Bytes)
      → L conn
      → L (record conn { credits = credits; compound_file_id = opened })
  unfolding L
  credited conn credits opened hs = record {
    trees = hs.trees;
    handles = hs.handles;
    changes = hs.changes;
    untouched = hs.untouched;
  }

  serve_one-Lawful :
      (previous : Previous) (request : Request) (conn : Connection)
      → L conn
      → L (serve_one host srv previous request conn).2
  unfolding serve_one
  serve_one-Lawful previous request conn hs =
      credited _ _ _ (
        reply_to-Lawful previous (effective host srv previous request.asked_header) request conn hs)

  serve_each-Lawful :
      (previous : Previous) (requests : List Request) (conn : Connection)
      → L conn
      → L (serve_each host srv previous requests conn).1
  unfolding serve_each
  serve_each-Lawful previous [] conn hs = hs
  serve_each-Lawful previous (request ∷ requests) conn hs =
      serve_each-Lawful (some (serve_one host srv previous request conn).0) requests
        (serve_one host srv previous request conn).2 (serve_one-Lawful previous request conn hs)

  -- A compound's file forgotten.
  forgotten : (conn : Connection) → L conn → L (record conn { compound_file_id = none })
  unfolding L
  forgotten conn hs = record {
    trees = hs.trees;
    handles = hs.handles;
    changes = hs.changes;
    untouched = hs.untouched;
  }

  dispatch_all-Lawful :
      (msg : Bytes) (conn : Connection) → L conn → L (dispatch_all host srv msg conn).1
  unfolding dispatch_all
  dispatch_all-Lawful msg conn hs =
      if-cases (λ (r : Outcome Bytes × Connection). L r.1) (requests_of msg).1
        (λ whole. forgotten _ after) (λ broken. after)
    where
      after :
          L
            (serve_each host srv none
              (requests_of msg).0
              (record conn { compound_file_id = none })).1
      after = serve_each-Lawful none (requests_of msg).0 _ (forgotten conn hs)

  and_then-Lawful :
      (r : Outcome Bytes × Connection) (more : Connection → List Bytes × Connection)
      → L r.1
      → ((conn : Connection) → L conn → L (more conn).1)
      → L (and_then host srv r more).1
  and_then-Lawful (raise e, conn) more hs h = hs
  and_then-Lawful (ok out, conn) more hs h =
      if-cases (λ (r : List Bytes × Connection). L r.1) conn.terminate (λ ends. hs)
        (λ goes_on. h conn hs)

  serve_client-Lawful :
      (messages : List Bytes) (conn : Connection)
      → L conn
      → L (serve_client host srv messages conn).1
  unfolding serve_client
  serve_client-Lawful [] conn hs = hs
  serve_client-Lawful (msg ∷ messages) conn hs =
      if-cases (λ (r : List Bytes × Connection). L r.1) (length msg == 0)
        (λ keep_alive. serve_client-Lawful messages conn hs)
        (λ message.
          and_then-Lawful (dispatch_all host srv msg conn) (serve_client host srv messages)
            (dispatch_all-Lawful msg conn hs) (serve_client-Lawful messages))

  new_connection-Lawful : L new_connection
  unfolding L
  new_connection-Lawful = record { trees = tt; handles = tt; changes = tt; untouched = λ on. refl }

  -- Whatever messages a client sends on a new connection, every call that changed the disk was to
  -- paths that are the root of one of the server's shares or below it (a rename's both paths, a
  -- write's as it was opened), if the authentication touches no tree, no handle and no disk.
  pub serve_client-Shared :
      (messages : List Bytes)
      → All (ChangeLawful srv []) (serve_client host srv messages new_connection).1.history
  unfolding L
  serve_client-Shared messages =
      (serve_client-Lawful messages new_connection new_connection-Lawful).changes

  -- Whatever messages a client sends on a new connection to a read-only server, no call that could
  -- change the disk is made, if the authentication makes none.
  pub serve_client-read_only :
      (messages : List Bytes)
      → srv.read_only ≡ true
      → (serve_client host srv messages new_connection).1.history ≡ []
  unfolding L
  serve_client-read_only messages on =
      (serve_client-Lawful messages new_connection new_connection-Lawful).untouched on
