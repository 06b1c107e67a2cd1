-- ===== src/Smb2/Lawful/Trees.antt =====
-- The other handlers keep to the shares, and the trees that a client connects are the server's.
use ps2_servers.Base.{
  ℕ, ◌≡◌, sym, ap, Bool, true, false, true≢false, ◌&&◌, ◌⊎◌, inl, inr, List, [], ◌∷◌, Option, none,
  some, if-cases, ◌==◌, ltb, length,
}
use ps2_servers.Base.Tables.{put-Values, remove-Values}
use ps2_servers.Base.Texts.{Text, same_text, split, upper}
use ps2_servers.Bytes.{Bytes}
use ps2_servers.Bytes.Struct.{read_le}
use ps2_servers.Exec.{Exec, modify}
use ps2_servers.Exec.Keeps.{
  guard-Ensures, gets-Ensures, pure-Ensures, throw-Ensures, modify-Ensures, demand-Ensures,
}
use ps2_servers.Exec.Steps.{>>=-Ensures, >>-Ensures}
use ps2_servers.Smb2.Create.{rstrip}
use ps2_servers.Smb2.Files.{Transact}
use ps2_servers.Smb2.Ioctl.{
  validate_negotiate_info, cut_answer, transceive, controlled, fsctl_validate_negotiate_info,
  fsctl_pipe_transceive, h_ioctl,
}
use ps2_servers.Smb2.Lawful.{
  IsServed, HandleLawful, TreeLawful, Lawful, Any, Good, update-Lawful, tree_of-Lawful,
  require_session-Lawful, handle_from-Lawful, lifted-Lawful, answer-Lawful,
}
use ps2_servers.Smb2.Lawful.Files.{piped, transacted-Lawful}
use ps2_servers.Smb2.Paths.{Share, backslash}
use ps2_servers.Smb2.State.{
  History, Tree, disk_tree, ipc_tree, Handle, Pipe, Connection, Server, Reply, close_all,
}
use ps2_servers.Smb2.Trees.{
  h_negotiate, h_logoff, find_share, or_else, share_named, add_tree, connect_ipc, connect_disk,
  h_tree_connect, h_tree_disconnect, h_echo, h_cancel, empty_reply, last_part, ipc_name,
}
use ps2_servers.Smb2.Wire.{Header}

some_same : {A : Type 0} {a b : A} → some a ≡ some b → a ≡ b
some_same {a} e = ap (λ o. elim o [ none ↦ a | some x ↦ x ]) e

none_some : {A B : Type 0} {a : A} → none ≡ some a → B
none_some e = absurd (true≢false (ap (λ o. elim o [ none ↦ true | some x ↦ false ]) e))

find_share-IsServed :
    (matches : Text → Bool) (shares : List (Text × Share)) (share : Share)
    → find_share matches shares ≡ some share
    → IsServed share shares
find_share-IsServed matches [] share e = none_some e
find_share-IsServed matches ((name, other) ∷ shares) share e =
    if-cases (λ (o : Option Share). (o ≡ some share) → IsServed share ((name, other) ∷ shares))
      (matches name) (λ this found. inl (sym (some_same found)))
      (λ later found. inr (find_share-IsServed matches shares share found)) e

or_else-cases :
    {A : Type 0} (o p : Option A) (a : A) → or_else o p ≡ some a → (o ≡ some a) ⊎ (p ≡ some a)
or_else-cases none p a e = inr e
or_else-cases (some b) p a e = inl e

share_named-IsServed :
    (casefold : Text → Text) (srv : Server) (name : Text) (share : Share)
    → share_named casefold srv name ≡ some share
    → IsServed share srv.shares
unfolding share_named
share_named-IsServed casefold srv name share e =
    elim (or_else-cases (find_share exactly srv.shares) (find_share folded srv.shares) share e) [
      | inl found ↦ find_share-IsServed exactly srv.shares share found
      | inr found ↦ find_share-IsServed folded srv.shares share found
    ]
  where
    exactly : Text → Bool
    exactly key = same_text key name

    folded : Text → Bool
    folded key = same_text (casefold key) (casefold name)

module _ (srv : Server) (start : History) where
  empty_reply-Lawful : Good srv start empty_reply
  empty_reply-Lawful = answer-Lawful srv start _ _

  -- A change of fields that the invariant is not about.
  aside :
      (f : Connection → Connection)
      → ((s : Connection) → Lawful srv start s → Lawful srv start (f s))
      → Good srv start (modify f)
  aside f kept = modify-Ensures (Lawful srv start) f kept

  pub h_negotiate-Lawful : (now : ℕ) (body : Bytes) → Good srv start (h_negotiate srv now body)
  unfolding h_negotiate
  h_negotiate-Lawful now body =
      let L = Lawful srv start in
      >>-Ensures L (guard-Ensures L _ _) (λ u h0.
        >>-Ensures L
          (aside _ (λ s hs. record {
            trees = hs.trees;
            handles = hs.handles;
            changes = hs.changes;
            untouched = hs.untouched;
          }))
          (λ v h1. >>=-Ensures L (demand-Ensures L _ _) (λ dialect h2.
            >>-Ensures L
              (aside _ (λ s hs. record {
                trees = hs.trees;
                handles = hs.handles;
                changes = hs.changes;
                untouched = hs.untouched;
              }))
              (λ w h3.
                >>=-Ensures L (lifted-Lawful srv start _) (λ out h4. pure-Ensures L _ _ tt)))))

  pub h_logoff-Lawful : Good srv start h_logoff
  unfolding h_logoff close_all
  h_logoff-Lawful =
      let L = Lawful srv start in
      >>-Ensures L
        (aside _ (λ s hs. record {
          trees = hs.trees;
          handles = tt;
          changes = hs.changes;
          untouched = hs.untouched;
        }))
        (λ u h0.
          >>-Ensures L
            (aside _ (λ s hs. record {
              trees = tt;
              handles = hs.handles;
              changes = hs.changes;
              untouched = hs.untouched;
            }))
            (λ v h1. empty_reply-Lawful))

  add_tree-Lawful : (tree : Tree) → TreeLawful srv start tree → Good srv start (add_tree tree)
  unfolding add_tree
  add_tree-Lawful tree served s hs = (
    record {
      trees = put-Values (TreeLawful srv start) s.next_tree tree s.trees served hs.trees;
      handles = hs.handles;
      changes = hs.changes;
      untouched = hs.untouched;
    },
    λ a e. tt,
  )

  pub h_tree_connect-Lawful :
      (decode : Bytes → Text) (casefold : Text → Text) (body : Bytes)
      → Good srv start (h_tree_connect decode casefold srv body)
  unfolding h_tree_connect connect_ipc connect_disk
  h_tree_connect-Lawful decode casefold body =
      >>-Ensures L (require_session-Lawful srv start) (λ u h0.
        >>-Ensures L (guard-Ensures L _ _) (λ v h1.
          >>=-Ensures L (lifted-Lawful srv start _) (λ raw_path h2.
            if-cases (λ (m : Exec Connection Reply). Good srv start m)
              (same_text (upper (named raw_path)) ipc_name)
              (λ ipc.
                >>=-Ensures L (add_tree-Lawful ipc_tree tt)
                  (λ tree_id h3. answer-Lawful srv start _ _))
              (λ disk. >>=-Ensures L (demand-Ensures L _ _) (λ share found.
                >>=-Ensures L
                  (add_tree-Lawful (disk_tree share)
                    (share_named-IsServed casefold srv _ share found))
                  (λ tree_id h3. answer-Lawful srv start _ _))))))
    where
      L : Connection → Type 0
      L = Lawful srv start

      named : Bytes → Text
      named raw_path = last_part (split backslash (rstrip backslash (decode raw_path)))

  pub h_tree_disconnect-Lawful : (hdr : Header) → Good srv start (h_tree_disconnect hdr)
  unfolding h_tree_disconnect
  h_tree_disconnect-Lawful hdr =
      >>-Ensures (Lawful srv start)
        (aside _ (λ s hs. record {
          trees = remove-Values (TreeLawful srv start) hdr.tree_id s.trees hs.trees;
          handles = hs.handles;
          changes = hs.changes;
          untouched = hs.untouched;
        }))
        (λ u h0. empty_reply-Lawful)

  pub h_echo-Lawful : Good srv start h_echo
  unfolding h_echo
  h_echo-Lawful = empty_reply-Lawful

  pub h_cancel-Lawful : Good srv start h_cancel
  unfolding h_cancel
  h_cancel-Lawful = pure-Ensures (Lawful srv start) _ _ tt

  validate-Lawful : (payload : Bytes) → Good srv start (validate_negotiate_info srv payload)
  unfolding validate_negotiate_info
  validate-Lawful payload =
      let L = Lawful srv start in
      >>-Ensures L (guard-Ensures L _ _) (λ u h0.
        >>=-Ensures L (gets-Ensures L _ (Any srv start) (λ s hs. tt)) (λ claims h1.
          >>-Ensures L
            (aside _ (λ s hs. record {
              trees = hs.trees;
              handles = hs.handles;
              changes = hs.changes;
              untouched = hs.untouched;
            }))
            (λ v h2. >>-Ensures L (guard-Ensures L _ _) (λ w h3.
              >>=-Ensures L (gets-Ensures L _ (Any srv start) (λ s hs. tt))
                (λ dialect h4. lifted-Lawful srv start _)))))

module _ (srv : Server) (transact : Transact) (start : History) where
  cut_answer-Lawful :
      (h : Handle) (answer : Bytes × Pipe) (max_out : ℕ)
      → HandleLawful srv start h
      → Good srv start (cut_answer srv transact h answer max_out)
  unfolding cut_answer
  cut_answer-Lawful h answer max_out lawful =
      if-cases (λ (m : Exec Connection (ℕ × Bytes)). Good srv start m)
        (ltb 0 max_out && ltb max_out (length answer.0))
        (λ long.
          >>-Ensures (Lawful srv start) (update-Lawful srv start _ (piped srv start h _ lawful))
            (λ u h0. pure-Ensures (Lawful srv start) _ _ tt))
        (λ short. pure-Ensures (Lawful srv start) _ _ tt)

  transceive-Lawful : (body payload : Bytes) → Good srv start (transceive srv transact body payload)
  unfolding transceive
  transceive-Lawful body payload =
      let L = Lawful srv start in
      >>=-Ensures L (handle_from-Lawful srv start _) (λ h lawful.
        >>=-Ensures L (lifted-Lawful srv start _) (λ pipe h0.
          >>=-Ensures L (transacted-Lawful srv start h _ lawful)
            (λ answer h1. cut_answer-Lawful h answer _ lawful)))

  controlled-Lawful : (body payload : Bytes) → Good srv start (controlled srv transact body payload)
  unfolding controlled
  controlled-Lawful body payload =
      if-cases (λ (m : Exec Connection (ℕ × Bytes)). Good srv start m)
        (read_le 4 4 body == fsctl_validate_negotiate_info)
        (λ validate.
          >>=-Ensures (Lawful srv start) (validate-Lawful srv start payload)
            (λ out h. pure-Ensures (Lawful srv start) _ _ tt))
        (λ other.
          if-cases (λ (m : Exec Connection (ℕ × Bytes)). Good srv start m)
            (read_le 4 4 body == fsctl_pipe_transceive) (λ pipe. transceive-Lawful body payload)
            (λ neither. throw-Ensures (Lawful srv start) _ _))

  pub h_ioctl-Lawful :
      (hdr : Header) (body : Bytes) → Good srv start (h_ioctl srv transact hdr body)
  unfolding h_ioctl
  h_ioctl-Lawful hdr body =
      let L = Lawful srv start in
      >>-Ensures L (tree_of-Lawful srv start hdr true) (λ tree h0.
        >>-Ensures L (guard-Ensures L _ _) (λ u h1.
          >>=-Ensures L (lifted-Lawful srv start _) (λ payload h2.
            >>=-Ensures L (controlled-Lawful body payload)
              (λ result h3. answer-Lawful srv start _ _))))
