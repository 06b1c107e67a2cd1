-- ===== src/Smb2/Lawful/Info.antt =====
-- QUERY_DIRECTORY, QUERY_INFO and SET_INFO keep to the shares.
use ps2_servers.Base.{
  ℕ, ◌≡◌, sym, ◌∙◌, Bool, true, false, true≢false, ◌&&◌, ◌||◌, List, Option, none, some, if-cases,
  ◌==◌, leb, ltb, length,
}
use ps2_servers.Base.Texts.{Text}
use ps2_servers.Bytes.{Bytes}
use ps2_servers.Exec.{Exec, Outcome}
use ps2_servers.Exec.Keeps.{Ensures, guard-Ensures, gets-Ensures, pure-Ensures, throw-Ensures}
use ps2_servers.Exec.Steps.{>>=-Ensures, >>-Ensures}
use ps2_servers.Smb2.Create.{has_bits}
use ps2_servers.Smb2.Entries.{Usage}
use ps2_servers.Smb2.Info.{
  info_blob, h_query_info, set_reply, set_end_of_file, collides, rename_in, set_name, set_file_info,
  h_set_info,
}
use ps2_servers.Smb2.Lawful.{
  IsShared, HandleLawful, TreeLawful, Lawful, Any, Good, update-Lawful, perform-Lawful,
  tree_of-Lawful, require_writable-Lawful, handle_from-Lawful, file_path-Lawful, lifted-Lawful,
  answer-Lawful,
}
use ps2_servers.Smb2.Lawful.Create.{resolved-Lawful}
use ps2_servers.Smb2.Lawful.Files.{open_file-Lawful}
use ps2_servers.Smb2.Listing.{noted, scan, list_directory, list_on, h_query_directory}
use ps2_servers.Smb2.Paths.{FilePath}
use ps2_servers.Smb2.State.{
  History, Disk, resize, replace, Tree, disk_tree, ipc_tree, Handle, Connection, Server, Reply,
}
use ps2_servers.Smb2.Wire.{Header}

module _ (srv : Server) (start : History) where
  -- A handle whose listing or cursor moved.
  scanned :
      (h : Handle) (listing : Option (List Text)) (cursor : ℕ)
      → HandleLawful srv start h
      → HandleLawful srv start (record h { listing = listing; cursor = cursor })
  scanned h listing cursor lawful = record {
    tree = lawful.tree;
    located = lawful.located;
    opened = lawful.opened;
    kept = lawful.kept;
  }

module _ (disk : Disk) (decode : Bytes → Text) (encode : Text → Outcome Bytes)
    (fnmatch : Text → Text → Bool) (srv : Server) (start : History) where
  noted-Lawful :
      (h : Handle) (r : Outcome (List Bytes) × ℕ)
      → HandleLawful srv start h
      → Good srv start (noted disk decode encode fnmatch srv h r)
  noted-Lawful h (o, cursor) lawful =
      >>-Ensures (Lawful srv start)
        (update-Lawful srv start _ (scanned srv start h _ cursor lawful))
        (λ u h1. lifted-Lawful srv start o)

  scan-Lawful :
      (h : Handle) (flags : ℕ) (pattern : Text)
      → HandleLawful srv start h
      → Ensures
          (Lawful srv start)
          (scan disk decode encode fnmatch srv h flags pattern)
          (HandleLawful srv start)
  unfolding scan
  scan-Lawful h flags pattern lawful =
      if-cases
        (λ (m : Exec Connection Handle). Ensures (Lawful srv start) m (HandleLawful srv start))
        ((elim h.listing [ none ↦ true | some names ↦ false ]) || has_bits flags 1)
        (λ again.
          >>=-Ensures (Lawful srv start)
            (gets-Ensures (Lawful srv start) _ (Any srv start) (λ s hs. tt))
            (λ now h0. >>=-Ensures (Lawful srv start) (lifted-Lawful srv start _) (λ names h1.
              >>-Ensures (Lawful srv start)
                (update-Lawful srv start _ (scanned srv start h (some names) 0 lawful))
                (λ u h2.
                  pure-Ensures (Lawful srv start) _ (HandleLawful srv start)
                    (scanned srv start h (some names) 0 lawful)))))
        (λ walked. pure-Ensures (Lawful srv start) h (HandleLawful srv start) lawful)

  list_on-Lawful :
      (tree : Tree) (h : Handle) (body : Bytes)
      → HandleLawful srv start h
      → Good srv start (list_on disk decode encode fnmatch srv tree h body)
  unfolding list_directory
  list_on-Lawful ipc_tree h body lawful = throw-Ensures (Lawful srv start) _ _
  list_on-Lawful (disk_tree share) h body lawful =
      let L = Lawful srv start in
      >>=-Ensures L (lifted-Lawful srv start _) (λ pattern h0.
        >>-Ensures L (guard-Ensures L _ _) (λ u h1.
          >>=-Ensures L (scan-Lawful h _ _ lawful) (λ k still.
            >>=-Ensures L (gets-Ensures L _ (Any srv start) (λ s hs. tt)) (λ now h2.
              >>=-Ensures L (noted-Lawful k _ still) (λ entries h3.
                >>-Ensures L (guard-Ensures L _ _) (λ v h4. answer-Lawful srv start _ _))))))

  pub h_query_directory-Lawful :
      (hdr : Header) (body : Bytes)
      → Good srv start (h_query_directory disk decode encode fnmatch srv hdr body)
  unfolding h_query_directory
  h_query_directory-Lawful hdr body =
      let L = Lawful srv start in
      >>=-Ensures L (tree_of-Lawful srv start hdr false) (λ tree h0.
        >>-Ensures L (guard-Ensures L _ _) (λ u h1.
          >>=-Ensures L (handle_from-Lawful srv start _)
            (λ h lawful. list_on-Lawful tree h body lawful)))

module _ (disk : Disk) (usage : History → FilePath → Usage) (encode : Text → Outcome Bytes)
    (srv : Server) (start : History) where
  info_blob-Lawful :
      (tree : Tree) (h : Handle) (info_type info_class : ℕ)
      → HandleLawful srv start h
      → Good srv start (info_blob disk usage encode srv tree h info_type info_class)
  unfolding info_blob
  info_blob-Lawful tree h info_type info_class lawful =
      if-cases (λ (m : Exec Connection (Option Bytes)). Good srv start m) (info_type == 1)
        (λ file. >>=-Ensures L (file_path-Lawful srv start h lawful) (λ path shared.
          >>=-Ensures L (gets-Ensures L _ (Any srv start) (λ s hs. tt)) (λ now h0.
            >>=-Ensures L (lifted-Lawful srv start _) (λ st h1.
              >>=-Ensures L (lifted-Lawful srv start _) (λ name h2. lifted-Lawful srv start _)))))
        (λ other.
          if-cases (λ (m : Exec Connection (Option Bytes)). Good srv start m) (info_type == 2)
            (λ volume.
              >>=-Ensures L (gets-Ensures L _ (Any srv start) (λ s hs. tt))
                (λ now h0. lifted-Lawful srv start _))
            (λ neither. throw-Ensures L _ _))
    where
      L : Connection → Type 0
      L = Lawful srv start

  pub h_query_info-Lawful :
      (hdr : Header) (body : Bytes) → Good srv start (h_query_info disk usage encode srv hdr body)
  unfolding h_query_info
  h_query_info-Lawful hdr body =
      let L = Lawful srv start in
      >>=-Ensures L (tree_of-Lawful srv start hdr false) (λ tree h0.
        >>-Ensures L (guard-Ensures L _ _) (λ u h1.
          >>=-Ensures L (handle_from-Lawful srv start _) (λ h lawful.
            >>=-Ensures L (info_blob-Lawful tree h _ _ lawful) (λ answer h2.
              >>=-Ensures L (lifted-Lawful srv start _) (λ blob h3.
                >>-Ensures L (guard-Ensures L _ _) (λ v h4. answer-Lawful srv start _ _))))))

module _ (disk : Disk) (decode : Bytes → Text) (srv : Server) (start : History) where
  set_reply-Lawful : Good srv start set_reply
  set_reply-Lawful = answer-Lawful srv start _ _

  set_end_of_file-Lawful :
      (h : Handle) (size : ℕ)
      → HandleLawful srv start h
      → srv.read_only ≡ false
      → Good srv start (set_end_of_file disk decode srv h size)
  unfolding set_end_of_file
  set_end_of_file-Lawful h size lawful writable =
      let L = Lawful srv start in
      >>-Ensures L (guard-Ensures L _ _) (λ u h0.
        >>=-Ensures L (open_file-Lawful disk srv start h true lawful) (λ fh shared.
          >>-Ensures L (guard-Ensures L _ _) (λ v h1.
            >>=-Ensures L (perform-Lawful srv start disk (resize fh size) shared writable)
              (λ n h2. set_reply-Lawful))))

  collides-Lawful : (dest path : FilePath) → Good srv start (collides disk decode srv dest path)
  unfolding collides
  collides-Lawful dest path s hs = (
    if-cases (λ (r : Outcome Bool × Connection). Lawful srv start r.1) (disk.exists s.history dest)
        (λ there. hs) (λ free. hs),
    λ a e. tt,
  )

  renamed :
      (h : Handle) (dest : FilePath) (name : Text)
      → HandleLawful srv start h
      → IsShared srv start dest
      → HandleLawful srv start (record h { path = dest; rel = name })
  renamed h dest name lawful shared = record {
    tree = lawful.tree;
    located = λ e. shared;
    opened = lawful.opened;
    kept = lawful.kept;
  }

  rename_in-Lawful :
      (tree : Tree) (h : Handle) (name : Text) (replace_if_exists : Bool)
      → TreeLawful srv start tree
      → HandleLawful srv start h
      → srv.read_only ≡ false
      → Good srv start (rename_in disk decode srv tree h name replace_if_exists)
  rename_in-Lawful ipc_tree h name replaces served lawful writable =
      throw-Ensures (Lawful srv start) _ _
  rename_in-Lawful (disk_tree share) h name replaces served lawful writable =
      let L = Lawful srv start in
      >>=-Ensures L (resolved-Lawful disk decode srv start share name served) (λ dest to_shared.
        >>=-Ensures L (file_path-Lawful srv start h lawful) (λ path shared.
          >>=-Ensures L (collides-Lawful dest path) (λ other h0.
            >>-Ensures L (guard-Ensures L _ _) (λ u h1.
              >>=-Ensures L
                (perform-Lawful srv start disk (replace path dest) (shared, to_shared) writable)
                (λ n h2.
                  >>-Ensures L (update-Lawful srv start _ (renamed h dest name lawful to_shared))
                    (λ v h3. set_reply-Lawful))))))

  set_name-Lawful :
      (h : Handle) (payload : Bytes)
      → HandleLawful srv start h
      → srv.read_only ≡ false
      → Good srv start (set_name disk decode srv h payload)
  unfolding set_name
  set_name-Lawful h payload lawful writable =
      >>-Ensures (Lawful srv start) (guard-Ensures (Lawful srv start) _ _)
        (λ u h0. rename_in-Lawful h.share h _ _ lawful.tree lawful writable)

  deleting :
      (h : Handle) (b : Bool)
      → HandleLawful srv start h
      → srv.read_only ≡ false
      → HandleLawful srv start (record h { delete_on_close = b })
  deleting h b lawful writable = record {
    tree = lawful.tree;
    located = lawful.located;
    opened = lawful.opened;
    kept = λ on. absurd (true≢false (sym on ∙ writable));
  }

  set_file_info-Lawful :
      (h : Handle) (info_class : ℕ) (payload : Bytes)
      → HandleLawful srv start h
      → srv.read_only ≡ false
      → Good srv start (set_file_info disk decode srv h info_class payload)
  unfolding set_file_info
  set_file_info-Lawful h info_class payload lawful writable =
      if-cases G (info_class == 20 && leb 8 (length payload))
        (λ size. set_end_of_file-Lawful h _ lawful writable)
        (λ h0.
          if-cases G (info_class == 13 && ltb 0 (length payload))
            (λ disposition.
              >>-Ensures (Lawful srv start)
                (update-Lawful srv start _ (deleting h _ lawful writable))
                (λ u h1. set_reply-Lawful))
            (λ h1.
              if-cases G (info_class == 4) (λ basic. set_reply-Lawful)
                (λ h2.
                  if-cases G (info_class == 10 && leb 20 (length payload))
                    (λ name. set_name-Lawful h payload lawful writable)
                    (λ none_of_them. throw-Ensures (Lawful srv start) _ _))))
    where
      G : Exec Connection Reply → Type 0
      G m = Good srv start m

  pub h_set_info-Lawful :
      (hdr : Header) (body : Bytes) → Good srv start (h_set_info disk decode srv hdr body)
  unfolding h_set_info
  h_set_info-Lawful hdr body =
      let L = Lawful srv start in
      >>=-Ensures L (tree_of-Lawful srv start hdr false) (λ tree h0.
        >>-Ensures L (require_writable-Lawful srv start tree) (λ u writable.
          >>-Ensures L (guard-Ensures L _ _) (λ v h1.
            >>=-Ensures L (handle_from-Lawful srv start _) (λ h lawful.
              >>=-Ensures L (lifted-Lawful srv start _) (λ payload h2.
                >>-Ensures L (guard-Ensures L _ _)
                  (λ w h3. set_file_info-Lawful h _ payload lawful writable))))))
