-- ===== src/Smb2/Lawful/Create.antt =====
-- CREATE keeps to the shares.
use ps2_servers.Base.{
  ℕ, ◌≡◌, refl, Bool, true, false, not, ◌&&◌, [], some, if-cases, true≢false, sym, ◌∙◌,
}
use ps2_servers.Base.Texts.{Text}
use ps2_servers.Bytes.{Bytes}
use ps2_servers.Exec.{Exec}
use ps2_servers.Exec.Keeps.{
  Ensures, lift-Ensures, guard-Ensures, gets-Ensures, pure-Ensures, throw-Ensures,
}
use ps2_servers.Exec.Steps.{>>=-Ensures, >>-Ensures}
use ps2_servers.Smb2.Create.{
  create_pipe, acted, made, makes_file, empties_file, create_action, delete_when_closed, create_at,
  resolved, create_on, h_create, new_pipe, has_bits, access_write_any,
}
use ps2_servers.Smb2.Lawful.{
  IsServed, IsShared, HandleLawful, ChangeLawful, TreeLawful, Lawful, Any, Good, answer-Lawful,
  update-Lawful, add_handle-Lawful, perform-Lawful, tree_of-Lawful, require_writable-Lawful,
}
use ps2_servers.Smb2.Paths.{FilePath, Share}
use ps2_servers.Smb2.Paths.Confine.{resolve-ok_iff}
use ps2_servers.Smb2.State.{
  History, Disk, Change, make_dirs, create_file, Tree, disk_tree, ipc_tree, Handle, Connection,
  Server, new_handle,
}
use ps2_servers.Smb2.Wire.{Header}

module _ (disk : Disk) (decode : Bytes → Text) (srv : Server) (start : History) where
  pub resolved-Lawful :
      (share : Share) (rel : Text)
      → IsServed share srv.shares
      → Ensures (Lawful srv start) (resolved disk decode srv share rel) (IsShared srv start)
  unfolding resolved
  resolved-Lawful share rel served s hs = (
    hs,
    λ path e. (
      share,
      served,
      ((resolve-ok_iff (disk.realpath s.history) (disk.exists s.history) share (some rel) false
            path).0
          e).below,
    ),
  )

  pipe-Lawful :
      (h : Handle)
      → HandleLawful srv start h
      → HandleLawful srv start (record h { pipe = some new_pipe })
  pipe-Lawful h lawful = record {
    tree = lawful.tree;
    located = lawful.located;
    opened = lawful.opened;
    kept = lawful.kept;
  }

  ipc_lawful : (name : Text) → HandleLawful srv start (new_handle 0 ipc_tree [] name false)
  ipc_lawful name = record {
    tree = tt;
    located = λ e. absurd (true≢false e);
    opened = tt;
    kept = λ on. refl;
  }

  create_pipe-Lawful :
      (lower : Text → Text) (body : Bytes) → Good srv start (create_pipe disk decode srv lower body)
  unfolding create_pipe
  create_pipe-Lawful lower body =
      >>=-Ensures (Lawful srv start) (lift-Ensures (Lawful srv start) _) (λ raw_name h0.
        >>-Ensures (Lawful srv start) (guard-Ensures (Lawful srv start) _ _) (λ u h1.
          >>=-Ensures (Lawful srv start)
            (add_handle-Lawful srv start ipc_tree [] _ false (ipc_lawful _))
            (λ h lawful.
              >>-Ensures (Lawful srv start) (update-Lawful srv start _ (pipe-Lawful h lawful))
                (λ v h2. answer-Lawful srv start _ _))))

  acted-Lawful :
      (change : Change) (action : ℕ)
      → ChangeLawful srv start change
      → srv.read_only ≡ false
      → Good srv start (acted disk decode srv change action)
  unfolding acted
  acted-Lawful change action lawful writable =
      >>=-Ensures (Lawful srv start) (perform-Lawful srv start disk change lawful writable)
        (λ count h. pure-Ensures (Lawful srv start) action _ tt)

  made-Lawful :
      (path : FilePath) (disposition : ℕ) (want_dir : Bool)
      → IsShared srv start path
      → srv.read_only ≡ false
      → Good srv start (made disk decode srv path disposition want_dir)
  made-Lawful path disposition want_dir shared writable =
      if-cases (λ (m : Exec Connection ℕ). Good srv start m) want_dir
        (λ yes. acted-Lawful (make_dirs path) _ shared writable)
        (λ no.
          if-cases (λ (m : Exec Connection ℕ). Good srv start m)
            (makes_file disk decode srv disposition)
            (λ makes. acted-Lawful (create_file path) _ shared writable)
            (λ other. throw-Ensures (Lawful srv start) _ _))

  create_action-Lawful :
      (share : Share) (path : FilePath) (exists is_directory : Bool) (disposition : ℕ)
      (want_dir : Bool)
      → IsShared srv start path
      → Good srv start
          (create_action disk decode srv share path exists is_directory disposition want_dir)
  unfolding create_action
  create_action-Lawful share path exists is_directory disposition want_dir shared =
      if-cases (λ (m : Exec Connection ℕ). Good srv start m) (not exists)
        (λ absent.
          >>-Ensures (Lawful srv start) (require_writable-Lawful srv start (disk_tree share))
            (λ u writable. made-Lawful path disposition want_dir shared writable))
        (λ there.
          if-cases (λ (m : Exec Connection ℕ). Good srv start m)
            (empties_file disk decode srv disposition && not is_directory)
            (λ empties.
              >>-Ensures (Lawful srv start) (require_writable-Lawful srv start (disk_tree share))
                (λ u writable. acted-Lawful (create_file path) _ shared writable))
            (λ opens. pure-Ensures (Lawful srv start) _ _ tt))

  delete_when_closed-Lawful :
      (share : Share) (h : Handle) (wanted : Bool)
      → HandleLawful srv start h
      → Good srv start (delete_when_closed disk decode srv share h wanted)
  unfolding delete_when_closed
  delete_when_closed-Lawful share h wanted lawful =
      if-cases (λ (m : Exec Connection (Unit {0})). Good srv start m) wanted
        (λ yes.
          >>-Ensures (Lawful srv start) (require_writable-Lawful srv start (disk_tree share))
            (λ u writable. update-Lawful srv start _ (record {
              tree = lawful.tree;
              located = lawful.located;
              opened = lawful.opened;
              kept = λ on. absurd (true≢false (sym on ∙ writable));
            })))
        (λ no. pure-Ensures (Lawful srv start) tt _ tt)

  create_at-Lawful :
      (share : Share) (rel : Text) (path : FilePath) (access disposition options : ℕ)
      → IsServed share srv.shares
      → IsShared srv start path
      → Good srv start (create_at disk decode srv share rel path access disposition options)
  unfolding create_at
  create_at-Lawful share rel path access disposition options served shared =
      let L = Lawful srv start in
      >>=-Ensures L (gets-Ensures L _ (Any srv start) (λ s hs. tt)) (λ history h0.
        >>-Ensures L (guard-Ensures L _ _) (λ u1 h1. >>-Ensures L (guard-Ensures L _ _) (λ u2 h2.
          >>=-Ensures L (create_action-Lawful share path _ _ _ _ shared) (λ action h3.
            >>=-Ensures L (gets-Ensures L _ (Any srv start) (λ s hs. tt)) (λ now h4.
              >>=-Ensures L (lift-Ensures L _) (λ st h5.
                >>-Ensures L (guard-Ensures L _ _) (λ u6 h6.
                  >>-Ensures L (guard-Ensures L _ _) (λ u7 h7.
                    >>=-Ensures L
                      (add_handle-Lawful srv start (disk_tree share) path rel st.is_directory
                        (fresh st.is_directory))
                      (λ opened lawful.
                        >>-Ensures L (update-Lawful srv start _ (writable_or_not opened lawful))
                          (λ u8 h8.
                            >>-Ensures L
                              (delete_when_closed-Lawful share _ _ (writable_or_not opened lawful))
                              (λ u9 h9. answer-Lawful srv start _ _)))))))))))
    where
      fresh :
          (is_dir : Bool) → HandleLawful srv start (new_handle 0 (disk_tree share) path rel is_dir)
      fresh is_dir = record { tree = served; located = λ e. shared; opened = tt; kept = λ on. refl }

      writable_or_not :
          (h : Handle)
          → HandleLawful srv start h
          → HandleLawful srv start (record h { can_write = has_bits access access_write_any })
      writable_or_not h lawful = record {
        tree = lawful.tree;
        located = lawful.located;
        opened = lawful.opened;
        kept = lawful.kept;
      }

  create_on-Lawful :
      (lower : Text → Text) (tree : Tree) (body : Bytes)
      → TreeLawful srv start tree
      → Good srv start (create_on disk decode srv lower tree body)
  unfolding create_on
  create_on-Lawful lower ipc_tree body served = create_pipe-Lawful lower body
  create_on-Lawful lower (disk_tree share) body served =
      >>=-Ensures (Lawful srv start) (lift-Ensures (Lawful srv start) _) (λ raw_name h0.
        >>=-Ensures (Lawful srv start) (resolved-Lawful share _ served)
          (λ path shared. create_at-Lawful share _ path _ _ _ served shared))

  pub h_create-Lawful :
      (lower : Text → Text) (hdr : Header) (body : Bytes)
      → Good srv start (h_create disk decode srv lower hdr body)
  unfolding h_create
  h_create-Lawful lower hdr body =
      >>=-Ensures (Lawful srv start) (tree_of-Lawful srv start hdr true) (λ tree lawful.
        >>-Ensures (Lawful srv start) (guard-Ensures (Lawful srv start) _ _)
          (λ u h. create_on-Lawful lower tree body lawful))
