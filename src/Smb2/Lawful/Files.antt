-- ===== src/Smb2/Lawful/Files.antt =====
-- CLOSE, FLUSH, READ and WRITE keep to the shares.
use ps2_servers.Base.{
  ℕ, ◌≡◌, sym, ◌∙◌, Bool, true, false, true≢false, not, ◌&&◌, Option, none, some, if-cases,
  option-cases, if◌then◌else◌, Bool-cases, inl, inr,
}
use ps2_servers.Base.Tables.{remove-Values}
use ps2_servers.Bytes.{Bytes}
use ps2_servers.Exec.{Exec, Outcome, pure}
use ps2_servers.Exec.Keeps.{Ensures, guard-Ensures, gets-Ensures, pure-Ensures, modify-Ensures}
use ps2_servers.Exec.Steps.{>>=-Ensures, >>-Ensures}
use ps2_servers.Smb2.Entries.{Stat}
use ps2_servers.Smb2.Files.{
  attempt, described_last, removal, delete_closed, h_close, h_flush, open_again, reopen, open_file,
  read_file, read_pipe, h_read, write_file, Transact, transacted, write_pipe, h_write,
}
use ps2_servers.Smb2.Lawful.{
  IsShared, FileLawful, HandleLawful, ChangeLawful, Lawful, Any, Good, update-Lawful,
  perform-Lawful, tree_of-Lawful, require_writable-Lawful, handle_from-Lawful, file_path-Lawful,
  lifted-Lawful, answer-Lawful,
}
use ps2_servers.Smb2.Paths.{FilePath}
use ps2_servers.Smb2.State.{
  History, Disk, write_at, OpenFile, Pipe, Tree, Handle, Connection, Server, Reply,
}
use ps2_servers.Smb2.Wire.{Header}

module _ (srv : Server) (start : History) where
  attempt-Lawful :
      {A : Type 0} (m : Exec Connection A) → Good srv start m → Good srv start (attempt m)
  attempt-Lawful m h s hs = ((h s hs).0, λ a e. tt)

  pub piped :
      (h : Handle) (p : Option Pipe)
      → HandleLawful srv start h
      → HandleLawful srv start (record h { pipe = p })
  piped h p lawful = record {
    tree = lawful.tree;
    located = lawful.located;
    opened = lawful.opened;
    kept = lawful.kept;
  }

  pub with_file :
      (h : Handle) (fh : OpenFile)
      → HandleLawful srv start h
      → IsShared srv start fh.opened_path
      → HandleLawful srv start (record h { fh = some fh })
  with_file h fh lawful shared = record {
    tree = lawful.tree;
    located = lawful.located;
    opened = shared;
    kept = lawful.kept;
  }

  pub transacted-Lawful :
      (h : Handle) (r : Outcome Bytes × Pipe)
      → HandleLawful srv start h
      → Good srv start (transacted h r)
  transacted-Lawful h (o, pipe) lawful =
      >>-Ensures (Lawful srv start) (update-Lawful srv start _ (piped h (some pipe) lawful))
        (λ u h1.
          >>=-Ensures (Lawful srv start) (lifted-Lawful srv start o)
            (λ answer h2. pure-Ensures (Lawful srv start) (answer, pipe) _ tt))

module _ (disk : Disk) (srv : Server) (start : History) where
  described_last-Lawful : (h : Handle) → Good srv start (described_last disk srv h)
  unfolding described_last
  described_last-Lawful h =
      option-cases (λ (m : Exec Connection (Option Stat)). Good srv start m) h.pipe
        (attempt-Lawful srv start _ (λ s hs. (hs, λ a e. tt)))
        (λ pipe. pure-Ensures (Lawful srv start) none _ tt)

  removal-Lawful :
      (is_dir : Bool) (path : FilePath)
      → IsShared srv start path
      → ChangeLawful srv start (removal disk srv is_dir path)
  removal-Lawful true path shared = shared
  removal-Lawful false path shared = shared

  -- A handle that deletes was allowed to.
  delete_closed-Lawful :
      (h : Handle) → HandleLawful srv start h → Good srv start (delete_closed disk srv h)
  unfolding delete_closed
  delete_closed-Lawful h lawful =
      if-cases (λ (m : Exec Connection (Option ℕ)). Good srv start m) h.delete_on_close
        (λ deletes.
          >>=-Ensures (Lawful srv start) (file_path-Lawful srv start h lawful) (λ path shared.
            attempt-Lawful srv start _ (
              perform-Lawful srv start disk _ (removal-Lawful h.is_dir path shared)
                (writable deletes))))
        (λ stays. pure-Ensures (Lawful srv start) none _ tt)
    where
      writable : h.delete_on_close ≡ true → srv.read_only ≡ false
      writable deletes = elim (Bool-cases srv.read_only) [
        | inl on ↦ absurd (true≢false (sym deletes ∙ lawful.kept on))
        | inr off ↦ off
      ]

  pub h_close-Lawful : (hdr : Header) (body : Bytes) → Good srv start (h_close disk srv hdr body)
  unfolding h_close
  h_close-Lawful hdr body =
      let L = Lawful srv start in
      >>-Ensures L (tree_of-Lawful srv start hdr true) (λ u h0.
        >>-Ensures L (guard-Ensures L _ _) (λ v h1.
          >>=-Ensures L (handle_from-Lawful srv start _) (λ h lawful.
            >>=-Ensures L (described_last-Lawful h) (λ st h2.
              >>-Ensures L
                (modify-Ensures L _ (λ s hs. record {
                  trees = hs.trees;
                  handles = remove-Values (HandleLawful srv start) h.file_id s.handles hs.handles;
                  changes = hs.changes;
                  untouched = hs.untouched;
                }))
                (λ w h3.
                  >>-Ensures L (delete_closed-Lawful h lawful)
                    (λ x h4. answer-Lawful srv start _ _))))))

  pub h_flush-Lawful : (hdr : Header) (body : Bytes) → Good srv start (h_flush disk srv hdr body)
  unfolding h_flush
  h_flush-Lawful hdr body =
      let L = Lawful srv start in
      >>-Ensures L (tree_of-Lawful srv start hdr false) (λ u h0.
        >>=-Ensures L (handle_from-Lawful srv start _)
          (λ h lawful. >>-Ensures L (guard-Ensures L _ _) (λ v h1. answer-Lawful srv start _ _)))

  open_again-Lawful :
      (h : Handle) (writable : Bool)
      → HandleLawful srv start h
      → Ensures
          (Lawful srv start)
          (open_again disk srv h writable)
          (λ fh. IsShared srv start fh.opened_path)
  unfolding open_again
  open_again-Lawful h writable lawful =
      let L = Lawful srv start in
      >>=-Ensures L (gets-Ensures L _ (Any srv start) (λ s hs. tt)) (λ now h0.
        >>=-Ensures L (file_path-Lawful srv start h lawful) (λ path shared.
          >>-Ensures L (lifted-Lawful srv start _) (λ u h1.
            >>-Ensures L (update-Lawful srv start _ (with_file srv start h _ lawful shared))
              (λ v h2.
                pure-Ensures L _ (λ (fh : OpenFile). IsShared srv start fh.opened_path) shared))))

  reopen-Lawful :
      (h : Handle) (fh : OpenFile)
      → HandleLawful srv start h
      → IsShared srv start fh.opened_path
      → Ensures
          (Lawful srv start)
          (reopen disk srv h fh)
          (λ new. IsShared srv start new.opened_path)
  unfolding reopen
  reopen-Lawful h fh lawful shared =
      >>-Ensures (Lawful srv start)
        (update-Lawful srv start _ (with_file srv start h _ lawful shared))
        (λ u h1. open_again-Lawful h true lawful)

  pub open_file-Lawful :
      (h : Handle) (writable : Bool)
      → HandleLawful srv start h
      → Ensures
          (Lawful srv start)
          (open_file disk srv h writable)
          (λ fh. IsShared srv start fh.opened_path)
  unfolding open_file
  open_file-Lawful h writable lawful = of h.fh lawful.opened
    where
      of :
          (fh : Option OpenFile)
          → FileLawful srv start fh
          → Ensures
              (Lawful srv start)
              (elim fh [
                | none ↦ open_again disk srv h writable
                | some old ↦
                    if writable && not old.writable then reopen disk srv h old else pure old
              ])
              (λ new. IsShared srv start new.opened_path)
      of none shared = open_again-Lawful h writable lawful
      of (some fh) shared =
          if-cases
            (λ (m : Exec Connection OpenFile).
              Ensures (Lawful srv start) m (λ new. IsShared srv start new.opened_path))
            (writable && not fh.writable) (λ again. reopen-Lawful h fh lawful shared)
            (λ kept.
              pure-Ensures (Lawful srv start) fh (λ new. IsShared srv start new.opened_path) shared)

  read_file-Lawful :
      (h : Handle) (size offset : ℕ)
      → HandleLawful srv start h
      → Good srv start (read_file disk srv h size offset)
  unfolding read_file
  read_file-Lawful h size offset lawful =
      let L = Lawful srv start in
      >>-Ensures L (guard-Ensures L _ _) (λ u h0.
        >>=-Ensures L (open_file-Lawful h false lawful) (λ fh shared.
          >>-Ensures L (guard-Ensures L _ _) (λ v h1.
            >>=-Ensures L (gets-Ensures L _ (Any srv start) (λ s hs. tt)) (λ now h2.
              >>=-Ensures L (lifted-Lawful srv start _) (λ bytes h3.
                >>-Ensures L (guard-Ensures L _ _) (λ w h4. answer-Lawful srv start _ _))))))

  read_pipe-Lawful :
      (h : Handle) (pipe : Pipe) (size : ℕ)
      → HandleLawful srv start h
      → Good srv start (read_pipe disk srv h pipe size)
  unfolding read_pipe
  read_pipe-Lawful h pipe size lawful =
      let L = Lawful srv start in
      >>-Ensures L (update-Lawful srv start _ (piped srv start h _ lawful))
        (λ u h0. >>-Ensures L (guard-Ensures L _ _) (λ v h1. answer-Lawful srv start _ _))

  pub h_read-Lawful : (hdr : Header) (body : Bytes) → Good srv start (h_read disk srv hdr body)
  unfolding h_read
  h_read-Lawful hdr body =
      let L = Lawful srv start in
      >>-Ensures L (tree_of-Lawful srv start hdr true) (λ u h0.
        >>-Ensures L (guard-Ensures L _ _) (λ v h1.
          >>=-Ensures L (handle_from-Lawful srv start _) (λ h lawful.
            option-cases (λ (m : Exec Connection Reply). Good srv start m) h.pipe
              (read_file-Lawful h _ _ lawful) (λ pipe. read_pipe-Lawful h pipe _ lawful))))

  write_file-Lawful :
      (tree : Tree) (h : Handle) (body : Bytes)
      → HandleLawful srv start h
      → Good srv start (write_file disk srv tree h body)
  unfolding write_file
  write_file-Lawful tree h body lawful =
      let L = Lawful srv start in
      >>-Ensures L (require_writable-Lawful srv start tree) (λ u writable.
        >>-Ensures L (guard-Ensures L _ _) (λ v h1. >>-Ensures L (guard-Ensures L _ _) (λ w h2.
          >>-Ensures L (guard-Ensures L _ _) (λ x h3.
            >>=-Ensures L (lifted-Lawful srv start _) (λ bytes h4.
              >>=-Ensures L (open_file-Lawful h true lawful) (λ fh shared.
                >>-Ensures L (guard-Ensures L _ _) (λ y h5.
                  >>=-Ensures L
                    (perform-Lawful srv start disk (write_at fh _ bytes) shared writable)
                    (λ n h6. answer-Lawful srv start _ _))))))))

module _ (disk : Disk) (srv : Server) (transact : Transact) (start : History) where
  write_pipe-Lawful :
      (h : Handle) (pipe : Pipe) (body : Bytes)
      → HandleLawful srv start h
      → Good srv start (write_pipe disk srv transact h pipe body)
  unfolding write_pipe
  write_pipe-Lawful h pipe body lawful =
      let L = Lawful srv start in
      >>=-Ensures L (lifted-Lawful srv start _) (λ bytes h0.
        >>=-Ensures L (transacted-Lawful srv start h _ lawful) (λ result h1.
          >>-Ensures L (update-Lawful srv start _ (piped srv start h _ lawful))
            (λ u h2. answer-Lawful srv start _ _)))

  pub h_write-Lawful :
      (hdr : Header) (body : Bytes) → Good srv start (h_write disk srv transact hdr body)
  unfolding h_write
  h_write-Lawful hdr body =
      let L = Lawful srv start in
      >>=-Ensures L (tree_of-Lawful srv start hdr true) (λ tree h0.
        >>-Ensures L (guard-Ensures L _ _) (λ v h1.
          >>=-Ensures L (handle_from-Lawful srv start _) (λ h lawful.
            option-cases (λ (m : Exec Connection Reply). Good srv start m) h.pipe
              (write_file-Lawful disk srv start tree h body lawful)
              (λ pipe. write_pipe-Lawful h pipe body lawful))))
