-- ===== src/Smb2/Lawful.antt =====
-- What a connection never does, whatever its client sends: change the disk outside the shares, or
-- at all on a read-only server. Here the invariant and the steps that the handlers share; the
-- children are about the handlers.
pub mod Create
pub mod Files
pub mod Info
pub mod Trees
pub mod Serve
use mathlib.Core.Path.{subst}
use ps2_servers.Base.{
  ℕ, zero, suc, ◌+◌, ◌≤◌, ◌≡◌, ◌≢◌, refl, sym, ap, ◌∙◌, Bool, true, false, true≢false, not, ◌&&◌,
  ◌||◌, ◌⊎◌, inl, inr, List, [], ◌∷◌, ◌++◌, Option, none, some, All, if◌then◌else◌, if-cases,
  length, ◌==◌,
}
use ps2_servers.Base.Tables.{lookup, put, Values, lookup-Values, put-Values}
use ps2_servers.Base.Texts.{Text}
use ps2_servers.Bytes.{Bytes}
use ps2_servers.Bytes.Struct.{Field, pack, read_le}
use ps2_servers.Exec.{
  Exec, Outcome, ok, raise, Fault, type_error, pure, throw, lift, guard, modify, gets, demand,
}
use ps2_servers.Exec.Results.{raise≢ok, ok-injective}
use ps2_servers.Exec.Keeps.{
  Ensures, lift-Ensures, guard-Ensures, demand-Ensures, modify-Ensures, gets-Ensures, pure-Ensures,
}
use ps2_servers.Exec.Steps.{◌>>=◌, ◌>>◌, >>=-Ensures, >>-Ensures}
use ps2_servers.Smb2.Paths.{FilePath, Share}
use ps2_servers.Smb2.Paths.Confine.{IsBelow}
use ps2_servers.Smb2.State.{
  Disk, Change, make_dirs, create_file, remove_dir, remove_file, write_at, resize, replace,
  OpenFile, History, Tree, disk_tree, ipc_tree, Handle, Connection, Server, Reply, add_handle,
  new_handle, update, meant, agreeing, named_handle, handle_from, path_in, file_path, perform,
  require_session, tree_of, is_ipc, is_read_only, require_writable, short_body,
}
use ps2_servers.Smb2.Wire.{Header}

-- One of the server's shares.
abbrev pub IsServed : Share → List (Text × Share) → Type 0
IsServed share [] = ⊥
IsServed share ((name, other) ∷ shares) = (share ≡ other) ⊎ IsServed share shares

module _ (srv : Server) (start : History) where
  -- The path is the root of a share or below it.
  abbrev pub IsShared : FilePath → Type 0
  IsShared path = (share : Share) × IsServed share srv.shares × IsBelow share.root path

  abbrev pub TreeLawful : Tree → Type 0
  TreeLawful (disk_tree share) = IsServed share srv.shares
  TreeLawful ipc_tree = Unit {0}

  abbrev pub FileLawful : Option OpenFile → Type 0
  FileLawful none = Unit {0}
  FileLawful (some fh) = IsShared fh.opened_path

  pub record HandleLawful (h : Handle) : Type 0 where
    pub tree : TreeLawful h.share
    pub located : is_ipc h.share ≡ false → IsShared h.path
    pub opened : FileLawful h.fh
    pub kept : srv.read_only ≡ true → h.delete_on_close ≡ false

  -- The change is to paths of shares only.
  abbrev pub ChangeLawful : Change → Type 0
  ChangeLawful (make_dirs path) = IsShared path
  ChangeLawful (create_file path) = IsShared path
  ChangeLawful (remove_dir path) = IsShared path
  ChangeLawful (remove_file path) = IsShared path
  ChangeLawful (write_at fh offset bytes) = IsShared fh.opened_path
  ChangeLawful (resize fh size) = IsShared fh.opened_path
  ChangeLawful (replace path dest) = IsShared path × IsShared dest

  pub record Lawful (conn : Connection) : Type 0 where
    pub trees : Values TreeLawful conn.trees
    pub handles : Values HandleLawful conn.handles
    pub changes : All ChangeLawful conn.history
    pub untouched : srv.read_only ≡ true → conn.history ≡ start

  abbrev pub Any : {A : Type 0} → A → Type 0
  Any a = Unit {0}

  pub weaken :
      {A : Type 0} (m : Exec Connection A) (Q R : A → Type 0)
      → ((a : A) → Q a → R a)
      → Ensures Lawful m Q
      → Ensures Lawful m R
  weaken m Q R f h s hs = ((h s hs).0, λ a e. f a ((h s hs).1 a e))

  pub update-Lawful : (h : Handle) → HandleLawful h → Ensures Lawful (update h) Any
  update-Lawful h lawful = modify-Ensures Lawful _ (λ s hs. record {
    trees = hs.trees;
    handles = put-Values HandleLawful h.file_id h s.handles lawful hs.handles;
    changes = hs.changes;
    untouched = hs.untouched;
  })

  pub add_handle-Lawful :
      (tree : Tree) (path : FilePath) (rel : Text) (is_dir : Bool)
      → HandleLawful (new_handle 0 tree path rel is_dir)
      → Ensures Lawful (add_handle tree path rel is_dir) HandleLawful
  unfolding add_handle
  add_handle-Lawful tree path rel is_dir l s hs = (
    record {
      trees = hs.trees;
      handles =
          put-Values HandleLawful s.next_handle (new_handle s.next_handle tree path rel is_dir)
            s.handles numbered hs.handles;
      changes = hs.changes;
      untouched = hs.untouched;
    },
    λ h e. subst HandleLawful (ok-injective e) numbered,
  )
    where
      numbered : HandleLawful (new_handle s.next_handle tree path rel is_dir)
      numbered = record { tree = l.tree; located = l.located; opened = l.opened; kept = l.kept }

  agreeing-Lawful :
      (same : Bool) (o : Option Handle) (h : Handle)
      → ((k : Handle) → o ≡ some k → HandleLawful k)
      → agreeing same o ≡ ok h
      → HandleLawful h
  agreeing-Lawful same none h holds e = absurd (raise≢ok e)
  agreeing-Lawful true (some k) h holds e = subst HandleLawful (ok-injective e) (holds k refl)
  agreeing-Lawful false (some k) h holds e = absurd (raise≢ok e)

  pub handle_from-Lawful :
      (raw_file_id : Bytes) → Ensures Lawful (handle_from raw_file_id) HandleLawful
  unfolding handle_from named_handle
  handle_from-Lawful raw_file_id s hs = (hs, found)
    where
      named : Bytes
      named = meant raw_file_id s.compound_file_id

      found : (h : Handle) → named_handle named s.handles ≡ ok h → HandleLawful h
      found h =
          if-cases (λ (o : Outcome Handle). (o ≡ ok h) → HandleLawful h) (not (length named == 16))
            (λ wrong e. absurd (raise≢ok e))
            (λ right e.
              agreeing-Lawful _ (lookup (read_le 8 8 named) s.handles) h
                (λ k there.
                  lookup-Values HandleLawful (read_le 8 8 named) s.handles k hs.handles there)
                e)

  all-append :
      (P : Change → Type 0) (xs : List Change) (x : Change)
      → All P xs
      → P x
      → All P (xs ++ (x ∷ []))
  all-append P [] x h hx = (hx, tt)
  all-append P (y ∷ xs) x (hy, h) hx = (hy, all-append P xs x h hx)

  -- A change is made only to shared paths, and not on a read-only server.
  pub perform-Lawful :
      (disk : Disk) (change : Change)
      → ChangeLawful change
      → srv.read_only ≡ false
      → Ensures Lawful (perform disk change) Any
  unfolding perform
  perform-Lawful disk change lawful writable s hs = (
    record {
      trees = hs.trees;
      handles = hs.handles;
      changes = all-append ChangeLawful s.history change hs.changes lawful;
      untouched = λ on. absurd (true≢false (sym on ∙ writable));
    },
    λ a e. tt,
  )

  pub require_session-Lawful : Ensures Lawful require_session Any
  unfolding require_session
  require_session-Lawful s hs =
      if-cases
        (λ (r : Outcome (Unit {0}) × Connection).
          Lawful r.1 × ((a : Unit {0}) → r.0 ≡ ok a → Any a))
        s.authenticated (λ yes. (hs, λ a e. tt)) (λ no. (hs, λ a e. tt))

  pub tree_of-Lawful :
      (hdr : Header) (ipc_ok : Bool) → Ensures Lawful (tree_of hdr ipc_ok) TreeLawful
  unfolding tree_of
  tree_of-Lawful hdr ipc_ok = >>-Ensures Lawful require_session-Lawful (λ u hu.
      >>=-Ensures Lawful (gets-Ensures Lawful _ (Values TreeLawful) (λ s hs. hs.trees))
        (λ trees all_lawful. >>=-Ensures Lawful (demand-Ensures Lawful _ _) (λ tree there.
          >>-Ensures Lawful (guard-Ensures Lawful _ _) (λ v allowed.
            pure-Ensures Lawful tree TreeLawful
              (lookup-Values TreeLawful hdr.tree_id trees tree all_lawful there)))))

  or_writable : (b c : Bool) → (b || c) ≡ false → b ≡ false
  or_writable true c h = absurd (true≢false h)
  or_writable false c h = refl

  pub require_writable-Lawful :
      (tree : Tree) → Ensures Lawful (require_writable srv tree) (λ u. srv.read_only ≡ false)
  unfolding require_writable
  require_writable-Lawful tree =
      weaken _ _ _ (λ u h. or_writable srv.read_only (is_read_only tree) h)
        (guard-Ensures Lawful (srv.read_only || is_read_only tree) _)

  pub file_path-Lawful :
      (h : Handle) → HandleLawful h → Ensures Lawful (lift (file_path h)) IsShared
  file_path-Lawful h lawful s hs = (hs, shared h.share lawful.located)
    where
      shared :
          (tree : Tree)
          → (is_ipc tree ≡ false → IsShared h.path)
          → (path : FilePath) → path_in tree h.path ≡ ok path
          → IsShared path
      shared (disk_tree share) located path e = subst IsShared (ok-injective e) (located refl)
      shared ipc_tree located path e = absurd (raise≢ok e)

  abbrev pub Good : {A : Type 0} → Exec Connection A → Type 0
  Good m = Ensures Lawful m Any

  pub lifted-Lawful : {A : Type 0} (o : Outcome A) → Good (lift o)
  lifted-Lawful o = weaken _ _ _ (λ a e. tt) (lift-Ensures Lawful o)

  pub answer-Lawful :
      (fields : List Field) (make : Bytes → Reply)
      → Good (do out ← lift (pack fields); pure (make out))
  answer-Lawful fields make =
      >>=-Ensures Lawful (lifted-Lawful (pack fields))
        (λ out h. pure-Ensures Lawful (make out) _ tt)
