-- ===== src/Git.antt =====
-- storage/gitrepo.py: the history of the data directory, and the status that the health page shows.
-- Running git is the parameter `Git`, of which `none` is an OSError or a SubprocessError.
-- Where the status quotes an exception, only the constant text is kept.
pub mod Status
mod Tests
use veillee.Base.{
  ℕ, Bool, true, false, not, Option, none, some, List, [], ◌∷◌, ◌++◌, ◌||◌, take, if◌then◌else◌,
  ◌==◌, nat_eq, list_eq,
}
use veillee.Base.Text.{Text, codes, strip, is_space, has_infix}
use veillee.Base.Dict.{insert}
use veillee.Models.{FilePath}
use veillee.Disk.{Disk, exists}

pub record Completed : Type 0 where
  pub succeeded : Bool
  pub stdout : Text
  pub stderr : Text

pub record Git : Type 0 where
  pub run : List Text → Disk → Option Completed
  pub directory_ready : Bool
  pub has_repository : Bool

pub record GitStatus : Type 0 where
  pub enabled : Bool
  pub ok : Bool
  pub detail : Text

abbrev pub last_status_at_start : GitStatus
last_status_at_start = record {
  enabled = false;
  ok = true;
  detail = codes "no commit attempted yet";
}

abbrev pub ready : Text → GitStatus
ready detail = record { enabled = true; ok = true; detail = detail }

abbrev pub failing : Text → GitStatus
failing detail = record { enabled = true; ok = false; detail = detail }

abbrev pub gitignore_path : FilePath
gitignore_path = codes ".gitignore" ∷ []

abbrev pub gitignore : Text
gitignore =
    codes
      "# The index is rebuildable from these files; do not version it.\n*.db\n*.db-wal\n*.db-shm\n\n# Partially received uploads. Real files land elsewhere once assembled.\n.uploads/\n"

abbrev pub add_gitignore : Disk → Disk
add_gitignore disk =
    if exists gitignore_path disk then disk else insert gitignore_path gitignore disk

module _ (git : Git) where
  abbrev pub config : Text → Text → Disk → Option Completed
  config key value disk = git.run (codes "config" ∷ key ∷ value ∷ []) disk

  -- The identity of the repository, and what git is to leave out.
  abbrev pub finish_setup : Disk → Option Completed → Option Completed → Disk × GitStatus × Bool
  finish_setup disk (some name) (some email) =
      (add_gitignore disk, ready (codes "repository ready"), true)
  finish_setup disk name email = (disk, failing (codes "git unavailable"), false)

  abbrev pub set_up : Disk → Disk × GitStatus × Bool
  set_up disk =
      finish_setup disk (config (codes "user.name") (codes "Veillee") disk)
        (config (codes "user.email") (codes "veillee@localhost") disk)

  abbrev pub initialised : Disk → Option Completed → Disk × GitStatus × Bool
  initialised disk none = (disk, failing (codes "git unavailable"), false)
  initialised disk (some created) =
      let ended = set_up disk in
      if created.succeeded
      then ended
      else (disk, failing (codes "git init failed: " ++ strip is_space created.stderr), false)

  -- The disk, the status, and whether the repository is usable.
  unfoldable pub ensure_repo : Disk → Disk × GitStatus × Bool
  ensure_repo disk =
      if not git.directory_ready
      then (disk, failing (codes "git unavailable"), false)
      else if git.has_repository
      then set_up disk
      else initialised disk
          (git.run (codes "init" ∷ codes "-q" ∷ codes "-b" ∷ codes "main" ∷ []) disk)

  abbrev pub nothing_new : Text → Bool
  nothing_new combined =
      has_infix combined (codes "nothing to commit") || has_infix combined (codes "nothing added")

  abbrev pub committed_as : Text → Option Completed → GitStatus × Bool
  committed_as message none = (failing (codes "git error"), false)
  committed_as message (some c) =
      let combined = c.stdout ++ c.stderr in
      if c.succeeded
      then (ready (codes "committed: " ++ message), true)
      else if nothing_new combined
      then (ready (codes "nothing to commit"), true)
      else (failing (codes "git commit failed: " ++ take 200 (strip is_space combined)), false)

  abbrev pub staged_for : Text → Disk → Option Completed → GitStatus × Bool
  staged_for message disk none = (failing (codes "git error"), false)
  staged_for message disk (some c) =
      let ended =
        committed_as message
          (git.run (codes "commit" ∷ codes "-q" ∷ codes "-m" ∷ message ∷ []) disk) in
      if c.succeeded
      then ended
      else (failing (codes "git add failed: " ++ strip is_space c.stderr), false)

  unfoldable pub commit_all : Text → Disk → GitStatus × Bool
  commit_all message disk =
      staged_for message disk (git.run (codes "add" ∷ codes "-A" ∷ codes "." ∷ []) disk)

  abbrev pub commit_if : Text → Disk × GitStatus × Bool → Disk × GitStatus × Bool
  commit_if message (disk, status, false) = (disk, status, false)
  commit_if message (disk, status, true) =
      let (after, done) = commit_all message disk in (disk, after, done)

  unfoldable pub autocommit : Text → Bool → Disk → Disk × GitStatus × Bool
  unfolding ensure_repo commit_all
  autocommit message false disk =
      (disk, record { enabled = false; ok = true; detail = codes "auto-commit disabled" }, false)
  autocommit message true disk = commit_if message (ensure_repo disk)
