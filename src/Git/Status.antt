-- ===== src/Git/Status.antt =====
-- What a commit of the data directory reports, and what it leaves of the files.
use veillee.Base.{
  ◌≡◌, refl, Bool, true, false, none, some, Option, Option-cases, inl, inr, ◌&&◌, arith,
  if◌then◌else◌, not, ◌++◌, nat_eq, list_eq, ==_iff,
}
use veillee.Base.Text.{Text}
use veillee.Base.Dict.{lookup, lookup-insert}
use veillee.Models.{FilePath}
use veillee.Disk.{Disk}
use veillee.Git.{
  Completed, Git, GitStatus, ensure_repo, commit_all, committed_as, staged_for, commit_if,
  autocommit, nothing_new, finish_setup, initialised, add_gitignore, gitignore_path, gitignore,
}

-- Whether the status tells of a repository that is used and in order.
abbrev pub in_order : GitStatus → Bool
in_order status = status.enabled && status.ok

abbrev Agrees : GitStatus × Bool → Type 0
Agrees (status, done) = in_order status ≡ done

Agrees-if : (b : Bool) (x y : GitStatus × Bool) → Agrees x → Agrees y → Agrees (if b then x else y)
Agrees-if true x y h k = h
Agrees-if false x y h k = k

add_gitignore-there :
    (p : FilePath) (text : Text) (d : Disk)
    → lookup p d ≡ some text
    → lookup p (add_gitignore d) ≡ some text
add_gitignore-there p text d h = elim (Option-cases (lookup gitignore_path d)) [
  | inr (old, e) ↦ rw e h
  | inl e ↦
      rw (e, lookup-insert p gitignore_path gitignore d)
        (ground (arith, ==_iff gitignore_path p, h, e))
]

module _ (git : Git) where
  committed_as-Agrees :
      (message : Text) (o : Option Completed) → Agrees (committed_as git message o)
  committed_as-Agrees message none = refl
  committed_as-Agrees message (some c) =
      Agrees-if c.succeeded _ _ refl
        (Agrees-if (nothing_new git (c.stdout ++ c.stderr)) _ _ refl refl)

  staged_for-Agrees :
      (message : Text) (d : Disk) (o : Option Completed) → Agrees (staged_for git message d o)
  staged_for-Agrees message d none = refl
  staged_for-Agrees message d (some c) =
      Agrees-if c.succeeded _ _ (committed_as-Agrees message _) refl

  module _ (p : FilePath) (text : Text) (d : Disk) (there : lookup p d ≡ some text) where
    abbrev Fine : Disk × GitStatus × Bool → Type 0
    Fine (after, status, done) = (in_order status ≡ done) × (lookup p after ≡ some text)

    Fine-if :
        (b : Bool) (x y : Disk × GitStatus × Bool) → Fine x → Fine y → Fine (if b then x else y)
    Fine-if true x y h k = h
    Fine-if false x y h k = k

    finish_setup-Fine : (n e : Option Completed) → Fine (finish_setup git d n e)
    finish_setup-Fine (some n) (some e) = (refl, add_gitignore-there p text d there)
    finish_setup-Fine (some n) none = (refl, there)
    finish_setup-Fine none e = (refl, there)

    initialised-Fine : (o : Option Completed) → Fine (initialised git d o)
    initialised-Fine none = (refl, there)
    initialised-Fine (some c) = Fine-if c.succeeded _ _ (finish_setup-Fine _ _) (refl, there)

    ensure_repo-Fine : Fine (ensure_repo git d)
    unfolding ensure_repo
    ensure_repo-Fine =
        Fine-if (not git.directory_ready) _ _ (refl, there)
          (Fine-if git.has_repository _ _ (finish_setup-Fine _ _) (initialised-Fine _))

    commit_if-Fine :
        (message : Text) (r : Disk × GitStatus × Bool) → Fine r → Fine (commit_if git message r)
    unfolding commit_all
    commit_if-Fine message (after, status, false) h = h
    commit_if-Fine message (after, status, true) h = (staged_for-Agrees message after _, h.1)

-- However git behaves, `autocommit` answers true exactly when the status that it leaves is that of a
-- repository in use without a problem, and each file that was there is as it was.
pub autocommit-reports :
    (git : Git) (message : Text) (enabled : Bool) (d : Disk) (p : FilePath) (text : Text)
    → lookup p d ≡ some text
    → (in_order (autocommit git message enabled d).1 ≡ (autocommit git message enabled d).2)
      × (lookup p (autocommit git message enabled d).0 ≡ some text)
unfolding autocommit
autocommit-reports git message false d p text there = (refl, there)
autocommit-reports git message true d p text there =
    commit_if-Fine git p text d there message (ensure_repo git d)
      (ensure_repo-Fine git p text d there)
