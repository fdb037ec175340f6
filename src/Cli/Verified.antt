-- ===== src/Cli/Verified.antt =====
-- What `veillee verify` has made sure of when it succeeds.
use veillee.Base.{
  ℕ, ◌≡◌, refl, Bool, true, false, List, [], ◌∷◌, ◌++◌, length, if◌then◌else◌, ◌==◌, nat_eq,
  list_eq, ok, >>=-eq-ok, ok_injective, Outcome-cases, contains, ◌||◌, Bool-cases, inl, inr, ==_iff,
  arith, subst, ap, ◌∙◌,
}
use veillee.Models.{FilePath, Recording}
use veillee.Values.{Yaml}
use veillee.Disk.{Disk}
use veillee.Answers.{
  frontmatter_error, os_error, value_error, key_error, type_error, attribute_error,
}
use veillee.Sidecars.{Library, Problem, iter_sidecars, read_sidecar, verify_recording}
use veillee.Cli.{VerifyProblem, checked_sidecar, verify_sidecars, cmd_verify, damages}

module _ (lib : Library) (yaml : Yaml) (disk : Disk) where
  abbrev pub IsIntact : FilePath → Type 0
  IsIntact path =
      (r : Recording) × (read_sidecar lib yaml path disk ≡ ok r)
      × (verify_recording lib disk r ≡ ok [])

  no_damages : (ps : List Problem) → damages ps ≡ [] → ps ≡ []
  no_damages [] h = refl
  no_damages (p ∷ ps) h = absurd (cc h)

  checked-IsIntact :
      (path : FilePath)
      → checked_sidecar lib disk path (read_sidecar lib yaml path disk) ≡ ok []
      → IsIntact path
  checked-IsIntact path h = elim (Outcome-cases (read_sidecar lib yaml path disk)) [
    | inl (r, e) ↦
        let (problems, found, last) = >>=-eq-ok (verify_recording lib disk r) _ (rw e at h) in
        (r, e, found ∙ ap ok (no_damages problems (ok_injective last)))
    | inr (frontmatter_error x, e) ↦ absurd (cc (rw e at h))
    | inr (os_error, e) ↦ absurd (cc (rw e at h))
    | inr (value_error, e) ↦ absurd (cc (rw e at h))
    | inr (key_error, e) ↦ absurd (cc (rw e at h))
    | inr (type_error, e) ↦ absurd (cc (rw e at h))
    | inr (attribute_error, e) ↦ absurd (cc (rw e at h))
  ]

  append_empty : (xs ys : List VerifyProblem) → (xs ++ ys) ≡ [] → (xs ≡ []) × (ys ≡ [])
  append_empty [] ys h = (refl, h)
  append_empty (x ∷ xs) ys h = absurd (cc h)

  rest_of : (a b : Bool) → (a || b) ≡ true → a ≡ false → b ≡ true
  rest_of a b h n = ground arith

  verify_sidecars-IsIntact :
      (paths : List FilePath) (path : FilePath)
      → verify_sidecars lib yaml disk paths ≡ ok []
      → contains paths path ≡ true
      → IsIntact path
  unfolding verify_sidecars
  verify_sidecars-IsIntact [] path h k = absurd (cc k)
  verify_sidecars-IsIntact (first ∷ paths) path h k =
      let (problems, here, after) =
        >>=-eq-ok (checked_sidecar lib disk first (read_sidecar lib yaml first disk)) _ h in
      let (others, there, last) = >>=-eq-ok (verify_sidecars lib yaml disk paths) _ after in
      let (none_here, none_there) = append_empty problems others (ok_injective last) in
      elim (Bool-cases (first == path)) [
        | inl e ↦
            subst IsIntact ((==_iff first path).0 e)
              (checked-IsIntact first (here ∙ ap ok none_here))
        | inr n ↦
            verify_sidecars-IsIntact paths path (there ∙ ap ok none_there)
              (rest_of (first == path) (contains paths path) k n)
      ]

  exit_zero : (ps : List VerifyProblem) → ◌≡◌ {A = ℕ} (if length ps == 0 then 0 else 1) 0 → ps ≡ []
  exit_zero [] h = refl
  exit_zero (p ∷ ps) h = absurd (grind (arith, h))

  -- When `veillee verify` ends with exit code 0, every sidecar of the archive can be read, and
  -- `verify_recording` finds no problem in the files that it names.
  pub cmd_verify_passes :
      (path : FilePath)
      → cmd_verify lib yaml disk ≡ ok 0
      → contains (iter_sidecars disk) path ≡ true
      → IsIntact path
  unfolding cmd_verify
  cmd_verify_passes path h k =
      let (problems, found, passed) =
        >>=-eq-ok (verify_sidecars lib yaml disk (iter_sidecars disk)) _ h in
      verify_sidecars-IsIntact (iter_sidecars disk) path
        (found ∙ ap ok (exit_zero problems (ok_injective passed))) k
