-- ===== src/Git/Tests.antt =====
-- A commit when git cannot be run.
use veillee.Base.{◌≡◌, refl, true, none, some, [], ◌∷◌, nat_eq, list_eq, list_beq}
use veillee.Base.Text.{codes}
use veillee.Base.Dict.{lookup}
use veillee.Disk.{Disk}
use veillee.Git.{Git, autocommit}
use veillee.Git.Status.{in_order, autocommit-reports}

abbrev no_git : Git
no_git = record { run = λ args disk. none; directory_ready = true; has_repository = true }

abbrev one_file : Disk
one_file = (codes "a" ∷ [], codes "text") ∷ []

file_there : lookup (codes "a" ∷ []) one_file ≡ some (codes "text")
unfolding lookup list_beq
file_there = refl

autocommit-reports_example :
    (in_order (autocommit no_git (codes "saved") true one_file).1
      ≡ (autocommit no_git (codes "saved") true one_file).2)
    × (lookup (codes "a" ∷ []) (autocommit no_git (codes "saved") true one_file).0
        ≡ some (codes "text"))
autocommit-reports_example =
    autocommit-reports no_git (codes "saved") true one_file (codes "a" ∷ []) (codes "text")
      file_there
