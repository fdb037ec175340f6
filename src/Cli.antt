-- ===== src/Cli.antt =====
-- cli.py: the commands and their exit codes. What they print is left out, and so are the server and the
-- parser of arguments.
pub mod Verified
mod Tests
use veillee.Base.{
  ℕ, ◌+◌, Bool, true, false, Option, none, some, List, [], ◌∷◌, ◌++◌, length, if◌then◌else◌, ◌==◌,
  nat_eq, list_eq, Outcome, ok, err, ◌>>=◌,
}
use veillee.Base.Text.{Text}
use veillee.Models.{FilePath, Recording}
use veillee.Values.{Value, Yaml}
use veillee.Disk.{Disk}
use veillee.Answers.{ReadError, frontmatter_error, os_error, value_error, key_error}
use veillee.Sidecars.{Library, Problem, iter_sidecars, read_sidecar, verify_recording}
use veillee.Index.{Tables, ReindexReport, reindex}
use veillee.Ingest.{World}
use veillee.Refile.{
  RefileVisit, RefileError, reassign_error, other_error, died, Refiled, move_recording,
}
use veillee.Export.Manifest.{ManifestProblem, verify_manifest}
use veillee.Export.Site.{ExportResult}

-- report.ok
abbrev is_ok : ReindexReport → Bool
is_ok report = length report.problems == 0

abbrev exit_of : Outcome ReadError ReindexReport → Outcome ReadError ℕ
exit_of (err e) = err e
exit_of (ok report) = ok (if is_ok report then 0 else 1)

unfoldable pub cmd_reindex : Library → Yaml → ℕ → Text → World → World × Outcome ReadError ℕ
cmd_reindex lib yaml now stamp w =
    let (tables, result) = reindex lib yaml now stamp w.disk w.tables in
    (record w { tables = tables }, exit_of result)

pub data VerifyProblem : Type 0 where
  unreadable_sidecar : FilePath → VerifyProblem
  damaged : Problem → VerifyProblem

abbrev pub damages : List Problem → List VerifyProblem
damages [] = []
damages (p ∷ ps) = damaged p ∷ damages ps

-- `except (OSError, ValueError, KeyError)`
abbrev pub checked_sidecar :
    Library → Disk → FilePath → Outcome ReadError Recording → Outcome ReadError (List VerifyProblem)
checked_sidecar lib disk path (ok r) = do
  problems ← verify_recording lib disk r
  ok (damages problems)
checked_sidecar lib disk path (err os_error) = ok (unreadable_sidecar path ∷ [])
checked_sidecar lib disk path (err value_error) = ok (unreadable_sidecar path ∷ [])
checked_sidecar lib disk path (err key_error) = ok (unreadable_sidecar path ∷ [])
checked_sidecar lib disk path (err (frontmatter_error e)) = ok (unreadable_sidecar path ∷ [])
checked_sidecar lib disk path (err e) = err e

unfoldable pub verify_sidecars :
    Library → Yaml → Disk → List FilePath → Outcome ReadError (List VerifyProblem)
verify_sidecars lib yaml disk [] = ok []
verify_sidecars lib yaml disk (path ∷ paths) = do
  problems ← checked_sidecar lib disk path (read_sidecar lib yaml path disk)
  rest ← verify_sidecars lib yaml disk paths
  ok (problems ++ rest)

unfoldable pub cmd_verify : Library → Yaml → Disk → Outcome ReadError ℕ
unfolding verify_sidecars iter_sidecars
cmd_verify lib yaml disk = do
  problems ← verify_sidecars lib yaml disk (iter_sidecars disk)
  ok (if length problems == 0 then 0 else 1)

-- The exit code after the export's folder was written and checked against its manifest.
unfoldable pub cmd_export :
    Library → (Value → Text) → Disk × Option ExportResult → Option (Outcome ReadError ℕ)
cmd_export lib repr (folder, none) = none
cmd_export lib repr (folder, some result) =
    some (do problems ← verify_manifest lib repr folder; ok (if length problems == 0 then 0 else 1))

-- A command ends with an exit code, or with an exception.
abbrev reindexed : Disk → Tables × Outcome ReadError ReindexReport → World × Option ℕ
reindexed disk (tables, err e) = (record { disk = disk; tables = tables }, none)
reindexed disk (tables, ok report) = (record { disk = disk; tables = tables }, some 0)

abbrev refiled_world :
    (Disk → Tables × Outcome ReadError ReindexReport) → Tables → Refiled → World × Option ℕ
refiled_world rebuild t (disk, ok ids) = reindexed disk (rebuild disk)
refiled_world rebuild t (disk, err reassign_error) = (record { disk = disk; tables = t }, some 1)
refiled_world rebuild t (disk, err e) = (record { disk = disk; tables = t }, none)

unfoldable pub cmd_move_recording :
    Library → Yaml → RefileVisit → ℕ → Text → Text → Text → World → World × Option ℕ
cmd_move_recording lib yaml visit now stamp recording_id new_question_id w =
    refiled_world (λ disk. reindex lib yaml now stamp disk w.tables) w.tables
      (move_recording lib yaml visit recording_id new_question_id w.disk)
