-- ===== src/Archive/Tests.antt =====
-- A recording is deleted, and the change is committed.
use veillee.Base.{true, none, some, nat_eq, list_eq}
use veillee.Base.Text.{codes}
use veillee.Disk.Keeps.{Keeps}
use veillee.Ingest.{World}
use veillee.Git.{Git, autocommit}
use veillee.Web.{with_disk}
use veillee.Web.Audio.{delete_recording}
use veillee.Samples.{sample_world, no_jobs, sample_site, sample_visit, confirming}

abbrev no_git : Git
no_git = record { run = λ args disk. none; directory_ready = true; has_repository = true }

abbrev start : World
start = sample_world no_jobs

abbrev after_delete : World
after_delete =
    (delete_recording sample_site sample_visit (codes "r") (some (confirming (codes "delete")))
      start).0

abbrev after_commit : World
after_commit =
    with_disk (autocommit no_git (codes "recording: r moved to trash") true after_delete.disk).0
      after_delete
