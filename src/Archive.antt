-- ===== src/Archive.antt =====
-- The data directory as a system of steps: handlers that write to it or clear it, in any order and
-- with any of their ends, and the commits of its history. The names that a step makes up, of revisions,
-- temporary files and places in the trash, are new ones. A worker's transcript and a new caption, which
-- are written over a file, are no such steps, and neither are uploads, new questions and refiling.
mod Tests
use veillee.Base.{◌≡◌, Bool, true, false, none, some, Option, List, [], ◌∷◌, ◌==◌, nat_eq, list_eq}
use veillee.Base.Text.{Text}
use veillee.Base.Dict.{lookup}
use veillee.Models.{FilePath, Question, Recording}
use veillee.Values.{Value, Yaml}
use veillee.Disk.{Disk, Fate, temporary, file_name}
use veillee.Disk.Keeps.{Keeps}
use veillee.Answers.{Call, answer_path, revision_path}
use veillee.Photographs.{Photograph}
use veillee.Ingest.{World}
use veillee.Saving.{persist}
use veillee.Repository.{get_recording, get_photograph}
use veillee.Web.{with_disk}
use veillee.Web.Audio.{Site, Visit, delete_recording, doomed_files}
use veillee.Web.Photos.{delete_photograph}
use veillee.Web.Admin.{TranscriptVisit, save_transcript}
use veillee.Web.Keeps.{lands_free}
use veillee.Web.Corrections.{HasNewNames}
use veillee.Git.{Git, autocommit}

pub data Step : World → World → Type 0 where
  save :
      (nfkd : Text → Text) (yaml : Yaml) (call : Call) (fate : Fate) (q : Question)
      (body status : Text) (path : FilePath) (w : World)
      → answer_path nfkd q ≡ some path
      → (call.temp_name == file_name path) ≡ false
      → lookup (revision_path q.id call.stamped) w.disk ≡ none
      → lookup (temporary call.temp_name path) w.disk ≡ none
      → Step w (persist nfkd yaml call fate q body status w).0
  drop_recording :
      (site : Site) (visit : Visit) (rid : Text) (body : Option Value) (w : World)
      → ((r : Recording)
          → get_recording rid w.tables ≡ some r
          → lands_free visit.clock 0 (doomed_files rid r) w.disk ≡ true)
      → Step w (delete_recording site visit rid body w).0
  drop_photograph :
      (site : Site) (visit : Visit) (pid : Text) (body : Option Value) (w : World)
      → ((p : Photograph)
          → get_photograph pid w.tables ≡ some p
          → lands_free visit.clock 0 (p.original_path ∷ p.view_path ∷ p.sidecar_path ∷ []) w.disk
            ≡ true)
      → Step w (delete_photograph site visit pid body w).0
  correct :
      (yaml : Yaml) (visit : TranscriptVisit) (rid body reviewed : Text) (w : World)
      → HasNewNames visit rid w.disk
      → Step w (save_transcript yaml visit rid body reviewed w).0
  commit :
      (git : Git) (message : Text) (enabled : Bool) (w : World)
      → Step w (with_disk (autocommit git message enabled w.disk).0 w)

pub data Reach (w : World) : World → Type 0 where
  here : Reach w w
  next : {u v : World} → Reach w u → Step u v → Reach w v
