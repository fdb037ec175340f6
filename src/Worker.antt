-- ===== src/Worker.antt =====
-- worker.py: one job of the transcription worker, and its loop. The speech model is the parameter
-- `Speech`. The commit to the archive's git history is not part of the state.
-- Of an error's message only its constant text is kept.
pub mod Drain
mod Tests
use veillee.Base.{
  ℕ, Bool, true, false, Option, none, some, List, [], ◌∷◌, ◌||◌, ◌&&◌, if◌then◌else◌, nat_eq,
  list_eq, Outcome, ok, err,
}
use veillee.Base.Text.{Text, codes}
use veillee.Base.Dict.{Dict, lookup, insert}
use veillee.Models.{FilePath, Recording}
use veillee.Values.{Value, Yaml}
use veillee.Disk.{Disk, Fate}
use veillee.Sidecars.{Library, transcript_path_of}
use veillee.Transcripts.{
  Speech, SpeechSettings, TranscribeError, failed, uncaught, Transcription, TwoWrites, transcribe,
  write_transcript,
}
use veillee.Transcripts.Spoken.{Letters}
use veillee.Ingest.{World}
use veillee.Queue.{QueueTable, QueueJob, claim_next, complete, fail, recover_stale}
use veillee.Repository.{get_recording}

-- UPDATE recordings SET transcript_path = ... WHERE recording_id = ...
unfoldable pub set_transcript : Text → FilePath → Dict Text Recording → Dict Text Recording
set_transcript rid path rows = elim (lookup rid rows) [
  | none ↦ rows
  | some r ↦ insert rid (record r { transcript_path = some path }) rows
]

-- The rest of the program that a worker runs on, and what its settings say.
pub record Setup : Type 0 where
  pub letters : Letters
  pub repr : Value → Text
  pub library : Library
  pub yaml : Yaml
  pub settings : SpeechSettings
  pub max_attempts : ℕ

-- How one turn of the loop ends: there was nothing to do, a job was handled, the database raised an
-- sqlite3.Error and the loop backed off, or an exception that no handler catches, or a signal, ended
-- the process.
pub data Turn : Type 0 where
  idle worked backed_off stopped : Turn

-- Which statement of a turn raises an sqlite3.Error, if one does: the claim, the reading of the
-- recording, the UPDATE of its path, or the one that completes or fails the job.
pub data Database : Type 0 where
  works claim_raises lookup_raises update_raises settling_raises : Database

abbrev pub at_claim : Database → Bool
at_claim claim_raises = true
at_claim d = false

abbrev pub at_lookup : Database → Bool
at_lookup lookup_raises = true
at_lookup d = false

abbrev pub at_update : Database → Bool
at_update update_raises = true
at_update d = false

abbrev pub at_settling : Database → Bool
at_settling settling_raises = true
at_settling d = false

abbrev succeeds : Fate → Bool
succeeds Fate.completes = true
succeeds fate = false

abbrev dies : Fate → Bool
dies (Fate.write_dies n) = true
dies Fate.replace_dies = true
dies Fate.dies_after = true
dies fate = false

abbrev pub with_queue : QueueTable → World → World
with_queue q w = record w { tables = record w.tables { queue = q } }

-- The clock, the speech model or service, the database and the atomic writes of one turn.
pub record Circumstances : Type 0 where
  pub speech : Speech
  pub database : Database
  pub now : ℕ
  pub writes : TwoWrites

-- How `_transcribe_job` ends.
pub data JobEnd : Type 0 where
  returned killed raised_other queue_error : JobEnd
  raised : Text → JobEnd

abbrev pub cut_off : Bool → JobEnd
cut_off died = if died then killed else raised (codes "OSError")

module _ (setup : Setup) (c : Circumstances) where
  abbrev pub transcript_filed : Text → World → Disk × Bool → World × JobEnd
  transcript_filed rid w (disk, false) = (
    record w { disk = disk },
    cut_off
        (dies c.writes.first_fate || (succeeds c.writes.first_fate && dies c.writes.second_fate)),
  )
  transcript_filed rid w (disk, true) =
      if at_update c.database then (record w { disk = disk }, queue_error) else (
        record {
          disk = disk;
          tables = record w.tables {
            recordings = set_transcript rid (transcript_path_of rid) w.tables.recordings;
          };
        },
        returned,
      )

  abbrev pub heard_out :
      Text → Recording → World → Outcome TranscribeError Transcription → World × JobEnd
  heard_out rid r w (err (failed e)) = (w, raised e)
  heard_out rid r w (err (uncaught e)) = (w, raised_other)
  heard_out rid r w (ok t) = transcript_filed rid w (
      write_transcript setup.letters setup.library setup.yaml c.writes
        (record { recording_id = r.recording_id; question_id = r.question_id; created = r.created })
        t w.disk)

  -- `_transcribe_job`
  unfoldable pub transcribe_job : Text → Recording → World → World × JobEnd
  unfolding transcribe write_transcript set_transcript
  transcribe_job rid r w =
      heard_out rid r w (transcribe c.speech setup.repr setup.settings r.flac_path w.disk)

  unfoldable pub settle : QueueJob → World × JobEnd → World × Turn
  settle job (w, returned) =
      if at_settling c.database
      then (w, backed_off)
      else (with_queue (complete c.now job.id w.tables.queue) w, worked)
  settle job (w, raised error) =
      if at_settling c.database
      then (w, backed_off)
      else (with_queue (fail c.now job error setup.max_attempts w.tables.queue).0 w, worked)
  settle job (w, queue_error) = (w, backed_off)
  settle job (w, killed) = (w, stopped)
  settle job (w, raised_other) = (w, stopped)

  unfoldable pub handle_found : QueueJob → World → Option Recording → World × Turn
  unfolding settle transcribe_job
  handle_found job w none = settle job (w, raised (codes "recording is not in the index"))
  handle_found job w (some r) = settle job (transcribe_job job.recording_id r w)

  unfoldable pub handle_job : QueueJob → World → World × Turn
  unfolding handle_found
  handle_job job w =
      if at_lookup c.database
      then (w, backed_off)
      else handle_found job w (get_recording job.recording_id w.tables)

  unfoldable pub run_claimed : World → Option QueueJob → World × Turn
  unfolding handle_job
  run_claimed w none = (w, idle)
  run_claimed w (some job) = handle_job job w

  unfoldable pub run_once : World → World × Turn
  unfolding run_claimed
  run_once w =
      if at_claim c.database
      then (w, backed_off)
      else let (queue, claimed) = claim_next c.now w.tables.queue in
        run_claimed (with_queue queue w) claimed

module _ (setup : Setup) where
  abbrev pub goes_on : (World → World × List Turn) → World × Turn → World × List Turn
  goes_on rest (w, stopped) = (w, stopped ∷ [])
  goes_on rest (w, turn) = let (after, turns) = rest w in (after, turn ∷ turns)

  -- The turns of `while self.running`, one for each of the given circumstances, and how they end.
  unfoldable pub loop : List Circumstances → World → World × List Turn
  unfolding run_once
  loop [] w = (w, [])
  loop (c ∷ cs) w = goes_on (loop cs) (run_once setup c w)

  unfoldable pub run : ℕ → List Circumstances → World → World × List Turn
  unfolding loop
  run now cs w = loop cs (with_queue (recover_stale now w.tables.queue).0 w)
