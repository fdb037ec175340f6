-- ===== src/Ingest.antt =====
-- ingest_recording of ingest.py: one audio file into the archive, the index and the queue. ffmpeg is
-- the parameter `Audio`; the commit to the archive's git history is not part of the state.
pub mod Originals
pub mod Photos
pub mod Refusal
mod Tests
use veillee.Base.{
  ℕ, Bool, true, false, not, Option, none, some, List, [], ◌∷◌, ◌++◌, if◌then◌else◌, take, ◌==◌,
  nat_eq, list_eq, Outcome, ok, err,
}
use veillee.Base.Text.{Text}
use veillee.Base.Dict.{lookup, insert, erase}
use veillee.Models.{FilePath, Recording}
use veillee.Paths.{Moment, recording_id, utc_now_iso}
use veillee.Values.{Yaml}
use veillee.Disk.{Disk, move_file, Fate}
use veillee.Answers.{ReadError}
use veillee.Sidecars.{
  Library, RecordingPaths, recording_paths, NewRecording, write_sidecar, read_sidecar,
}
use veillee.Index.{Tables, upsert_recording}
use veillee.Queue.{enqueue}

pub record Audio : Type 0 where
  pub is_decodable : Text → Bool
  pub to_flac : Text → Option Text
  pub to_opus : Text → Option Text
  pub probe_ms : Text → ℕ

pub record World : Type 0 where
  pub disk : Disk
  pub tables : Tables

pub data IngestError : Type 0 where
  arrived_empty not_audio not_converted not_a_photograph interrupted : IngestError
  unreadable : ReadError → IngestError

-- The arguments of one call, with its clocks and the name of its temporary file.
pub record Upload : Type 0 where
  pub question_id : Text
  pub source_path : FilePath
  pub original_suffix : Text
  pub device : Text
  pub source : Text
  pub moment : Moment
  pub created : Moment
  pub now : ℕ
  pub temp_name : Text

abbrev pub upload_paths : Upload → RecordingPaths
upload_paths u = recording_paths (recording_id u.question_id u.moment) u.original_suffix

-- `_cleanup`
unfoldable pub cleanup : RecordingPaths → Disk → Disk
cleanup paths disk = erase paths.sidecar (erase paths.opus (erase paths.flac disk))

-- `probe_duration(flac) or probe_duration(original)`
abbrev or_number : ℕ → ℕ → ℕ
or_number m n = if m == 0 then n else m

abbrev described : Audio → Upload → Text → Text → NewRecording
described audio u original flac = record {
  recording_id = recording_id u.question_id u.moment;
  question_id = u.question_id;
  created = utc_now_iso u.created;
  duration_ms = or_number (audio.probe_ms flac) (audio.probe_ms original);
  device = take 300 u.device;
  source = u.source;
}

abbrev pub file_read :
    Upload → Disk → Tables → Outcome ReadError Recording → World × Outcome IngestError Recording
file_read u disk t (err e) = (record { disk = disk; tables = t }, err (unreadable e))
file_read u disk t (ok r) = (
  record {
    disk = disk;
    tables = record t {
      recordings = upsert_recording r t.recordings;
      queue = (enqueue u.now (recording_id u.question_id u.moment) t.queue).0;
    };
  },
  ok r,
)

abbrev pub after_sidecar :
    Library
    → Yaml
    → Upload
    → Disk
    → Tables
    → Outcome ReadError (Disk × Bool)
    → World × Outcome IngestError Recording
after_sidecar lib yaml u disk t (err e) = (record { disk = disk; tables = t }, err (unreadable e))
after_sidecar lib yaml u disk t (ok (after, returned)) =
    let filed = file_read u after t (read_sidecar lib yaml (upload_paths u).sidecar after) in
    if returned then filed else (record { disk = after; tables = t }, err interrupted)

-- The original is in its place: convert it, describe it and file it.
unfoldable pub convert :
    Library
    → Yaml
    → Audio
    → Fate
    → Upload
    → Text
    → Disk
    → Tables
    → World × Outcome IngestError Recording
unfolding cleanup
convert lib yaml audio fate u original disk t =
    let paths = upload_paths u in
    elim (audio.to_flac original) [
      | none ↦ (record { disk = cleanup paths disk; tables = t }, err not_converted)
      | some flac ↦
          let with_flac = insert paths.flac flac disk in
          elim (audio.to_opus original) [
            | none ↦ (record { disk = cleanup paths with_flac; tables = t }, err not_converted)
            | some opus ↦
                let converted = insert paths.opus opus with_flac in
                after_sidecar lib yaml u converted t (
                  write_sidecar lib u.temp_name fate (described audio u original flac) paths
                    converted)
          ]
    ]

unfoldable pub ingest_recording :
    Library → Yaml → Audio → Fate → Upload → World → World × Outcome IngestError Recording
unfolding convert move_file
ingest_recording lib yaml audio fate u w = elim (lookup u.source_path w.disk) [
  | none ↦ (w, err arrived_empty)
  | some [] ↦ (w, err arrived_empty)
  | some (c ∷ bytes) ↦
      if not (audio.is_decodable (c ∷ bytes))
      then (w, err not_audio)
      else convert lib yaml audio fate u (c ∷ bytes)
          (move_file u.source_path (upload_paths u).original w.disk) w.tables
]
