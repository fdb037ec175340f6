-- ===== src/Index/Tests.antt =====
-- Rebuilding from one sidecar.
use veillee.Base.{◌≡◌, refl, none, some, [], ◌∷◌, Outcome, ok, err, nat_eq, list_eq, list_beq}
use veillee.Base.Text.{codes}
use veillee.Base.Dict.{lookup}
use veillee.Base.Sort.{sort_by, insert_by}
use veillee.Paths.{recording_dir_for, before_first_dash}
use veillee.Values.{str, seq, nil, mapping, end, field, get_field, text_of, Yaml}
use veillee.Disk.{Disk, is_dir, walk, relative_to}
use veillee.Answers.{attribute_error, iter_answer_files}
use veillee.Sidecars.{
  Library, iter_sidecars, read_sidecar, transcript_path_of, transcript_is_reviewed,
}
use veillee.Photographs.{iter_photographs}
use veillee.Queue.{QueueTable}
use veillee.Samples.{sample_recording}
use veillee.Index.{
  Tables, ReindexReport, load_files, load_answers, load_recordings, load_photographs, file_job,
  file_recording, set_meta, rebuild, clear_index, fill, reindex, committed,
}
use veillee.Index.Rebuild.{rebuild-again, reindex-from_files}

abbrev toy_library : Library
toy_library = record {
  json_loads = λ s. some (
      mapping (
        field (codes "recording_id") (str (codes "20240309-q001"))
          (field (codes "question_id") (str (codes "q001")) end)));
  json_dumps = λ v. [];
  sha256 = λ s. s;
}

abbrev toy_yaml : Yaml
toy_yaml = record { safe_load = λ s. none; safe_dump = λ m. []; repr = λ v. [] }

abbrev one_sidecar : Disk
one_sidecar = (codes "audio" ∷ codes "2024" ∷ codes "03" ∷ codes "a.json" ∷ [], codes "{}") ∷ []

abbrev no_jobs : QueueTable
no_jobs = record { rows = []; next_id = 1 }

abbrev nothing : Tables × ReindexReport
nothing = (
  record { answers = []; recordings = []; photographs = []; queue = no_jobs; meta = [] },
  record { answers = 0; recordings = 0; photographs = 0; queued = 0; problems = [] },
)

abbrev value_or {ℓ κ} : {E : Type ℓ} {A : Type κ} → A → Outcome E A → A
value_or default (ok a) = a
value_or default (err e) = default

abbrev rebuilt : Tables × ReindexReport
rebuilt = value_or nothing (rebuild toy_library toy_yaml 7 [] one_sidecar nothing.0)

rebuilds : rebuild toy_library toy_yaml 7 [] one_sidecar nothing.0 ≡ ok (rebuilt.0, rebuilt.1)
unfolding rebuild clear_index fill load_answers load_recordings load_photographs load_files
    file_recording file_job iter_answer_files iter_sidecars iter_photographs is_dir walk relative_to
    sort_by insert_by read_sidecar transcript_path_of transcript_is_reviewed get_field text_of
    lookup recording_dir_for before_first_dash list_beq
rebuilds = refl

rebuild-again_example :
    rebuild toy_library toy_yaml 9 (codes "t") one_sidecar rebuilt.0
    ≡ ok (
      record rebuilt.0 { meta = set_meta (codes "last_reindex") (codes "t") rebuilt.0.meta },
      record rebuilt.1 { queued = 0 },
    )
rebuild-again_example =
    rebuild-again toy_library toy_yaml 7 9 [] (codes "t") one_sidecar nothing.0 rebuilt.0 rebuilt.1
      rebuilds

reindexes : (reindex toy_library toy_yaml 7 [] one_sidecar nothing.0).1 ≡ ok rebuilt.1
unfolding reindex committed
reindexes = rw rebuilds refl

reindex-from_files_example :
    reindex toy_library toy_yaml 7 [] one_sidecar (record nothing.0 {
      answers = [];
      recordings = (codes "r", sample_recording) ∷ [];
      photographs = [];
    })
    ≡ reindex toy_library toy_yaml 7 [] one_sidecar nothing.0
reindex-from_files_example =
    reindex-from_files toy_library toy_yaml 7 [] one_sidecar nothing.0 []
      ((codes "r", sample_recording) ∷ []) [] rebuilt.1 reindexes

-- A sidecar that is a JSON list.
abbrev listing : Library
listing = record { json_loads = λ s. some (seq nil); json_dumps = λ v. []; sha256 = λ s. s }

raises : (reindex listing toy_yaml 7 [] one_sidecar nothing.0).1 ≡ err attribute_error
unfolding reindex committed rebuild clear_index fill load_answers load_recordings load_photographs
    load_files file_recording file_job iter_answer_files iter_sidecars iter_photographs is_dir walk
    relative_to sort_by insert_by read_sidecar lookup list_beq
raises = refl
