-- ===== src/Ingest/Tests.antt =====
-- A file whose conversion fails.
use veillee.Base.{◌≡◌, refl, true, false, none, some, [], ◌∷◌, ◌==◌, nat_eq, list_eq, list_beq}
use veillee.Base.Text.{codes, starts_with}
use veillee.Base.Dict.{lookup}
use veillee.Base.Decimal.{pad, decimal, decimal_from}
use veillee.Models.{FilePath}
use veillee.Paths.{Moment, recording_id, recording_dir_for, before_first_dash}
use veillee.Values.{Yaml}
use veillee.Disk.{completes, temporary}
use veillee.Sidecars.{Library, recording_paths}
use veillee.Ingest.{Audio, World, Upload, upload_paths, ingest_recording}
use veillee.Answers.{trash_path}
use veillee.Ingest.{not_a_photograph}
use veillee.Ingest.Photos.{Pillow, PhotoUpload, photo_upload_paths, ingest_photograph}
use veillee.Ingest.Refusal.{ingest_photograph-refuses}
use veillee.Base.{err}
use veillee.Ingest.Originals.{ingest_recording-keeps_original}

abbrev toy_library : Library
toy_library = record { json_loads = λ s. none; json_dumps = λ v. []; sha256 = λ s. s }

abbrev toy_yaml : Yaml
toy_yaml = record { safe_load = λ s. none; safe_dump = λ m. []; repr = λ v. [] }

abbrev no_opus : Audio
no_opus = record {
  is_decodable = λ s. true;
  to_flac = λ s. some s;
  to_opus = λ s. none;
  probe_ms = λ s. 0;
}

abbrev noon : Moment
noon = record {
  year = 2024;
  month = 3;
  day = 9;
  hour = 12;
  minute = 0;
  second = 5;
  microsecond = 7;
}

abbrev staged : FilePath
staged = codes ".uploads" ∷ codes "u" ∷ codes "assembled.m4a" ∷ []

abbrev upload : Upload
upload = record {
  question_id = codes "q001";
  source_path = staged;
  original_suffix = codes "m4a";
  device = [];
  source = codes "upload";
  moment = noon;
  created = noon;
  now = 0;
  temp_name = codes ".tmp-x.part";
}

abbrev world : World
world = record {
  disk = (staged, codes "ab") ∷ [];
  tables = record {
    answers = [];
    recordings = [];
    photographs = [];
    queue = record { rows = []; next_id = 1 };
    meta = [];
  };
}

staged_holds : lookup staged world.disk ≡ some (codes "ab")
unfolding lookup list_beq
staged_holds = refl

names_differ :
    ((temporary upload.temp_name (upload_paths upload).sidecar == (upload_paths upload).sidecar)
      ≡ false)
    × ((temporary upload.temp_name (upload_paths upload).sidecar == (upload_paths upload).original)
        ≡ false)
unfolding recording_paths recording_id recording_dir_for before_first_dash pad decimal decimal_from
    starts_with list_beq
names_differ = (refl, refl)

ingest_recording-keeps_original_example :
    lookup
      (upload_paths upload).original
      (ingest_recording toy_library toy_yaml no_opus completes upload world).0.disk
    ≡ some (codes "ab")
ingest_recording-keeps_original_example =
    ingest_recording-keeps_original toy_library toy_yaml no_opus completes upload world b'a'
      (codes "b") staged_holds refl names_differ.0 names_differ.1

abbrev no_pillow : Pillow
no_pillow = record { make_view_copy = λ s. none }

abbrev photo : PhotoUpload
photo = record {
  question_id = codes "q001";
  source_path = staged;
  original_suffix = codes ".jpg";
  caption = [];
  moment = noon;
  created = noon;
  trashed = noon;
  temp_name = codes ".tmp-x.part";
}

ingest_photograph-refuses_example :
    ((ingest_photograph toy_library toy_yaml no_pillow completes photo world).1
      ≡ err not_a_photograph)
    × ((ingest_photograph toy_library toy_yaml no_pillow completes photo world).0.tables
        ≡ world.tables)
    × (lookup
          (trash_path noon (photo_upload_paths photo).original)
          (ingest_photograph toy_library toy_yaml no_pillow completes photo world).0.disk
        ≡ some (codes "ab"))
ingest_photograph-refuses_example =
    ingest_photograph-refuses toy_library toy_yaml no_pillow completes photo world b'a' (codes "b")
      staged_holds refl
