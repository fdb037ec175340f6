-- ===== src/Ingest/Photos.antt =====
-- ingest_photograph of ingest.py: one photograph into the archive and the index. Pillow, which makes
-- the copy for the screen, is the parameter `Pillow`; the git commit is not part of the state.
use veillee.Base.{
  ℕ, Bool, Option, none, some, [], ◌∷◌, if◌then◌else◌, nat_eq, list_eq, Outcome, ok, err,
}
use veillee.Base.Text.{Text, strip, is_space}
use veillee.Base.Dict.{lookup, insert, erase}
use veillee.Models.{FilePath}
use veillee.Paths.{Moment, recording_id, utc_now_iso}
use veillee.Values.{Yaml}
use veillee.Disk.{Disk, move_file, Fate}
use veillee.Answers.{ReadError, move_to_trash}
use veillee.Sidecars.{Library}
use veillee.Photographs.{
  Photograph, PhotoPaths, photo_paths, NewPhotograph, write_photo_sidecar, read_photograph,
}
use veillee.Index.{Tables, upsert_photograph}
use veillee.Ingest.{World, IngestError, arrived_empty, not_a_photograph, interrupted, unreadable}

pub record ViewCopy : Type 0 where
  pub jpeg : Text
  pub width : ℕ
  pub height : ℕ

-- `none` is the PhotoError of a file that is no photograph.
pub record Pillow : Type 0 where
  pub make_view_copy : Text → Option ViewCopy

pub record PhotoUpload : Type 0 where
  pub question_id : Text
  pub source_path : FilePath
  pub original_suffix : Text
  pub caption : Text
  pub moment : Moment
  pub created : Moment
  pub trashed : Moment
  pub temp_name : Text

abbrev pub photo_upload_paths : PhotoUpload → PhotoPaths
photo_upload_paths u = photo_paths (recording_id u.question_id u.moment) u.original_suffix

abbrev pub described_photo : PhotoUpload → ViewCopy → NewPhotograph
described_photo u view = record {
  photo_id = recording_id u.question_id u.moment;
  question_id = u.question_id;
  created = utc_now_iso u.created;
  caption = strip is_space u.caption;
  width = view.width;
  height = view.height;
}

abbrev pub file_photo :
    Disk → Tables → Outcome ReadError Photograph → World × Outcome IngestError Photograph
file_photo disk t (err e) = (record { disk = disk; tables = t }, err (unreadable e))
file_photo disk t (ok p) = (
  record { disk = disk; tables = record t { photographs = upsert_photograph p t.photographs } },
  ok p,
)

abbrev pub after_photo_sidecar :
    Library
    → Yaml
    → PhotoUpload
    → Disk
    → Tables
    → Outcome ReadError (Disk × Bool)
    → World × Outcome IngestError Photograph
after_photo_sidecar lib yaml u disk t (err e) =
    (record { disk = disk; tables = t }, err (unreadable e))
after_photo_sidecar lib yaml u disk t (ok (after, returned)) =
    let filed =
      file_photo after t (read_photograph lib yaml (photo_upload_paths u).sidecar after) in
    if returned then filed else (record { disk = after; tables = t }, err interrupted)

-- The original is in its place. Without a copy for the screen it goes to the trash.
unfoldable pub make_view :
    Library
    → Yaml
    → Pillow
    → Fate
    → PhotoUpload
    → Text
    → Disk
    → Tables
    → World × Outcome IngestError Photograph
make_view lib yaml pillow fate u original disk t =
    let paths = photo_upload_paths u in
    elim (pillow.make_view_copy original) [
      | none ↦ (
        record {
          disk = (move_to_trash u.trashed paths.original (erase paths.view disk)).0;
          tables = t;
        },
        err not_a_photograph,
      )
      | some view ↦
          let viewed = insert paths.view view.jpeg disk in
          after_photo_sidecar lib yaml u viewed t
            (write_photo_sidecar lib u.temp_name fate (described_photo u view) paths viewed)
    ]

unfoldable pub ingest_photograph :
    Library → Yaml → Pillow → Fate → PhotoUpload → World → World × Outcome IngestError Photograph
unfolding make_view
ingest_photograph lib yaml pillow fate u w = elim (lookup u.source_path w.disk) [
  | none ↦ (w, err arrived_empty)
  | some [] ↦ (w, err arrived_empty)
  | some (c ∷ bytes) ↦
      make_view lib yaml pillow fate u (c ∷ bytes)
        (move_file u.source_path (photo_upload_paths u).original w.disk) w.tables
]
