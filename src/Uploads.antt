-- ===== src/Uploads.antt =====
-- The chunked uploads of ingest.py: chunks are files below the uploads directory.
pub mod Chunks
pub mod Order
mod Tests
use veillee.Base.{
  ℕ, Bool, true, false, Option, none, some, List, [], ◌∷◌, ◌++◌, if◌then◌else◌, Outcome, ok, err,
  nat_eq, list_eq,
}
use veillee.Base.Text.{Text, codes}
use veillee.Base.Dict.{lookup, insert, erase}
use veillee.Base.Decimal.{pad}
use veillee.Models.{FilePath}
use veillee.Paths.{Moment, revision_stamp}
use veillee.Values.{Value, mapping, Fields, end}
use veillee.Disk.{
  Disk, is_dir, children, move_file, relative_to, paths_of, Fate, atomic_write, uploads_dir,
  trash_dir,
}
use veillee.Sidecars.{Library}

pub data UploadError : Type 0 where
  not_open no_audio not_json : UploadError

abbrev pub upload_dir : Text → FilePath
upload_dir upload_id = uploads_dir ++ (upload_id ∷ [])

abbrev pub meta_path : Text → FilePath
meta_path upload_id = upload_dir upload_id ++ (codes "meta.json" ∷ [])

-- The disk afterwards, and whether the call returned.
unfoldable pub start_upload : Library → Text → Fate → Text → Fields → Disk → Disk × Bool
start_upload lib temp_name fate upload_id metadata disk =
    atomic_write temp_name fate (meta_path upload_id)
      (lib.json_dumps (mapping metadata) ++ codes "\n") disk

-- f"{index:05d}.part"
unfoldable pub chunk_name : ℕ → Text
chunk_name index = pad 5 index ++ codes ".part"

abbrev pub chunk_path : Text → ℕ → FilePath
chunk_path upload_id index = upload_dir upload_id ++ (chunk_name index ∷ [])

unfoldable pub write_chunk : Text → ℕ → Text → Disk → Disk × Outcome UploadError FilePath
unfolding move_file
write_chunk upload_id index payload disk =
    let part = chunk_path upload_id index in
    let partial = upload_dir upload_id ++ ((chunk_name index ++ codes ".tmp") ∷ []) in
    if is_dir (upload_dir upload_id) disk
    then (move_file partial part (insert partial payload disk), ok part)
    else (disk, err not_open)

abbrev fields_or_empty : Value → Fields
fields_or_empty (mapping fs) = fs
fields_or_empty v = end

unfoldable pub read_upload_metadata : Library → Text → Disk → Outcome UploadError Fields
read_upload_metadata lib upload_id disk = elim (lookup (meta_path upload_id) disk) [
  | none ↦ err not_open
  | some text ↦ elim (lib.json_loads text) [ none ↦ err not_json | some v ↦ ok (fields_or_empty v) ]
]

-- The bytes of each file in turn.
unfoldable pub contents : List FilePath → Disk → Text
contents [] disk = []
contents (p ∷ ps) disk = elim (lookup p disk) [
  | none ↦ contents ps disk
  | some text ↦ text ++ contents ps disk
]

abbrev no_chunks : List FilePath → Bool
no_chunks [] = true
no_chunks (p ∷ ps) = false

abbrev is_empty : Text → Bool
is_empty [] = true
is_empty (c ∷ s) = false

unfoldable pub assemble_chunks : Text → Text → Disk → Disk × Outcome UploadError FilePath
unfolding contents
assemble_chunks upload_id suffix disk =
    let directory = upload_dir upload_id in
    let chunks = children (codes ".part") directory disk in
    let assembled = directory ++ ((codes "assembled" ++ suffix) ∷ []) in
    let bytes = contents chunks disk in
    if no_chunks chunks
    then (disk, err no_audio)
    else (insert assembled bytes disk, if is_empty bytes then err no_audio else ok assembled)

-- shutil.move of a directory: each file below it goes to the same place below the destination.
unfoldable pub move_dir : FilePath → FilePath → Disk → Disk
move_dir directory destination [] = []
move_dir directory destination ((path, text) ∷ disk) =
    let rest = move_dir directory destination disk in
    elim (relative_to directory path) [
      | none ↦ (path, text) ∷ rest
      | some relative ↦ (destination ++ relative, text) ∷ rest
    ]

unfoldable pub discard_upload : Moment → Text → Disk → Disk
unfolding move_dir
discard_upload m upload_id disk =
    if is_dir (upload_dir upload_id) disk
    then move_dir (upload_dir upload_id)
        (trash_dir ++ (revision_stamp m ∷ codes "uploads" ∷ upload_id ∷ [])) disk
    else disk
