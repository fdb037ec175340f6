-- ===== src/Photographs.antt =====
-- storage/photos.py: the paths of a photograph, its sidecar and its checksums. Pillow, which makes the
-- copy for the screen, is not modelled here.
use veillee.Base.{ℕ, List, [], ◌∷◌, ◌++◌, if◌then◌else◌, Outcome, ok, ◌>>=◌}
use veillee.Base.Text.{Text, codes}
use veillee.Models.{FilePath}
use veillee.Paths.{recording_dir_for}
use veillee.Values.{Value, str, num, mapping, end, field, get_field, text_of, Yaml}
use veillee.Disk.{Disk, is_dir, walk, parent, Fate, atomic_write, photographs_dir}
use veillee.Base.Dict.{lookup}
use veillee.Base.{Bool, nat_eq, list_eq}
use veillee.Answers.{ReadError, os_error, key_error, or_error, text_or, int_or}
use veillee.Sidecars.{
  Library, dotted, load_json, mapping_or_empty, path_in, entry, file_entry, Problem, check_file,
}

pub record Photograph : Type 0 where
  pub photo_id : Text
  pub question_id : Text
  pub created : Text
  pub caption : Text
  pub original_path : FilePath
  pub view_path : FilePath
  pub sidecar_path : FilePath
  pub sha256_original : Text
  pub sha256_view : Text
  pub width : ℕ
  pub height : ℕ

pub record PhotoPaths : Type 0 where
  pub original : FilePath
  pub view : FilePath
  pub sidecar : FilePath

unfoldable pub photo_paths : Text → Text → PhotoPaths
photo_paths photo_id original_suffix =
    let directory = photographs_dir ++ recording_dir_for photo_id in
    record {
      original = directory ++ ((photo_id ++ (codes ".orig" ++ dotted original_suffix)) ∷ []);
      view = directory ++ ((photo_id ++ codes ".jpg") ∷ []);
      sidecar = directory ++ ((photo_id ++ codes ".json") ∷ []);
    }

pub record NewPhotograph : Type 0 where
  pub photo_id : Text
  pub question_id : Text
  pub created : Text
  pub caption : Text
  pub width : ℕ
  pub height : ℕ

-- The payload of `write_sidecar`, with the two files as they stand on disk.
unfoldable pub photo_payload : Library → NewPhotograph → PhotoPaths → Text → Text → Value
photo_payload lib p paths original view = mapping (
    field (codes "sidecar_version") (num 1) (
      field (codes "photo_id") (str p.photo_id) (
        field (codes "question_id") (str p.question_id) (
          field (codes "created") (str p.created) (
            field (codes "caption") (str p.caption) (
              field (codes "width") (num p.width) (
                field (codes "height") (num p.height) (
                  field (codes "files")
                    (mapping (
                      field (codes "original") (file_entry lib paths.original original)
                        (field (codes "view") (file_entry lib paths.view view) end)))
                    end))))))))

-- The sidecar of a photograph whose two files are there.
unfoldable pub write_photo_sidecar :
    Library → Text → Fate → NewPhotograph → PhotoPaths → Disk → Outcome ReadError (Disk × Bool)
unfolding photo_payload
write_photo_sidecar lib temp_name fate p paths disk = do
  original ← or_error os_error (lookup paths.original disk)
  view ← or_error os_error (lookup paths.view disk)
  ok (
      atomic_write temp_name fate paths.sidecar
        (lib.json_dumps (photo_payload lib p paths original view) ++ codes "\n") disk)

unfoldable pub read_photograph : Library → Yaml → FilePath → Disk → Outcome ReadError Photograph
read_photograph lib yaml sidecar_path disk = do
  payload ← load_json lib sidecar_path disk
  let directory = parent sidecar_path
  photo_id ← or_error key_error (get_field (codes "photo_id") payload)
  question_id ← or_error key_error (get_field (codes "question_id") payload)
  files ← mapping_or_empty (codes "files") payload
  original_name ← entry yaml.repr files (codes "original") (codes "name")
  view_name ← entry yaml.repr files (codes "view") (codes "name")
  sha256_original ← entry yaml.repr files (codes "original") (codes "sha256")
  sha256_view ← entry yaml.repr files (codes "view") (codes "sha256")
  width ← int_or 0 (codes "width") payload
  height ← int_or 0 (codes "height") payload
  ok (record {
    photo_id = text_of yaml.repr photo_id;
    question_id = text_of yaml.repr question_id;
    created = text_or yaml.repr [] (codes "created") payload;
    caption = text_or yaml.repr [] (codes "caption") payload;
    original_path = path_in directory original_name;
    view_path = path_in directory view_name;
    sidecar_path = sidecar_path;
    sha256_original = sha256_original;
    sha256_view = sha256_view;
    width = width;
    height = height;
  })

unfoldable pub iter_photographs : Disk → List FilePath
iter_photographs disk =
    if is_dir photographs_dir disk then walk (codes ".json") photographs_dir disk else []

unfoldable pub verify_photograph : Library → Disk → Photograph → Outcome ReadError (List Problem)
verify_photograph lib disk p = do
  original ← check_file lib disk (codes "original") p.original_path p.sha256_original
  view ← check_file lib disk (codes "view") p.view_path p.sha256_view
  ok (original ++ view)
