-- ===== src/Web/Photos.antt =====
-- web/routes_photos.py: taking in a photograph, sending it, its caption, and deleting it.
use veillee.Base.{
  ℕ, Bool, true, false, not, Option, none, some, List, [], ◌∷◌, ◌++◌, ltb, length, if◌then◌else◌,
  nat_eq, list_eq, Outcome, ok, err,
}
use veillee.Base.Text.{Text, codes, strip, is_space}
use veillee.Base.Dict.{Dict, insert, lookup}
use veillee.Models.{FilePath}
use veillee.Paths.{Moment}
use veillee.Values.{Value, str, mapping, set_field, end, field}
use veillee.Questions.{QuestionBank, by_id}
use veillee.Disk.{Disk, atomic_write}
use veillee.Photographs.{Photograph}
use veillee.Ingest.{World}
use veillee.Ingest.Photos.{Pillow, PhotoUpload, ingest_photograph}
use veillee.Uploads.{start_upload, upload_dir}
use veillee.Repository.{get_photograph, delete_photograph_row}
use veillee.Web.{
  HttpError, refused, unhandled, Reply, with_disk, safe_id, suffix_for, is_confirmed, receive,
  end_upload, trash_all, send_file,
}
use veillee.Web.Audio.{Site, Visit, cut_short}

abbrev pub max_caption : ℕ
max_caption = 2000

abbrev photo_suffixes : List Text
photo_suffixes =
    codes ".jpg"
    ∷ codes ".jpeg"
    ∷ codes ".png"
    ∷ codes ".heic"
    ∷ codes ".heif"
    ∷ codes ".webp"
    ∷ codes ".tif"
    ∷ codes ".tiff"
    ∷ []

module _ (site : Site) (visit : Visit) where
  abbrev pub photo_upload_of : Text → FilePath → Text → Text → PhotoUpload
  photo_upload_of question_id source_path suffix caption = record {
    question_id = question_id;
    source_path = source_path;
    original_suffix = suffix;
    caption = caption;
    moment = visit.moment;
    created = visit.created;
    trashed = visit.clock 0;
    temp_name = visit.temp_name;
  }

  -- The staging directory is there: the file is received and taken in.
  unfoldable pub receive_photograph :
      Pillow → Text → Text → Text → List Text → World → Reply Photograph
  unfolding receive ingest_photograph end_upload
  receive_photograph pillow question_id suffix caption pieces w =
      let staging = upload_dir visit.fresh_id ++ ((codes "incoming" ++ suffix) ∷ []) in
      let (bytes, fits) = receive site.max_upload_bytes 0 pieces in
      let staged = with_disk (insert staging bytes w.disk) w in
      if fits
      then end_upload visit.fate visit.discard visit.fresh_id (
          ingest_photograph site.library site.yaml pillow visit.fate
            (photo_upload_of question_id staging suffix caption) staged)
      else (staged, err (refused 413))

  abbrev photo_started : (World → Reply Photograph) → World → Disk × Bool → Reply Photograph
  photo_started then_do w (disk, false) = (with_disk disk w, err (cut_short visit.start_fate))
  photo_started then_do w (disk, true) = then_do (with_disk disk w)

  unfoldable pub upload_photograph :
      Pillow → QuestionBank → Text → Text → Text → List Text → World → Reply Photograph
  unfolding start_upload receive_photograph suffix_for
  upload_photograph pillow bank question_id filename caption pieces w =
      elim (by_id bank question_id) [
        | none ↦ (w, err (refused 404))
        | some q ↦
            if ltb max_caption (length caption)
            then (w, err (refused 422))
            else photo_started
                (receive_photograph pillow question_id
                  (suffix_for site.lower photo_suffixes (codes ".jpg") filename) caption pieces)
                w
                (start_upload site.library visit.temp_name visit.start_fate visit.fresh_id
                  (field (codes "question_id") (str question_id) end) w.disk)
      ]

abbrev send_copy : (Photograph → FilePath) → World → Option Photograph → Outcome HttpError Text
send_copy which w none = err (refused 404)
send_copy which w (some p) = send_file (which p) w

unfoldable pub view_photograph : Text → World → Outcome HttpError Text
unfolding safe_id
view_photograph photo_id w =
    if safe_id photo_id
    then send_copy (λ p. p.view_path) w (get_photograph photo_id w.tables)
    else err (refused 400)

unfoldable pub original_photograph : Text → World → Outcome HttpError Text
unfolding safe_id
original_photograph photo_id w =
    if safe_id photo_id
    then send_copy (λ p. p.original_path) w (get_photograph photo_id w.tables)
    else err (refused 400)

-- UPDATE photographs SET caption = ... WHERE photo_id = ...
unfoldable pub update_caption : Text → Text → Dict Text Photograph → Dict Text Photograph
update_caption photo_id caption rows = elim (lookup photo_id rows) [
  | none ↦ rows
  | some p ↦ insert photo_id (record p { caption = caption }) rows
]

module _ (site : Site) (visit : Visit) where
  abbrev caption_saved : Text → Text → World → Disk × Bool → Reply Text
  caption_saved photo_id caption w (disk, false) = (with_disk disk w, err (cut_short visit.fate))
  caption_saved photo_id caption w (disk, true) = (
    record {
      disk = disk;
      tables = record w.tables {
        photographs = update_caption photo_id caption w.tables.photographs;
      };
    },
    ok caption,
  )

  -- The sidecar as it was read: `none` where it is not there or is not JSON.
  abbrev rewrite_caption : Text → Text → FilePath → Option Value → World → Reply Text
  rewrite_caption photo_id caption sidecar (some (mapping fs)) w =
      caption_saved photo_id caption w (
        atomic_write visit.temp_name visit.fate sidecar
          (site.library.json_dumps (mapping (set_field (codes "caption") (str caption) fs))
            ++ codes "\n")
          w.disk)
  rewrite_caption photo_id caption sidecar payload w = (w, err unhandled)

  abbrev load_sidecar : FilePath → Disk → Option Value
  load_sidecar sidecar disk = elim (lookup sidecar disk) [
    | none ↦ none
    | some text ↦ site.library.json_loads text
  ]

  abbrev recaption : Text → Text → World → Option Photograph → Reply Text
  recaption photo_id caption w none = (w, err (refused 404))
  recaption photo_id caption w (some p) =
      rewrite_caption photo_id (strip is_space caption) p.sidecar_path
        (load_sidecar p.sidecar_path w.disk) w

  unfoldable pub set_caption : Text → Text → World → Reply Text
  unfolding safe_id atomic_write update_caption
  set_caption photo_id caption w =
      if not (safe_id photo_id)
      then (w, err (refused 400))
      else if ltb max_caption (length caption)
      then (w, err (refused 422))
      else recaption photo_id caption w (get_photograph photo_id w.tables)

abbrev pub photo_deleted : (ℕ → Moment) → Text → World → Option Photograph → Reply (List FilePath)
photo_deleted clock photo_id w none = (w, err (refused 404))
photo_deleted clock photo_id w (some p) =
    let (disk, moved) =
      trash_all clock 0 (p.original_path ∷ p.view_path ∷ p.sidecar_path ∷ []) w.disk in
    (record { disk = disk; tables = delete_photograph_row photo_id w.tables }, ok moved)

-- The body of the request is `none` where it is not JSON.
unfoldable pub delete_photograph :
    Site → Visit → Text → Option Value → World → Reply (List FilePath)
unfolding safe_id is_confirmed trash_all delete_photograph_row
delete_photograph site visit photo_id none w =
    (w, err (if safe_id photo_id then unhandled else refused 400))
delete_photograph site visit photo_id (some payload) w =
    if not (safe_id photo_id)
    then (w, err (refused 400))
    else if not (is_confirmed site.lower site.yaml.repr payload)
    then (w, err (refused 422))
    else photo_deleted visit.clock photo_id w (get_photograph photo_id w.tables)
