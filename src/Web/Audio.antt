-- ===== src/Web/Audio.antt =====
-- web/routes_audio.py: recordings that are uploaded whole, recordings that arrive in chunks, playing
-- one, and deleting one. Bodies of requests, clocks and fresh names are arguments.
use veillee.Base.{
  ℕ, Bool, true, false, not, Option, none, some, List, [], ◌∷◌, ◌++◌, ltb, length, if◌then◌else◌,
  ◌==◌, nat_eq, list_eq, Outcome, ok, err,
}
use veillee.Base.Text.{Text, codes}
use veillee.Base.Dict.{insert}
use veillee.Models.{FilePath, Recording}
use veillee.Paths.{Moment, recording_dir_for}
use veillee.Values.{Value, str, flag, Fields, end, field, get_field, text_of, Yaml}
use veillee.Questions.{QuestionBank, by_id}
use veillee.Disk.{Disk, Fate, transcripts_dir}
use veillee.Sidecars.{Library, transcript_path_of, transcript_json_of}
use veillee.Ingest.{Audio, World, Upload, ingest_recording}
use veillee.Uploads.{
  UploadError, upload_dir, start_upload, write_chunk, read_upload_metadata, assemble_chunks,
  not_open,
}
use veillee.Repository.{get_recording, delete_recording_row}
use veillee.Web.{
  HttpError, refused, unhandled, died, Reply, with_disk, safe_id, suffix_for, is_confirmed, receive,
  end_upload, end_session, discarded, trash_all, send_file, is_death,
}

abbrev pub chunk_limit_bytes : ℕ
chunk_limit_bytes = 33554432

abbrev pub audio_suffixes : List Text
audio_suffixes =
    codes ".m4a"
    ∷ codes ".mp3"
    ∷ codes ".wav"
    ∷ codes ".webm"
    ∷ codes ".ogg"
    ∷ codes ".opus"
    ∷ codes ".flac"
    ∷ []

-- What a handler meets: the libraries, its settings, the moments of its clock and fresh names.
pub record Site : Type 0 where
  pub library : Library
  pub yaml : Yaml
  pub audio : Audio
  pub lower : Text → Text
  pub max_upload_bytes : ℕ

pub record Visit : Type 0 where
  pub moment : Moment
  pub created : Moment
  pub discard : Moment
  pub clock : ℕ → Moment
  pub now : ℕ
  pub fresh_id : Text
  pub temp_name : Text
  pub start_fate : Fate
  pub fate : Fate
  pub user_agent : Text

-- An `atomic_write` that does not return, outside a `try`.
abbrev pub cut_short : Fate → HttpError
cut_short fate = if is_death fate then died else unhandled

-- device or user_agent
abbrev pub device_or : Text → Text → Text
device_or [] user_agent = user_agent
device_or (c ∷ s) user_agent = c ∷ s

module _ (site : Site) (visit : Visit) where
  abbrev pub upload_of : Text → FilePath → Text → Text → Text → Upload
  upload_of question_id source_path suffix device source = record {
    question_id = question_id;
    source_path = source_path;
    original_suffix = suffix;
    device = device;
    source = source;
    moment = visit.moment;
    created = visit.created;
    now = visit.now;
    temp_name = visit.temp_name;
  }

  abbrev pub incoming_path : Text → FilePath
  incoming_path suffix = upload_dir visit.fresh_id ++ ((codes "incoming" ++ suffix) ∷ [])

  -- The staging directory is there: the file is received and ingested.
  unfoldable pub receive_recording : Text → Text → Text → List Text → World → Reply Recording
  unfolding receive ingest_recording end_upload
  receive_recording question_id suffix device pieces w =
      let staging = incoming_path suffix in
      let (bytes, fits) = receive site.max_upload_bytes 0 pieces in
      let staged = with_disk (insert staging bytes w.disk) w in
      if fits
      then end_upload visit.fate visit.discard visit.fresh_id (
          ingest_recording site.library site.yaml site.audio visit.fate
            (upload_of question_id staging suffix device (codes "upload")) staged)
      else (staged, err (refused 413))

  abbrev started : (World → Reply Recording) → World → Disk × Bool → Reply Recording
  started then_do w (disk, false) = (with_disk disk w, err (cut_short visit.start_fate))
  started then_do w (disk, true) = then_do (with_disk disk w)

  abbrev upload_metadata : Text → Fields
  upload_metadata question_id = field (codes "question_id") (str question_id) end

  unfoldable pub upload_recording :
      QuestionBank → Text → Text → Text → List Text → World → Reply Recording
  unfolding start_upload receive_recording suffix_for
  upload_recording bank question_id filename device pieces w = elim (by_id bank question_id) [
    | none ↦ (w, err (refused 404))
    | some q ↦
        started
          (receive_recording question_id
            (suffix_for site.lower audio_suffixes (codes ".m4a") filename)
            (device_or device visit.user_agent) pieces)
          w
          (start_upload site.library visit.temp_name visit.start_fate visit.fresh_id
            (upload_metadata question_id) w.disk)
  ]

  abbrev session_metadata : Text → Fields
  session_metadata question_id =
      field (codes "question_id") (str question_id)
        (field (codes "device") (str visit.user_agent) (field (codes "started") (flag true) end))

  abbrev session_opened : World → Disk × Bool → Reply Text
  session_opened w (disk, false) = (with_disk disk w, err (cut_short visit.start_fate))
  session_opened w (disk, true) = (with_disk disk w, ok visit.fresh_id)

  unfoldable pub start_recording : QuestionBank → Text → World → Reply Text
  unfolding start_upload
  start_recording bank question_id w = elim (by_id bank question_id) [
    | none ↦ (w, err (refused 404))
    | some q ↦ session_opened w (
        start_upload site.library visit.temp_name visit.start_fate visit.fresh_id
          (session_metadata question_id) w.disk)
  ]

  abbrev pub file_session :
      Text → Text → Text → World → Disk × Outcome UploadError FilePath → Reply Recording
  file_session upload_id question_id device w (disk, err e) =
      (discarded visit.discard upload_id (with_disk disk w), err (refused 422))
  file_session upload_id question_id device w (disk, ok assembled) =
      end_session visit.fate visit.discard upload_id (
        ingest_recording site.library site.yaml site.audio visit.fate
          (upload_of question_id assembled (codes ".webm") device (codes "recorder"))
          (with_disk disk w))

  -- str(metadata.get(key, ""))
  abbrev text_field : Text → Fields → Text
  text_field key fs = elim (get_field key fs) [ none ↦ [] | some v ↦ text_of site.yaml.repr v ]

  abbrev pub finish_session : Text → Outcome UploadError Fields → World → Reply Recording
  finish_session upload_id (err not_open) w = (w, err (refused 404))
  finish_session upload_id (err e) w = (w, err unhandled)
  finish_session upload_id (ok metadata) w =
      let question_id = text_field (codes "question_id") metadata in
      let device = device_or (text_field (codes "device") metadata) visit.user_agent in
      if question_id == []
      then (w, err (refused 422))
      else file_session upload_id question_id device w
          (assemble_chunks upload_id (codes ".webm") w.disk)

  unfoldable pub finish_recording : Text → World → Reply Recording
  unfolding safe_id read_upload_metadata assemble_chunks end_session
  finish_recording upload_id w =
      if safe_id upload_id
      then finish_session upload_id (read_upload_metadata site.library upload_id w.disk) w
      else (w, err (refused 400))

abbrev chunk_answer : World → Disk × Outcome UploadError FilePath → Reply ℕ
chunk_answer w (disk, ok part) = (with_disk disk w, ok 200)
chunk_answer w (disk, err e) = (with_disk disk w, err (refused 404))

-- The index of a chunk is `none` where it is negative.
unfoldable pub upload_chunk : Text → Option ℕ → Text → World → Reply ℕ
unfolding safe_id write_chunk
upload_chunk upload_id none payload w = (w, err (refused 400))
upload_chunk upload_id (some index) payload w =
    if not (safe_id upload_id)
    then (w, err (refused 400))
    else if length payload == 0
    then (w, err (refused 400))
    else if ltb chunk_limit_bytes (length payload)
    then (w, err (refused 413))
    else chunk_answer w (write_chunk upload_id index payload w.disk)

-- PLAYABLE; `none` is another extension.
unfoldable pub playable_path : Text → Recording → Option FilePath
playable_path extension r =
    if extension == codes "opus"
    then some r.opus_path
    else if extension == codes "flac"
    then some r.flac_path
    else none

abbrev send_recording : Text → World → Option Recording → Outcome HttpError Text
send_recording extension w none = err (refused 404)
send_recording extension w (some r) = elim (playable_path extension r) [
  | none ↦ err (refused 404)
  | some path ↦ send_file path w
]

unfoldable pub play_recording : Text → Text → World → Outcome HttpError Text
unfolding safe_id playable_path
play_recording recording_id extension w =
    if safe_id recording_id
    then send_recording extension w (get_recording recording_id w.tables)
    else err (refused 400)

-- transcripts["markdown"].with_suffix(".machine.md")
unfoldable pub machine_path_of : Text → FilePath
unfolding recording_dir_for
machine_path_of recording_id =
    transcripts_dir
    ++ (recording_dir_for recording_id ++ ((recording_id ++ codes ".machine.md") ∷ []))

-- The files of a recording and of what was made from it.
unfoldable pub doomed_files : Text → Recording → List FilePath
unfolding transcript_path_of transcript_json_of machine_path_of
doomed_files recording_id r =
    r.original_path
    ∷ r.flac_path
    ∷ r.opus_path
    ∷ r.sidecar_path
    ∷ transcript_path_of recording_id
    ∷ transcript_json_of recording_id
    ∷ machine_path_of recording_id
    ∷ []

abbrev pub deleted : (ℕ → Moment) → Text → World → Option Recording → Reply (List FilePath)
deleted clock recording_id w none = (w, err (refused 404))
deleted clock recording_id w (some r) =
    let (disk, moved) = trash_all clock 0 (doomed_files recording_id r) w.disk in
    (record { disk = disk; tables = delete_recording_row recording_id w.tables }, ok moved)

-- The body of the request is `none` where it is not JSON.
unfoldable pub delete_recording : Site → Visit → Text → Option Value → World → Reply (List FilePath)
unfolding safe_id is_confirmed trash_all doomed_files delete_recording_row
delete_recording site visit recording_id none w =
    (w, err (if safe_id recording_id then unhandled else refused 400))
delete_recording site visit recording_id (some payload) w =
    if not (safe_id recording_id)
    then (w, err (refused 400))
    else if not (is_confirmed site.lower site.yaml.repr payload)
    then (w, err (refused 422))
    else deleted visit.clock recording_id w (get_recording recording_id w.tables)
