-- ===== src/Sidecars.antt =====
-- storage/audio.py and storage/photos.py: the paths of a recording and of a photograph, their sidecars
-- and their checksums. The JSON library and SHA-256 are the parameters in `Library`; durations are in
-- milliseconds, which is what rounding to three decimals keeps.
pub mod Verify
mod Tests
use veillee.Base.{
  ℕ, Bool, true, false, not, Option, none, some, List, [], ◌∷◌, ◌++◌, ◌&&◌, ◌||◌, if◌then◌else◌,
  length, take, ◌==◌, nat_eq, list_eq, Outcome, ok, err, ◌>>=◌, ◌>>◌, require,
}
use veillee.Base.Text.{Text, codes, starts_with}
use veillee.Base.Dict.{lookup}
use veillee.Models.{FilePath, Recording}
use veillee.Paths.{recording_dir_for}
use veillee.Values.{
  Value, str, num, null, seq, flag, mapping, Fields, end, field, get_field, text_of, truthy, Yaml,
}
use veillee.Frontmatter.{loads}
use veillee.Disk.{
  Disk, exists, is_dir, universal_newlines, walk, parent, file_name, Fate, atomic_write, audio_dir,
  transcripts_dir, photographs_dir,
}
use veillee.Answers.{
  ReadError, os_error, value_error, type_error, key_error, attribute_error, or_error, text_or,
  int_or, flag_or_false, from_frontmatter,
}

pub record Library : Type 0 where
  pub json_loads : Text → Option Value
  pub json_dumps : Value → Text
  pub sha256 : Text → Text

-- A suffix with its dot.
abbrev pub dotted : Text → Text
dotted suffix = if starts_with suffix (codes ".") then suffix else codes "." ++ suffix

pub record RecordingPaths : Type 0 where
  pub original : FilePath
  pub flac : FilePath
  pub opus : FilePath
  pub sidecar : FilePath

unfoldable pub recording_paths : Text → Text → RecordingPaths
unfolding recording_dir_for
recording_paths recording_id original_suffix =
    let directory = audio_dir ++ recording_dir_for recording_id in
    record {
      original = directory ++ ((recording_id ++ (codes ".orig" ++ dotted original_suffix)) ∷ []);
      flac = directory ++ ((recording_id ++ codes ".flac") ∷ []);
      opus = directory ++ ((recording_id ++ codes ".opus") ∷ []);
      sidecar = directory ++ ((recording_id ++ codes ".json") ∷ []);
    }

-- transcript_paths(...)["markdown"]
unfoldable pub transcript_path_of : Text → FilePath
unfolding recording_dir_for
transcript_path_of recording_id =
    transcripts_dir ++ (recording_dir_for recording_id ++ ((recording_id ++ codes ".md") ∷ []))

-- transcript_paths(...)["json"]
unfoldable pub transcript_json_of : Text → FilePath
unfolding recording_dir_for
transcript_json_of recording_id =
    transcripts_dir ++ (recording_dir_for recording_id ++ ((recording_id ++ codes ".json") ∷ []))

-- `_file_entry`, of a file that holds `text`
abbrev pub file_entry : Library → FilePath → Text → Value
file_entry lib path text = mapping (
    field (codes "name") (str (file_name path)) (
      field (codes "sha256") (str (lib.sha256 text))
        (field (codes "bytes") (num (length text)) end)))

-- What `write_sidecar` is told of a recording, and its three files as they stand on disk.
pub record NewRecording : Type 0 where
  pub recording_id : Text
  pub question_id : Text
  pub created : Text
  pub duration_ms : ℕ
  pub device : Text
  pub source : Text

unfoldable pub sidecar_payload :
    Library → NewRecording → RecordingPaths → Text → Text → Text → Value
sidecar_payload lib r paths original flac opus = mapping (
    field (codes "sidecar_version") (num 1) (
      field (codes "recording_id") (str r.recording_id) (
        field (codes "question_id") (str r.question_id) (
          field (codes "created") (str r.created) (
            field (codes "duration_seconds") (num r.duration_ms) (
              field (codes "device") (str r.device) (
                field (codes "source") (str r.source) (
                  field (codes "files")
                    (mapping (
                      field (codes "original") (file_entry lib paths.original original) (
                        field (codes "flac") (file_entry lib paths.flac flac)
                          (field (codes "opus") (file_entry lib paths.opus opus) end))))
                    end))))))))

-- The sidecar's text; its three files have to be there.
unfoldable pub write_sidecar :
    Library → Text → Fate → NewRecording → RecordingPaths → Disk → Outcome ReadError (Disk × Bool)
unfolding sidecar_payload atomic_write
write_sidecar lib temp_name fate r paths disk = do
  original ← or_error os_error (lookup paths.original disk)
  flac ← or_error os_error (lookup paths.flac disk)
  opus ← or_error os_error (lookup paths.opus disk)
  ok (
      atomic_write temp_name fate paths.sidecar
        (lib.json_dumps (sidecar_payload lib r paths original flac opus) ++ codes "\n") disk)

abbrev as_mapping : Value → Outcome ReadError Fields
as_mapping (mapping fs) = ok fs
as_mapping v = err attribute_error

-- document.get(key, {})
abbrev pub mapping_or_empty : Text → Fields → Outcome ReadError Fields
mapping_or_empty key fs = elim (get_field key fs) [ none ↦ ok end | some v ↦ as_mapping v ]

abbrev pub load_json : Library → FilePath → Disk → Outcome ReadError Fields
load_json lib path disk = do
  text ← or_error os_error (lookup path disk)
  payload ← or_error value_error (lib.json_loads text)
  as_mapping payload

-- directory / name, of a name without a slash: an empty name and a dot are the directory itself.
abbrev pub path_in : FilePath → Text → FilePath
path_in directory name =
    if name == [] || name == codes "." then directory else directory ++ (name ∷ [])

-- str(files.get(kind, {}).get(key, ""))
abbrev pub entry : (Value → Text) → Fields → Text → Text → Outcome ReadError Text
entry repr files kind key = do file ← mapping_or_empty kind files; ok (text_or repr [] key file)

abbrev reviewed_in : Option Value → Bool → Bool
reviewed_in (some v) fallback = truthy v
reviewed_in none fallback = fallback

abbrev reviewed_from : Outcome ReadError (Fields × Text) → Bool → Bool
reviewed_from (err e) fallback = fallback
reviewed_from (ok (metadata, body)) fallback =
    reviewed_in (get_field (codes "reviewed") metadata) fallback

-- `_transcript_is_reviewed`: the transcript's own frontmatter, and else the sidecar.
unfoldable pub transcript_is_reviewed : Yaml → Option FilePath → Fields → Disk → Bool
transcript_is_reviewed yaml none payload disk = flag_or_false (codes "transcript_reviewed") payload
transcript_is_reviewed yaml (some transcript) payload disk =
    let fallback = flag_or_false (codes "transcript_reviewed") payload in
    elim (lookup transcript disk) [
      | none ↦ fallback
      | some text ↦ reviewed_from (from_frontmatter (loads yaml (universal_newlines text))) fallback
    ]

abbrev if_exists : FilePath → Disk → Option FilePath
if_exists path disk = if exists path disk then some path else none

unfoldable pub read_sidecar : Library → Yaml → FilePath → Disk → Outcome ReadError Recording
unfolding transcript_path_of transcript_is_reviewed is_dir
read_sidecar lib yaml sidecar_path disk = do
  payload ← load_json lib sidecar_path disk
  let directory = parent sidecar_path
  id_value ← or_error key_error (get_field (codes "recording_id") payload)
  let recording_id = text_of yaml.repr id_value
  let transcript =
      if is_dir transcripts_dir disk then some (transcript_path_of recording_id) else none
  question_id ← or_error key_error (get_field (codes "question_id") payload)
  duration ← int_or 0 (codes "duration_seconds") payload
  files ← mapping_or_empty (codes "files") payload
  original_name ← entry yaml.repr files (codes "original") (codes "name")
  flac_name ← entry yaml.repr files (codes "flac") (codes "name")
  opus_name ← entry yaml.repr files (codes "opus") (codes "name")
  sha256_original ← entry yaml.repr files (codes "original") (codes "sha256")
  sha256_flac ← entry yaml.repr files (codes "flac") (codes "sha256")
  sha256_opus ← entry yaml.repr files (codes "opus") (codes "sha256")
  ok (record {
    recording_id = recording_id;
    question_id = text_of yaml.repr question_id;
    created = text_or yaml.repr [] (codes "created") payload;
    duration_ms = duration;
    device = text_or yaml.repr [] (codes "device") payload;
    original_path = path_in directory original_name;
    flac_path = path_in directory flac_name;
    opus_path = path_in directory opus_name;
    sidecar_path = sidecar_path;
    sha256_original = sha256_original;
    sha256_flac = sha256_flac;
    sha256_opus = sha256_opus;
    source = text_or yaml.repr (codes "upload") (codes "source") payload;
    transcript_path = elim transcript [ none ↦ none | some path ↦ if_exists path disk ];
    transcript_reviewed = transcript_is_reviewed yaml transcript payload disk;
  })

unfoldable pub iter_sidecars : Disk → List FilePath
unfolding is_dir walk
iter_sidecars disk = if is_dir audio_dir disk then walk (codes ".json") audio_dir disk else []

pub data Problem : Type 0 where
  missing checksum_differs : Text → Problem

-- What the loop of `verify_recording` and of `verify_photograph` says of one path. A directory exists,
-- and taking its checksum raises.
unfoldable pub check_file :
    Library → Disk → Text → FilePath → Text → Outcome ReadError (List Problem)
unfolding is_dir
check_file lib disk label path expected = elim (lookup path disk) [
  | none ↦
      if is_dir path disk
      then (if expected == [] then ok [] else err os_error)
      else ok (missing label ∷ [])
  | some text ↦ ok (
      if not (expected == []) && not (lib.sha256 text == expected)
      then checksum_differs label ∷ []
      else [])
]

unfoldable pub verify_recording : Library → Disk → Recording → Outcome ReadError (List Problem)
unfolding check_file
verify_recording lib disk r = do
  original ← check_file lib disk (codes "original") r.original_path r.sha256_original
  flac ← check_file lib disk (codes "flac") r.flac_path r.sha256_flac
  opus ← check_file lib disk (codes "opus") r.opus_path r.sha256_opus
  ok (original ++ (flac ++ opus))
