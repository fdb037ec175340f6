-- ===== src/Refile.antt =====
-- reassign.py: moving a recording to another question: its audio files, its sidecar, its transcript and
-- the revisions of that. What it reports is its two ids; the names of the moved files are left out.
pub mod Audio
mod Tests
use veillee.Base.{
  ℕ, ◌+◌, ◌-◌, Bool, true, false, not, Option, none, some, List, [], ◌∷◌, ◌++◌, find, take, drop,
  length, if◌then◌else◌, ◌==◌, nat_eq, list_eq, Outcome, ok, err,
}
use veillee.Base.Text.{Text, codes, starts_with}
use veillee.Base.Dict.{lookup, erase}
use veillee.Models.{FilePath}
use veillee.Paths.{parse_question_id}
use veillee.Values.{Value, str, mapping, Fields, end, field, get_field, set_field, text_of, Yaml}
use veillee.Frontmatter.{FrontmatterError, loads, dumps}
use veillee.Disk.{
  Disk, Fate, universal_newlines, atomic_write, move_file, exists, file_name, parent, is_dir,
  revisions_dir, ends_with,
}
use veillee.Sidecars.{Library, transcript_path_of, transcript_json_of, iter_sidecars}
use veillee.Uploads.{move_dir}
use veillee.Web.{is_death}
use veillee.Web.Audio.{machine_path_of}

-- A ReassignError, another exception, or a death of the process.
pub data RefileError : Type 0 where
  reassign_error other_error died : RefileError

-- path.stem, of a name that ends in `.json`
abbrev pub stem : FilePath → Text
stem path =
    let name = file_name path in if name == codes ".json" then name else take (length name - 5) name

unfoldable pub sidecar_for : Text → Disk → Option FilePath
sidecar_for recording_id disk = find (λ p. stem p == recording_id) (iter_sidecars disk)

-- text.rpartition("-"); `none` where there is no dash.
unfoldable pub rpartition : Text → Option (Text × Text)
rpartition [] = none
rpartition (c ∷ s) = elim (rpartition s) [
  | some (before, after) ↦ some (c ∷ before, after)
  | none ↦ if c == 45 then some ([], s) else none
]

-- text.replace(old, new, 1)
unfoldable pub replace_first : Text → Text → Text → Text
replace_first old new [] = if old == [] then new else []
replace_first old new (c ∷ s) =
    if starts_with (c ∷ s) old
    then new ++ drop (length old) (c ∷ s)
    else c ∷ replace_first old new s

abbrev pub Moved : Type 0
Moved = Disk × Outcome RefileError Fields

module _ (yaml : Yaml) (directory : FilePath) (recording_id new_recording_id : Text) where
  abbrev pub renamed_entry : Text → Text → Fields → Fields → Moved → Moved
  renamed_entry kind name entry rest (disk, err e) = (disk, err e)
  renamed_entry kind name entry rest (disk, ok fs) =
      (disk, ok (field kind (mapping (set_field (codes "name") (str name) entry)) fs))

  -- One entry of the sidecar's `files`, and then the rest of them.
  abbrev rename_file : Text → Fields → Fields → Option Value → (Disk → Moved) → Disk → Moved
  rename_file kind entry rest none go_on disk = (disk, err other_error)
  rename_file kind entry rest (some v) go_on disk =
      let name = text_of yaml.repr v in
      let source = directory ++ (name ∷ []) in
      let new_name = replace_first recording_id new_recording_id name in
      let moved = go_on (move_file source (directory ++ (new_name ∷ [])) disk) in
      if exists source disk
      then renamed_entry kind new_name entry rest moved
      else (disk, err reassign_error)

  unfoldable pub rename_files : Fields → Disk → Moved
  unfolding move_file replace_first
  rename_files end disk = (disk, ok end)
  rename_files (field kind (mapping entry) rest) disk =
      rename_file kind entry rest (get_field (codes "name") entry) (rename_files rest) disk
  rename_files (field kind v rest) disk = (disk, err other_error)

-- The two texts of the transcript's atomic write and of the sidecar's.
pub record RefileVisit : Type 0 where
  pub sidecar_temp : Text
  pub sidecar_fate : Fate
  pub transcript_temp : Text
  pub transcript_fate : Fate

abbrev pub cut_off : Fate → RefileError
cut_off fate = if is_death fate then died else other_error

abbrev pub Refiled : Type 0
Refiled = Disk × Outcome RefileError (Text × Text)

module _ (lib : Library) (yaml : Yaml) (io : RefileVisit)
    (recording_id new_question_id : Text) where
  abbrev pub refiled_id : Text → Text
  refiled_id stamp = stamp ++ (codes "-" ++ new_question_id)

  abbrev revisions_of : Text → FilePath
  revisions_of id = revisions_dir ++ ((codes "transcript-" ++ id) ∷ [])

  -- `_move_transcript_revisions`: a move onto a directory that is there goes into it.
  unfoldable pub move_transcript_revisions : Text → Disk → Disk
  unfolding move_dir is_dir
  move_transcript_revisions new_id disk =
      let old = revisions_of recording_id in
      let new = revisions_of new_id in
      let destination = if is_dir new disk then new ++ (file_name old ∷ []) else new in
      if is_dir old disk then move_dir old destination disk else disk

  abbrev beside : FilePath → Text → FilePath
  beside path name = parent path ++ (name ∷ [])

  abbrev move_drafts : Text → Disk → Disk
  move_drafts new_id disk =
      let raw = transcript_json_of recording_id in
      let machine = machine_path_of recording_id in
      move_file machine (beside machine (new_id ++ codes ".machine.md"))
        (move_file raw (beside raw (new_id ++ codes ".json")) disk)

  abbrev revisions_moved : Text → Disk → Refiled
  revisions_moved new_id disk =
      (move_transcript_revisions new_id (move_drafts new_id disk), ok (recording_id, new_id))

  abbrev markdown_written : Text → Disk × Bool → Refiled
  markdown_written new_id (disk, false) = (disk, err (cut_off io.transcript_fate))
  markdown_written new_id (disk, true) =
      revisions_moved new_id (erase (transcript_path_of recording_id) disk)

  abbrev rewrite_markdown : Text → Disk → Outcome FrontmatterError (Fields × Text) → Refiled
  rewrite_markdown new_id disk (err e) = (disk, err reassign_error)
  rewrite_markdown new_id disk (ok (metadata, body)) = markdown_written new_id (
      atomic_write io.transcript_temp io.transcript_fate (transcript_path_of new_id)
        (dumps yaml
          (set_field (codes "question_id") (str new_question_id)
            (set_field (codes "recording_id") (str new_id) metadata))
          body)
        disk)

  -- `_move_transcripts`, and what follows it.
  unfoldable pub move_transcripts : Text → Disk → Refiled
  unfolding transcript_path_of transcript_json_of machine_path_of move_transcript_revisions
  move_transcripts new_id disk = elim (lookup (transcript_path_of recording_id) disk) [
    | none ↦ revisions_moved new_id disk
    | some text ↦ rewrite_markdown new_id disk (loads yaml (universal_newlines text))
  ]

  abbrev sidecar_written : FilePath → Text → Disk × Bool → Refiled
  sidecar_written sidecar new_id (disk, false) = (disk, err (cut_off io.sidecar_fate))
  sidecar_written sidecar new_id (disk, true) = move_transcripts new_id (erase sidecar disk)

  abbrev new_payload : Text → Text → Fields → Fields
  new_payload old_question new_id payload = set_field (codes "refiled_from") (str old_question) (
      set_field (codes "question_id") (str new_question_id)
        (set_field (codes "recording_id") (str new_id) payload))

  abbrev files_moved : FilePath → Text → Text → Fields → (Fields → Fields) → Moved → Refiled
  files_moved sidecar old_question new_id payload put (disk, err e) = (disk, err e)
  files_moved sidecar old_question new_id payload put (disk, ok files) =
      sidecar_written sidecar new_id (
        atomic_write io.sidecar_temp io.sidecar_fate
          (parent sidecar ++ ((new_id ++ codes ".json") ∷ []))
          (lib.json_dumps (mapping (new_payload old_question new_id (put files))) ++ codes "\n")
          disk)

  -- payload.get("files", {}).items(), whose entries are changed in place
  abbrev refile_payload : FilePath → Text → Text → Fields → Option Value → Disk → Refiled
  refile_payload sidecar old_question new_id payload none disk =
      files_moved sidecar old_question new_id payload (λ files. payload) (disk, ok end)
  refile_payload sidecar old_question new_id payload (some (mapping files)) disk =
      files_moved sidecar old_question new_id payload
        (λ renamed. set_field (codes "files") (mapping renamed) payload)
        (rename_files yaml (parent sidecar) recording_id new_id files disk)
  refile_payload sidecar old_question new_id payload (some v) disk = (disk, err other_error)

  abbrev refile_document : FilePath → Text → Text → Option Value → Disk → Refiled
  refile_document sidecar old_question new_id (some (mapping payload)) disk =
      refile_payload sidecar old_question new_id payload (get_field (codes "files") payload) disk
  refile_document sidecar old_question new_id payload disk = (disk, err other_error)

  abbrev read_document : FilePath → Disk → Option Value
  read_document sidecar disk = elim (lookup sidecar disk) [
    | none ↦ none
    | some text ↦ lib.json_loads text
  ]

  abbrev refile_from : FilePath → Option (Text × Text) → Disk → Refiled
  refile_from sidecar none disk = (disk, err reassign_error)
  refile_from sidecar (some ([], old_question)) disk = (disk, err reassign_error)
  refile_from sidecar (some (c ∷ stamp, old_question)) disk =
      if old_question == new_question_id
      then (disk, err reassign_error)
      else refile_document sidecar old_question (refiled_id (c ∷ stamp))
          (read_document sidecar disk) disk

  unfoldable pub move_recording : Disk → Refiled
  unfolding sidecar_for rpartition rename_files move_transcripts atomic_write
  move_recording disk = elim (parse_question_id new_question_id) [
    | none ↦ (disk, err other_error)
    | some parsed ↦ elim (sidecar_for recording_id disk) [
      | none ↦ (disk, err reassign_error)
      | some sidecar ↦ refile_from sidecar (rpartition recording_id) disk
    ]
  ]
