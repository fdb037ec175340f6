-- ===== src/Web/Admin.antt =====
-- web/routes_admin.py: the list of recordings, reading and correcting a transcript, and asking for a
-- transcription again.
use veillee.Base.{
  ℕ, Bool, true, false, not, Option, none, some, List, [], ◌∷◌, ◌++◌, map, if◌then◌else◌, ◌==◌,
  nat_eq, list_eq, Outcome, ok, err,
}
use veillee.Base.Text.{Text, codes}
use veillee.Base.Dict.{Dict, insert, lookup}
use veillee.Models.{FilePath, Recording, Question}
use veillee.Paths.{Moment, utc_now_iso}
use veillee.Values.{
  Value, str, seq, flag, mapping, Fields, end, field, get_or_null, set_field, truthy, to_list,
  of_list, Yaml,
}
use veillee.Frontmatter.{FrontmatterError, loads, dumps}
use veillee.Questions.{QuestionBank, by_id}
use veillee.Disk.{
  Disk, Fate, CopyFate, universal_newlines, atomic_write, exists, is_some, file_name,
}
use veillee.Answers.{WriteError, save_revision}
use veillee.Sidecars.{transcript_path_of}
use veillee.Ingest.{World}
use veillee.Queue.{Depth, depth, requeue}
use veillee.Repository.{get_recording, all_recordings}
use veillee.Web.{HttpError, refused, unhandled, Reply, with_disk}
use veillee.Web.Audio.{machine_path_of, cut_short}

-- One row of the page.
pub record AdminRow : Type 0 where
  pub recording : Recording
  pub has_transcript : Bool
  pub reviewed : Bool
  pub question : Option Question

-- bool(metadata.get("reviewed", False)), of an unreadable file False
abbrev marked_reviewed : Outcome FrontmatterError (Fields × Text) → Bool
marked_reviewed (err e) = false
marked_reviewed (ok (metadata, body)) = truthy (get_or_null (codes "reviewed") metadata)

abbrev is_reviewed : Yaml → Option Text → Bool
is_reviewed yaml none = false
is_reviewed yaml (some text) = marked_reviewed (loads yaml (universal_newlines text))

unfoldable pub admin_row : Yaml → QuestionBank → Disk → Recording → AdminRow
unfolding transcript_path_of
admin_row yaml bank disk r =
    let transcript = lookup (transcript_path_of r.recording_id) disk in
    record {
      recording = r;
      has_transcript = is_some transcript;
      reviewed = is_reviewed yaml transcript;
      question = by_id bank r.question_id;
    }

unfoldable pub admin_home : Yaml → QuestionBank → World → List AdminRow × Depth
unfolding admin_row
admin_home yaml bank w =
    (map (admin_row yaml bank w.disk) (all_recordings w.tables), depth w.tables.queue)

abbrev opened : Outcome FrontmatterError (Fields × Text) → Outcome HttpError (Fields × Text)
opened (err e) = err (refused 500)
opened (ok parts) = ok parts

unfoldable pub view_transcript : Yaml → Text → World → Outcome HttpError (Fields × Text)
unfolding transcript_path_of
view_transcript yaml recording_id w = elim (lookup (transcript_path_of recording_id) w.disk) [
  | none ↦ err (refused 404)
  | some text ↦ opened (loads yaml text)
]

-- list(value or []); `none` is the TypeError.
abbrev pub list_of : Value → Option (List Value)
list_of (seq vs) = some (to_list vs)
list_of (str s) = some (map (λ c. str (c ∷ [])) s)
list_of (mapping fs) = some (keys_of fs)
  where
    keys_of : Fields → List Value
    keys_of end = []
    keys_of (field k v rest) = str k ∷ keys_of rest
list_of v = none

abbrev pub history_of : Fields → Option (List Value)
history_of metadata =
    let v = get_or_null (codes "history") metadata in if truthy v then list_of v else some []

-- entry.get("kind") == "machine_original"
abbrev is_original : Fields → Bool
is_original entry = elim (get_or_null (codes "kind") entry) [
  | str kind ↦ kind == codes "machine_original"
  | _ ↦ false
]

-- any(...), which stops at the first; `none` is the AttributeError of an entry that is no mapping.
unfoldable pub has_original : List Value → Option Bool
has_original [] = some false
has_original (mapping entry ∷ entries) =
    let rest = has_original entries in if is_original entry then some true else rest
has_original (v ∷ entries) = none

-- UPDATE recordings SET transcript_reviewed = ... WHERE recording_id = ...
unfoldable pub set_reviewed : Text → Bool → Dict Text Recording → Dict Text Recording
set_reviewed recording_id reviewed rows = elim (lookup recording_id rows) [
  | none ↦ rows
  | some r ↦ insert recording_id (record r { transcript_reviewed = reviewed }) rows
]

-- The clocks, the temporary files and the ends of the writes of one save.
pub record TranscriptVisit : Type 0 where
  pub stamped : Moment
  pub original_saved : Moment
  pub edit_saved : Moment
  pub updated : Moment
  pub machine_temp : Text
  pub temp : Text
  pub machine_fate : Fate
  pub fate : Fate
  pub copying : CopyFate

module _ (yaml : Yaml) (visit : TranscriptVisit) (recording_id body reviewed : Text) where
  abbrev pub is_checked : Bool
  is_checked = not (reviewed == [])

  abbrev pub updated_metadata : Fields → List Value → Fields
  updated_metadata metadata history = set_field (codes "history") (seq (of_list history)) (
      set_field (codes "updated") (str (utc_now_iso visit.updated))
        (set_field (codes "reviewed") (flag is_checked) metadata))

  abbrev pub edit_entry : Value
  edit_entry = mapping (
      field (codes "kind") (str (codes "edit"))
        (field (codes "saved") (str (utc_now_iso visit.edit_saved)) end))

  abbrev pub original_entry : Value
  original_entry = mapping (
      field (codes "kind") (str (codes "machine_original")) (
        field (codes "saved") (str (utc_now_iso visit.original_saved))
          (field (codes "file") (str (file_name (machine_path_of recording_id))) end)))

  abbrev pub edit_filed : World → Disk × Bool → Reply Text
  edit_filed w (disk, false) = (with_disk disk w, err (cut_short visit.fate))
  edit_filed w (disk, true) = (
    record {
      disk = disk;
      tables = record w.tables {
        recordings = set_reviewed recording_id is_checked w.tables.recordings;
      };
    },
    ok (codes "/admin"),
  )

  -- The last write, of the edited transcript with its history.
  abbrev pub write_edit : Fields → List Value → World → Reply Text
  write_edit metadata history w = edit_filed w (
      atomic_write visit.temp visit.fate (transcript_path_of recording_id)
        (dumps yaml (updated_metadata metadata (history ++ (edit_entry ∷ []))) body) w.disk)

  abbrev pub original_kept : Fields → List Value → World → Disk × Bool → Reply Text
  original_kept metadata history w (disk, false) =
      (with_disk disk w, err (cut_short visit.machine_fate))
  original_kept metadata history w (disk, true) =
      write_edit metadata (history ++ (original_entry ∷ [])) (with_disk disk w)

  -- First edit: keep the machine's words.
  abbrev pub keep_original : Fields → Text → List Value → World → Reply Text
  keep_original metadata existing history w = original_kept metadata history w (
      if exists (machine_path_of recording_id) w.disk
      then (w.disk, true)
      else atomic_write visit.machine_temp visit.machine_fate (machine_path_of recording_id)
          (dumps yaml metadata existing) w.disk)

  abbrev pub edit_with : Fields → Text → List Value → World → Option Bool → Reply Text
  edit_with metadata existing history w none = (w, err unhandled)
  edit_with metadata existing history w (some true) = write_edit metadata history w
  edit_with metadata existing history w (some false) = keep_original metadata existing history w

  abbrev pub edit_history : Fields → Text → World → Option (List Value) → Reply Text
  edit_history metadata existing w none = (w, err unhandled)
  edit_history metadata existing w (some history) =
      edit_with metadata existing history w (has_original history)

  abbrev pub edit_revised :
      Fields → Text → World → Disk × Outcome WriteError (Option FilePath) → Reply Text
  edit_revised metadata existing w (kept, err e) = (with_disk kept w, err unhandled)
  edit_revised metadata existing w (kept, ok revision) =
      edit_history metadata existing (with_disk kept w) (history_of metadata)

  abbrev pub edit_transcript : World → Outcome FrontmatterError (Fields × Text) → Reply Text
  edit_transcript w (err e) = (w, err (refused 500))
  edit_transcript w (ok (metadata, existing)) = edit_revised metadata existing w (
      save_revision visit.stamped visit.copying (codes "transcript-" ++ recording_id)
        (transcript_path_of recording_id) w.disk)

  unfoldable pub save_transcript : World → Reply Text
  unfolding transcript_path_of machine_path_of save_revision atomic_write set_reviewed has_original
  save_transcript w = elim (lookup (transcript_path_of recording_id) w.disk) [
    | none ↦ (w, err (refused 404))
    | some text ↦ edit_transcript w (loads yaml (universal_newlines text))
  ]

unfoldable pub requeue_transcription : ℕ → Text → World → Reply Text
requeue_transcription now recording_id w = elim (get_recording recording_id w.tables) [
  | none ↦ (w, err (refused 404))
  | some r ↦ (
    record w { tables = record w.tables { queue = requeue now recording_id w.tables.queue } },
    ok (codes "/admin"),
  )
]
