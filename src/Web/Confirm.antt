-- ===== src/Web/Confirm.antt =====
-- What a request to delete must say.
use veillee.Base.{
  ℕ, ◌≡◌, refl, true, false, none, some, List, nat_eq, list_eq, ==_refl, ok, err, Option,
  Bool-cases, inl, inr,
}
use veillee.Base.Text.{Text}
use veillee.Base.Dict.{lookup-erase}
use veillee.Models.{FilePath, Recording}
use veillee.Paths.{Moment}
use veillee.Values.{Value}
use veillee.Queue.{has_job}
use veillee.Queue.Enqueue.{has_job-delete_job}
use veillee.Index.{Tables}
use veillee.Ingest.{World}
use veillee.Repository.{get_recording, delete_recording_row}
use veillee.Web.{HttpError, safe_id, is_confirmed}
use veillee.Web.Audio.{Site, Visit, delete_recording, deleted}

deleted-row :
    (clock : ℕ → Moment) (rid : Text) (w : World) (o : Option Recording) (moved : List FilePath)
    → (deleted clock rid w o).1 ≡ ok moved
    → (deleted clock rid w o).0.tables ≡ delete_recording_row rid w.tables
deleted-row clock rid w none moved e = cc e
deleted-row clock rid w (some r) moved e = refl

no_row : (rid : Text) (t : Tables) → get_recording rid (delete_recording_row rid t) ≡ none
unfolding get_recording delete_recording_row
no_row rid t = rw (lookup-erase rid rid t.recordings, ==_refl rid) refl

no_job : (rid : Text) (t : Tables) → has_job rid (delete_recording_row rid t).queue ≡ false
unfolding delete_recording_row
no_job rid t = rw (has_job-delete_job rid rid t.queue, ==_refl rid) refl

deleted-refuses :
    (clock : ℕ → Moment) (rid : Text) (w : World) (o : Option Recording) (e : HttpError)
    → (deleted clock rid w o).1 ≡ err e
    → (deleted clock rid w o).0 ≡ w
deleted-refuses clock rid w none e h = refl
deleted-refuses clock rid w (some r) e h = cc h

-- A request to delete a recording that is not carried out changes nothing, neither a file nor a row.
delete_recording-refuses :
    (site : Site) (visit : Visit) (rid : Text) (body : Option Value) (w : World) (e : HttpError)
    → (delete_recording site visit rid body w).1 ≡ err e
    → (delete_recording site visit rid body w).0 ≡ w
unfolding delete_recording
delete_recording-refuses site visit rid none w e h = refl
delete_recording-refuses site visit rid (some payload) w e h = elim (Bool-cases (safe_id rid)) [
  | inr n ↦ rw n refl
  | inl s ↦ elim (Bool-cases (is_confirmed site.lower site.yaml.repr payload)) [
    | inr n ↦ rw (s, n) refl
    | inl c ↦
        rw (s, c)
          (deleted-refuses visit.clock rid w (get_recording rid w.tables) e (rw (s, c) at h))
  ]
]

-- A recording is deleted only where its id is well formed and the request carries the word, and then
-- neither its row nor its job is left.
pub delete_recording-confirms :
    (site : Site) (visit : Visit) (rid : Text) (payload : Value) (w : World) (moved : List FilePath)
    → (delete_recording site visit rid (some payload) w).1 ≡ ok moved
    → (safe_id rid ≡ true)
      × (is_confirmed site.lower site.yaml.repr payload ≡ true)
      × (get_recording rid (delete_recording site visit rid (some payload) w).0.tables ≡ none)
      × (has_job rid (delete_recording site visit rid (some payload) w).0.tables.queue ≡ false)
unfolding delete_recording
delete_recording-confirms site visit rid payload w moved h = elim (Bool-cases (safe_id rid)) [
  | inr n ↦ absurd (cc (rw n at h))
  | inl s ↦ elim (Bool-cases (is_confirmed site.lower site.yaml.repr payload)) [
    | inr n ↦ absurd (cc (rw (s, n) at h))
    | inl c ↦
        let row =
          deleted-row visit.clock rid w (get_recording rid w.tables) moved (rw (s, c) at h) in
        (s, c, rw (s, c, row) (no_row rid w.tables), rw (s, c, row) (no_job rid w.tables))
  ]
]
