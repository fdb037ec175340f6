-- ===== src/Web/Keeps.antt =====
-- Deleting a recording or a photograph, and correcting a transcript, take no text away from the disk.
use veillee.Base.{
  and_both, ℕ, ◌+◌, ◌≡◌, refl, Bool, true, none, some, List, [], ◌∷◌, nat_eq, list_eq, Option,
  Bool-cases, inl, inr, not, ◌&&◌,
}
use veillee.Base.Text.{Text}
use veillee.Models.{FilePath, Recording}
use veillee.Paths.{Moment}
use veillee.Values.{Value}
use veillee.Disk.{Disk, exists}
use veillee.Disk.Keeps.{not_there, Keeps, Keeps-refl, Keeps-trans}
use veillee.Answers.{move_to_trash, trash_path}
use veillee.Answers.Growing.{move_to_trash-Keeps}
use veillee.Ingest.{World}
use veillee.Repository.{get_recording, get_photograph}
use veillee.Photographs.{Photograph}
use veillee.Web.{safe_id, is_confirmed, trash_all}
use veillee.Web.Audio.{Site, Visit, delete_recording, deleted, doomed_files}
use veillee.Web.Photos.{delete_photograph, photo_deleted}

-- At each of the moves nothing stands where the file goes.
unfoldable pub lands_free : (ℕ → Moment) → ℕ → List FilePath → Disk → Bool
lands_free clock n [] d = true
lands_free clock n (path ∷ paths) d =
    not (exists (trash_path (clock n) path) d)
    && lands_free clock (n + 1) paths (move_to_trash (clock n) path d).0

pub trash_all-Keeps :
    (clock : ℕ → Moment) (n : ℕ) (paths : List FilePath) (d : Disk)
    → lands_free clock n paths d ≡ true
    → Keeps d (trash_all clock n paths d).0
unfolding trash_all lands_free
trash_all-Keeps clock n [] d h = Keeps-refl d
trash_all-Keeps clock n (path ∷ paths) d h =
    let (free, rest) = and_both _ _ h in
    let next = (move_to_trash (clock n) path d).0 in
    Keeps-trans d next _ (move_to_trash-Keeps (clock n) path d (not_there _ d free))
      (trash_all-Keeps clock (n + 1) paths next rest)

deleted-Keeps :
    (clock : ℕ → Moment) (rid : Text) (w : World) (o : Option Recording)
    → ((r : Recording) → o ≡ some r → lands_free clock 0 (doomed_files rid r) w.disk ≡ true)
    → Keeps w.disk (deleted clock rid w o).0.disk
deleted-Keeps clock rid w none free = Keeps-refl w.disk
deleted-Keeps clock rid w (some r) free =
    trash_all-Keeps clock 0 (doomed_files rid r) w.disk (free r refl)

-- However a request to delete a recording is answered, the text of each file is in some file
-- afterwards, if nothing stands in the trash where a file of the recording would go.
pub delete_recording-Keeps :
    (site : Site) (visit : Visit) (rid : Text) (body : Option Value) (w : World)
    → ((r : Recording)
        → get_recording rid w.tables ≡ some r
        → lands_free visit.clock 0 (doomed_files rid r) w.disk ≡ true)
    → Keeps w.disk (delete_recording site visit rid body w).0.disk
unfolding delete_recording
delete_recording-Keeps site visit rid none w free = Keeps-refl w.disk
delete_recording-Keeps site visit rid (some payload) w free =
    let kept = deleted-Keeps visit.clock rid w (get_recording rid w.tables) free in
    elim (Bool-cases (safe_id rid)) [
      | inr n ↦ rw n (Keeps-refl w.disk)
      | inl s ↦ elim (Bool-cases (is_confirmed site.lower site.yaml.repr payload)) [
        | inr n ↦ rw (s, n) (Keeps-refl w.disk)
        | inl c ↦ rw (s, c) kept
      ]
    ]

photo_deleted-Keeps :
    (clock : ℕ → Moment) (pid : Text) (w : World) (o : Option Photograph)
    → ((p : Photograph)
        → o ≡ some p
        → lands_free clock 0 (p.original_path ∷ p.view_path ∷ p.sidecar_path ∷ []) w.disk ≡ true)
    → Keeps w.disk (photo_deleted clock pid w o).0.disk
photo_deleted-Keeps clock pid w none free = Keeps-refl w.disk
photo_deleted-Keeps clock pid w (some p) free =
    trash_all-Keeps clock 0 (p.original_path ∷ p.view_path ∷ p.sidecar_path ∷ []) w.disk
      (free p refl)

pub delete_photograph-Keeps :
    (site : Site) (visit : Visit) (pid : Text) (body : Option Value) (w : World)
    → ((p : Photograph)
        → get_photograph pid w.tables ≡ some p
        → lands_free visit.clock 0 (p.original_path ∷ p.view_path ∷ p.sidecar_path ∷ []) w.disk
          ≡ true)
    → Keeps w.disk (delete_photograph site visit pid body w).0.disk
unfolding delete_photograph
delete_photograph-Keeps site visit pid none w free = Keeps-refl w.disk
delete_photograph-Keeps site visit pid (some payload) w free =
    let kept = photo_deleted-Keeps visit.clock pid w (get_photograph pid w.tables) free in
    elim (Bool-cases (safe_id pid)) [
      | inr n ↦ rw n (Keeps-refl w.disk)
      | inl s ↦ elim (Bool-cases (is_confirmed site.lower site.yaml.repr payload)) [
        | inr n ↦ rw (s, n) (Keeps-refl w.disk)
        | inl c ↦ rw (s, c) kept
      ]
    ]
