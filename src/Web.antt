-- ===== src/Web.antt =====
-- What the HTTP handlers of src/veillee/web share: replies, the checks of ids, names and confirmations,
-- the staging of an upload, and what an upload that is refused answers.
pub mod Audio
pub mod Photos
pub mod Admin
pub mod Pages
pub mod Keeps
pub mod Confirm
pub mod Corrections
pub mod Redirect
mod Tests
use veillee.Base.{
  ℕ, ◌+◌, Bool, true, false, not, Option, none, some, List, [], ◌∷◌, ◌++◌, ◌&&◌, ◌||◌, ltb, leb,
  length, all, contains, if◌then◌else◌, ◌==◌, nat_eq, list_eq, Outcome, ok, err,
}
use veillee.Base.Text.{Text, codes, is_lower, is_upper, is_digit, strip, is_space}
use veillee.Base.Dict.{lookup, insert}
use veillee.Models.{FilePath}
use veillee.Paths.{Moment}
use veillee.Values.{Value, mapping, Fields, text_of, get_field}
use veillee.Disk.{Disk, Fate}
use veillee.Answers.{ReadError, os_error, move_to_trash}
use veillee.Ingest.{
  World, IngestError, arrived_empty, not_audio, not_converted, not_a_photograph, interrupted,
  unreadable,
}
use veillee.Uploads.{discard_upload}

-- A handler answers with a status, raises what nobody catches, or dies with its process.
pub data HttpError : Type 0 where
  refused : ℕ → HttpError
  unhandled died : HttpError

abbrev pub Reply {ℓ} : Type ℓ → Type ℓ
Reply A = World × Outcome HttpError A

abbrev pub with_disk : Disk → World → World
with_disk d w = record w { disk = d }

abbrev is_id_char : ℕ → Bool
is_id_char c = is_lower c || is_upper c || is_digit c || c == 95 || c == 45

-- `$` also stands before a newline that ends the text.
unfoldable pub without_last_newline : Text → Text
without_last_newline [] = []
without_last_newline (c ∷ []) = if c == 10 then [] else c ∷ []
without_last_newline (c ∷ d ∷ s) = c ∷ without_last_newline (d ∷ s)

-- SAFE_ID, `^[A-Za-z0-9_-]{1,120}$`
unfoldable pub safe_id : Text → Bool
unfolding without_last_newline
safe_id value =
    let v = without_last_newline value in all is_id_char v && leb 1 (length v) && leb (length v) 120

-- filename.rsplit(".", 1)[-1]; `none` where there is no dot.
unfoldable pub after_last_dot : Text → Option Text
after_last_dot [] = none
after_last_dot (c ∷ s) = elim (after_last_dot s) [
  | some suffix ↦ some suffix
  | none ↦ if c == 46 then some s else none
]

-- `_suffix_for`; `lower` is Unicode's, and an absent name is one without a dot.
unfoldable pub suffix_for : (Text → Text) → List Text → Text → Text → Text
unfolding after_last_dot
suffix_for lower supported fallback filename = elim (after_last_dot filename) [
  | none ↦ fallback
  | some last ↦
      let suffix = codes "." ++ lower last in if contains supported suffix then suffix else fallback
]

-- `str(raw).strip().lower() == "delete"`, where `raw` is the field `confirm` of the body.
abbrev confirm_text : (Value → Text) → Option Value → Text
confirm_text repr none = []
confirm_text repr (some v) = text_of repr v

abbrev confirmation : (Value → Text) → Value → Text
confirmation repr (mapping fs) = confirm_text repr (get_field (codes "confirm") fs)
confirmation repr v = []

unfoldable pub is_confirmed : (Text → Text) → (Value → Text) → Value → Bool
is_confirmed lower repr payload =
    lower (strip is_space (confirmation repr payload)) == codes "delete"

-- The pieces of an upload that are written before it grows over the limit, and whether it stays
-- within.
unfoldable pub receive : ℕ → ℕ → List Text → Text × Bool
receive limit written [] = ([], true)
receive limit written (piece ∷ pieces) =
    let (rest, fits) = receive limit (written + length piece) pieces in
    if ltb limit (written + length piece) then ([], false) else (piece ++ rest, fits)

-- What the handlers make of an IngestError, an OSError, another exception, or a death.
pub data Failure : Type 0 where
  caught : ℕ → Failure
  uncaught killed : Failure

abbrev pub is_death : Fate → Bool
is_death (Fate.write_dies n) = true
is_death Fate.replace_dies = true
is_death Fate.dies_after = true
is_death fate = false

abbrev failure_of : Fate → IngestError → Failure
failure_of fate arrived_empty = caught 422
failure_of fate not_audio = caught 422
failure_of fate not_converted = caught 422
failure_of fate not_a_photograph = caught 422
failure_of fate interrupted = if is_death fate then killed else caught 500
failure_of fate (unreadable os_error) = caught 500
failure_of fate (unreadable e) = uncaught

abbrev pub discarded : Moment → Text → World → World
discarded m upload_id w = with_disk (discard_upload m upload_id w.disk) w

-- The `except` clauses of an upload, of which a successful end discards the staging too.
abbrev upload_failed {ℓ} : {A : Type ℓ} → Moment → Text → World → Failure → Reply A
upload_failed m upload_id w (caught status) = (discarded m upload_id w, err (refused status))
upload_failed m upload_id w uncaught = (w, err unhandled)
upload_failed m upload_id w killed = (w, err died)

unfoldable pub end_upload {ℓ} :
    {A : Type ℓ} → Fate → Moment → Text → World × Outcome IngestError A → Reply A
end_upload fate m upload_id (w, ok a) = (discarded m upload_id w, ok a)
end_upload fate m upload_id (w, err e) = upload_failed m upload_id w (failure_of fate e)

-- The same clauses with a `finally` that discards the session however the handler ends.
abbrev finish_failed {ℓ} : {A : Type ℓ} → Moment → Text → World → Failure → Reply A
finish_failed m upload_id w (caught status) = (discarded m upload_id w, err (refused status))
finish_failed m upload_id w uncaught = (discarded m upload_id w, err unhandled)
finish_failed m upload_id w killed = (w, err died)

unfoldable pub end_session {ℓ} :
    {A : Type ℓ} → Fate → Moment → Text → World × Outcome IngestError A → Reply A
end_session fate m upload_id (w, ok a) = (discarded m upload_id w, ok a)
end_session fate m upload_id (w, err e) = finish_failed m upload_id w (failure_of fate e)

-- `for path in doomed: move_to_trash(settings, path)`, where the clock shows `clock n` at the call
-- number `n`.
unfoldable pub trash_all : (ℕ → Moment) → ℕ → List FilePath → Disk → Disk × List FilePath
unfolding move_to_trash
trash_all clock n [] disk = (disk, [])
trash_all clock n (path ∷ paths) disk =
    let (next, destination) = move_to_trash (clock n) path disk in
    let (after, moved) = trash_all clock (n + 1) paths next in
    (after, elim destination [ none ↦ moved | some d ↦ d ∷ moved ])

-- What `FileResponse` sends: the file that the index names, if it is there.
abbrev pub send_file : FilePath → World → Outcome HttpError Text
send_file path w = elim (lookup path w.disk) [ none ↦ err (refused 404) | some bytes ↦ ok bytes ]
