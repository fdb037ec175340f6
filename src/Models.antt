-- ===== src/Models.antt =====
-- models.py: the value objects. A text is a list of code points, a path a list of components.
-- Durations are in milliseconds: the sidecar rounds them to three decimals.
use veillee.Base.{ℕ, Bool, Option, List, [], ◌∷◌, ◌&&◌, not, ◌==◌, nat_eq, list_eq}
use veillee.Base.Text.{Text, codes, strip, is_space}

abbrev pub FilePath : Type 0
FilePath = List Text

abbrev pub status_answered : Text
status_answered = codes "answered"

abbrev pub status_skipped : Text
status_skipped = codes "skipped"

abbrev pub status_later : Text
status_later = codes "later"

abbrev pub valid_statuses : List Text
valid_statuses = status_answered ∷ status_skipped ∷ status_later ∷ []

abbrev pub custom_chapter_order : ℕ
custom_chapter_order = 15

abbrev pub custom_chapter_slug : Text
custom_chapter_slug = codes "questions-he-asked-himself"

abbrev pub custom_chapter_title : Text
custom_chapter_title = codes "Questions he asked himself"

pub record Chapter : Type 0 where
  pub order : ℕ
  pub slug : Text
  pub title : Text

pub record Question : Type 0 where
  pub id : Text
  pub chapter_slug : Text
  pub chapter_order : ℕ
  pub chapter_title : Text
  pub text : Text
  pub hint : Option Text
  pub follow_ups : List Text
  pub custom : Bool
  pub pinned : Bool
  pub note : Option Text

pub record Answer : Type 0 where
  pub question_id : Text
  pub question_text : Text
  pub chapter_slug : Text
  pub chapter_order : ℕ
  pub body : Text
  pub status : Text
  pub created : Text
  pub updated : Text
  pub word_count : ℕ
  pub custom : Bool
  pub path : FilePath

unfoldable pub is_written : Answer → Bool
is_written a = a.status == status_answered && not (strip is_space a.body == [])

pub record Recording : Type 0 where
  pub recording_id : Text
  pub question_id : Text
  pub created : Text
  pub duration_ms : ℕ
  pub device : Text
  pub original_path : FilePath
  pub flac_path : FilePath
  pub opus_path : FilePath
  pub sidecar_path : FilePath
  pub sha256_original : Text
  pub sha256_flac : Text
  pub sha256_opus : Text
  pub source : Text
  pub transcript_path : Option FilePath
  pub transcript_reviewed : Bool
