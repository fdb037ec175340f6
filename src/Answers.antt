-- ===== src/Answers.antt =====
-- storage/answers.py: an answer on disk, its revisions and the trash. A handler's calls of the clock
-- are its moments, and the text is what it stands for once UTF-8 is decoded.
pub mod Keeping
pub mod Growing
pub mod ReadBack
mod Tests
use veillee.Base.{
  ℕ, Bool, true, false, not, Option, none, some, List, [], ◌∷◌, ◌++◌, ◌&&◌, if◌then◌else◌, take,
  contains, ◌==◌, nat_eq, list_eq, Outcome, ok, err, ◌>>=◌, ◌>>◌, require,
}
use veillee.Base.Text.{Text, codes, strip, is_newline}
use veillee.Base.Dict.{lookup, insert}
use veillee.Models.{FilePath, Question, Answer, status_answered, valid_statuses}
use veillee.Paths.{Moment, answer_relpath, or_text, revision_stamp, utc_now_iso, count_words}
use veillee.Values.{
  Value, str, num, flag, Fields, end, field, get_field, text_of, int_of, truthy, Yaml,
}
use veillee.Frontmatter.{FrontmatterError, missing_keys, dumps, loads}
use veillee.Disk.{
  Disk, exists, is_dir, children, walk, CopyFate, copied, not_made, part_copied, universal_newlines,
  move_file, relative_to, file_name, Fate, atomic_write, answers_dir, revisions_dir, trash_dir,
}

-- What reading a file may raise.
pub data ReadError : Type 0 where
  frontmatter_error : FrontmatterError → ReadError
  os_error value_error type_error key_error attribute_error : ReadError

pub data WriteError : Type 0 where
  unknown_status bad_question_id interrupted : WriteError
  unreadable : ReadError → WriteError

-- A path below the answers directory; `none` is the ValueError of `answer_relpath`.
unfoldable pub answer_path : (Text → Text) → Question → Option FilePath
unfolding answer_relpath
answer_path nfkd q = elim (answer_relpath nfkd q.chapter_order q.chapter_slug q.id q.text) [
  | none ↦ none
  | some relative ↦ some (answers_dir ++ relative)
]

abbrev pub revision_path : Text → Moment → FilePath
revision_path question_id m =
    revisions_dir ++ (question_id ∷ (revision_stamp m ++ codes ".md") ∷ [])

-- The copy of a text to a file, and whether it was made.
abbrev pub copy_to : CopyFate → FilePath → Text → Disk → Disk × Bool
copy_to copied destination text disk = (insert destination text disk, true)
copy_to not_made destination text disk = (disk, false)
copy_to (part_copied n) destination text disk = (insert destination (take n text) disk, false)

abbrev pub revised : FilePath → Disk × Bool → Disk × Outcome WriteError (Option FilePath)
revised destination (disk, true) = (disk, ok (some destination))
revised destination (disk, false) = (disk, err interrupted)

unfoldable pub save_revision :
    Moment → CopyFate → Text → FilePath → Disk → Disk × Outcome WriteError (Option FilePath)
save_revision m fate question_id path disk = elim (lookup path disk) [
  | none ↦ (disk, ok none)
  | some text ↦
      revised (revision_path question_id m) (copy_to fate (revision_path question_id m) text disk)
]

unfoldable pub list_revisions : Text → Disk → List FilePath
unfolding is_dir children
list_revisions question_id disk =
    let directory = revisions_dir ++ (question_id ∷ []) in
    if is_dir directory disk then children (codes ".md") directory disk else []

-- Where `move_to_trash` puts a file. A path of the model is below the data directory.
abbrev pub trash_path : Moment → FilePath → FilePath
trash_path m path = trash_dir ++ (revision_stamp m ∷ path)

unfoldable pub move_to_trash : Moment → FilePath → Disk → Disk × Option FilePath
unfolding move_file
move_to_trash m path disk =
    if exists path disk
    then (move_file path (trash_path m path) disk, some (trash_path m path))
    else (disk, none)

abbrev pub or_error {ℓ κ} : {E : Type ℓ} {A : Type κ} → E → Option A → Outcome E A
or_error e none = err e
or_error e (some a) = ok a

-- What `int(value)` raises where it raises.
abbrev int_error : Value → ReadError
int_error (str s) = value_error
int_error v = type_error

abbrev pub to_int : Value → Outcome ReadError ℕ
to_int v = or_error (int_error v) (int_of v)

-- str(metadata.get(key, default))
abbrev pub text_or : (Value → Text) → Text → Text → Fields → Text
text_or repr default key fs = elim (get_field key fs) [ none ↦ default | some v ↦ text_of repr v ]

-- int(metadata.get(key, default))
abbrev pub int_or : ℕ → Text → Fields → Outcome ReadError ℕ
int_or default key fs = elim (get_field key fs) [ none ↦ ok default | some v ↦ to_int v ]

-- bool(metadata.get(key, False))
abbrev pub flag_or_false : Text → Fields → Bool
flag_or_false key fs = elim (get_field key fs) [ none ↦ false | some v ↦ truthy v ]

abbrev pub from_frontmatter {ℓ} : {A : Type ℓ} → Outcome FrontmatterError A → Outcome ReadError A
from_frontmatter (ok a) = ok a
from_frontmatter (err e) = err (frontmatter_error e)

abbrev known_status : Text → Text
known_status status = if contains valid_statuses status then status else status_answered

unfoldable pub answer_from : (Value → Text) → FilePath → Fields → Text → Outcome ReadError Answer
answer_from repr path metadata body = do
  question_id ← or_error (frontmatter_error missing_keys) (get_field (codes "question_id") metadata)
  question_text ←
      or_error (frontmatter_error missing_keys) (get_field (codes "question_text") metadata)
  chapter_order ← int_or 0 (codes "chapter_order") metadata
  word_count ← int_or (count_words body) (codes "word_count") metadata
  ok (record {
    question_id = text_of repr question_id;
    question_text = text_of repr question_text;
    chapter_slug = text_or repr [] (codes "chapter") metadata;
    chapter_order = chapter_order;
    body = body;
    status = known_status (text_or repr status_answered (codes "status") metadata);
    created = text_or repr [] (codes "created") metadata;
    updated = text_or repr [] (codes "updated") metadata;
    word_count = word_count;
    custom = flag_or_false (codes "custom") metadata;
    path = path;
  })

pub read_answer : Yaml → FilePath → Disk → Outcome ReadError Answer
unfolding answer_from
read_answer yaml path disk = do
  text ← or_error os_error (lookup path disk)
  (metadata, body) ← from_frontmatter (loads yaml (universal_newlines text))
  answer_from yaml.repr path metadata body

unfoldable pub iter_answer_files : Disk → List FilePath
unfolding is_dir walk
iter_answer_files disk = if is_dir answers_dir disk then walk (codes ".md") answers_dir disk else []

unfoldable pub metadata_of : Answer → Fields
metadata_of a = field (codes "question_id") (str a.question_id) (
    field (codes "question_text") (str a.question_text) (
      field (codes "chapter") (str a.chapter_slug) (
        field (codes "chapter_order") (num a.chapter_order) (
          field (codes "created") (str a.created) (
            field (codes "updated") (str a.updated) (
              field (codes "word_count") (num a.word_count) (
                field (codes "status") (str a.status)
                  (field (codes "custom") (flag a.custom) end))))))))

unfoldable pub serialise : Yaml → Answer → Text
unfolding metadata_of dumps
serialise yaml a = dumps yaml (metadata_of a) a.body

-- read_answer(path).created or now, and `now` where the frontmatter cannot be read
abbrev pub created_or : Text → Outcome ReadError Answer → Outcome ReadError Text
created_or now (ok a) = ok (or_text a.created now)
created_or now (err (frontmatter_error e)) = ok now
created_or now (err e) = err e

unfoldable pub created_of : Yaml → Text → FilePath → Disk → Outcome ReadError Text
unfolding read_answer
created_of yaml now path disk =
    if exists path disk then created_or now (read_answer yaml path disk) else ok now

unfoldable pub new_answer : Question → FilePath → Text → Text → Text → Text → Answer
new_answer q path body status created now = record {
  question_id = q.id;
  question_text = q.text;
  chapter_slug = q.chapter_slug;
  chapter_order = q.chapter_order;
  body = strip is_newline body;
  status = status;
  created = created;
  updated = now;
  word_count = count_words body;
  custom = q.custom;
  path = path;
}

abbrev pub finished : Answer → Bool → Outcome WriteError Answer
finished a returned = if returned then ok a else err interrupted

-- What one call meets: its two readings of the clock, the name of the temporary file, and how the copy
-- of a revision ends.
pub record Call : Type 0 where
  pub stamped : Moment
  pub written : Moment
  pub temp_name : Text
  pub copying : CopyFate

unfoldable pub store_answer :
    Yaml
    → Call
    → Fate
    → Question
    → FilePath
    → Text
    → Text
    → Outcome ReadError Text
    → Disk
    → Disk × Outcome WriteError Answer
unfolding serialise new_answer atomic_write
store_answer yaml call fate q path body status (err e) disk = (disk, err (unreadable e))
store_answer yaml call fate q path body status (ok created) disk =
    let answer = new_answer q path body status created (utc_now_iso call.written) in
    let (after, returned) = atomic_write call.temp_name fate path (serialise yaml answer) disk in
    (after, finished answer returned)

-- What `write_answer` does after `save_revision`.
unfoldable pub store_revised :
    Yaml
    → Call
    → Fate
    → Question
    → FilePath
    → Text
    → Text
    → Disk × Outcome WriteError (Option FilePath)
    → Disk × Outcome WriteError Answer
unfolding created_of store_answer
store_revised yaml call fate q path body status (kept, err e) = (kept, err e)
store_revised yaml call fate q path body status (kept, ok revision) =
    store_answer yaml call fate q path body status
      (created_of yaml (utc_now_iso call.written) path kept) kept

-- The disk afterwards, and what the call returns or raises.
unfoldable pub write_answer :
    (Text → Text)
    → Yaml
    → Call
    → Fate
    → Question
    → Text
    → Text
    → Disk
    → Disk × Outcome WriteError Answer
unfolding answer_path save_revision store_revised
write_answer nfkd yaml call fate q body status disk =
    if not (contains valid_statuses status)
    then (disk, err unknown_status)
    else elim (answer_path nfkd q) [
      | none ↦ (disk, err bad_question_id)
      | some path ↦
          store_revised yaml call fate q path body status
            (save_revision call.stamped call.copying q.id path disk)
    ]

abbrev pub answer_if : Yaml → FilePath → Disk → Bool → Outcome ReadError (Option Answer)
answer_if yaml path disk false = ok none
answer_if yaml path disk true = do answer ← read_answer yaml path disk; ok (some answer)

-- `none` inside is the None of a question without an answer.
unfoldable pub load_answer :
    (Text → Text) → Yaml → Question → Disk → Outcome ReadError (Option Answer)
unfolding answer_path
load_answer nfkd yaml q disk = do
  path ← or_error value_error (answer_path nfkd q)
  answer_if yaml path disk (exists path disk)
