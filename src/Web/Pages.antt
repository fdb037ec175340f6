-- ===== src/Web/Pages.antt =====
-- web/routes_pages.py and read_answer_api and add_own_question of web/routes_answers.py: what each page
-- is given to show, the book, and signing in. How a template lays a page out is not modelled.
use veillee.Base.{
  ℕ, Bool, true, false, not, Option, none, some, List, [], ◌∷◌, ◌++◌, filter, ◌&&◌, ltb, length,
  if◌then◌else◌, ◌==◌, nat_eq, list_eq, Outcome, ok, err,
}
use veillee.Base.Text.{Text, codes, starts_with, has_infix, strip, is_space}
use veillee.Base.Dict.{Dict, lookup, insert}
use veillee.Models.{Chapter, Question, Answer, Recording, FilePath}
use veillee.Values.{Yaml}
use veillee.Questions.{
  BankError, QuestionBank, by_id, in_chapter, chapter_by_slug, next_custom_id,
  append_custom_question, load_bank,
}
use veillee.Auth.{Passcodes, Signer, role_for_passcode, passcodes_enabled, issue_cookie}
use veillee.Disk.{Disk, Fate, atomic_write}
use veillee.Answers.{ReadError, load_answer}
use veillee.Photographs.{Photograph}
use veillee.Index.{Tables}
use veillee.Ingest.{World}
use veillee.Saving.{next_question}
use veillee.Repository.{
  Progress, ChapterSummary, progress, chapter_summaries, continue_where_left_off, random_unanswered,
  answers_for_chapter, answered_ids, recordings_for, photographs_for, all_written_answers,
  marked_later_ids, all_recordings, all_photographs,
}
use veillee.Web.{HttpError, refused, unhandled}
use veillee.Web.Audio.{cut_short}

pub record Home : Type 0 where
  pub progress : Progress
  pub resume : Option Question
  pub resume_reason : Text
  pub random_question : Option Question
  pub chapters : List ChapterSummary

unfoldable pub home : (List Question → Option Question) → QuestionBank → Tables → Home
home choose bank t =
    let (resume, reason) = continue_where_left_off bank t in
    record {
      progress = progress bank t;
      resume = resume;
      resume_reason = reason;
      random_question = random_unanswered choose bank t;
      chapters = chapter_summaries bank t;
    }

pub record ChapterPage : Type 0 where
  pub chapter : Chapter
  pub questions : List Question
  pub answers : List Answer
  pub answered : List Text

unfoldable pub chapter_page : QuestionBank → Text → Tables → Outcome HttpError ChapterPage
chapter_page bank slug t = elim (chapter_by_slug bank slug) [
  | none ↦ err (refused 404)
  | some c ↦ ok (record {
    chapter = c;
    questions = in_chapter bank slug;
    answers = answers_for_chapter slug t;
    answered = answered_ids t;
  })
]

pub record QuestionPage : Type 0 where
  pub question : Question
  pub answer : Option Answer
  pub recordings : List Recording
  pub photographs : List Photograph
  pub next_question : Option Question

abbrev page_of :
    QuestionBank
    → Text
    → Tables
    → Question
    → Outcome ReadError (Option Answer)
    → Outcome HttpError QuestionPage
page_of bank question_id t q (err e) = err unhandled
page_of bank question_id t q (ok answer) = ok (record {
  question = q;
  answer = answer;
  recordings = recordings_for question_id t;
  photographs = photographs_for question_id t;
  next_question = next_question bank question_id;
})

module _ (nfkd : Text → Text) (yaml : Yaml) where
  unfoldable pub question_page : QuestionBank → Text → World → Outcome HttpError QuestionPage
  question_page bank question_id w = elim (by_id bank question_id) [
    | none ↦ err (refused 404)
    | some q ↦ page_of bank question_id w.tables q (load_answer nfkd yaml q w.disk)
  ]

  abbrev answer_read : Outcome ReadError (Option Answer) → Outcome HttpError (Option Answer)
  answer_read (err e) = err unhandled
  answer_read (ok answer) = ok answer

  unfoldable pub read_answer_api : QuestionBank → Text → Disk → Outcome HttpError (Option Answer)
  read_answer_api bank question_id disk = elim (by_id bank question_id) [
    | none ↦ err (refused 404)
    | some q ↦ answer_read (load_answer nfkd yaml q disk)
  ]

-- Where the page of a random question leads.
unfoldable pub random_question : (List Question → Option Question) → QuestionBank → Tables → Text
random_question choose bank t = elim (random_unanswered choose bank t) [
  | none ↦ codes "/answers"
  | some q ↦ codes "/question/" ++ q.id
]

pub record AnswersPage : Type 0 where
  pub answers : List Answer
  pub progress : Progress
  pub later : List Text

unfoldable pub answers_page : QuestionBank → Tables → AnswersPage
answers_page bank t = record {
  answers = all_written_answers t;
  progress = progress bank t;
  later = marked_later_ids t;
}

pub record BookEntry : Type 0 where
  pub question : Question
  pub answer : Option Answer
  pub photographs : List Photograph
  pub recordings : List Recording

pub record BookChapter : Type 0 where
  pub chapter : Chapter
  pub entries : List BookEntry

-- {a.question_id: a for a in answers}
unfoldable pub answers_by_id : List Answer → Dict Text Answer → Dict Text Answer
answers_by_id [] found = found
answers_by_id (a ∷ rows) found = answers_by_id rows (insert a.question_id a found)

unfoldable pub book_entry : Tables → Question → BookEntry
unfolding answers_by_id
book_entry t q = record {
  question = q;
  answer = lookup q.id (answers_by_id (all_written_answers t) []);
  photographs = filter (λ p. p.question_id == q.id) (all_photographs t);
  recordings = filter (λ r. r.question_id == q.id) (all_recordings t);
}

abbrev pub is_empty_entry : BookEntry → Bool
is_empty_entry e = elim e.answer [
  | some a ↦ false
  | none ↦ length e.photographs == 0 && length e.recordings == 0
]

unfoldable pub book_entries : Tables → List Question → List BookEntry
unfolding book_entry
book_entries t [] = []
book_entries t (q ∷ qs) =
    let rest = book_entries t qs in
    let entry = book_entry t q in if is_empty_entry entry then rest else entry ∷ rest

unfoldable pub book_chapters : QuestionBank → Tables → List Chapter → List BookChapter
unfolding book_entries
book_chapters bank t [] = []
book_chapters bank t (c ∷ cs) =
    let rest = book_chapters bank t cs in
    let entries = book_entries t (in_chapter bank c.slug) in
    if length entries == 0 then rest else record { chapter = c; entries = entries } ∷ rest

unfoldable pub book : QuestionBank → Tables → List BookChapter
unfolding book_chapters
book bank t = book_chapters bank t bank.chapters

-- The answer to the form: the form again, or a redirection with a cookie.
pub data Entry : Type 0 where
  form : Bool → Text → Entry
  failure : Entry
  redirect : Text → Option Text → Entry

unfoldable pub enter_form : Passcodes → Text → Entry
enter_form passcodes next_path =
    if passcodes_enabled passcodes then form false next_path else redirect (codes "/") none

unfoldable pub safe_next : Text → Text
safe_next next_path =
    if starts_with next_path (codes "/") && not (has_infix next_path (codes "//"))
    then next_path
    else codes "/"

unfoldable pub enter_submit : Signer → Passcodes → Text → Text → Entry
unfolding safe_next
enter_submit signer passcodes passcode next_path = elim (role_for_passcode passcode passcodes) [
  | err e ↦ failure
  | ok none ↦ form true next_path
  | ok (some role) ↦ redirect (safe_next next_path) (some (issue_cookie signer role))
]

abbrev pub max_question_chars : ℕ
max_question_chars = 500

abbrev pub custom_path : FilePath
custom_path = codes "custom_questions.yaml" ∷ []

module _ (yaml : Yaml) (chapter_files : Option (List Text)) (temp_name : Text) (fate : Fate) where
  abbrev reloaded :
      Text → Disk → Outcome BankError QuestionBank → Disk × Outcome HttpError (Text × QuestionBank)
  reloaded question_id disk (err e) = (disk, err unhandled)
  reloaded question_id disk (ok bank) = (disk, ok (codes "/question/" ++ question_id, bank))

  abbrev question_filed : Text → Disk × Bool → Disk × Outcome HttpError (Text × QuestionBank)
  question_filed question_id (disk, false) = (disk, err (cut_short fate))
  question_filed question_id (disk, true) =
      reloaded question_id disk (load_bank yaml chapter_files (lookup custom_path disk))

  abbrev append_question :
      Text → Text → Disk → Outcome BankError Text → Disk × Outcome HttpError (Text × QuestionBank)
  append_question question_id text disk (err e) = (disk, err unhandled)
  append_question question_id text disk (ok file) =
      question_filed question_id (atomic_write temp_name fate custom_path file disk)

  -- He asks himself a question: the disk, where the answer leads, and the bank that is read again.
  unfoldable pub add_own_question :
      QuestionBank → Text → Disk → Disk × Outcome HttpError (Text × QuestionBank)
  add_own_question bank text disk =
      let cleaned = strip is_space text in
      if cleaned == []
      then (disk, err (refused 422))
      else if ltb max_question_chars (length cleaned)
      then (disk, err (refused 422))
      else elim (next_custom_id bank) [
        | none ↦ (disk, err unhandled)
        | some question_id ↦
            append_question question_id cleaned disk
              (append_custom_question yaml (lookup custom_path disk) question_id cleaned false [])
      ]
