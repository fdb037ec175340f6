-- ===== src/Repository.antt =====
-- repository.py: the queries of the pages. `fetchone` takes the first row, and rows that an ORDER BY
-- leaves equal stand in the table's order. `random.choice` is the parameter `choose`.
pub mod Counts
mod Tests
use veillee.Base.{
  ℕ, ◌+◌, Bool, true, false, not, Option, none, some, List, [], ◌∷◌, ◌++◌, map, ◌&&◌, ◌||◌,
  if◌then◌else◌, leb, length, filter, find, count_if, contains, ◌==◌, nat_eq, list_eq,
}
use veillee.Base.Text.{Text, codes, strip}
use veillee.Base.Dict.{Dict, lookup, insert, erase}
use veillee.Base.Sort.{sort_by, text_le}
use veillee.Models.{Chapter, Question, Answer, Recording, status_answered, status_later}
use veillee.Questions.{QuestionBank, by_id, in_chapter}
use veillee.Photographs.{Photograph}
use veillee.Index.{Tables}
use veillee.Queue.{delete_job}
use veillee.Paths.{or_text}

abbrev pub rows_of {ℓ κ} : {K : Type ℓ} {A : Type κ} → Dict K A → List A
rows_of [] = []
rows_of ((k, a) ∷ rows) = a ∷ rows_of rows

-- SQL's TRIM, which takes spaces only
abbrev pub is_blank_char : ℕ → Bool
is_blank_char c = c == 32

-- status = 'answered' AND TRIM(body) != ''
unfoldable pub has_writing : Answer → Bool
has_writing a = a.status == status_answered && not (strip is_blank_char a.body == [])

abbrev pub is_later : Answer → Bool
is_later a = a.status == status_later

abbrev pub answer_ids : (Answer → Bool) → List Answer → List Text
answer_ids p [] = []
answer_ids p (a ∷ rows) = let rest = answer_ids p rows in if p a then a.question_id ∷ rest else rest

abbrev pub recorded_ids : List Recording → List Text
recorded_ids [] = []
recorded_ids (r ∷ rows) = r.question_id ∷ recorded_ids rows

-- UNION and DISTINCT keep one of each.
unfoldable pub distinct : List Text → List Text
distinct [] = []
distinct (x ∷ xs) = let rest = distinct xs in if contains xs x then rest else x ∷ rest

unfoldable pub get_answer : Text → Tables → Option Answer
get_answer question_id t = lookup question_id t.answers

unfoldable pub answered_ids : Tables → List Text
unfolding has_writing distinct
answered_ids t =
    distinct (answer_ids has_writing (rows_of t.answers) ++ recorded_ids (rows_of t.recordings))

unfoldable pub marked_later_ids : Tables → List Text
marked_later_ids t = answer_ids is_later (rows_of t.answers)

pub record Progress : Type 0 where
  pub answered : ℕ
  pub total : ℕ
  pub words : ℕ
  pub recordings : ℕ

abbrev pub sum_words : List Answer → ℕ
sum_words [] = 0
sum_words (a ∷ rows) = (if a.status == status_answered then a.word_count else 0) + sum_words rows

unfoldable pub progress : QuestionBank → Tables → Progress
unfolding answered_ids
progress bank t = record {
  answered = length (answered_ids t);
  total = length bank.questions;
  words = sum_words (rows_of t.answers);
  recordings = length t.recordings;
}

pub record ChapterSummary : Type 0 where
  pub order : ℕ
  pub slug : Text
  pub title : Text
  pub total : ℕ
  pub answered : ℕ

abbrev pub is_answered : Tables → Question → Bool
is_answered t q = contains (answered_ids t) q.id

unfoldable pub summary_of : QuestionBank → Tables → Chapter → ChapterSummary
unfolding answered_ids
summary_of bank t c = record {
  order = c.order;
  slug = c.slug;
  title = c.title;
  total = length (in_chapter bank c.slug);
  answered = count_if (is_answered t) (in_chapter bank c.slug);
}

unfoldable pub chapter_summaries : QuestionBank → Tables → List ChapterSummary
unfolding summary_of
chapter_summaries bank t = map (summary_of bank t) bank.chapters

unfoldable pub unanswered : QuestionBank → Tables → List Question
unfolding answered_ids
unanswered bank t = filter (λ q. not (is_answered t q)) bank.questions

unfoldable pub random_unanswered :
    (List Question → Option Question) → QuestionBank → Tables → Option Question
unfolding unanswered
random_unanswered choose bank t = elim (unanswered bank t) [ [] ↦ none | q ∷ qs ↦ choose (q ∷ qs) ]

-- ORDER BY updated DESC LIMIT 1, of the rows that pass
unfoldable pub latest : (Answer → Bool) → List Answer → Option Answer
latest p [] = none
latest p (a ∷ rows) = keep (latest p rows)
  where
    keep : Option Answer → Option Answer
    keep none = if p a then some a else none
    keep (some b) = if p a && text_le b.updated a.updated then some a else some b

abbrev pub question_of : QuestionBank → Option Answer → Option Question
question_of bank none = none
question_of bank (some a) = by_id bank a.question_id

abbrev first_of : List Question → Option Question × Text
first_of [] = (none, [])
first_of (q ∷ qs) = (some q, codes "Where to begin")

abbrev note_of : Question → Text
note_of q = elim q.note [
  | none ↦ codes "A question from your family"
  | some note ↦ or_text note (codes "A question from your family")
]

-- The pinned question, the one marked for later, the last one written, and the questions that remain.
abbrev pub offer :
    Option Question → Option Question → Option Question → List Question → Option Question × Text
offer (some q) later recent remaining = (some q, note_of q)
offer none (some q) recent remaining = (some q, codes "You said you would come back to this one")
offer none none (some q) remaining = (some q, codes "The last one you were writing")
offer none none none remaining = first_of remaining

unfoldable pub continue_where_left_off : QuestionBank → Tables → Option Question × Text
unfolding answered_ids latest has_writing unanswered
continue_where_left_off bank t =
    offer (find (λ q. q.pinned && not (is_answered t q)) bank.questions)
      (question_of bank (latest is_later (rows_of t.answers)))
      (question_of bank (latest has_writing (rows_of t.answers))) (unanswered bank t)

unfoldable pub answers_for_chapter : Text → Tables → List Answer
answers_for_chapter slug t = filter (λ a. a.chapter_slug == slug) (rows_of t.answers)

-- (chapter_order, question_id), which are compared in this order
abbrev pub in_book_order : Answer → Answer → Bool
in_book_order a b =
    if a.chapter_order == b.chapter_order
    then text_le a.question_id b.question_id
    else leb a.chapter_order b.chapter_order

unfoldable pub all_written_answers : Tables → List Answer
unfolding has_writing
all_written_answers t = sort_by in_book_order (filter has_writing (rows_of t.answers))

abbrev pub recorded_before : Recording → Recording → Bool
recorded_before r s = text_le r.created s.created

unfoldable pub recordings_for : Text → Tables → List Recording
recordings_for question_id t =
    sort_by recorded_before (filter (λ r. r.question_id == question_id) (rows_of t.recordings))

unfoldable pub get_recording : Text → Tables → Option Recording
get_recording recording_id t = lookup recording_id t.recordings

abbrev pub recorded_after : Recording → Recording → Bool
recorded_after r s = text_le s.created r.created

unfoldable pub all_recordings : Tables → List Recording
all_recordings t = sort_by recorded_after (rows_of t.recordings)

unfoldable pub delete_recording_row : Text → Tables → Tables
delete_recording_row recording_id t = record t {
  recordings = erase recording_id t.recordings;
  queue = delete_job recording_id t.queue;
}

abbrev pub photographed_before : Photograph → Photograph → Bool
photographed_before p q = text_le p.created q.created

unfoldable pub photographs_for : Text → Tables → List Photograph
photographs_for question_id t =
    sort_by photographed_before (filter (λ p. p.question_id == question_id) (rows_of t.photographs))

unfoldable pub get_photograph : Text → Tables → Option Photograph
get_photograph photo_id t = lookup photo_id t.photographs

abbrev pub by_question : Photograph → Photograph → Bool
by_question p q =
    if p.question_id == q.question_id
    then text_le p.created q.created
    else text_le p.question_id q.question_id

unfoldable pub all_photographs : Tables → List Photograph
all_photographs t = sort_by by_question (rows_of t.photographs)

unfoldable pub delete_photograph_row : Text → Tables → Tables
delete_photograph_row photo_id t = record t { photographs = erase photo_id t.photographs }

unfoldable pub photograph_count : Tables → ℕ
photograph_count t = length t.photographs
