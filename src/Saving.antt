-- ===== src/Saving.antt =====
-- The handlers of web/routes_answers.py that save, skip, put off and read back an answer, and
-- `_next_question` of web/routes_pages.py. The git commit and the pages are not part of the state.
mod Tests
use veillee.Base.{
  ℕ, Bool, true, false, Option, none, some, List, [], ◌∷◌, ◌++◌, if◌then◌else◌, ltb, length, ◌==◌,
  nat_eq, list_eq, Outcome, ok, err, ◌>>=◌,
}
use veillee.Base.Text.{Text, codes}
use veillee.Models.{Question, Answer, status_answered, status_skipped, status_later}
use veillee.Values.{Value, str, mapping, Fields, get_field, Yaml}
use veillee.Questions.{QuestionBank, by_id}
use veillee.Disk.{Disk, Fate}
use veillee.Answers.{ReadError, WriteError, Call, write_answer, load_answer}
use veillee.Index.{Tables, upsert_answer}
use veillee.Ingest.{World}

abbrev pub max_body_chars : ℕ
max_body_chars = 2000000

pub data SaveError : Type 0 where
  no_such_question not_an_object body_not_text too_long : SaveError
  not_written : WriteError → SaveError
  unreadable_answer : ReadError → SaveError

abbrev pub persisted : Disk → Tables → Outcome WriteError Answer → World × Outcome SaveError Answer
persisted disk t (err e) = (record { disk = disk; tables = t }, err (not_written e))
persisted disk t (ok a) =
    (record { disk = disk; tables = record t { answers = upsert_answer a t.answers } }, ok a)

abbrev pub require_question : QuestionBank → Text → Outcome SaveError Question
require_question bank question_id = elim (by_id bank question_id) [
  | none ↦ err no_such_question
  | some q ↦ ok q
]

-- The body that a request carries, within the limit.
abbrev text_body : Option Value → Outcome SaveError Text
text_body none = ok []
text_body (some (str s)) = if ltb max_body_chars (length s) then err too_long else ok s
text_body (some v) = err body_not_text

abbrev pub body_of : Value → Outcome SaveError Text
body_of (mapping fs) = text_body (get_field (codes "body") fs)
body_of v = err not_an_object

-- `existing.body if existing else ""`
abbrev existing_body : Option Answer → Text
existing_body none = []
existing_body (some a) = a.body

abbrev link_to : Question → Text
link_to q = codes "/question/" ++ q.id

abbrev first_question : List Question → Option Question
first_question [] = none
first_question (q ∷ qs) = some q

unfoldable pub question_after : Text → List Question → Option Question
question_after question_id [] = none
question_after question_id (q ∷ qs) =
    if q.id == question_id then first_question qs else question_after question_id qs

unfoldable pub next_question : QuestionBank → Text → Option Question
unfolding question_after
next_question bank question_id = question_after question_id bank.questions

-- `_after`
unfoldable pub page_after : QuestionBank → Text → Text
unfolding next_question
page_after bank question_id = elim (next_question bank question_id) [
  | none ↦ codes "/"
  | some q ↦ link_to q
]

module _ (nfkd : Text → Text) (yaml : Yaml) (call : Call) (fate : Fate) where
  -- Disk first, then the index.
  unfoldable pub persist : Question → Text → Text → World → World × Outcome SaveError Answer
  unfolding write_answer
  persist q body status w =
      let (disk, result) = write_answer nfkd yaml call fate q body status w.disk in
      persisted disk w.tables result

  abbrev pub persist_body :
      Question → Outcome SaveError Text → Text → World → World × Outcome SaveError Answer
  persist_body q (err e) status w = (w, err e)
  persist_body q (ok body) status w = persist q body status w

  abbrev pub for_question :
      Outcome SaveError Question
      → (Question → World → World × Outcome SaveError Answer)
      → World
      → World × Outcome SaveError Answer
  for_question (err e) act w = (w, err e)
  for_question (ok q) act w = act q w

  unfoldable pub save_answer :
      QuestionBank → Text → Value → World → World × Outcome SaveError Answer
  unfolding persist
  save_answer bank question_id payload w =
      for_question (require_question bank question_id)
        (λ q v. persist_body q (body_of payload) status_answered v) w

  -- `load_answer`, of which an exception is passed on
  abbrev pub kept_body : Outcome ReadError (Option Answer) → Outcome SaveError Text
  kept_body (err e) = err (unreadable_answer e)
  kept_body (ok existing) = ok (existing_body existing)

  -- `_mark`
  unfoldable pub mark : Text → Question → World → World × Outcome SaveError Answer
  unfolding persist
  mark status q w = persist_body q (kept_body (load_answer nfkd yaml q w.disk)) status w

  unfoldable pub skip_question : QuestionBank → Text → World → World × Outcome SaveError Answer
  unfolding mark
  skip_question bank question_id w =
      for_question (require_question bank question_id) (mark status_skipped) w

  unfoldable pub come_back_later : QuestionBank → Text → World → World × Outcome SaveError Answer
  unfolding mark
  come_back_later bank question_id w =
      for_question (require_question bank question_id) (mark status_later) w
