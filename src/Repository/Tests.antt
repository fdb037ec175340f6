-- ===== src/Repository/Tests.antt =====
-- An index with one answer, of a bank with two questions.
use veillee.Base.{◌≡◌, Bool, true, false, none, [], ◌∷◌, ◌||◌, contains, Distinct, nat_eq, list_eq}
use veillee.Base.Text.{Text, codes}
use veillee.Models.{Question, Chapter, status_answered}
use veillee.Questions.{QuestionBank}
use veillee.Index.{Tables}
use veillee.Repository.{answered_ids, rows_of}
use veillee.Repository.Counts.{is_written_for, is_recorded_for, answered_ids-exact}

abbrev question_of_id : Text → Bool → Question
question_of_id id pinned = record {
  id = id;
  chapter_slug = codes "war";
  chapter_order = 1;
  chapter_title = codes "The war";
  text = codes "Where?";
  hint = none;
  follow_ups = [];
  custom = false;
  pinned = pinned;
  note = none;
}

abbrev war : Chapter
war = record { order = 1; slug = codes "war"; title = codes "The war" }

abbrev two_questions : QuestionBank
two_questions = record {
  questions = question_of_id (codes "q001") true ∷ question_of_id (codes "q002") true ∷ [];
  chapters = war ∷ [];
}

abbrev one_answer : Tables
one_answer = record {
  answers =
      (
        codes "q001",
        record {
          question_id = codes "q001";
          question_text = codes "Where?";
          chapter_slug = codes "war";
          chapter_order = 1;
          body = codes "Here.";
          status = status_answered;
          created = [];
          updated = [];
          word_count = 1;
          custom = false;
          path = [];
        },
      )
      ∷ [];
  recordings = [];
  photographs = [];
  queue = record { rows = []; next_id = 1 };
  meta = [];
}

answered_ids-exact_example :
    ((id : Text)
      → contains (answered_ids one_answer) id ≡ (
          is_written_for id (rows_of one_answer.answers)
          || is_recorded_for id (rows_of one_answer.recordings)))
    × Distinct (answered_ids one_answer)
answered_ids-exact_example = answered_ids-exact one_answer
