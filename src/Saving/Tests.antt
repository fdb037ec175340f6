-- ===== src/Saving/Tests.antt =====
-- Saving a first answer, and the page after a question.
use veillee.Base.{◌≡◌, refl, false, none, [], ◌∷◌, nat_eq, list_eq, list_beq, Outcome, ok}
use veillee.Base.Text.{Text, codes}
use veillee.Base.Dict.{lookup}
use veillee.Models.{Question, Answer, status_answered}
use veillee.Paths.{Moment}
use veillee.Questions.{QuestionBank}
use veillee.Values.{Yaml}
use veillee.Disk.{completes, copied, atomic_write, move_file}
use veillee.Answers.{
  Call, store_revised, write_answer, answer_path, save_revision, created_of, store_answer,
  new_answer,
}
use veillee.Base.Decimal.{pad, decimal, decimal_from, value_from}
use veillee.Base.Text.{strip, strip_left, strip_right}
use veillee.Base.Dict.{insert, erase}
use veillee.Models.{FilePath}
use veillee.Paths.{
  answer_relpath, parse_question_id, chapter_dirname, answer_leaf, slugify, squash,
  before_last_dash, utc_now_iso,
}
use veillee.Ingest.{World}
use veillee.Saving.{SaveError, persist, page_after, next_question, question_after}

abbrev question_of_id : Text → Question
question_of_id id = record {
  id = id;
  chapter_slug = codes "war";
  chapter_order = 1;
  chapter_title = codes "The war";
  text = codes "Where?";
  hint = none;
  follow_ups = [];
  custom = false;
  pinned = false;
  note = none;
}

abbrev noon : Moment
noon = record {
  year = 2024;
  month = 3;
  day = 9;
  hour = 12;
  minute = 0;
  second = 5;
  microsecond = 7;
}

abbrev call : Call
call = record { stamped = noon; written = noon; temp_name = codes ".tmp-x.part"; copying = copied }

abbrev toy_yaml : Yaml
toy_yaml = record { safe_load = λ s. none; safe_dump = λ m. []; repr = λ v. [] }

abbrev world : World
world = record {
  disk = [];
  tables = record {
    answers = [];
    recordings = [];
    photographs = [];
    queue = record { rows = []; next_id = 1 };
    meta = [];
  };
}

abbrev saved_world : World × Outcome SaveError Answer
saved_world =
    persist (λ t. t) toy_yaml call completes (question_of_id (codes "q001")) (codes "Here.")
      status_answered world

abbrev path : FilePath
path = codes "answers" ∷ codes "01-war" ∷ codes "001-where.md" ∷ []

abbrev saved_answer : Answer
saved_answer =
    new_answer (question_of_id (codes "q001")) path (codes "Here.") status_answered
      (utc_now_iso noon) (utc_now_iso noon)

saves : saved_world.1 ≡ ok saved_answer
unfolding persist write_answer answer_path answer_relpath parse_question_id chapter_dirname
    answer_leaf slugify pad decimal decimal_from squash before_last_dash value_from strip strip_left
    strip_right list_beq save_revision store_revised created_of store_answer atomic_write lookup
    insert erase move_file
saves = refl

abbrev two_questions : QuestionBank
two_questions = record {
  questions = question_of_id (codes "q001") ∷ question_of_id (codes "q002") ∷ [];
  chapters = [];
}

after_first : page_after two_questions (codes "q001") ≡ codes "/question/q002"
unfolding page_after next_question question_after list_beq
after_first = refl

after_last : page_after two_questions (codes "q002") ≡ codes "/"
unfolding page_after next_question question_after list_beq
after_last = refl
