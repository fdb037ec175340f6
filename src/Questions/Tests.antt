-- ===== src/Questions/Tests.antt =====
-- A bank of one chapter with one question.
use veillee.Base.{◌≡◌, refl, true, false, none, some, [], ◌∷◌, ok, nat_eq, list_eq, list_beq}
use veillee.Base.Text.{Text, codes, strip, strip_left, strip_right}
use veillee.Base.Decimal.{value_from}
use veillee.Paths.{parse_question_id}
use veillee.Values.{
  str, num, seq, cons, nil, mapping, Fields, end, field, get_field, text_of, int_of, Yaml,
}
use veillee.Questions.{
  QuestionBank, by_id, next_custom_id, optional_text, list_or_empty, question_from, is_well_formed,
  parse_question, parse_questions, load_mapping, is_blank, chapter_from, parse_chapter_file,
  load_custom_questions, load_chapter_files, first_duplicate, insert_chapter, sort_chapters,
  check_bank, load_bank,
}
use veillee.Questions.Unique.{IsSound, load_bank-IsSound}
use veillee.Questions.Fresh.{next_custom_id-fresh}

abbrev document : Fields
document =
    field (codes "chapter")
      (mapping (
        field (codes "order") (num 1) (
          field (codes "slug") (str (codes "war"))
            (field (codes "title") (str (codes "The war")) end))))
      (field (codes "questions")
        (seq (
          cons
            (mapping (
              field (codes "id") (str (codes "q001"))
                (field (codes "text") (str (codes " Where? ")) end)))
            nil))
        end)

abbrev toy_yaml : Yaml
toy_yaml = record { safe_load = λ s. some (mapping document); safe_dump = λ m. []; repr = λ v. [] }

abbrev one_question : QuestionBank
one_question = record {
  questions =
      record {
        id = codes "q001";
        chapter_slug = codes "war";
        chapter_order = 1;
        chapter_title = codes "The war";
        text = codes "Where?";
        hint = none;
        follow_ups = [];
        custom = false;
        pinned = false;
        note = none;
      }
      ∷ [];
  chapters = record { order = 1; slug = codes "war"; title = codes "The war" } ∷ [];
}

loads_one : load_bank toy_yaml (some ([] ∷ [])) none ≡ ok one_question
unfolding load_bank load_chapter_files parse_chapter_file load_mapping chapter_from is_blank
    parse_questions parse_question question_from optional_text list_or_empty is_well_formed
    parse_question_id load_custom_questions check_bank first_duplicate sort_chapters insert_chapter
    get_field text_of int_of strip strip_left strip_right value_from list_beq
loads_one = refl

load_bank-IsSound_example : IsSound one_question
load_bank-IsSound_example = load_bank-IsSound toy_yaml (some ([] ∷ [])) none one_question loads_one

abbrev one_question_sound : IsSound one_question
one_question_sound = load_bank-IsSound toy_yaml (some ([] ∷ [])) none one_question loads_one

next_custom_id-fresh_example :
    (id : Text) × (next_custom_id one_question ≡ some id)
    × (by_id one_question id ≡ none)
    × (is_well_formed id ≡ true)
next_custom_id-fresh_example = next_custom_id-fresh one_question one_question_sound
