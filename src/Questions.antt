-- ===== src/Questions.antt =====
-- questions.py: the question bank. A file is its text; the files of the bank's directory come in the
-- sorted order of their names. The messages of an error are not modelled, only which it is.
pub mod Unique
pub mod Fresh
mod Tests
use veillee.Base.{
  ℕ, ◌+◌, ◌≤◌, Bool, true, false, not, Option, none, some, List, [], ◌∷◌, ◌++◌, map, ◌&&◌, ◌||◌,
  max, if◌then◌else◌, leb, filter, find, ◌==◌, nat_eq, list_eq, contains, Outcome, ok, err, ◌>>=◌,
  ◌>>◌, require,
}
use veillee.Base.Text.{Text, codes, strip, is_space, starts_with}
use veillee.Base.Decimal.{pad}
use veillee.Values.{
  Value, null, flag, str, seq, mapping, Fields, end, field, get_or_null, get_field, truthy, text_of,
  int_of, to_list, of_list, Yaml,
}
use veillee.Models.{
  Chapter, Question, custom_chapter_order, custom_chapter_slug, custom_chapter_title,
}
use veillee.Paths.{parse_question_id}

pub data BankError : Type 0 where
  not_yaml not_a_mapping no_chapter missing_key not_a_list malformed_id bad_order : BankError
  no_directory no_questions : BankError
  duplicate_id : Text → BankError

pub record QuestionBank : Type 0 where
  pub questions : List Question
  pub chapters : List Chapter

unfoldable pub by_id : QuestionBank → Text → Option Question
by_id bank question_id = find (λ q. q.id == question_id) bank.questions

unfoldable pub in_chapter : QuestionBank → Text → List Question
in_chapter bank chapter_slug = filter (λ q. q.chapter_slug == chapter_slug) bank.questions

unfoldable pub chapter_by_slug : QuestionBank → Text → Option Chapter
chapter_by_slug bank slug = find (λ c. c.slug == slug) bank.chapters

-- One turn of `[parse_question_id(q.id)[1] for q in questions if q.id.startswith("c")]`.
abbrev pub use_number : Bool → Option (ℕ × ℕ) → List ℕ → Option (List ℕ)
use_number false parsed used = some used
use_number true none used = none
use_number true (some (_, n)) used = some (n ∷ used)

-- The whole of it; `none` is the ValueError.
unfoldable pub used_numbers : List Question → Option (List ℕ)
used_numbers [] = some []
used_numbers (q ∷ qs) = elim (used_numbers qs) [
  | none ↦ none
  | some used ↦ use_number (starts_with q.id (codes "c")) (parse_question_id q.id) used
]

abbrev pub max_of : List ℕ → ℕ
max_of [] = 0
max_of (n ∷ ns) = max n (max_of ns)

abbrev pub next_number : List ℕ → ℕ
next_number [] = 1
next_number (n ∷ ns) = max_of (n ∷ ns) + 1

unfoldable pub next_custom_id : QuestionBank → Option Text
next_custom_id bank = elim (used_numbers bank.questions) [
  | none ↦ none
  | some used ↦ some (b'c' ∷ pad 3 (next_number used))
]

-- `str(raw[key]).strip() if raw.get(key) else None`
optional_text : Yaml → Text → Fields → Option Text
optional_text yaml key raw =
    let v = get_or_null key raw in
    if truthy v then some (strip is_space (text_of yaml.repr v)) else none

-- `raw.get("follow_ups") or []`, which has to be a list
pub list_or_empty : Value → Outcome BankError (List Value)
list_or_empty (seq vs) = ok (to_list vs)
list_or_empty v = if truthy v then err not_a_list else ok []

question_from : Yaml → Fields → Chapter → Bool → List Value → Question
unfolding optional_text
question_from yaml raw chapter custom follow_ups =
    let text = λ (k : Text). text_of yaml.repr (get_or_null k raw) in
    record {
      id = text (codes "id");
      chapter_slug = chapter.slug;
      chapter_order = chapter.order;
      chapter_title = chapter.title;
      text = strip is_space (text (codes "text"));
      hint = optional_text yaml (codes "hint") raw;
      follow_ups = map (λ v. strip is_space (text_of yaml.repr v)) follow_ups;
      custom = custom;
      pinned = truthy (get_or_null (codes "pinned") raw);
      note = optional_text yaml (codes "note") raw;
    }

pub is_well_formed : Text → Bool
is_well_formed id = elim (parse_question_id id) [ none ↦ false | some _ ↦ true ]

pub parse_question : Yaml → Chapter → Bool → Value → Outcome BankError Question
unfolding list_or_empty question_from is_well_formed
parse_question yaml chapter custom (mapping raw) = do
  require (truthy (get_or_null (codes "id") raw)) missing_key
  require (truthy (get_or_null (codes "text") raw)) missing_key
  require (is_well_formed (text_of yaml.repr (get_or_null (codes "id") raw))) malformed_id
  follow_ups ← list_or_empty (get_or_null (codes "follow_ups") raw)
  ok (question_from yaml raw chapter custom follow_ups)
parse_question yaml chapter custom _ = err not_a_mapping

pub parse_questions : Yaml → Chapter → Bool → List Value → Outcome BankError (List Question)
parse_questions yaml chapter custom [] = ok []
parse_questions yaml chapter custom (v ∷ vs) = do
  q ← parse_question yaml chapter custom v
  qs ← parse_questions yaml chapter custom vs
  ok (q ∷ qs)

-- `yaml.safe_load(text) or {}`, which has to be a mapping
pub load_mapping : Yaml → Text → Outcome BankError Fields
load_mapping yaml text = elim (yaml.safe_load text) [
  | none ↦ err not_yaml
  | some (mapping fs) ↦ ok fs
  | some v ↦ if truthy v then err not_a_mapping else ok end
]

-- `value in (None, "")`
is_blank : Value → Bool
is_blank null = true
is_blank (str []) = true
is_blank _ = false

pub chapter_from : Yaml → Value → Outcome BankError Chapter
unfolding is_blank
chapter_from yaml (mapping raw) = do
  require (not (is_blank (get_or_null (codes "order") raw))) missing_key
  require (not (is_blank (get_or_null (codes "slug") raw))) missing_key
  require (not (is_blank (get_or_null (codes "title") raw))) missing_key
  order ← elim (int_of (get_or_null (codes "order") raw)) [ none ↦ err bad_order | some n ↦ ok n ]
  ok (record {
    order = order;
    slug = text_of yaml.repr (get_or_null (codes "slug") raw);
    title = text_of yaml.repr (get_or_null (codes "title") raw);
  })
chapter_from yaml _ = err no_chapter

pub parse_chapter_file : Yaml → Text → Outcome BankError (Chapter × List Question)
parse_chapter_file yaml text = do
  document ← load_mapping yaml text
  chapter ← chapter_from yaml (get_or_null (codes "chapter") document)
  raw_questions ← list_or_empty (get_or_null (codes "questions") document)
  questions ← parse_questions yaml chapter false raw_questions
  ok (chapter, questions)

abbrev pub custom_chapter : Chapter
custom_chapter = record {
  order = custom_chapter_order;
  slug = custom_chapter_slug;
  title = custom_chapter_title;
}

-- `none` is a file that does not exist.
pub load_custom_questions : Yaml → Option Text → Outcome BankError (List Question)
load_custom_questions yaml none = ok []
load_custom_questions yaml (some text) = do
  document ← load_mapping yaml text
  raw_questions ← list_or_empty (get_or_null (codes "questions") document)
  parse_questions yaml custom_chapter true raw_questions

-- The entry that `append_custom_question` adds.
custom_entry : Text → Text → Bool → Text → Value
custom_entry question_id text pinned note = mapping (
    field (codes "id") (str question_id) (
      field (codes "text") (str text) (
        let noted = if note == [] then end else field (codes "note") (str note) end in
        if pinned then field (codes "pinned") (flag true) noted else noted)))

abbrev custom_header : Text
custom_header = codes "# Questions he added himself. Part of the archive; safe to edit by hand."

-- The text that replaces the archive file of his own questions.
pub append_custom_question : Yaml → Option Text → Text → Text → Bool → Text → Outcome BankError Text
unfolding load_mapping list_or_empty custom_entry
append_custom_question yaml existing question_id text pinned note = do
  values ← elim existing [
    | none ↦ ok []
    | some old ↦ do
      document ← load_mapping yaml old
      list_or_empty (get_or_null (codes "questions") document)
  ]
  ok (
      custom_header
      ++ (10
          ∷ yaml.safe_dump (
              field (codes "questions")
                (seq (of_list (values ++ (custom_entry question_id text pinned note ∷ [])))) end)))

pub load_chapter_files : Yaml → List Text → Outcome BankError (List Chapter × List Question)
load_chapter_files yaml [] = ok ([], [])
load_chapter_files yaml (file ∷ files) = do
  (chapter, questions) ← parse_chapter_file yaml file
  (chapters, rest) ← load_chapter_files yaml files
  ok (chapter ∷ chapters, questions ++ rest)

-- The loop over `seen`: the first id that stands twice.
pub first_duplicate : List Text → List Question → Option Text
first_duplicate seen [] = none
first_duplicate seen (q ∷ qs) =
    let rest = first_duplicate (q.id ∷ seen) qs in if contains seen q.id then some q.id else rest

insert_chapter : Chapter → List Chapter → List Chapter
insert_chapter c [] = c ∷ []
insert_chapter c (d ∷ ds) = if leb c.order d.order then c ∷ d ∷ ds else d ∷ insert_chapter c ds

-- sorted(chapters, key=order), which is stable
pub sort_chapters : List Chapter → List Chapter
unfolding insert_chapter
sort_chapters [] = []
sort_chapters (c ∷ cs) = insert_chapter c (sort_chapters cs)

pub check_bank : List Chapter → List Question → Outcome BankError QuestionBank
check_bank chapters [] = err no_questions
check_bank chapters (q ∷ qs) = elim (first_duplicate [] (q ∷ qs)) [
  | some id ↦ err (duplicate_id id)
  | none ↦ ok (record { questions = q ∷ qs; chapters = sort_chapters chapters })
]

abbrev pub add_custom : List Chapter → List Question → List Chapter
add_custom chapters [] = chapters
add_custom chapters (q ∷ qs) = chapters ++ (custom_chapter ∷ [])

-- `none` for the directory means that there is none.
pub load_bank : Yaml → Option (List Text) → Option Text → Outcome BankError QuestionBank
load_bank yaml none custom_file = err no_directory
load_bank yaml (some files) custom_file = do
  (chapters, questions) ← load_chapter_files yaml files
  custom ← load_custom_questions yaml custom_file
  check_bank (add_custom chapters custom) (questions ++ custom)
