-- ===== src/Questions/Unique.antt =====
-- What a loaded bank guarantees, and that the id of a new question is free.
use veillee.Base.{
  ◌≡◌, ◌≢◌, subst, refl, Bool, true, false, not, Option, none, some, List, [], ◌∷◌, ◌++◌, map,
  arith, all, inl, inr, Bool-cases, Option-cases, nat_eq, list_eq, ==_iff, contains, Distinct, ok,
  >>=-eq-ok, all-append,
}
use veillee.Base.Text.{Text, codes}
use veillee.Values.{Value, Yaml, get_or_null, mapping}
use veillee.Models.{Chapter, Question}
use veillee.Questions.{
  QuestionBank, is_well_formed, parse_question, parse_questions, parse_chapter_file,
  load_chapter_files, load_custom_questions, first_duplicate, check_bank, add_custom, load_mapping,
  chapter_from, list_or_empty, custom_chapter, load_bank, sort_chapters,
}

ids_of_unseen :
    (i : Text) (seen : List Text) (qs : List Question)
    → all (λ q. not (contains (i ∷ seen) q.id)) qs ≡ true
    → (contains (map (λ q. q.id) qs) i ≡ false) × (all (λ q. not (contains seen q.id)) qs ≡ true)
ids_of_unseen i seen [] h = (refl, refl)
ids_of_unseen i seen (q ∷ qs) h =
    ground (arith, ==_iff i q.id, ==_iff q.id i, ids_of_unseen i seen qs)

-- No question before has the id, and none after it.
first_duplicate-none :
    (seen : List Text) (qs : List Question)
    → first_duplicate seen qs ≡ none
    → Distinct (map (λ q. q.id) qs) × (all (λ q. not (contains seen q.id)) qs ≡ true)
unfolding first_duplicate
first_duplicate-none seen [] h = (tt, refl)
first_duplicate-none seen (q ∷ qs) h = elim (Bool-cases (contains seen q.id)) [
  | inl old ↦ absurd (cc (rw old at h))
  | inr new ↦
      let (d, unseen) = first_duplicate-none (q.id ∷ seen) qs (rw new at h) in
      let (fresh, rest) = ids_of_unseen q.id seen qs unseen in ((fresh, d), rw new rest)
]

abbrev pub well_formed : Question → Bool
well_formed q = is_well_formed q.id

parse_question-well_formed :
    (yaml : Yaml) (chapter : Chapter) (custom : Bool) (v : Value) (q : Question)
    → parse_question yaml chapter custom v ≡ ok q
    → well_formed q ≡ true
unfolding parse_question
parse_question-well_formed yaml chapter custom (mapping raw) q h = ground arith
parse_question-well_formed yaml chapter custom _ q h = cc

parse_questions-well_formed :
    (yaml : Yaml) (chapter : Chapter) (custom : Bool) (vs : List Value) (qs : List Question)
    → parse_questions yaml chapter custom vs ≡ ok qs
    → all well_formed qs ≡ true
unfolding parse_questions
parse_questions-well_formed yaml chapter custom [] qs h = ground arith
parse_questions-well_formed yaml chapter custom (v ∷ vs) qs h =
    let (q, parsed, h₁) = >>=-eq-ok (parse_question yaml chapter custom v) _ h in
    let (rest, more, h₂) = >>=-eq-ok (parse_questions yaml chapter custom vs) _ h₁ in
    ground (
      arith,
      parse_question-well_formed yaml chapter custom v q parsed,
      parse_questions-well_formed yaml chapter custom vs rest more,
    )

parse_chapter_file-well_formed :
    (yaml : Yaml) (text : Text) (result : Chapter × List Question)
    → parse_chapter_file yaml text ≡ ok result
    → all well_formed result.1 ≡ true
unfolding parse_chapter_file
parse_chapter_file-well_formed yaml text result h =
    let (document, _, h₁) = >>=-eq-ok (load_mapping yaml text) _ h in
    let (chapter, _, h₂) =
      >>=-eq-ok (chapter_from yaml (get_or_null (codes "chapter") document)) _ h₁ in
    let (raw, _, h₃) = >>=-eq-ok (list_or_empty (get_or_null (codes "questions") document)) _ h₂ in
    let (parsed, e, h₄) = >>=-eq-ok (parse_questions yaml chapter false raw) _ h₃ in
    ground (arith, parse_questions-well_formed yaml chapter false raw parsed e)

load_custom_questions-well_formed :
    (yaml : Yaml) (file : Option Text) (qs : List Question)
    → load_custom_questions yaml file ≡ ok qs
    → all well_formed qs ≡ true
unfolding load_custom_questions
load_custom_questions-well_formed yaml none qs h = ground arith
load_custom_questions-well_formed yaml (some text) qs h =
    let (document, _, h₁) = >>=-eq-ok (load_mapping yaml text) _ h in
    let (raw, _, h₂) = >>=-eq-ok (list_or_empty (get_or_null (codes "questions") document)) _ h₁ in
    parse_questions-well_formed yaml custom_chapter true raw qs h₂

load_chapter_files-well_formed :
    (yaml : Yaml) (files : List Text) (result : List Chapter × List Question)
    → load_chapter_files yaml files ≡ ok result
    → all well_formed result.1 ≡ true
unfolding load_chapter_files
load_chapter_files-well_formed yaml [] result h = ground arith
load_chapter_files-well_formed yaml (file ∷ files) result h =
    let (first, e, h₁) = >>=-eq-ok (parse_chapter_file yaml file) _ h in
    let (others, e', h₂) = >>=-eq-ok (load_chapter_files yaml files) _ h₁ in
    ground (
      arith,
      all-append well_formed first.1 others.1,
      parse_chapter_file-well_formed yaml file first e,
      load_chapter_files-well_formed yaml files others e',
    )

-- What every loaded bank guarantees: it has a question, ids are distinct and well formed.
pub record IsSound (bank : QuestionBank) : Type 0 where
  pub some_question : bank.questions ≢ []
  pub distinct : Distinct (map (λ q. q.id) bank.questions)
  pub well_formed_ids : all well_formed bank.questions ≡ true

check_bank-IsSound :
    (chapters : List Chapter) (qs : List Question) (bank : QuestionBank)
    → all well_formed qs ≡ true
    → check_bank chapters qs ≡ ok bank
    → IsSound bank
unfolding check_bank
check_bank-IsSound chapters [] bank w h = cc
check_bank-IsSound chapters (q ∷ qs) bank w h = elim (Option-cases (first_duplicate [] (q ∷ qs))) [
  | inr (id, e) ↦ absurd (cc (rw (e, check_bank) at h))
  | inl e ↦
      let same : record { questions = q ∷ qs; chapters = sort_chapters chapters } ≡ bank =
        cc (rw (e, check_bank) at h) in
      subst IsSound same (record {
        some_question = cc;
        distinct = (first_duplicate-none [] (q ∷ qs) e).0;
        well_formed_ids = w;
      })
]

-- A bank that loads, from whatever files, has at least one question, and the ids of its questions
-- are distinct and well formed.
pub load_bank-IsSound :
    (yaml : Yaml) (files : Option (List Text)) (custom_file : Option Text) (bank : QuestionBank)
    → load_bank yaml files custom_file ≡ ok bank
    → IsSound bank
unfolding load_bank
load_bank-IsSound yaml none custom_file bank h = cc
load_bank-IsSound yaml (some files) custom_file bank h =
    let (loaded, e, h₁) = >>=-eq-ok (load_chapter_files yaml files) _ h in
    let (custom, e', h₂) = >>=-eq-ok (load_custom_questions yaml custom_file) _ h₁ in
    check_bank-IsSound (add_custom loaded.0 custom) (loaded.1 ++ custom) bank
      (rw (
        all-append well_formed loaded.1 custom,
        load_chapter_files-well_formed yaml files loaded e,
        load_custom_questions-well_formed yaml custom_file custom e',
      ))
      h₂
