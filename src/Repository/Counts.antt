-- ===== src/Repository/Counts.antt =====
-- Each question is either answered or offered, and the counts of the pages agree with that.
use veillee.Base.{
  ◌+◌, ◌≡◌, refl, Bool, false, not, Option, none, some, List, [], ◌∷◌, ◌++◌, ◌&&◌, ◌||◌, length,
  filter, find, count_if, contains, ◌==◌, ==_iff, nat_eq, list_eq, arith, Distinct, contains-append,
  Bool-cases, inl, inr,
}
use veillee.Base.Text.{Text}
use veillee.Models.{Question, Answer, Recording, Chapter}
use veillee.Questions.{QuestionBank, in_chapter}
use veillee.Index.{Tables}
use veillee.Repository.{
  distinct, answered_ids, has_writing, answer_ids, recorded_ids, rows_of, is_answered, unanswered,
  summary_of, progress, continue_where_left_off, offer,
}

contains-distinct : (id : Text) (ids : List Text) → contains (distinct ids) id ≡ contains ids id
unfolding distinct
contains-distinct id [] = refl
contains-distinct id (x ∷ xs) = ground (arith, ==_iff x id, ==_iff id x, contains-distinct id xs)

-- Some answer row that passes, or some recording, has this id.
abbrev pub is_written_for : Text → List Answer → Bool
is_written_for id [] = false
is_written_for id (a ∷ rows) = (has_writing a && a.question_id == id) || is_written_for id rows

abbrev pub is_recorded_for : Text → List Recording → Bool
is_recorded_for id [] = false
is_recorded_for id (r ∷ rows) = r.question_id == id || is_recorded_for id rows

count-filter {ℓ} :
    {A : Type ℓ} (p : A → Bool) (xs : List A)
    → count_if p xs + length (filter (λ x. not (p x)) xs) ≡ length xs
count-filter p [] = omega arith
count-filter p (x ∷ xs) = ground (arith, count-filter p xs)

contains-written :
    (id : Text) (rows : List Answer)
    → contains (answer_ids has_writing rows) id ≡ is_written_for id rows
contains-written id [] = refl
contains-written id (a ∷ rows) =
    ground (arith, contains-written id rows, Bool-cases (has_writing a))

contains-recorded :
    (id : Text) (rows : List Recording) → contains (recorded_ids rows) id ≡ is_recorded_for id rows
contains-recorded id [] = refl
contains-recorded id (r ∷ rows) = ground (arith, contains-recorded id rows)

distinct-Distinct : (ids : List Text) → Distinct (distinct ids)
unfolding distinct
distinct-Distinct [] = tt
distinct-Distinct (x ∷ xs) = elim (Bool-cases (contains xs x)) [
  | inl h ↦ rw h (distinct-Distinct xs)
  | inr h ↦ rw h (rw (contains-distinct x xs, h) refl, distinct-Distinct xs)
]

-- The ids of `answered_ids` are those of the answers with writing and of the recordings, each once.
pub answered_ids-exact :
    (t : Tables)
    → ((id : Text)
        → contains (answered_ids t) id
          ≡ (is_written_for id (rows_of t.answers) || is_recorded_for id (rows_of t.recordings)))
      × Distinct (answered_ids t)
unfolding answered_ids
answered_ids-exact t =
    let written = answer_ids has_writing (rows_of t.answers) in
    let recorded = recorded_ids (rows_of t.recordings) in
    (
      λ id.
          rw
            (
              contains-distinct id (written ++ recorded),
              contains-append written recorded id,
              contains-written id (rows_of t.answers),
              contains-recorded id (rows_of t.recordings),
            )
            refl,
      distinct-Distinct (written ++ recorded),
    )

-- In each chapter of the browse page, and in the whole bank, the questions that are answered and
-- those that are not make up the total.
summary_of-total :
    (bank : QuestionBank) (t : Tables) (c : Chapter)
    → ((summary_of bank t c).answered
          + length (filter (λ q. not (is_answered t q)) (in_chapter bank c.slug))
        ≡ (summary_of bank t c).total)
      × (count_if (is_answered t) bank.questions + length (unanswered bank t)
          ≡ (progress bank t).total)
unfolding summary_of unanswered progress
summary_of-total bank t c = (
  count-filter (is_answered t) (in_chapter bank c.slug),
  count-filter (is_answered t) bank.questions,
)

offer-none :
    (pinned later recent : Option Question) (remaining : List Question)
    → (offer pinned later recent remaining).0 ≡ none
    → remaining ≡ []
offer-none (some q) later recent remaining h = absurd (cc h)
offer-none none (some q) recent remaining h = absurd (cc h)
offer-none none none (some q) remaining h = absurd (cc h)
offer-none none none none [] h = refl
offer-none none none none (q ∷ remaining) h = absurd (cc h)

-- The home page has a question to offer as long as one is not answered, and offers the first of the
-- pinned ones that are not answered where there is one.
continue_where_left_off-offers :
    (bank : QuestionBank) (t : Tables)
    → ((continue_where_left_off bank t).0 ≡ none → unanswered bank t ≡ [])
      × ((q : Question)
          → find (λ p. p.pinned && not (is_answered t p)) bank.questions ≡ some q
          → (continue_where_left_off bank t).0 ≡ some q)
unfolding continue_where_left_off
continue_where_left_off-offers bank t = (offer-none _ _ _ _, λ q h. rw h refl)
