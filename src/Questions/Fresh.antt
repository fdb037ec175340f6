-- ===== src/Questions/Fresh.antt =====
-- The id that a question of his own is given.
use veillee.Base.{
  ℕ, ◌<◌, ◌≡◌, ◌≢◌, refl, Bool, true, false, Option, none, some, List, [], ◌∷◌, arith, all, find,
  inl, inr, Option-cases, ◌==◌, nat_eq, list_eq, beq_of_ne,
}
use veillee.Base.Text.{Text, codes, starts_with}
use veillee.Base.Decimal.{pad}
use veillee.Models.{Question}
use veillee.Paths.{parse_question_id}
use veillee.Paths.Ids.{parse_question_id-pad}
use veillee.Questions.{
  QuestionBank, by_id, used_numbers, use_number, max_of, next_number, next_custom_id,
  is_well_formed,
}
use veillee.Questions.Unique.{well_formed, IsSound}

abbrev custom_id : ℕ → Text
custom_id n = b'c' ∷ pad 3 n

custom_id-starts : (n : ℕ) → starts_with (custom_id n) (codes "c") ≡ true
unfolding starts_with
custom_id-starts n = refl

custom_id-parses : (n : ℕ) → parse_question_id (custom_id n) ≡ some (b'c', n)
custom_id-parses n = parse_question_id-pad b'c' n refl

used_numbers-some :
    (qs : List Question)
    → all well_formed qs ≡ true
    → (used : List ℕ) × (used_numbers qs ≡ some used)
unfolding used_numbers is_well_formed
used_numbers-some [] h = ([], refl)
used_numbers-some (q ∷ qs) h =
    let (used, e) = used_numbers-some qs (ground arith) in
    let (r, e') =
      use_number-some (starts_with q.id (codes "c")) (parse_question_id q.id) used (ground arith) in
    (r, rw e e')
  where
    use_number-some :
        (b : Bool) (parsed : Option (ℕ × ℕ)) (used : List ℕ)
        → parsed ≢ none
        → (r : List ℕ) × (use_number b parsed used ≡ some r)
    use_number-some false parsed used h = (used, refl)
    use_number-some true none used h = absurd (h refl)
    use_number-some true (some (_, n)) used h = (n ∷ used, refl)

-- The numbers that are used stay used, and a custom question's own is among them.
use_number-bounds :
    (b : Bool) (parsed : Option (ℕ × ℕ)) (old used : List ℕ) (n : ℕ)
    → use_number b parsed old ≡ some used
    → max_of used < n
    → (max_of old < n) × (b ≡ true → parsed ≢ some (b'c', n))
use_number-bounds false parsed old used n e h = (ground arith, λ p. cc)
use_number-bounds true none old used n e h = (ground arith, λ p. cc)
use_number-bounds true (some (_, k)) old used n e h = (ground arith, λ _ p. ground arith)

absent_above :
    (qs : List Question) (used : List ℕ) (n : ℕ)
    → used_numbers qs ≡ some used
    → max_of used < n
    → find (λ q. q.id == custom_id n) qs ≡ none
unfolding used_numbers
absent_above [] used n e h = refl
absent_above (q ∷ qs) used n e h = elim (Option-cases (used_numbers qs)) [
  | inl e' ↦ absurd (cc (rw (e', used_numbers) at e))
  | inr (rest, e') ↦
      let (lower, other) =
        use_number-bounds (starts_with q.id (codes "c")) (parse_question_id q.id) rest used n
          (rw (e', used_numbers) at e) h in
      rw (absent_above qs rest n e' lower, other_id q.id n other)
]
  where
    other_id :
        (id : Text) (n : ℕ)
        → (starts_with id (codes "c") ≡ true → parse_question_id id ≢ some (b'c', n))
        → (id == custom_id n) ≡ false
    other_id id n other =
        beq_of_ne id (custom_id n)
          λ same. other (rw same (custom_id-starts n)) (rw same (custom_id-parses n))

next_number-above : (used : List ℕ) → max_of used < next_number used
next_number-above [] = omega arith
next_number-above (n ∷ ns) = omega arith

-- In every sound bank the id of a new question of his is defined, is well formed, and belongs to no
-- question yet.
pub next_custom_id-fresh :
    (bank : QuestionBank)
    → IsSound bank
    → (id : Text) × (next_custom_id bank ≡ some id)
      × (by_id bank id ≡ none)
      × (is_well_formed id ≡ true)
unfolding next_custom_id by_id is_well_formed
next_custom_id-fresh bank sound =
    let (used, e) = used_numbers-some bank.questions sound.well_formed_ids in
    (
      custom_id (next_number used),
      rw (e, next_custom_id),
      absent_above bank.questions used (next_number used) e (next_number-above used),
      rw (custom_id-parses (next_number used), is_well_formed),
    )
