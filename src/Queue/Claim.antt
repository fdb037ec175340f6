-- ===== src/Queue/Claim.antt =====
-- Which job `claim_next` takes, and what it leaves alone.
use veillee.Base.{
  ℕ, ◌≡◌, ◌≢◌, ◌↔◌, ==_refl, ◌∙◌, ap, refl, Bool, true, false, ◌&&◌, not, Option, none, some, inl,
  inr, List, [], ◌∷◌, arith, nat_eq, ==_iff, Distinct, all, all-weaken, find, if◌then◌else◌,
  Option-cases,
}
use veillee.Queue.{
  QueueRow, QueueTable, QueueJob, is_due, earlier, select_due, pick, has_id, set_running, claim_row,
  claim_next,
}
use veillee.Queue.Rows.{
  ids, select_due-all, select_due-is_due, find-select_due, find-update_id, map-update_where,
}

-- No due row comes before `r`.
abbrev pub is_first_due : ℕ → QueueRow → List QueueRow → Bool
is_first_due now r rows = all (λ s. not (is_due now s && earlier s r)) rows

is_first_due-pick :
    (now : ℕ) (r best : QueueRow) (rows : List QueueRow)
    → earlier best r ≡ false
    → is_first_due now best rows ≡ true
    → is_first_due now r rows ≡ true
unfolding earlier
is_first_due-pick now r best rows h = all-weaken _ _ rows (λ x k. ground arith)

-- What `select_due` answers is the first due row, or there is no due row.
abbrev pub is_selection : ℕ → Option QueueRow → List QueueRow → Bool
is_selection now none rows = all (λ s. not (is_due now s)) rows
is_selection now (some r) rows = is_first_due now r rows

earlier_irrefl : (r : QueueRow) → earlier r r ≡ false
unfolding earlier
earlier_irrefl r = ground arith

earlier_asym : (a b : QueueRow) → earlier a b ≡ true → earlier b a ≡ false
unfolding earlier
earlier_asym a b h = ground arith

none_due-first :
    (now : ℕ) (r : QueueRow) (rows : List QueueRow)
    → all (λ s. not (is_due now s)) rows ≡ true
    → is_first_due now r rows ≡ true
none_due-first now r rows = all-weaken _ _ rows (λ x k. ground arith)

is_selection-step :
    (now : ℕ) (r : QueueRow) (rows : List QueueRow) (o : Option QueueRow)
    → is_selection now o rows ≡ true
    → is_selection now (if is_due now r then some (pick r o) else o) (r ∷ rows) ≡ true
unfolding pick
is_selection-step now r rows none h = ground (arith, earlier_irrefl r, none_due-first now r rows)
is_selection-step now r rows (some b) h =
    ground (arith, earlier_irrefl r, earlier_asym b r, is_first_due-pick now r b rows)

pub select_due-is_selection :
    (now : ℕ) (rows : List QueueRow) → is_selection now (select_due now rows) rows ≡ true
unfolding select_due
select_due-is_selection now [] = refl
select_due-is_selection now (r ∷ rows) =
    is_selection-step now r rows (select_due now rows) (select_due-is_selection now rows)

claim_row-id :
    (now : ℕ) (t : QueueTable) (r : QueueRow) (job : QueueJob)
    → (claim_row now t (some r)).1 ≡ some job
    → r.id ≡ job.id
unfolding claim_row
claim_row-id now t r job e = ground arith

-- The claimed job is the first due row: it was pending and due, none due comes before it in the
-- order of `next_attempt_at` and then `id`, it is running afterwards, and no other row changed.
pub claim_next-takes_first :
    (now : ℕ) (t : QueueTable) (job : QueueJob)
    → Distinct (ids t.rows)
    → (claim_next now t).1 ≡ some job
    → (r : QueueRow) × (find (has_id job.id) t.rows ≡ some r)
      × (is_due now r ≡ true)
      × (is_first_due now r t.rows ≡ true)
      × (find (has_id job.id) (claim_next now t).0.rows ≡ some (set_running now r))
      × ((j : ℕ) → j ≢ job.id → find (has_id j) (claim_next now t).0.rows ≡ find (has_id j) t.rows)
unfolding claim_next
claim_next-takes_first now t job d e = elim (Option-cases (select_due now t.rows)) [
  | inl h ↦ absurd (cc (h, e))
  | inr (r, h) ↦
      let same : r.id ≡ job.id = claim_row-id now t r job (rw h at e) in
      (
        r,
        rw (← same) (find-select_due now t.rows r d h),
        (rw h at (select_due-is_due now t.rows)),
        (rw h at (select_due-is_selection now t.rows)),
        rw (h, claim_row, ← same)
            (find-update_id r.id r.id (set_running now) t.rows (λ q. refl)
              ∙ rw (==_refl r.id, find-select_due now t.rows r d h)),
        λ j other.
            rw (h, claim_row)
              (find-update_id r.id j (set_running now) t.rows (λ q. refl)
                ∙ ground (arith, ==_iff r.id j)),
      )
]

claim_row-some :
    (now : ℕ) (t : QueueTable) (r : QueueRow) {A : Type 0} → (claim_row now t (some r)).1 ≡ none → A
unfolding claim_row
claim_row-some now t r e = absurd (cc)

due_not_due : {b : Bool} → not b ≡ true → b ≡ true → ⊥
due_not_due {b} h k = ground arith

-- Nothing is claimed exactly when no row is due.
claim_next-idle :
    (now : ℕ) (t : QueueTable)
    → ((claim_next now t).1 ≡ none) ↔ (all (λ r. not (is_due now r)) t.rows ≡ true)
unfolding claim_next
claim_next-idle now t = elim (Option-cases (select_due now t.rows)) [
  | inl h ↦ (λ _. rw h at (select_due-is_selection now t.rows), λ _. rw (h, claim_row))
  | inr (r, h) ↦ (
    λ n. claim_row-some now t r (rw h at n),
    λ a. absurd (
        due_not_due (rw h at (select_due-all (λ s. not (is_due now s)) now t.rows a))
          (rw h at (select_due-is_due now t.rows))),
  )
]

claim_next-ids : (now : ℕ) (t : QueueTable) → ids (claim_next now t).0.rows ≡ ids t.rows
unfolding claim_next
claim_next-ids now t = elim (Option-cases (select_due now t.rows)) [
  | inl h ↦ rw (h, claim_row)
  | inr (r, h) ↦
      rw (h, claim_row)
        (map-update_where (has_id r.id) (set_running now) (λ q. q.id) t.rows (λ q. refl))
]

running-not_due : (now later : ℕ) (r : QueueRow) → is_due later (set_running now r) ≡ false
unfolding is_due
running-not_due now later r = refl

-- Two claims in a row, with no other operation between them, never take the same job.
pub claim_next-exclusive :
    (now later : ℕ) (t : QueueTable) (first second : QueueJob)
    → Distinct (ids t.rows)
    → (claim_next now t).1 ≡ some first
    → (claim_next later (claim_next now t).0).1 ≡ some second
    → first.id ≢ second.id
claim_next-exclusive now later t first second d e e' same =
    let (r, _, _, _, taken, _) = claim_next-takes_first now t first d e in
    let (r', found, due, _, _, _) =
      claim_next-takes_first later (claim_next now t).0 second (rw (claim_next-ids now t) d) e' in
    ground (
      arith,
      running-not_due now later r,
      ap (λ i. find (has_id i) (claim_next now t).0.rows) same,
      taken,
      found,
      due,
    )
