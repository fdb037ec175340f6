-- ===== src/Queue/Load.antt =====
-- The attempts that the waiting jobs have left, and what a worker's operations do to their number.
use veillee.Base.{
  Option, ℕ, ◌+◌, ◌-◌, ◌≤◌, ◌≡◌, ◌∙◌, refl, true, none, some, List, [], ◌∷◌, arith, nat_eq, list_eq,
  ==_refl, inl, inr, Option-cases, Distinct, find,
}
use veillee.Base.Text.{Text}
use veillee.Queue.{
  JobState, QueueRow, QueueTable, QueueJob, claim_next, claim_row, select_due, complete, fail,
  update_where, has_id, set_running, set_done, set_failed, state_after_failure, backoff_delay,
  is_due,
}
use veillee.Queue.Rows.{
  ids, find-select_due, find-update_id, update_where-absent, select_due-is_due,
}
use veillee.Queue.Invariant.{IsValid}

-- The attempts that a waiting job has left, and those of all rows.
unfoldable pub attempts_left : ℕ → QueueRow → ℕ
attempts_left limit r = elim r.state [ JobState.pending ↦ limit - r.attempts | _ ↦ 0 ]

unfoldable pub load : ℕ → List QueueRow → ℕ
unfolding attempts_left
load limit [] = 0
load limit (r ∷ rows) = attempts_left limit r + load limit rows

load-update_id :
    (limit i : ℕ) (f : QueueRow → QueueRow) (rows : List QueueRow) (r : QueueRow)
    → Distinct (ids rows)
    → find (has_id i) rows ≡ some r
    → load limit (update_where (has_id i) f rows) + attempts_left limit r
      ≡ load limit rows + attempts_left limit (f r)
unfolding update_where load
load-update_id limit i f [] r d e = cc e
load-update_id limit i f (s ∷ rows) r (h, d) e =
    ground (arith, load-update_id limit i f rows r d, update_where-absent s.id f rows h)

set_failed-attempts_left :
    (limit attempts next : ℕ) (error : Text) (now : ℕ) (r : QueueRow)
    → attempts_left limit
        (set_failed (state_after_failure attempts limit) attempts next error now r)
      ≤ limit - attempts
unfolding attempts_left state_after_failure
set_failed-attempts_left limit attempts next error now r = ground arith

module _ (limit now : ℕ) (t : QueueTable) (job : QueueJob) (r : QueueRow) where
  -- A job that is not waiting when it ends leaves the load as it was.
  pub complete-load :
      Distinct (ids t.rows)
      → find (has_id job.id) t.rows ≡ some r
      → load limit (complete now job.id t).rows ≤ load limit t.rows
  unfolding complete attempts_left
  complete-load d e = omega (arith, load-update_id limit job.id (set_done now) t.rows r d e)

  -- A failure adds the attempts that the job then has left.
  pub fail-load :
      (error : Text)
      → Distinct (ids t.rows)
      → find (has_id job.id) t.rows ≡ some r
      → load limit (fail now job error limit t).0.rows
        ≤ load limit t.rows + (limit - (job.attempts + 1))
  unfolding fail
  fail-load error d e =
      let f : QueueRow → QueueRow =
        set_failed (state_after_failure (job.attempts + 1) limit) (job.attempts + 1)
          (now + backoff_delay (job.attempts + 1)) error now in
      omega (
        arith,
        load-update_id limit job.id f t.rows r d e,
        set_failed-attempts_left limit (job.attempts + 1) (now + backoff_delay (job.attempts + 1))
            error now r,
      )

running-attempts_left : (limit now : ℕ) (r : QueueRow) → attempts_left limit (set_running now r) ≡ 0
unfolding attempts_left
running-attempts_left limit now r = refl

due-attempts_left :
    (limit now : ℕ) (r : QueueRow)
    → is_due now r ≡ true
    → attempts_left limit r ≡ limit - r.attempts
unfolding is_due attempts_left
due-attempts_left limit now r due = ground arith

claim_row-same :
    (now : ℕ) (t : QueueTable) (r : QueueRow) (job : QueueJob)
    → (claim_row now t (some r)).1 ≡ some job
    → (r.id ≡ job.id) × (r.attempts ≡ job.attempts)
unfolding claim_row
claim_row-same now t r job e = ground arith

claim_row-load :
    (limit now : ℕ) (t : QueueTable) (r : QueueRow)
    → Distinct (ids t.rows)
    → find (has_id r.id) t.rows ≡ some r
    → is_due now r ≡ true
    → (find (has_id r.id) (claim_row now t (some r)).0.rows ≡ some (set_running now r))
      × (load limit (claim_row now t (some r)).0.rows + (limit - r.attempts) ≡ load limit t.rows)
unfolding claim_row
claim_row-load limit now t r d found due = (
  find-update_id r.id r.id (set_running now) t.rows (λ q. refl) ∙ rw (==_refl r.id, found),
  omega (
    arith,
    load-update_id limit r.id (set_running now) t.rows r d found,
    due-attempts_left limit now r due,
    running-attempts_left limit now r,
  ),
)

-- A claim takes the attempts that its job has left from the load, and none when nothing is due.
pub claim_next-load :
    (limit now : ℕ) (t : QueueTable) (job : QueueJob)
    → IsValid limit t
    → (claim_next now t).1 ≡ some job
    → (r : QueueRow) × (find (has_id job.id) (claim_next now t).0.rows ≡ some (set_running now r))
      × (load limit (claim_next now t).0.rows + (limit - job.attempts) ≡ load limit t.rows)
unfolding claim_next
claim_next-load limit now t job v e = elim (Option-cases (select_due now t.rows)) [
  | inl h ↦ absurd (cc (h, e))
  | inr (r, h) ↦
      let (same, tries) = claim_row-same now t r job (rw h at e) in
      let (taken, less) =
        claim_row-load limit now t r v.ids (find-select_due now t.rows r v.ids h)
          (rw h at (select_due-is_due now t.rows)) in
      (r, rw (h, ← same) taken, rw (h, ← tries) less)
]

claim_row-none :
    (now : ℕ) (t : QueueTable) (o : Option QueueRow)
    → (claim_row now t o).1 ≡ none
    → (claim_row now t o).0 ≡ t
unfolding claim_row
claim_row-none now t none e = refl
claim_row-none now t (some r) e = absurd (cc e)

pub claim_next-none :
    (now : ℕ) (t : QueueTable) → (claim_next now t).1 ≡ none → (claim_next now t).0 ≡ t
unfolding claim_next
claim_next-none now t e = claim_row-none now t (select_due now t.rows) e
