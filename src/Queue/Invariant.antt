-- ===== src/Queue/Invariant.antt =====
-- The queue as a system of steps: the operations of queue.py in any order, and the jobs that
-- workers have claimed and not yet finished. A worker may be killed at any moment.
use mathlib.Core.List.{map-append}
use veillee.Base.{
  ℕ, ◌+◌, ◌<◌, ◌≡◌, refl, Bool, true, false, some, List, [], ◌∷◌, map, arith, nat_eq, list_eq,
  Distinct, Distinct-append_one, all, all-append, ltb, leb, Bool-cases, inl, inr, lt→ltb,
  option_all, Option-cases,
}
use veillee.Base.Text.{Text}
use veillee.Queue.{
  JobState, QueueRow, QueueTable, QueueJob, has_job, append_job, enqueue, enqueue_done, requeue,
  recover_stale, claim_next, claim_row, select_due, complete, fail, update_where, is_due, has_id,
  set_running,
}
use veillee.Queue.Rows.{
  map-update_where, all-update_where, any-is_for, contains-ids, select_due-all, select_due-is_due,
  find-select_due, all-update_id,
}

-- A job that waits or runs has an attempt left; no job has made more than the limit.
abbrev pub in_budget : ℕ → QueueRow → Bool
in_budget limit r = elim r.state [
  | JobState.pending ↦ ltb r.attempts limit
  | JobState.running ↦ ltb r.attempts limit
  | _ ↦ leb r.attempts limit
]

pub record IsValid (limit : ℕ) (t : QueueTable) : Type 0 where
  pub ids : Distinct (map (λ r. r.id) t.rows)
  pub below : all (λ r. ltb r.id t.next_id) t.rows ≡ true
  pub recordings : Distinct (map (λ r. r.recording_id) t.rows)
  pub budget : all (in_budget limit) t.rows ≡ true

below_suc :
    (n : ℕ) (rows : List QueueRow)
    → all (λ r. ltb r.id n) rows ≡ true
    → all (λ r. ltb r.id (n + 1)) rows ≡ true
below_suc n [] h = refl
below_suc n (r ∷ rows) h = ground (arith, below_suc n rows)

module _ (limit : ℕ) (room : 0 < limit) where
  pub append_job-IsValid :
      (state : JobState) (now : ℕ) (rid : Text) (t : QueueTable)
      → has_job rid t ≡ false
      → IsValid limit t
      → IsValid limit (append_job state now rid t)
  unfolding append_job has_job
  append_job-IsValid state now rid t absent v = record {
    ids =
        rw map-append
          (Distinct-append_one _ t.next_id (contains-ids t.next_id t.rows v.below) v.ids);
    below = rw all-append (rw (below_suc t.next_id t.rows v.below) (ground arith));
    recordings = rw map-append (Distinct-append_one _ rid (rw any-is_for at absent) v.recordings);
    budget = rw all-append (rw v.budget (ground arith));
  }

  -- An update that keeps the keys and the budget keeps the table valid.
  pub update_where-IsValid :
      (p : QueueRow → Bool) (f : QueueRow → QueueRow) (t : QueueTable)
      → ((r : QueueRow) → (f r).id ≡ r.id)
      → ((r : QueueRow) → (f r).recording_id ≡ r.recording_id)
      → ((r : QueueRow) → p r ≡ true → in_budget limit r ≡ true → in_budget limit (f r) ≡ true)
      → IsValid limit t
      → IsValid limit (record t { rows = update_where p f t.rows })
  update_where-IsValid p f t same_id same_recording within v = record {
    ids = rw (map-update_where p f (λ r. r.id) t.rows same_id) v.ids;
    below =
        all-update_where p f (λ r. ltb r.id t.next_id) t.rows (λ r _ h. rw (same_id r) h) v.below;
    recordings = rw (map-update_where p f (λ r. r.recording_id) t.rows same_recording) v.recordings;
    budget = all-update_where p f (in_budget limit) t.rows within v.budget;
  }

  pub enqueue-IsValid :
      (now : ℕ) (rid : Text) (t : QueueTable)
      → IsValid limit t
      → IsValid limit (enqueue now rid t).0
  unfolding enqueue
  enqueue-IsValid now rid t v = elim (Bool-cases (has_job rid t)) [
    | inl h ↦ rw h v
    | inr h ↦ rw h (append_job-IsValid JobState.pending now rid t h v)
  ]

  pub enqueue_done-IsValid :
      (now : ℕ) (rid : Text) (t : QueueTable)
      → IsValid limit t
      → IsValid limit (enqueue_done now rid t)
  unfolding enqueue_done
  enqueue_done-IsValid now rid t v = elim (Bool-cases (has_job rid t)) [
    | inl h ↦ rw h v
    | inr h ↦ rw h (append_job-IsValid JobState.done now rid t h v)
  ]

  pub requeue-IsValid :
      (now : ℕ) (rid : Text) (t : QueueTable) → IsValid limit t → IsValid limit (requeue now rid t)
  unfolding requeue
  requeue-IsValid now rid t v = elim (Bool-cases (has_job rid t)) [
    | inl h ↦
        rw h (update_where-IsValid _ _ t (λ r. refl) (λ r. refl) (λ r _ _. lt→ltb 0 limit room) v)
    | inr h ↦ rw h (append_job-IsValid JobState.pending now rid t h v)
  ]

  pub recover_stale-IsValid :
      (now : ℕ) (t : QueueTable) → IsValid limit t → IsValid limit (recover_stale now t).0
  unfolding recover_stale
  recover_stale-IsValid now t v =
      update_where-IsValid _ _ t (λ r. refl) (λ r. refl) (λ r p h. ground arith) v

  pub complete-IsValid :
      (now job_id : ℕ) (t : QueueTable) → IsValid limit t → IsValid limit (complete now job_id t)
  unfolding complete
  complete-IsValid now job_id t v =
      update_where-IsValid _ _ t (λ r. refl) (λ r. refl) (λ r p h. ground arith) v

  pub fail-IsValid :
      (now : ℕ) (job : QueueJob) (error : Text) (t : QueueTable)
      → job.attempts < limit
      → IsValid limit t
      → IsValid limit (fail now job error limit t).0
  unfolding fail
  fail-IsValid now job error t left v =
      update_where-IsValid _ _ t (λ r. refl) (λ r. refl) (λ r p h. ground arith) v

  -- The claimed row is pending, so it has an attempt left.
  pub select_due-has_room :
      (now : ℕ) (t : QueueTable)
      → IsValid limit t
      → option_all (λ r. ltb r.attempts limit) (select_due now t.rows) ≡ true
  unfolding is_due
  select_due-has_room now t v =
      ground
        (arith, select_due-all (in_budget limit) now t.rows v.budget, select_due-is_due now t.rows)

  pub claim_next-IsValid :
      (now : ℕ) (t : QueueTable) → IsValid limit t → IsValid limit (claim_next now t).0
  unfolding claim_next
  claim_next-IsValid now t v = elim (Option-cases (select_due now t.rows)) [
    | inl e ↦ rw (e, claim_row) v
    | inr (r, e) ↦
        rw (e, claim_row)
          (record {
            ids =
                rw (map-update_where (has_id r.id) (set_running now) (λ r. r.id) t.rows (λ r. refl))
                  v.ids;
            below = all-update_where (has_id r.id) (set_running now) _ t.rows (λ r _ h. h) v.below;
            recordings =
                rw
                  (map-update_where (has_id r.id) (set_running now) (λ r. r.recording_id) t.rows
                    (λ r. refl))
                  v.recordings;
            budget =
                all-update_id r.id (set_running now) (in_budget limit) t.rows v.ids v.budget (
                  rw (find-select_due now t.rows r v.ids e)
                    (rw e at (select_due-has_room now t v)));
          })
  ]

  pub claim_next-has_room :
      (now : ℕ) (t : QueueTable) (job : QueueJob)
      → IsValid limit t
      → (claim_next now t).1 ≡ some job
      → job.attempts < limit
  unfolding claim_next
  claim_next-has_room now t job v e = ground (arith, select_due-has_room now t v)
