-- ===== src/Queue/Keeps.antt =====
-- No operation of queue.py drops a job.
use veillee.Base.{
  ℕ, ◌+◌, ◌≡◌, ◌∙◌, refl, true, Bool, inl, inr, any-append, Bool-cases, Option-cases,
}
use veillee.Base.Text.{Text}
use veillee.Queue.{
  QueueTable, QueueRow, QueueJob, has_job, append_job, JobState, enqueue, enqueue_done, requeue,
  recover_stale, claim_next, claim_row, complete, fail, select_due, update_where, is_for, is_in,
  has_id, set_again, set_pending, set_running, set_done, set_failed, state_after_failure,
  backoff_delay,
}
use veillee.Queue.Rows.{any-update_where}

update-has_job :
    (p : QueueRow → Bool) (f : QueueRow → QueueRow) (rid : Text) (t : QueueTable)
    → ((r : QueueRow) → (f r).recording_id ≡ r.recording_id)
    → has_job rid (record t { rows = update_where p f t.rows }) ≡ has_job rid t
unfolding has_job
update-has_job p f rid t keep = any-update_where p f (is_for rid) t.rows (λ r. rw (keep r))

append_job-has_job :
    (state : JobState) (now : ℕ) (other rid : Text) (t : QueueTable)
    → has_job rid t ≡ true
    → has_job rid (append_job state now other t) ≡ true
unfolding has_job append_job
append_job-has_job state now other rid t h = rw any-append (rw h)

module _ (now : ℕ) (other rid : Text) (t : QueueTable) (h : has_job rid t ≡ true) where
  pub enqueue-has_job : has_job rid (enqueue now other t).0 ≡ true
  unfolding enqueue
  enqueue-has_job = elim (Bool-cases (has_job other t)) [
    | inl e ↦ rw e h
    | inr e ↦ rw e (append_job-has_job JobState.pending now other rid t h)
  ]

  pub enqueue_done-has_job : has_job rid (enqueue_done now other t) ≡ true
  unfolding enqueue_done
  enqueue_done-has_job = elim (Bool-cases (has_job other t)) [
    | inl e ↦ rw e h
    | inr e ↦ rw e (append_job-has_job JobState.done now other rid t h)
  ]

  pub requeue-has_job : has_job rid (requeue now other t) ≡ true
  unfolding requeue
  requeue-has_job = elim (Bool-cases (has_job other t)) [
    | inl e ↦ rw e (update-has_job (is_for other) (set_again now) rid t (λ r. refl) ∙ h)
    | inr e ↦ rw e (append_job-has_job JobState.pending now other rid t h)
  ]

module _ (now : ℕ) (rid : Text) (t : QueueTable) (h : has_job rid t ≡ true) where
  pub recover_stale-has_job : has_job rid (recover_stale now t).0 ≡ true
  unfolding recover_stale
  recover_stale-has_job =
      update-has_job (is_in JobState.running) (set_pending now) rid t (λ r. refl) ∙ h

  pub claim_next-has_job : has_job rid (claim_next now t).0 ≡ true
  unfolding claim_next
  claim_next-has_job = elim (Option-cases (select_due now t.rows)) [
    | inl e ↦ rw (e, claim_row) h
    | inr (r, e) ↦
        rw (e, claim_row) (update-has_job (has_id r.id) (set_running now) rid t (λ r. refl) ∙ h)
  ]

pub complete-has_job :
    (now job_id : ℕ) (rid : Text) (t : QueueTable)
    → has_job rid t ≡ true
    → has_job rid (complete now job_id t) ≡ true
unfolding complete
complete-has_job now job_id rid t h =
    update-has_job (has_id job_id) (set_done now) rid t (λ r. refl) ∙ h

pub fail-has_job :
    (now : ℕ) (job : QueueJob) (error : Text) (limit : ℕ) (rid : Text) (t : QueueTable)
    → has_job rid t ≡ true
    → has_job rid (fail now job error limit t).0 ≡ true
unfolding fail
fail-has_job now job error limit rid t h =
    update-has_job (has_id job.id)
      (set_failed (state_after_failure (job.attempts + 1) limit) (job.attempts + 1)
        (now + backoff_delay (job.attempts + 1)) error now)
      rid t (λ r. refl)
    ∙ h
