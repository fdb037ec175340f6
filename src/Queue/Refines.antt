-- ===== src/Queue/Refines.antt =====
-- The operations of queue.py as actions on the states of the recordings' jobs.
use veillee.Base.{
  subst, sym, ap, ==_iff, ◌==◌, none, ◌⊎◌, ℕ, ◌+◌, ◌≡◌, ◌∙◌, refl, Bool, true, false, none, some,
  List, [], ◌∷◌, arith, leb, nat_eq, list_eq, any, any-append, Bool-cases, inl, inr,
}
use veillee.Base.Text.{Text}
use veillee.Queue.{
  QueueRow, QueueTable, QueueJob, JobState, is_for, has_id, is_in, update_where, has_job,
  append_job, enqueue, enqueue_done, requeue, recover_stale, complete, fail, set_again, set_pending,
  set_done, set_failed, state_after_failure, backoff_delay,
}
use veillee.Queue.Rows.{any-update_where}
use veillee.Queue.Invariant.{IsValid}
use veillee.Queue.Lifecycle.{
  Jobs, Action, jobs_of, act, put, any_same, has_one-jobs_of, is_job, jobs_of-assigned,
  jobs_of-update_id, jobs_of-recovered, jobs_of-append, has_none-jobs_of,
}

-- Which actions the specification allows: a job is taken only while it waits, and only a recording with a
-- job has it finished or given up, to wait again or for good.
abbrev pub IsAllowed : Action → Jobs → Type 0
IsAllowed (Action.take rid) jobs = jobs rid ≡ some JobState.pending
IsAllowed (Action.finish rid) jobs = (s : JobState) × (jobs rid ≡ some s)
IsAllowed (Action.give_up rid new) jobs =
    ((s : JobState) × (jobs rid ≡ some s)) × ((new ≡ JobState.pending) ⊎ (new ≡ JobState.dead))
IsAllowed a jobs = Unit

-- The change of the table is the action, where that is allowed.
pub record Simulates (action : Action) (a b : QueueTable) : Type 0 where
  pub allowed : IsAllowed action (jobs_of a.rows)
  pub follows : (rid : Text) → jobs_of b.rows rid ≡ act action (jobs_of a.rows) rid
  pub keeps :
      (i : ℕ) (rid : Text) → any (is_job i rid) a.rows ≡ true → any (is_job i rid) b.rows ≡ true

keeps-update :
    (p : QueueRow → Bool) (f : QueueRow → QueueRow) (rows : List QueueRow)
    → ((r : QueueRow) → (f r).id ≡ r.id)
    → ((r : QueueRow) → (f r).recording_id ≡ r.recording_id)
    → (i : ℕ) (rid : Text) → any (is_job i rid) rows ≡ true
    → any (is_job i rid) (update_where p f rows) ≡ true
keeps-update p f rows same_id same_recording i rid h =
    any-update_where p f (is_job i rid) rows (λ r. rw (same_id r, same_recording r) refl) ∙ h

keeps-append :
    (state : JobState) (now : ℕ) (other : Text) (t : QueueTable) (i : ℕ) (rid : Text)
    → any (is_job i rid) t.rows ≡ true
    → any (is_job i rid) (append_job state now other t).rows ≡ true
unfolding append_job
keeps-append state now other t i rid h = rw any-append (rw h)

has_some :
    (rid : Text) (rows : List QueueRow)
    → any (is_for rid) rows ≡ true
    → (s : JobState) × (jobs_of rows rid ≡ some s)
has_some rid [] h = absurd (cc h)
has_some rid (r ∷ rows) h = elim (Bool-cases (is_for rid r)) [
  | inl e ↦ (r.state, rw e)
  | inr n ↦ let (s, k) = has_some rid rows (rw n at h) in (s, rw n k)
]

pub is_job-is_for :
    (i : ℕ) (rid : Text) (rows : List QueueRow)
    → any (is_job i rid) rows ≡ true
    → any (is_for rid) rows ≡ true
is_job-is_for i rid [] h = absurd (cc h)
is_job-is_for i rid (r ∷ rows) h = ground (arith, is_job-is_for i rid rows)

pub unchanged-Simulates : (t : QueueTable) → Simulates Action.idle t t
unchanged-Simulates t = record { allowed = tt; follows = λ rid. refl; keeps = λ i rid h. h }

module _ (now : ℕ) (rid : Text) (t : QueueTable) where
  appended-jobs_of :
      (state : JobState)
      → any (is_for rid) t.rows ≡ false
      → (other : Text)
      → jobs_of (append_job state now rid t).rows other
        ≡ act (Action.create rid state) (jobs_of t.rows) other
  unfolding append_job
  appended-jobs_of state absent other =
      jobs_of-append _ other t.rows (has_none-jobs_of rid t.rows absent)

  append_job-Simulates :
      (state : JobState)
      → any (is_for rid) t.rows ≡ false
      → Simulates (Action.create rid state) t (append_job state now rid t)
  append_job-Simulates state absent = record {
    allowed = tt;
    follows = appended-jobs_of state absent;
    keeps = keeps-append state now rid t;
  }

  present-Simulates :
      (state : JobState) → any (is_for rid) t.rows ≡ true → Simulates (Action.create rid state) t t
  present-Simulates state e = record {
    allowed = tt;
    follows =
        λ other. ground (arith, any_same rid other t.rows e, has_one-jobs_of state other t.rows);
    keeps = λ i other h. h;
  }

  pub enqueue-Simulates : Simulates (Action.create rid JobState.pending) t (enqueue now rid t).0
  unfolding enqueue has_job
  enqueue-Simulates = elim (Bool-cases (any (is_for rid) t.rows)) [
    | inl e ↦ rw e (present-Simulates JobState.pending e)
    | inr n ↦ rw n (append_job-Simulates JobState.pending n)
  ]

  pub enqueue_done-Simulates :
      Simulates (Action.create rid JobState.done) t (enqueue_done now rid t)
  unfolding enqueue_done has_job
  enqueue_done-Simulates = elim (Bool-cases (any (is_for rid) t.rows)) [
    | inl e ↦ rw e (present-Simulates JobState.done e)
    | inr n ↦ rw n (append_job-Simulates JobState.done n)
  ]

  -- A recording without a job gets one that waits.
  created_again :
      any (is_for rid) t.rows ≡ false
      → (other : Text)
      → act (Action.create rid JobState.pending) (jobs_of t.rows) other
        ≡ put rid JobState.pending (jobs_of t.rows) other
  created_again absent other = elim (Bool-cases (rid == other)) [
    | inl e ↦
        let none_there =
          subst (λ x. jobs_of t.rows x ≡ none) ((==_iff rid other).0 e)
            (has_none-jobs_of rid t.rows absent) in
        ground (arith, none_there)
    | inr n ↦ rw n refl
  ]

  pub requeue-Simulates : Simulates (Action.wait_again rid) t (requeue now rid t)
  unfolding requeue has_job
  requeue-Simulates = elim (Bool-cases (any (is_for rid) t.rows)) [
    | inl e ↦ rw e (record {
      allowed = tt;
      follows = λ other.
          jobs_of-assigned rid other JobState.pending (set_again now) t.rows (λ r. refl) (λ r. refl)
            e;
      keeps = keeps-update (is_for rid) (set_again now) t.rows (λ r. refl) (λ r. refl);
    })
    | inr n ↦ rw n (record {
      allowed = tt;
      follows = λ other. appended-jobs_of JobState.pending n other ∙ created_again n other;
      keeps = keeps-append JobState.pending now rid t;
    })
  ]

pub recover_stale-Simulates :
    (now : ℕ) (t : QueueTable) → Simulates Action.recovery t (recover_stale now t).0
unfolding recover_stale
recover_stale-Simulates now t = record {
  allowed = tt;
  follows = λ rid. jobs_of-recovered now rid t.rows;
  keeps = keeps-update (is_in JobState.running) (set_pending now) t.rows (λ r. refl) (λ r. refl);
}

module _ (limit : ℕ) (t : QueueTable) (v : IsValid limit t) (i : ℕ) (rid : Text) where
  -- An update of a job's row that sets its state, by an action that puts that state.
  pub update_id-Simulates :
      (action : Action) (s : JobState) (f : QueueRow → QueueRow)
      → ((r : QueueRow) → (f r).id ≡ r.id)
      → ((r : QueueRow) → (f r).recording_id ≡ r.recording_id)
      → ((r : QueueRow) → (f r).state ≡ s)
      → act action (jobs_of t.rows) ≡ put rid s (jobs_of t.rows)
      → IsAllowed action (jobs_of t.rows)
      → any (is_job i rid) t.rows ≡ true
      → Simulates action t (record t { rows = update_where (has_id i) f t.rows })
  update_id-Simulates action s f same_id same_recording new puts allowed h = record {
    allowed = allowed;
    follows = λ other.
        jobs_of-update_id i rid s f t.rows v.ids v.recordings same_recording new h other
        ∙ ap (λ (jobs : Jobs). jobs other) (sym puts);
    keeps = keeps-update (has_id i) f t.rows same_id same_recording;
  }

failed_state :
    (attempts limit : ℕ)
    → (state_after_failure attempts limit ≡ JobState.pending)
      ⊎ (state_after_failure attempts limit ≡ JobState.dead)
unfolding state_after_failure
failed_state attempts limit = elim (Bool-cases (leb limit attempts)) [
  | inl e ↦ inr (rw e refl)
  | inr n ↦ inl (rw n refl)
]

module _ (limit : ℕ) (now : ℕ) (t : QueueTable) (v : IsValid limit t) (job : QueueJob)
    (h : any (is_job job.id job.recording_id) t.rows ≡ true) where
  has_state : (s : JobState) × (jobs_of t.rows job.recording_id ≡ some s)
  has_state = has_some job.recording_id t.rows (is_job-is_for job.id job.recording_id t.rows h)

  pub complete-Simulates : Simulates (Action.finish job.recording_id) t (complete now job.id t)
  unfolding complete
  complete-Simulates =
      update_id-Simulates limit t v job.id job.recording_id (Action.finish job.recording_id)
        JobState.done (set_done now) (λ r. refl) (λ r. refl) (λ r. refl) refl has_state h

  pub fail-Simulates :
      (error : Text)
      → Simulates
          (Action.give_up job.recording_id (fail now job error limit t).1)
          t
          (fail now job error limit t).0
  unfolding fail
  fail-Simulates error =
      let attempts = job.attempts + 1 in
      let state = state_after_failure attempts limit in
      update_id-Simulates limit t v job.id job.recording_id (Action.give_up job.recording_id state)
        state (set_failed state attempts (now + backoff_delay attempts) error now) (λ r. refl)
        (λ r. refl) (λ r. refl) refl (has_state, failed_state attempts limit) h
