-- ===== src/Queue/Promise.antt =====
-- What queue.py promises of the jobs over a whole run, whatever its workers do.
use mathlib.Core.Option
use veillee.Base.{
  ℕ, ◌<◌, ◌≡◌, ◌∙◌, refl, ap, subst, true, some, List, [], ◌∷◌, ◌++◌, map, All, All-remove, arith,
  nat_eq, list_eq, ==_refl, Distinct, any, find, Option-cases, inl, inr,
}
use veillee.Base.Text.{Text}
use veillee.Queue.{
  QueueRow, QueueTable, QueueJob, JobState, has_id, is_due, claim_next, fail, claim_row, select_due,
  update_where, set_running,
}
use veillee.Queue.Rows.{find-select_due, select_due-is_due}
use veillee.Queue.Invariant.{IsValid}
use veillee.Queue.Lifecycle.{Jobs, Action, jobs_of, act, is_job, fresh_recording}
use veillee.Queue.System.{System, Step, Reach, IsSound, Reach-IsSound}
use veillee.Queue.Refines.{
  IsAllowed, Simulates, is_job-is_for, unchanged-Simulates, enqueue-Simulates,
  enqueue_done-Simulates, requeue-Simulates, recover_stale-Simulates, update_id-Simulates,
  complete-Simulates, fail-Simulates,
}

found-is_job :
    (i : ℕ) (r : QueueRow) (rows : List QueueRow)
    → find (has_id i) rows ≡ some r
    → any (is_job i r.recording_id) rows ≡ true
found-is_job i r [] e = absurd (cc e)
found-is_job i r (s ∷ rows) e = ground (arith, found-is_job i r rows, ==_refl r.recording_id)

found-recording :
    (i : ℕ) (r : QueueRow) (rows : List QueueRow)
    → Distinct (map (λ (r : QueueRow). r.recording_id) rows)
    → find (has_id i) rows ≡ some r
    → jobs_of rows r.recording_id ≡ some r.state
found-recording i r [] d e = absurd (cc e)
found-recording i r (s ∷ rows) (new, d) e = ground (
  arith,
  found-recording i r rows d,
  found-is_job i r rows,
  is_job-is_for i r.recording_id rows,
  fresh_recording s.recording_id r.recording_id rows new,
  ==_refl r.recording_id,
)

due-pending : (now : ℕ) (r : QueueRow) → is_due now r ≡ true → r.state ≡ JobState.pending
unfolding is_due
due-pending now r h = ground arith

module _ (limit now : ℕ) (t : QueueTable) (r : QueueRow) (v : IsValid limit t)
    (e : select_due now t.rows ≡ some r) where
  selected-is_job : any (is_job r.id r.recording_id) t.rows ≡ true
  selected-is_job = found-is_job r.id r t.rows (find-select_due now t.rows r v.ids e)

  claimed-Simulates :
      Simulates
        (Action.take r.recording_id)
        t
        (record t { rows = update_where (has_id r.id) (set_running now) t.rows })
  claimed-Simulates =
      update_id-Simulates limit t v r.id r.recording_id (Action.take r.recording_id)
        JobState.running (set_running now) (λ x. refl) (λ x. refl) (λ x. refl) refl
        (found-recording r.id r t.rows v.recordings (find-select_due now t.rows r v.ids e)
          ∙ ap some (due-pending now r (rw e at (select_due-is_due now t.rows))))
        selected-is_job

-- Claiming a job is taking that of its recording, and the job is in the table.
claim_next-Simulates :
    (limit now : ℕ) (t : QueueTable) (job : QueueJob)
    → IsValid limit t
    → (claim_next now t).1 ≡ some job
    → Simulates (Action.take job.recording_id) t (claim_next now t).0
      × (any (is_job job.id job.recording_id) t.rows ≡ true)
unfolding claim_next
claim_next-Simulates limit now t job v h = elim (Option-cases (select_due now t.rows)) [
  | inl e ↦ absurd (cc (rw (e, claim_row) at h))
  | inr (r, e) ↦
      subst
        (λ (j : QueueJob).
          Simulates (Action.take j.recording_id) t (claim_next now t).0
          × (any (is_job j.id j.recording_id) t.rows ≡ true))
        (Option.some-injective _ _ (rw (e, claim_row) at h))
        (rw (e, claim_row) (claimed-Simulates limit now t r v e, selected-is_job limit now t r v e))
]

-- The rows of the jobs that workers hold are those of their recordings.
abbrev pub IsLinked : QueueTable → List QueueJob → Type 0
IsLinked t held = All (λ (j : QueueJob). any (is_job j.id j.recording_id) t.rows ≡ true) held

keep_held :
    {x : Action} {a b : QueueTable}
    → Simulates x a b
    → (held : List QueueJob) → IsLinked a held
    → IsLinked b held
keep_held m [] h = tt
keep_held m (j ∷ held) (h, k) = (m.keeps j.id j.recording_id h, keep_held m held k)

-- The jobs after the given actions, the last of which stands first, each allowed when it was made.
pub data Run (from : Jobs) : List Action → Jobs → Type 0 where
  start : Run from [] from
  further :
      {actions : List Action} {jobs after : Jobs} (a : Action)
      → Run from actions jobs
      → IsAllowed a jobs
      → ((rid : Text) → after rid ≡ act a jobs rid)
      → Run from (a ∷ actions) after

-- The action that each step of the queue stands for.
abbrev pub action_of : {limit : ℕ} {s t : System} → Step limit s t → Action
action_of (Step.add now rid s) = Action.create rid JobState.pending
action_of (Step.add_done now rid s) = Action.create rid JobState.done
action_of (Step.again now rid s) = Action.wait_again rid
action_of (Step.recover now s) = Action.recovery
action_of (Step.claim now s job e) = Action.take job.recording_id
action_of (Step.finish now job before after s e) = Action.finish job.recording_id
action_of {limit} (Step.give_up now job error before after s e) =
    Action.give_up job.recording_id (fail now job error limit s.table).1
action_of (Step.killed s) = Action.idle

abbrev pub actions_of : {limit : ℕ} {s t : System} → Reach limit s t → List Action
actions_of Reach.here = []
actions_of (Reach.next r st) = action_of st ∷ actions_of r

module _ (limit : ℕ) where
  Follows : Action → System → System → Type 0
  Follows a s t = Simulates a s.table t.table × IsLinked t.table t.held

  only_table :
      {a : Action} {t : QueueTable} (s : System)
      → IsLinked s.table s.held
      → Simulates a s.table t
      → Follows a s (record s { table = t })
  unfolding Follows
  only_table s k m = (m, keep_held m s.held k)

  IsLinked-remove :
      (s : System) (before after : List QueueJob) (job : QueueJob)
      → IsLinked s.table s.held
      → s.held ≡ before ++ (job ∷ after)
      → (any (is_job job.id job.recording_id) s.table.rows ≡ true)
        × IsLinked s.table (before ++ after)
  IsLinked-remove s before after job k e = All-remove _ before job after (rw e at k)

  Step-Follows :
      {s t : System} (st : Step limit s t)
      → IsSound limit s
      → IsLinked s.table s.held
      → Follows (action_of st) s t
  unfolding Follows
  Step-Follows (Step.add now rid s) v k = only_table s k (enqueue-Simulates now rid s.table)
  Step-Follows (Step.add_done now rid s) v k =
      only_table s k (enqueue_done-Simulates now rid s.table)
  Step-Follows (Step.again now rid s) v k = only_table s k (requeue-Simulates now rid s.table)
  Step-Follows (Step.recover now s) v k = only_table s k (recover_stale-Simulates now s.table)
  Step-Follows (Step.claim now s job e) v k =
      let (m, here) = claim_next-Simulates limit now s.table job v.valid e in
      (m, keep_held m (job ∷ s.held) (here, k))
  Step-Follows (Step.finish now job before after s e) v k =
      let (here, rest) = IsLinked-remove s before after job k e in
      let m = complete-Simulates limit now s.table v.valid job here in
      (m, keep_held m (before ++ after) rest)
  Step-Follows (Step.give_up now job error before after s e) v k =
      let (here, rest) = IsLinked-remove s before after job k e in
      let m = fail-Simulates limit now s.table v.valid job here error in
      (m, keep_held m (before ++ after) rest)
  Step-Follows (Step.killed s) v k = (unchanged-Simulates s.table, tt)

  -- Step by step, the queue does to the states of the recordings' jobs what the specification says of
  -- the operation, and only where it is allowed: enqueueing creates a job only where there is none, a
  -- job is claimed only while it waits, and is finished or given up only where there is one, given up
  -- to wait again or for good. The jobs that workers hold at the beginning are rows of the table, and
  -- the table is sound. Deleting a recording with its job is no step.
  pub Reach-Run :
      (room : 0 < limit) {s t : System} (r : Reach limit s t)
      → IsSound limit s
      → IsLinked s.table s.held
      → Run (jobs_of s.table.rows) (actions_of r) (jobs_of t.table.rows) × IsLinked t.table t.held
  unfolding Follows
  Reach-Run room Reach.here v k = (Run.start, k)
  Reach-Run room (Reach.next r st) v k =
      let (run, linked) = Reach-Run room r v k in
      let (m, held) = Step-Follows st (Reach-IsSound limit room r v) linked in
      (Run.further (action_of st) run m.allowed m.follows, held)
