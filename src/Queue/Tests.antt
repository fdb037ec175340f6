-- ===== src/Queue/Tests.antt =====
-- The queue on small tables.
use veillee.Base.{
  ℕ, ◌+◌, ◌*◌, ◌≤◌, ◌<◌, min, ◌≡◌, ◌≢◌, ◌↔◌, refl, true, none, some, [], ◌∷◌, find, nat_eq, list_eq,
  Distinct, arith,
}
use veillee.Base.Text.{Text, codes}
use veillee.Queue.{
  JobState, QueueRow, QueueTable, QueueJob, has_job, append_job, enqueue, claim_next, claim_row,
  select_due, pick, is_due, earlier, has_id, set_running, fail, backoff_delay, update_where,
}
use veillee.Queue.Rows.{ids}
use veillee.Queue.Claim.{claim_next-takes_first, claim_next-exclusive, is_first_due}
use veillee.Queue.Retry.{backoff_delay_bounds, fail-schedules}
use veillee.Queue.Lifecycle.{Action, jobs_of}
use veillee.Queue.Promise.{Run, IsLinked, Reach-Run}
use veillee.Queue.System.{System, Reach, here, next, add, claim, IsSound, Reach-IsSound}

abbrev empty : QueueTable
empty = record { rows = []; next_id = 1 }

abbrev first_id : Text
first_id = codes "a"

abbrev second_id : Text
second_id = codes "b"

abbrev waiting : ℕ → Text → ℕ → QueueRow
waiting id rid at = record {
  id = id;
  recording_id = rid;
  state = JobState.pending;
  attempts = 0;
  next_attempt_at = at;
  last_error = none;
  created = 0;
  updated = 0;
}

abbrev two_jobs : QueueTable
two_jobs = record { rows = waiting 1 first_id 10 ∷ waiting 2 second_id 5 ∷ []; next_id = 3 }

abbrev job_of : ℕ → Text → ℕ → QueueJob
job_of id rid at = record {
  id = id;
  recording_id = rid;
  state = JobState.running;
  attempts = 0;
  next_attempt_at = at;
  last_error = none;
}

two_jobs_distinct : Distinct (ids two_jobs.rows)
two_jobs_distinct = (refl, (refl, tt))

claims_second : (claim_next 20 two_jobs).1 ≡ some (job_of 2 second_id 5)
unfolding claim_next claim_row select_due pick is_due earlier update_where
claims_second = refl

then_first : (claim_next 21 (claim_next 20 two_jobs).0).1 ≡ some (job_of 1 first_id 10)
unfolding claim_next claim_row select_due pick is_due earlier update_where
then_first = refl

claim_next-takes_first_example :
    (r : QueueRow) × (find (has_id 2) two_jobs.rows ≡ some r)
    × (is_due 20 r ≡ true)
    × (is_first_due 20 r two_jobs.rows ≡ true)
    × (find (has_id 2) (claim_next 20 two_jobs).0.rows ≡ some (set_running 20 r))
    × ((j : ℕ)
        → j ≢ 2
        → find (has_id j) (claim_next 20 two_jobs).0.rows ≡ find (has_id j) two_jobs.rows)
claim_next-takes_first_example =
    claim_next-takes_first 20 two_jobs (job_of 2 second_id 5) two_jobs_distinct claims_second

claim_next-exclusive_example : ◌≢◌ {A = ℕ} 2 1
claim_next-exclusive_example =
    claim_next-exclusive 20 21 two_jobs (job_of 2 second_id 5) (job_of 1 first_id 10)
      two_jobs_distinct claims_second then_first

fail-schedules_example :
    (r' : QueueRow) × (find (has_id 2) (fail 20 (job_of 2 second_id 5) first_id 1 two_jobs).0.rows
      ≡ some r')
    × ((fail 20 (job_of 2 second_id 5) first_id 1 two_jobs).1 ≡ r'.state)
    × (r'.attempts ≡ 0 + 1)
    × ((is_due 99 r' ≡ true) ↔ ((0 + 1 < 1) × (20 + backoff_delay (0 + 1) ≤ 99)))
    × ((r'.state ≡ JobState.dead) ↔ (1 ≤ 0 + 1))
fail-schedules_example =
    fail-schedules 20 99 (job_of 2 second_id 5) first_id 1 two_jobs (waiting 2 second_id 5) refl

backoff_delay_bounds_example :
    (15 ≤ backoff_delay 3)
    × (backoff_delay 3 ≤ 3600)
    × (backoff_delay 3 ≤ backoff_delay 5)
    × (backoff_delay (3 + 2) ≡ min (2 * backoff_delay (3 + 1)) 3600)
backoff_delay_bounds_example = backoff_delay_bounds 3 5 (ground arith)

abbrev start : System
start = record { table = empty; held = [] }

abbrev one_added : System
one_added = record { table = (enqueue 5 first_id empty).0; held = [] }

abbrev one_claimed : System
one_claimed = record {
  table = (claim_next 6 (enqueue 5 first_id empty).0).0;
  held = job_of 1 first_id 5 ∷ [];
}

claims_added : (claim_next 6 (enqueue 5 first_id empty).0).1 ≡ some (job_of 1 first_id 5)
unfolding enqueue has_job append_job claim_next claim_row select_due pick is_due earlier
    update_where
claims_added = refl

abbrev reaches_claimed : Reach 3 start one_claimed
reaches_claimed =
    next (next here (add 5 first_id start)) (claim 6 one_added (job_of 1 first_id 5) claims_added)

start-IsSound : IsSound 3 start
start-IsSound = record {
  valid = record { ids = tt; below = refl; recordings = tt; budget = refl };
  held_room = tt;
}

Reach-IsSound_example : IsSound 3 one_claimed
Reach-IsSound_example = Reach-IsSound 3 (omega arith) reaches_claimed start-IsSound

Reach-Run_example :
    Run
      (jobs_of empty.rows)
      (Action.take first_id ∷ Action.create first_id JobState.pending ∷ [])
      (jobs_of one_claimed.table.rows)
    × IsLinked one_claimed.table (job_of 1 first_id 5 ∷ [])
Reach-Run_example = Reach-Run 3 (omega arith) reaches_claimed start-IsSound tt
