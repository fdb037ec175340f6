-- ===== src/Queue/Retry.antt =====
-- Backing off, giving up, and recovering from a killed worker.
use native.Mathlib.Nat.{pow-le-pow_right, pow-suc}
use veillee.Base.{
  ℕ, suc, ◌∙◌, ◌+◌, ◌-◌, ◌*◌, ◌^◌, ◌≤◌, ◌<◌, ◌≡◌, ◌↔◌, refl, true, List, [], ◌∷◌, arith, nat_eq,
  ==_refl, count_if, length, find, some, min,
}
use veillee.Base.Text.{Text}
use veillee.Queue.{
  JobState, QueueRow, QueueTable, QueueJob, backoff_delay, is_in, is_due, has_id, recover_stale,
  fail, state_after_failure, depth, set_pending, set_failed, update_where,
}
use veillee.Queue.Rows.{find-update_id}

pow_pos : (k : ℕ) → 1 ≤ 2 ^ k
pow_pos k = pow-le-pow_right {n = 2} (omega arith) {i = 0} {j = k} (omega arith)

pow_double : (n : ℕ) → 2 ^ (n + 2 - 1) ≡ 2 * 2 ^ (n + 1 - 1)
pow_double n =
    let e : n + 2 - 1 ≡ suc n = omega arith in
    let e' : n + 1 - 1 ≡ n = omega arith in rw (e, e', pow-suc) (omega arith)

recover_counts :
    (now : ℕ) (rows : List QueueRow)
    → let after = update_where (is_in JobState.running) (set_pending now) rows in
      (count_if (is_in JobState.pending) after
        ≡ count_if (is_in JobState.pending) rows + count_if (is_in JobState.running) rows)
      × (count_if (is_in JobState.running) after ≡ 0)
      × (count_if (is_in JobState.done) after ≡ count_if (is_in JobState.done) rows)
      × (count_if (is_in JobState.dead) after ≡ count_if (is_in JobState.dead) rows)
unfolding update_where
recover_counts now [] = omega arith
recover_counts now (r ∷ rows) = ground (arith, recover_counts now rows)

depth_counts :
    (rows : List QueueRow)
    → count_if (is_in JobState.pending) rows
        + count_if (is_in JobState.running) rows
        + count_if (is_in JobState.done) rows
        + count_if (is_in JobState.dead) rows
      ≡ length rows
depth_counts [] = omega arith
depth_counts (r ∷ rows) = ground (arith, depth_counts rows)

-- A retry waits at least fifteen seconds and at most an hour, waits no less after more failures,
-- and doubles the wait with each failure until the hour is reached.
pub backoff_delay_bounds :
    (attempts more : ℕ)
    → attempts ≤ more
    → (15 ≤ backoff_delay attempts)
      × (backoff_delay attempts ≤ 3600)
      × (backoff_delay attempts ≤ backoff_delay more)
      × (backoff_delay (attempts + 2) ≡ min (2 * backoff_delay (attempts + 1)) 3600)
unfolding backoff_delay
backoff_delay_bounds attempts more h = omega (
  arith,
  pow_pos (attempts - 1),
  pow-le-pow_right {n = 2} (omega arith) {i = attempts - 1} {j = more - 1} (omega arith),
  pow_double attempts,
)

-- After `recover_stale` every job that was running is pending, the answer is how many there were,
-- and the finished and the dead jobs are as many as before.
recover_stale-depth :
    (now : ℕ) (t : QueueTable)
    → ((recover_stale now t).1 ≡ (depth t).running)
      × (depth (recover_stale now t).0 ≡ record {
        pending = (depth t).pending + (depth t).running;
        running = 0;
        done = (depth t).done;
        dead = (depth t).dead;
      })
unfolding recover_stale depth
recover_stale-depth now t = (refl, ground (arith, recover_counts now t.rows))

-- The four counts of `depth` are those of all jobs.
pub depth_total :
    (t : QueueTable)
    → (depth t).pending + (depth t).running + (depth t).done + (depth t).dead ≡ length t.rows
unfolding depth
depth_total t = depth_counts t.rows

failed-is_due :
    (later attempts limit due : ℕ) (error : Text) (now : ℕ) (r : QueueRow)
    → (is_due later (set_failed (state_after_failure attempts limit) attempts due error now r)
        ≡ true)
      ↔ ((attempts < limit) × (due ≤ later))
unfolding is_due state_after_failure
failed-is_due later attempts limit due error now r = (λ h. ground arith, λ h. ground arith)

state_after_failure-dead :
    (attempts limit : ℕ) → (state_after_failure attempts limit ≡ JobState.dead) ↔ (limit ≤ attempts)
unfolding state_after_failure
state_after_failure-dead attempts limit = (λ h. ground arith, λ h. ground arith)

-- A failed job, with its row in the table, is retried exactly while it has made fewer attempts than
-- the limit, and then not before its delay has passed; otherwise it is dead. The answer is its new
-- state, and the attempt is counted.
pub fail-schedules :
    (now later : ℕ) (job : QueueJob) (error : Text) (limit : ℕ) (t : QueueTable) (r : QueueRow)
    → find (has_id job.id) t.rows ≡ some r
    → (r' : QueueRow) × (find (has_id job.id) (fail now job error limit t).0.rows ≡ some r')
      × ((fail now job error limit t).1 ≡ r'.state)
      × (r'.attempts ≡ job.attempts + 1)
      × ((is_due later r' ≡ true)
          ↔ ((job.attempts + 1 < limit) × (now + backoff_delay (job.attempts + 1) ≤ later)))
      × ((r'.state ≡ JobState.dead) ↔ (limit ≤ job.attempts + 1))
unfolding fail is_due
fail-schedules now later job error limit t r found =
    let f : QueueRow → QueueRow =
      set_failed (state_after_failure (job.attempts + 1) limit) (job.attempts + 1)
        (now + backoff_delay (job.attempts + 1)) error now in
    (
      f r,
      find-update_id job.id job.id f t.rows (λ q. refl) ∙ rw (==_refl job.id, found),
      refl,
      refl,
      failed-is_due later (job.attempts + 1) limit (now + backoff_delay (job.attempts + 1)) error
          now r,
      state_after_failure-dead (job.attempts + 1) limit,
    )
