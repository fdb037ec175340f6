-- ===== src/Queue.antt =====
-- queue.py: the transcription queue, a table of the index, and the deletion of a job that
-- repository.py makes. A stamp is the second that it denotes: the source's fixed-width UTC texts
-- sort as their instants do. The calls of `utc_now_iso` of one operation are its argument `now`.
-- Rows stand in the order of their ids, and `next_id` is SQLite's AUTOINCREMENT.
pub mod Rows
pub mod Invariant
pub mod System
pub mod Keeps
pub mod Claim
pub mod Retry
pub mod Enqueue
pub mod Load
pub mod Lifecycle
pub mod Refines
pub mod Promise
mod Tests
use veillee.Base.{
  ℕ, ◌+◌, ◌-◌, ◌*◌, ◌^◌, min, Bool, true, false, Option, none, some, List, [], ◌∷◌, ◌++◌, ◌&&◌,
  ◌||◌, not, if◌then◌else◌, ltb, leb, any, find, filter, count_if, take, ◌==◌, nat_eq, list_eq,
}
use veillee.Base.Text.{Text}

pub data JobState : Type 0 where
  pending running done dead : JobState

abbrev pub same_state : JobState → JobState → Bool
same_state pending pending = true
same_state running running = true
same_state done done = true
same_state dead dead = true
same_state _ _ = false

abbrev pub backoff_base_seconds : ℕ
backoff_base_seconds = 15

abbrev pub backoff_cap_seconds : ℕ
backoff_cap_seconds = 3600

pub record QueueRow : Type 0 where
  pub id : ℕ
  pub recording_id : Text
  pub state : JobState
  pub attempts : ℕ
  pub next_attempt_at : ℕ
  pub last_error : Option Text
  pub created : ℕ
  pub updated : ℕ

pub record QueueTable : Type 0 where
  pub rows : List QueueRow
  pub next_id : ℕ

pub record QueueJob : Type 0 where
  pub id : ℕ
  pub recording_id : Text
  pub state : JobState
  pub attempts : ℕ
  pub next_attempt_at : ℕ
  pub last_error : Option Text

-- `max(0, attempts - 1)` is the subtraction of ℕ.
unfoldable pub backoff_delay : ℕ → ℕ
backoff_delay attempts = min (backoff_base_seconds * 2 ^ (attempts - 1)) backoff_cap_seconds

-- UPDATE ... SET f WHERE p
pub update_where : (QueueRow → Bool) → (QueueRow → QueueRow) → List QueueRow → List QueueRow
update_where p f [] = []
update_where p f (r ∷ rows) = (if p r then f r else r) ∷ update_where p f rows

abbrev pub is_for : Text → QueueRow → Bool
is_for rid r = r.recording_id == rid

abbrev pub has_id : ℕ → QueueRow → Bool
has_id i r = r.id == i

abbrev pub is_in : JobState → QueueRow → Bool
is_in s r = same_state r.state s

unfoldable pub has_job : Text → QueueTable → Bool
has_job rid t = any (is_for rid) t.rows

-- INSERT of a job in a given state, with no attempt made.
pub append_job : JobState → ℕ → Text → QueueTable → QueueTable
append_job state now rid t = record {
  rows =
      t.rows
      ++ (record {
        id = t.next_id;
        recording_id = rid;
        state = state;
        attempts = 0;
        next_attempt_at = now;
        last_error = none;
        created = now;
        updated = now;
      }
          ∷ []);
  next_id = t.next_id + 1;
}

pub enqueue : ℕ → Text → QueueTable → QueueTable × Bool
unfolding has_job append_job
enqueue now rid t = if has_job rid t then (t, false) else (append_job pending now rid t, true)

-- The insertion that `_load_recordings` of index.py makes for a recording with a transcript.
pub enqueue_done : ℕ → Text → QueueTable → QueueTable
unfolding has_job append_job
enqueue_done now rid t = if has_job rid t then t else append_job done now rid t

-- The SET clauses of the UPDATE statements.
abbrev pub set_again : ℕ → QueueRow → QueueRow
set_again now r = record r {
  state = pending;
  attempts = 0;
  next_attempt_at = now;
  last_error = none;
  updated = now;
}

abbrev pub set_pending : ℕ → QueueRow → QueueRow
set_pending now r = record r { state = pending; updated = now }

abbrev pub set_running : ℕ → QueueRow → QueueRow
set_running now r = record r { state = running; updated = now }

abbrev pub set_done : ℕ → QueueRow → QueueRow
set_done now r = record r { state = done; last_error = none; updated = now }

abbrev pub set_failed : JobState → ℕ → ℕ → Text → ℕ → QueueRow → QueueRow
set_failed state attempts next_attempt error now r = record r {
  state = state;
  attempts = attempts;
  next_attempt_at = next_attempt;
  last_error = some (take 1000 error);
  updated = now;
}

pub requeue : ℕ → Text → QueueTable → QueueTable
unfolding has_job append_job update_where
requeue now rid t =
    if has_job rid t
    then record t { rows = update_where (is_for rid) (set_again now) t.rows }
    else append_job pending now rid t

pub recover_stale : ℕ → QueueTable → QueueTable × ℕ
unfolding update_where
recover_stale now t = (
  record t { rows = update_where (is_in running) (set_pending now) t.rows },
  count_if (is_in running) t.rows,
)

unfoldable pub is_due : ℕ → QueueRow → Bool
is_due now r = is_in pending r && leb r.next_attempt_at now

-- The order of the query: `next_attempt_at`, then `id`.
unfoldable pub earlier : QueueRow → QueueRow → Bool
earlier a b =
    ltb a.next_attempt_at b.next_attempt_at
    || (a.next_attempt_at == b.next_attempt_at && ltb a.id b.id)

pick : QueueRow → Option QueueRow → QueueRow
pick r none = r
pick r (some best) = if earlier best r then best else r

-- SELECT ... ORDER BY next_attempt_at, id LIMIT 1
pub select_due : ℕ → List QueueRow → Option QueueRow
unfolding is_due pick
select_due now [] = none
select_due now (r ∷ rows) =
    let best = select_due now rows in if is_due now r then some (pick r best) else best

claim_row : ℕ → QueueTable → Option QueueRow → QueueTable × Option QueueJob
unfolding update_where
claim_row now t none = (t, none)
claim_row now t (some r) = (
  record t { rows = update_where (has_id r.id) (set_running now) t.rows },
  some (record {
    id = r.id;
    recording_id = r.recording_id;
    state = running;
    attempts = r.attempts;
    next_attempt_at = r.next_attempt_at;
    last_error = r.last_error;
  }),
)

pub claim_next : ℕ → QueueTable → QueueTable × Option QueueJob
unfolding claim_row
claim_next now t = claim_row now t (select_due now t.rows)

pub complete : ℕ → ℕ → QueueTable → QueueTable
unfolding update_where
complete now job_id t = record t { rows = update_where (has_id job_id) (set_done now) t.rows }

-- The state that one more failure leads to.
unfoldable pub state_after_failure : ℕ → ℕ → JobState
state_after_failure attempts max_attempts = if leb max_attempts attempts then dead else pending

pub fail : ℕ → QueueJob → Text → ℕ → QueueTable → QueueTable × JobState
unfolding update_where backoff_delay state_after_failure
fail now job error max_attempts t =
    let attempts = job.attempts + 1 in
    let state = state_after_failure attempts max_attempts in
    (
      record t {
        rows =
            update_where (has_id job.id)
              (set_failed state attempts (now + backoff_delay attempts) error now) t.rows;
      },
      state,
    )

pub record Depth : Type 0 where
  pub pending : ℕ
  pub running : ℕ
  pub done : ℕ
  pub dead : ℕ

pub depth : QueueTable → Depth
depth t = record {
  pending = count_if (is_in JobState.pending) t.rows;
  running = count_if (is_in JobState.running) t.rows;
  done = count_if (is_in JobState.done) t.rows;
  dead = count_if (is_in JobState.dead) t.rows;
}

-- The second statement of `delete_recording_row` of repository.py.
pub delete_job : Text → QueueTable → QueueTable
delete_job rid t = record t { rows = filter (λ r. not (is_for rid r)) t.rows }
