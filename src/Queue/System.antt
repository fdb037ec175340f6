-- ===== src/Queue/System.antt =====
-- The queue as a system of steps: the operations of queue.py in any order, and the jobs that
-- workers have claimed and not yet finished. A worker may be killed at any moment.
use veillee.Base.{ℕ, ◌<◌, ◌≡◌, true, some, List, [], ◌∷◌, ◌++◌, All, All-remove}
use veillee.Base.Text.{Text}
use veillee.Queue.{
  QueueTable, QueueJob, has_job, enqueue, enqueue_done, requeue, recover_stale, claim_next,
  complete, fail,
}
use veillee.Queue.Invariant.{
  IsValid, enqueue-IsValid, enqueue_done-IsValid, requeue-IsValid, recover_stale-IsValid,
  claim_next-IsValid, claim_next-has_room, complete-IsValid, fail-IsValid,
}
use veillee.Queue.Keeps.{
  enqueue-has_job, enqueue_done-has_job, requeue-has_job, recover_stale-has_job, claim_next-has_job,
  complete-has_job, fail-has_job,
}

pub record System : Type 0 where
  pub table : QueueTable
  pub held : List QueueJob

-- The steps of the queue for a limit on attempts. `finish` and `give_up` are a worker's, for one
-- of the jobs that it holds.
pub data Step (limit : ℕ) : System → System → Type 0 where
  add :
      (now : ℕ) (rid : Text) (s : System)
      → Step limit s (record s { table = (enqueue now rid s.table).0 })
  add_done :
      (now : ℕ) (rid : Text) (s : System)
      → Step limit s (record s { table = enqueue_done now rid s.table })
  again :
      (now : ℕ) (rid : Text) (s : System)
      → Step limit s (record s { table = requeue now rid s.table })
  recover :
      (now : ℕ) (s : System) → Step limit s (record s { table = (recover_stale now s.table).0 })
  claim :
      (now : ℕ) (s : System) (job : QueueJob)
      → (claim_next now s.table).1 ≡ some job
      → Step limit s (record { table = (claim_next now s.table).0; held = job ∷ s.held })
  finish :
      (now : ℕ) (job : QueueJob) (before after : List QueueJob) (s : System)
      → s.held ≡ before ++ (job ∷ after)
      → Step limit s (record { table = complete now job.id s.table; held = before ++ after })
  give_up :
      (now : ℕ) (job : QueueJob) (error : Text) (before after : List QueueJob) (s : System)
      → s.held ≡ before ++ (job ∷ after)
      → Step limit s
          (record { table = (fail now job error limit s.table).0; held = before ++ after })
  killed : (s : System) → Step limit s (record s { held = [] })

pub data Reach (limit : ℕ) (s : System) : System → Type 0 where
  here : Reach limit s s
  next : {t u : System} → Reach limit s t → Step limit t u → Reach limit s u

pub record IsSound (limit : ℕ) (s : System) : Type 0 where
  pub valid : IsValid limit s.table
  pub held_room : All (λ (j : QueueJob). j.attempts < limit) s.held

module _ (limit : ℕ) (room : 0 < limit) where
  finish-held :
      (s : System) (before after : List QueueJob) (job : QueueJob)
      → IsSound limit s
      → s.held ≡ before ++ (job ∷ after)
      → (job.attempts < limit) × All (λ (j : QueueJob). j.attempts < limit) (before ++ after)
  finish-held s before after job v e =
      All-remove (λ (j : QueueJob). j.attempts < limit) before job after (rw e at v.held_room)

  pub Step-IsSound : {s t : System} → Step limit s t → IsSound limit s → IsSound limit t
  Step-IsSound (add now rid s) v = record {
    valid = enqueue-IsValid limit room now rid s.table v.valid;
    held_room = v.held_room;
  }
  Step-IsSound (add_done now rid s) v = record {
    valid = enqueue_done-IsValid limit room now rid s.table v.valid;
    held_room = v.held_room;
  }
  Step-IsSound (again now rid s) v = record {
    valid = requeue-IsValid limit room now rid s.table v.valid;
    held_room = v.held_room;
  }
  Step-IsSound (recover now s) v = record {
    valid = recover_stale-IsValid limit room now s.table v.valid;
    held_room = v.held_room;
  }
  Step-IsSound (claim now s job e) v = record {
    valid = claim_next-IsValid limit room now s.table v.valid;
    held_room = (claim_next-has_room limit room now s.table job v.valid e, v.held_room);
  }
  Step-IsSound (finish now job before after s e) v = record {
    valid = complete-IsValid limit room now job.id s.table v.valid;
    held_room = (finish-held s before after job v e).1;
  }
  Step-IsSound (give_up now job error before after s e) v = record {
    valid =
        fail-IsValid limit room now job error s.table (finish-held s before after job v e).0
          v.valid;
    held_room = (finish-held s before after job v e).1;
  }
  Step-IsSound (killed s) v = record { valid = v.valid; held_room = tt }

  -- In every state that the queue can reach from a sound one, with a limit of at least one attempt,
  -- ids and recordings are distinct, a waiting or running job has made fewer attempts than the
  -- limit, no job has made more, and every job that a worker holds has an attempt left.
  pub Reach-IsSound : {s t : System} → Reach limit s t → IsSound limit s → IsSound limit t
  Reach-IsSound here v = v
  Reach-IsSound (next r st) v = Step-IsSound st (Reach-IsSound r v)

module _ (limit : ℕ) where
  Step-has_job :
      (rid : Text) {s t : System}
      → Step limit s t
      → has_job rid s.table ≡ true
      → has_job rid t.table ≡ true
  unfolding has_job
  Step-has_job rid (add now other s) h = enqueue-has_job now other rid s.table h
  Step-has_job rid (add_done now other s) h = enqueue_done-has_job now other rid s.table h
  Step-has_job rid (again now other s) h = requeue-has_job now other rid s.table h
  Step-has_job rid (recover now s) h = recover_stale-has_job now rid s.table h
  Step-has_job rid (claim now s job e) h = claim_next-has_job now rid s.table h
  Step-has_job rid (finish now job before after s e) h = complete-has_job now job.id rid s.table h
  Step-has_job rid (give_up now job error before after s e) h =
      fail-has_job now job error limit rid s.table h
  Step-has_job rid (killed s) h = h

  -- A recording that has a job keeps one through every step of the queue and every death of a
  -- worker.
  Reach-has_job :
      (rid : Text) {s t : System}
      → Reach limit s t
      → has_job rid s.table ≡ true
      → has_job rid t.table ≡ true
  Reach-has_job rid here h = h
  Reach-has_job rid (next r st) h = Step-has_job rid st (Reach-has_job rid r h)
