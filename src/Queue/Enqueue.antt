-- ===== src/Queue/Enqueue.antt =====
-- Enqueueing is idempotent.
use veillee.Base.{
  ℕ, ◌≡◌, ◌∙◌, not, ◌&&◌, filter, true, false, ◌||◌, inl, inr, List, [], ◌∷◌, arith, ◌==◌, nat_eq,
  list_eq, ==_refl, ==_iff, any, any-append, Bool-cases,
}
use veillee.Base.Text.{Text}
use veillee.Queue.{
  QueueTable, QueueRow, has_job, append_job, enqueue, enqueue_done, delete_job, is_for,
}

any-is_for_same :
    (rid other : Text) (rows : List QueueRow)
    → any (is_for rid) rows ≡ true
    → rid ≡ other
    → any (is_for other) rows ≡ true
any-is_for_same rid other rows h e = rw e at h

pub enqueue-present :
    (now : ℕ) (rid : Text) (t : QueueTable) → has_job rid t ≡ true → enqueue now rid t ≡ (t, false)
unfolding enqueue
enqueue-present now rid t h = rw h

pub has_job-enqueue :
    (now : ℕ) (rid other : Text) (t : QueueTable)
    → has_job other (enqueue now rid t).0 ≡ (rid == other || has_job other t)
unfolding enqueue has_job append_job
has_job-enqueue now rid other t = elim (Bool-cases (any (is_for rid) t.rows)) [
  | inl e ↦ rw e (ground (arith, ==_iff rid other, any-is_for_same rid other t.rows e))
  | inr e ↦ rw (e, any-append) (ground arith)
]

pub enqueue_done-present :
    (now : ℕ) (rid : Text) (t : QueueTable) → has_job rid t ≡ true → enqueue_done now rid t ≡ t
unfolding enqueue_done
enqueue_done-present now rid t h = rw h

pub has_job-enqueue_done :
    (now : ℕ) (rid other : Text) (t : QueueTable)
    → has_job other (enqueue_done now rid t) ≡ (rid == other || has_job other t)
unfolding enqueue_done has_job append_job
has_job-enqueue_done now rid other t = elim (Bool-cases (any (is_for rid) t.rows)) [
  | inl e ↦ rw e (ground (arith, ==_iff rid other, any-is_for_same rid other t.rows e))
  | inr e ↦ rw (e, any-append) (ground arith)
]

-- After `enqueue` exactly the recording and those that had one before have a job. The answer is
-- whether the recording had none, and enqueueing it again, at any later time, creates no job and
-- changes nothing.
enqueue-idempotent :
    (now later : ℕ) (rid : Text) (t : QueueTable)
    → ((other : Text) → has_job other (enqueue now rid t).0 ≡ (rid == other || has_job other t))
      × ((enqueue now rid t).1 ≡ not (has_job rid t))
      × (enqueue later rid (enqueue now rid t).0 ≡ ((enqueue now rid t).0, false))
enqueue-idempotent now later rid t =
    let h : has_job rid (enqueue now rid t).0 ≡ true =
      has_job-enqueue now rid rid t ∙ rw (==_refl rid) in
    (
      λ other. has_job-enqueue now rid other t,
      unfold enqueue in elim (Bool-cases (has_job rid t)) [ inl e ↦ rw e | inr e ↦ rw e ],
      enqueue-present later rid (enqueue now rid t).0 h,
    )

has_job-filter :
    (rid other : Text) (rows : List QueueRow)
    → any (is_for other) (filter (λ r. not (is_for rid r)) rows)
      ≡ (not (rid == other) && any (is_for other) rows)
has_job-filter rid other [] = ground arith
has_job-filter rid other (r ∷ rows) = ground (
  arith,
  ==_iff r.recording_id rid,
  ==_iff r.recording_id other,
  ==_iff rid other,
  has_job-filter rid other rows,
)

-- Deleting a recording's job leaves exactly the jobs of the other recordings.
pub has_job-delete_job :
    (rid other : Text) (t : QueueTable)
    → has_job other (delete_job rid t) ≡ (not (rid == other) && has_job other t)
unfolding delete_job has_job
has_job-delete_job rid other t = has_job-filter rid other t.rows
