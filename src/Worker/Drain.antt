-- ===== src/Worker/Drain.antt =====
-- How many jobs the loop of worker.py can handle before it has nothing to do.
use veillee.Base.{
  ℕ, ◌≢◌, ◌&&◌, ◌||◌, ◌+◌, ◌≤◌, ◌<◌, ◌≡◌, ◌∙◌, sym, ap, subst, refl, Bool, true, false, Option,
  none, some, List, [], ◌∷◌, arith, nat_eq, list_eq, inl, inr, ◌⊎◌, Bool-cases, any, Outcome, ok,
  err, count_if, length, if◌then◌else◌,
}
use veillee.Base.Text.{Text, codes}
use veillee.Models.{Recording}
use veillee.Disk.{Disk}
use veillee.Queue.{QueueTable, QueueJob, claim_next, complete, fail, set_running}
use veillee.Queue.Load.{load, claim_next-load, claim_next-none, complete-load, fail-load}
use veillee.Queue.Invariant.{
  IsValid, claim_next-IsValid, claim_next-has_room, complete-IsValid, fail-IsValid,
}
use veillee.Ingest.{World}
use veillee.Transcripts.{TranscribeError, failed, uncaught, Transcription}
use veillee.Worker.{
  Setup, Circumstances, Turn, idle, worked, backed_off, stopped, at_claim, at_lookup, at_update,
  at_settling, queue_error, cut_off, dies, succeeds, Database, works, claim_raises, lookup_raises,
  update_raises, settling_raises, JobEnd, returned, killed, raised_other, raised, transcript_filed,
  heard_out, transcribe_job, settle, handle_job, handle_found, run_claimed, run_once, goes_on, loop,
}

abbrev pub is_worked : Turn → Bool
is_worked worked = true
is_worked turn = false

abbrev pub is_rest : Turn → Bool
is_rest idle = true
is_rest stopped = true
is_rest turn = false

abbrev pub is_backed_off : Turn → Bool
is_backed_off backed_off = true
is_backed_off turn = false

abbrev pub fails : Database → Bool
fails works = false
fails d = true

fails_somewhere :
    (d : Database) → (at_claim d || at_lookup d || at_update d || at_settling d) ≡ fails d
fails_somewhere works = refl
fails_somewhere claim_raises = refl
fails_somewhere lookup_raises = refl
fails_somewhere update_raises = refl
fails_somewhere settling_raises = refl

never_queue_error : (died : Bool) → cut_off died ≢ queue_error
never_queue_error true h = cc h
never_queue_error false h = cc h

module _ (setup : Setup) (c : Circumstances) where
  filed-fails :
      (rid : Text) (w : World) (written : Disk × Bool)
      → (transcript_filed setup c rid w written).1 ≡ queue_error
      → fails c.database ≡ true
  filed-fails rid w (disk, false) h = absurd (
      never_queue_error
        (dies c.writes.first_fate || (succeeds c.writes.first_fate && dies c.writes.second_fate)) h)
  filed-fails rid w (disk, true) h = elim (Bool-cases (at_update c.database)) [
    | inl e ↦ ground (arith, fails_somewhere c.database)
    | inr n ↦ absurd (cc (rw n at h))
  ]

  heard_out-fails :
      (rid : Text) (r : Recording) (w : World) (o : Outcome TranscribeError Transcription)
      → (heard_out setup c rid r w o).1 ≡ queue_error
      → fails c.database ≡ true
  heard_out-fails rid r w (err (failed e)) h = absurd (cc h)
  heard_out-fails rid r w (err (uncaught e)) h = absurd (cc h)
  heard_out-fails rid r w (ok t) h = filed-fails rid w _ h

  filed-queue :
      (rid : Text) (w : World) (written : Disk × Bool)
      → (transcript_filed setup c rid w written).0.tables.queue ≡ w.tables.queue
  filed-queue rid w (disk, false) = refl
  filed-queue rid w (disk, true) = elim (Bool-cases (at_update c.database)) [
    | inl e ↦ rw e refl
    | inr n ↦ rw n refl
  ]

  heard_out-queue :
      (rid : Text) (r : Recording) (w : World) (o : Outcome TranscribeError Transcription)
      → (heard_out setup c rid r w o).0.tables.queue ≡ w.tables.queue
  heard_out-queue rid r w (err (failed e)) = refl
  heard_out-queue rid r w (err (uncaught e)) = refl
  heard_out-queue rid r w (ok t) = filed-queue rid w _

  -- What a turn may do to the queue, for the job that it claimed.
  abbrev Handled : QueueJob → QueueTable → QueueTable → Turn → Type 0
  Handled job q after turn =
      ((turn ≡ worked) × (after ≡ complete c.now job.id q))
      ⊎ (((error : Text) × (turn ≡ worked)
            × (after ≡ (fail c.now job error setup.max_attempts q).0))
          ⊎ ((is_worked turn ≡ false)
              × (after ≡ q)
              × (is_backed_off turn ≡ true → fails c.database ≡ true)))

  settle-Handled :
      (job : QueueJob) (q : QueueTable) (end : World × JobEnd)
      → end.0.tables.queue ≡ q
      → (end.1 ≡ queue_error → fails c.database ≡ true)
      → (let (w, turn) = settle setup c job end in Handled job q w.tables.queue turn)
  unfolding settle
  settle-Handled job q (w, returned) same because = elim (Bool-cases (at_settling c.database)) [
    | inl e ↦ rw e (inr (inr (refl, same, λ k. ground (arith, fails_somewhere c.database))))
    | inr n ↦ rw n (inl (refl, rw same refl))
  ]
  settle-Handled job q (w, raised error) same because = elim (Bool-cases (at_settling c.database)) [
    | inl e ↦ rw e (inr (inr (refl, same, λ k. ground (arith, fails_somewhere c.database))))
    | inr n ↦ rw n (inr (inl (error, refl, rw same refl)))
  ]
  settle-Handled job q (w, queue_error) same because = inr (inr (refl, same, λ k. because refl))
  settle-Handled job q (w, killed) same because = inr (inr (refl, same, λ k. absurd (cc k)))
  settle-Handled job q (w, raised_other) same because = inr (inr (refl, same, λ k. absurd (cc k)))

  handle_found-Handled :
      (job : QueueJob) (w : World) (o : Option Recording)
      → (let (after, turn) = handle_found setup c job w o in
          Handled job w.tables.queue after.tables.queue turn)
  unfolding handle_found transcribe_job
  handle_found-Handled job w none =
      settle-Handled job w.tables.queue (w, raised (codes "recording is not in the index")) refl
        (λ k. absurd (cc k))
  handle_found-Handled job w (some r) =
      settle-Handled job w.tables.queue (transcribe_job setup c job.recording_id r w)
        (heard_out-queue job.recording_id r w _) (heard_out-fails job.recording_id r w _)

  handle_job-Handled :
      (job : QueueJob) (w : World)
      → (let (after, turn) = handle_job setup c job w in
          Handled job w.tables.queue after.tables.queue turn)
  unfolding handle_job
  handle_job-Handled job w = elim (Bool-cases (at_lookup c.database)) [
    | inl e ↦ rw e (inr (inr (refl, refl, λ k. ground (arith, fails_somewhere c.database))))
    | inr n ↦ rw n (handle_found-Handled job w _)
  ]

  module _ (room : 0 < setup.max_attempts) where
    -- What the loop keeps and what a turn costs: the table stays valid, and a turn that handles a
    -- job takes at least one of the attempts that are left.
    abbrev Spends : QueueTable → QueueTable → Turn → Type 0
    Spends q after turn =
        IsValid setup.max_attempts after
        × (load setup.max_attempts after.rows + (if is_worked turn then 1 else 0)
            ≤ load setup.max_attempts q.rows)
        × (is_backed_off turn ≡ true → fails c.database ≡ true)

    Handled-Spends :
        (q : QueueTable) (job : QueueJob) (after : QueueTable) (turn : Turn)
        → IsValid setup.max_attempts q
        → (claim_next c.now q).1 ≡ some job
        → Handled job (claim_next c.now q).0 after turn
        → Spends q after turn
    Handled-Spends q job after turn v e how =
        let limit = setup.max_attempts in
        let claimed : IsValid limit (claim_next c.now q).0 =
          claim_next-IsValid limit room c.now q v in
        let left : job.attempts < limit = claim_next-has_room limit room c.now q job v e in
        let (r, found, less) = claim_next-load limit c.now q job v e in
        let completed =
          complete-load limit c.now (claim_next c.now q).0 job (set_running c.now r) claimed.ids
            found in
        elim how [
          | inl (work, done) ↦ (
            rw done (complete-IsValid limit room c.now job.id _ claimed),
            rw (work, done) (omega (arith, left, less, completed)),
            rw work (λ k. absurd (cc k)),
          )
          | inr (inl (error, work, done)) ↦ (
            rw done (fail-IsValid limit room c.now job error _ left claimed),
            rw (work, done)
                (omega (
                  arith,
                  left,
                  less,
                  fail-load limit c.now (claim_next c.now q).0 job (set_running c.now r) error
                      claimed.ids found,
                )),
            rw work (λ k. absurd (cc k)),
          )
          | inr (inr (stop, same, because)) ↦
              (rw same claimed, rw (stop, same) (omega (arith, left, less)), because)
        ]

    run_claimed-Spends :
        (q : QueueTable) (w : World) (o : Option QueueJob)
        → IsValid setup.max_attempts q
        → (claim_next c.now q).0 ≡ w.tables.queue
        → (claim_next c.now q).1 ≡ o
        → (let (after, turn) = run_claimed setup c w o in Spends q after.tables.queue turn)
    unfolding run_claimed handle_job
    run_claimed-Spends q w none v same e =
        let kept : w.tables.queue ≡ q = sym same ∙ claim_next-none c.now q e in
        (
          subst (IsValid setup.max_attempts) (sym kept) v,
          omega (arith, ap (λ x. load setup.max_attempts x.rows) kept),
          λ k. absurd (cc k),
        )
    run_claimed-Spends q w (some job) v same e = Handled-Spends q job _ _ v e (
        subst
          (λ x.
            let (after, turn) = handle_job setup c job w in Handled job x after.tables.queue turn)
          (sym same) (handle_job-Handled job w))

    run_once-Spends :
        (w : World)
        → IsValid setup.max_attempts w.tables.queue
        → (let (after, turn) = run_once setup c w in Spends w.tables.queue after.tables.queue turn)
    unfolding run_once
    run_once-Spends w v = elim (Bool-cases (at_claim c.database)) [
      | inl e ↦ rw e (v, omega arith, λ k. ground (arith, fails_somewhere c.database))
      | inr n ↦ rw n (run_claimed-Spends w.tables.queue _ _ v refl refl)
    ]

-- The turns in which a job was handled or the database failed.
abbrev pub busy : List Turn → ℕ
busy turns = count_if is_worked turns + count_if is_backed_off turns

abbrev pub turns_of : World × List Turn → List Turn
turns_of (w, turns) = turns

module _ (setup : Setup) (room : 0 < setup.max_attempts) where
  goes_on-worked :
      (rest : World → World × List Turn) (w : World) (turn : Turn)
      → count_if is_worked (turns_of (goes_on setup rest (w, turn)))
        ≤ (if is_worked turn then 1 else 0) + count_if is_worked (turns_of (rest w))
  goes_on-worked rest w idle = omega arith
  goes_on-worked rest w worked = omega arith
  goes_on-worked rest w backed_off = omega arith
  goes_on-worked rest w stopped = omega arith

  goes_on-length :
      (rest : World → World × List Turn) (w : World) (turn : Turn)
      → any is_rest (turns_of (goes_on setup rest (w, turn))) ≡ false
      → (any is_rest (turns_of (rest w)) ≡ false)
        × (busy (turns_of (goes_on setup rest (w, turn))) ≡ 1 + busy (turns_of (rest w)))
  goes_on-length rest w idle h = absurd (cc h)
  goes_on-length rest w worked h = (h, omega arith)
  goes_on-length rest w backed_off h = (h, omega arith)
  goes_on-length rest w stopped h = absurd (cc h)

  -- However the clock runs and whatever fails, the loop of a worker handles at most as many jobs as
  -- the waiting jobs have attempts left, in a valid table with a limit of at least one attempt that no
  -- other process changes between the turns.
  pub loop-terminates :
      (cs : List Circumstances) (w : World)
      → IsValid setup.max_attempts w.tables.queue
      → count_if is_worked (turns_of (loop setup cs w))
        ≤ load setup.max_attempts w.tables.queue.rows
  unfolding loop
  loop-terminates [] w v = omega arith
  loop-terminates (c ∷ cs) w v =
      let (next, turn) = run_once setup c w in
      let (kept, spent, because) = run_once-Spends setup c room w v in
      omega (arith, spent, goes_on-worked (loop setup cs) next turn, loop-terminates cs next kept)

  all_worked :
      (cs : List Circumstances) (w : World)
      → any is_rest (turns_of (loop setup cs w)) ≡ false
      → busy (turns_of (loop setup cs w)) ≡ length cs
  unfolding loop
  all_worked [] w h = refl
  all_worked (c ∷ cs) w h =
      let (next, turn) = run_once setup c w in
      let (rest, one) = goes_on-length (loop setup cs) next turn h in
      omega (arith, one, all_worked cs next rest)

  goes_on-backed_off :
      (rest : World → World × List Turn) (w : World) (turn : Turn) (d : Database)
      → (is_backed_off turn ≡ true → fails d ≡ true)
      → count_if is_backed_off (turns_of (goes_on setup rest (w, turn)))
        ≤ (if fails d then 1 else 0) + count_if is_backed_off (turns_of (rest w))
  goes_on-backed_off rest w idle d because = ground arith
  goes_on-backed_off rest w worked d because = ground arith
  goes_on-backed_off rest w stopped d because = ground arith
  goes_on-backed_off rest w backed_off d because = rw (because refl) (omega arith)

  loop-backed_off :
      (cs : List Circumstances) (w : World)
      → IsValid setup.max_attempts w.tables.queue
      → count_if is_backed_off (turns_of (loop setup cs w))
        ≤ count_if (λ (c : Circumstances). fails c.database) cs
  unfolding loop
  loop-backed_off [] w v = omega arith
  loop-backed_off (c ∷ cs) w v =
      let (next, turn) = run_once setup c w in
      let (kept, spent, because) = run_once-Spends setup c room w v in
      ground (
        arith,
        goes_on-backed_off (loop setup cs) next turn c.database because,
        loop-backed_off cs next kept,
      )

  -- A worker that has more turns than the waiting jobs have attempts left, the turns in which the
  -- database fails not counted, comes to a turn in which no job is due, or to its end. No other process
  -- changes the tables between the turns.
  pub loop-reaches_rest :
      (cs : List Circumstances) (w : World)
      → IsValid setup.max_attempts w.tables.queue
      → load setup.max_attempts w.tables.queue.rows
          + count_if (λ (c : Circumstances). fails c.database) cs
        < length cs
      → any is_rest (turns_of (loop setup cs w)) ≡ true
  loop-reaches_rest cs w v enough = elim (Bool-cases (any is_rest (turns_of (loop setup cs w)))) [
    | inl h ↦ h
    | inr h ↦
        absurd
          (omega (arith, all_worked cs w h, loop-terminates cs w v, loop-backed_off cs w v, enough))
  ]
