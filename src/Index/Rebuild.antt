-- ===== src/Index/Rebuild.antt =====
-- The index comes from the files alone, and rebuilding it again changes nothing.
use veillee.Base.{
  ℕ, ◌≡◌, refl, sym, ap, Bool, true, false, Option, none, some, List, [], ◌∷◌, ◌||◌, ◌==◌, ==_refl,
  nat_eq, list_eq, Outcome, ok, err, Bool-cases, Outcome-cases, inl, inr, arith, subst,
  ok_injective, >>=-eq-ok,
}
use veillee.Base.Text.{Text, codes}
use veillee.Base.Dict.{Dict}
use veillee.Models.{FilePath, Answer, Recording}
use veillee.Values.{Yaml}
use veillee.Disk.{Disk}
use veillee.Answers.{ReadError}
use veillee.Sidecars.{Library, read_sidecar, iter_sidecars}
use veillee.Photographs.{Photograph}
use veillee.Queue.{QueueTable, has_job}
use veillee.Queue.Enqueue.{
  enqueue-present, has_job-enqueue, enqueue_done-present, has_job-enqueue_done,
}
use veillee.Index.{
  Tables, Loaded, Filed, counted, reported, file_job, file_recording, load_files, load_recordings,
  rebuild, clear_index, fill, Connection, begin_immediate, closed, reindex, committed, summed,
  load_answers, load_photographs, skips_sidecar, set_meta, ReindexReport,
}

-- Filing a recording gives it a job and keeps the jobs that were there.
has_job-file_job :
    (now : ℕ) (rid : Text) (transcript : Option FilePath) (q : QueueTable) (other : Text)
    → has_job other (file_job now rid transcript q).0 ≡ (rid == other || has_job other q)
unfolding file_job
has_job-file_job now rid none q other = has_job-enqueue now rid other q
has_job-file_job now rid (some path) q other = has_job-enqueue_done now rid other q

-- Filing one that has a job leaves the queue alone.
file_job-present :
    (now : ℕ) (rid : Text) (transcript : Option FilePath) (q : QueueTable)
    → has_job rid q ≡ true
    → file_job now rid transcript q ≡ (q, false)
unfolding file_job
file_job-present now rid none q h = enqueue-present now rid q h
file_job-present now rid (some path) q h = rw (enqueue_done-present now rid q h) refl

-- The state of a second run, on a given queue: it files the same rows.
abbrev on_queue : QueueTable → ℕ → Filed → Filed
on_queue q n f = record { rows = f.rows; queue = q; queued = n }

abbrev loaded_on : QueueTable → ℕ → Loaded Filed → Loaded Filed
loaded_on q n l = record { table = on_queue q n l.table; count = l.count; problems = l.problems }

module _ (read : FilePath → Outcome ReadError Recording) (skips : ReadError → Bool)
    (now later : ℕ) where
  -- Loading keeps the jobs that were there, and gives each recording that is read one.
  load_files-keeps :
      (paths : List FilePath) (f : Filed) (l : Loaded Filed) (rid : Text)
      → load_files read skips (file_recording now) paths f ≡ ok l
      → has_job rid f.queue ≡ true
      → has_job rid l.table.queue ≡ true
  unfolding load_files file_recording
  load_files-keeps [] f l rid h j = subst (λ x. has_job rid x.table.queue ≡ true) (ok_injective h) j
  load_files-keeps (path ∷ paths) f l rid h j = elim (Outcome-cases (read path)) [
    | inl (r, e) ↦
        let (rest, loaded, same) = >>=-eq-ok _ _ (rw (e, load_files) at h) in
        subst (λ x. has_job rid x.table.queue ≡ true) (ok_injective same)
          (load_files-keeps paths (file_recording now r f) rest rid loaded
            (ground (arith, has_job-file_job now r.recording_id r.transcript_path f.queue rid, j)))
    | inr (x, e) ↦ elim (Bool-cases (skips x)) [
      | inl s ↦
          let (rest, loaded, same) = >>=-eq-ok _ _ (rw (e, load_files, s) at h) in
          subst (λ x. has_job rid x.table.queue ≡ true) (ok_injective same)
            (load_files-keeps paths f rest rid loaded j)
      | inr s ↦ absurd (cc (rw (e, load_files, s) at h))
    ]
  ]

  -- A recording that has a job is filed as its row alone.
  file_recording-present :
      (r : Recording) (f : Filed) (q : QueueTable) (n : ℕ)
      → has_job r.recording_id q ≡ true
      → file_recording later r (on_queue q n f) ≡ on_queue q n (file_recording now r f)
  unfolding file_recording
  file_recording-present r f q n h =
      rw (file_job-present later r.recording_id r.transcript_path q h) refl

  step_read :
      (path : FilePath) (paths : List FilePath) (r : Recording) (f : Filed) (rest : Loaded Filed)
      (q : QueueTable) (n : ℕ)
      → read path ≡ ok r
      → has_job r.recording_id q ≡ true
      → load_files read skips (file_recording later) paths (on_queue q n (file_recording now r f))
        ≡ ok (loaded_on q n rest)
      → load_files read skips (file_recording later) (path ∷ paths) (on_queue q n f)
        ≡ ok (loaded_on q n (counted rest))
  unfolding load_files
  step_read path paths r f rest q n e h again =
      rw (e, load_files, file_recording-present r f q n h, again) refl

  step_skip :
      (path : FilePath) (paths : List FilePath) (x : ReadError) (f : Filed) (rest : Loaded Filed)
      (q : QueueTable) (n : ℕ)
      → read path ≡ err x
      → skips x ≡ true
      → load_files read skips (file_recording later) paths (on_queue q n f)
        ≡ ok (loaded_on q n rest)
      → load_files read skips (file_recording later) (path ∷ paths) (on_queue q n f)
        ≡ ok (loaded_on q n (reported path rest))
  unfolding load_files
  step_skip path paths x f rest q n e s again = rw (e, load_files, s, again) refl

  covers_rest :
      (q : QueueTable) (a b : Loaded Filed)
      → a.table ≡ b.table
      → ((rid : Text) → has_job rid b.table.queue ≡ true → has_job rid q ≡ true)
      → (rid : Text) → has_job rid a.table.queue ≡ true
      → has_job rid q ≡ true
  covers_rest q a b e covers =
      subst (λ x. (rid : Text) → has_job rid x.queue ≡ true → has_job rid q ≡ true) (sym e) covers

  -- On a queue with a job for each recording that the first run filed, a second run files the same
  -- rows and leaves the queue alone.
  load_files-again :
      (paths : List FilePath) (f : Filed) (l : Loaded Filed) (q : QueueTable) (n : ℕ)
      → load_files read skips (file_recording now) paths f ≡ ok l
      → ((rid : Text) → has_job rid l.table.queue ≡ true → has_job rid q ≡ true)
      → load_files read skips (file_recording later) paths (on_queue q n f) ≡ ok (loaded_on q n l)
  unfolding load_files file_recording
  load_files-again [] f l q n h covers = ap (λ x. ok (loaded_on q n x)) (ok_injective h)
  load_files-again (path ∷ paths) f l q n h covers = elim (Outcome-cases (read path)) [
    | inl (r, e) ↦
        let (rest, loaded, same) = >>=-eq-ok _ _ (rw (e, load_files) at h) in
        let covered = covers_rest q rest l (ap (λ x. x.table) (ok_injective same)) covers in
        let there : has_job r.recording_id rest.table.queue ≡ true =
          load_files-keeps paths (file_recording now r f) rest r.recording_id loaded (
            ground (
              arith,
              has_job-file_job now r.recording_id r.transcript_path f.queue r.recording_id,
              ==_refl r.recording_id,
            )) in
        subst
          (λ x.
            load_files read skips (file_recording later) (path ∷ paths) (on_queue q n f)
            ≡ ok (loaded_on q n x))
          (ok_injective same)
          (step_read path paths r f rest q n e (covered r.recording_id there)
            (load_files-again paths (file_recording now r f) rest q n loaded covered))
    | inr (x, e) ↦ elim (Bool-cases (skips x)) [
      | inl s ↦
          let (rest, loaded, same) = >>=-eq-ok _ _ (rw (e, load_files, s) at h) in
          let covered = covers_rest q rest l (ap (λ x. x.table) (ok_injective same)) covers in
          subst
            (λ x.
              load_files read skips (file_recording later) (path ∷ paths) (on_queue q n f)
              ≡ ok (loaded_on q n x))
            (ok_injective same)
            (step_skip path paths x f rest q n e s
              (load_files-again paths f rest q n loaded covered))
      | inr s ↦ absurd (cc (rw (e, load_files, s) at h))
    ]
  ]

load_recordings-again :
    (lib : Library) (yaml : Yaml) (now later : ℕ) (disk : Disk) (queue : QueueTable)
    (l : Loaded Filed)
    → load_recordings lib yaml now disk [] queue ≡ ok l
    → load_recordings lib yaml later disk [] l.table.queue ≡ ok (loaded_on l.table.queue 0 l)
unfolding load_recordings
load_recordings-again lib yaml now later disk queue l h =
    load_files-again (λ p. read_sidecar lib yaml p disk) skips_sidecar now later
      (iter_sidecars disk) (record { rows = []; queue = queue; queued = 0 }) l l.table.queue 0 h
      (λ rid j. j)

rebuild_with :
    (lib : Library) (yaml : Yaml) (later : ℕ) (stamp later_stamp : Text) (disk : Disk)
    (meta : Dict Text Text) (answers : Loaded (Dict Text Answer)) (recordings : Loaded Filed)
    (photographs : Loaded (Dict Text Photograph))
    → load_answers yaml disk [] ≡ ok answers
    → load_photographs lib yaml disk [] ≡ ok photographs
    → load_recordings lib yaml later disk [] recordings.table.queue
      ≡ ok (loaded_on recordings.table.queue 0 recordings)
    → rebuild lib yaml later later_stamp disk (summed stamp meta answers recordings photographs).0
      ≡ ok (
          summed later_stamp
            (set_meta (codes "last_reindex") stamp meta)
            answers
            (loaded_on recordings.table.queue 0 recordings)
            photographs)
unfolding rebuild clear_index fill
rebuild_with lib yaml later stamp later_stamp disk meta answers recordings photographs a p again =
    rw (a, again, p) refl

-- Rebuilding the index on the tables that a rebuild has left gives the same tables, but for the stamp,
-- and the same report, with nothing queued. That holds at any later time, while the files stay as they
-- are.
pub rebuild-again :
    (lib : Library) (yaml : Yaml) (now later : ℕ) (stamp later_stamp : Text) (disk : Disk)
    (old t : Tables) (report : ReindexReport)
    → rebuild lib yaml now stamp disk old ≡ ok (t, report)
    → rebuild lib yaml later later_stamp disk t
      ≡ ok (
        record t { meta = set_meta (codes "last_reindex") later_stamp t.meta },
        record report { queued = 0 },
      )
unfolding rebuild clear_index fill
rebuild-again lib yaml now later stamp later_stamp disk old t report h =
    let (answers, a, h1) = >>=-eq-ok (load_answers yaml disk []) _ h in
    let (recordings, r, h2) = >>=-eq-ok (load_recordings lib yaml now disk [] old.queue) _ h1 in
    let (photographs, p, h3) = >>=-eq-ok (load_photographs lib yaml disk []) _ h2 in
    subst
      (λ x.
        rebuild lib yaml later later_stamp disk x.0
        ≡ ok (
          record x.0 { meta = set_meta (codes "last_reindex") later_stamp x.0.meta },
          record x.1 { queued = 0 },
        ))
      (ok_injective h3)
      (rebuild_with lib yaml later stamp later_stamp disk old.meta answers recordings photographs a
        p (load_recordings-again lib yaml now later disk old.queue recordings r))

closed-committed :
    (c d : Connection) (o : Outcome ReadError (Tables × ReindexReport)) (report : ReindexReport)
    → (closed (committed c o)).1 ≡ ok report
    → closed (committed d o) ≡ closed (committed c o)
unfolding committed
closed-committed c d (ok (rebuilt, made)) report h = refl
closed-committed c d (err e) report h = absurd (cc h)

-- A rebuild of the index that succeeds makes it from the files, and of the old index from the queue and
-- the metadata alone: whatever rows the three other tables held, it ends in the same index and report.
pub reindex-from_files :
    (lib : Library) (yaml : Yaml) (now : ℕ) (stamp : Text) (disk : Disk) (t : Tables)
    (answers : Dict Text Answer) (recordings : Dict Text Recording)
    (photographs : Dict Text Photograph) (report : ReindexReport)
    → (reindex lib yaml now stamp disk t).1 ≡ ok report
    → reindex lib yaml now stamp disk
        (record t { answers = answers; recordings = recordings; photographs = photographs })
      ≡ reindex lib yaml now stamp disk t
unfolding reindex rebuild clear_index
reindex-from_files lib yaml now stamp disk t answers recordings photographs report =
    closed-committed (begin_immediate (record { tables = t; journal = none }))
      (begin_immediate (record {
        tables = record t { answers = answers; recordings = recordings; photographs = photographs };
        journal = none;
      }))
      (rebuild lib yaml now stamp disk t) report
