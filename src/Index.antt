-- ===== src/Index.antt =====
-- index.py, with the tables of db.py: the index, and its rebuilding from the files. A table is a
-- dictionary by its primary key. Logging is left out.
pub mod Rebuild
mod Tests
use veillee.Base.{
  ℕ, suc, Bool, true, false, Option, none, some, List, [], ◌∷◌, ◌++◌, if◌then◌else◌, ◌==◌, nat_eq,
  list_eq, Outcome, ok, err, ◌>>=◌, ◌>>◌,
}
use veillee.Base.Text.{Text, codes}
use veillee.Base.Dict.{Dict, lookup, insert}
use veillee.Models.{FilePath, Answer, Recording}
use veillee.Values.{Yaml}
use veillee.Disk.{Disk, is_some}
use veillee.Answers.{
  ReadError, frontmatter_error, os_error, value_error, key_error, read_answer, iter_answer_files,
}
use veillee.Sidecars.{Library, read_sidecar, iter_sidecars}
use veillee.Photographs.{Photograph, read_photograph, iter_photographs}
use veillee.Queue.{QueueTable, enqueue, enqueue_done}

pub record Tables : Type 0 where
  pub answers : Dict Text Answer
  pub recordings : Dict Text Recording
  pub photographs : Dict Text Photograph
  pub queue : QueueTable
  pub meta : Dict Text Text

unfoldable pub upsert_answer : Answer → Dict Text Answer → Dict Text Answer
upsert_answer a rows = insert a.question_id a rows

unfoldable pub upsert_recording : Recording → Dict Text Recording → Dict Text Recording
upsert_recording r rows = insert r.recording_id r rows

unfoldable pub upsert_photograph : Photograph → Dict Text Photograph → Dict Text Photograph
upsert_photograph p rows = insert p.photo_id p rows

unfoldable pub set_meta : Text → Text → Dict Text Text → Dict Text Text
set_meta key value meta = insert key value meta

unfoldable pub get_meta : Text → Text → Dict Text Text → Text
get_meta key default meta = elim (lookup key meta) [ none ↦ default | some v ↦ v ]

-- `except (FrontmatterError, OSError, ValueError)`
abbrev pub skips_answer : ReadError → Bool
skips_answer (frontmatter_error e) = true
skips_answer os_error = true
skips_answer value_error = true
skips_answer e = false

-- `except (OSError, ValueError, KeyError)`; a FrontmatterError is a ValueError.
abbrev pub skips_sidecar : ReadError → Bool
skips_sidecar key_error = true
skips_sidecar e = skips_answer e

-- A table, how many rows were loaded, and the files that could not be read.
pub record Loaded {ℓ} (T : Type ℓ) : Type ℓ where
  pub table : T
  pub count : ℕ
  pub problems : List FilePath

-- What a file that was read, or one that was skipped, adds to what the files after it give.
abbrev pub counted {ℓ} : {T : Type ℓ} → Loaded T → Loaded T
counted l = record { table = l.table; count = suc l.count; problems = l.problems }

abbrev pub reported {ℓ} : {T : Type ℓ} → FilePath → Loaded T → Loaded T
reported path l = record { table = l.table; count = l.count; problems = path ∷ l.problems }

module _ {ℓ κ} {T : Type ℓ} {A : Type κ} (read : FilePath → Outcome ReadError A)
    (skips : ReadError → Bool) (upsert : A → T → T) where
  -- The loop of `_load_answers` and of `_load_photographs`.
  pub load_files : List FilePath → T → Outcome ReadError (Loaded T)
  load_files [] table = ok (record { table = table; count = 0; problems = [] })
  load_files (path ∷ paths) table = elim (read path) [
    | ok a ↦ do rest ← load_files paths (upsert a table); ok (counted rest)
    | err e ↦ elim (skips e) [
      | false ↦ err e
      | true ↦ do rest ← load_files paths table; ok (reported path rest)
    ]
  ]

unfoldable pub load_answers :
    Yaml → Disk → Dict Text Answer → Outcome ReadError (Loaded (Dict Text Answer))
unfolding load_files upsert_answer
load_answers yaml disk rows =
    load_files (λ p. read_answer yaml p disk) skips_answer upsert_answer (iter_answer_files disk)
      rows

unfoldable pub load_photographs :
    Library → Yaml → Disk → Dict Text Photograph → Outcome ReadError (Loaded (Dict Text Photograph))
unfolding load_files upsert_photograph
load_photographs lib yaml disk rows =
    load_files (λ p. read_photograph lib yaml p disk) skips_sidecar upsert_photograph
      (iter_photographs disk) rows

-- The recordings' table and the queue, with the number of jobs added.
pub record Filed : Type 0 where
  pub rows : Dict Text Recording
  pub queue : QueueTable
  pub queued : ℕ

abbrev pub add_one : Bool → ℕ → ℕ
add_one b n = if b then suc n else n

-- The job of a recording: done where it has a transcript, which is not counted as queued.
unfoldable pub file_job : ℕ → Text → Option FilePath → QueueTable → QueueTable × Bool
file_job now rid (some path) queue = (enqueue_done now rid queue, false)
file_job now rid none queue = enqueue now rid queue

unfoldable pub file_recording : ℕ → Recording → Filed → Filed
unfolding file_job
file_recording now r f =
    let (queue, added) = file_job now r.recording_id r.transcript_path f.queue in
    record { rows = upsert_recording r f.rows; queue = queue; queued = add_one added f.queued }

unfoldable pub load_recordings :
    Library → Yaml → ℕ → Disk → Dict Text Recording → QueueTable → Outcome ReadError (Loaded Filed)
unfolding load_files file_recording upsert_recording
load_recordings lib yaml now disk rows queue =
    load_files (λ p. read_sidecar lib yaml p disk) skips_sidecar (file_recording now)
      (iter_sidecars disk) (record { rows = rows; queue = queue; queued = 0 })

pub record ReindexReport : Type 0 where
  pub answers : ℕ
  pub recordings : ℕ
  pub photographs : ℕ
  pub queued : ℕ
  pub problems : List FilePath

abbrev pub summed :
    Text
    → Dict Text Text
    → Loaded (Dict Text Answer)
    → Loaded Filed
    → Loaded (Dict Text Photograph)
    → Tables × ReindexReport
summed stamp meta answers recordings photographs = (
  record {
    answers = answers.table;
    recordings = recordings.table.rows;
    photographs = photographs.table;
    queue = recordings.table.queue;
    meta = set_meta (codes "last_reindex") stamp meta;
  },
  record {
    answers = answers.count;
    recordings = recordings.count;
    photographs = photographs.count;
    queued = recordings.table.queued;
    problems = answers.problems ++ (recordings.problems ++ photographs.problems);
  },
)

-- The three DELETE statements.
unfoldable pub clear_index : Tables → Tables
clear_index t = record t { answers = []; recordings = []; photographs = [] }

-- The loading that follows them.
unfoldable pub fill :
    Library → Yaml → ℕ → Text → Disk → Tables → Outcome ReadError (Tables × ReindexReport)
unfolding load_answers load_recordings load_photographs set_meta
fill lib yaml now stamp disk t = do
  answers ← load_answers yaml disk t.answers
  recordings ← load_recordings lib yaml now disk t.recordings t.queue
  photographs ← load_photographs lib yaml disk t.photographs
  ok (summed stamp t.meta answers recordings photographs)

-- What the transaction of `reindex` does before its COMMIT.
unfoldable pub rebuild :
    Library → Yaml → ℕ → Text → Disk → Tables → Outcome ReadError (Tables × ReindexReport)
unfolding clear_index fill
rebuild lib yaml now stamp disk t = fill lib yaml now stamp disk (clear_index t)

-- A connection: the tables as its statements see them, and what ROLLBACK goes back to in a transaction.
pub record Connection : Type 0 where
  pub tables : Tables
  pub journal : Option Tables

abbrev pub begin_immediate : Connection → Connection
begin_immediate c = record c { journal = some c.tables }

abbrev pub rollback : Connection → Connection
rollback c = elim c.journal [ none ↦ c | some t ↦ record { tables = t; journal = none } ]

-- COMMIT with the rebuilt tables, or ROLLBACK and raise again, which undoes all that was changed.
unfoldable pub committed :
    Connection
    → Outcome ReadError (Tables × ReindexReport)
    → Connection × Outcome ReadError ReindexReport
committed c (ok (rebuilt, report)) = (record { tables = rebuilt; journal = none }, ok report)
committed c (err e) = (rollback c, err e)

-- What is in the index after the connection is closed, and the report.
abbrev pub closed :
    Connection × Outcome ReadError ReindexReport → Tables × Outcome ReadError ReindexReport
closed (c, result) = (c.tables, result)

unfoldable pub reindex :
    Library → Yaml → ℕ → Text → Disk → Tables → Tables × Outcome ReadError ReindexReport
unfolding rebuild committed
reindex lib yaml now stamp disk t =
    let c = begin_immediate (record { tables = t; journal = none }) in
    closed (committed c (rebuild lib yaml now stamp disk c.tables))
