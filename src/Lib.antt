-- ===== src/Lib.antt =====
-- Veillee: a private web application in which a grandfather answers questions about his life, by
-- writing and by recording. Everything he gives is kept in files below a data directory; an SQLite
-- index of them can be rebuilt at any time; a worker transcribes the recordings from a queue.
--
-- The files and the code that they model:
--   Models      src/veillee/models.py: the records.
--   Queue       src/veillee/queue.py and the transcription_queue table of src/veillee/db.py: enqueue,
--               requeue, recover_stale, claim_next, complete, fail, depth. Queue/System puts the
--               operations, several workers and their deaths together as steps, and
--               Queue/Promise relates them to a specification by the recordings alone.
--   Auth        src/veillee/web/auth.py and passcode_gate of src/veillee/web/app.py.
--   Paths       src/veillee/storage/paths.py: slugs, ids, stamps, counting words.
--   Values      what Python's str, int, bool and dict.get make of YAML and JSON values.
--   Questions   src/veillee/questions.py: load_bank, next_custom_id, append_custom_question.
--   Frontmatter src/veillee/storage/frontmatter.py: dumps and loads.
--   Disk        the files below the data directory (src/veillee/config.py names its parts), and
--               atomic_write of src/veillee/storage/answers.py with the ways in which it may end.
--   Answers     src/veillee/storage/answers.py: write_answer, read_answer, load_answer, revisions, trash.
--   Sidecars    src/veillee/storage/audio.py: paths, write_sidecar, read_sidecar, verify_recording.
--   Photographs src/veillee/storage/photos.py: paths, read_sidecar, verify_photograph.
--   Index       src/veillee/index.py over the tables of src/veillee/db.py: upserts and reindex.
--   Repository  src/veillee/repository.py: the queries of the pages.
--   Ingest      ingest_recording of src/veillee/ingest.py, and in Ingest/Photos ingest_photograph.
--   Uploads     the chunked uploads of src/veillee/ingest.py.
--   Transcripts src/veillee/transcribe.py: the two backends, the rendering of a draft and its writes; in
--               Transcripts/Spoken the spoken punctuation.
--   Worker      src/veillee/worker.py: _transcribe_job, run_once and the loop of run.
--   Web         src/veillee/web: what the handlers share; below it Audio, Photos, Admin and Pages, each the
--               handlers of one of the files routes_audio.py, routes_photos.py, routes_admin.py and
--               routes_pages.py (with the rest of routes_answers.py).
--   Git         src/veillee/storage/gitrepo.py: the commits of the data directory and their status.
--   Refile      src/veillee/reassign.py: move_recording.
--   Export      src/veillee/export.py: the book and the manifest; in Export/Site the page and the copies, in
--               Export/Manifest the verification.
--   Archive     the handlers that write to the data directory or clear it, put together as steps.
--   Transcode   src/veillee/transcode.py.  Health: routes_health.py.  Config: src/veillee/config.py.
--   Templates   the filters of src/veillee/web/templating.py.  Cli: the exit codes of src/veillee/cli.py.
--   Samples     data that several examples share.
--   Base        shared lists, texts, dictionaries, decimals, sorting and errors.
--   Saving      save_answer, skip_question, come_back_later and _after of
--               src/veillee/web/routes_answers.py, _next_question of src/veillee/web/routes_pages.py.
-- Each part's lemmas stand in files below it, and its concrete examples in its file Tests.
--
-- How the parts meet: an answer is a Frontmatter text that Answers puts on the Disk by atomic_write;
-- Ingest puts a recording's files and its sidecar there, a row into the Index and a job into the
-- Queue; Worker takes jobs from the Queue; Index reads all of it back; Repository queries the Index
-- together with the bank of Questions; Auth decides which request reaches a handler; Saving and Web
-- are the handlers, which write to the disk and then to the index; Worker turns a recording's FLAC file
-- into the two files of Transcripts; Export copies it all into a folder that Export/Manifest checks.
--
-- State is passed explicitly: a Disk is a dictionary from paths to contents, the Tables are
-- dictionaries by primary key. A Python exception is the `err` of an Outcome. Numbers are natural, and
-- max(0, n) is their subtraction. A text is its code points, so that encoding is not modelled. A
-- moment of the clock is an argument, as is the name of a temporary file.
--
-- Parameters, which are code that is not the program's: PyYAML (`Yaml`), JSON and SHA-256 (`Library`),
-- itsdangerous (`Signer`), Unicode's NFKD, ffmpeg (`Audio` in
-- Ingest, `Tools` in Transcode), Pillow (`Pillow`), the speech model and its HTTP service (`Speech`),
-- Unicode's letters (`Letters`, `lower`), git (`Git`), the environment (`Environment`), strptime.
--
-- Fuel: `decimal` has one unit more than the number, and a number has no more digits than that
-- (`value_from-pad` reads every printed number back). Every other recursion is structural.
--
-- The loop of the worker has one turn for each of the circumstances that it is given, with the clock, the
-- speech model, the database and the writes of that turn, so that every finite part of a run in which
-- no other process changes the tables is an instance. Queue/Load counts what bounds its work.
--
-- Not modelled: the application's wiring, the server and the parser of arguments, how templates lay out a
-- page, static files, logging, sleeping, signals, SQLite's errors but in the worker's loop, and file permissions; directories
-- without a file; the bytes of a file that a plain write or copy leaves when it fails. Negative numbers
-- and fractions in YAML and JSON are left out: durations are in milliseconds. JSON and YAML, which read
-- all line ends alike, are given the text of a file as it stands; frontmatter is given it with the line
-- ends of `read_text`. The white space of the spoken
-- punctuation is what `is_space` takes.
pub mod Base
pub mod Models
pub mod Queue
pub mod Auth
pub mod Paths
pub mod Values
pub mod Questions
pub mod Frontmatter
pub mod Disk
pub mod Answers
pub mod Sidecars
pub mod Photographs
pub mod Index
pub mod Repository
pub mod Ingest
pub mod Uploads
pub mod Transcripts
pub mod Web
pub mod Git
pub mod Refile
pub mod Export
pub mod Config
pub mod Templates
pub mod Archive
pub mod Transcode
pub mod Health
pub mod Cli
pub mod Worker
pub mod Saving
pub mod Samples
