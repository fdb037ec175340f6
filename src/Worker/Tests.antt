-- ===== src/Worker/Tests.antt =====
-- A worker whose speech model always fails.
use veillee.Base.{
  ℕ, ◌+◌, ◌≤◌, ◌<◌, ◌≡◌, refl, true, none, List, [], ◌∷◌, count_if, any, length, arith, nat_eq,
  list_eq,
}
use veillee.Base.Text.{codes}
use veillee.Disk.{completes}
use veillee.Queue.{JobState, QueueTable}
use veillee.Queue.Load.{load, attempts_left}
use veillee.Queue.Invariant.{IsValid}
use veillee.Worker.{works, Setup, Circumstances, loop}
use veillee.Worker.Drain.{is_worked, is_rest, fails, turns_of, loop-terminates, loop-reaches_rest}
use veillee.Samples.{noon, sample_yaml, sample_library, sample_world}

abbrev one_job : QueueTable
one_job = record {
  rows =
      record {
        id = 1;
        recording_id = codes "r";
        state = JobState.pending;
        attempts = 0;
        next_attempt_at = 0;
        last_error = none;
        created = 0;
        updated = 0;
      }
      ∷ [];
  next_id = 2;
}

abbrev failing_setup : Setup
failing_setup = record {
  letters = record { is_word = λ c. true; upper = λ c. c ∷ [] };
  repr = λ v. [];
  library = sample_library;
  yaml = sample_yaml;
  settings = record {
    transcription_backend = codes "local";
    whisper_model = codes "small";
    remote_base_url = [];
    remote_model = [];
  };
  max_attempts = 2;
}

abbrev at : ℕ → Circumstances
at now = record {
  speech = record { local = λ hint audio. none; remote = λ audio. none };
  database = works;
  now = now;
  writes = record {
    first_now = noon;
    second_now = noon;
    first_temp = codes ".tmp-a.part";
    second_temp = codes ".tmp-b.part";
    first_fate = completes;
    second_fate = completes;
  };
}

abbrev three_turns : List Circumstances
three_turns = at 0 ∷ at 100 ∷ at 200 ∷ []

one_job-IsValid : IsValid 2 one_job
one_job-IsValid = record { ids = (refl, tt); below = refl; recordings = (refl, tt); budget = refl }

loop-terminates_example :
    count_if is_worked (turns_of (loop failing_setup three_turns (sample_world one_job)))
    ≤ load 2 one_job.rows
loop-terminates_example =
    loop-terminates failing_setup (omega arith) three_turns (sample_world one_job) one_job-IsValid

two_attempts :
    load 2 one_job.rows + count_if (λ (c : Circumstances). fails c.database) three_turns
    < length three_turns
unfolding load attempts_left
two_attempts = omega arith

loop-reaches_rest_example :
    any is_rest (turns_of (loop failing_setup three_turns (sample_world one_job))) ≡ true
loop-reaches_rest_example =
    loop-reaches_rest failing_setup (omega arith) three_turns (sample_world one_job) one_job-IsValid
      two_attempts
