-- ===== src/Health.antt =====
-- web/routes_health.py: what the health page reports. The free space of the disk and whether the index
-- can be read are arguments; the numbers that are only printed are left out.
use veillee.Base.{
  ℕ, Bool, not, Option, none, some, List, [], ◌∷◌, ◌++◌, ◌&&◌, ltb, length, if◌then◌else◌, ◌==◌,
  nat_eq, list_eq,
}
use veillee.Base.Text.{Text, codes}
use veillee.Questions.{QuestionBank}
use veillee.Index.{Tables, get_meta}
use veillee.Queue.{Depth, depth}
use veillee.Git.{GitStatus}

abbrev pub low_disk_bytes : ℕ
low_disk_bytes = 1073741824

pub data HealthProblem : Type 0 where
  low_disk no_disk_usage jobs_gave_up index_unreadable no_ffmpeg : HealthProblem
  git_trouble : Text → HealthProblem

pub record Counts : Type 0 where
  pub queue : Depth
  pub last_backup : Text
  pub answers : ℕ
  pub recordings : ℕ
  pub photographs : ℕ

pub record Health : Type 0 where
  pub status : Text
  pub problems : List HealthProblem
  pub counts : Option Counts
  pub questions : ℕ
  pub git : GitStatus
  pub ffmpeg : Bool

abbrev reported_if : Bool → HealthProblem → List HealthProblem
reported_if test problem = if test then problem ∷ [] else []

abbrev disk_problems : Option ℕ → List HealthProblem
disk_problems none = no_disk_usage ∷ []
disk_problems (some free) = reported_if (ltb free low_disk_bytes) low_disk

abbrev index_problems : Option Tables → List HealthProblem
index_problems none = index_unreadable ∷ []
index_problems (some t) = reported_if (not ((depth t.queue).dead == 0)) jobs_gave_up

abbrev counts_of : Option Tables → Option Counts
counts_of none = none
counts_of (some t) = some (record {
  queue = depth t.queue;
  last_backup = get_meta (codes "last_backup") (codes "never") t.meta;
  answers = length t.answers;
  recordings = length t.recordings;
  photographs = length t.photographs;
})

unfoldable pub problems_of : Option ℕ → Option Tables → GitStatus → Bool → List HealthProblem
problems_of free index git ffmpeg =
    disk_problems free
    ++ (index_problems index
        ++ (reported_if (git.enabled && not git.ok) (git_trouble git.detail)
            ++ reported_if (not ffmpeg) no_ffmpeg))

unfoldable pub healthz : Option ℕ → Option Tables → QuestionBank → GitStatus → Bool → Health
unfolding problems_of
healthz free index bank git ffmpeg =
    let problems = problems_of free index git ffmpeg in
    record {
      status = if length problems == 0 then codes "ok" else codes "degraded";
      problems = problems;
      counts = counts_of index;
      questions = length bank.questions;
      git = git;
      ffmpeg = ffmpeg;
    }
