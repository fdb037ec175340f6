-- ===== src/Queue/Lifecycle.antt =====
-- What queue.py promises of each recording: the state of its job, without ids, order, attempts
-- and stamps.
use mathlib.Core.Option
use veillee.Base.{
  ℕ, ◌≡◌, ◌∙◌, refl, ap, subst, Bool, true, false, ◌&&◌, Option, none, some, List, [], ◌∷◌, ◌++◌,
  map, arith, nat_eq, list_eq, ◌==◌, ==_iff, Distinct, contains, any, find, if◌then◌else◌,
}
use veillee.Base.Text.{Text}
use veillee.Queue.{QueueRow, JobState, is_for, has_id, is_in, update_where, set_pending}
use veillee.Queue.Rows.{ids, any-is_for, update_where-absent}

-- The state of each recording's job, where it has one.
abbrev pub Jobs : Type 0
Jobs = Text → Option JobState

abbrev pub row_state : Option QueueRow → Option JobState
row_state o = Option.map (λ (r : QueueRow). r.state) o

abbrev pub jobs_of : List QueueRow → Jobs
jobs_of rows rid = row_state (find (is_for rid) rows)

-- What happens to the jobs.
pub data Action : Type 0 where
  create : Text → JobState → Action
  wait_again take finish : Text → Action
  give_up : Text → JobState → Action
  recovery idle : Action

abbrev pub or_new : JobState → Option JobState → Option JobState
or_new new none = some new
or_new new (some old) = some old

abbrev pub recovered : JobState → JobState
recovered JobState.running = JobState.pending
recovered s = s

abbrev pub put : Text → JobState → Jobs → Jobs
put other s jobs rid = if other == rid then some s else jobs rid

abbrev pub act : Action → Jobs → Jobs
act (create other s) jobs = λ rid. if other == rid then or_new s (jobs rid) else jobs rid
act (wait_again other) jobs = put other JobState.pending jobs
act (take other) jobs = put other JobState.running jobs
act (finish other) jobs = put other JobState.done jobs
act (give_up other s) jobs = put other s jobs
act recovery jobs = λ rid. Option.map recovered (jobs rid)
act idle jobs = jobs

same_text : (a b c : Text) → (a == b) ≡ true → (a == c) ≡ (b == c)
same_text a b c h = ap (λ x. x == c) ((==_iff a b).0 h)

pub jobs_of-recovered :
    (now : ℕ) (rid : Text) (rows : List QueueRow)
    → jobs_of (update_where (is_in JobState.running) (set_pending now) rows) rid
      ≡ Option.map recovered (jobs_of rows rid)
unfolding update_where
jobs_of-recovered now rid [] = refl
jobs_of-recovered now rid (r ∷ rows) = ground (arith, jobs_of-recovered now rid rows)

pub jobs_of-append :
    (new : QueueRow) (rid : Text) (rows : List QueueRow)
    → jobs_of rows new.recording_id ≡ none
    → jobs_of (rows ++ (new ∷ [])) rid ≡ act (create new.recording_id new.state) (jobs_of rows) rid
jobs_of-append new rid [] h = ground arith
jobs_of-append new rid (r ∷ rows) h =
    ground (arith, jobs_of-append new rid rows, same_text new.recording_id rid r.recording_id)

pub has_none-jobs_of :
    (rid : Text) (rows : List QueueRow) → any (is_for rid) rows ≡ false → jobs_of rows rid ≡ none
has_none-jobs_of rid [] h = refl
has_none-jobs_of rid (r ∷ rows) h = ground (arith, has_none-jobs_of rid rows)

-- A recording with a job keeps its state where a new one would be put.
pub has_one-jobs_of :
    (new : JobState) (rid : Text) (rows : List QueueRow)
    → any (is_for rid) rows ≡ true
    → or_new new (jobs_of rows rid) ≡ jobs_of rows rid
has_one-jobs_of new rid [] h = absurd (cc h)
has_one-jobs_of new rid (r ∷ rows) h = ground (arith, has_one-jobs_of new rid rows)

-- An update of one recording's row.
jobs_of-update_for :
    (other rid : Text) (s : JobState) (f : QueueRow → QueueRow) (rows : List QueueRow)
    → ((r : QueueRow) → (f r).recording_id ≡ r.recording_id)
    → ((r : QueueRow) → (f r).state ≡ s)
    → jobs_of (update_where (is_for other) f rows) rid
      ≡ (if other == rid then Option.map (λ x. s) (jobs_of rows rid) else jobs_of rows rid)
unfolding update_where
jobs_of-update_for other rid s f [] same new = ground arith
jobs_of-update_for other rid s f (r ∷ rows) same new = ground (
  arith,
  same r,
  new r,
  jobs_of-update_for other rid s f rows same new,
  ==_iff r.recording_id rid,
  ==_iff r.recording_id other,
  ==_iff other rid,
)

assigned-jobs_of :
    (s : JobState) (rid : Text) (rows : List QueueRow)
    → any (is_for rid) rows ≡ true
    → Option.map (λ x. s) (jobs_of rows rid) ≡ some s
assigned-jobs_of s rid [] h = absurd (cc h)
assigned-jobs_of s rid (r ∷ rows) h = ground (arith, assigned-jobs_of s rid rows)

pub any_same :
    (rid other : Text) (rows : List QueueRow)
    → any (is_for rid) rows ≡ true
    → (rid == other) ≡ true
    → any (is_for other) rows ≡ true
any_same rid other rows h e = subst (λ k. any (is_for k) rows ≡ true) ((==_iff rid other).0 e) h

and_right : (a b : Bool) → (a && b) ≡ true → b ≡ true
and_right a b h = ground arith

-- An update of the row of a recording that has one.
pub jobs_of-assigned :
    (rid other : Text) (s : JobState) (f : QueueRow → QueueRow) (rows : List QueueRow)
    → ((r : QueueRow) → (f r).recording_id ≡ r.recording_id)
    → ((r : QueueRow) → (f r).state ≡ s)
    → any (is_for rid) rows ≡ true
    → jobs_of (update_where (is_for rid) f rows) other ≡ put rid s (jobs_of rows) other
jobs_of-assigned rid other s f rows same new h = ground (
  arith,
  jobs_of-update_for rid other s f rows same new,
  any_same rid other rows h,
  assigned-jobs_of s other rows,
)

abbrev pub is_job : ℕ → Text → QueueRow → Bool
is_job i rid r = has_id i r && is_for rid r

has_keys :
    (i : ℕ) (rid : Text) (rows : List QueueRow)
    → any (is_job i rid) rows ≡ true
    → (contains (ids rows) i && any (is_for rid) rows) ≡ true
has_keys i rid [] h = absurd (cc h)
has_keys i rid (r ∷ rows) h = ground (arith, has_keys i rid rows)

update_for-absent :
    (rid : Text) (f : QueueRow → QueueRow) (rows : List QueueRow)
    → any (is_for rid) rows ≡ false
    → update_where (is_for rid) f rows ≡ rows
unfolding update_where
update_for-absent rid f [] h = refl
update_for-absent rid f (r ∷ rows) h = ground (arith, update_for-absent rid f rows)

fresh_id :
    (i j : ℕ) (rows : List QueueRow)
    → contains (ids rows) i ≡ false
    → (i == j) ≡ true
    → contains (ids rows) j ≡ false
fresh_id i j rows h e = subst (λ k. contains (ids rows) k ≡ false) ((==_iff i j).0 e) h

pub fresh_recording :
    (rid other : Text) (rows : List QueueRow)
    → contains (map (λ (r : QueueRow). r.recording_id) rows) rid ≡ false
    → (rid == other) ≡ true
    → any (is_for other) rows ≡ false
fresh_recording rid other rows h e =
    subst (λ k. any (is_for k) rows ≡ false) ((==_iff rid other).0 e) (any-is_for rid rows ∙ h)

-- Updating the row with a job's id is updating the row of its recording.
update_id-update_for :
    (i : ℕ) (rid : Text) (f : QueueRow → QueueRow) (rows : List QueueRow)
    → Distinct (ids rows)
    → Distinct (map (λ (r : QueueRow). r.recording_id) rows)
    → any (is_job i rid) rows ≡ true
    → update_where (has_id i) f rows ≡ update_where (is_for rid) f rows
unfolding update_where
update_id-update_for i rid f [] d e h = refl
update_id-update_for i rid f (r ∷ rows) (fresh, d) (new, e) h = ground (
  arith,
  has_keys i rid rows,
  fresh_id r.id i rows fresh,
  fresh_recording r.recording_id rid rows new,
  update_where-absent i f rows,
  update_for-absent rid f rows,
  update_id-update_for i rid f rows d e,
)

pub jobs_of-update_id :
    (i : ℕ) (rid : Text) (s : JobState) (f : QueueRow → QueueRow) (rows : List QueueRow)
    → Distinct (ids rows)
    → Distinct (map (λ (r : QueueRow). r.recording_id) rows)
    → ((r : QueueRow) → (f r).recording_id ≡ r.recording_id)
    → ((r : QueueRow) → (f r).state ≡ s)
    → any (is_job i rid) rows ≡ true
    → (other : Text)
    → jobs_of (update_where (has_id i) f rows) other ≡ put rid s (jobs_of rows) other
jobs_of-update_id i rid s f rows d e same new h other =
    rw (update_id-update_for i rid f rows d e h)
      (jobs_of-assigned rid other s f rows same new (and_right _ _ (has_keys i rid rows h)))
