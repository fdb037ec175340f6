-- ===== src/Queue/Rows.antt =====
-- What the statements of queue.py do to the rows of the table, column by column.
use mathlib.Core.Option
use veillee.Base.{
  ℕ, ◌≡◌, refl, Bool, true, false, none, some, List, [], ◌∷◌, map, arith, Eq, ◌==◌, nat_eq, list_eq,
  contains, Distinct, all, any, option_all, find, filter, ltb, if◌then◌else◌,
}
use veillee.Base.Text.{Text}
use veillee.Queue.{QueueRow, update_where, is_for, has_id, is_due, select_due}

module _ (p : QueueRow → Bool) (f : QueueRow → QueueRow) where
  pub map-update_where {ℓ} :
      {B : Type ℓ} (g : QueueRow → B) (rows : List QueueRow)
      → ((r : QueueRow) → g (f r) ≡ g r)
      → map g (update_where p f rows) ≡ map g rows
  unfolding update_where
  map-update_where g [] keep = refl
  map-update_where g (r ∷ rows) keep = ground (arith, keep r, map-update_where g rows keep)

  pub all-update_where :
      (q : QueueRow → Bool) (rows : List QueueRow)
      → ((r : QueueRow) → p r ≡ true → q r ≡ true → q (f r) ≡ true)
      → all q rows ≡ true
      → all q (update_where p f rows) ≡ true
  unfolding update_where
  all-update_where q [] keep h = refl
  all-update_where q (r ∷ rows) keep h = ground (arith, keep r, all-update_where q rows keep)

  pub any-update_where :
      (q : QueueRow → Bool) (rows : List QueueRow)
      → ((r : QueueRow) → q (f r) ≡ q r)
      → any q (update_where p f rows) ≡ any q rows
  unfolding update_where
  any-update_where q [] keep = refl
  any-update_where q (r ∷ rows) keep = ground (arith, keep r, any-update_where q rows keep)

pub any-is_for :
    (rid : Text) (rows : List QueueRow)
    → any (is_for rid) rows ≡ contains (map (λ r. r.recording_id) rows) rid
any-is_for rid [] = refl
any-is_for rid (r ∷ rows) = ground (arith, any-is_for rid rows)

-- An id that no row reaches is not among the ids.
pub contains-ids :
    (n : ℕ) (rows : List QueueRow)
    → all (λ r. ltb r.id n) rows ≡ true
    → contains (map (λ r. r.id) rows) n ≡ false
contains-ids n [] h = refl
contains-ids n (r ∷ rows) h = ground (arith, contains-ids n rows)

module _ {B : Type 0} ⦃e : Eq B⦄ (g : QueueRow → B) (p : QueueRow → Bool) where
  contains-filter :
      (b : B) (rows : List QueueRow)
      → contains (map g rows) b ≡ false
      → contains (map g (filter p rows)) b ≡ false
  contains-filter b [] h = refl
  contains-filter b (r ∷ rows) h = ground (arith, contains-filter b rows)

  pub Distinct-filter :
      (rows : List QueueRow) → Distinct (map g rows) → Distinct (map g (filter p rows))
  Distinct-filter [] d = tt
  Distinct-filter (r ∷ rows) (h, d) =
      ground (arith, Distinct-filter rows d, contains-filter (g r) rows h)

pub all-filter :
    (q p : QueueRow → Bool) (rows : List QueueRow)
    → all q rows ≡ true
    → all q (filter p rows) ≡ true
all-filter q p [] h = refl
all-filter q p (r ∷ rows) h = ground (arith, all-filter q p rows)

-- The selected row, if there is one, passes every test that all rows pass.
pub select_due-all :
    (q : QueueRow → Bool) (now : ℕ) (rows : List QueueRow)
    → all q rows ≡ true
    → option_all q (select_due now rows) ≡ true
unfolding select_due
select_due-all q now [] h = refl
select_due-all q now (s ∷ rows) h = ground (arith, select_due-all q now rows)

pub select_due-is_due :
    (now : ℕ) (rows : List QueueRow) → option_all (is_due now) (select_due now rows) ≡ true
unfolding select_due
select_due-is_due now [] = refl
select_due-is_due now (s ∷ rows) = ground (arith, select_due-is_due now rows)

abbrev pub ids : List QueueRow → List ℕ
ids rows = map (λ r. r.id) rows

find-absent :
    (i : ℕ) (rows : List QueueRow) → contains (ids rows) i ≡ false → find (has_id i) rows ≡ none
find-absent i [] h = refl
find-absent i (s ∷ rows) h = ground (arith, find-absent i rows)

pub update_where-absent :
    (i : ℕ) (f : QueueRow → QueueRow) (rows : List QueueRow)
    → contains (ids rows) i ≡ false
    → update_where (has_id i) f rows ≡ rows
unfolding update_where
update_where-absent i f [] h = refl
update_where-absent i f (s ∷ rows) h = ground (arith, update_where-absent i f rows)

-- The selected row is the row that has its id.
pub find-select_due :
    (now : ℕ) (rows : List QueueRow) (r : QueueRow)
    → Distinct (ids rows)
    → select_due now rows ≡ some r
    → find (has_id r.id) rows ≡ some r
unfolding select_due
find-select_due now [] r d e = cc
find-select_due now (s ∷ rows) r (h, d) e =
    ground (arith, find-select_due now rows r d, find-absent s.id rows h)

-- An update of one id keeps a test of all rows if it keeps it of that row.
pub all-update_id :
    (i : ℕ) (f : QueueRow → QueueRow) (q : QueueRow → Bool) (rows : List QueueRow)
    → Distinct (ids rows)
    → all q rows ≡ true
    → option_all (λ r. q (f r)) (find (has_id i) rows) ≡ true
    → all q (update_where (has_id i) f rows) ≡ true
unfolding update_where
all-update_id i f q [] d h k = refl
all-update_id i f q (s ∷ rows) (fresh, d) h k =
    ground (arith, all-update_id i f q rows d, update_where-absent s.id f rows fresh)

-- What the row of an id is after an update of an id.
pub find-update_id :
    (i j : ℕ) (f : QueueRow → QueueRow) (rows : List QueueRow)
    → ((r : QueueRow) → (f r).id ≡ r.id)
    → find (has_id j) (update_where (has_id i) f rows)
      ≡ (if i == j then Option.map f (find (has_id j) rows) else find (has_id j) rows)
unfolding update_where
find-update_id i j f [] keep = ground arith
find-update_id i j f (s ∷ rows) keep = ground (arith, keep s, find-update_id i j f rows keep)
