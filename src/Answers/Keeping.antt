-- ===== src/Answers/Keeping.antt =====
-- What `write_answer` and `move_to_trash` leave of the files that were there.
use veillee.Base.{
  ◌≡◌, refl, ◌∙◌, true, false, none, some, [], ◌∷◌, ◌++◌, if◌then◌else◌, contains, ◌==◌, ==_refl,
  nat_eq, list_eq, list_beq, Outcome, ok, err, Option-cases, Bool-cases, ==_iff, inl, inr, ◌⊎◌,
  take, arith, if_same,
}
use veillee.Base.Text.{Text, codes}
use veillee.Base.Dict.{lookup, insert, lookup-insert}
use veillee.Models.{FilePath, Question, valid_statuses}
use veillee.Paths.{
  Moment, answer_relpath, parse_question_id, chapter_dirname, answer_leaf, utc_now_iso,
}
use veillee.Values.{Yaml}
use veillee.Disk.{
  Disk, Fate, CopyFate, copied, not_made, part_copied, temporary, file_name, answers_dir,
}
use veillee.Disk.Laws.{written_file, lookup-move_file}
use veillee.Answers.{
  ReadError, Call, answer_path, save_revision, revision_path, created_of, store_answer,
  store_revised, revised, copy_to, interrupted, new_answer, serialise, write_answer, move_to_trash,
  trash_path,
}

pub paths_differ : (c d : Text) (p q : FilePath) → (c == d) ≡ false → ((c ∷ p) == (d ∷ q)) ≡ false
unfolding list_beq
paths_differ c d p q h = ground (arith, h)

pub answers_and_revisions : (codes "answers" == codes ".revisions") ≡ false
unfolding list_beq
answers_and_revisions = refl

pub revisions_and_answers : (codes ".revisions" == codes "answers") ≡ false
unfolding list_beq
revisions_and_answers = refl

pub same_directory : (c : Text) (p q : FilePath) → (p == q) ≡ false → ((c ∷ p) == (c ∷ q)) ≡ false
unfolding list_beq
same_directory c p q h = rw (==_refl c, h) refl

-- An answer's path has three components.
pub answer_path_shape :
    (nfkd : Text → Text) (q : Question) (path : FilePath)
    → answer_path nfkd q ≡ some path
    → (directory : Text) × (file : Text) × (path ≡ answers_dir ++ (directory ∷ file ∷ []))
unfolding answer_path
answer_path_shape nfkd q path h = elim (Option-cases (parse_question_id q.id)) [
  | inl e ↦ absurd (cc (rw (e, answer_relpath, answer_path) at h))
  | inr ((letter, number), e) ↦ (
    chapter_dirname q.chapter_order q.chapter_slug,
    answer_leaf nfkd number q.text,
    cc (rw (e, answer_relpath, answer_path) at h),
  )
]

module _ (yaml : Yaml) (call : Call) (fate : Fate) (q : Question) (path : FilePath) (p : FilePath)
    (distinct : (temporary call.temp_name path == path) ≡ false)
    (other : (temporary call.temp_name path == p) ≡ false) (elsewhere : (path == p) ≡ false) where
  -- Storing an answer leaves each other file alone.
  lookup-store_answer :
      (body status : Text) (created : Outcome ReadError Text) (disk : Disk)
      → lookup p (store_answer yaml call fate q path body status created disk).0 ≡ lookup p disk
  unfolding store_answer
  lookup-store_answer body status (err e) disk = refl
  lookup-store_answer body status (ok created) disk =
      let text =
        serialise yaml (new_answer q path body status created (utc_now_iso call.written)) in
      rw (written_file call.temp_name fate path text disk p distinct other, elsewhere)
        (if_same _ (lookup p disk))

pub save_revision-there :
    (m : Moment) (fate : CopyFate) (question_id : Text) (path : FilePath) (disk : Disk)
    (previous : Text)
    → lookup path disk ≡ some previous
    → save_revision m fate question_id path disk
      ≡ revised
          (revision_path question_id m)
          (copy_to fate (revision_path question_id m) previous disk)
unfolding save_revision
save_revision-there m fate question_id path disk previous k = rw (k, save_revision) refl

-- Beside a file, under another name.
pub temporary_differs :
    (temp_name directory file : Text)
    → (temp_name == file) ≡ false
    → (temporary temp_name (answers_dir ++ (directory ∷ file ∷ []))
        == (answers_dir ++ (directory ∷ file ∷ [])))
      ≡ false
temporary_differs temp_name directory file h =
    same_directory _ _ _ (same_directory directory _ _ (paths_differ temp_name file [] [] h))

module _ (yaml : Yaml) (call : Call) (fate : Fate) (q : Question) (path : FilePath)
    (distinct : (temporary call.temp_name path == path) ≡ false)
    (other : (temporary call.temp_name path == revision_path q.id call.stamped) ≡ false)
    (elsewhere : (path == revision_path q.id call.stamped) ≡ false)
    (back : (revision_path q.id call.stamped == path) ≡ false) where
  -- However the copy of the revision ends.
  store_revised-keeps_previous :
      (body status : Text) (disk : Disk) (previous : Text) (copying : CopyFate)
      → lookup path disk ≡ some previous
      → let (after, result) = store_revised yaml call fate q path body status (
          revised
            (revision_path q.id call.stamped)
            (copy_to copying (revision_path q.id call.stamped) previous disk)) in
        (lookup (revision_path q.id call.stamped) after ≡ some previous)
        ⊎ ((lookup path after ≡ some previous) × (result ≡ err interrupted))
  unfolding store_revised
  store_revised-keeps_previous body status disk previous copied k =
      let revision = revision_path q.id call.stamped in
      let kept = insert revision previous disk in
      inl (
        lookup-store_answer yaml call fate q path revision distinct other elsewhere body status
          (created_of yaml (utc_now_iso call.written) path kept) kept
        ∙ rw (lookup-insert revision revision previous disk, ==_refl revision) refl)
  store_revised-keeps_previous body status disk previous not_made k = inr (k, refl)
  store_revised-keeps_previous body status disk previous (part_copied n) k =
      let revision = revision_path q.id call.stamped in
      inr (rw (lookup-insert path revision (take n previous) disk, back) k, refl)

-- Whatever becomes of the call, also where copying the revision or writing the answer fails half way,
-- an answer that was on disk is in the revisions afterwards, under the name that its moment gives, or
-- it still stands in its place and the call has failed: for a known status, a question with a path, and
-- a temporary file named otherwise than the answer.
pub write_answer-keeps_previous :
    (nfkd : Text → Text) (yaml : Yaml) (call : Call) (fate : Fate) (q : Question)
    (body status : Text) (disk : Disk) (path : FilePath) (previous : Text)
    → answer_path nfkd q ≡ some path
    → lookup path disk ≡ some previous
    → contains valid_statuses status ≡ true
    → (call.temp_name == file_name path) ≡ false
    → let (after, result) = write_answer nfkd yaml call fate q body status disk in
      (lookup (revision_path q.id call.stamped) after ≡ some previous)
      ⊎ ((lookup path after ≡ some previous) × (result ≡ err interrupted))
unfolding write_answer
write_answer-keeps_previous nfkd yaml call fate q body status disk path previous h k v t =
    let (directory, file, e) = answer_path_shape nfkd q path h in
    rw (v, h, write_answer, save_revision-there call.stamped call.copying q.id path disk previous k)
      (store_revised-keeps_previous yaml call fate q path
        (rw e (temporary_differs call.temp_name directory file (rw e at t)))
        (rw e (paths_differ _ _ _ _ answers_and_revisions))
        (rw e (paths_differ _ _ _ _ answers_and_revisions))
        (rw e (paths_differ _ _ _ _ revisions_and_answers)) body status disk previous call.copying
        k)

pub lookup-move_to_trash :
    (m : Moment) (path : FilePath) (disk : Disk) (text : Text)
    → lookup path disk ≡ some text
    → lookup (trash_path m path) (move_to_trash m path disk).0 ≡ some text
unfolding move_to_trash
lookup-move_to_trash m path disk text h =
    rw
      (
        h,
        move_to_trash,
        lookup-move_file (trash_path m path) path (trash_path m path) text disk h,
        ==_refl (trash_path m path),
      )
      refl

-- Moving a file to the trash loses no file: each file that the disk held has its text afterwards, the
-- moved one below the trash directory and each other one in its place, if nothing stood where the
-- moved file goes.
move_to_trash-loses_nothing :
    (m : Moment) (path : FilePath) (disk : Disk) (q : FilePath) (text : Text)
    → lookup (trash_path m path) disk ≡ none
    → lookup q disk ≡ some text
    → lookup (if path == q then trash_path m path else q) (move_to_trash m path disk).0 ≡ some text
unfolding move_to_trash
move_to_trash-loses_nothing m path disk q text free h = elim (Bool-cases (path == q)) [
  | inl e ↦
      let same : path ≡ q = (==_iff path q).0 e in
      rw
        (
          e,
          rw (← same) at h,
          move_to_trash,
          lookup-move_file (trash_path m path) path (trash_path m path) text disk
              (rw (← same) at h),
          ==_refl (trash_path m path),
        )
        refl
  | inr n ↦ elim (Option-cases (lookup path disk)) [
    | inl k ↦ rw (n, k) h
    | inr (moved, k) ↦ elim (Bool-cases (trash_path m path == q)) [
      | inl e ↦
          let same : trash_path m path ≡ q = (==_iff (trash_path m path) q).0 e in
          absurd (cc (free, h, same))
      | inr d ↦ rw (n, k, lookup-move_file q path (trash_path m path) moved disk k, d, n) h
    ]
  ]
]
