-- ===== src/Answers/Growing.antt =====
-- The operations of answers.py on files take no text away from the disk.
use veillee.Base.{
  ◌≡◌, refl, ◌∙◌, sym, Bool, true, false, Option, none, some, take, ◌∷◌, contains, ◌==◌, ==_refl,
  nat_eq, list_eq, Outcome, ok, err, Option-cases, Bool-cases, inl, inr,
}
use veillee.Base.Text.{Text, codes}
use veillee.Base.Dict.{lookup, lookup-insert}
use veillee.Models.{FilePath, Question, valid_statuses}
use veillee.Paths.{Moment, utc_now_iso}
use veillee.Values.{Yaml}
use veillee.Disk.{Disk, Fate, CopyFate, copied, not_made, part_copied, temporary, exists, file_name}
use veillee.Disk.Keeps.{
  Keeps, Keeps-refl, Keeps-trans, insert-Keeps, move_file-Keeps, atomic_write-Keeps,
}
use veillee.Answers.{
  ReadError, Call, answer_path, save_revision, revision_path, created_of, store_answer,
  store_revised, revised, copy_to, WriteError, write_answer, move_to_trash, trash_path,
}
use veillee.Answers.Keeping.{
  paths_differ, answers_and_revisions, revisions_and_answers, answer_path_shape,
  save_revision-there, temporary_differs,
}

pub move_to_trash-Keeps :
    (m : Moment) (path : FilePath) (d : Disk)
    → lookup (trash_path m path) d ≡ none
    → Keeps d (move_to_trash m path d).0
unfolding move_to_trash
move_to_trash-Keeps m path d free = elim (Bool-cases (exists path d)) [
  | inl e ↦ rw e (move_file-Keeps path (trash_path m path) d free)
  | inr n ↦ rw n (Keeps-refl d)
]

save_revision-absent :
    (m : Moment) (fate : CopyFate) (question_id : Text) (path : FilePath) (d : Disk)
    → lookup path d ≡ none
    → save_revision m fate question_id path d ≡ (d, ok none)
unfolding save_revision
save_revision-absent m fate question_id path d h = rw (h, save_revision) refl

revised-disk : (r : FilePath) (x : Disk × Bool) → (revised r x).0 ≡ x.0
revised-disk r (d, true) = refl
revised-disk r (d, false) = refl

copy_to-Keeps :
    (fate : CopyFate) (r : FilePath) (old : Text) (d : Disk)
    → lookup r d ≡ none
    → Keeps d (copy_to fate r old d).0
copy_to-Keeps copied r old d free = insert-Keeps r old d free
copy_to-Keeps not_made r old d free = Keeps-refl d
copy_to-Keeps (part_copied n) r old d free = insert-Keeps r (take n old) d free

lookup-copy_to :
    (fate : CopyFate) (r : FilePath) (old : Text) (d : Disk) (p : FilePath)
    → (r == p) ≡ false
    → lookup p (copy_to fate r old d).0 ≡ lookup p d
lookup-copy_to copied r old d p other = rw (lookup-insert p r old d, other) refl
lookup-copy_to not_made r old d p other = refl
lookup-copy_to (part_copied n) r old d p other = rw (lookup-insert p r (take n old) d, other) refl

copy_to-saved :
    (fate : CopyFate) (r : FilePath) (old : Text) (d : Disk) (o : Option FilePath)
    → (revised r (copy_to fate r old d)).1 ≡ ok o
    → lookup r (revised r (copy_to fate r old d)).0 ≡ some old
copy_to-saved copied r old d o h = rw (lookup-insert r r old d, ==_refl r) refl
copy_to-saved not_made r old d o h = absurd (cc h)
copy_to-saved (part_copied n) r old d o h = absurd (cc h)

pub save_revision-Keeps :
    (m : Moment) (fate : CopyFate) (question_id : Text) (path : FilePath) (d : Disk)
    → lookup (revision_path question_id m) d ≡ none
    → Keeps d (save_revision m fate question_id path d).0
save_revision-Keeps m fate question_id path d free = elim (Option-cases (lookup path d)) [
  | inl h ↦ rw (save_revision-absent m fate question_id path d h) (Keeps-refl d)
  | inr (old, h) ↦
      rw
        (
          save_revision-there m fate question_id path d old h,
          revised-disk (revision_path question_id m)
              (copy_to fate (revision_path question_id m) old d),
        )
        (copy_to-Keeps fate (revision_path question_id m) old d free)
]

-- After the revision of a file: the file is as it was, and its text is in the revision if that was made.
module _ (m : Moment) (fate : CopyFate) (question_id : Text) (path : FilePath) (d : Disk)
    (apart : (revision_path question_id m == path) ≡ false) where
  pub lookup-save_revision :
      (p : FilePath)
      → (revision_path question_id m == p) ≡ false
      → lookup p (save_revision m fate question_id path d).0 ≡ lookup p d
  lookup-save_revision p other = elim (Option-cases (lookup path d)) [
    | inl h ↦ rw (save_revision-absent m fate question_id path d h) refl
    | inr (old, h) ↦
        rw
          (
            save_revision-there m fate question_id path d old h,
            revised-disk (revision_path question_id m)
                (copy_to fate (revision_path question_id m) old d),
          )
          (lookup-copy_to fate (revision_path question_id m) old d p other)
  ]

  pub save_revision-saved :
      (old : Text) (o : Option FilePath)
      → (save_revision m fate question_id path d).1 ≡ ok o
      → lookup path (save_revision m fate question_id path d).0 ≡ some old
      → lookup (revision_path question_id m) (save_revision m fate question_id path d).0 ≡ some old
  save_revision-saved old o made h =
      let revision = revision_path question_id m in
      let before : lookup path d ≡ some old = sym (lookup-save_revision path apart) ∙ h in
      let there = save_revision-there m fate question_id path d old before in
      rw there (copy_to-saved fate revision old d o (rw there at made))

store_answer-Keeps :
    (yaml : Yaml) (call : Call) (fate : Fate) (q : Question) (path : FilePath) (body status : Text)
    (created : Outcome ReadError Text) (d : Disk)
    → (temporary call.temp_name path == path) ≡ false
    → lookup (temporary call.temp_name path) d ≡ none
    → ((old : Text)
        → lookup path d ≡ some old
        → (r : FilePath) × ((path == r) ≡ false) × (lookup r d ≡ some old))
    → Keeps d (store_answer yaml call fate q path body status created d).0
unfolding store_answer
store_answer-Keeps yaml call fate q path body status (err e) d differs fresh saved = Keeps-refl d
store_answer-Keeps yaml call fate q path body status (ok created) d differs fresh saved =
    atomic_write-Keeps call.temp_name fate path _ d differs fresh saved

store_revised-Keeps :
    (yaml : Yaml) (call : Call) (fate : Fate) (q : Question) (path : FilePath) (body status : Text)
    (d : Disk) (x : Disk × Outcome WriteError (Option FilePath))
    → Keeps d x.0
    → (temporary call.temp_name path == path) ≡ false
    → lookup (temporary call.temp_name path) x.0 ≡ none
    → ((old : Text) (o : Option FilePath)
        → x.1 ≡ ok o
        → lookup path x.0 ≡ some old
        → (r : FilePath) × ((path == r) ≡ false) × (lookup r x.0 ≡ some old))
    → Keeps d (store_revised yaml call fate q path body status x).0
unfolding store_revised
store_revised-Keeps yaml call fate q path body status d (kept, err e) k differs fresh saved = k
store_revised-Keeps yaml call fate q path body status d (kept, ok o) k differs fresh saved =
    Keeps-trans d kept _ k (
      store_answer-Keeps yaml call fate q path body status
        (created_of yaml (utc_now_iso call.written) path kept) kept differs fresh
        (λ old there. saved old o refl there))

-- Whatever becomes of the call, saving an answer takes no text away from the disk: the text of each
-- file is in some file afterwards. The revision's and the temporary file's names are new, and no
-- answer has the temporary file's name.
pub write_answer-Keeps :
    (nfkd : Text → Text) (yaml : Yaml) (call : Call) (fate : Fate) (q : Question)
    (body status : Text) (d : Disk) (path : FilePath)
    → answer_path nfkd q ≡ some path
    → (call.temp_name == file_name path) ≡ false
    → lookup (revision_path q.id call.stamped) d ≡ none
    → lookup (temporary call.temp_name path) d ≡ none
    → Keeps d (write_answer nfkd yaml call fate q body status d).0
unfolding write_answer
write_answer-Keeps nfkd yaml call fate q body status d path h t free fresh =
    elim (Bool-cases (contains valid_statuses status)) [
      | inr n ↦ rw n (Keeps-refl d)
      | inl v ↦
          let (directory, file, e) = answer_path_shape nfkd q path h in
          let revision = revision_path q.id call.stamped in
          let apart : (path == revision) ≡ false =
            rw e (paths_differ _ _ _ _ answers_and_revisions) in
          let back : (p : FilePath) → (revision == (codes "answers" ∷ p)) ≡ false =
            λ p. paths_differ _ _ _ _ revisions_and_answers in
          rw (v, h, write_answer)
            (store_revised-Keeps yaml call fate q path body status d
              (save_revision call.stamped call.copying q.id path d)
              (save_revision-Keeps call.stamped call.copying q.id path d free)
              (rw e (temporary_differs call.temp_name directory file (rw e at t)))
              (lookup-save_revision call.stamped call.copying q.id path d (rw e (back _)) _
                  (rw e (back _))
                ∙ fresh)
              (λ old o made there. (
                revision,
                apart,
                save_revision-saved call.stamped call.copying q.id path d (rw e (back _)) old o made
                    there,
              )))
    ]
