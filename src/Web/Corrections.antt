-- ===== src/Web/Corrections.antt =====
-- Correcting a transcript takes no text away from the disk.
use veillee.Base.{
  ◌≡◌, refl, ◌∙◌, sym, Bool, true, false, none, some, List, ◌∷◌, ◌++◌, ◌==◌, list_beq, nat_eq,
  list_eq, Outcome, ok, err, Option, Option-cases, inl, inr, arith, ==_iff, if_same,
}
use veillee.Base.Text.{Text, codes}
use veillee.Base.Dict.{lookup}
use veillee.Models.{FilePath}
use veillee.Paths.{recording_dir_for}
use veillee.Ingest.Originals.{sibling_differs}
use veillee.Values.{Value, Fields, Yaml}
use veillee.Frontmatter.{FrontmatterError, loads, dumps}
use veillee.Disk.{universal_newlines, Disk, transcripts_dir, temporary, atomic_write}
use veillee.Disk.Laws.{written_file}
use veillee.Disk.Keeps.{Keeps, Keeps-refl, Keeps-trans, atomic_write-Keeps}
use veillee.Answers.{WriteError, save_revision, revision_path}
use veillee.Answers.Keeping.{paths_differ}
use veillee.Answers.Growing.{save_revision-Keeps, lookup-save_revision, save_revision-saved}
use veillee.Sidecars.{transcript_path_of}
use veillee.Ingest.{World}
use veillee.Web.{with_disk}
use veillee.Web.Audio.{machine_path_of}
use veillee.Web.Admin.{
  TranscriptVisit, edit_filed, write_edit, original_kept, keep_original, edit_with, edit_history,
  edit_revised, edit_transcript, save_transcript, history_of, has_original,
}

module _ (visit : TranscriptVisit) (rid : Text) where
  abbrev transcript : FilePath
  transcript = transcript_path_of rid

  abbrev machine : FilePath
  machine = machine_path_of rid

  abbrev revision : FilePath
  revision = revision_path (codes "transcript-" ++ rid) visit.stamped

  abbrev first_temp : FilePath
  first_temp = temporary visit.machine_temp machine

  abbrev second_temp : FilePath
  second_temp = temporary visit.temp transcript

  -- The names that a save makes up are new, and differ from each other and from the two files'.
  pub record HasNewNames (d : Disk) : Type 0 where
    pub revision_new : lookup revision d ≡ none
    pub first_new : lookup first_temp d ≡ none
    pub second_new : lookup second_temp d ≡ none
    pub first_apart : (first_temp == machine) ≡ false
    pub second_apart : (second_temp == transcript) ≡ false
    pub temps_apart : (first_temp == second_temp) ≡ false
    pub second_other : (machine == second_temp) ≡ false
    pub first_other : (first_temp == transcript) ≡ false
    pub first_revision : (first_temp == revision) ≡ false
    pub second_revision : (revision == second_temp) ≡ false

  names_apart :
      ((codes ".revisions" == codes "transcripts") ≡ false)
      × ((codes "transcripts" == codes ".revisions") ≡ false)
      × ((codes ".machine.md" == codes ".md") ≡ false)
  unfolding list_beq
  names_apart = (refl, refl, refl)

  revision_apart : (p : FilePath) → (revision == (codes "transcripts" ∷ p)) ≡ false
  revision_apart p = paths_differ (codes ".revisions") (codes "transcripts") _ p names_apart.0

  apart_revision : (p : FilePath) → ((codes "transcripts" ∷ p) == revision) ≡ false
  apart_revision p = paths_differ (codes "transcripts") (codes ".revisions") p _ names_apart.1

  machine_apart : (machine == transcript) ≡ false
  unfolding machine_path_of transcript_path_of
  machine_apart = sibling_differs (transcripts_dir ++ recording_dir_for rid) rid _ _ names_apart.2

  transcript_apart : (transcript == revision) ≡ false
  unfolding transcript_path_of
  transcript_apart = apart_revision _

  revision_differs : (revision == transcript) ≡ false
  unfolding transcript_path_of
  revision_differs = revision_apart _

  machine_differs : (machine == revision) ≡ false
  unfolding machine_path_of
  machine_differs = apart_revision _

  -- The transcript that stands has its text in the revision, and the last write's name is new.
  abbrev Ready : Disk → Type 0
  Ready e =
      (lookup second_temp e ≡ none)
      × ((old : Text) → lookup transcript e ≡ some old → lookup revision e ≡ some old)

  module _ (yaml : Yaml) (body reviewed : Text) (d : Disk) (new : HasNewNames d) where
    edit_filed-disk :
        (w : World) (written : Disk × Bool)
        → (edit_filed yaml visit rid body reviewed w written).0.disk ≡ written.0
    edit_filed-disk w (disk, false) = refl
    edit_filed-disk w (disk, true) = refl

    write_edit-Keeps :
        (metadata : Fields) (history : List Value) (w : World)
        → Ready w.disk
        → Keeps w.disk (write_edit yaml visit rid body reviewed metadata history w).0.disk
    write_edit-Keeps metadata history w (fresh, saved) = rw (edit_filed-disk w _) (
        atomic_write-Keeps visit.temp visit.fate transcript _ w.disk new.second_apart fresh
          (λ old there. (revision, transcript_apart, saved old there)))

    -- The machine's words are kept where they are, or go to a new file.
    machine_write :
        (text : Text) (e : Disk)
        → lookup machine e ≡ none
        → lookup first_temp e ≡ none
        → Ready e
        → Keeps e (atomic_write visit.machine_temp visit.machine_fate machine text e).0
          × Ready (atomic_write visit.machine_temp visit.machine_fate machine text e).0
    machine_write text e absent fresh (second, saved) =
        let other : (q : FilePath)
            → (first_temp == q) ≡ false
            → (machine == q) ≡ false
            → lookup q (atomic_write visit.machine_temp visit.machine_fate machine text e).0
              ≡ lookup q e =
          λ q t m.
            written_file visit.machine_temp visit.machine_fate machine text e q new.first_apart t
            ∙ rw m (if_same _ (lookup q e)) in
        (
          atomic_write-Keeps visit.machine_temp visit.machine_fate machine text e new.first_apart
              fresh (λ old there. absurd (cc (absent, there))),
          (
            other second_temp new.temps_apart new.second_other ∙ second,
            λ old there.
                other revision new.first_revision machine_differs
                ∙ saved old (sym (other transcript new.first_other machine_apart) ∙ there),
          ),
        )

    original_kept-Keeps :
        (metadata : Fields) (history : List Value) (w : World) (written : Disk × Bool)
        → Ready written.0
        → Keeps written.0
            (original_kept yaml visit rid body reviewed metadata history w written).0.disk
    original_kept-Keeps metadata history w (disk, false) ready = Keeps-refl disk
    original_kept-Keeps metadata history w (disk, true) ready =
        write_edit-Keeps metadata _ (with_disk disk w) ready

    keep_original-Keeps :
        (metadata : Fields) (existing : Text) (history : List Value) (w : World)
        → lookup first_temp w.disk ≡ none
        → Ready w.disk
        → Keeps w.disk
            (keep_original yaml visit rid body reviewed metadata existing history w).0.disk
    keep_original-Keeps metadata existing history w fresh ready =
        elim (Option-cases (lookup machine w.disk)) [
          | inr (there, e) ↦ rw e (original_kept-Keeps metadata history w (w.disk, true) ready)
          | inl e ↦
              let (kept, still) =
                machine_write (dumps yaml metadata existing) w.disk e fresh ready in
              rw e (Keeps-trans w.disk _ _ kept (original_kept-Keeps metadata history w _ still))
        ]

    edit_history-Keeps :
        (metadata : Fields) (existing : Text) (w : World) (o : Option (List Value))
        → lookup first_temp w.disk ≡ none
        → Ready w.disk
        → Keeps w.disk (edit_history yaml visit rid body reviewed metadata existing w o).0.disk
    edit_history-Keeps metadata existing w none fresh ready = Keeps-refl w.disk
    edit_history-Keeps metadata existing w (some history) fresh ready =
        edit_with-Keeps metadata existing history w (has_original history) fresh ready
      where
        edit_with-Keeps :
            (metadata : Fields) (existing : Text) (history : List Value) (w : World)
            (o : Option Bool)
            → lookup first_temp w.disk ≡ none
            → Ready w.disk
            → Keeps w.disk
                (edit_with yaml visit rid body reviewed metadata existing history w o).0.disk
        edit_with-Keeps metadata existing history w none fresh ready = Keeps-refl w.disk
        edit_with-Keeps metadata existing history w (some true) fresh ready =
            write_edit-Keeps metadata history w ready
        edit_with-Keeps metadata existing history w (some false) fresh ready =
            keep_original-Keeps metadata existing history w fresh ready

    saved-Ready :
        (o : Option FilePath)
        → (save_revision visit.stamped visit.copying (codes "transcript-" ++ rid) transcript d).1
          ≡ ok o
        → Ready
            (save_revision visit.stamped visit.copying (codes "transcript-" ++ rid) transcript d).0
    saved-Ready o made = (
      lookup-save_revision visit.stamped visit.copying _ transcript d revision_differs second_temp
            new.second_revision
          ∙ new.second_new,
      λ old there.
          save_revision-saved visit.stamped visit.copying _ transcript d revision_differs old o made
            there,
    )

    first_kept :
        lookup first_temp
          (save_revision visit.stamped visit.copying (codes "transcript-" ++ rid) transcript d).0
        ≡ none
    first_kept =
        lookup-save_revision visit.stamped visit.copying _ transcript d revision_differs first_temp
          (ground
            (arith, new.first_revision, ==_iff first_temp revision, ==_iff revision first_temp))
        ∙ new.first_new

    edit_revised-Keeps :
        (metadata : Fields) (existing : Text) (w : World)
        (x : Disk × Outcome WriteError (Option FilePath))
        → Keeps w.disk x.0
        → lookup first_temp x.0 ≡ none
        → ((o : Option FilePath) → x.1 ≡ ok o → Ready x.0)
        → Keeps w.disk (edit_revised yaml visit rid body reviewed metadata existing w x).0.disk
    edit_revised-Keeps metadata existing w (kept, err e) k fresh ready = k
    edit_revised-Keeps metadata existing w (kept, ok o) k fresh ready =
        Keeps-trans w.disk kept _ k (
          edit_history-Keeps metadata existing (with_disk kept w) (history_of metadata) fresh
            (ready o refl))

-- Whatever becomes of the request, correcting a transcript takes no text away from the disk: the text
-- of each file, of the transcript that it replaces too, is in some file afterwards. The names of the
-- revision and of the temporary files are new.
pub save_transcript-Keeps :
    (yaml : Yaml) (visit : TranscriptVisit) (rid body reviewed : Text) (w : World)
    → HasNewNames visit rid w.disk
    → Keeps w.disk (save_transcript yaml visit rid body reviewed w).0.disk
unfolding save_transcript
save_transcript-Keeps yaml visit rid body reviewed w new =
    elim (Option-cases (lookup (transcript_path_of rid) w.disk)) [
      | inl e ↦ rw (e, save_transcript) (Keeps-refl w.disk)
      | inr (text, e) ↦
          rw (e, save_transcript) (edit_transcript-Keeps (loads yaml (universal_newlines text)))
    ]
  where
    edit_transcript-Keeps :
        (o : Outcome FrontmatterError (Fields × Text))
        → Keeps w.disk (edit_transcript yaml visit rid body reviewed w o).0.disk
    edit_transcript-Keeps (err e) = Keeps-refl w.disk
    edit_transcript-Keeps (ok (metadata, existing)) =
        edit_revised-Keeps visit rid yaml body reviewed w.disk new metadata existing w _
          (save_revision-Keeps visit.stamped visit.copying _ (transcript_path_of rid) w.disk
            new.revision_new)
          (first_kept visit rid yaml body reviewed w.disk new)
          (saved-Ready visit rid yaml body reviewed w.disk new)
