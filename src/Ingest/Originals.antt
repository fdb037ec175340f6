-- ===== src/Ingest/Originals.antt =====
-- The original of a recording survives whatever happens after it is in place.
use veillee.Base.{
  ℕ, ◌≡◌, refl, ◌∙◌, Bool, true, false, some, List, [], ◌∷◌, ◌++◌, ◌==◌, ==_refl, nat_eq, list_eq,
  list_beq, Outcome, ok, err, Option-cases, inl, inr, if_same, subst, ok_injective, >>=-eq-ok, Eq,
}
use veillee.Base.Text.{Text, codes}
use veillee.Base.Dict.{lookup, insert, erase, lookup-insert, lookup-erase}
use veillee.Models.{FilePath, Recording}
use veillee.Values.{Yaml}
use veillee.Disk.{Disk, Fate, temporary, audio_dir}
use veillee.Disk.Laws.{lookup-move_file, written_file}
use veillee.Sidecars.{
  Library, RecordingPaths, recording_paths, NewRecording, write_sidecar, read_sidecar,
  sidecar_payload, dotted,
}
use veillee.Answers.{ReadError, os_error, or_error}
use veillee.Index.{Tables}
use veillee.Paths.{recording_id, recording_dir_for}
use veillee.Ingest.{
  Audio, World, Upload, upload_paths, cleanup, file_read, after_sidecar, convert, ingest_recording,
}

beq-append {ℓ} : {A : Type ℓ} ⦃e : Eq A⦄ (p xs ys : List A) → ((p ++ xs) == (p ++ ys)) ≡ (xs == ys)
unfolding list_beq
beq-append ⦃e⦄ [] xs ys = refl
beq-append ⦃e⦄ (x ∷ p) xs ys = rw (==_refl ⦃e = e⦄ x) (beq-append p xs ys)

beq-singleton : (s t : Text) → (s == t) ≡ false → ((s ∷ []) == (t ∷ [])) ≡ false
unfolding list_beq
beq-singleton s t h = rw h refl

pub sibling_differs :
    (directory : FilePath) (name s t : Text)
    → (s == t) ≡ false
    → ((directory ++ ((name ++ s) ∷ [])) == (directory ++ ((name ++ t) ∷ []))) ≡ false
sibling_differs directory name s t h =
    beq-append directory _ _ ∙ beq-singleton _ _ (beq-append name s t ∙ h)

suffixes_differ :
    (s : Text)
    → ((codes ".flac" == (codes ".orig" ++ s)) ≡ false)
      × ((codes ".opus" == (codes ".orig" ++ s)) ≡ false)
      × ((codes ".json" == (codes ".orig" ++ s)) ≡ false)
unfolding list_beq
suffixes_differ s = (refl, refl, refl)

-- The other files of a recording stand beside its original, under other names.
original_apart :
    (rid suffix : Text)
    → let paths = recording_paths rid suffix in
      ((paths.flac == paths.original) ≡ false)
      × ((paths.opus == paths.original) ≡ false)
      × ((paths.sidecar == paths.original) ≡ false)
unfolding recording_paths
original_apart rid suffix =
    let directory = audio_dir ++ recording_dir_for rid in
    let (f, o, j) = suffixes_differ (dotted suffix) in
    (
      sibling_differs directory rid _ _ f,
      sibling_differs directory rid _ _ o,
      sibling_differs directory rid _ _ j,
    )

-- A sidecar that is written leaves each other file alone.
lookup-write_sidecar :
    (lib : Library) (temp_name : Text) (fate : Fate) (r : NewRecording) (paths : RecordingPaths)
    (disk after : Disk) (returned : Bool) (q : FilePath)
    → write_sidecar lib temp_name fate r paths disk ≡ ok (after, returned)
    → (temporary temp_name paths.sidecar == paths.sidecar) ≡ false
    → (temporary temp_name paths.sidecar == q) ≡ false
    → (paths.sidecar == q) ≡ false
    → lookup q after ≡ lookup q disk
unfolding write_sidecar
lookup-write_sidecar lib temp_name fate r paths disk after returned q h distinct other elsewhere =
    let (original, a, h1) = >>=-eq-ok (or_error os_error (lookup paths.original disk)) _ h in
    let (flac, b, h2) = >>=-eq-ok (or_error os_error (lookup paths.flac disk)) _ h1 in
    let (opus, c, h3) = >>=-eq-ok (or_error os_error (lookup paths.opus disk)) _ h2 in
    let text = lib.json_dumps (sidecar_payload lib r paths original flac opus) ++ codes "\n" in
    subst (λ x. lookup q x.0 ≡ lookup q disk) (ok_injective h3)
      (rw (written_file temp_name fate paths.sidecar text disk q distinct other, elsewhere)
        (if_same _ (lookup q disk)))

module _ (lib : Library) (yaml : Yaml) (audio : Audio) (fate : Fate) (u : Upload) where
  cleanup-original :
      (disk : Disk)
      → lookup (upload_paths u).original (cleanup (upload_paths u) disk)
        ≡ lookup (upload_paths u).original disk
  unfolding cleanup
  cleanup-original disk =
      let (f, o, j) = original_apart (recording_id u.question_id u.moment) u.original_suffix in
      let paths = upload_paths u in
      rw
        (
          lookup-erase paths.original paths.sidecar (erase paths.opus (erase paths.flac disk)),
          j,
          lookup-erase paths.original paths.opus (erase paths.flac disk),
          o,
          lookup-erase paths.original paths.flac disk,
          f,
        )
        refl

  with_flac :
      (flac : Text) (disk : Disk)
      → lookup (upload_paths u).original (insert (upload_paths u).flac flac disk)
        ≡ lookup (upload_paths u).original disk
  with_flac flac disk =
      let (f, o, j) = original_apart (recording_id u.question_id u.moment) u.original_suffix in
      rw (lookup-insert (upload_paths u).original (upload_paths u).flac flac disk, f) refl

  with_opus :
      (opus : Text) (disk : Disk)
      → lookup (upload_paths u).original (insert (upload_paths u).opus opus disk)
        ≡ lookup (upload_paths u).original disk
  with_opus opus disk =
      let (f, o, j) = original_apart (recording_id u.question_id u.moment) u.original_suffix in
      rw (lookup-insert (upload_paths u).original (upload_paths u).opus opus disk, o) refl

  file_read-disk :
      (disk : Disk) (t : Tables) (o : Outcome ReadError Recording)
      → (file_read u disk t o).0.disk ≡ disk
  file_read-disk disk t (ok r) = refl
  file_read-disk disk t (err e) = refl

  module _
      (distinct : (temporary u.temp_name (upload_paths u).sidecar == (upload_paths u).sidecar)
        ≡ false)
      (other : (temporary u.temp_name (upload_paths u).sidecar == (upload_paths u).original)
        ≡ false) where
    sidecar_original :
        (r : NewRecording) (disk after : Disk) (returned : Bool)
        → write_sidecar lib u.temp_name fate r (upload_paths u) disk ≡ ok (after, returned)
        → lookup (upload_paths u).original after ≡ lookup (upload_paths u).original disk
    sidecar_original r disk after returned h =
        lookup-write_sidecar lib u.temp_name fate r (upload_paths u) disk after returned
          (upload_paths u).original h distinct other
          (original_apart (recording_id u.question_id u.moment) u.original_suffix).2

    after_sidecar-original :
        (r : NewRecording) (disk : Disk) (t : Tables) (o : Outcome ReadError (Disk × Bool))
        → write_sidecar lib u.temp_name fate r (upload_paths u) disk ≡ o
        → lookup (upload_paths u).original (after_sidecar lib yaml u disk t o).0.disk
          ≡ lookup (upload_paths u).original disk
    after_sidecar-original r disk t (err e) h = refl
    after_sidecar-original r disk t (ok (after, false)) h = sidecar_original r disk after false h
    after_sidecar-original r disk t (ok (after, true)) h =
        rw (file_read-disk after t (read_sidecar lib yaml (upload_paths u).sidecar after))
          (sidecar_original r disk after true h)

    convert-original :
        (original : Text) (disk : Disk) (t : Tables)
        → lookup (upload_paths u).original (convert lib yaml audio fate u original disk t).0.disk
          ≡ lookup (upload_paths u).original disk
    unfolding convert
    convert-original original disk t = elim (Option-cases (audio.to_flac original)) [
      | inl h ↦ rw (h, convert) (cleanup-original disk)
      | inr (flac, h) ↦ elim (Option-cases (audio.to_opus original)) [
        | inl k ↦
            rw (h, k, convert)
              (cleanup-original (insert (upload_paths u).flac flac disk) ∙ with_flac flac disk)
        | inr (opus, k) ↦
            rw (h, k, convert)
              (after_sidecar-original _ _ t _ refl ∙ with_opus opus _ ∙ with_flac flac disk)
      ]
    ]

-- Audio that can be decoded is at the original's path afterwards, byte for byte, whether its
-- conversion succeeds or fails and however the writing of the sidecar ends, provided that the
-- temporary file of the sidecar has a name of its own.
pub ingest_recording-keeps_original :
    (lib : Library) (yaml : Yaml) (audio : Audio) (fate : Fate) (u : Upload) (w : World) (c : ℕ)
    (bytes : Text)
    → lookup u.source_path w.disk ≡ some (c ∷ bytes)
    → audio.is_decodable (c ∷ bytes) ≡ true
    → (temporary u.temp_name (upload_paths u).sidecar == (upload_paths u).sidecar) ≡ false
    → (temporary u.temp_name (upload_paths u).sidecar == (upload_paths u).original) ≡ false
    → lookup (upload_paths u).original (ingest_recording lib yaml audio fate u w).0.disk
      ≡ some (c ∷ bytes)
unfolding ingest_recording
ingest_recording-keeps_original lib yaml audio fate u w c bytes h d distinct other =
    let original = (upload_paths u).original in
    rw (h, d, ingest_recording)
      (convert-original lib yaml audio fate u distinct other (c ∷ bytes) _ w.tables
        ∙ rw
            (
              lookup-move_file original u.source_path original (c ∷ bytes) w.disk h,
              ==_refl original,
            )
            refl)
