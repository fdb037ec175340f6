-- ===== src/Ingest/Refusal.antt =====
-- The file that was given is kept, also where it is no photograph.
use veillee.Base.{
  ℕ, ◌≡◌, refl, false, none, some, ◌∷◌, ◌++◌, ◌==◌, ==_refl, nat_eq, list_eq, list_beq, err,
}
use veillee.Base.Text.{Text, codes}
use veillee.Base.Dict.{lookup, erase, lookup-erase}
use veillee.Paths.{recording_id, recording_dir_for}
use veillee.Values.{Yaml}
use veillee.Disk.{Fate, move_file, photographs_dir}
use veillee.Disk.Laws.{lookup-move_file}
use veillee.Answers.{trash_path}
use veillee.Answers.Keeping.{lookup-move_to_trash}
use veillee.Sidecars.{Library, dotted}
use veillee.Photographs.{photo_paths}
use veillee.Ingest.{World, not_a_photograph}
use veillee.Ingest.Photos.{Pillow, PhotoUpload, photo_upload_paths, make_view, ingest_photograph}
use veillee.Ingest.Originals.{sibling_differs}

suffix_differs : (s : Text) → (codes ".jpg" == (codes ".orig" ++ s)) ≡ false
unfolding list_beq
suffix_differs s = refl

view_apart :
    (id suffix : Text) → ((photo_paths id suffix).view == (photo_paths id suffix).original) ≡ false
unfolding photo_paths
view_apart id suffix =
    sibling_differs (photographs_dir ++ recording_dir_for id) id _ _
      (suffix_differs (dotted suffix))

-- A file that Pillow cannot read is refused, changes no table, and ends in the trash byte for byte,
-- under the place that the photograph would have had.
pub ingest_photograph-refuses :
    (lib : Library) (yaml : Yaml) (pillow : Pillow) (fate : Fate) (u : PhotoUpload) (w : World)
    (c : ℕ) (bytes : Text)
    → lookup u.source_path w.disk ≡ some (c ∷ bytes)
    → pillow.make_view_copy (c ∷ bytes) ≡ none
    → ((ingest_photograph lib yaml pillow fate u w).1 ≡ err not_a_photograph)
      × ((ingest_photograph lib yaml pillow fate u w).0.tables ≡ w.tables)
      × (lookup
            (trash_path u.trashed (photo_upload_paths u).original)
            (ingest_photograph lib yaml pillow fate u w).0.disk
          ≡ some (c ∷ bytes))
unfolding ingest_photograph make_view
ingest_photograph-refuses lib yaml pillow fate u w c bytes h p =
    let paths = photo_upload_paths u in
    let moved = move_file u.source_path paths.original w.disk in
    let there : lookup paths.original (erase paths.view moved) ≡ some (c ∷ bytes) =
      rw
        (
          lookup-erase paths.original paths.view moved,
          view_apart (recording_id u.question_id u.moment) u.original_suffix,
          lookup-move_file paths.original u.source_path paths.original (c ∷ bytes) w.disk h,
          ==_refl paths.original,
        )
        refl in
    (
      rw (h, p, ingest_photograph, make_view) refl,
      rw (h, p, ingest_photograph, make_view) refl,
      rw (h, p, ingest_photograph, make_view)
          (lookup-move_to_trash u.trashed paths.original (erase paths.view moved) (c ∷ bytes)
            there),
    )
