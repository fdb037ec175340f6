-- ===== src/Refile/Audio.antt =====
-- The audio files of a recording that is refiled.
use veillee.Base.{
  and_both, ◌≡◌, refl, Bool, true, Option, none, some, [], ◌∷◌, ◌++◌, not, ◌&&◌, Option-cases, inl,
  inr, nat_eq, list_eq, ok, err,
}
use veillee.Base.Text.{Text, codes}
use veillee.Base.Dict.{lookup}
use veillee.Models.{FilePath}
use veillee.Values.{Value, mapping, Fields, end, field, get_field, text_of, Yaml}
use veillee.Disk.{Disk, exists, move_file}
use veillee.Disk.Keeps.{not_there, Keeps, Keeps-refl, Keeps-trans, move_file-Keeps}
use veillee.Refile.{Moved, replace_first, rename_files, rename_file, renamed_entry}

module _ (yaml : Yaml) (directory : FilePath) (recording_id new_recording_id : Text) where
  abbrev new_path : Text → FilePath
  new_path name = directory ++ (replace_first recording_id new_recording_id name ∷ [])

  abbrev next_disk : Option Value → Disk → Disk
  next_disk none d = d
  next_disk (some v) d =
      let name = text_of yaml.repr v in move_file (directory ++ (name ∷ [])) (new_path name) d

  abbrev is_free : Option Value → Disk → Bool
  is_free none d = true
  is_free (some v) d = not (exists (new_path (text_of yaml.repr v)) d)

  -- At each of the renamings nothing stands under the new name.
  unfoldable pub names_free : Fields → Disk → Bool
  names_free end d = true
  names_free (field kind (mapping entry) rest) d =
      let name = get_field (codes "name") entry in
      is_free name d && names_free rest (next_disk name d)
  names_free (field kind v rest) d = true

  renamed-disk :
      (kind name : Text) (entry rest : Fields) (m : Moved)
      → (renamed_entry yaml directory recording_id new_recording_id kind name entry rest m).0 ≡ m.0
  renamed-disk kind name entry rest (d, ok fs) = refl
  renamed-disk kind name entry rest (d, err e) = refl

  rename_file-Keeps :
      (kind : Text) (entry rest : Fields) (o : Option Value) (go_on : Disk → Moved) (d : Disk)
      → is_free o d ≡ true
      → Keeps (next_disk o d) (go_on (next_disk o d)).0
      → Keeps d
          (rename_file yaml directory recording_id new_recording_id kind entry rest o go_on d).0
  rename_file-Keeps kind entry rest none go_on d free after = Keeps-refl d
  rename_file-Keeps kind entry rest (some v) go_on d free after =
      let name = text_of yaml.repr v in
      let source = directory ++ (name ∷ []) in
      elim (Option-cases (lookup source d)) [
        | inl e ↦ rw e (Keeps-refl d)
        | inr (text, e) ↦
            rw
              (
                e,
                renamed-disk kind (replace_first recording_id new_recording_id name) entry rest
                    (go_on (next_disk (some v) d)),
              )
              (Keeps-trans d (next_disk (some v) d) _
                (move_file-Keeps source (new_path name) d (not_there (new_path name) d free)) after)
      ]

  -- Wherever the renaming of a recording's files ends, also where one is missing, no text is lost: each
  -- is in some file afterwards, if no file stands under a new name when it is given.
  rename_files-Keeps :
      (fs : Fields) (d : Disk)
      → names_free fs d ≡ true
      → Keeps d (rename_files yaml directory recording_id new_recording_id fs d).0
  unfolding rename_files names_free
  rename_files-Keeps end d free = Keeps-refl d
  rename_files-Keeps (field kind (mapping entry) rest) d free =
      let name = get_field (codes "name") entry in
      let (here, there) = and_both (is_free name d) (names_free rest (next_disk name d)) free in
      rename_file-Keeps kind entry rest name
        (rename_files yaml directory recording_id new_recording_id rest) d here
        (rename_files-Keeps rest (next_disk name d) there)
  rename_files-Keeps (field kind v rest) d free = Keeps-refl d
