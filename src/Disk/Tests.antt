-- ===== src/Disk/Tests.antt =====
-- Writing over a file of two.
use veillee.Base.{
  ◌≡◌, refl, true, false, some, [], ◌∷◌, if◌then◌else◌, ◌==◌, nat_eq, list_eq, list_beq,
}
use veillee.Base.Text.{Text, codes}
use veillee.Base.Dict.{lookup, insert, erase}
use veillee.Models.{FilePath}
use veillee.Disk.{Disk, write_raises, completes, atomic_write, move_file, temporary}
use veillee.Disk.Laws.{is_in_place, lookup-atomic_write}

abbrev written_path : FilePath
written_path = codes "answers" ∷ codes "a.md" ∷ []

abbrev other_path : FilePath
other_path = codes "answers" ∷ codes "b.md" ∷ []

abbrev two_files : Disk
two_files = (written_path, codes "old") ∷ (other_path, codes "kept") ∷ []

abbrev temp_name : Text
temp_name = codes ".tmp-x.part"

names_differ :
    ((temporary temp_name written_path == written_path) ≡ false)
    × ((temporary temp_name written_path == other_path) ≡ false)
unfolding list_beq
names_differ = (refl, refl)

lookup-atomic_write_example :
    (lookup written_path
        (atomic_write temp_name (write_raises 2) written_path (codes "new") two_files).0
      ≡ (if is_in_place (write_raises 2)
          then (if written_path == written_path
              then some (codes "new")
              else lookup written_path two_files)
          else lookup written_path two_files))
    × ((atomic_write temp_name (write_raises 2) written_path (codes "new") two_files).1 ≡ true
        → is_in_place (write_raises 2) ≡ true)
lookup-atomic_write_example =
    lookup-atomic_write temp_name (write_raises 2) written_path (codes "new") two_files written_path
      names_differ.0 names_differ.0

replaces :
    atomic_write temp_name completes written_path (codes "new") two_files
    ≡ ((written_path, codes "new") ∷ (other_path, codes "kept") ∷ [], true)
unfolding atomic_write move_file lookup insert erase list_beq
replaces = refl
