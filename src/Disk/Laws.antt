-- ===== src/Disk/Laws.antt =====
-- `atomic_write` leaves the old file or the new one, and no other file is touched.
use veillee.Base.{
  ◌≡◌, refl, Bool, true, false, arith, none, some, [], if◌then◌else◌, take, ◌==◌, ==_refl, nat_eq,
  list_eq,
}
use veillee.Base.Text.{Text}
use veillee.Base.Dict.{lookup, insert, erase, lookup-insert, lookup-erase}
use veillee.Models.{FilePath}
use veillee.Disk.{
  Disk, Fate, completes, write_raises, write_dies, replace_raises, replace_dies, dies_after,
  temporary, move_file, atomic_write,
}

-- What a moved file leaves behind.
pub lookup-move_file :
    (q source destination : FilePath) (text : Text) (disk : Disk)
    → lookup source disk ≡ some text
    → lookup q (move_file source destination disk)
      ≡ (if destination == q then some text else if source == q then none else lookup q disk)
unfolding move_file
lookup-move_file q source destination text disk h =
    rw (
      h,
      move_file,
      lookup-insert q destination text (erase source disk),
      lookup-erase q source disk,
    )

-- The new file stands where the renaming has taken effect.
abbrev pub is_in_place : Fate → Bool
is_in_place completes = true
is_in_place dies_after = true
is_in_place fate = false

pub atomic_write-is_in_place :
    (temp_name : Text) (fate : Fate) (path : FilePath) (text : Text) (disk : Disk)
    → (atomic_write temp_name fate path text disk).1 ≡ true
    → is_in_place fate ≡ true
unfolding atomic_write
atomic_write-is_in_place temp_name fate path text disk h = ground arith

-- The renaming of a temporary file that is written out.
renamed_file :
    (temp_name : Text) (path : FilePath) (text : Text) (disk : Disk) (q : FilePath)
    → (temporary temp_name path == q) ≡ false
    → lookup q (
        move_file
          (temporary temp_name path)
          path
          (insert (temporary temp_name path) text (insert (temporary temp_name path) [] disk)))
      ≡ (if path == q then some text else lookup q disk)
renamed_file temp_name path text disk q k =
    let temp = temporary temp_name path in
    let created = insert temp [] disk in
    rw
      (
        lookup-move_file q temp path text (insert temp text created)
            (rw (lookup-insert temp temp text created, ==_refl temp) refl),
        lookup-insert q temp text created,
        lookup-insert q temp [] disk,
        k,
      )
      refl

pub written_file :
    (temp_name : Text) (fate : Fate) (path : FilePath) (text : Text) (disk : Disk) (q : FilePath)
    → (temporary temp_name path == path) ≡ false
    → (temporary temp_name path == q) ≡ false
    → lookup q (atomic_write temp_name fate path text disk).0 ≡ (
        if is_in_place fate
        then (if path == q then some text else lookup q disk)
        else lookup q disk)
unfolding atomic_write
written_file temp_name completes path text disk q h k = renamed_file temp_name path text disk q k
written_file temp_name dies_after path text disk q h k = renamed_file temp_name path text disk q k
written_file temp_name (write_raises n) path text disk q h k =
    let temp = temporary temp_name path in
    let created = insert temp [] disk in
    rw
      (
        lookup-erase q temp (insert temp (take n text) created),
        lookup-insert q temp (take n text) created,
        lookup-insert q temp [] disk,
        k,
      )
      refl
written_file temp_name (write_dies n) path text disk q h k =
    let temp = temporary temp_name path in
    let created = insert temp [] disk in
    rw (lookup-insert q temp (take n text) created, lookup-insert q temp [] disk, k) refl
written_file temp_name replace_raises path text disk q h k =
    let temp = temporary temp_name path in
    let created = insert temp [] disk in
    rw
      (
        lookup-erase q temp (insert temp text created),
        lookup-insert q temp text created,
        lookup-insert q temp [] disk,
        k,
      )
      refl
written_file temp_name replace_dies path text disk q h k =
    let temp = temporary temp_name path in
    let created = insert temp [] disk in
    rw (lookup-insert q temp text created, lookup-insert q temp [] disk, k) refl

-- What a file holds after `atomic_write`, other than the temporary file: the new text where it is the
-- file written and the renaming took effect, which it did whenever the call returned, and what it held
-- before otherwise. The temporary file's name differs from the file's.
pub lookup-atomic_write :
    (temp_name : Text) (fate : Fate) (path : FilePath) (text : Text) (disk : Disk) (q : FilePath)
    → (temporary temp_name path == path) ≡ false
    → (temporary temp_name path == q) ≡ false
    → (lookup q (atomic_write temp_name fate path text disk).0 ≡ (
        if is_in_place fate
        then (if path == q then some text else lookup q disk)
        else lookup q disk))
      × ((atomic_write temp_name fate path text disk).1 ≡ true → is_in_place fate ≡ true)
lookup-atomic_write temp_name fate path text disk q h k = (
  written_file temp_name fate path text disk q h k,
  atomic_write-is_in_place temp_name fate path text disk,
)
