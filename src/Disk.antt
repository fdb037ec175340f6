-- ===== src/Disk.antt =====
-- The files below the data directory, and `atomic_write` of storage/answers.py. A path is relative to
-- that directory, whose subdirectories config.py names; a directory is there when a file is below it.
pub mod Laws
pub mod Keeps
mod Tests
use veillee.Base.{
  ℕ, Bool, true, false, not, Option, none, some, List, [], ◌∷◌, ◌++◌, ◌&&◌, if◌then◌else◌, take,
  filter, map, any, ◌==◌, nat_eq, list_eq,
}
use veillee.Base.Text.{Text, codes}
use veillee.Base.Dict.{Dict, lookup, insert, erase}
use veillee.Base.Sort.{sort_by, path_le}
use veillee.Models.{FilePath}

abbrev pub Disk : Type 0
Disk = Dict FilePath Text

abbrev pub answers_dir : FilePath
answers_dir = codes "answers" ∷ []

abbrev pub audio_dir : FilePath
audio_dir = codes "audio" ∷ []

abbrev pub transcripts_dir : FilePath
transcripts_dir = codes "transcripts" ∷ []

abbrev pub photographs_dir : FilePath
photographs_dir = codes "photographs" ∷ []

abbrev pub revisions_dir : FilePath
revisions_dir = codes ".revisions" ∷ []

abbrev pub trash_dir : FilePath
trash_dir = codes ".trash" ∷ []

abbrev pub uploads_dir : FilePath
uploads_dir = codes ".uploads" ∷ []

abbrev pub is_some {ℓ} : {A : Type ℓ} → Option A → Bool
is_some none = false
is_some (some a) = true

-- path.exists(), for a file
abbrev pub exists : FilePath → Disk → Bool
exists path disk = is_some (lookup path disk)

-- path.parent
abbrev pub parent : FilePath → FilePath
parent [] = []
parent (c ∷ []) = []
parent (c ∷ d ∷ p) = c ∷ parent (d ∷ p)

-- path.name
abbrev pub file_name : FilePath → Text
file_name [] = []
file_name (c ∷ []) = c
file_name (c ∷ d ∷ p) = file_name (d ∷ p)

-- path.relative_to(directory); `none` is the ValueError.
unfoldable pub relative_to : FilePath → FilePath → Option FilePath
relative_to [] path = some path
relative_to (d ∷ ds) [] = none
relative_to (d ∷ ds) (c ∷ path) = if d == c then relative_to ds path else none

abbrev pub ends_with : Text → Text → Bool
ends_with suffix [] = suffix == []
ends_with suffix (c ∷ s) = if suffix == (c ∷ s) then true else ends_with suffix s

abbrev is_below : FilePath → FilePath → Bool
is_below directory path = elim (relative_to directory path) [
  | some (c ∷ rest) ↦ true
  | some [] ↦ false
  | none ↦ false
]

abbrev names_one : Option FilePath → Bool
names_one (some (name ∷ [])) = true
names_one _ = false

abbrev pub paths_of : Disk → List FilePath
paths_of [] = []
paths_of ((path, text) ∷ disk) = path ∷ paths_of disk

-- directory.is_dir()
unfoldable pub is_dir : FilePath → Disk → Bool
is_dir directory disk = any (is_below directory) (paths_of disk)

-- sorted(directory.rglob("*" + suffix))
unfoldable pub walk : Text → FilePath → Disk → List FilePath
walk suffix directory disk =
    sort_by path_le
      (filter (λ p. is_below directory p && ends_with suffix (file_name p)) (paths_of disk))

-- sorted(directory.glob("*" + suffix))
unfoldable pub children : Text → FilePath → Disk → List FilePath
children suffix directory disk = sort_by path_le (
    filter (λ p. names_one (relative_to directory p) && ends_with suffix (file_name p))
      (paths_of disk))

-- What `read_text` makes of the line ends of a file: a carriage return, and one with its newline, is read
-- as a newline.
unfoldable pub universal_newlines : Text → Text
universal_newlines [] = []
universal_newlines (c ∷ []) = (if c == 13 then 10 else c) ∷ []
universal_newlines (c ∷ d ∷ s) =
    let rest = universal_newlines (d ∷ s) in
    if c == 13 then (if d == 10 then rest else 10 ∷ rest) else c ∷ rest

-- shutil.copy2, of a file that is there
unfoldable pub copy_file : FilePath → FilePath → Disk → Disk
copy_file source destination disk = elim (lookup source disk) [
  | none ↦ disk
  | some text ↦ insert destination text disk
]

-- How making a directory and copying a file into it ends: the copy is made; nothing is made; or the
-- call raises, or the process dies, when some characters are in the copy.
pub data CopyFate : Type 0 where
  copied not_made : CopyFate
  part_copied : ℕ → CopyFate

-- shutil.move, Path.replace and Path.rename, of a file that is there
unfoldable pub move_file : FilePath → FilePath → Disk → Disk
move_file source destination disk = elim (lookup source disk) [
  | none ↦ disk
  | some text ↦ insert destination text (erase source disk)
]

-- How an `atomic_write` ends: it completes; writing raises when some characters are in the
-- temporary file, or the renaming does; or the process dies at one of these two places, or is killed
-- or interrupted when the renaming has taken effect and the call has not returned.
pub data Fate : Type 0 where
  completes : Fate
  write_raises write_dies : ℕ → Fate
  replace_raises replace_dies dies_after : Fate

-- The sibling that `mkstemp` creates.
abbrev pub temporary : Text → FilePath → FilePath
temporary temp_name path = parent path ++ (temp_name ∷ [])

-- The disk afterwards, and whether the call returned.
unfoldable pub atomic_write : Text → Fate → FilePath → Text → Disk → Disk × Bool
unfolding move_file
atomic_write temp_name fate path text disk =
    let temp = temporary temp_name path in
    let created = insert temp [] disk in
    elim fate [
      | completes ↦ (move_file temp path (insert temp text created), true)
      | write_raises n ↦ (erase temp (insert temp (take n text) created), false)
      | write_dies n ↦ (insert temp (take n text) created, false)
      | replace_raises ↦ (erase temp (insert temp text created), false)
      | replace_dies ↦ (insert temp text created, false)
      | dies_after ↦ (move_file temp path (insert temp text created), false)
    ]
