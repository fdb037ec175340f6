-- ===== src/Disk/Keeps.antt =====
-- Operations that may rename a file or add one, and never take a text away.
use veillee.Base.{
  not, ◌≡◌, ◌∙◌, true, false, none, some, if_same, sym, ◌==◌, ==_refl, ==_iff, nat_eq, list_eq,
  Bool-cases, Option-cases, inl, inr, arith,
}
use veillee.Base.Text.{Text}
use veillee.Base.Dict.{lookup, insert, lookup-insert}
use veillee.Models.{FilePath}
use veillee.Disk.{Disk, Fate, exists, temporary, move_file, atomic_write}
use veillee.Disk.Laws.{lookup-move_file, written_file}

-- Each text that a file of the first disk holds, some file of the second holds.
abbrev pub Keeps : Disk → Disk → Type 0
Keeps d e =
    (p : FilePath) (text : Text)
    → lookup p d ≡ some text
    → (q : FilePath) × (lookup q e ≡ some text)

pub Keeps-refl : (d : Disk) → Keeps d d
Keeps-refl d p text h = (p, h)

pub Keeps-trans : (d e f : Disk) → Keeps d e → Keeps e f → Keeps d f
Keeps-trans d e f k l p text h = let (q, there) = k p text h in l q text there

-- A path without a file is another path than a file's.
pub absent_differs :
    (t p : FilePath) (text : Text) (d : Disk)
    → lookup t d ≡ none
    → lookup p d ≡ some text
    → (t == p) ≡ false
absent_differs t p text d free h = elim (Bool-cases (t == p)) [
  | inl e ↦ let same : t ≡ p = (==_iff t p).0 e in absurd (cc (free, h, same))
  | inr n ↦ n
]

-- A file that was not there.
pub insert-Keeps :
    (path : FilePath) (new : Text) (d : Disk) → lookup path d ≡ none → Keeps d (insert path new d)
insert-Keeps path new d free p text h =
    (p, rw (lookup-insert p path new d) (ground (arith, ==_iff path p, h, free)))

pub move_file-Keeps :
    (source destination : FilePath) (d : Disk)
    → lookup destination d ≡ none
    → Keeps d (move_file source destination d)
unfolding move_file
move_file-Keeps source destination d free p text h = elim (Option-cases (lookup source d)) [
  | inl none_there ↦ (p, rw (none_there, move_file) h)
  | inr (moved, k) ↦ elim (Bool-cases (source == p)) [
    | inl e ↦
        let same : source ≡ p = (==_iff source p).0 e in
        (
          destination,
          lookup-move_file destination source destination moved d k
              ∙ rw (==_refl destination) (sym k ∙ rw same h),
        )
    | inr n ↦ (
      p,
      lookup-move_file p source destination moved d k
          ∙ rw (absent_differs destination p text d free h, n) h,
    )
  ]
]

-- A file that is written anew loses what it held, which another file must hold then. The temporary
-- file is a new one.
pub atomic_write-Keeps :
    (temp_name : Text) (fate : Fate) (path : FilePath) (new : Text) (d : Disk)
    → (temporary temp_name path == path) ≡ false
    → lookup (temporary temp_name path) d ≡ none
    → ((old : Text)
        → lookup path d ≡ some old
        → (q : FilePath) × ((path == q) ≡ false) × (lookup q d ≡ some old))
    → Keeps d (atomic_write temp_name fate path new d).0
atomic_write-Keeps temp_name fate path new d differs fresh saved p text h =
    let other : (q : FilePath)
        → (path == q) ≡ false
        → lookup q d ≡ some text
        → lookup q (atomic_write temp_name fate path new d).0 ≡ some text =
      λ q apart there.
        written_file temp_name fate path new d q differs (absent_differs _ q text d fresh there)
        ∙ (rw apart (if_same _ (lookup q d)) ∙ there) in
    elim (Bool-cases (path == p)) [
      | inl e ↦
          let same : path ≡ p = (==_iff path p).0 e in
          let (q, apart, there) = saved text (rw same h) in (q, other q apart there)
      | inr n ↦ (p, other p n h)
    ]

pub not_there : (p : FilePath) (d : Disk) → not (exists p d) ≡ true → lookup p d ≡ none
not_there p d h = elim (Option-cases (lookup p d)) [
  | inl e ↦ e
  | inr (text, e) ↦ absurd (cc (rw e at h))
]
