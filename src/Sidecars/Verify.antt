-- ===== src/Sidecars/Verify.antt =====
-- When the checksums of a recording are found in order.
use veillee.Base.{
  ◌≡◌, ◌↔◌, ◌∙◌, ap, ◌&&◌, ok, >>=-eq-ok, ok_injective, refl, Bool, true, none, some, List, [], ◌∷◌,
  ◌++◌, ◌||◌, ◌==◌, nat_eq, list_eq, Option-cases, inl, inr, arith,
}
use veillee.Base.Text.{Text, codes}
use veillee.Base.Dict.{lookup}
use veillee.Models.{FilePath, Recording}
use veillee.Disk.{Disk, is_dir}
use veillee.Sidecars.{Library, check_file, verify_recording}

-- A file is there with the expected checksum where one is expected, or a directory is there and none is.
abbrev pub is_intact : Library → Disk → Text → FilePath → Bool
is_intact lib disk expected path = elim (lookup path disk) [
  | none ↦ is_dir path disk && expected == []
  | some text ↦ expected == [] || lib.sha256 text == expected
]

check_file-intact :
    (lib : Library) (disk : Disk) (label : Text) (path : FilePath) (expected : Text)
    → (check_file lib disk label path expected ≡ ok []) ↔ (is_intact lib disk expected path ≡ true)
unfolding check_file
check_file-intact lib disk label path expected = elim (Option-cases (lookup path disk)) [
  | inl h ↦ rw (h, check_file) (ground arith)
  | inr (text, h) ↦ rw (h, check_file) (ground arith)
]

append-empty {ℓ} : {A : Type ℓ} (xs ys : List A) → xs ++ ys ≡ [] → (xs ≡ []) × (ys ≡ [])
append-empty [] ys h = (refl, h)
append-empty (x ∷ xs) ys h = absurd (cc h)

-- `verify_recording` returns and reports nothing exactly if each of the three paths is a file with the
-- checksum that the sidecar gave for it, or the sidecar gave none and there is a file or a directory.
pub verify_recording_sound :
    (lib : Library) (disk : Disk) (r : Recording)
    → (verify_recording lib disk r ≡ ok []) ↔ (
        (is_intact lib disk r.sha256_original r.original_path ≡ true)
        × (is_intact lib disk r.sha256_flac r.flac_path ≡ true)
        × (is_intact lib disk r.sha256_opus r.opus_path ≡ true))
unfolding verify_recording
verify_recording_sound lib disk r =
    let original = check_file lib disk (codes "original") r.original_path r.sha256_original in
    let flac = check_file lib disk (codes "flac") r.flac_path r.sha256_flac in
    let opus = check_file lib disk (codes "opus") r.opus_path r.sha256_opus in
    let a = check_file-intact lib disk (codes "original") r.original_path r.sha256_original in
    let b = check_file-intact lib disk (codes "flac") r.flac_path r.sha256_flac in
    let c = check_file-intact lib disk (codes "opus") r.opus_path r.sha256_opus in
    (
      λ h.
          let (x, e, h1) = >>=-eq-ok original _ h in
          let (y, f, h2) = >>=-eq-ok flac _ h1 in
          let (z, g, h3) = >>=-eq-ok opus _ h2 in
          let (no_x, rest) = append-empty x (y ++ z) (ok_injective h3) in
          let (no_y, no_z) = append-empty y z rest in
          (a.0 (e ∙ ap ok no_x), b.0 (f ∙ ap ok no_y), c.0 (g ∙ ap ok no_z)),
      λ (x, y, z). rw (a.1 x, b.1 y, c.1 z) refl,
    )
