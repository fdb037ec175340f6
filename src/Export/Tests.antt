-- ===== src/Export/Tests.antt =====
-- An export of two files.
use veillee.Base.{
  ◌≡◌, refl, true, false, none, some, [], ◌∷◌, ◌++◌, nat_eq, list_eq, list_beq, ok, all, ◌==◌,
}
use veillee.Base.Text.{codes}
use veillee.Base.Dict.{lookup}
use veillee.Base.Sort.{sort_by, lexicographic}
use veillee.Disk.{Disk, temporary, walk, relative_to, completes}
use veillee.Sidecars.{Library}
use veillee.Export.{manifest_path, write_manifest, every_file, manifest_entries}
use veillee.Export.Manifest.{verify_manifest}
use veillee.Export.Manifest.Sound.{document, is_name, write_manifest-verify_manifest}

abbrev blank : Library
blank = record { json_loads = λ s. none; json_dumps = λ v. []; sha256 = λ s. s }

abbrev two_files : Disk
two_files =
    (codes "answers" ∷ codes "q001.md" ∷ [], codes "Here.")
    ∷ (codes "index.html" ∷ [], codes "<p>")
    ∷ []

-- JSON that keeps this one document.
abbrev keeping : Library
keeping = record {
  json_loads = λ s. some (document blank (λ v. []) (codes "now") (codes ".tmp-x.part") two_files);
  json_dumps = λ v. codes "{}";
  sha256 = λ s. s;
}

names : all (all is_name) (every_file two_files) ≡ true
unfolding walk relative_to list_beq sort_by lexicographic
names = refl

new_name : lookup (temporary (codes ".tmp-x.part") manifest_path) two_files ≡ none
unfolding lookup list_beq
new_name = refl

other_name : (temporary (codes ".tmp-x.part") manifest_path == manifest_path) ≡ false
unfolding list_beq
other_name = refl

reads_back :
    keeping.json_loads (
      keeping.json_dumps (document keeping (λ v. []) (codes "now") (codes ".tmp-x.part") two_files)
      ++ codes "\n")
    ≡ some (document keeping (λ v. []) (codes "now") (codes ".tmp-x.part") two_files)
unfolding manifest_entries
reads_back = refl

write_manifest-verify_manifest_example :
    verify_manifest keeping
      (λ v. [])
      (write_manifest keeping (codes "now") (codes ".tmp-x.part") completes two_files).0
    ≡ ok []
write_manifest-verify_manifest_example =
    write_manifest-verify_manifest keeping (λ v. []) (codes "now") (codes ".tmp-x.part") two_files
      other_name new_name names reads_back
