-- ===== src/Refile/Tests.antt =====
-- The audio files of a recording of which the second is missing.
use veillee.Base.{◌≡◌, refl, true, [], ◌∷◌, nat_eq, list_eq, list_beq}
use veillee.Base.Text.{codes, starts_with}
use veillee.Base.Dict.{lookup, insert, erase}
use veillee.Values.{Fields, mapping, str, field, end, get_field, text_of}
use veillee.Disk.{Disk, move_file}
use veillee.Refile.{replace_first}
use veillee.Refile.Audio.{names_free}
use veillee.Samples.{sample_yaml}

abbrev two_entries : Fields
two_entries =
    field (codes "original") (mapping (field (codes "name") (str (codes "r-q001.m4a")) end))
      (field (codes "flac") (mapping (field (codes "name") (str (codes "r-q001.flac")) end)) end)

abbrev one_file : Disk
one_file = (codes "audio" ∷ codes "r-q001.m4a" ∷ [], codes "abc") ∷ []

names_are_free :
    names_free sample_yaml
      (codes "audio" ∷ [])
      (codes "r-q001")
      (codes "r-q002")
      two_entries
      one_file
    ≡ true
unfolding names_free replace_first starts_with get_field text_of lookup insert erase list_beq
    move_file
names_are_free = refl
