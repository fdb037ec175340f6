-- ===== src/Cli/Tests.antt =====
-- An archive of one recording.
use veillee.Base.{◌≡◌, refl, true, some, [], ◌∷◌, nat_eq, list_eq, list_beq, ok, contains}
use veillee.Base.Text.{Text, codes}
use veillee.Base.Dict.{lookup}
use veillee.Base.Sort.{sort_by, lexicographic}
use veillee.Models.{FilePath}
use veillee.Values.{Value, str, mapping, end, field, get_field, text_of, int_of}
use veillee.Disk.{Disk, walk, relative_to, is_dir}
use veillee.Sidecars.{Library, iter_sidecars, read_sidecar, verify_recording, check_file}
use veillee.Cli.{cmd_verify, verify_sidecars}
use veillee.Cli.Verified.{IsIntact, cmd_verify_passes}
use veillee.Samples.{sample_yaml}

abbrev one_file : Text → Value
one_file name =
    mapping (field (codes "name") (str name) (field (codes "sha256") (str (codes "abc")) end))

abbrev payload : Value
payload = mapping (
    field (codes "recording_id") (str (codes "r")) (
      field (codes "question_id") (str (codes "q001")) (
        field (codes "files")
          (mapping (
            field (codes "original") (one_file (codes "o")) (
              field (codes "flac") (one_file (codes "f"))
                (field (codes "opus") (one_file (codes "p")) end))))
          end)))

abbrev reading : Library
reading = record { json_loads = λ s. some payload; json_dumps = λ v. []; sha256 = λ s. s }

abbrev sidecar : FilePath
sidecar = codes "audio" ∷ codes "r.json" ∷ []

abbrev archive : Disk
archive =
    (sidecar, codes "{}")
    ∷ (codes "audio" ∷ codes "o" ∷ [], codes "abc")
    ∷ (codes "audio" ∷ codes "f" ∷ [], codes "abc")
    ∷ (codes "audio" ∷ codes "p" ∷ [], codes "abc")
    ∷ []

passes : cmd_verify reading sample_yaml archive ≡ ok 0
unfolding cmd_verify verify_sidecars iter_sidecars is_dir walk relative_to sort_by lexicographic
    list_beq lookup read_sidecar get_field text_of verify_recording check_file int_of
passes = refl

listed : contains (iter_sidecars archive) sidecar ≡ true
unfolding iter_sidecars is_dir walk relative_to sort_by lexicographic list_beq
listed = refl

cmd_verify_passes_example : IsIntact reading sample_yaml archive sidecar
cmd_verify_passes_example = cmd_verify_passes reading sample_yaml archive sidecar passes listed
