-- ===== src/Sidecars/Tests.antt =====
-- A recording whose files are in order but for one.
use veillee.Base.{◌≡◌, ◌↔◌, true, false, none, [], ◌∷◌, ok}
use veillee.Base.Text.{codes}
use veillee.Base.{nat_eq, list_eq}
use veillee.Models.{Recording}
use veillee.Disk.{Disk}
use veillee.Sidecars.{Library, verify_recording}
use veillee.Sidecars.Verify.{is_intact, verify_recording_sound}

abbrev toy_library : Library
toy_library = record { json_loads = λ s. none; json_dumps = λ v. []; sha256 = λ s. s }

abbrev toy_recording : Recording
toy_recording = record {
  recording_id = codes "r";
  question_id = codes "q001";
  created = [];
  duration_ms = 0;
  device = [];
  original_path = codes "o" ∷ [];
  flac_path = codes "f" ∷ [];
  opus_path = codes "p" ∷ [];
  sidecar_path = codes "s" ∷ [];
  sha256_original = codes "abc";
  sha256_flac = [];
  sha256_opus = codes "abc";
  source = [];
  transcript_path = none;
  transcript_reviewed = false;
}

abbrev three_files : Disk
three_files =
    (codes "o" ∷ [], codes "abc") ∷ (codes "f" ∷ [], codes "x") ∷ (codes "p" ∷ [], codes "x") ∷ []

verify_recording_sound_example :
    (verify_recording toy_library three_files toy_recording ≡ ok []) ↔ (
      (is_intact toy_library three_files (codes "abc") (codes "o" ∷ []) ≡ true)
      × (is_intact toy_library three_files [] (codes "f" ∷ []) ≡ true)
      × (is_intact toy_library three_files (codes "abc") (codes "p" ∷ []) ≡ true))
verify_recording_sound_example = verify_recording_sound toy_library three_files toy_recording
