-- ===== src/Web/Tests.antt =====
-- Deleting a recording, correcting a transcript, and signing in.
use veillee.Base.{
  ◌≡◌, refl, true, false, none, some, Option, List, [], ◌∷◌, nat_eq, list_eq, list_beq, ok,
}
use veillee.Base.Text.{Text, codes, starts_with, has_infix, strip, strip_left, strip_right}
use veillee.Base.Dict.{lookup, insert, erase}
use veillee.Models.{FilePath}
use veillee.Paths.{recording_dir_for, before_first_dash}
use veillee.Values.{mapping, end, text_of, get_field, Yaml}
use veillee.Queue.{has_job}
use veillee.Disk.{completes, write_dies, copied}
use veillee.Disk.Keeps.{Keeps}
use veillee.Answers.{trash_path, move_to_trash}
use veillee.Sidecars.{transcript_path_of}
use veillee.Ingest.{World}
use veillee.Repository.{get_recording}
use veillee.Auth.{Signer, Passcodes, role_for_passcode, role_writer, issue_cookie}
use veillee.Web.{safe_id, without_last_newline, is_confirmed, trash_all, with_disk}
use veillee.Web.Audio.{delete_recording, doomed_files, machine_path_of}
use veillee.Web.Admin.{TranscriptVisit, save_transcript}
use veillee.Web.Pages.{redirect, enter_submit, safe_next}
use veillee.Web.Confirm.{delete_recording-confirms}
use veillee.Web.Corrections.{HasNewNames, save_transcript-Keeps}
use veillee.Web.Redirect.{enter_submit_redirects}
use veillee.Samples.{noon, sample_world, no_jobs, sample_site, sample_visit, confirming}

abbrev moved_original : List FilePath
moved_original = trash_path noon (codes "o" ∷ []) ∷ []

deletes :
    (delete_recording sample_site sample_visit
      (codes "r")
      (some (confirming (codes "delete")))
      (sample_world no_jobs)).1
    ≡ ok moved_original
unfolding delete_recording safe_id without_last_newline is_confirmed trash_all doomed_files
    get_recording lookup insert erase list_beq get_field text_of strip strip_left strip_right
    move_to_trash transcript_path_of machine_path_of recording_dir_for
deletes = refl

delete_recording-confirms_example :
    (safe_id (codes "r") ≡ true)
    × (is_confirmed (λ s. s) (λ v. []) (confirming (codes "delete")) ≡ true)
    × (get_recording
          (codes "r")
          (delete_recording sample_site sample_visit
            (codes "r")
            (some (confirming (codes "delete")))
            (sample_world no_jobs)).0.tables
        ≡ none)
    × (has_job
          (codes "r")
          (delete_recording sample_site sample_visit
            (codes "r")
            (some (confirming (codes "delete")))
            (sample_world no_jobs)).0.tables.queue
        ≡ false)
delete_recording-confirms_example =
    delete_recording-confirms sample_site sample_visit (codes "r") (confirming (codes "delete"))
      (sample_world no_jobs) moved_original deletes

abbrev empty_mapping : Yaml
empty_mapping = record { safe_load = λ s. some (mapping end); safe_dump = λ m. []; repr = λ v. [] }

abbrev transcript_visit : TranscriptVisit
transcript_visit = record {
  stamped = noon;
  original_saved = noon;
  edit_saved = noon;
  updated = noon;
  machine_temp = codes ".tmp-a.part";
  temp = codes ".tmp-b.part";
  machine_fate = completes;
  fate = write_dies 2;
  copying = copied;
}

abbrev one_transcript : World
one_transcript =
    with_disk ((transcript_path_of (codes "r"), codes "---\nlanguage: en\n---\nHeard.") ∷ [])
      (sample_world no_jobs)

one_transcript-HasNewNames : HasNewNames transcript_visit (codes "r") one_transcript.disk
unfolding transcript_path_of machine_path_of recording_dir_for lookup list_beq before_first_dash
one_transcript-HasNewNames = record {
  revision_new = refl;
  first_new = refl;
  second_new = refl;
  first_apart = refl;
  second_apart = refl;
  temps_apart = refl;
  second_other = refl;
  first_other = refl;
  first_revision = refl;
  second_revision = refl;
}

save_transcript-Keeps_example :
    Keeps one_transcript.disk
      (save_transcript empty_mapping transcript_visit
        (codes "r")
        (codes "Corrected.")
        (codes "on")
        one_transcript).0.disk
save_transcript-Keeps_example =
    save_transcript-Keeps empty_mapping transcript_visit (codes "r") (codes "Corrected.")
      (codes "on") one_transcript one_transcript-HasNewNames

abbrev plain_signer : Signer
plain_signer = record { dumps = λ p. codes "token"; loads = λ t. none }

abbrev no_passcodes : Passcodes
no_passcodes = record { passcode = some (codes "stylo"); family_passcode = none }

signs_in :
    enter_submit plain_signer no_passcodes (codes "stylo") (codes "//elsewhere")
    ≡ redirect (codes "/") (some (issue_cookie plain_signer role_writer))
unfolding enter_submit safe_next starts_with has_infix role_for_passcode list_beq strip strip_left
    strip_right
signs_in = refl

enter_submit_redirects_example :
    (starts_with (codes "/") (codes "/") ≡ true)
    × (has_infix (codes "/") (codes "//") ≡ false)
    × ((role : Text) × (role_for_passcode (codes "stylo") no_passcodes ≡ ok (some role))
        × (◌≡◌ {A = Option Text}
            (some (issue_cookie plain_signer role_writer))
            (some (issue_cookie plain_signer role))))
enter_submit_redirects_example =
    enter_submit_redirects plain_signer no_passcodes (codes "stylo") (codes "//elsewhere")
      (codes "/") (some (issue_cookie plain_signer role_writer)) signs_in
