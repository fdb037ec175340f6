-- ===== src/Answers/Tests.antt =====
-- An answer that is written over.
use veillee.Base.{
  ◌≡◌, refl, ◌⊎◌, err, true, false, none, some, [], ◌∷◌, contains, ◌==◌, nat_eq, list_eq, list_beq,
}
use veillee.Base.Text.{codes, strip, strip_left, strip_right}
use veillee.Base.Dict.{lookup}
use veillee.Base.Decimal.{pad, decimal, decimal_from, value_from}
use veillee.Models.{FilePath, Question, valid_statuses, status_answered}
use veillee.Paths.{
  Moment, answer_relpath, parse_question_id, chapter_dirname, answer_leaf, slugify, squash,
  before_last_dash,
}
use veillee.Values.{Yaml}
use veillee.Disk.{Disk, write_dies, copied, file_name}
use veillee.Answers.{
  Call, interrupted, store_revised, serialise, answer_path, write_answer, revision_path, trash_path,
}
use veillee.Answers.{new_answer, metadata_of, load_answer, save_revision, created_of, store_answer}
use veillee.Answers.ReadBack.{write_answer-load_answer}
use veillee.Base.{ok}
use veillee.Disk.{completes, temporary, atomic_write}
use veillee.Frontmatter.{split_lines, ends_line, is_boundary, is_delimiter_line}
use veillee.Frontmatter.Lines.{ends_with_newline}
use veillee.Frontmatter.RoundTrip.{IsFaithful}
use veillee.Models.{Answer}
use veillee.Paths.{utc_now_iso}
use veillee.Values.{mapping}
use veillee.Answers.Keeping.{write_answer-keeps_previous}

abbrev question : Question
question = record {
  id = codes "q001";
  chapter_slug = codes "war";
  chapter_order = 1;
  chapter_title = codes "The war";
  text = codes "Where?";
  hint = none;
  follow_ups = [];
  custom = false;
  pinned = false;
  note = none;
}

abbrev noon : Moment
noon = record {
  year = 2024;
  month = 3;
  day = 9;
  hour = 12;
  minute = 0;
  second = 5;
  microsecond = 7;
}

abbrev call : Call
call = record { stamped = noon; written = noon; temp_name = codes ".tmp-x.part"; copying = copied }

abbrev toy_yaml : Yaml
toy_yaml = record { safe_load = λ s. none; safe_dump = λ m. []; repr = λ v. [] }

abbrev path : FilePath
path = codes "answers" ∷ codes "01-war" ∷ codes "001-where.md" ∷ []

abbrev disk : Disk
disk = (path, codes "old") ∷ []

path_of_question : answer_path (λ t. t) question ≡ some path
unfolding answer_path answer_relpath parse_question_id chapter_dirname answer_leaf slugify pad
    decimal decimal_from squash before_last_dash value_from strip strip_left strip_right list_beq
path_of_question = refl

held : lookup path disk ≡ some (codes "old")
unfolding lookup list_beq
held = refl

known : contains valid_statuses status_answered ≡ true
unfolding list_beq
known = refl

apart : (call.temp_name == file_name path) ≡ false
unfolding list_beq
apart = refl

write_answer-keeps_previous_example :
    let (after, result) =
      write_answer
        (λ t. t)
        toy_yaml
        call
        (write_dies 3)
        question
        (codes "new")
        status_answered
        disk in
    (lookup (revision_path question.id call.stamped) after ≡ some (codes "old"))
    ⊎ ((lookup path after ≡ some (codes "old")) × (result ≡ err interrupted))
write_answer-keeps_previous_example =
    write_answer-keeps_previous (λ t. t) toy_yaml call (write_dies 3) question (codes "new")
      status_answered disk path (codes "old") path_of_question held known apart

trash_is_free : lookup (trash_path noon path) disk ≡ none
unfolding lookup list_beq
trash_is_free = refl

-- One document, which the answer to be written prints as.
abbrev returned : Answer
returned =
    new_answer question path (codes "new") status_answered (utc_now_iso noon) (utc_now_iso noon)

abbrev one_document : Yaml
one_document = record {
  safe_load = λ s. some (mapping (metadata_of returned));
  safe_dump = λ m. codes "k: v\n";
  repr = λ v. [];
}

temporary_apart : (temporary call.temp_name path == path) ≡ false
unfolding list_beq
temporary_apart = refl

document-IsFaithful : IsFaithful one_document (metadata_of returned)
unfolding list_beq ends_with_newline split_lines ends_line is_boundary is_delimiter_line strip_right
document-IsFaithful = record { reads_back = refl; ends_lines = refl; no_delimiter = refl }

abbrev no_files : Disk
no_files = []

no_answer_yet : lookup path no_files ≡ none
unfolding lookup
no_answer_yet = refl

returns_it :
    (write_answer
      (λ t. t)
      one_document
      call
      completes
      question
      (codes "new")
      status_answered
      no_files).1
    ≡ ok returned
unfolding write_answer answer_path answer_relpath parse_question_id chapter_dirname answer_leaf
    slugify pad decimal decimal_from squash before_last_dash value_from strip strip_left strip_right
    list_beq save_revision store_revised created_of store_answer atomic_write lookup
returns_it = refl

returned_plain : contains (serialise one_document returned) 13 ≡ false
unfolding serialise strip new_answer
returned_plain = refl

write_answer-load_answer_example :
    load_answer
      (λ t. t)
      one_document
      question
      (write_answer
        (λ t. t)
        one_document
        call
        completes
        question
        (codes "new")
        status_answered
        no_files).0
    ≡ ok (some returned)
write_answer-load_answer_example =
    write_answer-load_answer (λ t. t) one_document call completes question (codes "new")
      status_answered no_files path returned path_of_question known temporary_apart
      document-IsFaithful returned_plain returns_it
