-- ===== src/Export.antt =====
-- export.py: the exported folder: the book, the page that opens without a network, and the manifest of
-- checksums. A `Disk` here holds the files of the folder, by their paths below it.
pub mod Site
pub mod Manifest
mod Tests
use veillee.Base.{
  ℕ, ◌+◌, Bool, true, false, not, Option, none, some, List, [], ◌∷◌, ◌++◌, map, filter, length, any,
  ◌&&◌, ◌||◌, if◌then◌else◌, ◌==◌, nat_eq, list_eq, concat, Outcome, ok, err,
}
use veillee.Base.Text.{Text, codes}
use veillee.Base.Dict.{Dict, lookup, insert}
use veillee.Models.{FilePath, Question, Answer, Recording, Chapter}
use veillee.Values.{Value, str, num, seq, mapping, Fields, end, field, of_list}
use veillee.Questions.{QuestionBank, in_chapter}
use veillee.Disk.{
  Disk, Fate, atomic_write, walk, file_name, is_dir, relative_to, answers_dir, transcripts_dir,
  is_some,
}
use veillee.Sidecars.{Library}
use veillee.Photographs.{Photograph}
use veillee.Transcripts.{join}
use veillee.Index.{Tables}
use veillee.Ingest.{World}
use veillee.Repository.{all_written_answers, all_recordings, all_photographs}
use veillee.Web.Pages.{answers_by_id}

-- The answers that the exports look up by question.
abbrev pub written_answers : Tables → Dict Text Answer
written_answers t = answers_by_id (all_written_answers t) []

abbrev question_lines : Question → Answer → List Text
question_lines q a = (codes "### " ++ q.text) ∷ [] ∷ a.body ∷ [] ∷ []

-- The answered questions of a chapter, with their answers.
unfoldable pub chapter_questions : Dict Text Answer → List Question → List (Question × Answer)
chapter_questions answers [] = []
chapter_questions answers (q ∷ qs) =
    let rest = chapter_questions answers qs in
    elim (lookup q.id answers) [ none ↦ rest | some a ↦ (q, a) ∷ rest ]

abbrev section_lines : List (Question × Answer) → List Text
section_lines [] = []
section_lines ((q, a) ∷ rest) = question_lines q a ++ section_lines rest

abbrev pub chapter_lines : Chapter → List (Question × Answer) → List Text
chapter_lines c [] = []
chapter_lines c (x ∷ xs) = [] ∷ (codes "## " ++ c.title) ∷ [] ∷ section_lines (x ∷ xs)

abbrev book_lines : QuestionBank → Dict Text Answer → List Chapter → List Text
book_lines bank answers [] = []
book_lines bank answers (c ∷ cs) =
    chapter_lines c (chapter_questions answers (in_chapter bank c.slug))
    ++ book_lines bank answers cs

-- `today` is the date as the export prints it.
unfoldable pub markdown_book : Text → QuestionBank → Tables → Text
unfolding chapter_questions join
markdown_book today bank t =
    join (codes "\n") (
      codes "# Veillée"
      ∷ []
      ∷ (codes "_An oral history. Exported " ++ (today ++ codes "._"))
      ∷ []
      ∷ book_lines bank (written_answers t) bank.chapters)
    ++ codes "\n"

abbrev pub manifest_path : FilePath
manifest_path = codes "manifest.json" ∷ []

-- str(path.relative_to(directory))
abbrev pub path_text : FilePath → Text
path_text path = join (codes "/") path

abbrev pub manifest_fields : Library → FilePath → Text → Fields
manifest_fields lib path text =
    field (codes "path") (str (path_text path)) (
      field (codes "bytes") (num (length text))
        (field (codes "sha256") (str (lib.sha256 text)) end))

abbrev pub manifest_entry : Library → FilePath → Text → Value
manifest_entry lib path text = mapping (manifest_fields lib path text)

unfoldable pub manifest_entries : Library → List FilePath → Disk → List Value
manifest_entries lib [] folder = []
manifest_entries lib (path ∷ paths) folder =
    let rest = manifest_entries lib paths folder in
    elim (lookup path folder) [
      | none ↦ rest
      | some text ↦
          if file_name path == codes "manifest.json"
          then rest
          else manifest_entry lib path text ∷ rest
    ]

-- sorted(directory.rglob("*")), of which the files
abbrev pub every_file : Disk → List FilePath
every_file folder = walk [] [] folder

abbrev pub document_fields : Text → List Value → Fields
document_fields now entries = field (codes "exported") (str now) (
    field (codes "file_count") (num (length entries))
      (field (codes "files") (seq (of_list entries)) end))

abbrev pub manifest_document : Text → List Value → Value
manifest_document now entries = mapping (document_fields now entries)

-- The folder afterwards, whether the write returned, and the number of entries.
unfoldable pub write_manifest : Library → Text → Text → Fate → Disk → Disk × Bool × ℕ
unfolding manifest_entries atomic_write
write_manifest lib now temp_name fate folder =
    let entries = manifest_entries lib (every_file folder) folder in
    let (after, returned) =
      atomic_write temp_name fate manifest_path
        (lib.json_dumps (manifest_document now entries) ++ codes "\n") folder in
    (after, returned, length entries)
