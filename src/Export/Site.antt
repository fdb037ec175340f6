-- ===== src/Export/Site.antt =====
-- The page of the export that opens without a network, and what `export` of export.py copies.
use veillee.Base.{
  ℕ, Bool, true, false, not, Option, none, some, List, [], ◌∷◌, ◌++◌, map, filter, length, any,
  ◌||◌, if◌then◌else◌, ◌==◌, nat_eq, list_eq,
}
use veillee.Base.Text.{Text, codes}
use veillee.Base.Dict.{Dict, lookup, insert}
use veillee.Models.{FilePath, Question, Answer, Recording, Chapter}
use veillee.Questions.{QuestionBank, in_chapter}
use veillee.Disk.{Disk, Fate, atomic_write, walk, answers_dir, transcripts_dir, relative_to}
use veillee.Sidecars.{Library}
use veillee.Photographs.{Photograph}
use veillee.Transcripts.{join}
use veillee.Ingest.{World}
use veillee.Repository.{all_written_answers, all_recordings, all_photographs}
use veillee.Export.{written_answers, markdown_book, write_manifest}

-- html.escape, of one character
abbrev escape_char : ℕ → Text
escape_char c =
    if c == 38
    then codes "&amp;"
    else if c == 60
    then codes "&lt;"
    else if c == 62
    then codes "&gt;"
    else if c == 34
    then codes "&quot;"
    else if c == 39
    then codes "&#x27;"
    else c ∷ []

unfoldable pub escape : Text → Text
escape [] = []
escape (c ∷ s) = escape_char c ++ escape s

-- `by_question` and `pictures`: the exported recordings and photographs of a question, in order.
abbrev clips_of : List Recording → Text → List Recording
clips_of recordings question_id = filter (λ r. r.question_id == question_id) recordings

abbrev shots_of : List Photograph → Text → List Photograph
shots_of photographs question_id = filter (λ p. p.question_id == question_id) photographs

abbrev head_lines : Text → List Text
head_lines today =
    codes "<!doctype html>"
    ∷ codes "<html lang=\"en\"><head><meta charset=\"utf-8\">"
    ∷ codes "<meta name=\"viewport\" content=\"width=device-width, initial-scale=1\">"
    ∷ codes "<title>Veillée</title><style>"
    ∷ codes "body{font-family:Georgia,'Times New Roman',serif;font-size:19px;line-height:1.7;"
    ∷ codes "color:#241f1a;background:#faf6ef;margin:0;padding:2rem 1.25rem 5rem}"
    ∷ codes "main{max-width:44rem;margin:0 auto}h1{font-size:2.2rem}h2{margin-top:3rem;"
    ∷ codes "border-bottom:1px solid #ddd2c2;padding-bottom:.5rem}"
    ∷ codes "h3{margin-top:2.5rem;font-size:1.3rem}"
    ∷ codes "audio{width:100%;margin:1rem 0}nav a{display:block;padding:.4rem 0;color:#7a4a2b}"
    ∷ codes "figure{margin:1.5rem 0}figure img{max-width:100%;height:auto;border:1px solid #ddd2c2}"
    ∷ codes "figcaption{font-size:.95rem;color:#6b6055;margin-top:.5rem}"
    ∷ codes "p{white-space:pre-wrap}.note{color:#6b6055;font-size:.95rem}"
    ∷ codes "</style></head><body><main>"
    ∷ codes "<h1>Veillée</h1>"
    ∷ (codes "<p class=\"note\">Exported "
        ++ (escape today ++ codes ". Everything here opens without an internet connection.</p>"))
    ∷ codes "<nav>"
    ∷ []

-- caption or "A family photograph"
abbrev alt_text : Text → Text
alt_text [] = codes "A family photograph"
alt_text (c ∷ s) = c ∷ s

abbrev caption_line : Text → Text
caption_line [] = []
caption_line (c ∷ s) = codes "<figcaption>" ++ ((c ∷ s) ++ codes "</figcaption>")

abbrev figure_line : Photograph → Text
figure_line shot =
    let caption = escape shot.caption in
    codes "<figure><img src=\""
    ++ (escape (codes "photographs/" ++ (shot.photo_id ++ codes ".jpg"))
        ++ (codes "\" alt=\""
            ++ (alt_text caption ++ (codes "\">" ++ (caption_line caption ++ codes "</figure>")))))

abbrev audio_line : Recording → Text
audio_line clip =
    codes "<audio controls preload=\"none\" src=\""
    ++ (escape (codes "audio/" ++ (clip.recording_id ++ codes ".opus")) ++ codes "\"></audio>")

abbrev answer_lines : Option Answer → List Text
answer_lines none = []
answer_lines (some a) = (codes "<p>" ++ (escape a.body ++ codes "</p>")) ∷ []

abbrev has_answer : Option Answer → Bool
has_answer none = false
has_answer (some a) = true

module _ (answers : Dict Text Answer) (recordings : List Recording)
    (photographs : List Photograph) where
  unfoldable pub has_something : Question → Bool
  has_something q =
      has_answer (lookup q.id answers)
      || not (length (clips_of recordings q.id) == 0)
      || not (length (shots_of photographs q.id) == 0)

  abbrev question_parts : Question → List Text
  question_parts q =
      (codes "<h3>" ++ (escape q.text ++ codes "</h3>"))
      ∷ (answer_lines (lookup q.id answers)
          ++ (map figure_line (shots_of photographs q.id)
              ++ map audio_line (clips_of recordings q.id)))

  abbrev questions_parts : List Question → List Text
  questions_parts [] = []
  questions_parts (q ∷ qs) =
      let rest = questions_parts qs in if has_something q then question_parts q ++ rest else rest

  abbrev included : QuestionBank → List Chapter
  included bank = filter (λ c. any has_something (in_chapter bank c.slug)) bank.chapters

  abbrev link_line : Chapter → Text
  link_line c =
      codes "<a href=\"#" ++ (escape c.slug ++ (codes "\">" ++ (escape c.title ++ codes "</a>")))

  abbrev heading_line : Chapter → Text
  heading_line c =
      codes "<h2 id=\"" ++ (escape c.slug ++ (codes "\">" ++ (escape c.title ++ codes "</h2>")))

  abbrev chapter_parts : QuestionBank → List Chapter → List Text
  chapter_parts bank [] = []
  chapter_parts bank (c ∷ cs) =
      heading_line c ∷ (questions_parts (in_chapter bank c.slug) ++ chapter_parts bank cs)

  unfoldable pub site_page : Text → QuestionBank → Text
  unfolding escape has_something join
  site_page today bank =
      let chapters = included bank in
      join (codes "\n") (
        head_lines today
        ++ (map link_line chapters
            ++ (codes "</nav>"
                ∷ (chapter_parts bank chapters ++ (codes "</main></body></html>" ∷ [])))))
      ++ codes "\n"

-- Copying the playable files that are there: the folder, and the recordings that were copied.
unfoldable pub copy_recordings : Disk → List Recording → Disk → Disk × List Recording
copy_recordings archive [] folder = (folder, [])
copy_recordings archive (r ∷ rs) folder =
    let skipped = copy_recordings archive rs folder in
    elim (lookup r.opus_path archive) [
      | none ↦ skipped
      | some bytes ↦
          let (after, copied) =
            copy_recordings archive rs
              (insert (codes "audio" ∷ (r.recording_id ++ codes ".opus") ∷ []) bytes folder) in
          (after, r ∷ copied)
    ]

unfoldable pub copy_photographs : Disk → List Photograph → Disk → Disk × List Photograph
copy_photographs archive [] folder = (folder, [])
copy_photographs archive (p ∷ ps) folder =
    let skipped = copy_photographs archive ps folder in
    elim (lookup p.view_path archive) [
      | none ↦ skipped
      | some bytes ↦
          let (after, copied) =
            copy_photographs archive ps
              (insert (codes "photographs" ∷ (p.photo_id ++ codes ".jpg") ∷ []) bytes folder) in
          (after, p ∷ copied)
    ]

-- shutil.copytree, of a directory to the same place in the folder
unfoldable pub copy_tree : FilePath → Disk → Disk → Disk
copy_tree directory [] folder = folder
copy_tree directory ((path, text) ∷ archive) folder =
    let rest = copy_tree directory archive folder in
    elim (relative_to directory path) [ none ↦ rest | some relative ↦ insert path text rest ]

abbrev has_transcripts : Disk → Bool
has_transcripts archive = not (length (walk (codes ".md") transcripts_dir archive) == 0)

pub record ExportResult : Type 0 where
  pub answers : ℕ
  pub recordings : ℕ
  pub photographs : ℕ
  pub files : ℕ

-- The names of the temporary files, and what the export writes beside the data directory: the folder
-- and the result, `none` where a write does not return.
pub record ExportVisit : Type 0 where
  pub today : Text
  pub now : Text
  pub book_temp : Text
  pub site_temp : Text
  pub manifest_temp : Text
  pub book_fate : Fate
  pub site_fate : Fate
  pub manifest_fate : Fate

module _ (lib : Library) (visit : ExportVisit) (bank : QuestionBank) (w : World) where
  abbrev exported : Disk × Bool × ℕ → Disk × Option ExportResult
  exported (folder, false, count) = (folder, none)
  exported (folder, true, count) = (
    folder,
    some (record {
      answers = length (all_written_answers w.tables);
      recordings = length (all_recordings w.tables);
      photographs = length (all_photographs w.tables);
      files = count;
    }),
  )

  -- The archive itself, and the manifest.
  abbrev archive_copied : Disk → Disk × Option ExportResult
  archive_copied folder =
      let with_answers = copy_tree answers_dir w.disk folder in
      let with_transcripts =
        if has_transcripts w.disk
        then copy_tree transcripts_dir w.disk with_answers
        else with_answers in
      exported
        (write_manifest lib visit.now visit.manifest_temp visit.manifest_fate with_transcripts)

  abbrev site_written : Disk × Bool → Disk × Option ExportResult
  site_written (folder, false) = (folder, none)
  site_written (folder, true) = archive_copied folder

  abbrev book_written : List Recording → List Photograph → Disk × Bool → Disk × Option ExportResult
  book_written clips shots (folder, false) = (folder, none)
  book_written clips shots (folder, true) = site_written (
      atomic_write visit.site_temp visit.site_fate (codes "index.html" ∷ [])
        (site_page (written_answers w.tables) clips shots visit.today bank) folder)

  -- The folder is new. `bank` is what `load_bank` reads.
  unfoldable pub export : Disk × Option ExportResult
  unfolding copy_recordings copy_photographs copy_tree site_page markdown_book write_manifest
  export =
      let (with_audio, clips) = copy_recordings w.disk (all_recordings w.tables) [] in
      let (with_photographs, shots) =
        copy_photographs w.disk (all_photographs w.tables) with_audio in
      book_written clips shots (
        atomic_write visit.book_temp visit.book_fate (codes "veillee-book.md" ∷ [])
          (markdown_book visit.today bank w.tables) with_photographs)
