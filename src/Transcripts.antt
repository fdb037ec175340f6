-- ===== src/Transcripts.antt =====
-- transcribe.py: from audio to the two files of a draft transcript. The speech model and the HTTP call
-- are the parameter `Speech`; Unicode's letters are the parameter `Letters`. Times are in milliseconds. Of an
-- error's message only its constant text is kept, not the exception or the path quoted in it.
pub mod Spoken
use veillee.Base.{
  ℕ, zero, suc, ◌+◌, ◌-◌, ◌*◌, ◌/◌, ◌%◌, Bool, true, false, not, Option, none, some, List, [], ◌∷◌,
  ◌++◌, map, ◌&&◌, ◌||◌, if◌then◌else◌, ltb, leb, length, drop, filter, ◌==◌, nat_eq, list_eq,
  Outcome, ok, err, ◌>>=◌, concat,
}
use veillee.Base.Text.{Text, codes, strip, is_space, is_newline, starts_with}
use veillee.Base.Dict.{lookup}
use veillee.Base.Decimal.{pad}
use veillee.Models.{FilePath}
use veillee.Paths.{Moment, utc_now_iso, or_text}
use veillee.Values.{
  Value, null, flag, num, str, seq, mapping, Items, Fields, end, field, get_field, get_or_null,
  truthy, text_of, to_list, of_list, Yaml,
}
use veillee.Frontmatter.{dumps, split_lines}
use veillee.Disk.{Disk, Fate, atomic_write}
use veillee.Answers.{ReadError, attribute_error, type_error, text_or, int_or}
use veillee.Sidecars.{Library, transcript_path_of, transcript_json_of}
use veillee.Transcripts.Spoken.{Letters, apply_spoken_punctuation}

pub record Segment : Type 0 where
  pub start : ℕ
  pub finish : ℕ
  pub text : Text

pub record Transcription : Type 0 where
  pub segments : List Segment
  pub language : Text
  pub backend : Text
  pub model : Text

-- sep.join(texts)
unfoldable pub join : Text → List Text → Text
join sep [] = []
join sep (t ∷ []) = t
join sep (t ∷ u ∷ ts) = t ++ (sep ++ join sep (u ∷ ts))

unfoldable pub full_text : Transcription → Text
unfolding join
full_text t = strip is_space (join (codes " ") (map (λ s. strip is_space s.text) t.segments))

-- int(round(seconds)) rounds a half to the even neighbour.
unfoldable pub round_seconds : ℕ → ℕ
round_seconds ms =
    let q = ms / 1000 in
    let r = ms % 1000 in if ltb r 500 then q else if r == 500 then q + q % 2 else q + 1

unfoldable pub format_timestamp : ℕ → Text
unfolding round_seconds
format_timestamp ms =
    let total = round_seconds ms in
    let remainder = total % 3600 in
    pad 2 (total / 3600)
    ++ (codes ":" ++ (pad 2 (remainder / 60) ++ (codes ":" ++ pad 2 (remainder % 60))))

-- A line of the hints file, without the end that `splitlines` takes off.
abbrev is_hint : Text → Bool
is_hint line = not (strip is_space line == []) && not (starts_with line (codes "#"))

-- `none` is a file that does not exist.
unfoldable pub read_hints : Option Text → Text
unfolding join
read_hints none = []
read_hints (some text) =
    join (codes ", ") (map (strip is_space) (filter is_hint (split_lines text)))

-- TranscriptionError and OSError, which the worker records, and what no handler catches.
pub data TranscribeError : Type 0 where
  failed : Text → TranscribeError
  uncaught : ReadError → TranscribeError

-- What the backends give: `none` where they raise.
pub record Speech : Type 0 where
  pub local : Text → Text → Option (List Segment × Text)
  pub remote : Text → Option Value

pub record SpeechSettings : Type 0 where
  pub transcription_backend : Text
  pub whisper_model : Text
  pub remote_base_url : Text
  pub remote_model : Text

abbrev as_caught {ℓ} : {A : Type ℓ} → Outcome ReadError A → Outcome TranscribeError A
as_caught (ok a) = ok a
as_caught (err e) = err (uncaught e)

abbrev fields_of : Value → Outcome ReadError Fields
fields_of (mapping fs) = ok fs
fields_of v = err attribute_error

-- `Segment(start=float(item.get("start", 0.0)), ...)`
abbrev segment_from : (Value → Text) → Value → Outcome ReadError Segment
segment_from repr item = do
  fs ← fields_of item
  start ← int_or 0 (codes "start") fs
  finish ← int_or 0 (codes "end") fs
  ok (record {
    start = start;
    finish = finish;
    text = strip is_space (text_or repr [] (codes "text") fs);
  })

unfoldable pub segments_from : (Value → Text) → List Value → Outcome ReadError (List Segment)
segments_from repr [] = ok []
segments_from repr (v ∷ vs) = do
  segment ← segment_from repr v
  rest ← segments_from repr vs
  ok (segment ∷ rest)

-- What a `for` loop goes through.
abbrev items_of : Value → Outcome ReadError (List Value)
items_of (seq vs) = ok (to_list vs)
items_of (str s) = ok (map (λ c. str (c ∷ [])) s)
items_of (mapping fs) = err attribute_error
items_of v = err type_error

-- `payload.get("segments") or []`
abbrev raw_segments : Fields → Value
raw_segments fs = let v = get_or_null (codes "segments") fs in if truthy v then v else null

abbrev one_segment : (Value → Text) → Fields → List Segment
one_segment repr fs =
    record { start = 0; finish = 0; text = strip is_space (text_or repr [] (codes "text") fs) } ∷ []

abbrev segments_of : (Value → Text) → Fields → Value → Outcome ReadError (List Segment)
segments_of repr fs null = ok (one_segment repr fs)
segments_of repr fs v = do items ← items_of v; segments_from repr items

-- `str(payload.get("language", "") or "")`
abbrev language_of : (Value → Text) → Fields → Text
language_of repr fs =
    let v = get_or_null (codes "language") fs in if truthy v then text_of repr v else []

unfoldable pub transcribe_remote :
    Speech → (Value → Text) → SpeechSettings → Text → Outcome TranscribeError Transcription
unfolding segments_from
transcribe_remote speech repr settings audio =
    if settings.remote_base_url == []
    then err (failed (codes "VEILLEE_REMOTE_BASE_URL is not set"))
    else elim (speech.remote audio) [
      | none ↦ err (failed (codes "remote transcription failed"))
      | some payload ↦ as_caught (do
        fs ← fields_of payload
        segments ← segments_of repr fs (raw_segments fs)
        ok (record {
          segments = segments;
          language = language_of repr fs;
          backend = codes "remote";
          model = settings.remote_model;
        }))
    ]

abbrev stripped : Segment → Segment
stripped s = record s { text = strip is_space s.text }

unfoldable pub transcribe_local :
    Speech → SpeechSettings → Text → Text → Outcome TranscribeError Transcription
transcribe_local speech settings hint audio = elim (speech.local hint audio) [
  | none ↦ err (failed (codes "local transcription failed"))
  | some (segments, language) ↦ ok (record {
    segments = map stripped segments;
    language = language;
    backend = codes "local";
    model = settings.whisper_model;
  })
]

abbrev pub hints_path : FilePath
hints_path = codes "transcription-hints.txt" ∷ []

unfoldable pub transcribe :
    Speech
    → (Value → Text)
    → SpeechSettings
    → FilePath
    → Disk
    → Outcome TranscribeError Transcription
unfolding transcribe_remote transcribe_local read_hints
transcribe speech repr settings audio_path disk = elim (lookup audio_path disk) [
  | none ↦ err (failed (codes "audio file is missing"))
  | some audio ↦
      if settings.transcription_backend == codes "remote"
      then transcribe_remote speech repr settings audio
      else transcribe_local speech settings (read_hints (lookup hints_path disk)) audio
]

-- Whose transcript it is.
pub record Heard : Type 0 where
  pub recording_id : Text
  pub question_id : Text
  pub created : Text

unfoldable pub draft_metadata : Heard → Text → Transcription → Fields
draft_metadata heard now t = field (codes "recording_id") (str heard.recording_id) (
    field (codes "question_id") (str heard.question_id) (
      field (codes "created") (str heard.created) (
        field (codes "transcribed") (str now) (
          field (codes "backend") (str t.backend) (
            field (codes "model") (str t.model) (
              field (codes "language") (str t.language) (
                field (codes "reviewed") (flag false) (
                  field (codes "note")
                    (str (codes "Machine draft. Not shown to him. Correct it before trusting it."))
                    end))))))))

abbrev pub line_of : Letters → Segment → Text
line_of letters s =
    codes "["
    ++ (format_timestamp s.start ++ (codes "] " ++ apply_spoken_punctuation letters s.text))

abbrev pub or_silence : List Text → Text
or_silence [] = codes "_(no speech detected)_"
or_silence (l ∷ ls) = join (codes "\n\n") (l ∷ ls)

unfoldable pub transcript_body : Letters → Transcription → Text
unfolding format_timestamp join
transcript_body letters t =
    or_silence (map (line_of letters) (filter (λ s. not (s.text == [])) t.segments))

unfoldable pub render_markdown : Letters → Yaml → Heard → Text → Transcription → Text
unfolding draft_metadata transcript_body
render_markdown letters yaml heard now t =
    dumps yaml (draft_metadata heard now t) (transcript_body letters t)

abbrev raw_segment : Segment → Value
raw_segment s = mapping (
    field (codes "start") (num s.start)
      (field (codes "end") (num s.finish) (field (codes "text") (str s.text) end)))

unfoldable pub raw_payload : Heard → Text → Transcription → Value
unfolding full_text
raw_payload heard now t = mapping (
    field (codes "recording_id") (str heard.recording_id) (
      field (codes "question_id") (str heard.question_id) (
        field (codes "backend") (str t.backend) (
          field (codes "model") (str t.model) (
            field (codes "language") (str t.language) (
              field (codes "transcribed") (str now) (
                field (codes "segments") (seq (of_list (map raw_segment t.segments)))
                  (field (codes "text") (str (full_text t)) end))))))))

-- The two atomic writes of one call, with its readings of the clock.
pub record TwoWrites : Type 0 where
  pub first_now : Moment
  pub second_now : Moment
  pub first_temp : Text
  pub second_temp : Text
  pub first_fate : Fate
  pub second_fate : Fate

-- The disk afterwards, and whether the call returned.
unfoldable pub write_transcript :
    Letters → Library → Yaml → TwoWrites → Heard → Transcription → Disk → Disk × Bool
unfolding render_markdown raw_payload atomic_write
write_transcript letters lib yaml call heard t disk =
    let (drafted, written) =
      atomic_write call.first_temp call.first_fate (transcript_path_of heard.recording_id)
        (render_markdown letters yaml heard (utc_now_iso call.first_now) t) disk in
    let both =
      atomic_write call.second_temp call.second_fate (transcript_json_of heard.recording_id)
        (lib.json_dumps (raw_payload heard (utc_now_iso call.second_now) t) ++ codes "\n")
        drafted in
    if written then both else (drafted, false)
