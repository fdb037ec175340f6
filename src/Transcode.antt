-- ===== src/Transcode.antt =====
-- transcode.py: what is made of the ends of ffmpeg and ffprobe. Running them is the parameter `Tools`;
-- `float` of a text, in milliseconds, is `read_float`. ffmpeg's constant
-- options belong to `Tools`, and an error's message is its constant text.
use veillee.Base.{
  ℕ, ◌*◌, Bool, true, false, Option, none, some, List, [], ◌∷◌, ◌++◌, ◌&&◌, if◌then◌else◌, nat_eq,
  list_eq, Outcome, ok, err,
}
use veillee.Base.Text.{Text, codes}
use veillee.Base.Dict.{insert, erase, lookup}
use veillee.Models.{FilePath}
use veillee.Values.{
  Value, null, flag, num, str, seq, mapping, nil, cons, get_field, get_or_null, truthy, text_of,
}
use veillee.Disk.{Disk, move_file, parent, file_name}

pub record Completed : Type 0 where
  pub succeeded : Bool
  pub stdout : Text

-- A run of ffmpeg on a file's bytes: what it left in its output file, and how it ended, where `none` is
-- the TranscodeError of a program that is missing or too slow. `probe` is ffprobe with given entries.
pub record Tools : Type 0 where
  pub has_ffmpeg : Bool
  pub has_ffprobe : Bool
  pub encode : List Text → Option Text → Option Text × Option Completed
  pub probe : Text → Option Text → Option Completed
  pub decodes : Option Text → Option Completed
  pub json_loads : Text → Option Value
  pub read_float : Text → Option ℕ

abbrev pub ffmpeg_available : Tools → Bool
ffmpeg_available tools = tools.has_ffmpeg && tools.has_ffprobe

-- TranscodeError, or an exception that is passed on.
pub data TranscodeError : Type 0 where
  transcode_error unexpected : TranscodeError

-- destination.with_suffix(destination.suffix + ".part")
abbrev pub part_path : FilePath → FilePath
part_path destination = parent destination ++ ((file_name destination ++ codes ".part") ∷ [])

abbrev leave : FilePath → Option Text → Disk → Disk
leave path none disk = disk
leave path (some bytes) disk = insert path bytes disk

-- result.returncode == 0 and the file is there and is not empty
abbrev is_usable : Bool → Option Text → Bool
is_usable succeeded none = false
is_usable succeeded (some []) = false
is_usable succeeded (some (c ∷ bytes)) = succeeded

abbrev transcoded : FilePath → Disk → Option Completed → Disk × Outcome TranscodeError FilePath
transcoded destination disk none = (disk, err transcode_error)
transcoded destination disk (some c) =
    let temporary = part_path destination in
    if is_usable c.succeeded (lookup temporary disk)
    then (move_file temporary destination disk, ok destination)
    else (erase temporary disk, err transcode_error)

unfoldable pub transcode :
    Tools → List Text → FilePath → FilePath → Disk → Disk × Outcome TranscodeError FilePath
transcode tools codec source destination disk =
    let (output, ended) = tools.encode codec (lookup source disk) in
    transcoded destination (leave (part_path destination) output disk) ended

unfoldable pub to_flac : Tools → FilePath → FilePath → Disk → Disk × Outcome TranscodeError FilePath
unfolding transcode
to_flac tools = transcode tools (
    codes "-ar"
    ∷ codes "48000"
    ∷ codes "-c:a"
    ∷ codes "flac"
    ∷ codes "-compression_level"
    ∷ codes "5"
    ∷ codes "-f"
    ∷ codes "flac"
    ∷ [])

unfoldable pub to_opus : Tools → FilePath → FilePath → Disk → Disk × Outcome TranscodeError FilePath
unfolding transcode
to_opus tools = transcode tools (
    codes "-ar"
    ∷ codes "48000"
    ∷ codes "-c:a"
    ∷ codes "libopus"
    ∷ codes "-b:a"
    ∷ codes "48k"
    ∷ codes "-f"
    ∷ codes "opus"
    ∷ [])

abbrev run_ended : Option Completed → Outcome TranscodeError Bool
run_ended none = err transcode_error
run_ended (some c) = ok c.succeeded

unfoldable pub is_decodable : Tools → FilePath → Disk → Outcome TranscodeError Bool
is_decodable tools path disk = run_ended (tools.decodes (lookup path disk))

abbrev or_zero : Option ℕ → ℕ
or_zero none = 0
or_zero (some n) = n

-- float(value or 0.0), with a TypeError or ValueError as 0
abbrev duration_of : Tools → Value → ℕ
duration_of tools (num n) = n * 1000
duration_of tools (flag true) = 1000
duration_of tools (str (c ∷ s)) = or_zero (tools.read_float (c ∷ s))
duration_of tools v = 0

abbrev format_duration : Tools → Option Value → Outcome TranscodeError ℕ
format_duration tools none = ok 0
format_duration tools (some (mapping fs)) =
    ok (duration_of tools (get_or_null (codes "duration") fs))
format_duration tools (some v) = err unexpected

abbrev probed_duration : Tools → Option Value → Outcome TranscodeError ℕ
probed_duration tools none = ok 0
probed_duration tools (some (mapping fs)) = format_duration tools (get_field (codes "format") fs)
probed_duration tools (some v) = err unexpected

abbrev when_succeeded {ℓ} :
    {A : Type ℓ}
    → A
    → (Text → Outcome TranscodeError A)
    → Option Completed
    → Outcome TranscodeError A
when_succeeded default next none = err transcode_error
when_succeeded default next (some c) =
    let answer = next c.stdout in if c.succeeded then answer else ok default

unfoldable pub probe_duration : Tools → FilePath → Disk → Outcome TranscodeError ℕ
probe_duration tools path disk =
    when_succeeded 0 (λ out. probed_duration tools (tools.json_loads out))
      (tools.probe (codes "format=duration") (lookup path disk))

abbrev stream_codec : (Value → Text) → Value → Outcome TranscodeError Text
stream_codec repr (mapping stream) = elim (get_field (codes "codec_name") stream) [
  | none ↦ ok []
  | some v ↦ ok (text_of repr v)
]
stream_codec repr v = err unexpected

abbrev first_codec : (Value → Text) → Option Value → Outcome TranscodeError Text
first_codec repr none = ok []
first_codec repr (some (seq nil)) = ok []
first_codec repr (some (seq (cons stream streams))) = stream_codec repr stream
first_codec repr (some null) = ok []
first_codec repr (some (num n)) = ok []
first_codec repr (some (flag b)) = ok []
first_codec repr (some v) = if truthy v then err unexpected else ok []

abbrev probed_codec : (Value → Text) → Option Value → Outcome TranscodeError Text
probed_codec repr none = ok []
probed_codec repr (some (mapping fs)) = first_codec repr (get_field (codes "streams") fs)
probed_codec repr (some v) = err unexpected

unfoldable pub probe_codec : Tools → (Value → Text) → FilePath → Disk → Outcome TranscodeError Text
probe_codec tools repr path disk =
    when_succeeded [] (λ out. probed_codec repr (tools.json_loads out))
      (tools.probe (codes "stream=codec_name") (lookup path disk))
