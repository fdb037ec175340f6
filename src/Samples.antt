-- ===== src/Samples.antt =====
-- Small data that the examples of several modules share.
use veillee.Base.{true, false, none, some, [], ◌∷◌}
use veillee.Base.Text.{Text, codes}
use veillee.Models.{Recording}
use veillee.Paths.{Moment}
use veillee.Values.{Value, str, mapping, end, field, Yaml}
use veillee.Disk.{completes}
use veillee.Sidecars.{Library}
use veillee.Queue.{QueueTable}
use veillee.Ingest.{World, Audio}
use veillee.Web.Audio.{Site, Visit}

abbrev pub noon : Moment
noon = record {
  year = 2024;
  month = 3;
  day = 9;
  hour = 12;
  minute = 0;
  second = 5;
  microsecond = 7;
}

abbrev pub sample_yaml : Yaml
sample_yaml = record { safe_load = λ s. none; safe_dump = λ m. []; repr = λ v. [] }

abbrev pub sample_library : Library
sample_library = record { json_loads = λ s. none; json_dumps = λ v. []; sha256 = λ s. s }

abbrev pub sample_recording : Recording
sample_recording = record {
  recording_id = codes "r";
  question_id = codes "q001";
  created = [];
  duration_ms = 0;
  device = [];
  original_path = codes "o" ∷ [];
  flac_path = codes "f" ∷ [];
  opus_path = codes "p" ∷ [];
  sidecar_path = codes "s" ∷ [];
  sha256_original = codes "abc";
  sha256_flac = [];
  sha256_opus = codes "abc";
  source = [];
  transcript_path = none;
  transcript_reviewed = false;
}

-- A world with one recording, of which the original is on disk.
abbrev pub sample_world : QueueTable → World
sample_world queue = record {
  disk = (codes "o" ∷ [], codes "abc") ∷ [];
  tables = record {
    answers = [];
    recordings = (codes "r", sample_recording) ∷ [];
    photographs = [];
    queue = queue;
    meta = [];
  };
}

abbrev pub no_jobs : QueueTable
no_jobs = record { rows = []; next_id = 1 }

abbrev pub sample_audio : Audio
sample_audio = record {
  is_decodable = λ s. true;
  to_flac = λ s. some s;
  to_opus = λ s. some s;
  probe_ms = λ s. 0;
}

abbrev pub sample_site : Site
sample_site = record {
  library = sample_library;
  yaml = sample_yaml;
  audio = sample_audio;
  lower = λ s. s;
  max_upload_bytes = 100;
}

abbrev pub sample_visit : Visit
sample_visit = record {
  moment = noon;
  created = noon;
  discard = noon;
  clock = λ n. noon;
  now = 0;
  fresh_id = codes "u";
  temp_name = codes ".tmp-x.part";
  start_fate = completes;
  fate = completes;
  user_agent = [];
}

-- The body of a request that carries a word.
abbrev pub confirming : Text → Value
confirming word = mapping (field (codes "confirm") (str word) end)
