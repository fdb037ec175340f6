-- ===== src/Config.antt =====
-- config.py: the settings that the environment gives. Python's `int` and `float` of a text are the
-- parameters `read_int` and `read_float` (in milliseconds), as is `expanduser`.
mod Tests
use veillee.Base.{
  ℕ, ◌*◌, Bool, true, false, not, Option, none, some, List, [], ◌∷◌, ◌++◌, contains, if◌then◌else◌,
  ◌==◌, nat_eq, list_eq, Outcome, ok, err, ◌>>=◌,
}
use veillee.Base.Text.{Text, codes, strip, is_space}

pub record Environment : Type 0 where
  pub get : Text → Option Text
  pub read_int : Text → Option ℕ
  pub read_float : Text → Option ℕ
  pub expanduser : Text → Text
  pub lower : Text → Text

pub record Settings : Type 0 where
  pub data_dir : Text
  pub db_path : Text
  pub questions_dir : Text
  pub passcode : Option Text
  pub family_passcode : Option Text
  pub secret_key : Text
  pub transcription_backend : Text
  pub whisper_model : Text
  pub whisper_compute_type : Text
  pub whisper_device : Text
  pub remote_base_url : Option Text
  pub remote_api_key : Option Text
  pub remote_model : Text
  pub git_autocommit : Bool
  pub max_upload_bytes : ℕ
  pub worker_poll_ms : ℕ
  pub max_attempts : ℕ

-- os.environ.get(name) or None
abbrev pub non_empty : Option Text → Option Text
non_empty (some (c ∷ s)) = some (c ∷ s)
non_empty raw = none

abbrev pub or_default {ℓ} : {A : Type ℓ} → A → Option A → A
or_default default none = default
or_default default (some a) = a

module _ (env : Environment) where
  unfoldable pub env_path : Text → Text → Text
  env_path name default = elim (non_empty (env.get name)) [
    | none ↦ default
    | some raw ↦ env.expanduser raw
  ]

  unfoldable pub env_bool : Text → Bool → Bool
  env_bool name default = elim (env.get name) [
    | none ↦ default
    | some raw ↦
        contains (codes "1" ∷ codes "true" ∷ codes "yes" ∷ codes "on" ∷ [])
          (env.lower (strip is_space raw))
  ]

  unfoldable pub env_int : Text → ℕ → ℕ
  env_int name default = elim (env.get name) [
    | none ↦ default
    | some raw ↦ if strip is_space raw == [] then default else or_default default (env.read_int raw)
  ]

  abbrev poll_text : Text
  poll_text = or_default (codes "3.0") (env.get (codes "VEILLEE_WORKER_POLL_SECONDS"))

  -- `none` is the ValueError of `float`.
  unfoldable pub load_settings : Option Settings
  unfolding env_path env_bool env_int
  load_settings = elim (env.read_float poll_text) [
    | none ↦ none
    | some poll ↦ some (record {
      data_dir = env_path (codes "VEILLEE_DATA_DIR") (codes "data");
      db_path = env_path (codes "VEILLEE_DB_PATH") (codes "veillee.db");
      questions_dir = env_path (codes "VEILLEE_QUESTIONS_DIR") (codes "questions");
      passcode = non_empty (env.get (codes "VEILLEE_PASSCODE"));
      family_passcode = non_empty (env.get (codes "VEILLEE_FAMILY_PASSCODE"));
      secret_key =
          or_default (codes "veillee-local-tailnet-only")
            (non_empty (env.get (codes "VEILLEE_SECRET_KEY")));
      transcription_backend =
          or_default (codes "local") (env.get (codes "VEILLEE_TRANSCRIPTION_BACKEND"));
      whisper_model = or_default (codes "small") (env.get (codes "VEILLEE_WHISPER_MODEL"));
      whisper_compute_type =
          or_default (codes "int8") (env.get (codes "VEILLEE_WHISPER_COMPUTE_TYPE"));
      whisper_device = or_default (codes "cpu") (env.get (codes "VEILLEE_WHISPER_DEVICE"));
      remote_base_url = non_empty (env.get (codes "VEILLEE_REMOTE_BASE_URL"));
      remote_api_key = non_empty (env.get (codes "VEILLEE_REMOTE_API_KEY"));
      remote_model = or_default (codes "whisper-1") (env.get (codes "VEILLEE_REMOTE_MODEL"));
      git_autocommit = env_bool (codes "VEILLEE_GIT_AUTOCOMMIT") true;
      max_upload_bytes = env_int (codes "VEILLEE_MAX_UPLOAD_BYTES") (2 * 1024 * 1024 * 1024);
      worker_poll_ms = poll;
      max_attempts = env_int (codes "VEILLEE_MAX_ATTEMPTS") 5;
    })
  ]
