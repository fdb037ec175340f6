-- ===== src/Auth.antt =====
-- web/auth.py and the middleware `passcode_gate` of web/app.py: who may read and who may write.
-- A passcode that is not set is `none`; the source treats an empty one alike. The signed cookie of
-- itsdangerous is the parameter `Signer`.
pub mod Gate
mod Tests
use veillee.Base.{
  ℕ, Bool, true, false, not, Option, none, some, List, [], ◌∷◌, ◌++◌, ◌&&◌, ◌||◌, if◌then◌else◌,
  any, all, ltb, Outcome, ok, err, ◌>>=◌, ◌==◌, nat_eq, list_eq, contains, ◌≡◌,
}
use veillee.Base.Text.{Text, codes, starts_with, strip, is_space}

pub record Passcodes : Type 0 where
  pub passcode : Option Text
  pub family_passcode : Option Text

abbrev pub role_writer : Text
role_writer = codes "writer"

abbrev pub role_family : Text
role_family = codes "family"

abbrev pub open_paths : List Text
open_paths = codes "/healthz" ∷ codes "/enter" ∷ []

abbrev pub family_denied_prefixes : List Text
family_denied_prefixes =
    codes "/admin"
    ∷ codes "/api/answer"
    ∷ codes "/api/recording"
    ∷ codes "/api/photo"
    ∷ codes "/questions"
    ∷ []

-- The payload of a cookie: a mapping with `ok` and perhaps `role`, or another value.
pub data Payload : Type 0 where
  mapping : Bool → Option Text → Payload
  other : Payload

pub record Signer : Type 0 where
  pub dumps : Payload → Text
  pub loads : Text → Option Payload

pub record Request : Type 0 where
  pub method : Text
  pub path : Text
  pub cookie : Option Text

-- `settings.passcode or ""`
abbrev pub or_empty : Option Text → Text
or_empty none = []
or_empty (some t) = t

abbrev pub is_set : Option Text → Bool
is_set p = not (or_empty p == [])

-- The token of the cookie that `issue_cookie` sets.
unfoldable pub issue_cookie : Signer → Text → Text
issue_cookie signer role = signer.dumps (mapping true (some role))

pub known_role : Text → Text
known_role role = if contains (role_writer ∷ role_family ∷ []) role then role else role_writer

pub role_of_payload : Option Payload → Option Text
role_of_payload none = none
role_of_payload (some other) = none
role_of_payload (some (mapping false role)) = none
role_of_payload (some (mapping true none)) = some role_writer
role_of_payload (some (mapping true (some role))) = some (known_role role)

unfoldable pub role_from_cookie : Signer → Request → Option Text
unfolding role_of_payload
role_from_cookie signer request =
    let token = or_empty request.cookie in
    if token == [] then none else role_of_payload (signer.loads token)

unfoldable pub has_valid_cookie : Signer → Request → Bool
has_valid_cookie signer request = elim (role_from_cookie signer request) [
  | none ↦ false
  | some _ ↦ true
]

-- The TypeError of `hmac.compare_digest`.
pub data CompareError : Type 0 where
  not_ascii : CompareError

-- hmac.compare_digest, of two texts
abbrev pub compare_digest : Text → Text → Outcome CompareError Bool
compare_digest a b =
    if all (λ c. ltb c 128) a && all (λ c. ltb c 128) b then ok (a == b) else err not_ascii

-- bool(word) and hmac.compare_digest(typed, word)
abbrev pub word_matches : Text → Option Text → Outcome CompareError Bool
word_matches typed word = if is_set word then compare_digest typed (or_empty word) else ok false

unfoldable pub role_for_passcode : Text → Passcodes → Outcome CompareError (Option Text)
role_for_passcode candidate settings = do
  let typed = strip is_space candidate
  writer_ok ← word_matches typed settings.passcode
  family_ok ← word_matches typed settings.family_passcode
  ok (if writer_ok then some role_writer else if family_ok then some role_family else none)

unfoldable pub passcodes_enabled : Passcodes → Bool
passcodes_enabled settings = is_set settings.passcode || is_set settings.family_passcode

unfoldable pub is_open_path : Text → Bool
is_open_path path = contains open_paths path || starts_with path (codes "/static/")

unfoldable pub is_authorised : Signer → Passcodes → Request → Bool
is_authorised signer settings request =
    if not (passcodes_enabled settings)
    then true
    else if is_open_path request.path
    then true
    else has_valid_cookie signer request

unfoldable pub family_may : Request → Bool
family_may request =
    if not (contains (codes "GET" ∷ codes "HEAD" ∷ codes "OPTIONS" ∷ []) request.method)
    then false
    else not (any (starts_with request.path) family_denied_prefixes)

-- The target of the redirect to the passcode page.
unfoldable pub redirect_to_entry : Request → Text
redirect_to_entry request =
    let destination = request.path in
    codes "/enter"
    ++ (if not (destination == []) && not (destination == codes "/")
        then codes "?next=" ++ destination
        else [])

-- What the gate does with a request: an answer of its own, or the handler runs in a role.
pub data Verdict : Type 0 where
  not_signed_in : Verdict
  to_entry : Text → Verdict
  read_only_json : Verdict
  read_only_page : Verdict
  handled_as : Text → Verdict

unfoldable pub is_api : Request → Bool
is_api request = starts_with request.path (codes "/api/")

-- `role_from_cookie(request, active) or auth.ROLE_WRITER`
abbrev role_or_writer : Option Text → Text
role_or_writer none = role_writer
role_or_writer (some role) = role

unfoldable pub acting_role : Signer → Request → Text
acting_role signer request = role_or_writer (role_from_cookie signer request)

pub passcode_gate : Signer → Passcodes → Request → Verdict
passcode_gate signer active request =
    if not (is_authorised signer active request)
    then (if is_api request then not_signed_in else to_entry (redirect_to_entry request))
    else let role = acting_role signer request in
      if role == role_family && not (is_open_path request.path)
      then (if not (family_may request)
          then (if is_api request then read_only_json else read_only_page)
          else handled_as role)
      else handled_as role
