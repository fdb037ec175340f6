-- ===== src/Frontmatter.antt =====
-- storage/frontmatter.py. PyYAML is the parameter `yaml`.
pub mod Lines
pub mod RoundTrip
mod Tests
use veillee.Base.{
  ℕ, ◌+◌, ◌≡◌, Bool, true, false, not, Option, none, some, List, [], ◌∷◌, ◌++◌, ◌&&◌, ◌||◌,
  if◌then◌else◌, leb, length, take, drop, contains, ◌==◌, nat_eq, list_eq, Outcome, ok, err, ◌>>=◌,
  ◌>>◌, require,
}
use veillee.Base.Text.{Text, codes, strip, strip_right, starts_with, is_newline}
use veillee.Values.{Value, mapping, Fields, end, truthy, Yaml}

abbrev pub delimiter : Text
delimiter = b'-' ∷ b'-' ∷ b'-' ∷ []

abbrev pub newline : ℕ
newline = 10

abbrev pub carriage_return : ℕ
carriage_return = 13

pub data FrontmatterError : Type 0 where
  no_block unterminated not_yaml not_a_mapping missing_keys : FrontmatterError

-- f"{body_text}\n" if body_text else ""
abbrev pub trailer : Text → Text
trailer [] = []
trailer (c ∷ s) = c ∷ (s ++ (newline ∷ []))

unfoldable pub dumps : Yaml → Fields → Text → Text
dumps yaml metadata body =
    delimiter
    ++ (newline
        ∷ (yaml.safe_dump metadata
            ++ (delimiter ++ (newline ∷ newline ∷ trailer (strip is_newline body)))))

-- The characters at which `str.splitlines` ends a line.
unfoldable pub is_boundary : ℕ → Bool
is_boundary c =
    (leb 10 c && leb c 13) || (leb 28 c && leb c 30) || c == 0x85 || c == 0x2028 || c == 0x2029

-- A carriage return before a newline ends no line of its own.
abbrev pub begins_newline : Text → Bool
begins_newline [] = false
begins_newline (c ∷ s) = is_newline c

abbrev pub cons_first : ℕ → List Text → List Text
cons_first c [] = (c ∷ []) ∷ []
cons_first c (l ∷ ls) = (c ∷ l) ∷ ls

-- A line ends after this character, before that text.
unfoldable pub ends_line : ℕ → Text → Bool
unfolding is_boundary
ends_line c s = is_boundary c && not (c == carriage_return && begins_newline s)

abbrev pub add_line : Bool → ℕ → List Text → List Text
add_line true c lines = (c ∷ []) ∷ lines
add_line false c lines = cons_first c lines

-- text.splitlines(keepends=True)
unfoldable pub split_lines : Text → List Text
unfolding ends_line
split_lines [] = []
split_lines (c ∷ s) = add_line (ends_line c s) c (split_lines s)

unfoldable pub is_delimiter_line : Text → Bool
is_delimiter_line line = strip_right (λ c. c == carriage_return || c == newline) line == delimiter

-- The loop of `_find_closing_delimiter`.
unfoldable pub closing_from : ℕ → List Text → Option ℕ
closing_from offset [] = none
closing_from offset (line ∷ lines) =
    let rest = closing_from (offset + length line) lines in
    if is_delimiter_line line then some offset else rest

unfoldable pub find_closing_delimiter : Text → Option ℕ
unfolding closing_from split_lines
find_closing_delimiter text = closing_from 0 (split_lines text)

-- text.split("\n", 1)[1] if "\n" in text else ""
unfoldable pub after_newline : Text → Text
after_newline [] = []
after_newline (c ∷ s) = if is_newline c then s else after_newline s

abbrev pub skip_newline : Text → Text
skip_newline [] = []
skip_newline (c ∷ s) = if is_newline c then s else c ∷ s

-- `yaml.safe_load(raw_front) or {}`, which has to be a mapping
unfoldable pub read_metadata : Option Value → Outcome FrontmatterError Fields
read_metadata none = err not_yaml
read_metadata (some (mapping fs)) = ok fs
read_metadata (some v) = if truthy v then err not_a_mapping else ok end

unfoldable pub split_at : Yaml → Text → Option ℕ → Outcome FrontmatterError (Fields × Text)
unfolding read_metadata
split_at yaml rest none = err unterminated
split_at yaml rest (some closing) = do
  metadata ← read_metadata (yaml.safe_load (take closing rest))
  ok (metadata, strip is_newline (after_newline (drop closing rest)))

unfoldable pub loads : Yaml → Text → Outcome FrontmatterError (Fields × Text)
unfolding split_at
loads yaml text = do
  require (starts_with text delimiter) no_block
  let rest = skip_newline (drop 3 text)
  split_at yaml rest (find_closing_delimiter rest)
