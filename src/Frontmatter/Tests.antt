-- ===== src/Frontmatter/Tests.antt =====
-- A document with one key.
use veillee.Base.{◌≡◌, refl, none, some, [], if◌then◌else◌, ◌==◌, nat_eq, list_eq, list_beq, ok}
use veillee.Base.Text.{Text, codes, strip, strip_right, strip_left, is_newline, starts_with}
use veillee.Values.{mapping, str, Fields, end, field, Yaml}
use veillee.Frontmatter.{
  dumps, loads, split_lines, ends_line, is_boundary, is_delimiter_line, find_closing_delimiter,
  closing_from, after_newline, split_at, read_metadata,
}
use veillee.Frontmatter.Lines.{ends_with_newline}
use veillee.Frontmatter.RoundTrip.{IsFaithful, loads-dumps}

abbrev one_key : Fields
one_key = field (codes "k") (str (codes "v")) end

abbrev dumped : Text
dumped = codes "k: v\n"

abbrev toy_yaml : Yaml
toy_yaml = record {
  safe_load = λ s. if s == dumped then some (mapping one_key) else none;
  safe_dump = λ m. dumped;
  repr = λ v. [];
}

toy_yaml-IsFaithful : IsFaithful toy_yaml one_key
unfolding list_beq ends_with_newline split_lines ends_line is_boundary is_delimiter_line strip_right
toy_yaml-IsFaithful = record { reads_back = refl; ends_lines = refl; no_delimiter = refl }

loads-dumps_example :
    (loads toy_yaml (dumps toy_yaml one_key (codes "\nhi\n"))
      ≡ ok (one_key, strip is_newline (codes "\nhi\n")))
    × (dumps toy_yaml one_key (strip is_newline (codes "\nhi\n"))
        ≡ dumps toy_yaml one_key (codes "\nhi\n"))
loads-dumps_example = loads-dumps toy_yaml one_key (codes "\nhi\n") toy_yaml-IsFaithful

reads_crlf : loads toy_yaml (codes "---\nk: v\n---\r\n\nhi\n") ≡ ok (one_key, codes "hi")
unfolding loads split_at read_metadata find_closing_delimiter closing_from split_lines ends_line
    is_boundary is_delimiter_line strip strip_left strip_right after_newline starts_with list_beq
reads_crlf = refl
