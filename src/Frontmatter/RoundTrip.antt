-- ===== src/Frontmatter/RoundTrip.antt =====
-- Reading what was written gives it back.
use veillee.Base.{
  ◌≡◌, refl, ap, ◌∙◌, true, false, some, [], ◌∷◌, ◌++◌, length, any, nat_eq, list_eq, list_beq, ok,
  take-length, drop-length, arith,
}
use veillee.Base.Text.{Text, strip, strip_right, starts_with, is_newline}
use veillee.Base.Strip.{strip-cons, strip-append_one, strip_idem}
use veillee.Values.{mapping, Fields, Yaml}
use veillee.Frontmatter.{
  delimiter, newline, trailer, dumps, split_lines, is_delimiter_line, find_closing_delimiter,
  after_newline, read_metadata, split_at, loads,
}
use veillee.Frontmatter.Lines.{
  ends_with_newline, split_lines-append, concat-split_lines, closing_from-append,
}

-- What is relied on of PyYAML for given metadata: reading a dump gives the metadata back, a dump ends
-- its last line, and none of its lines is a delimiter.
pub record IsFaithful (yaml : Yaml) (m : Fields) : Type 0 where
  pub reads_back : yaml.safe_load (yaml.safe_dump m) ≡ some (mapping m)
  pub ends_lines : ends_with_newline (yaml.safe_dump m) ≡ true
  pub no_delimiter : any is_delimiter_line (split_lines (yaml.safe_dump m)) ≡ false

-- The closing delimiter's line.
closing_line : Text
closing_line = delimiter ++ (newline ∷ [])

closing_line-delimits : is_delimiter_line closing_line ≡ true
unfolding closing_line is_delimiter_line list_beq strip_right
closing_line-delimits = refl

split_lines-closing :
    (s : Text) → split_lines (delimiter ++ (newline ∷ s)) ≡ closing_line ∷ split_lines s
unfolding closing_line split_lines
split_lines-closing s = refl

find_closing_delimiter-dump :
    (dump rest : Text)
    → ends_with_newline dump ≡ true
    → any is_delimiter_line (split_lines dump) ≡ false
    → find_closing_delimiter (dump ++ (delimiter ++ (newline ∷ rest))) ≡ some (length dump)
unfolding find_closing_delimiter
find_closing_delimiter-dump dump rest e n =
    rw
      (
        split_lines-append dump (delimiter ++ (newline ∷ rest)) e,
        split_lines-closing rest,
        closing_from-append 0 (split_lines dump) closing_line (split_lines rest) n
            closing_line-delimits,
        concat-split_lines dump,
      )
      (ground arith)

strip-trailer : (t : Text) → strip is_newline (newline ∷ trailer t) ≡ strip is_newline t
strip-trailer [] = strip-cons is_newline newline [] refl
strip-trailer (c ∷ s) =
    strip-cons is_newline newline ((c ∷ s) ++ (newline ∷ [])) refl
    ∙ strip-append_one is_newline (c ∷ s) newline refl

after_newline-closing : (s : Text) → after_newline (delimiter ++ (newline ∷ s)) ≡ s
unfolding after_newline
after_newline-closing s = refl

split_at-dump :
    (yaml : Yaml) (m : Fields) (s : Text)
    → yaml.safe_load (yaml.safe_dump m) ≡ some (mapping m)
    → split_at yaml
        (yaml.safe_dump m ++ (delimiter ++ (newline ∷ s)))
        (some (length (yaml.safe_dump m)))
      ≡ ok (m, strip is_newline s)
unfolding split_at
split_at-dump yaml m s h =
    rw
      (
        take-length (yaml.safe_dump m) (delimiter ++ (newline ∷ s)),
        drop-length (yaml.safe_dump m) (delimiter ++ (newline ∷ s)),
        h,
        after_newline-closing s,
        read_metadata,
      )
      refl

starts_with-delimiter : (s : Text) → starts_with (delimiter ++ s) delimiter ≡ true
unfolding starts_with
starts_with-delimiter s = refl

-- A text of metadata and a body reads back as the metadata and the body without the newlines at its
-- ends, and writing that body again gives the same text, for metadata that PyYAML prints faithfully.
pub loads-dumps :
    (yaml : Yaml) (m : Fields) (body : Text)
    → IsFaithful yaml m
    → (loads yaml (dumps yaml m body) ≡ ok (m, strip is_newline body))
      × (dumps yaml m (strip is_newline body) ≡ dumps yaml m body)
unfolding dumps loads
loads-dumps yaml m body faithful =
    let dump = yaml.safe_dump m in
    let body_part = newline ∷ trailer (strip is_newline body) in
    (
      rw
          (
            starts_with-delimiter (newline ∷ (dump ++ (delimiter ++ (newline ∷ body_part)))),
            loads,
            find_closing_delimiter-dump dump body_part faithful.ends_lines faithful.no_delimiter,
            split_at-dump yaml m body_part faithful.reads_back,
          )
          (ap (λ x. ok (m, x))
            (strip-trailer (strip is_newline body) ∙ strip_idem is_newline body)),
      rw (strip_idem is_newline body) refl,
    )
