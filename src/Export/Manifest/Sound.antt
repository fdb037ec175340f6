-- ===== src/Export/Manifest/Sound.antt =====
-- An export that nobody has touched agrees with its manifest.
use veillee.Base.{
  and_both, or_neither, ◌≡◌, refl, ◌∙◌, Bool, true, false, none, some, List, [], ◌∷◌, ◌++◌, ◌==◌,
  ==_refl, ==_iff, nat_eq, list_eq, list_beq, ok, Option-cases, Bool-cases, inl, inr, not, ◌&&◌, ap,
  all, filter, arith, contains,
}
use veillee.Base.Text.{Text, codes}
use veillee.Base.Dict.{lookup}
use veillee.Models.{FilePath}
use veillee.Values.{Value, str, seq, mapping, Fields, get_field, text_of, to_list, of_list}
use veillee.Disk.{Disk, temporary, atomic_write, completes, file_name}
use veillee.Disk.Keeps.{absent_differs}
use veillee.Disk.Laws.{written_file}
use veillee.Sidecars.{Library}
use veillee.Transcripts.{join}
use veillee.Export.{
  manifest_fields, document_fields, manifest_path, manifest_entries, manifest_document,
  write_manifest, every_file, path_text,
}
use veillee.Export.Manifest.{
  split_slash, is_component, path_of_text, check_entry, check_entries, verify_manifest,
  check_document, entries_of,
}

-- A name that a file may have.
abbrev pub is_name : Text → Bool
is_name name = is_component name && not (contains name 47)

no_slash : (name : Text) → is_name name ≡ true → contains name 47 ≡ false
no_slash name h =
    let (_, free) = and_both (is_component name) (not (contains name 47)) h in ground arith

split-no_slash : (name : Text) → contains name 47 ≡ false → split_slash name ≡ name ∷ []
unfolding split_slash
split-no_slash [] h = refl
split-no_slash (c ∷ s) h =
    let (here, there) = or_neither (c == 47) (contains s 47) h in
    rw (here, split-no_slash s there) refl

split-append :
    (name rest : Text)
    → contains name 47 ≡ false
    → split_slash (name ++ (47 ∷ rest)) ≡ name ∷ split_slash rest
unfolding split_slash
split-append [] rest h = refl
split-append (c ∷ s) rest h =
    let (here, there) = or_neither (c == 47) (contains s 47) h in
    rw (here, split-append s rest there) refl

split_slash-join :
    (name : Text) (names : List Text)
    → all is_name (name ∷ names) ≡ true
    → split_slash (join (codes "/") (name ∷ names)) ≡ name ∷ names
unfolding join
split_slash-join name [] h = split-no_slash name (no_slash name (and_both _ _ h).0)
split_slash-join name (other ∷ names) h =
    let (here, there) = and_both _ _ h in
    split-append name _ (no_slash name here)
    ∙ ap (λ rest. name ∷ rest) (split_slash-join other names there)

filter-components :
    (names : List Text) → all is_name names ≡ true → filter is_component names ≡ names
filter-components [] h = refl
filter-components (name ∷ names) h =
    let (here, there) = and_both (is_name name) (all is_name names) h in
    rw
      (
        (and_both (is_component name) (not (contains name 47)) here).0,
        filter-components names there,
      )
      refl

path_of_text-path_text :
    (path : FilePath) → all is_name path ≡ true → path_of_text (path_text path) ≡ path
unfolding path_of_text join list_beq
path_of_text-path_text [] h = refl
path_of_text-path_text (name ∷ names) h =
    rw (split_slash-join name names h) (filter-components (name ∷ names) h)

entry_fields :
    (lib : Library) (path : FilePath) (text : Text)
    → (get_field (codes "path") (manifest_fields lib path text) ≡ some (str (path_text path)))
      × (get_field (codes "sha256") (manifest_fields lib path text) ≡ some (str (lib.sha256 text)))
unfolding list_beq get_field
entry_fields lib path text = (refl, refl)

module _ (lib : Library) (repr : Value → Text) (folder : Disk) where
  check_entry-there :
      (e : Fields) (path : FilePath) (text : Text)
      → get_field (codes "path") e ≡ some (str (path_text path))
      → get_field (codes "sha256") e ≡ some (str (lib.sha256 text))
      → all is_name path ≡ true
      → lookup path folder ≡ some text
      → check_entry lib repr folder (mapping e) ≡ ok []
  unfolding check_entry text_of
  check_entry-there e path text p digest named there =
      rw (p, check_entry, digest, path_of_text-path_text path named, there)
        (rw (==_refl (lib.sha256 text)) refl)

  -- Entries that were made of another folder agree with this one, if it holds the same texts.
  check_entries-manifest_entries :
      (before : Disk) (paths : List FilePath)
      → all (all is_name) paths ≡ true
      → ((p : FilePath) (text : Text)
          → (file_name p == codes "manifest.json") ≡ false
          → lookup p before ≡ some text
          → lookup p folder ≡ some text)
      → check_entries lib repr folder (manifest_entries lib paths before) ≡ ok []
  unfolding manifest_entries check_entries
  check_entries-manifest_entries before [] named same = refl
  check_entries-manifest_entries before (path ∷ paths) named same =
      let (here, rest) = and_both (all is_name path) (all (all is_name) paths) named in
      let tail = check_entries-manifest_entries before paths rest same in
      elim (Option-cases (lookup path before)) [
        | inl e ↦ rw (e, check_entries) tail
        | inr (text, e) ↦ elim (Bool-cases (file_name path == codes "manifest.json")) [
          | inl m ↦ rw (e, check_entries, m) tail
          | inr m ↦
              let (p, digest) = entry_fields lib path text in
              rw
                (
                  e,
                  check_entries,
                  m,
                  check_entry-there (manifest_fields lib path text) path text p digest here
                      (same path text m e),
                  tail,
                )
                refl
        ]
      ]

document_files :
    (now : Text) (entries : List Value)
    → get_field (codes "files") (document_fields now entries) ≡ some (seq (of_list entries))
unfolding list_beq get_field
document_files now entries = refl

to_list-of_list : (vs : List Value) → to_list (of_list vs) ≡ vs
to_list-of_list [] = refl
to_list-of_list (v ∷ vs) = rw (to_list-of_list vs) refl

manifest_apart :
    (q : FilePath) → (file_name q == codes "manifest.json") ≡ false → (manifest_path == q) ≡ false
manifest_apart q h = elim (Bool-cases (manifest_path == q)) [
  | inr n ↦ n
  | inl e ↦
      let same : manifest_path ≡ q = (==_iff manifest_path q).0 e in
      absurd (cc (==_refl (codes "manifest.json"), same, h))
]

module _ (lib : Library) (repr : Value → Text) (now temp_name : Text) (folder : Disk) where
  abbrev pub document : Value
  document = manifest_document now (manifest_entries lib (every_file folder) folder)

  written_fields :
      (after : Disk) (entries : List Value) (text : Text)
      → lookup manifest_path after ≡ some text
      → lib.json_loads text ≡ some (manifest_document now entries)
      → verify_manifest lib repr after ≡ check_entries lib repr after entries
  unfolding verify_manifest
  written_fields after entries text there read =
      rw
        (
          there,
          verify_manifest,
          read,
          check_document,
          entries_of,
          document_files now entries,
          to_list-of_list entries,
        )
        refl

  -- An export whose manifest was written agrees with it: the names of its files have no slash and are
  -- not empty or a dot, JSON reads the manifest back, and the temporary file is a new one.
  pub write_manifest-verify_manifest :
      (temporary temp_name manifest_path == manifest_path) ≡ false
      → lookup (temporary temp_name manifest_path) folder ≡ none
      → all (all is_name) (every_file folder) ≡ true
      → lib.json_loads (lib.json_dumps document ++ codes "\n") ≡ some document
      → verify_manifest lib repr (write_manifest lib now temp_name completes folder).0 ≡ ok []
  unfolding write_manifest atomic_write
  write_manifest-verify_manifest differs fresh named read =
      let text = lib.json_dumps document ++ codes "\n" in
      let after = (atomic_write temp_name completes manifest_path text folder).0 in
      let there : lookup manifest_path after ≡ some text =
        written_file temp_name completes manifest_path text folder manifest_path differs differs
        ∙ rw (==_refl manifest_path) refl in
      written_fields after (manifest_entries lib (every_file folder) folder) text there read
      ∙ check_entries-manifest_entries lib repr after folder (every_file folder) named
          (λ p old apart held.
            written_file temp_name completes manifest_path text folder p differs
              (absent_differs _ p old folder fresh held)
            ∙ rw (manifest_apart p apart) held)
