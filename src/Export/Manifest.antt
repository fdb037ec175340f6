-- ===== src/Export/Manifest.antt =====
-- verify_manifest of export.py: an export against its manifest.
pub mod Sound
use veillee.Base.{
  ℕ, Bool, true, false, not, Option, none, some, List, [], ◌∷◌, ◌++◌, ◌&&◌, filter, if◌then◌else◌,
  ◌==◌, nat_eq, list_eq, Outcome, ok, err, ◌>>=◌,
}
use veillee.Base.Text.{Text, codes}
use veillee.Base.Dict.{lookup}
use veillee.Models.{FilePath}
use veillee.Values.{Value, str, seq, mapping, Fields, get_field, text_of, to_list}
use veillee.Disk.{Disk}
use veillee.Answers.{ReadError, value_error, type_error, key_error, attribute_error, or_error}
use veillee.Sidecars.{Library}
use veillee.Export.{manifest_path}

pub data ManifestProblem : Type 0 where
  no_manifest : ManifestProblem
  missing_file checksum_mismatch : Value → ManifestProblem

abbrev pub cons_piece : ℕ → List Text → List Text
cons_piece c [] = (c ∷ []) ∷ []
cons_piece c (p ∷ ps) = (c ∷ p) ∷ ps

-- text.split("/")
unfoldable pub split_slash : Text → List Text
split_slash [] = [] ∷ []
split_slash (c ∷ s) = let rest = split_slash s in if c == 47 then [] ∷ rest else cons_piece c rest

abbrev pub is_component : Text → Bool
is_component piece = not (piece == []) && not (piece == codes ".")

-- directory / text, for a relative path
unfoldable pub path_of_text : Text → FilePath
unfolding split_slash
path_of_text text = filter is_component (split_slash text)

-- `sha256_file(path) != entry["sha256"]`, of a file that is there
abbrev pub same_text : Text → Value → Bool
same_text digest (str s) = s == digest
same_text digest v = false

abbrev pub checked :
    Library → Value → Option Text → Option Value → Outcome ReadError (List ManifestProblem)
checked lib path none expected = ok (missing_file path ∷ [])
checked lib path (some text) none = err key_error
checked lib path (some text) (some expected) =
    ok (if same_text (lib.sha256 text) expected then [] else checksum_mismatch path ∷ [])

module _ (lib : Library) (repr : Value → Text) (folder : Disk) where
  unfoldable pub check_entry : Value → Outcome ReadError (List ManifestProblem)
  unfolding path_of_text
  check_entry (mapping entry) = do
    path ← or_error key_error (get_field (codes "path") entry)
    checked lib path (lookup (path_of_text (text_of repr path)) folder)
        (get_field (codes "sha256") entry)
  check_entry v = err type_error

  unfoldable pub check_entries : List Value → Outcome ReadError (List ManifestProblem)
  unfolding check_entry
  check_entries [] = ok []
  check_entries (entry ∷ entries) = do
    problems ← check_entry entry
    rest ← check_entries entries
    ok (problems ++ rest)

  -- manifest.get("files", []); a list, as the program writes it.
  abbrev pub entries_of : Fields → Outcome ReadError (List Value)
  entries_of manifest = elim (get_field (codes "files") manifest) [
    | none ↦ ok []
    | some (seq entries) ↦ ok (to_list entries)
    | some v ↦ err type_error
  ]

  abbrev pub check_document : Option Value → Outcome ReadError (List ManifestProblem)
  check_document none = err value_error
  check_document (some (mapping manifest)) = do entries ← entries_of manifest; check_entries entries
  check_document (some v) = err attribute_error

  unfoldable pub verify_manifest : Outcome ReadError (List ManifestProblem)
  unfolding check_entries
  verify_manifest = elim (lookup manifest_path folder) [
    | none ↦ ok (no_manifest ∷ [])
    | some text ↦ check_document (lib.json_loads text)
  ]
