-- ===== src/Answers/ReadBack.antt =====
-- An answer that is written reads back as the one that `write_answer` returned.
use veillee.Base.{
  ◌≡◌, refl, sym, ap, ◌∙◌, true, false, Option, some, [], ◌∷◌, arith, contains, ◌==◌, ==_refl,
  nat_eq, list_eq, list_beq, Outcome, ok, err, ok_injective, subst, Bool-cases, inl, inr,
}
use veillee.Base.Text.{Text, strip, is_newline}
use veillee.Base.Strip.{strip_idem}
use veillee.Base.Dict.{lookup}
use veillee.Models.{FilePath, Question, Answer, valid_statuses}
use veillee.Paths.{utc_now_iso}
use veillee.Values.{Value, get_field, text_of, int_of, Yaml}
use veillee.Frontmatter.RoundTrip.{IsFaithful, loads-dumps}
use veillee.Disk.{Disk, Fate, atomic_write, temporary, universal_newlines}
use veillee.Disk.Laws.{written_file, atomic_write-is_in_place}
use veillee.Answers.{
  ReadError, Call, answer_from, read_answer, metadata_of, serialise, known_status, new_answer,
  answer_path, store_answer, load_answer, write_answer, save_revision, store_revised, WriteError,
}

answer_from-metadata_of :
    (repr : Value → Text) (path : FilePath) (a : Answer) (body : Text)
    → answer_from repr path (metadata_of a) body
      ≡ ok (record a { body = body; status = known_status a.status; path = path })
unfolding answer_from metadata_of get_field text_of int_of list_beq
answer_from-metadata_of repr path a body = refl

known_status-valid :
    (status : Text) → contains valid_statuses status ≡ true → known_status status ≡ status
known_status-valid status h = rw h refl

-- A text without carriage returns is read as it stands.
universal_newlines-same : (s : Text) → contains s 13 ≡ false → universal_newlines s ≡ s
unfolding universal_newlines
universal_newlines-same [] h = refl
universal_newlines-same (c ∷ []) h = ground arith
universal_newlines-same (c ∷ d ∷ s) h = ground (arith, universal_newlines-same (d ∷ s))

-- A file without carriage returns that holds a serialised answer of a known status reads back as that answer, but for the
-- newlines around its body and the path that it is read from.
pub read_answer-serialise :
    (yaml : Yaml) (path : FilePath) (a : Answer) (disk : Disk)
    → IsFaithful yaml (metadata_of a)
    → contains valid_statuses a.status ≡ true
    → contains (serialise yaml a) 13 ≡ false
    → lookup path disk ≡ some (serialise yaml a)
    → read_answer yaml path disk ≡ ok (record a { body = strip is_newline a.body; path = path })
unfolding serialise read_answer
read_answer-serialise yaml path a disk faithful h plain there =
    rw
      (
        there,
        read_answer,
        universal_newlines-same (serialise yaml a) plain,
        (loads-dumps yaml (metadata_of a) a.body faithful).0,
        answer_from-metadata_of yaml.repr path a (strip is_newline a.body),
      )
      (ap (λ s. ok (record a { body = strip is_newline a.body; status = s; path = path }))
        (known_status-valid a.status h))

module _ (nfkd : Text → Text) (yaml : Yaml) (call : Call) (fate : Fate) (q : Question)
    (path : FilePath) (named : answer_path nfkd q ≡ some path)
    (distinct : (temporary call.temp_name path == path) ≡ false) where
  load_answer-there :
      (disk : Disk) (a : Answer)
      → lookup path disk ≡ some (serialise yaml a)
      → IsFaithful yaml (metadata_of a)
      → contains valid_statuses a.status ≡ true
      → contains (serialise yaml a) 13 ≡ false
      → load_answer nfkd yaml q disk
        ≡ ok (some (record a { body = strip is_newline a.body; path = path }))
  unfolding load_answer
  load_answer-there disk a there faithful h plain =
      rw (named, load_answer, there, read_answer-serialise yaml path a disk faithful h plain there)
        refl

  load_answer-store_answer :
      (body status : Text) (created : Outcome ReadError Text) (disk : Disk) (a : Answer)
      → contains valid_statuses status ≡ true
      → IsFaithful yaml (metadata_of a)
      → contains (serialise yaml a) 13 ≡ false
      → (store_answer yaml call fate q path body status created disk).1 ≡ ok a
      → load_answer nfkd yaml q (store_answer yaml call fate q path body status created disk).0
        ≡ ok (some a)
  unfolding store_answer
  load_answer-store_answer body status (err e) disk a v faithful plain h = absurd (cc h)
  load_answer-store_answer body status (ok created) disk a v faithful plain h =
      let b = new_answer q path body status created (utc_now_iso call.written) in
      elim (Bool-cases (atomic_write call.temp_name fate path (serialise yaml b) disk).1) [
        | inl r ↦
            let same : b ≡ a = ok_injective (rw r at h) in
            let text = serialise yaml b in
            let after = (atomic_write call.temp_name fate path text disk).0 in
            let there : lookup path after ≡ some text =
              written_file call.temp_name fate path text disk path distinct distinct
              ∙ rw (atomic_write-is_in_place call.temp_name fate path text disk r, ==_refl path)
                  refl in
            let loaded =
              load_answer-there after b there
                (subst (λ x. IsFaithful yaml (metadata_of x)) (sym same) faithful) v
                (subst (λ x. contains (serialise yaml x) 13 ≡ false) (sym same) plain) in
            loaded
            ∙ ap (λ s. ok (some (record b { body = s }))) (strip_idem is_newline body)
            ∙ ap (λ x. ok (some x)) same
        | inr r ↦ absurd (cc (rw r at h))
      ]

-- Whenever `write_answer` returns an answer, loading the question's answer from the disk that it
-- leaves gives exactly that answer, for a known status, metadata that PyYAML prints faithfully, an
-- answer's file without carriage returns, and a temporary file named otherwise than the answer.
pub write_answer-load_answer :
    (nfkd : Text → Text) (yaml : Yaml) (call : Call) (fate : Fate) (q : Question)
    (body status : Text) (disk : Disk) (path : FilePath) (a : Answer)
    → answer_path nfkd q ≡ some path
    → contains valid_statuses status ≡ true
    → (temporary call.temp_name path == path) ≡ false
    → IsFaithful yaml (metadata_of a)
    → contains (serialise yaml a) 13 ≡ false
    → (write_answer nfkd yaml call fate q body status disk).1 ≡ ok a
    → load_answer nfkd yaml q (write_answer nfkd yaml call fate q body status disk).0 ≡ ok (some a)
unfolding write_answer store_revised
write_answer-load_answer nfkd yaml call fate q body status disk path a named v distinct faithful
      plain h =
    rw (v, named, write_answer)
      (store_revised-load_answer (save_revision call.stamped call.copying q.id path disk)
        (rw (v, named, write_answer) at h))
  where
    store_revised-load_answer :
        (x : Disk × Outcome WriteError (Option FilePath))
        → (store_revised yaml call fate q path body status x).1 ≡ ok a
        → load_answer nfkd yaml q (store_revised yaml call fate q path body status x).0
          ≡ ok (some a)
    store_revised-load_answer (kept, err e) k = absurd (cc k)
    store_revised-load_answer (kept, ok o) k =
        load_answer-store_answer nfkd yaml call fate q path named distinct body status _ kept a v
          faithful plain k
