-- ===== src/Uploads/Chunks.antt =====
-- A chunk that is written is on disk, and so are the others.
use veillee.Base.{
  ℕ, ◌≡◌, refl, true, false, some, [], ◌∷◌, ◌++◌, if◌then◌else◌, ◌==◌, ==_refl, nat_eq, list_eq, ok,
}
use veillee.Base.Text.{Text, codes}
use veillee.Base.Dict.{lookup, insert, lookup-insert}
use veillee.Models.{FilePath}
use veillee.Disk.{Disk, is_dir}
use veillee.Disk.Laws.{lookup-move_file}
use veillee.Uploads.{upload_dir, chunk_name, chunk_path, write_chunk}

-- Where the bytes of a chunk stand while they are written.
abbrev pub partial_path : Text → ℕ → FilePath
partial_path upload_id index = upload_dir upload_id ++ ((chunk_name index ++ codes ".tmp") ∷ [])

-- In an open upload `write_chunk` returns the chunk's path, at which the disk then has the payload,
-- whether or not that chunk was there before; every other file, but for the partial one, is as it was.
pub write_chunk-stores :
    (upload_id : Text) (index : ℕ) (payload : Text) (disk : Disk) (q : FilePath)
    → is_dir (upload_dir upload_id) disk ≡ true
    → (partial_path upload_id index == q) ≡ false
    → ((write_chunk upload_id index payload disk).1 ≡ ok (chunk_path upload_id index))
      × (lookup q (write_chunk upload_id index payload disk).0
          ≡ (if chunk_path upload_id index == q then some payload else lookup q disk))
unfolding write_chunk
write_chunk-stores upload_id index payload disk q opened apart =
    let part = chunk_path upload_id index in
    let partial = partial_path upload_id index in
    (
      rw opened refl,
      rw
          (
            opened,
            lookup-move_file q partial part payload (insert partial payload disk)
                (rw (lookup-insert partial partial payload disk, ==_refl partial) refl),
            lookup-insert q partial payload disk,
            apart,
          )
          refl,
    )
