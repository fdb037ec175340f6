-- ===== src/Uploads/Tests.antt =====
-- A second chunk of an open upload.
use veillee.Base.{true, arith, refl, list_beq}
use veillee.Base.Decimal.{pad, decimal, decimal_from}
use veillee.Base.Sort.{text_le}
use veillee.Uploads.{chunk_name}
use veillee.Uploads.Order.{chunk_name-order}
use veillee.Base.{◌≡◌, true, false, some, [], ◌∷◌, if◌then◌else◌, ◌==◌, nat_eq, list_eq, ok}
use veillee.Base.Text.{codes}
use veillee.Base.Dict.{lookup}
use veillee.Disk.{Disk, is_dir, relative_to}
use veillee.Uploads.{upload_dir, chunk_path, write_chunk}
use veillee.Uploads.Chunks.{partial_path, write_chunk-stores}

abbrev opened : Disk
opened = (codes ".uploads" ∷ codes "u" ∷ codes "meta.json" ∷ [], codes "{}") ∷ []

is_open : is_dir (upload_dir (codes "u")) opened ≡ true
unfolding is_dir relative_to list_beq
is_open = refl

chunk_apart : (partial_path (codes "u") 1 == chunk_path (codes "u") 1) ≡ false
unfolding chunk_name pad decimal decimal_from list_beq
chunk_apart = refl

write_chunk-stores_example :
    ((write_chunk (codes "u") 1 (codes "ab") opened).1 ≡ ok (chunk_path (codes "u") 1))
    × (lookup (chunk_path (codes "u") 1) (write_chunk (codes "u") 1 (codes "ab") opened).0 ≡ (
        if chunk_path (codes "u") 1 == chunk_path (codes "u") 1
        then some (codes "ab")
        else lookup (chunk_path (codes "u") 1) opened))
write_chunk-stores_example =
    write_chunk-stores (codes "u") 1 (codes "ab") opened (chunk_path (codes "u") 1) is_open
      chunk_apart

chunk_name-order_example : text_le (chunk_name 9) (chunk_name 10) ≡ true
chunk_name-order_example = chunk_name-order 9 10 (omega arith) (omega arith)
