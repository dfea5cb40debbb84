-- ===== src/Tests/Blob.antt =====
-- internal/blobstore: a blob is written in two pieces, and its extent is used again.
use go_msi.Prelude.{ℕ, ◌≡◌, Bool, true, false, [], ◌∷◌, some, refl, arith}
use go_msi.Prelude.Text.{Str, bytes}
use go_msi.Blobs.{
  Both, Store, Writer, new_writer, create, full, filled_part, unused_tail, commit, open_with,
  open_next, turn, chunk_of, put_bytes, advance, round, write_loop, write,
}
use go_msi.Blobs.Write.{Honest}
use go_msi.Blobs.Filled.{write_whole}
use go_msi.Blobs.Cover.{inside}
use go_msi.Blobs.System.{
  opened, wrote, Reached, fresh, next, fresh_store, Exact, given, times, Reached-Exact,
}

-- A disk that writes what it is given.
abbrev disk : ℕ → ℕ → ℕ × Bool
disk o k = (k, false)

disk-Honest : Honest disk
disk-Honest = record { most = λ o k. omega arith; short = λ o k h. absurd (omega (arith, h)) }

abbrev empty_file : ℕ → ℕ
empty_file x = 0

abbrev piece : Str
piece = bytes "MSI"

abbrev store_1 : Store
store_1 = record (fresh_store empty_file) { next_h = 1 }

opens : create (fresh_store empty_file) ≡ some (store_1, new_writer 0)
unfolding create
opens = refl

abbrev store_2 : Store
store_2 = record store_1 { file = put_bytes 0 piece empty_file; file_end = 3 }

abbrev writer_2 : Writer
writer_2 = record (new_writer 0) {
  cur = record { offset = 0; length = 3 };
  cur_len = 3;
  growing = true;
}

writes : write disk piece (store_1, new_writer 0) ≡ some (3, (store_2, writer_2))
unfolding write write_loop round turn full open_next open_with commit filled_part unused_tail
    chunk_of advance
writes = refl

abbrev written : Reached (λ call. disk) (store_2, writer_2 ∷ [])
written =
    next
      (next (fresh empty_file)
        (opened (fresh_store empty_file) store_1 (new_writer 0) [] opens (omega arith)))
      (wrote 0 store_1 store_2 (new_writer 0) writer_2 3 piece [] [] writes)

Reached-Exact_example :
    Exact (store_2, writer_2 ∷ []) × ((j : ℕ) → times j (given written) ≡ inside 0 store_2.next_h j)
Reached-Exact_example =
    Reached-Exact (λ call. disk) (store_2, writer_2 ∷ []) (λ call. disk-Honest) written

write_whole_example : (b : Both) × (write disk (bytes "X") (store_2, writer_2) ≡ some (1, b))
write_whole_example =
    write_whole (λ call. disk) 1 store_2 writer_2 [] [] (bytes "X") (λ call. disk-Honest)
      (λ o k. refl) written refl refl
