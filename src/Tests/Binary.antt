-- ===== src/Tests/Binary.antt =====
-- binary.go at concrete inputs.
use blkchain.Prelude.{ℕ, ◌≡◌, ◌≢◌, ◌↔◌, refl, [], ◌∷◌, ◌++◌, length, arith}
use blkchain.Io.{ok, err, Bytes, eof, unexpected_eof, bad_alloc, read_full}
use blkchain.Io.LittleEndian
use blkchain.Binary.{
  skip_zeros, read_magic, or_bytes, compact_buf, read_compact_size, compact_size_size,
  write_compact_size, make_bytes, read_string, write_string, read_times, read_list, write_each,
  write_list, read_var_int_loop, read_var_int, fill_groups, write_var_int,
}
use blkchain.Binary.CompactSize.{
  read_compact_size-write_compact_size, write_compact_size-shortest, shortest,
  length-write_compact_size,
}
use blkchain.Binary.Strings.{read_string-write_string}
use blkchain.Binary.VarInt.{read_var_int-write_var_int}

abbrev most : ℕ
most = 65535

program : Unit {0}
unfolding skip_zeros read_magic or_bytes compact_buf read_compact_size compact_size_size
    write_compact_size make_bytes read_string write_string read_times read_list write_each
    write_list read_var_int_loop read_var_int fill_groups write_var_int LittleEndian.put
    LittleEndian.get LittleEndian.read read_full
program = tt

compact_sizes :
    (write_compact_size 252 ≡ 252 ∷ [])
    × (write_compact_size 253 ≡ 253 ∷ 253 ∷ 0 ∷ [])
    × (write_compact_size 65535 ≡ 254 ∷ 255 ∷ 255 ∷ 0 ∷ 0 ∷ [])
unfolding program
compact_sizes = (refl, refl, refl)

cut_short :
    (read_compact_size [] ≡ err eof)
    × (read_compact_size (253 ∷ 1 ∷ []) ≡ err unexpected_eof)
    × (read_string (3 ∷ 1 ∷ []) ≡ err unexpected_eof)
unfolding program
cut_short = (refl, refl, refl)

too_long : read_string (255 ∷ 0 ∷ 0 ∷ 0 ∷ 0 ∷ 0 ∷ 0 ∷ 0 ∷ 128 ∷ []) ≡ err bad_alloc
unfolding program
too_long = refl

var_ints :
    (write_var_int 127 ≡ ok (127 ∷ []))
    × (write_var_int 128 ≡ ok (128 ∷ 0 ∷ []))
    × (write_var_int 65535 ≡ ok (130 ∷ 254 ∷ 127 ∷ []))
    × (read_var_int (130 ∷ 254 ∷ 127 ∷ 1 ∷ []) ≡ ok (65535, 1 ∷ []))
unfolding program
var_ints = (refl, refl, refl, refl)

magic : read_magic (0 ∷ 0 ∷ 0xf9 ∷ 0xbe ∷ 0xb4 ∷ 0xd9 ∷ 1 ∷ []) ≡ ok (0xd9b4bef9, 1 ∷ [])
unfolding program
magic = refl

read_compact_size-write_compact_size_example :
    read_compact_size (write_compact_size 70_000 ++ 5 ∷ []) ≡ ok (70_000, 5 ∷ [])
read_compact_size-write_compact_size_example =
    read_compact_size-write_compact_size 70_000 (5 ∷ []) (omega arith)

write_compact_size-shortest_example :
    (write_compact_size most ≡ shortest most) ↔ ((most ≢ 0xffff) × (most ≢ 0xffff_ffff))
write_compact_size-shortest_example = write_compact_size-shortest most

length-write_compact_size_example : length (write_compact_size 70_000) ≡ compact_size_size 70_000
length-write_compact_size_example = length-write_compact_size 70_000

read_string-write_string_example :
    read_string (write_string (1 ∷ 2 ∷ []) ++ 3 ∷ []) ≡ ok (1 ∷ 2 ∷ [], 3 ∷ [])
read_string-write_string_example = read_string-write_string (1 ∷ 2 ∷ []) (3 ∷ []) (omega arith)

read_var_int-write_var_int_example :
    (bs : Bytes) × (write_var_int 70_000 ≡ ok bs)
    × (read_var_int (bs ++ 1 ∷ []) ≡ ok (70_000, 1 ∷ []))
read_var_int-write_var_int_example = read_var_int-write_var_int 70_000 (1 ∷ []) (omega arith)
