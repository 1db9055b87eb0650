-- ===== src/Binary.antt =====
-- binary.go: the compact sizes, strings, lists and variable-length integers of Bitcoin's formats.
pub mod CompactSize
pub mod Strings
pub mod VarInt
use blkchain.Prelude.{
  ℕ, zero, suc, ◌+◌, ◌-◌, ◌*◌, ◌/◌, ◌%◌, ◌^◌, bit_and, bit_or, Bool, true, false, Option, none,
  some, List, [], ◌∷◌, ◌++◌, length, reverse, ltb, leb, ◌==◌, not, if◌then◌else◌,
}
use blkchain.Io.{
  Result, ok, err, Error, Bytes, Reader, ◌>>=◌, done, fail, read_full, eof, short, bad_alloc,
  index_range,
}
use blkchain.Io.LittleEndian

-- `readMagic`: the loop skips zero bytes, one read a round, and then the other three bytes follow.
unfoldable pub skip_zeros : Reader ℕ
skip_zeros [] = err eof
skip_zeros (b ∷ rest) = let more = skip_zeros rest in if b == 0 then more else ok (b, rest)

unfoldable pub read_magic : Reader ℕ
read_magic = do first ← skip_zeros; others ← read_full 3; done (LittleEndian.get (first ∷ others))

-- `result |= uint64(buf[i]) << uint64(i*8)` over the bytes of the buffer.
unfoldable pub or_bytes : ℕ → Bytes → ℕ → ℕ
or_bytes i [] result = result
or_bytes i (b ∷ bs) result = or_bytes (i + 1) bs (bit_or result (b * 2 ^ (i * 8) % 2 ^ 64))

-- The buffer that is decoded: the first byte, or the bytes behind it that its value asks for.
unfoldable pub compact_buf : Bytes → Reader Bytes
compact_buf buf =
    let first = LittleEndian.get buf in
    if first == 0xfd
    then read_full 2
    else if first == 0xfe
    then read_full 4
    else if first == 0xff
    then read_full 8
    else done buf

unfoldable pub read_compact_size : Reader ℕ
read_compact_size = do first ← read_full 1; buf ← compact_buf first; done (or_bytes 0 buf 0)

abbrev pub max_uint16 : ℕ
max_uint16 = 2 ^ 16 - 1

abbrev pub max_uint32 : ℕ
max_uint32 = 2 ^ 32 - 1

unfoldable pub compact_size_size : ℕ → ℕ
compact_size_size i =
    if ltb i 0xfd then 1 else if ltb i max_uint16 then 3 else if ltb i max_uint32 then 5 else 9

unfoldable pub write_compact_size : ℕ → Bytes
write_compact_size i =
    if ltb i 0xfd
    then (i % 256) ∷ []
    else if ltb i max_uint16
    then 0xfd ∷ LittleEndian.put 2 (i % 2 ^ 16)
    else if ltb i max_uint32
    then 0xfe ∷ LittleEndian.put 4 (i % 2 ^ 32)
    else 0xff ∷ LittleEndian.put 8 i

-- `make([]byte, int(size))` panics where the conversion gives a negative length.
unfoldable pub make_bytes : ℕ → Reader ℕ
make_bytes size = if ltb size (2 ^ 63) then done size else fail bad_alloc

unfoldable pub read_string : Reader Bytes
read_string = do size ← read_compact_size; len ← make_bytes size; read_full len

unfoldable pub write_string : Bytes → Bytes
write_string s = write_compact_size (length s) ++ s

-- The calls of the closure `doRead`, which changes the state `s` that it captures.
unfoldable pub read_times : {S : Type 0} → (S → Reader S) → ℕ → S → Reader S
read_times do_read zero s = done s
read_times do_read (suc n) s = do s' ← do_read s; read_times do_read n s'

unfoldable pub read_list : {S : Type 0} → (S → Reader S) → S → Reader S
read_list do_read s = do size ← read_compact_size; read_times do_read size s

-- `doWrite(w, i)` writes the element `i` of a list: the loop goes through the list in order.
unfoldable pub write_each : {A : Type 0} → (A → Bytes) → List A → Bytes
write_each do_write [] = []
write_each do_write (x ∷ xs) = do_write x ++ write_each do_write xs

unfoldable pub write_list : {A : Type 0} → (A → Bytes) → List A → Bytes
write_list do_write xs = write_compact_size (length xs) ++ write_each do_write xs

-- The loop of `ReadVarInt` on the accumulator `n`; each round takes one byte.
unfoldable pub read_var_int_loop : ℕ → Reader ℕ
read_var_int_loop n [] = err eof
read_var_int_loop n (b ∷ rest) =
    let n' = bit_or (n * 2 ^ 7 % 2 ^ 64) (bit_and b 0x7f) in
    let more = read_var_int_loop ((n' + 1) % 2 ^ 64) rest in
    if not (bit_and b 0x80 == 0) then more else ok (n', rest)

unfoldable pub read_var_int : Reader ℕ
read_var_int = read_var_int_loop 0

-- The first loop of `WriteVarInt`: what it stores in `buf` from the index `len` on. `room` is what
-- is left of the ten bytes of `buf`, and a store behind them is a panic.
unfoldable pub fill_groups : ℕ → ℕ → ℕ → Result Bytes
fill_groups zero len n = err index_range
fill_groups (suc room) len n =
    let group = bit_and (n % 256) 0x7f in
    let byte = if len == 0 then group else bit_or group 0x80 in
    let rest = fill_groups room (len + 1) (n / 2 ^ 7 - 1) in
    if leb n 0x7f then ok (byte ∷ []) else elim rest [ ok bs ↦ ok (byte ∷ bs) | err e ↦ err e ]

-- The second loop writes `buf[len]` down to `buf[0]`.
unfoldable pub write_var_int : ℕ → Result Bytes
write_var_int n = elim (fill_groups 10 0 n) [ ok buf ↦ ok (reverse buf) | err e ↦ err e ]
