-- ===== src/FileBundle.antt =====
-- filebundle.go and corestore.go: the block files of Bitcoin Core, read one after the other.
pub mod Joined
use blkchain.Prelude.{
  ℕ, zero, suc, ◌+◌, ◌-◌, Bool, Option, none, some, List, [], ◌∷◌, ◌++◌, length, take, drop, ◌==◌,
  if◌then◌else◌,
}
use blkchain.Io.{Bytes}

-- What is left of a file, and whether reading past it fails with another error than `io.EOF`.
pub record File : Type 0 where
  pub bytes : Bytes
  pub broken : Bool

pub data OpenError : Type 0 where
  no_such_file other_open_error : OpenError

pub data Opened : Type 0 where
  opened : File → Opened
  refused : OpenError → Opened

-- `f` is none for a nil file.
pub record FileBundle : Type 0 where
  pub idx : ℕ
  pub f : Option File

-- How a call of `os.File.Read` ends.
pub data ReadEnd : Type 0 where
  fine at_eof failed : ReadEnd

-- `os.File.Read` into a buffer of a positive length: the bytes, and the file behind them.
unfoldable pub file_read : ℕ → Option File → Bytes × (Option File × ReadEnd)
file_read k none = ([], (none, failed))
file_read k (some f) = elim f.bytes [
  | [] ↦ ([], (some f, if f.broken then failed else at_eof))
  | b ∷ bs ↦ (take k (b ∷ bs), (some (record f { bytes = drop k (b ∷ bs) }), fine))
]

pub data ReadError : Type 0 where
  eof : ReadError
  open_failed : OpenError → ReadError

-- `open_file` is `os.Open` at the path of the file with a number.
module _ (open_file : ℕ → Opened) where
  unfoldable pub next : FileBundle → FileBundle × Option OpenError
  next b =
      let idx : ℕ = elim b.f [ none ↦ b.idx | some f ↦ b.idx + 1 ] in
      elim (open_file idx) [
        | opened f ↦ (record { idx = idx; f = some f }, none)
        | refused e ↦ (record { idx = idx; f = none }, some e)
      ]

  unfoldable pub new_file_bundle : ℕ → FileBundle × Option OpenError
  new_file_bundle start = next (record { idx = start; f = none })

  unfoldable pub after_open : OpenError → ReadError
  after_open no_such_file = eof
  after_open other_open_error = open_failed other_open_error

  -- The loop of `Read`, for `fuel` rounds at most: the bytes that are still wanted, and those read. The
  -- error of a read that fails is the inner `err`, and what is returned is the outer one, nil.
  unfoldable pub read_loop :
      ℕ → ℕ → FileBundle → Bytes → Option (FileBundle × (Bytes × Option ReadError))
  read_loop zero want b got = none
  read_loop (suc fuel) zero b got = some (b, (got, none))
  read_loop (suc fuel) (suc want) b got =
      let (bs, (f, end)) = file_read (suc want) b.f in
      let b' = record b { f = f } in
      let (b'', e) = next b' in
      elim end [
        | fine ↦ read_loop fuel (suc want - length bs) b' (got ++ bs)
        | failed ↦ some (b', (got ++ bs, none))
        | at_eof ↦ elim e [
          | none ↦ read_loop fuel (suc want - length bs) b'' (got ++ bs)
          | some o ↦ some (b'', (got ++ bs, some (after_open o)))
        ]
      ]
