-- ===== src/FileBundle/Joined.antt =====
-- Reading from the bundle is reading from the files joined.
use blkchain.Prelude.{
  ℕ, zero, suc, ◌+◌, ◌-◌, ◌<◌, ◌≡◌, refl, ap, ◌∙◌, Bool, true, false, Option, none, some, List, [],
  ◌∷◌, ◌++◌, length, take, drop, append_assoc, append-nil, leb, if◌then◌else◌, arith,
}
use blkchain.Io.{Bytes}
use blkchain.FileBundle.{
  File, no_such_file, opened, refused, Opened, OpenError, FileBundle, file_read, ReadError, eof,
  next, after_open, new_file_bundle, read_loop,
}

pub join : List File → Bytes
join [] = []
join (f ∷ fs) = f.bytes ++ join fs

take-split :
    (w : ℕ) (xs ys : Bytes)
    → take w xs ++ take (w - length (take w xs)) (drop w xs ++ ys) ≡ take w (xs ++ ys)
take-split zero xs ys = refl
take-split (suc w) [] ys = let e : suc w - 0 ≡ suc w = omega arith in rw e refl
take-split (suc w) (x ∷ xs) ys =
    let e : suc w - suc (length (take w xs)) ≡ w - length (take w xs) = omega arith in
    rw e (ap (λ (t : Bytes). x ∷ t) (take-split w xs ys))

length-split :
    (w : ℕ) (xs ys : Bytes)
    → leb (w - length (take w xs)) (length (drop w xs ++ ys)) ≡ leb w (length (xs ++ ys))
length-split zero xs ys = ground arith
length-split (suc w) [] ys = ground arith
length-split (suc w) (x ∷ xs) ys = ground (arith, length-split w xs ys)

-- What is read of the rest of a file and then of what follows it.
joined :
    (b : FileBundle) (got : Bytes) (w : ℕ) (xs ys : Bytes)
    → ◌≡◌ {A = Option (FileBundle × (Bytes × Option ReadError))}
        (some (
          b,
          (
            got ++ take w xs ++ take (w - length (take w xs)) (drop w xs ++ ys),
            if leb (w - length (take w xs)) (length (drop w xs ++ ys)) then none else some eof,
          ),
        ))
        (some (b, (got ++ take w (xs ++ ys), if leb w (length (xs ++ ys)) then none else some eof)))
joined b got w xs ys =
    rw
      (
        append_assoc got (take w xs) (take (w - length (take w xs)) (drop w xs ++ ys)),
        take-split w xs ys,
        length-split w xs ys,
      )
      refl

whole : (f : File) → f.broken ≡ false → f ≡ record { bytes = f.bytes; broken = false }
whole f e = ap (λ (b : Bool). record { bytes = f.bytes; broken = b }) e

module _ (open_file : ℕ → Opened) where
  -- The files from a number on, all whole, and none behind them.
  abbrev pub Files : ℕ → List File → Type 0
  Files i [] = open_file i ≡ refused no_such_file
  Files i (f ∷ fs) = (open_file i ≡ opened f) × (f.broken ≡ false) × Files (i + 1) fs

  abbrev pub file : Bytes → File
  file bs = record { bytes = bs; broken = false }

  next-end :
      (idx : ℕ) (f : File)
      → open_file (idx + 1) ≡ refused no_such_file
      → next open_file (record { idx = idx; f = some f })
        ≡ (record { idx = idx + 1; f = none }, some no_such_file)
  unfolding next
  next-end idx f h = rw (h, next) refl

  next-file :
      (idx : ℕ) (f g : File)
      → open_file (idx + 1) ≡ opened g
      → next open_file (record { idx = idx; f = some f })
        ≡ (record { idx = idx + 1; f = some g }, none)
  unfolding next
  next-file idx f g h = rw (h, next) refl

  -- The bundle at the end of a file.
  abbrev ended : ℕ → FileBundle
  ended idx = record { idx = idx; f = some (file []) }

  stop :
      (fuel want idx : ℕ) (b : FileBundle) (got : Bytes)
      → next open_file (ended idx) ≡ (b, some no_such_file)
      → read_loop open_file (suc fuel) (suc want) (ended idx) got ≡ some (b, (got, some eof))
  unfolding read_loop file_read after_open
  stop fuel want idx b got e =
      let moved : (next open_file (ended idx)).0 ≡ b =
        ap (λ (p : FileBundle × Option OpenError). p.0) e in
      let refusal : (next open_file (ended idx)).1 ≡ some no_such_file =
        ap (λ (p : FileBundle × Option OpenError). p.1) e in
      ground (arith, moved, refusal, append-nil got)

  go_on :
      (fuel want idx : ℕ) (b : FileBundle) (got : Bytes)
      → next open_file (ended idx) ≡ (b, none)
      → read_loop open_file (suc fuel) (suc want) (ended idx) got
        ≡ read_loop open_file fuel (suc want) b got
  unfolding read_loop file_read
  go_on fuel want idx b got e =
      let moved : (next open_file (ended idx)).0 ≡ b =
        ap (λ (p : FileBundle × Option OpenError). p.0) e in
      let no_refusal : (next open_file (ended idx)).1 ≡ none =
        ap (λ (p : FileBundle × Option OpenError). p.1) e in
      let all_wanted : suc want - 0 ≡ suc want = omega arith in
      ground (arith, moved, no_refusal, all_wanted, append-nil got)

  pub read_loop-join :
      (fuel want idx : ℕ) (left got : Bytes) (fs : List File)
      → Files (idx + 1) fs
      → want + length fs < fuel
      → (b : FileBundle) × (read_loop open_file fuel want
            (record { idx = idx; f = some (file left) })
            got
          ≡ some (
            b,
            (
              got ++ take want (left ++ join fs),
              if leb want (length (left ++ join fs)) then none else some eof,
            ),
          ))
  unfolding read_loop file_read join
  read_loop-join zero want idx left got fs files hf = absurd (omega arith)
  read_loop-join (suc fuel) zero idx left got fs files hf =
      let enough : leb 0 (length (left ++ join fs)) ≡ true = ground arith in
      (record { idx = idx; f = some (file left) }, rw (append-nil got, enough) refl)
  read_loop-join (suc fuel) (suc want) idx [] got [] files hf =
      let more : leb (suc want) 0 ≡ false = ground arith in
      (
        record { idx = idx + 1; f = none },
        stop fuel want idx _ got (next-end idx (file []) files) ∙ rw (append-nil got, more) refl,
      )
  read_loop-join (suc fuel) (suc want) idx [] got (f ∷ fs) files hf =
      let at_file : open_file (idx + 1) ≡ opened (file f.bytes) =
        files.0 ∙ ap opened (whole f files.1) in
      let (b, e) = read_loop-join fuel (suc want) (idx + 1) f.bytes got fs files.2 (omega arith) in
      (b, go_on fuel want idx _ got (next-file idx (file []) (file f.bytes) at_file) ∙ e)
  read_loop-join (suc fuel) (suc want) idx (c ∷ left) got fs files hf =
      let bs = c ∷ take want left in
      let (b, e) =
        read_loop-join fuel (suc want - length bs) idx (drop want left) (got ++ bs) fs files
          (omega arith) in
      (b, e ∙ joined b got (suc want) (c ∷ left) (join fs))

  -- A new bundle whose files are there from its start on, can all be read and have no file behind
  -- the last reads from them as from one joined file: it gives the bytes that are wanted, or all
  -- and the end of the input when there are fewer; as many rounds as bytes wanted and files are
  -- enough.
  pub read_loop-new_file_bundle :
      (fuel want start : ℕ) (f : File) (fs : List File)
      → Files start (f ∷ fs)
      → want + length fs < fuel
      → (b : FileBundle) × (read_loop open_file fuel want (new_file_bundle open_file start).0 []
          ≡ some (
            b,
            (
              take want (join (f ∷ fs)),
              if leb want (length (join (f ∷ fs))) then none else some eof,
            ),
          ))
  unfolding new_file_bundle next join
  read_loop-new_file_bundle fuel want start f fs files hf =
      let at_file : open_file start ≡ opened (file f.bytes) =
        files.0 ∙ ap opened (whole f files.1) in
      let (b, e) = read_loop-join fuel want start f.bytes [] fs files.2 hf in
      (b, rw (at_file, next) e)
