-- ===== src/Tests/FileBundle.antt =====
-- filebundle.go at concrete inputs.
use blkchain.Prelude.{
  ℕ, zero, suc, ◌≡◌, refl, true, false, none, some, [], ◌∷◌, length, take, leb, if◌then◌else◌,
  arith,
}
use blkchain.FileBundle.{
  File, no_such_file, opened, refused, Opened, FileBundle, file_read, eof, next, new_file_bundle,
  after_open, read_loop,
}
use blkchain.FileBundle.Joined.{join, Files, read_loop-new_file_bundle}

program : Unit {0}
unfolding file_read next new_file_bundle after_open read_loop
program = tt

-- Two files.
abbrev disk : ℕ → Opened
disk zero = opened (record { bytes = 1 ∷ 2 ∷ []; broken = false })
disk (suc zero) = opened (record { bytes = 3 ∷ []; broken = false })
disk (suc (suc n)) = refused no_such_file

abbrev bad_disk : ℕ → Opened
bad_disk i = opened (record { bytes = 1 ∷ 2 ∷ []; broken = true })

across :
    read_loop disk 5 3 (new_file_bundle disk 0).0 []
    ≡ some (
      record { idx = 1; f = some (record { bytes = []; broken = false }) },
      (1 ∷ 2 ∷ 3 ∷ [], none),
    )
unfolding program
across = refl

at_end :
    read_loop disk 7 4 (new_file_bundle disk 0).0 []
    ≡ some (record { idx = 2; f = none }, (1 ∷ 2 ∷ 3 ∷ [], some eof))
unfolding program
at_end = refl

-- The error of a read that fails is lost.
lost :
    read_loop bad_disk 7 4 (new_file_bundle bad_disk 0).0 []
    ≡ some (record { idx = 0; f = some (record { bytes = []; broken = true }) }, (1 ∷ 2 ∷ [], none))
unfolding program
lost = refl

abbrev first : File
first = record { bytes = 1 ∷ 2 ∷ []; broken = false }

abbrev second : File
second = record { bytes = 3 ∷ []; broken = false }

disk-Files : Files disk 0 (first ∷ second ∷ [])
disk-Files = (refl, refl, (refl, refl, refl))

read_loop-new_file_bundle_example :
    (b : FileBundle) × (read_loop disk 6 4 (new_file_bundle disk 0).0 []
      ≡ some (
        b,
        (
          take 4 (join (first ∷ second ∷ [])),
          if leb 4 (length (join (first ∷ second ∷ []))) then none else some eof,
        ),
      ))
read_loop-new_file_bundle_example =
    read_loop-new_file_bundle disk 6 4 0 first (second ∷ []) disk-Files (omega arith)
