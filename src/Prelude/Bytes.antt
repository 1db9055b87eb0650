-- ===== src/Prelude/Bytes.antt =====
-- Equality of byte strings as a test.
use Prim.Native.Nat.{ℕ}
use mathlib.Core.Path.{◌≡◌, refl}
use mathlib.Core.Bool.{Bool, true, false, ◌&&◌}
use mathlib.Core.List.{List, [], ◌∷◌}
use native.Mathlib.Omega.{arith}
use blkchain.Prelude.Tests.{◌==◌}

unfoldable pub bytes_eq : List ℕ → List ℕ → Bool
bytes_eq [] [] = true
bytes_eq [] (d ∷ ds) = false
bytes_eq (c ∷ cs) [] = false
bytes_eq (c ∷ cs) (d ∷ ds) = (c == d) && bytes_eq cs ds

pub bytes_eq_sound : (cs ds : List ℕ) → bytes_eq cs ds ≡ true → cs ≡ ds
unfolding bytes_eq
bytes_eq_sound [] [] h = refl
bytes_eq_sound [] (d ∷ ds) h = cc
bytes_eq_sound (c ∷ cs) [] h = cc
bytes_eq_sound (c ∷ cs) (d ∷ ds) h = ground (arith, bytes_eq_sound cs ds)

pub bytes_eq_refl : (cs : List ℕ) → bytes_eq cs cs ≡ true
unfolding bytes_eq
bytes_eq_refl [] = refl
bytes_eq_refl (c ∷ cs) = ground (arith, bytes_eq_refl cs)
