-- ===== src/CoreDb/Script/Forms.antt =====
-- The scripts that come out of the short forms.
use blkchain.Prelude.{
  ℕ, zero, suc, ◌+◌, ◌-◌, ◌<◌, ◌≡◌, ◌⊎◌, inl, inr, ◌%◌, refl, ap, ◌∙◌, sym, Option, some, none, [],
  ◌∷◌, ◌++◌, Option-cases, length, tabulate, tabulate-get_or, get_or, arith,
}
use blkchain.Io.{Bytes}
use native.Mathlib.Nat.{mod-eq_of_lt}
use blkchain.Uint256.{copy}
use blkchain.CoreDb.Script.{
  get_special_size, copy_at, pay_to_key_hash, pay_to_script_hash, pay_to_key, pay_to_full_key,
  decompress_script,
}

-- The scripts of the standard payments, as Bitcoin defines them.
pub p2pkh : Bytes → Bytes
p2pkh key_hash = 0x76 ∷ 0xa9 ∷ 20 ∷ (key_hash ++ 0x88 ∷ 0xac ∷ [])

pub p2sh : Bytes → Bytes
p2sh script_hash = 0xa9 ∷ 20 ∷ (script_hash ++ 0x87 ∷ [])

-- A push of the key, and OP_CHECKSIG.
pub p2pk : Bytes → Bytes
p2pk key = length key ∷ (key ++ 0xac ∷ [])

key_hash_form : (f : ℕ → ℕ) → pay_to_key_hash (tabulate 20 f) ≡ p2pkh (tabulate 20 f)
unfolding pay_to_key_hash copy_at copy tabulate p2pkh
key_hash_form f = refl

script_hash_form : (f : ℕ → ℕ) → pay_to_script_hash (tabulate 20 f) ≡ p2sh (tabulate 20 f)
unfolding pay_to_script_hash copy_at copy tabulate p2sh
script_hash_form f = refl

key_form : (n : ℕ) (f : ℕ → ℕ) → n < 256 → pay_to_key n (tabulate 32 f) ≡ p2pk (n ∷ tabulate 32 f)
unfolding pay_to_key copy_at copy tabulate p2pk
key_form n f h = rw (mod-eq_of_lt h) refl

full_key_form :
    (parse : Bytes → Option Bytes) (n : ℕ) (f g : ℕ → ℕ)
    → n < 2
    → parse ((n + 2) ∷ tabulate 32 f) ≡ some (tabulate 65 g)
    → pay_to_full_key parse (n + 4) (tabulate 32 f) ≡ p2pk (tabulate 65 g)
unfolding pay_to_full_key copy_at copy tabulate p2pk
full_key_form parse n f g h e =
    let head : ((n + 4) % 256 + 256 - 2) % 256 ≡ n + 2 = omega arith in
    rw (head, pay_to_full_key) (rw (e, pay_to_full_key) refl)

no_key_form :
    (parse : Bytes → Option Bytes) (n : ℕ) (f : ℕ → ℕ)
    → n < 2
    → parse ((n + 2) ∷ tabulate 32 f) ≡ none
    → pay_to_full_key parse (n + 4) (tabulate 32 f) ≡ []
unfolding pay_to_full_key copy_at copy tabulate
no_key_form parse n f h e =
    let head : ((n + 4) % 256 + 256 - 2) % 256 ≡ n + 2 = omega arith in
    rw (head, pay_to_full_key) (rw (e, pay_to_full_key) refl)

of_wide_20 :
    (g k : Bytes → Bytes) (input : Bytes)
    → length input ≡ 20
    → ((f : ℕ → ℕ) → g (tabulate 20 f) ≡ k (tabulate 20 f))
    → g input ≡ k input
of_wide_20 g k input h e =
    let same : tabulate 20 (λ i. get_or input i 0) ≡ input = tabulate-get_or 20 input 0 h in
    rw same at (e (λ i. get_or input i 0))

of_wide_32 :
    (g k : Bytes → Bytes) (input : Bytes)
    → length input ≡ 32
    → ((f : ℕ → ℕ) → g (tabulate 32 f) ≡ k (tabulate 32 f))
    → g input ≡ k input
of_wide_32 g k input h e =
    let same : tabulate 32 (λ i. get_or input i 0) ≡ input = tabulate-get_or 32 input 0 h in
    rw same at (e (λ i. get_or input i 0))

-- What the short form with the number `size` stands for: a payment to the hash of a key or a script,
-- to a key of which the number is the first byte, or to the full key that such a key stands for.
pub standard : (Bytes → Option Bytes) → ℕ → Bytes → Bytes
standard parse zero input = p2pkh input
standard parse (suc zero) input = p2sh input
standard parse (suc (suc zero)) input = p2pk (2 ∷ input)
standard parse (suc (suc (suc zero))) input = p2pk (3 ∷ input)
standard parse (suc (suc (suc (suc n)))) input = elim (parse ((n + 2) ∷ input)) [
  | none ↦ []
  | some full ↦ p2pk full
]

module _ (parse : Bytes → Option Bytes)
    (wide : (key full : Bytes) → parse key ≡ some full → length full ≡ 65) where
  full_key_standard :
      (n : ℕ) (input : Bytes)
      → n < 2
      → length input ≡ 32
      → pay_to_full_key parse (n + 4) input
        ≡ elim (parse ((n + 2) ∷ input)) [ none ↦ [] | some full ↦ p2pk full ]
  full_key_standard n input hn h =
      of_wide_32 (pay_to_full_key parse (n + 4))
        (λ i. elim (parse ((n + 2) ∷ i)) [ none ↦ [] | some full ↦ p2pk full ]) input h
        (λ f. by_key f (Option-cases (parse ((n + 2) ∷ tabulate 32 f))))
    where
      by_key :
          (f : ℕ → ℕ)
          → (parse ((n + 2) ∷ tabulate 32 f) ≡ none)
            ⊎ ((full : Bytes) × (parse ((n + 2) ∷ tabulate 32 f) ≡ some full))
          → pay_to_full_key parse (n + 4) (tabulate 32 f)
            ≡ elim (parse ((n + 2) ∷ tabulate 32 f)) [ none ↦ [] | some full ↦ p2pk full ]
      by_key f (inl e) = no_key_form parse n f hn e ∙ rw e refl
      by_key f (inr (full, e)) =
          let same : tabulate 65 (λ i. get_or full i 0) ≡ full =
            tabulate-get_or 65 full 0 (wide _ full e) in
          full_key_form parse n f (λ i. get_or full i 0) hn (e ∙ ap some (sym same))
          ∙ ap p2pk same
          ∙ rw e refl

  -- Each of the six short forms, of its right length, is expanded to the script of the payment
  -- that it stands for, and to none where the key parser refuses the key, when the parser answers
  -- with 65 bytes.
  pub decompress_script-standard :
      (size : ℕ) (input : Bytes)
      → size < 6
      → length input ≡ get_special_size size
      → decompress_script parse size input ≡ standard parse size input
  unfolding decompress_script get_special_size standard
  decompress_script-standard zero input hs h =
      of_wide_20 pay_to_key_hash p2pkh input h key_hash_form
  decompress_script-standard (suc zero) input hs h =
      of_wide_20 pay_to_script_hash p2sh input h script_hash_form
  decompress_script-standard (suc (suc zero)) input hs h =
      of_wide_32 (pay_to_key 2) (λ i. p2pk (2 ∷ i)) input h (λ f. key_form 2 f (omega arith))
  decompress_script-standard (suc (suc (suc zero))) input hs h =
      of_wide_32 (pay_to_key 3) (λ i. p2pk (3 ∷ i)) input h (λ f. key_form 3 f (omega arith))
  decompress_script-standard (suc (suc (suc (suc zero)))) input hs h =
      full_key_standard 0 input (omega arith) h
  decompress_script-standard (suc (suc (suc (suc (suc zero))))) input hs h =
      full_key_standard 1 input (omega arith) h
  decompress_script-standard (suc (suc (suc (suc (suc (suc n)))))) input hs h = absurd (omega arith)
