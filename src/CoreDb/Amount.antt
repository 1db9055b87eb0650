-- ===== src/CoreDb/Amount.antt =====
-- coredb/utxo.go: compressed amounts, against the compression of Bitcoin Core that it undoes.
use blkchain.Prelude.{
  ℕ, zero, suc, ◌+◌, ◌-◌, ◌*◌, ◌/◌, ◌%◌, ◌^◌, ◌≤◌, ◌<◌, ◌≡◌, ◌≢◌, refl, ◌∙◌, lt→ltb, ap, ltb, ◌==◌,
  false, if◌then◌else◌, Bool-cases, inl, inr, arith,
}
use blkchain.Io.{IsU64}
use native.Mathlib.Numerals.{towards_suc}

-- `for e != 0 { n *= 10; e-- }`
unfoldable pub times_ten : ℕ → ℕ → ℕ
times_ten zero n = n
times_ten (suc e) n = times_ten e (n * 10 % 2 ^ 64)

-- The body behind `x--`.
unfoldable pub expand : ℕ → ℕ
expand x =
    let e = x % 10 in
    let x' = x / 10 in
    let n = if ltb e 9 then (x' / 9 * 10 + (x' % 9 + 1)) % 2 ^ 64 else (x' + 1) % 2 ^ 64 in
    times_ten e n

unfoldable pub decompress_amount : ℕ → ℕ
decompress_amount x = if x == 0 then 0 else expand (x - 1)

-- `CompressAmount` of Bitcoin Core: decimal zeros are counted, nine at most, and cut off; `k` is how
-- many more may be counted, and `e` how many were.
pub compress_from : ℕ → ℕ → ℕ → ℕ
compress_from zero e n = 1 + ((n - 1) * 10 + 9)
compress_from (suc k) e n =
    let shorter = compress_from k (e + 1) (n / 10) in
    if n % 10 == 0 then shorter else 1 + ((n / 10 * 9 + (n % 10 - 1)) * 10 + e)

pub compress_amount : ℕ → ℕ
compress_amount n = if n == 0 then 0 else compress_from 9 0 n

-- 21 million coins, in satoshis.
abbrev pub max_money : ℕ
max_money = 2_100_000_000_000_000

expand_by :
    (x e n : ℕ)
    → x % 10 ≡ e
    → (if ltb e 9 then (x / 10 / 9 * 10 + (x / 10 % 9 + 1)) % 2 ^ 64 else (x / 10 + 1) % 2 ^ 64) ≡ n
    → expand x ≡ times_ten e n
unfolding expand
expand_by x e n he hn = rw he (rw hn refl)

expand_nine : (n : ℕ) → 0 < n → IsU64 n → expand ((n - 1) * 10 + 9) ≡ times_ten 9 n
expand_nine n h fits = expand_by ((n - 1) * 10 + 9) 9 n (omega arith) (omega arith)

expand_less :
    (e n : ℕ)
    → e < 9
    → n % 10 ≢ 0
    → IsU64 n
    → expand ((n / 10 * 9 + (n % 10 - 1)) * 10 + e) ≡ times_ten e n
expand_less e n he h fits =
    let x = (n / 10 * 9 + (n % 10 - 1)) * 10 + e in
    let y : x / 10 ≡ n / 10 * 9 + (n % 10 - 1) = omega arith in
    let q : x / 10 / 9 ≡ n / 10 = omega arith in
    let r : x / 10 % 9 ≡ n % 10 - 1 = omega arith in
    expand_by x e n (omega arith) (rw (lt→ltb e 9 he) (omega arith))

-- Cutting a zero off and putting it back.
cut_zero : (e n : ℕ) → n % 10 ≡ 0 → IsU64 n → times_ten (e + 1) (n / 10) ≡ times_ten e n
unfolding times_ten
cut_zero e n h fits = simp towards_suc (ap (times_ten e) (omega arith))

expand-compress_from :
    (k e n : ℕ)
    → e + k ≡ 9
    → 0 < n
    → IsU64 n
    → (x : ℕ) × (compress_from k e n ≡ 1 + x) × (expand x ≡ times_ten e n) × (x ≤ 10 * n + 100)
unfolding compress_from
expand-compress_from zero e n he h fits =
    let nine : 9 ≡ e = omega arith in
    ((n - 1) * 10 + 9, refl, expand_nine n h fits ∙ ap (λ (d : ℕ). times_ten d n) nine, omega arith)
expand-compress_from (suc k) e n he h fits = elim (Bool-cases (n % 10 == 0)) [
  | inl zero_digit ↦
      let (x, shorter, value, bound) =
        expand-compress_from k (e + 1) (n / 10) (omega arith) (ground arith) (omega arith) in
      (x, rw zero_digit shorter, value ∙ cut_zero e n (ground arith) fits, omega arith)
  | inr other ↦ (
    (n / 10 * 9 + (n % 10 - 1)) * 10 + e,
    rw other refl,
    expand_less e n (omega arith) (ground arith) fits,
    omega arith,
  )
]

decompress_more : (x : ℕ) → decompress_amount (1 + x) ≡ expand x
unfolding decompress_amount
decompress_more x =
    let some : (1 + x == 0) ≡ false = ground arith in
    let back : 1 + x - 1 ≡ x = omega arith in rw (some, back) refl

compress_more : (n : ℕ) → 0 < n → compress_amount n ≡ compress_from 9 0 n
unfolding compress_amount
compress_more n h = let some : (n == 0) ≡ false = ground arith in rw some refl

no_zeros : (n : ℕ) → times_ten 0 n ≡ n
unfolding times_ten
no_zeros n = refl

Compressed : ℕ → ℕ → Type 0
Compressed n x = (compress_amount n ≡ 1 + x) × (expand x ≡ n) × (x ≤ 10 * n + 100)

Compressed-some : (n : ℕ) → 0 < n → IsU64 n → (x : ℕ) × Compressed n x
unfolding Compressed
Compressed-some n h fits =
    let (x, form, value, bound) = expand-compress_from 9 0 n (omega arith) h fits in
    (x, (compress_more n h ∙ form, value ∙ no_zeros n, bound))

restored :
    (n x : ℕ)
    → n ≤ max_money
    → Compressed n x
    → IsU64 (compress_amount n) × (decompress_amount (compress_amount n) ≡ n)
unfolding Compressed
restored n x h (form, value, bound) = (omega arith, rw form (decompress_more x ∙ value))

-- An amount of at most 21 million coins is compressed to 64 bits by the method of Bitcoin Core,
-- and decompressed to itself.
pub decompress_amount-compress_amount :
    (n : ℕ)
    → n ≤ max_money
    → IsU64 (compress_amount n) × (decompress_amount (compress_amount n) ≡ n)
decompress_amount-compress_amount zero h =
    unfold decompress_amount compress_amount in (omega arith, refl)
decompress_amount-compress_amount (suc n) h =
    let (x, c) = Compressed-some (suc n) (omega arith) (omega arith) in restored (suc n) x h c
