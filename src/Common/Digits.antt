-- ===== src/Common/Digits.antt =====
-- The binary digits of numbers: `|` with one digit, and what a number's digits say.
use swe_capstone.Common.{
  ℕ, zero, suc, ◌+◌, ◌-◌, ◌*◌, ◌/◌, ◌%◌, ◌^◌, ◌≤◌, ◌<◌, ◌≡◌, ◌≢◌, refl, sym, ap, ◌∙◌, bit_or, arith,
}
use swe_capstone.Common.Bits.{bit_or_halves, zero_right}
use swe_capstone.Common.Powers.{pow-add, two_pow-pos}
use native.Mathlib.Nat.{pow-suc, add-mul-div_right, div-eq_of_lt}

-- The binary digit of `a` with the weight `2 ^ i`.
abbrev pub digit : ℕ → ℕ → ℕ
digit zero a = a % 2
digit (suc i) a = digit i (a / 2)

or_zero : (a : ℕ) → bit_or a 0 ≡ a
or_zero a = (zero_right (suc a) a (omega arith)).1

-- The lowest digit, and the others.
or_one : (a : ℕ) → bit_or a 1 ≡ 1 + 2 * (a / 2)
or_one a = ground (arith, bit_or_halves 1 a, or_zero (a / 2))

or_even : (j a : ℕ) → bit_or a (2 ^ suc j) ≡ a % 2 + 2 * bit_or (a / 2) (2 ^ j)
or_even j a =
    let half : 2 ^ suc j / 2 ≡ 2 ^ j = omega (arith, pow-suc 2 j) in
    ground (arith, bit_or_halves (2 ^ suc j) a, pow-suc 2 j, ap (λ (t : ℕ). bit_or (a / 2) t) half)

or_one-half : (a : ℕ) → bit_or a 1 / 2 ≡ a / 2
or_one-half a = omega (arith, or_one a)

or_even-half : (j a : ℕ) → bit_or a (2 ^ suc j) / 2 ≡ bit_or (a / 2) (2 ^ j)
or_even-half j a = omega (arith, or_even j a)

pub digit-set : (j a : ℕ) → digit j (bit_or a (2 ^ j)) ≡ 1
digit-set zero a = omega (arith, or_one a)
digit-set (suc j) a = ap (digit j) (or_even-half j a) ∙ digit-set j (a / 2)

pub digit-set_other : (i j a : ℕ) → i ≢ j → digit i (bit_or a (2 ^ j)) ≡ digit i a
digit-set_other zero zero a other = absurd (other refl)
digit-set_other zero (suc j) a other = omega (arith, or_even j a)
digit-set_other (suc i) zero a other = ap (digit i) (or_one-half a)
digit-set_other (suc i) (suc j) a other =
    ap (digit i) (or_even-half j a) ∙ digit-set_other i j (a / 2) (λ e. other (ap suc e))

-- A digit inside a word keeps the word.
pub or-fits : (w j a : ℕ) → j < w → a < 2 ^ w → bit_or a (2 ^ j) < 2 ^ w
or-fits zero j a lt small = absurd (omega arith)
or-fits (suc w) zero a lt small = omega (arith, or_one a, pow-suc 2 w)
or-fits (suc w) (suc j) a lt small = omega (
  arith,
  or_even j a,
  pow-suc 2 w,
  or-fits w j (a / 2) (omega arith) (omega (arith, pow-suc 2 w)),
)

-- The digits of a word determine it.
pub same_digits :
    (w a b : ℕ) → a < 2 ^ w → b < 2 ^ w → ((i : ℕ) → i < w → digit i a ≡ digit i b) → a ≡ b
same_digits zero a b ha hb h = omega arith
same_digits (suc w) a b ha hb h = omega (
  arith,
  h 0 (omega arith),
  same_digits w (a / 2) (b / 2) (omega (arith, pow-suc 2 w)) (omega (arith, pow-suc 2 w))
      (λ i lt. h (suc i) (omega arith)),
)

pub two_pow-le : (n m : ℕ) → n ≤ m → 2 ^ n ≤ 2 ^ m
two_pow-le zero m le = two_pow-pos m
two_pow-le (suc n) zero le = absurd (omega arith)
two_pow-le (suc n) (suc m) le =
    omega (arith, pow-suc 2 n, pow-suc 2 m, two_pow-le n m (omega arith))

-- `2 ^ n - 1` has the digits below `n`.
ones-half : (n : ℕ) → (2 ^ suc n - 1) / 2 ≡ 2 ^ n - 1
ones-half n = omega (arith, pow-suc 2 n, two_pow-pos n)

pub digit-ones : (n i : ℕ) → i < n → digit i (2 ^ n - 1) ≡ 1
digit-ones zero i lt = absurd (omega arith)
digit-ones (suc n) zero lt = omega (arith, pow-suc 2 n, two_pow-pos n)
digit-ones (suc n) (suc i) lt = ap (digit i) (ones-half n) ∙ digit-ones n i (omega arith)

pub digit-zero : (i : ℕ) → digit i 0 ≡ 0
digit-zero zero = refl
digit-zero (suc i) = digit-zero i

pub digit-ones_above : (n i : ℕ) → n ≤ i → digit i (2 ^ n - 1) ≡ 0
digit-ones_above zero i le = digit-zero i
digit-ones_above (suc n) zero le = absurd (omega arith)
digit-ones_above (suc n) (suc i) le =
    ap (digit i) (ones-half n) ∙ digit-ones_above n i (omega arith)

-- A word of ones shifted down.
split_ones : (x y : ℕ) → 0 < y → (suc x * y - 1) / y ≡ x
split_ones x y positive =
    let apart : suc x * y - 1 ≡ y - 1 + x * y = omega arith in
    ap (λ (t : ℕ). t / y) apart ∙ (add-mul-div_right (y - 1) x positive ∙ omega (arith, nothing))
  where
    nothing : (y - 1) / y ≡ 0
    nothing = div-eq_of_lt (omega arith)

pub shift_ones : (a b : ℕ) → (2 ^ (a + b) - 1) / 2 ^ b ≡ 2 ^ a - 1
shift_ones a b =
    let whole : suc (2 ^ a - 1) ≡ 2 ^ a = omega (arith, two_pow-pos a) in
    ap (λ (t : ℕ). (t - 1) / 2 ^ b) (pow-add a b ∙ ap (λ (t : ℕ). t * 2 ^ b) (sym whole))
    ∙ split_ones (2 ^ a - 1) (2 ^ b) (two_pow-pos b)
