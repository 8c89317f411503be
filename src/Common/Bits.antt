-- ===== src/Common/Bits.antt =====
-- `|` of disjoint fields and `&` with a mask of ones, as arithmetic.
use Prim.Native.Nat.{
  ℕ, zero, suc, ◌+◌, ◌-◌, ◌*◌, ◌/◌, ◌%◌, ◌^◌, ◌≤◌, ◌<◌, min, max, bit_and, bit_or,
}
use native.Mathlib.Nat.{zero-add, suc-add}
use Prim.Native.Nat.{digits, bit_and-bitwise, bit_or-bitwise}
use mathlib.Core.Path.{◌≡◌, refl, sym, ap, ◌∙◌}
use native.Mathlib.Nat.{pow-suc}
use native.Mathlib.Omega.{arith}

-- The recursion of the native operations runs on a count of digits, and one digit more than the
-- first number has changes nothing.
module _ (base : ℕ → ℕ) (digit : ℕ → ℕ → ℕ) where
  one_spare : (b n a : ℕ) → a ≤ n → digits base digit n a b ≡ digits base digit (suc n) a b
  one_spare b zero zero few = refl
  one_spare b zero (suc a) few = elim few [ ]
  one_spare b (suc n) zero few = refl
  one_spare b (suc n) (suc a) few =
      ap (λ (t : ℕ). t * 2 + digit (suc a % 2) (b % 2))
        (one_spare (b / 2) n (suc a / 2) (omega arith))

  many_spare : (k b n a : ℕ) → a ≤ n → digits base digit n a b ≡ digits base digit (k + n) a b
  many_spare zero b n a few = rw zero-add
  many_spare (suc k) b n a few =
      rw suc-add (many_spare k b n a few ∙ one_spare b (k + n) a (omega arith))

  -- So the lowest digit splits off.
  split_digit :
      (op : ℕ → ℕ → ℕ)
      → ((a b : ℕ) → op a b ≡ digits base digit a a b)
      → (b a : ℕ) → op (suc a) b ≡ op (suc a / 2) (b / 2) * 2 + digit (suc a % 2) (b % 2)
  split_digit op meaning b a =
      meaning (suc a) b
      ∙ ap (λ (t : ℕ). t * 2 + digit (suc a % 2) (b % 2)) (sym (meaning half (b / 2) ∙ spare))
    where
      half : ℕ
      half = suc a / 2

      enough : a - half + half ≡ a
      enough = omega arith

      spare : digits base digit half half (b / 2) ≡ digits base digit a half (b / 2)
      spare =
          many_spare (a - half) (b / 2) half half (omega arith)
          ∙ ap (λ (t : ℕ). digits base digit t half (b / 2)) enough

-- Both operations by halves.
bit_and_halves : (b a : ℕ) → bit_and a b ≡ min (a % 2) (b % 2) + 2 * bit_and (a / 2) (b / 2)
bit_and_halves b zero = omega (arith, bit_and-bitwise 0 b, bit_and-bitwise 0 (b / 2))
bit_and_halves b (suc a) =
    omega (arith, split_digit (λ _. zero) min bit_and (λ x y. bit_and-bitwise x y) b a)

pub bit_or_halves : (b a : ℕ) → bit_or a b ≡ max (a % 2) (b % 2) + 2 * bit_or (a / 2) (b / 2)
bit_or_halves b zero = omega (arith, bit_or-bitwise 0 b, bit_or-bitwise 0 (b / 2))
bit_or_halves b (suc a) =
    omega (arith, split_digit (λ y. y) max bit_or (λ x y. bit_or-bitwise x y) b a)

-- A second number of 0.
pub zero_right : (n a : ℕ) → a < n → (bit_and a 0 ≡ 0) × (bit_or a 0 ≡ a)
zero_right zero a few = elim few [ ]
zero_right (suc n) zero few = (refl, refl)
zero_right (suc n) (suc a) few =
    let (none_set, same) = zero_right n (suc a / 2) (omega arith) in
    (
      omega (arith, bit_and_halves 0 (suc a), none_set),
      omega (arith, bit_or_halves 0 (suc a), same),
    )

mul-two_pow : (q k : ℕ) → q * 2 ^ suc k ≡ 2 * (q * 2 ^ k)
mul-two_pow q k = omega (arith, ap (λ (t : ℕ). q * t) (pow-suc 2 k))

-- A field above `k` low bits: in `r | (q << k)` the low bits come first, as the decoders write it.
pub bit_or_high : (k q r : ℕ) → r < 2 ^ k → bit_or r (q * 2 ^ k) ≡ r + q * 2 ^ k
bit_or_high zero q zero h = omega (arith, bit_or-bitwise 0 (q * 1))
bit_or_high zero q (suc r) h = absurd (omega arith)
bit_or_high (suc k) q r h = ground (
  arith,
  bit_or_halves (q * 2 ^ suc k) r,
  mul-two_pow q k,
  pow-suc 2 k,
  bit_or_high k q (r / 2) (omega (arith, pow-suc 2 k)),
)

-- The other way round, as the encoder writes a tag.
pub bit_or_low : (k q r : ℕ) → r < 2 ^ k → bit_or (q * 2 ^ k) r ≡ q * 2 ^ k + r
bit_or_low zero q zero h = omega (arith, zero_right (q * 1 + 1) (q * 1) (omega arith))
bit_or_low zero q (suc r) h = absurd (omega arith)
bit_or_low (suc k) q r h = ground (
  arith,
  bit_or_halves r (q * 2 ^ suc k),
  mul-two_pow q k,
  pow-suc 2 k,
  bit_or_low k q (r / 2) (omega (arith, pow-suc 2 k)),
)

pub bit_and-one : (a : ℕ) → bit_and a 1 ≡ a % 2
bit_and-one a = omega (arith, bit_and_halves 1 a, zero_right (a / 2 + 1) (a / 2) (omega arith))

bit_and-three : (a : ℕ) → bit_and a 3 ≡ a % 4
bit_and-three a = omega (arith, bit_and_halves 3 a, bit_and-one (a / 2))

pub bit_and-seven : (a : ℕ) → bit_and a 7 ≡ a % 8
bit_and-seven a = omega (arith, bit_and_halves 7 a, bit_and-three (a / 2))

bit_and-fifteen : (a : ℕ) → bit_and a 15 ≡ a % 16
bit_and-fifteen a = omega (arith, bit_and_halves 15 a, bit_and-seven (a / 2))

bit_and-five_bits : (a : ℕ) → bit_and a 31 ≡ a % 32
bit_and-five_bits a = omega (arith, bit_and_halves 31 a, bit_and-fifteen (a / 2))

bit_and-six_bits : (a : ℕ) → bit_and a 63 ≡ a % 64
bit_and-six_bits a = omega (arith, bit_and_halves 63 a, bit_and-five_bits (a / 2))

pub bit_and-0x7f : (a : ℕ) → bit_and a 0x7f ≡ a % 128
bit_and-0x7f a = omega (arith, bit_and_halves 127 a, bit_and-six_bits (a / 2))

pub bit_and-0xff : (a : ℕ) → bit_and a 0xff ≡ a % 256
bit_and-0xff a = omega (arith, bit_and_halves 255 a, bit_and-0x7f (a / 2))

-- `b & 0x80` is the eighth binary digit, for a number of any size.
bit_and-two_digit : (a b : ℕ) → bit_and a (2 * b) ≡ bit_and (a / 2) b * 2
bit_and-two_digit a b =
    omega (arith, bit_and_halves (2 * b) a, ap (λ (t : ℕ). bit_and (a / 2) t) half)
  where
    half : 2 * b / 2 ≡ b
    half = omega arith

pub bit_and-0x80 : (a : ℕ) → bit_and a 0x80 ≡ a / 128 % 2 * 128
bit_and-0x80 a = omega (
  arith,
  bit_and-two_digit a 64,
  bit_and-two_digit (a / 2) 32,
  bit_and-two_digit (a / 2 / 2) 16,
  bit_and-two_digit (a / 2 / 2 / 2) 8,
  bit_and-two_digit (a / 2 / 2 / 2 / 2) 4,
  bit_and-two_digit (a / 2 / 2 / 2 / 2 / 2) 2,
  bit_and-two_digit (a / 2 / 2 / 2 / 2 / 2 / 2) 1,
  bit_and-one (a / 2 / 2 / 2 / 2 / 2 / 2 / 2),
)

-- Setting the top bit of a group of seven bits.
pub bit_or-0x80 : (r : ℕ) → r < 128 → bit_or r 0x80 ≡ r + 128
bit_or-0x80 r h = bit_or_high 7 1 r h
