-- ===== src/Nanopb/Words.antt =====
-- The two words of bits in pb_decode_noinit of pb_decode.c, as a set of numbers below 64.
use swe_capstone.Common.{
  ℕ, ◌+◌, ◌-◌, ◌/◌, ◌%◌, ◌^◌, ◌≤◌, ◌<◌, ◌≡◌, ◌≢◌, ◌⊎◌, refl, sym, ap, subst, ◌∙◌, Bool-cases, inl,
  inr, false, List, [], ◌∷◌, ltb, ltb→lt, ltb→le, lt→ltb, le→ltb, ◌==◌, ==_iff, bit_or, get_elem?,
  set, none, some, if◌then◌else◌, arith,
}
use swe_capstone.Common.Digits.{
  digit, digit-set, digit-set_other, or-fits, same_digits, digit-ones, digit-ones_above, digit-zero,
  shift_ones, two_pow-le,
}
use swe_capstone.Nanopb.FieldsSeen.{allbits, set_bit}

-- The bit of that number in two words.
abbrev pub bit : ℕ → ℕ → ℕ → ℕ
bit i low high = if ltb i 32 then digit i low else digit (i - 32) high

abbrev pub Says : Type 0 → ℕ → Type 0
Says P b = (P → b ≡ 1) × ((P → ⊥) → b ≡ 0)

-- Two words hold a set.
pub record Holds (P : ℕ → Type 0) (seen : List ℕ) : Type 0 where
  pub low : ℕ
  pub high : ℕ
  pub words : seen ≡ low ∷ high ∷ []
  pub low_fits : low < 2 ^ 32
  pub high_fits : high < 2 ^ 32
  pub bits : (i : ℕ) → i < 64 → Says (P i) (bit i low high)

-- set_bit with the word and the digit given.
abbrev set_in : ℕ → ℕ → List ℕ → List ℕ
set_in i r seen = elim (get_elem? seen i) [
  | none ↦ seen
  | some word ↦ set seen i (bit_or word (2 ^ r))
]

set_low : (k low high : ℕ) → k < 32 → set_bit k (low ∷ high ∷ []) ≡ bit_or low (2 ^ k) ∷ high ∷ []
set_low k low high lt =
    let first : k / 32 ≡ 0 = omega arith in
    let rest : k % 32 ≡ k = omega arith in
    ap (λ i. set_in i (k % 32) (low ∷ high ∷ [])) first
    ∙ ap (λ r. set_in 0 r (low ∷ high ∷ [])) rest

set_high :
    (k low high : ℕ)
    → 32 ≤ k
    → k < 64
    → set_bit k (low ∷ high ∷ []) ≡ low ∷ bit_or high (2 ^ (k - 32)) ∷ []
set_high k low high le lt =
    let second : k / 32 ≡ 1 = omega arith in
    let rest : k % 32 ≡ k - 32 = omega arith in
    ap (λ i. set_in i (k % 32) (low ∷ high ∷ [])) second
    ∙ ap (λ r. set_in 1 r (low ∷ high ∷ [])) rest

pub bit-low : (i low high : ℕ) → i < 32 → bit i low high ≡ digit i low
bit-low i low high lt = rw (lt→ltb i 32 lt) refl

pub bit-high : (i low high : ℕ) → 32 ≤ i → bit i low high ≡ digit (i - 32) high
bit-high i low high le = rw (le→ltb i 32 le) refl

-- One more element.
Says-insert :
    {P : Type 0} (k i b b' : ℕ)
    → (k ≡ i → b' ≡ 1)
    → (k ≢ i → b' ≡ b)
    → Says P b
    → Says ((k ≡ i) ⊎ P) b'
Says-insert k i b b' hit other h = elim (Bool-cases (k == i)) [
  | inl e ↦ let here = (==_iff k i).0 e in ((λ p. hit here), λ no. absurd (no (inl here)))
  | inr e ↦
      let away : k ≢ i = λ here. cc (e, (==_iff k i).1 here) in
      (
        (λ p. other away ∙ (elim p [ inl here ↦ absurd (away here) | inr old ↦ h.0 old ])),
        λ no. other away ∙ h.1 (λ old. no (inr old)),
      )
]

pub Holds-insert :
    (P : ℕ → Type 0) (seen : List ℕ) (k : ℕ)
    → k < 64
    → Holds P seen
    → Holds (λ i. (k ≡ i) ⊎ P i) (set_bit k seen)
Holds-insert P seen k lt h = elim (Bool-cases (ltb k 32)) [
  | inl e ↦
      let below = ltb→lt k 32 e in
      record {
        low = bit_or h.low (2 ^ k);
        high = h.high;
        words = ap (set_bit k) h.words ∙ set_low k h.low h.high below;
        low_fits = or-fits 32 k h.low below h.low_fits;
        high_fits = h.high_fits;
        bits = λ i small.
            Says-insert k i (bit i h.low h.high) _
              (λ here.
                bit-low i _ h.high (omega (arith, here))
                ∙ subst (λ j. digit j (bit_or h.low (2 ^ k)) ≡ 1) here (digit-set k h.low))
              (λ away. elim (Bool-cases (ltb i 32)) [
                | inl e' ↦ rw e' (digit-set_other i k h.low (λ same. away (sym same)))
                | inr e' ↦ rw e' refl
              ])
              (h.bits i small);
      }
  | inr e ↦
      let above = ltb→le k 32 e in
      record {
        low = h.low;
        high = bit_or h.high (2 ^ (k - 32));
        words = ap (set_bit k) h.words ∙ set_high k h.low h.high above lt;
        low_fits = h.low_fits;
        high_fits = or-fits 32 (k - 32) h.high (omega arith) h.high_fits;
        bits = λ i small.
            Says-insert k i (bit i h.low h.high) _
              (λ here.
                bit-high i h.low _ (omega (arith, here))
                ∙ subst (λ j. digit (j - 32) (bit_or h.high (2 ^ (k - 32))) ≡ 1) here
                    (digit-set (k - 32) h.high))
              (λ away. elim (Bool-cases (ltb i 32)) [
                | inl e' ↦ rw e' refl
                | inr e' ↦
                    let large = ltb→le i 32 e' in
                    rw e' (
                      digit-set_other (i - 32) (k - 32) h.high (λ same. away (omega (arith, same))))
              ])
              (h.bits i small);
      }
]

pub Holds-same :
    (P Q : ℕ → Type 0) (seen : List ℕ)
    → ((i : ℕ) → i < 64 → P i → Q i)
    → ((i : ℕ) → i < 64 → Q i → P i)
    → Holds P seen
    → Holds Q seen
Holds-same P Q seen there back h = record {
  low = h.low;
  high = h.high;
  words = h.words;
  low_fits = h.low_fits;
  high_fits = h.high_fits;
  bits = λ i lt.
      ((λ q. (h.bits i lt).0 (back i lt q)), λ no. (h.bits i lt).1 (λ p. no (there i lt p)));
}

pub none_seen-bit : (i : ℕ) → bit i 0 0 ≡ 0
none_seen-bit i = elim (Bool-cases (ltb i 32)) [
  | inl e ↦ rw e (digit-zero i)
  | inr e ↦ rw e (digit-zero (i - 32))
]

-- A word whose digits are those of a set below `n`.
pub word_full :
    (n word : ℕ) (P : ℕ → Type 0)
    → n ≤ 32
    → word < 2 ^ 32
    → ((i : ℕ) → i < 32 → Says (P i) (digit i word))
    → ((i : ℕ) → i < n → P i)
    → ((i : ℕ) → P i → i < n)
    → word ≡ 2 ^ n - 1
word_full n word P le fits says all below =
    same_digits 32 word (2 ^ n - 1) fits (omega (arith, two_pow-le n 32 le)) (λ i lt.
      elim (Bool-cases (ltb i n)) [
        | inl e ↦
            let inside = ltb→lt i n e in (says i lt).0 (all i inside) ∙ sym (digit-ones n i inside)
        | inr e ↦
            let outside = ltb→le i n e in
            (says i lt).1 (λ p. omega (arith, below i p)) ∙ sym (digit-ones_above n i outside)
      ])

pub word_lacks :
    (n word i : ℕ) (P : Type 0)
    → i < n
    → Says P (digit i word)
    → (P → ⊥)
    → (word == 2 ^ n - 1) ≡ false
word_lacks n word i P lt says absent = elim (Bool-cases (word == 2 ^ n - 1)) [
  | inr e ↦ e
  | inl e ↦ absurd (
      omega (arith, says.1 absent, ap (digit i) ((==_iff word (2 ^ n - 1)).0 e), digit-ones n i lt))
]

pub mask_lem : (n : ℕ) → n ≤ 32 → allbits / 2 ^ (32 - n) ≡ 2 ^ n - 1
mask_lem n le =
    let whole : n + (32 - n) ≡ 32 = omega arith in
    ap (λ (t : ℕ). (2 ^ t - 1) / 2 ^ (32 - n)) (sym whole) ∙ shift_ones n (32 - n)
