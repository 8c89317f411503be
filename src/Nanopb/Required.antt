-- ===== src/Nanopb/Required.antt =====
-- The check for required fields at the end of pb_decode_noinit in pb_decode.c.
use swe_capstone.Common.{
  ℕ, ◌+◌, ◌-◌, ◌/◌, ◌%◌, ◌^◌, ◌≤◌, ◌<◌, ◌≡◌, ◌≢◌, refl, sym, ap, subst, ◌∙◌, Bool, Bool-cases, inl,
  inr, true, false, List, [], ◌∷◌, ltb, ltb→lt, ltb→le, lt→ltb, ◌==◌, ==_iff, if◌then◌else◌, arith,
}
use swe_capstone.Common.Digits.{digit, same_digits, digit-ones}
use swe_capstone.Nanopb.Stream.{missing_required_field, done, Action, ◌>>=◌, pure}
use swe_capstone.Nanopb.Input.{in_error}
use swe_capstone.Nanopb.Field.{FieldIter}
use swe_capstone.Nanopb.DecodeState.{Decoding, dec_error}
use swe_capstone.Nanopb.Marks.{
  marks, Seen, seen, all_seen, marks-Holds, Seen-seen, all_seen-Seen, all_seen-missing,
}
use swe_capstone.Nanopb.FieldsSeen.{allbits, whole_words, remaining_bits, check_required}
use swe_capstone.Nanopb.Words.{Says, bit-low, bit-high, word_full, word_lacks, mask_lem}

-- The digits of both words.
pub low-Says :
    (iters : List FieldIter) (i : ℕ)
    → i < 32
    → Says (Seen iters i) (digit i (marks-Holds iters).low)
low-Says iters i lt =
    let h = marks-Holds iters in
    subst (Says (Seen iters i)) (bit-low i h.low h.high lt) (h.bits i (omega arith))

pub high-Says :
    (iters : List FieldIter) (i : ℕ)
    → i < 32
    → Says (Seen iters (i + 32)) (digit i (marks-Holds iters).high)
high-Says iters i lt =
    let h = marks-Holds iters in
    let same : i + 32 - 32 ≡ i = omega arith in
    subst (Says (Seen iters (i + 32)))
      (bit-high (i + 32) h.low h.high (omega arith) ∙ ap (λ j. digit j h.high) same)
      (h.bits (i + 32) (omega arith))

module _ {S : Type 0} where
  abbrev accept_if : Bool → Action (Decoding S) (Unit {0})
  accept_if ok = if ok then pure tt else dec_error missing_required_field

  remaining_bits_lem :
      (bits word : ℕ) (rest : List ℕ) (s : Decoding S)
      → bits ≢ 0
      → bits ≤ 32
      → remaining_bits bits (word ∷ rest) s ≡ accept_if (word == 2 ^ bits - 1) s
  unfolding remaining_bits
  remaining_bits_lem bits word rest s some_left le =
      let left : (bits == 0) ≡ false = ground arith in
      rw left (ap (λ (t : ℕ). accept_if (word == t) s) (mask_lem bits le))

  -- Fewer than 32 required fields.
  check_low :
      (n low high : ℕ) (s : Decoding S)
      → 0 < n
      → n < 32
      → check_required (low ∷ high ∷ []) n s ≡ accept_if (low == 2 ^ n - 1) s
  unfolding check_required whole_words
  check_low n low high s positive lt =
      let first : n / 32 ≡ 0 = omega arith in
      let rest : n % 32 ≡ n = omega arith in
      rw (lt→ltb 0 n positive) (
        ap (λ q. (whole_words q (low ∷ high ∷ []) >>= remaining_bits (n % 32)) s) first
        ∙ (ap (λ r. remaining_bits r (low ∷ high ∷ []) s) rest
            ∙ remaining_bits_lem n low (high ∷ []) s (λ z. omega (arith, z)) (omega arith)))

  -- More than 32 of them.
  check_high :
      (n low high : ℕ) (s : Decoding S)
      → 32 < n
      → n < 64
      → check_required (low ∷ high ∷ []) n s ≡ (
          if low == allbits
          then accept_if (high == 2 ^ (n - 32) - 1) s
          else dec_error missing_required_field s)
  unfolding check_required whole_words in_error
  check_high n low high s more lt =
      let second : n / 32 ≡ 1 = omega arith in
      let rest : n % 32 ≡ n - 32 = omega arith in
      rw (lt→ltb 0 n (omega arith)) (
        ap (λ q. (whole_words q (low ∷ high ∷ []) >>= remaining_bits (n % 32)) s) second
        ∙ (elim (Bool-cases (low == allbits)) [
          | inr e ↦ rw e refl
          | inl e ↦ rw e (
              ap (λ r. remaining_bits r (high ∷ []) s) rest
              ∙ remaining_bits_lem (n - 32) high [] s (λ z. omega (arith, z)) (omega arith))
        ]))

  accepted :
      (word n : ℕ) (s : Decoding S) → word ≡ 2 ^ n - 1 → accept_if (word == 2 ^ n - 1) s ≡ done tt s
  accepted word n s e = rw ((==_iff word (2 ^ n - 1)).1 e) refl

  abbrev Decides : List FieldIter → ℕ → Decoding S → Type 0
  Decides iters n s =
      (((i : ℕ) → i < n → Seen iters i) → check_required (marks iters) n s ≡ done tt s)
      × ((i : ℕ)
          → i < n
          → (Seen iters i → ⊥)
          → check_required (marks iters) n s ≡ dec_error missing_required_field s)

  few_required :
      (iters : List FieldIter) (n : ℕ) (s : Decoding S)
      → 0 < n
      → n < 32
      → ((i : ℕ) → Seen iters i → i < n)
      → Decides iters n s
  few_required iters n s positive lt known =
      let h = marks-Holds iters in
      let checked =
        ap (λ words. check_required words n s) h.words ∙ check_low n h.low h.high s positive lt in
      (
        (λ all.
            checked
            ∙ accepted h.low n s (
                word_full n h.low (Seen iters) (omega arith) h.low_fits (low-Says iters) all
                  known)),
        λ i below missing.
            checked
            ∙ ap (λ ok. accept_if ok s)
                (word_lacks n h.low i (Seen iters i) below (low-Says iters i (omega arith))
                  missing),
      )

  many_required :
      (iters : List FieldIter) (n : ℕ) (s : Decoding S)
      → 32 < n
      → n < 64
      → ((i : ℕ) → Seen iters i → i < n)
      → Decides iters n s
  many_required iters n s more lt known =
      let h = marks-Holds iters in
      let checked =
        ap (λ words. check_required words n s) h.words ∙ check_high n h.low h.high s more lt in
      let second = λ (ok : Bool).
        if ok
        then accept_if (h.high == 2 ^ (n - 32) - 1) s
        else dec_error missing_required_field s in
      (
        (λ all.
            let full : h.low ≡ allbits =
              same_digits 32 h.low allbits h.low_fits (omega arith) (λ i small.
                (low-Says iters i small).0 (all i (omega arith)) ∙ sym (digit-ones 32 i small)) in
            checked
            ∙ (ap second ((==_iff h.low allbits).1 full)
                ∙ accepted h.high (n - 32) s (
                    word_full (n - 32) h.high (λ i. Seen iters (i + 32)) (omega arith) h.high_fits
                      (high-Says iters) (λ i below. all (i + 32) (omega arith))
                      (λ i there. omega (arith, known (i + 32) there))))),
        λ i below missing. checked ∙ (elim (Bool-cases (ltb i 32)) [
          | inl e ↦ ap second (
              word_lacks 32 h.low i (Seen iters i) (ltb→lt i 32 e)
                (low-Says iters i (ltb→lt i 32 e)) missing)
          | inr e ↦ elim (Bool-cases (h.low == allbits)) [
            | inr e' ↦ ap second e'
            | inl e' ↦
                let le = ltb→le i 32 e in
                let same : i - 32 + 32 ≡ i = omega arith in
                ap second e'
                ∙ ap (λ ok. accept_if ok s)
                    (word_lacks (n - 32) h.high (i - 32) (Seen iters (i - 32 + 32)) (omega arith)
                      (high-Says iters (i - 32) (omega arith))
                      (λ there. missing (subst (Seen iters) same there)))
          ]
        ]),
      )

  decides :
      (iters : List FieldIter) (n : ℕ) (s : Decoding S)
      → n < 64
      → (n % 32 ≡ 0 → n ≡ 0)
      → ((i : ℕ) → Seen iters i → i < n)
      → Decides iters n s
  unfolding check_required
  decides iters n s few countable known = elim (Bool-cases (ltb 0 n)) [
    | inr e ↦
        let zero_required = ltb→le 0 n e in
        ((λ all. rw e refl), λ i lt missing. absurd (omega arith))
    | inl e ↦ elim (Bool-cases (ltb n 32)) [
      | inl e' ↦ few_required iters n s (ltb→lt 0 n e) (ltb→lt n 32 e') known
      | inr e' ↦
          let le = ltb→le n 32 e' in
          let positive = ltb→lt 0 n e in
          let more : 32 < n = elim (Bool-cases (ltb 32 n)) [
            | inl e'' ↦ ltb→lt 32 n e''
            | inr e'' ↦ let all = ltb→le 32 n e'' in absurd (omega (arith, countable (omega arith)))
          ] in
          many_required iters n s more few known
    ]
  ]

  -- The message has `n` required fields, below 64 and 0 or no multiple of 32, and fields of it were
  -- decoded. The bits that mark_seen has set in the two words refine the set of required fields
  -- that were seen: the check at the end passes where that set has all of them, and fails with
  -- `missing required field` where it lacks one.
  pub check_required_lem :
      (iters : List FieldIter) (n : ℕ) (s : Decoding S)
      → n < 64
      → (n % 32 ≡ 0 → n ≡ 0)
      → ((i : ℕ) → seen iters i ≡ true → i < n)
      → check_required (marks iters) n s
        ≡ (if all_seen iters n then pure tt else dec_error missing_required_field) s
  check_required_lem iters n s few countable known =
      let (passes, fails) =
        decides iters n s few countable (λ i h. known i (Seen-seen iters i h)) in
      elim (Bool-cases (all_seen iters n)) [
        | inl e ↦ passes (all_seen-Seen iters n e) ∙ ap (λ ok. accept_if ok s) (sym e)
        | inr e ↦
            let (i, lt, missing) = all_seen-missing iters n e in
            fails i lt missing ∙ ap (λ ok. accept_if ok s) (sym e)
      ]
