-- ===== src/Nanopb/Undefined.antt =====
-- The check for required fields at the end of pb_decode_noinit in pb_decode.c, where the required
-- fields of the message fill whole words or more than the words there are.
use swe_capstone.Common.{
  ℕ, zero, suc, ◌+◌, ◌-◌, ◌/◌, ◌%◌, ◌^◌, ◌≤◌, ◌<◌, ◌≡◌, ◌⊎◌, min, refl, sym, ap, subst, ◌∙◌, Bool,
  Bool-cases, inl, inr, true, false, List, [], ◌∷◌, ltb, ltb→lt, ltb→le, lt→ltb, ◌==◌, ==_iff,
  length, if◌then◌else◌, arith,
}
use swe_capstone.Common.Digits.{digit, same_digits, digit-ones}
use swe_capstone.Nanopb.Stream.{missing_required_field, fault, Action, ◌>>=◌}
use swe_capstone.Nanopb.Input.{in_error}
use swe_capstone.Nanopb.Field.{Field, FieldIter}
use swe_capstone.Nanopb.Field.Stepping.{IsArray, iter_at, iter_at-StandsAt}
use swe_capstone.Nanopb.Field.Plain.{seek_end_lem}
use swe_capstone.Nanopb.Layout.{required_total}
use swe_capstone.Nanopb.DecodeState.{Decoding, dec_error}
use swe_capstone.Nanopb.DecodeField.{Handlers, Submessages}
use swe_capstone.Nanopb.FieldsSeen.{allbits, seek_end, whole_words, remaining_bits, check_required}
use swe_capstone.Nanopb.DecodeMessage.{Scan, check_fields}
use swe_capstone.Nanopb.Words.{Says, word_lacks}
use swe_capstone.Nanopb.Marks.{marks, Seen, all_seen, marks-Holds, all_seen-Seen, all_seen-missing}
use swe_capstone.Nanopb.Required.{low-Says, high-Says}

-- A word of all ones holds every number below 32, and one that lacks a number is none.
word_ones :
    (word : ℕ) (P : ℕ → Type 0)
    → word < 2 ^ 32
    → ((i : ℕ) → i < 32 → Says (P i) (digit i word))
    → ((i : ℕ) → i < 32 → P i)
    → (word == allbits) ≡ true
word_ones word P fits says all = (==_iff word allbits).1 (
    same_digits 32 word allbits fits (omega arith)
      (λ i lt. (says i lt).0 (all i lt) ∙ sym (digit-ones 32 i lt)))

-- Both words against the fields that were seen.
low_ones : (iters : List FieldIter) → ((marks-Holds iters).low == allbits) ≡ all_seen iters 32
low_ones iters =
    let h = marks-Holds iters in
    elim (Bool-cases (all_seen iters 32)) [
      | inl e ↦
          word_ones h.low (Seen iters) h.low_fits (low-Says iters) (all_seen-Seen iters 32 e)
          ∙ sym e
      | inr e ↦
          let (i, lt, missing) = all_seen-missing iters 32 e in
          word_lacks 32 h.low i (Seen iters i) lt (low-Says iters i lt) missing ∙ sym e
    ]

high_ones :
    (iters : List FieldIter)
    → all_seen iters 32 ≡ true
    → ((marks-Holds iters).high == allbits) ≡ all_seen iters 64
high_ones iters first =
    let h = marks-Holds iters in
    elim (Bool-cases (all_seen iters 64)) [
      | inl e ↦
          word_ones h.high (λ i. Seen iters (i + 32)) h.high_fits (high-Says iters)
            (λ i lt. all_seen-Seen iters 64 e (i + 32) (omega arith))
          ∙ sym e
      | inr e ↦
          let (i, lt, missing) = all_seen-missing iters 64 e in
          elim (Bool-cases (ltb i 32)) [
            | inl e' ↦ absurd (missing (all_seen-Seen iters 32 first i (ltb→lt i 32 e')))
            | inr e' ↦
                let le = ltb→le i 32 e' in
                let same : i - 32 + 32 ≡ i = omega arith in
                word_lacks 32 h.high (i - 32) (Seen iters (i - 32 + 32)) (omega arith)
                  (high-Says iters (i - 32) (omega arith))
                  (λ there. missing (subst (Seen iters) same there))
                ∙ sym e
          ]
    ]

all_seen-fewer : (iters : List FieldIter) → all_seen iters 32 ≡ false → all_seen iters 64 ≡ false
all_seen-fewer iters e = elim (Bool-cases (all_seen iters 64)) [
  | inr e' ↦ e'
  | inl e' ↦
      let (i, lt, missing) = all_seen-missing iters 32 e in
      absurd (missing (all_seen-Seen iters 64 e' i (omega arith)))
]

module _ {S : Type 0} where
  -- What C leaves undefined, or `missing required field`.
  abbrev pub undefined_if : Bool → Action (Decoding S) (Unit {0})
  undefined_if all = if all then (λ state. fault) else dec_error missing_required_field

  -- 32 required fields.
  check_32 :
      (low high : ℕ) (s : Decoding S)
      → check_required (low ∷ high ∷ []) 32 s ≡ undefined_if (low == allbits) s
  unfolding check_required whole_words remaining_bits in_error
  check_32 low high s = elim (Bool-cases (low == allbits)) [ inl e ↦ rw e refl | inr e ↦ rw e refl ]

  no_words_left :
      (words bits : ℕ) (s : Decoding S) → (whole_words words [] >>= remaining_bits bits) s ≡ fault
  unfolding whole_words remaining_bits
  no_words_left zero bits s = refl
  no_words_left (suc words) bits s = refl

  -- 64 or more.
  check_64 :
      (n low high : ℕ) (s : Decoding S)
      → 64 ≤ n
      → check_required (low ∷ high ∷ []) n s
        ≡ (if low == allbits
              then undefined_if (high == allbits)
              else dec_error missing_required_field)
            s
  unfolding check_required whole_words in_error
  check_64 n low high s le =
      let more : n / 32 ≡ suc (suc (n / 32 - 2)) = omega arith in
      rw (lt→ltb 0 n (omega arith)) (
        ap (λ q. (whole_words q (low ∷ high ∷ []) >>= remaining_bits (n % 32)) s) more
        ∙ (elim (Bool-cases (low == allbits)) [
          | inr e ↦ rw e refl
          | inl e ↦ rw e (elim (Bool-cases (high == allbits)) [
            | inr e' ↦ rw e' refl
            | inl e' ↦ rw e' (no_words_left (n / 32 - 2) (n % 32) s)
          ])
        ]))

  marks_32 :
      (iters : List FieldIter) (s : Decoding S)
      → check_required (marks iters) 32 s ≡ undefined_if (all_seen iters 32) s
  marks_32 iters s =
      let h = marks-Holds iters in
      ap (λ words. check_required words 32 s) h.words
      ∙ (check_32 h.low h.high s ∙ ap (λ b. undefined_if b s) (low_ones iters))

  marks_64 :
      (iters : List FieldIter) (n : ℕ) (s : Decoding S)
      → 64 ≤ n
      → check_required (marks iters) n s ≡ undefined_if (all_seen iters 64) s
  marks_64 iters n s le =
      let h = marks-Holds iters in
      ap (λ words. check_required words n s) h.words
      ∙ (check_64 n h.low h.high s le ∙ (elim (Bool-cases (all_seen iters 32)) [
        | inl e ↦ rw (low_ones iters ∙ e) (ap (λ b. undefined_if b s) (high_ones iters e))
        | inr e ↦
            rw (low_ones iters ∙ e) (ap (λ b. undefined_if b s) (sym (all_seen-fewer iters e)))
      ]))

  marks_undefined :
      (iters : List FieldIter) (n : ℕ) (s : Decoding S)
      → 0 < n
      → (n % 32 ≡ 0) ⊎ (64 ≤ n)
      → check_required (marks iters) n s ≡ undefined_if (all_seen iters (min n 64)) s
  marks_undefined iters n s positive h = elim (Bool-cases (ltb n 64)) [
    | inl e ↦
        let lt = ltb→lt n 64 e in
        let one_word : n ≡ 32 = elim h [ inl z ↦ omega (arith, z) | inr le ↦ omega (arith, le) ] in
        subst (λ k. check_required (marks iters) k s ≡ undefined_if (all_seen iters (min k 64)) s)
          (sym one_word) (marks_32 iters s)
    | inr e ↦
        let le = ltb→le n 64 e in
        let both : 64 ≡ min n 64 = omega arith in
        marks_64 iters n s le ∙ ap (λ k. undefined_if (all_seen iters k) s) both
  ]

  -- The message has a number of required fields that is a positive multiple of 32, or is 64 or more,
  -- and the loop of pb_decode_noinit is over; it has left the iterator at any field of the message,
  -- and the bits that mark_seen sets for the fields at a list of iterators. Where every one of the
  -- first 64 required fields was among them, or of all 32 if there are 32, the check that follows
  -- shifts a word by all its 32 bits or reads past the two words, which C leaves undefined; where
  -- one was missing it fails with `missing required field`. It has no defined way to succeed.
  pub check_fields_undefined :
      (handlers : Handlers S) (submessages : Submessages S) (fields : List Field) (dest j : ℕ)
      (iters : List FieldIter) (scan : Scan) (s : Decoding S)
      → IsArray fields
      → j < length fields
      → scan.iter ≡ iter_at fields dest j
      → scan.fields_seen ≡ marks iters
      → 0 < required_total fields dest
      → (required_total fields dest % 32 ≡ 0) ⊎ (64 ≤ required_total fields dest)
      → check_fields handlers submessages scan s
        ≡ undefined_if (all_seen iters (min (required_total fields dest) 64)) s
  unfolding check_fields
  check_fields_undefined handlers submessages fields dest j iters scan s array inside at_place words
        positive h =
      let size : length (iter_at fields dest j).start ≡ length fields =
        ap length (iter_at-StandsAt fields dest array j inside).start in
      let found =
        ap (λ it. seek_end (length it.start + 1) it) at_place
        ∙ seek_end_lem fields dest array (length (iter_at fields dest j).start + 1) j inside
            (omega (arith, size)) in
      rw (found, check_fields)
        (ap (λ seen. check_required seen (required_total fields dest) s) words
          ∙ marks_undefined iters (required_total fields dest) s positive h)
