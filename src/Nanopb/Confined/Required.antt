-- ===== src/Nanopb/Confined/Required.antt =====
-- The check for required fields at the end of pb_decode_noinit reads its two words of bits.
use swe_capstone.Common.{
  ℕ, zero, suc, ◌+◌, ◌/◌, ◌%◌, ◌^◌, ◌-◌, ◌≤◌, ◌<◌, ◌≡◌, ◌⊎◌, refl, Bool-cases, inl, inr, List, [],
  ◌∷◌, ltb, ltb→lt, ◌==◌, ==_iff, length, get_elem?, length-set, ◌&&◌, bit_or, Option-cases, arith,
}
use swe_capstone.Nanopb.Stream.{missing_required_field}
use swe_capstone.Nanopb.Field.{FieldIter, current}
use swe_capstone.Nanopb.DecodeState.{Decoding}
use swe_capstone.Nanopb.FieldsSeen.{
  allbits, set_bit, mark_seen, is_required, max_required_fields, whole_words, remaining_bits,
  check_required,
}
use swe_capstone.Nanopb.Confined.{
  Constants, IsReady, Confined, Anyhow, Stays-refl, Confined-then, Confined-weaken,
  dec_error-Confined,
}

-- Marks stay in the two words.
length-set_bit : (index : ℕ) (seen : List ℕ) → length (set_bit index seen) ≡ length seen
length-set_bit index seen = elim (Option-cases (get_elem? seen (index / 32))) [
  | inl e ↦ rw (e, set_bit) refl
  | inr (word, e) ↦ rw (e, set_bit) (length-set seen (index / 32) (bit_or word (2 ^ (index % 32))))
]

pub length-mark_seen :
    (iter : FieldIter) (seen : List ℕ) → length (mark_seen iter seen) ≡ length seen
unfolding mark_seen
length-mark_seen iter seen =
    elim (Bool-cases
      (is_required (current iter).htype && ltb iter.required_field_index max_required_fields)) [
        | inl e ↦ rw e (length-set_bit iter.required_field_index seen)
        | inr e ↦ rw e refl
      ]

module _ {S : Type 0} (F : Type 0) (R : ℕ → Type 0) (K : Constants) where
  pub whole_words-Confined :
      (count : ℕ) (seen : List ℕ) (s : Decoding S)
      → (length seen < count → F)
      → IsReady F R K s
      → Confined F R K (λ rest t. length rest + count ≡ length seen) s (whole_words count seen s)
  unfolding whole_words
  whole_words-Confined zero seen s short r = (omega arith, r, Stays-refl F R K s)
  whole_words-Confined (suc count) [] s short r = short (omega arith)
  whole_words-Confined (suc count) (word ∷ seen) s short r = elim (Bool-cases (word == allbits)) [
    | inl e ↦ rw e (
        Confined-weaken F R K (λ rest t. length rest + count ≡ length seen) _ s s _
          (whole_words-Confined count seen s (λ h. short (omega arith)) r) (Stays-refl F R K s)
          (λ rest t h m. omega arith))
    | inr e ↦ rw e (
        dec_error-Confined F R K (λ rest t. length rest + suc count ≡ suc (length seen))
          missing_required_field s r)
  ]

  remaining_bits-Confined :
      (bits : ℕ) (seen : List ℕ) (s : Decoding S)
      → (bits ≡ 0 → F)
      → (length seen ≡ 0 → F)
      → IsReady F R K s
      → Confined F R K (Anyhow F R K) s (remaining_bits bits seen s)
  unfolding remaining_bits
  remaining_bits-Confined bits [] s none_left short r = short refl
  remaining_bits-Confined bits (word ∷ seen) s none_left short r = elim (Bool-cases (bits == 0)) [
    | inl e ↦ rw e (none_left ((==_iff bits 0).0 e))
    | inr e ↦ rw e (elim (Bool-cases (word == allbits / 2 ^ (32 - bits))) [
      | inl e' ↦ rw e' (tt, r, Stays-refl F R K s)
      | inr e' ↦ rw e' (dec_error-Confined F R K (Anyhow F R K) missing_required_field s r)
    ])
  ]

  -- Two words are enough for a number of fields that is below 64 and no multiple of 32.
  pub check_required-Confined :
      (seen : List ℕ) (n : ℕ) (s : Decoding S)
      → length seen ≡ 2
      → (0 < n → (n % 32 ≡ 0) ⊎ (64 ≤ n) → F)
      → IsReady F R K s
      → Confined F R K (Anyhow F R K) s (check_required seen n s)
  unfolding check_required
  check_required-Confined seen n s two countable r = elim (Bool-cases (ltb 0 n)) [
    | inr e ↦ rw e (tt, r, Stays-refl F R K s)
    | inl e ↦
        let positive = ltb→lt 0 n e in
        rw e (
          Confined-then F R K (λ rest t. length rest + n / 32 ≡ length seen) (Anyhow F R K) s _ _
            (whole_words-Confined (n / 32) seen s
              (λ short. countable positive (inr (omega (arith, short)))) r)
            (λ rest t left r' m.
              remaining_bits-Confined (n % 32) rest t (λ z. countable positive (inl z))
                (λ z. countable positive (inr (omega (arith, left, z)))) r'))
  ]
