-- ===== src/Nanopb/FieldsSeen.antt =====
-- The bits for the required fields of a message in pb_decode_noinit of pb_decode.c, and their check.
use swe_capstone.Common.{
  ℕ, zero, suc, ◌+◌, ◌-◌, ◌/◌, ◌%◌, ◌^◌, bit_or, Bool, true, false, not, ◌&&◌, List, [], ◌∷◌,
  Option, none, some, ltb, ◌==◌, get_elem?, set, if◌then◌else◌,
}
use swe_capstone.Nanopb.Stream.{missing_required_field, fault, Action, ◌>>=◌, pure}
use swe_capstone.Nanopb.Field.{Htype, Field, FieldIter, current, pb_field_iter_next}
use swe_capstone.Nanopb.DecodeState.{Decoding, dec_error}

-- PB_MAX_REQUIRED_FIELDS
abbrev pub max_required_fields : ℕ
max_required_fields = 64

-- `~(uint32_t)0`
abbrev pub allbits : ℕ
allbits = 2 ^ 32 - 1

-- `fields_seen`: the two words of bits, and the bit of a required field set in them.
abbrev pub none_seen : List ℕ
none_seen = 0 ∷ 0 ∷ []

abbrev pub is_required : Htype → Bool
is_required Htype.required = true
is_required _ = false

abbrev pub set_bit : ℕ → List ℕ → List ℕ
set_bit index seen = elim (get_elem? seen (index / 32)) [
  | none ↦ seen
  | some word ↦ set seen (index / 32) (bit_or word (2 ^ (index % 32)))
]

unfoldable pub mark_seen : FieldIter → List ℕ → List ℕ
mark_seen iter seen =
    if is_required (current iter).htype && ltb iter.required_field_index max_required_fields
    then set_bit iter.required_field_index seen
    else seen

-- The loop to the end of the field array: the number of required fields before the last field,
-- that field, and the iterator that has gone round.
unfoldable pub seek_end : ℕ → FieldIter → Option (ℕ × Field × FieldIter)
seek_end zero iter = none
seek_end (suc rounds) iter =
    let (next, more) = pb_field_iter_next iter in
    elim more [
      | true ↦ seek_end rounds next
      | false ↦ some (iter.required_field_index, current iter, next)
    ]

-- `Fixup if last field was also required.`
unfoldable pub required_count : ℕ × Field × FieldIter → ℕ
required_count (req_field_count, last, iter) =
    if is_required last.htype && not ((current iter).tag == 0)
    then req_field_count + 1
    else req_field_count

module _ {S : Type 0} where
  -- `for (i = 0; i < (req_field_count >> 5); i++)`
  unfoldable pub whole_words : ℕ → List ℕ → Action (Decoding S) (List ℕ)
  whole_words zero seen = pure seen
  whole_words (suc count) [] = λ state. fault
  whole_words (suc count) (word ∷ seen) =
      if word == allbits then whole_words count seen else dec_error missing_required_field

  -- The word behind them against `allbits >> (32 - bits)`, which C leaves undefined for no bits.
  unfoldable pub remaining_bits : ℕ → List ℕ → Action (Decoding S) (Unit {0})
  remaining_bits bits [] = λ state. fault
  remaining_bits bits (word ∷ seen) =
      if bits == 0
      then (λ state. fault)
      else if word == allbits / 2 ^ (32 - bits)
      then pure tt
      else dec_error missing_required_field

  unfoldable pub check_required : List ℕ → ℕ → Action (Decoding S) (Unit {0})
  unfolding whole_words remaining_bits
  check_required seen req_field_count =
      if ltb 0 req_field_count
      then (whole_words (req_field_count / 32) seen >>= remaining_bits (req_field_count % 32))
      else pure tt
