-- ===== src/Nanopb/Encode.antt =====
-- The helper functions of pb_encode.c: one value to its bytes, and the bytes to the stream.
use swe_capstone.Common.{
  ℕ, zero, suc, ◌-◌, ◌*◌, ◌/◌, ◌%◌, ◌^◌, bit_and, bit_or, true, false, List, [], ◌∷◌, Option, none,
  some, leb, ◌==◌, length, if◌then◌else◌,
}
use swe_capstone.Nanopb.Stream.{size_mod, fault, Action, ◌>>◌, Ostream}
use swe_capstone.Nanopb.Output.{pb_write}

-- `(pb_byte_t)((value & 0x7F) | 0x80)`
abbrev pub varint_byte : ℕ → ℕ
varint_byte value = bit_or (bit_and value 0x7f) 0x80 % 256

-- `while (value) { buffer[i] = …; value >>= 7; i++; }` into the `room` bytes that are left of
-- `buffer`; `none` is a write behind its end.
unfoldable pub varint_loop : ℕ → ℕ → Option (List ℕ)
varint_loop zero value = if value == 0 then some [] else none
varint_loop (suc room) value = elim (value == 0) [
  | true ↦ some []
  | false ↦ elim (varint_loop room (value / 2 ^ 7)) [
    | none ↦ none
    | some bytes ↦ some (varint_byte value ∷ bytes)
  ]
]

-- `buffer[i-1] &= 0x7F;` for the `i` bytes written.
unfoldable pub unset_last : List ℕ → List ℕ
unset_last [] = []
unset_last (b ∷ []) = bit_and b 0x7f ∷ []
unset_last (b ∷ c ∷ bytes) = b ∷ unset_last (c ∷ bytes)

-- The bytes that pb_encode_varint hands to pb_write; `none` is a write behind `buffer[10]`.
unfoldable pub varint_buffer : ℕ → Option (List ℕ)
unfolding varint_loop unset_last
varint_buffer value =
    if leb value 0x7f
    then some (value % 256 ∷ [])
    else elim (varint_loop 10 value) [ none ↦ none | some bytes ↦ some (unset_last bytes) ]

unfoldable pub pb_encode_varint : {S : Type 0} → ℕ → Action (Ostream S) (Unit {0})
pb_encode_varint value stream = elim (varint_buffer value) [
  | none ↦ fault
  | some bytes ↦ pb_write bytes (length bytes) stream
]

-- `~` on a uint64_t.
abbrev pub complement : ℕ → ℕ
complement x = size_mod - 1 - x

-- An int64_t is its bit pattern: it is negative from 2 ^ 63 on.
unfoldable pub zigzagged : ℕ → ℕ
zigzagged value =
    if leb (2 ^ 63) value then complement (value * 2 % size_mod) else value * 2 % size_mod

unfoldable pub pb_encode_svarint : {S : Type 0} → ℕ → Action (Ostream S) (Unit {0})
pb_encode_svarint value = pb_encode_varint (zigzagged value)

-- `(pb_byte_t)((val >> shift) & 0xFF)`
abbrev pub byte_of : ℕ → ℕ → ℕ
byte_of val shift = bit_and (val / 2 ^ shift) 0xff % 256

abbrev pub fixed32_bytes : ℕ → List ℕ
fixed32_bytes val = byte_of val 0 ∷ byte_of val 8 ∷ byte_of val 16 ∷ byte_of val 24 ∷ []

abbrev pub fixed64_bytes : ℕ → List ℕ
fixed64_bytes val =
    byte_of val 0
    ∷ byte_of val 8
    ∷ byte_of val 16
    ∷ byte_of val 24
    ∷ byte_of val 32
    ∷ byte_of val 40
    ∷ byte_of val 48
    ∷ byte_of val 56
    ∷ []

unfoldable pub pb_encode_fixed32 : {S : Type 0} → ℕ → Action (Ostream S) (Unit {0})
pb_encode_fixed32 val = pb_write (fixed32_bytes val) 4

unfoldable pub pb_encode_fixed64 : {S : Type 0} → ℕ → Action (Ostream S) (Unit {0})
pb_encode_fixed64 val = pb_write (fixed64_bytes val) 8

-- `((uint64_t)field_number << 3) | wiretype`
unfoldable pub tag_value : ℕ → ℕ → ℕ
tag_value wire_type field_number = bit_or (field_number * 2 ^ 3 % size_mod) wire_type

unfoldable pub pb_encode_tag : {S : Type 0} → ℕ → ℕ → Action (Ostream S) (Unit {0})
pb_encode_tag wire_type field_number = pb_encode_varint (tag_value wire_type field_number)

unfoldable pub pb_encode_string : {S : Type 0} → List ℕ → ℕ → Action (Ostream S) (Unit {0})
pb_encode_string buf size = pb_encode_varint size >> pb_write buf size
