-- ===== src/Tests/Integers.antt =====
-- The theorems about integer and string fields on fields of 4 bytes.
use swe_capstone.Common.{
  ℕ, ◌≡◌, refl, List, [], ◌∷◌, none, some, get_elem?, ltb, if◌then◌else◌, arith, ◌^◌, ◌+◌, ◌++◌,
  drop, length,
}
use swe_capstone.Nanopb.Stream.{done}
use swe_capstone.Common.Int.{pos}
use swe_capstone.Nanopb.Output.Buffer.{filled}
use swe_capstone.Nanopb.Strings.{dec-enc_string}
use swe_capstone.Nanopb.DecodeFixed.{unzigzagged}
use swe_capstone.Nanopb.DecodeValue.{
  pb_dec_string, signed_value, pb_dec_uvarint, pb_dec_varint, pb_dec_svarint,
}
use swe_capstone.Nanopb.EncodeValue.{pb_enc_string, pb_enc_uvarint, pb_enc_varint, pb_enc_svarint}
use swe_capstone.Nanopb.Field.{Ltype, Htype, Atype, Field, Memory}
use swe_capstone.Nanopb.Input.Memory.{reading}
use swe_capstone.Nanopb.DecodeState.{Decoding, zeros}
use swe_capstone.Nanopb.Stored.{stored, Image, IsMapped}
use swe_capstone.Nanopb.Integers.{IsWidth, fits_signed}
use swe_capstone.Nanopb.Clamping.{accept_if, landed, read_value, pb_dec_integers_lem}
use swe_capstone.Nanopb.Trips.{ComesBack, dec-enc_integers}
use swe_capstone.Tests.Messages.{count_field}

-- Four bytes from address 0 on.
abbrev four : Memory
four address = if ltb address 4 then some 204 else none

four-IsMapped : IsMapped four 0 4
four-IsMapped a le lt e = ground arith

-- 300 as a varint, and a byte behind it.
abbrev three_hundred : List ℕ
three_hundred = 172 ∷ 2 ∷ []

abbrev after : ℕ → Decoding (Unit {0})
after v = landed 4 0 v four (reading (7 ∷ []) 1 none)

abbrev before : Decoding (Unit {0})
before = record { memory = four; stream = reading (172 ∷ 2 ∷ 7 ∷ []) 3 none }

pb_dec_integers_lem_example :
    (pb_dec_uvarint count_field 0 before
      ≡ accept_if (ltb (read_value three_hundred) (2 ^ 32)) (after (read_value three_hundred)))
    × (pb_dec_varint count_field 0 before
        ≡ accept_if
            (fits_signed 4 (signed_value 4 (read_value three_hundred)))
            (after (signed_value 4 (read_value three_hundred))))
    × (pb_dec_svarint count_field 0 before
        ≡ accept_if
            (fits_signed 4 (unzigzagged (read_value three_hundred)))
            (after (unzigzagged (read_value three_hundred))))
pb_dec_integers_lem_example =
    pb_dec_integers_lem count_field 0 four three_hundred (7 ∷ []) 1 none
      (omega arith, omega arith, omega arith) (omega arith) IsWidth.four_bytes four-IsMapped

-- -2 in four bytes.
abbrev minus_two : List ℕ
minus_two = 254 ∷ 255 ∷ 255 ∷ 255 ∷ []

abbrev source : Memory
source address = get_elem? minus_two address

-- An output buffer of 16 bytes.
abbrev room : List ℕ
room = zeros 16

dec-enc_integers_example :
    ComesBack {S = Unit {0}} {T = Unit {0}} count_field source 0 minus_two [] room 16 none four 0
      (7 ∷ [])
      1
      none
      (pb_enc_uvarint source count_field 0)
      (pb_dec_uvarint count_field 0)
    × ComesBack {S = Unit {0}} {T = Unit {0}} count_field source 0 minus_two [] room 16 none four 0
        (7 ∷ [])
        1
        none
        (pb_enc_varint source count_field 0)
        (pb_dec_varint count_field 0)
    × ComesBack {S = Unit {0}} {T = Unit {0}} count_field source 0 minus_two [] room 16 none four 0
        (7 ∷ [])
        1
        none
        (pb_enc_svarint source count_field 0)
        (pb_dec_svarint count_field 0)
    × Image minus_two 0 (stored minus_two 0 four)
dec-enc_integers_example =
    dec-enc_integers count_field source 0 minus_two [] room 16 none four 0 (7 ∷ []) 1 none
      (record { small = omega arith; backed = omega arith; far = omega arith }) IsWidth.four_bytes
      refl (omega arith, (omega arith, (omega arith, (omega arith, tt))))
      (refl, (refl, (refl, (refl, tt)))) four-IsMapped

-- "Hi" in a field of 4 bytes.
abbrev name_field : Field
name_field = record {
  tag = 4;
  ltype = Ltype.string;
  htype = Htype.required;
  atype = Atype.static;
  data_offset = 0;
  size_offset = pos 0;
  data_size = 4;
  array_size = 0;
  ptr = 0;
}

abbrev greeting : List ℕ
greeting = 72 ∷ 105 ∷ []

abbrev written_greeting : Memory
written_greeting address = get_elem? (9 ∷ 72 ∷ 105 ∷ 0 ∷ []) address

dec-enc_string_example :
    (bytes : List ℕ) × (pb_enc_string written_greeting name_field 1
        (filled {S = Unit {0}} [] room 16 none)
      ≡ done tt (filled (([] ++ bytes) ++ greeting) (drop 2 (drop (length bytes) room)) 16 none))
    × (pb_dec_string name_field 0 (record {
      memory = four;
      stream = reading {S = Unit {0}} (bytes ++ (greeting ++ (7 ∷ []))) (length bytes + 3) none;
    })
        ≡ done tt (record {
          memory = stored (72 ∷ 105 ∷ 0 ∷ []) 0 four;
          stream = reading (7 ∷ []) 1 none;
        }))
dec-enc_string_example =
    dec-enc_string name_field written_greeting 1 greeting [] room 16 none four 0 (7 ∷ []) 1 none
      refl (λ z. omega (arith, z)) ((λ z. omega (arith, z)), ((λ z. omega (arith, z)), tt))
      (omega arith) (omega arith) (refl, (refl, (refl, tt)))
      (λ a le lt. four-IsMapped a le (omega arith))
      (record { small = omega arith; backed = omega arith; far = omega arith }) (omega arith)
