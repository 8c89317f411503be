-- ===== src/Tests/Codec.antt =====
-- Pods/nanopb on concrete streams: a device that never reads stands for a callback of the caller.
use swe_capstone.Common.{
  ℕ, ◌+◌, ◌-◌, ◌%◌, ◌^◌, ◌≤◌, ◌<◌, ◌≡◌, refl, List, [], ◌∷◌, ◌++◌, Option, none, some, length, drop,
  true, false, arith,
}
use swe_capstone.Nanopb.Stream.{
  ErrorMessage, varint_overflow, end_of_stream, done, failed, Istream, Ostream, device, wt_string,
}
use swe_capstone.Nanopb.Output.Buffer.{filled, write_result, pb_write-filled}
use swe_capstone.Nanopb.Output.{pb_write}
use swe_capstone.Nanopb.Input.Memory.{reading}
use swe_capstone.Nanopb.Encode.{
  pb_encode_varint, zigzagged, pb_encode_svarint, pb_encode_tag, pb_encode_fixed32,
  pb_encode_fixed64, fixed32_bytes, fixed64_bytes, pb_encode_string, varint_buffer,
}
use swe_capstone.Nanopb.Decode.{
  pb_decode_varint, pb_decode_varint32, pb_decode_tag, pb_skip_field, read_raw_value,
}
use swe_capstone.Nanopb.DecodeFixed.{
  unzigzagged, pb_decode_svarint, pb_decode_fixed32, pb_decode_fixed64,
}
use swe_capstone.Nanopb.Substream.{pb_make_string_substream, pb_close_string_substream}
use swe_capstone.Nanopb.Varint.{IsBase128, value_of}
use swe_capstone.Nanopb.Varint.Decoding.{
  pb_decode_varint-value, pb_decode_varint-overflow, pb_decode_varint-end,
}
use swe_capstone.Nanopb.Varint.Decoding32.{pb_decode_varint32-value, pb_decode_varint32-overflow}
use swe_capstone.Nanopb.Varint.RoundTrip.{
  IsBacked, int64_of, zigzag, zigzagged_lem, decode-encode_varint, decode-encode_svarint,
  decode-encode_tag,
}
use swe_capstone.Nanopb.Fixed.{decode-encode_fixed32, decode-encode_fixed64}
use swe_capstone.Nanopb.Delimited.{pb_close_string_substream_lem, decode-encode_string}
use swe_capstone.Nanopb.Safety.{Ends, Any, Takes}
use swe_capstone.Nanopb.Safety.Fields.{
  TakesTag, value_readers-Ends, pb_skip_field-Ends, read_raw_value-Ends,
}
use swe_capstone.Nanopb.Safety.Substreams.{Shared, pb_make_string_substream-Ends}

-- One byte was written to a buffer of 12 bytes of which 11 may be used.
abbrev front : List ℕ
front = 7 ∷ []

abbrev back : List ℕ
back = 0 ∷ 0 ∷ 0 ∷ 0 ∷ 0 ∷ 0 ∷ 0 ∷ 0 ∷ 0 ∷ 0 ∷ 0 ∷ []

backed : IsBacked front back 11
backed = omega arith

abbrev out : Ostream (Unit {0})
out = filled front back 11 none

abbrev unused : Option ErrorMessage
unused = none

abbrev nine : List ℕ
nine = 9 ∷ []

varint_300 : varint_buffer 300 ≡ some (0xac ∷ 0x02 ∷ [])
unfolding varint_buffer
varint_300 = refl

pb_write-filled_example : pb_write nine 1 out ≡ write_result front back nine 11 none
pb_write-filled_example =
    pb_write-filled front back nine 11 none (omega arith) (omega arith) (omega arith)

decode-encode_varint_example :
    (bytes : List ℕ) × IsBase128 bytes
    × (length bytes ≤ 10)
    × (pb_encode_varint 300 out ≡ write_result front back bytes 11 none)
    × (pb_decode_varint (reading {S = Unit {0}} (bytes ++ nine) (length bytes + 1) none)
        ≡ done 300 (reading nine 1 none))
decode-encode_varint_example =
    decode-encode_varint front back nine 11 1 none none 300 (omega arith) backed

decode-encode_svarint_example :
    (bytes : List ℕ) × (pb_encode_svarint (2 ^ 64 - 2) out ≡ write_result front back bytes 11 none)
    × (pb_decode_svarint (reading {S = Unit {0}} (bytes ++ nine) (length bytes + 1) none)
        ≡ done (2 ^ 64 - 2) (reading nine 1 none))
decode-encode_svarint_example =
    decode-encode_svarint front back nine 11 1 none none (2 ^ 64 - 2) (omega arith) backed

zigzagged_lem_example :
    (zigzagged (2 ^ 64 - 2) ≡ zigzag (int64_of (2 ^ 64 - 2)))
    × (zigzagged (2 ^ 64 - 2) < 2 ^ 64)
    × (unzigzagged (zigzagged (2 ^ 64 - 2)) ≡ 2 ^ 64 - 2)
zigzagged_lem_example = zigzagged_lem (2 ^ 64 - 2) (omega arith)

decode-encode_tag_example :
    (bytes : List ℕ) × (pb_encode_tag 2 77 out ≡ write_result front back bytes 11 none)
    × (pb_decode_tag (reading {S = Unit {0}} (bytes ++ nine) (length bytes + 1) none)
        ≡ done
            (record { returned = true; wire_type = 2; tag = 77; eof = false })
            (reading nine 1 none))
decode-encode_tag_example =
    decode-encode_tag front back nine 11 1 none none 2 77 (omega arith) (omega arith) (omega arith)
      backed

decode-encode_fixed32_example :
    (pb_encode_fixed32 0xdeadbeef out ≡ write_result front back (fixed32_bytes 0xdeadbeef) 11 none)
    × (pb_decode_fixed32 (reading {S = Unit {0}} (fixed32_bytes 0xdeadbeef ++ nine) (4 + 1) none)
        ≡ done 0xdeadbeef (reading nine 1 none))
decode-encode_fixed32_example =
    decode-encode_fixed32 front back nine 11 1 none none 0xdeadbeef (omega arith) backed

decode-encode_fixed64_example :
    (pb_encode_fixed64 0xdeadbeef00000001 out
      ≡ write_result front back (fixed64_bytes 0xdeadbeef00000001) 11 none)
    × (pb_decode_fixed64
          (reading {S = Unit {0}} (fixed64_bytes 0xdeadbeef00000001 ++ nine) (8 + 1) none)
        ≡ done 0xdeadbeef00000001 (reading nine 1 none))
decode-encode_fixed64_example =
    decode-encode_fixed64 front back nine 11 1 none none 0xdeadbeef00000001 (omega arith) backed

abbrev word : List ℕ
word = 0x68 ∷ 0x69 ∷ []

decode-encode_string_example :
    (bytes : List ℕ) × (pb_encode_string word 2 out
      ≡ done tt (filled ((front ++ bytes) ++ word) (drop 2 (drop (length bytes) back)) 11 none))
    × (pb_make_string_substream
          (reading {S = Unit {0}} (bytes ++ (word ++ nine)) (length bytes + (2 + 1)) none)
        ≡ done (reading (word ++ nine) 2 none) (reading (word ++ nine) 1 none))
    × (pb_skip_field wt_string
          (reading {S = Unit {0}} (bytes ++ (word ++ nine)) (length bytes + (2 + 1)) none)
        ≡ done tt (reading nine 1 none))
decode-encode_string_example =
    decode-encode_string front back word nine 11 1 none none (omega arith) backed (omega arith)

-- One byte of the string was read before the substream is closed.
pb_close_string_substream_lem_example :
    pb_close_string_substream
      (reading {S = Unit {0}} (0x69 ∷ nine) 1 none)
      (reading (word ++ nine) 1 none)
    ≡ done tt (reading nine 1 none)
pb_close_string_substream_lem_example =
    pb_close_string_substream_lem nine (word ++ nine) 1 none none (0x69 ∷ [])

abbrev padded : List ℕ
padded = 0xff ∷ 0xff ∷ 0xff ∷ 0xff ∷ 0xff ∷ 0xff ∷ 0xff ∷ 0xff ∷ 0xff ∷ 0x7f ∷ []

pb_decode_varint-value_example :
    pb_decode_varint (reading {S = Unit {0}} (padded ++ nine) (10 + 1) none)
    ≡ done (value_of padded % 2 ^ 64) (reading nine 1 none)
pb_decode_varint-value_example =
    pb_decode_varint-value padded nine none 1 (omega arith) (omega arith)

abbrev high : List ℕ
high = 0xff ∷ 0xff ∷ 0xff ∷ 0xff ∷ 0xff ∷ []

pb_decode_varint-overflow_example :
    pb_decode_varint (reading {S = Unit {0}} ((high ++ high) ++ nine) (10 + 1) none)
    ≡ failed (reading nine 1 (some varint_overflow))
pb_decode_varint-overflow_example =
    pb_decode_varint-overflow (high ++ high) nine none 1 (omega arith) (omega arith)

pb_decode_varint-end_example :
    pb_decode_varint (reading {S = Unit {0}} (high ++ nine) 5 none)
    ≡ failed (reading nine 0 (some end_of_stream))
pb_decode_varint-end_example = pb_decode_varint-end high nine none (omega arith) (omega arith)

-- 2 ^ 32 in five bytes is read as 0.
pb_decode_varint32-value_example :
    pb_decode_varint32
      (reading {S = Unit {0}} (0x80 ∷ 0x80 ∷ 0x80 ∷ 0x80 ∷ 0x10 ∷ nine) (5 + 1) none)
    ≡ done 0 (reading nine 1 none)
pb_decode_varint32-value_example =
    pb_decode_varint32-value nine none (0x80 ∷ 0x80 ∷ 0x80 ∷ 0x80 ∷ 0x10 ∷ []) 1 (omega arith)
      (omega arith)

pb_decode_varint32-overflow_example :
    pb_decode_varint32 (reading {S = Unit {0}} (high ++ nine) (5 + 1) none)
    ≡ failed (reading nine 1 (some varint_overflow))
pb_decode_varint32-overflow_example =
    pb_decode_varint32-overflow nine none high 1 (omega arith) (omega arith)

-- A callback that never delivers.
abbrev broken : Istream (Unit {0})
broken = record { source = device (λ s count. (s, none)) tt; bytes_left = 40; errmsg = none }

value_readers-Ends_example :
    Ends (Takes broken) broken (pb_decode_varint broken)
    × Ends (Takes broken) broken (pb_decode_varint32 broken)
    × Ends (Takes broken) broken (pb_decode_svarint broken)
    × Ends (TakesTag broken) broken (pb_decode_tag broken)
    × Ends (Takes broken) broken (pb_decode_fixed32 broken)
    × Ends (Takes broken) broken (pb_decode_fixed64 broken)
value_readers-Ends_example = value_readers-Ends broken (λ s count. tt)

abbrev tail : Istream (Unit {0})
tail = reading (word ++ nine) 3 none

pb_skip_field-Ends_example : Ends Any tail (pb_skip_field 2 tail)
pb_skip_field-Ends_example = pb_skip_field-Ends 2 tail (omega arith)

read_raw_value-Ends_example : Ends (λ bytes t. length bytes ≤ 10) tail (read_raw_value 0 10 tail)
read_raw_value-Ends_example = read_raw_value-Ends 0 10 tail (omega arith) (omega arith)

pb_make_string_substream-Ends_example : Ends (Shared tail) tail (pb_make_string_substream tail)
pb_make_string_substream-Ends_example = pb_make_string_substream-Ends tail (omega arith)
