-- ===== src/Nanopb/DecodeValue.antt =====
-- The field decoders of pb_decode.c for single values, which write the structure in memory.
use swe_capstone.Common.{ℕ, ◌+◌, ◌*◌, ◌%◌, ◌^◌, ltb, ◌==◌, if◌then◌else◌}
use swe_capstone.Nanopb.Stream.{
  bytes_overflow, size_too_large, no_malloc_support, string_overflow, integer_too_large,
  invalid_data_size, incorrect_fixed_length_size, size_mod, Action, ◌>>=◌, ◌>>◌, pure,
}
use swe_capstone.Nanopb.Decode.{pb_decode_varint, pb_decode_varint32}
use swe_capstone.Nanopb.DecodeFixed.{pb_decode_svarint, pb_decode_fixed32, pb_decode_fixed64}
use swe_capstone.Nanopb.Field.{Field, pb_size_max}
use swe_capstone.Nanopb.EncodeValue.{sign_extended}
use swe_capstone.Nanopb.EncodeMessage.{is_pointer}
use swe_capstone.Nanopb.DecodeState.{
  Decoding, on_stream, dec_error, in_any_case, put, put_byte, memset_zero, read_into,
}

-- `(intN_t)value` of an int64_t, both as their bit patterns.
abbrev pub cast_signed : ℕ → ℕ → ℕ
cast_signed width value = sign_extended width (value % 2 ^ (8 * width))

-- The first cast of pb_dec_varint.
abbrev pub signed_value : ℕ → ℕ → ℕ
signed_value data_size value = if data_size == 8 then value else cast_signed 4 value

module _ {S : Type 0} where
  -- `clamped = *(intN_t*)dest = (intN_t)svalue`
  abbrev pub assign_signed : ℕ → ℕ → ℕ → Action (Decoding S) ℕ
  assign_signed width dest svalue = put width dest svalue >> pure (cast_signed width svalue)

  abbrev pub assign_unsigned : ℕ → ℕ → ℕ → Action (Decoding S) ℕ
  assign_unsigned width dest value = put width dest value >> pure (value % 2 ^ (8 * width))

  -- The chain of tests on `data_size`.
  unfoldable pub assign_by_size :
      (ℕ → ℕ → ℕ → Action (Decoding S) ℕ) → ℕ → ℕ → ℕ → Action (Decoding S) ℕ
  assign_by_size assign data_size dest value =
      if data_size == 8
      then assign 8 dest value
      else if data_size == 4
      then assign 4 dest value
      else if data_size == 2
      then assign 2 dest value
      else if data_size == 1
      then assign 1 dest value
      else dec_error invalid_data_size

  -- `if (clamped != value)`
  unfoldable pub refuse_clamped : ℕ → ℕ → Action (Decoding S) (Unit {0})
  refuse_clamped value clamped = if clamped == value then pure tt else dec_error integer_too_large

  unfoldable pub pb_dec_varint : Field → ℕ → Action (Decoding S) (Unit {0})
  unfolding assign_by_size refuse_clamped
  pb_dec_varint field dest = on_stream pb_decode_varint >>= λ value.
      let svalue = signed_value field.data_size value in
      assign_by_size assign_signed field.data_size dest svalue >>= refuse_clamped svalue

  unfoldable pub pb_dec_uvarint : Field → ℕ → Action (Decoding S) (Unit {0})
  unfolding assign_by_size refuse_clamped
  pb_dec_uvarint field dest = on_stream pb_decode_varint >>= λ value.
      assign_by_size assign_unsigned field.data_size dest value >>= refuse_clamped value

  unfoldable pub pb_dec_svarint : Field → ℕ → Action (Decoding S) (Unit {0})
  unfolding assign_by_size refuse_clamped
  pb_dec_svarint field dest = on_stream pb_decode_svarint >>= λ value.
      assign_by_size assign_signed field.data_size dest value >>= refuse_clamped value

  unfoldable pub pb_dec_fixed32 : Field → ℕ → Action (Decoding S) (Unit {0})
  pb_dec_fixed32 field dest = on_stream pb_decode_fixed32 >>= put 4 dest

  unfoldable pub pb_dec_fixed64 : Field → ℕ → Action (Decoding S) (Unit {0})
  pb_dec_fixed64 field dest = on_stream pb_decode_fixed64 >>= put 8 dest

  -- A pb_bytes_array_t: the size in 4 bytes, then the bytes.
  unfoldable pub bytes_body : Field → ℕ → ℕ → Action (Decoding S) (Unit {0})
  bytes_body field dest size =
      let alloc_size = (size + 4) % size_mod in
      if ltb pb_size_max size
      then dec_error bytes_overflow
      else if ltb alloc_size size
      then dec_error size_too_large
      else if is_pointer field.atype
      then dec_error no_malloc_support
      else if ltb field.data_size alloc_size
      then dec_error bytes_overflow
      else (put 4 dest size >> read_into size (dest + 4))

  unfoldable pub pb_dec_bytes : Field → ℕ → Action (Decoding S) (Unit {0})
  unfolding bytes_body
  pb_dec_bytes field dest = on_stream pb_decode_varint32 >>= bytes_body field dest

  -- `size + 1` is computed in the type of `size`, which is uint32_t.
  unfoldable pub string_body : Field → ℕ → ℕ → Action (Decoding S) (Unit {0})
  string_body field dest size =
      let alloc_size = (size + 1) % 2 ^ 32 in
      if ltb alloc_size size
      then dec_error size_too_large
      else if is_pointer field.atype
      then dec_error no_malloc_support
      else if ltb field.data_size alloc_size
      then dec_error string_overflow
      else (λ state. in_any_case (read_into size dest state) (put_byte (dest + size) 0))

  unfoldable pub pb_dec_string : Field → ℕ → Action (Decoding S) (Unit {0})
  unfolding string_body
  pb_dec_string field dest = on_stream pb_decode_varint32 >>= string_body field dest

  unfoldable pub fixed_length_body : Field → ℕ → ℕ → Action (Decoding S) (Unit {0})
  fixed_length_body field dest size =
      if ltb pb_size_max size
      then dec_error bytes_overflow
      else if size == 0
      then memset_zero dest field.data_size
      else if size == field.data_size
      then read_into field.data_size dest
      else dec_error incorrect_fixed_length_size

  unfoldable pub pb_dec_fixed_length_bytes : Field → ℕ → Action (Decoding S) (Unit {0})
  unfolding fixed_length_body
  pb_dec_fixed_length_bytes field dest =
      on_stream pb_decode_varint32 >>= fixed_length_body field dest
