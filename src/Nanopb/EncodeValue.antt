-- ===== src/Nanopb/EncodeValue.antt =====
-- The field encoders of pb_encode.c for single values, which read the structure in memory.
use swe_capstone.Common.{
  ℕ, zero, suc, ◌+◌, ◌-◌, ◌*◌, ◌^◌, true, false, [], ltb, leb, ◌==◌, if◌then◌else◌,
}
use swe_capstone.Nanopb.Stream.{
  invalid_field_type, invalid_data_size, bytes_size_exceeded, size_mod, Action, ◌>>=◌, pure,
  Ostream, wt_varint, wt_64bit, wt_string, wt_32bit,
}
use swe_capstone.Nanopb.Output.{out_error}
use swe_capstone.Nanopb.Encode.{
  pb_encode_varint, pb_encode_svarint, pb_encode_fixed32, pb_encode_fixed64, pb_encode_tag,
  pb_encode_string,
}
use swe_capstone.Nanopb.Field.{Ltype, Atype, Field, Memory, load, load_byte, readable}

module _ {S : Type 0} where
  abbrev pub tag_with : Ltype → ℕ → Action (Ostream S) (Unit {0})
  tag_with Ltype.varint tag = pb_encode_tag wt_varint tag
  tag_with Ltype.uvarint tag = pb_encode_tag wt_varint tag
  tag_with Ltype.svarint tag = pb_encode_tag wt_varint tag
  tag_with Ltype.fixed32 tag = pb_encode_tag wt_32bit tag
  tag_with Ltype.fixed64 tag = pb_encode_tag wt_64bit tag
  tag_with Ltype.bytes tag = pb_encode_tag wt_string tag
  tag_with Ltype.string tag = pb_encode_tag wt_string tag
  tag_with Ltype.submessage tag = pb_encode_tag wt_string tag
  tag_with Ltype.fixed_length_bytes tag = pb_encode_tag wt_string tag
  tag_with Ltype.extension tag = out_error invalid_field_type

  unfoldable pub pb_encode_tag_for_field : Field → Action (Ostream S) (Unit {0})
  pb_encode_tag_for_field field = tag_with field.ltype field.tag

-- `value = *(const intN_t*)src`, as the bit pattern of the int64_t.
abbrev pub sign_extended : ℕ → ℕ → ℕ
sign_extended width value =
    if leb (2 ^ (8 * width - 1)) value then size_mod - 2 ^ (8 * width) + value else value

-- `max_size` of pb_enc_string.
abbrev pub string_limit : Atype → Field → ℕ
string_limit Atype.pointer field = size_mod - 1
string_limit _ field = field.data_size

module _ {S : Type 0} (memory : Memory) where
  -- The chain of tests on `data_size`.
  unfoldable pub load_unsigned : ℕ → ℕ → Action (Ostream S) ℕ
  load_unsigned data_size src =
      if data_size == 1
      then load memory 1 src
      else if data_size == 2
      then load memory 2 src
      else if data_size == 4
      then load memory 4 src
      else if data_size == 8
      then load memory 8 src
      else out_error invalid_data_size

  unfoldable pub load_signed : ℕ → ℕ → Action (Ostream S) ℕ
  load_signed data_size src =
      load_unsigned data_size src >>= λ value. pure (sign_extended data_size value)

  unfoldable pub pb_enc_varint : Field → ℕ → Action (Ostream S) (Unit {0})
  pb_enc_varint field src = load_signed field.data_size src >>= pb_encode_varint

  unfoldable pub pb_enc_uvarint : Field → ℕ → Action (Ostream S) (Unit {0})
  pb_enc_uvarint field src = load_unsigned field.data_size src >>= pb_encode_varint

  unfoldable pub pb_enc_svarint : Field → ℕ → Action (Ostream S) (Unit {0})
  pb_enc_svarint field src = load_signed field.data_size src >>= pb_encode_svarint

  unfoldable pub pb_enc_fixed64 : Field → ℕ → Action (Ostream S) (Unit {0})
  pb_enc_fixed64 field src = load memory 8 src >>= pb_encode_fixed64

  unfoldable pub pb_enc_fixed32 : Field → ℕ → Action (Ostream S) (Unit {0})
  pb_enc_fixed32 field src = load memory 4 src >>= pb_encode_fixed32

  -- The pb_bytes_array_t at `src`: its size in 4 bytes, then its bytes.
  abbrev pub bytes_array : Atype → Field → ℕ → ℕ → Action (Ostream S) (Unit {0})
  bytes_array Atype.static field src size =
      if ltb field.data_size (size + 4)
      then out_error bytes_size_exceeded
      else pb_encode_string (readable memory size (src + 4)) size
  bytes_array _ field src size = pb_encode_string (readable memory size (src + 4)) size

  unfoldable pub pb_enc_bytes : Field → ℕ → Action (Ostream S) (Unit {0})
  pb_enc_bytes field src =
      if src == 0
      then pb_encode_string [] 0
      else (load memory 4 src >>= bytes_array field.atype field src)

  -- `while (size < max_size && *p != '\0')`
  unfoldable pub string_size : ℕ → ℕ → Action (Ostream S) ℕ
  string_size zero p = pure 0
  string_size (suc max_size) p = load_byte memory p >>= λ b. elim (b == 0) [
    | true ↦ pure 0
    | false ↦ (string_size max_size (p + 1) >>= λ size. pure (size + 1))
  ]

  unfoldable pub pb_enc_string : Field → ℕ → Action (Ostream S) (Unit {0})
  pb_enc_string field src =
      if src == 0
      then pb_encode_string [] 0
      else (string_size (string_limit field.atype field) src >>= λ size.
          pb_encode_string (readable memory size src) size)

  unfoldable pub pb_enc_fixed_length_bytes : Field → ℕ → Action (Ostream S) (Unit {0})
  pb_enc_fixed_length_bytes field src =
      pb_encode_string (readable memory field.data_size src) field.data_size
