-- ===== src/Nanopb/Varint/RoundTrip.antt =====
-- pb_encode.c against pb_decode.c: varints, signed varints and tags read back as they were written.
use swe_capstone.Common.{
  ℕ, ◌+◌, ◌-◌, ◌*◌, ◌%◌, ◌^◌, ◌≤◌, ◌<◌, ◌≡◌, ap, ◌∙◌, List, ◌++◌, Option, length, arith, leb, true,
  false, if◌then◌else◌,
}
use swe_capstone.Common.Bits.{bit_and-one, bit_and-seven, bit_or_low}
use swe_capstone.Common.Int.{ℤ, pos, negsuc}
use swe_capstone.Nanopb.Stream.{ErrorMessage, size_mod, done}
use swe_capstone.Nanopb.Output.Buffer.{filled, write_result, pb_write-filled}
use swe_capstone.Nanopb.Input.Memory.{reading}
use swe_capstone.Nanopb.Encode.{
  pb_encode_varint, zigzagged, pb_encode_svarint, tag_value, pb_encode_tag,
}
use swe_capstone.Nanopb.Decode.{pb_decode_varint, pb_decode_tag}
use swe_capstone.Nanopb.DecodeFixed.{unzigzagged, pb_decode_svarint}
use swe_capstone.Nanopb.Varint.{IsBase128, value_of}
use swe_capstone.Nanopb.Varint.Encoding.{Encoded, varint_buffer-Encoded}
use swe_capstone.Nanopb.Varint.Decoding.{pb_decode_varint-value}
use swe_capstone.Nanopb.Varint.Decoding32.{pb_decode_varint32-value}

-- A buffer stream with room for its `max_size`, far from the end of size_t.
pub record IsBacked (front back : List ℕ) (max_size : ℕ) : Type 0 where
  pub small : max_size < size_mod
  pub backed : max_size ≤ length front + length back
  pub far : length front + 10 < size_mod

module _ {S : Type 0} (front back : List ℕ) (max_size : ℕ) (e : Option ErrorMessage)
    (ok : IsBacked front back max_size) where
  -- pb_encode_varint writes the bytes of the varint, or none of them where they do not fit.
  pub pb_encode_varint-bytes :
      (v : ℕ) (c : Encoded v)
      → pb_encode_varint v (filled {S = S} front back max_size e)
        ≡ write_result front back c.bytes max_size e
  unfolding pb_encode_varint
  pb_encode_varint-bytes v c =
      rw (c.returned, pb_encode_varint)
        (pb_write-filled front back c.bytes max_size e ok.small ok.backed
          (omega (arith, c.short, ok.far)))

-- The integer that an int64_t stands for, and the ZigZag code of an integer.
abbrev pub int64_of : ℕ → ℤ
int64_of w = if leb (2 ^ 63) w then negsuc (2 ^ 64 - w - 1) else pos w

abbrev pub zigzag : ℤ → ℕ
zigzag (pos n) = 2 * n
zigzag (negsuc n) = 2 * n + 1

-- For every int64_t, as its bit pattern: the shift and complement of pb_encode_svarint compute
-- the ZigZag code of the integer that the pattern stands for, the code is a uint64_t, and the
-- shift and complement of pb_decode_svarint undo it.
pub zigzagged_lem :
    (w : ℕ)
    → w < 2 ^ 64
    → (zigzagged w ≡ zigzag (int64_of w)) × (zigzagged w < 2 ^ 64) × (unzigzagged (zigzagged w) ≡ w)
unfolding zigzagged unzigzagged
zigzagged_lem w h = ground (arith, bit_and-one (zigzagged w))

tag_value_lem :
    (wire_type field_number : ℕ)
    → wire_type < 8
    → field_number < 2 ^ 29
    → tag_value wire_type field_number ≡ field_number * 8 + wire_type
unfolding tag_value
tag_value_lem w n hw hn = rw small (bit_or_low 3 n w hw)
  where
    small : n * 2 ^ 3 % size_mod ≡ n * 2 ^ 3
    small = omega arith

-- pb_decode_tag takes a varint apart into the field number and the wire type below it.
pub pb_decode_tag-value :
    {T : Type 0} (bytes rest : List ℕ) (left wire_type field_number : ℕ) (d : Option ErrorMessage)
    → IsBase128 bytes
    → length bytes ≤ 5
    → value_of bytes ≡ field_number * 8 + wire_type
    → wire_type < 8
    → 0 < field_number
    → field_number < 2 ^ 29
    → pb_decode_tag (reading {S = T} (bytes ++ rest) (length bytes + left) d)
      ≡ done
          (record { returned = true; wire_type = wire_type; tag = field_number; eof = false })
          (reading rest left d)
unfolding pb_decode_tag
pb_decode_tag-value {T} bytes rest left w n d form short value hw hpos hn = ground (
  arith,
  pb_decode_varint32-value {S = T} rest d bytes left form short,
  bit_and-seven (n * 8 + w),
)

module _ {S T : Type 0} (front back rest : List ℕ) (max_size left : ℕ)
    (e d : Option ErrorMessage) where
  -- For every uint64_t, on a buffer stream whose limit lies within its memory and below the end of
  -- size_t: pb_encode_varint writes a varint of at most 10 bytes behind what was written, or,
  -- where that passes the limit, reports a full stream and writes nothing; and pb_decode_varint
  -- reads the number back from those bytes and leaves what follows them.
  pub decode-encode_varint :
      (v : ℕ)
      → v < 2 ^ 64
      → IsBacked front back max_size
      → (bytes : List ℕ) × IsBase128 bytes
        × (length bytes ≤ 10)
        × (pb_encode_varint v (filled {S = S} front back max_size e)
            ≡ write_result front back bytes max_size e)
        × (pb_decode_varint (reading {S = T} (bytes ++ rest) (length bytes + left) d)
            ≡ done v (reading rest left d))
  decode-encode_varint v h ok =
      let c = varint_buffer-Encoded v h in
      (c.bytes, c.form, c.short, pb_encode_varint-bytes front back max_size e ok v c, read c)
    where
      read :
          (c : Encoded v)
          → pb_decode_varint (reading {S = T} (c.bytes ++ rest) (length c.bytes + left) d)
            ≡ done v (reading rest left d)
      read c =
          pb_decode_varint-value c.bytes rest d left c.form c.short
          ∙ ap (λ (t : ℕ). done t (reading rest left d)) (omega (arith, c.value))

  -- For every int64_t, as its bit pattern, on a buffer stream whose limit lies within its memory
  -- and below the end of size_t: pb_encode_svarint writes its bytes, or reports a full stream and
  -- writes nothing, and pb_decode_svarint reads the same bit pattern back from them and leaves
  -- what follows.
  pub decode-encode_svarint :
      (w : ℕ)
      → w < 2 ^ 64
      → IsBacked front back max_size
      → (bytes : List ℕ) × (pb_encode_svarint w (filled {S = S} front back max_size e)
          ≡ write_result front back bytes max_size e)
        × (pb_decode_svarint (reading {S = T} (bytes ++ rest) (length bytes + left) d)
            ≡ done w (reading rest left d))
  unfolding pb_encode_svarint pb_decode_svarint
  decode-encode_svarint w h ok =
      let z = zigzagged_lem w h in
      let (bytes, form, short, wrote, read) = decode-encode_varint (zigzagged w) z.1 ok in
      (bytes, wrote, rw read (rw z.2))

  -- For every wire type below 8 and every field number from 1 to 2 ^ 29 - 1, on a buffer stream
  -- whose limit lies within its memory and below the end of size_t: pb_encode_tag writes its
  -- bytes, or reports a full stream and writes nothing, and pb_decode_tag returns true with that
  -- wire type and field number and without end of file, and leaves what follows.
  pub decode-encode_tag :
      (wire_type field_number : ℕ)
      → wire_type < 8
      → 0 < field_number
      → field_number < 2 ^ 29
      → IsBacked front back max_size
      → (bytes : List ℕ) × (pb_encode_tag wire_type field_number
            (filled {S = S} front back max_size e)
          ≡ write_result front back bytes max_size e)
        × (pb_decode_tag (reading {S = T} (bytes ++ rest) (length bytes + left) d)
            ≡ done
                (record { returned = true; wire_type = wire_type; tag = field_number; eof = false })
                (reading rest left d))
  unfolding pb_encode_tag
  decode-encode_tag w n hw hpos hn ok =
      let t : tag_value w n ≡ n * 8 + w = tag_value_lem w n hw hn in
      let c = varint_buffer-Encoded (tag_value w n) (omega (arith, t)) in
      let short : length c.bytes ≤ 5 = c.fits 4 (omega (arith, t)) in
      (
        c.bytes,
        pb_encode_varint-bytes front back max_size e ok _ c,
        pb_decode_tag-value c.bytes rest left w n d c.form short (c.value ∙ t) hw hpos hn,
      )
