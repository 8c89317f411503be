-- ===== src/Nanopb/Fixed.antt =====
-- pb_encode_fixed32 and pb_encode_fixed64 of pb_encode.c against pb_decode_fixed32 and
-- pb_decode_fixed64 of pb_decode.c.
use swe_capstone.Common.{
  ℕ, ◌+◌, ◌*◌, ◌/◌, ◌%◌, ◌^◌, ◌<◌, ◌≡◌, ◌∙◌, List, ◌++◌, Option, arith, bit_or,
}
use native.Mathlib.Nat.{mod-eq_of_lt}
use swe_capstone.Common.Bits.{bit_and-0xff, bit_or_high}
use swe_capstone.Nanopb.Stream.{ErrorMessage, done, Istream}
use swe_capstone.Nanopb.Output.Buffer.{filled, write_result, pb_write-filled}
use swe_capstone.Nanopb.Input.Memory.{reading, pb_read_lem}
use swe_capstone.Nanopb.Encode.{
  byte_of, fixed32_bytes, fixed64_bytes, pb_encode_fixed32, pb_encode_fixed64,
}
use swe_capstone.Nanopb.DecodeFixed.{
  shifted, fixed32_value, fixed64_value, pb_decode_fixed32, pb_decode_fixed64,
}
use swe_capstone.Nanopb.Varint.RoundTrip.{IsBacked}

byte_of_lem : (val shift : ℕ) → byte_of val shift ≡ val / 2 ^ shift % 256
byte_of_lem val shift = omega (arith, bit_and-0xff (val / 2 ^ shift))

-- `|` puts a byte on top of the bits that are there.
put_byte :
    (width r b bits : ℕ)
    → r < 2 ^ bits
    → b * 2 ^ bits < 2 ^ width
    → bit_or r (shifted width b bits) ≡ r + b * 2 ^ bits
put_byte width r b bits hr hb = rw (mod-eq_of_lt hb) (bit_or_high bits b r hr)

-- One more byte of `v` on top of its low bits, at each place of a word.
module _ (v : ℕ) where
  abbrev byte_at : ℕ → ℕ
  byte_at k = v / 2 ^ k % 256

  lowest_32 : shifted 32 (byte_at 0) 0 ≡ v % 2 ^ 8
  lowest_32 = omega arith

  lowest_64 : shifted 64 (byte_at 0) 0 ≡ v % 2 ^ 8
  lowest_64 = omega arith

  put_32_8 : bit_or (v % 2 ^ 8) (shifted 32 (byte_at 8) 8) ≡ v % 2 ^ 16
  put_32_8 = put_byte 32 (v % 2 ^ 8) (byte_at 8) 8 (omega arith) (omega arith) ∙ omega arith

  put_32_16 : bit_or (v % 2 ^ 16) (shifted 32 (byte_at 16) 16) ≡ v % 2 ^ 24
  put_32_16 = put_byte 32 (v % 2 ^ 16) (byte_at 16) 16 (omega arith) (omega arith) ∙ omega arith

  put_32_24 : bit_or (v % 2 ^ 24) (shifted 32 (byte_at 24) 24) ≡ v % 2 ^ 32
  put_32_24 = put_byte 32 (v % 2 ^ 24) (byte_at 24) 24 (omega arith) (omega arith) ∙ omega arith

  put_64_8 : bit_or (v % 2 ^ 8) (shifted 64 (byte_at 8) 8) ≡ v % 2 ^ 16
  put_64_8 = put_byte 64 (v % 2 ^ 8) (byte_at 8) 8 (omega arith) (omega arith) ∙ omega arith

  put_64_16 : bit_or (v % 2 ^ 16) (shifted 64 (byte_at 16) 16) ≡ v % 2 ^ 24
  put_64_16 = put_byte 64 (v % 2 ^ 16) (byte_at 16) 16 (omega arith) (omega arith) ∙ omega arith

  put_64_24 : bit_or (v % 2 ^ 24) (shifted 64 (byte_at 24) 24) ≡ v % 2 ^ 32
  put_64_24 = put_byte 64 (v % 2 ^ 24) (byte_at 24) 24 (omega arith) (omega arith) ∙ omega arith

  put_64_32 : bit_or (v % 2 ^ 32) (shifted 64 (byte_at 32) 32) ≡ v % 2 ^ 40
  put_64_32 = put_byte 64 (v % 2 ^ 32) (byte_at 32) 32 (omega arith) (omega arith) ∙ omega arith

  put_64_40 : bit_or (v % 2 ^ 40) (shifted 64 (byte_at 40) 40) ≡ v % 2 ^ 48
  put_64_40 = put_byte 64 (v % 2 ^ 40) (byte_at 40) 40 (omega arith) (omega arith) ∙ omega arith

  put_64_48 : bit_or (v % 2 ^ 48) (shifted 64 (byte_at 48) 48) ≡ v % 2 ^ 56
  put_64_48 = put_byte 64 (v % 2 ^ 48) (byte_at 48) 48 (omega arith) (omega arith) ∙ omega arith

  put_64_56 : bit_or (v % 2 ^ 56) (shifted 64 (byte_at 56) 56) ≡ v % 2 ^ 64
  put_64_56 = put_byte 64 (v % 2 ^ 56) (byte_at 56) 56 (omega arith) (omega arith) ∙ omega arith

module _ {T : Type 0} (stream : Istream T) where
  fixed32_value_lem : (v : ℕ) → v < 2 ^ 32 → fixed32_value (fixed32_bytes v) stream ≡ done v stream
  unfolding fixed32_value
  fixed32_value_lem v h =
      rw (byte_of_lem v 0, byte_of_lem v 8, byte_of_lem v 16, byte_of_lem v 24)
        (rw (lowest_32 v, put_32_8 v, put_32_16 v, put_32_24 v, mod-eq_of_lt h))

  fixed64_value_lem : (v : ℕ) → v < 2 ^ 64 → fixed64_value (fixed64_bytes v) stream ≡ done v stream
  unfolding fixed64_value
  fixed64_value_lem v h =
      rw
        (
          byte_of_lem v 0,
          byte_of_lem v 8,
          byte_of_lem v 16,
          byte_of_lem v 24,
          byte_of_lem v 32,
          byte_of_lem v 40,
          byte_of_lem v 48,
          byte_of_lem v 56,
        )
        (rw (
          lowest_64 v,
          put_64_8 v,
          put_64_16 v,
          put_64_24 v,
          put_64_32 v,
          put_64_40 v,
          put_64_48 v,
          put_64_56 v,
          mod-eq_of_lt h,
        ))

module _ {S T : Type 0} (front back rest : List ℕ) (max_size left : ℕ)
    (e d : Option ErrorMessage) where
  -- For every uint32_t, on a buffer stream whose limit lies within its memory and below the end of
  -- size_t: pb_encode_fixed32 writes its 4 bytes, or reports a full stream and writes nothing, and
  -- pb_decode_fixed32 reads the number back from them and leaves what follows.
  pub decode-encode_fixed32 :
      (v : ℕ)
      → v < 2 ^ 32
      → IsBacked front back max_size
      → (pb_encode_fixed32 v (filled {S = S} front back max_size e)
          ≡ write_result front back (fixed32_bytes v) max_size e)
        × (pb_decode_fixed32 (reading {S = T} (fixed32_bytes v ++ rest) (4 + left) d)
            ≡ done v (reading rest left d))
  unfolding pb_encode_fixed32 pb_decode_fixed32
  decode-encode_fixed32 v h ok = (
    pb_write-filled front back (fixed32_bytes v) max_size e ok.small ok.backed
        (omega (arith, ok.far)),
    rw (pb_read_lem {S = T} d (fixed32_bytes v) rest left)
        (fixed32_value_lem (reading rest left d) v h),
  )

  -- For every uint64_t, on a buffer stream whose limit lies within its memory and below the end of
  -- size_t: pb_encode_fixed64 writes its 8 bytes, or reports a full stream and writes nothing, and
  -- pb_decode_fixed64 reads the number back from them and leaves what follows.
  pub decode-encode_fixed64 :
      (v : ℕ)
      → v < 2 ^ 64
      → IsBacked front back max_size
      → (pb_encode_fixed64 v (filled {S = S} front back max_size e)
          ≡ write_result front back (fixed64_bytes v) max_size e)
        × (pb_decode_fixed64 (reading {S = T} (fixed64_bytes v ++ rest) (8 + left) d)
            ≡ done v (reading rest left d))
  unfolding pb_encode_fixed64 pb_decode_fixed64
  decode-encode_fixed64 v h ok = (
    pb_write-filled front back (fixed64_bytes v) max_size e ok.small ok.backed
        (omega (arith, ok.far)),
    rw (pb_read_lem {S = T} d (fixed64_bytes v) rest left)
        (fixed64_value_lem (reading rest left d) v h),
  )
