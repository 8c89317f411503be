-- ===== src/Nanopb/Clamping.antt =====
-- What pb_dec_varint, pb_dec_uvarint and pb_dec_svarint of pb_decode.c store and refuse.
use swe_capstone.Common.{
  ℕ, ◌+◌, ◌*◌, ◌%◌, ◌^◌, ◌≤◌, ◌<◌, ◌≡◌, refl, ap, ◌∙◌, Bool, List, ◌++◌, Option, ltb, length,
  if◌then◌else◌, arith,
}
use swe_capstone.Common.Bits.{bit_and-one}
use swe_capstone.Common.Powers.{two_pow-pos}
use swe_capstone.Nanopb.Stream.{ErrorMessage, integer_too_large, done, Action, pure, Istream}
use swe_capstone.Nanopb.Input.Memory.{reading}
use swe_capstone.Nanopb.Decode.{pb_decode_varint}
use swe_capstone.Nanopb.DecodeFixed.{unzigzagged, pb_decode_svarint}
use swe_capstone.Nanopb.Varint.{IsBase128, value_of}
use swe_capstone.Nanopb.Varint.Decoding.{pb_decode_varint-value}
use swe_capstone.Nanopb.Field.{Field, Memory}
use swe_capstone.Nanopb.DecodeState.{Decoding, bytes_of, dec_error}
use swe_capstone.Nanopb.DecodeValue.{
  cast_signed, signed_value, assign_signed, assign_unsigned, assign_by_size, refuse_clamped,
  pb_dec_varint, pb_dec_uvarint, pb_dec_svarint,
}
use swe_capstone.Nanopb.Stored.{stored, IsMapped}
use swe_capstone.Nanopb.Integers.{
  IsWidth, fits_signed, clamp_unsigned, clamp_signed, signed_value-fits, assign_by_size_lem,
  put-stored,
}

module _ {S : Type 0} where
  -- `integer too large` unless it fits.
  abbrev pub accept_if : Bool → Action (Decoding S) (Unit {0})
  accept_if ok = if ok then pure tt else dec_error integer_too_large

  -- The number in the bytes of the field.
  abbrev pub landed : ℕ → ℕ → ℕ → Memory → Istream S → Decoding S
  landed width dest v memory stream = record {
    memory = stored (bytes_of width v) dest memory;
    stream = stream;
  }

  module _ (field : Field) (dest : ℕ) (s : Decoding S) (stream : Istream S)
      (width : IsWidth field.data_size) (mapped : IsMapped s.memory dest field.data_size) where
    assigned_signed :
        (v : ℕ)
        → assign_by_size assign_signed field.data_size dest v
            (record { memory = s.memory; stream = stream })
          ≡ done (cast_signed field.data_size v) (landed field.data_size dest v s.memory stream)
    assigned_signed v =
        ap (λ (m : Action (Decoding S) ℕ). m (record { memory = s.memory; stream = stream }))
          (assign_by_size_lem assign_signed field.data_size dest v width)
        ∙ rw
            (
              put-stored field.data_size dest v (record { memory = s.memory; stream = stream })
                  mapped,
              assign_signed,
            )
            refl

    assigned_unsigned :
        (v : ℕ)
        → assign_by_size assign_unsigned field.data_size dest v
            (record { memory = s.memory; stream = stream })
          ≡ done (v % 2 ^ (8 * field.data_size)) (landed field.data_size dest v s.memory stream)
    assigned_unsigned v =
        ap (λ (m : Action (Decoding S) ℕ). m (record { memory = s.memory; stream = stream }))
          (assign_by_size_lem assign_unsigned field.data_size dest v width)
        ∙ rw
            (
              put-stored field.data_size dest v (record { memory = s.memory; stream = stream })
                  mapped,
              assign_unsigned,
            )
            refl

    signed_refused :
        (v : ℕ)
        → v < 2 ^ 64
        → refuse_clamped v
            (cast_signed field.data_size v)
            (landed field.data_size dest v s.memory stream)
          ≡ accept_if
              (fits_signed field.data_size v)
              (landed field.data_size dest v s.memory stream)
    unfolding refuse_clamped
    signed_refused v lt =
        ap (λ ok. accept_if ok (landed field.data_size dest v s.memory stream))
          (clamp_signed field.data_size v width lt)

    pub pb_dec_uvarint-landed :
        (v : ℕ)
        → pb_decode_varint s.stream ≡ done v stream
        → pb_dec_uvarint field dest s
          ≡ accept_if
              (ltb v (2 ^ (8 * field.data_size)))
              (landed field.data_size dest v s.memory stream)
    unfolding pb_dec_uvarint refuse_clamped
    pb_dec_uvarint-landed v read =
        rw (read, pb_dec_uvarint)
          (rw (assigned_unsigned v) (
            ap (λ ok. accept_if ok (landed field.data_size dest v s.memory stream))
              (clamp_unsigned v (2 ^ (8 * field.data_size)) (two_pow-pos (8 * field.data_size)))))

    pub pb_dec_varint-landed :
        (v : ℕ)
        → v < 2 ^ 64
        → pb_decode_varint s.stream ≡ done v stream
        → pb_dec_varint field dest s
          ≡ accept_if
              (fits_signed field.data_size (signed_value field.data_size v))
              (landed field.data_size dest (signed_value field.data_size v) s.memory stream)
    unfolding pb_dec_varint
    pb_dec_varint-landed v lt read =
        rw (read, pb_dec_varint)
          (rw (assigned_signed (signed_value field.data_size v)) (
            signed_refused (signed_value field.data_size v)
              (signed_value-fits field.data_size v lt)))

    pub pb_dec_svarint-landed :
        (v : ℕ)
        → v < 2 ^ 64
        → pb_decode_svarint s.stream ≡ done v stream
        → pb_dec_svarint field dest s
          ≡ accept_if
              (fits_signed field.data_size v)
              (landed field.data_size dest v s.memory stream)
    unfolding pb_dec_svarint
    pb_dec_svarint-landed v lt read =
        rw (read, pb_dec_svarint) (rw (assigned_signed v) (signed_refused v lt))

unzigzagged-fits : (v : ℕ) → v < 2 ^ 64 → unzigzagged v < 2 ^ 64
unfolding unzigzagged
unzigzagged-fits v lt = ground (arith, bit_and-one v)

-- The varint as a uint64_t.
abbrev pub read_value : List ℕ → ℕ
read_value bytes = value_of bytes % 2 ^ 64

module _ {S : Type 0} (field : Field) (dest : ℕ) (memory : Memory) (bytes rest : List ℕ) (left : ℕ)
    (e : Option ErrorMessage) where
  -- In front of the varint, and behind it with a number in the field.
  abbrev start : Decoding S
  start = record { memory = memory; stream = reading (bytes ++ rest) (length bytes + left) e }

  abbrev end : ℕ → Decoding S
  end v = landed field.data_size dest v memory (reading rest left e)

  -- On a buffer stream that holds a varint of at most 10 bytes, for a field of an integer type of
  -- 1, 2, 4 or 8 bytes whose bytes are mapped: pb_dec_uvarint, pb_dec_varint and pb_dec_svarint
  -- take the varint and store the low bytes of the number; of its two's complement pattern, which
  -- pb_dec_varint cuts to 32 bits first unless the field has 64; or of the number that its ZigZag
  -- code stands for. They return true exactly where the type of the field can hold the number, and
  -- fail with `integer too large` otherwise.
  pub pb_dec_integers_lem :
      IsBase128 bytes
      → length bytes ≤ 10
      → IsWidth field.data_size
      → IsMapped memory dest field.data_size
      → (pb_dec_uvarint field dest start
          ≡ accept_if (ltb (read_value bytes) (2 ^ (8 * field.data_size))) (end (read_value bytes)))
        × (pb_dec_varint field dest start
            ≡ accept_if
                (fits_signed field.data_size (signed_value field.data_size (read_value bytes)))
                (end (signed_value field.data_size (read_value bytes))))
        × (pb_dec_svarint field dest start
            ≡ accept_if
                (fits_signed field.data_size (unzigzagged (read_value bytes)))
                (end (unzigzagged (read_value bytes))))
  unfolding pb_decode_svarint
  pb_dec_integers_lem form short width mapped =
      let value = read_value bytes in
      let small : value < 2 ^ 64 = omega arith in
      let read = pb_decode_varint-value {S = S} bytes rest e left form short in
      (
        pb_dec_uvarint-landed field dest start (reading rest left e) width mapped value read,
        pb_dec_varint-landed field dest start (reading rest left e) width mapped value small read,
        pb_dec_svarint-landed field dest start (reading rest left e) width mapped
            (unzigzagged value) (unzigzagged-fits value small) (rw read refl),
      )
