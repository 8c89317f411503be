-- ===== src/Nanopb/Trips.antt =====
-- Integer fields of pb_encode.c come back in pb_decode.c: pb_enc_varint, pb_enc_uvarint and
-- pb_enc_svarint against pb_dec_varint, pb_dec_uvarint and pb_dec_svarint.
use swe_capstone.Common.{
  ℕ, ◌+◌, ◌*◌, ◌^◌, ◌≤◌, ◌<◌, ◌≡◌, refl, sym, ap, subst, ◌∙◌, Bool, true, List, ◌++◌, Option,
  lt→ltb, ==_iff, length, All, arith,
}
use swe_capstone.Nanopb.Stream.{ErrorMessage, Outcome, done, Ostream, Istream}
use swe_capstone.Nanopb.Output.Buffer.{filled, write_result}
use swe_capstone.Nanopb.Input.Memory.{reading}
use swe_capstone.Nanopb.Varint.RoundTrip.{IsBacked, decode-encode_varint, decode-encode_svarint}
use swe_capstone.Nanopb.Field.{Field, Memory}
use swe_capstone.Nanopb.EncodeValue.{
  sign_extended, load_signed, pb_enc_varint, pb_enc_uvarint, pb_enc_svarint,
}
use swe_capstone.Nanopb.DecodeState.{Decoding, bytes_of}
use swe_capstone.Nanopb.DecodeValue.{
  cast_signed, signed_value, pb_dec_varint, pb_dec_uvarint, pb_dec_svarint,
}
use swe_capstone.Nanopb.Stored.{
  stored, Image, IsMapped, IsByte, number, bytes_of-number, stored-Image,
}
use swe_capstone.Nanopb.Integers.{
  IsWidth, fits_signed, clamp_signed, number-below, Extends, sign_extended-Extends,
  load_unsigned_lem,
}
use swe_capstone.Nanopb.Clamping.{
  accept_if, landed, pb_dec_uvarint-landed, pb_dec_varint-landed, pb_dec_svarint-landed,
}

power_of_width : (w : ℕ) → IsWidth w → (256 ^ w ≡ 2 ^ (8 * w)) × (256 ^ w ≤ 2 ^ 64)
power_of_width _ IsWidth.one_byte = (refl, omega arith)
power_of_width _ IsWidth.two_bytes = (refl, omega arith)
power_of_width _ IsWidth.four_bytes = (refl, omega arith)
power_of_width _ IsWidth.eight_bytes = (refl, omega arith)

module _ (field : Field) (image : List ℕ) (width : IsWidth field.data_size)
    (size : length image ≡ field.data_size) (form : All IsByte image) where
  number_fits : number image < 256 ^ field.data_size
  number_fits = subst (λ w. number image < 256 ^ w) size (number-below image form)

  extends : Extends field.data_size (number image) (sign_extended field.data_size (number image))
  extends = sign_extended-Extends field.data_size (number image) width number_fits

  -- What is stored is the image.
  image_lands :
      {T : Type 0} (to : Memory) (dest x : ℕ) (stream : Istream T)
      → bytes_of field.data_size x ≡ bytes_of field.data_size (number image)
      → (ok : Bool) → ok ≡ true
      → accept_if ok (landed field.data_size dest x to stream)
        ≡ done tt (record { memory = stored image dest to; stream = stream })
  image_lands to dest x stream same ok e = rw e (
      ap (λ bytes. done tt (record { memory = stored bytes dest to; stream = stream }))
        (same ∙ (ap (λ w. bytes_of w (number image)) (sym size) ∙ bytes_of-number image form)))

  signed_accepted :
      fits_signed field.data_size (sign_extended field.data_size (number image)) ≡ true
  signed_accepted =
      sym (clamp_signed field.data_size _ width extends.small)
      ∙ (==_iff (cast_signed field.data_size _) _).1 extends.clamped

module _ {S T : Type 0} (field : Field) (from : Memory) (src : ℕ) (image : List ℕ)
    (front back : List ℕ) (max_size : ℕ) (e : Option ErrorMessage) (to : Memory) (dest : ℕ)
    (rest : List ℕ) (left : ℕ) (d : Option ErrorMessage) where
  -- The encoder writes bytes that the decoder takes, and the bytes of the field land.
  abbrev pub ComesBack :
      (Ostream S → Outcome (Ostream S) (Unit {0}))
      → (Decoding T → Outcome (Decoding T) (Unit {0}))
      → Type 0
  ComesBack encode decode =
      (bytes : List ℕ) × (encode (filled front back max_size e)
        ≡ write_result front back bytes max_size e)
      × (decode (record { memory = to; stream = reading (bytes ++ rest) (length bytes + left) d })
          ≡ done tt (record { memory = stored image dest to; stream = reading rest left d }))

  module _ (backed : IsBacked front back max_size) (width : IsWidth field.data_size)
      (size : length image ≡ field.data_size) (form : All IsByte image)
      (there : Image image src from) (mapped : IsMapped to dest field.data_size) where
    uvarint_trip : ComesBack (pb_enc_uvarint from field src) (pb_dec_uvarint field dest)
    unfolding pb_enc_uvarint
    uvarint_trip =
        let w = power_of_width field.data_size width in
        let below = number_fits field image width size form in
        let (bytes, form', short, wrote, read) =
          decode-encode_varint {S = S} {T = T} front back rest max_size left e d (number image)
            (omega (arith, below, w.1)) backed in
        (
          bytes,
          rw
              (load_unsigned_lem {S = S} image src field.data_size from
                (filled front back max_size e) width size there)
              wrote,
          pb_dec_uvarint-landed field dest
                (record { memory = to; stream = reading (bytes ++ rest) (length bytes + left) d })
                (reading rest left d) width mapped (number image) read
              ∙ image_lands field image width size form to dest (number image) (reading rest left d)
                  refl _
                  (lt→ltb (number image) (2 ^ (8 * field.data_size)) (omega (arith, below, w.0))),
        )

    varint_trip : ComesBack (pb_enc_varint from field src) (pb_dec_varint field dest)
    unfolding pb_enc_varint load_signed
    varint_trip =
        let x = sign_extended field.data_size (number image) in
        let h = extends field image width size form in
        let (bytes, form', short, wrote, read) =
          decode-encode_varint {S = S} {T = T} front back rest max_size left e d x h.small backed in
        (
          bytes,
          rw
              (load_unsigned_lem {S = S} image src field.data_size from
                (filled front back max_size e) width size there)
              wrote,
          pb_dec_varint-landed field dest
                (record { memory = to; stream = reading (bytes ++ rest) (length bytes + left) d })
                (reading rest left d) width mapped x h.small read
              ∙ image_lands field image width size form to dest (signed_value field.data_size x)
                  (reading rest left d) (ap (bytes_of field.data_size) h.again ∙ h.bytes) _
                  (ap (fits_signed field.data_size) h.again
                    ∙ signed_accepted field image width size form),
        )

    svarint_trip : ComesBack (pb_enc_svarint from field src) (pb_dec_svarint field dest)
    unfolding pb_enc_svarint load_signed
    svarint_trip =
        let x = sign_extended field.data_size (number image) in
        let h = extends field image width size form in
        let (bytes, wrote, read) =
          decode-encode_svarint {S = S} {T = T} front back rest max_size left e d x h.small
            backed in
        (
          bytes,
          rw
              (load_unsigned_lem {S = S} image src field.data_size from
                (filled front back max_size e) width size there)
              wrote,
          pb_dec_svarint-landed field dest
                (record { memory = to; stream = reading (bytes ++ rest) (length bytes + left) d })
                (reading rest left d) width mapped x h.small read
              ∙ image_lands field image width size form to dest x (reading rest left d) h.bytes _
                  (signed_accepted field image width size form),
        )

  -- An integer field of 1, 2, 4 or 8 bytes, signed or not, stands in one memory, and where it is to
  -- go in another memory is mapped. On a buffer stream whose limit lies within its memory and below
  -- the end of size_t, each of pb_enc_uvarint, pb_enc_varint and pb_enc_svarint writes bytes, or
  -- reports a full stream and writes nothing; its decoder takes these bytes and no more, returns
  -- true and changes the other memory just by storing the bytes of the field, which then stand
  -- there.
  pub dec-enc_integers :
      IsBacked front back max_size
      → IsWidth field.data_size
      → length image ≡ field.data_size
      → All IsByte image
      → Image image src from
      → IsMapped to dest field.data_size
      → ComesBack (pb_enc_uvarint from field src) (pb_dec_uvarint field dest)
        × ComesBack (pb_enc_varint from field src) (pb_dec_varint field dest)
        × ComesBack (pb_enc_svarint from field src) (pb_dec_svarint field dest)
        × Image image dest (stored image dest to)
  dec-enc_integers backed width size form there mapped = (
    uvarint_trip backed width size form there mapped,
    varint_trip backed width size form there mapped,
    svarint_trip backed width size form there mapped,
    stored-Image image dest to,
  )
