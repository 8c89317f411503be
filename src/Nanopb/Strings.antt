-- ===== src/Nanopb/Strings.antt =====
-- String fields: pb_enc_string of pb_encode.c against pb_dec_string of pb_decode.c.
use swe_capstone.Common.{
  ℕ, zero, suc, ◌+◌, ◌%◌, ◌^◌, ◌≤◌, ◌<◌, ◌≡◌, ◌≢◌, refl, ap, ◌∙◌, Bool-cases, inl, inr, false, List,
  [], ◌∷◌, ◌++◌, Option, le→ltb, ◌==◌, ==_iff, length, drop, All, arith,
}
use swe_capstone.Nanopb.Stream.{ErrorMessage, done, continue, Ostream}
use swe_capstone.Nanopb.Output.Buffer.{filled}
use swe_capstone.Nanopb.Input.Memory.{reading, pb_read_lem}
use swe_capstone.Nanopb.Encode.{pb_encode_string}
use swe_capstone.Nanopb.Varint.Encoding.{varint_buffer-Encoded}
use swe_capstone.Nanopb.Varint.RoundTrip.{IsBacked}
use swe_capstone.Nanopb.Delimited.{string_written, prefix_read}
use swe_capstone.Nanopb.Field.{Atype, Field, Memory, load_byte, readable}
use swe_capstone.Nanopb.EncodeValue.{string_limit, string_size, pb_enc_string}
use swe_capstone.Nanopb.EncodeMessage.{is_pointer}
use swe_capstone.Nanopb.DecodeState.{in_any_case, read_into}
use swe_capstone.Nanopb.DecodeValue.{string_body, pb_dec_string}
use swe_capstone.Nanopb.Stored.{stored, Image, IsMapped, put_bytes-stored, put_byte-stored}

abbrev pub IsText : List ℕ → Type 0
IsText text = All (λ b. b ≢ 0) text

string_size_lem :
    {S : Type 0} (text : List ℕ) (src max_size : ℕ) (memory : Memory) (t : Ostream S)
    → IsText text
    → length text < max_size
    → Image (text ++ (0 ∷ [])) src memory
    → string_size memory max_size src t ≡ done (length text) t
unfolding string_size
string_size_lem text src zero memory t form lt h = absurd (omega arith)
string_size_lem [] src (suc max_size) memory t form lt h = rw (h.0, load_byte) refl
string_size_lem (b ∷ text) src (suc max_size) memory t form lt h =
    let more : (b == 0) ≡ false = elim (Bool-cases (b == 0)) [
      | inl e ↦ absurd (form.0 ((==_iff b 0).0 e))
      | inr e ↦ e
    ] in
    rw (h.0, load_byte)
      (rw (more, continue)
        (rw (string_size_lem text (src + 1) max_size memory t form.1 (omega arith) h.1)
          (ap (λ (n : ℕ). done n t) (omega arith))))

readable_lem :
    (text tail : List ℕ) (src : ℕ) (memory : Memory)
    → Image (text ++ tail) src memory
    → readable memory (length text) src ≡ text
unfolding readable
readable_lem [] tail src memory h = refl
readable_lem (b ∷ text) tail src memory h =
    rw (h.0, readable) (ap (λ bytes. b ∷ bytes) (readable_lem text tail (src + 1) memory h.1))

module _ {T : Type 0} (field : Field) (text : List ℕ) (to : Memory) (dest : ℕ) (rest : List ℕ)
    (left : ℕ) (d : Option ErrorMessage) where
  -- The body of pb_dec_string, where the text and its end fit.
  string_body_lem :
      is_pointer field.atype ≡ false
      → length text + 1 ≤ field.data_size
      → length text + 1 < 2 ^ 32
      → IsMapped to dest (length text + 1)
      → string_body field dest
          (length text)
          (record { memory = to; stream = reading {S = T} (text ++ rest) (length text + left) d })
        ≡ done tt
            (record { memory = stored (text ++ (0 ∷ [])) dest to; stream = reading rest left d })
  unfolding string_body
  string_body_lem static fits small mapped =
      let size : (length text + 1) % 2 ^ 32 ≡ length text + 1 = omega arith in
      let whole = le→ltb (length text + 1) (length text) (omega arith) in
      let room = le→ltb field.data_size (length text + 1) fits in
      rw (size, whole, static, room)
        (rw (pb_read_lem {S = T} d text rest left, read_into)
          (rw
            (
              put_bytes-stored text dest
                  (record { memory = to; stream = reading {S = T} rest left d })
                  (λ a le lt. mapped a le (omega arith)),
              in_any_case,
            )
            (put_byte-stored text 0 dest
              (record { memory = to; stream = reading {S = T} rest left d }) mapped)))

module _ {S : Type 0} (field : Field) (from : Memory) (src : ℕ) (text : List ℕ) where
  string_sent :
      field.atype ≡ Atype.static
      → src ≢ 0
      → IsText text
      → length text + 1 ≤ field.data_size
      → Image (text ++ (0 ∷ [])) src from
      → (t : Ostream S) → pb_enc_string from field src t ≡ pb_encode_string text (length text) t
  unfolding pb_enc_string
  string_sent static nonnull form fits there t =
      let some_src : (src == 0) ≡ false = elim (Bool-cases (src == 0)) [
        | inl e' ↦ absurd (nonnull ((==_iff src 0).0 e'))
        | inr e' ↦ e'
      ] in
      rw some_src (
        rw (static, string_limit)
          (rw (string_size_lem text src field.data_size from t form (omega arith) there, continue)
            (ap (λ bytes. pb_encode_string bytes (length text) t)
              (readable_lem text (0 ∷ []) src from there))))

module _ {S T : Type 0} (field : Field) (from : Memory) (src : ℕ) (text front back : List ℕ)
    (max_size : ℕ) (e : Option ErrorMessage) (to : Memory) (dest : ℕ) (rest : List ℕ) (left : ℕ)
    (d : Option ErrorMessage) where
  -- A string without a 0 inside, with the 0 at its end, stands in a string field of one memory that
  -- is no pointer; it is shorter than 2 ^ 32 - 1 bytes and fits the field, and where it is to go in
  -- another memory is mapped. Where the string and 5 bytes more fit a buffer stream whose limit lies
  -- within its memory, pb_enc_string writes a length prefix and the string; pb_dec_string takes just
  -- these bytes, returns true, and changes the other memory just by storing the string with its 0.
  pub dec-enc_string :
      field.atype ≡ Atype.static
      → src ≢ 0
      → IsText text
      → length text + 1 ≤ field.data_size
      → length text + 1 < 2 ^ 32
      → Image (text ++ (0 ∷ [])) src from
      → IsMapped to dest (length text + 1)
      → IsBacked front back max_size
      → length front + (5 + length text) ≤ max_size
      → (bytes : List ℕ) × (pb_enc_string from field src (filled {S = S} front back max_size e)
          ≡ done tt (
              filled
                ((front ++ bytes) ++ text)
                (drop (length text) (drop (length bytes) back))
                max_size
                e))
        × (pb_dec_string field dest (record {
          memory = to;
          stream =
              reading {S = T} (bytes ++ (text ++ rest)) (length bytes + (length text + left)) d;
        })
            ≡ done tt (record {
              memory = stored (text ++ (0 ∷ [])) dest to;
              stream = reading rest left d;
            }))
  unfolding pb_dec_string
  dec-enc_string static nonnull form fits small there mapped backed room =
      let c = varint_buffer-Encoded (length text) (omega arith) in
      let short : length c.bytes ≤ 5 = c.fits 4 (omega arith) in
      (
        c.bytes,
        string_sent field from src text static nonnull form fits there
              (filled front back max_size e)
            ∙ string_written front back text max_size e c backed (omega arith),
        rw
            (
              prefix_read {T = T} c (text ++ rest) (length text + left) d (omega arith),
              pb_dec_string,
            )
            (string_body_lem field text to dest rest left d (ap is_pointer static) fits small
              mapped),
      )
