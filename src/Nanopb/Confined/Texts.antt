-- ===== src/Nanopb/Confined/Texts.antt =====
-- The decoders of bytes and strings write the field and nothing else.
use swe_capstone.Common.{ℕ, ◌+◌, ◌%◌, ◌^◌, ◌≤◌, Bool-cases, inl, inr, ltb, ltb→le, ◌==◌, arith}
use native.Mathlib.Nat.{le_refl}
use swe_capstone.Nanopb.Stream.{
  ◌>>◌, size_mod, bytes_overflow, size_too_large, no_malloc_support, string_overflow,
  incorrect_fixed_length_size,
}
use swe_capstone.Nanopb.Field.{Field, pb_size_max}
use swe_capstone.Nanopb.EncodeMessage.{is_pointer}
use swe_capstone.Nanopb.Decode.{pb_decode_varint32}
use swe_capstone.Nanopb.DecodeState.{Decoding, put, put_byte, read_into, in_any_case}
use swe_capstone.Nanopb.DecodeValue.{
  bytes_body, pb_dec_bytes, string_body, pb_dec_string, fixed_length_body,
  pb_dec_fixed_length_bytes,
}
use swe_capstone.Nanopb.Safety.Loops.{pb_decode_varint32-Ends}
use swe_capstone.Nanopb.Confined.{
  Constants, Covers, IsReady, Confined, Anyhow, Confined-then, dec_error-Confined,
  in_any_case-Confined,
}
use swe_capstone.Nanopb.Confined.Bytes.{
  Covers-part, StreamKept, put_byte-Confined, put-Confined, memset_zero-Confined,
  read_into-Confined,
}
use swe_capstone.Nanopb.Confined.Values.{TakesByte, read_then, refuse_if, anyhow}

module _ {S : Type 0} (F : Type 0) (R : ℕ → Type 0) (K : Constants) (field : Field) (dest : ℕ)
    (covers : Covers R dest field.data_size) where
  bytes_body-Confined :
      (size : ℕ) (s : Decoding S)
      → IsReady F R K s
      → Confined F R K (Anyhow F R K) s (bytes_body field dest size s)
  unfolding bytes_body
  bytes_body-Confined size s r =
      refuse_if F R K (ltb pb_size_max size) bytes_overflow _ s r (λ small.
        refuse_if F R K (ltb ((size + 4) % size_mod) size) size_too_large _ s r (λ _.
          refuse_if F R K (is_pointer field.atype) no_malloc_support _ s r (λ _.
            refuse_if F R K (ltb field.data_size ((size + 4) % size_mod)) bytes_overflow _ s r
              (λ room. write (
                fits (ltb→le pb_size_max size small)
                  (ltb→le field.data_size ((size + 4) % size_mod) room))))))
    where
      fits :
          size ≤ pb_size_max → (size + 4) % size_mod ≤ field.data_size → size + 4 ≤ field.data_size
      fits small room = omega arith

      write :
          size + 4 ≤ field.data_size
          → Confined F R K (Anyhow F R K) s ((put 4 dest size >> read_into size (dest + 4)) s)
      write room =
          Confined-then F R K (StreamKept F R K s) (Anyhow F R K) s _ _
            (put-Confined F R K 4 dest size s
              (Covers-part R dest field.data_size dest 4 covers (le_refl _) (omega arith)) r)
            (λ x t e r' m.
              read_into-Confined F R K size (dest + 4) t
                (Covers-part R dest field.data_size (dest + 4) size covers (omega arith)
                  (omega arith))
                r')

  pub pb_dec_bytes-Confined :
      (s : Decoding S)
      → IsReady F R K s
      → Confined F R K (TakesByte F R K s) s (pb_dec_bytes field dest s)
  unfolding pb_dec_bytes
  pb_dec_bytes-Confined s r =
      read_then F R K pb_decode_varint32 _ s r (pb_decode_varint32-Ends s.stream r.readable)
        bytes_body-Confined

  string_body-Confined :
      (size : ℕ) (s : Decoding S)
      → IsReady F R K s
      → Confined F R K (Anyhow F R K) s (string_body field dest size s)
  unfolding string_body
  string_body-Confined size s r =
      refuse_if F R K (ltb ((size + 1) % 2 ^ 32) size) size_too_large _ s r (λ small.
        refuse_if F R K (is_pointer field.atype) no_malloc_support _ s r (λ _.
          refuse_if F R K (ltb field.data_size ((size + 1) % 2 ^ 32)) string_overflow _ s r
            (λ room. write (fits (ltb→le _ _ small) (ltb→le _ _ room)))))
    where
      fits :
          size ≤ (size + 1) % 2 ^ 32
          → (size + 1) % 2 ^ 32 ≤ field.data_size
          → size + 1 ≤ field.data_size
      fits small room = omega arith

      write :
          size + 1 ≤ field.data_size
          → Confined F R K
              (Anyhow F R K)
              s
              (in_any_case (read_into size dest s) (put_byte (dest + size) 0))
      write room =
          in_any_case-Confined F R K (Anyhow F R K) s _ _
            (read_into-Confined F R K size dest s
              (Covers-part R dest field.data_size dest size covers (le_refl _) (omega arith)) r)
            (λ t r'.
              put_byte-Confined F R K (dest + size) 0 t
                (covers (dest + size) (omega arith) (omega arith)) r')
            (λ t u p e. tt)

  pub pb_dec_string-Confined :
      (s : Decoding S)
      → IsReady F R K s
      → Confined F R K (TakesByte F R K s) s (pb_dec_string field dest s)
  unfolding pb_dec_string
  pb_dec_string-Confined s r =
      read_then F R K pb_decode_varint32 _ s r (pb_decode_varint32-Ends s.stream r.readable)
        string_body-Confined

  fixed_length_body-Confined :
      (size : ℕ) (s : Decoding S)
      → IsReady F R K s
      → Confined F R K (Anyhow F R K) s (fixed_length_body field dest size s)
  unfolding fixed_length_body
  fixed_length_body-Confined size s r =
      refuse_if F R K (ltb pb_size_max size) bytes_overflow _ s r (λ _.
        elim (Bool-cases (size == 0)) [
          | inl e ↦
              rw e (anyhow F R K s _ (memset_zero-Confined F R K dest field.data_size s covers r))
          | inr e ↦ rw e (elim (Bool-cases (size == field.data_size)) [
            | inl e' ↦ rw e' (read_into-Confined F R K field.data_size dest s covers r)
            | inr e' ↦
                rw e' (dec_error-Confined F R K (Anyhow F R K) incorrect_fixed_length_size s r)
          ])
        ])

  pub pb_dec_fixed_length_bytes-Confined :
      (s : Decoding S)
      → IsReady F R K s
      → Confined F R K (TakesByte F R K s) s (pb_dec_fixed_length_bytes field dest s)
  unfolding pb_dec_fixed_length_bytes
  pb_dec_fixed_length_bytes-Confined s r =
      read_then F R K pb_decode_varint32 _ s r (pb_decode_varint32-Ends s.stream r.readable)
        fixed_length_body-Confined
