-- ===== src/Nanopb/Sizes/Prefix.antt =====
-- pb_encode_delimited of pb_encode.c writes the length that pb_get_encoded_size gives, and then a
-- message of that length.
use swe_capstone.Common.{
  ℕ, ◌+◌, ◌%◌, ◌≡◌, List, [], some, length, arith, Bool-cases, Option-cases, inl, inr, ltb,
}
use swe_capstone.Nanopb.Stream.{size_mod, done, ◌>>◌, Ostream}
use swe_capstone.Nanopb.Output.{pb_write, pb_ostream_sizing, out_error}
use swe_capstone.Nanopb.Encode.{pb_encode_varint, varint_buffer}
use swe_capstone.Nanopb.Field.{Field}
use swe_capstone.Nanopb.EncodeMessage.{
  Program, Messages, is_sizing, submessage_body, pb_encode_submessage,
}
use swe_capstone.Nanopb.Message.{pb_encode, pb_encode_delimited, pb_get_encoded_size}
use swe_capstone.Nanopb.Sizes.{Adds, Outcome-cases, continue-done, write_by-size}
use swe_capstone.Nanopb.Sizes.Submessages.{send-Adds}

module _ {S : Type 0} where
  pb_encode_varint-size :
      (value : ℕ) (t t' : Ostream S)
      → pb_encode_varint value t ≡ done tt t'
      → (bytes : List ℕ) × (varint_buffer value ≡ some bytes)
        × (t'.bytes_written ≡ (t.bytes_written + length bytes) % size_mod)
  unfolding pb_encode_varint pb_write
  pb_encode_varint-size value t t' r = elim (Option-cases (varint_buffer value)) [
    | inl e ↦ cc (rw (e, pb_encode_varint) at r)
    | inr (bytes, e) ↦
        (bytes, e, write_by-size bytes (length bytes) t.sink t t' (rw (e, pb_encode_varint) at r))
  ]

module _ {S : Type 0} (program : Program S) (messages : Messages S) (fields : List Field)
    (src : ℕ) where
  -- The body takes the size that was announced, whatever the second pass does.
  submessage_body-Adds : (size : ℕ) → Adds size (submessage_body program messages fields src size)
  unfolding submessage_body out_error pb_write
  submessage_body-Adds size t t' inside r = elim (Bool-cases (is_sizing t.sink)) [
    | inl e ↦ write_by-size [] size t.sink t t' (rw e at r)
    | inr e ↦ elim (Bool-cases (ltb t.max_size ((t.bytes_written + size) % size_mod))) [
      | inl full ↦ cc (rw full at (rw e at r))
      | inr room ↦ send-Adds program messages fields src size t t' inside (rw room at (rw e at r))
    ]
  ]

  submessage-size :
      (t t' z : Ostream S)
      → messages fields src pb_ostream_sizing ≡ done tt z
      → pb_encode_submessage program messages fields src t ≡ done tt t'
      → (bytes : List ℕ) × (varint_buffer z.bytes_written ≡ some bytes)
        × (t'.bytes_written ≡ (t.bytes_written + length bytes + z.bytes_written) % size_mod)
  unfolding pb_encode_submessage
  submessage-size t t' z e r =
      let body = submessage_body program messages fields src z.bytes_written in
      let run : (pb_encode_varint z.bytes_written >> body) t ≡ done tt t' =
        rw (e, pb_encode_submessage) at r in
      let (x, t1, r1, r2) = continue-done (pb_encode_varint z.bytes_written t) (λ _. body) run in
      let (bytes, b, first) = pb_encode_varint-size z.bytes_written t t1 r1 in
      let second = submessage_body-Adds z.bytes_written t1 t' (omega (arith, first)) r2 in
      (bytes, b, omega arith)

module _ {S : Type 0} (program : Program S) (depth links : ℕ) (fields : List Field) (src : ℕ) where
  -- Whatever the callbacks do, where pb_encode_delimited succeeds, pb_get_encoded_size succeeds for
  -- the message, and bytes_written has grown, in size_t, by the length of the varint of the size
  -- that it gives, and by that size.
  pub pb_encode_delimited-size :
      (t t' : Ostream S)
      → pb_encode_delimited program depth links fields src t ≡ done tt t'
      → (size : ℕ) × (bytes : List ℕ) × (pb_get_encoded_size program depth links fields src
          ≡ done size tt)
        × (varint_buffer size ≡ some bytes)
        × (t'.bytes_written ≡ (t.bytes_written + length bytes + size) % size_mod)
  unfolding pb_encode_delimited pb_get_encoded_size pb_encode_submessage
  pb_encode_delimited-size t t' r =
      elim (Outcome-cases (pb_encode program depth links fields src pb_ostream_sizing)) [
        | inl (x, z, e) ↦
            let (bytes, b, grown) =
              submessage-size program (pb_encode program depth links) fields src t t' z e r in
            (z.bytes_written, bytes, rw (e, pb_get_encoded_size), b, grown)
        | inr (inl (z, e)) ↦ cc (rw (e, pb_encode_submessage) at r)
        | inr (inr (inl e)) ↦ cc (rw (e, pb_encode_submessage) at r)
        | inr (inr (inr e)) ↦ cc (rw (e, pb_encode_submessage) at r)
      ]
