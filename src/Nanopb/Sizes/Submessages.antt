-- ===== src/Nanopb/Sizes/Submessages.antt =====
-- Submessages of pb_encode.c count what they write, and so does every field encoder.
use swe_capstone.Common.{
  ℕ, ◌+◌, ◌%◌, ◌≡◌, sym, subst, Bool, true, false, List, none, arith, Bool-cases, inl, inr, ltb,
  ==_iff,
}
use mathlib.Core.Path.{fun_ext}
use swe_capstone.Nanopb.Stream.{size_mod, done, failed, fault, stuck, ◌>>◌, Ostream}
use swe_capstone.Nanopb.Output.{pb_ostream_sizing, out_error}
use swe_capstone.Nanopb.Field.{Ltype, Field}
use swe_capstone.Nanopb.Encode.{pb_encode_varint}
use swe_capstone.Nanopb.EncodeMessage.{
  Program, Messages, sent, send, submessage_body, pb_encode_submessage, pb_enc_submessage,
  pb_encoders,
}
use swe_capstone.Nanopb.Sizes.{
  Mirrors, Adds, Outcome-cases, stuck-Mirrors, fault-Mirrors, out_error-Mirrors, fetch-Mirrors,
  if-Mirrors, bind-Mirrors, then-Mirrors, told-Mirrors,
}
use swe_capstone.Nanopb.Sizes.Values.{
  pb_encode_varint-Mirrors, pb_enc_varint-Mirrors, pb_enc_uvarint-Mirrors, pb_enc_svarint-Mirrors,
  pb_enc_fixed32-Mirrors, pb_enc_fixed64-Mirrors, pb_enc_bytes-Mirrors, pb_enc_string-Mirrors,
  pb_enc_fixed_length_bytes-Mirrors,
}

module _ {S : Type 0} (program : Program S) (messages : Messages S) where
  -- The size that was announced is what was sent.
  sent-size :
      (size : ℕ) (status : Bool) (t u t' : Ostream S)
      → sent program size t status u ≡ done tt t'
      → t'.bytes_written ≡ (t.bytes_written + size) % size_mod
  unfolding sent out_error
  sent-size size status t u t' r = ground (arith, ==_iff u.bytes_written size)

  pub send-Adds :
      (fields : List Field) (src size : ℕ) → Adds size (send program messages fields src size)
  unfolding send
  send-Adds fields src size t t' inside r =
      elim (Outcome-cases
        (messages fields src (record t { max_size = size; bytes_written = 0; errmsg = none }))) [
          | inl (x, u, e) ↦ sent-size size true t u t' (rw (e, send) at r)
          | inr (inl (u, e)) ↦ sent-size size false t u t' (rw (e, send) at r)
          | inr (inr (inl e)) ↦ cc (rw (e, send) at r)
          | inr (inr (inr e)) ↦ cc (rw (e, send) at r)
        ]

  submessage_body-Mirrors :
      (fields : List Field) (src size : ℕ)
      → Mirrors (submessage_body program messages fields src size)
  unfolding submessage_body out_error
  submessage_body-Mirrors fields src size = told-Mirrors size _ (λ t t' inside r.
      elim (Bool-cases (ltb t.max_size ((t.bytes_written + size) % size_mod))) [
        | inl full ↦ cc (rw full at r)
        | inr room ↦ send-Adds fields src size t t' inside (rw room at r)
      ])

  -- This needs nothing of what `messages` does: the size is counted on both streams, and checked.
  pub pb_encode_submessage-Mirrors :
      (fields : List Field) (src : ℕ) → Mirrors (pb_encode_submessage program messages fields src)
  unfolding pb_encode_submessage
  pb_encode_submessage-Mirrors fields src =
      elim (Outcome-cases (messages fields src pb_ostream_sizing)) [
        | inl (x, z, e) ↦
            let same : pb_encode_submessage program messages fields src ≡ (
                pb_encode_varint z.bytes_written
                >> submessage_body program messages fields src z.bytes_written) =
              fun_ext (λ t. rw (e, pb_encode_submessage)) in
            subst Mirrors (sym same)
              (then-Mirrors _ _ (pb_encode_varint-Mirrors _) (submessage_body-Mirrors fields src _))
        | inr (inl (z, e)) ↦
            let same : pb_encode_submessage program messages fields src
                ≡ (λ t. failed (record t { errmsg = z.errmsg })) =
              fun_ext (λ t. rw (e, pb_encode_submessage)) in
            subst Mirrors (sym same) (λ shift s t t' a mirror r. cc)
        | inr (inr (inl e)) ↦
            let same : pb_encode_submessage program messages fields src ≡ (λ t. fault) =
              fun_ext (λ t. rw (e, pb_encode_submessage)) in
            subst Mirrors (sym same) fault-Mirrors
        | inr (inr (inr e)) ↦
            let same : pb_encode_submessage program messages fields src ≡ (λ t. stuck) =
              fun_ext (λ t. rw (e, pb_encode_submessage)) in
            subst Mirrors (sym same) stuck-Mirrors
      ]

  pb_enc_submessage-Mirrors :
      (field : Field) (src : ℕ) → Mirrors (pb_enc_submessage program messages field src)
  unfolding pb_enc_submessage
  pb_enc_submessage-Mirrors field src = if-Mirrors _ _ _ (out_error-Mirrors _) (
      bind-Mirrors _ _ (fetch-Mirrors (program.descriptors field.ptr))
        (λ fields. pb_encode_submessage-Mirrors fields src))

  pub pb_encoders-Mirrors :
      (type : Ltype) (field : Field) (src : ℕ)
      → Mirrors (pb_encoders program messages type field src)
  unfolding pb_encoders
  pb_encoders-Mirrors Ltype.varint = pb_enc_varint-Mirrors program.memory
  pb_encoders-Mirrors Ltype.uvarint = pb_enc_uvarint-Mirrors program.memory
  pb_encoders-Mirrors Ltype.svarint = pb_enc_svarint-Mirrors program.memory
  pb_encoders-Mirrors Ltype.fixed32 = pb_enc_fixed32-Mirrors program.memory
  pb_encoders-Mirrors Ltype.fixed64 = pb_enc_fixed64-Mirrors program.memory
  pb_encoders-Mirrors Ltype.bytes = pb_enc_bytes-Mirrors program.memory
  pb_encoders-Mirrors Ltype.string = pb_enc_string-Mirrors program.memory
  pb_encoders-Mirrors Ltype.submessage = pb_enc_submessage-Mirrors
  pb_encoders-Mirrors Ltype.extension = λ field src. fault-Mirrors
  pb_encoders-Mirrors Ltype.fixed_length_bytes = pb_enc_fixed_length_bytes-Mirrors program.memory
