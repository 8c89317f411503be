-- ===== src/Nanopb/Confined/Fields.antt =====
-- The values of a message, and the messages inside, are decoded in their places of the layout.
use swe_capstone.Common.{
  refl, true, ℕ, ◌≤◌, ◌<◌, ◌≡◌, Bool-cases, inl, inr, true, false, List, Option-cases, ◌==◌, arith,
  if◌then◌else◌,
}
use swe_capstone.Nanopb.Stream.{invalid_field_descriptor, ◌>>=◌, ◌>>◌, pure, Outcome}
use swe_capstone.Nanopb.Substream.{pb_make_string_substream}
use swe_capstone.Nanopb.Field.{Ltype, Htype, Field, is_extension}
use swe_capstone.Nanopb.EncodeMessage.{fetch, is_packable}
use swe_capstone.Nanopb.DecodeState.{Decoding, memset_zero}
use swe_capstone.Nanopb.DecodeField.{
  Submessages, Handlers, is_repeated, is_submessage, submessage_call, pb_dec_submessage,
  pb_decoders, close_with,
}
use swe_capstone.Nanopb.Layout.{ItemFits}
use swe_capstone.Nanopb.Safety.Substreams.{Shared, pb_make_string_substream-Ends}
use swe_capstone.Nanopb.Confined.{
  Covers, Constants, IsReady, Confined, Anyhow, Stays-refl, Confined-then, Confined-weaken,
  on_stream-Confined, dec_error-Confined,
}
use swe_capstone.Nanopb.Confined.Bytes.{memset_zero-Confined}
use swe_capstone.Nanopb.Confined.Values.{
  TakesByte, pb_dec_varint-Confined, pb_dec_uvarint-Confined, pb_dec_svarint-Confined,
  pb_dec_fixed32-Confined, pb_dec_fixed64-Confined,
}
use swe_capstone.Nanopb.Confined.Texts.{
  pb_dec_bytes-Confined, pb_dec_string-Confined, pb_dec_fixed_length_bytes-Confined,
}
use swe_capstone.Nanopb.Confined.Defaults.{fetch-Confined, both-Confined}
use swe_capstone.Nanopb.Confined.Substreams.{on_sub, close_with-Confined, substream-Confined}

-- What is known of the messages inside: on fewer than `bound` bytes they are decoded in their
-- layout, and their default values are.
pub record Inner {S : Type 0} (F : Type 0) (R : ℕ → Type 0) (K : Constants)
    (Within : List Field → ℕ → Type 0) (submessages : Submessages S) (bound : ℕ) : Type 0 where
  pub decodes :
      (fields : List Field) (dest : ℕ) (s : Decoding S)
      → Within fields dest
      → s.stream.bytes_left < bound
      → IsReady F R K s
      → Confined F R K (Anyhow F R K) s (submessages.decode fields dest s)
  pub decodes_noinit :
      (fields : List Field) (dest : ℕ) (s : Decoding S)
      → Within fields dest
      → s.stream.bytes_left < bound
      → IsReady F R K s
      → Confined F R K (Anyhow F R K) s (submessages.decode_noinit fields dest s)
  pub defaults :
      (fields : List Field) (dest : ℕ) (s : Decoding S)
      → Within fields dest
      → IsReady F R K s
      → Confined F R K (Anyhow F R K) s (submessages.set_to_defaults fields dest s)

module _ {S : Type 0} (F : Type 0) (R : ℕ → Type 0) (K : Constants) (handlers : Handlers S)
    (submessages : Submessages S) (Within : List Field → ℕ → Type 0) (bound : ℕ)
    (inner : Inner F R K Within submessages bound) where
  submessage_call-Confined :
      (htype : Htype) (fields : List Field) (dest : ℕ) (s : Decoding S)
      → Within fields dest
      → s.stream.bytes_left < bound
      → IsReady F R K s
      → Confined F R K (Anyhow F R K) s (submessage_call handlers submessages htype fields dest s)
  submessage_call-Confined htype fields dest s w lt r = elim (Bool-cases (is_repeated htype)) [
    | inl e ↦ rw e (inner.decodes fields dest s w lt r)
    | inr e ↦ rw e (inner.decodes_noinit fields dest s w lt r)
  ]

  pb_dec_submessage-Confined :
      (field : Field) (dest : ℕ) (s : Decoding S)
      → ItemFits F R K handlers.descriptors Within Ltype.submessage field dest
      → s.stream.bytes_left ≤ bound
      → IsReady F R K s
      → Confined F R K (Anyhow F R K) s (pb_dec_submessage handlers submessages field dest s)
  unfolding pb_dec_submessage
  pb_dec_submessage-Confined field dest s (missing, within) le r =
      elim (Bool-cases (field.ptr == 0)) [
        | inl e ↦ rw e (
            Confined-then F R K (λ sub t. Shared s.stream sub t.stream) (Anyhow F R K) s _ _
              (on_stream-Confined F R K (Shared s.stream) pb_make_string_substream s r
                (pb_make_string_substream-Ends s.stream r.readable))
              (λ sub t p r' m.
                dec_error-Confined F R K (Anyhow F R K) invalid_field_descriptor t r'))
        | inr e ↦ rw e (elim (Option-cases (handlers.descriptors field.ptr)) [
          | inl gone ↦ rw gone (
              Confined-then F R K (λ sub t. Shared s.stream sub t.stream) (Anyhow F R K) s _ _
                (on_stream-Confined F R K (Shared s.stream) pb_make_string_substream s r
                  (pb_make_string_substream-Ends s.stream r.readable))
                (λ sub t p r' m. missing gone))
          | inr (fields, there) ↦ rw there (
              substream-Confined F R K
                (λ sub. submessage_call handlers submessages field.htype fields dest) close_with s r
                (λ sub t r' less.
                  submessage_call-Confined field.htype fields dest (on_sub F R K sub t)
                    (within fields there) (omega arith) r')
                (λ status sub sub' u o a. close_with-Confined F R K status s u sub sub' r o a))
        ])
      ]

  takes_byte :
      (s : Decoding S) (o : Outcome (Decoding S) (Unit {0}))
      → Confined F R K (TakesByte F R K s) s o
      → Confined F R K (Anyhow F R K) s o
  takes_byte s o h =
      Confined-weaken F R K (TakesByte F R K s) (Anyhow F R K) s s o h (Stays-refl F R K s)
        (λ x t p m. tt)

  -- The decoders of packed values take at least a byte.
  pub packable-Confined :
      (ltype : Ltype) (field : Field) (dest : ℕ) (s : Decoding S)
      → is_packable ltype ≡ true
      → ItemFits F R K handlers.descriptors Within ltype field dest
      → IsReady F R K s
      → Confined F R K (TakesByte F R K s) s (pb_decoders handlers submessages ltype field dest s)
  packable-Confined Ltype.varint field dest s e h r = pb_dec_varint-Confined F R K field dest h s r
  packable-Confined Ltype.uvarint field dest s e h r =
      pb_dec_uvarint-Confined F R K field dest h s r
  packable-Confined Ltype.svarint field dest s e h r =
      pb_dec_svarint-Confined F R K field dest h s r
  packable-Confined Ltype.fixed32 field dest s e h r =
      pb_dec_fixed32-Confined F R K field dest s h r
  packable-Confined Ltype.fixed64 field dest s e h r =
      pb_dec_fixed64-Confined F R K field dest s h r
  packable-Confined Ltype.bytes field dest s e h r = cc
  packable-Confined Ltype.string field dest s e h r = cc
  packable-Confined Ltype.submessage field dest s e h r = cc
  packable-Confined Ltype.extension field dest s e h r = cc
  packable-Confined Ltype.fixed_length_bytes field dest s e h r = cc

  -- PB_DECODERS
  pub pb_decoders-Confined :
      (ltype : Ltype) (field : Field) (dest : ℕ) (s : Decoding S)
      → is_extension ltype ≡ false
      → ItemFits F R K handlers.descriptors Within ltype field dest
      → s.stream.bytes_left ≤ bound
      → IsReady F R K s
      → Confined F R K (Anyhow F R K) s (pb_decoders handlers submessages ltype field dest s)
  pb_decoders-Confined Ltype.varint field dest s e h le r =
      takes_byte s _ (pb_dec_varint-Confined F R K field dest h s r)
  pb_decoders-Confined Ltype.uvarint field dest s e h le r =
      takes_byte s _ (pb_dec_uvarint-Confined F R K field dest h s r)
  pb_decoders-Confined Ltype.svarint field dest s e h le r =
      takes_byte s _ (pb_dec_svarint-Confined F R K field dest h s r)
  pb_decoders-Confined Ltype.fixed32 field dest s e h le r =
      takes_byte s _ (pb_dec_fixed32-Confined F R K field dest s h r)
  pb_decoders-Confined Ltype.fixed64 field dest s e h le r =
      takes_byte s _ (pb_dec_fixed64-Confined F R K field dest s h r)
  pb_decoders-Confined Ltype.bytes field dest s e h le r =
      takes_byte s _ (pb_dec_bytes-Confined F R K field dest h s r)
  pb_decoders-Confined Ltype.string field dest s e h le r =
      takes_byte s _ (pb_dec_string-Confined F R K field dest h s r)
  pb_decoders-Confined Ltype.submessage field dest s e h le r =
      pb_dec_submessage-Confined field dest s h le r
  pb_decoders-Confined Ltype.extension field dest s e h le r = cc
  pb_decoders-Confined Ltype.fixed_length_bytes field dest s e h le r =
      takes_byte s _ (pb_dec_fixed_length_bytes-Confined F R K field dest h s r)

  -- A message of a oneof is cleared first.
  pub clear_message :
      (ltype : Ltype) (field : Field) (address : ℕ) (s : Decoding S)
      → (is_submessage ltype ≡ true → Covers R address field.data_size)
      → ItemFits F R K handlers.descriptors Within ltype field address
      → IsReady F R K s
      → Confined F R K (Anyhow F R K) s (
          (if is_submessage ltype
              then (memset_zero address field.data_size
                  >> (fetch (handlers.descriptors field.ptr) >>= λ fields.
                      submessages.set_to_defaults fields address))
              else pure tt)
            s)
  clear_message Ltype.submessage field address s c (missing, within) r =
      both-Confined F R K handlers.descriptors s _ _
        (memset_zero-Confined F R K address field.data_size s (c refl) r)
        (λ t r'.
          fetch-Confined F R K handlers.descriptors (Anyhow F R K) (handlers.descriptors field.ptr)
            _ t missing (λ fields e. inner.defaults fields address t (within fields e) r'))
  clear_message Ltype.varint field address s c h r = (tt, r, Stays-refl F R K s)
  clear_message Ltype.uvarint field address s c h r = (tt, r, Stays-refl F R K s)
  clear_message Ltype.svarint field address s c h r = (tt, r, Stays-refl F R K s)
  clear_message Ltype.fixed32 field address s c h r = (tt, r, Stays-refl F R K s)
  clear_message Ltype.fixed64 field address s c h r = (tt, r, Stays-refl F R K s)
  clear_message Ltype.bytes field address s c h r = (tt, r, Stays-refl F R K s)
  clear_message Ltype.string field address s c h r = (tt, r, Stays-refl F R K s)
  clear_message Ltype.extension field address s c h r = (tt, r, Stays-refl F R K s)
  clear_message Ltype.fixed_length_bytes field address s c h r = (tt, r, Stays-refl F R K s)
