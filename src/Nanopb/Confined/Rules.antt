-- ===== src/Nanopb/Confined/Rules.antt =====
-- A field of a message, by its rule and its allocation, is decoded in its place of the layout.
use swe_capstone.Common.{
  ℕ, ◌+◌, ◌*◌, ◌%◌, ◌^◌, ◌≤◌, ◌<◌, ◌≡◌, Bool-cases, inl, inr, false, List, ◌==◌, ==_iff, arith,
}
use swe_capstone.Nanopb.Stream.{invalid_field_type, no_malloc_support, wt_string}
use swe_capstone.Nanopb.Field.{Htype, Atype, Field, FieldIter, current, is_extension}
use swe_capstone.Nanopb.EncodeMessage.{is_packable}
use swe_capstone.Nanopb.DecodeState.{Decoding}
use swe_capstone.Nanopb.DecodeField.{
  Decoder, Submessages, Handlers, pb_decoders, repeated_item, oneof_field, static_by_rule,
  decode_static_field, decode_pointer_field, decode_by_allocation, decode_field,
}
use swe_capstone.Nanopb.Confined.Fields.{
  Inner, packable-Confined, pb_decoders-Confined, clear_message,
}
use swe_capstone.Nanopb.Layout.{ItemFits, StaticFits, FieldFits}
use swe_capstone.Nanopb.Confined.{
  Constants, Covers, IsReady, Confined, Anyhow, Confined-then, dec_error-Confined,
}
use swe_capstone.Nanopb.Confined.Bytes.{StreamKept, put-Confined}
use swe_capstone.Nanopb.Confined.Defaults.{both-Confined}
use swe_capstone.Nanopb.Confined.Arrays.{packed_field-Confined, repeated_item-Confined}
use swe_capstone.Nanopb.Confined.Callbacks.{Contract, decode_callback_field-Confined}

module _ {S : Type 0} (F : Type 0) (R : ℕ → Type 0) (K : Constants) (handlers : Handlers S)
    (submessages : Submessages S) (Within : List Field → ℕ → Type 0) (bound : ℕ)
    (inner : Inner F R K Within submessages bound) (contract : Contract F R K handlers)
    (iter : FieldIter) (wire_type : ℕ) (plain : is_extension (current iter).ltype ≡ false) where
  abbrev field_decoder : Decoder S
  field_decoder = pb_decoders handlers submessages (current iter).ltype

  item_decoded :
      (address : ℕ) (s : Decoding S)
      → ItemFits F R K handlers.descriptors Within (current iter).ltype (current iter) address
      → s.stream.bytes_left ≤ bound
      → IsReady F R K s
      → Confined F R K (Anyhow F R K) s (field_decoder (current iter) address s)
  item_decoded address s h le r =
      pb_decoders-Confined F R K handlers submessages Within bound inner (current iter).ltype
        (current iter) address s plain h le r

  oneof_field-Confined :
      (s : Decoding S)
      → StaticFits F R K handlers.descriptors Within Htype.oneof (current iter) iter
      → s.stream.bytes_left ≤ bound
      → IsReady F R K s
      → Confined F R K (Anyhow F R K) s (oneof_field handlers submessages field_decoder iter s)
  unfolding oneof_field
  oneof_field-Confined s (c, m, h) le r =
      Confined-then F R K (Anyhow F R K) (Anyhow F R K) s _ _
        (both-Confined F R K handlers.descriptors s _ _
          (put-Confined F R K 4 iter.p_size (current iter).tag s c r)
          (λ t r'.
            clear_message F R K handlers submessages Within bound inner (current iter).ltype
              (current iter) iter.p_data t m h r'))
        (λ x t p r' n. item_decoded iter.p_data t h (omega (arith, n.moved.fewer)) r')

  static_by_rule-Confined :
      (htype : Htype) (s : Decoding S)
      → StaticFits F R K handlers.descriptors Within htype (current iter) iter
      → s.stream.bytes_left ≤ bound
      → IsReady F R K s
      → Confined F R K
          (Anyhow F R K)
          s
          (static_by_rule handlers submessages htype field_decoder wire_type iter s)
  static_by_rule-Confined Htype.required s (i, h) le r = item_decoded iter.p_data s h le r
  static_by_rule-Confined Htype.optional s (o, i, h) le r =
      elim (Bool-cases (iter.p_size == iter.p_data)) [
        | inl e ↦ rw e (item_decoded iter.p_data s h le r)
        | inr e ↦ rw e (
            Confined-then F R K (StreamKept F R K s) (Anyhow F R K) s _ _
              (put-Confined F R K 1 iter.p_size 1 s
                (o (λ z. cc (e, (==_iff iter.p_size iter.p_data).1 z))) r)
              (λ x t e' r' m. item_decoded iter.p_data t h (omega (arith, m.moved.fewer)) r'))
      ]
  static_by_rule-Confined Htype.repeated s (c, h) le r =
      elim (Bool-cases (is_packable (current iter).ltype)) [
        | inl e ↦ elim (Bool-cases (wire_type == wt_string)) [
          | inl w ↦
              rw (w, e)
                (packed_field-Confined F R K field_decoder iter c
                  (λ k t lt r'.
                    packable-Confined F R K handlers submessages Within bound inner
                      (current iter).ltype (current iter) _ t e (h k lt) r')
                  s r)
          | inr w ↦ rw w (one_by_one s c h le r)
        ]
        | inr e ↦ elim (Bool-cases (wire_type == wt_string)) [
          | inl w ↦ rw (w, e) (one_by_one s c h le r)
          | inr w ↦ rw w (one_by_one s c h le r)
        ]
      ]
    where
      one_by_one :
          (t : Decoding S)
          → Covers R iter.p_size 4
          → ((k : ℕ)
              → k < (current iter).array_size
              → ItemFits F R K handlers.descriptors Within
                  (current iter).ltype
                  (current iter)
                  (iter.p_data + (current iter).data_size * k % 2 ^ 32))
          → t.stream.bytes_left ≤ bound
          → IsReady F R K t
          → Confined F R K (Anyhow F R K) t (repeated_item field_decoder iter t)
      one_by_one t c h le r =
          repeated_item-Confined F R K field_decoder iter c t
            (λ k u lt le' r'. item_decoded _ u (h k lt) (omega arith) r') r
  static_by_rule-Confined Htype.oneof s h le r = oneof_field-Confined s h le r

  by_allocation :
      (atype : Atype) (s : Decoding S)
      → FieldFits F R K handlers.descriptors Within atype (current iter) iter
      → s.stream.bytes_left ≤ bound
      → IsReady F R K s
      → Confined F R K
          (Anyhow F R K)
          s
          (decode_by_allocation handlers submessages atype wire_type iter s)
  unfolding decode_static_field decode_pointer_field
  by_allocation Atype.static s h le r = static_by_rule-Confined (current iter).htype s h le r
  by_allocation Atype.pointer s h le r =
      dec_error-Confined F R K (Anyhow F R K) no_malloc_support s r
  by_allocation Atype.callback s h le r =
      decode_callback_field-Confined F R K handlers submessages contract iter wire_type s h r
  by_allocation Atype.invalid s h le r =
      dec_error-Confined F R K (Anyhow F R K) invalid_field_type s r

  pub decode_field-Confined :
      (s : Decoding S)
      → FieldFits F R K handlers.descriptors Within (current iter).atype (current iter) iter
      → s.stream.bytes_left ≤ bound
      → IsReady F R K s
      → Confined F R K (Anyhow F R K) s (decode_field handlers submessages wire_type iter s)
  unfolding decode_field
  decode_field-Confined s h le r = by_allocation (current iter).atype s h le r
