-- ===== src/Nanopb/Confined/Messages.antt =====
-- pb_decode of pb_decode.c ends, and touches nothing but the structure that it decodes.
use swe_capstone.Common.{
  ℕ, zero, suc, ◌+◌, ◌^◌, ◌-◌, ◌≤◌, ◌<◌, ◌≡◌, refl, sym, ap, subst, ◌∙◌, Bool, Bool-cases, inl, inr,
  true, false, List, some, leb, ◌==◌, length, arith,
}
use swe_capstone.Nanopb.Stream.{◌>>◌, pure}
use swe_capstone.Nanopb.Decode.{pb_decode_tag, pb_skip_field}
use swe_capstone.Nanopb.Field.{
  Field, FieldIter, is_extension, pb_field_iter_begin, pb_field_iter_find,
}
use swe_capstone.Nanopb.Field.Stepping.{iter_at, iter_at-StandsAt}
use swe_capstone.Nanopb.Field.Finding.{Finds, pb_field_iter_find_lem}
use swe_capstone.Nanopb.Field.Walk.{begin_inside, current_at}
use swe_capstone.Nanopb.Field.Plain.{find_extension_field_plain, at_end, seek_end_lem}
use swe_capstone.Nanopb.DecodeState.{Decoding}
use swe_capstone.Nanopb.DecodeField.{Submessages, Handlers, decode_field}
use swe_capstone.Nanopb.FieldsSeen.{none_seen, mark_seen, seek_end}
use swe_capstone.Nanopb.DecodeMessage.{
  Scan, find_extension_field, skip_unknown, unknown_field, one_field, fields_loop, check_fields,
  noinit_body,
}
use swe_capstone.Nanopb.Layout.{FieldFits, MessageFits, required_total}
use swe_capstone.Nanopb.Safety.{Any}
use swe_capstone.Nanopb.Safety.Fields.{TakesTag, pb_decode_tag-Ends, pb_skip_field-Ends}
use swe_capstone.Nanopb.Confined.{
  Constants, IsReady, Confined, Anyhow, Stays-refl, Confined-then, on_stream-Confined,
}
use swe_capstone.Nanopb.Confined.Callbacks.{Contract}
use swe_capstone.Nanopb.Confined.Fields.{Inner}
use swe_capstone.Nanopb.Confined.Rules.{decode_field-Confined}
use swe_capstone.Nanopb.Confined.Required.{length-mark_seen, check_required-Confined}

module _ {S : Type 0} (F : Type 0) (R : ℕ → Type 0) (K : Constants) (handlers : Handlers S)
    (contract : Contract F R K handlers) where
  module _ (submessages : Submessages S) (Within : List Field → ℕ → Type 0) (links : ℕ)
      (fields : List Field) (dest : ℕ)
      (fits : MessageFits F R K handlers.descriptors Within fields dest) where
    -- The iterator stands at a field, and there are two words of bits.
    pub record IsScan (scan : Scan) : Type 0 where
      pub place : ℕ
      pub inside : place < length fields
      pub at_place : scan.iter ≡ iter_at fields dest place
      pub two : length scan.fields_seen ≡ 2

    abbrev Scans : Scan → Decoding S → Type 0
    Scans scan t = IsScan scan

    skip_unknown-Confined :
        (wire_type : ℕ) (scan : Scan) (s : Decoding S)
        → IsScan scan
        → IsReady F R K s
        → Confined F R K Scans s (skip_unknown handlers submessages wire_type scan s)
    skip_unknown-Confined wire_type scan s h r =
        Confined-then F R K (λ x t. Any x t.stream) Scans s _ _
          (on_stream-Confined F R K Any (pb_skip_field wire_type) s r
            (pb_skip_field-Ends wire_type s.stream r.readable))
          (λ x t p r' m. (h, r', Stays-refl F R K t))

    -- Without extensions an unknown field is skipped.
    unknown_field-Confined :
        (tag wire_type : ℕ) (scan : Scan) (s : Decoding S)
        → tag < 2 ^ 29
        → IsScan scan
        → IsReady F R K s
        → Confined F R K Scans s (unknown_field handlers submessages links tag wire_type scan s)
    unfolding unknown_field
    unknown_field-Confined tag wire_type scan s small h r =
        elim (Bool-cases (leb scan.extension_range_start tag)) [
          | inr e ↦ rw e (skip_unknown-Confined wire_type scan s h r)
          | inl e ↦
              let nothing : find_extension_field scan.iter ≡ some (scan.iter, false) =
                subst (λ it. find_extension_field it ≡ some (it, false)) (sym h.at_place)
                  (find_extension_field_plain fields dest fits.array fits.plain h.place h.inside) in
              let below : leb (2 ^ 32 - 1) tag ≡ false = ground arith in
              rw e (
                rw (nothing, below)
                  (skip_unknown-Confined wire_type _ s
                    (record {
                      place = h.place;
                      inside = h.inside;
                      at_place = h.at_place;
                      two = h.two;
                    })
                    r))
        ]

    module _ (bound : ℕ) (inner : Inner F R K Within submessages bound) where
      -- A field that was found, at the place `q`.
      known_field :
          (tag wire_type q : ℕ) (scan : Scan) (s : Decoding S)
          → q < length fields
          → length scan.fields_seen ≡ 2
          → s.stream.bytes_left ≤ bound
          → IsReady F R K s
          → Confined F R K Scans s (
              (decode_field handlers submessages wire_type (iter_at fields dest q)
                  >> pure (record scan {
                    iter = iter_at fields dest q;
                    fields_seen = mark_seen (iter_at fields dest q) scan.fields_seen;
                  }))
                s)
      known_field tag wire_type q scan s lt two le r =
          let here = sym (current_at fields dest fits.array q lt) in
          Confined-then F R K (Anyhow F R K) Scans s _ _
            (decode_field-Confined F R K handlers submessages Within bound inner contract
              (iter_at fields dest q) wire_type
              (subst (λ field. is_extension field.ltype ≡ false) here (fits.plain q lt)) s
              (subst
                (λ field.
                  FieldFits F R K handlers.descriptors Within field.atype field
                    (iter_at fields dest q))
                here (fits.fits q lt))
              le r)
            (λ x t p r' m. (
              record {
                place = q;
                inside = lt;
                at_place = refl;
                two = length-mark_seen (iter_at fields dest q) scan.fields_seen ∙ two;
              },
              r',
              Stays-refl F R K t,
            ))

      -- The rest of a round, after the tag.
      one_field-Confined :
          (tag wire_type : ℕ) (scan : Scan) (s : Decoding S)
          → tag < 2 ^ 29
          → IsScan scan
          → s.stream.bytes_left ≤ bound
          → IsReady F R K s
          → Confined F R K Scans s (one_field handlers submessages links tag wire_type scan s)
      unfolding one_field
      one_field-Confined tag wire_type scan s small h le r =
          go (pb_field_iter_find_lem fields dest tag h.place fits.array h.inside)
        where
          go :
              Finds fields dest tag h.place fits.array h.inside
                (pb_field_iter_find tag (iter_at fields dest h.place))
              → Confined F R K Scans s (one_field handlers submessages links tag wire_type scan s)
          go (q, true, e, lt, found) =
              rw (ap (pb_field_iter_find tag) h.at_place ∙ e, one_field)
                (known_field tag wire_type q scan s lt h.two le r)
          go (q, false, e, lt, missing) =
              rw (ap (pb_field_iter_find tag) h.at_place ∙ e, one_field)
                (unknown_field-Confined tag wire_type _ s small
                  (record { place = q; inside = lt; at_place = refl; two = h.two }) r)

      -- Every tag takes a byte.
      fields_loop-Confined :
          (rounds : ℕ) (scan : Scan) (s : Decoding S)
          → IsScan scan
          → s.stream.bytes_left < rounds
          → s.stream.bytes_left ≤ bound
          → IsReady F R K s
          → Confined F R K Scans s (fields_loop handlers submessages links rounds scan s)
      unfolding fields_loop
      fields_loop-Confined zero scan s h lt le r = absurd (omega arith)
      fields_loop-Confined (suc rounds) scan s h lt le r =
          elim (Bool-cases (s.stream.bytes_left == 0)) [
            | inl e ↦ rw (e, fields_loop) (h, r, Stays-refl F R K s)
            | inr e ↦
                rw (e, fields_loop)
                  (Confined-then F R K (λ tag t. TakesTag s.stream tag t.stream) Scans s _ _
                    (on_stream-Confined F R K (TakesTag s.stream) pb_decode_tag s r
                      (pb_decode_tag-Ends s.stream r.readable))
                    (λ tag t taken r' m. elim (Bool-cases tag.returned) [
                      | inl ok ↦ rw ok (
                          Confined-then F R K Scans Scans t _ _
                            (one_field-Confined tag.tag tag.wire_type scan t taken.1 h
                              (omega (arith, m.moved.fewer)) r')
                            (λ scan' u h' r'' n.
                              fields_loop-Confined rounds scan' u h'
                                (omega (arith, taken.0 ok, n.moved.fewer))
                                (omega (arith, m.moved.fewer, n.moved.fewer)) r''))
                      | inr end_or_error ↦ rw end_or_error (elim (Bool-cases tag.eof) [
                        | inl end ↦ rw end (h, r', Stays-refl F R K t)
                        | inr more ↦ rw more (r', Stays-refl F R K t)
                      ])
                    ]))
          ]

      -- After the loop, the iterator goes on to the end of the fields.
      pub seek_end_scan :
          (scan : Scan)
          → IsScan scan
          → seek_end (length scan.iter.start + 1) scan.iter ≡ at_end fields dest fits.array
      seek_end_scan scan h =
          let standing = iter_at-StandsAt fields dest fits.array h.place h.inside in
          let fuel : length fields ≤ h.place + (length (iter_at fields dest h.place).start + 1) =
            omega (arith, ap length standing.start) in
          subst (λ it. seek_end (length it.start + 1) it ≡ at_end fields dest fits.array)
            (sym h.at_place)
            (seek_end_lem fields dest fits.array (length (iter_at fields dest h.place).start + 1)
              h.place h.inside fuel)

      check_fields-Confined :
          (scan : Scan) (s : Decoding S)
          → IsScan scan
          → IsReady F R K s
          → Confined F R K (Anyhow F R K) s (check_fields handlers submessages scan s)
      unfolding check_fields
      check_fields-Confined scan s h r =
          rw (seek_end_scan scan h, check_fields)
            (check_required-Confined F R K scan.fields_seen (required_total fields dest) s h.two
              fits.countable r)

      abbrev pub first_scan : Scan
      first_scan = record {
        iter = (pb_field_iter_begin fields dest).0;
        fields_seen = none_seen;
        extension_range_start = 0;
      }

      -- The whole loop.
      pub body_scan :
          (s : Decoding S)
          → s.stream.bytes_left ≤ bound
          → IsReady F R K s
          → Confined F R K Scans s
              (fields_loop handlers submessages links (s.stream.bytes_left + 1) first_scan s)
      body_scan s le r =
          fields_loop-Confined (s.stream.bytes_left + 1) first_scan s
            (record {
              place = 0;
              inside = fits.nonempty;
              at_place =
                  ap (λ (b : FieldIter × Bool). b.0)
                    (begin_inside fields dest fits.array fits.nonempty);
              two = refl;
            })
            (omega arith) le r

      pub noinit_body-Confined :
          (s : Decoding S)
          → s.stream.bytes_left ≤ bound
          → IsReady F R K s
          → Confined F R K (Anyhow F R K) s (noinit_body handlers submessages links fields dest s)
      unfolding noinit_body
      noinit_body-Confined s le r =
          Confined-then F R K Scans (Anyhow F R K) s _ _ (body_scan s le r)
            (λ scan t h r' m. check_fields-Confined scan t h r')
