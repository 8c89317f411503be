-- ===== src/Nanopb/Unknown.antt =====
-- The round of pb_decode_noinit in pb_decode.c for a tag that no field of the message has.
use swe_capstone.Common.{
  ℕ, ◌-◌, ◌^◌, ◌<◌, ◌≡◌, refl, sym, ap, subst, ◌∙◌, Bool-cases, inl, inr, false, List, some, leb,
  ◌==◌, length, if◌then◌else◌, arith,
}
use swe_capstone.Nanopb.Stream.{◌>>◌, pure}
use swe_capstone.Nanopb.Decode.{pb_skip_field}
use swe_capstone.Nanopb.Field.{Field, field_at, is_extension, pb_field_iter_find}
use swe_capstone.Nanopb.Field.Stepping.{IsArray, accepts, iter_at}
use swe_capstone.Nanopb.Field.Finding.{Finds, pb_field_iter_find_lem}
use swe_capstone.Nanopb.Field.Plain.{find_extension_field_plain}
use swe_capstone.Nanopb.DecodeState.{Decoding, on_stream}
use swe_capstone.Nanopb.DecodeField.{Submessages, Handlers}
use swe_capstone.Nanopb.DecodeMessage.{Scan, find_extension_field, unknown_field, one_field}

module _ (fields : List Field) (dest tag p : ℕ) (array : IsArray fields)
    (inside : p < length fields)
    (unknown : (i : ℕ) → i < length fields → ((field_at fields i).tag == tag) ≡ false) where
  no_field_accepts : (i : ℕ) → i < length fields → accepts tag (field_at fields i) ≡ false
  no_field_accepts i lt = rw (unknown i lt) refl

  pub pb_field_iter_find_unknown :
      pb_field_iter_find tag (iter_at fields dest p) ≡ some (iter_at fields dest p, false)
  pb_field_iter_find_unknown = go (pb_field_iter_find_lem fields dest tag p array inside)
    where
      go :
          Finds fields dest tag p array inside (pb_field_iter_find tag (iter_at fields dest p))
          → pb_field_iter_find tag (iter_at fields dest p) ≡ some (iter_at fields dest p, false)
      go (q, found, e, lt, inl (hit, accepted)) = absurd (cc (accepted, no_field_accepts q lt))
      go (q, found, e, lt, inr (nothing, back, rejected)) =
          e
          ∙ (ap (λ i. some (iter_at fields dest i, found)) back
              ∙ ap (λ b. some (iter_at fields dest p, b)) nothing)

module _ {S : Type 0} (handlers : Handlers S) (submessages : Submessages S) (links : ℕ)
    (fields : List Field) (dest : ℕ) (array : IsArray fields)
    (plain : (i : ℕ) → i < length fields → is_extension (field_at fields i).ltype ≡ false) where
  -- The locals after the field: at most the start of the extension range is new.
  abbrev pub passed : ℕ → Scan → Scan
  passed tag scan = record scan {
    extension_range_start =
        if leb scan.extension_range_start tag then 2 ^ 32 - 1 else scan.extension_range_start;
  }

  unknown_field_lem :
      (tag wire_type p : ℕ) (scan : Scan) (s : Decoding S)
      → scan.iter ≡ iter_at fields dest p
      → p < length fields
      → tag < 2 ^ 32 - 1
      → unknown_field handlers submessages links tag wire_type scan s
        ≡ (on_stream (pb_skip_field wire_type) >> pure (passed tag scan)) s
  unfolding unknown_field
  unknown_field_lem tag wire_type p scan s at_place inside small =
      elim (Bool-cases (leb scan.extension_range_start tag)) [
        | inr e ↦ rw (e, passed) refl
        | inl e ↦
            let nothing : find_extension_field scan.iter ≡ some (scan.iter, false) =
              subst (λ it. find_extension_field it ≡ some (it, false)) (sym at_place)
                (find_extension_field_plain fields dest array plain p inside) in
            let below : leb (2 ^ 32 - 1) tag ≡ false = ground arith in
            rw (e, passed) (rw (nothing, below) refl)
      ]

  -- In a message without extensions, from any place in its fields, a field with a tag that none of
  -- them has, and below 2 ^ 32 - 1, is skipped with pb_skip_field by its wire type, whether that
  -- succeeds or fails: nothing is written, no required field is marked, and the iterator stands
  -- where it stood.
  pub one_field_unknown :
      (tag wire_type p : ℕ) (scan : Scan) (s : Decoding S)
      → scan.iter ≡ iter_at fields dest p
      → p < length fields
      → tag < 2 ^ 32 - 1
      → ((i : ℕ) → i < length fields → ((field_at fields i).tag == tag) ≡ false)
      → one_field handlers submessages links tag wire_type scan s
        ≡ (on_stream (pb_skip_field wire_type) >> pure (passed tag scan)) s
  unfolding one_field
  one_field_unknown tag wire_type p scan s at_place inside small unknown =
      let missing : pb_field_iter_find tag scan.iter ≡ some (scan.iter, false) =
        subst (λ it. pb_field_iter_find tag it ≡ some (it, false)) (sym at_place)
          (pb_field_iter_find_unknown fields dest tag p array inside unknown) in
      rw (missing, one_field)
        (unknown_field_lem tag wire_type p (record scan { iter = scan.iter }) s at_place inside
          small)
