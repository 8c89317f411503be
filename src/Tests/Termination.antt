-- ===== src/Tests/Termination.antt =====
-- The theorems about the message decoder on the message of Tests.Messages and on one with 32 fields.
use swe_capstone.Common.{
  min, ◌∙◌, ℕ, zero, suc, ◌<◌, ◌≡◌, refl, sym, subst, ap, List, [], ◌∷◌, some, false, true, inl,
  ◌==◌, if◌then◌else◌, arith,
}
use swe_capstone.Nanopb.Stream.{missing_required_field, failed, fault, stuck, ◌>>◌, pure}
use swe_capstone.Nanopb.Decode.{pb_skip_field}
use swe_capstone.Nanopb.Marks.{marks, seen, all_seen}
use swe_capstone.Nanopb.Required.{check_required_lem}
use swe_capstone.Nanopb.Unknown.{one_field_unknown}
use swe_capstone.Nanopb.Input.{pb_istream_from_buffer}
use swe_capstone.Nanopb.Field.{
  Ltype, Field, FieldIter, field_at, is_extension, pb_field_iter_begin, pb_field_iter_next, advance,
}
use swe_capstone.Nanopb.Field.Stepping.{IsArray, iter_at}
use swe_capstone.Nanopb.DecodeState.{Decoding, on_stream, dec_error}
use swe_capstone.Nanopb.DecodeField.{Decoder, Submessages}
use swe_capstone.Nanopb.FieldsSeen.{none_seen, check_required, required_count}
use swe_capstone.Nanopb.DecodeMessage.{check_fields, Scan, one_field, pb_decode}
use swe_capstone.Nanopb.Layout.{required_total}
use swe_capstone.Nanopb.Confined.{IsReady, Confined, Stays-refl}
use swe_capstone.Nanopb.Confined.Callbacks.{Contract, Progress}
use swe_capstone.Nanopb.Confined.Nesting.{Elsewhere, Everywhere, Nests, pb_decode_terminates}
use swe_capstone.Nanopb.Undefined.{undefined_if, check_fields_undefined}
use swe_capstone.Tests.Messages.{outer, count_field}
use swe_capstone.Tests.Decoding.{only_refuses, handlers, start}

refuses-Everywhere :
    (decode : Decoder (Unit {0}))
    → decode ≡ (λ field arg state. failed state)
    → (field : Field) (arg : ℕ) (s : Decoding (Unit {0}))
    → IsReady (Unit {0}) Everywhere Elsewhere s
    → Confined
        (Unit {0})
        Everywhere
        Elsewhere
        (Progress (Unit {0}) Everywhere Elsewhere s)
        s
        (decode field arg s)
refuses-Everywhere decode e field arg s r =
    subst
      (λ (d : Decoder (Unit {0})).
        Confined (Unit {0}) Everywhere Elsewhere (Progress (Unit {0}) Everywhere Elsewhere s) s
          (d field arg s))
      (sym e) (r, Stays-refl (Unit {0}) Everywhere Elsewhere s)

loose_Contract : Contract (Unit {0}) Everywhere Elsewhere handlers
loose_Contract = record {
  callable = λ f there e. tt;
  honest =
      λ f decode e field arg s r. refuses-Everywhere decode (only_refuses f decode e) field arg s r;
}

inner-Nests : Nests handlers.descriptors 1 (count_field ∷ [])
inner-Nests = ((refl, tt), omega arith, plain, no_message)
  where
    plain : (i : ℕ) → i < 1 → is_extension (field_at (count_field ∷ []) i).ltype ≡ false
    plain zero lt = refl
    plain (suc i) lt = absurd (omega arith)

    no_message :
        (i : ℕ)
        → i < 1
        → (field_at (count_field ∷ []) i).ltype ≡ Ltype.submessage
        → (inside : List Field)
        → handlers.descriptors (field_at (count_field ∷ []) i).ptr ≡ some inside
        → ⊥
    no_message zero lt e inside there = cc
    no_message (suc i) lt e inside there = absurd (omega arith)

outer-Nests : Nests handlers.descriptors 2 outer
outer-Nests = ((refl, (refl, (refl, tt))), omega arith, plain, messages)
  where
    plain : (i : ℕ) → i < 3 → is_extension (field_at outer i).ltype ≡ false
    plain zero lt = refl
    plain (suc zero) lt = refl
    plain (suc (suc zero)) lt = refl
    plain (suc (suc (suc i))) lt = absurd (omega arith)

    messages :
        (i : ℕ)
        → i < 3
        → (field_at outer i).ltype ≡ Ltype.submessage
        → (inside : List Field) → handlers.descriptors (field_at outer i).ptr ≡ some inside
        → Nests handlers.descriptors 1 inside
    messages zero lt e inside there = cc
    messages (suc zero) lt e inside there = cc
    messages (suc (suc zero)) lt e inside there =
        let same : (count_field ∷ []) ≡ inside = cc in
        subst (Nests handlers.descriptors 1) same inner-Nests
    messages (suc (suc (suc i))) lt e inside there = absurd (omega arith)

pb_decode_terminates_example : ¬ (pb_decode handlers 2 1 21 outer 1000 start ≡ stuck)
unfolding pb_istream_from_buffer
pb_decode_terminates_example =
    pb_decode_terminates handlers loose_Contract 2 1 21 outer 1000 start outer-Nests (omega arith)
      (omega arith)

-- The same required field a number of times.
abbrev copies : ℕ → List Field
copies zero = []
copies (suc n) = count_field ∷ copies n

copies-IsArray : (n : ℕ) → IsArray (copies n)
copies-IsArray zero = tt
copies-IsArray (suc n) = (refl, copies-IsArray n)

copies_total : required_total (copies 32) 1000 ≡ 32
unfolding iter_at pb_field_iter_begin pb_field_iter_next advance required_count
copies_total = refl

-- No messages inside.
abbrev no_messages : Submessages (Unit {0})
no_messages = record {
  decode = λ fields dest state. fault;
  decode_noinit = λ fields dest state. fault;
  set_to_defaults = λ fields dest state. fault;
}

-- Every one of them was seen.
abbrev all_fields : ℕ → List FieldIter
all_fields zero = []
all_fields (suc n) = iter_at (copies 32) 1000 n ∷ all_fields n

all_fields_seen : all_seen (all_fields 32) 32 ≡ true
unfolding iter_at pb_field_iter_begin pb_field_iter_next advance
all_fields_seen = refl

-- The iterator stands at the last one.
abbrev last_scan : Scan
last_scan = record {
  iter = iter_at (copies 32) 1000 31;
  fields_seen = marks (all_fields 32);
  extension_range_start = 0;
}

check_fields_undefined_example :
    check_fields handlers no_messages last_scan start
    ≡ undefined_if (all_seen (all_fields 32) (min (required_total (copies 32) 1000) 64)) start
check_fields_undefined_example =
    check_fields_undefined handlers no_messages (copies 32) 1000 31 (all_fields 32) last_scan start
      (copies-IsArray 32) (omega arith) refl refl (omega (arith, copies_total))
      (inl (omega (arith, copies_total)))

-- So the check is undefined where all 32 fields were there.
all_there_undefined : check_fields handlers no_messages last_scan start ≡ fault
all_there_undefined =
    check_fields_undefined handlers no_messages (copies 32) 1000 31 (all_fields 32) last_scan start
      (copies-IsArray 32) (omega arith) refl refl (omega (arith, copies_total))
      (inl (omega (arith, copies_total)))
    ∙ (ap (λ n. undefined_if (all_seen (all_fields 32) (min n 64)) start) copies_total
        ∙ ap (λ b. undefined_if b start) all_fields_seen)

-- Tag 9 with a varint, at the start of the message.
abbrev first_scan : Scan
first_scan = record {
  iter = iter_at outer 1000 0;
  fields_seen = none_seen;
  extension_range_start = 0;
}

outer_plain : (i : ℕ) → i < 3 → is_extension (field_at outer i).ltype ≡ false
outer_plain zero lt = refl
outer_plain (suc zero) lt = refl
outer_plain (suc (suc zero)) lt = refl
outer_plain (suc (suc (suc i))) lt = absurd (omega arith)

no_nine : (i : ℕ) → i < 3 → ((field_at outer i).tag == 9) ≡ false
no_nine zero lt = refl
no_nine (suc zero) lt = refl
no_nine (suc (suc zero)) lt = refl
no_nine (suc (suc (suc i))) lt = absurd (omega arith)

one_field_unknown_example :
    one_field handlers no_messages 1 9 0 first_scan start
    ≡ (on_stream (pb_skip_field 0)
          >> pure (record first_scan { extension_range_start = 4294967295 }))
        start
one_field_unknown_example =
    one_field_unknown handlers no_messages 1 outer 1000 (refl, (refl, (refl, tt))) outer_plain 9 0 0
      first_scan start refl (omega arith) (omega arith) no_nine

-- The required fields of the message, the last one first.
abbrev both_fields : List FieldIter
both_fields = iter_at outer 1000 2 ∷ iter_at outer 1000 0 ∷ []

both_known : (i : ℕ) → seen both_fields i ≡ true → i < 2
unfolding iter_at pb_field_iter_begin pb_field_iter_next advance
both_known zero e = omega arith
both_known (suc zero) e = omega arith
both_known (suc (suc i)) e = ground arith

check_required_lem_example :
    check_required (marks both_fields) 2 start
    ≡ (if all_seen both_fields 2 then pure tt else dec_error missing_required_field) start
check_required_lem_example =
    check_required_lem both_fields 2 start (omega arith) (λ z. omega (arith, z)) both_known
