-- ===== src/Tests/Decoding.antt =====
-- The message of Tests.Messages, with a callback field behind it, is decoded into a structure at
-- address 1000.
use swe_capstone.Common.{
  Bool-cases, ℕ, zero, suc, ◌≤◌, ◌<◌, ◌≡◌, ◌⊎◌, refl, sym, subst, ◌%◌, List, [], ◌∷◌, Option, none,
  some, leb, ltb, ◌==◌, ◌&&◌, ◌||◌, false, inl, inr, arith, if◌then◌else◌,
}
use swe_capstone.Nanopb.Stream.{ErrorMessage, Outcome, done, failed, fault, stuck}
use swe_capstone.Nanopb.Field.{
  Ltype, Htype, Atype, Memory, Field, field_at, readable, is_extension, pb_field_iter_begin,
  pb_field_iter_next, advance,
}
use swe_capstone.Nanopb.Field.Stepping.{iter_at}
use swe_capstone.Nanopb.Input.{pb_istream_from_buffer}
use swe_capstone.Nanopb.DecodeState.{Decoding}
use swe_capstone.Nanopb.DecodeField.{Decoder, Handlers}
use swe_capstone.Nanopb.FieldsSeen.{required_count}
use swe_capstone.Nanopb.DecodeMessage.{pb_decode, pb_decode_delimited}
use swe_capstone.Nanopb.Layout.{FieldFits, Layout}
use swe_capstone.Nanopb.Confined.{Constants, IsReady, Confined, Anyhow, Stays-refl}
use swe_capstone.Nanopb.Confined.Callbacks.{Contract, Progress}
use swe_capstone.Nanopb.Confined.Total.{pb_decode-stays}
use swe_capstone.Common.Int.{pos}
use swe_capstone.Tests.Messages.{count_field, items_field, inner_field, written_bytes}

-- bytes note = 4; with a callback.
abbrev note_field : Field
note_field = record {
  tag = 4;
  ltype = Ltype.bytes;
  htype = Htype.optional;
  atype = Atype.callback;
  data_offset = 0;
  size_offset = pos 0;
  data_size = 16;
  array_size = 0;
  ptr = 0;
}

abbrev pub noted : List Field
noted = count_field ∷ items_field ∷ inner_field ∷ note_field ∷ []

-- The address of a function, 600, stands at 1020; around it 28 bytes are for the message.
abbrev code : Memory
code address =
    if address == 1020
    then some 88
    else if address == 1021
    then some 2
    else if leb 1020 address && ltb address 1028
    then some 0
    else none

abbrev cells : Memory
cells address =
    if (leb 1000 address && ltb address 1020) || (leb 1028 address && ltb address 1036)
    then some 204
    else code address

-- The callback refuses what it is given.
abbrev pub handlers : Handlers (Unit {0})
handlers = record {
  descriptors = λ address. if address == 500 then some (count_field ∷ []) else none;
  decoders = λ address. if address == 600 then some (λ field arg state. failed state) else none;
  extension_decoders = λ address. none;
}

abbrev pub start : Decoding (Unit {0})
start = record { memory = cells; stream = pb_istream_from_buffer written_bytes 20 }

-- The structure after the call, the bytes left and the message.
data Report : Type 0 where
  returned refused : List ℕ → ℕ → Option ErrorMessage → Report
  faulted endless : Report

abbrev report : Outcome (Decoding (Unit {0})) (Unit {0}) → Report
report (done x s) = returned (readable s.memory 20 1000) s.stream.bytes_left s.stream.errmsg
report (failed s) = refused (readable s.memory 20 1000) s.stream.bytes_left s.stream.errmsg
report fault = faulted
report stuck = endless

abbrev decoded : Report
decoded = report (pb_decode handlers 2 1 21 noted 1000 start)

-- The structure without the address of the function; outside it nothing else is mapped.
abbrev Structure : ℕ → Type 0
Structure a = ((1000 ≤ a) × (a < 1020)) ⊎ ((1028 ≤ a) × (a < 1036))

abbrev Outside : Constants
Outside = record { memory = code; function = λ f. f ≡ 600 }

pub only_refuses :
    (f : ℕ) (decode : Decoder (Unit {0}))
    → handlers.decoders f ≡ some decode
    → decode ≡ (λ field arg state. failed state)
only_refuses f decode e = elim (Bool-cases (f == 600)) [
  | inl e' ↦ let here = rw e' at e in cc here
  | inr e' ↦ let there = rw e' at e in cc there
]

-- A callback that refuses keeps every region.
refuses :
    (R : ℕ → Type 0) (decode : Decoder (Unit {0}))
    → decode ≡ (λ field arg state. failed state)
    → (field : Field) (arg : ℕ) (s : Decoding (Unit {0})) → IsReady ⊥ R Outside s
    → Confined ⊥ R Outside (Progress ⊥ R Outside s) s (decode field arg s)
refuses R decode e field arg s r =
    subst
      (λ (d : Decoder (Unit {0})). Confined ⊥ R Outside (Progress ⊥ R Outside s) s (d field arg s))
      (sym e) (r, Stays-refl ⊥ R Outside s)

handlers-Contract : Contract ⊥ Structure Outside handlers
handlers-Contract = record {
  callable = λ f there e. cc;
  honest =
      λ f decode e field arg s r. refuses Structure decode (only_refuses f decode e) field arg s r;
}

start-IsReady : IsReady ⊥ Structure Outside start
unfolding pb_istream_from_buffer
start-IsReady = record {
  writable = λ a inside e. ground arith;
  constants = λ a out. ground arith;
  readable = omega arith;
}

inner_fits :
    (i : ℕ)
    → i < 1
    → FieldFits ⊥ Structure Outside handlers.descriptors
        (λ f d. ⊥)
        (field_at (count_field ∷ []) i).atype
        (field_at (count_field ∷ []) i)
        (iter_at (count_field ∷ []) 1016 i)
unfolding iter_at pb_field_iter_begin
inner_fits zero lt = (
  ((λ a le lt. inl (omega arith, omega arith)), λ z. absurd (z refl)),
  λ a le lt. inl (omega arith, omega arith),
)
inner_fits (suc i) lt = absurd (omega arith)

inner_plain : (i : ℕ) → i < 1 → is_extension (field_at (count_field ∷ []) i).ltype ≡ false
inner_plain zero lt = refl
inner_plain (suc i) lt = absurd (omega arith)

-- One required field.
few : (1 % 32 ≡ 0) ⊎ (64 ≤ 1) → ⊥
few (inl e) = omega arith
few (inr le) = omega arith

inner_layout : Layout ⊥ Structure Outside handlers.descriptors 1 (count_field ∷ []) 1016
unfolding iter_at pb_field_iter_begin required_count
inner_layout = record {
  array = (refl, tt);
  nonempty = omega arith;
  countable = λ positive h. few h;
  plain = inner_plain;
  fits = inner_fits;
}

between : (a : ℕ) → 1020 ≤ a → a < 1028 → ¬ Structure a
between a le lt (inl inside) = omega arith
between a le lt (inr inside) = omega arith

noted_fits :
    (i : ℕ)
    → i < 4
    → FieldFits ⊥ Structure Outside handlers.descriptors
        (Layout ⊥ Structure Outside handlers.descriptors 1)
        (field_at noted i).atype
        (field_at noted i)
        (iter_at noted 1000 i)
unfolding iter_at pb_field_iter_begin pb_field_iter_next advance
noted_fits zero lt = (
  ((λ a le lt. inl (omega arith, omega arith)), λ z. absurd (z refl)),
  λ a le lt. inl (omega arith, omega arith),
)
noted_fits (suc zero) lt =
    ((λ a le lt. inl (omega arith, omega arith)), λ k few a le lt. inl (omega arith, omega arith))
noted_fits (suc (suc zero)) lt = (
  tt,
  (
    (λ e. cc),
    λ fields e.
        subst (λ fs. Layout ⊥ Structure Outside handlers.descriptors 1 fs 1016) (cc) inner_layout,
  ),
)
noted_fits (suc (suc (suc zero))) lt = inr (
  88 ∷ 2 ∷ 0 ∷ 0 ∷ 0 ∷ 0 ∷ 0 ∷ 0 ∷ [],
  refl,
  (refl, (refl, (refl, (refl, (refl, (refl, (refl, (refl, tt)))))))),
  (λ a le lt inside. between a le lt inside),
  inr refl,
)
noted_fits (suc (suc (suc (suc i)))) lt = absurd (omega arith)

noted_plain : (i : ℕ) → i < 4 → is_extension (field_at noted i).ltype ≡ false
noted_plain zero lt = refl
noted_plain (suc zero) lt = refl
noted_plain (suc (suc zero)) lt = refl
noted_plain (suc (suc (suc zero))) lt = refl
noted_plain (suc (suc (suc (suc i)))) lt = absurd (omega arith)

noted_few : (2 % 32 ≡ 0) ⊎ (64 ≤ 2) → ⊥
noted_few (inl e) = omega arith
noted_few (inr le) = omega arith

noted-Layout : Layout ⊥ Structure Outside handlers.descriptors 2 noted 1000
unfolding iter_at pb_field_iter_begin pb_field_iter_next advance required_count
noted-Layout = record {
  array = (refl, (refl, (refl, (refl, tt))));
  nonempty = omega arith;
  countable = λ positive h. noted_few h;
  plain = noted_plain;
  fits = noted_fits;
}

pb_decode-stays_example :
    Confined ⊥ Structure Outside
      (Anyhow ⊥ Structure Outside)
      start
      (pb_decode handlers 2 1 21 noted 1000 start)
    × Confined ⊥ Structure Outside
        (Anyhow ⊥ Structure Outside)
        start
        (pb_decode_delimited handlers 2 1 21 noted 1000 start)
unfolding pb_istream_from_buffer
pb_decode-stays_example =
    pb_decode-stays Structure Outside handlers 2 1 21 noted 1000 start handlers-Contract
      noted-Layout (omega arith) start-IsReady
