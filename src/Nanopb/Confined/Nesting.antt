-- ===== src/Nanopb/Confined/Nesting.antt =====
-- Termination of pb_decode of pb_decode.c in every memory.
use swe_capstone.Common.{
  none, inl, ℕ, zero, suc, ◌<◌, ◌≡◌, refl, subst, List, Option, some, false, length,
}
use swe_capstone.Nanopb.Stream.{stuck}
use swe_capstone.Nanopb.Field.{Ltype, Htype, Atype, Field, FieldIter, field_at, is_extension}
use swe_capstone.Nanopb.Field.Stepping.{IsArray, iter_at}
use swe_capstone.Nanopb.DecodeState.{Decoding}
use swe_capstone.Nanopb.DecodeField.{Handlers}
use swe_capstone.Nanopb.DecodeMessage.{pb_decode}
use swe_capstone.Nanopb.Layout.{ItemFits, InitFits, StaticFits, PointerFits, FieldFits, Layout}
use swe_capstone.Nanopb.Safety.{IsReadable}
use swe_capstone.Nanopb.Confined.{Constants, Confined, Anyhow}
use swe_capstone.Nanopb.Confined.Callbacks.{Contract}
use swe_capstone.Nanopb.Confined.Total.{pb_decode-Confined}

abbrev pub Everywhere : ℕ → Type 0
Everywhere a = Unit {0}

abbrev pub Elsewhere : Constants
Elsewhere = record { memory = λ a. none; function = λ f. Unit {0} }

module _ (descriptors : ℕ → Option (List Field)) where
  -- A message without extensions and with at least one field, whose submessages are at most that
  -- deep.
  abbrev pub Nests : ℕ → List Field → Type 0
  Nests zero fields = ⊥
  Nests (suc nesting) fields =
      IsArray fields
      × (0 < length fields)
      × ((i : ℕ) → i < length fields → is_extension (field_at fields i).ltype ≡ false)
      × ((i : ℕ)
          → i < length fields
          → (field_at fields i).ltype ≡ Ltype.submessage
          → (inside : List Field) → descriptors (field_at fields i).ptr ≡ some inside
          → Nests nesting inside)

  abbrev Anything : (List Field → ℕ → Type 0) → Field → Type 0
  Anything Within field =
      field.ltype ≡ Ltype.submessage
      → (inside : List Field) → descriptors field.ptr ≡ some inside
      → (dest : ℕ) → Within inside dest

  -- With nothing said of the memory, a layout is what nests.
  module _ (Within : List Field → ℕ → Type 0) where
    item :
        (ltype : Ltype) (field : Field) (address : ℕ)
        → field.ltype ≡ ltype
        → Anything Within field
        → ItemFits (Unit {0}) Everywhere Elsewhere descriptors Within ltype field address
    item Ltype.varint field address e h = λ a le lt. tt
    item Ltype.uvarint field address e h = λ a le lt. tt
    item Ltype.svarint field address e h = λ a le lt. tt
    item Ltype.fixed32 field address e h = λ a le lt. tt
    item Ltype.fixed64 field address e h = λ a le lt. tt
    item Ltype.bytes field address e h = λ a le lt. tt
    item Ltype.string field address e h = λ a le lt. tt
    item Ltype.submessage field address e h = ((λ n. tt), λ inside there. h e inside there address)
    item Ltype.extension field address e h = λ a le lt. tt
    item Ltype.fixed_length_bytes field address e h = λ a le lt. tt

    initial :
        (ltype : Ltype) (field : Field) (address : ℕ)
        → InitFits (Unit {0}) Everywhere Elsewhere descriptors ltype field address
    initial Ltype.varint field address = ((λ a le lt. tt), λ n a le lt. inl tt)
    initial Ltype.uvarint field address = ((λ a le lt. tt), λ n a le lt. inl tt)
    initial Ltype.svarint field address = ((λ a le lt. tt), λ n a le lt. inl tt)
    initial Ltype.fixed32 field address = ((λ a le lt. tt), λ n a le lt. inl tt)
    initial Ltype.fixed64 field address = ((λ a le lt. tt), λ n a le lt. inl tt)
    initial Ltype.bytes field address = ((λ a le lt. tt), λ n a le lt. inl tt)
    initial Ltype.string field address = ((λ a le lt. tt), λ n a le lt. inl tt)
    initial Ltype.submessage field address = tt
    initial Ltype.extension field address = ((λ a le lt. tt), λ n a le lt. inl tt)
    initial Ltype.fixed_length_bytes field address = ((λ a le lt. tt), λ n a le lt. inl tt)

    by_rule :
        (htype : Htype) (field : Field) (iter : FieldIter)
        → Anything Within field
        → StaticFits (Unit {0}) Everywhere Elsewhere descriptors Within htype field iter
    by_rule Htype.required field iter h =
        (initial field.ltype field iter.p_data, item field.ltype field iter.p_data refl h)
    by_rule Htype.optional field iter h = (
      (λ n a le lt. tt),
      initial field.ltype field iter.p_data,
      item field.ltype field iter.p_data refl h,
    )
    by_rule Htype.repeated field iter h = ((λ a le lt. tt), λ k lt. item field.ltype field _ refl h)
    by_rule Htype.oneof field iter h =
        ((λ a le lt. tt), (λ m a le lt. tt), item field.ltype field iter.p_data refl h)

    pointer :
        (htype : Htype) (iter : FieldIter)
        → PointerFits (Unit {0}) Everywhere Elsewhere descriptors htype iter
    pointer Htype.required iter = λ a le lt. tt
    pointer Htype.optional iter = λ a le lt. tt
    pointer Htype.repeated iter = ((λ a le lt. tt), λ a le lt. tt)
    pointer Htype.oneof iter = ((λ a le lt. tt), λ a le lt. tt)

    by_allocation :
        (atype : Atype) (field : Field) (iter : FieldIter)
        → Anything Within field
        → FieldFits (Unit {0}) Everywhere Elsewhere descriptors Within atype field iter
    by_allocation Atype.static field iter h = by_rule field.htype field iter h
    by_allocation Atype.pointer field iter h = pointer field.htype iter
    by_allocation Atype.callback field iter h = inl tt
    by_allocation Atype.invalid field iter h = tt

  pub Layout-Nests :
      (nesting : ℕ) (fields : List Field) (dest : ℕ)
      → Nests nesting fields
      → Layout (Unit {0}) Everywhere Elsewhere descriptors nesting fields dest
  Layout-Nests zero fields dest h = h
  Layout-Nests (suc nesting) fields dest (array, nonempty, plain, inside) = record {
    array = array;
    nonempty = nonempty;
    countable = λ p h. tt;
    plain = plain;
    fits = λ i lt.
        by_allocation (Layout (Unit {0}) Everywhere Elsewhere descriptors nesting)
          (field_at fields i).atype (field_at fields i) (iter_at fields dest i)
          (λ e sub there at. Layout-Nests nesting sub at (inside i lt e sub there));
  }

module _ {S : Type 0} (handlers : Handlers S)
    (contract : Contract (Unit {0}) Everywhere Elsewhere handlers) where
  -- A message without extensions and with at least one field, whose submessages are at most
  -- `nesting` deep, and callbacks of fields that return and take a byte where they leave some. In
  -- every memory, whatever stands in the structure, and on every stream that is readable and
  -- shorter than `depth`, pb_decode comes to an end: the fuel is enough.
  pub pb_decode_terminates :
      (nesting links depth : ℕ) (fields : List Field) (dest : ℕ) (s : Decoding S)
      → Nests handlers.descriptors nesting fields
      → s.stream.bytes_left < depth
      → IsReadable s.stream
      → ¬ (pb_decode handlers nesting links depth fields dest s ≡ stuck)
  pb_decode_terminates nesting links depth fields dest s h lt readable e =
      subst
        (λ o. Confined (Unit {0}) Everywhere Elsewhere (Anyhow (Unit {0}) Everywhere Elsewhere) s o)
        e
        (pb_decode-Confined (Unit {0}) Everywhere Elsewhere handlers contract nesting links depth
          fields dest s (Layout-Nests handlers.descriptors nesting fields dest h) lt
          (record {
            writable = λ a r n. tt;
            constants = λ a out. absurd (out tt);
            readable = readable;
          }))
