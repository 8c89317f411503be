-- ===== src/Nanopb/Layout.antt =====
-- Where the fields of a message stand in memory: what the descriptors that nanopb generates promise.
use swe_capstone.Common.{
  ℕ, zero, suc, ◌+◌, ◌-◌, ◌*◌, ◌%◌, ◌^◌, ◌≤◌, ◌<◌, ◌≡◌, ◌≢◌, ◌⊎◌, List, Option, none, some,
  Bool-cases, ltb, ltb→lt, ltb→le, inl, inr, subst, true, false, length, arith,
}
use swe_capstone.Nanopb.Field.{Ltype, Htype, Atype, Field, FieldIter, field_at, is_extension}
use swe_capstone.Nanopb.Field.Stepping.{IsArray, iter_at}
use swe_capstone.Nanopb.Confined.{Constants, Covers}
use swe_capstone.Nanopb.Stored.{Image, number}
use swe_capstone.Nanopb.DecodeField.{is_submessage}
use swe_capstone.Nanopb.FieldsSeen.{required_count}

-- The number of required fields, as pb_decode_noinit finds it.
abbrev pub required_total : List Field → ℕ → ℕ
required_total fields dest =
    let last = length fields - 1 in
    required_count
      ((iter_at fields dest last).required_field_index, field_at fields last, iter_at fields dest 0)

module _ (F : Type 0) (R : ℕ → Type 0) (K : Constants) (descriptors : ℕ → Option (List Field)) where
  -- A message in a structure at an address.
  abbrev pub Messages : Type 1
  Messages = List Field → ℕ → Type 0

  -- One value of a field at an address. `Within` is the same for a message inside.
  abbrev pub ItemFits : Messages → Ltype → Field → ℕ → Type 0
  ItemFits Within Ltype.fixed32 field address = Covers R address 4
  ItemFits Within Ltype.fixed64 field address = Covers R address 8
  ItemFits Within Ltype.submessage field address =
      (descriptors field.ptr ≡ none → F)
      × ((fields : List Field) → descriptors field.ptr ≡ some fields → Within fields address)
  ItemFits Within ltype field address = Covers R address field.data_size

  -- A byte that may be read: it is in the region, or it is constant and mapped.
  abbrev pub Reads : ℕ → Type 0
  Reads a = R a ⊎ ((¬ R a) × (K.memory a ≡ none → F))

  -- The default of a field: a constant, or zeros; a message inside has its own.
  abbrev pub InitFits : Ltype → Field → ℕ → Type 0
  InitFits Ltype.submessage field address = Unit {0}
  InitFits ltype field address =
      Covers R address field.data_size
      × (field.ptr ≢ 0 → (a : ℕ) → field.ptr ≤ a → a < field.ptr + field.data_size → Reads a)

  -- A field in the structure itself, by its rule.
  abbrev pub StaticFits : Messages → Htype → Field → FieldIter → Type 0
  StaticFits Within Htype.required field iter =
      InitFits field.ltype field iter.p_data × ItemFits Within field.ltype field iter.p_data
  StaticFits Within Htype.optional field iter =
      (iter.p_size ≢ iter.p_data → Covers R iter.p_size 1)
      × InitFits field.ltype field iter.p_data
      × ItemFits Within field.ltype field iter.p_data
  StaticFits Within Htype.repeated field iter =
      Covers R iter.p_size 4
      × ((k : ℕ)
          → k < field.array_size
          → ItemFits Within field.ltype field (iter.p_data + field.data_size * k % 2 ^ 32))
  StaticFits Within Htype.oneof field iter =
      Covers R iter.p_size 4
      × (is_submessage field.ltype ≡ true → Covers R iter.p_data field.data_size)
      × ItemFits Within field.ltype field iter.p_data

  -- A pointer is set to NULL, with the count of an array.
  abbrev pub PointerFits : Htype → FieldIter → Type 0
  PointerFits Htype.repeated iter = Covers R iter.p_data 8 × Covers R iter.p_size 4
  PointerFits Htype.oneof iter = Covers R iter.p_data 8 × Covers R iter.p_size 4
  PointerFits htype iter = Covers R iter.p_data 8

  -- The first word of a callback field stands outside the region; `P` holds of it.
  abbrev pub Word : (ℕ → Type 0) → ℕ → Type 0
  Word P address =
      (word : List ℕ) × (length word ≡ 8)
      × Image word address K.memory
      × ((a : ℕ) → address ≤ a → a < address + 8 → ¬ R a)
      × P (number word)

  -- It is NULL or the address of a function.
  abbrev pub CallbackFits : FieldIter → Type 0
  CallbackFits iter = F ⊎ Word (λ f. (f ≡ 0) ⊎ K.function f) iter.p_data

  -- A field that is no extension.
  abbrev pub FieldFits : Messages → Atype → Field → FieldIter → Type 0
  FieldFits Within Atype.static field iter = StaticFits Within field.htype field iter
  FieldFits Within Atype.pointer field iter = PointerFits field.htype iter
  FieldFits Within Atype.callback field iter = CallbackFits iter
  FieldFits Within Atype.invalid field iter = Unit {0}

  -- A message with at least one field and without extensions, whose fields stand in `R`. Where all
  -- memory is mapped, the number of its required fields is such that pb_decode_noinit can count
  -- them in its two words of bits.
  pub record MessageFits (Within : Messages) (fields : List Field) (dest : ℕ) : Type 0 where
    pub array : IsArray fields
    pub nonempty : 0 < length fields
    pub countable :
        0 < required_total fields dest
        → (required_total fields dest % 32 ≡ 0) ⊎ (64 ≤ required_total fields dest)
        → F
    pub plain : (i : ℕ) → i < length fields → is_extension (field_at fields i).ltype ≡ false
    pub fits :
        (i : ℕ)
        → i < length fields
        → FieldFits Within (field_at fields i).atype (field_at fields i) (iter_at fields dest i)

  -- With messages inside messages, `nesting` deep at most.
  abbrev pub Layout : ℕ → Messages
  Layout zero fields dest = ⊥
  Layout (suc nesting) fields dest = MessageFits (Layout nesting) fields dest

  -- More room for messages inside messages.
  module _ (Within Within' : Messages)
      (wider : (fields : List Field) (dest : ℕ) → Within fields dest → Within' fields dest) where
    ItemFits-wider :
        (ltype : Ltype) (field : Field) (address : ℕ)
        → ItemFits Within ltype field address
        → ItemFits Within' ltype field address
    ItemFits-wider Ltype.varint field address h = h
    ItemFits-wider Ltype.uvarint field address h = h
    ItemFits-wider Ltype.svarint field address h = h
    ItemFits-wider Ltype.fixed32 field address h = h
    ItemFits-wider Ltype.fixed64 field address h = h
    ItemFits-wider Ltype.bytes field address h = h
    ItemFits-wider Ltype.string field address h = h
    ItemFits-wider Ltype.submessage field address (n, w) =
        (n, λ fields e. wider fields address (w fields e))
    ItemFits-wider Ltype.extension field address h = h
    ItemFits-wider Ltype.fixed_length_bytes field address h = h

    StaticFits-wider :
        (htype : Htype) (field : Field) (iter : FieldIter)
        → StaticFits Within htype field iter
        → StaticFits Within' htype field iter
    StaticFits-wider Htype.required field iter (d, h) =
        (d, ItemFits-wider field.ltype field iter.p_data h)
    StaticFits-wider Htype.optional field iter (o, d, h) =
        (o, d, ItemFits-wider field.ltype field iter.p_data h)
    StaticFits-wider Htype.repeated field iter (c, h) =
        (c, λ k lt. ItemFits-wider field.ltype field _ (h k lt))
    StaticFits-wider Htype.oneof field iter (c, m, h) =
        (c, m, ItemFits-wider field.ltype field iter.p_data h)

    FieldFits-wider :
        (atype : Atype) (field : Field) (iter : FieldIter)
        → FieldFits Within atype field iter
        → FieldFits Within' atype field iter
    FieldFits-wider Atype.static field iter h = StaticFits-wider field.htype field iter h
    FieldFits-wider Atype.pointer field iter h = h
    FieldFits-wider Atype.callback field iter h = h
    FieldFits-wider Atype.invalid field iter h = h

    MessageFits-wider :
        (fields : List Field) (dest : ℕ)
        → MessageFits Within fields dest
        → MessageFits Within' fields dest
    MessageFits-wider fields dest m = record {
      array = m.array;
      nonempty = m.nonempty;
      countable = m.countable;
      plain = m.plain;
      fits = λ i lt.
          FieldFits-wider (field_at fields i).atype (field_at fields i) (iter_at fields dest i)
            (m.fits i lt);
    }

  pub Layout-suc :
      (nesting : ℕ) (fields : List Field) (dest : ℕ)
      → Layout nesting fields dest
      → Layout (suc nesting) fields dest
  Layout-suc zero fields dest h = absurd h
  Layout-suc (suc nesting) fields dest h =
      MessageFits-wider (Layout nesting) (Layout (suc nesting)) (Layout-suc nesting) fields dest h

  pub Layout-le :
      (n nesting : ℕ) (fields : List Field) (dest : ℕ)
      → n ≤ nesting
      → Layout n fields dest
      → Layout nesting fields dest
  Layout-le n zero fields dest le h =
      let none_left : n ≡ 0 = omega arith in subst (λ k. Layout k fields dest) none_left h
  Layout-le n (suc nesting) fields dest le h = elim (Bool-cases (ltb nesting n)) [
    | inl e ↦
        let top : n ≡ suc nesting = omega (arith, ltb→lt nesting n e) in
        subst (λ k. Layout k fields dest) top h
    | inr e ↦
        Layout-suc nesting fields dest (Layout-le n nesting fields dest (ltb→le nesting n e) h)
  ]
