-- ===== src/Nanopb/Sizes/Arrays.antt =====
-- Arrays of pb_encode.c count what they write.
use swe_capstone.Common.{
  ℕ, zero, suc, ◌+◌, ◌*◌, ◌%◌, ◌≡◌, refl, ap, sym, subst, ◌∙◌, arith, Option-cases, inl, inr,
}
use mathlib.Core.Path.{fun_ext}
use native.Mathlib.Nat.{mul-zero, mul-suc}
use swe_capstone.Nanopb.Stream.{size_mod, done, failed, fault, stuck, pure, Ostream, wt_string}
use swe_capstone.Nanopb.Output.{pb_write, pb_ostream_sizing}
use swe_capstone.Nanopb.Encode.{pb_encode_fixed32, pb_encode_fixed64}
use swe_capstone.Nanopb.Field.{Ltype, Field, Memory, load, load_byte}
use swe_capstone.Nanopb.EncodeValue.{pb_enc_fixed32, pb_enc_fixed64}
use swe_capstone.Nanopb.EncodeMessage.{
  Encoder, Program, Messages, array_loop, items_size, packed_size, packed_array, unpacked_item,
  unpacked_loop, encode_array, pb_encoders,
}
use swe_capstone.Nanopb.Sizes.{
  IsMirror, Mirrors, Adds, Outcome-cases, stuck-Mirrors, pure-Mirrors, fault-Mirrors,
  out_error-Mirrors, if-Mirrors, bind-Mirrors, bind-Mirrors_given, then-Mirrors, told-Mirrors,
  continue-done, write_by-size,
}
use swe_capstone.Nanopb.Sizes.Values.{
  pb_encode_varint-Mirrors, pb_encode_tag-Mirrors, pb_encode_tag_for_field-Mirrors, load-Mirrors,
}

module _ {S : Type 0} (func : Encoder S) (field : Field) where
  array_loop-Mirrors :
      ((src : ℕ) → Mirrors (func field src))
      → (count p : ℕ) → Mirrors (array_loop func field count p)
  unfolding array_loop
  array_loop-Mirrors each zero p = pure-Mirrors tt
  array_loop-Mirrors each (suc count) p =
      then-Mirrors _ _ (each p) (array_loop-Mirrors each count (p + field.data_size))

  -- The sizing run of the items gives the size that they have on any stream.
  items_size-Adds :
      ((src : ℕ) → Mirrors (func field src))
      → (p_data count size : ℕ) (t t' : Ostream S)
      → items_size func field p_data count t ≡ done size t'
      → Adds size (array_loop func field count p_data)
  unfolding items_size pb_ostream_sizing
  items_size-Adds each p_data count size t t' r u u' inside run =
      let start : IsMirror u.bytes_written pb_ostream_sizing u = record {
        counts = refl;
        behind = omega arith;
        small = omega arith;
      } in
      let (s', q, mirror) =
        array_loop-Mirrors each count p_data u.bytes_written pb_ostream_sizing u u' tt start run in
      let same : s'.bytes_written ≡ size = cc (rw (q, items_size) at r) in
      omega (arith, mirror.behind)

  items_size-Mirrors : (p_data count : ℕ) → Mirrors (items_size func field p_data count)
  unfolding items_size
  items_size-Mirrors p_data count =
      elim (Outcome-cases (array_loop func field count p_data pb_ostream_sizing)) [
        | inl (x, z, e) ↦
            let same : items_size func field p_data count ≡ pure z.bytes_written =
              fun_ext (λ t. rw (e, items_size)) in
            subst Mirrors (sym same) (pure-Mirrors _)
        | inr (inl (z, e)) ↦
            let same : items_size func field p_data count ≡ (λ stream. failed stream) =
              fun_ext (λ t. rw (e, items_size)) in
            subst Mirrors (sym same) (λ shift s t t' a mirror r. cc)
        | inr (inr (inl e)) ↦
            let same : items_size func field p_data count ≡ (λ stream. fault) =
              fun_ext (λ t. rw (e, items_size)) in
            subst Mirrors (sym same) fault-Mirrors
        | inr (inr (inr e)) ↦
            let same : items_size func field p_data count ≡ (λ stream. stuck) =
              fun_ext (λ t. rw (e, items_size)) in
            subst Mirrors (sym same) stuck-Mirrors
      ]

-- A load leaves the stream alone.
load-same :
    {S : Type 0} (memory : Memory) (width p : ℕ) (t t' : Ostream S) (v : ℕ)
    → load memory width p t ≡ done v t'
    → t ≡ t'
unfolding load
load-same memory zero p t t' v r = cc
load-same {S} memory (suc width) p t t' v r =
    let (b, t1, r1, r2) = continue-done (load_byte memory p t) _ r in
    let (high, t2, r3, r4) = continue-done (load memory width (p + 1) t1) _ r2 in
    let first : t ≡ t1 = load_byte-same b t1 r1 in
    let second = load-same memory width (p + 1) t1 t2 high r3 in
    let third : t2 ≡ t' = cc in first ∙ (second ∙ third)
  where
    load_byte-same : (b : ℕ) (t1 : Ostream S) → load_byte memory p t ≡ done b t1 → t ≡ t1
    load_byte-same b t1 r1 = elim (Option-cases (memory p)) [
      | inl e ↦ cc (rw (e, load_byte) at r1)
      | inr (c, e) ↦ cc (rw (e, load_byte) at r1)
    ]

-- An array of items of a fixed width.
fixed_loop-Adds :
    {S : Type 0} (func : Encoder S) (field : Field) (width : ℕ)
    → ((p : ℕ) → Adds width (func field p))
    → (count p : ℕ) → Adds (width * count) (array_loop func field count p)
unfolding array_loop
fixed_loop-Adds {S} func field width each zero p t t' inside r =
    let same : t ≡ t' = cc in
    let size = ap (λ (u : Ostream S). u.bytes_written) same in omega (arith, mul-zero width)
fixed_loop-Adds func field width each (suc count) p t t' inside r =
    let (x, t1, r1, r2) = continue-done (func field p t) _ r in
    let one = each p t t1 inside r1 in
    let rest =
      fixed_loop-Adds func field width each count (p + field.data_size) t1 t' (omega arith) r2 in
    omega (arith, mul-suc width count)

module _ {S : Type 0} (program : Program S) (messages : Messages S) (field : Field)
    (p_data count : ℕ) where
  fixed32-Adds : (p : ℕ) → Adds 4 (pb_enc_fixed32 {S = S} program.memory field p)
  unfolding pb_enc_fixed32 pb_encode_fixed32 pb_write
  fixed32-Adds p t t' inside r =
      let (v, t1, r1, r2) = continue-done (load program.memory 4 p t) _ r in
      let same = load-same program.memory 4 p t t1 v r1 in
      let grown = write_by-size _ 4 t1.sink t1 t' r2 in
      subst (λ u. t'.bytes_written ≡ (u.bytes_written + 4) % size_mod) (sym same) grown

  fixed64-Adds : (p : ℕ) → Adds 8 (pb_enc_fixed64 {S = S} program.memory field p)
  unfolding pb_enc_fixed64 pb_encode_fixed64 pb_write
  fixed64-Adds p t t' inside r =
      let (v, t1, r1, r2) = continue-done (load program.memory 8 p t) _ r in
      let same = load-same program.memory 8 p t t1 v r1 in
      let grown = write_by-size _ 8 t1.sink t1 t' r2 in
      subst (λ u. t'.bytes_written ≡ (u.bytes_written + 8) % size_mod) (sym same) grown

  -- Whichever way the size of a packed array is found, its items take that many bytes.
  packed_size-Adds :
      (type : Ltype)
      → ((src : ℕ) → Mirrors (pb_encoders program messages type field src))
      → (size : ℕ) (t t' : Ostream S)
      → packed_size (pb_encoders program messages type) field type p_data count t ≡ done size t'
      → Adds size (array_loop (pb_encoders program messages type) field count p_data)
  unfolding packed_size pb_encoders
  packed_size-Adds Ltype.fixed32 each size t t' r u u' inside run =
      let value : 4 * count % size_mod ≡ size = cc in
      let grown =
        fixed_loop-Adds (pb_enc_fixed32 program.memory) field 4 fixed32-Adds count p_data u u'
          inside run in
      omega arith
  packed_size-Adds Ltype.fixed64 each size t t' r u u' inside run =
      let value : 8 * count % size_mod ≡ size = cc in
      let grown =
        fixed_loop-Adds (pb_enc_fixed64 program.memory) field 8 fixed64-Adds count p_data u u'
          inside run in
      omega arith
  packed_size-Adds _ each size t t' r u u' inside run =
      items_size-Adds _ field each p_data count size t t' r u u' inside run

  packed_size-Mirrors :
      (type : Ltype)
      → Mirrors (packed_size (pb_encoders program messages type) field type p_data count)
  unfolding packed_size
  packed_size-Mirrors Ltype.fixed32 = pure-Mirrors _
  packed_size-Mirrors Ltype.fixed64 = pure-Mirrors _
  packed_size-Mirrors _ = items_size-Mirrors _ field p_data count

  packed_array-Mirrors :
      ((src : ℕ) → Mirrors (pb_encoders program messages field.ltype field src))
      → Mirrors (packed_array (pb_encoders program messages field.ltype) field p_data count)
  unfolding packed_array
  packed_array-Mirrors each = then-Mirrors _ _ (pb_encode_tag-Mirrors wt_string field.tag) (
      bind-Mirrors_given _ _ (packed_size-Mirrors field.ltype) (λ size t t' r.
        then-Mirrors _ _ (pb_encode_varint-Mirrors size)
          (told-Mirrors size _ (packed_size-Adds field.ltype each size t t' r))))

  unpacked_item-Mirrors :
      (func : Encoder S)
      → ((src : ℕ) → Mirrors (func field src))
      → (p : ℕ) → Mirrors (unpacked_item program func field p)
  unfolding unpacked_item
  unpacked_item-Mirrors func each p =
      if-Mirrors _ _ _ (bind-Mirrors _ _ (load-Mirrors program.memory 8 p) each) (each p)

  unpacked_loop-Mirrors :
      (func : Encoder S)
      → ((src : ℕ) → Mirrors (func field src))
      → (n p : ℕ) → Mirrors (unpacked_loop program func field n p)
  unfolding unpacked_loop
  unpacked_loop-Mirrors func each zero p = pure-Mirrors tt
  unpacked_loop-Mirrors func each (suc n) p =
      then-Mirrors _ _ (pb_encode_tag_for_field-Mirrors field) (
        then-Mirrors _ _ (unpacked_item-Mirrors func each p)
          (unpacked_loop-Mirrors func each n (p + field.data_size)))

  pub encode_array-Mirrors :
      ((src : ℕ) → Mirrors (pb_encoders program messages field.ltype field src))
      → Mirrors (encode_array program field p_data count (pb_encoders program messages field.ltype))
  unfolding encode_array
  encode_array-Mirrors each = if-Mirrors _ _ _ (pure-Mirrors tt) (
      if-Mirrors _ _ _ (out_error-Mirrors _)
        (if-Mirrors _ _ _ (packed_array-Mirrors each) (unpacked_loop-Mirrors _ each count p_data)))
