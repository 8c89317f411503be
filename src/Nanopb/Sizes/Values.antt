-- ===== src/Nanopb/Sizes/Values.antt =====
-- The field encoders of pb_encode.c for single values count what they write.
use swe_capstone.Common.{
  ℕ, zero, suc, ◌+◌, ◌*◌, ◌≡◌, sym, subst, List, [], length, Option-cases, Bool-cases, inl, inr,
  ◌==◌,
}
use mathlib.Core.Path.{fun_ext}
use swe_capstone.Nanopb.Stream.{fault, pure, Ostream}
use swe_capstone.Nanopb.Output.{pb_write}
use swe_capstone.Nanopb.Encode.{
  pb_encode_varint, pb_encode_svarint, pb_encode_fixed32, pb_encode_fixed64, pb_encode_tag,
  pb_encode_string, varint_buffer,
}
use swe_capstone.Nanopb.Field.{Ltype, Atype, Field, Memory, load, load_byte}
use swe_capstone.Nanopb.EncodeValue.{
  pb_encode_tag_for_field, tag_with, load_unsigned, load_signed, bytes_array, string_size,
  pb_enc_varint, pb_enc_uvarint, pb_enc_svarint, pb_enc_fixed32, pb_enc_fixed64, pb_enc_bytes,
  pb_enc_string, pb_enc_fixed_length_bytes,
}
use swe_capstone.Nanopb.Sizes.{
  Mirrors, pure-Mirrors, fault-Mirrors, out_error-Mirrors, if-Mirrors, bind-Mirrors, then-Mirrors,
  pb_write-Mirrors,
}

module _ {S : Type 0} where
  pub pb_encode_varint-Mirrors : (value : ℕ) → Mirrors {S = S} (pb_encode_varint value)
  unfolding pb_encode_varint
  pb_encode_varint-Mirrors value = elim (Option-cases (varint_buffer value)) [
    | inl e ↦
        let same : pb_encode_varint value ≡ (λ (t : Ostream S). fault) =
          fun_ext (λ t. rw (e, pb_encode_varint)) in
        subst Mirrors (sym same) fault-Mirrors
    | inr (bytes, e) ↦
        let same : pb_encode_varint value ≡ pb_write bytes (length bytes) =
          fun_ext (λ t. rw (e, pb_encode_varint)) in
        subst Mirrors (sym same) (pb_write-Mirrors bytes (length bytes))
  ]

  pub pb_encode_tag-Mirrors : (wire_type tag : ℕ) → Mirrors {S = S} (pb_encode_tag wire_type tag)
  unfolding pb_encode_tag
  pb_encode_tag-Mirrors wire_type tag = pb_encode_varint-Mirrors _

  pb_encode_string-Mirrors : (buf : List ℕ) (size : ℕ) → Mirrors {S = S} (pb_encode_string buf size)
  unfolding pb_encode_string
  pb_encode_string-Mirrors buf size =
      then-Mirrors _ _ (pb_encode_varint-Mirrors size) (pb_write-Mirrors buf size)

  tag_with-Mirrors : (type : Ltype) (tag : ℕ) → Mirrors {S = S} (tag_with type tag)
  tag_with-Mirrors Ltype.extension tag = out_error-Mirrors _
  tag_with-Mirrors _ tag = pb_encode_tag-Mirrors _ tag

  pub pb_encode_tag_for_field-Mirrors :
      (field : Field) → Mirrors {S = S} (pb_encode_tag_for_field field)
  unfolding pb_encode_tag_for_field
  pb_encode_tag_for_field-Mirrors field = tag_with-Mirrors field.ltype field.tag

module _ {S : Type 0} (memory : Memory) where
  pub load_byte-Mirrors : (p : ℕ) → Mirrors {S = S} (load_byte memory p)
  load_byte-Mirrors p = elim (Option-cases (memory p)) [
    | inl e ↦
        let same : load_byte memory p ≡ (λ (t : Ostream S). fault) =
          fun_ext (λ t. rw (e, load_byte)) in
        subst Mirrors (sym same) fault-Mirrors
    | inr (b, e) ↦
        let same : load_byte memory p ≡ pure {T = Ostream S} b = fun_ext (λ t. rw (e, load_byte)) in
        subst Mirrors (sym same) (pure-Mirrors b)
  ]

  pub load-Mirrors : (width p : ℕ) → Mirrors {S = S} (load memory width p)
  unfolding load
  load-Mirrors zero p = pure-Mirrors 0
  load-Mirrors (suc width) p =
      bind-Mirrors _ _ (load_byte-Mirrors p)
        (λ b. bind-Mirrors _ _ (load-Mirrors width (p + 1)) (λ high. pure-Mirrors (b + 256 * high)))

  load_unsigned-Mirrors : (data_size src : ℕ) → Mirrors {S = S} (load_unsigned memory data_size src)
  unfolding load_unsigned
  load_unsigned-Mirrors data_size src = if-Mirrors _ _ _ (load-Mirrors 1 src) (
      if-Mirrors _ _ _ (load-Mirrors 2 src) (
        if-Mirrors _ _ _ (load-Mirrors 4 src)
          (if-Mirrors _ _ _ (load-Mirrors 8 src) (out_error-Mirrors _))))

  load_signed-Mirrors : (data_size src : ℕ) → Mirrors {S = S} (load_signed memory data_size src)
  unfolding load_signed
  load_signed-Mirrors data_size src =
      bind-Mirrors _ _ (load_unsigned-Mirrors data_size src) (λ value. pure-Mirrors _)

  pub pb_enc_varint-Mirrors :
      (field : Field) (src : ℕ) → Mirrors {S = S} (pb_enc_varint memory field src)
  unfolding pb_enc_varint
  pb_enc_varint-Mirrors field src =
      bind-Mirrors _ _ (load_signed-Mirrors field.data_size src) pb_encode_varint-Mirrors

  pub pb_enc_uvarint-Mirrors :
      (field : Field) (src : ℕ) → Mirrors {S = S} (pb_enc_uvarint memory field src)
  unfolding pb_enc_uvarint
  pb_enc_uvarint-Mirrors field src =
      bind-Mirrors _ _ (load_unsigned-Mirrors field.data_size src) pb_encode_varint-Mirrors

  pub pb_enc_svarint-Mirrors :
      (field : Field) (src : ℕ) → Mirrors {S = S} (pb_enc_svarint memory field src)
  unfolding pb_enc_svarint pb_encode_svarint
  pb_enc_svarint-Mirrors field src =
      bind-Mirrors _ _ (load_signed-Mirrors field.data_size src)
        (λ value. pb_encode_varint-Mirrors _)

  pub pb_enc_fixed32-Mirrors :
      (field : Field) (src : ℕ) → Mirrors {S = S} (pb_enc_fixed32 memory field src)
  unfolding pb_enc_fixed32 pb_encode_fixed32
  pb_enc_fixed32-Mirrors field src =
      bind-Mirrors _ _ (load-Mirrors 4 src) (λ value. pb_write-Mirrors _ 4)

  pub pb_enc_fixed64-Mirrors :
      (field : Field) (src : ℕ) → Mirrors {S = S} (pb_enc_fixed64 memory field src)
  unfolding pb_enc_fixed64 pb_encode_fixed64
  pb_enc_fixed64-Mirrors field src =
      bind-Mirrors _ _ (load-Mirrors 8 src) (λ value. pb_write-Mirrors _ 8)

  bytes_array-Mirrors :
      (atype : Atype) (field : Field) (src size : ℕ)
      → Mirrors {S = S} (bytes_array memory atype field src size)
  bytes_array-Mirrors Atype.static field src size =
      if-Mirrors _ _ _ (out_error-Mirrors _) (pb_encode_string-Mirrors _ size)
  bytes_array-Mirrors _ field src size = pb_encode_string-Mirrors _ size

  pub pb_enc_bytes-Mirrors :
      (field : Field) (src : ℕ) → Mirrors {S = S} (pb_enc_bytes memory field src)
  unfolding pb_enc_bytes
  pb_enc_bytes-Mirrors field src =
      if-Mirrors _ _ _ (pb_encode_string-Mirrors [] 0)
        (bind-Mirrors _ _ (load-Mirrors 4 src) (bytes_array-Mirrors field.atype field src))

  string_size-Mirrors : (max_size p : ℕ) → Mirrors {S = S} (string_size memory max_size p)
  unfolding string_size
  string_size-Mirrors zero p = pure-Mirrors 0
  string_size-Mirrors (suc max_size) p =
      let ih = string_size-Mirrors max_size (p + 1) in
      bind-Mirrors _ _ (load_byte-Mirrors p) (λ b. elim (Bool-cases (b == 0)) [
        | inl e ↦ rw e (pure-Mirrors 0)
        | inr e ↦ rw e (bind-Mirrors _ _ ih (λ size. pure-Mirrors (size + 1)))
      ])

  pub pb_enc_string-Mirrors :
      (field : Field) (src : ℕ) → Mirrors {S = S} (pb_enc_string memory field src)
  unfolding pb_enc_string
  pb_enc_string-Mirrors field src =
      if-Mirrors _ _ _ (pb_encode_string-Mirrors [] 0)
        (bind-Mirrors _ _ (string_size-Mirrors _ src) (λ size. pb_encode_string-Mirrors _ size))

  pub pb_enc_fixed_length_bytes-Mirrors :
      (field : Field) (src : ℕ) → Mirrors {S = S} (pb_enc_fixed_length_bytes memory field src)
  unfolding pb_enc_fixed_length_bytes
  pb_enc_fixed_length_bytes-Mirrors field src = pb_encode_string-Mirrors _ field.data_size
