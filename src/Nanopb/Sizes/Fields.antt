-- ===== src/Nanopb/Sizes/Fields.antt =====
-- Fields of pb_encode.c count what they write.
use swe_capstone.Common.{
  ℕ, zero, suc, ◌+◌, Bool, true, false, List, length, Bool-cases, inl, inr, ◌==◌,
}
use swe_capstone.Common.Int.{ℤ, pos, negsuc}
use swe_capstone.Nanopb.Stream.{Action, Ostream}
use swe_capstone.Nanopb.Field.{
  Ltype, Htype, Atype, Field, FieldIter, current, pb_field_iter_begin, pb_field_iter_next,
}
use swe_capstone.Nanopb.EncodeMessage.{Encoder, Program, Messages, pb_encoders}
use swe_capstone.Nanopb.EncodeField.{
  all_zero, default_loop, default_fields, check_default, pb_check_proto3_default_value, SizePointer,
  at_address, implicit_has, load_has, load_count, implicit_size, size_pointer, follow_pointer,
  encode_if, encode_by_rule, encode_basic_field,
}
use swe_capstone.Nanopb.Sizes.{
  Mirrors, stuck-Mirrors, pure-Mirrors, fault-Mirrors, out_error-Mirrors, fetch-Mirrors, if-Mirrors,
  bind-Mirrors, then-Mirrors,
}
use swe_capstone.Nanopb.Sizes.Values.{
  load-Mirrors, load_byte-Mirrors, pb_encode_tag_for_field-Mirrors,
}
use swe_capstone.Nanopb.Sizes.Arrays.{encode_array-Mirrors}
use swe_capstone.Nanopb.Sizes.Submessages.{pb_encoders-Mirrors}

module _ {S : Type 0} (program : Program S) where
  all_zero-Mirrors : (count p : ℕ) → Mirrors (all_zero program count p)
  unfolding all_zero
  all_zero-Mirrors zero p = pure-Mirrors true
  all_zero-Mirrors (suc count) p =
      let rest = all_zero-Mirrors count (p + 1) in
      bind-Mirrors _ _ (load_byte-Mirrors program.memory p)
        (λ b. elim (Bool-cases (b == 0)) [ inl e ↦ rw e rest | inr e ↦ rw e (pure-Mirrors false) ])

  default_loop-Mirrors :
      (check : Field → ℕ → Action (Ostream S) Bool)
      → ((field : Field) (p : ℕ) → Mirrors (check field p))
      → (rounds : ℕ) (iter : FieldIter) → Mirrors (default_loop program check rounds iter)
  unfolding default_loop
  default_loop-Mirrors check each zero iter = stuck-Mirrors
  default_loop-Mirrors check each (suc rounds) iter =
      let rest = default_loop-Mirrors check each rounds (pb_field_iter_next iter).0 in
      bind-Mirrors _ _ (each (current iter) iter.p_data) (λ is_default.
        elim (Bool-cases is_default) [
          | inr e ↦ rw e (pure-Mirrors false)
          | inl e ↦ elim (Bool-cases (pb_field_iter_next iter).1) [
            | inl more ↦ rw e (rw more rest)
            | inr end ↦ rw e (rw end (pure-Mirrors true))
          ]
        ])

  default_fields-Mirrors :
      (check : Field → ℕ → Action (Ostream S) Bool)
      → ((field : Field) (p : ℕ) → Mirrors (check field p))
      → (fields : List Field) (begin : FieldIter × Bool)
      → Mirrors (default_fields program check fields begin)
  default_fields-Mirrors check each fields (iter, true) =
      default_loop-Mirrors check each (length fields) iter
  default_fields-Mirrors check each fields (iter, false) = pure-Mirrors true

  check_default-Mirrors :
      (check : Field → ℕ → Action (Ostream S) Bool)
      → ((field : Field) (p : ℕ) → Mirrors (check field p))
      → (atype : Atype) (type : Ltype) (field : Field) (p : ℕ)
      → Mirrors (check_default program check atype type field p)
  unfolding check_default
  check_default-Mirrors check each Atype.static Ltype.bytes field p =
      bind-Mirrors _ _ (load-Mirrors program.memory 4 p) (λ size. pure-Mirrors _)
  check_default-Mirrors check each Atype.static Ltype.string field p =
      bind-Mirrors _ _ (load_byte-Mirrors program.memory p) (λ b. pure-Mirrors _)
  check_default-Mirrors check each Atype.static Ltype.fixed_length_bytes field p = pure-Mirrors _
  check_default-Mirrors check each Atype.static Ltype.submessage field p =
      bind-Mirrors _ _ (fetch-Mirrors (program.descriptors field.ptr))
        (λ fields. default_fields-Mirrors check each fields (pb_field_iter_begin fields p))
  check_default-Mirrors check each _ _ field p = all_zero-Mirrors field.data_size p

  check-Mirrors :
      (depth : ℕ) (field : Field) (p : ℕ)
      → Mirrors (pb_check_proto3_default_value program depth field p)
  unfolding pb_check_proto3_default_value
  check-Mirrors zero field p = stuck-Mirrors
  check-Mirrors (suc depth) field p =
      check_default-Mirrors (pb_check_proto3_default_value program depth) (check-Mirrors depth)
        field.atype field.ltype field p

  load_has-Mirrors : (size : SizePointer) → Mirrors (load_has program size)
  load_has-Mirrors (at_address p) =
      bind-Mirrors _ _ (load_byte-Mirrors program.memory p) (λ b. pure-Mirrors _)
  load_has-Mirrors (implicit_has has) = pure-Mirrors has

  load_count-Mirrors : (size : SizePointer) → Mirrors (load_count program size)
  load_count-Mirrors (at_address p) = load-Mirrors program.memory 4 p
  load_count-Mirrors (implicit_has has) = fault-Mirrors

  implicit_size-Mirrors :
      (depth : ℕ) (htype : Htype) (field : Field) (p : ℕ)
      → Mirrors (implicit_size program depth htype field p)
  implicit_size-Mirrors depth Htype.optional field p =
      bind-Mirrors _ _ (check-Mirrors depth field p) (λ is_default. pure-Mirrors _)
  implicit_size-Mirrors depth _ field p = pure-Mirrors _

  size_pointer-Mirrors :
      (depth : ℕ) (offset : ℤ) (field : Field) (p : ℕ)
      → Mirrors (size_pointer program depth offset field p)
  unfolding size_pointer
  size_pointer-Mirrors depth (pos zero) field p = implicit_size-Mirrors depth field.htype field p
  size_pointer-Mirrors depth (pos (suc n)) field p = pure-Mirrors _
  size_pointer-Mirrors depth (negsuc n) field p = pure-Mirrors _

  follow_pointer-Mirrors :
      (atype : Atype) (p : ℕ) (size : SizePointer) → Mirrors (follow_pointer program atype p size)
  unfolding follow_pointer
  follow_pointer-Mirrors Atype.pointer p size =
      bind-Mirrors _ _ (load-Mirrors program.memory 8 p) (λ target. pure-Mirrors _)
  follow_pointer-Mirrors _ p size = pure-Mirrors _

  encode_if-Mirrors :
      (has : Bool) (func : Encoder S) (field : Field) (p : ℕ)
      → Mirrors (func field p)
      → Mirrors (encode_if program has func field p)
  unfolding encode_if
  encode_if-Mirrors has func field p each =
      if-Mirrors _ _ _ (then-Mirrors _ _ (pb_encode_tag_for_field-Mirrors field) each)
        (pure-Mirrors tt)

module _ {S : Type 0} (program : Program S) (messages : Messages S) where
  encode_by_rule-Mirrors :
      (htype : Htype) (field : Field) (place : ℕ × SizePointer)
      → Mirrors
          (encode_by_rule program htype (pb_encoders program messages field.ltype) field place)
  unfolding encode_by_rule
  encode_by_rule-Mirrors Htype.required field (p, size) = if-Mirrors _ _ _ (out_error-Mirrors _) (
      encode_if-Mirrors program true (pb_encoders program messages field.ltype) field p
        (pb_encoders-Mirrors program messages field.ltype field p))
  encode_by_rule-Mirrors Htype.optional field (p, size) =
      bind-Mirrors _ _ (load_has-Mirrors program size) (λ has.
        encode_if-Mirrors program has (pb_encoders program messages field.ltype) field p
          (pb_encoders-Mirrors program messages field.ltype field p))
  encode_by_rule-Mirrors Htype.repeated field (p, size) =
      bind-Mirrors _ _ (load_count-Mirrors program size) (λ count.
        encode_array-Mirrors program messages field p count
          (pb_encoders-Mirrors program messages field.ltype field))
  encode_by_rule-Mirrors Htype.oneof field (p, size) =
      bind-Mirrors _ _ (load_count-Mirrors program size) (λ which.
        encode_if-Mirrors program _ (pb_encoders program messages field.ltype) field p
          (pb_encoders-Mirrors program messages field.ltype field p))

  pub encode_basic_field-Mirrors :
      (depth : ℕ) (field : Field) (p : ℕ)
      → Mirrors (encode_basic_field program messages depth field p)
  unfolding encode_basic_field
  encode_basic_field-Mirrors depth field p =
      bind-Mirrors _ _
        (bind-Mirrors _ _ (size_pointer-Mirrors program depth field.size_offset field p)
          (follow_pointer-Mirrors program field.atype p))
        (encode_by_rule-Mirrors field.htype field)
