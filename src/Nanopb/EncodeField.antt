-- ===== src/Nanopb/EncodeField.antt =====
-- The rest of the message encoder of pb_encode.c: default values and fields.
use swe_capstone.Common.{
  ℕ, zero, suc, ◌+◌, Bool, true, false, not, List, ◌==◌, length, if◌then◌else◌,
}
use swe_capstone.Common.Int.{ℤ, pos, negsuc}
use swe_capstone.Nanopb.Stream.{
  missing_required_field, invalid_field_type, callback_error, Outcome, failed, fault, stuck, Action,
  ◌>>=◌, ◌>>◌, pure, Ostream,
}
use swe_capstone.Nanopb.Output.{out_error}
use swe_capstone.Nanopb.Field.{
  Ltype, Htype, Atype, Field, FieldIter, current, pb_field_iter_begin, pb_field_iter_next,
  add_offset, load, load_byte,
}
use swe_capstone.Nanopb.EncodeValue.{pb_encode_tag_for_field}
use swe_capstone.Nanopb.EncodeMessage.{Encoder, Program, Messages, fetch, encode_array, pb_encoders}

-- `pSize`: an address, or that of the local `implicit_has`.
pub data SizePointer : Type 0 where
  at_address : ℕ → SizePointer
  implicit_has : Bool → SizePointer

-- The `if` on pointer fields: the data are behind the pointer.
abbrev pub pointed_has : ℕ → SizePointer → SizePointer
pointed_has p_data (at_address p) = at_address p
pointed_has p_data (implicit_has has) = implicit_has (not (p_data == 0))

module _ {S : Type 0} (program : Program S) where
  -- `for (i = 0; i < field->data_size; i++) if (p[i] != 0) return false;`
  unfoldable pub all_zero : ℕ → ℕ → Action (Ostream S) Bool
  all_zero zero p = pure true
  all_zero (suc count) p = load_byte program.memory p >>= λ b. elim (b == 0) [
    | true ↦ all_zero count (p + 1)
    | false ↦ pure false
  ]

  -- `do { if (!…) return false; } while (pb_field_iter_next(&iter)); return true;`
  unfoldable pub default_loop :
      (Field → ℕ → Action (Ostream S) Bool) → ℕ → FieldIter → Action (Ostream S) Bool
  default_loop check zero iter = λ stream. stuck
  default_loop check (suc rounds) iter = check (current iter) iter.p_data >>= λ is_default.
      elim is_default [
        | false ↦ pure false
        | true ↦
            let (next, more) = pb_field_iter_next iter in
            elim more [ true ↦ default_loop check rounds next | false ↦ pure true ]
      ]

  abbrev pub default_fields :
      (Field → ℕ → Action (Ostream S) Bool)
      → List Field
      → FieldIter × Bool
      → Action (Ostream S) Bool
  default_fields check fields (iter, true) = default_loop check (length fields) iter
  default_fields check fields (iter, false) = pure true

  -- The branches of pb_check_proto3_default_value, with `check` for its call of itself.
  unfoldable pub check_default :
      (Field → ℕ → Action (Ostream S) Bool) → Atype → Ltype → Field → ℕ → Action (Ostream S) Bool
  check_default check Atype.static Ltype.bytes field p_data =
      load program.memory 4 p_data >>= λ size. pure (size == 0)
  check_default check Atype.static Ltype.string field p_data =
      load_byte program.memory p_data >>= λ b. pure (b == 0)
  check_default check Atype.static Ltype.fixed_length_bytes field p_data =
      pure (field.data_size == 0)
  check_default check Atype.static Ltype.submessage field p_data =
      fetch (program.descriptors field.ptr) >>= λ fields.
      default_fields check fields (pb_field_iter_begin fields p_data)
  check_default check _ _ field p_data = all_zero field.data_size p_data

  -- The fuel bounds the depth of submessages.
  unfoldable pub pb_check_proto3_default_value : ℕ → Field → ℕ → Action (Ostream S) Bool
  unfolding check_default default_loop all_zero
  pb_check_proto3_default_value zero field p_data = λ stream. stuck
  pb_check_proto3_default_value (suc depth) field p_data =
      check_default (pb_check_proto3_default_value depth) field.atype field.ltype field p_data

  -- `*(const bool*)pSize`
  abbrev pub load_has : SizePointer → Action (Ostream S) Bool
  load_has (at_address p) = load_byte program.memory p >>= λ b. pure (not (b == 0))
  load_has (implicit_has has) = pure has

  -- `*(const pb_size_t*)pSize`, which the local is too small for.
  abbrev pub load_count : SizePointer → Action (Ostream S) ℕ
  load_count (at_address p) = load program.memory 4 p
  load_count (implicit_has has) = λ stream. fault

  -- The first if-chain of encode_basic_field.
  abbrev pub implicit_size : ℕ → Htype → Field → ℕ → Action (Ostream S) SizePointer
  implicit_size depth Htype.optional field p_data =
      pb_check_proto3_default_value depth field p_data >>= λ is_default.
      pure (implicit_has (not is_default))
  implicit_size depth _ field p_data = pure (implicit_has true)

  unfoldable pub size_pointer : ℕ → ℤ → Field → ℕ → Action (Ostream S) SizePointer
  size_pointer depth (pos zero) field p_data = implicit_size depth field.htype field p_data
  size_pointer depth (pos (suc n)) field p_data =
      pure (at_address (add_offset p_data (pos (suc n))))
  size_pointer depth (negsuc n) field p_data = pure (at_address (add_offset p_data (negsuc n)))

  unfoldable pub follow_pointer : Atype → ℕ → SizePointer → Action (Ostream S) (ℕ × SizePointer)
  follow_pointer Atype.pointer p_data size =
      load program.memory 8 p_data >>= λ target. pure (target, pointed_has target size)
  follow_pointer _ p_data size = pure (p_data, size)

  unfoldable pub encode_if : Bool → Encoder S → Field → ℕ → Action (Ostream S) (Unit {0})
  encode_if has func field p_data =
      if has then (pb_encode_tag_for_field field >> func field p_data) else pure tt

  -- `switch (PB_HTYPE(field->type))`
  unfoldable pub encode_by_rule :
      Htype → Encoder S → Field → ℕ × SizePointer → Action (Ostream S) (Unit {0})
  unfolding encode_if
  encode_by_rule Htype.required func field (p_data, size) =
      if p_data == 0 then out_error missing_required_field else encode_if true func field p_data
  encode_by_rule Htype.optional func field (p_data, size) =
      load_has size >>= λ has. encode_if has func field p_data
  encode_by_rule Htype.repeated func field (p_data, size) =
      load_count size >>= λ count. encode_array program field p_data count func
  encode_by_rule Htype.oneof func field (p_data, size) =
      load_count size >>= λ which. encode_if (which == field.tag) func field p_data

  unfoldable pub encode_basic_field : Messages S → ℕ → Field → ℕ → Action (Ostream S) (Unit {0})
  unfolding size_pointer follow_pointer encode_by_rule
  encode_basic_field messages depth field p_data =
      size_pointer depth field.size_offset field p_data
      >>= follow_pointer field.atype p_data
      >>= encode_by_rule field.htype (pb_encoders program messages field.ltype) field

  -- PB_RETURN_ERROR where the caller's function returns false.
  abbrev pub or_callback_error : Outcome (Ostream S) (Unit {0}) → Outcome (Ostream S) (Unit {0})
  or_callback_error (failed stream) = out_error callback_error stream
  or_callback_error result = result

  -- pb_callback_t: a function in 8 bytes, and then its argument.
  unfoldable pub encode_callback_field : Field → ℕ → Action (Ostream S) (Unit {0})
  encode_callback_field field p_data = load program.memory 8 p_data >>= λ function.
      if function == 0
      then pure tt
      else (fetch (program.encoders function) >>= λ encode stream.
          or_callback_error (encode field (p_data + 8) stream))

  abbrev pub encode_by_allocation :
      Messages S → ℕ → Atype → Field → ℕ → Action (Ostream S) (Unit {0})
  encode_by_allocation messages depth Atype.static field p_data =
      encode_basic_field messages depth field p_data
  encode_by_allocation messages depth Atype.pointer field p_data =
      encode_basic_field messages depth field p_data
  encode_by_allocation messages depth Atype.callback field p_data =
      encode_callback_field field p_data
  encode_by_allocation messages depth Atype.invalid field p_data = out_error invalid_field_type

  unfoldable pub encode_field : Messages S → ℕ → Field → ℕ → Action (Ostream S) (Unit {0})
  encode_field messages depth field p_data =
      encode_by_allocation messages depth field.atype field p_data
