-- ===== src/Nanopb/Defaults.antt =====
-- The initialization of pb_decode.c: pb_field_set_to_default and pb_message_set_to_defaults.
use swe_capstone.Common.{
  ℕ, zero, suc, ◌+◌, Bool, true, false, not, Option, List, ◌==◌, length, if◌then◌else◌,
}
use swe_capstone.Nanopb.Stream.{stuck, Action, ◌>>=◌, ◌>>◌, pure}
use swe_capstone.Nanopb.Field.{
  Ltype, Htype, Atype, Field, FieldIter, current, is_extension, pb_field_iter_begin,
  pb_field_iter_next,
}
use swe_capstone.Nanopb.EncodeMessage.{fetch, is_pointer}
use swe_capstone.Nanopb.DecodeState.{Decoding, get, put, memset_zero, memcpy}

-- A pb_extension_t: pointers to its type, its data and the next one, and then `found`. The third
-- word of the type points to the descriptor.
abbrev pub extension_dest : ℕ → ℕ
extension_dest extension = extension + 8

abbrev pub extension_next : ℕ → ℕ
extension_next extension = extension + 16

abbrev pub extension_found : ℕ → ℕ
extension_found extension = extension + 24

-- PB_HTYPE_REPEATED or PB_HTYPE_ONEOF
abbrev pub is_counted : Htype → Bool
is_counted Htype.repeated = true
is_counted Htype.oneof = true
is_counted _ = false

module _ {S : Type 0} (descriptors : ℕ → Option (List Field)) where
  -- `(const pb_field_t*)extension->type->arg`
  unfoldable pub extension_fields : ℕ → Action (Decoding S) (List Field)
  extension_fields extension =
      get 8 extension >>= λ type. get 8 (type + 16) >>= λ arg. fetch (descriptors arg)

  unfoldable pub iter_from_extension : ℕ → Action (Decoding S) FieldIter
  iter_from_extension extension = extension_fields extension >>= λ fields.
      get 8 (extension_dest extension) >>= λ dest.
      let iter = (pb_field_iter_begin fields dest).0 in
      pure (record iter {
        p_data = if is_pointer (current iter).atype then extension_dest extension else dest;
        p_size = extension_found extension;
      })

  -- `while (ext != NULL)`, with fuel. `set_to_default` is pb_field_set_to_default.
  unfoldable pub extension_defaults :
      (FieldIter → Action (Decoding S) (Unit {0})) → ℕ → ℕ → Action (Decoding S) (Unit {0})
  extension_defaults set_to_default zero extension = λ state. stuck
  extension_defaults set_to_default (suc links) extension = elim (extension == 0) [
    | true ↦ pure tt
    | false ↦
        put 1 (extension_found extension) 0
        >> (iter_from_extension extension >>= set_to_default)
        >> (get 8 (extension_next extension) >>= extension_defaults set_to_default links)
  ]

  -- `do { … } while (pb_field_iter_next(&iter));`
  unfoldable pub defaults_loop :
      (FieldIter → Action (Decoding S) (Unit {0})) → ℕ → FieldIter → Action (Decoding S) (Unit {0})
  defaults_loop set_to_default zero iter = λ state. stuck
  defaults_loop set_to_default (suc rounds) iter =
      set_to_default iter
      >> (let (next, more) = pb_field_iter_next iter in
          elim more [ true ↦ defaults_loop set_to_default rounds next | false ↦ pure tt ])

  abbrev pub defaults_from :
      (FieldIter → Action (Decoding S) (Unit {0}))
      → ℕ
      → FieldIter × Bool
      → Action (Decoding S) (Unit {0})
  defaults_from set_to_default rounds (iter, true) = defaults_loop set_to_default rounds iter
  defaults_from set_to_default rounds (iter, false) = pure tt

  unfoldable pub message_defaults :
      (FieldIter → Action (Decoding S) (Unit {0})) → List Field → ℕ → Action (Decoding S) (Unit {0})
  message_defaults set_to_default fields dest_struct =
      defaults_from set_to_default (length fields) (pb_field_iter_begin fields dest_struct)

  -- `if (init_data)`
  unfoldable pub init_data :
      (FieldIter → Action (Decoding S) (Unit {0}))
      → Ltype
      → Field
      → ℕ
      → Action (Decoding S) (Unit {0})
  init_data set_to_default Ltype.submessage field p_data =
      fetch (descriptors field.ptr) >>= λ fields. message_defaults set_to_default fields p_data
  init_data set_to_default ltype field p_data =
      if not (field.ptr == 0)
      then memcpy p_data field.ptr field.data_size
      else memset_zero p_data field.data_size

  -- A field in the structure itself.
  unfoldable pub static_default :
      (FieldIter → Action (Decoding S) (Unit {0}))
      → Htype
      → Field
      → FieldIter
      → Action (Decoding S) (Unit {0})
  static_default set_to_default Htype.required field iter =
      init_data set_to_default field.ltype field iter.p_data
  static_default set_to_default Htype.optional field iter =
      if iter.p_size == iter.p_data
      then init_data set_to_default field.ltype field iter.p_data
      else (put 1 iter.p_size 0 >> init_data set_to_default field.ltype field iter.p_data)
  static_default set_to_default Htype.repeated field iter = put 4 iter.p_size 0
  static_default set_to_default Htype.oneof field iter = put 4 iter.p_size 0

  unfoldable pub pointer_default : Field → FieldIter → Action (Decoding S) (Unit {0})
  pointer_default field iter =
      put 8 iter.p_data 0 >> (if is_counted field.htype then put 4 iter.p_size 0 else pure tt)

  abbrev pub default_by_allocation :
      (FieldIter → Action (Decoding S) (Unit {0}))
      → Atype
      → Field
      → FieldIter
      → Action (Decoding S) (Unit {0})
  default_by_allocation set_to_default Atype.static field iter =
      static_default set_to_default field.htype field iter
  default_by_allocation set_to_default Atype.pointer field iter = pointer_default field iter
  default_by_allocation set_to_default Atype.callback field iter = pure tt
  default_by_allocation set_to_default Atype.invalid field iter = pure tt

  -- `links` is the fuel for a list of extensions.
  unfoldable pub default_by_type :
      (FieldIter → Action (Decoding S) (Unit {0}))
      → ℕ
      → Field
      → FieldIter
      → Action (Decoding S) (Unit {0})
  unfolding static_default pointer_default extension_defaults
  default_by_type set_to_default links field iter =
      if is_extension field.ltype
      then (get 8 iter.p_data >>= extension_defaults set_to_default links)
      else default_by_allocation set_to_default field.atype field iter

  -- The fuel bounds the depth of submessages and extensions.
  unfoldable pub pb_field_set_to_default : ℕ → ℕ → FieldIter → Action (Decoding S) (Unit {0})
  unfolding default_by_type init_data message_defaults defaults_loop iter_from_extension
      extension_fields
  pb_field_set_to_default zero links iter = λ state. stuck
  pb_field_set_to_default (suc depth) links iter =
      default_by_type (pb_field_set_to_default depth links) links (current iter) iter

  unfoldable pub pb_message_set_to_defaults :
      ℕ → ℕ → List Field → ℕ → Action (Decoding S) (Unit {0})
  pb_message_set_to_defaults depth links = message_defaults (pb_field_set_to_default depth links)
