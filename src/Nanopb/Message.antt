-- ===== src/Nanopb/Message.antt =====
-- The entry points of pb_encode.c: extensions, pb_encode, pb_encode_delimited and
-- pb_get_encoded_size.
use swe_capstone.Common.{ℕ, zero, suc, ◌+◌, Bool, true, false, List, ◌==◌, length, if◌then◌else◌}
use swe_capstone.Nanopb.Stream.{
  Outcome, done, failed, fault, stuck, Action, ◌>>=◌, ◌>>◌, pure, Ostream,
}
use swe_capstone.Nanopb.Output.{pb_ostream_sizing}
use swe_capstone.Nanopb.Field.{
  Ltype, Field, FieldIter, current, field_at, pb_field_iter_begin, pb_field_iter_next, load,
}
use swe_capstone.Nanopb.EncodeMessage.{Program, Messages, fetch, is_pointer, pb_encode_submessage}
use swe_capstone.Nanopb.EncodeField.{encode_field}

module _ {S : Type 0} (program : Program S) where
  -- The field descriptor is what `type->arg` points to, and `dest` is the second word.
  unfoldable pub default_extension_encoder : Messages S → ℕ → ℕ → Action (Ostream S) (Unit {0})
  default_extension_encoder messages depth extension = load program.memory 8 extension >>= λ type.
      load program.memory 8 (type + 16) >>= λ arg. fetch (program.descriptors arg) >>= λ fields.
      let field = field_at fields 0 in
      if is_pointer field.atype
      then encode_field program messages depth field (extension + 8)
      else (load program.memory 8 (extension + 8) >>= encode_field program messages depth field)

  -- One round of `while (extension)`: the type's own encoder, or the default one.
  unfoldable pub encode_extension : Messages S → ℕ → ℕ → Action (Ostream S) (Unit {0})
  unfolding default_extension_encoder
  encode_extension messages depth extension = load program.memory 8 extension >>= λ type.
      load program.memory 8 (type + 8) >>= λ encode.
      if encode == 0
      then default_extension_encoder messages depth extension
      else (fetch (program.extension_encoders encode) >>= λ function. function extension)

  -- The list of extensions from an address on, with fuel.
  unfoldable pub extension_loop : Messages S → ℕ → ℕ → ℕ → Action (Ostream S) (Unit {0})
  unfolding encode_extension
  extension_loop messages depth zero extension = λ stream. stuck
  extension_loop messages depth (suc links) extension = elim (extension == 0) [
    | true ↦ pure tt
    | false ↦
        encode_extension messages depth extension
        >> (load program.memory 8 (extension + 16) >>= extension_loop messages depth links)
  ]

  unfoldable pub encode_extension_field : Messages S → ℕ → ℕ → ℕ → Action (Ostream S) (Unit {0})
  encode_extension_field messages depth links p_data =
      load program.memory 8 p_data >>= extension_loop messages depth links

  -- The body of the loop of pb_encode.
  abbrev pub encode_current : Messages S → ℕ → ℕ → Ltype → Field → ℕ → Action (Ostream S) (Unit {0})
  encode_current messages depth links Ltype.extension field p_data =
      encode_extension_field messages depth links p_data
  encode_current messages depth links _ field p_data =
      encode_field program messages depth field p_data

  -- `do { … } while (pb_field_iter_next(&iter));`
  unfoldable pub encode_loop : Messages S → ℕ → ℕ → ℕ → FieldIter → Action (Ostream S) (Unit {0})
  encode_loop messages depth links zero iter = λ stream. stuck
  encode_loop messages depth links (suc rounds) iter =
      let field = current iter in
      encode_current messages depth links field.ltype field iter.p_data
      >> (let (next, more) = pb_field_iter_next iter in
          elim more [ true ↦ encode_loop messages depth links rounds next | false ↦ pure tt ])

  abbrev pub encode_from : Messages S → ℕ → ℕ → ℕ → FieldIter × Bool → Action (Ostream S) (Unit {0})
  encode_from messages depth links rounds (iter, true) =
      encode_loop messages depth links rounds iter
  encode_from messages depth links rounds (iter, false) = pure tt

  -- `depth` is the fuel for messages inside messages, `links` the one for lists of extensions.
  unfoldable pub pb_encode : ℕ → ℕ → List Field → ℕ → Action (Ostream S) (Unit {0})
  unfolding encode_loop
  pb_encode zero links fields src_struct = λ stream. stuck
  pb_encode (suc depth) links fields src_struct =
      encode_from (pb_encode depth links) depth links (length fields)
        (pb_field_iter_begin fields src_struct)

  unfoldable pub pb_encode_delimited : ℕ → ℕ → List Field → ℕ → Action (Ostream S) (Unit {0})
  pb_encode_delimited depth links fields src_struct =
      pb_encode_submessage program (pb_encode depth links) fields src_struct

  unfoldable pub pb_get_encoded_size : ℕ → ℕ → List Field → ℕ → Outcome (Unit {0}) ℕ
  pb_get_encoded_size depth links fields src_struct =
      elim (pb_encode depth links fields src_struct pb_ostream_sizing) [
        | done x stream ↦ done stream.bytes_written tt
        | failed stream ↦ failed tt
        | fault ↦ fault
        | stuck ↦ stuck
      ]
