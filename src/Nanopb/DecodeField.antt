-- ===== src/Nanopb/DecodeField.antt =====
-- A field of a message in pb_decode.c: decode_static_field, decode_pointer_field,
-- decode_callback_field and decode_field, with pb_dec_submessage and the table of the decoders.
use swe_capstone.Common.{
  ℕ, zero, suc, ◌+◌, ◌*◌, ◌%◌, ◌^◌, Bool, true, false, ◌&&◌, List, Option, ltb, ◌==◌, length,
  if◌then◌else◌,
}
use swe_capstone.Nanopb.Stream.{
  array_overflow, invalid_field_type, invalid_field_descriptor, no_malloc_support, callback_failed,
  fault, stuck, done, Action, ◌>>=◌, ◌>>◌, pure, Istream, wt_string,
}
use swe_capstone.Nanopb.Input.{pb_istream_from_buffer}
use swe_capstone.Nanopb.Decode.{pb_skip_field, read_raw_value}
use swe_capstone.Nanopb.Substream.{pb_make_string_substream, pb_close_string_substream}
use swe_capstone.Nanopb.Field.{Ltype, Htype, Atype, Field, FieldIter, current}
use swe_capstone.Nanopb.EncodeMessage.{fetch, is_packable}
use swe_capstone.Nanopb.DecodeState.{
  Decoding, on_stream, on_substream, return_status, dec_error, get, put, memset_zero,
}
use swe_capstone.Nanopb.DecodeValue.{
  pb_dec_varint, pb_dec_uvarint, pb_dec_svarint, pb_dec_fixed32, pb_dec_fixed64, pb_dec_bytes,
  pb_dec_string, pb_dec_fixed_length_bytes,
}

-- pb_decoder_t, with the type of the callbacks of fields.
abbrev pub Decoder : Type 0 → Type 0
Decoder S = Field → ℕ → Action (Decoding S) (Unit {0})

-- pb_decode and pb_decode_noinit for a submessage, and pb_message_set_to_defaults.
pub record Submessages (S : Type 0) : Type 0 where
  pub decode : List Field → ℕ → Action (Decoding S) (Unit {0})
  pub decode_noinit : List Field → ℕ → Action (Decoding S) (Unit {0})
  pub set_to_defaults : List Field → ℕ → Action (Decoding S) (Unit {0})

-- What stands at the addresses of the field arrays and of the functions of the caller. An extension
-- decoder takes the extension, a tag and a wire type.
pub record Handlers (S : Type 0) : Type 0 where
  pub descriptors : ℕ → Option (List Field)
  pub decoders : ℕ → Option (Decoder S)
  pub extension_decoders : ℕ → Option (ℕ → ℕ → ℕ → Action (Decoding S) (Unit {0}))

abbrev pub is_repeated : Htype → Bool
is_repeated Htype.repeated = true
is_repeated _ = false

abbrev pub is_submessage : Ltype → Bool
is_submessage Ltype.submessage = true
is_submessage _ = false

module _ {S : Type 0} where
  -- The substream is closed, and then comes the status of what was done on it.
  unfoldable pub close_with : Bool × Istream S → Action (Decoding S) (Unit {0})
  close_with (status, substream) =
      on_stream (pb_close_string_substream substream) >> return_status status

  -- The loop over a packed array, on the substream.
  unfoldable pub packed_loop : Decoder S → ℕ → FieldIter → Action (Decoding S) (Unit {0})
  packed_loop func zero iter state = stuck
  packed_loop func (suc rounds) iter state =
      let field = current iter in
      elim (state.stream.bytes_left == 0) [
        | true ↦ done tt state
        | false ↦
            (get 4 iter.p_size >>= λ size. elim (ltb size field.array_size) [
              | false ↦ pure tt
              | true ↦
                  func field (iter.p_data + field.data_size * size % 2 ^ 32)
                  >> (get 4 iter.p_size >>= λ size'. put 4 iter.p_size (size' + 1))
                  >> packed_loop func rounds iter
            ])
              state
      ]

  -- After the loop: `if (substream.bytes_left != 0)`.
  unfoldable pub packed_end : Bool × Istream S → Action (Decoding S) (Unit {0})
  unfolding close_with
  packed_end (status, substream) =
      if substream.bytes_left == 0 then close_with (status, substream) else dec_error array_overflow

  unfoldable pub packed_field : Decoder S → FieldIter → Action (Decoding S) (Unit {0})
  unfolding packed_loop packed_end
  packed_field func iter = on_stream pb_make_string_substream >>= λ substream.
      on_substream (packed_loop func (substream.bytes_left + 1) iter) substream >>= packed_end

  -- One more item of an array.
  unfoldable pub repeated_item : Decoder S → FieldIter → Action (Decoding S) (Unit {0})
  repeated_item func iter = get 4 iter.p_size >>= λ size.
      let field = current iter in
      if ltb size field.array_size
      then (put 4 iter.p_size (size + 1)
          >> func field (iter.p_data + field.data_size * size % 2 ^ 32))
      else dec_error array_overflow

module _ {S : Type 0} (handlers : Handlers S) (submessages : Submessages S) where
  abbrev pub submessage_call : Htype → List Field → ℕ → Action (Decoding S) (Unit {0})
  submessage_call htype fields dest =
      if is_repeated htype
      then submessages.decode fields dest
      else submessages.decode_noinit fields dest

  unfoldable pub pb_dec_submessage : Decoder S
  unfolding close_with
  pb_dec_submessage field dest = on_stream pb_make_string_substream >>= λ substream.
      if field.ptr == 0
      then dec_error invalid_field_descriptor
      else (fetch (handlers.descriptors field.ptr) >>= λ fields.
          on_substream (submessage_call field.htype fields dest) substream >>= close_with)

  -- PB_DECODERS; the entry for extensions is NULL.
  abbrev pub pb_decoders : Ltype → Decoder S
  pb_decoders Ltype.varint = pb_dec_varint
  pb_decoders Ltype.uvarint = pb_dec_uvarint
  pb_decoders Ltype.svarint = pb_dec_svarint
  pb_decoders Ltype.fixed32 = pb_dec_fixed32
  pb_decoders Ltype.fixed64 = pb_dec_fixed64
  pb_decoders Ltype.bytes = pb_dec_bytes
  pb_decoders Ltype.string = pb_dec_string
  pb_decoders Ltype.submessage = pb_dec_submessage
  pb_decoders Ltype.extension = λ field dest state. fault
  pb_decoders Ltype.fixed_length_bytes = pb_dec_fixed_length_bytes

  unfoldable pub oneof_field : Decoder S → FieldIter → Action (Decoding S) (Unit {0})
  oneof_field func iter =
      let field = current iter in
      put 4 iter.p_size field.tag
      >> (if is_submessage field.ltype
          then (memset_zero iter.p_data field.data_size
              >> (fetch (handlers.descriptors field.ptr) >>= λ fields.
                  submessages.set_to_defaults fields iter.p_data))
          else pure tt)
      >> func field iter.p_data

  -- `switch (PB_HTYPE(type))`
  abbrev pub static_by_rule : Htype → Decoder S → ℕ → FieldIter → Action (Decoding S) (Unit {0})
  static_by_rule Htype.required func wire_type iter = func (current iter) iter.p_data
  static_by_rule Htype.optional func wire_type iter =
      if iter.p_size == iter.p_data
      then func (current iter) iter.p_data
      else (put 1 iter.p_size 1 >> func (current iter) iter.p_data)
  static_by_rule Htype.repeated func wire_type iter =
      if (wire_type == wt_string) && is_packable (current iter).ltype
      then packed_field func iter
      else repeated_item func iter
  static_by_rule Htype.oneof func wire_type iter = oneof_field func iter

  unfoldable pub decode_static_field : ℕ → FieldIter → Action (Decoding S) (Unit {0})
  unfolding packed_field repeated_item oneof_field
  decode_static_field wire_type iter =
      static_by_rule (current iter).htype (pb_decoders (current iter).ltype) wire_type iter

  -- Built without PB_ENABLE_MALLOC.
  unfoldable pub decode_pointer_field : ℕ → FieldIter → Action (Decoding S) (Unit {0})
  decode_pointer_field wire_type iter = dec_error no_malloc_support

  -- `pCallback->funcs.decode(&substream, iter->pos, arg)`; the argument is the second word.
  abbrev pub call_decoder : FieldIter → Action (Decoding S) (Unit {0})
  call_decoder iter = get 8 iter.p_data >>= λ function.
      fetch (handlers.decoders function) >>= λ decode. decode (current iter) (iter.p_data + 8)

  -- `do { … } while (substream.bytes_left);` with fuel.
  unfoldable pub callback_loop : ℕ → FieldIter → Action (Decoding S) (Unit {0})
  callback_loop zero iter = λ state. stuck
  callback_loop (suc rounds) iter = call_decoder iter >> (λ state.
      elim (state.stream.bytes_left == 0) [
        | true ↦ done tt state
        | false ↦ callback_loop rounds iter state
      ])

  -- After the loop on the substream.
  unfoldable pub callback_end : Bool × Istream S → Action (Decoding S) (Unit {0})
  unfolding close_with
  callback_end (false, substream) = dec_error callback_failed
  callback_end (true, substream) = close_with (true, substream)

  -- A callback that takes no byte in a round may go on for ever: the fuel is one round for each
  -- byte, and one.
  unfoldable pub callback_string : FieldIter → Action (Decoding S) (Unit {0})
  unfolding callback_loop callback_end
  callback_string iter = on_stream pb_make_string_substream >>= λ substream.
      on_substream (callback_loop (substream.bytes_left + 1) iter) substream >>= callback_end

  -- A scalar goes through a buffer of 10 bytes.
  unfoldable pub callback_scalar : ℕ → FieldIter → Action (Decoding S) (Unit {0})
  callback_scalar wire_type iter = on_stream (read_raw_value wire_type 10) >>= λ buffer.
      on_substream (call_decoder iter) (pb_istream_from_buffer buffer (length buffer)) >>= λ result.
      return_status result.0

  unfoldable pub decode_callback_field : ℕ → FieldIter → Action (Decoding S) (Unit {0})
  unfolding callback_string callback_scalar
  decode_callback_field wire_type iter = get 8 iter.p_data >>= λ function.
      if function == 0
      then on_stream (pb_skip_field wire_type)
      else if wire_type == wt_string
      then callback_string iter
      else callback_scalar wire_type iter

  abbrev pub decode_by_allocation : Atype → ℕ → FieldIter → Action (Decoding S) (Unit {0})
  decode_by_allocation Atype.static wire_type iter = decode_static_field wire_type iter
  decode_by_allocation Atype.pointer wire_type iter = decode_pointer_field wire_type iter
  decode_by_allocation Atype.callback wire_type iter = decode_callback_field wire_type iter
  decode_by_allocation Atype.invalid wire_type iter = dec_error invalid_field_type

  unfoldable pub decode_field : ℕ → FieldIter → Action (Decoding S) (Unit {0})
  unfolding decode_static_field decode_pointer_field decode_callback_field
  decode_field wire_type iter = decode_by_allocation (current iter).atype wire_type iter
