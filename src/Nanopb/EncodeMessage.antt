-- ===== src/Nanopb/EncodeMessage.antt =====
-- The message encoder of pb_encode.c: arrays, submessages and the table of the field encoders.
use swe_capstone.Common.{
  ℕ, zero, suc, ◌+◌, ◌*◌, ◌%◌, Bool, true, false, not, ◌&&◌, List, [], Option, none, some, ltb,
  ◌==◌, if◌then◌else◌,
}
use swe_capstone.Nanopb.Stream.{
  array_max_size_exceeded, invalid_field_descriptor, stream_full, submsg_size_changed, size_mod,
  Outcome, done, failed, fault, stuck, Action, ◌>>=◌, ◌>>◌, pure, Sink, sizing, buffer, custom,
  Ostream, wt_string,
}
use swe_capstone.Nanopb.Output.{pb_write, out_error, pb_ostream_sizing}
use swe_capstone.Nanopb.Encode.{pb_encode_varint, pb_encode_tag}
use swe_capstone.Nanopb.Field.{Ltype, Atype, Field, Memory, load}
use swe_capstone.Nanopb.EncodeValue.{
  pb_encode_tag_for_field, pb_enc_varint, pb_enc_uvarint, pb_enc_svarint, pb_enc_fixed32,
  pb_enc_fixed64, pb_enc_bytes, pb_enc_string, pb_enc_fixed_length_bytes,
}

-- pb_encoder_t
abbrev pub Encoder : Type 0 → Type 0
Encoder S = Field → ℕ → Action (Ostream S) (Unit {0})

-- What pb_encode finds at the addresses that it is given: the bytes of the structures, the field
-- arrays, and the functions of the caller for callback fields and extensions.
pub record Program (S : Type 0) : Type 0 where
  pub memory : Memory
  pub descriptors : ℕ → Option (List Field)
  pub encoders : ℕ → Option (Encoder S)
  pub extension_encoders : ℕ → Option (ℕ → Action (Ostream S) (Unit {0}))

abbrev pub Messages : Type 0 → Type 0
Messages S = List Field → ℕ → Action (Ostream S) (Unit {0})

-- `stream->callback == NULL`
abbrev pub is_sizing : {S : Type 0} → Sink S → Bool
is_sizing sizing = true
is_sizing (buffer cells at) = false
is_sizing (custom f state) = false

-- A fetch through a pointer: an address with nothing there is a fault.
abbrev pub fetch : {T A : Type 0} → Option A → Action T A
fetch none t = fault
fetch (some a) t = done a t

abbrev pub is_packable : Ltype → Bool
is_packable Ltype.varint = true
is_packable Ltype.uvarint = true
is_packable Ltype.svarint = true
is_packable Ltype.fixed32 = true
is_packable Ltype.fixed64 = true
is_packable _ = false

abbrev pub is_pointer : Atype → Bool
is_pointer Atype.pointer = true
is_pointer _ = false

-- PB_LTYPE_STRING or PB_LTYPE_BYTES
abbrev pub is_text : Ltype → Bool
is_text Ltype.string = true
is_text Ltype.bytes = true
is_text _ = false

module _ {S : Type 0} where
  -- `for (i = 0; i < count; i++) { if (!func(stream, field, p)) return false; p += data_size; }`
  unfoldable pub array_loop : Encoder S → Field → ℕ → ℕ → Action (Ostream S) (Unit {0})
  array_loop func field zero p = pure tt
  array_loop func field (suc count) p =
      func field p >> array_loop func field count (p + field.data_size)

  -- The items of a packed array on a stream that only counts.
  unfoldable pub items_size : Encoder S → Field → ℕ → ℕ → Action (Ostream S) ℕ
  items_size func field p_data count stream =
      elim (array_loop func field count p_data pb_ostream_sizing) [
        | done x sizestream ↦ done sizestream.bytes_written stream
        | failed sizestream ↦ failed stream
        | fault ↦ fault
        | stuck ↦ stuck
      ]

  unfoldable pub packed_size : Encoder S → Field → Ltype → ℕ → ℕ → Action (Ostream S) ℕ
  packed_size func field Ltype.fixed32 p_data count = pure (4 * count % size_mod)
  packed_size func field Ltype.fixed64 p_data count = pure (8 * count % size_mod)
  packed_size func field _ p_data count = items_size func field p_data count

  -- The size goes first; a stream that only counts is told the size of the rest.
  unfoldable pub packed_items : Encoder S → Field → ℕ → ℕ → ℕ → Action (Ostream S) (Unit {0})
  packed_items func field p_data count size stream =
      if is_sizing stream.sink
      then pb_write [] size stream
      else array_loop func field count p_data stream

  unfoldable pub packed_array : Encoder S → Field → ℕ → ℕ → Action (Ostream S) (Unit {0})
  unfolding packed_items packed_size items_size
  packed_array func field p_data count =
      pb_encode_tag wt_string field.tag
      >> (packed_size func field field.ltype p_data count >>= λ size.
          pb_encode_varint size >> packed_items func field p_data count size)

module _ {S : Type 0} (program : Program S) where
  -- An item of an unpacked array; a text behind a pointer is behind another pointer.
  unfoldable pub unpacked_item : Encoder S → Field → ℕ → Action (Ostream S) (Unit {0})
  unpacked_item func field p =
      if is_pointer field.atype && is_text field.ltype
      then (load program.memory 8 p >>= func field)
      else func field p

  unfoldable pub unpacked_loop : Encoder S → Field → ℕ → ℕ → Action (Ostream S) (Unit {0})
  unpacked_loop func field zero p = pure tt
  unpacked_loop func field (suc count) p =
      pb_encode_tag_for_field field
      >> (unpacked_item func field p >> unpacked_loop func field count (p + field.data_size))

  unfoldable pub encode_array : Field → ℕ → ℕ → Encoder S → Action (Ostream S) (Unit {0})
  encode_array field p_data count func =
      if count == 0
      then pure tt
      else if not (is_pointer field.atype) && ltb field.array_size count
      then out_error array_max_size_exceeded
      else if is_packable field.ltype
      then packed_array func field p_data count
      else unpacked_loop func field count p_data

  -- pb_encode_submessage. `sent` is the end of it: the stream takes over what the substream did.
  unfoldable pub sent : ℕ → Ostream S → Bool → Ostream S → Outcome (Ostream S) (Unit {0})
  sent size stream status substream =
      let stream' = record stream {
        sink = substream.sink;
        bytes_written = (stream.bytes_written + substream.bytes_written) % size_mod;
        errmsg = substream.errmsg;
      } in
      if not (substream.bytes_written == size)
      then out_error submsg_size_changed stream'
      else if status
      then done tt stream'
      else failed stream'

  unfoldable pub send : Messages S → List Field → ℕ → ℕ → Action (Ostream S) (Unit {0})
  unfolding sent
  send messages fields src_struct size stream =
      let substream = record stream { max_size = size; bytes_written = 0; errmsg = none } in
      elim (messages fields src_struct substream) [
        | done x substream' ↦ sent size stream true substream'
        | failed substream' ↦ sent size stream false substream'
        | fault ↦ fault
        | stuck ↦ stuck
      ]

  unfoldable pub submessage_body : Messages S → List Field → ℕ → ℕ → Action (Ostream S) (Unit {0})
  unfolding send
  submessage_body messages fields src_struct size stream =
      if is_sizing stream.sink
      then pb_write [] size stream
      else if ltb stream.max_size ((stream.bytes_written + size) % size_mod)
      then out_error stream_full stream
      else send messages fields src_struct size stream

  unfoldable pub pb_encode_submessage : Messages S → List Field → ℕ → Action (Ostream S) (Unit {0})
  unfolding submessage_body
  pb_encode_submessage messages fields src_struct stream =
      elim (messages fields src_struct pb_ostream_sizing) [
        | done x substream ↦
            (pb_encode_varint substream.bytes_written
                >> submessage_body messages fields src_struct substream.bytes_written)
              stream
        | failed substream ↦ failed (record stream { errmsg = substream.errmsg })
        | fault ↦ fault
        | stuck ↦ stuck
      ]

  unfoldable pub pb_enc_submessage : Messages S → Encoder S
  pb_enc_submessage messages field src =
      if field.ptr == 0
      then out_error invalid_field_descriptor
      else (fetch (program.descriptors field.ptr) >>= λ fields.
          pb_encode_submessage messages fields src)

  -- PB_ENCODERS[PB_LTYPE(field->type)]; the entry for extensions is NULL.
  unfoldable pub pb_encoders : Messages S → Ltype → Encoder S
  pb_encoders messages Ltype.varint = pb_enc_varint program.memory
  pb_encoders messages Ltype.uvarint = pb_enc_uvarint program.memory
  pb_encoders messages Ltype.svarint = pb_enc_svarint program.memory
  pb_encoders messages Ltype.fixed32 = pb_enc_fixed32 program.memory
  pb_encoders messages Ltype.fixed64 = pb_enc_fixed64 program.memory
  pb_encoders messages Ltype.bytes = pb_enc_bytes program.memory
  pb_encoders messages Ltype.string = pb_enc_string program.memory
  pb_encoders messages Ltype.submessage = pb_enc_submessage messages
  pb_encoders messages Ltype.extension = λ field src stream. fault
  pb_encoders messages Ltype.fixed_length_bytes = pb_enc_fixed_length_bytes program.memory
