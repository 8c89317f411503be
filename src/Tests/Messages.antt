-- ===== src/Tests/Messages.antt =====
-- A message with a number, a packed array and a submessage, in a structure at address 1000.
use swe_capstone.Common.{
  ℕ, ◌+◌, ◌%◌, length, ◌-◌, ◌≡◌, refl, List, [], ◌∷◌, none, some, leb, ◌==◌, get_elem?, arith,
  if◌then◌else◌,
}
use swe_capstone.Common.Int.{pos, negsuc}
use swe_capstone.Nanopb.Stream.{size_mod, done, Ostream, buffer}
use swe_capstone.Nanopb.Field.{
  Ltype, Htype, Atype, Field, pb_field_iter_find, pb_field_iter_begin, pb_field_iter_next, advance,
  load,
}
use swe_capstone.Nanopb.Field.Finding.{Finds, pb_field_iter_find_lem}
use swe_capstone.Nanopb.Field.Stepping.{iter_at}
use swe_capstone.Nanopb.EncodeMessage.{
  Program, pb_encoders, array_loop, encode_array, items_size, packed_array, packed_items,
  packed_size, pb_enc_submessage, pb_encode_submessage, send, sent, submessage_body,
}
use swe_capstone.Nanopb.EncodeField.{
  encode_field, encode_basic_field, size_pointer, follow_pointer, encode_by_rule, encode_if,
}
use swe_capstone.Nanopb.EncodeValue.{
  pb_encode_tag_for_field, pb_enc_varint, pb_enc_uvarint, load_signed, load_unsigned,
}
use swe_capstone.Nanopb.Encode.{
  pb_encode_tag, pb_encode_varint, varint_buffer, tag_value, varint_loop, unset_last,
}
use swe_capstone.Nanopb.Output.{
  pb_write, written, sink_write, read_exact, buf_write_loop, checked_write, write_by,
  pb_ostream_sizing,
}
use swe_capstone.Nanopb.Message.{pb_encode, encode_loop, pb_get_encoded_size, pb_encode_delimited}
use swe_capstone.Nanopb.Sizes.Messages.{IsConsistent, pb_get_encoded_size-pb_encode}
use swe_capstone.Nanopb.Sizes.Prefix.{pb_encode_delimited-size}

-- int32 count = 1;
abbrev pub count_field : Field
count_field = record {
  tag = 1;
  ltype = Ltype.varint;
  htype = Htype.required;
  atype = Atype.static;
  data_offset = 0;
  size_offset = pos 0;
  data_size = 4;
  array_size = 0;
  ptr = 0;
}

-- repeated uint32 items = 2; with the count of the items before them.
abbrev pub items_field : Field
items_field = record {
  tag = 2;
  ltype = Ltype.uvarint;
  htype = Htype.repeated;
  atype = Atype.static;
  data_offset = 4;
  size_offset = negsuc 3;
  data_size = 2;
  array_size = 3;
  ptr = 0;
}

-- Inner inner = 3; its descriptor is at 500.
abbrev pub inner_field : Field
inner_field = record {
  tag = 3;
  ltype = Ltype.submessage;
  htype = Htype.required;
  atype = Atype.static;
  data_offset = 2;
  size_offset = pos 0;
  data_size = 4;
  array_size = 0;
  ptr = 500;
}

abbrev pub outer : List Field
outer = count_field ∷ items_field ∷ inner_field ∷ []

-- count = -1, two items 5 and 300, and the inner count 7.
abbrev pub image : List ℕ
image = 255 ∷ 255 ∷ 255 ∷ 255 ∷ 2 ∷ 0 ∷ 0 ∷ 0 ∷ 5 ∷ 0 ∷ 44 ∷ 1 ∷ 0 ∷ 0 ∷ 0 ∷ 0 ∷ 7 ∷ 0 ∷ 0 ∷ 0 ∷ []

abbrev program : Program (Unit {0})
program = record {
  memory = λ address. if leb 1000 address then get_elem? image (address - 1000) else none;
  descriptors = λ address. if address == 500 then some (count_field ∷ []) else none;
  encoders = λ address. none;
  extension_encoders = λ address. none;
}

program-IsConsistent : IsConsistent program
program-IsConsistent = record {
  field_callbacks = λ address encode e. cc;
  extension_callbacks = λ address encode e. cc;
}

abbrev zeros : List ℕ
zeros = 0 ∷ 0 ∷ 0 ∷ 0 ∷ 0 ∷ 0 ∷ 0 ∷ 0 ∷ 0 ∷ 0 ∷ 0 ∷ 0 ∷ 0 ∷ 0 ∷ 0 ∷ 0 ∷ 0 ∷ 0 ∷ 0 ∷ 0 ∷ 0 ∷ []

abbrev empty : Ostream (Unit {0})
empty = record { sink = buffer zeros 0; max_size = 21; bytes_written = 0; errmsg = none }

-- 08 and ten bytes of -1, 12 03 05 ac 02, 1a 02 08 07.
abbrev pub written_bytes : List ℕ
written_bytes =
    8 ∷ 255 ∷ 255 ∷ 255 ∷ 255 ∷ 255 ∷ 255 ∷ 255 ∷ 255 ∷ 255 ∷ 1 ∷ 18 ∷ 3 ∷ 5 ∷ 172 ∷ 2 ∷ 26 ∷ 2 ∷ 8
    ∷ 7 ∷ 0 ∷ []

abbrev full : Ostream (Unit {0})
full = record { sink = buffer written_bytes 20; max_size = 21; bytes_written = 20; errmsg = none }

outer_run : pb_encode program 2 1 outer 1000 empty ≡ done tt full
unfolding pb_field_iter_begin pb_field_iter_next advance load encode_field encode_basic_field
    size_pointer follow_pointer encode_by_rule encode_if pb_encode_tag_for_field pb_enc_varint
    pb_enc_uvarint load_signed load_unsigned pb_encode_tag pb_encode_varint varint_buffer tag_value
    varint_loop unset_last pb_write written sink_write read_exact buf_write_loop checked_write
    write_by pb_ostream_sizing pb_encoders array_loop encode_array items_size packed_array
    packed_items packed_size pb_enc_submessage pb_encode_submessage send sent submessage_body
    pb_encode encode_loop
outer_run = refl

pb_get_encoded_size-pb_encode_example : pb_get_encoded_size program 2 1 outer 1000 ≡ done 20 tt
pb_get_encoded_size-pb_encode_example =
    pb_get_encoded_size-pb_encode program program-IsConsistent 2 1 outer 1000 empty full refl
      outer_run

-- A search for tag 1 from the last field goes round the end of the array.
pb_field_iter_find_lem_example :
    Finds outer 1000 1 2
      (refl, (refl, (refl, tt)))
      (omega arith)
      (pb_field_iter_find 1 (iter_at outer 1000 2))
pb_field_iter_find_lem_example =
    pb_field_iter_find_lem outer 1000 1 2 (refl, (refl, (refl, tt))) (omega arith)

abbrev inner_sent : Ostream (Unit {0})
inner_sent = record {
  sink = buffer (2 ∷ 8 ∷ 7 ∷ 0 ∷ []) 3;
  max_size = 4;
  bytes_written = 3;
  errmsg = none;
}

abbrev room : Ostream (Unit {0})
room = record {
  sink = buffer (0 ∷ 0 ∷ 0 ∷ 0 ∷ []) 0;
  max_size = 4;
  bytes_written = 0;
  errmsg = none;
}

inner_run : pb_encode_delimited program 1 1 (count_field ∷ []) 1016 room ≡ done tt inner_sent
unfolding pb_field_iter_begin pb_field_iter_next advance load encode_field encode_basic_field
    size_pointer follow_pointer encode_by_rule encode_if pb_encode_tag_for_field pb_enc_varint
    pb_enc_uvarint load_signed load_unsigned pb_encode_tag pb_encode_varint varint_buffer tag_value
    varint_loop unset_last pb_write written sink_write read_exact buf_write_loop checked_write
    write_by pb_ostream_sizing pb_encoders array_loop encode_array items_size packed_array
    packed_items packed_size pb_enc_submessage pb_encode_submessage send sent submessage_body
    pb_encode encode_loop pb_encode_delimited
inner_run = refl

pb_encode_delimited-size_example :
    (size : ℕ) × (bytes : List ℕ) × (pb_get_encoded_size program 1 1 (count_field ∷ []) 1016
      ≡ done size tt)
    × (varint_buffer size ≡ some bytes)
    × (3 ≡ (0 + length bytes + size) % size_mod)
pb_encode_delimited-size_example =
    pb_encode_delimited-size program 1 1 (count_field ∷ []) 1016 room inner_sent inner_run
