-- ===== src/Lib.antt =====
-- Augmented Campus is an iOS app that leads a user over a campus to a building.
--
-- Module Navigation models its route finding ("Augmented Campus/Augmented Campus"):
--   Navigation.SortedArray  Support/Extensions/Array+Extension.swift: binarySearch, sortedInsert
--   Navigation.Graph        Model/GraphNode.swift: the protocol GraphNode and the class Step
--   Navigation.FindPath     Model/GraphNode.swift: findPath(to:) and findPath(from:)
--   Navigation.Closest      Model/DataManager.swift: findClosestEntrance and findClosest
-- with the proofs in their children: walks and chains of steps (Walks), the queue in one round of
-- the inner loop (Queue, Rounds), what is returned (Sound), termination (Progress, Total), finding
-- the goal (Reaches) and the order of the queue (Order). A node type is a record of its connected
-- nodes, costs and equality, and Double is a type with an addition and an order, since there are no
-- floats. A Set is a list of its elements, and the order in which it is iterated is a parameter.
-- Steps are values: findPath changes a step only while it is in the queue, where no other step
-- refers to it. An Option's none is a trap, such as an index out of range. The loop of findPath
-- runs on fuel; some amount is enough on a finite graph, since each round eliminates a node, or takes
-- out of the queue one of the steps to a node that is eliminated. binarySearch gets the length of
-- the array, since the range that it searches gets shorter in each round. Screens, ARKit, Firebase,
-- the rest of Model/DataManager.swift and the geometry on Double are not modelled.
--
-- Pods/nanopb ("Augmented Campus/Pods/nanopb") is the C runtime that encodes and decodes protocol
-- buffers. Module Nanopb models its streams, the coders of single values, the message encoder and
-- the message decoder:
--   Nanopb.Stream       the types of pb_encode.h, pb_decode.h and pb.h, and the outcome of a C call
--   Nanopb.Output       buf_write, pb_write, pb_ostream_from_buffer (pb_encode.c)
--   Nanopb.Encode       pb_encode_varint to pb_encode_string (pb_encode.c)
--   Nanopb.Input        buf_read, pb_read, pb_readbyte, pb_istream_from_buffer (pb_decode.c)
--   Nanopb.Decode       varints, tags, skipping and raw values (pb_decode.c)
--   Nanopb.Substream    pb_make_string_substream, pb_close_string_substream (pb_decode.c)
--   Nanopb.DecodeFixed  pb_decode_svarint, pb_decode_fixed32, pb_decode_fixed64 (pb_decode.c)
--   Nanopb.Field          the descriptors of pb.h and the field iterator of pb_common.c
--   Nanopb.EncodeValue    pb_encode_tag_for_field and pb_enc_varint to pb_enc_fixed_length_bytes
--   Nanopb.EncodeMessage  encode_array, pb_encode_submessage and PB_ENCODERS (pb_encode.c)
--   Nanopb.EncodeField    pb_check_proto3_default_value, encode_basic_field, encode_field
--   Nanopb.Message        extensions, pb_encode, pb_encode_delimited, pb_get_encoded_size
--   Nanopb.DecodeState    the memory and the stream that the message decoder works on
--   Nanopb.DecodeValue    pb_dec_varint to pb_dec_string, pb_dec_fixed_length_bytes (pb_decode.c)
--   Nanopb.Defaults       iter_from_extension, pb_field_set_to_default, pb_message_set_to_defaults
--   Nanopb.DecodeField    decode_static_field, decode_callback_field, pb_dec_submessage
--   Nanopb.FieldsSeen     fields_seen and the check for required fields in pb_decode_noinit
--   Nanopb.DecodeMessage  extensions, pb_decode_noinit, pb_decode, pb_decode_delimited
-- and proves about them in Nanopb.Sizes, the children of Nanopb.Field, Nanopb.Varint, Nanopb.Fixed,
-- Nanopb.Delimited, Nanopb.Output.Buffer, Nanopb.Input.Memory, Nanopb.Safety, Nanopb.Confined,
-- Nanopb.Unknown, Nanopb.Required and Nanopb.Undefined with Nanopb.Marks and Nanopb.Words,
-- Nanopb.Clamping and Nanopb.Trips with Nanopb.Integers and Nanopb.Stored, and Nanopb.Strings. Nanopb.Layout says which
-- memory a message takes. A stream is a record with its callback and the state of the callback:
-- buf_write and buf_read over a list of bytes, or a function that stands for a callback of the
-- caller, which may change its own state and nothing else of the stream. A C function is a function
-- from a stream to an outcome: true with the values of the out parameters, false, or a fault (an
-- access outside the memory, or a shift of a word by all its bits); a fourth outcome says that the
-- fuel of a loop of the model ran out. size_t has 64 bits and uint_fast8_t has 8.
-- Fuel: the varint decoders get 11 and 5 rounds, one more than the words have groups of seven
-- bits; pb_skip_varint gets one round more than the stream has bytes, since each round takes one;
-- the skipping loop of pb_read gets count / 16 + 1 rounds of 16 bytes. pb_field_iter_find gets one
-- round more than there are fields. pb_encode gets a bound on the depth of submessages and one on
-- the length of a list of extensions, which a descriptor or a list that leads back to itself passes.
-- pb_decode gets a bound on messages inside messages, for which one more than the bytes of the
-- stream is enough since each submessage takes a byte for its tag, one on default values inside
-- default values, and one on a list of extensions; its own loop and the one over a packed array get
-- one round more than there are bytes, and so does the loop over a callback, which a callback that
-- takes nothing would keep for ever.
--
-- A structure in memory is bytes at addresses, with little-endian numbers and pointers of 64 bits;
-- what stands at an address is a parameter of pb_encode, and so are the functions of the caller for
-- callback fields and extensions. They change the stream that they are given and nothing else.
-- pb_decode changes the memory: its functions are actions on the memory and a stream, which come
-- back after an error too, and the functions of the caller may change both. The bytes of a stream
-- are apart from that memory, and every address with a byte can be written. A callback of a stream
-- that returns false has written nothing into the structure. A substream that an error leaves
-- unclosed is dropped, with what its reads did to the state of a callback.
--
-- The configuration is the one of the Pods build: no PB_BUFFER_ONLY, no PB_NO_ERRMSG and no
-- PB_ENABLE_MALLOC. The other libraries under Pods are not modelled.
-- Common holds what the modules share, and Tests runs the model on concrete inputs.
pub mod Common
pub mod Nanopb
pub mod Navigation
pub mod Tests
