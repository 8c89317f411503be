-- ===== src/Nanopb/DecodeMessage.antt =====
-- The entry points of pb_decode.c: extensions, pb_decode_noinit, pb_decode and pb_decode_delimited.
use swe_capstone.Common.{
  ℕ, zero, suc, ◌+◌, ◌-◌, ◌^◌, Bool, true, false, not, ◌&&◌, List, Option, none, some, leb, ◌==◌,
  length, if◌then◌else◌,
}
use swe_capstone.Nanopb.Stream.{done, failed, stuck, Action, ◌>>=◌, ◌>>◌, pure}
use swe_capstone.Nanopb.Decode.{pb_decode_tag, pb_skip_field}
use swe_capstone.Nanopb.Substream.{pb_make_string_substream}
use swe_capstone.Nanopb.Field.{
  Field, FieldIter, current, field_at, is_extension, pb_field_iter_begin, pb_field_iter_next,
  pb_field_iter_find,
}
use swe_capstone.Nanopb.EncodeMessage.{fetch}
use swe_capstone.Nanopb.DecodeState.{Decoding, on_stream, on_substream, get, put}
use swe_capstone.Nanopb.Defaults.{
  extension_fields, iter_from_extension, extension_found, extension_next,
  pb_message_set_to_defaults,
}
use swe_capstone.Nanopb.DecodeField.{Submessages, Handlers, decode_field, close_with}
use swe_capstone.Nanopb.FieldsSeen.{none_seen, mark_seen, seek_end, required_count, check_required}

-- The loop of find_extension_field on fuel; `none` is its end.
unfoldable pub extension_search : ℕ → ℕ → FieldIter → Option (FieldIter × Bool)
extension_search zero start iter = none
extension_search (suc rounds) start iter =
    let next = (pb_field_iter_next iter).0 in
    elim (is_extension (current iter).ltype) [
      | true ↦ some (iter, true)
      | false ↦ elim (next.position == start) [
        | true ↦ some (next, false)
        | false ↦ extension_search rounds start next
      ]
    ]

unfoldable pub find_extension_field : FieldIter → Option (FieldIter × Bool)
find_extension_field iter = extension_search (length iter.start + 1) iter.position iter

-- The locals of pb_decode_noinit that live from one field to the next.
pub record Scan : Type 0 where
  pub iter : FieldIter
  pub fields_seen : List ℕ
  pub extension_range_start : ℕ

module _ {S : Type 0} (handlers : Handlers S) (submessages : Submessages S) where
  unfoldable pub default_extension_decoder : ℕ → ℕ → ℕ → Action (Decoding S) (Unit {0})
  default_extension_decoder extension tag wire_type =
      extension_fields handlers.descriptors extension >>= λ fields.
      if (field_at fields 0).tag == tag
      then (iter_from_extension handlers.descriptors extension >>= λ iter.
          put 1 (extension_found extension) 1 >> decode_field handlers submessages wire_type iter)
      else pure tt

  -- One of the extensions, with its own decoder or the default one.
  unfoldable pub try_extension : ℕ → ℕ → ℕ → Action (Decoding S) (Unit {0})
  unfolding default_extension_decoder
  try_extension extension tag wire_type = get 8 extension >>= λ type. get 8 type >>= λ decode.
      if decode == 0
      then default_extension_decoder extension tag wire_type
      else (fetch (handlers.extension_decoders decode) >>= λ function.
          function extension tag wire_type)

  -- `while (extension != NULL && pos == stream->bytes_left)`, with fuel.
  unfoldable pub extension_loop : ℕ → ℕ → ℕ → ℕ → ℕ → Action (Decoding S) (Unit {0})
  unfolding try_extension
  extension_loop zero pos tag wire_type extension state = stuck
  extension_loop (suc links) pos tag wire_type extension state =
      elim (not (extension == 0) && (pos == state.stream.bytes_left)) [
        | false ↦ done tt state
        | true ↦
            (try_extension extension tag wire_type
                >> (get 8 (extension_next extension) >>= extension_loop links pos tag wire_type))
              state
      ]

  unfoldable pub decode_extension : ℕ → ℕ → ℕ → FieldIter → Action (Decoding S) (Unit {0})
  decode_extension links tag wire_type iter state =
      (get 8 iter.p_data >>= extension_loop links state.stream.bytes_left tag wire_type) state

  -- `No match found, skip data`
  abbrev pub skip_unknown : ℕ → Scan → Action (Decoding S) Scan
  skip_unknown wire_type scan = on_stream (pb_skip_field wire_type) >> pure scan

  -- The extensions are tried; where they read nothing, the field is skipped.
  unfoldable pub extension_or_skip : ℕ → ℕ → ℕ → Scan → Action (Decoding S) Scan
  extension_or_skip links tag wire_type scan state =
      (decode_extension links tag wire_type scan.iter >> (λ state'.
          if state.stream.bytes_left == state'.stream.bytes_left
          then skip_unknown wire_type scan state'
          else done scan state'))
        state

  abbrev pub range_start : FieldIter → Bool → ℕ
  range_start iter true = (current iter).tag
  range_start iter false = 2 ^ 32 - 1

  unfoldable pub unknown_field : ℕ → ℕ → ℕ → Scan → Action (Decoding S) Scan
  unfolding extension_or_skip
  unknown_field links tag wire_type scan =
      if leb scan.extension_range_start tag
      then elim (find_extension_field scan.iter) [
        | none ↦ λ state. stuck
        | some (iter, found) ↦
            let start = range_start iter found in
            let scan' = record scan { iter = iter; extension_range_start = start } in
            if leb start tag
            then extension_or_skip links tag wire_type scan'
            else skip_unknown wire_type scan'
      ]
      else skip_unknown wire_type scan

  -- The rest of a round of the loop, after pb_decode_tag.
  unfoldable pub one_field : ℕ → ℕ → ℕ → Scan → Action (Decoding S) Scan
  unfolding unknown_field mark_seen
  one_field links tag wire_type scan = elim (pb_field_iter_find tag scan.iter) [
    | none ↦ λ state. stuck
    | some (iter, false) ↦ unknown_field links tag wire_type (record scan { iter = iter })
    | some (iter, true) ↦
        decode_field handlers submessages wire_type iter
        >> pure (record scan { iter = iter; fields_seen = mark_seen iter scan.fields_seen })
  ]

  -- `while (stream->bytes_left)`, with fuel.
  unfoldable pub fields_loop : ℕ → ℕ → Scan → Action (Decoding S) Scan
  unfolding one_field
  fields_loop links zero scan state = stuck
  fields_loop links (suc rounds) scan state = elim (state.stream.bytes_left == 0) [
    | true ↦ done scan state
    | false ↦
        (on_stream pb_decode_tag >>= λ t. elim t.returned [
          | true ↦ one_field links t.tag t.wire_type scan >>= fields_loop links rounds
          | false ↦ if t.eof then pure scan else failed
        ])
          state
  ]

  -- After the loop.
  unfoldable pub check_fields : Scan → Action (Decoding S) (Unit {0})
  unfolding check_required
  check_fields scan = elim (seek_end (length scan.iter.start + 1) scan.iter) [
    | none ↦ λ state. stuck
    | some at_end ↦ check_required scan.fields_seen (required_count at_end)
  ]

  -- Every tag takes a byte, so there is a round for each byte that is left, and the last.
  unfoldable pub noinit_body : ℕ → List Field → ℕ → Action (Decoding S) (Unit {0})
  unfolding fields_loop check_fields
  noinit_body links fields dest_struct state =
      (fields_loop links (state.stream.bytes_left + 1) (record {
        iter = (pb_field_iter_begin fields dest_struct).0;
        fields_seen = none_seen;
        extension_range_start = 0;
      })
          >>= check_fields)
        state

-- `depth` is the fuel for messages inside messages, `nesting` the one for defaults inside defaults
-- and `links` the one for lists of extensions.
module _ {S : Type 0} (handlers : Handlers S) (nesting links : ℕ) where
  abbrev pub defaults : List Field → ℕ → Action (Decoding S) (Unit {0})
  defaults = pb_message_set_to_defaults handlers.descriptors nesting links

  -- pb_decode around a given pb_decode_noinit.
  abbrev pub submessages_of : (List Field → ℕ → Action (Decoding S) (Unit {0})) → Submessages S
  submessages_of decode_noinit = record {
    decode = λ fields dest. defaults fields dest >> decode_noinit fields dest;
    decode_noinit = decode_noinit;
    set_to_defaults = defaults;
  }

  unfoldable pub pb_decode_noinit : ℕ → List Field → ℕ → Action (Decoding S) (Unit {0})
  unfolding noinit_body
  pb_decode_noinit zero fields dest_struct = λ state. stuck
  pb_decode_noinit (suc depth) fields dest_struct =
      noinit_body handlers (submessages_of (pb_decode_noinit depth)) links fields dest_struct

  unfoldable pub pb_decode : ℕ → List Field → ℕ → Action (Decoding S) (Unit {0})
  pb_decode depth fields dest_struct =
      defaults fields dest_struct >> pb_decode_noinit depth fields dest_struct

  unfoldable pub pb_decode_delimited : ℕ → List Field → ℕ → Action (Decoding S) (Unit {0})
  pb_decode_delimited depth fields dest_struct = on_stream pb_make_string_substream >>= λ substream.
      on_substream (pb_decode depth fields dest_struct) substream >>= close_with
