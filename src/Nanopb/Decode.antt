-- ===== src/Nanopb/Decode.antt =====
-- The helper functions of pb_decode.c: one value from the stream, and skipping what is unknown.
use swe_capstone.Common.{
  ℕ, zero, suc, ◌+◌, ◌*◌, ◌/◌, ◌%◌, ◌^◌, bit_and, bit_or, Bool, true, false, List, [], ◌∷◌, ltb,
  leb, ◌==◌, if◌then◌else◌,
}
use swe_capstone.Nanopb.Stream.{
  varint_overflow, invalid_wire_type, Outcome, done, failed, fault, stuck, Action, continue, ◌>>=◌,
  pure, Istream, wt_varint, wt_64bit, wt_string, wt_32bit,
}
use swe_capstone.Nanopb.Input.{in_error, pb_read, pb_read_null, pb_readbyte, only_byte}

-- `result |= (type)(byte & 0x7F) << bitpos` in an unsigned type of `width` bits.
abbrev pub add_group : ℕ → ℕ → ℕ → ℕ → ℕ
add_group width result byte bitpos = bit_or result (bit_and byte 0x7f * 2 ^ bitpos % 2 ^ width)

-- The loop of both varint decoders, with the test on `bitpos` before each byte: `bitpos` is a
-- uint_fast8_t of 8 bits.
unfoldable pub varint_rounds : {S : Type 0} → ℕ → ℕ → ℕ → ℕ → Action (Istream S) ℕ
varint_rounds width zero bitpos result stream = stuck
varint_rounds width (suc fuel) bitpos result stream = elim (leb width bitpos) [
  | true ↦ in_error varint_overflow stream
  | false ↦ continue (pb_readbyte stream) λ byte stream'.
      let result' = add_group width result byte bitpos in
      elim (bit_and byte 0x80 == 0) [
        | true ↦ done result' stream'
        | false ↦ varint_rounds width fuel ((bitpos + 7) % 256) result' stream'
      ]
]

-- 10 rounds reach bit 70, and the test ends the loop there.
unfoldable pub pb_decode_varint : {S : Type 0} → Action (Istream S) ℕ
unfolding varint_rounds
pb_decode_varint = varint_rounds 64 11 0 0

-- The quick case is one byte; otherwise the loop goes on from bit 7.
unfoldable pub pb_decode_varint32 : {S : Type 0} → Action (Istream S) ℕ
unfolding varint_rounds
pb_decode_varint32 = pb_readbyte >>= λ byte.
    if bit_and byte 0x80 == 0 then pure byte else varint_rounds 32 5 7 (bit_and byte 0x7f)

-- pb_skip_varint reads one byte a round; `fuel` is above the bytes left.
unfoldable pub skip_varint_loop : {S : Type 0} → ℕ → Action (Istream S) (Unit {0})
skip_varint_loop zero stream = stuck
skip_varint_loop (suc fuel) stream = continue ((pb_read 1 >>= only_byte) stream) λ byte stream'.
    elim (bit_and byte 0x80 == 0) [ true ↦ done tt stream' | false ↦ skip_varint_loop fuel stream' ]

unfoldable pub pb_skip_varint : {S : Type 0} → Action (Istream S) (Unit {0})
pb_skip_varint stream = skip_varint_loop (stream.bytes_left + 1) stream

unfoldable pub pb_skip_string : {S : Type 0} → Action (Istream S) (Unit {0})
pb_skip_string = pb_decode_varint32 >>= λ length. pb_read_null length

-- What pb_decode_tag returns, with its out parameters, which it sets on every path.
pub record TagRead : Type 0 where
  pub returned : Bool
  pub wire_type : ℕ
  pub tag : ℕ
  pub eof : Bool

-- `uint32_t temp`
unfoldable pub tag_read : {S : Type 0} → Outcome (Istream S) ℕ → Outcome (Istream S) TagRead
tag_read (done value stream) =
    let temp = value % 2 ^ 32 in
    if temp == 0
    then done (record { returned = false; wire_type = 0; tag = 0; eof = true }) stream
    else done
        (record { returned = true; wire_type = bit_and temp 7; tag = temp / 2 ^ 3; eof = false })
        stream
tag_read (failed stream) =
    done (record { returned = false; wire_type = 0; tag = 0; eof = stream.bytes_left == 0 }) stream
tag_read fault = fault
tag_read stuck = stuck

unfoldable pub pb_decode_tag : {S : Type 0} → Action (Istream S) TagRead
unfolding tag_read
pb_decode_tag stream = tag_read (pb_decode_varint32 stream)

unfoldable pub pb_skip_field : {S : Type 0} → ℕ → Action (Istream S) (Unit {0})
pb_skip_field wire_type stream =
    if wire_type == wt_varint
    then pb_skip_varint stream
    else if wire_type == wt_64bit
    then pb_read_null 8 stream
    else if wire_type == wt_string
    then pb_skip_string stream
    else if wire_type == wt_32bit
    then pb_read_null 4 stream
    else in_error invalid_wire_type stream

-- The varint case of read_raw_value: the bytes as they stand, into the `room` that `buf` has left.
-- Without room it returns false and sets no message.
unfoldable pub raw_varint_loop : {S : Type 0} → ℕ → Action (Istream S) (List ℕ)
raw_varint_loop zero stream = failed stream
raw_varint_loop (suc room) stream = continue ((pb_read 1 >>= only_byte) stream) λ byte stream'.
    elim (bit_and byte 0x80 == 0) [
      | true ↦ done (byte ∷ []) stream'
      | false ↦ continue (raw_varint_loop room stream') λ bytes. done (byte ∷ bytes)
    ]

-- `count` bytes into a `buf` of `max_size`.
unfoldable pub raw_fixed : {S : Type 0} → ℕ → ℕ → Action (Istream S) (List ℕ)
raw_fixed max_size count stream = if ltb max_size count then fault else pb_read count stream

-- read_raw_value: the bytes stored in `buf`; their number is the size returned.
unfoldable pub read_raw_value : {S : Type 0} → ℕ → ℕ → Action (Istream S) (List ℕ)
read_raw_value wire_type max_size stream =
    if wire_type == wt_varint
    then raw_varint_loop max_size stream
    else if wire_type == wt_64bit
    then raw_fixed max_size 8 stream
    else if wire_type == wt_32bit
    then raw_fixed max_size 4 stream
    else in_error invalid_wire_type stream
