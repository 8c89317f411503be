-- ===== src/Nanopb/Input.antt =====
-- The input stream of pb_decode.c: buf_read, pb_istream_from_buffer, pb_read and pb_readbyte.
pub mod Memory
use swe_capstone.Common.{
  ℕ, zero, suc, ◌+◌, ◌-◌, ◌/◌, true, false, List, [], ◌∷◌, Option, none, some, ltb, ◌==◌, length,
  if◌then◌else◌,
}
use swe_capstone.Nanopb.Stream.{
  ErrorMessage, end_of_stream, io_error, Outcome, done, failed, fault, stuck, Action, continue,
  ◌>>◌, pure, Istream, Source, memory, device, first_message,
}

-- buf_read: `count` bytes from the front of the memory, and what lies behind them. With a null
-- `buf` the bytes are dropped, and the pointer moves all the same.
unfoldable pub split_exact : ℕ → List ℕ → Option (List ℕ × List ℕ)
split_exact zero bytes = some ([], bytes)
split_exact (suc count) [] = none
split_exact (suc count) (b ∷ bytes) = elim (split_exact count bytes) [
  | none ↦ none
  | some (front, back) ↦ some (b ∷ front, back)
]

-- A callback of the caller that returns true has filled `buf`.
unfoldable pub device_read :
    {S : Type 0}
    → (S → ℕ → S × Option (List ℕ))
    → ℕ
    → S × Option (List ℕ)
    → Outcome (Source S) (List ℕ)
device_read f count (state, none) = failed (device f state)
device_read f count (state, some bytes) =
    if length bytes == count then done bytes (device f state) else fault

-- `stream->callback(stream, buf, count)`
unfoldable pub source_read : {S : Type 0} → ℕ → Action (Source S) (List ℕ)
source_read count (memory bytes) = elim (split_exact count bytes) [
  | none ↦ fault
  | some (front, back) ↦ done front (memory back)
]
source_read count (device f state) = device_read f count (f state count)

-- PB_RETURN_ERROR on an input stream.
unfoldable pub in_error : {S A : Type 0} → ErrorMessage → Istream S → Outcome (Istream S) A
in_error message stream = failed (record stream { errmsg = first_message stream.errmsg message })

-- What pb_read and pb_readbyte do with the result of the callback.
unfoldable pub received :
    {S : Type 0} → ℕ → Istream S → Outcome (Source S) (List ℕ) → Outcome (Istream S) (List ℕ)
received count stream (done bytes source) =
    done bytes (record stream { source = source; bytes_left = stream.bytes_left - count })
received count stream (failed source) = in_error io_error (record stream { source = source })
received count stream fault = fault
received count stream stuck = stuck

-- pb_read with a `buf`: the bytes that it stores there.
unfoldable pub pb_read : {S : Type 0} → ℕ → Action (Istream S) (List ℕ)
unfolding in_error received source_read split_exact device_read
pb_read count stream =
    if ltb stream.bytes_left count
    then in_error end_of_stream stream
    else received count stream (source_read count stream.source)

-- `while (count > 16) …`: bytes of a callback of the caller are skipped by reading them.
unfoldable pub skip_loop : {S : Type 0} → ℕ → ℕ → Action (Istream S) (Unit {0})
skip_loop zero count stream = stuck
skip_loop (suc fuel) count stream = elim (ltb 16 count) [
  | true ↦ (pb_read 16 >> skip_loop fuel (count - 16)) stream
  | false ↦ (pb_read count >> pure tt) stream
]

-- pb_read with a null `buf`.
unfoldable pub skip_from : {S : Type 0} → Source S → ℕ → Action (Istream S) (Unit {0})
skip_from (memory bytes) count = pb_read count >> pure tt
skip_from (device f state) count = skip_loop (count / 16 + 1) count

unfoldable pub pb_read_null : {S : Type 0} → ℕ → Action (Istream S) (Unit {0})
unfolding skip_from
pb_read_null count stream = skip_from stream.source count stream

-- The byte that a read of one byte stores.
unfoldable pub only_byte : {S : Type 0} → List ℕ → Action (Istream S) ℕ
only_byte (b ∷ []) stream = done b stream
only_byte [] stream = fault
only_byte (b ∷ c ∷ bytes) stream = fault

unfoldable pub pb_readbyte : {S : Type 0} → Action (Istream S) ℕ
unfolding in_error received source_read split_exact device_read only_byte
pb_readbyte stream =
    if stream.bytes_left == 0
    then in_error end_of_stream stream
    else continue (received 1 stream (source_read 1 stream.source)) only_byte

unfoldable pub pb_istream_from_buffer : {S : Type 0} → List ℕ → ℕ → Istream S
pb_istream_from_buffer buf bufsize = record {
  source = memory buf;
  bytes_left = bufsize;
  errmsg = none;
}
