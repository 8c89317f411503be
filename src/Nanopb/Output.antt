-- ===== src/Nanopb/Output.antt =====
-- The output stream of pb_encode.c: buf_write, pb_ostream_from_buffer and pb_write.
pub mod Buffer
use swe_capstone.Common.{
  ℕ, zero, suc, ◌+◌, ◌%◌, Bool, true, false, List, [], ◌∷◌, Option, none, some, ltb, length, set,
  if◌then◌else◌,
}
use swe_capstone.Nanopb.Stream.{
  ErrorMessage, stream_full, io_error, size_mod, Outcome, done, failed, fault, stuck, Action, Sink,
  sizing, buffer, custom, Ostream, first_message,
}

-- The bytes buf[0 .. count), or `none` where that reads past the memory.
unfoldable pub read_exact : ℕ → List ℕ → Option (List ℕ)
read_exact zero buf = some []
read_exact (suc count) [] = none
read_exact (suc count) (b ∷ buf) = elim (read_exact count buf) [
  | none ↦ none
  | some bytes ↦ some (b ∷ bytes)
]

-- `for (i = 0; i < count; i++) dest[i] = buf[i];`, where `dest` points to `at` in `cells`.
unfoldable pub buf_write_loop : List ℕ → ℕ → List ℕ → Option (List ℕ)
buf_write_loop cells at [] = some cells
buf_write_loop cells at (b ∷ bytes) =
    let rest = buf_write_loop (set cells at b) (at + 1) bytes in
    if ltb at (length cells) then rest else none

-- The caller's callback on the bytes that it is given.
unfoldable pub custom_write :
    {S : Type 0} → (S → List ℕ → S × Bool) → S × Bool → Outcome (Sink S) (Unit {0})
custom_write f (state, true) = done tt (custom f state)
custom_write f (state, false) = failed (custom f state)

-- `stream->callback(stream, buf, count)`: `buf_write` moves the pointer on by `count`.
unfoldable pub sink_write : {S : Type 0} → List ℕ → ℕ → Sink S → Outcome (Sink S) (Unit {0})
sink_write buf count sizing = fault
sink_write buf count (buffer cells at) = elim (read_exact count buf) [
  | none ↦ fault
  | some bytes ↦ elim (buf_write_loop cells at bytes) [
    | none ↦ fault
    | some cells' ↦ done tt (buffer cells' (at + count))
  ]
]
sink_write buf count (custom f state) = elim (read_exact count buf) [
  | none ↦ fault
  | some bytes ↦ custom_write f (f state bytes)
]

-- PB_RETURN_ERROR on an output stream.
unfoldable pub out_error : {S A : Type 0} → ErrorMessage → Ostream S → Outcome (Ostream S) A
out_error message stream = failed (record stream { errmsg = first_message stream.errmsg message })

-- The last lines of pb_write: the callback's failure is an io error, and its success counts.
unfoldable pub written :
    {S : Type 0} → ℕ → Ostream S → Outcome (Sink S) (Unit {0}) → Outcome (Ostream S) (Unit {0})
written count stream (done x sink) =
    done tt
      (record stream { sink = sink; bytes_written = (stream.bytes_written + count) % size_mod })
written count stream (failed sink) = out_error io_error (record stream { sink = sink })
written count stream fault = fault
written count stream stuck = stuck

-- pb_write on a stream that has a callback: the check for room, which wraps as size_t does.
unfoldable pub checked_write : {S : Type 0} → List ℕ → ℕ → Action (Ostream S) (Unit {0})
checked_write buf count stream =
    if ltb stream.max_size ((stream.bytes_written + count) % size_mod)
    then out_error stream_full stream
    else written count stream (sink_write buf count stream.sink)

-- pb_write. A sizing stream only counts.
unfoldable pub write_by : {S : Type 0} → Sink S → List ℕ → ℕ → Action (Ostream S) (Unit {0})
write_by sizing buf count stream =
    done tt (record stream { bytes_written = (stream.bytes_written + count) % size_mod })
write_by (buffer cells at) buf count stream = checked_write buf count stream
write_by (custom f state) buf count stream = checked_write buf count stream

unfoldable pub pb_write : {S : Type 0} → List ℕ → ℕ → Action (Ostream S) (Unit {0})
unfolding write_by checked_write
pb_write buf count stream = write_by stream.sink buf count stream

unfoldable pub pb_ostream_from_buffer : {S : Type 0} → List ℕ → ℕ → Ostream S
pb_ostream_from_buffer buf bufsize = record {
  sink = buffer buf 0;
  max_size = bufsize;
  bytes_written = 0;
  errmsg = none;
}

-- PB_OSTREAM_SIZING
unfoldable pub pb_ostream_sizing : {S : Type 0} → Ostream S
pb_ostream_sizing = record { sink = sizing; max_size = 0; bytes_written = 0; errmsg = none }
