-- ===== src/Nanopb/Substream.antt =====
-- The substreams of pb_decode.c: pb_make_string_substream and pb_close_string_substream.
use swe_capstone.Common.{ℕ, ◌-◌, Option, none, some, ltb, ◌==◌, if◌then◌else◌}
use swe_capstone.Nanopb.Stream.{
  parent_too_short, Outcome, done, failed, fault, stuck, Action, ◌>>=◌, Istream, Source, memory,
  device,
}
use swe_capstone.Nanopb.Input.{in_error, pb_read_null}
use swe_capstone.Nanopb.Decode.{pb_decode_varint32}

-- The second half of pb_make_string_substream: the result is the substream.
unfoldable pub limit_substream : {S : Type 0} → ℕ → Action (Istream S) (Istream S)
limit_substream size stream =
    if ltb stream.bytes_left size
    then in_error parent_too_short stream
    else done (record stream { bytes_left = size })
        (record stream { bytes_left = stream.bytes_left - size })

unfoldable pub pb_make_string_substream : {S : Type 0} → Action (Istream S) (Istream S)
unfolding limit_substream
pb_make_string_substream = pb_decode_varint32 >>= limit_substream

-- `stream->state = substream->state;` A state that belongs to the other kind of callback is none
-- that the parent's callback can use.
unfoldable pub adopt_state : {S : Type 0} → Source S → Source S → Option (Source S)
adopt_state (memory bytes) (memory bytes') = some (memory bytes')
adopt_state (memory bytes) (device g state) = none
adopt_state (device f state) (memory bytes) = none
adopt_state (device f state) (device g state') = some (device f state')

unfoldable pub adopt : {S : Type 0} → Istream S → Action (Istream S) (Unit {0})
adopt substream stream = elim (adopt_state stream.source substream.source) [
  | none ↦ fault
  | some source ↦ done tt (record stream { source = source; errmsg = substream.errmsg })
]

-- What pb_close_string_substream does after skipping: on failure it leaves the parent alone.
unfoldable pub closed :
    {S : Type 0} → Outcome (Istream S) (Unit {0}) → Action (Istream S) (Unit {0})
closed (done x substream) stream = adopt substream stream
closed (failed substream) stream = failed stream
closed fault stream = fault
closed stuck stream = stuck

unfoldable pub pb_close_string_substream : {S : Type 0} → Istream S → Action (Istream S) (Unit {0})
unfolding adopt closed adopt_state
pb_close_string_substream substream stream =
    if substream.bytes_left == 0
    then adopt substream stream
    else closed (pb_read_null substream.bytes_left substream) stream
