-- ===== src/Nanopb/Output/Buffer.antt =====
-- pb_write of pb_encode.c on the stream of pb_ostream_from_buffer: the memory that is written lies
-- in front of the memory that is not.
use swe_capstone.Common.{
  ℕ, ◌+◌, ◌%◌, ◌≤◌, ◌<◌, ◌≡◌, refl, ap, sym, List, [], ◌∷◌, ◌++◌, Option, some, length, set, drop,
  length-append, arith, ltb, lt→ltb, le→ltb, ltb→lt, ltb→le, true, false, Bool-cases, inl, inr,
  if◌then◌else◌,
}
use mathlib.Core.List.{append_assoc}
use swe_capstone.Nanopb.Stream.{
  ErrorMessage, stream_full, size_mod, Outcome, done, failed, buffer, Ostream, first_message,
}
use swe_capstone.Nanopb.Output.{
  read_exact, buf_write_loop, pb_write, sink_write, written, out_error,
}

-- A buffer stream that has written `front`; `back` is what the memory holds behind it.
abbrev pub filled : {S : Type 0} → List ℕ → List ℕ → ℕ → Option ErrorMessage → Ostream S
filled front back max_size errmsg = record {
  sink = buffer (front ++ back) (length front);
  max_size = max_size;
  bytes_written = length front;
  errmsg = errmsg;
}

pub read_exact_all : (bytes : List ℕ) → read_exact (length bytes) bytes ≡ some bytes
unfolding read_exact
read_exact_all [] = refl
read_exact_all (b ∷ bytes) = rw (read_exact_all bytes)

set-append :
    (front : List ℕ) (c b : ℕ) (back : List ℕ)
    → set (front ++ (c ∷ back)) (length front) b ≡ front ++ (b ∷ back)
set-append [] c b back = refl
set-append (f ∷ front) c b back = ap (λ t. f ∷ t) (set-append front c b back)

buf_write_loop_lem :
    (front back bytes : List ℕ)
    → length bytes ≤ length back
    → buf_write_loop (front ++ back) (length front) bytes
      ≡ some (front ++ (bytes ++ drop (length bytes) back))
unfolding buf_write_loop
buf_write_loop_lem front back [] h = refl
buf_write_loop_lem front [] (b ∷ bytes) h = absurd (omega arith)
buf_write_loop_lem front (c ∷ back) (b ∷ bytes) h = rw (
  inside,
  set-append front c b back,
  here,
  there,
  buf_write_loop_lem (front ++ (b ∷ [])) back bytes (omega arith),
  append_assoc front (b ∷ []) (bytes ++ drop (length bytes) back),
)
  where
    inside : ltb (length front) (length (front ++ (c ∷ back))) ≡ true
    inside = lt→ltb _ _ (omega (arith, length-append front (c ∷ back)))

    here : front ++ (b ∷ back) ≡ (front ++ (b ∷ [])) ++ back
    here = sym (append_assoc front (b ∷ []) back)

    there : length front + 1 ≡ length (front ++ (b ∷ []))
    there = omega (arith, length-append front (b ∷ []))

module _ (front back bytes : List ℕ) where
  -- The memory after a write that fits it.
  abbrev extended : List ℕ
  extended = front ++ (bytes ++ drop (length bytes) back)

  sink_write_lem :
      {S : Type 0}
      → length bytes ≤ length back
      → sink_write {S = S} bytes (length bytes) (buffer (front ++ back) (length front))
        ≡ done tt (buffer extended (length front + length bytes))
  unfolding sink_write
  sink_write_lem {S} h = ground (arith, read_exact_all bytes, buf_write_loop_lem front back bytes h)

module _ {S : Type 0} (front back bytes : List ℕ) (max_size : ℕ)
    (errmsg : Option ErrorMessage) where
  -- There is room: the bytes stand behind those written before, and the rest is as it was.
  pub pb_write-fits :
      max_size < size_mod
      → max_size ≤ length front + length back
      → length front + length bytes ≤ max_size
      → pb_write bytes (length bytes) (filled {S = S} front back max_size errmsg)
        ≡ done tt (filled (front ++ bytes) (drop (length bytes) back) max_size errmsg)
  unfolding pb_write written
  pb_write-fits small backed fits =
      rw (room, sink_write_lem front back bytes {S = S} (omega arith), total)
        (rw (append_assoc front bytes (drop (length bytes) back), length-append front bytes))
    where
      room : ltb max_size ((length front + length bytes) % size_mod) ≡ false
      room = le→ltb max_size ((length front + length bytes) % size_mod) (omega arith)

      total : (length front + length bytes) % size_mod ≡ length front + length bytes
      total = omega arith

  pub pb_write-full :
      length front + length bytes < size_mod
      → max_size < length front + length bytes
      → pb_write bytes (length bytes) (filled {S = S} front back max_size errmsg)
        ≡ failed (filled front back max_size (first_message errmsg stream_full))
  unfolding pb_write out_error
  pb_write-full small full =
      rw (lt→ltb max_size ((length front + length bytes) % size_mod) (omega arith))

-- What pb_write of `bytes` returns on that stream, on both branches.
abbrev pub write_result :
    {S : Type 0}
    → List ℕ
    → List ℕ
    → List ℕ
    → ℕ
    → Option ErrorMessage
    → Outcome (Ostream S) (Unit {0})
write_result front back bytes max_size errmsg =
    if ltb max_size (length front + length bytes)
    then failed (filled front back max_size (first_message errmsg stream_full))
    else done tt (filled (front ++ bytes) (drop (length bytes) back) max_size errmsg)

-- On a buffer stream whose limit lies within its memory and below the end of size_t, with a
-- count of bytes that does not pass the end of size_t: pb_write reports a full stream and
-- changes nothing but the error message if the bytes pass the limit, and otherwise puts them
-- behind those written before, leaves the rest of the memory alone and counts them.
pub pb_write-filled :
    {S : Type 0} (front back bytes : List ℕ) (max_size : ℕ) (errmsg : Option ErrorMessage)
    → max_size < size_mod
    → max_size ≤ length front + length back
    → length front + length bytes < size_mod
    → pb_write bytes (length bytes) (filled {S = S} front back max_size errmsg)
      ≡ write_result front back bytes max_size errmsg
pb_write-filled {S} front back bytes max_size errmsg small backed count =
    elim (Bool-cases (ltb max_size (length front + length bytes))) [
      | inl full ↦
          rw (full, pb_write-full {S = S} front back bytes max_size errmsg count (ltb→lt _ _ full))
      | inr fits ↦ rw (
        fits,
        pb_write-fits {S = S} front back bytes max_size errmsg small backed (ltb→le _ _ fits),
      )
    ]
