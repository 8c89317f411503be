-- ===== src/Nanopb/Safety/Fields.antt =====
-- Tags, the fields that are skipped, raw values, substreams and fixed-width values.
use swe_capstone.Common.{
  ℕ, ◌%◌, ◌^◌, ◌≤◌, ◌<◌, ◌≡◌, List, [], ◌∷◌, length, arith, ◌==◌, Bool, Bool-cases, inl, inr, true,
  false, le→ltb, if◌then◌else◌,
}
use swe_capstone.Nanopb.Stream.{
  invalid_wire_type, Outcome, done, failed, fault, stuck, Istream, wt_varint, wt_64bit, wt_string,
  wt_32bit,
}
use swe_capstone.Nanopb.Input.{in_error, pb_read_null}
use swe_capstone.Nanopb.Decode.{
  TagRead, pb_decode_varint, pb_decode_varint32, pb_skip_varint, pb_skip_string, tag_read,
  pb_decode_tag, pb_skip_field, raw_varint_loop, raw_fixed, read_raw_value,
}
use swe_capstone.Nanopb.DecodeFixed.{
  fixed32_value, fixed64_value, pb_decode_fixed32, pb_decode_fixed64, pb_decode_svarint,
}
use swe_capstone.Nanopb.Safety.{
  IsReadable, Moved-refl, Moved-error, Ends, Any, Takes, Ends-continue, Ends-weaken,
}
use swe_capstone.Nanopb.Safety.Reads.{Took, pb_read-Ends}
use swe_capstone.Nanopb.Safety.Loops.{
  Skips, Ends-then, Ends-Any, pb_read_null-Ends, pb_decode_varint-Ends, pb_decode_varint32-Ends,
  pb_skip_varint-Ends, raw_varint_loop-Ends,
}

module _ {S : Type 0} where
  pub pb_skip_string-Ends :
      (stream : Istream S) → IsReadable stream → Ends Any stream (pb_skip_string stream)
  unfolding pb_skip_string
  pb_skip_string-Ends stream h =
      Ends-then (Takes stream) Any stream _ _ (pb_decode_varint32-Ends stream h)
        (λ n t p q. Ends-Any (Skips n t) t _ (pb_read_null-Ends n t q))

  -- On every stream whose limit lies within its memory, or whose callback fills what it reports as
  -- read, and for every wire type, also one that is no member of the enum: pb_skip_field returns,
  -- does not read outside the memory, and leaves a stream of the same kind with no more bytes than
  -- before.
  pub pb_skip_field-Ends :
      (wire_type : ℕ) (stream : Istream S)
      → IsReadable stream
      → Ends Any stream (pb_skip_field wire_type stream)
  unfolding pb_skip_field in_error
  pb_skip_field-Ends w stream h =
      choose (w == wt_varint) (w == wt_64bit) (w == wt_string) (w == wt_32bit)
    where
      choose :
          (a b c d : Bool)
          → Ends Any stream (
              if a
              then pb_skip_varint stream
              else if b
              then pb_read_null 8 stream
              else if c
              then pb_skip_string stream
              else if d
              then pb_read_null 4 stream
              else in_error invalid_wire_type stream)
      choose true b c d = pb_skip_varint-Ends stream h
      choose false true c d = Ends-Any (Skips 8 stream) stream _ (pb_read_null-Ends 8 stream h)
      choose false false true d = pb_skip_string-Ends stream h
      choose false false false true =
          Ends-Any (Skips 4 stream) stream _ (pb_read_null-Ends 4 stream h)
      choose false false false false = (h, Moved-error stream _)

  -- Where a tag is returned, at least a byte is taken. A field number has 29 bits.
  abbrev pub TakesTag : Istream S → TagRead → Istream S → Type 0
  TakesTag start tag t =
      (tag.returned ≡ true → t.bytes_left < start.bytes_left) × (tag.tag < 2 ^ 29)

  tag_read-Ends :
      (start : Istream S) (o : Outcome (Istream S) ℕ)
      → Ends (Takes start) start o
      → Ends (TakesTag start) start (tag_read o)
  unfolding tag_read
  tag_read-Ends start (done n t) h = elim (Bool-cases (n % 2 ^ 32 == 0)) [
    | inl e ↦ rw e (((λ _. h.0), omega arith), h.1, h.2)
    | inr e ↦ rw e (((λ _. h.0), omega arith), h.1, h.2)
  ]
  tag_read-Ends start (failed t) h = (((λ e. cc), omega arith), h.0, h.1)
  tag_read-Ends start fault h = h
  tag_read-Ends start stuck h = h

  pub pb_decode_tag-Ends :
      (stream : Istream S)
      → IsReadable stream
      → Ends (TakesTag stream) stream (pb_decode_tag stream)
  unfolding pb_decode_tag
  pb_decode_tag-Ends stream h = tag_read-Ends stream _ (pb_decode_varint32-Ends stream h)

  raw_fixed-Ends :
      (max_size count : ℕ) (stream : Istream S)
      → count ≤ max_size
      → IsReadable stream
      → Ends (λ bytes t. length bytes ≤ max_size) stream (raw_fixed max_size count stream)
  unfolding raw_fixed
  raw_fixed-Ends max_size count stream hc h = rw (le→ltb max_size count hc) (
      Ends-weaken (Took count stream.bytes_left) _ stream stream _ (pb_read-Ends count stream h)
        (Moved-refl stream) (λ bytes t p m. omega arith))

  -- On every stream whose limit lies within its memory, or whose callback fills what it reports as
  -- read, with a buffer of 8 bytes or more and for every wire type: read_raw_value returns, stores
  -- no more bytes than the buffer holds, does not read outside the memory, and leaves a stream of
  -- the same kind with no more bytes than before.
  pub read_raw_value-Ends :
      (wire_type max_size : ℕ) (stream : Istream S)
      → 8 ≤ max_size
      → IsReadable stream
      → Ends (λ bytes t. length bytes ≤ max_size) stream (read_raw_value wire_type max_size stream)
  unfolding read_raw_value in_error
  read_raw_value-Ends w max_size stream hm h =
      choose (w == wt_varint) (w == wt_64bit) (w == wt_32bit)
    where
      choose :
          (a b c : Bool)
          → Ends
              (λ bytes t. length bytes ≤ max_size)
              stream
              (if a
                then raw_varint_loop max_size stream
                else if b
                then raw_fixed max_size 8 stream
                else if c
                then raw_fixed max_size 4 stream
                else in_error invalid_wire_type stream)
      choose true b c = raw_varint_loop-Ends max_size stream h
      choose false true c = raw_fixed-Ends max_size 8 stream hm h
      choose false false true = raw_fixed-Ends max_size 4 stream (omega arith) h
      choose false false false = (h, Moved-error stream _)

  fixed32_value-Ends :
      (bytes : List ℕ) (stream : Istream S)
      → length bytes ≡ 4
      → IsReadable stream
      → Ends Any stream (fixed32_value bytes stream)
  unfolding fixed32_value
  fixed32_value-Ends (a ∷ b ∷ c ∷ d ∷ []) stream e h = (tt, h, Moved-refl stream)
  fixed32_value-Ends bytes stream e h = absurd (omega arith)

  fixed64_value-Ends :
      (bytes : List ℕ) (stream : Istream S)
      → length bytes ≡ 8
      → IsReadable stream
      → Ends Any stream (fixed64_value bytes stream)
  unfolding fixed64_value
  fixed64_value-Ends (a ∷ b ∷ c ∷ d ∷ a' ∷ b' ∷ c' ∷ d' ∷ []) stream e h =
      (tt, h, Moved-refl stream)
  fixed64_value-Ends bytes stream e h = absurd (omega arith)

  pub pb_decode_fixed-Ends :
      (stream : Istream S)
      → IsReadable stream
      → Ends (Takes stream) stream (pb_decode_fixed32 stream)
        × Ends (Takes stream) stream (pb_decode_fixed64 stream)
  unfolding pb_decode_fixed32 pb_decode_fixed64
  pb_decode_fixed-Ends stream h = (
    Ends-continue (Took 4 stream.bytes_left) (Takes stream) stream _ _ (pb_read-Ends 4 stream h)
        (λ bytes t p q m.
          Ends-weaken Any (Takes stream) stream t _ (fixed32_value-Ends bytes t p.0 q) m
            (λ n u a k. omega (arith, p.1, k.fewer))),
    Ends-continue (Took 8 stream.bytes_left) (Takes stream) stream _ _ (pb_read-Ends 8 stream h)
        (λ bytes t p q m.
          Ends-weaken Any (Takes stream) stream t _ (fixed64_value-Ends bytes t p.0 q) m
            (λ n u a k. omega (arith, p.1, k.fewer))),
  )

  pub pb_decode_svarint-Ends :
      (stream : Istream S)
      → IsReadable stream
      → Ends (Takes stream) stream (pb_decode_svarint stream)
  unfolding pb_decode_svarint
  pb_decode_svarint-Ends stream h =
      Ends-continue (Takes stream) (Takes stream) stream _ _ (pb_decode_varint-Ends stream h)
        (λ n t p q m. (p, q, m))

  -- On every stream whose limit lies within its memory, or whose callback fills what it reports as
  -- read: pb_decode_varint, pb_decode_varint32, pb_decode_svarint, pb_decode_tag,
  -- pb_decode_fixed32 and pb_decode_fixed64 all return, and none of them reads outside the memory.
  -- Where they return a value they have taken at least a byte, and a field number has at most 29
  -- bits. Where they return a value and where
  -- they fail, the limit lies within the memory as before, and they have taken no more bytes of the
  -- memory than of the limit.
  pub value_readers-Ends :
      (stream : Istream S)
      → IsReadable stream
      → Ends (Takes stream) stream (pb_decode_varint stream)
        × Ends (Takes stream) stream (pb_decode_varint32 stream)
        × Ends (Takes stream) stream (pb_decode_svarint stream)
        × Ends (TakesTag stream) stream (pb_decode_tag stream)
        × Ends (Takes stream) stream (pb_decode_fixed32 stream)
        × Ends (Takes stream) stream (pb_decode_fixed64 stream)
  value_readers-Ends stream h = (
    pb_decode_varint-Ends stream h,
    pb_decode_varint32-Ends stream h,
    pb_decode_svarint-Ends stream h,
    pb_decode_tag-Ends stream h,
    (pb_decode_fixed-Ends stream h).0,
    (pb_decode_fixed-Ends stream h).1,
  )
