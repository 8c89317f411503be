-- ===== src/Nanopb/Safety/Loops.antt =====
-- The loops: pb_read with a null buffer, the varint decoders, pb_skip_varint and the varint case
-- of read_raw_value. Their fuel is enough.
use swe_capstone.Common.{
  ℕ, zero, suc, ◌+◌, ◌-◌, ◌*◌, ◌/◌, ◌%◌, ◌≤◌, ◌<◌, ◌≡◌, length, arith, ltb, leb, ◌==◌, Bool,
  Bool-cases, inl, inr, true, false, ltb→lt, bit_and,
}
use swe_capstone.Nanopb.Stream.{Outcome, continue, ◌>>◌, pure, Istream, Source, memory, device}
use swe_capstone.Nanopb.Input.{in_error, pb_read, skip_loop, skip_from, pb_read_null}
use swe_capstone.Nanopb.Decode.{
  add_group, varint_rounds, pb_decode_varint, pb_decode_varint32, skip_varint_loop, pb_skip_varint,
  raw_varint_loop,
}
use swe_capstone.Nanopb.Safety.{
  IsReadable, Moved-refl, Moved-error, Ends, Any, Takes, Ends-continue, Ends-weaken,
}
use swe_capstone.Nanopb.Safety.Reads.{Took, pb_read-Ends, read_one-Ends, pb_readbyte-Ends}

module _ {S : Type 0} where
  -- A call, then one that ends on every stream it may be given.
  pub Ends-then :
      {A B : Type 0} (P : A → Istream S → Type 0) (Q : B → Istream S → Type 0) (start : Istream S)
      (o : Outcome (Istream S) A) (f : A → Istream S → Outcome (Istream S) B)
      → Ends P start o
      → ((a : A) (t : Istream S) → P a t → IsReadable t → Ends Q t (f a t))
      → Ends Q start (continue o f)
  Ends-then P Q start o f h k =
      Ends-continue P Q start o f h
        (λ a t p r m. Ends-weaken Q Q start t (f a t) (k a t p r) m (λ b u q n. q))

  -- A byte is read first.
  pub Ends-Takes :
      {B : Type 0} (start : Istream S) (o : Outcome (Istream S) ℕ)
      (f : ℕ → Istream S → Outcome (Istream S) B)
      → Ends (λ b t. suc t.bytes_left ≡ start.bytes_left) start o
      → ((a : ℕ) (t : Istream S)
          → suc t.bytes_left ≡ start.bytes_left
          → IsReadable t
          → Ends Any t (f a t))
      → Ends (Takes start) start (continue o f)
  Ends-Takes start o f h k = Ends-continue _ (Takes start) start o f h (λ a t p r m.
      Ends-weaken Any (Takes start) start t (f a t) (k a t p r) m
        (λ b u q n. omega (arith, n.fewer)))

  pub Ends-Any :
      {A : Type 0} (P : A → Istream S → Type 0) (start : Istream S) (o : Outcome (Istream S) A)
      → Ends P start o
      → Ends Any start o
  Ends-Any P start o h = Ends-weaken P Any start start o h (Moved-refl start) (λ a t p m. tt)

  -- `count` bytes fewer are left.
  abbrev pub Skips : {A : Type 0} → ℕ → Istream S → A → Istream S → Type 0
  Skips count start a t = t.bytes_left + count ≡ start.bytes_left

  read_all-Ends :
      (count : ℕ) (stream : Istream S)
      → IsReadable stream
      → Ends (Skips count stream) stream ((pb_read count >> pure tt) stream)
  read_all-Ends count stream h =
      Ends-continue (Took count stream.bytes_left) (Skips count stream) stream _ _
        (pb_read-Ends count stream h) (λ a t p r m. (p.1, r, m))

  skip_loop-Ends :
      (fuel count : ℕ) (stream : Istream S)
      → count < 16 * fuel
      → IsReadable stream
      → Ends (Skips count stream) stream (skip_loop fuel count stream)
  unfolding skip_loop
  skip_loop-Ends zero count stream hf h = absurd (omega arith)
  skip_loop-Ends (suc fuel) count stream hf h = elim (Bool-cases (ltb 16 count)) [
    | inl e ↦
        let big = ltb→lt 16 count e in
        rw (e, skip_loop)
          (Ends-continue (Took 16 stream.bytes_left) (Skips count stream) stream _ _
            (pb_read-Ends 16 stream h)
            (λ a t p r m.
              Ends-weaken (Skips (count - 16) t) (Skips count stream) stream t _
                (skip_loop-Ends fuel (count - 16) t (omega arith) r) m
                (λ x u q n. omega (arith, p.1))))
    | inr e ↦ rw (e, skip_loop) (read_all-Ends count stream h)
  ]

  skip_from-Ends :
      (source : Source S) (count : ℕ) (stream : Istream S)
      → IsReadable stream
      → Ends (Skips count stream) stream (skip_from source count stream)
  unfolding skip_from
  skip_from-Ends (memory bytes) count stream h = read_all-Ends count stream h
  skip_from-Ends (device f state) count stream h =
      skip_loop-Ends (count / 16 + 1) count stream (omega arith) h

  pub pb_read_null-Ends :
      (count : ℕ) (stream : Istream S)
      → IsReadable stream
      → Ends (Skips count stream) stream (pb_read_null count stream)
  unfolding pb_read_null
  pb_read_null-Ends count stream h = skip_from-Ends stream.source count stream h

  -- A test on the byte just read.
  pub Ends-test :
      {A : Type 0} (Q : A → Istream S → Type 0) (start : Istream S) (c : Bool)
      (o o' : Outcome (Istream S) A)
      → Ends Q start o
      → Ends Q start o'
      → Ends Q start (elim c [ true ↦ o | false ↦ o' ])
  Ends-test Q start true o o' h h' = h
  Ends-test Q start false o o' h h' = h'

  -- `bitpos` passes `width` before the fuel runs out, and before it could wrap.
  varint_rounds-Ends :
      (width fuel pos r : ℕ) (stream : Istream S)
      → width ≤ 64
      → pos < width + 7
      → width + 7 ≤ pos + 7 * fuel
      → IsReadable stream
      → Ends (Takes stream) stream (varint_rounds width fuel pos r stream)
  unfolding varint_rounds in_error
  varint_rounds-Ends width zero pos r stream hw hp hf h = absurd (omega arith)
  varint_rounds-Ends width (suc fuel) pos r stream hw hp hf h = elim (Bool-cases (leb width pos)) [
    | inl e ↦ rw (e, varint_rounds) (h, Moved-error stream _)
    | inr e ↦
        let lt : pos < width = ground arith in
        rw (e, varint_rounds)
          (Ends-Takes stream _ _ (pb_readbyte-Ends stream h) (λ b t p q.
            Ends-test Any t (bit_and b 0x80 == 0) _ _ (tt, q, Moved-refl t)
              (Ends-Any (Takes t) t _ (
                varint_rounds-Ends width fuel ((pos + 7) % 256) (add_group width r b pos) t hw
                  (omega arith) (omega arith) q))))
  ]

  pub pb_decode_varint-Ends :
      (stream : Istream S)
      → IsReadable stream
      → Ends (Takes stream) stream (pb_decode_varint stream)
  unfolding pb_decode_varint
  pb_decode_varint-Ends stream h =
      varint_rounds-Ends 64 11 0 0 stream (omega arith) (omega arith) (omega arith) h

  pub pb_decode_varint32-Ends :
      (stream : Istream S)
      → IsReadable stream
      → Ends (Takes stream) stream (pb_decode_varint32 stream)
  unfolding pb_decode_varint32
  pb_decode_varint32-Ends stream h = Ends-Takes stream _ _ (pb_readbyte-Ends stream h) (λ b t p q.
      elim (Bool-cases (bit_and b 0x80 == 0)) [
        | inl e ↦ rw e (tt, q, Moved-refl t)
        | inr e ↦ rw e (
            Ends-Any (Takes t) t _ (
              varint_rounds-Ends 32 5 7 (bit_and b 0x7f) t (omega arith) (omega arith) (omega arith)
                q))
      ])

  -- Each round takes a byte, so the bytes left bound the rounds.
  skip_varint_loop-Ends :
      (fuel : ℕ) (stream : Istream S)
      → stream.bytes_left < fuel
      → IsReadable stream
      → Ends Any stream (skip_varint_loop fuel stream)
  unfolding skip_varint_loop
  skip_varint_loop-Ends zero stream hf h = absurd (omega arith)
  skip_varint_loop-Ends (suc fuel) stream hf h =
      Ends-then (λ b t. suc t.bytes_left ≡ stream.bytes_left) Any stream _ _
        (read_one-Ends stream h)
        (λ b t p q.
          Ends-test Any t (bit_and b 0x80 == 0) _ _ (tt, q, Moved-refl t)
            (skip_varint_loop-Ends fuel t (omega arith) q))

  pub pb_skip_varint-Ends :
      (stream : Istream S) → IsReadable stream → Ends Any stream (pb_skip_varint stream)
  unfolding pb_skip_varint
  pb_skip_varint-Ends stream h =
      skip_varint_loop-Ends (stream.bytes_left + 1) stream (omega arith) h

  -- The bytes stored never pass the room of the buffer.
  pub raw_varint_loop-Ends :
      (room : ℕ) (stream : Istream S)
      → IsReadable stream
      → Ends (λ bytes t. length bytes ≤ room) stream (raw_varint_loop room stream)
  unfolding raw_varint_loop
  raw_varint_loop-Ends zero stream h = (h, Moved-refl stream)
  raw_varint_loop-Ends (suc room) stream h =
      Ends-then (λ b t. suc t.bytes_left ≡ stream.bytes_left) _ stream _ _ (read_one-Ends stream h)
        (λ b t p q.
          Ends-test (λ bytes t. length bytes ≤ suc room) t (bit_and b 0x80 == 0) _ _
            (omega arith, q, Moved-refl t)
            (Ends-then (λ bytes t. length bytes ≤ room) _ t _ _ (raw_varint_loop-Ends room t q)
              (λ bytes u s v. (omega arith, v, Moved-refl u))))
