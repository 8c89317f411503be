-- ===== src/Nanopb/Safety/Reads.antt =====
-- pb_read and pb_readbyte.
use swe_capstone.Common.{
  ℕ, zero, suc, ◌+◌, ◌-◌, ◌≤◌, ◌≡◌, refl, List, [], ◌∷◌, Option, none, some, length, arith, ltb,
  ◌==◌, Bool-cases, inl, inr, ltb→le, ==_iff,
}
use swe_capstone.Nanopb.Stream.{
  Outcome, done, failed, fault, stuck, continue, Istream, Source, memory, device, ◌>>=◌,
}
use swe_capstone.Nanopb.Input.{
  split_exact, device_read, source_read, received, in_error, pb_read, pb_readbyte, only_byte,
}
use native.Mathlib.Nat.{le_refl}
use swe_capstone.Nanopb.Safety.{Fills, Reads, SameSource, IsReadable, Moved-error, Ends}

split_exact_lem :
    (count : ℕ) (bytes : List ℕ)
    → count ≤ length bytes
    → (front back : List ℕ) × (split_exact count bytes ≡ some (front, back))
      × (length front ≡ count)
      × (length back + count ≡ length bytes)
unfolding split_exact
split_exact_lem zero bytes h = ([], bytes, refl, refl, omega arith)
split_exact_lem (suc count) [] h = absurd (omega arith)
split_exact_lem (suc count) (b ∷ bytes) h =
    let (front, back, e, f, g) = split_exact_lem count bytes (omega arith) in
    (b ∷ front, back, rw e, omega (arith, f), omega (arith, g))

-- What pb_read of `count` bytes returns on a stream with `left` bytes.
abbrev pub Took : {S : Type 0} → ℕ → ℕ → List ℕ → Istream S → Type 0
Took count left bytes t = (length bytes ≡ count) × (t.bytes_left + count ≡ left)

module _ {S : Type 0} where
  device_read-Ends :
      (f : S → ℕ → S × Option (List ℕ)) (count : ℕ) (stream : Istream S) (r : S × Option (List ℕ))
      → ((s : S) (count : ℕ) → Fills count (f s count).1)
      → ((s : S) (n : ℕ) → SameSource stream.source stream.bytes_left (device f s) n)
      → Fills count r.1
      → count ≤ stream.bytes_left
      → Ends (Took count stream.bytes_left) stream (received count stream (device_read f count r))
  unfolding device_read received in_error
  device_read-Ends f count stream (s, none) c e h le =
      (c, record { fewer = le_refl _; same = e s stream.bytes_left })
  device_read-Ends f count stream (s, some bytes) c e h le =
      rw ((==_iff (length bytes) count).1 h) (
        (h, omega arith),
        c,
        record { fewer = omega arith; same = e s (stream.bytes_left - count) },
      )

  -- `source` stands for that of the stream.
  received-Ends :
      (count : ℕ) (stream : Istream S) (source : Source S)
      → ((t : Source S) (n : ℕ)
          → SameSource source stream.bytes_left t n
          → SameSource stream.source stream.bytes_left t n)
      → Reads source stream.bytes_left
      → count ≤ stream.bytes_left
      → Ends
          (Took count stream.bytes_left)
          stream
          (received count stream (source_read count source))
  unfolding source_read received
  received-Ends count stream (memory bytes) k h le =
      let (front, back, e, f, g) = split_exact_lem count bytes (omega arith) in
      rw (e, source_read)
        (
          (f, omega arith),
          omega (arith, g),
          record {
            fewer = omega arith;
            same = k (memory back) (stream.bytes_left - count) (omega (arith, g));
          },
        )
  received-Ends count stream (device f s) k h le =
      device_read-Ends f count stream (f s count) h (λ t n. k (device f t) n refl) (h s count) le

  pub pb_read-Ends :
      (count : ℕ) (stream : Istream S)
      → IsReadable stream
      → Ends (Took count stream.bytes_left) stream (pb_read count stream)
  unfolding in_error pb_read
  pb_read-Ends count stream h = elim (Bool-cases (ltb stream.bytes_left count)) [
    | inl e ↦ rw e (h, Moved-error stream _)
    | inr e ↦ rw e (received-Ends count stream stream.source (λ t n m. m) h (ltb→le _ _ e))
  ]

  -- A byte is read off a stream that has one more than is left then.
  only_byte-Ends :
      (start : Istream S) (o : Outcome (Istream S) (List ℕ))
      → Ends (Took 1 start.bytes_left) start o
      → Ends (λ b t. suc t.bytes_left ≡ start.bytes_left) start (continue o only_byte)
  unfolding only_byte
  only_byte-Ends start (done [] t) h = absurd (omega arith)
  only_byte-Ends start (done (b ∷ []) t) h = (omega arith, h.1, h.2)
  only_byte-Ends start (done (b ∷ c ∷ bytes) t) h = absurd (omega arith)
  only_byte-Ends start (failed t) h = h
  only_byte-Ends start fault h = h
  only_byte-Ends start stuck h = h

  -- `pb_read(stream, &byte, 1)`
  pub read_one-Ends :
      (stream : Istream S)
      → IsReadable stream
      → Ends (λ b t. suc t.bytes_left ≡ stream.bytes_left) stream ((pb_read 1 >>= only_byte) stream)
  read_one-Ends stream h = only_byte-Ends stream _ (pb_read-Ends 1 stream h)

  pub pb_readbyte-Ends :
      (stream : Istream S)
      → IsReadable stream
      → Ends (λ b t. suc t.bytes_left ≡ stream.bytes_left) stream (pb_readbyte stream)
  unfolding in_error pb_readbyte
  pb_readbyte-Ends stream h = elim (Bool-cases (stream.bytes_left == 0)) [
    | inl e ↦ rw e (h, Moved-error stream _)
    | inr e ↦ rw e (
        only_byte-Ends stream _
          (received-Ends 1 stream stream.source (λ t n m. m) h (ground arith)))
  ]
