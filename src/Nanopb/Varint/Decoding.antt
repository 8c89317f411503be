-- ===== src/Nanopb/Varint/Decoding.antt =====
-- What the loops of pb_decode_varint and pb_decode_varint32 of pb_decode.c make of a varint.
use swe_capstone.Common.{
  ℕ, zero, suc, ◌+◌, ◌-◌, ◌*◌, ◌%◌, ◌^◌, ◌≤◌, ◌<◌, ◌≡◌, ap, List, [], ◌∷◌, ◌++◌, Option, length,
  All, arith,
}
use native.Mathlib.Nat.{mul-le-mul_right, mod-lt, mod-eq_of_lt, le_trans, pow-le-pow_right}
use swe_capstone.Common.Bits.{bit_and-0x7f, bit_and-0x80, bit_or_high}
use swe_capstone.Common.Powers.{pow-add, shift_mod, add_shift_mod}
use swe_capstone.Nanopb.Stream.{
  ErrorMessage, varint_overflow, end_of_stream, done, failed, first_message,
}
use swe_capstone.Nanopb.Input.Memory.{reading, pb_readbyte_lem, pb_readbyte-end}
use swe_capstone.Nanopb.Input.{in_error}
use swe_capstone.Nanopb.Decode.{add_group, varint_rounds, pb_decode_varint}
use swe_capstone.Nanopb.Varint.{IsBase128, value_of, IsHigh}

-- `|` adds the group, since the bits from `bitpos` on are still zero.
add_group_lem :
    (width r b pos : ℕ)
    → pos ≤ width
    → r < 2 ^ pos
    → add_group width r b pos ≡ (r + b % 128 * 2 ^ pos) % 2 ^ width
add_group_lem width r b pos h hr =
    rw
      (
        bit_and-0x7f b,
        shift_mod (b % 128) pos width h,
        bit_or_high pos (b % 128 % 2 ^ (width - pos)) r hr,
        ← shift_mod (b % 128) pos width h,
      )
      (add_shift_mod r (b % 128) pos width h hr)

-- The value so far and the groups to come, as one more round sees them.
regroup :
    (r b v pos : ℕ)
    → (r + b % 128 * 2 ^ pos) + v * 2 ^ (pos + 7) ≡ r + (b % 128 + 128 * v) * 2 ^ pos
regroup r b v pos = omega (arith, ap (λ (t : ℕ). v * t) (pow-add pos 7))

-- A group that fits the word stays as it is, and leaves the bits above it zero.
group_fits : (r b pos : ℕ) → r < 2 ^ pos → r + b % 128 * 2 ^ pos < 2 ^ (pos + 7)
group_fits r b pos hr =
    omega (arith, pow-add pos 7, mul-le-mul_right (2 ^ pos) (mod-lt b {m = 128} (omega arith)))

group_exact :
    (width r b pos : ℕ)
    → pos + 7 ≤ width
    → r < 2 ^ pos
    → (r + b % 128 * 2 ^ pos) % 2 ^ width ≡ r + b % 128 * 2 ^ pos
group_exact width r b pos h hr =
    mod-eq_of_lt (le_trans (group_fits r b pos hr) (pow-le-pow_right (omega arith) h))

module _ {S : Type 0} (width : ℕ) (small : width ≤ 64) where
  -- One round, on a byte that ends the number and on one that does not.
  round_last :
      (fuel pos r b : ℕ) (rest : List ℕ) (left : ℕ) (e : Option ErrorMessage)
      → pos < width
      → r < 2 ^ pos
      → b < 128
      → varint_rounds width (suc fuel) pos r (reading {S = S} (b ∷ rest) (suc left) e)
        ≡ done ((r + b % 128 * 2 ^ pos) % 2 ^ width) (reading rest left e)
  unfolding varint_rounds
  round_last fuel pos r b rest left e h hr hb =
      ground
        (arith, pb_readbyte_lem {S = S} e b rest left, add_group_lem width r b pos, bit_and-0x80 b)

  round_high :
      (fuel pos r b : ℕ) (rest : List ℕ) (left : ℕ) (e : Option ErrorMessage)
      → pos < width
      → r < 2 ^ pos
      → IsHigh b
      → varint_rounds width (suc fuel) pos r (reading {S = S} (b ∷ rest) (suc left) e)
        ≡ varint_rounds width fuel
            (pos + 7)
            ((r + b % 128 * 2 ^ pos) % 2 ^ width)
            (reading rest left e)
  unfolding varint_rounds
  round_high fuel pos r b rest left e h hr hb =
      ground
        (arith, pb_readbyte_lem {S = S} e b rest left, add_group_lem width r b pos, bit_and-0x80 b)

  -- Rounds over a whole varint that starts inside the word give its value modulo the word.
  pub varint_rounds-value :
      (bytes : List ℕ) (fuel pos r left : ℕ) (rest : List ℕ) (e : Option ErrorMessage)
      → IsBase128 bytes
      → pos + 7 * length bytes < width + 7
      → length bytes ≤ fuel
      → r < 2 ^ pos
      → varint_rounds width fuel pos r (reading {S = S} (bytes ++ rest) (length bytes + left) e)
        ≡ done ((r + value_of bytes * 2 ^ pos) % 2 ^ width) (reading rest left e)
  varint_rounds-value [] fuel pos r left rest e v h hf hr = elim v [ ]
  varint_rounds-value (b ∷ bytes) zero pos r left rest e v h hf hr = absurd (omega arith)
  varint_rounds-value (b ∷ []) (suc fuel) pos r left rest e v h hf hr =
      ground (arith, round_last fuel pos r b rest left e)
  varint_rounds-value (b ∷ c ∷ bytes) (suc fuel) pos r left rest e v h hf hr =
      let r' = r + b % 128 * 2 ^ pos in
      ground (
        arith,
        round_high fuel pos r b (c ∷ (bytes ++ rest)) (suc (length bytes) + left) e,
        group_fits r b pos hr,
        group_exact width r b pos,
        varint_rounds-value (c ∷ bytes) fuel (pos + 7) r' left rest e,
        regroup r b (value_of (c ∷ bytes)) pos,
      )

  -- A round on a byte that does not end the number, whatever the word holds.
  round_on :
      (fuel pos r b : ℕ) (rest : List ℕ) (left : ℕ) (e : Option ErrorMessage)
      → pos < width
      → IsHigh b
      → varint_rounds width (suc fuel) pos r (reading {S = S} (b ∷ rest) (suc left) e)
        ≡ varint_rounds width fuel (pos + 7) (add_group width r b pos) (reading rest left e)
  unfolding varint_rounds
  round_on fuel pos r b rest left e h hb =
      ground (arith, pb_readbyte_lem {S = S} e b rest left, bit_and-0x80 b)

  -- Bytes that do not end the number up to the last bit of the word are refused.
  pub varint_rounds-overflow :
      (bytes : List ℕ) (fuel pos r left : ℕ) (rest : List ℕ) (e : Option ErrorMessage)
      → All IsHigh bytes
      → width ≤ pos + 7 * length bytes
      → pos + 7 * length bytes < width + 7
      → length bytes < fuel
      → varint_rounds width fuel pos r (reading {S = S} (bytes ++ rest) (length bytes + left) e)
        ≡ failed (reading rest left (first_message e varint_overflow))
  varint_rounds-overflow bytes zero pos r left rest e v lo hi hf = absurd (omega arith)
  varint_rounds-overflow [] (suc fuel) pos r left rest e v lo hi hf =
      unfold varint_rounds in_error in ground arith
  varint_rounds-overflow (b ∷ bytes) (suc fuel) pos r left rest e v lo hi hf = ground (
    arith,
    round_on fuel pos r b (bytes ++ rest) (length bytes + left) e,
    varint_rounds-overflow bytes fuel (pos + 7) (add_group width r b pos) left rest e,
  )

  -- A stream that ends before the number does is refused as well.
  pub varint_rounds-end :
      (bytes : List ℕ) (fuel pos r : ℕ) (rest : List ℕ) (e : Option ErrorMessage)
      → All IsHigh bytes
      → pos + 7 * length bytes < width
      → length bytes < fuel
      → varint_rounds width fuel pos r (reading {S = S} (bytes ++ rest) (length bytes) e)
        ≡ failed (reading rest 0 (first_message e end_of_stream))
  varint_rounds-end bytes zero pos r rest e v hi hf = absurd (omega arith)
  varint_rounds-end [] (suc fuel) pos r rest e v hi hf =
      unfold varint_rounds in ground (arith, pb_readbyte-end {S = S} e rest)
  varint_rounds-end (b ∷ bytes) (suc fuel) pos r rest e v hi hf = ground (
    arith,
    round_on fuel pos r b (bytes ++ rest) (length bytes) e,
    varint_rounds-end bytes fuel (pos + 7) (add_group width r b pos) rest e,
  )

module _ {S : Type 0} (bytes rest : List ℕ) (e : Option ErrorMessage) where
  -- On a varint of at most 10 bytes, of any padding, in front of any other bytes: pb_decode_varint
  -- returns its value modulo 2 ^ 64 and leaves what follows.
  pub pb_decode_varint-value :
      (left : ℕ)
      → IsBase128 bytes
      → length bytes ≤ 10
      → pb_decode_varint (reading {S = S} (bytes ++ rest) (length bytes + left) e)
        ≡ done (value_of bytes % 2 ^ 64) (reading rest left e)
  unfolding pb_decode_varint
  pb_decode_varint-value left v h =
      ground (arith, varint_rounds-value {S = S} 64 (omega arith) bytes 11 0 0 left rest e)

  -- After 10 bytes none of which ends the number, pb_decode_varint returns false with the message
  -- for a varint overflow, unless an error was reported before, and has read just those 10 bytes.
  pub pb_decode_varint-overflow :
      (left : ℕ)
      → All IsHigh bytes
      → length bytes ≡ 10
      → pb_decode_varint (reading {S = S} (bytes ++ rest) (length bytes + left) e)
        ≡ failed (reading rest left (first_message e varint_overflow))
  unfolding pb_decode_varint
  pb_decode_varint-overflow left v h =
      varint_rounds-overflow 64 (omega arith) bytes 11 0 0 left rest e v (omega arith) (omega arith)
        (omega arith)

  -- On a stream that ends after less than 10 bytes none of which ends the number, pb_decode_varint
  -- returns false with the message for the end of the stream, unless an error was reported before,
  -- and has read just those bytes.
  pub pb_decode_varint-end :
      All IsHigh bytes
      → length bytes < 10
      → pb_decode_varint (reading {S = S} (bytes ++ rest) (length bytes) e)
        ≡ failed (reading rest 0 (first_message e end_of_stream))
  unfolding pb_decode_varint
  pb_decode_varint-end v h =
      varint_rounds-end 64 (omega arith) bytes 11 0 0 rest e v (omega arith) (omega arith)
