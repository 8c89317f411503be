-- ===== src/Nanopb/Varint/Decoding32.antt =====
-- What pb_decode_varint32 of pb_decode.c makes of a varint: its quick case, then the loop.
use swe_capstone.Common.{
  ℕ, suc, ◌+◌, ◌%◌, ◌^◌, ◌≤◌, ◌<◌, ◌≡◌, List, [], ◌∷◌, ◌++◌, Option, length, All, arith,
}
use swe_capstone.Common.Bits.{bit_and-0x7f, bit_and-0x80}
use swe_capstone.Nanopb.Stream.{
  ErrorMessage, varint_overflow, end_of_stream, done, failed, first_message,
}
use swe_capstone.Nanopb.Input.Memory.{reading, pb_readbyte_lem, pb_readbyte-end}
use swe_capstone.Nanopb.Decode.{varint_rounds, pb_decode_varint32}
use swe_capstone.Nanopb.Varint.{IsBase128, value_of, IsHigh}
use swe_capstone.Nanopb.Varint.Decoding.{
  varint_rounds-value, varint_rounds-overflow, varint_rounds-end,
}

module _ {S : Type 0} (rest : List ℕ) (e : Option ErrorMessage) where
  -- The quick case is a byte that ends the number; any other starts the loop at bit 7.
  quick :
      (b left : ℕ)
      → b < 128
      → pb_decode_varint32 (reading {S = S} (b ∷ rest) (suc left) e) ≡ done b (reading rest left e)
  unfolding pb_decode_varint32
  quick b left h = ground (arith, pb_readbyte_lem {S = S} e b rest left, bit_and-0x80 b)

  multibyte :
      (b left : ℕ)
      → IsHigh b
      → pb_decode_varint32 (reading {S = S} (b ∷ rest) (suc left) e)
        ≡ varint_rounds 32 5 7 (b % 128) (reading rest left e)
  unfolding pb_decode_varint32
  multibyte b left h =
      ground (arith, pb_readbyte_lem {S = S} e b rest left, bit_and-0x80 b, bit_and-0x7f b)

module _ {S : Type 0} (rest : List ℕ) (e : Option ErrorMessage) where
  -- On a varint of at most 5 bytes, of any padding, in front of any other bytes:
  -- pb_decode_varint32 returns its value modulo 2 ^ 32, also where the value is larger, and leaves
  -- what follows.
  pub pb_decode_varint32-value :
      (bytes : List ℕ) (left : ℕ)
      → IsBase128 bytes
      → length bytes ≤ 5
      → pb_decode_varint32 (reading {S = S} (bytes ++ rest) (length bytes + left) e)
        ≡ done (value_of bytes % 2 ^ 32) (reading rest left e)
  pb_decode_varint32-value [] left v h = elim v [ ]
  pb_decode_varint32-value (b ∷ []) left v h = ground (arith, quick {S = S} rest e b left v)
  pb_decode_varint32-value (b ∷ c ∷ bytes) left v h = ground (
    arith,
    multibyte {S = S} (c ∷ (bytes ++ rest)) e b (suc (length bytes) + left),
    varint_rounds-value {S = S} 32 (omega arith) (c ∷ bytes) 5 7 (b % 128) left rest e,
  )

  -- After 5 bytes none of which ends the number, pb_decode_varint32 returns false with the message
  -- for a varint overflow, unless an error was reported before, and has read just those 5 bytes.
  pub pb_decode_varint32-overflow :
      (bytes : List ℕ) (left : ℕ)
      → All IsHigh bytes
      → length bytes ≡ 5
      → pb_decode_varint32 (reading {S = S} (bytes ++ rest) (length bytes + left) e)
        ≡ failed (reading rest left (first_message e varint_overflow))
  pb_decode_varint32-overflow [] left v h = absurd (omega arith)
  pb_decode_varint32-overflow (b ∷ bytes) left v h = ground (
    arith,
    multibyte {S = S} (bytes ++ rest) e b (length bytes + left),
    varint_rounds-overflow {S = S} 32 (omega arith) bytes 5 7 (b % 128) left rest e,
  )

  pub pb_decode_varint32-end :
      (bytes : List ℕ)
      → All IsHigh bytes
      → length bytes < 5
      → pb_decode_varint32 (reading {S = S} (bytes ++ rest) (length bytes) e)
        ≡ failed (reading rest 0 (first_message e end_of_stream))
  pb_decode_varint32-end [] v h =
      unfold pb_decode_varint32 in ground (arith, pb_readbyte-end {S = S} e rest)
  pb_decode_varint32-end (b ∷ bytes) v h = ground (
    arith,
    multibyte {S = S} (bytes ++ rest) e b (length bytes),
    varint_rounds-end {S = S} 32 (omega arith) bytes 5 7 (b % 128) rest e,
  )
