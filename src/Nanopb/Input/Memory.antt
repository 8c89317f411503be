-- ===== src/Nanopb/Input/Memory.antt =====
-- Reads of pb_decode.c from the stream of pb_istream_from_buffer.
use swe_capstone.Common.{ℕ, suc, ◌+◌, ◌≡◌, refl, List, [], ◌∷◌, ◌++◌, Option, some, length, arith}
use swe_capstone.Nanopb.Stream.{
  ErrorMessage, end_of_stream, done, failed, memory, Istream, first_message,
}
use swe_capstone.Nanopb.Input.{split_exact, pb_read, pb_readbyte, pb_read_null}

-- A stream over `bytes` of which `left` may still be read.
abbrev pub reading : {S : Type 0} → List ℕ → ℕ → Option ErrorMessage → Istream S
reading bytes left errmsg = record { source = memory bytes; bytes_left = left; errmsg = errmsg }

pub split_exact-append :
    (front back : List ℕ) → split_exact (length front) (front ++ back) ≡ some (front, back)
unfolding split_exact
split_exact-append [] back = refl
split_exact-append (b ∷ front) back = rw (split_exact-append front back)

module _ {S : Type 0} (errmsg : Option ErrorMessage) where
  pub pb_readbyte_lem :
      (b : ℕ) (back : List ℕ) (left : ℕ)
      → pb_readbyte (reading {S = S} (b ∷ back) (suc left) errmsg)
        ≡ done b (reading back left errmsg)
  unfolding pb_readbyte
  pb_readbyte_lem b back left = ground arith

  pub pb_readbyte-end :
      (bytes : List ℕ)
      → pb_readbyte (reading {S = S} bytes 0 errmsg)
        ≡ failed (reading bytes 0 (first_message errmsg end_of_stream))
  unfolding pb_readbyte
  pb_readbyte-end bytes = refl

  pub pb_read_lem :
      (front back : List ℕ) (left : ℕ)
      → pb_read (length front) (reading {S = S} (front ++ back) (length front + left) errmsg)
        ≡ done front (reading back left errmsg)
  unfolding pb_read
  pb_read_lem front back left = ground (arith, split_exact-append front back)

  -- pb_read with a null buffer moves on as far.
  pub pb_read_null_lem :
      (front back : List ℕ) (left : ℕ)
      → pb_read_null (length front) (reading {S = S} (front ++ back) (length front + left) errmsg)
        ≡ done tt (reading back left errmsg)
  unfolding pb_read_null
  pb_read_null_lem front back left = ground (arith, pb_read_lem front back left)
