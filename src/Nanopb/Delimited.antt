-- ===== src/Nanopb/Delimited.antt =====
-- Length-delimited data: pb_encode_string of pb_encode.c against pb_skip_string and the substreams
-- of pb_decode.c.
use swe_capstone.Common.{
  ℕ, ◌+◌, ◌≤◌, ◌<◌, ◌≡◌, refl, ap, ◌∙◌, ◌^◌, suc, List, [], ◌∷◌, ◌++◌, Option, length, drop,
  length-append, length-drop, arith, le→ltb,
}
use native.Mathlib.Nat.{add-zero}
use swe_capstone.Nanopb.Stream.{ErrorMessage, wt_string, done}
use swe_capstone.Nanopb.Output.Buffer.{filled, pb_write-fits}
use swe_capstone.Nanopb.Input.Memory.{reading, pb_read_null_lem}
use swe_capstone.Nanopb.Encode.{pb_encode_string}
use swe_capstone.Nanopb.Decode.{pb_decode_varint32, pb_skip_string, pb_skip_field}
use swe_capstone.Nanopb.Input.{pb_read_null}
use swe_capstone.Nanopb.Substream.{pb_make_string_substream, pb_close_string_substream}
use swe_capstone.Nanopb.Varint.Encoding.{Encoded, varint_buffer-Encoded}
use swe_capstone.Nanopb.Varint.Decoding32.{pb_decode_varint32-value}
use swe_capstone.Nanopb.Varint.RoundTrip.{IsBacked, pb_encode_varint-bytes}

-- The length prefix of a string.
pub prefix_read :
    {T : Type 0} {n : ℕ} (c : Encoded n) (rest : List ℕ) (left : ℕ) (d : Option ErrorMessage)
    → n < 2 ^ 32
    → pb_decode_varint32 (reading {S = T} (c.bytes ++ rest) (length c.bytes + left) d)
      ≡ done n (reading rest left d)
prefix_read c rest left d h =
    pb_decode_varint32-value rest d c.bytes left c.form (c.fits 4 (omega arith))
    ∙ ap (λ (t : ℕ). done t (reading rest left d)) (omega (arith, c.value))

module _ {S : Type 0} (front back buf : List ℕ) (max_size : ℕ) (e : Option ErrorMessage) where
  -- The prefix is written, and then the bytes.
  pub string_written :
      (c : Encoded (length buf))
      → IsBacked front back max_size
      → length front + (length c.bytes + length buf) ≤ max_size
      → pb_encode_string buf (length buf) (filled {S = S} front back max_size e)
        ≡ done tt (
            filled
              ((front ++ c.bytes) ++ buf)
              (drop (length buf) (drop (length c.bytes) back))
              max_size
              e)
  unfolding pb_encode_string
  string_written c ok room =
      rw
        (
          pb_encode_varint-bytes {S = S} front back max_size e ok (length buf) c,
          le→ltb max_size (length front + length c.bytes) (omega arith),
        )
        (pb_write-fits {S = S} (front ++ c.bytes) (drop (length c.bytes) back) buf max_size e
          ok.small
          (omega (arith, length-append front c.bytes, length-drop (length c.bytes) back, ok.backed))
          (omega (arith, length-append front c.bytes)))

module _ {T : Type 0} {n : ℕ} (c : Encoded n) (rest : List ℕ) (left : ℕ) (d : Option ErrorMessage)
    (small : n < 2 ^ 32) where
  substream_made :
      pb_make_string_substream (reading {S = T} (c.bytes ++ rest) (length c.bytes + (n + left)) d)
      ≡ done (reading rest n d) (reading rest left d)
  unfolding pb_make_string_substream
  substream_made = rw (prefix_read {T = T} c rest (n + left) d small) (ground arith)

module _ {T : Type 0} (rest seen : List ℕ) (left : ℕ) (d d' : Option ErrorMessage) where
  -- On streams over memory, whatever part of a substream is still unread,
  -- pb_close_string_substream skips it, moves the parent stream behind it, keeps the count of what
  -- the parent may read, and hands the error message of the substream to the parent.
  pub pb_close_string_substream_lem :
      (unread : List ℕ)
      → pb_close_string_substream
          (reading {S = T} (unread ++ rest) (length unread) d')
          (reading seen left d)
        ≡ done tt (reading rest left d')
  unfolding pb_close_string_substream
  pb_close_string_substream_lem [] = refl
  pb_close_string_substream_lem (b ∷ unread) =
      let skipped : pb_read_null (suc (length unread))
            (reading {S = T} (b ∷ (unread ++ rest)) (suc (length unread)) d')
          ≡ done tt (reading rest 0 d') =
        rw (add-zero) at (pb_read_null_lem {S = T} d' (b ∷ unread) rest 0) in
      ground (arith, skipped)

module _ {S T : Type 0} (front back buf rest : List ℕ) (max_size left : ℕ)
    (e d : Option ErrorMessage) where
  -- Where a string of less than 2 ^ 32 bytes and 5 bytes more fit a buffer stream whose limit lies
  -- within its memory: pb_encode_string writes a length prefix and then the bytes; on what was
  -- written pb_make_string_substream returns a substream of just the bytes of the string, with the
  -- parent left with what follows it; and pb_skip_field, which does not look at the field, moves
  -- behind the string.
  pub decode-encode_string :
      length buf < 2 ^ 32
      → IsBacked front back max_size
      → length front + (5 + length buf) ≤ max_size
      → (bytes : List ℕ) × (pb_encode_string buf (length buf) (filled {S = S} front back max_size e)
          ≡ done tt (
              filled
                ((front ++ bytes) ++ buf)
                (drop (length buf) (drop (length bytes) back))
                max_size
                e))
        × (pb_make_string_substream
              (reading {S = T} (bytes ++ (buf ++ rest)) (length bytes + (length buf + left)) d)
            ≡ done (reading (buf ++ rest) (length buf) d) (reading (buf ++ rest) left d))
        × (pb_skip_field wt_string
              (reading {S = T} (bytes ++ (buf ++ rest)) (length bytes + (length buf + left)) d)
            ≡ done tt (reading rest left d))
  unfolding pb_skip_field pb_skip_string
  decode-encode_string h ok room =
      let c = varint_buffer-Encoded (length buf) (omega arith) in
      let short : length c.bytes ≤ 5 = c.fits 4 (omega arith) in
      (
        c.bytes,
        string_written front back buf max_size e c ok (omega arith),
        substream_made c (buf ++ rest) left d h,
        rw (prefix_read {T = T} c (buf ++ rest) (length buf + left) d h)
            (pb_read_null_lem d buf rest left),
      )
