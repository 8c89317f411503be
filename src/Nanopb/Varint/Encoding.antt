-- ===== src/Nanopb/Varint/Encoding.antt =====
-- What pb_encode_varint of pb_encode.c hands to the stream.
use swe_capstone.Common.{
  ℕ, zero, suc, ◌+◌, ◌/◌, ◌%◌, ◌^◌, ◌≤◌, ◌<◌, ◌≡◌, ◌≢◌, List, [], ◌∷◌, some, length, All, arith,
  leb, false, ◌∙◌, Bool-cases, inl, inr, ◌==◌,
}
use swe_capstone.Common.Bits.{bit_and-0x7f, bit_or-0x80}
use swe_capstone.Nanopb.Encode.{varint_byte, varint_loop, unset_last, varint_buffer}
use swe_capstone.Nanopb.Varint.{IsBase128, IsHigh, value_of}

varint_byte_lem : (v : ℕ) → varint_byte v ≡ v % 128 + 128
varint_byte_lem v = rw (bit_and-0x7f v, bit_or-0x80 (v % 128) (omega arith)) (omega arith)

pub IsBase128-cons : (b : ℕ) (bytes : List ℕ) → IsHigh b → IsBase128 bytes → IsBase128 (b ∷ bytes)
IsBase128-cons b [] h v = elim v [ ]
IsBase128-cons b (c ∷ bytes) h v = (h.0, h.1, v)

-- The last byte loses its top bit, and the groups stay what they are.
unset_last_lem :
    (b : ℕ) (bytes : List ℕ)
    → All IsHigh (b ∷ bytes)
    → IsBase128 (unset_last (b ∷ bytes))
      × (value_of (unset_last (b ∷ bytes)) ≡ value_of (b ∷ bytes))
      × (length (unset_last (b ∷ bytes)) ≡ length (b ∷ bytes))
unfolding unset_last
unset_last_lem b [] h = omega (arith, bit_and-0x7f b)
unset_last_lem b (c ∷ bytes) h =
    let ih = unset_last_lem c bytes h.1 in
    (IsBase128-cons b _ h.0 ih.0, omega (arith, ih.1), omega (arith, ih.2))

-- What the loop leaves in `buffer` when it has room for the groups of `v`.
record Groups (room v : ℕ) : Type 0 where
  bytes : List ℕ
  returned : varint_loop room v ≡ some bytes
  high : All IsHigh bytes
  value : value_of bytes ≡ v
  short : length bytes ≤ room
  fits : (k : ℕ) → v < 128 ^ k → length bytes ≤ k

fits_suc : (v k n : ℕ) → v ≢ 0 → v < 128 ^ k → ((j : ℕ) → v / 128 < 128 ^ j → n ≤ j) → suc n ≤ k
fits_suc v zero n h lt rest = absurd (omega arith)
fits_suc v (suc k) n h lt rest = omega (arith, rest k (omega arith))

varint_loop-Groups : (room v : ℕ) → v < 128 ^ room → Groups room v
unfolding varint_loop
varint_loop-Groups zero v h = record {
  bytes = [];
  returned = ground arith;
  high = tt;
  value = omega arith;
  short = omega arith;
  fits = λ k lt. omega arith;
}
varint_loop-Groups (suc room) v h = elim (Bool-cases (v == 0)) [
  | inl e ↦ record {
    bytes = [];
    returned = rw (e, varint_loop);
    high = tt;
    value = ground arith;
    short = omega arith;
    fits = λ k lt. omega arith;
  }
  | inr e ↦
      let rest = varint_loop-Groups room (v / 128) (omega arith) in
      record {
        bytes = varint_byte v ∷ rest.bytes;
        returned = rw (e, rest.returned, varint_loop);
        high = (omega (arith, varint_byte_lem v), rest.high);
        value = omega (arith, varint_byte_lem v, rest.value);
        short = omega (arith, rest.short);
        fits = λ k lt. fits_suc v k _ (ground arith) lt rest.fits;
      }
]

-- The bytes that pb_encode_varint writes for a uint64_t.
pub record Encoded (v : ℕ) : Type 0 where
  pub bytes : List ℕ
  pub returned : varint_buffer v ≡ some bytes
  pub form : IsBase128 bytes
  pub value : value_of bytes ≡ v
  pub short : length bytes ≤ 10
  pub fits : (k : ℕ) → v < 128 ^ suc k → length bytes ≤ suc k

-- Above 0x7F the loop runs, and it writes a byte at least.
from_loop :
    (v : ℕ) (bytes : List ℕ)
    → leb v 0x7f ≡ false
    → varint_loop 10 v ≡ some bytes
    → All IsHigh bytes
    → value_of bytes ≡ v
    → length bytes ≤ 10
    → ((k : ℕ) → v < 128 ^ k → length bytes ≤ k)
    → Encoded v
unfolding varint_buffer
from_loop v [] e r h w s f = absurd (ground arith)
from_loop v (b ∷ bytes) e r h w s f =
    let last = unset_last_lem b bytes h in
    record {
      bytes = unset_last (b ∷ bytes);
      returned = rw (e, r);
      form = last.0;
      value = last.1 ∙ w;
      short = omega (arith, last.2);
      fits = λ k lt. omega (arith, last.2, f (suc k) lt);
    }

pub varint_buffer-Encoded : (v : ℕ) → v < 2 ^ 64 → Encoded v
unfolding varint_buffer
varint_buffer-Encoded v h = elim (Bool-cases (leb v 0x7f)) [
  | inl e ↦ record {
    bytes = v % 256 ∷ [];
    returned = rw e;
    form = ground arith;
    value = ground arith;
    short = omega arith;
    fits = λ k lt. omega arith;
  }
  | inr e ↦
      let l = varint_loop-Groups 10 v (omega arith) in
      from_loop v l.bytes e l.returned l.high l.value l.short l.fits
]
