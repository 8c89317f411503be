-- ===== src/Nanopb/Integers.antt =====
-- The integer fields of pb_encode.c and pb_decode.c: pb_enc_varint, pb_enc_uvarint, pb_enc_svarint
-- and pb_dec_varint, pb_dec_uvarint, pb_dec_svarint.
use swe_capstone.Common.{
  ℕ, zero, suc, ◌+◌, ◌-◌, ◌*◌, ◌/◌, ◌%◌, ◌^◌, ◌<◌, ◌≡◌, refl, sym, ap, subst, ◌∙◌, Bool, Bool-cases,
  inl, inr, List, [], ◌∷◌, ltb, ltb→lt, ltb→le, leb, ◌==◌, ==_iff, ◌||◌, length, All, arith,
}
use native.Mathlib.Nat.{pow-suc, mod-eq_of_lt, mod-lt}
use swe_capstone.Nanopb.Stream.{done, Action, Ostream}
use swe_capstone.Nanopb.Field.{Memory, load}
use swe_capstone.Nanopb.EncodeValue.{sign_extended, load_unsigned}
use swe_capstone.Nanopb.DecodeState.{Decoding, bytes_of, put}
use swe_capstone.Nanopb.DecodeValue.{cast_signed, signed_value, assign_by_size}
use swe_capstone.Nanopb.Stored.{stored, Image, IsMapped, IsByte, number, put_bytes-stored, load_lem}
use swe_capstone.Nanopb.Confined.Bytes.{length-bytes_of}

-- The sizes of integer types.
pub data IsWidth : ℕ → Type 0 where
  one_byte : IsWidth 1
  two_bytes : IsWidth 2
  four_bytes : IsWidth 4
  eight_bytes : IsWidth 8

-- The patterns of an int64_t that an intN_t of that width can hold.
abbrev pub fits_signed : ℕ → ℕ → Bool
fits_signed width x = ltb x (2 ^ (8 * width - 1)) || leb (2 ^ 64 - 2 ^ (8 * width - 1)) x

pub clamp_unsigned : (v m : ℕ) → 0 < m → (v % m == v) ≡ ltb v m
clamp_unsigned v m positive = elim (Bool-cases (ltb v m)) [
  | inl e ↦ (==_iff (v % m) v).1 (mod-eq_of_lt (ltb→lt v m e)) ∙ sym e
  | inr e ↦ elim (Bool-cases (v % m == v)) [
    | inl e' ↦ absurd (omega (arith, ltb→le v m e, mod-lt v positive, (==_iff (v % m) v).0 e'))
    | inr e' ↦ e' ∙ sym e
  ]
]

pub clamp_signed : (w x : ℕ) → IsWidth w → x < 2 ^ 64 → (cast_signed w x == x) ≡ fits_signed w x
clamp_signed _ x one_byte lt = ground arith
clamp_signed _ x two_bytes lt = ground arith
clamp_signed _ x four_bytes lt = ground arith
clamp_signed _ x eight_bytes lt = ground arith

pub signed_value-fits : (w v : ℕ) → v < 2 ^ 64 → signed_value w v < 2 ^ 64
signed_value-fits w v lt = ground arith

pub number-below : (bytes : List ℕ) → All IsByte bytes → number bytes < 256 ^ length bytes
number-below [] h = omega arith
number-below (b ∷ bytes) h = omega (arith, h.0, number-below bytes h.1, pow-suc 256 (length bytes))

bytes_of-add : (w v k : ℕ) → bytes_of w (v + k * 256 ^ w) ≡ bytes_of w v
bytes_of-add zero v k = refl
bytes_of-add (suc w) v k =
    let split = ap (λ (t : ℕ). k * t) (pow-suc 256 w) in
    let low : (v + k * 256 ^ suc w) % 256 ≡ v % 256 = omega (arith, split) in
    let high : (v + k * 256 ^ suc w) / 256 ≡ v / 256 + k * 256 ^ w = omega (arith, split) in
    ap (λ b. b ∷ bytes_of w ((v + k * 256 ^ suc w) / 256)) low
    ∙ ap (λ rest. v % 256 ∷ rest) (ap (bytes_of w) high ∙ bytes_of-add w (v / 256) k)

-- An intN_t as an int64_t and back.
pub record Extends (w v x : ℕ) : Type 0 where
  pub small : x < 2 ^ 64
  pub again : signed_value w x ≡ x
  pub clamped : cast_signed w x ≡ x
  pub bytes : bytes_of w x ≡ bytes_of w v

extend :
    (w v k : ℕ)
    → sign_extended w v ≡ v + k * 256 ^ w
    → sign_extended w v < 2 ^ 64
    → signed_value w (sign_extended w v) ≡ sign_extended w v
    → cast_signed w (sign_extended w v) ≡ sign_extended w v
    → Extends w v (sign_extended w v)
extend w v k e small again clamped = record {
  small = small;
  again = again;
  clamped = clamped;
  bytes = ap (bytes_of w) e ∙ bytes_of-add w v k;
}

pub sign_extended-Extends : (w v : ℕ) → IsWidth w → v < 256 ^ w → Extends w v (sign_extended w v)
sign_extended-Extends _ v one_byte lt = elim (Bool-cases (leb 128 v)) [
  | inl e ↦ extend 1 v (2 ^ 56 - 1) (ground arith) (ground arith) (ground arith) (ground arith)
  | inr e ↦ extend 1 v 0 (ground arith) (ground arith) (ground arith) (ground arith)
]
sign_extended-Extends _ v two_bytes lt = elim (Bool-cases (leb (2 ^ 15) v)) [
  | inl e ↦ extend 2 v (2 ^ 48 - 1) (ground arith) (ground arith) (ground arith) (ground arith)
  | inr e ↦ extend 2 v 0 (ground arith) (ground arith) (ground arith) (ground arith)
]
sign_extended-Extends _ v four_bytes lt = elim (Bool-cases (leb (2 ^ 31) v)) [
  | inl e ↦ extend 4 v (2 ^ 32 - 1) (ground arith) (ground arith) (ground arith) (ground arith)
  | inr e ↦ extend 4 v 0 (ground arith) (ground arith) (ground arith) (ground arith)
]
sign_extended-Extends _ v eight_bytes lt =
    extend 8 v 0 (ground arith) (ground arith) (ground arith) (ground arith)

pub load_unsigned_lem :
    {S : Type 0} (image : List ℕ) (src w : ℕ) (memory : Memory) (t : Ostream S)
    → IsWidth w
    → length image ≡ w
    → Image image src memory
    → load_unsigned memory w src t ≡ done (number image) t
unfolding load_unsigned
load_unsigned_lem {S} image src w memory t width size h =
    by_width w width ∙ (ap (λ n. load memory n src t) (sym size) ∙ load_lem image src memory t h)
  where
    by_width : (n : ℕ) → IsWidth n → load_unsigned memory n src t ≡ load memory n src t
    by_width _ one_byte = refl
    by_width _ two_bytes = refl
    by_width _ four_bytes = refl
    by_width _ eight_bytes = refl

module _ {S : Type 0} where
  pub assign_by_size_lem :
      (assign : ℕ → ℕ → ℕ → Action (Decoding S) ℕ) (w dest v : ℕ)
      → IsWidth w
      → assign_by_size assign w dest v ≡ assign w dest v
  unfolding assign_by_size
  assign_by_size_lem assign _ dest v one_byte = refl
  assign_by_size_lem assign _ dest v two_bytes = refl
  assign_by_size_lem assign _ dest v four_bytes = refl
  assign_by_size_lem assign _ dest v eight_bytes = refl

  pub put-stored :
      (w dest v : ℕ) (s : Decoding S)
      → IsMapped s.memory dest w
      → put w dest v s ≡ done tt (record s { memory = stored (bytes_of w v) dest s.memory })
  put-stored w dest v s mapped =
      put_bytes-stored (bytes_of w v) dest s
        (subst (IsMapped s.memory dest) (sym (length-bytes_of w v)) mapped)
