-- ===== src/Nanopb/DecodeFixed.antt =====
-- pb_decode_svarint, pb_decode_fixed32 and pb_decode_fixed64 of pb_decode.c.
use swe_capstone.Common.{ℕ, ◌*◌, ◌/◌, ◌%◌, ◌^◌, bit_and, bit_or, List, [], ◌∷◌, ◌==◌, if◌then◌else◌}
use swe_capstone.Nanopb.Stream.{done, fault, Action, ◌>>=◌, pure, Istream}
use swe_capstone.Nanopb.Encode.{complement}
use swe_capstone.Nanopb.Input.{pb_read}
use swe_capstone.Nanopb.Decode.{pb_decode_varint}

-- An int64_t is its bit pattern.
unfoldable pub unzigzagged : ℕ → ℕ
unzigzagged value = if bit_and value 1 == 0 then value / 2 else complement (value / 2)

unfoldable pub pb_decode_svarint : {S : Type 0} → Action (Istream S) ℕ
pb_decode_svarint = pb_decode_varint >>= λ value. pure (unzigzagged value)

-- `(uint32_t)bytes[0] << 0 | … | (uint32_t)bytes[3] << 24`, and the same of eight bytes.
abbrev pub shifted : ℕ → ℕ → ℕ → ℕ
shifted width b bits = b * 2 ^ bits % 2 ^ width

unfoldable pub fixed32_value : {S : Type 0} → List ℕ → Action (Istream S) ℕ
fixed32_value (b0 ∷ b1 ∷ b2 ∷ b3 ∷ []) stream =
    done
      (bit_or (bit_or (bit_or (shifted 32 b0 0) (shifted 32 b1 8)) (shifted 32 b2 16))
        (shifted 32 b3 24))
      stream
fixed32_value _ stream = fault

unfoldable pub fixed64_value : {S : Type 0} → List ℕ → Action (Istream S) ℕ
fixed64_value (b0 ∷ b1 ∷ b2 ∷ b3 ∷ b4 ∷ b5 ∷ b6 ∷ b7 ∷ []) stream =
    let low =
      bit_or (bit_or (bit_or (shifted 64 b0 0) (shifted 64 b1 8)) (shifted 64 b2 16))
        (shifted 64 b3 24) in
    let high =
      bit_or (bit_or (bit_or low (shifted 64 b4 32)) (shifted 64 b5 40)) (shifted 64 b6 48) in
    done (bit_or high (shifted 64 b7 56)) stream
fixed64_value _ stream = fault

unfoldable pub pb_decode_fixed32 : {S : Type 0} → Action (Istream S) ℕ
pb_decode_fixed32 = pb_read 4 >>= fixed32_value

unfoldable pub pb_decode_fixed64 : {S : Type 0} → Action (Istream S) ℕ
pb_decode_fixed64 = pb_read 8 >>= fixed64_value
