-- ===== src/Nanopb/Varint.antt =====
-- The varint format of protocol buffers, described apart from the code of pb_encode.c and
-- pb_decode.c: groups of seven bits, lowest first, the top bit set on every byte but the last.
pub mod Encoding
pub mod Decoding
pub mod Decoding32
pub mod RoundTrip
use swe_capstone.Common.{ℕ, ◌+◌, ◌*◌, ◌%◌, ◌≤◌, ◌<◌, List, [], ◌∷◌}

abbrev pub IsBase128 : List ℕ → Type 0
IsBase128 [] = ⊥
IsBase128 (b ∷ []) = b < 128
IsBase128 (b ∷ c ∷ bytes) = (128 ≤ b) × (b < 256) × IsBase128 (c ∷ bytes)

-- A byte that another one follows.
abbrev pub IsHigh : ℕ → Type 0
IsHigh b = (128 ≤ b) × (b < 256)

abbrev pub value_of : List ℕ → ℕ
value_of [] = 0
value_of (b ∷ bytes) = b % 128 + 128 * value_of bytes
