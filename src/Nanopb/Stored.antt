-- ===== src/Nanopb/Stored.antt =====
-- Numbers in the memory that pb_encode.c reads and pb_decode.c writes.
use swe_capstone.Common.{
  ℕ, suc, ◌+◌, ◌*◌, ◌/◌, ◌%◌, ◌≤◌, ◌<◌, ◌≡◌, ◌≢◌, refl, ap, ◌∙◌, Bool-cases, Option-cases, inl, inr,
  List, [], ◌∷◌, ◌++◌, none, some, ◌==◌, ==_iff, length, All, arith,
}
use swe_capstone.Nanopb.Stream.{done}
use swe_capstone.Nanopb.Field.{Memory, load, load_byte}
use swe_capstone.Nanopb.DecodeState.{Decoding, set_byte, bytes_of, put_byte, put_bytes}

-- The memory after the bytes are written from the address on.
abbrev pub stored : List ℕ → ℕ → Memory → Memory
stored [] address memory = memory
stored (b ∷ bytes) address memory = stored bytes (address + 1) (set_byte address b memory)

-- These bytes stand there.
abbrev pub Image : List ℕ → ℕ → Memory → Type 0
Image [] address memory = Unit {0}
Image (b ∷ bytes) address memory = (memory address ≡ some b) × Image bytes (address + 1) memory

-- There are that many bytes there.
abbrev pub IsMapped : Memory → ℕ → ℕ → Type 0
IsMapped memory address count = (a : ℕ) → address ≤ a → a < address + count → memory a ≢ none

-- The number that bytes stand for, the lowest first.
abbrev pub number : List ℕ → ℕ
number [] = 0
number (b ∷ bytes) = b + 256 * number bytes

abbrev pub IsByte : ℕ → Type 0
IsByte b = b < 256

set_byte-here : (address b : ℕ) (memory : Memory) → set_byte address b memory address ≡ some b
set_byte-here address b memory = rw ((==_iff address address).1 refl) refl

set_byte-other :
    (address b a : ℕ) (memory : Memory) → a ≢ address → set_byte address b memory a ≡ memory a
set_byte-other address b a memory other = elim (Bool-cases (a == address)) [
  | inl e ↦ absurd (other ((==_iff a address).0 e))
  | inr e ↦ rw e refl
]

set_byte-IsMapped :
    (address b at count : ℕ) (memory : Memory)
    → IsMapped memory at count
    → IsMapped (set_byte address b memory) at count
set_byte-IsMapped address b at count memory h a le lt = elim (Bool-cases (a == address)) [
  | inl e ↦ rw e (λ n. cc)
  | inr e ↦ rw e (h a le lt)
]

stored-below :
    (bytes : List ℕ) (address a : ℕ) (memory : Memory)
    → a < address
    → stored bytes address memory a ≡ memory a
stored-below [] address a memory lt = refl
stored-below (b ∷ bytes) address a memory lt =
    stored-below bytes (address + 1) a (set_byte address b memory) (omega arith)
    ∙ set_byte-other address b a memory (λ e. omega (arith, e))

pub stored-Image :
    (bytes : List ℕ) (address : ℕ) (memory : Memory)
    → Image bytes address (stored bytes address memory)
stored-Image [] address memory = tt
stored-Image (b ∷ bytes) address memory = (
  stored-below bytes (address + 1) address (set_byte address b memory) (omega arith)
      ∙ set_byte-here address b memory,
  stored-Image bytes (address + 1) (set_byte address b memory),
)

pub put_bytes-stored :
    {S : Type 0} (bytes : List ℕ) (address : ℕ) (s : Decoding S)
    → IsMapped s.memory address (length bytes)
    → put_bytes bytes address s ≡ done tt (record s { memory = stored bytes address s.memory })
unfolding put_bytes
put_bytes-stored [] address s h = refl
put_bytes-stored (b ∷ bytes) address s h = elim (Option-cases (s.memory address)) [
  | inl e ↦ absurd (h address (omega arith) (omega arith) e)
  | inr (old, e) ↦
      rw (e, put_byte)
        (put_bytes-stored bytes (address + 1) (record s { memory = set_byte address b s.memory })
          (set_byte-IsMapped address b (address + 1) (length bytes) s.memory
            (λ a le lt. h a (omega arith) (omega arith))))
]

pub load_lem :
    {T : Type 0} (bytes : List ℕ) (address : ℕ) (memory : Memory) (t : T)
    → Image bytes address memory
    → load memory (length bytes) address t ≡ done (number bytes) t
unfolding load
load_lem [] address memory t h = refl
load_lem (b ∷ bytes) address memory t h =
    rw (h.0, load_byte) (rw (load_lem bytes (address + 1) memory t h.1) refl)

pub bytes_of-number :
    (bytes : List ℕ) → All IsByte bytes → bytes_of (length bytes) (number bytes) ≡ bytes
bytes_of-number [] h = refl
bytes_of-number (b ∷ bytes) h =
    let low : (b + 256 * number bytes) % 256 ≡ b = omega (arith, h.0) in
    let high : (b + 256 * number bytes) / 256 ≡ number bytes = omega (arith, h.0) in
    ap (λ c. c ∷ bytes_of (length bytes) ((b + 256 * number bytes) / 256)) low
    ∙ (ap (λ n. b ∷ bytes_of (length bytes) n) high
        ∙ ap (λ rest. b ∷ rest) (bytes_of-number bytes h.1))

stored-IsMapped :
    (bytes : List ℕ) (address at count : ℕ) (memory : Memory)
    → IsMapped memory at count
    → IsMapped (stored bytes address memory) at count
stored-IsMapped [] address at count memory h = h
stored-IsMapped (b ∷ bytes) address at count memory h =
    stored-IsMapped bytes (address + 1) at count (set_byte address b memory)
      (set_byte-IsMapped address b at count memory h)

stored-append :
    (bytes : List ℕ) (b address : ℕ) (memory : Memory)
    → set_byte (address + length bytes) b (stored bytes address memory)
      ≡ stored (bytes ++ (b ∷ [])) address memory
stored-append [] b address memory =
    let here : address + 0 ≡ address = omega arith in ap (λ a. set_byte a b memory) here
stored-append (c ∷ bytes) b address memory =
    let there : address + suc (length bytes) ≡ address + 1 + length bytes = omega arith in
    ap (λ a. set_byte a b (stored bytes (address + 1) (set_byte address c memory))) there
    ∙ stored-append bytes b (address + 1) (set_byte address c memory)

-- One byte behind bytes that were written.
pub put_byte-stored :
    {S : Type 0} (bytes : List ℕ) (b address : ℕ) (s : Decoding S)
    → IsMapped s.memory address (length bytes + 1)
    → put_byte (address + length bytes) b (record s { memory = stored bytes address s.memory })
      ≡ done tt (record s { memory = stored (bytes ++ (b ∷ [])) address s.memory })
put_byte-stored bytes b address s h =
    elim (Option-cases (stored bytes address s.memory (address + length bytes))) [
      | inl e ↦ absurd (
          stored-IsMapped bytes address address (length bytes + 1) s.memory h
            (address + length bytes) (omega arith) (omega arith) e)
      | inr (old, e) ↦
          rw (e, put_byte)
            (ap (λ m. done tt (record s { memory = m })) (stored-append bytes b address s.memory))
    ]

-- Bytes that stand in a memory stand in one that is the same there.
pub Image-same :
    (bytes : List ℕ) (address : ℕ) (memory memory' : Memory)
    → ((a : ℕ) → address ≤ a → a < address + length bytes → memory' a ≡ memory a)
    → Image bytes address memory
    → Image bytes address memory'
Image-same [] address memory memory' same h = tt
Image-same (b ∷ bytes) address memory memory' same h = (
  same address (omega arith) (omega arith) ∙ h.0,
  Image-same bytes (address + 1) memory memory' (λ a le lt. same a (omega arith) (omega arith)) h.1,
)
