-- ===== src/Nanopb/Confined/Bytes.antt =====
-- Writes and reads of the memory stay in a region that covers them.
use swe_capstone.Common.{
  ℕ, zero, suc, ◌+◌, ◌/◌, ◌≤◌, ◌<◌, ◌≡◌, refl, sym, ap, subst, ◌∙◌, Bool-cases, Option-cases, inl,
  inr, List, [], ◌∷◌, none, ◌==◌, ==_iff, length, arith,
}
use native.Mathlib.Nat.{le_refl}
use swe_capstone.Nanopb.Input.{pb_read}
use swe_capstone.Nanopb.Field.{Memory, load, load_byte}
use swe_capstone.Nanopb.DecodeState.{
  Decoding, set_byte, bytes_of, zeros, put_byte, put_bytes, put, get_byte, get, get_bytes,
  memset_zero, memcpy, read_into,
}
use swe_capstone.Nanopb.Safety.{Moved-refl}
use swe_capstone.Nanopb.Safety.Reads.{Took, pb_read-Ends}
use swe_capstone.Nanopb.Confined.{
  Constants, Covers, IsReady, Confined, Anyhow, Stays-refl, Confined-then, Confined-weaken,
  on_stream-Confined,
}

pub length-bytes_of : (width value : ℕ) → length (bytes_of width value) ≡ width
length-bytes_of zero value = refl
length-bytes_of (suc width) value = ap suc (length-bytes_of width (value / 256))

pub length-zeros : (count : ℕ) → length (zeros count) ≡ count
length-zeros zero = refl
length-zeros (suc count) = ap suc (length-zeros count)

-- A part of what is covered.
pub Covers-part :
    (R : ℕ → Type 0) (address size at n : ℕ)
    → Covers R address size
    → address ≤ at
    → at + n ≤ address + size
    → Covers R at n
Covers-part R address size at n c le fit a h l = c a (omega arith) (omega arith)

-- What stands at the address may be read: it is mapped, or else F.
abbrev pub CanRead : Type 0 → Memory → ℕ → ℕ → Type 0
CanRead F memory address count = (a : ℕ) → address ≤ a → a < address + count → memory a ≡ none → F

module _ {S : Type 0} (F : Type 0) (R : ℕ → Type 0) (K : Constants) where
  -- The same stream as before.
  abbrev pub StreamKept : {A : Type 0} → Decoding S → A → Decoding S → Type 0
  StreamKept s x t = t.stream ≡ s.stream

  pub put_byte-Confined :
      (address b : ℕ) (s : Decoding S)
      → R address
      → IsReady F R K s
      → Confined F R K (StreamKept s) s (put_byte address b s)
  put_byte-Confined address b s h r = elim (Option-cases (s.memory address)) [
    | inl e ↦ rw (e, put_byte) (r.writable address h e)
    | inr (old, e) ↦
        rw (e, put_byte)
          (
            refl,
            record {
              writable = λ a h' n. r.writable a h' (unmapped a n);
              constants = λ a out. kept a out ∙ r.constants a out;
              readable = r.readable;
            },
            record { kept = kept; mapped = unmapped; moved = Moved-refl s.stream },
          )
  ]
    where
      unmapped : (a : ℕ) → set_byte address b s.memory a ≡ none → s.memory a ≡ none
      unmapped a n = elim (Bool-cases (a == address)) [ inl e ↦ cc (rw e at n) | inr e ↦ rw e at n ]

      kept : (a : ℕ) → ¬ R a → set_byte address b s.memory a ≡ s.memory a
      kept a out = elim (Bool-cases (a == address)) [
        | inl e ↦ absurd (out (subst R (sym ((==_iff a address).0 e)) h))
        | inr e ↦ rw e refl
      ]

  pub put_bytes-Confined :
      (bytes : List ℕ) (address : ℕ) (s : Decoding S)
      → Covers R address (length bytes)
      → IsReady F R K s
      → Confined F R K (StreamKept s) s (put_bytes bytes address s)
  unfolding put_bytes
  put_bytes-Confined [] address s c r = (refl, r, Stays-refl F R K s)
  put_bytes-Confined (b ∷ bytes) address s c r =
      Confined-then F R K (StreamKept s) (StreamKept s) s _ _
        (put_byte-Confined address b s (c address (le_refl _) (omega arith)) r)
        (λ x t e r' m.
          Confined-weaken F R K (StreamKept t) (StreamKept s) t t _
            (put_bytes-Confined bytes (address + 1) t (λ a le lt. c a (omega arith) (omega arith))
              r')
            (Stays-refl F R K t) (λ y u e' n. e' ∙ e))

  pub put-Confined :
      (width address value : ℕ) (s : Decoding S)
      → Covers R address width
      → IsReady F R K s
      → Confined F R K (StreamKept s) s (put width address value s)
  put-Confined width address value s c r =
      put_bytes-Confined (bytes_of width value) address s
        (subst (Covers R address) (sym (length-bytes_of width value)) c) r

  pub memset_zero-Confined :
      (address count : ℕ) (s : Decoding S)
      → Covers R address count
      → IsReady F R K s
      → Confined F R K (StreamKept s) s (memset_zero address count s)
  memset_zero-Confined address count s c r =
      put_bytes-Confined (zeros count) address s
        (subst (Covers R address) (sym (length-zeros count)) c) r

  -- pb_read of `count` bytes to the address.
  pub read_into-Confined :
      (count address : ℕ) (s : Decoding S)
      → Covers R address count
      → IsReady F R K s
      → Confined F R K (Anyhow F R K) s (read_into count address s)
  read_into-Confined count address s c r =
      Confined-then F R K (λ bytes t. Took count s.stream.bytes_left bytes t.stream) (Anyhow F R K)
        s _ _
        (on_stream-Confined F R K _ (pb_read count) s r (pb_read-Ends count s.stream r.readable))
        (λ bytes t took r' m.
          Confined-weaken F R K (StreamKept t) (Anyhow F R K) t t _
            (put_bytes-Confined bytes address t (subst (Covers R address) (sym took.0) c) r')
            (Stays-refl F R K t) (λ x u e n. tt))

  pub CanRead-Covers :
      (s : Decoding S) (address count : ℕ)
      → Covers R address count
      → IsReady F R K s
      → CanRead F s.memory address count
  CanRead-Covers s address count c r a le lt e = r.writable a (c a le lt) e

  load_byte-Confined :
      (address : ℕ) (s : Decoding S)
      → (s.memory address ≡ none → F)
      → IsReady F R K s
      → Confined F R K (λ b t. t ≡ s) s (get_byte address s)
  load_byte-Confined address s can r = elim (Option-cases (s.memory address)) [
    | inl e ↦ rw (e, load_byte) (can e)
    | inr (b, e) ↦ rw (e, load_byte) (refl, r, Stays-refl F R K s)
  ]

  pub get_bytes-Confined :
      (count address : ℕ) (s : Decoding S)
      → CanRead F s.memory address count
      → IsReady F R K s
      → Confined F R K (λ bytes t. (length bytes ≡ count) × (t ≡ s)) s (get_bytes count address s)
  unfolding get_bytes
  get_bytes-Confined zero address s can r = ((refl, refl), r, Stays-refl F R K s)
  get_bytes-Confined (suc count) address s can r =
      Confined-then F R K (λ b t. t ≡ s) _ s _ _
        (load_byte-Confined address s (can address (le_refl _) (omega arith)) r)
        (λ b t e r' m.
          Confined-then F R K (λ bytes u. (length bytes ≡ count) × (u ≡ t)) _ t _ _
            (get_bytes-Confined count (address + 1) t
              (λ a le lt n. can a (omega arith) (omega arith) (ap (λ v. v.memory a) (sym e) ∙ n))
              r')
            (λ bytes u h r'' n. ((ap suc h.0, h.1 ∙ e), r'', Stays-refl F R K u)))

  pub load-Confined :
      (memory : Memory) (width address : ℕ) (s : Decoding S)
      → CanRead F memory address width
      → IsReady F R K s
      → Confined F R K (λ v t. t ≡ s) s (load memory width address s)
  unfolding load
  load-Confined memory zero address s can r = (refl, r, Stays-refl F R K s)
  load-Confined memory (suc width) address s can r = elim (Option-cases (memory address)) [
    | inl e ↦ rw (e, load_byte, load) (can address (le_refl _) (omega arith) e)
    | inr (b, e) ↦
        rw (e, load_byte, load)
          (Confined-then F R K (λ v t. t ≡ s) (λ v t. t ≡ s) s _ _
            (load-Confined memory width (address + 1) s
              (λ a le lt n. can a (omega arith) (omega arith) n) r)
            (λ v t e' r' m. (e', r', Stays-refl F R K t)))
  ]

  -- A number is read.
  pub get-Confined :
      (width address : ℕ) (s : Decoding S)
      → Covers R address width
      → IsReady F R K s
      → Confined F R K (λ v t. t ≡ s) s (get width address s)
  get-Confined width address s c r =
      load-Confined s.memory width address s (CanRead-Covers s address width c r) r

  pub memcpy-Confined :
      (to from count : ℕ) (s : Decoding S)
      → Covers R to count
      → CanRead F s.memory from count
      → IsReady F R K s
      → Confined F R K (StreamKept s) s (memcpy to from count s)
  memcpy-Confined to from count s c can r =
      Confined-then F R K (λ bytes t. (length bytes ≡ count) × (t ≡ s)) (StreamKept s) s _ _
        (get_bytes-Confined count from s can r)
        (λ bytes t h r' m.
          Confined-weaken F R K (StreamKept t) (StreamKept s) t t _
            (put_bytes-Confined bytes to t (subst (Covers R to) (sym h.0) c) r')
            (Stays-refl F R K t) (λ x u e n. e ∙ ap (λ v. v.stream) h.1))
