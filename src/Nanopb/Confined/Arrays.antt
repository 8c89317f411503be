-- ===== src/Nanopb/Confined/Arrays.antt =====
-- The items of an array stay in the array, packed or one by one.
use swe_capstone.Common.{
  ℕ, zero, suc, ◌+◌, ◌*◌, ◌%◌, ◌^◌, ◌≤◌, ◌<◌, ◌≡◌, ap, ◌∙◌, Bool-cases, inl, inr, ltb, ltb→lt, ◌==◌,
  arith,
}
use swe_capstone.Nanopb.Stream.{array_overflow, Action, ◌>>=◌, ◌>>◌}
use swe_capstone.Nanopb.Field.{FieldIter, current}
use swe_capstone.Nanopb.DecodeState.{Decoding, get, put}
use swe_capstone.Nanopb.DecodeField.{Decoder, packed_loop, packed_end, packed_field, repeated_item}
use swe_capstone.Nanopb.Confined.{
  Constants, Covers, IsReady, Confined, Anyhow, Stays-refl, Confined-then, Confined-weaken,
  dec_error-Confined,
}
use swe_capstone.Nanopb.Confined.Bytes.{StreamKept, put-Confined, get-Confined}
use swe_capstone.Nanopb.Confined.Values.{TakesByte}
use swe_capstone.Nanopb.Confined.Substreams.{on_sub, close_with-Confined, substream-Confined}

module _ {S : Type 0} (F : Type 0) (R : ℕ → Type 0) (K : Constants) (func : Decoder S)
    (iter : FieldIter) (counts : Covers R iter.p_size 4) where
  abbrev item_address : ℕ → ℕ
  item_address k = iter.p_data + (current iter).data_size * k % 2 ^ 32

  -- `(*size)++`
  increment-Confined :
      (s : Decoding S)
      → IsReady F R K s
      → Confined F R K
          (StreamKept F R K s)
          s
          ((get 4 iter.p_size >>= λ size. put 4 iter.p_size (size + 1)) s)
  increment-Confined s r =
      Confined-then F R K (λ v t. t ≡ s) (StreamKept F R K s) s _ _
        (get-Confined F R K 4 iter.p_size s counts r)
        (λ size t e r' m.
          Confined-weaken F R K (StreamKept F R K t) (StreamKept F R K s) t t _
            (put-Confined F R K 4 iter.p_size (size + 1) t counts r') (Stays-refl F R K t)
            (λ x u e' n. e' ∙ ap (λ v. v.stream) e))

  module _
      (item : (k : ℕ) (s : Decoding S)
        → k < (current iter).array_size
        → IsReady F R K s
        → Confined F R K (TakesByte F R K s) s (func (current iter) (item_address k) s)) where
    -- An item, its count, and what comes after it with fewer bytes left.
    round-Confined :
        (size : ℕ) (s : Decoding S) (rest : Action (Decoding S) (Unit {0}))
        → size < (current iter).array_size
        → IsReady F R K s
        → ((t : Decoding S)
            → t.stream.bytes_left < s.stream.bytes_left
            → IsReady F R K t
            → Confined F R K (Anyhow F R K) t (rest t))
        → Confined F R K (Anyhow F R K) s (
            (func (current iter) (item_address size)
                >> (get 4 iter.p_size >>= λ size'. put 4 iter.p_size (size' + 1))
                >> rest)
              s)
    round-Confined size s rest room r k =
        Confined-then F R K (TakesByte F R K s) (Anyhow F R K) s _ _
          (Confined-then F R K (TakesByte F R K s) (TakesByte F R K s) s _ _ (item size s room r)
            (λ x t less r' m.
              Confined-weaken F R K (StreamKept F R K t) (TakesByte F R K s) t t _
                (increment-Confined t r') (Stays-refl F R K t)
                (λ y u e n. omega (arith, n.moved.fewer))))
          (λ x t less r' m. k t less r')

    -- Each round takes a byte of the substream, or ends.
    packed_loop-Confined :
        (rounds : ℕ) (s : Decoding S)
        → s.stream.bytes_left < rounds
        → IsReady F R K s
        → Confined F R K (Anyhow F R K) s (packed_loop func rounds iter s)
    unfolding packed_loop
    packed_loop-Confined zero s lt r = absurd (omega arith)
    packed_loop-Confined (suc rounds) s lt r = elim (Bool-cases (s.stream.bytes_left == 0)) [
      | inl e ↦ rw (e, packed_loop) (tt, r, Stays-refl F R K s)
      | inr e ↦
          rw (e, packed_loop)
            (Confined-then F R K (λ v t. t ≡ s) (Anyhow F R K) s _ _
              (get-Confined F R K 4 iter.p_size s counts r)
              (λ size t same r' m. elim (Bool-cases (ltb size (current iter).array_size)) [
                | inr full ↦ rw full (tt, r', Stays-refl F R K t)
                | inl room ↦ rw room (
                    round-Confined size t (packed_loop func rounds iter) (ltb→lt _ _ room) r'
                      (λ u less r''.
                        packed_loop-Confined rounds u (omega (arith, less, m.moved.fewer)) r''))
              ]))
    ]

    -- A packed array, with its own limit.
    pub packed_field-Confined :
        (s : Decoding S)
        → IsReady F R K s
        → Confined F R K (Anyhow F R K) s (packed_field func iter s)
    unfolding packed_field packed_end
    packed_field-Confined s r =
        substream-Confined F R K (λ sub. packed_loop func (sub.bytes_left + 1) iter) packed_end s r
          (λ sub t r' less.
            packed_loop-Confined (sub.bytes_left + 1) (on_sub F R K sub t) (omega arith) r')
          (λ status sub sub' u o a. elim (Bool-cases (sub'.bytes_left == 0)) [
            | inl e ↦ rw e (close_with-Confined F R K status s u sub sub' r o a)
            | inr e ↦ rw e (
                Confined-weaken F R K (Anyhow F R K) (Anyhow F R K) s u _
                  (dec_error-Confined F R K (Anyhow F R K) array_overflow u o.ready) o.stays
                  (λ x v p m. tt))
          ])

  -- One more item.
  pub repeated_item-Confined :
      (s : Decoding S)
      → ((k : ℕ) (t : Decoding S)
          → k < (current iter).array_size
          → t.stream.bytes_left ≤ s.stream.bytes_left
          → IsReady F R K t
          → Confined F R K (Anyhow F R K) t (func (current iter) (item_address k) t))
      → IsReady F R K s
      → Confined F R K (Anyhow F R K) s (repeated_item func iter s)
  unfolding repeated_item
  repeated_item-Confined s item r =
      Confined-then F R K (λ v t. t ≡ s) (Anyhow F R K) s _ _
        (get-Confined F R K 4 iter.p_size s counts r)
        (λ size t e r' m. elim (Bool-cases (ltb size (current iter).array_size)) [
          | inr full ↦ rw full (dec_error-Confined F R K (Anyhow F R K) array_overflow t r')
          | inl room ↦ rw room (
              Confined-then F R K (StreamKept F R K t) (Anyhow F R K) t _ _
                (put-Confined F R K 4 iter.p_size (size + 1) t counts r')
                (λ x u e' r'' n.
                  item size u (ltb→lt _ _ room) (omega (arith, m.moved.fewer, n.moved.fewer)) r''))
        ])
