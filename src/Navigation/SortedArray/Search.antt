-- ===== src/Navigation/SortedArray/Search.antt =====
-- binarySearch of Array+Extension.swift finds the index that its comment promises.
use swe_capstone.Common.{
  ℕ, zero, suc, ◌+◌, ◌-◌, ◌/◌, ◌≤◌, ◌<◌, ◌≡◌, refl, Bool, true, false, List, [], ◌∷◌, ◌++◌, some,
  ◌==◌, ltb, ltb→lt, ltb→le, length, get_elem?, All, arith, length-append, Bool-cases, inl, inr,
}
use swe_capstone.Navigation.SortedArray.{search_loop, binary_search}

module _ {A : Type 0} (p : A → Bool) where
  -- What the array holds at an index: an element on which the predicate is true before the split.
  get_before :
      (front back : List A) (i : ℕ)
      → All (λ x. p x ≡ true) front
      → i < length front
      → (x : A) × (get_elem? (front ++ back) i ≡ some x) × (p x ≡ true)
  get_before [] back i h lt = absurd (omega arith)
  get_before (x ∷ front) back zero h lt = (x, refl, h.0)
  get_before (x ∷ front) back (suc i) h lt = get_before front back i h.1 (omega arith)

  get_in :
      (back : List A) (i : ℕ)
      → All (λ x. p x ≡ false) back
      → i < length back
      → (x : A) × (get_elem? back i ≡ some x) × (p x ≡ false)
  get_in [] i h lt = absurd (omega arith)
  get_in (x ∷ back) zero h lt = (x, refl, h.0)
  get_in (x ∷ back) (suc i) h lt = get_in back i h.1 (omega arith)

  get_behind :
      (front back : List A) (i : ℕ)
      → All (λ x. p x ≡ false) back
      → length front ≤ i
      → i < length front + length back
      → (x : A) × (get_elem? (front ++ back) i ≡ some x) × (p x ≡ false)
  get_behind [] back i h le lt = get_in back i h (omega arith)
  get_behind (x ∷ front) back zero h le lt = absurd (omega arith)
  get_behind (x ∷ front) back (suc i) h le lt =
      get_behind front back i h (omega arith) (omega arith)

module _ {A : Type 0} (p : A → Bool) (front back : List A) (yes_front : All (λ x. p x ≡ true) front)
    (no_back : All (λ x. p x ≡ false) back) where
  search_loop_lem :
      (fuel low high : ℕ)
      → low ≤ length front
      → length front ≤ high
      → high ≤ length front + length back
      → high ≤ low + fuel
      → search_loop p (front ++ back) fuel low high ≡ some (length front)
  unfolding search_loop
  search_loop_lem zero low high a b c d = ground arith
  search_loop_lem (suc fuel) low high a b c d = elim (Bool-cases (low == high)) [
    | inl e ↦ rw (e, search_loop) (ground arith)
    | inr e ↦
        let mid = low + (high - low) / 2 in
        elim (Bool-cases (ltb mid (length front))) [
          | inl before ↦
              let (x, g, q) = get_before p front back mid yes_front (ltb→lt _ _ before) in
              rw (e, search_loop)
                (rw g (
                  rw q (
                    search_loop_lem fuel (mid + 1) high
                      (omega (arith, ltb→lt mid (length front) before)) b c (omega arith))))
          | inr behind ↦
              let (x, g, q) =
                get_behind p front back mid no_back (ltb→le _ _ behind) (ground arith) in
              rw (e, search_loop)
                (rw g (
                  rw q (
                    search_loop_lem fuel low mid a (ltb→le _ _ behind) (ground arith)
                      (ground arith))))
        ]
  ]

  -- Where the predicate is true on a front part of the array and false on the rest,
  -- binarySearch(predicate:) returns the index at which the rest begins, and does not trap.
  pub binary_search-append : binary_search p (front ++ back) ≡ some (length front)
  unfolding binary_search
  binary_search-append =
      let size = length-append front back in
      search_loop_lem (length (front ++ back)) 0 (length (front ++ back)) (omega arith)
        (omega (arith, size)) (omega (arith, size)) (omega arith)

module _ {A : Type 0} (p : A → Bool) (array : List A) where
  get_inside : (xs : List A) (i : ℕ) → i < length xs → (x : A) × (get_elem? xs i ≡ some x)
  get_inside [] i lt = absurd (omega arith)
  get_inside (x ∷ xs) zero lt = (x, refl)
  get_inside (x ∷ xs) (suc i) lt = get_inside xs i (omega arith)

  search_loop_bounds :
      (fuel low high : ℕ)
      → low ≤ high
      → high ≤ length array
      → high ≤ low + fuel
      → (k : ℕ) × (search_loop p array fuel low high ≡ some k) × (k ≤ length array)
  unfolding search_loop
  search_loop_bounds zero low high a b c = (low, ground arith, omega arith)
  search_loop_bounds (suc fuel) low high a b c = elim (Bool-cases (low == high)) [
    | inl e ↦ (low, rw (e, search_loop), omega arith)
    | inr e ↦
        let mid = low + (high - low) / 2 in
        let inside : mid < high = ground arith in
        let (x, g) = get_inside array mid (omega arith) in
        elim (Bool-cases (p x)) [
          | inl q ↦
              let (k, r, le) =
                search_loop_bounds fuel (mid + 1) high (omega arith) b (omega arith) in
              (k, rw (e, search_loop) (rw g (rw q r)), le)
          | inr q ↦
              let (k, r, le) =
                search_loop_bounds fuel low mid (omega arith) (omega arith) (omega arith) in
              (k, rw (e, search_loop) (rw g (rw q r)), le)
        ]
  ]

  -- On every array and for every predicate, partitioned or not, the search ends without a trap, at
  -- an index at which an element can be inserted.
  pub binary_search_total : (k : ℕ) × (binary_search p array ≡ some k) × (k ≤ length array)
  unfolding binary_search
  binary_search_total =
      search_loop_bounds (length array) 0 (length array) (omega arith) (omega arith) (omega arith)
