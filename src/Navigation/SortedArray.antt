-- ===== src/Navigation/SortedArray.antt =====
-- Support/Extensions/Array+Extension.swift: binary search, and insertion into a sorted array.
pub mod Search
pub mod Insert
use swe_capstone.Common.{
  ℕ, zero, suc, ◌+◌, ◌-◌, ◌/◌, Bool, true, false, List, [], ◌∷◌, Option, none, some, ◌==◌, length,
  get_elem?, if◌then◌else◌,
}

-- `none` is a trap of Swift, such as an index out of bounds.
infixl 5 ◌>>=◌
abbrev pub ◌>>=◌ {ℓ κ} : {A : Type ℓ} {B : Type κ} → Option A → (A → Option B) → Option B
none >>= f = none
some a >>= f = f a

-- One way through `if predicate(self[mid])`: the next `low` and `high`.
abbrev pub narrow : ℕ → ℕ → ℕ → Bool → ℕ × ℕ
narrow low high mid true = (mid + 1, high)
narrow low high mid false = (low, mid)

module _ {A : Type 0} where
  -- `while low != high { … }`, with fuel. `low.advanced(by: low.distance(to: high) / 2)` is the
  -- middle, since `low` never passes `high`.
  unfoldable pub search_loop : (A → Bool) → List A → ℕ → ℕ → ℕ → Option ℕ
  search_loop predicate array zero low high = if low == high then some low else none
  search_loop predicate array (suc fuel) low high = elim (low == high) [
    | true ↦ some low
    | false ↦
        let mid = low + (high - low) / 2 in
        elim (get_elem? array mid) [
          | none ↦ none
          | some element ↦
              let (low', high') = narrow low high mid (predicate element) in
              search_loop predicate array fuel low' high'
        ]
  ]

  -- binarySearch(predicate:). The range shrinks in each round, so its length is fuel enough.
  unfoldable pub binary_search : (A → Bool) → List A → Option ℕ
  binary_search predicate array = search_loop predicate array (length array) 0 (length array)

  -- Array.insert(_:at:)
  unfoldable pub insert_at : A → ℕ → List A → Option (List A)
  insert_at element zero array = some (element ∷ array)
  insert_at element (suc i) [] = none
  insert_at element (suc i) (x ∷ array) = elim (insert_at element i array) [
    | none ↦ none
    | some array' ↦ some (x ∷ array')
  ]

  -- sortedInsert(element:predicate:)
  unfoldable pub sorted_insert : A → (A → A → Bool) → List A → Option (List A)
  sorted_insert element predicate array =
      binary_search (λ x. predicate x element) array >>= λ i. insert_at element i array
