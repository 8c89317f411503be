-- ===== src/Navigation/SortedArray/Insert.antt =====
-- sortedInsert of Array+Extension.swift keeps an array sorted and adds just the new element.
use swe_capstone.Common.{
  ℕ, zero, suc, ◌≤◌, ◌≡◌, refl, ap, subst, Bool, true, false, List, [], ◌∷◌, ◌++◌, some, length,
  All, All-append, All-join, All-map, arith, Bool-cases, inl, inr,
}
use swe_capstone.Navigation.SortedArray.{insert_at, sorted_insert}
use swe_capstone.Navigation.SortedArray.Search.{binary_search-append, binary_search_total}

-- What an order has to be for sorting, as a test `lt` for "comes before".
pub record IsWeakOrder {A : Type 0} (lt : A → A → Bool) : Type 0 where
  pub asymmetric : (x y : A) → lt x y ≡ true → lt y x ≡ false
  pub negative_trans : (x y z : A) → lt x y ≡ false → lt y z ≡ false → lt x z ≡ false

module _ {A : Type 0} (lt : A → A → Bool) where
  -- No element comes before one that stands ahead of it.
  abbrev pub IsSorted : List A → Type 0
  IsSorted [] = Unit {0}
  IsSorted (x ∷ xs) = All (λ y. lt y x ≡ false) xs × IsSorted xs

insert_at-append :
    {A : Type 0} (x : A) (front back : List A)
    → insert_at x (length front) (front ++ back) ≡ some (front ++ (x ∷ back))
unfolding insert_at
insert_at-append x [] back = refl
insert_at-append x (y ∷ front) back = rw (insert_at-append x front back)

module _ {A : Type 0} (lt : A → A → Bool) (order : IsWeakOrder lt) (x : A) where
  -- A sorted array splits at `x`.
  record Split (xs : List A) : Type 0 where
    front : List A
    back : List A
    whole : xs ≡ front ++ back
    before : All (λ y. lt y x ≡ true) front
    behind : All (λ y. lt y x ≡ false) back

  sorted-Split : (xs : List A) → IsSorted lt xs → Split xs
  sorted-Split [] h = record { front = []; back = []; whole = refl; before = tt; behind = tt }
  sorted-Split (y ∷ xs) h = elim (Bool-cases (lt y x)) [
    | inl e ↦
        let s = sorted-Split xs h.1 in
        record {
          front = y ∷ s.front;
          back = s.back;
          whole = ap (λ t. y ∷ t) s.whole;
          before = (e, s.before);
          behind = s.behind;
        }
    | inr e ↦ record {
      front = [];
      back = y ∷ xs;
      whole = refl;
      before = tt;
      behind = (e, All-map _ _ xs (λ z q. order.negative_trans z y x q e) h.0);
    }
  ]

  insert_between :
      (front back : List A)
      → IsSorted lt (front ++ back)
      → All (λ y. lt y x ≡ true) front
      → All (λ y. lt y x ≡ false) back
      → IsSorted lt (front ++ (x ∷ back))
  insert_between [] back h f b = (b, h)
  insert_between (y ∷ front) back h f b =
      let (p, q) = All-append (λ z. lt z y ≡ false) front back h.0 in
      (
        All-join (λ z. lt z y ≡ false) front (x ∷ back) p (order.asymmetric y x f.0, q),
        insert_between front back h.1 f.1 b,
      )

  -- On an array that is sorted by a weak order, sortedInsert(element:predicate:) with that order
  -- does not trap: it puts the element between two parts of the array, and the result is sorted.
  pub sorted_insert-IsSorted :
      (xs : List A)
      → IsSorted lt xs
      → (front back : List A) × (xs ≡ front ++ back)
        × (sorted_insert x lt xs ≡ some (front ++ (x ∷ back)))
        × IsSorted lt (front ++ (x ∷ back))
  unfolding sorted_insert
  sorted_insert-IsSorted xs h =
      let s = sorted-Split xs h in
      let sorted : IsSorted lt (s.front ++ s.back) = subst (IsSorted lt) s.whole h in
      (
        s.front,
        s.back,
        s.whole,
        rw (s.whole, binary_search-append (λ y. lt y x) s.front s.back s.before s.behind)
            (insert_at-append x s.front s.back),
        insert_between s.front s.back sorted s.before s.behind,
      )

-- Without any order the element still goes in somewhere.
insert_at_total :
    {A : Type 0} (x : A) (k : ℕ) (xs : List A)
    → k ≤ length xs
    → (front back : List A) × (xs ≡ front ++ back) × (insert_at x k xs ≡ some (front ++ (x ∷ back)))
unfolding insert_at
insert_at_total x zero xs le = ([], xs, refl, refl)
insert_at_total x (suc k) [] le = absurd (omega arith)
insert_at_total x (suc k) (y ∷ xs) le =
    let (front, back, e, r) = insert_at_total x k xs (omega arith) in
    (y ∷ front, back, ap (λ t. y ∷ t) e, rw r)

-- On every array and for every predicate sortedInsert(element:predicate:) does not trap, and adds
-- the element to the array at one place.
pub sorted_insert_total :
    {A : Type 0} (x : A) (lt : A → A → Bool) (xs : List A)
    → (front back : List A) × (xs ≡ front ++ back)
      × (sorted_insert x lt xs ≡ some (front ++ (x ∷ back)))
unfolding sorted_insert
sorted_insert_total x lt xs =
    let (k, e, le) = binary_search_total (λ y. lt y x) xs in
    let (front, back, w, r) = insert_at_total x k xs le in (front, back, w, rw e r)
