-- ===== src/Navigation/FindPath/Queue.antt =====
-- The queue `possibleSteps` of findPath in Model/GraphNode.swift, in one round of the inner loop.
use swe_capstone.Common.{
  ℕ, zero, suc, ◌≡◌, refl, ap, subst, ◌∙◌, All, All-append, All-join, All-set, All-get, true, List,
  [], ◌∷◌, ◌++◌, Option, none, some, ◌⊎◌, inl, inr, get_elem?, set, Bool-cases,
}
use swe_capstone.Navigation.SortedArray.{sorted_insert}
use swe_capstone.Navigation.SortedArray.Search.{binary_search_total}
use swe_capstone.Navigation.SortedArray.Insert.{sorted_insert_total}
use swe_capstone.Navigation.Graph.{
  Graph, Step, first, after, node, step_cost, set_previous, next_step, step_eq, step_lt,
}
use swe_capstone.Navigation.FindPath.Walks.{IsLawful}
use swe_capstone.Navigation.FindPath.{insert_step, reroute, place, visit}

module _ {N C : Type 0} (g : Graph N C) (goal : N) (step : Step N C) (n : N)
    (steps : List (Step N C)) where
  -- The three ways of a round: insert the next step, leave the queue as it is, or make `step` the
  -- previous one of a queued step to the same node.
  pub data Round (steps' : List (Step N C)) : Type 0 where
    inserted :
        (front back : List (Step N C))
        → steps ≡ front ++ back
        → sorted_insert (next_step g n step goal) (step_lt g) steps
          ≡ some (front ++ (next_step g n step goal ∷ back))
        → steps' ≡ front ++ (next_step g n step goal ∷ back)
        → Round steps'
    kept :
        (i : ℕ) (found : Step N C)
        → get_elem? steps i ≡ some found
        → g.eq (node found) n ≡ true
        → steps' ≡ steps
        → Round steps'
    rerouted :
        (i : ℕ) (found : Step N C)
        → get_elem? steps i ≡ some found
        → g.eq (node found) n ≡ true
        → steps' ≡ set steps i (set_previous found step)
        → Round steps'

  insert_step-Round :
      (steps' : List (Step N C)) × (insert_step g (next_step g n step goal) steps ≡ some steps')
      × Round steps'
  unfolding insert_step
  insert_step-Round =
      let (front, back, w, r) = sorted_insert_total (next_step g n step goal) (step_lt g) steps in
      (front ++ (next_step g n step goal ∷ back), r, inserted front back w r refl)

  place-Round :
      (i : ℕ) (found : Option (Step N C))
      → get_elem? steps i ≡ found
      → (steps' : List (Step N C)) × (place g step (next_step g n step goal) i found steps
          ≡ some steps')
        × Round steps'
  unfolding place reroute step_eq next_step node
  place-Round i none e = insert_step-Round
  place-Round i (some found) e = elim (Bool-cases (g.eq (node found) n)) [
    | inr no_match ↦ let (steps', r, round) = insert_step-Round in (steps', rw no_match r, round)
    | inl same ↦ elim (Bool-cases (g.lt (step_cost (next_step g n step goal)) (step_cost found))) [
      | inl shorter ↦ (
        set steps i (set_previous found step),
        rw same (rw shorter),
        rerouted i found e same refl,
      )
      | inr longer ↦ (steps, rw same (rw longer), kept i found e same refl)
    ]
  ]

  -- A round does not trap, and goes one of the three ways.
  pub visit-Round :
      (steps' : List (Step N C)) × (visit g goal step n steps ≡ some steps') × Round steps'
  unfolding visit
  visit-Round =
      let (i, e, le) = binary_search_total (λ x. step_lt g x (next_step g n step goal)) steps in
      let (steps', r, round) = place-Round i (get_elem? steps i) refl in (steps', rw e r, round)

-- A queued step to the node `m`.
abbrev pub Queued : {N C : Type 0} → List (Step N C) → N → Type 0
Queued [] m = ⊥
Queued (s ∷ steps) m = (node s ≡ m) ⊎ Queued steps m

pub Queued-append_right :
    {N C : Type 0} (xs ys : List (Step N C)) (m : N) → Queued ys m → Queued (xs ++ ys) m
Queued-append_right [] ys m h = h
Queued-append_right (x ∷ xs) ys m h = inr (Queued-append_right xs ys m h)

pub Queued-between :
    {N C : Type 0} (xs ys : List (Step N C)) (s : Step N C) (m : N)
    → Queued (xs ++ ys) m
    → Queued (xs ++ (s ∷ ys)) m
Queued-between [] ys s m h = inr h
Queued-between (x ∷ xs) ys s m (inl e) = inl e
Queued-between (x ∷ xs) ys s m (inr h) = inr (Queued-between xs ys s m h)

pub node-set_previous :
    {N C : Type 0} (found step : Step N C) → node (set_previous found step) ≡ node found
unfolding node set_previous
node-set_previous (first n s h) step = refl
node-set_previous (after n p s h) step = refl

Queued-set :
    {N C : Type 0} (xs : List (Step N C)) (i : ℕ) {found : Step N C} (step : Step N C) (m : N)
    → get_elem? xs i ≡ some found
    → Queued xs m
    → Queued (set xs i (set_previous found step)) m
Queued-set [] i step m e h = absurd h
Queued-set (x ∷ xs) zero {found} step m e (inl r) =
    let same : x ≡ found = cc in inl (node-set_previous found step ∙ subst (λ t. node t ≡ m) same r)
Queued-set (x ∷ xs) zero step m e (inr h) = inr h
Queued-set (x ∷ xs) (suc i) step m e (inl r) = inl r
Queued-set (x ∷ xs) (suc i) step m e (inr h) = inr (Queued-set xs i step m e h)

Queued-get :
    {N C : Type 0} (xs : List (Step N C)) (i : ℕ) {found : Step N C}
    → get_elem? xs i ≡ some found
    → Queued xs (node found)
Queued-get [] i e = cc
Queued-get (x ∷ xs) zero {found} e = let same : x ≡ found = cc in inl (ap node same)
Queued-get (x ∷ xs) (suc i) e = inr (Queued-get xs i e)

module _ {N C : Type 0} (g : Graph N C) (law : IsLawful g) (goal : N) (step : Step N C) (n : N)
    (steps : List (Step N C)) where
  -- What holds of the steps of the queue still does.
  pub Round-All :
      (P : Step N C → Type 0) (steps' : List (Step N C))
      → Round g goal step n steps steps'
      → P (next_step g n step goal)
      → ((found : Step N C) → node found ≡ n → P found → P (set_previous found step))
      → All P steps
      → All P steps'
  Round-All P steps' (inserted front back w r e) new old h =
      let (a, b) = All-append P front back (subst (All P) w h) in
      rw e (All-join P front (next_step g n step goal ∷ back) a (new, b))
  Round-All P steps' (kept i found at same e) new old h = rw e h
  Round-All P steps' (rerouted i found at same e) new old h = rw e (
      All-set P steps i (set_previous found step) h
        (old found (law.eq_sound _ _ same) (All-get P steps i h at)))

  -- No node leaves the queue, and the node of the round is in it.
  pub Round-Queued :
      (steps' : List (Step N C))
      → Round g goal step n steps steps'
      → (m : N) → Queued steps m
      → Queued steps' m
  Round-Queued steps' (inserted front back w r e) m q =
      rw e (Queued-between front back _ m (subst (λ t. Queued t m) w q))
  Round-Queued steps' (kept i found at same e) m q = rw e q
  Round-Queued steps' (rerouted i found at same e) m q = rw e (Queued-set steps i step m at q)

  pub Round-self : (steps' : List (Step N C)) → Round g goal step n steps steps' → Queued steps' n
  unfolding next_step node
  Round-self steps' (inserted front back w r e) = rw e (Queued-append_right front _ n (inl refl))
  Round-self steps' (kept i found at same e) =
      rw e (subst (Queued steps) (law.eq_sound _ _ same) (Queued-get steps i at))
  Round-self steps' (rerouted i found at same e) = rw e (
      Queued-set steps i step n at
        (subst (Queued steps) (law.eq_sound _ _ same) (Queued-get steps i at)))
