-- ===== src/Navigation/FindPath/Total.antt =====
-- The loop of findPath in Model/GraphNode.swift ends, on every finite graph.
use swe_capstone.Common.{
  ℕ, zero, suc, ◌≤◌, ◌<◌, ◌≡◌, refl, ◌∙◌, List, [], ◌∷◌, Option, none, some, ◌⊎◌, inl, inr, Has,
  All, All-append, All-join, Bool-cases, arith,
}
use swe_capstone.Navigation.Graph.{Graph, Step, node, first_step, next_step}
use swe_capstone.Navigation.FindPath.{contains, first_steps, expand, search, finish, find_path}
use swe_capstone.Navigation.FindPath.Walks.{IsLawful, IsEdge, spread, trace-spread}
use swe_capstone.Navigation.FindPath.Queue.{Round-All, node-set_previous}
use swe_capstone.Navigation.FindPath.Rounds.{
  subtracting_sound, expand_total, first_steps_total, next_nodes, search_found, search_next,
  find_path-search,
}
use swe_capstone.Navigation.FindPath.Progress.{
  stale, fresh, Round-stale, fresh_lt, fresh_le, stale_again, stale-cons,
}

-- What holds of each successor above `enough` holds of each number above `suc enough`.
with_fuel :
    (P : ℕ → Type 0) (fuel enough : ℕ)
    → suc enough ≤ fuel
    → ((f : ℕ) → enough ≤ f → P (suc f))
    → P fuel
with_fuel P zero enough le k = absurd (omega arith)
with_fuel P (suc f) enough le k = k f (omega arith)

module _ {N C : Type 0} (g : Graph N C) (law : IsLawful g) (goal : N) (nodes : List N)
    (closed : (n m : N) → Has nodes n → IsEdge g n m → Has nodes m) where
  abbrev AllInside : List (Step N C) → Type 0
  AllInside steps = All (λ s. Has nodes (node s)) steps

  -- From some amount of fuel on, the search ends with one result.
  abbrev Ends : List N → List (Step N C) → Type 0
  Ends eliminated steps =
      (enough : ℕ) × (result : Option (Step N C)) × ((fuel : ℕ)
        → enough ≤ fuel
        → search g fuel goal eliminated steps ≡ some result)

  -- Less is left to do.
  abbrev Nearer : List N → List (Step N C) → List N → List (Step N C) → Type 0
  Nearer eliminated' steps' eliminated steps =
      (fresh g nodes eliminated' < fresh g nodes eliminated)
      ⊎ ((fresh g nodes eliminated' ≤ fresh g nodes eliminated)
          × (stale g eliminated' steps' < stale g eliminated steps))

  expand-Inside :
      (step : Step N C) (eliminated : List N) (steps : List (Step N C))
      → AllInside (step ∷ steps)
      → (steps' : List (Step N C)) × (expand g goal step (next_nodes g step eliminated) steps
          ≡ some steps')
        × AllInside steps'
        × (stale g (node step ∷ eliminated) steps' ≡ stale g (node step ∷ eliminated) steps)
  unfolding next_step node
  expand-Inside step eliminated steps all =
      let (steps', r, p, q) =
        expand_total g law goal step
          (λ s.
            AllInside s
            × (stale g (node step ∷ eliminated) s ≡ stale g (node step ∷ eliminated) steps))
          (next_nodes g step eliminated) steps
          (λ n h s s' round p.
            let (e, new) = subtracting_sound g law _ _ n (law.arrange_sound _ n h) in
            (
              Round-All g law goal step n s (λ t. Has nodes (node t)) s' round
                  (closed (node step) n all.0 e) (λ found r i. rw (node-set_previous found step) i)
                  p.0,
              Round-stale g goal step n (node step ∷ eliminated) s s' new round ∙ p.1,
            ))
          (all.1, refl) in
      (steps', r, p.0, p.1)

  pop-Nearer :
      (step : Step N C) (eliminated : List N) (steps steps' : List (Step N C))
      → Has nodes (node step)
      → stale g (node step ∷ eliminated) steps' ≡ stale g (node step ∷ eliminated) steps
      → Nearer (node step ∷ eliminated) steps' eliminated (step ∷ steps)
  pop-Nearer step eliminated steps steps' inside same =
      elim (Bool-cases (contains g eliminated (node step))) [
        | inl again ↦ inr (
          fresh_le g (node step) nodes eliminated,
          omega (
            arith,
            stale_again g law (node step) eliminated steps again,
            stale-cons g step eliminated steps again,
          ),
        )
        | inr new ↦ inl (fresh_lt g law (node step) nodes eliminated inside new)
      ]

  pop-Ends :
      (step : Step N C) (eliminated : List N) (steps : List (Step N C))
      → AllInside (step ∷ steps)
      → ((eliminated' : List N) (steps' : List (Step N C))
          → AllInside steps'
          → Nearer eliminated' steps' eliminated (step ∷ steps)
          → Ends eliminated' steps')
      → Ends eliminated (step ∷ steps)
  pop-Ends step eliminated steps all rest = elim (Bool-cases (g.eq (node step) goal)) [
    | inl e ↦ (
      1,
      some step,
      λ fuel le.
          with_fuel (λ t. search g t goal eliminated (step ∷ steps) ≡ some (some step)) fuel 0 le
            (λ f _. search_found g f goal eliminated step steps e),
    )
    | inr e ↦
        let (steps', r, inside, same) = expand-Inside step eliminated steps all in
        let (enough, result, ends) =
          rest (node step ∷ eliminated) steps' inside
            (pop-Nearer step eliminated steps steps' all.0 same) in
        (
          suc enough,
          result,
          λ fuel le.
              with_fuel (λ t. search g t goal eliminated (step ∷ steps) ≡ some result) fuel enough
                le (λ f le'. search_next g f goal eliminated step steps steps' e r ∙ ends f le'),
        )
  ]

  search_empty : (eliminated : List N) → Ends eliminated []
  unfolding search
  search_empty eliminated = (
    1,
    none,
    λ fuel le. with_fuel (λ t. search g t goal eliminated [] ≡ some none) fuel 0 le (λ f _. refl),
  )

  search-Ends :
      (k e : ℕ) (eliminated : List N) (steps : List (Step N C))
      → fresh g nodes eliminated ≤ k
      → stale g eliminated steps ≤ e
      → AllInside steps
      → Ends eliminated steps
  search-Ends k e eliminated [] a b all = search_empty eliminated
  search-Ends zero zero eliminated (s ∷ steps) a b all =
      pop-Ends s eliminated steps all λ el st inside less. elim less [
        | inl fewer ↦ absurd (omega arith)
        | inr fewer ↦ absurd (omega arith)
      ]
  search-Ends zero (suc e) eliminated (s ∷ steps) a b all =
      pop-Ends s eliminated steps all λ el st inside less. elim less [
        | inl fewer ↦ absurd (omega arith)
        | inr fewer ↦ search-Ends zero e el st (omega arith) (omega arith) inside
      ]
  search-Ends (suc k) zero eliminated (s ∷ steps) a b all =
      pop-Ends s eliminated steps all λ el st inside less. elim less [
        | inl fewer ↦ search-Ends k (stale g el st) el st (omega arith) (omega arith) inside
        | inr fewer ↦ absurd (omega arith)
      ]
  search-Ends (suc k) (suc e) eliminated (s ∷ steps) a b all =
      pop-Ends s eliminated steps all λ el st inside less. elim less [
        | inl fewer ↦ search-Ends k (stale g el st) el st (omega arith) (omega arith) inside
        | inr fewer ↦ search-Ends (suc k) e el st (omega arith) (omega arith) inside
      ]

  first_steps-Inside :
      (start : N)
      → Has nodes start
      → (steps : List (Step N C)) × (first_steps g start goal (g.connected start) [] ≡ some steps)
        × AllInside steps
  unfolding first_step node
  first_steps-Inside start inside =
      let (steps, r, p, q) =
        first_steps_total g law start goal AllInside (g.connected start) []
          (λ n h front back all _.
            let (a, b) = All-append (λ s. Has nodes (node s)) front back all in
            All-join (λ s. Has nodes (node s)) front (first_step g start n goal ∷ back) a
              (closed start n inside h, b))
          tt in
      (steps, r, p)

  finish_total :
      (start : N) (found : Option (Step N C))
      → (path : List N) × (finish g (start ∷ []) found ≡ some path)
  unfolding finish
  finish_total start none = (start ∷ [], refl)
  finish_total start (some step) = (start ∷ spread step [], trace-spread g step start [])

  -- In a graph whose `==` tells nodes apart and whose sets are iterated in full, where the nodes that
  -- can be reached are among finitely many, findPath(to:) ends without a trap:
  -- from some amount of fuel on, its result is the same path.
  pub find_path_total :
      (start : N)
      → Has nodes start
      → (enough : ℕ) × (path : List N) × ((fuel : ℕ)
          → enough ≤ fuel
          → find_path g fuel start goal ≡ some path)
  find_path_total start inside =
      let (steps, r, all) = first_steps-Inside start inside in
      let (enough, result, ends) =
        search-Ends (fresh g nodes (start ∷ [])) (stale g (start ∷ []) steps) (start ∷ []) steps
          (omega arith) (omega arith) all in
      let (path, written) = finish_total start result in
      (
        enough,
        path,
        λ fuel le. find_path-search g fuel start goal steps r ∙ rw (ends fuel le) written,
      )
