-- ===== src/Navigation/FindPath/Sound.antt =====
-- What findPath of Model/GraphNode.swift returns is a walk in the graph, and does not trap.
use swe_capstone.Common.{
  ℕ, zero, suc, ◌≡◌, refl, sym, subst, ◌∙◌, List, [], ◌∷◌, none, some, ◌⊎◌, inl, inr, Has, All,
  All-append, All-join, Bool-cases, Option-cases,
}
use swe_capstone.Navigation.SortedArray.{◌>>=◌}
use swe_capstone.Navigation.Graph.{
  Graph, Step, first, after, node, first_step, next_step, set_previous,
}
use swe_capstone.Navigation.FindPath.{first_steps, expand, search, finish, find_path}
use swe_capstone.Navigation.FindPath.Walks.{IsLawful, IsEdge, IsWalk, IsChain, last, trace-IsWalk}
use swe_capstone.Navigation.FindPath.Queue.{Round-All, Queued}
use swe_capstone.Navigation.FindPath.Rounds.{
  subtracting_sound, expand_total, first_steps_total, next_nodes, search_found, search_next,
  find_path-search,
}

module _ {N C : Type 0} (g : Graph N C) (law : IsLawful g) (start goal : N) where
  abbrev pub AllChains : List (Step N C) → Type 0
  AllChains steps = All (IsChain g start) steps

  next_step-IsChain :
      (n : N) (step : Step N C)
      → IsEdge g (node step) n
      → IsChain g start step
      → IsChain g start (next_step g n step goal)
  unfolding next_step
  next_step-IsChain n step e c = (e, c)

  set_previous-IsChain :
      (n : N) (step found : Step N C)
      → IsEdge g (node step) n
      → IsChain g start step
      → node found ≡ n
      → IsChain g start (set_previous found step)
  unfolding set_previous node
  set_previous-IsChain n step (first m s h) e c r = (subst (IsEdge g (node step)) (sym r) e, c)
  set_previous-IsChain n step (after m p s h) e c r = (subst (IsEdge g (node step)) (sym r) e, c)

  pub next_nodes_sound :
      (step : Step N C) (eliminated : List N) (n : N)
      → Has (next_nodes g step eliminated) n
      → IsEdge g (node step) n
  next_nodes_sound step eliminated n h = (subtracting_sound g law _ _ n (law.arrange_sound _ n h)).0

  -- Expanding a chained step in a queue of chained steps does not trap and leaves such a queue.
  pub expand-IsChain :
      (step : Step N C) (eliminated : List N) (steps : List (Step N C))
      → IsChain g start step
      → AllChains steps
      → (steps' : List (Step N C)) × (expand g goal step (next_nodes g step eliminated) steps
          ≡ some steps')
        × AllChains steps'
  expand-IsChain step eliminated steps c all =
      let (steps', r, p, q) =
        expand_total g law goal step AllChains (next_nodes g step eliminated) steps
          (λ n h s s' round.
            let e = next_nodes_sound step eliminated n h in
            Round-All g law goal step n s (IsChain g start) s' round (next_step-IsChain n step e c)
              (λ found r _. set_previous-IsChain n step found e c r))
          all in
      (steps', r, p)

  pub first_steps-IsChain :
      (steps : List (Step N C)) × (first_steps g start goal (g.connected start) [] ≡ some steps)
      × AllChains steps
      × ((m : N) → IsEdge g start m → Queued steps m)
  unfolding first_step
  first_steps-IsChain =
      let (steps, r, p, q) =
        first_steps_total g law start goal AllChains (g.connected start) []
          (λ n h front back all _.
            let (a, b) = All-append (IsChain g start) front back all in
            All-join (IsChain g start) front (first_step g start n goal ∷ back) a (h, b))
          tt in
      (steps, r, p, λ m h. q m (inr h))

  search-IsChain :
      (fuel : ℕ) (eliminated : List N) (steps : List (Step N C)) (step : Step N C)
      → AllChains steps
      → search g fuel goal eliminated steps ≡ some (some step)
      → IsChain g start step × (node step ≡ goal)
  unfolding search
  search-IsChain zero eliminated steps step all h = cc
  search-IsChain (suc fuel) eliminated [] step all h = cc
  search-IsChain (suc fuel) eliminated (s ∷ steps) step all h =
      elim (Bool-cases (g.eq (node s) goal)) [
        | inl e ↦
            let same : s ≡ step = cc (search_found g fuel goal eliminated s steps e) in
            subst (λ t. IsChain g start t × (node t ≡ goal)) same (all.0, law.eq_sound _ _ e)
        | inr e ↦
            let (steps', r, p) = expand-IsChain s eliminated steps all.0 all.1 in
            search-IsChain fuel (node s ∷ eliminated) steps' step p
              (sym (search_next g fuel goal eliminated s steps steps' e r) ∙ h)
      ]

  -- The path that is written for the outcome of the search.
  pub find_path_outcome :
      (fuel : ℕ) (path : List N) (steps : List (Step N C))
      → first_steps g start goal (g.connected start) [] ≡ some steps
      → AllChains steps
      → find_path g fuel start goal ≡ some path
      → (rest : List N) × (path ≡ start ∷ rest)
        × IsWalk g start rest
        × (((rest ≡ []) × (search g fuel goal (start ∷ []) steps ≡ some none))
            ⊎ (last start rest ≡ goal))
  unfolding finish
  find_path_outcome fuel path steps r all h =
      let run : (search g fuel goal (start ∷ []) steps >>= finish g (start ∷ [])) ≡ some path =
        sym (find_path-search g fuel start goal steps r) ∙ h in
      elim (Option-cases (search g fuel goal (start ∷ []) steps)) [
        | inl e ↦ cc
        | inr (none, e) ↦ ([], cc, tt, inl (refl, e))
        | inr (some step, e) ↦
            let (chain, at_goal) = search-IsChain fuel (start ∷ []) steps step all e in
            let (rest, t, walk, end) = trace-IsWalk g step start chain in
            (rest, cc, walk, inr (end ∙ at_goal))
      ]

  -- In a graph whose `==` tells nodes apart and whose sets are iterated in full, whatever findPath(to:) returns begins with the start
  -- node and follows edges of the graph; it is the start alone, or it ends at the goal.
  pub find_path-IsWalk :
      (fuel : ℕ) (path : List N)
      → find_path g fuel start goal ≡ some path
      → (rest : List N) × (path ≡ start ∷ rest)
        × IsWalk g start rest
        × ((rest ≡ []) ⊎ (last start rest ≡ goal))
  find_path-IsWalk fuel path h =
      let (steps, r, all, q) = first_steps-IsChain in
      let (rest, e, walk, way) = find_path_outcome fuel path steps r all h in
      (rest, e, walk, elim way [ inl (alone, none_left) ↦ inl alone | inr end ↦ inr end ])
