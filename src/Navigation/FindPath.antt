-- ===== src/Navigation/FindPath.antt =====
-- findPath(to:) of Model/GraphNode.swift.
pub mod Walks
pub mod Queue
pub mod Rounds
pub mod Sound
pub mod Progress
pub mod Total
pub mod Reaches
pub mod Order
use swe_capstone.Common.{
  ℕ, zero, suc, Bool, true, false, ◌||◌, ◌&&◌, List, [], ◌∷◌, Option, none, some, ltb, length,
  get_elem?, set, if◌then◌else◌,
}
use swe_capstone.Navigation.SortedArray.{◌>>=◌, binary_search, sorted_insert, insert_at}
use swe_capstone.Navigation.Graph.{
  Graph, Step, first, after, node, step_cost, set_previous, first_step, next_step, step_eq, step_lt,
}

module _ {N C : Type 0} (g : Graph N C) where
  -- `set.contains(n)` of a Set, by `==`.
  unfoldable pub contains : List N → N → Bool
  contains [] n = false
  contains (x ∷ xs) n = g.eq x n || contains xs n

  -- `connectedNodes.subtracting(eliminatedNodes)`
  unfoldable pub subtracting : List N → List N → List N
  subtracting [] eliminated = []
  subtracting (x ∷ xs) eliminated =
      if contains eliminated x then subtracting xs eliminated else x ∷ subtracting xs eliminated

  -- sortedInsert(newElement:) of an Array of steps.
  unfoldable pub insert_step : Step N C → List (Step N C) → Option (List (Step N C))
  insert_step step steps = sorted_insert step (step_lt g) steps

  -- `for connectedNode in connectedNodes { … }`
  unfoldable pub first_steps : N → N → List N → List (Step N C) → Option (List (Step N C))
  first_steps start goal [] steps = some steps
  first_steps start goal (n ∷ nodes) steps =
      insert_step (first_step g start n goal) steps >>= first_steps start goal nodes

  -- `possibleSteps[index]` is a step to the same node, and gets `step` as its previous one if that
  -- is the shorter way.
  unfoldable pub reroute : Step N C → Step N C → ℕ → Step N C → List (Step N C) → List (Step N C)
  reroute step next index found steps =
      if g.lt (step_cost next) (step_cost found)
      then set steps index (set_previous found step)
      else steps

  -- The branch on `index < possibleSteps.count && possibleSteps[index] == nextStep`.
  unfoldable pub place :
      Step N C → Step N C → ℕ → Option (Step N C) → List (Step N C) → Option (List (Step N C))
  place step next index none steps = insert_step next steps
  place step next index (some found) steps =
      if step_eq g found next
      then some (reroute step next index found steps)
      else insert_step next steps

  -- One round of `for node in nextNodes`.
  unfoldable pub visit : N → Step N C → N → List (Step N C) → Option (List (Step N C))
  unfolding place
  visit goal step n steps =
      let next = next_step g n step goal in
      binary_search (λ x. step_lt g x next) steps >>= λ index.
      place step next index (get_elem? steps index) steps

  unfoldable pub expand : N → Step N C → List N → List (Step N C) → Option (List (Step N C))
  expand goal step [] steps = some steps
  expand goal step (n ∷ nodes) steps = visit goal step n steps >>= expand goal step nodes

  -- `while !possibleSteps.isEmpty { … }`: the step that reached the goal, or `none` where the
  -- steps ran out. An outer `none` is a trap, or the end of the fuel.
  unfoldable pub search : ℕ → N → List N → List (Step N C) → Option (Option (Step N C))
  search zero goal eliminated steps = none
  search (suc fuel) goal eliminated [] = some none
  search (suc fuel) goal eliminated (step ∷ steps) = elim (g.eq (node step) goal) [
    | true ↦ some (some step)
    | false ↦
        let eliminated' = node step ∷ eliminated in
        let next_nodes = g.arrange (subtracting (g.connected (node step)) eliminated') in
        expand goal step next_nodes steps >>= search fuel goal eliminated'
  ]

  -- `path.insert(step.node, at: 1)` for the step and each one before it.
  unfoldable pub trace : Step N C → List N → Option (List N)
  trace (first n s h) path = insert_at n 1 path
  trace (after n previous s h) path = insert_at n 1 path >>= trace previous

  unfoldable pub finish : List N → Option (Step N C) → Option (List N)
  finish path none = some path
  finish path (some step) = trace step path

  unfoldable pub find_path : ℕ → N → N → Option (List N)
  unfolding finish
  find_path fuel start goal = first_steps start goal (g.connected start) [] >>= λ steps.
      search fuel goal (start ∷ []) steps >>= finish (start ∷ [])

  -- findPath(from:)
  unfoldable pub find_path_from : ℕ → N → N → Option (List N)
  find_path_from fuel goal start = find_path fuel start goal
