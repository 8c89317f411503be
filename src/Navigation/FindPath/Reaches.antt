-- ===== src/Navigation/FindPath/Reaches.antt =====
-- findPath of Model/GraphNode.swift finds a way to the goal where there is one.
use swe_capstone.Common.{
  ℕ, zero, suc, ◌≤◌, ◌≡◌, ◌≢◌, refl, ap, sym, subst, ◌∙◌, false, List, [], ◌∷◌, none, some, ◌⊎◌,
  inl, inr, Has, Bool-cases, arith,
}
use swe_capstone.Navigation.Graph.{Graph, Step, node}
use swe_capstone.Navigation.FindPath.{contains, search, find_path}
use swe_capstone.Navigation.FindPath.Walks.{IsLawful, IsEdge, IsWalk, last}
use swe_capstone.Navigation.FindPath.Queue.{Queued}
use swe_capstone.Navigation.FindPath.Rounds.{
  contains-Has, subtracting_complete, expand_total, next_nodes, search_found, search_next,
}
use swe_capstone.Navigation.FindPath.Sound.{
  first_steps-IsChain, find_path-IsWalk, find_path_outcome,
}
use swe_capstone.Navigation.FindPath.Total.{find_path_total}

module _ {N C : Type 0} (g : Graph N C) (law : IsLawful g) (start goal : N) where
  -- Whatever an eliminated node is connected to is eliminated, or queued.
  abbrev Explored : List N → List (Step N C) → Type 0
  Explored eliminated steps =
      (x m : N) → Has eliminated x → IsEdge g x m → Has eliminated m ⊎ Queued steps m

  -- No node but the start was eliminated that is the goal.
  abbrev Passed : List N → Type 0
  Passed eliminated = (x : N) → Has eliminated x → (x ≡ start) ⊎ (g.eq x goal ≡ false)

  pop-Explored :
      (step : Step N C) (eliminated : List N) (steps steps' : List (Step N C))
      → Explored eliminated (step ∷ steps)
      → ((m : N) → Queued steps m ⊎ Has (next_nodes g step eliminated) m → Queued steps' m)
      → Explored (node step ∷ eliminated) steps'
  pop-Explored step eliminated steps steps' old queued x m (inl e) edge =
      elim (Bool-cases (contains g (node step ∷ eliminated) m)) [
        | inl c ↦ inl (contains-Has g law (node step ∷ eliminated) m c)
        | inr c ↦ inr (
            queued m (
              inr (
                law.arrange_complete _ m (
                  subtracting_complete g law (g.connected (node step)) (node step ∷ eliminated) m
                    (subst (λ t. IsEdge g t m) (sym e) edge) c))))
      ]
  pop-Explored step eliminated steps steps' old queued x m (inr h) edge = elim (old x m h edge) [
    | inl k ↦ inl (inr k)
    | inr (inl e) ↦ inl (inl e)
    | inr (inr q) ↦ inr (queued m (inl q))
  ]

  -- A search that runs out of steps has eliminated everything that can be reached.
  search-none :
      (fuel : ℕ) (eliminated : List N) (steps : List (Step N C))
      → Has eliminated start
      → Explored eliminated steps
      → Passed eliminated
      → search g fuel goal eliminated steps ≡ some none
      → (all : List N) × Has all start
        × ((x m : N) → Has all x → IsEdge g x m → Has all m)
        × Passed all
  unfolding search
  search-none zero eliminated steps s ex pass h = cc
  search-none (suc fuel) eliminated [] s ex pass h =
      (eliminated, s, λ x m k edge. elim (ex x m k edge) [ inl a ↦ a | inr q ↦ absurd q ], pass)
  search-none (suc fuel) eliminated (step ∷ steps) s ex pass h =
      elim (Bool-cases (g.eq (node step) goal)) [
        | inl e ↦ cc (search_found g fuel goal eliminated step steps e)
        | inr e ↦
            let (steps', r, _, queued) =
              expand_total g law goal step (λ _. Unit {0}) (next_nodes g step eliminated) steps
                (λ _ _ _ _ _ _. tt) tt in
            search-none fuel (node step ∷ eliminated) steps' (inr s)
              (pop-Explored step eliminated steps steps' ex queued)
              (λ x k. elim k [
                | inl same ↦ inr (subst (λ t. g.eq t goal ≡ false) same e)
                | inr k' ↦ pass x k'
              ])
              (sym (search_next g fuel goal eliminated step steps steps' e r) ∙ h)
      ]

  last-Has :
      (all : List N) (a : N) (rest : List N)
      → ((x m : N) → Has all x → IsEdge g x m → Has all m)
      → Has all a
      → IsWalk g a rest
      → Has all (last a rest)
  last-Has all a [] closed h w = h
  last-Has all a (b ∷ rest) closed h w = last-Has all b rest closed (closed a b h w.0) w.1

  search-ne-none :
      (fuel : ℕ) (steps : List (Step N C)) (rest : List N)
      → ((m : N) → IsEdge g start m → Queued steps m)
      → IsWalk g start rest
      → last start rest ≡ goal
      → start ≢ goal
      → search g fuel goal (start ∷ []) steps ≢ some none
  search-ne-none fuel steps rest queued walk end ne h =
      let (all, s, closed, pass) =
        search-none fuel (start ∷ []) steps (inl refl)
          (λ x m k edge. elim k [
            | inl e ↦ inr (queued m (subst (λ t. IsEdge g t m) (sym e) edge))
            | inr k' ↦ absurd k'
          ])
          (λ x k. elim k [ inl e ↦ inl (sym e) | inr k' ↦ absurd k' ]) h in
      let at_goal : Has all goal = subst (Has all) end (last-Has all start rest closed s walk) in
      elim (pass goal at_goal) [ inl e ↦ ne (sym e) | inr e ↦ let self = law.eq_refl goal in cc ]

module _ {N C : Type 0} (g : Graph N C) (law : IsLawful g) (start goal : N) (nodes : List N)
    (inside : Has nodes start) (closed : (n m : N) → Has nodes n → IsEdge g n m → Has nodes m) where
  -- In a graph whose `==` tells nodes apart and whose sets are iterated in full: where some walk
  -- leads from the start to another node, the goal, and finitely many nodes can be reached,
  -- findPath(to:) ends without a trap, and returns a walk from the start to the goal.
  pub find_path-reaches :
      (rest : List N)
      → IsWalk g start rest
      → last start rest ≡ goal
      → start ≢ goal
      → (enough : ℕ) × (way : List N) × ((fuel : ℕ)
          → enough ≤ fuel
          → find_path g fuel start goal ≡ some (start ∷ way))
        × IsWalk g start way
        × (last start way ≡ goal)
  find_path-reaches rest walk end ne =
      let (enough, path, ends) = find_path_total g law goal nodes closed start inside in
      let (steps, r, all, queued) = first_steps-IsChain g law start goal in
      let (way, e, walks, outcome) =
        find_path_outcome g law start goal enough path steps r all (ends enough (omega arith)) in
      (
        enough,
        way,
        λ fuel le. ends fuel le ∙ ap some e,
        walks,
        elim outcome [
          | inl (_, none_left) ↦
              absurd
                (search-ne-none g law start goal enough steps rest queued walk end ne none_left)
          | inr at_goal ↦ at_goal
        ],
      )

  -- In a graph whose `==` tells nodes apart and whose sets are iterated in full, where no walk of an
  -- edge or more leads from the start to the goal, and finitely many nodes can be reached,
  -- findPath(to:) returns the array of just the start, not an empty one.
  pub find_path_unreachable :
      ((n : N) (rest : List N) → IsWalk g start (n ∷ rest) → last n rest ≢ goal)
      → (enough : ℕ) × ((fuel : ℕ)
          → enough ≤ fuel
          → find_path g fuel start goal ≡ some (start ∷ []))
  find_path_unreachable no_walk =
      let (enough, path, ends) = find_path_total g law goal nodes closed start inside in
      let (way, e, walks, outcome) =
        find_path-IsWalk g law start goal enough path (ends enough (omega arith)) in
      (
        enough,
        λ fuel le. ends fuel le ∙ ap some (e ∙ ap (λ t. start ∷ t) (alone way walks outcome)),
      )
    where
      alone : (way : List N) → IsWalk g start way → (way ≡ []) ⊎ (last start way ≡ goal) → way ≡ []
      alone [] w o = refl
      alone (n ∷ way) w (inl o) = o
      alone (n ∷ way) w (inr o) = absurd (no_walk n way w o)
