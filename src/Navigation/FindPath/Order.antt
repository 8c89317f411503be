-- ===== src/Navigation/FindPath/Order.antt =====
-- The queue `possibleSteps` of findPath in Model/GraphNode.swift stays in the order of total costs.
use swe_capstone.Common.{
  ℕ, zero, suc, ◌≡◌, refl, ap, subst, ◌∙◌, false, List, [], ◌∷◌, ◌++◌, some, All-get, All-set,
  All-map, get_elem?, set,
}
use swe_capstone.Navigation.SortedArray.{sorted_insert}
use swe_capstone.Navigation.SortedArray.Insert.{IsWeakOrder, IsSorted, sorted_insert-IsSorted}
use swe_capstone.Navigation.Graph.{
  Graph, Step, first, after, step_cost, set_previous, total_cost, step_lt,
}
use swe_capstone.Navigation.FindPath.{first_steps, expand}
use swe_capstone.Navigation.FindPath.Walks.{IsLawful}
use swe_capstone.Navigation.FindPath.Queue.{Round, inserted, kept, rerouted}
use swe_capstone.Navigation.FindPath.Rounds.{expand_total, first_steps_total}

module _ {N C : Type 0} (g : Graph N C) where
  -- No step stands behind one of a greater total cost.
  abbrev pub InOrder : List (Step N C) → Type 0
  InOrder steps = IsSorted (step_lt g) steps

module _ {N C : Type 0} (g : Graph N C) (order : IsWeakOrder g.lt) where
  step_order : IsWeakOrder (step_lt g)
  unfolding step_lt
  step_order = record {
    asymmetric = λ x y h. order.asymmetric _ _ h;
    negative_trans = λ x y z h k. order.negative_trans _ _ _ h k;
  }

  total_cost-set_previous :
      (found step : Step N C) → total_cost g (set_previous found step) ≡ total_cost g found
  unfolding total_cost set_previous step_cost
  total_cost-set_previous (first n s h) step = refl
  total_cost-set_previous (after n p s h) step = refl

  same_right : (x found step : Step N C) → step_lt g x (set_previous found step) ≡ step_lt g x found
  unfolding step_lt
  same_right x found step = ap (λ t. g.lt (total_cost g x) t) (total_cost-set_previous found step)

  same_left : (x found step : Step N C) → step_lt g (set_previous found step) x ≡ step_lt g found x
  unfolding step_lt
  same_left x found step = ap (λ t. g.lt t (total_cost g x)) (total_cost-set_previous found step)

  set-InOrder :
      (steps : List (Step N C)) (i : ℕ) {found : Step N C} (step : Step N C)
      → get_elem? steps i ≡ some found
      → InOrder g steps
      → InOrder g (set steps i (set_previous found step))
  set-InOrder [] i step e h = tt
  set-InOrder (x ∷ steps) zero {found} step e h =
      let same : x ≡ found = cc in
      (
        All-map (λ y. step_lt g y x ≡ false) (λ y. step_lt g y (set_previous found step) ≡ false)
            steps (λ y q. same_right y found step ∙ subst (λ t. step_lt g y t ≡ false) same q) h.0,
        h.1,
      )
  set-InOrder (x ∷ steps) (suc i) {found} step e h = (
    All-set (λ y. step_lt g y x ≡ false) steps i (set_previous found step) h.0
        (same_left x found step ∙ All-get (λ y. step_lt g y x ≡ false) steps i h.0 e),
    set-InOrder steps i step e h.1,
  )

  insert-InOrder :
      (step : Step N C) (steps steps' : List (Step N C))
      → sorted_insert step (step_lt g) steps ≡ some steps'
      → InOrder g steps
      → InOrder g steps'
  insert-InOrder step steps steps' r h =
      let (front, back, w, r2, sorted) =
        sorted_insert-IsSorted (step_lt g) step_order step steps h in
      let same : front ++ (step ∷ back) ≡ steps' = cc in subst (InOrder g) same sorted

  Round-InOrder :
      (goal : N) (step : Step N C) (n : N) (steps steps' : List (Step N C))
      → Round g goal step n steps steps'
      → InOrder g steps
      → InOrder g steps'
  Round-InOrder goal step n steps steps' (inserted front back w r e) h =
      rw e (insert-InOrder _ steps _ r h)
  Round-InOrder goal step n steps steps' (kept i found at same e) h = rw e h
  Round-InOrder goal step n steps steps' (rerouted i found at same e) h =
      rw e (set-InOrder steps i step at h)

  -- In a graph whose `==` tells nodes apart and whose sets are iterated in full, with costs under a
  -- weak order, the queue that findPath(to:) starts with is in the order of the
  -- total costs, and expanding a step into any nodes does not trap and keeps a queue in that order.
  pub expand-InOrder :
      IsLawful g
      → (start goal : N)
      → ((steps : List (Step N C)) × (first_steps g start goal (g.connected start) [] ≡ some steps)
          × InOrder g steps)
        × ((step : Step N C) (nodes : List N) (steps : List (Step N C))
            → InOrder g steps
            → (steps' : List (Step N C)) × (expand g goal step nodes steps ≡ some steps')
              × InOrder g steps')
  expand-InOrder law start goal =
      let (steps, r, sorted, q) =
        first_steps_total g law start goal (InOrder g) (g.connected start) []
          (λ n h front back s r. insert-InOrder _ (front ++ back) _ r s) tt in
      (
        (steps, r, sorted),
        λ step nodes steps h.
            let (steps', r', p, q') =
              expand_total g law goal step (InOrder g) nodes steps
                (λ n _ s s' round. Round-InOrder goal step n s s' round) h in
            (steps', r', p),
      )
