-- ===== src/Navigation/Graph.antt =====
-- Model/GraphNode.swift: the graph as a node sees it, and the steps of the search.
use swe_capstone.Common.{Bool, List}

-- A node's members of the protocol GraphNode, and the operations of Double that the steps use.
-- `connected` is connectedNodes in the order in which it is iterated; `arrange` is the order in
-- which a Set that was computed is iterated.
pub record Graph (N C : Type 0) : Type 0 where
  pub connected : N → List N
  pub arrange : List N → List N
  pub eq : N → N → Bool
  pub cost : N → N → C
  pub estimated_cost : N → N → C
  pub add : C → C → C
  pub lt : C → C → Bool

-- Step: `first` has no previous step, `after` has one.
pub data Step (N C : Type 0) : Type 0 where
  first : N → C → C → Step N C
  after : N → Step N C → C → C → Step N C

module _ {N C : Type 0} where
  unfoldable pub node : Step N C → N
  node (first n step_cost goal_cost) = n
  node (after n previous step_cost goal_cost) = n

  unfoldable pub step_cost : Step N C → C
  step_cost (first n s g) = s
  step_cost (after n previous s g) = s

  unfoldable pub goal_cost : Step N C → C
  goal_cost (first n s g) = g
  goal_cost (after n previous s g) = g

  -- `step.previous = previous`
  unfoldable pub set_previous : Step N C → Step N C → Step N C
  set_previous (first n s g) previous = after n previous s g
  set_previous (after n old s g) previous = after n previous s g

module _ {N C : Type 0} (g : Graph N C) where
  -- init(from:to:goal:)
  unfoldable pub first_step : N → N → N → Step N C
  first_step start destination goal =
      first destination (g.cost start destination) (g.estimated_cost destination goal)

  -- init(destination:previous:goal:)
  unfoldable pub next_step : N → Step N C → N → Step N C
  unfolding node step_cost
  next_step destination previous goal =
      after destination previous (g.add (step_cost previous) (g.cost (node previous) destination))
        (g.estimated_cost destination goal)

  unfoldable pub total_cost : Step N C → C
  unfolding step_cost goal_cost
  total_cost step = g.add (step_cost step) (goal_cost step)

  -- `==` and `<` on steps.
  unfoldable pub step_eq : Step N C → Step N C → Bool
  unfolding node
  step_eq lhs rhs = g.eq (node lhs) (node rhs)

  unfoldable pub step_lt : Step N C → Step N C → Bool
  unfolding total_cost
  step_lt lhs rhs = g.lt (total_cost lhs) (total_cost rhs)
