-- ===== src/Navigation/FindPath/Walks.antt =====
-- What findPath of Model/GraphNode.swift is about: walks in the graph, and the walk that a step
-- stands for.
use swe_capstone.Common.{◌≡◌, refl, true, List, [], ◌∷◌, some, Has}
use swe_capstone.Navigation.SortedArray.{insert_at}
use swe_capstone.Navigation.Graph.{Graph, Step, first, after, node}
use swe_capstone.Navigation.FindPath.{trace}

-- What the program relies on: `==` of nodes is reflexive and tells nodes apart, and iterating over
-- a set gives each of its elements.
pub record IsLawful {N C : Type 0} (g : Graph N C) : Type 0 where
  pub eq_sound : (a b : N) → g.eq a b ≡ true → a ≡ b
  pub eq_refl : (a : N) → g.eq a a ≡ true
  pub arrange_sound : (xs : List N) (n : N) → Has (g.arrange xs) n → Has xs n
  pub arrange_complete : (xs : List N) (n : N) → Has xs n → Has (g.arrange xs) n

-- The last of a nonempty list that starts with `a`.
abbrev pub last : {N : Type 0} → N → List N → N
last a [] = a
last a (b ∷ rest) = last b rest

module _ {N C : Type 0} (g : Graph N C) where
  abbrev pub IsEdge : N → N → Type 0
  IsEdge a b = Has (g.connected a) b

  -- From `a` the nodes of the list are reached in turn, each along an edge.
  abbrev pub IsWalk : N → List N → Type 0
  IsWalk a [] = Unit {0}
  IsWalk a (b ∷ rest) = IsEdge a b × IsWalk b rest

  -- The previous steps of a step lead back to `start` along edges.
  abbrev pub IsChain : N → Step N C → Type 0
  IsChain start (first n s h) = IsEdge start n
  IsChain start (after n previous s h) = IsEdge (node previous) n × IsChain start previous

-- The nodes of a step and those before it, in walking order, and then `rest`.
pub spread : {N C : Type 0} → Step N C → List N → List N
spread (first n s h) rest = n ∷ rest
spread (after n previous s h) rest = spread previous (n ∷ rest)

pub trace-spread :
    {N C : Type 0} (g : Graph N C) (step : Step N C) (start : N) (rest : List N)
    → trace g step (start ∷ rest) ≡ some (start ∷ spread step rest)
unfolding trace spread insert_at
trace-spread g (first n s h) start rest = refl
trace-spread g (after n previous s h) start rest = trace-spread g previous start (n ∷ rest)

spread-IsWalk :
    {N C : Type 0} (g : Graph N C) (step : Step N C) (start : N) (rest : List N)
    → IsChain g start step
    → IsWalk g (node step) rest
    → IsWalk g start (spread step rest)
unfolding spread node
spread-IsWalk g (first n s h) start rest c w = (c, w)
spread-IsWalk g (after n previous s h) start rest c w =
    spread-IsWalk g previous start (n ∷ rest) c.1 (c.0, w)

last-spread :
    {N C : Type 0} (step : Step N C) (start : N) (rest : List N)
    → last start (spread step rest) ≡ last (node step) rest
unfolding spread node
last-spread (first n s h) start rest = refl
last-spread (after n previous s h) start rest = last-spread previous start (n ∷ rest)

-- Walking back from a chained step writes a walk from `start` to the step's node.
pub trace-IsWalk :
    {N C : Type 0} (g : Graph N C) (step : Step N C) (start : N)
    → IsChain g start step
    → (rest : List N) × (trace g step (start ∷ []) ≡ some (start ∷ rest))
      × IsWalk g start rest
      × (last start rest ≡ node step)
trace-IsWalk g step start c = (
  spread step [],
  trace-spread g step start [],
  spread-IsWalk g step start [] c tt,
  last-spread step start [],
)
