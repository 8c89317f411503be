-- ===== src/Tests/Navigation.antt =====
-- Route finding on a small campus: gate 0, library 1, stadium 2 and hall 3, with a shed 4 that only
-- the stadium's path leaves from.
use swe_capstone.Common.{
  ℕ, true, false, ◌-◌, min, le→ltb, subst, ◌+◌, ◌≤◌, ◌≡◌, ◌≢◌, refl, List, [], ◌∷◌, ◌++◌, some, ◌⊎◌,
  inl, ltb, ◌==◌, ==_iff, if◌then◌else◌, ◌&&◌, Has, arith,
}
use swe_capstone.Navigation.Closest.{
  Distances, entrance_loop, find_closest_entrance, is_candidate, find_closest,
}
use swe_capstone.Navigation.Closest.Nearest.{
  NoneCloser, NoCandidateCloser, find_closest_entrance-NoneCloser, find_closest-NoCandidateCloser,
}
use swe_capstone.Navigation.SortedArray.{binary_search, sorted_insert, search_loop, insert_at}
use swe_capstone.Navigation.SortedArray.Search.{binary_search-append, binary_search_total}
use swe_capstone.Navigation.SortedArray.Insert.{
  IsWeakOrder, IsSorted, sorted_insert-IsSorted, sorted_insert_total,
}
use swe_capstone.Navigation.Graph.{
  Graph, Step, node, step_cost, goal_cost, first_step, next_step, total_cost, step_eq, step_lt,
}
use swe_capstone.Navigation.FindPath.{
  contains, subtracting, insert_step, first_steps, reroute, place, visit, expand, search, trace,
  find_path,
}
use swe_capstone.Navigation.FindPath.Walks.{IsLawful, IsEdge, IsWalk, last}
use swe_capstone.Navigation.FindPath.Sound.{find_path-IsWalk}
use swe_capstone.Navigation.FindPath.Total.{find_path_total}
use swe_capstone.Navigation.FindPath.Reaches.{find_path-reaches, find_path_unreachable}
use swe_capstone.Navigation.FindPath.Order.{InOrder, expand-InOrder}

abbrev paths_from : ℕ → List ℕ
paths_from n =
    if n == 0
    then 1 ∷ 2 ∷ []
    else if n == 1
    then 3 ∷ 0 ∷ []
    else if n == 2
    then 3 ∷ []
    else if n == 4
    then 2 ∷ []
    else []

abbrev campus : Graph ℕ ℕ
campus = record {
  connected = paths_from;
  arrange = λ xs. xs;
  eq = ◌==◌;
  cost = λ a b. if a == 0 && b == 1 then 7 else 2;
  estimated_cost = λ a b. if a == b then 0 else 1;
  add = ◌+◌;
  lt = ltb;
}

campus-IsLawful : IsLawful campus
campus-IsLawful = record {
  eq_sound = λ a b h. (==_iff a b).0 h;
  eq_refl = λ a. (==_iff a a).1 refl;
  arrange_sound = λ xs n h. h;
  arrange_complete = λ xs n h. h;
}

abbrev places : List ℕ
places = 0 ∷ 1 ∷ 2 ∷ 3 ∷ []

campus-closed : (n m : ℕ) → Has places n → IsEdge campus n m → Has places m
campus-closed n m h e = ground arith

costs-IsWeakOrder : IsWeakOrder ltb
costs-IsWeakOrder = record {
  asymmetric = λ x y h. ground arith;
  negative_trans = λ x y z h k. ground arith;
}

-- A run, from the queue of the first steps to the path.
short_way : find_path campus 9 0 3 ≡ some (0 ∷ 2 ∷ 3 ∷ [])
unfolding find_path first_steps insert_step sorted_insert binary_search search_loop insert_at
    first_step next_step total_cost step_cost goal_cost step_lt step_eq search expand visit place
    reroute subtracting contains node trace
short_way = refl

find_path-reaches_example :
    (enough : ℕ) × (way : List ℕ) × ((fuel : ℕ)
      → enough ≤ fuel
      → find_path campus fuel 0 3 ≡ some (0 ∷ way))
    × IsWalk campus 0 way
    × (last 0 way ≡ 3)
find_path-reaches_example =
    find_path-reaches campus campus-IsLawful 0 3 places (inl refl) campus-closed (1 ∷ 3 ∷ [])
      (inl refl, (inl refl, tt)) refl (omega arith)

find_path-IsWalk_example :
    (rest : List ℕ) × (◌≡◌ {A = List ℕ} (0 ∷ 2 ∷ 3 ∷ []) (0 ∷ rest))
    × IsWalk campus 0 rest
    × ((rest ≡ []) ⊎ (last 0 rest ≡ 3))
find_path-IsWalk_example = find_path-IsWalk campus campus-IsLawful 0 3 9 (0 ∷ 2 ∷ 3 ∷ []) short_way

find_path_total_example :
    (enough : ℕ) × (path : List ℕ) × ((fuel : ℕ)
      → enough ≤ fuel
      → find_path campus fuel 0 3 ≡ some path)
find_path_total_example = find_path_total campus campus-IsLawful 3 places campus-closed 0 (inl refl)

-- The shed is on no path.
abbrev no_shed :
    (a : ℕ) (rest : List ℕ) → Has places a → IsWalk campus a rest → Has places (last a rest)
no_shed a [] h w = h
no_shed a (b ∷ rest) h w = no_shed b rest (campus-closed a b h w.0) w.1

shed-unreachable : (n : ℕ) (rest : List ℕ) → IsWalk campus 0 (n ∷ rest) → last n rest ≢ 4
shed-unreachable n rest w e =
    let at_shed : Has places 4 =
      subst (Has places) e (no_shed n rest (campus-closed 0 n (inl refl) w.0) w.1) in
    ground arith

find_path_unreachable_example :
    (enough : ℕ) × ((fuel : ℕ) → enough ≤ fuel → find_path campus fuel 0 4 ≡ some (0 ∷ []))
find_path_unreachable_example =
    find_path_unreachable campus campus-IsLawful 0 4 places (inl refl) campus-closed
      shed-unreachable

expand-InOrder_example :
    ((steps : List (Step ℕ ℕ)) × (first_steps campus 0 3 (1 ∷ 2 ∷ []) [] ≡ some steps)
      × InOrder campus steps)
    × ((step : Step ℕ ℕ) (nodes : List ℕ) (steps : List (Step ℕ ℕ))
        → InOrder campus steps
        → (steps' : List (Step ℕ ℕ)) × (expand campus 3 step nodes steps ≡ some steps')
          × InOrder campus steps')
expand-InOrder_example = expand-InOrder campus costs-IsWeakOrder campus-IsLawful 0 3

sorted_insert-IsSorted_example :
    (front back : List ℕ) × (◌≡◌ {A = List ℕ} (2 ∷ 5 ∷ []) (front ++ back))
    × (sorted_insert 4 ltb (2 ∷ 5 ∷ []) ≡ some (front ++ (4 ∷ back)))
    × IsSorted ltb (front ++ (4 ∷ back))
sorted_insert-IsSorted_example =
    sorted_insert-IsSorted ltb costs-IsWeakOrder 4 (2 ∷ 5 ∷ []) ((refl, tt), (tt, tt))

sorted_insert_total_example :
    (front back : List ℕ) × (◌≡◌ {A = List ℕ} (5 ∷ 2 ∷ []) (front ++ back))
    × (sorted_insert 4 ltb (5 ∷ 2 ∷ []) ≡ some (front ++ (4 ∷ back)))
sorted_insert_total_example = sorted_insert_total 4 ltb (5 ∷ 2 ∷ [])

binary_search-append_example : binary_search (λ x. ltb x 4) (2 ∷ 3 ∷ 5 ∷ []) ≡ some 2
binary_search-append_example =
    binary_search-append (λ x. ltb x 4) (2 ∷ 3 ∷ []) (5 ∷ []) (refl, (refl, tt)) (refl, tt)

binary_search_total_example :
    (k : ℕ) × (binary_search (λ x. ltb x 4) (5 ∷ 2 ∷ []) ≡ some k) × (k ≤ 2)
binary_search_total_example = binary_search_total (λ x. ltb x 4) (5 ∷ 2 ∷ [])

-- Places on a line, up to 100 from one another.
abbrev line : Distances ℕ ℕ
line = record {
  cost = λ a b. min 100 ((a - b) + (b - a));
  eq = ◌==◌;
  lt = ltb;
  infinity = 100;
  limit = 50;
}

line-finite : (x : ℕ) → ltb 100 (min 100 ((10 - x) + (x - 10))) ≡ false
line-finite x = le→ltb 100 (min 100 ((10 - x) + (x - 10))) (omega arith)

abbrev entrances : List ℕ
entrances = 20 ∷ 12 ∷ 7 ∷ []

nearest_entrance : find_closest_entrance line 0 10 entrances ≡ 12
unfolding find_closest_entrance entrance_loop
nearest_entrance = refl

find_closest_entrance-NoneCloser_example :
    Has entrances (find_closest_entrance line 0 10 entrances)
    × NoneCloser line 10 entrances (line.cost 10 (find_closest_entrance line 0 10 entrances))
find_closest_entrance-NoneCloser_example =
    find_closest_entrance-NoneCloser line costs-IsWeakOrder 10 0 20 (12 ∷ 7 ∷ []) line-finite

find_closest-NoCandidateCloser_example :
    ((find_closest line 10 30 entrances ≡ 10) × NoCandidateCloser line 10 30 entrances 50)
    ⊎ (Has entrances (find_closest line 10 30 entrances)
        × (is_candidate line 10 30 (find_closest line 10 30 entrances) ≡ true)
        × (ltb (line.cost 10 (find_closest line 10 30 entrances)) 50 ≡ true)
        × NoCandidateCloser line 10 30 entrances (line.cost 10 (find_closest line 10 30 entrances)))
find_closest-NoCandidateCloser_example =
    find_closest-NoCandidateCloser line costs-IsWeakOrder 10 30 entrances
