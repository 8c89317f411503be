-- ===== src/Navigation/Closest.antt =====
-- findClosestEntrance and findClosest of Model/DataManager.swift.
pub mod Nearest
use swe_capstone.Common.{Bool, true, false, List, [], ◌∷◌, if◌then◌else◌}

-- What the two functions use of a NavigationLocation and of Double. `infinity` is Double.infinity,
-- and `limit` is 99999.9.
pub record Distances (N D : Type 0) : Type 0 where
  pub cost : N → N → D
  pub eq : N → N → Bool
  pub lt : D → D → Bool
  pub infinity : D
  pub limit : D

module _ {N D : Type 0} (d : Distances N D) where
  -- `for entrance in buildingEntrances { … }`, on the closest entrance so far and its distance.
  unfoldable pub entrance_loop : N → List N → N → D → N
  entrance_loop here [] closest distance = closest
  entrance_loop here (entrance ∷ entrances) closest distance =
      elim (d.lt distance (d.cost here entrance)) [
        | true ↦ entrance_loop here entrances closest distance
        | false ↦ entrance_loop here entrances entrance (d.cost here entrance)
      ]

  -- findClosestEntrance(current:buildingEntrances:). `nowhere` is the location at (0, 0).
  unfoldable pub find_closest_entrance : N → N → List N → N
  find_closest_entrance nowhere here entrances = entrance_loop here entrances nowhere d.infinity

  -- The branches of findClosest that skip a node: the destination, and what is farther from it than
  -- the user is.
  abbrev pub is_candidate : N → N → N → Bool
  is_candidate here destination x =
      if d.eq x destination
      then false
      else if d.lt (d.cost here destination) (d.cost x destination)
      then false
      else true

  -- `for (_,x) in navLocations { … }`
  unfoldable pub closest_loop : N → N → List N → N → D → N
  closest_loop here destination [] closest distance = closest
  closest_loop here destination (x ∷ locations) closest distance =
      elim (is_candidate here destination x) [
        | false ↦ closest_loop here destination locations closest distance
        | true ↦ elim (d.lt (d.cost here x) distance) [
          | true ↦ closest_loop here destination locations x (d.cost here x)
          | false ↦ closest_loop here destination locations closest distance
        ]
      ]

  -- findClosest(current:destination:), on the values of navLocations in the order of the iteration.
  unfoldable pub find_closest : N → N → List N → N
  find_closest here destination locations = closest_loop here destination locations here d.limit
