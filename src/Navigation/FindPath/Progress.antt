-- ===== src/Navigation/FindPath/Progress.antt =====
-- Two numbers that show the progress of the loop of findPath in Model/GraphNode.swift: the nodes
-- that are not eliminated, and the queued steps to a node that is.
use swe_capstone.Common.{
  ℕ, zero, suc, ◌+◌, ◌≤◌, ◌<◌, ◌≡◌, refl, sym, subst, true, false, List, [], ◌∷◌, ◌++◌, some, inl,
  inr, Has, Bool-cases, arith, length, get_elem?, set, if◌then◌else◌,
}
use swe_capstone.Navigation.Graph.{Graph, Step, node, next_step, set_previous}
use swe_capstone.Navigation.FindPath.{contains, subtracting}
use swe_capstone.Navigation.FindPath.Walks.{IsLawful}
use swe_capstone.Navigation.FindPath.Queue.{Round, inserted, kept, rerouted, node-set_previous}

module _ {N C : Type 0} (g : Graph N C) where
  -- 1 for a step whose node is eliminated already, and the number of those in the queue.
  staleness : List N → N → ℕ
  staleness eliminated n = if contains g eliminated n then 1 else 0

  pub stale : List N → List (Step N C) → ℕ
  stale eliminated [] = 0
  stale eliminated (s ∷ steps) = staleness eliminated (node s) + stale eliminated steps

  -- The number of nodes that are not eliminated.
  pub fresh : List N → List N → ℕ
  fresh nodes eliminated = length (subtracting g nodes eliminated)

  stale-append :
      (eliminated : List N) (xs ys : List (Step N C))
      → stale eliminated (xs ++ ys) ≡ stale eliminated xs + stale eliminated ys
  unfolding stale
  stale-append eliminated [] ys = omega arith
  stale-append eliminated (x ∷ xs) ys = omega (arith, stale-append eliminated xs ys)

  stale-set :
      (eliminated : List N) (xs : List (Step N C)) (i : ℕ) (found step : Step N C)
      → get_elem? xs i ≡ some found
      → stale eliminated (set xs i (set_previous found step)) ≡ stale eliminated xs
  unfolding stale
  stale-set eliminated [] i found step e = refl
  stale-set eliminated (x ∷ xs) zero found step e =
      let same : found ≡ x = cc in
      rw (node-set_previous found step) (
        subst
          (λ t.
            staleness eliminated (node found) + stale eliminated xs
            ≡ staleness eliminated (node t) + stale eliminated xs)
          same refl)
  stale-set eliminated (x ∷ xs) (suc i) found step e =
      omega (arith, stale-set eliminated xs i found step e)

  pub Round-stale :
      (goal : N) (step : Step N C) (n : N) (eliminated : List N) (steps steps' : List (Step N C))
      → contains g eliminated n ≡ false
      → Round g goal step n steps steps'
      → stale eliminated steps' ≡ stale eliminated steps
  unfolding stale staleness next_step node
  Round-stale goal step n eliminated steps steps' new (inserted front back w r e) = rw e (
      rw w (
        rw
          (
            stale-append eliminated front back,
            stale-append eliminated front (next_step g n step goal ∷ back),
            new,
          )
          (omega arith)))
  Round-stale goal step n eliminated steps steps' new (kept i found at same e) = rw e
  Round-stale goal step n eliminated steps steps' new (rerouted i found at same e) =
      rw e (stale-set eliminated steps i found step at)

  pub stale-cons :
      (step : Step N C) (eliminated : List N) (steps : List (Step N C))
      → contains g eliminated (node step) ≡ true
      → stale eliminated (step ∷ steps) ≡ 1 + stale eliminated steps
  unfolding stale staleness
  stale-cons step eliminated steps again = rw again

  contains-cons_true :
      (n : N) (eliminated : List N) (x : N)
      → contains g eliminated x ≡ true
      → contains g (n ∷ eliminated) x ≡ true
  unfolding contains
  contains-cons_true n eliminated x h = ground arith

  pub fresh_le :
      (n : N) (nodes eliminated : List N) → fresh nodes (n ∷ eliminated) ≤ fresh nodes eliminated
  unfolding fresh subtracting
  fresh_le n [] eliminated = omega arith
  fresh_le n (x ∷ nodes) eliminated =
      ground (arith, contains-cons_true n eliminated x, fresh_le n nodes eliminated)

module _ {N C : Type 0} (g : Graph N C) (law : IsLawful g) where
  pub contains_self : (n : N) (eliminated : List N) → contains g (n ∷ eliminated) n ≡ true
  unfolding contains
  contains_self n eliminated = rw (law.eq_refl n)

  -- Eliminating a node that is fresh leaves fewer; eliminating it again changes nothing.
  pub fresh_lt :
      (n : N) (nodes eliminated : List N)
      → Has nodes n
      → contains g eliminated n ≡ false
      → fresh g nodes (n ∷ eliminated) < fresh g nodes eliminated
  unfolding fresh subtracting
  fresh_lt n [] eliminated h new = absurd h
  fresh_lt n (x ∷ nodes) eliminated (inl e) new = rw e (
      rw (new, contains_self n eliminated)
        (unfold fresh in omega (arith, fresh_le g n nodes eliminated)))
  fresh_lt n (x ∷ nodes) eliminated (inr h) new =
      ground (arith, contains-cons_true g n eliminated x, fresh_lt n nodes eliminated h new)

  contains_again :
      (n : N) (eliminated : List N) (x : N)
      → contains g eliminated n ≡ true
      → contains g (n ∷ eliminated) x ≡ contains g eliminated x
  unfolding contains
  contains_again n eliminated x h = elim (Bool-cases (g.eq n x)) [
    | inl e ↦ rw e (sym (subst (λ t. contains g eliminated t ≡ true) (law.eq_sound n x e) h))
    | inr e ↦ rw e
  ]

  pub stale_again :
      (n : N) (eliminated : List N) (steps : List (Step N C))
      → contains g eliminated n ≡ true
      → stale g (n ∷ eliminated) steps ≡ stale g eliminated steps
  unfolding stale staleness
  stale_again n eliminated [] h = refl
  stale_again n eliminated (s ∷ steps) h =
      rw (contains_again n eliminated (node s) h) (omega (arith, stale_again n eliminated steps h))
