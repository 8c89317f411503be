-- ===== src/Navigation/FindPath/Rounds.antt =====
-- The loops over connected nodes of findPath in Model/GraphNode.swift, and one round of its outer
-- loop.
use swe_capstone.Common.{
  ℕ, suc, ◌≡◌, refl, subst, true, false, List, [], ◌∷◌, ◌++◌, some, ◌⊎◌, inl, inr, Has, Bool-cases,
  ◌||◌,
}
use swe_capstone.Navigation.SortedArray.{◌>>=◌, sorted_insert}
use swe_capstone.Navigation.SortedArray.Insert.{sorted_insert_total}
use swe_capstone.Navigation.Graph.{Graph, Step, node, first_step, step_lt}
use swe_capstone.Navigation.FindPath.{
  contains, subtracting, insert_step, first_steps, expand, search, finish, find_path,
}
use swe_capstone.Navigation.FindPath.Walks.{IsLawful}
use swe_capstone.Navigation.FindPath.Queue.{
  Round, Queued, visit-Round, Round-Queued, Round-self, Queued-between, Queued-append_right,
}

module _ {N C : Type 0} (g : Graph N C) (law : IsLawful g) where
  pub contains-Has : (xs : List N) (n : N) → contains g xs n ≡ true → Has xs n
  unfolding contains
  contains-Has [] n h = cc
  contains-Has (x ∷ xs) n h = elim (Bool-cases (g.eq x n)) [
    | inl e ↦ inl (law.eq_sound x n e)
    | inr e ↦ inr (contains-Has xs n (rw e at h))
  ]

  pub Has-contains : (xs : List N) (n : N) → Has xs n → contains g xs n ≡ true
  unfolding contains
  Has-contains [] n h = absurd h
  Has-contains (x ∷ xs) n (inl e) =
      subst (λ t. (g.eq x t || contains g xs t) ≡ true) e (rw (law.eq_refl x))
  Has-contains (x ∷ xs) n (inr h) = elim (Bool-cases (g.eq x n)) [
    | inl e ↦ rw e
    | inr e ↦ rw e (Has-contains xs n h)
  ]

  pub subtracting_sound :
      (xs eliminated : List N) (n : N)
      → Has (subtracting g xs eliminated) n
      → Has xs n × (contains g eliminated n ≡ false)
  unfolding subtracting
  subtracting_sound [] eliminated n h = absurd h
  subtracting_sound (x ∷ xs) eliminated n h = elim (Bool-cases (contains g eliminated x)) [
    | inl e ↦ let (a, b) = subtracting_sound xs eliminated n (rw e at h) in (inr a, b)
    | inr e ↦
        let here : (x ≡ n) ⊎ Has (subtracting g xs eliminated) n = rw e at h in
        elim here [
          | inl r ↦ (inl r, subst (λ t. contains g eliminated t ≡ false) r e)
          | inr k ↦ let (a, b) = subtracting_sound xs eliminated n k in (inr a, b)
        ]
  ]

  pub subtracting_complete :
      (xs eliminated : List N) (n : N)
      → Has xs n
      → contains g eliminated n ≡ false
      → Has (subtracting g xs eliminated) n
  unfolding subtracting
  subtracting_complete [] eliminated n h fresh = absurd h
  subtracting_complete (x ∷ xs) eliminated n h fresh = elim (Bool-cases (contains g eliminated x)) [
    | inl e ↦ rw e (elim h [
      | inl r ↦
          let old : contains g eliminated n ≡ true =
            subst (λ t. contains g eliminated t ≡ true) r e in
          cc
      | inr k ↦ subtracting_complete xs eliminated n k fresh
    ])
    | inr e ↦
        rw e (elim h [ inl r ↦ inl r | inr k ↦ inr (subtracting_complete xs eliminated n k fresh) ])
  ]

  -- The loop over the next nodes does not trap. It keeps whatever each round keeps, and every node
  -- that was queued or is looped over is queued after it.
  pub expand_total :
      (goal : N) (step : Step N C) (P : List (Step N C) → Type 0) (nodes : List N)
      (steps : List (Step N C))
      → ((n : N) → Has nodes n → (s s' : List (Step N C)) → Round g goal step n s s' → P s → P s')
      → P steps
      → (steps' : List (Step N C)) × (expand g goal step nodes steps ≡ some steps')
        × P steps'
        × ((m : N) → Queued steps m ⊎ Has nodes m → Queued steps' m)
  unfolding expand
  expand_total goal step P [] steps keep p =
      (steps, refl, p, λ m q. elim q [ inl a ↦ a | inr b ↦ absurd b ])
  expand_total goal step P (n ∷ nodes) steps keep p =
      let (steps1, r1, round) = visit-Round g goal step n steps in
      let (steps2, r2, p2, q2) =
        expand_total goal step P nodes steps1 (λ m h. keep m (inr h))
          (keep n (inl refl) steps steps1 round p) in
      (
        steps2,
        rw r1 r2,
        p2,
        λ m q. q2 m (elim q [
          | inl a ↦ inl (Round-Queued g law goal step n steps steps1 round m a)
          | inr (inl e) ↦
              inl (subst (Queued steps1) e (Round-self g law goal step n steps steps1 round))
          | inr (inr h) ↦ inr h
        ]),
      )

  -- The same for the loop over the start's connected nodes.
  pub first_steps_total :
      (start goal : N) (P : List (Step N C) → Type 0) (nodes : List N) (steps : List (Step N C))
      → ((n : N)
          → Has nodes n
          → (front back : List (Step N C)) → P (front ++ back)
          → sorted_insert (first_step g start n goal) (step_lt g) (front ++ back)
            ≡ some (front ++ (first_step g start n goal ∷ back))
          → P (front ++ (first_step g start n goal ∷ back)))
      → P steps
      → (steps' : List (Step N C)) × (first_steps g start goal nodes steps ≡ some steps')
        × P steps'
        × ((m : N) → Queued steps m ⊎ Has nodes m → Queued steps' m)
  unfolding first_steps insert_step first_step node
  first_steps_total start goal P [] steps keep p =
      (steps, refl, p, λ m q. elim q [ inl a ↦ a | inr b ↦ absurd b ])
  first_steps_total start goal P (n ∷ nodes) steps keep p =
      let (front, back, w, r1) =
        sorted_insert_total (first_step g start n goal) (step_lt g) steps in
      let steps1 = front ++ (first_step g start n goal ∷ back) in
      let r0 : sorted_insert (first_step g start n goal) (step_lt g) (front ++ back) ≡ some steps1 =
        subst (λ t. sorted_insert (first_step g start n goal) (step_lt g) t ≡ some steps1) w r1 in
      let (steps2, r2, p2, q2) =
        first_steps_total start goal P nodes steps1 (λ m h. keep m (inr h))
          (keep n (inl refl) front back (subst P w p) r0) in
      (
        steps2,
        rw r1 r2,
        p2,
        λ m q. q2 m (elim q [
          | inl a ↦ inl (Queued-between front back _ m (subst (λ t. Queued t m) w a))
          | inr (inl e) ↦ inl (Queued-append_right front _ m (inl e))
          | inr (inr h) ↦ inr h
        ]),
      )

module _ {N C : Type 0} (g : Graph N C) where
  -- The next nodes of a step that is popped.
  abbrev pub next_nodes : Step N C → List N → List N
  next_nodes step eliminated =
      g.arrange (subtracting g (g.connected (node step)) (node step ∷ eliminated))

  pub search_found :
      (fuel : ℕ) (goal : N) (eliminated : List N) (step : Step N C) (steps : List (Step N C))
      → g.eq (node step) goal ≡ true
      → search g (suc fuel) goal eliminated (step ∷ steps) ≡ some (some step)
  unfolding search
  search_found fuel goal eliminated step steps e = rw (e, search)

  pub search_next :
      (fuel : ℕ) (goal : N) (eliminated : List N) (step : Step N C) (steps steps' : List (Step N C))
      → g.eq (node step) goal ≡ false
      → expand g goal step (next_nodes step eliminated) steps ≡ some steps'
      → search g (suc fuel) goal eliminated (step ∷ steps)
        ≡ search g fuel goal (node step ∷ eliminated) steps'
  unfolding search
  search_next fuel goal eliminated step steps steps' e r = rw (e, search) (rw r)

  pub find_path-search :
      (fuel : ℕ) (start goal : N) (steps : List (Step N C))
      → first_steps g start goal (g.connected start) [] ≡ some steps
      → find_path g fuel start goal
        ≡ search g fuel goal (start ∷ []) steps >>= finish g (start ∷ [])
  unfolding find_path
  find_path-search fuel start goal steps r = rw r
