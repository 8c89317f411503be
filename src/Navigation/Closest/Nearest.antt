-- ===== src/Navigation/Closest/Nearest.antt =====
-- The two searches of Model/DataManager.swift give a location that no other one is closer than.
use swe_capstone.Common.{
  ◌≡◌, refl, sym, ap, subst, ◌∙◌, true, false, List, [], ◌∷◌, ◌⊎◌, inl, inr, Has, All, Bool-cases,
}
use swe_capstone.Navigation.SortedArray.Insert.{IsWeakOrder}
use swe_capstone.Navigation.Closest.{
  Distances, entrance_loop, find_closest_entrance, is_candidate, closest_loop, find_closest,
}

module _ {N D : Type 0} (d : Distances N D) (here : N) where
  -- No location of the list is closer than a distance.
  abbrev pub NoneCloser : List N → D → Type 0
  NoneCloser locations distance = All (λ y. d.lt (d.cost here y) distance ≡ false) locations

  -- No candidate of the list is closer than a distance.
  abbrev pub NoCandidateCloser : N → List N → D → Type 0
  NoCandidateCloser destination locations distance =
      All
        (λ y. (is_candidate d here destination y ≡ false) ⊎ (d.lt (d.cost here y) distance ≡ false))
        locations

module _ {N D : Type 0} (d : Distances N D) (order : IsWeakOrder d.lt) (here : N) where
  irreflexive : (x : D) → d.lt x x ≡ false
  irreflexive x = elim (Bool-cases (d.lt x x)) [ inl e ↦ order.asymmetric x x e | inr e ↦ e ]

  -- What a run of the loop over entrances gives from a location and its distance.
  abbrev Taken : List N → N → D → N → Type 0
  Taken entrances closest distance result =
      (r : D) × (((result ≡ closest) × (r ≡ distance))
        ⊎ (Has entrances result × (r ≡ d.cost here result)))
      × NoneCloser d here entrances r
      × (d.lt distance r ≡ false)

  entrance_loop-Taken :
      (entrances : List N) (closest : N) (distance : D)
      → Taken entrances closest distance (entrance_loop d here entrances closest distance)
  unfolding entrance_loop
  entrance_loop-Taken [] closest distance = (distance, inl (refl, refl), tt, irreflexive distance)
  entrance_loop-Taken (e ∷ entrances) closest distance =
      elim (Bool-cases (d.lt distance (d.cost here e))) [
        | inl far ↦
            let (r, which, none_closer, le) = entrance_loop-Taken entrances closest distance in
            let same : entrance_loop d here (e ∷ entrances) closest distance
                ≡ entrance_loop d here entrances closest distance =
              rw (far, entrance_loop) in
            subst (Taken (e ∷ entrances) closest distance) (sym same) (
              r,
              elim which [ inl a ↦ inl a | inr (h, q) ↦ inr (inr h, q) ],
              (order.negative_trans _ _ _ (order.asymmetric _ _ far) le, none_closer),
              le,
            )
        | inr near ↦
            let (r, which, none_closer, le) = entrance_loop-Taken entrances e (d.cost here e) in
            let same : entrance_loop d here (e ∷ entrances) closest distance
                ≡ entrance_loop d here entrances e (d.cost here e) =
              rw (near, entrance_loop) in
            subst (Taken (e ∷ entrances) closest distance) (sym same) (
              r,
              elim which [
                | inl (a, q) ↦ inr (inl (sym a), q ∙ ap (d.cost here) (sym a))
                | inr (h, q) ↦ inr (inr h, q)
              ],
              (le, none_closer),
              order.negative_trans _ _ _ near le,
            )
      ]

  -- Distances under a weak order, none of which is above infinity: for a building with an entrance,
  -- findClosestEntrance returns an entrance of it, and no entrance is closer to the user.
  pub find_closest_entrance-NoneCloser :
      (nowhere e : N) (entrances : List N)
      → ((x : N) → d.lt d.infinity (d.cost here x) ≡ false)
      → Has (e ∷ entrances) (find_closest_entrance d nowhere here (e ∷ entrances))
        × NoneCloser d here
            (e ∷ entrances)
            (d.cost here (find_closest_entrance d nowhere here (e ∷ entrances)))
  unfolding find_closest_entrance entrance_loop
  find_closest_entrance-NoneCloser nowhere e entrances finite =
      let (r, which, none_closer, le) = entrance_loop-Taken entrances e (d.cost here e) in
      let same : find_closest_entrance d nowhere here (e ∷ entrances)
          ≡ entrance_loop d here entrances e (d.cost here e) =
        rw (finite e, find_closest_entrance, entrance_loop) in
      subst
        (λ result.
          Has (e ∷ entrances) result × NoneCloser d here (e ∷ entrances) (d.cost here result))
        (sym same)
        (elim which [
          | inl (a, q) ↦ (
            inl (sym a),
            subst (NoneCloser d here (e ∷ entrances)) (q ∙ ap (d.cost here) (sym a))
                (le, none_closer),
          )
          | inr (h, q) ↦ (inr h, subst (NoneCloser d here (e ∷ entrances)) q (le, none_closer))
        ])

  -- What a run of the loop gives from a location and its distance.
  abbrev pub Chosen : N → List N → N → D → N → Type 0
  Chosen destination locations closest distance result =
      (r : D) × (((result ≡ closest) × (r ≡ distance))
        ⊎ (Has locations result
            × (is_candidate d here destination result ≡ true)
            × (r ≡ d.cost here result)
            × (d.lt r distance ≡ true)))
      × NoCandidateCloser d here destination locations r
      × (d.lt distance r ≡ false)

  later :
      (destination x : N) (locations : List N) (closest result : N) (r distance : D)
      → ((result ≡ closest) × (r ≡ distance))
        ⊎ (Has locations result
            × (is_candidate d here destination result ≡ true)
            × (r ≡ d.cost here result)
            × (d.lt r distance ≡ true))
      → ((result ≡ closest) × (r ≡ distance))
        ⊎ (Has (x ∷ locations) result
            × (is_candidate d here destination result ≡ true)
            × (r ≡ d.cost here result)
            × (d.lt r distance ≡ true))
  later destination x locations closest result r distance (inl a) = inl a
  later destination x locations closest result r distance (inr (h, c, q, l)) = inr (inr h, c, q, l)

  lt_trans : (x y z : D) → d.lt x y ≡ true → d.lt y z ≡ true → d.lt x z ≡ true
  lt_trans x y z h k = elim (Bool-cases (d.lt x z)) [
    | inl e ↦ e
    | inr e ↦ let no = order.negative_trans x z y e (order.asymmetric y z k) in cc
  ]

  closest_loop-Chosen :
      (destination : N) (locations : List N) (closest : N) (distance : D)
      → Chosen destination locations closest distance
          (closest_loop d here destination locations closest distance)
  unfolding closest_loop
  closest_loop-Chosen destination [] closest distance =
      (distance, inl (refl, refl), tt, irreflexive distance)
  closest_loop-Chosen destination (x ∷ locations) closest distance =
      let skipped = closest_loop-Chosen destination locations closest distance in
      let taken = closest_loop-Chosen destination locations x (d.cost here x) in
      elim (Bool-cases (is_candidate d here destination x)) [
        | inr no_candidate ↦
            let (r, which, none_closer, le) = skipped in
            let same : closest_loop d here destination (x ∷ locations) closest distance
                ≡ closest_loop d here destination locations closest distance =
              rw (no_candidate, closest_loop) in
            subst (Chosen destination (x ∷ locations) closest distance) (sym same) (
              r,
              later destination x locations closest _ r distance which,
              (inl no_candidate, none_closer),
              le,
            )
        | inl candidate ↦ elim (Bool-cases (d.lt (d.cost here x) distance)) [
          | inr far ↦
              let (r, which, none_closer, le) = skipped in
              let same : closest_loop d here destination (x ∷ locations) closest distance
                  ≡ closest_loop d here destination locations closest distance =
                rw (candidate, closest_loop) (rw far) in
              subst (Chosen destination (x ∷ locations) closest distance) (sym same) (
                r,
                later destination x locations closest _ r distance which,
                (inr (order.negative_trans _ _ _ far le), none_closer),
                le,
              )
          | inl near ↦
              let (r, which, none_closer, le) = taken in
              let same : closest_loop d here destination (x ∷ locations) closest distance
                  ≡ closest_loop d here destination locations x (d.cost here x) =
                rw (candidate, closest_loop) (rw near) in
              subst (Chosen destination (x ∷ locations) closest distance) (sym same) (
                r,
                elim which [
                  | inl (a, q) ↦ inr (
                    inl (sym a),
                    subst (λ y. is_candidate d here destination y ≡ true) (sym a) candidate,
                    q ∙ ap (d.cost here) (sym a),
                    subst (λ k. d.lt k distance ≡ true) (sym q) near,
                  )
                  | inr (h, c, q, l) ↦ inr (inr h, c, q, lt_trans _ _ _ l near)
                ],
                (inr le, none_closer),
                order.negative_trans _ _ _ (order.asymmetric _ _ near) le,
              )
        ]
      ]

  -- With distances under a weak order: findClosest returns the user's own location, where no
  -- candidate is nearer than the limit, or it returns a candidate that is nearer than that, and no
  -- candidate is closer to the user. A candidate is a node that is not the destination and is not
  -- farther from it than the user is.
  pub find_closest-NoCandidateCloser :
      (destination : N) (locations : List N)
      → ((find_closest d here destination locations ≡ here)
          × NoCandidateCloser d here destination locations d.limit)
        ⊎ (Has locations (find_closest d here destination locations)
            × (is_candidate d here destination (find_closest d here destination locations) ≡ true)
            × (d.lt (d.cost here (find_closest d here destination locations)) d.limit ≡ true)
            × NoCandidateCloser d here destination locations
                (d.cost here (find_closest d here destination locations)))
  unfolding find_closest
  find_closest-NoCandidateCloser destination locations =
      let (r, which, none_closer, le) = closest_loop-Chosen destination locations here d.limit in
      elim which [
        | inl (a, q) ↦ inl (a, subst (NoCandidateCloser d here destination locations) q none_closer)
        | inr (h, c, q, l) ↦ inr (
          h,
          c,
          subst (λ k. d.lt k d.limit ≡ true) q l,
          subst (NoCandidateCloser d here destination locations) q none_closer,
        )
      ]
