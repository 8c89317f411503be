-- ===== src/Nanopb/Field/Finding.antt =====
-- pb_field_iter_find of pb_common.c finds a field by its tag from wherever the iterator stands.
use swe_capstone.Common.{
  ℕ, zero, suc, ◌+◌, ◌≤◌, ◌<◌, ◌≡◌, ◌≢◌, refl, sym, ap, subst, ◌∙◌, Bool, true, false, List, Option,
  some, ◌⊎◌, inl, inr, ◌==◌, ==_iff, ltb, ltb→lt, ltb→le, length, arith, Bool-cases,
}
use swe_capstone.Nanopb.Field.{
  Field, FieldIter, field_at, current, pb_field_iter_begin, pb_field_iter_next, find_loop,
  pb_field_iter_find,
}
use swe_capstone.Nanopb.Field.Stepping.{
  IsArray, accepts, iter_at, this_field, next-wraps, iter_at-StandsAt,
}

false-true : false ≡ true → ⊥
false-true e = cc

module _ (tag start : ℕ) (rounds : ℕ) (iter : FieldIter) where
  find_round_accepts :
      accepts tag (current iter) ≡ true → find_loop (suc rounds) tag start iter ≡ some (iter, true)
  unfolding find_loop
  find_round_accepts e = rw (e, find_loop)

  find_round_ends :
      accepts tag (current iter) ≡ false
      → ((pb_field_iter_next iter).0.position == start) ≡ true
      → find_loop (suc rounds) tag start iter ≡ some ((pb_field_iter_next iter).0, false)
  unfolding find_loop
  find_round_ends e back = rw (e, find_loop) (rw back)

  find_round_next :
      accepts tag (current iter) ≡ false
      → ((pb_field_iter_next iter).0.position == start) ≡ false
      → find_loop (suc rounds) tag start iter
        ≡ find_loop rounds tag start (pb_field_iter_next iter).0
  unfolding find_loop
  find_round_next e back = rw (e, find_loop) (rw back)

module _ (fields : List Field) (dest tag p : ℕ) (array : IsArray fields)
    (inside : p < length fields) where
  -- The fields from `lo` on, below `hi`, are not accepted.
  abbrev pub Rejected : ℕ → ℕ → Type 0
  Rejected lo hi = (i : ℕ) → lo ≤ i → i < hi → accepts tag (field_at fields i) ≡ false

  Rejected-suc :
      (lo hi : ℕ) → Rejected lo hi → accepts tag (field_at fields hi) ≡ false → Rejected lo (suc hi)
  Rejected-suc lo hi h e i le lt = elim (Bool-cases (i == hi)) [
    | inl same ↦ subst (λ k. accepts tag (field_at fields k) ≡ false) (sym ((==_iff i hi).0 same)) e
    | inr other ↦ h i le (ground arith)
  ]

  -- What a search is to give: a field that is accepted, or the field that it started from where
  -- none is.
  abbrev pub Finds : Option (FieldIter × Bool) → Type 0
  Finds result =
      (q : ℕ) × (found : Bool) × (result ≡ some (iter_at fields dest q, found))
      × (q < length fields)
      × (((found ≡ true) × (accepts tag (field_at fields q) ≡ true))
          ⊎ ((found ≡ false) × (q ≡ p) × Rejected 0 (length fields)))

  here_at : (j : ℕ) → j < length fields → current (iter_at fields dest j) ≡ field_at fields j
  here_at j lt =
      this_field fields dest j (iter_at fields dest j) (iter_at-StandsAt fields dest array j lt)

  found_here :
      (rounds j : ℕ)
      → j < length fields
      → accepts tag (field_at fields j) ≡ true
      → Finds (find_loop (suc rounds) tag p (iter_at fields dest j))
  found_here rounds j lt e = (
    j,
    true,
    find_round_accepts tag p rounds _ (ap (accepts tag) (here_at j lt) ∙ e),
    lt,
    inl (refl, e),
  )

  not_here :
      (j : ℕ)
      → j < length fields
      → accepts tag (field_at fields j) ≡ false
      → accepts tag (current (iter_at fields dest j)) ≡ false
  not_here j lt e = ap (accepts tag) (here_at j lt) ∙ e

  position_at :
      (j : ℕ)
      → suc j < length fields
      → (pb_field_iter_next (iter_at fields dest j)).0.position ≡ suc j
  unfolding iter_at
  position_at j lt = (iter_at-StandsAt fields dest array (suc j) lt).position

  -- After the end of the array, up to the field that the search started from.
  find_before :
      (rounds j : ℕ)
      → j < p
      → p ≤ j + rounds
      → Rejected p (length fields)
      → Rejected 0 j
      → Finds (find_loop rounds tag p (iter_at fields dest j))
  unfolding iter_at
  find_before zero j lt fuel behind before = absurd (omega arith)
  find_before (suc rounds) j lt fuel behind before =
      elim (Bool-cases (accepts tag (field_at fields j))) [
        | inl e ↦ found_here rounds j (omega arith) e
        | inr e ↦
            let more = Rejected-suc 0 j before e in
            let place = position_at j (omega arith) in
            elim (Bool-cases ((pb_field_iter_next (iter_at fields dest j)).0.position == p)) [
              | inl back ↦
                  let reached : suc j ≡ p = sym place ∙ (==_iff _ p).0 back in
                  (
                    suc j,
                    false,
                    find_round_ends tag p rounds _ (not_here j (omega arith) e) back,
                    omega arith,
                    inr (
                      refl,
                      reached,
                      λ i le l. elim (Bool-cases (ltb i p)) [
                        | inl low ↦ more i (omega arith) (omega (arith, ltb→lt i p low))
                        | inr high ↦ behind i (ltb→le i p high) l
                      ],
                    ),
                  )
              | inr on ↦
                  let away : suc j ≢ p = λ r. false-true ((sym on) ∙ (==_iff _ p).1 (place ∙ r)) in
                  subst Finds (sym (find_round_next tag p rounds _ (not_here j (omega arith) e) on))
                    (find_before rounds (suc j) (omega arith) (omega arith) behind more)
            ]
      ]

  -- Where the iterator goes from the last field.
  wrapped :
      (j : ℕ)
      → suc j ≡ length fields
      → (pb_field_iter_next (iter_at fields dest j)).0 ≡ iter_at fields dest 0
  unfolding iter_at
  wrapped j last =
      ap (λ r. r.0)
        (next-wraps fields dest array j (iter_at fields dest j)
          (iter_at-StandsAt fields dest array j (omega arith)) last)

  begin_position : (iter_at fields dest 0).position ≡ 0
  unfolding iter_at pb_field_iter_begin
  begin_position = refl

  -- The round at the last field, after which the search goes on from the beginning.
  find_wraps :
      (rounds j : ℕ)
      → suc j ≡ length fields
      → p ≤ rounds
      → Rejected p (suc j)
      → accepts tag (field_at fields j) ≡ false
      → Finds (find_loop (suc rounds) tag p (iter_at fields dest j))
  find_wraps rounds j last fuel behind e =
      let start = wrapped j last in
      let all_behind = subst (Rejected p) last behind in
      let place : (pb_field_iter_next (iter_at fields dest j)).0.position ≡ 0 =
        ap (λ (it : FieldIter). it.position) start ∙ begin_position in
      elim (Bool-cases ((pb_field_iter_next (iter_at fields dest j)).0.position == p)) [
        | inl back ↦
            let reached : 0 ≡ p = sym place ∙ (==_iff _ p).0 back in
            (
              0,
              false,
              find_round_ends tag p rounds _ (not_here j (omega arith) e) back
                  ∙ ap (λ it. some (it, false)) start,
              omega arith,
              inr (refl, reached, λ i le l. all_behind i (omega arith) l),
            )
        | inr on ↦
            let away : 0 ≢ p = λ r. false-true ((sym on) ∙ (==_iff _ p).1 (place ∙ r)) in
            subst Finds
              (sym (
                find_round_next tag p rounds _ (not_here j (omega arith) e) on
                ∙ ap (find_loop rounds tag p) start))
              (find_before rounds 0 (omega arith) (omega arith) all_behind
                (λ i le l. absurd (omega arith)))
      ]

  -- From the field that the search started from to the end of the array.
  find_behind :
      (rounds j : ℕ)
      → p ≤ j
      → j < length fields
      → length fields + p ≤ j + rounds
      → Rejected p j
      → Finds (find_loop rounds tag p (iter_at fields dest j))
  unfolding iter_at
  find_behind zero j le lt fuel behind = absurd (omega arith)
  find_behind (suc rounds) j le lt fuel behind =
      let rest = find_behind rounds (suc j) in
      elim (Bool-cases (accepts tag (field_at fields j))) [
        | inl e ↦ found_here rounds j lt e
        | inr e ↦ elim (Bool-cases (ltb (suc j) (length fields))) [
          | inr end ↦
              let over = ltb→le (suc j) (length fields) end in
              find_wraps rounds j (omega arith) (omega arith) (Rejected-suc p j behind e) e
          | inl more ↦
              let room = ltb→lt (suc j) (length fields) more in
              let place = position_at j room in
              let on : ((pb_field_iter_next (iter_at fields dest j)).0.position == p) ≡ false =
                ground (arith, place) in
              subst Finds (sym (find_round_next tag p rounds _ (not_here j lt e) on))
                (rest (omega arith) room (omega arith) (Rejected-suc p j behind e))
        ]
      ]

  -- In a field array that ends at its PB_LAST_FIELD, from the iterator after `p` steps,
  -- pb_field_iter_find ends; it gives the iterator after some number of steps from the beginning,
  -- pointers included. Either it returns true, and that iterator stands at a field with the tag
  -- that is no extension, or it returns false and stands where it started, and no field of the
  -- array is such a field.
  pub pb_field_iter_find_lem : Finds (pb_field_iter_find tag (iter_at fields dest p))
  unfolding pb_field_iter_find
  pb_field_iter_find_lem =
      let s = iter_at-StandsAt fields dest array p inside in
      let size : length (iter_at fields dest p).start ≡ length fields = ap length s.start in
      subst
        (λ k.
          Finds
            (find_loop (length (iter_at fields dest p).start + 1) tag k (iter_at fields dest p)))
        (sym s.position)
        (find_behind (length (iter_at fields dest p).start + 1) p (omega arith) inside
          (omega (arith, size)) (λ i le l. absurd (omega arith)))
