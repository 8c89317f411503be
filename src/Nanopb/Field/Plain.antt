-- ===== src/Nanopb/Field/Plain.antt =====
-- find_extension_field and the end of pb_decode_noinit in pb_decode.c go round the fields.
use swe_capstone.Common.{
  ℕ, zero, suc, ◌+◌, ◌-◌, ◌≤◌, ◌<◌, ◌≡◌, refl, sym, ap, subst, ◌∙◌, Bool, Bool-cases, true, false,
  inl, inr, List, Option, some, ◌==◌, ==_iff, ltb, ltb→lt, ltb→le, length, arith,
}
use swe_capstone.Nanopb.Field.{
  Field, FieldIter, current, field_at, is_extension, pb_field_iter_next,
}
use swe_capstone.Nanopb.Field.Stepping.{IsArray, iter_at, iter_at-StandsAt}
use swe_capstone.Nanopb.Field.Walk.{next_inside, next_last, current_at}
use swe_capstone.Nanopb.FieldsSeen.{seek_end}
use swe_capstone.Nanopb.DecodeMessage.{extension_search, find_extension_field}

module _ (fields : List Field) (dest : ℕ) (array : IsArray fields) where
  position_at : (j : ℕ) → j < length fields → (iter_at fields dest j).position ≡ j
  position_at j lt = (iter_at-StandsAt fields dest array j lt).position

  module _ (plain : (i : ℕ) → i < length fields → is_extension (field_at fields i).ltype ≡ false)
      (p : ℕ) (inside : p < length fields) where
    -- The end of a round, at the field `k`.
    abbrev ends_or_goes_on : ℕ → FieldIter → Option (FieldIter × Bool)
    ends_or_goes_on rounds next = elim (next.position == p) [
      | true ↦ some (next, false)
      | false ↦ extension_search rounds p next
    ]

    search_round :
        (rounds j : ℕ)
        → j < length fields
        → extension_search (suc rounds) p (iter_at fields dest j)
          ≡ ends_or_goes_on rounds (pb_field_iter_next (iter_at fields dest j)).0
    unfolding extension_search
    search_round rounds j lt =
        let no : is_extension (current (iter_at fields dest j)).ltype ≡ false =
          ap (λ field. is_extension field.ltype) (current_at fields dest array j lt) ∙ plain j lt in
        rw (no, extension_search) refl

    arrives :
        (rounds k : ℕ)
        → k < length fields
        → ((k ≡ p → ⊥)
            → extension_search rounds p (iter_at fields dest k)
              ≡ some (iter_at fields dest p, false))
        → ends_or_goes_on rounds (iter_at fields dest k) ≡ some (iter_at fields dest p, false)
    arrives rounds k lt on = elim (Bool-cases ((iter_at fields dest k).position == p)) [
      | inl e ↦
          let there : k ≡ p = sym (position_at k lt) ∙ (==_iff _ p).0 e in
          rw (e, ends_or_goes_on) (ap (λ i. some (iter_at fields dest i, false)) there)
      | inr e ↦
          rw (e, ends_or_goes_on) (on (λ there. cc (e, (==_iff _ p).1 (position_at k lt ∙ there))))
    ]

    -- Round the end of the array to the field that the search started from.
    search_plain :
        (rounds j : ℕ)
        → j < length fields
        → (j < p → p ≤ j + rounds)
        → (p ≤ j → length fields + p ≤ j + rounds)
        → extension_search rounds p (iter_at fields dest j) ≡ some (iter_at fields dest p, false)
    search_plain zero j lt before behind = absurd (elim (Bool-cases (ltb j p)) [
      | inl e ↦ omega (arith, before (ltb→lt j p e), ltb→lt j p e)
      | inr e ↦ omega (arith, behind (ltb→le j p e), ltb→le j p e)
    ])
    search_plain (suc rounds) j lt before behind =
        search_round rounds j lt ∙ (elim (Bool-cases (ltb (suc j) (length fields))) [
          | inl e ↦
              let more = ltb→lt (suc j) (length fields) e in
              subst
                (λ (r : FieldIter × Bool).
                  ends_or_goes_on rounds r.0 ≡ some (iter_at fields dest p, false))
                (sym (next_inside fields dest array j more))
                (arrives rounds (suc j) more (λ away.
                  search_plain rounds (suc j) more (λ low. omega (arith, before (omega arith)))
                    (λ high. omega (arith, behind (omega (arith, away))))))
          | inr e ↦
              let end = ltb→le (suc j) (length fields) e in
              subst
                (λ (r : FieldIter × Bool).
                  ends_or_goes_on rounds r.0 ≡ some (iter_at fields dest p, false))
                (sym (next_last fields dest array j (omega arith)))
                (arrives rounds 0 (omega arith) (λ away.
                  search_plain rounds 0 (omega arith) (λ low. omega (arith, behind (omega arith)))
                    (λ high. absurd (away (omega arith)))))
        ])

    pub find_extension_field_plain :
        find_extension_field (iter_at fields dest p) ≡ some (iter_at fields dest p, false)
    unfolding find_extension_field
    find_extension_field_plain =
        let s = iter_at-StandsAt fields dest array p inside in
        let size : length (iter_at fields dest p).start ≡ length fields = ap length s.start in
        subst
          (λ k.
            extension_search (length (iter_at fields dest p).start + 1) k (iter_at fields dest p)
            ≡ some (iter_at fields dest p, false))
          (sym s.position)
          (search_plain (length (iter_at fields dest p).start + 1) p inside
            (λ low. absurd (omega arith)) (λ high. omega (arith, size)))

  -- The loop to the end of the array, from any of its fields.
  abbrev seek_step : ℕ → FieldIter → FieldIter × Bool → Option (ℕ × Field × FieldIter)
  seek_step rounds iter (next, true) = seek_end rounds next
  seek_step rounds iter (next, false) = some (iter.required_field_index, current iter, next)

  abbrev pub at_end : Option (ℕ × Field × FieldIter)
  at_end = some (
    (iter_at fields dest (length fields - 1)).required_field_index,
    field_at fields (length fields - 1),
    iter_at fields dest 0,
  )

  pub seek_end_lem :
      (rounds j : ℕ)
      → j < length fields
      → length fields ≤ j + rounds
      → seek_end rounds (iter_at fields dest j) ≡ at_end
  unfolding seek_end
  seek_end_lem zero j lt fuel = absurd (omega arith)
  seek_end_lem (suc rounds) j lt fuel = elim (Bool-cases (ltb (suc j) (length fields))) [
    | inl e ↦
        let more = ltb→lt (suc j) (length fields) e in
        subst (λ r. seek_step rounds (iter_at fields dest j) r ≡ at_end)
          (sym (next_inside fields dest array j more))
          (seek_end_lem rounds (suc j) more (omega arith))
    | inr e ↦
        let end = ltb→le (suc j) (length fields) e in
        subst (λ r. seek_step rounds (iter_at fields dest j) r ≡ at_end)
          (sym (next_last fields dest array j (omega arith)))
          (ap (λ f. some ((iter_at fields dest j).required_field_index, f, iter_at fields dest 0))
              (current_at fields dest array j lt)
            ∙ ap
                (λ i. some (
                  (iter_at fields dest i).required_field_index,
                  field_at fields i,
                  iter_at fields dest 0,
                ))
                (omega arith))
  ]
