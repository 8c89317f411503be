-- ===== src/Nanopb/Field/Walk.antt =====
-- The iterator of pb_common.c on its way from the first field to the last.
use swe_capstone.Common.{ℕ, suc, ◌<◌, ◌≡◌, refl, ap, Bool, true, false, List, length, arith}
use swe_capstone.Nanopb.Field.{Field, current, field_at, pb_field_iter_begin, pb_field_iter_next}
use swe_capstone.Nanopb.Field.Stepping.{
  IsArray, iter_at, tag-field_at, this_field, next-StandsAt, next-wraps, iter_at-StandsAt,
}

module _ (fields : List Field) (dest : ℕ) (array : IsArray fields) where
  pub begin_inside :
      0 < length fields → pb_field_iter_begin fields dest ≡ (iter_at fields dest 0, true)
  unfolding pb_field_iter_begin iter_at
  begin_inside lt = rw (tag-field_at fields 0 array lt) refl

  pub next_inside :
      (i : ℕ)
      → suc i < length fields
      → pb_field_iter_next (iter_at fields dest i) ≡ (iter_at fields dest (suc i), true)
  unfolding iter_at
  next_inside i lt =
      let step =
        next-StandsAt fields dest array i (iter_at fields dest i)
          (iter_at-StandsAt fields dest array i (omega arith)) lt in
      ap (λ (b : Bool). ((pb_field_iter_next (iter_at fields dest i)).0, b)) step.1

  pub next_last :
      (i : ℕ)
      → suc i ≡ length fields
      → pb_field_iter_next (iter_at fields dest i) ≡ (iter_at fields dest 0, false)
  unfolding iter_at
  next_last i last =
      next-wraps fields dest array i (iter_at fields dest i)
        (iter_at-StandsAt fields dest array i (omega arith)) last

  pub current_at : (i : ℕ) → i < length fields → current (iter_at fields dest i) ≡ field_at fields i
  current_at i lt =
      this_field fields dest i (iter_at fields dest i) (iter_at-StandsAt fields dest array i lt)
