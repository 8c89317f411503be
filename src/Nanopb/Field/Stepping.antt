-- ===== src/Nanopb/Field/Stepping.antt =====
-- pb_field_iter_next of pb_common.c goes round the fields of a message.
use swe_capstone.Common.{
  ℕ, zero, suc, ◌+◌, ◌<◌, ◌≡◌, refl, sym, ap, subst, ◌∙◌, Bool, true, false, not, ◌&&◌, List, [],
  ◌∷◌, inl, inr, ◌==◌, length, All, arith, Bool-cases,
}
use swe_capstone.Nanopb.Field.{
  Field, FieldIter, last_field, field_at, current, is_oneof, is_extension, pb_size_max,
  pb_field_iter_begin, pb_field_iter_next,
}

-- The array ends at PB_LAST_FIELD and not before.
abbrev pub IsArray : List Field → Type 0
IsArray fields = All (λ field. (field.tag == 0) ≡ false) fields

-- A field that a search for the tag accepts.
abbrev pub accepts : ℕ → Field → Bool
accepts tag field = (field.tag == tag) && not (is_extension field.ltype)

pub tag-field_at :
    (fields : List Field) (i : ℕ)
    → IsArray fields
    → i < length fields
    → ((field_at fields i).tag == 0) ≡ false
tag-field_at [] i h lt = absurd (omega arith)
tag-field_at (x ∷ fields) zero h lt = h.0
tag-field_at (x ∷ fields) (suc i) h lt = tag-field_at fields i h.1 (omega arith)

field_at-end : (fields : List Field) → field_at fields (length fields) ≡ last_field
field_at-end [] = refl
field_at-end (x ∷ fields) = field_at-end fields

module _ (fields : List Field) (dest : ℕ) where
  -- The iterator after `i` steps from the beginning.
  unfoldable pub iter_at : ℕ → FieldIter
  iter_at zero = (pb_field_iter_begin fields dest).0
  iter_at (suc i) = (pb_field_iter_next (iter_at i)).0

  -- It stands at the field of that number.
  pub record StandsAt (i : ℕ) (iter : FieldIter) : Type 0 where
    pub start : iter.start ≡ fields
    pub dest_struct : iter.dest_struct ≡ dest
    pub position : iter.position ≡ i

  pub this_field : (i : ℕ) (iter : FieldIter) → StandsAt i iter → current iter ≡ field_at fields i
  this_field i iter s =
      ap (λ fs. field_at fs iter.position) s.start ∙ ap (field_at fields) s.position

  next_field :
      (i : ℕ) (iter : FieldIter)
      → StandsAt i iter
      → field_at iter.start (iter.position + 1) ≡ field_at fields (suc i)
  next_field i iter s =
      let after : iter.position + 1 ≡ suc i = omega (arith, s.position) in
      ap (λ fs. field_at fs (iter.position + 1)) s.start ∙ ap (field_at fields) after

  -- A step inside the array.
  pub next-StandsAt :
      IsArray fields
      → (i : ℕ) (iter : FieldIter) → StandsAt i iter
      → suc i < length fields
      → StandsAt (suc i) (pb_field_iter_next iter).0 × ((pb_field_iter_next iter).1 ≡ true)
  unfolding pb_field_iter_next
  next-StandsAt array i iter s lt =
      let here : ((current iter).tag == 0) ≡ false =
        subst (λ f. (f.tag == 0) ≡ false) (sym (this_field i iter s))
          (tag-field_at fields i array (omega arith)) in
      let there : ((field_at iter.start (iter.position + 1)).tag == 0) ≡ false =
        subst (λ f. (f.tag == 0) ≡ false) (sym (next_field i iter s))
          (tag-field_at fields (suc i) array lt) in
      let moved : iter.position + 1 ≡ suc i = omega (arith, s.position) in
      rw here (
        rw there
          (elim (Bool-cases (
            is_oneof (current iter).htype
            && (is_oneof (field_at iter.start (iter.position + 1)).htype
                && ((field_at iter.start (iter.position + 1)).data_offset == pb_size_max)))) [
                  | inl e ↦ rw e (
                    record { start = s.start; dest_struct = s.dest_struct; position = moved },
                    refl,
                  )
                  | inr e ↦ rw e (
                    record { start = s.start; dest_struct = s.dest_struct; position = moved },
                    refl,
                  )
                ]))

  -- The step from the last field goes back to the beginning.
  pub next-wraps :
      IsArray fields
      → (i : ℕ) (iter : FieldIter) → StandsAt i iter
      → suc i ≡ length fields
      → pb_field_iter_next iter ≡ ((pb_field_iter_begin fields dest).0, false)
  unfolding pb_field_iter_next
  next-wraps array i iter s last =
      let here : ((current iter).tag == 0) ≡ false =
        subst (λ f. (f.tag == 0) ≡ false) (sym (this_field i iter s))
          (tag-field_at fields i array (omega arith)) in
      let there : ((field_at iter.start (iter.position + 1)).tag == 0) ≡ true =
        subst (λ f. (f.tag == 0) ≡ true)
          (sym (next_field i iter s ∙ (ap (field_at fields) last ∙ field_at-end fields))) refl in
      rw here (rw there (cc (s.start, s.dest_struct)))

  pub iter_at-StandsAt : IsArray fields → (i : ℕ) → i < length fields → StandsAt i (iter_at i)
  unfolding iter_at pb_field_iter_begin
  iter_at-StandsAt array zero lt = record { start = refl; dest_struct = refl; position = refl }
  iter_at-StandsAt array (suc i) lt =
      (next-StandsAt array i (iter_at i) (iter_at-StandsAt array i (omega arith)) lt).0
