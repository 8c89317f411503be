-- ===== src/Nanopb/Confined/Initial.antt =====
-- pb_message_set_to_defaults of pb_decode.c stays in the region of the layout, and ends.
use swe_capstone.Common.{
  ℕ, zero, suc, ◌+◌, ◌<◌, ◌≡◌, sym, subst, Bool-cases, inl, inr, List, Option, ltb, ltb→lt, ltb→le,
  length, arith,
}
use swe_capstone.Nanopb.Stream.{Outcome, Action}
use swe_capstone.Nanopb.Field.{Atype, Field, FieldIter, field_at}
use swe_capstone.Nanopb.Field.Stepping.{IsArray, iter_at}
use swe_capstone.Nanopb.Field.Walk.{begin_inside, next_inside, next_last, current_at}
use swe_capstone.Nanopb.DecodeState.{Decoding}
use swe_capstone.Nanopb.Defaults.{
  defaults_loop, message_defaults, default_by_allocation, default_by_type, pb_field_set_to_default,
  pb_message_set_to_defaults,
}
use swe_capstone.Nanopb.Layout.{FieldFits, MessageFits, Layout}
use swe_capstone.Nanopb.Confined.{Constants, IsReady, Confined, Anyhow, Stays-refl, Confined-then}
use swe_capstone.Nanopb.Confined.Defaults.{static_default-Confined, pointer_default-Confined}

module _ {S : Type 0} (F : Type 0) (R : ℕ → Type 0) (K : Constants)
    (descriptors : ℕ → Option (List Field)) where
  abbrev Stops : Decoding S → Outcome (Decoding S) (Unit {0}) → Type 0
  Stops s o = Confined F R K (Anyhow F R K) s o

  -- What pb_message_set_to_defaults does for the messages inside.
  abbrev Inside : (FieldIter → Action (Decoding S) (Unit {0})) → (List Field → ℕ → Type 0) → Type 0
  Inside set_to_default Within =
      (fields : List Field) (dest : ℕ) (s : Decoding S)
      → Within fields dest
      → IsReady F R K s
      → Stops s (message_defaults descriptors set_to_default fields dest s)

  by_allocation :
      (set_to_default : FieldIter → Action (Decoding S) (Unit {0}))
      (Within : List Field → ℕ → Type 0)
      → Inside set_to_default Within
      → (atype : Atype) (field : Field) (iter : FieldIter) (s : Decoding S)
      → FieldFits F R K descriptors Within atype field iter
      → IsReady F R K s
      → Stops s (default_by_allocation descriptors set_to_default atype field iter s)
  by_allocation set Within inside Atype.static field iter s h r =
      static_default-Confined F R K descriptors set Within inside field.htype field iter s h r
  by_allocation set Within inside Atype.pointer field iter s h r =
      pointer_default-Confined F R K descriptors set Within inside field iter s h r
  by_allocation set Within inside Atype.callback field iter s h r = (tt, r, Stays-refl F R K s)
  by_allocation set Within inside Atype.invalid field iter s h r = (tt, r, Stays-refl F R K s)

  module _ (one_default : FieldIter → Action (Decoding S) (Unit {0})) (fields : List Field)
      (dest : ℕ) (array : IsArray fields)
      (one : (i : ℕ) (s : Decoding S)
        → i < length fields
        → IsReady F R K s
        → Stops s (one_default (iter_at fields dest i) s)) where
    -- The fields from the one at `i` on.
    loop-Confined :
        (rounds i : ℕ) (s : Decoding S)
        → i < length fields
        → i + rounds ≡ length fields
        → IsReady F R K s
        → Stops s (defaults_loop descriptors one_default rounds (iter_at fields dest i) s)
    unfolding defaults_loop iter_at
    loop-Confined zero i s lt e r = absurd (omega arith)
    loop-Confined (suc rounds) i s lt e r =
        Confined-then F R K (Anyhow F R K) (Anyhow F R K) s _ _ (one i s lt r) (λ x t p r' n.
          elim (Bool-cases (ltb (suc i) (length fields))) [
            | inl more ↦
                let inside = ltb→lt (suc i) (length fields) more in
                rw (next_inside fields dest array i inside)
                  (loop-Confined rounds (suc i) t inside (omega arith) r')
            | inr end ↦
                let last = ltb→le (suc i) (length fields) end in
                rw (next_last fields dest array i (omega arith)) (tt, r', Stays-refl F R K t)
          ])

    message_defaults-Confined :
        (s : Decoding S)
        → 0 < length fields
        → IsReady F R K s
        → Stops s (message_defaults descriptors one_default fields dest s)
    unfolding message_defaults
    message_defaults-Confined s lt r =
        rw (begin_inside fields dest array lt)
          (loop-Confined (length fields) 0 s lt (omega arith) r)

  -- One field of a message whose layout is known.
  field_default-Confined :
      (nesting links : ℕ) (fields : List Field) (dest : ℕ)
      → MessageFits F R K descriptors (Layout F R K descriptors nesting) fields dest
      → Inside
          (pb_field_set_to_default descriptors nesting links)
          (Layout F R K descriptors nesting)
      → (i : ℕ) (s : Decoding S) → i < length fields
      → IsReady F R K s
      → Stops s (pb_field_set_to_default descriptors (suc nesting) links (iter_at fields dest i) s)
  unfolding pb_field_set_to_default default_by_type
  field_default-Confined nesting links fields dest m inside i s lt r =
      subst
        (λ field. Stops s (
          default_by_type descriptors (pb_field_set_to_default descriptors nesting links) links
            field (iter_at fields dest i) s))
        (sym (current_at fields dest m.array i lt))
        (rw (m.plain i lt) (
          by_allocation (pb_field_set_to_default descriptors nesting links)
            (Layout F R K descriptors nesting) inside (field_at fields i).atype (field_at fields i)
            (iter_at fields dest i) s (m.fits i lt) r))

  -- Where a message has a layout of some depth, that much fuel is enough for
  -- pb_message_set_to_defaults: it returns, and writes nothing outside the layout.
  pub pb_message_set_to_defaults-Confined :
      (nesting links : ℕ) (fields : List Field) (dest : ℕ) (s : Decoding S)
      → Layout F R K descriptors nesting fields dest
      → IsReady F R K s
      → Stops s (pb_message_set_to_defaults descriptors nesting links fields dest s)
  unfolding pb_message_set_to_defaults
  pb_message_set_to_defaults-Confined zero links fields dest s m r = absurd m
  pb_message_set_to_defaults-Confined (suc nesting) links fields dest s m r =
      message_defaults-Confined (pb_field_set_to_default descriptors (suc nesting) links) fields
        dest m.array
        (field_default-Confined nesting links fields dest m
          (pb_message_set_to_defaults-Confined nesting links))
        s m.nonempty r
