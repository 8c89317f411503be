-- ===== src/Nanopb/Marks.antt =====
-- The bits for required fields in pb_decode_noinit of pb_decode.c, as a set of fields.
use swe_capstone.Common.{
  ℕ, zero, suc, ◌<◌, ◌≡◌, ◌⊎◌, refl, sym, subst, Bool, Bool-cases, inl, inr, true, false, ◌&&◌,
  ◌||◌, List, [], ◌∷◌, ltb, ltb→lt, ltb→le, ◌==◌, ==_iff, arith,
}
use swe_capstone.Nanopb.Field.{FieldIter, current}
use swe_capstone.Nanopb.FieldsSeen.{max_required_fields, none_seen, is_required, mark_seen}
use swe_capstone.Nanopb.Words.{Holds, Holds-insert, Holds-same, none_seen-bit}

-- `fields_seen` after the fields at these iterators, the last one first.
abbrev pub marks : List FieldIter → List ℕ
marks [] = none_seen
marks (iter ∷ iters) = mark_seen iter (marks iters)

-- The required field of that number is one of them.
abbrev pub Seen : List FieldIter → ℕ → Type 0
Seen [] i = ⊥
Seen (iter ∷ iters) i =
    ((is_required (current iter).htype ≡ true) × (iter.required_field_index ≡ i)) ⊎ Seen iters i

-- The same as a test, and for all of the first `n` required fields.
abbrev pub seen : List FieldIter → ℕ → Bool
seen [] i = false
seen (iter ∷ iters) i =
    (is_required (current iter).htype && (iter.required_field_index == i)) || seen iters i

abbrev pub all_seen : List FieldIter → ℕ → Bool
all_seen iters zero = true
all_seen iters (suc n) = seen iters n && all_seen iters n

and_true : (a b : Bool) → (a && b) ≡ true → (a ≡ true) × (b ≡ true)
and_true true true e = (refl, refl)
and_true true false e = cc
and_true false b e = cc

and_false : (a b : Bool) → (a && b) ≡ false → a ≡ true → b ≡ false
and_false true true e here = cc
and_false true false e here = refl
and_false false b e here = cc

pub marks-Holds : (iters : List FieldIter) → Holds (Seen iters) (marks iters)
unfolding mark_seen
marks-Holds [] = record {
  low = 0;
  high = 0;
  words = refl;
  low_fits = omega arith;
  high_fits = omega arith;
  bits = λ i lt. ((λ p. absurd p), λ no. none_seen-bit i);
}
marks-Holds (iter ∷ iters) =
    let required = is_required (current iter).htype in
    let counted = ltb iter.required_field_index max_required_fields in
    let before = marks-Holds iters in
    elim (Bool-cases (required && counted)) [
      | inl e ↦
          let (yes', small) = and_true required counted e in
          let k = iter.required_field_index in
          rw e (
            Holds-same (λ i. (k ≡ i) ⊎ Seen iters i) (Seen (iter ∷ iters)) _
              (λ i lt p. elim p [ inl here ↦ inl (yes', here) | inr old ↦ inr old ])
              (λ i lt p. elim p [ inl both ↦ inl both.1 | inr old ↦ inr old ])
              (Holds-insert (Seen iters) (marks iters) k (ltb→lt k 64 small) before))
      | inr e ↦ rw e (
          Holds-same (Seen iters) (Seen (iter ∷ iters)) _ (λ i lt p. inr p)
            (λ i lt p. elim p [
              | inl both ↦ absurd (
                  omega (
                    arith,
                    both.1,
                    lt,
                    ltb→le iter.required_field_index 64 (and_false required counted e both.0),
                  ))
              | inr old ↦ old
            ])
            before)
    ]

or_true : (a b : Bool) → (a || b) ≡ true → (a ≡ true) ⊎ (b ≡ true)
or_true true b e = inl refl
or_true false b e = inr e

or_right : (a b : Bool) → b ≡ true → (a || b) ≡ true
or_right true b e = refl
or_right false b e = e

pub seen-Seen : (iters : List FieldIter) (i : ℕ) → seen iters i ≡ true → Seen iters i
seen-Seen [] i e = cc
seen-Seen (iter ∷ iters) i e =
    elim (or_true (is_required (current iter).htype && (iter.required_field_index == i)) _ e) [
      | inl here ↦
          let both = and_true (is_required (current iter).htype) _ here in
          inl (both.0, (==_iff _ i).0 both.1)
      | inr old ↦ inr (seen-Seen iters i old)
    ]

pub Seen-seen : (iters : List FieldIter) (i : ℕ) → Seen iters i → seen iters i ≡ true
Seen-seen [] i h = absurd h
Seen-seen (iter ∷ iters) i (inl both) =
    rw (both.0, (==_iff iter.required_field_index i).1 both.1) refl
Seen-seen (iter ∷ iters) i (inr old) = or_right _ _ (Seen-seen iters i old)

pub all_seen-Seen :
    (iters : List FieldIter) (n : ℕ) → all_seen iters n ≡ true → (i : ℕ) → i < n → Seen iters i
all_seen-Seen iters zero e i lt = absurd (omega arith)
all_seen-Seen iters (suc n) e i lt =
    let both = and_true (seen iters n) (all_seen iters n) e in
    elim (Bool-cases (i == n)) [
      | inl same ↦ subst (Seen iters) (sym ((==_iff i n).0 same)) (seen-Seen iters n both.0)
      | inr other ↦ all_seen-Seen iters n both.1 i (ground arith)
    ]

pub all_seen-missing :
    (iters : List FieldIter) (n : ℕ)
    → all_seen iters n ≡ false
    → (i : ℕ) × (i < n) × (Seen iters i → ⊥)
all_seen-missing iters zero e = cc
all_seen-missing iters (suc n) e = elim (Bool-cases (seen iters n)) [
  | inr missing ↦ (n, omega arith, λ h. cc (missing, Seen-seen iters n h))
  | inl there ↦
      let (i, lt, missing) = all_seen-missing iters n (and_false (seen iters n) _ e there) in
      (i, omega arith, missing)
]
