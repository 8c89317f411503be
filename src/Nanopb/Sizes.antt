-- ===== src/Nanopb/Sizes.antt =====
-- The sizing pass of pb_encode.c: a run on a stream that only counts follows a run that writes.
pub mod Values
pub mod Arrays
pub mod Submessages
pub mod Fields
pub mod Messages
pub mod Prefix
use swe_capstone.Common.{
  ℕ, zero, suc, ◌+◌, ◌*◌, ◌%◌, ◌≤◌, ◌<◌, ◌≡◌, refl, ap, sym, subst, ◌∙◌, ◌⊎◌, Bool, true, false,
  List, [], ◌∷◌, Option, none, some, length, arith, ltb, Bool-cases, inl, inr, if◌then◌else◌,
}
use swe_capstone.Nanopb.Stream.{
  ErrorMessage, size_mod, Outcome, done, failed, fault, stuck, Action, ◌>>=◌, ◌>>◌, continue, pure,
  Sink, sizing, buffer, custom, Ostream,
}
use swe_capstone.Nanopb.Output.{checked_write, write_by, sink_write, pb_write, written, out_error}
use swe_capstone.Nanopb.Field.{Memory, load, load_byte}
use swe_capstone.Nanopb.EncodeMessage.{fetch, is_sizing}

-- `s` only counts, and is `shift` bytes behind `t`.
pub record IsMirror {S : Type 0} (shift : ℕ) (s t : Ostream S) : Type 0 where
  pub counts : s.sink ≡ sizing
  pub behind : (s.bytes_written + shift) % size_mod ≡ t.bytes_written
  pub small : s.bytes_written < size_mod

-- Where the action succeeds on a stream, it does with the same result on one that counts, and the
-- two have gone on by the same number of bytes.
abbrev pub Mirrors : {S A : Type 0} → Action (Ostream S) A → Type 0
Mirrors {S} {A} m =
    (shift : ℕ) (s t t' : Ostream S) (a : A)
    → IsMirror shift s t
    → m t ≡ done a t'
    → (s' : Ostream S) × (m s ≡ done a s') × IsMirror shift s' t'

pub continue-done :
    {T A B : Type 0} (o : Outcome T A) (f : A → T → Outcome T B) {b : B} {t : T}
    → continue o f ≡ done b t
    → (a : A) × (t' : T) × (o ≡ done a t') × (f a t' ≡ done b t)
continue-done (done a t') f r = (a, t', refl, r)
continue-done (failed t') f r = cc
continue-done fault f r = cc
continue-done stuck f r = cc

pub Outcome-cases :
    {T A : Type 0} (o : Outcome T A)
    → ((a : A) × (t : T) × (o ≡ done a t))
      ⊎ (((t : T) × (o ≡ failed t)) ⊎ ((o ≡ fault) ⊎ (o ≡ stuck)))
Outcome-cases (done a t) = inl (a, t, refl)
Outcome-cases (failed t) = inr (inl (t, refl))
Outcome-cases fault = inr (inr (inl refl))
Outcome-cases stuck = inr (inr (inr refl))

module _ {S A : Type 0} where
  -- An action that gives one value and leaves the stream alone.
  pub pure-Mirrors : (a : A) → Mirrors (λ (t : Ostream S). done a t)
  pure-Mirrors a shift s t t' b mirror r =
      let same : t ≡ t' = cc in
      let value : a ≡ b = cc in (s, ap (λ x. done x s) value, subst (IsMirror shift s) same mirror)

  pub fault-Mirrors : Mirrors {S = S} {A = A} (λ t. fault)
  fault-Mirrors shift s t t' b mirror r = cc

  pub stuck-Mirrors : Mirrors {S = S} {A = A} (λ t. stuck)
  stuck-Mirrors shift s t t' b mirror r = cc

  pub out_error-Mirrors : (message : ErrorMessage) → Mirrors (out_error {S = S} {A = A} message)
  unfolding out_error
  out_error-Mirrors message shift s t t' b mirror r = cc

  pub fetch-Mirrors : (o : Option A) → Mirrors {S = S} (fetch o)
  fetch-Mirrors none = fault-Mirrors
  fetch-Mirrors (some a) = pure-Mirrors a

  pub fetch-done : (o : Option A) (t t' : Ostream S) (a : A) → fetch o t ≡ done a t' → o ≡ some a
  fetch-done none t t' a r = cc
  fetch-done (some b) t t' a r = cc

  pub if-Mirrors :
      (b : Bool) (m n : Action (Ostream S) A) → Mirrors m → Mirrors n → Mirrors (if b then m else n)
  if-Mirrors true m n hm hn = hm
  if-Mirrors false m n hm hn = hn

module _ {S A B : Type 0} where
  -- The rest may use what the first part gave.
  pub bind-Mirrors_given :
      (m : Action (Ostream S) A) (f : A → Action (Ostream S) B)
      → Mirrors m
      → ((a : A) (t t' : Ostream S) → m t ≡ done a t' → Mirrors (f a))
      → Mirrors (m >>= f)
  bind-Mirrors_given m f hm hf shift s t t' b mirror r =
      let (a, t1, r1, r2) = continue-done (m t) f r in
      let (s1, q1, mirror1) = hm shift s t t1 a mirror r1 in
      let (s2, q2, mirror2) = hf a t t1 r1 shift s1 t1 t' b mirror1 r2 in (s2, rw q1 q2, mirror2)

  pub bind-Mirrors :
      (m : Action (Ostream S) A) (f : A → Action (Ostream S) B)
      → Mirrors m
      → ((a : A) → Mirrors (f a))
      → Mirrors (m >>= f)
  bind-Mirrors m f hm hf = bind-Mirrors_given m f hm (λ a _ _ _. hf a)

  pub then-Mirrors :
      (m : Action (Ostream S) A) (n : Action (Ostream S) B)
      → Mirrors m
      → Mirrors n
      → Mirrors (m >> n)
  then-Mirrors m n hm hn = bind-Mirrors m (λ _. n) hm (λ _. hn)

module _ {S : Type 0} (buf : List ℕ) (count : ℕ) where
  written-size :
      (t t' : Ostream S) (o : Outcome (Sink S) (Unit {0}))
      → written count t o ≡ done tt t'
      → t'.bytes_written ≡ (t.bytes_written + count) % size_mod
  unfolding written out_error
  written-size t t' (done x sink) r = cc
  written-size t t' (failed sink) r = cc
  written-size t t' fault r = cc
  written-size t t' stuck r = cc

  checked_write-size :
      (t t' : Ostream S)
      → checked_write buf count t ≡ done tt t'
      → t'.bytes_written ≡ (t.bytes_written + count) % size_mod
  unfolding checked_write out_error
  checked_write-size t t' r =
      elim (Bool-cases (ltb t.max_size ((t.bytes_written + count) % size_mod))) [
        | inl full ↦ cc (rw full at r)
        | inr room ↦ written-size t t' _ (rw room at r)
      ]

  pub write_by-size :
      (sink : Sink S) (t t' : Ostream S)
      → write_by sink buf count t ≡ done tt t'
      → t'.bytes_written ≡ (t.bytes_written + count) % size_mod
  unfolding write_by
  write_by-size sizing t t' r = cc
  write_by-size (buffer cells at) t t' r = checked_write-size t t' r
  write_by-size (custom f state) t t' r = checked_write-size t t' r

  -- A stream that only counts.
  pub pb_write-sizing :
      (s : Ostream S)
      → s.sink ≡ sizing
      → pb_write buf count s
        ≡ done tt (record s { bytes_written = (s.bytes_written + count) % size_mod })
  unfolding pb_write write_by
  pb_write-sizing s e = ap (λ k. write_by k buf count s) e

  -- Bytes that are written are counted.
  pub pb_write-Mirrors : Mirrors {S = S} (pb_write buf count)
  unfolding pb_write
  pb_write-Mirrors shift s t t' b mirror r =
      let size = write_by-size t.sink t t' r in
      (
        record s { bytes_written = (s.bytes_written + count) % size_mod },
        pb_write-sizing s mirror.counts,
        record {
          counts = mirror.counts;
          behind = omega (arith, mirror.behind);
          small = omega arith;
        },
      )

-- Where it succeeds, the action goes on by `size` bytes.
abbrev pub Adds : {S : Type 0} → ℕ → Action (Ostream S) (Unit {0}) → Type 0
Adds {S} size m =
    (t t' : Ostream S)
    → t.bytes_written < size_mod
    → m t ≡ done tt t'
    → t'.bytes_written ≡ (t.bytes_written + size) % size_mod

module _ {S : Type 0} where
  -- A stream that only counts is told the size of what another stream gets.
  pub told-Mirrors :
      (size : ℕ) (n : Action (Ostream S) (Unit {0}))
      → Adds size n
      → Mirrors (λ stream. if is_sizing stream.sink then pb_write [] size stream else n stream)
  told-Mirrors size n adds shift s t t' a mirror r =
      let inside : t.bytes_written < size_mod = omega (arith, mirror.behind) in
      let total : t'.bytes_written ≡ (t.bytes_written + size) % size_mod =
        elim (Bool-cases (is_sizing t.sink)) [
          | inl e ↦ write_by-size [] size t.sink t t' (unfold pb_write in rw e at r)
          | inr e ↦ adds t t' inside (rw e at r)
        ] in
      (
        record s { bytes_written = (s.bytes_written + size) % size_mod },
        ap (λ (k : Bool). if k then pb_write [] size s else n s) (ap is_sizing mirror.counts)
            ∙ pb_write-sizing [] size s mirror.counts,
        record {
          counts = mirror.counts;
          behind = omega (arith, mirror.behind);
          small = omega arith;
        },
      )
