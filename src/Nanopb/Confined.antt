-- ===== src/Nanopb/Confined.antt =====
-- What the message decoder of pb_decode.c may touch: a region of the memory, and its stream.
pub mod Bytes
pub mod Values
pub mod Texts
pub mod Defaults
pub mod Initial
pub mod Substreams
pub mod Arrays
pub mod Callbacks
pub mod Fields
pub mod Rules
pub mod Required
pub mod Messages
pub mod Total
pub mod Nesting
use swe_capstone.Common.{ℕ, ◌+◌, ◌≤◌, ◌<◌, ◌≡◌, refl, ◌∙◌, Bool, true, false, none}
use swe_capstone.Nanopb.Stream.{
  ErrorMessage, Outcome, done, failed, fault, stuck, Action, continue, Istream,
}
use swe_capstone.Nanopb.Input.{in_error}
use swe_capstone.Nanopb.Field.{Memory}
use swe_capstone.Nanopb.DecodeState.{
  Decoding, on_result, on_stream, dec_error, sub_result, on_substream, return_status, in_any_case,
}
use swe_capstone.Nanopb.Safety.{IsReadable, Moved, Moved-refl, Moved-error, Moved-trans, Ends}

-- All `size` bytes from the address on lie in the region.
abbrev pub Covers : (ℕ → Type 0) → ℕ → ℕ → Type 0
Covers R address size = (a : ℕ) → address ≤ a → a < address + size → R a

-- What stands outside the region that is written, and which numbers are addresses of functions.
pub record Constants : Type 1 where
  pub memory : Memory
  pub function : ℕ → Type 0

-- A region of the memory `R` that is written, what is constant `K`, and what follows where a byte of
-- the region is not mapped: ⊥ says that all bytes are, and with the unit type nothing is said.
module _ {S : Type 0} (F : Type 0) (R : ℕ → Type 0) (K : Constants) where
  -- From one state to a later one: nothing changes outside the region.
  pub record Stays (s t : Decoding S) : Type 0 where
    pub kept : (a : ℕ) → ¬ R a → t.memory a ≡ s.memory a
    pub mapped : (a : ℕ) → t.memory a ≡ none → s.memory a ≡ none
    pub moved : Moved s.stream t.stream

  -- A state that the decoder may start from.
  pub record IsReady (s : Decoding S) : Type 0 where
    pub writable : (a : ℕ) → R a → s.memory a ≡ none → F
    pub constants : (a : ℕ) → ¬ R a → s.memory a ≡ K.memory a
    pub readable : IsReadable s.stream

  -- The call returns, true with `P` or false, and stays in its region. It does not run on, and a
  -- fault is as good as an unmapped byte of the region.
  abbrev pub Confined :
      {A : Type 0} → (A → Decoding S → Type 0) → Decoding S → Outcome (Decoding S) A → Type 0
  Confined P s (done a t) = P a t × IsReady t × Stays s t
  Confined P s (failed t) = IsReady t × Stays s t
  Confined P s fault = F
  Confined P s stuck = ⊥

  abbrev pub Anyhow : {A : Type 0} → A → Decoding S → Type 0
  Anyhow a t = Unit {0}

  pub Stays-refl : (s : Decoding S) → Stays s s
  Stays-refl s = record { kept = λ a h. refl; mapped = λ a e. e; moved = Moved-refl s.stream }

  pub Stays-trans : {s t u : Decoding S} → Stays s t → Stays t u → Stays s u
  Stays-trans a b = record {
    kept = λ i h. b.kept i h ∙ a.kept i h;
    mapped = λ i e. a.mapped i (b.mapped i e);
    moved = Moved-trans a.moved b.moved;
  }

  module _ {A : Type 0} where
    pub Confined-weaken :
        (P Q : A → Decoding S → Type 0) (s t : Decoding S) (o : Outcome (Decoding S) A)
        → Confined P t o
        → Stays s t
        → ((a : A) (u : Decoding S) → P a u → Stays t u → Q a u)
        → Confined Q s o
    Confined-weaken P Q s t (done a u) h m k = (k a u h.0 h.2, h.1, Stays-trans m h.2)
    Confined-weaken P Q s t (failed u) h m k = (h.0, Stays-trans m h.1)
    Confined-weaken P Q s t fault h m k = h
    Confined-weaken P Q s t stuck h m k = h

  module _ {A : Type 0} where
    -- A call, then another that is seen from the start as well.
    pub Confined-continue :
        {B : Type 0} (P : A → Decoding S → Type 0) (Q : B → Decoding S → Type 0) (s : Decoding S)
        (o : Outcome (Decoding S) A) (f : A → Decoding S → Outcome (Decoding S) B)
        → Confined P s o
        → ((a : A) (t : Decoding S) → P a t → IsReady t → Stays s t → Confined Q s (f a t))
        → Confined Q s (continue o f)
    Confined-continue P Q s (done a t) f h k = k a t h.0 h.1 h.2
    Confined-continue P Q s (failed t) f h k = h
    Confined-continue P Q s fault f h k = h
    Confined-continue P Q s stuck f h k = h

    -- A call, then another from where it stopped.
    pub Confined-then :
        {B : Type 0} (P : A → Decoding S → Type 0) (Q : B → Decoding S → Type 0) (s : Decoding S)
        (o : Outcome (Decoding S) A) (f : A → Decoding S → Outcome (Decoding S) B)
        → Confined P s o
        → ((a : A) (t : Decoding S) → P a t → IsReady t → Stays s t → Confined Q t (f a t))
        → Confined Q s (continue o f)
    Confined-then P Q s (done a t) f h k =
        Confined-weaken Q Q s t (f a t) (k a t h.0 h.1 h.2) h.2 (λ b u q m. q)
    Confined-then P Q s (failed t) f h k = h
    Confined-then P Q s fault f h k = h
    Confined-then P Q s stuck f h k = h

    on_result-Confined :
        (P : A → Istream S → Type 0) (s t : Decoding S) (o : Outcome (Istream S) A)
        → IsReady t
        → Stays s t
        → Ends P s.stream o
        → Confined (λ a u. P a u.stream) s (on_result t.memory o)
    on_result-Confined P s t (done a u) r m h = (
      h.0,
      record { writable = r.writable; constants = r.constants; readable = h.1 },
      record { kept = m.kept; mapped = m.mapped; moved = h.2 },
    )
    on_result-Confined P s t (failed u) r m h = (
      record { writable = r.writable; constants = r.constants; readable = h.0 },
      record { kept = m.kept; mapped = m.mapped; moved = h.1 },
    )
    on_result-Confined P s t fault r m h = absurd h
    on_result-Confined P s t stuck r m h = h

    -- A call on the stream alone.
    pub on_stream-Confined :
        (P : A → Istream S → Type 0) (m : Action (Istream S) A) (s : Decoding S)
        → IsReady s
        → Ends P s.stream (m s.stream)
        → Confined (λ a t. P a t.stream) s (on_stream m s)
    on_stream-Confined P m s r h = on_result-Confined P s s (m s.stream) r (Stays-refl s) h

    -- The same, seen from an earlier state.
    pub on_stream_later :
        (P : A → Istream S → Type 0) (m : Action (Istream S) A) (s t : Decoding S)
        → IsReady t
        → Stays s t
        → Ends P s.stream (m t.stream)
        → Confined (λ a u. P a u.stream) s (on_stream m t)
    on_stream_later P m s t r n h = on_result-Confined P s t (m t.stream) r n h

    pub dec_error-Confined :
        (P : A → Decoding S → Type 0) (message : ErrorMessage) (s : Decoding S)
        → IsReady s
        → Confined P s (dec_error message s)
    unfolding in_error
    dec_error-Confined P message s r = (
      record { writable = r.writable; constants = r.constants; readable = r.readable },
      record { kept = λ i n. refl; mapped = λ i e. e; moved = Moved-error s.stream _ },
    )

  -- `status = m; k; return status;`
  pub in_any_case-Confined :
      (P : Unit {0} → Decoding S → Type 0) (s : Decoding S) (o : Outcome (Decoding S) (Unit {0}))
      (k : Action (Decoding S) (Unit {0}))
      → Confined P s o
      → ((t : Decoding S) → IsReady t → Confined (λ x u. u.stream ≡ t.stream) t (k t))
      → ((t u : Decoding S) → P tt t → u.stream ≡ t.stream → P tt u)
      → Confined P s (in_any_case o k)
  in_any_case-Confined P s (done x t) k h f g =
      Confined-weaken (λ y u. u.stream ≡ t.stream) P s t (k t) (f t h.1) h.2
        (λ y u e m. g t u h.0 e)
  in_any_case-Confined P s (failed t) k h f g =
      Confined-then (λ x u. u.stream ≡ t.stream) P s (k t) _
        (Confined-weaken _ _ s t (k t) (f t h.0) h.1 (λ x u e m. e))
        (λ x u e r m. (r, Stays-refl u))
  in_any_case-Confined P s fault k h f g = h
  in_any_case-Confined P s stuck k h f g = h

  pub return_status-Confined :
      (P : Unit {0} → Decoding S → Type 0) (status : Bool) (s : Decoding S)
      → IsReady s
      → P tt s
      → Confined P s (return_status status s)
  return_status-Confined P true s r p = (p, r, Stays-refl s)
  return_status-Confined P false s r p = (r, Stays-refl s)
