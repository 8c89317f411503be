-- ===== src/Nanopb/Safety.antt =====
-- Memory safety and termination of pb_decode.c: what every reader keeps of its stream.
pub mod Reads
pub mod Loops
pub mod Fields
pub mod Substreams
use swe_capstone.Common.{
  ℕ, ◌+◌, ◌≤◌, ◌<◌, ◌≡◌, refl, sym, ap, subst, ◌∙◌, List, Option, none, some, length, arith,
}
use native.Mathlib.Nat.{le_refl, le_trans}
use swe_capstone.Nanopb.Stream.{
  ErrorMessage, Outcome, done, failed, fault, stuck, continue, Istream, Source, memory, device,
}

-- A callback that returns true has filled the `count` bytes of its buffer.
abbrev pub Fills : ℕ → Option (List ℕ) → Type 0
Fills count none = Unit {0}
Fills count (some bytes) = length bytes ≡ count

-- What may be read lies within the memory; a callback of the caller keeps its contract.
abbrev pub Reads : {S : Type 0} → Source S → ℕ → Type 0
Reads (memory bytes) left = left ≤ length bytes
Reads {S} (device f state) left = (s : S) (count : ℕ) → Fills count (f s count).1

abbrev pub IsReadable : {S : Type 0} → Istream S → Type 0
IsReadable stream = Reads stream.source stream.bytes_left

-- No more bytes are taken from the memory than from the limit of the stream, and a callback of the
-- caller stays the same one.
abbrev pub SameSource : {S : Type 0} → Source S → ℕ → Source S → ℕ → Type 0
SameSource (memory bytes) m (memory bytes') n = length bytes + n ≤ length bytes' + m
SameSource (memory bytes) m (device f s) n = ⊥
SameSource (device f s) m (memory bytes) n = ⊥
SameSource (device f s) m (device g s') n = g ≡ f

-- A stream after some reads.
pub record Moved {S : Type 0} (start t : Istream S) : Type 0 where
  pub fewer : t.bytes_left ≤ start.bytes_left
  pub same : SameSource start.source start.bytes_left t.source t.bytes_left

-- The call returns, true with `P` or false, and the stream is as safe as it was and has moved on. The
-- call neither faults nor runs on.
abbrev pub Ends :
    {S A : Type 0} → (A → Istream S → Type 0) → Istream S → Outcome (Istream S) A → Type 0
Ends P start (done a t) = P a t × IsReadable t × Moved start t
Ends P start (failed t) = IsReadable t × Moved start t
Ends P start fault = ⊥
Ends P start stuck = ⊥

abbrev pub Any : {S A : Type 0} → A → Istream S → Type 0
Any a t = Unit {0}

-- At least one byte is taken.
abbrev pub Takes : {S A : Type 0} → Istream S → A → Istream S → Type 0
Takes start a t = t.bytes_left < start.bytes_left

SameSource-refl : {S : Type 0} (source : Source S) (n : ℕ) → SameSource source n source n
SameSource-refl (memory bytes) n = le_refl _
SameSource-refl (device f s) n = refl

SameSource-trans :
    {S : Type 0} (a b c : Source S) (l m n : ℕ)
    → SameSource a l b m
    → SameSource b m c n
    → SameSource a l c n
SameSource-trans (memory x) (memory y) (memory z) l m n h k = omega arith
SameSource-trans (memory x) (memory y) (device f s) l m n h k = k
SameSource-trans (memory x) (device f s) c l m n h k = absurd h
SameSource-trans (device f s) (memory x) c l m n h k = absurd h
SameSource-trans (device f s) (device g s') (memory x) l m n h k = k
SameSource-trans (device f s) (device g s') (device i s'') l m n h k = k ∙ h

module _ {S : Type 0} where
  pub Moved-refl : (stream : Istream S) → Moved stream stream
  Moved-refl stream = record {
    fewer = le_refl _;
    same = SameSource-refl stream.source stream.bytes_left;
  }

  -- Where an error is reported.
  pub Moved-error :
      (stream : Istream S) (e : Option ErrorMessage) → Moved stream (record stream { errmsg = e })
  Moved-error stream e = record {
    fewer = le_refl _;
    same = SameSource-refl stream.source stream.bytes_left;
  }

  pub Moved-trans : {s t u : Istream S} → Moved s t → Moved t u → Moved s u
  Moved-trans {s} {t} {u} a b = record {
    fewer = le_trans b.fewer a.fewer;
    same =
        SameSource-trans s.source t.source u.source s.bytes_left t.bytes_left u.bytes_left a.same
          b.same;
  }

module _ {S A : Type 0} where
  pub Ends-continue :
      {B : Type 0} (P : A → Istream S → Type 0) (Q : B → Istream S → Type 0) (start : Istream S)
      (o : Outcome (Istream S) A) (f : A → Istream S → Outcome (Istream S) B)
      → Ends P start o
      → ((a : A) (t : Istream S) → P a t → IsReadable t → Moved start t → Ends Q start (f a t))
      → Ends Q start (continue o f)
  Ends-continue P Q start (done a t) f h k = k a t h.0 h.1 h.2
  Ends-continue P Q start (failed t) f h k = h
  Ends-continue P Q start fault f h k = h
  Ends-continue P Q start stuck f h k = h

  -- A weaker postcondition, from an earlier stream on.
  pub Ends-weaken :
      (P Q : A → Istream S → Type 0) (start start' : Istream S) (o : Outcome (Istream S) A)
      → Ends P start' o
      → Moved start start'
      → ((a : A) (t : Istream S) → P a t → Moved start' t → Q a t)
      → Ends Q start o
  Ends-weaken P Q start start' (done a t) h m k = (k a t h.0 h.2, h.1, Moved-trans m h.2)
  Ends-weaken P Q start start' (failed t) h m k = (h.0, Moved-trans m h.1)
  Ends-weaken P Q start start' fault h m k = h
  Ends-weaken P Q start start' stuck h m k = h
