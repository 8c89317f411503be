-- ===== src/Nanopb/Safety/Substreams.antt =====
-- Memory safety of the substreams: pb_make_string_substream and pb_close_string_substream.
use swe_capstone.Common.{
  ℕ, ◌+◌, ◌-◌, ◌≤◌, ◌<◌, ◌≡◌, refl, sym, ap, subst, ◌∙◌, arith, ltb, ◌==◌, Bool-cases, inl, inr,
  ltb→le, ==_iff, some,
}
use swe_capstone.Nanopb.Stream.{
  Outcome, done, failed, fault, stuck, Istream, Source, memory, device,
}
use swe_capstone.Nanopb.Input.{in_error}
use swe_capstone.Nanopb.Substream.{
  limit_substream, pb_make_string_substream, adopt_state, adopt, closed, pb_close_string_substream,
}
use swe_capstone.Nanopb.Safety.{
  Fills, IsReadable, Reads, SameSource, Moved, Moved-error, Moved-trans, Ends, Ends-continue, Takes,
}
use swe_capstone.Nanopb.Safety.Loops.{Skips, pb_read_null-Ends, pb_decode_varint32-Ends}

module _ {S : Type 0} where
  -- The substream reads from the place of its parent, and together they may read less than the
  -- parent could before.
  pub record Shared (start sub t : Istream S) : Type 0 where
    pub sub_readable : IsReadable sub
    pub fewer : sub.bytes_left + t.bytes_left < start.bytes_left
    pub shared : t.source ≡ sub.source
    pub same : SameSource start.source start.bytes_left sub.source (sub.bytes_left + t.bytes_left)

  Reads-le : (source : Source S) (m n : ℕ) → Reads source n → m ≤ n → Reads source m
  Reads-le (memory bytes) m n h le = omega arith
  Reads-le (device f state) m n h le = h

  SameSource-le : (a b : Source S) (m n k : ℕ) → SameSource a m b n → k ≤ n → SameSource a m b k
  SameSource-le (memory x) (memory y) m n k h le = omega arith
  SameSource-le (memory x) (device f s) m n k h le = h
  SameSource-le (device f s) (memory x) m n k h le = h
  SameSource-le (device f s) (device g s') m n k h le = h

  limit_substream-Ends :
      (size : ℕ) (start stream : Istream S)
      → stream.bytes_left < start.bytes_left
      → IsReadable stream
      → Moved start stream
      → Ends (Shared start) start (limit_substream size stream)
  unfolding limit_substream in_error
  limit_substream-Ends size start stream less h m = elim (Bool-cases (ltb stream.bytes_left size)) [
    | inl e ↦ rw e (h, Moved-trans m (Moved-error stream _))
    | inr e ↦
        let le = ltb→le stream.bytes_left size e in
        let whole : size + (stream.bytes_left - size) ≡ stream.bytes_left = omega arith in
        let rest : stream.bytes_left - size ≤ stream.bytes_left = omega arith in
        rw e (
          record {
            sub_readable = Reads-le stream.source size stream.bytes_left h le;
            fewer = omega arith;
            shared = refl;
            same =
                subst (SameSource start.source start.bytes_left stream.source) (sym whole) m.same;
          },
          Reads-le stream.source (stream.bytes_left - size) stream.bytes_left h rest,
          record {
            fewer = omega arith;
            same = SameSource-le start.source stream.source start.bytes_left _ _ m.same rest;
          },
        )
  ]

  -- On every stream whose limit lies within its memory, or whose callback fills what it reports as
  -- read: pb_make_string_substream returns without a fault. Where it returns true, the substream
  -- and the parent are streams of the same kind at the same place, the limit of each lies within
  -- the memory, and the two limits together are below that of the parent before.
  pub pb_make_string_substream-Ends :
      (stream : Istream S)
      → IsReadable stream
      → Ends (Shared stream) stream (pb_make_string_substream stream)
  unfolding pb_make_string_substream
  pb_make_string_substream-Ends stream h =
      Ends-continue (Takes stream) (Shared stream) stream _ limit_substream
        (pb_decode_varint32-Ends stream h)
        (λ size t p r m. limit_substream-Ends size stream t p r m)

  -- The end of the substream, seen from the stream before.
  close_source :
      (a b c : Source S) (l k m n : ℕ)
      → SameSource a l b (m + n)
      → SameSource b m c k
      → k ≡ 0
      → SameSource a l c n
  close_source (memory x) (memory y) (memory z) l k m n h i e = omega arith
  close_source (memory x) (memory y) (device f s) l k m n h i e = i
  close_source (memory x) (device f s) c l k m n h i e = absurd h
  close_source (device f s) (memory x) c l k m n h i e = absurd h
  close_source (device f s) (device g s') (memory x) l k m n h i e = i
  close_source (device f s) (device g s') (device j s'') l k m n h i e = i ∙ h

  -- The parent can use the state of its substream.
  adopt_state-same : (b c : Source S) (m k : ℕ) → SameSource b m c k → adopt_state b c ≡ some c
  unfolding adopt_state
  adopt_state-same (memory x) (memory y) m k h = refl
  adopt_state-same (memory x) (device f s) m k h = absurd h
  adopt_state-same (device f s) (memory x) m k h = absurd h
  adopt_state-same (device f s) (device g s') m k h = ap (λ i. some (device i s')) (sym h)

  Reads-SameSource : (a b : Source S) (m n : ℕ) → Reads a m → SameSource a m b n → n ≤ m → Reads b n
  Reads-SameSource (memory x) (memory y) m n h i le = omega arith
  Reads-SameSource (memory x) (device f s) m n h i le = absurd i
  Reads-SameSource (device f s) (memory x) m n h i le = absurd i
  Reads-SameSource (device f s) (device g s') m n h i le =
      subst (λ f. (s : S) (count : ℕ) → Fills count (f s count).1) (sym i) h

  module _ (start sub t : Istream S) (readable : IsReadable start) (t_readable : IsReadable t)
      (t_moved : Moved start t) (split : Shared start sub t) where
    adopt-Ends :
        (sub' : Istream S)
        → Moved sub sub'
        → sub'.bytes_left ≡ 0
        → Ends (Takes start) start (adopt sub' t)
    unfolding adopt
    adopt-Ends sub' m e =
        let same =
          close_source start.source sub.source sub'.source start.bytes_left sub'.bytes_left
            sub.bytes_left t.bytes_left split.same m.same e in
        let less : t.bytes_left < start.bytes_left = omega (arith, split.fewer) in
        let use_state : adopt_state t.source sub'.source ≡ some sub'.source =
          ap (λ s. adopt_state s sub'.source) split.shared
          ∙ adopt_state-same sub.source sub'.source sub.bytes_left sub'.bytes_left m.same in
        rw (use_state, adopt)
          (
            less,
            Reads-SameSource start.source sub'.source start.bytes_left t.bytes_left readable same
                (omega arith),
            record { fewer = omega arith; same = same },
          )

    closed-Ends :
        (sub' : Istream S) (o : Outcome (Istream S) (Unit {0}))
        → Moved sub sub'
        → Ends (Skips sub'.bytes_left sub') sub' o
        → Ends (Takes start) start (closed o t)
    unfolding closed
    closed-Ends sub' (done x u) m h = adopt-Ends u (Moved-trans m h.2) (omega (arith, h.0))
    closed-Ends sub' (failed u) m h = (t_readable, t_moved)
    closed-Ends sub' fault m h = h
    closed-Ends sub' stuck m h = h

    pub pb_close_string_substream-Ends :
        (sub' : Istream S)
        → Moved sub sub'
        → IsReadable sub'
        → Ends (Takes start) start (pb_close_string_substream sub' t)
    unfolding pb_close_string_substream
    pb_close_string_substream-Ends sub' m h = elim (Bool-cases (sub'.bytes_left == 0)) [
      | inl e ↦ rw e (adopt-Ends sub' m ((==_iff _ 0).0 e))
      | inr e ↦ rw e (closed-Ends sub' _ m (pb_read_null-Ends sub'.bytes_left sub' h))
    ]
