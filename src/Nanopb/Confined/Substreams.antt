-- ===== src/Nanopb/Confined/Substreams.antt =====
-- What is decoded from a substream stays in its region, and the parent goes on behind it.
use swe_capstone.Common.{ℕ, ◌<◌, ◌≡◌, refl, sym, subst, Bool, arith}
use swe_capstone.Nanopb.Stream.{Outcome, done, failed, fault, stuck, Action, ◌>>=◌, Istream}
use swe_capstone.Nanopb.Substream.{pb_make_string_substream, pb_close_string_substream}
use swe_capstone.Nanopb.DecodeState.{Decoding, on_stream, sub_result, on_substream}
use swe_capstone.Nanopb.DecodeField.{close_with}
use swe_capstone.Nanopb.Safety.{IsReadable, Moved, Moved-refl, Takes}
use swe_capstone.Nanopb.Safety.Substreams.{
  Shared, pb_make_string_substream-Ends, pb_close_string_substream-Ends,
}
use swe_capstone.Nanopb.Confined.{
  Constants, Stays, IsReady, Confined, Anyhow, Confined-then, Confined-weaken, Confined-continue,
  on_stream-Confined, on_stream_later, return_status-Confined,
}

module _ {S : Type 0} (F : Type 0) (R : ℕ → Type 0) (K : Constants) where
  -- A substream was made of the stream that `s` has; now the state is `u`.
  pub record Opened (s : Decoding S) (sub : Istream S) (u : Decoding S) : Type 0 where
    pub ready : IsReady F R K u
    pub stays : Stays F R K s u
    pub shared : Shared s.stream sub u.stream

  -- The substream after some reads.
  pub record Advanced (sub sub' : Istream S) : Type 0 where
    pub readable : IsReadable sub'
    pub moved : Moved sub sub'

  abbrev pub on_sub : Istream S → Decoding S → Decoding S
  on_sub sub t = record t { stream = sub }

  pub IsReady-sub :
      (sub : Istream S) (t : Decoding S)
      → IsReady F R K t
      → IsReadable sub
      → IsReady F R K (on_sub sub t)
  IsReady-sub sub t r h = record { writable = r.writable; constants = r.constants; readable = h }

  pub sub_result-Confined :
      (sub : Istream S) (t : Decoding S) (o : Outcome (Decoding S) (Unit {0}))
      → IsReady F R K t
      → Confined F R K (Anyhow F R K) (on_sub sub t) o
      → Confined F R K
          (λ (r : Bool × Istream S) u. (u.stream ≡ t.stream) × Advanced sub r.1)
          t
          (sub_result t.stream o)
  sub_result-Confined sub t (done x u) r h = (
    (refl, record { readable = h.1.readable; moved = h.2.moved }),
    record { writable = h.1.writable; constants = h.1.constants; readable = r.readable },
    record { kept = h.2.kept; mapped = h.2.mapped; moved = Moved-refl t.stream },
  )
  sub_result-Confined sub t (failed u) r h = (
    (refl, record { readable = h.0.readable; moved = h.1.moved }),
    record { writable = h.0.writable; constants = h.0.constants; readable = r.readable },
    record { kept = h.1.kept; mapped = h.1.mapped; moved = Moved-refl t.stream },
  )
  sub_result-Confined sub t fault r h = h
  sub_result-Confined sub t stuck r h = h

  -- The substream is closed.
  pub close_with-Confined :
      (status : Bool) (s u : Decoding S) (sub sub' : Istream S)
      → IsReady F R K s
      → Opened s sub u
      → Advanced sub sub'
      → Confined F R K (Anyhow F R K) s (close_with (status, sub') u)
  unfolding close_with
  close_with-Confined status s u sub sub' r o a =
      Confined-then F R K (λ x t. Takes s.stream x t.stream) (Anyhow F R K) s _ _
        (on_stream_later F R K (Takes s.stream) (pb_close_string_substream sub') s u o.ready o.stays
          (pb_close_string_substream-Ends s.stream sub u.stream r.readable o.ready.readable
            o.stays.moved o.shared sub' a.moved a.readable))
        (λ x t less r' m. return_status-Confined F R K (Anyhow F R K) status t r' tt)

  -- What is done on a substream, and what comes after it.
  pub substream-Confined :
      (m : Istream S → Action (Decoding S) (Unit {0}))
      (k : Bool × Istream S → Action (Decoding S) (Unit {0})) (s : Decoding S)
      → IsReady F R K s
      → ((sub : Istream S) (t : Decoding S)
          → IsReady F R K (on_sub sub t)
          → sub.bytes_left < s.stream.bytes_left
          → Confined F R K (Anyhow F R K) (on_sub sub t) (m sub (on_sub sub t)))
      → ((status : Bool) (sub sub' : Istream S) (u : Decoding S)
          → Opened s sub u
          → Advanced sub sub'
          → Confined F R K (Anyhow F R K) s (k (status, sub') u))
      → Confined F R K
          (Anyhow F R K)
          s
          ((on_stream pb_make_string_substream >>= λ sub. on_substream (m sub) sub >>= k) s)
  substream-Confined m k s r f g =
      Confined-continue F R K (λ sub t. Shared s.stream sub t.stream) (Anyhow F R K) s _ _
        (on_stream-Confined F R K (Shared s.stream) pb_make_string_substream s r
          (pb_make_string_substream-Ends s.stream r.readable))
        (λ sub t shared r' n.
          let all =
            sub_result-Confined sub t (m sub (on_sub sub t)) r'
              (f sub t (IsReady-sub sub t r' shared.sub_readable) (omega (arith, shared.fewer))) in
          Confined-continue F R K
            (λ (a : Bool × Istream S) u. (u.stream ≡ t.stream) × Advanced sub a.1) (Anyhow F R K) s
            _ _ (Confined-weaken F R K _ _ s t _ all n (λ a u p m'. p))
            (λ a u p r'' n'.
              g a.0 sub a.1 u
                (record {
                  ready = r'';
                  stays = n';
                  shared = subst (Shared s.stream sub) (sym p.0) shared;
                })
                p.1))
