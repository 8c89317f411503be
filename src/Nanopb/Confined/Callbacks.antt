-- ===== src/Nanopb/Confined/Callbacks.antt =====
-- Callback fields: the decoder stays in its region if the callbacks of the caller do.
use swe_capstone.Common.{
  ℕ, zero, suc, ◌+◌, ◌≤◌, ◌<◌, ◌≡◌, ◌⊎◌, ◌∙◌, refl, sym, ap, subst, ==_iff, Option, List, Bool,
  Bool-cases, inl, inr, true, false, Option-cases, none, some, ◌==◌, length, arith,
}
use native.Mathlib.Nat.{le_refl}
use swe_capstone.Nanopb.Stream.{callback_failed, done, ◌>>=◌, Istream, wt_string}
use swe_capstone.Nanopb.Input.{pb_istream_from_buffer}
use swe_capstone.Nanopb.Decode.{pb_skip_field, read_raw_value}
use swe_capstone.Nanopb.Field.{Field, FieldIter, current, load}
use swe_capstone.Nanopb.EncodeMessage.{fetch}
use swe_capstone.Nanopb.DecodeState.{Decoding, get}
use swe_capstone.Nanopb.DecodeField.{
  Decoder, Handlers, Submessages, call_decoder, callback_loop, callback_end, callback_string,
  callback_scalar, decode_callback_field,
}
use swe_capstone.Nanopb.Safety.{Any}
use swe_capstone.Nanopb.Safety.Fields.{pb_skip_field-Ends, read_raw_value-Ends}
use swe_capstone.Nanopb.Confined.{
  Constants, IsReady, Confined, Anyhow, Stays-refl, Confined-then, Confined-weaken,
  on_stream-Confined, dec_error-Confined, return_status-Confined,
}
use swe_capstone.Nanopb.Confined.Bytes.{load-Confined}
use swe_capstone.Nanopb.Stored.{number, load_lem, Image-same}
use swe_capstone.Nanopb.Layout.{Word, CallbackFits}
use swe_capstone.Nanopb.Confined.Substreams.{
  Opened, Advanced, on_sub, IsReady-sub, sub_result-Confined, close_with-Confined,
  substream-Confined,
}

module _ {S : Type 0} (F : Type 0) (R : ℕ → Type 0) (K : Constants) where
  -- A callback takes a byte where it leaves some.
  abbrev pub Progress : {A : Type 0} → Decoding S → A → Decoding S → Type 0
  Progress s a t = 0 < t.stream.bytes_left → t.stream.bytes_left < s.stream.bytes_left

  -- What the decoder relies on: at the addresses of functions there are functions, and a function of
  -- the caller returns, writes only in the region, and leaves its stream readable with fewer bytes,
  -- or none.
  pub record Contract (handlers : Handlers S) : Type 0 where
    pub callable : (f : ℕ) → K.function f → handlers.decoders f ≡ none → F
    pub honest :
        (f : ℕ) (decode : Decoder S)
        → handlers.decoders f ≡ some decode
        → (field : Field) (arg : ℕ) (s : Decoding S) → IsReady F R K s
        → Confined F R K (Progress s) s (decode field arg s)

  -- The first word of a callback field does not change.
  callback_address :
      (descriptors : ℕ → Option (List Field)) (P : ℕ → Type 0) (address : ℕ) (s : Decoding S)
      → (w : Word F R K descriptors P address) → IsReady F R K s
      → get 8 address s ≡ done (number w.0) s
  callback_address descriptors P address s (word, size, image, outside, p) r =
      ap (λ n. load s.memory n address s) (sym size)
      ∙ load_lem word address s.memory s (
          Image-same word address K.memory s.memory
            (λ a le lt. r.constants a (outside a le (omega (arith, size)))) image)

  get_function-Confined :
      (descriptors : ℕ → Option (List Field)) (address : ℕ) (s : Decoding S)
      → F ⊎ Word F R K descriptors K.function address
      → IsReady F R K s
      → Confined F R K (λ f t. (t ≡ s) × (F ⊎ K.function f)) s (get 8 address s)
  get_function-Confined descriptors address s (inl x) r =
      Confined-weaken F R K (λ f t. t ≡ s) _ s s _
        (load-Confined F R K s.memory 8 address s (λ a le lt n. x) r) (Stays-refl F R K s)
        (λ f t e m. (e, inl x))
  get_function-Confined descriptors address s (inr w) r =
      rw (callback_address descriptors K.function address s w r)
        ((refl, inr w.4), r, Stays-refl F R K s)

  module _ (handlers : Handlers S) (submessages : Submessages S) (contract : Contract handlers)
      (iter : FieldIter) (calls : F ⊎ Word F R K handlers.descriptors K.function iter.p_data) where
    call_fetched :
        (f : ℕ) (s : Decoding S)
        → F ⊎ K.function f
        → IsReady F R K s
        → Confined F R K
            (Progress s)
            s
            ((fetch (handlers.decoders f) >>= λ decode. decode (current iter) (iter.p_data + 8)) s)
    call_fetched f s known r = elim (Option-cases (handlers.decoders f)) [
      | inl e ↦ rw e (elim known [ inl x ↦ x | inr there ↦ contract.callable f there e ])
      | inr (decode, e) ↦ rw e (contract.honest f decode e (current iter) (iter.p_data + 8) s r)
    ]

    call_decoder-Confined :
        (s : Decoding S)
        → IsReady F R K s
        → Confined F R K (Progress s) s (call_decoder handlers submessages iter s)
    call_decoder-Confined s r =
        Confined-then F R K (λ f t. (t ≡ s) × (F ⊎ K.function f)) (Progress s) s _ _
          (get_function-Confined handlers.descriptors iter.p_data s calls r)
          (λ f t h r' m.
            Confined-weaken F R K (Progress t) (Progress s) t t _ (call_fetched f t h.1 r')
              (Stays-refl F R K t) (λ x u p n. subst (λ v. Progress v x u) h.0 p))

    callback_loop-Confined :
        (rounds : ℕ) (s : Decoding S)
        → s.stream.bytes_left < rounds
        → IsReady F R K s
        → Confined F R K (Anyhow F R K) s (callback_loop handlers submessages rounds iter s)
    unfolding callback_loop
    callback_loop-Confined zero s lt r = absurd (omega arith)
    callback_loop-Confined (suc rounds) s lt r =
        Confined-then F R K (Progress s) (Anyhow F R K) s _ _ (call_decoder-Confined s r)
          (λ x t p r' m. elim (Bool-cases (t.stream.bytes_left == 0)) [
            | inl e ↦ rw e (tt, r', Stays-refl F R K t)
            | inr e ↦
                let some_left : 0 < t.stream.bytes_left = ground arith in
                rw e (callback_loop-Confined rounds t (omega (arith, p some_left)) r')
          ])

    callback_end-Confined :
        (status : Bool) (s u : Decoding S) (sub sub' : Istream S)
        → IsReady F R K s
        → Opened F R K s sub u
        → Advanced F R K sub sub'
        → Confined F R K (Anyhow F R K) s (callback_end handlers submessages (status, sub') u)
    unfolding callback_end
    callback_end-Confined true s u sub sub' r o a =
        close_with-Confined F R K true s u sub sub' r o a
    callback_end-Confined false s u sub sub' r o a =
        Confined-weaken F R K (Anyhow F R K) (Anyhow F R K) s u _
          (dec_error-Confined F R K (Anyhow F R K) callback_failed u o.ready) o.stays
          (λ x v p m. tt)

    callback_string-Confined :
        (s : Decoding S)
        → IsReady F R K s
        → Confined F R K (Anyhow F R K) s (callback_string handlers submessages iter s)
    unfolding callback_string
    callback_string-Confined s r =
        substream-Confined F R K
          (λ sub. callback_loop handlers submessages (sub.bytes_left + 1) iter)
          (callback_end handlers submessages) s r
          (λ sub t r' less.
            callback_loop-Confined (sub.bytes_left + 1) (on_sub F R K sub t) (omega arith) r')
          (λ status sub sub' u o a. callback_end-Confined status s u sub sub' r o a)

    callback_scalar-Confined :
        (wire_type : ℕ) (s : Decoding S)
        → IsReady F R K s
        → Confined F R K (Anyhow F R K) s (callback_scalar handlers submessages wire_type iter s)
    unfolding callback_scalar pb_istream_from_buffer
    callback_scalar-Confined wire_type s r =
        Confined-then F R K (λ bytes t. length bytes ≤ 10) (Anyhow F R K) s _ _
          (on_stream-Confined F R K (λ bytes t. length bytes ≤ 10) (read_raw_value wire_type 10) s r
            (read_raw_value-Ends wire_type 10 s.stream (omega arith) r.readable))
          (λ bytes t short r' m.
            let sub = pb_istream_from_buffer bytes (length bytes) in
            let ready = IsReady-sub F R K sub t r' (le_refl _) in
            Confined-then F R K _ (Anyhow F R K) t _ _
              (sub_result-Confined F R K sub t _ r' (
                Confined-weaken F R K (Progress (on_sub F R K sub t)) (Anyhow F R K)
                  (on_sub F R K sub t) (on_sub F R K sub t) _
                  (call_decoder-Confined (on_sub F R K sub t) ready)
                  (Stays-refl F R K (on_sub F R K sub t)) (λ x u p n. tt)))
              (λ a u p r'' n. return_status-Confined F R K (Anyhow F R K) a.0 u r'' tt))

    live_field :
        (wire_type : ℕ) (s : Decoding S)
        → IsReady F R K s
        → Confined F R K
            (Anyhow F R K)
            s
            (decode_callback_field handlers submessages wire_type iter s)
    unfolding decode_callback_field
    live_field wire_type s r =
        Confined-then F R K (λ f t. (t ≡ s) × (F ⊎ K.function f)) (Anyhow F R K) s _ _
          (get_function-Confined handlers.descriptors iter.p_data s calls r)
          (λ f t h r' m. elim (Bool-cases (f == 0)) [
            | inl z ↦ rw z (
                on_stream-Confined F R K Any (pb_skip_field wire_type) t r'
                  (pb_skip_field-Ends wire_type t.stream r'.readable))
            | inr z ↦ rw z (elim (Bool-cases (wire_type == wt_string)) [
              | inl w ↦ rw w (callback_string-Confined t r')
              | inr w ↦ rw w (callback_scalar-Confined wire_type t r')
            ])
          ])

  module _ (handlers : Handlers S) (submessages : Submessages S) (contract : Contract handlers)
      (iter : FieldIter) where
    -- The field is skipped where its callback is NULL.
    null_field :
        (wire_type : ℕ) (s : Decoding S)
        → Word F R K handlers.descriptors (λ f. f ≡ 0) iter.p_data
        → IsReady F R K s
        → Confined F R K
            (Anyhow F R K)
            s
            (decode_callback_field handlers submessages wire_type iter s)
    unfolding decode_callback_field
    null_field wire_type s w r =
        let null : (number w.0 == 0) ≡ true = (==_iff (number w.0) 0).1 w.4 in
        rw
          (
            callback_address handlers.descriptors (λ f. f ≡ 0) iter.p_data s w r,
            decode_callback_field,
          )
          (rw null (
            on_stream-Confined F R K Any (pb_skip_field wire_type) s r
              (pb_skip_field-Ends wire_type s.stream r.readable)))

    pub decode_callback_field-Confined :
        (wire_type : ℕ) (s : Decoding S)
        → CallbackFits F R K handlers.descriptors iter
        → IsReady F R K s
        → Confined F R K
            (Anyhow F R K)
            s
            (decode_callback_field handlers submessages wire_type iter s)
    decode_callback_field-Confined wire_type s (inl x) r =
        live_field handlers submessages contract iter (inl x) wire_type s r
    decode_callback_field-Confined wire_type s (inr (word, size, image, outside, inl null)) r =
        null_field wire_type s (word, size, image, outside, null) r
    decode_callback_field-Confined wire_type s (inr (word, size, image, outside, inr there)) r =
        live_field handlers submessages contract iter (inr (word, size, image, outside, there))
          wire_type s r
