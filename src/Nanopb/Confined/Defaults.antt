-- ===== src/Nanopb/Confined/Defaults.antt =====
-- The default values of a message stay in the region of its layout.
use swe_capstone.Common.{
  sym, ◌∙◌, ℕ, ◌+◌, ◌≤◌, ◌<◌, ◌≡◌, ◌≢◌, refl, Bool-cases, inl, inr, not, List, Option, none, some,
  ◌==◌, ==_iff, if◌then◌else◌,
}
use swe_capstone.Nanopb.Stream.{Outcome, Action, continue, ◌>>=◌, ◌>>◌, pure}
use swe_capstone.Nanopb.Field.{Ltype, Htype, Field, FieldIter}
use swe_capstone.Nanopb.EncodeMessage.{fetch}
use swe_capstone.Nanopb.DecodeState.{Decoding, put, memset_zero, memcpy}
use swe_capstone.Nanopb.Defaults.{
  is_counted, message_defaults, init_data, static_default, pointer_default,
}
use swe_capstone.Nanopb.Layout.{Reads, ItemFits, InitFits, StaticFits, PointerFits}
use swe_capstone.Nanopb.Confined.{
  Constants, Covers, IsReady, Confined, Anyhow, Stays-refl, Confined-then,
}
use swe_capstone.Nanopb.Confined.Bytes.{
  StreamKept, put-Confined, memset_zero-Confined, memcpy-Confined,
}
use swe_capstone.Nanopb.Confined.Values.{anyhow}

module _ {S : Type 0} (F : Type 0) (R : ℕ → Type 0) (K : Constants)
    (descriptors : ℕ → Option (List Field)) where
  -- A fetch of the descriptor of a message inside.
  pub fetch-Confined :
      {B : Type 0} (Q : B → Decoding S → Type 0) (o : Option (List Field))
      (f : List Field → Action (Decoding S) B) (s : Decoding S)
      → (o ≡ none → F)
      → ((fields : List Field) → o ≡ some fields → Confined F R K Q s (f fields s))
      → Confined F R K Q s ((fetch o >>= f) s)
  fetch-Confined Q none f s n k = n refl
  fetch-Confined Q (some fields) f s n k = k fields refl

  -- Two calls whose values do not matter.
  pub both-Confined :
      (s : Decoding S) (o : Outcome (Decoding S) (Unit {0})) (k : Action (Decoding S) (Unit {0}))
      → Confined F R K (StreamKept F R K s) s o
      → ((t : Decoding S) → IsReady F R K t → Confined F R K (Anyhow F R K) t (k t))
      → Confined F R K (Anyhow F R K) s (continue o (λ x. k))
  both-Confined s o k h f =
      Confined-then F R K (StreamKept F R K s) (Anyhow F R K) s _ _ h (λ x t e r' n. f t r')

  module _ (set_to_default : FieldIter → Action (Decoding S) (Unit {0}))
      (Within : List Field → ℕ → Type 0)
      (inside : (fields : List Field) (dest : ℕ) (s : Decoding S)
        → Within fields dest
        → IsReady F R K s
        → Confined F R K
            (Anyhow F R K)
            s
            (message_defaults descriptors set_to_default fields dest s)) where
    zeros_or_constant :
        (field : Field) (address : ℕ) (s : Decoding S)
        → Covers R address field.data_size
        → (field.ptr ≢ 0
            → (a : ℕ) → field.ptr ≤ a
            → a < field.ptr + field.data_size
            → Reads F R K descriptors a)
        → IsReady F R K s
        → Confined F R K (Anyhow F R K) s (
            (if not (field.ptr == 0)
                then memcpy address field.ptr field.data_size
                else memset_zero address field.data_size)
              s)
    zeros_or_constant field address s c k r = elim (Bool-cases (field.ptr == 0)) [
      | inl e ↦ rw e (anyhow F R K s _ (memset_zero-Confined F R K address field.data_size s c r))
      | inr e ↦ rw e (
          anyhow F R K s _ (
            memcpy-Confined F R K address field.ptr field.data_size s c
              (λ a le lt n. elim (k (λ z. cc (e, (==_iff field.ptr 0).1 z)) a le lt) [
                | inl inside ↦ r.writable a inside n
                | inr (out, there) ↦ there (sym (r.constants a out) ∙ n)
              ])
              r))
    ]

    init_data-Confined :
        (ltype : Ltype) (field : Field) (address : ℕ) (s : Decoding S)
        → InitFits F R K descriptors ltype field address
        → ItemFits F R K descriptors Within ltype field address
        → IsReady F R K s
        → Confined F R K
            (Anyhow F R K)
            s
            (init_data descriptors set_to_default ltype field address s)
    unfolding init_data
    init_data-Confined Ltype.submessage field address s i h r =
        fetch-Confined (Anyhow F R K) (descriptors field.ptr) _ s h.0
          (λ fields e. inside fields address s (h.1 fields e) r)
    init_data-Confined Ltype.varint field address s i h r =
        zeros_or_constant field address s i.0 i.1 r
    init_data-Confined Ltype.uvarint field address s i h r =
        zeros_or_constant field address s i.0 i.1 r
    init_data-Confined Ltype.svarint field address s i h r =
        zeros_or_constant field address s i.0 i.1 r
    init_data-Confined Ltype.fixed32 field address s i h r =
        zeros_or_constant field address s i.0 i.1 r
    init_data-Confined Ltype.fixed64 field address s i h r =
        zeros_or_constant field address s i.0 i.1 r
    init_data-Confined Ltype.bytes field address s i h r =
        zeros_or_constant field address s i.0 i.1 r
    init_data-Confined Ltype.string field address s i h r =
        zeros_or_constant field address s i.0 i.1 r
    init_data-Confined Ltype.extension field address s i h r =
        zeros_or_constant field address s i.0 i.1 r
    init_data-Confined Ltype.fixed_length_bytes field address s i h r =
        zeros_or_constant field address s i.0 i.1 r

    pub static_default-Confined :
        (htype : Htype) (field : Field) (iter : FieldIter) (s : Decoding S)
        → StaticFits F R K descriptors Within htype field iter
        → IsReady F R K s
        → Confined F R K
            (Anyhow F R K)
            s
            (static_default descriptors set_to_default htype field iter s)
    unfolding static_default
    static_default-Confined Htype.required field iter s (i, h) r =
        init_data-Confined field.ltype field iter.p_data s i h r
    static_default-Confined Htype.optional field iter s (o, i, h) r =
        elim (Bool-cases (iter.p_size == iter.p_data)) [
          | inl e ↦ rw e (init_data-Confined field.ltype field iter.p_data s i h r)
          | inr e ↦ rw e (
              both-Confined s _ _
                (put-Confined F R K 1 iter.p_size 0 s
                  (o (λ z. cc (e, (==_iff iter.p_size iter.p_data).1 z))) r)
                (λ t r'. init_data-Confined field.ltype field iter.p_data t i h r'))
        ]
    static_default-Confined Htype.repeated field iter s (c, h) r =
        anyhow F R K s _ (put-Confined F R K 4 iter.p_size 0 s c r)
    static_default-Confined Htype.oneof field iter s (c, m, h) r =
        anyhow F R K s _ (put-Confined F R K 4 iter.p_size 0 s c r)

    pub pointer_default-Confined :
        (field : Field) (iter : FieldIter) (s : Decoding S)
        → PointerFits F R K descriptors field.htype iter
        → IsReady F R K s
        → Confined F R K (Anyhow F R K) s (pointer_default descriptors field iter s)
    unfolding pointer_default
    pointer_default-Confined field iter s h r = go field.htype h
      where
        null :
            Covers R iter.p_data 8 → Confined F R K (StreamKept F R K s) s (put 8 iter.p_data 0 s)
        null c = put-Confined F R K 8 iter.p_data 0 s c r

        both :
            Covers R iter.p_data 8 × Covers R iter.p_size 4
            → Confined F R K (Anyhow F R K) s ((put 8 iter.p_data 0 >> put 4 iter.p_size 0) s)
        both c =
            both-Confined s _ _ (null c.0)
              (λ t r'. anyhow F R K t _ (put-Confined F R K 4 iter.p_size 0 t c.1 r'))

        alone :
            Covers R iter.p_data 8
            → Confined F R K (Anyhow F R K) s ((put 8 iter.p_data 0 >> pure tt) s)
        alone c = both-Confined s _ _ (null c) (λ t r'. (tt, r', Stays-refl F R K t))

        go :
            (htype : Htype)
            → PointerFits F R K descriptors htype iter
            → Confined F R K (Anyhow F R K) s (
                (put 8 iter.p_data 0 >> (if is_counted htype then put 4 iter.p_size 0 else pure tt))
                  s)
        go Htype.required c = alone c
        go Htype.optional c = alone c
        go Htype.repeated c = both c
        go Htype.oneof c = both c
