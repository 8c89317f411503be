-- ===== src/Nanopb/Confined/Values.antt =====
-- The decoders of single values write the field and nothing else.
use swe_capstone.Common.{
  ℕ, ◌*◌, ◌%◌, ◌^◌, ◌<◌, ◌≡◌, refl, sym, subst, Bool, Bool-cases, inl, inr, true, false, ◌==◌,
  ==_iff, arith, if◌then◌else◌,
}
use swe_capstone.Nanopb.Stream.{
  ErrorMessage, Outcome, Action, ◌>>=◌, ◌>>◌, pure, Istream, invalid_data_size, integer_too_large,
}
use swe_capstone.Nanopb.Field.{Field}
use swe_capstone.Nanopb.Decode.{pb_decode_varint}
use swe_capstone.Nanopb.DecodeFixed.{pb_decode_svarint, pb_decode_fixed32, pb_decode_fixed64}
use swe_capstone.Nanopb.DecodeState.{Decoding, dec_error, put, on_stream}
use swe_capstone.Nanopb.DecodeValue.{
  cast_signed, assign_signed, assign_unsigned, assign_by_size, refuse_clamped, signed_value,
  pb_dec_varint, pb_dec_uvarint, pb_dec_svarint, pb_dec_fixed32, pb_dec_fixed64,
}
use swe_capstone.Nanopb.Safety.{Takes, Ends}
use swe_capstone.Nanopb.Safety.Loops.{pb_decode_varint-Ends}
use swe_capstone.Nanopb.Safety.Fields.{pb_decode_svarint-Ends, pb_decode_fixed-Ends}
use swe_capstone.Nanopb.Confined.{
  Constants, Covers, IsReady, Confined, Anyhow, Stays-refl, Confined-then, Confined-weaken,
  on_stream-Confined, dec_error-Confined,
}
use swe_capstone.Nanopb.Confined.Bytes.{StreamKept, put-Confined}

module _ {S : Type 0} (F : Type 0) (R : ℕ → Type 0) (K : Constants) where
  -- At least one byte of the stream is taken.
  abbrev pub TakesByte : {A : Type 0} → Decoding S → A → Decoding S → Type 0
  TakesByte s a t = t.stream.bytes_left < s.stream.bytes_left

  -- A value is read off the stream, and then it is stored.
  pub read_then :
      (m : Action (Istream S) ℕ) (f : ℕ → Action (Decoding S) (Unit {0})) (s : Decoding S)
      → IsReady F R K s
      → Ends (Takes s.stream) s.stream (m s.stream)
      → ((n : ℕ) (t : Decoding S) → IsReady F R K t → Confined F R K (Anyhow F R K) t (f n t))
      → Confined F R K (TakesByte s) s ((on_stream m >>= f) s)
  read_then m f s r h k =
      Confined-then F R K (λ n t. Takes s.stream n t.stream) (TakesByte s) s _ _
        (on_stream-Confined F R K (Takes s.stream) m s r h)
        (λ n t less r' m'.
          Confined-weaken F R K (Anyhow F R K) (TakesByte s) t t _ (k n t r') (Stays-refl F R K t)
            (λ x u q m''. omega (arith, m''.moved.fewer)))

  assign_by_size-Confined :
      (assign : ℕ → ℕ → ℕ → Action (Decoding S) ℕ) (size dest value : ℕ) (s : Decoding S)
      → ((width : ℕ) → width ≡ size → Confined F R K (Anyhow F R K) s (assign width dest value s))
      → IsReady F R K s
      → Confined F R K (Anyhow F R K) s (assign_by_size assign size dest value s)
  unfolding assign_by_size
  assign_by_size-Confined assign size dest value s h r = elim (Bool-cases (size == 8)) [
    | inl e ↦ rw e (h 8 (sym ((==_iff size 8).0 e)))
    | inr e ↦ rw e (elim (Bool-cases (size == 4)) [
      | inl e' ↦ rw e' (h 4 (sym ((==_iff size 4).0 e')))
      | inr e' ↦ rw e' (elim (Bool-cases (size == 2)) [
        | inl e'' ↦ rw e'' (h 2 (sym ((==_iff size 2).0 e'')))
        | inr e'' ↦ rw e'' (elim (Bool-cases (size == 1)) [
          | inl e1 ↦ rw e1 (h 1 (sym ((==_iff size 1).0 e1)))
          | inr e1 ↦ rw e1 (dec_error-Confined F R K (Anyhow F R K) invalid_data_size s r)
        ])
      ])
    ])
  ]

  refuse_clamped-Confined :
      (value clamped : ℕ) (s : Decoding S)
      → IsReady F R K s
      → Confined F R K (Anyhow F R K) s (refuse_clamped value clamped s)
  unfolding refuse_clamped
  refuse_clamped-Confined value clamped s r = elim (Bool-cases (clamped == value)) [
    | inl e ↦ rw e (tt, r, Stays-refl F R K s)
    | inr e ↦ rw e (dec_error-Confined F R K (Anyhow F R K) integer_too_large s r)
  ]

  -- The store of a cast, and the check of it.
  assign-Confined :
      (cast : ℕ → ℕ) (size dest value width : ℕ) (s : Decoding S)
      → Covers R dest size
      → IsReady F R K s
      → width ≡ size
      → Confined F R K (Anyhow F R K) s ((put width dest value >> pure (cast width)) s)
  assign-Confined cast size dest value width s c r e =
      Confined-then F R K (StreamKept F R K s) (Anyhow F R K) s _ _
        (put-Confined F R K width dest value s (subst (Covers R dest) (sym e) c) r)
        (λ x t h r' m. (tt, r', Stays-refl F R K t))

  assign_checked-Confined :
      (assign : ℕ → ℕ → ℕ → Action (Decoding S) ℕ) (size dest value : ℕ) (s : Decoding S)
      → ((width : ℕ) → width ≡ size → Confined F R K (Anyhow F R K) s (assign width dest value s))
      → IsReady F R K s
      → Confined F R K
          (Anyhow F R K)
          s
          ((assign_by_size assign size dest value >>= refuse_clamped value) s)
  assign_checked-Confined assign size dest value s h r =
      Confined-then F R K (Anyhow F R K) (Anyhow F R K) s _ _
        (assign_by_size-Confined assign size dest value s h r)
        (λ clamped t p r' m. refuse_clamped-Confined value clamped t r')

  -- A choice of errors before the bytes are read.
  pub refuse_if :
      (c : Bool) (message : ErrorMessage) (m : Action (Decoding S) (Unit {0})) (s : Decoding S)
      → IsReady F R K s
      → (c ≡ false → Confined F R K (Anyhow F R K) s (m s))
      → Confined F R K (Anyhow F R K) s ((if c then dec_error message else m) s)
  refuse_if true message m s r k = dec_error-Confined F R K (Anyhow F R K) message s r
  refuse_if false message m s r k = k refl

  pub anyhow :
      (s : Decoding S) (o : Outcome (Decoding S) (Unit {0}))
      → Confined F R K (StreamKept F R K s) s o
      → Confined F R K (Anyhow F R K) s o
  anyhow s o h =
      Confined-weaken F R K (StreamKept F R K s) (Anyhow F R K) s s o h (Stays-refl F R K s)
        (λ x u p m. tt)

  module _ (field : Field) (dest : ℕ) (covers : Covers R dest field.data_size) where
    pub pb_dec_varint-Confined :
        (s : Decoding S)
        → IsReady F R K s
        → Confined F R K (TakesByte s) s (pb_dec_varint field dest s)
    unfolding pb_dec_varint
    pb_dec_varint-Confined s r =
        read_then pb_decode_varint _ s r (pb_decode_varint-Ends s.stream r.readable) (λ value t r'.
          let svalue = signed_value field.data_size value in
          assign_checked-Confined assign_signed field.data_size dest svalue t
            (λ width e.
              assign-Confined (λ w. cast_signed w svalue) field.data_size dest svalue width t covers
                r' e)
            r')

    pub pb_dec_uvarint-Confined :
        (s : Decoding S)
        → IsReady F R K s
        → Confined F R K (TakesByte s) s (pb_dec_uvarint field dest s)
    unfolding pb_dec_uvarint
    pb_dec_uvarint-Confined s r =
        read_then pb_decode_varint _ s r (pb_decode_varint-Ends s.stream r.readable) (λ value t r'.
          assign_checked-Confined assign_unsigned field.data_size dest value t
            (λ width e.
              assign-Confined (λ w. value % 2 ^ (8 * w)) field.data_size dest value width t covers
                r' e)
            r')

    pub pb_dec_svarint-Confined :
        (s : Decoding S)
        → IsReady F R K s
        → Confined F R K (TakesByte s) s (pb_dec_svarint field dest s)
    unfolding pb_dec_svarint
    pb_dec_svarint-Confined s r =
        read_then pb_decode_svarint _ s r (pb_decode_svarint-Ends s.stream r.readable)
          (λ value t r'.
            assign_checked-Confined assign_signed field.data_size dest value t
              (λ width e.
                assign-Confined (λ w. cast_signed w value) field.data_size dest value width t covers
                  r' e)
              r')

  module _ (field : Field) (dest : ℕ) where
    pub pb_dec_fixed32-Confined :
        (s : Decoding S)
        → Covers R dest 4
        → IsReady F R K s
        → Confined F R K (TakesByte s) s (pb_dec_fixed32 field dest s)
    unfolding pb_dec_fixed32
    pb_dec_fixed32-Confined s c r =
        read_then pb_decode_fixed32 _ s r (pb_decode_fixed-Ends s.stream r.readable).0
          (λ value t r'. anyhow t _ (put-Confined F R K 4 dest value t c r'))

    pub pb_dec_fixed64-Confined :
        (s : Decoding S)
        → Covers R dest 8
        → IsReady F R K s
        → Confined F R K (TakesByte s) s (pb_dec_fixed64 field dest s)
    unfolding pb_dec_fixed64
    pb_dec_fixed64-Confined s c r =
        read_then pb_decode_fixed64 _ s r (pb_decode_fixed-Ends s.stream r.readable).1
          (λ value t r'. anyhow t _ (put-Confined F R K 8 dest value t c r'))
