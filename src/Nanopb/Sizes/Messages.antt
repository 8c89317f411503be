-- ===== src/Nanopb/Sizes/Messages.antt =====
-- pb_get_encoded_size of pb_encode.c gives the number of bytes that pb_encode writes.
use swe_capstone.Common.{
  ℕ, zero, suc, ◌+◌, ◌≡◌, refl, ap, ◌∙◌, Bool, true, false, List, some, length, arith, Bool-cases,
  inl, inr, ◌==◌,
}
use swe_capstone.Nanopb.Stream.{done, Action, Ostream}
use swe_capstone.Nanopb.Output.{pb_ostream_sizing, out_error}
use swe_capstone.Nanopb.Field.{
  Ltype, Atype, Field, FieldIter, current, pb_field_iter_begin, pb_field_iter_next,
}
use swe_capstone.Nanopb.EncodeMessage.{Encoder, Program, Messages}
use swe_capstone.Nanopb.EncodeField.{
  or_callback_error, encode_callback_field, encode_by_allocation, encode_field,
}
use swe_capstone.Nanopb.Message.{
  default_extension_encoder, encode_extension, extension_loop, encode_extension_field,
  encode_current, encode_loop, encode_from, pb_encode, pb_get_encoded_size,
}
use swe_capstone.Nanopb.Sizes.{
  IsMirror, Mirrors, Outcome-cases, stuck-Mirrors, pure-Mirrors, out_error-Mirrors, fetch-Mirrors,
  fetch-done, if-Mirrors, bind-Mirrors, bind-Mirrors_given, then-Mirrors,
}
use swe_capstone.Nanopb.Sizes.Values.{load-Mirrors}
use swe_capstone.Nanopb.Sizes.Fields.{encode_basic_field-Mirrors}

-- What the callbacks of the caller have to do: where one succeeds on a stream, it does on one that
-- counts, and writes as many bytes there.
pub record IsConsistent {S : Type 0} (program : Program S) : Type 0 where
  pub field_callbacks :
      (address : ℕ) (encode : Encoder S)
      → program.encoders address ≡ some encode
      → (field : Field) (arg : ℕ) → Mirrors (encode field arg)
  pub extension_callbacks :
      (address : ℕ) (encode : ℕ → Action (Ostream S) (Unit {0}))
      → program.extension_encoders address ≡ some encode
      → (extension : ℕ) → Mirrors (encode extension)

module _ {S : Type 0} (program : Program S) (consistent : IsConsistent program) where
  or_callback_error-Mirrors :
      (m : Action (Ostream S) (Unit {0}))
      → Mirrors m
      → Mirrors (λ stream. or_callback_error program (m stream))
  unfolding out_error
  or_callback_error-Mirrors m hm shift s t t' a mirror r = elim (Outcome-cases (m t)) [
    | inl (x, u, e) ↦
        let (s', q, mirror') = hm shift s t t' a mirror (e ∙ (rw e at r)) in (s', rw q, mirror')
    | inr (inl (u, e)) ↦ cc (rw e at r)
    | inr (inr (inl e)) ↦ cc (rw e at r)
    | inr (inr (inr e)) ↦ cc (rw e at r)
  ]

  encode_callback_field-Mirrors :
      (field : Field) (p : ℕ) → Mirrors (encode_callback_field program field p)
  unfolding encode_callback_field
  encode_callback_field-Mirrors field p =
      bind-Mirrors _ _ (load-Mirrors program.memory 8 p) (λ function.
        if-Mirrors _ _ _ (pure-Mirrors tt) (
          bind-Mirrors_given _ _ (fetch-Mirrors (program.encoders function)) (λ encode t t' r.
            or_callback_error-Mirrors _ (
              consistent.field_callbacks function encode (fetch-done _ t t' encode r) field
                (p + 8)))))

  encode_by_allocation-Mirrors :
      (messages : Messages S) (depth : ℕ) (atype : Atype) (field : Field) (p : ℕ)
      → Mirrors (encode_by_allocation program messages depth atype field p)
  encode_by_allocation-Mirrors messages depth Atype.static field p =
      encode_basic_field-Mirrors program messages depth field p
  encode_by_allocation-Mirrors messages depth Atype.pointer field p =
      encode_basic_field-Mirrors program messages depth field p
  encode_by_allocation-Mirrors messages depth Atype.callback field p =
      encode_callback_field-Mirrors field p
  encode_by_allocation-Mirrors messages depth Atype.invalid field p = out_error-Mirrors _

  pub encode_field-Mirrors :
      (messages : Messages S) (depth : ℕ) (field : Field) (p : ℕ)
      → Mirrors (encode_field program messages depth field p)
  unfolding encode_field
  encode_field-Mirrors messages depth field p =
      encode_by_allocation-Mirrors messages depth field.atype field p

  default_extension_encoder-Mirrors :
      (messages : Messages S) (depth extension : ℕ)
      → Mirrors (default_extension_encoder program messages depth extension)
  unfolding default_extension_encoder
  default_extension_encoder-Mirrors messages depth extension =
      bind-Mirrors _ _ (load-Mirrors program.memory 8 extension) (λ type.
        bind-Mirrors _ _ (load-Mirrors program.memory 8 (type + 16)) (λ arg.
          bind-Mirrors _ _ (fetch-Mirrors (program.descriptors arg)) (λ fields.
            if-Mirrors _ _ _ (encode_field-Mirrors messages depth _ (extension + 8)) (
              bind-Mirrors _ _ (load-Mirrors program.memory 8 (extension + 8))
                (encode_field-Mirrors messages depth _)))))

  encode_extension-Mirrors :
      (messages : Messages S) (depth extension : ℕ)
      → Mirrors (encode_extension program messages depth extension)
  unfolding encode_extension
  encode_extension-Mirrors messages depth extension =
      bind-Mirrors _ _ (load-Mirrors program.memory 8 extension) (λ type.
        bind-Mirrors _ _ (load-Mirrors program.memory 8 (type + 8)) (λ encode.
          if-Mirrors _ _ _ (default_extension_encoder-Mirrors messages depth extension) (
            bind-Mirrors_given _ _ (fetch-Mirrors (program.extension_encoders encode))
              (λ function t t' r.
                consistent.extension_callbacks encode function (fetch-done _ t t' function r)
                  extension))))

  extension_loop-Mirrors :
      (messages : Messages S) (depth links extension : ℕ)
      → Mirrors (extension_loop program messages depth links extension)
  unfolding extension_loop
  extension_loop-Mirrors messages depth zero extension = stuck-Mirrors
  extension_loop-Mirrors messages depth (suc links) extension =
      let rest = extension_loop-Mirrors messages depth links in
      elim (Bool-cases (extension == 0)) [
        | inl e ↦ rw (e, extension_loop) (pure-Mirrors tt)
        | inr e ↦
            rw (e, extension_loop)
              (then-Mirrors _ _ (encode_extension-Mirrors messages depth extension)
                (bind-Mirrors _ _ (load-Mirrors program.memory 8 (extension + 16)) rest))
      ]

  encode_current-Mirrors :
      (messages : Messages S) (depth links : ℕ) (type : Ltype) (field : Field) (p : ℕ)
      → Mirrors (encode_current program messages depth links type field p)
  unfolding encode_extension_field
  encode_current-Mirrors messages depth links Ltype.extension field p =
      bind-Mirrors _ _ (load-Mirrors program.memory 8 p)
        (extension_loop-Mirrors messages depth links)
  encode_current-Mirrors messages depth links _ field p =
      encode_field-Mirrors messages depth field p

  encode_loop-Mirrors :
      (messages : Messages S) (depth links rounds : ℕ) (iter : FieldIter)
      → Mirrors (encode_loop program messages depth links rounds iter)
  unfolding encode_loop
  encode_loop-Mirrors messages depth links zero iter = stuck-Mirrors
  encode_loop-Mirrors messages depth links (suc rounds) iter =
      let rest = encode_loop-Mirrors messages depth links rounds (pb_field_iter_next iter).0 in
      then-Mirrors _ _ (encode_current-Mirrors messages depth links _ (current iter) iter.p_data)
        (elim (Bool-cases (pb_field_iter_next iter).1) [
          | inl more ↦ rw more rest
          | inr end ↦ rw end (pure-Mirrors tt)
        ])

  encode_from-Mirrors :
      (messages : Messages S) (depth links rounds : ℕ) (begin : FieldIter × Bool)
      → Mirrors (encode_from program messages depth links rounds begin)
  encode_from-Mirrors messages depth links rounds (iter, true) =
      encode_loop-Mirrors messages depth links rounds iter
  encode_from-Mirrors messages depth links rounds (iter, false) = pure-Mirrors tt

  pub pb_encode-Mirrors :
      (depth links : ℕ) (fields : List Field) (src : ℕ)
      → Mirrors (pb_encode program depth links fields src)
  unfolding pb_encode
  pb_encode-Mirrors zero links fields src = stuck-Mirrors
  pb_encode-Mirrors (suc depth) links fields src =
      encode_from-Mirrors (pb_encode program depth links) depth links (length fields)
        (pb_field_iter_begin fields src)

  -- With callbacks that write as many bytes on every pass: where pb_encode succeeds on a stream to
  -- which nothing was written yet, pb_get_encoded_size succeeds for the same message, and gives the
  -- number of bytes that were written.
  pub pb_get_encoded_size-pb_encode :
      (depth links : ℕ) (fields : List Field) (src : ℕ) (t t' : Ostream S)
      → t.bytes_written ≡ 0
      → pb_encode program depth links fields src t ≡ done tt t'
      → pb_get_encoded_size program depth links fields src ≡ done t'.bytes_written tt
  unfolding pb_get_encoded_size pb_ostream_sizing
  pb_get_encoded_size-pb_encode depth links fields src t t' fresh r =
      let start : IsMirror 0 pb_ostream_sizing t = record {
        counts = refl;
        behind = omega arith;
        small = omega arith;
      } in
      let (s', q, mirror) =
        pb_encode-Mirrors depth links fields src 0 pb_ostream_sizing t t' tt start r in
      let same : s'.bytes_written ≡ t'.bytes_written = omega (arith, mirror.behind, mirror.small) in
      rw (q, pb_get_encoded_size) (ap (λ n. done n tt) same)
