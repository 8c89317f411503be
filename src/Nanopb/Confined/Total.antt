-- ===== src/Nanopb/Confined/Total.antt =====
-- pb_decode of pb_decode.c as a whole: termination and memory safety.
use swe_capstone.Common.{ℕ, zero, suc, ◌≤◌, ◌<◌, List, arith}
use native.Mathlib.Nat.{le_refl}
use swe_capstone.Nanopb.Field.{Field}
use swe_capstone.Nanopb.DecodeState.{Decoding}
use swe_capstone.Nanopb.DecodeField.{Handlers, close_with}
use swe_capstone.Nanopb.DecodeMessage.{
  defaults, submessages_of, pb_decode_noinit, pb_decode, pb_decode_delimited,
}
use swe_capstone.Nanopb.Layout.{Layout, Layout-le}
use swe_capstone.Nanopb.Confined.{Constants, IsReady, Confined, Anyhow, Confined-then}
use swe_capstone.Nanopb.Confined.Initial.{pb_message_set_to_defaults-Confined}
use swe_capstone.Nanopb.Confined.Callbacks.{Contract}
use swe_capstone.Nanopb.Confined.Fields.{Inner}
use swe_capstone.Nanopb.Confined.Messages.{noinit_body-Confined}
use swe_capstone.Nanopb.Confined.Substreams.{on_sub, close_with-Confined, substream-Confined}

module _ {S : Type 0} (F : Type 0) (R : ℕ → Type 0) (K : Constants) (handlers : Handlers S)
    (contract : Contract F R K handlers) (nesting links : ℕ) where
  pub defaults-Confined :
      (n : ℕ) (fields : List Field) (dest : ℕ) (s : Decoding S)
      → n ≤ nesting
      → Layout F R K handlers.descriptors n fields dest
      → IsReady F R K s
      → Confined F R K (Anyhow F R K) s (defaults handlers nesting links fields dest s)
  defaults-Confined n fields dest s le h r =
      pb_message_set_to_defaults-Confined F R K handlers.descriptors nesting links fields dest s
        (Layout-le F R K handlers.descriptors n nesting fields dest le h) r

  abbrev Decodes : ℕ → ℕ → Type 0
  Decodes depth n =
      (fields : List Field) (dest : ℕ) (s : Decoding S)
      → n ≤ nesting
      → Layout F R K handlers.descriptors n fields dest
      → s.stream.bytes_left < depth
      → IsReady F R K s
      → Confined F R K (Anyhow F R K) s
          (pb_decode_noinit handlers nesting links depth fields dest s)

  -- The messages inside, one level down.
  level_down :
      (depth n : ℕ)
      → suc n ≤ nesting
      → Decodes depth n
      → Inner F R K
          (Layout F R K handlers.descriptors n)
          (submessages_of handlers nesting links (pb_decode_noinit handlers nesting links depth))
          depth
  level_down depth n le inside = record {
    decodes = λ fields dest t h lt r.
        Confined-then F R K (Anyhow F R K) (Anyhow F R K) t _ _
          (defaults-Confined n fields dest t (omega arith) h r)
          (λ x u p r' m. inside fields dest u (omega arith) h (omega (arith, m.moved.fewer)) r');
    decodes_noinit = λ fields dest t h lt r. inside fields dest t (omega arith) h lt r;
    defaults = λ fields dest t h r. defaults-Confined n fields dest t (omega arith) h r;
  }

  pb_decode_noinit-Confined : (depth n : ℕ) → Decodes depth n
  unfolding pb_decode_noinit
  pb_decode_noinit-Confined zero n fields dest s le h lt r = absurd (omega arith)
  pb_decode_noinit-Confined (suc depth) zero fields dest s le h lt r = absurd h
  pb_decode_noinit-Confined (suc depth) (suc n) fields dest s le h lt r =
      noinit_body-Confined F R K handlers contract
        (submessages_of handlers nesting links (pb_decode_noinit handlers nesting links depth))
        (Layout F R K handlers.descriptors n) links fields dest h depth
        (level_down depth n le (pb_decode_noinit-Confined depth n)) s (omega arith) r

  pub inside_Inner :
      (depth n : ℕ)
      → suc n ≤ nesting
      → Inner F R K
          (Layout F R K handlers.descriptors n)
          (submessages_of handlers nesting links (pb_decode_noinit handlers nesting links depth))
          depth
  inside_Inner depth n le = level_down depth n le (pb_decode_noinit-Confined depth n)

  pub pb_decode-Confined :
      (depth : ℕ) (fields : List Field) (dest : ℕ) (s : Decoding S)
      → Layout F R K handlers.descriptors nesting fields dest
      → s.stream.bytes_left < depth
      → IsReady F R K s
      → Confined F R K (Anyhow F R K) s (pb_decode handlers nesting links depth fields dest s)
  unfolding pb_decode
  pb_decode-Confined depth fields dest s h lt r =
      Confined-then F R K (Anyhow F R K) (Anyhow F R K) s _ _
        (defaults-Confined nesting fields dest s (le_refl _) h r)
        (λ x t p r' m.
          pb_decode_noinit-Confined depth nesting fields dest t (le_refl _) h
            (omega (arith, m.moved.fewer)) r')

  pub pb_decode_delimited-Confined :
      (depth : ℕ) (fields : List Field) (dest : ℕ) (s : Decoding S)
      → Layout F R K handlers.descriptors nesting fields dest
      → s.stream.bytes_left < depth
      → IsReady F R K s
      → Confined F R K
          (Anyhow F R K)
          s
          (pb_decode_delimited handlers nesting links depth fields dest s)
  unfolding pb_decode_delimited
  pb_decode_delimited-Confined depth fields dest s h lt r =
      substream-Confined F R K (λ sub. pb_decode handlers nesting links depth fields dest)
        close_with s r
        (λ sub t r' less.
          pb_decode-Confined depth fields dest (on_sub F R K sub t) h (omega arith) r')
        (λ status sub sub' u o a. close_with-Confined F R K status s u sub sub' r o a)

module _ {S : Type 0} (R : ℕ → Type 0) (K : Constants) (handlers : Handlers S)
    (nesting links depth : ℕ) (fields : List Field) (dest : ℕ) (s : Decoding S) where
  -- A message without extensions and with at least one field, fewer than 64 of them required, in
  -- a number that is 0 or no multiple of 32, and submessages that are the same, at most `nesting`
  -- deep; the descriptors end at PB_LAST_FIELD, and those of submessages are there. Their fields
  -- stand in a region `R` of mapped memory, and default values in mapped memory; `K` is what
  -- stands outside the region. A callback field is different: its first word stands outside the
  -- region, so that nothing overwrites it, and is NULL or the address of a function of the
  -- caller. Such a function returns, writes nothing outside the region, and takes a byte where it
  -- leaves some. A submessage of a oneof stands in the region as a whole, since it is cleared,
  -- and so it has no callback field. Then, on every stream whose limit lies within its memory and
  -- is below `depth`, pb_decode and pb_decode_delimited return: they run into no undefined
  -- behaviour and not for ever, nothing outside `R` is written, nothing gets unmapped, and the
  -- limit of the stream has not grown and still lies within its memory, on success and on every
  -- error.
  pub pb_decode-stays :
      Contract ⊥ R K handlers
      → Layout ⊥ R K handlers.descriptors nesting fields dest
      → s.stream.bytes_left < depth
      → IsReady ⊥ R K s
      → Confined ⊥ R K (Anyhow ⊥ R K) s (pb_decode handlers nesting links depth fields dest s)
        × Confined ⊥ R K
            (Anyhow ⊥ R K)
            s
            (pb_decode_delimited handlers nesting links depth fields dest s)
  pb_decode-stays contract layout lt ready = (
    pb_decode-Confined ⊥ R K handlers contract nesting links depth fields dest s layout lt ready,
    pb_decode_delimited-Confined ⊥ R K handlers contract nesting links depth fields dest s layout lt
        ready,
  )
