-- ===== src/Nanopb/DecodeState.antt =====
-- What the message decoder of pb_decode.c works on: the memory that it writes, and a stream.
use swe_capstone.Common.{
  ℕ, zero, suc, ◌+◌, ◌/◌, ◌%◌, Bool, true, false, List, [], ◌∷◌, none, some, ◌==◌, if◌then◌else◌,
}
use swe_capstone.Nanopb.Stream.{
  ErrorMessage, Outcome, done, failed, fault, stuck, Action, ◌>>=◌, ◌>>◌, pure, Istream,
}
use swe_capstone.Nanopb.Input.{in_error, pb_read}
use swe_capstone.Nanopb.Field.{Memory, load, load_byte}

pub record Decoding (S : Type 0) : Type 0 where
  pub memory : Memory
  pub stream : Istream S

-- One byte more is written; nothing else changes.
abbrev pub set_byte : ℕ → ℕ → Memory → Memory
set_byte address b memory a = if a == address then some b else memory a

-- A number in `width` bytes, the lowest first.
abbrev pub bytes_of : ℕ → ℕ → List ℕ
bytes_of zero value = []
bytes_of (suc width) value = value % 256 ∷ bytes_of width (value / 256)

abbrev pub zeros : ℕ → List ℕ
zeros zero = []
zeros (suc count) = 0 ∷ zeros count

module _ {S : Type 0} where
  -- A call that works on the stream alone.
  abbrev pub on_result : {A : Type 0} → Memory → Outcome (Istream S) A → Outcome (Decoding S) A
  on_result memory (done a stream) = done a (record { memory = memory; stream = stream })
  on_result memory (failed stream) = failed (record { memory = memory; stream = stream })
  on_result memory fault = fault
  on_result memory stuck = stuck

  abbrev pub on_stream : {A : Type 0} → Action (Istream S) A → Action (Decoding S) A
  on_stream m state = on_result state.memory (m state.stream)

  abbrev pub dec_error : {A : Type 0} → ErrorMessage → Action (Decoding S) A
  dec_error message = on_stream (in_error message)

  -- A call on another stream: whether it returned true, and that stream after it.
  abbrev pub sub_result :
      Istream S → Outcome (Decoding S) (Unit {0}) → Outcome (Decoding S) (Bool × Istream S)
  sub_result stream (done x sub) =
      done (true, sub.stream) (record { memory = sub.memory; stream = stream })
  sub_result stream (failed sub) =
      done (false, sub.stream) (record { memory = sub.memory; stream = stream })
  sub_result stream fault = fault
  sub_result stream stuck = stuck

  abbrev pub on_substream :
      Action (Decoding S) (Unit {0}) → Istream S → Action (Decoding S) (Bool × Istream S)
  on_substream m substream state = sub_result state.stream (m (record state { stream = substream }))

  -- `return status;`
  abbrev pub return_status : Bool → Action (Decoding S) (Unit {0})
  return_status true = pure tt
  return_status false = failed

  -- `status = m; k; return status;`
  abbrev pub in_any_case :
      Outcome (Decoding S) (Unit {0})
      → Action (Decoding S) (Unit {0})
      → Outcome (Decoding S) (Unit {0})
  in_any_case (done x state) k = k state
  in_any_case (failed state) k = (k >> failed) state
  in_any_case fault k = fault
  in_any_case stuck k = stuck

  abbrev pub get_byte : ℕ → Action (Decoding S) ℕ
  get_byte address state = load_byte state.memory address state

  abbrev pub get : ℕ → ℕ → Action (Decoding S) ℕ
  get width address state = load state.memory width address state

  abbrev pub put_byte : ℕ → ℕ → Action (Decoding S) (Unit {0})
  put_byte address b state = elim (state.memory address) [
    | none ↦ fault
    | some old ↦ done tt (record state { memory = set_byte address b state.memory })
  ]

  unfoldable pub put_bytes : List ℕ → ℕ → Action (Decoding S) (Unit {0})
  put_bytes [] address = pure tt
  put_bytes (b ∷ bytes) address = put_byte address b >> put_bytes bytes (address + 1)

  -- `*(uintN_t*)address = value`
  abbrev pub put : ℕ → ℕ → ℕ → Action (Decoding S) (Unit {0})
  put width address value = put_bytes (bytes_of width value) address

  unfoldable pub get_bytes : ℕ → ℕ → Action (Decoding S) (List ℕ)
  get_bytes zero address = pure []
  get_bytes (suc count) address =
      get_byte address >>= λ b. get_bytes count (address + 1) >>= λ bytes. pure (b ∷ bytes)

  abbrev pub memset_zero : ℕ → ℕ → Action (Decoding S) (Unit {0})
  memset_zero address count = put_bytes (zeros count) address

  abbrev pub memcpy : ℕ → ℕ → ℕ → Action (Decoding S) (Unit {0})
  memcpy to from count = get_bytes count from >>= λ bytes. put_bytes bytes to

  -- pb_read into memory. A callback of the caller that returns false has written nothing there.
  abbrev pub read_into : ℕ → ℕ → Action (Decoding S) (Unit {0})
  read_into count address = on_stream (pb_read count) >>= λ bytes. put_bytes bytes address
