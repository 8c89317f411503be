-- ===== src/Nanopb/Stream.antt =====
-- The stream types of pb_encode.h and pb_decode.h, and what a C call on a stream may do.
use swe_capstone.Common.{ℕ, ◌^◌, Bool, List, Option, none, some}

-- The texts that PB_RETURN_ERROR stores.
pub data ErrorMessage : Type 0 where
  stream_full io_error end_of_stream varint_overflow invalid_wire_type parent_too_short :
      ErrorMessage
  submsg_size_changed invalid_field_type array_overflow bytes_overflow : ErrorMessage
  bytes_size_exceeded invalid_data_size integer_too_large string_overflow : ErrorMessage
  array_max_size_exceeded missing_required_field callback_error : ErrorMessage
  invalid_field_descriptor : ErrorMessage
  size_too_large no_malloc_support incorrect_fixed_length_size callback_failed : ErrorMessage

-- size_t has 64 bits.
abbrev pub size_mod : ℕ
size_mod = 2 ^ 64

-- What a C function does on a state: `done` is `return true` with the values of its out
-- parameters, `failed` is `return false`, `fault` is what C leaves undefined: an access outside
-- memory, or a shift of a word by all its bits. `stuck` is no behaviour of the code: the fuel of a
-- loop of the model ran out.
pub data Outcome (T : Type 0) (A : Type 0) : Type 0 where
  done : A → T → Outcome T A
  failed : T → Outcome T A
  fault : Outcome T A
  stuck : Outcome T A

abbrev pub Action : Type 0 → Type 0 → Type 0
Action T A = T → Outcome T A

abbrev pub continue : {T A B : Type 0} → Outcome T A → (A → T → Outcome T B) → Outcome T B
continue (done a t) f = f a t
continue (failed t) f = failed t
continue fault f = fault
continue stuck f = stuck

-- `if (!m) return false; f`
infixl 5 ◌>>=◌ ◌>>◌
abbrev pub ◌>>=◌ : {T A B : Type 0} → Action T A → (A → Action T B) → Action T B
◌>>=◌ m f t = continue (m t) f

abbrev pub ◌>>◌ : {T A B : Type 0} → Action T A → Action T B → Action T B
◌>>◌ m k t = continue (m t) (λ _. k)

abbrev pub pure : {T A : Type 0} → A → Action T A
pure a t = done a t

-- The callback of an output stream with its state. `sizing` is the null callback. `buffer` is
-- buf_write, with the memory that the caller handed over and the index that `state` points to.
-- `custom` is a callback of the caller: from its state and the bytes, the next state and the
-- result.
pub data Sink (S : Type 0) : Type 0 where
  sizing : Sink S
  buffer : List ℕ → ℕ → Sink S
  custom : (S → List ℕ → S × Bool) → S → Sink S

pub record Ostream (S : Type 0) : Type 0 where
  pub sink : Sink S
  pub max_size : ℕ
  pub bytes_written : ℕ
  pub errmsg : Option ErrorMessage

-- The callback of an input stream with its state. `memory` is buf_read, with the bytes that can
-- still be read from where `state` points. `device` is a callback of the caller: from its state
-- and a count, the next state and the bytes, or `none` where it returns false.
pub data Source (S : Type 0) : Type 0 where
  memory : List ℕ → Source S
  device : (S → ℕ → S × Option (List ℕ)) → S → Source S

pub record Istream (S : Type 0) : Type 0 where
  pub source : Source S
  pub bytes_left : ℕ
  pub errmsg : Option ErrorMessage

-- PB_SET_ERROR keeps the first message.
abbrev pub first_message : Option ErrorMessage → ErrorMessage → Option ErrorMessage
first_message (some old) message = some old
first_message none message = some message

-- pb_wire_type_t: the members of the enum among the numbers that its type can hold.
abbrev pub wt_varint : ℕ
wt_varint = 0

abbrev pub wt_64bit : ℕ
wt_64bit = 1

abbrev pub wt_string : ℕ
wt_string = 2

abbrev pub wt_32bit : ℕ
wt_32bit = 5
