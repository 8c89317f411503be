-- ===== src/Nanopb/Field.antt =====
-- The field descriptors of pb.h, the field iterator of pb_common.c, and the memory that they point
-- into.
pub mod Stepping
pub mod Finding
pub mod Walk
pub mod Plain
use swe_capstone.Common.{
  ℕ, zero, suc, ◌+◌, ◌-◌, ◌*◌, ◌%◌, ◌^◌, Bool, true, false, not, ◌&&◌, List, [], ◌∷◌, Option, none,
  some, ltb, ◌==◌, length, get_elem?, if◌then◌else◌,
}
use swe_capstone.Common.Int.{ℤ, pos, negsuc}
use swe_capstone.Nanopb.Stream.{size_mod, Outcome, fault, done, Action, ◌>>=◌, pure}

-- The three parts of pb_type_t. `invalid` is the allocation type 0xC0, which has no name.
pub data Ltype : Type 0 where
  varint uvarint svarint fixed32 fixed64 bytes string submessage extension : Ltype
  fixed_length_bytes : Ltype

pub data Htype : Type 0 where
  required optional repeated oneof : Htype

pub data Atype : Type 0 where
  static callback pointer invalid : Atype

-- pb_field_t. `ptr` is an address, and 0 is NULL.
pub record Field : Type 0 where
  pub tag : ℕ
  pub ltype : Ltype
  pub htype : Htype
  pub atype : Atype
  pub data_offset : ℕ
  pub size_offset : ℤ
  pub data_size : ℕ
  pub array_size : ℕ
  pub ptr : ℕ

-- PB_LAST_FIELD
abbrev pub last_field : Field
last_field = record {
  tag = 0;
  ltype = Ltype.varint;
  htype = Htype.required;
  atype = Atype.static;
  data_offset = 0;
  size_offset = pos 0;
  data_size = 0;
  array_size = 0;
  ptr = 0;
}

-- `fields[i]`, where PB_LAST_FIELD stands behind the fields of the list.
abbrev pub field_at : List Field → ℕ → Field
field_at fields i = elim (get_elem? fields i) [ none ↦ last_field | some field ↦ field ]

-- PB_SIZE_MAX of a pb_size_t of 32 bits.
abbrev pub pb_size_max : ℕ
pb_size_max = 2 ^ 32 - 1

-- `(char*)pointer + offset`
abbrev pub add_offset : ℕ → ℤ → ℕ
add_offset address (pos n) = (address + n) % size_mod
add_offset address (negsuc n) = (address + size_mod - (n + 1) % size_mod) % size_mod

-- pb_field_iter_t. `position` is the index of `pos` in the fields.
pub record FieldIter : Type 0 where
  pub start : List Field
  pub position : ℕ
  pub required_field_index : ℕ
  pub dest_struct : ℕ
  pub p_data : ℕ
  pub p_size : ℕ

-- `iter->pos`
abbrev pub current : FieldIter → Field
current iter = field_at iter.start iter.position

unfoldable pub pb_field_iter_begin : List Field → ℕ → FieldIter × Bool
pb_field_iter_begin fields dest_struct =
    let field = field_at fields 0 in
    let p_data = (dest_struct + field.data_offset) % size_mod in
    (
      record {
        start = fields;
        position = 0;
        required_field_index = 0;
        dest_struct = dest_struct;
        p_data = p_data;
        p_size = add_offset p_data field.size_offset;
      },
      not (field.tag == 0),
    )

abbrev pub is_oneof : Htype → Bool
is_oneof Htype.oneof = true
is_oneof _ = false

-- `prev_size`: the room that a field takes in the structure.
abbrev pub room_of : Atype → Htype → Field → ℕ
room_of Atype.static Htype.repeated field = field.data_size * field.array_size % size_mod
room_of Atype.pointer htype field = 8
room_of atype htype field = field.data_size

abbrev pub counted : Htype → ℕ → ℕ
counted Htype.required index = (index + 1) % 2 ^ 32
counted htype index = index

-- The pointers past the previous field.
unfoldable pub advance : FieldIter → Field → Field → FieldIter
advance iter prev_field field =
    let p_data =
      (iter.p_data + room_of prev_field.atype prev_field.htype prev_field + field.data_offset)
      % size_mod in
    record iter {
      position = iter.position + 1;
      required_field_index = counted prev_field.htype iter.required_field_index;
      p_data = p_data;
      p_size = add_offset p_data field.size_offset;
    }

unfoldable pub pb_field_iter_next : FieldIter → FieldIter × Bool
unfolding pb_field_iter_begin advance
pb_field_iter_next iter =
    let prev_field = current iter in
    let field = field_at iter.start (iter.position + 1) in
    if prev_field.tag == 0
    then (iter, false)
    else if field.tag == 0
    then ((pb_field_iter_begin iter.start iter.dest_struct).0, false)
    else if is_oneof prev_field.htype
        && (is_oneof field.htype && (field.data_offset == pb_size_max))
    then (record iter { position = iter.position + 1 }, true)
    else (advance iter prev_field field, true)

abbrev pub is_extension : Ltype → Bool
is_extension Ltype.extension = true
is_extension _ = false

-- `do { … } while (iter->pos != start);` on fuel; `none` is its end.
unfoldable pub find_loop : ℕ → ℕ → ℕ → FieldIter → Option (FieldIter × Bool)
find_loop zero tag start iter = none
find_loop (suc rounds) tag start iter =
    let field = current iter in
    elim ((field.tag == tag) && not (is_extension field.ltype)) [
      | true ↦ some (iter, true)
      | false ↦
          let next = (pb_field_iter_next iter).0 in
          elim (next.position == start) [
            | true ↦ some (next, false)
            | false ↦ find_loop rounds tag start next
          ]
    ]

-- Each round goes to another of the fields, or to PB_LAST_FIELD where there is no other.
unfoldable pub pb_field_iter_find : ℕ → FieldIter → Option (FieldIter × Bool)
pb_field_iter_find tag iter = find_loop (length iter.start + 1) tag iter.position iter

-- The bytes that the program can read, by address.
abbrev pub Memory : Type 0
Memory = ℕ → Option ℕ

module _ {T : Type 0} (memory : Memory) where
  abbrev pub load_byte : ℕ → Action T ℕ
  load_byte address t = elim (memory address) [ none ↦ fault | some b ↦ done b t ]

  -- A number of `width` bytes, the lowest first.
  unfoldable pub load : ℕ → ℕ → Action T ℕ
  load zero address = pure 0
  load (suc width) address =
      load_byte address >>= λ b. load width (address + 1) >>= λ high. pure (b + 256 * high)

-- The bytes from an address on that can be read, `count` at most.
unfoldable pub readable : Memory → ℕ → ℕ → List ℕ
readable memory zero address = []
readable memory (suc count) address = elim (memory address) [
  | none ↦ []
  | some b ↦ b ∷ readable memory count (address + 1)
]
