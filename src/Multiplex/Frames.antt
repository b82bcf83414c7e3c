-- ===== src/Multiplex/Frames.antt =====
-- crates/libs/nexigon-multiplex/src/frames.rs: the wire format of multiplex frames.
-- The macro `define_frame_types!` is modelled once for every frame type: a frame type is a list of
-- field types, and the offsets, constructor, getters and setters are computed from that list.
-- Bytes are numbers, and `none` stands for a panic.
pub mod Layout
pub mod RoundTrip
pub mod Parsing
mod Examples
use nexigon.Base.{
  ℕ, zero, suc, ◌+◌, ◌≡◌, Option, none, some, List, [], ◌∷◌, ◌++◌, ltb, leb, ◌==◌, if◌then◌else◌,
  length, take, drop, get_elem?, to_be_bytes, from_be_bytes, slice?, ◌>>=◌,
}

-- The types of a frame's fields: `ChannelId`, `u32`, `&[u8; N]` and `&[u8]`.
pub data FieldType : Type 0 where
  channel_id : FieldType
  u32 : FieldType
  array : ℕ → FieldType
  slice : FieldType

-- A field's value: a channel id, a `u32`, or bytes.
pub data FieldValue : Type 0 where
  id : ℕ → FieldValue
  word : ℕ → FieldValue
  octets : List ℕ → FieldValue

abbrev pub channel_id_size : ℕ
channel_id_size = 8

-- `FIELD_SIZE`: `none` for a field of dynamic size.
abbrev pub field_size : FieldType → Option ℕ
field_size channel_id = some channel_id_size
field_size u32 = some 4
field_size (array n) = some n
field_size slice = none

abbrev pub encode : FieldValue → List ℕ
encode (id v) = to_be_bytes channel_id_size v
encode (word v) = to_be_bytes 4 v
encode (octets bs) = bs

-- A conversion to an array of fixed size panics at any other size.
abbrev pub decode : FieldType → List ℕ → Option FieldValue
decode channel_id bs = if length bs == channel_id_size then some (id (from_be_bytes bs)) else none
decode u32 bs = if length bs == 4 then some (word (from_be_bytes bs)) else none
decode (array n) bs = if length bs == n then some (octets bs) else none
decode slice bs = some (octets bs)

abbrev pub add_optional_sizes : Option ℕ → Option ℕ → Option ℕ
add_optional_sizes (some left) (some right) = some (left + right)
add_optional_sizes (some left) none = none
add_optional_sizes none right = none

-- The constants `FIELD_*_OFFSET`, from the offset of the first field on.
pub offsets : Option ℕ → List FieldType → List (Option ℕ)
offsets offset [] = []
offsets offset (t ∷ ts) = offset ∷ offsets (add_optional_sizes offset (field_size t)) ts

-- `MIN_FRAME_SIZE`: the whole size, or the offset of the last field if that is dynamic.
pub min_size : Option ℕ → Option ℕ → List FieldType → Option ℕ
min_size (some offset) previous_offset [] = some offset
min_size none previous_offset [] = previous_offset
min_size offset previous_offset (t ∷ ts) =
    min_size (add_optional_sizes offset (field_size t)) offset ts

-- The frame types, in the order of their declaration.
pub data FrameKind : Type 0 where
  hello close channel_request channel_accept channel_reject channel_data : FrameKind
  channel_adjust channel_close channel_closed ping pong : FrameKind

abbrev pub fields : FrameKind → List FieldType
fields hello = array 16 ∷ slice ∷ []
fields close = slice ∷ []
fields channel_request = channel_id ∷ u32 ∷ u32 ∷ slice ∷ []
fields channel_accept = channel_id ∷ channel_id ∷ u32 ∷ u32 ∷ []
fields channel_reject = channel_id ∷ slice ∷ []
fields channel_data = channel_id ∷ slice ∷ []
fields channel_adjust = channel_id ∷ u32 ∷ u32 ∷ []
fields channel_close = channel_id ∷ slice ∷ []
fields channel_closed = channel_id ∷ slice ∷ []
fields ping = []
fields pong = []

abbrev pub frame_tag : FrameKind → ℕ
frame_tag hello = 0x00
frame_tag close = 0xff
frame_tag channel_request = 0x10
frame_tag channel_accept = 0x11
frame_tag channel_reject = 0x12
frame_tag channel_data = 0x13
frame_tag channel_adjust = 0x14
frame_tag channel_close = 0x15
frame_tag channel_closed = 0x17
frame_tag ping = 0x20
frame_tag pong = 0x21

-- The arms of the match in `Frame::parse`.
unfoldable pub kind_of_tag : ℕ → Option FrameKind
kind_of_tag b =
    if b == 0x00
    then some hello
    else if b == 0xff
    then some close
    else if b == 0x10
    then some channel_request
    else if b == 0x11
    then some channel_accept
    else if b == 0x12
    then some channel_reject
    else if b == 0x13
    then some channel_data
    else if b == 0x14
    then some channel_adjust
    else if b == 0x15
    then some channel_close
    else if b == 0x17
    then some channel_closed
    else if b == 0x20
    then some ping
    else if b == 0x21
    then some pong
    else none

pub record Frame : Type 0 where
  pub kind : FrameKind
  pub bytes : List ℕ

pub data InvalidFrameError : Type 0 where
  invalid_tag : ℕ → InvalidFrameError
  invalid_length : ℕ → InvalidFrameError

pub data ParseResult : Type 0 where
  ok : Frame → ParseResult
  err : InvalidFrameError → ParseResult

-- `const_option_unwrap!`: on `none` the crate does not compile.
abbrev const_option_unwrap : Option ℕ → ℕ
const_option_unwrap (some n) = n
const_option_unwrap none = 0

unfoldable pub min_frame_size : FrameKind → ℕ
unfolding min_size
min_frame_size k = const_option_unwrap (min_size (some 1) (some 0) (fields k))

parse_as : Option FrameKind → ℕ → List ℕ → ParseResult
parse_as none tag bytes = err (invalid_tag tag)
parse_as (some k) tag bytes =
    if ltb (length bytes) (min_frame_size k)
    then err (invalid_length (min_frame_size k))
    else ok (record { kind = k; bytes = bytes })

unfoldable pub parse : List ℕ → ParseResult
unfolding parse_as
parse [] = err (invalid_length 1)
parse (tag ∷ rest) = parse_as (kind_of_tag tag) tag (tag ∷ rest)

pub encode_fields : List FieldValue → List ℕ
encode_fields [] = []
encode_fields (v ∷ vs) = encode v ++ encode_fields vs

-- The constructor `new` of a frame type, on the values of its fields.
unfoldable pub new : FrameKind → List FieldValue → Frame
unfolding encode_fields
new k vs = record { kind = k; bytes = frame_tag k ∷ encode_fields vs }

-- A getter's read of one field, by the field's size.
abbrev pub read_sized : FieldType → Option ℕ → ℕ → List ℕ → Option FieldValue
read_sized t (some fixed) offset bytes = slice? bytes offset fixed >>= decode t
read_sized t none offset bytes =
    if leb offset (length bytes) then decode t (drop offset bytes) else none

abbrev pub read_field : FieldType → ℕ → List ℕ → Option FieldValue
read_field t offset bytes = read_sized t (field_size t) offset bytes

-- A setter's write of one field; `copy_from_slice` panics unless the lengths agree.
abbrev pub write_sized : Option ℕ → ℕ → List ℕ → List ℕ → Option (List ℕ)
write_sized (some fixed) offset value bytes =
    if leb (offset + fixed) (length bytes)
    then (if length value == fixed
        then some (take offset bytes ++ (value ++ drop (offset + fixed) bytes))
        else none)
    else none
write_sized none offset value bytes = some (take offset bytes ++ value)

abbrev pub write_field : FieldType → ℕ → List ℕ → List ℕ → Option (List ℕ)
write_field t offset value bytes = write_sized (field_size t) offset value bytes

pub get_at : List (Option ℕ) → List FieldType → ℕ → List ℕ → Option FieldValue
get_at [] ts i bytes = none
get_at (o ∷ os) [] i bytes = none
get_at (o ∷ os) (t ∷ ts) zero bytes = o >>= λ offset. read_field t offset bytes
get_at (o ∷ os) (t ∷ ts) (suc i) bytes = get_at os ts i bytes

pub set_at : List (Option ℕ) → List FieldType → ℕ → List ℕ → List ℕ → Option (List ℕ)
set_at [] ts i value bytes = none
set_at (o ∷ os) [] i value bytes = none
set_at (o ∷ os) (t ∷ ts) zero value bytes = o >>= λ offset. write_field t offset value bytes
set_at (o ∷ os) (t ∷ ts) (suc i) value bytes = set_at os ts i value bytes

-- The getter of the field `i`.
unfoldable pub get_field : Frame → ℕ → Option FieldValue
unfolding get_at offsets
get_field f i = get_at (offsets (some 1) (fields f.kind)) (fields f.kind) i f.bytes

-- The setter of the field `i`.
unfoldable pub set_field : Frame → ℕ → FieldValue → Option Frame
unfolding set_at offsets
set_field f i v =
    set_at (offsets (some 1) (fields f.kind)) (fields f.kind) i (encode v) f.bytes >>= λ bytes.
    some (record f { bytes = bytes })

-- `PROTOCOL_MAGIC`.
abbrev pub protocol_magic : List ℕ
protocol_magic =
    27 ∷ 27 ∷ 46 ∷ 134 ∷ 44 ∷ 205 ∷ 244 ∷ 157 ∷ 82 ∷ 109 ∷ 227 ∷ 13 ∷ 167 ∷ 171 ∷ 225 ∷ 140 ∷ []
