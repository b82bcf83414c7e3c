-- ===== src/Multiplex/Frames/Examples.antt =====
-- Frames of the wire protocol, and the theorems at them.
use nexigon.Base.{ℕ, ◌≡◌, refl, some, List, [], ◌∷◌, arith, to_be_bytes, set}
use nexigon.Multiplex.Frames.{
  FieldValue, id, word, octets, ok, err, invalid_length, invalid_tag, channel_request, channel_data,
  parse, new, get_field, set_field, kind_of_tag, min_frame_size,
}
use nexigon.Multiplex.Frames.RoundTrip.{get_field-new, set_field-new}
use nexigon.Multiplex.Frames.Parsing.{parse-new, Explains, parse_explained}

-- A request for the endpoint "ssh" from channel 7, with the initial credits.
abbrev request_values : List FieldValue
request_values = id 7 ∷ word 128 ∷ word 16384 ∷ octets (115 ∷ 115 ∷ 104 ∷ []) ∷ []

request_bytes :
    (new channel_request request_values).bytes
    ≡ 0x10 ∷ 0 ∷ 0 ∷ 0 ∷ 0 ∷ 0 ∷ 0 ∷ 0 ∷ 7 ∷ 0 ∷ 0 ∷ 0 ∷ 128 ∷ 0 ∷ 0 ∷ 64 ∷ 0 ∷ 115 ∷ 115 ∷ 104 ∷ []
unfolding new to_be_bytes
request_bytes = refl

abbrev short_data : List ℕ
short_data = 0x13 ∷ 0 ∷ 0 ∷ []

short_data_refused : parse short_data ≡ err (invalid_length 9)
unfolding parse kind_of_tag min_frame_size
short_data_refused = refl

unknown_refused : parse (0x16 ∷ []) ≡ err (invalid_tag 0x16)
unfolding parse kind_of_tag
unknown_refused = refl

-- A data frame for channel 1 with the payload 42.
abbrev data_bytes : List ℕ
data_bytes = 0x13 ∷ 0 ∷ 0 ∷ 0 ∷ 0 ∷ 0 ∷ 0 ∷ 0 ∷ 1 ∷ 42 ∷ []

data_accepted : parse data_bytes ≡ ok (record { kind = channel_data; bytes = data_bytes })
unfolding parse kind_of_tag min_frame_size
data_accepted = refl

get_field-new_example : get_field (new channel_request request_values) 2 ≡ some (word 16384)
get_field-new_example =
    get_field-new channel_request request_values 2 (word 16384) (omega arith) refl

set_field-new_example :
    set_field (new channel_request request_values) 0 (id 9)
    ≡ some (new channel_request (set request_values 0 (id 9)))
set_field-new_example =
    set_field-new channel_request request_values 0 (id 9) (omega arith) (omega arith) (omega arith)

parse-new_example :
    parse (new channel_request request_values).bytes ≡ ok (new channel_request request_values)
parse-new_example = parse-new channel_request request_values (omega arith)

parse_explained_example : Explains short_data (parse short_data)
parse_explained_example = parse_explained short_data
