-- ===== src/Rpc/Messages.antt =====
-- crates/libs/nexigon-rpc/src/lib.rs: how a call and its result are written and read. `grants n` says whether
-- the memory of `n` bytes is granted before the deadline; a permit is the number of bytes that it holds.
use nexigon.Base.{
  ℕ, List, Option, none, some, Bool, ltb, if◌then◌else◌, length, to_be_bytes, from_be_bytes,
  u32_max, if_some, ◌∷◌, [],
}
use nexigon.Rpc.{
  Source, Sink, Ending, ok, err, and_then, map_err, or_err, or_timed, TimedIoError, io, timeout,
  max_action_name_size, max_input_size, max_output_size, panics,
}
use nexigon.Rpc.Bodies.{BodyReadError, io_error, timed_out, allocation, read_body, discard_body}
use nexigon.Rpc.Serializing.{Serialized, bytes, oversized, unallocated, unsound}

pub data ReadError : Type 0 where
  read_failed : ReadError
  read_late : ReadError
  no_input_buffer : ReadError
  invalid_action_name : ReadError
  action_name_too_large : (size : ℕ) → ReadError
  action_input_too_large : (size : ℕ) → ReadError

pub data WriteError : Type 0 where
  write_failed : WriteError
  write_late : WriteError
  unserializable : WriteError
  no_result_buffer : WriteError
  result_too_large : (size : ℕ) → WriteError

pub data ExecuteError : Type 0 where
  receive_failed : ExecuteError
  receive_late : ExecuteError
  send_failed : ExecuteError
  send_late : ExecuteError
  input_unserializable : ExecuteError
  no_body_buffer : ExecuteError
  name_too_large : (size : ℕ) → ExecuteError
  input_too_large : (size : ℕ) → ExecuteError
  output_too_large : (size : ℕ) → ExecuteError

pub record ActionHeader : Type 0 where
  pub name : List ℕ
  pub input_size : ℕ

pub record SerializedAction : Type 0 where
  pub action_name : List ℕ
  pub input : List ℕ
  pub permit : ℕ

unfoldable pub map_action_body_read : BodyReadError → ReadError
map_action_body_read io_error = read_failed
map_action_body_read timed_out = read_late
map_action_body_read allocation = no_input_buffer

unfoldable pub map_execute_body_read : BodyReadError → ExecuteError
map_execute_body_read io_error = receive_failed
map_execute_body_read timed_out = receive_late
map_execute_body_read allocation = no_body_buffer

unfoldable pub map_execute_write : TimedIoError → ExecuteError
map_execute_write io = send_failed
map_execute_write timeout = send_late

unfoldable pub map_result_write : TimedIoError → WriteError
map_result_write io = write_failed
map_result_write timeout = write_late

-- What a call relies on besides the streams.
pub record Host : Type 0 where
  pub is_utf8 : List ℕ → Bool
  pub reserve : ℕ → ℕ → Bool
  pub grants : ℕ → Bool
  pub overdue : Bool

module _ {ℓ} {R : Type ℓ} (source : Source R) (host : Host) where
  unfoldable pub read_input_size : R → List ℕ → R × Ending ReadError ActionHeader
  unfolding and_then from_be_bytes
  read_input_size r name = and_then (or_err read_failed (source.read_exact r 4)) (λ r' word.
      let size = from_be_bytes word in
      if ltb max_input_size size
      then (r', err (action_input_too_large size))
      else (r', ok (record { name = name; input_size = size })))

  unfoldable pub read_name : R → ℕ → R × Ending ReadError ActionHeader
  unfolding and_then read_input_size
  read_name r size = and_then (or_err read_failed (source.read_exact r size)) (λ r' name.
      if host.is_utf8 name then read_input_size r' name else (r', err invalid_action_name))

  unfoldable pub read_action_header : R → R × Ending ReadError ActionHeader
  unfolding and_then read_name from_be_bytes
  read_action_header r = and_then (or_err read_failed (source.read_exact r 2)) (λ r' word.
      let size = from_be_bytes word in
      if ltb max_action_name_size size
      then (r', err (action_name_too_large size))
      else read_name r' size)

  -- `ActionHeader::read_body` and `ActionHeader::discard_body`.
  unfoldable pub read_action_body : R → ActionHeader → R × Ending ReadError SerializedAction
  unfolding and_then read_body map_action_body_read
  read_action_body r header =
      if host.grants header.input_size
      then and_then
          (let (s, o) = read_body source host.reserve r header.input_size in
            (s, map_err map_action_body_read o))
          (λ s bs.
            (s, ok (record { action_name = header.name; input = bs; permit = header.input_size })))
      else (r, err read_late)

  unfoldable pub discard_action_body : R → ActionHeader → R × Ending ReadError (Unit {0})
  unfolding discard_body map_action_body_read
  discard_action_body r header =
      let (s, o) = discard_body source r header.input_size in (s, map_err map_action_body_read o)

  unfoldable pub read_action : R → R × Ending ReadError SerializedAction
  unfolding and_then read_action_header read_action_body
  read_action r = and_then (read_action_header r) (λ s header. read_action_body s header)

  -- The response half of `execute`.
  unfoldable pub read_response : R → R × Ending ExecuteError (List ℕ)
  unfolding and_then read_body from_be_bytes map_execute_body_read
  read_response r = and_then (or_err receive_failed (source.read_exact r 4)) (λ s word.
      let size = from_be_bytes word in
      if ltb max_output_size size
      then (s, err (output_too_large size))
      else if host.grants size
      then (let (t, o) = read_body source host.reserve s size in
          (t, map_err map_execute_body_read o))
      else (s, err receive_late))

-- A serialized call or result, and the permit that it keeps.
pub record Prepared : Type 0 where
  pub content : List ℕ
  pub retained : ℕ

-- `shrink_to`: a permit of no bytes is given back, another one is split; `none` stands for its `expect`.
abbrev pub shrink_to : ℕ → ℕ → Option ℕ
shrink_to held needed = if ltb held needed then none else some needed

abbrev pub retain : {E : Type 0} → ℕ → List ℕ → Ending E Prepared
retain held content =
    if_some (shrink_to held (length content)) panics
      (λ n. ok (record { content = content; retained = n }))

-- What `execute` does before it writes: the wait for the permit ends with the same error as a write that is late.
unfoldable pub prepare_request : Host → (name : List ℕ) → Serialized → Ending ExecuteError Prepared
prepare_request host name serialized =
    if ltb max_action_name_size (length name)
    then err (name_too_large (length name))
    else if host.grants max_input_size
    then elim serialized [
      | oversized size ↦ err (input_too_large size)
      | unallocated ↦ err no_body_buffer
      | unsound ↦ err input_unserializable
      | bytes input ↦
          if host.overdue
          then err send_late
          else if ltb u32_max (length input)
          then err (input_too_large (length input))
          else retain max_input_size input
    ]
    else err send_late

unfoldable pub prepare_result : Host → Serialized → Ending WriteError Prepared
prepare_result host serialized =
    if host.grants max_output_size
    then elim serialized [
      | oversized size ↦ err (result_too_large size)
      | unallocated ↦ err no_result_buffer
      | unsound ↦ err unserializable
      | bytes result ↦
          if host.overdue
          then err write_late
          else if ltb u32_max (length result)
          then err (result_too_large (length result))
          else retain max_output_size result
    ]
    else err write_late

-- Writes one piece after the other, and then flushes.
module _ {ℓ κ} {W : Type ℓ} {E : Type κ} (sink : Sink W) (failure : TimedIoError → E) where
  unfoldable pub send_pieces : W → List (List ℕ) → W × Ending E (Unit {0})
  unfolding and_then
  send_pieces w [] = or_timed failure (sink.flush w)
  send_pieces w (piece ∷ pieces) =
      and_then (or_timed failure (sink.write_all w piece)) (λ v _. send_pieces v pieces)

-- The request half of `execute`, and the end of `write_action_result`.
unfoldable pub send_request {ℓ} :
    {W : Type ℓ} → Sink W → W → List ℕ → List ℕ → W × Ending ExecuteError (Unit {0})
unfolding send_pieces map_execute_write to_be_bytes
send_request sink w name input =
    send_pieces sink map_execute_write w
      (to_be_bytes 2 (length name) ∷ name ∷ to_be_bytes 4 (length input) ∷ input ∷ [])

unfoldable pub send_result {ℓ} :
    {W : Type ℓ} → Sink W → W → List ℕ → W × Ending WriteError (Unit {0})
unfolding send_pieces map_result_write to_be_bytes
send_result sink w result =
    send_pieces sink map_result_write w (to_be_bytes 4 (length result) ∷ result ∷ [])
