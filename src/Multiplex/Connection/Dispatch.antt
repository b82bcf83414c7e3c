-- ===== src/Multiplex/Connection/Dispatch.antt =====
-- crates/libs/nexigon-multiplex/src/lib.rs: `Connection::handle_frame`, its checks and its match.
use nexigon.Base.{
  ℕ, Bool, true, false, not, ◌&&◌, Option, none, some, List, [], ◌∷◌, ltb, if◌then◌else◌, length,
  lookup,
}
use nexigon.Multiplex.Frames.{Frame, new, id, octets, channel_reject}
use nexigon.Multiplex.Rate.{record_item}
use nexigon.Multiplex.Connection.{
  Connection, closed_by_peer, close_state, control_frame_rate, hello_must_be_first,
  control_payload_too_large, channel_request_rate,
}
use nexigon.Multiplex.Connection.Views.{
  peer_ping, peer_pong, PeerFrame, view, peer_request, peer_hello, peer_data, peer_close,
  peer_reject, peer_accept, peer_close_channel, peer_adjust, peer_closed_channel,
}
use nexigon.Multiplex.Connection.Handling.{
  nothing, event, violation, panics, Step, send_or_fail, handle_hello, handle_request,
  handle_accept, handle_reject, handle_data, handle_adjust, handle_close, handle_closed,
  handle_ping, handle_pong,
}

-- `channel endpoint too large`.
abbrev pub endpoint_reason : List ℕ
endpoint_reason =
    99 ∷ 104 ∷ 97 ∷ 110 ∷ 110 ∷ 101 ∷ 108 ∷ 32 ∷ 101 ∷ 110 ∷ 100 ∷ 112 ∷ 111 ∷ 105 ∷ 110 ∷ 116 ∷ 32
    ∷ 116 ∷ 111 ∷ 111 ∷ 32 ∷ 108 ∷ 97 ∷ 114 ∷ 103 ∷ 101 ∷ []

-- The match on the frame, once it was admitted.
unfoldable pub dispatch : Connection → Frame → PeerFrame → ℕ → Step
dispatch c f (peer_hello magic info) now = handle_hello c magic
dispatch c f (peer_close reason) now = (close_state c, event closed_by_peer)
dispatch c f (peer_request sender_id a b endpoint) now = handle_request c f sender_id
dispatch c f (peer_accept receiver_id sender_id a b) now =
    handle_accept c (lookup receiver_id c.pending_requests) receiver_id sender_id a b now
dispatch c f (peer_reject receiver_id reason) now =
    handle_reject c f (lookup receiver_id c.pending_requests) receiver_id
dispatch c f (peer_data receiver_id payload) now =
    handle_data c f (lookup receiver_id c.channels) receiver_id (length payload) now
dispatch c f (peer_adjust receiver_id a b) now =
    handle_adjust c (lookup receiver_id c.channels) receiver_id a b now
dispatch c f (peer_close_channel receiver_id reason) now =
    handle_close c (lookup receiver_id c.channels) receiver_id now
dispatch c f (peer_closed_channel receiver_id reason) now =
    handle_closed c (lookup receiver_id c.channels) receiver_id now
dispatch c f peer_ping now = handle_ping c now
dispatch c f peer_pong now = handle_pong c c.ping.last_ping now

abbrev pub is_peer_hello : PeerFrame → Bool
is_peer_hello (peer_hello magic info) = true
is_peer_hello _ = false

abbrev pub is_peer_request : PeerFrame → Bool
is_peer_request (peer_request s a b e) = true
is_peer_request _ = false

abbrev pub is_peer_data : PeerFrame → Bool
is_peer_data (peer_data r p) = true
is_peer_data _ = false

-- The length of the variable part of a control frame; 0 for a frame that has none.
abbrev pub control_payload_len : PeerFrame → ℕ
control_payload_len (peer_hello magic info) = length info
control_payload_len (peer_close reason) = length reason
control_payload_len (peer_request s a b endpoint) = length endpoint
control_payload_len (peer_reject r reason) = length reason
control_payload_len (peer_close_channel r reason) = length reason
control_payload_len (peer_closed_channel r reason) = length reason
control_payload_len _ = 0

abbrev pub refuse_oversized : Connection → PeerFrame → Step
refuse_oversized c (peer_request sender_id a b endpoint) =
    send_or_fail c (new channel_reject (id sender_id ∷ octets endpoint_reason ∷ []))
      (λ c'. (c', nothing))
refuse_oversized c _ = (c, violation control_payload_too_large)

-- The rate of control frames is checked, and then the frame is handled.
unfoldable pub admit_control : Connection → Frame → PeerFrame → ℕ → Step
unfolding dispatch
admit_control c f p now =
    let (r, ok) =
      record_item c.rates.control_frame c.shared.limits.max_control_frames_per_second now in
    let c' = record c { rates = record (c.rates) { control_frame = r } } in
    if is_peer_data p
    then dispatch c f p now
    else if ok
    then dispatch c' f p now
    else (c', violation control_frame_rate)

unfoldable pub admit_size : Connection → Frame → PeerFrame → ℕ → Step
unfolding admit_control
admit_size c f p now =
    if ltb c.shared.limits.max_control_payload_size (control_payload_len p)
    then refuse_oversized c p
    else admit_control c f p now

unfoldable pub admit_frame : Connection → Frame → PeerFrame → ℕ → Step
unfolding admit_size
admit_frame c f p now =
    let (r, ok) =
      record_item c.rates.channel_request c.shared.limits.max_channel_requests_per_second now in
    let c' = record c { rates = record (c.rates) { channel_request = r } } in
    if not c.hello_received && not (is_peer_hello p)
    then (c, violation hello_must_be_first)
    else if is_peer_request p
    then (if ok then admit_size c' f p now else (c', violation channel_request_rate))
    else admit_size c f p now

abbrev pub handle_viewed : Connection → Frame → Option PeerFrame → ℕ → Step
handle_viewed c f none now = (c, panics)
handle_viewed c f (some p) now = admit_frame c f p now

-- `Connection::handle_frame`.
unfoldable pub handle_frame : Connection → Frame → ℕ → Step
unfolding admit_frame
handle_frame c f now = handle_viewed c f (view f) now
