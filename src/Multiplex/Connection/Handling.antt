-- ===== src/Multiplex/Connection/Handling.antt =====
-- crates/libs/nexigon-multiplex/src/lib.rs: the arms of `Connection::handle_frame`. `now` is the time
-- of the call.
use nexigon.Base.{
  ℕ, ◌+◌, ◌-◌, ◌*◌, ◌/◌, true, false, not, ◌&&◌, Option, none, some, List, [], ◌∷◌, ltb, leb, ◌==◌,
  if◌then◌else◌, u32_max, without, modify, ◌||◌, same_bytes,
}
use nexigon.Multiplex.Frames.{
  Frame, new, id, octets, channel_reject, channel_close, channel_closed, pong, protocol_magic,
}
use nexigon.Multiplex.Limits.{
  max_channel_payload_size, channel_initial_frame_credit, channel_initial_byte_credit,
}
use nexigon.Multiplex.Rate.{record_item}
use nexigon.Multiplex.Shared.{ConnectionShared, send_priority_frame}
use nexigon.Multiplex.Channel.{drop_sender, AdjustResult, adjusted, adjust_credit, wake, Sender}
use nexigon.Multiplex.Channel.Receiver.{
  DataResult, buffered, discarded, receive_data, drop_receiver,
}
use nexigon.Multiplex.Connection.{
  Connection, ChannelHandle, ConnectionEvent, connected, request_channel, ProtocolViolation, send,
  answer, make_channel, new_handle, occupied_channel_slots, close_sender, close_receiver, opened,
  rejected, outgoing_queue_limit, invalid_protocol_magic, data_frame_too_large, request_not_found,
  late_data_exceeds_credits, unknown_channel_rate, pong_without_ping, duplicate_hello, ping_rate,
  ClosedChannelTombstone,
}
use nexigon.Multiplex.Connection.Closing.{
  take_cancelled_open, remember_closed, is_recently_closed, discard_late, LateResult, not_closed,
  exceeds, late,
}

pub data Handled : Type 0 where
  nothing : Handled
  event : ConnectionEvent → Handled
  violation : ProtocolViolation → Handled
  panics : Handled

abbrev pub Step : Type 0
Step = Connection × Handled

-- A frame that has to be queued, and then the rest.
abbrev pub send_or_fail : Connection → Frame → (Connection → Step) → Step
send_or_fail c f rest =
    let (c', ok) = send c f in if ok then rest c' else (c', violation outgoing_queue_limit)

-- `Connection::record_unknown_channel_frame`.
unfoldable pub record_unknown : Connection → ℕ → Step
record_unknown c now =
    let (r, ok) =
      record_item c.rates.unknown_channel c.shared.limits.max_unknown_channel_frames_per_second
        now in
    let c' = record c { rates = record (c.rates) { unknown_channel = r } } in
    if ok then (c', nothing) else (c', violation unknown_channel_rate)

-- A frame for a channel that is not open: it may be late, or there never was such a channel.
abbrev pub unless_closed : Connection → ℕ → ℕ → Step
unless_closed c k now =
    if is_recently_closed k c.closed_channels then (c, nothing) else record_unknown c now

abbrev pub set_handle : Connection → ConnectionShared → ℕ → ChannelHandle → Connection
set_handle c s k h = record c { shared = s; channels = modify k h c.channels }

-- `connection channel limit reached` and `channel open cancelled`.
abbrev pub limit_reason : List ℕ
limit_reason =
    99 ∷ 111 ∷ 110 ∷ 110 ∷ 101 ∷ 99 ∷ 116 ∷ 105 ∷ 111 ∷ 110 ∷ 32 ∷ 99 ∷ 104 ∷ 97 ∷ 110 ∷ 110 ∷ 101
    ∷ 108 ∷ 32 ∷ 108 ∷ 105 ∷ 109 ∷ 105 ∷ 116 ∷ 32 ∷ 114 ∷ 101 ∷ 97 ∷ 99 ∷ 104 ∷ 101 ∷ 100 ∷ []

abbrev pub cancelled_reason : List ℕ
cancelled_reason =
    99 ∷ 104 ∷ 97 ∷ 110 ∷ 110 ∷ 101 ∷ 108 ∷ 32 ∷ 111 ∷ 112 ∷ 101 ∷ 110 ∷ 32 ∷ 99 ∷ 97 ∷ 110 ∷ 99
    ∷ 101 ∷ 108 ∷ 108 ∷ 101 ∷ 100 ∷ []

unfoldable pub handle_hello : Connection → List ℕ → Step
unfolding same_bytes
handle_hello c magic =
    if not (same_bytes magic protocol_magic)
    then (c, violation invalid_protocol_magic)
    else if c.hello_received
    then (c, violation duplicate_hello)
    else (record c { hello_received = true }, event connected)

unfoldable pub handle_request : Connection → Frame → ℕ → Step
handle_request c f sender_id =
    if leb c.shared.limits.max_pending_channel_requests c.shared.pending_incoming_requests
      || leb c.shared.limits.max_channels (occupied_channel_slots c)
    then send_or_fail c (new channel_reject (id sender_id ∷ octets limit_reason ∷ []))
        (λ c'. (c', nothing))
    else (
      record c {
        shared = record (c.shared) {
          pending_incoming_requests = c.shared.pending_incoming_requests + 1;
        };
      },
      event (request_channel f),
    )

-- The tombstone of a channel whose open was cancelled.
abbrev pub cancelled_tombstone : ℕ → ClosedChannelTombstone
cancelled_tombstone k = record {
  local_id = k;
  remaining_frame_credit = channel_initial_frame_credit;
  remaining_byte_credit = channel_initial_byte_credit;
}

-- The accept of an open that was cancelled: the channel is closed again, and remembered.
unfoldable pub close_cancelled : Option Connection → Connection → ℕ → ℕ → Step
close_cancelled none c local_id remote_id = (c, violation request_not_found)
close_cancelled (some taken) c local_id remote_id =
    send_or_fail taken (new channel_close (id remote_id ∷ octets cancelled_reason ∷ [])) (λ c'.
      send_or_fail c' (new channel_closed (id remote_id ∷ octets cancelled_reason ∷ []))
        (λ c''. (remember_closed c'' (cancelled_tombstone local_id), nothing)))

-- A channel that no one takes is dropped at once, its sender first.
abbrev pub fresh_sender : Connection → ChannelHandle → Sender
fresh_sender c h = record {
  remote_id = h.remote_id;
  shared = h.sender_shared;
  pending = none;
  closed_sent = false;
  max_chunk_size = max_channel_payload_size c.shared.limits;
}

unfoldable pub drop_channel : Connection → ℕ → ChannelHandle → Connection
unfolding drop_sender drop_receiver
drop_channel c k h =
    let (s, sender) = drop_sender c.shared (fresh_sender c h) in
    let (s', receiver) = drop_receiver s h.remote_id h.receiver_shared in
    set_handle c s' k (record h { sender_shared = sender; receiver_shared = receiver })

-- The channel that a caller is given, if it has not gone.
unfoldable pub give_channel : Connection → Option Connection → ℕ → ℕ → ChannelHandle → Step
unfolding drop_channel
give_channel c none caller local_id h = (c, panics)
give_channel c (some c') caller local_id h =
    if c'.has_gone caller
    then (drop_channel c' local_id h, nothing)
    else (answer c' caller (opened local_id), nothing)

unfoldable pub handle_accept : Connection → Option ℕ → (local_id remote_id : ℕ) → ℕ → ℕ → ℕ → Step
unfolding close_cancelled give_channel
handle_accept c none local_id remote_id frame_credit byte_credit now =
    close_cancelled (take_cancelled_open c local_id) c local_id remote_id
handle_accept c (some caller) local_id remote_id frame_credit byte_credit now =
    let removed = record c { pending_requests = without local_id c.pending_requests } in
    give_channel removed (make_channel removed local_id remote_id frame_credit byte_credit now)
      caller local_id (new_handle removed.shared.limits remote_id frame_credit byte_credit now)

abbrev pub reject_cancelled : Option Connection → Connection → Step
reject_cancelled none c = (c, violation request_not_found)
reject_cancelled (some taken) c = (taken, nothing)

unfoldable pub handle_reject : Connection → Frame → Option ℕ → ℕ → Step
handle_reject c f none local_id = reject_cancelled (take_cancelled_open c local_id) c
handle_reject c f (some caller) local_id = (
  answer (record c { pending_requests = without local_id c.pending_requests }) caller (rejected f),
  nothing,
)

abbrev pub late_or_unknown : Connection → LateResult → ℕ → Step
late_or_unknown c not_closed now = record_unknown c now
late_or_unknown c exceeds now = (c, violation late_data_exceeds_credits)
late_or_unknown c (late ts) now = (record c { closed_channels = ts }, nothing)

abbrev pub took_data : Connection → ℕ → ChannelHandle → DataResult → Step
took_data c k h (buffered s r) = (set_handle c s k (record h { receiver_shared = r }), nothing)
took_data c k h (discarded r) =
    (set_handle c c.shared k (record h { receiver_shared = r }), nothing)
took_data c k h DataResult.no_frame_credit = (c, violation ProtocolViolation.no_frame_credit)
took_data c k h DataResult.not_enough_byte_credit =
    (c, violation ProtocolViolation.not_enough_byte_credit)
took_data c k h DataResult.data_too_large = (c, violation data_frame_too_large)

unfoldable pub handle_data : Connection → Frame → Option ChannelHandle → ℕ → ℕ → ℕ → Step
unfolding record_unknown
handle_data c f none local_id payload_len now =
    if ltb u32_max payload_len
    then (c, violation data_frame_too_large)
    else late_or_unknown c (discard_late local_id payload_len c.closed_channels) now
handle_data c f (some h) local_id payload_len now =
    took_data c local_id h (receive_data c.shared h.receiver_shared f)

abbrev pub took_credit : Connection → ℕ → ChannelHandle → AdjustResult → Step
took_credit c k h (adjusted s t) = (set_handle c s k (record h { sender_shared = t }), nothing)
took_credit c k h AdjustResult.frame_credit_overflow =
    (c, violation ProtocolViolation.frame_credit_overflow)
took_credit c k h AdjustResult.byte_credit_overflow =
    (c, violation ProtocolViolation.byte_credit_overflow)
took_credit c k h AdjustResult.empty_adjustment = (c, violation ProtocolViolation.empty_adjustment)

unfoldable pub handle_adjust : Connection → Option ChannelHandle → ℕ → ℕ → ℕ → ℕ → Step
unfolding record_unknown
handle_adjust c none local_id add_frame_credit add_byte_credit now =
    if add_frame_credit == 0 && add_byte_credit == 0
    then (c, violation ProtocolViolation.empty_adjustment)
    else unless_closed c local_id now
handle_adjust c (some h) local_id add_frame_credit add_byte_credit now =
    took_credit c local_id h
      (adjust_credit c.shared h.sender_shared add_frame_credit add_byte_credit now)

unfoldable pub handle_close : Connection → Option ChannelHandle → ℕ → ℕ → Step
unfolding record_unknown
handle_close c none local_id now = unless_closed c local_id now
handle_close c (some h) local_id now = (
  set_handle c (wake c.shared h.sender_shared.waker) local_id
      (record h { sender_shared = close_sender h }),
  nothing,
)

unfoldable pub handle_closed : Connection → Option ChannelHandle → ℕ → ℕ → Step
unfolding record_unknown
handle_closed c none local_id now = unless_closed c local_id now
handle_closed c (some h) local_id now = (
  set_handle c (wake c.shared h.receiver_shared.waker) local_id
      (record h { receiver_shared = close_receiver h }),
  nothing,
)

unfoldable pub handle_ping : Connection → ℕ → Step
handle_ping c now =
    let (r, ok) = record_item c.rates.peer_ping c.shared.limits.max_peer_pings_per_second now in
    let c' = record c { rates = record (c.rates) { peer_ping = r } } in
    let (s, sent) = send_priority_frame c.shared (new pong []) in
    if ok
    then (if sent
        then (record c' { shared = s }, nothing)
        else (record c' { shared = s }, violation outgoing_queue_limit))
    else (c', violation ping_rate)

-- The estimate of the round-trip time after one more measurement.
abbrev pub smoothen : Option ℕ → ℕ → ℕ
smoothen none latest_rtt = latest_rtt
smoothen (some rtt) latest_rtt = rtt * 7 / 8 + latest_rtt / 8

unfoldable pub handle_pong : Connection → Option ℕ → ℕ → Step
handle_pong c none now = (c, violation pong_without_ping)
handle_pong c (some last_ping) now = (
  record c {
    ping = record (c.ping) {
      last_ping = none;
      pong_received = true;
      ping_outstanding = false;
      ping_awaiting_flush = false;
      ping_write_deadline_active = false;
      pong_deadline_active = false;
      smoothened_rtt = some (smoothen c.ping.smoothened_rtt (now - last_ping));
    };
  },
  nothing,
)
