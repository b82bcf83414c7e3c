-- ===== src/Multiplex/Connection/Commands.antt =====
-- crates/libs/nexigon-multiplex/src/lib.rs: `Connection::handle_cmd`, and the calls that queue commands,
-- `ConnectionRef::open` and the methods of `ChannelRequest`.
use nexigon.Base.{
  ℕ, ◌-◌, Bool, true, false, ◌||◌, Option, none, some, List, [], ◌∷◌, ltb, leb, if◌then◌else◌,
  length, insert, add_u64,
}
use nexigon.Multiplex.Frames.{
  Frame, FieldValue, id, word, octets, new, get_field, set_field, channel_request, channel_accept,
  channel_reject,
}
use nexigon.Multiplex.Limits.{channel_initial_frame_credit, channel_initial_byte_credit}
use nexigon.Multiplex.Shared.{
  ConnectionShared, ConnectionCmd, open_channel, accept_channel, is_closing, send_frame, send_cmd,
}
use nexigon.Multiplex.Connection.{
  Connection, Answer, open_closed, limit_reached, opened, send, answer, make_channel,
  occupied_channel_slots,
}
use nexigon.Multiplex.Connection.Views.{number}
use nexigon.Multiplex.Connection.Handling.{limit_reason}

-- `PendingIncomingSlot::drop`, of a slot that is held.
unfoldable pub release_slot : ConnectionShared → Bool → ConnectionShared
release_slot s false = s
release_slot s true = record s {
  pending_incoming_requests = s.pending_incoming_requests - 1;
  connection_woken = true;
}

-- A command that was handled, or a panic.
pub data CmdResult : Type 0 where
  done : Connection → CmdResult
  cmd_panics : CmdResult

-- The request of an open, with the id of its channel, is queued.
abbrev pub request_channel_id : Connection → ℕ → ℕ → Option Frame → CmdResult
request_channel_id c caller local_id none = cmd_panics
request_channel_id c caller local_id (some f) =
    let (c', ok) = send c f in
    if ok
    then done (record c' { pending_requests = insert local_id caller c'.pending_requests })
    else done (answer c' caller open_closed)

abbrev pub reserve_channel_id : Connection → Connection
reserve_channel_id c = record c { next_channel_id = add_u64 c.next_channel_id 1 }

unfoldable pub handle_open : Connection → (ℕ → Bool) → Frame → ℕ → CmdResult
handle_open c is_canceled request caller =
    if is_canceled caller
    then done c
    else if leb c.shared.limits.max_pending_channel_requests (length c.pending_requests)
        || leb c.shared.limits.max_channels (occupied_channel_slots c)
    then done (answer c caller limit_reached)
    else request_channel_id (reserve_channel_id c) caller c.next_channel_id
        (set_field request 0 (id c.next_channel_id))

abbrev pub give_accepted : Option Connection → ℕ → ℕ → CmdResult
give_accepted none callback local_id = cmd_panics
give_accepted (some c) callback local_id = done (answer c callback (opened local_id))

-- The accept, with the id of its channel, is queued, and the channel made.
abbrev pub accept_channel_id : Connection → ℕ → ℕ → ℕ → ℕ → ℕ → ℕ → Option Frame → CmdResult
accept_channel_id c remote_id local_id frame_credit byte_credit callback now none = cmd_panics
accept_channel_id c remote_id local_id frame_credit byte_credit callback now (some f) =
    let (c', ok) = send c f in
    if ok
    then give_accepted (make_channel c' local_id remote_id frame_credit byte_credit now) callback
        local_id
    else done c'

abbrev pub accept_for : Connection → Frame → Option FieldValue → ℕ → ℕ → ℕ → ℕ → CmdResult
accept_for c accept none frame_credit byte_credit callback now = cmd_panics
accept_for c accept (some remote_id) frame_credit byte_credit callback now =
    if leb c.shared.limits.max_channels (length c.channels)
    then done (send c (new channel_reject (id (number remote_id) ∷ octets limit_reason ∷ []))).0
    else accept_channel_id (reserve_channel_id c) (number remote_id) c.next_channel_id frame_credit
        byte_credit callback now (set_field accept 1 (id c.next_channel_id))

unfoldable pub handle_accept_cmd : Connection → Frame → ℕ → ℕ → ℕ → Bool → ℕ → CmdResult
unfolding release_slot
handle_accept_cmd c accept frame_credit byte_credit callback pending_slot now =
    accept_for (record c { shared = release_slot c.shared pending_slot }) accept
      (get_field accept 0) frame_credit byte_credit callback now

-- `Connection::handle_cmd`.
unfoldable pub handle_cmd : Connection → (ℕ → Bool) → ConnectionCmd → ℕ → CmdResult
unfolding handle_open handle_accept_cmd
handle_cmd c is_canceled (open_channel request caller) now =
    handle_open c is_canceled request caller
handle_cmd c is_canceled (accept_channel accept a b callback pending_slot) now =
    handle_accept_cmd c accept a b callback pending_slot now

pub data OpenCall : Type 0 where
  refused : Answer → OpenCall
  waiting : OpenCall

-- `ConnectionRef::open`, up to where it waits for its result.
unfoldable pub open_call : ConnectionShared → List ℕ → ℕ → ConnectionShared × OpenCall
open_call s endpoint caller =
    let request = new channel_request (
      id 0
      ∷ word channel_initial_frame_credit
      ∷ word channel_initial_byte_credit
      ∷ octets endpoint
      ∷ []) in
    let (s', ok) = send_cmd s (open_channel request caller) in
    if is_closing s
    then (s, refused open_closed)
    else if ltb s.limits.max_control_payload_size (length endpoint)
    then (s, refused limit_reached)
    else if ok
    then (s', waiting)
    else (s', refused open_closed)

-- `ChannelRequest::mut_reject` of a request that holds its slot, and with it `reject` and `drop`.
unfoldable pub reject_call : ConnectionShared → ℕ → List ℕ → ConnectionShared
unfolding release_slot
reject_call s sender_id reason =
    (send_frame (release_slot s true) (new channel_reject (id sender_id ∷ octets reason ∷ []))).0

-- A command that could not be queued is dropped with its slot.
abbrev pub keep_or_release : ConnectionShared × Bool → ConnectionShared
keep_or_release (s, true) = s
keep_or_release (s, false) = release_slot s true

-- `ChannelRequest::accept` of a request that holds its slot.
unfoldable pub accept_call :
    ConnectionShared → (sender_id frame_credit byte_credit callback : ℕ) → ConnectionShared
unfolding release_slot
accept_call s sender_id frame_credit byte_credit callback = keep_or_release (
    send_cmd s (
      accept_channel
        (new channel_accept (
          id sender_id
          ∷ id 0
          ∷ word channel_initial_frame_credit
          ∷ word channel_initial_byte_credit
          ∷ []))
        frame_credit byte_credit callback true))
