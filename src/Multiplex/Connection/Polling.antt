-- ===== src/Multiplex/Connection/Polling.antt =====
-- crates/libs/nexigon-multiplex/src/lib.rs: `Connection::poll_event` over a transport, and the stream of
-- events. The number of turns of a loop is the limit that the code counts up to.
use nexigon.Base.{
  ℕ, zero, suc, Bool, true, false, not, ◌&&◌, ◌||◌, Option, none, some, List, ltb, if◌then◌else◌,
  length,
}
use nexigon.Multiplex.Frames.{Frame, FrameKind, pong, parse, ParseResult, ok, err}
use nexigon.Multiplex.Shared.{pop_frame, is_hello}
use nexigon.Multiplex.Connection.{Connection, close_state, invalid_frame}
use nexigon.Multiplex.Connection.Handling.{Step, nothing, event, violation, panics}
use nexigon.Multiplex.Connection.Dispatch.{handle_frame}
use nexigon.Multiplex.Connection.Liveness.{
  Ready, ready, fails, pending, Transport, ConnectionError, transport_error, protocol_violation,
  resource_limit_exceeded, handshake_deadline_exceeded, ping_write_deadline_exceeded,
  pong_deadline_exceeded, Poll, poll_pending, finished, yields, poll_error, poll_panics, Expired,
  poll_deadlines, handshake_overdue, ping_write_overdue, pong_overdue, Phase, goes_on, ends,
  prepare, mark_sent, mark_flushed,
}

abbrev pub wake_connection : Connection → Connection
wake_connection c = record c { shared = record (c.shared) { connection_woken = true } }

abbrev pub is_pong : FrameKind → Bool
is_pong pong = true
is_pong _ = false

-- The deadline that a frame comes too late for.
abbrev pub overdue_at : Expired → Connection → FrameKind → Option ConnectionError
overdue_at x c k =
    if handshake_overdue x c && not (is_hello k)
    then some handshake_deadline_exceeded
    else if pong_overdue x c && not (is_pong k)
    then some pong_deadline_exceeded
    else if ping_write_overdue x c && not (is_pong k)
    then some ping_write_deadline_exceeded
    else none

-- The checks at the end of a poll.
abbrev pub overdue_at_end : Expired → Connection → Poll
overdue_at_end x c =
    if handshake_overdue x c
    then poll_error handshake_deadline_exceeded
    else if ping_write_overdue x c
    then poll_error ping_write_deadline_exceeded
    else if pong_overdue x c
    then poll_error pong_deadline_exceeded
    else poll_pending

-- What a handled frame makes of the poll.
abbrev pub after_frame : Step → Phase
after_frame (c, nothing) = goes_on c
after_frame (c, event e) = ends c (yields e)
after_frame (c, violation v) = ends c (poll_error (protocol_violation v))
after_frame (c, panics) = ends c poll_panics

abbrev pub unless_overdue : Option ConnectionError → Connection → Frame → ℕ → Phase
unless_overdue (some e) c f now = ends c (poll_error e)
unless_overdue none c f now = after_frame (handle_frame c f now)

abbrev pub receive_parsed : Expired → Connection → ParseResult → ℕ → Phase
receive_parsed x c (err e) now = ends c (poll_error (protocol_violation invalid_frame))
receive_parsed x c (ok f) now = unless_overdue (overdue_at x c f.kind) c f now

-- One frame that the transport gave.
unfoldable pub receive_bytes : Expired → Connection → List ℕ → ℕ → Phase
receive_bytes x c bytes now =
    if ltb c.shared.limits.max_encoded_frame_size (length bytes)
    then ends c (poll_error resource_limit_exceeded)
    else receive_parsed x c (parse bytes) now

module _ {ℓ} {T : Type ℓ} (transport : Transport T) (now : ℕ) where
  abbrev pub then_on : T → Phase → (T → Connection → T × Phase) → T × Phase
  then_on t (goes_on c) k = k t c
  then_on t (ends c p) k = (t, ends c p)

  abbrev pub after_send : T × Bool → Connection → Frame → (T → Connection → T × Phase) → T × Phase
  after_send (t, true) c f k = k t (mark_sent c f now)
  after_send (t, false) c f k = (t, ends c (poll_error transport_error))

  abbrev pub send_popped : T → Connection → Option Frame → (T → Connection → T × Phase) → T × Phase
  send_popped t c none k = (t, goes_on c)
  send_popped t c (some f) k = after_send (transport.start_send t f.bytes) c f k

  abbrev pub when_ready :
      T × Ready (Unit {0}) → Connection → (T → Connection → T × Phase) → T × Phase
  when_ready (t, ready u) c k =
      send_popped t (record c { shared = (pop_frame c.shared).0 }) (pop_frame c.shared).1 k
  when_ready (t, fails) c k = (t, ends c (poll_error transport_error))
  when_ready (t, pending) c k = (t, goes_on c)

  -- Queued frames are handed to the transport.
  unfoldable pub send_frames : ℕ → T → Connection → T × Phase
  send_frames zero t c = (t, goes_on (wake_connection c))
  send_frames (suc n) t c = when_ready (transport.poll_ready t) c (send_frames n)

  abbrev pub flushed_phase : T × Ready (Unit {0}) → Connection → T × Phase
  flushed_phase (t, ready u) c = (t, goes_on (mark_flushed c now))
  flushed_phase (t, fails) c = (t, ends c (poll_error transport_error))
  flushed_phase (t, pending) c = (t, goes_on c)

  abbrev pub when_received :
      Expired → T × Ready (Option (List ℕ)) → Connection → (T → Connection → T × Phase) → T × Phase
  when_received x (t, ready none) c k = (t, ends (record c { exhausted = true }) finished)
  when_received x (t, ready (some bytes)) c k = then_on t (receive_bytes x c bytes now) k
  when_received x (t, fails) c k = (t, ends c (poll_error transport_error))
  when_received x (t, pending) c k = (t, goes_on c)

  -- Frames are taken from the transport.
  unfoldable pub receive_frames : Expired → ℕ → T → Connection → T × Phase
  receive_frames x zero t c = (t, goes_on (wake_connection c))
  receive_frames x (suc n) t c =
      if c.exhausted
      then (t, goes_on c)
      else when_received x (transport.poll_next t) c (receive_frames x n)

  abbrev pub end_poll : Expired → T × Phase → T × Connection × Poll
  end_poll x (t, goes_on c) = (t, c, overdue_at_end x c)
  end_poll x (t, ends c p) = (t, c, p)

  -- Phases 2, 3 and 4 of a poll.
  unfoldable pub exchange : Expired → T → Connection → T × Phase
  unfolding send_frames receive_frames
  exchange x t c =
      let (t', phase) = send_frames c.shared.limits.max_queued_frames t c in
      then_on t' phase (λ s d.
        let (s', flushing) = flushed_phase (transport.poll_flush s) d in
        then_on s' flushing
          (λ u e. receive_frames x e.shared.limits.max_frames_processed_per_poll u e))

  -- `Connection::poll_event`.
  unfoldable pub poll_event : (ℕ → Bool) → T → Connection → T × Connection × Poll
  unfolding exchange
  poll_event is_canceled t c =
      if (c.closed || c.exhausted) || c.shared.closed
      then (t, c, finished)
      else if c.shared.overloaded
      then (t, c, poll_error resource_limit_exceeded)
      else end_poll (poll_deadlines c now)
          (then_on t (prepare is_canceled now c) (exchange (poll_deadlines c now)))

  abbrev pub close_at_end : T × Connection × Poll → T × Connection × Poll
  close_at_end (t, c, finished) = (t, close_state c, finished)
  close_at_end (t, c, poll_error e) = (t, close_state c, poll_error e)
  close_at_end (t, c, poll_pending) = (t, c, poll_pending)
  close_at_end (t, c, yields e) = (t, c, yields e)
  close_at_end (t, c, poll_panics) = (t, c, poll_panics)

  -- `Stream::poll_next` of a connection.
  unfoldable pub poll_connection : (ℕ → Bool) → T → Connection → T × Connection × Poll
  unfolding poll_event
  poll_connection is_canceled t c = close_at_end (poll_event is_canceled t c)
