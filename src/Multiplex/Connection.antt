-- ===== src/Multiplex/Connection.antt =====
-- crates/libs/nexigon-multiplex/src/lib.rs: `Connection`, the state of a connection and the operations on
-- its tables. Times are numbers of milliseconds. A `HashMap` is an association list; whether the caller
-- of a pending open has gone is an argument, as the callers own that. `answers` records what callers
-- were told. The estimates of the round-trip time are kept, counters of frames are left out.
pub mod Closing
pub mod Views
pub mod Handling
pub mod Dispatch
pub mod Commands
pub mod Liveness
pub mod Polling
pub mod Slots
pub mod Ordering
pub mod Calling
pub mod Turns
pub mod Soundness
pub mod History
pub mod Pinging
pub mod Ending
pub mod Lateness
mod Examples
pub mod Admission
pub mod Granting
pub mod Streaming
pub mod Admitted
use nexigon.Base.{
  ℕ, suc, ◌+◌, ◌-◌, Bool, true, false, not, ◌&&◌, ◌||◌, Option, none, some, List, [], ◌∷◌, ◌++◌,
  ltb, leb, ◌==◌, if◌then◌else◌, length, lookup, without, insert, modify,
}
use nexigon.Multiplex.Frames.{Frame, new, hello, octets, protocol_magic}
use nexigon.Multiplex.Limits.{ConnectionLimits, max_channel_payload_size}
use nexigon.Multiplex.Rate.{RateCounter, new_rate, record_item}
use nexigon.Multiplex.Shared.{ConnectionShared, new_shared, send_frame, clear_queues}
use nexigon.Multiplex.Channel.{SenderShared, new_sender_shared, wake}
use nexigon.Multiplex.Channel.Receiver.{ReceiverShared, new_receiver_shared}

pub record ChannelHandle : Type 0 where
  pub remote_id : ℕ
  pub sender_shared : SenderShared
  pub receiver_shared : ReceiverShared

pub record ClosedChannelTombstone : Type 0 where
  pub local_id : ℕ
  pub remaining_frame_credit : ℕ
  pub remaining_byte_credit : ℕ

-- What the caller of `ConnectionRef::open`, or the callback of an accepted request, is given.
pub data Answer : Type 0 where
  opened : (local_id : ℕ) → Answer
  open_closed : Answer
  limit_reached : Answer
  rejected : Frame → Answer

pub data ConnectionEvent : Type 0 where
  connected : ConnectionEvent
  closed_by_peer : ConnectionEvent
  request_channel : Frame → ConnectionEvent

pub data ProtocolViolation : Type 0 where
  hello_must_be_first channel_request_rate control_payload_too_large : ProtocolViolation
  control_frame_rate invalid_protocol_magic duplicate_hello : ProtocolViolation
  outgoing_queue_limit request_not_found data_frame_too_large no_frame_credit : ProtocolViolation
  not_enough_byte_credit late_data_exceeds_credits unknown_channel_rate : ProtocolViolation
  empty_adjustment frame_credit_overflow byte_credit_overflow : ProtocolViolation
  ping_rate pong_without_ping invalid_frame : ProtocolViolation

-- The state of the liveness checks.
pub record PingState : Type 0 where
  pub next_ping : ℕ
  pub last_ping : Option ℕ
  pub smoothened_rtt : Option ℕ
  pub pong_received : Bool
  pub ping_outstanding : Bool
  pub ping_awaiting_flush : Bool
  pub ping_write_deadline_active : Bool
  pub ping_write_deadline : ℕ
  pub pong_deadline_active : Bool
  pub pong_deadline : ℕ

pub record Rates : Type 0 where
  pub peer_ping : RateCounter
  pub channel_request : RateCounter
  pub control_frame : RateCounter
  pub unknown_channel : RateCounter

-- `detached` holds the channels that the connection let go of when it closed; their ends live on.
-- `has_gone` tells which callers have dropped their result futures when an answer is sent to them.
pub record Connection : Type 0 where
  pub shared : ConnectionShared
  pub exhausted : Bool
  pub closed : Bool
  pub hello_received : Bool
  pub handshake_deadline : ℕ
  pub next_channel_id : ℕ
  pub pending_requests : List (ℕ × ℕ)
  pub channels : List (ℕ × ChannelHandle)
  pub closed_channels : List ClosedChannelTombstone
  pub cancelled_open_tombstones : List ℕ
  pub ping : PingState
  pub rates : Rates
  pub answers : List (ℕ × Answer)
  pub detached : List (ℕ × ChannelHandle)
  pub has_gone : ℕ → Bool

-- `Connection::with_limits` on validated limits, and whether its Hello could be queued.
unfoldable pub with_limits : ConnectionLimits → ℕ → Connection × Bool
with_limits l now =
    let (s, ok) = send_frame (new_shared l) (new hello (octets protocol_magic ∷ octets [] ∷ [])) in
    (
      record {
        shared = s;
        exhausted = false;
        closed = false;
        hello_received = false;
        handshake_deadline = now + l.handshake_timeout;
        next_channel_id = 1;
        pending_requests = [];
        channels = [];
        closed_channels = [];
        cancelled_open_tombstones = [];
        ping = record {
          next_ping = now + l.ping_interval;
          last_ping = none;
          smoothened_rtt = none;
          pong_received = true;
          ping_outstanding = false;
          ping_awaiting_flush = false;
          ping_write_deadline_active = false;
          ping_write_deadline = now + l.ping_write_timeout;
          pong_deadline_active = false;
          pong_deadline = now + l.pong_timeout;
        };
        rates = record {
          peer_ping = new_rate now;
          channel_request = new_rate now;
          control_frame = new_rate now;
          unknown_channel = new_rate now;
        };
        answers = [];
        detached = [];
        has_gone = λ caller. false;
      },
      ok,
    )

abbrev pub send : Connection → Frame → Connection × Bool
send c f = let (s, ok) = send_frame c.shared f in (record c { shared = s }, ok)

abbrev pub answer : Connection → ℕ → Answer → Connection
answer c caller a = record c { answers = c.answers ++ ((caller, a) ∷ []) }

abbrev pub close_sender : ChannelHandle → SenderShared
close_sender h = record (h.sender_shared) { closed = true; waker = none }

abbrev pub close_receiver : ChannelHandle → ReceiverShared
close_receiver h = record (h.receiver_shared) { closed = true; waker = none }

-- Both ends of every channel are closed, and who waits for one is woken.
unfoldable pub close_channels :
    ConnectionShared → List (ℕ × ChannelHandle) → ConnectionShared × List (ℕ × ChannelHandle)
close_channels s [] = (s, [])
close_channels s ((k, h) ∷ hs) =
    let woken = wake (wake s h.sender_shared.waker) h.receiver_shared.waker in
    let (s', rest) = close_channels woken hs in
    (
      s',
      (k, record h { sender_shared = close_sender h; receiver_shared = close_receiver h }) ∷ rest,
    )

unfoldable pub drop_callers : List (ℕ × ℕ) → List (ℕ × Answer)
drop_callers [] = []
drop_callers ((k, caller) ∷ ps) = (caller, open_closed) ∷ drop_callers ps

-- `Connection::close_state`. A caller whose result is dropped sees the connection closed.
unfoldable pub close_state : Connection → Connection
unfolding close_channels drop_callers
close_state c =
    let (s, hs) = close_channels (clear_queues (record (c.shared) { closed = true })) c.channels in
    if c.closed then c else record c {
      closed = true;
      shared = s;
      pending_requests = [];
      channels = [];
      closed_channels = [];
      cancelled_open_tombstones = [];
      answers = c.answers ++ drop_callers c.pending_requests;
      detached = hs ++ c.detached;
    }

-- The handle of a new channel.
abbrev pub new_handle : ConnectionLimits → (remote_id : ℕ) → ℕ → ℕ → ℕ → ChannelHandle
new_handle l remote_id initial_frame_credit initial_byte_credit now = record {
  remote_id = remote_id;
  sender_shared = new_sender_shared initial_frame_credit initial_byte_credit now;
  receiver_shared = new_receiver_shared l.max_receive_frame_credit l.max_receive_byte_credit now;
}

-- `Connection::make_channel`, with `none` for its failed assertion.
unfoldable pub make_channel : Connection → (local_id remote_id : ℕ) → ℕ → ℕ → ℕ → Option Connection
make_channel c local_id remote_id initial_frame_credit initial_byte_credit now =
    if ltb (length c.channels) c.shared.limits.max_channels
    then some (record c {
      channels =
          insert local_id
            (new_handle c.shared.limits remote_id initial_frame_credit initial_byte_credit now)
            c.channels;
    })
    else none

abbrev pub occupied_channel_slots : Connection → ℕ
occupied_channel_slots c =
    length c.channels + length c.pending_requests + c.shared.pending_incoming_requests
