-- ===== src/Multiplex/Connection/Liveness.antt =====
-- crates/libs/nexigon-multiplex/src/lib.rs: pings, deadlines, and `Connection::poll_event`, which ties the
-- connection together. The transport is an argument.
use nexigon.Base.{
  ℕ, zero, suc, ◌+◌, Bool, true, false, not, ◌&&◌, ◌||◌, Option, none, some, List, [], ltb, leb,
  if◌then◌else◌,
}
use nexigon.Multiplex.Frames.{Frame, FrameKind, new, ping}
use nexigon.Multiplex.Shared.{send_priority_frame, pop_cmd, ConnectionShared, ConnectionCmd}
use nexigon.Multiplex.Connection.{Connection, ConnectionEvent, ProtocolViolation}
use nexigon.Multiplex.Connection.Closing.{cleanup_channels, cleanup_cancelled_opens}
use nexigon.Multiplex.Connection.Commands.{CmdResult, done, cmd_panics, handle_cmd}

-- What a poll of the transport answers.
pub data Ready {ℓ} (A : Type ℓ) : Type ℓ where
  ready : A → Ready A
  fails : Ready A
  pending : Ready A

-- `ConnectionTransport`: a sink and a stream of frames. `ready none` ends the stream.
pub record Transport {ℓ} (T : Type ℓ) : Type ℓ where
  pub poll_ready : T → T × Ready (Unit {0})
  pub start_send : T → List ℕ → T × Bool
  pub poll_flush : T → T × Ready (Unit {0})
  pub poll_next : T → T × Ready (Option (List ℕ))

pub data ConnectionError : Type 0 where
  transport_error : ConnectionError
  protocol_violation : ProtocolViolation → ConnectionError
  resource_limit_exceeded : ConnectionError
  handshake_deadline_exceeded ping_write_deadline_exceeded pong_deadline_exceeded : ConnectionError

pub data Poll : Type 0 where
  poll_pending : Poll
  finished : Poll
  yields : ConnectionEvent → Poll
  poll_error : ConnectionError → Poll
  poll_panics : Poll

-- `Connection::ping`.
unfoldable pub send_ping : Connection → ℕ → Connection
send_ping c now =
    let (s, sent) = send_priority_frame c.shared (new ping []) in
    let ticked = record c {
      shared = s;
      ping = record (c.ping) { next_ping = now + c.shared.limits.ping_interval };
    } in
    if not c.hello_received || c.ping.ping_outstanding
    then c
    else if ltb now c.ping.next_ping
    then c
    else if sent
    then record ticked {
      ping = record (ticked.ping) {
        ping_outstanding = true;
        ping_write_deadline_active = true;
        ping_write_deadline = now + c.shared.limits.ping_write_timeout;
      };
    }
    else ticked

pub record Expired : Type 0 where
  pub handshake : Bool
  pub ping_write : Bool
  pub pong : Bool

-- `Connection::poll_deadlines`.
abbrev pub poll_deadlines : Connection → ℕ → Expired
poll_deadlines c now = record {
  handshake = not c.hello_received && leb c.handshake_deadline now;
  ping_write = c.ping.ping_write_deadline_active && leb c.ping.ping_write_deadline now;
  pong = (c.ping.pong_deadline_active && not c.ping.pong_received) && leb c.ping.pong_deadline now;
}

abbrev pub handshake_overdue : Expired → Connection → Bool
handshake_overdue x c = x.handshake && not c.hello_received

abbrev pub ping_write_overdue : Expired → Connection → Bool
ping_write_overdue x c = x.ping_write && c.ping.ping_write_deadline_active

abbrev pub pong_overdue : Expired → Connection → Bool
pong_overdue x c = x.pong && not c.ping.pong_received

-- A phase of a poll goes on with the connection, or ends the poll.
pub data Phase : Type 0 where
  goes_on : Connection → Phase
  ends : Connection → Poll → Phase

abbrev pub then_phase : Phase → (Connection → Phase) → Phase
then_phase (goes_on c) k = k c
then_phase (ends c p) k = ends c p

abbrev pub after_cmd : CmdResult → Connection → (Connection → Phase) → Phase
after_cmd (done c) old k = k c
after_cmd cmd_panics old k = ends old poll_panics

abbrev pub unless_cancels_overflow : Connection × Bool → (Connection → Phase) → Phase
unless_cancels_overflow (c, true) k = k c
unless_cancels_overflow (c, false) k = ends c (poll_error resource_limit_exceeded)

abbrev pub unless_overloaded : Connection → Phase
unless_overloaded c =
    if c.shared.overloaded then ends c (poll_error resource_limit_exceeded) else goes_on c

-- The first command, if there is one.
abbrev pub process_popped :
    Connection
    → ConnectionShared × Option ConnectionCmd
    → (Connection → ConnectionCmd → Phase)
    → Phase
process_popped c (s, none) k = goes_on c
process_popped c (s, some cmd) k = k (record c { shared = s }) cmd

module _ (is_canceled : ℕ → Bool) (now : ℕ) where
  -- The loop over the commands, with as many turns as are left.
  unfoldable pub process_commands : ℕ → Connection → Phase
  process_commands zero c =
      goes_on (record c { shared = record (c.shared) { connection_woken = true } })
  process_commands (suc n) c =
      let rest = process_commands n in
      unless_cancels_overflow (cleanup_cancelled_opens c is_canceled) (λ c'.
        process_popped c' (pop_cmd c'.shared)
          (λ d cmd. after_cmd (handle_cmd d is_canceled cmd now) c' rest))

  -- What comes before the transport is used.
  unfoldable pub prepare : Connection → Phase
  unfolding process_commands
  prepare c =
      unless_cancels_overflow (cleanup_cancelled_opens (cleanup_channels c) is_canceled) (λ c'.
        then_phase (unless_overloaded (send_ping c' now)) (λ c''.
          then_phase (process_commands c''.shared.limits.max_queued_commands c'')
            unless_overloaded))

abbrev pub is_ping : FrameKind → Bool
is_ping ping = true
is_ping _ = false

abbrev pub is_none {ℓ} : {A : Type ℓ} → Option A → Bool
is_none none = true
is_none (some a) = false

-- What sending a frame records, if it is the Ping of the liveness check.
abbrev pub mark_sent : Connection → Frame → ℕ → Connection
mark_sent c f now =
    if (c.ping.ping_outstanding && is_none c.ping.last_ping) && is_ping f.kind
    then record c {
      ping = record (c.ping) {
        last_ping = some now;
        pong_received = false;
        ping_awaiting_flush = true;
      };
    }
    else c

-- What a flush records.
abbrev pub mark_flushed : Connection → ℕ → Connection
mark_flushed c now =
    if c.ping.ping_awaiting_flush
    then (if c.ping.pong_received
        then record c {
          ping = record (c.ping) {
            ping_awaiting_flush = false;
            ping_write_deadline_active = false;
            ping_outstanding = false;
          };
        }
        else record c {
          ping = record (c.ping) {
            ping_awaiting_flush = false;
            ping_write_deadline_active = false;
            pong_deadline_active = true;
            pong_deadline = now + c.shared.limits.pong_timeout;
          };
        })
    else c
