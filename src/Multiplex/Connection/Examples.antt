-- ===== src/Multiplex/Connection/Examples.antt =====
-- Connections over a transport that delivers a list of frames, and the theorems at them.
use nexigon.Base.{ℕ, ◌≡◌, refl, Bool, true, false, Option, some, List, [], ◌∷◌, ◌+◌}
use nexigon.Multiplex.Frames.{
  Frame, protocol_magic, channel_request, parse, ok, kind_of_tag, min_frame_size,
}
use nexigon.Multiplex.Limits.{default_limits}
use nexigon.Multiplex.Connection.{Connection, ClosedChannelTombstone, with_limits, close_state}
use nexigon.Multiplex.Connection.Closing.{late, discard_late}
use nexigon.Multiplex.Connection.Views.{PeerFrame, view, view-parse}
use nexigon.Multiplex.Connection.Commands.{open_call}
use nexigon.Multiplex.Connection.Liveness.{Ready, ready, pending, Transport, Poll}
use nexigon.Multiplex.Connection.Polling.{poll_connection}
use nexigon.Multiplex.Connection.Slots.{IsSound}
use nexigon.Multiplex.Connection.Calling.{shares}
use nexigon.Multiplex.Connection.Turns.{NoPollPanic, held_after_poll}
use nexigon.Multiplex.Connection.History.{
  Reaches, starts, polls, opens, reached-IsSound, poll_connection-NoPollPanic,
}
use nexigon.Multiplex.Connection.Pinging.{
  PingPhase, idle, IsIn, Leads, ticks, ping_step, ping_step-Leads,
}
use nexigon.Multiplex.Connection.Lateness.{
  discard_all, frames_left, bytes_left, total, discard_all-credit,
}
use nexigon.Multiplex.Connection.Ending.{IsEnded, close_state-IsEnded}

abbrev next : List (List ℕ) → List (List ℕ) × Ready (Option (List ℕ))
next [] = ([], pending)
next (bytes ∷ rest) = (rest, ready (some bytes))

-- A transport that takes every frame, and delivers these.
abbrev delivers : Transport (List (List ℕ))
delivers = record {
  poll_ready = λ t. (t, ready tt);
  start_send = λ t bytes. (t, true);
  poll_flush = λ t. (t, ready tt);
  poll_next = next;
}

abbrev hello_bytes : List ℕ
hello_bytes = 0 ∷ protocol_magic

abbrev request_bytes : List ℕ
request_bytes = 16 ∷ 0 ∷ 0 ∷ 0 ∷ 0 ∷ 0 ∷ 0 ∷ 0 ∷ 7 ∷ 0 ∷ 0 ∷ 0 ∷ 8 ∷ 0 ∷ 0 ∷ 4 ∷ 0 ∷ 97 ∷ []

abbrev deliveries : List (List ℕ)
deliveries = hello_bytes ∷ request_bytes ∷ []

abbrev never : ℕ → Bool
never caller = false

abbrev first : List (List ℕ) × Connection × Poll
first = poll_connection delivers 1 never deliveries (with_limits default_limits 0).0

abbrev asking : Connection
asking = shares first.1 (open_call first.1.shared (97 ∷ []) 3).0

polled : Reaches delivers default_limits 0 deliveries (held_after_poll 0 first.2) first.0 asking
polled = opens (97 ∷ []) 3 (polls 1 never starts)

reached-IsSound_example : IsSound (held_after_poll 0 first.2) asking
reached-IsSound_example =
    reached-IsSound delivers default_limits 0 deliveries (held_after_poll 0 first.2) first.0 asking
      polled

poll_connection-NoPollPanic_example :
    NoPollPanic (poll_connection delivers 3 never first.0 asking).2
poll_connection-NoPollPanic_example =
    poll_connection-NoPollPanic delivers default_limits 0 deliveries (held_after_poll 0 first.2)
      first.0 asking 3 never polled

abbrev request_frame : Frame
request_frame = record { kind = channel_request; bytes = request_bytes }

request_bytes-parse : parse request_bytes ≡ ok request_frame
unfolding parse kind_of_tag min_frame_size
request_bytes-parse = refl

view-parse_example : (p : PeerFrame) × (view request_frame ≡ some p)
view-parse_example = view-parse request_bytes request_frame request_bytes-parse

started-IsIn : IsIn idle (with_limits default_limits 0).0.ping
unfolding with_limits
started-IsIn = (refl, refl, refl, refl, refl, refl)

ping_step-Leads_example :
    (q : PingPhase) × Leads idle (ticks 20000) q
    × IsIn q (ping_step (with_limits default_limits 0).0 (ticks 20000)).ping
ping_step-Leads_example =
    ping_step-Leads idle (with_limits default_limits 0).0 (ticks 20000) started-IsIn

abbrev tombstones : ℕ → ℕ → List ClosedChannelTombstone
tombstones frames bytes =
    record { local_id = 7; remaining_frame_credit = frames; remaining_byte_credit = bytes } ∷ []

late_payloads : discard_all 7 (10 ∷ 20 ∷ []) (tombstones 3 100) ≡ late (tombstones 1 70)
unfolding discard_all discard_late
late_payloads = refl

discard_all-credit_example :
    (2 + frames_left 7 (tombstones 1 70) ≡ frames_left 7 (tombstones 3 100))
    × (total (10 ∷ 20 ∷ []) + bytes_left 7 (tombstones 1 70) ≡ bytes_left 7 (tombstones 3 100))
discard_all-credit_example =
    discard_all-credit 7 (10 ∷ 20 ∷ []) (tombstones 3 100) (tombstones 1 70) late_payloads

abbrev live : Connection
live = record ((with_limits default_limits 0).0) { pending_requests = (1, 5) ∷ [] }

live-closed : live.closed ≡ false
unfolding with_limits
live-closed = refl

close_state-IsEnded_example : IsEnded live (close_state live)
close_state-IsEnded_example = close_state-IsEnded live live-closed
