-- ===== src/Multiplex/Connection/Admission.antt =====
-- Handling a frame keeps the slots of a connection, and no assertion fails.
use nexigon.Base.{
  ℕ, suc, ◌≡◌, refl, ap, Bool, true, false, ◌||◌, arith, length, length-modify, inl, inr,
  Bool-cases, leb, if◌then◌else◌,
}
use nexigon.Multiplex.Frames.{Frame}
use nexigon.Multiplex.Shared.{ConnectionShared}
use nexigon.Multiplex.Shared.Rest.{KeepsRest}
use nexigon.Multiplex.Connection.{
  Connection, ChannelHandle, send, occupied_channel_slots, connected, closed_by_peer,
  request_channel, outgoing_queue_limit, ProtocolViolation, unknown_channel_rate, ConnectionEvent,
}
use nexigon.Multiplex.Connection.Closing.{is_recently_closed}
use nexigon.Multiplex.Rate.{record_item}
use nexigon.Multiplex.Connection.Slots.{IsSound, IsLeaner-IsSound, send-IsSound}
use nexigon.Multiplex.Connection.Handling.{
  Handled, nothing, event, violation, panics, Step, send_or_fail, handle_request, set_handle,
  record_unknown, unless_closed,
}

-- The requests that callers hold after an event, and after a frame was handled.
abbrev pub held_with : ℕ → ConnectionEvent → ℕ
held_with held connected = held
held_with held closed_by_peer = held
held_with held (request_channel f) = suc held

abbrev pub held_after : ℕ → Handled → ℕ
held_after held nothing = held
held_after held (event e) = held_with held e
held_after held (violation v) = held
held_after held panics = held

abbrev pub NoPanic : Handled → Type 0
NoPanic panics = ⊥
NoPanic _ = Unit {0}

-- A step ends in a sound connection, with one more request held if it grants one, and without a panic.
abbrev pub IsSafe : ℕ → Step → Type 0
IsSafe held r = IsSound (held_after held r.1) r.0 × NoPanic r.1

pub send_or_fail-IsSafe :
    (held : ℕ) (c : Connection) (f : Frame) (rest : Connection → Step)
    → IsSound held c
    → ((d : Connection) → IsSound held d → IsSafe held (rest d))
    → IsSafe held (send_or_fail c f rest)
send_or_fail-IsSafe held c f rest v k = sends (send c f).1
  where
    sends :
        (sent : Bool)
        → IsSafe held
            (if sent then rest (send c f).0 else ((send c f).0, violation outgoing_queue_limit))
    sends true = k (send c f).0 (send-IsSound held c f v)
    sends false = (send-IsSound held c f v, tt)

pub handle_request-IsSafe :
    (held : ℕ) (c : Connection) (f : Frame) (sender_id : ℕ)
    → IsSound held c
    → IsSafe held (handle_request c f sender_id)
unfolding handle_request
handle_request-IsSafe held c f sender_id v =
    elim (Bool-cases (
      leb c.shared.limits.max_pending_channel_requests c.shared.pending_incoming_requests
      || leb c.shared.limits.max_channels (occupied_channel_slots c))) [
        | inl full ↦ rw full (send_or_fail-IsSafe held c _ (λ d. (d, nothing)) v (λ d w. (w, tt)))
        | inr room ↦ rw room (
          record {
            few_slots = ground arith;
            counted = let h = v.counted in omega arith;
            few_requests = v.few_requests;
            few_incoming = ground arith;
            few_closed = v.few_closed;
            few_cancelled = v.few_cancelled;
            ready_commands = v.ready_commands;
          },
          tt,
        )
      ]

pub wake_handle-IsSound :
    (held : ℕ) (c : Connection) (s : ConnectionShared) (k : ℕ) (h : ChannelHandle)
    → KeepsRest c.shared s
    → IsSound held c
    → IsSound held (set_handle c s k h)
wake_handle-IsSound held c s k h r v =
    let same = length-modify k h c.channels in
    IsLeaner-IsSound held c (set_handle c s k h) v (record {
      limits = r.limits;
      incoming = r.incoming;
      commands = r.commands;
      slots = omega arith;
      requests = omega arith;
      closed_ones = omega arith;
      cancelled_ones = omega arith;
    })

-- A connection that differs in its counters, answers or liveness checks only.
abbrev pub Same : Connection → Connection → Type 0
Same c d =
    (d.shared ≡ c.shared)
    × (d.channels ≡ c.channels)
    × (d.pending_requests ≡ c.pending_requests)
    × (d.closed_channels ≡ c.closed_channels)
    × (d.cancelled_open_tombstones ≡ c.cancelled_open_tombstones)

pub Same-IsSound : (held : ℕ) (c d : Connection) → Same c d → IsSound held c → IsSound held d
Same-IsSound held c d (s, a, b, x, y) v = IsLeaner-IsSound held c d v (record {
  limits = ap (λ t. t.limits) s;
  incoming = ap (λ t. t.pending_incoming_requests) s;
  commands = ap (λ t. t.queues.commands) s;
  slots = let h = ap length a in let k = ap length b in omega arith;
  requests = let k = ap length b in omega arith;
  closed_ones = let k = ap length x in omega arith;
  cancelled_ones = let k = ap length y in omega arith;
})

-- Whichever way a test goes.
pub either-IsSafe :
    (held : ℕ) (b : Bool) (r s : Step)
    → IsSafe held r
    → IsSafe held s
    → IsSafe held (if b then r else s)
either-IsSafe held true r s v w = v
either-IsSafe held false r s v w = w

-- A connection that passes a check, or violates the protocol.
pub checked-IsSafe :
    (held : ℕ) (ok : Bool) (x : ProtocolViolation) (c : Connection)
    → IsSound held c
    → IsSafe held (if ok then (c, nothing) else (c, violation x))
checked-IsSafe held true x c v = (v, tt)
checked-IsSafe held false x c v = (v, tt)

pub record_unknown-IsSafe :
    (held : ℕ) (c : Connection) (now : ℕ) → IsSound held c → IsSafe held (record_unknown c now)
unfolding record_unknown
record_unknown-IsSafe held c now v =
    checked-IsSafe held
      (record_item c.rates.unknown_channel c.shared.limits.max_unknown_channel_frames_per_second
        now).1
      unknown_channel_rate _ (Same-IsSound held c _ (refl, refl, refl, refl, refl) v)

pub unless_closed-IsSafe :
    (held : ℕ) (c : Connection) (k now : ℕ) → IsSound held c → IsSafe held (unless_closed c k now)
unless_closed-IsSafe held c k now v = elim (Bool-cases (is_recently_closed k c.closed_channels)) [
  | inl known ↦ rw known (v, tt)
  | inr unknown ↦ rw unknown (record_unknown-IsSafe held c now v)
]
