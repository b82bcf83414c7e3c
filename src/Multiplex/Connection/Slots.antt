-- ===== src/Multiplex/Connection/Slots.antt =====
-- The slots of a connection: what is counted, and how the parts of the state keep to the limits.
use nexigon.Base.{
  if◌then◌else◌, ℕ, ◌+◌, ◌≤◌, ◌≡◌, refl, Bool, true, false, Option, none, some, List, [], ◌∷◌, ◌++◌,
  arith, length, All, length-append, without, length-without-le, inl, inr, Bool-cases, leb, ◌∙◌,
}
use nexigon.Multiplex.Frames.{Frame, FieldValue, id, get_field, set_field}
use nexigon.Multiplex.Shared.{
  ConnectionShared, ConnectionCmd, open_channel, accept_channel, held_slots, clear_queues,
  send_frame,
}
use nexigon.Multiplex.Shared.Rest.{KeepsRest, send_frame-KeepsRest}
use nexigon.Multiplex.Channel.{wake}
use nexigon.Multiplex.Connection.{
  Connection, ChannelHandle, ClosedChannelTombstone, occupied_channel_slots, send, close_channels,
  close_state, drop_callers,
}
use nexigon.Multiplex.Connection.Closing.{
  trim, remember_closed, bury_channels, cleanup_channels, dropped_channels, cancel_opens,
  cleanup_cancelled_opens, cancelled_opens,
}

-- A command in whose frame the ids can be written, and which holds its slot.
abbrev pub IsReadyCmd : ConnectionCmd → Type 0
IsReadyCmd (open_channel request caller) =
    (n : ℕ) → (f : Frame) × (set_field request 0 (id n) ≡ some f)
IsReadyCmd (accept_channel accept a b callback pending_slot) =
    (pending_slot ≡ true)
    × ((v : FieldValue) × (get_field accept 0 ≡ some v))
    × ((n : ℕ) → (f : Frame) × (set_field accept 1 (id n) ≡ some f))

-- What holds of a connection while callers hold this many of its requests.
pub record IsSound (held : ℕ) (c : Connection) : Type 0 where
  pub few_slots : occupied_channel_slots c ≤ c.shared.limits.max_channels
  pub counted : c.shared.pending_incoming_requests ≡ held + held_slots c.shared.queues.commands
  pub few_requests : length c.pending_requests ≤ c.shared.limits.max_pending_channel_requests
  pub few_incoming :
      c.shared.pending_incoming_requests ≤ c.shared.limits.max_pending_channel_requests
  pub few_closed : length c.closed_channels ≤ c.shared.limits.max_closed_channel_tombstones
  pub few_cancelled :
      length c.cancelled_open_tombstones ≤ c.shared.limits.max_closed_channel_tombstones
  pub ready_commands : All IsReadyCmd c.shared.queues.commands

-- A connection that has no more entries than a sound one, and the same requests.
pub record IsLeaner (c d : Connection) : Type 0 where
  pub limits : d.shared.limits ≡ c.shared.limits
  pub incoming : d.shared.pending_incoming_requests ≡ c.shared.pending_incoming_requests
  pub commands : d.shared.queues.commands ≡ c.shared.queues.commands
  pub slots :
      length d.channels + length d.pending_requests ≤ length c.channels + length c.pending_requests
  pub requests : length d.pending_requests ≤ length c.pending_requests
  pub closed_ones : length d.closed_channels ≤ length c.closed_channels
  pub cancelled_ones : length d.cancelled_open_tombstones ≤ length c.cancelled_open_tombstones

pub IsLeaner-IsSound :
    (held : ℕ) (c d : Connection) → IsSound held c → IsLeaner c d → IsSound held d
IsLeaner-IsSound held c d v w = record {
  few_slots =
      let h = v.few_slots in let k = w.slots in let i = w.incoming in rw w.limits (omega arith);
  counted = rw (w.incoming, w.commands) v.counted;
  few_requests = rw w.limits (let h = v.few_requests in let k = w.requests in omega arith);
  few_incoming = rw (w.limits, w.incoming) v.few_incoming;
  few_closed = rw w.limits (let h = v.few_closed in let k = w.closed_ones in omega arith);
  few_cancelled = rw w.limits (let h = v.few_cancelled in let k = w.cancelled_ones in omega arith);
  ready_commands = rw w.commands v.ready_commands;
}

-- Another shared state with the same limits, requests and commands.
pub KeepsRest-IsSound :
    (held : ℕ) (c : Connection) (s : ConnectionShared)
    → IsSound held c
    → KeepsRest c.shared s
    → IsSound held (record c { shared = s })
KeepsRest-IsSound held c s v k =
    IsLeaner-IsSound held c (record c { shared = s }) v
      (record {
        limits = k.limits;
        incoming = k.incoming;
        commands = k.commands;
        slots = omega arith;
        requests = omega arith;
        closed_ones = omega arith;
        cancelled_ones = omega arith;
      })

pub send-IsSound :
    (held : ℕ) (c : Connection) (f : Frame) → IsSound held c → IsSound held (send c f).0
send-IsSound held c f v =
    KeepsRest-IsSound held c (send_frame c.shared f).0 v (send_frame-KeepsRest c.shared f)

pub wake-KeepsRest : (s : ConnectionShared) (w : Option ℕ) → KeepsRest s (wake s w)
wake-KeepsRest s none = record {
  limits = refl;
  incoming = refl;
  commands = refl;
  closed_flag = refl;
}
wake-KeepsRest s (some w) = record {
  limits = refl;
  incoming = refl;
  commands = refl;
  closed_flag = refl;
}

length-trim : (top : ℕ) (ts : List ClosedChannelTombstone) → length (trim top ts) ≤ top
unfolding trim
length-trim top [] = omega arith
length-trim top (t ∷ ts) = let rest = length-trim top ts in ground arith

pub remember_closed-IsSound :
    (held : ℕ) (c : Connection) (t : ClosedChannelTombstone)
    → IsSound held c
    → IsSound held (remember_closed c t)
unfolding remember_closed
remember_closed-IsSound held c t v = record {
  few_slots = v.few_slots;
  counted = v.counted;
  few_requests = v.few_requests;
  few_incoming = v.few_incoming;
  few_closed =
      length-trim c.shared.limits.max_closed_channel_tombstones (c.closed_channels ++ (t ∷ []));
  few_cancelled = v.few_cancelled;
  ready_commands = v.ready_commands;
}

bury_channels-IsSound :
    (held : ℕ) (ts : List ClosedChannelTombstone) (c : Connection)
    → IsSound held c
    → IsSound held (bury_channels c ts)
unfolding bury_channels
bury_channels-IsSound held [] c v = v
bury_channels-IsSound held (t ∷ ts) c v =
    let less = length-without-le t.local_id c.channels in
    bury_channels-IsSound held ts _ (
      remember_closed-IsSound held (record c { channels = without t.local_id c.channels }) t
        (IsLeaner-IsSound held c _ v (record {
          limits = refl;
          incoming = refl;
          commands = refl;
          slots = omega arith;
          requests = omega arith;
          closed_ones = omega arith;
          cancelled_ones = omega arith;
        })))

pub cleanup_channels-IsSound :
    (held : ℕ) (c : Connection) → IsSound held c → IsSound held (cleanup_channels c)
unfolding cleanup_channels
cleanup_channels-IsSound held c v = bury_channels-IsSound held (dropped_channels c.channels) c v

cancel_opens-IsSound :
    (held : ℕ) (ks : List ℕ) (c : Connection) → IsSound held c → IsSound held (cancel_opens c ks).0
unfolding cancel_opens
cancel_opens-IsSound held [] c v = v
cancel_opens-IsSound held (k ∷ ks) c v =
    let less = length-without-le k c.pending_requests in
    let removed = record c { pending_requests = without k c.pending_requests } in
    let w : IsSound held removed = IsLeaner-IsSound held c _ v (record {
      limits = refl;
      incoming = refl;
      commands = refl;
      slots = omega arith;
      requests = less;
      closed_ones = omega arith;
      cancelled_ones = omega arith;
    }) in
    elim (Bool-cases
      (leb c.shared.limits.max_closed_channel_tombstones (length c.cancelled_open_tombstones))) [
        | inl full ↦ rw full w
        | inr room ↦ rw room (
            cancel_opens-IsSound held ks _ (record {
              few_slots = w.few_slots;
              counted = w.counted;
              few_requests = w.few_requests;
              few_incoming = w.few_incoming;
              few_closed = w.few_closed;
              few_cancelled = ground (arith, length-append c.cancelled_open_tombstones (k ∷ []));
              ready_commands = w.ready_commands;
            }))
      ]

pub cleanup_cancelled_opens-IsSound :
    (held : ℕ) (c : Connection) (is_canceled : ℕ → Bool)
    → IsSound held c
    → IsSound held (cleanup_cancelled_opens c is_canceled).0
unfolding cleanup_cancelled_opens
cleanup_cancelled_opens-IsSound held c is_canceled v =
    cancel_opens-IsSound held (cancelled_opens is_canceled c.pending_requests) c v

close_channels-KeepsRest :
    (s : ConnectionShared) (hs : List (ℕ × ChannelHandle)) → KeepsRest s (close_channels s hs).0
unfolding close_channels
close_channels-KeepsRest s [] = record {
  limits = refl;
  incoming = refl;
  commands = refl;
  closed_flag = refl;
}
close_channels-KeepsRest s ((k, h) ∷ hs) =
    let a = wake-KeepsRest s h.sender_shared.waker in
    let b = wake-KeepsRest (wake s h.sender_shared.waker) h.receiver_shared.waker in
    let k =
      close_channels-KeepsRest (wake (wake s h.sender_shared.waker) h.receiver_shared.waker) hs in
    record {
      limits = k.limits ∙ b.limits ∙ a.limits;
      incoming = k.incoming ∙ b.incoming ∙ a.incoming;
      commands = k.commands ∙ b.commands ∙ a.commands;
      closed_flag = k.closed_flag ∙ b.closed_flag ∙ a.closed_flag;
    }

-- The shared state and the connection while it is closed.
abbrev cleared : Connection → ConnectionShared
cleared c = clear_queues (record (c.shared) { closed = true })

abbrev emptied : Connection → Connection
emptied c = record c {
  closed = true;
  shared = cleared c;
  pending_requests = [];
  channels = [];
  closed_channels = [];
  cancelled_open_tombstones = [];
  answers = c.answers ++ drop_callers c.pending_requests;
  detached = (close_channels (cleared c) c.channels).1 ++ c.detached;
}

emptied-IsSound : (held : ℕ) (c : Connection) → IsSound held c → IsSound held (emptied c)
unfolding clear_queues held_slots
emptied-IsSound held c v = record {
  few_slots = let h = v.few_slots in let k = v.counted in omega arith;
  counted = let h = v.counted in omega arith;
  few_requests = omega arith;
  few_incoming = let h = v.few_incoming in omega arith;
  few_closed = omega arith;
  few_cancelled = omega arith;
  ready_commands = tt;
}

pub close_state-IsSound :
    (held : ℕ) (c : Connection) → IsSound held c → IsSound held (close_state c)
unfolding close_state
close_state-IsSound held c v = closes c.closed
  where
    closes :
        (over : Bool)
        → IsSound held (
            if over
            then c
            else record (emptied c) { shared = (close_channels (cleared c) c.channels).0 })
    closes true = v
    closes false =
        KeepsRest-IsSound held (emptied c) (close_channels (cleared c) c.channels).0
          (emptied-IsSound held c v) (close_channels-KeepsRest (cleared c) c.channels)
