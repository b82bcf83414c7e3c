-- ===== src/Multiplex/Connection/Closing.antt =====
-- crates/libs/nexigon-multiplex/src/lib.rs: how a connection forgets channels and cancelled opens, and the
-- tombstones by which it still knows the frames that come late for them.
use nexigon.Base.{
  ℕ, ◌-◌, Bool, true, false, ◌&&◌, ◌||◌, Option, none, some, List, [], ◌∷◌, ◌++◌, ltb, leb, ◌==◌,
  if◌then◌else◌, length, without,
}
use nexigon.Multiplex.Connection.{Connection, ChannelHandle, ClosedChannelTombstone}

-- The ids of the pending opens whose caller has gone.
unfoldable pub cancelled_opens : (ℕ → Bool) → List (ℕ × ℕ) → List ℕ
cancelled_opens is_canceled [] = []
cancelled_opens is_canceled ((k, caller) ∷ ps) =
    let rest = cancelled_opens is_canceled ps in if is_canceled caller then k ∷ rest else rest

-- The loop of `cleanup_cancelled_opens`; false stands for its error.
unfoldable pub cancel_opens : Connection → List ℕ → Connection × Bool
cancel_opens c [] = (c, true)
cancel_opens c (k ∷ ks) =
    let removed = record c { pending_requests = without k c.pending_requests } in
    let rest =
      cancel_opens
        (record removed { cancelled_open_tombstones = c.cancelled_open_tombstones ++ (k ∷ []) })
        ks in
    if leb c.shared.limits.max_closed_channel_tombstones (length c.cancelled_open_tombstones)
    then (removed, false)
    else rest

unfoldable pub cleanup_cancelled_opens : Connection → (ℕ → Bool) → Connection × Bool
unfolding cancel_opens cancelled_opens
cleanup_cancelled_opens c is_canceled =
    cancel_opens c (cancelled_opens is_canceled c.pending_requests)

-- The tombstones without the first one of `k`, if there is one.
unfoldable pub remove_first : ℕ → List ℕ → Option (List ℕ)
remove_first k [] = none
remove_first k (j ∷ js) =
    let rest = remove_first k js in
    if j == k then some js else elim rest [ none ↦ none | some ks ↦ some (j ∷ ks) ]

abbrev pub with_tombstones : Connection → Option (List ℕ) → Option Connection
with_tombstones c none = none
with_tombstones c (some ks) = some (record c { cancelled_open_tombstones = ks })

-- `Connection::take_cancelled_open`, with `none` where it answers false.
abbrev pub take_cancelled_open : Connection → ℕ → Option Connection
take_cancelled_open c k = with_tombstones c (remove_first k c.cancelled_open_tombstones)

-- The tombstones, from the front of which as many are taken as are too many.
unfoldable pub trim : ℕ → List ClosedChannelTombstone → List ClosedChannelTombstone
trim top [] = []
trim top (t ∷ ts) = let rest = trim top ts in if ltb top (length (t ∷ ts)) then rest else t ∷ ts

unfoldable pub remember_closed : Connection → ClosedChannelTombstone → Connection
unfolding trim
remember_closed c t = record c {
  closed_channels =
      trim c.shared.limits.max_closed_channel_tombstones (c.closed_channels ++ (t ∷ []));
}

-- The channels both of whose ends were dropped.
unfoldable pub dropped_channels : List (ℕ × ChannelHandle) → List ClosedChannelTombstone
dropped_channels [] = []
dropped_channels ((k, h) ∷ hs) =
    let rest = dropped_channels hs in
    if h.sender_shared.dropped && h.receiver_shared.dropped
    then record {
      local_id = k;
      remaining_frame_credit = h.receiver_shared.remaining_frame_credit;
      remaining_byte_credit = h.receiver_shared.remaining_byte_credit;
    }
      ∷ rest
    else rest

unfoldable pub bury_channels : Connection → List ClosedChannelTombstone → Connection
unfolding remember_closed
bury_channels c [] = c
bury_channels c (t ∷ ts) =
    bury_channels (remember_closed (record c { channels = without t.local_id c.channels }) t) ts

unfoldable pub cleanup_channels : Connection → Connection
unfolding bury_channels dropped_channels
cleanup_channels c = bury_channels c (dropped_channels c.channels)

unfoldable pub is_recently_closed : ℕ → List ClosedChannelTombstone → Bool
is_recently_closed k [] = false
is_recently_closed k (t ∷ ts) = t.local_id == k || is_recently_closed k ts

pub data LateResult : Type 0 where
  not_closed : LateResult
  exceeds : LateResult
  late : List ClosedChannelTombstone → LateResult

abbrev pub or_later : ClosedChannelTombstone → LateResult → LateResult
or_later t not_closed = not_closed
or_later t exceeds = exceeds
or_later t (late ts) = late (t ∷ ts)

abbrev pub spent : ClosedChannelTombstone → ℕ → ClosedChannelTombstone
spent t payload_credit = record t {
  remaining_frame_credit = t.remaining_frame_credit - 1;
  remaining_byte_credit = t.remaining_byte_credit - payload_credit;
}

-- `Connection::discard_late_channel_data`, on the tombstones.
unfoldable pub discard_late : ℕ → ℕ → List ClosedChannelTombstone → LateResult
discard_late k payload_credit [] = not_closed
discard_late k payload_credit (t ∷ ts) =
    let rest = discard_late k payload_credit ts in
    if t.local_id == k
    then (if t.remaining_frame_credit == 0 || ltb t.remaining_byte_credit payload_credit
        then exceeds
        else late (spent t payload_credit ∷ ts))
    else or_later t rest
