-- ===== src/Multiplex/Channel.antt =====
-- crates/libs/nexigon-multiplex/src/lib.rs: `Sender`, the sending end of a channel, and what the
-- connection does with credit for it; the receiving end is in Receiver. Times are numbers of milliseconds; the state
-- behind a lock is a field of its end. The bandwidth estimates, which nothing reads but the caller,
-- and the statistics are left out.
pub mod Receiver
pub mod Receiving
pub mod Settling
pub mod Sending
pub mod Writing
pub mod Flow
mod Examples
use nexigon.Base.{
  ℕ, ◌+◌, ◌-◌, ◌*◌, ◌/◌, ◌%◌, Bool, true, false, not, ◌&&◌, ◌||◌, Option, none, some, List, [], ◌∷◌,
  ◌++◌, ltb, leb, ◌==◌, if◌then◌else◌, length, take, drop, checked_add, add_u32, saturating_u32,
  min_of, u32_max, to_be_bytes,
}
use nexigon.Multiplex.Frames.{
  Frame, channel_data, channel_close, channel_adjust, channel_closed, id, word, octets, new,
  set_field, frame_tag,
}
use nexigon.Multiplex.Limits.{
  ConnectionLimits, channel_initial_frame_credit, channel_initial_byte_credit, data_header_size,
  max_channel_payload_size,
}
use nexigon.Multiplex.Shared.{
  ConnectionShared, QueueResult, queued, failed, closed, full, too_large, is_closing, send_frame,
  send_data_frame, mark_overloaded,
}

-- The payload of a data frame, which stands behind its header.
abbrev pub payload : Frame → List ℕ
payload f = drop data_header_size f.bytes

abbrev pub payload_len : Frame → ℕ
payload_len f = length (payload f)

pub record SenderShared : Type 0 where
  pub closed : Bool
  pub dropped : Bool
  pub waker : Option ℕ
  pub remaining_frame_credit : ℕ
  pub remaining_byte_credit : ℕ
  pub last_credit_update : ℕ
  pub used_frame_credit : ℕ
  pub used_byte_credit : ℕ

abbrev pub new_sender_shared : ℕ → ℕ → ℕ → SenderShared
new_sender_shared initial_frame_credit initial_byte_credit now = record {
  closed = false;
  dropped = false;
  waker = none;
  remaining_frame_credit = initial_frame_credit;
  remaining_byte_credit = initial_byte_credit;
  last_credit_update = now;
  used_frame_credit = 0;
  used_byte_credit = 0;
}

pub record Sender : Type 0 where
  pub remote_id : ℕ
  pub shared : SenderShared
  pub pending : Option Frame
  pub closed_sent : Bool
  pub max_chunk_size : ℕ

-- `Chunk::with_capacity` and `Chunk::extend`.
pub new_chunk : List ℕ → Frame
new_chunk bytes = record {
  kind = channel_data;
  bytes = frame_tag channel_data ∷ (to_be_bytes 8 0 ++ bytes);
}

pub data SendPoll : Type 0 where
  sent : SendPoll
  idle : SendPoll
  chunk_too_large : SendPoll
  send_closed : SendPoll
  waits : SendPoll
  panics : SendPoll

-- The credit that one sent chunk takes.
pub charge : SenderShared → ℕ → SenderShared
charge s byte_credit = record s {
  remaining_frame_credit = s.remaining_frame_credit - 1;
  remaining_byte_credit = s.remaining_byte_credit - byte_credit;
  used_frame_credit = add_u32 s.used_frame_credit 1;
  used_byte_credit = add_u32 s.used_byte_credit byte_credit;
}

abbrev close_shared : SenderShared → SenderShared
close_shared s = record s { closed = true }

-- What becomes of a chunk that was offered to the connection.
pub offered : Sender → ℕ → ConnectionShared × QueueResult → ConnectionShared × Sender × SendPoll
unfolding charge
offered s byte_credit (c, queued) =
    (c, record s { shared = charge s.shared byte_credit; pending = none }, sent)
offered s byte_credit (c, failed full f) = (c, record s { pending = some f }, waits)
offered s byte_credit (c, failed too_large f) = (
  mark_overloaded c,
  record s { shared = close_shared s.shared; pending = none },
  chunk_too_large,
)
offered s byte_credit (c, failed closed f) =
    (c, record s { shared = close_shared s.shared; pending = none }, send_closed)

offer_addressed :
    ConnectionShared → Sender → ℕ → ℕ → Option Frame → ConnectionShared × Sender × SendPoll
unfolding offered
offer_addressed c s byte_credit waker none = (c, record s { pending = none }, panics)
offer_addressed c s byte_credit waker (some f) = offered s byte_credit (send_data_frame c f waker)

pub offer : ConnectionShared → Sender → Frame → ℕ → ConnectionShared × Sender × SendPoll
unfolding offer_addressed
offer c s f waker =
    let byte_credit = payload_len f % 4294967296 in
    if ltb s.shared.remaining_byte_credit byte_credit
    then (c, s, panics)
    else if ltb 0 s.shared.remaining_frame_credit
    then offer_addressed c s byte_credit waker (set_field f 0 (id s.remote_id))
    else (c, record s { shared = record (s.shared) { waker = some waker } }, waits)

offer_pending : ConnectionShared → Sender → Option Frame → ℕ → ConnectionShared × Sender × SendPoll
unfolding offer
offer_pending c s none waker = (c, s, idle)
offer_pending c s (some f) waker = offer c s f waker

-- `Sender::poll_send_chunk`. `idle` is its success with no chunk to send.
unfoldable pub poll_send_chunk :
    ConnectionShared → Sender → ℕ → ConnectionShared × Sender × SendPoll
unfolding offer_pending
poll_send_chunk c s waker =
    if s.shared.closed || is_closing c
    then (c, record s { shared = close_shared s.shared }, send_closed)
    else offer_pending c s s.pending waker

pub data WritePoll : Type 0 where
  written : ℕ → WritePoll
  write_fails : WritePoll
  write_waits : WritePoll
  write_panics : WritePoll

-- The size of the next chunk: what credit, buffer and frame size allow.
pub chunk_size : Sender → List ℕ → ℕ
chunk_size s buf = min_of (min_of s.shared.remaining_byte_credit (length buf)) s.max_chunk_size

fill_chunk : ConnectionShared → Sender → List ℕ → ℕ → ConnectionShared × Sender × WritePoll
unfolding chunk_size new_chunk
fill_chunk c s [] waker = (c, s, written 0)
fill_chunk c s (b ∷ bs) waker =
    if s.shared.remaining_byte_credit == 0
    then (c, record s { shared = record (s.shared) { waker = some waker } }, write_waits)
    else (
      c,
      record s { pending = some (new_chunk (take (chunk_size s (b ∷ bs)) (b ∷ bs))) },
      written (chunk_size s (b ∷ bs)),
    )

write_flushed :
    ConnectionShared × Sender × SendPoll → List ℕ → ℕ → ConnectionShared × Sender × WritePoll
unfolding fill_chunk
write_flushed (c, s, sent) buf waker = fill_chunk c s buf waker
write_flushed (c, s, idle) buf waker = fill_chunk c s buf waker
write_flushed (c, s, chunk_too_large) buf waker = (c, s, write_fails)
write_flushed (c, s, send_closed) buf waker = (c, s, write_fails)
write_flushed (c, s, waits) buf waker = (c, s, write_waits)
write_flushed (c, s, panics) buf waker = (c, s, write_panics)

-- `AsyncWrite::poll_write` of a sender: the pending chunk is flushed first.
unfoldable pub poll_write :
    ConnectionShared → Sender → List ℕ → ℕ → ConnectionShared × Sender × WritePoll
unfolding write_flushed
poll_write c s buf waker = write_flushed (poll_send_chunk c s waker) buf waker

announce_close : ConnectionShared → Sender → ConnectionShared × Sender × WritePoll
announce_close c s =
    let (c', ok) = send_frame c (new channel_closed (id s.remote_id ∷ octets [] ∷ [])) in
    let s' = record s { closed_sent = true; shared = close_shared s.shared } in
    if ok then (c', s', written 0) else (c', s', write_fails)

close_flushed : ConnectionShared × Sender × SendPoll → ConnectionShared × Sender × WritePoll
unfolding announce_close
close_flushed (c, s, sent) = announce_close c s
close_flushed (c, s, idle) = announce_close c s
close_flushed (c, s, chunk_too_large) = (c, s, write_fails)
close_flushed (c, s, send_closed) = (c, s, write_fails)
close_flushed (c, s, waits) = (c, s, write_waits)
close_flushed (c, s, panics) = (c, s, write_panics)

-- `AsyncWrite::poll_close` of a sender.
unfoldable pub poll_close : ConnectionShared → Sender → ℕ → ConnectionShared × Sender × WritePoll
unfolding close_flushed
poll_close c s waker =
    if s.closed_sent then (c, s, written 0) else close_flushed (poll_send_chunk c s waker)

-- `Drop for Sender`.
unfoldable pub drop_sender : ConnectionShared → Sender → ConnectionShared × SenderShared
drop_sender c s =
    let s' = record (s.shared) { closed = true; dropped = true } in
    let c' = (send_frame c (new channel_closed (id s.remote_id ∷ octets [] ∷ []))).0 in
    if s.closed_sent || is_closing c
    then (record c { connection_woken = true }, s')
    else (record c' { connection_woken = true }, s')

abbrev pub wake : ConnectionShared → Option ℕ → ConnectionShared
wake c none = c
wake c (some w) = record c { woken = w ∷ c.woken }

pub data AdjustResult : Type 0 where
  adjusted : ConnectionShared → SenderShared → AdjustResult
  frame_credit_overflow : AdjustResult
  byte_credit_overflow : AdjustResult
  empty_adjustment : AdjustResult

unfoldable pub adjust_bytes : ConnectionShared → SenderShared → ℕ → Option ℕ → ℕ → AdjustResult
adjust_bytes c s frame_credit none now = byte_credit_overflow
adjust_bytes c s frame_credit (some byte_credit) now = adjusted (wake c s.waker) (record s {
  remaining_frame_credit = frame_credit;
  remaining_byte_credit = byte_credit;
  used_frame_credit = 0;
  used_byte_credit = 0;
  last_credit_update = now;
  waker = none;
})

unfoldable pub adjust_frames : ConnectionShared → SenderShared → Option ℕ → ℕ → ℕ → AdjustResult
unfolding adjust_bytes
adjust_frames c s none add_byte_credit now = frame_credit_overflow
adjust_frames c s (some frame_credit) add_byte_credit now =
    adjust_bytes c s frame_credit (checked_add u32_max s.remaining_byte_credit add_byte_credit) now

-- The connection's work on a `ChannelAdjust` for an open channel.
unfoldable pub adjust_credit : ConnectionShared → SenderShared → ℕ → ℕ → ℕ → AdjustResult
unfolding adjust_frames
adjust_credit c s add_frame_credit add_byte_credit now =
    if (add_frame_credit == 0) && (add_byte_credit == 0)
    then empty_adjustment
    else adjust_frames c s (checked_add u32_max s.remaining_frame_credit add_frame_credit)
        add_byte_credit now
