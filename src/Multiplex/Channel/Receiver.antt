-- ===== src/Multiplex/Channel/Receiver.antt =====
-- crates/libs/nexigon-multiplex/src/lib.rs: `Receiver`, the receiving end of a channel, and what the
-- connection does with data for it. The estimates of bandwidth, which only the caller reads, are left out.
use nexigon.Base.{
  ℕ, ◌-◌, ◌*◌, ◌/◌, Bool, true, false, not, ◌&&◌, ◌||◌, Option, none, some, List, [], ◌∷◌, ◌++◌,
  ltb, leb, ◌==◌, if◌then◌else◌, add_u32, saturating_u32, min_of, u32_max,
}
use nexigon.Multiplex.Frames.{Frame, channel_close, channel_adjust, id, word, octets, new}
use nexigon.Multiplex.Limits.{channel_initial_frame_credit, channel_initial_byte_credit}
use nexigon.Multiplex.Shared.{ConnectionShared, is_closing, send_frame}
use nexigon.Multiplex.Channel.{payload_len, wake}

pub record ReceiverShared : Type 0 where
  pub buffer : List Frame
  pub closed : Bool
  pub dropped : Bool
  pub waker : Option ℕ
  pub max_frame_credit : ℕ
  pub max_byte_credit : ℕ
  pub max_frame_credit_limit : ℕ
  pub max_byte_credit_limit : ℕ
  pub remaining_frame_credit : ℕ
  pub remaining_byte_credit : ℕ
  pub pending_frame_credit : ℕ
  pub pending_byte_credit : ℕ
  pub last_credit_update : ℕ

abbrev pub new_receiver_shared : ℕ → ℕ → ℕ → ReceiverShared
new_receiver_shared max_frame_credit_limit max_byte_credit_limit now = record {
  buffer = [];
  closed = false;
  dropped = false;
  waker = none;
  max_frame_credit = channel_initial_frame_credit;
  max_byte_credit = channel_initial_byte_credit;
  max_frame_credit_limit = max_frame_credit_limit;
  max_byte_credit_limit = max_byte_credit_limit;
  remaining_frame_credit = channel_initial_frame_credit;
  remaining_byte_credit = channel_initial_byte_credit;
  pending_frame_credit = 0;
  pending_byte_credit = 0;
  last_credit_update = now;
}

pub data DataResult : Type 0 where
  buffered : ConnectionShared → ReceiverShared → DataResult
  discarded : ReceiverShared → DataResult
  no_frame_credit : DataResult
  not_enough_byte_credit : DataResult
  data_too_large : DataResult

-- The connection's work on a `ChannelData` for an open channel.
unfoldable pub receive_data : ConnectionShared → ReceiverShared → Frame → DataResult
receive_data c r f =
    let charged = record r {
      remaining_frame_credit = r.remaining_frame_credit - 1;
      remaining_byte_credit = r.remaining_byte_credit - payload_len f;
    } in
    if ltb u32_max (payload_len f)
    then data_too_large
    else if r.remaining_frame_credit == 0
    then no_frame_credit
    else if ltb r.remaining_byte_credit (payload_len f)
    then not_enough_byte_credit
    else if r.closed
    then discarded charged
    else buffered (wake c r.waker) (record charged { buffer = r.buffer ++ (f ∷ []); waker = none })

-- The first frame of the buffer is read and its credit waits to be returned.
unfoldable pub consume : ReceiverShared → List Frame → ℕ → ReceiverShared
consume r rest payload_len = record r {
  buffer = rest;
  pending_frame_credit = add_u32 r.pending_frame_credit 1;
  pending_byte_credit = add_u32 r.pending_byte_credit payload_len;
}

abbrev pub frame_credit_low : ReceiverShared → Bool
frame_credit_low r = ltb r.remaining_frame_credit (r.max_frame_credit / 2)

abbrev pub byte_credit_low : ReceiverShared → Bool
byte_credit_low r = ltb r.remaining_byte_credit (r.max_byte_credit / 2)

-- Less than two round trips have passed since the last update.
abbrev pub within_two_rtt : ReceiverShared → Option ℕ → ℕ → Bool
within_two_rtt r none now = false
within_two_rtt r (some smoothened_rtt) now = ltb (now - r.last_credit_update) (2 * smoothened_rtt)

abbrev pub grow_window : Bool → ℕ → ℕ → ℕ
grow_window grows limit window =
    if grows then min_of (saturating_u32 (window * 2)) limit else window

unfoldable pub grow : ReceiverShared → Option ℕ → ℕ → ReceiverShared
grow r rtt now = record r {
  max_frame_credit =
      grow_window (frame_credit_low r && within_two_rtt r rtt now) r.max_frame_credit_limit
        r.max_frame_credit;
  max_byte_credit =
      grow_window (byte_credit_low r && within_two_rtt r rtt now) r.max_byte_credit_limit
        r.max_byte_credit;
}

-- Whether `grown`, which was `r` before its windows grew, has to return credit.
unfoldable pub update_credit : ReceiverShared → ReceiverShared → Bool
update_credit r grown =
    (not (grown.max_frame_credit == r.max_frame_credit)
      || not (grown.max_byte_credit == r.max_byte_credit))
    || ((frame_credit_low r && leb (grown.max_frame_credit / 2) grown.pending_frame_credit)
        || (byte_credit_low r && leb (grown.max_byte_credit / 2) grown.pending_byte_credit))

abbrev pub add_frame_credit : ReceiverShared → ReceiverShared → ℕ
add_frame_credit r grown =
    add_u32 grown.pending_frame_credit (grown.max_frame_credit - r.max_frame_credit)

abbrev pub add_byte_credit : ReceiverShared → ReceiverShared → ℕ
add_byte_credit r grown =
    add_u32 grown.pending_byte_credit (grown.max_byte_credit - r.max_byte_credit)

unfoldable pub return_credit : ReceiverShared → ReceiverShared → ℕ → ReceiverShared
return_credit r grown now = record grown {
  remaining_frame_credit = add_u32 grown.remaining_frame_credit (add_frame_credit r grown);
  remaining_byte_credit = add_u32 grown.remaining_byte_credit (add_byte_credit r grown);
  pending_frame_credit = 0;
  pending_byte_credit = 0;
  last_credit_update = now;
}

pub data NextPoll : Type 0 where
  chunk : Frame → NextPoll
  ended : NextPoll
  next_waits : NextPoll

announce_credit :
    ConnectionShared → ℕ → ReceiverShared → ReceiverShared → ℕ → ConnectionShared × ReceiverShared
unfolding return_credit
announce_credit c remote_id r grown now =
    let (c', ok) = send_frame c (
      new channel_adjust
        (id remote_id ∷ word (add_frame_credit r grown) ∷ word (add_byte_credit r grown) ∷ [])) in
    if ok then (c', return_credit r grown now) else (c', grown)

unfoldable pub settle :
    ConnectionShared → ℕ → ReceiverShared → Option ℕ → ℕ → ConnectionShared × ReceiverShared
unfolding announce_credit grow update_credit
settle c remote_id r rtt now =
    if update_credit r (grow r rtt now)
    then announce_credit c remote_id r (grow r rtt now) now
    else (c, grow r rtt now)

pub next_chunk :
    ConnectionShared
    → ℕ
    → ReceiverShared
    → List Frame
    → Option ℕ
    → ℕ
    → ℕ
    → ConnectionShared × ReceiverShared × NextPoll
unfolding consume settle
next_chunk c remote_id r (f ∷ fs) rtt now waker =
    let (c', r') = settle c remote_id (consume r fs (payload_len f)) rtt now in (c', r', chunk f)
next_chunk c remote_id r [] rtt now waker =
    if r.closed then (c, r, ended) else (c, record r { waker = some waker }, next_waits)

-- `Receiver::poll_next_chunk`. The buffer is read before the end of the channel is reported.
unfoldable pub poll_next_chunk :
    ConnectionShared
    → ℕ
    → ReceiverShared
    → Option ℕ
    → ℕ
    → ℕ
    → ConnectionShared × ReceiverShared × NextPoll
unfolding next_chunk
poll_next_chunk c remote_id r rtt now waker = next_chunk c remote_id r r.buffer rtt now waker

-- `Drop for Receiver`.
unfoldable pub drop_receiver :
    ConnectionShared → ℕ → ReceiverShared → ConnectionShared × ReceiverShared
drop_receiver c remote_id r =
    let r' = record r { closed = true; dropped = true; buffer = []; waker = none } in
    let c' = (send_frame c (new channel_close (id remote_id ∷ octets [] ∷ []))).0 in
    if is_closing c then (c, r') else (c', r')
