-- ===== src/Multiplex/Channel/Flow.antt =====
-- The two ends of a channel with what is under way between them: data frames in one direction, returned
-- credit in the other. The connections' states are free at every event, so that whatever else they
-- carry, and whether they admit a frame or not, is covered.
pub mod Spending
pub mod Queueing
pub mod Returning
pub mod Balance
use nexigon.Base.{
  ℕ, Bool, true, false, ◌&&◌, Option, none, some, List, [], ◌∷◌, ◌++◌, if◌then◌else◌,
}
use nexigon.Multiplex.Frames.{Frame}
use nexigon.Multiplex.Limits.{
  ConnectionLimits, max_channel_payload_size, channel_initial_frame_credit,
  channel_initial_byte_credit,
}
use nexigon.Multiplex.Shared.{ConnectionShared, send_frame}
use nexigon.Multiplex.Channel.{
  payload_len, Sender, new_sender_shared, SendPoll, sent, idle, chunk_too_large, send_closed, waits,
  panics, poll_send_chunk, poll_write, poll_close, AdjustResult, adjusted, frame_credit_overflow,
  byte_credit_overflow, empty_adjustment, adjust_credit, drop_sender,
}
use nexigon.Multiplex.Channel.Receiver.{
  ReceiverShared, new_receiver_shared, DataResult, buffered, discarded, no_frame_credit,
  not_enough_byte_credit, data_too_large, receive_data, consume, grow, update_credit,
  add_frame_credit, add_byte_credit, poll_next_chunk, drop_receiver,
}
use nexigon.Multiplex.Channel.Sending.{address}
use nexigon.Multiplex.Channel.Settling.{adjust_frame}

-- `violated` says that an end refused what the other sent.
pub record Link : Type 0 where
  pub sender : Sender
  pub under_way : List Frame
  pub receiver : ReceiverShared
  pub returned : List (ℕ × ℕ)
  pub violated : Bool

-- A sender as `Connection::make_channel` creates it.
abbrev pub new_sender : ConnectionLimits → ℕ → ℕ → ℕ → ℕ → Sender
new_sender l remote_id frame_credit byte_credit now = record {
  remote_id = remote_id;
  shared = new_sender_shared frame_credit byte_credit now;
  pending = none;
  closed_sent = false;
  max_chunk_size = max_channel_payload_size l;
}

-- A channel that was just opened, with the limits of the sending and of the receiving peer.
abbrev pub new_link : ConnectionLimits → ConnectionLimits → ℕ → ℕ → Link
new_link l peer remote_id now = record {
  sender = new_sender l remote_id channel_initial_frame_credit channel_initial_byte_credit now;
  under_way = [];
  receiver = new_receiver_shared peer.max_receive_frame_credit peer.max_receive_byte_credit now;
  returned = [];
  violated = false;
}

pub data Event : Type 0 where
  flushes : (c : ConnectionShared) (waker : ℕ) → Event
  writes : (c : ConnectionShared) (buf : List ℕ) (waker : ℕ) → Event
  closes : (c : ConnectionShared) (waker : ℕ) → Event
  arrives : (c : ConnectionShared) → Event
  reads : (c : ConnectionShared) (remote_id : ℕ) (rtt : Option ℕ) (now waker : ℕ) → Event
  credits : (c : ConnectionShared) (now : ℕ) → Event
  ends_sender : Event
  ends_receiver : Event
  drops_sender : (c : ConnectionShared) → Event
  drops_receiver : (c : ConnectionShared) (remote_id : ℕ) → Event

-- The frames that a poll of the sender with this pending chunk puts under way.
abbrev pub emitted : ℕ → Option Frame → SendPoll → List Frame
emitted remote_id (some f) sent = address remote_id f ∷ []
emitted remote_id none sent = []
emitted remote_id o idle = []
emitted remote_id o chunk_too_large = []
emitted remote_id o send_closed = []
emitted remote_id o waits = []
emitted remote_id o panics = []

abbrev pub flushed : ConnectionShared → Sender → ℕ → List Frame
flushed c s waker = emitted s.remote_id s.pending (poll_send_chunk c s waker).2

-- The credit that settling after a read puts under way.
abbrev pub settled : ConnectionShared → ℕ → ReceiverShared → Option ℕ → ℕ → List (ℕ × ℕ)
settled c remote_id r rtt now =
    if update_credit r (grow r rtt now)
      && (send_frame c (adjust_frame remote_id r (grow r rtt now))).1
    then (add_frame_credit r (grow r rtt now), add_byte_credit r (grow r rtt now)) ∷ []
    else []

abbrev pub restored :
    ConnectionShared → ℕ → ReceiverShared → List Frame → Option ℕ → ℕ → List (ℕ × ℕ)
restored c remote_id r [] rtt now = []
restored c remote_id r (f ∷ fs) rtt now = settled c remote_id (consume r fs (payload_len f)) rtt now

abbrev pub received : Link → DataResult → Link
received l (buffered c r) = record l { receiver = r }
received l (discarded r) = record l { receiver = r }
received l no_frame_credit = record l { violated = true }
received l not_enough_byte_credit = record l { violated = true }
received l data_too_large = record l { violated = true }

abbrev pub arrive : ConnectionShared → Link → List Frame → Link
arrive c l [] = l
arrive c l (f ∷ fs) = received (record l { under_way = fs }) (receive_data c l.receiver f)

abbrev pub credited_link : Link → AdjustResult → Link
credited_link l (adjusted c t) = record l { sender = record (l.sender) { shared = t } }
credited_link l frame_credit_overflow = record l { violated = true }
credited_link l byte_credit_overflow = record l { violated = true }
credited_link l empty_adjustment = record l { violated = true }

abbrev pub credit : ConnectionShared → Link → List (ℕ × ℕ) → ℕ → Link
credit c l [] now = l
credit c l ((a, b) ∷ rest) now =
    credited_link (record l { returned = rest }) (adjust_credit c l.sender.shared a b now)

abbrev pub act : Link → Event → Link
act l (flushes c w) = record l {
  sender = (poll_send_chunk c l.sender w).1;
  under_way = l.under_way ++ flushed c l.sender w;
}
act l (writes c buf w) = record l {
  sender = (poll_write c l.sender buf w).1;
  under_way = l.under_way ++ flushed c l.sender w;
}
act l (closes c w) = record l {
  sender = (poll_close c l.sender w).1;
  under_way = l.under_way ++ (if l.sender.closed_sent then [] else flushed c l.sender w);
}
act l (arrives c) = arrive c l l.under_way
act l (reads c remote_id rtt now w) = record l {
  receiver = (poll_next_chunk c remote_id l.receiver rtt now w).1;
  returned = l.returned ++ restored c remote_id l.receiver l.receiver.buffer rtt now;
}
act l (credits c now) = credit c l l.returned now
act l ends_sender = record l {
  sender = record (l.sender) { shared = record (l.sender.shared) { closed = true } };
}
act l ends_receiver = record l { receiver = record (l.receiver) { closed = true } }
act l (drops_sender c) = record l {
  sender = record (l.sender) { shared = (drop_sender c l.sender).1 };
}
act l (drops_receiver c remote_id) = record l {
  receiver = (drop_receiver c remote_id l.receiver).1;
}

abbrev pub history : Link → List Event → Link
history l [] = l
history l (e ∷ es) = history (act l e) es
