-- ===== src/Multiplex/Shared.antt =====
-- crates/libs/nexigon-multiplex/src/lib.rs: the state that a connection shares with its references,
-- `ConnectionShared`, and the queueing methods of `ConnectionRef`. A method runs under the lock of the
-- queues and is one step; the loads of the flags before the lock are repeated under it and are left
-- out. A waker is the number of its task, and `woken` and `connection_woken` record who was woken.
-- Of the limits, `usize` subtractions do not underflow once they are validated.
pub mod Outcomes
pub mod Admission
pub mod Constants
pub mod Rest
pub mod Bounds
pub mod Order
pub mod Hello
pub mod Waking
pub mod Waiters
mod Examples
use nexigon.Base.{
  ℕ, zero, suc, ◌+◌, ◌-◌, ◌≡◌, Bool, true, false, ◌||◌, Option, none, some, List, [], ◌∷◌, ◌++◌,
  ltb, leb, ◌==◌, if◌then◌else◌, length, checked_add, usize_max,
}
use nexigon.Multiplex.Frames.{Frame, FrameKind, hello}
use nexigon.Multiplex.Limits.{ConnectionLimits}

-- A callback or the sender of a result is the number of the caller that waits for it.
pub data ConnectionCmd : Type 0 where
  open_channel : (request : Frame) (result_tx : ℕ) → ConnectionCmd
  accept_channel :
      (accept : Frame) (initial_frame_credit initial_byte_credit callback : ℕ) (pending_slot : Bool)
      → ConnectionCmd

pub record ConnectionQueues : Type 0 where
  pub frames : List Frame
  pub frame_bytes : ℕ
  pub commands : List ConnectionCmd
  pub frame_waiters : List ℕ

-- `dropped_callers` are those of opens that were dropped while they were queued: they see the connection
-- closed.
pub record ConnectionShared : Type 0 where
  pub closed : Bool
  pub overloaded : Bool
  pub queues : ConnectionQueues
  pub pending_incoming_requests : ℕ
  pub limits : ConnectionLimits
  pub woken : List ℕ
  pub connection_woken : Bool
  pub dropped_callers : List ℕ

pub data QueueFrameFailure : Type 0 where
  closed full too_large : QueueFrameFailure

pub data QueueResult : Type 0 where
  queued : QueueResult
  failed : QueueFrameFailure → Frame → QueueResult

abbrev pub empty_queues : ConnectionQueues
empty_queues = record { frames = []; frame_bytes = 0; commands = []; frame_waiters = [] }

abbrev pub frame_len : Frame → ℕ
frame_len f = length f.bytes

abbrev pub is_closing : ConnectionShared → Bool
is_closing s = s.closed || s.overloaded

-- The tasks of `frame_waiters` are woken and leave the queue.
abbrev pub wake_frame_waiters : ConnectionShared → ConnectionShared
wake_frame_waiters s = record s {
  queues = record (s.queues) { frame_waiters = [] };
  woken = s.queues.frame_waiters ++ s.woken;
}

pub mark_overloaded : ConnectionShared → ConnectionShared
mark_overloaded s =
    let t = wake_frame_waiters (record s { overloaded = true }) in
    record t { connection_woken = true }

pub contains_waker : List ℕ → ℕ → Bool
contains_waker [] w = false
contains_waker (v ∷ vs) w = v == w || contains_waker vs w

-- A waker is queued once.
pub add_waiter : List ℕ → ℕ → List ℕ
unfolding contains_waker
add_waiter ws w = if contains_waker ws w then ws else ws ++ (w ∷ [])

pub register_waiter : ConnectionShared → Option ℕ → ConnectionShared
register_waiter s none = s
register_waiter s (some w) = record s {
  queues = record (s.queues) { frame_waiters = add_waiter s.queues.frame_waiters w };
}

-- Only channel data comes with a waker, and leaves the reserved part of the queue free.
abbrev pub frame_limit : ConnectionLimits → Option ℕ → ℕ
frame_limit l none = l.max_queued_frames
frame_limit l (some w) = l.max_queued_frames - l.reserved_control_queue_frames

abbrev pub byte_limit : ConnectionLimits → Option ℕ → ℕ
byte_limit l none = l.max_queued_frame_bytes
byte_limit l (some w) = l.max_queued_frame_bytes - l.reserved_control_queue_bytes

abbrev pub store_frames : ConnectionShared → List Frame → ℕ → ConnectionShared
store_frames s fs n = record s {
  queues = record (s.queues) { frames = fs; frame_bytes = n };
  connection_woken = true;
}

queue_open : ConnectionShared → Frame → Option ℕ → Option ℕ → ConnectionShared × QueueResult
queue_open s f waiter none = (s, failed too_large f)
queue_open s f waiter (some new_frame_bytes) =
    if ltb s.limits.max_encoded_frame_size (frame_len f)
    then (s, failed too_large f)
    else if leb (frame_limit s.limits waiter) (length s.queues.frames)
        || ltb (byte_limit s.limits waiter) new_frame_bytes
    then (register_waiter s waiter, failed full f)
    else (store_frames s (s.queues.frames ++ (f ∷ [])) new_frame_bytes, queued)

unfoldable pub try_queue_frame :
    ConnectionShared → Frame → Option ℕ → ConnectionShared × QueueResult
unfolding queue_open register_waiter
try_queue_frame s f waiter =
    if is_closing s
    then (s, failed closed f)
    else queue_open s f waiter (checked_add usize_max s.queues.frame_bytes (frame_len f))

abbrev pub is_hello : FrameKind → Bool
is_hello hello = true
is_hello _ = false

-- A priority frame goes in front of all but an unsent Hello.
pub insert_priority : Frame → List Frame → List Frame
insert_priority f [] = f ∷ []
insert_priority f (g ∷ gs) = if is_hello g.kind then g ∷ f ∷ gs else f ∷ g ∷ gs

priority_open : ConnectionShared → Frame → Option ℕ → ConnectionShared × QueueResult
priority_open s f none = (s, failed too_large f)
priority_open s f (some new_frame_bytes) =
    if ltb s.limits.max_encoded_frame_size (frame_len f)
    then (s, failed too_large f)
    else if leb s.limits.max_queued_frames (length s.queues.frames)
        || ltb s.limits.max_queued_frame_bytes new_frame_bytes
    then (s, failed full f)
    else (store_frames s (insert_priority f s.queues.frames) new_frame_bytes, queued)

unfoldable pub try_queue_priority_frame : ConnectionShared → Frame → ConnectionShared × QueueResult
unfolding priority_open
try_queue_priority_frame s f =
    if is_closing s
    then (s, failed closed f)
    else priority_open s f (checked_add usize_max s.queues.frame_bytes (frame_len f))

pub pop_front : ConnectionShared → List Frame → ConnectionShared × Option Frame
pop_front s [] = (s, none)
pop_front s (f ∷ fs) =
    let q = record (s.queues) { frames = fs; frame_bytes = s.queues.frame_bytes - frame_len f } in
    (wake_frame_waiters (record s { queues = q }), some f)

unfoldable pub pop_frame : ConnectionShared → ConnectionShared × Option Frame
unfolding pop_front
pop_frame s = pop_front s s.queues.frames

-- A command beyond the limit takes the connection down.
unfoldable pub queue_cmd : ConnectionShared → ConnectionCmd → ConnectionShared × Bool
unfolding mark_overloaded
queue_cmd s c =
    if is_closing s
    then (s, false)
    else if leb s.limits.max_queued_commands (length s.queues.commands)
    then (mark_overloaded s, false)
    else (
      record s {
        queues = record (s.queues) { commands = s.queues.commands ++ (c ∷ []) };
        connection_woken = true;
      },
      true,
    )

pub pop_front_cmd : ConnectionShared → List ConnectionCmd → ConnectionShared × Option ConnectionCmd
pop_front_cmd s [] = (s, none)
pop_front_cmd s (c ∷ cs) = (record s { queues = record (s.queues) { commands = cs } }, some c)

unfoldable pub pop_cmd : ConnectionShared → ConnectionShared × Option ConnectionCmd
unfolding pop_front_cmd
pop_cmd s = pop_front_cmd s s.queues.commands

-- The drop of a queued `AcceptChannel` releases its incoming slot.
unfoldable pub held_slots : List ConnectionCmd → ℕ
held_slots [] = 0
held_slots (open_channel r t ∷ cs) = held_slots cs
held_slots (accept_channel a x y c true ∷ cs) = suc (held_slots cs)
held_slots (accept_channel a x y c false ∷ cs) = held_slots cs

-- The callers of the opens among commands. Their results are dropped with the commands.
unfoldable pub queued_callers : List ConnectionCmd → List ℕ
queued_callers [] = []
queued_callers (open_channel request result_tx ∷ cs) = result_tx ∷ queued_callers cs
queued_callers (accept_channel a x y c pending_slot ∷ cs) = queued_callers cs

unfoldable pub clear_queues : ConnectionShared → ConnectionShared
unfolding held_slots queued_callers
clear_queues s = record s {
  queues = empty_queues;
  pending_incoming_requests = s.pending_incoming_requests - held_slots s.queues.commands;
  woken = s.queues.frame_waiters ++ s.woken;
  connection_woken = s.connection_woken || ltb 0 (held_slots s.queues.commands);
  dropped_callers = s.dropped_callers ++ queued_callers s.queues.commands;
}

-- What `send_frame` and `send_priority_frame` make of a result.
pub sent : ConnectionShared × QueueResult → ConnectionShared × Bool
sent (s, queued) = (s, true)
sent (s, failed closed f) = (s, false)
sent (s, failed full f) = (mark_overloaded s, false)
sent (s, failed too_large f) = (mark_overloaded s, false)

unfoldable pub send_frame : ConnectionShared → Frame → ConnectionShared × Bool
unfolding sent mark_overloaded
send_frame s f = if is_closing s then (s, false) else sent (try_queue_frame s f none)

unfoldable pub send_priority_frame : ConnectionShared → Frame → ConnectionShared × Bool
unfolding sent mark_overloaded
send_priority_frame s f = if is_closing s then (s, false) else sent (try_queue_priority_frame s f)

abbrev pub send_data_frame : ConnectionShared → Frame → ℕ → ConnectionShared × QueueResult
send_data_frame s f waker = try_queue_frame s f (some waker)

unfoldable pub send_cmd : ConnectionShared → ConnectionCmd → ConnectionShared × Bool
send_cmd s c = if is_closing s then (s, false) else queue_cmd s c

-- `ConnectionRef::terminate`.
unfoldable pub terminate : ConnectionShared → ConnectionShared
terminate s =
    let t = if s.closed then s else clear_queues (record s { closed = true }) in
    record t { connection_woken = true }

-- The shared state of a new connection, before its Hello is queued.
abbrev pub new_shared : ConnectionLimits → ConnectionShared
new_shared l = record {
  closed = false;
  overloaded = false;
  queues = empty_queues;
  pending_incoming_requests = 0;
  limits = l;
  woken = [];
  connection_woken = false;
  dropped_callers = [];
}

-- The calls that the tasks of a connection make on the shared state.
pub data Call : Type 0 where
  sends : Frame → Call
  sends_priority : Frame → Call
  sends_data : Frame → ℕ → Call
  pops : Call
  sends_cmd : ConnectionCmd → Call
  pops_cmd : Call
  terminates : Call

unfoldable pub step : ConnectionShared → Call → ConnectionShared
step s (sends f) = (send_frame s f).0
step s (sends_priority f) = (send_priority_frame s f).0
step s (sends_data f w) = (send_data_frame s f w).0
step s pops = (pop_frame s).0
step s (sends_cmd c) = (send_cmd s c).0
step s pops_cmd = (pop_cmd s).0
step s terminates = terminate s

unfoldable pub run : ConnectionShared → List Call → ConnectionShared
run s [] = s
run s (c ∷ cs) = run (step s c) cs
