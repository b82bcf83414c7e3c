-- ===== src/Multiplex/Shared/Bounds.antt =====
-- The outgoing queue stays within its limits, and its byte count is that of its frames.
use nexigon.Base.{
  ℕ, suc, ◌+◌, ◌≤◌, ◌≡◌, refl, ap, true, Option, none, some, List, [], ◌∷◌, ◌++◌, arith, length,
  length-append, inl, inr, Bool-cases,
}
use nexigon.Multiplex.Frames.{Frame}
use nexigon.Multiplex.Limits.{ConnectionLimits}
use nexigon.Multiplex.Shared.Constants.{run-limits}
use nexigon.Multiplex.Shared.Outcomes.{
  Queues, shut, huge, waits, joins, try_queue_frame-Queues, try_queue_priority_frame-Queues,
}
use nexigon.Multiplex.Shared.{
  frame_limit, byte_limit, ConnectionShared, ConnectionCmd, QueueResult, queued, failed, closed,
  full, too_large, frame_len, is_closing, mark_overloaded, register_waiter, try_queue_frame,
  try_queue_priority_frame, insert_priority, pop_front, pop_frame, queue_cmd, pop_front_cmd,
  pop_cmd, clear_queues, sent, send_frame, send_priority_frame, send_cmd, terminate, step, run,
  Call, sends, sends_priority, sends_data, pops, sends_cmd, pops_cmd, terminates, new_shared,
}

-- The bytes of all frames together.
unfoldable pub total_bytes : List Frame → ℕ
total_bytes [] = 0
total_bytes (f ∷ fs) = frame_len f + total_bytes fs

pub total_bytes-append :
    (fs gs : List Frame) → total_bytes (fs ++ gs) ≡ total_bytes fs + total_bytes gs
unfolding total_bytes
total_bytes-append [] gs = omega arith
total_bytes-append (f ∷ fs) gs = omega (arith, total_bytes-append fs gs)

total_bytes-insert_priority :
    (f : Frame) (fs : List Frame)
    → total_bytes (insert_priority f fs) ≡ total_bytes fs + frame_len f
unfolding total_bytes insert_priority
total_bytes-insert_priority f [] = omega arith
total_bytes-insert_priority f (g ∷ gs) = ground arith

length-insert_priority :
    (f : Frame) (fs : List Frame) → length (insert_priority f fs) ≡ suc (length fs)
unfolding insert_priority
length-insert_priority f [] = refl
length-insert_priority f (g ∷ gs) = ground arith

frame_limit-le : (l : ConnectionLimits) (w : Option ℕ) → frame_limit l w ≤ l.max_queued_frames
frame_limit-le l none = omega arith
frame_limit-le l (some w) = omega arith

byte_limit-le : (l : ConnectionLimits) (w : Option ℕ) → byte_limit l w ≤ l.max_queued_frame_bytes
byte_limit-le l none = omega arith
byte_limit-le l (some w) = omega arith

pub record IsBounded (s : ConnectionShared) : Type 0 where
  pub counted : s.queues.frame_bytes ≡ total_bytes s.queues.frames
  pub few_frames : length s.queues.frames ≤ s.limits.max_queued_frames
  pub few_bytes : s.queues.frame_bytes ≤ s.limits.max_queued_frame_bytes
  pub few_commands : length s.queues.commands ≤ s.limits.max_queued_commands

register_waiter-IsBounded :
    (s : ConnectionShared) (w : Option ℕ) → IsBounded s → IsBounded (register_waiter s w)
unfolding register_waiter
register_waiter-IsBounded s none v = v
register_waiter-IsBounded s (some w) v = ground arith

-- Whatever a call that queues a frame answers, the queue stays bounded, if the call's limits are
-- within the connection's and its line holds the old frames and the new one.
Queues-IsBounded :
    (s : ConnectionShared) (f : Frame) (frames bytes : ℕ) (waiting : ConnectionShared)
    (line : List Frame) (r : ConnectionShared × QueueResult)
    → frames ≤ s.limits.max_queued_frames
    → bytes ≤ s.limits.max_queued_frame_bytes
    → total_bytes line ≡ total_bytes s.queues.frames + frame_len f
    → length line ≡ suc (length s.queues.frames)
    → IsBounded waiting
    → IsBounded s
    → Queues s f frames bytes waiting line r
    → IsBounded r.0
Queues-IsBounded s f frames bytes waiting line r hf hb ht hl vw v (shut c e) = rw e v
Queues-IsBounded s f frames bytes waiting line r hf hb ht hl vw v (huge c h e) = rw e v
Queues-IsBounded s f frames bytes waiting line r hf hb ht hl vw v (waits c h h' e) = rw e vw
Queues-IsBounded s f frames bytes waiting line r hf hb ht hl vw v (joins c h e) = rw e (omega arith)

try_queue_frame-IsBounded :
    (s : ConnectionShared) (f : Frame) (w : Option ℕ)
    → IsBounded s
    → IsBounded (try_queue_frame s f w).0
unfolding total_bytes
try_queue_frame-IsBounded s f w v =
    Queues-IsBounded s f (frame_limit s.limits w) (byte_limit s.limits w) (register_waiter s w)
      (s.queues.frames ++ (f ∷ [])) (try_queue_frame s f w) (frame_limit-le s.limits w)
      (byte_limit-le s.limits w) (omega (arith, total_bytes-append s.queues.frames (f ∷ [])))
      (omega (arith, length-append s.queues.frames (f ∷ []))) (register_waiter-IsBounded s w v) v
      (try_queue_frame-Queues s f w)

try_queue_priority_frame-IsBounded :
    (s : ConnectionShared) (f : Frame) → IsBounded s → IsBounded (try_queue_priority_frame s f).0
try_queue_priority_frame-IsBounded s f v =
    Queues-IsBounded s f s.limits.max_queued_frames s.limits.max_queued_frame_bytes s
      (insert_priority f s.queues.frames) (try_queue_priority_frame s f) (omega arith) (omega arith)
      (total_bytes-insert_priority f s.queues.frames) (length-insert_priority f s.queues.frames) v v
      (try_queue_priority_frame-Queues s f)

sent-IsBounded : (r : ConnectionShared × QueueResult) → IsBounded r.0 → IsBounded (sent r).0
unfolding sent mark_overloaded
sent-IsBounded (s, queued) v = v
sent-IsBounded (s, failed closed f) v = v
sent-IsBounded (s, failed full f) v = omega arith
sent-IsBounded (s, failed too_large f) v = omega arith

pop_front-IsBounded :
    (s : ConnectionShared) (fs : List Frame)
    → s.queues.frames ≡ fs
    → IsBounded s
    → IsBounded (pop_front s fs).0
unfolding pop_front total_bytes
pop_front-IsBounded s [] e v = v
pop_front-IsBounded s (f ∷ fs) e v = omega (arith, ap total_bytes e, ap length e)

pop_front_cmd-IsBounded :
    (s : ConnectionShared) (cs : List ConnectionCmd)
    → s.queues.commands ≡ cs
    → IsBounded s
    → IsBounded (pop_front_cmd s cs).0
unfolding pop_front_cmd
pop_front_cmd-IsBounded s [] e v = v
pop_front_cmd-IsBounded s (c ∷ cs) e v =
    let e' : length s.queues.commands ≡ suc (length cs) = ap length e in omega arith

queue_cmd-IsBounded :
    (s : ConnectionShared) (c : ConnectionCmd) → IsBounded s → IsBounded (queue_cmd s c).0
unfolding queue_cmd
queue_cmd-IsBounded s c v = ground (arith, length-append s.queues.commands (c ∷ []))

clear_queues-IsBounded : (s : ConnectionShared) → IsBounded (clear_queues s)
unfolding clear_queues total_bytes
clear_queues-IsBounded s = omega arith

send_frame-IsBounded :
    (s : ConnectionShared) (f : Frame) → IsBounded s → IsBounded (send_frame s f).0
unfolding send_frame
send_frame-IsBounded s f v = elim (Bool-cases (is_closing s)) [
  | inl c ↦ rw c v
  | inr c ↦ rw c (sent-IsBounded (try_queue_frame s f none) (try_queue_frame-IsBounded s f none v))
]

send_priority_frame-IsBounded :
    (s : ConnectionShared) (f : Frame) → IsBounded s → IsBounded (send_priority_frame s f).0
unfolding send_priority_frame
send_priority_frame-IsBounded s f v = elim (Bool-cases (is_closing s)) [
  | inl c ↦ rw c v
  | inr c ↦
      rw c
        (sent-IsBounded (try_queue_priority_frame s f) (try_queue_priority_frame-IsBounded s f v))
]

-- Every call keeps the queues within their limits, and the byte count true to the frames.
pub step-IsBounded : (s : ConnectionShared) (c : Call) → IsBounded s → IsBounded (step s c)
unfolding step
step-IsBounded s (sends f) v = send_frame-IsBounded s f v
step-IsBounded s (sends_priority f) v = send_priority_frame-IsBounded s f v
step-IsBounded s (sends_data f w) v = try_queue_frame-IsBounded s f (some w) v
step-IsBounded s pops v = unfold pop_frame in pop_front-IsBounded s s.queues.frames refl v
step-IsBounded s (sends_cmd c) v = unfold send_cmd in ground (arith, queue_cmd-IsBounded s c v)
step-IsBounded s pops_cmd v = unfold pop_cmd in pop_front_cmd-IsBounded s s.queues.commands refl v
step-IsBounded s terminates v =
    unfold terminate in ground (arith, clear_queues-IsBounded (record s { closed = true }))

run_from-IsBounded : (s : ConnectionShared) (cs : List Call) → IsBounded s → IsBounded (run s cs)
unfolding run
run_from-IsBounded s [] v = v
run_from-IsBounded s (c ∷ cs) v = run_from-IsBounded (step s c) cs (step-IsBounded s c v)

new_shared-IsBounded : (l : ConnectionLimits) → IsBounded (new_shared l)
unfolding total_bytes
new_shared-IsBounded l = omega arith

-- After any history of calls on a new connection with limits `l`, the queue holds at most the frames,
-- bytes and commands that `l` allows, and its byte count is that of its frames.
pub run-new_shared :
    (l : ConnectionLimits) (cs : List Call)
    → let q = (run (new_shared l) cs).queues in
      (q.frame_bytes ≡ total_bytes q.frames)
      × (length q.frames ≤ l.max_queued_frames)
      × (q.frame_bytes ≤ l.max_queued_frame_bytes)
      × (length q.commands ≤ l.max_queued_commands)
run-new_shared l cs =
    let v = run_from-IsBounded (new_shared l) cs (new_shared-IsBounded l) in
    let e = run-limits (new_shared l) cs in
    (v.counted, rw e at v.few_frames, rw e at v.few_bytes, rw e at v.few_commands)
