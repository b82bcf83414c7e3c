-- ===== src/Multiplex/Shared/Hello.antt =====
-- The Hello that a connection queues first is the first frame that its transport gets.
use nexigon.Multiplex.Limits.{ConnectionLimits, IsValid}
use nexigon.Base.{
  inl, none, ℕ, ◌≡◌, refl, true, List, [], ◌∷◌, ◌++◌, Option, All, some, Bool-cases, ap, arith, inr,
}
use nexigon.Multiplex.Frames.{Frame, new, hello, octets, protocol_magic}
use nexigon.Multiplex.Shared.Order.{
  sent-frames, register_waiter-frames, queue_cmd-frames, pop_front_cmd-frames,
}
use nexigon.Multiplex.Shared.Outcomes.{
  try_queue_frame-Queues, try_queue_priority_frame-Queues, Queues, shut, huge, waits, joins,
}
use nexigon.Multiplex.Shared.{
  ConnectionShared, QueueResult, queued, is_closing, is_hello, store_frames, new_shared,
  register_waiter, try_queue_frame, try_queue_priority_frame, insert_priority, pop_front, pop_frame,
  pop_cmd, send_frame, send_priority_frame, step, run, Call, sends, sends_priority, sends_data,
  pops, sends_cmd, pops_cmd, terminates, frame_len,
}

-- `h` stands in front of the queue.
abbrev pub Leads : Frame → List Frame → Type 0
Leads h [] = ⊥
Leads h (f ∷ fs) = f ≡ h

Leads-append : (h : Frame) (fs gs : List Frame) → Leads h fs → Leads h (fs ++ gs)
Leads-append h [] gs l = absurd l
Leads-append h (f ∷ fs) gs l = l

Leads-insert_priority :
    (h f : Frame) (fs : List Frame)
    → is_hello h.kind ≡ true
    → Leads h fs
    → Leads h (insert_priority f fs)
unfolding insert_priority
Leads-insert_priority h f [] e l = absurd l
Leads-insert_priority h f (g ∷ gs) e l = rw (l, e) refl

Queues-Leads :
    (h : Frame) (s : ConnectionShared) (f : Frame) (frames bytes : ℕ) (waiting : ConnectionShared)
    (line : List Frame) (r : ConnectionShared × QueueResult)
    → waiting.queues.frames ≡ s.queues.frames
    → Leads h line
    → Leads h s.queues.frames
    → Queues s f frames bytes waiting line r
    → Leads h r.0.queues.frames
Queues-Leads h s f frames bytes waiting line r w k l (shut c e) = rw e l
Queues-Leads h s f frames bytes waiting line r w k l (huge c b e) = rw e l
Queues-Leads h s f frames bytes waiting line r w k l (waits c b b' e) = rw (e, w) l
Queues-Leads h s f frames bytes waiting line r w k l (joins c b e) = rw e k

try_queue_frame-Leads :
    (h : Frame) (s : ConnectionShared) (f : Frame) (w : Option ℕ)
    → Leads h s.queues.frames
    → Leads h (try_queue_frame s f w).0.queues.frames
try_queue_frame-Leads h s f w l =
    Queues-Leads h s f _ _ (register_waiter s w) _ (try_queue_frame s f w)
      (register_waiter-frames s w) (Leads-append h s.queues.frames (f ∷ []) l) l
      (try_queue_frame-Queues s f w)

send_frame-Leads :
    (h : Frame) (s : ConnectionShared) (f : Frame)
    → Leads h s.queues.frames
    → Leads h (send_frame s f).0.queues.frames
unfolding send_frame
send_frame-Leads h s f l = elim (Bool-cases (is_closing s)) [
  | inl c ↦ rw c l
  | inr c ↦ rw (c, sent-frames (try_queue_frame s f none)) (try_queue_frame-Leads h s f none l)
]

send_priority_frame-Leads :
    (h : Frame) (s : ConnectionShared) (f : Frame)
    → is_hello h.kind ≡ true
    → Leads h s.queues.frames
    → Leads h (send_priority_frame s f).0.queues.frames
unfolding send_priority_frame
send_priority_frame-Leads h s f e l = elim (Bool-cases (is_closing s)) [
  | inl c ↦ rw c l
  | inr c ↦
      rw (c, sent-frames (try_queue_priority_frame s f))
        (Queues-Leads h s f _ _ s _ (try_queue_priority_frame s f) refl
          (Leads-insert_priority h f s.queues.frames e l) l (try_queue_priority_frame-Queues s f))
]

-- The calls that leave the front of the queue to the transport.
abbrev pub LeavesFront : Call → Type 0
LeavesFront pops = ⊥
LeavesFront terminates = ⊥
LeavesFront _ = Unit {0}

step-Leads :
    (h : Frame) (s : ConnectionShared) (c : Call)
    → is_hello h.kind ≡ true
    → LeavesFront c
    → Leads h s.queues.frames
    → Leads h (step s c).queues.frames
unfolding step
step-Leads h s (sends f) e o l = send_frame-Leads h s f l
step-Leads h s (sends_priority f) e o l = send_priority_frame-Leads h s f e l
step-Leads h s (sends_data f w) e o l = try_queue_frame-Leads h s f (some w) l
step-Leads h s pops e o l = absurd o
step-Leads h s (sends_cmd c) e o l = rw (queue_cmd-frames s c) l
step-Leads h s pops_cmd e o l = unfold pop_cmd in (rw (pop_front_cmd-frames s s.queues.commands) l)
step-Leads h s terminates e o l = absurd o

run-Leads :
    (h : Frame) (s : ConnectionShared) (cs : List Call)
    → is_hello h.kind ≡ true
    → All LeavesFront cs
    → Leads h s.queues.frames
    → Leads h (run s cs).queues.frames
unfolding run
run-Leads h s [] e o l = l
run-Leads h s (c ∷ cs) e o l = run-Leads h (step s c) cs e o.1 (step-Leads h s c e o.0 l)

pop_front-Leads :
    (h : Frame) (s : ConnectionShared) (fs : List Frame) → Leads h fs → (pop_front s fs).1 ≡ some h
unfolding pop_front
pop_front-Leads h s [] l = absurd l
pop_front-Leads h s (f ∷ fs) l = ap some l

-- The Hello that `Connection::with_limits` queues.
abbrev pub hello_frame : Frame
hello_frame = new hello (octets protocol_magic ∷ octets [] ∷ [])

hello_frame-len : frame_len hello_frame ≡ 17
unfolding new
hello_frame-len = refl

hello_joins :
    (l : ConnectionLimits) (r : ConnectionShared × QueueResult)
    → IsValid l
    → Queues
        (new_shared l)
        hello_frame
        l.max_queued_frames
        l.max_queued_frame_bytes
        (new_shared l)
        (hello_frame ∷ [])
        r
    → r ≡ (store_frames (new_shared l) (hello_frame ∷ []) 17, queued)
unfolding new
hello_joins l r v (shut c e) = absurd (cc)
hello_joins l r v (huge c (inl b) e) = absurd (omega arith)
hello_joins l r v (huge c (inr b) e) = absurd (omega arith)
hello_joins l r v (waits c b (inl f) e) = absurd (omega arith)
hello_joins l r v (waits c b (inr f) e) = absurd (omega arith)
hello_joins l r v (joins c b e) = e

-- Validated limits have room for the Hello, so that the assertion of `with_limits` holds.
pub send_frame-hello :
    (l : ConnectionLimits)
    → IsValid l
    → send_frame (new_shared l) hello_frame
      ≡ (store_frames (new_shared l) (hello_frame ∷ []) 17, true)
unfolding send_frame register_waiter
send_frame-hello l v =
    let q = try_queue_frame-Queues (new_shared l) hello_frame none in
    rw (hello_joins l (try_queue_frame (new_shared l) hello_frame none) v q) refl

-- Whatever is queued before the transport takes its first frame, Ping and Pong included, that first
-- frame is the Hello.
pub pop_frame-hello :
    (l : ConnectionLimits) (cs : List Call)
    → IsValid l
    → All LeavesFront cs
    → (pop_frame (run (send_frame (new_shared l) hello_frame).0 cs)).1 ≡ some hello_frame
unfolding pop_frame
pop_frame-hello l cs v o = rw (send_frame-hello l v) (
    pop_front-Leads hello_frame _ _ (
      run-Leads hello_frame (store_frames (new_shared l) (hello_frame ∷ []) 17) cs
        (unfold new in refl) o refl))
