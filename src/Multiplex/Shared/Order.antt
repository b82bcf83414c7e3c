-- ===== src/Multiplex/Shared/Order.antt =====
-- The order in which queued frames reach the transport. Ping and Pong may overtake; all else is first
-- in, first out, and nothing overtakes the Hello.
use nexigon.Base.{
  ℕ, ◌≡◌, refl, sym, ap, ◌∙◌, Bool, true, false, Option, none, some, List, [], ◌∷◌, ◌++◌,
  append_assoc, append-nil, arith, inl, inr, Bool-cases, if◌then◌else◌, All,
}
use nexigon.Multiplex.Frames.{Frame, FrameKind, ping, pong}
use nexigon.Multiplex.Shared.Outcomes.{
  Queues, shut, huge, waits, joins, try_queue_frame-Queues, try_queue_priority_frame-Queues,
}
use nexigon.Multiplex.Shared.{
  ConnectionShared, ConnectionCmd, QueueResult, queued, failed, closed, full, too_large, is_closing,
  is_hello, mark_overloaded, register_waiter, try_queue_frame, try_queue_priority_frame,
  insert_priority, pop_front, pop_frame, queue_cmd, pop_front_cmd, pop_cmd, sent, send_frame,
  send_priority_frame, send_data_frame, send_cmd, step, run, Call, sends, sends_priority,
  sends_data, pops, sends_cmd, pops_cmd, terminates,
}

abbrev pub is_liveness : FrameKind → Bool
is_liveness ping = true
is_liveness pong = true
is_liveness _ = false

-- The frames that are neither Ping nor Pong, in their order.
pub traffic : List Frame → List Frame
traffic [] = []
traffic (f ∷ fs) = if is_liveness f.kind then traffic fs else f ∷ traffic fs

traffic-append : (fs gs : List Frame) → traffic (fs ++ gs) ≡ traffic fs ++ traffic gs
unfolding traffic
traffic-append [] gs = refl
traffic-append (f ∷ fs) gs = elim (Bool-cases (is_liveness f.kind)) [
  | inl e ↦ rw e (traffic-append fs gs)
  | inr e ↦ rw e (ap (◌∷◌ f) (traffic-append fs gs))
]

traffic-insert_priority :
    (f : Frame) (fs : List Frame)
    → is_liveness f.kind ≡ true
    → traffic (insert_priority f fs) ≡ traffic fs
unfolding traffic insert_priority
traffic-insert_priority f [] e = rw e refl
traffic-insert_priority f (g ∷ gs) e = elim (Bool-cases (is_hello g.kind)) [
  | inl h ↦ rw h (rw e refl)
  | inr h ↦ rw h (rw e refl)
]

abbrev added : Frame → QueueResult → List Frame
added f queued = traffic (f ∷ [])
added f (failed x g) = []

-- What a call adds to the traffic, as its answer tells the caller.
pub accepts : ConnectionShared → Call → List Frame
accepts s (sends f) = if (send_frame s f).1 then traffic (f ∷ []) else []
accepts s (sends_data f w) = added f (send_data_frame s f w).1
accepts s _ = []

abbrev pub option_list : Option Frame → List Frame
option_list none = []
option_list (some f) = f ∷ []

-- What a call takes from the traffic and hands to the transport.
pub takes : ConnectionShared → Call → List Frame
takes s pops = traffic (option_list (pop_frame s).1)
takes s _ = []

-- The calls of a connection that is not being torn down: only Ping and Pong have priority.
abbrev pub Orderly : Call → Type 0
Orderly (sends_priority f) = is_liveness f.kind ≡ true
Orderly terminates = ⊥
Orderly _ = Unit {0}

-- One way of queueing a frame, whatever it answers.
Queues-traffic :
    (s : ConnectionShared) (f : Frame) (frames bytes : ℕ) (waiting : ConnectionShared)
    (line : List Frame) (r : ConnectionShared × QueueResult)
    → waiting.queues.frames ≡ s.queues.frames
    → traffic line ≡ traffic s.queues.frames ++ traffic (f ∷ [])
    → Queues s f frames bytes waiting line r
    → traffic r.0.queues.frames ≡ traffic s.queues.frames ++ added f r.1
Queues-traffic s f frames bytes waiting line r w h (shut c e) = rw e (sym (append-nil _))
Queues-traffic s f frames bytes waiting line r w h (huge c b e) = rw e (sym (append-nil _))
Queues-traffic s f frames bytes waiting line r w h (waits c b b' e) = rw (e, w) (sym (append-nil _))
Queues-traffic s f frames bytes waiting line r w h (joins c b e) = rw e h

pub register_waiter-frames :
    (s : ConnectionShared) (w : Option ℕ) → (register_waiter s w).queues.frames ≡ s.queues.frames
unfolding register_waiter
register_waiter-frames s none = refl
register_waiter-frames s (some w) = refl

try_queue_frame-traffic :
    (s : ConnectionShared) (f : Frame) (w : Option ℕ)
    → traffic (try_queue_frame s f w).0.queues.frames
      ≡ traffic s.queues.frames ++ added f (try_queue_frame s f w).1
try_queue_frame-traffic s f w =
    Queues-traffic s f _ _ (register_waiter s w) _ (try_queue_frame s f w)
      (register_waiter-frames s w) (traffic-append s.queues.frames (f ∷ []))
      (try_queue_frame-Queues s f w)

added_liveness : (f : Frame) (r : QueueResult) → is_liveness f.kind ≡ true → added f r ≡ []
unfolding traffic
added_liveness f queued e = rw e refl
added_liveness f (failed x g) e = refl

pub sent-frames :
    (r : ConnectionShared × QueueResult) → (sent r).0.queues.frames ≡ r.0.queues.frames
unfolding sent mark_overloaded
sent-frames (s, queued) = refl
sent-frames (s, failed closed f) = refl
sent-frames (s, failed full f) = refl
sent-frames (s, failed too_large f) = refl

sent-added :
    (f : Frame) (r : ConnectionShared × QueueResult)
    → (if (sent r).1 then traffic (f ∷ []) else []) ≡ added f r.1
unfolding sent
sent-added f (s, queued) = refl
sent-added f (s, failed closed g) = refl
sent-added f (s, failed full g) = refl
sent-added f (s, failed too_large g) = refl

send_frame-traffic :
    (s : ConnectionShared) (f : Frame)
    → traffic (send_frame s f).0.queues.frames
      ≡ traffic s.queues.frames ++ (if (send_frame s f).1 then traffic (f ∷ []) else [])
unfolding send_frame
send_frame-traffic s f = elim (Bool-cases (is_closing s)) [
  | inl c ↦ rw c (sym (append-nil _))
  | inr c ↦
      rw (c, sent-frames (try_queue_frame s f none), sent-added f (try_queue_frame s f none))
        (try_queue_frame-traffic s f none)
]

send_priority_frame-traffic :
    (s : ConnectionShared) (f : Frame)
    → is_liveness f.kind ≡ true
    → traffic (send_priority_frame s f).0.queues.frames ≡ traffic s.queues.frames
unfolding send_priority_frame
send_priority_frame-traffic s f l = elim (Bool-cases (is_closing s)) [
  | inl c ↦ rw c refl
  | inr c ↦
      rw (c, sent-frames (try_queue_priority_frame s f))
        (Queues-traffic s f _ _ s _ (try_queue_priority_frame s f) refl line
            (try_queue_priority_frame-Queues s f)
          ∙ ap (◌++◌ (traffic s.queues.frames)) (added_liveness f _ l)
          ∙ append-nil _)
]
  where
    line : traffic (insert_priority f s.queues.frames) ≡ traffic s.queues.frames ++ traffic (f ∷ [])
    line =
        traffic-insert_priority f s.queues.frames l
        ∙ sym (ap (◌++◌ (traffic s.queues.frames)) (added_liveness f queued l) ∙ append-nil _)

pop_front-traffic :
    (s : ConnectionShared) (fs : List Frame)
    → s.queues.frames ≡ fs
    → traffic fs
      ≡ traffic (option_list (pop_front s fs).1) ++ traffic (pop_front s fs).0.queues.frames
unfolding pop_front traffic
pop_front-traffic s [] e = rw e refl
pop_front-traffic s (f ∷ fs) e = traffic-append (f ∷ []) fs

pub queue_cmd-frames :
    (s : ConnectionShared) (c : ConnectionCmd) → (send_cmd s c).0.queues.frames ≡ s.queues.frames
unfolding send_cmd queue_cmd mark_overloaded
queue_cmd-frames s c = ground arith

pub pop_front_cmd-frames :
    (s : ConnectionShared) (cs : List ConnectionCmd)
    → (pop_front_cmd s cs).0.queues.frames ≡ s.queues.frames
unfolding pop_front_cmd
pop_front_cmd-frames s [] = refl
pop_front_cmd-frames s (c ∷ cs) = refl

-- One call: what was queued and what it accepts is what it takes and what is queued then.
pub step-traffic :
    (s : ConnectionShared) (c : Call)
    → Orderly c
    → traffic s.queues.frames ++ accepts s c ≡ takes s c ++ traffic (step s c).queues.frames
unfolding step accepts takes
step-traffic s (sends f) o = sym (send_frame-traffic s f)
step-traffic s (sends_priority f) o = append-nil _ ∙ sym (send_priority_frame-traffic s f o)
step-traffic s (sends_data f w) o = sym (try_queue_frame-traffic s f (some w))
step-traffic s pops o =
    append-nil _ ∙ (unfold pop_frame in pop_front-traffic s s.queues.frames refl)
step-traffic s (sends_cmd c) o = append-nil _ ∙ ap traffic (sym (queue_cmd-frames s c))
step-traffic s pops_cmd o =
    append-nil _ ∙ (unfold pop_cmd in ap traffic (sym (pop_front_cmd-frames s s.queues.commands)))
step-traffic s terminates o = absurd o

-- The traffic that a history accepts, and the traffic that it hands to the transport.
pub run_accepts : ConnectionShared → List Call → List Frame
run_accepts s [] = []
run_accepts s (c ∷ cs) = accepts s c ++ run_accepts (step s c) cs

pub run_takes : ConnectionShared → List Call → List Frame
run_takes s [] = []
run_takes s (c ∷ cs) = takes s c ++ run_takes (step s c) cs

-- Over any calls of a connection that is not terminated, where only Ping and Pong are sent with priority, the
-- frames other than Ping and Pong form a queue: those that were waiting followed by those accepted are, in this
-- order, those handed to the transport followed by those still waiting.
pub run-traffic :
    (s : ConnectionShared) (cs : List Call)
    → All Orderly cs
    → traffic s.queues.frames ++ run_accepts s cs
      ≡ run_takes s cs ++ traffic (run s cs).queues.frames
unfolding run run_accepts run_takes
run-traffic s [] o = append-nil _
run-traffic s (c ∷ cs) o =
    sym (append_assoc (traffic s.queues.frames) (accepts s c) (run_accepts (step s c) cs))
    ∙ ap (λ x. x ++ run_accepts (step s c) cs) (step-traffic s c o.0)
    ∙ append_assoc (takes s c) (traffic (step s c).queues.frames) (run_accepts (step s c) cs)
    ∙ ap (◌++◌ (takes s c)) (run-traffic (step s c) cs o.1)
    ∙ sym (
        append_assoc (takes s c) (run_takes (step s c) cs)
          (traffic (run (step s c) cs).queues.frames))
