-- ===== src/Multiplex/Shared/Constants.antt =====
-- No call changes the limits of a connection.
use nexigon.Base.{ℕ, ◌≡◌, ◌∙◌, refl, Option, none, some, List, [], ◌∷◌, arith}
use nexigon.Multiplex.Frames.{Frame}
use nexigon.Multiplex.Shared.Outcomes.{
  Queues, shut, huge, waits, joins, try_queue_frame-Queues, try_queue_priority_frame-Queues,
}
use nexigon.Multiplex.Shared.{
  ConnectionShared, ConnectionCmd, QueueResult, queued, failed, closed, full, too_large,
  mark_overloaded, register_waiter, try_queue_frame, try_queue_priority_frame, pop_front, pop_frame,
  queue_cmd, pop_front_cmd, pop_cmd, clear_queues, sent, send_frame, send_priority_frame, send_cmd,
  terminate, step, run, Call, sends, sends_priority, sends_data, pops, sends_cmd, pops_cmd,
  terminates,
}

Queues-limits :
    (s : ConnectionShared) (f : Frame) (frames bytes : ℕ) (waiting : ConnectionShared)
    (line : List Frame) (r : ConnectionShared × QueueResult)
    → waiting.limits ≡ s.limits
    → Queues s f frames bytes waiting line r
    → r.0.limits ≡ s.limits
Queues-limits s f frames bytes waiting line r w (shut c e) = rw e refl
Queues-limits s f frames bytes waiting line r w (huge c h e) = rw e refl
Queues-limits s f frames bytes waiting line r w (waits c h h' e) = rw e w
Queues-limits s f frames bytes waiting line r w (joins c h e) = rw e refl

pub try_queue_frame-limits :
    (s : ConnectionShared) (f : Frame) (w : Option ℕ) → (try_queue_frame s f w).0.limits ≡ s.limits
try_queue_frame-limits s f w =
    Queues-limits s f _ _ (register_waiter s w) _ (try_queue_frame s f w) (register_waiter-limits w)
      (try_queue_frame-Queues s f w)
  where
    register_waiter-limits : (w : Option ℕ) → (register_waiter s w).limits ≡ s.limits
    register_waiter-limits none = unfold register_waiter in refl
    register_waiter-limits (some v) = unfold register_waiter in refl

sent-limits : (r : ConnectionShared × QueueResult) → (sent r).0.limits ≡ r.0.limits
unfolding sent mark_overloaded
sent-limits (s, queued) = refl
sent-limits (s, failed closed f) = refl
sent-limits (s, failed full f) = refl
sent-limits (s, failed too_large f) = refl

pop_front-limits : (s : ConnectionShared) (fs : List Frame) → (pop_front s fs).0.limits ≡ s.limits
unfolding pop_front
pop_front-limits s [] = refl
pop_front-limits s (f ∷ fs) = refl

pop_front_cmd-limits :
    (s : ConnectionShared) (cs : List ConnectionCmd) → (pop_front_cmd s cs).0.limits ≡ s.limits
unfolding pop_front_cmd
pop_front_cmd-limits s [] = refl
pop_front_cmd-limits s (c ∷ cs) = refl

pub step-limits : (s : ConnectionShared) (c : Call) → (step s c).limits ≡ s.limits
unfolding step
step-limits s (sends f) =
    unfold send_frame in
    ground (arith, sent-limits (try_queue_frame s f none), try_queue_frame-limits s f none)
step-limits s (sends_priority f) =
    unfold send_priority_frame in
    ground (
      arith,
      sent-limits (try_queue_priority_frame s f),
      Queues-limits s f _ _ s _ (try_queue_priority_frame s f) refl
          (try_queue_priority_frame-Queues s f),
    )
step-limits s (sends_data f w) = try_queue_frame-limits s f (some w)
step-limits s pops = unfold pop_frame in pop_front-limits s s.queues.frames
step-limits s (sends_cmd c) = unfold send_cmd queue_cmd mark_overloaded in ground arith
step-limits s pops_cmd = unfold pop_cmd in pop_front_cmd-limits s s.queues.commands
step-limits s terminates = unfold terminate clear_queues in ground arith

pub run-limits : (s : ConnectionShared) (cs : List Call) → (run s cs).limits ≡ s.limits
unfolding run
run-limits s [] = refl
run-limits s (c ∷ cs) = run-limits (step s c) cs ∙ step-limits s c
