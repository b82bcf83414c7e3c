-- ===== src/Multiplex/Shared/Admission.antt =====
-- What a call that queues a frame does to the frames that are queued.
use nexigon.Base.{ℕ, ◌≡◌, refl, ◌∙◌, sym, Option, none, some, List, [], ◌∷◌, ◌++◌, append-nil}
use nexigon.Multiplex.Frames.{Frame}
use nexigon.Multiplex.Shared.{
  ConnectionShared, QueueResult, queued, failed, try_queue_frame, mark_overloaded, register_waiter,
}
use nexigon.Multiplex.Shared.Outcomes.{Queues, shut, huge, joins, try_queue_frame-Queues}

-- The frames that a call with this result leaves in the queue.
abbrev pub admitted : Frame → QueueResult → List Frame
admitted f queued = f ∷ []
admitted f (failed x g) = []

register_waiter-frames :
    (c : ConnectionShared) (w : Option ℕ) → (register_waiter c w).queues.frames ≡ c.queues.frames
unfolding register_waiter
register_waiter-frames c none = refl
register_waiter-frames c (some w) = refl

Queues-frames :
    (c : ConnectionShared) (f : Frame) (frames bytes : ℕ) (w : Option ℕ)
    (r : ConnectionShared × QueueResult)
    → Queues c f frames bytes (register_waiter c w) (c.queues.frames ++ (f ∷ [])) r
    → r.0.queues.frames ≡ c.queues.frames ++ admitted f r.1
Queues-frames c f n m w r (shut d e) = rw e (sym (append-nil c.queues.frames))
Queues-frames c f n m w r (huge d h e) = rw e (sym (append-nil c.queues.frames))
Queues-frames c f n m w r (Queues.waits d h h' e) =
    rw e (register_waiter-frames c w ∙ sym (append-nil c.queues.frames))
Queues-frames c f n m w r (joins d h e) = rw e refl

pub try_queue_frame-frames :
    (c : ConnectionShared) (f : Frame) (w : Option ℕ)
    → (try_queue_frame c f w).0.queues.frames
      ≡ c.queues.frames ++ admitted f (try_queue_frame c f w).1
try_queue_frame-frames c f w =
    Queues-frames c f _ _ w (try_queue_frame c f w) (try_queue_frame-Queues c f w)

pub mark_overloaded-frames :
    (c : ConnectionShared) → (mark_overloaded c).queues.frames ≡ c.queues.frames
unfolding mark_overloaded
mark_overloaded-frames c = refl
