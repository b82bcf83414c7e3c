-- ===== src/Multiplex/Shared/Waiters.antt =====
-- Backpressure: a writer that finds the queue full is woken by the next frame that leaves it, and
-- channel data leaves the reserved room to control frames.
use nexigon.Base.{
  ℕ, ◌+◌, ◌≤◌, ◌≡◌, refl, sym, ap, ◌∙◌, false, some, List, [], ◌∷◌, ◌++◌, arith, length, inl, inr,
  subst,
}
use nexigon.Multiplex.Frames.{Frame}
use nexigon.Multiplex.Shared.Waking.{
  Holds, Waits, WillWake, Attends, add_waiter-Holds, Waits-WillWake, run-Attends,
}
use nexigon.Multiplex.Limits.{IsValid}
use nexigon.Multiplex.Shared.Outcomes.{
  Queues, Full, shut, huge, waits, joins, try_queue_frame-Queues,
}
use nexigon.Multiplex.Shared.Order.{register_waiter-frames}
use nexigon.Multiplex.Shared.Bounds.{IsBounded, total_bytes}
use nexigon.Multiplex.Shared.{
  ConnectionShared, QueueResult, failed, full, is_closing, frame_len, frame_limit, byte_limit,
  register_waiter, send_data_frame, Call, run,
}

register_waiter-Holds :
    (s : ConnectionShared) (w : ℕ) → Holds (register_waiter s (some w)).queues.frame_waiters w
unfolding register_waiter
register_waiter-Holds s w = add_waiter-Holds s.queues.frame_waiters w

-- A queue with no room for a data frame is not empty, so that the transport has a frame to take.
Full-frames :
    (s : ConnectionShared) (f : Frame) (w : ℕ) (fs : List Frame)
    → IsValid s.limits
    → IsBounded s
    → frame_len f ≤ s.limits.max_encoded_frame_size
    → Full s f (frame_limit s.limits (some w)) (byte_limit s.limits (some w))
    → s.queues.frames ≡ fs
    → (g : Frame) × (gs : List Frame) × (fs ≡ g ∷ gs)
unfolding total_bytes
Full-frames s f w [] l v small (inl h) e =
    let e' : length s.queues.frames ≡ 0 = ap length e in absurd (omega arith)
Full-frames s f w [] l v small (inr h) e =
    let e' : total_bytes s.queues.frames ≡ 0 = ap total_bytes e in absurd (omega arith)
Full-frames s f w (g ∷ gs) l v small h e = (g, gs, refl)

register_waiter-Waits :
    (s : ConnectionShared) (w : ℕ) (g : Frame) (gs : List Frame)
    → s.queues.frames ≡ g ∷ gs
    → Waits (register_waiter s (some w)) w
register_waiter-Waits s w g gs e =
    (register_waiter-Holds s w, rw (register_waiter-frames s (some w) ∙ e) (omega arith))

send_data_frame-Waits :
    (s t : ConnectionShared) (f : Frame) (w : ℕ) (r : ConnectionShared × QueueResult)
    → IsValid s.limits
    → IsBounded s
    → r ≡ (t, failed full f)
    → Queues s f
        (frame_limit s.limits (some w))
        (byte_limit s.limits (some w))
        (register_waiter s (some w))
        (s.queues.frames ++ (f ∷ []))
        r
    → Waits t w
send_data_frame-Waits s t f w r l v h (shut c e) = absurd (cc)
send_data_frame-Waits s t f w r l v h (huge c b e) = absurd (cc)
send_data_frame-Waits s t f w r l v h (joins c b e) = absurd (cc)
send_data_frame-Waits s t f w r l v h (waits c small b e) =
    let (g, gs, front) = Full-frames s f w s.queues.frames l v small b refl in
    let same : register_waiter s (some w) ≡ t = ap (λ p. p.0) (sym e ∙ h) in
    subst (λ x. Waits x w) same (register_waiter-Waits s w g gs front)

-- A writer whose data frame is refused because the queue is full is not forgotten. Right after the
-- refusal its waker is registered, there is a frame for the transport to take, and taking it wakes all
-- that are registered. After any further calls, those of other writers included, either the writer was
-- woken since the refusal, or this still holds of it.
pub send_data_frame-WillWake :
    (s t : ConnectionShared) (f : Frame) (w : ℕ) (cs : List Call)
    → IsValid s.limits
    → IsBounded s
    → send_data_frame s f w ≡ (t, failed full f)
    → WillWake t w × Attends t w (run t cs)
send_data_frame-WillWake s t f w cs l v h =
    let there =
      send_data_frame-Waits s t f w (send_data_frame s f w) l v h
        (try_queue_frame-Queues s f (some w)) in
    (Waits-WillWake t w there, run-Attends t w cs there)

-- The room that channel data leaves.
abbrev pub LeavesRoom : ConnectionShared → Type 0
LeavesRoom t =
    (is_closing t ≡ false)
    × (length t.queues.frames + t.limits.reserved_control_queue_frames ≤ t.limits.max_queued_frames)
    × (t.queues.frame_bytes + t.limits.reserved_control_queue_bytes
        ≤ t.limits.max_queued_frame_bytes)
