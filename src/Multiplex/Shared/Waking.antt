-- ===== src/Multiplex/Shared/Waking.antt =====
-- What each call does to the writers that wait for room in the queue: they stay registered, or all of
-- them are woken.
use nexigon.Base.{
  ℕ, ◌<◌, ◌≡◌, refl, sym, ap, ◌∙◌, true, none, some, List, [], ◌∷◌, ◌++◌, arith, length,
  length-append, ◌⊎◌, inl, inr, append_assoc, Bool-cases, Option,
}
use nexigon.Multiplex.Frames.{Frame}
use nexigon.Multiplex.Shared.Outcomes.{
  Queues, shut, huge, waits, joins, try_queue_frame-Queues, try_queue_priority_frame-Queues,
}
use nexigon.Multiplex.Shared.{
  ConnectionShared, ConnectionCmd, QueueResult, register_waiter, add_waiter, contains_waker,
  try_queue_frame, try_queue_priority_frame, insert_priority, pop_front, pop_frame, mark_overloaded,
  sent, send_frame, send_priority_frame, send_data_frame, queue_cmd, send_cmd, pop_front_cmd,
  pop_cmd, clear_queues, terminate, is_closing, is_hello, step, run, Call, sends, sends_priority,
  sends_data, pops, sends_cmd, pops_cmd, terminates,
}

-- `w` is among the wakers.
abbrev pub Holds : List ℕ → ℕ → Type 0
Holds ws w = contains_waker ws w ≡ true

contains_waker-append_left : (vs ws : List ℕ) (w : ℕ) → Holds vs w → Holds (vs ++ ws) w
unfolding contains_waker
contains_waker-append_left [] ws w h = absurd (cc)
contains_waker-append_left (v ∷ vs) ws w h = ground (arith, contains_waker-append_left vs ws w)

contains_waker-append_last : (vs : List ℕ) (w : ℕ) → Holds (vs ++ (w ∷ [])) w
unfolding contains_waker
contains_waker-append_last [] w = ground arith
contains_waker-append_last (v ∷ vs) w = ground (arith, contains_waker-append_last vs w)

pub add_waiter-Holds : (ws : List ℕ) (w : ℕ) → Holds (add_waiter ws w) w
unfolding add_waiter
add_waiter-Holds ws w = ground (arith, contains_waker-append_last ws w)

contains_waker-append_right : (vs ws : List ℕ) (w : ℕ) → Holds ws w → Holds (vs ++ ws) w
unfolding contains_waker
contains_waker-append_right [] ws w h = h
contains_waker-append_right (v ∷ vs) ws w h = ground (arith, contains_waker-append_right vs ws w h)

add_waiter-stays : (ws : List ℕ) (v w : ℕ) → Holds ws v → Holds (add_waiter ws w) v
unfolding add_waiter
add_waiter-stays ws v w h = elim (Bool-cases (contains_waker ws w)) [
  | inl e ↦ rw e h
  | inr e ↦ rw e (contains_waker-append_left ws (w ∷ []) v h)
]

-- Nobody is woken, and who waits still waits, for a frame that is still there.
abbrev Stays : ConnectionShared → ConnectionShared → Type 0
Stays s t =
    (t.woken ≡ s.woken)
    × ((v : ℕ) → Holds s.queues.frame_waiters v → Holds t.queues.frame_waiters v)
    × (0 < length s.queues.frames → 0 < length t.queues.frames)

abbrev Wakes : ConnectionShared → ConnectionShared → Type 0
Wakes s t = t.woken ≡ s.queues.frame_waiters ++ s.woken

abbrev Keeps : ConnectionShared → ConnectionShared → Type 0
Keeps s t = Stays s t ⊎ Wakes s t

same-Keeps : (s : ConnectionShared) → Keeps s s
same-Keeps s = inl (refl, λ v h. h, λ h. h)

register_waiter-Keeps : (s : ConnectionShared) (w : Option ℕ) → Keeps s (register_waiter s w)
unfolding register_waiter
register_waiter-Keeps s none = same-Keeps s
register_waiter-Keeps s (some w) =
    inl (refl, λ v h. add_waiter-stays s.queues.frame_waiters v w h, λ h. h)

mark_overloaded-Keeps : (s : ConnectionShared) → Keeps s (mark_overloaded s)
unfolding mark_overloaded
mark_overloaded-Keeps s = inr refl

longer : (fs : List Frame) (f : Frame) → 0 < length (fs ++ (f ∷ []))
longer fs f = omega (arith, length-append fs (f ∷ []))

insert_priority-longer : (f : Frame) (fs : List Frame) → 0 < length (insert_priority f fs)
unfolding insert_priority
insert_priority-longer f [] = omega arith
insert_priority-longer f (g ∷ gs) = elim (Bool-cases (is_hello g.kind)) [
  | inl e ↦ rw e (omega arith)
  | inr e ↦ rw e (omega arith)
]

Queues-Keeps :
    (s : ConnectionShared) (f : Frame) (frames bytes : ℕ) (waiting : ConnectionShared)
    (line : List Frame) (r : ConnectionShared × QueueResult)
    → Keeps s waiting
    → 0 < length line
    → Queues s f frames bytes waiting line r
    → Keeps s r.0
Queues-Keeps s f frames bytes waiting line r k h (shut c e) = rw e (same-Keeps s)
Queues-Keeps s f frames bytes waiting line r k h (huge c b e) = rw e (same-Keeps s)
Queues-Keeps s f frames bytes waiting line r k h (waits c small b e) = rw e k
Queues-Keeps s f frames bytes waiting line r k h (joins c b e) = rw e (inl (refl, λ v x. x, λ x. h))

sent-Keeps :
    (s : ConnectionShared) (f : Frame) (frames bytes : ℕ) (line : List Frame)
    (r : ConnectionShared × QueueResult)
    → 0 < length line
    → Queues s f frames bytes s line r
    → Keeps s (sent r).0
unfolding sent
sent-Keeps s f frames bytes line r h (shut c e) = rw e (same-Keeps s)
sent-Keeps s f frames bytes line r h (huge c b e) = rw e (mark_overloaded-Keeps s)
sent-Keeps s f frames bytes line r h (waits c small b e) = rw e (mark_overloaded-Keeps s)
sent-Keeps s f frames bytes line r h (joins c b e) = rw e (inl (refl, λ v x. x, λ x. h))

send_frame-Keeps : (s : ConnectionShared) (f : Frame) → Keeps s (send_frame s f).0
unfolding send_frame register_waiter
send_frame-Keeps s f = elim (Bool-cases (is_closing s)) [
  | inl c ↦ rw c (same-Keeps s)
  | inr c ↦ rw c (
      sent-Keeps s f _ _ (s.queues.frames ++ (f ∷ [])) (try_queue_frame s f none)
        (longer s.queues.frames f) (try_queue_frame-Queues s f none))
]

send_priority_frame-Keeps : (s : ConnectionShared) (f : Frame) → Keeps s (send_priority_frame s f).0
unfolding send_priority_frame
send_priority_frame-Keeps s f = elim (Bool-cases (is_closing s)) [
  | inl c ↦ rw c (same-Keeps s)
  | inr c ↦ rw c (
      sent-Keeps s f _ _ (insert_priority f s.queues.frames) (try_queue_priority_frame s f)
        (insert_priority-longer f s.queues.frames) (try_queue_priority_frame-Queues s f))
]

send_data_frame-Keeps :
    (s : ConnectionShared) (f : Frame) (w : ℕ) → Keeps s (send_data_frame s f w).0
send_data_frame-Keeps s f w =
    Queues-Keeps s f _ _ (register_waiter s (some w)) (s.queues.frames ++ (f ∷ []))
      (send_data_frame s f w) (register_waiter-Keeps s (some w)) (longer s.queues.frames f)
      (try_queue_frame-Queues s f (some w))

pop_front-Keeps : (s : ConnectionShared) (fs : List Frame) → Keeps s (pop_front s fs).0
unfolding pop_front
pop_front-Keeps s [] = same-Keeps s
pop_front-Keeps s (f ∷ fs) = inr refl

send_cmd-Keeps : (s : ConnectionShared) (c : ConnectionCmd) → Keeps s (send_cmd s c).0
unfolding send_cmd queue_cmd mark_overloaded
send_cmd-Keeps s c = ground arith

pop_front_cmd-Keeps :
    (s : ConnectionShared) (cs : List ConnectionCmd) → Keeps s (pop_front_cmd s cs).0
unfolding pop_front_cmd
pop_front_cmd-Keeps s [] = same-Keeps s
pop_front_cmd-Keeps s (c ∷ cs) = inl (refl, λ v h. h, λ h. h)

terminate-Keeps : (s : ConnectionShared) → Keeps s (terminate s)
unfolding terminate clear_queues
terminate-Keeps s = elim (Bool-cases s.closed) [
  | inl e ↦ rw e (inl (refl, λ v h. h, λ h. h))
  | inr e ↦ rw e (inr refl)
]

step-Keeps : (s : ConnectionShared) (c : Call) → Keeps s (step s c)
unfolding step
step-Keeps s (sends f) = send_frame-Keeps s f
step-Keeps s (sends_priority f) = send_priority_frame-Keeps s f
step-Keeps s (sends_data f w) = send_data_frame-Keeps s f w
step-Keeps s pops = unfold pop_frame in pop_front-Keeps s s.queues.frames
step-Keeps s (sends_cmd c) = send_cmd-Keeps s c
step-Keeps s pops_cmd = unfold pop_cmd in pop_front_cmd-Keeps s s.queues.commands
step-Keeps s terminates = terminate-Keeps s

-- A writer is registered, and there is a frame for the transport to take.
abbrev pub Waits : ConnectionShared → ℕ → Type 0
Waits s w = Holds s.queues.frame_waiters w × (0 < length s.queues.frames)

-- A writer is registered, and the next frame that the transport takes, which is there, wakes all that are.
abbrev pub WillWake : ConnectionShared → ℕ → Type 0
WillWake s w =
    Holds s.queues.frame_waiters w
    × ((pop_frame s).0.woken ≡ s.queues.frame_waiters ++ s.woken)
    × ((g : Frame) × ((pop_frame s).1 ≡ some g))

pop_front-all :
    (s : ConnectionShared) (fs : List Frame)
    → 0 < length fs
    → ((pop_front s fs).0.woken ≡ s.queues.frame_waiters ++ s.woken)
      × ((g : Frame) × ((pop_front s fs).1 ≡ some g))
unfolding pop_front
pop_front-all s [] h = absurd (omega arith)
pop_front-all s (g ∷ gs) h = (refl, (g, refl))

pub Waits-WillWake : (s : ConnectionShared) (w : ℕ) → Waits s w → WillWake s w
unfolding pop_frame
Waits-WillWake s w (h, some_frame) =
    let (all, front) = pop_front-all s s.queues.frames some_frame in (h, all, front)

-- Of a later state `u`: since `t` the writer was woken, or it still waits and will be.
abbrev pub Attends : ConnectionShared → ℕ → ConnectionShared → Type 0
Attends t w u = (since : List ℕ) × (u.woken ≡ since ++ t.woken) × (Holds since w ⊎ WillWake u w)

abbrev Waited : ConnectionShared → ℕ → ConnectionShared → Type 0
Waited t w u = (since : List ℕ) × (u.woken ≡ since ++ t.woken) × (Holds since w ⊎ Waits u w)

Keeps-Waited : (t u u' : ConnectionShared) (w : ℕ) → Keeps u u' → Waited t w u → Waited t w u'
Keeps-Waited t u u' w (inl (same, stay, frames)) (since, e, inl woken) =
    (since, same ∙ e, inl woken)
Keeps-Waited t u u' w (inl (same, stay, frames)) (since, e, inr (held, there)) =
    (since, same ∙ e, inr (stay w held, frames there))
Keeps-Waited t u u' w (inr wakes) (since, e, p) = (
  u.queues.frame_waiters ++ since,
  wakes
      ∙ ap (◌++◌ u.queues.frame_waiters) e
      ∙ sym (append_assoc u.queues.frame_waiters since t.woken),
  inl (woken p),
)
  where
    woken : Holds since w ⊎ Waits u w → Holds (u.queues.frame_waiters ++ since) w
    woken (inl h) = contains_waker-append_right u.queues.frame_waiters since w h
    woken (inr (h, there)) = contains_waker-append_left u.queues.frame_waiters since w h

run-Waited :
    (t u : ConnectionShared) (w : ℕ) (cs : List Call) → Waited t w u → Waited t w (run u cs)
unfolding run
run-Waited t u w [] h = h
run-Waited t u w (c ∷ cs) h =
    run-Waited t (step u c) w cs (Keeps-Waited t u (step u c) w (step-Keeps u c) h)

Waited-Attends : (t u : ConnectionShared) (w : ℕ) → Waited t w u → Attends t w u
Waited-Attends t u w (since, e, inl h) = (since, e, inl h)
Waited-Attends t u w (since, e, inr h) = (since, e, inr (Waits-WillWake u w h))

pub run-Attends :
    (t : ConnectionShared) (w : ℕ) (cs : List Call) → Waits t w → Attends t w (run t cs)
run-Attends t w cs h = Waited-Attends t (run t cs) w (run-Waited t t w cs ([], refl, inr h))
