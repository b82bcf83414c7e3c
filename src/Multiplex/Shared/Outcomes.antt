-- ===== src/Multiplex/Shared/Outcomes.antt =====
-- Every way in which a frame is queued or refused, with what the tests then say.
use nexigon.Base.{
  ℕ, ◌+◌, ◌≤◌, ◌<◌, ◌≡◌, refl, true, false, ◌||◌, ◌⊎◌, inl, inr, Option, some, List, [], ◌∷◌, ◌++◌,
  arith, length, Bool-cases, ltb, leb, usize_max, ltb→lt, not_ltb→le, not_leb→lt, none,
}
use nexigon.Multiplex.Frames.{Frame}
use nexigon.Multiplex.Shared.{
  ConnectionShared, QueueResult, queued, failed, closed, full, too_large, frame_len, is_closing,
  frame_limit, byte_limit, register_waiter, queue_open, try_queue_frame, priority_open,
  store_frames, try_queue_priority_frame, insert_priority, sent, send_frame, mark_overloaded,
}

-- The frame and the bytes behind it fit the queue, up to `frames` frames and `bytes` bytes.
abbrev pub Room : ConnectionShared → Frame → ℕ → ℕ → Type 0
Room s f frames bytes =
    (frame_len f ≤ s.limits.max_encoded_frame_size)
    × (length s.queues.frames < frames)
    × (s.queues.frame_bytes + frame_len f ≤ bytes)

-- A full queue has as many frames as it may have, or as many bytes as leave no room for the frame.
abbrev pub Full : ConnectionShared → Frame → ℕ → ℕ → Type 0
Full s f frames bytes =
    (frames ≤ length s.queues.frames) ⊎ (bytes < s.queues.frame_bytes + frame_len f)

-- A frame that no state of the queue would admit.
abbrev pub Huge : ConnectionShared → Frame → Type 0
Huge s f =
    (usize_max < s.queues.frame_bytes + frame_len f)
    ⊎ (s.limits.max_encoded_frame_size < frame_len f)

-- What a call that queues a frame does: `waits` is the state after a refusal for want of room, and
-- `line` is the queue with the frame.
pub data Queues (s : ConnectionShared) (f : Frame) (frames bytes : ℕ) (waiting : ConnectionShared)
    (line : List Frame) (r : ConnectionShared × QueueResult) : Type 0 where
  shut : is_closing s ≡ true → r ≡ (s, failed closed f) → Queues s f frames bytes waiting line r
  huge :
      is_closing s ≡ false
      → Huge s f
      → r ≡ (s, failed too_large f)
      → Queues s f frames bytes waiting line r
  waits :
      is_closing s ≡ false
      → frame_len f ≤ s.limits.max_encoded_frame_size
      → Full s f frames bytes
      → r ≡ (waiting, failed full f)
      → Queues s f frames bytes waiting line r
  joins :
      is_closing s ≡ false
      → Room s f frames bytes
      → r ≡ (store_frames s line (s.queues.frame_bytes + frame_len f), queued)
      → Queues s f frames bytes waiting line r

Full-test :
    (s : ConnectionShared) (f : Frame) (frames bytes : ℕ)
    → (leb frames (length s.queues.frames) || ltb bytes (s.queues.frame_bytes + frame_len f)) ≡ true
    → Full s f frames bytes
Full-test s f frames bytes h = ground arith

Room-test :
    (s : ConnectionShared) (f : Frame) (frames bytes : ℕ)
    → frame_len f ≤ s.limits.max_encoded_frame_size
    → (leb frames (length s.queues.frames) || ltb bytes (s.queues.frame_bytes + frame_len f))
      ≡ false
    → Room s f frames bytes
Room-test s f frames bytes h e = ground arith

abbrev QueuesFrame : ConnectionShared → Frame → Option ℕ → ConnectionShared × QueueResult → Type 0
QueuesFrame s f w =
    Queues s f (frame_limit s.limits w) (byte_limit s.limits w) (register_waiter s w)
      (s.queues.frames ++ (f ∷ []))

queue_open-Queues :
    (s : ConnectionShared) (f : Frame) (w : Option ℕ)
    → is_closing s ≡ false
    → QueuesFrame s f w (queue_open s f w (some (s.queues.frame_bytes + frame_len f)))
unfolding queue_open
queue_open-Queues s f w c = elim (Bool-cases (ltb s.limits.max_encoded_frame_size (frame_len f))) [
  | inl big ↦ rw big (huge c (inr (ltb→lt _ _ big)) refl)
  | inr small ↦
      rw small
        (elim (Bool-cases (
          leb (frame_limit s.limits w) (length s.queues.frames)
          || ltb (byte_limit s.limits w) (s.queues.frame_bytes + frame_len f))) [
            | inl no_room ↦
                rw no_room (waits c (not_ltb→le _ _ small) (Full-test s f _ _ no_room) refl)
            | inr room ↦ rw room (joins c (Room-test s f _ _ (not_ltb→le _ _ small) room) refl)
          ])
]

pub try_queue_frame-Queues :
    (s : ConnectionShared) (f : Frame) (w : Option ℕ)
    → Queues s f
        (frame_limit s.limits w)
        (byte_limit s.limits w)
        (register_waiter s w)
        (s.queues.frames ++ (f ∷ []))
        (try_queue_frame s f w)
unfolding try_queue_frame
try_queue_frame-Queues s f w = elim (Bool-cases (is_closing s)) [
  | inl c ↦ rw c (shut c refl)
  | inr c ↦ rw c (elim (Bool-cases (leb (s.queues.frame_bytes + frame_len f) usize_max)) [
    | inl fits ↦ rw fits (queue_open-Queues s f w c)
    | inr wraps ↦ rw wraps (huge c (inl (not_leb→lt _ _ wraps)) refl)
  ])
]

priority_open-Queues :
    (s : ConnectionShared) (f : Frame)
    → is_closing s ≡ false
    → Queues s f s.limits.max_queued_frames s.limits.max_queued_frame_bytes s
        (insert_priority f s.queues.frames)
        (priority_open s f (some (s.queues.frame_bytes + frame_len f)))
unfolding priority_open
priority_open-Queues s f c = elim (Bool-cases (ltb s.limits.max_encoded_frame_size (frame_len f))) [
  | inl big ↦ rw big (huge c (inr (ltb→lt _ _ big)) refl)
  | inr small ↦
      rw small
        (elim (Bool-cases (
          leb s.limits.max_queued_frames (length s.queues.frames)
          || ltb s.limits.max_queued_frame_bytes (s.queues.frame_bytes + frame_len f))) [
            | inl no_room ↦
                rw no_room (waits c (not_ltb→le _ _ small) (Full-test s f _ _ no_room) refl)
            | inr room ↦ rw room (joins c (Room-test s f _ _ (not_ltb→le _ _ small) room) refl)
          ])
]

pub try_queue_priority_frame-Queues :
    (s : ConnectionShared) (f : Frame)
    → Queues s f s.limits.max_queued_frames s.limits.max_queued_frame_bytes s
        (insert_priority f s.queues.frames)
        (try_queue_priority_frame s f)
unfolding try_queue_priority_frame
try_queue_priority_frame-Queues s f = elim (Bool-cases (is_closing s)) [
  | inl c ↦ rw c (shut c refl)
  | inr c ↦ rw c (elim (Bool-cases (leb (s.queues.frame_bytes + frame_len f) usize_max)) [
    | inl fits ↦ rw fits (priority_open-Queues s f c)
    | inr wraps ↦ rw wraps (huge c (inl (not_leb→lt _ _ wraps)) refl)
  ])
]

failing_closes :
    (s : ConnectionShared) (f : Frame) (r : ConnectionShared × QueueResult)
    → is_closing s ≡ false
    → Queues s f s.limits.max_queued_frames s.limits.max_queued_frame_bytes s
        (s.queues.frames ++ (f ∷ []))
        r
    → (sent r).1 ≡ false
    → is_closing (sent r).0 ≡ true
unfolding sent mark_overloaded
failing_closes s f r c (shut d e) h = absurd (cc)
failing_closes s f r c (huge d b e) h = rw e (ground arith)
failing_closes s f r c (waits d b b' e) h = rw e (ground arith)
failing_closes s f r c (joins d b e) h = let h' : true ≡ false = rw e at h in absurd (cc)

-- A control frame is never dropped from a connection that goes on: if it cannot be queued, the
-- connection is closing.
pub send_frame_failed :
    (s : ConnectionShared) (f : Frame)
    → (send_frame s f).1 ≡ false
    → is_closing (send_frame s f).0 ≡ true
unfolding send_frame register_waiter
send_frame_failed s f = elim (Bool-cases (is_closing s)) [
  | inl c ↦ rw c (λ h. c)
  | inr c ↦ rw c (failing_closes s f (try_queue_frame s f none) c (try_queue_frame-Queues s f none))
]
