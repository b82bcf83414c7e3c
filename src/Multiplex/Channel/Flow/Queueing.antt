-- ===== src/Multiplex/Channel/Flow/Queueing.antt =====
-- What the ends put under way is what joins the queue of their connection.
use nexigon.Base.{
  ℕ, ◌≡◌, ◌%◌, refl, subst, sym, ◌∙◌, Option, none, some, [], ◌++◌, arith, append-nil, inl, inr,
  Bool-cases, ltb, le→not_ltb, ◌||◌,
}
use nexigon.Multiplex.Frames.{Frame}
use nexigon.Multiplex.Shared.{
  ConnectionShared, QueueResult, queued, failed, closed, full, too_large, is_closing,
}
use nexigon.Multiplex.Shared.Admission.{admitted, try_queue_frame-frames, mark_overloaded-frames}
use nexigon.Multiplex.Channel.{
  payload_len, Sender, offered, offer_addressed, offer, offer_pending, poll_send_chunk, send_closed,
}
use nexigon.Multiplex.Channel.Sending.{IsReady, PendingFits, address, set_field-address}
use nexigon.Multiplex.Channel.Flow.{emitted, flushed}

offered-frames :
    (c c' : ConnectionShared) (s : Sender) (f : Frame) (n : ℕ) (q : QueueResult)
    → c'.queues.frames ≡ c.queues.frames ++ admitted (address s.remote_id f) q
    → (offered s n (c', q)).0.queues.frames
      ≡ c.queues.frames ++ emitted s.remote_id (some f) (offered s n (c', q)).2
unfolding offered
offered-frames c c' s f n queued h = h
offered-frames c c' s f n (failed full g) h = h
offered-frames c c' s f n (failed too_large g) h = mark_overloaded-frames c' ∙ h
offered-frames c c' s f n (failed closed g) h = h

offer-frames :
    (c : ConnectionShared) (s : Sender) (waker : ℕ) (f : Frame)
    → IsReady s
    → PendingFits s.shared.remaining_byte_credit s.max_chunk_size (some f)
    → (offer c s f waker).0.queues.frames
      ≡ c.queues.frames ++ emitted s.remote_id (some f) (offer c s f waker).2
unfolding offer offer_addressed
offer-frames c s waker f v (k, credit, size) =
    let small : payload_len f % 4294967296 ≡ payload_len f = omega arith in
    rw (small, le→not_ltb _ _ credit)
      (elim (Bool-cases (ltb 0 s.shared.remaining_frame_credit)) [
        | inl some_credit ↦
            rw (some_credit, set_field-address f.kind f.bytes s.remote_id k.0 k.1)
              (offered-frames c _ s f _ _
                (try_queue_frame-frames c (address s.remote_id f) (some waker)))
        | inr none_left ↦ rw none_left (sym (append-nil c.queues.frames))
      ])

offer_pending-frames :
    (c : ConnectionShared) (s : Sender) (waker : ℕ) (o : Option Frame)
    → s.pending ≡ o
    → IsReady s
    → (offer_pending c s o waker).0.queues.frames
      ≡ c.queues.frames ++ emitted s.remote_id o (offer_pending c s o waker).2
unfolding offer_pending
offer_pending-frames c s waker none e v = sym (append-nil c.queues.frames)
offer_pending-frames c s waker (some f) e v =
    offer-frames c s waker f v
      (subst (PendingFits s.shared.remaining_byte_credit s.max_chunk_size) e v.pending_fits)

emitted_none : (n : ℕ) (o : Option Frame) → emitted n o send_closed ≡ []
emitted_none n none = refl
emitted_none n (some f) = refl

-- A poll of a sender that is ready appends to the connection's queue the pending chunk with the peer's
-- channel in its header, if the answer is that it was sent, and nothing else.
pub poll_send_chunk-frames :
    (c : ConnectionShared) (s : Sender) (waker : ℕ)
    → IsReady s
    → (poll_send_chunk c s waker).0.queues.frames ≡ c.queues.frames ++ flushed c s waker
unfolding poll_send_chunk
poll_send_chunk-frames c s waker v = elim (Bool-cases (s.shared.closed || is_closing c)) [
  | inl over ↦ rw (over, emitted_none s.remote_id s.pending) (sym (append-nil c.queues.frames))
  | inr live ↦ rw live (offer_pending-frames c s waker s.pending refl v)
]
