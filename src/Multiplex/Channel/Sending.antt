-- ===== src/Multiplex/Channel/Sending.antt =====
-- The sending end: it never sends beyond its credit, and its assertions hold.
use nexigon.Base.{
  inr, ℕ, ◌≤◌, ◌≡◌, refl, List, [], ◌∷◌, ◌++◌, some, arith, length, take, drop, drop-append,
  length-append, length-to_be_bytes, to_be_bytes, le→leb, subst, ◌+◌, Option, ◌<◌, u32_max, none,
  ◌≢◌, ◌∙◌, ap, true, ◌%◌, le→not_ltb, Bool-cases, ltb, inl, ltb→lt, inr, ◌||◌,
}
use nexigon.Multiplex.Frames.{Frame, FrameKind, channel_data, set_field, id}
use nexigon.Multiplex.Shared.{QueueFrameFailure, frame_len}
use nexigon.Multiplex.Shared.Outcomes.{Queues, shut, huge, joins, try_queue_frame-Queues}
use nexigon.Multiplex.Channel.{
  sent, payload, new_chunk, Sender, ConnectionShared, SendPoll, QueueResult, payload_len,
  send_data_frame, queued, charge, sent, offered, offer, failed, full, send_closed, waits,
  mark_overloaded, chunk_too_large, panics, offer_addressed, offer_pending, poll_send_chunk,
  is_closing,
}

-- A data frame with its header.
abbrev pub IsChunk : Frame → Type 0
IsChunk f = (f.kind ≡ channel_data) × (9 ≤ frame_len f)

pub new_chunk-IsChunk : (bs : List ℕ) → IsChunk (new_chunk bs) × (payload (new_chunk bs) ≡ bs)
unfolding new_chunk
new_chunk-IsChunk bs =
    ((refl, omega (arith, length-append (to_be_bytes 8 0) bs, length-to_be_bytes 8 0)), rest)
  where
    rest : drop 8 (to_be_bytes 8 0 ++ bs) ≡ bs
    rest =
        subst (λ n. drop n (to_be_bytes 8 0 ++ bs) ≡ bs) (length-to_be_bytes 8 0)
          (drop-append (to_be_bytes 8 0) bs)

-- A frame for the channel `remote_id` of the peer, with the same payload.
abbrev pub address : ℕ → Frame → Frame
address remote_id f = record f { bytes = take 1 f.bytes ++ (to_be_bytes 8 remote_id ++ payload f) }

pub set_field-address :
    (k : FrameKind) (bs : List ℕ) (v : ℕ)
    → k ≡ channel_data
    → 9 ≤ length bs
    → set_field (record { kind = k; bytes = bs }) 0 (id v)
      ≡ some (address v (record { kind = k; bytes = bs }))
unfolding set_field
set_field-address k bs v e h = rw (e, le→leb 9 (length bs) h, length-to_be_bytes 8 v) refl

pub address-IsChunk :
    (v : ℕ) (k : FrameKind) (bs : List ℕ)
    → k ≡ channel_data
    → 9 ≤ length bs
    → IsChunk (address v (record { kind = k; bytes = bs }))
      × (payload (address v (record { kind = k; bytes = bs }))
          ≡ payload (record { kind = k; bytes = bs }))
address-IsChunk v k [] e h = absurd (omega arith)
address-IsChunk v k (b ∷ bs) e h =
    ((e, omega (arith, length-append (to_be_bytes 8 v) (drop 8 bs), length-to_be_bytes 8 v)), rest)
  where
    rest : drop 8 (to_be_bytes 8 v ++ drop 8 bs) ≡ drop 8 bs
    rest =
        subst (λ n. drop n (to_be_bytes 8 v ++ drop 8 bs) ≡ drop 8 bs) (length-to_be_bytes 8 v)
          (drop-append (to_be_bytes 8 v) (drop 8 bs))

-- What every state of a sender satisfies: a pending chunk is a data frame that the credit covers and
-- that one frame may carry, and the credit used since the last update is no more than was granted.
abbrev pub PendingFits : (credit size : ℕ) → Option Frame → Type 0
PendingFits credit size none = Unit {0}
PendingFits credit size (some f) = IsChunk f × (payload_len f ≤ credit) × (payload_len f ≤ size)

pub record IsReady (s : Sender) : Type 0 where
  pub pending_fits : PendingFits s.shared.remaining_byte_credit s.max_chunk_size s.pending
  pub frames : s.shared.used_frame_credit + s.shared.remaining_frame_credit ≤ u32_max
  pub bytes : s.shared.used_byte_credit + s.shared.remaining_byte_credit ≤ u32_max
  pub some_room : 0 < s.max_chunk_size

-- A queue that refuses a frame gives it back.
abbrev pub Refuses : Frame → QueueResult → Type 0
Refuses f queued = Unit {0}
Refuses f (failed x g) = g ≡ f

-- The outcomes of sending the pending chunk `f`.
pub data Sends (c : ConnectionShared) (s : Sender) (waker : ℕ) (f : Frame)
    (r : ConnectionShared × Sender × SendPoll) : Type 0 where
  goes :
      (c' : ConnectionShared)
      → 0 < s.shared.remaining_frame_credit
      → send_data_frame c (address s.remote_id f) waker ≡ (c', queued)
      → r ≡ (c', record s { shared = charge s.shared (payload_len f); pending = none }, sent)
      → Sends c s waker f r
  no_room :
      (c' : ConnectionShared)
      → send_data_frame c (address s.remote_id f) waker ≡ (c', failed full (address s.remote_id f))
      → r ≡ (c', record s { pending = some (address s.remote_id f) }, waits)
      → Sends c s waker f r
  fails :
      (c' : ConnectionShared) (x : SendPoll)
      → (x ≢ panics) × (x ≢ sent)
      → r ≡ (c', record s { shared = record (s.shared) { closed = true }; pending = none }, x)
      → Sends c s waker f r
  no_credit :
      s.shared.remaining_frame_credit ≡ 0
      → r ≡ (c, record s { shared = record (s.shared) { waker = some waker } }, waits)
      → Sends c s waker f r

offered-Sends :
    (c c' : ConnectionShared) (s : Sender) (waker : ℕ) (f : Frame) (q : QueueResult)
    → 0 < s.shared.remaining_frame_credit
    → send_data_frame c (address s.remote_id f) waker ≡ (c', q)
    → Refuses (address s.remote_id f) q
    → Sends c s waker f (offered s (payload_len f) (c', q))
unfolding offered
offered-Sends c c' s waker f queued h e same = goes c' h e refl
offered-Sends c c' s waker f (failed QueueFrameFailure.closed g) h e same =
    fails c' send_closed ((λ p. cc), (λ p. cc)) refl
offered-Sends c c' s waker f (failed QueueFrameFailure.too_large g) h e same =
    fails (mark_overloaded c') chunk_too_large ((λ p. cc), (λ p. cc)) refl
offered-Sends c c' s waker f (failed QueueFrameFailure.full g) h e same =
    no_room c' (e ∙ ap (λ x. (c', failed full x)) same) (rw same refl)

Queues-Refuses :
    (s : ConnectionShared) (f : Frame) (frames bytes : ℕ) (waiting : ConnectionShared)
    (line : List Frame) (r : ConnectionShared × QueueResult)
    → Queues s f frames bytes waiting line r
    → Refuses f r.1
Queues-Refuses s f frames bytes waiting line r (shut c e) = rw e refl
Queues-Refuses s f frames bytes waiting line r (huge c h e) = rw e refl
Queues-Refuses s f frames bytes waiting line r (Queues.waits c h h' e) = rw e refl
Queues-Refuses s f frames bytes waiting line r (joins c h e) = rw e tt

-- With its invariant a sender offers the pending chunk in one of these ways, and never panics.
pub offer-Sends :
    (c : ConnectionShared) (s : Sender) (waker : ℕ) (f : Frame)
    → IsReady s
    → PendingFits s.shared.remaining_byte_credit s.max_chunk_size (some f)
    → Sends c s waker f (offer c s f waker)
unfolding offer offer_addressed
offer-Sends c s waker f v (k, credit, size) =
    let small : payload_len f % 4294967296 ≡ payload_len f = omega arith in
    rw (small, le→not_ltb _ _ credit)
      (elim (Bool-cases (ltb 0 s.shared.remaining_frame_credit)) [
        | inl some_credit ↦
            rw (some_credit, set_field-address f.kind f.bytes s.remote_id k.0 k.1)
              (offered-Sends c _ s waker f _ (ltb→lt _ _ some_credit) refl (
                Queues-Refuses c (address s.remote_id f) _ _ _ _
                  (send_data_frame c (address s.remote_id f) waker)
                  (try_queue_frame-Queues c (address s.remote_id f) (some waker))))
        | inr none_left ↦ rw none_left (no_credit (ground arith) refl)
      ])

Sends-IsReady :
    (c : ConnectionShared) (s : Sender) (waker : ℕ) (f : Frame)
    (r : ConnectionShared × Sender × SendPoll)
    → IsReady s
    → PendingFits s.shared.remaining_byte_credit s.max_chunk_size (some f)
    → Sends c s waker f r
    → IsReady r.1
unfolding charge
Sends-IsReady c s waker f r v p (goes c' h q e) = rw e (record {
  pending_fits = tt;
  frames = omega arith;
  bytes = omega arith;
  some_room = v.some_room;
})
Sends-IsReady c s waker f r v p (no_room c' q e) =
    let (k, same) = address-IsChunk s.remote_id f.kind f.bytes p.0.0 p.0.1 in
    let len : payload_len (address s.remote_id f) ≡ payload_len f = ap length same in
    rw e (record {
      pending_fits = (k, omega arith, omega arith);
      frames = v.frames;
      bytes = v.bytes;
      some_room = v.some_room;
    })
Sends-IsReady c s waker f r v p (fails c' x n e) =
    rw e (record { pending_fits = tt; frames = v.frames; bytes = v.bytes; some_room = v.some_room })
Sends-IsReady c s waker f r v p (no_credit h e) = rw e (record {
  pending_fits = v.pending_fits;
  frames = v.frames;
  bytes = v.bytes;
  some_room = v.some_room;
})

offer_pending-IsReady :
    (c : ConnectionShared) (s : Sender) (waker : ℕ) (o : Option Frame)
    → s.pending ≡ o
    → IsReady s
    → IsReady (offer_pending c s o waker).1
unfolding offer_pending
offer_pending-IsReady c s waker none e v = v
offer_pending-IsReady c s waker (some f) e v =
    let p = subst (PendingFits s.shared.remaining_byte_credit s.max_chunk_size) e v.pending_fits in
    Sends-IsReady c s waker f (offer c s f waker) v p (offer-Sends c s waker f v p)

pub poll_send_chunk-IsReady :
    (c : ConnectionShared) (s : Sender) (waker : ℕ)
    → IsReady s
    → IsReady (poll_send_chunk c s waker).1
unfolding poll_send_chunk
poll_send_chunk-IsReady c s waker v = elim (Bool-cases (s.shared.closed || is_closing c)) [
  | inl over ↦ rw over (record {
    pending_fits = v.pending_fits;
    frames = v.frames;
    bytes = v.bytes;
    some_room = v.some_room;
  })
  | inr live ↦ rw live (offer_pending-IsReady c s waker s.pending refl v)
]

Sends-ne-panics :
    (c : ConnectionShared) (s : Sender) (waker : ℕ) (f : Frame)
    (r : ConnectionShared × Sender × SendPoll)
    → Sends c s waker f r
    → r.2 ≢ panics
Sends-ne-panics c s waker f r (goes c' h q e) p = let p' : sent ≡ panics = rw e at p in cc
Sends-ne-panics c s waker f r (no_room c' q e) p = let p' : waits ≡ panics = rw e at p in cc
Sends-ne-panics c s waker f r (fails c' x n e) p = n.0 (rw e at p)
Sends-ne-panics c s waker f r (no_credit h e) p = let p' : waits ≡ panics = rw e at p in cc

offer_pending-ne-panics :
    (c : ConnectionShared) (s : Sender) (waker : ℕ) (o : Option Frame)
    → s.pending ≡ o
    → IsReady s
    → (offer_pending c s o waker).2 ≢ panics
unfolding offer_pending
offer_pending-ne-panics c s waker none e v = λ h. cc
offer_pending-ne-panics c s waker (some f) e v =
    let p = subst (PendingFits s.shared.remaining_byte_credit s.max_chunk_size) e v.pending_fits in
    Sends-ne-panics c s waker f (offer c s f waker) (offer-Sends c s waker f v p)

pub poll_send_chunk-ne-panics :
    (c : ConnectionShared) (s : Sender) (waker : ℕ)
    → IsReady s
    → (poll_send_chunk c s waker).2 ≢ panics
unfolding poll_send_chunk
poll_send_chunk-ne-panics c s waker v = elim (Bool-cases (s.shared.closed || is_closing c)) [
  | inl over ↦ rw over (λ h. cc)
  | inr live ↦ rw live (offer_pending-ne-panics c s waker s.pending refl v)
]
