-- ===== src/Multiplex/Channel/Flow/Spending.antt =====
-- What the sender's operations put under way is what they take from its credit.
use nexigon.Base.{
  ℕ, ◌+◌, ◌≡◌, refl, ap, subst, Bool, true, false, Option, none, some, List, [], ◌∷◌, arith, length,
  if◌then◌else◌, inl, inr, Bool-cases, ◌||◌, ◌==◌, ◌≢◌,
}
use nexigon.Multiplex.Frames.{Frame}
use nexigon.Multiplex.Shared.{ConnectionShared}
use nexigon.Multiplex.Channel.{
  payload_len, Sender, SendPoll, written, sent, idle, chunk_too_large, send_closed, waits, panics,
  poll_send_chunk, poll_write, poll_close, write_flushed, fill_chunk, close_flushed, announce_close,
  charge, is_closing, offer_pending, offer, send_frame, new, channel_closed, id, octets,
}
use nexigon.Multiplex.Channel.Receiving.{buffered_bytes}
use nexigon.Multiplex.Channel.Sending.{
  IsReady, PendingFits, Sends, goes, no_room, fails, no_credit, offer-Sends, address,
  address-IsChunk, poll_send_chunk-IsReady,
}
use nexigon.Multiplex.Channel.Flow.{emitted, flushed}

-- The credit of `t` and the frames `fs` make up the credit of `s`.
abbrev pub Spends : Sender → List Frame → Sender → Type 0
Spends s fs t =
    (t.shared.remaining_frame_credit + length fs ≡ s.shared.remaining_frame_credit)
    × (t.shared.remaining_byte_credit + buffered_bytes fs ≡ s.shared.remaining_byte_credit)

Spends-same : (s : Sender) → Spends s [] s
unfolding buffered_bytes
Spends-same s = (omega arith, omega arith)

emitted-fails :
    (s : Sender) (f : Frame) (x : SendPoll) → (x ≢ sent) → emitted s.remote_id (some f) x ≡ []
emitted-fails s f sent n = absurd (n refl)
emitted-fails s f idle n = refl
emitted-fails s f chunk_too_large n = refl
emitted-fails s f send_closed n = refl
emitted-fails s f waits n = refl
emitted-fails s f panics n = refl

Sends-Spends :
    (c : ConnectionShared) (s : Sender) (waker : ℕ) (f : Frame)
    (r : ConnectionShared × Sender × SendPoll)
    → PendingFits s.shared.remaining_byte_credit s.max_chunk_size (some f)
    → Sends c s waker f r
    → Spends s (emitted s.remote_id (some f) r.2) r.1
unfolding charge buffered_bytes
Sends-Spends c s waker f r p (goes c' h q e) =
    let (_, same) = address-IsChunk s.remote_id f.kind f.bytes p.0.0 p.0.1 in
    let len : payload_len (address s.remote_id f) ≡ payload_len f = ap length same in
    rw e (omega arith, omega arith)
Sends-Spends c s waker f r p (no_room c' q e) = rw e (omega arith, omega arith)
Sends-Spends c s waker f r p (fails c' x n e) =
    rw (e, emitted-fails s f x n.1) (omega arith, omega arith)
Sends-Spends c s waker f r p (no_credit h e) = rw e (omega arith, omega arith)

offer_pending-Spends :
    (c : ConnectionShared) (s : Sender) (waker : ℕ) (o : Option Frame)
    → s.pending ≡ o
    → IsReady s
    → Spends s (emitted s.remote_id o (offer_pending c s o waker).2) (offer_pending c s o waker).1
unfolding offer_pending
offer_pending-Spends c s waker none e v = Spends-same s
offer_pending-Spends c s waker (some f) e v =
    let p = subst (PendingFits s.shared.remaining_byte_credit s.max_chunk_size) e v.pending_fits in
    Sends-Spends c s waker f (offer c s f waker) p (offer-Sends c s waker f v p)

emitted-closed : (n : ℕ) (o : Option Frame) → emitted n o send_closed ≡ []
emitted-closed n none = refl
emitted-closed n (some f) = refl

pub poll_send_chunk-Spends :
    (c : ConnectionShared) (s : Sender) (waker : ℕ)
    → IsReady s
    → Spends s (flushed c s waker) (poll_send_chunk c s waker).1
unfolding poll_send_chunk
poll_send_chunk-Spends c s waker v = elim (Bool-cases (s.shared.closed || is_closing c)) [
  | inl over ↦ rw (over, emitted-closed s.remote_id s.pending) (Spends-same s)
  | inr live ↦ rw live (offer_pending-Spends c s waker s.pending refl v)
]

-- The credit of both is the same.
abbrev Keeps : Sender → Sender → Type 0
Keeps s t =
    (t.shared.remaining_frame_credit ≡ s.shared.remaining_frame_credit)
    × (t.shared.remaining_byte_credit ≡ s.shared.remaining_byte_credit)

fill_chunk-Keeps :
    (c : ConnectionShared) (s : Sender) (buf : List ℕ) (waker : ℕ)
    → Keeps s (fill_chunk c s buf waker).1
unfolding fill_chunk
fill_chunk-Keeps c s [] waker = (refl, refl)
fill_chunk-Keeps c s (b ∷ bs) waker = elim (Bool-cases (s.shared.remaining_byte_credit == 0)) [
  | inl z ↦ rw z (refl, refl)
  | inr nz ↦ rw nz (refl, refl)
]

write_flushed-Keeps :
    (r : ConnectionShared × Sender × SendPoll) (buf : List ℕ) (waker : ℕ)
    → Keeps r.1 (write_flushed r buf waker).1
unfolding write_flushed
write_flushed-Keeps (c, s, sent) buf waker = fill_chunk-Keeps c s buf waker
write_flushed-Keeps (c, s, idle) buf waker = fill_chunk-Keeps c s buf waker
write_flushed-Keeps (c, s, chunk_too_large) buf waker = (refl, refl)
write_flushed-Keeps (c, s, send_closed) buf waker = (refl, refl)
write_flushed-Keeps (c, s, waits) buf waker = (refl, refl)
write_flushed-Keeps (c, s, panics) buf waker = (refl, refl)

pub poll_write-Spends :
    (c : ConnectionShared) (s : Sender) (buf : List ℕ) (waker : ℕ)
    → IsReady s
    → Spends s (flushed c s waker) (poll_write c s buf waker).1
unfolding poll_write
poll_write-Spends c s buf waker v =
    let (a, b) = poll_send_chunk-Spends c s waker v in
    let (k, k') = write_flushed-Keeps (poll_send_chunk c s waker) buf waker in
    (omega arith, omega arith)

-- A sender that closes keeps its credit and its invariant.
abbrev Ends : Sender → Sender → Type 0
Ends s t = Keeps s t × IsReady t

announce_close-Ends :
    (c : ConnectionShared) (s : Sender) → IsReady s → Ends s (announce_close c s).1
unfolding announce_close
announce_close-Ends c s v =
    elim (Bool-cases (send_frame c (new channel_closed (id s.remote_id ∷ octets [] ∷ []))).1) [
      | inl ok ↦ rw ok (
        (refl, refl),
        record {
          pending_fits = v.pending_fits;
          frames = v.frames;
          bytes = v.bytes;
          some_room = v.some_room;
        },
      )
      | inr refused ↦ rw refused (
        (refl, refl),
        record {
          pending_fits = v.pending_fits;
          frames = v.frames;
          bytes = v.bytes;
          some_room = v.some_room;
        },
      )
    ]

close_flushed-Ends :
    (r : ConnectionShared × Sender × SendPoll) → IsReady r.1 → Ends r.1 (close_flushed r).1
unfolding close_flushed
close_flushed-Ends (c, s, sent) v = announce_close-Ends c s v
close_flushed-Ends (c, s, idle) v = announce_close-Ends c s v
close_flushed-Ends (c, s, chunk_too_large) v = ((refl, refl), v)
close_flushed-Ends (c, s, send_closed) v = ((refl, refl), v)
close_flushed-Ends (c, s, waits) v = ((refl, refl), v)
close_flushed-Ends (c, s, panics) v = ((refl, refl), v)

pub poll_close-Spends :
    (c : ConnectionShared) (s : Sender) (waker : ℕ)
    → IsReady s
    → Spends s (if s.closed_sent then [] else flushed c s waker) (poll_close c s waker).1
      × IsReady (poll_close c s waker).1
unfolding poll_close
poll_close-Spends c s waker v = close s.closed_sent
  where
    close :
        (over : Bool)
        → Spends s
            (if over then [] else flushed c s waker)
            (if over then (c, s, written 0) else close_flushed (poll_send_chunk c s waker)).1
          × IsReady
              (if over then (c, s, written 0) else close_flushed (poll_send_chunk c s waker)).1
    close true = (Spends-same s, v)
    close false =
        let (a, b) = poll_send_chunk-Spends c s waker v in
        let ((k, k'), w) =
          close_flushed-Ends (poll_send_chunk c s waker) (poll_send_chunk-IsReady c s waker v) in
        ((omega arith, omega arith), w)
