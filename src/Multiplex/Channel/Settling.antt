-- ===== src/Multiplex/Channel/Settling.antt =====
-- How a receiver returns credit: never more than the window, and always in time for the peer to go on.
use nexigon.Base.{
  ◌⊎◌, ◌∙◌, ℕ, ◌/◌, ◌≤◌, ◌<◌, ◌≡◌, refl, ap, subst, List, [], ◌∷◌, true, false, Option, arith,
  length, inl, inr, Bool-cases,
}
use nexigon.Multiplex.Frames.{Frame, new, channel_adjust, id, word}
use nexigon.Multiplex.Shared.{ConnectionShared, send_frame}
use nexigon.Multiplex.Shared.Outcomes.{send_frame_failed}
use nexigon.Multiplex.Channel.{payload_len, is_closing}
use nexigon.Multiplex.Channel.Receiver.{
  ReceiverShared, consume, grow, return_credit, update_credit, add_frame_credit, add_byte_credit,
  settle, next_chunk, poll_next_chunk,
}
use nexigon.Multiplex.Channel.Receiving.{
  IsWithin, IsExact, buffered_bytes, consume-IsWithin, consume-IsExact, grow-IsWithin,
  return_credit-IsWithin, return_credit-IsExact,
}

-- The frame that returns credit to the peer.
abbrev pub adjust_frame : ℕ → ReceiverShared → ReceiverShared → Frame
adjust_frame remote_id r g =
    new channel_adjust
      (id remote_id ∷ word (add_frame_credit r g) ∷ word (add_byte_credit r g) ∷ [])

-- The three ways to settle: nothing is due, the frame is not queued, or it is queued and the credit
-- counts as returned.
pub data Settles (c : ConnectionShared) (remote_id : ℕ) (r : ReceiverShared) (rtt : Option ℕ)
    (now : ℕ) (s : ConnectionShared × ReceiverShared) : Type 0 where
  not_due :
      update_credit r (grow r rtt now) ≡ false
      → s ≡ (c, grow r rtt now)
      → Settles c remote_id r rtt now s
  not_sent :
      (c' : ConnectionShared)
      → update_credit r (grow r rtt now) ≡ true
      → send_frame c (adjust_frame remote_id r (grow r rtt now)) ≡ (c', false)
      → s ≡ (c', grow r rtt now)
      → Settles c remote_id r rtt now s
  returned :
      (c' : ConnectionShared)
      → update_credit r (grow r rtt now) ≡ true
      → send_frame c (adjust_frame remote_id r (grow r rtt now)) ≡ (c', true)
      → s ≡ (c', return_credit r (grow r rtt now) now)
      → Settles c remote_id r rtt now s

pair_path {ℓ κ} : {A : Type ℓ} {B : Type κ} (p : A × B) {b : B} → p.1 ≡ b → p ≡ (p.0, b)
pair_path p e = ap (λ x. (p.0, x)) e

pub settle-Settles :
    (c : ConnectionShared) (remote_id : ℕ) (r : ReceiverShared) (rtt : Option ℕ) (now : ℕ)
    → Settles c remote_id r rtt now (settle c remote_id r rtt now)
unfolding settle
settle-Settles c remote_id r rtt now = elim (Bool-cases (update_credit r (grow r rtt now))) [
  | inr e ↦ rw e (not_due e refl)
  | inl e ↦ elim (Bool-cases ((send_frame c (adjust_frame remote_id r (grow r rtt now))).1)) [
    | inl ok ↦ rw e (
        returned (send_frame c (adjust_frame remote_id r (grow r rtt now))).0 e (pair_path _ ok)
          (rw ok refl))
    | inr failed ↦ rw e (
        not_sent (send_frame c (adjust_frame remote_id r (grow r rtt now))).0 e (pair_path _ failed)
          (rw failed refl))
  ]
]

Settles-IsWithin :
    (c : ConnectionShared) (remote_id : ℕ) (r : ReceiverShared) (rtt : Option ℕ) (now : ℕ)
    (s : ConnectionShared × ReceiverShared)
    → IsWithin r
    → Settles c remote_id r rtt now s
    → IsWithin s.1
Settles-IsWithin c remote_id r rtt now s v (not_due d e) = rw e (grow-IsWithin r rtt now v).0
Settles-IsWithin c remote_id r rtt now s v (not_sent c' d f e) = rw e (grow-IsWithin r rtt now v).0
Settles-IsWithin c remote_id r rtt now s v (returned c' d f e) =
    let (w, g) = grow-IsWithin r rtt now v in
    rw e (return_credit-IsWithin r (grow r rtt now) now v w g)

-- Whatever is read, and whether or not the credit can be returned, the window is kept.
pub poll_next_chunk-IsWithin :
    (c : ConnectionShared) (remote_id : ℕ) (r : ReceiverShared) (rtt : Option ℕ) (now waker : ℕ)
    → IsWithin r
    → IsWithin (poll_next_chunk c remote_id r rtt now waker).1
unfolding poll_next_chunk
poll_next_chunk-IsWithin c remote_id r rtt now waker v = next r.buffer refl
  where
    next :
        (fs : List Frame) → r.buffer ≡ fs → IsWithin (next_chunk c remote_id r fs rtt now waker).1
    next [] e = ground arith
    next (f ∷ fs) e =
        Settles-IsWithin c remote_id (consume r fs (payload_len f)) rtt now
          (settle c remote_id (consume r fs (payload_len f)) rtt now) (consume-IsWithin r f fs e v)
          (settle-Settles c remote_id (consume r fs (payload_len f)) rtt now)

not_due-same :
    (r : ReceiverShared) (rtt : Option ℕ) (now : ℕ)
    → update_credit r (grow r rtt now) ≡ false
    → ((grow r rtt now).max_frame_credit ≡ r.max_frame_credit)
      × ((grow r rtt now).max_byte_credit ≡ r.max_byte_credit)
unfolding update_credit
not_due-same r rtt now h = ground arith

healthy_sent :
    (c c' : ConnectionShared) (f : Frame) → send_frame c f ≡ (c', false) → is_closing c' ≡ true
healthy_sent c c' f e =
    subst (λ p. is_closing p ≡ true) (ap (λ p. p.0) e) (send_frame_failed c f (ap (λ p. p.1) e))

Settles-IsExact :
    (c : ConnectionShared) (remote_id : ℕ) (r : ReceiverShared) (rtt : Option ℕ) (now : ℕ)
    (s : ConnectionShared × ReceiverShared)
    → IsWithin r
    → IsExact r
    → is_closing s.0 ≡ false
    → Settles c remote_id r rtt now s
    → IsExact s.1
Settles-IsExact c remote_id r rtt now s v x up (not_due d e) =
    let (same, same') = not_due-same r rtt now d in
    let (_, _, a, b, p, q, buf) = (grow-IsWithin r rtt now v).1 in
    let i : length (grow r rtt now).buffer ≡ length r.buffer = ap length buf in
    let j : buffered_bytes (grow r rtt now).buffer ≡ buffered_bytes r.buffer =
      ap buffered_bytes buf in
    rw e (omega arith)
Settles-IsExact c remote_id r rtt now s v x up (not_sent c' d f e) =
    let up' : is_closing c' ≡ false = rw e at up in absurd (cc (healthy_sent c c' _ f))
Settles-IsExact c remote_id r rtt now s v x up (returned c' d f e) =
    let (w, g) = grow-IsWithin r rtt now v in
    rw e (return_credit-IsExact r (grow r rtt now) now v x w g)

-- As long as the connection goes on, reading loses no credit.
pub poll_next_chunk-IsExact :
    (c : ConnectionShared) (remote_id : ℕ) (r : ReceiverShared) (rtt : Option ℕ) (now waker : ℕ)
    → IsWithin r
    → IsExact r
    → is_closing (poll_next_chunk c remote_id r rtt now waker).0 ≡ false
    → IsExact (poll_next_chunk c remote_id r rtt now waker).1
unfolding poll_next_chunk
poll_next_chunk-IsExact c remote_id r rtt now waker v x = next r.buffer refl
  where
    next :
        (fs : List Frame)
        → r.buffer ≡ fs
        → is_closing (next_chunk c remote_id r fs rtt now waker).0 ≡ false
        → IsExact (next_chunk c remote_id r fs rtt now waker).1
    next [] e up = ground arith
    next (f ∷ fs) e up =
        Settles-IsExact c remote_id (consume r fs (payload_len f)) rtt now
          (settle c remote_id (consume r fs (payload_len f)) rtt now) (consume-IsWithin r f fs e v)
          (consume-IsExact r f fs e v x) up
          (settle-Settles c remote_id (consume r fs (payload_len f)) rtt now)

-- The peer may still send, or may send again: half of the window at least is open.
abbrev pub IsOpen : ReceiverShared → Type 0
IsOpen r =
    (r.max_frame_credit / 2 ≤ r.remaining_frame_credit)
    × (r.max_byte_credit / 2 ≤ r.remaining_byte_credit)

not_due-enough :
    (r : ReceiverShared) (rtt : Option ℕ) (now : ℕ)
    → update_credit r (grow r rtt now) ≡ false
    → ((r.max_frame_credit / 2 ≤ r.remaining_frame_credit)
        ⊎ ((grow r rtt now).pending_frame_credit < (grow r rtt now).max_frame_credit / 2))
      × ((r.max_byte_credit / 2 ≤ r.remaining_byte_credit)
          ⊎ ((grow r rtt now).pending_byte_credit < (grow r rtt now).max_byte_credit / 2))
unfolding update_credit
not_due-enough r rtt now h = ground arith

not_due-IsOpen :
    (r : ReceiverShared) (rtt : Option ℕ) (now : ℕ)
    → r.buffer ≡ []
    → IsWithin r
    → IsExact r
    → update_credit r (grow r rtt now) ≡ false
    → IsOpen (grow r rtt now)
not_due-IsOpen r rtt now e v x h =
    let (same, same') = not_due-same r rtt now h in
    let (frames, bytes) = not_due-enough r rtt now h in
    let (_, _, a, b, p, q, _) = (grow-IsWithin r rtt now v).1 in
    let i : length r.buffer ≡ 0 = ap length e in
    let j : buffered_bytes r.buffer ≡ 0 = unfold buffered_bytes in ap buffered_bytes e in
    omega arith

return_credit-IsOpen :
    (r g : ReceiverShared) (now : ℕ)
    → g.buffer ≡ []
    → IsExact (return_credit r g now)
    → IsOpen (return_credit r g now)
unfolding return_credit buffered_bytes
return_credit-IsOpen r g now e x = omega (arith, ap length e, ap buffered_bytes e)

Settles-IsOpen :
    (c : ConnectionShared) (remote_id : ℕ) (r : ReceiverShared) (rtt : Option ℕ) (now : ℕ)
    (s : ConnectionShared × ReceiverShared)
    → r.buffer ≡ []
    → IsWithin r
    → IsExact r
    → is_closing s.0 ≡ false
    → Settles c remote_id r rtt now s
    → IsOpen s.1
Settles-IsOpen c remote_id r rtt now s b v x up (not_due d e) =
    rw e (not_due-IsOpen r rtt now b v x d)
Settles-IsOpen c remote_id r rtt now s b v x up (not_sent c' d f e) =
    let up' : is_closing c' ≡ false = rw e at up in absurd (cc (healthy_sent c c' _ f))
Settles-IsOpen c remote_id r rtt now s b v x up (returned c' d f e) =
    let (w, g) = grow-IsWithin r rtt now v in
    rw e (
      return_credit-IsOpen r (grow r rtt now) now (g.6 ∙ b)
        (return_credit-IsExact r (grow r rtt now) now v x w g))

-- When the last buffered frame is read on a connection that goes on, half of the window at least is
-- open again: a peer that has run out of credit gets some.
pub poll_next_chunk-IsOpen :
    (c : ConnectionShared) (remote_id : ℕ) (r : ReceiverShared) (rtt : Option ℕ) (now waker : ℕ)
    (f : Frame)
    → IsWithin r
    → IsExact r
    → r.buffer ≡ f ∷ []
    → is_closing (poll_next_chunk c remote_id r rtt now waker).0 ≡ false
    → IsOpen (poll_next_chunk c remote_id r rtt now waker).1
unfolding poll_next_chunk
poll_next_chunk-IsOpen c remote_id r rtt now waker f v x = next r.buffer refl
  where
    next :
        (fs : List Frame)
        → r.buffer ≡ fs
        → fs ≡ f ∷ []
        → is_closing (next_chunk c remote_id r fs rtt now waker).0 ≡ false
        → IsOpen (next_chunk c remote_id r fs rtt now waker).1
    next [] e h up = absurd (cc)
    next (g ∷ h ∷ hs) e k up = absurd (cc)
    next (g ∷ []) e h up =
        Settles-IsOpen c remote_id (consume r [] (payload_len g)) rtt now
          (settle c remote_id (consume r [] (payload_len g)) rtt now) (unfold consume in refl)
          (consume-IsWithin r g [] e v) (consume-IsExact r g [] e v x) up
          (settle-Settles c remote_id (consume r [] (payload_len g)) rtt now)
