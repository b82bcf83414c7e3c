-- ===== src/Multiplex/Channel/Flow/Returning.antt =====
-- What a read puts under way is what it adds to the receiver's credit.
use nexigon.Base.{
  ℕ, ◌+◌, ◌<◌, ◌≡◌, refl, true, Option, List, [], ◌∷◌, ◌++◌, arith, All, inl, inr, Bool-cases,
}
use nexigon.Multiplex.Frames.{Frame}
use nexigon.Multiplex.Shared.{ConnectionShared}
use nexigon.Multiplex.Channel.{payload_len}
use nexigon.Multiplex.Channel.Receiver.{
  ReceiverShared, consume, grow, return_credit, update_credit, add_frame_credit, add_byte_credit,
  settle, next_chunk, poll_next_chunk,
}
use nexigon.Multiplex.Channel.Receiving.{IsWithin, consume-IsWithin, grow-IsWithin, GrowsFrom}
use nexigon.Multiplex.Channel.Settling.{Settles, not_due, not_sent, returned, settle-Settles}
use nexigon.Multiplex.Channel.Flow.{settled, restored}

unfoldable pub total_frames : List (ℕ × ℕ) → ℕ
total_frames [] = 0
total_frames ((a, b) ∷ ps) = a + total_frames ps

unfoldable pub total_bytes : List (ℕ × ℕ) → ℕ
total_bytes [] = 0
total_bytes ((a, b) ∷ ps) = b + total_bytes ps

pub total_frames-append :
    (ps qs : List (ℕ × ℕ)) → total_frames (ps ++ qs) ≡ total_frames ps + total_frames qs
unfolding total_frames
total_frames-append [] qs = omega arith
total_frames-append ((a, b) ∷ ps) qs = omega (arith, total_frames-append ps qs)

pub total_bytes-append :
    (ps qs : List (ℕ × ℕ)) → total_bytes (ps ++ qs) ≡ total_bytes ps + total_bytes qs
unfolding total_bytes
total_bytes-append [] qs = omega arith
total_bytes-append ((a, b) ∷ ps) qs = omega (arith, total_bytes-append ps qs)

-- An adjustment that is not empty.
abbrev pub IsUseful : ℕ × ℕ → Type 0
IsUseful p = 0 < p.0 + p.1

-- The credit of `t` is that of `r` and what is returned, and no adjustment is empty.
abbrev pub Grants : ReceiverShared → List (ℕ × ℕ) → ReceiverShared → Type 0
Grants r ps t =
    (t.remaining_frame_credit ≡ r.remaining_frame_credit + total_frames ps)
    × (t.remaining_byte_credit ≡ r.remaining_byte_credit + total_bytes ps)
    × All IsUseful ps

due-IsUseful :
    (r g : ReceiverShared)
    → GrowsFrom r g
    → IsWithin r
    → IsWithin g
    → update_credit r g ≡ true
    → 0 < add_frame_credit r g + add_byte_credit r g
unfolding update_credit
due-IsUseful r g (a, b, c, d, e, f, h) v w due = ground arith

Settles-Grants :
    (c : ConnectionShared) (remote_id : ℕ) (r : ReceiverShared) (rtt : Option ℕ) (now : ℕ)
    (s : ConnectionShared × ReceiverShared)
    → IsWithin r
    → Settles c remote_id r rtt now s
    → Grants r (settled c remote_id r rtt now) s.1
unfolding return_credit total_frames total_bytes
Settles-Grants c remote_id r rtt now s v (not_due d e) =
    let (_, (_, _, x, y, _, _, _)) = grow-IsWithin r rtt now v in
    rw (e, d) (omega arith, omega arith, tt)
Settles-Grants c remote_id r rtt now s v (not_sent c' d f e) =
    let (_, (_, _, x, y, _, _, _)) = grow-IsWithin r rtt now v in
    rw (e, d, f) (omega arith, omega arith, tt)
Settles-Grants c remote_id r rtt now s v (returned c' d f e) =
    let (w, g) = grow-IsWithin r rtt now v in
    let u = due-IsUseful r (grow r rtt now) g v w d in
    let (a, b, x, y, p, q, _) = g in rw (e, d, f) (omega arith, omega arith, (u, tt))

pub poll_next_chunk-Grants :
    (c : ConnectionShared) (remote_id : ℕ) (r : ReceiverShared) (rtt : Option ℕ) (now waker : ℕ)
    → IsWithin r
    → Grants r
        (restored c remote_id r r.buffer rtt now)
        (poll_next_chunk c remote_id r rtt now waker).1
unfolding poll_next_chunk
poll_next_chunk-Grants c remote_id r rtt now waker v = next r.buffer refl
  where
    next :
        (fs : List Frame)
        → r.buffer ≡ fs
        → Grants r (restored c remote_id r fs rtt now) (next_chunk c remote_id r fs rtt now waker).1
    next [] e =
        unfold total_frames total_bytes in
        elim (Bool-cases r.closed) [
          | inl over ↦ rw over (omega arith, omega arith, tt)
          | inr live ↦ rw live (omega arith, omega arith, tt)
        ]
    next (f ∷ fs) e =
        unfold consume in
        Settles-Grants c remote_id (consume r fs (payload_len f)) rtt now
          (settle c remote_id (consume r fs (payload_len f)) rtt now) (consume-IsWithin r f fs e v)
          (settle-Settles c remote_id (consume r fs (payload_len f)) rtt now)
