-- ===== src/Multiplex/Channel/Receiving.antt =====
-- The receive window of a channel: what the receiver has granted, holds and owes.
use nexigon.Base.{
  if◌then◌else◌, ℕ, ◌+◌, ◌≤◌, ◌≡◌, refl, ap, List, [], ◌∷◌, ◌++◌, Bool, Option, arith, length,
  u32_max, length-append, ◌<◌, Bool-cases, none, false, true, ◌==◌, ◌-◌, inl, ==→eq, inr, ltb,
  ltb→lt, not_ltb→le,
}
use nexigon.Multiplex.Frames.{Frame}
use nexigon.Multiplex.Channel.{payload_len, ConnectionShared, wake}
use nexigon.Multiplex.Channel.Receiver.{
  ReceiverShared, consume, grow_window, grow, return_credit, receive_data, DataResult, buffered,
  discarded, no_frame_credit, not_enough_byte_credit, data_too_large,
}

-- The payload of all buffered frames.
unfoldable pub buffered_bytes : List Frame → ℕ
buffered_bytes [] = 0
buffered_bytes (f ∷ fs) = payload_len f + buffered_bytes fs

pub buffered_bytes-append :
    (fs gs : List Frame) → buffered_bytes (fs ++ gs) ≡ buffered_bytes fs + buffered_bytes gs
unfolding buffered_bytes
buffered_bytes-append [] gs = omega arith
buffered_bytes-append (f ∷ fs) gs = omega (arith, buffered_bytes-append fs gs)

-- Credit that the peer may still use, frames that it used and nobody read, and credit that waits to be
-- returned are together within the window, and the window is within its limit.
pub record IsWithin (r : ReceiverShared) : Type 0 where
  pub frames :
      r.remaining_frame_credit + length r.buffer + r.pending_frame_credit ≤ r.max_frame_credit
  pub bytes :
      r.remaining_byte_credit + buffered_bytes r.buffer + r.pending_byte_credit ≤ r.max_byte_credit
  pub frame_window : r.max_frame_credit ≤ r.max_frame_credit_limit
  pub byte_window : r.max_byte_credit ≤ r.max_byte_credit_limit
  pub frame_limit : r.max_frame_credit_limit ≤ u32_max
  pub byte_limit : r.max_byte_credit_limit ≤ u32_max

-- No credit is lost: the three make up the whole window.
pub record IsExact (r : ReceiverShared) : Type 0 where
  pub frames :
      r.remaining_frame_credit + length r.buffer + r.pending_frame_credit ≡ r.max_frame_credit
  pub bytes :
      r.remaining_byte_credit + buffered_bytes r.buffer + r.pending_byte_credit ≡ r.max_byte_credit

pub consume-IsWithin :
    (r : ReceiverShared) (f : Frame) (fs : List Frame)
    → r.buffer ≡ f ∷ fs
    → IsWithin r
    → IsWithin (consume r fs (payload_len f))
unfolding consume buffered_bytes
consume-IsWithin r f fs e v = omega (arith, ap length e, ap buffered_bytes e)

pub consume-IsExact :
    (r : ReceiverShared) (f : Frame) (fs : List Frame)
    → r.buffer ≡ f ∷ fs
    → IsWithin r
    → IsExact r
    → IsExact (consume r fs (payload_len f))
unfolding consume buffered_bytes
consume-IsExact r f fs e v x = omega (arith, ap length e, ap buffered_bytes e)

grow_window_bounds :
    (g : Bool) (limit window : ℕ)
    → window ≤ limit
    → limit ≤ u32_max
    → (window ≤ grow_window g limit window) × (grow_window g limit window ≤ limit)
grow_window_bounds g limit window h k = ground arith

abbrev pub GrowsFrom : ReceiverShared → ReceiverShared → Type 0
GrowsFrom r g =
    (r.max_frame_credit ≤ g.max_frame_credit)
    × (r.max_byte_credit ≤ g.max_byte_credit)
    × (g.remaining_frame_credit ≡ r.remaining_frame_credit)
    × (g.remaining_byte_credit ≡ r.remaining_byte_credit)
    × (g.pending_frame_credit ≡ r.pending_frame_credit)
    × (g.pending_byte_credit ≡ r.pending_byte_credit)
    × (g.buffer ≡ r.buffer)

pub grow-IsWithin :
    (r : ReceiverShared) (rtt : Option ℕ) (now : ℕ)
    → IsWithin r
    → IsWithin (grow r rtt now) × GrowsFrom r (grow r rtt now)
unfolding grow
grow-IsWithin r rtt now v =
    let (a, b) =
      grow_window_bounds _ r.max_frame_credit_limit r.max_frame_credit v.frame_window
        v.frame_limit in
    let (c, d) =
      grow_window_bounds _ r.max_byte_credit_limit r.max_byte_credit v.byte_window v.byte_limit in
    (
      record {
        frames = omega arith;
        bytes = omega arith;
        frame_window = b;
        byte_window = d;
        frame_limit = v.frame_limit;
        byte_limit = v.byte_limit;
      },
      (a, c, refl, refl, refl, refl, refl),
    )

pub return_credit-IsWithin :
    (r g : ReceiverShared) (now : ℕ)
    → IsWithin r
    → IsWithin g
    → GrowsFrom r g
    → IsWithin (return_credit r g now)
unfolding return_credit
return_credit-IsWithin r g now v w (a, b, c, d, e, f, h) =
    let i : length g.buffer ≡ length r.buffer = ap length h in
    let j : buffered_bytes g.buffer ≡ buffered_bytes r.buffer = ap buffered_bytes h in omega arith

pub return_credit-IsExact :
    (r g : ReceiverShared) (now : ℕ)
    → IsWithin r
    → IsExact r
    → IsWithin g
    → GrowsFrom r g
    → IsExact (return_credit r g now)
unfolding return_credit
return_credit-IsExact r g now v x w (a, b, c, d, e, f, h) =
    let i : length g.buffer ≡ length r.buffer = ap length h in
    let j : buffered_bytes g.buffer ≡ buffered_bytes r.buffer = ap buffered_bytes h in omega arith

-- The receiver after it took in a frame's credit, and after it buffered the frame.
abbrev pub charged : ReceiverShared → Frame → ReceiverShared
charged r f = record r {
  remaining_frame_credit = r.remaining_frame_credit - 1;
  remaining_byte_credit = r.remaining_byte_credit - payload_len f;
}

abbrev pub stored : ReceiverShared → Frame → ReceiverShared
stored r f = record (charged r f) { buffer = r.buffer ++ (f ∷ []); waker = none }

-- The ways in which data for a channel is taken in or refused.
pub data Receives (c : ConnectionShared) (r : ReceiverShared) (f : Frame) (d : DataResult)
    : Type 0 where
  stores :
      0 < r.remaining_frame_credit
      → payload_len f ≤ r.remaining_byte_credit
      → r.closed ≡ false
      → d ≡ buffered (wake c r.waker) (stored r f)
      → Receives c r f d
  drops :
      0 < r.remaining_frame_credit
      → payload_len f ≤ r.remaining_byte_credit
      → r.closed ≡ true
      → d ≡ discarded (charged r f)
      → Receives c r f d
  lacks_frames : r.remaining_frame_credit ≡ 0 → d ≡ no_frame_credit → Receives c r f d
  lacks_bytes :
      r.remaining_byte_credit < payload_len f → d ≡ not_enough_byte_credit → Receives c r f d
  is_huge : u32_max < payload_len f → d ≡ data_too_large → Receives c r f d

abbrev taken_in : ConnectionShared → ReceiverShared → Frame → Bool → DataResult
taken_in c r f is_closed =
    if is_closed then discarded (charged r f) else buffered (wake c r.waker) (stored r f)

pub receive_data-Receives :
    (c : ConnectionShared) (r : ReceiverShared) (f : Frame) → Receives c r f (receive_data c r f)
unfolding receive_data
receive_data-Receives c r f = elim (Bool-cases (ltb u32_max (payload_len f))) [
  | inl big ↦ rw big (is_huge (ltb→lt _ _ big) refl)
  | inr fits ↦ rw fits (elim (Bool-cases (r.remaining_frame_credit == 0)) [
    | inl z ↦ rw z (lacks_frames (==→eq _ _ z) refl)
    | inr nz ↦ rw nz (elim (Bool-cases (ltb r.remaining_byte_credit (payload_len f))) [
      | inl short ↦ rw short (lacks_bytes (ltb→lt _ _ short) refl)
      | inr enough ↦ rw enough (elim (Bool-cases r.closed) [
        | inl over ↦ drops (ground arith) (not_ltb→le _ _ enough) over (ap (taken_in c r f) over)
        | inr live ↦ stores (ground arith) (not_ltb→le _ _ enough) live (ap (taken_in c r f) live)
      ])
    ])
  ])
]

pub charged-IsWithin :
    (r : ReceiverShared) (f : Frame)
    → payload_len f ≤ r.remaining_byte_credit
    → IsWithin r
    → IsWithin (charged r f)
charged-IsWithin r f h v = omega arith

pub stored-IsWithin :
    (r : ReceiverShared) (f : Frame)
    → 0 < r.remaining_frame_credit
    → payload_len f ≤ r.remaining_byte_credit
    → IsWithin r
    → IsWithin (stored r f)
unfolding buffered_bytes
stored-IsWithin r f h k v =
    omega (arith, length-append r.buffer (f ∷ []), buffered_bytes-append r.buffer (f ∷ []))

pub stored-IsExact :
    (r : ReceiverShared) (f : Frame)
    → 0 < r.remaining_frame_credit
    → payload_len f ≤ r.remaining_byte_credit
    → IsExact r
    → IsExact (stored r f)
unfolding buffered_bytes
stored-IsExact r f h k v =
    omega (arith, length-append r.buffer (f ∷ []), buffered_bytes-append r.buffer (f ∷ []))
