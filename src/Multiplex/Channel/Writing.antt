-- ===== src/Multiplex/Channel/Writing.antt =====
-- `poll_write` and the credit updates of a sender keep its invariant, and nothing panics.
use nexigon.Base.{
  false, ◌&&◌, leb, le→leb, leb→le, ◌≢◌, ◌∙◌, ◌==◌, ap, ℕ, ◌+◌, ◌≤◌, ◌<◌, ◌≡◌, refl, List, [], ◌∷◌,
  Option, none, some, arith, length, take, length-take, u32_max, inl, inr, Bool-cases, ◌==◌, ap,
  ◌∙◌, checked_add,
}
use nexigon.Multiplex.Shared.{ConnectionShared}
use nexigon.Multiplex.Channel.{
  payload_len, SenderShared, Sender, new_chunk, SendPoll, sent, idle, chunk_too_large, send_closed,
  waits, panics, poll_send_chunk, WritePoll, written, write_fails, write_waits, write_panics,
  chunk_size, fill_chunk, write_flushed, poll_write, AdjustResult, adjusted, frame_credit_overflow,
  byte_credit_overflow, adjust_credit, empty_adjustment, adjust_frames, adjust_bytes, wake, Frame,
}
use nexigon.Multiplex.Channel.Sending.{
  IsReady, PendingFits, new_chunk-IsChunk, poll_send_chunk-IsReady, poll_send_chunk-ne-panics,
}

-- What a write may answer on a buffer: no panic, and a count of bytes within it that is positive
-- unless the buffer is empty.
abbrev pub Answers : List ℕ → WritePoll → Type 0
Answers [] (written n) = n ≡ 0
Answers (b ∷ bs) (written n) = (n ≤ length (b ∷ bs)) × (0 < n)
Answers buf write_fails = Unit {0}
Answers buf write_waits = Unit {0}
Answers buf write_panics = ⊥

-- The state is one in which a sender can be, and the answer is sound.
abbrev pub Writes : List ℕ → ConnectionShared × Sender × WritePoll → Type 0
Writes buf r = IsReady r.1 × Answers buf r.2

any_fails : (buf : List ℕ) → Answers buf write_fails
any_fails [] = tt
any_fails (b ∷ bs) = tt

any_waits : (buf : List ℕ) → Answers buf write_waits
any_waits [] = tt
any_waits (b ∷ bs) = tt

filled :
    (s : Sender) (bs : List ℕ) (n : ℕ)
    → n ≤ length bs
    → n ≤ s.shared.remaining_byte_credit
    → n ≤ s.max_chunk_size
    → IsReady s
    → IsReady (record s { pending = some (new_chunk (take n bs)) })
filled s bs n h k m v =
    let (is, same) = new_chunk-IsChunk (take n bs) in
    let len : payload_len (new_chunk (take n bs)) ≡ n = ap length same ∙ length-take n bs h in
    record {
      pending_fits = (is, omega arith, omega arith);
      frames = v.frames;
      bytes = v.bytes;
      some_room = v.some_room;
    }

fill_chunk-Writes :
    (c : ConnectionShared) (s : Sender) (buf : List ℕ) (waker : ℕ)
    → IsReady s
    → Writes buf (fill_chunk c s buf waker)
unfolding fill_chunk chunk_size
fill_chunk-Writes c s [] waker v = (v, refl)
fill_chunk-Writes c s (b ∷ bs) waker v = elim (Bool-cases (s.shared.remaining_byte_credit == 0)) [
  | inl z ↦ rw z (
    record {
      pending_fits = v.pending_fits;
      frames = v.frames;
      bytes = v.bytes;
      some_room = v.some_room;
    },
    tt,
  )
  | inr nz ↦
      let fits : (chunk_size s (b ∷ bs) ≤ length (b ∷ bs)) × (0 < chunk_size s (b ∷ bs)) =
        (ground arith, ground (arith, v.some_room)) in
      rw nz (filled s (b ∷ bs) (chunk_size s (b ∷ bs)) fits.0 (ground arith) (ground arith) v, fits)
]

write_flushed-Writes :
    (r : ConnectionShared × Sender × SendPoll) (buf : List ℕ) (waker : ℕ)
    → IsReady r.1
    → r.2 ≢ panics
    → Writes buf (write_flushed r buf waker)
unfolding write_flushed
write_flushed-Writes (c, s, sent) buf waker v n = fill_chunk-Writes c s buf waker v
write_flushed-Writes (c, s, idle) buf waker v n = fill_chunk-Writes c s buf waker v
write_flushed-Writes (c, s, chunk_too_large) buf waker v n = (v, any_fails buf)
write_flushed-Writes (c, s, send_closed) buf waker v n = (v, any_fails buf)
write_flushed-Writes (c, s, waits) buf waker v n = (v, any_waits buf)
write_flushed-Writes (c, s, panics) buf waker v n = absurd (n refl)

-- A write keeps the sender's invariant and does not panic, so that its assertion on the credit holds;
-- what it says was written is within the buffer, and positive for a buffer that is not empty.
pub poll_write-Writes :
    (c : ConnectionShared) (s : Sender) (buf : List ℕ) (waker : ℕ)
    → IsReady s
    → Writes buf (poll_write c s buf waker)
unfolding poll_write
poll_write-Writes c s buf waker v =
    write_flushed-Writes (poll_send_chunk c s waker) buf waker (poll_send_chunk-IsReady c s waker v)
      (poll_send_chunk-ne-panics c s waker v)

PendingFits-mono :
    (o : Option Frame) (credit more size : ℕ)
    → credit ≤ more
    → PendingFits credit size o
    → PendingFits more size o
PendingFits-mono none credit more size h p = tt
PendingFits-mono (some f) credit more size h (k, a, b) = (k, omega arith, b)

-- The sender's state with returned credit.
abbrev pub credited : SenderShared → ℕ → ℕ → ℕ → SenderShared
credited s a b now = record s {
  remaining_frame_credit = s.remaining_frame_credit + a;
  remaining_byte_credit = s.remaining_byte_credit + b;
  used_frame_credit = 0;
  used_byte_credit = 0;
  last_credit_update = now;
  waker = none;
}

not_empty : (a b : ℕ) → 0 < a + b → ((a == 0) && (b == 0)) ≡ false
not_empty a b h = ground arith

pub adjust_credit-adjusted :
    (c : ConnectionShared) (s : SenderShared) (a b now : ℕ)
    → 0 < a + b
    → s.remaining_frame_credit + a ≤ u32_max
    → s.remaining_byte_credit + b ≤ u32_max
    → adjust_credit c s a b now ≡ adjusted (wake c s.waker) (credited s a b now)
unfolding adjust_credit
adjust_credit-adjusted c s a b now p h k = rw (not_empty a b p, le→leb _ _ h, le→leb _ _ k) refl

-- What holds of the sender after its credit was adjusted, if it was.
abbrev pub Adjusts : Sender → AdjustResult → Type 0
Adjusts s (adjusted c t) = IsReady (record s { shared = t })
Adjusts s frame_credit_overflow = Unit {0}
Adjusts s byte_credit_overflow = Unit {0}
Adjusts s empty_adjustment = Unit {0}

adjust_frames-Adjusts :
    (c : ConnectionShared) (s : Sender) (a b now : ℕ)
    → IsReady s
    → Adjusts s
        (adjust_frames c s.shared (checked_add u32_max s.shared.remaining_frame_credit a) b now)
unfolding adjust_frames adjust_bytes
adjust_frames-Adjusts c s a b now v =
    elim (Bool-cases (leb (s.shared.remaining_frame_credit + a) u32_max)) [
      | inr over ↦ rw over tt
      | inl fits ↦ rw fits (elim (Bool-cases (leb (s.shared.remaining_byte_credit + b) u32_max)) [
        | inr over ↦ rw over tt
        | inl fits' ↦ rw fits' (record {
          pending_fits =
              PendingFits-mono s.pending s.shared.remaining_byte_credit
                (s.shared.remaining_byte_credit + b) s.max_chunk_size (omega arith) v.pending_fits;
          frames = let h = leb→le (s.shared.remaining_frame_credit + a) u32_max fits in omega arith;
          bytes = let h = leb→le (s.shared.remaining_byte_credit + b) u32_max fits' in omega arith;
          some_room = v.some_room;
        })
      ])
    ]

-- Returned credit keeps the sender's invariant, the pending chunk included.
pub adjust_credit-Adjusts :
    (c : ConnectionShared) (s : Sender) (add_frame_credit add_byte_credit now : ℕ)
    → IsReady s
    → Adjusts s (adjust_credit c s.shared add_frame_credit add_byte_credit now)
unfolding adjust_credit
adjust_credit-Adjusts c s a b now v = elim (Bool-cases ((a == 0) && (b == 0))) [
  | inl zero ↦ rw zero tt
  | inr some_credit ↦ rw some_credit (adjust_frames-Adjusts c s a b now v)
]
