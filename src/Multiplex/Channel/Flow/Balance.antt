-- ===== src/Multiplex/Channel/Flow/Balance.antt =====
-- The credit of a channel is never lost on the way, so that neither end violates the other's limits.
use nexigon.Base.{
  ℕ, ◌+◌, ◌≤◌, ◌≡◌, refl, ap, true, false, List, [], ◌∷◌, ◌++◌, arith, length, length-append, All,
  All-append, u32_max, inl, inr, Bool-cases, ◌||◌, none, ◌∙◌, sym,
}
use nexigon.Multiplex.Frames.{Frame}
use nexigon.Multiplex.Limits.{ConnectionLimits, IsValid}
use nexigon.Multiplex.Shared.{ConnectionShared, is_closing}
use nexigon.Multiplex.Channel.{Sender, adjusted, drop_sender, poll_send_chunk, wake}
use nexigon.Multiplex.Channel.Receiver.{
  receive_data, DataResult, drop_receiver, poll_next_chunk, ReceiverShared,
}
use nexigon.Multiplex.Channel.Receiving.{
  IsWithin, buffered_bytes, buffered_bytes-append, Receives, stores, drops, lacks_frames,
  lacks_bytes, is_huge, receive_data-Receives, charged-IsWithin, stored-IsWithin,
}
use nexigon.Multiplex.Channel.Settling.{poll_next_chunk-IsWithin}
use nexigon.Multiplex.Channel.Sending.{IsReady, poll_send_chunk-IsReady}
use nexigon.Multiplex.Channel.Writing.{
  adjust_credit-adjusted, adjust_credit-Adjusts, poll_write-Writes, Adjusts, credited,
}
use nexigon.Multiplex.Channel.Flow.{
  Link, new_link, Event, flushes, writes, closes, arrives, reads, credits, ends_sender,
  ends_receiver, drops_sender, drops_receiver, act, history, arrive, received, credit, flushed,
  restored,
}
use nexigon.Multiplex.Channel.Flow.Spending.{
  Spends, poll_send_chunk-Spends, poll_write-Spends, poll_close-Spends,
}
use nexigon.Multiplex.Channel.Flow.Returning.{
  total_frames, total_bytes, total_frames-append, total_bytes-append, IsUseful, Grants,
  poll_next_chunk-Grants,
}

-- The sender's credit, the data under way and the credit under way make up what the receiver expects.
pub record IsBalanced (l : Link) : Type 0 where
  pub ready : IsReady l.sender
  pub within : IsWithin l.receiver
  pub frames :
      l.sender.shared.remaining_frame_credit + length l.under_way + total_frames l.returned
      ≡ l.receiver.remaining_frame_credit
  pub bytes :
      l.sender.shared.remaining_byte_credit + buffered_bytes l.under_way + total_bytes l.returned
      ≡ l.receiver.remaining_byte_credit
  pub useful : All IsUseful l.returned
  pub kept : l.violated ≡ false

sends-IsBalanced :
    (l : Link) (s : Sender) (fs : List Frame)
    → IsBalanced l
    → IsReady s
    → Spends l.sender fs s
    → IsBalanced (record l { sender = s; under_way = l.under_way ++ fs })
sends-IsBalanced l s fs v r (a, b) = record {
  ready = r;
  within = v.within;
  frames = let h = v.frames in omega (arith, length-append l.under_way fs);
  bytes = let h = v.bytes in omega (arith, buffered_bytes-append l.under_way fs);
  useful = v.useful;
  kept = v.kept;
}

reads-IsBalanced :
    (l : Link) (r : ReceiverShared) (ps : List (ℕ × ℕ))
    → IsBalanced l
    → IsWithin r
    → Grants l.receiver ps r
    → IsBalanced (record l { receiver = r; returned = l.returned ++ ps })
reads-IsBalanced l r ps v w (a, b, u) = record {
  ready = v.ready;
  within = w;
  frames = let h = v.frames in omega (arith, total_frames-append l.returned ps);
  bytes = let h = v.bytes in omega (arith, total_bytes-append l.returned ps);
  useful = All-append IsUseful l.returned ps v.useful u;
  kept = v.kept;
}

-- A receiver with the same windows and remaining credit.
same_credit :
    (l : Link) (r : ReceiverShared)
    → IsBalanced l
    → IsWithin r
    → r.remaining_frame_credit ≡ l.receiver.remaining_frame_credit
    → r.remaining_byte_credit ≡ l.receiver.remaining_byte_credit
    → IsBalanced (record l { receiver = r })
same_credit l r v w a b = record {
  ready = v.ready;
  within = w;
  frames = v.frames ∙ sym a;
  bytes = v.bytes ∙ sym b;
  useful = v.useful;
  kept = v.kept;
}

received-IsBalanced :
    (l : Link) (c : ConnectionShared) (f : Frame) (fs : List Frame) (d : DataResult)
    → l.under_way ≡ f ∷ fs
    → IsBalanced l
    → Receives c l.receiver f d
    → IsBalanced (received (record l { under_way = fs }) d)
unfolding buffered_bytes
received-IsBalanced l c f fs d e v (stores h k o q) =
    let i = ap length e in
    let j = ap buffered_bytes e in
    rw q (record {
      ready = v.ready;
      within = stored-IsWithin l.receiver f h k v.within;
      frames = let b = v.frames in omega arith;
      bytes = let b = v.bytes in omega arith;
      useful = v.useful;
      kept = v.kept;
    })
received-IsBalanced l c f fs d e v (drops h k o q) =
    let i = ap length e in
    let j = ap buffered_bytes e in
    rw q (record {
      ready = v.ready;
      within = charged-IsWithin l.receiver f k v.within;
      frames = let b = v.frames in omega arith;
      bytes = let b = v.bytes in omega arith;
      useful = v.useful;
      kept = v.kept;
    })
received-IsBalanced l c f fs d e v (lacks_frames h q) =
    let i = ap length e in let b = v.frames in absurd (omega arith)
received-IsBalanced l c f fs d e v (lacks_bytes h q) =
    let j = ap buffered_bytes e in let b = v.bytes in absurd (omega arith)
received-IsBalanced l c f fs d e v (is_huge h q) =
    let j = ap buffered_bytes e in let b = v.bytes in let w = v.within in absurd (omega arith)

arrive-IsBalanced :
    (l : Link) (c : ConnectionShared) (fs : List Frame)
    → l.under_way ≡ fs
    → IsBalanced l
    → IsBalanced (arrive c l fs)
arrive-IsBalanced l c [] e v = v
arrive-IsBalanced l c (f ∷ fs) e v =
    received-IsBalanced l c f fs (receive_data c l.receiver f) e v
      (receive_data-Receives c l.receiver f)

credit-IsBalanced :
    (l : Link) (c : ConnectionShared) (ps : List (ℕ × ℕ)) (now : ℕ)
    → l.returned ≡ ps
    → IsBalanced l
    → IsBalanced (credit c l ps now)
unfolding total_frames total_bytes
credit-IsBalanced l c [] now e v = v
credit-IsBalanced l c ((a, b) ∷ ps) now e v =
    let i : total_frames l.returned ≡ a + total_frames ps = ap total_frames e in
    let j : total_bytes l.returned ≡ b + total_bytes ps = ap total_bytes e in
    let u : All IsUseful ((a, b) ∷ ps) = rw e at v.useful in
    let x = v.frames in
    let y = v.bytes in
    let w = v.within in
    let done = adjust_credit-adjusted c l.sender.shared a b now u.0 (omega arith) (omega arith) in
    let r : Adjusts l.sender
        (adjusted (wake c l.sender.shared.waker) (credited l.sender.shared a b now)) =
      rw done at (adjust_credit-Adjusts c l.sender a b now v.ready) in
    rw done (record {
      ready = r;
      within = v.within;
      frames = omega arith;
      bytes = omega arith;
      useful = u.1;
      kept = v.kept;
    })

drop_sender-closes :
    (c : ConnectionShared) (s : Sender)
    → (drop_sender c s).1 ≡ record (s.shared) { closed = true; dropped = true }
unfolding drop_sender
drop_sender-closes c s = elim (Bool-cases (s.closed_sent || is_closing c)) [
  | inl over ↦ rw over refl
  | inr live ↦ rw live refl
]

drop_receiver-clears :
    (c : ConnectionShared) (n : ℕ) (r : ReceiverShared)
    → (drop_receiver c n r).1
      ≡ record r { closed = true; dropped = true; buffer = []; waker = none }
unfolding drop_receiver
drop_receiver-clears c n r = elim (Bool-cases (is_closing c)) [
  | inl over ↦ rw over refl
  | inr live ↦ rw live refl
]

pub act-IsBalanced : (l : Link) (e : Event) → IsBalanced l → IsBalanced (act l e)
act-IsBalanced l (flushes c w) v =
    sends-IsBalanced l (poll_send_chunk c l.sender w).1 (flushed c l.sender w) v
      (poll_send_chunk-IsReady c l.sender w v.ready) (poll_send_chunk-Spends c l.sender w v.ready)
act-IsBalanced l (writes c buf w) v =
    sends-IsBalanced l _ (flushed c l.sender w) v (poll_write-Writes c l.sender buf w v.ready).0
      (poll_write-Spends c l.sender buf w v.ready)
act-IsBalanced l (closes c w) v =
    let (a, r) = poll_close-Spends c l.sender w v.ready in sends-IsBalanced l _ _ v r a
act-IsBalanced l (arrives c) v = arrive-IsBalanced l c l.under_way refl v
act-IsBalanced l (reads c n rtt now w) v =
    reads-IsBalanced l (poll_next_chunk c n l.receiver rtt now w).1
      (restored c n l.receiver l.receiver.buffer rtt now) v
      (poll_next_chunk-IsWithin c n l.receiver rtt now w v.within)
      (poll_next_chunk-Grants c n l.receiver rtt now w v.within)
act-IsBalanced l (credits c now) v = credit-IsBalanced l c l.returned now refl v
act-IsBalanced l ends_sender v = record {
  ready = record {
    pending_fits = v.ready.pending_fits;
    frames = v.ready.frames;
    bytes = v.ready.bytes;
    some_room = v.ready.some_room;
  };
  within = v.within;
  frames = v.frames;
  bytes = v.bytes;
  useful = v.useful;
  kept = v.kept;
}
act-IsBalanced l ends_receiver v =
    same_credit l (record (l.receiver) { closed = true }) v (let w = v.within in omega arith) refl
      refl
act-IsBalanced l (drops_sender c) v = rw (drop_sender-closes c l.sender) (record {
  ready = record {
    pending_fits = v.ready.pending_fits;
    frames = v.ready.frames;
    bytes = v.ready.bytes;
    some_room = v.ready.some_room;
  };
  within = v.within;
  frames = v.frames;
  bytes = v.bytes;
  useful = v.useful;
  kept = v.kept;
})
act-IsBalanced l (drops_receiver c n) v =
    rw (drop_receiver-clears c n l.receiver)
      (same_credit l _ v (let w = v.within in unfold buffered_bytes in omega arith) refl refl)

history-IsBalanced : (l : Link) (es : List Event) → IsBalanced l → IsBalanced (history l es)
history-IsBalanced l [] v = v
history-IsBalanced l (e ∷ es) v = history-IsBalanced (act l e) es (act-IsBalanced l e v)

new_link-IsBalanced :
    (l peer : ConnectionLimits) (remote_id now : ℕ)
    → IsValid l
    → IsValid peer
    → peer.max_receive_frame_credit ≤ u32_max
    → peer.max_receive_byte_credit ≤ u32_max
    → IsBalanced (new_link l peer remote_id now)
unfolding buffered_bytes total_frames total_bytes
new_link-IsBalanced l peer remote_id now v w a b = record {
  ready = record {
    pending_fits = tt;
    frames = omega arith;
    bytes = omega arith;
    some_room = let h = v.initial_window in omega arith;
  };
  within = let h = w.frame_window in let k = w.byte_window in omega arith;
  frames = omega arith;
  bytes = omega arith;
  useful = tt;
  kept = refl;
}

-- From the opening of a channel between two connections with validated limits and 32-bit windows, under
-- any sequence of writes, flushes, closes, drops, arrivals, reads and credit updates, and whatever state
-- the connections are in, neither end refuses what the other sent, and the credit stays balanced.
pub history-new_link :
    (l peer : ConnectionLimits) (remote_id now : ℕ) (es : List Event)
    → IsValid l
    → IsValid peer
    → peer.max_receive_frame_credit ≤ u32_max
    → peer.max_receive_byte_credit ≤ u32_max
    → ((history (new_link l peer remote_id now) es).violated ≡ false)
      × IsBalanced (history (new_link l peer remote_id now) es)
history-new_link l peer remote_id now es v w a b =
    let h =
      history-IsBalanced (new_link l peer remote_id now) es
        (new_link-IsBalanced l peer remote_id now v w a b) in
    (h.kept, h)
