-- ===== src/Multiplex/Connection/Streaming.antt =====
-- Hello, data, credit and the ends of channels keep the slots of a connection.
use nexigon.Base.{
  ℕ, suc, ◌≡◌, refl, ap, Bool, true, false, ◌&&◌, ◌||◌, not, Option, none, some, List, [], ◌∷◌,
  arith, length, inl, inr, Bool-cases, ltb, u32_max, if◌then◌else◌, ◌==◌, checked_add, same_bytes,
}
use nexigon.Multiplex.Frames.{Frame}
use nexigon.Multiplex.Shared.{ConnectionShared}
use nexigon.Multiplex.Shared.Rest.{KeepsRest, KeepsRest-refl}
use nexigon.Multiplex.Channel.{
  adjust_frames, adjust_bytes, AdjustResult, adjusted, adjust_credit, frame_credit_overflow,
  byte_credit_overflow, empty_adjustment, SenderShared,
}
use nexigon.Multiplex.Channel.Receiver.{receive_data}
use nexigon.Multiplex.Channel.Receiving.{
  Receives, receive_data-Receives, stores, drops, lacks_frames, lacks_bytes, is_huge,
}
use nexigon.Multiplex.Connection.{
  Connection, ChannelHandle, ClosedChannelTombstone, protocol_magic, data_frame_too_large,
  ProtocolViolation, invalid_protocol_magic, duplicate_hello, connected,
}
use nexigon.Multiplex.Connection.Closing.{
  LateResult, discard_late, late, exceeds, or_later, not_closed, spent,
}
use nexigon.Multiplex.Connection.Slots.{IsSound, IsLeaner-IsSound, wake-KeepsRest}
use nexigon.Multiplex.Connection.Admission.{
  IsSafe, wake_handle-IsSound, Same-IsSound, record_unknown-IsSafe, unless_closed-IsSafe,
  either-IsSafe,
}
use nexigon.Multiplex.Connection.Handling.{
  event, violation, handle_hello, handle_data, took_data, late_or_unknown, handle_adjust,
  took_credit, handle_close, handle_closed, violation, unless_closed, event,
}

pub handle_hello-IsSafe :
    (held : ℕ) (c : Connection) (magic : List ℕ)
    → IsSound held c
    → IsSafe held (handle_hello c magic)
unfolding handle_hello
handle_hello-IsSafe held c magic v =
    either-IsSafe held (not (same_bytes magic protocol_magic)) (c, violation invalid_protocol_magic)
      (if c.hello_received
        then (c, violation duplicate_hello)
        else (record c { hello_received = true }, event connected))
      (v, tt)
      (either-IsSafe held c.hello_received (c, violation duplicate_hello)
        (record c { hello_received = true }, event connected) (v, tt)
        (Same-IsSound held c _ (refl, refl, refl, refl, refl) v, tt))

-- Late data is taken from a tombstone, of which there are as many as before.
length-discard_late :
    (k n : ℕ) (ts us : List ClosedChannelTombstone)
    → discard_late k n ts ≡ late us
    → length us ≡ length ts
unfolding discard_late
length-discard_late k n [] us e = absurd (cc)
length-discard_late k n (t ∷ ts) us e = elim (Bool-cases (t.local_id == k)) [
  | inl here ↦
      spends (t.remaining_frame_credit == 0 || ltb t.remaining_byte_credit n) (rw here at e)
  | inr there ↦ passes (length-discard_late k n ts) (discard_late k n ts) refl (rw there at e)
]
  where
    spends :
        (over : Bool)
        → (if over then exceeds else late (spent t n ∷ ts)) ≡ late us
        → length us ≡ suc (length ts)
    spends true q = absurd (cc)
    spends false q = let same : us ≡ (spent t n ∷ ts) = cc in ap length same

    passes :
        ((vs : List ClosedChannelTombstone) → discard_late k n ts ≡ late vs → length vs ≡ length ts)
        → (r : LateResult) → discard_late k n ts ≡ r
        → or_later t r ≡ late us
        → length us ≡ suc (length ts)
    passes rest not_closed h q = absurd (cc)
    passes rest exceeds h q = absurd (cc)
    passes rest (late vs) h q =
        let same : us ≡ (t ∷ vs) = cc in let l = ap length same in let m = rest vs h in omega arith

pub handle_data-IsSafe :
    (held : ℕ) (c : Connection) (f : Frame) (o : Option ChannelHandle) (k n now : ℕ)
    → IsSound held c
    → IsSafe held (handle_data c f o k n now)
unfolding handle_data
handle_data-IsSafe held c f none k n now v =
    either-IsSafe held (ltb u32_max n) (c, violation data_frame_too_large)
      (late_or_unknown c (discard_late k n c.closed_channels) now) (v, tt)
      (comes_late (discard_late k n c.closed_channels) refl)
  where
    comes_late :
        (r : LateResult)
        → discard_late k n c.closed_channels ≡ r
        → IsSafe held (late_or_unknown c r now)
    comes_late not_closed e = record_unknown-IsSafe held c now v
    comes_late exceeds e = (v, tt)
    comes_late (late ts) e =
        let same = length-discard_late k n c.closed_channels ts e in
        (
          IsLeaner-IsSound held c (record c { closed_channels = ts }) v
              (record {
                limits = refl;
                incoming = refl;
                commands = refl;
                slots = omega arith;
                requests = omega arith;
                closed_ones = omega arith;
                cancelled_ones = omega arith;
              }),
          tt,
        )
handle_data-IsSafe held c f (some h) k n now v =
    takes (receive_data-Receives c.shared h.receiver_shared f)
  where
    takes :
        Receives c.shared h.receiver_shared f (receive_data c.shared h.receiver_shared f)
        → IsSafe held (took_data c k h (receive_data c.shared h.receiver_shared f))
    takes (stores a b o e) =
        rw e
          (wake_handle-IsSound held c _ k _ (wake-KeepsRest c.shared h.receiver_shared.waker) v, tt)
    takes (drops a b o e) = rw e (wake_handle-IsSound held c _ k _ (KeepsRest-refl c.shared) v, tt)
    takes (lacks_frames a e) = rw e (v, tt)
    takes (lacks_bytes a e) = rw e (v, tt)
    takes (is_huge a e) = rw e (v, tt)

-- The adjustment of a channel's credit wakes its writer at most.
abbrev KeepsOnAdjust : ConnectionShared → AdjustResult → Type 0
KeepsOnAdjust s (adjusted t u) = KeepsRest s t
KeepsOnAdjust s _ = Unit {0}

adjust_credit-KeepsRest :
    (s : ConnectionShared) (t : SenderShared) (a b now : ℕ)
    → KeepsOnAdjust s (adjust_credit s t a b now)
unfolding adjust_credit adjust_frames adjust_bytes
adjust_credit-KeepsRest s t a b now = tests (a == 0 && b == 0)
  where
    bytes : (y : ℕ) (x : Option ℕ) → KeepsOnAdjust s (adjust_bytes s t y x now)
    bytes y none = tt
    bytes y (some n) = wake-KeepsRest s t.waker

    frames : (x : Option ℕ) → KeepsOnAdjust s (adjust_frames s t x b now)
    frames none = tt
    frames (some n) = bytes n (checked_add u32_max t.remaining_byte_credit b)

    tests :
        (zero : Bool)
        → KeepsOnAdjust s (
            if zero
            then empty_adjustment
            else adjust_frames s t (checked_add u32_max t.remaining_frame_credit a) b now)
    tests true = tt
    tests false = frames (checked_add u32_max t.remaining_frame_credit a)

pub handle_adjust-IsSafe :
    (held : ℕ) (c : Connection) (o : Option ChannelHandle) (k a b now : ℕ)
    → IsSound held c
    → IsSafe held (handle_adjust c o k a b now)
unfolding handle_adjust
handle_adjust-IsSafe held c none k a b now v =
    either-IsSafe held (a == 0 && b == 0) (c, violation ProtocolViolation.empty_adjustment)
      (unless_closed c k now) (v, tt) (unless_closed-IsSafe held c k now v)
handle_adjust-IsSafe held c (some h) k a b now v =
    takes (adjust_credit c.shared h.sender_shared a b now)
      (adjust_credit-KeepsRest c.shared h.sender_shared a b now)
  where
    takes : (r : AdjustResult) → KeepsOnAdjust c.shared r → IsSafe held (took_credit c k h r)
    takes (adjusted s t) u = (wake_handle-IsSound held c s k _ u v, tt)
    takes frame_credit_overflow u = (v, tt)
    takes byte_credit_overflow u = (v, tt)
    takes empty_adjustment u = (v, tt)

pub handle_close-IsSafe :
    (held : ℕ) (c : Connection) (o : Option ChannelHandle) (k now : ℕ)
    → IsSound held c
    → IsSafe held (handle_close c o k now)
unfolding handle_close
handle_close-IsSafe held c none k now v = unless_closed-IsSafe held c k now v
handle_close-IsSafe held c (some h) k now v =
    (wake_handle-IsSound held c _ k _ (wake-KeepsRest c.shared h.sender_shared.waker) v, tt)

pub handle_closed-IsSafe :
    (held : ℕ) (c : Connection) (o : Option ChannelHandle) (k now : ℕ)
    → IsSound held c
    → IsSafe held (handle_closed c o k now)
unfolding handle_closed
handle_closed-IsSafe held c none k now v = unless_closed-IsSafe held c k now v
handle_closed-IsSafe held c (some h) k now v =
    (wake_handle-IsSound held c _ k _ (wake-KeepsRest c.shared h.receiver_shared.waker) v, tt)
