-- ===== src/Multiplex/Connection/Soundness.antt =====
-- A connection stays sound, and free of panics, over any transport and any calls of its users.
use nexigon.Base.{
  ℕ, zero, suc, ◌≡◌, refl, Bool, true, false, ◌||◌, Option, none, some, List, ltb, if◌then◌else◌,
  length, inl, inr, Bool-cases, either_way,
}
use nexigon.Multiplex.Frames.{Frame, parse, ParseResult, ok, err}
use nexigon.Multiplex.Shared.{pop_frame}
use nexigon.Multiplex.Shared.Rest.{pop_frame-KeepsRest}
use nexigon.Multiplex.Connection.{Connection}
use nexigon.Multiplex.Connection.Handling.{Step, nothing, event, violation, panics}
use nexigon.Multiplex.Connection.Dispatch.{handle_frame}
use nexigon.Multiplex.Connection.Liveness.{
  Ready, ready, fails, pending, Transport, ConnectionError, Poll, poll_pending, finished, yields,
  poll_error, poll_panics, Expired, Phase, goes_on, ends, prepare, mark_sent, mark_flushed,
  poll_deadlines, resource_limit_exceeded, handshake_overdue, ping_write_overdue, pong_overdue,
  handshake_deadline_exceeded, ping_write_deadline_exceeded, pong_deadline_exceeded,
}
use nexigon.Multiplex.Connection.Polling.{
  after_frame, unless_overdue, overdue_at, receive_parsed, receive_bytes, then_on, after_send,
  send_popped, when_ready, send_frames, flushed_phase, when_received, receive_frames, exchange,
  end_poll, poll_event, close_at_end, poll_connection, wake_connection,
}
use nexigon.Multiplex.Connection.Slots.{IsSound, KeepsRest-IsSound, close_state-IsSound}
use nexigon.Multiplex.Connection.Admission.{IsSafe, Same-IsSound}
use nexigon.Multiplex.Connection.Admitted.{handle_frame-IsSafe}
use nexigon.Multiplex.Connection.Turns.{
  IsOn, held_after_poll, NoPollPanic, prepare-IsOn, either-IsSound,
}

after_frame-IsOn : (held : ℕ) (r : Step) → IsSafe held r → IsOn held (after_frame r)
after_frame-IsOn held (c, nothing) v = v.0
after_frame-IsOn held (c, event e) v = (v.0, tt)
after_frame-IsOn held (c, violation x) v = (v.0, tt)
after_frame-IsOn held (c, panics) v = absurd (v.1)

receive_bytes-IsOn :
    (held : ℕ) (x : Expired) (c : Connection) (bytes : List ℕ) (now : ℕ)
    → IsSound held c
    → IsOn held (receive_bytes x c bytes now)
unfolding receive_bytes
receive_bytes-IsOn held x c bytes now v =
    elim (Bool-cases (ltb c.shared.limits.max_encoded_frame_size (length bytes))) [
      | inl long ↦ rw long (v, tt)
      | inr fits ↦ rw fits (parses (parse bytes) refl)
    ]
  where
    timely :
        (o : Option ConnectionError) (f : Frame)
        → IsSafe held (handle_frame c f now)
        → IsOn held (unless_overdue o c f now)
    timely (some e) f w = (v, tt)
    timely none f w = after_frame-IsOn held (handle_frame c f now) w

    parses : (r : ParseResult) → parse bytes ≡ r → IsOn held (receive_parsed x c r now)
    parses (err e) h = (v, tt)
    parses (ok f) h = timely (overdue_at x c f.kind) f (handle_frame-IsSafe held c bytes f now h v)

mark_sent-IsSound :
    (held : ℕ) (c : Connection) (f : Frame) (now : ℕ)
    → IsSound held c
    → IsSound held (mark_sent c f now)
mark_sent-IsSound held c f now v =
    either-IsSound held _ _ c (Same-IsSound held c _ (refl, refl, refl, refl, refl) v) v

mark_flushed-IsSound :
    (held : ℕ) (c : Connection) (now : ℕ) → IsSound held c → IsSound held (mark_flushed c now)
mark_flushed-IsSound held c now v =
    either-IsSound held _ _ c
      (either-IsSound held _ _ _ (Same-IsSound held c _ (refl, refl, refl, refl, refl) v)
        (Same-IsSound held c _ (refl, refl, refl, refl, refl) v))
      v

woken-IsSound : (held : ℕ) (c : Connection) → IsSound held c → IsSound held (wake_connection c)
woken-IsSound held c v =
    KeepsRest-IsSound held c _ v
      (record { limits = refl; incoming = refl; commands = refl; closed_flag = refl })

module _ {ℓ} {T : Type ℓ} (transport : Transport T) (now held : ℕ) where
  then_on-IsOn :
      (t : T) (ph : Phase) (k : T → Connection → T × Phase)
      → IsOn held ph
      → ((s : T) (c : Connection) → IsSound held c → IsOn held (k s c).1)
      → IsOn held (then_on transport now t ph k).1
  then_on-IsOn t (goes_on c) k v w = w t c v
  then_on-IsOn t (ends c p) k v w = v

  -- A step of the exchange that leaves sound connections sound.
  abbrev IsCarried : (T → Connection → T × Phase) → Type ℓ
  IsCarried k = (t : T) (c : Connection) → IsSound held c → IsOn held (k t c).1

  after_send-IsOn :
      (r : T × Bool) (c : Connection) (f : Frame) (k : T → Connection → T × Phase)
      → IsCarried k
      → IsSound held c
      → IsOn held (after_send transport now r c f k).1
  after_send-IsOn (t, true) c f k w v = w t (mark_sent c f now) (mark_sent-IsSound held c f now v)
  after_send-IsOn (t, false) c f k w v = (v, tt)

  send_popped-IsOn :
      (t : T) (c : Connection) (o : Option Frame) (k : T → Connection → T × Phase)
      → IsCarried k
      → IsSound held c
      → IsOn held (send_popped transport now t c o k).1
  send_popped-IsOn t c none k w v = v
  send_popped-IsOn t c (some f) k w v = after_send-IsOn (transport.start_send t f.bytes) c f k w v

  when_ready-IsOn :
      (r : T × Ready (Unit {0})) (c : Connection) (k : T → Connection → T × Phase)
      → IsCarried k
      → IsSound held c
      → IsOn held (when_ready transport now r c k).1
  when_ready-IsOn (t, ready u) c k w v =
      send_popped-IsOn t (record c { shared = (pop_frame c.shared).0 }) (pop_frame c.shared).1 k w
        (KeepsRest-IsSound held c _ v (pop_frame-KeepsRest c.shared))
  when_ready-IsOn (t, fails) c k w v = (v, tt)
  when_ready-IsOn (t, pending) c k w v = v

  send_frames-IsOn : (n : ℕ) → IsCarried (send_frames transport now n)
  unfolding send_frames
  send_frames-IsOn zero t c v = woken-IsSound held c v
  send_frames-IsOn (suc n) t c v =
      when_ready-IsOn (transport.poll_ready t) c (send_frames transport now n) (send_frames-IsOn n)
        v

  flushed_phase-IsOn :
      (r : T × Ready (Unit {0})) (c : Connection)
      → IsSound held c
      → IsOn held (flushed_phase transport now r c).1
  flushed_phase-IsOn (t, ready u) c v = mark_flushed-IsSound held c now v
  flushed_phase-IsOn (t, fails) c v = (v, tt)
  flushed_phase-IsOn (t, pending) c v = v

  when_received-IsOn :
      (x : Expired) (r : T × Ready (Option (List ℕ))) (c : Connection)
      (k : T → Connection → T × Phase)
      → IsCarried k
      → IsSound held c
      → IsOn held (when_received transport now x r c k).1
  when_received-IsOn x (t, ready none) c k w v =
      (Same-IsSound held c _ (refl, refl, refl, refl, refl) v, tt)
  when_received-IsOn x (t, ready (some bytes)) c k w v =
      then_on-IsOn t (receive_bytes x c bytes now) k (receive_bytes-IsOn held x c bytes now v) w
  when_received-IsOn x (t, fails) c k w v = (v, tt)
  when_received-IsOn x (t, pending) c k w v = v

  receive_frames-IsOn : (x : Expired) (n : ℕ) → IsCarried (receive_frames transport now x n)
  unfolding receive_frames
  receive_frames-IsOn x zero t c v = woken-IsSound held c v
  receive_frames-IsOn x (suc n) t c v =
      either_way (λ r. IsOn held r.1) c.exhausted (t, goes_on c)
        (when_received transport now x (transport.poll_next t) c (receive_frames transport now x n))
        v
        (when_received-IsOn x (transport.poll_next t) c (receive_frames transport now x n)
          (receive_frames-IsOn x n) v)

  exchange-IsOn : (x : Expired) → IsCarried (exchange transport now x)
  unfolding exchange
  exchange-IsOn x t c v =
      then_on-IsOn (send_frames transport now c.shared.limits.max_queued_frames t c).0
        (send_frames transport now c.shared.limits.max_queued_frames t c).1 _
        (send_frames-IsOn c.shared.limits.max_queued_frames t c v)
        (λ s d w.
          then_on-IsOn (flushed_phase transport now (transport.poll_flush s) d).0
            (flushed_phase transport now (transport.poll_flush s) d).1 _
            (flushed_phase-IsOn (transport.poll_flush s) d w)
            (λ u e. receive_frames-IsOn x e.shared.limits.max_frames_processed_per_poll u e))

  -- A poll that keeps the slots, and does not panic.
  abbrev pub IsSoundPoll : T × Connection × Poll → Type 0
  IsSoundPoll (t, c, p) = IsSound (held_after_poll held p) c × NoPollPanic p

  overdue-IsSoundPoll :
      (t : T) (c : Connection) (handshake ping_write pong : Bool)
      → IsSound held c
      → IsSoundPoll (
        t,
        c,
        if handshake
            then poll_error handshake_deadline_exceeded
            else if ping_write
            then poll_error ping_write_deadline_exceeded
            else if pong
            then poll_error pong_deadline_exceeded
            else poll_pending,
      )
  overdue-IsSoundPoll t c true ping_write pong v = (v, tt)
  overdue-IsSoundPoll t c false true pong v = (v, tt)
  overdue-IsSoundPoll t c false false true v = (v, tt)
  overdue-IsSoundPoll t c false false false v = (v, tt)

  end_poll-IsSoundPoll :
      (x : Expired) (r : T × Phase) → IsOn held r.1 → IsSoundPoll (end_poll transport now x r)
  end_poll-IsSoundPoll x (t, goes_on c) v =
      overdue-IsSoundPoll t c (handshake_overdue x c) (ping_write_overdue x c) (pong_overdue x c) v
  end_poll-IsSoundPoll x (t, ends c p) v = v

  close_at_end-IsSoundPoll :
      (r : T × Connection × Poll) → IsSoundPoll r → IsSoundPoll (close_at_end transport now r)
  close_at_end-IsSoundPoll (t, c, finished) (v, u) = (close_state-IsSound held c v, tt)
  close_at_end-IsSoundPoll (t, c, poll_error e) (v, u) = (close_state-IsSound held c v, tt)
  close_at_end-IsSoundPoll (t, c, poll_pending) v = v
  close_at_end-IsSoundPoll (t, c, yields e) v = v
  close_at_end-IsSoundPoll (t, c, poll_panics) v = v

  pub poll_connection-IsSoundPoll :
      (is_canceled : ℕ → Bool) (t : T) (c : Connection)
      → IsSound held c
      → IsSoundPoll (poll_connection transport now is_canceled t c)
  unfolding poll_connection poll_event
  poll_connection-IsSoundPoll is_canceled t c v =
      close_at_end-IsSoundPoll (poll_event transport now is_canceled t c) (
        either_way IsSoundPoll ((c.closed || c.exhausted) || c.shared.closed) (t, c, finished)
          (if c.shared.overloaded
            then (t, c, poll_error resource_limit_exceeded)
            else end_poll transport now (poll_deadlines c now) (
                then_on transport now t (prepare is_canceled now c)
                  (exchange transport now (poll_deadlines c now))))
          (v, tt)
          (either_way IsSoundPoll c.shared.overloaded (t, c, poll_error resource_limit_exceeded) _
            (v, tt)
            (end_poll-IsSoundPoll (poll_deadlines c now) _ (
              then_on-IsOn t (prepare is_canceled now c)
                (exchange transport now (poll_deadlines c now))
                (prepare-IsOn is_canceled now held c v) (exchange-IsOn (poll_deadlines c now))))))
