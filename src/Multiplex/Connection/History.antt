-- ===== src/Multiplex/Connection/History.antt =====
-- Every state that a connection reaches, whatever its transport delivers and whenever its users call.
use nexigon.Base.{ℕ, suc, refl, Bool, true, List, [], arith, ◌∷◌, either_way}
use nexigon.Multiplex.Frames.{Frame, new, hello, octets, protocol_magic}
use nexigon.Multiplex.Limits.{ConnectionLimits}
use nexigon.Multiplex.Shared.{
  send_frame, send_data_frame, terminate, new_shared, held_slots, clear_queues,
}
use nexigon.Multiplex.Shared.Rest.{send_frame-KeepsRest, send_data_frame-KeepsRest}
use nexigon.Multiplex.Connection.{Connection, ChannelHandle, with_limits}
use nexigon.Multiplex.Connection.Commands.{open_call, accept_call, reject_call}
use nexigon.Multiplex.Connection.Handling.{set_handle}
use nexigon.Multiplex.Connection.Liveness.{Transport}
use nexigon.Multiplex.Connection.Polling.{poll_connection}
use nexigon.Multiplex.Connection.Slots.{IsSound, KeepsRest-IsSound}
use nexigon.Multiplex.Connection.Admission.{wake_handle-IsSound}
use nexigon.Multiplex.Connection.Calling.{
  shares, open_call-IsSound, accept_call-IsSound, reject_call-IsSound,
}
use nexigon.Multiplex.Connection.Turns.{held_after_poll, NoPollPanic}
use nexigon.Multiplex.Connection.Soundness.{poll_connection-IsSoundPoll}

pub with_limits-IsSound : (l : ConnectionLimits) (now : ℕ) → IsSound 0 (with_limits l now).0
unfolding with_limits held_slots
with_limits-IsSound l now =
    let k =
      send_frame-KeepsRest (new_shared l) (new hello (octets protocol_magic ∷ octets [] ∷ [])) in
    let i = k.incoming in
    record {
      few_slots = rw k.incoming (omega arith);
      counted = rw (k.incoming, k.commands) refl;
      few_requests = omega arith;
      few_incoming = rw k.incoming (omega arith);
      few_closed = omega arith;
      few_cancelled = omega arith;
      ready_commands = rw k.commands tt;
    }

terminate-IsSound :
    (held : ℕ) (c : Connection) → IsSound held c → IsSound held (shares c (terminate c.shared))
unfolding terminate clear_queues held_slots
terminate-IsSound held c v =
    either_way (λ s. IsSound held (shares c (record s { connection_woken = true }))) c.shared.closed
      c.shared (clear_queues (record (c.shared) { closed = true }))
      (KeepsRest-IsSound held c _ v
        (record { limits = refl; incoming = refl; commands = refl; closed_flag = refl }))
      (let h = v.counted in
        record {
          few_slots = let k = v.few_slots in omega arith;
          counted = omega arith;
          few_requests = v.few_requests;
          few_incoming = let k = v.few_incoming in omega arith;
          few_closed = v.few_closed;
          few_cancelled = v.few_cancelled;
          ready_commands = tt;
        })

has_gone-IsSound :
    (held : ℕ) (c : Connection) (has_gone : ℕ → Bool)
    → IsSound held c
    → IsSound held (record c { has_gone = has_gone })
has_gone-IsSound held c has_gone v = record {
  few_slots = v.few_slots;
  counted = v.counted;
  few_requests = v.few_requests;
  few_incoming = v.few_incoming;
  few_closed = v.few_closed;
  few_cancelled = v.few_cancelled;
  ready_commands = v.ready_commands;
}

-- The states of a connection over a transport: `held` is the number of requests that its users hold. The
-- two ends of a channel may change their state as they like, and send data or other frames.
pub data Reaches {ℓ} {T : Type ℓ} (transport : Transport T) (l : ConnectionLimits) (start : ℕ)
    (t : T) : ℕ → T → Connection → Type ℓ where
  starts : Reaches transport l start t 0 t (with_limits l start).0
  polls :
      {held : ℕ} {s : T} {c : Connection} (now : ℕ) (is_canceled : ℕ → Bool)
      → Reaches transport l start t held s c
      → Reaches transport l start t
          (held_after_poll held (poll_connection transport now is_canceled s c).2)
          (poll_connection transport now is_canceled s c).0
          (poll_connection transport now is_canceled s c).1
  opens :
      {held : ℕ} {s : T} {c : Connection} (endpoint : List ℕ) (caller : ℕ)
      → Reaches transport l start t held s c
      → Reaches transport l start t held s (shares c (open_call c.shared endpoint caller).0)
  accepts :
      {held : ℕ} {s : T} {c : Connection} (sender_id a b callback : ℕ)
      → Reaches transport l start t (suc held) s c
      → Reaches transport l start t held s (shares c (accept_call c.shared sender_id a b callback))
  rejects :
      {held : ℕ} {s : T} {c : Connection} (sender_id : ℕ) (reason : List ℕ)
      → Reaches transport l start t (suc held) s c
      → Reaches transport l start t held s (shares c (reject_call c.shared sender_id reason))
  writes :
      {held : ℕ} {s : T} {c : Connection} (k : ℕ) (h : ChannelHandle) (f : Frame) (waker : ℕ)
      → Reaches transport l start t held s c
      → Reaches transport l start t held s (set_handle c (send_data_frame c.shared f waker).0 k h)
  signals :
      {held : ℕ} {s : T} {c : Connection} (k : ℕ) (h : ChannelHandle) (f : Frame)
      → Reaches transport l start t held s c
      → Reaches transport l start t held s (set_handle c (send_frame c.shared f).0 k h)
  leaves :
      {held : ℕ} {s : T} {c : Connection} (has_gone : ℕ → Bool)
      → Reaches transport l start t held s c
      → Reaches transport l start t held s (record c { has_gone = has_gone })
  terminates :
      {held : ℕ} {s : T} {c : Connection}
      → Reaches transport l start t held s c
      → Reaches transport l start t held s (shares c (terminate c.shared))

module _ {ℓ} {T : Type ℓ} (transport : Transport T) (l : ConnectionLimits) (start : ℕ) (t : T) where
  -- Whatever the peer sends, however the transport answers and whenever the users of the connection call:
  -- the channels, the pending opens and the requests that wait for an answer never take more slots than
  -- the limit allows. Every request that is counted is held by a user or by a queued accept, and no table
  -- has more entries than its limit.
  pub reached-IsSound :
      (held : ℕ) (s : T) (c : Connection) → Reaches transport l start t held s c → IsSound held c
  reached-IsSound held s c starts = with_limits-IsSound l start
  reached-IsSound held s c (polls now is_canceled r) =
      (poll_connection-IsSoundPoll transport now _ is_canceled _ _ (reached-IsSound _ _ _ r)).0
  reached-IsSound held s c (opens endpoint caller r) =
      open_call-IsSound held _ endpoint caller (reached-IsSound held s _ r)
  reached-IsSound held s c (accepts sender_id a b callback r) =
      accept_call-IsSound held _ sender_id a b callback (reached-IsSound (suc held) s _ r)
  reached-IsSound held s c (rejects sender_id reason r) =
      reject_call-IsSound held _ sender_id reason (reached-IsSound (suc held) s _ r)
  reached-IsSound held s c (writes k h f waker r) =
      wake_handle-IsSound held _ _ k h (send_data_frame-KeepsRest _ f waker)
        (reached-IsSound held s _ r)
  reached-IsSound held s c (signals k h f r) =
      wake_handle-IsSound held _ _ k h (send_frame-KeepsRest _ f) (reached-IsSound held s _ r)
  reached-IsSound held s c (leaves has_gone r) =
      has_gone-IsSound held _ has_gone (reached-IsSound held s _ r)
  reached-IsSound held s c (terminates r) = terminate-IsSound held _ (reached-IsSound held s _ r)

  -- In every state that a connection reaches, the next poll ends without a failed assertion and without a
  -- getter or a setter of a frame that panics, whatever the transport delivers.
  pub poll_connection-NoPollPanic :
      (held : ℕ) (s : T) (c : Connection) (now : ℕ) (is_canceled : ℕ → Bool)
      → Reaches transport l start t held s c
      → NoPollPanic (poll_connection transport now is_canceled s c).2
  poll_connection-NoPollPanic held s c now is_canceled r =
      (poll_connection-IsSoundPoll transport now held is_canceled s c
        (reached-IsSound held s c r)).1
