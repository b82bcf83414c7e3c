-- ===== src/Multiplex/Connection/Ordering.antt =====
-- Handling a command keeps the slots of a connection, and its assertions hold.
use nexigon.Multiplex.Connection.Admission.{Same-IsSound}
use nexigon.Base.{
  ℕ, suc, ◌+◌, ◌<◌, ◌≡◌, refl, ap, Bool, true, false, ◌||◌, some, List, ◌∷◌, arith, length, All,
  insert, length-insert-le, inl, inr, Bool-cases, leb, ltb, lt→ltb, if◌then◌else◌, ◌∙◌, subst,
}
use nexigon.Multiplex.Frames.{Frame, FieldValue, id, set_field}
use nexigon.Multiplex.Shared.{ConnectionCmd, open_channel, accept_channel, held_slots}
use nexigon.Multiplex.Shared.Rest.{send_frame-KeepsRest}
use nexigon.Multiplex.Connection.{
  Connection, send, answer, make_channel, new_handle, occupied_channel_slots, open_closed,
}
use nexigon.Multiplex.Connection.Views.{number}
use nexigon.Multiplex.Connection.Commands.{
  CmdResult, done, cmd_panics, release_slot, request_channel_id, reserve_channel_id, handle_open,
  give_accepted, accept_channel_id, accept_for, handle_accept_cmd, handle_cmd,
}
use nexigon.Multiplex.Connection.Slots.{IsReadyCmd, IsSound, send-IsSound}

-- A command is done, and leaves a sound connection.
abbrev pub IsDone : ℕ → CmdResult → Type 0
IsDone held (done c) = IsSound held c
IsDone held cmd_panics = ⊥

-- The connection after its first command was taken.
abbrev pub taken : Connection → List ConnectionCmd → Connection
taken c cs = record c {
  shared = record (c.shared) { queues = record (c.shared.queues) { commands = cs } };
}

request_channel_id-IsDone :
    (held : ℕ) (c : Connection) (caller local_id : ℕ) (f : Frame)
    → length c.pending_requests < c.shared.limits.max_pending_channel_requests
    → occupied_channel_slots c < c.shared.limits.max_channels
    → IsSound held c
    → IsDone held (request_channel_id c caller local_id (some f))
request_channel_id-IsDone held c caller local_id f few room v = sends (send c f).1
  where
    asked : Connection
    asked = record ((send c f).0) { pending_requests = insert local_id caller c.pending_requests }

    sends :
        (sent : Bool)
        → IsDone held (
            if sent
            then done (record ((send c f).0) {
              pending_requests = insert local_id caller c.pending_requests;
            })
            else done (answer (send c f).0 caller open_closed))
    sends false =
        Same-IsSound held (send c f).0 _ (refl, refl, refl, refl, refl) (send-IsSound held c f v)
    sends true =
        let k = send_frame-KeepsRest c.shared f in
        let w = send-IsSound held c f v in
        let l = length-insert-le local_id caller c.pending_requests in
        record {
          few_slots = let i = k.incoming in rw k.limits (omega arith);
          counted = w.counted;
          few_requests = rw k.limits (omega arith);
          few_incoming = w.few_incoming;
          few_closed = w.few_closed;
          few_cancelled = w.few_cancelled;
          ready_commands = w.ready_commands;
        }

give_accepted-IsDone :
    (held : ℕ) (c : Connection) (callback local_id remote_id a b now : ℕ)
    → occupied_channel_slots c < c.shared.limits.max_channels
    → IsSound held c
    → IsDone held (give_accepted (make_channel c local_id remote_id a b now) callback local_id)
unfolding make_channel
give_accepted-IsDone held c callback local_id remote_id a b now room v =
    let free : ltb (length c.channels) c.shared.limits.max_channels ≡ true =
      lt→ltb _ _ (omega arith) in
    rw free (record {
      few_slots = omega (
        arith,
        length-insert-le local_id (new_handle c.shared.limits remote_id a b now) c.channels,
      );
      counted = v.counted;
      few_requests = v.few_requests;
      few_incoming = v.few_incoming;
      few_closed = v.few_closed;
      few_cancelled = v.few_cancelled;
      ready_commands = v.ready_commands;
    })

accept_channel_id-IsDone :
    (held : ℕ) (c : Connection) (remote_id local_id a b callback now : ℕ) (f : Frame)
    → occupied_channel_slots c < c.shared.limits.max_channels
    → IsSound held c
    → IsDone held (accept_channel_id c remote_id local_id a b callback now (some f))
accept_channel_id-IsDone held c remote_id local_id a b callback now f room v = sends (send c f).1
  where
    sends :
        (sent : Bool)
        → IsDone held (
            if sent
            then give_accepted
                (make_channel (send c f).0 local_id remote_id a b now)
                callback
                local_id
            else done (send c f).0)
    sends false = send-IsSound held c f v
    sends true =
        let k = send_frame-KeepsRest c.shared f in
        give_accepted-IsDone held (send c f).0 callback local_id remote_id a b now
          (let i = k.incoming in rw k.limits (omega arith)) (send-IsSound held c f v)

accept_for-IsDone :
    (held : ℕ) (c : Connection) (accept : Frame) (remote_id : FieldValue) (a b callback now : ℕ)
    → ((n : ℕ) → (f : Frame) × (set_field accept 1 (id n) ≡ some f))
    → occupied_channel_slots c < c.shared.limits.max_channels
    → IsSound held c
    → IsDone held (accept_for c accept (some remote_id) a b callback now)
accept_for-IsDone held c accept remote_id a b callback now written room v =
    let (f, e) = written c.next_channel_id in
    elim (Bool-cases (leb c.shared.limits.max_channels (length c.channels))) [
      | inl full ↦ rw full (send-IsSound held c _ v)
      | inr free ↦
          rw (free, e)
            (accept_channel_id-IsDone held (reserve_channel_id c) (number remote_id)
              c.next_channel_id a b callback now f room
              (Same-IsSound held c _ (refl, refl, refl, refl, refl) v))
    ]

-- The connection after it took an accept, and dropped the slot that came with it.
abbrev unslotted : Connection → List ConnectionCmd → Connection
unslotted c cs = record c { shared = release_slot (taken c cs).shared true }

unslotted-IsSound :
    (held : ℕ) (c : Connection) (cs : List ConnectionCmd) (accept : Frame) (a b callback : ℕ)
    → c.shared.queues.commands ≡ (accept_channel accept a b callback true ∷ cs)
    → IsSound held c
    → IsSound held (unslotted c cs)
      × (occupied_channel_slots (unslotted c cs) < c.shared.limits.max_channels)
unfolding release_slot held_slots
unslotted-IsSound held c cs accept a b callback e v =
    let h : c.shared.pending_incoming_requests ≡ held + suc (held_slots cs) =
      v.counted ∙ ap (λ x. held + held_slots x) e in
    (
      record {
        few_slots = let k = v.few_slots in omega arith;
        counted = omega arith;
        few_requests = v.few_requests;
        few_incoming = let k = v.few_incoming in omega arith;
        few_closed = v.few_closed;
        few_cancelled = v.few_cancelled;
        ready_commands = (subst (All IsReadyCmd) e v.ready_commands).1;
      },
      let k = v.few_slots in omega arith,
    )

handle_open-IsDone :
    (held : ℕ) (c : Connection) (is_canceled : ℕ → Bool) (request : Frame) (caller : ℕ)
    → ((n : ℕ) → (f : Frame) × (set_field request 0 (id n) ≡ some f))
    → IsSound held c
    → IsDone held (handle_open c is_canceled request caller)
unfolding handle_open
handle_open-IsDone held c is_canceled request caller written v =
    elim (Bool-cases (is_canceled caller)) [
      | inl gone ↦ rw gone v
      | inr waits ↦
          elim (Bool-cases (
            leb c.shared.limits.max_pending_channel_requests (length c.pending_requests)
            || leb c.shared.limits.max_channels (occupied_channel_slots c))) [
              | inl full ↦ rw (waits, full) (Same-IsSound held c _ (refl, refl, refl, refl, refl) v)
              | inr room ↦
                  let (f, e) = written c.next_channel_id in
                  rw (waits, room, e)
                    (request_channel_id-IsDone held (reserve_channel_id c) caller c.next_channel_id
                      f (ground arith) (ground arith)
                      (Same-IsSound held c _ (refl, refl, refl, refl, refl) v))
            ]
    ]

handle_accept_cmd-IsDone :
    (held : ℕ) (c : Connection) (cs : List ConnectionCmd) (accept : Frame) (a b callback : ℕ)
    (pending_slot : Bool) (now : ℕ)
    → c.shared.queues.commands ≡ (accept_channel accept a b callback pending_slot ∷ cs)
    → IsReadyCmd (accept_channel accept a b callback pending_slot)
    → IsSound held c
    → IsDone held (handle_accept_cmd (taken c cs) accept a b callback pending_slot now)
unfolding handle_accept_cmd
handle_accept_cmd-IsDone held c cs accept a b callback false now e (slot, _, _) v = absurd (cc)
handle_accept_cmd-IsDone held c cs accept a b callback true now e (slot, (x, r), written) v =
    let (w, room) = unslotted-IsSound held c cs accept a b callback e v in
    rw r (accept_for-IsDone held (unslotted c cs) accept x a b callback now written room w)

-- The first command of a sound connection is done, and leaves a sound connection.
pub handle_cmd-IsDone :
    (held : ℕ) (c : Connection) (is_canceled : ℕ → Bool) (cmd : ConnectionCmd)
    (cs : List ConnectionCmd) (now : ℕ)
    → c.shared.queues.commands ≡ (cmd ∷ cs)
    → IsSound held c
    → IsDone held (handle_cmd (taken c cs) is_canceled cmd now)
unfolding handle_cmd held_slots
handle_cmd-IsDone held c is_canceled (open_channel request caller) cs now e v =
    let (one, rest) = subst (All IsReadyCmd) e v.ready_commands in
    handle_open-IsDone held (taken c cs) is_canceled request caller one (record {
      few_slots = v.few_slots;
      counted = v.counted ∙ ap (λ x. held + held_slots x) e;
      few_requests = v.few_requests;
      few_incoming = v.few_incoming;
      few_closed = v.few_closed;
      few_cancelled = v.few_cancelled;
      ready_commands = rest;
    })
handle_cmd-IsDone held c is_canceled (accept_channel accept a b callback pending_slot) cs now e v =
    handle_accept_cmd-IsDone held c cs accept a b callback pending_slot now e
      (subst (All IsReadyCmd) e v.ready_commands).0 v
