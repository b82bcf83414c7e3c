-- ===== src/Multiplex/Connection/Calling.antt =====
-- The calls of the users of a connection keep its slots: a request that is answered gives its slot back.
use nexigon.Multiplex.Shared.Rest.{
  SendsCmd, joins_cmds, fails_cmd, send_cmd-SendsCmd, KeepsRest, KeepsRest-refl,
}
use nexigon.Base.{
  ℕ, suc, ◌+◌, ◌≤◌, ◌≡◌, refl, Bool, true, false, some, List, [], ◌∷◌, ◌++◌, arith, length,
  All-append, inl, inr, Bool-cases, ltb, to_be_bytes, length-to_be_bytes, le→leb, length-append,
  if◌then◌else◌, length-take,
}
use nexigon.Multiplex.Frames.{
  Frame, FieldValue, id, word, octets, new, set_field, get_field, channel_request, channel_accept,
}
use nexigon.Multiplex.Limits.{channel_initial_frame_credit, channel_initial_byte_credit}
use nexigon.Multiplex.Shared.{
  ConnectionShared, ConnectionCmd, open_channel, accept_channel, held_slots, is_closing, send_cmd,
}
use nexigon.Multiplex.Connection.{Connection, open_closed}
use nexigon.Multiplex.Connection.Commands.{
  release_slot, open_call, accept_call, reject_call, keep_or_release, OpenCall, refused, waiting,
}
use nexigon.Multiplex.Connection.Slots.{IsReadyCmd, IsSound, send-IsSound, KeepsRest-IsSound}

held_slots-append :
    (cs ds : List ConnectionCmd) → held_slots (cs ++ ds) ≡ held_slots cs + held_slots ds
unfolding held_slots
held_slots-append [] ds = omega arith
held_slots-append (open_channel r t ∷ cs) ds = held_slots-append cs ds
held_slots-append (accept_channel a x y c true ∷ cs) ds =
    let rest = held_slots-append cs ds in omega arith
held_slots-append (accept_channel a x y c false ∷ cs) ds = held_slots-append cs ds

-- The connection while its users work on the shared state.
abbrev pub shares : Connection → ConnectionShared → Connection
shares c s = record c { shared = s }

-- The frames of the commands have room for the ids that are written into them.
request_frame-ready :
    (a b : ℕ) (bs : List ℕ) (n : ℕ)
    → (f : Frame) × (set_field
          (new channel_request (id 0 ∷ word a ∷ word b ∷ octets bs ∷ []))
          0
          (id n)
        ≡ some f)
unfolding set_field new
request_frame-ready a b bs n =
    let h : 9 ≤ suc (length (to_be_bytes 8 0 ++ rest)) =
      omega (arith, length-append (to_be_bytes 8 0) rest, length-to_be_bytes 8 0) in
    rw (le→leb 9 _ h, length-to_be_bytes 8 n) (_, refl)
  where
    rest : List ℕ
    rest = to_be_bytes 4 a ++ (to_be_bytes 4 b ++ (bs ++ []))

-- The fields of an accept.
abbrev accept_fields : ℕ → ℕ → ℕ → ℕ → List ℕ
accept_fields x y a b =
    to_be_bytes 8 x ++ (to_be_bytes 8 y ++ (to_be_bytes 4 a ++ (to_be_bytes 4 b ++ [])))

accept_frame-long :
    (x y a b : ℕ)
    → 25
      ≤ suc (
          length
            (to_be_bytes 8 x ++ (to_be_bytes 8 y ++ (to_be_bytes 4 a ++ (to_be_bytes 4 b ++ [])))))
accept_frame-long x y a b = omega (
  arith,
  length-append (to_be_bytes 8 x) (to_be_bytes 8 y ++ (to_be_bytes 4 a ++ (to_be_bytes 4 b ++ []))),
  length-append (to_be_bytes 8 y) (to_be_bytes 4 a ++ (to_be_bytes 4 b ++ [])),
  length-append (to_be_bytes 4 a) (to_be_bytes 4 b ++ []),
  length-append (to_be_bytes 4 b) [],
  length-to_be_bytes 8 x,
  length-to_be_bytes 8 y,
  length-to_be_bytes 4 a,
  length-to_be_bytes 4 b,
)

accept_frame-ready :
    (x y a b : ℕ) (n : ℕ)
    → (f : Frame) × (set_field (new channel_accept (id x ∷ id y ∷ word a ∷ word b ∷ [])) 1 (id n)
        ≡ some f)
unfolding set_field new
accept_frame-ready x y a b n =
    let h : 17 ≤ suc (length (accept_fields x y a b)) =
      (let l = accept_frame-long x y a b in omega arith) in
    rw (le→leb 17 _ h, length-to_be_bytes 8 n) (_, refl)

accept_frame-get :
    (x y a b : ℕ)
    → (v : FieldValue) × (get_field (new channel_accept (id x ∷ id y ∷ word a ∷ word b ∷ [])) 0
        ≡ some v)
unfolding get_field new
accept_frame-get x y a b =
    let l = accept_frame-long x y a b in
    let h : 9 ≤ suc (length (accept_fields x y a b)) = omega arith in
    let g : 8 ≤ length (accept_fields x y a b) = omega arith in
    rw (le→leb 9 _ h, length-take 8 (accept_fields x y a b) g) (_, refl)

-- One more command, which brings its slot along if it is an accept.
queued-IsSound :
    (held held' : ℕ) (c : Connection) (s : ConnectionShared) (cmd : ConnectionCmd)
    → s.limits ≡ c.shared.limits
    → s.pending_incoming_requests ≡ c.shared.pending_incoming_requests
    → s.queues.commands ≡ (c.shared.queues.commands ++ (cmd ∷ []))
    → held ≡ held' + held_slots (cmd ∷ [])
    → IsReadyCmd cmd
    → IsSound held c
    → IsSound held' (shares c s)
queued-IsSound held held' c s cmd limits incoming commands slot one v = record {
  few_slots = rw (limits, incoming) v.few_slots;
  counted =
      rw (incoming, commands)
        (let h = v.counted in omega (arith, held_slots-append c.shared.queues.commands (cmd ∷ [])));
  few_requests = rw limits v.few_requests;
  few_incoming = rw (limits, incoming) v.few_incoming;
  few_closed = rw limits v.few_closed;
  few_cancelled = rw limits v.few_cancelled;
  ready_commands =
      rw commands
        (All-append IsReadyCmd c.shared.queues.commands (cmd ∷ []) v.ready_commands (one, tt));
}

abbrev opens : List ℕ → ℕ → ConnectionCmd
opens endpoint caller =
    open_channel
      (new channel_request (
        id 0
        ∷ word channel_initial_frame_credit
        ∷ word channel_initial_byte_credit
        ∷ octets endpoint
        ∷ []))
      caller

abbrev accepts : ℕ → ℕ → ℕ → ℕ → ConnectionCmd
accepts sender_id a b callback =
    accept_channel
      (new channel_accept (
        id sender_id
        ∷ id 0
        ∷ word channel_initial_frame_credit
        ∷ word channel_initial_byte_credit
        ∷ []))
      a b callback true

abbrev call_result : ConnectionShared × Bool → ConnectionShared × OpenCall
call_result r = if r.1 then (r.0, waiting) else (r.0, refused open_closed)

-- Opening a channel changes no slot until the command is handled.
pub open_call-IsSound :
    (held : ℕ) (c : Connection) (endpoint : List ℕ) (caller : ℕ)
    → IsSound held c
    → IsSound held (shares c (open_call c.shared endpoint caller).0)
unfolding open_call held_slots
open_call-IsSound held c endpoint caller v = elim (Bool-cases (is_closing c.shared)) [
  | inl over ↦ rw over v
  | inr live ↦ elim (Bool-cases (ltb c.shared.limits.max_control_payload_size (length endpoint))) [
    | inl long ↦ rw (live, long) v
    | inr fits ↦
        rw (live, fits)
          (sends (send_cmd c.shared (opens endpoint caller))
            (send_cmd-SendsCmd c.shared (opens endpoint caller)))
  ]
]
  where
    sends :
        (r : ConnectionShared × Bool)
        → SendsCmd c.shared (opens endpoint caller) r
        → IsSound held (shares c (call_result r).0)
    sends (s, sent) (joins_cmds joined limits incoming commands) = rw joined (
        queued-IsSound held held c s (opens endpoint caller) limits incoming commands (omega arith)
          (request_frame-ready channel_initial_frame_credit channel_initial_byte_credit endpoint) v)
    sends (s, sent) (fails_cmd failed k) = rw failed (KeepsRest-IsSound held c s v k)

released-IsSound :
    (held : ℕ) (c : Connection) (s : ConnectionShared)
    → KeepsRest c.shared s
    → IsSound (suc held) c
    → IsSound held (shares c (release_slot s true))
unfolding release_slot
released-IsSound held c s k v =
    let i = k.incoming in
    let h = v.counted in
    record {
      few_slots = rw k.limits (let q = v.few_slots in omega arith);
      counted = rw k.commands (omega arith);
      few_requests = rw k.limits v.few_requests;
      few_incoming = rw k.limits (let q = v.few_incoming in omega arith);
      few_closed = rw k.limits v.few_closed;
      few_cancelled = rw k.limits v.few_cancelled;
      ready_commands = rw k.commands v.ready_commands;
    }

pub reject_call-IsSound :
    (held : ℕ) (c : Connection) (sender_id : ℕ) (reason : List ℕ)
    → IsSound (suc held) c
    → IsSound held (shares c (reject_call c.shared sender_id reason))
unfolding reject_call
reject_call-IsSound held c sender_id reason v =
    send-IsSound held (shares c (release_slot c.shared true)) _
      (released-IsSound held c c.shared (KeepsRest-refl c.shared) v)

pub accept_call-IsSound :
    (held : ℕ) (c : Connection) (sender_id a b callback : ℕ)
    → IsSound (suc held) c
    → IsSound held (shares c (accept_call c.shared sender_id a b callback))
unfolding accept_call held_slots
accept_call-IsSound held c sender_id a b callback v =
    sends (send_cmd c.shared (accepts sender_id a b callback))
      (send_cmd-SendsCmd c.shared (accepts sender_id a b callback))
  where
    sends :
        (r : ConnectionShared × Bool)
        → SendsCmd c.shared (accepts sender_id a b callback) r
        → IsSound held (shares c (keep_or_release r))
    sends (s, true) (joins_cmds joined limits incoming commands) =
        queued-IsSound (suc held) held c s (accepts sender_id a b callback) limits incoming commands
          (omega arith)
          (
            refl,
            accept_frame-get sender_id 0 channel_initial_frame_credit channel_initial_byte_credit,
            accept_frame-ready sender_id 0 channel_initial_frame_credit channel_initial_byte_credit,
          )
          v
    sends (s, true) (fails_cmd failed k) = absurd (cc)
    sends (s, false) (joins_cmds joined limits incoming commands) = absurd (cc)
    sends (s, false) (fails_cmd failed k) = released-IsSound held c s k v
