-- ===== src/Multiplex/Connection/Granting.antt =====
-- An accept or a reject keeps the slots of a connection: an open gives its slot to its channel.
use nexigon.Base.{
  either_way, ◌||◌, ◌∙◌, ℕ, ◌≤◌, ◌≡◌, refl, ap, true, Option, none, some, List, [], ◌∷◌, arith,
  length, lookup, without, length-without-le, length-without-lt, length-insert-le, inl, inr,
  Bool-cases, Option-cases, ltb, lt→ltb, ◌==◌,
}
use nexigon.Multiplex.Frames.{Frame, new, id, octets, channel_close, channel_closed}
use nexigon.Multiplex.Shared.{ConnectionShared, is_closing}
use nexigon.Multiplex.Shared.Rest.{KeepsRest, KeepsRest-refl, send_frame-KeepsRest}
use nexigon.Multiplex.Channel.{Sender, SenderShared, drop_sender}
use nexigon.Multiplex.Channel.Receiver.{ReceiverShared, drop_receiver}
use nexigon.Multiplex.Connection.{Connection, ChannelHandle, make_channel, new_handle}
use nexigon.Multiplex.Connection.Admission.{IsSafe, send_or_fail-IsSafe, wake_handle-IsSound}
use nexigon.Multiplex.Connection.Closing.{
  with_tombstones, remove_first, take_cancelled_open, remember_closed,
}
use nexigon.Multiplex.Connection.Slots.{IsSound, IsLeaner-IsSound, remember_closed-IsSound}
use nexigon.Multiplex.Connection.Handling.{
  nothing, Step, send_or_fail, give_channel, drop_channel, fresh_sender, handle_accept,
  handle_reject, cancelled_reason, cancelled_tombstone, close_cancelled, reject_cancelled,
}

-- The ends of a channel that no one takes are dropped: they only queue frames and wake the connection.
drop_sender-KeepsRest : (c : ConnectionShared) (s : Sender) → KeepsRest c (drop_sender c s).0
unfolding drop_sender
drop_sender-KeepsRest c s =
    let k = send_frame-KeepsRest c (new channel_closed (id s.remote_id ∷ octets [] ∷ [])) in
    either_way (λ (p : ConnectionShared × SenderShared). KeepsRest c p.0)
      (s.closed_sent || is_closing c) _ _
      (record { limits = refl; incoming = refl; commands = refl; closed_flag = refl })
      (record {
        limits = k.limits;
        incoming = k.incoming;
        commands = k.commands;
        closed_flag = k.closed_flag;
      })

drop_receiver-KeepsRest :
    (c : ConnectionShared) (n : ℕ) (r : ReceiverShared) → KeepsRest c (drop_receiver c n r).0
unfolding drop_receiver
drop_receiver-KeepsRest c n r =
    either_way (λ (p : ConnectionShared × ReceiverShared). KeepsRest c p.0) (is_closing c) _ _
      (KeepsRest-refl c) (send_frame-KeepsRest c (new channel_close (id n ∷ octets [] ∷ [])))

drop_channel-IsSound :
    (held : ℕ) (c : Connection) (k : ℕ) (h : ChannelHandle)
    → IsSound held c
    → IsSound held (drop_channel c k h)
unfolding drop_channel
drop_channel-IsSound held c k h v =
    let (s, sender) = drop_sender c.shared (fresh_sender c h) in
    let a = drop_sender-KeepsRest c.shared (fresh_sender c h) in
    let b = drop_receiver-KeepsRest s h.remote_id h.receiver_shared in
    wake_handle-IsSound held c _ k _
      (record {
        limits = b.limits ∙ a.limits;
        incoming = b.incoming ∙ a.incoming;
        commands = b.commands ∙ a.commands;
        closed_flag = b.closed_flag ∙ a.closed_flag;
      })
      v

given-IsSafe :
    (held : ℕ) (c d : Connection) (caller local_id : ℕ) (h : ChannelHandle)
    → IsSound held d
    → IsSafe held (give_channel c (some d) caller local_id h)
unfolding give_channel
given-IsSafe held c d caller local_id h v =
    either_way (IsSafe held) (d.has_gone caller) _ _ (drop_channel-IsSound held d local_id h v, tt)
      (
        IsLeaner-IsSound held d _ v (record {
          limits = refl;
          incoming = refl;
          commands = refl;
          slots = omega arith;
          requests = omega arith;
          closed_ones = omega arith;
          cancelled_ones = omega arith;
        }),
        tt,
      )

make_channel-IsSound :
    (held : ℕ) (c d : Connection) (caller local_id remote_id a b now : ℕ)
    → lookup local_id c.pending_requests ≡ some caller
    → IsSound held c
    → IsSafe held (
        give_channel d
          (make_channel
            (record c { pending_requests = without local_id c.pending_requests })
            local_id
            remote_id
            a
            b
            now)
          caller
          local_id
          (new_handle c.shared.limits remote_id a b now))
unfolding make_channel
make_channel-IsSound held c d caller local_id remote_id a b now found v =
    let less = length-without-lt local_id c.pending_requests caller found in
    let few = v.few_slots in
    let room : ltb (length c.channels) c.shared.limits.max_channels ≡ true =
      lt→ltb _ _ (omega arith) in
    rw room (
      given-IsSafe held d _ caller local_id (new_handle c.shared.limits remote_id a b now) (
        IsLeaner-IsSound held c _ v (record {
          limits = refl;
          incoming = refl;
          commands = refl;
          slots = omega (
            arith,
            length-insert-le local_id (new_handle c.shared.limits remote_id a b now) c.channels,
          );
          requests = omega arith;
          closed_ones = omega arith;
          cancelled_ones = omega arith;
        })))

remove_first-le : (k : ℕ) (js ks : List ℕ) → remove_first k js ≡ some ks → length ks ≤ length js
unfolding remove_first
remove_first-le k [] ks e = absurd (cc)
remove_first-le k (j ∷ js) ks e = elim (Bool-cases (j == k)) [
  | inl here ↦
      let e' : some js ≡ some ks = rw here at e in
      let q : js ≡ ks = cc in let l = ap length q in omega arith
  | inr there ↦ elim (Option-cases (remove_first k js)) [
    | inl missing ↦ let e' : none ≡ some ks = rw (there, missing) at e in absurd (cc)
    | inr (rest, found) ↦
        let e' : some (j ∷ rest) ≡ some ks = rw (there, found) at e in
        let q : (j ∷ rest) ≡ ks = cc in
        let l = ap length q in let less = remove_first-le k js rest found in omega arith
  ]
]

taken-IsSound :
    (held : ℕ) (c : Connection) (k : ℕ) (ks : List ℕ)
    → remove_first k c.cancelled_open_tombstones ≡ some ks
    → IsSound held c
    → IsSound held (record c { cancelled_open_tombstones = ks })
taken-IsSound held c k ks e v = record {
  few_slots = v.few_slots;
  counted = v.counted;
  few_requests = v.few_requests;
  few_incoming = v.few_incoming;
  few_closed = v.few_closed;
  few_cancelled =
      let h = v.few_cancelled in
      let l = remove_first-le k c.cancelled_open_tombstones ks e in omega arith;
  ready_commands = v.ready_commands;
}

-- What the search for a cancelled open gives.
abbrev IsTaken : ℕ → Option Connection → Type 0
IsTaken held none = Unit {0}
IsTaken held (some c) = IsSound held c

take_cancelled_open-IsTaken :
    (held : ℕ) (c : Connection) (k : ℕ) → IsSound held c → IsTaken held (take_cancelled_open c k)
take_cancelled_open-IsTaken held c k v = takes (remove_first k c.cancelled_open_tombstones) refl
  where
    takes :
        (o : Option (List ℕ))
        → remove_first k c.cancelled_open_tombstones ≡ o
        → IsTaken held (with_tombstones c o)
    takes none e = tt
    takes (some ks) e = taken-IsSound held c k ks e v

-- How a cancelled open ends, once its close was queued, and once its closed was queued.
abbrev forgets : ℕ → Connection → Step
forgets local_id e = (remember_closed e (cancelled_tombstone local_id), nothing)

abbrev closes : ℕ → ℕ → Connection → Step
closes local_id remote_id d =
    send_or_fail d (new channel_closed (id remote_id ∷ octets cancelled_reason ∷ []))
      (forgets local_id)

close_cancelled-IsSafe :
    (held : ℕ) (o : Option Connection) (c : Connection) (local_id remote_id : ℕ)
    → IsTaken held o
    → IsSound held c
    → IsSafe held (close_cancelled o c local_id remote_id)
unfolding close_cancelled
close_cancelled-IsSafe held none c local_id remote_id t v = (v, tt)
close_cancelled-IsSafe held (some taken) c local_id remote_id t v =
    send_or_fail-IsSafe held taken (new channel_close (id remote_id ∷ octets cancelled_reason ∷ []))
      (closes local_id remote_id) t
      (λ d w.
        send_or_fail-IsSafe held d
          (new channel_closed (id remote_id ∷ octets cancelled_reason ∷ [])) (forgets local_id) w
          (λ e u. (remember_closed-IsSound held e (cancelled_tombstone local_id) u, tt)))

reject_cancelled-IsSafe :
    (held : ℕ) (o : Option Connection) (c : Connection)
    → IsTaken held o
    → IsSound held c
    → IsSafe held (reject_cancelled o c)
reject_cancelled-IsSafe held none c t v = (v, tt)
reject_cancelled-IsSafe held (some taken) c t v = (t, tt)

pub handle_accept-IsSafe :
    (held : ℕ) (c : Connection) (o : Option ℕ) (local_id remote_id a b now : ℕ)
    → lookup local_id c.pending_requests ≡ o
    → IsSound held c
    → IsSafe held (handle_accept c o local_id remote_id a b now)
unfolding handle_accept
handle_accept-IsSafe held c none local_id remote_id a b now e v =
    close_cancelled-IsSafe held (take_cancelled_open c local_id) c local_id remote_id
      (take_cancelled_open-IsTaken held c local_id v) v
handle_accept-IsSafe held c (some caller) local_id remote_id a b now e v =
    make_channel-IsSound held c
      (record c { pending_requests = without local_id c.pending_requests }) caller local_id
      remote_id a b now e v

pub handle_reject-IsSafe :
    (held : ℕ) (c : Connection) (f : Frame) (o : Option ℕ) (local_id : ℕ)
    → IsSound held c
    → IsSafe held (handle_reject c f o local_id)
unfolding handle_reject
handle_reject-IsSafe held c f none local_id v =
    reject_cancelled-IsSafe held (take_cancelled_open c local_id) c
      (take_cancelled_open-IsTaken held c local_id v) v
handle_reject-IsSafe held c f (some caller) local_id v =
    let less = length-without-le local_id c.pending_requests in
    (
      IsLeaner-IsSound held c _ v (record {
        limits = refl;
        incoming = refl;
        commands = refl;
        slots = omega arith;
        requests = less;
        closed_ones = omega arith;
        cancelled_ones = omega arith;
      }),
      tt,
    )
