-- ===== src/Multiplex/Shared/Rest.antt =====
-- What sending a frame leaves alone: the limits, the incoming requests, the commands and the closed flag.
use nexigon.Base.{
  ℕ, ◌≡◌, refl, none, List, [], ◌∷◌, Bool-cases, inl, inr, ◌∷◌, Bool, true, false, leb, length,
  ◌++◌, Option, some,
}
use nexigon.Multiplex.Frames.{Frame}
use nexigon.Multiplex.Shared.{
  ConnectionShared, QueueResult, queued, failed, closed, full, too_large, is_closing,
  mark_overloaded, register_waiter, try_queue_frame, try_queue_priority_frame, sent, send_frame,
  send_priority_frame, pop_front, pop_frame, ConnectionCmd, send_cmd, queue_cmd, pop_cmd,
  pop_front_cmd, send_data_frame,
}
use nexigon.Multiplex.Shared.Outcomes.{
  Queues, shut, huge, waits, joins, try_queue_frame-Queues, try_queue_priority_frame-Queues,
}

pub record KeepsRest (s t : ConnectionShared) : Type 0 where
  pub limits : t.limits ≡ s.limits
  pub incoming : t.pending_incoming_requests ≡ s.pending_incoming_requests
  pub commands : t.queues.commands ≡ s.queues.commands
  pub closed_flag : t.closed ≡ s.closed

pub KeepsRest-refl : (s : ConnectionShared) → KeepsRest s s
KeepsRest-refl s = record { limits = refl; incoming = refl; commands = refl; closed_flag = refl }

Queues-KeepsRest :
    (s : ConnectionShared) (f : Frame) (frames bytes : ℕ) (waiting : ConnectionShared)
    (line : List Frame) (r : ConnectionShared × QueueResult)
    → KeepsRest s waiting
    → Queues s f frames bytes waiting line r
    → KeepsRest s r.0
Queues-KeepsRest s f n m waiting line r w (shut c e) = rw e (KeepsRest-refl s)
Queues-KeepsRest s f n m waiting line r w (huge c h e) = rw e (KeepsRest-refl s)
Queues-KeepsRest s f n m waiting line r w (waits c h h' e) = rw e w
Queues-KeepsRest s f n m waiting line r w (joins c h e) =
    rw e (record { limits = refl; incoming = refl; commands = refl; closed_flag = refl })

sent-KeepsRest :
    (s : ConnectionShared) (r : ConnectionShared × QueueResult)
    → KeepsRest s r.0
    → KeepsRest s (sent r).0
unfolding sent mark_overloaded
sent-KeepsRest s (t, queued) k = k
sent-KeepsRest s (t, failed closed f) k = k
sent-KeepsRest s (t, failed full f) k = record {
  limits = k.limits;
  incoming = k.incoming;
  commands = k.commands;
  closed_flag = k.closed_flag;
}
sent-KeepsRest s (t, failed too_large f) k = record {
  limits = k.limits;
  incoming = k.incoming;
  commands = k.commands;
  closed_flag = k.closed_flag;
}

pub send_frame-KeepsRest : (s : ConnectionShared) (f : Frame) → KeepsRest s (send_frame s f).0
unfolding send_frame register_waiter
send_frame-KeepsRest s f = elim (Bool-cases (is_closing s)) [
  | inl over ↦ rw over (KeepsRest-refl s)
  | inr live ↦ rw live (
      sent-KeepsRest s (try_queue_frame s f none) (
        Queues-KeepsRest s f _ _ (register_waiter s none) _ (try_queue_frame s f none)
          (KeepsRest-refl s) (try_queue_frame-Queues s f none)))
]

pub send_priority_frame-KeepsRest :
    (s : ConnectionShared) (f : Frame) → KeepsRest s (send_priority_frame s f).0
unfolding send_priority_frame
send_priority_frame-KeepsRest s f = elim (Bool-cases (is_closing s)) [
  | inl over ↦ rw over (KeepsRest-refl s)
  | inr live ↦ rw live (
      sent-KeepsRest s (try_queue_priority_frame s f) (
        Queues-KeepsRest s f _ _ s _ (try_queue_priority_frame s f) (KeepsRest-refl s)
          (try_queue_priority_frame-Queues s f)))
]

pub pop_frame-KeepsRest : (s : ConnectionShared) → KeepsRest s (pop_frame s).0
unfolding pop_frame pop_front
pop_frame-KeepsRest s = popped s.queues.frames
  where
    popped : (fs : List Frame) → KeepsRest s (pop_front s fs).0
    popped [] = KeepsRest-refl s
    popped (f ∷ fs) = record { limits = refl; incoming = refl; commands = refl; closed_flag = refl }

-- A command joins the others, or it fails and the slots and commands stay as they were.
pub data SendsCmd (s : ConnectionShared) (cmd : ConnectionCmd) (r : ConnectionShared × Bool)
    : Type 0 where
  joins_cmds :
      r.1 ≡ true
      → r.0.limits ≡ s.limits
      → r.0.pending_incoming_requests ≡ s.pending_incoming_requests
      → r.0.queues.commands ≡ (s.queues.commands ++ (cmd ∷ []))
      → SendsCmd s cmd r
  fails_cmd : r.1 ≡ false → KeepsRest s r.0 → SendsCmd s cmd r

pub send_cmd-SendsCmd :
    (s : ConnectionShared) (cmd : ConnectionCmd) → SendsCmd s cmd (send_cmd s cmd)
unfolding send_cmd queue_cmd mark_overloaded
send_cmd-SendsCmd s cmd = elim (Bool-cases (is_closing s)) [
  | inl over ↦ rw over (fails_cmd refl (KeepsRest-refl s))
  | inr live ↦
      rw live (elim (Bool-cases (leb s.limits.max_queued_commands (length s.queues.commands))) [
        | inl over ↦ rw over (
            fails_cmd refl
              (record { limits = refl; incoming = refl; commands = refl; closed_flag = refl }))
        | inr room ↦ rw room (joins_cmds refl refl refl refl)
      ])
]

-- The first command is taken, and nothing else changes.
pub data PopsCmd (s : ConnectionShared) (r : ConnectionShared × Option ConnectionCmd) : Type 0 where
  lacks_cmd : s.queues.commands ≡ [] → r ≡ (s, none) → PopsCmd s r
  takes_cmd :
      (cmd : ConnectionCmd) (cs : List ConnectionCmd)
      → s.queues.commands ≡ (cmd ∷ cs)
      → r ≡ (record s { queues = record (s.queues) { commands = cs } }, some cmd)
      → PopsCmd s r

pub pop_cmd-PopsCmd : (s : ConnectionShared) → PopsCmd s (pop_cmd s)
unfolding pop_cmd pop_front_cmd
pop_cmd-PopsCmd s = pops s.queues.commands refl
  where
    pops : (cs : List ConnectionCmd) → s.queues.commands ≡ cs → PopsCmd s (pop_front_cmd s cs)
    pops [] e = lacks_cmd e refl
    pops (cmd ∷ cs) e = takes_cmd cmd cs e refl

pub send_data_frame-KeepsRest :
    (s : ConnectionShared) (f : Frame) (w : ℕ) → KeepsRest s (send_data_frame s f w).0
unfolding register_waiter
send_data_frame-KeepsRest s f w =
    Queues-KeepsRest s f _ _ (register_waiter s (some w)) _ (try_queue_frame s f (some w))
      (record { limits = refl; incoming = refl; commands = refl; closed_flag = refl })
      (try_queue_frame-Queues s f (some w))
