-- ===== src/Multiplex/Connection/Pinging.antt =====
-- The liveness checks as a state machine: a Ping goes from the queue to the transport, is flushed, and
-- is answered.
use nexigon.Base.{
  ℕ, ◌≡◌, refl, true, false, not, ◌&&◌, ◌||◌, Option, none, some, [], ltb, if◌then◌else◌, inl, inr,
  Bool-cases, either_way, ◌⊎◌, then_way, else_way, arith, ap,
}
use nexigon.Multiplex.Frames.{Frame, new, ping}
use nexigon.Multiplex.Shared.{send_priority_frame}
use nexigon.Multiplex.Connection.{Connection, PingState}
use nexigon.Multiplex.Connection.Handling.{handle_pong}
use nexigon.Multiplex.Connection.Liveness.{send_ping, mark_sent, mark_flushed, is_ping, is_none}

-- Nothing is asked, a Ping is queued, it was handed to the transport, or it was flushed.
pub data PingPhase : Type 0 where
  idle queued_ping sent_ping flushed_ping : PingPhase

-- What each phase says of the state: which flags are set, and which one deadline runs.
abbrev pub IsIn : PingPhase → PingState → Type 0
IsIn idle p =
    (p.ping_outstanding ≡ false)
    × (p.last_ping ≡ none)
    × (p.pong_received ≡ true)
    × (p.ping_awaiting_flush ≡ false)
    × (p.ping_write_deadline_active ≡ false)
    × (p.pong_deadline_active ≡ false)
IsIn queued_ping p =
    (p.ping_outstanding ≡ true)
    × (p.last_ping ≡ none)
    × (p.pong_received ≡ true)
    × (p.ping_awaiting_flush ≡ false)
    × (p.ping_write_deadline_active ≡ true)
    × (p.pong_deadline_active ≡ false)
IsIn sent_ping p =
    (p.ping_outstanding ≡ true)
    × (is_none p.last_ping ≡ false)
    × (p.pong_received ≡ false)
    × (p.ping_awaiting_flush ≡ true)
    × (p.ping_write_deadline_active ≡ true)
    × (p.pong_deadline_active ≡ false)
IsIn flushed_ping p =
    (p.ping_outstanding ≡ true)
    × (is_none p.last_ping ≡ false)
    × (p.pong_received ≡ false)
    × (p.ping_awaiting_flush ≡ false)
    × (p.ping_write_deadline_active ≡ false)
    × (p.pong_deadline_active ≡ true)

-- What happens to the checks of a connection in its polls.
pub data PingStep : Type 0 where
  ticks : (now : ℕ) → PingStep
  sends : (f : Frame) (now : ℕ) → PingStep
  flushes : (now : ℕ) → PingStep
  hears_pong : (now : ℕ) → PingStep

unfoldable pub ping_step : Connection → PingStep → Connection
ping_step c (ticks now) = send_ping c now
ping_step c (sends f now) = mark_sent c f now
ping_step c (flushes now) = mark_flushed c now
ping_step c (hears_pong now) = (handle_pong c c.ping.last_ping now).0

-- The phases that a step may lead to.
unfoldable pub Leads : PingPhase → PingStep → PingPhase → Type 0
Leads idle (ticks now) q = (q ≡ idle) ⊎ (q ≡ queued_ping)
Leads queued_ping (sends f now) q = if is_ping f.kind then q ≡ sent_ping else q ≡ queued_ping
Leads sent_ping (flushes now) q = q ≡ flushed_ping
Leads sent_ping (hears_pong now) q = q ≡ idle
Leads flushed_ping (hears_pong now) q = q ≡ idle
Leads p s q = q ≡ p

-- Whichever flag stands in the way of a tick, nothing changes.
asked-still :
    (q : PingPhase) (c : Connection) (now : ℕ)
    → c.ping.ping_outstanding ≡ true
    → IsIn q c.ping
    → IsIn q (send_ping c now).ping
unfolding send_ping
asked-still q c now e v =
    then_way (λ d. IsIn q d.ping) (not c.hello_received || c.ping.ping_outstanding) c _
      (ground arith) v

idle-ticks :
    (c : Connection) (now : ℕ)
    → IsIn idle c.ping
    → (q : PingPhase) × ((q ≡ idle) ⊎ (q ≡ queued_ping)) × IsIn q (send_ping c now).ping
unfolding send_ping
idle-ticks c now v =
    either_way Ticked (not c.hello_received || c.ping.ping_outstanding) c _ (idle, inl refl, v)
      (either_way Ticked (ltb now c.ping.next_ping) c _ (idle, inl refl, v)
        (either_way Ticked (send_priority_frame c.shared (new ping [])).1 _ _
          (queued_ping, inr refl, (refl, v.1, v.2, v.3, refl, v.5)) (idle, inl refl, v)))
  where
    Ticked : Connection → Type 0
    Ticked d = (q : PingPhase) × ((q ≡ idle) ⊎ (q ≡ queued_ping)) × IsIn q d.ping

-- A frame that is handed over leaves every phase but that of a queued Ping.
unasked-still :
    (q : PingPhase) (c : Connection) (f : Frame) (now : ℕ)
    → (c.ping.ping_outstanding && is_none c.ping.last_ping) ≡ false
    → IsIn q c.ping
    → IsIn q (mark_sent c f now).ping
unasked-still q c f now e v =
    else_way (λ d. IsIn q d.ping)
      ((c.ping.ping_outstanding && is_none c.ping.last_ping) && is_ping f.kind) _ c (ground arith) v

unflushed-still :
    (q : PingPhase) (c : Connection) (now : ℕ)
    → c.ping.ping_awaiting_flush ≡ false
    → IsIn q c.ping
    → IsIn q (mark_flushed c now).ping
unflushed-still q c now e v = else_way (λ d. IsIn q d.ping) c.ping.ping_awaiting_flush _ c e v

unheard-still :
    (q : PingPhase) (c : Connection) (o : Option ℕ) (now : ℕ)
    → is_none o ≡ true
    → IsIn q c.ping
    → IsIn q ((handle_pong c o now).0).ping
unfolding handle_pong
unheard-still q c none now e v = v
unheard-still q c (some t) now e v = absurd (cc)

heard-IsIn :
    (c : Connection) (o : Option ℕ) (now : ℕ)
    → is_none o ≡ false
    → IsIn idle ((handle_pong c o now).0).ping
unfolding handle_pong
heard-IsIn c none now e = absurd (cc)
heard-IsIn c (some t) now e = (refl, refl, refl, refl, refl, refl)

queued-sends :
    (c : Connection) (f : Frame) (now : ℕ)
    → IsIn queued_ping c.ping
    → (q : PingPhase) × (if is_ping f.kind then q ≡ sent_ping else q ≡ queued_ping)
      × IsIn q (mark_sent c f now).ping
queued-sends c f now v = elim (Bool-cases (is_ping f.kind)) [
  | inl asks ↦ (
    sent_ping,
    rw asks refl,
    then_way (λ d. IsIn sent_ping d.ping) _ _ c (let h = v.0 in let k = v.1 in rw (h, k, asks) refl)
        (v.0, refl, refl, refl, v.4, v.5),
  )
  | inr other ↦ (
    queued_ping,
    rw other refl,
    else_way (λ d. IsIn queued_ping d.ping)
        ((c.ping.ping_outstanding && is_none c.ping.last_ping) && is_ping f.kind) _ c (ground arith)
        v,
  )
]

-- Every step of the liveness checks goes along the state machine, so that in every phase in which a Ping
-- is asked exactly one of its two deadlines runs, and no Ping is asked while another waits for its answer.
pub ping_step-Leads :
    (p : PingPhase) (c : Connection) (s : PingStep)
    → IsIn p c.ping
    → (q : PingPhase) × Leads p s q × IsIn q (ping_step c s).ping
unfolding ping_step Leads
ping_step-Leads idle c (ticks now) v = idle-ticks c now v
ping_step-Leads queued_ping c (ticks now) v =
    (queued_ping, refl, asked-still queued_ping c now v.0 v)
ping_step-Leads sent_ping c (ticks now) v = (sent_ping, refl, asked-still sent_ping c now v.0 v)
ping_step-Leads flushed_ping c (ticks now) v =
    (flushed_ping, refl, asked-still flushed_ping c now v.0 v)
ping_step-Leads idle c (sends f now) v =
    (idle, refl, unasked-still idle c f now (let h = v.0 in ground arith) v)
ping_step-Leads queued_ping c (sends f now) v = queued-sends c f now v
ping_step-Leads sent_ping c (sends f now) v =
    (sent_ping, refl, unasked-still sent_ping c f now (let h = v.1 in ground arith) v)
ping_step-Leads flushed_ping c (sends f now) v =
    (flushed_ping, refl, unasked-still flushed_ping c f now (let h = v.1 in ground arith) v)
ping_step-Leads idle c (flushes now) v = (idle, refl, unflushed-still idle c now v.3 v)
ping_step-Leads queued_ping c (flushes now) v =
    (queued_ping, refl, unflushed-still queued_ping c now v.3 v)
ping_step-Leads sent_ping c (flushes now) v = (
  flushed_ping,
  refl,
  then_way (λ d. IsIn flushed_ping d.ping) c.ping.ping_awaiting_flush _ c v.3
      (else_way (λ (d : Connection). IsIn flushed_ping d.ping) c.ping.pong_received _ _ v.2
        (v.0, v.1, v.2, refl, refl, refl)),
)
ping_step-Leads flushed_ping c (flushes now) v =
    (flushed_ping, refl, unflushed-still flushed_ping c now v.3 v)
ping_step-Leads idle c (hears_pong now) v =
    (idle, refl, unheard-still idle c c.ping.last_ping now (ap is_none v.1) v)
ping_step-Leads queued_ping c (hears_pong now) v =
    (queued_ping, refl, unheard-still queued_ping c c.ping.last_ping now (ap is_none v.1) v)
ping_step-Leads sent_ping c (hears_pong now) v = (idle, refl, heard-IsIn c c.ping.last_ping now v.1)
ping_step-Leads flushed_ping c (hears_pong now) v =
    (idle, refl, heard-IsIn c c.ping.last_ping now v.1)
