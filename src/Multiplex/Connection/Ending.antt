-- ===== src/Multiplex/Connection/Ending.antt =====
-- How a connection ends: everyone who waits for it is told or woken.
use nexigon.Multiplex.Channel.{wake}
use nexigon.Base.{
  ℕ, ◌≡◌, refl, true, false, Option, none, some, List, [], ◌∷◌, All, ◌∙◌, sym, append_assoc, ◌++◌,
  map, ap, else_way,
}
use nexigon.Multiplex.Shared.{ConnectionShared, clear_queues, queued_callers}
use nexigon.Multiplex.Connection.{
  ChannelHandle, close_channels, Connection, open_closed, close_state, drop_callers,
}

-- A channel both of whose ends are closed, and which no one waits for.
abbrev pub IsShut : ℕ × ChannelHandle → Type 0
IsShut (k, h) =
    (h.sender_shared.closed ≡ true)
    × (h.receiver_shared.closed ≡ true)
    × (h.sender_shared.waker ≡ none)
    × (h.receiver_shared.waker ≡ none)

close_channels-IsShut :
    (s : ConnectionShared) (hs : List (ℕ × ChannelHandle)) → All IsShut (close_channels s hs).1
unfolding close_channels
close_channels-IsShut s [] = tt
close_channels-IsShut s ((k, h) ∷ hs) = ((refl, refl, refl, refl), close_channels-IsShut _ hs)

-- The task that waits, if there is one, is among the woken.
abbrev pub Wakes : List ℕ → Option ℕ → Type 0
Wakes ws none = Unit {0}
Wakes ws (some w) = (pre : List ℕ) × (post : List ℕ) × (ws ≡ (pre ++ (w ∷ post)))

abbrev pub WakesEnds : ConnectionShared → ℕ × ChannelHandle → Type 0
WakesEnds s (k, h) = Wakes s.woken h.sender_shared.waker × Wakes s.woken h.receiver_shared.waker

Wakes-append : (pre ws : List ℕ) (o : Option ℕ) → Wakes ws o → Wakes (pre ++ ws) o
Wakes-append pre ws none h = tt
Wakes-append pre ws (some w) (a, b, e) =
    (pre ++ a, b, ap (◌++◌ pre) e ∙ sym (append_assoc pre a (w ∷ b)))

wake-Wakes : (s : ConnectionShared) (o : Option ℕ) → Wakes (wake s o).woken o
wake-Wakes s none = tt
wake-Wakes s (some w) = ([], s.woken, refl)

wake-keeps : (s : ConnectionShared) (o p : Option ℕ) → Wakes s.woken o → Wakes (wake s p).woken o
wake-keeps s o none h = h
wake-keeps s o (some w) h = Wakes-append (w ∷ []) s.woken o h

close_channels-keeps :
    (s : ConnectionShared) (hs : List (ℕ × ChannelHandle)) (o : Option ℕ)
    → Wakes s.woken o
    → Wakes (close_channels s hs).0.woken o
unfolding close_channels
close_channels-keeps s [] o w = w
close_channels-keeps s ((k, h) ∷ hs) o w =
    close_channels-keeps (wake (wake s h.sender_shared.waker) h.receiver_shared.waker) hs o (
      wake-keeps (wake s h.sender_shared.waker) o h.receiver_shared.waker
        (wake-keeps s o h.sender_shared.waker w))

close_channels-WakesEnds :
    (s t : ConnectionShared) (hs : List (ℕ × ChannelHandle))
    → t ≡ (close_channels s hs).0
    → All (WakesEnds t) hs
unfolding close_channels
close_channels-WakesEnds s t [] e = tt
close_channels-WakesEnds s t ((k, h) ∷ hs) e =
    let a = wake s h.sender_shared.waker in
    let b = wake a h.receiver_shared.waker in
    (
      (
        rw e (
            close_channels-keeps b hs h.sender_shared.waker (
              wake-keeps a h.sender_shared.waker h.receiver_shared.waker
                (wake-Wakes s h.sender_shared.waker))),
        rw e (
            close_channels-keeps b hs h.receiver_shared.waker
              (wake-Wakes a h.receiver_shared.waker)),
      ),
      close_channels-WakesEnds b t hs e,
    )

-- Waking touches neither the queues nor the closed flag.
wake-queues :
    (s : ConnectionShared) (o : Option ℕ)
    → ((wake s o).queues ≡ s.queues)
      × ((wake s o).closed ≡ s.closed)
      × ((wake s o).dropped_callers ≡ s.dropped_callers)
wake-queues s none = (refl, refl, refl)
wake-queues s (some w) = (refl, refl, refl)

close_channels-queues :
    (s : ConnectionShared) (hs : List (ℕ × ChannelHandle))
    → ((close_channels s hs).0.queues ≡ s.queues)
      × ((close_channels s hs).0.closed ≡ s.closed)
      × ((close_channels s hs).0.dropped_callers ≡ s.dropped_callers)
unfolding close_channels
close_channels-queues s [] = (refl, refl, refl)
close_channels-queues s ((k, h) ∷ hs) =
    let a = wake-queues s h.sender_shared.waker in
    let b = wake-queues (wake s h.sender_shared.waker) h.receiver_shared.waker in
    let r =
      close_channels-queues (wake (wake s h.sender_shared.waker) h.receiver_shared.waker) hs in
    (r.0 ∙ b.0 ∙ a.0, r.1 ∙ b.1 ∙ a.1, r.2 ∙ b.2 ∙ a.2)

close_channels-ids :
    (s : ConnectionShared) (hs : List (ℕ × ChannelHandle))
    → map (λ p. p.0) (close_channels s hs).1 ≡ map (λ p. p.0) hs
unfolding close_channels
close_channels-ids s [] = refl
close_channels-ids s ((k, h) ∷ hs) = ap (◌∷◌ k) (close_channels-ids _ hs)

map-drop_callers : (ps : List (ℕ × ℕ)) → drop_callers ps ≡ map (λ p. (p.1, open_closed)) ps
unfolding drop_callers
map-drop_callers [] = refl
map-drop_callers ((k, caller) ∷ ps) = ap (◌∷◌ (caller, open_closed)) (map-drop_callers ps)

-- What closing the state of a connection does to everything that is part of it.
pub record IsEnded (c d : Connection) : Type 0 where
  pub is_closed : (d.closed ≡ true) × (d.shared.closed ≡ true)
  pub nothing_queued : (d.shared.queues.frames ≡ []) × (d.shared.queues.commands ≡ [])
  pub no_entries :
      (d.channels ≡ [])
      × (d.pending_requests ≡ [])
      × (d.closed_channels ≡ [])
      × (d.cancelled_open_tombstones ≡ [])
  pub told : d.answers ≡ (c.answers ++ map (λ p. (p.1, open_closed)) c.pending_requests)
  pub told_queued :
      d.shared.dropped_callers
      ≡ (c.shared.dropped_callers ++ queued_callers c.shared.queues.commands)
  pub channels_shut :
      (hs : List (ℕ × ChannelHandle)) × (map (λ p. p.0) hs ≡ map (λ p. p.0) c.channels)
      × All IsShut hs
      × (d.detached ≡ (hs ++ c.detached))
  pub ends_woken : All (WakesEnds d.shared) c.channels

-- The shared state while a connection is closed, before its tasks are woken.
abbrev shut : Connection → ConnectionShared
shut c = clear_queues (record (c.shared) { closed = true })

-- Closing the state of a connection that is not closed yet ends everything that is part of it: its queues
-- and tables are empty, every caller of an open, pending or still queued as a command, is told that
-- the connection is closed, both ends of every channel are closed, and each task that waited for one of them is woken.
pub close_state-IsEnded : (c : Connection) → c.closed ≡ false → IsEnded c (close_state c)
unfolding close_state clear_queues queued_callers
close_state-IsEnded c live = else_way (IsEnded c) c.closed c _ live (
    let q = close_channels-queues (shut c) c.channels in
    record {
      is_closed = (refl, q.1);
      nothing_queued = (ap (λ x. x.frames) q.0, ap (λ x. x.commands) q.0);
      no_entries = (refl, refl, refl, refl);
      told = ap (◌++◌ c.answers) (map-drop_callers c.pending_requests);
      told_queued = q.2;
      channels_shut = (
        (close_channels (shut c) c.channels).1,
        close_channels-ids (shut c) c.channels,
        close_channels-IsShut (shut c) c.channels,
        refl,
      );
      ends_woken = close_channels-WakesEnds (shut c) _ c.channels refl;
    })
