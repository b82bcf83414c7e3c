-- ===== src/Multiplex/Connection/Turns.antt =====
-- The phases of a poll keep the slots of a connection, and none of them panics.
use nexigon.Base.{ℕ, zero, suc, refl, Bool, true, false, [], if◌then◌else◌}
use nexigon.Multiplex.Frames.{new, ping}
use nexigon.Multiplex.Shared.{send_priority_frame, pop_cmd}
use nexigon.Multiplex.Shared.Rest.{
  send_priority_frame-KeepsRest, PopsCmd, lacks_cmd, takes_cmd, pop_cmd-PopsCmd,
}
use nexigon.Multiplex.Connection.{Connection}
use nexigon.Multiplex.Connection.Closing.{cleanup_channels, cleanup_cancelled_opens}
use nexigon.Multiplex.Connection.Commands.{CmdResult, done, cmd_panics, handle_cmd}
use nexigon.Multiplex.Connection.Liveness.{
  Poll, poll_pending, finished, yields, poll_error, poll_panics, Phase, goes_on, ends, then_phase,
  after_cmd, unless_cancels_overflow, unless_overloaded, process_popped, process_commands, prepare,
  send_ping, resource_limit_exceeded,
}
use nexigon.Multiplex.Connection.Slots.{
  IsSound, KeepsRest-IsSound, cleanup_channels-IsSound, cleanup_cancelled_opens-IsSound,
}
use nexigon.Multiplex.Connection.Admission.{Same-IsSound, held_with}
use nexigon.Multiplex.Connection.Ordering.{IsDone, taken, handle_cmd-IsDone}

-- The requests that callers hold after a poll.
abbrev pub held_after_poll : ℕ → Poll → ℕ
held_after_poll held (yields e) = held_with held e
held_after_poll held poll_pending = held
held_after_poll held finished = held
held_after_poll held (poll_error e) = held
held_after_poll held poll_panics = held

abbrev pub NoPollPanic : Poll → Type 0
NoPollPanic poll_panics = ⊥
NoPollPanic _ = Unit {0}

-- A phase leaves a sound connection, and does not end in a panic.
abbrev pub IsOn : ℕ → Phase → Type 0
IsOn held (goes_on c) = IsSound held c
IsOn held (ends c p) = IsSound (held_after_poll held p) c × NoPollPanic p

then_phase-IsOn :
    (held : ℕ) (ph : Phase) (k : Connection → Phase)
    → IsOn held ph
    → ((c : Connection) → IsSound held c → IsOn held (k c))
    → IsOn held (then_phase ph k)
then_phase-IsOn held (goes_on c) k v w = w c v
then_phase-IsOn held (ends c p) k v w = v

unless_cancels_overflow-IsOn :
    (held : ℕ) (c : Connection) (is_canceled : ℕ → Bool) (k : Connection → Phase)
    → IsSound held c
    → ((d : Connection) → IsSound held d → IsOn held (k d))
    → IsOn held (unless_cancels_overflow (cleanup_cancelled_opens c is_canceled) k)
unless_cancels_overflow-IsOn held c is_canceled k v w =
    cleans (cleanup_cancelled_opens c is_canceled)
      (cleanup_cancelled_opens-IsSound held c is_canceled v)
  where
    cleans : (r : Connection × Bool) → IsSound held r.0 → IsOn held (unless_cancels_overflow r k)
    cleans (d, true) u = w d u
    cleans (d, false) u = (u, tt)

unless_overloaded-IsOn :
    (held : ℕ) (c : Connection) → IsSound held c → IsOn held (unless_overloaded c)
unless_overloaded-IsOn held c v = tests c.shared.overloaded
  where
    tests :
        (over : Bool)
        → IsOn held (if over then ends c (poll_error resource_limit_exceeded) else goes_on c)
    tests true = (v, tt)
    tests false = v

pub either-IsSound :
    (held : ℕ) (b : Bool) (c d : Connection)
    → IsSound held c
    → IsSound held d
    → IsSound held (if b then c else d)
either-IsSound held true c d v w = v
either-IsSound held false c d v w = w

send_ping-IsSound :
    (held : ℕ) (c : Connection) (now : ℕ) → IsSound held c → IsSound held (send_ping c now)
unfolding send_ping
send_ping-IsSound held c now v = either-IsSound held _ c _ v (
    either-IsSound held _ c _ v (
      either-IsSound held (send_priority_frame c.shared (new ping [])).1 _ _
        (Same-IsSound held (record c { shared = (send_priority_frame c.shared (new ping [])).0 }) _
          (refl, refl, refl, refl, refl) w)
        (Same-IsSound held (record c { shared = (send_priority_frame c.shared (new ping [])).0 }) _
          (refl, refl, refl, refl, refl) w)))
  where
    w : IsSound held (record c { shared = (send_priority_frame c.shared (new ping [])).0 })
    w = KeepsRest-IsSound held c _ v (send_priority_frame-KeepsRest c.shared (new ping []))

after_cmd-IsOn :
    (held : ℕ) (r : CmdResult) (old : Connection) (k : Connection → Phase)
    → ((d : Connection) → IsSound held d → IsOn held (k d))
    → IsDone held r
    → IsOn held (after_cmd r old k)
after_cmd-IsOn held (done c) old k w v = w c v
after_cmd-IsOn held cmd_panics old k w v = absurd (v)

module _ (is_canceled : ℕ → Bool) (now : ℕ) where
  process_next :
      (held : ℕ) (c : Connection) (k : Connection → Phase)
      → ((d : Connection) → IsSound held d → IsOn held (k d))
      → IsSound held c
      → IsOn held (
          process_popped c
            (pop_cmd c.shared)
            (λ d cmd. after_cmd (handle_cmd d is_canceled cmd now) c k))
  process_next held c k w v = pops (pop_cmd-PopsCmd c.shared)
    where
      pops :
          PopsCmd c.shared (pop_cmd c.shared)
          → IsOn held (
              process_popped c
                (pop_cmd c.shared)
                (λ d cmd. after_cmd (handle_cmd d is_canceled cmd now) c k))
      pops (lacks_cmd e r) = rw r v
      pops (takes_cmd cmd cs e r) = rw r (
          after_cmd-IsOn held (handle_cmd (taken c cs) is_canceled cmd now) c k w
            (handle_cmd-IsDone held c is_canceled cmd cs now e v))

  process_commands-IsOn :
      (held n : ℕ) (c : Connection)
      → IsSound held c
      → IsOn held (process_commands is_canceled now n c)
  unfolding process_commands
  process_commands-IsOn held zero c v =
      KeepsRest-IsSound held c _ v
        (record { limits = refl; incoming = refl; commands = refl; closed_flag = refl })
  process_commands-IsOn held (suc n) c v =
      unless_cancels_overflow-IsOn held c is_canceled _ v (λ d w.
        process_next held d (process_commands is_canceled now n) (process_commands-IsOn held n) w)

  pub prepare-IsOn :
      (held : ℕ) (c : Connection) → IsSound held c → IsOn held (prepare is_canceled now c)
  unfolding prepare
  prepare-IsOn held c v =
      unless_cancels_overflow-IsOn held (cleanup_channels c) is_canceled _
        (cleanup_channels-IsSound held c v)
        (λ d w.
          then_phase-IsOn held (unless_overloaded (send_ping d now)) _
            (unless_overloaded-IsOn held (send_ping d now) (send_ping-IsSound held d now w))
            (λ e u.
              then_phase-IsOn held
                (process_commands is_canceled now e.shared.limits.max_queued_commands e)
                unless_overloaded
                (process_commands-IsOn held e.shared.limits.max_queued_commands e u)
                (unless_overloaded-IsOn held)))
