-- ===== src/Rpc/Pool/Conservation.antt =====
-- crates/libs/nexigon-rpc/src/lib.rs: the permits over the steps of a pool.
use nexigon.Base.{ℕ, ◌+◌, Option, none, some, Bool, not, ◌==◌, ◌&&◌, leb}
use nexigon.Rpc.Pool.{Ticket, WeightedPool}
use nexigon.Rpc.Pool.Invariant.{IsConserved}

abbrev gets_actor_now : WeightedPool → Ticket → ℕ → Bool
gets_actor_now p t n = leb (t.actor_bytes + n) t.wanted && leb n (p.available t.of_actor)

abbrev gets_global_now : WeightedPool → Ticket → ℕ → Bool
gets_global_now p t n =
    ((t.actor_bytes == t.wanted) && leb (t.global_bytes + n) t.wanted) && leb n p.global

abbrev still_waits : Ticket → Bool
still_waits t = not ((t.actor_bytes == t.wanted) && (t.global_bytes == t.wanted))

module _ (g a : ℕ) where
  -- Of a shrink, whose `expect` may fail.
  abbrev KeepsConserved : Option WeightedPool → Type 0
  KeepsConserved none = Unit {0}
  KeepsConserved (some p) = IsConserved g a p
