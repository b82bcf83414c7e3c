-- ===== src/Rpc/Pool/Invariant.antt =====
-- crates/libs/nexigon-rpc/src/lib.rs: what a pool always has, and the begin of
-- an `acquire`.
use nexigon.Base.{
  ℕ, suc, ◌+◌, ◌<◌, ◌≤◌, ◌≡◌, refl, List, ◌==◌, leb, if_some_way, either_way, then_way, else_way,
  Bool-cases, inl, inr, length, arith,
}
use nexigon.Rpc.Pool.{
  Actor, WeightedPool, new_pool, begin_acquire, cleaned, add_ticket, new_actor, upgrade,
  max_tracked_actors, stale_actor_cleanup_threshold,
}
use nexigon.Rpc.Pool.Actors.{AllApart, AllInOrder, retain_alive-AllApart, insert_actor-AllApart}
use nexigon.Rpc.Pool.Sums.{
  sum, share, Below, AllBelow, Below-mono, sum-share_fresh, retain_alive-AllBelow,
  length-retain_alive, insert_actor-AllBelow, length-insert_actor, upgrade-IsBelow,
}

-- What a pool with the capacities `g` and `a` always has.
pub record IsConserved (g a : ℕ) (p : WeightedPool) : Type 0 where
  pub capacity : p.actor_capacity ≡ a
  pub globally : p.global + sum (λ t. t.global_bytes) p.tickets ≡ g
  pub by_actor : (s : ℕ) → s < p.next → p.available s + sum (share s) p.tickets ≡ a
  pub used : Below p.next p.tickets
  pub known : AllBelow p.next p.actors
  pub tracked : length p.actors ≤ max_tracked_actors
  pub started : 1 ≤ p.next
  pub apart : AllApart p.actors
  pub in_order : AllInOrder p.tickets

pub new_pool-IsConserved : (g a : ℕ) → IsConserved g a (new_pool g a)
unfolding new_pool
new_pool-IsConserved g a = record {
  capacity = refl;
  globally = omega arith;
  by_actor = λ s h. omega arith;
  used = tt;
  known = tt;
  tracked = omega arith;
  started = omega arith;
  apart = unfold AllApart in tt;
  in_order = tt;
}

module _ (g a : ℕ) where
  cleaned-IsConserved : (p : WeightedPool) → IsConserved g a p → IsConserved g a (cleaned p)
  cleaned-IsConserved p c = record {
    capacity = c.capacity;
    globally = c.globally;
    by_actor = c.by_actor;
    used = c.used;
    known =
        either_way (AllBelow p.next) (leb stale_actor_cleanup_threshold (length p.actors)) _ _
          (retain_alive-AllBelow p.next p.tickets p.actors c.known) c.known;
    tracked =
        either_way (λ (xs : List Actor). length xs ≤ max_tracked_actors)
          (leb stale_actor_cleanup_threshold (length p.actors)) _ _
          (let less = length-retain_alive p.tickets p.actors in let h = c.tracked in omega arith)
          c.tracked;
    started = c.started;
    apart =
        either_way AllApart (leb stale_actor_cleanup_threshold (length p.actors)) _ _
          (retain_alive-AllApart p.tickets p.actors c.apart) c.apart;
    in_order = c.in_order;
  }

  add_ticket-IsConserved :
      (p : WeightedPool) (s bytes : ℕ)
      → s < p.next
      → IsConserved g a p
      → IsConserved g a (add_ticket p s bytes)
  add_ticket-IsConserved p s bytes h c = record {
    capacity = c.capacity;
    globally = let e = c.globally in omega arith;
    by_actor = λ u below. let e = c.by_actor u below in ground arith;
    used = (h, c.used);
    known = c.known;
    tracked = c.tracked;
    started = c.started;
    apart = c.apart;
    in_order = ((omega arith, omega arith, λ h. absurd (omega arith)), c.in_order);
  }

  new_actor-IsConserved :
      (p : WeightedPool) (key : List ℕ) (bytes : ℕ)
      → length p.actors < max_tracked_actors
      → IsConserved g a p
      → IsConserved g a (new_actor p key bytes)
  new_actor-IsConserved p key bytes h c = record {
    capacity = c.capacity;
    globally = let e = c.globally in omega arith;
    by_actor = λ u below. elim (Bool-cases (u == p.next)) [
      | inl fresh ↦
          let none_held = sum-share_fresh p.next u p.tickets (ground arith) c.used in
          let cap = c.capacity in ground arith
      | inr older ↦ let e = c.by_actor u (ground arith) in ground arith
    ];
    used = (omega arith, Below-mono p.next (suc p.next) p.tickets (omega arith) c.used);
    known =
        insert_actor-AllBelow p.next (suc p.next) key p.next p.actors (omega arith) (omega arith)
          c.known;
    tracked = let more = length-insert_actor key p.next p.actors in omega arith;
    started = omega arith;
    apart = insert_actor-AllApart p.next key p.actors c.started c.known c.apart;
    in_order = ((omega arith, omega arith, λ h. absurd (omega arith)), c.in_order);
  }

  pub begin_acquire-IsConserved :
      (p : WeightedPool) (key : List ℕ) (bytes : ℕ)
      → IsConserved g a p
      → IsConserved g a (begin_acquire p key bytes)
  unfolding begin_acquire
  begin_acquire-IsConserved p key bytes c =
      let d = cleaned-IsConserved p c in
      either_way (IsConserved g a) (bytes == 0) _ _ c (
        if_some_way (IsConserved g a) (upgrade (cleaned p).tickets key (cleaned p).actors) _ _
          (elim (Bool-cases (leb max_tracked_actors (length ((cleaned p).actors)))) [
            | inl full ↦
                then_way (IsConserved g a) (leb max_tracked_actors (length ((cleaned p).actors))) _
                  _ full
                  (add_ticket-IsConserved (cleaned p) 0 bytes (let h = c.started in omega arith) d)
            | inr room ↦
                else_way (IsConserved g a) (leb max_tracked_actors (length ((cleaned p).actors))) _
                  _ room (new_actor-IsConserved (cleaned p) key bytes (ground arith) d)
          ])
          (λ s found.
            add_ticket-IsConserved (cleaned p) s bytes
              (upgrade-IsBelow p.next p.tickets key ((cleaned p).actors) d.known s found) d))
