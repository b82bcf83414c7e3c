-- ===== src/Rpc/Pool/Actors.antt =====
-- crates/libs/nexigon-rpc/src/lib.rs: the semaphores of the tracked actors, and in which order a task gets its
-- permits.
use nexigon.Base.{
  ℕ, zero, suc, ◌≤◌, ◌≡◌, ◌≢◌, List, [], ◌∷◌, some, All, same_bytes, arith, either_way, get_elem?,
  set, subst, ◌<◌,
}
use nexigon.Rpc.Pool.{Actor, Ticket, remove_ticket, retain_alive, is_alive, insert_actor}
use nexigon.Rpc.Pool.Sums.{AllBelow}

-- No actor has the semaphore `s`.
abbrev pub Without : ℕ → List Actor → Type 0
Without s actors = All (λ a. a.semaphore ≢ s) actors

-- Each actor has a semaphore of its own, and none has the shared one.
unfoldable pub AllApart : List Actor → Type 0
AllApart [] = Unit {0}
AllApart (a ∷ actors) = (1 ≤ a.semaphore) × Without a.semaphore actors × AllApart actors

retain_alive-Without :
    (s : ℕ) (ts : List Ticket) (actors : List Actor)
    → Without s actors
    → Without s (retain_alive ts actors)
unfolding retain_alive
retain_alive-Without s ts [] k = k
retain_alive-Without s ts (a ∷ actors) k =
    either_way (Without s) (is_alive a.semaphore ts) (a ∷ retain_alive ts actors)
      (retain_alive ts actors) (k.0, retain_alive-Without s ts actors k.1)
      (retain_alive-Without s ts actors k.1)

pub retain_alive-AllApart :
    (ts : List Ticket) (actors : List Actor) → AllApart actors → AllApart (retain_alive ts actors)
unfolding retain_alive AllApart
retain_alive-AllApart ts [] k = k
retain_alive-AllApart ts (a ∷ actors) (own, without, k) =
    either_way AllApart (is_alive a.semaphore ts) (a ∷ retain_alive ts actors)
      (retain_alive ts actors)
      (own, retain_alive-Without a.semaphore ts actors without, retain_alive-AllApart ts actors k)
      (retain_alive-AllApart ts actors k)

-- A semaphore that is not yet used is no actor's.
below-Without : (n s : ℕ) (actors : List Actor) → n ≤ s → AllBelow n actors → Without s actors
below-Without n s [] h k = tt
below-Without n s (a ∷ actors) h k =
    (λ same. let below = k.0 in omega arith, below-Without n s actors h k.1)

insert_actor-Without :
    (key : List ℕ) (s u : ℕ) (actors : List Actor)
    → s ≢ u
    → Without u actors
    → Without u (insert_actor key s actors)
unfolding insert_actor
insert_actor-Without key s u [] h k = (h, tt)
insert_actor-Without key s u (a ∷ actors) h k =
    either_way (Without u) (same_bytes key a.actor_key) _ _ (h, k.1)
      (k.0, insert_actor-Without key s u actors h k.1)

pub insert_actor-AllApart :
    (n : ℕ) (key : List ℕ) (actors : List Actor)
    → 1 ≤ n
    → AllBelow n actors
    → AllApart actors
    → AllApart (insert_actor key n actors)
unfolding insert_actor AllApart
insert_actor-AllApart n key [] h b k = (h, tt, tt)
insert_actor-AllApart n key (a ∷ actors) h (below, b) (own, without, k) =
    either_way AllApart (same_bytes key a.actor_key) _ _
      (h, below-Without n n actors (omega arith) b, k)
      (
        own,
        insert_actor-Without key n a.semaphore actors (λ same. omega arith) without,
        insert_actor-AllApart n key actors h b k,
      )

-- A task gets no more than it wants, and global permits only when it has all of its actor's.
abbrev pub InOrder : Ticket → Type 0
InOrder t =
    (t.actor_bytes ≤ t.wanted)
    × (t.global_bytes ≤ t.wanted)
    × (0 < t.global_bytes → t.actor_bytes ≡ t.wanted)

abbrev pub AllInOrder : List Ticket → Type 0
AllInOrder ts = All InOrder ts

pub set-AllInOrder :
    (ts : List Ticket) (i : ℕ) (u : Ticket) → InOrder u → AllInOrder ts → AllInOrder (set ts i u)
set-AllInOrder [] i u h k = k
set-AllInOrder (t ∷ ts) zero u h k = (h, k.1)
set-AllInOrder (t ∷ ts) (suc i) u h k = (k.0, set-AllInOrder ts i u h k.1)

pub remove_ticket-AllInOrder :
    (ts : List Ticket) (i : ℕ) → AllInOrder ts → AllInOrder (remove_ticket ts i)
unfolding remove_ticket
remove_ticket-AllInOrder [] i k = k
remove_ticket-AllInOrder (t ∷ ts) zero k = k.1
remove_ticket-AllInOrder (t ∷ ts) (suc i) k = (k.0, remove_ticket-AllInOrder ts i k.1)

pub get_elem?-InOrder :
    (ts : List Ticket) (i : ℕ) (t : Ticket) → get_elem? ts i ≡ some t → AllInOrder ts → InOrder t
get_elem?-InOrder [] i t e k = absurd (cc)
get_elem?-InOrder (x ∷ ts) zero t e k = let same : x ≡ t = cc in subst InOrder same k.0
get_elem?-InOrder (x ∷ ts) (suc i) t e k = get_elem?-InOrder ts i t e k.1
