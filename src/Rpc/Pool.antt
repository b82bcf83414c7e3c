-- ===== src/Rpc/Pool.antt =====
-- crates/libs/nexigon-rpc/src/lib.rs: `WeightedPool` and `MemoryPermit`, as steps of tasks. A semaphore is a
-- number, 0 that of the shared overflow budget, and lives as long as a ticket has it: a ticket is a task in
-- `acquire` or the permit that it got. A semaphore assigns free permits to a task that waits in parts and in
-- an order of its own, first come, first served: here any part may go to any task, at any time.
pub mod Sums
pub mod Actors
pub mod Invariant
pub mod Conservation
use nexigon.Base.{
  ℕ, suc, ◌+◌, ◌-◌, List, [], ◌∷◌, ◌++◌, Option, none, some, Bool, true, false, ◌&&◌, ltb, leb,
  ◌==◌, if◌then◌else◌, if_some, length, get_elem?, set, same_bytes, zero, not,
}

abbrev pub stale_actor_cleanup_threshold : ℕ
stale_actor_cleanup_threshold = 64

abbrev pub max_tracked_actors : ℕ
max_tracked_actors = 4096

pub record Actor : Type 0 where
  pub actor_key : List ℕ
  pub semaphore : ℕ

-- What a task has of both semaphores, of the `wanted` bytes.
pub record Ticket : Type 0 where
  pub of_actor : ℕ
  pub wanted : ℕ
  pub actor_bytes : ℕ
  pub global_bytes : ℕ

-- `available` has the free permits of each semaphore of an actor, and `next` is a number not yet used.
pub record WeightedPool : Type 0 where
  pub global_capacity : ℕ
  pub actor_capacity : ℕ
  pub global : ℕ
  pub available : ℕ → ℕ
  pub next : ℕ
  pub actors : List Actor
  pub tickets : List Ticket

unfoldable pub new_pool : ℕ → ℕ → WeightedPool
new_pool global_capacity actor_capacity = record {
  global_capacity = global_capacity;
  actor_capacity = actor_capacity;
  global = global_capacity;
  available = λ s. actor_capacity;
  next = 1;
  actors = [];
  tickets = [];
}

-- `strong_count() != 0`
unfoldable pub is_alive : ℕ → List Ticket → Bool
is_alive s [] = false
is_alive s (t ∷ ts) = let rest = is_alive s ts in if t.of_actor == s then true else rest

unfoldable pub retain_alive : List Ticket → List Actor → List Actor
unfolding is_alive
retain_alive ts [] = []
retain_alive ts (a ∷ actors) =
    let rest = retain_alive ts actors in if is_alive a.semaphore ts then a ∷ rest else rest

-- `actors.get(actor_key).and_then(Weak::upgrade)`
unfoldable pub upgrade : List Ticket → List ℕ → List Actor → Option ℕ
unfolding is_alive
upgrade ts key [] = none
upgrade ts key (a ∷ actors) =
    let rest = upgrade ts key actors in
    if same_bytes key a.actor_key
    then if is_alive a.semaphore ts then some a.semaphore else none
    else rest

unfoldable pub insert_actor : List ℕ → ℕ → List Actor → List Actor
insert_actor key s [] = record { actor_key = key; semaphore = s } ∷ []
insert_actor key s (a ∷ actors) =
    let rest = insert_actor key s actors in
    if same_bytes key a.actor_key
    then record { actor_key = key; semaphore = s } ∷ actors
    else a ∷ rest

abbrev pub with_available : ℕ → ℕ → (ℕ → ℕ) → ℕ → ℕ
with_available s n available t = if t == s then n else available t

abbrev pub add_ticket : WeightedPool → ℕ → ℕ → WeightedPool
add_ticket p s bytes = record p {
  tickets = record { of_actor = s; wanted = bytes; actor_bytes = 0; global_bytes = 0 } ∷ p.tickets;
}

abbrev pub cleaned : WeightedPool → WeightedPool
cleaned p = record p {
  actors =
      if leb stale_actor_cleanup_threshold (length p.actors)
      then retain_alive p.tickets p.actors
      else p.actors;
}

abbrev pub new_actor : WeightedPool → List ℕ → ℕ → WeightedPool
new_actor p key bytes =
    add_ticket
      (record p {
        available = with_available p.next p.actor_capacity p.available;
        next = suc p.next;
        actors = insert_actor key p.next p.actors;
      })
      p.next bytes

-- `acquire` up to its first wait.
unfoldable pub begin_acquire : WeightedPool → List ℕ → ℕ → WeightedPool
unfolding retain_alive upgrade insert_actor
begin_acquire p key bytes =
    if bytes == 0
    then p
    else if_some (upgrade (cleaned p).tickets key (cleaned p).actors)
        (if leb max_tracked_actors (length (cleaned p).actors)
          then add_ticket (cleaned p) 0 bytes
          else new_actor (cleaned p) key bytes)
        (λ s. add_ticket (cleaned p) s bytes)

-- A part of what a task waits for is assigned to it, first of the actor's permits and, when it has all of these,
-- of the global ones. The wait is over with the last part.
unfoldable pub take_actor : WeightedPool → ℕ → ℕ → WeightedPool
take_actor p i n = if_some (get_elem? p.tickets i) p (λ t.
    if leb (t.actor_bytes + n) t.wanted && leb n (p.available t.of_actor)
    then record p {
      available = with_available t.of_actor (p.available t.of_actor - n) p.available;
      tickets = set p.tickets i (record t { actor_bytes = t.actor_bytes + n });
    }
    else p)

unfoldable pub take_global : WeightedPool → ℕ → ℕ → WeightedPool
take_global p i n = if_some (get_elem? p.tickets i) p (λ t.
    if ((t.actor_bytes == t.wanted) && leb (t.global_bytes + n) t.wanted) && leb n p.global
    then record p {
      global = p.global - n;
      tickets = set p.tickets i (record t { global_bytes = t.global_bytes + n });
    }
    else p)

-- The drop of a permit, or of a task that still waits: what it has goes back.
unfoldable pub remove_ticket : List Ticket → ℕ → List Ticket
remove_ticket [] i = []
remove_ticket (t ∷ ts) zero = ts
remove_ticket (t ∷ ts) (suc i) = t ∷ remove_ticket ts i

abbrev pub give_back : WeightedPool → Ticket → List Ticket → WeightedPool
give_back p t rest = record p {
  global = p.global + t.global_bytes;
  available = with_available t.of_actor (p.available t.of_actor + t.actor_bytes) p.available;
  tickets = rest;
}

unfoldable pub drop_ticket : WeightedPool → ℕ → WeightedPool
unfolding remove_ticket
drop_ticket p i = if_some (get_elem? p.tickets i) p (λ t. give_back p t (remove_ticket p.tickets i))

-- `MemoryPermit::shrink_to`, which a task that still waits has no permit to call: its `expect` fails if more is
-- asked for than the permit has.
unfoldable pub shrink_ticket : WeightedPool → ℕ → ℕ → Option WeightedPool
unfolding remove_ticket
shrink_ticket p i bytes = if_some (get_elem? p.tickets i) (some p) (λ t.
    if not ((t.actor_bytes == t.wanted) && (t.global_bytes == t.wanted))
    then some p
    else if bytes == 0
    then some (give_back p t (remove_ticket p.tickets i))
    else if ltb t.wanted bytes
    then none
    else some (record p {
      global = p.global + (t.global_bytes - bytes);
      available =
          with_available t.of_actor (p.available t.of_actor + (t.actor_bytes - bytes)) p.available;
      tickets =
          set p.tickets i (record t { wanted = bytes; actor_bytes = bytes; global_bytes = bytes });
    }))

-- What the tasks do, in any order.
pub data PoolStep : Type 0 where
  begins : (key : List ℕ) (bytes : ℕ) → PoolStep
  gets_actor : (i n : ℕ) → PoolStep
  gets_global : (i n : ℕ) → PoolStep
  shrinks : (i bytes : ℕ) → PoolStep
  drops : (i : ℕ) → PoolStep

unfoldable pub pool_step : WeightedPool → PoolStep → Option WeightedPool
unfolding begin_acquire take_actor take_global drop_ticket shrink_ticket
pool_step p (begins key bytes) = some (begin_acquire p key bytes)
pool_step p (gets_actor i n) = some (take_actor p i n)
pool_step p (gets_global i n) = some (take_global p i n)
pool_step p (shrinks i bytes) = shrink_ticket p i bytes
pool_step p (drops i) = some (drop_ticket p i)

unfoldable pub run_pool : WeightedPool → List PoolStep → Option WeightedPool
unfolding pool_step
run_pool p [] = some p
run_pool p (s ∷ steps) = if_some (pool_step p s) none (λ q. run_pool q steps)
