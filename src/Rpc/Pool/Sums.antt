-- ===== src/Rpc/Pool/Sums.antt =====
-- What the tickets of a pool hold together.
use nexigon.Base.{
  ℕ, zero, suc, ◌+◌, ◌<◌, ◌≤◌, ◌≡◌, refl, List, [], ◌∷◌, Option, some, ◌==◌, if◌then◌else◌, length,
  get_elem?, set, All, same_bytes, arith, either_way,
}
use nexigon.Rpc.Pool.{Actor, Ticket, remove_ticket, retain_alive, is_alive, insert_actor, upgrade}

abbrev pub sum : (Ticket → ℕ) → List Ticket → ℕ
sum f [] = 0
sum f (t ∷ ts) = f t + sum f ts

-- What a ticket has of a semaphore.
abbrev pub share : ℕ → Ticket → ℕ
share s t = if t.of_actor == s then t.actor_bytes else 0

pub sum-set :
    (f : Ticket → ℕ) (ts : List Ticket) (i : ℕ) (t u : Ticket)
    → get_elem? ts i ≡ some t
    → sum f (set ts i u) + f t ≡ sum f ts + f u
sum-set f [] i t u e = absurd (cc)
sum-set f (x ∷ ts) zero t u e = let same : f x ≡ f t = cc in omega arith
sum-set f (x ∷ ts) (suc i) t u e = let rest = sum-set f ts i t u e in omega arith

pub sum-remove_ticket :
    (f : Ticket → ℕ) (ts : List Ticket) (i : ℕ) (t : Ticket)
    → get_elem? ts i ≡ some t
    → sum f (remove_ticket ts i) + f t ≡ sum f ts
unfolding remove_ticket
sum-remove_ticket f [] i t e = absurd (cc)
sum-remove_ticket f (x ∷ ts) zero t e = let same : f x ≡ f t = cc in omega arith
sum-remove_ticket f (x ∷ ts) (suc i) t e = let rest = sum-remove_ticket f ts i t e in omega arith

-- The semaphores of tickets and of actors are below `n`.
abbrev pub Below : ℕ → List Ticket → Type 0
Below n ts = All (λ t. t.of_actor < n) ts

abbrev pub AllBelow : ℕ → List Actor → Type 0
AllBelow n actors = All (λ a. a.semaphore < n) actors

pub set-Below :
    (n : ℕ) (ts : List Ticket) (i : ℕ) (u : Ticket)
    → u.of_actor < n
    → Below n ts
    → Below n (set ts i u)
set-Below n [] i u h k = k
set-Below n (t ∷ ts) zero u h k = (h, k.1)
set-Below n (t ∷ ts) (suc i) u h k = (k.0, set-Below n ts i u h k.1)

pub remove_ticket-Below :
    (n : ℕ) (ts : List Ticket) (i : ℕ) → Below n ts → Below n (remove_ticket ts i)
unfolding remove_ticket
remove_ticket-Below n [] i k = k
remove_ticket-Below n (t ∷ ts) zero k = k.1
remove_ticket-Below n (t ∷ ts) (suc i) k = (k.0, remove_ticket-Below n ts i k.1)

pub get_elem?-Below :
    (n : ℕ) (ts : List Ticket) (i : ℕ) (t : Ticket)
    → get_elem? ts i ≡ some t
    → Below n ts
    → t.of_actor < n
get_elem?-Below n [] i t e k = absurd (cc)
get_elem?-Below n (x ∷ ts) zero t e k =
    let same : x.of_actor ≡ t.of_actor = cc in let h = k.0 in omega arith
get_elem?-Below n (x ∷ ts) (suc i) t e k = get_elem?-Below n ts i t e k.1

pub Below-mono : (n m : ℕ) (ts : List Ticket) → n ≤ m → Below n ts → Below m ts
Below-mono n m [] h k = tt
Below-mono n m (t ∷ ts) h k = (let below = k.0 in omega arith, Below-mono n m ts h k.1)

-- Nothing is held of a semaphore that is not yet used.
pub sum-share_fresh : (n m : ℕ) (ts : List Ticket) → n ≤ m → Below n ts → sum (share m) ts ≡ 0
sum-share_fresh n m [] h k = refl
sum-share_fresh n m (t ∷ ts) h k =
    let rest = sum-share_fresh n m ts h k.1 in let below = k.0 in ground arith

pub retain_alive-AllBelow :
    (n : ℕ) (ts : List Ticket) (actors : List Actor)
    → AllBelow n actors
    → AllBelow n (retain_alive ts actors)
unfolding retain_alive
retain_alive-AllBelow n ts [] k = k
retain_alive-AllBelow n ts (a ∷ actors) k =
    either_way (AllBelow n) (is_alive a.semaphore ts) (a ∷ retain_alive ts actors)
      (retain_alive ts actors) (k.0, retain_alive-AllBelow n ts actors k.1)
      (retain_alive-AllBelow n ts actors k.1)

pub length-retain_alive :
    (ts : List Ticket) (actors : List Actor) → length (retain_alive ts actors) ≤ length actors
unfolding retain_alive
length-retain_alive ts [] = omega arith
length-retain_alive ts (a ∷ actors) =
    let rest = length-retain_alive ts actors in
    either_way (λ (xs : List Actor). length xs ≤ suc (length actors)) (is_alive a.semaphore ts) _ _
      (omega arith) (omega arith)

AllBelow-mono : (n m : ℕ) (actors : List Actor) → n ≤ m → AllBelow n actors → AllBelow m actors
AllBelow-mono n m [] h k = tt
AllBelow-mono n m (a ∷ actors) h k =
    (let below = k.0 in omega arith, AllBelow-mono n m actors h k.1)

pub insert_actor-AllBelow :
    (n m : ℕ) (key : List ℕ) (s : ℕ) (actors : List Actor)
    → n ≤ m
    → s < m
    → AllBelow n actors
    → AllBelow m (insert_actor key s actors)
unfolding insert_actor
insert_actor-AllBelow n m key s [] h k j = (k, tt)
insert_actor-AllBelow n m key s (a ∷ actors) h k j =
    let first : a.semaphore < m = let below = j.0 in omega arith in
    either_way (AllBelow m) (same_bytes key a.actor_key) _ _ (k, AllBelow-mono n m actors h j.1)
      (first, insert_actor-AllBelow n m key s actors h k j.1)

pub length-insert_actor :
    (key : List ℕ) (s : ℕ) (actors : List Actor)
    → length (insert_actor key s actors) ≤ suc (length actors)
unfolding insert_actor
length-insert_actor key s [] = omega arith
length-insert_actor key s (a ∷ actors) =
    let rest = length-insert_actor key s actors in
    either_way (λ (xs : List Actor). length xs ≤ suc (suc (length actors)))
      (same_bytes key a.actor_key) _ _ (omega arith) (omega arith)

abbrev pub IsBelow : ℕ → Option ℕ → Type 0
IsBelow n o = (s : ℕ) → o ≡ some s → s < n

pub upgrade-IsBelow :
    (n : ℕ) (ts : List Ticket) (key : List ℕ) (actors : List Actor)
    → AllBelow n actors
    → IsBelow n (upgrade ts key actors)
unfolding upgrade
upgrade-IsBelow n ts key [] k = λ s e. absurd (cc)
upgrade-IsBelow n ts key (a ∷ actors) k =
    either_way (IsBelow n) (same_bytes key a.actor_key) _ _
      (either_way (IsBelow n) (is_alive a.semaphore ts) _ _
        (λ s e. let same : a.semaphore ≡ s = cc in let below = k.0 in omega arith)
        (λ s e. absurd (cc)))
      (upgrade-IsBelow n ts key actors k.1)
