-- ===== src/Rpc/Examples.antt =====
-- Calls over byte strings in memory, which deliver one byte at a time, and the theorems at them.
use nexigon.Base
use nexigon.Base.{
  ℕ, zero, suc, ◌+◌, ◌≤◌, ◌≡◌, refl, ap, Option, some, none, true, List, [], ◌∷◌, ◌++◌, arith,
  length, take, drop, take-append, drop-append, length-take, leb, if◌then◌else◌, le→leb,
  length-append, Bool-cases, inl, inr, false, to_be_bytes,
}
use nexigon.Rpc.{Source, Sink, Timed, done, ok, max_input_size, max_output_size}
use nexigon.Rpc.Pool.{
  WeightedPool, PoolStep, begins, gets_actor, gets_global, shrinks, drops, new_pool, run_pool,
}
use nexigon.Rpc.Bodies.{read_body, discard_body}
use nexigon.Rpc.Streams.{SourceLaws, SinkLaws, Bounded, Gives}
use nexigon.Rpc.Reading.{IsBody, read_body-IsBody, forget, discard_body-read_body}
use nexigon.Rpc.Serializing.{bytes, serialize_bounded, serialize_bounded_lem}
use nexigon.Rpc.Messages.{Host, read_action, send_request, prepare_request, prepare_result}
use nexigon.Rpc.Limits.{Ends, IsAction, read_action-IsAction}
use nexigon.Rpc.Preparing.{IsPrepared, prepare-serialize_bounded}
use nexigon.Rpc.Transfer.{send_request-read_action}

abbrev read_all : List ℕ → ℕ → List ℕ × Option (List ℕ)
read_all bs n = if leb n (length bs) then (drop n bs, some (take n bs)) else ([], none)

abbrev read_one : List ℕ → ℕ → List ℕ × Timed (List ℕ)
read_one bs zero = (bs, done [])
read_one [] (suc n) = ([], done [])
read_one (b ∷ bs) (suc n) = (bs, done (b ∷ []))

abbrev memory_source : Source (List ℕ)
memory_source = record { read_exact = read_all; read = read_one }

abbrev memory_sink : Sink (List ℕ)
memory_sink = record { write_all = λ w bs. (w ++ bs, done tt); flush = λ w. (w, done tt) }

read_all-prefix :
    (r bs rest : List ℕ)
    → r ≡ bs ++ rest
    → ((read_all r (length bs)).1 ≡ some bs) × ((read_all r (length bs)).0 ≡ rest)
read_all-prefix r bs rest h =
    rw (h, le→leb (length bs) (length (bs ++ rest)) (omega (arith, length-append bs rest)))
      (ap some (take-append bs rest), drop-append bs rest)

read_one-first :
    (r bs : List ℕ) (n : ℕ)
    → 1 ≤ n
    → 1 ≤ length bs
    → r ≡ bs
    → (k : ℕ) × (1 ≤ k)
      × (k ≤ n)
      × (k ≤ length bs)
      × ((read_one r n).1 ≡ done (take k bs))
      × ((read_one r n).0 ≡ drop k bs)
read_one-first r bs zero h k e = absurd (omega arith)
read_one-first r [] (suc n) h k e = absurd (omega arith)
read_one-first r (b ∷ bs) (suc n) h k e =
    rw e (1, omega arith, omega arith, omega arith, refl, refl)

abbrev memory_source_laws : SourceLaws memory_source
memory_source_laws = record {
  Holds = λ r bs. r ≡ bs;
  reads_exactly = read_all-prefix;
  reads = read_one-first;
}

abbrev memory_sink_laws : SinkLaws memory_sink
memory_sink_laws = record { written = λ w. w; appends = λ w bs h. refl; keeps = λ w. refl }

read_one-fills : (r : List ℕ) (n : ℕ) (bs : List ℕ) → (read_one r n).1 ≡ done bs → length bs ≤ n
read_one-fills r zero bs e =
    let same : [] ≡ bs = cc in let none_read = ap length same in omega arith
read_one-fills [] (suc n) bs e =
    let same : [] ≡ bs = cc in let none_read = ap length same in omega arith
read_one-fills (b ∷ r) (suc n) bs e =
    let same : b ∷ [] ≡ bs = cc in let one_read = ap length same in omega arith

read_all-fills : (r : List ℕ) (n : ℕ) (bs : List ℕ) → (read_all r n).1 ≡ some bs → length bs ≡ n
read_all-fills r n bs e = elim (Bool-cases (leb n (length r))) [
  | inl all ↦
      let taken : some (take n r) ≡ some bs = rw all at e in
      let same : take n r ≡ bs = cc in
      let size = length-take n r (ground arith) in let eq = ap length same in omega arith
  | inr short ↦ let no : none ≡ some bs = rw short at e in absurd (cc)
]

abbrev memory_bounded : Bounded memory_source
memory_bounded = record { fills = read_one-fills; fills_all = read_all-fills }

abbrev host : Host
host = record { is_utf8 = λ t. true; reserve = λ a b. true; grants = λ n. true; overdue = false }

-- The call `a` with the input `1`, and the byte 7 behind it.
abbrev call : List ℕ
call = 0 ∷ 1 ∷ 97 ∷ 0 ∷ 0 ∷ 0 ∷ 1 ∷ 49 ∷ 7 ∷ []

read_body-IsBody_example : IsBody 2 (read_body memory_source (λ a b. true) (1 ∷ 2 ∷ 3 ∷ []) 2).1
read_body-IsBody_example =
    read_body-IsBody memory_source (λ a b. true) memory_bounded (1 ∷ 2 ∷ 3 ∷ []) 2

discard_body-read_body_example :
    discard_body memory_source (1 ∷ 2 ∷ 3 ∷ []) 2
    ≡ forget (read_body memory_source (λ a b. true) (1 ∷ 2 ∷ 3 ∷ []) 2)
discard_body-read_body_example = discard_body-read_body memory_source (1 ∷ 2 ∷ 3 ∷ []) 2

send_request-read_action_example :
    Gives memory_source_laws
      (read_action memory_source host call)
      (ok (record { action_name = 97 ∷ []; input = 49 ∷ []; permit = 1 }))
      (7 ∷ [])
unfolding send_request to_be_bytes
send_request-read_action_example =
    send_request-read_action memory_sink_laws memory_source_laws host (λ a b. refl) [] call
      (97 ∷ []) (49 ∷ []) (0 ∷ 1 ∷ 97 ∷ 0 ∷ 0 ∷ 0 ∷ 1 ∷ 49 ∷ []) (7 ∷ []) (omega arith)
      (omega arith) refl refl refl refl refl

read_action-IsAction_example : Ends (IsAction host) (read_action memory_source host call).1
read_action-IsAction_example = read_action-IsAction memory_source host memory_bounded call

prepare-serialize_bounded_example :
    Ends (IsPrepared max_input_size) (
      prepare_request host
        (97 ∷ [])
        (serialize_bounded host.reserve ((49 ∷ []) ∷ (50 ∷ []) ∷ []) true max_input_size))
    × Ends (IsPrepared max_output_size) (
        prepare_result host
          (serialize_bounded host.reserve ((49 ∷ []) ∷ (50 ∷ []) ∷ []) true max_output_size))
prepare-serialize_bounded_example =
    prepare-serialize_bounded host (97 ∷ []) ((49 ∷ []) ∷ (50 ∷ []) ∷ []) true

serialize_bounded_lem_example :
    serialize_bounded (λ a b. true) ((49 ∷ []) ∷ (50 ∷ []) ∷ []) true 2 ≡ bytes (49 ∷ 50 ∷ [])
serialize_bounded_lem_example =
    serialize_bounded_lem ((49 ∷ []) ∷ (50 ∷ []) ∷ []) true 2 (omega arith)

-- Two tasks of one actor; the second one waits until the first one has shrunk its permit, and is then dropped.
abbrev steps : List PoolStep
steps =
    begins (97 ∷ []) 5
    ∷ begins (97 ∷ []) 5
    ∷ gets_actor 1 5
    ∷ gets_global 1 5
    ∷ gets_actor 0 3
    ∷ shrinks 1 2
    ∷ gets_actor 0 2
    ∷ drops 0
    ∷ []

abbrev after_steps : WeightedPool
after_steps = elim (run_pool (new_pool 20 8) steps) [ none ↦ new_pool 20 8 | some p ↦ p ]

steps-free : (after_steps.global ≡ 18) × (after_steps.available 1 ≡ 6)
unfolding run_pool new_pool nexigon.Base.same_bytes
steps-free = (refl, refl)
