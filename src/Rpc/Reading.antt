-- ===== src/Rpc/Reading.antt =====
-- crates/libs/nexigon-rpc/src/lib.rs: the bodies that `read_body` gives and that `discard_body` takes.
use nexigon.Base.{
  ℕ, zero, suc, ◌+◌, ◌-◌, ◌≤◌, ◌≡◌, refl, sym, List, [], ◌∷◌, ◌++◌, Bool, true, false, ltb, length,
  length-append, arith, either_way, then_way, else_way, Bool-cases, inl, inr,
}
use nexigon.Rpc.{Source, Timed, done, broken, late, Ending, ok, err, exhausted, panics}
use nexigon.Rpc.Bodies.{
  BodyReadError, on_chunk, next_size, read_body_from, read_body, discard_body_from, discard_body,
}
use nexigon.Rpc.Streams.{Bounded}

-- The bytes of a body of `size` bytes, or an error.
abbrev pub IsBody {ℓ} : {E : Type ℓ} → ℕ → Ending E (List ℕ) → Type 0
IsBody size (ok body) = length body ≡ size
IsBody size (err e) = Unit {0}
IsBody size exhausted = ⊥
IsBody size panics = ⊥

abbrev Reads {ℓ} : {R : Type ℓ} → ℕ → R × Ending BodyReadError (List ℕ) → Type 0
Reads size p = IsBody size p.1

on_chunk-Reads {ℓ} :
    {R : Type ℓ} (size : ℕ) (p : R × Timed (List ℕ))
    (k : R → List ℕ → R × Ending BodyReadError (List ℕ))
    → ((b : ℕ) (bs : List ℕ) → p.1 ≡ done (b ∷ bs) → Reads size (k p.0 (b ∷ bs)))
    → Reads size (on_chunk p k)
on_chunk-Reads size (r, done []) k f = tt
on_chunk-Reads size (r, done (b ∷ bs)) k f = f b bs refl
on_chunk-Reads size (r, broken) k f = tt
on_chunk-Reads size (r, late) k f = tt

module _ {ℓ} {R : Type ℓ} (source : Source R) (reserve : ℕ → ℕ → Bool)
    (bounded : Bounded source) where
  read_body_from-Reads :
      (fuel size : ℕ) (body : List ℕ) (r : R)
      → length body ≤ size
      → size ≤ fuel + length body
      → Reads size (read_body_from source reserve fuel size body r)
  unfolding read_body_from
  read_body_from-Reads zero size body r h k =
      let full : ltb (length body) size ≡ false = ground arith in
      else_way (Reads {R = R} size) (ltb (length body) size) _ _ full (omega arith)
  read_body_from-Reads (suc fuel) size body r h k = elim (Bool-cases (ltb (length body) size)) [
    | inl short ↦ then_way (Reads {R = R} size) (ltb (length body) size) _ _ short (
        either_way (Reads {R = R} size) (reserve (length body) (next_size size (length body))) _ _
          (on_chunk-Reads size (source.read r (next_size size (length body))) _ (λ b bs e.
            let fits = bounded.fills r (next_size size (length body)) (b ∷ bs) e in
            let sum = length-append body (b ∷ bs) in
            let room : next_size size (length body) ≤ size - length body = ground arith in
            read_body_from-Reads fuel size (body ++ b ∷ bs) _ (omega arith) (omega arith)))
          tt)
    | inr full ↦ else_way (Reads {R = R} size) (ltb (length body) size) _ _ full (ground arith)
  ]

-- A read of a body ends, whatever the stream delivers: with exactly as many bytes as were announced, or with an
-- error. This needs only that a read fills no more than the buffer that it is given.
pub read_body-IsBody {ℓ} :
    {R : Type ℓ} (source : Source R) (reserve : ℕ → ℕ → Bool) (bounded : Bounded source) (r : R)
    (size : ℕ)
    → IsBody size (read_body source reserve r size).1
unfolding read_body
read_body-IsBody source reserve bounded r size =
    read_body_from-Reads source reserve bounded size size [] r (omega arith) (omega arith)

-- What `read_body` gives, without its bytes.
abbrev pub forget {ℓ} :
    {R : Type ℓ} → R × Ending BodyReadError (List ℕ) → R × Ending BodyReadError (Unit {0})
forget (r, ok body) = (r, ok tt)
forget (r, err e) = (r, err e)
forget (r, exhausted) = (r, exhausted)
forget (r, panics) = (r, panics)

on_chunk-forget {ℓ} :
    {R : Type ℓ} (p : R × Timed (List ℕ)) (k : R → List ℕ → R × Ending BodyReadError (List ℕ))
    (j : R → List ℕ → R × Ending BodyReadError (Unit {0}))
    → ((r : R) (bs : List ℕ) → j r bs ≡ forget (k r bs))
    → on_chunk p j ≡ forget (on_chunk p k)
on_chunk-forget (r, done []) k j f = refl
on_chunk-forget (r, done (b ∷ bs)) k j f = f r (b ∷ bs)
on_chunk-forget (r, broken) k j f = refl
on_chunk-forget (r, late) k j f = refl

module _ {ℓ} {R : Type ℓ} (source : Source R) where
  discard_body_from-read_body_from :
      (fuel size : ℕ) (body : List ℕ) (r : R) (n : ℕ)
      → n ≡ length body
      → discard_body_from source fuel size n r
        ≡ forget (read_body_from source (λ a b. true) fuel size body r)
  unfolding discard_body_from read_body_from
  discard_body_from-read_body_from zero size body r n e =
      elim (Bool-cases (ltb (length body) size)) [
        | inl short ↦ rw (e, short) refl
        | inr full ↦ rw (e, full) refl
      ]
  discard_body_from-read_body_from (suc fuel) size body r n e =
      elim (Bool-cases (ltb (length body) size)) [
        | inl short ↦
            rw (e, short)
              (on_chunk-forget (source.read r (next_size size (length body))) _ _ (λ s bs.
                discard_body_from-read_body_from fuel size (body ++ bs) s (length body + length bs)
                  (sym (length-append body bs))))
        | inr full ↦ rw (e, full) refl
      ]

-- Discarding a body leaves the stream exactly where reading the body would, in whatever chunks it arrives, and
-- ends with the same error, if any. The next request is then framed as if the body had been read. Reading
-- is taken with an allocator that finds room.
pub discard_body-read_body {ℓ} :
    {R : Type ℓ} (source : Source R) (r : R) (size : ℕ)
    → discard_body source r size ≡ forget (read_body source (λ a b. true) r size)
unfolding discard_body read_body
discard_body-read_body source r size = discard_body_from-read_body_from source size size [] r 0 refl
