-- ===== src/Rpc/Bodies.antt =====
-- crates/libs/nexigon-rpc/src/lib.rs: `read_body` and `discard_body`, which read in chunks until the announced
-- size is reached. Each chunk is not empty, so the size is enough fuel.
use nexigon.Base.{
  ℕ, zero, suc, ◌+◌, ◌-◌, List, [], ◌∷◌, ◌++◌, Bool, ltb, if◌then◌else◌, length, min_of,
}
use nexigon.Rpc.{Source, Timed, done, broken, late, Ending, ok, err, exhausted, read_chunk_size}

pub data BodyReadError : Type 0 where
  io_error : BodyReadError
  timed_out : BodyReadError
  allocation : BodyReadError

-- A chunk that was read; an empty one is the end of the stream.
abbrev pub on_chunk {ℓ κ} :
    {R : Type ℓ} {A : Type κ}
    → R × Timed (List ℕ)
    → (R → List ℕ → R × Ending BodyReadError A)
    → R × Ending BodyReadError A
on_chunk (r, done []) k = (r, err io_error)
on_chunk (r, done (b ∷ bs)) k = k r (b ∷ bs)
on_chunk (r, broken) k = (r, err io_error)
on_chunk (r, late) k = (r, err timed_out)

abbrev pub next_size : ℕ → ℕ → ℕ
next_size size so_far = min_of (size - so_far) read_chunk_size

-- `reserve` says whether `try_reserve_exact` finds room for so many bytes more.
module _ {ℓ} {R : Type ℓ} (source : Source R) (reserve : ℕ → ℕ → Bool) where
  unfoldable pub read_body_from : ℕ → ℕ → List ℕ → R → R × Ending BodyReadError (List ℕ)
  read_body_from zero size body r = if ltb (length body) size then (r, exhausted) else (r, ok body)
  read_body_from (suc fuel) size body r =
      if ltb (length body) size
      then (if reserve (length body) (next_size size (length body))
          then on_chunk (source.read r (next_size size (length body)))
              (λ r' chunk. read_body_from fuel size (body ++ chunk) r')
          else (r, err allocation))
      else (r, ok body)

  unfoldable pub read_body : R → ℕ → R × Ending BodyReadError (List ℕ)
  unfolding read_body_from
  read_body r size = read_body_from size size [] r

module _ {ℓ} {R : Type ℓ} (source : Source R) where
  unfoldable pub discard_body_from : ℕ → ℕ → ℕ → R → R × Ending BodyReadError (Unit {0})
  discard_body_from zero size discarded r =
      if ltb discarded size then (r, exhausted) else (r, ok tt)
  discard_body_from (suc fuel) size discarded r =
      if ltb discarded size
      then on_chunk (source.read r (next_size size discarded))
          (λ r' chunk. discard_body_from fuel size (discarded + length chunk) r')
      else (r, ok tt)

  unfoldable pub discard_body : R → ℕ → R × Ending BodyReadError (Unit {0})
  unfolding discard_body_from
  discard_body r size = discard_body_from size size 0 r
