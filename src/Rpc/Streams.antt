-- ===== src/Rpc/Streams.antt =====
-- What the framing of calls relies on: the documented behaviour of the byte streams.
use nexigon.Base.{ℕ, ◌≤◌, ◌≡◌, some, List, ◌++◌, length, take, drop, subst, sym}
use nexigon.Rpc.{Source, Sink, done, Ending, ok, and_then}

-- `Holds r bs` says that `bs` arrives in time. `read_exact` gives a prefix of it, and `read` a shorter or a
-- longer prefix, though not an empty one, with no more bytes than were asked for.
pub record SourceLaws {ℓ} {R : Type ℓ} (source : Source R) : Type (ℓ + 1) where
  pub Holds : R → List ℕ → Type ℓ
  pub reads_exactly :
      (r : R) (bs rest : List ℕ)
      → Holds r (bs ++ rest)
      → ((source.read_exact r (length bs)).1 ≡ some bs)
        × Holds (source.read_exact r (length bs)).0 rest
  pub reads :
      (r : R) (bs : List ℕ) (n : ℕ)
      → 1 ≤ n
      → 1 ≤ length bs
      → Holds r bs
      → (k : ℕ) × (1 ≤ k)
        × (k ≤ n)
        × (k ≤ length bs)
        × ((source.read r n).1 ≡ done (take k bs))
        × Holds (source.read r n).0 (drop k bs)

-- `read` fills at most the buffer that it is given, and `read_exact` all of it.
pub record Bounded {ℓ} {R : Type ℓ} (source : Source R) : Type ℓ where
  pub fills : (r : R) (n : ℕ) (bs : List ℕ) → (source.read r n).1 ≡ done bs → length bs ≤ n
  pub fills_all :
      (r : R) (n : ℕ) (bs : List ℕ) → (source.read_exact r n).1 ≡ some bs → length bs ≡ n

-- What was written so far: a `write_all` that succeeds appends its bytes, a flush nothing.
pub record SinkLaws {ℓ} {W : Type ℓ} (sink : Sink W) : Type ℓ where
  pub written : W → List ℕ
  pub appends :
      (w : W) (bs : List ℕ)
      → (sink.write_all w bs).1 ≡ done tt
      → written (sink.write_all w bs).0 ≡ written w ++ bs
  pub keeps : (w : W) → written (sink.flush w).0 ≡ written w

module _ {ℓ} {R : Type ℓ} {source : Source R} (laws : SourceLaws source) where
  -- The operation ends with `x`, and `rest` is still to be read.
  abbrev pub Gives {κ μ} :
      {E : Type κ} {A : Type μ} → R × Ending E A → Ending E A → List ℕ → Type (ℓ ⊔ κ ⊔ μ)
  Gives p x rest = (p.1 ≡ x) × laws.Holds p.0 rest

  pub and_then-Gives {κ μ ν} :
      {E : Type ν} {A : Type κ} {B : Type μ} (p : R × Ending E A) (k : R → A → R × Ending E B)
      (a : A) (x : Ending E B) (rest final : List ℕ)
      → Gives p (ok a) rest
      → ((s : R) → laws.Holds s rest → Gives (k s a) x final)
      → Gives (and_then p k) x final
  unfolding and_then
  and_then-Gives p k a x rest final (e, h) f =
      subst (λ o. Gives (and_then (p.0, o) k) x final) (sym e) (f p.0 h)
