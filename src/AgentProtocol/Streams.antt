-- ===== src/AgentProtocol/Streams.antt =====
-- What the framing relies on: the documented behaviour of the byte streams.
use nexigon.Base.{ℕ, ◌≡◌, refl, true, some, List, ◌++◌, length, subst, sym}
use nexigon.AgentProtocol.{
  Reader, Writer, Outcome, ok, and_then, or_io, read_exact_with_timeout, FrameError, err,
}

-- `Holds r bs` says that `bs` arrives at the reader in time. Then `read_exact` gives a prefix of it.
pub record ReaderLaws {ℓ} {R : Type ℓ} (reader : Reader R) : Type (ℓ + 1) where
  pub Holds : R → List ℕ → Type ℓ
  pub reads :
      (r : R) (bs rest : List ℕ)
      → Holds r (bs ++ rest)
      → ((reader.read_exact r (length bs)).1 ≡ some bs)
        × Holds (reader.read_exact r (length bs)).0 rest
  pub arrives :
      (r : R) (bs rest : List ℕ) → Holds r (bs ++ rest) → reader.in_time r (length bs) ≡ true

-- What was written so far: a `write_all` that succeeds appends its bytes, a flush nothing.
pub record WriterLaws {ℓ} {W : Type ℓ} (writer : Writer W) : Type ℓ where
  pub written : W → List ℕ
  pub appends :
      (w : W) (bs : List ℕ)
      → (writer.write_all w bs).1 ≡ true
      → written (writer.write_all w bs).0 ≡ written w ++ bs
  pub keeps : (w : W) → written (writer.flush w).0 ≡ written w

module _ {ℓ} {R : Type ℓ} {reader : Reader R} (laws : ReaderLaws reader) where
  -- The operation ends with `x`, and `rest` is still to be read.
  abbrev pub Gives {κ} : {A : Type κ} → R × Outcome A → Outcome A → List ℕ → Type (ℓ ⊔ κ)
  Gives p x rest = (p.1 ≡ x) × laws.Holds p.0 rest

  pub and_then-Gives {κ μ} :
      {A : Type κ} {B : Type μ} (p : R × Outcome A) (k : R → A → R × Outcome B) (a : A)
      (x : Outcome B) (rest final : List ℕ)
      → Gives p (ok a) rest
      → ((s : R) → laws.Holds s rest → Gives (k s a) x final)
      → Gives (and_then p k) x final
  unfolding and_then
  and_then-Gives p k a x rest final (e, h) f =
      subst (λ o. Gives (and_then (p.0, o) k) x final) (sym e) (f p.0 h)

  pub read_exact-Gives :
      (r : R) (bs rest : List ℕ) (n : ℕ)
      → length bs ≡ n
      → laws.Holds r (bs ++ rest)
      → Gives (or_io (reader.read_exact r n)) (ok bs) rest
  read_exact-Gives r bs rest n e h =
      let (got, holds) = laws.reads r bs rest h in
      subst (λ m. Gives (or_io (reader.read_exact r m)) (ok bs) rest) e
        (subst (λ o. Gives (or_io ((reader.read_exact r (length bs)).0, o)) (ok bs) rest) (sym got)
          (refl, holds))

  pub read_exact_with_timeout-Gives :
      (r : R) (bs rest : List ℕ) (n : ℕ)
      → length bs ≡ n
      → laws.Holds r (bs ++ rest)
      → Gives (read_exact_with_timeout reader r n) (ok bs) rest
  unfolding read_exact_with_timeout
  read_exact_with_timeout-Gives r bs rest n e h =
      let soon : reader.in_time r n ≡ true =
        subst (λ m. reader.in_time r m ≡ true) e (laws.arrives r bs rest h) in
      rw soon (read_exact-Gives r bs rest n e h)

  pub and_then-Gives_err {κ μ} :
      {A : Type κ} {B : Type μ} (p : R × Outcome A) (k : R → A → R × Outcome B) (e : FrameError)
      (rest : List ℕ)
      → Gives p (err e) rest
      → Gives (and_then p k) (err e) rest
  unfolding and_then
  and_then-Gives_err p k e rest (q, h) =
      subst (λ o. Gives (and_then (p.0, o) k) (err e) rest) (sym q) (refl, h)
