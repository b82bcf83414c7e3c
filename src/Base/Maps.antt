-- ===== src/Base/Maps.antt =====
-- Maps from numbers as association lists, as the code uses a `HashMap`: an insertion replaces.
use Prim.Native.Nat.{ℕ, suc, ◌≤◌, ◌<◌}
use mathlib.Core.Path.{◌≡◌, refl}
use mathlib.Core.Logic.{inl, inr}
use mathlib.Core.Option.{Option, none, some}
use mathlib.Core.List.{List, [], ◌∷◌}
use native.Mathlib.Omega.{arith}
use nexigon.Base.Tests.{if◌then◌else◌, ◌==◌, Bool-cases}
use nexigon.Base.Lists.{length, All}

module _ {ℓ} {A : Type ℓ} where
  unfoldable pub lookup : ℕ → List (ℕ × A) → Option A
  lookup k [] = none
  lookup k ((j, a) ∷ m) = let rest = lookup k m in if j == k then some a else rest

  unfoldable pub without : ℕ → List (ℕ × A) → List (ℕ × A)
  without k [] = []
  without k ((j, a) ∷ m) = let rest = without k m in if j == k then rest else (j, a) ∷ rest

  unfoldable pub insert : ℕ → A → List (ℕ × A) → List (ℕ × A)
  unfolding without
  insert k a m = (k, a) ∷ without k m

  -- A write through `get_mut`.
  unfoldable pub modify : ℕ → A → List (ℕ × A) → List (ℕ × A)
  modify k b [] = []
  modify k b ((j, a) ∷ m) = let rest = modify k b m in if j == k then (j, b) ∷ m else (j, a) ∷ rest

  pub length-without-le : (k : ℕ) (m : List (ℕ × A)) → length (without k m) ≤ length m
  unfolding without
  length-without-le k [] = omega arith
  length-without-le k ((j, a) ∷ m) = let rest = length-without-le k m in ground arith

  -- A key that is found makes the map smaller when it is removed.
  pub length-without-lt :
      (k : ℕ) (m : List (ℕ × A)) (a : A) → lookup k m ≡ some a → length (without k m) < length m
  unfolding without lookup
  length-without-lt k [] a e = absurd (cc)
  length-without-lt k ((j, b) ∷ m) a e = elim (Bool-cases (j == k)) [
    | inl here ↦ rw here (let rest = length-without-le k m in omega arith)
    | inr there ↦ rw there (let rest = length-without-lt k m a (rw there at e) in omega arith)
  ]

  pub length-insert-le : (k : ℕ) (a : A) (m : List (ℕ × A)) → length (insert k a m) ≤ suc (length m)
  unfolding insert
  length-insert-le k a m = let rest = length-without-le k m in omega arith

  pub length-modify : (k : ℕ) (a : A) (m : List (ℕ × A)) → length (modify k a m) ≡ length m
  unfolding modify
  length-modify k a [] = refl
  length-modify k a ((j, b) ∷ m) = let rest = length-modify k a m in ground arith

  pub All-without {κ} :
      (P : ℕ × A → Type κ) (k : ℕ) (m : List (ℕ × A)) → All P m → All P (without k m)
  unfolding without
  All-without P k [] h = tt
  All-without P k ((j, a) ∷ m) (h, hs) = elim (Bool-cases (j == k)) [
    | inl here ↦ rw here (All-without P k m hs)
    | inr there ↦ rw there (h, All-without P k m hs)
  ]
