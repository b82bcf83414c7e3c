-- ===== src/Base/Bytes.antt =====
-- Big-endian integers and slices of byte strings, as Rust's standard library has them.
use mathlib.Core.Logic.{inl, inr}
use mathlib.Core.Bool.{Bool, true, false, ◌&&◌}
use Prim.Native.Nat.{ℕ, zero, suc, ◌+◌, ◌*◌, ◌/◌, ◌%◌, ◌^◌, ◌<◌}
use mathlib.Core.Path.{◌≡◌, refl, ◌∙◌}
use mathlib.Core.List.{List, [], ◌∷◌, ◌++◌}
use mathlib.Core.Option.{Option, none, some}
use native.Mathlib.Omega.{arith}
use native.Mathlib.Nat.{pow-suc}
use nexigon.Base.Tests.{leb, le→leb, if◌then◌else◌, ◌==◌, ==→eq, Bool-cases}
use nexigon.Base.Lists.{
  length, take, drop, length-append, take-append, drop-append, All, All-append,
}

abbrev pub IsByte : ℕ → Type 0
IsByte b = b < 256

-- The `n` bytes of `v`, the most significant first.
unfoldable pub to_be_bytes : ℕ → ℕ → List ℕ
to_be_bytes zero v = []
to_be_bytes (suc n) v = to_be_bytes n (v / 256) ++ (v % 256 ∷ [])

from_be : ℕ → List ℕ → ℕ
from_be acc [] = acc
from_be acc (b ∷ bs) = from_be (acc * 256 + b) bs

unfoldable pub from_be_bytes : List ℕ → ℕ
unfolding from_be
from_be_bytes = from_be 0

from_be-append :
    (acc : ℕ) (xs : List ℕ) (b : ℕ) → from_be acc (xs ++ (b ∷ [])) ≡ from_be acc xs * 256 + b
unfolding from_be
from_be-append acc [] b = refl
from_be-append acc (x ∷ xs) b = from_be-append (acc * 256 + x) xs b

pub length-to_be_bytes : (n v : ℕ) → length (to_be_bytes n v) ≡ n
unfolding to_be_bytes
length-to_be_bytes zero v = refl
length-to_be_bytes (suc n) v =
    length-append (to_be_bytes n (v / 256)) (v % 256 ∷ [])
    ∙ omega (arith, length-to_be_bytes n (v / 256))

pub to_be_bytes-IsByte : (n v : ℕ) → All IsByte (to_be_bytes n v)
unfolding to_be_bytes
to_be_bytes-IsByte zero v = tt
to_be_bytes-IsByte (suc n) v =
    All-append IsByte (to_be_bytes n (v / 256)) (v % 256 ∷ []) (to_be_bytes-IsByte n (v / 256))
      (omega arith)

div_below : (n v : ℕ) → v < 256 ^ suc n → v / 256 < 256 ^ n
div_below n v h = let h' : v < 256 ^ n * 256 = rw pow-suc at h in omega arith

-- Reading back what was written, within the width.
pub from_be_bytes-to_be_bytes : (n v : ℕ) → v < 256 ^ n → from_be_bytes (to_be_bytes n v) ≡ v
unfolding to_be_bytes from_be_bytes
from_be_bytes-to_be_bytes zero v h = omega arith
from_be_bytes-to_be_bytes (suc n) v h =
    from_be-append 0 (to_be_bytes n (v / 256)) (v % 256)
    ∙ omega (arith, from_be_bytes-to_be_bytes n (v / 256) (div_below n v h))

-- `bytes[from..from + n]`, and `none` where Rust panics.
abbrev pub slice? : List ℕ → ℕ → ℕ → Option (List ℕ)
slice? bs from n = if leb (from + n) (length bs) then some (take n (drop from bs)) else none

-- The part of a byte string that stands behind `pre`.
pub slice?-append :
    (pre mid post : List ℕ) (o n : ℕ)
    → length pre ≡ o
    → length mid ≡ n
    → slice? (pre ++ (mid ++ post)) o n ≡ some mid
slice?-append pre mid post o n e f =
    rw
      (
        ← e,
        ← f,
        drop-append pre (mid ++ post),
        take-append mid post,
        le→leb (length pre + length mid) (length (pre ++ (mid ++ post)))
            (omega (arith, length-append pre (mid ++ post), length-append mid post)),
      )
      refl

pub from_be_bytes-one : (b : ℕ) → from_be_bytes (b ∷ []) ≡ b
unfolding from_be_bytes from_be
from_be_bytes-one b = omega arith

-- The equality of byte strings.
unfoldable pub same_bytes : List ℕ → List ℕ → Bool
same_bytes [] [] = true
same_bytes [] (b ∷ bs) = false
same_bytes (a ∷ more) [] = false
same_bytes (a ∷ more) (b ∷ bs) = let rest = same_bytes more bs in a == b && rest

pub same_bytes_refl : (bs : List ℕ) → same_bytes bs bs ≡ true
unfolding same_bytes
same_bytes_refl [] = refl
same_bytes_refl (b ∷ bs) = let rest = same_bytes_refl bs in ground arith

pub same_bytes→eq : (xs ys : List ℕ) → same_bytes xs ys ≡ true → xs ≡ ys
unfolding same_bytes
same_bytes→eq [] [] e = refl
same_bytes→eq [] (b ∷ bs) e = absurd (cc)
same_bytes→eq (a ∷ more) [] e = absurd (cc)
same_bytes→eq (a ∷ more) (b ∷ bs) e = elim (Bool-cases (a == b)) [
  | inl same ↦
      let rest : same_bytes more bs ≡ true = rw same at e in
      let p = ==→eq a b same in let q = same_bytes→eq more bs rest in cc
  | inr other ↦ let no : false ≡ true = rw other at e in absurd (cc)
]
