-- ===== src/Base/Tests.antt =====
-- Boolean tests on numbers, the conditional, and case lemmas that keep the equation.
use Prim.Native.Nat.{ℕ, ◌+◌, ◌%◌, ◌≤◌, ◌<◌, compare, Ordering}
use mathlib.Core.Path.{◌≡◌, refl}
use mathlib.Core.Logic.{◌⊎◌, inl, inr}
use mathlib.Core.Bool.{Bool, true, false}
use mathlib.Core.Option.{Option, none, some}
use native.Mathlib.Omega.{arith}

abbrev pub ltb : ℕ → ℕ → Bool
ltb a b = elim (compare a b) [ Ordering.lt ↦ true | _ ↦ false ]

abbrev pub leb : ℕ → ℕ → Bool
leb a b = elim (compare a b) [ Ordering.gt ↦ false | _ ↦ true ]

infix 50 ◌==◌
abbrev pub ◌==◌ : ℕ → ℕ → Bool
a == b = elim (compare a b) [ Ordering.eq ↦ true | _ ↦ false ]

infix 1 if◌then◌else◌
abbrev pub if◌then◌else◌ {ℓ} : {A : Type ℓ} → Bool → A → A → A
if true then x else y = x
if false then x else y = y

pub ltb→lt : (a b : ℕ) → ltb a b ≡ true → a < b
ltb→lt a b h = ground arith

pub lt→ltb : (a b : ℕ) → a < b → ltb a b ≡ true
lt→ltb a b h = ground arith

pub leb→le : (a b : ℕ) → leb a b ≡ true → a ≤ b
leb→le a b h = ground arith

pub le→leb : (a b : ℕ) → a ≤ b → leb a b ≡ true
le→leb a b h = ground arith

pub lt→not_leb : (a b : ℕ) → b < a → leb a b ≡ false
lt→not_leb a b h = ground arith

pub not_leb→lt : (a b : ℕ) → leb a b ≡ false → b < a
not_leb→lt a b h = ground arith

pub not_ltb→le : (a b : ℕ) → ltb a b ≡ false → b ≤ a
not_ltb→le a b h = ground arith

pub le→not_ltb : (a b : ℕ) → b ≤ a → ltb a b ≡ false
le→not_ltb a b h = ground arith

pub ==→eq : (a b : ℕ) → (a == b) ≡ true → a ≡ b
==→eq a b h = ground arith

pub ==_self : (a : ℕ) → (a == a) ≡ true
==_self a = ground arith

-- To split on a computed value and keep the equation.
pub Bool-cases : (b : Bool) → (b ≡ true) ⊎ (b ≡ false)
Bool-cases true = inl refl
Bool-cases false = inr refl

pub Option-cases {ℓ} : {A : Type ℓ} (o : Option A) → (o ≡ none) ⊎ ((a : A) × (o ≡ some a))
Option-cases none = inl refl
Option-cases (some a) = inr (a, refl)

-- Chains of steps that may panic, with `none` for a panic.
infixl 5 ◌>>=◌
abbrev pub ◌>>=◌ {ℓ κ} : {A : Type ℓ} {B : Type κ} → Option A → (A → Option B) → Option B
none >>= f = none
some a >>= f = f a

-- The values that a `u32` and a `usize` hold at most.
abbrev pub u32_max : ℕ
u32_max = 4294967295

abbrev pub usize_max : ℕ
usize_max = 18446744073709551615

-- `checked_add` of a type whose largest value is `top`.
abbrev pub checked_add : ℕ → ℕ → ℕ → Option ℕ
checked_add top a b = if leb (a + b) top then some (a + b) else none

-- `u64` addition in a release build.
abbrev pub add_u64 : ℕ → ℕ → ℕ
add_u64 a b = (a + b) % 18446744073709551616

-- `u32` addition in a release build, and the saturating and cutting operations.
abbrev pub add_u32 : ℕ → ℕ → ℕ
add_u32 a b = (a + b) % 4294967296

abbrev pub saturating_u32 : ℕ → ℕ
saturating_u32 n = if leb n u32_max then n else u32_max

abbrev pub min_of : ℕ → ℕ → ℕ
min_of a b = if leb a b then a else b

-- What holds of both outcomes of a test holds whichever way it goes.
pub either_way {ℓ κ} :
    {A : Type ℓ} (P : A → Type κ) (b : Bool) (x y : A) → P x → P y → P (if b then x else y)
either_way P true x y p q = p
either_way P false x y p q = q

pub then_way {ℓ κ} :
    {A : Type ℓ} (P : A → Type κ) (b : Bool) (x y : A) → b ≡ true → P x → P (if b then x else y)
then_way P true x y e p = p
then_way P false x y e p = absurd (cc)

pub else_way {ℓ κ} :
    {A : Type ℓ} (P : A → Type κ) (b : Bool) (x y : A) → b ≡ false → P y → P (if b then x else y)
else_way P true x y e p = absurd (cc)
else_way P false x y e p = p

pub bind-some {ℓ κ} :
    {A : Type ℓ} {B : Type κ} (o : Option A) (k : A → Option B) (r : B)
    → (o >>= k) ≡ some r
    → (a : A) × (o ≡ some a) × (k a ≡ some r)
bind-some none k r e = absurd (cc)
bind-some (some a) k r e = (a, refl, e)

-- `if let Some(a) = o { f(a) } else { d }`, and what holds of both of its outcomes.
abbrev pub if_some {ℓ κ} : {A : Type ℓ} {B : Type κ} → Option A → B → (A → B) → B
if_some none d f = d
if_some (some a) d f = f a

pub if_some_way {ℓ κ μ} :
    {A : Type ℓ} {B : Type κ} (P : B → Type μ) (o : Option A) (d : B) (f : A → B)
    → P d
    → ((a : A) → o ≡ some a → P (f a))
    → P (if_some o d f)
if_some_way P none d f p q = p
if_some_way P (some a) d f p q = q a refl
