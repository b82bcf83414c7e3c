-- ===== src/Multiplex/Rate.antt =====
-- crates/libs/nexigon-multiplex/src/lib.rs: `RateCounter`, which bounds what a peer may send in a fixed
-- window of one second. Times are numbers of milliseconds.
mod Examples
use nexigon.Base.{
  ℕ, ◌+◌, ◌-◌, ◌*◌, ◌≤◌, ◌<◌, ◌≡◌, Bool, true, false, List, [], ◌∷◌, leb, if◌then◌else◌, u32_max,
  saturating_u32, arith, All, Bool-cases, inl, inr, leb→le, not_leb→lt,
}

pub record RateCounter : Type 0 where
  pub started : ℕ
  pub count : ℕ

abbrev pub new_rate : ℕ → RateCounter
new_rate now = record { started = now; count = 0 }

-- `RateCounter::record`, the part that begins a window, and the part that counts.
pub refresh : RateCounter → ℕ → RateCounter
refresh c now = if leb 1000 (now - c.started) then new_rate now else c

unfoldable pub record_item : RateCounter → ℕ → ℕ → RateCounter × Bool
unfolding refresh
record_item c limit now =
    let fresh = refresh c now in
    let next = record fresh { count = saturating_u32 (fresh.count + 1) } in
    (next, leb next.count limit)

abbrev tally : Bool → ℕ
tally true = 1
tally false = 0

-- How many of the items that arrive at these times stay within the limit.
unfoldable pub admitted : RateCounter → ℕ → List ℕ → ℕ
admitted c limit [] = 0
admitted c limit (t ∷ ts) =
    let rest = admitted (record_item c limit t).0 limit ts in tally (record_item c limit t).1 + rest

-- The counter after one more item.
abbrev counted : RateCounter → RateCounter
counted c = record c { count = saturating_u32 (c.count + 1) }

counted-tally :
    (c : RateCounter) (limit rest : ℕ)
    → limit < u32_max
    → rest ≤ limit - (counted c).count
    → tally (leb (counted c).count limit) + rest ≤ limit - c.count
counted-tally c limit rest h k = ground arith

-- In a window that is not yet over.
same_window :
    (c : RateCounter) (limit : ℕ) (ts : List ℕ)
    → limit < u32_max
    → All (λ t. t - c.started < 1000) ts
    → admitted c limit ts ≤ limit - c.count
unfolding admitted record_item refresh
same_window c limit [] h a = omega arith
same_window c limit (t ∷ ts) h (now, later) = elim (Bool-cases (leb 1000 (t - c.started))) [
  | inl over ↦ absurd (let k = leb→le 1000 (t - c.started) over in omega arith)
  | inr still ↦ rw still (
      counted-tally c limit (admitted (counted c) limit ts) h
        (same_window (counted c) limit ts h later))
]

-- The times are no earlier than `from`, in any order, and less than a second later.
abbrev pub IsInSecond : ℕ → ℕ → Type 0
IsInSecond from t = (from ≤ t) × (t < from + 1000)

since :
    (from t : ℕ) (ts : List ℕ) → from ≤ t → All (IsInSecond from) ts → All (λ u. u - t < 1000) ts
since from t [] h a = tt
since from t (u ∷ us) h (now, later) = (omega arith, since from t us h later)

any_window :
    (c : RateCounter) (limit from : ℕ) (ts : List ℕ)
    → limit < u32_max
    → All (IsInSecond from) ts
    → admitted c limit ts ≤ (limit - c.count) + limit
unfolding admitted record_item refresh
any_window c limit from [] h a = omega arith
any_window c limit from (t ∷ ts) h (now, later) = elim (Bool-cases (leb 1000 (t - c.started))) [
  | inl over ↦
      let fresh =
        counted-tally (new_rate t) limit (admitted (counted (new_rate t)) limit ts) h
          (same_window (counted (new_rate t)) limit ts h (since from t ts now.0 later)) in
      rw over (omega arith)
  | inr still ↦
      let rest = any_window (counted c) limit from ts h later in
      rw still (ground (arith, counted-tally c limit (limit - (counted c).count) h (omega arith)))
]

-- Whatever the counter's state, among items that all arrive within one second at most twice the limit
-- are admitted, for a limit below the largest 32-bit number.
pub admitted_in_second :
    (c : RateCounter) (limit from : ℕ) (ts : List ℕ)
    → limit < u32_max
    → All (IsInSecond from) ts
    → admitted c limit ts ≤ 2 * limit
admitted_in_second c limit from ts h a = let k = any_window c limit from ts h a in omega arith
