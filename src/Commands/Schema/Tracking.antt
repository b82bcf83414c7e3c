-- ===== src/Commands/Schema/Tracking.antt =====
-- What the expansion of a schema tracks, and how its steps follow each other.
use nexigon.Base.{
  ℕ, List, [], ◌∷◌, Option, none, some, Bool, false, ◌||◌, if◌then◌else◌, same_bytes,
}

-- A result with the active pointers and the work so far, an error, or fuel that was too little.
pub data Expansion {ℓ} (A : Type ℓ) : Type ℓ where
  expanded : A → (active : List (List ℕ)) → (work : ℕ) → Expansion A
  refused : Expansion A
  exhausted : Expansion A

abbrev pub and_then {ℓ κ} :
    {A : Type ℓ} {B : Type κ} → Expansion A → (A → List (List ℕ) → ℕ → Expansion B) → Expansion B
and_then (expanded a active work) f = f a active work
and_then refused f = refused
and_then exhausted f = exhausted

abbrev pub or_refuse {ℓ κ} : {A : Type ℓ} {B : Type κ} → Option A → (A → Expansion B) → Expansion B
or_refuse none f = refused
or_refuse (some a) f = f a

-- `HashSet::insert` and `HashSet::remove`, on a set as the list of its members.
unfoldable pub is_member : List ℕ → List (List ℕ) → Bool
is_member p [] = false
is_member p (q ∷ qs) = let rest = is_member p qs in same_bytes p q || rest

unfoldable pub remove_pointer : List ℕ → List (List ℕ) → List (List ℕ)
remove_pointer p [] = []
remove_pointer p (q ∷ qs) =
    let rest = remove_pointer p qs in if same_bytes p q then qs else q ∷ rest
