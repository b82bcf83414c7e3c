-- ===== src/Commands/Schema/Settling.antt =====
-- crates/apps/nexigon-agent/src/handlers.rs: the loops of `expand_schema_references` over the children of a
-- schema, and what they leave of the active pointers and of the work.
use nexigon.Base.{
  ℕ, ◌+◌, ◌≤◌, ◌≡◌, refl, subst, sym, List, [], ◌∷◌, Option, none, some, arith, if_some_way,
}
use nexigon.Commands.Json.{Json, array, object, Items, nil, cons, Fields, end, field}
use nexigon.Commands.Schema.{get, insert_value, as_array, as_object}
use nexigon.Commands.Schema.Keywords.{items_key, dependencies_key}
use nexigon.Commands.Schema.Tracking.{Expansion, expanded, refused, exhausted, and_then, or_refuse}
use nexigon.Commands.Schema.Expanding.{
  Expand, expand_single, expand_all, expand_items, expand_lists, expand_entries, expand_objects,
  expand_dependencies_of, expand_dependencies,
}

-- The outcome is a value or an error. A value leaves the active pointers as they were, and the work within
-- its limit.
abbrev pub IsSettled {ℓ} : {A : Type ℓ} → List (List ℕ) → ℕ → Expansion A → Type 0
IsSettled active work (expanded x a w) = (a ≡ active) × (work ≤ w) × (w ≤ 256)
IsSettled active work refused = Unit {0}
IsSettled active work exhausted = ⊥

abbrev pub Settles : ℕ → (Json → Expand Json) → Type 0
Settles fuel rec =
    (x : Json) (a : List (List ℕ)) (w : ℕ) → 257 ≤ fuel + w → w ≤ 256 → IsSettled a w (rec x a w)

pub IsSettled-mono {ℓ} :
    {A : Type ℓ} (a : List (List ℕ)) (v w : ℕ) (o : Expansion A)
    → v ≤ w
    → IsSettled a w o
    → IsSettled a v o
IsSettled-mono a v w (expanded x b u) h (e, p, q) = (e, omega arith, q)
IsSettled-mono a v w refused h s = s
IsSettled-mono a v w exhausted h s = s

pub and_then-IsSettled {ℓ κ} :
    {A : Type ℓ} {B : Type κ} (a : List (List ℕ)) (w : ℕ) (o : Expansion A)
    (k : A → List (List ℕ) → ℕ → Expansion B)
    → IsSettled a w o
    → ((x : A) (v : ℕ) → w ≤ v → v ≤ 256 → IsSettled a v (k x a v))
    → IsSettled a w (and_then o k)
and_then-IsSettled a w (expanded x b v) k (e, p, q) f =
    subst (λ c. IsSettled a w (k x c v)) (sym e) (IsSettled-mono a w v (k x a v) p (f x v p q))
and_then-IsSettled a w refused k s f = s
and_then-IsSettled a w exhausted k s f = s

pub or_refuse-IsSettled {ℓ κ} :
    {A : Type ℓ} {B : Type κ} (a : List (List ℕ)) (w : ℕ) (o : Option A) (k : A → Expansion B)
    → ((x : A) → o ≡ some x → IsSettled a w (k x))
    → IsSettled a w (or_refuse o k)
or_refuse-IsSettled a w none k f = tt
or_refuse-IsSettled a w (some x) k f = f x refl

-- Each loop over children settles if the expansion of a child does.
module _ (fuel : ℕ) (rec : Json → Expand Json) (settles : Settles fuel rec) where
  pub expand_single-IsSettled :
      (keys : List (List ℕ)) (node out : Fields) (a : List (List ℕ)) (w : ℕ)
      → 257 ≤ fuel + w
      → w ≤ 256
      → IsSettled a w (expand_single rec keys node out a w)
  unfolding expand_single
  expand_single-IsSettled [] node out a w h k = (refl, omega arith, k)
  expand_single-IsSettled (key ∷ keys) node out a w h k =
      if_some_way (IsSettled a w) (get key node) _ _ (expand_single-IsSettled keys node out a w h k)
        (λ x present. and_then-IsSettled a w (rec x a w) _ (settles x a w h k) (λ y v p q.
          expand_single-IsSettled keys node (insert_value key y out) a v (omega arith) q))

  expand_all-IsSettled :
      (xs : Items) (a : List (List ℕ)) (w : ℕ)
      → 257 ≤ fuel + w
      → w ≤ 256
      → IsSettled a w (expand_all rec xs a w)
  unfolding expand_all
  expand_all-IsSettled nil a w h k = (refl, omega arith, k)
  expand_all-IsSettled (cons x xs) a w h k =
      and_then-IsSettled a w (rec x a w) _ (settles x a w h k) (λ y v p q.
        and_then-IsSettled a v (expand_all rec xs a v) _
          (expand_all-IsSettled xs a v (omega arith) q) (λ ys u i j. (refl, omega arith, j)))

  pub expand_items-IsSettled :
      (node out : Fields) (a : List (List ℕ)) (w : ℕ)
      → 257 ≤ fuel + w
      → w ≤ 256
      → IsSettled a w (expand_items rec node out a w)
  unfolding expand_items
  expand_items-IsSettled node out a w h k =
      if_some_way (IsSettled a w) (get items_key node) _ _ (refl, omega arith, k)
        (λ x present.
          if_some_way (IsSettled a w) (as_array x) _ _
            (and_then-IsSettled a w (rec x a w) _ (settles x a w h k)
              (λ y v p q. (refl, omega arith, q)))
            (λ xs several.
              and_then-IsSettled a w (expand_all rec xs a w) _ (expand_all-IsSettled xs a w h k)
                (λ y v p q. (refl, omega arith, q))))

  pub expand_lists-IsSettled :
      (keys : List (List ℕ)) (node out : Fields) (a : List (List ℕ)) (w : ℕ)
      → 257 ≤ fuel + w
      → w ≤ 256
      → IsSettled a w (expand_lists rec keys node out a w)
  unfolding expand_lists
  expand_lists-IsSettled [] node out a w h k = (refl, omega arith, k)
  expand_lists-IsSettled (key ∷ keys) node out a w h k =
      if_some_way (IsSettled a w) (get key node) _ _ (expand_lists-IsSettled keys node out a w h k)
        (λ x present. or_refuse-IsSettled a w (as_array x) _ (λ xs is_array.
          and_then-IsSettled a w (expand_all rec xs a w) _ (expand_all-IsSettled xs a w h k)
            (λ ys v p q.
              expand_lists-IsSettled keys node (insert_value key (array ys) out) a v (omega arith)
                q)))

  expand_entries-IsSettled :
      (fs out : Fields) (a : List (List ℕ)) (w : ℕ)
      → 257 ≤ fuel + w
      → w ≤ 256
      → IsSettled a w (expand_entries rec fs out a w)
  unfolding expand_entries
  expand_entries-IsSettled end out a w h k = (refl, omega arith, k)
  expand_entries-IsSettled (field key x fs) out a w h k =
      and_then-IsSettled a w (rec x a w) _ (settles x a w h k)
        (λ y v p q. expand_entries-IsSettled fs (insert_value key y out) a v (omega arith) q)

  pub expand_objects-IsSettled :
      (keys : List (List ℕ)) (node out : Fields) (a : List (List ℕ)) (w : ℕ)
      → 257 ≤ fuel + w
      → w ≤ 256
      → IsSettled a w (expand_objects rec keys node out a w)
  unfolding expand_objects
  expand_objects-IsSettled [] node out a w h k = (refl, omega arith, k)
  expand_objects-IsSettled (key ∷ keys) node out a w h k =
      if_some_way (IsSettled a w) (get key node) _ _
        (expand_objects-IsSettled keys node out a w h k)
        (λ x present. or_refuse-IsSettled a w (as_object x) _ (λ fs is_object.
          and_then-IsSettled a w (expand_entries rec fs fs a w) _
            (expand_entries-IsSettled fs fs a w h k)
            (λ gs v p q.
              expand_objects-IsSettled keys node (insert_value key (object gs) out) a v
                (omega arith) q)))

  expand_dependencies_of-IsSettled :
      (fs out : Fields) (a : List (List ℕ)) (w : ℕ)
      → 257 ≤ fuel + w
      → w ≤ 256
      → IsSettled a w (expand_dependencies_of rec fs out a w)
  unfolding expand_dependencies_of
  expand_dependencies_of-IsSettled end out a w h k = (refl, omega arith, k)
  expand_dependencies_of-IsSettled (field key x fs) out a w h k =
      if_some_way (IsSettled a w) (as_array x) _ _
        (and_then-IsSettled a w (rec x a w) _ (settles x a w h k) (λ y v p q.
          expand_dependencies_of-IsSettled fs (insert_value key y out) a v (omega arith) q))
        (λ names is_array. expand_dependencies_of-IsSettled fs out a w h k)

  pub expand_dependencies-IsSettled :
      (node out : Fields) (a : List (List ℕ)) (w : ℕ)
      → 257 ≤ fuel + w
      → w ≤ 256
      → IsSettled a w (expand_dependencies rec node out a w)
  unfolding expand_dependencies
  expand_dependencies-IsSettled node out a w h k =
      if_some_way (IsSettled a w) (get dependencies_key node) _ _ (refl, omega arith, k)
        (λ x present. or_refuse-IsSettled a w (as_object x) _ (λ fs is_object.
          and_then-IsSettled a w (expand_dependencies_of rec fs fs a w) _
            (expand_dependencies_of-IsSettled fs fs a w h k) (λ gs v p q. (refl, omega arith, q))))
