-- ===== src/Commands/Json.antt =====
-- JSON values, as the agent sees them through serde_json: texts are byte strings, a number is the text that
-- it prints as, and an object is the list of its entries.
use Prim.Native.Nat.{max}
use nexigon.Base.{Bool, ℕ, suc, ◌+◌, List, length}

mutual
  pub data Json : Type 0 where
    null : Json
    boolean : (is_true : Bool) → Json
    number : (text : List ℕ) → Json
    string : (text : List ℕ) → Json
    array : Items → Json
    object : Fields → Json

  pub data Items : Type 0 where
    nil : Items
    cons : Json → Items → Items

  pub data Fields : Type 0 where
    end : Fields
    field : (key : List ℕ) → Json → Fields → Fields

-- The number of values in a value, the bytes of its keys and scalars, and how deeply it is nested.
unfoldable mutual
  pub nodes : Json → ℕ
  nodes null = 1
  nodes (boolean b) = 1
  nodes (number t) = 1
  nodes (string t) = 1
  nodes (array xs) = suc (nodes_items xs)
  nodes (object fs) = suc (nodes_fields fs)

  pub nodes_items : Items → ℕ
  nodes_items nil = 0
  nodes_items (cons x xs) = nodes x + nodes_items xs

  pub nodes_fields : Fields → ℕ
  nodes_fields end = 0
  nodes_fields (field k x fs) = nodes x + nodes_fields fs

unfoldable mutual
  pub scalars : Json → ℕ
  scalars null = 0
  scalars (boolean b) = 1
  scalars (number t) = length t
  scalars (string t) = length t
  scalars (array xs) = scalars_items xs
  scalars (object fs) = scalars_fields fs

  pub scalars_items : Items → ℕ
  scalars_items nil = 0
  scalars_items (cons x xs) = scalars x + scalars_items xs

  pub scalars_fields : Fields → ℕ
  scalars_fields end = 0
  scalars_fields (field k x fs) = length k + (scalars x + scalars_fields fs)

unfoldable mutual
  pub height : Json → ℕ
  height null = 0
  height (boolean b) = 0
  height (number t) = 0
  height (string t) = 0
  height (array xs) = height_items xs
  height (object fs) = height_fields fs

  pub height_items : Items → ℕ
  height_items nil = 0
  height_items (cons x xs) = max (suc (height x)) (height_items xs)

  pub height_fields : Fields → ℕ
  height_fields end = 0
  height_fields (field k x fs) = max (suc (height x)) (height_fields fs)
