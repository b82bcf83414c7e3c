-- ===== src/Commands/Schema.antt =====
-- crates/apps/nexigon-agent/src/handlers.rs: the expansion of the references of a command schema. `active` is
-- the set of the pointers being followed, and the work counts what a validation may cost. The lookup of a
-- JSON pointer and the compiler of regular expressions are parameters.
pub mod Keywords
pub mod Tracking
pub mod Expanding
pub mod Settling
pub mod Termination
use nexigon.Base.{
  ℕ, List, [], ◌∷◌, Option, none, some, Bool, true, false, ◌||◌, ◌&&◌, ltb, ◌==◌, ◌>>=◌,
  if◌then◌else◌, length, same_bytes, usize_max, checked_add, if_some,
}
use nexigon.Commands.Json.{Json, string, array, object, Items, Fields, end, field}
use nexigon.Commands.Schema.Keywords.{
  dollar_id_key, dollar_schema_key, dollar_ref_key, pattern_key, pattern_properties_key, format_key,
  draft7_http, draft7_https, regex_format,
}

abbrev pub max_command_schema_work : ℕ
max_command_schema_work = 256

abbrev pub max_command_schema_pattern_bytes : ℕ
max_command_schema_pattern_bytes = 1024

unfoldable pub get : List ℕ → Fields → Option Json
get k end = none
get k (field key x fs) = let rest = get k fs in if same_bytes k key then some x else rest

-- The insertion of an entry, whose key is present wherever the expansion inserts one.
unfoldable pub insert_value : List ℕ → Json → Fields → Fields
insert_value k x end = field k x end
insert_value k x (field key y fs) =
    let rest = insert_value k x fs in if same_bytes k key then field key x fs else field key y rest

abbrev pub contains_key : List ℕ → Fields → Bool
contains_key k fs = elim (get k fs) [ none ↦ false | some x ↦ true ]

abbrev pub as_str : Json → Option (List ℕ)
as_str (string t) = some t
as_str _ = none

abbrev pub as_array : Json → Option Items
as_array (array xs) = some xs
as_array _ = none

abbrev pub as_object : Json → Option Fields
as_object (object fs) = some fs
as_object _ = none

-- What the expansion uses of other packages.
pub record Packages : Type 0 where
  pub pointer : Json → List ℕ → Option Json
  pub compiles : List ℕ → Bool

unfoldable pub validate_linear_pattern_str : Packages → List ℕ → Option (Unit {0})
validate_linear_pattern_str packages pattern =
    if ltb max_command_schema_pattern_bytes (length pattern)
    then none
    else if packages.compiles pattern
    then some tt
    else none

unfoldable pub validate_linear_pattern : Packages → Json → Option (List ℕ)
unfolding validate_linear_pattern_str
validate_linear_pattern packages value =
    as_str value >>= λ pattern. validate_linear_pattern_str packages pattern >>= λ _. some pattern

-- The checks of `validate_schema_node_policy`, in their order.
unfoldable pub validate_dialect : Fields → Option (Unit {0})
unfolding get same_bytes
validate_dialect node = if_some (get dollar_schema_key node) (some tt) (λ dialect.
    as_str dialect >>= λ t.
    if same_bytes t draft7_http || same_bytes t draft7_https then some tt else none)

unfoldable pub pattern_work : Packages → Fields → ℕ → Option ℕ
unfolding get validate_linear_pattern
pattern_work packages node work = if_some (get pattern_key node) (some work) (λ value.
    validate_linear_pattern packages value >>= λ pattern.
    checked_add usize_max work (length pattern))

unfoldable pub keys_work : Packages → Fields → ℕ → Option ℕ
unfolding validate_linear_pattern_str
keys_work packages end work = some work
keys_work packages (field key x fs) work = validate_linear_pattern_str packages key >>= λ _.
    checked_add usize_max work (length key) >>= λ more. keys_work packages fs more

unfoldable pub pattern_properties_work : Packages → Fields → ℕ → Option ℕ
unfolding get keys_work
pattern_properties_work packages node work =
    if_some (get pattern_properties_key node) (some work)
      (λ value. as_object value >>= λ patterns. keys_work packages patterns work)

unfoldable pub validate_format : Fields → Option (Unit {0})
unfolding get same_bytes
validate_format node =
    if_some (get format_key node) (some tt)
      (λ value. as_str value >>= λ t. if same_bytes t regex_format then none else some tt)

unfoldable pub validate_schema_node_policy : Packages → Fields → Option ℕ
unfolding get validate_dialect pattern_work pattern_properties_work validate_format
validate_schema_node_policy packages node =
    if contains_key dollar_id_key node
    then none
    else validate_dialect node >>= λ _.
        if_some (get dollar_ref_key node)
          (pattern_work packages node 1 >>= λ patterns.
            pattern_properties_work packages node patterns >>= λ work.
            validate_format node >>= λ _. some work)
          (λ reference. as_str reference >>= λ _. some 1)

-- `reference_pointer`: a percent sign is 37, a hash sign 35 and a slash 47.
unfoldable pub has_byte : ℕ → List ℕ → Bool
has_byte b [] = false
has_byte b (a ∷ bs) = let rest = has_byte b bs in a == b || rest

unfoldable pub strip_hash : List ℕ → Option (List ℕ)
strip_hash (hash ∷ slash ∷ more) = if hash == 35 && slash == 47 then some (slash ∷ more) else none
strip_hash _ = none

unfoldable pub reference_pointer : List ℕ → Option (List ℕ)
unfolding has_byte strip_hash same_bytes
reference_pointer reference =
    if same_bytes reference (35 ∷ [])
    then some []
    else if has_byte 37 reference
    then none
    else strip_hash reference
