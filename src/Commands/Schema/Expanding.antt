-- ===== src/Commands/Schema/Expanding.antt =====
-- crates/apps/nexigon-agent/src/handlers.rs: `expand_schema_references`. An expansion follows references, so
-- it recurs on fuel; `rec` expands one child.
use nexigon.Base.{
  ℕ, suc, zero, List, [], ◌∷◌, Option, none, some, ltb, if◌then◌else◌, usize_max, checked_add,
  if_some,
}
use nexigon.Commands.Json.{Json, boolean, array, object, Items, nil, cons, Fields, end, field}
use nexigon.Commands.Schema.{
  get, insert_value, as_str, as_array, as_object, Packages, validate_schema_node_policy,
  reference_pointer, max_command_schema_work,
}
use nexigon.Commands.Schema.Keywords.{
  dollar_ref_key, items_key, dependencies_key, single_keywords, list_keywords, object_keywords,
}
use nexigon.Commands.Schema.Tracking.{
  Expansion, expanded, refused, exhausted, and_then, or_refuse, is_member, remove_pointer,
}

abbrev pub Expand : Type 0 → Type 0
Expand A = List (List ℕ) → ℕ → Expansion A

unfoldable pub add_work : ℕ → ℕ → Option ℕ
add_work work amount = elim (checked_add usize_max work amount) [
  | none ↦ none
  | some more ↦ if ltb max_command_schema_work more then none else some more
]

unfoldable pub expand_single :
    (Json → Expand Json) → List (List ℕ) → Fields → Fields → Expand Fields
unfolding get insert_value
expand_single rec [] node out active work = expanded out active work
expand_single rec (keyword ∷ more) node out active work =
    if_some (get keyword node) (expand_single rec more node out active work) (λ child.
      and_then (rec child active work)
        (λ x a w. expand_single rec more node (insert_value keyword x out) a w))

unfoldable pub expand_all : (Json → Expand Json) → Items → Expand Items
expand_all rec nil active work = expanded nil active work
expand_all rec (cons x xs) active work =
    and_then (rec x active work)
      (λ y a w. and_then (expand_all rec xs a w) (λ ys. expanded (cons y ys)))

unfoldable pub expand_items : (Json → Expand Json) → Fields → Fields → Expand Fields
unfolding get insert_value expand_all
expand_items rec node out active work =
    if_some (get items_key node) (expanded out active work) (λ items.
      if_some (as_array items)
        (and_then (rec items active work) (λ x. expanded (insert_value items_key x out)))
        (λ xs.
          and_then (expand_all rec xs active work)
            (λ ys. expanded (insert_value items_key (array ys) out))))

unfoldable pub expand_lists : (Json → Expand Json) → List (List ℕ) → Fields → Fields → Expand Fields
unfolding get insert_value expand_all
expand_lists rec [] node out active work = expanded out active work
expand_lists rec (keyword ∷ more) node out active work =
    if_some (get keyword node) (expand_lists rec more node out active work) (λ children.
      or_refuse (as_array children) (λ xs.
        and_then (expand_all rec xs active work)
          (λ ys a w. expand_lists rec more node (insert_value keyword (array ys) out) a w)))

unfoldable pub expand_entries : (Json → Expand Json) → Fields → Fields → Expand Fields
unfolding insert_value
expand_entries rec end out active work = expanded out active work
expand_entries rec (field key x fs) out active work =
    and_then (rec x active work) (λ y a w. expand_entries rec fs (insert_value key y out) a w)

unfoldable pub expand_objects :
    (Json → Expand Json) → List (List ℕ) → Fields → Fields → Expand Fields
unfolding get insert_value expand_entries
expand_objects rec [] node out active work = expanded out active work
expand_objects rec (keyword ∷ more) node out active work =
    if_some (get keyword node) (expand_objects rec more node out active work) (λ children.
      or_refuse (as_object children) (λ fs.
        and_then (expand_entries rec fs fs active work)
          (λ gs a w. expand_objects rec more node (insert_value keyword (object gs) out) a w)))

unfoldable pub expand_dependencies_of : (Json → Expand Json) → Fields → Fields → Expand Fields
unfolding insert_value
expand_dependencies_of rec end out active work = expanded out active work
expand_dependencies_of rec (field key x fs) out active work =
    if_some (as_array x)
      (and_then (rec x active work)
        (λ y a w. expand_dependencies_of rec fs (insert_value key y out) a w))
      (λ names. expand_dependencies_of rec fs out active work)

unfoldable pub expand_dependencies : (Json → Expand Json) → Fields → Fields → Expand Fields
unfolding get insert_value expand_dependencies_of
expand_dependencies rec node out active work =
    if_some (get dependencies_key node) (expanded out active work) (λ dependencies.
      or_refuse (as_object dependencies) (λ fs.
        and_then (expand_dependencies_of rec fs fs active work)
          (λ gs. expanded (insert_value dependencies_key (object gs) out))))

-- The body of `expand` for an object: a reference, or the keywords in the order of the code.
unfoldable pub follow : Packages → (Json → Expand Json) → Json → Json → Expand Json
unfolding is_member remove_pointer reference_pointer
follow packages rec root reference active work = or_refuse (as_str reference) (λ text.
    or_refuse (reference_pointer text) (λ pointer.
      if is_member pointer active
      then refused
      else or_refuse (packages.pointer root pointer) (λ target.
        and_then (rec target (pointer ∷ active) work)
          (λ x a. expanded x (remove_pointer pointer a)))))

unfoldable pub expand_keywords : (Json → Expand Json) → Fields → Expand Json
unfolding expand_single expand_items expand_lists expand_objects expand_dependencies
expand_keywords rec node active work =
    and_then (expand_single rec single_keywords node node active work) (λ o1 a1 w1.
      and_then (expand_items rec node o1 a1 w1) (λ o2 a2 w2.
        and_then (expand_lists rec list_keywords node o2 a2 w2) (λ o3 a3 w3.
          and_then (expand_objects rec object_keywords node o3 a3 w3) (λ o4 a4 w4.
            and_then (expand_dependencies rec node o4 a4 w4) (λ o5. expanded (object o5))))))

unfoldable pub expand_node : Packages → (Json → Expand Json) → Json → Json → Expand Json
unfolding get add_work validate_schema_node_policy follow expand_keywords
expand_node packages rec root (object node) active work =
    or_refuse (validate_schema_node_policy packages node) (λ amount.
      or_refuse (add_work work amount) (λ more.
        if_some (get dollar_ref_key node) (expand_keywords rec node active more)
          (λ reference. follow packages rec root reference active more)))
expand_node packages rec root (boolean b) active work =
    or_refuse (add_work work 1) (λ more. expanded (boolean b) active more)
expand_node packages rec root _ active work = refused

unfoldable pub expand : Packages → Json → ℕ → Json → Expand Json
unfolding expand_node
expand packages root zero value active work = exhausted
expand packages root (suc fuel) value active work =
    expand_node packages (expand packages root fuel) root value active work

unfoldable pub expand_schema_references : Packages → Json → Expansion Json
unfolding expand
expand_schema_references packages root = expand packages root 257 root [] 0
