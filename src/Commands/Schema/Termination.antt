-- ===== src/Commands/Schema/Termination.antt =====
-- crates/apps/nexigon-agent/src/handlers.rs: the end of an expansion of the references of a schema.
use nexigon.Base.{
  ℕ, suc, zero, ◌+◌, ◌≤◌, ◌≡◌, refl, sym, subst, List, [], ◌∷◌, some, arith, either_way,
  same_bytes_refl, bind-some, checked_add, usize_max, length, if_some_way, Option,
}
use nexigon.Commands.Json.{Json, null, number, string, boolean, array, object, Fields, field, end}
use nexigon.Commands.Schema.{
  get, as_str, Packages, validate_schema_node_policy, pattern_work, keys_work,
  pattern_properties_work, reference_pointer, pattern_key, pattern_properties_key,
  validate_linear_pattern_str, as_object, validate_linear_pattern, validate_dialect,
  validate_format, contains_key,
}
use nexigon.Commands.Schema.Keywords.{
  dollar_ref_key, single_keywords, list_keywords, object_keywords, dollar_id_key, pattern_key,
  pattern_properties_key,
}
use nexigon.Commands.Schema.Tracking.{
  Expansion, expanded, refused, is_member, remove_pointer, and_then, exhausted,
}
use nexigon.Commands.Schema.Expanding.{
  Expand, add_work, expand_single, expand_items, expand_lists, expand_objects, expand_dependencies,
  follow, expand_keywords, expand_node, expand, expand_schema_references,
}
use nexigon.Commands.Schema.Settling.{
  IsSettled, Settles, IsSettled-mono, and_then-IsSettled, or_refuse-IsSettled,
  expand_single-IsSettled, expand_items-IsSettled, expand_lists-IsSettled, expand_objects-IsSettled,
  expand_dependencies-IsSettled,
}

remove_pointer_inserted : (p : List ℕ) (ps : List (List ℕ)) → remove_pointer p (p ∷ ps) ≡ ps
unfolding remove_pointer
remove_pointer_inserted p ps = rw (same_bytes_refl p) refl

add_work-some : (v a w : ℕ) → add_work v a ≡ some w → (w ≡ v + a) × (w ≤ 256)
unfolding add_work
add_work-some v a w e = ground arith

-- Once a reference is followed, its pointer is active no more.
leaves :
    (a : List (List ℕ)) (w : ℕ) (p : List ℕ) (o : Expansion Json)
    → IsSettled (p ∷ a) w o
    → IsSettled a w (and_then o (λ x b. expanded x (remove_pointer p b)))
leaves a w p (expanded x b v) (e, i, j) =
    (subst (λ c. remove_pointer p c ≡ a) (sym e) (remove_pointer_inserted p a), i, j)
leaves a w p refused s = s
leaves a w p exhausted s = s

module _ (fuel : ℕ) (rec : Json → Expand Json) (settles : Settles fuel rec) where
  expand_keywords-IsSettled :
      (node : Fields) (a : List (List ℕ)) (w : ℕ)
      → 257 ≤ fuel + w
      → w ≤ 256
      → IsSettled a w (expand_keywords rec node a w)
  unfolding expand_keywords
  expand_keywords-IsSettled node a w h k =
      and_then-IsSettled a w (expand_single rec single_keywords node node a w) _
        (expand_single-IsSettled fuel rec settles single_keywords node node a w h k)
        (λ o1 w1 p1 q1.
          and_then-IsSettled a w1 (expand_items rec node o1 a w1) _
            (expand_items-IsSettled fuel rec settles node o1 a w1 (omega arith) q1)
            (λ o2 w2 p2 q2.
              and_then-IsSettled a w2 (expand_lists rec list_keywords node o2 a w2) _
                (expand_lists-IsSettled fuel rec settles list_keywords node o2 a w2 (omega arith)
                  q2)
                (λ o3 w3 p3 q3.
                  and_then-IsSettled a w3 (expand_objects rec object_keywords node o3 a w3) _
                    (expand_objects-IsSettled fuel rec settles object_keywords node o3 a w3
                      (omega arith) q3)
                    (λ o4 w4 p4 q4.
                      and_then-IsSettled a w4 (expand_dependencies rec node o4 a w4) _
                        (expand_dependencies-IsSettled fuel rec settles node o4 a w4 (omega arith)
                          q4)
                        (λ o5 w5 p5 q5. (refl, omega arith, q5))))))

  follow-IsSettled :
      (packages : Packages) (root reference : Json) (a : List (List ℕ)) (w : ℕ)
      → 257 ≤ fuel + w
      → w ≤ 256
      → IsSettled a w (follow packages rec root reference a w)
  unfolding follow
  follow-IsSettled packages root reference a w h k =
      or_refuse-IsSettled a w (as_str reference) _ (λ text is_text.
        or_refuse-IsSettled a w (reference_pointer text) _ (λ p is_pointer.
          either_way (IsSettled a w) (is_member p a) _ _ tt (
            or_refuse-IsSettled a w (packages.pointer root p) _ (λ target found.
              leaves a w p (rec target (p ∷ a) w) (settles target (p ∷ a) w h k)))))

-- A schema adds at least one to the work.
keys_work-some :
    (packages : Packages) (fs : Fields) (n m : ℕ) → keys_work packages fs n ≡ some m → n ≤ m
unfolding keys_work
keys_work-some packages end n m e = let same : n ≡ m = cc in omega arith
keys_work-some packages (field key x fs) n m e =
    let (u, p, q) = bind-some (validate_linear_pattern_str packages key) _ m e in
    let (k, i, j) = bind-some (checked_add usize_max n (length key)) _ m q in
    let more = keys_work-some packages fs k m j in
    let sum : k ≡ n + length key = ground arith in omega arith

-- `AtLeast n o` says that a count in `o` is not below `n`.
abbrev AtLeast : ℕ → Option ℕ → Type 0
AtLeast n o = (m : ℕ) → o ≡ some m → n ≤ m

some-AtLeast : (n : ℕ) → AtLeast n (some n)
some-AtLeast n m e = let same : n ≡ m = cc in omega arith

pattern_work-AtLeast :
    (packages : Packages) (node : Fields) (n : ℕ) → AtLeast n (pattern_work packages node n)
unfolding pattern_work
pattern_work-AtLeast packages node n =
    if_some_way (AtLeast n) (get pattern_key node) _ _ (some-AtLeast n) (λ x present m e.
      let (t, p, q) = bind-some (validate_linear_pattern packages x) _ m e in
      let sum : m ≡ n + length t = ground arith in omega arith)

pattern_properties_work-AtLeast :
    (packages : Packages) (node : Fields) (n : ℕ)
    → AtLeast n (pattern_properties_work packages node n)
unfolding pattern_properties_work
pattern_properties_work-AtLeast packages node n =
    if_some_way (AtLeast n) (get pattern_properties_key node) _ _ (some-AtLeast n) (λ x present m e.
      let (fs, p, q) = bind-some (as_object x) _ m e in keys_work-some packages fs n m q)

validate_schema_node_policy-AtLeast :
    (packages : Packages) (node : Fields) → AtLeast 1 (validate_schema_node_policy packages node)
unfolding validate_schema_node_policy
validate_schema_node_policy-AtLeast packages node =
    either_way (AtLeast 1) (contains_key dollar_id_key node) _ _ (λ m e. absurd (cc))
      (λ m e.
        let (d, i, j) = bind-some (validate_dialect node) _ m e in
        if_some_way (AtLeast 1) (get dollar_ref_key node) _ _
          (λ k f.
            let (u, p, q) = bind-some (pattern_work packages node 1) _ k f in
            let (v, r, s) = bind-some (pattern_properties_work packages node u) _ k q in
            let (t, x, y) = bind-some (validate_format node) _ k s in
            let same : v ≡ k = cc in
            let a = pattern_work-AtLeast packages node 1 u p in
            let b = pattern_properties_work-AtLeast packages node u v r in omega arith)
          (λ reference present k f.
            let (t, x, y) = bind-some (as_str reference) _ k f in
            let same : 1 ≡ k = cc in omega arith)
          m j)

module _ (fuel : ℕ) (rec : Json → Expand Json) (settles : Settles fuel rec) where
  expand_node-IsSettled :
      (packages : Packages) (root x : Json) (a : List (List ℕ)) (w : ℕ)
      → 257 ≤ suc fuel + w
      → w ≤ 256
      → IsSettled a w (expand_node packages rec root x a w)
  unfolding expand_node
  expand_node-IsSettled packages root (object node) a w h k =
      or_refuse-IsSettled a w (validate_schema_node_policy packages node) _ (λ amount allowed.
        or_refuse-IsSettled a w (add_work w amount) _ (λ more added.
          let (sum, bound) = add_work-some w amount more added in
          let positive = validate_schema_node_policy-AtLeast packages node amount allowed in
          IsSettled-mono a w more _ (omega arith) (
            if_some_way (IsSettled a more) (get dollar_ref_key node) _ _
              (expand_keywords-IsSettled fuel rec settles node a more (omega arith) bound)
              (λ reference present.
                follow-IsSettled fuel rec settles packages root reference a more (omega arith)
                  bound))))
  expand_node-IsSettled packages root (boolean b) a w h k =
      or_refuse-IsSettled a w (add_work w 1) _ (λ more added.
        let (sum, bound) = add_work-some w 1 more added in (refl, omega arith, bound))
  expand_node-IsSettled packages root null a w h k = tt
  expand_node-IsSettled packages root (number t) a w h k = tt
  expand_node-IsSettled packages root (string t) a w h k = tt
  expand_node-IsSettled packages root (array xs) a w h k = tt

expand-Settles :
    (packages : Packages) (root : Json) (fuel : ℕ) → Settles fuel (expand packages root fuel)
unfolding expand
expand-Settles packages root zero x a w h k = absurd (omega arith)
expand-Settles packages root (suc fuel) x a w h k =
    expand_node-IsSettled fuel (expand packages root fuel) (expand-Settles packages root fuel)
      packages root x a w h k

-- The expansion of the references of any schema ends with a schema or with an error, whatever the references
-- are, also where they lead in a circle. At the end no pointer is active, and the work is at most 256.
pub expand_schema_references-IsSettled :
    (packages : Packages) (root : Json) → IsSettled [] 0 (expand_schema_references packages root)
unfolding expand_schema_references
expand_schema_references-IsSettled packages root =
    expand-Settles packages root 257 root [] 0 (omega arith) (omega arith)
