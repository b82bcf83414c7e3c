-- ===== src/Commands/Instance.antt =====
-- crates/apps/nexigon-agent/src/handlers.rs: `validate_command_instance`, which bounds a value from a peer
-- before it is validated against a schema. `none` stands for an error.
pub mod Counting
pub mod Admission
use nexigon.Base.{
  ℕ, suc, ◌+◌, ◌*◌, Bool, ◌&&◌, Option, none, some, length, leb, ltb, checked_add, usize_max,
  if◌then◌else◌, ◌>>=◌,
}
use nexigon.Commands.Json.{
  Json, null, boolean, number, string, array, object, Items, nil, cons, Fields, end, field, nodes,
  scalars, height,
}

abbrev pub max_command_instance_depth : ℕ
max_command_instance_depth = 64

abbrev pub max_command_instance_nodes : ℕ
max_command_instance_nodes = 1024

abbrev pub max_command_instance_scalar_bytes : ℕ
max_command_instance_scalar_bytes = 65536

-- The checks with which a visit begins and ends.
unfoldable pub begin_visit : ℕ → ℕ → Option ℕ
begin_visit depth n =
    if ltb max_command_instance_depth depth
    then none
    else checked_add usize_max n 1 >>= λ m.
        if ltb max_command_instance_nodes m then none else some m

unfoldable pub end_visit : ℕ → ℕ → Option (ℕ × ℕ)
end_visit n bytes = if ltb max_command_instance_scalar_bytes bytes then none else some (n, bytes)

-- `visit`, on the counts of nodes and of bytes.
unfoldable mutual
  unfolding begin_visit end_visit

  pub visit : Json → ℕ → ℕ → ℕ → Option (ℕ × ℕ)
  visit null depth n bytes = begin_visit depth n >>= λ m. end_visit m bytes
  visit (boolean b) depth n bytes = begin_visit depth n >>= λ m. end_visit m (bytes + 1)
  visit (number t) depth n bytes =
      begin_visit depth n >>= λ m. checked_add usize_max bytes (length t) >>= λ c. end_visit m c
  visit (string t) depth n bytes =
      begin_visit depth n >>= λ m. checked_add usize_max bytes (length t) >>= λ c. end_visit m c
  visit (array xs) depth n bytes =
      begin_visit depth n >>= λ m. visit_items xs (suc depth) m bytes >>= λ (k, c). end_visit k c
  visit (object fs) depth n bytes =
      begin_visit depth n >>= λ m. visit_fields fs (suc depth) m bytes >>= λ (k, c). end_visit k c

  pub visit_items : Items → ℕ → ℕ → ℕ → Option (ℕ × ℕ)
  visit_items nil depth n bytes = some (n, bytes)
  visit_items (cons x xs) depth n bytes =
      visit x depth n bytes >>= λ (k, c). visit_items xs depth k c

  pub visit_fields : Fields → ℕ → ℕ → ℕ → Option (ℕ × ℕ)
  visit_fields end depth n bytes = some (n, bytes)
  visit_fields (field key x fs) depth n bytes = checked_add usize_max bytes (length key) >>= λ b.
      visit x depth n b >>= λ (k, c). visit_fields fs depth k c

unfoldable pub validate_command_instance : Json → Option ℕ
unfolding visit
validate_command_instance v = visit v 0 0 0 >>= λ (n, bytes).
    (if leb (n * 64) usize_max then some (n * 64) else none) >>= λ work.
    checked_add usize_max bytes work

-- The limits that a value has to keep, and its cost.
abbrev pub keeps_limits : Json → Bool
keeps_limits v =
    (leb (height v) max_command_instance_depth && leb (nodes v) max_command_instance_nodes)
    && leb (scalars v) max_command_instance_scalar_bytes
