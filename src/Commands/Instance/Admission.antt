-- ===== src/Commands/Instance/Admission.antt =====
-- crates/apps/nexigon-agent/src/handlers.rs: which values `validate_command_instance` admits.
use nexigon.Commands.Instance.{visit, validate_command_instance, keeps_limits}
use nexigon.Commands.Instance.Counting.{visit-Counts, visit_fits}
use nexigon.Base.{
  ◌+◌, ◌*◌, ◌≤◌, ◌≡◌, refl, none, some, arith, usize_max, if◌then◌else◌, le→leb, Bool-cases, inl,
  inr, Option-cases, true,
}
use nexigon.Commands.Json.{Json, nodes, scalars, height}

-- A value from a peer is admitted exactly if its depth, its number of values and the bytes of its keys and
-- scalars keep the limits, and then its cost is those bytes and 64 for each value. The checks on the way
-- neither refuse a value that is within the limits as a whole nor let another one pass.
pub validate_command_instance_lem :
    (v : Json)
    → validate_command_instance v
      ≡ (if keeps_limits v then some (scalars v + nodes v * 64) else none)
unfolding validate_command_instance
validate_command_instance_lem v = elim (Bool-cases (keeps_limits v)) [
  | inl keeps ↦
      let h : height v ≤ 64 = ground arith in
      let k : nodes v ≤ 1024 = ground arith in
      let s : scalars v ≤ 65536 = ground arith in
      rw
        (
          visit_fits v 0 0 0 (nodes v) (scalars v) (omega arith) (omega arith) k (omega arith) s,
          keeps,
          le→leb (nodes v * 64) usize_max (omega arith),
          le→leb (scalars v + nodes v * 64) usize_max (omega arith),
        )
        refl
  | inr breaks ↦ elim (Option-cases (visit v 0 0 0)) [
    | inl refused ↦ rw (breaks, refused) refl
    | inr (r, admitted) ↦
        let c = visit-Counts v 0 0 0 r admitted in
        let h : height v ≤ 64 = omega arith in
        let k : nodes v ≤ 1024 = omega arith in
        let s : scalars v ≤ 65536 = omega arith in
        let yes : keeps_limits v ≡ true = ground arith in absurd (cc)
  ]
]
