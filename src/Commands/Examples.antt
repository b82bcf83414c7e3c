-- ===== src/Commands/Examples.antt =====
-- A command value and command schemas, and the theorems at them.
use nexigon.Base.{
  ◌+◌, ◌*◌, ◌≡◌, refl, [], ◌∷◌, none, some, true, same_bytes, if◌then◌else◌, take, drop, arith,
  List, ℕ, ltb, length,
}
use nexigon.Commands.Output.{
  CommandOutputBudget, consumes_bytes, consumes_line, LineSource, budget_with_limits,
  read_bounded_line, line_of, line_failed,
}
use nexigon.Commands.Output.Tail.{push, push-last_bytes}
use nexigon.Commands.Json.{
  Json, null, boolean, number, string, array, object, nil, cons, end, field, scalars, nodes,
}
use nexigon.Commands.Instance.{validate_command_instance, keeps_limits}
use nexigon.Commands.Instance.Admission.{validate_command_instance_lem}
use nexigon.Commands.Schema.{Packages}
use nexigon.Commands.Schema.Keywords.{dollar_ref_key, properties_key, all_of_key}
use nexigon.Commands.Schema.Tracking.{expanded, refused}
use nexigon.Commands.Schema.Expanding.{expand_schema_references}
use nexigon.Commands.Schema.Settling.{IsSettled}
use nexigon.Commands.Schema.Termination.{expand_schema_references-IsSettled}

-- `{"a": [true, 12], "b": null}`
abbrev value : Json
value = object (
    field (97 ∷ []) (array (cons (boolean true) (cons (number (49 ∷ 50 ∷ [])) nil)))
      (field (98 ∷ []) null end))

value-admitted : validate_command_instance value ≡ some 325
unfolding validate_command_instance
value-admitted = refl

validate_command_instance_lem_example :
    validate_command_instance value
    ≡ (if keeps_limits value then some (scalars value + nodes value * 64) else none)
validate_command_instance_lem_example = validate_command_instance_lem value

-- A lookup that knows the whole schema and its entry `/p`.
abbrev packages : Packages
packages = record {
  pointer = λ root p. if same_bytes p [] then some root else some (boolean true);
  compiles = λ t. true;
}

-- `{"$ref": "#/p"}` and `{"$ref": "#"}`
abbrev entry_reference : Json
entry_reference = object (field dollar_ref_key (string (35 ∷ 47 ∷ 112 ∷ [])) end)

abbrev own_reference : Json
own_reference = object (field dollar_ref_key (string (35 ∷ [])) end)

-- `{"properties": {"a": {"$ref": "#/p"}}, "allOf": [{"$ref": "#/p"}]}`, and the same with `{"$ref": "#"}`.
abbrev schema : Json → Json
schema reference = object (
    field properties_key (object (field (97 ∷ []) reference end))
      (field all_of_key (array (cons reference nil)) end))

schema-expanded :
    expand_schema_references packages (schema entry_reference)
    ≡ expanded (schema (boolean true)) [] 5
unfolding expand_schema_references
schema-expanded = refl

schema-circular : expand_schema_references packages (schema own_reference) ≡ refused
unfolding expand_schema_references
schema-circular = refl

expand_schema_references-IsSettled_example :
    IsSettled [] 0 (expand_schema_references packages (schema own_reference))
expand_schema_references-IsSettled_example =
    expand_schema_references-IsSettled packages (schema own_reference)

-- Output in memory, of which two bytes are buffered at a time.
abbrev memory_lines : LineSource (List ℕ)
memory_lines = record {
  fill_buf = λ bs. (bs, some (take 2 bs));
  meanwhile = λ bs. [];
  consume = λ bs n. drop n bs;
}

-- The other reader takes one byte whenever this one waits, and a line as soon as less than two bytes are left.
abbrev contended_lines : LineSource (List ℕ)
contended_lines = record memory_lines {
  meanwhile = λ bs. consumes_bytes 1 ∷ (if ltb (length bs) 2 then consumes_line ∷ [] else []);
}

abbrev two_lines : List ℕ
two_lines = 97 ∷ 98 ∷ 99 ∷ 10 ∷ 100 ∷ []

abbrev spent_line : CommandOutputBudget
spent_line = record { budget_bytes = 4; budget_lines = 1; max_bytes = 8; max_lines = 3 }

two_lines-first :
    read_bounded_line memory_lines 4 two_lines (budget_with_limits 8 3)
    ≡ (100 ∷ [], spent_line, line_of (97 ∷ 98 ∷ 99 ∷ 10 ∷ []))
unfolding read_bounded_line budget_with_limits
two_lines-first = refl

two_lines-long :
    read_bounded_line memory_lines 3 two_lines (budget_with_limits 8 3)
    ≡ (99 ∷ 10 ∷ 100 ∷ [], record spent_line { budget_bytes = 2; budget_lines = 0 }, line_failed)
unfolding read_bounded_line budget_with_limits
two_lines-long = refl

abbrev contended_line : CommandOutputBudget
contended_line = record { budget_bytes = 6; budget_lines = 1; max_bytes = 8; max_lines = 3 }

two_lines-contended :
    read_bounded_line contended_lines 4 two_lines (budget_with_limits 8 3)
    ≡ (100 ∷ [], contended_line, line_of (97 ∷ 98 ∷ 99 ∷ 10 ∷ []))
unfolding read_bounded_line budget_with_limits
two_lines-contended = refl

push-last_bytes_example : push 3 (1 ∷ 2 ∷ []) (3 ∷ 4 ∷ []) ≡ 2 ∷ 3 ∷ 4 ∷ []
push-last_bytes_example = push-last_bytes 3 (1 ∷ 2 ∷ []) (3 ∷ 4 ∷ []) (omega arith) (omega arith)
