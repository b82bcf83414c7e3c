-- ===== src/Commands/Output/Lines.antt =====
-- crates/apps/nexigon-agent/src/handlers.rs: the bounds on a line of a command's output.
use nexigon.Base.{ℕ, ◌+◌, ◌≤◌, ◌≡◌, List, length}
use nexigon.Commands.Output.Sharing.{Shared}
use nexigon.Commands.Output.{CommandOutputBudget, Line, no_more, line_of, line_failed, starved}

-- A budget that is kept.
abbrev pub IsKept : CommandOutputBudget → Type 0
IsKept b = (b.budget_bytes ≤ b.max_bytes) × (b.budget_lines ≤ b.max_lines)

-- From the budget `start`, `bytes` and `lines` at least were spent within the same limits.
abbrev pub Spent : CommandOutputBudget → ℕ → ℕ → CommandOutputBudget → Type 0
Spent start bytes lines b =
    (start.budget_bytes + bytes ≤ b.budget_bytes)
    × (b.budget_bytes ≤ start.max_bytes)
    × (start.budget_lines + lines ≤ b.budget_lines)
    × (b.budget_lines ≤ start.max_lines)
    × (b.max_bytes ≡ start.max_bytes)
    × (b.max_lines ≡ start.max_lines)

-- The reading of a line from the budget `start` ends within the bounds.
abbrev pub IsRead {ℓ} :
    {R : Type ℓ} → CommandOutputBudget → ℕ → R × CommandOutputBudget × Line → Type 0
IsRead start most (r, b, no_more) = Shared start 0 0 b × Spent start 0 0 b
IsRead start most (r, b, line_of line) =
    (1 ≤ length line)
    × (length line ≤ most)
    × Shared start (length line) 1 b
    × Spent start (length line) 1 b
IsRead start most (r, b, line_failed) = Spent start 0 0 b
IsRead start most (r, b, starved) = ⊥

-- What holds while the line so far is read.
abbrev IsSpent : CommandOutputBudget → ℕ → List ℕ → CommandOutputBudget → Type 0
IsSpent start most line b =
    (length line ≤ most) × Shared start (length line) 0 b × Spent start (length line) 0 b
