-- ===== src/Commands/Output.antt =====
-- crates/apps/nexigon-agent/src/handlers.rs: the budget of a command's output, and the lines that are read
-- within it. The buffered reader is an argument.
pub mod Sharing
pub mod Lines
pub mod Tail
use nexigon.Base.{
  ℕ, zero, suc, ◌+◌, ◌-◌, if_some, List, [], ◌∷◌, ◌++◌, Option, none, some, Bool, true, false, ltb,
  leb, ◌==◌, if◌then◌else◌, length, take, get_elem?, checked_add, usize_max,
}

pub record CommandOutputBudget : Type 0 where
  pub budget_bytes : ℕ
  pub budget_lines : ℕ
  pub max_bytes : ℕ
  pub max_lines : ℕ

unfoldable pub budget_with_limits : ℕ → ℕ → CommandOutputBudget
budget_with_limits max_bytes max_lines = record {
  budget_bytes = 0;
  budget_lines = 0;
  max_bytes = max_bytes;
  max_lines = max_lines;
}

-- `none` stands for an error, which leaves the budget as it is.
unfoldable pub consume_bytes : CommandOutputBudget → ℕ → Option CommandOutputBudget
consume_bytes b n = elim (checked_add usize_max b.budget_bytes n) [
  | none ↦ none
  | some total ↦ if ltb b.max_bytes total then none else some (record b { budget_bytes = total })
]

unfoldable pub consume_line : CommandOutputBudget → Option CommandOutputBudget
consume_line b =
    if leb b.max_lines b.budget_lines
    then none
    else some (record b { budget_lines = suc b.budget_lines })

-- The state of the budget is shared by the readers of both outputs of the command: what the other reader does to
-- it while one waits for its output is a sequence of these calls.
pub data BudgetCall : Type 0 where
  consumes_bytes : ℕ → BudgetCall
  consumes_line : BudgetCall

unfoldable pub budget_step : CommandOutputBudget → BudgetCall → CommandOutputBudget
unfolding consume_bytes consume_line
budget_step b (consumes_bytes n) = if_some (consume_bytes b n) b (λ spent. spent)
budget_step b consumes_line = if_some (consume_line b) b (λ spent. spent)

unfoldable pub run_budget : CommandOutputBudget → List BudgetCall → CommandOutputBudget
unfolding budget_step
run_budget b [] = b
run_budget b (c ∷ cs) = run_budget (budget_step b c) cs

-- `AsyncBufRead`: `fill_buf`, with `none` for an error, and `consume`. Any calls may be made `meanwhile`, while
-- `fill_buf` waits.
pub record LineSource {ℓ} (R : Type ℓ) : Type ℓ where
  pub fill_buf : R → R × Option (List ℕ)
  pub meanwhile : R → List BudgetCall
  pub consume : R → ℕ → R

-- What the reading of a line ends with; `starved` is fuel that was too little.
pub data Line : Type 0 where
  no_more : Line
  line_of : List ℕ → Line
  line_failed : Line
  starved : Line

-- The number of bytes up to the first newline, which is the byte 10, and with it.
unfoldable pub line_end : List ℕ → ℕ
line_end [] = 0
line_end (b ∷ bs) = let rest = line_end bs in if b == 10 then 1 else suc rest

unfoldable pub is_complete : List ℕ → Bool
unfolding line_end
is_complete available = elim (get_elem? available (line_end available - 1)) [
  | none ↦ false
  | some b ↦ b == 10
]

abbrev pub end_line {ℓ} :
    {R : Type ℓ} → R → List ℕ → CommandOutputBudget → R × CommandOutputBudget × Line
end_line r line b = if_some (consume_line b) (r, b, line_failed) (λ spent. (r, spent, line_of line))

-- What `fill_buf` gives: an error, the end of the output, or some bytes.
abbrev pub filled {ℓ} :
    {R : Type ℓ}
    → R × Option (List ℕ)
    → List ℕ
    → CommandOutputBudget
    → (R → List ℕ → R × CommandOutputBudget × Line)
    → R × CommandOutputBudget × Line
filled (r, none) line b k = (r, b, line_failed)
filled (r, some []) [] b k = (r, b, no_more)
filled (r, some []) (x ∷ line) b k = end_line r (x ∷ line) b
filled (r, some (x ∷ xs)) line b k = k r (x ∷ xs)

module _ {ℓ} {R : Type ℓ} (source : LineSource R) (max_line_len : ℕ) where
  unfoldable pub read_line_from :
      ℕ → R → List ℕ → CommandOutputBudget → R × CommandOutputBudget × Line
  unfolding run_budget consume_bytes consume_line line_end is_complete
  read_line_from zero r line b = (r, b, starved)
  read_line_from (suc fuel) r line before =
      let b = run_budget before (source.meanwhile r) in
      filled (source.fill_buf r) line b (λ s available.
        if_some (checked_add usize_max (length line) (line_end available)) (s, b, line_failed)
          (λ new_len.
            if ltb max_line_len new_len
            then (s, b, line_failed)
            else if_some (consume_bytes b (line_end available)) (s, b, line_failed)
                (λ spent.
                  let longer = line ++ take (line_end available) available in
                  let rest = source.consume s (line_end available) in
                  if is_complete available
                  then end_line rest longer spent
                  else read_line_from fuel rest longer spent)))

  unfoldable pub read_bounded_line : R → CommandOutputBudget → R × CommandOutputBudget × Line
  unfolding read_line_from
  read_bounded_line r b = read_line_from (suc max_line_len) r [] b
