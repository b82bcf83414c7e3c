-- ===== src/Commands/Output/Sharing.antt =====
-- crates/apps/nexigon-agent/src/handlers.rs: what each of two readers takes from the budget that they share.
use nexigon.Base.{ℕ, suc, ◌+◌, ◌≡◌, refl, sym, ap, ◌∙◌, List, [], ◌∷◌, ◌++◌, map, some, arith}
use nexigon.Commands.Output.{
  CommandOutputBudget, BudgetCall, consumes_bytes, consumes_line, consume_bytes, consume_line,
  budget_step, run_budget,
}

-- A call of this reader or of the other one.
pub data Turn : Type 0 where
  own : BudgetCall → Turn
  other : BudgetCall → Turn

pub run_turns : CommandOutputBudget → List Turn → CommandOutputBudget
unfolding budget_step
run_turns b [] = b
run_turns b (own c ∷ ts) = run_turns (budget_step b c) ts
run_turns b (other c ∷ ts) = run_turns (budget_step b c) ts

-- What the calls of this reader ask for.
pub own_bytes : List Turn → ℕ
own_bytes [] = 0
own_bytes (own (consumes_bytes n) ∷ ts) = n + own_bytes ts
own_bytes (own consumes_line ∷ ts) = own_bytes ts
own_bytes (other c ∷ ts) = own_bytes ts

pub own_lines : List Turn → ℕ
own_lines [] = 0
own_lines (own (consumes_bytes n) ∷ ts) = own_lines ts
own_lines (own consumes_line ∷ ts) = suc (own_lines ts)
own_lines (other c ∷ ts) = own_lines ts

-- The budget `b` comes from `start` by calls of both readers, of which those of this reader take exactly
-- `bytes` and `lines`.
pub record Shared (start : CommandOutputBudget) (bytes lines : ℕ) (b : CommandOutputBudget)
    : Type 0 where
  pub turns : List Turn
  pub comes : b ≡ run_turns start turns
  pub takes_bytes : own_bytes turns ≡ bytes
  pub takes_lines : own_lines turns ≡ lines

run_turns-append :
    (b : CommandOutputBudget) (ts us : List Turn)
    → run_turns b (ts ++ us) ≡ run_turns (run_turns b ts) us
unfolding run_turns
run_turns-append b [] us = refl
run_turns-append b (own c ∷ ts) us = run_turns-append (budget_step b c) ts us
run_turns-append b (other c ∷ ts) us = run_turns-append (budget_step b c) ts us

own_bytes-append : (ts us : List Turn) → own_bytes (ts ++ us) ≡ own_bytes ts + own_bytes us
unfolding own_bytes
own_bytes-append [] us = omega arith
own_bytes-append (own (consumes_bytes n) ∷ ts) us = let rest = own_bytes-append ts us in omega arith
own_bytes-append (own consumes_line ∷ ts) us = own_bytes-append ts us
own_bytes-append (other c ∷ ts) us = own_bytes-append ts us

own_lines-append : (ts us : List Turn) → own_lines (ts ++ us) ≡ own_lines ts + own_lines us
unfolding own_lines
own_lines-append [] us = omega arith
own_lines-append (own (consumes_bytes n) ∷ ts) us = own_lines-append ts us
own_lines-append (own consumes_line ∷ ts) us = let rest = own_lines-append ts us in omega arith
own_lines-append (other c ∷ ts) us = own_lines-append ts us

run_turns-others :
    (b : CommandOutputBudget) (cs : List BudgetCall) → run_turns b (map other cs) ≡ run_budget b cs
unfolding run_turns run_budget
run_turns-others b [] = refl
run_turns-others b (c ∷ cs) = run_turns-others (budget_step b c) cs

own_bytes-others : (cs : List BudgetCall) → own_bytes (map other cs) ≡ 0
unfolding own_bytes
own_bytes-others [] = refl
own_bytes-others (c ∷ cs) = own_bytes-others cs

own_lines-others : (cs : List BudgetCall) → own_lines (map other cs) ≡ 0
unfolding own_lines
own_lines-others [] = refl
own_lines-others (c ∷ cs) = own_lines-others cs

pub start-Shared : (start : CommandOutputBudget) → Shared start 0 0 start
start-Shared start = record {
  turns = [];
  comes = unfold run_turns in refl;
  takes_bytes = unfold own_bytes in refl;
  takes_lines = unfold own_lines in refl;
}

more-Shared :
    (start b : CommandOutputBudget) (bytes lines : ℕ) (us : List Turn)
    → Shared start bytes lines b
    → Shared start (bytes + own_bytes us) (lines + own_lines us) (run_turns b us)
more-Shared start b bytes lines us s = record {
  turns = s.turns ++ us;
  comes = ap (λ x. run_turns x us) s.comes ∙ sym (run_turns-append start s.turns us);
  takes_bytes = own_bytes-append s.turns us ∙ ap (λ n. n + own_bytes us) s.takes_bytes;
  takes_lines = own_lines-append s.turns us ∙ ap (λ n. n + own_lines us) s.takes_lines;
}

-- The same accounts, written in another way.
same-Shared :
    (start b b' : CommandOutputBudget) (bytes bytes' lines lines' : ℕ)
    → b ≡ b'
    → bytes ≡ bytes'
    → lines ≡ lines'
    → Shared start bytes lines b
    → Shared start bytes' lines' b'
same-Shared start b b' bytes bytes' lines lines' e f g s = record {
  turns = s.turns;
  comes = sym e ∙ s.comes;
  takes_bytes = s.takes_bytes ∙ f;
  takes_lines = s.takes_lines ∙ g;
}

pub run_budget-Shared :
    (start b : CommandOutputBudget) (bytes lines : ℕ) (cs : List BudgetCall)
    → Shared start bytes lines b
    → Shared start bytes lines (run_budget b cs)
run_budget-Shared start b bytes lines cs s =
    let no_bytes = own_bytes-others cs in
    let no_lines = own_lines-others cs in
    same-Shared start (run_turns b (map other cs)) (run_budget b cs) _ bytes _ lines
      (run_turns-others b cs) (omega arith) (omega arith)
      (more-Shared start b bytes lines (map other cs) s)

pub consume_bytes-Shared :
    (start b spent : CommandOutputBudget) (bytes lines n : ℕ)
    → consume_bytes b n ≡ some spent
    → Shared start bytes lines b
    → Shared start (bytes + n) lines spent
consume_bytes-Shared start b spent bytes lines n paid s =
    let us = own (consumes_bytes n) ∷ [] in
    same-Shared start (run_turns b us) spent (bytes + own_bytes us) (bytes + n)
      (lines + own_lines us) lines (unfold run_turns budget_step in rw paid refl)
      (unfold own_bytes in omega arith) (unfold own_lines in omega arith)
      (more-Shared start b bytes lines us s)

pub consume_line-Shared :
    (start b spent : CommandOutputBudget) (bytes lines : ℕ)
    → consume_line b ≡ some spent
    → Shared start bytes lines b
    → Shared start bytes (lines + 1) spent
consume_line-Shared start b spent bytes lines paid s =
    let us = own consumes_line ∷ [] in
    same-Shared start (run_turns b us) spent (bytes + own_bytes us) bytes (lines + own_lines us)
      (lines + 1) (unfold run_turns budget_step in rw paid refl) (unfold own_bytes in omega arith)
      (unfold own_lines in omega arith) (more-Shared start b bytes lines us s)
