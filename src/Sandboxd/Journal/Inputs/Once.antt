-- ===== src/Sandboxd/Journal/Inputs/Once.antt =====
-- journal.rs: how often an input is executed, over all calls on a terminal and restarts of the daemon.
use gobrowseos.Prelude.{
  ℕ, ◌+◌, ◌≡◌, refl, ap, ◌∙◌, Option, none, some, List, [], ◌∷◌, map, arith, ◌==◌, if◌then◌else◌,
  lookup, lookup-remove, is_there, is_there-update, Assoc, Result, ok, err,
}
use gobrowseos.Sandboxd.Journal.Tables.{
  JournalError, InputStatus, pending, unknown, applied as status_applied, InputRow, TerminalRow,
}
use gobrowseos.Sandboxd.Journal.Terminals.{restart_row, forget_outcome, lose}
use gobrowseos.Sandboxd.Journal.Inputs.{
  InputDecision, execute, applied, begin_found, begin_row, complete_status, complete_found,
  complete_row, unknown_status, unknown_found, unknown_row, recorded,
}

pub data InputCall : Type 0 where
  begin_call : ℕ → ℕ → InputCall
  complete_call : ℕ → ℕ → InputCall
  unknown_call : ℕ → InputCall
  restart_call : InputCall

unfoldable pub apply_input : InputCall → TerminalRow → TerminalRow
apply_input (begin_call input fp) t = (begin_row t input fp).0
apply_input (complete_call input bytes) t = (complete_row t input bytes).0
apply_input (unknown_call input) t = unknown_row t input
apply_input restart_call t = restart_row t

abbrev pub is_execute : Result InputDecision JournalError → ℕ
is_execute (ok execute) = 1
is_execute (ok (applied n)) = 0
is_execute (err e) = 0

-- 1 if the call is told to execute the input.
pub executes_input : ℕ → InputCall → TerminalRow → ℕ
executes_input k (begin_call input fp) t =
    if input == k then is_execute (begin_row t input fp).1 else 0
executes_input k (complete_call input bytes) t = 0
executes_input k (unknown_call input) t = 0
executes_input k restart_call t = 0

unfoldable pub run_inputs : List InputCall → TerminalRow → TerminalRow
run_inputs [] t = t
run_inputs (c ∷ cs) t = run_inputs cs (apply_input c t)

pub executions : ℕ → List InputCall → TerminalRow → ℕ
executions k [] t = 0
executions k (c ∷ cs) t = executes_input k c t + executions k cs (apply_input c t)

-- 1 if the input is recorded.
abbrev pub recorded_input : ℕ → TerminalRow → ℕ
recorded_input k t = is_there (lookup k t.inputs)

is_execute-recorded : (s : InputStatus) (count : Option ℕ) → is_execute (recorded s count) ≡ 0
is_execute-recorded pending count = refl
is_execute-recorded unknown count = refl
is_execute-recorded status_applied none = refl
is_execute-recorded status_applied (some n) = refl

lookup-forget :
    (k : ℕ) (m : Assoc InputRow)
    → is_there (lookup k (map (λ (i, r). (i, forget_outcome r)) m)) ≡ is_there (lookup k m)
lookup-forget k [] = refl
lookup-forget k ((i, r) ∷ m) = ground (arith, lookup-forget k m)

pub lose-inputs : (t : TerminalRow) → (lose t).inputs ≡ t.inputs
lose-inputs t = ground arith

begin_found_conserves :
    (k input fp : ℕ) (t : TerminalRow) (o : Option InputRow)
    → lookup input t.inputs ≡ o
    → (if input == k then is_execute (begin_found t input fp o).1 else 0) + recorded_input k t
      ≡ recorded_input k (begin_found t input fp o).0
begin_found_conserves k input fp t none h = ground (arith, lookup-remove input k t.inputs)
begin_found_conserves k input fp t (some i) h =
    ground (arith, is_execute-recorded i.status i.byte_count)

complete_status_conserves :
    (k input bytes : ℕ) (t : TerminalRow) (i : InputRow) (s : InputStatus)
    → recorded_input k (complete_status t input bytes i s).0 ≡ recorded_input k t
complete_status_conserves k input bytes t i pending =
    is_there-update input k (record i { status = status_applied; byte_count = some bytes }) t.inputs
complete_status_conserves k input bytes t i unknown = refl
complete_status_conserves k input bytes t i status_applied = refl

complete_found_conserves :
    (k input bytes : ℕ) (t : TerminalRow) (o : Option InputRow)
    → recorded_input k (complete_found t input bytes o).0 ≡ recorded_input k t
complete_found_conserves k input bytes t none = refl
complete_found_conserves k input bytes t (some i) =
    complete_status_conserves k input bytes t i i.status

unknown_status_conserves :
    (k input : ℕ) (t : TerminalRow) (i : InputRow) (s : InputStatus)
    → recorded_input k (unknown_status t input i s) ≡ recorded_input k t
unknown_status_conserves k input t i pending =
    is_there-update input k (record i { status = unknown }) t.inputs
unknown_status_conserves k input t i unknown = refl
unknown_status_conserves k input t i status_applied = refl

unknown_found_conserves :
    (k input : ℕ) (t : TerminalRow) (o : Option InputRow)
    → recorded_input k (unknown_found t input o) ≡ recorded_input k t
unknown_found_conserves k input t none = refl
unknown_found_conserves k input t (some i) = unknown_status_conserves k input t i i.status

restart_conserves :
    (k : ℕ) (t : TerminalRow) → recorded_input k (restart_row t) ≡ recorded_input k t
unfolding restart_row
restart_conserves k t =
    lookup-forget k (lose t).inputs ∙ ap (λ m. is_there (lookup k m)) (lose-inputs t)

apply_input_conserves :
    (k : ℕ) (c : InputCall) (t : TerminalRow)
    → executes_input k c t + recorded_input k t ≡ recorded_input k (apply_input c t)
unfolding executes_input apply_input begin_row complete_row unknown_row
apply_input_conserves k (begin_call input fp) t =
    begin_found_conserves k input fp t (lookup input t.inputs) refl
apply_input_conserves k (complete_call input bytes) t =
    ground (arith, complete_found_conserves k input bytes t (lookup input t.inputs))
apply_input_conserves k (unknown_call input) t =
    omega (arith, unknown_found_conserves k input t (lookup input t.inputs))
apply_input_conserves k restart_call t = omega (arith, restart_conserves k t)

-- Over any sequence of calls and restarts an input of a terminal is told to be executed exactly as
-- often as it becomes recorded: once if it was not recorded before and is afterwards, and otherwise
-- never.
pub executions_recorded :
    (k : ℕ) (cs : List InputCall) (t : TerminalRow)
    → executions k cs t + recorded_input k t ≡ recorded_input k (run_inputs cs t)
unfolding executions run_inputs
executions_recorded k [] t = omega arith
executions_recorded k (c ∷ cs) t =
    omega (arith, apply_input_conserves k c t, executions_recorded k cs (apply_input c t))
