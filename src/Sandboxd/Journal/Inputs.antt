-- ===== src/Sandboxd/Journal/Inputs.antt =====
-- journal.rs, `begin_input`, `complete_input` and `mark_input_unknown`: the inputs written to a terminal.
pub mod Once
pub mod Settled
use gobrowseos.Prelude.{
  ℕ, Bool, true, false, not, Option, none, some, List, [], ◌∷◌, leb, ltb, ◌==◌, if◌then◌else◌,
  Assoc, lookup, insert, update, Result, ok, err, i64_max,
}
use gobrowseos.Sandboxd.Journal.Tables.{
  JournalError, sqlite, corrupt, conflict, outcome_unknown, InputStatus, pending, unknown,
  applied as status_applied, InputRow, TerminalRow, Journal,
}
use gobrowseos.Sandboxd.Journal.Output.{commit}

pub data InputDecision : Type 0 where
  execute : InputDecision
  applied : ℕ → InputDecision

abbrev pub pending_input : ℕ → InputRow
pending_input fp = record { fingerprint = fp; status = pending; byte_count = none }

-- What a recorded input answers to the same request.
abbrev pub recorded : InputStatus → Option ℕ → Result InputDecision JournalError
recorded status_applied (some n) = ok (applied n)
recorded status_applied none = err corrupt
recorded pending count = err outcome_unknown
recorded unknown count = err outcome_unknown

-- `begin_input` on the terminal's rows, given the row that the query found.
abbrev pub begin_found :
    TerminalRow → ℕ → ℕ → Option InputRow → TerminalRow × Result InputDecision JournalError
begin_found t input fp none =
    (record t { inputs = insert input (pending_input fp) t.inputs }, ok execute)
begin_found t input fp (some i) =
    if not (i.fingerprint == fp) then (t, err conflict) else (t, recorded i.status i.byte_count)

unfoldable pub begin_row : TerminalRow → ℕ → ℕ → TerminalRow × Result InputDecision JournalError
begin_row t input fp = begin_found t input fp (lookup input t.inputs)

-- An update `WHERE status = 'PENDING'`.
abbrev pub complete_status :
    TerminalRow → ℕ → ℕ → InputRow → InputStatus → TerminalRow × Result (Unit {0}) JournalError
complete_status t input bytes i pending = (
  record t {
    inputs = update input (record i { status = status_applied; byte_count = some bytes }) t.inputs;
  },
  ok tt,
)
complete_status t input bytes i status_applied = (t, err outcome_unknown)
complete_status t input bytes i unknown = (t, err outcome_unknown)

abbrev pub complete_found :
    TerminalRow → ℕ → ℕ → Option InputRow → TerminalRow × Result (Unit {0}) JournalError
complete_found t input bytes none = (t, err outcome_unknown)
complete_found t input bytes (some i) = complete_status t input bytes i i.status

unfoldable pub complete_row : TerminalRow → ℕ → ℕ → TerminalRow × Result (Unit {0}) JournalError
complete_row t input bytes =
    if ltb i64_max bytes
    then (t, err corrupt)
    else complete_found t input bytes (lookup input t.inputs)

abbrev pub unknown_status : TerminalRow → ℕ → InputRow → InputStatus → TerminalRow
unknown_status t input i pending = record t {
  inputs = update input (record i { status = unknown }) t.inputs;
}
unknown_status t input i status_applied = t
unknown_status t input i unknown = t

abbrev pub unknown_found : TerminalRow → ℕ → Option InputRow → TerminalRow
unknown_found t input none = t
unknown_found t input (some i) = unknown_status t input i i.status

unfoldable pub unknown_row : TerminalRow → ℕ → TerminalRow
unknown_row t input = unknown_found t input (lookup input t.inputs)

module _ {Blob : Type 0} where
  -- A write of a terminal's rows.
  abbrev pub write {ℓ} :
      {A : Type ℓ}
      → Journal Blob
      → ℕ
      → TerminalRow × Result A JournalError
      → Journal Blob × Result A JournalError
  write j id (t, r) = (record j { terminals = update id t j.terminals }, r)

  -- Inserting an input of a terminal that is not there violates the foreign key.
  unfoldable pub begin_input :
      Journal Blob → ℕ → ℕ → ℕ → Journal Blob × Result InputDecision JournalError
  begin_input j terminal input fp = elim (lookup terminal j.terminals) [
    | none ↦ (j, err sqlite)
    | some t ↦ write j terminal (begin_row t input fp)
  ]

  unfoldable pub complete_input :
      Journal Blob → ℕ → ℕ → ℕ → Journal Blob × Result (Unit {0}) JournalError
  complete_input j terminal input bytes = elim (lookup terminal j.terminals) [
    | none ↦ (j, err (if ltb i64_max bytes then corrupt else outcome_unknown))
    | some t ↦ write j terminal (complete_row t input bytes)
  ]

  unfoldable pub mark_input_unknown :
      Journal Blob → ℕ → ℕ → Journal Blob × Result (Unit {0}) JournalError
  mark_input_unknown j terminal input = elim (lookup terminal j.terminals) [
    | none ↦ (j, ok tt)
    | some t ↦ write j terminal (unknown_row t input, ok tt)
  ]
