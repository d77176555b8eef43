-- ===== src/Sandboxd/Journal/Restart.antt =====
-- journal.rs: a restart of the daemon, and the states of terminals as the journal writes and reads them.
use gobrowseos.Prelude.{
  ℕ, ◌≡◌, refl, sym, ap, ◌∙◌, Bool, true, false, Option, some, [], ◌∷◌, arith, if◌then◌else◌,
  Bool-cases, inl, inr, Assoc, lookup, update, lookup-update, ℤ, Result, ok, err, not,
}
use Prim.Native.String.{String}
use gobrowseos.Sandboxd.Journal.Tables.{
  JournalError, TerminalState, running, terminating, unrecoverable, lost, exited, terminated,
  state_name, parse_state, InputStatus, InputRow, pending, applied, unknown, TerminalRow, Journal,
}
use gobrowseos.Sandboxd.Journal.Terminals.{
  forget_status, forget_outcome, is_live, forget_all, lose, restart_row, restart_rows, live_ids,
  reconcile_restart, set_state, record_of, query_record, coalesce,
}

-- Reading a state back gives the state that was written.
pub parse_state-state_name : (s : TerminalState) → parse_state (state_name s) ≡ ok s
unfolding parse_state state_name
parse_state-state_name running = refl
parse_state-state_name terminating = refl
parse_state-state_name unrecoverable = refl
parse_state-state_name lost = refl
parse_state-state_name exited = refl
parse_state-state_name terminated = refl

lose-live : (t : TerminalRow) → is_live t.state ≡ true → is_live (lose t).state ≡ false
lose-live t h = rw h refl

lose-is_live : (t : TerminalRow) → is_live (lose t).state ≡ false
lose-is_live t = elim (Bool-cases (is_live t.state)) [
  | inl live ↦ rw live refl
  | inr gone ↦ rw gone gone
]

restart_row-is_live : (t : TerminalRow) → is_live (restart_row t).state ≡ false
unfolding restart_row
restart_row-is_live t = lose-is_live t

lose_twice : (t : TerminalRow) → is_live t.state ≡ false → lose t ≡ t
lose_twice t h = rw h refl

forget_twice :
    (i : InputRow) (s : InputStatus)
    → i.status ≡ s
    → forget_outcome (forget_status i s) ≡ forget_status i s
forget_twice i pending h = refl
forget_twice i applied h = rw h refl
forget_twice i unknown h = rw h refl

forget_all_twice : (m : Assoc InputRow) → forget_all (forget_all m) ≡ forget_all m
forget_all_twice [] = refl
forget_all_twice ((k, i) ∷ m) = rw (forget_twice i i.status refl) (rw (forget_all_twice m) refl)

restart_row_twice : (t : TerminalRow) → restart_row (restart_row t) ≡ restart_row t
unfolding restart_row
restart_row_twice t =
    ap (λ (u : TerminalRow). record u { inputs = forget_all u.inputs })
      (lose_twice (restart_row t) (restart_row-is_live t))
    ∙ ap (λ m. record (lose t) { inputs = m }) (forget_all_twice (lose t).inputs)

none_live : (m : Assoc TerminalRow) → live_ids (restart_rows m) ≡ []
unfolding live_ids restart_rows
none_live [] = refl
none_live ((id, t) ∷ m) = rw (restart_row-is_live t) (none_live m)

restart_rows_twice : (m : Assoc TerminalRow) → restart_rows (restart_rows m) ≡ restart_rows m
unfolding restart_rows
restart_rows_twice [] = refl
restart_rows_twice ((id, t) ∷ m) = rw (restart_row_twice t) (rw (restart_rows_twice m) refl)

lookup-restart :
    (id : ℕ) (t : TerminalRow) (m : Assoc TerminalRow)
    → lookup id m ≡ some t
    → lookup id (restart_rows m) ≡ some (restart_row t)
unfolding restart_rows
lookup-restart id t [] h = cc
lookup-restart id t ((i, u) ∷ m) h = ground (arith, lookup-restart id t m)

-- Whether what is reported of a terminal outlives a restart: its process has ended, or its state is
-- none that is known.
abbrev pub outlives_restart : Result TerminalState JournalError → Bool
outlives_restart (ok running) = false
outlives_restart (ok terminating) = false
outlives_restart (ok unrecoverable) = false
outlives_restart (ok lost) = true
outlives_restart (ok exited) = true
outlives_restart (ok terminated) = true
outlives_restart (err e) = true

outlives_restart-parse_state : (s : String) → outlives_restart (parse_state s) ≡ not (is_live s)
unfolding parse_state
outlives_restart-parse_state s = ground arith

if_not : {A : Type 0} (x y : A) (b : Bool) → (if not b then x else y) ≡ (if b then y else x)
if_not x y true = refl
if_not x y false = refl

module _ {Blob : Type 0} where
  -- Reconciling a second time finds no live terminal and changes nothing.
  pub reconcile_restart_twice :
      (j : Journal Blob) → let once = (reconcile_restart j).0 in reconcile_restart once ≡ (once, [])
  unfolding reconcile_restart
  reconcile_restart_twice j = rw (restart_rows_twice j.terminals) (rw (none_live j.terminals) refl)

  -- A state that is set on a terminal of the journal is the state that the terminal is reported
  -- in, with the exit code and reason given; the output stays complete or not unless that is
  -- given.
  pub set_state-query_record :
      (j : Journal Blob) (id : ℕ) (state : TerminalState) (code : Option ℤ) (reason : Option String)
      (complete : Option Bool) (t : TerminalRow)
      → lookup id j.terminals ≡ some t
      → query_record (set_state j id state code reason complete).0 id
        ≡ ok (
            record_of id
              (record t {
                exit_code = code;
                reason = reason;
                output_complete = coalesce complete t.output_complete;
              })
              state)
  unfolding set_state query_record
  set_state-query_record j id state code reason complete t h =
      let row : TerminalRow = record t {
        state = state_name state;
        exit_code = code;
        reason = reason;
        output_complete = coalesce complete t.output_complete;
      } in
      let found : lookup id (update id row j.terminals) ≡ some row =
        ground (arith, lookup-update id id row j.terminals) in
      rw (h, set_state) (rw found (rw (parse_state-state_name state) refl))

  query_record-restart_live :
      (j : Journal Blob) (id : ℕ) (t : TerminalRow)
      → lookup id j.terminals ≡ some t
      → query_record (reconcile_restart j).0 id ≡ (
          if is_live t.state
          then ok (
              record_of id
                (record t { reason = some "daemon_restart_pty_lost"; output_complete = false })
                lost)
          else query_record j id)
  unfolding reconcile_restart query_record restart_row parse_state
  query_record-restart_live j id t h = elim (Bool-cases (is_live t.state)) [
    | inl live ↦ rw (lookup-restart id t j.terminals h) (rw live refl)
    | inr gone ↦ rw (lookup-restart id t j.terminals h) (rw gone (rw h refl))
  ]

  -- After a restart a terminal that was reported running, terminating or unrecoverable is reported
  -- lost, with its output incomplete and its cursors, size and exit code as they were; any other
  -- terminal of the journal is reported as before.
  pub reconcile_restart-query_record :
      (j : Journal Blob) (id : ℕ) (t : TerminalRow)
      → lookup id j.terminals ≡ some t
      → query_record (reconcile_restart j).0 id ≡ (
          if outlives_restart (parse_state t.state)
          then query_record j id
          else ok (
              record_of id
                (record t { reason = some "daemon_restart_pty_lost"; output_complete = false })
                lost))
  reconcile_restart-query_record j id t h =
      rw (outlives_restart-parse_state t.state)
        (query_record-restart_live j id t h ∙ sym (if_not _ _ (is_live t.state)))
