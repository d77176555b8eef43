-- ===== src/Sandboxd/Journal/Inputs/Settled.antt =====
-- journal.rs: the answers of an input whose outcome is recorded.
use gobrowseos.Prelude.{
  ℕ, ◌≤◌, ◌≡◌, refl, ap, ◌∙◌, Bool, true, false, Option, none, some, List, [], ◌∷◌, map, arith, ltb,
  lookup, update, lookup-remove, lookup-update, Assoc, ok, i64_max,
}
use gobrowseos.Sandboxd.Journal.Tables.{
  InputStatus, pending, unknown, applied as status_applied, InputRow, TerminalRow,
}
use gobrowseos.Sandboxd.Journal.Terminals.{restart_row, forget_status, forget_outcome, lose}
use gobrowseos.Sandboxd.Journal.Inputs.{
  applied, begin_found, begin_row, complete_status, complete_found, complete_row, unknown_status,
  unknown_found, unknown_row, recorded,
}
use gobrowseos.Sandboxd.Journal.Inputs.Once.{
  InputCall, begin_call, complete_call, unknown_call, restart_call, apply_input, run_inputs,
  lose-inputs,
}

abbrev pub is_pending : InputStatus → Bool
is_pending pending = true
is_pending unknown = false
is_pending status_applied = false

forget_status_settled :
    (i : InputRow) (s : InputStatus) → is_pending s ≡ false → forget_status i s ≡ i
forget_status_settled i pending h = cc
forget_status_settled i unknown h = refl
forget_status_settled i status_applied h = refl

lookup-forget_kept :
    (k : ℕ) (i : InputRow) (m : Assoc InputRow)
    → is_pending i.status ≡ false
    → lookup k m ≡ some i
    → lookup k (map (λ (j, r). (j, forget_outcome r)) m) ≡ some i
lookup-forget_kept k i [] settled h = cc
lookup-forget_kept k i ((j, r) ∷ m) settled h =
    ground (arith, lookup-forget_kept k i m settled, forget_status_settled i i.status settled)

begin_found_kept :
    (k : ℕ) (i : InputRow) (input fp : ℕ) (t : TerminalRow) (o : Option InputRow)
    → lookup k t.inputs ≡ some i
    → lookup input t.inputs ≡ o
    → lookup k (begin_found t input fp o).0.inputs ≡ some i
begin_found_kept k i input fp t none h e = ground (arith, lookup-remove input k t.inputs)
begin_found_kept k i input fp t (some j) h e = ground arith

-- Writing the row of a pending input leaves a row that is not pending.
other_row_kept :
    (k : ℕ) (i : InputRow) (input : ℕ) (j r : InputRow) (m : Assoc InputRow)
    → is_pending i.status ≡ false
    → is_pending j.status ≡ true
    → lookup k m ≡ some i
    → lookup input m ≡ some j
    → lookup k (update input r m) ≡ some i
other_row_kept k i input j r m settled waiting h e = ground (arith, lookup-update input k r m)

complete_status_kept :
    (k : ℕ) (i : InputRow) (input bytes : ℕ) (t : TerminalRow) (j : InputRow) (s : InputStatus)
    → is_pending i.status ≡ false
    → lookup k t.inputs ≡ some i
    → lookup input t.inputs ≡ some j
    → j.status ≡ s
    → lookup k (complete_status t input bytes j s).0.inputs ≡ some i
complete_status_kept k i input bytes t j pending settled h e f =
    other_row_kept k i input j (record j { status = status_applied; byte_count = some bytes })
      t.inputs settled (ap is_pending f) h e
complete_status_kept k i input bytes t j unknown settled h e f = h
complete_status_kept k i input bytes t j status_applied settled h e f = h

complete_found_kept :
    (k : ℕ) (i : InputRow) (input bytes : ℕ) (t : TerminalRow) (o : Option InputRow)
    → is_pending i.status ≡ false
    → lookup k t.inputs ≡ some i
    → lookup input t.inputs ≡ o
    → lookup k (complete_found t input bytes o).0.inputs ≡ some i
complete_found_kept k i input bytes t none settled h e = h
complete_found_kept k i input bytes t (some j) settled h e =
    complete_status_kept k i input bytes t j j.status settled h e refl

unknown_status_kept :
    (k : ℕ) (i : InputRow) (input : ℕ) (t : TerminalRow) (j : InputRow) (s : InputStatus)
    → is_pending i.status ≡ false
    → lookup k t.inputs ≡ some i
    → lookup input t.inputs ≡ some j
    → j.status ≡ s
    → lookup k (unknown_status t input j s).inputs ≡ some i
unknown_status_kept k i input t j pending settled h e f =
    other_row_kept k i input j (record j { status = unknown }) t.inputs settled (ap is_pending f) h
      e
unknown_status_kept k i input t j unknown settled h e f = h
unknown_status_kept k i input t j status_applied settled h e f = h

unknown_found_kept :
    (k : ℕ) (i : InputRow) (input : ℕ) (t : TerminalRow) (o : Option InputRow)
    → is_pending i.status ≡ false
    → lookup k t.inputs ≡ some i
    → lookup input t.inputs ≡ o
    → lookup k (unknown_found t input o).inputs ≡ some i
unknown_found_kept k i input t none settled h e = h
unknown_found_kept k i input t (some j) settled h e =
    unknown_status_kept k i input t j j.status settled h e refl

-- A row that is not pending is changed by no call.
settled_kept :
    (k : ℕ) (i : InputRow) (c : InputCall) (t : TerminalRow)
    → is_pending i.status ≡ false
    → lookup k t.inputs ≡ some i
    → lookup k (apply_input c t).inputs ≡ some i
unfolding apply_input begin_row complete_row unknown_row restart_row
settled_kept k i (begin_call input fp) t settled h =
    begin_found_kept k i input fp t (lookup input t.inputs) h refl
settled_kept k i (complete_call input bytes) t settled h =
    ground (arith, complete_found_kept k i input bytes t (lookup input t.inputs) settled h refl)
settled_kept k i (unknown_call input) t settled h =
    unknown_found_kept k i input t (lookup input t.inputs) settled h refl
settled_kept k i restart_call t settled h =
    lookup-forget_kept k i (lose t).inputs settled (ap (lookup k) (lose-inputs t) ∙ h)

-- A request for an input that is recorded and not pending leaves the rows as they are and answers
-- with the recorded outcome, after any calls and restarts.
pub settled_replays :
    (k : ℕ) (i : InputRow) (cs : List InputCall) (t : TerminalRow)
    → is_pending i.status ≡ false
    → lookup k t.inputs ≡ some i
    → begin_row (run_inputs cs t) k i.fingerprint
      ≡ (run_inputs cs t, recorded i.status i.byte_count)
unfolding begin_row run_inputs
settled_replays k i [] t settled h = rw h (ground arith)
settled_replays k i (c ∷ cs) t settled h =
    settled_replays k i cs (apply_input c t) settled (settled_kept k i c t settled h)

leb-ltb : (a b : ℕ) → a ≤ b → ltb b a ≡ false
leb-ltb a b h = ground arith

complete_row-done :
    (k bytes : ℕ) (i : InputRow) (t : TerminalRow)
    → i.status ≡ pending
    → lookup k t.inputs ≡ some i
    → bytes ≤ i64_max
    → complete_row t k bytes ≡ (
      record t {
        inputs = update k (record i { status = status_applied; byte_count = some bytes }) t.inputs;
      },
      ok tt,
    )
unfolding complete_row
complete_row-done k bytes i t waiting h bound =
    rw (leb-ltb bytes i64_max bound) (rw h (rw waiting refl))

-- Completing a pending input with a count of bytes that fits succeeds, and its request then
-- answers, after any further calls and restarts, with that count.
pub complete_row-replays :
    (k bytes : ℕ) (i : InputRow) (cs : List InputCall) (t : TerminalRow)
    → i.status ≡ pending
    → lookup k t.inputs ≡ some i
    → bytes ≤ i64_max
    → ((complete_row t k bytes).1 ≡ ok tt)
      × ((begin_row (run_inputs cs (complete_row t k bytes).0) k i.fingerprint).1
          ≡ ok (applied bytes))
unfolding complete_row
complete_row-replays k bytes i cs t waiting h bound =
    let done = complete_row-done k bytes i t waiting h bound in
    let row : InputRow = record i { status = status_applied; byte_count = some bytes } in
    let found : lookup k (update k row t.inputs) ≡ some row =
      ground (arith, lookup-update k k row t.inputs) in
    (
      rw done refl,
      rw done (
          rw (settled_replays k row cs (record t { inputs = update k row t.inputs }) refl found)
            refl),
    )
