-- ===== src/Sandboxd/Journal/Output/Delivery.antt =====
-- journal.rs: what readers of a terminal's output see, over all sequences of appends and acknowledgements.
use mathlib.Core.List.{append-nil, append_assoc}
use gobrowseos.Prelude.{
  ◌<◌, ℕ, ◌+◌, ◌-◌, min, max, ◌≤◌, ◌≡◌, refl, sym, true, false, some, List, [], ◌∷◌, ◌++◌, arith,
  ltb, leb, take, drop, lookup, Result, ok, err, Bool-cases, inl, inr, i64_max,
}
use gobrowseos.Sandboxd.Journal.Tables.{
  JournalError, TerminalState, parse_state, TerminalRow, Journal,
}
use gobrowseos.Sandboxd.Journal.Terminals.{starting_row, record_of, query_record}
use gobrowseos.Sandboxd.Journal.Output.{append_row, ack_row, read_output}
use gobrowseos.Sandboxd.Journal.Output.Stream.{Holds, accepted_of, append_row_refines}
use gobrowseos.Sandboxd.Journal.Output.Acks.{ack_row_refines}
use gobrowseos.Sandboxd.Journal.Output.Read.{read_rows_refines}

pub data OutputCall : Type 0 where
  append : List ℕ → OutputCall
  acknowledge : ℕ → OutputCall

-- The row after a call: an error leaves it.
abbrev pub after_call {ℓ} :
    {A : Type ℓ} → TerminalRow → Result (TerminalRow × A) JournalError → TerminalRow
after_call t (ok (t', a)) = t'
after_call t (err e) = t

unfoldable pub apply_call : OutputCall → TerminalRow → TerminalRow
apply_call (append bytes) t = after_call t (append_row t bytes)
apply_call (acknowledge cursor) t = after_call t (ack_row t cursor)

-- The bytes that a call adds to the stream.
abbrev pub added : OutputCall → TerminalRow → List ℕ
added (append bytes) t = take (accepted_of t bytes) bytes
added (acknowledge cursor) t = []

unfoldable pub run_calls : List OutputCall → TerminalRow → TerminalRow
run_calls [] t = t
run_calls (c ∷ cs) t = run_calls cs (apply_call c t)

unfoldable pub streamed : List OutputCall → TerminalRow → List ℕ
streamed [] t = []
streamed (c ∷ cs) t = added c t ++ streamed cs (apply_call c t)

ack_row_refused :
    (t : TerminalRow) (cursor : ℕ)
    → t.output_end ≤ i64_max
    → t.output_end < cursor
    → after_call t (ack_row t cursor) ≡ t
unfolding ack_row
ack_row_refused t cursor bound past = ground arith

apply_call-Holds :
    (c : OutputCall) (t : TerminalRow) (stream : List ℕ)
    → Holds t stream
    → Holds (apply_call c t) (stream ++ added c t)
unfolding apply_call
apply_call-Holds (append bytes) t stream h =
    let (t', run, held, whole) = append_row_refines t stream bytes h in rw run held
apply_call-Holds (acknowledge cursor) t stream h = elim (Bool-cases (leb cursor t.output_end)) [
  | inl within ↦
      let (t', run, held, acked, ended) = ack_row_refines t stream cursor h (ground arith) in
      rw run (rw append-nil held)
  | inr past ↦
      rw (ack_row_refused t cursor (ground (arith, h.limited)) (ground arith)) (rw append-nil h)
]

run_calls-Holds :
    (cs : List OutputCall) (t : TerminalRow) (stream : List ℕ)
    → Holds t stream
    → Holds (run_calls cs t) (stream ++ streamed cs t)
unfolding run_calls streamed
run_calls-Holds [] t stream h = rw append-nil h
run_calls-Holds (c ∷ cs) t stream h =
    rw (sym (append_assoc stream (added c t) (streamed cs (apply_call c t))))
      (run_calls-Holds cs (apply_call c t) (stream ++ added c t) (apply_call-Holds c t stream h))

pub starting_row-Holds :
    (workspace fp cols rows : ℕ) → Holds (starting_row workspace fp cols rows) []
starting_row-Holds workspace fp cols rows = record {
  total = refl;
  counted = refl;
  limited = omega arith;
  acked = refl;
  acked_within = omega arith;
  base = 0;
  base_acked = omega arith;
  contiguous = refl;
  kept = refl;
}

-- After any sequence of appends and acknowledgements on a new terminal, its cursors and rows hold
-- exactly the bytes that the appends accepted, in order and without a gap, from the acknowledged
-- cursor on, and the output stays within its limit.
pub run_calls_refines :
    (workspace fp cols rows : ℕ) (cs : List OutputCall)
    → let t = starting_row workspace fp cols rows in Holds (run_calls cs t) (streamed cs t)
run_calls_refines workspace fp cols rows cs =
    run_calls-Holds cs (starting_row workspace fp cols rows) []
      (starting_row-Holds workspace fp cols rows)

ltb-false : (a b : ℕ) → b ≤ a → ltb a b ≡ false
ltb-false a b h = ground arith

leb-true : (a b : ℕ) → a ≤ b → leb a b ≡ true
leb-true a b h = ground arith

module _ {Blob : Type 0} where
  query_record-found :
      (j : Journal Blob) (id : ℕ) (t : TerminalRow) (state : TerminalState)
      → lookup id j.terminals ≡ some t
      → parse_state t.state ≡ ok state
      → query_record j id ≡ ok (record_of id t state)
  unfolding query_record
  query_record-found j id t state found parsed = rw found (rw parsed refl)

  -- Reading a terminal whose row holds a stream, from a cursor within the output and with a state
  -- that can be read, succeeds: from the later of that cursor and the acknowledged one it gives the
  -- bytes of the stream, as many as the limit allows, with the cursor behind them.
  pub read_output_refines :
      (j : Journal Blob) (id after limit : ℕ) (t : TerminalRow) (state : TerminalState)
      (stream : List ℕ)
      → lookup id j.terminals ≡ some t
      → parse_state t.state ≡ ok state
      → Holds t stream
      → after ≤ t.output_end
      → let start = max after t.output_start in
        read_output j id after limit
        ≡ ok (record {
          start_cursor = start;
          next_cursor = start + min limit (t.output_end - start);
          bytes = take limit (drop start stream);
          terminal = record_of id t state;
        })
  unfolding read_output
  read_output_refines j id after limit t state stream found parsed h within =
      let start = max after t.output_start in
      let low : t.output_start ≤ start = omega arith in
      let high : start ≤ t.output_end = omega (arith, within, h.acked, h.acked_within) in
      rw (query_record-found j id t state found parsed) (
        rw (ltb-false t.output_end after within) (
          rw (leb-true start i64_max (omega (arith, high, h.limited)))
            (rw found (rw (read_rows_refines limit t stream start h low high) refl))))
