-- ===== src/Sandboxd/Replay/Tests.antt =====
-- Tests of replay.rs on a cache of one entry.
use gobrowseos.Prelude.{ℕ, ◌+◌, ◌≤◌, ◌≡◌, refl, true, some, List, [], ◌∷◌, if◌then◌else◌, ◌==◌}
use gobrowseos.Sandboxd.Replay.{
  ReplayCache, ReplayEntry, new, begin, complete, cached, conflict, full, complete_with, pending,
}
use gobrowseos.Sandboxd.Replay.Invariant.{IsValid, new-IsValid, begin-IsValid}
use gobrowseos.Sandboxd.Replay.Trace.{
  Call, begin_call, complete_call, run, start, inflight, executions_stored_or_inflight,
  begin-complete,
}

abbrev one_entry : ReplayCache ℕ
one_entry = record { capacity = 1; entries = []; order = [] }

one_entry-new : new 1 ≡ some one_entry
unfolding new
one_entry-new = refl

-- Identifier 7 executes, completes, is displaced by 8, and executes again after 8 completes.
abbrev calls : List (Call ℕ)
calls =
    begin_call 7 1
    ∷ begin_call 8 2
    ∷ complete_call 7 1 40
    ∷ begin_call 8 2
    ∷ complete_call 8 2 41
    ∷ begin_call 7 1
    ∷ []

executions_stored_or_inflight_example :
    ((run 7 (start one_entry) calls).executed
      ≡ (run 7 (start one_entry) calls).stored + inflight 7 (run 7 (start one_entry) calls).cache)
    × (inflight 7 (run 7 (start one_entry) calls).cache ≤ 1)
executions_stored_or_inflight_example =
    executions_stored_or_inflight 1 one_entry 7 calls one_entry-new

executed_twice : (run 7 (start one_entry) calls).executed ≡ 2
unfolding run begin complete
executed_twice = refl

one_entry-IsValid : IsValid one_entry
one_entry-IsValid = new-IsValid 1 one_entry one_entry-new

abbrev busy : ReplayCache ℕ
busy = record {
  capacity = 1;
  entries = (7, record { fingerprint = 1; state = pending }) ∷ [];
  order = 7 ∷ [];
}

busy-IsValid : IsValid busy
unfolding begin
busy-IsValid = begin-IsValid one_entry 7 1 one_entry-IsValid

busy_full : (begin busy 8 2).1 ≡ full
unfolding begin
busy_full = refl

busy-completes : (complete busy 7 1 40).1 ≡ true
unfolding complete
busy-completes = refl

begin-complete_example :
    begin (complete busy 7 1 40).0 7 1
    ≡ ((complete busy 7 1 40).0, (if 1 == 1 then cached 40 else conflict))
begin-complete_example = begin-complete busy 7 1 1 40 busy-completes

abbrev half_done : List (ℕ × ReplayEntry ℕ)
half_done =
    (7, record { fingerprint = 1; state = pending })
    ∷ (8, record { fingerprint = 2; state = complete_with 41 })
    ∷ []
