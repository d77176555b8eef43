-- ===== src/Sandboxd/Replay/Trace.antt =====
-- replay.rs: a replay cache over every sequence of calls.
use gobrowseos.Prelude.{
  ℕ, ◌+◌, ◌≤◌, ◌≡◌, refl, Bool, true, false, Option, none, some, List, [], ◌∷◌, arith, ◌==◌,
  if◌then◌else◌, inl, inr, lookup, lookup-remove, lookup-update, Option-cases, Bool-cases, length,
}
use gobrowseos.Sandboxd.Replay.{
  ReplayCache, ReplayEntry, ReplayDecision, ReplayState, pending, complete_with, execute, cached,
  conflict, new, victim, evictable, reserve, evict, displace, begin_fresh, begin, store, complete,
  is_complete,
}
use gobrowseos.Sandboxd.Replay.Invariant.{victim-evictable, lookup-evict-none}

-- A call of the cache by some task.
pub data Call {ℓ} (R : Type ℓ) : Type ℓ where
  begin_call : ℕ → ℕ → Call R
  complete_call : ℕ → ℕ → R → Call R

-- The calls in order, with how often one identifier was executed and how often a response was
-- stored for it.
pub record Tally {ℓ} (R : Type ℓ) : Type ℓ where
  pub cache : ReplayCache R
  pub executed : ℕ
  pub stored : ℕ

abbrev pub one_if : Bool → ℕ
one_if true = 1
one_if false = 0

module _ {ℓ} {R : Type ℓ} where
  abbrev pub executes : ReplayDecision R → ℕ
  executes execute = 1
  executes _ = 0

  abbrev pub entry_inflight : Option (ReplayEntry R) → ℕ
  entry_inflight none = 0
  entry_inflight (some e) = if is_complete e.state then 0 else 1

  -- 1 while the identifier's first execution has not completed.
  abbrev pub inflight : ℕ → ReplayCache R → ℕ
  inflight id c = entry_inflight (lookup id c.entries)

  inflight-reserve :
      (c : ReplayCache R) (id fp k : ℕ)
      → lookup id c.entries ≡ none
      → inflight k (reserve c id fp) ≡ inflight k c + one_if (id == k)
  inflight-reserve c id fp k h = ground (arith, lookup-remove id k c.entries)

  inflight-evict :
      (c : ReplayCache R) (k j : ℕ)
      → evictable (lookup k c.entries) ≡ true
      → inflight j (evict c k) ≡ inflight j c
  inflight-evict c k j h = ground (arith, lookup-remove k j c.entries)

  displace_conserves :
      (c : ReplayCache R) (id fp k : ℕ) (o : Option ℕ)
      → lookup id c.entries ≡ none
      → victim c.entries c.order ≡ o
      → inflight k (displace c id fp o).0
        ≡ inflight k c + (if id == k then executes (displace c id fp o).1 else 0)
  displace_conserves c id fp k none fresh h = ground arith
  displace_conserves c id fp k (some j) fresh h =
      let found = victim-evictable c.entries c.order j h in
      ground (
        arith,
        inflight-evict c j k found,
        inflight-reserve (evict c j) id fp k (lookup-evict-none c j id fresh),
      )

  begin_fresh_conserves :
      (c : ReplayCache R) (id fp k : ℕ)
      → lookup id c.entries ≡ none
      → inflight k (begin_fresh c id fp).0
        ≡ inflight k c + (if id == k then executes (begin_fresh c id fp).1 else 0)
  unfolding begin_fresh
  begin_fresh_conserves c id fp k fresh = elim (Bool-cases (length c.entries == c.capacity)) [
    | inr room ↦ rw room (ground (arith, inflight-reserve c id fp k fresh))
    | inl at_capacity ↦
        rw at_capacity (displace_conserves c id fp k (victim c.entries c.order) fresh refl)
  ]

  -- An identifier's count of executions in flight rises by one exactly where `begin` answers
  -- `execute` for it.
  pub begin_conserves :
      (c : ReplayCache R) (id fp k : ℕ)
      → inflight k (begin c id fp).0
        ≡ inflight k c + (if id == k then executes (begin c id fp).1 else 0)
  unfolding begin
  begin_conserves c id fp k = elim (Option-cases (lookup id c.entries)) [
    | inl fresh ↦ rw (fresh, begin) (begin_fresh_conserves c id fp k fresh)
    | inr (e, held) ↦ rw (held, begin) (ground arith)
  ]

  store_conserves :
      (c : ReplayCache R) (id fp k : ℕ) (r : R) (e : ReplayEntry R) (s : ReplayState R)
      → lookup id c.entries ≡ some e
      → e.state ≡ s
      → inflight k c
        ≡ inflight k (store c id fp r s).0 + (if id == k then one_if (store c id fp r s).1 else 0)
  store_conserves c id fp k r e (complete_with r') held h = ground arith
  store_conserves c id fp k r e pending held h =
      let entry : ReplayEntry R = record { fingerprint = fp; state = complete_with r } in
      ground (arith, lookup-update id k entry c.entries)

  -- It falls by one exactly where `complete` stores a response for it.
  pub complete_conserves :
      (c : ReplayCache R) (id fp k : ℕ) (r : R)
      → inflight k c
        ≡ inflight k (complete c id fp r).0 + (if id == k then one_if (complete c id fp r).1 else 0)
  unfolding complete
  complete_conserves c id fp k r = elim (Option-cases (lookup id c.entries)) [
    | inl absent ↦ rw (absent, complete) (ground arith)
    | inr (e, held) ↦
        rw (held, complete)
          (elim (Bool-cases (e.fingerprint == fp)) [
            | inr differs ↦ rw differs (ground arith)
            | inl agrees ↦ rw agrees (store_conserves c id e.fingerprint k r e e.state held refl)
          ])
  ]

  abbrev pub step : ℕ → Tally R → Call R → Tally R
  step k t (begin_call id fp) =
      let (c, d) = begin t.cache id fp in
      record t { cache = c; executed = t.executed + (if id == k then executes d else 0) }
  step k t (complete_call id fp r) =
      let (c, b) = complete t.cache id fp r in
      record t { cache = c; stored = t.stored + (if id == k then one_if b else 0) }

  unfoldable pub run : ℕ → Tally R → List (Call R) → Tally R
  run k t [] = t
  run k t (x ∷ xs) = run k (step k t x) xs

  run_conserves :
      (k : ℕ) (t : Tally R) (xs : List (Call R))
      → t.executed ≡ t.stored + inflight k t.cache
      → (run k t xs).executed ≡ (run k t xs).stored + inflight k (run k t xs).cache
  unfolding run
  run_conserves k t [] h = h
  run_conserves k t (begin_call id fp ∷ xs) h =
      run_conserves k (step k t (begin_call id fp)) xs
        (omega (arith, begin_conserves t.cache id fp k))
  run_conserves k t (complete_call id fp r ∷ xs) h =
      run_conserves k (step k t (complete_call id fp r)) xs
        (omega (arith, complete_conserves t.cache id fp k r))

  abbrev pub start : ReplayCache R → Tally R
  start c = record { cache = c; executed = 0; stored = 0 }

  -- From a new cache, over every sequence of calls by any tasks, an identifier has been executed
  -- exactly as often as a response was stored for it, plus the executions of it in flight, of which
  -- there is at most one.
  pub executions_stored_or_inflight :
      (n : ℕ) (c : ReplayCache R) (k : ℕ) (xs : List (Call R))
      → new n ≡ some c
      → ((run k (start c) xs).executed
          ≡ (run k (start c) xs).stored + inflight k (run k (start c) xs).cache)
        × (inflight k (run k (start c) xs).cache ≤ 1)
  unfolding new
  executions_stored_or_inflight n c k xs h =
      (run_conserves k (start c) xs (ground arith), ground arith)

  lookup-complete :
      (c : ReplayCache R) (id fp : ℕ) (r : R)
      → (complete c id fp r).1 ≡ true
      → lookup id (complete c id fp r).0.entries
        ≡ some (record { fingerprint = fp; state = complete_with r })
  unfolding complete
  lookup-complete c id fp r h =
      let entry : ReplayEntry R = record { fingerprint = fp; state = complete_with r } in
      ground (arith, lookup-update id id entry c.entries)

  -- After a response was stored, a request with the same identifier and fingerprint answers it and
  -- changes nothing, and one with another fingerprint answers a conflict.
  pub begin-complete :
      (c : ReplayCache R) (id fp fp' : ℕ) (r : R)
      → (complete c id fp r).1 ≡ true
      → begin (complete c id fp r).0 id fp'
        ≡ ((complete c id fp r).0, (if fp == fp' then cached r else conflict))
  unfolding begin
  begin-complete c id fp fp' r h = rw (lookup-complete c id fp r h, begin) (ground arith)
