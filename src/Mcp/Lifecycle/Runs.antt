-- ===== src/Mcp/Lifecycle/Runs.antt =====
-- lifecycle.rs: an MCP session over every sequence of calls.
use gobrowseos.Prelude.{ℕ, ◌+◌, ◌≤◌, ◌<◌, ◌≡◌, refl, List, [], ◌∷◌, arith, length, pos, ok}
use gobrowseos.Mcp.Wire.{number}
use gobrowseos.Mcp.Pending.{PendingKey, occ_key}
use gobrowseos.Mcp.Lifecycle.{
  SessionLifecycle, max_reconnect_attempts, new, begin_connect, begin_discovery, begin_initialize,
  bind_negotiation, mark_legacy_initialized, mark_ready, allocate_and_reserve, reserve, complete,
  begin_close, finish_close, disconnect, fail, begin_reconnect,
}
use gobrowseos.Mcp.Lifecycle.Invariant.{IsValid}
use gobrowseos.Mcp.Lifecycle.Steps.{
  Op, connect_op, discovery_op, initialize_op, mark_legacy_op, mark_ready_op, allocate_op,
  begin_close_op, finish_close_op, disconnect_op, fail_op, reconnect_op, bind_op, reserve_op,
  complete_op, apply, IsPermitted, apply-IsValid, reserved_by, resolved_by, apply_conserves,
  reserved_once, successes,
}

module _ {Json : Type 0} where
  unfoldable pub run : SessionLifecycle Json → List (Op Json) → SessionLifecycle Json
  run s [] = s
  run s (op ∷ ops) = run (apply s op) ops

  -- Each call of the sequence uses tokens given out before it.
  abbrev pub IsPermittedRun : SessionLifecycle Json → List (Op Json) → Type 0
  IsPermittedRun s [] = Unit
  IsPermittedRun s (op ∷ ops) = IsPermitted s op × IsPermittedRun (apply s op) ops

  unfoldable pub reserved_in : PendingKey → SessionLifecycle Json → List (Op Json) → ℕ
  reserved_in k s [] = 0
  reserved_in k s (op ∷ ops) = reserved_by k s op + reserved_in k (apply s op) ops

  unfoldable pub resolved_in : PendingKey → SessionLifecycle Json → List (Op Json) → ℕ
  resolved_in k s [] = 0
  resolved_in k s (op ∷ ops) = resolved_by k s op + resolved_in k (apply s op) ops

  -- From a well-formed session every permitted sequence of calls leads to a well-formed one.
  pub run-IsValid :
      (s : SessionLifecycle Json) (ops : List (Op Json))
      → IsPermittedRun s ops
      → IsValid s
      → IsValid (run s ops)
  unfolding run
  run-IsValid s [] p v = v
  run-IsValid s (op ∷ ops) p v = run-IsValid (apply s op) ops p.1 (apply-IsValid s op p.0 v)

  pub new-IsValid : IsValid (new {Json = Json})
  unfolding new
  new-IsValid = ground arith

  run_conserves_from :
      (k : PendingKey) (s : SessionLifecycle Json) (ops : List (Op Json))
      → IsPermittedRun s ops
      → IsValid s
      → occ_key k s.pending ≤ 1
      → (occ_key k (run s ops).pending + resolved_in k s ops
          ≡ occ_key k s.pending + reserved_in k s ops)
        × (occ_key k (run s ops).pending ≤ 1)
  unfolding run reserved_in resolved_in
  run_conserves_from k s [] p v h = (refl, h)
  run_conserves_from k s (op ∷ ops) p v h =
      let here = apply_conserves k s op v in
      let once = reserved_once k s op v h in
      let (rest, last) =
        run_conserves_from k (apply s op) ops p.1 (apply-IsValid s op p.0 v) (omega arith) in
      (omega arith, last)

  -- Over every permitted sequence of calls on a new session, each request is completed, cancelled
  -- or handed back as drained exactly as often as it is reserved, or once less while it is in
  -- flight; no request is in flight twice, and at most 64 are in flight.
  pub run_conserves :
      (k : PendingKey) (ops : List (Op Json))
      → IsPermittedRun new ops
      → (occ_key k (run new ops).pending + resolved_in k new ops ≡ reserved_in k new ops)
        × (occ_key k (run new ops).pending ≤ 1)
        × (length (run new ops).pending ≤ 64)
  unfolding new
  run_conserves k ops p =
      let (balance, once) = run_conserves_from k new ops p new-IsValid (omega arith) in
      (omega arith, once, (run-IsValid new ops p new-IsValid).pending_bounded)

  next_id_apply : (s : SessionLifecycle Json) (op : Op Json) → s.next_id ≤ (apply s op).next_id
  unfolding apply
  next_id_apply s connect_op = unfold begin_connect in ground arith
  next_id_apply s discovery_op = unfold begin_discovery in ground arith
  next_id_apply s initialize_op = unfold begin_initialize in ground arith
  next_id_apply s mark_legacy_op = unfold mark_legacy_initialized in ground arith
  next_id_apply s mark_ready_op = unfold mark_ready in ground arith
  next_id_apply s allocate_op = unfold allocate_and_reserve in ground arith
  next_id_apply s begin_close_op = unfold begin_close in ground arith
  next_id_apply s finish_close_op = unfold finish_close in ground arith
  next_id_apply s disconnect_op = unfold disconnect in ground arith
  next_id_apply s fail_op = unfold fail in ground arith
  next_id_apply s reconnect_op = unfold begin_reconnect in ground arith
  next_id_apply s (bind_op e c) = unfold bind_negotiation in ground arith
  next_id_apply s (reserve_op t) = unfold reserve in ground arith
  next_id_apply s (complete_op t) = unfold complete in ground arith

  next_id_run : (s : SessionLifecycle Json) (ops : List (Op Json)) → s.next_id ≤ (run s ops).next_id
  unfolding run
  next_id_run s [] = omega arith
  next_id_run s (op ∷ ops) = omega (arith, next_id_apply s op, next_id_run (apply s op) ops)

  allocated_id :
      (s s' : SessionLifecycle Json) (t : PendingKey)
      → allocate_and_reserve s ≡ (s', ok t)
      → (t.id ≡ number (pos (s.next_id + 1))) × (s'.next_id ≡ s.next_id + 1)
  unfolding allocate_and_reserve
  allocated_id s s' t h = ground arith

  -- If two allocations of one session succeed, with any calls between them, both identifiers are
  -- positive numbers and the later one is greater.
  pub allocated_ids_increase :
      (s s' s'' : SessionLifecycle Json) (ops : List (Op Json)) (t t' : PendingKey)
      → allocate_and_reserve s ≡ (s', ok t)
      → allocate_and_reserve (run s' ops) ≡ (s'', ok t')
      → (m : ℕ) × (n : ℕ) × (t.id ≡ number (pos m)) × (t'.id ≡ number (pos n)) × (0 < m) × (m < n)
  allocated_ids_increase s s' s'' ops t t' h h' =
      let (first, after) = allocated_id s s' t h in
      let (second, _) = allocated_id (run s' ops) s'' t' h' in
      (
        s.next_id + 1,
        (run s' ops).next_id + 1,
        first,
        second,
        omega arith,
        omega (arith, next_id_run s' ops, after),
      )

  -- 1 where a call begins a generation by a fresh connection, and where it reconnects.
  unfoldable pub connected_by : SessionLifecycle Json → Op Json → ℕ
  connected_by s connect_op = successes (begin_connect s).1
  connected_by s _ = 0

  unfoldable pub reconnected_by : SessionLifecycle Json → Op Json → ℕ
  reconnected_by s reconnect_op = successes (begin_reconnect s).1
  reconnected_by s _ = 0

  unfoldable pub connected_in : SessionLifecycle Json → List (Op Json) → ℕ
  connected_in s [] = 0
  connected_in s (op ∷ ops) = connected_by s op + connected_in (apply s op) ops

  unfoldable pub reconnected_in : SessionLifecycle Json → List (Op Json) → ℕ
  reconnected_in s [] = 0
  reconnected_in s (op ∷ ops) = reconnected_by s op + reconnected_in (apply s op) ops

  generation_apply :
      (s : SessionLifecycle Json) (op : Op Json)
      → (apply s op).generation ≡ s.generation + connected_by s op + reconnected_by s op
  unfolding apply connected_by reconnected_by
  generation_apply s connect_op = unfold begin_connect in ground arith
  generation_apply s discovery_op = unfold begin_discovery in ground arith
  generation_apply s initialize_op = unfold begin_initialize in ground arith
  generation_apply s mark_legacy_op = unfold mark_legacy_initialized in ground arith
  generation_apply s mark_ready_op = unfold mark_ready in ground arith
  generation_apply s allocate_op = unfold allocate_and_reserve in ground arith
  generation_apply s begin_close_op = unfold begin_close in ground arith
  generation_apply s finish_close_op = unfold finish_close in ground arith
  generation_apply s disconnect_op = unfold disconnect in ground arith
  generation_apply s fail_op = unfold fail in ground arith
  generation_apply s reconnect_op = unfold begin_reconnect in ground arith
  generation_apply s (bind_op e c) = unfold bind_negotiation in ground arith
  generation_apply s (reserve_op t) = unfold reserve in ground arith
  generation_apply s (complete_op t) = unfold complete in ground arith

  attempts_apply :
      (s : SessionLifecycle Json) (op : Op Json)
      → connected_by s op ≡ 0
      → (apply s op).reconnect_attempts ≡ s.reconnect_attempts + reconnected_by s op
  unfolding apply connected_by reconnected_by
  attempts_apply s connect_op h = unfold begin_connect in ground arith
  attempts_apply s discovery_op h = unfold begin_discovery in ground arith
  attempts_apply s initialize_op h = unfold begin_initialize in ground arith
  attempts_apply s mark_legacy_op h = unfold mark_legacy_initialized in ground arith
  attempts_apply s mark_ready_op h = unfold mark_ready in ground arith
  attempts_apply s allocate_op h = unfold allocate_and_reserve in ground arith
  attempts_apply s begin_close_op h = unfold begin_close in ground arith
  attempts_apply s finish_close_op h = unfold finish_close in ground arith
  attempts_apply s disconnect_op h = unfold disconnect in ground arith
  attempts_apply s fail_op h = unfold fail in ground arith
  attempts_apply s reconnect_op h = unfold begin_reconnect in ground arith
  attempts_apply s (bind_op e c) h = unfold bind_negotiation in ground arith
  attempts_apply s (reserve_op t) h = unfold reserve in ground arith
  attempts_apply s (complete_op t) h = unfold complete in ground arith

  generation_run_from :
      (s : SessionLifecycle Json) (ops : List (Op Json))
      → (run s ops).generation ≡ s.generation + connected_in s ops + reconnected_in s ops
  unfolding run connected_in reconnected_in
  generation_run_from s [] = omega arith
  generation_run_from s (op ∷ ops) =
      omega (arith, generation_apply s op, generation_run_from (apply s op) ops)

  -- From a new session over any sequence of calls the generation is the number of connections and
  -- reconnections that succeeded.
  pub generation_run :
      (ops : List (Op Json))
      → (run new ops).generation ≡ connected_in new ops + reconnected_in new ops
  unfolding new
  generation_run ops = omega (arith, generation_run_from new ops)

  attempts_run :
      (s : SessionLifecycle Json) (ops : List (Op Json))
      → connected_in s ops ≡ 0
      → (run s ops).reconnect_attempts ≡ s.reconnect_attempts + reconnected_in s ops
  unfolding run connected_in reconnected_in
  attempts_run s [] h = omega arith
  attempts_run s (op ∷ ops) h =
      omega (arith, attempts_apply s op (omega arith), attempts_run (apply s op) ops (omega arith))

  -- From a well-formed session, over permitted calls among which no fresh connection succeeds, the
  -- reconnects that succeed and those spent before are at most three together.
  pub reconnects_bounded :
      (s : SessionLifecycle Json) (ops : List (Op Json))
      → IsValid s
      → IsPermittedRun s ops
      → connected_in s ops ≡ 0
      → s.reconnect_attempts + reconnected_in s ops ≤ max_reconnect_attempts
  reconnects_bounded s ops v p h =
      omega (arith, attempts_run s ops h, (run-IsValid s ops p v).attempts_bounded)
