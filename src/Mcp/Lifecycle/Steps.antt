-- ===== src/Mcp/Lifecycle/Steps.antt =====
-- lifecycle.rs: one call of an MCP session, whichever it is: what it keeps, what it reserves and what it resolves.
use gobrowseos.Prelude.{
  ℕ, ◌+◌, ◌≡◌, ◌≢◌, refl, ◌≤◌, if◌then◌else◌, false, Option, none, some, List, arith, pos, negsuc,
  is_eq, Result, ok, err, ◌⊎◌, inl,
}
use gobrowseos.Mcp.Era.{McpProtocolEra}
use gobrowseos.Mcp.Wire.{RequestId, number, text, id_compare}
use gobrowseos.Mcp.Capabilities.{ServerCapabilities}
use gobrowseos.Mcp.Pending.{
  PendingKey, same_key, key_compare, contains, occ_key, occ_key-insert_key, occ_key-remove_key,
  occ_key-absent, contains-All,
}
use gobrowseos.Mcp.Lifecycle.{
  SessionLifecycle, LifecycleError, reconnect_exhausted, ReconnectResult, begin_connect,
  begin_discovery, begin_initialize, bind_negotiation, mark_legacy_initialized, mark_ready,
  allocate_and_reserve, reserve, complete, begin_close, finish_close, disconnect, fail,
  begin_reconnect, token_of, unknown_response,
}
use gobrowseos.Mcp.Lifecycle.Invariant.{
  IsValid, IsIssued, IsCurrent, begin_connect-IsValid, begin_discovery-IsValid,
  begin_initialize-IsValid, bind_negotiation-IsValid, mark_legacy_initialized-IsValid,
  mark_ready-IsValid, begin_close-IsValid, finish_close-IsValid, disconnect-IsValid, fail-IsValid,
  begin_reconnect-IsValid, allocate_and_reserve-IsValid, reserve-IsValid, complete-IsValid,
}

-- The calls that a client makes of its session.
pub data Op (Json : Type 0) : Type 0 where
  connect_op discovery_op initialize_op mark_legacy_op mark_ready_op : Op Json
  allocate_op begin_close_op finish_close_op disconnect_op fail_op reconnect_op : Op Json
  bind_op : McpProtocolEra → ServerCapabilities Json → Op Json
  reserve_op complete_op : PendingKey → Op Json

-- 1 where a call succeeds.
abbrev pub successes {ℓ} : {A : Type ℓ} → Result A LifecycleError → ℕ
successes (ok a) = 1
successes (err e) = 0

-- How often a request is among those of an answer.
abbrev pub granted_key : PendingKey → Result PendingKey LifecycleError → ℕ
granted_key k (ok t) = if same_key k t then 1 else 0
granted_key k (err e) = 0

abbrev pub handed_over : PendingKey → Result (List PendingKey) LifecycleError → ℕ
handed_over k (ok drained) = occ_key k drained
handed_over k (err e) = 0

abbrev pub reconnect_drained : PendingKey → Result ReconnectResult LifecycleError → ℕ
reconnect_drained k (ok r) = occ_key k r.drained
reconnect_drained k (err (reconnect_exhausted drained)) = occ_key k drained
reconnect_drained k (err e) = 0

issued_differs :
    (n : ℕ) (i : RequestId) → IsIssued n i → is_eq (id_compare (number (pos (n + 1))) i) ≡ false
issued_differs n (number (pos m)) h = ground arith
issued_differs n (number (negsuc m)) h = refl
issued_differs n (text t) h = refl

-- The next identifier is in no key of the set.
next_id_fresh :
    (g n : ℕ) (x : PendingKey)
    → IsCurrent g n x
    → same_key (record { generation = g; id = number (pos (n + 1)) }) x ≡ false
unfolding same_key key_compare
next_id_fresh g n x h = ground (arith, issued_differs n x.id h.1)

stale_differs :
    (g n : ℕ) (t : PendingKey)
    → t.generation ≢ g
    → (x : PendingKey) → IsCurrent g n x
    → same_key t x ≡ false
unfolding same_key key_compare
stale_differs g n t stale x h = ground arith

-- The error that a call returns.
abbrev pub error_in {ℓ} : {A : Type ℓ} → Result A LifecycleError → Option LifecycleError
error_in (ok a) = none
error_in (err e) = some e

module _ {Json : Type 0} where
  unfoldable pub apply : SessionLifecycle Json → Op Json → SessionLifecycle Json
  apply s connect_op = (begin_connect s).0
  apply s discovery_op = (begin_discovery s).0
  apply s initialize_op = (begin_initialize s).0
  apply s mark_legacy_op = (mark_legacy_initialized s).0
  apply s mark_ready_op = (mark_ready s).0
  apply s allocate_op = (allocate_and_reserve s).0
  apply s begin_close_op = (begin_close s).0
  apply s finish_close_op = (finish_close s).0
  apply s disconnect_op = (disconnect s).0
  apply s fail_op = (fail s).0
  apply s reconnect_op = (begin_reconnect s).0
  apply s (bind_op e c) = (bind_negotiation s e c).0
  apply s (reserve_op t) = (reserve s t).0
  apply s (complete_op t) = (complete s t).0

  -- The fields of a token are private to its module: a caller has only tokens given out to it.
  abbrev pub IsPermitted : SessionLifecycle Json → Op Json → Type 0
  IsPermitted s (reserve_op t) = IsIssued s.next_id t.id
  IsPermitted s op = Unit

  -- Every call, successful or not, keeps a session well formed.
  pub apply-IsValid :
      (s : SessionLifecycle Json) (op : Op Json)
      → IsPermitted s op
      → IsValid s
      → IsValid (apply s op)
  unfolding apply
  apply-IsValid s connect_op p v = begin_connect-IsValid s v
  apply-IsValid s discovery_op p v = begin_discovery-IsValid s v
  apply-IsValid s initialize_op p v = begin_initialize-IsValid s v
  apply-IsValid s mark_legacy_op p v = mark_legacy_initialized-IsValid s v
  apply-IsValid s mark_ready_op p v = mark_ready-IsValid s v
  apply-IsValid s allocate_op p v = allocate_and_reserve-IsValid s v
  apply-IsValid s begin_close_op p v = begin_close-IsValid s v
  apply-IsValid s finish_close_op p v = finish_close-IsValid s v
  apply-IsValid s disconnect_op p v = disconnect-IsValid s v
  apply-IsValid s fail_op p v = fail-IsValid s v
  apply-IsValid s reconnect_op p v = begin_reconnect-IsValid s v
  apply-IsValid s (bind_op e c) p v = bind_negotiation-IsValid s e c v
  apply-IsValid s (reserve_op t) p v = reserve-IsValid s t p v
  apply-IsValid s (complete_op t) p v = complete-IsValid s t v

  -- How often a call adds this request to those in flight.
  unfoldable pub reserved_by : PendingKey → SessionLifecycle Json → Op Json → ℕ
  reserved_by k s allocate_op = granted_key k (allocate_and_reserve s).1
  reserved_by k s (reserve_op t) = if same_key k t then successes (reserve s t).1 else 0
  reserved_by k s _ = 0

  -- How often it completes or cancels it, or hands it back to the caller as drained.
  unfoldable pub resolved_by : PendingKey → SessionLifecycle Json → Op Json → ℕ
  resolved_by k s (complete_op t) = if same_key k t then successes (complete s t).1 else 0
  resolved_by k s begin_close_op = handed_over k (begin_close s).1
  resolved_by k s disconnect_op = occ_key k (disconnect s).1
  resolved_by k s fail_op = occ_key k (fail s).1
  resolved_by k s reconnect_op = reconnect_drained k (begin_reconnect s).1
  resolved_by k s _ = 0

  allocated_absent :
      (s : SessionLifecycle Json)
      → IsValid s
      → contains (token_of s (s.next_id + 1)) s.pending ≡ false
  allocated_absent s v =
      contains-All (IsCurrent s.generation s.next_id) (token_of s (s.next_id + 1)) s.pending
        (next_id_fresh s.generation s.next_id) v.pending_current

  allocate_and_reserve_conserves :
      (k : PendingKey) (s : SessionLifecycle Json)
      → IsValid s
      → occ_key k (allocate_and_reserve s).0.pending
        ≡ occ_key k s.pending + granted_key k (allocate_and_reserve s).1
  unfolding allocate_and_reserve
  allocate_and_reserve_conserves k s v =
      ground
        (arith, occ_key-insert_key k (token_of s (s.next_id + 1)) s.pending, allocated_absent s v)

  -- The times that a request is in flight after a call are those before it, with those that the
  -- call reserves it and without those that it resolves it.
  pub apply_conserves :
      (k : PendingKey) (s : SessionLifecycle Json) (op : Op Json)
      → IsValid s
      → occ_key k (apply s op).pending + resolved_by k s op
        ≡ occ_key k s.pending + reserved_by k s op
  unfolding apply resolved_by reserved_by
  apply_conserves k s connect_op v = unfold begin_connect in ground arith
  apply_conserves k s discovery_op v = unfold begin_discovery in ground arith
  apply_conserves k s initialize_op v = unfold begin_initialize in ground arith
  apply_conserves k s mark_legacy_op v = unfold mark_legacy_initialized in ground arith
  apply_conserves k s mark_ready_op v = unfold mark_ready in ground arith
  apply_conserves k s allocate_op v = omega (arith, allocate_and_reserve_conserves k s v)
  apply_conserves k s begin_close_op v = unfold begin_close in ground (arith, v.pending_live)
  apply_conserves k s finish_close_op v = unfold finish_close in ground arith
  apply_conserves k s disconnect_op v = unfold disconnect in ground arith
  apply_conserves k s fail_op v = unfold fail in ground arith
  apply_conserves k s reconnect_op v = unfold begin_reconnect in ground arith
  apply_conserves k s (bind_op e c) v = unfold bind_negotiation in ground arith
  apply_conserves k s (reserve_op t) v =
      unfold reserve in ground (arith, occ_key-insert_key k t s.pending)
  apply_conserves k s (complete_op t) v =
      unfold complete in ground (arith, occ_key-remove_key k t s.pending)

  -- A call reserves a request only once, and only if it is not in flight.
  pub reserved_once :
      (k : PendingKey) (s : SessionLifecycle Json) (op : Op Json)
      → IsValid s
      → occ_key k s.pending ≤ 1
      → occ_key k s.pending + reserved_by k s op ≤ 1
  unfolding reserved_by
  reserved_once k s allocate_op v h =
      let absent = occ_key-absent k (token_of s (s.next_id + 1)) s.pending (allocated_absent s v) in
      unfold allocate_and_reserve in ground (arith, absent)
  reserved_once k s (reserve_op t) v h =
      unfold reserve in ground (arith, occ_key-absent k t s.pending)
  reserved_once k s _ v h = omega arith

  unfoldable pub error_of : SessionLifecycle Json → Op Json → Option LifecycleError
  error_of s connect_op = error_in (begin_connect s).1
  error_of s discovery_op = error_in (begin_discovery s).1
  error_of s initialize_op = error_in (begin_initialize s).1
  error_of s mark_legacy_op = error_in (mark_legacy_initialized s).1
  error_of s mark_ready_op = error_in (mark_ready s).1
  error_of s allocate_op = error_in (allocate_and_reserve s).1
  error_of s begin_close_op = error_in (begin_close s).1
  error_of s finish_close_op = error_in (finish_close s).1
  error_of s disconnect_op = none
  error_of s fail_op = none
  error_of s reconnect_op = error_in (begin_reconnect s).1
  error_of s (bind_op e c) = error_in (bind_negotiation s e c).1
  error_of s (reserve_op t) = error_in (reserve s t).1
  error_of s (complete_op t) = error_in (complete s t).1

  -- An error of any call leaves the whole session as it was, but for a reconnect whose budget is
  -- spent: that has the effect of failing the session and hands back what was in flight.
  pub error_atomic :
      (s : SessionLifecycle Json) (op : Op Json) (e : LifecycleError)
      → error_of s op ≡ some e
      → (apply s op ≡ s) ⊎ ((e ≡ reconnect_exhausted s.pending) × (apply s op ≡ (fail s).0))
  unfolding apply error_of
  error_atomic s connect_op e h = inl (unfold begin_connect in ground arith)
  error_atomic s discovery_op e h = inl (unfold begin_discovery in ground arith)
  error_atomic s initialize_op e h = inl (unfold begin_initialize in ground arith)
  error_atomic s mark_legacy_op e h = inl (unfold mark_legacy_initialized in ground arith)
  error_atomic s mark_ready_op e h = inl (unfold mark_ready in ground arith)
  error_atomic s allocate_op e h = inl (unfold allocate_and_reserve in ground arith)
  error_atomic s begin_close_op e h = inl (unfold begin_close in ground arith)
  error_atomic s finish_close_op e h = inl (unfold finish_close in ground arith)
  error_atomic s disconnect_op e h = cc
  error_atomic s fail_op e h = cc
  error_atomic s reconnect_op e h = unfold begin_reconnect fail in ground arith
  error_atomic s (bind_op p c) e h = inl (unfold bind_negotiation in ground arith)
  error_atomic s (reserve_op t) e h = inl (unfold reserve in ground arith)
  error_atomic s (complete_op t) e h = inl (unfold complete in ground arith)

  -- In a well-formed session a token of another generation than the session completes nothing and
  -- changes nothing: the answer is that the response is unknown.
  pub complete-stale :
      (s : SessionLifecycle Json) (t : PendingKey)
      → IsValid s
      → t.generation ≢ s.generation
      → complete s t ≡ (s, err unknown_response)
  unfolding complete
  complete-stale s t v stale =
      let absent =
        contains-All (IsCurrent s.generation s.next_id) t s.pending
          (stale_differs s.generation s.next_id t stale) v.pending_current in
      ground (arith, absent)
