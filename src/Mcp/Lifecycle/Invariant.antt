-- ===== src/Mcp/Lifecycle/Invariant.antt =====
-- lifecycle.rs: the well-formedness of an MCP session between two calls.
use gobrowseos.Prelude.{
  ℕ, ◌+◌, ◌≤◌, ◌≡◌, refl, Bool, true, false, Option, none, some, List, [], ◌∷◌, inl, inr, arith,
  length, All, pos, negsuc, u64_max, i64_max, Bool-cases, ◌==◌,
}
use gobrowseos.Mcp.Era.{McpProtocolEra, modern20260728, legacy20251125}
use gobrowseos.Mcp.Wire.{RequestId, number, text}
use gobrowseos.Mcp.Capabilities.{ServerCapabilities, is_some}
use gobrowseos.Mcp.Pending.{
  PendingKey, length-insert_key_le, length-remove_key, All-insert_key, All-remove_key,
}
use gobrowseos.Mcp.Lifecycle.{
  SessionLifecycle, SessionState, discovering, initializing, ready, closing, max_pending_requests,
  max_reconnect_attempts, begin_connect, begin_discovery, begin_initialize, bind_negotiation,
  mark_legacy_initialized, mark_ready, allocate_and_reserve, reserve, complete, begin_close,
  finish_close, disconnect, fail, begin_reconnect, token_of,
}

-- States in which requests can be in flight, and states that keep a negotiated session.
abbrev pub holds_requests : SessionState → Bool
holds_requests initializing = true
holds_requests ready = true
holds_requests _ = false

abbrev pub keeps_session : SessionState → Bool
keeps_session discovering = true
keeps_session initializing = true
keeps_session ready = true
keeps_session closing = true
keeps_session _ = false

-- No era is bound, or one that this client implements.
abbrev pub supported : Option McpProtocolEra → Bool
supported none = true
supported (some modern20260728) = true
supported (some legacy20251125) = true
supported (some e) = false

-- An identifier that `allocate_and_reserve` has given out by the time that the counter reads `n`.
abbrev pub IsIssued : ℕ → RequestId → Type 0
IsIssued n (number (pos m)) = m ≤ n
IsIssued n (number (negsuc m)) = ⊥
IsIssued n (text t) = ⊥

-- A key of generation `g` with an identifier that was given out.
abbrev pub IsCurrent : ℕ → ℕ → PendingKey → Type 0
IsCurrent g n k = (k.generation ≡ g) × IsIssued n k.id

IsIssued-mono : (m n : ℕ) (i : RequestId) → m ≤ n → IsIssued m i → IsIssued n i
IsIssued-mono m n (number (pos k)) h i = omega arith
IsIssued-mono m n (number (negsuc k)) h i = i
IsIssued-mono m n (text t) h i = i

All-IsCurrent_mono :
    (g m n : ℕ) (xs : List PendingKey) → m ≤ n → All (IsCurrent g m) xs → All (IsCurrent g n) xs
All-IsCurrent_mono g m n [] h a = tt
All-IsCurrent_mono g m n (x ∷ xs) h a =
    ((a.0.0, IsIssued-mono m n x.id h a.0.1), All-IsCurrent_mono g m n xs h a.1)

module _ {Json : Type 0} where
  pub record IsValid (s : SessionLifecycle Json) : Type 0 where
    pub pending_bounded : length s.pending ≤ max_pending_requests
    pub pending_current : All (IsCurrent s.generation s.next_id) s.pending
    pub pending_live : holds_requests s.state ≡ false → s.pending ≡ []
    pub attempts_bounded : s.reconnect_attempts ≤ max_reconnect_attempts
    pub generation_fits : s.generation ≤ u64_max
    pub id_fits : s.next_id ≤ i64_max
    pub session_kept : keeps_session s.state ≡ false → s.era ≡ none
    pub era_supported : supported s.era ≡ true
    pub era_capable : is_some s.era ≡ true → is_some s.capabilities ≡ true
    pub ready_negotiated : s.state ≡ ready → is_some s.era ≡ true
    pub legacy_handshake :
        s.state ≡ ready → s.era ≡ some legacy20251125 → s.legacy_initialized ≡ true

  pub begin_connect-IsValid : (s : SessionLifecycle Json) → IsValid s → IsValid (begin_connect s).0
  unfolding begin_connect
  begin_connect-IsValid s v = ground arith

  pub begin_discovery-IsValid :
      (s : SessionLifecycle Json) → IsValid s → IsValid (begin_discovery s).0
  unfolding begin_discovery
  begin_discovery-IsValid s v = ground arith

  pub begin_initialize-IsValid :
      (s : SessionLifecycle Json) → IsValid s → IsValid (begin_initialize s).0
  unfolding begin_initialize
  begin_initialize-IsValid s v = ground arith

  pub bind_negotiation-IsValid :
      (s : SessionLifecycle Json) (e : McpProtocolEra) (c : ServerCapabilities Json)
      → IsValid s
      → IsValid (bind_negotiation s e c).0
  unfolding bind_negotiation
  bind_negotiation-IsValid s e c v = ground arith

  pub mark_legacy_initialized-IsValid :
      (s : SessionLifecycle Json) → IsValid s → IsValid (mark_legacy_initialized s).0
  unfolding mark_legacy_initialized
  mark_legacy_initialized-IsValid s v = ground arith

  pub mark_ready-IsValid : (s : SessionLifecycle Json) → IsValid s → IsValid (mark_ready s).0
  unfolding mark_ready
  mark_ready-IsValid s v = ground arith

  pub begin_close-IsValid : (s : SessionLifecycle Json) → IsValid s → IsValid (begin_close s).0
  unfolding begin_close
  begin_close-IsValid s v = ground arith

  pub finish_close-IsValid : (s : SessionLifecycle Json) → IsValid s → IsValid (finish_close s).0
  unfolding finish_close
  finish_close-IsValid s v = ground arith

  pub disconnect-IsValid : (s : SessionLifecycle Json) → IsValid s → IsValid (disconnect s).0
  unfolding disconnect
  disconnect-IsValid s v = ground arith

  pub fail-IsValid : (s : SessionLifecycle Json) → IsValid s → IsValid (fail s).0
  unfolding fail
  fail-IsValid s v = ground arith

  pub begin_reconnect-IsValid :
      (s : SessionLifecycle Json) → IsValid s → IsValid (begin_reconnect s).0
  unfolding begin_reconnect
  begin_reconnect-IsValid s v = ground arith

  pub allocate_and_reserve-IsValid :
      (s : SessionLifecycle Json) → IsValid s → IsValid (allocate_and_reserve s).0
  unfolding allocate_and_reserve
  allocate_and_reserve-IsValid s v =
      let token = token_of s (s.next_id + 1) in
      let older =
        All-IsCurrent_mono s.generation s.next_id (s.next_id + 1) s.pending (omega arith)
          v.pending_current in
      ground (
        arith,
        length-insert_key_le token s.pending,
        All-insert_key (IsCurrent s.generation (s.next_id + 1)) token s.pending (refl, omega arith)
            older,
      )

  pub reserve-IsValid :
      (s : SessionLifecycle Json) (token : PendingKey)
      → IsIssued s.next_id token.id
      → IsValid s
      → IsValid (reserve s token).0
  unfolding reserve
  reserve-IsValid s token i v = elim (Bool-cases (token.generation == s.generation)) [
    | inr stale ↦ ground arith
    | inl fenced ↦
        let kept =
          All-insert_key (IsCurrent s.generation s.next_id) token s.pending (ground arith, i)
            v.pending_current in
        ground (arith, length-insert_key_le token s.pending, kept)
  ]

  pub complete-IsValid :
      (s : SessionLifecycle Json) (token : PendingKey) → IsValid s → IsValid (complete s token).0
  unfolding complete
  complete-IsValid s token v = ground (
    arith,
    length-remove_key token s.pending,
    All-remove_key (IsCurrent s.generation s.next_id) token s.pending v.pending_current,
  )
