-- ===== src/Mcp/Lifecycle.antt =====
-- crates/gobrowse-core/src/mcp/lifecycle.rs: the generation-fenced session of an MCP client.
-- A method on `&mut self` returns the new session and its result.
pub mod Invariant
pub mod Steps
pub mod Runs
mod Tests
use gobrowseos.Prelude.{
  ℕ, ◌+◌, Bool, true, false, not, ◌&&◌, ◌||◌, Option, none, some, List, [], ◌∷◌, leb, ◌==◌,
  if◌then◌else◌, length, checked_add, u64_max, u32_max, i64_max, ℤ, pos, Result, ok, err,
}
use gobrowseos.Mcp.Era.{
  McpProtocolEra, legacy20251125, is_modern, same_era, supported_protocol_eras, find_era,
}
use gobrowseos.Mcp.Wire.{RequestId, number, validate}
use gobrowseos.Mcp.Capabilities.{ServerCapabilities, is_some}
use gobrowseos.Mcp.Pending.{PendingKey, contains, insert_key, remove_key}

abbrev pub max_pending_requests : ℕ
max_pending_requests = 64

abbrev pub max_reconnect_attempts : ℕ
max_reconnect_attempts = 3

pub data SessionState : Type 0 where
  disconnected connecting discovering initializing ready closing closed failed : SessionState

-- A `PendingToken` is the key that it names.
pub record ReconnectResult : Type 0 where
  pub generation : ℕ
  pub drained : List PendingKey

pub data LifecycleError : Type 0 where
  illegal_transition not_ready pending_limit duplicate_request unknown_response : LifecycleError
  negotiation_required id_exhausted : LifecycleError
  reconnect_exhausted : List PendingKey → LifecycleError

pub record SessionLifecycle (Json : Type 0) : Type 0 where
  pub state : SessionState
  pub generation : ℕ
  pub era : Option McpProtocolEra
  pub capabilities : Option (ServerCapabilities Json)
  pub legacy_initialized : Bool
  pub pending : List PendingKey
  pub reconnect_attempts : ℕ
  pub next_id : ℕ

-- The `matches!` tests on the state.
abbrev pub is_idle : SessionState → Bool
is_idle disconnected = true
is_idle closed = true
is_idle failed = true
is_idle _ = false

abbrev pub is_connecting : SessionState → Bool
is_connecting connecting = true
is_connecting _ = false

abbrev pub is_discovering : SessionState → Bool
is_discovering discovering = true
is_discovering _ = false

abbrev pub is_initializing : SessionState → Bool
is_initializing initializing = true
is_initializing _ = false

abbrev pub is_ready : SessionState → Bool
is_ready ready = true
is_ready _ = false

abbrev pub is_closing : SessionState → Bool
is_closing closing = true
is_closing _ = false

abbrev pub is_closed : SessionState → Bool
is_closed closed = true
is_closed _ = false

-- The states from which `begin_close` starts a close.
abbrev pub can_close : SessionState → Bool
can_close connecting = true
can_close discovering = true
can_close initializing = true
can_close ready = true
can_close failed = true
can_close _ = false

abbrev pub is_empty {ℓ} : {A : Type ℓ} → List A → Bool
is_empty [] = true
is_empty (x ∷ xs) = false

-- `self.era == Some(McpProtocolEra::Legacy20251125)`.
abbrev pub is_legacy : Option McpProtocolEra → Bool
is_legacy none = false
is_legacy (some e) = same_era e legacy20251125

module _ {Json : Type 0} where
  unfoldable pub new : SessionLifecycle Json
  new = record {
    state = disconnected;
    generation = 0;
    era = none;
    capabilities = none;
    legacy_initialized = false;
    pending = [];
    reconnect_attempts = 0;
    next_id = 0;
  }

  abbrev pub clear_session : SessionLifecycle Json → SessionLifecycle Json
  clear_session s = record s { era = none; capabilities = none; legacy_initialized = false }

  -- The keys of the set in its order, and the set emptied.
  abbrev pub drain_pending : SessionLifecycle Json → SessionLifecycle Json × List PendingKey
  drain_pending s = (record s { pending = [] }, s.pending)

  -- The session of a generation that has just begun.
  abbrev pub connected : SessionLifecycle Json → ℕ → SessionLifecycle Json
  connected s g = record s {
    generation = g;
    state = connecting;
    era = none;
    capabilities = none;
    legacy_initialized = false;
  }

  unfoldable pub begin_connect_inner :
      SessionLifecycle Json → SessionLifecycle Json × Result ℕ LifecycleError
  begin_connect_inner s =
      if not (is_idle s.state) || not (is_empty s.pending)
      then (s, err illegal_transition)
      else elim (checked_add u64_max s.generation 1) [
        | none ↦ (s, err id_exhausted)
        | some g ↦ (connected s g, ok g)
      ]

  unfoldable pub begin_connect :
      SessionLifecycle Json → SessionLifecycle Json × Result ℕ LifecycleError
  unfolding begin_connect_inner
  begin_connect s =
      if not (is_idle s.state) || not (is_empty s.pending)
      then (s, err illegal_transition)
      else elim (checked_add u64_max s.generation 1) [
        | none ↦ (s, err id_exhausted)
        | some g ↦ begin_connect_inner (record s { reconnect_attempts = 0 })
      ]

  unfoldable pub begin_discovery :
      SessionLifecycle Json → SessionLifecycle Json × Result (Unit {0}) LifecycleError
  begin_discovery s =
      if is_connecting s.state
      then (record s { state = discovering }, ok tt)
      else (s, err illegal_transition)

  unfoldable pub begin_initialize :
      SessionLifecycle Json → SessionLifecycle Json × Result (Unit {0}) LifecycleError
  begin_initialize s =
      if is_connecting s.state
      then (record s { state = initializing }, ok tt)
      else (s, err illegal_transition)

  unfoldable pub bind_negotiation :
      SessionLifecycle Json
      → McpProtocolEra
      → ServerCapabilities Json
      → SessionLifecycle Json × Result (Unit {0}) LifecycleError
  bind_negotiation s era capabilities =
      let path_ok =
        (is_modern era && is_discovering s.state)
        || (not (is_modern era) && is_initializing s.state) in
      if not path_ok || not (is_some (find_era (same_era era) supported_protocol_eras))
      then (s, err negotiation_required)
      else (record s { era = some era; capabilities = some capabilities }, ok tt)

  unfoldable pub mark_legacy_initialized :
      SessionLifecycle Json → SessionLifecycle Json × Result (Unit {0}) LifecycleError
  mark_legacy_initialized s =
      if is_initializing s.state
        && (is_legacy s.era && (is_some s.capabilities && not s.legacy_initialized))
      then (record s { legacy_initialized = true }, ok tt)
      else (s, err illegal_transition)

  unfoldable pub mark_ready :
      SessionLifecycle Json → SessionLifecycle Json × Result (Unit {0}) LifecycleError
  mark_ready s =
      if not (is_some s.era)
        || (not (is_some s.capabilities) || (is_legacy s.era && not s.legacy_initialized))
      then (s, err negotiation_required)
      else if not (is_discovering s.state || is_initializing s.state)
      then (s, err illegal_transition)
      else (record s { state = ready }, ok tt)

  abbrev pub token_of : SessionLifecycle Json → ℕ → PendingKey
  token_of s n = record { generation = s.generation; id = number (pos n) }

  unfoldable pub allocate_and_reserve :
      SessionLifecycle Json → SessionLifecycle Json × Result PendingKey LifecycleError
  allocate_and_reserve s =
      if not (is_ready s.state)
      then (s, err not_ready)
      else elim (checked_add i64_max s.next_id 1) [
        | none ↦ (s, err id_exhausted)
        | some n ↦ if leb max_pending_requests (length s.pending) then (s, err pending_limit) else (
          record s { next_id = n; pending = insert_key (token_of s n) s.pending },
          ok (token_of s n),
        )
      ]

  unfoldable pub reserve :
      SessionLifecycle Json → PendingKey → SessionLifecycle Json × Result (Unit {0}) LifecycleError
  reserve s token =
      if not (is_ready s.state || is_initializing s.state)
      then (s, err not_ready)
      else if not (token.generation == s.generation)
      then (s, err unknown_response)
      else elim (validate token.id) [
        | err e ↦ (s, err unknown_response)
        | ok u ↦
            if contains token s.pending
            then (s, err duplicate_request)
            else if leb max_pending_requests (length s.pending)
            then (s, err pending_limit)
            else (record s { pending = insert_key token s.pending }, ok tt)
      ]

  unfoldable pub complete :
      SessionLifecycle Json → PendingKey → SessionLifecycle Json × Result (Unit {0}) LifecycleError
  complete s token =
      if is_closing s.state || is_idle s.state
      then (s, err unknown_response)
      else if contains token s.pending
      then (record s { pending = remove_key token s.pending }, ok tt)
      else (s, err unknown_response)

  abbrev pub cancel :
      SessionLifecycle Json → PendingKey → SessionLifecycle Json × Result (Unit {0}) LifecycleError
  cancel = complete

  unfoldable pub begin_close :
      SessionLifecycle Json → SessionLifecycle Json × Result (List PendingKey) LifecycleError
  begin_close s =
      if is_closing s.state || is_closed s.state
      then (s, ok [])
      else if not (can_close s.state)
      then (s, err illegal_transition)
      else (let (s', drained) = drain_pending (record s { state = closing }) in (s', ok drained))

  unfoldable pub finish_close :
      SessionLifecycle Json → SessionLifecycle Json × Result (Unit {0}) LifecycleError
  finish_close s =
      if is_closing s.state
      then (clear_session (record s { state = closed }), ok tt)
      else if is_closed s.state
      then (s, ok tt)
      else (s, err illegal_transition)

  unfoldable pub disconnect : SessionLifecycle Json → SessionLifecycle Json × List PendingKey
  disconnect s = drain_pending (clear_session (record s { state = disconnected }))

  unfoldable pub fail : SessionLifecycle Json → SessionLifecycle Json × List PendingKey
  fail s = drain_pending (clear_session (record s { state = failed }))

  -- The result of the inner connection, with what was drained.
  abbrev pub reconnected :
      List PendingKey
      → SessionLifecycle Json × Result ℕ LifecycleError
      → SessionLifecycle Json × Result ReconnectResult LifecycleError
  reconnected drained (s, ok g) = (s, ok (record { generation = g; drained = drained }))
  reconnected drained (s, err e) = (s, err e)

  unfoldable pub begin_reconnect :
      SessionLifecycle Json → SessionLifecycle Json × Result ReconnectResult LifecycleError
  unfolding begin_connect_inner
  begin_reconnect s =
      if not (is_ready s.state || is_idle s.state)
      then (s, err illegal_transition)
      else if leb max_reconnect_attempts s.reconnect_attempts
      then (let (s', drained) = drain_pending s in
          (clear_session (record s' { state = failed }), err (reconnect_exhausted drained)))
      else elim (checked_add u64_max s.generation 1) [
        | none ↦ (s, err id_exhausted)
        | some g ↦ elim (checked_add u32_max s.reconnect_attempts 1) [
          | none ↦ (s, err id_exhausted)
          | some attempt ↦
              let (s', drained) = drain_pending s in
              reconnected drained (
                begin_connect_inner (
                  clear_session (record s' { reconnect_attempts = attempt; state = disconnected })))
        ]
      ]
