-- ===== src/Mcp/Lifecycle/Tests.antt =====
-- Tests of lifecycle.rs on one sequence of calls.
use gobrowseos.Prelude.{
  ℕ, ◌+◌, ◌≤◌, ◌<◌, ◌≡◌, refl, ◌⊎◌, false, some, none, List, [], ◌∷◌, arith, length, pos, ok, err,
}
use gobrowseos.Mcp.Wire.{number}
use gobrowseos.Mcp.Era.{modern20260728}
use gobrowseos.Mcp.Capabilities.{ServerCapabilities}
use gobrowseos.Mcp.Pending.{
  PendingKey, insert_key, remove_key, key_compare, same_key, occ_key, contains,
}
use gobrowseos.Mcp.Lifecycle.{
  SessionLifecycle, ready, reconnect_exhausted, unknown_response, max_reconnect_attempts, new,
  allocate_and_reserve, complete, fail, begin_connect, begin_discovery, bind_negotiation,
  mark_ready, begin_reconnect, disconnect,
}
use gobrowseos.Mcp.Lifecycle.Invariant.{IsValid}
use gobrowseos.Mcp.Lifecycle.Steps.{
  Op, connect_op, discovery_op, bind_op, mark_ready_op, allocate_op, complete_op, disconnect_op,
  reconnect_op, apply, reserved_by, error_of, error_atomic, complete-stale,
}
use gobrowseos.Mcp.Lifecycle.Runs.{
  run, IsPermittedRun, run-IsValid, new-IsValid, reserved_in, resolved_in, run_conserves,
  connected_by, allocated_ids_increase, connected_in, reconnected_in, reconnects_bounded,
}

abbrev nothing : ServerCapabilities ℕ
nothing = record {
  tools = none;
  resources = none;
  prompts = none;
  logging = none;
  experimental = none;
}

abbrev key : ℕ → ℕ → PendingKey
key g n = record { generation = g; id = number (pos n) }

-- To the ready state, with two requests of which one is completed.
abbrev ops : List (Op ℕ)
ops =
    connect_op
    ∷ discovery_op
    ∷ bind_op modern20260728 nothing
    ∷ mark_ready_op
    ∷ allocate_op
    ∷ allocate_op
    ∷ complete_op (key 1 1)
    ∷ []

-- Then the connection is lost and made again.
abbrev lost : List (Op ℕ)
lost = disconnect_op ∷ reconnect_op ∷ []

abbrev permitted : IsPermittedRun new ops
permitted = (tt, (tt, (tt, (tt, (tt, (tt, (tt, tt)))))))

run-IsValid_example : IsValid (run new ops)
run-IsValid_example = run-IsValid new ops permitted new-IsValid

run_conserves_example :
    (occ_key (key 1 2) (run new ops).pending + resolved_in (key 1 2) new ops
      ≡ reserved_in (key 1 2) new ops)
    × (occ_key (key 1 2) (run new ops).pending ≤ 1)
    × (length (run new ops).pending ≤ 64)
run_conserves_example = run_conserves (key 1 2) ops permitted

reserved_one : reserved_in (key 1 2) new ops ≡ 1
unfolding reserved_in reserved_by apply new begin_connect begin_discovery bind_negotiation
    mark_ready allocate_and_reserve complete insert_key remove_key key_compare contains same_key
reserved_one = refl

reconnected_once : connected_in new lost ≡ 0
unfolding connected_in connected_by apply new disconnect begin_reconnect
reconnected_once = refl

lost-permitted : IsPermittedRun new lost
lost-permitted = (tt, (tt, tt))

reconnects_bounded_example : 0 + reconnected_in new lost ≤ max_reconnect_attempts
unfolding new
reconnects_bounded_example = reconnects_bounded new lost new-IsValid lost-permitted reconnected_once

-- A session with one request in flight.
abbrev with_request : SessionLifecycle ℕ
with_request = record {
  state = ready;
  generation = 1;
  era = some modern20260728;
  capabilities = some nothing;
  legacy_initialized = false;
  pending = key 1 1 ∷ [];
  reconnect_attempts = 0;
  next_id = 1;
}

abbrev without_request : SessionLifecycle ℕ
without_request = record with_request { pending = []; next_id = 0 }

abbrev with_two : SessionLifecycle ℕ
with_two = record with_request { pending = key 1 1 ∷ key 1 2 ∷ []; next_id = 2 }

first_id : allocate_and_reserve without_request ≡ (with_request, ok (key 1 1))
unfolding allocate_and_reserve insert_key key_compare contains
first_id = refl

second_id : allocate_and_reserve (run with_request []) ≡ (with_two, ok (key 1 2))
unfolding run allocate_and_reserve insert_key key_compare contains
second_id = refl

allocated_ids_increase_example :
    (m : ℕ) × (n : ℕ) × ((key 1 1).id ≡ number (pos m))
    × ((key 1 2).id ≡ number (pos n))
    × (0 < m)
    × (m < n)
allocated_ids_increase_example =
    allocated_ids_increase without_request with_request with_two [] (key 1 1) (key 1 2) first_id
      second_id

with_request-IsValid : IsValid with_request
with_request-IsValid = ground arith

complete-stale_example : complete with_request (key 0 1) ≡ (with_request, err unknown_response)
complete-stale_example = complete-stale with_request (key 0 1) with_request-IsValid (ground arith)

abbrev worn_out : SessionLifecycle ℕ
worn_out = record with_request { reconnect_attempts = 3 }

budget_spent : error_of worn_out reconnect_op ≡ some (reconnect_exhausted (key 1 1 ∷ []))
unfolding error_of begin_reconnect
budget_spent = refl

error_atomic_example :
    (apply worn_out reconnect_op ≡ worn_out)
    ⊎ ((reconnect_exhausted (key 1 1 ∷ []) ≡ reconnect_exhausted worn_out.pending)
        × (apply worn_out reconnect_op ≡ (fail worn_out).0))
error_atomic_example =
    error_atomic worn_out reconnect_op (reconnect_exhausted (key 1 1 ∷ [])) budget_spent
