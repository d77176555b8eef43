-- ===== src/Sandboxd/Daemon/Dispatch/Starts.antt =====
-- crates/gobrowse-sandboxd/src/daemon.rs, `dispatch`: the starts of terminals that succeed, and the
-- data that is accepted.
use gobrowseos.Prelude.{
  ℕ, ◌+◌, ◌*◌, ◌/◌, ◌≡◌, true, Option, none, some, Bool-cases, inl, inr, [], ◌∷◌, ok, err,
  if◌then◌else◌, length, leb, arith,
}
use gobrowseos.Core.Sandbox.{Bytes}
use gobrowseos.Core.Sandbox.Network.{
  NetworkPolicy, no_network, restricted, full, valid_restricted_network_name,
}
use gobrowseos.Sandboxd.Daemon.Errors.{DaemonError}
use gobrowseos.Sandboxd.Daemon.Dispatch.{NetworkPolicyConfig, restricted_name, resolve}
use gobrowseos.Sandboxd.Daemon.Dispatch.Handlers.{decode_bounded}

-- Base64 with padding: what is decoded within the bound is exactly the data that was encoded, and
-- longer data is refused.
pub decode_bounded-encode :
    (decode : Bytes → Option Bytes) (encode : Bytes → Bytes) (bytes : Bytes) (maximum : ℕ)
    → decode (encode bytes) ≡ some bytes
    → length (encode bytes) ≡ (length bytes + 2) / 3 * 4
    → decode_bounded decode (encode bytes) maximum
      ≡ (if leb (length bytes) maximum then ok bytes else err DaemonError.limit_exceeded)
unfolding decode_bounded
decode_bounded-encode decode encode bytes maximum decodes padded = ground arith

-- The network that a policy stands for: "none"; the one configured, whose name is valid; or, where
-- the configuration allows it, "slirp4netns".
abbrev pub IsAllowedNetwork : NetworkPolicyConfig → NetworkPolicy → Bytes → Type 0
IsAllowedNetwork config no_network network = network ≡ 110 ∷ 111 ∷ 110 ∷ 101 ∷ []
IsAllowedNetwork config restricted network =
    (config.restricted_network ≡ some network) × (valid_restricted_network_name network ≡ true)
IsAllowedNetwork config full network =
    (config.allow_full ≡ true)
    × (network ≡ 115 ∷ 108 ∷ 105 ∷ 114 ∷ 112 ∷ 52 ∷ 110 ∷ 101 ∷ 116 ∷ 110 ∷ 115 ∷ [])

restricted_name_sound :
    (configured : Option Bytes) (network : Bytes)
    → restricted_name configured ≡ ok network
    → (configured ≡ some network) × (valid_restricted_network_name network ≡ true)
restricted_name_sound none network h = absurd (ground arith)
restricted_name_sound (some name) network h =
    elim (Bool-cases (valid_restricted_network_name name)) [
      | inl valid ↦ ground arith
      | inr invalid ↦ absurd (ground arith)
    ]

pub resolve_sound :
    (config : NetworkPolicyConfig) (policy : NetworkPolicy) (network : Bytes)
    → resolve config policy ≡ ok network
    → IsAllowedNetwork config policy network
unfolding resolve
resolve_sound config no_network network h = ground arith
resolve_sound config restricted network h =
    restricted_name_sound config.restricted_network network h
resolve_sound config full network h = elim (Bool-cases config.allow_full) [
  | inl allowed ↦ ground arith
  | inr refused ↦ absurd (ground arith)
]
