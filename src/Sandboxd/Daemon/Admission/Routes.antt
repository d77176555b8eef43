-- ===== src/Sandboxd/Daemon/Admission/Routes.antt =====
-- crates/gobrowse-sandboxd/src/daemon.rs: the token, the shape and the route of an admitted request.
use Prim.Native.String.{String}
use gobrowseos.Prelude.{
  ℕ, ◌≤◌, subst, ◌≡◌, refl, true, false, Option, none, some, List, length, arith, inl, inr,
  Bool-cases, ok,
}
use gobrowseos.Core.Sandbox.{Bytes}
use gobrowseos.Sandboxd.Daemon.Operations.{
  SandboxOperation, terminal_mutation, is_non_idempotent, valid_wire_shape,
}
use gobrowseos.Sandboxd.Daemon.Admission.{
  Authenticator, new, verify, Route, journaled, replayed, direct, journaled_route, replayed_route,
  route_of,
}

module _ (sha256 : Bytes → ℕ) (to_vec : SandboxOperation → Option Bytes) where
  -- Journaled are the changes of a terminal, under their terminal and kind; other changes go through
  -- the replay cache alone, and what changes nothing is served at once. A fingerprint is the digest
  -- of the encoded operation.
  abbrev pub IsRouted : SandboxOperation → Route → Type 0
  IsRouted operation (journaled fp terminal kind) =
      (terminal_mutation operation ≡ some (terminal, kind))
      × (encoded : Bytes) × (to_vec operation ≡ some encoded)
      × (fp ≡ sha256 encoded)
  IsRouted operation (replayed fp) =
      (terminal_mutation operation ≡ none)
      × (is_non_idempotent operation ≡ true)
      × (encoded : Bytes) × (to_vec operation ≡ some encoded)
      × (fp ≡ sha256 encoded)
  IsRouted operation direct =
      (terminal_mutation operation ≡ none) × (is_non_idempotent operation ≡ false)

  replayed_sound :
      (operation : SandboxOperation) (o : Option Bytes) (route : Route)
      → terminal_mutation operation ≡ none
      → is_non_idempotent operation ≡ true
      → to_vec operation ≡ o
      → replayed_route sha256 to_vec (elim o [ none ↦ none | some encoded ↦ some (sha256 encoded) ])
        ≡ some route
      → IsRouted operation route
  replayed_sound operation none route m changes e h = absurd cc
  replayed_sound operation (some encoded) route m changes e h =
      let same : replayed (sha256 encoded) ≡ route = cc in
      subst (IsRouted operation) same (m, changes, encoded, e, refl)

  journaled_sound :
      (operation : SandboxOperation) (at : ℕ × String) (o : Option Bytes) (route : Route)
      → terminal_mutation operation ≡ some at
      → to_vec operation ≡ o
      → journaled_route sha256 to_vec
          (elim o [ none ↦ none | some encoded ↦ some (sha256 encoded) ])
          at
        ≡ some route
      → IsRouted operation route
  journaled_sound operation at none route m e h = absurd cc
  journaled_sound operation (terminal, kind) (some encoded) route m e h =
      let same : journaled (sha256 encoded) terminal kind ≡ route = cc in
      subst (IsRouted operation) same (m, encoded, e, refl)

  pub route_sound :
      (operation : SandboxOperation) (o : Option (ℕ × String)) (route : Route)
      → terminal_mutation operation ≡ o
      → route_of sha256 to_vec operation o ≡ some route
      → IsRouted operation route
  route_sound operation (some at) route m =
      journaled_sound operation at (to_vec operation) route m refl
  route_sound operation none route m = elim (Bool-cases (is_non_idempotent operation)) [
    | inl changes ↦ rw changes (replayed_sound operation (to_vec operation) route m changes refl)
    | inr keeps ↦
        rw keeps (λ h. let same : direct ≡ route = cc in subst (IsRouted operation) same (m, keeps))
  ]

-- A candidate that is verified is no longer than a token may be, and has the token's digest.
pub verify_sound :
    (sha256 : Bytes → ℕ) (token candidate : Bytes) (auth : Authenticator)
    → new sha256 token ≡ ok auth
    → verify sha256 auth candidate ≡ true
    → (length candidate ≤ 4096) × (sha256 candidate ≡ sha256 token)
unfolding new verify
verify_sound sha256 token candidate auth made v = ground arith

pub has_wire_shape_sound :
    {Value : Type 0} (as_object : Value → Option (List (String × Value)))
    (as_str : Value → Option String) (parse_value : Bytes → Option Value) (line : Bytes)
    (o : Option Value)
    → parse_value line ≡ o
    → elim o [ some value ↦ valid_wire_shape as_object as_str value | none ↦ false ] ≡ true
    → (value : Value) × (parse_value line ≡ some value)
      × (valid_wire_shape as_object as_str value ≡ true)
has_wire_shape_sound as_object as_str parse_value line none e h = absurd cc
has_wire_shape_sound as_object as_str parse_value line (some value) e h = (value, e, h)
