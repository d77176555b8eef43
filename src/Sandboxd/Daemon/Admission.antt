-- ===== src/Sandboxd/Daemon/Admission.antt =====
-- crates/gobrowse-sandboxd/src/daemon.rs: the token of the daemon, the checks that a line passes
-- before its request is served, and the lines of a connection. SHA-256 and `serde_json` stand
-- outside: a digest is the number of its 256 bits.
pub mod Routes
pub mod Authentic
mod Tests
use Prim.Native.String.{String}
use gobrowseos.Prelude.{
  ℕ, Bool, true, false, ◌&&◌, ◌||◌, not, Option, none, some, List, [], ◌∷◌, any, leb, ltb, ◌==◌,
  length, if◌then◌else◌, Result, ok, err,
}
use gobrowseos.Core.Sandbox.{Bytes, is_empty, has_nul}
use gobrowseos.Sandboxd.Daemon.Errors.{
  DaemonError, SandboxErrorCode, SandboxProtocolError, ResponseEnvelope, error_response,
  sandbox_protocol_version,
}
use gobrowseos.Sandboxd.Daemon.Operations.{
  SandboxOperation, RequestEnvelope, valid_wire_shape, is_non_idempotent, terminal_mutation,
}

abbrev pub max_token_bytes : ℕ
max_token_bytes = 4096

abbrev pub max_protocol_line_bytes : ℕ
max_protocol_line_bytes = 524288

pub record Authenticator : Type 0 where
  pub expected_digest : ℕ

module _ (sha256 : Bytes → ℕ) where
  unfoldable pub new : Bytes → Result Authenticator DaemonError
  new token =
      if is_empty token || (ltb max_token_bytes (length token) || has_nul token)
      then err DaemonError.invalid_configuration
      else ok (record { expected_digest = sha256 token })

  unfoldable pub verify : Authenticator → Bytes → Bool
  verify auth candidate =
      if ltb max_token_bytes (length candidate)
      then false
      else auth.expected_digest == sha256 candidate

-- How an admitted request is served: through the journal, through the replay cache alone, or at
-- once. The numbers are the fingerprint and the terminal.
pub data Route : Type 0 where
  journaled : ℕ → ℕ → String → Route
  replayed : ℕ → Route
  direct : Route

pub record Request : Type 0 where
  pub request_id : ℕ
  pub route : Route
  pub operation : SandboxOperation

abbrev pub is_line_break : ℕ → Bool
is_line_break b = b == 13 || b == 10

-- `serde_json::from_slice` for a `Value` stands outside.
module _ {Value : Type 0} (as_object : Value → Option (List (String × Value)))
    (as_str : Value → Option String) (parse_value : Bytes → Option Value) where
  -- The line is read a second time, as a value, for the names of its fields.
  unfoldable pub has_wire_shape : Bytes → Bool
  has_wire_shape line = elim (parse_value line) [
    | some value ↦ valid_wire_shape as_object as_str value
    | none ↦ false
  ]

module _ {R : Type 0} where
  abbrev pub routed : RequestEnvelope → Option Route → Result Request (ResponseEnvelope R)
  routed request none = err (error_response request.request_id DaemonError.invalid_request)
  routed request (some r) =
      ok (record { request_id = request.request_id; route = r; operation = request.operation })

module _ (sha256 : Bytes → ℕ) (to_vec : SandboxOperation → Option Bytes) where
  abbrev pub fingerprint : SandboxOperation → Option ℕ
  fingerprint operation = elim (to_vec operation) [
    | none ↦ none
    | some encoded ↦ some (sha256 encoded)
  ]

  abbrev pub journaled_route : Option ℕ → ℕ × String → Option Route
  journaled_route none at = none
  journaled_route (some fp) (terminal, kind) = some (journaled fp terminal kind)

  abbrev pub replayed_route : Option ℕ → Option Route
  replayed_route none = none
  replayed_route (some fp) = some (replayed fp)

  -- None where the operation cannot be encoded for its fingerprint.
  abbrev pub route_of : SandboxOperation → Option (ℕ × String) → Option Route
  route_of operation (some at) = journaled_route (fingerprint operation) at
  route_of operation none =
      if is_non_idempotent operation then replayed_route (fingerprint operation) else some direct

  module _ {R : Type 0} where
    abbrev pub admit_request : Authenticator → RequestEnvelope → Result Request (ResponseEnvelope R)
    admit_request auth request =
        if request.request_id == 0
        then err (error_response request.request_id DaemonError.invalid_request)
        else if not (verify sha256 auth request.token)
        then err (error_response request.request_id DaemonError.unauthorized)
        else if not (request.version == sandbox_protocol_version)
        then err (error_response request.request_id DaemonError.unsupported_version)
        else routed request (route_of request.operation (terminal_mutation request.operation))

    abbrev pub admit_parsed :
        Authenticator → Bool → Option RequestEnvelope → Result Request (ResponseEnvelope R)
    admit_parsed auth shape none = err (error_response 0 DaemonError.invalid_request)
    admit_parsed auth shape (some request) =
        if not shape
        then err (error_response 0 DaemonError.invalid_request)
        else admit_request auth request

    -- `handle_line` up to the place where it serves the request. The test of the shape of a line is
    -- `has_wire_shape`.
    unfoldable pub admit :
        Authenticator
        → (Bytes → Option RequestEnvelope)
        → (Bytes → Bool)
        → Bytes
        → Result Request (ResponseEnvelope R)
    admit auth from_slice shape line =
        if is_empty line || (leb max_protocol_line_bytes (length line) || any is_line_break line)
        then err (error_response 0 DaemonError.invalid_request)
        else admit_parsed auth (shape line) (from_slice line)

abbrev pub is_unauthorized : SandboxErrorCode → Bool
is_unauthorized SandboxErrorCode.unauthorized = true
is_unauthorized _ = false

abbrev pub is_deadline_exceeded : SandboxErrorCode → Bool
is_deadline_exceeded SandboxErrorCode.deadline_exceeded = true
is_deadline_exceeded _ = false

module _ {R : Type 0} where
  abbrev pub has_code : (SandboxErrorCode → Bool) → Result R SandboxProtocolError → Bool
  has_code p (ok r) = false
  has_code p (err e) = p e.code

  -- Whether a connection goes on after a response.
  unfoldable pub keeps_connection : ResponseEnvelope R → Bool
  keeps_connection response =
      let authorized =
        not (response.request_id == 0) && not (has_code is_unauthorized response.result) in
      authorized && not (has_code is_deadline_exceeded response.result)

-- What a connection reads: a line, a line that is too long or not ended, or the end.
pub data Received : Type 0 where
  line_of : Bytes → Received
  oversized : Received

module _ {R : Type 0} {S : Type 0} (handle : S → Bytes → S × ResponseEnvelope R) where
  -- The loop of `handle_connection` over what it reads, with the responses that it writes. The
  -- deadlines and faults of the socket, which end it at any place, are left out.
  unfoldable pub converse : S → List Received → S × List (ResponseEnvelope R)
  converse s [] = (s, [])
  converse s (oversized ∷ rest) = (s, error_response 0 DaemonError.limit_exceeded ∷ [])
  converse s (line_of line ∷ rest) =
      let (s', response) = handle s line in
      let (s'', responses) = converse s' rest in
      if keeps_connection response then (s'', response ∷ responses) else (s', response ∷ [])
