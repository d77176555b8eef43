-- ===== src/Sandboxd/Daemon/Admission/Tests.antt =====
-- Tests of the lines and connections of daemon.rs. A digest is the first byte.
use Prim.Native.String.{String}
use gobrowseos.Prelude.{ℕ, List, none, ◌≡◌, refl, Bool, true, Option, some, [], ◌∷◌, err}
use gobrowseos.Core.Sandbox.{Bytes}
use gobrowseos.Sandboxd.Daemon.Errors.{ResponseEnvelope, DaemonError, error_response, describe}
use gobrowseos.Sandboxd.Daemon.Operations.{SandboxOperation, RequestEnvelope}
use gobrowseos.Sandboxd.Daemon.Admission.{
  Authenticator, verify, Request, replayed, admit, keeps_connection,
}
use gobrowseos.Sandboxd.Daemon.Admission.Authentic.{admit_kept}

abbrev first : Bytes → ℕ
first [] = 0
first (b ∷ bs) = b

abbrev token : Bytes
token = 9 ∷ []

abbrev guard : Authenticator
guard = record { expected_digest = 9 }

abbrev operation : SandboxOperation
operation = SandboxOperation.fs_mkdir 4 (97 ∷ [])

abbrev envelope : RequestEnvelope
envelope = record { version = 2; request_id = 7; token = 9 ∷ []; operation = operation }

abbrev stale : RequestEnvelope
stale = record envelope { version = 1 }

abbrev request : Request
request = record { request_id = 7; route = replayed 97; operation = operation }

abbrev to_vec : SandboxOperation → Option Bytes
to_vec o = some (97 ∷ [])

abbrev line : Bytes
line = 97 ∷ 98 ∷ []

abbrev read : Bytes → Option RequestEnvelope
read l = some envelope

abbrev read_stale : Bytes → Option RequestEnvelope
read_stale l = some stale

abbrev shaped : Bytes → Bool
shaped l = true

-- The values of the line: strings, the object of the operation and that of the envelope.
data Json : Type 0 where
  string_of : String → Json
  operation_object envelope_object : Json

abbrev as_object : Json → Option (List (String × Json))
as_object (string_of s) = none
as_object operation_object =
    some (
      ("op", string_of "fs_mkdir") ∷ ("workspace_id", string_of "4") ∷ ("path", string_of "a") ∷ [])
as_object envelope_object = some (
    ("version", string_of "2")
    ∷ ("request_id", string_of "7")
    ∷ ("token", string_of "9")
    ∷ ("operation", operation_object)
    ∷ [])

abbrev as_str : Json → Option String
as_str (string_of s) = some s
as_str _ = none

abbrev parse_value : Bytes → Option Json
parse_value l = some envelope_object

abbrev unsupported : ResponseEnvelope ℕ
unsupported = error_response 7 DaemonError.unsupported_version

refused : admit first to_vec {R = ℕ} guard read_stale shaped line ≡ err unsupported
unfolding admit verify
refused = refl

kept : keeps_connection unsupported ≡ true
unfolding keeps_connection error_response describe
kept = refl

admit_kept_example :
    (r : RequestEnvelope) × (read_stale line ≡ some r) × (verify first guard r.token ≡ true)
admit_kept_example = admit_kept first to_vec guard read_stale shaped line unsupported refused kept

-- A handler that counts, and knows the lines that begin with 9.
abbrev handle : ℕ → Bytes → ℕ × ResponseEnvelope ℕ
handle n [] = (n, error_response 0 DaemonError.invalid_request)
handle n (b ∷ bs) = (n, error_response b DaemonError.conflict)
