-- ===== src/Sandboxd/Daemon/Errors.antt =====
-- crates/gobrowse-sandboxd/src/daemon.rs: the errors of the daemon and the response that each
-- becomes. The source of an error, which only the log shows, is left out.
use Prim.Native.String.{String}
use gobrowseos.Prelude.{ℕ, Result, err}

pub data FilesystemError : Type 0 where
  invalid_path workspace_not_found not_found unsafe_entry : FilesystemError
  containment_failure limit_exceeded conflict io : FilesystemError

pub data RuntimeError : Type 0 where
  running_as_root invalid_configuration workspace_quota_unavailable session_limit : RuntimeError
  not_found not_running readiness_failed control_timeout input_timeout : RuntimeError
  podman_failed workspace_volume_invalid workspace_pause_failed : RuntimeError
  workspace_resume_failed workspace_recovery_failed outcome_unknown conflict : RuntimeError
  journal pty io : RuntimeError

pub data DaemonError : Type 0 where
  invalid_configuration unauthorized unsupported_version invalid_request : DaemonError
  policy_denied limit_exceeded not_found conflict outcome_unknown journal : DaemonError
  connection_timeout operation_timeout io : DaemonError
  filesystem : FilesystemError → DaemonError
  runtime : RuntimeError → DaemonError

pub data SandboxErrorCode : Type 0 where
  invalid_request unsupported_version unauthorized not_found policy_denied : SandboxErrorCode
  limit_exceeded deadline_exceeded conflict outcome_unknown internal : SandboxErrorCode

pub record SandboxProtocolError : Type 0 where
  pub code : SandboxErrorCode
  pub message : String

pub record ResponseEnvelope (R : Type 0) : Type 0 where
  pub version : ℕ
  pub request_id : ℕ
  pub result : Result R SandboxProtocolError

abbrev pub sandbox_protocol_version : ℕ
sandbox_protocol_version = 2

-- The code and message of an error of the file system, and of the runtime.
abbrev pub describe_filesystem : FilesystemError → SandboxErrorCode × String
describe_filesystem FilesystemError.limit_exceeded =
    (SandboxErrorCode.limit_exceeded, "operation exceeds a bound")
describe_filesystem FilesystemError.not_found = (SandboxErrorCode.not_found, "object not found")
describe_filesystem FilesystemError.workspace_not_found =
    (SandboxErrorCode.not_found, "object not found")
describe_filesystem FilesystemError.conflict = (SandboxErrorCode.conflict, "object conflict")
describe_filesystem FilesystemError.invalid_path =
    (SandboxErrorCode.invalid_request, "invalid request")
describe_filesystem FilesystemError.unsafe_entry = (SandboxErrorCode.internal, "operation failed")
describe_filesystem FilesystemError.containment_failure =
    (SandboxErrorCode.internal, "operation failed")
describe_filesystem FilesystemError.io = (SandboxErrorCode.internal, "operation failed")

abbrev pub describe_runtime : RuntimeError → SandboxErrorCode × String
describe_runtime RuntimeError.session_limit =
    (SandboxErrorCode.limit_exceeded, "operation exceeds a bound")
describe_runtime RuntimeError.workspace_quota_unavailable =
    (SandboxErrorCode.policy_denied, "workspace quota unavailable")
describe_runtime RuntimeError.input_timeout =
    (SandboxErrorCode.deadline_exceeded, "operation deadline exceeded")
describe_runtime RuntimeError.not_found = (SandboxErrorCode.not_found, "object not found")
describe_runtime RuntimeError.outcome_unknown =
    (SandboxErrorCode.outcome_unknown, "operation outcome is unknown")
describe_runtime RuntimeError.conflict = (SandboxErrorCode.conflict, "object conflict")
describe_runtime _ = (SandboxErrorCode.internal, "operation failed")

unfoldable pub describe : DaemonError → SandboxErrorCode × String
describe DaemonError.unauthorized = (SandboxErrorCode.unauthorized, "authentication failed")
describe DaemonError.unsupported_version =
    (SandboxErrorCode.unsupported_version, "unsupported protocol version")
describe DaemonError.policy_denied = (SandboxErrorCode.policy_denied, "policy denied")
describe DaemonError.limit_exceeded = (SandboxErrorCode.limit_exceeded, "operation exceeds a bound")
describe DaemonError.operation_timeout =
    (SandboxErrorCode.deadline_exceeded, "operation deadline exceeded")
describe DaemonError.not_found = (SandboxErrorCode.not_found, "object not found")
describe DaemonError.conflict = (SandboxErrorCode.conflict, "object conflict")
describe DaemonError.outcome_unknown =
    (SandboxErrorCode.outcome_unknown, "operation outcome is unknown")
describe DaemonError.invalid_request = (SandboxErrorCode.invalid_request, "invalid request")
describe (DaemonError.filesystem e) = describe_filesystem e
describe (DaemonError.runtime e) = describe_runtime e
describe DaemonError.invalid_configuration = (SandboxErrorCode.internal, "operation failed")
describe DaemonError.connection_timeout = (SandboxErrorCode.internal, "operation failed")
describe DaemonError.journal = (SandboxErrorCode.internal, "operation failed")
describe DaemonError.io = (SandboxErrorCode.internal, "operation failed")

module _ {R : Type 0} where
  unfoldable pub error_response : ℕ → DaemonError → ResponseEnvelope R
  error_response request_id error =
      let (code, message) = describe error in
      record {
        version = sandbox_protocol_version;
        request_id = request_id;
        result = err (record { code = code; message = message });
      }
