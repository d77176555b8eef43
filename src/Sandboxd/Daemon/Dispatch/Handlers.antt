-- ===== src/Sandboxd/Daemon/Dispatch/Handlers.antt =====
-- crates/gobrowse-sandboxd/src/daemon.rs, `dispatch`: what each operation checks before it reaches
-- the file system or the runtime, and what it answers.
use gobrowseos.Prelude.{
  ℕ, ◌+◌, ◌*◌, ◌/◌, Bool, Option, none, some, List, Result, ok, err, if◌then◌else◌, length, ltb,
}
use gobrowseos.Core.Sandbox.{
  Bytes, Component, ResourceLimits, hard_resource_limits, narrow_to, validate,
  SandboxValidationError,
}
use gobrowseos.Sandboxd.Daemon.Errors.{DaemonError}
use gobrowseos.Sandboxd.Daemon.Operations.{StartRequest}
use gobrowseos.Sandboxd.Daemon.Workspaces.{Action}
use gobrowseos.Sandboxd.Daemon.Dispatch.{
  NetworkPolicyConfig, resolve, ValidatedStart, Services, SandboxResult, after,
}

module _ (decode : Bytes → Option Bytes) where
  abbrev pub decoded_within : ℕ → Option Bytes → Result Bytes DaemonError
  decoded_within maximum none = err DaemonError.invalid_request
  decoded_within maximum (some bytes) =
      if ltb maximum (length bytes) then err DaemonError.limit_exceeded else ok bytes

  -- `maximum.div_ceil(3) * 4` is the longest encoding.
  unfoldable pub decode_bounded : Bytes → ℕ → Result Bytes DaemonError
  decode_bounded value maximum =
      if ltb ((maximum + 2) / 3 * 4) (length value)
      then err DaemonError.limit_exceeded
      else decoded_within maximum (decode value)

module _ (components : Bytes → List Component) (is_absolute : Bytes → Bool) {W I : Type 0}
    (services : Services W I) where
  abbrev pub refuse : {A : Type 0} → DaemonError → Action W DaemonError A
  refuse error w = (w, err error)

  -- The limits that a request runs with.
  abbrev pub narrowed : ResourceLimits → StartRequest → StartRequest
  narrowed ceiling request =
      let limits = narrow_to (narrow_to request.checked.limits ceiling) hard_resource_limits in
      record request { checked = record request.checked { limits = limits } }

  abbrev pub start_message : ℕ → StartRequest → Bytes → Bytes → ValidatedStart
  start_message terminal request network storage = record {
    terminal_id = terminal;
    request = request;
    workspace_storage = storage;
    network_name = network;
  }

  abbrev pub start_stored :
      ℕ → StartRequest → Bytes → Bytes → Action W DaemonError (SandboxResult I)
  start_stored terminal request network storage w =
      after DaemonError.runtime (services.start (start_message terminal request network storage) w)
        (λ _ w'.
          (w', ok (SandboxResult.started terminal request.checked.limits request.network_policy)))

  abbrev pub start_inside : ℕ → StartRequest → Bytes → Action W DaemonError (SandboxResult I)
  start_inside terminal request network w =
      after DaemonError.filesystem (services.workspace_storage request.workspace_id w)
        (start_stored terminal request network)

  abbrev pub start_locked : ℕ → StartRequest → Bytes → Action W DaemonError (SandboxResult I)
  start_locked terminal request network w =
      after DaemonError.filesystem
        (services.pauses.require_directory request.workspace_id request.checked.working_directory w)
        (λ _. start_inside terminal request network)

  abbrev pub start_on : ℕ → StartRequest → Bytes → Action W DaemonError (SandboxResult I)
  start_on terminal request network w =
      after DaemonError.filesystem (services.workspace_storage request.workspace_id w)
        (λ _. start_locked terminal request network)

  abbrev pub start_resolved :
      ℕ → StartRequest → Result Bytes DaemonError → Action W DaemonError (SandboxResult I)
  start_resolved terminal request (err error) w = (w, err error)
  start_resolved terminal request (ok network) w = start_on terminal request network w

  abbrev pub start_checked :
      NetworkPolicyConfig
      → ℕ
      → StartRequest
      → Result Bytes SandboxValidationError
      → Action W DaemonError (SandboxResult I)
  start_checked config terminal request (err error) w = (w, err DaemonError.invalid_request)
  start_checked config terminal request (ok path) w =
      start_resolved terminal request (resolve config request.network_policy) w

  unfoldable pub dispatch_start :
      ResourceLimits
      → NetworkPolicyConfig
      → ℕ
      → StartRequest
      → Action W DaemonError (SandboxResult I)
  dispatch_start ceiling config terminal request =
      start_checked config terminal (narrowed ceiling request)
        (validate components is_absolute request.checked)
