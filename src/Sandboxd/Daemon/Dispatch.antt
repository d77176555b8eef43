-- ===== src/Sandboxd/Daemon/Dispatch.antt =====
-- crates/gobrowse-sandboxd/src/daemon.rs: what the daemon asks the file system and the runtime for
-- each operation. Base64 stands outside, and so does the splitting of paths by `std::path`.
pub mod Handlers
pub mod Files
pub mod Table
pub mod Starts
mod Tests
use Prim.Native.String.{String}
use gobrowseos.Prelude.{
  ℕ, ◌+◌, ◌*◌, ◌/◌, Bool, true, false, not, ◌&&◌, ◌||◌, Option, none, some, List, [], ◌∷◌, Result,
  ok, err, ◌==◌, if◌then◌else◌, length, leb, ltb,
}
use gobrowseos.Core.Sandbox.{
  Bytes, Component, ResourceLimits, hard_resource_limits, narrow_to, TerminalStartRequest, validate,
  valid_terminal_size, SandboxValidationError,
}
use gobrowseos.Core.Sandbox.Network.{
  NetworkPolicy, no_network, restricted, full, valid_restricted_network_name,
}
use gobrowseos.Sandboxd.Journal.Terminals.{TerminalRecord}
use gobrowseos.Sandboxd.Journal.Output.{OutputRead}
use gobrowseos.Sandboxd.Daemon.Errors.{DaemonError, FilesystemError, RuntimeError}
use gobrowseos.Sandboxd.Daemon.Operations
use gobrowseos.Sandboxd.Daemon.Operations.{SandboxOperation, StartRequest, terminal_id}
use gobrowseos.Sandboxd.Daemon.Workspaces.{Action, Pauses, parent_of, mutate_workspace}

pub record NetworkPolicyConfig : Type 0 where
  pub restricted_network : Option Bytes
  pub allow_full : Bool

-- "none" and "slirp4netns".
abbrev pub none_name : Bytes
none_name = 110 ∷ 111 ∷ 110 ∷ 101 ∷ []

abbrev pub slirp4netns : Bytes
slirp4netns = 115 ∷ 108 ∷ 105 ∷ 114 ∷ 112 ∷ 52 ∷ 110 ∷ 101 ∷ 116 ∷ 110 ∷ 115 ∷ []

abbrev pub restricted_name : Option Bytes → Result Bytes DaemonError
restricted_name none = err DaemonError.policy_denied
restricted_name (some name) =
    if valid_restricted_network_name name then ok name else err DaemonError.policy_denied

unfoldable pub resolve : NetworkPolicyConfig → NetworkPolicy → Result Bytes DaemonError
resolve config no_network = ok none_name
resolve config restricted = restricted_name config.restricted_network
resolve config full = if config.allow_full then ok slirp4netns else err DaemonError.policy_denied

pub record ValidatedStart : Type 0 where
  pub terminal_id : ℕ
  pub request : StartRequest
  pub workspace_storage : Bytes
  pub network_name : Bytes

pub record InputOutcome : Type 0 where
  pub bytes : ℕ
  pub replayed : Bool

-- `SandboxRuntime` and `Filesystem`, beside the operations that change a paused workspace. Of a
-- process, an entry, a match and metadata only the type `I` is known.
pub record Services (W I : Type 0) : Type 0 where
  pub pauses : Pauses W
  pub start : ValidatedStart → Action W RuntimeError (Unit {0})
  pub input : ℕ → ℕ → Bytes → Action W RuntimeError InputOutcome
  pub read_output : ℕ → ℕ → ℕ → ℕ → Action W RuntimeError OutputRead
  pub ack_output : ℕ → ℕ → Action W RuntimeError ℕ
  pub resize : ℕ → ℕ → ℕ → Action W RuntimeError (Unit {0})
  pub interrupt : ℕ → Action W RuntimeError (Unit {0})
  pub processes : ℕ → Action W RuntimeError (List I)
  pub kill : ℕ → ℕ → Action W RuntimeError (Unit {0})
  pub inspect : ℕ → Action W RuntimeError TerminalRecord
  pub provision_workspace : ℕ → Action W RuntimeError (Unit {0})
  pub ensure_workspace : ℕ → Action W FilesystemError (Unit {0})
  pub workspace_storage : ℕ → Action W FilesystemError Bytes
  pub list : ℕ → Bytes → Action W FilesystemError (List I)
  pub read : ℕ → Bytes → Action W FilesystemError (Bytes × Bytes)
  pub metadata : ℕ → Bytes → Action W FilesystemError I
  pub search : ℕ → Bytes → Bytes → Action W FilesystemError (List I)
  pub write : ℕ → Bytes → Bytes → Action W FilesystemError Bytes
  pub patch : ℕ → Bytes → Bytes → Bytes → Action W FilesystemError Bytes
  pub mkdir : ℕ → Bytes → Action W FilesystemError (Unit {0})
  pub move_entry : ℕ → Bytes → Bytes → Action W FilesystemError (Unit {0})
  pub copy : ℕ → Bytes → Bytes → Action W FilesystemError (Unit {0})
  pub delete : ℕ → Bytes → Action W FilesystemError (Unit {0})

pub data SandboxResult (I : Type 0) : Type 0 where
  health resized interrupted terminated : SandboxResult I
  provisioned : ℕ → SandboxResult I
  started : ℕ → ResourceLimits → NetworkPolicy → SandboxResult I
  input_accepted : ℕ → ℕ → Bool → SandboxResult I
  output : ℕ → OutputRead → Bytes → SandboxResult I
  output_acked : ℕ → SandboxResult I
  processes : List I → SandboxResult I
  killed : ℕ → SandboxResult I
  inspected reconnected : TerminalRecord → SandboxResult I
  fs_list : List I → SandboxResult I
  fs_read : Bytes → Bytes → SandboxResult I
  fs_metadata : I → SandboxResult I
  fs_search : List I → SandboxResult I
  fs_written fs_patched : ℕ → Bytes → SandboxResult I
  fs_created fs_moved fs_copied fs_deleted : SandboxResult I

-- `?` on an operation: its error becomes one of the daemon.
module _ {W A B E : Type 0} where
  abbrev pub after :
      (E → DaemonError) → W × Result A E → (A → Action W DaemonError B) → W × Result B DaemonError
  after wrap (w, err e) next = (w, err (wrap e))
  after wrap (w, ok a) next = next a w

abbrev pub max_file_payload_bytes : ℕ
max_file_payload_bytes = 262144
