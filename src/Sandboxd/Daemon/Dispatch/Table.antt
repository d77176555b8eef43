-- ===== src/Sandboxd/Daemon/Dispatch/Table.antt =====
-- crates/gobrowse-sandboxd/src/daemon.rs, `dispatch`: the operations on terminals, and the table of
-- all operations.
use gobrowseos.Prelude.{
  ℕ, Bool, false, not, ◌||◌, Option, none, some, List, Result, ok, err, ◌==◌, if◌then◌else◌, ltb,
}
use gobrowseos.Core.Sandbox.{Bytes, Component, ResourceLimits, valid_terminal_size}
use gobrowseos.Sandboxd.Daemon.Errors.{DaemonError}
use gobrowseos.Sandboxd.Daemon.Operations.{SandboxOperation, terminal_id}
use gobrowseos.Sandboxd.Daemon.Workspaces.{Action}
use gobrowseos.Sandboxd.Daemon.Dispatch.{NetworkPolicyConfig, Services, SandboxResult, after}
use gobrowseos.Sandboxd.Daemon.Dispatch.Handlers.{decode_bounded, dispatch_start}
use gobrowseos.Sandboxd.Daemon.Dispatch.Files.{
  list_files, read_file, stat_file, search_files, write_file, patch_file, make_directory, move_file,
  copy_file, delete_file,
}

abbrev pub max_terminal_input_bytes : ℕ
max_terminal_input_bytes = 65536

abbrev pub max_terminal_output_read_bytes : ℕ
max_terminal_output_read_bytes = 262144

abbrev pub max_terminal_output_wait_ms : ℕ
max_terminal_output_wait_ms = 30000

module _ {W I : Type 0} (services : Services W I) (decode : Bytes → Option Bytes)
    (encode : Bytes → Bytes) where
  abbrev pub input_decoded :
      ℕ → ℕ → Result Bytes DaemonError → Action W DaemonError (SandboxResult I)
  input_decoded terminal input_id (err error) w = (w, err error)
  input_decoded terminal input_id (ok bytes) w =
      after DaemonError.runtime (services.input terminal input_id bytes w) (λ outcome w'.
        (w', ok (SandboxResult.input_accepted input_id outcome.bytes outcome.replayed)))

  abbrev pub write_input : ℕ → ℕ → Bytes → Action W DaemonError (SandboxResult I)
  write_input terminal input_id data_base64 w =
      if input_id == 0
      then (w, err DaemonError.invalid_request)
      else input_decoded terminal input_id
          (decode_bounded decode data_base64 max_terminal_input_bytes) w

  abbrev pub read_terminal : ℕ → ℕ → ℕ → ℕ → Action W DaemonError (SandboxResult I)
  read_terminal terminal after_cursor max_bytes wait_ms w =
      if max_bytes == 0
        || (ltb max_terminal_output_read_bytes max_bytes || ltb max_terminal_output_wait_ms wait_ms)
      then (w, err DaemonError.limit_exceeded)
      else after DaemonError.runtime
          (services.read_output terminal after_cursor max_bytes wait_ms w)
          (λ output w'. (w', ok (SandboxResult.output terminal output (encode output.bytes))))

  abbrev pub acknowledge : ℕ → ℕ → Action W DaemonError (SandboxResult I)
  acknowledge terminal cursor w =
      after DaemonError.runtime (services.ack_output terminal cursor w)
        (λ acked w'. (w', ok (SandboxResult.output_acked acked)))

  abbrev pub resize_terminal : ℕ → ℕ → ℕ → Action W DaemonError (SandboxResult I)
  resize_terminal terminal cols rows w =
      if not (valid_terminal_size cols rows)
      then (w, err DaemonError.invalid_request)
      else after DaemonError.runtime (services.resize terminal cols rows w)
          (λ _ w'. (w', ok SandboxResult.resized))

  abbrev pub kill_process : ℕ → ℕ → Action W DaemonError (SandboxResult I)
  kill_process terminal pid w =
      if pid == 0
      then (w, err DaemonError.invalid_request)
      else after DaemonError.runtime (services.kill terminal pid w)
          (λ _ w'. (w', ok (SandboxResult.killed pid)))

  abbrev pub provision : ℕ → Action W DaemonError (SandboxResult I)
  provision workspace w =
      if workspace == 0
      then (w, err DaemonError.invalid_request)
      else after DaemonError.filesystem (services.ensure_workspace workspace w) (λ _ w1.
        after DaemonError.runtime (services.provision_workspace workspace w1)
          (λ _ w2. (w2, ok (SandboxResult.provisioned workspace))))

  module _ (components : Bytes → List Component) (is_absolute : Bytes → Bool)
      (ceiling : ResourceLimits) (config : NetworkPolicyConfig) where
    unfoldable pub operate : SandboxOperation → Action W DaemonError (SandboxResult I)
    operate SandboxOperation.health w = (w, ok SandboxResult.health)
    operate (SandboxOperation.provision_workspace workspace) w = provision workspace w
    operate (SandboxOperation.start t request) w =
        dispatch_start components is_absolute services ceiling config t request w
    operate (SandboxOperation.input t input_id data_base64) w = write_input t input_id data_base64 w
    operate (SandboxOperation.read_output t after_cursor max_bytes wait_ms) w =
        read_terminal t after_cursor max_bytes wait_ms w
    operate (SandboxOperation.ack_output t cursor) w = acknowledge t cursor w
    operate (SandboxOperation.resize t cols rows) w = resize_terminal t cols rows w
    operate (SandboxOperation.interrupt t) w =
        after DaemonError.runtime (services.interrupt t w)
          (λ _ w'. (w', ok SandboxResult.interrupted))
    operate (SandboxOperation.processes t) w =
        after DaemonError.runtime (services.processes t w)
          (λ found w'. (w', ok (SandboxResult.processes found)))
    operate (SandboxOperation.kill t pid) w = kill_process t pid w
    operate (SandboxOperation.terminate t) w =
        after DaemonError.runtime (services.pauses.terminate t w)
          (λ _ w'. (w', ok SandboxResult.terminated))
    operate (SandboxOperation.inspect t) w =
        after DaemonError.runtime (services.inspect t w)
          (λ found w'. (w', ok (SandboxResult.inspected found)))
    operate (SandboxOperation.reconnect t) w =
        after DaemonError.runtime (services.inspect t w)
          (λ found w'. (w', ok (SandboxResult.reconnected found)))
    operate (SandboxOperation.fs_list ws path) w = list_files services decode encode ws path w
    operate (SandboxOperation.fs_read ws path) w = read_file services decode encode ws path w
    operate (SandboxOperation.fs_metadata ws path) w = stat_file services decode encode ws path w
    operate (SandboxOperation.fs_search ws path query) w =
        search_files services decode encode ws path query w
    operate (SandboxOperation.fs_write ws path data_base64) w =
        write_file services decode encode ws path data_base64 w
    operate (SandboxOperation.fs_patch ws path expected data_base64) w =
        patch_file services decode encode ws path expected data_base64 w
    operate (SandboxOperation.fs_mkdir ws path) w = make_directory services decode encode ws path w
    operate (SandboxOperation.fs_move ws source target) w =
        move_file services decode encode ws source target w
    operate (SandboxOperation.fs_copy ws source target) w =
        copy_file services decode encode ws source target w
    operate (SandboxOperation.fs_delete ws path) w = delete_file services decode encode ws path w

    abbrev pub is_nil : Option ℕ → Bool
    is_nil none = false
    is_nil (some t) = t == 0

    unfoldable pub dispatch : SandboxOperation → Action W DaemonError (SandboxResult I)
    dispatch operation w =
        if is_nil (terminal_id operation)
        then (w, err DaemonError.invalid_request)
        else operate operation w
