-- ===== src/Sandboxd/Daemon/Dispatch/Files.antt =====
-- crates/gobrowse-sandboxd/src/daemon.rs, `dispatch`: the operations on files.
use gobrowseos.Prelude.{ℕ, true, false, Option, none, some, Result, ok, err, length}
use gobrowseos.Core.Sandbox.{Bytes}
use gobrowseos.Sandboxd.Daemon.Errors.{DaemonError}
use gobrowseos.Sandboxd.Daemon.Workspaces.{Action, parent_of, mutate_workspace}
use gobrowseos.Sandboxd.Daemon.Dispatch.{Services, SandboxResult, after, max_file_payload_bytes}
use gobrowseos.Sandboxd.Daemon.Dispatch.Handlers.{decode_bounded}

module _ {W I : Type 0} (services : Services W I) (decode : Bytes → Option Bytes)
    (encode : Bytes → Bytes) where
  abbrev pub list_files : ℕ → Bytes → Action W DaemonError (SandboxResult I)
  list_files workspace path w =
      after DaemonError.filesystem (services.list workspace path w)
        (λ entries w'. (w', ok (SandboxResult.fs_list entries)))

  abbrev pub read_file : ℕ → Bytes → Action W DaemonError (SandboxResult I)
  read_file workspace path w =
      after DaemonError.filesystem (services.read workspace path w)
        (λ found w'. (w', ok (SandboxResult.fs_read (encode found.0) found.1)))

  abbrev pub stat_file : ℕ → Bytes → Action W DaemonError (SandboxResult I)
  stat_file workspace path w =
      after DaemonError.filesystem (services.metadata workspace path w)
        (λ metadata w'. (w', ok (SandboxResult.fs_metadata metadata)))

  abbrev pub search_files : ℕ → Bytes → Bytes → Action W DaemonError (SandboxResult I)
  search_files workspace path query w =
      after DaemonError.filesystem (services.search workspace path query w)
        (λ matches w'. (w', ok (SandboxResult.fs_search matches)))

  abbrev pub write_decoded :
      ℕ → Bytes → Result Bytes DaemonError → Action W DaemonError (SandboxResult I)
  write_decoded workspace path (err error) w = (w, err error)
  write_decoded workspace path (ok bytes) w =
      after (λ e. e)
        (mutate_workspace services.pauses workspace (some (parent_of path, false)) none
          (services.write workspace path bytes) w)
        (λ sha256 w'. (w', ok (SandboxResult.fs_written (length bytes) sha256)))

  abbrev pub write_file : ℕ → Bytes → Bytes → Action W DaemonError (SandboxResult I)
  write_file workspace path data_base64 =
      write_decoded workspace path (decode_bounded decode data_base64 max_file_payload_bytes)

  abbrev pub patch_decoded :
      ℕ → Bytes → Bytes → Result Bytes DaemonError → Action W DaemonError (SandboxResult I)
  patch_decoded workspace path expected (err error) w = (w, err error)
  patch_decoded workspace path expected (ok bytes) w =
      after (λ e. e)
        (mutate_workspace services.pauses workspace (some (parent_of path, false)) none
          (services.patch workspace path expected bytes) w)
        (λ sha256 w'. (w', ok (SandboxResult.fs_patched (length bytes) sha256)))

  abbrev pub patch_file : ℕ → Bytes → Bytes → Bytes → Action W DaemonError (SandboxResult I)
  patch_file workspace path expected data_base64 =
      patch_decoded workspace path expected
        (decode_bounded decode data_base64 max_file_payload_bytes)

  abbrev pub make_directory : ℕ → Bytes → Action W DaemonError (SandboxResult I)
  make_directory workspace path w =
      after (λ e. e)
        (mutate_workspace services.pauses workspace (some (parent_of path, false))
          (some (path, false)) (services.mkdir workspace path) w)
        (λ _ w'. (w', ok SandboxResult.fs_created))

  abbrev pub move_file : ℕ → Bytes → Bytes → Action W DaemonError (SandboxResult I)
  move_file workspace source target w =
      after (λ e. e)
        (mutate_workspace services.pauses workspace (some (parent_of target, false))
          (some (target, false)) (services.move_entry workspace source target) w)
        (λ _ w'. (w', ok SandboxResult.fs_moved))

  abbrev pub copy_file : ℕ → Bytes → Bytes → Action W DaemonError (SandboxResult I)
  copy_file workspace source target w =
      after (λ e. e)
        (mutate_workspace services.pauses workspace (some (parent_of target, false))
          (some (target, true)) (services.copy workspace source target) w)
        (λ _ w'. (w', ok SandboxResult.fs_copied))

  abbrev pub delete_file : ℕ → Bytes → Action W DaemonError (SandboxResult I)
  delete_file workspace path w =
      after (λ e. e)
        (mutate_workspace services.pauses workspace (some (parent_of path, false)) none
          (services.delete workspace path) w)
        (λ _ w'. (w', ok SandboxResult.fs_deleted))
