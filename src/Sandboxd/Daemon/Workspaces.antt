-- ===== src/Sandboxd/Daemon/Workspaces.antt =====
-- crates/gobrowse-sandboxd/src/daemon.rs: how a workspace is changed while its containers are paused.
-- The world `W` is everything that the runtime and the file system hold; the trait `SandboxRuntime`
-- and the struct `Filesystem` are records of their operations on it. A lock of a workspace is held
-- from end to end, so a change is one step.
pub mod Paused
mod Tests
use gobrowseos.Prelude.{
  ℕ, Bool, true, false, Option, none, some, List, [], ◌∷◌, Result, ok, err, ◌==◌, if◌then◌else◌,
  length, leb, ltb, take, suc, ◌&&◌,
}
use gobrowseos.Core.Sandbox.{Bytes, is_empty}
use gobrowseos.Sandboxd.Daemon.Errors.{DaemonError, FilesystemError, RuntimeError}

-- An operation on the world that may fail.
abbrev pub Action : Type 0 → Type 0 → Type 0 → Type 0
Action W E A = W → W × Result A E

-- The pause of a workspace, with its terminals.
pub record WorkspacePause : Type 0 where
  pub terminal_ids : List ℕ

pub record Pauses (W : Type 0) : Type 0 where
  pub pause_workspace : ℕ → Action W RuntimeError WorkspacePause
  pub resume_workspace : WorkspacePause → Action W RuntimeError (Unit {0})
  pub chown_workspace_path : ℕ → Bytes → Bool → Action W RuntimeError (Unit {0})
  pub terminate : ℕ → Action W RuntimeError (Unit {0})
  pub require_directory : ℕ → Bytes → Action W FilesystemError (Unit {0})

-- `rsplit_once('/')`: what stands before the last slash.
abbrev pub before_last_slash : Bytes → Option Bytes
before_last_slash [] = none
before_last_slash (b ∷ bs) = elim (before_last_slash bs) [
  | some parent ↦ some (b ∷ parent)
  | none ↦ if b == 47 then some [] else none
]

abbrev pub parent_or_dot : Option Bytes → Bytes
parent_or_dot none = 46 ∷ []
parent_or_dot (some []) = 46 ∷ []
parent_or_dot (some (b ∷ bs)) = b ∷ bs

abbrev pub parent_of : Bytes → Bytes
parent_of path = parent_or_dot (before_last_slash path)

abbrev pub is_containment_failure : {T : Type 0} → Result T FilesystemError → Bool
is_containment_failure (err FilesystemError.containment_failure) = true
is_containment_failure _ = false

abbrev pub mapped_error : {T : Type 0} → Result T FilesystemError → Result T DaemonError
mapped_error (ok t) = ok t
mapped_error (err e) = err (DaemonError.filesystem e)

-- `match (result, resumed)`.
abbrev pub joined :
    {T : Type 0} → Result T DaemonError → Result (Unit {0}) RuntimeError → Result T DaemonError
joined result (err error) = err (DaemonError.runtime error)
joined result (ok _) = result

-- Where a change awaits while the workspace is paused; `in_terminate n` during the termination of
-- the terminal at place `n`, after the operation has reported a containment failure.
pub data Await : Type 0 where
  in_pre_chown in_post_chown in_resume : Await
  in_terminate : ℕ → Await

module _ {W : Type 0} (rt : Pauses W) where
  -- Its failure does not matter.
  abbrev pub chown : ℕ → Option (Bytes × Bool) → W → W
  chown workspace none w = w
  chown workspace (some (path, recursive)) w =
      (rt.chown_workspace_path workspace path recursive w).0

  abbrev pub terminate_all : List ℕ → W → W
  terminate_all [] w = w
  terminate_all (t ∷ ts) w = terminate_all ts (rt.terminate t w).0

  -- `resume` of the guard. If it fails, the guard is dropped with the pause, and its drop spawns a
  -- second attempt.
  abbrev pub resume : WorkspacePause → W → W × Result (Unit {0}) RuntimeError
  resume pause w =
      let (w', resumed) = rt.resume_workspace pause w in
      elim resumed [ ok u ↦ (w', ok u) | err e ↦ ((rt.resume_workspace pause w').0, err e) ]

  -- The drop of a `WorkspaceResumeGuard`: it resumes the pause that it still holds.
  abbrev pub drop_guard : Option WorkspacePause → W → W
  drop_guard none w = w
  drop_guard (some pause) w = (rt.resume_workspace pause w).0

  -- Cancelled during the change of ownership before the operation, if there is one: the guard is
  -- not made yet.
  abbrev pub cancel_in_pre_chown : ℕ → Option (Bytes × Bool) → W → Option W
  cancel_in_pre_chown workspace none w = none
  cancel_in_pre_chown workspace (some at) w = some (chown workspace (some at) w)

  module _ {T : Type 0} where
    abbrev pub finish :
        ℕ
        → Option (Bytes × Bool)
        → WorkspacePause
        → W
        → Result T FilesystemError
        → W × Result T DaemonError
    finish workspace post_chown pause w result =
        if is_containment_failure result
        then (terminate_all pause.terminal_ids w, mapped_error result)
        else let (w', resumed) = resume pause (chown workspace post_chown w) in
          (w', joined (mapped_error result) resumed)

    abbrev pub change_paused :
        ℕ
        → Option (Bytes × Bool)
        → Option (Bytes × Bool)
        → Action W FilesystemError T
        → W
        → Result WorkspacePause RuntimeError
        → W × Result T DaemonError
    change_paused workspace pre_chown post_chown operation w (err e) =
        (w, err (DaemonError.runtime e))
    change_paused workspace pre_chown post_chown operation w (ok pause) =
        let (w', result) = operation (chown workspace pre_chown w) in
        finish workspace post_chown pause w' result

    abbrev pub change_required :
        ℕ
        → Option (Bytes × Bool)
        → Option (Bytes × Bool)
        → Action W FilesystemError T
        → W
        → Result (Unit {0}) FilesystemError
        → W × Result T DaemonError
    change_required workspace pre_chown post_chown operation w (err e) =
        (w, err (DaemonError.filesystem e))
    change_required workspace pre_chown post_chown operation w (ok _) =
        let (w', pause) = rt.pause_workspace workspace w in
        change_paused workspace pre_chown post_chown operation w' pause

    unfoldable pub mutate_workspace :
        ℕ
        → Option (Bytes × Bool)
        → Option (Bytes × Bool)
        → Action W FilesystemError T
        → Action W DaemonError T
    mutate_workspace workspace pre_chown post_chown operation w =
        let (w', required) = rt.require_directory workspace (46 ∷ []) w in
        change_required workspace pre_chown post_chown operation w' required

    -- Cancelled after the operation, in the branch of its result. The loop of a containment failure
    -- has taken the pause from the guard.
    abbrev pub cancel_changed :
        Await → ℕ → Option (Bytes × Bool) → WorkspacePause → W → Result T FilesystemError → Option W
    cancel_changed in_pre_chown workspace post_chown pause w result = none
    cancel_changed (in_terminate n) workspace post_chown pause w result =
        if is_containment_failure result && ltb n (length pause.terminal_ids)
        then some (drop_guard none (terminate_all (take (suc n) pause.terminal_ids) w))
        else none
    cancel_changed in_post_chown workspace none pause w result = none
    cancel_changed in_post_chown workspace (some at) pause w result =
        if is_containment_failure result
        then none
        else some (drop_guard (some pause) (chown workspace (some at) w))
    cancel_changed in_resume workspace post_chown pause w result =
        if is_containment_failure result
        then none
        else some
            (drop_guard (some pause) (rt.resume_workspace pause (chown workspace post_chown w)).0)

    -- The world that a change leaves behind whose task is cancelled, as by `operation_timeout`,
    -- where it awaits while the workspace is paused, the call that it waits for made; none if it
    -- does not come to that place.
    unfoldable pub cancel_paused :
        Await
        → ℕ
        → Option (Bytes × Bool)
        → Option (Bytes × Bool)
        → Action W FilesystemError T
        → WorkspacePause
        → W
        → Option W
    cancel_paused await workspace pre_chown post_chown operation pause w =
        let (changed, result) = operation (chown workspace pre_chown w) in
        elim await [
          | in_pre_chown ↦ cancel_in_pre_chown workspace pre_chown w
          | in_terminate n ↦
              cancel_changed (in_terminate n) workspace post_chown pause changed result
          | in_post_chown ↦ cancel_changed in_post_chown workspace post_chown pause changed result
          | in_resume ↦ cancel_changed in_resume workspace post_chown pause changed result
        ]
