-- ===== src/Sandboxd/Daemon/Workspaces/Tests.antt =====
-- Tests of the changes of workspaces in daemon.rs.
use gobrowseos.Prelude.{ℕ, ◌≡◌, refl, false, none, some, List, [], ◌∷◌, Result, ok, err}
use gobrowseos.Sandboxd.Daemon.Errors.{FilesystemError}
use gobrowseos.Sandboxd.Daemon.Workspaces.{
  WorkspacePause, mutate_workspace, cancel_paused, in_terminate,
}
use gobrowseos.Sandboxd.Daemon.Workspaces.Paused.{
  WorkspaceCall, paused, resumed, terminated, chowned, operated, required, Oracle, logged,
  operate_as, owed, mutate_workspace-owed, cancel_paused-owed,
}

abbrev two_terminals : WorkspacePause
two_terminals = record { terminal_ids = 3 ∷ 4 ∷ [] }

abbrev willing : Oracle
willing = record {
  pauses = λ l. ok two_terminals;
  resumes = λ l. ok tt;
  terminates = λ l. ok tt;
  chowns = λ l. ok tt;
  requires = λ l. ok tt;
}

abbrev fails : List WorkspaceCall → Result ℕ FilesystemError
fails l = err FilesystemError.containment_failure

abbrev succeeds : List WorkspaceCall → Result ℕ FilesystemError
succeeds l = ok 1

mutate_workspace-calls :
    (mutate_workspace (logged willing) 5 (some (97 ∷ [], false)) none (operate_as succeeds) []).0
    ≡ resumed two_terminals ∷ operated ∷ chowned ∷ paused two_terminals ∷ required ∷ []
unfolding mutate_workspace
mutate_workspace-calls = refl

mutate_workspace-owed_example :
    owed (mutate_workspace (logged willing) 5 none none (operate_as fails) []).0 ≡ []
mutate_workspace-owed_example = mutate_workspace-owed willing 5 none none fails [] refl

-- Cancelled while it terminates the first of the two.
stopped :
    cancel_paused
      (logged willing)
      (in_terminate 0)
      5
      none
      none
      (operate_as fails)
      two_terminals
      (paused two_terminals ∷ [])
    ≡ some (terminated 3 ∷ operated ∷ paused two_terminals ∷ [])
unfolding cancel_paused
stopped = refl

cancel_paused-owed_example : owed (terminated 3 ∷ operated ∷ paused two_terminals ∷ []) ≡ 4 ∷ []
cancel_paused-owed_example =
    cancel_paused-owed willing 5 none none fails (in_terminate 0) two_terminals []
      (terminated 3 ∷ operated ∷ paused two_terminals ∷ []) stopped
