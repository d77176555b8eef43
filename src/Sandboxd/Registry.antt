-- ===== src/Sandboxd/Registry.antt =====
-- crates/gobrowse-sandboxd/src/runtime.rs: the registry of sessions, with its limits on active
-- sessions and on the records of completed ones. Of a session the registry reads only the two
-- identifiers, which never change.
pub mod Counts
pub mod Invariant
pub mod Runs
use gobrowseos.Prelude.{
  ℕ, zero, suc, ◌+◌, ◌-◌, Bool, true, false, not, ◌||◌, Option, none, some, List, [], ◌∷◌, ◌++◌,
  leb, ltb, ◌==◌, if◌then◌else◌, length, Assoc, lookup, insert, remove, update, Result, ok, err,
}

pub record SessionLimits : Type 0 where
  pub max_active : ℕ
  pub max_active_per_workspace : ℕ
  pub max_retained_records : ℕ

-- `RuntimeError::SessionLimit`, the one error of the registry.
pub data RegistryError : Type 0 where
  session_limit : RegistryError

pub record Registered : Type 0 where
  pub terminal_id : ℕ
  pub workspace_id : ℕ

pub record Registry : Type 0 where
  pub sessions : Assoc Registered
  pub active : ℕ
  pub active_by_workspace : Assoc ℕ
  pub completed : List ℕ

abbrev pub new : Registry
new = record { sessions = []; active = 0; active_by_workspace = []; completed = [] }

-- `.copied().unwrap_or_default()`.
abbrev pub or_default : Option ℕ → ℕ
or_default none = 0
or_default (some n) = n

abbrev pub active_in : ℕ → Assoc ℕ → ℕ
active_in w m = or_default (lookup w m)

unfoldable pub reserve :
    Registry → Registered → SessionLimits → Registry × Result (Unit {0}) RegistryError
reserve r s limits =
    let workspace_active = active_in s.workspace_id r.active_by_workspace in
    if leb limits.max_active r.active || leb limits.max_active_per_workspace workspace_active
    then (r, err session_limit)
    else (
      record r {
        active = r.active + 1;
        active_by_workspace = insert s.workspace_id (workspace_active + 1) r.active_by_workspace;
        sessions = insert s.terminal_id s r.sessions;
      },
      ok tt,
    )

-- One active session fewer in a workspace: an entry that reaches 0 is removed.
abbrev pub released : ℕ → Assoc ℕ → Option ℕ → Assoc ℕ
released w m none = m
released w m (some n) = if n - 1 == 0 then remove w m else update w (n - 1) m

-- The loop that forgets the oldest completed sessions.
pub expire : ℕ → List ℕ → Assoc Registered → Assoc Registered × List ℕ
expire limit [] sessions = (sessions, [])
expire limit (x ∷ xs) sessions =
    let rest = expire limit xs (remove x sessions) in
    if ltb limit (length (x ∷ xs)) then rest else (sessions, x ∷ xs)

abbrev pub complete_found : Registry → ℕ → SessionLimits → Option Registered → Registry
complete_found r id limits none = r
complete_found r id limits (some s) =
    let (sessions, completed) =
      expire limits.max_retained_records (r.completed ++ id ∷ []) r.sessions in
    record {
      sessions = sessions;
      active = r.active - 1;
      active_by_workspace =
          released s.workspace_id r.active_by_workspace
            (lookup s.workspace_id r.active_by_workspace);
      completed = completed;
    }

unfoldable pub complete : Registry → ℕ → SessionLimits → Registry
unfolding expire
complete r id limits = complete_found r id limits (lookup id r.sessions)

abbrev pub without : ℕ → List ℕ → List ℕ
without k [] = []
without k (x ∷ xs) = let rest = without k xs in if x == k then rest else x ∷ rest

unfoldable pub remove_completed : Registry → ℕ → Registry
remove_completed r id = record r {
  sessions = remove id r.sessions;
  completed = without id r.completed;
}

abbrev pub cancel_found : Registry → ℕ → Option Registered → Registry
cancel_found r id none = r
cancel_found r id (some s) = record r {
  sessions = remove id r.sessions;
  active = r.active - 1;
  active_by_workspace =
      released s.workspace_id r.active_by_workspace (lookup s.workspace_id r.active_by_workspace);
}

unfoldable pub cancel_reservation : Registry → ℕ → Registry
cancel_reservation r id = cancel_found r id (lookup id r.sessions)
