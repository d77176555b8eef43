-- ===== src/Sandboxd/Registry/Invariant.antt =====
-- runtime.rs, `Registry`: the counters against the sessions that are there, and the limits.
use gobrowseos.Prelude.{
  ℕ, ◌-◌, ◌≤◌, ◌≡◌, refl, sym, ◌∙◌, true, false, ◌||◌, Option, none, some, List, [], ◌∷◌, ◌++◌,
  arith, leb, ◌==◌, if◌then◌else◌, length, Assoc, lookup, key_occ, key_occ-remove, key_occ-none,
  lookup-remove, lookup-update, Bool-cases, inl, inr,
}
use gobrowseos.Sandboxd.Registry.{
  SessionLimits, Registered, Registry, new, active_in, reserve, released, complete_found, complete,
  without, remove_completed, cancel_found, cancel_reservation,
}
use gobrowseos.Sandboxd.Registry.Counts.{
  has, running_in, running, remove-none, running_in-remove, running-remove, running_in-mark,
  running-mark, expire_lem, running_in-without, running-without,
}

pub record IsValid (limits : SessionLimits) (r : Registry) : Type 0 where
  pub keys : (k : ℕ) → key_occ k r.sessions ≤ 1
  pub counted : r.active ≡ running r.completed r.sessions
  pub by_workspace :
      (w : ℕ) → active_in w r.active_by_workspace ≡ running_in w r.completed r.sessions
  pub bounded : r.active ≤ limits.max_active
  pub workspace_bounded :
      (w : ℕ) → active_in w r.active_by_workspace ≤ limits.max_active_per_workspace
  pub retained : length r.completed ≤ limits.max_retained_records

pub new-IsValid : (limits : SessionLimits) → IsValid limits new
new-IsValid limits = record {
  keys = λ k. omega arith;
  counted = refl;
  by_workspace = λ w. refl;
  bounded = omega arith;
  workspace_bounded = λ w. omega arith;
  retained = omega arith;
}

-- A counter goes down by one in its own workspace only.
released_found :
    (w v : ℕ) (m : Assoc ℕ) (o : Option ℕ)
    → lookup w m ≡ o
    → active_in v (released w m o) ≡ active_in v m - (if w == v then 1 else 0)
released_found w v m none e = ground arith
released_found w v m (some n) e = ground (arith, lookup-remove w v m, lookup-update w v (n - 1) m)

active_in-released :
    (w v : ℕ) (m : Assoc ℕ)
    → active_in v (released w m (lookup w m)) ≡ active_in v m - (if w == v then 1 else 0)
active_in-released w v m = released_found w v m (lookup w m) refl

-- A session that the registry has not seen is taken exactly when both limits leave room for it, and
-- the registry stays valid either way.
pub reserve-IsValid :
    (limits : SessionLimits) (r : Registry) (s : Registered)
    → IsValid limits r
    → lookup s.terminal_id r.sessions ≡ none
    → has s.terminal_id r.completed ≡ false
    → IsValid limits (reserve r s limits).0
unfolding reserve
reserve-IsValid limits r s h fresh unseen =
    elim (Bool-cases (
      leb limits.max_active r.active
      || leb limits.max_active_per_workspace (active_in s.workspace_id r.active_by_workspace))) [
        | inl full ↦ rw full h
        | inr room ↦ rw room (record {
          keys = λ k. ground (arith, h.keys k, key_occ-remove s.terminal_id k r.sessions);
          counted = ground (
            arith,
            h.counted,
            remove-none s.terminal_id r.sessions (key_occ-none s.terminal_id r.sessions fresh),
            unseen,
          );
          by_workspace = λ w. ground (
            arith,
            h.by_workspace w,
            remove-none s.terminal_id r.sessions (key_occ-none s.terminal_id r.sessions fresh),
            unseen,
            lookup-remove s.workspace_id w r.active_by_workspace,
          );
          bounded = ground arith;
          workspace_bounded = λ w.
              ground (
                arith,
                h.workspace_bounded w,
                lookup-remove s.workspace_id w r.active_by_workspace,
              );
          retained = h.retained;
        })
      ]

complete_found-IsValid :
    (limits : SessionLimits) (r : Registry) (id : ℕ) (o : Option Registered)
    → IsValid limits r
    → lookup id r.sessions ≡ o
    → has id r.completed ≡ false
    → IsValid limits (complete_found r id limits o)
complete_found-IsValid limits r id none h found unseen = h
complete_found-IsValid limits r id (some s) h found unseen =
    let (counts, total, short, keys) =
      expire_lem limits.max_retained_records (r.completed ++ id ∷ []) r.sessions in
    let fewer = running-mark id r.completed r.sessions s (h.keys id) found unseen in
    record {
      keys = λ k. omega (arith, h.keys k, keys k);
      counted = omega (arith, h.counted, total, fewer);
      by_workspace = λ w. omega (
        arith,
        h.by_workspace w,
        counts w,
        active_in-released s.workspace_id w r.active_by_workspace,
        running_in-mark w id r.completed r.sessions s (h.keys id) found unseen,
      );
      bounded = omega (arith, h.bounded);
      workspace_bounded = λ w.
          omega (
            arith,
            h.workspace_bounded w,
            active_in-released s.workspace_id w r.active_by_workspace,
          );
      retained = omega (arith, short);
    }

-- A session that completes for the first time leaves the registry valid: it no longer counts, and the
-- oldest records above the limit are forgotten.
pub complete-IsValid :
    (limits : SessionLimits) (r : Registry) (id : ℕ)
    → IsValid limits r
    → has id r.completed ≡ false
    → IsValid limits (complete r id limits)
unfolding complete
complete-IsValid limits r id h unseen =
    complete_found-IsValid limits r id (lookup id r.sessions) h refl unseen

cancel_found-IsValid :
    (limits : SessionLimits) (r : Registry) (id : ℕ) (o : Option Registered)
    → IsValid limits r
    → lookup id r.sessions ≡ o
    → has id r.completed ≡ false
    → IsValid limits (cancel_found r id o)
cancel_found-IsValid limits r id none h found unseen = h
cancel_found-IsValid limits r id (some s) h found unseen =
    let fewer = running-remove id r.completed r.sessions s (h.keys id) found unseen in
    record {
      keys = λ k. ground (arith, h.keys k, key_occ-remove id k r.sessions);
      counted = omega (arith, h.counted, fewer);
      by_workspace = λ w. omega (
        arith,
        h.by_workspace w,
        active_in-released s.workspace_id w r.active_by_workspace,
        running_in-remove w id r.completed r.sessions s (h.keys id) found unseen,
      );
      bounded = omega (arith, h.bounded);
      workspace_bounded = λ w.
          omega (
            arith,
            h.workspace_bounded w,
            active_in-released s.workspace_id w r.active_by_workspace,
          );
      retained = h.retained;
    }

-- A reservation that is cancelled before its session completes leaves the registry valid.
pub cancel_reservation-IsValid :
    (limits : SessionLimits) (r : Registry) (id : ℕ)
    → IsValid limits r
    → has id r.completed ≡ false
    → IsValid limits (cancel_reservation r id)
unfolding cancel_reservation
cancel_reservation-IsValid limits r id h unseen =
    cancel_found-IsValid limits r id (lookup id r.sessions) h refl unseen

length-without : (k : ℕ) (xs : List ℕ) → length (without k xs) ≤ length xs
length-without k [] = omega arith
length-without k (x ∷ xs) = ground (arith, length-without k xs)

-- Removing the record of a completed session leaves the registry valid, with its counters as they
-- were.
pub remove_completed-IsValid :
    (limits : SessionLimits) (r : Registry) (id : ℕ)
    → IsValid limits r
    → has id r.completed ≡ true
    → IsValid limits (remove_completed r id)
unfolding remove_completed
remove_completed-IsValid limits r id h seen = record {
  keys = λ k. ground (arith, h.keys k, key_occ-remove id k r.sessions);
  counted = h.counted ∙ sym (running-without id r.completed r.sessions seen);
  by_workspace = λ w. h.by_workspace w ∙ sym (running_in-without w id r.completed r.sessions seen);
  bounded = h.bounded;
  workspace_bounded = h.workspace_bounded;
  retained = omega (arith, h.retained, length-without id r.completed);
}
