-- ===== src/Sandboxd/Daemon/Workspaces/Paused.antt =====
-- crates/gobrowse-sandboxd/src/daemon.rs: which terminals stay paused after a change of a workspace.
use gobrowseos.Prelude.{
  ℕ, ◌≡◌, refl, ap, true, false, ◌&&◌, sym, suc, take, length, ltb, ◌∙◌, Bool, Option, none, some,
  List, [], ◌∷◌, Result, ok, err, ◌==◌, if◌then◌else◌, arith, Bool-cases, Result-cases, occ, inl,
  inr,
}
use gobrowseos.Core.Sandbox.{Bytes}
use gobrowseos.Sandboxd.Daemon.Errors.{FilesystemError, RuntimeError}
use gobrowseos.Sandboxd.Daemon.Workspaces.{
  Action, WorkspacePause, Pauses, is_containment_failure, chown, terminate_all, resume, finish,
  change_paused, change_required, mutate_workspace, Await, in_pre_chown, in_post_chown, in_resume,
  in_terminate, cancel_in_pre_chown, cancel_changed, cancel_paused,
}

-- The calls that a change makes, the latest first.
pub data WorkspaceCall : Type 0 where
  paused resumed : WorkspacePause → WorkspaceCall
  terminated : ℕ → WorkspaceCall
  chowned required operated : WorkspaceCall

-- How the runtime and the file system answer each call, given those before it.
pub record Oracle : Type 0 where
  pub pauses : List WorkspaceCall → Result WorkspacePause RuntimeError
  pub resumes : List WorkspaceCall → Result (Unit {0}) RuntimeError
  pub terminates : List WorkspaceCall → Result (Unit {0}) RuntimeError
  pub chowns : List WorkspaceCall → Result (Unit {0}) RuntimeError
  pub requires : List WorkspaceCall → Result (Unit {0}) FilesystemError

abbrev pub log_pause :
    List WorkspaceCall
    → Result WorkspacePause RuntimeError
    → List WorkspaceCall × Result WorkspacePause RuntimeError
log_pause l (ok pause) = (paused pause ∷ l, ok pause)
log_pause l (err e) = (l, err e)

abbrev pub logged : Oracle → Pauses (List WorkspaceCall)
logged o = record {
  pause_workspace = λ workspace l. log_pause l (o.pauses l);
  resume_workspace = λ pause l. (resumed pause ∷ l, o.resumes l);
  chown_workspace_path = λ workspace path recursive l. (chowned ∷ l, o.chowns l);
  terminate = λ t l. (terminated t ∷ l, o.terminates l);
  require_directory = λ workspace path l. (required ∷ l, o.requires l);
}

abbrev pub operate_as :
    {T : Type 0}
    → (List WorkspaceCall → Result T FilesystemError)
    → Action (List WorkspaceCall) FilesystemError T
operate_as f l = (operated ∷ l, f l)

abbrev pub without : ℕ → List ℕ → List ℕ
without t [] = []
without t (x ∷ xs) = let rest = without t xs in if x == t then rest else x ∷ rest

-- The terminals that were paused, and since then neither resumed nor terminated, or tried to be.
abbrev pub owed : List WorkspaceCall → List ℕ
owed [] = []
owed (paused pause ∷ l) = pause.terminal_ids
owed (resumed pause ∷ l) = []
owed (terminated t ∷ l) = without t (owed l)
owed (chowned ∷ l) = owed l
owed (required ∷ l) = owed l
owed (operated ∷ l) = owed l

abbrev pub without_all : List ℕ → List ℕ → List ℕ
without_all [] xs = xs
without_all (t ∷ ts) xs = without_all ts (without t xs)

-- What a change leaves paused that is cancelled at a place.
abbrev pub left_paused : Await → List ℕ → List ℕ
left_paused in_pre_chown terminals = terminals
left_paused (in_terminate n) terminals = without_all (take (suc n) terminals) terminals
left_paused in_post_chown terminals = []
left_paused in_resume terminals = []

occ-without : (t k : ℕ) (xs : List ℕ) → occ k (without t xs) ≡ (if t == k then 0 else occ k xs)
occ-without t k [] = ground arith
occ-without t k (x ∷ xs) = ground (arith, occ-without t k xs)

occ-without_all :
    (ts : List ℕ) (k : ℕ) (xs : List ℕ)
    → occ k (without_all ts xs) ≡ (if occ k ts == 0 then occ k xs else 0)
occ-without_all [] k xs = refl
occ-without_all (t ∷ ts) k xs =
    ground (arith, occ-without_all ts k (without t xs), occ-without t k xs)

occ_none : (xs : List ℕ) → ((k : ℕ) → occ k xs ≡ 0) → xs ≡ []
occ_none [] h = refl
occ_none (x ∷ xs) h = absurd (ground (arith, h x))

without_all_self : (ts : List ℕ) → without_all ts ts ≡ []
without_all_self ts = occ_none (without_all ts ts) (λ k. ground (arith, occ-without_all ts k ts))

some_inj : {A : Type 0} {a b : A} → some a ≡ some b → a ≡ b
some_inj e = cc

module _ (o : Oracle) where
  chown-owed :
      (workspace : ℕ) (at : Option (Bytes × Bool)) (l : List WorkspaceCall)
      → owed (chown (logged o) workspace at l) ≡ owed l
  chown-owed workspace none l = refl
  chown-owed workspace (some (path, recursive)) l = refl

  terminate_all-owed :
      (ts : List ℕ) (l : List WorkspaceCall)
      → owed (terminate_all (logged o) ts l) ≡ without_all ts (owed l)
  terminate_all-owed [] l = refl
  terminate_all-owed (t ∷ ts) l = terminate_all-owed ts (terminated t ∷ l)

  resume-owed :
      (pause : WorkspacePause) (l : List WorkspaceCall) → owed (resume (logged o) pause l).0 ≡ []
  resume-owed pause l = elim (Result-cases (o.resumes l)) [
    | inl (u, e) ↦ rw e refl
    | inr (e, f) ↦ rw f refl
  ]

  module _ {T : Type 0} (workspace : ℕ) (pre_chown post_chown : Option (Bytes × Bool))
      (f : List WorkspaceCall → Result T FilesystemError) where
    finish-owed :
        (pause : WorkspacePause) (l : List WorkspaceCall) (result : Result T FilesystemError)
        → owed l ≡ pause.terminal_ids
        → owed (finish (logged o) workspace post_chown pause l result).0 ≡ []
    finish-owed pause l result h = elim (Bool-cases (is_containment_failure result)) [
      | inl failed ↦ rw failed (
          terminate_all-owed pause.terminal_ids l
          ∙ ap (without_all pause.terminal_ids) h
          ∙ without_all_self pause.terminal_ids)
      | inr contained ↦ rw contained (resume-owed pause (chown (logged o) workspace post_chown l))
    ]

    change_paused-owed :
        (l : List WorkspaceCall) (answer : Result WorkspacePause RuntimeError)
        → owed l ≡ []
        → owed
            (change_paused
              (logged o)
              workspace
              pre_chown
              post_chown
              (operate_as f)
              (log_pause l answer).0
              (log_pause l answer).1).0
          ≡ []
    change_paused-owed l (err e) h = h
    change_paused-owed l (ok pause) h =
        let start = chown (logged o) workspace pre_chown (paused pause ∷ l) in
        finish-owed pause (operated ∷ start) (f start)
          (chown-owed workspace pre_chown (paused pause ∷ l))

    change_required-owed :
        (l : List WorkspaceCall) (answer : Result (Unit {0}) FilesystemError)
        → owed l ≡ []
        → owed (change_required (logged o) workspace pre_chown post_chown (operate_as f) l answer).0
          ≡ []
    change_required-owed l (err e) h = h
    change_required-owed l (ok u) h = change_paused-owed l (o.pauses l) h

    -- However the runtime and the file system answer, a change of a workspace that ends leaves no
    -- terminal paused that it has not resumed or terminated, or tried to.
    pub mutate_workspace-owed :
        (l : List WorkspaceCall)
        → owed l ≡ []
        → owed (mutate_workspace (logged o) workspace pre_chown post_chown (operate_as f) l).0 ≡ []
    unfolding mutate_workspace
    mutate_workspace-owed l h = change_required-owed (required ∷ l) (o.requires l) h

    terminating-owed :
        (n : ℕ) (pause : WorkspacePause) (l w : List WorkspaceCall)
        (result : Result T FilesystemError)
        → owed l ≡ pause.terminal_ids
        → cancel_changed (logged o) (in_terminate n) workspace post_chown pause l result ≡ some w
        → owed w ≡ left_paused (in_terminate n) pause.terminal_ids
    terminating-owed n pause l w result h =
        elim (Bool-cases (is_containment_failure result && ltb n (length pause.terminal_ids))) [
          | inr other ↦ rw other (λ e. absurd cc)
          | inl failed ↦ rw failed (λ e.
              ap owed (sym (some_inj e))
              ∙ terminate_all-owed (take (suc n) pause.terminal_ids) l
              ∙ ap (without_all (take (suc n) pause.terminal_ids)) h)
        ]

    resumed-owed :
        (pause : WorkspacePause) (l w : List WorkspaceCall) (failed : Bool)
        → (if failed then none else some (resumed pause ∷ l)) ≡ some w
        → owed w ≡ []
    resumed-owed pause l w true e = absurd cc
    resumed-owed pause l w false e = ap owed (sym (some_inj e))

    post_chown-owed :
        (at : Option (Bytes × Bool)) (pause : WorkspacePause) (l w : List WorkspaceCall)
        (result : Result T FilesystemError)
        → cancel_changed (logged o) in_post_chown workspace at pause l result ≡ some w
        → owed w ≡ []
    post_chown-owed none pause l w result e = absurd cc
    post_chown-owed (some (path, recursive)) pause l w result e =
        resumed-owed pause (chowned ∷ l) w (is_containment_failure result) e

    in_pre_chown-owed :
        (at : Option (Bytes × Bool)) (l w : List WorkspaceCall)
        → cancel_in_pre_chown (logged o) workspace at l ≡ some w
        → owed w ≡ owed l
    in_pre_chown-owed none l w e = absurd cc
    in_pre_chown-owed (some at) l w e =
        ap owed (sym (some_inj e)) ∙ chown-owed workspace (some at) l

    -- A change that is cancelled while the workspace is paused leaves all its terminals paused if
    -- it is cancelled during the change of ownership before the operation, those that it has not
    -- tried to terminate if it is cancelled during the terminations after a containment failure,
    -- and resumes the workspace otherwise.
    pub cancel_paused-owed :
        (await : Await) (pause : WorkspacePause) (l w : List WorkspaceCall)
        → cancel_paused
            (logged o)
            await
            workspace
            pre_chown
            post_chown
            (operate_as f)
            pause
            (paused pause ∷ l)
          ≡ some w
        → owed w ≡ left_paused await pause.terminal_ids
    unfolding cancel_paused
    cancel_paused-owed in_pre_chown pause l w e = in_pre_chown-owed pre_chown (paused pause ∷ l) w e
    cancel_paused-owed in_post_chown pause l w e =
        let start = chown (logged o) workspace pre_chown (paused pause ∷ l) in
        post_chown-owed post_chown pause (operated ∷ start) w (f start) e
    cancel_paused-owed in_resume pause l w e =
        let start = chown (logged o) workspace pre_chown (paused pause ∷ l) in
        let chowns = chown (logged o) workspace post_chown (operated ∷ start) in
        resumed-owed pause (resumed pause ∷ chowns) w (is_containment_failure (f start)) e
    cancel_paused-owed (in_terminate n) pause l w e =
        let start = chown (logged o) workspace pre_chown (paused pause ∷ l) in
        terminating-owed n pause (operated ∷ start) w (f start)
          (chown-owed workspace pre_chown (paused pause ∷ l)) e
