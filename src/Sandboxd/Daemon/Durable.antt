-- ===== src/Sandboxd/Daemon/Durable.antt =====
-- crates/gobrowse-sandboxd/src/daemon.rs: what a retried request is answered once its response is in
-- the journal.
pub mod Answers
use Prim.Native.String.{String}
use gobrowseos.Prelude.{
  ℕ, ◌+◌, ◌≡◌, refl, ap, Bool, true, false, ◌&&◌, Option, none, some, List, [], ◌∷◌, arith, lookup,
  ◌==◌, if◌then◌else◌, ◌⊎◌, inl, inr, Bool-cases, ok, err, not, subst, sym, ◌∙◌, ==_iff,
  found_after-update, found_after-insert, found_after-remove,
}
use gobrowseos.Sandboxd.Replay.{ReplayDecision, ReplayCache, begin, complete}
use gobrowseos.Sandboxd.Replay.Retries.{held_for, begin_held, begin-cached, complete_held}
use gobrowseos.Sandboxd.Journal.Tables.{Journal, MutationRow}
use gobrowseos.Sandboxd.Journal.Mutations.{begin_mutation, complete_mutation, other_mutation}
use gobrowseos.Sandboxd.Journal.Mutations.Cached.{
  begin_mutation_kept, complete_mutation_kept, begin_mutation-cached,
}
use gobrowseos.Sandboxd.Daemon.Errors.{DaemonError, ResponseEnvelope, error_response}
use gobrowseos.Sandboxd.Daemon.Admission.{Request, Route, journaled, replayed, direct}
use gobrowseos.Sandboxd.Daemon.Serving.{
  Outcome, Phase, looking, enabling, parked, granted, dispatching, dispatched, settling, answered,
  Task, DaemonState, fingerprint_of, look, settle, grant, note_response, advance, moved, decided,
  decided_again, begun,
}
use gobrowseos.Sandboxd.Daemon.Steps.{
  Event, arrive, step, finish, wake, drop, restart, start_task, finish_phase, wake_phase,
  drop_phase, apply_event, run_daemon, on_task,
}

abbrev pub has_fingerprint : ℕ → Option ℕ → Bool
has_fingerprint fp none = false
has_fingerprint fp (some fp') = fp' == fp

-- The request has the identifier and the fingerprint.
abbrev pub concerns : ℕ → ℕ → Request → Bool
concerns k fp q = q.request_id == k && has_fingerprint fp (fingerprint_of q.route)

abbrev pub no_entries : {R : Type 0} → ReplayCache R → Bool
no_entries c = elim c.entries [ [] ↦ true | e ∷ es ↦ false ]

module _ {Blob : Type 0} where
  abbrev pub is_route_of : MutationRow Blob → Route → Bool
  is_route_of m (journaled fp terminal kind) = not (other_mutation m terminal kind fp)
  is_route_of m _ = false

  -- A request with the identifier and the fingerprint is for the same operation.
  abbrev pub is_consistent : ℕ → MutationRow Blob → Request → Bool
  is_consistent k m q = if concerns k m.fingerprint q then is_route_of m q.route else true

  abbrev pub is_permitted : {R : Type 0} → ℕ → MutationRow Blob → Event R → Bool
  is_permitted k m (arrive t q) = is_consistent k m q
  is_permitted k m (restart cache) = no_entries cache
  is_permitted k m _ = true

  -- The requests that share the identifier and the fingerprint are for one operation, and a
  -- restarted daemon has an empty cache.
  unfoldable pub all_permitted : {R : Type 0} → ℕ → MutationRow Blob → List (Event R) → Bool
  all_permitted k m [] = true
  all_permitted k m (e ∷ es) = is_permitted k m e && all_permitted k m es

module _ {R Blob : Type 0} (encode : ResponseEnvelope R → Option Blob)
    (decode : Blob → Option (ResponseEnvelope R)) (k : ℕ) (m : MutationRow Blob)
    (r : ResponseEnvelope R) where
  -- Where a task for the request may stand.
  unfoldable pub Allowed : Phase R → Type 0
  Allowed looking = Unit {0}
  Allowed enabling = Unit {0}
  Allowed parked = Unit {0}
  Allowed granted = Unit {0}
  Allowed dispatching = ⊥
  Allowed (dispatched a) = ⊥
  Allowed (settling a) = a ≡ r
  Allowed (answered a) =
      (a ≡ r)
      ⊎ (a ≡ error_response k DaemonError.conflict)
      ⊎ (a ≡ error_response k DaemonError.limit_exceeded)

  unfoldable pub Fine : Request → Phase R → Type 0
  Fine q p = (is_consistent k m q ≡ true) × (concerns k m.fingerprint q ≡ true → Allowed p)

  pub record Holds (d : DaemonState R Blob) : Type 0 where
    pub recorded : lookup k d.journal.mutations ≡ some m
    pub cached : (a : ResponseEnvelope R) → held_for k m.fingerprint d.replay ≡ some a → a ≡ r
    pub served :
        (t : ℕ) (task : Task R) → lookup t d.tasks ≡ some task → Fine task.request task.phase

  pub moved-Holds :
      (d : DaemonState R Blob) (t : ℕ) (q : Request) (p : Phase R)
      → Holds d
      → Fine q p
      → Holds (moved d t q p)
  moved-Holds d t q p h f =
      let new : Task R = record { request = q; phase = p } in
      record {
        recorded = h.recorded;
        cached = h.cached;
        served = λ i task found. elim (found_after-update t i new task d.tasks found) [
          | inl old ↦ h.served i task old
          | inr e ↦ subst (λ x. Fine x.request x.phase) (sym e) f
        ];
      }

  pub with_replay-Holds :
      (d : DaemonState R Blob) (c : ReplayCache (ResponseEnvelope R))
      → Holds d
      → ((a : ResponseEnvelope R) → held_for k m.fingerprint c ≡ some a → a ≡ r)
      → Holds (record d { replay = c })
  with_replay-Holds d c h f = record { recorded = h.recorded; cached = f; served = h.served }

  pub with_journal-Holds :
      (d : DaemonState R Blob) (j : Journal Blob)
      → Holds d
      → lookup k j.mutations ≡ some m
      → Holds (record d { journal = j })
  with_journal-Holds d j h f = record { recorded = f; cached = h.cached; served = h.served }

  pub decided-Allowed :
      (id : ℕ) (decision : ReplayDecision (ResponseEnvelope R))
      → id ≡ k
      → ((a : ResponseEnvelope R) → decision ≡ ReplayDecision.cached a → a ≡ r)
      → Allowed (decided id decision)
  unfolding Allowed
  decided-Allowed id ReplayDecision.execute e f = tt
  decided-Allowed id (ReplayDecision.cached a) e f = inl (f a refl)
  decided-Allowed id ReplayDecision.wait e f = tt
  decided-Allowed id ReplayDecision.conflict e f =
      inr (inl (ap (λ i. error_response i DaemonError.conflict) e))
  decided-Allowed id ReplayDecision.full e f =
      inr (inr (ap (λ i. error_response i DaemonError.limit_exceeded) e))

  pub decided_again-Allowed :
      (decision : ReplayDecision (ResponseEnvelope R)) → Allowed (decided_again decision)
  unfolding Allowed
  decided_again-Allowed ReplayDecision.wait = tt
  decided_again-Allowed _ = tt

  pub concerned :
      (q : Request) (o : Option ℕ)
      → fingerprint_of q.route ≡ o
      → concerns k m.fingerprint q ≡ true
      → (q.request_id ≡ k) × (o ≡ some m.fingerprint)
  concerned q none e c = absurd (ground arith)
  concerned q (some fp) e c = ground arith

  pub look-Holds :
      (d : DaemonState R Blob) (t : ℕ) (q : Request)
      (next : ReplayDecision (ResponseEnvelope R) → Phase R) (o : Option ℕ)
      → fingerprint_of q.route ≡ o
      → Holds d
      → is_consistent k m q ≡ true
      → ((decision : ReplayDecision (ResponseEnvelope R))
          → q.request_id ≡ k
          → ((a : ResponseEnvelope R) → decision ≡ ReplayDecision.cached a → a ≡ r)
          → Allowed (next decision))
      → Holds (look d t q next o)
  unfolding Fine
  look-Holds d t q next none e h c f =
      moved-Holds d t q dispatching h (c, λ yes_it. absurd (ground (arith, concerned q none e)))
  look-Holds d t q next (some fp) e h c f =
      let id = q.request_id in
      moved-Holds (record d { replay = (begin d.replay id fp).0 }) t q
        (next (begin d.replay id fp).1)
        (with_replay-Holds d (begin d.replay id fp).0 h
          (λ a held. h.cached a (begin_held d.replay id fp k m.fingerprint a held)))
        (
          c,
          λ same.
              let (is_k, is_fp) = concerned q (some fp) e same in
              f (begin d.replay id fp).1 is_k
                (λ a answer. h.cached a (begin-cached d.replay k m.fingerprint a cc)),
        )

  pub settle-Holds :
      (d : DaemonState R Blob) (t : ℕ) (q : Request) (a : ResponseEnvelope R) (o : Option ℕ)
      → fingerprint_of q.route ≡ o
      → Holds d
      → is_consistent k m q ≡ true
      → (concerns k m.fingerprint q ≡ true → a ≡ r)
      → Holds (settle d t q a o)
  unfolding Fine Allowed
  settle-Holds d t q a none e h c f = moved-Holds d t q (answered a) h (c, λ same. inl (f same))
  settle-Holds d t q a (some fp) e h c f =
      let cache = (complete d.replay q.request_id fp a).0 in
      moved-Holds (record d { replay = cache }) t q (answered a)
        (with_replay-Holds d cache h (λ b held.
          elim (complete_held d.replay q.request_id fp k m.fingerprint a b held) [
            | inl before ↦ h.cached b before
            | inr (is_k, is_fp, is_a) ↦ is_a ∙ f (ground arith)
          ]))
        (c, λ same. inl (f same))

  pub granted-Allowed :
      (b : Blob) (j : Journal Blob) (q : Request) (fp terminal : ℕ) (kind : String)
      → m.completed ≡ true
      → m.response ≡ some b
      → decode b ≡ some r
      → lookup k j.mutations ≡ some m
      → q.route ≡ journaled fp terminal kind
      → is_consistent k m q ≡ true
      → concerns k m.fingerprint q ≡ true
      → Allowed (begun q.request_id (begin_mutation decode j q.request_id terminal kind fp).1)
  unfolding Allowed
  granted-Allowed b j q fp terminal kind done held dec h e c same =
      let (is_k, is_fp) = concerned q (some fp) (ap fingerprint_of e) same in
      rw is_k (
        rw
          (begin_mutation-cached encode decode k terminal kind fp m r b j h done held dec
            (ground arith))
          refl)
