-- ===== src/Sandboxd/Daemon/Durable/Answers.antt =====
-- crates/gobrowse-sandboxd/src/daemon.rs: the answers of the daemon to a request whose response is in
-- the journal, over every sequence of events.
use gobrowseos.Prelude.{
  ℕ, ◌≡◌, refl, true, Option, none, some, List, [], ◌∷◌, arith, lookup, ◌⊎◌, inl, inr, sym, subst,
  found_after-insert, found_after-remove, remove, Assoc,
}
use gobrowseos.Sandboxd.Replay.{ReplayCache, ReplayEntry}
use gobrowseos.Sandboxd.Replay.Retries.{held_for}
use gobrowseos.Sandboxd.Journal.Tables.{MutationRow}
use gobrowseos.Sandboxd.Journal.Mutations.{begin_mutation, complete_mutation}
use gobrowseos.Sandboxd.Journal.Mutations.Cached.{begin_mutation_kept, complete_mutation_kept}
use gobrowseos.Sandboxd.Daemon.Errors.{DaemonError, ResponseEnvelope, error_response}
use gobrowseos.Sandboxd.Daemon.Admission.{Request, Route, journaled, replayed, direct}
use gobrowseos.Sandboxd.Daemon.Serving.{
  Outcome, Phase, looking, enabling, parked, granted, dispatching, dispatched, settling, answered,
  Task, DaemonState, response_for, fingerprint_of, settle, grant, note_response, advance, begun,
  recorded_as, decided, decided_again,
}
use gobrowseos.Sandboxd.Daemon.Steps.{
  Event, arrive, step, finish, wake, drop, restart, start_task, finish_phase, wake_phase,
  drop_phase, apply_event, run_daemon, on_task,
}
use gobrowseos.Sandboxd.Daemon.Durable.{
  concerns, is_consistent, is_permitted, all_permitted, Allowed, Fine, Holds, moved-Holds,
  with_journal-Holds, look-Holds, settle-Holds, granted-Allowed, decided-Allowed,
  decided_again-Allowed, no_entries,
}

module _ {R Blob : Type 0} (encode : ResponseEnvelope R → Option Blob)
    (decode : Blob → Option (ResponseEnvelope R)) (k : ℕ) (m : MutationRow Blob)
    (r : ResponseEnvelope R) (b : Blob) (done : m.completed ≡ true) (held : m.response ≡ some b)
    (decodes : decode b ≡ some r) where
  abbrev Kept : DaemonState R Blob → Type 0
  Kept d = Holds encode decode k m r d

  grant-Holds :
      (d : DaemonState R Blob) (t : ℕ) (q : Request) (route : Route)
      → q.route ≡ route
      → Kept d
      → is_consistent k m q ≡ true
      → Kept (grant encode decode d t q route)
  unfolding Fine
  grant-Holds d t q (journaled fp terminal kind) e h c =
      let answer = begin_mutation decode d.journal q.request_id terminal kind fp in
      moved-Holds encode decode k m r (record d { journal = answer.0 }) t q
        (begun q.request_id answer.1)
        (with_journal-Holds encode decode k m r d answer.0 h (
          begin_mutation_kept encode decode k m d.journal q.request_id terminal kind fp h.recorded))
        (
          c,
          granted-Allowed encode decode k m r b d.journal q fp terminal kind done held decodes
              h.recorded e c,
        )
  grant-Holds d t q (replayed fp) e h c =
      moved-Holds encode decode k m r d t q dispatching h (c, λ same. absurd (ground arith))
  grant-Holds d t q direct e h c =
      moved-Holds encode decode k m r d t q dispatching h (c, λ same. absurd (ground arith))

  note_response-Holds :
      (d : DaemonState R Blob) (t : ℕ) (q : Request) (a : ResponseEnvelope R) (route : Route)
      → Kept d
      → is_consistent k m q ≡ true
      → (concerns k m.fingerprint q ≡ true → ⊥)
      → Kept (note_response encode decode d t q a route)
  unfolding Fine
  note_response-Holds d t q a (journaled fp terminal kind) h c other =
      let stored = complete_mutation encode d.journal q.request_id a in
      moved-Holds encode decode k m r (record d { journal = stored.0 }) t q
        (settling (recorded_as q.request_id a stored.1))
        (with_journal-Holds encode decode k m r d stored.0 h
          (complete_mutation_kept encode decode k m d.journal q.request_id a done h.recorded))
        (c, λ same. absurd (other same))
  note_response-Holds d t q a (replayed fp) h c other =
      moved-Holds encode decode k m r d t q (settling a) h (c, λ same. absurd (other same))
  note_response-Holds d t q a direct h c other =
      moved-Holds encode decode k m r d t q (answered a) h (c, λ same. absurd (other same))

  advance-Holds :
      (d : DaemonState R Blob) (t : ℕ) (q : Request) (p : Phase R)
      → Kept d
      → Fine encode decode k m r q p
      → Kept (advance encode decode d t q p)
  unfolding Fine Allowed
  advance-Holds d t q looking h (c, f) =
      look-Holds encode decode k m r d t q (decided q.request_id) (fingerprint_of q.route) refl h c
        (decided-Allowed encode decode k m r q.request_id)
  advance-Holds d t q enabling h (c, f) =
      look-Holds encode decode k m r d t q decided_again (fingerprint_of q.route) refl h c
        (λ decision is_k g. decided_again-Allowed encode decode k m r decision)
  advance-Holds d t q parked h f = h
  advance-Holds d t q granted h (c, f) = grant-Holds d t q q.route refl h c
  advance-Holds d t q dispatching h f = h
  advance-Holds d t q (dispatched a) h (c, f) = note_response-Holds d t q a q.route h c f
  advance-Holds d t q (settling a) h (c, f) =
      settle-Holds encode decode k m r d t q a (fingerprint_of q.route) refl h c f
  advance-Holds d t q (answered a) h f = h

  finish-Holds :
      (d : DaemonState R Blob) (t : ℕ) (q : Request) (outcome : Outcome R) (p : Phase R)
      → Kept d
      → Fine encode decode k m r q p
      → Kept (finish_phase d t q outcome p)
  unfolding Fine Allowed
  finish-Holds d t q outcome dispatching h (c, f) =
      moved-Holds encode decode k m r d t q (dispatched (response_for q.request_id outcome)) h
        (c, f)
  finish-Holds d t q outcome _ h f = h

  wake-Holds :
      (d : DaemonState R Blob) (t : ℕ) (q : Request) (p : Phase R)
      → Kept d
      → Fine encode decode k m r q p
      → Kept (wake_phase d t q p)
  unfolding Fine Allowed
  wake-Holds d t q parked h (c, f) = moved-Holds encode decode k m r d t q looking h (c, λ same. tt)
  wake-Holds d t q _ h f = h

  removed-Holds :
      (d : DaemonState R Blob) (t : ℕ) → Kept d → Kept (record d { tasks = remove t d.tasks })
  removed-Holds d t h = record {
    recorded = h.recorded;
    cached = h.cached;
    served = λ i task found. h.served i task (found_after-remove t i task d.tasks found);
  }

  drop-Holds :
      (d : DaemonState R Blob) (t : ℕ) (q : Request) (p : Phase R)
      → Kept d
      → Fine encode decode k m r q p
      → Kept (drop_phase d t q p)
  unfolding Fine Allowed
  drop-Holds d t q dispatching h (c, f) =
      let a = error_response q.request_id DaemonError.operation_timeout in
      removed-Holds (settle d t q a (fingerprint_of q.route)) t (
        settle-Holds encode decode k m r d t q a (fingerprint_of q.route) refl h c
          (λ same. absurd (f same)))
  drop-Holds d t q parked h f = removed-Holds d t h
  drop-Holds d t q _ h f = h

  start-Holds :
      (d : DaemonState R Blob) (t : ℕ) (q : Request) (o : Option (Task R))
      → Kept d
      → is_consistent k m q ≡ true
      → Kept (start_task d t q o)
  unfolding Fine Allowed
  start-Holds d t q none h c =
      let new : Task R = record { request = q; phase = looking } in
      record {
        recorded = h.recorded;
        cached = h.cached;
        served = λ i task found. elim (found_after-insert t i new task d.tasks found) [
          | inl old ↦ h.served i task old
          | inr e ↦ subst (λ x. Fine encode decode k m r x.request x.phase) (sym e) (c, λ same. tt)
        ];
      }
  start-Holds d t q (some task) h c = h

  on_task-Holds :
      (d : DaemonState R Blob) (t : ℕ) (o : Option (Task R))
      (f : Request → Phase R → DaemonState R Blob)
      → lookup t d.tasks ≡ o
      → Kept d
      → ((q : Request) (p : Phase R) → Fine encode decode k m r q p → Kept (f q p))
      → Kept (on_task d o f)
  on_task-Holds d t none f e h g = h
  on_task-Holds d t (some task) f e h g = g task.request task.phase (h.served t task e)

  no_entries-cached :
      (c : ReplayCache (ResponseEnvelope R)) (xs : Assoc (ReplayEntry (ResponseEnvelope R)))
      → c.entries ≡ xs
      → no_entries c ≡ true
      → (a : ResponseEnvelope R) → held_for k m.fingerprint c ≡ some a
      → a ≡ r
  no_entries-cached c [] e h a f = absurd (ground arith)
  no_entries-cached c (x ∷ xs) e h a f = absurd (ground arith)

  apply_event-Holds :
      (e : Event R) (d : DaemonState R Blob)
      → Kept d
      → is_permitted k m e ≡ true
      → Kept (apply_event encode decode e d)
  unfolding apply_event
  apply_event-Holds (arrive t q) d h c = start-Holds d t q (lookup t d.tasks) h c
  apply_event-Holds (step t) d h c =
      on_task-Holds d t (lookup t d.tasks) (advance encode decode d t) refl h
        (λ q p f. advance-Holds d t q p h f)
  apply_event-Holds (finish t outcome) d h c =
      on_task-Holds d t (lookup t d.tasks) (λ q. finish_phase d t q outcome) refl h
        (λ q p f. finish-Holds d t q outcome p h f)
  apply_event-Holds (wake t) d h c =
      on_task-Holds d t (lookup t d.tasks) (wake_phase d t) refl h (λ q p f. wake-Holds d t q p h f)
  apply_event-Holds (drop t) d h c =
      on_task-Holds d t (lookup t d.tasks) (drop_phase d t) refl h (λ q p f. drop-Holds d t q p h f)
  apply_event-Holds (restart cache) d h c = record {
    recorded = h.recorded;
    cached = no_entries-cached cache cache.entries refl c;
    served = λ i task found. absurd (ground arith);
  }

  run_daemon-Holds :
      (es : List (Event R)) (d : DaemonState R Blob)
      → Kept d
      → all_permitted k m es ≡ true
      → Kept (run_daemon encode decode es d)
  unfolding run_daemon all_permitted
  run_daemon-Holds [] d h c = h
  run_daemon-Holds (e ∷ es) d h c =
      run_daemon-Holds es (apply_event encode decode e d) (apply_event-Holds e d h (ground arith))
        (ground arith)

  -- Once the response of a journaled request is complete in the journal and can be decoded, a
  -- daemon that is started with that journal answers the request, whenever it comes again and
  -- whatever else happens, with that response, with a conflict, or with the limit being exceeded,
  -- if the requests that share its identifier and fingerprint are for the same operation and a
  -- restart empties the replay cache.
  pub durable_answer :
      (es : List (Event R)) (d : DaemonState R Blob) (t : ℕ) (task : Task R)
      (a : ResponseEnvelope R)
      → lookup k d.journal.mutations ≡ some m
      → no_entries d.replay ≡ true
      → d.tasks ≡ []
      → all_permitted k m es ≡ true
      → lookup t (run_daemon encode decode es d).tasks ≡ some task
      → concerns k m.fingerprint task.request ≡ true
      → task.phase ≡ answered a
      → (a ≡ r)
        ⊎ (a ≡ error_response k DaemonError.conflict)
        ⊎ (a ≡ error_response k DaemonError.limit_exceeded)
  unfolding Fine Allowed
  durable_answer es d t task a recorded fresh idle permitted found same answer =
      let start : Kept d = record {
        recorded = recorded;
        cached = no_entries-cached d.replay d.replay.entries refl fresh;
        served = λ i other f. absurd (ground arith);
      } in
      let fine = (run_daemon-Holds es d start permitted).served t task found in
      subst (Allowed encode decode k m r) answer (fine.1 same)
