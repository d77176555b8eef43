-- ===== src/Sandboxd/Daemon/Progress/Lost.antt =====
-- crates/gobrowse-sandboxd/src/daemon.rs: an execution that is granted to a task which does not take
-- it up.
use gobrowseos.Prelude.{ℕ, ◌≡◌, refl, sym, ap, ◌∙◌, Option, some, [], ◌∷◌, lookup, subst}
use gobrowseos.Sandboxd.Replay.{ReplayCache, ReplayDecision, begin}
use gobrowseos.Sandboxd.Replay.Retries.{begin_waits}
use gobrowseos.Sandboxd.Daemon.Errors.{ResponseEnvelope}
use gobrowseos.Sandboxd.Daemon.Admission.{Request}
use gobrowseos.Sandboxd.Daemon.Serving.{
  Phase, looking, enabling, parked, DaemonState, fingerprint_of, moved, decided, decided_again,
}
use gobrowseos.Sandboxd.Daemon.Steps.{step, apply_event, run_daemon}
use gobrowseos.Sandboxd.Daemon.Progress.{Stands, moved-Stands}

module _ {R Blob : Type 0} (encode : ResponseEnvelope R → Option Blob)
    (decode : Blob → Option (ResponseEnvelope R)) where
  -- The state after a task has asked the replay cache.
  abbrev pub asked :
      DaemonState R Blob
      → ℕ
      → Request
      → ReplayCache (ResponseEnvelope R) × ReplayDecision (ResponseEnvelope R)
      → (ReplayDecision (ResponseEnvelope R) → Phase R)
      → DaemonState R Blob
  asked d t q answer next = moved (record d { replay = answer.0 }) t q (next answer.1)

  looking_asks :
      (d : DaemonState R Blob) (t : ℕ) (q : Request) (fp : ℕ)
      → fingerprint_of q.route ≡ some fp
      → Stands d t q looking
      → apply_event encode decode (step t) d
        ≡ asked d t q (begin d.replay q.request_id fp) (decided q.request_id)
  unfolding apply_event
  looking_asks d t q fp e h = rw h (rw e refl)

  enabling_asks :
      (d : DaemonState R Blob) (t : ℕ) (q : Request) (fp : ℕ)
      → fingerprint_of q.route ≡ some fp
      → Stands d t q enabling
      → apply_event encode decode (step t) d
        ≡ asked d t q (begin d.replay q.request_id fp) decided_again
  unfolding apply_event
  enabling_asks d t q fp e h = rw h (rw e refl)

  looking_waits :
      (d : DaemonState R Blob) (t : ℕ) (q : Request) (fp : ℕ)
      → fingerprint_of q.route ≡ some fp
      → Stands d t q looking
      → begin d.replay q.request_id fp ≡ (d.replay, ReplayDecision.wait)
      → apply_event encode decode (step t) d ≡ moved d t q enabling
  looking_waits d t q fp e h w =
      looking_asks d t q fp e h ∙ ap (λ a. asked d t q a (decided q.request_id)) w

  enabling_waits :
      (d : DaemonState R Blob) (t : ℕ) (q : Request) (fp : ℕ)
      → fingerprint_of q.route ≡ some fp
      → Stands d t q enabling
      → begin d.replay q.request_id fp ≡ (d.replay, ReplayDecision.wait)
      → apply_event encode decode (step t) d ≡ moved d t q parked
  enabling_waits d t q fp e h w =
      enabling_asks d t q fp e h ∙ ap (λ a. asked d t q a decided_again) w

  enabling_granted :
      (d : DaemonState R Blob) (t : ℕ) (q : Request) (fp : ℕ)
      → fingerprint_of q.route ≡ some fp
      → Stands d t q enabling
      → (begin d.replay q.request_id fp).1 ≡ ReplayDecision.execute
      → apply_event encode decode (step t) d
        ≡ moved (record d { replay = (begin d.replay q.request_id fp).0 }) t q looking
  enabling_granted d t q fp e h granted =
      let cache = (begin d.replay q.request_id fp).0 in
      enabling_asks d t q fp e h ∙ ap (λ a. asked d t q (cache, a) decided_again) granted

  -- If the replay cache grants the execution to a task that asks it again in the branch `Wait`, the
  -- task drops the grant, asks twice more and waits for a notification, while the entry that was
  -- reserved for the execution stays pending.
  pub lost_execution :
      (d : DaemonState R Blob) (t : ℕ) (q : Request) (fp : ℕ)
      → fingerprint_of q.route ≡ some fp
      → lookup t d.tasks ≡ some (record { request = q; phase = enabling })
      → (begin d.replay q.request_id fp).1 ≡ ReplayDecision.execute
      → let after = run_daemon encode decode (step t ∷ step t ∷ step t ∷ []) d in
        (lookup t after.tasks ≡ some (record { request = q; phase = parked }))
        × (begin after.replay q.request_id fp ≡ (after.replay, ReplayDecision.wait))
  unfolding run_daemon
  lost_execution d t q fp e h granted =
      let cache = (begin d.replay q.request_id fp).0 in
      let waits = begin_waits d.replay q.request_id fp granted in
      let d0 = record d { replay = cache } in
      let d1 = moved d0 t q looking in
      let d2 = moved d1 t q enabling in
      let run = apply_event encode decode (step t) in
      let at1 = moved-Stands d0 t q enabling looking h in
      let at2 = moved-Stands d1 t q looking enabling at1 in
      let path : run (run (run d)) ≡ moved d2 t q parked =
        ap (λ x. run (run x)) (enabling_granted d t q fp e h granted)
        ∙ ap run (looking_waits d1 t q fp e at1 waits)
        ∙ enabling_waits d2 t q fp e at2 waits in
      subst
        (λ x.
          (lookup t x.tasks ≡ some (record { request = q; phase = parked }))
          × (begin x.replay q.request_id fp ≡ (x.replay, ReplayDecision.wait)))
        (sym path) (moved-Stands d2 t q enabling parked at2, waits)
