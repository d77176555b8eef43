-- ===== src/Sandboxd/Journal/Mutations.antt =====
-- journal.rs, `begin_mutation` and `complete_mutation`: the protocol requests that change a terminal: recorded before they run, with the response they
-- had. `serde_json` stands outside: `encode` and `decode` are parameters.
pub mod Cached
use Prim.Native.String.{String}
use text.Mathlib.Text.{◌==◌ as str_eq}
use gobrowseos.Prelude.{
  ℕ, zero, ◌+◌, ◌≡◌, refl, sym, ap, ◌∙◌, Bool, true, false, not, ◌||◌, Option, none, some, List, [],
  ◌∷◌, arith, ◌==◌, if◌then◌else◌, Assoc, lookup, insert, update, lookup-remove, lookup-update,
  Result, ok, err,
}
use gobrowseos.Sandboxd.Journal.Tables.{
  JournalError, corrupt, conflict, outcome_unknown, MutationRow, Journal,
}

pub data MutationDecision (Response : Type 0) : Type 0 where
  execute : MutationDecision Response
  cached : Response → MutationDecision Response

module _ {Blob : Type 0} where
  abbrev pub pending_mutation : ℕ → String → ℕ → MutationRow Blob
  pending_mutation terminal kind fp = record {
    terminal_id = terminal;
    kind = kind;
    fingerprint = fp;
    completed = false;
    response = none;
  }

  -- The request is not the one that the row was recorded for.
  abbrev pub other_mutation : MutationRow Blob → ℕ → String → ℕ → Bool
  other_mutation m terminal kind fp =
      not (m.terminal_id == terminal) || (not (str_eq m.kind kind) || not (m.fingerprint == fp))

  -- The update `WHERE status = 'PENDING'`.
  abbrev pub complete_pending :
      Journal Blob
      → ℕ
      → Blob
      → Option (MutationRow Blob)
      → Journal Blob × Result (Unit {0}) JournalError
  complete_pending j request blob none = (j, err outcome_unknown)
  complete_pending j request blob (some m) = if m.completed then (j, err outcome_unknown) else (
    record j {
      mutations = update request (record m { completed = true; response = some blob }) j.mutations;
    },
    ok tt,
  )

  abbrev pub complete_encoded :
      Journal Blob → ℕ → Option Blob → Journal Blob × Result (Unit {0}) JournalError
  complete_encoded j request none = (j, err corrupt)
  complete_encoded j request (some blob) =
      complete_pending j request blob (lookup request j.mutations)

module _ {Response : Type 0} where
  -- `ok_or(Corrupt)` and `map_err`.
  abbrev pub decoded : Option Response → Result (MutationDecision Response) JournalError
  decoded none = err corrupt
  decoded (some r) = ok (cached r)

module _ {Response Blob : Type 0} where
  abbrev pub cached_response :
      (Blob → Option Response)
      → Bool
      → Option Blob
      → Result (MutationDecision Response) JournalError
  cached_response decode false blob = err outcome_unknown
  cached_response decode true none = err corrupt
  cached_response decode true (some b) = decoded (decode b)

  abbrev pub begin_recorded :
      (Blob → Option Response)
      → Journal Blob
      → ℕ
      → ℕ
      → String
      → ℕ
      → Option (MutationRow Blob)
      → Journal Blob × Result (MutationDecision Response) JournalError
  begin_recorded decode j request terminal kind fp none = (
    record j { mutations = insert request (pending_mutation terminal kind fp) j.mutations },
    ok execute,
  )
  begin_recorded decode j request terminal kind fp (some m) =
      if other_mutation m terminal kind fp
      then (j, err conflict)
      else (j, cached_response decode m.completed m.response)

  unfoldable pub begin_mutation :
      (Blob → Option Response)
      → Journal Blob
      → ℕ
      → ℕ
      → String
      → ℕ
      → Journal Blob × Result (MutationDecision Response) JournalError
  begin_mutation decode j request terminal kind fp =
      begin_recorded decode j request terminal kind fp (lookup request j.mutations)

  unfoldable pub complete_mutation :
      (Response → Option Blob)
      → Journal Blob
      → ℕ
      → Response
      → Journal Blob × Result (Unit {0}) JournalError
  complete_mutation encode j request response = complete_encoded j request (encode response)
