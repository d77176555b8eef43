-- ===== src/Sandboxd/Journal/Mutations/Cached.antt =====
-- journal.rs: how often a protocol request is executed, and its answers once it is complete.
use Prim.Native.String.{String}
use text.Mathlib.TextPositions.{eq_refl}
use gobrowseos.Prelude.{
  ℕ, ◌+◌, ◌≡◌, refl, Bool, true, false, Option, none, some, List, [], ◌∷◌, arith, ◌==◌,
  if◌then◌else◌, lookup, update, lookup-remove, lookup-update, is_there, is_there-update, Result,
  ok, err,
}
use gobrowseos.Sandboxd.Journal.Tables.{JournalError, MutationRow, Journal}
use gobrowseos.Sandboxd.Journal.Mutations.{
  MutationDecision, execute, cached, complete_pending, decoded, other_mutation, cached_response,
  begin_recorded, begin_mutation, complete_encoded, complete_mutation,
}

pub data MutationCall (Response : Type 0) : Type 0 where
  begin_call : ℕ → ℕ → String → ℕ → MutationCall Response
  complete_call : ℕ → Response → MutationCall Response

module _ {Response : Type 0} where
  abbrev pub is_execute : Result (MutationDecision Response) JournalError → ℕ
  is_execute (ok execute) = 1
  is_execute (ok (cached r)) = 0
  is_execute (err e) = 0

module _ {Blob : Type 0} where
  abbrev pub recorded_mutation : ℕ → Journal Blob → ℕ
  recorded_mutation k j = is_there (lookup k j.mutations)

module _ {Response Blob : Type 0} (encode : Response → Option Blob)
    (decode : Blob → Option Response) where
  pub apply_mutation : MutationCall Response → Journal Blob → Journal Blob
  apply_mutation (begin_call request terminal kind fp) j =
      (begin_mutation decode j request terminal kind fp).0
  apply_mutation (complete_call request response) j =
      (complete_mutation encode j request response).0

  -- 1 if the call is told to execute the request.
  pub executes_mutation : ℕ → MutationCall Response → Journal Blob → ℕ
  executes_mutation k (begin_call request terminal kind fp) j =
      if request == k then is_execute (begin_mutation decode j request terminal kind fp).1 else 0
  executes_mutation k (complete_call request response) j = 0

  pub run_mutations : List (MutationCall Response) → Journal Blob → Journal Blob
  run_mutations [] j = j
  run_mutations (c ∷ cs) j = run_mutations cs (apply_mutation c j)

  pub executions_of : ℕ → List (MutationCall Response) → Journal Blob → ℕ
  executions_of k [] j = 0
  executions_of k (c ∷ cs) j = executes_mutation k c j + executions_of k cs (apply_mutation c j)

  is_execute-decoded : (o : Option Response) → is_execute (decoded o) ≡ 0
  is_execute-decoded none = refl
  is_execute-decoded (some r) = refl

  is_execute-cached : (b : Bool) (o : Option Blob) → is_execute (cached_response decode b o) ≡ 0
  is_execute-cached false o = refl
  is_execute-cached true none = refl
  is_execute-cached true (some b) = is_execute-decoded (decode b)

  begin_recorded_conserves :
      (k : ℕ) (j : Journal Blob) (request terminal : ℕ) (kind : String) (fp : ℕ)
      (o : Option (MutationRow Blob))
      → lookup request j.mutations ≡ o
      → (if request == k
            then is_execute (begin_recorded decode j request terminal kind fp o).1
            else 0)
          + recorded_mutation k j
        ≡ recorded_mutation k (begin_recorded decode j request terminal kind fp o).0
  begin_recorded_conserves k j request terminal kind fp none h =
      ground (arith, lookup-remove request k j.mutations)
  begin_recorded_conserves k j request terminal kind fp (some m) h =
      ground (arith, is_execute-cached m.completed m.response)

  complete_pending_conserves :
      (k : ℕ) (j : Journal Blob) (request : ℕ) (b : Blob) (o : Option (MutationRow Blob))
      → recorded_mutation k (complete_pending j request b o).0 ≡ recorded_mutation k j
  complete_pending_conserves k j request b none = refl
  complete_pending_conserves k j request b (some m) = ground (
    arith,
    is_there-update request k (record m { completed = true; response = some b }) j.mutations,
  )

  complete_encoded_conserves :
      (k : ℕ) (j : Journal Blob) (request : ℕ) (o : Option Blob)
      → recorded_mutation k (complete_encoded j request o).0 ≡ recorded_mutation k j
  complete_encoded_conserves k j request none = refl
  complete_encoded_conserves k j request (some b) =
      complete_pending_conserves k j request b (lookup request j.mutations)

  -- A request becomes recorded exactly where it is told to be executed.
  pub begin_mutation_conserves :
      (k : ℕ) (j : Journal Blob) (request terminal : ℕ) (kind : String) (fp : ℕ)
      → (if request == k
            then is_execute (begin_mutation decode j request terminal kind fp).1
            else 0)
          + recorded_mutation k j
        ≡ recorded_mutation k (begin_mutation decode j request terminal kind fp).0
  unfolding begin_mutation
  begin_mutation_conserves k j request terminal kind fp =
      begin_recorded_conserves k j request terminal kind fp (lookup request j.mutations) refl

  -- Completing a request records none and forgets none.
  pub complete_mutation_conserves :
      (k : ℕ) (j : Journal Blob) (request : ℕ) (response : Response)
      → recorded_mutation k (complete_mutation encode j request response).0 ≡ recorded_mutation k j
  unfolding complete_mutation
  complete_mutation_conserves k j request response =
      complete_encoded_conserves k j request (encode response)

  apply_mutation_conserves :
      (k : ℕ) (c : MutationCall Response) (j : Journal Blob)
      → executes_mutation k c j + recorded_mutation k j ≡ recorded_mutation k (apply_mutation c j)
  unfolding apply_mutation executes_mutation
  apply_mutation_conserves k (begin_call request terminal kind fp) j =
      begin_mutation_conserves k j request terminal kind fp
  apply_mutation_conserves k (complete_call request response) j =
      omega (arith, complete_mutation_conserves k j request response)

  -- Over any sequence of calls a protocol request is told to be executed exactly as often as it
  -- becomes recorded: once if it was not recorded before and is afterwards, and otherwise never.
  pub executions_recorded_once :
      (k : ℕ) (cs : List (MutationCall Response)) (j : Journal Blob)
      → executions_of k cs j + recorded_mutation k j ≡ recorded_mutation k (run_mutations cs j)
  unfolding executions_of run_mutations
  executions_recorded_once k [] j = omega arith
  executions_recorded_once k (c ∷ cs) j =
      omega
        (arith, apply_mutation_conserves k c j, executions_recorded_once k cs (apply_mutation c j))

  begin_recorded_kept :
      (k : ℕ) (m : MutationRow Blob) (j : Journal Blob) (request terminal : ℕ) (kind : String)
      (fp : ℕ) (o : Option (MutationRow Blob))
      → lookup k j.mutations ≡ some m
      → lookup request j.mutations ≡ o
      → lookup k (begin_recorded decode j request terminal kind fp o).0.mutations ≡ some m
  begin_recorded_kept k m j request terminal kind fp none h e =
      ground (arith, lookup-remove request k j.mutations)
  begin_recorded_kept k m j request terminal kind fp (some n) h e = ground arith

  complete_pending_kept :
      (k : ℕ) (m : MutationRow Blob) (j : Journal Blob) (request : ℕ) (b : Blob)
      (o : Option (MutationRow Blob))
      → m.completed ≡ true
      → lookup k j.mutations ≡ some m
      → lookup request j.mutations ≡ o
      → lookup k (complete_pending j request b o).0.mutations ≡ some m
  complete_pending_kept k m j request b none done h e = h
  complete_pending_kept k m j request b (some n) done h e = ground (
    arith,
    lookup-update request k (record n { completed = true; response = some b }) j.mutations,
  )

  complete_encoded_kept :
      (k : ℕ) (m : MutationRow Blob) (j : Journal Blob) (request : ℕ) (o : Option Blob)
      → m.completed ≡ true
      → lookup k j.mutations ≡ some m
      → lookup k (complete_encoded j request o).0.mutations ≡ some m
  complete_encoded_kept k m j request none done h = h
  complete_encoded_kept k m j request (some b) done h =
      complete_pending_kept k m j request b (lookup request j.mutations) done h refl

  -- The row of a completed request is changed by no call.
  pub begin_mutation_kept :
      (k : ℕ) (m : MutationRow Blob) (j : Journal Blob) (request terminal : ℕ) (kind : String)
      (fp : ℕ)
      → lookup k j.mutations ≡ some m
      → lookup k (begin_mutation decode j request terminal kind fp).0.mutations ≡ some m
  unfolding begin_mutation
  begin_mutation_kept k m j request terminal kind fp h =
      begin_recorded_kept k m j request terminal kind fp (lookup request j.mutations) h refl

  pub complete_mutation_kept :
      (k : ℕ) (m : MutationRow Blob) (j : Journal Blob) (request : ℕ) (response : Response)
      → m.completed ≡ true
      → lookup k j.mutations ≡ some m
      → lookup k (complete_mutation encode j request response).0.mutations ≡ some m
  unfolding complete_mutation
  complete_mutation_kept k m j request response done h =
      complete_encoded_kept k m j request (encode response) done h

  completed_kept :
      (k : ℕ) (m : MutationRow Blob) (c : MutationCall Response) (j : Journal Blob)
      → m.completed ≡ true
      → lookup k j.mutations ≡ some m
      → lookup k (apply_mutation c j).mutations ≡ some m
  unfolding apply_mutation
  completed_kept k m (begin_call request terminal kind fp) j done h =
      begin_mutation_kept k m j request terminal kind fp h
  completed_kept k m (complete_call request response) j done h =
      complete_mutation_kept k m j request response done h

  run_mutations_kept :
      (k : ℕ) (m : MutationRow Blob) (cs : List (MutationCall Response)) (j : Journal Blob)
      → m.completed ≡ true
      → lookup k j.mutations ≡ some m
      → lookup k (run_mutations cs j).mutations ≡ some m
  unfolding run_mutations
  run_mutations_kept k m [] j done h = h
  run_mutations_kept k m (c ∷ cs) j done h =
      run_mutations_kept k m cs (apply_mutation c j) done (completed_kept k m c j done h)

  complete_mutation-done :
      (k : ℕ) (r : Response) (b : Blob) (m : MutationRow Blob) (j : Journal Blob)
      → lookup k j.mutations ≡ some m
      → m.completed ≡ false
      → encode r ≡ some b
      → complete_mutation encode j k r ≡ (
        record j {
          mutations = update k (record m { completed = true; response = some b }) j.mutations;
        },
        ok tt,
      )
  unfolding complete_mutation
  complete_mutation-done k r b m j h waiting e = rw e (rw h (rw waiting refl))

  -- The answer to a request that is complete.
  pub begin_mutation-cached :
      (k terminal : ℕ) (kind : String) (fp : ℕ) (m : MutationRow Blob) (r : Response) (b : Blob)
      (j : Journal Blob)
      → lookup k j.mutations ≡ some m
      → m.completed ≡ true
      → m.response ≡ some b
      → decode b ≡ some r
      → other_mutation m terminal kind fp ≡ false
      → begin_mutation decode j k terminal kind fp ≡ (j, ok (cached r))
  unfolding begin_mutation
  begin_mutation-cached k terminal kind fp m r b j h done held d same =
      rw (h, same) (rw (done, held) (rw d refl))

  cached_answer :
      (k : ℕ) (m : MutationRow Blob) (r : Response) (b : Blob) (j : Journal Blob)
      → lookup k j.mutations ≡ some m
      → m.completed ≡ true
      → m.response ≡ some b
      → decode b ≡ some r
      → begin_mutation decode j k m.terminal_id m.kind m.fingerprint ≡ (j, ok (cached r))
  cached_answer k m r b j h done held d =
      begin_mutation-cached k m.terminal_id m.kind m.fingerprint m r b j h done held d
        (ground (arith, eq_refl m.kind))

  -- If a response is encoded and decoding gives it back, a request that is recorded as pending and
  -- then completed with it answers, when it comes again after any further calls, with that response
  -- and changes nothing.
  pub complete_mutation-replays :
      (k : ℕ) (r : Response) (b : Blob) (m : MutationRow Blob) (cs : List (MutationCall Response))
      (j : Journal Blob)
      → encode r ≡ some b
      → decode b ≡ some r
      → lookup k j.mutations ≡ some m
      → m.completed ≡ false
      → let j' = run_mutations cs (complete_mutation encode j k r).0 in
        begin_mutation decode j' k m.terminal_id m.kind m.fingerprint ≡ (j', ok (cached r))
  complete_mutation-replays k r b m cs j e d h waiting =
      let row : MutationRow Blob = record m { completed = true; response = some b } in
      let found : lookup k (update k row j.mutations) ≡ some row =
        ground (arith, lookup-update k k row j.mutations) in
      rw (complete_mutation-done k r b m j h waiting e) (
        cached_answer k row r b
          (run_mutations cs (record j { mutations = update k row j.mutations }))
          (run_mutations_kept k row cs (record j { mutations = update k row j.mutations }) refl
            found)
          refl refl d)
