-- ===== src/Sandboxd/Registry/Counts.antt =====
-- runtime.rs, `Registry`: how many sessions of the registry have not completed, in all and by workspace.
use gobrowseos.Prelude.{
  ℕ, ◌+◌, min, Bool-cases, inl, inr, ◌≤◌, ◌≡◌, refl, ◌∙◌, Bool, true, false, some, List, [], ◌∷◌,
  ◌++◌, arith, ltb, ◌==◌, if◌then◌else◌, length, Assoc, lookup, remove, key_occ, key_occ-remove,
}
use gobrowseos.Sandboxd.Registry.{Registered, expire, without}

abbrev pub has : ℕ → List ℕ → Bool
has k [] = false
has k (x ∷ xs) = let rest = has k xs in if x == k then true else rest

-- The sessions of a workspace that are not among the completed ones.
abbrev pub running_in : ℕ → List ℕ → Assoc Registered → ℕ
running_in w done [] = 0
running_in w done ((k, s) ∷ m) =
    (if has k done then 0 else if s.workspace_id == w then 1 else 0) + running_in w done m

abbrev pub running : List ℕ → Assoc Registered → ℕ
running done [] = 0
running done ((k, s) ∷ m) = (if has k done then 0 else 1) + running done m

pub running_in-le :
    (w : ℕ) (done : List ℕ) (m : Assoc Registered) → running_in w done m ≤ running done m
running_in-le w done [] = omega arith
running_in-le w done ((k, s) ∷ m) = ground (arith, running_in-le w done m)

-- A key that is not there counts for nothing.
pub remove-none : (k : ℕ) (m : Assoc Registered) → key_occ k m ≡ 0 → remove k m ≡ m
remove-none k [] h = refl
remove-none k ((j, s) ∷ m) h = ground (arith, remove-none k m)

-- Removing a session that has not completed.
pub running_in-remove :
    (w k : ℕ) (done : List ℕ) (m : Assoc Registered) (s : Registered)
    → key_occ k m ≤ 1
    → lookup k m ≡ some s
    → has k done ≡ false
    → running_in w done (remove k m) + (if s.workspace_id == w then 1 else 0) ≡ running_in w done m
running_in-remove w k done [] s u h f = cc
running_in-remove w k done ((j, t) ∷ m) s u h f =
    ground (arith, running_in-remove w k done m s, remove-none k m)

pub running-remove :
    (k : ℕ) (done : List ℕ) (m : Assoc Registered) (s : Registered)
    → key_occ k m ≤ 1
    → lookup k m ≡ some s
    → has k done ≡ false
    → running done (remove k m) + 1 ≡ running done m
running-remove k done [] s u h f = cc
running-remove k done ((j, t) ∷ m) s u h f =
    ground (arith, running-remove k done m s, remove-none k m)

has-append : (k x : ℕ) (xs : List ℕ) → has k (xs ++ x ∷ []) ≡ (if has k xs then true else x == k)
has-append k x [] = ground arith
has-append k x (y ∷ ys) = ground (arith, has-append k x ys)

has-without : (j k : ℕ) (xs : List ℕ) → has j (without k xs) ≡ (if j == k then false else has j xs)
has-without j k [] = ground arith
has-without j k (x ∷ xs) = ground (arith, has-without j k xs)

-- A key that is not there may be marked completed.
running_in-mark_none :
    (w k : ℕ) (done : List ℕ) (m : Assoc Registered)
    → key_occ k m ≡ 0
    → running_in w (done ++ k ∷ []) m ≡ running_in w done m
running_in-mark_none w k done [] h = refl
running_in-mark_none w k done ((j, s) ∷ m) h =
    ground (arith, running_in-mark_none w k done m, has-append j k done)

running-mark_none :
    (k : ℕ) (done : List ℕ) (m : Assoc Registered)
    → key_occ k m ≡ 0
    → running (done ++ k ∷ []) m ≡ running done m
running-mark_none k done [] h = refl
running-mark_none k done ((j, s) ∷ m) h =
    ground (arith, running-mark_none k done m, has-append j k done)

-- Marking a session completed.
pub running_in-mark :
    (w k : ℕ) (done : List ℕ) (m : Assoc Registered) (s : Registered)
    → key_occ k m ≤ 1
    → lookup k m ≡ some s
    → has k done ≡ false
    → running_in w (done ++ k ∷ []) m + (if s.workspace_id == w then 1 else 0) ≡ running_in w done m
running_in-mark w k done [] s u h f = cc
running_in-mark w k done ((j, t) ∷ m) s u h f =
    ground
      (arith, running_in-mark w k done m s, running_in-mark_none w k done m, has-append j k done)

pub running-mark :
    (k : ℕ) (done : List ℕ) (m : Assoc Registered) (s : Registered)
    → key_occ k m ≤ 1
    → lookup k m ≡ some s
    → has k done ≡ false
    → running (done ++ k ∷ []) m + 1 ≡ running done m
running-mark k done [] s u h f = cc
running-mark k done ((j, t) ∷ m) s u h f =
    ground (arith, running-mark k done m s, running-mark_none k done m, has-append j k done)

-- Forgetting a completed session.
running_in-forget :
    (w k : ℕ) (done : List ℕ) (m : Assoc Registered)
    → running_in w done (remove k m) ≡ running_in w (k ∷ done) m
running_in-forget w k done [] = refl
running_in-forget w k done ((j, t) ∷ m) = ground (arith, running_in-forget w k done m)

running-forget :
    (k : ℕ) (done : List ℕ) (m : Assoc Registered)
    → running done (remove k m) ≡ running (k ∷ done) m
running-forget k done [] = refl
running-forget k done ((j, t) ∷ m) = ground (arith, running-forget k done m)

-- What the loop that forgets the oldest completed sessions keeps.
pub expire_lem :
    (limit : ℕ) (done : List ℕ) (m : Assoc Registered)
    → let r = expire limit done m in
      ((w : ℕ) → running_in w r.1 r.0 ≡ running_in w done m)
      × (running r.1 r.0 ≡ running done m)
      × (length r.1 ≡ min limit (length done))
      × ((k : ℕ) → key_occ k r.0 ≤ key_occ k m)
unfolding expire
expire_lem limit [] m = (λ w. refl, refl, omega arith, λ k. omega arith)
expire_lem limit (x ∷ xs) m =
    let (counts, total, short, keys) = expire_lem limit xs (remove x m) in
    elim (Bool-cases (ltb limit (length (x ∷ xs)))) [
      | inl long ↦ rw long (
        λ w. counts w ∙ running_in-forget w x xs m,
        total ∙ running-forget x xs m,
        ground (arith, short),
        λ k. ground (arith, keys k, key_occ-remove x k m),
      )
      | inr fits ↦ rw fits (λ w. refl, refl, ground arith, λ k. omega arith)
    ]

-- Dropping a completed session by its key.
pub running_in-without :
    (w k : ℕ) (done : List ℕ) (m : Assoc Registered)
    → has k done ≡ true
    → running_in w (without k done) (remove k m) ≡ running_in w done m
running_in-without w k done [] h = refl
running_in-without w k done ((j, t) ∷ m) h =
    ground (arith, running_in-without w k done m, has-without j k done)

pub running-without :
    (k : ℕ) (done : List ℕ) (m : Assoc Registered)
    → has k done ≡ true
    → running (without k done) (remove k m) ≡ running done m
running-without k done [] h = refl
running-without k done ((j, t) ∷ m) h =
    ground (arith, running-without k done m, has-without j k done)
