-- ===== src/Sandboxd/Replay/Retries.antt =====
-- replay.rs: the response that a replay cache holds for one request.
use gobrowseos.Prelude.{
  ℕ, ◌≡◌, refl, sym, subst, Option, none, some, arith, ◌==◌, ◌⊎◌, ==_iff, if◌then◌else◌, inl, inr,
  lookup, lookup-remove, lookup-update, Option-cases, Bool-cases, length,
}
use gobrowseos.Sandboxd.Replay.{
  ReplayCache, ReplayEntry, ReplayState, pending, complete_with, execute, cached, wait, victim,
  reserve, evict, displace, begin_fresh, begin, store, complete,
}

module _ {ℓ} {R : Type ℓ} where
  abbrev pub response_of : ReplayState R → Option R
  response_of pending = none
  response_of (complete_with r) = some r

  abbrev pub held : ℕ → Option (ReplayEntry R) → Option R
  held fp none = none
  held fp (some e) = if e.fingerprint == fp then response_of e.state else none

  -- The response that is held for an identifier under a fingerprint.
  abbrev pub held_for : ℕ → ℕ → ReplayCache R → Option R
  held_for k fp c = held fp (lookup k c.entries)

  held_for-reserve :
      (c : ReplayCache R) (id fp' k fp : ℕ) (r : R)
      → held_for k fp (reserve c id fp') ≡ some r
      → held_for k fp c ≡ some r
  held_for-reserve c id fp' k fp r h = ground (arith, lookup-remove id k c.entries)

  held_for-evict :
      (c : ReplayCache R) (j k fp : ℕ) (r : R)
      → held_for k fp (evict c j) ≡ some r
      → held_for k fp c ≡ some r
  held_for-evict c j k fp r h = ground (arith, lookup-remove j k c.entries)

  displace_held :
      (c : ReplayCache R) (id fp' k fp : ℕ) (r : R) (o : Option ℕ)
      → held_for k fp (displace c id fp' o).0 ≡ some r
      → held_for k fp c ≡ some r
  displace_held c id fp' k fp r none h = h
  displace_held c id fp' k fp r (some j) h =
      held_for-evict c j k fp r (held_for-reserve (evict c j) id fp' k fp r h)

  begin_fresh_held :
      (c : ReplayCache R) (id fp' k fp : ℕ) (r : R)
      → held_for k fp (begin_fresh c id fp').0 ≡ some r
      → held_for k fp c ≡ some r
  unfolding begin_fresh
  begin_fresh_held c id fp' k fp r = elim (Bool-cases (length c.entries == c.capacity)) [
    | inl e ↦ rw e (displace_held c id fp' k fp r (victim c.entries c.order))
    | inr e ↦ rw e (held_for-reserve c id fp' k fp r)
  ]

  -- What is held after a request was held before it.
  pub begin_held :
      (c : ReplayCache R) (id fp' k fp : ℕ) (r : R)
      → held_for k fp (begin c id fp').0 ≡ some r
      → held_for k fp c ≡ some r
  unfolding begin
  begin_held c id fp' k fp r = elim (Option-cases (lookup id c.entries)) [
    | inl fresh ↦ rw (fresh, begin) (begin_fresh_held c id fp' k fp r)
    | inr (e, found) ↦ rw (found, begin) (λ h. h)
  ]

  -- It answers what is held for it.
  pub begin-cached :
      (c : ReplayCache R) (k fp : ℕ) (r : R)
      → (begin c k fp).1 ≡ cached r
      → held_for k fp c ≡ some r
  unfolding begin begin_fresh
  begin-cached c k fp r h = ground arith

  store_held :
      (c : ReplayCache R) (id fp' k fp : ℕ) (r r' : R) (s : ReplayState R)
      → held_for k fp (store c id fp' r s).0 ≡ some r'
      → (held_for k fp c ≡ some r') ⊎ ((id ≡ k) × (fp' ≡ fp) × (r' ≡ r))
  store_held c id fp' k fp r r' (complete_with _) h = inl h
  store_held c id fp' k fp r r' pending h =
      let entry : ReplayEntry R = record { fingerprint = fp'; state = complete_with r } in
      ground (arith, lookup-update id k entry c.entries)

  -- What is held after a response is stored is that response, or was held before.
  pub complete_held :
      (c : ReplayCache R) (id fp' k fp : ℕ) (r r' : R)
      → held_for k fp (complete c id fp' r).0 ≡ some r'
      → (held_for k fp c ≡ some r') ⊎ ((id ≡ k) × (fp' ≡ fp) × (r' ≡ r))
  unfolding complete
  complete_held c id fp' k fp r r' = elim (Option-cases (lookup id c.entries)) [
    | inl absent ↦ rw (absent, complete) inl
    | inr (e, found) ↦
        rw (found, complete)
          (elim (Bool-cases (e.fingerprint == fp')) [
            | inr differs ↦ rw differs inl
            | inl agrees ↦
                rw (agrees, (==_iff e.fingerprint fp').0 agrees)
                  (store_held c id fp' k fp r r' e.state)
          ])
  ]

  reserved_waits :
      (c : ReplayCache R) (k fp : ℕ) → begin (reserve c k fp) k fp ≡ (reserve c k fp, wait)
  unfolding begin
  reserved_waits c k fp =
      let entry : ReplayEntry R = record { fingerprint = fp; state = pending } in
      let found : lookup k (reserve c k fp).entries ≡ some entry = ground arith in
      rw (found, begin) (ground arith)

  displaced_waits :
      (c : ReplayCache R) (k fp : ℕ) (o : Option ℕ)
      → (displace c k fp o).1 ≡ execute
      → begin (displace c k fp o).0 k fp ≡ ((displace c k fp o).0, wait)
  displaced_waits c k fp none h = absurd cc
  displaced_waits c k fp (some j) h = reserved_waits (evict c j) k fp

  begin_fresh_waits :
      (c : ReplayCache R) (k fp : ℕ)
      → (begin_fresh c k fp).1 ≡ execute
      → begin (begin_fresh c k fp).0 k fp ≡ ((begin_fresh c k fp).0, wait)
  unfolding begin_fresh
  begin_fresh_waits c k fp = elim (Bool-cases (length c.entries == c.capacity)) [
    | inl e ↦ rw e (displaced_waits c k fp (victim c.entries c.order))
    | inr e ↦ rw e (λ h. reserved_waits c k fp)
  ]

  begin_at :
      (c : ReplayCache R) (k fp : ℕ) → lookup k c.entries ≡ none → begin c k fp ≡ begin_fresh c k fp
  unfolding begin
  begin_at c k fp fresh = rw (fresh, begin) refl

  begin_found :
      (c : ReplayCache R) (k fp : ℕ) (e : ReplayEntry R)
      → lookup k c.entries ≡ some e
      → (begin c k fp).1 ≡ execute
      → ⊥
  unfolding begin
  begin_found c k fp e found h = ground arith

  -- A request that is told to execute waits when it is asked again at once.
  pub begin_waits :
      (c : ReplayCache R) (k fp : ℕ)
      → (begin c k fp).1 ≡ execute
      → begin (begin c k fp).0 k fp ≡ ((begin c k fp).0, wait)
  begin_waits c k fp h = elim (Option-cases (lookup k c.entries)) [
    | inl fresh ↦
        subst (λ x. x.1 ≡ execute → begin x.0 k fp ≡ (x.0, wait)) (sym (begin_at c k fp fresh))
          (begin_fresh_waits c k fp) h
    | inr (e, found) ↦ absurd (begin_found c k fp e found h)
  ]
