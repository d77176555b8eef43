-- ===== src/Sandboxd/Replay/Invariant.antt =====
-- replay.rs: the well-formedness of a replay cache.
use gobrowseos.Prelude.{
  ℕ, suc, ◌+◌, ◌≤◌, ◌<◌, ◌≡◌, refl, true, false, Option, none, some, List, [], ◌∷◌, ◌++◌, arith,
  ◌==◌, if◌then◌else◌, length, occ, occ-append, erase, Assoc, lookup, lookup-remove, key_occ,
  key_occ-remove, key_occ-update, length-remove, length-update, key_occ-none, key_occ-some,
  Option-cases, All, ◌↔◌, ap, inl, inr, Bool-cases,
}
use gobrowseos.Sandboxd.Replay.{
  ReplayCache, ReplayEntry, pending, complete_with, new, victim, evictable, reserve, displace,
  evict, begin_fresh, begin, store, complete, ReplayState, full,
}

-- Every entry stands in the order once, the order holds nothing else, and the entries fit.
pub record IsValid {ℓ} {R : Type ℓ} (c : ReplayCache R) : Type ℓ where
  pub positive : 0 < c.capacity
  pub bounded : length c.entries ≤ c.capacity
  pub ordered : (k : ℕ) → occ k c.order ≡ key_occ k c.entries
  pub once : (k : ℕ) → key_occ k c.entries ≤ 1

occ-erase :
    (k j : ℕ) (xs : List ℕ)
    → 0 < occ k xs
    → occ j (erase k xs) + (if k == j then 1 else 0) ≡ occ j xs
occ-erase k j [] h = absurd (omega arith)
occ-erase k j (x ∷ xs) h = ground (arith, occ-erase k j xs)

module _ {ℓ} {R : Type ℓ} where
  pub new-IsValid : (n : ℕ) (c : ReplayCache R) → new n ≡ some c → IsValid c
  unfolding new
  new-IsValid n c h = record {
    positive = ground arith;
    bounded = ground arith;
    ordered = λ k. ground arith;
    once = λ k. ground arith;
  }

  pub reserve-IsValid :
      (c : ReplayCache R) (id fp : ℕ)
      → IsValid c
      → length c.entries < c.capacity
      → lookup id c.entries ≡ none
      → IsValid (reserve c id fp)
  reserve-IsValid c id fp v room fresh = record {
    positive = v.positive;
    bounded = omega (arith, length-remove id c.entries);
    ordered = λ k. ground (
      arith,
      v.ordered k,
      occ-append k c.order (id ∷ []),
      key_occ-remove id k c.entries,
      key_occ-none id c.entries fresh,
    );
    once = λ k. ground (arith, v.once k, key_occ-remove id k c.entries);
  }

  pub victim-evictable :
      (m : Assoc (ReplayEntry R)) (ks : List ℕ) (k : ℕ)
      → victim m ks ≡ some k
      → (evictable (lookup k m) ≡ true)
  victim-evictable m [] k h = cc
  victim-evictable m (x ∷ ks) k h = ground (arith, victim-evictable m ks k)

  pub evict-IsValid :
      (c : ReplayCache R) (k : ℕ) (e : ReplayEntry R)
      → IsValid c
      → lookup k c.entries ≡ some e
      → IsValid (evict c k) × (suc (length (evict c k).entries) ≡ length c.entries)
  evict-IsValid c k e v h = (
    record {
      positive = v.positive;
      bounded = omega (arith, length-remove k c.entries, v.bounded);
      ordered = λ j. ground (
        arith,
        v.ordered j,
        v.ordered k,
        v.once k,
        occ-erase k j c.order,
        key_occ-remove k j c.entries,
        key_occ-some k c.entries e h,
      );
      once = λ j. ground (arith, v.once j, key_occ-remove k j c.entries);
    },
    omega (arith, length-remove k c.entries, v.once k, key_occ-some k c.entries e h),
  )

  -- A victim has an entry.
  pub evictable-some :
      (o : Option (ReplayEntry R)) → evictable o ≡ true → (e : ReplayEntry R) × (o ≡ some e)
  evictable-some none h = cc
  evictable-some (some e) h = (e, refl)

  pub lookup-evict-none :
      (c : ReplayCache R) (k id : ℕ)
      → lookup id c.entries ≡ none
      → lookup id (evict c k).entries ≡ none
  lookup-evict-none c k id h = ground (arith, lookup-remove k id c.entries)

  displace-IsValid :
      (c : ReplayCache R) (id fp : ℕ) (o : Option ℕ)
      → IsValid c
      → lookup id c.entries ≡ none
      → victim c.entries c.order ≡ o
      → IsValid (displace c id fp o).0
  displace-IsValid c id fp none v fresh h = v
  displace-IsValid c id fp (some k) v fresh h =
      let found = victim-evictable c.entries c.order k h in
      let (e, held) = evictable-some (lookup k c.entries) found in
      let (v', smaller) = evict-IsValid c k e v held in
      reserve-IsValid (evict c k) id fp v' (omega arith) (lookup-evict-none c k id fresh)

  begin_fresh-IsValid :
      (c : ReplayCache R) (id fp : ℕ)
      → IsValid c
      → lookup id c.entries ≡ none
      → IsValid (begin_fresh c id fp).0
  unfolding begin_fresh
  begin_fresh-IsValid c id fp v fresh = elim (Bool-cases (length c.entries == c.capacity)) [
    | inr room ↦ rw room (reserve-IsValid c id fp v (ground (arith, v.bounded)) fresh)
    | inl at_capacity ↦
        rw at_capacity (displace-IsValid c id fp (victim c.entries c.order) v fresh refl)
  ]

  -- A request keeps a well-formed cache well formed, whatever is answered: the eviction queue
  -- lists exactly the cached identifiers, each once, and the entries never pass the capacity.
  pub begin-IsValid : (c : ReplayCache R) (id fp : ℕ) → IsValid c → IsValid (begin c id fp).0
  unfolding begin
  begin-IsValid c id fp v = elim (Option-cases (lookup id c.entries)) [
    | inl fresh ↦ rw (fresh, begin) (begin_fresh-IsValid c id fp v fresh)
    | inr (e, held) ↦ rw (held, begin) v
  ]

  store-IsValid :
      (c : ReplayCache R) (id fp : ℕ) (r : R) (s : ReplayState R)
      → IsValid c
      → IsValid (store c id fp r s).0
  store-IsValid c id fp r (complete_with r') v = v
  store-IsValid c id fp r pending v =
      let entry : ReplayEntry R = record { fingerprint = fp; state = complete_with r } in
      record {
        positive = v.positive;
        bounded = omega (arith, length-update id entry c.entries, v.bounded);
        ordered = λ k. omega (arith, v.ordered k, key_occ-update id k entry c.entries);
        once = λ k. omega (arith, v.once k, key_occ-update id k entry c.entries);
      }

  -- `complete` keeps a well-formed cache well formed, whether or not it stores the response.
  pub complete-IsValid :
      (c : ReplayCache R) (id fp : ℕ) (r : R) → IsValid c → IsValid (complete c id fp r).0
  unfolding complete
  complete-IsValid c id fp r v = elim (Option-cases (lookup id c.entries)) [
    | inl absent ↦ rw (absent, complete) v
    | inr (e, held) ↦
        rw (held, complete)
          (elim (Bool-cases (e.fingerprint == fp)) [
            | inr differs ↦ rw differs v
            | inl agrees ↦ rw agrees (store-IsValid c id e.fingerprint r e.state v)
          ])
  ]

  -- No victim: nothing that the order lists can be evicted.
  victim-none :
      (m : Assoc (ReplayEntry R)) (ks : List ℕ) (k : ℕ)
      → victim m ks ≡ none
      → 0 < occ k ks
      → evictable (lookup k m) ≡ false
  victim-none m [] k h o = absurd (omega arith)
  victim-none m (x ∷ ks) k h o = ground (arith, victim-none m ks k)

  -- The entry chosen for eviction is the oldest one that can be evicted: none of those before it
  -- in the queue can be.
  pub victim_oldest :
      (m : Assoc (ReplayEntry R)) (ks : List ℕ) (k : ℕ)
      → victim m ks ≡ some k
      → (older : List ℕ) × (newer : List ℕ) × (ks ≡ older ++ k ∷ newer)
        × All (λ j. evictable (lookup j m) ≡ false) older
  victim_oldest m [] k h = cc
  victim_oldest m (x ∷ ks) k h = elim (Bool-cases (evictable (lookup x m))) [
    | inl found ↦ ([], ks, ground arith, tt)
    | inr passed ↦
        let (older, newer, split, kept) = victim_oldest m ks k (ground arith) in
        (x ∷ older, newer, ap (λ l. x ∷ l) split, (passed, kept))
  ]

  begin-full_shape :
      (c : ReplayCache R) (id fp : ℕ)
      → (begin c id fp).1 ≡ full
      → (lookup id c.entries ≡ none)
        × (length c.entries ≡ c.capacity)
        × (victim c.entries c.order ≡ none)
  unfolding begin
  begin-full_shape c id fp h = ground arith

  begin-full_of_shape :
      (c : ReplayCache R) (id fp : ℕ)
      → lookup id c.entries ≡ none
      → length c.entries ≡ c.capacity
      → victim c.entries c.order ≡ none
      → (begin c id fp).1 ≡ full
  unfolding begin
  begin-full_of_shape c id fp p q r = ground arith

  pending_of_stuck : (e : ReplayEntry R) → evictable (some e) ≡ false → e.state ≡ pending
  pending_of_stuck e h = ground arith

  victim_absent :
      (c : ReplayCache R) (o : Option ℕ)
      → ((k : ℕ) (e : ReplayEntry R) → lookup k c.entries ≡ some e → e.state ≡ pending)
      → victim c.entries c.order ≡ o
      → o ≡ none
  victim_absent c none busy h = refl
  victim_absent c (some k) busy h =
      let found = victim-evictable c.entries c.order k h in
      let (e, held) = evictable-some (lookup k c.entries) found in
      ground (arith, busy k e held, found, held)

  -- A well-formed cache answers that it is full exactly where the identifier has no entry, the
  -- entries are at the capacity, and every one of them is pending.
  pub begin-full_iff :
      (c : ReplayCache R) (id fp : ℕ)
      → IsValid c
      → (begin c id fp).1 ≡ full ↔ (
          (lookup id c.entries ≡ none)
          × (length c.entries ≡ c.capacity)
          × ((k : ℕ) (e : ReplayEntry R) → lookup k c.entries ≡ some e → e.state ≡ pending))
  begin-full_iff c id fp v = (
    λ h.
        let (fresh, at_capacity, unmoved) = begin-full_shape c id fp h in
        (
          fresh,
          at_capacity,
          λ k e held. pending_of_stuck e (
              rw held at (
                victim-none c.entries c.order k unmoved
                  (omega (arith, v.ordered k, key_occ-some k c.entries e held)))),
        ),
    λ h. begin-full_of_shape c id fp h.0 h.1 (victim_absent c (victim c.entries c.order) h.2 refl),
  )
