-- ===== src/Sandboxd/Replay.antt =====
-- crates/gobrowse-sandboxd/src/replay.rs: the bounded in-memory cache that makes a retried request
-- return the first response. A `Uuid` is the number of its 128 bits and a fingerprint that of its
-- 256 bits. A `Notify` handle is the entry that holds it: `complete` returns whether it notifies.
-- A call holds the mutex from end to end, so the calls of several tasks are a sequence of calls.
pub mod Invariant
pub mod Trace
pub mod Retries
mod Tests
use gobrowseos.Prelude.{
  ℕ, ◌+◌, Bool, true, false, ◌&&◌, Option, none, some, List, [], ◌∷◌, ◌++◌, ltb, not, ◌==◌,
  if◌then◌else◌, length, erase, Assoc, lookup, remove, insert, update,
}

pub data ReplayDecision {ℓ} (R : Type ℓ) : Type ℓ where
  execute : ReplayDecision R
  cached : R → ReplayDecision R
  wait : ReplayDecision R
  conflict : ReplayDecision R
  full : ReplayDecision R

pub data ReplayState {ℓ} (R : Type ℓ) : Type ℓ where
  pending : ReplayState R
  complete_with : R → ReplayState R

pub record ReplayEntry {ℓ} (R : Type ℓ) : Type ℓ where
  pub fingerprint : ℕ
  pub state : ReplayState R

pub record ReplayCache {ℓ} (R : Type ℓ) : Type ℓ where
  pub capacity : ℕ
  pub entries : Assoc (ReplayEntry R)
  pub order : List ℕ

module _ {ℓ} {R : Type ℓ} where
  unfoldable pub new : ℕ → Option (ReplayCache R)
  new capacity =
      if ltb 0 capacity
      then some (record { capacity = capacity; entries = []; order = [] })
      else none

  abbrev pub is_complete : ReplayState R → Bool
  is_complete pending = false
  is_complete (complete_with r) = true

  -- The test of `position`: the candidate has an entry, and it is complete.
  abbrev pub evictable : Option (ReplayEntry R) → Bool
  evictable none = false
  evictable (some e) = is_complete e.state

  -- `order.iter().position(..)` with the identifier at that place.
  abbrev pub victim : Assoc (ReplayEntry R) → List ℕ → Option ℕ
  victim m [] = none
  victim m (k ∷ ks) = let rest = victim m ks in if evictable (lookup k m) then some k else rest

  -- What `begin` answers where the identifier has an entry.
  abbrev pub decide_entry : ReplayEntry R → ℕ → ReplayDecision R
  decide_entry e fp =
      if not (e.fingerprint == fp)
      then conflict
      else elim e.state [ pending ↦ wait | complete_with r ↦ cached r ]

  abbrev pub reserve : ReplayCache R → ℕ → ℕ → ReplayCache R
  reserve c id fp = record c {
    entries = insert id (record { fingerprint = fp; state = pending }) c.entries;
    order = c.order ++ id ∷ [];
  }

  -- `order.remove(index)` and `entries.remove(&evicted)`. The first place of the identifier is
  -- its index, since `position` stopped there.
  abbrev pub evict : ReplayCache R → ℕ → ReplayCache R
  evict c k = record c { entries = remove k c.entries; order = erase k c.order }

  -- At capacity: the victim gives way, or the cache is full.
  abbrev pub displace : ReplayCache R → ℕ → ℕ → Option ℕ → ReplayCache R × ReplayDecision R
  displace c id fp none = (c, full)
  displace c id fp (some k) = (reserve (evict c k) id fp, execute)

  unfoldable pub begin_fresh : ReplayCache R → ℕ → ℕ → ReplayCache R × ReplayDecision R
  begin_fresh c id fp =
      if length c.entries == c.capacity
      then displace c id fp (victim c.entries c.order)
      else (reserve c id fp, execute)

  unfoldable pub begin : ReplayCache R → ℕ → ℕ → ReplayCache R × ReplayDecision R
  unfolding begin_fresh
  begin c id fp = elim (lookup id c.entries) [
    | none ↦ begin_fresh c id fp
    | some e ↦ (c, decide_entry e fp)
  ]

  -- A pending entry takes the response and its waiters are notified.
  abbrev pub store : ReplayCache R → ℕ → ℕ → R → ReplayState R → ReplayCache R × Bool
  store c id fp response (complete_with r) = (c, false)
  store c id fp response pending =
      let entry : ReplayEntry R = record { fingerprint = fp; state = complete_with response } in
      (record c { entries = update id entry c.entries }, true)

  unfoldable pub complete : ReplayCache R → ℕ → ℕ → R → ReplayCache R × Bool
  complete c id fp response = elim (lookup id c.entries) [
    | none ↦ (c, false)
    | some e ↦
        if not (e.fingerprint == fp) then (c, false) else store c id e.fingerprint response e.state
  ]
