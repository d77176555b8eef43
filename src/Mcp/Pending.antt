-- ===== src/Mcp/Pending.antt =====
-- crates/gobrowse-core/src/mcp/lifecycle.rs: the `BTreeSet<PendingKey>` of requests in flight, as a
-- list in the order of its keys. `PendingToken` has the same two fields.
use gobrowseos.Prelude.{
  ℕ, suc, ◌+◌, ◌≡◌, ◌≤◌, refl, ap, pos, negsuc, Bool, true, false, List, [], ◌∷◌, arith, length,
  All, any, compare, Ordering, if◌then◌else◌, then_with, is_eq, Bool-cases, inl, inr,
}
use package.text.Mathlib.TextEquality.{eq_iff}
use gobrowseos.Mcp.Wire.{RequestId, number, text, id_compare}

pub record PendingKey : Type 0 where
  pub generation : ℕ
  pub id : RequestId

-- The derived order: by generation, then by identifier.
unfoldable pub key_compare : PendingKey → PendingKey → Ordering
key_compare a b = then_with (compare a.generation b.generation) (id_compare a.id b.id)

unfoldable pub same_key : PendingKey → PendingKey → Bool
same_key a b = is_eq (key_compare a b)

abbrev pub contains : PendingKey → List PendingKey → Bool
contains k = any (same_key k)

-- Where a key goes, by its order with the first one.
abbrev pub place :
    Ordering → PendingKey → PendingKey → List PendingKey → List PendingKey → List PendingKey
place Ordering.lt k x xs rest = k ∷ x ∷ xs
place Ordering.eq k x xs rest = x ∷ xs
place Ordering.gt k x xs rest = x ∷ rest

unfoldable pub insert_key : PendingKey → List PendingKey → List PendingKey
insert_key k [] = k ∷ []
insert_key k (x ∷ xs) = place (key_compare k x) k x xs (insert_key k xs)

unfoldable pub remove_key : PendingKey → List PendingKey → List PendingKey
remove_key k [] = []
remove_key k (x ∷ xs) = let rest = x ∷ remove_key k xs in if same_key k x then xs else rest

-- A new key makes the set one larger.
pub length-insert_key :
    (k : PendingKey) (xs : List PendingKey)
    → contains k xs ≡ false
    → length (insert_key k xs) ≡ suc (length xs)
unfolding insert_key same_key
length-insert_key k [] h = refl
length-insert_key k (x ∷ xs) h = ground (arith, length-insert_key k xs)

pub length-insert_key_le :
    (k : PendingKey) (xs : List PendingKey) → length (insert_key k xs) ≤ suc (length xs)
unfolding insert_key
length-insert_key_le k [] = omega arith
length-insert_key_le k (x ∷ xs) = ground (arith, length-insert_key_le k xs)

pub length-remove_key :
    (k : PendingKey) (xs : List PendingKey)
    → length (remove_key k xs) + (if contains k xs then 1 else 0) ≡ length xs
unfolding remove_key
length-remove_key k [] = refl
length-remove_key k (x ∷ xs) = ground (arith, length-remove_key k xs)

All-place :
    (P : PendingKey → Type 0) (o : Ordering) (k x : PendingKey) (xs rest : List PendingKey)
    → P k
    → All P (x ∷ xs)
    → All P rest
    → All P (place o k x xs rest)
All-place P Ordering.lt k x xs rest p h r = (p, h)
All-place P Ordering.eq k x xs rest p h r = h
All-place P Ordering.gt k x xs rest p h r = (h.0, r)

pub All-insert_key :
    (P : PendingKey → Type 0) (k : PendingKey) (xs : List PendingKey)
    → P k
    → All P xs
    → All P (insert_key k xs)
unfolding insert_key
All-insert_key P k [] p h = (p, tt)
All-insert_key P k (x ∷ xs) p h =
    All-place P (key_compare k x) k x xs (insert_key k xs) p h (All-insert_key P k xs p h.1)

pub All-remove_key :
    (P : PendingKey → Type 0) (k : PendingKey) (xs : List PendingKey)
    → All P xs
    → All P (remove_key k xs)
unfolding remove_key
All-remove_key P k [] h = tt
All-remove_key P k (x ∷ xs) h = elim (Bool-cases (same_key k x)) [
  | inl found ↦ rw found h.1
  | inr passed ↦ rw passed (h.0, All-remove_key P k xs h.1)
]

-- A key that differs from all in the set is not in it.
pub contains-All :
    (P : PendingKey → Type 0) (k : PendingKey) (xs : List PendingKey)
    → ((x : PendingKey) → P x → same_key k x ≡ false)
    → All P xs
    → contains k xs ≡ false
contains-All P k [] differs h = refl
contains-All P k (x ∷ xs) differs h = rw (differs x h.0) (contains-All P k xs differs h.1)

pub same_id_sound : (i j : RequestId) → is_eq (id_compare i j) ≡ true → i ≡ j
same_id_sound (number (pos a)) (number (pos b)) h = ground arith
same_id_sound (number (pos a)) (number (negsuc b)) h = absurd (ground arith)
same_id_sound (number (negsuc a)) (number (pos b)) h = absurd (ground arith)
same_id_sound (number (negsuc a)) (number (negsuc b)) h = ground arith
same_id_sound (number a) (text b) h = absurd cc
same_id_sound (text a) (number b) h = absurd cc
same_id_sound (text a) (text b) h = ap text ((eq_iff a b).0 (ground arith))

pub same_key_sound : (a b : PendingKey) → same_key a b ≡ true → a ≡ b
unfolding same_key key_compare
same_key_sound a b h =
    let generation : a.generation ≡ b.generation = ground arith in
    let id : a.id ≡ b.id = same_id_sound a.id b.id (ground arith) in
    λ i. record { generation = generation i; id = id i }

-- How often a request is in a list.
abbrev pub occ_key : PendingKey → List PendingKey → ℕ
occ_key k [] = 0
occ_key k (x ∷ xs) = (if same_key k x then 1 else 0) + occ_key k xs

occ_key-contains :
    (t : PendingKey) (xs : List PendingKey) → contains t xs ≡ false → occ_key t xs ≡ 0
occ_key-contains t [] h = refl
occ_key-contains t (x ∷ xs) h = ground (arith, occ_key-contains t xs)

occ_key-place :
    (k t x : PendingKey) (xs : List PendingKey) (o : Ordering)
    → key_compare t x ≡ o
    → contains t (x ∷ xs) ≡ false
    → (contains t xs ≡ false
        → occ_key k (insert_key t xs) ≡ (if same_key k t then 1 else 0) + occ_key k xs)
    → occ_key k (place o t x xs (insert_key t xs))
      ≡ (if same_key k t then 1 else 0) + occ_key k (x ∷ xs)
unfolding same_key
occ_key-place k t x xs Ordering.lt e h next = refl
occ_key-place k t x xs Ordering.eq e h next = absurd (ground arith)
occ_key-place k t x xs Ordering.gt e h next = omega (arith, next (ground arith))

-- A new key is in the set once more, and no other key is.
pub occ_key-insert_key :
    (k t : PendingKey) (xs : List PendingKey)
    → contains t xs ≡ false
    → occ_key k (insert_key t xs) ≡ (if same_key k t then 1 else 0) + occ_key k xs
unfolding insert_key
occ_key-insert_key k t [] h = refl
occ_key-insert_key k t (x ∷ xs) h =
    occ_key-place k t x xs (key_compare t x) refl h (λ other. occ_key-insert_key k t xs other)

-- Only the key that is removed is in the set once less.
pub occ_key-remove_key :
    (k t : PendingKey) (xs : List PendingKey)
    → contains t xs ≡ true
    → occ_key k (remove_key t xs) + (if same_key k t then 1 else 0) ≡ occ_key k xs
unfolding remove_key
occ_key-remove_key k t [] h = absurd cc
occ_key-remove_key k t (x ∷ xs) h = elim (Bool-cases (same_key t x)) [
  | inl found ↦ rw found (rw (same_key_sound t x found) (omega arith))
  | inr passed ↦ rw passed (ground (arith, occ_key-remove_key k t xs (ground arith)))
]

-- A key that is the same as one outside the set is not in the set.
pub occ_key-absent :
    (k t : PendingKey) (xs : List PendingKey)
    → contains t xs ≡ false
    → same_key k t ≡ true
    → occ_key k xs ≡ 0
occ_key-absent k t xs h same = rw (same_key_sound k t same) (occ_key-contains t xs h)
