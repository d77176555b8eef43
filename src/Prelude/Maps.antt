-- ===== src/Prelude/Maps.antt =====
-- A map keyed by numbers, as an association list: `HashMap<Uuid, V>` and SQL tables by key.
use Prim.Native.Nat.{ℕ, suc, ◌+◌, ◌<◌}
use mathlib.Core.Path.{◌≡◌, refl, ap}
use mathlib.Core.List.{List, [], ◌∷◌}
use mathlib.Core.Option.{Option, none, some}
use mathlib.Core.Logic.{◌⊎◌, inl}
use native.Mathlib.Omega.{arith}
use gobrowseos.Prelude.Tests.{◌==◌, if◌then◌else◌}
use gobrowseos.Prelude.Lists.{length}

abbrev pub Assoc {ℓ} : Type ℓ → Type ℓ
Assoc V = List (ℕ × V)

module _ {ℓ} {V : Type ℓ} where
  abbrev pub lookup : ℕ → Assoc V → Option V
  lookup k [] = none
  lookup k ((j, v) ∷ m) = if j == k then some v else lookup k m

  abbrev pub remove : ℕ → Assoc V → Assoc V
  remove k [] = []
  remove k ((j, v) ∷ m) = let rest = remove k m in if j == k then rest else (j, v) ∷ rest

  -- `insert` replaces what the key had.
  abbrev pub insert : ℕ → V → Assoc V → Assoc V
  insert k v m = (k, v) ∷ remove k m

  -- `get_mut` and an assignment: the value changes where it stands.
  abbrev pub update : ℕ → V → Assoc V → Assoc V
  update k v [] = []
  update k v ((j, w) ∷ m) = (j, if j == k then v else w) ∷ update k v m

  -- How often a key stands in the list: at most once in a map.
  abbrev pub key_occ : ℕ → Assoc V → ℕ
  key_occ k [] = 0
  key_occ k ((j, v) ∷ m) = (if j == k then 1 else 0) + key_occ k m

  pub lookup-remove :
      (k j : ℕ) (m : Assoc V) → lookup j (remove k m) ≡ (if k == j then none else lookup j m)
  lookup-remove k j [] = ground arith
  lookup-remove k j ((i, v) ∷ m) = ground (arith, lookup-remove k j m)

  pub lookup-insert :
      (k j : ℕ) (v : V) (m : Assoc V)
      → lookup j (insert k v m) ≡ (if k == j then some v else lookup j m)
  lookup-insert k j v m = ground (arith, lookup-remove k j m)

  pub key_occ-remove :
      (k j : ℕ) (m : Assoc V) → key_occ j (remove k m) ≡ (if k == j then 0 else key_occ j m)
  key_occ-remove k j [] = ground arith
  key_occ-remove k j ((i, v) ∷ m) = ground (arith, key_occ-remove k j m)

  pub length-remove : (k : ℕ) (m : Assoc V) → length (remove k m) + key_occ k m ≡ length m
  length-remove k [] = omega arith
  length-remove k ((i, v) ∷ m) = ground (arith, length-remove k m)

  pub length-update : (k : ℕ) (v : V) (m : Assoc V) → length (update k v m) ≡ length m
  length-update k v [] = refl
  length-update k v ((i, w) ∷ m) = ap suc (length-update k v m)

  pub key_occ-update : (k j : ℕ) (v : V) (m : Assoc V) → key_occ j (update k v m) ≡ key_occ j m
  key_occ-update k j v [] = refl
  key_occ-update k j v ((i, w) ∷ m) = omega (arith, key_occ-update k j v m)

  pub key_occ-none : (k : ℕ) (m : Assoc V) → lookup k m ≡ none → key_occ k m ≡ 0
  key_occ-none k [] h = refl
  key_occ-none k ((i, w) ∷ m) h = ground (arith, key_occ-none k m)

  pub key_occ-some : (k : ℕ) (m : Assoc V) (v : V) → lookup k m ≡ some v → 0 < key_occ k m
  key_occ-some k [] v h = cc
  key_occ-some k ((i, w) ∷ m) v h = ground (arith, key_occ-some k m v)

  -- What a lookup reads after an assignment: the new value, if the key was there.
  abbrev pub replaced : V → Option V → Option V
  replaced v none = none
  replaced v (some w) = some v

  pub lookup-update :
      (k j : ℕ) (v : V) (m : Assoc V)
      → lookup j (update k v m) ≡ (if k == j then replaced v (lookup j m) else lookup j m)
  lookup-update k j v [] = ground arith
  lookup-update k j v ((i, w) ∷ m) = ground (arith, lookup-update k j v m)

  -- 1 for a key that is there.
  abbrev pub is_there : Option V → ℕ
  is_there none = 0
  is_there (some v) = 1

  pub is_there-update :
      (k j : ℕ) (v : V) (m : Assoc V) → is_there (lookup j (update k v m)) ≡ is_there (lookup j m)
  is_there-update k j v [] = refl
  is_there-update k j v ((i, w) ∷ m) = ground (arith, is_there-update k j v m)

  -- What a lookup finds after a change is what was there, or what was put there.
  pub found_after-update :
      (k j : ℕ) (v w : V) (m : Assoc V)
      → lookup j (update k v m) ≡ some w
      → (lookup j m ≡ some w) ⊎ (w ≡ v)
  found_after-update k j v w [] h = inl h
  found_after-update k j v w ((i, u) ∷ m) h = ground (arith, lookup-update k j v ((i, u) ∷ m))

  pub found_after-insert :
      (k j : ℕ) (v w : V) (m : Assoc V)
      → lookup j (insert k v m) ≡ some w
      → (lookup j m ≡ some w) ⊎ (w ≡ v)
  found_after-insert k j v w m h = ground (arith, lookup-insert k j v m)

  pub found_after-remove :
      (k j : ℕ) (w : V) (m : Assoc V) → lookup j (remove k m) ≡ some w → lookup j m ≡ some w
  found_after-remove k j w m h = ground (arith, lookup-remove k j m)
