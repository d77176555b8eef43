-- ===== src/Core/Sandbox/Network/Names.antt =====
-- sandbox.rs: the names and the attestations of restricted networks.
use gobrowseos.Prelude.{
  ℕ, zero, suc, ◌+◌, ◌<◌, ◌≡◌, ◌↔◌, refl, sym, ◌∙◌, ◌++◌, ◌≤◌, subst, Bool, true, false, ◌&&◌, ◌||◌,
  [], ◌∷◌, any, all, leb, ltb, ◌==◌, arith, length, ok,
}
use gobrowseos.Core.Sandbox.{Bytes}
use gobrowseos.Core.Sandbox.Network.{
  starts_with, restricted_prefix, is_reserved, to_ascii_lowercase, is_name_byte,
  valid_restricted_network_name, RestrictedNetworkAttestation, is_public_destination, validate,
}

first_byte : (b : ℕ) (bs : Bytes) → starts_with (b ∷ bs) restricted_prefix ≡ true → b ≡ 103
first_byte b bs h = ground arith

-- A name with the prefix is no reserved name.
unreserved :
    (name : Bytes)
    → starts_with name restricted_prefix ≡ true
    → is_reserved (to_ascii_lowercase name) ≡ false
unreserved [] h = absurd cc
unreserved (b ∷ bs) h =
    let first : b ≡ 103 = omega (arith, first_byte b bs h) in
    subst (λ x. is_reserved (to_ascii_lowercase (x ∷ bs)) ≡ false) (sym first) refl

-- The characters from `first` on.
abbrev pub characters : ℕ → ℕ → Bytes
characters first zero = []
characters first (suc count) = first ∷ characters (first + 1) count

-- The characters of a name: "0" to "9", "A" to "Z", "a" to "z", "-" and "_".
abbrev pub name_characters : Bytes
name_characters = characters 48 10 ++ characters 65 26 ++ characters 97 26 ++ 45 ∷ 95 ∷ []

any-characters :
    (b first count : ℕ)
    → any (λ c. b == c) (characters first count) ≡ (leb first b && ltb b (first + count))
any-characters b first zero = ground arith
any-characters b first (suc count) = ground (arith, any-characters b (first + 1) count)

any-append : (f : ℕ → Bool) (xs ys : Bytes) → any f (xs ++ ys) ≡ (any f xs || any f ys)
any-append f [] ys = refl
any-append f (x ∷ xs) ys = ground (arith, any-append f xs ys)

module _ (b : ℕ) where
  abbrev is_byte : ℕ → Bool
  is_byte c = b == c

  is_name_byte-listed : is_name_byte b ≡ any (λ c. b == c) name_characters
  is_name_byte-listed = sym (
      any-append is_byte (characters 48 10) (characters 65 26 ++ characters 97 26 ++ 45 ∷ 95 ∷ [])
      ∙ rw
          (
            any-characters b 48 10,
            any-append is_byte (characters 65 26) (characters 97 26 ++ 45 ∷ 95 ∷ []),
            any-characters b 65 26,
            any-append is_byte (characters 97 26) (45 ∷ 95 ∷ []),
            any-characters b 97 26,
          )
          (ground arith))

all-listed : (bs : Bytes) → all is_name_byte bs ≡ all (λ b. any (λ c. b == c) name_characters) bs
all-listed [] = refl
all-listed (b ∷ bs) = rw (is_name_byte-listed b, all-listed bs) refl

starts_with-append : (p rest : Bytes) → starts_with (p ++ rest) p ≡ true
starts_with-append [] rest = refl
starts_with-append (b ∷ p) rest = ground (arith, starts_with-append p rest)

starts_with-splits :
    (name p : Bytes) → starts_with name p ≡ true → (rest : Bytes) × (name ≡ p ++ rest)
starts_with-splits name [] h = (name, refl)
starts_with-splits [] (c ∷ p) h = absurd (ground arith)
starts_with-splits (b ∷ bs) (c ∷ p) h =
    let (rest, e) = starts_with-splits bs p (ground arith) in (rest, ground arith)

and_left : (a b : Bool) → (a && b) ≡ true → a ≡ true
and_left a b h = ground arith

valid-prefix :
    (name : Bytes)
    → valid_restricted_network_name name ≡ true
    → starts_with name restricted_prefix ≡ true
unfolding valid_restricted_network_name
valid-prefix name h = and_left (starts_with name restricted_prefix) _ h

-- What is accepted behind the prefix.
valid-after_prefix :
    (rest : Bytes)
    → valid_restricted_network_name (restricted_prefix ++ rest) ≡ (
        ltb 0 (length rest)
        && (leb (length rest) 108 && all (λ b. any (λ c. b == c) name_characters) rest))
unfolding valid_restricted_network_name
valid-after_prefix rest =
    rw (unreserved (restricted_prefix ++ rest) refl, sym (all-listed rest)) (ground arith)

-- A name is accepted exactly when it is "gobrowse-restricted-" with 1 to 108 further bytes, all of
-- them digits, letters of ASCII, dashes or underscores: the list of reserved names refuses no more.
pub valid_restricted_network_name_iff :
    (name : Bytes)
    → (valid_restricted_network_name name ≡ true) ↔ (
        (rest : Bytes) × (name
          ≡ 103 ∷ 111 ∷ 98 ∷ 114 ∷ 111 ∷ 119 ∷ 115 ∷ 101 ∷ 45 ∷ 114 ∷ 101 ∷ 115 ∷ 116 ∷ 114 ∷ 105
            ∷ 99 ∷ 116 ∷ 101 ∷ 100 ∷ 45 ∷ rest)
        × (0 < length rest)
        × (length rest ≤ 108)
        × (all (λ b. any (λ c. b == c) name_characters) rest ≡ true))
valid_restricted_network_name_iff name = (
  λ valid.
      let (rest, e) = starts_with-splits name restricted_prefix (valid-prefix name valid) in
      let accepted : valid_restricted_network_name (restricted_prefix ++ rest) ≡ true =
        subst (λ n. valid_restricted_network_name n ≡ true) e valid in
      let parts = sym (valid-after_prefix rest) ∙ accepted in
      (rest, e, ground arith, ground arith, ground arith),
  λ (rest, e, some_rest, short, listed).
      subst (λ n. valid_restricted_network_name n ≡ true) (sym e)
        (valid-after_prefix rest ∙ ground arith),
)

-- An attestation is accepted exactly when it names a restricted network, and its gateway and each
-- of its name servers is a public address, whatever its subnet is.
pub validate_iff :
    (a : RestrictedNetworkAttestation)
    → (validate a ≡ ok tt) ↔ (
        (valid_restricted_network_name a.network_name ≡ true)
        × (is_public_destination a.gateway ≡ true)
        × (all is_public_destination a.dns ≡ true))
unfolding validate
validate_iff a = ground arith
