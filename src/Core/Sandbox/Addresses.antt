-- ===== src/Core/Sandbox/Addresses.antt =====
-- sandbox.rs, `is_public_v4`: the public IPv4 addresses as the complement of a list of blocks.
use gobrowseos.Prelude.{
  ℕ, ◌+◌, ◌-◌, ◌*◌, ◌^◌, ◌<◌, ◌≡◌, refl, sym, ap, ◌∙◌, Bool, true, false, not, ◌&&◌, ◌||◌, List, [],
  ◌∷◌, any, leb, ltb, ◌==◌, arith,
}
use gobrowseos.Core.Sandbox.{Ipv4Addr, is_public_v4}

pub record IsAddress (ip : Ipv4Addr) : Type 0 where
  pub a_small : ip.a < 256
  pub b_small : ip.b < 256
  pub c_small : ip.c < 256
  pub d_small : ip.d < 256

-- The address as a number of 32 bits.
abbrev pub to_number : Ipv4Addr → ℕ
to_number ip = ip.a * 16777216 + ip.b * 65536 + ip.c * 256 + ip.d

-- A block in CIDR notation, `a.b.c.0/prefix`, as its first address and its size.
pub record Block : Type 0 where
  pub first : ℕ
  pub size : ℕ

abbrev pub block : ℕ → ℕ → ℕ → ℕ → Block
block a b c prefix = record { first = a * 16777216 + b * 65536 + c * 256; size = 2 ^ (32 - prefix) }

abbrev pub in_block : ℕ → Block → Bool
in_block n b = leb b.first n && ltb n (b.first + b.size)

-- The special-purpose blocks of RFC 6890, multicast and what is reserved.
abbrev pub special_blocks : List Block
special_blocks =
    block 0 0 0 8
    ∷ block 10 0 0 8
    ∷ block 127 0 0 8
    ∷ block 100 64 0 10
    ∷ block 169 254 0 16
    ∷ block 172 16 0 12
    ∷ block 192 0 0 24
    ∷ block 192 0 2 24
    ∷ block 192 168 0 16
    ∷ block 198 18 0 15
    ∷ block 198 51 100 24
    ∷ block 203 0 113 24
    ∷ block 224 0 0 3
    ∷ []

in_zero : (ip : Ipv4Addr) (h : IsAddress ip) → in_block (to_number ip) (block 0 0 0 8) ≡ (ip.a == 0)
in_zero ip h = ground (arith, h.a_small, h.b_small, h.c_small, h.d_small)

in_ten :
    (ip : Ipv4Addr) (h : IsAddress ip) → in_block (to_number ip) (block 10 0 0 8) ≡ (ip.a == 10)
in_ten ip h = ground (arith, h.a_small, h.b_small, h.c_small, h.d_small)

in_loopback :
    (ip : Ipv4Addr) (h : IsAddress ip) → in_block (to_number ip) (block 127 0 0 8) ≡ (ip.a == 127)
in_loopback ip h = ground (arith, h.a_small, h.b_small, h.c_small, h.d_small)

in_shared :
    (ip : Ipv4Addr) (h : IsAddress ip)
    → in_block (to_number ip) (block 100 64 0 10) ≡ (ip.a == 100 && (leb 64 ip.b && leb ip.b 127))
in_shared ip h = ground (arith, h.a_small, h.b_small, h.c_small, h.d_small)

in_link_local :
    (ip : Ipv4Addr) (h : IsAddress ip)
    → in_block (to_number ip) (block 169 254 0 16) ≡ (ip.a == 169 && ip.b == 254)
in_link_local ip h = ground (arith, h.a_small, h.b_small, h.c_small, h.d_small)

in_private_172 :
    (ip : Ipv4Addr) (h : IsAddress ip)
    → in_block (to_number ip) (block 172 16 0 12) ≡ (ip.a == 172 && (leb 16 ip.b && leb ip.b 31))
in_private_172 ip h = ground (arith, h.a_small, h.b_small, h.c_small, h.d_small)

in_protocol :
    (ip : Ipv4Addr) (h : IsAddress ip)
    → in_block (to_number ip) (block 192 0 0 24) ≡ (ip.a == 192 && (ip.b == 0 && ip.c == 0))
in_protocol ip h = ground (arith, h.a_small, h.b_small, h.c_small, h.d_small)

in_documentation_1 :
    (ip : Ipv4Addr) (h : IsAddress ip)
    → in_block (to_number ip) (block 192 0 2 24) ≡ (ip.a == 192 && (ip.b == 0 && ip.c == 2))
in_documentation_1 ip h = ground (arith, h.a_small, h.b_small, h.c_small, h.d_small)

in_private_192 :
    (ip : Ipv4Addr) (h : IsAddress ip)
    → in_block (to_number ip) (block 192 168 0 16) ≡ (ip.a == 192 && ip.b == 168)
in_private_192 ip h = ground (arith, h.a_small, h.b_small, h.c_small, h.d_small)

in_benchmark :
    (ip : Ipv4Addr) (h : IsAddress ip)
    → in_block (to_number ip) (block 198 18 0 15) ≡ (ip.a == 198 && (ip.b == 18 || ip.b == 19))
in_benchmark ip h = ground (arith, h.a_small, h.b_small, h.c_small, h.d_small)

in_documentation_2 :
    (ip : Ipv4Addr) (h : IsAddress ip)
    → in_block (to_number ip) (block 198 51 100 24) ≡ (ip.a == 198 && (ip.b == 51 && ip.c == 100))
in_documentation_2 ip h = ground (arith, h.a_small, h.b_small, h.c_small, h.d_small)

in_documentation_3 :
    (ip : Ipv4Addr) (h : IsAddress ip)
    → in_block (to_number ip) (block 203 0 113 24) ≡ (ip.a == 203 && (ip.b == 0 && ip.c == 113))
in_documentation_3 ip h = ground (arith, h.a_small, h.b_small, h.c_small, h.d_small)

in_multicast :
    (ip : Ipv4Addr) (h : IsAddress ip) → in_block (to_number ip) (block 224 0 0 3) ≡ (leb 224 ip.a)
in_multicast ip h = ground (arith, h.a_small, h.b_small, h.c_small, h.d_small)

or_eq : {a b c d : Bool} → a ≡ b → c ≡ d → (a || c) ≡ (b || d)
or_eq e f = rw (e, f) refl

or_false : (b : Bool) → (b || false) ≡ b
or_false true = refl
or_false false = refl

-- An address of four octets counts as public exactly when it lies in none of the special-purpose
-- blocks, read as ranges of 32-bit numbers.
pub is_public_v4-blocks :
    (ip : Ipv4Addr)
    → IsAddress ip
    → is_public_v4 ip ≡ not (any (in_block (to_number ip)) special_blocks)
unfolding is_public_v4
is_public_v4-blocks ip h = ap not (
    or_eq (sym (in_zero ip h)) (
      or_eq (sym (in_ten ip h)) (
        or_eq (sym (in_loopback ip h)) (
          or_eq (sym (in_shared ip h)) (
            or_eq (sym (in_link_local ip h)) (
              or_eq (sym (in_private_172 ip h)) (
                or_eq (sym (in_protocol ip h)) (
                  or_eq (sym (in_documentation_1 ip h)) (
                    or_eq (sym (in_private_192 ip h)) (
                      or_eq (sym (in_benchmark ip h)) (
                        or_eq (sym (in_documentation_2 ip h)) (
                          or_eq (sym (in_documentation_3 ip h)) (
                            sym (
                              or_false (in_block (to_number ip) (block 224 0 0 3))
                              ∙ in_multicast ip h))))))))))))))
