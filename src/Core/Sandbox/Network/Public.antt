-- ===== src/Core/Sandbox/Network/Public.antt =====
-- sandbox.rs: the public IPv6 addresses as the complement of a list of blocks.
use gobrowseos.Prelude.{
  ℕ, ◌+◌, ◌-◌, ◌*◌, ◌/◌, ◌^◌, ◌<◌, ◌≡◌, Bool, false, not, ◌&&◌, ◌||◌, List, [], ◌∷◌, any, leb, ltb,
  ◌==◌, arith,
}
use gobrowseos.Core.Sandbox.Network.{Ipv6Addr, is_public_v6, is_ipv4_mapped, first_five_zero}

pub record IsAddress (ip : Ipv6Addr) : Type 0 where
  pub s0_small : ip.s0 < 65536
  pub s1_small : ip.s1 < 65536
  pub s2_small : ip.s2 < 65536
  pub s3_small : ip.s3 < 65536
  pub s4_small : ip.s4 < 65536
  pub s5_small : ip.s5 < 65536
  pub s6_small : ip.s6 < 65536
  pub s7_small : ip.s7 < 65536

-- The address as a number of 128 bits.
abbrev pub to_number : Ipv6Addr → ℕ
to_number ip =
    ip.s0 * 5192296858534827628530496329220096
    + ip.s1 * 79228162514264337593543950336
    + ip.s2 * 1208925819614629174706176
    + ip.s3 * 18446744073709551616
    + ip.s4 * 281474976710656
    + ip.s5 * 4294967296
    + ip.s6 * 65536
    + ip.s7

-- A block in CIDR notation, `s0:s1::/prefix`, as its first address and its size.
pub record Block : Type 0 where
  pub first : ℕ
  pub size : ℕ

abbrev pub block : ℕ → ℕ → ℕ → Block
block s0 s1 prefix = record {
  first = s0 * 5192296858534827628530496329220096 + s1 * 79228162514264337593543950336;
  size = 2 ^ (128 - prefix);
}

-- `::ffff:0:0/96`.
abbrev pub mapped_block : Block
mapped_block = record { first = 281470681743360; size = 4294967296 }

abbrev pub in_block : ℕ → Block → Bool
in_block n b = leb b.first n && ltb n (b.first + b.size)

-- Mapped IPv4, multicast, unique local, link-local, site-local, compatible IPv4 with the
-- unspecified and the loopback address, NAT64, Teredo, 6to4 and documentation.
abbrev pub special_blocks : List Block
special_blocks =
    mapped_block
    ∷ block 65280 0 8
    ∷ block 64512 0 7
    ∷ block 65152 0 10
    ∷ block 65216 0 10
    ∷ block 0 0 96
    ∷ block 100 65435 32
    ∷ block 8193 0 32
    ∷ block 8194 0 16
    ∷ block 8193 3512 32
    ∷ []

-- The unspecified and the loopback address lie in the block of compatible IPv4 addresses.
absorb :
    (mapped five s5 s6 rest_zero one a b c d e f g i : Bool)
    → not (
        mapped
        || (((five && (s5 && s6)) && rest_zero)
            || (((five && (s5 && s6)) && one)
                || (a || (b || (c || (d || ((five && s5) || (e || (f || (g || i)))))))))))
      ≡ not (
          mapped || (a || (b || (c || (d || ((five && s5) || (e || (f || (g || (i || false))))))))))
absorb mapped five s5 s6 rest_zero one a b c d e f g i = ground arith

module _ (ip : Ipv6Addr) (h : IsAddress ip) where
  in_mapped : in_block (to_number ip) mapped_block ≡ is_ipv4_mapped ip
  in_mapped = ground (
    arith, h.s0_small, h.s1_small, h.s2_small, h.s3_small, h.s4_small, h.s5_small, h.s6_small,
    h.s7_small,
  )

  in_multicast : in_block (to_number ip) (block 65280 0 8) ≡ (ip.s0 / 256 == 255)
  in_multicast = ground (
    arith, h.s0_small, h.s1_small, h.s2_small, h.s3_small, h.s4_small, h.s5_small, h.s6_small,
    h.s7_small,
  )

  in_unique_local : in_block (to_number ip) (block 64512 0 7) ≡ (ip.s0 / 512 == 126)
  in_unique_local = ground (
    arith, h.s0_small, h.s1_small, h.s2_small, h.s3_small, h.s4_small, h.s5_small, h.s6_small,
    h.s7_small,
  )

  in_link_local : in_block (to_number ip) (block 65152 0 10) ≡ (ip.s0 / 64 == 1018)
  in_link_local = ground (
    arith, h.s0_small, h.s1_small, h.s2_small, h.s3_small, h.s4_small, h.s5_small, h.s6_small,
    h.s7_small,
  )

  in_site_local : in_block (to_number ip) (block 65216 0 10) ≡ (ip.s0 / 64 == 1019)
  in_site_local = ground (
    arith, h.s0_small, h.s1_small, h.s2_small, h.s3_small, h.s4_small, h.s5_small, h.s6_small,
    h.s7_small,
  )

  in_compatible : in_block (to_number ip) (block 0 0 96) ≡ (first_five_zero ip && ip.s5 == 0)
  in_compatible = ground (
    arith, h.s0_small, h.s1_small, h.s2_small, h.s3_small, h.s4_small, h.s5_small, h.s6_small,
    h.s7_small,
  )

  in_nat64 : in_block (to_number ip) (block 100 65435 32) ≡ (ip.s0 == 100 && ip.s1 == 65435)
  in_nat64 = ground (
    arith, h.s0_small, h.s1_small, h.s2_small, h.s3_small, h.s4_small, h.s5_small, h.s6_small,
    h.s7_small,
  )

  in_teredo : in_block (to_number ip) (block 8193 0 32) ≡ (ip.s0 == 8193 && ip.s1 == 0)
  in_teredo = ground (
    arith, h.s0_small, h.s1_small, h.s2_small, h.s3_small, h.s4_small, h.s5_small, h.s6_small,
    h.s7_small,
  )

  in_six_to_four : in_block (to_number ip) (block 8194 0 16) ≡ (ip.s0 == 8194)
  in_six_to_four = ground (
    arith, h.s0_small, h.s1_small, h.s2_small, h.s3_small, h.s4_small, h.s5_small, h.s6_small,
    h.s7_small,
  )

  in_documentation : in_block (to_number ip) (block 8193 3512 32) ≡ (ip.s0 == 8193 && ip.s1 == 3512)
  in_documentation = ground (
    arith, h.s0_small, h.s1_small, h.s2_small, h.s3_small, h.s4_small, h.s5_small, h.s6_small,
    h.s7_small,
  )

  -- An address of eight segments counts as public exactly when it lies in none of the special-
  -- purpose blocks, read as ranges of 128-bit numbers.
  pub is_public_v6-blocks : is_public_v6 ip ≡ not (any (in_block (to_number ip)) special_blocks)
  unfolding is_public_v6
  is_public_v6-blocks =
      rw
        (
          in_mapped, in_multicast, in_unique_local, in_link_local, in_site_local, in_compatible,
          in_nat64, in_teredo, in_six_to_four, in_documentation,
        )
        (absorb (is_ipv4_mapped ip) (first_five_zero ip) (ip.s5 == 0) (ip.s6 == 0) (ip.s7 == 0)
          (ip.s7 == 1) (ip.s0 / 256 == 255) (ip.s0 / 512 == 126) (ip.s0 / 64 == 1018)
          (ip.s0 / 64 == 1019) (ip.s0 == 100 && ip.s1 == 65435) (ip.s0 == 8193 && ip.s1 == 0)
          (ip.s0 == 8194) (ip.s0 == 8193 && ip.s1 == 3512))
