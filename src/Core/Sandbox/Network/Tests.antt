-- ===== src/Core/Sandbox/Network/Tests.antt =====
-- Tests of the networks of sandbox.rs.
use gobrowseos.Prelude.{
  ◌≡◌, ◌<◌, ◌≤◌, ◌↔◌, ◌==◌, refl, true, not, ◌++◌, [], ◌∷◌, any, all, length, ok, arith,
}
use gobrowseos.Core.Sandbox.{Bytes, is_public_v4}
use gobrowseos.Core.Sandbox.Network.{
  Ipv6Addr, is_public_v6, v4, v6, is_public_destination, restricted_prefix,
  valid_restricted_network_name, RestrictedNetworkAttestation, validate,
}
use gobrowseos.Core.Sandbox.Network.Public.{
  IsAddress, to_number, in_block, special_blocks, is_public_v6-blocks,
}
use gobrowseos.Core.Sandbox.Network.Names.{name_characters, valid_restricted_network_name_iff}

-- 2001:4860:4860::8888.
abbrev public_address : Ipv6Addr
public_address = record {
  s0 = 8193;
  s1 = 18528;
  s2 = 18528;
  s3 = 0;
  s4 = 0;
  s5 = 0;
  s6 = 0;
  s7 = 34952;
}

public_address-IsAddress : IsAddress public_address
public_address-IsAddress = record {
  s0_small = omega arith;
  s1_small = omega arith;
  s2_small = omega arith;
  s3_small = omega arith;
  s4_small = omega arith;
  s5_small = omega arith;
  s6_small = omega arith;
  s7_small = omega arith;
}

is_public_v6_test : is_public_v6 public_address ≡ true
unfolding is_public_v6
is_public_v6_test = refl

is_public_v6-blocks_example :
    is_public_v6 public_address ≡ not (any (in_block (to_number public_address)) special_blocks)
is_public_v6-blocks_example = is_public_v6-blocks public_address public_address-IsAddress

-- "gobrowse-restricted-a".
abbrev network : Bytes
network = restricted_prefix ++ 97 ∷ []

valid_restricted_network_name_iff_example : (valid_restricted_network_name network ≡ true) ↔ (
    (rest : Bytes) × (network
      ≡ 103 ∷ 111 ∷ 98 ∷ 114 ∷ 111 ∷ 119 ∷ 115 ∷ 101 ∷ 45 ∷ 114 ∷ 101 ∷ 115 ∷ 116 ∷ 114 ∷ 105 ∷ 99
        ∷ 116 ∷ 101 ∷ 100 ∷ 45 ∷ rest)
    × (0 < length rest)
    × (length rest ≤ 108)
    × (all (λ b. any (λ c. b == c) name_characters) rest ≡ true))
valid_restricted_network_name_iff_example = valid_restricted_network_name_iff network

-- A private subnet.
abbrev attestation : RestrictedNetworkAttestation
attestation = record {
  network_name = network;
  subnet = v4 (record { a = 192; b = 168; c = 0; d = 0 });
  gateway = v6 public_address;
  dns = v4 (record { a = 8; b = 8; c = 8; d = 8 }) ∷ [];
}

private_subnet_accepted : validate attestation ≡ ok tt
unfolding validate valid_restricted_network_name is_public_destination is_public_v6 is_public_v4
private_subnet_accepted = refl
