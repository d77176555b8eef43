-- ===== src/Core/Sandbox/Network.antt =====
-- crates/gobrowse-core/src/sandbox.rs: IPv6 addresses, the names of restricted networks and what is
-- attested of such a network.
pub mod Public
pub mod Names
mod Tests
use gobrowseos.Prelude.{
  ℕ, ◌+◌, ◌/◌, Bool, true, false, not, ◌&&◌, ◌||◌, List, [], ◌∷◌, any, all, take, leb, ltb, ◌==◌,
  length, Result, ok, err, if◌then◌else◌,
}
use gobrowseos.Core.Sandbox.{Bytes, Ipv4Addr, is_public_v4, SandboxValidationError, invalid_network}

pub data NetworkPolicy : Type 0 where
  no_network restricted full : NetworkPolicy

-- The eight segments of an address.
pub record Ipv6Addr : Type 0 where
  pub s0 : ℕ
  pub s1 : ℕ
  pub s2 : ℕ
  pub s3 : ℕ
  pub s4 : ℕ
  pub s5 : ℕ
  pub s6 : ℕ
  pub s7 : ℕ

abbrev pub first_five_zero : Ipv6Addr → Bool
first_five_zero ip = ip.s0 == 0 && (ip.s1 == 0 && (ip.s2 == 0 && (ip.s3 == 0 && ip.s4 == 0)))

abbrev pub is_ipv4_mapped : Ipv6Addr → Bool
is_ipv4_mapped ip = first_five_zero ip && ip.s5 == 65535

abbrev pub first_seven_zero : Ipv6Addr → Bool
first_seven_zero ip = first_five_zero ip && (ip.s5 == 0 && ip.s6 == 0)

-- A mask with the upper bits of a segment is a quotient by a power of two: `0xfe00` leaves the
-- upper 7 bits, `0xffc0` the upper 10 and `0xff00` the upper 8.
unfoldable pub is_public_v6 : Ipv6Addr → Bool
is_public_v6 ip = not (
    is_ipv4_mapped ip
    || ((first_seven_zero ip && ip.s7 == 0)
        || ((first_seven_zero ip && ip.s7 == 1)
            || (ip.s0 / 256 == 255
                || (ip.s0 / 512 == 126
                    || (ip.s0 / 64 == 1018
                        || (ip.s0 / 64 == 1019
                            || ((first_five_zero ip && ip.s5 == 0)
                                || ((ip.s0 == 100 && ip.s1 == 65435)
                                    || ((ip.s0 == 8193 && ip.s1 == 0)
                                        || (ip.s0 == 8194
                                            || (ip.s0 == 8193 && ip.s1 == 3512))))))))))))

pub data IpAddr : Type 0 where
  v4 : Ipv4Addr → IpAddr
  v6 : Ipv6Addr → IpAddr

unfoldable pub is_public_destination : IpAddr → Bool
is_public_destination (v4 ip) = is_public_v4 ip
is_public_destination (v6 ip) = is_public_v6 ip

abbrev pub bytes_eq : Bytes → Bytes → Bool
bytes_eq [] [] = true
bytes_eq [] (b ∷ bs) = false
bytes_eq (a ∷ rest) [] = false
bytes_eq (a ∷ rest) (b ∷ bs) = a == b && bytes_eq rest bs

abbrev pub starts_with : Bytes → Bytes → Bool
starts_with name [] = true
starts_with [] (p ∷ ps) = false
starts_with (b ∷ bs) (p ∷ ps) = b == p && starts_with bs ps

abbrev pub to_ascii_lowercase : Bytes → Bytes
to_ascii_lowercase [] = []
to_ascii_lowercase (b ∷ bs) = (if leb 65 b && leb b 90 then b + 32 else b) ∷ to_ascii_lowercase bs

abbrev pub is_name_byte : ℕ → Bool
is_name_byte b =
    (leb 48 b && leb b 57)
    || ((leb 65 b && leb b 90) || ((leb 97 b && leb b 122) || (b == 45 || b == 95)))

-- "gobrowse-restricted-".
abbrev pub restricted_prefix : Bytes
restricted_prefix =
    103 ∷ 111 ∷ 98 ∷ 114 ∷ 111 ∷ 119 ∷ 115 ∷ 101 ∷ 45 ∷ 114 ∷ 101 ∷ 115 ∷ 116 ∷ 114 ∷ 105 ∷ 99 ∷ 116
    ∷ 101 ∷ 100 ∷ 45 ∷ []

-- "host", "slirp4netns", "pasta", "container", "ns",
-- "private", "bridge", "default", "none", "podman".
abbrev pub reserved : List Bytes
reserved =
    (104 ∷ 111 ∷ 115 ∷ 116 ∷ [])
    ∷ (115 ∷ 108 ∷ 105 ∷ 114 ∷ 112 ∷ 52 ∷ 110 ∷ 101 ∷ 116 ∷ 110 ∷ 115 ∷ [])
    ∷ (112 ∷ 97 ∷ 115 ∷ 116 ∷ 97 ∷ [])
    ∷ (99 ∷ 111 ∷ 110 ∷ 116 ∷ 97 ∷ 105 ∷ 110 ∷ 101 ∷ 114 ∷ [])
    ∷ (110 ∷ 115 ∷ [])
    ∷ (112 ∷ 114 ∷ 105 ∷ 118 ∷ 97 ∷ 116 ∷ 101 ∷ [])
    ∷ (98 ∷ 114 ∷ 105 ∷ 100 ∷ 103 ∷ 101 ∷ [])
    ∷ (100 ∷ 101 ∷ 102 ∷ 97 ∷ 117 ∷ 108 ∷ 116 ∷ [])
    ∷ (110 ∷ 111 ∷ 110 ∷ 101 ∷ [])
    ∷ (112 ∷ 111 ∷ 100 ∷ 109 ∷ 97 ∷ 110 ∷ [])
    ∷ []

-- `RESERVED.contains`.
abbrev pub is_reserved : Bytes → Bool
is_reserved name = any (bytes_eq name) reserved

-- A character outside ASCII has only bytes that are no name bytes, so the bytes are tested.
unfoldable pub valid_restricted_network_name : Bytes → Bool
valid_restricted_network_name name =
    starts_with name restricted_prefix
    && (ltb (length restricted_prefix) (length name)
        && (leb (length name) 128
            && (not (is_reserved (to_ascii_lowercase name)) && all is_name_byte name)))

pub record RestrictedNetworkAttestation : Type 0 where
  pub network_name : Bytes
  pub subnet : IpAddr
  pub gateway : IpAddr
  pub dns : List IpAddr

unfoldable pub validate : RestrictedNetworkAttestation → Result (Unit {0}) SandboxValidationError
validate a =
    if not (valid_restricted_network_name a.network_name)
    then err invalid_network
    else if not (is_public_destination a.gateway)
    then err invalid_network
    else if all is_public_destination a.dns
    then ok tt
    else err invalid_network
