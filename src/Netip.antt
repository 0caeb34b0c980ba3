-- ===== src/Netip.antt =====
-- What the program uses of Go's net/netip: addresses, address and port, prefixes. No address that
-- the modelled parts handle has a zone.
pub mod Laws
use sixup.Common.{
  ℕ, min, ◌+◌, ◌-◌, ◌*◌, ◌/◌, ◌%◌, ◌^◌, Bool, true, false, not, ◌&&◌, ◌||◌, List, [], ◌∷◌, Option,
  none, some, ◌==◌, ltb, leb, if◌then◌else◌, length, be_bytes, from_be, arith,
}

-- An address as the number that its bytes stand for; `no_addr` is the zero `netip.Addr{}`.
pub data Addr : Type 0 where
  no_addr : Addr
  ip4 : ℕ → Addr
  ip6 : ℕ → Addr

unfoldable pub addr_eq : Addr → Addr → Bool
addr_eq no_addr no_addr = true
addr_eq (ip4 a) (ip4 b) = a == b
addr_eq (ip6 a) (ip6 b) = a == b
addr_eq _ _ = false

unfoldable pub addr_valid : Addr → Bool
addr_valid no_addr = false
addr_valid _ = true

unfoldable pub is4 : Addr → Bool
is4 (ip4 a) = true
is4 _ = false

unfoldable pub is6 : Addr → Bool
is6 (ip6 a) = true
is6 _ = false

-- The 96 bits `::ffff:0:0/96` of an IPv4-mapped address.
abbrev pub mapped_prefix : ℕ
mapped_prefix = 0xffff

-- `Unmap`: an IPv4-mapped IPv6 address as the IPv4 one.
unfoldable pub unmap : Addr → Addr
unmap no_addr = no_addr
unmap (ip4 a) = ip4 a
unmap (ip6 a) = if a / 2 ^ 32 == mapped_prefix then ip4 (a % 2 ^ 32) else ip6 a

-- `As16`, an IPv4 address in its IPv4-mapped form.
unfoldable pub as16 : Addr → List ℕ
as16 no_addr = be_bytes 16 0
as16 (ip4 a) = be_bytes 16 (mapped_prefix * 2 ^ 32 + a)
as16 (ip6 a) = be_bytes 16 a

-- `AddrFromSlice`: 4 or 16 bytes.
unfoldable pub addr_from_slice : List ℕ → Addr
addr_from_slice b =
    if length b == 4 then ip4 (from_be b) else if length b == 16 then ip6 (from_be b) else no_addr

unfoldable pub is_unspecified : Addr → Bool
is_unspecified no_addr = false
is_unspecified (ip4 a) = a == 0
is_unspecified (ip6 a) = a == 0

-- `IsGlobalUnicast` on an unmapped address: neither unspecified, broadcast, loopback, multicast
-- nor link-local.
global_unicast4 : ℕ → Bool
global_unicast4 a =
    not (a == 0)
    && not (a == 0xffffffff)
    && not (a / 2 ^ 24 == 127)
    && not (a / 2 ^ 28 == 0xe)
    && not (a / 2 ^ 16 == 0xa9fe)

global_unicast6 : ℕ → Bool
global_unicast6 a =
    not (a == 0) && not (a == 1) && not (a / 2 ^ 120 == 0xff) && not (a / 2 ^ 118 == 0x3fa)

global_unicast_unmapped : Addr → Bool
unfolding global_unicast4 global_unicast6
global_unicast_unmapped no_addr = false
global_unicast_unmapped (ip4 a) = global_unicast4 a
global_unicast_unmapped (ip6 a) = global_unicast6 a

unfoldable pub is_global_unicast : Addr → Bool
unfolding global_unicast_unmapped unmap
is_global_unicast a = global_unicast_unmapped (unmap a)

-- `IsPrivate` on an unmapped address: RFC 1918 and the ULA range.
private_unmapped : Addr → Bool
private_unmapped no_addr = false
private_unmapped (ip4 a) = a / 2 ^ 24 == 10 || a / 2 ^ 20 == 0xac1 || a / 2 ^ 16 == 0xc0a8
private_unmapped (ip6 a) = a / 2 ^ 121 == 0x7e

unfoldable pub is_private : Addr → Bool
unfolding private_unmapped unmap
is_private a = private_unmapped (unmap a)

-- `netip.AddrPort`.
pub record AddrPort : Type 0 where
  pub addr : Addr
  pub port : ℕ

unfoldable pub addr_port_eq : AddrPort → AddrPort → Bool
unfolding addr_eq
addr_port_eq a b = addr_eq a.addr b.addr && a.port == b.port

-- `Compare`: by the width of the address, then by its number.
unfoldable pub addr_rank : Addr → ℕ
addr_rank no_addr = 0
addr_rank (ip4 a) = 1 + a
addr_rank (ip6 a) = 2 ^ 33 + a

-- `netip.Prefix`. Go too keeps the length plus one, 0 for an invalid prefix.
pub record Prefix : Type 0 where
  pub ip : Addr
  pub bits_plus_one : ℕ

abbrev pub no_prefix : Prefix
no_prefix = record { ip = no_addr; bits_plus_one = 0 }

unfoldable pub bit_len : Addr → ℕ
bit_len no_addr = 0
bit_len (ip4 a) = 32
bit_len (ip6 a) = 128

-- `PrefixFrom`, for a length that is not negative.
unfoldable pub prefix_from : Addr → ℕ → Prefix
unfolding bit_len addr_valid
prefix_from a n = record {
  ip = a;
  bits_plus_one = if addr_valid a && leb n (bit_len a) then n + 1 else 0;
}

unfoldable pub prefix_valid : Prefix → Bool
prefix_valid p = ltb 0 p.bits_plus_one

-- `Bits`; Go's answer for an invalid prefix is -1, and the code asks only of a valid one.
unfoldable pub bits : Prefix → ℕ
bits p = p.bits_plus_one - 1

unfoldable pub clear_host : ℕ → Addr → Addr
clear_host n no_addr = no_addr
clear_host n (ip4 a) = ip4 (a / 2 ^ (32 - n) * 2 ^ (32 - n))
clear_host n (ip6 a) = ip6 (a / 2 ^ (128 - n) * 2 ^ (128 - n))

unfoldable pub masked : Prefix → Prefix
unfolding prefix_valid bits clear_host
masked p = if prefix_valid p then record p { ip = clear_host (bits p) p.ip } else no_prefix

unfoldable pub same_network : ℕ → Addr → Addr → Bool
same_network n (ip4 a) (ip4 b) = a / 2 ^ (32 - n) == b / 2 ^ (32 - n)
same_network n (ip6 a) (ip6 b) = a / 2 ^ (128 - n) == b / 2 ^ (128 - n)
same_network n _ _ = false

-- `Contains`.
unfoldable pub prefix_contains : Prefix → Addr → Bool
unfolding prefix_valid bits same_network
prefix_contains p a = prefix_valid p && same_network (bits p) p.ip a

-- `Overlaps`: both valid, and one network at the shorter length.
unfoldable pub prefix_overlaps : Prefix → Prefix → Bool
unfolding prefix_valid bits same_network
prefix_overlaps p o =
    prefix_valid p && prefix_valid o && same_network (min (bits p) (bits o)) p.ip o.ip

unfoldable pub prefix_eq : Prefix → Prefix → Bool
unfolding addr_eq
prefix_eq p o = addr_eq p.ip o.ip && p.bits_plus_one == o.bits_plus_one
