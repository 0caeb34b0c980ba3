-- ===== src/Store/Subnet.antt =====
-- Subnets of a prefix: `splitLAN`, `spareSubnet`, `wanSubnet` and `sharedWith` of prefix.go. The
-- number of a subnet is not negative, as the flags have it.
pub mod Split
pub mod Spare
use sixup.Common.{
  ℕ, zero, suc, ◌-◌, ◌^◌, min, Bool, true, false, not, ◌&&◌, ◌||◌, List, [], ◌∷◌, ◌++◌, Option,
  none, some, ◌==◌, ltb, leb, if◌then◌else◌, any, take, copy, be_bytes, from_be, bit_or, u64, get,
  bytes_eq,
}
use sixup.Netip.{
  ip6, as16, Prefix, prefix_from, prefix_valid, bits, masked, prefix_overlaps, prefix_eq,
}
use package.sixup.Store.{LinePrefix, no_line_prefix, Snapshot, is_pd, is_ra, is_ula}

-- `lanDef`.
pub record LanDef : Type 0 where
  pub iface : List ℕ
  pub index : ℕ

-- The address with the number in its first half.
unfoldable pub numbered : List ℕ → ℕ → List ℕ
numbered b index = copy 0 (be_bytes 8 (bit_or (from_be (take 8 b)) (u64 index))) b

-- `splitLAN`, `none` for its false. Go's length of an invalid prefix is -1; it and the model's 0
-- both leave 64 free bits or more, which no number is checked against.
unfoldable pub split_lan : Prefix → ℕ → Option Prefix
split_lan p index =
    let free = 64 - bits p in
    if ltb 64 (bits p)
    then none
    else if ltb free 64 && leb (2 ^ free) (u64 index)
    then none
    else some (prefix_from (ip6 (from_be (numbered (as16 (masked p).ip) index))) 64)

-- What the loop of `spareSubnet` makes of a number: the subnet, or what the lower ones give.
unfoldable pub unless_excluded : Prefix → Option Prefix → Option Prefix → Option Prefix
unless_excluded exclude none rest = rest
unless_excluded exclude (some sub) rest = if prefix_overlaps exclude sub then rest else some sub

-- The loop, by the numbers left below.
unfoldable pub spare_below : List LanDef → LinePrefix → ℕ → Option Prefix
spare_below lans p zero = none
spare_below lans p (suc i) =
    let rest = spare_below lans p i in
    if any (λ (l : LanDef). l.index == i) lans
    then rest
    else unless_excluded p.exclude (split_lan p.prefix i) rest

unfoldable pub spare_subnet : List LanDef → LinePrefix → Option Prefix
spare_subnet lans p = spare_below lans p (2 ^ min (64 - bits p.prefix) 16)

unfoldable pub value_of : Option (List LinePrefix) → List LinePrefix
value_of none = []
value_of (some ps) = ps

-- `s.LAN[iface]`.
unfoldable pub lan_of : List (List ℕ × List LinePrefix) → List ℕ → List LinePrefix
unfolding value_of
lan_of lan iface = value_of (get bytes_eq iface lan)

-- `candidates` of `wanSubnet`: the LANs' prefixes in order, or without a LAN one /64 of each WAN
-- prefix, its first or its second.
lan_candidates : Snapshot → List LanDef → List LinePrefix
lan_candidates s [] = []
lan_candidates s (l ∷ lans) = lan_of s.lan l.iface ++ lan_candidates s lans

half_of : LinePrefix → Option Prefix → List LinePrefix → List LinePrefix
half_of p none rest = rest
half_of p (some sub) rest =
    if prefix_overlaps p.exclude sub then rest else record p { prefix = sub } ∷ []

host_candidates : List LinePrefix → List LinePrefix
unfolding half_of
host_candidates [] = []
host_candidates (p ∷ wan) =
    half_of p (split_lan p.prefix 0) (half_of p (split_lan p.prefix 1) []) ++ host_candidates wan

unfoldable pub subnet_candidates : Snapshot → List LanDef → List LinePrefix
unfolding lan_candidates host_candidates
subnet_candidates s [] = host_candidates s.wan
subnet_candidates s (l ∷ lans) = lan_candidates s (l ∷ lans)

bool_eq : Bool → Bool → Bool
bool_eq true b = b
bool_eq false b = not b

-- The test that skips a candidate, turned round.
unfoldable pub serves_wan : Snapshot → Bool → LinePrefix → Bool
unfolding bool_eq
serves_wan s deprecated p =
    is_pd p.source
    && not p.stale
    && bool_eq p.deprecated deprecated
    && not (any (λ (w : LinePrefix). is_ra w.source && prefix_overlaps w.prefix p.prefix) s.wan)

unfoldable pub first_serving : Snapshot → Bool → List LinePrefix → LinePrefix → LinePrefix
first_serving s deprecated [] none_left = none_left
first_serving s deprecated (p ∷ ps) none_left =
    let rest = first_serving s deprecated ps none_left in
    if serves_wan s deprecated p then record p { off_link = true } else rest

-- `wanSubnet`.
unfoldable pub wan_subnet_of : Snapshot → List LanDef → LinePrefix
wan_subnet_of s lans =
    let candidates = subnet_candidates s lans in
    first_serving s false candidates (first_serving s true candidates no_line_prefix)

lan_shares : List (List ℕ × List LinePrefix) → Prefix → Bool
lan_shares [] p = false
lan_shares ((iface, ps) ∷ lan) p =
    any (λ (l : LinePrefix). not (is_ula l.source) && prefix_eq l.prefix p) ps || lan_shares lan p

-- `sharedWith`.
unfoldable pub shared_with : Snapshot → Prefix → Bool
unfolding lan_shares
shared_with s p =
    (bits p == 64
      && prefix_valid p
      && any (λ (w : LinePrefix). is_ra w.source && prefix_eq w.prefix p) s.wan)
    && lan_shares s.lan p
