-- ===== src/Store.antt =====
-- The line's prefixes as every part sees them: `Prefix`, `SourceUpdate` and `Snapshot` (prefix.go)
-- with their methods. An instant is a number of nanoseconds, 0 for Go's zero time.
pub mod State
pub mod Subnet
pub mod Stages
pub mod Handout
pub mod Diff
pub mod Classify
pub mod Recompute
pub mod Messages
pub mod World
use native.Mathlib.Decide.{ℕ_discrete}
use sixup.Common.{
  ℕ, ◌-◌, Bool, true, false, not, ◌&&◌, ◌||◌, List, [], ◌∷◌, Option, none, some, ◌==◌, ltb,
  if◌then◌else◌, any, get, bytes_eq, length,
}
use sixup.Netip.{
  Addr, no_addr, addr_valid, Prefix, no_prefix, prefix_valid, bits, prefix_overlaps, prefix_eq,
}
use sixup.Tunnel.Params.{TunnelParams}

-- `prefixSource`, with the empty string.
pub data PrefixSource : Type 0 where
  source_pd source_ra source_ula source_static no_source : PrefixSource

-- `changeKind`.
pub data ChangeKind : Type 0 where
  change_add change_renew change_revoke change_none : ChangeKind

-- `Prefix` of prefix.go.
pub record LinePrefix : Type 0 where
  pub prefix : Prefix
  pub preferred : ℕ
  pub valid : ℕ
  pub source : PrefixSource
  pub deprecated : Bool
  pub slaac : Bool
  pub stale : Bool
  pub off_link : Bool
  pub exclude : Prefix
  pub delegated : Bool

abbrev pub no_line_prefix : LinePrefix
no_line_prefix = record {
  prefix = no_prefix;
  preferred = 0;
  valid = 0;
  source = no_source;
  deprecated = false;
  slaac = false;
  stale = false;
  off_link = false;
  exclude = no_prefix;
  delegated = false;
}

-- `dhcpOption` of dhcp6c.go.
pub record DhcpOption : Type 0 where
  pub code : ℕ
  pub payload : List ℕ

pub record SourceUpdate : Type 0 where
  pub prefixes : List LinePrefix
  pub dns : List Addr
  pub dnssl : List (List ℕ)
  pub ntp : List Addr
  pub options : List DhcpOption
  pub pref64 : Prefix
  pub mtu : ℕ
  pub wan_addr : Addr
  pub tunnel : Option TunnelParams
  pub dhcpv6 : Bool
  pub no_router : Bool
  pub ula : List Prefix

abbrev pub no_update : SourceUpdate
no_update = record {
  prefixes = [];
  dns = [];
  dnssl = [];
  ntp = [];
  options = [];
  pref64 = no_prefix;
  mtu = 0;
  wan_addr = no_addr;
  tunnel = none;
  dhcpv6 = false;
  no_router = false;
  ula = [];
}

-- The LAN prefixes stand by the name of their interface.
pub record Snapshot : Type 0 where
  pub seq : ℕ
  pub time : ℕ
  pub change : Option ChangeKind
  pub source : PrefixSource
  pub wan : List LinePrefix
  pub lan : List (List ℕ × List LinePrefix)
  pub dns : List Addr
  pub dnssl : List (List ℕ)
  pub ntp : List Addr
  pub options : List DhcpOption
  pub pref64 : Prefix
  pub wan_mtu : ℕ
  pub wan_addr : Addr
  pub wan_subnet : LinePrefix
  pub tunnel : Option TunnelParams
  pub pd_pending : Bool
  pub nat64 : Prefix
  pub no_wan_router : Bool
  pub upstream_ula : List Prefix
  pub ula : List LinePrefix
  pub self : List (Prefix × Addr)

-- The snapshot of `newStore`.
abbrev pub empty_snapshot : Snapshot
empty_snapshot = record {
  seq = 0;
  time = 0;
  change = none;
  source = no_source;
  wan = [];
  lan = [];
  dns = [];
  dnssl = [];
  ntp = [];
  options = [];
  pref64 = no_prefix;
  wan_mtu = 0;
  wan_addr = no_addr;
  wan_subnet = no_line_prefix;
  tunnel = none;
  pd_pending = false;
  nat64 = no_prefix;
  no_wan_router = false;
  upstream_ula = [];
  ula = [];
  self = [];
}

unfoldable pub is_pd : PrefixSource → Bool
is_pd source_pd = true
is_pd _ = false

unfoldable pub is_ra : PrefixSource → Bool
is_ra source_ra = true
is_ra _ = false

unfoldable pub is_ula : PrefixSource → Bool
is_ula source_ula = true
is_ula _ = false

-- `==` on sources.
unfoldable pub source_eq : PrefixSource → PrefixSource → Bool
source_eq source_pd source_pd = true
source_eq source_ra source_ra = true
source_eq source_ula source_ula = true
source_eq source_static source_static = true
source_eq no_source no_source = true
source_eq _ _ = false

lan_overlaps_in : List (List ℕ × List LinePrefix) → Prefix → Bool
lan_overlaps_in [] p = false
lan_overlaps_in ((iface, ps) ∷ lan) p =
    any (λ l. prefix_overlaps l.prefix p) ps || lan_overlaps_in lan p

-- `lanOverlaps`.
unfoldable pub lan_overlaps : Snapshot → Prefix → Bool
unfolding lan_overlaps_in
lan_overlaps s p = lan_overlaps_in s.lan p

-- `preferredLeft` and `validLeft`.
unfoldable pub preferred_left : ℕ → LinePrefix → ℕ
preferred_left now p = if p.deprecated || ltb p.preferred now then 0 else p.preferred - now

unfoldable pub valid_left : ℕ → LinePrefix → ℕ
valid_left now p = if ltb p.valid now then 0 else p.valid - now
