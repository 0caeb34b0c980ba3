-- ===== src/Pcp/World.antt =====
-- The server among the rest of the router: the loop of `run` and the readers of its channels, in
-- any order, with requests in between. The lock makes each of these one step.
use sixup.Common.{ℕ, ◌≡◌, ◌≢◌, ◌≤◌, refl, Bool, true, List, [], Option, none, some, All, arith}
use sixup.Netip.{Addr, no_addr, is4}
use sixup.Mape.Spans.Count.{IsSpan}
use sixup.NatPlan.{PortMapping}
use sixup.Tunnel.Params.{TunnelParams}
use sixup.Pcp.Wire.{pcp_max_per_host}
use sixup.Pcp.State.{
  PcpServer, PcpKey, PcpMap, Host, find, family, sort_func, host_mappings, expire, set_tunnel,
  tunnel_ports,
}
use sixup.Pcp.Ports.Unique.{IsUnique-one_key}
use sixup.Pcp.Respond.{handle}
use sixup.Pcp.Steps.Requests.{handle-Change}
use sixup.Pcp.Steps.Sound.{IsSound, Change-IsSound, expire-IsSound, find-IsEntry, IsEntry}
use sixup.Pcp.Steps.Tunnel.{change_tunnel-IsSound}
use sixup.Pcp.Steps.Synced.{IsSynced, Change-IsSynced, expire-IsSynced, change_tunnel-IsSynced}

-- The server, what the NAT has taken from `mapIn`, and what the filter has taken from `holeIn`.
pub record World : Type 0 where
  pub server : PcpServer
  pub nat_has : List PortMapping
  pub fw_has : List PortMapping

-- A server that has just started: `nat` and `fw` as the options have it.
unfoldable pub started : Bool → Bool → ℕ → World
started nat fw now = record {
  server = record {
    nat = nat;
    fw = fw;
    start = now;
    ipv4 = no_addr;
    ports = [];
    maps = [];
    map_in = none;
    hole_in = none;
  };
  nat_has = [];
  fw_has = [];
}

-- One step: a request, a tick of the clock, a snapshot, or a reader that takes what waits.
pub data Step : World → World → Type 0 where
  request :
      (w : World) (host : Host) (req : List ℕ) (src : Addr)
      → Step w (record w { server = (handle w.server host req src).0 })
  tick : (w : World) (now : ℕ) → Step w (record w { server = expire w.server now })
  snapshot :
      (w : World) (t : Option TunnelParams) (now : ℕ)
      → All IsSpan (tunnel_ports w.server t)
      → Step w (record w { server = (set_tunnel w.server t now).server })
  nat_takes :
      (w : World) (ms : List PortMapping)
      → w.server.map_in ≡ some ms
      → Step w (record w { server = record w.server { map_in = none }; nat_has = ms })
  fw_takes :
      (w : World) (ms : List PortMapping)
      → w.server.hole_in ≡ some ms
      → Step w (record w { server = record w.server { hole_in = none }; fw_has = ms })

pub data Reach (v : World) : World → Type 0 where
  here : Reach v v
  next : {w u : World} → Reach v w → Step w u → Reach v u

abbrev IsGood : World → Type 0
IsGood w = IsSound w.server × IsSynced w.server w.nat_has w.fw_has

started-IsGood : (nat fw : Bool) (now : ℕ) → IsGood (started nat fw now)
unfolding started sort_func family
started-IsGood nat fw now = (
  record {
    spans = tt;
    keyed = tt;
    unique = tt;
    quota = λ host. unfold host_mappings in omega arith;
    entries = tt;
  },
  record { nat_synced = λ on. refl; fw_synced = λ on. refl },
)

set_tunnel-IsSound :
    (p : PcpServer) (t : Option TunnelParams) (now : ℕ)
    → All IsSpan (tunnel_ports p t)
    → IsSound p
    → IsSound (set_tunnel p t now).server
unfolding set_tunnel
set_tunnel-IsSound p t now ok v = change_tunnel-IsSound p _ (tunnel_ports p t) now ok v

set_tunnel-IsSynced :
    (p : PcpServer) (t : Option TunnelParams) (now : ℕ) (held4 held6 : List PortMapping)
    → IsSynced p held4 held6
    → IsSynced (set_tunnel p t now).server held4 held6
unfolding set_tunnel
set_tunnel-IsSynced p t now held4 held6 s = change_tunnel-IsSynced p _ _ now held4 held6 s

Step-IsGood : {w u : World} → Step w u → IsGood w → IsGood u
Step-IsGood (request w host req src) (v, s) =
    let c = handle-Change w.server host req src in
    (Change-IsSound c v, Change-IsSynced w.nat_has w.fw_has c s)
Step-IsGood (tick w now) (v, s) =
    (expire-IsSound w.server now v, expire-IsSynced w.server now w.nat_has w.fw_has s)
Step-IsGood (snapshot w t now ok) (v, s) = (
  set_tunnel-IsSound w.server t now ok v,
  set_tunnel-IsSynced w.server t now w.nat_has w.fw_has s,
)
Step-IsGood (nat_takes w ms e) (v, s) = (
  record {
    spans = v.spans;
    keyed = v.keyed;
    unique = v.unique;
    quota = v.quota;
    entries = v.entries;
  },
  record { nat_synced = λ on. ground (arith, s.nat_synced on); fw_synced = s.fw_synced },
)
Step-IsGood (fw_takes w ms e) (v, s) = (
  record {
    spans = v.spans;
    keyed = v.keyed;
    unique = v.unique;
    quota = v.quota;
    entries = v.entries;
  },
  record { nat_synced = s.nat_synced; fw_synced = λ on. ground (arith, s.fw_synced on) },
)

Reach-IsGood : {v w : World} → IsGood v → Reach v w → IsGood w
Reach-IsGood h here = h
Reach-IsGood h (next r st) = Step-IsGood st (Reach-IsGood h r)

module _ (nat fw : Bool) (now : ℕ) {w : World} (r : Reach (started nat fw now) w) where
  good : IsGood w
  good = Reach-IsGood (started-IsGood nat fw now) r

  -- In every state that the PCP server reaches from its start by requests, ticks, snapshots whose
  -- port sets are well formed, and readers of its channels, in any order: two IPv4 mappings of
  -- one protocol under different keys have different external ports.
  pub Reach-ne_external :
      (j k : PcpKey) (a b : PcpMap)
      → j ≢ k
      → find j w.server.maps ≡ some a
      → find k w.server.maps ≡ some b
      → is4 j.internal.addr ≡ true
      → is4 k.internal.addr ≡ true
      → j.proto ≡ k.proto
      → a.external ≢ b.external
  Reach-ne_external j k a b apart f g four four' proto e =
      apart (IsUnique-one_key j k a b w.server.maps good.0.unique f g four four' proto e)

  -- In every reachable state each mapping is of a TCP or UDP port that is not 0; over IPv4 its
  -- external port is 1024 or more, none of PCP's own over UDP, and inside the line's port set
  -- where there is one; over IPv6 its external port is the host's own.
  pub Reach-IsEntry :
      (k : PcpKey) (m : PcpMap) → find k w.server.maps ≡ some m → IsEntry w.server.ports k m
  Reach-IsEntry k m f = find-IsEntry w.server.ports k m w.server.maps good.0.entries f

  -- In every reachable state no host holds more than 16 mappings, pinholes included.
  pub Reach-quota : (host : Addr) → host_mappings host w.server.maps ≤ pcp_max_per_host
  Reach-quota host = good.0.quota host

  -- In every reachable state what the NAT has, or the set that waits for it, is the sorted set of
  -- the IPv4 mappings, if there is a NAT; likewise the filter and the IPv6 pinholes. No update is
  -- lost.
  pub Reach-IsSynced : IsSynced w.server w.nat_has w.fw_has
  Reach-IsSynced = good.1
