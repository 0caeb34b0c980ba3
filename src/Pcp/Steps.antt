-- ===== src/Pcp/Steps.antt =====
-- What a request may do to the server's state: an abstract step relation for `handle`, `expire`
-- and `setTunnel` of pcp.go, and the states that steps reach.
pub mod Handlers
pub mod Requests
pub mod Sound
pub mod Synced
pub mod Frame
pub mod Tunnel
pub mod Expiry
use sixup.Common.{
  ℕ, ◌+◌, ◌*◌, ◌≤◌, ◌<◌, ◌≡◌, ◌≢◌, Bool, true, false, ◌&&◌, List, [], Option, none, some, ◌==◌, All,
}
use sixup.Netip.{Addr, is4, addr_eq}
use sixup.Mape.Spans.{PortSpan}
use sixup.Mape.Spans.Count.{IsSpan}
use sixup.Pcp.Wire.{pcp_max_per_host, pcp_min_lifetime, pcp_max_lifetime, second}
use sixup.Pcp.State.{
  PcpServer, PcpKey, PcpMap, Host, find, put, delete_func, push, host_mappings, keep_maps, expire,
  change_tunnel, TunnelChange,
}
use sixup.Pcp.Ports.{usable}
use sixup.Pcp.Mapping.{remove, tcp_or_udp}

-- A mapping may last from two minutes to a day.
pub record IsLifetime (now expires : ℕ) : Type 0 where
  pub least : now + pcp_min_lifetime * second ≤ expires
  pub most : expires ≤ now + pcp_max_lifetime * second

-- The external port of a new mapping: over IPv4 a usable one, over IPv6 the host's own.
pub record IsGrantable (p : PcpServer) (host : Host) (key : PcpKey) (e : ℕ) : Type 0 where
  pub transport : tcp_or_udp key.proto ≡ true
  pub named : key.internal.port ≢ 0
  pub over_ipv4 :
      is4 key.internal.addr ≡ true → usable (host.local_ports key.proto p.ipv4) p key.proto e ≡ true
  pub over_ipv6 : is4 key.internal.addr ≡ false → e ≡ key.internal.port

-- What a request from `src` does: nothing, or it renews, removes, or grants mappings of its own
-- host. A port is granted within the host's quota, and pushed.
pub data Change (host : Host) (src : Addr) : PcpServer → PcpServer → Type 0 where
  same : (p : PcpServer) → Change host src p p
  renewed :
      (p : PcpServer) (key : PcpKey) (cur : PcpMap) (expires : ℕ)
      → key.internal.addr ≡ src
      → find key p.maps ≡ some cur
      → IsLifetime host.now expires
      → Change host src p (record p { maps = put key (record cur { expires = expires }) p.maps })
  removed :
      (p : PcpServer) (key : PcpKey) → key.internal.addr ≡ src → Change host src p (remove p key)
  granted :
      (p : PcpServer) (key : PcpKey) (m : PcpMap)
      → key.internal.addr ≡ src
      → find key p.maps ≡ none
      → host_mappings src p.maps < pcp_max_per_host
      → IsGrantable p host key m.external
      → IsLifetime host.now m.expires
      → Change host src p (push (record p { maps = put key m p.maps }))
  released :
      (p : PcpServer) (proto : ℕ)
      → Change host src p (
          keep_maps p (delete_func (λ k m. k.proto == proto && addr_eq k.internal.addr src) p.maps))
  both : {p q r : PcpServer} → Change host src p q → Change host src q r → Change host src p r
