-- ===== src/Pcp/State.antt =====
-- The state of the PCP server and what changes it outside of requests: `pcpServer`, `pcpKey`,
-- `pcpMap`, `setTunnel`, `expire`, `push` and `hostMappings` of pcp.go, `setMappings` and
-- `setPinholes` of nat_plan.go. The map is an association list; sockets and the lock are left out.
pub mod Maps
use sixup.Common.{
  ℕ, zero, suc, ◌+◌, Bool, true, false, not, ◌&&◌, ◌||◌, List, [], ◌∷◌, Option, none, some, ltb,
  leb, ◌==◌, if◌then◌else◌, length,
}
use sixup.Netip.{Addr, no_addr, addr_eq, addr_valid, is4, AddrPort, addr_port_eq, addr_rank}
use sixup.Mape.Spans.{PortSpan}
use sixup.NatPlan.{NatPlan, PortMapping, nat_plan_for}
use sixup.Tunnel.Params.{TunnelParams}

pub record PcpKey : Type 0 where
  pub proto : ℕ
  pub internal : AddrPort

unfoldable pub key_eq : PcpKey → PcpKey → Bool
unfolding addr_port_eq
key_eq a b = a.proto == b.proto && addr_port_eq a.internal b.internal

pub record PcpMap : Type 0 where
  pub external : ℕ
  pub nonce : List ℕ
  pub expires : ℕ

-- `nat` and `fw` say that the pointers are not nil; `map_in` and `hole_in` are what waits in the
-- channels of the NAT and of the filter, which hold one set each.
pub record PcpServer : Type 0 where
  pub nat : Bool
  pub fw : Bool
  pub start : ℕ
  pub ipv4 : Addr
  pub ports : List PortSpan
  pub maps : List (PcpKey × PcpMap)
  pub map_in : Option (List PortMapping)
  pub hole_in : Option (List PortMapping)

-- What a request meets outside of the server: the time, the ports that this host listens on
-- itself (`listeners`, or the kernel's sockets), and `rand.IntN`.
pub record Host : Type 0 where
  pub now : ℕ
  pub local_ports : ℕ → Addr → ℕ → Bool
  pub int_n : ℕ → ℕ

-- `p.maps[key]`, `p.maps[key] = m` and `maps.DeleteFunc`.
unfoldable pub find : PcpKey → List (PcpKey × PcpMap) → Option PcpMap
unfolding key_eq
find key [] = none
find key ((k, m) ∷ ms) = if key_eq k key then some m else find key ms

unfoldable pub put : PcpKey → PcpMap → List (PcpKey × PcpMap) → List (PcpKey × PcpMap)
unfolding key_eq
put key v [] = (key, v) ∷ []
put key v ((k, m) ∷ ms) = if key_eq k key then (k, v) ∷ ms else (k, m) ∷ put key v ms

unfoldable pub delete_func :
    (PcpKey → PcpMap → Bool) → List (PcpKey × PcpMap) → List (PcpKey × PcpMap)
delete_func gone [] = []
delete_func gone ((k, m) ∷ ms) =
    let rest = delete_func gone ms in if gone k m then rest else (k, m) ∷ rest

abbrev pub delete : PcpKey → List (PcpKey × PcpMap) → List (PcpKey × PcpMap)
delete key = delete_func (λ k m. key_eq k key)

-- `order` of `push`, as `order(a, b) <= 0`: by external port, protocol and internal address.
unfoldable pub le_mapping : PortMapping → PortMapping → Bool
unfolding addr_rank
le_mapping a b =
    let x = addr_rank a.internal.addr in
    let y = addr_rank b.internal.addr in
    ltb a.external b.external
    || a.external == b.external
      && (ltb a.proto b.proto
          || a.proto == b.proto && (ltb x y || x == y && leb a.internal.port b.internal.port))

insert : PortMapping → List PortMapping → List PortMapping
unfolding le_mapping
insert m [] = m ∷ []
insert m (x ∷ xs) = if le_mapping m x then m ∷ (x ∷ xs) else x ∷ insert m xs

-- `slices.SortFunc(_, order)`.
unfoldable pub sort_func : List PortMapping → List PortMapping
unfolding insert
sort_func [] = []
sort_func (m ∷ ms) = insert m (sort_func ms)

-- The mappings of one family as the NAT and the filter take them.
unfoldable pub family : Bool → List (PcpKey × PcpMap) → List PortMapping
unfolding is4
family four [] = []
family four ((k, m) ∷ ms) =
    let mp : PortMapping = record {
      proto = k.proto;
      internal = k.internal;
      external = m.external;
    } in
    let rest = family four ms in
    elim (is4 k.internal.addr) [
      | true ↦ if four then mp ∷ rest else rest
      | false ↦ if four then rest else mp ∷ rest
    ]

-- A set that the other side has not taken yet is replaced.
unfoldable pub push : PcpServer → PcpServer
unfolding sort_func family
push p = record p {
  map_in = if p.nat then some (sort_func (family true p.maps)) else p.map_in;
  hole_in = if p.fw then some (sort_func (family false p.maps)) else p.hole_in;
}

unfoldable pub host_mappings : Addr → List (PcpKey × PcpMap) → ℕ
unfolding addr_eq
host_mappings host [] = 0
host_mappings host ((k, m) ∷ ms) =
    let rest = host_mappings host ms in if addr_eq k.internal.addr host then suc rest else rest

-- The maps after a deletion, pushed if any went.
unfoldable pub keep_maps : PcpServer → List (PcpKey × PcpMap) → PcpServer
keep_maps p ms =
    let p' = record p { maps = ms } in if length ms == length p.maps then p' else push p'

unfoldable pub expire : PcpServer → ℕ → PcpServer
expire p now = keep_maps p (delete_func (λ k m. ltb m.expires now) p.maps)

-- `slices.Equal` on spans.
unfoldable pub spans_eq : List PortSpan → List PortSpan → Bool
spans_eq [] [] = true
spans_eq [] (t ∷ ts) = false
spans_eq (s ∷ ss) [] = false
spans_eq (s ∷ ss) (t ∷ ts) = (s.start == t.start && s.end == t.end) && spans_eq ss ts

plan_ipv4 : Option NatPlan → Addr
plan_ipv4 none = no_addr
plan_ipv4 (some plan) = plan.ipv4

plan_ports : Option NatPlan → List PortSpan
plan_ports none = []
plan_ports (some plan) = plan.ports

-- The address and ports that `setTunnel` takes from the snapshot.
unfoldable pub tunnel_ipv4 : PcpServer → Option TunnelParams → Addr
unfolding plan_ipv4
tunnel_ipv4 p t = if p.nat then plan_ipv4 (nat_plan_for t 0) else no_addr

unfoldable pub tunnel_ports : PcpServer → Option TunnelParams → List PortSpan
unfolding plan_ports
tunnel_ports p t = if p.nat then plan_ports (nat_plan_for t 0) else []

-- The new state, and whether mappings were lost and an address gained.
pub record TunnelChange : Type 0 where
  pub server : PcpServer
  pub lost : Bool
  pub gained : Bool

-- The state on another address or port set, without its IPv4 mappings.
unfoldable pub moved : PcpServer → Addr → List PortSpan → PcpServer
moved p addr ports =
    keep_maps (record p { ipv4 = addr; ports = ports })
      (delete_func (λ k m. is4 k.internal.addr) p.maps)

-- `setTunnel` from the comparison on, with the address and ports in effect.
unfoldable pub change_tunnel : PcpServer → Addr → List PortSpan → ℕ → TunnelChange
change_tunnel p addr ports now =
    let lost = addr_valid p.ipv4 in
    let p' = moved p addr ports in
    if addr_eq addr p.ipv4 && spans_eq ports p.ports
    then record { server = p; lost = false; gained = false }
    else record {
      server = if lost then record p' { start = now } else p';
      lost = lost;
      gained = addr_valid addr && not (addr_eq addr p.ipv4);
    }

unfoldable pub set_tunnel : PcpServer → Option TunnelParams → ℕ → TunnelChange
set_tunnel p t now = change_tunnel p (tunnel_ipv4 p t) (tunnel_ports p t) now
