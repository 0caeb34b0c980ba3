-- ===== src/Pcp/Steps/Sound.antt =====
-- The server's invariant: quotas, external ports, and no port shared. Every step keeps it.
use sixup.Common.{
  ℕ, ◌≤◌, ◌<◌, ◌≡◌, ◌≢◌, refl, Bool, true, false, ◌&&◌, List, [], ◌∷◌, none, some, ◌==◌, ltb,
  length, All, arith, inl, inr, Bool-cases,
}
use sixup.Netip.{Addr, is4, addr_eq}
use sixup.Netip.Laws.{addr_eq_iff}
use sixup.Mape.Spans.{PortSpan, in_spans}
use sixup.Mape.Spans.Count.{IsSpan}
use sixup.Pcp.Wire.{
  pcp_max_per_host, pcp_min_external, pcp_client_port, pcp_server_port, pcp_proto_udp,
}
use sixup.Pcp.State.{
  PcpServer, PcpKey, PcpMap, Host, key_eq, find, put, delete_func, push, host_mappings, keep_maps,
  expire,
}
use sixup.Pcp.State.Maps.{
  key_eq_iff, IsKeyed, IsKeyed-delete_func, IsKeyed-put, host_mappings-put, host_mappings-put_same,
  host_mappings-delete_func,
}
use sixup.Pcp.Ports.{usable}
use sixup.Pcp.Ports.Unique.{
  IsUnique, IsUnique-delete_func, IsUnique-put_same, IsUnique-put_new, usable-free,
}
use sixup.Pcp.Mapping.{remove, tcp_or_udp}
use package.sixup.Pcp.Steps.{IsGrantable, Change, same, renewed, removed, granted, released, both}

-- An external port that the router may give away.
pub record IsExternal (ports : List PortSpan) (proto e : ℕ) : Type 0 where
  pub high : pcp_min_external ≤ e
  pub not_ours : proto ≡ pcp_proto_udp → (e ≢ pcp_client_port) × (e ≢ pcp_server_port)
  pub in_set : 0 < length ports → in_spans ports e ≡ true

pub record IsEntry (ports : List PortSpan) (k : PcpKey) (m : PcpMap) : Type 0 where
  pub transport : tcp_or_udp k.proto ≡ true
  pub named : k.internal.port ≢ 0
  pub over_ipv4 : is4 k.internal.addr ≡ true → IsExternal ports k.proto m.external
  pub over_ipv6 : is4 k.internal.addr ≡ false → m.external ≡ k.internal.port

abbrev pub Entries : List PortSpan → List (PcpKey × PcpMap) → Type 0
Entries ports [] = Unit {0}
Entries ports ((k, m) ∷ ms) = IsEntry ports k m × Entries ports ms

pub record IsSound (p : PcpServer) : Type 0 where
  pub spans : All IsSpan p.ports
  pub keyed : IsKeyed p.maps
  pub unique : IsUnique p.maps
  pub quota : (host : Addr) → host_mappings host p.maps ≤ pcp_max_per_host
  pub entries : Entries p.ports p.maps

usable-IsExternal :
    (local : ℕ → Bool) (p : PcpServer) (proto e : ℕ)
    → usable local p proto e ≡ true
    → IsExternal p.ports proto e
unfolding usable
usable-IsExternal local p proto e h = ground arith

Entries-delete_func :
    (ports : List PortSpan) (gone : PcpKey → PcpMap → Bool) (ms : List (PcpKey × PcpMap))
    → Entries ports ms
    → Entries ports (delete_func gone ms)
unfolding delete_func
Entries-delete_func ports gone [] h = tt
Entries-delete_func ports gone ((k, m) ∷ ms) h = elim (Bool-cases (gone k m)) [
  | inl out ↦ rw out (Entries-delete_func ports gone ms h.1)
  | inr kept ↦ rw kept (h.0, Entries-delete_func ports gone ms h.1)
]

IsEntry-moved :
    (ports : List PortSpan) (k : PcpKey) (cur v : PcpMap)
    → v.external ≡ cur.external
    → IsEntry ports k cur
    → IsEntry ports k v
IsEntry-moved ports k cur v e h = record {
  transport = h.transport;
  named = h.named;
  over_ipv4 = λ four. rw e (h.over_ipv4 four);
  over_ipv6 = λ six. rw e (h.over_ipv6 six);
}

Entries-put_same :
    (ports : List PortSpan) (key : PcpKey) (cur v : PcpMap) (ms : List (PcpKey × PcpMap))
    → find key ms ≡ some cur
    → v.external ≡ cur.external
    → Entries ports ms
    → Entries ports (put key v ms)
unfolding find put
Entries-put_same ports key cur v [] f e h = absurd (ground arith)
Entries-put_same ports key cur v ((k, m) ∷ ms) f e h = elim (Bool-cases (key_eq k key)) [
  | inl hit ↦ rw hit (IsEntry-moved ports k m v (ground arith) h.0, h.1)
  | inr miss ↦ rw miss (h.0, Entries-put_same ports key cur v ms (ground arith) e h.1)
]

Entries-put_new :
    (ports : List PortSpan) (key : PcpKey) (v : PcpMap) (ms : List (PcpKey × PcpMap))
    → find key ms ≡ none
    → IsEntry ports key v
    → Entries ports ms
    → Entries ports (put key v ms)
unfolding find put
Entries-put_new ports key v [] f e h = (e, tt)
Entries-put_new ports key v ((k, m) ∷ ms) f e h = elim (Bool-cases (key_eq k key)) [
  | inl hit ↦ absurd (ground arith)
  | inr miss ↦ rw miss (h.0, Entries-put_new ports key v ms (ground arith) e h.1)
]

IsGrantable-IsEntry :
    (p : PcpServer) (host : Host) (key : PcpKey) (m : PcpMap)
    → IsGrantable p host key m.external
    → IsEntry p.ports key m
IsGrantable-IsEntry p host key m g = record {
  transport = g.transport;
  named = g.named;
  over_ipv4 = λ four.
      usable-IsExternal (host.local_ports key.proto p.ipv4) p key.proto m.external
        (g.over_ipv4 four);
  over_ipv6 = g.over_ipv6;
}

-- A state whose maps are those of a sound one after a deletion.
deleted-IsSound :
    (p q : PcpServer) (gone : PcpKey → PcpMap → Bool)
    → q.ports ≡ p.ports
    → q.maps ≡ delete_func gone p.maps
    → IsSound p
    → IsSound q
deleted-IsSound p q gone same_ports fewer v = record {
  spans = rw same_ports v.spans;
  keyed = rw fewer (IsKeyed-delete_func gone p.maps v.keyed);
  unique = rw fewer (IsUnique-delete_func gone p.maps v.unique);
  quota =
      λ host. rw fewer (omega (arith, host_mappings-delete_func host gone p.maps, v.quota host));
  entries = rw (same_ports, fewer) (Entries-delete_func p.ports gone p.maps v.entries);
}

pub keep_maps_fields :
    (p : PcpServer) (ms : List (PcpKey × PcpMap))
    → ((keep_maps p ms).maps ≡ ms) × ((keep_maps p ms).ports ≡ p.ports)
unfolding keep_maps push
keep_maps_fields p ms = ground arith

quota-granted :
    (p : PcpServer) (key : PcpKey) (m : PcpMap) (host : Addr)
    → find key p.maps ≡ none
    → host_mappings key.internal.addr p.maps < pcp_max_per_host
    → host_mappings host p.maps ≤ pcp_max_per_host
    → host_mappings host (put key m p.maps) ≤ pcp_max_per_host
quota-granted p key m host absent space q =
    ground (arith, host_mappings-put host key m p.maps, addr_eq_iff key.internal.addr host)

-- Every step of a request keeps the invariant.
pub Change-IsSound :
    {host : Host} {src : Addr} {p q : PcpServer} → Change host src p q → IsSound p → IsSound q
unfolding push remove
Change-IsSound (same p) v = v
Change-IsSound (renewed p key cur expires own found l) v = record {
  spans = v.spans;
  keyed = IsKeyed-put key _ p.maps v.keyed;
  unique = IsUnique-put_same key cur _ p.maps found refl v.unique;
  quota = λ host. rw (host_mappings-put_same host key cur _ p.maps found) (v.quota host);
  entries = Entries-put_same p.ports key cur _ p.maps found refl v.entries;
}
Change-IsSound (removed p key own) v = deleted-IsSound p _ (λ k m. key_eq k key) refl refl v
Change-IsSound {host = host} (granted p key m own absent space g l) v = record {
  spans = v.spans;
  keyed = IsKeyed-put key m p.maps v.keyed;
  unique =
      IsUnique-put_new key m p.maps absent
        (λ four.
          usable-free (host.local_ports key.proto p.ipv4) p key.proto m.external (g.over_ipv4 four))
        v.unique;
  quota = λ other. quota-granted p key m other absent (rw own space) (v.quota other);
  entries =
      Entries-put_new p.ports key m p.maps absent (IsGrantable-IsEntry p host key m g) v.entries;
}
Change-IsSound {src = src} (released p proto) v =
    let gone = λ (k : PcpKey) (m : PcpMap). k.proto == proto && addr_eq k.internal.addr src in
    let fields = keep_maps_fields p (delete_func gone p.maps) in
    deleted-IsSound p _ gone fields.1 fields.0 v
Change-IsSound (both c d) v = Change-IsSound d (Change-IsSound c v)

pub expire-IsSound : (p : PcpServer) (now : ℕ) → IsSound p → IsSound (expire p now)
unfolding expire
expire-IsSound p now v =
    let fields = keep_maps_fields p (delete_func (λ k m. ltb m.expires now) p.maps) in
    deleted-IsSound p _ (λ k m. ltb m.expires now) fields.1 fields.0 v

pub find-IsEntry :
    (ports : List PortSpan) (key : PcpKey) (v : PcpMap) (ms : List (PcpKey × PcpMap))
    → Entries ports ms
    → find key ms ≡ some v
    → IsEntry ports key v
unfolding find
find-IsEntry ports key v [] h f = absurd (ground arith)
find-IsEntry ports key v ((k, m) ∷ ms) h f = elim (Bool-cases (key_eq k key)) [
  | inl hit ↦ let e : m ≡ v = ground arith in rw (← e, ← (key_eq_iff k key).0 hit) h.0
  | inr miss ↦ find-IsEntry ports key v ms h.1 (ground arith)
]
