-- ===== src/Pcp/Steps/Tunnel.antt =====
-- A change of the tunnel: what `setTunnel` drops and keeps, and what it reports.
use sixup.Common.{
  ℕ, ◌≡◌, ◌∙◌, refl, Bool, true, false, not, ◌&&◌, List, [], ◌∷◌, Option, none, if◌then◌else◌, All,
  arith, Bool-cases, inl, inr, ap, and-split, sym, length, ◌==◌,
}
use sixup.Netip.{Addr, is4, addr_eq, addr_valid}
use sixup.Netip.Laws.{addr_eq_iff}
use sixup.Mape.Spans.{PortSpan}
use sixup.Mape.Spans.Count.{IsSpan}
use sixup.Tunnel.Params.{TunnelParams}
use sixup.Pcp.State.{
  PcpServer, PcpKey, PcpMap, find, delete_func, change_tunnel, set_tunnel, moved, spans_eq,
  tunnel_ipv4, tunnel_ports, push, keep_maps,
}
use sixup.Pcp.State.Maps.{find-delete_keys, IsKeyed-delete_func, host_mappings-delete_func}
use sixup.Pcp.Ports.Unique.{IsUnique-delete_func}
use package.sixup.Pcp.Steps.Sound.{IsSound, IsEntry, Entries, keep_maps_fields}

moved_fields :
    (p : PcpServer) (addr : Addr) (ports : List PortSpan)
    → ((moved p addr ports).maps ≡ delete_func (λ k m. is4 k.internal.addr) p.maps)
      × ((moved p addr ports).ports ≡ ports)
unfolding moved
moved_fields p addr ports = keep_maps_fields (record p { ipv4 = addr; ports = ports }) _

-- What is left holds on any port set, since it is no IPv4 mapping.
Entries-left :
    (old new : List PortSpan) (ms : List (PcpKey × PcpMap))
    → Entries old ms
    → Entries new (delete_func (λ k m. is4 k.internal.addr) ms)
unfolding delete_func
Entries-left old new [] h = tt
Entries-left old new ((k, m) ∷ ms) h = elim (Bool-cases (is4 k.internal.addr)) [
  | inl four ↦ rw four (Entries-left old new ms h.1)
  | inr six ↦
      let kept : IsEntry new k m = record {
        transport = h.0.transport;
        named = h.0.named;
        over_ipv4 = λ four. ground (arith, six);
        over_ipv6 = h.0.over_ipv6;
      } in
      rw six (kept, Entries-left old new ms h.1)
]

moved-IsSound :
    (p : PcpServer) (addr : Addr) (ports : List PortSpan)
    → All IsSpan ports
    → IsSound p
    → IsSound (moved p addr ports)
moved-IsSound p addr ports ok v =
    let fields = moved_fields p addr ports in
    record {
      spans = rw fields.1 ok;
      keyed = rw fields.0 (IsKeyed-delete_func _ p.maps v.keyed);
      unique = rw fields.0 (IsUnique-delete_func _ p.maps v.unique);
      quota = λ host. rw fields.0 (
          omega (
            arith,
            host_mappings-delete_func host (λ k m. is4 k.internal.addr) p.maps,
            v.quota host,
          ));
      entries = rw (fields.0, fields.1) (Entries-left p.ports ports p.maps v.entries);
    }

restarted-IsSound :
    (p : PcpServer) (lost : Bool) (now : ℕ)
    → IsSound p
    → IsSound (if lost then record p { start = now } else p)
restarted-IsSound p true now v = record {
  spans = v.spans;
  keyed = v.keyed;
  unique = v.unique;
  quota = v.quota;
  entries = v.entries;
}
restarted-IsSound p false now v = v

pub change_tunnel-IsSound :
    (p : PcpServer) (addr : Addr) (ports : List PortSpan) (now : ℕ)
    → All IsSpan ports
    → IsSound p
    → IsSound (change_tunnel p addr ports now).server
unfolding change_tunnel
change_tunnel-IsSound p addr ports now ok v =
    elim (Bool-cases (addr_eq addr p.ipv4 && spans_eq ports p.ports)) [
      | inl unchanged ↦ rw unchanged v
      | inr changed ↦ rw changed (
          restarted-IsSound (moved p addr ports) (addr_valid p.ipv4) now
            (moved-IsSound p addr ports ok v))
    ]

spans_eq-equal : (a b : List PortSpan) → spans_eq a b ≡ true → a ≡ b
unfolding spans_eq
spans_eq-equal [] [] h = refl
spans_eq-equal [] (t ∷ ts) h = absurd (ground arith)
spans_eq-equal (s ∷ ss) [] h = absurd (ground arith)
spans_eq-equal (s ∷ ss) (t ∷ ts) h =
    let rest = spans_eq-equal ss ts (ground (arith, h)) in
    let first : s ≡ t = ground (arith, h) in rw (first, rest) refl

-- The mappings that stay, the channels and the address and ports of a move.
moved_rest :
    (p : PcpServer) (addr : Addr) (ports : List PortSpan)
    → let q = moved p addr ports in
      let same_size = length q.maps == length p.maps in
      (q.ipv4 ≡ addr)
      × (q.start ≡ p.start)
      × (q.map_in ≡ (if same_size then p.map_in else (push (record p { maps = q.maps })).map_in))
      × (q.hole_in ≡ (if same_size then p.hole_in else (push (record p { maps = q.maps })).hole_in))
unfolding moved keep_maps push
moved_rest p addr ports =
    elim (Bool-cases (length (delete_func (λ k m. is4 k.internal.addr) p.maps) == length p.maps)) [
      | inl same ↦ rw same (rw same (refl, refl, refl, refl))
      | inr fewer ↦ rw fewer (rw fewer (refl, refl, refl, refl))
    ]

-- The same with a restart of the epoch, where mappings were lost.
restarted_follows :
    (p : PcpServer) (addr : Addr) (ports : List PortSpan) (now : ℕ) (j : PcpKey) (lost : Bool)
    → let q = moved p addr ports in
      let c = if lost then record q { start = now } else q in
      let same_size = length c.maps == length p.maps in
      (c.ipv4 ≡ addr)
      × (c.ports ≡ ports)
      × (find j c.maps ≡ (if is4 j.internal.addr then none else find j p.maps))
      × (c.map_in ≡ (if same_size then p.map_in else (push (record p { maps = c.maps })).map_in))
      × (c.hole_in ≡ (if same_size then p.hole_in else (push (record p { maps = c.maps })).hole_in))
      × (c.start ≡ (if lost then now else p.start))
unfolding push
restarted_follows p addr ports now j true =
    let (same, start, four, six) = moved_rest p addr ports in
    let (kept, there) = moved_fields p addr ports in
    let found = ap (find j) kept ∙ find-delete_keys (λ k. is4 k.internal.addr) j p.maps in
    (same, there, found, unfold push in four, unfold push in six, refl)
restarted_follows p addr ports now j false =
    let (same, start, four, six) = moved_rest p addr ports in
    let (kept, there) = moved_fields p addr ports in
    let found = ap (find j) kept ∙ find-delete_keys (λ k. is4 k.internal.addr) j p.maps in
    (same, there, found, unfold push in four, unfold push in six, start)

-- After setTunnel the server has the address and the port set of the tunnel. Where both are those
-- in effect, the whole server is as before. Where not, every IPv4 mapping is dropped and every
-- IPv6 pinhole is kept, the epoch starts anew exactly if a loss is reported, and each channel has
-- the set pushed for the new mappings exactly if their number changed. A loss is reported exactly
-- on a change from a valid address, and a gain exactly on a valid address that is new.
pub set_tunnel-follows :
    (p : PcpServer) (t : Option TunnelParams) (now : ℕ) (j : PcpKey)
    → let same_line = addr_eq (tunnel_ipv4 p t) p.ipv4 && spans_eq (tunnel_ports p t) p.ports in
      let c = set_tunnel p t now in
      let same_size = length c.server.maps == length p.maps in
      ((if same_line then c.server else p) ≡ p)
      × (c.server.ipv4 ≡ tunnel_ipv4 p t)
      × (c.server.ports ≡ tunnel_ports p t)
      × (find j c.server.maps
          ≡ (if not same_line && is4 j.internal.addr then none else find j p.maps))
      × (c.server.map_in
          ≡ (if same_size then p.map_in else (push (record p { maps = c.server.maps })).map_in))
      × (c.server.hole_in
          ≡ (if same_size then p.hole_in else (push (record p { maps = c.server.maps })).hole_in))
      × (c.server.start ≡ (if c.lost then now else p.start))
      × (c.lost ≡ (not same_line && addr_valid p.ipv4))
      × (c.gained ≡ (not (addr_eq (tunnel_ipv4 p t) p.ipv4) && addr_valid (tunnel_ipv4 p t)))
unfolding set_tunnel change_tunnel
set_tunnel-follows p t now j =
    let addr = tunnel_ipv4 p t in
    let ports = tunnel_ports p t in
    elim (Bool-cases (addr_eq addr p.ipv4 && spans_eq ports p.ports)) [
      | inl unchanged ↦
          let same_addr : addr ≡ p.ipv4 =
            (addr_eq_iff addr p.ipv4).0
              (and-split (addr_eq addr p.ipv4) (spans_eq ports p.ports) unchanged).0 in
          let same_ports : ports ≡ p.ports =
            spans_eq-equal ports p.ports
              (and-split (addr_eq addr p.ipv4) (spans_eq ports p.ports) unchanged).1 in
          let size : (length p.maps == length p.maps) ≡ true = ground arith in
          rw (unchanged, size)
            (refl, sym same_addr, sym same_ports, refl, refl, refl, refl, refl, ground arith)
      | inr changed ↦
          let (same, there, found, four, six, start) =
            restarted_follows p addr ports now j (addr_valid p.ipv4) in
          rw changed (refl, same, there, found, four, six, start, refl, ground arith)
    ]
