-- ===== src/Pcp/Steps/Synced.antt =====
-- The NAT and the filter hold, or are about to take, exactly the server's mappings.
use sixup.Common.{
  ℕ, ◌≡◌, refl, Bool, true, false, ◌&&◌, List, Option, none, some, ◌==◌, if◌then◌else◌, length,
  arith, Bool-cases, inl, inr,
}
use sixup.Netip.{Addr, addr_eq, addr_valid}
use sixup.Mape.Spans.{PortSpan}
use sixup.NatPlan.{PortMapping}
use sixup.Pcp.State.{
  PcpServer, PcpKey, PcpMap, Host, find, put, delete_func, family, sort_func, push, keep_maps,
  expire, change_tunnel, moved, spans_eq,
}
use sixup.Pcp.State.Maps.{family-put, delete_func_nothing}
use sixup.Pcp.Mapping.{remove}
use package.sixup.Pcp.Steps.{Change, same, renewed, removed, granted, released, both}

-- What a reader of a channel holds after it takes what waits there.
abbrev pub handed : Option (List PortMapping) → List PortMapping → List PortMapping
handed none held = held
handed (some set) held = set

-- The NAT holds `held4` and the filter `held6`.
pub record IsSynced (p : PcpServer) (held4 held6 : List PortMapping) : Type 0 where
  pub nat_synced : p.nat ≡ true → handed p.map_in held4 ≡ sort_func (family true p.maps)
  pub fw_synced : p.fw ≡ true → handed p.hole_in held6 ≡ sort_func (family false p.maps)

push-IsSynced : (p : PcpServer) (held4 held6 : List PortMapping) → IsSynced (push p) held4 held6
unfolding push
push-IsSynced p held4 held6 = record { nat_synced = λ on. rw on; fw_synced = λ on. rw on }

renewed-IsSynced :
    (p : PcpServer) (key : PcpKey) (cur v : PcpMap) (held4 held6 : List PortMapping)
    → find key p.maps ≡ some cur
    → v.external ≡ cur.external
    → IsSynced p held4 held6
    → IsSynced (record p { maps = put key v p.maps }) held4 held6
renewed-IsSynced p key cur v held4 held6 f e s = record {
  nat_synced = λ on. rw (family-put true key cur v p.maps f e) (s.nat_synced on);
  fw_synced = λ on. rw (family-put false key cur v p.maps f e) (s.fw_synced on);
}

keep_maps-IsSynced :
    (p : PcpServer) (gone : PcpKey → PcpMap → Bool) (held4 held6 : List PortMapping)
    → IsSynced p held4 held6
    → IsSynced (keep_maps p (delete_func gone p.maps)) held4 held6
unfolding keep_maps
keep_maps-IsSynced p gone held4 held6 s =
    elim (Bool-cases (length (delete_func gone p.maps) == length p.maps)) [
      | inl none_gone ↦
          let all = delete_func_nothing gone p.maps (ground arith) in rw (none_gone, all) s
      | inr some_gone ↦ rw some_gone (push-IsSynced _ held4 held6)
    ]

pub Change-IsSynced :
    {host : Host} {src : Addr} {p q : PcpServer} (held4 held6 : List PortMapping)
    → Change host src p q
    → IsSynced p held4 held6
    → IsSynced q held4 held6
unfolding remove
Change-IsSynced held4 held6 (same p) s = s
Change-IsSynced held4 held6 (renewed p key cur expires own found l) s =
    renewed-IsSynced p key cur _ held4 held6 found refl s
Change-IsSynced held4 held6 (removed p key own) s = push-IsSynced _ held4 held6
Change-IsSynced held4 held6 (granted p key m own absent space g l) s = push-IsSynced _ held4 held6
Change-IsSynced held4 held6 (released p proto) s = keep_maps-IsSynced p _ held4 held6 s
Change-IsSynced held4 held6 (both c d) s =
    Change-IsSynced held4 held6 d (Change-IsSynced held4 held6 c s)

pub expire-IsSynced :
    (p : PcpServer) (now : ℕ) (held4 held6 : List PortMapping)
    → IsSynced p held4 held6
    → IsSynced (expire p now) held4 held6
unfolding expire
expire-IsSynced p now held4 held6 s = keep_maps-IsSynced p _ held4 held6 s

moved-IsSynced :
    (p : PcpServer) (addr : Addr) (ports : List PortSpan) (held4 held6 : List PortMapping)
    → IsSynced p held4 held6
    → IsSynced (moved p addr ports) held4 held6
unfolding moved
moved-IsSynced p addr ports held4 held6 s =
    keep_maps-IsSynced (record p { ipv4 = addr; ports = ports }) _ held4 held6
      (record { nat_synced = s.nat_synced; fw_synced = s.fw_synced })

restarted :
    (p : PcpServer) (lost : Bool) (now : ℕ) (held4 held6 : List PortMapping)
    → IsSynced p held4 held6
    → IsSynced (if lost then record p { start = now } else p) held4 held6
restarted p true now held4 held6 s = record { nat_synced = s.nat_synced; fw_synced = s.fw_synced }
restarted p false now held4 held6 s = s

pub change_tunnel-IsSynced :
    (p : PcpServer) (addr : Addr) (ports : List PortSpan) (now : ℕ) (held4 held6 : List PortMapping)
    → IsSynced p held4 held6
    → IsSynced (change_tunnel p addr ports now).server held4 held6
unfolding change_tunnel
change_tunnel-IsSynced p addr ports now held4 held6 s =
    elim (Bool-cases (addr_eq addr p.ipv4 && spans_eq ports p.ports)) [
      | inl unchanged ↦ rw unchanged s
      | inr changed ↦ rw changed (
          restarted (moved p addr ports) (addr_valid p.ipv4) now held4 held6
            (moved-IsSynced p addr ports held4 held6 s))
    ]
