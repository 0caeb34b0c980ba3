-- ===== src/Store/Stages.antt =====
-- The stages of `recompute` (prefix.go) that build the next snapshot: what the sources say of the
-- line, the tunnel, and the prefixes of the WAN and of the LANs.
pub mod Empty
use sixup.Common.{
  ℕ, ◌+◌, Bool, not, ◌&&◌, ◌||◌, List, [], ◌∷◌, ◌++◌, Option, none, some, ◌==◌, ltb, if◌then◌else◌,
  any, length, bytes_eq,
}
use sixup.Netip.{Addr, addr_valid, addr_eq, Prefix, prefix_valid}
use sixup.Mape.{MapeResult, S46Cont}
use sixup.Mape.S46.{mape_from_s46, s46}
use sixup.Mape.Calc.{calc_mape}
use sixup.Tunnel.Params.{
  TunnelParams, TunnelGuess, no_params, from_dhcpv6, from_rules, resolve, endpoints,
}
use package.sixup.Store.{
  PrefixSource, LinePrefix, SourceUpdate, Snapshot, empty_snapshot, is_ra, is_pd, preferred_left,
  valid_left,
}
use package.sixup.Store.State.{StoreState, update_or_none, is_known}

-- The literal of `next`; an unknown RA source is the zero update, as in Go's map.
unfoldable pub first_draft : StoreState → ℕ → PrefixSource → SourceUpdate → Snapshot
first_draft s now src u = record empty_snapshot {
  seq = s.cur.seq + 1;
  time = now;
  source = src;
  dns = u.dns;
  dnssl = u.dnssl;
  ntp = u.ntp;
  options = u.options;
  pref64 = u.pref64;
  nat64 = s.nat64;
  wan_mtu = u.mtu;
  wan_addr = u.wan_addr;
  no_wan_router = (update_or_none s.sources.ra).no_router;
  upstream_ula = (update_or_none s.sources.ra).ula;
  self = s.self;
}

list_or : {A : Type 0} → List A → List A → List A
list_or [] d = d
list_or (x ∷ xs) d = x ∷ xs

-- A round of the loop that fills gaps.
unfoldable pub filled : Option SourceUpdate → Snapshot → Snapshot
unfolding list_or
filled none s = s
filled (some o) s = record s {
  dns = list_or s.dns o.dns;
  dnssl = list_or s.dnssl o.dnssl;
  ntp = list_or s.ntp o.ntp;
  options = list_or s.options o.options;
  pref64 = if prefix_valid s.pref64 then s.pref64 else o.pref64;
  wan_addr = if addr_valid s.wan_addr then s.wan_addr else o.wan_addr;
  wan_mtu = if s.wan_mtu == 0 then o.mtu else s.wan_mtu;
}

-- The address of -wan-addr stands.
unfoldable pub by_hand : Addr → Snapshot → Snapshot
by_hand a s = if addr_valid a then record s { wan_addr = a } else s

line_tunnel : Option SourceUpdate → Option TunnelParams
line_tunnel none = none
line_tunnel (some u) = u.tunnel

-- The snapshot before the tunnel's own stages.
unfoldable pub drafted : StoreState → ℕ → PrefixSource → SourceUpdate → Snapshot
unfolding line_tunnel
drafted s now src u =
    let d = first_draft s now src u in
    let with_pd = if is_pd src then d else filled s.sources.pd d in
    let with_ra = if is_ra src then with_pd else filled s.sources.ra with_pd in
    let d' = by_hand (update_or_none s.sources.static).wan_addr with_ra in
    record d' {
      tunnel = line_tunnel s.sources.pd;
      pd_pending =
          not (is_known s.sources.pd) && (update_or_none s.sources.ra).dhcpv6 && ltb now s.pd_grace;
    }

-- The first prefix in use that gives a line.
or_line : Option MapeResult → Option MapeResult → Option MapeResult
or_line none rest = rest
or_line (some r) rest = some r

unfoldable pub first_line : (Prefix → Option MapeResult) → ℕ → List LinePrefix → Option MapeResult
unfolding or_line
first_line f now [] = none
first_line f now (p ∷ ps) =
    let rest = first_line f now ps in
    if valid_left now p == 0 || preferred_left now p == 0 then rest else or_line (f p.prefix) rest

params_or_none : Option TunnelParams → TunnelParams
params_or_none none = no_params
params_or_none (some t) = t

unfoldable pub with_line : TunnelParams → Option MapeResult → TunnelParams
with_line t none = t
with_line t (some r) = record t { rule_mape = some r }

unfoldable pub with_rules : Option TunnelParams → Option MapeResult → Option TunnelParams
unfolding params_or_none
with_rules t none = t
with_rules t (some r) = some (record (params_or_none t) {
  mape = some (s46 r);
  mape_source = from_rules;
  rule_mape = some r;
})

-- The line's MAP-E: of the container where DHCPv6 sent one, else of the rule table.
unfoldable pub of_container :
    Bool → ℕ → List LinePrefix → Option TunnelParams → Option S46Cont → Option TunnelParams
unfolding params_or_none
of_container rule now ps t none = if rule then with_rules t (first_line calc_mape now ps) else t
of_container rule now ps t (some c) = some (
    with_line (record (params_or_none t) { mape_source = from_dhcpv6 })
      (first_line (mape_from_s46 (some c)) now ps))

container_of : Option TunnelParams → Option S46Cont
container_of none = none
container_of (some t) = t.mape

unfoldable pub with_captured : Option TunnelGuess → Option TunnelParams → Option TunnelParams
unfolding params_or_none
with_captured none t = t
with_captured (some g) t = some (record (params_or_none t) { captured = some g })

unfoldable pub in_conflict : List Addr → List Addr → List Addr
in_conflict conflicts [] = []
in_conflict conflicts (a ∷ as_) =
    let rest = in_conflict conflicts as_ in if any (addr_eq a) conflicts then a ∷ rest else rest

-- The AFTR's addresses, the fields in effect, and the endpoints in conflict.
unfoldable pub settled : StoreState → Addr → Option TunnelParams → Option TunnelParams
settled s wan none = none
settled s wan (some t) =
    let named = ltb 0 (length t.aftr_name) && bytes_eq t.aftr_name s.aftr_name in
    let t' = resolve (if named then record t { aftr_addrs = s.aftr_addrs } else t) wan in
    some (record t' { conflicts = t'.conflicts ++ in_conflict s.conflicts (endpoints t') })

unfoldable pub with_tunnel : StoreState → ℕ → SourceUpdate → Snapshot → Snapshot
unfolding container_of
with_tunnel s now u next = record next {
  tunnel = settled s next.wan_addr (
      with_captured s.captured
        (of_container s.mape_rule now u.prefixes next.tunnel (container_of next.tunnel)));
}
