-- ===== src/Pcp/Ports.antt =====
-- The choice of an external port: `pickPort` and `localPorts` of pcp.go.
pub mod Pick
pub mod Unique
use sixup.Common.{
  ℕ, zero, suc, ◌+◌, ◌-◌, ◌%◌, Bool, true, false, not, ◌&&◌, ◌||◌, List, [], ◌∷◌, Option, none,
  some, ltb, leb, ◌==◌, if◌then◌else◌, length,
}
use sixup.Mape.Spans.{PortSpan, port_count, nth_port, in_spans}
use sixup.Pcp.Wire.{pcp_min_external, pcp_client_port, pcp_server_port, pcp_proto_udp}
use sixup.Pcp.State.{PcpServer, PcpKey, PcpMap, Host}

-- Is the external port taken for the protocol?
unfoldable pub taken : ℕ → ℕ → List (PcpKey × PcpMap) → Bool
taken proto e [] = false
taken proto e ((k, m) ∷ ms) = (k.proto == proto && m.external == e) || taken proto e ms

-- `usable` of `pickPort`, over the ports that this host listens on itself.
unfoldable pub usable : (ℕ → Bool) → PcpServer → ℕ → ℕ → Bool
unfolding taken in_spans
usable local p proto e =
    if ltb e pcp_min_external
      || proto == pcp_proto_udp && (e == pcp_client_port || e == pcp_server_port)
    then false
    else if local e
    then false
    else if ltb 0 (length p.ports) && not (in_spans p.ports e)
    then false
    else not (taken proto e p.maps)

-- The loop over all ports of the spans from `start` on; `i` counts up, by the rounds left.
unfoldable pub search_from : (ℕ → Bool) → List PortSpan → ℕ → ℕ → ℕ → ℕ → Option ℕ
unfolding nth_port
search_from test spans n start zero i = none
search_from test spans n start (suc rounds) i =
    let e = nth_port spans ((start + i) % n) in
    let rest = search_from test spans n start rounds (i + 1) in if test e then some e else rest

-- The spans that `pickPort` counts through.
unfoldable pub all_spans : PcpServer → List PortSpan
all_spans p =
    if length p.ports == 0 then record { start = pcp_min_external; end = 65535 } ∷ [] else p.ports

-- `none` for its false. `rand.IntN` panics on 0, which spans that hold a port exclude.
unfoldable pub pick_port : Host → PcpServer → ℕ → ℕ → ℕ → Bool → Option ℕ
pick_port host p proto internal suggested prefer_failure =
    let test = usable (host.local_ports proto p.ipv4) p proto in
    let n = port_count (all_spans p) in
    let searched = search_from test (all_spans p) n (host.int_n n) n 0 in
    if not (suggested == 0) && test suggested
    then some suggested
    else if prefer_failure
    then none
    else if test internal
    then some internal
    else searched
