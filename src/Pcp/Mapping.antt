-- ===== src/Pcp/Mapping.antt =====
-- The MAP requests: `mapping`, `mapping4`, `pinhole` and `mapStateful` of pcp.go. A handler returns
-- the new state and the reply. `pick` reads the maps as they are when it is called.
use sixup.Common.{
  ℕ, ◌+◌, ◌-◌, ◌*◌, ◌/◌, min, max, Bool, true, false, not, ◌&&◌, ◌||◌, List, [], ◌∷◌, Option, none,
  some, ltb, leb, ◌==◌, if◌then◌else◌, bytes_eq, length, take, drop, slice, get_or, from_be, u32,
}
use sixup.Netip.{
  Addr, addr_eq, addr_valid, is4, unmap, addr_from_slice, is_unspecified, is_global_unicast,
  is_private,
}
use sixup.Pcp.Wire.{
  pcp_header_len, pcp_map_len, pcp_server_port, pcp_client_port, pcp_opt_prefer_failure,
  pcp_min_lifetime, pcp_max_lifetime, pcp_short_error, pcp_long_error, pcp_proto_tcp, pcp_proto_udp,
  pcp_max_per_host, pcp_success, pcp_not_authorized, pcp_malformed_request, pcp_malformed_option,
  pcp_network_failure, pcp_no_resources, pcp_unsupp_protocol, pcp_user_ex_quota,
  pcp_cannot_provide_external, second, fail, map_response, PcpOption, pcp_options,
  mandatory_unsupported,
}
use sixup.Pcp.State.{PcpServer, PcpKey, PcpMap, Host, find, put, delete, push, host_mappings}
use sixup.Pcp.Ports.{pick_port}

abbrev pub Handled : Type 0
Handled = PcpServer × List ℕ

-- What a MAP request asks for: the request and its opcode data, the key, the external address, the
-- lifetime (0 deletes), and whether the suggestion is a condition.
pub record Ask : Type 0 where
  pub req : List ℕ
  pub payload : List ℕ
  pub key : PcpKey
  pub ext : Addr
  pub lifetime : ℕ
  pub prefer_failure : Bool

abbrev pub nonce_of : Ask → List ℕ
nonce_of a = take 12 a.payload

abbrev pub suggested_of : Ask → ℕ
suggested_of a = from_be (slice 18 20 a.payload)

abbrev pub suggested_addr : Ask → Addr
suggested_addr a = unmap (addr_from_slice (slice 20 36 a.payload))

-- `unmet`: PREFER_FAILURE turns a suggestion into a condition.
unfoldable pub unmet : Ask → ℕ → Bool
unfolding unmap addr_from_slice is_unspecified addr_eq
unmet a external =
    a.prefer_failure
    && (not (suggested_of a == external)
        || not (is_unspecified (suggested_addr a)) && not (addr_eq (suggested_addr a) a.ext))

abbrev pub refuse : PcpServer → ℕ → Ask → ℕ → ℕ → Handled
refuse p now a code lifetime = (p, fail p.start a.req code lifetime now)

abbrev pub expiry : Ask → ℕ → ℕ
expiry a now = now + a.lifetime * second

-- `p.maps[key] = cur`, with or without a push, and the answer.
unfoldable pub store : PcpServer → ℕ → Ask → PcpMap → Handled
store p now a cur = (
  record p { maps = put a.key cur p.maps },
  map_response p.start a.payload a.lifetime a.ext cur.external a.prefer_failure now,
)

unfoldable pub pushed : Handled → Handled
pushed (p, reply) = (push p, reply)

-- A new mapping: the quota, the port, the condition.
unfoldable pub grant : PcpServer → ℕ → Ask → (PcpServer → ℕ → Option ℕ) → Handled
unfolding store pushed
grant p now a pick =
    if leb pcp_max_per_host (host_mappings a.key.internal.addr p.maps)
    then refuse p now a pcp_user_ex_quota pcp_short_error
    else elim (pick p (suggested_of a)) [
      | none ↦
          if a.prefer_failure
          then refuse p now a pcp_cannot_provide_external pcp_short_error
          else refuse p now a pcp_no_resources pcp_short_error
      | some external ↦
          if unmet a external
          then refuse p now a pcp_cannot_provide_external pcp_short_error
          else pushed (
              store p now a
                (record { external = external; nonce = nonce_of a; expires = expiry a now }))
    ]

-- A mapping that is there already keeps its port.
unfoldable pub renew : PcpServer → ℕ → Ask → PcpMap → Handled
unfolding store
renew p now a cur =
    if unmet a cur.external
    then refuse p now a pcp_cannot_provide_external pcp_short_error
    else store p now a (record cur { expires = expiry a now })

-- The mapping goes, and the table is pushed.
unfoldable pub remove : PcpServer → PcpKey → PcpServer
remove p key = push (record p { maps = delete key p.maps })

abbrev pub released : PcpServer → ℕ → Ask → ℕ → Handled
released p now a external = (p, map_response p.start a.payload 0 a.ext external false now)

-- The request meets a mapping of its key under the same nonce.
unfoldable pub update :
    PcpServer → ℕ → Ask → PcpMap → (PcpServer → ℕ → Option ℕ) → (ℕ → Bool) → Handled
update p now a cur pick stale =
    if a.lifetime == 0
    then released (remove p a.key) now a cur.external
    else if stale cur.external
    then grant (remove p a.key) now a pick
    else renew p now a cur

unfoldable pub map_stateful :
    PcpServer → ℕ → Ask → (PcpServer → ℕ → Option ℕ) → (ℕ → Bool) → Handled
map_stateful p now a pick stale = elim (find a.key p.maps) [
  | none ↦ if a.lifetime == 0 then released p now a 0 else grant p now a pick
  | some cur ↦
      if bytes_eq cur.nonce (nonce_of a)
      then update p now a cur pick stale
      else refuse p now a pcp_not_authorized (u32 ((cur.expires - now) / second))
]

abbrev pub tcp_or_udp : ℕ → Bool
tcp_or_udp proto = proto == pcp_proto_tcp || proto == pcp_proto_udp

-- `mapping4`, whose `ask` has the key of the source and the port.
unfoldable pub mapping4 : PcpServer → Host → Ask → Handled
mapping4 p host a =
    let key = a.key in
    let pick = λ (q : PcpServer) (suggested : ℕ).
      pick_port host q key.proto key.internal.port suggested a.prefer_failure in
    let stale = host.local_ports key.proto p.ipv4 in
    if not (addr_valid p.ipv4)
    then refuse p host.now a pcp_network_failure pcp_short_error
    else if not (tcp_or_udp key.proto) || key.internal.port == 0
    then refuse p host.now a pcp_unsupp_protocol pcp_long_error
    else map_stateful p host.now (record a { ext = p.ipv4 }) pick stale

-- `pick` of `pinhole`: the external port is the host's own.
abbrev pub own_port : Ask → PcpServer → ℕ → Option ℕ
own_port a p suggested =
    if not a.prefer_failure || suggested == a.key.internal.port
    then some a.key.internal.port
    else none

unfoldable pub pinhole : PcpServer → ℕ → Ask → Handled
pinhole p now a =
    if not (tcp_or_udp a.key.proto) || a.key.internal.port == 0
    then refuse p now a pcp_unsupp_protocol pcp_long_error
    else map_stateful p now (record a { ext = a.key.internal.addr }) (own_port a) (λ e. false)

-- The options of the kind that PREFER_FAILURE is.
unfoldable pub prefer_options : List PcpOption → List PcpOption
prefer_options [] = []
prefer_options (o ∷ opts) =
    if o.code == pcp_opt_prefer_failure then o ∷ prefer_options opts else prefer_options opts

-- Of these one at most, with no data.
unfoldable pub well_formed_prefer : List PcpOption → Bool
well_formed_prefer [] = true
well_formed_prefer (o ∷ []) = length o.payload == 0
well_formed_prefer (o ∷ q ∷ opts) = false

abbrev pub clamp_lifetime : ℕ → ℕ
clamp_lifetime lifetime =
    if lifetime == 0 then 0 else min (max lifetime pcp_min_lifetime) pcp_max_lifetime

-- The request's fields; `ext` is the source until a family's handler sets it.
unfoldable pub ask_of : List ℕ → Addr → Ask
ask_of req src =
    let payload = slice pcp_header_len (pcp_header_len + pcp_map_len) req in
    let opts = (pcp_options (drop (pcp_header_len + pcp_map_len) req)).opts in
    record {
      req = req;
      payload = payload;
      key = record {
        proto = get_or payload 12 0;
        internal = record { addr = src; port = from_be (slice 16 18 payload) };
      };
      ext = src;
      lifetime = clamp_lifetime (from_be (slice 4 8 req));
      prefer_failure = ltb 0 (length (prefer_options opts));
    }

-- The code of a MAP request that is refused before its mapping is looked at, 0 for none.
unfoldable pub mapping_error : List ℕ → Addr → ℕ
mapping_error req src =
    let parsed = pcp_options (drop (pcp_header_len + pcp_map_len) req) in
    let unsupported = mandatory_unsupported parsed.opts (pcp_opt_prefer_failure ∷ []) in
    let a = ask_of req src in
    if ltb (length req) (pcp_header_len + pcp_map_len)
    then pcp_malformed_request
    else if not (parsed.code == pcp_success)
    then parsed.code
    else if not (unsupported == pcp_success)
    then unsupported
    else if a.key.proto == 0 && not (a.key.internal.port == 0)
    then pcp_malformed_request
    else if not (well_formed_prefer (prefer_options parsed.opts))
    then pcp_malformed_option
    else if a.prefer_failure && a.lifetime == 0
    then pcp_malformed_option
    else pcp_success

-- An IPv6 host's MAP request that passed the checks.
unfoldable pub mapping6 : PcpServer → ℕ → Ask → Handled
mapping6 p now a =
    let src = a.key.internal.addr in
    let port = a.key.internal.port in
    if a.key.proto == pcp_proto_udp && (port == pcp_client_port || port == pcp_server_port)
    then refuse p now a pcp_not_authorized pcp_long_error
    else if not (is_global_unicast src) || is_private src
    then refuse p now a pcp_not_authorized pcp_long_error
    else if p.fw
    then pinhole p now a
    else (p, map_response p.start a.payload a.lifetime src port a.prefer_failure now)

unfoldable pub mapping : PcpServer → Host → List ℕ → Addr → Handled
mapping p host req src =
    let code = mapping_error req src in
    let a = ask_of req src in
    if not (code == pcp_success)
    then (p, fail p.start req code pcp_long_error host.now)
    else if is4 src
    then mapping4 p host a
    else mapping6 p host.now a
