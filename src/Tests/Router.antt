-- ===== src/Tests/Router.antt =====
-- A router on a MAP-E line with two LAN hosts, their requests and the states that they lead to.
use sixup.Common.{
  ℕ, ◌*◌, true, false, List, [], ◌∷◌, ◌++◌, Option, none, some, be_bytes, replicate, bytes_eq,
}
use sixup.Netip.{
  Addr, ip4, ip6, as16, no_prefix, addr_eq, addr_valid, is4, unmap, addr_from_slice, is_unspecified,
  is_global_unicast, is_private,
}
use sixup.Mape.Spans.{port_spans}
use sixup.NatPlan.{nat_plan_for}
use sixup.Tunnel.Params.{no_params, TunnelParams, map_e}
use sixup.Pcp.Ports.{search_from, all_spans, usable}
use sixup.Mape.Spans.{port_count}
use sixup.Pcp.Wire.{second, pcp_proto_tcp}
use sixup.Pcp.Wire.{epoch, header, fail, map_response, pcp_options, mandatory_unsupported}
use sixup.Pcp.State.{
  PcpServer, PcpKey, PcpMap, Host, key_eq, find, put, delete_func, family, sort_func, push,
  host_mappings, keep_maps, expire, spans_eq, moved, change_tunnel, set_tunnel, tunnel_ipv4,
  tunnel_ports,
}
use sixup.Pcp.Ports.{usable, taken, pick_port}
use sixup.Pcp.Mapping.{
  unmet, store, pushed, grant, renew, remove, update, map_stateful, mapping4, pinhole, mapping6,
  prefer_options, well_formed_prefer, ask_of, mapping_error, mapping,
}
use sixup.Pcp.Natpmp.{
  reply, as4, pcp_words, pmp_request, pmp_ask, translate, release_all, natpmp_map, natpmp,
}
use sixup.Pcp.Respond.{announced, dispatch, request_error, answered, handle}

-- 192.168.1.10 and 192.168.1.11, and the line's 106.72.0.1.
abbrev pub laptop : Addr
laptop = ip4 0xc0a8010a

abbrev pub console : Addr
console = ip4 0xc0a8010b

abbrev pub line : Addr
line = ip4 0x6a480001

-- PSID 0x56 of 8 bits, offset 4.
abbrev pub params : TunnelParams
params = record no_params {
  kind = map_e;
  local = ip6 1;
  remote = ip6 2;
  rule_mape = some (record {
    br = ip6 2;
    ipv4 = line;
    rule4 = no_prefix;
    rule6 = no_prefix;
    ea_len = 25;
    psid_len = 8;
    offset = 4;
    psid = 0x56;
    ce = ip6 1;
    ports = port_spans 4 8 0x56;
  });
}

abbrev pub quiet : Host
quiet = record { now = 100 * second; local_ports = λ proto a e. false; int_n = λ n. 0 }

abbrev pub nonce : ℕ → List ℕ
nonce n = be_bytes 12 n

-- A MAP request of a host: lifetime, nonce, protocol, internal and suggested port.
abbrev pub map_request : Addr → ℕ → ℕ → ℕ → ℕ → ℕ → List ℕ
unfolding as16
map_request src lifetime n proto internal suggested =
    2
    ∷ 1
    ∷ 0
    ∷ 0
    ∷ (be_bytes 4 lifetime
        ++ (as16 src
            ++ (nonce n
                ++ (proto
                    ∷ 0
                    ∷ 0
                    ∷ 0
                    ∷ (be_bytes 2 internal ++ (be_bytes 2 suggested ++ replicate 16 0))))))

-- A server on the line with one mapping, of the laptop's TCP port 8080.
abbrev pub laptop_key : PcpKey
laptop_key = record { proto = pcp_proto_tcp; internal = record { addr = laptop; port = 8080 } }

abbrev pub laptop_map : PcpMap
laptop_map = record { external = 5472; nonce = nonce 7; expires = 3700 * second }

abbrev pub serving : PcpServer
serving = record {
  nat = true;
  fw = true;
  start = 0;
  ipv4 = line;
  ports = port_spans 4 8 0x56;
  maps = (laptop_key, laptop_map) ∷ [];
  map_in = none;
  hole_in = none;
}

-- Naming this on an `unfolding` line opens the whole server.
unfoldable pub answer : PcpServer → Host → List ℕ → Addr → PcpServer × Option (List ℕ)
unfolding search_from port_count all_spans bytes_eq handle answered request_error dispatch announced
    natpmp natpmp_map release_all translate pmp_ask pmp_request pcp_words as4 reply mapping
    mapping_error ask_of well_formed_prefer prefer_options mapping6 pinhole mapping4 map_stateful
    update remove renew grant pushed store unmet pick_port taken usable set_tunnel change_tunnel
    moved spans_eq expire keep_maps host_mappings push sort_func family delete_func put find key_eq
    tunnel_ipv4 tunnel_ports mandatory_unsupported pcp_options map_response fail header epoch as16
    addr_eq addr_valid is4 unmap addr_from_slice is_unspecified is_global_unicast is_private
    port_spans nat_plan_for
answer = handle
