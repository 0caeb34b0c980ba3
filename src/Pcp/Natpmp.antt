-- ===== src/Pcp/Natpmp.antt =====
-- NAT-PMP: `natpmp` of natpmp.go.
use sixup.Common.{
  ℕ, ◌+◌, ◌-◌, bit_or, false, not, ◌&&◌, ◌||◌, List, ◌∷◌, ◌++◌, Option, none, some, ltb, ◌==◌,
  if◌then◌else◌, length, slice, copy, get_or, replicate, be_bytes, from_be,
}
use sixup.Netip.{Addr, addr_eq, addr_valid, as16, ip4, ip6, no_addr}
use sixup.Pcp.Wire.{
  pcp_header_len, pcp_version, pcp_op_map, pcp_proto_tcp, pcp_proto_udp, pcp_success,
  pcp_not_authorized, epoch,
}
use sixup.Pcp.State.{PcpServer, Host, delete_func, keep_maps}
use sixup.Pcp.Mapping.{Ask, Handled, mapping4, clamp_lifetime}

abbrev pub natpmp_op_address : ℕ
natpmp_op_address = 0

abbrev pub natpmp_op_udp : ℕ
natpmp_op_udp = 1

abbrev pub natpmp_op_tcp : ℕ
natpmp_op_tcp = 2

abbrev pub natpmp_success : ℕ
natpmp_success = 0

abbrev pub natpmp_refused : ℕ
natpmp_refused = 2

abbrev pub natpmp_network_failure : ℕ
natpmp_network_failure = 3

abbrev pub natpmp_no_resources : ℕ
natpmp_no_resources = 4

abbrev pub natpmp_unsupp_opcode : ℕ
natpmp_unsupp_opcode = 5

-- `reply`: opcode, result, length.
unfoldable pub reply : PcpServer → ℕ → ℕ → ℕ → ℕ → List ℕ
unfolding epoch
reply p now op result n =
    0
    ∷ bit_or 0x80 op
    ∷ (be_bytes 2 result ++ (be_bytes 4 (epoch p.start now) ++ replicate (n - 8) 0))

-- `As4` of the tunnel's address, which is IPv4 where it is valid.
unfoldable pub as4 : Addr → List ℕ
as4 no_addr = be_bytes 4 0
as4 (ip4 a) = be_bytes 4 a
as4 (ip6 a) = be_bytes 4 0

-- The same request in PCP's words: the 60 bytes.
unfoldable pub pcp_words : Addr → ℕ → ℕ → ℕ → ℕ → List ℕ
unfolding as16
pcp_words src proto internal suggested lifetime =
    pcp_version
    ∷ pcp_op_map
    ∷ 0
    ∷ 0
    ∷ (be_bytes 4 lifetime
        ++ (as16 src
            ++ (replicate 12 0
                ++ (proto
                    ∷ 0
                    ∷ 0
                    ∷ 0
                    ∷ (be_bytes 2 internal
                        ++ (be_bytes 2 (if lifetime == 0 then 0 else suggested)
                            ++ replicate 16 0))))))

pub record PmpRequest : Type 0 where
  pub proto : ℕ
  pub internal : ℕ
  pub suggested : ℕ
  pub lifetime : ℕ

unfoldable pub pmp_request : List ℕ → PmpRequest
pmp_request req = record {
  proto = if get_or req 1 0 == natpmp_op_tcp then pcp_proto_tcp else pcp_proto_udp;
  internal = from_be (slice 4 6 req);
  suggested = from_be (slice 6 8 req);
  lifetime = from_be (slice 8 12 req);
}

unfoldable pub pmp_ask : PmpRequest → Addr → Ask
pmp_ask r src =
    let words = pcp_words src r.proto r.internal r.suggested r.lifetime in
    record {
      req = words;
      payload = slice pcp_header_len (pcp_header_len + 36) words;
      key = record { proto = r.proto; internal = record { addr = src; port = r.internal } };
      ext = src;
      lifetime = clamp_lifetime r.lifetime;
      prefer_failure = false;
    }

-- The answer, from PCP's to the request in its words.
unfoldable pub translate : List ℕ → ℕ → List ℕ → List ℕ
translate b lifetime out =
    let code = get_or out 3 0 in
    if code == pcp_success
    then if lifetime == 0
      then b
      else copy 12 (slice 4 8 out)
          (copy 10 (slice (pcp_header_len + 18) (pcp_header_len + 20) out) b)
    else copy 2
        (be_bytes 2 (if code == pcp_not_authorized then natpmp_refused else natpmp_no_resources)) b

-- Every mapping of the host for the protocol goes.
unfoldable pub release_all : PcpServer → ℕ → Addr → PcpServer
release_all p proto src =
    keep_maps p (delete_func (λ k m. k.proto == proto && addr_eq k.internal.addr src) p.maps)

-- A mapping request of 12 bytes or more.
unfoldable pub natpmp_map : PcpServer → Host → List ℕ → Addr → Handled
natpmp_map p host req src =
    let r = pmp_request req in
    let b = copy 8 (be_bytes 2 r.internal) (reply p host.now (get_or req 1 0) natpmp_success 16) in
    let (p', out) = mapping4 p host (pmp_ask r src) in
    if not (addr_valid p.ipv4)
    then (p, copy 2 (be_bytes 2 natpmp_network_failure) b)
    else if r.internal == 0
    then if r.lifetime == 0
      then (release_all p r.proto src, b)
      else (p, copy 2 (be_bytes 2 natpmp_refused) b)
    else (p', translate b r.lifetime out)

-- `none` for no reply.
unfoldable pub natpmp : PcpServer → Host → List ℕ → Addr → PcpServer × Option (List ℕ)
natpmp p host req src =
    let op = get_or req 1 0 in
    let (p', b) = natpmp_map p host req src in
    if op == natpmp_op_address
    then if addr_valid p.ipv4
      then (p, some (copy 8 (as4 p.ipv4) (reply p host.now op natpmp_success 12)))
      else (p, some (reply p host.now op natpmp_network_failure 12))
    else if op == natpmp_op_udp || op == natpmp_op_tcp
    then if ltb (length req) 12 then (p, none) else (p', some b)
    else (p, some (reply p host.now op natpmp_unsupp_opcode 8))
