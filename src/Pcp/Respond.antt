-- ===== src/Pcp/Respond.antt =====
-- One request: `respond` and `handle` of pcp.go, whose logging is left out.
use sixup.Common.{
  ℕ, ◌%◌, bit_and, not, ◌&&◌, ◌||◌, List, [], Option, none, some, ltb, ◌==◌, if◌then◌else◌, length,
  drop, slice, get_or,
}
use sixup.Netip.{Addr, addr_eq, is4, unmap, addr_from_slice}
use sixup.Pcp.Wire.{
  pcp_header_len, pcp_version, pcp_max_len, pcp_op_announce, pcp_op_map, pcp_long_error,
  pcp_success, pcp_unsupp_version, pcp_malformed_request, pcp_unsupp_opcode, pcp_address_mismatch,
  header, fail, pcp_options, mandatory_unsupported,
}
use sixup.Pcp.State.{PcpServer, Host}
use sixup.Pcp.Mapping.{mapping}
use sixup.Pcp.Natpmp.{natpmp}

-- An ANNOUNCE request.
unfoldable pub announced : PcpServer → ℕ → List ℕ → List ℕ
announced p now req =
    let parsed = pcp_options (drop pcp_header_len req) in
    let unsupported = mandatory_unsupported parsed.opts [] in
    if not (parsed.code == pcp_success)
    then fail p.start req parsed.code pcp_long_error now
    else if not (unsupported == pcp_success)
    then fail p.start req unsupported pcp_long_error now
    else header p.start pcp_op_announce pcp_success 0 now

-- A request of this version and a sound length and source.
unfoldable pub dispatch : PcpServer → Host → List ℕ → Addr → PcpServer × List ℕ
dispatch p host req src =
    let opcode = get_or req 1 0 in
    if opcode == pcp_op_announce
    then (p, announced p host.now req)
    else if opcode == pcp_op_map
    then mapping p host req src
    else (p, fail p.start req pcp_unsupp_opcode pcp_long_error host.now)

-- The code of a request that is refused for its length or its source, 0 for none.
unfoldable pub request_error : List ℕ → Addr → ℕ
unfolding addr_eq unmap addr_from_slice
request_error req src =
    if ltb pcp_max_len (length req) || not (length req % 4 == 0)
    then pcp_malformed_request
    else if not (addr_eq (unmap (addr_from_slice (slice 8 24 req))) src)
    then pcp_address_mismatch
    else pcp_success

unfoldable pub answered : PcpServer × List ℕ → PcpServer × Option (List ℕ)
answered (p, resp) = (p, some resp)

unfoldable pub handle : PcpServer → Host → List ℕ → Addr → PcpServer × Option (List ℕ)
unfolding answered
handle p host req src =
    let refusal = λ (code : ℕ).
      (let resp : PcpServer × Option (List ℕ) =
          (p, some (fail p.start req code pcp_long_error host.now)) in
        resp) in
    let code = request_error req src in
    if ltb (length req) 2 || not (bit_and (get_or req 1 0) 0x80 == 0)
    then (p, none)
    else if get_or req 0 0 == 0 && is4 src
    then natpmp p host req src
    else if not (get_or req 0 0 == pcp_version)
    then refusal pcp_unsupp_version
    else if ltb (length req) pcp_header_len
    then (p, none)
    else if not (code == pcp_success)
    then refusal code
    else answered (dispatch p host req src)
