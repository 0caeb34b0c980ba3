-- ===== src/Pcp/Wire.antt =====
-- PCP messages as bytes: the constants, `header`, `fail`, `mapResponse`, `pcpOptions` and
-- `mandatoryUnsupported` of pcp.go. An instant is a number of nanoseconds.
pub mod RoundTrip
use sixup.Common.{
  ℕ, zero, suc, ◌+◌, ◌-◌, ◌*◌, ◌/◌, ◌%◌, ◌^◌, bit_and, bit_or, Bool, true, false, not, ◌&&◌, ◌||◌,
  List, [], ◌∷◌, ◌++◌, ltb, leb, ◌==◌, if◌then◌else◌, length, take, drop, slice, copy, get_or,
  replicate, any, be_bytes, from_be, u32,
}
use sixup.Netip.{Addr, as16}

abbrev pub pcp_server_port : ℕ
pcp_server_port = 5351

abbrev pub pcp_client_port : ℕ
pcp_client_port = 5350

abbrev pub pcp_version : ℕ
pcp_version = 2

abbrev pub pcp_header_len : ℕ
pcp_header_len = 24

abbrev pub pcp_max_len : ℕ
pcp_max_len = 1100

abbrev pub pcp_map_len : ℕ
pcp_map_len = 36

abbrev pub pcp_op_announce : ℕ
pcp_op_announce = 0

abbrev pub pcp_op_map : ℕ
pcp_op_map = 1

abbrev pub pcp_opt_prefer_failure : ℕ
pcp_opt_prefer_failure = 2

abbrev pub pcp_min_lifetime : ℕ
pcp_min_lifetime = 120

abbrev pub pcp_max_lifetime : ℕ
pcp_max_lifetime = 24 * 60 * 60

abbrev pub pcp_short_error : ℕ
pcp_short_error = 30

abbrev pub pcp_long_error : ℕ
pcp_long_error = 30 * 60

abbrev pub pcp_proto_tcp : ℕ
pcp_proto_tcp = 6

abbrev pub pcp_proto_udp : ℕ
pcp_proto_udp = 17

abbrev pub pcp_max_per_host : ℕ
pcp_max_per_host = 16

abbrev pub pcp_min_external : ℕ
pcp_min_external = 1024

-- The result codes. They are bytes of a message, so numbers.
abbrev pub pcp_success : ℕ
pcp_success = 0

abbrev pub pcp_unsupp_version : ℕ
pcp_unsupp_version = 1

abbrev pub pcp_not_authorized : ℕ
pcp_not_authorized = 2

abbrev pub pcp_malformed_request : ℕ
pcp_malformed_request = 3

abbrev pub pcp_unsupp_opcode : ℕ
pcp_unsupp_opcode = 4

abbrev pub pcp_unsupp_option : ℕ
pcp_unsupp_option = 5

abbrev pub pcp_malformed_option : ℕ
pcp_malformed_option = 6

abbrev pub pcp_network_failure : ℕ
pcp_network_failure = 7

abbrev pub pcp_no_resources : ℕ
pcp_no_resources = 8

abbrev pub pcp_unsupp_protocol : ℕ
pcp_unsupp_protocol = 9

abbrev pub pcp_user_ex_quota : ℕ
pcp_user_ex_quota = 10

abbrev pub pcp_cannot_provide_external : ℕ
pcp_cannot_provide_external = 11

abbrev pub pcp_address_mismatch : ℕ
pcp_address_mismatch = 12

abbrev pub second : ℕ
second = 1000000000

-- `uint32(now.Sub(start)/time.Second)`: a negative duration is divided towards 0 and wraps.
unfoldable pub epoch : ℕ → ℕ → ℕ
epoch start now =
    if leb start now
    then u32 ((now - start) / second)
    else u32 (2 ^ 32 - u32 ((start - now) / second))

-- `header`: the start of the server's clock, opcode, result, lifetime, now.
unfoldable pub header : ℕ → ℕ → ℕ → ℕ → ℕ → List ℕ
unfolding epoch
header start opcode result lifetime now =
    pcp_version
    ∷ bit_or 0x80 opcode
    ∷ 0
    ∷ result
    ∷ (be_bytes 4 lifetime ++ (be_bytes 4 (epoch start now) ++ replicate 12 0))

-- `resp = append(resp, make([]byte, pcpHeaderLen-len(resp))...)`, where it is shorter.
pad_header : List ℕ → List ℕ
pad_header resp =
    if ltb (length resp) pcp_header_len
    then resp ++ replicate (pcp_header_len - length resp) 0
    else resp

unfoldable pub fail : ℕ → List ℕ → ℕ → ℕ → ℕ → List ℕ
unfolding header pad_header
fail start req code lifetime now =
    let resp = pad_header (take pcp_max_len req) in
    copy 0 (header start (bit_and (get_or resp 1 0) 0x7f) code lifetime now) resp

unfoldable pub map_response : ℕ → List ℕ → ℕ → Addr → ℕ → Bool → ℕ → List ℕ
unfolding header as16
map_response start payload lifetime addr port prefer_failure now =
    let out = copy 20 (as16 addr) (copy 18 (be_bytes 2 port) (copy 13 (replicate 3 0) payload)) in
    header start pcp_op_map pcp_success lifetime now
    ++ (out ++ (if prefer_failure then pcp_opt_prefer_failure ∷ 0 ∷ 0 ∷ 0 ∷ [] else []))

pub record PcpOption : Type 0 where
  pub code : ℕ
  pub payload : List ℕ

-- The options and the result code; a failure has no options.
pub record Options : Type 0 where
  pub opts : List PcpOption
  pub code : ℕ

abbrev malformed : Options
malformed = record { opts = []; code = pcp_malformed_option }

-- The length of an option with its header and its padding to a multiple of 4.
abbrev pub padded_len : ℕ → ℕ
padded_len n = 4 + (n + 3) / 4 * 4

-- The loop of `pcpOptions`, which takes at least 4 bytes a round; fuel for the rounds.
options_from : ℕ → List PcpOption → List ℕ → Options
options_from zero out b =
    if length b == 0 then record { opts = out; code = pcp_success } else malformed
options_from (suc fuel) out b =
    let n = from_be (slice 2 4 b) in
    let option : PcpOption = record { code = get_or b 0 0; payload = slice 4 (4 + n) b } in
    let rest = options_from fuel (out ++ (option ∷ [])) (drop (padded_len n) b) in
    if length b == 0
    then record { opts = out; code = pcp_success }
    else if ltb (length b) 4 || ltb (length b) (padded_len n)
    then malformed
    else rest

unfoldable pub pcp_options : List ℕ → Options
unfolding options_from
pcp_options b = options_from (length b) [] b

unfoldable pub mandatory_unsupported : List PcpOption → List ℕ → ℕ
mandatory_unsupported [] known = pcp_success
mandatory_unsupported (o ∷ opts) known =
    if ltb o.code 128 && not (any (λ k. k == o.code) known)
    then pcp_unsupp_option
    else mandatory_unsupported opts known
