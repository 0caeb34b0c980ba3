-- ===== src/Tests/Server.antt =====
-- The PCP server of `Router`.
use sixup.Common.{ℕ, ◌*◌, ◌≡◌, ◌⊎◌, refl, true, false, List, [], ◌∷◌, none, some, arith}
use sixup.Mape.Spans.Valid.{port_spans-IsSpan}
use sixup.Pcp.Wire.{second, pcp_proto_tcp, pcp_options, PcpOption}
use sixup.Pcp.Wire.RoundTrip.{write_options, pcp_options-write_options}
use sixup.Pcp.State.{PcpKey, PcpMap, Host, find, set_tunnel}
use sixup.Pcp.Ports.{usable}
use sixup.Pcp.Ports.Pick.{pick_port-none}
use sixup.Pcp.Respond.{handle}
use sixup.Pcp.Nonce.{handle-find_nonce}
use sixup.Pcp.Steps.{Change, IsLifetime}
use sixup.Pcp.Steps.Requests.{handle-Change}
use sixup.Pcp.Steps.Frame.{handle-find_other}
use sixup.Pcp.Steps.Expiry.{handle-IsLifetime}
use sixup.Pcp.Steps.Tunnel.{set_tunnel-follows}
use sixup.Tests.Router.{
  laptop, console, line, quiet, nonce, map_request, answer, laptop_key, laptop_map, serving,
}

-- The console asks for TCP port 3000 and gets the second port of the line's set.
abbrev console_request : List ℕ
console_request = map_request console 3600 9 pcp_proto_tcp 3000 0

abbrev console_key : PcpKey
console_key = record { proto = pcp_proto_tcp; internal = record { addr = console; port = 3000 } }

abbrev console_map : PcpMap
console_map = record { external = 5473; nonce = nonce 9; expires = 3700 * second }

console_granted :
    find console_key (handle serving quiet console_request console).0.maps ≡ some console_map
unfolding answer
console_granted = refl

-- A request to delete the laptop's mapping, from its address but under another nonce.
abbrev stranger_request : List ℕ
stranger_request = map_request laptop 0 8 pcp_proto_tcp 8080 0

handle-Change_example :
    Change quiet console serving (handle serving quiet console_request console).0
handle-Change_example = handle-Change serving quiet console_request console

handle-find_nonce_example :
    find laptop_key (handle serving quiet stranger_request laptop).0.maps ≡ some laptop_map
unfolding answer
handle-find_nonce_example =
    handle-find_nonce serving quiet stranger_request laptop laptop_key laptop_map refl refl refl

handle-find_other_example :
    find laptop_key (handle serving quiet console_request console).0.maps
    ≡ find laptop_key serving.maps
handle-find_other_example =
    handle-find_other serving quiet console_request console laptop_key (λ e. ground arith)

handle-IsLifetime_example :
    (find console_key serving.maps ≡ some console_map) ⊎ IsLifetime quiet.now console_map.expires
handle-IsLifetime_example =
    handle-IsLifetime serving quiet console_request console console_key console_map console_granted

-- The tunnel goes down.
set_tunnel-follows_example : find laptop_key (set_tunnel serving none 0).server.maps ≡ none
unfolding answer
set_tunnel-follows_example = (set_tunnel-follows serving none 0 laptop_key).3

-- A router that listens on every port itself has none to give.
abbrev busy : Host
busy = record quiet { local_ports = λ proto a e. true }

pick_port-none_example :
    usable (busy.local_ports pcp_proto_tcp line) serving pcp_proto_tcp 5473 ≡ false
unfolding answer
pick_port-none_example =
    pick_port-none busy serving pcp_proto_tcp 3000 0 5473
      (port_spans-IsSpan 4 8 0x56 (omega arith) (omega arith)) (omega arith) refl

abbrev two_options : List PcpOption
two_options =
    record { code = 2; payload = [] } ∷ record { code = 130; payload = 1 ∷ 2 ∷ 3 ∷ [] } ∷ []

pcp_options-write_options_example :
    pcp_options (write_options two_options) ≡ record { opts = two_options; code = 0 }
pcp_options-write_options_example = pcp_options-write_options two_options (omega arith)
