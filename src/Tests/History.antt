-- ===== src/Tests/History.antt =====
-- A history of the router: the tunnel comes up, the laptop and the console each get a mapping, and
-- the NAT takes what waits for it in between.
use sixup.Common.{ℕ, ◌*◌, ◌≡◌, ◌≢◌, ◌≤◌, refl, true, List, [], ◌∷◌, none, some, arith, All}
use sixup.Mape.Spans.Count.{IsSpan}
use sixup.Mape.Spans.Valid.{port_spans-IsSpan}
use sixup.NatPlan.{PortMapping}
use sixup.Pcp.Wire.{second, pcp_proto_tcp}
use sixup.Pcp.State.{
  PcpKey, PcpMap, find, host_mappings, set_tunnel, sort_func, family, tunnel_ports,
}
use sixup.Pcp.Respond.{handle}
use sixup.Pcp.Steps.Sound.{IsEntry}
use sixup.Pcp.Steps.Synced.{handed}
use sixup.Pcp.World.{
  World, started, Reach, here, next, request, snapshot, nat_takes, Reach-ne_external, Reach-IsEntry,
  Reach-quota, Reach-IsSynced,
}
use sixup.Tests.Router.{laptop, console, params, quiet, nonce, map_request, answer, laptop_key}

abbrev laptop_asks : List ℕ
laptop_asks = map_request laptop 3600 7 pcp_proto_tcp 8080 0

abbrev console_asks : List ℕ
console_asks = map_request console 3600 9 pcp_proto_tcp 3000 0

abbrev console_key : PcpKey
console_key = record { proto = pcp_proto_tcp; internal = record { addr = console; port = 3000 } }

abbrev got : ℕ → ℕ → PcpMap
got external n = record { external = external; nonce = nonce n; expires = 3700 * second }

abbrev w1 : World
w1 =
    let w = started true true 0 in
    record w { server = (set_tunnel w.server (some params) 0).server }

abbrev w2 : World
w2 = record w1 { server = (handle w1.server quiet laptop_asks laptop).0 }

abbrev taken_set : List PortMapping
taken_set =
    record {
      proto = pcp_proto_tcp;
      internal = record { addr = laptop; port = 8080 };
      external = 5472;
    }
    ∷ []

abbrev w3 : World
w3 = record w2 { server = record w2.server { map_in = none }; nat_has = taken_set }

abbrev w4 : World
w4 = record w3 { server = (handle w3.server quiet console_asks console).0 }

params_spans : All IsSpan (tunnel_ports (started true true 0).server (some params))
unfolding answer started
params_spans = port_spans-IsSpan 4 8 0x56 (omega arith) (omega arith)

history : Reach (started true true 0) w4
unfolding answer started
history =
    next
      (next
        (next (next here (snapshot _ (some params) 0 params_spans))
          (request w1 quiet laptop_asks laptop))
        (nat_takes w2 taken_set refl))
      (request w3 quiet console_asks console)

both_mapped :
    (find laptop_key w4.server.maps ≡ some (got 5472 7))
    × (find console_key w4.server.maps ≡ some (got 5473 9))
unfolding answer started
both_mapped = (refl, refl)

Reach-ne_external_example : ◌≢◌ {A = ℕ} 5472 5473
unfolding answer
Reach-ne_external_example =
    Reach-ne_external true true 0 history laptop_key console_key (got 5472 7) (got 5473 9)
      (λ e. ground arith) both_mapped.0 both_mapped.1 refl refl refl

Reach-IsEntry_example : IsEntry w4.server.ports console_key (got 5473 9)
Reach-IsEntry_example = Reach-IsEntry true true 0 history console_key (got 5473 9) both_mapped.1

Reach-quota_example : host_mappings laptop w4.server.maps ≤ 16
Reach-quota_example = Reach-quota true true 0 history laptop

-- The console's mapping waits for the NAT, with the one that the NAT has already.
Reach-IsSynced_example : handed w4.server.map_in w4.nat_has ≡ sort_func (family true w4.server.maps)
unfolding answer started
Reach-IsSynced_example = (Reach-IsSynced true true 0 history).nat_synced refl
