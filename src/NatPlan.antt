-- ===== src/NatPlan.antt =====
-- What the tunnel's NAT should contain: nat_plan.go.
use sixup.Common.{
  ℕ, Bool, true, false, not, ◌&&◌, ◌||◌, List, [], Option, none, some, ltb, if◌then◌else◌, length,
}
use sixup.Netip.{Addr, no_addr, addr_valid, is4, AddrPort}
use sixup.Mape.{MapeResult}
use sixup.Tunnel.Params.{TunnelKind, ds_lite, TunnelParams}
use sixup.Mape.Spans.{PortSpan}

-- An external port sent to a LAN host.
pub record PortMapping : Type 0 where
  pub proto : ℕ
  pub internal : AddrPort
  pub external : ℕ

pub record NatPlan : Type 0 where
  pub kind : TunnelKind
  pub ipv4 : Addr
  pub ports : List PortSpan
  pub mtu : ℕ
  pub mappings : List PortMapping

unfoldable pub is_ds_lite : TunnelKind → Bool
is_ds_lite ds_lite = true
is_ds_lite _ = false

-- `case t.RuleMAPE != nil && len(t.RuleMAPE.Ports) > 0`.
rule_ports : Option MapeResult → List PortSpan
rule_ports none = []
rule_ports (some r) = r.ports

rule_ipv4 : Option MapeResult → Addr
rule_ipv4 none = no_addr
rule_ipv4 (some r) = r.ipv4

-- `natPlanFor`: `none` for its false.
unfoldable pub nat_plan_for : Option TunnelParams → ℕ → Option NatPlan
unfolding addr_valid is_ds_lite rule_ports rule_ipv4 is4
nat_plan_for none mtu = none
nat_plan_for (some t) mtu =
    let p : NatPlan = record {
      kind = t.kind;
      ipv4 = no_addr;
      ports = [];
      mtu = mtu;
      mappings = [];
    } in
    let ports = rule_ports t.rule_mape in
    if not (addr_valid t.local) || not (addr_valid t.remote)
    then none
    else some (
        if is_ds_lite t.kind
        then p
        else if ltb 0 (length ports)
        then record p { ipv4 = rule_ipv4 t.rule_mape; ports = ports }
        else if addr_valid t.ipv4 && is4 t.ipv4
        then record p { ipv4 = t.ipv4 }
        else p)
