-- ===== src/Tunnel/Params.antt =====
-- The tunnel's parameters: `TunnelParams`, `resolve`, `tunnelEqual` and `endpoints` of tunnel.go,
-- and the `tunnelGuess` of capture.go that they hold.
use native.Mathlib.Decide.{ℕ_discrete}
use sixup.Common.{
  ℕ, Bool, true, false, ◌&&◌, List, [], ◌∷◌, Option, none, some, if◌then◌else◌, is_yes,
}
use sixup.Netip.{Addr, no_addr, ip4, addr_valid}
use sixup.Mape.{MapeResult, S46Cont}

-- `tunnelKind`, with the empty string of a tunnel that is not known yet.
pub data TunnelKind : Type 0 where
  no_kind ds_lite map_e kind_4in6 : TunnelKind

-- `tunnelSource`, with the empty string.
pub data TunnelSource : Type 0 where
  no_tunnel_source from_dhcpv6 from_rules from_capture : TunnelSource

-- `tunnelGuess`; a text is its bytes.
pub record TunnelGuess : Type 0 where
  pub type : TunnelKind
  pub remote : Addr
  pub local : Addr
  pub ipv4 : Addr
  pub psid_offset : ℕ
  pub psid : Option ℕ
  pub psid_len : List ℕ
  pub port_min : ℕ
  pub port_max : ℕ
  pub packets : ℕ
  pub ports : ℕ
  pub confidence : List ℕ
  pub note : List ℕ

pub record TunnelParams : Type 0 where
  pub kind : TunnelKind
  pub source : TunnelSource
  pub local : Addr
  pub remote : Addr
  pub ipv4 : Addr
  pub confidence : List ℕ
  pub note : List ℕ
  pub aftr_name : List ℕ
  pub aftr_addrs : List Addr
  pub mape : Option S46Cont
  pub mapt : Option S46Cont
  pub lw4o6 : Option S46Cont
  pub raw_mapt : List ℕ
  pub raw_lw4o6 : List ℕ
  pub mape_source : TunnelSource
  pub rule_mape : Option MapeResult
  pub captured : Option TunnelGuess
  pub conflicts : List Addr
  pub errors : List (List ℕ × List ℕ)

-- `TunnelParams{}`.
abbrev pub no_params : TunnelParams
no_params = record {
  kind = no_kind;
  source = no_tunnel_source;
  local = no_addr;
  remote = no_addr;
  ipv4 = no_addr;
  confidence = [];
  note = [];
  aftr_name = [];
  aftr_addrs = [];
  mape = none;
  mapt = none;
  lw4o6 = none;
  raw_mapt = [];
  raw_lw4o6 = [];
  mape_source = no_tunnel_source;
  rule_mape = none;
  captured = none;
  conflicts = [];
  errors = [];
}

pub Addr-discrete : Discrete Addr
Addr-discrete = hlevel ℕ_discrete

pub TunnelParams-discrete : Discrete TunnelParams
TunnelParams-discrete = hlevel (ℕ_discrete, Addr-discrete)

-- `tunnelEqual`; a nil slice and an empty one are one list here.
unfoldable pub tunnel_equal : Option TunnelParams → Option TunnelParams → Bool
tunnel_equal none none = true
tunnel_equal none (some b) = false
tunnel_equal (some a) none = false
tunnel_equal (some a) (some b) = is_yes (TunnelParams-discrete a b)

-- The three cases of `resolve`, and the fields as it clears them.
cleared : TunnelParams → TunnelParams
cleared t = record t {
  kind = no_kind;
  source = no_tunnel_source;
  confidence = [];
  note = [];
  local = no_addr;
  remote = no_addr;
  ipv4 = no_addr;
}

by_capture : TunnelParams → Option TunnelGuess → TunnelParams
by_capture t none = t
by_capture t (some g) =
    if addr_valid g.local && addr_valid g.remote
    then record t {
      kind = g.type;
      source = from_capture;
      confidence = g.confidence;
      note = g.note;
      local = g.local;
      remote = g.remote;
      ipv4 = g.ipv4;
    }
    else t

by_rule : TunnelParams → Option MapeResult → TunnelParams
unfolding by_capture
by_rule t none = by_capture t t.captured
by_rule t (some r) =
    if addr_valid r.ce && addr_valid r.br
    then record t {
      kind = map_e;
      source = t.mape_source;
      local = r.ce;
      remote = r.br;
      ipv4 = r.ipv4;
    }
    else by_capture t t.captured

by_aftr : TunnelParams → Addr → List Addr → TunnelParams
unfolding by_rule
by_aftr t wan [] = by_rule t t.rule_mape
by_aftr t wan (aftr ∷ more) =
    if addr_valid wan
    then record t {
      kind = ds_lite;
      source = from_dhcpv6;
      local = wan;
      remote = aftr;
      ipv4 = ip4 0xc0000002;
    }
    else by_rule t t.rule_mape

unfoldable pub resolve : TunnelParams → Addr → TunnelParams
unfolding by_aftr cleared
resolve t wan = by_aftr (cleared t) wan t.aftr_addrs

endpoint_of : Option MapeResult → List Addr
endpoint_of none = []
endpoint_of (some r) = if addr_valid r.ce then r.ce ∷ [] else []

unfoldable pub endpoints : TunnelParams → List Addr
unfolding endpoint_of
endpoints t = endpoint_of t.rule_mape
