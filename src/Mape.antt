-- ===== src/Mape.antt =====
-- MAP-E parameters: mape.go, and the rule types of tunnel.go.
pub mod Calc
pub mod Rules
pub mod S46
pub mod Spans
use sixup.Common.{ℕ, Bool, List, Option}
use sixup.Netip.{Addr, Prefix}
use Spans.{PortSpan}

-- The parameters of a line; the octet lengths are uint8, the PSID is a uint16. `Provider`, a text
-- for the log, is left out.
pub record MapeResult : Type 0 where
  pub br : Addr
  pub ipv4 : Addr
  pub rule4 : Prefix
  pub rule6 : Prefix
  pub ea_len : ℕ
  pub psid_len : ℕ
  pub offset : ℕ
  pub psid : ℕ
  pub ce : Addr
  pub ports : List PortSpan

-- `S46Rule` and `S46Cont`, the DHCPv6 option 94 container.
pub record S46Rule : Type 0 where
  pub fmr : Bool
  pub ea_len : ℕ
  pub ipv4_prefix : Prefix
  pub ipv6_prefix : Prefix
  pub psid_offset : Option ℕ
  pub psid_len : Option ℕ
  pub psid : Option ℕ

-- `S46Bind`, of lightweight 4over6.
pub record S46Bind : Type 0 where
  pub ipv4_addr : Addr
  pub ipv6_prefix : Prefix
  pub psid_offset : Option ℕ
  pub psid_len : Option ℕ
  pub psid : Option ℕ

pub record S46Cont : Type 0 where
  pub br : List Addr
  pub dmr : Option Prefix
  pub rules : List S46Rule
  pub bind : Option S46Bind
