-- ===== src/Store/Classify.antt =====
-- What a new snapshot changes: the classification of `recompute` (prefix.go), with `changeRank`.
pub mod Quiet
use native.Mathlib.Decide.{ℕ_discrete}
use sixup.Common.{
  ℕ, ◌≡◌, ◌≢◌, refl, inl, inr, Bool-cases, arith, Bool, true, false, not, ◌&&◌, ◌||◌, List, [], ◌∷◌,
  Option, none, some, ◌==◌, ltb, if◌then◌else◌, length, get, put, bytes_eq, is_yes,
}
use sixup.Netip.{Addr, addr_eq, Prefix, prefix_eq}
use sixup.Tunnel.Params.{Addr-discrete, tunnel_equal}
use package.sixup.Store.{
  PrefixSource, is_ula, source_eq, ChangeKind, change_add, change_renew, change_revoke, change_none,
  LinePrefix, DhcpOption, Snapshot,
}

unfoldable pub is_none_change : ChangeKind → Bool
is_none_change change_none = true
is_none_change _ = false

unfoldable pub change_rank : ChangeKind → ℕ
change_rank change_revoke = 3
change_rank change_add = 2
change_rank change_renew = 1
change_rank change_none = 0

-- `changeRank` of the empty string.
unfoldable pub pending_rank : Option ChangeKind → ℕ
unfolding change_rank
pending_rank none = 0
pending_rank (some c) = change_rank c

unfoldable pub same_times : LinePrefix → LinePrefix → Bool
same_times a b = a.valid == b.valid && a.preferred == b.preferred

-- A prefix against the one of its key before.
unfoldable pub against : Option LinePrefix → LinePrefix → ChangeKind → ChangeKind
unfolding is_none_change same_times
against none p change = change_add
against (some old) p change =
    if old.deprecated && not p.deprecated
    then change_add
    else if is_none_change change && not (same_times old p)
    then change_renew
    else change

unfoldable pub is_known_prefix : Option LinePrefix → Bool
is_known_prefix none = false
is_known_prefix (some p) = true

unfoldable pub lan_prefix_change : List (Prefix × LinePrefix) → LinePrefix → ChangeKind → ChangeKind
lan_prefix_change old p change =
    if is_ula p.source && not p.delegated
    then if is_known_prefix (get prefix_eq p.prefix old) then change else change_add
    else against (get prefix_eq p.prefix old) p change

unfoldable pub lan_prefixes_change :
    List (Prefix × LinePrefix) → List LinePrefix → ChangeKind → ChangeKind
lan_prefixes_change old [] change = change
lan_prefixes_change old (p ∷ ps) change =
    lan_prefixes_change old ps (lan_prefix_change old p change)

unfoldable pub lan_change :
    List (Prefix × LinePrefix) → List (List ℕ × List LinePrefix) → ChangeKind → ChangeKind
lan_change old [] change = change
lan_change old ((iface, ps) ∷ lan) change = lan_change old lan (lan_prefixes_change old ps change)

-- `oldSet`, and `oldW` by prefix and source.
unfoldable pub add_old : List LinePrefix → List (Prefix × LinePrefix) → List (Prefix × LinePrefix)
add_old [] old = old
add_old (p ∷ ps) old = add_old ps (put prefix_eq p.prefix p old)

unfoldable pub old_set :
    List (List ℕ × List LinePrefix) → List (Prefix × LinePrefix) → List (Prefix × LinePrefix)
old_set [] old = old
old_set ((iface, ps) ∷ lan) old = old_set lan (add_old ps old)

-- `wanKey`.
pub record WanKey : Type 0 where
  pub prefix : Prefix
  pub source : PrefixSource

unfoldable pub wan_key_eq : WanKey → WanKey → Bool
wan_key_eq a b = prefix_eq a.prefix b.prefix && source_eq a.source b.source

unfoldable pub old_wan : List LinePrefix → List (WanKey × LinePrefix) → List (WanKey × LinePrefix)
old_wan [] old = old
old_wan (p ∷ ps) old =
    old_wan ps (put wan_key_eq (record { prefix = p.prefix; source = p.source }) p old)

unfoldable pub wan_change : List (WanKey × LinePrefix) → List LinePrefix → ChangeKind → ChangeKind
wan_change old [] change = change
wan_change old (p ∷ ps) change =
    let before = get wan_key_eq (record { prefix = p.prefix; source = p.source }) old in
    wan_change old ps (against before p change)

unfoldable pub bool_eq : Bool → Bool → Bool
bool_eq true b = b
bool_eq false b = not b

unfoldable pub Prefix-discrete : Discrete Prefix
Prefix-discrete = hlevel (ℕ_discrete, Addr-discrete)

unfoldable pub Addrs-discrete : Discrete (List Addr)
Addrs-discrete = hlevel Addr-discrete

unfoldable pub Prefixes-discrete : Discrete (List Prefix)
Prefixes-discrete = hlevel Prefix-discrete

unfoldable pub Names-discrete : Discrete (List (List ℕ))
Names-discrete = hlevel ℕ_discrete

unfoldable pub Options-discrete : Discrete (List DhcpOption)
Options-discrete = hlevel ℕ_discrete

-- `maps.Equal` on `Self`.
same_addr : Option Addr → Addr → Bool
same_addr none a = false
same_addr (some b) a = addr_eq b a

all_in : List (Prefix × Addr) → List (Prefix × Addr) → Bool
unfolding same_addr
all_in [] b = true
all_in ((k, a) ∷ rest) b = same_addr (get prefix_eq k b) a && all_in rest b

unfoldable pub same_self : List (Prefix × Addr) → List (Prefix × Addr) → Bool
unfolding all_in
same_self a b = length a == length b && all_in a b

-- Everything else that reaches a consumer: the WAN's address and subnet, the names and the
-- options, the NAT64 prefixes and the MTU, and the default router with the upstream's ULA.
unfoldable pub same_wan : Snapshot → Snapshot → Bool
unfolding bool_eq
same_wan a b =
    addr_eq a.wan_addr b.wan_addr
    && prefix_eq a.wan_subnet.prefix b.wan_subnet.prefix
    && bool_eq a.pd_pending b.pd_pending

unfoldable pub same_options : Snapshot → Snapshot → Bool
same_options a b =
    is_yes (Names-discrete a.dnssl b.dnssl)
    && is_yes (Addrs-discrete a.ntp b.ntp)
    && is_yes (Options-discrete a.options b.options)

unfoldable pub same_nat64 : Snapshot → Snapshot → Bool
same_nat64 a b = prefix_eq a.pref64 b.pref64 && prefix_eq a.nat64 b.nat64 && a.wan_mtu == b.wan_mtu

unfoldable pub same_router : Snapshot → Snapshot → Bool
unfolding bool_eq
same_router a b =
    bool_eq a.no_wan_router b.no_wan_router
    && is_yes (Prefixes-discrete a.upstream_ula b.upstream_ula)

unfoldable pub same_rest : Snapshot → Snapshot → Bool
unfolding same_wan same_options same_nat64 same_router
same_rest a b =
    tunnel_equal a.tunnel b.tunnel
    && same_wan a b
    && is_yes (Addrs-discrete a.dns b.dns)
    && same_options a b
    && same_nat64 a b
    && same_self a.self b.self
    && same_router a b

-- The whole of it, unless a prefix was revoked: the remaining tests each make a renewal of no
-- change.
unfoldable pub classify : Snapshot → Snapshot → ChangeKind → ChangeKind
classify cur next change =
    let prefixes =
      wan_change (old_wan cur.wan []) next.wan (lan_change (old_set cur.lan []) next.lan change) in
    if is_none_change change
    then if is_none_change prefixes && not (same_rest cur next) then change_renew else prefixes
    else change

-- A snapshot whose default router came or went is not the same.
pub bool_eq_lem : (a b : Bool) → bool_eq a b ≡ true → a ≡ b
unfolding bool_eq
bool_eq_lem a b h = ground arith

pub same_rest-router : (a b : Snapshot) → same_rest a b ≡ true → a.no_wan_router ≡ b.no_wan_router
unfolding same_rest same_router
same_rest-router a b h = bool_eq_lem a.no_wan_router b.no_wan_router (ground arith)

-- Then `classify` finds a change.
pub classify-router :
    (a b : Snapshot) (change : ChangeKind)
    → a.no_wan_router ≢ b.no_wan_router
    → is_none_change (classify a b change) ≡ false
unfolding classify
classify-router a b change moved =
    let prefixes =
      wan_change (old_wan a.wan []) b.wan (lan_change (old_set a.lan []) b.lan change) in
    elim (Bool-cases (same_rest a b)) [
      | inl same ↦ absurd (moved (same_rest-router a b same))
      | inr other ↦ elim (Bool-cases (is_none_change change)) [
        | inr given ↦ rw given given
        | inl open_ ↦ elim (Bool-cases (is_none_change prefixes)) [
          | inl quiet ↦ rw (open_, quiet, other) (unfold is_none_change in refl)
          | inr moving ↦ rw (open_, moving) moving
        ]
      ]
    ]
