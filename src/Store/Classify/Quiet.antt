-- ===== src/Store/Classify/Quiet.antt =====
-- `classify` of `recompute` (prefix.go): what its finding of no change says.
use sixup.Common.{
  ℕ, ◌≡◌, ◌⊎◌, refl, true, false, not, ◌&&◌, List, [], ◌∷◌, Option, none, some, All, AllValues,
  arith, inl, inr, Bool-cases, get, is_yes, length, ap, and-split,
}
use sixup.Netip.{Addr, Prefix, prefix_eq}
use sixup.Netip.Laws.{addr_eq_iff, prefix_eq_iff}
use sixup.Tunnel.Params.{TunnelParams, TunnelParams-discrete, tunnel_equal}
use package.sixup.Store.{
  is_ula, ChangeKind, change_add, change_renew, change_none, LinePrefix, Snapshot,
}
use package.sixup.Store.Classify.{
  is_none_change, same_times, against, is_known_prefix, lan_prefix_change, lan_prefixes_change,
  lan_change, old_set, wan_change, old_wan, same_rest, classify, WanKey, wan_key_eq, same_wan,
  same_options, same_nat64, same_self, same_router, same_addr, all_in, bool_eq_lem, Addrs-discrete,
  Names-discrete, Options-discrete, Prefixes-discrete,
}

-- The prefix of that key before: with the same times, and not deprecated if this one is not.
pub record IsSame (old p : LinePrefix) : Type 0 where
  pub times : same_times old p ≡ true
  pub revived : (old.deprecated && not p.deprecated) ≡ false

-- A prefix of a LAN that was there before; of this router's own ULA, in any state.
pub IsUnmoved : List (Prefix × LinePrefix) → LinePrefix → Type 0
IsUnmoved old p =
    (old_p : LinePrefix) × (get prefix_eq p.prefix old ≡ some old_p)
    × (((is_ula p.source && not p.delegated) ≡ true) ⊎ IsSame old_p p)

renew-not_none : is_none_change change_renew ≡ false
unfolding is_none_change
renew-not_none = refl

add-not_none : is_none_change change_add ≡ false
unfolding is_none_change
add-not_none = refl

against-none :
    (o : Option LinePrefix) (p : LinePrefix) (c : ChangeKind)
    → is_none_change (against o p c) ≡ true
    → (is_none_change c ≡ true) × (old : LinePrefix) × (o ≡ some old) × IsSame old p
unfolding against
against-none none p c h = absurd (ground (arith, h, add-not_none))
against-none (some old) p c h = elim (Bool-cases (old.deprecated && not p.deprecated)) [
  | inl up ↦ let found = rw up at h in absurd (ground (arith, found, add-not_none))
  | inr down ↦ elim (Bool-cases (is_none_change c && not (same_times old p))) [
    | inl renewed ↦
        let found = rw (down, renewed) at h in absurd (ground (arith, found, renew-not_none))
    | inr kept ↦
        let quiet : is_none_change c ≡ true = rw (down, kept) at h in
        (quiet, old, refl, record { times = ground (arith, kept, quiet); revived = down })
  ]
]

known-some :
    (o : Option LinePrefix) → is_known_prefix o ≡ true → (old : LinePrefix) × (o ≡ some old)
unfolding is_known_prefix
known-some none h = absurd (ground arith)
known-some (some old) h = (old, refl)

module _ (old : List (Prefix × LinePrefix)) where
  lan_prefix_change-none :
      (p : LinePrefix) (c : ChangeKind)
      → is_none_change (lan_prefix_change old p c) ≡ true
      → (is_none_change c ≡ true) × IsUnmoved old p
  unfolding lan_prefix_change IsUnmoved
  lan_prefix_change-none p c h = elim (Bool-cases (is_ula p.source && not p.delegated)) [
    | inl own ↦ elim (Bool-cases (is_known_prefix (get prefix_eq p.prefix old))) [
      | inl known ↦
          let (x, found) = known-some (get prefix_eq p.prefix old) known in
          (rw (own, known) at h, (x, found, inl own))
      | inr new ↦ let found = rw (own, new) at h in absurd (ground (arith, found, add-not_none))
    ]
    | inr line ↦
        let (quiet, x, found, same) =
          against-none (get prefix_eq p.prefix old) p c (rw line at h) in
        (quiet, (x, found, inr same))
  ]

  lan_prefixes_change-none :
      (ps : List LinePrefix) (c : ChangeKind)
      → is_none_change (lan_prefixes_change old ps c) ≡ true
      → (is_none_change c ≡ true) × All (IsUnmoved old) ps
  unfolding lan_prefixes_change
  lan_prefixes_change-none [] c h = (h, tt)
  lan_prefixes_change-none (p ∷ ps) c h =
      let (quiet, rest) = lan_prefixes_change-none ps (lan_prefix_change old p c) h in
      let (first, unmoved) = lan_prefix_change-none p c quiet in (first, (unmoved, rest))

  lan_change-none :
      (lan : List (List ℕ × List LinePrefix)) (c : ChangeKind)
      → is_none_change (lan_change old lan c) ≡ true
      → (is_none_change c ≡ true) × AllValues (All (IsUnmoved old)) lan
  unfolding lan_change
  lan_change-none [] c h = (h, tt)
  lan_change-none ((iface, ps) ∷ lan) c h =
      let (quiet, rest) = lan_change-none lan (lan_prefixes_change old ps c) h in
      let (first, unmoved) = lan_prefixes_change-none ps c quiet in (first, (unmoved, rest))

-- A prefix of the WAN that was there before from that source, with the same times.
pub IsUnmovedWan : List (WanKey × LinePrefix) → LinePrefix → Type 0
IsUnmovedWan old p =
    (old_p : LinePrefix) × (get wan_key_eq (record { prefix = p.prefix; source = p.source }) old
      ≡ some old_p)
    × IsSame old_p p

wan_change-none :
    (old : List (WanKey × LinePrefix)) (ps : List LinePrefix) (c : ChangeKind)
    → is_none_change (wan_change old ps c) ≡ true
    → (is_none_change c ≡ true) × All (IsUnmovedWan old) ps
unfolding wan_change IsUnmovedWan
wan_change-none old [] c h = (h, tt)
wan_change-none old (p ∷ ps) c h =
    let key : WanKey = record { prefix = p.prefix; source = p.source } in
    let (first, rest) = wan_change-none old ps (against (get wan_key_eq key old) p c) h in
    let (quiet, x, found, same) = against-none (get wan_key_eq key old) p c first in
    (quiet, ((x, found, same), rest))

-- The address that is kept of each prefix is the same.
pub IsSelf : List (Prefix × Addr) → Prefix × Addr → Type 0
IsSelf other e = get prefix_eq e.0 other ≡ some e.1

-- All that a consumer reads of two snapshots, beside their prefixes, is the same.
pub record IsSameRest (a b : Snapshot) : Type 0 where
  pub tunnel : a.tunnel ≡ b.tunnel
  pub wan_addr : a.wan_addr ≡ b.wan_addr
  pub wan_subnet : a.wan_subnet.prefix ≡ b.wan_subnet.prefix
  pub pd_pending : a.pd_pending ≡ b.pd_pending
  pub dns : a.dns ≡ b.dns
  pub dnssl : a.dnssl ≡ b.dnssl
  pub ntp : a.ntp ≡ b.ntp
  pub options : a.options ≡ b.options
  pub pref64 : a.pref64 ≡ b.pref64
  pub nat64 : a.nat64 ≡ b.nat64
  pub wan_mtu : a.wan_mtu ≡ b.wan_mtu
  pub self_size : length a.self ≡ length b.self
  pub self : All (IsSelf b.self) a.self
  pub no_wan_router : a.no_wan_router ≡ b.no_wan_router
  pub upstream_ula : a.upstream_ula ≡ b.upstream_ula

yes_lem : {A : Type 0} (d : Dec A) → is_yes d ≡ true → A
yes_lem (yes a) h = a
yes_lem (no f) h = absurd (ground arith)

tunnel_equal_lem : (a b : Option TunnelParams) → tunnel_equal a b ≡ true → a ≡ b
unfolding tunnel_equal
tunnel_equal_lem none none h = refl
tunnel_equal_lem none (some b) h = absurd (ground arith)
tunnel_equal_lem (some a) none h = absurd (ground arith)
tunnel_equal_lem (some a) (some b) h = ap some (yes_lem (TunnelParams-discrete a b) h)

same_addr_lem : (o : Option Addr) (a : Addr) → same_addr o a ≡ true → o ≡ some a
unfolding same_addr
same_addr_lem none a h = absurd (ground arith)
same_addr_lem (some b) a h = ap some ((addr_eq_iff b a).0 h)

all_in_lem : (a b : List (Prefix × Addr)) → all_in a b ≡ true → All (IsSelf b) a
unfolding all_in IsSelf
all_in_lem [] b h = tt
all_in_lem ((k, a) ∷ rest) b h =
    let (first, others) = and-split (same_addr (get prefix_eq k b) a) (all_in rest b) h in
    (same_addr_lem (get prefix_eq k b) a first, all_in_lem rest b others)

same_rest_lem : (a b : Snapshot) → same_rest a b ≡ true → IsSameRest a b
unfolding same_rest same_wan same_options same_nat64 same_self same_router
same_rest_lem a b h = record {
  tunnel = tunnel_equal_lem a.tunnel b.tunnel (ground (arith, h));
  wan_addr = (addr_eq_iff a.wan_addr b.wan_addr).0 (ground (arith, h));
  wan_subnet = (prefix_eq_iff a.wan_subnet.prefix b.wan_subnet.prefix).0 (ground (arith, h));
  pd_pending = bool_eq_lem a.pd_pending b.pd_pending (ground (arith, h));
  dns = yes_lem (Addrs-discrete a.dns b.dns) (ground (arith, h));
  dnssl = yes_lem (Names-discrete a.dnssl b.dnssl) (ground (arith, h));
  ntp = yes_lem (Addrs-discrete a.ntp b.ntp) (ground (arith, h));
  options = yes_lem (Options-discrete a.options b.options) (ground (arith, h));
  pref64 = (prefix_eq_iff a.pref64 b.pref64).0 (ground (arith, h));
  nat64 = (prefix_eq_iff a.nat64 b.nat64).0 (ground (arith, h));
  wan_mtu = ground (arith, h);
  self_size = ground (arith, h);
  self = all_in_lem a.self b.self (ground (arith, h));
  no_wan_router = bool_eq_lem a.no_wan_router b.no_wan_router (ground (arith, h));
  upstream_ula = yes_lem (Prefixes-discrete a.upstream_ula b.upstream_ula) (ground (arith, h));
}

-- Where nothing was revoked and the classification finds no change: every LAN prefix of the new
-- snapshot was there before, with the same times and not deprecated before if it is not now (this
-- router's own ULA in any state), and so was every WAN prefix, from the same source; and the
-- tunnel, the WAN's address and subnet, whether a delegation is awaited, the DNS servers, the
-- search list, the NTP servers, the options, the NAT64 prefixes, the MTU, the default router and
-- the upstream's ULAs are equal, and the router's own addresses too, key by key.
pub classify-quiet :
    (a b : Snapshot)
    → is_none_change (classify a b change_none) ≡ true
    → AllValues (All (IsUnmoved (old_set a.lan []))) b.lan
      × All (IsUnmovedWan (old_wan a.wan [])) b.wan
      × IsSameRest a b
unfolding classify
classify-quiet a b h =
    let lans = lan_change (old_set a.lan []) b.lan change_none in
    let prefixes = wan_change (old_wan a.wan []) b.wan lans in
    let open_ : is_none_change change_none ≡ true = unfold is_none_change in refl in
    elim (Bool-cases (is_none_change prefixes)) [
      | inr moved ↦ let found = rw (open_, moved) at h in absurd (ground (arith, found, moved))
      | inl quiet ↦
          let (lan_quiet, wans) = wan_change-none (old_wan a.wan []) b.wan lans quiet in
          let unmoved = (lan_change-none (old_set a.lan []) b.lan change_none lan_quiet).1 in
          elim (Bool-cases (same_rest a b)) [
            | inl same ↦ (unmoved, wans, same_rest_lem a b same)
            | inr other ↦
                let found = rw (open_, quiet, other) at h in
                absurd (ground (arith, found, renew-not_none))
          ]
    ]
