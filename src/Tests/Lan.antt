-- ===== src/Tests/Lan.antt =====
-- A store with two segments and a delegated /56, and its runs.
use sixup.Common.{
  ℕ, Bool, bytes_eq, ◌⊎◌, ◌+◌, ◌-◌, ◌*◌, ◌^◌, ◌≤◌, ◌==◌, ◌≡◌, refl, min, any, true, false, List, [],
  ◌∷◌, none, some, arith, All, AllValues, get, put,
}
use mathlib.Core.List.{Memᴰ}
use sixup.Netip.{
  ip6, Prefix, prefix_contains, prefix_overlaps, prefix_valid, prefix_eq, addr_eq, same_network,
  bits, masked, as16, clear_host, prefix_from, bit_len, addr_valid,
}
use sixup.Store.{
  source_pd, LinePrefix, no_line_prefix, SourceUpdate, no_update, empty_snapshot, change_none,
  is_ula, is_ra, is_pd,
}
use sixup.Store.State.{
  RevokedLan, StoreState, update_or_none, pick_source, first_with_prefixes, or_next, first_known,
  or_any, source_of, order, is_known,
}
use sixup.Store.Stages.{
  with_tunnel, drafted, by_hand, filled, first_draft, settled, with_captured, of_container,
}
use sixup.Store.Diff.{
  kept, keep_wans, keep_lans, withdrew, revoke_all_wan, revoke_all_gone, after_restart,
}
use sixup.Store.Subnet.{
  LanDef, split_lan, numbered, spare_subnet, spare_below, unless_excluded, wan_subnet_of,
  first_serving, subnet_candidates, lan_of, value_of,
}
use sixup.Store.Subnet.Split.{split_lan-inside, split_lan-apart}
use sixup.Store.Subnet.Spare.{lan_subnet-clear, spare_subnet-apart, IsSpare, spare_subnet-highest}
use sixup.Store.Handout.{
  lan_subnet, or_spare, handed_out, with_ula, give_all_ula, site_ula, delegated_ula, ra_on_wan,
  add_all_missing, hand_out_all,
}
use sixup.Store.Recompute.{
  recompute, delivered, adopted, built, worked, router_moved, publish, save_advertised,
}
use sixup.Store.Recompute.Granted.{IsWithin, OwnUla}
use sixup.Store.Recompute.Bounded.{RecordWithin}
use sixup.Store.Recompute.Within.{Ends}
use sixup.Store.Recompute.Published.{IsScheduled, IsPublished, recompute-router}
use sixup.Store.Recompute.Revoked.{in_lan}
use sixup.Store.Recompute.Revoked.Covers.{used_on, used_elsewhere, uses}
use sixup.Store.Recompute.Revoked.Segment.{withdrawn_on}
use sixup.Store.Recompute.Revoked.Kept.{given_lan, recompute-withdraws}
use sixup.Store.Classify.{
  classify, wan_change, old_wan, lan_change, lan_prefixes_change, lan_prefix_change, old_set,
  add_old, against, same_times, same_rest, same_wan, same_options, same_nat64, same_router,
  same_self, Addrs-discrete, Names-discrete, Options-discrete, Prefixes-discrete, bool_eq,
  is_none_change, change_rank, pending_rank,
}
use sixup.Store.Classify.Quiet.{IsUnmoved, IsUnmovedWan, IsSameRest, classify-quiet}
use sixup.Tunnel.Params.{tunnel_equal}
use sixup.Store.Messages.{next_expiry, new_store, on_set, literal}
use sixup.Store.World.{Reach, OwnRecord, started, sets}
use sixup.Store.Recompute.Lasting.{IsLasting, recompute-IsLasting}
use sixup.Store.Messages.Wakes.{Wakes, recompute-Wakes}
use sixup.Store.World.Granted.{Reach-granted}
use sixup.Store.World.Scheduled.{Reach-IsScheduled}

abbrev site : ℕ
site = 0x20010db8000012000000000000000000

abbrev delegation : Prefix
delegation = record { ip = ip6 site; bits_plus_one = 57 }

abbrev home : LanDef
home = record { iface = 1 ∷ []; index = 0 }

abbrev guests : LanDef
guests = record { iface = 2 ∷ []; index = 1 }

abbrev segments : List LanDef
segments = home ∷ (guests ∷ [])

abbrev pub subnet : ℕ → Prefix
subnet i = record { ip = ip6 (site + i * 2 ^ 64); bits_plus_one = 65 }

home_subnet : split_lan delegation 0 ≡ some (subnet 0)
unfolding split_lan numbered masked as16 clear_host prefix_valid bits prefix_from bit_len addr_valid
home_subnet = refl

guests_subnet : split_lan delegation 1 ≡ some (subnet 1)
unfolding split_lan numbered masked as16 clear_host prefix_valid bits prefix_from bit_len addr_valid
guests_subnet = refl

split_lan-inside_example :
    (bits (subnet 1) ≡ 64) × (prefix_contains delegation (subnet 1).ip ≡ true)
split_lan-inside_example =
    split_lan-inside site 56 1 (subnet 1) (omega arith) (omega arith) (omega arith) guests_subnet

split_lan-apart_example : prefix_overlaps (subnet 0) (subnet 1) ≡ false
split_lan-apart_example =
    split_lan-apart site 56 0 1 (subnet 0) (subnet 1) (omega arith) (omega arith) (omega arith)
      (omega arith) (λ e. ground (arith, e)) home_subnet guests_subnet

-- A /62 of which the ISP keeps the first /63: both segments' subnets are in it.
abbrev line : LinePrefix
line = record no_line_prefix {
  prefix = record { ip = ip6 site; bits_plus_one = 63 };
  preferred = 500;
  valid = 1000;
  source = source_pd;
  exclude = record { ip = ip6 site; bits_plus_one = 64 };
}

first_of_line : split_lan line.prefix 0 ≡ some (subnet 0)
unfolding split_lan numbered masked as16 clear_host prefix_valid bits prefix_from bit_len addr_valid
first_of_line = refl

second_of_line : split_lan line.prefix 1 ≡ some (subnet 1)
unfolding split_lan numbered masked as16 clear_host prefix_valid bits prefix_from bit_len addr_valid
second_of_line = refl

spare_of_line : spare_subnet segments line ≡ some (subnet 3)
unfolding spare_subnet spare_below unless_excluded split_lan numbered masked as16 clear_host
    prefix_valid bits prefix_from bit_len addr_valid prefix_overlaps same_network
spare_of_line = refl

home_of_line : lan_subnet segments line home ≡ some (subnet 3)
unfolding lan_subnet or_spare spare_subnet spare_below unless_excluded split_lan numbered masked
    as16 clear_host prefix_valid bits prefix_from bit_len addr_valid prefix_overlaps same_network
home_of_line = refl

lan_subnet-clear_example : prefix_overlaps line.exclude (subnet 3) ≡ false
lan_subnet-clear_example = lan_subnet-clear segments line home (subnet 3) home_of_line

spare_subnet-apart_example : prefix_overlaps (subnet 3) (subnet 1) ≡ false
spare_subnet-apart_example =
    spare_subnet-apart segments line site 62 guests (subnet 3) (subnet 1) refl (omega arith)
      (omega arith) (Memᴰ.tail (Memᴰ.head refl)) (omega arith) spare_of_line second_of_line

second_free : any (λ (l : LanDef). l.index == 2) segments ≡ false
second_free = refl

third_of_line : split_lan line.prefix 2 ≡ some (subnet 2)
unfolding split_lan numbered masked as16 clear_host prefix_valid bits prefix_from bit_len addr_valid
third_of_line = refl

spare_subnet-highest_example :
    (x : Prefix) × (spare_subnet segments line ≡ some x)
    × (r : IsSpare segments line (2 ^ min (64 - bits line.prefix) 16) x) × (2 ≤ r.index)
spare_subnet-highest_example =
    spare_subnet-highest segments line 2 (subnet 2) (unfold bits in omega arith) second_free
      third_of_line (unfold prefix_overlaps prefix_valid bits same_network in refl)

-- The run: the store starts, and the delegation comes.
abbrev update : SourceUpdate
update = record no_update { prefixes = line ∷ [] }

abbrev at_start : StoreState
at_start = new_store source_pd segments 100 [] false 0 0 false none 10 10

abbrev delegated : StoreState
delegated = on_set at_start source_pd update 20 20

-- No ULA is configured or recorded.
abbrev no_ula : Prefix → Bool
no_ula p = false

run : Reach no_ula 1000 delegated
run = sets source_pd update 20 20 (unfold Ends in (omega arith, tt)) (
    started source_pd segments 100 [] false 0 0 false none 10 10 (unfold OwnUla in tt)
      (unfold RecordWithin in tt) (unfold OwnRecord in tt))

Reach-granted_example : AllValues (All (IsWithin no_ula 1000)) delegated.cur.lan
Reach-granted_example = Reach-granted no_ula 1000 run

Reach-IsScheduled_example : IsScheduled delegated
Reach-IsScheduled_example = Reach-IsScheduled run

-- A snapshot with one prefix on the first segment.
abbrev advertised : StoreState
advertised = record (literal source_pd segments 100 [] false 0 0 false none 10) {
  cur = record empty_snapshot { lan = (1 ∷ [], record line { prefix = subnet 0 } ∷ []) ∷ [] };
}

in_use_before : used_on (1 ∷ []) (subnet 0) advertised.cur.lan ≡ true
unfolding used_on uses prefix_eq addr_eq bytes_eq
in_use_before = refl

on_one_segment : used_elsewhere (1 ∷ []) (subnet 0) advertised.cur.lan ≡ false
unfolding used_elsewhere uses prefix_eq addr_eq bytes_eq
on_one_segment = refl

recompute-withdraws_example :
    ((in_lan (subnet 0) (given_lan advertised 30 30) ≡ true)
      × (in_lan (subnet 0) (recompute advertised 30 30).cur.lan ≡ true))
    ⊎ (withdrawn_on (1 ∷ []) (subnet 0) (recompute advertised 30 30).cur.lan ≡ true)
recompute-withdraws_example =
    recompute-withdraws advertised 30 30 (1 ∷ []) (subnet 0) (unfold literal in omega arith)
      (omega arith) in_use_before on_one_segment

-- Nothing has changed.
quiet : is_none_change (classify advertised.cur advertised.cur change_none) ≡ true
unfolding is_none_change classify wan_change old_wan lan_change lan_prefixes_change
    lan_prefix_change old_set add_old against same_times same_rest same_wan same_options same_nat64
    same_router same_self tunnel_equal Addrs-discrete Names-discrete Options-discrete
    Prefixes-discrete bool_eq prefix_eq addr_eq is_ula get put
quiet = refl

classify-quiet_example :
    AllValues (All (IsUnmoved (old_set advertised.cur.lan []))) advertised.cur.lan
    × All (IsUnmovedWan (old_wan advertised.cur.wan [])) advertised.cur.wan
    × IsSameRest advertised.cur advertised.cur
classify-quiet_example = classify-quiet advertised.cur advertised.cur quiet

-- The upstream router has gone.
abbrev routerless : StoreState
routerless = record (literal source_pd segments 100 [] false 0 0 false none 10) {
  sources = record {
    pd = none;
    ra = some (record no_update { no_router = true });
    ula = none;
    static = none;
  };
}

no_router_after : (recompute routerless 30 30).cur.no_wan_router ≡ true
unfolding recompute delivered adopted built worked kept keep_wans keep_lans withdrew revoke_all_wan
    revoke_all_gone after_restart handed_out with_ula give_all_ula site_ula delegated_ula ra_on_wan
    add_all_missing hand_out_all with_tunnel drafted by_hand filled first_draft update_or_none
    pick_source first_with_prefixes or_next first_known or_any source_of order router_moved publish
    save_advertised literal classify is_none_change is_ra is_pd addr_valid wan_change old_wan
    lan_change old_set same_rest same_wan same_options same_nat64 same_router same_self bool_eq
    tunnel_equal settled with_captured of_container addr_eq prefix_eq wan_subnet_of first_serving
    subnet_candidates lan_of get value_of is_known Addrs-discrete Names-discrete Options-discrete
    Prefixes-discrete change_rank pending_rank
no_router_after = refl

recompute-router_example : IsPublished routerless (recompute routerless 30 30)
recompute-router_example = recompute-router routerless 30 30 (λ e.
    let before : routerless.cur.no_wan_router ≡ false = unfold literal in refl in
    ground (arith, e, no_router_after, before))

recompute-IsLasting_example : IsLasting 30 (recompute advertised 30 30)
recompute-IsLasting_example = recompute-IsLasting 30 advertised 30

-- The prefix is withdrawn, and the store wakes for it.
recompute-Wakes_example :
    AllValues
      (λ (r : RevokedLan). Wakes (next_expiry (recompute advertised 30 30) 40) r.p.valid)
      (recompute advertised 30 30).revoked
    × AllValues
        (λ (p : LinePrefix). Wakes (next_expiry (recompute advertised 30 30) 40) p.valid)
        (recompute advertised 30 30).revoked_w
recompute-Wakes_example = recompute-Wakes advertised 30 30 40
