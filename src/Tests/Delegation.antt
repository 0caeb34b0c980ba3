-- ===== src/Tests/Delegation.antt =====
-- Two routers behind one LAN, and an upstream delegation of a /48.
use sixup.Common.{ℕ, ◌+◌, ◌*◌, ◌^◌, ◌≡◌, refl, false, List, [], ◌∷◌, some, arith}
use sixup.Netip.{
  Addr, no_addr, ip6, is_unspecified, Prefix, no_prefix, prefix_from, prefix_valid, bits, masked,
  prefix_contains, prefix_overlaps,
}
use sixup.Store.{LinePrefix, Snapshot, empty_snapshot, source_pd, is_pd, is_ra, lan_overlaps}
use sixup.PdPool.{
  PdKey, PdLease, PdPool, pd_key_eq, lease_of, put_lease, live_prefixes, publish, delegable,
  shortest, wan_free, leases_free, free,
}
use sixup.PdPool.Pick.{
  Clock, slot, probe, block, usable_in, or_else, in_up, grow, first_length, carve, with_prefix,
  if_usable, current, wanted, pick, committed, commit,
}
use sixup.PdPool.Picked.{IsGood, pick-IsGood}
use sixup.PdPool.World.{Reach, started, waits, commits, Reach-no_overlap}

abbrev net : ℕ → Prefix
net j = record { ip = ip6 (0x20010db8000100000000000000000000 + j); bits_plus_one = 49 }

abbrev upstream : LinePrefix
upstream = record {
  prefix = net 0;
  preferred = 1000;
  valid = 2000;
  source = source_pd;
  deprecated = false;
  slaac = false;
  stale = false;
  off_link = false;
  exclude = no_prefix;
  delegated = false;
}

-- The LAN has the first /64.
abbrev snap : Snapshot
snap = record empty_snapshot {
  wan = upstream ∷ [];
  lan = ([], record upstream { prefix = record { ip = (net 0).ip; bits_plus_one = 65 } } ∷ []) ∷ [];
}

abbrev clock : Clock
clock = record { now = 100; hash = λ k. 0 }

abbrev first_key : PdKey
first_key = record { duid = 1 ∷ []; iaid = 7; ula = false }

abbrev second_key : PdKey
second_key = record { duid = 2 ∷ []; iaid = 7; ula = false }

abbrev empty_pool : PdPool
empty_pool = record { plen = 0; told = some []; leases = [] }

-- `commit` with all that it calls.
unfoldable commits_to :
    PdPool → Clock → Snapshot → PdKey → Prefix → List ℕ → Addr → ℕ → List ℕ → PdPool
unfolding commit committed pick current wanted carve grow first_length in_up or_else if_usable
    with_prefix usable_in block probe slot free wan_free leases_free shortest delegable publish
    live_prefixes put_lease lease_of pd_key_eq lan_overlaps is_ra is_pd prefix_overlaps
    prefix_contains masked prefix_valid bits prefix_from is_unspecified
commits_to = commit

abbrev one : PdPool
one = commit empty_pool clock snap first_key no_prefix [] no_addr 50 []

abbrev two : PdPool
two = commit one clock snap second_key no_prefix [] no_addr 50 []

abbrev lease : ℕ → PdLease
lease i = record {
  duid = i ∷ [];
  iaid = 7;
  prefix = record {
    ip = ip6 (0x20010db8000100000000000000000000 + i * 2 ^ 72);
    bits_plus_one = 57;
  };
  iface = [];
  peer = no_addr;
  expires = 150;
  reconf_key = [];
}

-- The /56 with the LAN in it is passed over.
both_delegated :
    (lease_of first_key two.leases ≡ some (lease 1))
    × (lease_of second_key two.leases ≡ some (lease 2))
unfolding commits_to
both_delegated = (refl, refl)

first_pick :
    pick empty_pool clock snap first_key no_prefix false ≡ some ((lease 1).prefix, upstream)
unfolding commits_to
first_pick = refl

pick-IsGood_example :
    IsGood empty_pool clock snap first_key (delegable snap false) (lease 1).prefix upstream
pick-IsGood_example =
    pick-IsGood empty_pool clock snap first_key no_prefix (lease 1).prefix false upstream first_pick

two-Reach : Reach two 120
two-Reach = waits 120 (omega arith) (
    commits clock snap second_key no_prefix [] no_addr 50 []
      (commits clock snap first_key no_prefix [] no_addr 50 [] (started 0 100 (some []))))

Reach-no_overlap_example : prefix_overlaps (lease 1).prefix (lease 2).prefix ≡ false
Reach-no_overlap_example =
    Reach-no_overlap two 120 first_key second_key (lease 1) (lease 2) two-Reach both_delegated.0
      both_delegated.1 (unfold pd_key_eq in refl) (omega arith) (omega arith)
