-- ===== src/Tests/Lease.antt =====
-- The leases of a LAN.
use sixup.Common.{arith, none, get, put, bytes_eq, ◌≡◌, ℕ, ◌+◌, refl, true, false, [], ◌∷◌}
use sixup.Netip.{addr_eq, masked, ip6, no_addr}
use sixup.Store.{is_ula, LinePrefix, no_line_prefix, source_pd, empty_snapshot}
use package.sixup.Tests.Lan.{subnet}
use sixup.Leases.{
  LeaseServer, IaRequest, LeaseHost, active_prefix, active_from, allocate, or_pool, from_pool,
  search_pool, is_used, leased, static_has, declined_has, still_declined, pool_size, static_for,
  binds, equal_fold, lower, static_addr, with_iid, number16, lifetimes, lease_key_eq,
}
use sixup.Leases.Assign.{
  name_or, assign, assign_with, assign_in, lease_in, grant_new, grant, refreshed, key_of, outside,
}
use sixup.Store.Subnet.{lan_of, value_of}
use sixup.Leases.World.{starts, assigns, IsApart, Reach-IsApart}
use sixup.Leases.Lifetimes.{Fits, assign-Fits}

abbrev lan_prefix : LinePrefix
lan_prefix = record no_line_prefix {
  prefix = subnet 0;
  preferred = 500;
  valid = 1000;
  source = source_pd;
}

abbrev server : LeaseServer
server = record {
  ifname = 1 ∷ [];
  statics = [];
  pool_start = 256;
  pool_end = 511;
  preferred = 300;
  valid = 600;
  pd = [];
  snap = record empty_snapshot { lan = (1 ∷ [], lan_prefix ∷ []) ∷ [] };
  leases = [];
  declined = [];
}

-- The hash sends both clients to the same place of the pool.
abbrev host : LeaseHost
host = record { now = 100; hash = λ k. 7; new_key = [] }

abbrev client : ℕ → IaRequest
client n = record {
  duid = n ∷ [];
  iaid = 1;
  mac = (48 + n) ∷ [];
  addrs = [];
  is_renew = false;
  hostname = none;
  peer = no_addr;
  commit = true;
  wants_reconf = false;
}

Reach-IsApart_example : IsApart (assign (assign server host (client 1)).0 host (client 2)).0
Reach-IsApart_example =
    Reach-IsApart (assigns host (client 2) (assigns host (client 1) (starts server refl)))

assign-Fits_example :
    Fits server 100 (active_prefix server) (assign server host (client 1)).1.result
assign-Fits_example = assign-Fits server host (client 1) (omega arith)

-- A binding of the same place of the pool, by its interface's part alone: the search does not see
-- it, and two clients get one address.
abbrev with_static : LeaseServer
with_static = record server { statics = record { mac = 50 ∷ []; duid = []; addr = ip6 263 } ∷ [] }

same_address :
    (assign with_static host (client 1)).1.result
    ≡ (assign (assign with_static host (client 1)).0 host (client 2)).1.result
unfolding assign assign_with assign_in lease_in grant_new grant refreshed name_or key_of outside
    allocate or_pool from_pool search_pool is_used leased static_has declined_has still_declined
    pool_size static_for binds equal_fold lower static_addr with_iid number16 active_prefix
    active_from lifetimes lan_of value_of get put lease_key_eq bytes_eq is_ula addr_eq masked
same_address = refl
