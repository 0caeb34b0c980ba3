-- ===== src/Leases/Lifetimes.antt =====
-- The lifetimes that the DHCPv6 server gives an address.
use sixup.Common.{
  ◌*◌, ◌/◌, ◌^◌, ◌<◌, u64, sym, ℕ, ◌≤◌, ◌≡◌, inl, inr, refl, List, Option, none, some, arith,
  Option-cases, get, if-holds,
}
use sixup.Netip.{Addr}
use sixup.Store.{LinePrefix, preferred_left, valid_left}
use package.sixup.Leases.{
  lease_key_eq, Lease, LeaseServer, IaRequest, LeaseHost, active_prefix, lifetimes, allocate,
}
use package.sixup.Leases.Assign.{
  IaAnswer, IaResult, granted, no_addrs_avail, no_binding, key_of, lease_in, grant, grant_new,
  tenth, assign_in, assign_with, assign,
}

-- The lifetimes of an answer, within those of the prefix.
pub record IsBounded (s : LeaseServer) (p : LinePrefix) (now preferred valid : ℕ) : Type 0 where
  pub shorter : preferred ≤ valid
  pub of_prefix : valid ≤ valid_left now p
  pub of_preferred : preferred ≤ preferred_left now p
  pub of_server : (valid ≤ s.valid) × (preferred ≤ s.preferred)

-- An address comes with an active prefix, and with lifetimes and times of renewal in order.
unfoldable pub Fits : LeaseServer → ℕ → Option LinePrefix → IaResult → Type 0
Fits s now none (granted a preferred valid t1 t2) = ⊥
Fits s now (some p) (granted a preferred valid t1 t2) =
    IsBounded s p now preferred valid × (t1 ≤ t2) × (t2 ≤ preferred)
Fits s now p no_addrs_avail = Unit
Fits s now p no_binding = Unit

lifetimes-IsBounded :
    (s : LeaseServer) (p : LinePrefix) (now : ℕ)
    → IsBounded s p now (lifetimes s p now).0 (lifetimes s p now).1
unfolding lifetimes
lifetimes-IsBounded s p now = record {
  shorter = omega arith;
  of_prefix = omega arith;
  of_preferred = omega arith;
  of_server = (omega arith, omega arith);
}

tenth-small : (x : ℕ) → x < 2 ^ 60 → tenth (u64 (x * 8)) ≡ x * 8 / 10
unfolding tenth
tenth-small x short = ground arith

grant-Fits :
    (s t : LeaseServer) (host : LeaseHost) (p : LinePrefix) (q : IaRequest) (l : Lease)
    → t.valid ≡ s.valid
    → t.preferred ≡ s.preferred
    → s.preferred < 2 ^ 60
    → Fits s host.now (some p) (grant t host p q l).1.result
unfolding Fits grant
grant-Fits s t host p q l valid preferred short =
    let b = lifetimes-IsBounded t p host.now in
    let pref = (lifetimes t p host.now).0 in
    let below : pref < 2 ^ 60 = omega (arith, b.of_server.1) in
    let kept : tenth (u64 (pref * 8)) ≡ pref * 8 / 10 = tenth-small pref below in
    (
      record {
        shorter = b.shorter;
        of_prefix = b.of_prefix;
        of_preferred = b.of_preferred;
        of_server = rw (sym valid, sym preferred) b.of_server;
      },
      rw kept (omega arith),
      rw kept (omega arith),
    )

grant_new-Fits :
    (s : LeaseServer) (host : LeaseHost) (p : LinePrefix) (q : IaRequest) (found : Option Addr)
    (declined : List (Addr × ℕ))
    → s.preferred < 2 ^ 60
    → Fits s host.now (some p) (grant_new s host p q (found, declined)).1.result
unfolding grant_new Fits
grant_new-Fits s host p q none declined short = tt
grant_new-Fits s host p q (some a) declined short =
    unfold Fits in grant-Fits s (record s { declined = declined }) host p q _ refl refl short

-- Where the server is set to a preferred lifetime below 2^60 nanoseconds, about 36 years: an
-- address that assign answers with comes with an active prefix, with a preferred lifetime of at
-- most the valid one, each of at most what is left of the prefix's and what the server is set to,
-- and with T1 up to T2 up to the preferred lifetime.
pub assign-Fits :
    (s : LeaseServer) (host : LeaseHost) (q : IaRequest)
    → s.preferred < 2 ^ 60
    → Fits s host.now (active_prefix s) (assign s host q).1.result
unfolding assign assign_with assign_in
assign-Fits s host q short = elim (Option-cases (active_prefix s)) [
  | inl no_prefix_yet ↦ rw no_prefix_yet (unfold Fits in tt)
  | inr (p, active) ↦ elim (Option-cases (lease_in p (get lease_key_eq (key_of q) s.leases))) [
    | inr (l, held) ↦ rw (active, held) (grant-Fits s s host p q l refl refl short)
    | inl fresh ↦
        rw (active, fresh)
          (if-holds (λ (r : LeaseServer × IaAnswer). Fits s host.now (some p) r.1.result) q.is_renew
            _ _ (unfold Fits in tt)
            (grant_new-Fits s host p q (allocate s host p.prefix (key_of q) q.mac).0
              (allocate s host p.prefix (key_of q) q.mac).1 short))
  ]
]
