-- ===== src/Leases/World.antt =====
-- The leases of a LAN over time: the messages of its clients, sweeps and snapshots in any order.
use sixup.Common.{
  not, ltb, ℕ, ◌≡◌, inl, inr, refl, Bool, List, [], Option, none, some, Bool-cases, Option-cases,
  get, put, AllValues, if-holds, none_ne_some,
}
use sixup.Netip.{Addr, prefix_contains}
use sixup.Store.{LinePrefix, Snapshot}
use sixup.PdPool.{PdKey, PdLease}
use package.sixup.Leases.{
  LeaseKey, lease_key_eq, Lease, LeaseServer, IaRequest, LeaseHost, active_prefix, lifetimes,
  allocate,
}
use package.sixup.Leases.Assign.{
  IaAnswer, key_of, lease_in, refreshed, grant, grant_new, assign_in, assign_with, assign, release,
  expire_leases, on_snapshot, stays,
}
use package.sixup.Leases.Alone.{
  IsOther, IsAlone, put-IsAlone, put-IsAlone_same, delete-IsAlone, keep_leases-IsAlone,
  allocate-IsOther,
}

-- The states from a start without leases.
pub data Reach : LeaseServer → Type 0 where
  starts : (s : LeaseServer) → s.leases ≡ [] → Reach s
  assigns :
      {s : LeaseServer} (host : LeaseHost) (q : IaRequest) → Reach s → Reach (assign s host q).0
  releases :
      {s : LeaseServer} (now : ℕ) (is_decline : Bool) (key : LeaseKey) (addrs : List Addr)
      → Reach s
      → Reach (release s now is_decline key addrs)
  sweeps : {s : LeaseServer} (now : ℕ) → Reach s → Reach (expire_leases s now)
  changes :
      {s : LeaseServer} (snap : Snapshot) (changed : Bool)
      → Reach s
      → Reach (on_snapshot s snap changed)
  delegates :
      {s : LeaseServer} (pd : List (PdKey × PdLease)) → Reach s → Reach (record s { pd = pd })

unfoldable pub IsApart : LeaseServer → Type 0
IsApart s = IsAlone s.statics s.leases

lease_in-some : (p : LinePrefix) (o : Option Lease) (l : Lease) → lease_in p o ≡ some l → o ≡ some l
unfolding lease_in
lease_in-some p none l h = absurd (none_ne_some h)
lease_in-some p (some m) l h = elim (Bool-cases (prefix_contains p.prefix m.addr)) [
  | inl inside ↦ rw inside at h
  | inr outside ↦ absurd (none_ne_some (rw outside at h))
]

grant-IsApart :
    (s : LeaseServer) (host : LeaseHost) (p : LinePrefix) (q : IaRequest) (l : Lease)
    → ((m : Lease) → m.addr ≡ l.addr → IsAlone s.statics (put lease_key_eq (key_of q) m s.leases))
    → IsApart s
    → IsApart (grant s host p q l).0
unfolding grant IsApart refreshed
grant-IsApart s host p q l written good =
    if-holds IsApart q.commit (record s { leases = _ }) s
      (written (refreshed s host q (lifetimes s p host.now).1 l) refl) good

grant_new-IsApart :
    (s : LeaseServer) (host : LeaseHost) (p : LinePrefix) (q : IaRequest) (found : Option Addr)
    (declined : List (Addr × ℕ))
    → ((a : Addr) → found ≡ some a → AllValues (IsOther s.statics a) s.leases)
    → IsApart s
    → IsApart (grant_new s host p q (found, declined)).0
unfolding grant_new IsApart
grant_new-IsApart s host p q none declined other good = good
grant_new-IsApart s host p q (some a) declined other good =
    unfold IsApart in
    grant-IsApart (record s { declined = declined }) host p q _
      (λ m same. put-IsAlone s.statics (key_of q) m s.leases (rw same (other a refl)) good) good

pub assign-IsApart :
    (s : LeaseServer) (host : LeaseHost) (q : IaRequest) → IsApart s → IsApart (assign s host q).0
unfolding assign assign_with assign_in IsApart
assign-IsApart s host q good = elim (Option-cases (active_prefix s)) [
  | inl no_prefix_yet ↦ rw no_prefix_yet good
  | inr (p, active) ↦ elim (Option-cases (lease_in p (get lease_key_eq (key_of q) s.leases))) [
    | inr (l, held) ↦
        rw (active, held)
          (unfold IsApart in
            grant-IsApart s host p q l
              (λ m same.
                put-IsAlone_same s.statics (key_of q) m l s.leases
                  (lease_in-some p (get lease_key_eq (key_of q) s.leases) l held) same good)
              good)
    | inl fresh ↦
        rw (active, fresh)
          (if-holds (λ (r : LeaseServer × IaAnswer). IsApart r.0) q.is_renew _ _ good
            (grant_new-IsApart s host p q (allocate s host p.prefix (key_of q) q.mac).0
              (allocate s host p.prefix (key_of q) q.mac).1
              (allocate-IsOther s host p.prefix (key_of q) q.mac) good))
  ]
]

-- In every state that the DHCPv6 server's leases reach from a start without leases, by
-- assignments, releases, declines, sweeps, snapshots and changes of the pool of delegations, in
-- any order: every two leases have different addresses, unless a static binding gives the address.
pub Reach-IsApart : {s : LeaseServer} → Reach s → IsApart s
unfolding IsApart IsAlone release expire_leases on_snapshot
Reach-IsApart (starts s empty) = rw empty tt
Reach-IsApart (assigns {s} host q r) = assign-IsApart s host q (Reach-IsApart r)
Reach-IsApart (releases {s} now is_decline key addrs r) =
    delete-IsAlone s.statics key s.leases (Reach-IsApart r)
Reach-IsApart (sweeps {s} now r) =
    keep_leases-IsAlone s.statics (λ l. not (ltb l.expires now)) s.leases (Reach-IsApart r)
Reach-IsApart (changes {s} snap changed r) =
    if-holds IsApart changed (record s { snap = snap; leases = _ }) (record s { snap = snap })
      (keep_leases-IsAlone s.statics (stays (active_prefix (record s { snap = snap }))) s.leases
        (Reach-IsApart r))
      (Reach-IsApart r)
Reach-IsApart (delegates {s} pd r) = Reach-IsApart r
