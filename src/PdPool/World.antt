-- ===== src/PdPool/World.antt =====
-- The pool over time: the commits, releases and drops of every LAN's server, in any order.
use sixup.Common.{
  ℕ, ◌+◌, ◌≤◌, ◌<◌, ◌≡◌, refl, inl, inr, Bool, true, false, List, [], Option, none, some, arith,
  Option-cases, Bool-cases, ltb, length, bytes_eq, ◌&&◌,
}
use sixup.Netip.{Addr, Prefix, prefix_overlaps}
use sixup.Store.{LinePrefix, Snapshot}
use package.sixup.PdPool.{
  PdKey, PdLease, PdPool, pd_key_eq, lease_of, put_lease, delete_leases, publish, leases_free, free,
}
use package.sixup.PdPool.Pick.{
  Clock, pick, commit, committed, released, undelegate, matching, drop_leases,
}
use package.sixup.PdPool.Picked.{IsGood, pick-IsGood}
use package.sixup.PdPool.Disjoint.{
  IsApart, put_lease-IsApart, IsApart-later, delete_leases-IsApart, IsApart-no_overlap,
}

-- A pool and the time, from the start without delegations.
pub data Reach : PdPool → ℕ → Type 0 where
  started :
      (plen now : ℕ) (told : Option (List Prefix))
      → Reach (record { plen = plen; told = told; leases = [] }) now
  waits : {p : PdPool} {t : ℕ} (now : ℕ) → t ≤ now → Reach p t → Reach p now
  commits :
      {p : PdPool} (clock : Clock) (s : Snapshot) (key : PdKey) (want : Prefix) (iface : List ℕ)
      (peer : Addr) (valid : ℕ) (reconf_key : List ℕ)
      → Reach p clock.now
      → Reach (commit p clock s key want iface peer valid reconf_key) clock.now
  releases : {p : PdPool} {now : ℕ} (key : PdKey) → Reach p now → Reach (undelegate p now key) now
  drops :
      {p : PdPool} {now : ℕ} (iface : List ℕ) (match : PdLease → Bool)
      → Reach p now
      → Reach (drop_leases p now iface match).0 now

publish-leases : (p : PdPool) (now : ℕ) → (publish p now).leases ≡ p.leases
unfolding publish
publish-leases p now = elim (Option-cases p.told) [
  | inl none_told ↦ rw none_told refl
  | inr (old, told) ↦ rw told refl
]

free-leases :
    (p : PdPool) (now : ℕ) (s : Snapshot) (pf : Prefix) (key : PdKey)
    → free p now s pf key ≡ true
    → leases_free now key pf p.leases ≡ true
unfolding free
free-leases p now s pf key h = ground arith

committed-IsApart :
    (p : PdPool) (clock : Clock) (s : Snapshot) (key : PdKey) (want : Prefix) (iface : List ℕ)
    (peer : Addr) (valid : ℕ) (reconf_key : List ℕ) (o : Option (Prefix × LinePrefix))
    → pick p clock s key want key.ula ≡ o
    → IsApart clock.now p.leases
    → IsApart clock.now (committed p clock.now key iface peer valid reconf_key o).leases
unfolding committed IsGood
committed-IsApart p clock s key want iface peer valid reconf_key none e apart = apart
committed-IsApart p clock s key want iface peer valid reconf_key (some (pf, up)) e apart =
    let (ok, member, longer, long, short) = pick-IsGood p clock s key want pf key.ula up e in
    let lease : PdLease = record {
      duid = key.duid;
      iaid = key.iaid;
      prefix = pf;
      iface = iface;
      peer = peer;
      expires = clock.now + valid;
      reconf_key = reconf_key;
    } in
    rw (publish-leases (record p { leases = put_lease key lease p.leases }) clock.now)
      (put_lease-IsApart clock.now key lease p.leases apart (free-leases p clock.now s pf key ok))

released-IsApart :
    (p : PdPool) (now : ℕ) (key : PdKey) (o : Option PdLease)
    → IsApart now p.leases
    → IsApart now (released p now key o).leases
unfolding released
released-IsApart p now key none apart = apart
released-IsApart p now key (some l) apart =
    let kept = delete_leases (λ k m. pd_key_eq k key) p.leases in
    rw (publish-leases (record p { leases = kept }) now)
      (delete_leases-IsApart now (λ k m. pd_key_eq k key) p.leases apart)

drop_leases-IsApart :
    (p : PdPool) (now : ℕ) (iface : List ℕ) (match : PdLease → Bool)
    → IsApart now p.leases
    → IsApart now (drop_leases p now iface match).0.leases
unfolding drop_leases
drop_leases-IsApart p now iface match apart =
    let kept = delete_leases (λ k l. bytes_eq l.iface iface && match l) p.leases in
    let fine =
      delete_leases-IsApart now (λ k l. bytes_eq l.iface iface && match l) p.leases apart in
    elim (Bool-cases (ltb 0 (length (matching match iface p.leases)))) [
      | inl some_out ↦ rw (some_out, publish-leases (record p { leases = kept }) now) fine
      | inr none_out ↦ rw none_out fine
    ]

Reach-IsApart : (p : PdPool) (now : ℕ) → Reach p now → IsApart now p.leases
unfolding commit undelegate IsApart
Reach-IsApart _ _ (started plen now told) = tt
Reach-IsApart _ _ (waits {p} {t} now le r) = IsApart-later t now p.leases le (Reach-IsApart p t r)
Reach-IsApart _ _ (commits {p} clock s key want iface peer valid reconf_key r) =
    committed-IsApart p clock s key want iface peer valid reconf_key
      (pick p clock s key want key.ula) refl (Reach-IsApart p clock.now r)
Reach-IsApart _ _ (releases {p} {now} key r) =
    released-IsApart p now key (lease_of key p.leases) (Reach-IsApart p now r)
Reach-IsApart _ _ (drops {p} {now} iface match r) =
    drop_leases-IsApart p now iface match (Reach-IsApart p now r)

-- In every state that the delegation pool reaches from an empty one by commits, releases, drops
-- and the passing of time, in any order: two delegations under different keys that have not
-- expired do not overlap.
pub Reach-no_overlap :
    (p : PdPool) (now : ℕ) (j k : PdKey) (l m : PdLease)
    → Reach p now
    → lease_of j p.leases ≡ some l
    → lease_of k p.leases ≡ some m
    → pd_key_eq j k ≡ false
    → now < l.expires
    → now < m.expires
    → prefix_overlaps l.prefix m.prefix ≡ false
Reach-no_overlap p now j k l m r at at' other live live' =
    IsApart-no_overlap now j k l m p.leases (Reach-IsApart p now r) at at' other live live'
