-- ===== src/PdPool/Pick.antt =====
-- How the pool picks a prefix: `block` and `pick` of pd.go, and the commits in dhcp6s.go.
use sixup.Common.{
  ℕ, zero, suc, ◌+◌, ◌-◌, ◌*◌, ◌/◌, ◌%◌, ◌^◌, min, max, Bool, not, ◌&&◌, List, [], ◌∷◌, Option,
  none, some, ltb, leb, if◌then◌else◌, length, bytes_eq, u64,
}
use sixup.Netip.{
  Addr, no_addr, ip4, ip6, is_unspecified, Prefix, prefix_from, prefix_valid, bits, masked,
  prefix_contains, mapped_prefix,
}
use sixup.Store.{LinePrefix, Snapshot}
use package.sixup.PdPool.{
  PdKey, PdLease, PdPool, pd_key_eq, max_probes, lease_of, put_lease, delete_leases, publish,
  delegable, shortest, free,
}

-- `As16` as a number.
as_number16 : Addr → ℕ
as_number16 no_addr = 0
as_number16 (ip4 a) = mapped_prefix * 2 ^ 32 + a
as_number16 (ip6 a) = a

-- What a pick meets outside of the pool: the time, and FNV-1a over the key's text.
pub record Clock : Type 0 where
  pub now : ℕ
  pub hash : PdKey → ℕ

-- The /n of the slot: the upper 64 bits of the address count the slots of `up`.
unfoldable pub slot : Prefix → ℕ → ℕ → Prefix
unfolding as_number16
slot up n j =
    let a = as_number16 (masked up).ip in
    prefix_from (ip6 (u64 (a / 2 ^ 64 + u64 (j * 2 ^ (64 - n))) * 2 ^ 64 + a % 2 ^ 64)) n

-- The loop of `block`, by the rounds left.
unfoldable pub probe : (Prefix → Bool) → Prefix → ℕ → ℕ → ℕ → ℕ → ℕ → Option Prefix
probe test up n start count zero i = none
probe test up n start count (suc rounds) i =
    let pf = slot up n (u64 (start + i) % count) in
    let rest = probe test up n start count rounds (i + 1) in if test pf then some pf else rest

-- `none` for its false. A count of 0, of a /64 out of a /0, panics in Go.
unfoldable pub block : PdPool → Clock → Snapshot → Prefix → ℕ → PdKey → Option Prefix
block p clock s up n key =
    let count = u64 (2 ^ (n - bits up)) in
    probe (λ pf. free p clock.now s pf key) up n (clock.hash key % count) count
      (min count max_probes) 0

-- `usable` of `pick`: the first delegation that is shorter and contains the prefix decides.
unfoldable pub usable_in :
    PdPool → Clock → Snapshot → PdKey → List LinePrefix → Prefix → Option LinePrefix
usable_in p clock s key [] pf = none
usable_in p clock s key (u ∷ us) pf =
    let rest = usable_in p clock s key us pf in
    if ltb (bits u.prefix) (bits pf) && prefix_contains u.prefix pf.ip
    then if (leb (shortest p (bits u.prefix)) (bits pf) && leb (bits pf) 64)
        && free p clock.now s pf key
      then some u
      else none
    else rest

-- The first that is found.
unfoldable pub or_else :
    Option (Prefix × LinePrefix) → Option (Prefix × LinePrefix) → Option (Prefix × LinePrefix)
or_else (some x) y = some x
or_else none y = y

-- With the delegation that a prefix lies in.
unfoldable pub in_up : LinePrefix → Option Prefix → Option (Prefix × LinePrefix)
in_up u none = none
in_up u (some pf) = some (pf, u)

-- The loops over the lengths of a block, by the rounds left, and over the delegations.
unfoldable pub grow :
    PdPool → Clock → Snapshot → PdKey → LinePrefix → ℕ → ℕ → Option (Prefix × LinePrefix)
grow p clock s key u zero n = none
grow p clock s key u (suc rounds) n =
    let rest = grow p clock s key u rounds (n + 1) in
    or_else (in_up u (block p clock s u.prefix n key)) rest

unfoldable pub first_length : PdPool → LinePrefix → Prefix → ℕ
first_length p u want =
    max (shortest p (bits u.prefix)) (max (min (bits want) 64) (bits u.prefix + 1))

unfoldable pub carve :
    PdPool → Clock → Snapshot → PdKey → Prefix → List LinePrefix → Option (Prefix × LinePrefix)
unfolding first_length
carve p clock s key want [] = none
carve p clock s key want (u ∷ us) =
    let rest = carve p clock s key want us in
    let n = first_length p u want in or_else (grow p clock s key u (65 - n) n) rest

-- A prefix if the delegation that it lies in lets it be used.
unfoldable pub with_prefix : Prefix → Option LinePrefix → Option (Prefix × LinePrefix)
with_prefix pf none = none
with_prefix pf (some u) = some (pf, u)

unfoldable pub if_usable :
    PdPool → Clock → Snapshot → PdKey → List LinePrefix → Prefix → Option (Prefix × LinePrefix)
if_usable p clock s key ups pf = with_prefix pf (usable_in p clock s key ups pf)

-- The current delegation.
unfoldable pub current :
    PdPool
    → Clock
    → Snapshot
    → PdKey
    → List LinePrefix
    → Option PdLease
    → Option (Prefix × LinePrefix)
current p clock s key ups none = none
current p clock s key ups (some l) = if_usable p clock s key ups l.prefix

-- The prefix that the router asked for.
unfoldable pub wanted :
    PdPool → Clock → Snapshot → PdKey → List LinePrefix → Prefix → Option (Prefix × LinePrefix)
wanted p clock s key ups want =
    if prefix_valid want && not (is_unspecified want.ip)
    then if_usable p clock s key ups (masked want)
    else none

-- `none` for its false.
unfoldable pub pick :
    PdPool → Clock → Snapshot → PdKey → Prefix → Bool → Option (Prefix × LinePrefix)
pick p clock s key want ula =
    let ups = delegable s ula in
    or_else (current p clock s key ups (lease_of key p.leases))
      (or_else (wanted p clock s key ups want) (carve p clock s key want ups))

-- A pick is stored, with the lifetime that `delegate` computes; without one nothing changes.
unfoldable pub committed :
    PdPool → ℕ → PdKey → List ℕ → Addr → ℕ → List ℕ → Option (Prefix × LinePrefix) → PdPool
committed p now key iface peer valid reconf_key none = p
committed p now key iface peer valid reconf_key (some (pf, up)) =
    let lease : PdLease = record {
      duid = key.duid;
      iaid = key.iaid;
      prefix = pf;
      iface = iface;
      peer = peer;
      expires = now + valid;
      reconf_key = reconf_key;
    } in
    publish (record p { leases = put_lease key lease p.leases }) now

-- The commit of `delegate` for one of its keys.
unfoldable pub commit :
    PdPool → Clock → Snapshot → PdKey → Prefix → List ℕ → Addr → ℕ → List ℕ → PdPool
commit p clock s key want iface peer valid reconf_key =
    committed p clock.now key iface peer valid reconf_key (pick p clock s key want key.ula)

-- `undelegate`, for one of its keys.
unfoldable pub released : PdPool → ℕ → PdKey → Option PdLease → PdPool
released p now key none = p
released p now key (some l) =
    publish (record p { leases = delete_leases (λ k m. pd_key_eq k key) p.leases }) now

unfoldable pub undelegate : PdPool → ℕ → PdKey → PdPool
undelegate p now key = released p now key (lease_of key p.leases)

-- `drop`: the pool, and the delegations on the interface that matched.
unfoldable pub matching : (PdLease → Bool) → List ℕ → List (PdKey × PdLease) → List PdLease
matching test iface [] = []
matching test iface ((k, l) ∷ ls) =
    let rest = matching test iface ls in if bytes_eq l.iface iface && test l then l ∷ rest else rest

unfoldable pub drop_leases : PdPool → ℕ → List ℕ → (PdLease → Bool) → PdPool × List PdLease
drop_leases p now iface test =
    let out = matching test iface p.leases in
    let kept = delete_leases (λ k l. bytes_eq l.iface iface && test l) p.leases in
    let q = record p { leases = kept } in (if ltb 0 (length out) then publish q now else q, out)
