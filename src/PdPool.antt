-- ===== src/PdPool.antt =====
-- The pool that delegates prefixes to downstream routers: pd.go, and the commits of `delegate` and
-- `undelegate` (dhcp6s.go). The file and the routes are left out.
pub mod Pick
pub mod Picked
pub mod Disjoint
pub mod World
use sixup.Common.{
  ℕ, zero, suc, ◌+◌, ◌-◌, ◌*◌, ◌/◌, ◌%◌, ◌^◌, min, max, Bool, true, false, not, ◌&&◌, ◌||◌, List,
  [], ◌∷◌, ◌++◌, Option, none, some, ◌==◌, ltb, leb, if◌then◌else◌, length, bytes_eq, u64,
}
use sixup.Netip.{
  Addr, no_addr, ip4, ip6, is_unspecified, Prefix, prefix_from, prefix_valid, bits, masked,
  prefix_contains, prefix_overlaps,
}
use sixup.Store.{LinePrefix, Snapshot, is_pd, is_ra, lan_overlaps}

-- `pdKey`: the text is the DUID in hexadecimal, the IAID and a mark for the ULA.
pub record PdKey : Type 0 where
  pub duid : List ℕ
  pub iaid : ℕ
  pub ula : Bool

pub record PdLease : Type 0 where
  pub duid : List ℕ
  pub iaid : ℕ
  pub prefix : Prefix
  pub iface : List ℕ
  pub peer : Addr
  pub expires : ℕ
  pub reconf_key : List ℕ

-- `told` is what the firewall was handed last, `none` without one.
pub record PdPool : Type 0 where
  pub plen : ℕ
  pub told : Option (List Prefix)
  pub leases : List (PdKey × PdLease)

bool_eq : Bool → Bool → Bool
bool_eq true b = b
bool_eq false b = not b

unfoldable pub pd_key_eq : PdKey → PdKey → Bool
unfolding bool_eq bytes_eq
pd_key_eq j k = (j.iaid == k.iaid && bool_eq j.ula k.ula) && bytes_eq j.duid k.duid

abbrev pub max_probes : ℕ
max_probes = 4096

-- `p.leases[key]`, the write and the deletion.
unfoldable pub lease_of : PdKey → List (PdKey × PdLease) → Option PdLease
lease_of key [] = none
lease_of key ((k, l) ∷ ls) = let rest = lease_of key ls in if pd_key_eq k key then some l else rest

unfoldable pub put_lease : PdKey → PdLease → List (PdKey × PdLease) → List (PdKey × PdLease)
put_lease key lease [] = (key, lease) ∷ []
put_lease key lease ((k, l) ∷ ls) =
    let rest = put_lease key lease ls in if pd_key_eq k key then (k, lease) ∷ ls else (k, l) ∷ rest

unfoldable pub delete_leases :
    (PdKey → PdLease → Bool) → List (PdKey × PdLease) → List (PdKey × PdLease)
delete_leases gone [] = []
delete_leases gone ((k, l) ∷ ls) =
    let rest = delete_leases gone ls in if gone k l then rest else (k, l) ∷ rest

unfoldable pub live_prefixes : ℕ → List (PdKey × PdLease) → List Prefix
live_prefixes now [] = []
live_prefixes now ((k, l) ∷ ls) =
    let rest = live_prefixes now ls in if ltb now l.expires then l.prefix ∷ rest else rest

-- `publish`, and with it `save`.
unfoldable pub publish : PdPool → ℕ → PdPool
publish p now = elim p.told [
  | none ↦ p
  | some old ↦ record p { told = some (live_prefixes now p.leases) }
]

filter_delegable : (LinePrefix → Bool) → List LinePrefix → List LinePrefix
filter_delegable test [] = []
filter_delegable test (u ∷ us) =
    let rest = filter_delegable test us in
    if test u && not u.deprecated && ltb (bits u.prefix) 64 then u ∷ rest else rest

unfoldable pub delegable : Snapshot → Bool → List LinePrefix
unfolding filter_delegable is_pd
delegable s ula =
    if ula then filter_delegable (λ u. true) s.ula else filter_delegable (λ w. is_pd w.source) s.wan

unfoldable pub shortest : PdPool → ℕ → ℕ
shortest p up =
    if ltb 0 p.plen
    then p.plen
    else if ltb up 48
    then 48
    else if ltb up 56
    then 56
    else if ltb up 60
    then 60
    else 64

-- The loops of `free`, over the line's prefixes and over the delegations.
unfoldable pub wan_free : List LinePrefix → Prefix → Bool
wan_free [] pf = true
wan_free (w ∷ ws) pf =
    let rest = wan_free ws pf in
    if is_ra w.source && prefix_overlaps w.prefix pf
      || prefix_valid w.exclude && prefix_overlaps w.exclude pf
    then false
    else rest

unfoldable pub leases_free : ℕ → PdKey → Prefix → List (PdKey × PdLease) → Bool
leases_free now key pf [] = true
leases_free now key pf ((k, l) ∷ ls) =
    let rest = leases_free now key pf ls in
    if not (pd_key_eq k key) && ltb now l.expires && prefix_overlaps l.prefix pf
    then false
    else rest

unfoldable pub free : PdPool → ℕ → Snapshot → Prefix → PdKey → Bool
free p now s pf key =
    if lan_overlaps s pf
    then false
    else if wan_free s.wan pf
    then leases_free now key pf p.leases
    else false
