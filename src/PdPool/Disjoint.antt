-- ===== src/PdPool/Disjoint.antt =====
-- Delegations of different routers never overlap: pd.go's `free` and the commits after it.
use mathlib.Core.Option.{some-injective}
use sixup.Common.{
  ℕ, min, ◌≤◌, ◌<◌, ◌≡◌, refl, ◌↔◌, ◌⊎◌, inl, inr, Bool, true, false, List, [], ◌∷◌, some, ltb,
  arith, Bool-cases, bytes_eq_iff,
}
use sixup.Netip.{Addr, no_addr, ip4, ip6, Prefix, bits, same_network, prefix_overlaps}
use package.sixup.PdPool.{
  PdKey, PdLease, bool_eq, pd_key_eq, lease_of, put_lease, delete_leases, leases_free,
}

bool_eq_iff : (a b : Bool) → (bool_eq a b ≡ true) ↔ (a ≡ b)
unfolding bool_eq
bool_eq_iff true true = ground arith
bool_eq_iff true false = ground arith
bool_eq_iff false true = ground arith
bool_eq_iff false false = ground arith

pub pd_key_eq_iff : (j k : PdKey) → (pd_key_eq j k ≡ true) ↔ (j ≡ k)
unfolding pd_key_eq
pd_key_eq_iff j k = ground (arith, bytes_eq_iff j.duid k.duid, bool_eq_iff j.ula k.ula)

same_network_sym : (n : ℕ) (a b : Addr) → same_network n a b ≡ same_network n b a
unfolding same_network
same_network_sym n no_addr no_addr = refl
same_network_sym n no_addr (ip4 b) = refl
same_network_sym n no_addr (ip6 b) = refl
same_network_sym n (ip4 a) no_addr = refl
same_network_sym n (ip4 a) (ip4 b) = ground arith
same_network_sym n (ip4 a) (ip6 b) = refl
same_network_sym n (ip6 a) no_addr = refl
same_network_sym n (ip6 a) (ip4 b) = refl
same_network_sym n (ip6 a) (ip6 b) = ground arith

pub prefix_overlaps_sym : (p o : Prefix) → prefix_overlaps p o ≡ prefix_overlaps o p
unfolding prefix_overlaps
prefix_overlaps_sym p o =
    let m : min (bits p) (bits o) ≡ min (bits o) (bits p) = omega arith in
    rw m (ground (arith, same_network_sym (min (bits o) (bits p)) p.ip o.ip))

-- Every live delegation overlaps no live one of another key after it in the list.
unfoldable pub IsApart : ℕ → List (PdKey × PdLease) → Type 0
IsApart now [] = Unit
IsApart now ((k, l) ∷ ls) =
    ((ltb now l.expires ≡ false) ⊎ (leases_free now k l.prefix ls ≡ true)) × IsApart now ls

leases_free-put :
    (now : ℕ) (k key : PdKey) (q : Prefix) (lease : PdLease) (ls : List (PdKey × PdLease))
    → leases_free now k q ls ≡ true
    → prefix_overlaps lease.prefix q ≡ false
    → leases_free now k q (put_lease key lease ls) ≡ true
unfolding leases_free put_lease
leases_free-put now k key q lease [] h o = ground arith
leases_free-put now k key q lease ((j, l) ∷ ls) h o =
    ground (arith, leases_free-put now k key q lease ls)

pub put_lease-IsApart :
    (now : ℕ) (key : PdKey) (lease : PdLease) (ls : List (PdKey × PdLease))
    → IsApart now ls
    → leases_free now key lease.prefix ls ≡ true
    → IsApart now (put_lease key lease ls)
unfolding IsApart put_lease leases_free
put_lease-IsApart now key lease [] apart h = (inr refl, tt)
put_lease-IsApart now key lease ((k, l) ∷ ls) (head, rest) h = elim (Bool-cases (pd_key_eq k key)) [
  | inl same ↦ rw same (inr (ground (arith, pd_key_eq_iff k key)), rest)
  | inr other ↦ rw other (
    ground (
      arith,
      leases_free-put now k key l.prefix lease ls,
      prefix_overlaps_sym lease.prefix l.prefix,
    ),
    put_lease-IsApart now key lease ls rest (ground arith),
  )
]

leases_free-later :
    (t now : ℕ) (k : PdKey) (q : Prefix) (ls : List (PdKey × PdLease))
    → t ≤ now
    → leases_free t k q ls ≡ true
    → leases_free now k q ls ≡ true
unfolding leases_free
leases_free-later t now k q [] le h = refl
leases_free-later t now k q ((j, l) ∷ ls) le h = ground (arith, leases_free-later t now k q ls le)

pub IsApart-later :
    (t now : ℕ) (ls : List (PdKey × PdLease)) → t ≤ now → IsApart t ls → IsApart now ls
unfolding IsApart
IsApart-later t now [] le apart = tt
IsApart-later t now ((k, l) ∷ ls) le (head, rest) =
    (ground (arith, leases_free-later t now k l.prefix ls le), IsApart-later t now ls le rest)

leases_free-delete :
    (now : ℕ) (k : PdKey) (q : Prefix) (gone : PdKey → PdLease → Bool) (ls : List (PdKey × PdLease))
    → leases_free now k q ls ≡ true
    → leases_free now k q (delete_leases gone ls) ≡ true
unfolding leases_free delete_leases
leases_free-delete now k q gone [] h = refl
leases_free-delete now k q gone ((j, l) ∷ ls) h = ground (arith, leases_free-delete now k q gone ls)

pub delete_leases-IsApart :
    (now : ℕ) (gone : PdKey → PdLease → Bool) (ls : List (PdKey × PdLease))
    → IsApart now ls
    → IsApart now (delete_leases gone ls)
unfolding IsApart delete_leases
delete_leases-IsApart now gone [] apart = tt
delete_leases-IsApart now gone ((k, l) ∷ ls) (head, rest) = elim (Bool-cases (gone k l)) [
  | inl goes ↦ rw goes (delete_leases-IsApart now gone ls rest)
  | inr stays ↦ rw stays (
    ground (arith, leases_free-delete now k l.prefix gone ls),
    delete_leases-IsApart now gone ls rest,
  )
]

lease_of-free :
    (now : ℕ) (j key : PdKey) (pf : Prefix) (l : PdLease) (ls : List (PdKey × PdLease))
    → leases_free now key pf ls ≡ true
    → lease_of j ls ≡ some l
    → pd_key_eq j key ≡ false
    → now < l.expires
    → prefix_overlaps l.prefix pf ≡ false
unfolding leases_free lease_of
lease_of-free now j key pf l [] h at other live = absurd (ground arith)
lease_of-free now j key pf l ((k, m) ∷ ls) h at other live =
    ground (arith, pd_key_eq_iff k j, lease_of-free now j key pf l ls)

-- Two live delegations of different keys do not overlap.
pub IsApart-no_overlap :
    (now : ℕ) (j k : PdKey) (l m : PdLease) (ls : List (PdKey × PdLease))
    → IsApart now ls
    → lease_of j ls ≡ some l
    → lease_of k ls ≡ some m
    → pd_key_eq j k ≡ false
    → now < l.expires
    → now < m.expires
    → prefix_overlaps l.prefix m.prefix ≡ false
unfolding IsApart lease_of
IsApart-no_overlap now j k l m [] apart at at' other live live' = absurd (ground arith)
IsApart-no_overlap now j k l m ((i, n) ∷ ls) (head, rest) at at' other live live' =
    elim (Bool-cases (pd_key_eq i j)) [
      | inl first ↦
          let same : n ≡ l = some-injective n l (rw first at at) in
          let apart = lease_of-free now k i n.prefix m ls in
          rw (← same, prefix_overlaps_sym n.prefix m.prefix)
            (ground (arith, pd_key_eq_iff i j, pd_key_eq_iff k i, pd_key_eq_iff j k))
      | inr later ↦ elim (Bool-cases (pd_key_eq i k)) [
        | inl first ↦ ground (
          arith,
          pd_key_eq_iff i k,
          pd_key_eq_iff j i,
          pd_key_eq_iff j k,
          lease_of-free now j i n.prefix l ls,
        )
        | inr later' ↦
            IsApart-no_overlap now j k l m ls rest (ground arith) (ground arith) other live live'
      ]
    ]
