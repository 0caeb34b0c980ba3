-- ===== src/PdPool/Picked.antt =====
-- What `pick` of pd.go picks, on each of its ways.
use mathlib.Core.List.{Memᴰ}
use mathlib.Core.List.Memᴰ
use mathlib.Core.Option.{some-injective}
use sixup.Common.{
  ℕ, zero, suc, ◌+◌, ◌-◌, ◌%◌, ◌^◌, ◌≤◌, ◌<◌, ◌≡◌, refl, ap, ◌⊎◌, inl, inr, min, Bool, true, not,
  ◌&&◌, List, [], ◌∷◌, Option, none, some, ltb, leb, arith, Bool-cases, u64,
}
use sixup.Netip.{
  Prefix, prefix_from, bits, bit_len, addr_valid, masked, is_unspecified, prefix_contains,
  prefix_valid,
}
use sixup.Store.{LinePrefix, Snapshot}
use package.sixup.PdPool.{PdKey, PdLease, PdPool, max_probes, lease_of, delegable, shortest, free}
use package.sixup.PdPool.Pick.{
  Clock, slot, probe, block, usable_in, grow, first_length, carve, with_prefix, if_usable, current,
  wanted, or_else, in_up, pick,
}

-- A prefix to delegate: free, of one of the delegations, longer than it, and neither shorter than
-- the pool allows nor longer than a /64.
unfoldable pub IsGood :
    PdPool → Clock → Snapshot → PdKey → List LinePrefix → Prefix → LinePrefix → Type 0
IsGood p clock s key ups pf u =
    (free p clock.now s pf key ≡ true)
    × Memᴰ u ups
    × (bits u.prefix < bits pf)
    × (shortest p (bits u.prefix) ≤ bits pf)
    × (bits pf ≤ 64)

bits-slot : (up : Prefix) (n j : ℕ) → n ≤ 64 → bits (slot up n j) ≡ n
unfolding bits slot prefix_from bit_len addr_valid
bits-slot up n j h = ground arith

probe-test :
    (test : Prefix → Bool) (up : Prefix) (n start count rounds i : ℕ) (pf : Prefix)
    → n ≤ 64
    → probe test up n start count rounds i ≡ some pf
    → (test pf ≡ true) × (bits pf ≡ n)
unfolding probe
probe-test test up n start count zero i pf l h = absurd (ground arith)
probe-test test up n start count (suc rounds) i pf l h =
    let here = slot up n (u64 (start + i) % count) in
    elim (Bool-cases (test here)) [
      | inl found ↦
          let same : here ≡ pf = some-injective here pf (rw found at h) in
          (rw (← same) found, rw (← same) (bits-slot up n (u64 (start + i) % count) l))
      | inr taken ↦ probe-test test up n start count rounds (i + 1) pf l (rw taken at h)
    ]

or_else-cases :
    (x y : Option (Prefix × LinePrefix)) (a : Prefix × LinePrefix)
    → or_else x y ≡ some a
    → (x ≡ some a) ⊎ (y ≡ some a)
unfolding or_else
or_else-cases none y a h = inr h
or_else-cases (some x) y a h = inl h

in_up-some :
    (u v : LinePrefix) (o : Option Prefix) (pf : Prefix)
    → in_up u o ≡ some (pf, v)
    → (o ≡ some pf) × (u ≡ v)
unfolding in_up
in_up-some u v none pf h = absurd (ground arith)
in_up-some u v (some q) pf h =
    let e = some-injective (q, u) (pf, v) h in
    (ap (λ (t : Prefix × LinePrefix). some t.0) e, ap (λ (t : Prefix × LinePrefix). t.1) e)

with_prefix-some :
    (q pf : Prefix) (o : Option LinePrefix) (v : LinePrefix)
    → with_prefix q o ≡ some (pf, v)
    → (o ≡ some v) × (q ≡ pf)
unfolding with_prefix
with_prefix-some q pf none v h = absurd (ground arith)
with_prefix-some q pf (some u) v h =
    let e = some-injective (q, u) (pf, v) h in
    (ap (λ (t : Prefix × LinePrefix). some t.1) e, ap (λ (t : Prefix × LinePrefix). t.0) e)

module _ (p : PdPool) (clock : Clock) (s : Snapshot) (key : PdKey) where
  block-free :
      (up : Prefix) (n : ℕ) (pf : Prefix)
      → n ≤ 64
      → block p clock s up n key ≡ some pf
      → (free p clock.now s pf key ≡ true) × (bits pf ≡ n)
  unfolding block
  block-free up n pf l h =
      let count = u64 (2 ^ (n - bits up)) in
      probe-test (λ q. free p clock.now s q key) up n (clock.hash key % count) count
        (min count max_probes) 0 pf l h

  usable_in-IsGood :
      (ups : List LinePrefix) (pf : Prefix) (u : LinePrefix)
      → usable_in p clock s key ups pf ≡ some u
      → IsGood p clock s key ups pf u
  unfolding usable_in IsGood
  usable_in-IsGood [] pf u h = absurd (ground arith)
  usable_in-IsGood (v ∷ ups) pf u h =
      elim (Bool-cases (ltb (bits v.prefix) (bits pf) && prefix_contains v.prefix pf.ip)) [
        | inl inside ↦
            elim (Bool-cases (
              (leb (shortest p (bits v.prefix)) (bits pf) && leb (bits pf) 64)
              && free p clock.now s pf key)) [
                | inl good ↦
                    let same : v ≡ u = some-injective v u (rw (inside, good) at h) in
                    rw (← same)
                      (ground arith, Memᴰ.head refl, ground arith, ground arith, ground arith)
                | inr bad ↦ absurd (ground arith)
              ]
        | inr outside ↦
            let (f, m, longer, long, short) = usable_in-IsGood ups pf u (rw outside at h) in
            (f, Memᴰ.tail m, longer, long, short)
      ]

  grow-IsGood :
      (u : LinePrefix) (rounds n : ℕ) (pf : Prefix) (v : LinePrefix)
      → rounds ≤ 65 - n
      → bits u.prefix < n
      → shortest p (bits u.prefix) ≤ n
      → grow p clock s key u rounds n ≡ some (pf, v)
      → IsGood p clock s key (u ∷ []) pf v
  unfolding grow IsGood
  grow-IsGood u zero n pf v room longer long h = absurd (ground arith)
  grow-IsGood u (suc rounds) n pf v room longer long h =
      elim (or_else-cases (in_up u (block p clock s u.prefix n key))
        (grow p clock s key u rounds (n + 1)) (pf, v) h) [
          | inl here ↦
              let (found, same) = in_up-some u v (block p clock s u.prefix n key) pf here in
              let (f, size) = block-free u.prefix n pf (omega arith) found in
              rw (← same)
                (f, Memᴰ.head refl, omega (arith, size), omega (arith, size), omega (arith, size))
          | inr above ↦
              grow-IsGood u rounds (n + 1) pf v (omega arith) (omega arith) (omega arith) above
        ]

  carve-IsGood :
      (want : Prefix) (ups : List LinePrefix) (pf : Prefix) (u : LinePrefix)
      → carve p clock s key want ups ≡ some (pf, u)
      → IsGood p clock s key ups pf u
  unfolding carve IsGood first_length
  carve-IsGood want [] pf u h = absurd (ground arith)
  carve-IsGood want (v ∷ ups) pf u h =
      let n = first_length p v want in
      elim (or_else-cases (grow p clock s key v (65 - n) n) (carve p clock s key want ups) (pf, u)
        h) [
          | inl here ↦
              let (f, m, longer, long, short) =
                grow-IsGood v (65 - n) n pf u (omega arith) (omega arith) (omega arith) here in
              (f, Memᴰ.append_left ups m, longer, long, short)
          | inr there ↦
              let (f, m, longer, long, short) = carve-IsGood want ups pf u there in
              (f, Memᴰ.tail m, longer, long, short)
        ]

  if_usable-IsGood :
      (ups : List LinePrefix) (q pf : Prefix) (u : LinePrefix)
      → if_usable p clock s key ups q ≡ some (pf, u)
      → IsGood p clock s key ups pf u
  unfolding if_usable
  if_usable-IsGood ups q pf u h =
      let (found, same) = with_prefix-some q pf (usable_in p clock s key ups q) u h in
      rw (← same) (usable_in-IsGood ups q u found)

  current-IsGood :
      (ups : List LinePrefix) (held : Option PdLease) (pf : Prefix) (u : LinePrefix)
      → current p clock s key ups held ≡ some (pf, u)
      → IsGood p clock s key ups pf u
  unfolding current
  current-IsGood ups none pf u h = absurd (ground arith)
  current-IsGood ups (some l) pf u h = if_usable-IsGood ups l.prefix pf u h

  wanted-IsGood :
      (ups : List LinePrefix) (want pf : Prefix) (u : LinePrefix)
      → wanted p clock s key ups want ≡ some (pf, u)
      → IsGood p clock s key ups pf u
  unfolding wanted
  wanted-IsGood ups want pf u h =
      elim (Bool-cases (prefix_valid want && not (is_unspecified want.ip))) [
        | inl given ↦ if_usable-IsGood ups (masked want) pf u (rw given at h)
        | inr nothing ↦ absurd (ground arith)
      ]

  -- A prefix that pick returns, on each of its three ways, is free; it comes with one of the
  -- delegations that can be carved, is longer than it, and is neither shorter than the pool
  -- allows nor longer than a /64.
  pub pick-IsGood :
      (want pf : Prefix) (ula : Bool) (u : LinePrefix)
      → pick p clock s key want ula ≡ some (pf, u)
      → IsGood p clock s key (delegable s ula) pf u
  unfolding pick
  pick-IsGood want pf ula u h =
      let ups = delegable s ula in
      let held = current p clock s key ups (lease_of key p.leases) in
      let asked = wanted p clock s key ups want in
      let cut = carve p clock s key want ups in
      elim (or_else-cases held (or_else asked cut) (pf, u) h) [
        | inl e ↦ current-IsGood ups (lease_of key p.leases) pf u e
        | inr e ↦ elim (or_else-cases asked cut (pf, u) e) [
          | inl e' ↦ wanted-IsGood ups want pf u e'
          | inr e' ↦ carve-IsGood want ups pf u e'
        ]
      ]
