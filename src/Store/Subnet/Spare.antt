-- ===== src/Store/Subnet/Spare.antt =====
-- The subnets that segments take beside the part of a delegation that the ISP keeps.
use mathlib.Core.List.{Memᴰ}
use mathlib.Core.List.Memᴰ.{not-nil}
use mathlib.Core.Option.{some-injective}
use native.Mathlib.Nat.{pow-le-pow_right}
use sixup.Common.{
  ℕ, zero, suc, ◌+◌, ◌-◌, ◌<◌, ◌≤◌, ◌^◌, ◌≡◌, ◌≢◌, ◌∙◌, refl, sym, min, false, ◌&&◌, List, [], ◌∷◌,
  some, ◌==◌, any, arith, inl, inr, Bool-cases, Option-cases, none_ne_some,
}
use sixup.Netip.{ip6, Prefix, prefix_valid, bits, prefix_overlaps}
use package.sixup.Store.{LinePrefix}
use package.sixup.Store.Subnet.{LanDef, split_lan, unless_excluded, spare_below, spare_subnet}
use package.sixup.Store.Subnet.Split.{split_lan-apart}
use sixup.Store.Handout.{lan_subnet, or_spare}

-- What the loop finds: a number below that no segment names, and its subnet, clear of what the
-- ISP keeps.
pub record IsSpare (lans : List LanDef) (p : LinePrefix) (n : ℕ) (sub : Prefix) : Type 0 where
  pub index : ℕ
  pub below : index < n
  pub unnamed : any (λ (l : LanDef). l.index == index) lans ≡ false
  pub is : split_lan p.prefix index ≡ some sub
  pub clear : prefix_overlaps p.exclude sub ≡ false

spare_below-IsSpare :
    (lans : List LanDef) (p : LinePrefix) (n : ℕ) (sub : Prefix)
    → spare_below lans p n ≡ some sub
    → IsSpare lans p n sub
unfolding spare_below
spare_below-IsSpare lans p zero sub h = absurd (ground arith)
spare_below-IsSpare lans p (suc i) sub h =
    let wider : (IsSpare lans p i sub → IsSpare lans p (suc i) sub) = λ r. record {
      index = r.index;
      below = omega (arith, r.below);
      unnamed = r.unnamed;
      is = r.is;
      clear = r.clear;
    } in
    elim (Bool-cases (any (λ (l : LanDef). l.index == i) lans)) [
      | inl named ↦ wider (spare_below-IsSpare lans p i sub (rw named at h))
      | inr free ↦
          let here = rw free at h in
          elim (Option-cases (split_lan p.prefix i)) [
            | inl nothing ↦
                wider
                  (spare_below-IsSpare lans p i sub (unfold unless_excluded in rw nothing at here))
            | inr (x, found) ↦ elim (Bool-cases (prefix_overlaps p.exclude x)) [
              | inl kept ↦ wider (
                  spare_below-IsSpare lans p i sub
                    (unfold unless_excluded in rw (found, kept) at here))
              | inr clear ↦
                  let same : x ≡ sub =
                    some-injective x sub (unfold unless_excluded in rw (found, clear) at here) in
                  let spare : IsSpare lans p (suc i) x = record {
                    index = i;
                    below = omega arith;
                    unnamed = free;
                    is = found;
                    clear = clear;
                  } in
                  rw same at spare
            ]
          ]
    ]

spare_subnet-IsSpare :
    (lans : List LanDef) (p : LinePrefix) (sub : Prefix)
    → spare_subnet lans p ≡ some sub
    → IsSpare lans p (2 ^ min (64 - bits p.prefix) 16) sub
unfolding spare_subnet
spare_subnet-IsSpare lans p sub h =
    spare_below-IsSpare lans p (2 ^ min (64 - bits p.prefix) 16) sub h

-- An invalid prefix overlaps nothing.
not_kept :
    (e x : Prefix) → (prefix_valid e && prefix_overlaps e x) ≡ false → prefix_overlaps e x ≡ false
unfolding prefix_overlaps
not_kept e x h = ground arith

-- The subnet that a segment takes of a delegation, its own or a spare one, does not overlap the
-- part that the ISP excludes.
pub lan_subnet-clear :
    (lans : List LanDef) (p : LinePrefix) (l : LanDef) (sub : Prefix)
    → lan_subnet lans p l ≡ some sub
    → prefix_overlaps p.exclude sub ≡ false
unfolding lan_subnet or_spare
lan_subnet-clear lans p l sub h = elim (Option-cases (split_lan p.prefix l.index)) [
  | inl short ↦ absurd (none_ne_some {A = Prefix} (rw short at h))
  | inr (x, found) ↦ elim (Bool-cases (prefix_valid p.exclude && prefix_overlaps p.exclude x)) [
    | inl kept ↦ (spare_subnet-IsSpare lans p sub (rw (found, kept) at h)).clear
    | inr free ↦
        let same : x ≡ sub = some-injective x sub (rw (found, free) at h) in
        rw same at (not_kept p.exclude x free)
  ]
]

any-named :
    (lans : List LanDef) (l : LanDef) (i : ℕ)
    → Memᴰ l lans
    → any (λ (k : LanDef). k.index == i) lans ≡ false
    → l.index ≢ i
any-named [] l i there none_so = absurd (not-nil there)
any-named (k ∷ lans) l i (Memᴰ.head same) none_so = rw same (ground (arith, none_so))
any-named (k ∷ lans) l i (Memᴰ.tail later) none_so =
    any-named lans l i later (ground (arith, none_so))

-- For an IPv6 prefix of at most 64 bits, a spare subnet overlaps none that splitLAN gives a
-- segment whose number is below 2^63.
pub spare_subnet-apart :
    (lans : List LanDef) (p : LinePrefix) (a n : ℕ) (l : LanDef) (sub other : Prefix)
    → p.prefix ≡ record { ip = ip6 a; bits_plus_one = n + 1 }
    → a < 2 ^ 128
    → n ≤ 64
    → Memᴰ l lans
    → l.index < 2 ^ 63
    → spare_subnet lans p ≡ some sub
    → split_lan p.prefix l.index ≡ some other
    → prefix_overlaps sub other ≡ false
spare_subnet-apart lans p a n l sub other is fits short there word h h' =
    let s = spare_subnet-IsSpare lans p sub h in
    let top : 2 ^ min (64 - bits p.prefix) 16 ≤ 2 ^ 16 =
      pow-le-pow_right (omega arith) {i = min (64 - bits p.prefix) 16} {j = 16} (omega arith) in
    split_lan-apart a n s.index l.index sub other fits short (omega (arith, s.below, top)) word
      (λ e. any-named lans l s.index there s.unnamed (sym e)) (rw is at s.is) (rw is at h')

module _ (lans : List LanDef) (p : LinePrefix) (index : ℕ) (sub : Prefix)
    (unnamed : any (λ (l : LanDef). l.index == index) lans ≡ false)
    (is : split_lan p.prefix index ≡ some sub) (clear : prefix_overlaps p.exclude sub ≡ false) where
  -- What the loop finds of the numbers below n, and that it is not below `index`.
  abbrev Found : ℕ → Type 0
  Found n =
      (x : Prefix) × (spare_below lans p n ≡ some x) × (r : IsSpare lans p n x) × (index ≤ r.index)

  wider : (i : ℕ) → spare_below lans p (suc i) ≡ spare_below lans p i → Found i → Found (suc i)
  wider i same (x, h, r, le) = (
    x,
    same ∙ h,
    record {
      index = r.index;
      below = omega (arith, r.below);
      unnamed = r.unnamed;
      is = r.is;
      clear = r.clear;
    },
    le,
  )

  found : (n : ℕ) → index < n → Found n
  unfolding spare_below
  found zero below = absurd (omega arith)
  found (suc i) below = elim (Bool-cases (index == i)) [
    | inl at_index ↦
        let same : i ≡ index = ground (arith, at_index) in
        (
          sub,
          rw (same, unnamed, is) (unfold unless_excluded in rw clear refl),
          record { index = index; below = omega arith; unnamed = unnamed; is = is; clear = clear },
          omega arith,
        )
    | inr apart ↦
        let rest = found i (ground (arith, apart, below)) in
        elim (Bool-cases (any (λ (l : LanDef). l.index == i) lans)) [
          | inl named ↦ wider i (unfold spare_below in rw named refl) rest
          | inr free ↦ elim (Option-cases (split_lan p.prefix i)) [
            | inl nothing ↦
                wider i (unfold spare_below unless_excluded in rw (free, nothing) refl) rest
            | inr (y, there) ↦ elim (Bool-cases (prefix_overlaps p.exclude y)) [
              | inl kept ↦
                  wider i (unfold spare_below unless_excluded in rw (free, there, kept) refl) rest
              | inr open_ ↦ (
                y,
                rw (free, there) (unfold unless_excluded in rw open_ refl),
                record {
                  index = i;
                  below = omega arith;
                  unnamed = free;
                  is = there;
                  clear = open_;
                },
                omega arith,
              )
            ]
          ]
        ]
  ]

-- Where a number within the spare range, which no segment names, has a subnet of the delegation
-- clear of the part that the ISP excludes, spareSubnet finds a subnet: that of a number which is
-- not below it, no segment names and whose subnet is clear too. So the one it finds has the
-- highest number, and it finds none only if there is none.
pub spare_subnet-highest :
    (lans : List LanDef) (p : LinePrefix) (index : ℕ) (sub : Prefix)
    → index < 2 ^ min (64 - bits p.prefix) 16
    → any (λ (l : LanDef). l.index == index) lans ≡ false
    → split_lan p.prefix index ≡ some sub
    → prefix_overlaps p.exclude sub ≡ false
    → (x : Prefix) × (spare_subnet lans p ≡ some x)
      × (r : IsSpare lans p (2 ^ min (64 - bits p.prefix) 16) x) × (index ≤ r.index)
unfolding spare_subnet
spare_subnet-highest lans p index sub below unnamed is clear =
    found lans p index sub unnamed is clear (2 ^ min (64 - bits p.prefix) 16) below
