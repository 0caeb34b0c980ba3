-- ===== src/Store/Recompute/Revoked/Covers.antt =====
-- The comparison of `recompute` with the snapshot before, and the LAN prefixes in use.
use mathlib.Core.Path.{subst}
use sixup.Common.{
  ℕ, ◌+◌, ◌<◌, ◌≡◌, ◌⊎◌, inl, inr, min, Bool, true, false, not, ◌&&◌, ◌||◌, List, [], ◌∷◌, arith,
  Bool-cases, All, AllValues, any, or-split, and-split, bytes_eq, sym, ◌∙◌, refl,
}
use sixup.Netip.{Prefix, prefix_eq}
use sixup.Netip.Laws.{prefix_eq_iff}
use package.sixup.Store.{LinePrefix, SourceUpdate}
use package.sixup.Store.State.{StoreState, RevokedLan}
use package.sixup.Store.Handout.{Work, prefix_in}
use package.sixup.Store.Diff.{
  withdrawn, revoke, revoke_gone, revoke_gone_of, revoke_all_gone, after_restart, withdrew,
}
use package.sixup.Store.Diff.Keeps.{
  revoke_all_wan-keeps, after_restart-keeps, revoke_all_gone-keeps,
}
use package.sixup.Store.Recompute.Revoked.Segment.{is_gone}
use package.sixup.Store.Recompute.Revoked.Withdrawn.{
  lasts, put-is_withdrawn, put-is_withdrawn-keeps, IsCovered,
}

-- Is the prefix in use on a segment; on that segment, and on another?
unfoldable pub uses : Prefix → List LinePrefix → Bool
uses q ps = any (λ (p : LinePrefix). prefix_eq p.prefix q && not p.deprecated) ps

unfoldable pub used_on : List ℕ → Prefix → List (List ℕ × List LinePrefix) → Bool
used_on iface q [] = false
used_on iface q ((j, ps) ∷ lan) = bytes_eq j iface && uses q ps || used_on iface q lan

unfoldable pub used_elsewhere : List ℕ → Prefix → List (List ℕ × List LinePrefix) → Bool
used_elsewhere iface q [] = false
used_elsewhere iface q ((j, ps) ∷ lan) =
    not (bytes_eq j iface) && uses q ps || used_elsewhere iface q lan

module _ (s : StoreState) (now : ℕ) (some_hold : 0 < s.hold) (iface : List ℕ) where
  abbrev gone : List ℕ → LinePrefix → RevokedLan
  gone j op = record {
    iface = j;
    p = withdrawn now (min (now + s.hold) op.valid) op.source op.prefix;
  }

  gone-lasts :
      (j : List ℕ) (op : LinePrefix)
      → now < op.valid
      → bytes_eq j iface ≡ true
      → (k : Prefix) → prefix_eq k op.prefix ≡ true
      → lasts now iface op.prefix k (gone j op) ≡ true
  unfolding lasts is_gone withdrawn
  gone-lasts j op valid here k same = ground (arith, prefix_eq_iff op.prefix op.prefix)

  gone-lasts_as :
      (j : List ℕ) (op : LinePrefix) (q : Prefix)
      → now < op.valid
      → (not (bytes_eq j iface) && prefix_eq op.prefix q) ≡ false
      → (k : Prefix) → prefix_eq k op.prefix ≡ true
      → prefix_eq k q ≡ true
      → lasts now iface q k (gone j op) ≡ true
  gone-lasts_as j op q valid single k same is =
      let eq : op.prefix ≡ q =
        sym ((prefix_eq_iff k op.prefix).0 same) ∙ (prefix_eq_iff k q).0 is in
      let here : bytes_eq j iface ≡ true =
        ground (arith, single, (prefix_eq_iff op.prefix q).1 eq) in
      subst (λ (t : Prefix). lasts now iface t k (gone j op) ≡ true) eq
        (gone-lasts j op valid here k same)

  revoke_gone-keeps :
      (j : List ℕ) (op : LinePrefix) (w : Work) (q : Prefix)
      → now < op.valid
      → (not (bytes_eq j iface) && (prefix_eq op.prefix q && not op.deprecated)) ≡ false
      → IsCovered now iface q w
      → IsCovered now iface q (revoke_gone s now j op w)
  unfolding revoke_gone
  revoke_gone-keeps j op w q valid single h =
      elim (Bool-cases (prefix_in op.prefix w.active || op.deprecated)) [
        | inl stays ↦ rw stays h
        | inr goes ↦
            let apart : (not (bytes_eq j iface) && prefix_eq op.prefix q) ≡ false =
              ground (arith, single, goes) in
            rw goes (
              unfold IsCovered revoke in
              elim h [
                | inl active ↦ inl active
                | inr left ↦ inr (
                    put-is_withdrawn-keeps now iface q op.prefix (gone j op) w.revoked
                      (gone-lasts_as j op q valid apart) left)
              ])
      ]

  revoke_gone-covers :
      (j : List ℕ) (op : LinePrefix) (w : Work)
      → now < op.valid
      → bytes_eq j iface ≡ true
      → op.deprecated ≡ false
      → IsCovered now iface op.prefix (revoke_gone s now j op w)
  unfolding revoke_gone IsCovered revoke
  revoke_gone-covers j op w valid here fresh = elim (Bool-cases (prefix_in op.prefix w.active)) [
    | inl active ↦ rw active (inl active)
    | inr other ↦
        rw (other, fresh)
          (inr (
            put-is_withdrawn now iface op.prefix (gone j op) w.revoked
              (gone-lasts j op valid here)))
  ]

  revoke_gone_of-covers :
      (j : List ℕ) (ops : List LinePrefix) (w : Work) (q : Prefix)
      → All (λ (p : LinePrefix). now < p.valid) ops
      → (not (bytes_eq j iface) && uses q ops) ≡ false
      → ((bytes_eq j iface && uses q ops) ≡ true) ⊎ IsCovered now iface q w
      → IsCovered now iface q (revoke_gone_of s now j ops w)
  unfolding revoke_gone_of uses
  revoke_gone_of-covers j [] w q all single (inl never) = absurd (ground (arith, never))
  revoke_gone_of-covers j [] w q all single (inr h) = h
  revoke_gone_of-covers j (op ∷ ops) w q all single (inr h) =
      revoke_gone_of-covers j ops (revoke_gone s now j op w) q all.1 (ground (arith, single))
        (inr (revoke_gone-keeps j op w q all.0 (ground (arith, single)) h))
  revoke_gone_of-covers j (op ∷ ops) w q all single (inl h) =
      let (here, used) =
        and-split (bytes_eq j iface) (prefix_eq op.prefix q && not op.deprecated || uses q ops) h in
      revoke_gone_of-covers j ops (revoke_gone s now j op w) q all.1 (ground (arith, single))
        (elim (or-split (prefix_eq op.prefix q && not op.deprecated) (uses q ops) used) [
          | inr rest ↦ inl (rw here rest)
          | inl this ↦ inr (
              subst (λ (t : Prefix). IsCovered now iface t (revoke_gone s now j op w))
                ((prefix_eq_iff op.prefix q).0
                  (and-split (prefix_eq op.prefix q) (not op.deprecated) this).0)
                (revoke_gone-covers j op w all.0 here (ground (arith, this))))
        ])

  pub revoke_all_gone-covers :
      (lan : List (List ℕ × List LinePrefix)) (w : Work) (q : Prefix)
      → AllValues (All (λ (p : LinePrefix). now < p.valid)) lan
      → used_elsewhere iface q lan ≡ false
      → (used_on iface q lan ≡ true) ⊎ IsCovered now iface q w
      → IsCovered now iface q (revoke_all_gone s now lan w)
  unfolding revoke_all_gone used_on used_elsewhere
  revoke_all_gone-covers [] w q all single (inl never) = absurd (ground arith)
  revoke_all_gone-covers [] w q all single (inr h) = h
  revoke_all_gone-covers ((j, olds) ∷ lan) w q all single h =
      let first : (not (bytes_eq j iface) && uses q olds) ≡ false = ground (arith, single) in
      let others : used_elsewhere iface q lan ≡ false = ground (arith, single) in
      let covers = revoke_gone_of-covers j olds w q all.0 first in
      revoke_all_gone-covers lan (revoke_gone_of s now j olds w) q all.1 others (elim h [
        | inr covered ↦ inr (covers (inr covered))
        | inl used ↦ elim (or-split (bytes_eq j iface && uses q olds) (used_on iface q lan) used) [
          | inl here ↦ inr (covers (inl here))
          | inr later ↦ inl later
        ]
      ])

-- Withdrawing leaves what is handed out alone.
pub withdrew-given :
    (s : StoreState) (now : ℕ) (u : SourceUpdate) (w : Work)
    → ((withdrew s now u w).next ≡ w.next) × ((withdrew s now u w).active ≡ w.active)
unfolding withdrew
withdrew-given s now u w =
    let I : (Work → Type 0) = λ v. (v.next ≡ w.next) × (v.active ≡ w.active) in
    revoke_all_wan-keeps I (λ v ps g. g) now s.cur.wan
      (revoke_all_gone s now s.cur.lan (after_restart s now u s.previous w))
      (revoke_all_gone-keeps I (λ iface p gone v g. unfold revoke in g) s now s.cur.lan
        (after_restart s now u s.previous w)
        (after_restart-keeps I (λ iface p gone v g. unfold revoke in g) s now u s.previous w
          (refl, refl)))

pub withdrew-covers :
    (s : StoreState) (now : ℕ) (u : SourceUpdate) (w : Work) (iface : List ℕ) (q : Prefix)
    → 0 < s.hold
    → AllValues (All (λ (p : LinePrefix). now < p.valid)) s.cur.lan
    → used_on iface q s.cur.lan ≡ true
    → used_elsewhere iface q s.cur.lan ≡ false
    → IsCovered now iface q (withdrew s now u w)
unfolding withdrew IsCovered
withdrew-covers s now u w iface q hold valid used single =
    revoke_all_wan-keeps (IsCovered now iface q) (λ v ps g. g) now s.cur.wan
      (revoke_all_gone s now s.cur.lan (after_restart s now u s.previous w))
      (revoke_all_gone-covers s now hold iface s.cur.lan (after_restart s now u s.previous w) q
        valid single (inl used))
