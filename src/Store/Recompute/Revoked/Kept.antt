-- ===== src/Store/Recompute/Revoked/Kept.antt =====
-- What is covered stays on a LAN: `recompute` as a whole.
use sixup.Common.{
  ℕ, ◌<◌, ◌≡◌, ◌⊎◌, inl, inr, Bool, true, List, [], ◌∷◌, ◌++◌, ltb, arith, All, AllValues, or-split,
  if-holds, false, bytes_eq,
}
use sixup.Netip.{Prefix}
use package.sixup.Store.{change_none, ChangeKind, LinePrefix}
use package.sixup.Store.State.{StoreState, RevokedLan}
use package.sixup.Store.Handout.{Work, append_lan, prefix_in, handed_out}
use package.sixup.Store.Recompute.Revoked.{in_lan, append_lan-keeps}
use package.sixup.Store.Diff.{keep_lan, keep_lans, keep_wan, keep_wans, withdrew, kept}
use package.sixup.Store.Classify.{classify}
use package.sixup.Store.State.{pick_source}
use package.sixup.Store.Stages.{drafted, with_tunnel}
use package.sixup.Store.Recompute.{
  recompute, worked, built, adopted, delivered, router_moved, publish, save_advertised, is_compared,
}
use package.sixup.Store.Recompute.Revoked.Withdrawn.{
  IsHandedOut, handed_out-IsHandedOut, lasts, is_withdrawn, IsCovered,
}
use package.sixup.Store.Recompute.Revoked.Covers.{
  used_on, used_elsewhere, withdrew-covers, withdrew-given,
}
use package.sixup.Store.Recompute.Revoked.Segment.{
  is_gone, withdrawn_on, append_lan-withdrawn_on, append_lan-withdrawn_on-keeps,
}

-- What appending to a LAN keeps, the loops over the prefixes in their deprecate period keep.
module _ (now : ℕ) (L : List (List ℕ × List LinePrefix) → Type 0)
    (appends : (iface : List ℕ) (p : LinePrefix) (lan : List (List ℕ × List LinePrefix))
      → L lan
      → L (append_lan iface p lan)) where
  keep_lan-keeps :
      (k : Prefix) (r : RevokedLan) (w : Work) → L w.next.lan → L (keep_lan now k r w).next.lan
  unfolding keep_lan
  keep_lan-keeps k r w h =
      if-holds (λ (v : Work). L v.next.lan) (ltb now r.p.valid) _ (record w { change = _ })
        (appends r.iface r.p w.next.lan h) h

  keep_lans-keeps :
      (rs : List (Prefix × RevokedLan)) (w : Work) → L w.next.lan → L (keep_lans now rs w).next.lan
  unfolding keep_lans
  keep_lans-keeps [] w h = h
  keep_lans-keeps ((k, r) ∷ rs) w h =
      keep_lans-keeps rs (keep_lan now k r w) (keep_lan-keeps k r w h)

  keep_wans-keeps :
      (ps : List (Prefix × LinePrefix)) (w : Work) → L w.next.lan → L (keep_wans now ps w).next.lan
  unfolding keep_wans
  keep_wans-keeps [] w h = h
  keep_wans-keeps ((k, p) ∷ ps) w h = keep_wans-keeps ps (keep_wan now k p w) (
      unfold keep_wan in
      if-holds (λ (v : Work). L v.next.lan) (ltb now p.valid)
        (record w { next = record w.next { wan = w.next.wan ++ (p ∷ []) }; revoked_w = _ })
        (record w { change = _ }) h h)

  kept-keeps : (w : Work) → L w.next.lan → L (kept now w).next.lan
  unfolding kept
  kept-keeps w h =
      let lans = keep_lans now w.revoked (record w { revoked = [] }) in
      keep_wans-keeps lans.revoked_w (record lans { revoked_w = [] })
        (keep_lans-keeps w.revoked (record w { revoked = [] }) h)

module _ (now : ℕ) (iface : List ℕ) (q : Prefix) where
  abbrev On : List (List ℕ × List LinePrefix) → Type 0
  On lan = withdrawn_on iface q lan ≡ true

  -- What lasts is advertised as withdrawn.
  keep_lan-has :
      (k : Prefix) (r : RevokedLan) (w : Work)
      → lasts now iface q k r ≡ true
      → On (keep_lan now k r w).next.lan
  unfolding keep_lan
  keep_lan-has k r w h =
      let live : ltb now r.p.valid ≡ true = unfold lasts in ground (arith, h) in
      let gone : is_gone q r.p ≡ true = unfold lasts in ground (arith, h) in
      let here : bytes_eq r.iface iface ≡ true = unfold lasts in ground (arith, h) in
      rw live (append_lan-withdrawn_on iface q r.iface r.p w.next.lan here gone)

  keep_lans-has :
      (rs : List (Prefix × RevokedLan)) (w : Work)
      → is_withdrawn now iface q rs ≡ true
      → On (keep_lans now rs w).next.lan
  unfolding keep_lans is_withdrawn
  keep_lans-has [] w never = absurd (ground arith)
  keep_lans-has ((k, r) ∷ rs) w h =
      elim (or-split (lasts now iface q k r) (is_withdrawn now iface q rs) h) [
        | inl this ↦
            keep_lans-keeps now On (append_lan-withdrawn_on-keeps iface q) rs (keep_lan now k r w)
              (keep_lan-has k r w this)
        | inr rest ↦ keep_lans-has rs (keep_lan now k r w) rest
      ]

  kept-has : (w : Work) → is_withdrawn now iface q w.revoked ≡ true → On (kept now w).next.lan
  unfolding kept
  kept-has w h =
      let lans = keep_lans now w.revoked (record w { revoked = [] }) in
      keep_wans-keeps now On (append_lan-withdrawn_on-keeps iface q) lans.revoked_w
        (record lans { revoked_w = [] }) (keep_lans-has w.revoked (record w { revoked = [] }) h)

-- The LANs with what a round hands out, before the comparison with the snapshot before.
unfoldable pub given_lan : StoreState → ℕ → ℕ → List (List ℕ × List LinePrefix)
given_lan s now clock =
    let (src, u) = pick_source s clock in
    (handed_out s now src u (record {
      next = with_tunnel s now u (drafted s now src u);
      active = [];
      active_w = [];
      revoked = s.revoked;
      revoked_w = s.revoked_w;
      change = change_none;
    })).next.lan

worked-has :
    (s : StoreState) (now clock : ℕ) (iface : List ℕ) (q : Prefix)
    → 0 < s.hold
    → AllValues (All (λ (p : LinePrefix). now < p.valid)) s.cur.lan
    → used_on iface q s.cur.lan ≡ true
    → used_elsewhere iface q s.cur.lan ≡ false
    → let (src, u) = pick_source s clock in
      ((in_lan q (given_lan s now clock) ≡ true) × (in_lan q (worked s now src u).next.lan ≡ true))
      ⊎ (withdrawn_on iface q (worked s now src u).next.lan ≡ true)
unfolding worked given_lan IsCovered
worked-has s now clock iface q hold valid used single =
    let (src, u) = pick_source s clock in
    let start : Work = record {
      next = with_tunnel s now u (drafted s now src u);
      active = [];
      active_w = [];
      revoked = s.revoked;
      revoked_w = s.revoked_w;
      change = change_none;
    } in
    let none_yet : IsHandedOut start =
      unfold IsHandedOut in λ p never. absurd (unfold prefix_in in ground (arith, never)) in
    let given = handed_out s now src u start in
    let done = withdrew s now u given in
    let (same, active) = withdrew-given s now u given in
    elim (withdrew-covers s now u given iface q hold valid used single) [
      | inl still ↦
          let there : in_lan q given.next.lan ≡ true =
            unfold IsHandedOut in
            handed_out-IsHandedOut s now src u start none_yet q (rw active at still) in
          inl (
            there,
            kept-keeps now (λ lan. in_lan q lan ≡ true) (append_lan-keeps q) done (rw same there),
          )
      | inr left ↦ inr (kept-has now iface q done left)
    ]

delivered-lan :
    (s : StoreState) (now : ℕ) (change : ChangeKind) (router : Bool)
    → (delivered s now change router).cur.lan ≡ s.cur.lan
unfolding delivered publish save_advertised is_compared
delivered-lan s now change router = ground arith

-- Where the hold is not 0 and the LAN prefixes of the snapshot are still valid, a prefix that is
-- in use, not deprecated, on one segment and on no other: either the recompute hands it out again,
-- on some segment, and it is on a LAN of the next snapshot, or the next snapshot has it on that
-- same segment as a withdrawal, deprecated and stale.
pub recompute-withdraws :
    (s : StoreState) (now clock : ℕ) (iface : List ℕ) (q : Prefix)
    → 0 < s.hold
    → AllValues (All (λ (p : LinePrefix). now < p.valid)) s.cur.lan
    → used_on iface q s.cur.lan ≡ true
    → used_elsewhere iface q s.cur.lan ≡ false
    → ((in_lan q (given_lan s now clock) ≡ true)
        × (in_lan q (recompute s now clock).cur.lan ≡ true))
      ⊎ (withdrawn_on iface q (recompute s now clock).cur.lan ≡ true)
unfolding recompute
recompute-withdraws s now clock iface q hold valid used single =
    let (src, u) = pick_source s clock in
    let w = worked s now src u in
    let next = built s w in
    let change = classify s.cur next w.change in
    rw (delivered-lan (adopted s u w next change) now change (router_moved s.cur next))
      (unfold adopted built in worked-has s now clock iface q hold valid used single)
