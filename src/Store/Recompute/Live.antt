-- ===== src/Store/Recompute/Live.antt =====
-- The stages of `recompute` (prefix.go): which prefixes are still valid.
use sixup.Common.{
  AllValues-last, ℕ, ◌<◌, ◌≡◌, inl, inr, false, List, [], ◌∷◌, Option, none, some, ◌==◌, ltb, arith,
  Bool-cases, All, AllValues,
}
use sixup.Netip.{Prefix}
use package.sixup.Store.{PrefixSource, LinePrefix, SourceUpdate, Snapshot, valid_left}
use package.sixup.Store.State.{StoreState, RevokedLan}
use package.sixup.Store.Subnet.{LanDef, split_lan}
use package.sixup.Store.Handout.{
  Work, marked, on_wan, give, own_ula, delegated_ula, site_ula, handed_out,
}
use package.sixup.Store.Handout.Keeps.{All-last, append_lan-All, All-units, handed_out-keeps}
use package.sixup.Store.Diff.{
  revoke, withdrew, keep_lan, keep_lans, keep_wan, keep_wans, revoke_all_gone, after_restart,
}
use package.sixup.Store.Diff.Keeps.{
  revoke_all_wan-keeps, revoke_all_gone-keeps, after_restart-keeps,
}

module _ (now : ℕ) where
  -- Valid after the instant.
  unfoldable pub Lasts : LinePrefix → Type 0
  Lasts p = now < p.valid

  pub record IsLive (n : Snapshot) : Type 0 where
    pub lan : AllValues (All Lasts) n.lan
    pub wan : All Lasts n.wan

  valid_left-Lasts : (p : LinePrefix) → (valid_left now p == 0) ≡ false → Lasts p
  unfolding valid_left Lasts
  valid_left-Lasts p h = ground arith

  marked-Lasts : (p : LinePrefix) → (valid_left now p == 0) ≡ false → Lasts (marked now p)
  unfolding marked Lasts
  marked-Lasts p h =
      let lasts : now < p.valid = unfold Lasts in valid_left-Lasts p h in ground (arith, lasts)

  give-IsLive :
      (w : Work) (l : LanDef) (p : LinePrefix) (sub : Option Prefix)
      → Lasts p
      → IsLive w.next
      → IsLive (give w l p sub).next
  unfolding give Lasts
  give-IsLive w l p none h good = good
  give-IsLive w l p (some sub) h good = record {
    lan = append_lan-All Lasts l.iface (record p { prefix = sub }) w.next.lan h good.lan;
    wan = good.wan;
  }

  on_wan-IsLive : (w : Work) (p : LinePrefix) → Lasts p → IsLive w.next → IsLive (on_wan w p).next
  unfolding on_wan
  on_wan-IsLive w p h good = record { lan = good.lan; wan = All-last Lasts w.next.wan p good.wan h }

  own_ula-Lasts : (ups : List Prefix) → All Lasts (own_ula now ups)
  unfolding own_ula Lasts
  own_ula-Lasts [] = tt
  own_ula-Lasts (up ∷ ups) = (omega arith, own_ula-Lasts ups)

  delegated_ula-Lasts : (ps : List LinePrefix) → All Lasts (delegated_ula now ps)
  unfolding delegated_ula
  delegated_ula-Lasts [] = tt
  delegated_ula-Lasts (p ∷ ps) = elim (Bool-cases (valid_left now p == 0)) [
    | inl over ↦ rw over (delegated_ula-Lasts ps)
    | inr valid ↦ rw valid (unfold Lasts in valid_left-Lasts p valid, delegated_ula-Lasts ps)
  ]

  site_ula-Lasts :
      (ula : List Prefix) (ula_pd : List LinePrefix) → All Lasts (site_ula now ula ula_pd)
  unfolding site_ula
  site_ula-Lasts [] ula_pd = delegated_ula-Lasts ula_pd
  site_ula-Lasts (up ∷ ups) ula_pd = own_ula-Lasts (up ∷ ups)

  pub handed_out-IsLive :
      (s : StoreState) (src : PrefixSource) (u : SourceUpdate) (w : Work)
      → IsLive w.next
      → IsLive (handed_out s now src u w).next
  handed_out-IsLive s src u w good =
      handed_out-keeps now (λ v. IsLive v.next) (λ p. Unit {0}) Lasts Lasts give-IsLive
        (λ v l up h g. give-IsLive v l up (split_lan up.prefix l.index) h g)
        (λ v p valid g. on_wan-IsLive v (marked now p) (marked-Lasts p valid) g)
        (λ v ula g. record { lan = g.lan; wan = g.wan }) (λ p valid x. marked-Lasts p valid) s src u
        w (All-units u.prefixes) (site_ula-Lasts s.ula s.ula_pd) good

  pub withdrew-IsLive :
      (s : StoreState) (u : SourceUpdate) (w : Work)
      → IsLive w.next
      → IsLive (withdrew s now u w).next
  unfolding withdrew revoke
  withdrew-IsLive s u w good =
      let live : (Work → Type 0) = λ v. IsLive v.next in
      revoke_all_wan-keeps live (λ v ps g. g) now s.cur.wan
        (revoke_all_gone s now s.cur.lan (after_restart s now u s.previous w))
        (revoke_all_gone-keeps live (λ iface p gone v g. g) s now s.cur.lan
          (after_restart s now u s.previous w)
          (after_restart-keeps live (λ iface p gone v g. g) s now u s.previous w good))

  -- The loops over the maps: what they keep lasts.
  abbrev pub RevokedLast : List (Prefix × RevokedLan) → Type 0
  RevokedLast rs = AllValues (λ r. Lasts r.p) rs

  abbrev pub WanLast : List (Prefix × LinePrefix) → Type 0
  WanLast ps = AllValues Lasts ps

  abbrev LansLive : Work → Type 0
  LansLive w = IsLive w.next × RevokedLast w.revoked

  abbrev WansLive : Work → Type 0
  WansLive w = IsLive w.next × RevokedLast w.revoked × WanLast w.revoked_w

  keep_lan-IsLive :
      (k : Prefix) (r : RevokedLan) (w : Work) → LansLive w → LansLive (keep_lan now k r w)
  unfolding keep_lan Lasts
  keep_lan-IsLive k r w (good, last) = elim (Bool-cases (ltb now r.p.valid)) [
    | inr over ↦ rw over (good, last)
    | inl valid ↦
        let h : now < r.p.valid = ground (arith, valid) in
        rw valid (
          record { lan = append_lan-All Lasts r.iface r.p w.next.lan h good.lan; wan = good.wan },
          AllValues-last (λ (x : RevokedLan). Lasts x.p) w.revoked k r last h,
        )
  ]

  pub keep_lans-IsLive :
      (rs : List (Prefix × RevokedLan)) (w : Work) → LansLive w → LansLive (keep_lans now rs w)
  unfolding keep_lans
  keep_lans-IsLive [] w good = good
  keep_lans-IsLive ((k, r) ∷ rs) w good =
      keep_lans-IsLive rs (keep_lan now k r w) (keep_lan-IsLive k r w good)

  keep_wan-IsLive :
      (k : Prefix) (p : LinePrefix) (w : Work) → WansLive w → WansLive (keep_wan now k p w)
  unfolding keep_wan Lasts
  keep_wan-IsLive k p w (good, last, wan) = elim (Bool-cases (ltb now p.valid)) [
    | inr over ↦ rw over (good, last, wan)
    | inl valid ↦
        let h : now < p.valid = ground (arith, valid) in
        rw valid (
          record { lan = good.lan; wan = All-last Lasts w.next.wan p good.wan h },
          last,
          AllValues-last Lasts w.revoked_w k p wan h,
        )
  ]

  pub keep_wans-IsLive :
      (ps : List (Prefix × LinePrefix)) (w : Work) → WansLive w → WansLive (keep_wans now ps w)
  unfolding keep_wans
  keep_wans-IsLive [] w good = good
  keep_wans-IsLive ((k, p) ∷ ps) w good =
      keep_wans-IsLive ps (keep_wan now k p w) (keep_wan-IsLive k p w good)
