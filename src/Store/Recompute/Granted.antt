-- ===== src/Store/Recompute/Granted.antt =====
-- The stages of `recompute` that hand out prefixes: the expiries of what they give.
use sixup.Common.{
  ℕ, ◌≤◌, ◌≡◌, ◌⊎◌, inl, inr, Bool, true, List, [], ◌∷◌, Option, none, some, ◌==◌, arith, All,
  AllValues, delete-AllValues, if-holds,
}
use sixup.Netip.{Prefix, prefix_eq}
use package.sixup.Store.{
  PrefixSource, source_ula, LinePrefix, SourceUpdate, preferred_left, valid_left,
}
use package.sixup.Store.State.{StoreState, RevokedLan}
use package.sixup.Store.Subnet.{LanDef, split_lan}
use package.sixup.Store.Handout.{
  Work, marked, on_wan, give, own_ula, delegated_ula, site_ula, handed_out,
}
use package.sixup.Store.Handout.Keeps.{append_lan-All, handed_out-keeps}

-- `own` holds of the subnet, where there is one.
owns : (Prefix → Bool) → Option Prefix → Bool
owns own none = true
owns own (some sub) = own sub

-- The subnets of this router's own ULAs are among `own`.
unfoldable pub OwnUla : (Prefix → Bool) → List Prefix → Type 0
unfolding owns
OwnUla own ula = All (λ (up : Prefix). (i : ℕ) → owns own (split_lan up i) ≡ true) ula

module _ (own : Prefix → Bool) (bound : ℕ) where
  -- A prefix that is over by the bound, or one of `own`.
  unfoldable pub IsWithin : LinePrefix → Type 0
  IsWithin p = (own p.prefix ≡ true) ⊎ (p.valid ≤ bound)

  -- A ULA of the site: over by the bound, or with subnets among `own`.
  IsSite : LinePrefix → Type 0
  IsSite up = ((i : ℕ) → owns own (split_lan up.prefix i) ≡ true) ⊎ (up.valid ≤ bound)

  abbrev Over : LinePrefix → Type 0
  Over p = p.valid ≤ bound

  abbrev pub LanWithin : List (List ℕ × List LinePrefix) → Type 0
  LanWithin lan = AllValues (All IsWithin) lan

  abbrev pub RevokedWithin : List (Prefix × RevokedLan) → Type 0
  RevokedWithin rs = AllValues (λ r. IsWithin r.p) rs

  pub record WorkWithin (w : Work) : Type 0 where
    pub lan : LanWithin w.next.lan
    pub revoked : RevokedWithin w.revoked

  given-within :
      (w : Work) (l : LanDef) (p : LinePrefix) (sub : Option Prefix)
      → (owns own sub ≡ true) ⊎ (p.valid ≤ bound)
      → WorkWithin w
      → WorkWithin (give w l p sub)
  unfolding give IsWithin owns
  given-within w l p none h good = good
  given-within w l p (some sub) h good = record {
    lan = append_lan-All IsWithin l.iface (record p { prefix = sub }) w.next.lan h good.lan;
    revoked =
        delete-AllValues prefix_eq (λ (r : RevokedLan). IsWithin r.p) sub w.revoked good.revoked;
  }

  give_ula-within :
      (w : Work) (l : LanDef) (up : LinePrefix)
      → IsSite up
      → WorkWithin w
      → WorkWithin (give w l up (split_lan up.prefix l.index))
  unfolding IsSite
  give_ula-within w l up (inl owned) good =
      given-within w l up (split_lan up.prefix l.index) (inl (owned l.index)) good
  give_ula-within w l up (inr over) good =
      given-within w l up (split_lan up.prefix l.index) (inr over) good

  on_wan-within : (w : Work) (p : LinePrefix) → WorkWithin w → WorkWithin (on_wan w p)
  unfolding on_wan
  on_wan-within w p good = record { lan = good.lan; revoked = good.revoked }

  marked-Over : (now : ℕ) (p : LinePrefix) → Over p → Over (marked now p)
  unfolding marked
  marked-Over now p h = ground arith

  own_ula-IsSite : (now : ℕ) (ups : List Prefix) → OwnUla own ups → All IsSite (own_ula now ups)
  unfolding own_ula IsSite OwnUla
  own_ula-IsSite now [] owned = tt
  own_ula-IsSite now (up ∷ ups) owned = (inl owned.0, own_ula-IsSite now ups owned.1)

  delegated-IsSite :
      (now : ℕ) (p : LinePrefix)
      → Over p
      → IsSite (record p {
        source = source_ula;
        delegated = true;
        deprecated = preferred_left now p == 0;
      })
  unfolding IsSite
  delegated-IsSite now p h = inr h

  delegated_ula-IsSite :
      (now : ℕ) (ps : List LinePrefix) → All Over ps → All IsSite (delegated_ula now ps)
  unfolding delegated_ula
  delegated_ula-IsSite now [] all = tt
  delegated_ula-IsSite now (p ∷ ps) all =
      if-holds (All IsSite) (valid_left now p == 0) (delegated_ula now ps)
        (_ ∷ delegated_ula now ps) (delegated_ula-IsSite now ps all.1)
        (delegated-IsSite now p all.0, delegated_ula-IsSite now ps all.1)

  site_ula-IsSite :
      (now : ℕ) (ula : List Prefix) (ula_pd : List LinePrefix)
      → OwnUla own ula
      → All Over ula_pd
      → All IsSite (site_ula now ula ula_pd)
  unfolding site_ula
  site_ula-IsSite now [] ula_pd owned all = delegated_ula-IsSite now ula_pd all
  site_ula-IsSite now (up ∷ ups) ula_pd owned all = own_ula-IsSite now (up ∷ ups) owned

  ula_on-within :
      (w : Work) (ula : List LinePrefix)
      → WorkWithin w
      → WorkWithin (record w { next = record w.next { ula = ula } })
  ula_on-within w ula good = record { lan = good.lan; revoked = good.revoked }

  -- Of all that is handed out, the prefixes are those of the update or of the site.
  pub handed_out-within :
      (s : StoreState) (now : ℕ) (src : PrefixSource) (u : SourceUpdate) (w : Work)
      → All Over u.prefixes
      → OwnUla own s.ula
      → All Over s.ula_pd
      → WorkWithin w
      → WorkWithin (handed_out s now src u w)
  handed_out-within s now src u w given owned ula good =
      handed_out-keeps now WorkWithin Over Over IsSite
        (λ v l p sub h g. given-within v l p sub (inr h) g) give_ula-within
        (λ v p valid g. on_wan-within v (marked now p) g) ula_on-within
        (λ p valid h. marked-Over now p h) s src u w given
        (site_ula-IsSite now s.ula s.ula_pd owned ula) good
