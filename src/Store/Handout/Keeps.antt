-- ===== src/Store/Handout/Keeps.antt =====
-- What giving out one prefix keeps, all the stages that hand out prefixes keep.
use sixup.Common.{
  ◌++◌, AllValues, put-AllValues, get-AllValues, get, bytes_eq, Option-cases, ◌≡◌, inl, inr, false,
  Bool-cases, ℕ, not, ◌&&◌, ◌||◌, List, [], ◌∷◌, Option, ◌==◌, All, if-holds, any, length,
}
use sixup.Netip.{Prefix, prefix_eq}
use package.sixup.Store.{PrefixSource, LinePrefix, SourceUpdate, valid_left, is_ra, source_eq}
use package.sixup.Store.State.{StoreState, update_or_none}
use package.sixup.Store.Subnet.{LanDef, split_lan, lan_of, value_of}
use package.sixup.Store.Handout.{
  Work, append_lan, marked, on_wan, add_wan, give, lan_subnet, give_lans, hand_out, hand_out_all,
  add_missing, add_all_missing, ra_on_wan, site_ula, give_ula, give_all_ula, with_ula, handed_out,
}

-- A property of every prefix on a LAN.
module _ (P : LinePrefix → Type 0) where
  pub All-last : (ps : List LinePrefix) (p : LinePrefix) → All P ps → P p → All P (ps ++ (p ∷ []))
  All-last [] p all h = (h, tt)
  All-last (q ∷ ps) p all h = (all.0, All-last ps p all.1 h)

  lan_of-All :
      (lan : List (List ℕ × List LinePrefix)) (iface : List ℕ)
      → AllValues (All P) lan
      → All P (lan_of lan iface)
  unfolding lan_of value_of
  lan_of-All lan iface all = elim (Option-cases (get bytes_eq iface lan)) [
    | inl missing ↦ rw missing tt
    | inr (ps, found) ↦ rw found (get-AllValues bytes_eq (All P) iface lan ps all found)
  ]

  pub append_lan-All :
      (iface : List ℕ) (p : LinePrefix) (lan : List (List ℕ × List LinePrefix))
      → P p
      → AllValues (All P) lan
      → AllValues (All P) (append_lan iface p lan)
  unfolding append_lan
  append_lan-All iface p lan h all =
      put-AllValues bytes_eq (All P) iface (lan_of lan iface ++ (p ∷ [])) lan
        (All-last (lan_of lan iface) p (lan_of-All lan iface all) h) all

-- Nothing is known of any of them.
pub All-units : (ps : List LinePrefix) → All (λ (p : LinePrefix). Unit {0}) ps
All-units [] = tt
All-units (p ∷ ps) = (tt, All-units ps)

-- `Q` is what is known of a prefix of the line, `P` of one that is given out, `U` of a ULA of the
-- site.
module _ (now : ℕ) (I : Work → Type 0) (Q P U : LinePrefix → Type 0)
    (gives : (w : Work) (l : LanDef) (p : LinePrefix) (sub : Option Prefix)
      → P p
      → I w
      → I (give w l p sub))
    (gives_ula : (w : Work) (l : LanDef) (up : LinePrefix)
      → U up
      → I w
      → I (give w l up (split_lan up.prefix l.index)))
    (on_wans : (w : Work) (p : LinePrefix)
      → (valid_left now p == 0) ≡ false
      → I w
      → I (on_wan w (marked now p)))
    (ulas : (w : Work) (ula : List LinePrefix)
      → I w
      → I (record w { next = record w.next { ula = ula } }))
    (marks : (p : LinePrefix) → (valid_left now p == 0) ≡ false → Q p → P (marked now p)) where
  give_lans-keeps :
      (lans : List LanDef) (p : LinePrefix) (ls : List LanDef) (w : Work)
      → P p
      → I w
      → I (give_lans lans p ls w)
  unfolding give_lans
  give_lans-keeps lans p [] w h good = good
  give_lans-keeps lans p (l ∷ ls) w h good =
      give_lans-keeps lans p ls (give w l p (lan_subnet lans p l)) h
        (gives w l p (lan_subnet lans p l) h good)

  hand_out-keeps :
      (lans : List LanDef) (p : LinePrefix) (w : Work) → Q p → I w → I (hand_out lans now p w)
  unfolding hand_out
  hand_out-keeps lans p w h good = elim (Bool-cases (valid_left now p == 0)) [
    | inl over ↦ rw over good
    | inr valid ↦ rw valid (
        give_lans-keeps lans (marked now p) lans (on_wan w (marked now p)) (marks p valid h)
          (on_wans w p valid good))
  ]

  hand_out_all-keeps :
      (lans : List LanDef) (ps : List LinePrefix) (w : Work)
      → All Q ps
      → I w
      → I (hand_out_all lans now ps w)
  unfolding hand_out_all
  hand_out_all-keeps lans [] w all good = good
  hand_out_all-keeps lans (p ∷ ps) w all good =
      hand_out_all-keeps lans ps (hand_out lans now p w) all.1 (hand_out-keeps lans p w all.0 good)

  add_wan-keeps : (w : Work) (p : LinePrefix) → I w → I (add_wan now w p)
  unfolding add_wan
  add_wan-keeps w p good = elim (Bool-cases (valid_left now p == 0)) [
    | inl over ↦ rw over good
    | inr valid ↦ rw valid (on_wans w p valid good)
  ]

  add_missing-keeps : (p : LinePrefix) (w : Work) → I w → I (add_missing now p w)
  unfolding add_missing
  add_missing-keeps p w good =
      if-holds I
        (any (λ (o : LinePrefix). prefix_eq o.prefix p.prefix && source_eq o.source p.source)
          w.next.wan)
        w (add_wan now w p) good (add_wan-keeps w p good)

  add_all_missing-keeps : (ps : List LinePrefix) (w : Work) → I w → I (add_all_missing now ps w)
  unfolding add_all_missing
  add_all_missing-keeps [] w good = good
  add_all_missing-keeps (p ∷ ps) w good =
      add_all_missing-keeps ps (add_missing now p w) (add_missing-keeps p w good)

  ra_on_wan-keeps :
      (s : StoreState) (src : PrefixSource) (u : SourceUpdate) (w : Work)
      → I w
      → I (ra_on_wan s now src u w)
  unfolding ra_on_wan
  ra_on_wan-keeps s src u w good =
      if-holds I (not (is_ra src) || length u.prefixes == 0)
        (add_all_missing now (update_or_none s.sources.ra).prefixes w) w
        (add_all_missing-keeps (update_or_none s.sources.ra).prefixes w good) good

  give_ula-keeps :
      (up : LinePrefix) (ls : List LanDef) (w : Work) → U up → I w → I (give_ula up ls w)
  unfolding give_ula
  give_ula-keeps up [] w h good = good
  give_ula-keeps up (l ∷ ls) w h good =
      give_ula-keeps up ls (give w l up (split_lan up.prefix l.index)) h (gives_ula w l up h good)

  give_all_ula-keeps :
      (lans : List LanDef) (ups : List LinePrefix) (w : Work)
      → All U ups
      → I w
      → I (give_all_ula lans ups w)
  unfolding give_all_ula
  give_all_ula-keeps lans [] w all good = good
  give_all_ula-keeps lans (up ∷ ups) w all good =
      give_all_ula-keeps lans ups (give_ula up lans w) all.1 (give_ula-keeps up lans w all.0 good)

  with_ula-keeps :
      (s : StoreState) (w : Work) → All U (site_ula now s.ula s.ula_pd) → I w → I (with_ula s now w)
  unfolding with_ula
  with_ula-keeps s w all good =
      give_all_ula-keeps s.lans (site_ula now s.ula s.ula_pd)
        (record w { next = record w.next { ula = site_ula now s.ula s.ula_pd } }) all
        (ulas w (site_ula now s.ula s.ula_pd) good)

  pub handed_out-keeps :
      (s : StoreState) (src : PrefixSource) (u : SourceUpdate) (w : Work)
      → All Q u.prefixes
      → All U (site_ula now s.ula s.ula_pd)
      → I w
      → I (handed_out s now src u w)
  unfolding handed_out
  handed_out-keeps s src u w given ula good =
      with_ula-keeps s (ra_on_wan s now src u (hand_out_all s.lans now u.prefixes w)) ula (
        ra_on_wan-keeps s src u (hand_out_all s.lans now u.prefixes w)
          (hand_out_all-keeps s.lans u.prefixes w given good))
