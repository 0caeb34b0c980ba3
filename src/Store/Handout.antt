-- ===== src/Store/Handout.antt =====
-- The stages of `recompute` (prefix.go) that hand out prefixes: to the WAN, to the LANs, and the
-- ULA of the site.
pub mod Keeps
use sixup.Common.{
  ℕ, ◌+◌, ◌*◌, Bool, true, false, not, ◌&&◌, ◌||◌, List, [], ◌∷◌, ◌++◌, Option, none, some, ◌==◌,
  ltb, if◌then◌else◌, any, length, put, delete, bytes_eq,
}
use sixup.Netip.{Prefix, prefix_valid, prefix_overlaps, prefix_eq}
use package.sixup.Store.{
  PrefixSource, source_ula, ChangeKind, LinePrefix, no_line_prefix, SourceUpdate, Snapshot, is_ra,
  source_eq, preferred_left, valid_left,
}
use package.sixup.Store.State.{StoreState, RevokedLan, update_or_none}
use package.sixup.Store.Subnet.{LanDef, split_lan, spare_subnet, lan_of}

-- What `recompute` changes on its way: the next snapshot, `active` and `activeW`, the two maps of
-- the prefixes in their deprecate period, and `change`.
pub record Work : Type 0 where
  pub next : Snapshot
  pub active : List Prefix
  pub active_w : List Prefix
  pub revoked : List (Prefix × RevokedLan)
  pub revoked_w : List (Prefix × LinePrefix)
  pub change : ChangeKind

unfoldable pub prefix_in : Prefix → List Prefix → Bool
prefix_in p ps = any (prefix_eq p) ps

-- Deprecated once its preferred lifetime is over.
unfoldable pub marked : ℕ → LinePrefix → LinePrefix
marked now p = if preferred_left now p == 0 then record p { deprecated = true } else p

-- `addWAN` of a prefix that is still valid.
unfoldable pub on_wan : Work → LinePrefix → Work
on_wan w p = record w {
  next = record w.next { wan = w.next.wan ++ (p ∷ []) };
  active_w = p.prefix ∷ w.active_w;
  revoked_w = delete prefix_eq p.prefix w.revoked_w;
}

unfoldable pub add_wan : ℕ → Work → LinePrefix → Work
add_wan now w p = if valid_left now p == 0 then w else on_wan w (marked now p)

unfoldable pub append_lan :
    List ℕ → LinePrefix → List (List ℕ × List LinePrefix) → List (List ℕ × List LinePrefix)
append_lan iface p lan = put bytes_eq iface (lan_of lan iface ++ (p ∷ [])) lan

-- A segment takes its subnet, or goes without one.
unfoldable pub give : Work → LanDef → LinePrefix → Option Prefix → Work
give w l p none = w
give w l p (some sub) = record w {
  next = record w.next { lan = append_lan l.iface (record p { prefix = sub }) w.next.lan };
  active = sub ∷ w.active;
  revoked = delete prefix_eq sub w.revoked;
}

-- The subnet itself, or a spare one for the one that the ISP keeps.
unfoldable pub or_spare : List LanDef → LinePrefix → Option Prefix → Option Prefix
or_spare lans p none = none
or_spare lans p (some sub) =
    if prefix_valid p.exclude && prefix_overlaps p.exclude sub
    then spare_subnet lans p
    else some sub

unfoldable pub lan_subnet : List LanDef → LinePrefix → LanDef → Option Prefix
lan_subnet lans p l = or_spare lans p (split_lan p.prefix l.index)

-- The loop over the segments, for a prefix of the line.
unfoldable pub give_lans : List LanDef → LinePrefix → List LanDef → Work → Work
give_lans lans p [] w = w
give_lans lans p (l ∷ ls) w = give_lans lans p ls (give w l p (lan_subnet lans p l))

unfoldable pub hand_out : List LanDef → ℕ → LinePrefix → Work → Work
hand_out lans now p w =
    if valid_left now p == 0
    then w
    else give_lans lans (marked now p) lans (on_wan w (marked now p))

unfoldable pub hand_out_all : List LanDef → ℕ → List LinePrefix → Work → Work
hand_out_all lans now [] w = w
hand_out_all lans now (p ∷ ps) w = hand_out_all lans now ps (hand_out lans now p w)

-- The RA's prefixes that the WAN does not have yet.
unfoldable pub add_missing : ℕ → LinePrefix → Work → Work
add_missing now p w =
    if any (λ (o : LinePrefix). prefix_eq o.prefix p.prefix && source_eq o.source p.source)
      w.next.wan
    then w
    else add_wan now w p

unfoldable pub add_all_missing : ℕ → List LinePrefix → Work → Work
add_all_missing now [] w = w
add_all_missing now (p ∷ ps) w = add_all_missing now ps (add_missing now p w)

unfoldable pub ra_on_wan : StoreState → ℕ → PrefixSource → SourceUpdate → Work → Work
ra_on_wan s now src u w =
    if not (is_ra src) || length u.prefixes == 0
    then add_all_missing now (update_or_none s.sources.ra).prefixes w
    else w

abbrev pub day : ℕ
day = 86400 * 1000000000

-- This router's own ULA, renewed each time.
unfoldable pub own_ula : ℕ → List Prefix → List LinePrefix
own_ula now [] = []
own_ula now (up ∷ ups) =
    record no_line_prefix {
      prefix = up;
      preferred = now + 7 * day;
      valid = now + 30 * day;
      source = source_ula;
    }
    ∷ own_ula now ups

-- The one that the upstream delegated, for as long as it is valid.
unfoldable pub delegated_ula : ℕ → List LinePrefix → List LinePrefix
delegated_ula now [] = []
delegated_ula now (p ∷ ps) =
    let rest = delegated_ula now ps in
    if valid_left now p == 0
    then rest
    else record p { source = source_ula; delegated = true; deprecated = preferred_left now p == 0 }
      ∷ rest

unfoldable pub site_ula : ℕ → List Prefix → List LinePrefix → List LinePrefix
site_ula now [] ula_pd = delegated_ula now ula_pd
site_ula now (up ∷ ups) ula_pd = own_ula now (up ∷ ups)

-- The loops that split the ULA among the segments.
unfoldable pub give_ula : LinePrefix → List LanDef → Work → Work
give_ula up [] w = w
give_ula up (l ∷ ls) w = give_ula up ls (give w l up (split_lan up.prefix l.index))

unfoldable pub give_all_ula : List LanDef → List LinePrefix → Work → Work
give_all_ula lans [] w = w
give_all_ula lans (up ∷ ups) w = give_all_ula lans ups (give_ula up lans w)

unfoldable pub with_ula : StoreState → ℕ → Work → Work
with_ula s now w =
    let ula = site_ula now s.ula s.ula_pd in
    give_all_ula s.lans ula (record w { next = record w.next { ula = ula } })

-- All that is handed out.
unfoldable pub handed_out : StoreState → ℕ → PrefixSource → SourceUpdate → Work → Work
handed_out s now src u w =
    with_ula s now (ra_on_wan s now src u (hand_out_all s.lans now u.prefixes w))
