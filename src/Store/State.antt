-- ===== src/Store/State.antt =====
-- The state of `Store` (prefix.go), and the sources it chooses from: `pickSource`.
use sixup.Common.{
  ℕ, Bool, true, false, not, ◌&&◌, List, [], ◌∷◌, Option, none, some, ltb, if◌then◌else◌, length,
}
use sixup.Netip.{Addr, Prefix}
use sixup.Tunnel.Params.{TunnelGuess}
use package.sixup.Store.{
  PrefixSource, source_pd, source_ra, source_ula, source_static, no_source, ChangeKind, LinePrefix,
  SourceUpdate, no_update, Snapshot, is_ra,
}
use package.sixup.Store.Subnet.{LanDef}

-- `sources`, by the source.
pub record Sources : Type 0 where
  pub pd : Option SourceUpdate
  pub ra : Option SourceUpdate
  pub ula : Option SourceUpdate
  pub static : Option SourceUpdate

unfoldable pub source_of : Sources → PrefixSource → Option SourceUpdate
source_of s source_pd = s.pd
source_of s source_ra = s.ra
source_of s source_ula = s.ula
source_of s source_static = s.static
source_of s no_source = none

unfoldable pub put_source : PrefixSource → SourceUpdate → Sources → Sources
put_source source_pd u s = record s { pd = some u }
put_source source_ra u s = record s { ra = some u }
put_source source_ula u s = record s { ula = some u }
put_source source_static u s = record s { static = some u }
put_source no_source u s = s

-- `advertisedPrefix`.
pub record Advertised : Type 0 where
  pub iface : List ℕ
  pub prefix : Prefix
  pub valid : ℕ
  pub delegated : Bool

-- `revokedLAN`.
pub record RevokedLan : Type 0 where
  pub iface : List ℕ
  pub p : LinePrefix

-- `Store`. A subscriber's channel holds a snapshot or nothing; `pub_timer` and `pd_grace` are the
-- instants they stand for. `previous` is `none` where
-- the slice is nil, and `saved` is what the file records last.
pub record StoreState : Type 0 where
  pub prefer : PrefixSource
  pub ula : List Prefix
  pub ula_pd : List LinePrefix
  pub lans : List LanDef
  pub hold : ℕ
  pub mape_rule : Bool
  pub pd_grace : ℕ
  pub sources : Sources
  pub captured : Option TunnelGuess
  pub nat64 : Prefix
  pub aftr_name : List ℕ
  pub aftr_addrs : List Addr
  pub conflicts : List Addr
  pub self : List (Prefix × Addr)
  pub cur : Snapshot
  pub subs : List (Option Snapshot)
  pub settle : ℕ
  pub pending : Option ChangeKind
  pub pub_timer : Option ℕ
  pub revoked : List (Prefix × RevokedLan)
  pub revoked_w : List (Prefix × LinePrefix)
  pub has_file : Bool
  pub saved : Option (List Advertised)
  pub previous : Option (List Advertised)

unfoldable pub update_or_none : Option SourceUpdate → SourceUpdate
update_or_none none = no_update
update_or_none (some u) = u

unfoldable pub is_known : Option SourceUpdate → Bool
is_known none = false
is_known (some u) = true

unfoldable pub order : Bool → List PrefixSource
order true = source_static ∷ (source_ra ∷ (source_pd ∷ []))
order false = source_static ∷ (source_pd ∷ (source_ra ∷ []))

-- An RA's prefixes wait for DHCPv6 to conclude.
unfoldable pub after_grace : StoreState → ℕ → PrefixSource → SourceUpdate → SourceUpdate
after_grace s now name u =
    if is_ra name && not (is_known s.sources.pd) && ltb now s.pd_grace
    then record u { prefixes = [] }
    else u

-- What the two loops of `pickSource` make of a source, or of the ones after it.
unfoldable pub or_next :
    StoreState
    → ℕ
    → PrefixSource
    → Option SourceUpdate
    → PrefixSource × SourceUpdate
    → PrefixSource × SourceUpdate
or_next s now name none next = next
or_next s now name (some u) next =
    if ltb 0 (length u.prefixes) then (name, after_grace s now name u) else next

unfoldable pub or_any :
    PrefixSource → Option SourceUpdate → PrefixSource × SourceUpdate → PrefixSource × SourceUpdate
or_any name none next = next
or_any name (some u) next = (name, u)

unfoldable pub first_known : Sources → List PrefixSource → PrefixSource × SourceUpdate
first_known s [] = (no_source, no_update)
first_known s (name ∷ names) = or_any name (source_of s name) (first_known s names)

unfoldable pub first_with_prefixes :
    StoreState → ℕ → List PrefixSource → PrefixSource × SourceUpdate → PrefixSource × SourceUpdate
first_with_prefixes s now [] rest = rest
first_with_prefixes s now (name ∷ names) rest =
    or_next s now name (source_of s.sources name) (first_with_prefixes s now names rest)

-- `pickSource`; the instant is its own reading of the clock.
unfoldable pub pick_source : StoreState → ℕ → PrefixSource × SourceUpdate
pick_source s now =
    let names = order (is_ra s.prefer) in
    first_with_prefixes s now names (first_known s.sources names)
