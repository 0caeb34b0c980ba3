-- ===== src/Store/Stages/Empty.antt =====
-- A snapshot starts without prefixes.
use sixup.Common.{◌≡◌, refl, ℕ, [], Option, none, some, if-holds, if◌then◌else◌}
use sixup.Netip.{addr_valid}
use package.sixup.Store.{PrefixSource, SourceUpdate, Snapshot, is_ra, is_pd}
use package.sixup.Store.State.{StoreState, update_or_none}
use package.sixup.Store.Stages.{drafted, with_tunnel, first_draft, filled, by_hand}

pub record IsEmpty (d : Snapshot) : Type 0 where
  pub lan : d.lan ≡ []
  pub wan : d.wan ≡ []

filled-IsEmpty : (o : Option SourceUpdate) (d : Snapshot) → IsEmpty d → IsEmpty (filled o d)
unfolding filled
filled-IsEmpty none d h = h
filled-IsEmpty (some u) d h = record { lan = h.lan; wan = h.wan }

pub draft-IsEmpty :
    (s : StoreState) (now : ℕ) (src : PrefixSource) (u : SourceUpdate)
    → IsEmpty (with_tunnel s now u (drafted s now src u))
unfolding with_tunnel drafted by_hand first_draft
draft-IsEmpty s now src u =
    let d = first_draft s now src u in
    let a = (update_or_none s.sources.static).wan_addr in
    let x = if is_pd src then d else filled s.sources.pd d in
    let y = if is_ra src then x else filled s.sources.ra x in
    let d-empty : IsEmpty d = record { lan = refl; wan = refl } in
    let of_pd =
      if-holds IsEmpty (is_pd src) d (filled s.sources.pd d) d-empty
        (filled-IsEmpty s.sources.pd d d-empty) in
    let of_ra =
      if-holds IsEmpty (is_ra src) x (filled s.sources.ra x) of_pd
        (filled-IsEmpty s.sources.ra x of_pd) in
    let by_hand-empty =
      if-holds IsEmpty (addr_valid a) (record y { wan_addr = a }) y
        (record { lan = of_ra.lan; wan = of_ra.wan }) of_ra in
    record { lan = by_hand-empty.lan; wan = by_hand-empty.wan }
