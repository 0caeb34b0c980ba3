-- ===== src/Store/World/Granted.antt =====
-- What the store grants in every state that its messages reach.
use sixup.Common.{ℕ, Bool, ◌≤◌, refl, List, [], ◌∷◌, All, AllValues, if-holds}
use sixup.Netip.{Prefix, is_private}
use package.sixup.Store.{
  PrefixSource, source_pd, source_ra, source_ula, source_static, is_pd, LinePrefix, SourceUpdate,
}
use package.sixup.Store.State.{StoreState, Sources, put_source, source_of, update_or_none}
use package.sixup.Store.Recompute.Granted.{IsWithin}
use package.sixup.Store.Recompute.Within.{
  Ends, StoreWithin, StoreWithin-same, recompute-StoreWithin, publish-within,
}
use package.sixup.Store.Messages.{
  ula_of, line_of, on_set, on_conflict, on_captured, on_nat64, on_aftr, on_self, on_subscribe,
  on_receive,
}
use package.sixup.Store.World.{
  Reach, started, sets, conflicts, captures, translates, resolves, moves, expires, publishes,
  subscribes, receives,
}
use package.sixup.Store.World.Started.{new_store-StoreWithin}

module _ (own : Prefix → Bool) (bound : ℕ) where
  line_of-Ends : (ps : List LinePrefix) → Ends bound ps → Ends bound (line_of ps)
  unfolding line_of Ends
  line_of-Ends [] all = tt
  line_of-Ends (p ∷ ps) all =
      if-holds (All (λ (x : LinePrefix). x.valid ≤ bound)) (is_private p.prefix.ip) (line_of ps)
        (p ∷ line_of ps) (line_of-Ends ps all.1) (all.0, line_of-Ends ps all.1)

  ula_of-Ends : (ps : List LinePrefix) → Ends bound ps → Ends bound (ula_of ps)
  unfolding ula_of Ends
  ula_of-Ends [] all = tt
  ula_of-Ends (p ∷ ps) all =
      if-holds (All (λ (x : LinePrefix). x.valid ≤ bound)) (is_private p.prefix.ip) (p ∷ ula_of ps)
        (ula_of ps) (all.0, ula_of-Ends ps all.1) (ula_of-Ends ps all.1)

  abbrev AllSources : Sources → Type 0
  AllSources s = (name : PrefixSource) → Ends bound (update_or_none (source_of s name)).prefixes

  put_source-within :
      (source : PrefixSource) (u : SourceUpdate) (s : Sources)
      → Ends bound u.prefixes
      → AllSources s
      → AllSources (put_source source u s)
  unfolding put_source source_of update_or_none
  put_source-within source_pd u s h all source_pd = h
  put_source-within source_ra u s h all source_ra = h
  put_source-within source_ula u s h all source_ula = h
  put_source-within source_static u s h all source_static = h
  put_source-within _ u s h all name = all name

  Reach-StoreWithin : {s : StoreState} → Reach own bound s → StoreWithin own bound s
  unfolding on_set on_conflict on_captured on_nat64 on_aftr on_self on_subscribe on_receive
  Reach-StoreWithin
        (started prefer lans hold ula mape_rule grace settle has_file record_ now clock own_ula h
          owned) =
      new_store-StoreWithin own bound prefer lans hold ula mape_rule grace settle has_file record_
        now clock own_ula h owned
  Reach-StoreWithin (sets {s} source u now clock h r) =
      let good = Reach-StoreWithin r in
      let u' = record u { prefixes = line_of u.prefixes } in
      recompute-StoreWithin own bound _ now clock (
        if-holds (StoreWithin own bound) (is_pd source)
          (record s { ula_pd = ula_of u.prefixes; sources = put_source source u' s.sources })
          (record s { sources = put_source source u s.sources })
          (record {
            ula = good.ula;
            sources =
                put_source-within source u' s.sources (line_of-Ends u.prefixes h) good.sources;
            ula_pd = ula_of-Ends u.prefixes h;
            lan = good.lan;
            revoked = good.revoked;
            previous = good.previous;
          })
          (record {
            ula = good.ula;
            sources = put_source-within source u s.sources h good.sources;
            ula_pd = good.ula_pd;
            lan = good.lan;
            revoked = good.revoked;
            previous = good.previous;
          }))
  Reach-StoreWithin (conflicts {s} addr conflict now clock r) =
      recompute-StoreWithin own bound (record s { conflicts = _ }) now clock
        (StoreWithin-same own bound s (record s { conflicts = _ }) refl refl refl refl refl refl
          (Reach-StoreWithin r))
  Reach-StoreWithin (captures {s} g now clock r) =
      recompute-StoreWithin own bound (record s { captured = g }) now clock
        (StoreWithin-same own bound s (record s { captured = g }) refl refl refl refl refl refl
          (Reach-StoreWithin r))
  Reach-StoreWithin (translates {s} p now clock r) =
      recompute-StoreWithin own bound (record s { nat64 = p }) now clock
        (StoreWithin-same own bound s (record s { nat64 = p }) refl refl refl refl refl refl
          (Reach-StoreWithin r))
  Reach-StoreWithin (resolves {s} name addrs now clock r) =
      recompute-StoreWithin own bound (record s { aftr_name = name; aftr_addrs = addrs }) now clock
        (StoreWithin-same own bound s (record s { aftr_name = name; aftr_addrs = addrs }) refl refl
          refl refl refl refl (Reach-StoreWithin r))
  Reach-StoreWithin (moves {s} p a now clock r) =
      recompute-StoreWithin own bound (record s { self = _ }) now clock
        (StoreWithin-same own bound s (record s { self = _ }) refl refl refl refl refl refl
          (Reach-StoreWithin r))
  Reach-StoreWithin (expires {s} now clock r) =
      recompute-StoreWithin own bound s now clock (Reach-StoreWithin r)
  Reach-StoreWithin (publishes {s} t h r) = publish-within own bound s (Reach-StoreWithin r)
  Reach-StoreWithin (subscribes {s} r) =
      StoreWithin-same own bound s (record s { subs = _ }) refl refl refl refl refl refl
        (Reach-StoreWithin r)
  Reach-StoreWithin (receives {s} i r) =
      StoreWithin-same own bound s (record s { subs = _ }) refl refl refl refl refl refl
        (Reach-StoreWithin r)

  -- Over every run of the store, its start with a record and its messages in any order: where no
  -- update of a source and no recorded prefix is valid beyond a bound, no LAN prefix of the
  -- snapshot is, whether handed out, spare or withdrawn, but a subnet of this router's own ULA,
  -- one of the configured ULAs or one that the record has from them. A ULA that the upstream
  -- delegated is within the bound, withdrawn or not.
  pub Reach-granted :
      {s : StoreState} → Reach own bound s → AllValues (All (IsWithin own bound)) s.cur.lan
  Reach-granted r = (Reach-StoreWithin r).lan
