-- ===== src/Store/Recompute/Within.antt =====
-- `recompute` as a whole: the expiries of what it hands out and withdraws.
use sixup.Common.{
  ℕ, ◌≤◌, ◌≡◌, inl, inr, refl, Bool, not, ◌&&◌, ◌||◌, List, [], ◌∷◌, Option, none, ◌==◌, ltb,
  if◌then◌else◌, Option-cases, All, if-holds, length,
}
use sixup.Netip.{Prefix}
use package.sixup.Store.{PrefixSource, is_ra, ChangeKind, change_none, LinePrefix, SourceUpdate}
use package.sixup.Store.State.{
  StoreState, Sources, Advertised, update_or_none, source_of, is_known, order, after_grace, or_next,
  or_any, first_known, first_with_prefixes, pick_source,
}
use package.sixup.Store.Stages.{drafted, with_tunnel}
use package.sixup.Store.Handout.{Work, handed_out}
use package.sixup.Store.Diff.{previous_after, withdrew}
use package.sixup.Store.Classify.{classify, is_none_change}
use package.sixup.Store.Recompute.{
  worked, built, adopted, router_moved, delivered, publish, save_advertised, is_compared, is_revoke,
  recompute,
}
use package.sixup.Store.Stages.Empty.{draft-IsEmpty}
use package.sixup.Store.Recompute.Granted.{
  OwnUla, LanWithin, RevokedWithin, WorkWithin, handed_out-within,
}
use package.sixup.Store.Recompute.Bounded.{RecordWithin, withdrew-within, kept-within}

unfoldable pub Ends : ℕ → List LinePrefix → Type 0
Ends bound ps = All (λ (p : LinePrefix). p.valid ≤ bound) ps

module _ (own : Prefix → Bool) (bound : ℕ) where
  -- No source, no record, no LAN and no prefix in its deprecate period has a later end.
  pub record StoreWithin (s : StoreState) : Type 0 where
    pub sources :
        (name : PrefixSource) → Ends bound (update_or_none (source_of s.sources name)).prefixes
    pub ula : OwnUla own s.ula
    pub ula_pd : Ends bound s.ula_pd
    pub lan : LanWithin own bound s.cur.lan
    pub revoked : RevokedWithin own bound s.revoked
    pub previous : RecordWithin bound s.previous

  -- It reads six parts of the state.
  pub StoreWithin-same :
      (s t : StoreState)
      → t.sources ≡ s.sources
      → t.ula_pd ≡ s.ula_pd
      → t.cur.lan ≡ s.cur.lan
      → t.revoked ≡ s.revoked
      → t.previous ≡ s.previous
      → t.ula ≡ s.ula
      → StoreWithin s
      → StoreWithin t
  StoreWithin-same s t a b c d e f good = record {
    ula = rw f good.ula;
    sources = rw a good.sources;
    ula_pd = rw b good.ula_pd;
    lan = rw c good.lan;
    revoked = rw d good.revoked;
    previous = rw e good.previous;
  }

  -- What `pickSource` picks is a source's, without its prefixes at times.
  first_known-Ends :
      (s : Sources) (names : List PrefixSource)
      → ((name : PrefixSource) → Ends bound (update_or_none (source_of s name)).prefixes)
      → Ends bound (first_known s names).1.prefixes
  unfolding first_known or_any Ends update_or_none
  first_known-Ends s [] all = tt
  first_known-Ends s (name ∷ names) all = elim (Option-cases (source_of s name)) [
    | inl missing ↦ rw missing (first_known-Ends s names all)
    | inr (u, found) ↦ rw found (rw found at (all name))
  ]

  after_grace-Ends :
      (s : StoreState) (now : ℕ) (name : PrefixSource) (u : SourceUpdate)
      → Ends bound u.prefixes
      → Ends bound (after_grace s now name u).prefixes
  unfolding after_grace Ends
  after_grace-Ends s now name u all =
      if-holds (λ (v : SourceUpdate). Ends bound v.prefixes)
        (is_ra name && not (is_known s.sources.pd) && ltb now s.pd_grace)
        (record u { prefixes = [] }) u tt all

  first_with_prefixes-Ends :
      (s : StoreState) (now : ℕ) (names : List PrefixSource) (rest : PrefixSource × SourceUpdate)
      → ((name : PrefixSource) → Ends bound (update_or_none (source_of s.sources name)).prefixes)
      → Ends bound rest.1.prefixes
      → Ends bound (first_with_prefixes s now names rest).1.prefixes
  unfolding first_with_prefixes or_next update_or_none
  first_with_prefixes-Ends s now [] rest all h = h
  first_with_prefixes-Ends s now (name ∷ names) rest all h =
      let later = first_with_prefixes-Ends s now names rest all h in
      elim (Option-cases (source_of s.sources name)) [
        | inl missing ↦ rw missing later
        | inr (u, found) ↦ rw found (
            if-holds (λ (x : PrefixSource × SourceUpdate). Ends bound x.1.prefixes)
              (ltb 0 (length u.prefixes)) (name, after_grace s now name u)
              (first_with_prefixes s now names rest)
              (after_grace-Ends s now name u (rw found at (all name))) later)
      ]

  pick_source-Ends :
      (s : StoreState) (now : ℕ) → StoreWithin s → Ends bound (pick_source s now).1.prefixes
  unfolding pick_source
  pick_source-Ends s now good =
      first_with_prefixes-Ends s now (order (is_ra s.prefer))
        (first_known s.sources (order (is_ra s.prefer))) good.sources
        (first_known-Ends s.sources (order (is_ra s.prefer)) good.sources)

  worked-within :
      (s : StoreState) (now : ℕ) (src : PrefixSource) (u : SourceUpdate)
      → StoreWithin s
      → Ends bound u.prefixes
      → WorkWithin own bound (worked s now src u)
  unfolding worked Ends
  worked-within s now src u good given =
      let next = with_tunnel s now u (drafted s now src u) in
      let start : Work = record {
        next = next;
        active = [];
        active_w = [];
        revoked = s.revoked;
        revoked_w = s.revoked_w;
        change = change_none;
      } in
      let start-within : WorkWithin own bound start = record {
        lan = rw ((draft-IsEmpty s now src u).lan) tt;
        revoked = good.revoked;
      } in
      kept-within own bound now (withdrew s now u (handed_out s now src u start)) (
        withdrew-within own bound s now u (handed_out s now src u start) good.lan good.previous
          (handed_out-within own bound s now src u start given good.ula good.ula_pd start-within))

  previous_after-within :
      (u : SourceUpdate) (previous : Option (List Advertised))
      → RecordWithin bound previous
      → RecordWithin bound (previous_after u previous)
  unfolding previous_after RecordWithin
  previous_after-within u previous h =
      if-holds (RecordWithin bound) (length u.prefixes == 0) previous none h tt

  adopted-within :
      (s : StoreState) (u : SourceUpdate) (w : Work) (change : ChangeKind)
      → StoreWithin s
      → WorkWithin own bound w
      → StoreWithin (adopted s u w (built s w) change)
  unfolding adopted built
  adopted-within s u w change good done = record {
    ula = good.ula;
    sources = good.sources;
    ula_pd = good.ula_pd;
    lan = done.lan;
    revoked = done.revoked;
    previous = previous_after-within u s.previous good.previous;
  }

  save_advertised-within : (s : StoreState) → StoreWithin s → StoreWithin (save_advertised s)
  unfolding save_advertised
  save_advertised-within s good =
      if-holds StoreWithin (s.has_file && is_compared s.previous) (record s { saved = _ }) s
        (StoreWithin-same s (record s { saved = _ }) refl refl refl refl refl refl good) good

  pub publish-within : (s : StoreState) → StoreWithin s → StoreWithin (publish s)
  unfolding publish
  publish-within s good =
      let t = record s { pub_timer = none; cur = record s.cur { change = _ }; pending = none } in
      let u = save_advertised t in
      StoreWithin-same u (record u { subs = _ }) refl refl refl refl refl refl
        (save_advertised-within t (StoreWithin-same s t refl refl refl refl refl refl good))

  delivered-within :
      (s : StoreState) (now : ℕ) (change : ChangeKind) (router : Bool)
      → StoreWithin s
      → StoreWithin (delivered s now change router)
  unfolding delivered
  delivered-within s now change router good =
      let t = record s { pending = _ } in
      let later = record t { pub_timer = _ } in
      if-holds StoreWithin (is_none_change change) s
        (if s.settle == 0 || is_revoke change || router then publish t else later) good
        (if-holds StoreWithin (s.settle == 0 || is_revoke change || router) (publish t) later
          (publish-within t (StoreWithin-same s t refl refl refl refl refl refl good))
          (StoreWithin-same s later refl refl refl refl refl refl good))

  -- A round keeps within the bound.
  pub recompute-StoreWithin :
      (s : StoreState) (now clock : ℕ) → StoreWithin s → StoreWithin (recompute s now clock)
  unfolding recompute
  recompute-StoreWithin s now clock good =
      let (src, u) = pick_source s clock in
      let w = worked s now src u in
      let next = built s w in
      let change = classify s.cur next w.change in
      delivered-within (adopted s u w next change) now change (router_moved s.cur next) (
        adopted-within s u w change good
          (worked-within s now src u good (pick_source-Ends s clock good)))
