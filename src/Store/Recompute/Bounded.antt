-- ===== src/Store/Recompute/Bounded.antt =====
-- The comparison of `recompute` with the snapshot before: the expiries of what it withdraws.
use sixup.Common.{
  AllValues-last, Bool, ℕ, ◌+◌, ◌≤◌, inr, min, not, ◌||◌, List, [], ◌∷◌, ◌++◌, Option, none, some,
  ◌==◌, ltb, if◌then◌else◌, arith, All, put-AllValues, if-holds, length,
}
use sixup.Netip.{Prefix, prefix_eq, is_private}
use package.sixup.Store.{PrefixSource, source_pd, source_ula, LinePrefix, SourceUpdate}
use package.sixup.Store.State.{StoreState, RevokedLan, Advertised}
use package.sixup.Store.Handout.{Work, append_lan, prefix_in}
use package.sixup.Store.Diff.{
  withdrawn, revoke, withdraw_recorded, withdraw_all, after_restart, has_iface, revoke_gone,
  revoke_gone_of, revoke_all_gone, revoke_wan, revoke_all_wan, keep_lan, keep_lans, keep_wan,
  keep_wans, withdrew, kept,
}
use package.sixup.Store.Handout.Keeps.{append_lan-All}
use package.sixup.Store.Recompute.Granted.{IsWithin, LanWithin, RevokedWithin, WorkWithin}

-- What is recorded from before a restart ends by the bound.
unfoldable pub RecordWithin : ℕ → Option (List Advertised) → Type 0
RecordWithin bound none = Unit
RecordWithin bound (some as_) = All (λ (a : Advertised). a.valid ≤ bound) as_

module _ (own : Prefix → Bool) (bound : ℕ) where
  revoke-within :
      (iface : List ℕ) (p : Prefix) (gone : LinePrefix) (w : Work)
      → IsWithin own bound gone
      → WorkWithin own bound w
      → WorkWithin own bound (revoke iface p gone w)
  unfolding revoke
  revoke-within iface p gone w h good = record {
    lan = good.lan;
    revoked =
        put-AllValues prefix_eq (λ (r : RevokedLan). IsWithin own bound r.p) p
          (record { iface = iface; p = gone }) w.revoked h good.revoked;
  }

  withdrawn-IsWithin :
      (now hold : ℕ) (op : LinePrefix)
      → IsWithin own bound op
      → IsWithin own bound (withdrawn now (min (now + hold) op.valid) op.source op.prefix)
  unfolding IsWithin withdrawn
  withdrawn-IsWithin now hold op h = ground arith

  recorded-IsWithin :
      (now until : ℕ) (source : PrefixSource) (p : Prefix)
      → until ≤ bound
      → IsWithin own bound (withdrawn now until source p)
  unfolding IsWithin withdrawn
  recorded-IsWithin now until source p h = inr h

  withdraw_recorded-within :
      (s : StoreState) (now : ℕ) (a : Advertised) (w : Work)
      → a.valid ≤ bound
      → WorkWithin own bound w
      → WorkWithin own bound (withdraw_recorded s now a w)
  unfolding withdraw_recorded
  withdraw_recorded-within s now a w h good =
      let until = min (now + s.hold) a.valid in
      let source = if is_private a.prefix.ip then source_ula else source_pd in
      let gone = withdrawn now until source a.prefix in
      if-holds (WorkWithin own bound)
        (prefix_in a.prefix w.active || not (has_iface s.lans a.iface)) w
        (if ltb now until then revoke a.iface a.prefix gone w else w) good
        (if-holds (WorkWithin own bound) (ltb now until) (revoke a.iface a.prefix gone w) w
          (revoke-within a.iface a.prefix gone w
            (recorded-IsWithin now until source a.prefix (omega arith)) good)
          good)

  withdraw_all-within :
      (s : StoreState) (now : ℕ) (as_ : List Advertised) (w : Work)
      → All (λ (a : Advertised). a.valid ≤ bound) as_
      → WorkWithin own bound w
      → WorkWithin own bound (withdraw_all s now as_ w)
  unfolding withdraw_all
  withdraw_all-within s now [] w all good = good
  withdraw_all-within s now (a ∷ as_) w all good =
      withdraw_all-within s now as_ (withdraw_recorded s now a w) all.1
        (withdraw_recorded-within s now a w all.0 good)

  after_restart-within :
      (s : StoreState) (now : ℕ) (u : SourceUpdate) (previous : Option (List Advertised)) (w : Work)
      → RecordWithin bound previous
      → WorkWithin own bound w
      → WorkWithin own bound (after_restart s now u previous w)
  unfolding after_restart RecordWithin
  after_restart-within s now u none w all good = good
  after_restart-within s now u (some as_) w all good =
      if-holds (WorkWithin own bound) (length u.prefixes == 0) w (withdraw_all s now as_ w) good
        (withdraw_all-within s now as_ w all good)

  revoke_gone-within :
      (s : StoreState) (now : ℕ) (iface : List ℕ) (op : LinePrefix) (w : Work)
      → IsWithin own bound op
      → WorkWithin own bound w
      → WorkWithin own bound (revoke_gone s now iface op w)
  unfolding revoke_gone
  revoke_gone-within s now iface op w h good =
      let gone = withdrawn now (min (now + s.hold) op.valid) op.source op.prefix in
      if-holds (WorkWithin own bound) (prefix_in op.prefix w.active || op.deprecated) w
        (revoke iface op.prefix gone w) good
        (revoke-within iface op.prefix gone w (withdrawn-IsWithin now s.hold op h) good)

  revoke_gone_of-within :
      (s : StoreState) (now : ℕ) (iface : List ℕ) (ops : List LinePrefix) (w : Work)
      → All (IsWithin own bound) ops
      → WorkWithin own bound w
      → WorkWithin own bound (revoke_gone_of s now iface ops w)
  unfolding revoke_gone_of
  revoke_gone_of-within s now iface [] w all good = good
  revoke_gone_of-within s now iface (op ∷ ops) w all good =
      revoke_gone_of-within s now iface ops (revoke_gone s now iface op w) all.1
        (revoke_gone-within s now iface op w all.0 good)

  revoke_all_gone-within :
      (s : StoreState) (now : ℕ) (lan : List (List ℕ × List LinePrefix)) (w : Work)
      → LanWithin own bound lan
      → WorkWithin own bound w
      → WorkWithin own bound (revoke_all_gone s now lan w)
  unfolding revoke_all_gone
  revoke_all_gone-within s now [] w all good = good
  revoke_all_gone-within s now ((iface, olds) ∷ lan) w all good =
      revoke_all_gone-within s now lan (revoke_gone_of s now iface olds w) all.1
        (revoke_gone_of-within s now iface olds w all.0 good)

  revoke_all_wan-within :
      (now : ℕ) (ops : List LinePrefix) (w : Work)
      → WorkWithin own bound w
      → WorkWithin own bound (revoke_all_wan now ops w)
  unfolding revoke_all_wan revoke_wan
  revoke_all_wan-within now [] w good = good
  revoke_all_wan-within now (op ∷ ops) w good =
      revoke_all_wan-within now ops (revoke_wan now op w) (
        unfold revoke_wan in
        if-holds (WorkWithin own bound) (prefix_in op.prefix w.active_w || op.deprecated) w
          (record w { revoked_w = _ }) good (record { lan = good.lan; revoked = good.revoked }))

  keep_lan-within :
      (now : ℕ) (k : Prefix) (r : RevokedLan) (w : Work)
      → IsWithin own bound r.p
      → WorkWithin own bound w
      → WorkWithin own bound (keep_lan now k r w)
  unfolding keep_lan
  keep_lan-within now k r w h good =
      if-holds (WorkWithin own bound) (ltb now r.p.valid)
        (record w {
          next = record w.next { lan = append_lan r.iface r.p w.next.lan };
          revoked = w.revoked ++ ((k, r) ∷ []);
        })
        (record w { change = _ })
        (record {
          lan = append_lan-All (IsWithin own bound) r.iface r.p w.next.lan h good.lan;
          revoked =
              AllValues-last (λ (x : RevokedLan). IsWithin own bound x.p) w.revoked k r good.revoked
                h;
        })
        (record { lan = good.lan; revoked = good.revoked })

  keep_lans-within :
      (now : ℕ) (rs : List (Prefix × RevokedLan)) (w : Work)
      → RevokedWithin own bound rs
      → WorkWithin own bound w
      → WorkWithin own bound (keep_lans now rs w)
  unfolding keep_lans
  keep_lans-within now [] w all good = good
  keep_lans-within now ((k, r) ∷ rs) w all good =
      keep_lans-within now rs (keep_lan now k r w) all.1 (keep_lan-within now k r w all.0 good)

  keep_wans-within :
      (now : ℕ) (ps : List (Prefix × LinePrefix)) (w : Work)
      → WorkWithin own bound w
      → WorkWithin own bound (keep_wans now ps w)
  unfolding keep_wans keep_wan
  keep_wans-within now [] w good = good
  keep_wans-within now ((k, p) ∷ ps) w good = keep_wans-within now ps (keep_wan now k p w) (
      unfold keep_wan in
      if-holds (WorkWithin own bound) (ltb now p.valid)
        (record w { next = record w.next { wan = w.next.wan ++ (p ∷ []) }; revoked_w = _ })
        (record w { change = _ }) (record { lan = good.lan; revoked = good.revoked })
        (record { lan = good.lan; revoked = good.revoked }))

  pub kept-within :
      (now : ℕ) (w : Work) → WorkWithin own bound w → WorkWithin own bound (kept now w)
  unfolding kept
  kept-within now w good =
      let lans = keep_lans now w.revoked (record w { revoked = [] }) in
      let lans-within =
        keep_lans-within now w.revoked (record w { revoked = [] }) good.revoked
          (record { lan = good.lan; revoked = tt }) in
      keep_wans-within now lans.revoked_w (record lans { revoked_w = [] })
        (record { lan = lans-within.lan; revoked = lans-within.revoked })

  -- What is withdrawn ends with what it was.
  pub withdrew-within :
      (s : StoreState) (now : ℕ) (u : SourceUpdate) (w : Work)
      → LanWithin own bound s.cur.lan
      → RecordWithin bound s.previous
      → WorkWithin own bound w
      → WorkWithin own bound (withdrew s now u w)
  unfolding withdrew
  withdrew-within s now u w lan recorded good =
      revoke_all_wan-within now s.cur.wan
        (revoke_all_gone s now s.cur.lan (after_restart s now u s.previous w))
        (revoke_all_gone-within s now s.cur.lan (after_restart s now u s.previous w) lan
          (after_restart-within s now u s.previous w recorded good))
