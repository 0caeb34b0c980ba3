-- ===== src/Store/Recompute/Lasting.antt =====
-- `recompute` as a whole (prefix.go): which prefixes are still valid.
use sixup.Common.{if◌then◌else◌, ℕ, ◌≡◌, refl, Bool, ◌&&◌, ◌||◌, [], none, ◌==◌, if-holds}
use package.sixup.Store.{PrefixSource, ChangeKind, change_none, SourceUpdate}
use package.sixup.Store.State.{StoreState, pick_source}
use package.sixup.Store.Stages.{drafted, with_tunnel}
use package.sixup.Store.Stages.Empty.{draft-IsEmpty}
use package.sixup.Store.Handout.{Work, handed_out}
use package.sixup.Store.Diff.{withdrew, kept, keep_lans}
use package.sixup.Store.Classify.{classify, is_none_change}
use package.sixup.Store.Recompute.{
  worked, built, adopted, router_moved, delivered, publish, save_advertised, is_compared, is_revoke,
  recompute,
}
use package.sixup.Store.Recompute.Live.{
  IsLive, RevokedLast, WanLast, handed_out-IsLive, withdrew-IsLive, keep_lans-IsLive,
  keep_wans-IsLive,
}

module _ (now : ℕ) where
  -- A state whose prefixes all last.
  pub record IsLasting (s : StoreState) : Type 0 where
    pub live : IsLive now s.cur
    pub revoked : RevokedLast now s.revoked
    pub revoked_w : WanLast now s.revoked_w

  IsLasting-same :
      (s t : StoreState)
      → t.cur.lan ≡ s.cur.lan
      → t.cur.wan ≡ s.cur.wan
      → t.revoked ≡ s.revoked
      → t.revoked_w ≡ s.revoked_w
      → IsLasting s
      → IsLasting t
  IsLasting-same s t a b c d good = record {
    live = record { lan = rw a good.live.lan; wan = rw b good.live.wan };
    revoked = rw c good.revoked;
    revoked_w = rw d good.revoked_w;
  }

  adopted-IsLasting :
      (s : StoreState) (src : PrefixSource) (u : SourceUpdate) (change : ChangeKind)
      → IsLasting (adopted s u (worked s now src u) (built s (worked s now src u)) change)
  unfolding adopted built worked kept
  adopted-IsLasting s src u change =
      let next = with_tunnel s now u (drafted s now src u) in
      let empty = draft-IsEmpty s now src u in
      let start : Work = record {
        next = next;
        active = [];
        active_w = [];
        revoked = s.revoked;
        revoked_w = s.revoked_w;
        change = change_none;
      } in
      let w = withdrew s now u (handed_out s now src u start) in
      let w-live = withdrew-IsLive now s u (handed_out s now src u start) (
        handed_out-IsLive now s src u start
          (record { lan = rw empty.lan tt; wan = rw empty.wan tt })) in
      let lans = keep_lans now w.revoked (record w { revoked = [] }) in
      let lans-live = keep_lans-IsLive now w.revoked (record w { revoked = [] }) (w-live, tt) in
      let done =
        keep_wans-IsLive now lans.revoked_w (record lans { revoked_w = [] })
          (lans-live.0, lans-live.1, tt) in
      record {
        live = record { lan = done.0.lan; wan = done.0.wan };
        revoked = done.1;
        revoked_w = done.2;
      }

  publish-IsLasting : (s : StoreState) → IsLasting s → IsLasting (publish s)
  unfolding publish save_advertised
  publish-IsLasting s good =
      let t = record s { pub_timer = none; cur = record s.cur { change = _ }; pending = none } in
      let t-good = IsLasting-same s t refl refl refl refl good in
      let saved =
        if-holds IsLasting (t.has_file && is_compared t.previous) (record t { saved = _ }) t
          (IsLasting-same t (record t { saved = _ }) refl refl refl refl t-good) t-good in
      IsLasting-same (save_advertised t) (record (save_advertised t) { subs = _ }) refl refl refl
        refl saved

  delivered-IsLasting :
      (s : StoreState) (change : ChangeKind) (router : Bool)
      → IsLasting s
      → IsLasting (delivered s now change router)
  unfolding delivered
  delivered-IsLasting s change router good =
      let t = record s { pending = _ } in
      let t-good = IsLasting-same s t refl refl refl refl good in
      let later = record t { pub_timer = _ } in
      if-holds IsLasting (is_none_change change) s
        (if s.settle == 0 || is_revoke change || router then publish t else later) good
        (if-holds IsLasting (s.settle == 0 || is_revoke change || router) (publish t) later
          (publish-IsLasting t t-good) (IsLasting-same t later refl refl refl refl t-good))

  -- Whatever the state, after a recompute no prefix of the snapshot, on the WAN or on a LAN, is
  -- over at its instant, nor is any that is in its deprecate period.
  pub recompute-IsLasting : (s : StoreState) (clock : ℕ) → IsLasting (recompute s now clock)
  unfolding recompute
  recompute-IsLasting s clock =
      let (src, u) = pick_source s clock in
      let w = worked s now src u in
      let next = built s w in
      let change = classify s.cur next w.change in
      delivered-IsLasting (adopted s u w next change) change (router_moved s.cur next)
        (adopted-IsLasting s src u change)
