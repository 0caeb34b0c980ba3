-- ===== src/Store/Recompute/Published.antt =====
-- When a new snapshot is published.
use mathlib.Core.Option.{some-injective}
use sixup.Common.{
  ℕ, ◌+◌, ◌≡◌, ◌≢◌, inl, inr, refl, Bool, true, false, not, ◌||◌, Option, none, some, ◌==◌, ltb,
  map, arith, Bool-cases, sym, ◌∙◌,
}
use package.sixup.Store.Handout.{Work}
use package.sixup.Store.{SourceUpdate, ChangeKind, change_none, Snapshot}
use package.sixup.Store.State.{StoreState, pick_source}
use package.sixup.Store.Classify.{
  classify, change_rank, pending_rank, is_none_change, classify-router,
}
use package.sixup.Store.Recompute.{
  bool_eq, recompute, delivered, publish, save_advertised, built, worked, adopted, router_moved,
  stronger, timer_or, is_revoke, is_compared,
}

-- Every channel holds the snapshot.
pub IsPublished : StoreState → StoreState → Type 0
IsPublished s t = t.subs ≡ map (λ c. some t.cur) s.subs

-- What waits has a timer, and it is a change.
pub record IsScheduled (s : StoreState) : Type 0 where
  pub timed : (c : ChangeKind) → s.pending ≡ some c → (t : ℕ) × (s.pub_timer ≡ some t)
  pub real : s.pending ≢ some change_none

publish-pending : (s : StoreState) → (publish s).pending ≡ none
unfolding publish save_advertised is_compared
publish-pending s = ground arith

publish-IsPublished : (s : StoreState) → IsPublished s (publish s)
unfolding publish save_advertised is_compared IsPublished
publish-IsPublished s = ground arith

pub publish-IsScheduled : (s : StoreState) → IsScheduled (publish s)
publish-IsScheduled s = record {
  timed = λ c h. absurd (ground (arith, publish-pending s));
  real = λ h. ground (arith, publish-pending s);
}

is_change-none : (c : ChangeKind) → is_none_change c ≡ false → c ≢ change_none
unfolding is_none_change
is_change-none c h e = absurd (ground (arith, rw e at h))

-- The stronger of two changes is no empty one.
stronger-real :
    (change : ChangeKind) (pending : Option ChangeKind)
    → is_none_change change ≡ false
    → pending ≢ some change_none
    → stronger change pending ≢ some change_none
unfolding stronger is_none_change change_rank pending_rank
stronger-real change pending some_change real =
    elim (Bool-cases (ltb (pending_rank pending) (change_rank change))) [
      | inl up ↦
          rw up (λ h. is_change-none change some_change (some-injective change change_none h))
      | inr down ↦ rw down real
    ]

timer_or-some : (o : Option ℕ) (t : ℕ) → (x : ℕ) × (timer_or o t ≡ some x)
unfolding timer_or
timer_or-some none t = (t, refl)
timer_or-some (some x) t = (x, refl)

delivered-IsScheduled :
    (s : StoreState) (now : ℕ) (change : ChangeKind) (router : Bool)
    → IsScheduled s
    → IsScheduled (delivered s now change router)
unfolding delivered
delivered-IsScheduled s now change router good = elim (Bool-cases (is_none_change change)) [
  | inl same ↦ rw same good
  | inr new ↦ elim (Bool-cases (s.settle == 0 || is_revoke change || router)) [
    | inl urgent ↦ rw (new, urgent) (publish-IsScheduled _)
    | inr later ↦
        rw (new, later)
          (record {
            timed = λ c h. timer_or-some s.pub_timer (now + s.settle);
            real = stronger-real change s.pending new good.real;
          })
  ]
]

adopted-IsScheduled :
    (s : StoreState) (u : SourceUpdate) (w : Work) (next : Snapshot) (change : ChangeKind)
    → IsScheduled s
    → IsScheduled (adopted s u w next change)
unfolding adopted
adopted-IsScheduled s u w next change good = record { timed = good.timed; real = good.real }

-- A round keeps it so.
pub recompute-IsScheduled :
    (s : StoreState) (now clock : ℕ) → IsScheduled s → IsScheduled (recompute s now clock)
unfolding recompute
recompute-IsScheduled s now clock good =
    let (src, u) = pick_source s clock in
    let w = worked s now src u in
    let next = built s w in
    let change = classify s.cur next w.change in
    delivered-IsScheduled (adopted s u w next change) now change (router_moved s.cur next)
      (adopted-IsScheduled s u w next change good)

not-bool_eq : (a b : Bool) → a ≢ b → not (bool_eq a b) ≡ true
unfolding bool_eq
not-bool_eq true true differs = absurd (differs refl)
not-bool_eq true false differs = refl
not-bool_eq false true differs = refl
not-bool_eq false false differs = absurd (differs refl)

router_moved-true : (a b : Snapshot) → a.no_wan_router ≢ b.no_wan_router → router_moved a b ≡ true
unfolding router_moved
router_moved-true a b differs = not-bool_eq a.no_wan_router b.no_wan_router differs

-- What `delivered` does of a change that is urgent.
delivered-IsPublished :
    (s : StoreState) (now : ℕ) (change : ChangeKind)
    → is_none_change change ≡ false
    → IsPublished s (delivered s now change true)
unfolding delivered IsPublished
delivered-IsPublished s now change new =
    elim (Bool-cases (s.settle == 0 || is_revoke change || true)) [
      | inl urgent ↦ rw (new, urgent) (unfold IsPublished in publish-IsPublished _)
      | inr never ↦ absurd (ground arith)
    ]

delivered-router :
    (s : StoreState) (now : ℕ) (change : ChangeKind) (router : Bool)
    → (delivered s now change router).cur.no_wan_router ≡ s.cur.no_wan_router
unfolding delivered publish save_advertised is_compared
delivered-router s now change router = ground arith

-- A recompute after which the snapshot's word on the WAN's default router differs from the one
-- before publishes at once: every subscriber's channel holds the new snapshot.
pub recompute-router :
    (s : StoreState) (now clock : ℕ)
    → s.cur.no_wan_router ≢ (recompute s now clock).cur.no_wan_router
    → IsPublished s (recompute s now clock)
unfolding recompute adopted IsPublished
recompute-router s now clock moved =
    let (src, u) = pick_source s clock in
    let w = worked s now src u in
    let next = built s w in
    let change = classify s.cur next w.change in
    let same : next.no_wan_router ≡ (adopted s u w next change).cur.no_wan_router =
      unfold adopted in refl in
    let differs : s.cur.no_wan_router ≢ next.no_wan_router = λ e. moved (
      e
      ∙ same
      ∙ sym (delivered-router (adopted s u w next change) now change (router_moved s.cur next))) in
    rw (router_moved-true s.cur next differs) (
      delivered-IsPublished (adopted s u w next change) now change
        (classify-router s.cur next w.change differs))
