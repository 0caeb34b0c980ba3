-- ===== src/Store/Recompute.antt =====
-- `recompute` and `publish` of prefix.go. The log and the warnings are left out, and of the file
-- the writing: `saved` is what it is given.
pub mod Published
pub mod Revoked
pub mod Granted
pub mod Bounded
pub mod Within
pub mod Live
pub mod Lasting
use sixup.Common.{
  ℕ, ◌+◌, Bool, true, false, not, ◌&&◌, ◌||◌, List, [], ◌∷◌, ◌++◌, Option, none, some, ◌==◌, ltb,
  if◌then◌else◌, map,
}
use package.sixup.Store.{
  PrefixSource, is_ula, ChangeKind, change_none, change_revoke, LinePrefix, SourceUpdate, Snapshot,
}
use package.sixup.Store.State.{StoreState, Advertised, pick_source}
use package.sixup.Store.Stages.{drafted, with_tunnel}
use package.sixup.Store.Handout.{Work, handed_out}
use package.sixup.Store.Diff.{withdrew, kept, previous_after}
use package.sixup.Store.Classify.{classify, change_rank, pending_rank, is_none_change}
use package.sixup.Store.Subnet.{wan_subnet_of}

-- `saveAdvertised`: the entries of a snapshot. A live ULA of this router's has no expiry.
advertised_of : List ℕ → List LinePrefix → List Advertised
advertised_of iface [] = []
advertised_of iface (p ∷ ps) =
    record {
      iface = iface;
      prefix = p.prefix;
      valid = if is_ula p.source && not p.stale && not p.delegated then 0 else p.valid;
      delegated = p.delegated;
    }
    ∷ advertised_of iface ps

unfoldable pub advertised : List (List ℕ × List LinePrefix) → List Advertised
unfolding advertised_of
advertised [] = []
advertised ((iface, ps) ∷ lan) = advertised_of iface ps ++ advertised lan

is_compared : Option (List Advertised) → Bool
is_compared none = true
is_compared (some as_) = false

unfoldable pub save_advertised : StoreState → StoreState
unfolding is_compared
save_advertised s =
    if s.has_file && is_compared s.previous
    then record s { saved = some (advertised s.cur.lan) }
    else s

pending_or : Option ChangeKind → Option ChangeKind → Option ChangeKind
pending_or none change = change
pending_or (some c) change = some c

-- `publish`: each channel is emptied, then holds the snapshot.
unfoldable pub publish : StoreState → StoreState
unfolding pending_or
publish s =
    let cur = record s.cur { change = pending_or s.pending s.cur.change } in
    let t = save_advertised (record s { pub_timer = none; cur = cur; pending = none }) in
    record t { subs = map (λ c. some cur) t.subs }

-- The snapshot that `recompute` builds.
unfoldable pub worked : StoreState → ℕ → PrefixSource → SourceUpdate → Work
worked s now src u =
    let next = with_tunnel s now u (drafted s now src u) in
    kept now (
      withdrew s now u (
        handed_out s now src u (record {
          next = next;
          active = [];
          active_w = [];
          revoked = s.revoked;
          revoked_w = s.revoked_w;
          change = change_none;
        })))

stronger : ChangeKind → Option ChangeKind → Option ChangeKind
stronger change pending =
    if ltb (pending_rank pending) (change_rank change) then some change else pending

timer_or : Option ℕ → ℕ → Option ℕ
timer_or none t = some t
timer_or (some t) t' = some t

is_revoke : ChangeKind → Bool
is_revoke change_revoke = true
is_revoke _ = false

-- The end of `recompute`: now, after the settle period, or not at all.
unfoldable pub delivered : StoreState → ℕ → ChangeKind → Bool → StoreState
unfolding stronger timer_or is_revoke
delivered s now change router_changed =
    let t = record s { pending = stronger change s.pending } in
    if is_none_change change
    then s
    else if s.settle == 0 || is_revoke change || router_changed
    then publish t
    else record t { pub_timer = timer_or t.pub_timer (now + s.settle) }

unfoldable pub built : StoreState → Work → Snapshot
built s w = record w.next { wan_subnet = wan_subnet_of w.next s.lans }

unfoldable pub adopted : StoreState → SourceUpdate → Work → Snapshot → ChangeKind → StoreState
adopted s u w next change = record s {
  cur = record next { change = some change };
  revoked = w.revoked;
  revoked_w = w.revoked_w;
  previous = previous_after u s.previous;
}

bool_eq : Bool → Bool → Bool
bool_eq true b = b
bool_eq false b = not b

unfoldable pub router_moved : Snapshot → Snapshot → Bool
unfolding bool_eq
router_moved a b = not (bool_eq a.no_wan_router b.no_wan_router)

-- `recompute`, with the instant and that of the clock that `pickSource` reads.
unfoldable pub recompute : StoreState → ℕ → ℕ → StoreState
recompute s now clock =
    let (src, u) = pick_source s clock in
    let w = worked s now src u in
    let next = built s w in
    let change = classify s.cur next w.change in
    delivered (adopted s u w next change) now change (router_moved s.cur next)
