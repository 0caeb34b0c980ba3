-- ===== src/Store/World.antt =====
-- The store's runs: its start and its messages in any order, at any instants.
pub mod Scheduled
pub mod Started
pub mod Granted
use sixup.Common.{
  ℕ, ◌≤◌, ◌<◌, ◌≡◌, ◌≢◌, inl, refl, min, Bool, true, false, not, ◌||◌, List, [], ◌∷◌, Option, none,
  some, ltb, if◌then◌else◌, All, AllValues, put-AllValues, if-holds, length, arith,
}
use sixup.Netip.{Addr, Prefix, prefix_eq, is_private}
use sixup.Tunnel.Params.{TunnelGuess}
use package.sixup.Store.{
  PrefixSource, source_pd, source_ra, source_ula, source_static, no_source, is_pd, is_ula,
  ChangeKind, LinePrefix, SourceUpdate, Snapshot, empty_snapshot,
}
use package.sixup.Store.State.{
  StoreState, Sources, put_source, source_of, update_or_none, Advertised, RevokedLan,
}
use package.sixup.Store.Subnet.{LanDef}
use package.sixup.Store.Diff.{withdrawn}
use package.sixup.Store.Recompute.{recompute, publish}
use package.sixup.Store.Recompute.Published.{
  IsScheduled, recompute-IsScheduled, publish-IsScheduled,
}
use package.sixup.Store.Recompute.Granted.{OwnUla}
use package.sixup.Store.Recompute.Bounded.{RecordWithin}
use package.sixup.Store.Recompute.Within.{Ends, StoreWithin, recompute-StoreWithin, publish-within}
use package.sixup.Store.Messages.{
  ula_of, line_of, on_set, on_conflict, on_captured, on_nat64, on_aftr, on_self, on_subscribe,
  on_receive, withdraw_ula_from, withdraw_ula, waits_for_line, recorded_until, waiting, new_store,
}

-- The recorded prefixes that do not wait for the line, which are of this router's own ULAs before
-- the restart, are among `own`.
unfoldable pub OwnRecord : (Prefix → Bool) → Option (List Advertised) → Type 0
OwnRecord own none = Unit
OwnRecord own (some as_) = All (λ (a : Advertised). (waits_for_line a || own a.prefix) ≡ true) as_

-- Runs in which no source grants a prefix beyond the bound and none was recorded beyond it; `own`
-- are the subnets of this router's own ULAs, those that it is started with and the recorded ones.
pub data Reach (own : Prefix → Bool) (bound : ℕ) : StoreState → Type 0 where
  started :
      (prefer : PrefixSource) (lans : List LanDef) (hold : ℕ) (ula : List Prefix) (mape_rule : Bool)
      (grace settle : ℕ) (has_file : Bool) (record_ : Option (List Advertised)) (now clock : ℕ)
      → OwnUla own ula
      → RecordWithin bound record_
      → OwnRecord own record_
      → Reach own bound
          (new_store prefer lans hold ula mape_rule grace settle has_file record_ now clock)
  sets :
      {s : StoreState} (source : PrefixSource) (u : SourceUpdate) (now clock : ℕ)
      → Ends bound u.prefixes
      → Reach own bound s
      → Reach own bound (on_set s source u now clock)
  conflicts :
      {s : StoreState} (addr : Addr) (conflict : Bool) (now clock : ℕ)
      → Reach own bound s
      → Reach own bound (on_conflict s addr conflict now clock)
  captures :
      {s : StoreState} (g : Option TunnelGuess) (now clock : ℕ)
      → Reach own bound s
      → Reach own bound (on_captured s g now clock)
  translates :
      {s : StoreState} (p : Prefix) (now clock : ℕ)
      → Reach own bound s
      → Reach own bound (on_nat64 s p now clock)
  resolves :
      {s : StoreState} (name : List ℕ) (addrs : List Addr) (now clock : ℕ)
      → Reach own bound s
      → Reach own bound (on_aftr s name addrs now clock)
  moves :
      {s : StoreState} (p : Prefix) (a : Addr) (now clock : ℕ)
      → Reach own bound s
      → Reach own bound (on_self s p a now clock)
  expires :
      {s : StoreState} (now clock : ℕ) → Reach own bound s → Reach own bound (recompute s now clock)
  publishes :
      {s : StoreState} (t : ℕ)
      → s.pub_timer ≡ some t
      → Reach own bound s
      → Reach own bound (publish s)
  subscribes : {s : StoreState} → Reach own bound s → Reach own bound (on_subscribe s)
  receives : {s : StoreState} (i : ℕ) → Reach own bound s → Reach own bound (on_receive s i)
