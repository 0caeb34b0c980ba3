-- ===== src/Store/Messages.antt =====
-- The messages of `Store`'s loop (prefix.go), its start, and the time it next wakes by itself. A
-- message is handled as a whole; the instant of `pickSource` is a second reading of the clock.
pub mod Wakes
use sixup.Common.{
  ℕ, zero, suc, ◌+◌, ◌*◌, min, Bool, true, false, not, ◌&&◌, ◌||◌, List, [], ◌∷◌, ◌++◌, Option,
  none, some, ◌==◌, ltb, if◌then◌else◌, any, length, put, bytes_eq,
}
use sixup.Netip.{Addr, addr_eq, Prefix, prefix_eq, no_prefix, is_private}
use sixup.Tunnel.Params.{TunnelGuess}
use package.sixup.Store.{
  PrefixSource, is_pd, source_ula, LinePrefix, SourceUpdate, Snapshot, empty_snapshot,
}
use package.sixup.Store.State.{StoreState, put_source, is_known, Advertised, RevokedLan}
use package.sixup.Store.Subnet.{LanDef, split_lan}
use package.sixup.Store.Diff.{withdrawn}
use package.sixup.Store.Recompute.{recompute}

-- The ULA among the prefixes of the PD client, and the rest.
unfoldable pub ula_of : List LinePrefix → List LinePrefix
ula_of [] = []
ula_of (p ∷ ps) = let rest = ula_of ps in if is_private p.prefix.ip then p ∷ rest else rest

unfoldable pub line_of : List LinePrefix → List LinePrefix
line_of [] = []
line_of (p ∷ ps) = let rest = line_of ps in if is_private p.prefix.ip then rest else p ∷ rest

-- `case m := <-s.in`.
unfoldable pub on_set : StoreState → PrefixSource → SourceUpdate → ℕ → ℕ → StoreState
on_set s source u now clock =
    let u' = record u { prefixes = line_of u.prefixes } in
    recompute
      (if is_pd source
        then record s { ula_pd = ula_of u.prefixes; sources = put_source source u' s.sources }
        else record s { sources = put_source source u s.sources })
      now clock

unfoldable pub without : Addr → List Addr → List Addr
without a [] = []
without a (b ∷ bs) = let rest = without a bs in if addr_eq b a then rest else b ∷ rest

unfoldable pub on_conflict : StoreState → Addr → Bool → ℕ → ℕ → StoreState
on_conflict s addr conflict now clock =
    recompute
      (record s {
        conflicts =
            if conflict
            then if any (addr_eq addr) s.conflicts then s.conflicts else addr ∷ s.conflicts
            else without addr s.conflicts;
      })
      now clock

unfoldable pub on_captured : StoreState → Option TunnelGuess → ℕ → ℕ → StoreState
on_captured s g now clock = recompute (record s { captured = g }) now clock

unfoldable pub on_nat64 : StoreState → Prefix → ℕ → ℕ → StoreState
on_nat64 s p now clock = recompute (record s { nat64 = p }) now clock

unfoldable pub on_aftr : StoreState → List ℕ → List Addr → ℕ → ℕ → StoreState
on_aftr s name addrs now clock =
    recompute (record s { aftr_name = name; aftr_addrs = addrs }) now clock

unfoldable pub on_self : StoreState → Prefix → Addr → ℕ → ℕ → StoreState
on_self s prefix addr now clock =
    recompute (record s { self = put prefix_eq prefix addr s.self }) now clock

-- `Subscribe`: the channel gets the snapshot at once.
unfoldable pub on_subscribe : StoreState → StoreState
on_subscribe s = record s { subs = s.subs ++ (some s.cur ∷ []) }

-- A subscriber takes what its channel holds.
unfoldable pub emptied : List (Option Snapshot) → ℕ → List (Option Snapshot)
emptied [] i = []
emptied (c ∷ cs) zero = none ∷ cs
emptied (c ∷ cs) (suc i) = c ∷ emptied cs i

unfoldable pub on_receive : StoreState → ℕ → StoreState
on_receive s i = record s { subs = emptied s.subs i }

-- `nextExpiry`: an instant with its zero, then `none` for no wake-up.
unfoldable pub earlier : ℕ → ℕ → ℕ
earlier e t = if e == 0 || ltb t e then t else e

unfoldable pub first_lan : List (Prefix × RevokedLan) → ℕ → ℕ
unfolding earlier
first_lan [] e = e
first_lan ((k, r) ∷ rs) e = first_lan rs (earlier e r.p.valid)

unfoldable pub first_wan : List (Prefix × LinePrefix) → ℕ → ℕ
unfolding earlier
first_wan [] e = e
first_wan ((k, p) ∷ ps) e = first_wan ps (earlier e p.valid)

unfoldable pub earliest : StoreState → ℕ → ℕ
unfolding earlier first_lan first_wan
earliest s now =
    let e = first_wan s.revoked_w (first_lan s.revoked 0) in
    if not (is_known s.sources.pd) && not (s.pd_grace == 0) && ltb now s.pd_grace
    then earlier e s.pd_grace
    else e

-- `time.After(time.Until(earliest) + 50*time.Millisecond)`, as an instant.
unfoldable pub next_expiry : StoreState → ℕ → Option ℕ
next_expiry s now = if earliest s now == 0 then none else some (earliest s now + 50 * 1000000)

-- `withdrawULA`: an entry that is kept in the record, and one that is withdrawn.
unfoldable pub lan_index : List LanDef → List ℕ → Option ℕ
lan_index [] iface = none
lan_index (l ∷ lans) iface =
    let rest = lan_index lans iface in if bytes_eq l.iface iface then some l.index else rest

is_subnet : Prefix → Option Prefix → Bool
is_subnet p none = false
is_subnet p (some sub) = prefix_eq sub p

unfoldable pub still_given : List Prefix → Option ℕ → Prefix → Bool
unfolding is_subnet
still_given ula none p = true
still_given ula (some i) p = any (λ (u : Prefix). is_subnet p (split_lan u i)) ula

unfoldable pub waits_for_line : Advertised → Bool
waits_for_line a = not (is_private a.prefix.ip) || a.delegated

unfoldable pub recorded_until : StoreState → ℕ → Advertised → ℕ
recorded_until s now a = if a.valid == 0 then now + s.hold else min (now + s.hold) a.valid

unfoldable pub withdrawn_ula : StoreState → ℕ → Advertised → StoreState
withdrawn_ula s now a =
    let until = recorded_until s now a in
    let gone : RevokedLan = record {
      iface = a.iface;
      p = withdrawn now until source_ula a.prefix;
    } in
    if waits_for_line a || still_given s.ula (lan_index s.lans a.iface) a.prefix
    then s
    else if ltb now until
    then record s { revoked = put prefix_eq a.prefix gone s.revoked }
    else s

unfoldable pub withdraw_ula_from : StoreState → ℕ → List Advertised → StoreState
withdraw_ula_from s now [] = s
withdraw_ula_from s now (a ∷ as_) = withdraw_ula_from (withdrawn_ula s now a) now as_

unfoldable pub waiting : List Advertised → List Advertised
waiting [] = []
waiting (a ∷ as_) = let rest = waiting as_ in if waits_for_line a then a ∷ rest else rest

unfoldable pub list_or_nil : List Advertised → Option (List Advertised)
list_or_nil [] = none
list_or_nil (a ∷ as_) = some (a ∷ as_)

unfoldable pub withdraw_ula : StoreState → ℕ → Option (List Advertised) → StoreState
withdraw_ula s now none = record s { previous = none }
withdraw_ula s now (some as_) = record (withdraw_ula_from s now as_) {
  previous = list_or_nil (waiting as_);
}

-- `newStore`: the settings, the record read from the file, and the readings of the clock.
unfoldable pub literal :
    PrefixSource
    → List LanDef
    → ℕ
    → List Prefix
    → Bool
    → ℕ
    → ℕ
    → Bool
    → Option (List Advertised)
    → ℕ
    → StoreState
literal prefer lans hold ula mape_rule grace settle has_file record_ now = record {
  prefer = prefer;
  ula = ula;
  ula_pd = [];
  lans = lans;
  hold = hold;
  mape_rule = mape_rule;
  pd_grace = if ltb 0 grace && is_pd prefer then now + grace else 0;
  sources = record { pd = none; ra = none; ula = none; static = none };
  captured = none;
  nat64 = no_prefix;
  aftr_name = [];
  aftr_addrs = [];
  conflicts = [];
  self = [];
  cur = empty_snapshot;
  subs = [];
  settle = settle;
  pending = none;
  pub_timer = none;
  revoked = [];
  revoked_w = [];
  has_file = has_file;
  saved = record_;
  previous = record_;
}

-- A ULA needs no source, nor does what is withdrawn: the first snapshot has them.
unfoldable pub start : StoreState → ℕ → ℕ → StoreState
start s now clock =
    let t = withdraw_ula s now s.previous in
    if ltb 0 (length s.ula) || ltb 0 (length t.revoked) then recompute t now clock else t

unfoldable pub new_store :
    PrefixSource
    → List LanDef
    → ℕ
    → List Prefix
    → Bool
    → ℕ
    → ℕ
    → Bool
    → Option (List Advertised)
    → ℕ
    → ℕ
    → StoreState
new_store prefer lans hold ula mape_rule grace settle has_file record_ now clock =
    start (literal prefer lans hold ula mape_rule grace settle has_file record_ now) now clock
