-- ===== src/Store/World/Scheduled.antt =====
-- A waiting change of the store and its timer, in every state that messages reach.
use sixup.Common.{
  ℕ, ◌≡◌, none_ne_some, refl, Bool, ◌||◌, List, [], ◌∷◌, Option, none, some, ltb, if-holds, length,
}
use sixup.Netip.{Prefix}
use package.sixup.Store.{PrefixSource, is_pd}
use package.sixup.Store.State.{StoreState, Advertised}
use package.sixup.Store.Subnet.{LanDef}
use package.sixup.Store.Recompute.{recompute}
use package.sixup.Store.Recompute.Published.{
  IsScheduled, recompute-IsScheduled, publish-IsScheduled,
}
use package.sixup.Store.Messages.{
  on_set, on_conflict, on_captured, on_nat64, on_aftr, on_self, on_subscribe, on_receive,
  withdraw_ula_from, withdrawn_ula, withdraw_ula, still_given, lan_index, waits_for_line,
  recorded_until, literal, start, new_store,
}
use package.sixup.Store.World.{
  Reach, started, sets, conflicts, captures, translates, resolves, moves, expires, publishes,
  subscribes, receives,
}

-- The start: withdrawing the recorded ULA.
withdrawn_ula-IsScheduled :
    (s : StoreState) (now : ℕ) (a : Advertised)
    → IsScheduled s
    → IsScheduled (withdrawn_ula s now a)
unfolding withdrawn_ula
withdrawn_ula-IsScheduled s now a good =
    if-holds IsScheduled (waits_for_line a || still_given s.ula (lan_index s.lans a.iface) a.prefix)
      s _ good
      (if-holds IsScheduled (ltb now (recorded_until s now a)) (record s { revoked = _ }) s
        (record { timed = good.timed; real = good.real }) good)

withdraw_ula_from-IsScheduled :
    (s : StoreState) (now : ℕ) (as_ : List Advertised)
    → IsScheduled s
    → IsScheduled (withdraw_ula_from s now as_)
unfolding withdraw_ula_from
withdraw_ula_from-IsScheduled s now [] good = good
withdraw_ula_from-IsScheduled s now (a ∷ as_) good =
    withdraw_ula_from-IsScheduled (withdrawn_ula s now a) now as_
      (withdrawn_ula-IsScheduled s now a good)

withdraw_ula-IsScheduled :
    (s : StoreState) (now : ℕ) (record_ : Option (List Advertised))
    → IsScheduled s
    → IsScheduled (withdraw_ula s now record_)
unfolding withdraw_ula
withdraw_ula-IsScheduled s now none good = record { timed = good.timed; real = good.real }
withdraw_ula-IsScheduled s now (some as_) good =
    let t = withdraw_ula_from-IsScheduled s now as_ good in
    record { timed = t.timed; real = t.real }

-- A store that starts has nothing to publish.
literal-IsScheduled :
    (prefer : PrefixSource) (lans : List LanDef) (hold : ℕ) (ula : List Prefix) (mape_rule : Bool)
    (grace settle : ℕ) (has_file : Bool) (record_ : Option (List Advertised)) (now : ℕ)
    → IsScheduled (literal prefer lans hold ula mape_rule grace settle has_file record_ now)
unfolding literal
literal-IsScheduled prefer lans hold ula mape_rule grace settle has_file record_ now = record {
  timed = λ c h. absurd (none_ne_some h);
  real = none_ne_some;
}

start-IsScheduled :
    (s : StoreState) (now clock : ℕ) → IsScheduled s → IsScheduled (start s now clock)
unfolding start
start-IsScheduled s now clock good =
    let t = withdraw_ula s now s.previous in
    let t-good = withdraw_ula-IsScheduled s now s.previous good in
    if-holds IsScheduled (ltb 0 (length s.ula) || ltb 0 (length t.revoked)) (recompute t now clock)
      t (recompute-IsScheduled t now clock t-good) t-good

same-IsScheduled :
    (s t : StoreState)
    → t.pending ≡ s.pending
    → t.pub_timer ≡ s.pub_timer
    → IsScheduled s
    → IsScheduled t
same-IsScheduled s t a b good = record { timed = rw (a, b) good.timed; real = rw a good.real }

-- In every state that the store reaches, a change that waits to be published has its timer, and is
-- not the change that stands for none.
pub Reach-IsScheduled :
    {own : Prefix → Bool} {bound : ℕ} {s : StoreState} → Reach own bound s → IsScheduled s
unfolding new_store on_set on_conflict on_captured on_nat64 on_aftr on_self on_subscribe on_receive
Reach-IsScheduled
      (started prefer lans hold ula mape_rule grace settle has_file record_ now clock own_ula h
        owned) =
    start-IsScheduled (literal prefer lans hold ula mape_rule grace settle has_file record_ now) now
      clock (literal-IsScheduled prefer lans hold ula mape_rule grace settle has_file record_ now)
Reach-IsScheduled (sets {s} source u now clock h r) = recompute-IsScheduled _ now clock (
    if-holds IsScheduled (is_pd source) (record s { ula_pd = _; sources = _ })
      (record s { sources = _ })
      (same-IsScheduled s (record s { ula_pd = _; sources = _ }) refl refl (Reach-IsScheduled r))
      (same-IsScheduled s (record s { sources = _ }) refl refl (Reach-IsScheduled r)))
Reach-IsScheduled (conflicts {s} addr conflict now clock r) =
    recompute-IsScheduled (record s { conflicts = _ }) now clock
      (same-IsScheduled s (record s { conflicts = _ }) refl refl (Reach-IsScheduled r))
Reach-IsScheduled (captures {s} g now clock r) =
    recompute-IsScheduled (record s { captured = g }) now clock
      (same-IsScheduled s (record s { captured = g }) refl refl (Reach-IsScheduled r))
Reach-IsScheduled (translates {s} p now clock r) =
    recompute-IsScheduled (record s { nat64 = p }) now clock
      (same-IsScheduled s (record s { nat64 = p }) refl refl (Reach-IsScheduled r))
Reach-IsScheduled (resolves {s} name addrs now clock r) =
    recompute-IsScheduled (record s { aftr_name = name; aftr_addrs = addrs }) now clock
      (same-IsScheduled s (record s { aftr_name = name; aftr_addrs = addrs }) refl refl
        (Reach-IsScheduled r))
Reach-IsScheduled (moves {s} p a now clock r) =
    recompute-IsScheduled (record s { self = _ }) now clock
      (same-IsScheduled s (record s { self = _ }) refl refl (Reach-IsScheduled r))
Reach-IsScheduled (expires {s} now clock r) =
    recompute-IsScheduled s now clock (Reach-IsScheduled r)
Reach-IsScheduled (publishes {s} t h r) = publish-IsScheduled s
Reach-IsScheduled (subscribes {s} r) =
    same-IsScheduled s (record s { subs = _ }) refl refl (Reach-IsScheduled r)
Reach-IsScheduled (receives {s} i r) =
    same-IsScheduled s (record s { subs = _ }) refl refl (Reach-IsScheduled r)
