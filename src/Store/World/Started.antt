-- ===== src/Store/World/Started.antt =====
-- What the store grants when it starts, the withdrawal of the recorded prefixes included.
use sixup.Common.{
  ℕ, ◌≤◌, ◌≡◌, true, inl, inr, Bool-cases, arith, Bool, ◌||◌, List, [], ◌∷◌, Option, none, some,
  ltb, All, put, put-AllValues, if-holds, length,
}
use sixup.Netip.{Prefix, prefix_eq}
use package.sixup.Store.{PrefixSource, source_pd, source_ra, source_ula, source_static, no_source}
use package.sixup.Store.State.{StoreState, source_of, update_or_none, Advertised, RevokedLan}
use package.sixup.Store.Subnet.{LanDef}
use package.sixup.Store.Diff.{withdrawn}
use package.sixup.Store.Recompute.{recompute}
use package.sixup.Store.Recompute.Granted.{IsWithin, OwnUla}
use package.sixup.Store.World.{OwnRecord}
use package.sixup.Store.Recompute.Bounded.{RecordWithin}
use package.sixup.Store.Recompute.Within.{Ends, StoreWithin, recompute-StoreWithin}
use package.sixup.Store.Messages.{
  withdraw_ula_from, withdrawn_ula, withdraw_ula, still_given, lan_index, list_or_nil,
  waits_for_line, recorded_until, waiting, literal, start, new_store,
}

module _ (own : Prefix → Bool) (bound : ℕ) where
  withdrawn_ula-StoreWithin :
      (s : StoreState) (now : ℕ) (a : Advertised)
      → (waits_for_line a || own a.prefix) ≡ true
      → StoreWithin own bound s
      → StoreWithin own bound (withdrawn_ula s now a)
  unfolding withdrawn_ula
  withdrawn_ula-StoreWithin s now a owned good =
      let gone : RevokedLan = record {
        iface = a.iface;
        p = withdrawn now (recorded_until s now a) source_ula a.prefix;
      } in
      elim (Bool-cases
        (waits_for_line a || still_given s.ula (lan_index s.lans a.iface) a.prefix)) [
          | inl left ↦ rw left good
          | inr goes ↦
              let named : IsWithin own bound gone.p =
                unfold IsWithin withdrawn in inl (ground (arith, goes, owned)) in
              rw goes (
                if-holds (StoreWithin own bound) (ltb now (recorded_until s now a))
                  (record s { revoked = put prefix_eq a.prefix gone s.revoked }) s
                  (record {
                    ula = good.ula;
                    sources = good.sources;
                    ula_pd = good.ula_pd;
                    lan = good.lan;
                    revoked =
                        put-AllValues prefix_eq (λ (r : RevokedLan). IsWithin own bound r.p)
                          a.prefix gone s.revoked named good.revoked;
                    previous = good.previous;
                  })
                  good)
        ]

  withdraw_ula_from-StoreWithin :
      (s : StoreState) (now : ℕ) (as_ : List Advertised)
      → All (λ (a : Advertised). (waits_for_line a || own a.prefix) ≡ true) as_
      → StoreWithin own bound s
      → StoreWithin own bound (withdraw_ula_from s now as_)
  unfolding withdraw_ula_from
  withdraw_ula_from-StoreWithin s now [] all good = good
  withdraw_ula_from-StoreWithin s now (a ∷ as_) all good =
      withdraw_ula_from-StoreWithin (withdrawn_ula s now a) now as_ all.1
        (withdrawn_ula-StoreWithin s now a all.0 good)

  waiting-within :
      (as_ : List Advertised)
      → All (λ (a : Advertised). a.valid ≤ bound) as_
      → All (λ (a : Advertised). a.valid ≤ bound) (waiting as_)
  unfolding waiting
  waiting-within [] all = tt
  waiting-within (a ∷ as_) all =
      if-holds (All (λ (x : Advertised). x.valid ≤ bound)) (waits_for_line a) (a ∷ waiting as_)
        (waiting as_) (all.0, waiting-within as_ all.1) (waiting-within as_ all.1)

  RecordWithin-waiting :
      (as_ : List Advertised)
      → All (λ (a : Advertised). a.valid ≤ bound) as_
      → RecordWithin bound (list_or_nil as_)
  unfolding list_or_nil RecordWithin
  RecordWithin-waiting [] all = tt
  RecordWithin-waiting (a ∷ as_) all = all

  withdraw_ula-StoreWithin :
      (s : StoreState) (now : ℕ) (record_ : Option (List Advertised))
      → RecordWithin bound record_
      → OwnRecord own record_
      → StoreWithin own bound s
      → StoreWithin own bound (withdraw_ula s now record_)
  unfolding withdraw_ula RecordWithin OwnRecord
  withdraw_ula-StoreWithin s now none h owned good = record {
    ula = good.ula;
    sources = good.sources;
    ula_pd = good.ula_pd;
    lan = good.lan;
    revoked = good.revoked;
    previous = tt;
  }
  withdraw_ula-StoreWithin s now (some as_) h owned good =
      let t = withdraw_ula_from-StoreWithin s now as_ owned good in
      record {
        ula = t.ula;
        sources = t.sources;
        ula_pd = t.ula_pd;
        lan = t.lan;
        revoked = t.revoked;
        previous = RecordWithin-waiting (waiting as_) (waiting-within as_ h);
      }

  start_sources :
      (name : PrefixSource)
      → Ends bound
          (update_or_none
            (source_of (record { pd = none; ra = none; ula = none; static = none }) name)).prefixes
  unfolding source_of update_or_none Ends
  start_sources source_pd = tt
  start_sources source_ra = tt
  start_sources source_ula = tt
  start_sources source_static = tt
  start_sources no_source = tt

  literal-StoreWithin :
      (prefer : PrefixSource) (lans : List LanDef) (hold : ℕ) (ula : List Prefix) (mape_rule : Bool)
      (grace settle : ℕ) (has_file : Bool) (record_ : Option (List Advertised)) (now : ℕ)
      → OwnUla own ula
      → RecordWithin bound record_
      → StoreWithin own bound
          (literal prefer lans hold ula mape_rule grace settle has_file record_ now)
  unfolding literal Ends
  literal-StoreWithin prefer lans hold ula mape_rule grace settle has_file record_ now own_ula h =
      record {
        ula = own_ula;
        sources = start_sources;
        ula_pd = tt;
        lan = tt;
        revoked = tt;
        previous = h;
      }

  start-StoreWithin :
      (s : StoreState) (now clock : ℕ)
      → OwnRecord own s.previous
      → StoreWithin own bound s
      → StoreWithin own bound (start s now clock)
  unfolding start
  start-StoreWithin s now clock owned good =
      let t = withdraw_ula s now s.previous in
      let t-within = withdraw_ula-StoreWithin s now s.previous good.previous owned good in
      if-holds (StoreWithin own bound) (ltb 0 (length s.ula) || ltb 0 (length t.revoked))
        (recompute t now clock) t (recompute-StoreWithin own bound t now clock t-within) t-within

  pub new_store-StoreWithin :
      (prefer : PrefixSource) (lans : List LanDef) (hold : ℕ) (ula : List Prefix) (mape_rule : Bool)
      (grace settle : ℕ) (has_file : Bool) (record_ : Option (List Advertised)) (now clock : ℕ)
      → OwnUla own ula
      → RecordWithin bound record_
      → OwnRecord own record_
      → StoreWithin own bound
          (new_store prefer lans hold ula mape_rule grace settle has_file record_ now clock)
  unfolding new_store
  new_store-StoreWithin prefer lans hold ula mape_rule grace settle has_file record_ now clock
        own_ula h owned =
      start-StoreWithin (literal prefer lans hold ula mape_rule grace settle has_file record_ now)
        now clock (unfold literal in owned)
        (literal-StoreWithin prefer lans hold ula mape_rule grace settle has_file record_ now
          own_ula h)
