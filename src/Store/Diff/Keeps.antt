-- ===== src/Store/Diff/Keeps.antt =====
-- What a withdrawal keeps, whatever it withdraws, the comparison with the snapshot before keeps.
use sixup.Common.{
  ℕ, ◌+◌, min, not, ◌||◌, List, [], ◌∷◌, Option, none, some, ◌==◌, ltb, if-holds, length,
}
use sixup.Netip.{Prefix}
use package.sixup.Store.{LinePrefix, SourceUpdate}
use package.sixup.Store.State.{StoreState, Advertised}
use package.sixup.Store.Handout.{Work, prefix_in}
use package.sixup.Store.Diff.{
  revoke, withdraw_recorded, withdraw_all, after_restart, has_iface, revoke_gone, revoke_gone_of,
  revoke_all_gone, revoke_wan, revoke_all_wan,
}

module _ (I : Work → Type 0) where
  pub revoke_all_wan-keeps :
      ((w : Work) (ps : List (Prefix × LinePrefix)) → I w → I (record w { revoked_w = ps }))
      → (now : ℕ) (ops : List LinePrefix) (w : Work) → I w
      → I (revoke_all_wan now ops w)
  unfolding revoke_all_wan
  revoke_all_wan-keeps wans now [] w good = good
  revoke_all_wan-keeps wans now (op ∷ ops) w good =
      revoke_all_wan-keeps wans now ops (revoke_wan now op w) (
        unfold revoke_wan in
        if-holds I (prefix_in op.prefix w.active_w || op.deprecated) w (record w { revoked_w = _ })
          good (wans w _ good))

  module _
      (revokes : (iface : List ℕ) (p : Prefix) (gone : LinePrefix) (w : Work)
        → I w
        → I (revoke iface p gone w)) where
    withdraw_recorded-keeps :
        (s : StoreState) (now : ℕ) (a : Advertised) (w : Work)
        → I w
        → I (withdraw_recorded s now a w)
    unfolding withdraw_recorded
    withdraw_recorded-keeps s now a w good =
        if-holds I (prefix_in a.prefix w.active || not (has_iface s.lans a.iface)) w _ good (
          if-holds I (ltb now (min (now + s.hold) a.valid)) _ w (revokes a.iface a.prefix _ w good)
            good)

    withdraw_all-keeps :
        (s : StoreState) (now : ℕ) (as_ : List Advertised) (w : Work)
        → I w
        → I (withdraw_all s now as_ w)
    unfolding withdraw_all
    withdraw_all-keeps s now [] w good = good
    withdraw_all-keeps s now (a ∷ as_) w good =
        withdraw_all-keeps s now as_ (withdraw_recorded s now a w)
          (withdraw_recorded-keeps s now a w good)

    pub after_restart-keeps :
        (s : StoreState) (now : ℕ) (u : SourceUpdate) (previous : Option (List Advertised))
        (w : Work)
        → I w
        → I (after_restart s now u previous w)
    unfolding after_restart
    after_restart-keeps s now u none w good = good
    after_restart-keeps s now u (some as_) w good =
        if-holds I (length u.prefixes == 0) w (withdraw_all s now as_ w) good
          (withdraw_all-keeps s now as_ w good)

    revoke_gone-keeps :
        (s : StoreState) (now : ℕ) (iface : List ℕ) (op : LinePrefix) (w : Work)
        → I w
        → I (revoke_gone s now iface op w)
    unfolding revoke_gone
    revoke_gone-keeps s now iface op w good =
        if-holds I (prefix_in op.prefix w.active || op.deprecated) w _ good
          (revokes iface op.prefix _ w good)

    revoke_gone_of-keeps :
        (s : StoreState) (now : ℕ) (iface : List ℕ) (ops : List LinePrefix) (w : Work)
        → I w
        → I (revoke_gone_of s now iface ops w)
    unfolding revoke_gone_of
    revoke_gone_of-keeps s now iface [] w good = good
    revoke_gone_of-keeps s now iface (op ∷ ops) w good =
        revoke_gone_of-keeps s now iface ops (revoke_gone s now iface op w)
          (revoke_gone-keeps s now iface op w good)

    pub revoke_all_gone-keeps :
        (s : StoreState) (now : ℕ) (lan : List (List ℕ × List LinePrefix)) (w : Work)
        → I w
        → I (revoke_all_gone s now lan w)
    unfolding revoke_all_gone
    revoke_all_gone-keeps s now [] w good = good
    revoke_all_gone-keeps s now ((iface, olds) ∷ lan) w good =
        revoke_all_gone-keeps s now lan (revoke_gone_of s now iface olds w)
          (revoke_gone_of-keeps s now iface olds w good)
