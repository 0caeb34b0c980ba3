-- ===== src/Store/Diff.antt =====
-- The stages of `recompute` (prefix.go) that compare with the snapshot before: prefixes that went
-- enter their deprecate period, those whose period is over leave.
pub mod Keeps
use sixup.Common.{
  ℕ, ◌+◌, ◌*◌, min, Bool, true, false, not, ◌&&◌, ◌||◌, List, [], ◌∷◌, ◌++◌, Option, none, some,
  ◌==◌, ltb, if◌then◌else◌, any, length, put, bytes_eq,
}
use sixup.Netip.{Prefix, prefix_eq, is_private}
use package.sixup.Store.{
  PrefixSource, source_pd, source_ula, ChangeKind, change_revoke, LinePrefix, no_line_prefix,
  SourceUpdate, Snapshot,
}
use package.sixup.Store.State.{StoreState, RevokedLan, Advertised}
use package.sixup.Store.Subnet.{LanDef}
use package.sixup.Store.Handout.{Work, prefix_in, append_lan}

-- A withdrawn prefix, advertised with lifetimes 0 until an instant.
unfoldable pub withdrawn : ℕ → ℕ → PrefixSource → Prefix → LinePrefix
withdrawn now until source p = record no_line_prefix {
  prefix = p;
  preferred = now;
  valid = until;
  source = source;
  deprecated = true;
  stale = true;
}

unfoldable pub revoke : List ℕ → Prefix → LinePrefix → Work → Work
revoke iface p gone w = record w {
  revoked = put prefix_eq p (record { iface = iface; p = gone }) w.revoked;
  change = change_revoke;
}

unfoldable pub has_iface : List LanDef → List ℕ → Bool
has_iface lans iface = any (λ (l : LanDef). bytes_eq l.iface iface) lans

-- The prefixes advertised before a restart.
unfoldable pub withdraw_recorded : StoreState → ℕ → Advertised → Work → Work
unfolding has_iface
withdraw_recorded s now a w =
    let until = min (now + s.hold) a.valid in
    let source = if is_private a.prefix.ip then source_ula else source_pd in
    if prefix_in a.prefix w.active || not (has_iface s.lans a.iface)
    then w
    else if ltb now until
    then revoke a.iface a.prefix (withdrawn now until source a.prefix) w
    else w

unfoldable pub withdraw_all : StoreState → ℕ → List Advertised → Work → Work
withdraw_all s now [] w = w
withdraw_all s now (a ∷ as_) w = withdraw_all s now as_ (withdraw_recorded s now a w)

unfoldable pub after_restart :
    StoreState → ℕ → SourceUpdate → Option (List Advertised) → Work → Work
after_restart s now u none w = w
after_restart s now u (some as_) w = if length u.prefixes == 0 then w else withdraw_all s now as_ w

-- `s.previous` after it.
unfoldable pub previous_after : SourceUpdate → Option (List Advertised) → Option (List Advertised)
previous_after u previous = if length u.prefixes == 0 then previous else none

-- The LAN prefixes of the snapshot before.
unfoldable pub revoke_gone : StoreState → ℕ → List ℕ → LinePrefix → Work → Work
revoke_gone s now iface op w =
    if prefix_in op.prefix w.active || op.deprecated
    then w
    else revoke iface op.prefix (withdrawn now (min (now + s.hold) op.valid) op.source op.prefix) w

unfoldable pub revoke_gone_of : StoreState → ℕ → List ℕ → List LinePrefix → Work → Work
revoke_gone_of s now iface [] w = w
revoke_gone_of s now iface (op ∷ ops) w =
    revoke_gone_of s now iface ops (revoke_gone s now iface op w)

unfoldable pub revoke_all_gone : StoreState → ℕ → List (List ℕ × List LinePrefix) → Work → Work
revoke_all_gone s now [] w = w
revoke_all_gone s now ((iface, olds) ∷ lan) w =
    revoke_all_gone s now lan (revoke_gone_of s now iface olds w)

-- `wanRevokeHold`.
abbrev pub wan_hold : ℕ
wan_hold = 600 * 1000000000

-- The WAN prefixes of the snapshot before.
unfoldable pub revoke_wan : ℕ → LinePrefix → Work → Work
revoke_wan now op w = if prefix_in op.prefix w.active_w || op.deprecated then w else record w {
  revoked_w =
      put prefix_eq op.prefix
        (record (withdrawn now (min (now + wan_hold) op.valid) op.source op.prefix) {
          slaac = op.slaac;
          off_link = op.off_link;
        })
        w.revoked_w;
}

unfoldable pub revoke_all_wan : ℕ → List LinePrefix → Work → Work
revoke_all_wan now [] w = w
revoke_all_wan now (op ∷ ops) w = revoke_all_wan now ops (revoke_wan now op w)

-- The loop over `revoked`: what is over leaves, the rest is advertised. The map is read as it
-- was, and built again.
unfoldable pub keep_lan : ℕ → Prefix → RevokedLan → Work → Work
keep_lan now k r w =
    if ltb now r.p.valid
    then record w {
      next = record w.next { lan = append_lan r.iface r.p w.next.lan };
      revoked = w.revoked ++ ((k, r) ∷ []);
    }
    else record w { change = change_revoke }

unfoldable pub keep_lans : ℕ → List (Prefix × RevokedLan) → Work → Work
keep_lans now [] w = w
keep_lans now ((k, r) ∷ rs) w = keep_lans now rs (keep_lan now k r w)

unfoldable pub keep_wan : ℕ → Prefix → LinePrefix → Work → Work
keep_wan now k p w =
    if ltb now p.valid
    then record w {
      next = record w.next { wan = w.next.wan ++ (p ∷ []) };
      revoked_w = w.revoked_w ++ ((k, p) ∷ []);
    }
    else record w { change = change_revoke }

unfoldable pub keep_wans : ℕ → List (Prefix × LinePrefix) → Work → Work
keep_wans now [] w = w
keep_wans now ((k, p) ∷ ps) w = keep_wans now ps (keep_wan now k p w)

-- All of the comparison.
unfoldable pub withdrew : StoreState → ℕ → SourceUpdate → Work → Work
withdrew s now u w =
    revoke_all_wan now s.cur.wan
      (revoke_all_gone s now s.cur.lan (after_restart s now u s.previous w))

unfoldable pub kept : ℕ → Work → Work
kept now w =
    let lans = keep_lans now w.revoked (record w { revoked = [] }) in
    keep_wans now lans.revoked_w (record lans { revoked_w = [] })
