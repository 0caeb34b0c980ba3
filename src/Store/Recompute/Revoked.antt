-- ===== src/Store/Recompute/Revoked.antt =====
-- Which prefixes are on a LAN, for the withdrawals of `recompute` (prefix.go).
pub mod Segment
pub mod Withdrawn
pub mod Covers
pub mod Kept
use sixup.Common.{
  ℕ, ◌+◌, ◌<◌, ◌≤◌, ◌≡◌, ◌⊎◌, inl, inr, refl, min, Bool, true, false, not, ◌&&◌, ◌||◌, List, [],
  ◌∷◌, ◌++◌, Option, none, some, ◌==◌, ltb, if◌then◌else◌, arith, Bool-cases, Option-cases, All,
  AllValues, any, put, put-here, put-further, get-here, get-further, or-left, or-right, or-split,
  delete, get, bytes_eq, if-holds, length, ap, sym, ◌∙◌,
}
use sixup.Netip.{Addr, addr_eq, Prefix, prefix_eq, is_private}
use sixup.Netip.Laws.{addr_eq_iff, prefix_eq_iff}
use package.sixup.Store.{PrefixSource, ChangeKind, LinePrefix, SourceUpdate, Snapshot}
use package.sixup.Store.State.{StoreState, RevokedLan, Advertised}
use package.sixup.Store.Subnet.{LanDef, lan_of, value_of}
use package.sixup.Store.Handout.{Work, append_lan, prefix_in}
use package.sixup.Store.Diff.{withdrawn, revoke, revoke_gone, keep_lan, keep_lans}

-- Is the prefix one of a segment's, or of any segment's?
unfoldable pub has_prefix : Prefix → List LinePrefix → Bool
has_prefix q ps = any (λ (p : LinePrefix). prefix_eq p.prefix q) ps

unfoldable pub in_lan : Prefix → List (List ℕ × List LinePrefix) → Bool
in_lan q [] = false
in_lan q ((iface, ps) ∷ lan) = has_prefix q ps || in_lan q lan

has_prefix-last :
    (q : Prefix) (ps : List LinePrefix) (p : LinePrefix)
    → has_prefix q (ps ++ (p ∷ [])) ≡ (has_prefix q ps || prefix_eq p.prefix q)
unfolding has_prefix
has_prefix-last q [] p = ground arith
has_prefix-last q (x ∷ ps) p = ground (arith, has_prefix-last q ps p)

put-in_lan :
    (q : Prefix) (iface : List ℕ) (new : List LinePrefix) (lan : List (List ℕ × List LinePrefix))
    → has_prefix q new ≡ true
    → in_lan q (put bytes_eq iface new lan) ≡ true
unfolding in_lan
put-in_lan q iface new [] h = unfold put in or-left (has_prefix q new) false h
put-in_lan q iface new ((j, ps) ∷ lan) h = elim (Bool-cases (bytes_eq j iface)) [
  | inl here ↦
      rw (put-here bytes_eq iface new j ps lan here) (or-left (has_prefix q new) (in_lan q lan) h)
  | inr further ↦ rw (put-further bytes_eq iface new j ps lan further) (
      or-right (has_prefix q ps) (in_lan q (put bytes_eq iface new lan))
        (put-in_lan q iface new lan h))
]

put-in_lan-keeps :
    (q : Prefix) (iface : List ℕ) (new : List LinePrefix) (lan : List (List ℕ × List LinePrefix))
    → (has_prefix q (lan_of lan iface) ≡ true → has_prefix q new ≡ true)
    → in_lan q lan ≡ true
    → in_lan q (put bytes_eq iface new lan) ≡ true
unfolding in_lan lan_of value_of
put-in_lan-keeps q iface new [] more h = absurd (ground arith)
put-in_lan-keeps q iface new ((j, ps) ∷ lan) more h = elim (Bool-cases (bytes_eq j iface)) [
  | inl here ↦
      let grows = rw (get-here bytes_eq iface j ps lan here) at more in
      rw (put-here bytes_eq iface new j ps lan here)
        (elim (or-split (has_prefix q ps) (in_lan q lan) h) [
          | inl first ↦ or-left (has_prefix q new) (in_lan q lan) (grows first)
          | inr rest ↦ or-right (has_prefix q new) (in_lan q lan) rest
        ])
  | inr further ↦
      let grows = rw (get-further bytes_eq iface j ps lan further) at more in
      rw (put-further bytes_eq iface new j ps lan further)
        (elim (or-split (has_prefix q ps) (in_lan q lan) h) [
          | inl first ↦ or-left (has_prefix q ps) (in_lan q (put bytes_eq iface new lan)) first
          | inr rest ↦
              or-right (has_prefix q ps) (in_lan q (put bytes_eq iface new lan))
                (put-in_lan-keeps q iface new lan grows rest)
        ])
]

pub append_lan-keeps :
    (q : Prefix) (iface : List ℕ) (p : LinePrefix) (lan : List (List ℕ × List LinePrefix))
    → in_lan q lan ≡ true
    → in_lan q (append_lan iface p lan) ≡ true
unfolding append_lan
append_lan-keeps q iface p lan h =
    put-in_lan-keeps q iface (lan_of lan iface ++ (p ∷ [])) lan
      (λ e.
        has_prefix-last q (lan_of lan iface) p
        ∙ or-left (has_prefix q (lan_of lan iface)) (prefix_eq p.prefix q) e)
      h

pub append_lan-has :
    (iface : List ℕ) (p : LinePrefix) (lan : List (List ℕ × List LinePrefix))
    → in_lan p.prefix (append_lan iface p lan) ≡ true
unfolding append_lan
append_lan-has iface p lan = put-in_lan p.prefix iface (lan_of lan iface ++ (p ∷ [])) lan (
    has_prefix-last p.prefix (lan_of lan iface) p
    ∙ or-right (has_prefix p.prefix (lan_of lan iface)) (prefix_eq p.prefix p.prefix)
        ((prefix_eq_iff p.prefix p.prefix).1 refl))
