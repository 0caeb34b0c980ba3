-- ===== src/Store/Recompute/Revoked/Withdrawn.antt =====
-- A prefix that is handed out, and one whose withdrawal lasts.
use sixup.Common.{
  ℕ, ◌≡◌, ◌⊎◌, inl, inr, refl, Bool, true, false, ◌&&◌, ◌||◌, List, [], ◌∷◌, Option, none, some,
  ltb, arith, Bool-cases, any, bytes_eq, put, put-here, put-further, or-left, or-right, or-split,
}
use sixup.Netip.{Prefix, prefix_eq}
use sixup.Netip.Laws.{prefix_eq_iff}
use package.sixup.Store.{PrefixSource, LinePrefix, SourceUpdate}
use package.sixup.Store.State.{StoreState, RevokedLan}
use package.sixup.Store.Subnet.{LanDef, split_lan}
use package.sixup.Store.Handout.{Work, prefix_in, give, on_wan, marked, handed_out, site_ula}
use package.sixup.Store.Handout.Keeps.{All-units, handed_out-keeps}
use package.sixup.Store.Recompute.Revoked.Segment.{is_gone}
use package.sixup.Store.Recompute.Revoked.{in_lan, append_lan-keeps, append_lan-has}

-- What is handed out is on a LAN.
unfoldable pub IsHandedOut : Work → Type 0
IsHandedOut w = (q : Prefix) → prefix_in q w.active ≡ true → in_lan q w.next.lan ≡ true

give-IsHandedOut :
    (w : Work) (l : LanDef) (p : LinePrefix) (sub : Option Prefix)
    → Unit {0}
    → IsHandedOut w
    → IsHandedOut (give w l p sub)
unfolding give IsHandedOut prefix_in
give-IsHandedOut w l p none h good = good
give-IsHandedOut w l p (some sub) h good = λ q active.
    elim (or-split (prefix_eq q sub) (any (prefix_eq q) w.active) active) [
      | inl this ↦
          rw ((prefix_eq_iff q sub).0 this)
            (append_lan-has l.iface (record p { prefix = sub }) w.next.lan)
      | inr other ↦ append_lan-keeps q l.iface (record p { prefix = sub }) w.next.lan (good q other)
    ]

on_wan-IsHandedOut : (w : Work) (p : LinePrefix) → IsHandedOut w → IsHandedOut (on_wan w p)
unfolding on_wan IsHandedOut
on_wan-IsHandedOut w p good = good

pub handed_out-IsHandedOut :
    (s : StoreState) (now : ℕ) (src : PrefixSource) (u : SourceUpdate) (w : Work)
    → IsHandedOut w
    → IsHandedOut (handed_out s now src u w)
handed_out-IsHandedOut s now src u w good =
    handed_out-keeps now IsHandedOut (λ p. Unit {0}) (λ p. Unit {0}) (λ p. Unit {0})
      give-IsHandedOut (λ v l up h g. give-IsHandedOut v l up (split_lan up.prefix l.index) h g)
      (λ v p valid g. on_wan-IsHandedOut v (marked now p) g) (λ v ula g. unfold IsHandedOut in g)
      (λ p valid x. tt) s src u w (All-units u.prefixes) (All-units (site_ula now s.ula s.ula_pd))
      good

-- An entry of the prefixes in their deprecate period that still lasts, as a withdrawal from the
-- segment.
unfoldable pub lasts : ℕ → List ℕ → Prefix → Prefix → RevokedLan → Bool
lasts now iface q k r =
    prefix_eq k q && (is_gone q r.p && (ltb now r.p.valid && bytes_eq r.iface iface))

unfoldable pub is_withdrawn : ℕ → List ℕ → Prefix → List (Prefix × RevokedLan) → Bool
is_withdrawn now iface q [] = false
is_withdrawn now iface q ((k, r) ∷ rs) = lasts now iface q k r || is_withdrawn now iface q rs

pub put-is_withdrawn :
    (now : ℕ) (iface : List ℕ) (p : Prefix) (r : RevokedLan) (rs : List (Prefix × RevokedLan))
    → ((k : Prefix) → prefix_eq k p ≡ true → lasts now iface p k r ≡ true)
    → is_withdrawn now iface p (put prefix_eq p r rs) ≡ true
unfolding is_withdrawn
put-is_withdrawn now iface p r [] h =
    unfold put in or-left (lasts now iface p p r) false (h p ((prefix_eq_iff p p).1 refl))
put-is_withdrawn now iface p r ((k, x) ∷ rs) h = elim (Bool-cases (prefix_eq k p)) [
  | inl here ↦
      rw (put-here prefix_eq p r k x rs here)
        (or-left (lasts now iface p k r) (is_withdrawn now iface p rs) (h k here))
  | inr further ↦ rw (put-further prefix_eq p r k x rs further) (
      or-right (lasts now iface p k x) (is_withdrawn now iface p (put prefix_eq p r rs))
        (put-is_withdrawn now iface p r rs h))
]

lasts-key :
    (now : ℕ) (iface : List ℕ) (q k : Prefix) (r : RevokedLan)
    → lasts now iface q k r ≡ true
    → prefix_eq k q ≡ true
unfolding lasts
lasts-key now iface q k r h = ground arith

pub put-is_withdrawn-keeps :
    (now : ℕ) (iface : List ℕ) (q p : Prefix) (r : RevokedLan) (rs : List (Prefix × RevokedLan))
    → ((k : Prefix) → prefix_eq k p ≡ true → prefix_eq k q ≡ true → lasts now iface q k r ≡ true)
    → is_withdrawn now iface q rs ≡ true
    → is_withdrawn now iface q (put prefix_eq p r rs) ≡ true
unfolding is_withdrawn
put-is_withdrawn-keeps now iface q p r [] h was = absurd (ground arith)
put-is_withdrawn-keeps now iface q p r ((k, x) ∷ rs) h was = elim (Bool-cases (prefix_eq k p)) [
  | inl here ↦
      rw (put-here prefix_eq p r k x rs here)
        (elim (or-split (lasts now iface q k x) (is_withdrawn now iface q rs) was) [
          | inl this ↦
              or-left (lasts now iface q k r) (is_withdrawn now iface q rs)
                (h k here (lasts-key now iface q k x this))
          | inr rest ↦ or-right (lasts now iface q k r) (is_withdrawn now iface q rs) rest
        ])
  | inr further ↦
      rw (put-further prefix_eq p r k x rs further)
        (elim (or-split (lasts now iface q k x) (is_withdrawn now iface q rs) was) [
          | inl this ↦
              or-left (lasts now iface q k x) (is_withdrawn now iface q (put prefix_eq p r rs)) this
          | inr rest ↦
              or-right (lasts now iface q k x) (is_withdrawn now iface q (put prefix_eq p r rs))
                (put-is_withdrawn-keeps now iface q p r rs h rest)
        ])
]

-- The prefix is still given, or its withdrawal lasts.
unfoldable pub IsCovered : ℕ → List ℕ → Prefix → Work → Type 0
IsCovered now iface q w =
    (prefix_in q w.active ≡ true) ⊎ (is_withdrawn now iface q w.revoked ≡ true)
