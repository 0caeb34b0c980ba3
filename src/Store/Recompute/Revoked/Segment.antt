-- ===== src/Store/Recompute/Revoked/Segment.antt =====
-- A segment and what is withdrawn from it in the snapshot of `recompute` (prefix.go).
use sixup.Common.{
  ℕ, ◌≡◌, ◌∙◌, inl, inr, refl, Bool, true, false, ◌&&◌, ◌||◌, List, [], ◌∷◌, ◌++◌, arith,
  Bool-cases, any, put, put-here, put-further, get-here, get-further, or-left, or-right, or-split,
  and-split, bytes_eq, bytes_eq_iff,
}
use sixup.Netip.{Prefix, prefix_eq}
use package.sixup.Store.{LinePrefix}
use package.sixup.Store.Subnet.{lan_of, value_of}
use package.sixup.Store.Handout.{append_lan}

-- Is the prefix among these with lifetimes 0, as a withdrawal?
unfoldable pub is_gone : Prefix → LinePrefix → Bool
is_gone q p = prefix_eq p.prefix q && (p.deprecated && p.stale)

gone_in : Prefix → List LinePrefix → Bool
gone_in q ps = any (is_gone q) ps

-- Is it withdrawn from the hosts of the segment?
unfoldable pub withdrawn_on : List ℕ → Prefix → List (List ℕ × List LinePrefix) → Bool
unfolding gone_in
withdrawn_on iface q [] = false
withdrawn_on iface q ((j, ps) ∷ lan) = bytes_eq j iface && gone_in q ps || withdrawn_on iface q lan

gone_in-last :
    (q : Prefix) (ps : List LinePrefix) (p : LinePrefix)
    → gone_in q (ps ++ (p ∷ [])) ≡ (gone_in q ps || is_gone q p)
unfolding gone_in
gone_in-last q [] p = ground arith
gone_in-last q (x ∷ ps) p = ground (arith, gone_in-last q ps p)

module _ (iface : List ℕ) (q : Prefix) where
  put-withdrawn_on :
      (k : List ℕ) (new : List LinePrefix) (lan : List (List ℕ × List LinePrefix))
      → bytes_eq k iface ≡ true
      → gone_in q new ≡ true
      → withdrawn_on iface q (put bytes_eq k new lan) ≡ true
  unfolding withdrawn_on
  put-withdrawn_on k new [] same h = unfold put in ground (arith, same, h)
  put-withdrawn_on k new ((j, ps) ∷ lan) same h = elim (Bool-cases (bytes_eq j k)) [
    | inl here ↦
        let at_iface : bytes_eq j iface ≡ true = rw ((bytes_eq_iff j k).0 here) same in
        rw (put-here bytes_eq k new j ps lan here) (ground (arith, at_iface, h))
    | inr further ↦ rw (put-further bytes_eq k new j ps lan further) (
        or-right (bytes_eq j iface && gone_in q ps) (withdrawn_on iface q (put bytes_eq k new lan))
          (put-withdrawn_on k new lan same h))
  ]

  put-withdrawn_on-keeps :
      (k : List ℕ) (new : List LinePrefix) (lan : List (List ℕ × List LinePrefix))
      → (gone_in q (lan_of lan k) ≡ true → gone_in q new ≡ true)
      → withdrawn_on iface q lan ≡ true
      → withdrawn_on iface q (put bytes_eq k new lan) ≡ true
  unfolding withdrawn_on lan_of value_of
  put-withdrawn_on-keeps k new [] more h = absurd (ground arith)
  put-withdrawn_on-keeps k new ((j, ps) ∷ lan) more h = elim (Bool-cases (bytes_eq j k)) [
    | inl here ↦
        let grows = rw (get-here bytes_eq k j ps lan here) at more in
        rw (put-here bytes_eq k new j ps lan here)
          (elim (or-split (bytes_eq j iface && gone_in q ps) (withdrawn_on iface q lan) h) [
            | inl first ↦
                let (at_iface, gone) = and-split (bytes_eq j iface) (gone_in q ps) first in
                or-left (bytes_eq j iface && gone_in q new) (withdrawn_on iface q lan)
                  (rw (at_iface, grows gone) refl)
            | inr rest ↦
                or-right (bytes_eq j iface && gone_in q new) (withdrawn_on iface q lan) rest
          ])
    | inr further ↦
        let grows = rw (get-further bytes_eq k j ps lan further) at more in
        rw (put-further bytes_eq k new j ps lan further)
          (elim (or-split (bytes_eq j iface && gone_in q ps) (withdrawn_on iface q lan) h) [
            | inl first ↦
                or-left (bytes_eq j iface && gone_in q ps)
                  (withdrawn_on iface q (put bytes_eq k new lan)) first
            | inr rest ↦
                or-right (bytes_eq j iface && gone_in q ps)
                  (withdrawn_on iface q (put bytes_eq k new lan))
                  (put-withdrawn_on-keeps k new lan grows rest)
          ])
  ]

  pub append_lan-withdrawn_on-keeps :
      (k : List ℕ) (p : LinePrefix) (lan : List (List ℕ × List LinePrefix))
      → withdrawn_on iface q lan ≡ true
      → withdrawn_on iface q (append_lan k p lan) ≡ true
  unfolding append_lan
  append_lan-withdrawn_on-keeps k p lan h =
      put-withdrawn_on-keeps k (lan_of lan k ++ (p ∷ [])) lan
        (λ e. gone_in-last q (lan_of lan k) p ∙ or-left (gone_in q (lan_of lan k)) (is_gone q p) e)
        h

  pub append_lan-withdrawn_on :
      (k : List ℕ) (p : LinePrefix) (lan : List (List ℕ × List LinePrefix))
      → bytes_eq k iface ≡ true
      → is_gone q p ≡ true
      → withdrawn_on iface q (append_lan k p lan) ≡ true
  unfolding append_lan
  append_lan-withdrawn_on k p lan same h =
      put-withdrawn_on k (lan_of lan k ++ (p ∷ [])) lan same
        (gone_in-last q (lan_of lan k) p ∙ or-right (gone_in q (lan_of lan k)) (is_gone q p) h)
