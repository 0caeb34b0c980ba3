-- ===== src/Mape/S46/Rule.antt =====
-- `bmrFor` picks the most specific rule for a delegated prefix.
use mathlib.Core.List.{Memᴰ}
use mathlib.Core.Option.{some-injective}
use sixup.Common.{
  ℕ, ◌+◌, ◌≡◌, Bool, true, ◌&&◌, List, [], ◌∷◌, Option, none, some, if◌then◌else◌, max, arith, inl,
  inr, Option-cases, ◌⊎◌, sym, ◌∙◌, ap,
}
use sixup.Netip.{Prefix, prefix_valid, bits, prefix_contains}
use package.sixup.Mape.{S46Rule}
use package.sixup.Mape.S46.{better, bmr_from, bmr_for}

-- Is the rule for the prefix?
unfoldable pub covers : Prefix → S46Rule → Bool
covers pd r = prefix_valid r.ipv6_prefix && prefix_contains r.ipv6_prefix pd.ip

-- How specific a rule is for the prefix, 0 for none of its rules.
unfoldable pub rank : Prefix → S46Rule → ℕ
rank pd r = if covers pd r then bits r.ipv6_prefix + 1 else 0

unfoldable pub top_rank : Prefix → List S46Rule → ℕ
top_rank pd [] = 0
top_rank pd (r ∷ rules) = max (rank pd r) (top_rank pd rules)

held : Option S46Rule → ℕ
held none = 0
held (some r) = bits r.ipv6_prefix + 1

-- A rule of the list that is for the prefix, none of the list more specific; or no rule of the
-- list is for the prefix.
pub IsMostSpecific : Prefix → List S46Rule → Option S46Rule → Type 0
IsMostSpecific pd rules none = top_rank pd rules ≡ 0
IsMostSpecific pd rules (some best) =
    Memᴰ best rules × (covers pd best ≡ true) × (bits best.ipv6_prefix + 1 ≡ top_rank pd rules)

module _ (pd : Prefix) where
  better-held :
      (best : Option S46Rule) (r : S46Rule) → held (better pd best r) ≡ max (held best) (rank pd r)
  unfolding better rank covers held
  better-held none r = ground arith
  better-held (some best) r = ground arith

  better-source :
      (best : Option S46Rule) (r : S46Rule)
      → (better pd best r ≡ best) ⊎ ((better pd best r ≡ some r) × (covers pd r ≡ true))
  unfolding better covers
  better-source none r = ground arith
  better-source (some best) r = ground arith

  bmr_from-held :
      (best : Option S46Rule) (rules : List S46Rule)
      → held (bmr_from pd best rules) ≡ max (held best) (top_rank pd rules)
  unfolding bmr_from top_rank
  bmr_from-held best [] = omega arith
  bmr_from-held best (r ∷ rules) =
      omega (arith, bmr_from-held (better pd best r) rules, better-held best r)

  bmr_from-source :
      (best : Option S46Rule) (rules : List S46Rule) (b : S46Rule)
      → bmr_from pd best rules ≡ some b
      → (best ≡ some b) ⊎ (Memᴰ b rules × (covers pd b ≡ true))
  unfolding bmr_from
  bmr_from-source best [] b h = inl h
  bmr_from-source best (r ∷ rules) b h = elim (bmr_from-source (better pd best r) rules b h) [
    | inr (there, right) ↦ inr (Memᴰ.tail there, right)
    | inl e ↦ elim (better-source best r) [
      | inl kept ↦ inl (sym kept ∙ e)
      | inr (new, right) ↦
          let same : b ≡ r = some-injective b r (sym e ∙ new) in inr (Memᴰ.head same, rw same right)
    ]
  ]

-- bmrFor picks a rule of the list whose IPv6 prefix is valid and contains the delegated prefix,
-- and none of the list that does so is longer; it picks none only if no rule of the list does so.
pub bmr_for-IsMostSpecific :
    (rules : List S46Rule) (pd : Prefix) → IsMostSpecific pd rules (bmr_for rules pd)
unfolding bmr_for IsMostSpecific held
bmr_for-IsMostSpecific rules pd = elim (Option-cases (bmr_from pd none rules)) [
  | inl nothing ↦ rw nothing (omega (arith, bmr_from-held pd none rules, ap held nothing))
  | inr (b, found) ↦ rw found (elim (bmr_from-source pd none rules b found) [
    | inl never ↦ absurd (ground arith)
    | inr (there, right) ↦ (there, right, omega (arith, bmr_from-held pd none rules, ap held found))
  ])
]

-- The rule that is picked is for the prefix.
pub bmr_for-covers :
    (rules : List S46Rule) (pd : Prefix) (r : S46Rule)
    → bmr_for rules pd ≡ some r
    → covers pd r ≡ true
unfolding bmr_for
bmr_for-covers rules pd r h = elim (bmr_from-source pd none rules r h) [
  | inl never ↦ absurd (ground arith)
  | inr (there, right) ↦ right
]

-- Of one rule that is for the prefix, it picks that rule.
pub bmr_for-only : (r : S46Rule) (pd : Prefix) → covers pd r ≡ true → bmr_for (r ∷ []) pd ≡ some r
unfolding bmr_for bmr_from better covers
bmr_for-only r pd h = ground arith
