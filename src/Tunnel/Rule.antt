-- ===== src/Tunnel/Rule.antt =====
-- Every rule that is read off the wire is well formed: `parseS46Rule` and `parseS46Cont`.
use mathlib.Core.Path.{subst}
use mathlib.Core.Option.{some-injective}
use native.Mathlib.Nat.{div-lt_iff_lt-mul}
use sixup.Common.{
  none_ne_some, ℕ, ◌+◌, ◌-◌, ◌*◌, ◌/◌, ◌^◌, ◌≤◌, ◌<◌, ◌≡◌, ◌⊎◌, refl, inl, inr, true, ◌||◌, List,
  [], ◌∷◌, ◌++◌, Option, none, some, ◌==◌, ltb, length, get_or, drop, slice, replicate, copy,
  from_be, u64, All, All-drop, arith, pow_add, two_pow_pos, Bool-cases,
}
use sixup.Netip.{ip6, is4, addr_valid, bit_len, Prefix, prefix_from, prefix_valid, masked}
use sixup.Netip.Laws.{masked-masked, prefix_valid-masked}
use sixup.Mape.{S46Rule, S46Cont, S46Bind}
use package.sixup.Tunnel.{
  prefix_from_bits, shr16, psid_field, rule_option, rule_head, rule_tail, parse_s46_rule,
  parse_s46_bind, add_rule, add_dmr, add_bind, cont_option, empty_cont, parse_s46_cont,
}
use package.sixup.Tunnel.Walk.{walk_options-Kept}

abbrev IsByte : ℕ → Type 0
IsByte x = x < 256

-- A PSID fits the length given with it, unless that is 0.
unfoldable pub IsFitting : Option ℕ → Option ℕ → Type 0
IsFitting none x = Unit
IsFitting (some k) none = Unit
IsFitting (some k) (some x) = (k ≡ 0) ⊎ (x < 2 ^ k)

-- Valid prefixes of the right families, the IPv6 one without host bits, and a PSID that fits.
unfoldable pub IsRule : S46Rule → Type 0
IsRule r =
    (prefix_valid r.ipv4_prefix ≡ true)
    × (is4 r.ipv4_prefix.ip ≡ true)
    × (prefix_valid r.ipv6_prefix ≡ true)
    × (masked r.ipv6_prefix ≡ r.ipv6_prefix)
    × IsFitting r.psid_len r.psid

shr16_small : (x k : ℕ) → k < 16 → shr16 x k ≡ x / 2 ^ k
unfolding shr16
shr16_small x k h = ground arith

shift_fits : (x k : ℕ) → x < 65536 → 0 < k → k < 256 → shr16 x (u64 (16 + 2 ^ 64 - k)) < 2 ^ k
unfolding shr16
shift_fits x k h pos byte = elim (Bool-cases (ltb 16 k)) [
  | inl long ↦ ground (arith, two_pow_pos k)
  | inr short ↦
      let left : u64 (16 + 2 ^ 64 - k) ≡ 16 - k = ground arith in
      let sum : k + (16 - k) ≡ 16 = ground arith in
      let whole : 2 ^ k * 2 ^ (16 - k) ≡ 65536 = rw (← pow_add k (16 - k), sum) refl in
      rw (left, shr16_small x (16 - k) (omega arith))
        ((div-lt_iff_lt-mul (two_pow_pos (16 - k))).1 (rw whole h))
]

psid_field-IsFitting :
    (pv : List ℕ)
    → All IsByte pv
    → length pv ≡ 4
    → IsFitting (some (get_or pv 1 0)) (some (psid_field pv))
unfolding psid_field IsFitting
psid_field-IsFitting [] bytes h = absurd (omega arith)
psid_field-IsFitting (a ∷ []) bytes h = absurd (omega arith)
psid_field-IsFitting (a ∷ (b ∷ [])) bytes h = absurd (omega arith)
psid_field-IsFitting (a ∷ (b ∷ (c ∷ []))) bytes h = absurd (omega arith)
psid_field-IsFitting (a ∷ (b ∷ (c ∷ (d ∷ pv)))) (ba, (bb, (bc, (bd, rest)))) h =
    elim (Bool-cases (ltb 0 b)) [
      | inl pos ↦ rw pos (inr (shift_fits ((0 + c) * 256 + d) b (omega arith) (ground arith) bb))
      | inr nil ↦ inl (ground arith)
    ]

rule_option-IsRule :
    (r r' : S46Rule) (code : ℕ) (pv : List ℕ)
    → All IsByte pv
    → IsRule r
    → rule_option r code pv ≡ some r'
    → IsRule r'
unfolding rule_option IsRule
rule_option-IsRule r r' code pv bytes (v4, four, v6, clean, psid) h =
    elim (Bool-cases (code == 93)) [
      | inr other ↦ subst IsRule (some-injective r r' (rw other at h)) (v4, four, v6, clean, psid)
      | inl params ↦ elim (Bool-cases (length pv == 4)) [
        | inr wrong ↦ absurd (none_ne_some (rw (params, wrong) at h))
        | inl right ↦
            let now : S46Rule = record r {
              psid_offset = some (get_or pv 0 0);
              psid_len = some (get_or pv 1 0);
              psid = some (psid_field pv);
            } in
            subst IsRule (some-injective now r' (rw (params, right) at h))
              (v4, four, v6, clean, psid_field-IsFitting pv bytes (ground arith))
      ]
    ]

prefix_from_bits-valid :
    (b : List ℕ) (n : ℕ) (p : Prefix)
    → prefix_from_bits b n ≡ some p
    → (prefix_valid p ≡ true) × (masked p ≡ p)
unfolding prefix_from_bits
prefix_from_bits-valid b n p h = elim (Bool-cases (ltb 128 n || ltb 16 (length b))) [
  | inl bad ↦ absurd (none_ne_some (rw bad at h))
  | inr good ↦
      let raw = prefix_from (ip6 (from_be (copy 0 b (replicate 16 0)))) n in
      let valid : prefix_valid raw ≡ true =
        unfold prefix_valid prefix_from bit_len addr_valid in ground arith in
      let same : masked raw ≡ p = some-injective (masked raw) p (rw good at h) in
      rw (← same) (rw (prefix_valid-masked raw) valid, masked-masked raw valid)
]

rule_head-IsRule :
    (v : List ℕ) (p6 : Prefix)
    → get_or v 2 0 ≤ 32
    → prefix_valid p6 ≡ true
    → masked p6 ≡ p6
    → IsRule (rule_head v p6)
unfolding rule_head IsRule IsFitting prefix_from prefix_valid bit_len addr_valid is4
rule_head-IsRule v p6 short valid clean = (ground arith, refl, valid, clean, tt)

rule_tail-IsRule :
    (v : List ℕ) (n : ℕ) (o : Option Prefix) (r : S46Rule)
    → All IsByte v
    → get_or v 2 0 ≤ 32
    → ((p : Prefix) → o ≡ some p → (prefix_valid p ≡ true) × (masked p ≡ p))
    → rule_tail v n o ≡ some r
    → IsRule r
unfolding rule_tail
rule_tail-IsRule v n none r bytes short fine h = absurd (none_ne_some h)
rule_tail-IsRule v n (some p6) r bytes short fine h =
    let (valid, clean) = fine p6 refl in
    walk_options-Kept rule_option IsRule rule_option-IsRule (drop (8 + n) v) (rule_head v p6) r
      (All-drop IsByte (8 + n) v bytes) (rule_head-IsRule v p6 short valid clean) h

parse_s46_rule-IsRule :
    (v : List ℕ) (r : S46Rule) → All IsByte v → parse_s46_rule v ≡ some r → IsRule r
unfolding parse_s46_rule
parse_s46_rule-IsRule v r bytes h =
    let p6len = get_or v 7 0 in
    let n = (p6len + 7) / 8 in
    let o = prefix_from_bits (slice 8 (8 + n) v) p6len in
    elim (Bool-cases (ltb (length v) 8)) [
      | inl bad ↦ absurd (none_ne_some (rw bad at h))
      | inr long ↦ elim (Bool-cases (ltb 32 (get_or v 2 0))) [
        | inl bad ↦ absurd (none_ne_some (rw (long, bad) at h))
        | inr short ↦ elim (Bool-cases (ltb (length v) (8 + n))) [
          | inl bad ↦ absurd (none_ne_some (rw (long, short, bad) at h))
          | inr fits ↦
              rule_tail-IsRule v n o r bytes (ground arith)
                (λ p e. prefix_from_bits-valid (slice 8 (8 + n) v) p6len p e)
                (rw (long, short, fits) at h)
        ]
      ]
    ]

All-snoc :
    (rules : List S46Rule) (r : S46Rule)
    → All IsRule rules
    → IsRule r
    → All IsRule (rules ++ (r ∷ []))
All-snoc [] r all h = (h, tt)
All-snoc (x ∷ rules) r (first, all) h = (first, All-snoc rules r all h)

abbrev HasRules : S46Cont → Type 0
HasRules c = All IsRule c.rules

add_rule-HasRules :
    (c c' : S46Cont) (o : Option S46Rule)
    → HasRules c
    → ((r : S46Rule) → o ≡ some r → IsRule r)
    → add_rule c o ≡ some c'
    → HasRules c'
unfolding add_rule
add_rule-HasRules c c' none all fine h = absurd (none_ne_some h)
add_rule-HasRules c c' (some r) all fine h =
    subst HasRules (some-injective (record c { rules = c.rules ++ (r ∷ []) }) c' h)
      (All-snoc c.rules r all (fine r refl))

add_dmr-HasRules :
    (c c' : S46Cont) (o : Option Prefix) → HasRules c → add_dmr c o ≡ some c' → HasRules c'
unfolding add_dmr
add_dmr-HasRules c c' none all h = absurd (none_ne_some h)
add_dmr-HasRules c c' (some p) all h =
    subst HasRules (some-injective (record c { dmr = some p }) c' h) all

add_bind-HasRules :
    (c c' : S46Cont) (o : Option S46Bind) → HasRules c → add_bind c o ≡ some c' → HasRules c'
unfolding add_bind
add_bind-HasRules c c' none all h = absurd (none_ne_some h)
add_bind-HasRules c c' (some b) all h =
    subst HasRules (some-injective (record c { bind = some b }) c' h) all

cont_option-HasRules :
    (c c' : S46Cont) (code : ℕ) (v : List ℕ)
    → All IsByte v
    → HasRules c
    → cont_option c code v ≡ some c'
    → HasRules c'
unfolding cont_option
cont_option-HasRules c c' code v bytes all h = elim (Bool-cases (code == 89)) [
  | inl rule ↦
      add_rule-HasRules c c' (parse_s46_rule v) all (λ r e. parse_s46_rule-IsRule v r bytes e)
        (rw rule at h)
  | inr a ↦ elim (Bool-cases (code == 90)) [
    | inl br ↦ elim (Bool-cases (length v == 16)) [
      | inr wrong ↦ absurd (none_ne_some (rw (a, br, wrong) at h))
      | inl right ↦
          subst HasRules
            (some-injective (record c { br = c.br ++ (ip6 (from_be v) ∷ []) }) c'
              (rw (a, br, right) at h))
            all
    ]
    | inr b ↦ elim (Bool-cases (code == 91)) [
      | inl dmr ↦ elim (Bool-cases (ltb (length v) 1 || ltb 17 (length v))) [
        | inl wrong ↦ absurd (none_ne_some (rw (a, b, dmr, wrong) at h))
        | inr right ↦
            add_dmr-HasRules c c' (prefix_from_bits (drop 1 v) (get_or v 0 0)) all
              (rw (a, b, dmr, right) at h)
      ]
      | inr d ↦ elim (Bool-cases (code == 92)) [
        | inl bind ↦ add_bind-HasRules c c' (parse_s46_bind v) all (rw (a, b, d, bind) at h)
        | inr other ↦ subst HasRules (some-injective c c' (rw (a, b, d, other) at h)) all
      ]
    ]
  ]
]

-- Whatever bytes a server sends: each rule of the container that parseS46Cont reads has a valid
-- IPv4 and a valid IPv6 prefix, the latter without host bits, and its PSID fits its length, if
-- that is not 0.
pub parse_s46_cont-IsRule :
    (b : List ℕ) (c : S46Cont) → All IsByte b → parse_s46_cont b ≡ some c → All IsRule c.rules
unfolding parse_s46_cont
parse_s46_cont-IsRule b c bytes h = elim (Bool-cases (ltb 4096 (length b))) [
  | inl large ↦ absurd (none_ne_some (rw large at h))
  | inr fits ↦
      walk_options-Kept cont_option HasRules cont_option-HasRules b empty_cont c bytes tt
        (rw fits at h)
]
