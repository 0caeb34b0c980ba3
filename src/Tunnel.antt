-- ===== src/Tunnel.antt =====
-- The option 94 to 96 containers of RFC 7598 as bytes: `walkOptions`, `prefixFromBits`,
-- `parseS46Rule`, `parseS46Bind` and `parseS46Cont` of tunnel.go. `none` stands for an error.
pub mod Walk
pub mod Rule
pub mod Params
use sixup.Common.{
  ℕ, zero, suc, ◌+◌, ◌-◌, ◌*◌, ◌/◌, ◌^◌, bit_and, Bool, true, false, not, ◌&&◌, ◌||◌, List, [], ◌∷◌,
  ◌++◌, Option, none, some, ◌==◌, ltb, leb, if◌then◌else◌, length, get_or, take, drop, slice,
  replicate, copy, from_be, u64,
}
use sixup.Netip.{Addr, no_addr, ip4, ip6, addr_from_slice, Prefix, no_prefix, prefix_from, masked}
use sixup.Mape.{S46Rule, S46Bind, S46Cont}

-- A chain of results, which ends at the first error.
unfoldable pub after : {A : Type 0} → (A → Option A) → Option A → Option A
after f none = none
after f (some a) = f a

module _ {A : Type 0} (fn : A → ℕ → List ℕ → Option A) where
  -- The loop of `walkOptions`, by the rounds left; `fn` gets what it has gathered so far.
  unfoldable pub walk_from : ℕ → List ℕ → A → Option A
  unfolding after
  walk_from rounds [] a = some a
  walk_from zero (x ∷ b) a = none
  walk_from (suc rounds) (x ∷ b) a =
      let all = x ∷ b in
      let code = from_be (slice 0 2 all) in
      let len = from_be (slice 2 4 all) in
      let rest =
        after (walk_from rounds (drop (4 + len) all)) (fn a code (slice 4 (4 + len) all)) in
      if ltb (length all) 4 then none else if ltb (length all) (4 + len) then none else rest

  unfoldable pub walk_options : List ℕ → A → Option A
  walk_options b a = walk_from (length b) b a

unfoldable pub prefix_from_bits : List ℕ → ℕ → Option Prefix
prefix_from_bits b n =
    if ltb 128 n || ltb 16 (length b)
    then none
    else some (masked (prefix_from (ip6 (from_be (copy 0 b (replicate 16 0)))) n))

-- `x >> k` on a uint16.
unfoldable pub shr16 : ℕ → ℕ → ℕ
shr16 x k = elim (ltb k 16) [ true ↦ x / 2 ^ k | false ↦ 0 ]

-- The PSID of a port parameters option, which is left-aligned there.
unfoldable pub psid_field : List ℕ → ℕ
psid_field pv =
    let plen = get_or pv 1 0 in
    let psid = from_be (slice 2 4 pv) in
    if ltb 0 plen then shr16 psid (u64 (16 + 2 ^ 64 - plen)) else psid

-- The nested options of a rule: only the port parameters, option 93, are read.
unfoldable pub rule_option : S46Rule → ℕ → List ℕ → Option S46Rule
rule_option r code pv =
    if not (code == 93)
    then some r
    else if not (length pv == 4)
    then none
    else some (record r {
      psid_offset = some (get_or pv 0 0);
      psid_len = some (get_or pv 1 0);
      psid = some (psid_field pv);
    })

-- The rule before its nested options.
unfoldable pub rule_head : List ℕ → Prefix → S46Rule
rule_head v p6 = record {
  fmr = not (bit_and (get_or v 0 0) 1 == 0);
  ea_len = get_or v 1 0;
  ipv4_prefix = prefix_from (ip4 (from_be (slice 3 7 v))) (get_or v 2 0);
  ipv6_prefix = p6;
  psid_offset = none;
  psid_len = none;
  psid = none;
}

unfoldable pub rule_tail : List ℕ → ℕ → Option Prefix → Option S46Rule
rule_tail v n none = none
rule_tail v n (some p6) = walk_options rule_option (drop (8 + n) v) (rule_head v p6)

unfoldable pub parse_s46_rule : List ℕ → Option S46Rule
parse_s46_rule v =
    let p6len = get_or v 7 0 in
    let n = (p6len + 7) / 8 in
    if ltb (length v) 8
    then none
    else if ltb 32 (get_or v 2 0)
    then none
    else if ltb (length v) (8 + n)
    then none
    else rule_tail v n (prefix_from_bits (slice 8 (8 + n) v) p6len)

-- A bind passes over port parameters of another length.
unfoldable pub bind_option : S46Bind → ℕ → List ℕ → Option S46Bind
bind_option b code pv =
    if not (code == 93) || not (length pv == 4)
    then some b
    else some (record b {
      psid_offset = some (get_or pv 0 0);
      psid_len = some (get_or pv 1 0);
      psid = some (psid_field pv);
    })

unfoldable pub bind_tail : List ℕ → ℕ → Option Prefix → Option S46Bind
bind_tail v n none = none
bind_tail v n (some p6) = walk_options bind_option (drop (5 + n) v) (record {
  ipv4_addr = ip4 (from_be (slice 0 4 v));
  ipv6_prefix = p6;
  psid_offset = none;
  psid_len = none;
  psid = none;
})

unfoldable pub parse_s46_bind : List ℕ → Option S46Bind
parse_s46_bind v =
    let p6len = get_or v 4 0 in
    let n = (p6len + 7) / 8 in
    if ltb (length v) 5
    then none
    else if ltb (length v) (5 + n)
    then none
    else bind_tail v n (prefix_from_bits (slice 5 (5 + n) v) p6len)

add_rule : S46Cont → Option S46Rule → Option S46Cont
add_rule c none = none
add_rule c (some r) = some (record c { rules = c.rules ++ (r ∷ []) })

add_dmr : S46Cont → Option Prefix → Option S46Cont
add_dmr c none = none
add_dmr c (some p) = some (record c { dmr = some p })

add_bind : S46Cont → Option S46Bind → Option S46Cont
add_bind c none = none
add_bind c (some b) = some (record c { bind = some b })

-- The suboptions of a container: 89 rule, 90 BR, 91 DMR, 92 bind.
unfoldable pub cont_option : S46Cont → ℕ → List ℕ → Option S46Cont
unfolding add_rule add_dmr add_bind
cont_option c code v =
    if code == 89
    then add_rule c (parse_s46_rule v)
    else if code == 90
    then if not (length v == 16)
      then none
      else some (record c { br = c.br ++ (ip6 (from_be v) ∷ []) })
    else if code == 91
    then if ltb (length v) 1 || ltb 17 (length v)
      then none
      else add_dmr c (prefix_from_bits (drop 1 v) (get_or v 0 0))
    else if code == 92
    then add_bind c (parse_s46_bind v)
    else some c

abbrev empty_cont : S46Cont
empty_cont = record { br = []; dmr = none; rules = []; bind = none }

unfoldable pub parse_s46_cont : List ℕ → Option S46Cont
parse_s46_cont b = if ltb 4096 (length b) then none else walk_options cont_option b empty_cont
