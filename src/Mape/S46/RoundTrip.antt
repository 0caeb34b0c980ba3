-- ===== src/Mape/S46/RoundTrip.antt =====
-- `s46` keeps what `mapeFromS46` needs: both ways of learning a line end in one result.
use mathlib.Core.Path.{subst}
use sixup.Common.{ℕ, ◌≡◌, refl, ap, true, false, some, ◌==◌, arith, inl, inr, Bool-cases}
use sixup.Netip.{Addr, is4, Prefix, prefix_valid, masked, clear_host}
use sixup.Netip.Laws.{
  is4-cases, masked_valid, masked-masked, bits-masked, prefix_valid-masked, prefix_contains-masked,
}
use package.sixup.Mape.{MapeResult, S46Rule, S46Cont}
use package.sixup.Mape.S46.{lengths, psid_len_of, psid_of, ipv4_of, result_of, mape_from_s46, s46}
use package.sixup.Mape.S46.Rule.{covers, bmr_for-covers, bmr_for-only}
use package.sixup.Mape.S46.Address.{mape_from_s46-Found, lengths_bounds}

-- The rule that `s46` makes of a result.
abbrev again : S46Rule → Prefix → ℕ → Addr → S46Rule
again rule pd psid_len br =
    let r = result_of br rule pd psid_len in
    record {
      fmr = false;
      ea_len = r.ea_len;
      ipv4_prefix = r.rule4;
      ipv6_prefix = r.rule6;
      psid_offset = some r.offset;
      psid_len = some r.psid_len;
      psid = some r.psid;
    }

is4-masked : (p : Prefix) → prefix_valid p ≡ true → is4 p.ip ≡ true → is4 (masked p).ip ≡ true
unfolding is4 clear_host
is4-masked p valid four = let (x, at) = is4-cases p.ip four in rw (masked_valid p valid, at) refl

module _ (rule : S46Rule) (pd : Prefix) (br : Addr) (v4_bits psid_len : ℕ)
    (right : covers pd rule ≡ true) (fits : lengths rule pd ≡ some (v4_bits, psid_len)) where
  rule6-valid : prefix_valid rule.ipv6_prefix ≡ true
  unfolding covers
  rule6-valid = ground (arith, right)

  again-covers : covers pd (again rule pd psid_len br) ≡ true
  unfolding covers result_of
  again-covers =
      rw
        (
          prefix_valid-masked rule.ipv6_prefix,
          prefix_contains-masked rule.ipv6_prefix pd.ip rule6-valid,
        )
        right

  again-lengths : lengths (again rule pd psid_len br) pd ≡ some (v4_bits, psid_len)
  unfolding lengths psid_len_of result_of
  again-lengths =
      let (valid, four, sum, within, small, wide, long) =
        lengths_bounds rule pd v4_bits psid_len fits in
      ground (
        arith,
        bits-masked rule.ipv4_prefix valid,
        bits-masked rule.ipv6_prefix rule6-valid,
        prefix_valid-masked rule.ipv4_prefix,
        is4-masked rule.ipv4_prefix valid four,
      )

  again-result :
      result_of br (again rule pd psid_len br) pd psid_len ≡ result_of br rule pd psid_len
  unfolding result_of psid_of ipv4_of
  again-result =
      let (valid, four, sum, within, small, wide, long) =
        lengths_bounds rule pd v4_bits psid_len fits in
      rw
        (
          masked-masked rule.ipv4_prefix valid,
          masked-masked rule.ipv6_prefix rule6-valid,
          bits-masked rule.ipv6_prefix rule6-valid,
        )
        (elim (Bool-cases (rule.ea_len == 0)) [ inl e ↦ rw e refl | inr e ↦ rw e refl ])

  again-found :
      prefix_valid pd ≡ true
      → mape_from_s46 (some (s46 (result_of br rule pd psid_len))) pd
        ≡ some (result_of br rule pd psid_len)
  unfolding mape_from_s46 s46 result_of
  again-found valid =
      rw (valid, bmr_for-only (again rule pd psid_len br) pd again-covers, again-lengths)
        (ap some again-result)

-- The container that s46 makes of a result of mapeFromS46 gives that result again, whole, for the
-- same delegated prefix.
pub mape_from_s46-s46 :
    (c : S46Cont) (pd : Prefix) (r : MapeResult)
    → mape_from_s46 (some c) pd ≡ some r
    → mape_from_s46 (some (s46 r)) pd ≡ some r
mape_from_s46-s46 c pd r h =
    let f = mape_from_s46-Found c pd r h in
    let right = bmr_for-covers c.rules pd f.rule f.picked in
    subst (λ (t : MapeResult). mape_from_s46 (some (s46 t)) pd ≡ some t) f.is
      (again-found f.rule pd f.br f.v4_bits f.psid_len right f.fits f.valid)
