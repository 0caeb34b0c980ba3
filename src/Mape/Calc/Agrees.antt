-- ===== src/Mape/Calc/Agrees.antt =====
-- The answer of `calcMAPE`, and the container that `s46` makes of it.
use mathlib.Core.Path.{subst}
use mathlib.Core.Option.{some-injective}
use native.Mathlib.Nat.{div-div-eq-div-mul}
use sixup.Common.{
  ℕ, ◌-◌, ◌*◌, ◌/◌, ◌%◌, ◌^◌, ◌≡◌, ◌⊎◌, inl, inr, refl, ap, ◌∙◌, true, some, arith, Bool-cases,
  Option-cases, none_ne_some, be_bytes, ltb, All,
}
use sixup.Netip.{
  Addr, ip6, is6, as16, Prefix, prefix_valid, bits, masked, clear_host, prefix_contains,
}
use sixup.Netip.Laws.{is6-cases}
use package.sixup.Mape.{MapeResult}
use package.sixup.Mape.S46.{mape_from_s46, s46}
use package.sixup.Mape.Calc.{calc_mape, line_of, line_if, relay, row_of, group, Row}
use package.sixup.Mape.Calc.Line.{IsRow, row_of-IsRow, low_bits, group1, group2, group3}
use package.sixup.Mape.S46.Address.{mape_from_s46-rule4}
use sixup.Mape.Spans.Valid.{port_spans-IsSpan, port_count-port_spans}
use sixup.Mape.Spans.Count.{IsSpan}
use sixup.Mape.Spans.{port_count}
use package.sixup.Mape.Calc.Container.{Agrees, row-Agrees}

-- The 25 bits are a field of the address.
low_bits_field :
    (a : ℕ)
    → low_bits (group (be_bytes 16 a) 1) (group (be_bytes 16 a) 2) (group (be_bytes 16 a) 3)
      ≡ a / 2 ^ 72 % 2 ^ 25
low_bits_field a = omega (
  arith,
  group1 a,
  group2 a,
  group3 a,
  div-div-eq-div-mul a (2 ^ 64) (2 ^ 8),
  div-div-eq-div-mul a (2 ^ 64) (2 ^ 16),
  div-div-eq-div-mul a (2 ^ 64) (2 ^ 32),
)

good_row :
    (a h0 : ℕ) (row : Row)
    → row_of h0 (group (be_bytes 16 a) 1) (group (be_bytes 16 a) 2) (group (be_bytes 16 a) 3)
      ≡ some row
    → IsRow (a / 2 ^ 72 % 2 ^ 25) (group (be_bytes 16 a) 3) row
good_row a h0 row found =
    let b = be_bytes 16 a in
    subst (λ (t : ℕ). IsRow t (group b 3) row) (low_bits_field a)
      (row_of-IsRow (group b 1) (group b 2) (group b 3) (omega (arith, group2 a))
        (omega (arith, group3 a)) h0 row found)

-- What `calcMAPE` has found when it answers.
calc_mape-found :
    (a n : ℕ) (r : MapeResult)
    → calc_mape (record { ip = ip6 a; bits_plus_one = n }) ≡ some r
    → Agrees (record { ip = ip6 a; bits_plus_one = n }) r
unfolding calc_mape line_if masked prefix_valid bits clear_host as16
calc_mape-found a n r h =
    let top = a / 2 ^ (128 - (n - 1)) * 2 ^ (128 - (n - 1)) in
    let b = be_bytes 16 top in
    let prefix : Prefix = record { ip = ip6 a; bits_plus_one = n } in
    elim (Bool-cases (ltb 0 n)) [
      | inr invalid ↦ absurd (none_ne_some {A = MapeResult} (rw invalid at h))
      | inl valid ↦ elim (Bool-cases (ltb (n - 1) 56)) [
        | inl short ↦ absurd (none_ne_some {A = MapeResult} (rw (valid, short) at h))
        | inr long ↦ elim (Option-cases (relay (group b 0) (group b 1))) [
          | inl nobody ↦ absurd (none_ne_some {A = MapeResult} (rw (valid, long, nobody) at h))
          | inr (br, known) ↦
              elim (Option-cases (row_of (group b 0) (group b 1) (group b 2) (group b 3))) [
                | inl nothing ↦
                    absurd (none_ne_some {A = MapeResult} (rw (valid, long, known, nothing) at h))
                | inr (row, found) ↦
                    let is : line_of prefix b br row ≡ r =
                      some-injective (line_of prefix b br row) r
                        (rw (valid, long, known, found) at h) in
                    subst (Agrees prefix) is
                      (row-Agrees a n br row (ground arith) (good_row top (group b 0) row found))
              ]
        ]
      ]
    ]

calc_mape-Agrees :
    (pd : Prefix) (r : MapeResult) → is6 pd.ip ≡ true → calc_mape pd ≡ some r → Agrees pd r
calc_mape-Agrees pd r six h =
    let (a, e) = is6-cases pd.ip six in
    let same : pd ≡ record { ip = ip6 a; bits_plus_one = pd.bits_plus_one } =
      ap (λ (t : Addr). record pd { ip = t }) e in
    rw same (calc_mape-found a pd.bits_plus_one r (rw same at h))

-- For an IPv6 prefix that calcMAPE answers from the rule tables, mapeFromS46, which reads a DHCPv6
-- container, finds in the container that s46 makes of the answer the same line, all of it but the
-- line's own address (CE), which may differ.
pub calc_mape-s46 :
    (pd : Prefix) (r : MapeResult)
    → is6 pd.ip ≡ true
    → calc_mape pd ≡ some r
    → (ce : Addr) × (mape_from_s46 (some (s46 r)) pd ≡ some (record r { ce = ce }))
calc_mape-s46 pd r six h = let f = calc_mape-Agrees pd r six h in (f.ce, f.again)

-- For an IPv6 prefix that calcMAPE answers: the shared IPv4 address lies in the rule's IPv4
-- prefix, and the ports are well-formed spans of 240 or of 1008 ports together.
pub calc_mape-share :
    (pd : Prefix) (r : MapeResult)
    → is6 pd.ip ≡ true
    → calc_mape pd ≡ some r
    → (prefix_contains r.rule4 r.ipv4 ≡ true)
      × All IsSpan r.ports
      × ((port_count r.ports ≡ 240) ⊎ (port_count r.ports ≡ 1008))
calc_mape-share pd r six h =
    let f = calc_mape-Agrees pd r six h in
    let spans =
      port_spans-IsSpan r.offset r.psid_len r.psid (ground (arith, f.share)) f.psid_fits in
    let count =
      port_count-port_spans r.offset r.psid_len r.psid (ground (arith, f.share)) f.psid_fits in
    (
      mape_from_s46-rule4 (s46 r) pd (record r { ce = f.ce }) f.again f.exact,
      rw f.ports spans,
      rw f.ports (elim f.share [
        | inl (o, k) ↦ inl (count ∙ rw (o, k) refl)
        | inr (o, k) ↦ inr (count ∙ rw (o, k) refl)
      ]),
    )
