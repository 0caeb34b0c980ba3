-- ===== src/Store/Messages/Wakes.antt =====
-- When `nextExpiry` (prefix.go) wakes the store.
use sixup.Common.{
  ℕ, ◌+◌, ◌*◌, ◌≤◌, ◌<◌, ◌≡◌, inl, inr, not, ◌&&◌, List, [], ◌∷◌, Option, some, ◌==◌, ltb, arith,
  Bool-cases, AllValues,
}
use sixup.Netip.{Prefix}
use package.sixup.Store.{LinePrefix}
use package.sixup.Store.State.{StoreState, RevokedLan, is_known}
use package.sixup.Store.Recompute.{recompute}
use package.sixup.Store.Recompute.Live.{Lasts, RevokedLast, WanLast}
use package.sixup.Store.Recompute.Lasting.{recompute-IsLasting}
use package.sixup.Store.Messages.{earlier, first_lan, first_wan, earliest, next_expiry}

-- An instant of the clock that is not after the other.
Before : ℕ → ℕ → Type 0
Before e t = (0 < e) × (e ≤ t)

earlier-Before : (e t : ℕ) → 0 < t → Before (earlier e t) t
unfolding earlier Before
earlier-Before e t h = ground (arith, h)

earlier-Before_first : (e t x : ℕ) → 0 < t → Before e x → Before (earlier e t) x
unfolding earlier Before
earlier-Before_first e t x h b = (ground (arith, h, b.0), ground (arith, h, b.0, b.1))

module _ (now : ℕ) where
  first_lan-Before :
      (rs : List (Prefix × RevokedLan)) (e x : ℕ)
      → RevokedLast now rs
      → Before e x
      → Before (first_lan rs e) x
  unfolding first_lan Lasts
  first_lan-Before [] e x all b = b
  first_lan-Before ((k, r) ∷ rs) e x all b =
      first_lan-Before rs (earlier e r.p.valid) x all.1
        (earlier-Before_first e r.p.valid x (omega (arith, all.0)) b)

  first_wan-Before :
      (ps : List (Prefix × LinePrefix)) (e x : ℕ)
      → WanLast now ps
      → Before e x
      → Before (first_wan ps e) x
  unfolding first_wan Lasts
  first_wan-Before [] e x all b = b
  first_wan-Before ((k, p) ∷ ps) e x all b =
      first_wan-Before ps (earlier e p.valid) x all.1
        (earlier-Before_first e p.valid x (omega (arith, all.0)) b)

  -- Every entry is met, also by what only gets earlier.
  first_lan-all :
      (rs : List (Prefix × RevokedLan)) (e least : ℕ)
      → RevokedLast now rs
      → ((x : ℕ) → Before (first_lan rs e) x → Before least x)
      → AllValues (λ (r : RevokedLan). Before least r.p.valid) rs
  unfolding first_lan Lasts
  first_lan-all [] e least all up = tt
  first_lan-all ((k, r) ∷ rs) e least all up =
      let positive : 0 < r.p.valid = omega (arith, all.0) in
      (
        up r.p.valid (
            first_lan-Before rs (earlier e r.p.valid) r.p.valid all.1
              (earlier-Before e r.p.valid positive)),
        first_lan-all rs (earlier e r.p.valid) least all.1 up,
      )

  first_wan-all :
      (ps : List (Prefix × LinePrefix)) (e least : ℕ)
      → WanLast now ps
      → ((x : ℕ) → Before (first_wan ps e) x → Before least x)
      → AllValues (λ (p : LinePrefix). Before least p.valid) ps
  unfolding first_wan Lasts
  first_wan-all [] e least all up = tt
  first_wan-all ((k, p) ∷ ps) e least all up =
      let positive : 0 < p.valid = omega (arith, all.0) in
      (
        up p.valid (
            first_wan-Before ps (earlier e p.valid) p.valid all.1
              (earlier-Before e p.valid positive)),
        first_wan-all ps (earlier e p.valid) least all.1 up,
      )

earliest-Before :
    (s : StoreState) (clock x : ℕ)
    → Before (first_wan s.revoked_w (first_lan s.revoked 0)) x
    → Before (earliest s clock) x
unfolding earliest
earliest-Before s clock x b =
    let e = first_wan s.revoked_w (first_lan s.revoked 0) in
    elim (Bool-cases
      (not (is_known s.sources.pd) && not (s.pd_grace == 0) && ltb clock s.pd_grace)) [
        | inr past ↦ rw past b
        | inl waits ↦ rw waits (earlier-Before_first e s.pd_grace x (ground (arith, waits)) b)
      ]

-- The wake-up is there, 50 milliseconds after the instant at most.
unfoldable pub Wakes : Option ℕ → ℕ → Type 0
Wakes wake t = (w : ℕ) × (wake ≡ some w) × (w ≤ t + 50 * 1000000)

next_expiry-Wakes :
    (s : StoreState) (clock t : ℕ) → Before (earliest s clock) t → Wakes (next_expiry s clock) t
unfolding next_expiry Wakes Before
next_expiry-Wakes s clock t b =
    (earliest s clock + 50 * 1000000, ground (arith, b.0), omega (arith, b.1))

AllValues-map :
    {K V : Type 0} (P Q : V → Type 0) (m : List (K × V))
    → ((v : V) → P v → Q v)
    → AllValues P m
    → AllValues Q m
AllValues-map P Q [] f all = tt
AllValues-map P Q ((k, v) ∷ m) f all = (f v all.0, AllValues-map P Q m f all.1)

-- After a recompute, nextExpiry, whenever it reads the clock, sets a wake-up for every prefix in
-- its deprecate period, on a LAN or on the WAN, that is at most 50 milliseconds after the period's
-- end.
pub recompute-Wakes :
    (s : StoreState) (now clock next_clock : ℕ)
    → AllValues
        (λ (r : RevokedLan). Wakes (next_expiry (recompute s now clock) next_clock) r.p.valid)
        (recompute s now clock).revoked
      × AllValues
          (λ (p : LinePrefix). Wakes (next_expiry (recompute s now clock) next_clock) p.valid)
          (recompute s now clock).revoked_w
recompute-Wakes s now clock next_clock =
    let t = recompute s now clock in
    let lasting = recompute-IsLasting now s clock in
    let least = earliest t next_clock in
    let wakes = next_expiry-Wakes t next_clock in
    let e = first_lan t.revoked 0 in
    (
      AllValues-map (λ (r : RevokedLan). Before least r.p.valid) _ t.revoked
          (λ r b. wakes r.p.valid b)
          (first_lan-all now t.revoked 0 least lasting.revoked (λ x b.
            earliest-Before t next_clock x
              (first_wan-Before now t.revoked_w e x lasting.revoked_w b))),
      AllValues-map (λ (p : LinePrefix). Before least p.valid) _ t.revoked_w
          (λ p b. wakes p.valid b)
          (first_wan-all now t.revoked_w e least lasting.revoked_w (earliest-Before t next_clock)),
    )
