-- ===== src/Pcp/Steps/Frame.antt =====
-- What a request leaves alone: the mappings of other hosts, and the server's settings.
use sixup.Common.{ℕ, ◌≡◌, ◌≢◌, refl, sym, ◌∙◌, ◌&&◌, List, ◌==◌, arith, Bool-cases, inl, inr, ap}
use sixup.Netip.{Addr, addr_eq}
use sixup.Netip.Laws.{addr_eq_iff}
use sixup.Pcp.State.{PcpServer, PcpKey, PcpMap, Host, key_eq, find, put, delete_func, push}
use sixup.Pcp.State.Maps.{key_eq_iff, find-put, find-delete_keys}
use sixup.Pcp.Mapping.{remove}
use sixup.Pcp.Respond.{handle}
use package.sixup.Pcp.Steps.{Change, same, renewed, removed, granted, released, both}
use package.sixup.Pcp.Steps.Requests.{handle-Change}
use package.sixup.Pcp.Steps.Sound.{keep_maps_fields}

find-put_other :
    (key j : PcpKey) (v : PcpMap) (ms : List (PcpKey × PcpMap))
    → key.internal.addr ≢ j.internal.addr
    → find j (put key v ms) ≡ find j ms
find-put_other key j v ms h = elim (Bool-cases (key_eq key j)) [
  | inl hit ↦ absurd (h (ap (λ (k : PcpKey). k.internal.addr) ((key_eq_iff key j).0 hit)))
  | inr miss ↦ rw (find-put key j v ms, miss)
]

find-remove_other :
    (key j : PcpKey) (ms : List (PcpKey × PcpMap))
    → key.internal.addr ≢ j.internal.addr
    → find j (delete_func (λ k m. key_eq k key) ms) ≡ find j ms
find-remove_other key j ms h = elim (Bool-cases (key_eq j key)) [
  | inl hit ↦ absurd (h (ap (λ (k : PcpKey). k.internal.addr) (sym ((key_eq_iff j key).0 hit))))
  | inr miss ↦ rw (find-delete_keys (λ k. key_eq k key) j ms, miss)
]

find-release_other :
    (src : Addr) (proto : ℕ) (j : PcpKey) (ms : List (PcpKey × PcpMap))
    → j.internal.addr ≢ src
    → find j (delete_func (λ k m. k.proto == proto && addr_eq k.internal.addr src) ms) ≡ find j ms
find-release_other src proto j ms h =
    rw (find-delete_keys (λ k. k.proto == proto && addr_eq k.internal.addr src) j ms)
      (ground (arith, addr_eq_iff j.internal.addr src))

Change-frame :
    {host : Host} {src : Addr} {p q : PcpServer}
    → Change host src p q
    → (j : PcpKey) → j.internal.addr ≢ src
    → find j q.maps ≡ find j p.maps
unfolding push remove
Change-frame (same p) j h = refl
Change-frame (renewed p key cur expires own found l) j h =
    find-put_other key j _ p.maps (λ e. h (sym e ∙ own))
Change-frame (removed p key own) j h = find-remove_other key j p.maps (λ e. h (sym e ∙ own))
Change-frame (granted p key m own absent space g l) j h =
    find-put_other key j m p.maps (λ e. h (sym e ∙ own))
Change-frame {src = src} (released p proto) j h =
    ap (find j) (keep_maps_fields p _).0 ∙ find-release_other src proto j p.maps h
Change-frame (both c d) j h = Change-frame d j h ∙ Change-frame c j h

-- A request, whatever its bytes, changes no mapping of a host other than the one it came from.
pub handle-find_other :
    (p : PcpServer) (host : Host) (req : List ℕ) (src : Addr) (j : PcpKey)
    → j.internal.addr ≢ src
    → find j (handle p host req src).0.maps ≡ find j p.maps
handle-find_other p host req src j h = Change-frame (handle-Change p host req src) j h
