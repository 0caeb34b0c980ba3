-- ===== src/Pcp/Steps/Expiry.antt =====
-- How long mappings last.
use sixup.Common.{
  ℕ, ◌≡◌, ◌⊎◌, ◌∙◌, sym, Bool, ◌&&◌, List, none, some, ◌==◌, ltb, if◌then◌else◌, arith, Bool-cases,
  inl, inr, ap,
}
use sixup.Netip.{Addr, addr_eq}
use sixup.Pcp.State.{PcpServer, PcpKey, PcpMap, Host, key_eq, find, put, delete_func, push, expire}
use sixup.Pcp.State.Maps.{find-put, find-delete_keys, find-delete_func, IsKeyed}
use sixup.Pcp.Mapping.{remove}
use sixup.Pcp.Respond.{handle}
use package.sixup.Pcp.Steps.{Change, IsLifetime, same, renewed, removed, granted, released, both}
use package.sixup.Pcp.Steps.Requests.{handle-Change}
use package.sixup.Pcp.Steps.Sound.{keep_maps_fields}

-- In a map without repeated keys a round of expire drops a mapping exactly when its time has
-- passed.
find-expire :
    (p : PcpServer) (now : ℕ) (j : PcpKey)
    → IsKeyed p.maps
    → find j (expire p now).maps
      ≡ (elim (find j p.maps) [ none ↦ none | some m ↦ if ltb m.expires now then none else some m ])
unfolding expire
find-expire p now j keyed =
    ap (find j) (keep_maps_fields p _).0
    ∙ find-delete_func (λ k m. ltb m.expires now) j p.maps keyed

abbrev Dated : Host → PcpServer → PcpServer → Type 0
Dated host p q =
    (j : PcpKey) (m : PcpMap)
    → find j q.maps ≡ some m
    → (find j p.maps ≡ some m) ⊎ IsLifetime host.now m.expires

Dated-put :
    (host : Host) (p : PcpServer) (key : PcpKey) (v : PcpMap)
    → IsLifetime host.now v.expires
    → (j : PcpKey) (m : PcpMap) → find j (put key v p.maps) ≡ some m
    → (find j p.maps ≡ some m) ⊎ IsLifetime host.now m.expires
Dated-put host p key v l j m f = elim (Bool-cases (key_eq key j)) [
  | inl hit ↦ let e : v ≡ m = ground (arith, find-put key j v p.maps) in inr (rw (← e) l)
  | inr miss ↦ inl (ground (arith, find-put key j v p.maps))
]

Dated-delete :
    (p : PcpServer) (gone : PcpKey → Bool) (j : PcpKey) (m : PcpMap)
    → find j (delete_func (λ k v. gone k) p.maps) ≡ some m
    → find j p.maps ≡ some m
Dated-delete p gone j m f = ground (arith, find-delete_keys gone j p.maps)

Change-Dated : {host : Host} {src : Addr} {p q : PcpServer} → Change host src p q → Dated host p q
unfolding push remove
Change-Dated (same p) j m f = inl f
Change-Dated {host = host} (renewed p key cur expires own found l) j m f =
    Dated-put host p key (record cur { expires = expires }) l j m f
Change-Dated (removed p key own) j m f = inl (Dated-delete p (λ k. key_eq k key) j m f)
Change-Dated {host = host} (granted p key v own absent space g l) j m f =
    Dated-put host p key v l j m f
Change-Dated {src = src} (released p proto) j m f = inl (
    Dated-delete p (λ k. k.proto == proto && addr_eq k.internal.addr src) j m
      (ap (find j) (sym (keep_maps_fields p _).0) ∙ f))
Change-Dated (both c d) j m f = elim (Change-Dated d j m f) [
  | inl earlier ↦ Change-Dated c j m earlier
  | inr fresh ↦ inr fresh
]

-- Every mapping after a request was there before, unchanged, or expires between two minutes and a
-- day from now.
pub handle-IsLifetime :
    (p : PcpServer) (host : Host) (req : List ℕ) (src : Addr) (j : PcpKey) (m : PcpMap)
    → find j (handle p host req src).0.maps ≡ some m
    → (find j p.maps ≡ some m) ⊎ IsLifetime host.now m.expires
handle-IsLifetime p host req src j m f = Change-Dated (handle-Change p host req src) j m f
