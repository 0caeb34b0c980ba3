-- ===== src/Pcp/Nonce.antt =====
-- The nonce of a mapping protects it: RFC 6887 section 11.3.
use sixup.Common.{
  ℕ, ◌+◌, ◌≡◌, ◌⊎◌, ◌∙◌, Bool, false, not, ◌||◌, List, Option, some, ◌==◌, bytes_eq, take, slice,
  get_or, arith, inl, inr, Bool-cases, Option-cases,
}
use sixup.Netip.{Addr, is4, addr_valid}
use sixup.Pcp.Wire.{pcp_version, pcp_header_len, pcp_map_len}
use sixup.Pcp.State.{PcpServer, PcpKey, PcpMap, Host, key_eq, find, push}
use sixup.Pcp.State.Maps.{key_eq_iff, find-put, find-delete_keys}
use sixup.Pcp.Mapping.{
  Ask, nonce_of, unmet, grant, renew, remove, update, map_stateful, mapping4, pinhole, mapping6,
  mapping, mapping_error, ask_of, tcp_or_udp,
}
use sixup.Pcp.Respond.{handle, dispatch}
use sixup.Pcp.Steps.Handlers.{grant_cases, new_map, mapping6_cases}
use sixup.Pcp.Steps.Requests.{dispatch_cases}

find-remove_key :
    (p : PcpServer) (key j : PcpKey)
    → key_eq key j ≡ false
    → find j (remove p key).maps ≡ find j p.maps
unfolding remove push
find-remove_key p key j miss =
    rw (find-delete_keys (λ k. key_eq k key) j p.maps)
      (ground (arith, key_eq_iff key j, key_eq_iff j key))

module _ (now : ℕ) (a : Ask) (pick : PcpServer → ℕ → Option ℕ) (j : PcpKey)
    (miss : key_eq a.key j ≡ false) where
  find-grant : (p : PcpServer) → find j (grant p now a pick).0.maps ≡ find j p.maps
  unfolding push
  find-grant p = elim (grant_cases p now a pick) [
    | inl unchanged ↦ rw unchanged
    | inr (e, _, _, changed) ↦ rw (changed, find-put a.key j (new_map a e now) p.maps, miss)
  ]

  find-renew : (p : PcpServer) (cur : PcpMap) → find j (renew p now a cur).0.maps ≡ find j p.maps
  unfolding renew
  find-renew p cur = elim (Bool-cases (unmet a cur.external)) [
    | inl refused ↦ rw refused
    | inr met ↦ rw (met, find-put a.key j _ p.maps, miss)
  ]

  find-update :
      (p : PcpServer) (cur : PcpMap) (stale : ℕ → Bool)
      → find j (update p now a cur pick stale).0.maps ≡ find j p.maps
  unfolding update
  find-update p cur stale = elim (Bool-cases (a.lifetime == 0)) [
    | inl release ↦ rw release (find-remove_key p a.key j miss)
    | inr asked ↦ rw asked (elim (Bool-cases (stale cur.external)) [
      | inl moved ↦ rw moved (find-grant (remove p a.key) ∙ find-remove_key p a.key j miss)
      | inr kept ↦ rw kept (find-renew p cur)
    ])
  ]

-- The state after it has every mapping whose nonce is another one.
abbrev Spares : List ℕ → PcpServer → PcpServer → Type 0
Spares nonce p q =
    (j : PcpKey) (m : PcpMap)
    → find j p.maps ≡ some m
    → bytes_eq m.nonce nonce ≡ false
    → find j q.maps ≡ some m

map_stateful-Spares :
    (p : PcpServer) (now : ℕ) (a : Ask) (pick : PcpServer → ℕ → Option ℕ) (stale : ℕ → Bool)
    → Spares (nonce_of a) p (map_stateful p now a pick stale).0
unfolding map_stateful
map_stateful-Spares p now a pick stale j m f other = elim (Option-cases (find a.key p.maps)) [
  | inl absent ↦
      let miss : key_eq a.key j ≡ false = ground (arith, key_eq_iff a.key j) in
      rw (absent, map_stateful)
        (elim (Bool-cases (a.lifetime == 0)) [
          | inl release ↦ rw release f
          | inr asked ↦ rw asked (find-grant now a pick j miss p ∙ f)
        ])
  | inr (cur, found) ↦
      rw (found, map_stateful)
        (elim (Bool-cases (bytes_eq cur.nonce (nonce_of a))) [
          | inr stranger ↦ rw stranger f
          | inl known ↦
              let miss : key_eq a.key j ≡ false = ground (arith, key_eq_iff a.key j) in
              rw known (find-update now a pick j miss p cur stale ∙ f)
        ])
]

mapping4-Spares :
    (p : PcpServer) (host : Host) (a : Ask) → Spares (nonce_of a) p (mapping4 p host a).0
unfolding mapping4
mapping4-Spares p host a j m f other = elim (Bool-cases (addr_valid p.ipv4)) [
  | inr nothing ↦ rw nothing f
  | inl there ↦ elim (Bool-cases (not (tcp_or_udp a.key.proto) || a.key.internal.port == 0)) [
    | inl refused ↦ rw (there, refused) f
    | inr sound ↦
        rw (there, sound)
          (map_stateful-Spares p host.now (record a { ext = p.ipv4 }) _ _ j m f other)
  ]
]

pinhole-Spares : (p : PcpServer) (now : ℕ) (a : Ask) → Spares (nonce_of a) p (pinhole p now a).0
unfolding pinhole
pinhole-Spares p now a j m f other =
    elim (Bool-cases (not (tcp_or_udp a.key.proto) || a.key.internal.port == 0)) [
      | inl refused ↦ rw refused f
      | inr sound ↦
          rw sound
            (map_stateful-Spares p now (record a { ext = a.key.internal.addr }) _ _ j m f other)
    ]

mapping6-Spares : (p : PcpServer) (now : ℕ) (a : Ask) → Spares (nonce_of a) p (mapping6 p now a).0
mapping6-Spares p now a j m f other = elim (mapping6_cases p now a) [
  | inl unchanged ↦ rw unchanged f
  | inr opened ↦ rw opened (pinhole-Spares p now a j m f other)
]

-- The nonce of a MAP request.
abbrev pub request_nonce : List ℕ → List ℕ
request_nonce req = take 12 (slice pcp_header_len (pcp_header_len + pcp_map_len) req)

mapping-Spares :
    (p : PcpServer) (host : Host) (req : List ℕ) (src : Addr)
    → Spares (request_nonce req) p (mapping p host req src).0
unfolding mapping ask_of
mapping-Spares p host req src j m f other = elim (Bool-cases (not (mapping_error req src == 0))) [
  | inl refused ↦ rw refused f
  | inr sound ↦ elim (Bool-cases (is4 src)) [
    | inl four ↦ rw (sound, four) (mapping4-Spares p host (ask_of req src) j m f other)
    | inr six ↦ rw (sound, six) (mapping6-Spares p host.now (ask_of req src) j m f other)
  ]
]

handle_pcp :
    (p : PcpServer) (host : Host) (req : List ℕ) (src : Addr)
    → get_or req 0 0 ≡ pcp_version
    → ((handle p host req src).0 ≡ p) ⊎ ((handle p host req src).0 ≡ (dispatch p host req src).0)
unfolding handle
handle_pcp p host req src v = ground arith

-- A request in PCP's version neither changes nor removes a mapping made under another nonce than
-- its own.
pub handle-find_nonce :
    (p : PcpServer) (host : Host) (req : List ℕ) (src : Addr) (j : PcpKey) (m : PcpMap)
    → get_or req 0 0 ≡ pcp_version
    → find j p.maps ≡ some m
    → bytes_eq m.nonce (request_nonce req) ≡ false
    → find j (handle p host req src).0.maps ≡ some m
handle-find_nonce p host req src j m v f other = elim (handle_pcp p host req src v) [
  | inl unchanged ↦ rw unchanged f
  | inr new ↦ rw new (elim (dispatch_cases p host req src) [
    | inl unchanged ↦ rw unchanged f
    | inr mapped ↦ rw mapped (mapping-Spares p host req src j m f other)
  ])
]
