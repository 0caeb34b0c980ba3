-- ===== src/Pcp/Steps/Handlers.antt =====
-- Every handler of a request is a step of the relation.
use sixup.Common.{
  ℕ, ◌≤◌, ◌<◌, ◌≡◌, ◌≢◌, ◌⊎◌, refl, Bool, true, false, not, ◌&&◌, ◌||◌, List, Option, none, some,
  ◌==◌, leb, Bool-cases, Option-cases, inl, inr, arith, bytes_eq, from_be, slice,
}
use sixup.Netip.{Addr, is4, addr_valid, is_global_unicast, is_private}
use sixup.Pcp.Wire.{
  pcp_proto_udp, pcp_client_port, pcp_server_port, pcp_max_per_host, pcp_min_lifetime,
  pcp_max_lifetime,
}
use sixup.Pcp.State.{PcpServer, PcpKey, PcpMap, Host, find, put, push, host_mappings}
use sixup.Pcp.State.Maps.{find-delete_self}
use sixup.Pcp.Ports.Pick.{pick_port-usable}
use sixup.Pcp.Mapping.{
  Ask, own_port, grant, renew, remove, update, map_stateful, mapping4, pinhole, mapping6, mapping,
  mapping_error, ask_of, tcp_or_udp, clamp_lifetime, expiry, unmet, nonce_of, suggested_of,
}
use package.sixup.Pcp.Steps.{IsLifetime, IsGrantable, Change, same, renewed, removed, granted, both}

-- A lifetime as the handlers get it: 0, or clamped.
abbrev pub IsClamped : ℕ → Type 0
IsClamped lifetime = lifetime ≢ 0 → (pcp_min_lifetime ≤ lifetime) × (lifetime ≤ pcp_max_lifetime)

pub clamp_lifetime-IsClamped : (lifetime : ℕ) → IsClamped (clamp_lifetime lifetime)
clamp_lifetime-IsClamped lifetime h = ground arith

expiry-IsLifetime :
    (a : Ask) (now : ℕ) → a.lifetime ≢ 0 → IsClamped a.lifetime → IsLifetime now (expiry a now)
expiry-IsLifetime a now h c = omega (arith, c h)

-- The facts about `pick` that the handlers' closures meet.
abbrev Picks : Host → PcpKey → (PcpServer → ℕ → Option ℕ) → Type 0
Picks host key pick = (q : PcpServer) (s e : ℕ) → pick q s ≡ some e → IsGrantable q host key e

abbrev pub new_map : Ask → ℕ → ℕ → PcpMap
new_map a e now = record { external = e; nonce = nonce_of a; expires = expiry a now }

-- A grant leaves the state, or stores the port that was picked.
pub grant_cases :
    (p : PcpServer) (now : ℕ) (a : Ask) (pick : PcpServer → ℕ → Option ℕ)
    → ((grant p now a pick).0 ≡ p)
      ⊎ ((e : ℕ) × (pick p (suggested_of a) ≡ some e)
          × (host_mappings a.key.internal.addr p.maps < pcp_max_per_host)
          × ((grant p now a pick).0
              ≡ push (record p { maps = put a.key (new_map a e now) p.maps })))
unfolding grant
grant_cases p now a pick =
    elim (Bool-cases (leb pcp_max_per_host (host_mappings a.key.internal.addr p.maps))) [
      | inl full ↦ inl (rw full)
      | inr space ↦ elim (Option-cases (pick p (suggested_of a))) [
        | inl nothing ↦ inl (elim (Bool-cases a.prefer_failure) [
          | inl c ↦ rw (space, nothing, c, grant)
          | inr c ↦ rw (space, nothing, c, grant)
        ])
        | inr (e, found) ↦ elim (Bool-cases (unmet a e)) [
          | inl refused ↦ inl (rw (space, found, refused, grant))
          | inr met ↦ inr (e, found, ground arith, rw (space, found, met, grant))
        ]
      ]
    ]

module _ (host : Host) (a : Ask) (pick : PcpServer → ℕ → Option ℕ) (asked : a.lifetime ≢ 0)
    (clamped : IsClamped a.lifetime) (picks : Picks host a.key pick) where
  grant-Change :
      (p : PcpServer)
      → find a.key p.maps ≡ none
      → Change host a.key.internal.addr p (grant p host.now a pick).0
  grant-Change p absent = elim (grant_cases p host.now a pick) [
    | inl unchanged ↦ rw unchanged (same p)
    | inr (e, found, space, changed) ↦ rw changed (
        granted p a.key (new_map a e host.now) refl absent space (picks p (suggested_of a) e found)
          (expiry-IsLifetime a host.now asked clamped))
  ]

  renew-Change :
      (p : PcpServer) (cur : PcpMap)
      → find a.key p.maps ≡ some cur
      → Change host a.key.internal.addr p (renew p host.now a cur).0
  unfolding renew
  renew-Change p cur found = elim (Bool-cases (unmet a cur.external)) [
    | inl refused ↦ rw refused (same p)
    | inr met ↦ rw met (
        renewed p a.key cur (expiry a host.now) refl found
          (expiry-IsLifetime a host.now asked clamped))
  ]

find-remove : (p : PcpServer) (key : PcpKey) → find key (remove p key).maps ≡ none
unfolding remove push
find-remove p key = find-delete_self key p.maps

module _ (host : Host) (a : Ask) (pick : PcpServer → ℕ → Option ℕ) (clamped : IsClamped a.lifetime)
    (picks : Picks host a.key pick) (stale : ℕ → Bool) where
  update-Change :
      (p : PcpServer) (cur : PcpMap)
      → find a.key p.maps ≡ some cur
      → Change host a.key.internal.addr p (update p host.now a cur pick stale).0
  unfolding update
  update-Change p cur found = elim (Bool-cases (a.lifetime == 0)) [
    | inl zero_asked ↦ rw zero_asked (removed p a.key refl)
    | inr asked ↦
        let asked' : a.lifetime ≢ 0 = ground arith in
        rw asked (elim (Bool-cases (stale cur.external)) [
          | inl moved ↦ rw moved (
              both (removed p a.key refl) (
                grant-Change host a pick asked' clamped picks (remove p a.key)
                  (find-remove p a.key)))
          | inr kept ↦ rw kept (renew-Change host a pick asked' clamped picks p cur found)
        ])
  ]

  map_stateful-Change :
      (p : PcpServer) → Change host a.key.internal.addr p (map_stateful p host.now a pick stale).0
  unfolding map_stateful
  map_stateful-Change p = elim (Option-cases (find a.key p.maps)) [
    | inl absent ↦
        rw (absent, map_stateful)
          (elim (Bool-cases (a.lifetime == 0)) [
            | inl zero_asked ↦ rw zero_asked (same p)
            | inr asked ↦ rw asked (grant-Change host a pick (ground arith) clamped picks p absent)
          ])
    | inr (cur, found) ↦
        rw (found, map_stateful)
          (elim (Bool-cases (bytes_eq cur.nonce (nonce_of a))) [
            | inl known ↦ rw known (update-Change p cur found)
            | inr other ↦ rw other (same p)
          ])
  ]

-- The family handlers, each from the tests that guard it.
pub mapping4-Change :
    (p : PcpServer) (host : Host) (a : Ask)
    → IsClamped a.lifetime
    → is4 a.key.internal.addr ≡ true
    → Change host a.key.internal.addr p (mapping4 p host a).0
unfolding mapping4
mapping4-Change p host a clamped four = elim (Bool-cases (addr_valid p.ipv4)) [
  | inr nothing ↦ rw nothing (same p)
  | inl there ↦ elim (Bool-cases (not (tcp_or_udp a.key.proto) || a.key.internal.port == 0)) [
    | inl refused ↦ rw (there, refused) (same p)
    | inr sound ↦
        rw (there, sound)
          (map_stateful-Change host (record a { ext = p.ipv4 }) _ clamped
            (λ q s e found. record {
              transport = ground arith;
              named = ground arith;
              over_ipv4 = λ _.
                  pick_port-usable host q a.key.proto a.key.internal.port s a.prefer_failure e
                    found;
              over_ipv6 = λ six. ground arith;
            })
            (host.local_ports a.key.proto p.ipv4) p)
  ]
]

own_port-Picks :
    (host : Host) (a : Ask)
    → is4 a.key.internal.addr ≡ false
    → (not (tcp_or_udp a.key.proto) || a.key.internal.port == 0) ≡ false
    → Picks host a.key (own_port a)
own_port-Picks host a six sound q s e found = record {
  transport = ground arith;
  named = ground arith;
  over_ipv4 = λ four. ground arith;
  over_ipv6 = λ _. ground arith;
}

pinhole-Change :
    (p : PcpServer) (host : Host) (a : Ask)
    → IsClamped a.lifetime
    → is4 a.key.internal.addr ≡ false
    → Change host a.key.internal.addr p (pinhole p host.now a).0
unfolding pinhole
pinhole-Change p host a clamped six =
    elim (Bool-cases (not (tcp_or_udp a.key.proto) || a.key.internal.port == 0)) [
      | inl refused ↦ rw refused (same p)
      | inr sound ↦ rw sound (
          map_stateful-Change host (record a { ext = a.key.internal.addr }) (own_port a) clamped
            (own_port-Picks host a six sound) (λ e. false) p)
    ]

-- Three ways out of `mapping6` leave the state; the fourth is the pinhole.
pub mapping6_cases :
    (p : PcpServer) (now : ℕ) (a : Ask)
    → ((mapping6 p now a).0 ≡ p) ⊎ (mapping6 p now a ≡ pinhole p now a)
unfolding mapping6
mapping6_cases p now a =
    elim (Bool-cases (
      a.key.proto == pcp_proto_udp
      && (a.key.internal.port == pcp_client_port || a.key.internal.port == pcp_server_port))) [
        | inl own ↦ inl (rw own)
        | inr other ↦
            elim (Bool-cases
              (not (is_global_unicast a.key.internal.addr) || is_private a.key.internal.addr)) [
                | inl hidden ↦ inl (rw (other, hidden))
                | inr global ↦ elim (Bool-cases p.fw) [
                  | inl filtered ↦ inr (rw (other, global, filtered))
                  | inr through ↦ inl (rw (other, global, through))
                ]
              ]
      ]

mapping6-Change :
    (p : PcpServer) (host : Host) (a : Ask)
    → IsClamped a.lifetime
    → is4 a.key.internal.addr ≡ false
    → Change host a.key.internal.addr p (mapping6 p host.now a).0
mapping6-Change p host a clamped six = elim (mapping6_cases p host.now a) [
  | inl unchanged ↦ rw unchanged (same p)
  | inr opened ↦ rw opened (pinhole-Change p host a clamped six)
]

pub mapping-Change :
    (p : PcpServer) (host : Host) (req : List ℕ) (src : Addr)
    → Change host src p (mapping p host req src).0
unfolding mapping ask_of
mapping-Change p host req src = elim (Bool-cases (not (mapping_error req src == 0))) [
  | inl refused ↦ rw refused (same p)
  | inr sound ↦ elim (Bool-cases (is4 src)) [
    | inl four ↦
        rw (sound, four)
          (mapping4-Change p host (ask_of req src)
            (clamp_lifetime-IsClamped (from_be (slice 4 8 req))) four)
    | inr six ↦
        rw (sound, six)
          (mapping6-Change p host (ask_of req src)
            (clamp_lifetime-IsClamped (from_be (slice 4 8 req))) six)
  ]
]
