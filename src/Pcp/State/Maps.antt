-- ===== src/Pcp/State/Maps.antt =====
-- Laws of the association list: lookups after a write or a deletion, and its families.
use sixup.Common.{
  suc, ◌≤◌, ◌≡◌, ◌↔◌, refl, Bool, true, false, List, [], ◌∷◌, none, some, if◌then◌else◌, length,
  arith,
}
use sixup.Netip.{Addr, addr_eq}
use sixup.Netip.Laws.{addr_port_eq_iff}
use package.sixup.Pcp.State.{PcpKey, PcpMap, key_eq, find, put, delete_func, family, host_mappings}

pub key_eq_iff : (a b : PcpKey) → (key_eq a b ≡ true) ↔ (a ≡ b)
unfolding key_eq
key_eq_iff a b = ground (arith, addr_port_eq_iff a.internal b.internal)

pub find-put :
    (key j : PcpKey) (v : PcpMap) (ms : List (PcpKey × PcpMap))
    → find j (put key v ms) ≡ (if key_eq key j then some v else find j ms)
unfolding find put
find-put key j v [] = refl
find-put key j v ((k, m) ∷ ms) =
    ground (arith, key_eq_iff k key, key_eq_iff k j, key_eq_iff key j, find-put key j v ms)

-- A deletion that spares a key's mapping keeps what is found.
pub find-delete_func_kept :
    (gone : PcpKey → PcpMap → Bool) (j : PcpKey) (ms : List (PcpKey × PcpMap))
    → ((m : PcpMap) → gone j m ≡ false)
    → find j (delete_func gone ms) ≡ find j ms
unfolding find delete_func
find-delete_func_kept gone j [] h = refl
find-delete_func_kept gone j ((k, m) ∷ ms) h =
    ground (arith, key_eq_iff k j, h m, find-delete_func_kept gone j ms h)

pub find-delete_self :
    (key : PcpKey) (ms : List (PcpKey × PcpMap))
    → find key (delete_func (λ k m. key_eq k key) ms) ≡ none
unfolding find delete_func
find-delete_self key [] = refl
find-delete_self key ((k, m) ∷ ms) = ground (arith, find-delete_self key ms)

-- A deletion that removes nothing leaves the list.
pub length-delete_func-le :
    (gone : PcpKey → PcpMap → Bool) (ms : List (PcpKey × PcpMap))
    → length (delete_func gone ms) ≤ length ms
unfolding delete_func
length-delete_func-le gone [] = omega arith
length-delete_func-le gone ((k, m) ∷ ms) = ground (arith, length-delete_func-le gone ms)

pub delete_func_nothing :
    (gone : PcpKey → PcpMap → Bool) (ms : List (PcpKey × PcpMap))
    → length (delete_func gone ms) ≡ length ms
    → delete_func gone ms ≡ ms
unfolding delete_func
delete_func_nothing gone [] h = refl
delete_func_nothing gone ((k, m) ∷ ms) h =
    ground (arith, length-delete_func-le gone ms, delete_func_nothing gone ms)

-- A write that keeps the external port changes neither family.
pub family-put :
    (four : Bool) (key : PcpKey) (cur v : PcpMap) (ms : List (PcpKey × PcpMap))
    → find key ms ≡ some cur
    → v.external ≡ cur.external
    → family four (put key v ms) ≡ family four ms
unfolding find put family
family-put four key cur v [] h e = absurd (ground arith)
family-put four key cur v ((k, m) ∷ ms) h e = ground (arith, family-put four key cur v ms)

pub host_mappings-put :
    (host : Addr) (key : PcpKey) (v : PcpMap) (ms : List (PcpKey × PcpMap))
    → find key ms ≡ none
    → host_mappings host (put key v ms) ≡ (
        if addr_eq key.internal.addr host
        then suc (host_mappings host ms)
        else host_mappings host ms)
unfolding find put host_mappings
host_mappings-put host key v [] h = refl
host_mappings-put host key v ((k, m) ∷ ms) h = ground (arith, host_mappings-put host key v ms)

pub host_mappings-put_same :
    (host : Addr) (key : PcpKey) (cur v : PcpMap) (ms : List (PcpKey × PcpMap))
    → find key ms ≡ some cur
    → host_mappings host (put key v ms) ≡ host_mappings host ms
unfolding find put host_mappings
host_mappings-put_same host key cur v [] h = absurd (ground arith)
host_mappings-put_same host key cur v ((k, m) ∷ ms) h =
    ground (arith, host_mappings-put_same host key cur v ms)

pub host_mappings-delete_func :
    (host : Addr) (gone : PcpKey → PcpMap → Bool) (ms : List (PcpKey × PcpMap))
    → host_mappings host (delete_func gone ms) ≤ host_mappings host ms
unfolding delete_func host_mappings
host_mappings-delete_func host gone [] = omega arith
host_mappings-delete_func host gone ((k, m) ∷ ms) =
    ground (arith, host_mappings-delete_func host gone ms)

-- A key that is absent stays absent.
pub find-delete_func-none :
    (gone : PcpKey → PcpMap → Bool) (j : PcpKey) (ms : List (PcpKey × PcpMap))
    → find j ms ≡ none
    → find j (delete_func gone ms) ≡ none
unfolding find delete_func
find-delete_func-none gone j [] h = refl
find-delete_func-none gone j ((k, m) ∷ ms) h = ground (arith, find-delete_func-none gone j ms)

-- A deletion by key.
pub find-delete_keys :
    (gone : PcpKey → Bool) (j : PcpKey) (ms : List (PcpKey × PcpMap))
    → find j (delete_func (λ k m. gone k) ms) ≡ (if gone j then none else find j ms)
unfolding find delete_func
find-delete_keys gone j [] = ground arith
find-delete_keys gone j ((k, m) ∷ ms) = ground (arith, key_eq_iff k j, find-delete_keys gone j ms)

-- The list stands for a map: no key comes twice.
abbrev pub IsKeyed : List (PcpKey × PcpMap) → Type 0
IsKeyed [] = Unit {0}
IsKeyed ((k, m) ∷ ms) = (find k ms ≡ none) × IsKeyed ms

pub IsKeyed-delete_func :
    (gone : PcpKey → PcpMap → Bool) (ms : List (PcpKey × PcpMap))
    → IsKeyed ms
    → IsKeyed (delete_func gone ms)
unfolding delete_func
IsKeyed-delete_func gone [] h = tt
IsKeyed-delete_func gone ((k, m) ∷ ms) h =
    ground (arith, find-delete_func-none gone k ms h.0, IsKeyed-delete_func gone ms h.1)

pub IsKeyed-put :
    (key : PcpKey) (v : PcpMap) (ms : List (PcpKey × PcpMap)) → IsKeyed ms → IsKeyed (put key v ms)
unfolding find put
IsKeyed-put key v [] h = (refl, tt)
IsKeyed-put key v ((k, m) ∷ ms) h =
    ground
      (arith, key_eq_iff k key, key_eq_iff key k, find-put key k v ms, IsKeyed-put key v ms h.1)

-- A deletion by what is stored, in a list without repeated keys.
pub find-delete_func :
    (gone : PcpKey → PcpMap → Bool) (j : PcpKey) (ms : List (PcpKey × PcpMap))
    → IsKeyed ms
    → find j (delete_func gone ms)
      ≡ (elim (find j ms) [ none ↦ none | some m ↦ if gone j m then none else some m ])
unfolding find delete_func
find-delete_func gone j [] h = refl
find-delete_func gone j ((k, m) ∷ ms) h =
    ground
      (arith, key_eq_iff k j, find-delete_func gone j ms h.1, find-delete_func-none gone k ms h.0)
