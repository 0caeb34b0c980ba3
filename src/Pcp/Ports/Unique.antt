-- ===== src/Pcp/Ports/Unique.antt =====
-- No two IPv4 mappings of a protocol share an external port.
use sixup.Common.{
  ℕ, ◌≡◌, Bool, true, false, ◌&&◌, ◌||◌, List, [], ◌∷◌, none, some, ◌==◌, arith, refl,
}
use sixup.Netip.{is4}
use sixup.Pcp.State.{PcpServer, PcpKey, PcpMap, find, put, delete_func}
use sixup.Pcp.State.Maps.{key_eq_iff}
use package.sixup.Pcp.Ports.{taken, usable}

-- Is the external port taken by an IPv4 mapping of the protocol?
unfoldable pub taken4 : ℕ → ℕ → List (PcpKey × PcpMap) → Bool
unfolding is4
taken4 proto e [] = false
taken4 proto e ((k, m) ∷ ms) =
    (is4 k.internal.addr && (k.proto == proto && m.external == e)) || taken4 proto e ms

abbrev pub IsUnique : List (PcpKey × PcpMap) → Type 0
IsUnique [] = Unit {0}
IsUnique ((k, m) ∷ ms) =
    (is4 k.internal.addr ≡ true → taken4 k.proto m.external ms ≡ false) × IsUnique ms

taken4-taken :
    (proto e : ℕ) (ms : List (PcpKey × PcpMap))
    → taken proto e ms ≡ false
    → taken4 proto e ms ≡ false
unfolding taken taken4
taken4-taken proto e [] h = refl
taken4-taken proto e ((k, m) ∷ ms) h = ground (arith, taken4-taken proto e ms)

taken4-delete_func :
    (proto e : ℕ) (gone : PcpKey → PcpMap → Bool) (ms : List (PcpKey × PcpMap))
    → taken4 proto e ms ≡ false
    → taken4 proto e (delete_func gone ms) ≡ false
unfolding delete_func taken4
taken4-delete_func proto e gone [] h = refl
taken4-delete_func proto e gone ((k, m) ∷ ms) h = ground (arith, taken4-delete_func proto e gone ms)

pub IsUnique-delete_func :
    (gone : PcpKey → PcpMap → Bool) (ms : List (PcpKey × PcpMap))
    → IsUnique ms
    → IsUnique (delete_func gone ms)
unfolding delete_func
IsUnique-delete_func gone [] u = tt
IsUnique-delete_func gone ((k, m) ∷ ms) u =
    ground (arith, taken4-delete_func k.proto m.external gone ms, IsUnique-delete_func gone ms u.1)

taken4-put_same :
    (proto e : ℕ) (key : PcpKey) (cur v : PcpMap) (ms : List (PcpKey × PcpMap))
    → find key ms ≡ some cur
    → v.external ≡ cur.external
    → taken4 proto e (put key v ms) ≡ taken4 proto e ms
unfolding find put taken4
taken4-put_same proto e key cur v [] f h = absurd (ground arith)
taken4-put_same proto e key cur v ((k, m) ∷ ms) f h =
    ground (arith, taken4-put_same proto e key cur v ms)

pub IsUnique-put_same :
    (key : PcpKey) (cur v : PcpMap) (ms : List (PcpKey × PcpMap))
    → find key ms ≡ some cur
    → v.external ≡ cur.external
    → IsUnique ms
    → IsUnique (put key v ms)
unfolding find put
IsUnique-put_same key cur v [] f h u = absurd (ground arith)
IsUnique-put_same key cur v ((k, m) ∷ ms) f h u =
    ground (arith, taken4-put_same k.proto m.external key cur v ms, IsUnique-put_same key cur v ms)

taken4-put_new :
    (proto e : ℕ) (key : PcpKey) (v : PcpMap) (ms : List (PcpKey × PcpMap))
    → find key ms ≡ none
    → taken4 proto e (put key v ms)
      ≡ (taken4 proto e ms || is4 key.internal.addr && (key.proto == proto && v.external == e))
unfolding find put taken4
taken4-put_new proto e key v [] f = ground arith
taken4-put_new proto e key v ((k, m) ∷ ms) f = ground (arith, taken4-put_new proto e key v ms)

taken4_head :
    (proto e : ℕ) (k : PcpKey) (m : PcpMap) (ms : List (PcpKey × PcpMap))
    → taken4 proto e ((k, m) ∷ ms) ≡ false
    → (taken4 proto e ms ≡ false)
      × ((is4 k.internal.addr && (k.proto == proto && m.external == e)) ≡ false)
unfolding taken4
taken4_head proto e k m ms h = ground arith

pub IsUnique-put_new :
    (key : PcpKey) (v : PcpMap) (ms : List (PcpKey × PcpMap))
    → find key ms ≡ none
    → (is4 key.internal.addr ≡ true → taken4 key.proto v.external ms ≡ false)
    → IsUnique ms
    → IsUnique (put key v ms)
unfolding find put
IsUnique-put_new key v [] f free u = ground arith
IsUnique-put_new key v ((k, m) ∷ ms) f free u = ground (
  arith,
  taken4_head key.proto v.external k m ms,
  taken4-put_new k.proto m.external key v ms,
  IsUnique-put_new key v ms,
)

-- A usable port is free, high enough, not one of this server's own, not listened on here, and in
-- the line's set where there is one.
pub usable-free :
    (local : ℕ → Bool) (p : PcpServer) (proto e : ℕ)
    → usable local p proto e ≡ true
    → taken4 proto e p.maps ≡ false
unfolding usable
usable-free local p proto e h = ground (arith, taken4-taken proto e p.maps)

found_taken4 :
    (key : PcpKey) (m : PcpMap) (ms : List (PcpKey × PcpMap))
    → find key ms ≡ some m
    → is4 key.internal.addr ≡ true
    → taken4 key.proto m.external ms ≡ true
unfolding find taken4
found_taken4 key v [] f four = absurd (ground arith)
found_taken4 key v ((k, m) ∷ ms) f four = ground (arith, key_eq_iff k key, found_taken4 key v ms)

-- Two keys that hold one external port of one protocol are one key.
pub IsUnique-one_key :
    (j k : PcpKey) (a b : PcpMap) (ms : List (PcpKey × PcpMap))
    → IsUnique ms
    → find j ms ≡ some a
    → find k ms ≡ some b
    → is4 j.internal.addr ≡ true
    → is4 k.internal.addr ≡ true
    → j.proto ≡ k.proto
    → a.external ≡ b.external
    → j ≡ k
unfolding find
IsUnique-one_key j k a b [] u f g four four' proto ext = absurd (ground arith)
IsUnique-one_key j k a b ((i, m) ∷ ms) u f g four four' proto ext = ground (
  arith,
  key_eq_iff i j,
  key_eq_iff i k,
  found_taken4 j a ms,
  found_taken4 k b ms,
  IsUnique-one_key j k a b ms u.1,
)
