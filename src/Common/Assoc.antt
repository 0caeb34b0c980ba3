-- ===== src/Common/Assoc.antt =====
-- Go's maps as association lists: a key stands at most once, and a new key goes to the end.
use mathlib.Core.Path.{◌≡◌, refl, subst}
use mathlib.Core.Logic.{inl, inr}
use mathlib.Core.Bool.{Bool, true, false}
use mathlib.Core.List.{List, [], ◌∷◌, ◌++◌}
use mathlib.Core.Option.{Option, none, some, some-injective}
use native.Mathlib.Omega.{arith}
use package.sixup.Common.Tests.{if◌then◌else◌, Bool-cases}

-- A property of every value.
abbrev pub AllValues : {K V : Type 0} → (V → Type 0) → List (K × V) → Type 0
AllValues P [] = Unit
AllValues P ((k, v) ∷ m) = P v × AllValues P m

pub AllValues-last :
    {K V : Type 0} (P : V → Type 0) (m : List (K × V)) (k : K) (v : V)
    → AllValues P m
    → P v
    → AllValues P (m ++ ((k, v) ∷ []))
AllValues-last P [] k v all h = (h, tt)
AllValues-last P ((j, w) ∷ m) k v all h = (all.0, AllValues-last P m k v all.1 h)

module _ {K V : Type 0} (same : K → K → Bool) where
  -- `m[k]`, with `none` for a missing key.
  unfoldable pub get : K → List (K × V) → Option V
  get k [] = none
  get k ((j, v) ∷ m) = let rest = get k m in if same j k then some v else rest

  -- `m[k] = v`.
  unfoldable pub put : K → V → List (K × V) → List (K × V)
  put k v [] = (k, v) ∷ []
  put k v ((j, w) ∷ m) = let rest = put k v m in if same j k then (j, v) ∷ m else (j, w) ∷ rest

  -- `delete(m, k)`.
  unfoldable pub delete : K → List (K × V) → List (K × V)
  delete k [] = []
  delete k ((j, v) ∷ m) = let rest = delete k m in if same j k then rest else (j, v) ∷ rest

  pub put-AllValues :
      (P : V → Type 0) (k : K) (v : V) (m : List (K × V))
      → P v
      → AllValues P m
      → AllValues P (put k v m)
  unfolding put
  put-AllValues P k v [] h all = (h, tt)
  put-AllValues P k v ((j, w) ∷ m) h all = elim (Bool-cases (same j k)) [
    | inl here ↦ rw here (h, all.1)
    | inr further ↦ rw further (all.0, put-AllValues P k v m h all.1)
  ]

  pub delete-AllValues :
      (P : V → Type 0) (k : K) (m : List (K × V)) → AllValues P m → AllValues P (delete k m)
  unfolding delete
  delete-AllValues P k [] all = tt
  delete-AllValues P k ((j, w) ∷ m) all = elim (Bool-cases (same j k)) [
    | inl here ↦ rw here (delete-AllValues P k m all.1)
    | inr further ↦ rw further (all.0, delete-AllValues P k m all.1)
  ]

  pub get-AllValues :
      (P : V → Type 0) (k : K) (m : List (K × V)) (v : V) → AllValues P m → get k m ≡ some v → P v
  unfolding get
  get-AllValues P k [] v all h = absurd (ground arith)
  get-AllValues P k ((j, w) ∷ m) v all h = elim (Bool-cases (same j k)) [
    | inl here ↦ subst P (some-injective w v (rw here at h)) all.0
    | inr further ↦ get-AllValues P k m v all.1 (rw further at h)
  ]

  -- The first entry is the key's, or another's.
  pub put-here :
      (k : K) (v : V) (j : K) (w : V) (m : List (K × V))
      → same j k ≡ true
      → put k v ((j, w) ∷ m) ≡ (j, v) ∷ m
  unfolding put
  put-here k v j w m h = rw h refl

  pub put-further :
      (k : K) (v : V) (j : K) (w : V) (m : List (K × V))
      → same j k ≡ false
      → put k v ((j, w) ∷ m) ≡ (j, w) ∷ put k v m
  unfolding put
  put-further k v j w m h = rw h refl

  pub get-here :
      (k j : K) (w : V) (m : List (K × V)) → same j k ≡ true → get k ((j, w) ∷ m) ≡ some w
  unfolding get
  get-here k j w m h = rw h refl

  pub get-further :
      (k j : K) (w : V) (m : List (K × V)) → same j k ≡ false → get k ((j, w) ∷ m) ≡ get k m
  unfolding get
  get-further k j w m h = rw h refl
