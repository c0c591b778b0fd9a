-- ===== src/Base/Map.antt =====
-- A JavaScript `Map`: entries in insertion order, one for each key. `insert` on a present key keeps
-- its place. `lookup` is `get`, `insert` is `set`, `erase` is `delete`.
use mathlib.Core.List.{List, [], ◌∷◌}
use mathlib.Core.Option.{Option, none, some}
use mathlib.Core.Path.{◌≡◌, refl}
use native.Mathlib.Omega.{arith}
use parasor.Base.Classes.{Eq, ◌==◌, equals_self}
use parasor.Base.Tests.{if◌then◌else◌}

module _ {ℓ κ} {K : Type ℓ} {V : Type κ} ⦃e : Eq K⦄ where
  unfoldable pub lookup : K → List (K × V) → Option V
  lookup k [] = none
  lookup k ((j, v) ∷ m) = if j == k then some v else lookup k m

  unfoldable pub insert : K → V → List (K × V) → List (K × V)
  insert k v [] = (k, v) ∷ []
  insert k v ((j, w) ∷ m) = if j == k then (k, v) ∷ m else (j, w) ∷ insert k v m

  unfoldable pub erase : K → List (K × V) → List (K × V)
  erase k [] = []
  erase k ((j, w) ∷ m) = if j == k then erase k m else (j, w) ∷ erase k m

  pub lookup-insert :
      (set asked : K) (value : V) (entries : List (K × V))
      → lookup asked (insert set value entries)
        ≡ (if set == asked then some value else lookup asked entries)
  unfolding lookup insert
  lookup-insert set asked value [] = refl
  lookup-insert set asked value ((i, w) ∷ rest) = ground (
    arith,
    e.equals_iff set asked,
    e.equals_iff i set,
    e.equals_iff i asked,
    lookup-insert set asked value rest,
  )

  pub lookup-insert_self :
      (k : K) (value : V) (entries : List (K × V)) → lookup k (insert k value entries) ≡ some value
  lookup-insert_self k value entries = rw (lookup-insert k k value entries, equals_self k)

  pub lookup-erase :
      (k j : K) (m : List (K × V)) → lookup j (erase k m) ≡ (if k == j then none else lookup j m)
  unfolding lookup erase
  lookup-erase k j [] = ground arith
  lookup-erase k j ((i, w) ∷ m) =
      ground (arith, e.equals_iff k j, e.equals_iff i k, e.equals_iff i j, lookup-erase k j m)
