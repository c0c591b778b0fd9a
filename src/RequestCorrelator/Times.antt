-- ===== src/RequestCorrelator/Times.antt =====
-- How often an id occurs in a map or a log.
use parasor.Base.Classes.{nat_eq, ◌==◌}
use parasor.Base.Map.{lookup, insert, erase}
use parasor.Base.{ℕ, ◌+◌, ◌≡◌, ◌≤◌, refl, some, List, [], ◌∷◌, ◌++◌, if◌then◌else◌, arith}

-- The number of entries with an id.
unfoldable pub times {ℓ} : {V : Type ℓ} → ℕ → List (ℕ × V) → ℕ
times id [] = 0
times id ((j, v) ∷ rest) = (if j == id then 1 else 0) + times id rest

pub times-++ {ℓ} :
    {V : Type ℓ} (id : ℕ) (a b : List (ℕ × V)) → times id (a ++ b) ≡ times id a + times id b
unfolding times
times-++ id [] b = omega arith
times-++ id ((j, v) ∷ a) b = omega (arith, times-++ id a b)

pub times-erase {ℓ} :
    {V : Type ℓ} (k id : ℕ) (m : List (ℕ × V))
    → times id (erase k m) ≡ (if k == id then 0 else times id m)
unfolding times erase
times-erase k id [] = ground arith
times-erase k id ((j, v) ∷ m) = ground (arith, times-erase k id m)

pub times-insert {ℓ} :
    {V : Type ℓ} (k id : ℕ) (v : V) (m : List (ℕ × V))
    → times k m ≡ 0
    → times id (insert k v m) ≡ (if k == id then 1 else 0) + times id m
unfolding times insert
times-insert k id v [] h = refl
times-insert k id v ((j, w) ∷ m) h = ground (arith, times-insert k id v m)

pub lookup-times {ℓ} :
    {V : Type ℓ} (k : ℕ) (v : V) (m : List (ℕ × V)) → lookup k m ≡ some v → 1 ≤ times k m
unfolding times lookup
lookup-times k v [] h = cc
lookup-times k v ((j, w) ∷ m) h = ground (arith, lookup-times k v m)
