-- ===== src/Base/Keyed.antt =====
-- Arrays of objects that carry their own key, as the saved state keeps them: `findIndex` by the key and
-- replacement or `push`, `find`, and `filter` by the key.
use mathlib.Core.Bool.{false}
use mathlib.Core.List.{List, [], ◌∷◌, ◌++◌}
use mathlib.Core.Option.{Option, none, some}
use mathlib.Core.Logic.{inl, inr}
use mathlib.Core.Path.{◌≡◌, refl, sym, ap, ◌∙◌}
use native.Mathlib.Omega.{arith}
use Prim.Native.String.{String}
use parasor.Base.Classes.{◌==◌, string_eq}
use parasor.Base.Tests.{if◌then◌else◌, Bool-cases}

module _ {A : Type 0} (key : A → String) where
  unfoldable pub upsert : A → List A → List A
  upsert x [] = x ∷ []
  upsert x (y ∷ ys) = if key y == key x then x ∷ ys else y ∷ upsert x ys

  unfoldable pub find_by : String → List A → Option A
  find_by k [] = none
  find_by k (y ∷ ys) = if key y == k then some y else find_by k ys

  unfoldable pub remove_by : String → List A → List A
  remove_by k [] = []
  remove_by k (y ∷ ys) = let rest = remove_by k ys in if key y == k then rest else y ∷ rest

  pub find_by-upsert :
      (k : String) (x : A) (ys : List A)
      → find_by k (upsert x ys) ≡ (if key x == k then some x else find_by k ys)
  unfolding upsert find_by
  find_by-upsert k x [] = refl
  find_by-upsert k x (y ∷ ys) = ground (
    arith,
    string_eq.equals_iff (key y) (key x),
    string_eq.equals_iff (key x) k,
    string_eq.equals_iff (key y) k,
    find_by-upsert k x ys,
  )

  pub find_by-remove_by :
      (k j : String) (ys : List A)
      → find_by k (remove_by j ys) ≡ (if j == k then none else find_by k ys)
  unfolding remove_by find_by
  find_by-remove_by k j [] = ground arith
  find_by-remove_by k j (y ∷ ys) = ground (
    arith,
    string_eq.equals_iff j k,
    string_eq.equals_iff (key y) j,
    string_eq.equals_iff (key y) k,
    find_by-remove_by k j ys,
  )

  -- `push` behind what is there.
  pub find_by-push :
      (k : String) (x : A) (ys : List A)
      → find_by k ys ≡ none
      → find_by k (ys ++ x ∷ []) ≡ (if key x == k then some x else none)
  unfolding find_by
  find_by-push k x [] h = refl
  find_by-push k x (y ∷ ys) h = ground (arith, find_by-push k x ys)

  pub find_by-push_other :
      (k : String) (x : A) (ys : List A)
      → (key x == k) ≡ false
      → find_by k (ys ++ x ∷ []) ≡ find_by k ys
  unfolding find_by
  find_by-push_other k x [] h = ground arith
  find_by-push_other k x (y ∷ ys) h = ground (arith, find_by-push_other k x ys)

  -- What is found has the key.
  pub find_by_key : (k : String) (ys : List A) {x : A} → find_by k ys ≡ some x → key x ≡ k
  unfolding find_by
  find_by_key k [] h = absurd cc
  find_by_key k (y ∷ ys) {x} h = elim (Bool-cases (key y == k)) [
    | inl e ↦
        let found : some y ≡ some x = rw e at h in
        let q : y ≡ x = cc in ap key (sym q) ∙ (string_eq.equals_iff (key y) k).0 e
    | inr e ↦ find_by_key k ys (rw e at h)
  ]
