-- ===== src/ReplayCache/Entries.antt =====
-- The entries of the cache: one for each session, and their size.
use parasor.Base.Classes.{string_eq, ◌==◌}
use parasor.Base.Map.{lookup, insert, erase, lookup-erase}
use parasor.Base.{
  ℕ, zero, suc, ◌+◌, ◌≡◌, refl, ap, inl, inr, false, none, some, List, [], ◌∷◌, ◌++◌, String, arith,
  length, drop, Bool-cases,
}
use parasor.ReplayCache.{Entry}

unfoldable pub size : List (String × Entry) → ℕ
size [] = 0
size ((key, entry) ∷ rest) = length entry.text + size rest

unfoldable pub Distinct : List (String × Entry) → Type 0
Distinct [] = Unit
Distinct ((key, entry) ∷ rest) = (lookup key rest ≡ none) × Distinct rest

pub lookup-erase_self : (key : String) (m : List (String × Entry)) → lookup key (erase key m) ≡ none
lookup-erase_self key m = ground (arith, lookup-erase key key m, string_eq.equals_iff key key)

-- A new key goes behind the others.
pub insert_new :
    (key : String) (entry : Entry) (m : List (String × Entry))
    → lookup key m ≡ none
    → insert key entry m ≡ m ++ (key, entry) ∷ []
unfolding lookup insert
insert_new key entry [] h = refl
insert_new key entry ((j, e) ∷ m) h = ground (arith, insert_new key entry m)

pub Distinct-erase :
    (key : String) (m : List (String × Entry)) → Distinct m → Distinct (erase key m)
unfolding Distinct erase
Distinct-erase key [] d = tt
Distinct-erase key ((j, e) ∷ m) (n, d) = elim (Bool-cases (j == key)) [
  | inl h ↦ rw h (Distinct-erase key m d)
  | inr h ↦ rw h (ground (arith, lookup-erase key j m), Distinct-erase key m d)
]

pub Distinct-push :
    (key : String) (entry : Entry) (m : List (String × Entry))
    → lookup key m ≡ none
    → Distinct m
    → Distinct (m ++ (key, entry) ∷ [])
unfolding Distinct lookup
Distinct-push key entry [] h d = (refl, tt)
Distinct-push key entry ((j, e) ∷ m) h (n, d) = (
  lookup-push j m n (ground (arith, string_eq.equals_iff key j, string_eq.equals_iff j key)),
  Distinct-push key entry m (ground arith) d,
)
  where
    lookup-push :
        (j : String) (m : List (String × Entry))
        → lookup j m ≡ none
        → (key == j) ≡ false
        → lookup j (m ++ (key, entry) ∷ []) ≡ none
    lookup-push j [] n o = ground arith
    lookup-push j ((i, e) ∷ m) n o = ground (arith, lookup-push j m)

pub Distinct-drop : (n : ℕ) (m : List (String × Entry)) → Distinct m → Distinct (drop n m)
unfolding Distinct
Distinct-drop zero m d = d
Distinct-drop (suc n) [] d = tt
Distinct-drop (suc n) ((j, e) ∷ m) (o, d) = Distinct-drop n m d

pub erase_absent :
    (key : String) (m : List (String × Entry)) → lookup key m ≡ none → erase key m ≡ m
unfolding lookup erase
erase_absent key [] h = refl
erase_absent key ((j, e) ∷ m) h = ground (arith, erase_absent key m)

pub size-erase :
    (key : String) (entry : Entry) (m : List (String × Entry))
    → Distinct m
    → lookup key m ≡ some entry
    → size (erase key m) + length entry.text ≡ size m
unfolding Distinct lookup erase size
size-erase key entry [] d h = absurd cc
size-erase key entry ((j, e) ∷ m) (n, d) h = elim (Bool-cases (j == key)) [
  | inl o ↦
      let q : some e ≡ some entry = rw o at h in
      let here : e ≡ entry = cc in
      let same : j ≡ key = (string_eq.equals_iff j key).0 o in
      let gone : erase key m ≡ m = erase_absent key m (rw same at n) in
      rw o (omega (arith, ap size gone, ap (λ x. length x.text) here))
  | inr o ↦
      let q : lookup key m ≡ some entry = rw o at h in
      rw o (omega (arith, size-erase key entry m d q))
]

pub size-push :
    (key : String) (entry : Entry) (m : List (String × Entry))
    → size (m ++ (key, entry) ∷ []) ≡ size m + length entry.text
unfolding size
size-push key entry [] = omega arith
size-push key entry ((j, e) ∷ m) = omega (arith, size-push key entry m)
