-- ===== src/PairingToken/Entries.antt =====
-- The entries of a store: one for each key, and those that cannot be used again.
use parasor.Base.Classes.{string_eq, ◌==◌}
use parasor.Base.Map.{lookup, insert, erase}
use parasor.Base.{
  ℕ, ◌≡◌, refl, Bool, true, false, not, ◌&&◌, ◌||◌, some, List, [], ◌∷◌, String, arith,
}
use parasor.PairingToken.{PairingEntry, cleanup}

-- No entry has the key.
unfoldable pub fresh : String → List (String × PairingEntry) → Bool
fresh key [] = true
fresh key ((j, entry) ∷ rest) = not (j == key) && fresh key rest

unfoldable pub distinct : List (String × PairingEntry) → Bool
distinct [] = true
distinct ((j, entry) ∷ rest) = fresh j rest && distinct rest

-- Each entry with the key has been used.
unfoldable pub spent : String → List (String × PairingEntry) → Bool
spent key [] = true
spent key ((j, entry) ∷ rest) = (not (j == key) || entry.used) && spent key rest

module _ (key : String) where
  pub fresh-cleanup :
      (now : ℕ) (m : List (String × PairingEntry))
      → fresh key m ≡ true
      → fresh key (cleanup now m) ≡ true
  unfolding fresh cleanup
  fresh-cleanup now [] h = refl
  fresh-cleanup now ((j, entry) ∷ m) h = ground (arith, fresh-cleanup now m)

  pub fresh-erase :
      (k : String) (m : List (String × PairingEntry))
      → fresh key m ≡ true
      → fresh key (erase k m) ≡ true
  unfolding fresh erase
  fresh-erase k [] h = refl
  fresh-erase k ((j, entry) ∷ m) h = ground (arith, fresh-erase k m)

  pub fresh-insert :
      (k : String) (e : PairingEntry) (m : List (String × PairingEntry))
      → k == key ≡ false
      → fresh key m ≡ true
      → fresh key (insert k e m) ≡ true
  unfolding fresh insert
  fresh-insert k e [] n h = ground arith
  fresh-insert k e ((j, entry) ∷ m) n h = ground (arith, fresh-insert k e m n)

  pub spent-cleanup :
      (now : ℕ) (m : List (String × PairingEntry))
      → spent key m ≡ true
      → spent key (cleanup now m) ≡ true
  unfolding spent cleanup
  spent-cleanup now [] h = refl
  spent-cleanup now ((j, entry) ∷ m) h = ground (arith, spent-cleanup now m)

  pub spent-erase :
      (k : String) (m : List (String × PairingEntry))
      → spent key m ≡ true
      → spent key (erase k m) ≡ true
  unfolding spent erase
  spent-erase k [] h = refl
  spent-erase k ((j, entry) ∷ m) h = ground (arith, spent-erase k m)

  -- An insertion under another key, or of a used entry.
  pub spent-insert :
      (k : String) (e : PairingEntry) (m : List (String × PairingEntry))
      → (not (k == key) || e.used) ≡ true
      → spent key m ≡ true
      → spent key (insert k e m) ≡ true
  unfolding spent insert
  spent-insert k e [] n h = ground arith
  spent-insert k e ((j, entry) ∷ m) n h =
      ground (arith, spent-insert k e m n, string_eq.equals_iff j k)

  pub fresh-spent : (m : List (String × PairingEntry)) → fresh key m ≡ true → spent key m ≡ true
  unfolding fresh spent
  fresh-spent [] h = refl
  fresh-spent ((j, entry) ∷ m) h = ground (arith, fresh-spent m)

  -- The entry is marked as used.
  pub used-spent :
      (e : PairingEntry) (m : List (String × PairingEntry))
      → distinct m ≡ true
      → e.used ≡ true
      → spent key (insert key e m) ≡ true
  unfolding spent insert distinct
  used-spent e [] d u = ground (arith, u)
  used-spent e ((j, entry) ∷ m) d u =
      grind (arith, used-spent e m, fresh-spent m, string_eq.equals_iff j key, u)

  pub lookup-spent :
      (m : List (String × PairingEntry)) (e : PairingEntry)
      → spent key m ≡ true
      → lookup key m ≡ some e
      → e.used ≡ true
  unfolding spent lookup
  lookup-spent [] e s h = cc
  lookup-spent ((j, entry) ∷ m) e s h = grind (arith, lookup-spent m e)

pub distinct-cleanup :
    (now : ℕ) (m : List (String × PairingEntry))
    → distinct m ≡ true
    → distinct (cleanup now m) ≡ true
unfolding distinct cleanup
distinct-cleanup now [] d = refl
distinct-cleanup now ((j, entry) ∷ m) d =
    ground (arith, distinct-cleanup now m, fresh-cleanup j now m)

pub distinct-erase :
    (k : String) (m : List (String × PairingEntry))
    → distinct m ≡ true
    → distinct (erase k m) ≡ true
unfolding distinct erase
distinct-erase k [] d = refl
distinct-erase k ((j, entry) ∷ m) d = ground (arith, distinct-erase k m, fresh-erase j k m)

pub distinct-insert :
    (k : String) (e : PairingEntry) (m : List (String × PairingEntry))
    → distinct m ≡ true
    → distinct (insert k e m) ≡ true
unfolding distinct insert fresh
distinct-insert k e [] d = ground arith
distinct-insert k e ((j, entry) ∷ m) d = grind (
  arith,
  distinct-insert k e m,
  fresh-insert j k e m,
  string_eq.equals_iff j k,
  string_eq.equals_iff k j,
)
