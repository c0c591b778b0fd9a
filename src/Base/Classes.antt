-- ===== src/Base/Classes.antt =====
-- Decidable equality as an interface: one `==` for texts, numbers and the enumerations.
use Prim.Native.Nat.{ℕ}
use Prim.Native.String.{String}
use mathlib.Core.Bool.{Bool, true}
use mathlib.Core.Logic.{◌↔◌}
use mathlib.Core.Path.{◌≡◌, refl}
use text.Mathlib.Text.{◌==◌ as text_equals}
use text.Mathlib.TextEquality.{eq_iff}
use parasor.Base.Tests.{◌==◌ as nat_equals, ==_iff}

pub record Eq {ℓ} (K : Type ℓ) : Type ℓ where
  pub equals : K → K → Bool
  pub equals_iff : (j k : K) → (equals j k ≡ true) ↔ (j ≡ k)

-- Keys are compared by `===`.
infix 50 ◌==◌
abbrev pub ◌==◌ {ℓ} : {K : Type ℓ} ⦃e : Eq K⦄ → K → K → Bool
◌==◌ ⦃e⦄ j k = e.equals j k

pub equals_self {ℓ} : {K : Type ℓ} ⦃e : Eq K⦄ (k : K) → (k == k) ≡ true
equals_self ⦃e⦄ k = (e.equals_iff k k).1 refl

instance abbrev pub string_eq : Eq String
string_eq = record { equals_iff = eq_iff; equals = text_equals }

instance abbrev pub nat_eq : Eq ℕ
nat_eq = record { equals_iff = ==_iff; equals = nat_equals }
