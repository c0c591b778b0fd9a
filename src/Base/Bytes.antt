-- ===== src/Base/Bytes.antt =====
-- Byte buffers, and the big-endian reads and writes of Node's `Buffer` and of `DataView` that the
-- sources call. A read past the end throws; here it is `none`.
use Prim.Native.Nat.{ℕ, ◌+◌, ◌*◌, ◌/◌, ◌%◌, ◌^◌, ◌≤◌, ◌<◌}
use mathlib.Core.Path.{◌≡◌, refl}
use mathlib.Core.List.{List, [], ◌∷◌, ◌++◌}
use mathlib.Core.Option.{Option, none, some}
use native.Mathlib.Omega.{arith}
use parasor.Base.Lists.{length, drop, length-drop, drop_append}

abbrev pub Bytes : Type 0
Bytes = List ℕ

-- The value modulo 2 ^ 8, 2 ^ 32 and 2 ^ 64 is written.
abbrev pub u8 : ℕ → Bytes
u8 n = (n % 256) ∷ []

abbrev pub u32 : ℕ → Bytes
u32 n = (n / 2 ^ 24 % 256) ∷ (n / 2 ^ 16 % 256) ∷ (n / 2 ^ 8 % 256) ∷ (n % 256) ∷ []

abbrev pub u64 : ℕ → Bytes
u64 n = u32 (n / 2 ^ 32) ++ u32 n

abbrev pub head_u8 : Bytes → Option ℕ
head_u8 [] = none
head_u8 (a ∷ _) = some a

abbrev pub of_digits : ℕ → ℕ → ℕ → ℕ → ℕ
of_digits a b c d = a * 2 ^ 24 + b * 2 ^ 16 + c * 2 ^ 8 + d

abbrev pub head_u32 : Bytes → Option ℕ
head_u32 (a ∷ b ∷ c ∷ d ∷ _) = some (of_digits a b c d)
head_u32 _ = none

abbrev pub head_u64 : Bytes → Option ℕ
head_u64 (a ∷ b ∷ c ∷ d ∷ e ∷ f ∷ g ∷ h ∷ _) = some (of_digits a b c d * 2 ^ 32 + of_digits e f g h)
head_u64 _ = none

abbrev pub read_u8 : Bytes → ℕ → Option ℕ
read_u8 buf offset = head_u8 (drop offset buf)

abbrev pub read_u32 : Bytes → ℕ → Option ℕ
read_u32 buf offset = head_u32 (drop offset buf)

abbrev pub read_u64 : Bytes → ℕ → Option ℕ
read_u64 buf offset = head_u64 (drop offset buf)

pub of_digits-u32 :
    (n : ℕ)
    → n < 2 ^ 32
    → of_digits (n / 2 ^ 24 % 256) (n / 2 ^ 16 % 256) (n / 2 ^ 8 % 256) (n % 256) ≡ n
of_digits-u32 n h = omega arith

pub of_digits-u32_mod :
    (n : ℕ)
    → of_digits (n / 2 ^ 24 % 256) (n / 2 ^ 16 % 256) (n / 2 ^ 8 % 256) (n % 256) ≡ n % 2 ^ 32
of_digits-u32_mod n = omega arith

pub of_digits-u64 :
    (n : ℕ)
    → n < 2 ^ 64
    → of_digits
            (n / 2 ^ 32 / 2 ^ 24 % 256)
            (n / 2 ^ 32 / 2 ^ 16 % 256)
            (n / 2 ^ 32 / 2 ^ 8 % 256)
            (n / 2 ^ 32 % 256)
          * 2 ^ 32
        + of_digits (n / 2 ^ 24 % 256) (n / 2 ^ 16 % 256) (n / 2 ^ 8 % 256) (n % 256)
      ≡ n
of_digits-u64 n h = omega (arith, of_digits-u32 (n / 2 ^ 32) (omega arith), of_digits-u32_mod n)

-- A read inside a buffer succeeds, and does not see what is behind the buffer.
head_u8-total :
    (x c : Bytes) → 1 ≤ length x → (v : ℕ) × (head_u8 x ≡ some v) × (head_u8 (x ++ c) ≡ some v)
head_u8-total [] c k = absurd (omega arith)
head_u8-total (a ∷ x) c k = (a, refl, refl)

head_u32-total :
    (x c : Bytes) → 4 ≤ length x → (v : ℕ) × (head_u32 x ≡ some v) × (head_u32 (x ++ c) ≡ some v)
head_u32-total (a ∷ b ∷ d ∷ e ∷ x) c k = (of_digits a b d e, refl, refl)
head_u32-total [] c k = absurd (omega arith)
head_u32-total (_ ∷ []) c k = absurd (omega arith)
head_u32-total (_ ∷ _ ∷ []) c k = absurd (omega arith)
head_u32-total (_ ∷ _ ∷ _ ∷ []) c k = absurd (omega arith)

head_u64-total :
    (x c : Bytes) → 8 ≤ length x → (v : ℕ) × (head_u64 x ≡ some v) × (head_u64 (x ++ c) ≡ some v)
head_u64-total (a ∷ b ∷ d ∷ e ∷ f ∷ g ∷ h ∷ i ∷ x) c k =
    (of_digits a b d e * 2 ^ 32 + of_digits f g h i, refl, refl)
head_u64-total [] c k = absurd (omega arith)
head_u64-total (_ ∷ []) c k = absurd (omega arith)
head_u64-total (_ ∷ _ ∷ []) c k = absurd (omega arith)
head_u64-total (_ ∷ _ ∷ _ ∷ []) c k = absurd (omega arith)
head_u64-total (_ ∷ _ ∷ _ ∷ _ ∷ []) c k = absurd (omega arith)
head_u64-total (_ ∷ _ ∷ _ ∷ _ ∷ _ ∷ []) c k = absurd (omega arith)
head_u64-total (_ ∷ _ ∷ _ ∷ _ ∷ _ ∷ _ ∷ []) c k = absurd (omega arith)
head_u64-total (_ ∷ _ ∷ _ ∷ _ ∷ _ ∷ _ ∷ _ ∷ []) c k = absurd (omega arith)

module _ (b c : Bytes) (offset : ℕ) where
  pub read_u8-total :
      offset + 1 ≤ length b
      → (v : ℕ) × (read_u8 b offset ≡ some v) × (read_u8 (b ++ c) offset ≡ some v)
  read_u8-total h =
      rw (drop_append offset b c (omega arith))
        (head_u8-total (drop offset b) c (omega (arith, length-drop offset b)))

  pub read_u32-total :
      offset + 4 ≤ length b
      → (v : ℕ) × (read_u32 b offset ≡ some v) × (read_u32 (b ++ c) offset ≡ some v)
  read_u32-total h =
      rw (drop_append offset b c (omega arith))
        (head_u32-total (drop offset b) c (omega (arith, length-drop offset b)))

  pub read_u64-total :
      offset + 8 ≤ length b
      → (v : ℕ) × (read_u64 b offset ≡ some v) × (read_u64 (b ++ c) offset ≡ some v)
  read_u64-total h =
      rw (drop_append offset b c (omega arith))
        (head_u64-total (drop offset b) c (omega (arith, length-drop offset b)))

pub read_u32-none : (b : Bytes) → length b < 4 → read_u32 b 0 ≡ none
read_u32-none [] k = refl
read_u32-none (_ ∷ []) k = refl
read_u32-none (_ ∷ _ ∷ []) k = refl
read_u32-none (_ ∷ _ ∷ _ ∷ []) k = refl
read_u32-none (_ ∷ _ ∷ _ ∷ _ ∷ _) k = absurd (omega arith)

-- Buffers hold numbers below 256.
abbrev pub IsBytes : Bytes → Type 0
IsBytes [] = Unit
IsBytes (a ∷ b) = (a < 256) × IsBytes b

cons₄ :
    {a b c d a' b' c' d' : ℕ}
    → a ≡ a'
    → b ≡ b'
    → c ≡ c'
    → d ≡ d'
    → ◌≡◌ {A = Bytes} (a ∷ b ∷ c ∷ d ∷ []) (a' ∷ b' ∷ c' ∷ d' ∷ [])
cons₄ p q r s = λ i. p i ∷ q i ∷ r i ∷ s i ∷ []

-- Four bytes are written back as they were read, also as the low half of eight.
pub u32-of_digits :
    (a b c d high : ℕ)
    → IsBytes (a ∷ b ∷ c ∷ d ∷ [])
    → u32 (high * 2 ^ 32 + of_digits a b c d) ≡ a ∷ b ∷ c ∷ d ∷ []
u32-of_digits a b c d high h = cons₄ (omega arith) (omega arith) (omega arith) (omega arith)
