-- ===== src/Osc7Parser/Loop.antt =====
-- The loop of `feed`: its rounds, and the fuel.
use parasor.Base.Bytes.{Bytes}
use parasor.Base.{
  ℕ, zero, suc, ◌≤◌, ◌<◌, ◌≡◌, ◌≢◌, ◌⊎◌, sym, ap, ◌∙◌, inl, inr, true, false, ◌&&◌, Option, none,
  some, [], ◌∷◌, String, arith, if◌then◌else◌, leb, ltb, ◌==◌, length, drop, length-drop,
  Bool-cases, Option-cases, ==_iff,
}
use parasor.Osc7Parser.{
  esc, bel, osc7_prefix, max_partial, starts_with, find_osc, is_backslash, push_uri,
  split_terminator, or_else, scan,
}

-- The input from a prefix on is no longer than the input, and has the prefix.
pub find_osc-le :
    (input : Bytes) {found : Bytes} → find_osc input ≡ some found → length found ≤ length input
unfolding find_osc
find_osc-le [] e = absurd cc
find_osc-le (c ∷ text) {found} e = elim (Bool-cases (starts_with osc7_prefix (c ∷ text))) [
  | inl s ↦
      let q : some (c ∷ text) ≡ some found = rw s at e in
      let q' : c ∷ text ≡ found = cc in omega (arith, ap length q')
  | inr s ↦ let q : find_osc text ≡ some found = rw s at e in omega (arith, find_osc-le text q)
]

pub find_osc-starts_with :
    (input : Bytes) {found : Bytes}
    → find_osc input ≡ some found
    → starts_with osc7_prefix found ≡ true
unfolding find_osc
find_osc-starts_with [] e = absurd cc
find_osc-starts_with (c ∷ text) {found} e = elim (Bool-cases (starts_with osc7_prefix (c ∷ text))) [
  | inl s ↦
      let q : some (c ∷ text) ≡ some found = rw s at e in
      let q' : c ∷ text ≡ found = cc in ap (starts_with osc7_prefix) (sym q') ∙ s
  | inr s ↦ let q : find_osc text ≡ some found = rw s at e in find_osc-starts_with text q
]

push_uri-inv :
    (c : ℕ) (r : Option (Bytes × Bytes)) {uri rest : Bytes}
    → push_uri c r ≡ some (uri, rest)
    → (u : Bytes) × (r ≡ some (u, rest)) × (uri ≡ c ∷ u)
push_uri-inv c none e = absurd cc
push_uri-inv c (some (u, rest')) e = (u, cc, cc)

-- Where the terminator is, by the first code unit.
pub split_terminator-cons :
    (c : ℕ) (text : Bytes) {uri rest : Bytes}
    → split_terminator (c ∷ text) ≡ some (uri, rest)
    → ((c ≡ bel) × (uri ≡ []) × (rest ≡ text))
      ⊎ ((c ≢ bel) × (c ≡ esc) × (is_backslash text ≡ true) × (uri ≡ []) × (rest ≡ drop 1 text))
      ⊎ (((c == bel) ≡ false)
          × ((c == esc && is_backslash text) ≡ false)
          × ((u : Bytes) × (split_terminator text ≡ some (u, rest)) × (uri ≡ c ∷ u)))
unfolding split_terminator
split_terminator-cons c text {uri} {rest} e = elim (Bool-cases (c == bel)) [
  | inl b ↦
      let q : some ([], text) ≡ some (uri, rest) = rw b at e in inl ((==_iff c bel).0 b, cc, cc)
  | inr b ↦ elim (Bool-cases (c == esc && is_backslash text)) [
    | inl k ↦
        let q : some ([], drop 1 text) ≡ some (uri, rest) = rw (b, k) at e in
        inr (inl (ground arith, ground arith, ground arith, cc, cc))
    | inr k ↦
        let q : push_uri c (split_terminator text) ≡ some (uri, rest) = rw (b, k) at e in
        inr (inr (b, k, push_uri-inv c (split_terminator text) q))
  ]
]

pub split_terminator-lt :
    (text : Bytes) {uri rest : Bytes}
    → split_terminator text ≡ some (uri, rest)
    → length rest < length text
unfolding split_terminator
split_terminator-lt [] e = absurd cc
split_terminator-lt (c ∷ text) {uri} {rest} e = elim (split_terminator-cons c text e) [
  | inl (b, u, r) ↦ omega (arith, ap length r)
  | inr (inl (b, k, l, u, r)) ↦ omega (arith, ap length r, length-drop 1 text)
  | inr (inr (b, k, (u, q, s))) ↦ omega (arith, split_terminator-lt text q)
]

pub starts_with-length :
    (prefix text : Bytes) → starts_with prefix text ≡ true → length prefix ≤ length text
unfolding starts_with
starts_with-length [] text e = omega arith
starts_with-length (b ∷ bs) [] e = absurd cc
starts_with-length (b ∷ bs) (c ∷ text) e = omega (arith, starts_with-length bs text (ground arith))

-- A round leaves less input than it starts from.
pub round-lt :
    (input : Bytes) {found uri rest : Bytes}
    → find_osc input ≡ some found
    → split_terminator (drop 4 found) ≡ some (uri, rest)
    → length rest < length input
round-lt input {found} e t =
    omega (arith, find_osc-le input e, split_terminator-lt (drop 4 found) t, length-drop 4 found)

pub found-length : (input : Bytes) {found : Bytes} → find_osc input ≡ some found → 4 ≤ length found
found-length input {found} e = starts_with-length osc7_prefix found (find_osc-starts_with input e)

module _ (parse : Bytes → Option String) where
  -- The result after a terminated sequence.
  abbrev pub next_result : Bytes → Option String → Option String
  next_result uri result =
      if ltb max_partial (length uri) then result else or_else (parse uri) result

  pub scan-none :
      (fuel : ℕ) (input : Bytes) (result : Option String)
      → find_osc input ≡ none
      → scan parse (suc fuel) input result ≡ ([], result)
  unfolding scan
  scan-none fuel input result e = rw (scan, e)

  pub scan-open :
      (fuel : ℕ) (input : Bytes) {found : Bytes} (result : Option String)
      → find_osc input ≡ some found
      → split_terminator (drop 4 found) ≡ none
      → scan parse (suc fuel) input result
        ≡ (if leb (length found) max_partial then found else [], result)
  unfolding scan
  scan-open fuel input {found} result e t = rw (scan, e, t)

  pub scan-round :
      (fuel : ℕ) (input : Bytes) {found uri rest : Bytes} (result : Option String)
      → find_osc input ≡ some found
      → split_terminator (drop 4 found) ≡ some (uri, rest)
      → scan parse (suc fuel) input result ≡ scan parse fuel rest (next_result uri result)
  unfolding scan
  scan-round fuel input {found} {uri} {rest} result e t = rw (scan, e, t)

  -- Any fuel above the length of the input gives the same.
  pub scan-enough :
      (f g : ℕ) (input : Bytes) (result : Option String)
      → length input < f
      → length input < g
      → scan parse f input result ≡ scan parse g input result
  scan-enough zero g input result l m = absurd (omega (arith, l))
  scan-enough (suc f) zero input result l m = absurd (omega (arith, m))
  scan-enough (suc f) (suc g) input result l m = elim (Option-cases (find_osc input)) [
    | inl e ↦ scan-none f input result e ∙ sym (scan-none g input result e)
    | inr (found, e) ↦ elim (Option-cases (split_terminator (drop 4 found))) [
      | inl t ↦ scan-open f input result e t ∙ sym (scan-open g input result e t)
      | inr ((uri, rest), t) ↦
          scan-round f input result e t
          ∙ scan-enough f g rest (next_result uri result) (omega (arith, l, round-lt input e t))
              (omega (arith, m, round-lt input e t))
          ∙ sym (scan-round g input result e t)
    ]
  ]
