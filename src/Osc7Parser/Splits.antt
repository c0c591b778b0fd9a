-- ===== src/Osc7Parser/Splits.antt =====
-- A chunk boundary inside the prefix of a sequence.
use parasor.Base.Bytes.{Bytes}
use parasor.Base.{
  ℕ, zero, suc, ◌≤◌, ◌<◌, ◌≡◌, refl, ◌∙◌, Bool, true, false, ◌&&◌, not, Option, none, some, [], ◌∷◌,
  ◌++◌, String, arith, ltb, ◌==◌, length, take, drop,
}
use parasor.Osc7Parser.{
  esc, bel, osc7_prefix, max_partial, starts_with, find_osc, split_terminator, or_else, scan, feed,
}
use parasor.Osc7Parser.Loop.{next_result, scan-enough, scan-none, scan-round}

-- Without an escape character there is no sequence.
abbrev pub has_no_esc : Bytes → Bool
has_no_esc [] = true
has_no_esc (c ∷ text) = not (c == esc) && has_no_esc text

abbrev pub has_no_bel : Bytes → Bool
has_no_bel [] = true
has_no_bel (c ∷ text) = not (c == bel) && has_no_bel text

find_osc-none : (text : Bytes) → has_no_esc text ≡ true → find_osc text ≡ none
unfolding find_osc starts_with
find_osc-none [] e = refl
find_osc-none (c ∷ text) e =
    let other : (esc == c) ≡ false = ground arith in
    let more : has_no_esc text ≡ true = ground arith in rw (other, find_osc-none text more)

split_terminator-bel :
    (uri : Bytes)
    → has_no_esc uri ≡ true
    → has_no_bel uri ≡ true
    → split_terminator (uri ++ bel ∷ []) ≡ some (uri, [])
unfolding split_terminator
split_terminator-bel [] e b = refl
split_terminator-bel (c ∷ uri) e b =
    let no_bel : (c == bel) ≡ false = ground arith in
    let no_esc : (c == esc) ≡ false = ground arith in
    let more : has_no_esc uri ≡ true = ground arith in
    let more' : has_no_bel uri ≡ true = ground arith in
    rw (no_bel, no_esc, split_terminator-bel uri more more')

has_no_esc_append : (uri : Bytes) → has_no_esc uri ≡ true → has_no_esc (uri ++ bel ∷ []) ≡ true
has_no_esc_append [] e = refl
has_no_esc_append (c ∷ uri) e =
    let no_esc : (c == esc) ≡ false = ground arith in
    let more : has_no_esc uri ≡ true = ground arith in rw (no_esc, has_no_esc_append uri more)

module _ (parse : Bytes → Option String) where
  feed-whole :
      (uri : Bytes)
      → has_no_esc uri ≡ true
      → has_no_bel uri ≡ true
      → length uri ≤ max_partial
      → feed parse [] (osc7_prefix ++ uri ++ bel ∷ []) ≡ ([], or_else (parse uri) none)
  unfolding feed find_osc starts_with
  feed-whole uri e b l =
      let short : ltb max_partial (length uri) ≡ false = ground arith in
      let input = osc7_prefix ++ uri ++ bel ∷ [] in
      scan-round parse (length input) input none refl (split_terminator-bel uri e b)
      ∙ scan-enough parse (length input) 1 [] (next_result parse uri none) (omega arith)
          (omega arith)
      ∙ scan-none parse 0 [] (next_result parse uri none) refl
      ∙ rw short

  feed-none : (text : Bytes) → has_no_esc text ≡ true → feed parse [] text ≡ ([], none)
  unfolding feed
  feed-none text e = scan-none parse (length text) text none (find_osc-none text e)

  -- A whole sequence of at most 4096 code units is reported. When a chunk ends one, two or three code units into
  -- its prefix, neither chunk holds anything back or reports anything: the directory is lost.
  pub feed-loses-split_prefix :
      (n : ℕ) (uri : Bytes)
      → 0 < n
      → n < 4
      → has_no_esc uri ≡ true
      → has_no_bel uri ≡ true
      → length uri ≤ max_partial
      → (feed parse [] (osc7_prefix ++ uri ++ bel ∷ []) ≡ ([], or_else (parse uri) none))
        × (feed parse [] (take n osc7_prefix) ≡ ([], none))
        × (feed parse [] (drop n osc7_prefix ++ uri ++ bel ∷ []) ≡ ([], none))
  unfolding feed scan find_osc starts_with
  feed-loses-split_prefix zero uri p q e b l = absurd (omega (arith, p))
  feed-loses-split_prefix (suc zero) uri p q e b l = (
    feed-whole uri e b l,
    refl,
    feed-none (drop 1 osc7_prefix ++ uri ++ bel ∷ []) (has_no_esc_append uri e),
  )
  feed-loses-split_prefix (suc (suc zero)) uri p q e b l = (
    feed-whole uri e b l,
    refl,
    feed-none (drop 2 osc7_prefix ++ uri ++ bel ∷ []) (has_no_esc_append uri e),
  )
  feed-loses-split_prefix (suc (suc (suc zero))) uri p q e b l = (
    feed-whole uri e b l,
    refl,
    feed-none (drop 3 osc7_prefix ++ uri ++ bel ∷ []) (has_no_esc_append uri e),
  )
  feed-loses-split_prefix (suc (suc (suc (suc n)))) uri p q e b l = absurd (omega (arith, q))
