-- ===== src/Osc7Parser/Streams.antt =====
-- A sequence that a chunk leaves open, and the next chunk.
use mathlib.Core.List.{append_assoc}
use parasor.Base.Bytes.{Bytes}
use parasor.Base.{
  ℕ, zero, suc, ◌≤◌, ◌<◌, ◌≡◌, ◌≢◌, refl, sym, ap, ◌∙◌, inl, inr, true, false, ◌&&◌, Option, none,
  some, [], ◌∷◌, ◌++◌, String, arith, leb, ltb, ◌==◌, length, drop, Bool-cases, Option-cases,
  ==_iff, drop_append,
}
use parasor.Osc7Parser.{
  esc, bel, osc7_prefix, max_partial, starts_with, find_osc, is_backslash, split_terminator,
  or_else, scan, feed,
}
use parasor.Osc7Parser.Loop.{
  find_osc-le, find_osc-starts_with, starts_with-length, split_terminator-lt, split_terminator-cons,
  found-length, round-lt, next_result, scan-none, scan-open, scan-round, scan-enough,
}

-- A text as long as the prefix has decided already.
starts_with_append :
    (prefix text more : Bytes)
    → length prefix ≤ length text
    → starts_with prefix (text ++ more) ≡ starts_with prefix text
unfolding starts_with
starts_with_append [] text more l = refl
starts_with_append (b ∷ bs) [] more l = absurd (omega (arith, l))
starts_with_append (b ∷ bs) (c ∷ text) more l =
    rw (starts_with_append bs text more (omega (arith, l)))

find_osc-here : (found : Bytes) → starts_with osc7_prefix found ≡ true → find_osc found ≡ some found
unfolding find_osc starts_with
find_osc-here [] e = absurd cc
find_osc-here (c ∷ text) e = rw e

-- A prefix stays the first one when more text follows.
find_osc_append :
    (input more : Bytes) {found : Bytes}
    → find_osc input ≡ some found
    → find_osc (input ++ more) ≡ some (found ++ more)
unfolding find_osc
find_osc_append [] more e = absurd cc
find_osc_append (c ∷ text) more {found} e = elim (Bool-cases (starts_with osc7_prefix (c ∷ text))) [
  | inl s ↦
      let q : some (c ∷ text) ≡ some found = rw s at e in
      let q' : c ∷ text ≡ found = cc in
      find_osc-here (c ∷ text ++ more) (
        starts_with_append osc7_prefix (c ∷ text) more (starts_with-length osc7_prefix (c ∷ text) s)
        ∙ s)
      ∙ ap (λ t. some (t ++ more)) q'
  | inr s ↦
      let q : find_osc text ≡ some found = rw s at e in
      let l : length osc7_prefix ≤ length (c ∷ text) =
        omega (arith, find_osc-le text q, found-length text q) in
      rw (starts_with_append osc7_prefix (c ∷ text) more l ∙ s) (find_osc_append text more q)
]

drop-one_append :
    (text more : Bytes) → is_backslash text ≡ true → drop 1 text ++ more ≡ drop 1 (text ++ more)
drop-one_append [] more e = absurd cc
drop-one_append (c ∷ text) more e = refl

is_backslash_append :
    (text more : Bytes) → 0 < length text → is_backslash (text ++ more) ≡ is_backslash text
is_backslash_append [] more l = absurd (omega (arith, l))
is_backslash_append (c ∷ text) more l = refl

split_terminator-nonempty :
    (text : Bytes) {uri rest : Bytes} → split_terminator text ≡ some (uri, rest) → 0 < length text
split_terminator-nonempty text e = omega (arith, split_terminator-lt text e)

is_backslash-nonempty : (text : Bytes) → is_backslash text ≡ true → 0 < length text
is_backslash-nonempty [] e = absurd cc
is_backslash-nonempty (c ∷ text) e = omega arith

-- A terminator stays the first one when more text follows.
split_terminator_append :
    (text more : Bytes) {uri rest : Bytes}
    → split_terminator text ≡ some (uri, rest)
    → split_terminator (text ++ more) ≡ some (uri, rest ++ more)
unfolding split_terminator
split_terminator_append [] more e = absurd cc
split_terminator_append (c ∷ text) more {uri} {rest} e = elim (split_terminator-cons c text e) [
  | inl (b, u, r) ↦ rw ((==_iff c bel).1 b, u, r)
  | inr (inl (n, k, l, u, r)) ↦
      let there : (c == esc && is_backslash (text ++ more)) ≡ true =
        rw ((==_iff c esc).1 k, is_backslash_append text more (is_backslash-nonempty text l), l) in
      let other : (c == bel) ≡ false = ground arith in
      rw (other, there, u, r, drop-one_append text more l)
  | inr (inr (b, k, (u, q, s))) ↦
      let there : (c == esc && is_backslash (text ++ more)) ≡ false =
        rw (is_backslash_append text more (split_terminator-nonempty text q), k) in
      rw (b, there, split_terminator_append text more q, s)
]

or_else_assoc :
    (first second third : Option String)
    → or_else first (or_else second third) ≡ or_else (or_else first second) third
or_else_assoc none second third = refl
or_else_assoc (some cwd) second third = refl

-- A sequence's directory comes before the result so far.
next_result-or_else :
    (parse : Bytes → Option String) (uri : Bytes) (result : Option String)
    → next_result parse uri result ≡ or_else (next_result parse uri none) result
next_result-or_else parse uri result = elim (Bool-cases (ltb max_partial (length uri))) [
  | inl e ↦ rw e
  | inr e ↦ rw e (go (parse uri))
]
  where
    go : (cwd : Option String) → or_else cwd result ≡ or_else (or_else cwd none) result
    go none = refl
    go (some cwd) = refl

module _ (parse : Bytes → Option String) where
  -- The result so far is kept where no sequence replaces it.
  scan-or_else :
      (f : ℕ) (input : Bytes) (result : Option String)
      → scan parse f input result
        ≡ ((scan parse f input none).0, or_else (scan parse f input none).1 result)
  unfolding scan
  scan-or_else zero input result = refl
  scan-or_else (suc f) input result = elim (Option-cases (find_osc input)) [
    | inl e ↦ rw (scan, e)
    | inr (found, e) ↦ elim (Option-cases (split_terminator (drop 4 found))) [
      | inl t ↦ rw (scan, e, t)
      | inr ((uri, rest), t) ↦
          let whole = scan-round parse f input result e t in
          let fresh = scan-round parse f input none e t in
          let left = scan-or_else f rest (next_result parse uri result) in
          let right = scan-or_else f rest (next_result parse uri none) in
          let last = or_else_assoc (scan parse f rest none).1 (next_result parse uri none) result in
          whole
          ∙ left
          ∙ ap (λ r. ((scan parse f rest none).0, r))
              (ap (or_else (scan parse f rest none).1) (next_result-or_else parse uri result)
                ∙ last)
          ∙ sym (ap (λ x. (x.0, or_else x.1 result)) (fresh ∙ right))
    ]
  ]

  -- Only the text from the first prefix on matters.
  scan-find_osc :
      (g h : ℕ) (a b : Bytes) (result : Option String) {found : Bytes}
      → find_osc a ≡ some found
      → find_osc b ≡ some found
      → length a < suc g
      → length b < suc h
      → scan parse (suc g) a result ≡ scan parse (suc h) b result
  scan-find_osc g h a b result {found} p q m o =
      elim (Option-cases (split_terminator (drop 4 found))) [
        | inl t ↦ scan-open parse g a result p t ∙ sym (scan-open parse h b result q t)
        | inr ((uri, rest), t) ↦
            scan-round parse g a result p t
            ∙ scan-enough parse g h rest (next_result parse uri result)
                (omega (arith, m, round-lt a p t)) (omega (arith, o, round-lt b q t))
            ∙ sym (scan-round parse h b result q t)
      ]

  -- With an open sequence at its end, the input can be cut there.
  scan_append :
      (f g h : ℕ) (input more : Bytes) (result : Option String) {held : Bytes}
      {found : Option String}
      → scan parse f input result ≡ (held, found)
      → held ≢ []
      → length input < f
      → length (input ++ more) < g
      → length (held ++ more) < h
      → scan parse g (input ++ more) result ≡ scan parse h (held ++ more) found
  scan_append zero g h input more result e n l m o = absurd (omega (arith, l))
  scan_append (suc f) zero h input more result e n l m o = absurd (omega (arith, m))
  scan_append (suc f) (suc g) zero input more result e n l m o = absurd (omega (arith, o))
  scan_append (suc f) (suc g) (suc h) input more result {held} {found} e n l m o =
      elim (Option-cases (find_osc input)) [
        | inl p ↦
            let q : ([], result) ≡ (held, found) = sym (scan-none parse f input result p) ∙ e in
            absurd (n (sym (ap (λ x. x.0) q)))
        | inr (start, p) ↦ elim (Option-cases (split_terminator (drop 4 start))) [
          | inl t ↦
              let q = sym (scan-open parse f input result p t) ∙ e in
              elim (Bool-cases (leb (length start) max_partial)) [
                | inl k ↦
                    let q' : (start, result) ≡ (held, found) = rw k at q in
                    let w =
                      find_osc_append start more
                        (find_osc-here start (find_osc-starts_with input p)) in
                    let o' : length (start ++ more) < suc h =
                      omega (arith, o, ap (λ x. length (x.0 ++ more)) q') in
                    scan-find_osc g h (input ++ more) (start ++ more) result
                      (find_osc_append input more p) w m o'
                    ∙ ap (λ x. scan parse (suc h) (x.0 ++ more) x.1) q'
                | inr k ↦
                    let q' : ([], result) ≡ (held, found) = rw k at q in
                    absurd (n (sym (ap (λ x. x.0) q')))
              ]
          | inr ((uri, rest), t) ↦
              let t' : split_terminator (drop 4 (start ++ more)) ≡ some (uri, rest ++ more) =
                rw (drop_append 4 start more (found-length input p))
                  (split_terminator_append (drop 4 start) more t) in
              let p' = find_osc_append input more p in
              scan-round parse g (input ++ more) result p' t'
              ∙ scan_append f g (suc h) rest more (next_result parse uri result)
                  (sym (scan-round parse f input result p t) ∙ e) n
                  (omega (arith, l, round-lt input p t))
                  (omega (arith, m, round-lt (input ++ more) p' t')) o
        ]
      ]

  -- When a feed leaves a sequence open, the next feed goes on as if the two texts had come as one: what it holds
  -- back is the same, and the directory of the two together is its own, or the earlier one where it has none.
  pub feed_append :
      (held text more : Bytes) {kept : Bytes} {result : Option String}
      → feed parse held text ≡ (kept, result)
      → kept ≢ []
      → feed parse held (text ++ more)
        ≡ ((feed parse kept more).0, or_else (feed parse kept more).1 result)
  unfolding feed
  feed_append held text more {kept} {result} e n =
      ap (λ input. scan parse (suc (length input)) input none) (sym (append_assoc held text more))
      ∙ scan_append (suc (length (held ++ text))) (suc (length ((held ++ text) ++ more)))
          (suc (length (kept ++ more))) (held ++ text) more none e n (omega arith) (omega arith)
          (omega arith)
      ∙ scan-or_else (suc (length (kept ++ more))) (kept ++ more) result
