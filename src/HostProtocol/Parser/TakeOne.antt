-- ===== src/HostProtocol/Parser/TakeOne.antt =====
-- `takeOne` against the abstract view of the buffered bytes.
use mathlib.Core.List.{append-nil}
use parasor.Base.Bytes.{Bytes, read_u32, read_u32-total}
use parasor.Base.{
  ℕ, ◌+◌, ◌≤◌, ◌<◌, ◌≡◌, refl, sym, ap, ◌∙◌, inl, inr, Option, none, some, List, [], ◌∷◌, ◌++◌,
  arith, ltb, length, drop, flatten, drop_append, Bool-cases, length-append,
}
use parasor.HostProtocol.Frame.{ErrorCode, Result, ok, err, Frame, frame_header_bytes}
use parasor.HostProtocol.Parser.Split.{
  Piece, incomplete, taken, failed, split, Splits, short, waits, whole, too_small, too_large,
  split-Splits, read_frame-total,
}
use parasor.HostProtocol.Parser.{
  FrameParser, fill, merge, materialize, read_frame, remaining, take_body, take_merged, take_one,
}

-- The bytes buffered.
abbrev pub contents : FrameParser → Bytes
contents p = flatten p.chunks

pub record IsValid (p : FrameParser) : Type 0 where
  pub sized : p.size ≡ length (contents p)

pub fill-length : (b : Bytes) → fill (length b) b ≡ b
unfolding fill
fill-length [] = refl
fill-length (x ∷ b) = ap (◌∷◌ x) (fill-length b)

merge-flatten : (bs : List Bytes) (n : ℕ) → n ≡ length (flatten bs) → merge bs n ≡ flatten bs
unfolding merge
merge-flatten [] n h = rw h (unfold fill in refl)
merge-flatten (b ∷ []) n h = sym (append-nil b)
merge-flatten (b ∷ c ∷ bs) n h = rw h (fill-length (flatten (b ∷ c ∷ bs)))

-- What the answer on some bytes says of the answer with more bytes behind them.
abbrev Grows : Bytes → Piece → Piece → Type 0
Grows c incomplete y = Unit
Grows c (taken f r) y = y ≡ taken f (r ++ c)
Grows c (failed e) y = y ≡ failed e

same_read :
    (b c : Bytes) (total : ℕ)
    → 4 ≤ length b
    → read_u32 b 0 ≡ some total
    → read_u32 (b ++ c) 0 ≡ some total
same_read b c total k e = let (v, e0, e1) = read_u32-total b c 0 k in e1 ∙ sym e0 ∙ e

same_frame :
    (b c : Bytes) (total : ℕ) (f : Frame)
    → frame_header_bytes ≤ total
    → 4 + total ≤ length b
    → read_frame b total ≡ ok f
    → read_frame (b ++ c) total ≡ ok f
same_frame b c total f h k e = let (g, e0, e1) = read_frame-total b c total h k in e1 ∙ sym e0 ∙ e

split-Grows : (b c : Bytes) {x : Piece} → Splits b x → Grows c x (split (b ++ c))
unfolding split
split-Grows b c (short h) = tt
split-Grows b c (waits total e l u h) = tt
split-Grows b c (whole total f e l u h r) = ground (
  arith,
  same_read b c total (omega arith) e,
  same_frame b c total f l h r,
  length-append b c,
  drop_append (4 + total) b c h,
)
split-Grows b c (too_small total k e h) = ground (arith, same_read b c total k e)
split-Grows b c (too_large total k e h) = ground (arith, same_read b c total k e)

pub split_append_taken :
    (b c : Bytes) {f : Frame} {r : Bytes} → split b ≡ taken f r → split (b ++ c) ≡ taken f (r ++ c)
split_append_taken b c e = rw e at (split-Grows b c (split-Splits b))

pub split_append_failed :
    (b c : Bytes) {e : ErrorCode} → split b ≡ failed e → split (b ++ c) ≡ failed e
split_append_failed b c e = rw e at (split-Grows b c (split-Splits b))

-- What `takeOne` does on a parser that holds the bytes `b`, by what stands at their front.
abbrev pub TakenAs : Piece → Bytes → FrameParser × Result (Option Frame) → Type 0
TakenAs incomplete b (q, t) = IsValid q × (contents q ≡ b) × (t ≡ ok none)
TakenAs (taken f r) b (q, t) = IsValid q × (contents q ≡ r) × (t ≡ ok (some f))
TakenAs (failed e) b (q, t) = IsValid q × (contents q ≡ b) × (t ≡ err e)

remaining-IsValid : (r : Bytes) → IsValid (remaining r)
remaining-IsValid [] = omega arith
remaining-IsValid (x ∷ r) = record { sized = ap length (sym (append-nil (x ∷ r))) }

contents-remaining : (r : Bytes) → contents (remaining r) ≡ r
contents-remaining [] = refl
contents-remaining (x ∷ r) = append-nil (x ∷ r)

-- The parser after `materialize`.
held : Bytes → FrameParser
held b = record { chunks = b ∷ []; size = length b }

held-IsValid : (b : Bytes) → IsValid (held b)
unfolding held
held-IsValid b = record { sized = ap length (sym (append-nil b)) }

contents-held : (b : Bytes) → contents (held b) ≡ b
unfolding held
contents-held b = append-nil b

take_body-TakenAs :
    (b : Bytes) {x : Piece} (total : ℕ)
    → 4 ≤ length b
    → read_u32 b 0 ≡ some total
    → Splits b x
    → TakenAs x b (take_body (held b) b total)
unfolding take_body
take_body-TakenAs b total k e (short h) = absurd (omega arith)
take_body-TakenAs b total k e (waits t e' l u h) = ground (arith, held-IsValid b, contents-held b)
take_body-TakenAs b total k e (whole t f e' l u h r) =
    ground (arith, remaining-IsValid (drop (4 + t) b), contents-remaining (drop (4 + t) b))
take_body-TakenAs b total k e (too_small t k' e' h) =
    ground (arith, held-IsValid b, contents-held b)
take_body-TakenAs b total k e (too_large t k' e' h) =
    ground (arith, held-IsValid b, contents-held b)

short-incomplete : {b : Bytes} {x : Piece} → length b < 4 → Splits b x → x ≡ incomplete
short-incomplete h (short k) = refl
short-incomplete h (waits t e' l u k) = refl
short-incomplete h (whole t f e' l u k r) = absurd (omega arith)
short-incomplete h (too_small t k e' l) = absurd (omega arith)
short-incomplete h (too_large t k e' l) = absurd (omega arith)

materialize-held : (p : FrameParser) → IsValid p → materialize p ≡ (held (contents p), contents p)
unfolding materialize held
materialize-held p v = rw (merge-flatten p.chunks p.size v.sized, v.sized)

take_merged-TakenAs : (b : Bytes) → 4 ≤ length b → TakenAs (split b) b (take_merged (held b, b))
unfolding take_merged
take_merged-TakenAs b k = go (read_u32-total b [] 0 k)
  where
    go :
        (total : ℕ) × (read_u32 b 0 ≡ some total) × (read_u32 (b ++ []) 0 ≡ some total)
        → TakenAs (split b) b (take_merged (held b, b))
    go (total, e, _) = rw (e, take_merged) (take_body-TakenAs b total k e (split-Splits b))

-- `takeOne` sees the bytes only: it answers as `split`, drops what it has read, and keeps the rest.
pub take_one-TakenAs :
    (p : FrameParser) → IsValid p → TakenAs (split (contents p)) (contents p) (take_one p)
unfolding take_one
take_one-TakenAs p v = elim (Bool-cases (ltb p.size 4)) [
  | inl s ↦
      rw (short-incomplete (ground (arith, v.sized)) (split-Splits (contents p)), s) (v, refl, refl)
  | inr s ↦
      rw (s, materialize-held p v) (take_merged-TakenAs (contents p) (ground (arith, v.sized)))
]
