-- ===== src/HostProtocol/Parser/Drain.antt =====
-- `FrameParser.push` decodes the byte stream, however the socket cuts it.
use mathlib.Core.List.{append-nil}
use parasor.Base.Bytes.{Bytes}
use parasor.Base.{
  ℕ, zero, suc, ◌+◌, ◌<◌, ◌≡◌, refl, sym, ap, ◌∙◌, Option, none, some, List, [], ◌∷◌, ◌++◌, arith,
  length, flatten, length-drop, length-append, flatten-concat,
}
use parasor.HostProtocol.Frame.{ErrorCode, Result, ok, err, range_error, Frame}
use parasor.HostProtocol.Parser.Split.{
  Piece, incomplete, taken, failed, split, Splits, short, waits, whole, too_small, too_large,
  split-Splits,
}
use parasor.HostProtocol.Parser.TakeOne.{contents, IsValid, TakenAs, take_one-TakenAs}
use parasor.HostProtocol.Parser.{
  FrameParser, new_parser, take_one, Pushed, frames, throws, throws_range_error, out_of_fuel, drain,
  push, prepend,
}

-- The stream `b` is these frames, then the bytes `r` that are no whole frame yet.
pub data Decodes (r : Bytes) : Bytes → List Frame → Type 0 where
  stop : {b : Bytes} → b ≡ r → split b ≡ incomplete → Decodes r b []
  more :
      {b s : Bytes} {f : Frame} {fs : List Frame}
      → split b ≡ taken f s
      → Decodes r s fs
      → Decodes r b (f ∷ fs)

-- The stream `b` comes, behind some whole frames, to a length that is refused.
pub data Rejects (e : ErrorCode) : Bytes → Type 0 where
  now : {b : Bytes} → split b ≡ failed e → Rejects e b
  later : {b s : Bytes} {f : Frame} → split b ≡ taken f s → Rejects e s → Rejects e b

-- A parser between two calls: its counter is right, and it holds no whole frame.
pub record IsIdle (p : FrameParser) : Type 0 where
  pub valid : IsValid p
  pub waiting : split (contents p) ≡ incomplete

-- What a call may end with, by the bytes that the parser has then seen and not yet delivered.
abbrev pub Outcome : Bytes → FrameParser × Pushed → Type 0
Outcome b (q, frames fs) = IsIdle q × Decodes (contents q) b fs
Outcome b (q, throws e) = Rejects e b
Outcome b (q, throws_range_error) = ⊥
Outcome b (q, out_of_fuel) = ⊥

-- A frame is longer than its header, so the loop ends.
taken_shorter :
    {b r : Bytes} {f : Frame} {x : Piece} → Splits b x → x ≡ taken f r → length r < length b
taken_shorter (short h) e = cc
taken_shorter (waits t e' l u k) e = cc
taken_shorter {b} (whole t g e' l u k r) e = ground (arith, length-drop (4 + t) b)
taken_shorter (too_small t k e' l) e = cc
taken_shorter (too_large t k e' l) e = cc

prepend-Outcome :
    (b s : Bytes) {f : Frame} (x : FrameParser × Pushed)
    → split b ≡ taken f s
    → Outcome s x
    → Outcome b (prepend f x)
prepend-Outcome b s (q, frames fs) e o = (o.0, more e o.1)
prepend-Outcome b s (q, throws c) e o = later e o
prepend-Outcome b s (q, throws_range_error) e o = o
prepend-Outcome b s (q, out_of_fuel) e o = o

-- One round of the loop, given the next ones.
round :
    (fuel : ℕ) (b : Bytes) (x : Piece) (y : FrameParser × Result (Option Frame))
    → split b ≡ x
    → length b < suc fuel
    → TakenAs x b y
    → ((q : FrameParser)
        → IsValid q
        → length (contents q) < fuel
        → Outcome (contents q) (drain fuel q))
    → Outcome b (elim (y.1) [
      | err e ↦ (y.0, throws e)
      | range_error ↦ (y.0, throws_range_error)
      | ok none ↦ (y.0, frames [])
      | ok (some f) ↦ prepend f (drain fuel y.0)
    ])
round fuel b incomplete (q, t) e h (v, c, k) rest =
    rw k (record { valid = v; waiting = ap split c ∙ e }, stop (sym c) e)
round fuel b (taken f r) (q, t) e h (v, c, k) rest =
    let small = taken_shorter (split-Splits b) e in
    rw k (
      prepend-Outcome b (contents q) (drain fuel q) (e ∙ ap (taken f) (sym c))
        (rest q v (ground (arith, ap length c))))
round fuel b (failed c) (q, t) e h (v, _, k) rest = rw k (now e)

drain-Outcome :
    (fuel : ℕ) (p : FrameParser)
    → IsValid p
    → length (contents p) < fuel
    → Outcome (contents p) (drain fuel p)
unfolding drain
drain-Outcome zero p v h = absurd (omega arith)
drain-Outcome (suc fuel) p v h =
    round fuel (contents p) (split (contents p)) (take_one p) refl h (take_one-TakenAs p v)
      (λ q w k. drain-Outcome fuel q w k)

pub new_parser-IsIdle : IsIdle new_parser
unfolding split
new_parser-IsIdle = record { valid = omega arith; waiting = refl }

-- One call of `push` ends, throws nothing but a `FrameError`, and answers for the whole stream.
pub push-Outcome : (p : FrameParser) (c : Bytes) → IsIdle p → Outcome (contents p ++ c) (push p c)
unfolding push
push-Outcome p [] i = rw (append-nil (contents p)) (i, stop refl i.waiting)
push-Outcome p (x ∷ c) i = rw (← flatten-concat p.chunks (x ∷ c)) (
    drain-Outcome _ (record { chunks = p.chunks ++ (x ∷ c) ∷ []; size = p.size + length (x ∷ c) })
      (record { sized = grown }) (omega (arith, grown)))
  where
    grown : p.size + length (x ∷ c) ≡ length (flatten (p.chunks ++ (x ∷ c) ∷ []))
    grown = omega (
      arith,
      i.valid.sized,
      ap length (flatten-concat p.chunks (x ∷ c)),
      length-append (contents p) (x ∷ c),
    )
