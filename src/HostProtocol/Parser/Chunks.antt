-- ===== src/HostProtocol/Parser/Chunks.antt =====
-- `FrameParser.push` over the chunks of a stream, however the socket cuts it.
use mathlib.Core.List.{append-nil, append_assoc}
use parasor.Base.Bytes.{Bytes}
use parasor.Base.{
  ◌≡◌, refl, sym, ap, ◌∙◌, ◌⊎◌, inl, inr, subst, List, [], ◌∷◌, ◌++◌, arith, flatten,
}
use parasor.HostProtocol.Frame.{ErrorCode, Frame}
use parasor.HostProtocol.Parser.Split.{Piece, taken, split}
use parasor.HostProtocol.Parser.TakeOne.{contents, split_append_taken, split_append_failed}
use parasor.HostProtocol.Parser.{
  FrameParser, Pushed, frames, throws, throws_range_error, out_of_fuel, push,
}
use parasor.HostProtocol.Parser.Drain.{
  Decodes, stop, more, Rejects, now, later, IsIdle, Outcome, push-Outcome,
}

pub Decodes-append :
    {r b s : Bytes} {fs gs : List Frame} (c : Bytes)
    → Decodes r b fs
    → Decodes s (r ++ c) gs
    → Decodes s (b ++ c) (fs ++ gs)
Decodes-append c (stop e w) d = rw e d
Decodes-append c (more {b} e t) d = more (split_append_taken b c e) (Decodes-append c t d)

pub Rejects-append : {e : ErrorCode} {b : Bytes} (c : Bytes) → Rejects e b → Rejects e (b ++ c)
Rejects-append c (now {b} e) = now (split_append_failed b c e)
Rejects-append c (later {b} e t) = later (split_append_taken b c e) (Rejects-append c t)

same_rest :
    {x : Piece} {f g : Frame} {s t : Bytes} → x ≡ taken f s → x ≡ taken g t → (f ≡ g) × (s ≡ t)
same_rest h k = (cc, cc)

pub Decodes-unique :
    {r b s : Bytes} {fs gs : List Frame} → Decodes r b fs → Decodes s b gs → (fs ≡ gs) × (r ≡ s)
Decodes-unique (stop e w) (stop e' w') = (refl, sym e ∙ e')
Decodes-unique (stop e w) (more k t) = cc
Decodes-unique (more k t) (stop e w) = cc
Decodes-unique {s} (more k t) (more {fs} k' t') =
    let (head, rest) = same_rest k k' in
    let (tail, end) = Decodes-unique t (subst (λ x. Decodes s x fs) (sym rest) t') in (cc, end)

pub Decodes-not-Rejects :
    {r b : Bytes} {fs : List Frame} {e : ErrorCode} → Decodes r b fs → ¬ Rejects e b
Decodes-not-Rejects (stop e w) (now k) = cc
Decodes-not-Rejects (stop e w) (later k t) = cc
Decodes-not-Rejects (more k t) (now k') = cc
Decodes-not-Rejects {e} (more k t) (later k' t') =
    Decodes-not-Rejects t (subst (Rejects e) (sym (same_rest k k').1) t')

pub Rejects-unique : {e : ErrorCode} {b : Bytes} {c : ErrorCode} → Rejects e b → Rejects c b → e ≡ c
Rejects-unique (now k) (now k') = ground (arith, sym k ∙ k')
Rejects-unique (now k) (later k' t) = cc
Rejects-unique (later k t) (now k') = cc
Rejects-unique {c} (later k t) (later k' t') =
    Rejects-unique t (subst (Rejects c) (sym (same_rest k k').1) t')

-- How a run of calls ended: with the last chunk, or with an exception.
pub data Ending : Type 0 where
  reached thrown_range_error fuel_out : Ending
  thrown : ErrorCode → Ending

-- What the reader of a socket has seen: the parser, the frames that all calls returned, and the end.
pub record Transcript : Type 0 where
  pub parser : FrameParser
  pub delivered : List Frame
  pub ending : Ending

abbrev at_once : FrameParser → Ending → Transcript
at_once q e = record { parser = q; delivered = []; ending = e }

abbrev resume : FrameParser × Pushed → (FrameParser → Transcript) → Transcript
resume (q, frames fs) next = record (next q) { delivered = fs ++ (next q).delivered }
resume (q, throws e) next = at_once q (thrown e)
resume (q, throws_range_error) next = at_once q thrown_range_error
resume (q, out_of_fuel) next = at_once q fuel_out

-- The reader hands the chunks over in turn, up to the first exception, and keeps what earlier calls returned.
unfoldable pub push_all : FrameParser → List Bytes → Transcript
push_all p [] = at_once p reached
push_all p (c ∷ cs) = resume (push p c) (λ q. push_all q cs)

-- The stream `b` is these frames, then `r`, of which nothing is said.
pub data Taken (r : Bytes) : Bytes → List Frame → Type 0 where
  begin : {b : Bytes} → b ≡ r → Taken r b []
  then_more :
      {b s : Bytes} {f : Frame} {fs : List Frame}
      → split b ≡ taken f s
      → Taken r s fs
      → Taken r b (f ∷ fs)

Decodes-Taken :
    {r b : Bytes} {fs : List Frame} (c : Bytes) → Decodes r b fs → Taken (r ++ c) (b ++ c) fs
Decodes-Taken c (stop e w) = begin (ap (λ x. x ++ c) e)
Decodes-Taken c (more {b} e t) = then_more (split_append_taken b c e) (Decodes-Taken c t)

Taken-append :
    {r s b : Bytes} {fs gs : List Frame} → Taken s b fs → Taken r s gs → Taken r b (fs ++ gs)
Taken-append (begin e) t = rw e t
Taken-append (then_more e d) t = then_more e (Taken-append d t)

pub Taken-Rejects :
    {e : ErrorCode} {r b : Bytes} {fs : List Frame} → Taken r b fs → Rejects e r → Rejects e b
Taken-Rejects (begin e) k = rw e k
Taken-Rejects (then_more e d) k = later e (Taken-Rejects d k)

-- One list of frames is the other with more behind it.
abbrev pub IsPrefix : List Frame → List Frame → Type 0
IsPrefix fs gs = (hs : List Frame) × (fs ++ hs ≡ gs)

longer : {f g : Frame} (fs gs : List Frame) → f ≡ g → IsPrefix fs gs → IsPrefix (f ∷ fs) (g ∷ gs)
longer fs gs e (hs, k) = (hs, cc)

Taken-comparable :
    {r s b : Bytes} {fs gs : List Frame}
    → Taken r b fs
    → Taken s b gs
    → IsPrefix fs gs ⊎ IsPrefix gs fs
Taken-comparable (begin e) d = inl (_, refl)
Taken-comparable (then_more e d) (begin k) = inr (_, refl)
Taken-comparable {s} (then_more e d) (then_more {fs} e' d') =
    let (head, rest) = same_rest e e' in
    elim (Taken-comparable d (subst (λ x. Taken s x fs) (sym rest) d')) [
      | inl k ↦ inl (longer _ _ head k)
      | inr k ↦ inr (longer _ _ (sym head) k)
    ]

-- What a run may have come to, by the bytes that the parser has been given: all whole frames of the stream, or some
-- of them in front of a length that is refused.
abbrev pub Reads : Bytes → FrameParser → List Frame → Ending → Type 0
Reads b q fs reached = IsIdle q × Decodes (contents q) b fs
Reads b q fs (thrown e) = (r : Bytes) × Taken r b fs × Rejects e r
Reads b q fs thrown_range_error = ⊥
Reads b q fs fuel_out = ⊥

abbrev pub Run : Bytes → Transcript → Type 0
Run b t = Reads b t.parser t.delivered t.ending

behind-Reads :
    (b r c : Bytes) {fs : List Frame} (gs : List Frame) (q : FrameParser) (e : Ending)
    → Decodes r b fs
    → Reads (r ++ c) q gs e
    → Reads (b ++ c) q (fs ++ gs) e
behind-Reads b r c gs q reached d o = (o.0, Decodes-append c d o.1)
behind-Reads b r c gs q (thrown e) d (s, t, k) = (s, Taken-append (Decodes-Taken c d) t, k)
behind-Reads b r c gs q thrown_range_error d o = o
behind-Reads b r c gs q fuel_out d o = o

resume-Run :
    (b c : Bytes) (x : FrameParser × Pushed) (next : FrameParser → Transcript)
    → Outcome b x
    → ((q : FrameParser) → IsIdle q → Run (contents q ++ c) (next q))
    → Run (b ++ c) (resume x next)
resume-Run b c (q, frames fs) next o k =
    behind-Reads b (contents q) c (next q).delivered (next q).parser (next q).ending o.1 (k q o.0)
resume-Run b c (q, throws e) next o k = (b ++ c, begin refl, Rejects-append c o)
resume-Run b c (q, throws_range_error) next o k = o
resume-Run b c (q, out_of_fuel) next o k = o

-- The same of a whole run of calls: the cuts between the chunks leave no trace.
pub push_all-Run :
    (p : FrameParser) (cs : List Bytes) → IsIdle p → Run (contents p ++ flatten cs) (push_all p cs)
unfolding push_all
push_all-Run p [] i = rw (append-nil (contents p)) (i, stop refl i.waiting)
push_all-Run p (c ∷ cs) i = rw (← append_assoc (contents p) c (flatten cs)) (
    resume-Run (contents p ++ c) (flatten cs) (push p c) (λ q. push_all q cs) (push-Outcome p c i)
      (λ q j. push_all-Run q cs j))

-- Two runs that have come to the same answer, up to how the bytes left over are stored and to how many frames were
-- returned in front of an exception.
abbrev AgreeAt : Transcript → Transcript → Ending → Ending → Type 0
AgreeAt t u reached reached = (t.delivered ≡ u.delivered) × (contents t.parser ≡ contents u.parser)
AgreeAt t u (thrown e) (thrown c) =
    (e ≡ c) × (IsPrefix t.delivered u.delivered ⊎ IsPrefix u.delivered t.delivered)
AgreeAt t u _ _ = ⊥

abbrev pub Agree : Transcript → Transcript → Type 0
Agree t u = AgreeAt t u t.ending u.ending

Reads-AgreeAt :
    (b : Bytes) (t u : Transcript) (e c : Ending)
    → Reads b t.parser t.delivered e
    → Reads b u.parser u.delivered c
    → AgreeAt t u e c
Reads-AgreeAt b t u reached reached o k = Decodes-unique o.1 k.1
Reads-AgreeAt b t u reached (thrown c) o (r, d, k) = Decodes-not-Rejects o.1 (Taken-Rejects d k)
Reads-AgreeAt b t u reached thrown_range_error o k = k
Reads-AgreeAt b t u reached fuel_out o k = k
Reads-AgreeAt b t u (thrown e) reached (r, d, k) o = Decodes-not-Rejects o.1 (Taken-Rejects d k)
Reads-AgreeAt b t u (thrown e) (thrown c) (r, d, o) (s, d', k) =
    (Rejects-unique (Taken-Rejects d o) (Taken-Rejects d' k), Taken-comparable d d')
Reads-AgreeAt b t u (thrown e) thrown_range_error o k = k
Reads-AgreeAt b t u (thrown e) fuel_out o k = k
Reads-AgreeAt b t u thrown_range_error c o k = absurd o
Reads-AgreeAt b t u fuel_out c o k = absurd o

-- Two ways to cut a byte stream into chunks, for the same idle parser: either both runs of calls end without an
-- exception, and then have returned the same frames and keep the same bytes, or both throw, the same
-- `FrameError`; the frames that were returned before the exception are, for one of them, the first of the other's.
pub push_all-Agree :
    (p : FrameParser) (cs ds : List Bytes)
    → IsIdle p
    → flatten cs ≡ flatten ds
    → Agree (push_all p cs) (push_all p ds)
push_all-Agree p cs ds i e =
    Reads-AgreeAt (contents p ++ flatten cs) (push_all p cs) (push_all p ds) (push_all p cs).ending
      (push_all p ds).ending (push_all-Run p cs i) (rw e (push_all-Run p ds i))
