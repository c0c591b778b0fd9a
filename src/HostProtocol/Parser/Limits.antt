-- ===== src/HostProtocol/Parser/Limits.antt =====
-- What bounds the memory of a `FrameParser`, and how soon it refuses a length.
use parasor.Base.Bytes.{Bytes, read_u32}
use parasor.Base.{ℕ, ◌+◌, ◌<◌, ◌≡◌, ap, List, ◌++◌, some, arith, length}
use parasor.HostProtocol.Frame.{
  ErrorCode, frame_too_large, frame_invalid, Frame, frame_header_bytes, max_payload_bytes,
}
use parasor.HostProtocol.Parser.Split.{
  Piece, incomplete, failed, split, Splits, short, waits, whole, too_small, too_large, split-Splits,
}
use parasor.HostProtocol.Parser.TakeOne.{contents}
use parasor.HostProtocol.Parser.Drain.{Rejects, now, IsIdle, Outcome, push-Outcome}
use parasor.HostProtocol.Parser.Chunks.{Decodes-not-Rejects, Rejects-unique}
use parasor.HostProtocol.Parser.{
  FrameParser, buffered_bytes, Pushed, frames, throws, throws_range_error, out_of_fuel, push,
}

incomplete-lt :
    {b : Bytes} {x : Piece}
    → Splits b x
    → x ≡ incomplete
    → length b < 4 + frame_header_bytes + max_payload_bytes
incomplete-lt (short h) e = omega arith
incomplete-lt (waits t e' l u k) e = omega arith
incomplete-lt (whole t g e' l u k r) e = cc
incomplete-lt (too_small t k e' l) e = cc
incomplete-lt (too_large t k e' l) e = cc

idle-lt :
    (p : FrameParser) → IsIdle p → buffered_bytes p < 4 + frame_header_bytes + max_payload_bytes
unfolding buffered_bytes
idle-lt p i = omega (arith, i.valid.sized, incomplete-lt (split-Splits (contents p)) i.waiting)

-- After a call of `push` that returns, the parser is idle again, and what it buffers is less than one
-- frame of the greatest size, whatever was sent.
pub push-buffered_bytes :
    (p : FrameParser) (c : Bytes) {q : FrameParser} {fs : List Frame}
    → IsIdle p
    → push p c ≡ (q, frames fs)
    → IsIdle q × (buffered_bytes q < 4 + frame_header_bytes + max_payload_bytes)
push-buffered_bytes p c {q} i e = let o = rw e at (push-Outcome p c i) in (o.0, idle-lt q o.0)

refuses :
    (b : Bytes) {e : ErrorCode} (x : FrameParser × Pushed)
    → Rejects e b
    → Outcome b x
    → x.1 ≡ throws e
refuses b (q, frames gs) r o = absurd (Decodes-not-Rejects o.1 r)
refuses b (q, throws c) r o = ap throws (Rejects-unique o r)
refuses b (q, throws_range_error) r o = absurd o
refuses b (q, out_of_fuel) r o = absurd o

-- The lengths that no frame can have.
pub data Refused (total : ℕ) : ErrorCode → Type 0 where
  below : total < frame_header_bytes → Refused total frame_invalid
  above : frame_header_bytes + max_payload_bytes < total → Refused total frame_too_large

split_failed :
    (b : Bytes) (total : ℕ) {e : ErrorCode}
    → read_u32 b 0 ≡ some total
    → Refused total e
    → split b ≡ failed e
unfolding split
split_failed b total k (below h) = ground arith
split_failed b total k (above h) = ground arith

-- As soon as the four bytes of a length have arrived, a length that no frame can have makes `push`
-- throw: `FRAME_INVALID` if it is below the header's, `FRAME_TOO_LARGE` if the payload is above the cap.
pub push_refuses :
    (p : FrameParser) (c : Bytes) (total : ℕ) {e : ErrorCode}
    → IsIdle p
    → read_u32 (contents p ++ c) 0 ≡ some total
    → Refused total e
    → (push p c).1 ≡ throws e
push_refuses p c total i k r =
    refuses (contents p ++ c) (push p c) (now (split_failed (contents p ++ c) total k r))
      (push-Outcome p c i)
